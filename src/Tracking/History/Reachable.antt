-- ===== src/Tracking/History/Reachable.antt =====
-- The trackers that CellTracker.track (src/adapt/modules/tracking/module.py) reaches, scan by scan.
use adapt.Prelude.{ℕ, ◌≡◌, sym, ◌∙◌, ap, Option, some, List, Text, arith, nat_eq, refl}
use adapt.Dict.{get}
use adapt.Tracking.Models.{Observation, Tracker, Cell, Config, Projected}
use adapt.Tracking.Graph.{DiGraphLaws, get_node}
use adapt.Tracking.Env.{Env}
use adapt.Tracking.Tracker.{new_tracker}
use adapt.Tracking.Track.{track}
use adapt.Tracking.History.{IsTracked, Grows}
use adapt.Tracking.History.Scans.{track-Evolves}

-- A new tracker, and what any scan makes of one, also a scan that ends in an exception.
pub data Reachable {G F : Type 0} (env : Env G F) (config : Config F) : Tracker F G → Type 0 where
  start : Reachable env config (new_tracker env)
  scan :
      {s : Tracker F G}
      → Reachable env config s
      → (scan_id : Text) (time : ℕ) (ds : Projected F) (cells : List (Cell F))
      → Reachable env config (track env config scan_id time ds cells s).1

module _ {G F : Type 0} (env : Env G F) (config : Config F) (laws : DiGraphLaws env.dg) where
  -- Over a graph with the laws of networkx, on a tracker whose nodes carry the identities of their
  -- tracks: `track` leaves such a tracker, whether it returns or raises, and every node and every
  -- identity that was there is as before.
  pub track-Grows :
      (scan_id : Text) (time : ℕ) (ds : Projected F) (cells : List (Cell F)) (s : Tracker F G)
      → IsTracked env s
      → IsTracked env (track env config scan_id time ds cells s).1
        × Grows env s (track env config scan_id time ds cells s).1
  track-Grows scan_id time ds cells s h =
      (track-Evolves env config laws scan_id time ds cells).step s h

  pub Reachable-IsTracked : {s : Tracker F G} → Reachable env config s → IsTracked env s
  unfolding get
  Reachable-IsTracked start = record {
    unused_nodes = λ n l. laws.attrs-empty n;
    unused_tracks = λ k l. refl;
    identified = λ n o e. absurd (ground (arith, laws.attrs-empty n, e));
  }
  Reachable-IsTracked (scan {s} r scan_id time ds cells) =
      (track-Grows scan_id time ds cells s (Reachable-IsTracked r)).0

  same_pair :
      (a b c d : Text)
      → (◌≡◌ {A = Option (Text × Text)} (some (a, c)) (some (b, d)))
      → (a ≡ b) × (c ≡ d)
  same_pair a b c d e = ground arith

  -- Over a graph with the laws of networkx, after any sequence of scans from a new tracker, two
  -- nodes of the same track have the same uid and the same birth signature.
  pub Reachable-same_identity :
      (s : Tracker F G) (n m : ℕ) (o p : Observation F)
      → Reachable env config s
      → get_node env.dg s.tracking n ≡ some o
      → get_node env.dg s.tracking m ≡ some p
      → o.track_index ≡ p.track_index
      → (o.cell_uid ≡ p.cell_uid) × (o.track_signature ≡ p.track_signature)
  Reachable-same_identity s n m o p r e f same =
      let h = Reachable-IsTracked r in
      same_pair o.cell_uid p.cell_uid o.track_signature p.track_signature
        (sym (h.identified n o e) ∙ ap (λ k. get k s.cell_identity) same ∙ h.identified m p f)
