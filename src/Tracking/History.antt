-- ===== src/Tracking/History.antt =====
-- What CellTracker (src/adapt/modules/tracking/module.py) keeps true of its graph and its identity
-- map: the invariant, the growth of the record, and how the statements of a method combine.
pub mod Nodes
pub mod Events
pub mod Candidates
pub mod Frames
pub mod Scans
pub mod Reachable
pub mod Continuation
use adapt.Prelude.{
  ℕ, ◌+◌, ◌≤◌, ◌<◌, ◌≡◌, refl, ◌∙◌, Bool, true, false, Option, none, some, List, [], ◌∷◌, Text,
  arith, nat_eq, if◌then◌else◌, Bool-cases,
}
use adapt.Dict.{Dict, get}
use adapt.Exec.{
  Exec, Result, ok, raise, Error, pure, throw, gets, lift, need, modify, and_then, ◌>>=◌, ◌>>◌,
  for_each,
}
use adapt.Tracking.Models.{Observation, TrackingGraph, Tracker}
use adapt.Tracking.Graph.{get_node}
use adapt.Tracking.Env.{Env, Action}

module _ {G F : Type 0} (env : Env G F) where
  -- Unused node numbers and track indices are free, and every node carries the identity of its track.
  pub record IsConsistent (t : TrackingGraph F G) (identity : Dict ℕ (Text × Text)) : Type 0 where
    pub unused_nodes : (n : ℕ) → t.node_counter ≤ n → get_node env.dg t n ≡ none
    pub unused_tracks : (k : ℕ) → t.track_counter < k → get k identity ≡ none
    pub identified :
        (n : ℕ) (o : Observation F)
        → get_node env.dg t n ≡ some o
        → get o.track_index identity ≡ some (o.cell_uid, o.track_signature)

  -- The later record has all that the earlier one has: nodes and identities never change.
  pub record Extends (t : TrackingGraph F G) (identity : Dict ℕ (Text × Text))
      (t' : TrackingGraph F G) (identity' : Dict ℕ (Text × Text)) : Type 0 where
    pub nodes_kept :
        (n : ℕ) (o : Observation F) → get_node env.dg t n ≡ some o → get_node env.dg t' n ≡ some o
    pub identities_kept :
        (k : ℕ) (i : Text × Text) → get k identity ≡ some i → get k identity' ≡ some i
    pub more_nodes : t.node_counter ≤ t'.node_counter
    pub more_tracks : t.track_counter ≤ t'.track_counter

  abbrev pub IsTracked : Tracker F G → Type 0
  IsTracked s = IsConsistent s.tracking s.cell_identity

  abbrev pub Grows : Tracker F G → Tracker F G → Type 0
  Grows s s' = Extends s.tracking s.cell_identity s'.tracking s'.cell_identity

  pub Grows-refl : (s : Tracker F G) → Grows s s
  Grows-refl s = record {
    nodes_kept = λ n o h. h;
    identities_kept = λ k i h. h;
    more_nodes = omega arith;
    more_tracks = omega arith;
  }

  pub Grows-trans : (s t u : Tracker F G) → Grows s t → Grows t u → Grows s u
  Grows-trans s t u a b = record {
    nodes_kept = λ n o h. b.nodes_kept n o (a.nodes_kept n o h);
    identities_kept = λ k i h. b.identities_kept k i (a.identities_kept k i h);
    more_nodes = omega (arith, a.more_nodes, b.more_nodes);
    more_tracks = omega (arith, a.more_tracks, b.more_tracks);
  }

  -- An action that keeps the invariant and the record, whether it returns or raises.
  pub record Evolves {A : Type 0} (m : Action G F A) : Type 0 where
    pub step : (s : Tracker F G) → IsTracked s → IsTracked (m s).1 × Grows s (m s).1

  module _ {A : Type 0} where
    pub Evolves-pure : (a : A) → Evolves (pure a)
    Evolves-pure a = record { step = λ s h. (h, Grows-refl s) }

    pub Evolves-gets : (f : Tracker F G → A) → Evolves (gets f)
    Evolves-gets f = record { step = λ s h. (h, Grows-refl s) }

    pub Evolves-lift : (r : Result A) → Evolves (lift r)
    Evolves-lift r = record { step = λ s h. (h, Grows-refl s) }

    pub Evolves-throw : (e : Error) → Evolves (throw {A = A} e)
    Evolves-throw e = record { step = λ s h. (h, Grows-refl s) }

    pub Evolves-need : (e : Error) (a : Option A) → Evolves (need e a)
    Evolves-need e none = Evolves-throw e
    Evolves-need e (some a) = Evolves-pure a

    pub Evolves-if :
        (b : Bool) {m k : Action G F A} → Evolves m → Evolves k → Evolves (if b then m else k)
    Evolves-if true p q = p
    Evolves-if false p q = q

  module _ {A B : Type 0} where
    and_then-Grows :
        (f : A → Action G F B)
        → ((a : A) → Evolves (f a))
        → (r : Result A) (s s' : Tracker F G) → IsTracked s'
        → Grows s s'
        → IsTracked (and_then r s' f).1 × Grows s (and_then r s' f).1
    and_then-Grows f q (ok a) s s' h g =
        let (h', g') = (q a).step s' h in (h', Grows-trans s s' (f a s').1 g g')
    and_then-Grows f q (raise e) s s' h g = (h, g)

    pub Evolves->>= :
        {m : Action G F A} {f : A → Action G F B}
        → Evolves m
        → ((a : A) → Evolves (f a))
        → Evolves (m >>= f)
    Evolves->>= {m} {f} p q = record {
      step = λ s h. let (h', g) = p.step s h in and_then-Grows f q (m s).0 s (m s).1 h' g;
    }

  module _ {A B : Type 0} where
    pub Evolves-for_each :
        {f : A → Action G F B} → ((a : A) → Evolves (f a)) → (xs : List A) → Evolves (for_each f xs)
    unfolding for_each
    Evolves-for_each p [] = Evolves-pure []
    Evolves-for_each p (x ∷ xs) =
        Evolves->>= (p x) λ y. Evolves->>= (Evolves-for_each p xs) λ ys. Evolves-pure (y ∷ ys)
