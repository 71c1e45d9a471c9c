-- ===== src/Tracking/History/Nodes.antt =====
-- The methods of CellTracker (src/adapt/modules/tracking/module.py) that add nodes, identities and
-- edges keep the invariant, and only add to the record.
use adapt.Prelude.{
  ℕ, ◌+◌, ◌≡◌, refl, sym, subst, ◌∙◌, Bool, true, false, Option, none, some, List, Text, arith,
  nat_eq, nat_beq, nat_beq_iff, if◌then◌else◌, inl, inr,
}
use adapt.Dict.{Dict, get, put, get-put}
use adapt.Exec.{value_error, key_error, Result-cases}
use adapt.Tracking.Models.{Observation, TrackingGraph, Tracker, Cell, Config, EdgeType}
use adapt.Tracking.Graph
use adapt.Tracking.Identity.{track_signature_v2, cell_uid_from_signature}
use adapt.Tracking.Graph.{get_node, DiGraphLaws}
use adapt.Tracking.Env.{Env}
use adapt.Tracking.Events.{node, get_cell_identity, uid}
use adapt.Tracking.Tracker.{
  add_edge, add_observation, get_new_track_index, add_node_as, add_cell_node, new_cell_identity,
  new_track_node, initialize_tracks, update_motion,
}
use adapt.Floats.{divide}
use adapt.Tracking.History.{
  IsConsistent, Extends, IsTracked, Grows, Grows-refl, Grows-trans, Evolves, Evolves-pure,
  Evolves-lift, Evolves-need, Evolves->>=, Evolves-for_each,
}

module _ {G F : Type 0} (env : Env G F) (config : Config F) (laws : DiGraphLaws env.dg) where
  open env use {fl, dg}

  same_observation :
      (P : Observation F → Type 0) (o p : Observation F) (b : Bool) (old : Option (Observation F))
      → P o
      → (old ≡ some p → P p)
      → (if b then some o else old) ≡ some p
      → P p
  same_observation P o p true old new kept e = subst P (ground arith) new
  same_observation P o p false old new kept e = kept e

  -- A node with the identity that its track has may be added.
  observed :
      (o : Observation F) (t : TrackingGraph F G) (identity : Dict ℕ (Text × Text))
      → get o.track_index identity ≡ some (o.cell_uid, o.track_signature)
      → IsConsistent env t identity
      → IsConsistent env (Graph.add_observation dg o t).1 identity
        × Extends env t identity (Graph.add_observation dg o t).1 identity
  observed o t identity e h =
      let free = h.unused_nodes t.node_counter (omega arith) in
      (
        record {
          unused_nodes = λ n l.
              laws.attrs-add_node t.node_counter n o t.graph free
              ∙ ground (arith, h.unused_nodes n (omega arith));
          unused_tracks = h.unused_tracks;
          identified = λ n p q.
              same_observation
                (λ x. get x.track_index identity ≡ some (x.cell_uid, x.track_signature)) o p
                (nat_beq t.node_counter n) (get_node env.dg t n) e (h.identified n p)
                (sym (laws.attrs-add_node t.node_counter n o t.graph free) ∙ q);
        },
        record {
          nodes_kept = λ n p q.
              laws.attrs-add_node t.node_counter n o t.graph free
              ∙ ground (arith, h.unused_nodes n);
          identities_kept = λ k i p. p;
          more_nodes = omega arith;
          more_tracks = omega arith;
        },
      )

  pub add_edge-Evolves :
      (from to : ℕ) (kind : EdgeType) (cost : F)
      → Evolves env (add_edge env config from to kind cost)
  unfolding add_edge
  add_edge-Evolves from to kind cost = record {
    step = λ s h.
        let same : (n : ℕ)
            → dg.attrs (dg.add_edge from to (kind, cost) s.tracking.graph) n
              ≡ dg.attrs s.tracking.graph n =
          λ n. laws.attrs-add_edge from to n (kind, cost) s.tracking.graph in
        (
          record {
            unused_nodes = λ n l. same n ∙ h.unused_nodes n l;
            unused_tracks = h.unused_tracks;
            identified = λ n o e. h.identified n o (sym (same n) ∙ e);
          },
          record {
            nodes_kept = λ n o e. same n ∙ e;
            identities_kept = λ k i e. e;
            more_nodes = omega arith;
            more_tracks = omega arith;
          },
        );
  }

  pub add_node_as-step :
      (time : ℕ) (cell : Cell F) (k : ℕ) (identity : Text × Text) (s : Tracker F G)
      → get k s.cell_identity ≡ some identity
      → IsTracked env s
      → IsTracked env (add_node_as env config time cell k identity s).1
        × Grows env s (add_node_as env config time cell k identity s).1
  unfolding add_node_as add_observation
  add_node_as-step time cell k identity s e h = observed _ s.tracking s.cell_identity e h

  -- A new track index, without and with an identity of its own.
  counted :
      (t : TrackingGraph F G) (ids : Dict ℕ (Text × Text))
      → IsConsistent env t ids
      → IsConsistent env (record t { track_counter = t.track_counter + 1 }) ids
        × Extends env t ids (record t { track_counter = t.track_counter + 1 }) ids
  counted t ids h = (
    record {
      unused_nodes = h.unused_nodes;
      unused_tracks = λ k l. h.unused_tracks k (omega arith);
      identified = h.identified;
    },
    record {
      nodes_kept = λ n o e. e;
      identities_kept = λ k i e. e;
      more_nodes = omega arith;
      more_tracks = omega arith;
    },
  )

  named :
      (t : TrackingGraph F G) (ids : Dict ℕ (Text × Text)) (i : Text × Text)
      → IsConsistent env t ids
      → IsConsistent env
          (record t { track_counter = t.track_counter + 1 })
          (put (t.track_counter + 1) i ids)
        × Extends env t ids
            (record t { track_counter = t.track_counter + 1 })
            (put (t.track_counter + 1) i ids)
  named t ids i h =
      let kept : (k : ℕ) (j : Text × Text)
          → get k ids ≡ some j
          → get k (put (t.track_counter + 1) i ids) ≡ some j =
        λ k j e.
          get-put (t.track_counter + 1) k i ids
          ∙ ground (arith, e, h.unused_tracks k, nat_beq_iff (t.track_counter + 1) k) in
      (
        record {
          unused_nodes = h.unused_nodes;
          unused_tracks =
              λ k l. get-put (t.track_counter + 1) k i ids ∙ ground (arith, h.unused_tracks k);
          identified =
              λ n o e. kept o.track_index (o.cell_uid, o.track_signature) (h.identified n o e);
        },
        record {
          nodes_kept = λ n o e. e;
          identities_kept = kept;
          more_nodes = omega arith;
          more_tracks = omega arith;
        },
      )

  pub new_track_node-Evolves :
      (time : ℕ) (cell : Cell F) → Evolves env (new_track_node env config time cell)
  unfolding new_track_node new_cell_identity get_new_track_index
  new_track_node-Evolves time cell = record {
    step = λ s h. elim (Result-cases (track_signature_v2 s.scan_id cell.cell_id)) [
      | inl (signature, e) ↦
          let i : Text × Text =
            (cell_uid_from_signature env.value64 signature config.uid_width, signature) in
          let k = s.tracking.track_counter + 1 in
          let mid : Tracker F G = record s {
            tracking = record s.tracking { track_counter = k };
            cell_identity = put k i s.cell_identity;
          } in
          let (h1, g1) = named s.tracking s.cell_identity i h in
          let (h2, g2) =
            add_node_as-step time cell k i mid (get-put k k i s.cell_identity ∙ ground arith) h1 in
          rw e (h2, Grows-trans env s mid (add_node_as env config time cell k i mid).1 g1 g2)
      | inr (x, e) ↦ rw e (counted s.tracking s.cell_identity h)
    ];
  }

  pub initialize_tracks-Evolves :
      (time : ℕ) (cells : List (Cell F)) → Evolves env (initialize_tracks env config time cells)
  unfolding initialize_tracks
  initialize_tracks-Evolves time cells = Evolves-for_each env (new_track_node-Evolves time) cells

  pub add_cell_node-Evolves :
      (time : ℕ) (cell : Cell F) (k : ℕ) → Evolves env (add_cell_node env config time cell k)
  unfolding add_cell_node
  add_cell_node-Evolves time cell k = record {
    step = λ s h. found s h (get k s.cell_identity) refl;
  }
    where
      found :
          (s : Tracker F G)
          → IsTracked env s
          → (i : Option (Text × Text)) → get k s.cell_identity ≡ i
          → IsTracked env (add_cell_node env config time cell k s).1
            × Grows env s (add_cell_node env config time cell k s).1
      found s h none e = rw e (h, Grows-refl env s)
      found s h (some i) e = rw e (add_node_as-step time cell k i s e h)

  pub node-Evolves : (n : ℕ) → Evolves env (node env n)
  node-Evolves n = record {
    step = λ s. (Evolves-need env key_error (get_node dg s.tracking n)).step s;
  }

  pub get_cell_identity-Evolves : (k : ℕ) → Evolves env (get_cell_identity env k)
  get_cell_identity-Evolves k = record {
    step = λ s. (Evolves-need env value_error (get k s.cell_identity)).step s;
  }

  pub uid-Evolves : (n : ℕ) → Evolves env (uid env n)
  uid-Evolves n =
      Evolves->>= env (node-Evolves n)
        λ o. Evolves->>= env (get_cell_identity-Evolves o.track_index) λ i. Evolves-pure env i.0

  pub update_motion-Evolves :
      (prev_node : ℕ) (cell : Cell F) (k : ℕ) (dt_s : F)
      → Evolves env (update_motion env config prev_node cell k dt_s)
  unfolding update_motion
  update_motion-Evolves prev_node cell k dt_s = Evolves->>= env (node-Evolves prev_node) λ prev.
      Evolves->>= env (Evolves-lift env (divide env.fl _ dt_s)) λ vx.
        Evolves->>= env (Evolves-lift env (divide env.fl _ dt_s))
          λ vy. record { step = λ s h. (h, Grows-refl env s) }
