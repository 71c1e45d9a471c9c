-- ===== src/Persistence/Registry/Machine.antt =====
-- The registry (src/adapt/persistence/store_registry.py) as a machine on the stages of the runs: what
-- each method does to the set of registered collections and to the stage of every run.
use adapt.Prelude.{
  Bool, true, false, not, ◌&&◌, Option, none, some, List, [], ◌∷◌, Text, text_eq, ◌==◌,
  if◌then◌else◌,
}
use adapt.Persistence.Registry.{RunStatus, terminal_status}
use adapt.Persistence.Registry.Lifecycle.{Lifecycle, absent, underway, closed}
use adapt.Persistence.Registry.Histories.{
  RegistryOperation, add_collection, begin_one, resume_one, finalize_one,
}

-- The registered collections, and where each run stands.
pub record Lives : Type 0 where
  pub known : Text → Bool
  pub stands : Text → Lifecycle

abbrev pub set {ℓ} : {A : Type ℓ} → Text → A → (Text → A) → Text → A
set i a f j = if i == j then a else f j

abbrev pub is_begun : Lifecycle → Bool
is_begun absent = false
is_begun _ = true

abbrev pub is_underway : Lifecycle → Bool
is_underway underway = true
is_underway _ = false

abbrev pub move : Text → Lifecycle → Lives → Lives
move run_id stage l = record l { stands = set run_id stage l.stands }

abbrev pub close : Text → Option RunStatus → Lives → Lives
close run_id none l = l
close run_id (some status) l =
    if is_underway (l.stands run_id) then move run_id (closed status) l else l

abbrev pub nothing_yet : Lives
nothing_yet = record { known = λ c. false; stands = λ i. absent }

module _ {F : Type 0} where
  -- A run begins if its collection is known and it has not begun, resumes if it has begun, and
  -- finishes with a terminal status if it is underway; nothing else moves a run.
  unfoldable pub lives_after : RegistryOperation F → Lives → Lives
  lives_after (add_collection now collection_id source_kind lat lon metadata_json) l = record l {
    known = set collection_id true l.known;
  }
  lives_after (begin_one now start) l =
      if l.known start.collection_id && not (is_begun (l.stands start.run_id))
      then move start.run_id underway l
      else l
  lives_after (resume_one run_id) l =
      if is_begun (l.stands run_id) then move run_id underway l else l
  lives_after (finalize_one now run_id word processed failures) l =
      close run_id (terminal_status word) l
  lives_after _ l = l

  unfoldable pub lives_after_all : List (RegistryOperation F) → Lives → Lives
  lives_after_all [] l = l
  lives_after_all (o ∷ operations) l = lives_after_all operations (lives_after o l)
