-- ===== src/Examples/Targets.antt =====
-- Scores of three cells.
use mathlib.Core.List.{Memᴰ}
use adapt.Prelude.{
  ◌≡◌, ◌-◌, ◌+◌, refl, true, false, ◌&&◌, some, [], ◌∷◌, Text, text_eq, text_ltb, ◌==◌, codes,
}
use adapt.Dict.{Dict, get, put}
use adapt.Exec.{ok, raise, value_error}
use adapt.Targets.Models.{
  continuation, switch, gt, TseConfig, CellSnapshot, Snapshot, CurrentTarget,
}
use adapt.Targets.Engine.{Calendar, candidates_from, scores_of, select}
use adapt.Targets.Engine.Decisions.{Agrees, select-Agrees}
use adapt.Targets.Rules.{is_candidate, total_score, select_best, continue_or_switch}
use adapt.Targets.Rules.Best.{select_best_greatest}
use adapt.Targets.Rules.Margin.{continue_or_switch_switches, continue_or_switch_continues}
use adapt.Examples.Integers.{ℤ, pos, negsuc, integers, integers-IsOrdered}

abbrev scored : Dict Text ℤ
scored = (codes "C", pos 30) ∷ (codes "A", pos 40) ∷ (codes "B", pos 40) ∷ []

-- Ties go to the smaller uid.
best_scored : select_best integers scored ≡ some (codes "A", pos 40)
unfolding select_best
best_scored = refl

select_best_greatest_example :
    Memᴰ (codes "A", pos 40) scored
    × (integers.less (pos 40) (pos 40) ≡ false)
    × ((integers.same (negsuc 39) (negsuc 39) && text_ltb (codes "B") (codes "A")) ≡ false)
select_best_greatest_example =
    select_best_greatest integers integers-IsOrdered scored (codes "A", pos 40) (codes "B", pos 40)
      best_scored (Memᴰ.tail (Memᴰ.tail (Memᴰ.head refl)))

score_of_c : get (codes "C") scored ≡ some (pos 30)
unfolding get
score_of_c = refl

switch_to_a : continue_or_switch integers (codes "C") scored (pos 5) ≡ ok (codes "A", switch)
unfolding continue_or_switch get
switch_to_a = refl

keep_c : continue_or_switch integers (codes "C") scored (pos 10) ≡ ok (codes "C", continuation)
unfolding continue_or_switch get
keep_c = refl

continue_or_switch_switches_example :
    (score : ℤ) × Memᴰ (codes "A", score) scored
    × ((codes "A" == codes "C") ≡ false)
    × (integers.less (pos 35) score ≡ true)
    × (integers.less score (pos 40) ≡ false)
continue_or_switch_switches_example =
    continue_or_switch_switches integers integers-IsOrdered (codes "C") (codes "A") scored (pos 5)
      (pos 30) (codes "B", pos 40) score_of_c switch_to_a (Memᴰ.tail (Memᴰ.tail (Memᴰ.head refl)))
      refl

continue_or_switch_continues_example :
    (codes "C" ≡ codes "C") × (integers.less (pos 40) (pos 40) ≡ false)
continue_or_switch_continues_example =
    continue_or_switch_continues integers integers-IsOrdered (codes "C") (codes "C") scored (pos 10)
      (pos 30) (codes "A", pos 40) score_of_c (refl, (refl, (refl, tt))) keep_c
      (Memᴰ.tail (Memᴰ.head refl)) refl

abbrev calendar : Calendar ℤ
calendar = record {
  seconds_between = λ a b. pos (b - a);
  add_seconds = λ t s. elim s [ pos n ↦ ok (t + n) | negsuc n ↦ raise value_error ];
}

abbrev config : TseConfig ℤ
config = record {
  gates = record { field = codes "z"; op = gt; value = pos 20 } ∷ [];
  min_age_seconds = pos 300;
  weight_field = pos 1;
  weight_area = pos 0;
  weight_growth_rate = pos 0;
  projection_steps = 1;
  sites = [];
  switch_margin = pos 5;
  max_observation_seconds = pos 900;
}

abbrev cell_of : Text → ℤ → CellSnapshot ℤ
cell_of uid z = record {
  uid = uid;
  lat = pos 0;
  lon = pos 0;
  area_sqkm = pos 10;
  field_max = z;
  age_seconds = pos 600;
  growth_rate_sqkm_per_min = pos 0;
  trajectory = [];
  values = (codes "z", z) ∷ [];
}

-- C passes the gate, D does not, and A exceeds C by more than the margin.
abbrev snapshot : Snapshot ℤ
snapshot = record {
  scan_time = 500;
  cells =
      cell_of (codes "C") (pos 30)
      ∷ cell_of (codes "D") (pos 10)
      ∷ cell_of (codes "A") (pos 40)
      ∷ [];
}

abbrev passing : Dict Text (CellSnapshot ℤ)
passing = (codes "C", cell_of (codes "C") (pos 30)) ∷ (codes "A", cell_of (codes "A") (pos 40)) ∷ []

abbrev passing_scores : Dict Text ℤ
passing_scores = (codes "C", pos 30) ∷ (codes "A", pos 40) ∷ []

passing_lem : candidates_from integers calendar config snapshot.cells [] ≡ ok passing
unfolding candidates_from is_candidate get put
passing_lem = refl

scores_lem : scores_of integers calendar config passing ≡ ok passing_scores
unfolding scores_of total_score
scores_lem = refl

abbrev observing_c : CurrentTarget
observing_c = record { cell_uid = codes "C"; started_at = 100 }

select-Agrees_example :
    Agrees calendar config (select integers calendar config snapshot (some observing_c))
select-Agrees_example =
    select-Agrees integers calendar config snapshot passing passing_scores (some observing_c)
      passing_lem scores_lem
