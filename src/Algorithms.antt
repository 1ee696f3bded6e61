-- ===== src/Algorithms.antt =====
-- app/seeding/algorithms.py: `uniform_budget_capacity`, which says how many audiences each note
-- gets for a budget. Its inputs are natural numbers here: a negative one, which it refuses as it
-- does 0, is not represented. `//` is the division of the native numbers.
pub mod Capacity
pub mod Tests
use seeding_plan_backend.Prelude.{
  ℕ, ◌*◌, ◌-◌, ◌/◌, min, Bool, true, false, not, List, [], ◌∷◌, all, ltb, eqb, if◌then◌else◌,
}
use seeding_plan_backend.Errors.{Result, ok, err, value_error}

pub record CapacityResult : Type 0 where
  pub pair_cost_fen : ℕ
  pub total_pair_slots : ℕ
  pub audiences_per_note : ℕ
  pub eligible_audiences_per_note : ℕ
  pub selected_audiences_per_note : ℕ
  pub unallocated_fen : ℕ
  pub waiting_budget : Bool

-- not any(value <= 0 for value in values)
abbrev pub all_positive : List ℕ → Bool
all_positive values = all (ltb 0) values

module _
    (expected_daily_spend_fen observation_days phase_budget_fen note_count
      eligible_audiences_per_note business_cap : ℕ) where
  abbrev pub pair_cost : ℕ
  pair_cost = expected_daily_spend_fen * observation_days

  abbrev pub per_note : ℕ
  per_note = phase_budget_fen / pair_cost / note_count

  abbrev pub chosen : ℕ
  chosen = min (min per_note eligible_audiences_per_note) business_cap

  -- what is returned
  abbrev pub capacity : CapacityResult
  capacity = record {
    pair_cost_fen = pair_cost;
    total_pair_slots = phase_budget_fen / pair_cost;
    audiences_per_note = per_note;
    eligible_audiences_per_note = eligible_audiences_per_note;
    selected_audiences_per_note = chosen;
    unallocated_fen = phase_budget_fen - chosen * note_count * pair_cost;
    waiting_budget = eqb chosen 0;
  }

  unfoldable pub uniform_budget_capacity : Result CapacityResult
  uniform_budget_capacity =
      if not (
        all_positive (
          expected_daily_spend_fen ∷ observation_days ∷ phase_budget_fen ∷ note_count
          ∷ eligible_audiences_per_note ∷ business_cap ∷ []))
      then err value_error
      else ok capacity
