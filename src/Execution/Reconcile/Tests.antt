-- ===== src/Execution/Reconcile/Tests.antt =====
-- A created campaign that is found again, the theorem on a reconciliation applied to it, and runs that
-- leave it.
use seeding_plan_backend.Prelude.{◌≡◌, refl, none, [], ◌∷◌, where_rows}
use seeding_plan_backend.Errors.{ok, err, unexpected}
use seeding_plan_backend.Execution.{text, number, overflow}
use seeding_plan_backend.Execution.Engine.{preflight, find_campaigns, find_units, find_creatives}
use seeding_plan_backend.Execution.Tests.{sha, plan, world}
use seeding_plan_backend.Execution.Reconcile.{
  reconcile, reconcile_plans, reconcile_plan, found_ids, rows_of_notes,
}
use seeding_plan_backend.Execution.Reconcile.Outcome.{Ended, reconcile-Ended}

reconcile-Ended_example :
    Ended sha world 1 (plan "h" ∷ []) [] (reconcile sha world 1 (plan "h" ∷ []) [])
reconcile-Ended_example = reconcile-Ended sha world 1 (plan "h" ∷ []) []

-- An infinite campaign id leaves `reconcile` with the search as its last call.
overflow_escapes :
    reconcile sha
      (record world {
        on_find_campaigns =
            λ _. ok (record { campaign_name = text "c"; campaign_id = overflow } ∷ []);
      })
      1
      (plan "h" ∷ [])
      []
    ≡ (err unexpected, find_campaigns (text "c") ∷ preflight ∷ [])
unfolding reconcile reconcile_plans reconcile_plan where_rows
overflow_escapes = refl

-- So does a creative whose note id is a list.
unhashable_escapes :
    reconcile sha
      (record world {
        on_find_creatives = λ _. ok (record { creativity_id = number 9; note_id = none } ∷ []);
      })
      1
      (plan "h" ∷ [])
      []
    ≡ (
      err unexpected,
      find_creatives 7 8 ∷ find_units 7 ∷ find_campaigns (text "c") ∷ preflight ∷ [],
    )
unfolding reconcile reconcile_plans reconcile_plan found_ids rows_of_notes where_rows
unhashable_escapes = refl
