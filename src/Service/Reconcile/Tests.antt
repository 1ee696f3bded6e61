-- ===== src/Service/Reconcile/Tests.antt =====
-- A reconciliation that finds the campaign again, and the theorem on the handler applied to it.
use seeding_plan_backend.Prelude.{
  ℕ, ◌≡◌, refl, true, none, some, List, [], ◌∷◌, String, first_row, where_rows,
}
use seeding_plan_backend.Errors.{ok, err, seeding, invalid_execution_state_transition}
use seeding_plan_backend.State.{ExecutionState}
use seeding_plan_backend.Execution.{
  text, PlanReadbackReceipt, BatchStatus, reconciled_verified_paused, BatchExecutionReceipt,
}
use seeding_plan_backend.Execution.Readback.{
  readback_rows, compare_rows, compare_creatives, index_rows, last_row, judge, campaign_paused,
  unit_paused, compare_target_info, same_list, same_keywords, take_out,
}
use seeding_plan_backend.Execution.Engine.{
  Call, preflight, update_campaign_status, list_campaigns, list_units, search_creativities,
  find_campaigns, find_units, find_creatives, relock, verify_locked, relock_account, readback,
  read_objects, read_int_ids,
}
use seeding_plan_backend.Execution.Reconcile.{
  pause_found, reconcile_plan, reconcile_plans, reconcile,
}
use seeding_plan_backend.Execution.Tests.{sha, plan, world, ids}
use seeding_plan_backend.Store.{Db, Project, empty_db}
use seeding_plan_backend.Store.Rows.{is_project}
use seeding_plan_backend.Store.Grants.Tests.{grant, project}
use seeding_plan_backend.Store.Plans.Tests.{old}
use seeding_plan_backend.Service.Execute.{ExecutionInput}
use seeding_plan_backend.Service.Reconcile.{process_reconcile}
use seeding_plan_backend.Service.Reconcile.Refused.{process_reconcile-refused}

abbrev input : ExecutionInput
input = record { project_id = "p"; grant_id = "g"; advertiser_id = 1; plans = plan "h" ∷ [] }

abbrev receipt : BatchExecutionReceipt
receipt = record {
  status = reconciled_verified_paused;
  advertiser_id = 1;
  plan_receipts = judge sha (plan "h") ids [] true ∷ [];
  relock_receipt_id = some "locked";
  lock_verified = true;
}

abbrev asked : List Call
asked =
    verify_locked
    ∷ relock
    ∷ search_creativities (9 ∷ [])
    ∷ list_units (8 ∷ [])
    ∷ list_campaigns (7 ∷ [])
    ∷ update_campaign_status (7 ∷ []) 2
    ∷ find_creatives 7 8
    ∷ find_units 7
    ∷ find_campaigns (text "c")
    ∷ preflight
    ∷ []

reconciled : reconcile sha world 1 (plan "h" ∷ []) [] ≡ (ok receipt, asked)
unfolding reconcile reconcile_plans reconcile_plan pause_found where_rows relock_account
    read_int_ids readback read_objects readback_rows compare_rows compare_creatives index_rows
    last_row judge campaign_paused unit_paused compare_target_info same_list same_keywords take_out
reconciled = refl

abbrev waiting : Project
waiting = record project { execution_state = ExecutionState.reconcile_required }

abbrev db : Db
db = record empty_db {
  projects = waiting ∷ [];
  grants = grant ∷ [];
  plan_revisions = old "r" "k" ∷ [];
}

abbrev text_sha : String → String
text_sha s = s

abbrev sha_receipt : PlanReadbackReceipt → String
sha_receipt r = "h"

abbrev event_json : String → BatchExecutionReceipt → String
event_json g r = "{}"

abbrev result_json : BatchExecutionReceipt → String
result_json r = "{}"

abbrev reason : BatchStatus → String
reason s = "RECONCILE"

abbrev uuid : ℕ → String
uuid n = "id"

abbrev clock : ℕ → ℕ
clock n = 5

in_table : first_row (is_project "p") db.projects ≡ some waiting
unfolding first_row
in_table = refl

process_reconcile-refused_example :
    (db' : Db) × (process_reconcile sha text_sha sha_receipt event_json result_json reason uuid uuid
        clock "s" none
        (some world)
        true
        input
        ([], db)
      ≡ (err (seeding invalid_execution_state_transition), (asked, db')))
    × (db'.projects ≡ db.projects)
process_reconcile-refused_example =
    process_reconcile-refused sha text_sha sha_receipt event_json result_json reason uuid uuid clock
      "s" input receipt none world [] asked db waiting reconciled refl in_table refl refl
      (unfold judge in (refl, tt))
