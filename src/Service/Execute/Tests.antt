-- ===== src/Service/Execute/Tests.antt =====
-- A test execution that is verified, and the theorem on its handler applied to it.
use seeding_plan_backend.Prelude.{
  ℕ, ◌≡◌, ◌≢◌, refl, ◌⊎◌, true, some, List, [], ◌∷◌, String, first_row,
}
use seeding_plan_backend.Errors.{ok}
use seeding_plan_backend.State.{ExecutionState, write_in_progress}
use seeding_plan_backend.Execution.{
  PlanReadbackReceipt, BatchStatus, verified_paused, BatchExecutionReceipt,
}
use seeding_plan_backend.Execution.Readback.{
  readback_rows, compare_rows, compare_creatives, index_rows, last_row, judge, campaign_paused,
  unit_paused, compare_target_info, same_list, same_keywords, take_out,
}
use seeding_plan_backend.Execution.Engine.{
  Call, relock, verify_locked, run_plan, run_plans, relock_account, readback, read_objects,
  extract_object_ids, read_int_ids, execute,
}
use seeding_plan_backend.Execution.Tests.{sha, plan, world, ids, calls}
use seeding_plan_backend.Store.{Db, Project, empty_db}
use seeding_plan_backend.Store.Rows.{is_project}
use seeding_plan_backend.Store.Grants.Tests.{grant, project}
use seeding_plan_backend.Store.Plans.Tests.{old}
use seeding_plan_backend.Service.Execute.{ExecutionInput, target_of, process_test_execution}
use seeding_plan_backend.Service.Execute.Target.{Verified, process_test_execution-Target}

abbrev input : ExecutionInput
input = record { project_id = "p"; grant_id = "g"; advertiser_id = 1; plans = plan "h" ∷ [] }

abbrev receipt : BatchExecutionReceipt
receipt = record {
  status = verified_paused;
  advertiser_id = 1;
  plan_receipts = judge sha (plan "h") ids [] true ∷ [];
  relock_receipt_id = some "locked";
  lock_verified = true;
}

abbrev asked : List Call
asked = verify_locked ∷ relock ∷ calls

executed : execute sha world 1 (plan "h" ∷ []) [] ≡ (ok receipt, asked)
unfolding execute run_plans relock_account run_plan extract_object_ids read_int_ids readback
    read_objects readback_rows compare_rows compare_creatives index_rows last_row judge
    campaign_paused unit_paused compare_target_info same_list same_keywords take_out
executed = refl

abbrev writing : Project
writing = record project { execution_state = write_in_progress }

abbrev db : Db
db = record empty_db {
  projects = writing ∷ [];
  grants = grant ∷ [];
  plan_revisions = old "r" "k" ∷ [];
}

abbrev sha_receipt : PlanReadbackReceipt → String
sha_receipt r = "h"

abbrev json : String → BatchExecutionReceipt → String
json g r = "{}"

abbrev reason : BatchStatus → String
reason s = "TEST_EXECUTION"

abbrev uuid : ℕ → String
uuid n = "id"

abbrev clock : ℕ → ℕ
clock n = 5

in_table : first_row (is_project "p") db.projects ≡ some writing
unfolding first_row
in_table = refl

process_test_execution-Target_example :
    (db' : Db) × (row' : Project) × (process_test_execution sha sha_receipt json reason uuid uuid
        clock
        (some world)
        input
        ([], db)
      ≡ (ok receipt, (asked, db')))
    × (first_row (is_project "p") db'.projects ≡ some row')
    × (row'.execution_state ≡ target_of receipt.status)
    × ((row'.execution_state ≢ ExecutionState.readback_verified) ⊎ Verified input receipt)
process_test_execution-Target_example =
    process_test_execution-Target sha sha_receipt json reason uuid uuid clock input receipt world []
      asked db writing executed in_table refl refl (unfold judge in (refl, tt))
