-- ===== src/Store/Results/Tests.antt =====
-- The result of two plans, one paused and one not, and the theorem on its record applied to it.
use seeding_plan_backend.Prelude.{
  ℕ, ◌≡◌, ◌⊎◌, refl, true, false, none, some, List, [], ◌∷◌, ◌++◌, String, first_row,
}
use seeding_plan_backend.Errors.{ok}
use seeding_plan_backend.Execution.{
  Label, PlanReadbackReceipt, BatchExecutionReceipt, readback_mismatch,
}
use seeding_plan_backend.Store.{Db, ExecutionAttempt, ObjectType, empty_db}
use seeding_plan_backend.Store.Grants.Tests.{grant, project}
use seeding_plan_backend.Store.Plans.Tests.{old}
use seeding_plan_backend.Store.Results.{is_object, record_execution_result}
use seeding_plan_backend.Store.Results.Described.{AllAttempted, FromLast, Unnamed}
use seeding_plan_backend.Store.Results.Latest.{record_execution_result-latest}

abbrev receipt : String → ℕ → PlanReadbackReceipt
receipt i n = record {
  plan_revision_id = i;
  logical_plan_key = "k";
  platform_request_sha256 = "h";
  object_ids = some (record { campaign_id = n; unit_id = 8; creativity_ids = 9 ∷ 10 ∷ [] });
  expected_sha256 = "h";
  actual_recorded = true;
  pause_verified = true;
  readback_verified = true;
  diff = [];
  platform_error_code = none;
}

abbrev receipts : List PlanReadbackReceipt
receipts =
    receipt "r1" 7
    ∷ record (receipt "r2" 6) {
      pause_verified = false;
      readback_verified = false;
      diff = Label.pause_state_not_verified ∷ [];
    }
    ∷ []

abbrev result : BatchExecutionReceipt
result = record {
  status = readback_mismatch;
  advertiser_id = 1;
  plan_receipts = receipts;
  relock_receipt_id = some "lock";
  lock_verified = true;
}

abbrev db : Db
db = record empty_db {
  projects = project ∷ [];
  grants = grant ∷ [];
  plan_revisions = old "r1" "k" ∷ old "r2" "l" ∷ [];
}

abbrev sha : PlanReadbackReceipt → String
sha r = "h"

abbrev json : String → BatchExecutionReceipt → String
json g r = "{}"

abbrev uuid : ℕ → String
uuid n = "id"

record_execution_result-latest_example :
    (db' : Db) × (added : List ExecutionAttempt) × (record_execution_result sha json "p" "g" result
        5 uuid "e" db
      ≡ (ok tt, db'))
    × (db'.execution_attempts ≡ db.execution_attempts ++ added)
    × AllAttempted sha "p" "g" result 5 receipts added
    × ((t : ObjectType) (n : ℕ)
        → FromLast sha "p" "g" result 5 receipts t n
            (first_row (is_object "p" t n) db'.platform_objects)
          ⊎ (Unnamed sha "p" "g" result 5 receipts t n
              × (first_row (is_object "p" t n) db'.platform_objects
                  ≡ first_row (is_object "p" t n) db.platform_objects)))
    × ((p : String) (t : ObjectType) (n : ℕ)
        → (p ≡ "p")
          ⊎ (first_row (is_object p t n) db'.platform_objects
              ≡ first_row (is_object p t n) db.platform_objects))
record_execution_result-latest_example =
    record_execution_result-latest sha json "p" "g" result 5 uuid "e" db refl refl
      (refl, (refl, tt))
