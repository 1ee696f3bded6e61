-- ===== src/Store/Results.antt =====
-- app/seeding/store.py: `record_execution_result`, the attempts and objects that a batch's receipt
-- leaves in the store. `sha_receipt` and `sha_result` hash, and `event_json` gives the event's payload.
pub mod Lookup
pub mod Batch
pub mod Names
pub mod Described
pub mod Latest
pub mod Tests
use seeding_plan_backend.Prelude.{
  ℕ, suc, ◌+◌, Bool, true, false, not, Option, none, some, List, [], ◌∷◌, ◌++◌, String, ◌==◌, ◌&&◌,
  any, map, eqb, if◌then◌else◌,
}
use seeding_plan_backend.Errors.{Run, ok, err, integrity_error, pure, ◌>>=◌, ◌>>◌}
use seeding_plan_backend.Execution.{ObjectIds, PlanReadbackReceipt, BatchExecutionReceipt}
use seeding_plan_backend.Store.{
  Db, Grant, PlanRevision, ExecutionAttempt, ObjectType, PlatformObject, other, transaction,
  has_project,
}
use seeding_plan_backend.Store.Rows.{append_outbox}

abbrev pub has_revision : String → Db → Bool
has_revision i db = any (λ (r : PlanRevision). r.plan_revision_id == i) db.plan_revisions

abbrev pub has_grant : String → Db → Bool
has_grant i db = any (λ (g : Grant). g.grant_id == i) db.grants

-- The primary key is a fresh uuid4, so only a foreign key can refuse the row.
unfoldable pub insert_attempt : ExecutionAttempt → Run Db (Unit {0})
insert_attempt row db =
    if has_project row.project_id db
      && has_revision row.plan_revision_id db
      && has_grant row.grant_id db
    then (ok tt, record db { execution_attempts = db.execution_attempts ++ row ∷ [] })
    else (err integrity_error, db)

abbrev pub same_type : ObjectType → ObjectType → Bool
same_type ObjectType.campaign ObjectType.campaign = true
same_type ObjectType.unit ObjectType.unit = true
same_type ObjectType.creativity ObjectType.creativity = true
same_type _ _ = false

-- the key platform_object_id
abbrev pub is_object : String → ObjectType → ℕ → PlatformObject → Bool
is_object project_id type n row =
    row.project_id == project_id && same_type row.object_type type && eqb row.value n

-- INSERT OR REPLACE: the row of the same key goes
unfoldable pub put_object : PlatformObject → List PlatformObject → List PlatformObject
put_object row [] = row ∷ []
put_object row (x ∷ xs) =
    let rest = put_object row xs in
    if is_object row.project_id row.object_type row.value x then rest else x ∷ rest

unfoldable pub put_objects : List PlatformObject → List PlatformObject → List PlatformObject
unfolding put_object
put_objects [] table = table
put_objects (row ∷ rows) table = put_objects rows (put_object row table)

abbrev pub id_if : ObjectType → ℕ → List (ObjectType × ℕ)
id_if type n = if eqb n 0 then [] else (type, n) ∷ []

abbrev pub typed_ids : Option ObjectIds → List (ObjectType × ℕ)
typed_ids none = []
typed_ids (some ids) =
    id_if ObjectType.campaign ids.campaign_id
    ++ (id_if ObjectType.unit ids.unit_id
        ++ map (λ n. (ObjectType.creativity, n)) ids.creativity_ids)

module _ (sha_receipt : PlanReadbackReceipt → String)
    (event_json : String → BatchExecutionReceipt → String) (project_id grant_id : String)
    (result : BatchExecutionReceipt) (now : ℕ) where
  abbrev pub attempt : String → PlanReadbackReceipt → ExecutionAttempt
  attempt i receipt = record {
    execution_attempt_id = i;
    project_id = project_id;
    plan_revision_id = receipt.plan_revision_id;
    grant_id = grant_id;
    request_sha = receipt.platform_request_sha256;
    response_recorded = receipt.actual_recorded;
    status = result.status;
    started_at = now;
    finished_at = now;
    readback_receipt_sha = sha_receipt receipt;
    relock_receipt_id = result.relock_receipt_id;
  }

  abbrev pub platform_object : String → PlanReadbackReceipt → ObjectType × ℕ → PlatformObject
  platform_object i receipt typed = record {
    project_id = project_id;
    object_type = typed.0;
    value = typed.1;
    execution_attempt_id = i;
    expected_sha256 = receipt.expected_sha256;
    actual_recorded = receipt.actual_recorded;
    pause_verified = receipt.pause_verified;
    locked = result.lock_verified;
    receipt_sha = sha_receipt receipt;
    updated_at = now;
  }

  abbrev pub objects_of : String → PlanReadbackReceipt → List PlatformObject
  objects_of i receipt = map (platform_object i receipt) (typed_ids receipt.object_ids)

  unfoldable pub store_objects : List PlatformObject → Run Db (Unit {0})
  unfolding put_objects
  store_objects rows db =
      (ok tt, record db { platform_objects = put_objects rows db.platform_objects })

  -- the body of the loop
  unfoldable pub record_receipt : String → PlanReadbackReceipt → Run Db (Unit {0})
  unfolding insert_attempt store_objects
  record_receipt i receipt = do
    insert_attempt (attempt i receipt)
    store_objects (objects_of i receipt)

  -- the loop, with the ids that `uuid4` gives
  unfoldable pub record_receipts : (ℕ → String) → List PlanReadbackReceipt → Run Db (Unit {0})
  unfolding record_receipt
  record_receipts uuid [] = pure tt
  record_receipts uuid (receipt ∷ receipts) = do
    record_receipt (uuid 0) receipt
    record_receipts (λ n. uuid (n + 1)) receipts

  unfoldable pub record_body : (ℕ → String) → String → Run Db (Unit {0})
  unfolding record_receipts append_outbox
  record_body uuid event_id = do
    record_receipts uuid result.plan_receipts
    append_outbox event_id project_id (other "TEST_EXECUTION_RECORDED" (event_json grant_id result))
        now

  unfoldable pub record_execution_result : (ℕ → String) → String → Run Db (Unit {0})
  unfolding record_body transaction
  record_execution_result uuid event_id = transaction (record_body uuid event_id)
