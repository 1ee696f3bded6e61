-- ===== src/Store/Results/Batch.antt =====
-- The record of a whole batch: its attempts and its objects.
use seeding_plan_backend.Prelude.{
  ℕ, ◌+◌, ◌≡◌, refl, sym, ap, ◌∙◌, true, List, [], ◌∷◌, ◌++◌, String, All,
}
use seeding_plan_backend.Errors.{ok, bind-do}
use seeding_plan_backend.Execution.{PlanReadbackReceipt, BatchExecutionReceipt}
use seeding_plan_backend.Store.{
  Db, OutboxRow, ExecutionAttempt, PlatformObject, other, transaction-ok, has_project,
}
use seeding_plan_backend.Store.Rows.{append_outbox, append_outbox-ok}
use seeding_plan_backend.Store.Results.{
  has_revision, has_grant, put_object, put_objects, attempt, objects_of, insert_attempt,
  store_objects, record_receipt, record_receipts, record_body, record_execution_result,
}

put_objects-append :
    (xs ys table : List PlatformObject)
    → put_objects (xs ++ ys) table ≡ put_objects ys (put_objects xs table)
unfolding put_objects
put_objects-append [] ys table = refl
put_objects-append (x ∷ xs) ys table = put_objects-append xs ys (put_object x table)

append_assoc : (xs ys zs : List ExecutionAttempt) → (xs ++ ys) ++ zs ≡ xs ++ (ys ++ zs)
append_assoc [] ys zs = refl
append_assoc (x ∷ xs) ys zs = ap (λ t. x ∷ t) (append_assoc xs ys zs)

append_nil : (xs : List ExecutionAttempt) → xs ++ [] ≡ xs
append_nil [] = refl
append_nil (x ∷ xs) = ap (λ t. x ∷ t) (append_nil xs)

module _ (sha_receipt : PlanReadbackReceipt → String)
    (event_json : String → BatchExecutionReceipt → String) (project_id grant_id : String)
    (result : BatchExecutionReceipt) (now : ℕ) where
  -- One attempt for each receipt, in their order.
  abbrev pub attempts : (ℕ → String) → List PlanReadbackReceipt → List ExecutionAttempt
  attempts uuid [] = []
  attempts uuid (r ∷ rs) =
      attempt sha_receipt event_json project_id grant_id result now (uuid 0) r
      ∷ attempts (λ n. uuid (n + 1)) rs

  -- The objects of the receipts, one after the other.
  abbrev pub objects : (ℕ → String) → List PlanReadbackReceipt → List PlatformObject
  objects uuid [] = []
  objects uuid (r ∷ rs) =
      objects_of sha_receipt event_json project_id grant_id result now (uuid 0) r
      ++ objects (λ n. uuid (n + 1)) rs

  abbrev pub stored : (ℕ → String) → List PlanReadbackReceipt → Db → Db
  stored uuid rs db = record db {
    execution_attempts = db.execution_attempts ++ attempts uuid rs;
    platform_objects = put_objects (objects uuid rs) db.platform_objects;
  }

  record_receipt-ok :
      (i : String) (r : PlanReadbackReceipt) (db : Db)
      → has_project project_id db ≡ true
      → has_grant grant_id db ≡ true
      → has_revision r.plan_revision_id db ≡ true
      → record_receipt sha_receipt event_json project_id grant_id result now i r db ≡ (
        ok tt,
        record db {
          execution_attempts =
              db.execution_attempts
              ++ attempt sha_receipt event_json project_id grant_id result now i r ∷ [];
          platform_objects =
              put_objects
                (objects_of sha_receipt event_json project_id grant_id result now i r)
                db.platform_objects;
        },
      )
  unfolding record_receipt insert_attempt store_objects
  record_receipt-ok i r db p g h = rw (p, g, h, record_receipt, insert_attempt) refl

  record_receipts-ok :
      (uuid : ℕ → String) (rs : List PlanReadbackReceipt) (db : Db)
      → has_project project_id db ≡ true
      → has_grant grant_id db ≡ true
      → All (λ r. has_revision r.plan_revision_id db ≡ true) rs
      → record_receipts sha_receipt event_json project_id grant_id result now uuid rs db
        ≡ (ok tt, stored uuid rs db)
  unfolding record_receipts put_objects
  record_receipts-ok uuid [] db p g h =
      ap (λ (l : List ExecutionAttempt). (ok tt, record db { execution_attempts = l }))
        (sym (append_nil db.execution_attempts))
  record_receipts-ok uuid (r ∷ rs) db p g h =
      let a = attempt sha_receipt event_json project_id grant_id result now (uuid 0) r in
      let o = objects_of sha_receipt event_json project_id grant_id result now (uuid 0) r in
      let d = record db {
        execution_attempts = db.execution_attempts ++ a ∷ [];
        platform_objects = put_objects o db.platform_objects;
      } in
      let rest = λ (n : ℕ). uuid (n + 1) in
      let one = append_assoc db.execution_attempts (a ∷ []) (attempts rest rs) in
      let two = sym (put_objects-append o (objects rest rs) db.platform_objects) in
      bind-do (record_receipt sha_receipt event_json project_id grant_id result now (uuid 0) r)
        (λ _. record_receipts sha_receipt event_json project_id grant_id result now rest rs) db d tt
        _ (record_receipt-ok (uuid 0) r db p g h.0)
        (record_receipts-ok rest rs d p g h.1
          ∙ (λ i. (ok tt, record db { execution_attempts = one i; platform_objects = two i })))

  abbrev pub recorded : (ℕ → String) → Db → OutboxRow → Db
  recorded uuid db row = record (stored uuid result.plan_receipts db) {
    outbox = db.outbox ++ row ∷ [];
  }

  pub record_execution_result-recorded :
      (uuid : ℕ → String) (event_id : String) (db : Db)
      → has_project project_id db ≡ true
      → has_grant grant_id db ≡ true
      → All (λ r. has_revision r.plan_revision_id db ≡ true) result.plan_receipts
      → (row : OutboxRow) × (record_execution_result sha_receipt event_json project_id grant_id
            result now uuid event_id db
          ≡ (ok tt, recorded uuid db row))
  unfolding record_execution_result record_body
  record_execution_result-recorded uuid event_id db p g h =
      let d = stored uuid result.plan_receipts db in
      let e = other "TEST_EXECUTION_RECORDED" (event_json grant_id result) in
      let (row, sent) = append_outbox-ok event_id project_id e now d p in
      let body =
        bind-do
          (record_receipts sha_receipt event_json project_id grant_id result now uuid
            result.plan_receipts)
          (λ _. append_outbox event_id project_id e now) db d tt (ok tt, recorded uuid db row)
          (record_receipts-ok uuid result.plan_receipts db p g h) sent in
      let done =
        transaction-ok
          (record_body sha_receipt event_json project_id grant_id result now uuid event_id) db tt
          (ap (λ t. t.0) body) in
      (row, λ i. (done.0 i, (done.1 ∙ ap (λ t. t.1) body) i))
