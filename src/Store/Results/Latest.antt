-- ===== src/Store/Results/Latest.antt =====
-- The record of a batch's result: the attempts that it adds, and which receipt of the batch the row of
-- an object then comes from.
use seeding_plan_backend.Prelude.{
  ℕ, ◌≡◌, refl, sym, ◌∙◌, ◌⊎◌, inl, inr, true, List, ◌++◌, String, ◌==◌, All, first_row, eq_iff,
  subst, Bool-cases,
}
use seeding_plan_backend.Errors.{ok}
use seeding_plan_backend.Execution.{PlanReadbackReceipt, BatchExecutionReceipt}
use seeding_plan_backend.Store.{Db, ExecutionAttempt, ObjectType, has_project}
use seeding_plan_backend.Store.Results.{has_revision, has_grant, is_object, record_execution_result}
use seeding_plan_backend.Store.Results.Lookup.{first_row-put_objects}
use seeding_plan_backend.Store.Results.Batch.{
  attempts, objects, recorded, record_execution_result-recorded,
}
use seeding_plan_backend.Store.Results.Described.{
  AllAttempted, FromLast, Unnamed, attempts-AllAttempted, last-objects, latest-other,
}

module _ (sha_receipt : PlanReadbackReceipt → String)
    (event_json : String → BatchExecutionReceipt → String) (project_id grant_id : String)
    (result : BatchExecutionReceipt) (now : ℕ) where
  -- For a project and a grant that exist, and receipts whose plan revisions exist,
  -- `record_execution_result` returns. The table of attempts has one more row for each receipt, in
  -- their order, with the receipt's plan revision and request and the result's status and relock.
  -- The row then found of an object of the project that a receipt names has the pause that the last
  -- such receipt has verified, its hash and the lock that the result has. Of any other object the row found
  -- is the one found before.
  pub record_execution_result-latest :
      (uuid : ℕ → String) (event_id : String) (db : Db)
      → has_project project_id db ≡ true
      → has_grant grant_id db ≡ true
      → All (λ r. has_revision r.plan_revision_id db ≡ true) result.plan_receipts
      → (db' : Db) × (added : List ExecutionAttempt) × (record_execution_result sha_receipt
            event_json project_id grant_id result now uuid event_id db
          ≡ (ok tt, db'))
        × (db'.execution_attempts ≡ db.execution_attempts ++ added)
        × AllAttempted sha_receipt project_id grant_id result now result.plan_receipts added
        × ((t : ObjectType) (n : ℕ)
            → FromLast sha_receipt project_id grant_id result now result.plan_receipts t n
                (first_row (is_object project_id t n) db'.platform_objects)
              ⊎ (Unnamed sha_receipt project_id grant_id result now result.plan_receipts t n
                  × (first_row (is_object project_id t n) db'.platform_objects
                      ≡ first_row (is_object project_id t n) db.platform_objects)))
        × ((p : String) (t : ObjectType) (n : ℕ)
            → (p ≡ project_id)
              ⊎ (first_row (is_object p t n) db'.platform_objects
                  ≡ first_row (is_object p t n) db.platform_objects))
  record_execution_result-latest uuid event_id db p g h =
      let (row, run) =
        record_execution_result-recorded sha_receipt event_json project_id grant_id result now uuid
          event_id db p g h in
      let all =
        objects sha_receipt event_json project_id grant_id result now uuid result.plan_receipts in
      let old = db.platform_objects in
      let found = λ (q : String) (t : ObjectType) (n : ℕ). first_row-put_objects q t n all old in
      (
        recorded sha_receipt event_json project_id grant_id result now uuid db row,
        attempts sha_receipt event_json project_id grant_id result now uuid result.plan_receipts,
        run,
        refl,
        attempts-AllAttempted sha_receipt project_id grant_id result now event_json uuid
            result.plan_receipts,
        (λ t n.
            elim (last-objects sha_receipt project_id grant_id result now event_json t n uuid
              result.plan_receipts (first_row (is_object project_id t n) old)) [
                | inl l ↦ inl (
                    subst
                      (FromLast sha_receipt project_id grant_id result now result.plan_receipts t n)
                      (sym (found project_id t n)) l)
                | inr (u, e) ↦ inr (u, found project_id t n ∙ e)
              ]),
        (λ q t n. elim (Bool-cases (q == project_id)) [
          | inl s ↦ inl ((eq_iff q project_id).0 s)
          | inr a ↦ inr (
              found q t n
              ∙ latest-other sha_receipt project_id grant_id result now event_json q t n
                  (λ e. cc (a, (eq_iff q project_id).1 e)) uuid result.plan_receipts _)
        ]),
      )
