-- ===== src/Service/Execute/Target.antt =====
-- Where a test execution leaves its project, and what that state then means on the platform.
use seeding_plan_backend.Prelude.{
  ℕ, ◌≡◌, ◌≢◌, refl, sym, subst, ap, ◌∙◌, ◌⊎◌, inl, inr, true, false, some, List, String, All,
  length, first_row, first_row-update, first_row_sound,
}
use seeding_plan_backend.Errors.{Result, ok, err, bind-do, pure, ◌>>=◌}
use seeding_plan_backend.State.{
  ExecutionState, write_in_progress, validate_execution_transition, execution_allowed,
}
use seeding_plan_backend.Execution.{
  Payload, PlanReadbackReceipt, BatchStatus, BatchExecutionReceipt,
}
use seeding_plan_backend.Execution.Engine.{Call, World, execute}
use seeding_plan_backend.Execution.Steps.{Confirmed, is_verified}
use seeding_plan_backend.Execution.Relock.{
  Executed, refused, raised, unlocked, locked, execute-Executed,
}
use seeding_plan_backend.Store.{Db, Project}
use seeding_plan_backend.Store.Rows.{is_project}
use seeding_plan_backend.Store.Projects.{execution_surface, moved, transition_execution}
use seeding_plan_backend.Store.Projects.Moves.{Moved, after, transition-Moved, any-first_row}
use seeding_plan_backend.Store.Results.{has_revision, has_grant, record_execution_result}
use seeding_plan_backend.Store.Results.Batch.{recorded, record_execution_result-recorded}
use seeding_plan_backend.Service.Execute.{
  ExecutionInput, on_calls, on_db, target_of, settle_execution, process_test_execution,
}

-- Every target may follow WRITE_IN_PROGRESS.
target-allowed :
    (s : BatchStatus) → validate_execution_transition write_in_progress (target_of s) ≡ ok tt
unfolding validate_execution_transition execution_allowed
target-allowed BatchStatus.verified_paused = refl
target-allowed BatchStatus.reconcile_required = refl
target-allowed BatchStatus.failed_terminal = refl
target-allowed BatchStatus.recovery_required = refl
target-allowed BatchStatus.pause_failed_emergency = refl
target-allowed BatchStatus.readback_mismatch = refl
target-allowed BatchStatus.relock_failed = refl
target-allowed BatchStatus.reconciled_not_created = refl
target-allowed BatchStatus.reconciled_verified_paused = refl

-- Only VERIFIED_PAUSED leads to READBACK_VERIFIED.
unverified :
    (s : BatchStatus) → is_verified s ≡ false → target_of s ≢ ExecutionState.readback_verified
unverified BatchStatus.verified_paused h = absurd (cc h)
unverified BatchStatus.reconcile_required h = λ e. cc e
unverified BatchStatus.failed_terminal h = λ e. cc e
unverified BatchStatus.recovery_required h = λ e. cc e
unverified BatchStatus.pause_failed_emergency h = λ e. cc e
unverified BatchStatus.readback_mismatch h = λ e. cc e
unverified BatchStatus.relock_failed h = λ e. cc e
unverified BatchStatus.reconciled_not_created h = absurd (cc h)
unverified BatchStatus.reconciled_verified_paused h = absurd (cc h)

-- The lock was confirmed, and each plan has a confirmed receipt.
abbrev pub Verified : ExecutionInput → BatchExecutionReceipt → Type 0
Verified input receipt =
    (receipt.lock_verified ≡ true)
    × (length receipt.plan_receipts ≡ length input.plans)
    × All Confirmed receipt.plan_receipts

module _ (sha256_json : Payload → String) (sha_receipt : PlanReadbackReceipt → String)
    (event_json : String → BatchExecutionReceipt → String) (reason_of : BatchStatus → String)
    (uuid ids : ℕ → String) (clock : ℕ → ℕ) (input : ExecutionInput)
    (receipt : BatchExecutionReceipt) where
  verified :
      (w : World) (h g : List Call) (r : Result BatchExecutionReceipt × List Call)
      → r ≡ (ok receipt, g)
      → Executed sha256_json w input.advertiser_id input.plans h r
      → (target_of receipt.status ≢ ExecutionState.readback_verified) ⊎ Verified input receipt
  verified w h g r run (refused e asked k o) = absurd (cc (run, k))
  verified w h g r run (raised p asked m f k a) = absurd (cc (run, k))
  verified w h g r run (unlocked x asked later k o a s l) =
      let same : x ≡ receipt = cc (run, k) in
      inl (rw (ap (λ t. t.status) (sym same) ∙ s) (λ e. cc e))
  verified w h g r run (locked x asked k a c l v) =
      let same : x ≡ receipt = cc (run, k) in
      subst
        (λ (t : BatchExecutionReceipt).
          (target_of t.status ≢ ExecutionState.readback_verified) ⊎ Verified input t)
        same (elim v [ inl n ↦ inl (unverified x.status n) | inr c ↦ inr (l, c.0, c.1) ])

  -- The transition after the record, for a project that is writing.
  moved-Target :
      (db : Db) (row : Project) (target : ExecutionState) (reason : String)
      → first_row (is_project input.project_id) db.projects ≡ some row
      → validate_execution_transition row.execution_state target ≡ ok tt
      → (db' : Db) × (row' : Project) × (transition_execution
            (ids 1)
            (ids 2)
            input.project_id
            target
            "durable-worker"
            reason
            (clock 1)
            db
          ≡ (ok row', db'))
        × (first_row (is_project input.project_id) db'.projects ≡ some row')
        × (row'.execution_state ≡ target)
  moved-Target db row target reason s v =
      elim (transition-Moved execution_surface (λ t r. refl) (ids 1) (ids 2) input.project_id target
        "durable-worker" reason (clock 1) db) [
          | Moved.missing n k ↦ absurd (cc (n, s))
          | Moved.refused x e s' f k ↦
              let same : x ≡ row = cc (s, s') in
              let g : validate_execution_transition row.execution_state target ≡ err e =
                subst
                  (λ (t : Project). validate_execution_transition t.execution_state target ≡ err e)
                  same f in
              absurd (cc (g, v))
          | Moved.committed x s' f k ↦
              let write =
                moved execution_surface (ids 1) (ids 2) input.project_id target "durable-worker"
                  reason (clock 1) in
              let p = is_project input.project_id in
              let found = first_row-update p p write (λ r. refl) db.projects x s' in
              let shown = first_row_sound p db.projects x s' in
              (
                after execution_surface (λ t r. refl) (ids 1) (ids 2) input.project_id target
                    "durable-worker" reason (clock 1) x db,
                write x,
                k,
                found ∙ rw shown refl,
                refl,
              )
        ]

  settle_execution-Target :
      (db : Db) (row : Project)
      → first_row (is_project input.project_id) db.projects ≡ some row
      → row.execution_state ≡ write_in_progress
      → has_grant input.grant_id db ≡ true
      → All (λ r. has_revision r.plan_revision_id db ≡ true) receipt.plan_receipts
      → (db' : Db) × (row' : Project) × (settle_execution sha256_json sha_receipt event_json
            reason_of uuid ids clock input receipt db
          ≡ (ok receipt, db'))
        × (first_row (is_project input.project_id) db'.projects ≡ some row')
        × (row'.execution_state ≡ target_of receipt.status)
  unfolding settle_execution
  settle_execution-Target db row s e g v =
      let (sent, one) =
        record_execution_result-recorded sha_receipt event_json input.project_id input.grant_id
          receipt (clock 0) uuid (ids 0) db
          (any-first_row (is_project input.project_id) row db.projects s) g v in
      let d =
        recorded sha_receipt event_json input.project_id input.grant_id receipt (clock 0) uuid db
          sent in
      let allowed : validate_execution_transition row.execution_state (target_of receipt.status)
          ≡ ok tt =
        rw e (target-allowed receipt.status) in
      let (db', row', two, found, state) =
        moved-Target d row (target_of receipt.status) (reason_of receipt.status) s allowed in
      let t =
        transition_execution (ids 1) (ids 2) input.project_id (target_of receipt.status)
          "durable-worker" (reason_of receipt.status) (clock 1) in
      (
        db',
        row',
        bind-do
            (record_execution_result sha_receipt event_json input.project_id input.grant_id receipt
              (clock 0) uuid (ids 0))
            (λ _. t >>= (λ _. pure receipt)) db d tt (ok receipt, db') one
            (bind-do t (λ _. pure receipt) d db' row' (ok receipt, db') two refl),
        found,
        state,
      )

  -- For a configured engine whose run on the input returns a receipt, a project that exists and is in
  -- WRITE_IN_PROGRESS, an existing grant and existing plan revisions of all receipts, the handler of a test
  -- execution returns that receipt and leaves the project in the state that belongs to its status. That
  -- state is READBACK_VERIFIED only where the account's lock was confirmed and each plan has a
  -- receipt with an empty diff and a verified pause.
  pub process_test_execution-Target :
      (w : World) (h g : List Call) (db : Db) (row : Project)
      → execute sha256_json w input.advertiser_id input.plans h ≡ (ok receipt, g)
      → first_row (is_project input.project_id) db.projects ≡ some row
      → row.execution_state ≡ write_in_progress
      → has_grant input.grant_id db ≡ true
      → All (λ r. has_revision r.plan_revision_id db ≡ true) receipt.plan_receipts
      → (db' : Db) × (row' : Project) × (process_test_execution sha256_json sha_receipt event_json
            reason_of uuid ids clock
            (some w)
            input
            (h, db)
          ≡ (ok receipt, (g, db')))
        × (first_row (is_project input.project_id) db'.projects ≡ some row')
        × (row'.execution_state ≡ target_of receipt.status)
        × ((row'.execution_state ≢ ExecutionState.readback_verified) ⊎ Verified input receipt)
  unfolding process_test_execution
  process_test_execution-Target w h g db row run s e grant v =
      let (db', row', done, found, state) = settle_execution-Target db row s e grant v in
      (
        db',
        row',
        bind-do (on_calls (execute sha256_json w input.advertiser_id input.plans))
            (λ r. on_db (
              settle_execution sha256_json sha_receipt event_json reason_of uuid ids clock input r))
            (h, db) (g, db) receipt (ok receipt, (g, db')) (λ i. ((run i).0, ((run i).1, db)))
            (λ i. ((done i).0, (g, (done i).1))),
        found,
        state,
        subst (λ t. (t ≢ ExecutionState.readback_verified) ⊎ Verified input receipt) (sym state)
            (verified w h g _ run
              (execute-Executed sha256_json w input.advertiser_id input.plans h)),
      )
