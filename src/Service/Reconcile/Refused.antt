-- ===== src/Service/Reconcile/Refused.antt =====
-- A verified reconciliation in production, which the table of execution states does not allow.
use seeding_plan_backend.Prelude.{
  ℕ, ◌≡◌, refl, sym, subst, ap, ◌∙◌, inl, inr, true, Option, some, List, [], ◌∷◌, ◌++◌, String, All,
  first_row, first_row-append, Option-cases, eq_refl,
}
use seeding_plan_backend.Errors.{
  Result, ok, err, seeding, invalid_execution_state_transition, bind-do, bind-err, pure, ◌>>=◌,
}
use seeding_plan_backend.State.{ExecutionState, validate_execution_transition, execution_allowed}
use seeding_plan_backend.Execution.{
  Payload, PlanReadbackReceipt, BatchStatus, reconciled_verified_paused, BatchExecutionReceipt,
}
use seeding_plan_backend.Execution.Engine.{Call, World}
use seeding_plan_backend.Execution.Reconcile.{reconcile}
use seeding_plan_backend.Store.{Db, Project, Artifact, transaction-do, has_project}
use seeding_plan_backend.Store.Rows.{is_project}
use seeding_plan_backend.Store.Projects.{execution_surface, transition_execution}
use seeding_plan_backend.Store.Projects.Moves.{Moved, transition-Moved, any-first_row}
use seeding_plan_backend.Store.Artifacts.{
  same_artifact, new_artifact, insert_artifact, select_artifact, put_artifact,
}
use seeding_plan_backend.Store.Results.{has_revision, has_grant, record_execution_result}
use seeding_plan_backend.Store.Results.Batch.{recorded, record_execution_result-recorded}
use seeding_plan_backend.Service.Execute.{ExecutionInput, on_calls, on_db}
use seeding_plan_backend.Service.Reconcile.{
  store_readback, move_to, reconciled_target, settle_reconcile, process_reconcile,
}

-- `put_artifact` returns for a project that exists, and changes the artifacts alone.
module _ (sha256 : String → String) (project_id kind input_sha artifact_id json : String)
    (now : ℕ) where
  own_key :
      same_artifact project_id kind input_sha
        (new_artifact sha256 project_id kind input_sha artifact_id json now)
      ≡ true
  own_key = rw (eq_refl project_id, eq_refl kind, eq_refl input_sha) refl

  stored :
      (db d : Db) (a : Artifact)
      → insert_artifact (new_artifact sha256 project_id kind input_sha artifact_id json now) db
        ≡ (ok tt, d)
      → first_row (same_artifact project_id kind input_sha) d.artifacts ≡ some a
      → put_artifact sha256 project_id kind input_sha artifact_id json now db ≡ (ok a, d)
  unfolding put_artifact select_artifact
  stored db d a one s =
      transaction-do
        (insert_artifact (new_artifact sha256 project_id kind input_sha artifact_id json now))
        (λ _. select_artifact project_id kind input_sha) db d d tt a one
        (rw (s, select_artifact) refl)

  pub put_artifact-ok :
      (db : Db)
      → has_project project_id db ≡ true
      → (a : Artifact) × (rows : List Artifact) × (put_artifact sha256 project_id kind input_sha
            artifact_id json now db
          ≡ (ok a, record db { artifacts = rows }))
  unfolding insert_artifact
  put_artifact-ok db h =
      let row = new_artifact sha256 project_id kind input_sha artifact_id json now in
      elim (Option-cases (first_row (same_artifact project_id kind input_sha) db.artifacts)) [
        | inr (a, s) ↦ (a, db.artifacts, stored db db a (rw (s, insert_artifact) refl) s)
        | inl n ↦ (
          row,
          db.artifacts ++ row ∷ [],
          stored db (record db { artifacts = db.artifacts ++ row ∷ [] }) row
              (rw (n, insert_artifact) (rw h refl))
              (first_row-append (same_artifact project_id kind input_sha) db.artifacts row n
                own_key),
        )
      ]

module _ (sha256_json : Payload → String) (sha256 : String → String)
    (sha_receipt : PlanReadbackReceipt → String)
    (event_json : String → BatchExecutionReceipt → String)
    (result_json : BatchExecutionReceipt → String) (reason_of : BatchStatus → String)
    (uuid ids : ℕ → String) (clock : ℕ → ℕ) (input_sha : String) (input : ExecutionInput)
    (receipt : BatchExecutionReceipt) where
  -- RECONCILE_REQUIRED may not become WAITING_RELEASE_AUTHORIZATION.
  move-refused :
      (db : Db) (row : Project) (reason : String)
      → first_row (is_project input.project_id) db.projects ≡ some row
      → row.execution_state ≡ ExecutionState.reconcile_required
      → transition_execution
          (ids 1)
          (ids 2)
          input.project_id
          ExecutionState.waiting_release_authorization
          "durable-worker"
          reason
          (clock 1)
          db
        ≡ (err (seeding invalid_execution_state_transition), db)
  unfolding validate_execution_transition execution_allowed
  move-refused db row reason s e =
      elim (transition-Moved execution_surface (λ t r. refl) (ids 1) (ids 2) input.project_id
        ExecutionState.waiting_release_authorization "durable-worker" reason (clock 1) db) [
          | Moved.missing n k ↦ absurd (cc (n, s))
          | Moved.refused x y s' f k ↦
              let same : x ≡ row = cc (s, s') in
              let state : x.execution_state ≡ ExecutionState.reconcile_required =
                ap (λ (t : Project). t.execution_state) same ∙ e in
              let why : ◌≡◌ {A = Result (Unit {0})}
                  (err (seeding invalid_execution_state_transition)) (err y) =
                rw state at f in
              let code : y ≡ seeding invalid_execution_state_transition = cc why in
              k ∙ ap (λ t. (err t, db)) code
          | Moved.committed x s' f k ↦
              let same : x ≡ row = cc (s, s') in
              let state : x.execution_state ≡ ExecutionState.reconcile_required =
                ap (λ (t : Project). t.execution_state) same ∙ e in
              absurd (cc (rw state at f))
        ]

  -- Where the engine of the production environment returns a receipt with RECONCILED_VERIFIED_PAUSED,
  -- for a project that exists and is in RECONCILE_REQUIRED, an existing grant and existing plan
  -- revisions of all receipts, the handler of the reconciliation raises
  -- INVALID_EXECUTION_STATE_TRANSITION, and every project is as before.
  pub process_reconcile-refused :
      (test_engine : Option World) (w : World) (h g : List Call) (db : Db) (row : Project)
      → reconcile sha256_json w input.advertiser_id input.plans h ≡ (ok receipt, g)
      → receipt.status ≡ reconciled_verified_paused
      → first_row (is_project input.project_id) db.projects ≡ some row
      → row.execution_state ≡ ExecutionState.reconcile_required
      → has_grant input.grant_id db ≡ true
      → All (λ r. has_revision r.plan_revision_id db ≡ true) receipt.plan_receipts
      → (db' : Db) × (process_reconcile sha256_json sha256 sha_receipt event_json result_json
            reason_of uuid ids clock input_sha test_engine
            (some w)
            true
            input
            (h, db)
          ≡ (err (seeding invalid_execution_state_transition), (g, db')))
        × (db'.projects ≡ db.projects)
  unfolding process_reconcile settle_reconcile store_readback move_to
  process_reconcile-refused test_engine w h g db row run status s e grant v =
      let here = any-first_row (is_project input.project_id) row db.projects s in
      let (sent, one) =
        record_execution_result-recorded sha_receipt event_json input.project_id input.grant_id
          receipt (clock 0) uuid (ids 0) db here grant v in
      let d =
        recorded sha_receipt event_json input.project_id input.grant_id receipt (clock 0) uuid db
          sent in
      let (a, rows, two) =
        put_artifact-ok sha256 input.project_id "production_paused_readback" input_sha (ids 3)
          (result_json receipt) (clock 2) d here in
      let d' : Db = record d { artifacts = rows } in
      let three = move-refused d' row (reason_of receipt.status) s e in
      let settle =
        settle_reconcile sha256_json sha256 sha_receipt event_json result_json reason_of uuid ids
          clock input_sha true input in
      let put =
        put_artifact sha256 input.project_id "production_paused_readback" input_sha (ids 3)
          (result_json receipt) (clock 2) in
      let store =
        store_readback sha256_json sha256 sha_receipt event_json result_json reason_of uuid ids
          clock input_sha input receipt in
      let move =
        move_to sha256_json sha256 sha_receipt event_json result_json reason_of uuid ids clock
          input_sha input receipt in
      let t =
        transition_execution (ids 1) (ids 2) input.project_id
          ExecutionState.waiting_release_authorization "durable-worker" (reason_of receipt.status)
          (clock 1) in
      let stays =
        bind-err t (λ _. pure receipt) d' d' (seeding invalid_execution_state_transition) three in
      let moves : move (reconciled_target true receipt.status) d'
          ≡ (err (seeding invalid_execution_state_transition), d') =
        subst
          (λ b.
            move (reconciled_target true b) d'
            ≡ (err (seeding invalid_execution_state_transition), d'))
          (sym status) stays in
      let refuses : settle receipt db ≡ (err (seeding invalid_execution_state_transition), d') =
        bind-do
          (record_execution_result sha_receipt event_json input.project_id input.grant_id receipt
            (clock 0) uuid (ids 0))
          (λ _. store >>= (λ _. move (reconciled_target true receipt.status))) db d tt
          (err (seeding invalid_execution_state_transition), d') one
          (bind-do store (λ _. move (reconciled_target true receipt.status)) d d' tt
            (err (seeding invalid_execution_state_transition), d')
            (bind-do put (λ _. pure tt) d d' a (ok tt, d') two refl) moves) in
      (
        d',
        bind-do (on_calls (reconcile sha256_json w input.advertiser_id input.plans))
            (λ r. on_db (settle r)) (h, db) (g, db) receipt
            (err (seeding invalid_execution_state_transition), (g, d'))
            (λ i. ((run i).0, ((run i).1, db))) (λ i. ((refuses i).0, (g, (refuses i).1))),
        refl,
      )
