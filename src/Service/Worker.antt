-- ===== src/Service/Worker.antt =====
-- app/seeding/service.py: `process_next_job`, one round of a worker. What the `_process_…` methods
-- do with a job is a parameter, any function of the database: it may contain what other workers
-- commit meanwhile. `error_json` gives the JSON of the error result and `error_text` the cut text of an
-- exception, `clock` what `utc_now` returns at each of the calls, `uuid` and `ids` what `uuid4` does.
pub mod Settle
pub mod Outcome
pub mod Tests
use seeding_plan_backend.Prelude.{
  ℕ, Bool, true, false, not, Option, none, some, List, [], ◌∷◌, String, ◌==◌, ◌&&◌, ◌||◌, any,
  if◌then◌else◌,
}
use seeding_plan_backend.Errors.{
  Result, Run, ok, err, Exc, seeding, unknown_job_kind, pure, raise, continue, ◌>>=◌, ◌>>◌,
}
use seeding_plan_backend.State.{
  ProjectState, ExecutionState, input_validated, three_chain_ready, matrix_ready,
  waiting_confirmation, failed_closed, write_in_progress,
}
use seeding_plan_backend.Store.{Db, Job, JobKind, Project, alert}
use seeding_plan_backend.Store.Rows.{emit_event}
use seeding_plan_backend.Store.Projects.{get_project, transition_project, transition_execution}
use seeding_plan_backend.Store.Jobs.{
  is_external, claim_job, complete_job, fail_terminal_job, require_reconcile_job, fail_job,
}

-- a result: its "status", and the whole as JSON
pub record JobResult : Type 0 where
  pub status : Option String
  pub json : String

abbrev pub has_status : String → JobResult → Bool
has_status s result = elim result.status [ none ↦ false | some t ↦ t == s ]

-- kind in {"EXECUTE_TEST", "PRODUCTION_CREATE", "RECONCILE"}
abbrev pub writes_plans : JobKind → Bool
writes_plans JobKind.execute_test = true
writes_plans JobKind.production_create = true
writes_plans JobKind.reconcile = true
writes_plans _ = false

abbrev pub is_release : JobKind → Bool
is_release JobKind.release = true
is_release _ = false

abbrev pub is_evaluate : JobKind → Bool
is_evaluate JobKind.release_evaluate = true
is_evaluate _ = false

abbrev pub is_recovery : JobKind → Bool
is_recovery JobKind.release_recovery = true
is_recovery _ = false

abbrev pub is_paused_result : JobResult → Bool
is_paused_result result =
    has_status "VERIFIED_PAUSED" result
    || has_status "RECONCILED_VERIFIED_PAUSED" result
    || has_status "RECONCILED_NOT_CREATED" result

-- the states that a failed job leaves for FAILED_CLOSED
abbrev pub is_preparing : ProjectState → Bool
is_preparing input_validated = true
is_preparing three_chain_ready = true
is_preparing matrix_ready = true
is_preparing waiting_confirmation = true
is_preparing _ = false

abbrev pub is_write_in_progress : ExecutionState → Bool
is_write_in_progress write_in_progress = true
is_write_in_progress _ = false

-- try: … except Exception: pass
unfoldable pub swallow : {A : Type 0} → Run Db A → Run Db (Unit {0})
swallow m db = (ok tt, (m db).1)

-- try: … except Exception as exc: …
abbrev pub handled : {A : Type 0} → Result A × Db → (Exc → Run Db A) → Result A × Db
handled (ok a, db) on_error = (ok a, db)
handled (err e, db) on_error = on_error e db

module _ (handle : Job → Run Db JobResult) (error_json error_text : Exc → String)
    (worker_id : String) (lease : ℕ) (clock : ℕ → ℕ) (uuid ids : ℕ → String) where
  -- the branches on the kind
  abbrev pub dispatch : Job → Run Db JobResult
  dispatch job = elim job.kind [
    | JobKind.unknown _ ↦ raise (seeding unknown_job_kind)
    | _ ↦ handle job
  ]

  abbrev pub end_failed : Job → JobResult → Run Db Job
  end_failed job result = fail_terminal_job job.job_id worker_id result.json (clock 2)

  -- the alert, and then the failure
  unfoldable pub alert_failed : Job → JobResult → Option String → Run Db Job
  unfolding emit_event
  alert_failed job result code = do
    emit_event (ids 0) job.project_id (alert code job.job_id) (clock 1)
    end_failed job result

  -- the chain on kind and status after a result
  unfoldable pub settle : Job → JobResult → Run Db Job
  unfolding alert_failed
  settle job result =
      if writes_plans job.kind && has_status "RECONCILE_REQUIRED" result
      then require_reconcile_job job.job_id worker_id result.json (clock 2)
      else if writes_plans job.kind && not (is_paused_result result)
      then end_failed job result
      else if is_release job.kind && not (has_status "RELEASE_ACTIVE" result)
      then alert_failed job result result.status
      else if is_evaluate job.kind && has_status "CAP_EXCEEDED_RELOCK_FAILED" result
      then end_failed job result
      else if is_recovery job.kind && not (has_status "RELEASE_RECOVERED_SAFE" result)
      then alert_failed job result (some "RELEASE_RECOVERY_FAILED")
      else complete_job job.job_id worker_id (some result.json) (clock 2)

  -- the block under `try`
  unfoldable pub run_job : Job → Run Db JobResult
  unfolding settle
  run_job job = do result ← dispatch job; settle job result; pure result

  unfoldable pub stop_writing : Job → Run Db Project
  unfolding get_project
  stop_writing job = do
    project ← get_project job.project_id
    if is_write_in_progress project.execution_state
        then transition_execution (ids 1) (ids 2) job.project_id ExecutionState.reconcile_required
            "durable-worker" "EXTERNAL_OPERATION_WORKER_EXCEPTION" (clock 4)
        else pure project

  unfoldable pub close_project : Job → Run Db Project
  unfolding get_project
  close_project job = do
    project ← get_project job.project_id
    if is_preparing project.project_state
        then transition_project (ids 4) (ids 5) job.project_id failed_closed "durable-worker"
            "PREPARE_JOB_FAILED" (clock 6)
        else pure project

  abbrev pub report : Job → Exc → Run Db Job
  report job e =
      if is_external job.kind
      then require_reconcile_job job.job_id worker_id (error_json e) (clock 3)
      else fail_job job.job_id worker_id (error_text e) (clock 3)

  unfoldable pub alert_exception : Job → Run Db (Unit {0})
  unfolding emit_event
  alert_exception job =
      if is_release job.kind || is_evaluate job.kind || is_recovery job.kind
      then emit_event (ids 3) job.project_id
          (alert (some "EXTERNAL_OPERATION_WORKER_EXCEPTION") job.job_id) (clock 5)
      else pure tt

  unfoldable pub on_error : Job → Exc → Run Db JobResult
  unfolding stop_writing close_project alert_exception swallow
  on_error job e = do
    report job e
    if writes_plans job.kind then swallow (stop_writing job) else pure tt
    alert_exception job
    swallow (close_project job)
    raise e

  unfoldable pub process_claimed : Option Job → Run Db (Option JobResult)
  unfolding run_job on_error
  process_claimed none = pure none
  process_claimed (some job) = do
    result ← λ db. handled (run_job job db) (on_error job)
    pure (some result)

  unfoldable pub process_next_job : Run Db (Option JobResult)
  unfolding process_claimed
  process_next_job = do job ← claim_job worker_id (clock 0) uuid lease; process_claimed job
