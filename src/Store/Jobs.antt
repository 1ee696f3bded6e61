-- ===== src/Store/Jobs.antt =====
-- app/seeding/store.py: the durable job queue. `enqueue_job` and the reads are in Requests, passed
-- on here; this file has `claim_job`, `heartbeat_job`, `heartbeat_worker_jobs`, `_finish_job` and its
-- four callers, `cancel_job` and `resume_job`. A job row keeps the JSON texts that `_job_dict` parses.
mod Requests
pub mod Keys
pub mod Flag
pub mod Update
pub mod Lease
pub mod Claim
pub mod Handout
pub mod Order
pub mod Enqueue
pub mod Lifecycle
pub mod Tests
unfoldable pub use Requests.{get_job, insert_or_ignore_job, select_input, enqueue_job}
pub use Requests.{
  is_running, is_waiting, is_stopped, is_external, lease_expired, same_input, is_job, new_job,
  find_job, list_jobs,
}
use seeding_plan_backend.Prelude.{
  ℕ, zero, suc, ◌+◌, Bool, true, false, Option, none, some, List, [], ◌∷◌, ◌++◌, String, ◌==◌, ◌&&◌,
  ◌||◌, ltb, leb, eqb, if◌then◌else◌, where_rows, first_row, update_where, row_count,
}
use seeding_plan_backend.Errors.{
  Result, Run, ok, err, Exc, Code, integrity_error, unexpected, seeding, job_not_found,
  job_lease_lost, job_not_cancellable, job_not_resumable, pure, raise, ◌>>=◌, ◌>>◌,
}
use seeding_plan_backend.State.{ExecutionState, write_in_progress}
use seeding_plan_backend.Store.{
  Db, Job, JobKind, JobStatus, Project, Event, Change, kind_text, transaction, has_project,
  owned_by, execution_state_changed, on_execution,
}
use seeding_plan_backend.Store.Rows.{
  append_outbox, append_transition, set_project, is_project, precedes,
}

abbrev pub indeterminate : ℕ → Job → Bool
indeterminate now job = is_running job.status && lease_expired now job && is_external job.kind

abbrev pub require_reconcile : ℕ → Job → Job
require_reconcile now job = record job {
  status = JobStatus.reconcile_required;
  lease_owner = none;
  lease_expires_at = none;
  last_error = some "worker lease expired during external write; reconcile required";
  updated_at = now;
}

-- state is not None and state["execution_state"] == "WRITE_IN_PROGRESS"
abbrev pub is_writing : Option Project → Bool
is_writing none = false
is_writing (some row) = elim row.execution_state [ write_in_progress ↦ true | _ ↦ false ]

-- The body of the loop over the indeterminate jobs, with the ids that `uuid4` gives it.
unfoldable pub flag_project : ℕ → String → String → Job → Run Db (Unit {0})
unfolding append_outbox append_transition set_project first_row update_where
flag_project now transition_id event_id expired db =
    if is_writing (first_row (is_project expired.project_id) db.projects)
    then (do
      set_project expired.project_id
          (λ r. record r { execution_state = ExecutionState.reconcile_required; updated_at = now })
      append_transition (record {
        transition_id = transition_id;
        project_id = expired.project_id;
        change = on_execution write_in_progress ExecutionState.reconcile_required;
        actor_id = "durable-worker";
        reason_code = "EXTERNAL_WRITE_LEASE_EXPIRED";
        created_at = now;
      })
      append_outbox event_id expired.project_id
          (execution_state_changed transition_id write_in_progress ExecutionState.reconcile_required
            "EXTERNAL_WRITE_LEASE_EXPIRED")
          now)
        db
    else (ok tt, db)

-- `uuid n` is the n-th text that `uuid4` gives during the call.
unfoldable pub flag_projects : ℕ → (ℕ → String) → List Job → Run Db (Unit {0})
flag_projects now uuid [] = pure tt
flag_projects now uuid (j ∷ js) = do
  flag_project now (uuid 0) (uuid 1) j
  flag_projects now (λ n. uuid (n + 2)) js

abbrev pub claimable : ℕ → Job → Bool
claimable now job =
    ((is_waiting job.status && leb job.next_run_at now)
      || (is_running job.status && lease_expired now job))
    && ltb job.attempt job.max_attempts

-- ORDER BY created_at, job_id LIMIT 1
unfoldable pub earliest : List Job → Option Job
unfolding precedes
earliest [] = none
earliest (x ∷ xs) =
    let rest = earliest xs in
    elim rest [
      | none ↦ some x
      | some y ↦ if precedes x.created_at x.job_id y.created_at y.job_id then some x else some y
    ]

abbrev pub lease_to : String → ℕ → ℕ → Job → Job
lease_to worker_id now lease job = record job {
  status = JobStatus.running;
  attempt = job.attempt + 1;
  lease_owner = some worker_id;
  lease_expires_at = some (now + lease);
  heartbeat_at = some now;
  updated_at = now;
}

-- SELECT … LIMIT 1, the lease, and the row read back
unfoldable pub take_job : String → ℕ → ℕ → Run Db (Option Job)
take_job worker_id now lease db = elim (earliest (where_rows (claimable now) db.jobs)) [
  | none ↦ (ok none, db)
  | some row ↦
      let jobs' = update_where (is_job row.job_id) (lease_to worker_id now lease) db.jobs in
      (ok (first_row (is_job row.job_id) jobs'), record db { jobs = jobs' })
]

unfoldable pub claim_job : String → ℕ → (ℕ → String) → ℕ → Run Db (Option Job)
claim_job worker_id now uuid lease = transaction (λ db.
    (do
      flag_projects now uuid (where_rows (indeterminate now) db.jobs)
      take_job worker_id now lease)
      (record db { jobs = update_where (indeterminate now) (require_reconcile now) db.jobs }))

-- WHERE job_id = ? AND status = 'RUNNING' AND lease_owner = ?
abbrev pub held_by : String → String → Job → Bool
held_by job_id worker_id job =
    job.job_id == job_id && is_running job.status && owned_by worker_id job.lease_owner

-- An UPDATE that must change one row, and the error where it does not.
pub update_one : (Job → Bool) → (Job → Job) → Code → Run Db (Unit {0})
update_one p f code db =
    let db' = record db { jobs = update_where p f db.jobs } in
    if eqb (row_count p db.jobs) 1 then (ok tt, db') else (err (seeding code), db')

-- Such an UPDATE in a transaction of its own, and the row read back.
pub update_then_get : String → (Job → Bool) → (Job → Job) → Code → Run Db Job
update_then_get job_id p f code = do transaction (update_one p f code); get_job job_id

abbrev pub beat : ℕ → ℕ → Job → Job
beat now lease job = record job {
  heartbeat_at = some now;
  lease_expires_at = some (now + lease);
  updated_at = now;
}

pub heartbeat_job : String → String → ℕ → ℕ → Run Db (Unit {0})
unfolding transaction update_one
heartbeat_job job_id worker_id now lease =
    transaction (update_one (held_by job_id worker_id) (beat now lease) job_lease_lost)

abbrev pub run_by : String → Job → Bool
run_by worker_id job = is_running job.status && owned_by worker_id job.lease_owner

-- the heartbeat thread's call; returns the number of leases that it extends
pub heartbeat_worker_jobs : String → ℕ → ℕ → Run Db ℕ
unfolding transaction
heartbeat_worker_jobs worker_id now lease = transaction (λ db. (
  ok (row_count (run_by worker_id) db.jobs),
  record db { jobs = update_where (run_by worker_id) (beat now lease) db.jobs },
))

-- timedelta(seconds=30), in microseconds
abbrev pub retry_delay : ℕ
retry_delay = 30_000_000

abbrev pub finish : JobStatus → Option String → Option String → ℕ → Job → Job
finish status error result_json now job = record job {
  status = status;
  lease_owner = none;
  lease_expires_at = none;
  heartbeat_at = some now;
  next_run_at = now + retry_delay;
  last_error = error;
  updated_at = now;
  result_json = result_json;
}

unfoldable pub finish_job :
    String → String → JobStatus → Option String → Option String → ℕ → Run Db Job
finish_job job_id worker_id status error result_json now =
    update_then_get job_id (held_by job_id worker_id) (finish status error result_json now)
      job_lease_lost

unfoldable pub complete_job : String → String → Option String → ℕ → Run Db Job
complete_job job_id worker_id result_json now =
    finish_job job_id worker_id JobStatus.succeeded none result_json now

unfoldable pub fail_terminal_job : String → String → String → ℕ → Run Db Job
fail_terminal_job job_id worker_id result_json now =
    finish_job job_id worker_id JobStatus.failed
      (some "external operation completed with a fail-closed outcome") (some result_json) now

unfoldable pub require_reconcile_job : String → String → String → ℕ → Run Db Job
require_reconcile_job job_id worker_id result_json now =
    finish_job job_id worker_id JobStatus.reconcile_required
      (some "external result is indeterminate; explicit reconciliation required") (some result_json)
      now

-- "FAILED" if row["attempt"] >= row["max_attempts"] else "RETRY"
abbrev pub after_failure : Job → JobStatus
after_failure row = if leb row.max_attempts row.attempt then JobStatus.failed else JobStatus.retry

unfoldable pub fail_job : String → String → String → ℕ → Run Db Job
fail_job job_id worker_id error now = do
  row ← get_job job_id
  finish_job job_id worker_id (after_failure row) (some error) none now

abbrev pub waiting_job : String → Job → Bool
waiting_job job_id job = job.job_id == job_id && is_waiting job.status

abbrev pub cancel : ℕ → Job → Job
cancel now job = record job {
  status = JobStatus.cancelled;
  lease_owner = none;
  lease_expires_at = none;
  updated_at = now;
}

pub cancel_job : String → ℕ → Run Db Job
cancel_job job_id now = update_then_get job_id (waiting_job job_id) (cancel now) job_not_cancellable

abbrev pub stopped_job : String → Job → Bool
stopped_job job_id job = job.job_id == job_id && is_stopped job.status

abbrev pub resume : ℕ → Job → Job
resume now job = record job {
  status = JobStatus.pending;
  attempt = 0;
  last_error = none;
  next_run_at = now;
  updated_at = now;
}

pub resume_job : String → ℕ → Run Db Job
resume_job job_id now = update_then_get job_id (stopped_job job_id) (resume now) job_not_resumable
