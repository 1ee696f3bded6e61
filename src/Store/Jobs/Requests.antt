-- ===== src/Store/Jobs/Requests.antt =====
-- app/seeding/store.py: what the queue asks of a job row, the reads (`find_job`, `get_job`,
-- `list_jobs`) and `enqueue_job`.
use seeding_plan_backend.Prelude.{
  ℕ, Bool, true, false, Option, none, some, List, [], ◌∷◌, ◌++◌, String, ◌==◌, ◌&&◌, leb,
  if◌then◌else◌, where_rows, first_row,
}
use seeding_plan_backend.Errors.{
  Run, ok, err, integrity_error, unexpected, seeding, job_not_found, ◌>>◌,
}
use seeding_plan_backend.Store.{Db, Job, JobKind, JobStatus, kind_text, transaction, has_project}

abbrev pub is_running : JobStatus → Bool
is_running JobStatus.running = true
is_running _ = false

-- status IN ('PENDING', 'RETRY')
abbrev pub is_waiting : JobStatus → Bool
is_waiting JobStatus.pending = true
is_waiting JobStatus.retry = true
is_waiting _ = false

-- status IN ('FAILED', 'CANCELLED')
abbrev pub is_stopped : JobStatus → Bool
is_stopped JobStatus.failed = true
is_stopped JobStatus.cancelled = true
is_stopped _ = false

-- kind IN ('EXECUTE_TEST', 'PRODUCTION_CREATE', 'RECONCILE', 'RELEASE', …)
abbrev pub is_external : JobKind → Bool
is_external JobKind.prepare = false
is_external JobKind.sync_juguang = false
is_external (JobKind.unknown _) = false
is_external _ = true

abbrev pub lease_expired : ℕ → Job → Bool
lease_expired now job = elim job.lease_expires_at [ none ↦ false | some t ↦ leb t now ]

abbrev pub same_input : String → JobKind → String → Job → Bool
same_input project_id kind input_sha job =
    job.project_id == project_id
    && kind_text job.kind == kind_text kind
    && job.input_sha == input_sha

abbrev pub is_job : String → Job → Bool
is_job job_id job = job.job_id == job_id

pub find_job : String → JobKind → String → Db → Option Job
find_job project_id kind input_sha db = first_row (same_input project_id kind input_sha) db.jobs

unfoldable pub get_job : String → Run Db Job
get_job job_id db = elim (first_row (is_job job_id) db.jobs) [
  | some row ↦ (ok row, db)
  | none ↦ (err (seeding job_not_found), db)
]

pub list_jobs : String → Db → List Job
list_jobs project_id db = where_rows (λ (j : Job). j.project_id == project_id) db.jobs

-- the row of an INSERT INTO jobs
abbrev pub new_job : String → String → JobKind → String → String → ℕ → ℕ → Job
new_job job_id project_id kind input_sha input_json max_attempts now = record {
  job_id = job_id;
  project_id = project_id;
  kind = kind;
  input_sha = input_sha;
  input_json = input_json;
  status = JobStatus.pending;
  attempt = 0;
  max_attempts = max_attempts;
  lease_owner = none;
  lease_expires_at = none;
  heartbeat_at = none;
  next_run_at = now;
  last_error = none;
  created_at = now;
  updated_at = now;
  result_json = none;
}

-- INSERT OR IGNORE: the unique key (project_id, kind, input_sha) drops the row, a missing project
-- is still an error.
unfoldable pub insert_or_ignore_job : Job → Run Db (Unit {0})
insert_or_ignore_job row db =
    elim (first_row (same_input row.project_id row.kind row.input_sha) db.jobs) [
      | some _ ↦ (ok tt, db)
      | none ↦
          if has_project row.project_id db
          then (ok tt, record db { jobs = db.jobs ++ row ∷ [] })
          else (err integrity_error, db)
    ]

unfoldable pub select_input : String → JobKind → String → Run Db Job
select_input project_id kind input_sha db =
    elim (first_row (same_input project_id kind input_sha) db.jobs) [
      | some row ↦ (ok row, db)
      | none ↦ (err unexpected, db)
    ]

module _ (sha256 : String → String) where
  -- `input_json` is the canonical JSON of the payload, `sha256` the digest that `sha256_json`
  -- takes of it, `job_id` the text made from `uuid4`.
  unfoldable pub enqueue_job : String → String → JobKind → String → ℕ → ℕ → Run Db Job
  enqueue_job job_id project_id kind input_json max_attempts now = transaction (do
    insert_or_ignore_job
        (new_job job_id project_id kind (sha256 input_json) input_json max_attempts now)
    select_input project_id kind (sha256 input_json))
