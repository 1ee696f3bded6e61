-- ===== src/Service/Worker/Tests.antt =====
-- A round that claims a job, with a handler that raises, and the theorem on its outcome applied to it.
use seeding_plan_backend.Prelude.{
  ℕ, ◌≡◌, refl, inl, none, some, [], ◌∷◌, String, first_row, update_where, where_rows,
}
use seeding_plan_backend.Errors.{Run, ok, err, Exc, unexpected}
use seeding_plan_backend.Store.{Db, Job, JobKind, JobStatus, empty_db, transaction}
use seeding_plan_backend.Store.Jobs.{lease_to, claim_job, take_job, earliest, flag_projects}
use seeding_plan_backend.Service.Worker.{JobResult, process_next_job}
use seeding_plan_backend.Service.Worker.Settle.{Closed}
use seeding_plan_backend.Service.Worker.Outcome.{process_next_job-Closed}

abbrev due : Job
due = record {
  job_id = "b";
  project_id = "p";
  kind = JobKind.release;
  input_sha = "s";
  input_json = "{}";
  status = JobStatus.pending;
  attempt = 0;
  max_attempts = 3;
  lease_owner = none;
  lease_expires_at = none;
  heartbeat_at = none;
  next_run_at = 0;
  last_error = none;
  created_at = 2;
  updated_at = 2;
  result_json = none;
}

abbrev db : Db
db = record empty_db { jobs = due ∷ [] }

abbrev claimed : Job
claimed = lease_to "w" 5 100 due

abbrev leased : Db
leased = record empty_db { jobs = claimed ∷ [] }

-- the platform's answer is lost
abbrev lost : Job → Run Db JobResult
lost job d = (err unexpected, d)

abbrev text : Exc → String
text e = "lost"

abbrev clock : ℕ → ℕ
clock n = 5

abbrev ids : ℕ → String
ids n = "id"

claims : claim_job "w" 5 ids 100 db ≡ (ok (some claimed), leased)
unfolding claim_job take_job earliest flag_projects transaction where_rows update_where first_row
claims = refl

process_next_job-Closed_example :
    Closed "w" claimed leased
      (lost claimed leased).0
      (process_next_job lost text text "w" 100 clock ids ids db)
process_next_job-Closed_example =
    process_next_job-Closed lost text text "w" 100 clock ids ids claimed db leased claimed claims
      refl (tt, tt) (inl refl) refl
