-- ===== src/Store/Jobs/Tests.antt =====
-- A table of three jobs, the theorems of the queue applied to it, and test runs.
use seeding_plan_backend.Prelude.{
  ℕ, ◌+◌, ◌≤◌, ◌<◌, ◌≡◌, refl, ◌⊎◌, inl, inr, true, false, Option, none, some, List, [], ◌∷◌, ◌++◌,
  String, arith, In, All, first_row, update_where, where_rows, leb, if◌then◌else◌,
}
use seeding_plan_backend.Errors.{ok, err, seeding, job_lease_lost}
use seeding_plan_backend.State.{advisory_ready, nothing, not_released}
use seeding_plan_backend.Store.{empty_db, Db, Job, JobKind, JobStatus, Project, transaction}
use seeding_plan_backend.Store.Jobs.{
  is_waiting, same_input, is_job, new_job, enqueue_job, claimable, lease_to, take_job, claim_job,
  earliest, flag_projects, held_by, finish_job, fail_job, cancel_job, resume_job,
}
use seeding_plan_backend.Store.Jobs.Keys.{UniqueIds}
use seeding_plan_backend.Store.Jobs.Handout.{external_claim, leased_row_kept}
use seeding_plan_backend.Store.Jobs.Order.{
  claim_job-oldest, exhausted_job_stays, claim_job-progress,
}
use seeding_plan_backend.Store.Jobs.Enqueue.{enqueue_job-idempotent}
use seeding_plan_backend.Store.Jobs.Lease.{
  finish_job-held, finish_job-not_held, fail_job-policy, cancel_then_resume,
}
use seeding_plan_backend.Store.Jobs.Lifecycle.{
  Command, claim, complete, cancel, IsValid, steps, steps-IsValid,
}

abbrev uuid : ℕ → String
uuid n = "id"

abbrev sha : String → String
sha s = s

-- A job of the project "p": its id, kind, status, attempt of three, owner and end of the lease.
abbrev row : String → JobKind → JobStatus → ℕ → Option String → Option ℕ → ℕ → Job
row i kind status attempt owner until created = record {
  job_id = i;
  project_id = "p";
  kind = kind;
  input_sha = i;
  input_json = "{}";
  status = status;
  attempt = attempt;
  max_attempts = 3;
  lease_owner = owner;
  lease_expires_at = until;
  heartbeat_at = none;
  next_run_at = 0;
  last_error = none;
  created_at = created;
  updated_at = created;
  result_json = none;
}

-- leased until 100
abbrev held : Job
held = row "a" JobKind.execute_test JobStatus.running 1 (some "w0") (some 100) 1

abbrev due : Job
due = row "b" JobKind.release JobStatus.pending 0 none none 2

-- its lease ended at 10 with its last attempt
abbrev stuck : Job
stuck = row "c" JobKind.prepare JobStatus.running 3 (some "w9") (some 10) 3

abbrev project : Project
project = record {
  project_id = "p";
  owner_principal_id = "o";
  config_json = "{}";
  config_sha = "s";
  project_state = advisory_ready;
  execution_state = nothing;
  delivery_state = not_released;
  created_at = 0;
  updated_at = 0;
}

abbrev table : Db
table = record empty_db { projects = project ∷ []; jobs = held ∷ due ∷ stuck ∷ [] }

unique : UniqueIds table.jobs
unique = ((refl, (refl, tt)), ((refl, tt), (tt, tt)))

claimed : (claim_job "w1" 50 uuid 60 table).0 ≡ ok (some (lease_to "w1" 50 60 due))
unfolding claim_job take_job earliest flag_projects transaction where_rows update_where first_row
claimed = refl

external_claim_example :
    (x : Job) × In x table.jobs
    × ((is_waiting x.status ≡ true) × (x.next_run_at ≤ 50) × (x.attempt < x.max_attempts))
    × (lease_to "w1" 50 60 due ≡ lease_to "w1" 50 60 x)
    × (1 ≡ x.attempt + 1)
    × (due.max_attempts ≡ x.max_attempts)
external_claim_example =
    external_claim "w1" 50 uuid 60 table unique (lease_to "w1" 50 60 due) claimed refl

leased_row_kept_example : In held (claim_job "w1" 50 uuid 60 table).1.jobs
leased_row_kept_example =
    leased_row_kept "w1" 50 uuid 60 table unique held 100 (inl refl) refl refl (omega arith)

claim_job-oldest_example : (lease_to "w1" 50 60 due).created_at ≤ due.created_at
claim_job-oldest_example =
    claim_job-oldest "w1" 50 uuid 60 table (lease_to "w1" 50 60 due) due unique claimed
      (inr (inl refl)) refl refl

exhausted_job_stays_example : In stuck (claim_job "w1" 50 uuid 60 table).1.jobs
exhausted_job_stays_example =
    exhausted_job_stays "w1" 50 uuid 60 table stuck unique (inr (inr (inl refl))) refl refl
      (omega arith)

claim_job-progress_example :
    ((j : Job) × ((claim_job "w1" 50 uuid 60 table).0 ≡ ok (some j)))
    ⊎ (((claim_job "w1" 50 uuid 60 table).0 ≡ ok none)
        × All (λ x. claimable 50 x ≡ false) (claim_job "w1" 50 uuid 60 table).1.jobs)
claim_job-progress_example = claim_job-progress "w1" 50 uuid 60 table

enqueue_job-idempotent_example :
    (row : Job) × (db' : Db) × (enqueue_job sha "x" "p" JobKind.prepare "{1}" 3 7 table
      ≡ (ok row, db'))
    × (((first_row (same_input "p" JobKind.prepare "{1}") table.jobs ≡ some row) × (db' ≡ table))
        ⊎ ((first_row (same_input "p" JobKind.prepare "{1}") table.jobs ≡ none)
            × (row ≡ new_job "x" "p" JobKind.prepare "{1}" "{1}" 3 7)
            × (row.status ≡ JobStatus.pending)
            × (row.attempt ≡ 0)
            × (db' ≡ record table { jobs = table.jobs ++ row ∷ [] })))
    × (enqueue_job sha "y" "p" JobKind.prepare "{1}" 5 8 db' ≡ (ok row, db'))
enqueue_job-idempotent_example =
    enqueue_job-idempotent sha "p" JobKind.prepare "{1}" "x" "y" 3 5 7 8 table refl

finish_job-held_example :
    (y : Job) × (jobs : List Job) × (finish_job "a" "w0" JobStatus.succeeded none none 60 table
      ≡ (ok y, record table { jobs = jobs }))
    × (y.status ≡ JobStatus.succeeded)
    × (y.lease_owner ≡ none)
    × (y.lease_expires_at ≡ none)
    × (y.last_error ≡ none)
    × (y.result_json ≡ none)
    × (y.next_run_at ≡ 60 + 30_000_000)
    × (y.attempt ≡ 1)
    × (first_row (is_job "a") jobs ≡ some y)
    × All (λ z. (z.job_id ≡ "a") ⊎ In z jobs) table.jobs
finish_job-held_example =
    finish_job-held "a" "w0" JobStatus.succeeded none none 60 table held unique (inl refl) refl

not_held : (y : Job) → In y table.jobs → held_by "a" "w1" y ≡ false
not_held y (inl e) = rw (← e) refl
not_held y (inr (inl e)) = rw (← e) refl
not_held y (inr (inr (inl e))) = rw (← e) refl
not_held y (inr (inr (inr x))) = elim x [ ]

finish_job-not_held_example :
    finish_job "a" "w1" JobStatus.succeeded none none 60 table
    ≡ (err (seeding job_lease_lost), table)
finish_job-not_held_example =
    finish_job-not_held "a" "w1" JobStatus.succeeded none none 60 table not_held

fail_job-policy_example :
    (y : Job) × ((fail_job "a" "w0" "timeout" 60 table).0 ≡ ok y)
    × (y.status ≡ (if leb 3 1 then JobStatus.failed else JobStatus.retry))
    × (y.next_run_at ≡ 60 + 30_000_000)
    × (y.lease_owner ≡ none)
    × (y.attempt ≡ 1)
fail_job-policy_example = fail_job-policy "a" "w0" "timeout" 60 table held unique (inl refl) refl

cancel_then_resume_example :
    (y : Job) × (z : Job) × ((cancel_job "b" 60 table).0 ≡ ok y)
    × (y.job_id ≡ "b")
    × (y.status ≡ JobStatus.cancelled)
    × (y.lease_owner ≡ none)
    × (y.lease_expires_at ≡ none)
    × ((resume_job "b" 70 (cancel_job "b" 60 table).1).0 ≡ ok z)
    × (z.job_id ≡ "b")
    × (z.status ≡ JobStatus.pending)
    × (z.attempt ≡ 0)
    × (z.next_run_at ≡ 70)
    × (z.lease_owner ≡ none)
    × (z.last_error ≡ none)
    × (z.project_id ≡ "p")
    × (z.kind ≡ JobKind.release)
    × (z.input_json ≡ "{}")
cancel_then_resume_example = cancel_then_resume "b" 60 70 table due unique (inr (inl refl)) refl

abbrev script : List Command
script = claim "w1" 50 uuid 60 ∷ complete "b" "w1" none 55 ∷ cancel "a" 56 ∷ []

valid : IsValid table
valid = record {
  unique = unique;
  sound = (
    record { owner = refl; expiry = refl; attempts = omega arith },
    (
      record { owner = refl; expiry = refl; attempts = omega arith },
      (record { owner = refl; expiry = refl; attempts = omega arith }, tt),
    ),
  );
}

steps-IsValid_example : IsValid (steps sha script table)
steps-IsValid_example = steps-IsValid sha script table (tt, (tt, (tt, tt))) valid
