-- ===== src/Store/Jobs/Lease.antt =====
-- The operations on one job row. Those of a worker (`heartbeat_job`, `_finish_job`) need the
-- lease, `cancel_job` and `resume_job` need the status; otherwise they raise and change nothing.
use seeding_plan_backend.Prelude.{
  ℕ, ◌+◌, ◌≡◌, refl, subst, ap, ◌∙◌, ◌⊎◌, inl, inr, true, false, Option, none, some, List, [], ◌∷◌,
  String, ◌==◌, arith, In, In-update_where, first_row, All, update_where, Bool-cases, eq_iff,
  if◌then◌else◌, leb,
}
use seeding_plan_backend.Errors.{
  ok, err, seeding, job_lease_lost, job_not_cancellable, job_not_resumable, bind-ok,
}
use seeding_plan_backend.Store.{Db, Job, JobStatus}
use seeding_plan_backend.Store.Jobs.{
  is_job, get_job, held_by, waiting_job, stopped_job, finish, finish_job, fail_job, after_failure,
  cancel_job, resume_job, cancel, resume,
}
use seeding_plan_backend.Store.Jobs.Keys.{UniqueIds, first_row-update_where, update_where-UniqueIds}
use seeding_plan_backend.Store.Jobs.Update.{update_then_get-ok, update_then_get-err, get_job-In}

keyed_held : (i w : String) (y : Job) → held_by i w y ≡ true → (y.job_id == i) ≡ true
keyed_held i w y h = ground arith

-- Where job ids are unique and the worker holds the job, `_finish_job` returns the row as the UPDATE
-- leaves it.
pub finish_job-row :
    (job_id worker : String) (status : JobStatus) (error result : Option String) (now : ℕ) (db : Db)
    → (x : Job) → UniqueIds db.jobs
    → In x db.jobs
    → held_by job_id worker x ≡ true
    → finish_job job_id worker status error result now db ≡ (
      ok (finish status error result now x),
      record db {
        jobs = update_where (held_by job_id worker) (finish status error result now) db.jobs;
      },
    )
unfolding finish_job
finish_job-row job_id worker status error result now db x u m h =
    update_then_get-ok job_id (held_by job_id worker) (finish status error result now)
      job_lease_lost db x (keyed_held job_id worker) (λ y. refl) u m h

In-All : {A : Type 0} (P : A → Type 0) (rows : List A) → ((z : A) → In z rows → P z) → All P rows
In-All P [] h = tt
In-All P (x ∷ xs) h = (h x (inl refl), In-All P xs (λ z m. h z (inr m)))

keyed_apart : (i w : String) (z : Job) → (z.job_id == i) ≡ false → held_by i w z ≡ false
keyed_apart i w z h = rw h refl

others_kept :
    (i w : String) (f : Job → Job) (rows : List Job)
    → All (λ z. (z.job_id ≡ i) ⊎ In z (update_where (held_by i w) f rows)) rows
others_kept i w f rows = In-All _ rows (λ z n. elim (Bool-cases (z.job_id == i)) [
  | inl k ↦ inl ((eq_iff z.job_id i).0 k)
  | inr k ↦ inr (
      subst (λ b. In (if b then f z else z) (update_where (held_by i w) f rows))
        (keyed_apart i w z k) (In-update_where (held_by i w) f z rows n))
])

-- Where job ids are unique and the worker holds the job, `_finish_job` returns a row of that job with
-- the status, error and result that it is called with, without a lease owner and an end of the lease,
-- due 30 seconds later, and with the attempts counted before. The table then has that row under the
-- job's id and still has every row of another id, and no other table changes.
pub finish_job-held :
    (job_id worker : String) (status : JobStatus) (error result : Option String) (now : ℕ) (db : Db)
    → (x : Job) → UniqueIds db.jobs
    → In x db.jobs
    → held_by job_id worker x ≡ true
    → (y : Job) × (jobs : List Job) × (finish_job job_id worker status error result now db
        ≡ (ok y, record db { jobs = jobs }))
      × (y.status ≡ status)
      × (y.lease_owner ≡ none)
      × (y.lease_expires_at ≡ none)
      × (y.last_error ≡ error)
      × (y.result_json ≡ result)
      × (y.next_run_at ≡ now + 30_000_000)
      × (y.attempt ≡ x.attempt)
      × (first_row (is_job job_id) jobs ≡ some y)
      × All (λ z. (z.job_id ≡ job_id) ⊎ In z jobs) db.jobs
finish_job-held job_id worker status error result now db x u m h =
    let p = held_by job_id worker in
    let f = finish status error result now in
    let jobs = update_where p f db.jobs in
    let same : x.job_id ≡ job_id = (eq_iff x.job_id job_id).0 (keyed_held job_id worker x h) in
    (
      f x,
      jobs,
      finish_job-row job_id worker status error result now db x u m h,
      refl,
      refl,
      refl,
      refl,
      refl,
      refl,
      refl,
      subst (λ i. first_row (is_job i) jobs ≡ some (f x)) same
          (first_row-update_where p f x db.jobs (λ y. refl) m u h),
      others_kept job_id worker f db.jobs,
    )

-- Where no row is RUNNING under that id with the worker as lease owner, `_finish_job` raises
-- JOB_LEASE_LOST and the database is as before: a worker that lost its lease cannot report.
pub finish_job-not_held :
    (job_id worker : String) (status : JobStatus) (error result : Option String) (now : ℕ) (db : Db)
    → ((y : Job) → In y db.jobs → held_by job_id worker y ≡ false)
    → finish_job job_id worker status error result now db ≡ (err (seeding job_lease_lost), db)
unfolding finish_job
finish_job-not_held job_id worker status error result now db h =
    update_then_get-err job_id (held_by job_id worker) (finish status error result now)
      job_lease_lost db h

-- Where job ids are unique and the worker holds the job, `fail_job` returns it without a lease,
-- FAILED if its attempts are used up and otherwise in RETRY, due 30 seconds later.
pub fail_job-policy :
    (job_id worker error : String) (now : ℕ) (db : Db) (x : Job)
    → UniqueIds db.jobs
    → In x db.jobs
    → held_by job_id worker x ≡ true
    → (y : Job) × ((fail_job job_id worker error now db).0 ≡ ok y)
      × (y.status ≡ (if leb x.max_attempts x.attempt then JobStatus.failed else JobStatus.retry))
      × (y.next_run_at ≡ now + 30_000_000)
      × (y.lease_owner ≡ none)
      × (y.attempt ≡ x.attempt)
unfolding fail_job
fail_job-policy job_id worker error now db x u m h =
    let y = finish (after_failure x) (some error) none now x in
    let same : x.job_id ≡ job_id = (eq_iff x.job_id job_id).0 (keyed_held job_id worker x h) in
    let got : get_job job_id db ≡ (ok x, db) =
      subst (λ i. get_job i db ≡ (ok x, db)) same (get_job-In x db m u) in
    let rest =
      bind-ok (get_job job_id)
        (λ row. finish_job job_id worker (after_failure row) (some error) none now) db x
        (ap (λ r. r.0) got) in
    let done = finish_job-row job_id worker (after_failure x) (some error) none now db x u m h in
    (
      y,
      ap (λ r. r.0)
          (rest
            ∙ ap (finish_job job_id worker (after_failure x) (some error) none now)
                (ap (λ r. r.1) got)
            ∙ done),
      refl,
      refl,
      refl,
      refl,
    )

keyed_waiting : (i : String) (y : Job) → waiting_job i y ≡ true → (y.job_id == i) ≡ true
keyed_waiting i y h = ground arith

keyed_stopped : (i : String) (y : Job) → stopped_job i y ≡ true → (y.job_id == i) ≡ true
keyed_stopped i y h = ground arith

-- Where job ids are unique and the job waits, both calls return the row as their UPDATE leaves it.
cancel_job-resume_job :
    (job_id : String) (t u : ℕ) (db : Db) (x : Job)
    → UniqueIds db.jobs
    → In x db.jobs
    → waiting_job job_id x ≡ true
    → ((cancel_job job_id t db).0 ≡ ok (cancel t x))
      × ((resume_job job_id u (cancel_job job_id t db).1).0 ≡ ok (resume u (cancel t x)))
unfolding cancel_job resume_job
cancel_job-resume_job job_id t u db x uniq m h =
    let p = waiting_job job_id in
    let done =
      update_then_get-ok job_id p (cancel t) job_not_cancellable db x (keyed_waiting job_id)
        (λ y. refl) uniq m h in
    let db' = record db { jobs = update_where p (cancel t) db.jobs } in
    let here : In (cancel t x) db'.jobs =
      subst (λ b. In (if b then cancel t x else x) db'.jobs) h
        (In-update_where p (cancel t) x db.jobs m) in
    let again =
      update_then_get-ok job_id (stopped_job job_id) (resume u) job_not_resumable db' (cancel t x)
        (keyed_stopped job_id) (λ y. refl)
        (update_where-UniqueIds p (cancel t) (λ y. refl) db.jobs uniq) here (ground arith) in
    (
      ap (λ r. r.0) done,
      ap (λ (d : Db). (resume_job job_id u d).0) (ap (λ r. r.1) done) ∙ ap (λ r. r.0) again,
    )

-- Where job ids are unique, `cancel_job` on a PENDING or RETRY job returns it CANCELLED and without a
-- lease, and `resume_job` on the database that it leaves returns the same job PENDING again, due at
-- once, with no attempt counted and no error, and with its project, kind and input unchanged.
pub cancel_then_resume :
    (job_id : String) (t u : ℕ) (db : Db) (x : Job)
    → UniqueIds db.jobs
    → In x db.jobs
    → waiting_job job_id x ≡ true
    → (y : Job) × (z : Job) × ((cancel_job job_id t db).0 ≡ ok y)
      × (y.job_id ≡ x.job_id)
      × (y.status ≡ JobStatus.cancelled)
      × (y.lease_owner ≡ none)
      × (y.lease_expires_at ≡ none)
      × ((resume_job job_id u (cancel_job job_id t db).1).0 ≡ ok z)
      × (z.job_id ≡ x.job_id)
      × (z.status ≡ JobStatus.pending)
      × (z.attempt ≡ 0)
      × (z.next_run_at ≡ u)
      × (z.lease_owner ≡ none)
      × (z.last_error ≡ none)
      × (z.project_id ≡ x.project_id)
      × (z.kind ≡ x.kind)
      × (z.input_json ≡ x.input_json)
cancel_then_resume job_id t u db x uniq m h =
    let (one, two) = cancel_job-resume_job job_id t u db x uniq m h in
    (
      cancel t x,
      resume u (cancel t x),
      one,
      refl,
      refl,
      refl,
      refl,
      two,
      refl,
      refl,
      refl,
      refl,
      refl,
      refl,
      refl,
      refl,
      refl,
    )
