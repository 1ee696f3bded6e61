-- ===== src/Store/Jobs/Enqueue.antt =====
-- `enqueue_job` is idempotent: the unique key of the table is the identity of a request.
use seeding_plan_backend.Prelude.{
  ℕ, ◌≡◌, refl, ap, ◌⊎◌, inl, inr, Bool, true, false, none, some, [], ◌∷◌, ◌++◌, String, first_row,
  first_row-append, Option-cases, Bool-cases, eq_refl,
}
use seeding_plan_backend.Errors.{ok, err, integrity_error, ◌>>=◌}
use seeding_plan_backend.Store.{
  JobStatus, Db, Job, JobKind, transaction-do, transaction-err, has_project, kind_text,
}
use seeding_plan_backend.Store.Jobs.{
  same_input, new_job, insert_or_ignore_job, select_input, enqueue_job,
}

module _ (sha256 : String → String) (project_id : String) (kind : JobKind) (json : String) where
  abbrev same : Job → Bool
  same = same_input project_id kind (sha256 json)

  same_self :
      (job_id : String) (max now : ℕ)
      → same (new_job job_id project_id kind (sha256 json) json max now) ≡ true
  same_self job_id max now =
      rw (eq_refl project_id) (rw (eq_refl (kind_text kind)) (eq_refl (sha256 json)))

  -- A request whose row is there returns it.
  enqueue_known :
      (job_id : String) (max now : ℕ) (db : Db) (row : Job)
      → first_row same db.jobs ≡ some row
      → enqueue_job sha256 job_id project_id kind json max now db ≡ (ok row, db)
  unfolding enqueue_job
  enqueue_known job_id max now db row e =
      transaction-do
        (insert_or_ignore_job (new_job job_id project_id kind (sha256 json) json max now))
        (λ _. select_input project_id kind (sha256 json)) db db db tt row
        (unfold insert_or_ignore_job in rw (e, insert_or_ignore_job) refl)
        (unfold select_input in rw (e, select_input) refl)

  enqueue_new :
      (job_id : String) (max now : ℕ) (db : Db)
      → first_row same db.jobs ≡ none
      → has_project project_id db ≡ true
      → let row = new_job job_id project_id kind (sha256 json) json max now in
        enqueue_job sha256 job_id project_id kind json max now db
        ≡ (ok row, record db { jobs = db.jobs ++ row ∷ [] })
  unfolding enqueue_job
  enqueue_new job_id max now db e h =
      let row = new_job job_id project_id kind (sha256 json) json max now in
      let db' = record db { jobs = db.jobs ++ row ∷ [] } in
      let found = first_row-append same db.jobs row e (same_self job_id max now) in
      transaction-do (insert_or_ignore_job row) (λ _. select_input project_id kind (sha256 json)) db
        db' db' tt row (unfold insert_or_ignore_job in rw (e, insert_or_ignore_job) (rw h refl))
        (unfold select_input in rw (found, select_input) refl)

  enqueue_refused :
      (job_id : String) (max now : ℕ) (db : Db)
      → first_row same db.jobs ≡ none
      → has_project project_id db ≡ false
      → enqueue_job sha256 job_id project_id kind json max now db ≡ (err integrity_error, db)
  unfolding enqueue_job insert_or_ignore_job
  enqueue_refused job_id max now db e h =
      transaction-err
        (insert_or_ignore_job (new_job job_id project_id kind (sha256 json) json max now) >>= λ _.
          select_input project_id kind (sha256 json))
        db integrity_error (rw (e, insert_or_ignore_job) (rw h refl))

  pub enqueue_job-Extends :
      (job_id : String) (max now : ℕ) (db : Db)
      → ((enqueue_job sha256 job_id project_id kind json max now db).1.jobs ≡ db.jobs)
        ⊎ ((enqueue_job sha256 job_id project_id kind json max now db).1.jobs
            ≡ db.jobs ++ new_job job_id project_id kind (sha256 json) json max now ∷ [])
  enqueue_job-Extends job_id max now db = elim (Option-cases (first_row same db.jobs)) [
    | inr (row, e) ↦ inl (ap (λ r. r.1.jobs) (enqueue_known job_id max now db row e))
    | inl e ↦ elim (Bool-cases (has_project project_id db)) [
      | inl h ↦ inr (ap (λ r. r.1.jobs) (enqueue_new job_id max now db e h))
      | inr h ↦ inl (ap (λ r. r.1.jobs) (enqueue_refused job_id max now db e h))
    ]
  ]

  -- For a project that exists, `enqueue_job` returns a job with the given project, kind and digest:
  -- the one that the table has under that key, which is then left as it is, or else a new PENDING
  -- one without attempts, which is appended. Calling it again for the same request, with any other
  -- id, time or attempt limit, returns that same job and changes nothing.
  pub enqueue_job-idempotent :
      (job_id job_id' : String) (max max' now now' : ℕ) (db : Db)
      → has_project project_id db ≡ true
      → (row : Job) × (db' : Db) × (enqueue_job sha256 job_id project_id kind json max now db
          ≡ (ok row, db'))
        × (((first_row same db.jobs ≡ some row) × (db' ≡ db))
            ⊎ ((first_row same db.jobs ≡ none)
                × (row ≡ new_job job_id project_id kind (sha256 json) json max now)
                × (row.status ≡ JobStatus.pending)
                × (row.attempt ≡ 0)
                × (db' ≡ record db { jobs = db.jobs ++ row ∷ [] })))
        × (enqueue_job sha256 job_id' project_id kind json max' now' db' ≡ (ok row, db'))
  enqueue_job-idempotent job_id job_id' max max' now now' db h =
      elim (Option-cases (first_row same db.jobs)) [
        | inr (row, e) ↦ (
          row,
          db,
          enqueue_known job_id max now db row e,
          inl (e, refl),
          enqueue_known job_id' max' now' db row e,
        )
        | inl e ↦
            let row = new_job job_id project_id kind (sha256 json) json max now in
            let db' = record db { jobs = db.jobs ++ row ∷ [] } in
            (
              row,
              db',
              enqueue_new job_id max now db e h,
              inr (e, refl, refl, refl, refl),
              enqueue_known job_id' max' now' db' row
                  (first_row-append same db.jobs row e (same_self job_id max now)),
            )
      ]
