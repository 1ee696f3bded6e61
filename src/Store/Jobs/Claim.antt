-- ===== src/Store/Jobs/Claim.antt =====
-- What one call of `claim_job` does to the table of jobs, and which job it hands out.
use seeding_plan_backend.Prelude.{
  ℕ, ◌≡◌, refl, sym, ap, subst, ◌∙◌, inl, inr, Bool, true, false, Option, none, some, List, [], ◌∷◌,
  String, length, All, In, Grows, Grows-trans, Grows-map, where_rows, first_row, update_where,
  In-where_rows, In-Grows, length-update_where, first_row-In, first_row_sound, Option-cases,
}
use seeding_plan_backend.Errors.{ok, bind-ok, ◌>>=◌}
use seeding_plan_backend.Store.{Db, Job, transaction-ok}
use seeding_plan_backend.Store.Jobs.{
  indeterminate, require_reconcile, claimable, lease_to, earliest, is_job, flag_projects, take_job,
  claim_job,
}
use seeding_plan_backend.Store.Jobs.Keys.{
  UniqueIds, update_where-UniqueIds, In-UniqueIds, Changed, Changed-update_where, earliest-In,
}
use seeding_plan_backend.Store.Jobs.Flag.{flag_projects-Succeeds}

everywhere : (xs : List Job) → All (λ x. Unit {0}) xs
everywhere [] = tt
everywhere (x ∷ xs) = (tt, everywhere xs)

module _ (worker : String) (now : ℕ) (uuid : ℕ → String) (lease : ℕ) where
  -- the table after the UPDATE that sets RECONCILE_REQUIRED
  abbrev pub swept : List Job → List Job
  swept jobs = update_where (indeterminate now) (require_reconcile now) jobs

  -- the row that the SELECT finds
  abbrev pub found : List Job → Option Job
  found jobs = earliest (where_rows (claimable now) (swept jobs))

  abbrev pub taken : Option Job → List Job → List Job
  taken none jobs = jobs
  taken (some row) jobs = update_where (is_job row.job_id) (lease_to worker now lease) jobs

  -- the row that is read back
  abbrev pub answer : Option Job → List Job → Option Job
  answer none jobs = none
  answer (some row) jobs = first_row (is_job row.job_id) (taken (some row) jobs)

  take_job_lem :
      (db : Db)
      → let row = earliest (where_rows (claimable now) db.jobs) in
        ((take_job worker now lease db).0 ≡ ok (answer row db.jobs))
        × ((take_job worker now lease db).1.jobs ≡ taken row db.jobs)
  unfolding take_job
  take_job_lem db = elim (Option-cases (earliest (where_rows (claimable now) db.jobs))) [
    | inl n ↦ rw (n, take_job) (refl, refl)
    | inr (r, s) ↦ rw (s, take_job) (refl, refl)
  ]

  -- The call never raises; its answer and its table of jobs come from the table before it alone.
  pub claim_job_lem :
      (db : Db)
      → ((claim_job worker now uuid lease db).0 ≡ ok (answer (found db.jobs) (swept db.jobs)))
        × ((claim_job worker now uuid lease db).1.jobs ≡ taken (found db.jobs) (swept db.jobs))
  unfolding claim_job
  claim_job_lem db =
      let db' = record db { jobs = swept db.jobs } in
      let flagged = flag_projects-Succeeds now uuid (where_rows (indeterminate now) db.jobs) db' in
      let flag = flag_projects now uuid (where_rows (indeterminate now) db.jobs) in
      let take = take_job_lem (flag db').1 in
      let body = bind-ok flag (λ _. take_job worker now lease) db' tt flagged.0 in
      let done =
        transaction-ok
          (λ d.
            (flag_projects now uuid (where_rows (indeterminate now) d.jobs) >>= λ _.
            take_job worker now lease)
              (record d { jobs = swept d.jobs }))
          db _ (ap (λ r. r.0) body ∙ take.0) in
      let row : List Job → Option Job = λ js. earliest (where_rows (claimable now) js) in
      (
        done.0 ∙ ap (λ js. ok (answer (row js) js)) flagged.1,
        ap (λ (d : Db). d.jobs) done.1
            ∙ ap (λ r. r.1.jobs) body
            ∙ take.1
            ∙ ap (λ js. taken (row js) js) flagged.1,
      )

  -- What the call may do to a row: nothing, or flag an indeterminate write, or lease a claimable
  -- row that is not such a write.
  pub data Claimed (x y : Job) : Type 0 where
    kept : y ≡ x → Claimed x y
    flagged : indeterminate now x ≡ true → y ≡ require_reconcile now x → Claimed x y
    leased :
        indeterminate now x ≡ false
        → claimable now x ≡ true
        → y ≡ lease_to worker now lease x
        → Claimed x y

  -- the sweep, row by row
  pub swept_rows :
      (jobs : List Job)
      → Grows
          (Changed (indeterminate now) (λ x. indeterminate now x ≡ true) (require_reconcile now))
          jobs
          (swept jobs)
  swept_rows jobs =
      Changed-update_where (λ x. indeterminate now x ≡ true) (λ x. Unit {0}) (indeterminate now)
        (require_reconcile now) (λ x _ t. t) jobs (everywhere jobs)

  -- A row that has been flagged is not claimable.
  swept_then_leased :
      (x y z : Job)
      → Changed (indeterminate now) (λ x. indeterminate now x ≡ true) (require_reconcile now) x y
      → (p : Job → Bool) → Changed p (λ y. claimable now y ≡ true) (lease_to worker now lease) y z
      → Claimed x z
  swept_then_leased x y z (inl h) p (inl k) = kept (k.1 ∙ h.1)
  swept_then_leased x y z (inr h) p (inl k) = flagged h.0 (k.1 ∙ h.1)
  swept_then_leased x y z (inl h) p (inr k) =
      leased h.0 (subst (λ v. claimable now v ≡ true) h.1 k.0)
        (k.1 ∙ ap (lease_to worker now lease) h.1)
  swept_then_leased x y z (inr h) p (inr k) =
      absurd (cc (subst (λ v. claimable now v ≡ true) h.1 k.0))

  swept_only :
      (x y : Job)
      → Changed (indeterminate now) (λ x. indeterminate now x ≡ true) (require_reconcile now) x y
      → Claimed x y
  swept_only x y (inl h) = kept h.1
  swept_only x y (inr h) = flagged h.0 h.1

  pub found_row :
      (jobs : List Job) (row : Job)
      → found jobs ≡ some row
      → In row (swept jobs) × (claimable now row ≡ true)
  found_row jobs row e =
      In-where_rows (claimable now) row (swept jobs)
        (earliest-In (where_rows (claimable now) (swept jobs)) row e)

  swept-UniqueIds : (jobs : List Job) → UniqueIds jobs → UniqueIds (swept jobs)
  swept-UniqueIds jobs u =
      update_where-UniqueIds (indeterminate now) (require_reconcile now) (λ x. refl) jobs u

  -- A claimable row of the swept table stood there before the sweep.
  pub swept_origin :
      (jobs : List Job) (row : Job)
      → In row (swept jobs)
      → claimable now row ≡ true
      → In row jobs × (indeterminate now row ≡ false)
  swept_origin jobs row here fits =
      let (x, m, h) =
        In-Grows
          (Changed (indeterminate now) (λ x. indeterminate now x ≡ true) (require_reconcile now))
          jobs (swept jobs) row
          (length-update_where (indeterminate now) (require_reconcile now) jobs) (swept_rows jobs)
          here in
      elim h [
        | inl k ↦ (
          subst (λ v. In v jobs) (sym k.1) m,
          subst (λ v. indeterminate now v ≡ false) (sym k.1) k.0,
        )
        | inr k ↦ absurd (cc (subst (λ v. claimable now v ≡ true) k.1 fits))
      ]

  -- The row that is read back is the leased one.
  answer_leased :
      (js : List Job) (row j : Job)
      → In row js
      → UniqueIds js
      → answer (some row) js ≡ some j
      → j ≡ lease_to worker now lease row
  answer_leased js row j here u a =
      let p = is_job row.job_id in
      let f = lease_to worker now lease in
      let (y, m, h) =
        In-Grows (Changed p (λ y. y ≡ row) f) js (update_where p f js) j
          (length-update_where p f js)
          (Changed-update_where (λ y. y ≡ row) (λ y. p y ≡ true → y ≡ row) p f (λ x q t. q t) js
            (In-UniqueIds row js here u))
          (first_row-In p (update_where p f js) j a) in
      elim h [
        | inl k ↦
            absurd
              (cc (k.0, subst (λ v. p v ≡ true) k.1 (first_row_sound p (update_where p f js) j a)))
        | inr k ↦ k.1 ∙ ap f k.0
      ]

  -- Row by row, the table after the call is the table before it with such changes.
  pub claim_job-Claimed :
      (db : Db)
      → UniqueIds db.jobs
      → Grows Claimed db.jobs (claim_job worker now uuid lease db).1.jobs
  claim_job-Claimed db u = rw ((claim_job_lem db).1) (go (found db.jobs) refl)
    where
      go :
          (row : Option Job)
          → found db.jobs ≡ row
          → Grows Claimed db.jobs (taken row (swept db.jobs))
      go none e = Grows-map _ Claimed swept_only db.jobs (swept db.jobs) (swept_rows db.jobs)
      go (some row) e =
          let (here, fits) = found_row db.jobs row e in
          Grows-trans _ _ Claimed (λ x y z h k. swept_then_leased x y z h (is_job row.job_id) k)
            db.jobs (swept db.jobs) (taken (some row) (swept db.jobs)) (swept_rows db.jobs)
            (Changed-update_where (λ y. claimable now y ≡ true)
              (λ y. is_job row.job_id y ≡ true → y ≡ row) (is_job row.job_id)
              (lease_to worker now lease)
              (λ x q t. subst (λ v. claimable now v ≡ true) (sym (q t)) fits) (swept db.jobs)
              (In-UniqueIds row (swept db.jobs) here (swept-UniqueIds db.jobs u)))

  -- A job that is handed out is the row that the SELECT finds, leased.
  pub claimed_row :
      (db : Db) (j : Job)
      → UniqueIds db.jobs
      → (claim_job worker now uuid lease db).0 ≡ ok (some j)
      → (row : Job) × (found db.jobs ≡ some row) × (j ≡ lease_to worker now lease row)
  claimed_row db j u c = go (found db.jobs) refl (cc (c, (claim_job_lem db).0))
    where
      go :
          (row : Option Job)
          → found db.jobs ≡ row
          → answer row (swept db.jobs) ≡ some j
          → (row : Job) × (found db.jobs ≡ some row) × (j ≡ lease_to worker now lease row)
      go none e a = absurd (cc)
      go (some row) e a =
          let (here, _) = found_row db.jobs row e in
          (row, e, answer_leased (swept db.jobs) row j here (swept-UniqueIds db.jobs u) a)

  -- It was claimable, and no indeterminate write.
  pub claimed_from :
      (db : Db) (j : Job)
      → UniqueIds db.jobs
      → (claim_job worker now uuid lease db).0 ≡ ok (some j)
      → (x : Job) × In x db.jobs
        × (indeterminate now x ≡ false)
        × (claimable now x ≡ true)
        × (j ≡ lease_to worker now lease x)
  claimed_from db j u c =
      let (row, e, q) = claimed_row db j u c in
      let (here, fits) = found_row db.jobs row e in
      let (m, quiet) = swept_origin db.jobs row here fits in (row, m, quiet, fits, q)

  pub length-claim_job :
      (db : Db) → length (claim_job worker now uuid lease db).1.jobs ≡ length db.jobs
  length-claim_job db = rw ((claim_job_lem db).1) (
      length-taken (found db.jobs) (swept db.jobs)
      ∙ length-update_where (indeterminate now) (require_reconcile now) db.jobs)
    where
      length-taken : (row : Option Job) (js : List Job) → length (taken row js) ≡ length js
      length-taken none js = refl
      length-taken (some row) js =
          length-update_where (is_job row.job_id) (lease_to worker now lease) js

  pub claim_job-UniqueIds :
      (db : Db) → UniqueIds db.jobs → UniqueIds (claim_job worker now uuid lease db).1.jobs
  claim_job-UniqueIds db u =
      rw ((claim_job_lem db).1) (go (found db.jobs) (swept db.jobs) (swept-UniqueIds db.jobs u))
    where
      go : (row : Option Job) (js : List Job) → UniqueIds js → UniqueIds (taken row js)
      go none js v = v
      go (some row) js v =
          update_where-UniqueIds (is_job row.job_id) (lease_to worker now lease) (λ x. refl) js v
