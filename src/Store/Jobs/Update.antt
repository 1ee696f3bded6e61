-- ===== src/Store/Jobs/Update.antt =====
-- An UPDATE of one job row by its id and a condition, and the read that follows it.
use seeding_plan_backend.Prelude.{
  ◌≡◌, refl, sym, subst, ap, ◌∙◌, ◌⊎◌, inl, inr, Bool, true, false, some, List, [], ◌∷◌, String,
  ◌==◌, arith, In, first_row, update_where, row_count, Bool-cases, Option-cases, eqb, eq_iff,
}
use seeding_plan_backend.Errors.{Result, ok, err, seeding, Code, continue, bind-ok}
use seeding_plan_backend.Store.{Db, Job, transaction, transaction-ok, transaction-err}
use seeding_plan_backend.Store.Jobs.{is_job, get_job, update_one, update_then_get}
use seeding_plan_backend.Store.Jobs.Keys.{
  UniqueIds, row_count_one, first_row-update_where, first_row_unique,
}

row_count_none_In :
    (p : Job → Bool) (xs : List Job) → ((y : Job) → In y xs → p y ≡ false) → row_count p xs ≡ 0
unfolding row_count
row_count_none_In p [] h = refl
row_count_none_In p (x ∷ xs) h =
    rw (h x (inl refl)) (omega (arith, row_count_none_In p xs (λ y m. h y (inr m))))

-- An UPDATE that must change one row.
module _ (p : Job → Bool) (f : Job → Job) (code : Code) (db : Db) where
  pub update_one-ok :
      row_count p db.jobs ≡ 1
      → (transaction (update_one p f code) db).0 ≡ ok tt
        × ((transaction (update_one p f code) db).1 ≡ record db { jobs = update_where p f db.jobs })
  unfolding update_one
  update_one-ok h =
      let body : update_one p f code db ≡ (ok tt, record db { jobs = update_where p f db.jobs }) =
        rw (h, update_one) refl in
      let done = transaction-ok (update_one p f code) db tt (ap (λ r. r.0) body) in
      (done.0, done.1 ∙ ap (λ r. r.1) body)

  pub update_one-err :
      eqb (row_count p db.jobs) 1 ≡ false
      → transaction (update_one p f code) db ≡ (err (seeding code), db)
  unfolding update_one
  update_one-err h =
      transaction-err (update_one p f code) db (seeding code) (rw (h, update_one) refl)

module _ (job_id : String) (p : Job → Bool) (f : Job → Job) (code : Code) (db : Db) where
  pub update_then_get-ok :
      (x : Job)
      → ((y : Job) → p y ≡ true → (y.job_id == job_id) ≡ true)
      → ((y : Job) → (f y).job_id ≡ y.job_id)
      → UniqueIds db.jobs
      → In x db.jobs
      → p x ≡ true
      → update_then_get job_id p f code db
        ≡ (ok (f x), record db { jobs = update_where p f db.jobs })
  unfolding update_then_get get_job
  update_then_get-ok x keyed kept u m t =
      let same : x.job_id ≡ job_id = (eq_iff x.job_id job_id).0 (keyed x t) in
      let one =
        row_count_one p x db.jobs
          (λ y h. subst (λ i. (y.job_id == i) ≡ true) (sym same) (keyed y h)) m u t in
      let row = first_row-update_where p f x db.jobs kept m u t in
      let done = update_one-ok p f code db one in
      let rest = bind-ok (transaction (update_one p f code)) (λ _. get_job job_id) db tt done.0 in
      rest
      ∙ ap (get_job job_id) done.1
      ∙ rw
          (
            subst (λ i. first_row (is_job i) (update_where p f db.jobs) ≡ some (f x)) same row,
            get_job,
          )
          refl

  pub update_then_get-err :
      ((y : Job) → In y db.jobs → p y ≡ false)
      → update_then_get job_id p f code db ≡ (err (seeding code), db)
  unfolding update_then_get
  update_then_get-err none_matches =
      rw (update_one-err p f code db (rw (row_count_none_In p db.jobs none_matches))) refl

pub get_job-In :
    (x : Job) (db : Db) → In x db.jobs → UniqueIds db.jobs → get_job x.job_id db ≡ (ok x, db)
unfolding get_job
get_job-In x db m u = rw (first_row_unique x db.jobs m u, get_job) refl

-- The table after such a call is the one before it, or that of the UPDATE.
module _ (p : Job → Bool) (f : Job → Job) (code : Code) (db : Db) where
  abbrev pub Updates : Db → Type 0
  Updates db' = (db'.jobs ≡ db.jobs) ⊎ (db'.jobs ≡ update_where p f db.jobs)

  pub update_one-Updates : Updates (transaction (update_one p f code) db).1
  update_one-Updates = elim (Bool-cases (eqb (row_count p db.jobs) 1)) [
    | inl h ↦ inr (ap (λ (d : Db). d.jobs) (update_one-ok p f code db (ground arith)).1)
    | inr h ↦ inl (ap (λ r. r.1.jobs) (update_one-err p f code db h))
  ]

  pub update_then_get-Updates : (job_id : String) → Updates (update_then_get job_id p f code db).1
  unfolding update_then_get
  update_then_get-Updates job_id =
      subst Updates (sym (unread job_id (transaction (update_one p f code) db))) update_one-Updates
    where
      got : (i : String) (d : Db) → (get_job i d).1 ≡ d
      got i d =
          unfold get_job in
          elim (Option-cases (first_row (is_job i) d.jobs)) [
            | inl n ↦ rw (n, get_job) refl
            | inr (r, s) ↦ rw (s, get_job) refl
          ]

      unread :
          (i : String) (r : Result (Unit {0}) × Db) → (continue r.0 (λ _. get_job i) r.1).1 ≡ r.1
      unread i (ok a, d) = got i d
      unread i (err e, d) = refl
