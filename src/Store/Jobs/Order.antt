-- ===== src/Store/Jobs/Order.antt =====
-- `claim_job` always answers, hands out an oldest claimable job, and leaves nothing claimable when
-- it answers with none. A job whose attempts are used up is never handed out again.
use seeding_plan_backend.Prelude.{
  ℕ, ◌≤◌, ◌≡◌, refl, subst, ap, ◌∙◌, ◌⊎◌, inl, inr, Bool, true, false, Option, none, some, List, [],
  ◌∷◌, String, arith, All, In, where_rows, first_row, where_rows-In, Grows-In, In-update_where,
  Option-cases, Bool-cases, update_where, first_row-eq-none, eq_refl, if◌then◌else◌,
}
use seeding_plan_backend.Errors.{ok}
use seeding_plan_backend.Store.{Db, Job}
use seeding_plan_backend.Store.Rows.{precedes}
use seeding_plan_backend.Store.Jobs.{
  is_running, is_external, indeterminate, require_reconcile, claimable, lease_to, earliest, is_job,
  claim_job,
}
use seeding_plan_backend.Store.Jobs.Keys.{UniqueIds}
use seeding_plan_backend.Store.Jobs.Claim.{
  swept, found, Claimed, kept, flagged, leased, claim_job_lem, claim_job-Claimed, claimed_row,
  found_row,
}

-- `earliest` finds nothing in the empty list only.
earliest-none : (xs : List Job) (x : Job) → earliest xs ≡ none → In x xs → ⊥
unfolding earliest
earliest-none [] x e m = elim m [ ]
earliest-none (y ∷ ys) x e m = elim (Option-cases (earliest ys)) [
  | inl n ↦ cc (rw n at e)
  | inr (b, s) ↦ elim (Bool-cases (precedes y.created_at y.job_id b.created_at b.job_id)) [
    | inl t ↦ cc (rw t at (rw s at e))
    | inr t ↦ cc (rw t at (rw s at e))
  ]
]

precedes-le : (a : ℕ) (s : String) (b : ℕ) (t : String) → precedes a s b t ≡ true → a ≤ b
unfolding precedes
precedes-le a s b t h = ground arith

precedes-ge : (a : ℕ) (s : String) (b : ℕ) (t : String) → precedes a s b t ≡ false → b ≤ a
unfolding precedes
precedes-ge a s b t h = ground arith

abbrev created : Job → ℕ
created j = j.created_at

earliest-le :
    (xs : List Job) (a x : Job) → earliest xs ≡ some a → In x xs → a.created_at ≤ x.created_at
unfolding earliest
earliest-le [] a x e m = elim m [ ]
earliest-le (y ∷ ys) a x e m = elim (Option-cases (earliest ys)) [
  | inl n ↦
      let q : y ≡ a = cc (rw n at e) in
      elim m [
        | inl r ↦ omega (arith, ap created q, ap created r)
        | inr k ↦ absurd (earliest-none ys x n k)
      ]
  | inr (b, s) ↦ elim (Bool-cases (precedes y.created_at y.job_id b.created_at b.job_id)) [
    | inl t ↦
        let q : y ≡ a = cc (rw t at (rw s at e)) in
        elim m [
          | inl r ↦ omega (arith, ap created q, ap created r)
          | inr k ↦ omega (
            arith,
            ap created q,
            earliest-le ys b x s k,
            precedes-le y.created_at y.job_id b.created_at b.job_id t,
          )
        ]
    | inr t ↦
        let q : b ≡ a = cc (rw t at (rw s at e)) in
        elim m [
          | inl r ↦ omega (
            arith,
            ap created q,
            ap created r,
            precedes-ge y.created_at y.job_id b.created_at b.job_id t,
          )
          | inr k ↦ omega (arith, ap created q, earliest-le ys b x s k)
        ]
  ]
]

unflagged :
    (worker : String) (now : ℕ) (uuid : ℕ → String) (lease : ℕ) (jobs : List Job) (x : Job)
    → In x jobs
    → indeterminate now x ≡ false
    → In x (swept worker now uuid lease jobs)
unflagged worker now uuid lease jobs x m i =
    subst (λ b. In (if b then require_reconcile now x else x) (swept worker now uuid lease jobs)) i
      (In-update_where (indeterminate now) (require_reconcile now) x jobs m)

stuck_row :
    (worker : String) (now : ℕ) (uuid : ℕ → String) (lease : ℕ) (x y : Job)
    → is_running x.status ≡ true
    → is_external x.kind ≡ false
    → x.max_attempts ≤ x.attempt
    → Claimed worker now uuid lease x y
    → y ≡ x
stuck_row worker now uuid lease x y r e a (kept h) = h
stuck_row worker now uuid lease x y r e a (flagged h k) = absurd (ground arith)
stuck_row worker now uuid lease x y r e a (leased h c k) = absurd (ground arith)

nothing_found :
    (p : Job → Bool) (xs : List Job) → earliest (where_rows p xs) ≡ none → All (λ x. p x ≡ false) xs
unfolding where_rows
nothing_found p [] e = tt
nothing_found p (x ∷ xs) e = elim (Bool-cases (p x)) [
  | inl t ↦ absurd (earliest-none (x ∷ where_rows p xs) x (rw t at e) (inl refl))
  | inr t ↦ (t, nothing_found p xs (rw t at e))
]

read_back :
    (worker : String) (now lease : ℕ) (row : Job) (xs : List Job)
    → In row xs
    → (j : Job) × (first_row
          (is_job row.job_id)
          (update_where (is_job row.job_id) (lease_to worker now lease) xs)
        ≡ some j)
read_back worker now lease row xs m =
    let p = is_job row.job_id in
    let f = lease_to worker now lease in
    let xs' = update_where p f xs in
    let here : In (f row) xs' =
      subst (λ b. In (if b then f row else row) xs') (eq_refl row.job_id)
        (In-update_where p f row xs m) in
    elim (Option-cases (first_row p xs')) [
      | inl n ↦ absurd (cc (first_row-eq-none p xs' (f row) n here, eq_refl row.job_id))
      | inr r ↦ r
    ]

module _ (worker : String) (now : ℕ) (uuid : ℕ → String) (lease : ℕ) (db : Db) where
  -- Where job ids are unique, no job that could be handed out (claimable, and no indeterminate
  -- write) was created before the job that `claim_job` hands out.
  pub claim_job-oldest :
      (j x : Job)
      → UniqueIds db.jobs
      → (claim_job worker now uuid lease db).0 ≡ ok (some j)
      → In x db.jobs
      → claimable now x ≡ true
      → indeterminate now x ≡ false
      → j.created_at ≤ x.created_at
  claim_job-oldest j x u c m f i =
      let (row, e, q) = claimed_row worker now uuid lease db j u c in
      let old =
        earliest-le (where_rows (claimable now) (swept worker now uuid lease db.jobs)) row x e (
          where_rows-In (claimable now) x (swept worker now uuid lease db.jobs)
            (unflagged worker now uuid lease db.jobs x m i) f) in
      omega (arith, ap created q, old)

  -- A RUNNING job of a planning kind whose attempts are used up stands unchanged in the table after
  -- every call of `claim_job`, also when its lease has expired (job ids unique).
  pub exhausted_job_stays :
      (x : Job)
      → UniqueIds db.jobs
      → In x db.jobs
      → is_running x.status ≡ true
      → is_external x.kind ≡ false
      → x.max_attempts ≤ x.attempt
      → In x (claim_job worker now uuid lease db).1.jobs
  exhausted_job_stays x u m r e a =
      let jobs' = (claim_job worker now uuid lease db).1.jobs in
      let (y, n, h) =
        Grows-In (Claimed worker now uuid lease) db.jobs jobs' x
          (claim_job-Claimed worker now uuid lease db u) m in
      subst (λ v. In v jobs') (stuck_row worker now uuid lease x y r e a h) n

  -- `claim_job` never raises. It hands out a job, or no row of the table that it leaves is
  -- claimable.
  pub claim_job-progress :
      ((j : Job) × ((claim_job worker now uuid lease db).0 ≡ ok (some j)))
      ⊎ (((claim_job worker now uuid lease db).0 ≡ ok none)
          × All (λ x. claimable now x ≡ false) (claim_job worker now uuid lease db).1.jobs)
  claim_job-progress = go (found worker now uuid lease db.jobs) refl
    where
      table : List Job
      table = swept worker now uuid lease db.jobs

      go :
          (row : Option Job)
          → found worker now uuid lease db.jobs ≡ row
          → ((j : Job) × ((claim_job worker now uuid lease db).0 ≡ ok (some j)))
            ⊎ (((claim_job worker now uuid lease db).0 ≡ ok none)
                × All (λ x. claimable now x ≡ false) (claim_job worker now uuid lease db).1.jobs)
      go none e = inr (
        (claim_job_lem worker now uuid lease db).0 ∙ rw e refl,
        rw ((claim_job_lem worker now uuid lease db).1)
            (rw e (nothing_found (claimable now) table e)),
      )
      go (some row) e =
          let (j, a) =
            read_back worker now lease row table
              (found_row worker now uuid lease db.jobs row e).0 in
          inl (j, (claim_job_lem worker now uuid lease db).0 ∙ rw e (ap ok a))
