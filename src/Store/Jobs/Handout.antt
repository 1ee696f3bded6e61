-- ===== src/Store/Jobs/Handout.antt =====
-- Which jobs `claim_job` hands out, and which it leaves alone.
use seeding_plan_backend.Prelude.{
  ◌+◌, ap, ℕ, ◌≤◌, ◌<◌, ◌≡◌, subst, true, false, some, String, arith, In, Grows-In,
}
use seeding_plan_backend.Errors.{ok}
use seeding_plan_backend.Store.{Db, Job}
use seeding_plan_backend.Store.Jobs.{
  is_running, is_waiting, is_external, indeterminate, claimable, lease_to, claim_job,
}
use seeding_plan_backend.Store.Jobs.Keys.{UniqueIds}
use seeding_plan_backend.Store.Jobs.Claim.{
  Claimed, kept, flagged, leased, claim_job-Claimed, claimed_from,
}

due_external :
    (now : ℕ) (x : Job)
    → is_external x.kind ≡ true
    → indeterminate now x ≡ false
    → claimable now x ≡ true
    → (is_waiting x.status ≡ true) × (x.next_run_at ≤ now) × (x.attempt < x.max_attempts)
due_external now x e i c = ground arith

still_leased :
    (worker : String) (now : ℕ) (uuid : ℕ → String) (lease : ℕ) (x y : Job) (until : ℕ)
    → x.lease_expires_at ≡ some until
    → now < until
    → is_running x.status ≡ true
    → Claimed worker now uuid lease x y
    → y ≡ x
still_leased worker now uuid lease x y until e l r (kept h) = h
still_leased worker now uuid lease x y until e l r (flagged h k) = absurd (ground arith)
still_leased worker now uuid lease x y until e l r (leased h c k) = absurd (ground arith)

module _ (worker : String) (now : ℕ) (uuid : ℕ → String) (lease : ℕ) (db : Db)
    (u : UniqueIds db.jobs) where
  -- Where job ids are unique and `claim_job` hands out a job of an external kind, that job comes
  -- from a row that was PENDING or RETRY (never from a RUNNING one, so that an indeterminate write
  -- is not replayed), was due, had attempts left, and is returned leased to the worker with its
  -- attempt counted.
  pub external_claim :
      (j : Job)
      → (claim_job worker now uuid lease db).0 ≡ ok (some j)
      → is_external j.kind ≡ true
      → (x : Job) × In x db.jobs
        × ((is_waiting x.status ≡ true) × (x.next_run_at ≤ now) × (x.attempt < x.max_attempts))
        × (j ≡ lease_to worker now lease x)
        × (j.attempt ≡ x.attempt + 1)
        × (j.max_attempts ≡ x.max_attempts)
  external_claim j c e =
      let (x, m, i, k, q) = claimed_from worker now uuid lease db j u c in
      (
        x,
        m,
        due_external now x (subst (λ v. is_external v.kind ≡ true) q e) i k,
        q,
        ap (λ v. v.attempt) q,
        ap (λ v. v.max_attempts) q,
      )

  -- Where job ids are unique, a RUNNING row whose lease ends after `now` stands in the table
  -- unchanged after any call of `claim_job`: no second worker gets it and no sweep flags it.
  pub leased_row_kept :
      (x : Job) (until : ℕ)
      → In x db.jobs
      → is_running x.status ≡ true
      → x.lease_expires_at ≡ some until
      → now < until
      → In x (claim_job worker now uuid lease db).1.jobs
  leased_row_kept x until m r e l =
      let jobs' = (claim_job worker now uuid lease db).1.jobs in
      let (y, n, h) =
        Grows-In (Claimed worker now uuid lease) db.jobs jobs' x
          (claim_job-Claimed worker now uuid lease db u) m in
      subst (λ v. In v jobs') (still_leased worker now uuid lease x y until e l r h) n
