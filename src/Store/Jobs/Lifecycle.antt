-- ===== src/Store/Jobs/Lifecycle.antt =====
-- Workers, the heartbeat thread and operators interleave their calls on one table of jobs. What
-- holds of the table after any such sequence.
use seeding_plan_backend.Prelude.{
  ℕ, ◌≤◌, ◌≡◌, refl, sym, subst, inl, inr, Bool, true, false, Option, none, some, List, [], ◌∷◌,
  ◌++◌, String, arith, All, All-update_where, All-append, All-Grows, is_some, update_where,
  first_row, Option-cases,
}
use seeding_plan_backend.Store.{Db, Job, JobKind, JobStatus}
use seeding_plan_backend.Store.Jobs
use seeding_plan_backend.Store.Jobs.Enqueue.{enqueue_job-Extends}
use seeding_plan_backend.Store.Jobs.{
  new_job, beat, run_by, is_job, get_job, after_failure, waiting_job, stopped_job, is_running,
  is_waiting, is_stopped, enqueue_job, claim_job, heartbeat_job, heartbeat_worker_jobs,
  complete_job, finish, finish_job, held_by, fail_terminal_job, require_reconcile_job, fail_job,
  cancel_job, resume_job,
}
use seeding_plan_backend.Store.Jobs.Keys.{UniqueIds, OtherId, update_where-UniqueIds, other_id_sym}
use seeding_plan_backend.Store.Jobs.Claim.{
  Claimed, kept, flagged, leased, claim_job-Claimed, claim_job-UniqueIds, length-claim_job,
}
use seeding_plan_backend.Store.Jobs.Update.{Updates, update_one-Updates, update_then_get-Updates}
use seeding_plan_backend.Errors.{Code, job_lease_lost, job_not_cancellable, job_not_resumable}

-- A call, with what `utc_now` and `uuid4` return to it.
pub data Command : Type 0 where
  enqueue :
      (job_id project_id : String) (kind : JobKind) (json : String) (max_attempts now : ℕ) → Command
  claim : (worker : String) (now : ℕ) (uuid : ℕ → String) (lease : ℕ) → Command
  heartbeat : (job_id worker : String) (now lease : ℕ) → Command
  heartbeat_all : (worker : String) (now lease : ℕ) → Command
  complete : (job_id worker : String) (result : Option String) (now : ℕ) → Command
  fail_terminal : (job_id worker result : String) (now : ℕ) → Command
  require : (job_id worker result : String) (now : ℕ) → Command
  fail : (job_id worker error : String) (now : ℕ) → Command
  cancel : (job_id : String) (now : ℕ) → Command
  resume : (job_id : String) (now : ℕ) → Command

-- A row holds a lease exactly while it is RUNNING, and is never attempted more often than allowed.
pub record IsSound (j : Job) : Type 0 where
  pub owner : is_some j.lease_owner ≡ is_running j.status
  pub expiry : is_some j.lease_expires_at ≡ is_running j.status
  pub attempts : j.attempt ≤ j.max_attempts

pub record IsValid (db : Db) : Type 0 where
  pub unique : UniqueIds db.jobs
  pub sound : All IsSound db.jobs

-- An UPDATE that keeps ids and soundness keeps a valid table.
module _ (p : Job → Bool) (f : Job → Job) (keyed : (x : Job) → (f x).job_id ≡ x.job_id)
    (sound : (x : Job) → p x ≡ true → IsSound x → IsSound (f x)) where
  updated-IsValid : (db db' : Db) → db'.jobs ≡ update_where p f db.jobs → IsValid db → IsValid db'
  updated-IsValid db db' e v = record {
    unique = subst UniqueIds (sym e) (update_where-UniqueIds p f keyed db.jobs v.unique);
    sound = subst (All IsSound) (sym e) (All-update_where IsSound p f sound db.jobs v.sound);
  }

  Updates-IsValid : (code : Code) (db db' : Db) → Updates p f code db db' → IsValid db → IsValid db'
  Updates-IsValid code db db' (inl e) v = record {
    unique = subst UniqueIds (sym e) v.unique;
    sound = subst (All IsSound) (sym e) v.sound;
  }
  Updates-IsValid code db db' (inr e) v = updated-IsValid db db' e v

finish-IsSound :
    (i w : String) (status : JobStatus) (error result : Option String) (now : ℕ) (x : Job)
    → is_running status ≡ false
    → IsSound x
    → IsSound (finish status error result now x)
finish-IsSound i w status error result now x r s = record {
  owner = sym r;
  expiry = sym r;
  attempts = s.attempts;
}

finished :
    (i w : String) (status : JobStatus) (error result : Option String) (now : ℕ) (db : Db)
    → is_running status ≡ false
    → IsValid db
    → IsValid (finish_job i w status error result now db).1
unfolding finish_job
finished i w status error result now db r v =
    Updates-IsValid (held_by i w) (finish status error result now) (λ x. refl)
      (λ x _ s. finish-IsSound i w status error result now x r s) job_lease_lost db
      (finish_job i w status error result now db).1
      (update_then_get-Updates (held_by i w) (finish status error result now) job_lease_lost db i) v

Claimed-IsSound :
    (w : String) (now : ℕ) (uuid : ℕ → String) (lease : ℕ) (x y : Job)
    → Claimed w now uuid lease x y
    → IsSound x
    → IsSound y
Claimed-IsSound w now uuid lease x y (kept e) s = subst IsSound (sym e) s
Claimed-IsSound w now uuid lease x y (flagged h e) s =
    subst IsSound (sym e) (record { owner = refl; expiry = refl; attempts = s.attempts })
Claimed-IsSound w now uuid lease x y (leased h c e) s =
    subst IsSound (sym e) (record { owner = refl; expiry = refl; attempts = ground arith })

append-UniqueIds :
    (x : Job) (xs : List Job) → All (OtherId x.job_id) xs → UniqueIds xs → UniqueIds (xs ++ x ∷ [])
append-UniqueIds x [] f u = (tt, tt)
append-UniqueIds x (y ∷ ys) f u = (
  All-append (OtherId y.job_id) ys (x ∷ []) u.0 (other_id_sym y.job_id x.job_id f.0, tt),
  append-UniqueIds x ys f.1 u.1,
)

enqueue-IsValid :
    (sha256 : String → String) (i p : String) (k : JobKind) (json : String) (max now : ℕ) (db : Db)
    → All (OtherId i) db.jobs
    → IsValid db
    → IsValid (enqueue_job sha256 i p k json max now db).1
enqueue-IsValid sha256 i p k json max now db f v =
    let row = new_job i p k (sha256 json) json max now in
    let db' = (enqueue_job sha256 i p k json max now db).1 in
    let fresh : IsSound row = record { owner = refl; expiry = refl; attempts = omega arith } in
    elim (enqueue_job-Extends sha256 p k json i max now db) [
      | inl e ↦ record {
        unique = subst UniqueIds (sym e) v.unique;
        sound = subst (All IsSound) (sym e) v.sound;
      }
      | inr e ↦ record {
        unique = subst UniqueIds (sym e) (append-UniqueIds row db.jobs f v.unique);
        sound =
            subst (All IsSound) (sym e) (All-append IsSound db.jobs (row ∷ []) v.sound (fresh, tt));
      }
    ]

beat-IsSound :
    (now lease : ℕ) (x : Job) → is_running x.status ≡ true → IsSound x → IsSound (beat now lease x)
beat-IsSound now lease x r s = record { owner = s.owner; expiry = sym r; attempts = s.attempts }

held_running : (i w : String) (x : Job) → held_by i w x ≡ true → is_running x.status ≡ true
held_running i w x h = ground arith

run_by_running : (w : String) (x : Job) → run_by w x ≡ true → is_running x.status ≡ true
run_by_running w x h = ground arith

cancel-IsSound : (i : String) (now : ℕ) (x : Job) → IsSound x → IsSound (Jobs.cancel now x)
cancel-IsSound i now x s = record { owner = refl; expiry = refl; attempts = s.attempts }

resume-IsSound :
    (i : String) (now : ℕ) (x : Job)
    → stopped_job i x ≡ true
    → IsSound x
    → IsSound (Jobs.resume now x)
resume-IsSound i now x h s = record {
  owner = ground arith;
  expiry = ground arith;
  attempts = omega arith;
}

failed-IsValid :
    (i w error : String) (now : ℕ) (db : Db) → IsValid db → IsValid (fail_job i w error now db).1
unfolding fail_job get_job
failed-IsValid i w error now db v = elim (Option-cases (first_row (is_job i) db.jobs)) [
  | inl n ↦ rw (n, fail_job, get_job) v
  | inr (r, s) ↦
      rw (s, fail_job, get_job)
        (finished i w (after_failure r) (some error) none now db (ground arith) v)
]

module _ (sha256 : String → String) where
  unfoldable pub step : Command → Db → Db
  step (enqueue i p k json max now) db = (enqueue_job sha256 i p k json max now db).1
  step (claim w now uuid lease) db = (claim_job w now uuid lease db).1
  step (heartbeat i w now lease) db = (heartbeat_job i w now lease db).1
  step (heartbeat_all w now lease) db = (heartbeat_worker_jobs w now lease db).1
  step (complete i w r now) db = (complete_job i w r now db).1
  step (fail_terminal i w r now) db = (fail_terminal_job i w r now db).1
  step (require i w r now) db = (require_reconcile_job i w r now db).1
  step (fail i w e now) db = (fail_job i w e now db).1
  step (cancel i now) db = (cancel_job i now db).1
  step (resume i now) db = (resume_job i now db).1

  unfoldable pub steps : List Command → Db → Db
  steps [] db = db
  steps (c ∷ cs) db = steps cs (step c db)

  -- An enqueued job has an id that no row has: the ids are fresh uuid4 texts.
  abbrev pub Fresh : Command → Db → Type 0
  Fresh (enqueue i p k json max now) db = All (OtherId i) db.jobs
  Fresh (claim _ _ _ _) db = Unit
  Fresh (heartbeat _ _ _ _) db = Unit
  Fresh (heartbeat_all _ _ _) db = Unit
  Fresh (complete _ _ _ _) db = Unit
  Fresh (fail_terminal _ _ _ _) db = Unit
  Fresh (require _ _ _ _) db = Unit
  Fresh (fail _ _ _ _) db = Unit
  Fresh (cancel _ _) db = Unit
  Fresh (resume _ _) db = Unit

  abbrev pub FreshIds : List Command → Db → Type 0
  FreshIds [] db = Unit
  FreshIds (c ∷ cs) db = Fresh c db × FreshIds cs (step c db)

  step-IsValid : (c : Command) (db : Db) → Fresh c db → IsValid db → IsValid (step c db)
  unfolding step heartbeat_job heartbeat_worker_jobs complete_job fail_terminal_job
      require_reconcile_job cancel_job resume_job
  step-IsValid (enqueue i p k json max now) db f v =
      enqueue-IsValid sha256 i p k json max now db f v
  step-IsValid (claim w now uuid lease) db f v = record {
    unique = claim_job-UniqueIds w now uuid lease db v.unique;
    sound =
        All-Grows IsSound (Claimed w now uuid lease) (Claimed-IsSound w now uuid lease) db.jobs
          (claim_job w now uuid lease db).1.jobs (length-claim_job w now uuid lease db)
          (claim_job-Claimed w now uuid lease db v.unique) v.sound;
  }
  step-IsValid (heartbeat i w now lease) db f v =
      Updates-IsValid (held_by i w) (beat now lease) (λ x. refl)
        (λ x h. beat-IsSound now lease x (held_running i w x h)) job_lease_lost db
        (heartbeat_job i w now lease db).1
        (update_one-Updates (held_by i w) (beat now lease) job_lease_lost db) v
  step-IsValid (heartbeat_all w now lease) db f v =
      updated-IsValid (run_by w) (beat now lease) (λ x. refl)
        (λ x h. beat-IsSound now lease x (run_by_running w x h)) db
        (heartbeat_worker_jobs w now lease db).1 refl v
  step-IsValid (complete i w r now) db f v = finished i w JobStatus.succeeded none r now db refl v
  step-IsValid (fail_terminal i w r now) db f v =
      finished i w JobStatus.failed _ (some r) now db refl v
  step-IsValid (require i w r now) db f v =
      finished i w JobStatus.reconcile_required _ (some r) now db refl v
  step-IsValid (fail i w e now) db f v = failed-IsValid i w e now db v
  step-IsValid (cancel i now) db f v =
      Updates-IsValid (waiting_job i) (Jobs.cancel now) (λ x. refl)
        (λ x _ s. cancel-IsSound i now x s) job_not_cancellable db (cancel_job i now db).1
        (update_then_get-Updates (waiting_job i) (Jobs.cancel now) job_not_cancellable db i) v
  step-IsValid (resume i now) db f v =
      Updates-IsValid (stopped_job i) (Jobs.resume now) (λ x. refl)
        (λ x h s. resume-IsSound i now x h s) job_not_resumable db (resume_job i now db).1
        (update_then_get-Updates (stopped_job i) (Jobs.resume now) job_not_resumable db i) v

  -- From a table with unique ids whose rows are sound, every sequence of job operations with fresh
  -- ids, by any workers and operators in any order and at any times, ends in such a table: a job
  -- has a lease exactly while it is RUNNING, and no job exceeds its attempt limit.
  pub steps-IsValid :
      (cs : List Command) (db : Db) → FreshIds cs db → IsValid db → IsValid (steps cs db)
  unfolding steps
  steps-IsValid [] db f v = v
  steps-IsValid (c ∷ cs) db f v = steps-IsValid cs (step c db) f.1 (step-IsValid c db f.0 v)
