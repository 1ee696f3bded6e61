-- ===== src/Service/Worker/Settle.antt =====
-- What ending a job does to the table of jobs, and that the other steps after it leave jobs alone.
use seeding_plan_backend.Prelude.{
  ℕ, ◌≡◌, refl, sym, subst, ap, ◌∙◌, ◌⊎◌, inl, inr, Bool, true, false, not, Option, none, some,
  String, ◌&&◌, In, first_row, update_where, Option-cases, Bool-cases, if◌then◌else◌,
}
use seeding_plan_backend.Errors.{Result, Run, ok, err, Exc, Result-cases, continue, ◌>>=◌}
use seeding_plan_backend.Store.{alert, Db, Job, Project, JobStatus, Event, transaction, has_project}
use seeding_plan_backend.Store.Rows.{append_outbox, select_project, is_project, emit_event}
use seeding_plan_backend.Store.Projects.Moves.{Moved, missing, refused, committed, transition-Moved}
use seeding_plan_backend.Store.Projects.{Surface, transition, get_project}
use seeding_plan_backend.Store.Jobs.{
  held_by, finish, finish_job, complete_job, fail_terminal_job, require_reconcile_job,
}
use seeding_plan_backend.Store.Jobs.Keys.{UniqueIds}
use seeding_plan_backend.Store.Jobs.Lease.{finish_job-row}
use seeding_plan_backend.Service.Worker.{
  JobResult, has_status, writes_plans, is_release, is_evaluate, is_recovery, is_paused_result,
  end_failed, alert_failed, settle,
}

-- The method changes no job.
abbrev pub Keeps : {A : Type 0} → Run Db A → Type 0
Keeps m = (db : Db) → (m db).1.jobs ≡ db.jobs

module _ {A B : Type 0} (m : Run Db A) (f : A → Run Db B) where
  pub bind-Keeps : Keeps m → ((a : A) → Keeps (f a)) → Keeps (m >>= f)
  bind-Keeps k l db = go (m db) (k db)
    where
      go : (r : Result A × Db) → r.1.jobs ≡ db.jobs → (continue r.0 f r.1).1.jobs ≡ db.jobs
      go (ok a, d) e = l a d ∙ e
      go (err x, d) e = e

transaction-Keeps : {A : Type 0} (m : Run Db A) → Keeps m → Keeps (transaction m)
unfolding transaction
transaction-Keeps m k db = elim (Result-cases (m db).0) [
  | inl (a, h) ↦ rw (h, transaction) (k db)
  | inr (e, h) ↦ rw (h, transaction) refl
]

pub if-Keeps :
    {A : Type 0} (b : Bool) (m n : Run Db A) → Keeps m → Keeps n → Keeps (if b then m else n)
if-Keeps true m n k l = k
if-Keeps false m n k l = l

append_outbox-Keeps : (i p : String) (e : Event) (now : ℕ) → Keeps (append_outbox i p e now)
unfolding append_outbox
append_outbox-Keeps i p e now db = elim (Bool-cases (has_project p db)) [
  | inl t ↦ rw (t, append_outbox) refl
  | inr f ↦ rw (f, append_outbox) refl
]

pub emit_event-Keeps : (i p : String) (e : Event) (now : ℕ) → Keeps (emit_event i p e now)
unfolding emit_event
emit_event-Keeps i p e now =
    transaction-Keeps (append_outbox i p e now) (append_outbox-Keeps i p e now)

select_project-Keeps : (p : String) → Keeps (select_project p)
unfolding select_project
select_project-Keeps p db = elim (Option-cases (first_row (is_project p) db.projects)) [
  | inl n ↦ rw (n, select_project) refl
  | inr (r, s) ↦ rw (s, select_project) refl
]

pub get_project-Keeps : (p : String) → Keeps (get_project p)
unfolding get_project
get_project-Keeps p = select_project-Keeps p

module _ {S : Type 0} (surface : Surface S)
    (keeps : (s : S) (row : Project) → (surface.write s row).project_id ≡ row.project_id)
    (i e p : String) (target : S) (actor reason : String) (now : ℕ) where
  pub transition-Keeps : Keeps (transition surface i e p target actor reason now)
  transition-Keeps db = go _ (transition-Moved surface keeps i e p target actor reason now db)
    where
      go :
          (r : Result Project × Db)
          → Moved surface keeps i e p target actor reason now db r
          → r.1.jobs ≡ db.jobs
      go r (missing n h) = ap (λ t. t.1.jobs) h
      go r (refused row x s v h) = ap (λ t. t.1.jobs) h
      go r (committed row s v h) = ap (λ t. t.1.jobs) h

abbrev closed : Option String
closed = some "external operation completed with a fail-closed outcome"

abbrev pub is_ok : {A : Type 0} → Result A → Bool
is_ok (ok a) = true
is_ok (err e) = false

-- A final status for an external job: the job is neither run again nor left RUNNING.
abbrev pub is_final : JobStatus → Bool
is_final JobStatus.succeeded = true
is_final JobStatus.failed = true
is_final JobStatus.reconcile_required = true
is_final _ = false

module _ (worker : String) (job : Job) (db : Db) where
  -- The worker's row of the job has ended with this status, and no other job has changed.
  abbrev pub Ended : JobStatus → Db → Type 0
  Ended status db' =
      (error json : Option String) × (now : ℕ) × (db'.jobs
        ≡ update_where (held_by job.job_id worker) (finish status error json now) db.jobs)

  -- A final status, and RECONCILE_REQUIRED unless the handler returned.
  abbrev pub Closed : {A : Type 0} → Result JobResult → Result A × Db → Type 0
  Closed answer r =
      (status : JobStatus) × (is_final status ≡ true)
      × Ended status r.1
      × ((is_ok answer ≡ true) ⊎ (status ≡ JobStatus.reconcile_required))

  pub data Settled (r : Result Job × Db) : Type 0 where
    ends :
        (status : JobStatus) (row : Job) (db' : Db)
        → r ≡ (ok row, db')
        → is_final status ≡ true
        → Ended status db'
        → Settled r
    raises : (e : Exc) (db' : Db) → r ≡ (err e, db') → db'.jobs ≡ db.jobs → Settled r

  if-Settled :
      (b : Bool) (m n : Run Db Job) (d : Db)
      → Settled (m d)
      → Settled (n d)
      → Settled ((if b then m else n) d)
  if-Settled true m n d k l = k
  if-Settled false m n d k l = l

  module _ {A : Type 0} (m : Run Db A) (f : A → Run Db Job) where
    then-Settled :
        Keeps m → ((d : Db) → d.jobs ≡ db.jobs → (a : A) → Settled (f a d)) → Settled ((m >>= f) db)
    then-Settled k l = go (m db) (k db)
      where
        go : (r : Result A × Db) → r.1.jobs ≡ db.jobs → Settled (continue r.0 f r.1)
        go (ok a, d) e = l d e a
        go (err x, d) e = raises x d refl e

  -- The worker holds the job.
  module _ (x : Job) (u : UniqueIds db.jobs) (m : In x db.jobs)
      (h : held_by job.job_id worker x ≡ true) where
    pub finish-Ended :
        (status : JobStatus) (error json : Option String) (now : ℕ) (d : Db)
        → d.jobs ≡ db.jobs
        → (row : Job) × (db' : Db) × (finish_job job.job_id worker status error json now d
            ≡ (ok row, db'))
          × Ended status db'
    finish-Ended status error json now d e = (
      finish status error json now x,
      record d {
        jobs = update_where (held_by job.job_id worker) (finish status error json now) d.jobs;
      },
      finish_job-row job.job_id worker status error json now d x (subst UniqueIds (sym e) u)
          (subst (In x) (sym e) m) h,
      (
        error,
        json,
        now,
        ap (update_where (held_by job.job_id worker) (finish status error json now)) e,
      ),
    )

    finish-Settled :
        (status : JobStatus) (error json : Option String) (now : ℕ) (d : Db)
        → is_final status ≡ true
        → d.jobs ≡ db.jobs
        → Settled (finish_job job.job_id worker status error json now d)
    finish-Settled status error json now d f e =
        let (row, db', run, ended) = finish-Ended status error json now d e in
        ends status row db' run f ended

    module _ (handle : Job → Run Db JobResult) (error_json error_text : Exc → String) (lease : ℕ)
        (clock : ℕ → ℕ) (uuid ids : ℕ → String) where
      alert_failed-Settled :
          (result : JobResult) (code : Option String)
          → Settled (
              alert_failed handle error_json error_text worker lease clock uuid ids job result code
                db)
      unfolding alert_failed fail_terminal_job
      alert_failed-Settled result code =
          then-Settled (emit_event (ids 0) job.project_id (alert code job.job_id) (clock 1))
            (λ _. end_failed handle error_json error_text worker lease clock uuid ids job result)
            (emit_event-Keeps (ids 0) job.project_id (alert code job.job_id) (clock 1))
            (λ d e _. finish-Settled JobStatus.failed closed (some result.json) (clock 2) d refl e)

      pub settle-Settled :
          (result : JobResult)
          → Settled (settle handle error_json error_text worker lease clock uuid ids job result db)
      unfolding settle fail_terminal_job require_reconcile_job complete_job
      settle-Settled result =
          if-Settled (writes_plans job.kind && has_status "RECONCILE_REQUIRED" result) _ _ db
            (finish-Settled JobStatus.reconcile_required
              (some "external result is indeterminate; explicit reconciliation required")
              (some result.json) (clock 2) db refl refl)
            (if-Settled (writes_plans job.kind && not (is_paused_result result)) _ _ db
              (finish-Settled JobStatus.failed closed (some result.json) (clock 2) db refl refl)
              (if-Settled (is_release job.kind && not (has_status "RELEASE_ACTIVE" result)) _ _ db
                (alert_failed-Settled result result.status)
                (if-Settled (is_evaluate job.kind && has_status "CAP_EXCEEDED_RELOCK_FAILED" result)
                  _ _ db
                  (finish-Settled JobStatus.failed closed (some result.json) (clock 2) db refl refl)
                  (if-Settled
                    (is_recovery job.kind && not (has_status "RELEASE_RECOVERED_SAFE" result)) _ _
                    db (alert_failed-Settled result (some "RELEASE_RECOVERY_FAILED"))
                    (finish-Settled JobStatus.succeeded none (some result.json) (clock 2) db refl
                      refl)))))
