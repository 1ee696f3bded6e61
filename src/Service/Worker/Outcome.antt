-- ===== src/Service/Worker/Outcome.antt =====
-- How a round of the worker leaves a job of an external kind, whatever its handler did.
use seeding_plan_backend.Prelude.{
  ℕ, ◌≡◌, refl, sym, subst, ap, ◌∙◌, inl, inr, true, Option, some, String, ◌||◌, In, if◌then◌else◌,
}
use seeding_plan_backend.Errors.{
  Result, Run, ok, err, Exc, seeding, unknown_job_kind, pure, raise, continue, bind-do, ◌>>◌,
}
use seeding_plan_backend.State.{ExecutionState, failed_closed}
use seeding_plan_backend.Store.{Db, Job, JobKind, JobStatus, alert}
use seeding_plan_backend.Store.Projects.{project_surface, execution_surface, get_project}
use seeding_plan_backend.Store.Jobs.{is_external, held_by, claim_job, require_reconcile_job}
use seeding_plan_backend.Store.Jobs.Keys.{UniqueIds}
use seeding_plan_backend.Service.Worker.{
  JobResult, writes_plans, is_release, is_evaluate, is_recovery, is_preparing, is_write_in_progress,
  swallow, handled, settle, run_job, stop_writing, close_project, report, alert_exception, on_error,
  process_claimed, process_next_job,
}
use seeding_plan_backend.Service.Worker.Settle.{
  Keeps, bind-Keeps, if-Keeps, emit_event-Keeps, get_project-Keeps, transition-Keeps, Ended, Closed,
  Settled, ends, raises, finish-Ended, settle-Settled,
}

dispatch_kind :
    (kind : JobKind) (m : Run Db JobResult)
    → is_external kind ≡ true
    → elim kind [ JobKind.unknown _ ↦ raise (seeding unknown_job_kind) | _ ↦ m ] ≡ m
dispatch_kind JobKind.prepare m h = refl
dispatch_kind JobKind.execute_test m h = refl
dispatch_kind JobKind.reconcile m h = refl
dispatch_kind JobKind.production_create m h = refl
dispatch_kind JobKind.release m h = refl
dispatch_kind JobKind.release_evaluate m h = refl
dispatch_kind JobKind.release_recovery m h = refl
dispatch_kind JobKind.sync_juguang m h = refl
dispatch_kind (JobKind.unknown k) m h = absurd (cc h)

swallow-Keeps : {A : Type 0} (m : Run Db A) → Keeps m → Keeps (swallow m)
unfolding swallow
swallow-Keeps m k db = k db

some-state :
    {A : Type 0} (r : Result A × Db) → (continue r.0 (λ (a : A). pure (some a)) r.1).1 ≡ r.1
some-state (ok a, d) = refl
some-state (err e, d) = refl

module _ (handle : Job → Run Db JobResult) (error_json error_text : Exc → String) (worker : String)
    (lease : ℕ) (clock : ℕ → ℕ) (uuid ids : ℕ → String) (job : Job) where
  stop_writing-Keeps :
      Keeps (stop_writing handle error_json error_text worker lease clock uuid ids job)
  unfolding stop_writing
  stop_writing-Keeps =
      bind-Keeps (get_project job.project_id) _ (get_project-Keeps job.project_id) (λ project.
        if-Keeps (is_write_in_progress project.execution_state) _ _
          (transition-Keeps execution_surface (λ s row. refl) (ids 1) (ids 2) job.project_id
            ExecutionState.reconcile_required "durable-worker" "EXTERNAL_OPERATION_WORKER_EXCEPTION"
            (clock 4))
          (λ db. refl))

  close_project-Keeps :
      Keeps (close_project handle error_json error_text worker lease clock uuid ids job)
  unfolding close_project
  close_project-Keeps =
      bind-Keeps (get_project job.project_id) _ (get_project-Keeps job.project_id) (λ project.
        if-Keeps (is_preparing project.project_state) _ _
          (transition-Keeps project_surface (λ s row. refl) (ids 4) (ids 5) job.project_id
            failed_closed "durable-worker" "PREPARE_JOB_FAILED" (clock 6))
          (λ db. refl))

  alert_exception-Keeps :
      Keeps (alert_exception handle error_json error_text worker lease clock uuid ids job)
  unfolding alert_exception
  alert_exception-Keeps =
      if-Keeps (is_release job.kind || is_evaluate job.kind || is_recovery job.kind) _ _
        (emit_event-Keeps (ids 3) job.project_id
          (alert (some "EXTERNAL_OPERATION_WORKER_EXCEPTION") job.job_id) (clock 5))
        (λ db. refl)

  -- what follows the report
  abbrev after_report : Exc → Run Db JobResult
  after_report e = do
    if writes_plans job.kind
        then swallow (stop_writing handle error_json error_text worker lease clock uuid ids job)
        else pure tt
    alert_exception handle error_json error_text worker lease clock uuid ids job
    swallow (close_project handle error_json error_text worker lease clock uuid ids job)
    raise e

  after_report-Keeps : (e : Exc) → Keeps (after_report e)
  after_report-Keeps e =
      bind-Keeps _ _
        (if-Keeps (writes_plans job.kind) _ _
          (swallow-Keeps (stop_writing handle error_json error_text worker lease clock uuid ids job)
            stop_writing-Keeps)
          (λ db. refl))
        (λ _.
          bind-Keeps (alert_exception handle error_json error_text worker lease clock uuid ids job)
            _ alert_exception-Keeps
            (λ _.
              bind-Keeps
                (swallow
                  (close_project handle error_json error_text worker lease clock uuid ids job))
                _
                (swallow-Keeps
                  (close_project handle error_json error_text worker lease clock uuid ids job)
                  close_project-Keeps)
                (λ _ db. refl)))

  module _ (db : Db) (x : Job) (u : UniqueIds db.jobs) (m : In x db.jobs)
      (held : held_by job.job_id worker x ≡ true) (external : is_external job.kind ≡ true) where
    on_error-Ended :
        (e : Exc) (d : Db)
        → d.jobs ≡ db.jobs
        → Ended worker job db JobStatus.reconcile_required
            (on_error handle error_json error_text worker lease clock uuid ids job e d).1
    unfolding on_error require_reconcile_job
    on_error-Ended e d same =
        let (row, d', run, (error, json, now, ended)) =
          finish-Ended worker job db x u m held JobStatus.reconcile_required
            (some "external result is indeterminate; explicit reconciliation required")
            (some (error_json e)) (clock 3) d same in
        let reported : report handle error_json error_text worker lease clock uuid ids job e d
            ≡ (ok row, d') =
          rw external run in
        let all =
          bind-do (report handle error_json error_text worker lease clock uuid ids job e)
            (λ _. after_report e) d d' row (after_report e d') reported refl in
        (error, json, now, ap (λ r. r.1.jobs) all ∙ after_report-Keeps e d' ∙ ended)

    Settled-Closed :
        (result : JobResult) (r : Result Job × Db)
        → Settled worker job db r
        → Closed worker job db (ok result) (
            handled
              (continue r.0 (λ _. pure result) r.1)
              (on_error handle error_json error_text worker lease clock uuid ids job))
    Settled-Closed result r (ends status row db' run f ended) = rw run (status, f, ended, inl refl)
    Settled-Closed result r (raises e db' run same) =
        rw run (JobStatus.reconcile_required, refl, on_error-Ended e db' same, inr refl)

  module _ (db : Db) (external : is_external job.kind ≡ true) where
    answered-Closed :
        (x : Job) (r : Result JobResult × Db)
        → UniqueIds r.1.jobs
        → In x r.1.jobs
        → held_by job.job_id worker x ≡ true
        → Closed worker job r.1 r.0 (
            handled
              (continue r.0
                (λ result. do
                  settle handle error_json error_text worker lease clock uuid ids job result
                  pure result)
                r.1)
              (on_error handle error_json error_text worker lease clock uuid ids job))
    answered-Closed x (ok result, d) u m held =
        Settled-Closed d x u m held external result
          (settle handle error_json error_text worker lease clock uuid ids job result d)
          (settle-Settled worker job d x u m held handle error_json error_text lease clock uuid ids
            result)
    answered-Closed x (err e, d) u m held = (
      JobStatus.reconcile_required,
      refl,
      on_error-Ended d x u m held external e d refl,
      inr refl,
    )

    process_claimed-Closed :
        (x : Job)
        → UniqueIds (handle job db).1.jobs
        → In x (handle job db).1.jobs
        → held_by job.job_id worker x ≡ true
        → Closed worker job
            (handle job db).1
            (handle job db).0
            (process_claimed handle error_json error_text worker lease clock uuid ids (some job) db)
    unfolding process_claimed run_job
    process_claimed-Closed x u m held =
        let (status, f, (error, json, now, ended), closed) =
          answered-Closed x (handle job db) u m held in
        (
          status,
          f,
          (
            error,
            json,
            now,
            ap (λ d. d.jobs)
                  (some-state (
                    handled
                      (run_job handle error_json error_text worker lease clock uuid ids job db)
                      (on_error handle error_json error_text worker lease clock uuid ids job)))
                ∙ rw (dispatch_kind job.kind (handle job) external) ended,
          ),
          closed,
        )

  -- When the worker claims a job of an external kind, and after its handler still holds the job's
  -- row, in a table whose job ids differ pairwise, then the round changes that row alone from what
  -- the handler left, to SUCCEEDED, FAILED or RECONCILE_REQUIRED; and to RECONCILE_REQUIRED when
  -- the handler raised. So such a job is never put to RETRY, nor left RUNNING.
  pub process_next_job-Closed :
      (db db' : Db) (x : Job)
      → claim_job worker (clock 0) uuid lease db ≡ (ok (some job), db')
      → is_external job.kind ≡ true
      → UniqueIds (handle job db').1.jobs
      → In x (handle job db').1.jobs
      → held_by job.job_id worker x ≡ true
      → Closed worker job
          (handle job db').1
          (handle job db').0
          (process_next_job handle error_json error_text worker lease clock uuid ids db)
  unfolding process_next_job
  process_next_job-Closed db db' x claimed external u m held =
      let run =
        bind-do (claim_job worker (clock 0) uuid lease)
          (process_claimed handle error_json error_text worker lease clock uuid ids) db db'
          (some job)
          (process_claimed handle error_json error_text worker lease clock uuid ids (some job) db')
          claimed refl in
      subst
        (λ (r : Result (Option JobResult) × Db).
          Closed worker job (handle job db').1 (handle job db').0 r)
        (sym run) (process_claimed-Closed db' external x u m held)
