-- ===== src/Store/Grants/Spent.antt =====
-- What a grant can still pay for after it has been consumed or revoked: nothing.
use seeding_plan_backend.Prelude.{
  ℕ, ◌≡◌, refl, sym, subst, ap, ◌∙◌, Bool, true, false, none, some, List, [], ◌∷◌, ◌++◌, String,
  ◌==◌, ◌&&◌, arith, leb, first_row, first_row_sound, update_where, row_count,
  row_count-update_where, first_row-update, eq_iff, if◌then◌else◌,
}
use seeding_plan_backend.Errors.{ok, err, bind-do, seeding, grant_not_active, grant_not_revocable}
use seeding_plan_backend.Store.{
  GrantStatus, Db, Grant, GrantType, JobKind, transaction, transaction-err, transaction-ok,
  has_project, grant_revoked,
}
use seeding_plan_backend.Store.Rows.{append_outbox-ok}
use seeding_plan_backend.Store.Jobs.{same_input, new_job, is_job}
use seeding_plan_backend.Store.Grants.{
  is_grant, is_issued, same_type, issued_grant, grant_of, consumed_row, revoked_row, get_grant,
  revoke_body, revoke_grant, consume_grant_and_enqueue_job,
}
use seeding_plan_backend.Store.Grants.Consume.{
  consume_refused, consume-ok, one_issued, issued_match,
}

-- The row of the grant after an UPDATE of the issued row with its id.
updated_grant :
    (grant_id project_id : String) (f : Grant → Grant) (grants : List Grant) (g : Grant)
    → ((x : Grant) → grant_of grant_id project_id (f x) ≡ grant_of grant_id project_id x)
    → first_row (grant_of grant_id project_id) grants ≡ some g
    → is_issued g.status ≡ true
    → first_row (grant_of grant_id project_id) (update_where (issued_grant grant_id) f grants)
      ≡ some (f g)
updated_grant grant_id project_id f grants g k here i =
    let p = grant_of grant_id project_id in
    let match = issued_match grant_id project_id g (first_row_sound p grants g here) i in
    subst
      (λ b.
        first_row p (update_where (issued_grant grant_id) f grants) ≡ some (if b then f g else g))
      match (first_row-update p (issued_grant grant_id) f k grants g here)

unissued : (i : String) (g : Grant) → is_issued g.status ≡ false → issued_grant i g ≡ false
unissued i g h = ground arith

module _ (sha256 : String → String) (grant_id : String) (type : GrantType) (project_id : String)
    (db : Db) (g : Grant) (here : first_row (grant_of grant_id project_id) db.grants ≡ some g)
    (s : same_type g.grant_type type ≡ true) (i : is_issued g.status ≡ true)
    (key : row_count (is_grant grant_id) db.grants ≡ 1)
    (project : has_project project_id db ≡ true) where
  -- Where the grant exists under its id and project once, ISSUED, of the type asked for and not
  -- expired, the project exists, the request has no job and the job id is fresh:
  -- `consume_grant_and_enqueue_job` returns the new PENDING job of the request and appends it to
  -- the table. On the database that it leaves, any request of the project without a job for that grant is
  -- refused with GRANT_NOT_ACTIVE and changes nothing.
  pub consume_once :
      (job_id event_id : String) (kind : JobKind) (json : String) (max now : ℕ)
      → (job_id' event_id' : String) (kind' : JobKind) (json' : String) (max' now' : ℕ)
      → leb g.expires_at now ≡ false
      → first_row (same_input project_id kind (sha256 json)) db.jobs ≡ none
      → first_row (is_job job_id) db.jobs ≡ none
      → first_row
          (same_input project_id kind' (sha256 json'))
          (db.jobs ++ new_job job_id project_id kind (sha256 json) json max now ∷ [])
        ≡ none
      → (db' : Db) × (consume_grant_and_enqueue_job sha256 job_id event_id grant_id type project_id
            kind json max now db
          ≡ (ok (new_job job_id project_id kind (sha256 json) json max now), db'))
        × (db'.jobs ≡ db.jobs ++ new_job job_id project_id kind (sha256 json) json max now ∷ [])
        × (consume_grant_and_enqueue_job sha256 job_id' event_id' grant_id type project_id kind'
              json' max' now' db'
            ≡ (err (seeding grant_not_active), db'))
  consume_once job_id event_id kind json max now job_id' event_id' kind' json' max' now' l none1
        fresh none2 =
      let (db', first, jobs, grants) =
        consume-ok sha256 job_id event_id grant_id type project_id kind json max now db g none1 here
          s i l key project fresh in
      let spent =
        ap (first_row (grant_of grant_id project_id)) grants
        ∙ updated_grant grant_id project_id (consumed_row now) db.grants g (λ x. refl) here i in
      let again =
        consume_refused sha256 job_id' event_id' grant_id type project_id kind' json' max' now' db'
          (consumed_row now g)
          (ap (first_row (same_input project_id kind' (sha256 json'))) jobs ∙ none2) spent true s
          refl in
      (db', first, jobs, again)

  own_project : g.project_id ≡ project_id
  own_project = (eq_iff g.project_id project_id).0 (
      second (g.grant_id == grant_id)
        (first_row_sound (grant_of grant_id project_id) db.grants g here))
    where
      second : (a : Bool) {b : Bool} → (a && b) ≡ true → b ≡ true
      second a h = ground arith

  -- Where the grant exists under its id and project once, ISSUED and of the type asked for, is the
  -- first row with its id, and the project exists: `revoke_grant` returns it REVOKED with the time
  -- and the cut reason, and the jobs are as before. On the database that it leaves, a request
  -- of the project without a job for that grant is refused with GRANT_NOT_ACTIVE and changes nothing, and revoking
  -- again is refused with GRANT_NOT_REVOCABLE and changes nothing.
  pub revoke_once :
      (event_id actor_id reason short : String) (now : ℕ)
      → (job_id event_id' : String) (kind : JobKind) (json : String) (max now' : ℕ)
      → first_row (is_grant grant_id) db.grants ≡ some g
      → first_row (same_input project_id kind (sha256 json)) db.jobs ≡ none
      → (db' : Db) × (revoke_grant event_id grant_id actor_id reason short now db
          ≡ (ok (revoked_row now short g), db'))
        × ((revoked_row now short g).status ≡ GrantStatus.revoked)
        × (db'.jobs ≡ db.jobs)
        × (consume_grant_and_enqueue_job sha256 job_id event_id' grant_id type project_id kind json
              max now' db'
            ≡ (err (seeding grant_not_active), db'))
        × (revoke_grant event_id' grant_id actor_id reason short now' db'
            ≡ (err (seeding grant_not_revocable), db'))
  unfolding revoke_grant get_grant revoke_body
  revoke_once event_id actor_id reason short now job_id event_id' kind json max now' named no_job =
      let f = revoked_row now short in
      let p = issued_grant grant_id in
      let db1 = record db { grants = update_where p f db.grants } in
      let one = one_issued grant_id project_id db.grants g key here i in
      let (row, out) =
        append_outbox-ok event_id g.project_id (grant_revoked grant_id actor_id reason) now db1
          (subst (λ q. has_project q db1 ≡ true) (sym own_project) project) in
      let db' = record db1 { outbox = db.outbox ++ row ∷ [] } in
      let body = revoke_body event_id grant_id actor_id reason short now in
      let done : body db ≡ (ok tt, db') = rw (named, revoke_body) (rw one out) in
      let commit = transaction-ok body db tt (ap (λ r. r.0) done) in
      let gone : first_row (is_grant grant_id) db'.grants ≡ some (f g) =
        subst
          (λ b.
            first_row (is_grant grant_id) (update_where p f db.grants)
            ≡ some (if b then f g else g))
          (issued_match grant_id project_id g
            (first_row_sound (grant_of grant_id project_id) db.grants g here) i)
          (first_row-update (is_grant grant_id) p f (λ x. refl) db.grants g named) in
      let none_left = row_count-update_where p f (λ x. unissued grant_id (f x) refl) db.grants in
      (
        db',
        bind-do (transaction body) (λ _. get_grant grant_id) db db' tt (ok (f g), db')
            (λ j. (commit.0 j, (commit.1 ∙ ap (λ r. r.1) done) j)) (rw (gone, get_grant) refl),
        refl,
        refl,
        consume_refused sha256 job_id event_id' grant_id type project_id kind json max now' db'
            (f g) no_job (updated_grant grant_id project_id f db.grants g (λ x. refl) here i) true s
            refl,
        rw
            (transaction-err (revoke_body event_id' grant_id actor_id reason short now') db'
              (seeding grant_not_revocable) (rw (gone, revoke_body) (rw none_left refl)))
            refl,
      )
