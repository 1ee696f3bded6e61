-- ===== src/Store/Grants/Consume.antt =====
-- A grant pays for one job: `consume_grant_and_enqueue_job` on its branches, and called again.
use seeding_plan_backend.Prelude.{
  ℕ, ◌≡◌, refl, ap, ◌∙◌, Bool, true, false, none, some, List, [], ◌∷◌, ◌++◌, String, ◌&&◌, arith,
  leb, first_row, update_where, row_count, row_count_mono, row_count_pos, first_row_sound,
  first_row-append, eq_refl, if◌then◌else◌,
}
use seeding_plan_backend.Errors.{
  Result, Run, ok, err, bind-do, seeding, grant_type_mismatch, grant_not_active, grant_expired,
  ◌>>=◌,
}
use seeding_plan_backend.Store.{
  Db, Grant, GrantType, Job, JobKind, transaction-err, transaction-ok, has_project, grant_consumed,
}
use seeding_plan_backend.Store.Rows.{append_outbox, append_outbox-ok}
use seeding_plan_backend.Store.Jobs.{same_input, new_job, is_job}
use seeding_plan_backend.Store.Grants.{
  is_grant, is_issued, same_type, issued_grant, grant_of, consumed_row, insert_job, select_created,
  create_job, spend_grant, consume_body, consume_grant_and_enqueue_job,
}

pub issued_match :
    (i p : String) (g : Grant)
    → grant_of i p g ≡ true
    → is_issued g.status ≡ true
    → issued_grant i g ≡ true
issued_match i p g h t = ground arith

pub one_issued :
    (grant_id project_id : String) (grants : List Grant) (g : Grant)
    → row_count (is_grant grant_id) grants ≡ 1
    → first_row (grant_of grant_id project_id) grants ≡ some g
    → is_issued g.status ≡ true
    → row_count (issued_grant grant_id) grants ≡ 1
one_issued grant_id project_id grants g k e t = omega (
  arith,
  row_count_mono (issued_grant grant_id) (is_grant grant_id) (λ x h. ground arith) grants,
  row_count_pos (grant_of grant_id project_id) (issued_grant grant_id) grants g e (
      issued_match grant_id project_id g (first_row_sound (grant_of grant_id project_id) grants g e)
        t),
)

module _ (sha256 : String → String) (job_id event_id grant_id : String) (expected : GrantType)
    (project_id : String) (kind : JobKind) (json : String) (max_attempts now : ℕ) (db : Db)
    (g : Grant) (no_job : first_row (same_input project_id kind (sha256 json)) db.jobs ≡ none)
    (here : first_row (grant_of grant_id project_id) db.grants ≡ some g) where
  abbrev call : Result Job × Db
  call =
      consume_grant_and_enqueue_job sha256 job_id event_id grant_id expected project_id kind json
        max_attempts now db

  abbrev body : Run Db Job
  body = consume_body sha256 job_id event_id grant_id expected project_id kind json max_attempts now

  abbrev spend : Run Db Job
  spend =
      spend_grant sha256 job_id event_id grant_id expected project_id kind json max_attempts now g

  -- the two SELECTs lead to the grant
  selected : body db ≡ spend db
  unfolding consume_body
  selected = rw (no_job, consume_body) (rw here refl)

  -- For a request that has no job yet, a grant of another type is refused with
  -- GRANT_TYPE_MISMATCH, and one of the type that is not ISSUED with GRANT_NOT_ACTIVE; the database
  -- is unchanged.
  pub consume_refused :
      (is_type : Bool)
      → same_type g.grant_type expected ≡ is_type
      → (is_type && is_issued g.status) ≡ false
      → call ≡ (err (seeding (if is_type then grant_not_active else grant_type_mismatch)), db)
  unfolding consume_grant_and_enqueue_job
  consume_refused is_type s i =
      transaction-err body db _ (ap (λ r. r.0) (selected ∙ refused is_type s i))
    where
      refused :
          (is_type : Bool)
          → same_type g.grant_type expected ≡ is_type
          → (is_type && is_issued g.status) ≡ false
          → spend db
            ≡ (err (seeding (if is_type then grant_not_active else grant_type_mismatch)), db)
      refused true s i = unfold spend_grant in rw (s, spend_grant) (rw i refl)
      refused false s i = unfold spend_grant in rw (s, spend_grant) refl

  -- For a request that has no job yet, an ISSUED grant of the project and of the type asked for
  -- that is past its `expires_at` is refused
  -- with GRANT_EXPIRED, and the transaction rolls back: the database is unchanged, so the EXPIRED
  -- status that the code writes to the row is not stored.
  pub expired_grant_stays_issued :
      same_type g.grant_type expected ≡ true
      → is_issued g.status ≡ true
      → leb g.expires_at now ≡ true
      → call ≡ (err (seeding grant_expired), db)
  unfolding consume_grant_and_enqueue_job spend_grant
  expired_grant_stays_issued s i l =
      transaction-err body db _ (ap (λ r. r.0) selected ∙ rw (s, spend_grant) (rw i (rw l refl)))

  abbrev created : Job
  created = new_job job_id project_id kind (sha256 json) json max_attempts now

  create :
      (db1 : Db)
      → has_project project_id db1 ≡ true
      → first_row (is_job job_id) db1.jobs ≡ none
      → (db' : Db) × (create_job sha256 job_id event_id grant_id expected project_id kind json
            max_attempts now db1
          ≡ (ok created, db'))
        × (db'.jobs ≡ db1.jobs ++ created ∷ [])
        × (db'.grants ≡ db1.grants)
  unfolding create_job insert_job select_created
  create db1 h fresh =
      let db2 = record db1 { jobs = db1.jobs ++ created ∷ [] } in
      let (row, out) =
        append_outbox-ok event_id project_id (grant_consumed expected grant_id job_id) now db2 h in
      let db3 = record db2 { outbox = db2.outbox ++ row ∷ [] } in
      let made = first_row-append (is_job job_id) db1.jobs created fresh (eq_refl job_id) in
      let event = append_outbox event_id project_id (grant_consumed expected grant_id job_id) now in
      let select = λ (_ : Unit {0}). select_created job_id in
      (
        db3,
        bind-do (insert_job created) (λ _. event >>= select) db1 db2 tt (ok created, db3)
            (rw (h, insert_job) refl)
            (bind-do event select db2 db3 tt (ok created, db3) out
              (rw (made, select_created) refl)),
        refl,
        refl,
      )

  module _ (s : same_type g.grant_type expected ≡ true) (i : is_issued g.status ≡ true)
      (l : leb g.expires_at now ≡ false) (key : row_count (is_grant grant_id) db.grants ≡ 1)
      (project : has_project project_id db ≡ true)
      (fresh : first_row (is_job job_id) db.jobs ≡ none) where
    pub consume-ok :
        (db' : Db) × (call ≡ (ok created, db'))
        × (db'.jobs ≡ db.jobs ++ created ∷ [])
        × (db'.grants ≡ update_where (issued_grant grant_id) (consumed_row now) db.grants)
    unfolding consume_grant_and_enqueue_job spend_grant
    consume-ok =
        let db1 = record db {
          grants = update_where (issued_grant grant_id) (consumed_row now) db.grants;
        } in
        let (db', made, jobs, grants) = create db1 project fresh in
        let one = one_issued grant_id project_id db.grants g key here i in
        let spent = selected ∙ rw (s, spend_grant) (rw i (rw l (rw one made))) in
        let done = transaction-ok body db created (ap (λ r. r.0) spent) in
        (db', (λ j. (done.0 j, (done.1 ∙ ap (λ r. r.1) spent) j)), jobs, grants)
