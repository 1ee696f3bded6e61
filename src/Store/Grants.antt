-- ===== src/Store/Grants.antt =====
-- app/seeding/store.py: signed grants (`issue_grant`, `get_grant`, `list_grants`, `revoke_grant`)
-- and `consume_grant_and_enqueue_job`, which spends one and creates the job that it pays for in
-- one transaction. `list_grants` gives the rows in table order, not by `issued_at`.
pub mod Consume
pub mod Spent
pub mod Tests
use seeding_plan_backend.Prelude.{
  ℕ, Bool, true, false, not, Option, none, some, List, [], ◌∷◌, ◌++◌, String, ◌==◌, ◌&&◌, ◌||◌, leb,
  eqb, any, if◌then◌else◌, where_rows, first_row, update_where, row_count,
}
use seeding_plan_backend.Errors.{
  Result, Run, ok, err, Exc, integrity_error, unexpected, seeding, grant_not_found,
  grant_already_exists, grant_not_revocable, grant_type_mismatch, grant_not_active, grant_expired,
  grant_consume_conflict, pure, raise, ◌>>=◌, ◌>>◌,
}
use seeding_plan_backend.Store.{
  Db, Grant, GrantType, GrantStatus, Job, JobKind, Event, transaction, has_project, grant_issued,
  grant_revoked, grant_consumed,
}
use seeding_plan_backend.Store.Rows.{append_outbox}
use seeding_plan_backend.Store.Jobs.{same_input, new_job, is_job}

abbrev pub is_grant : String → Grant → Bool
is_grant grant_id row = row.grant_id == grant_id

abbrev pub is_issued : GrantStatus → Bool
is_issued GrantStatus.issued = true
is_issued _ = false

abbrev pub same_type : GrantType → GrantType → Bool
same_type GrantType.execution GrantType.execution = true
same_type GrantType.production_create GrantType.production_create = true
same_type GrantType.release GrantType.release = true
same_type _ _ = false

unfoldable pub get_grant : String → Run Db Grant
get_grant grant_id db = elim (first_row (is_grant grant_id) db.grants) [
  | some row ↦ (ok row, db)
  | none ↦ (err (seeding grant_not_found), db)
]

pub list_grants : String → Db → List Grant
list_grants project_id db = where_rows (λ (g : Grant). g.project_id == project_id) db.grants

-- the unique index on (project_id, grant_type, nonce), where NULL differs from every value
abbrev same_nonce : String → GrantType → Option String → Grant → Bool
same_nonce project_id grant_type none row = false
same_nonce project_id grant_type (some n) row =
    row.project_id == project_id
    && same_type row.grant_type grant_type
    && elim row.nonce [ none ↦ false | some m ↦ m == n ]

-- INSERT INTO grants
insert_grant : Grant → Run Db (Unit {0})
insert_grant row db =
    if any (is_grant row.grant_id) db.grants
      || any (same_nonce row.project_id row.grant_type row.nonce) db.grants
      || not (has_project row.project_id db)
    then (err integrity_error, db)
    else (ok tt, record db { grants = db.grants ++ row ∷ [] })

-- except sqlite3.IntegrityError
abbrev already_exists : Result (Unit {0}) × Db → Result (Unit {0}) × Db
already_exists (err integrity_error, db) = (err (seeding grant_already_exists), db)
already_exists (r, db) = (r, db)

module _ (sha256 : String → String) where
  pub issue_grant :
      String → String → String → GrantType → String → Option String → ℕ → ℕ → Run Db Grant
  unfolding insert_grant append_outbox transaction get_grant
  issue_grant event_id grant_id project_id grant_type payload_json nonce expires_at now = do
    transaction (λ db. already_exists (
        (do
          insert_grant (record {
            grant_id = grant_id;
            project_id = project_id;
            grant_type = grant_type;
            status = GrantStatus.issued;
            payload_json = payload_json;
            payload_sha = sha256 payload_json;
            issued_at = now;
            expires_at = expires_at;
            consumed_at = none;
            revoked_at = none;
            revoked_reason = none;
            nonce = nonce;
          })
          append_outbox event_id project_id (grant_issued grant_type grant_id (sha256 payload_json))
              now)
          db))
    get_grant grant_id

-- WHERE grant_id = ? AND status = 'ISSUED'
abbrev pub issued_grant : String → Grant → Bool
issued_grant grant_id row = row.grant_id == grant_id && is_issued row.status

abbrev pub revoked_row : ℕ → String → Grant → Grant
revoked_row now reason row = record row {
  status = GrantStatus.revoked;
  revoked_at = some now;
  revoked_reason = some reason;
}

-- The UPDATE, its row count, and the event. `short` is `reason[:1000]`.
pub revoke_body : String → String → String → String → String → ℕ → Run Db (Unit {0})
unfolding append_outbox
revoke_body event_id grant_id actor_id reason short now db =
    elim (first_row (is_grant grant_id) db.grants) [
      | none ↦ (err (seeding grant_not_found), db)
      | some row ↦
          let db' = record db {
            grants = update_where (issued_grant grant_id) (revoked_row now short) db.grants;
          } in
          if eqb (row_count (issued_grant grant_id) db.grants) 1
          then append_outbox event_id row.project_id (grant_revoked grant_id actor_id reason) now
              db'
          else (err (seeding grant_not_revocable), db')
    ]

pub revoke_grant : String → String → String → String → String → ℕ → Run Db Grant
unfolding revoke_body transaction get_grant
revoke_grant event_id grant_id actor_id reason short now = do
  transaction (revoke_body event_id grant_id actor_id reason short now)
  get_grant grant_id

-- WHERE grant_id = ? AND project_id = ?
abbrev pub grant_of : String → String → Grant → Bool
grant_of grant_id project_id row = row.grant_id == grant_id && row.project_id == project_id

abbrev pub expired_row : Grant → Grant
expired_row row = record row { status = GrantStatus.expired }

abbrev pub consumed_row : ℕ → Grant → Grant
consumed_row now row = record row { status = GrantStatus.consumed; consumed_at = some now }

-- INSERT INTO jobs, where no row has the unique key
pub insert_job : Job → Run Db (Unit {0})
insert_job row db =
    if has_project row.project_id db
    then (ok tt, record db { jobs = db.jobs ++ row ∷ [] })
    else (err integrity_error, db)

pub select_created : String → Run Db Job
select_created job_id db = elim (first_row (is_job job_id) db.jobs) [
  | some row ↦ (ok row, db)
  | none ↦ (err unexpected, db)
]

module _ (sha256 : String → String) (job_id event_id grant_id : String) (expected : GrantType)
    (project_id : String) (kind : JobKind) (json : String) (max_attempts now : ℕ) where
  -- the INSERT of the job, the event, and the row read back
  pub create_job : Run Db Job
  create_job = do
    insert_job (new_job job_id project_id kind (sha256 json) json max_attempts now)
    append_outbox event_id project_id (grant_consumed expected grant_id job_id) now
    select_created job_id

  -- the checks of the grant that was found, in the order of the code
  pub spend_grant : Grant → Run Db Job
  spend_grant grant db =
      if not (same_type grant.grant_type expected)
      then (err (seeding grant_type_mismatch), db)
      else if not (is_issued grant.status)
      then (err (seeding grant_not_active), db)
      else if leb grant.expires_at now
      then (
        err (seeding grant_expired),
        record db { grants = update_where (is_grant grant_id) expired_row db.grants },
      )
      else if eqb (row_count (issued_grant grant_id) db.grants) 1
      then create_job
          (record db { grants = update_where (issued_grant grant_id) (consumed_row now) db.grants })
      else (
        err (seeding grant_consume_conflict),
        record db { grants = update_where (issued_grant grant_id) (consumed_row now) db.grants },
      )

  pub consume_body : Run Db Job
  consume_body db = elim (first_row (same_input project_id kind (sha256 json)) db.jobs) [
    | some row ↦ (ok row, db)
    | none ↦ elim (first_row (grant_of grant_id project_id) db.grants) [
      | none ↦ (err (seeding grant_not_found), db)
      | some grant ↦ spend_grant grant db
    ]
  ]

  pub consume_grant_and_enqueue_job : Run Db Job
  consume_grant_and_enqueue_job = transaction consume_body
