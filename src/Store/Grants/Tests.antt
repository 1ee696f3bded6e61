-- ===== src/Store/Grants/Tests.antt =====
-- A database with one grant, and the theorems on grants applied to it.
use seeding_plan_backend.Prelude.{◌≡◌, refl, none, some, [], ◌∷◌, String, first_row, row_count}
use seeding_plan_backend.Errors.{
  ok, err, seeding, grant_not_active, grant_expired, grant_not_revocable,
}
use seeding_plan_backend.State.{advisory_ready, nothing, not_released}
use seeding_plan_backend.Store.{empty_db, Db, Grant, GrantType, GrantStatus, Job, JobKind, Project}
use seeding_plan_backend.Store.Jobs.{new_job}
use seeding_plan_backend.Store.Grants.{
  is_grant, grant_of, revoked_row, revoke_grant, consume_grant_and_enqueue_job,
}
use seeding_plan_backend.Store.Grants.Consume.{expired_grant_stays_issued}
use seeding_plan_backend.Store.Grants.Spent.{consume_once, revoke_once}

abbrev sha : String → String
sha s = s

abbrev pub project : Project
project = record {
  project_id = "p";
  owner_principal_id = "o";
  config_json = "{}";
  config_sha = "s";
  project_state = advisory_ready;
  execution_state = nothing;
  delivery_state = not_released;
  created_at = 0;
  updated_at = 0;
}

abbrev pub grant : Grant
grant = record {
  grant_id = "g";
  project_id = "p";
  grant_type = GrantType.execution;
  status = GrantStatus.issued;
  payload_json = "{}";
  payload_sha = "{}";
  issued_at = 0;
  expires_at = 100;
  consumed_at = none;
  revoked_at = none;
  revoked_reason = none;
  nonce = none;
}

abbrev db : Db
db = record empty_db { projects = project ∷ []; grants = grant ∷ [] }

abbrev paid : Job
paid = new_job "j" "p" JobKind.execute_test "{1}" "{1}" 3 50

here : first_row (grant_of "g" "p") db.grants ≡ some grant
unfolding first_row
here = refl

named : first_row (is_grant "g") db.grants ≡ some grant
unfolding first_row
named = refl

once : row_count (is_grant "g") db.grants ≡ 1
unfolding row_count
once = refl

consume_once_example :
    (db' : Db) × (consume_grant_and_enqueue_job sha "j" "e" "g" GrantType.execution "p"
        JobKind.execute_test "{1}" 3 50 db
      ≡ (ok paid, db'))
    × (db'.jobs ≡ paid ∷ [])
    × (consume_grant_and_enqueue_job sha "k" "f" "g" GrantType.execution "p" JobKind.execute_test
          "{2}" 3 60 db'
        ≡ (err (seeding grant_not_active), db'))
unfolding first_row
consume_once_example =
    consume_once sha "g" GrantType.execution "p" db grant here refl refl once refl "j" "e"
      JobKind.execute_test "{1}" 3 50 "k" "f" JobKind.execute_test "{2}" 3 60 refl refl refl refl

revoke_once_example :
    (db' : Db) × (revoke_grant "e" "g" "boss" "wrong scope" "wrong scope" 50 db
      ≡ (ok (revoked_row 50 "wrong scope" grant), db'))
    × ((revoked_row 50 "wrong scope" grant).status ≡ GrantStatus.revoked)
    × (db'.jobs ≡ [])
    × (consume_grant_and_enqueue_job sha "k" "f" "g" GrantType.execution "p" JobKind.execute_test
          "{2}" 3 60 db'
        ≡ (err (seeding grant_not_active), db'))
    × (revoke_grant "f" "g" "boss" "wrong scope" "wrong scope" 60 db'
        ≡ (err (seeding grant_not_revocable), db'))
unfolding first_row
revoke_once_example =
    revoke_once sha "g" GrantType.execution "p" db grant here refl refl once refl "e" "boss"
      "wrong scope" "wrong scope" 50 "k" "f" JobKind.execute_test "{2}" 3 60 named refl

expired_grant_stays_issued_example :
    consume_grant_and_enqueue_job sha "j" "e" "g" GrantType.execution "p" JobKind.execute_test "{1}"
      3 200 db
    ≡ (err (seeding grant_expired), db)
unfolding first_row
expired_grant_stays_issued_example =
    expired_grant_stays_issued sha "j" "e" "g" GrantType.execution "p" JobKind.execute_test "{1}" 3
      200 db grant refl here refl refl refl
