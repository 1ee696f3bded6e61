-- ===== src/Store/Members.antt =====
-- app/seeding/store.py: `create_project`, which also writes the first revision and makes the owner
-- an ADMIN, and the members (`upsert_project_member`, `get_project_member`,
-- `list_project_members`, the last in table order and not by principal).
use seeding_plan_backend.Prelude.{
  ℕ, Bool, not, Option, none, some, List, [], ◌∷◌, ◌++◌, String, ◌==◌, ◌&&◌, ◌||◌, any, eqb,
  if◌then◌else◌, where_rows, first_row, update_where,
}
use seeding_plan_backend.Errors.{
  Result, Run, ok, err, integrity_error, unexpected, seeding, project_already_exists, ◌>>◌,
}
use seeding_plan_backend.State.{draft, nothing, not_released}
use seeding_plan_backend.Store.{
  Db, Project, Member, AccessLevel, ProjectRevision, project_created, project_member_upserted,
  transaction, has_project,
}
use seeding_plan_backend.Store.Rows.{append_outbox, is_project, select_project}

-- the primary key of projects
unfoldable pub insert_project : Project → Run Db (Unit {0})
insert_project row db =
    if any (is_project row.project_id) db.projects
    then (err integrity_error, db)
    else (ok tt, record db { projects = db.projects ++ row ∷ [] })

-- PRIMARY KEY (project_id, revision), UNIQUE (project_id, config_sha)
abbrev pub same_revision : ProjectRevision → ProjectRevision → Bool
same_revision a b =
    a.project_id == b.project_id && (eqb a.revision b.revision || a.config_sha == b.config_sha)

unfoldable pub insert_revision : ProjectRevision → Run Db (Unit {0})
insert_revision row db =
    if any (same_revision row) db.project_revisions || not (has_project row.project_id db)
    then (err integrity_error, db)
    else (ok tt, record db { project_revisions = db.project_revisions ++ row ∷ [] })

abbrev pub is_member : String → String → Member → Bool
is_member project_id principal_id row =
    row.project_id == project_id && row.principal_id == principal_id

unfoldable pub insert_member : Member → Run Db (Unit {0})
insert_member row db =
    if any (is_member row.project_id row.principal_id) db.project_members
      || not (has_project row.project_id db)
    then (err integrity_error, db)
    else (ok tt, record db { project_members = db.project_members ++ row ∷ [] })

-- except sqlite3.IntegrityError
abbrev pub or_exists : Result (Unit {0}) × Db → Result (Unit {0}) × Db
or_exists (err integrity_error, db) = (err (seeding project_already_exists), db)
or_exists (r, db) = (r, db)

module _ (sha256 : String → String) (event_id project_id config_json owner : String) (now : ℕ) where
  abbrev pub new_project : Project
  new_project = record {
    project_id = project_id;
    owner_principal_id = owner;
    config_json = config_json;
    config_sha = sha256 config_json;
    project_state = draft;
    execution_state = nothing;
    delivery_state = not_released;
    created_at = now;
    updated_at = now;
  }

  abbrev pub first_revision : ProjectRevision
  first_revision = record {
    project_id = project_id;
    revision = 1;
    config_json = config_json;
    config_sha = sha256 config_json;
    created_by = owner;
    created_at = now;
  }

  abbrev pub owner_member : Member
  owner_member = record {
    project_id = project_id;
    principal_id = owner;
    access_level = AccessLevel.admin;
    added_by = owner;
    created_at = now;
  }

  unfoldable pub create_body : Run Db (Unit {0})
  create_body = do
    insert_project new_project
    insert_revision first_revision
    insert_member owner_member
    append_outbox event_id project_id (project_created (sha256 config_json)) now

  unfoldable pub create_project : Run Db Project
  create_project = do transaction (λ db. or_exists (create_body db)); select_project project_id

unfoldable pub get_project_member : String → String → Db → Option Member
get_project_member project_id principal_id db =
    first_row (is_member project_id principal_id) db.project_members

pub list_project_members : String → Db → List Member
list_project_members project_id db =
    where_rows (λ (m : Member). m.project_id == project_id) db.project_members

module _ (event_id project_id principal_id : String) (access_level : AccessLevel)
    (added_by : String) (now : ℕ) where
  abbrev pub set_access : Member → Member
  set_access row = record row { access_level = access_level; added_by = added_by; created_at = now }

  abbrev pub new_member : Member
  new_member = record {
    project_id = project_id;
    principal_id = principal_id;
    access_level = access_level;
    added_by = added_by;
    created_at = now;
  }

  -- INSERT … ON CONFLICT(project_id, principal_id) DO UPDATE
  unfoldable pub upsert_member : Run Db (Unit {0})
  upsert_member db =
      if any (is_member project_id principal_id) db.project_members
      then (
        ok tt,
        record db {
          project_members =
              update_where (is_member project_id principal_id) set_access db.project_members;
        },
      )
      else if has_project project_id db
      then (ok tt, record db { project_members = db.project_members ++ new_member ∷ [] })
      else (err integrity_error, db)

  unfoldable pub upsert_body : Run Db (Unit {0})
  upsert_body = do
    upsert_member
    append_outbox event_id project_id (project_member_upserted principal_id access_level added_by)
        now

  -- the row read back, which an assert expects
  unfoldable pub select_member : Run Db Member
  select_member db = elim (get_project_member project_id principal_id db) [
    | some row ↦ (ok row, db)
    | none ↦ (err unexpected, db)
  ]

  unfoldable pub upsert_project_member : Run Db Member
  upsert_project_member = do transaction upsert_body; select_member
