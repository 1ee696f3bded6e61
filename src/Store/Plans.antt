-- ===== src/Store/Plans.antt =====
-- app/seeding/store.py: `replace_active_plan_revisions` and `list_active_plans` (in table order and
-- not by channel, note and asset). A plan of the input is the record of the fields that are read,
-- with its canonical JSON.
pub mod Active
pub mod Found
pub mod Replace
pub mod Tests
use seeding_plan_backend.Prelude.{
  ℕ, Bool, true, false, not, Option, none, some, List, [], ◌∷◌, ◌++◌, String, ◌==◌, ◌&&◌, ◌||◌, any,
  if◌then◌else◌, where_rows, first_row, update_where,
}
use seeding_plan_backend.Errors.{Result, Run, ok, err, integrity_error, pure, ◌>>=◌, ◌>>◌}
use seeding_plan_backend.Store.{
  Db, LogicalPlan, PlanRevision, RevisionStatus, transaction, has_project,
}

pub record Plan : Type 0 where
  pub logical_plan_key : String
  pub plan_revision_id : String
  pub channel : String
  pub note_id : String
  pub objective : String
  pub asset_identity : String
  pub json : String

abbrev pub is_active : RevisionStatus → Bool
is_active RevisionStatus.active = true
is_active RevisionStatus.superseded = false

abbrev pub is_logical : String → LogicalPlan → Bool
is_logical key row = row.logical_plan_key == key

-- INSERT OR IGNORE INTO logical_plans; a missing project is still an error
unfoldable pub insert_logical : LogicalPlan → Run Db (Unit {0})
insert_logical row db =
    if any (is_logical row.logical_plan_key) db.logical_plans
    then (ok tt, db)
    else if has_project row.project_id db
    then (ok tt, record db { logical_plans = db.logical_plans ++ row ∷ [] })
    else (err integrity_error, db)

-- logical_plan_key = ? AND stage = ? AND revision_status = 'ACTIVE'
abbrev pub is_current : String → String → PlanRevision → Bool
is_current key stage row =
    row.logical_plan_key == key && row.stage == stage && is_active row.revision_status

abbrev pub is_revision : String → PlanRevision → Bool
is_revision plan_revision_id row = row.plan_revision_id == plan_revision_id

abbrev pub supersede : PlanRevision → PlanRevision
supersede row = record row { revision_status = RevisionStatus.superseded }

-- UPDATE plan_revisions SET revision_status = 'SUPERSEDED', if a row was found
unfoldable pub supersede_found : Option PlanRevision → List PlanRevision → List PlanRevision
supersede_found none rows = rows
supersede_found (some r) rows = update_where (is_revision r.plan_revision_id) supersede rows

-- The INSERT is refused where the id is taken, or where the unique index on active revisions has a
-- row of the key and stage. The logical plan is there, and so is the superseded revision.
unfoldable pub insert_revision : PlanRevision → List PlanRevision → Option (List PlanRevision)
insert_revision row rows =
    if any (is_revision row.plan_revision_id) rows
      || any (is_current row.logical_plan_key row.stage) rows
    then none
    else some (rows ++ row ∷ [])

abbrev pub id_of : Option PlanRevision → Option String
id_of none = none
id_of (some r) = some r.plan_revision_id

module _ (project_id stage config_sha matrix_sha : String) (parameter_set_version now : ℕ) where
  abbrev pub logical : Plan → LogicalPlan
  logical plan = record {
    logical_plan_key = plan.logical_plan_key;
    project_id = project_id;
    stage = stage;
    channel = plan.channel;
    note_id = plan.note_id;
    objective = plan.objective;
    asset_identity = plan.asset_identity;
    created_at = now;
  }

  abbrev pub revision : Plan → Option PlanRevision → PlanRevision
  revision plan existing = record {
    plan_revision_id = plan.plan_revision_id;
    logical_plan_key = plan.logical_plan_key;
    stage = stage;
    config_sha = config_sha;
    matrix_sha = matrix_sha;
    parameter_set_version = parameter_set_version;
    revision_status = RevisionStatus.active;
    supersedes_plan_revision_id = id_of existing;
    payload_json = plan.json;
    created_at = now;
  }

  -- the SELECT, the UPDATE and the INSERT on plan_revisions
  unfoldable pub replace_rows : Plan → List PlanRevision → Option (List PlanRevision)
  unfolding first_row supersede_found insert_revision
  replace_rows plan rows =
      let existing = first_row (is_current plan.logical_plan_key stage) rows in
      insert_revision (revision plan existing) (supersede_found existing rows)

  unfoldable pub replace_one : Plan → Run Db (Unit {0})
  unfolding replace_rows
  replace_one plan db = elim (replace_rows plan db.plan_revisions) [
    | none ↦ (err integrity_error, db)
    | some rows ↦ (ok tt, record db { plan_revisions = rows })
  ]

  unfoldable pub replace_all : List Plan → Run Db (Unit {0})
  unfolding insert_logical replace_one
  replace_all [] = pure tt
  replace_all (plan ∷ plans) = do insert_logical (logical plan); replace_one plan; replace_all plans

  unfoldable pub replace_active_plan_revisions : List Plan → Run Db (Unit {0})
  unfolding transaction
  replace_active_plan_revisions plans = transaction (replace_all plans)

-- lp.project_id = ? of the joined logical plan
abbrev pub of_project : String → List LogicalPlan → PlanRevision → Bool
of_project project_id plans row = elim (first_row (is_logical row.logical_plan_key) plans) [
  | none ↦ false
  | some plan ↦ plan.project_id == project_id
]

pub list_active_plans : String → Db → List PlanRevision
unfolding first_row where_rows
list_active_plans project_id db =
    where_rows (λ r. of_project project_id db.logical_plans r && is_active r.revision_status)
      db.plan_revisions
