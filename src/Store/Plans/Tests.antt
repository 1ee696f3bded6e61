-- ===== src/Store/Plans/Tests.antt =====
-- A project with one active plan, which a new matrix replaces by another.
use seeding_plan_backend.Prelude.{◌≡◌, refl, inl, inr, none, List, [], ◌∷◌, String, All, In}
use seeding_plan_backend.Errors.{ok}
use seeding_plan_backend.State.{draft, nothing, not_released}
use seeding_plan_backend.Store.{Db, Project, PlanRevision, RevisionStatus, empty_db}
use seeding_plan_backend.Store.Plans.{Plan, replace_active_plan_revisions}
use seeding_plan_backend.Store.Plans.Active.{Sound}
use seeding_plan_backend.Store.Plans.Replace.{Activated, replace_activates, stale_plan_stays}

abbrev project : Project
project = record {
  project_id = "p";
  owner_principal_id = "o";
  config_json = "{}";
  config_sha = "s";
  project_state = draft;
  execution_state = nothing;
  delivery_state = not_released;
  created_at = 0;
  updated_at = 0;
}

abbrev pub old : String → String → PlanRevision
old i key = record {
  plan_revision_id = i;
  logical_plan_key = key;
  stage = "S";
  config_sha = "c";
  matrix_sha = "m";
  parameter_set_version = 1;
  revision_status = RevisionStatus.active;
  supersedes_plan_revision_id = none;
  payload_json = "{}";
  created_at = 0;
}

abbrev plan : String → String → Plan
plan i key = record {
  logical_plan_key = key;
  plan_revision_id = i;
  channel = "FEED";
  note_id = "n";
  objective = "o";
  asset_identity = "a";
  json = "{}";
}

abbrev db : Db
db = record empty_db {
  projects = project ∷ [];
  plan_revisions = old "r1" "k1" ∷ old "r2" "k2" ∷ [];
}

abbrev plans : List Plan
plans = plan "r3" "k1" ∷ plan "r4" "k3" ∷ []

sound : Sound db.plan_revisions
sound = (((refl, refl), tt), (tt, tt))

replace_activates_example :
    (db' : Db) × (replace_active_plan_revisions "p" "S" "c" "m" 2 9 plans db ≡ (ok tt, db'))
    × Sound db'.plan_revisions
    × All (Activated "p" "S" "c" "m" 2 9 db'.plan_revisions) plans
replace_activates_example =
    replace_activates "p" "S" "c" "m" 2 9 plans db refl sound (refl, (refl, tt), (refl, tt, tt))
      ((refl, tt), (tt, tt))

stale_plan_stays_example :
    (db' : Db) × (replace_active_plan_revisions "p" "S" "c" "m" 2 9 plans db ≡ (ok tt, db'))
    × In (old "r2" "k2") db'.plan_revisions
stale_plan_stays_example =
    stale_plan_stays "p" "S" "c" "m" 2 9 plans db (old "r2" "k2") refl sound
      (refl, (refl, tt), (refl, tt, tt)) (inr (inl refl)) (refl, (refl, tt))
