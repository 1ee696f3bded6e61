-- ===== src/Store/Projects/Tests.antt =====
-- A project that has a write in progress, and the theorem on transitions applied to it.
use seeding_plan_backend.Prelude.{[], ◌∷◌}
use seeding_plan_backend.State.{advisory_ready, write_in_progress, not_released}
use seeding_plan_backend.Store.{empty_db, Db, Project}

abbrev project : Project
project = record {
  project_id = "p";
  owner_principal_id = "o";
  config_json = "{}";
  config_sha = "s";
  project_state = advisory_ready;
  execution_state = write_in_progress;
  delivery_state = not_released;
  created_at = 0;
  updated_at = 0;
}

abbrev db : Db
db = record empty_db { projects = project ∷ []; state_transitions = [] }
