-- ===== src/Service/Access/Tests.antt =====
-- A project whose owner and a writer are members, and the theorems on access applied to it.
use seeding_plan_backend.Prelude.{◌≡◌, refl, ◌↔◌, true, some, List, [], ◌∷◌, String, first_row}
use seeding_plan_backend.Errors.{ok}
use seeding_plan_backend.State.{draft, nothing, not_released}
use seeding_plan_backend.Store.{Db, Project, Member, AccessLevel, empty_db}
use seeding_plan_backend.Store.Rows.{is_project}
use seeding_plan_backend.Store.Members.{get_project_member}
use seeding_plan_backend.Service.Access.{can_approve, authorize_project}
use seeding_plan_backend.Service.Access.Grid.{Covered, authorize_project_iff}
use seeding_plan_backend.Service.Access.Roster.{OwnersAdmin}
use seeding_plan_backend.Service.Access.Owner.{Command, create, upsert, steps, steps-OwnersAdmin}

abbrev project : Project
project = record {
  project_id = "p";
  owner_principal_id = "o";
  config_json = "{}";
  config_sha = "s";
  project_state = draft;
  execution_state = nothing;
  delivery_state = not_released;
  created_at = 0;
  updated_at = 0;
}

abbrev member : String → AccessLevel → Member
member u level = record {
  project_id = "p";
  principal_id = u;
  access_level = level;
  added_by = "o";
  created_at = 0;
}

abbrev db : Db
db = record empty_db {
  projects = project ∷ [];
  project_members = member "o" AccessLevel.admin ∷ member "w" AccessLevel.write ∷ [];
}

authorize_project_iff_example :
    (authorize_project "p" "w" true (some can_approve) db ≡ (ok project, db)) ↔ (
      (first_row (is_project "p") db.projects ≡ some project)
      × Covered true (some can_approve) (get_project_member "p" "w" db))
authorize_project_iff_example =
    authorize_project_iff "p" "w" true (some can_approve) db project refl

owned : OwnersAdmin db
unfolding first_row
owned = ((refl, member "o" AccessLevel.admin, refl, refl), tt)

abbrev script : List Command
script =
    upsert "e" "p" "o" AccessLevel.read "o" 1
    ∷ create "f" "q" "{}" "w" 2
    ∷ upsert "g" "q" "o" AccessLevel.admin "w" 3
    ∷ []

steps-OwnersAdmin_example : OwnersAdmin (steps (λ s. s) script db)
steps-OwnersAdmin_example = steps-OwnersAdmin (λ s. s) script db owned
