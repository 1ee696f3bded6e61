-- ===== src/Service/Access.antt =====
-- app/seeding/service.py: who may do what with a project, `create_project`, `authorize_project` and
-- `upsert_project_member`.
pub mod Grid
pub mod Roster
pub mod Owner
pub mod Tests
use seeding_plan_backend.Prelude.{
  ℕ, Bool, true, false, not, Option, none, some, String, ◌==◌, ◌&&◌, if◌then◌else◌,
}
use seeding_plan_backend.Errors.{
  Result, Run, ok, err, value_error, seeding, rbac_forbidden, project_owner_access_immutable, ◌>>=◌,
  ◌>>◌,
}
use seeding_plan_backend.Store.{Db, Project, Member, AccessLevel}
use seeding_plan_backend.Store.Rows.{select_project}
use seeding_plan_backend.Store.Members
use seeding_plan_backend.Store.Members.{get_project_member}

-- required_access: a key of `allowed_by_capability`, or another text
pub data Capability : Type 0 where
  can_write can_approve can_execute can_admin : Capability
  other : String → Capability

-- allowed_by_capability, `none` where the key is missing
unfoldable pub allowed_levels : Capability → Option (AccessLevel → Bool)
allowed_levels can_write = some (λ level. elim level [ AccessLevel.read ↦ false | _ ↦ true ])
allowed_levels can_approve =
    some (λ level. elim level [ AccessLevel.approve ↦ true | AccessLevel.admin ↦ true | _ ↦ false ])
allowed_levels can_execute =
    some (λ level. elim level [ AccessLevel.execute ↦ true | AccessLevel.admin ↦ true | _ ↦ false ])
allowed_levels can_admin = some (λ level. elim level [ AccessLevel.admin ↦ true | _ ↦ false ])
allowed_levels (other _) = none

abbrev pub may_write : AccessLevel → Bool
may_write AccessLevel.read = false
may_write _ = true

abbrev pub forbidden : Result Project
forbidden = err (seeding rbac_forbidden)

-- the checks once project and member are read
unfoldable pub check_access : Bool → Option Capability → Project → AccessLevel → Result Project
unfolding allowed_levels
check_access wants_write (some c) project level = elim (allowed_levels c) [
  | none ↦ err value_error
  | some allowed ↦ if allowed level then ok project else forbidden
]
check_access wants_write none project level =
    if wants_write && not (may_write level) then forbidden else ok project

unfoldable pub check_member : Bool → Option Capability → Project → Option Member → Result Project
unfolding check_access
check_member wants_write required project none = forbidden
check_member wants_write required project (some member) =
    check_access wants_write required project member.access_level

unfoldable pub authorize_project : String → String → Bool → Option Capability → Run Db Project
unfolding check_member get_project_member select_project
authorize_project project_id principal_id wants_write required = do
  project ← select_project project_id
  (λ db. (
    check_member wants_write required project (get_project_member project_id principal_id db),
    db,
  ))

abbrev pub is_admin : AccessLevel → Bool
is_admin AccessLevel.admin = true
is_admin _ = false

abbrev pub admin_row : Option Member → Bool
admin_row none = false
admin_row (some member) = is_admin member.access_level

module _ (event_id project_id : String) (principal : String) (level : AccessLevel) (actor : String)
    (now : ℕ) where
  -- request.principal_id == project["owner_principal_id"] and request.access_level != "ADMIN"
  abbrev pub demotes_owner : Project → Bool
  demotes_owner project = principal == project.owner_principal_id && not (is_admin level)

  unfoldable pub upsert_checked : Project → Run Db Member
  upsert_checked project db =
      if not (admin_row (get_project_member project_id actor db))
      then (err (seeding rbac_forbidden), db)
      else if demotes_owner project
      then (err (seeding project_owner_access_immutable), db)
      else Members.upsert_project_member event_id project_id principal level actor now db

  unfoldable pub upsert_project_member : Run Db Member
  unfolding upsert_checked select_project
  upsert_project_member = do project ← select_project project_id; upsert_checked project
