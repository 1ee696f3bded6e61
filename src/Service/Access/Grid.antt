-- ===== src/Service/Access/Grid.antt =====
-- `authorize_project` against an order of the access levels.
use seeding_plan_backend.Prelude.{
  ◌≡◌, refl, sym, ap, ◌∙◌, ◌↔◌, inl, inr, Bool, true, false, Option, none, some, String, arith,
  first_row, Option-cases, Bool-cases, if◌then◌else◌,
}
use seeding_plan_backend.Errors.{ok, err, seeding, project_not_found}
use seeding_plan_backend.Store.{Db, Project, Member, AccessLevel}
use seeding_plan_backend.Store.Rows.{select_project, is_project}
use seeding_plan_backend.Store.Members.{get_project_member}
use seeding_plan_backend.Service.Access.{
  Capability, can_write, can_approve, can_execute, can_admin, other, allowed_levels, forbidden,
  check_access, check_member, authorize_project,
}

abbrev same_level : AccessLevel → AccessLevel → Bool
same_level AccessLevel.read AccessLevel.read = true
same_level AccessLevel.write AccessLevel.write = true
same_level AccessLevel.approve AccessLevel.approve = true
same_level AccessLevel.execute AccessLevel.execute = true
same_level AccessLevel.admin AccessLevel.admin = true
same_level _ _ = false

-- READ is below WRITE, WRITE below APPROVE and EXECUTE, which do not compare, and ADMIN is above.
abbrev below : AccessLevel → AccessLevel → Bool
below AccessLevel.read _ = true
below AccessLevel.write AccessLevel.read = false
below AccessLevel.write _ = true
below n AccessLevel.admin = true
below n l = same_level n l

-- the least level that a call asks for
abbrev pub needed : Bool → Option Capability → AccessLevel
needed wants_write (some can_write) = AccessLevel.write
needed wants_write (some can_approve) = AccessLevel.approve
needed wants_write (some can_execute) = AccessLevel.execute
needed wants_write (some can_admin) = AccessLevel.admin
needed wants_write (some (other _)) = AccessLevel.admin
needed wants_write none = if wants_write then AccessLevel.write else AccessLevel.read

abbrev pub is_known : Option Capability → Bool
is_known (some (other _)) = false
is_known _ = true

check_access_lem :
    (w : Bool) (r : Option Capability) (p : Project) (l : AccessLevel)
    → is_known r ≡ true
    → check_access w r p l ≡ (if below (needed w r) l then ok p else forbidden)
unfolding check_access allowed_levels
check_access_lem w (some can_write) p l k = ground arith
check_access_lem w (some can_approve) p l k = ground arith
check_access_lem w (some can_execute) p l k = ground arith
check_access_lem w (some can_admin) p l k = ground arith
check_access_lem w (some (other s)) p l k = absurd (cc k)
check_access_lem w none p l k = ground arith

-- The member's level covers what the call asks for.
abbrev pub Covered : Bool → Option Capability → Option Member → Type 0
Covered w r o = (m : Member) × (o ≡ some m) × (below (needed w r) m.access_level ≡ true)

granted :
    (w : Bool) (r : Option Capability) (p q : Project) (o : Option Member)
    → is_known r ≡ true
    → check_member w r p o ≡ ok q
    → (p ≡ q) × Covered w r o
unfolding check_member
granted w r p q none k e = absurd (cc e)
granted w r p q (some m) k e =
    let d = check_access_lem w r p m.access_level k in
    elim (Bool-cases (below (needed w r) m.access_level)) [
      | inl t ↦ (cc (e, rw t at d), (m, refl, t))
      | inr f ↦ absurd (cc (e, rw f at d))
    ]

covered :
    (w : Bool) (r : Option Capability) (p : Project) (o : Option Member)
    → is_known r ≡ true
    → Covered w r o
    → check_member w r p o ≡ ok p
unfolding check_member
covered w r p none k (m, e, t) = absurd (cc e)
covered w r p (some n) k (m, e, t) =
    let same : n ≡ m = cc e in rw same (rw t at (check_access_lem w r p m.access_level k))

module _ (i u : String) (w : Bool) (r : Option Capability) (db : Db) where
  missing :
      first_row (is_project i) db.projects ≡ none
      → authorize_project i u w r db ≡ (err (seeding project_not_found), db)
  unfolding authorize_project select_project
  missing n = rw (n, authorize_project, select_project) refl

  found :
      (row : Project)
      → first_row (is_project i) db.projects ≡ some row
      → authorize_project i u w r db ≡ (check_member w r row (get_project_member i u db), db)
  unfolding authorize_project select_project
  found row s = rw (s, authorize_project, select_project) refl

-- For a capability that the code knows, `authorize_project` returns the project and changes nothing
-- exactly where the project exists and the caller's member row has a level that is at least the one
-- asked for, in the order READ, WRITE, then APPROVE or EXECUTE, then ADMIN.
pub authorize_project_iff :
    (project_id principal_id : String) (wants_write : Bool) (required : Option Capability) (db : Db)
    (p : Project)
    → is_known required ≡ true
    → (authorize_project project_id principal_id wants_write required db ≡ (ok p, db)) ↔ (
        (first_row (is_project project_id) db.projects ≡ some p)
        × Covered wants_write required (get_project_member project_id principal_id db))
authorize_project_iff i u w r db p k = elim (Option-cases (first_row (is_project i) db.projects)) [
  | inl n ↦ (λ e. absurd (cc (missing i u w r db n, e)), λ c. absurd (cc (n, c.0)))
  | inr (row, s) ↦
      let run = found i u w r db row s in
      (
        λ e.
            let (q, c) =
              granted w r row p (get_project_member i u db) k
                (sym (ap (λ t. t.0) run) ∙ ap (λ t. t.0) e) in
            (s ∙ ap some q, c),
        λ c.
            let same : row ≡ p = cc (s, c.0) in
            run
            ∙ ap (λ v. (v, db)) (covered w r row (get_project_member i u db) k c.1 ∙ ap ok same),
      )
]
