-- ===== src/Service/Access/Roster.antt =====
-- The tables of projects and members under the changes that the access operations make.
use seeding_plan_backend.Prelude.{
  ◌≡◌, refl, sym, subst, ◌∙◌, inl, inr, Bool, true, false, none, some, List, [], ◌∷◌, ◌++◌, String,
  ◌==◌, ◌&&◌, arith, any, All, All-map, All-append, first_row, first_row-update, first_row-append,
  first_row_sound, update_where, Bool-cases, eq_refl, eq_iff,
}
use seeding_plan_backend.Store.{Db, Project, Member}
use seeding_plan_backend.Store.Rows.{is_project}
use seeding_plan_backend.Store.Members.{is_member}
use seeding_plan_backend.Service.Access.{is_admin}

-- The project is the row of its id, and its owner is an ADMIN member.
abbrev pub Owned : List Project → List Member → Project → Type 0
Owned projects members p =
    (first_row (is_project p.project_id) projects ≡ some p)
    × (m : Member) × (first_row (is_member p.project_id p.owner_principal_id) members ≡ some m)
    × (is_admin m.access_level ≡ true)

abbrev pub OwnersAdmin : Db → Type 0
OwnersAdmin db = All (Owned db.projects db.project_members) db.projects

first_row-longer :
    {A : Type 0} (p : A → Bool) (x : A) (xs ys : List A)
    → first_row p xs ≡ some x
    → first_row p (xs ++ ys) ≡ some x
unfolding first_row
first_row-longer p x [] ys e = absurd (cc e)
first_row-longer p x (z ∷ zs) ys e = elim (Bool-cases (p z)) [
  | inl t ↦ rw t (rw t at e)
  | inr f ↦ rw f (first_row-longer p x zs ys (rw f at e))
]

no_first_row : {A : Type 0} (p : A → Bool) (xs : List A) → any p xs ≡ false → first_row p xs ≡ none
unfolding first_row
no_first_row p [] e = refl
no_first_row p (x ∷ xs) e = elim (Bool-cases (p x)) [
  | inl t ↦ absurd (cc (rw t at e))
  | inr f ↦ rw f (no_first_row p xs (rw f at e))
]

more_members :
    (ps : List Project) (ms : List Member) (m : Member) (x : Project)
    → Owned ps ms x
    → Owned ps (ms ++ m ∷ []) x
more_members ps ms m x (o, n, e, l) =
    (o, n, first_row-longer (is_member x.project_id x.owner_principal_id) n ms (m ∷ []) e, l)

longer :
    (ps qs : List Project) (ms : List Member) (m : Member) (x : Project)
    → Owned ps ms x
    → Owned (ps ++ qs) (ms ++ m ∷ []) x
longer ps qs ms m x (o, n, e, l) = (
  first_row-longer (is_project x.project_id) x ps qs o,
  n,
  first_row-longer (is_member x.project_id x.owner_principal_id) n ms (m ∷ []) e,
  l,
)

founded :
    (ps : List Project) (ms : List Member) (p : Project) (m : Member)
    → any (is_project p.project_id) ps ≡ false
    → any (is_member m.project_id m.principal_id) ms ≡ false
    → m.project_id ≡ p.project_id
    → m.principal_id ≡ p.owner_principal_id
    → is_admin m.access_level ≡ true
    → Owned (ps ++ p ∷ []) (ms ++ m ∷ []) p
founded ps ms p m np nm a b l =
    let nm' : any (is_member p.project_id p.owner_principal_id) ms ≡ false =
      subst (λ i. any (is_member i p.owner_principal_id) ms ≡ false) a
        (subst (λ u. any (is_member m.project_id u) ms ≡ false) b nm) in
    let own : is_member p.project_id p.owner_principal_id m ≡ true =
      rw a (rw b (rw (eq_refl p.project_id) (eq_refl p.owner_principal_id))) in
    (
      first_row-append (is_project p.project_id) ps p (no_first_row (is_project p.project_id) ps np)
          (eq_refl p.project_id),
      m,
      first_row-append (is_member p.project_id p.owner_principal_id) ms m
          (no_first_row (is_member p.project_id p.owner_principal_id) ms nm') own,
      l,
    )

both : (a b : Bool) → (a && b) ≡ true → (a ≡ true) × (b ≡ true)
both a b h = ground arith

-- The row that an UPDATE under `is_member i u` matches is that of the principal `u`.
still-Owned :
    (ps : List Project) (ms : List Member) (i u : String) (f : Member → Member) (p : Project)
    → ((x : Member) → (f x).project_id ≡ x.project_id)
    → ((x : Member) → (f x).principal_id ≡ x.principal_id)
    → first_row (is_project i) ps ≡ some p
    → ((x : Member) → (u == p.owner_principal_id) ≡ true → is_admin (f x).access_level ≡ true)
    → (x : Project) → Owned ps ms x
    → Owned ps (update_where (is_member i u) f ms) x
still-Owned ps ms i u f p k1 k2 s l x (o, n, e, a) =
    let q = is_member x.project_id x.owner_principal_id in
    let row = first_row-update q (is_member i u) f (λ y. rw (k1 y) (rw (k2 y) refl)) ms n e in
    elim (Bool-cases (is_member i u n)) [
      | inr t ↦ (o, n, rw t at row, a)
      | inl t ↦
          let (n1, n2) = both (n.project_id == i) (n.principal_id == u) t in
          let (n3, n4) =
            both (n.project_id == x.project_id) (n.principal_id == x.owner_principal_id)
              (first_row_sound q ms n e) in
          let project : i ≡ x.project_id =
            sym ((eq_iff n.project_id i).0 n1) ∙ (eq_iff n.project_id x.project_id).0 n3 in
          let principal : u ≡ x.owner_principal_id =
            sym ((eq_iff n.principal_id u).0 n2)
            ∙ (eq_iff n.principal_id x.owner_principal_id).0 n4 in
          let here : p ≡ x = cc (subst (λ v. first_row (is_project v) ps ≡ some p) project s, o) in
          let owner : (u == p.owner_principal_id) ≡ true =
            rw here (rw principal (eq_refl x.owner_principal_id)) in
          (o, f n, rw t at row, l n owner)
    ]

-- What the two tables are after a call: as before, or with the new project and its owner, or with
-- the member row that the checks let through.
module _ (db : Db) where
  pub data Changed (db' : Db) : Type 0 where
    same : db'.projects ≡ db.projects → db'.project_members ≡ db.project_members → Changed db'
    created :
        (p : Project) (m : Member)
        → any (is_project p.project_id) db.projects ≡ false
        → any (is_member m.project_id m.principal_id) db.project_members ≡ false
        → m.project_id ≡ p.project_id
        → m.principal_id ≡ p.owner_principal_id
        → is_admin m.access_level ≡ true
        → db'.projects ≡ db.projects ++ p ∷ []
        → db'.project_members ≡ db.project_members ++ m ∷ []
        → Changed db'
    joined :
        (m : Member)
        → db'.projects ≡ db.projects
        → db'.project_members ≡ db.project_members ++ m ∷ []
        → Changed db'
    updated :
        (i u : String) (f : Member → Member) (p : Project)
        → ((x : Member) → (f x).project_id ≡ x.project_id)
        → ((x : Member) → (f x).principal_id ≡ x.principal_id)
        → first_row (is_project i) db.projects ≡ some p
        → ((x : Member) → (u == p.owner_principal_id) ≡ true → is_admin (f x).access_level ≡ true)
        → db'.projects ≡ db.projects
        → db'.project_members ≡ update_where (is_member i u) f db.project_members
        → Changed db'

  -- the invariant of tables that are these
  moved :
      (db' : Db) (ps : List Project) (ms : List Member)
      → db'.projects ≡ ps
      → db'.project_members ≡ ms
      → All (Owned ps ms) ps
      → OwnersAdmin db'
  moved db' ps ms e k v =
      subst (λ q. All (Owned q db'.project_members) q) (sym e)
        (subst (λ n. All (Owned ps n) ps) (sym k) v)

  pub Changed-OwnersAdmin : (db' : Db) → Changed db' → OwnersAdmin db → OwnersAdmin db'
  Changed-OwnersAdmin db' (same e k) v = moved db' db.projects db.project_members e k v
  Changed-OwnersAdmin db' (created p m np nm a b l e k) v =
      moved db' (db.projects ++ p ∷ []) (db.project_members ++ m ∷ []) e k (
        All-append (Owned (db.projects ++ p ∷ []) (db.project_members ++ m ∷ [])) db.projects
          (p ∷ [])
          (All-map (Owned db.projects db.project_members) _
            (λ x o. longer db.projects (p ∷ []) db.project_members m x o) db.projects v)
          (founded db.projects db.project_members p m np nm a b l, tt))
  Changed-OwnersAdmin db' (joined m e k) v =
      moved db' db.projects (db.project_members ++ m ∷ []) e k (
        All-map (Owned db.projects db.project_members) _
          (λ x o. more_members db.projects db.project_members m x o) db.projects v)
  Changed-OwnersAdmin db' (updated i u f p k1 k2 s l e k) v =
      moved db' db.projects (update_where (is_member i u) f db.project_members) e k (
        All-map (Owned db.projects db.project_members) _
          (λ x o. still-Owned db.projects db.project_members i u f p k1 k2 s l x o) db.projects v)
