-- ===== src/Service/Access/Owner.antt =====
-- The owner of a project keeps ADMIN access, whoever calls.
use seeding_plan_backend.Prelude.{
  ℕ, ◌≡◌, refl, sym, subst, ap, ◌∙◌, ◌⊎◌, inl, inr, Bool, true, false, not, some, List, [], ◌∷◌,
  ◌++◌, String, ◌||◌, arith, any, first_row, Option-cases, Bool-cases,
}
use seeding_plan_backend.Errors.{
  Result, Run, ok, err, seeding, value_error, unexpected, integrity_error, Result-cases, bind-ok,
  bind-err, ◌>>=◌,
}
use seeding_plan_backend.Store.{
  project_created, Db, Project, AccessLevel, transaction, transaction-ok, transaction-err,
}
use seeding_plan_backend.Store.Rows.{append_outbox, new_event, is_project, select_project}
use seeding_plan_backend.Store.Projects.Moves.{any-first_row}
use seeding_plan_backend.Store.Members
use seeding_plan_backend.Store.Members.{
  same_revision, is_member, insert_project, insert_revision, insert_member, or_exists, new_project,
  first_revision, owner_member, create_body, create_project, get_project_member, set_access,
  new_member, upsert_member, upsert_body, select_member,
}
use seeding_plan_backend.Service.Access.{
  admin_row, demotes_owner, upsert_checked, upsert_project_member,
}
use seeding_plan_backend.Service.Access.Roster.{
  OwnersAdmin, Changed, same, created, joined, updated, Changed-OwnersAdmin,
}

select_project_keeps : (i : String) (d : Db) → (select_project i d).1 ≡ d
unfolding select_project
select_project_keeps i d = elim (Option-cases (first_row (is_project i) d.projects)) [
  | inl n ↦ rw (n, select_project) refl
  | inr (r, s) ↦ rw (s, select_project) refl
]

-- A transaction and a read after it: the tables are as before, or as the committed body left them.
committed :
    {A B : Type 0} (body : Run Db A) (f : A → Run Db B) (db : Db)
    → ((a : A) (d : Db) → (f a d).1 ≡ d)
    → (((transaction body >>= f) db).1 ≡ db)
      ⊎ ((a : A) × ((body db).0 ≡ ok a) × (((transaction body >>= f) db).1 ≡ (body db).1))
committed body f db keeps = elim (Result-cases (body db).0) [
  | inr (e, h) ↦
      inl (ap (λ t. t.1) (bind-err (transaction body) f db db e (transaction-err body db e h)))
  | inl (a, h) ↦
      let done = transaction-ok body db a h in
      inr (a, h, ap (λ t. t.1) (bind-ok (transaction body) f db a done.0) ∙ keeps a _ ∙ done.1)
]

never :
    (r : Result (Unit {0}) × Db) (u : Unit {0})
    → (or_exists r).0 ≡ ok u
    → r.0 ≡ err integrity_error
    → ⊥
never (ok a, d) u h e = cc e
never (err integrity_error, d) u h e = cc h
never (err (seeding c), d) u h e = cc h
never (err value_error, d) u h e = cc h
never (err unexpected, d) u h e = cc h

module _ (sha256 : String → String) (event_id project_id config_json owner : String) (now : ℕ)
    (db : Db) where
  abbrev creation : Run Db (Unit {0})
  creation d = or_exists (create_body sha256 event_id project_id config_json owner now d)

  abbrev known : Bool
  known = any (is_project project_id) db.projects

  abbrev founder : Project
  founder = new_project sha256 event_id project_id config_json owner now

  abbrev there : Bool
  there = any (is_project project_id) (db.projects ++ founder ∷ [])

  abbrev revised : Bool
  revised =
      any (same_revision (first_revision sha256 event_id project_id config_json owner now))
        db.project_revisions
      || not there

  abbrev member_before : Bool
  member_before = any (is_member project_id owner) db.project_members || not there

  abbrev body : Run Db (Unit {0})
  body = create_body sha256 event_id project_id config_json owner now

  abbrev after : Db
  after = record db {
    projects = db.projects ++ founder ∷ [];
    project_revisions =
        db.project_revisions
        ++ first_revision sha256 event_id project_id config_json owner now ∷ [];
    project_members =
        db.project_members ++ owner_member sha256 event_id project_id config_json owner now ∷ [];
    outbox =
        db.outbox ++ new_event event_id project_id (project_created (sha256 config_json)) now ∷ [];
  }

  module _ (k : known ≡ false) where
    revision_refused : revised ≡ true → (body db).0 ≡ err integrity_error
    unfolding create_body insert_project insert_revision
    revision_refused r = rw (k, create_body, insert_project) (rw (r, insert_revision) refl)

    module _ (r : revised ≡ false) where
      member_refused : member_before ≡ true → (body db).0 ≡ err integrity_error
      unfolding create_body insert_project insert_revision insert_member
      member_refused m =
          rw (k, create_body, insert_project) (rw (r, insert_revision) (rw (m, insert_member) refl))

      body-ok : member_before ≡ false → there ≡ true → body db ≡ (ok tt, after)
      unfolding create_body insert_project insert_revision insert_member append_outbox
      body-ok m t =
          rw (k, create_body, insert_project)
            (rw (r, insert_revision) (rw (m, insert_member) (rw (t, append_outbox) refl)))

  not_refused : (u : Unit {0}) → (creation db).0 ≡ ok u → (body db).0 ≡ err integrity_error → ⊥
  not_refused u h e = never (body db) u h e

  creation-Changed : (u : Unit {0}) → (creation db).0 ≡ ok u → Changed db (creation db).1
  creation-Changed u h = elim (Bool-cases known) [
    | inl t ↦ absurd (
        not_refused u h
          (unfold create_body insert_project in rw (t, create_body, insert_project) refl))
    | inr k ↦ elim (Bool-cases revised) [
      | inl r ↦ absurd (not_refused u h (revision_refused k r))
      | inr r ↦ elim (Bool-cases member_before) [
        | inl m ↦ absurd (not_refused u h (member_refused k r m))
        | inr m ↦
            subst (Changed db) (sym (ap (λ t. (or_exists t).1) (body-ok k r m (ground arith)))) (
              created founder (owner_member sha256 event_id project_id config_json owner now) k
                (ground arith) refl refl refl refl refl)
      ]
    ]
  ]

  create_project-Changed :
      Changed db (create_project sha256 event_id project_id config_json owner now db).1
  unfolding create_project
  create_project-Changed =
      elim (committed creation (λ _. select_project project_id) db
        (λ _ d. select_project_keeps project_id d)) [
          | inl e ↦ subst (Changed db) (sym e) (same refl refl)
          | inr (u, h, e) ↦ subst (Changed db) (sym e) (creation-Changed u h)
        ]

module _ (event_id project_id principal : String) (level : AccessLevel) (actor : String) (now : ℕ)
    (db : Db) where
  abbrev upserting : Run Db (Unit {0})
  upserting = upsert_body event_id project_id principal level actor now

  upserting-Changed :
      (p : Project)
      → first_row (is_project project_id) db.projects ≡ some p
      → demotes_owner event_id project_id principal level actor now p ≡ false
      → Changed db (upserting db).1
  unfolding upsert_body upsert_member append_outbox
  upserting-Changed p s g =
      let t = any-first_row (is_project project_id) p db.projects s in
      elim (Bool-cases (any (is_member project_id principal) db.project_members)) [
        | inl k ↦
            rw (k, upsert_body, upsert_member)
              (rw (t, append_outbox)
                (updated project_id principal
                  (set_access event_id project_id principal level actor now) p (λ x. refl)
                  (λ x. refl) s (λ x o. ground arith) refl refl))
        | inr k ↦
            rw (k, upsert_body, upsert_member)
              (rw t (
                rw (t, append_outbox)
                  (joined (new_member event_id project_id principal level actor now) refl refl)))
      ]

  -- Every branch of the service's `upsert_project_member`.
  upsert-Changed :
      Changed db (upsert_project_member event_id project_id principal level actor now db).1
  unfolding upsert_project_member select_project upsert_checked Members.upsert_project_member
  upsert-Changed = elim (Option-cases (first_row (is_project project_id) db.projects)) [
    | inl n ↦ rw (n, upsert_project_member, select_project) (same refl refl)
    | inr (p, s) ↦ elim (Bool-cases (admin_row (get_project_member project_id actor db))) [
      | inr f ↦
          rw (s, upsert_project_member, select_project) (rw (f, upsert_checked) (same refl refl))
      | inl a ↦ elim (Bool-cases (demotes_owner event_id project_id principal level actor now p)) [
        | inl d ↦
            rw (s, upsert_project_member, select_project)
              (rw (a, upsert_checked) (rw d (same refl refl)))
        | inr d ↦
            rw (s, upsert_project_member, select_project)
              (rw (a, upsert_checked) (rw d (written p s d)))
      ]
    ]
  ]
    where
      read_back : (d : Db) → (select_member event_id project_id principal level actor now d).1 ≡ d
      read_back d =
          unfold select_member in
          elim (Option-cases (get_project_member project_id principal d)) [
            | inl n ↦ rw (n, select_member) refl
            | inr (r, s) ↦ rw (s, select_member) refl
          ]

      written :
          (p : Project)
          → first_row (is_project project_id) db.projects ≡ some p
          → demotes_owner event_id project_id principal level actor now p ≡ false
          → Changed db
              (Members.upsert_project_member event_id project_id principal level actor now db).1
      written p s d =
          elim (committed upserting
            (λ _. select_member event_id project_id principal level actor now) db
            (λ _ e. read_back e)) [
              | inl e ↦ subst (Changed db) (sym e) (same refl refl)
              | inr (u, h, e) ↦ subst (Changed db) (sym e) (upserting-Changed p s d)
            ]

-- A call of the service, with what `uuid4` and `utc_now` return to it.
pub data Command : Type 0 where
  create : (event_id project_id config_json principal_id : String) (now : ℕ) → Command
  upsert :
      (event_id project_id principal : String) (level : AccessLevel) (actor : String) (now : ℕ)
      → Command

module _ (sha256 : String → String) where
  unfoldable pub steps : List Command → Db → Db
  steps [] db = db
  steps (create ev i json owner now ∷ cs) db =
      steps cs (create_project sha256 ev i json owner now db).1
  steps (upsert ev i principal level actor now ∷ cs) db =
      steps cs (upsert_project_member ev i principal level actor now db).1

  -- Where every project's owner is an ADMIN member, that holds after any sequence of the service's
  -- calls to create projects and to set the access of members, by any callers.
  pub steps-OwnersAdmin : (cs : List Command) (db : Db) → OwnersAdmin db → OwnersAdmin (steps cs db)
  unfolding steps
  steps-OwnersAdmin [] db v = v
  steps-OwnersAdmin (create ev i json owner now ∷ cs) db v =
      steps-OwnersAdmin cs _
        (Changed-OwnersAdmin db _ (create_project-Changed sha256 ev i json owner now db) v)
  steps-OwnersAdmin (upsert ev i principal level actor now ∷ cs) db v =
      steps-OwnersAdmin cs _
        (Changed-OwnersAdmin db _ (upsert-Changed ev i principal level actor now db) v)
