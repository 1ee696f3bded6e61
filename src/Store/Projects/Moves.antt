-- ===== src/Store/Projects/Moves.antt =====
-- What a transition of a project does to the database, on each surface.
use seeding_plan_backend.Prelude.{
  ℕ, ◌≡◌, refl, ap, ◌∙◌, inl, inr, Bool, true, none, some, List, [], ◌∷◌, ◌++◌, String, ◌==◌, any,
  first_row, first_row_sound, first_row-update, update_where, Option-cases, Bool-cases,
}
use seeding_plan_backend.Errors.{
  Result, Run, ok, err, Exc, seeding, project_not_found, Result-cases, bind-do, bind-err,
}
use seeding_plan_backend.Store.{
  Db, Project, Transition, transaction, transaction-ok, transaction-err,
}
use seeding_plan_backend.Store.Rows.{
  append_outbox, append_transition, set_project, select_project, is_project, new_event,
}
use seeding_plan_backend.Store.Projects.{Surface, moved, transition_body, transition, get_project}

pub any-first_row :
    (p : Project → Bool) (x : Project) (xs : List Project)
    → first_row p xs ≡ some x
    → any p xs ≡ true
unfolding first_row
any-first_row p x [] e = absurd (cc e)
any-first_row p x (y ∷ ys) e = elim (Bool-cases (p y)) [
  | inl t ↦ rw t refl
  | inr f ↦ rw f (any-first_row p x ys (rw f at e))
]

any-update_where :
    (p q : Project → Bool) (f : Project → Project)
    → ((x : Project) → p (f x) ≡ p x)
    → (xs : List Project) → any p (update_where q f xs) ≡ any p xs
unfolding update_where
any-update_where p q f k [] = refl
any-update_where p q f k (x ∷ xs) = elim (Bool-cases (q x)) [
  | inl t ↦ rw t (rw (k x) (rw (any-update_where p q f k xs) refl))
  | inr n ↦ rw n (rw (any-update_where p q f k xs) refl)
]

module _ {S : Type 0} (surface : Surface S)
    (keeps : (s : S) (row : Project) → (surface.write s row).project_id ≡ row.project_id)
    (transition_id event_id project_id : String) (target : S) (actor_id reason_code : String)
    (now : ℕ) where
  abbrev logged : Project → Transition
  logged row = record {
    transition_id = transition_id;
    project_id = project_id;
    change = surface.change (surface.current row) target;
    actor_id = actor_id;
    reason_code = reason_code;
    created_at = now;
  }

  -- The database after the transition of the row.
  abbrev pub after : Project → Db → Db
  after row db = record db {
    projects =
        update_where (is_project project_id)
          (moved surface transition_id event_id project_id target actor_id reason_code now)
          db.projects;
    state_transitions = db.state_transitions ++ logged row ∷ [];
    outbox =
        db.outbox
        ++ new_event event_id project_id
            (surface.event transition_id (surface.current row) target reason_code) now
          ∷ [];
  }

  pub data Moved (db : Db) (r : Result Project × Db) : Type 0 where
    missing :
        first_row (is_project project_id) db.projects ≡ none
        → r ≡ (err (seeding project_not_found), db)
        → Moved db r
    refused :
        (row : Project) (e : Exc)
        → first_row (is_project project_id) db.projects ≡ some row
        → surface.validate (surface.current row) target ≡ err e
        → r ≡ (err e, db)
        → Moved db r
    committed :
        (row : Project)
        → first_row (is_project project_id) db.projects ≡ some row
        → surface.validate (surface.current row) target ≡ ok tt
        → r ≡ (
          ok (moved surface transition_id event_id project_id target actor_id reason_code now row),
          after row db,
        )
        → Moved db r

  abbrev body : Run Db (Unit {0})
  body = transition_body surface transition_id event_id project_id target actor_id reason_code now

  raised :
      (db : Db) (e : Exc)
      → (body db).0 ≡ err e
      → transition surface transition_id event_id project_id target actor_id reason_code now db
        ≡ (err e, db)
  unfolding transition
  raised db e h =
      bind-err (transaction body) (λ _. get_project project_id) db db e
        (transaction-err body db e h)

  abbrev write : Project → Project
  write = moved surface transition_id event_id project_id target actor_id reason_code now

  same_id : (x : Project) → is_project project_id (write x) ≡ is_project project_id x
  same_id x = rw (keeps target x) refl

  still :
      (db : Db) (row : Project)
      → first_row (is_project project_id) db.projects ≡ some row
      → any
          (λ (r : Project). r.project_id == project_id)
          (update_where (is_project project_id) write db.projects)
        ≡ true
  still db row s =
      any-update_where (is_project project_id) (is_project project_id) write same_id db.projects
      ∙ any-first_row (is_project project_id) row db.projects s

  here :
      (db : Db) (row : Project)
      → first_row (is_project project_id) db.projects ≡ some row
      → get_project project_id (after row db) ≡ (ok (write row), after row db)
  unfolding get_project select_project
  here db row s =
      let p = is_project project_id in
      let found = first_row-update p p write same_id db.projects row s in
      rw (found, get_project, select_project) (rw (first_row_sound p db.projects row s) refl)

  body-ok :
      (db : Db) (row : Project)
      → first_row (is_project project_id) db.projects ≡ some row
      → surface.validate (surface.current row) target ≡ ok tt
      → body db ≡ (ok tt, after row db)
  unfolding transition_body append_outbox append_transition set_project select_project
  body-ok db row s v =
      rw (s, transition_body, select_project)
        (rw v (rw (still db row s) (rw (still db row s, append_outbox) refl)))

  finish :
      (db : Db) (row : Project)
      → body db ≡ (ok tt, after row db)
      → get_project project_id (after row db) ≡ (ok (write row), after row db)
      → transition surface transition_id event_id project_id target actor_id reason_code now db
        ≡ (ok (write row), after row db)
  unfolding transition
  finish db row b g =
      let done = transaction-ok body db tt (ap (λ r. r.0) b) in
      bind-do (transaction body) (λ _. get_project project_id) db (after row db) tt _
        (λ j. (done.0 j, (done.1 ∙ ap (λ r. r.1) b) j)) g

  pub transition-Moved :
      (db : Db)
      → Moved db
          (transition surface transition_id event_id project_id target actor_id reason_code now db)
  transition-Moved db = elim (Option-cases (first_row (is_project project_id) db.projects)) [
    | inl n ↦ missing n (
        raised db _
          (unfold transition_body select_project in rw (n, transition_body, select_project) refl))
    | inr (row, s) ↦ elim (Result-cases (surface.validate (surface.current row) target)) [
      | inr (e, v) ↦ refused row e s v (
          raised db e (
            unfold transition_body select_project in
            rw (s, transition_body, select_project) (rw v refl)))
      | inl (u, v) ↦ committed row s v (finish db row (body-ok db row s v) (here db row s))
    ]
  ]
