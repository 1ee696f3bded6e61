-- ===== src/Store/Jobs/Flag.antt =====
-- `claim_job` moves the projects of the indeterminate jobs to RECONCILE_REQUIRED. That part of the
-- transaction cannot fail, and leaves the jobs alone.
use seeding_plan_backend.Prelude.{
  ℕ, ◌+◌, ◌≡◌, refl, inl, inr, Bool, true, some, List, [], ◌∷◌, String, ◌==◌, ◌∙◌, arith, any,
  first_row, update_where, Bool-cases, Option-cases,
}
use seeding_plan_backend.Errors.{Result, ok}
use seeding_plan_backend.State.{ExecutionState}
use seeding_plan_backend.Store.{Db, Job, Project, Event, has_project}
use seeding_plan_backend.Store.Rows.{append_outbox, is_project}
use seeding_plan_backend.Store.Jobs.{is_writing, flag_project, flag_projects}

any-first_row :
    {A : Type 0} (p : A → Bool) (xs : List A) (x : A) → first_row p xs ≡ some x → any p xs ≡ true
unfolding first_row
any-first_row p [] x e = absurd (cc)
any-first_row p (y ∷ ys) x e = ground (arith, any-first_row p ys x)

any-update_where :
    (i : String) (f : Project → Project)
    → ((r : Project) → (f r).project_id ≡ r.project_id)
    → (xs : List Project)
    → any (is_project i) (update_where (is_project i) f xs) ≡ any (is_project i) xs
unfolding update_where
any-update_where i f k [] = refl
any-update_where i f k (x ∷ xs) = elim (Bool-cases (x.project_id == i)) [
  | inl t ↦ rw t (rw (k x) (rw t))
  | inr t ↦ rw t (rw t (any-update_where i f k xs))
]

-- The call succeeds, and the table of jobs is the one before it.
abbrev pub Succeeds : Result (Unit {0}) × Db → Db → Type 0
Succeeds r db = (r.0 ≡ ok tt) × (r.1.jobs ≡ db.jobs)

append_outbox-Succeeds :
    (e p : String) (v : Event) (now : ℕ) (db : Db)
    → has_project p db ≡ true
    → Succeeds (append_outbox e p v now db) db
unfolding append_outbox
append_outbox-Succeeds e p v now db h = rw h (refl, refl)

writing_project :
    (i : String) (xs : List Project)
    → is_writing (first_row (is_project i) xs) ≡ true
    → any (is_project i) xs ≡ true
writing_project i xs w = elim (Option-cases (first_row (is_project i) xs)) [
  | inl n ↦ absurd (cc (rw n at w))
  | inr (r, s) ↦ any-first_row (is_project i) xs r s
]

flag_project-Succeeds :
    (now : ℕ) (t e : String) (j : Job) (db : Db) → Succeeds (flag_project now t e j db) db
unfolding flag_project
flag_project-Succeeds now t e j db =
    elim (Bool-cases (is_writing (first_row (is_project j.project_id) db.projects))) [
      | inl w ↦
          let reset : Project → Project = λ r. record r {
            execution_state = ExecutionState.reconcile_required;
            updated_at = now;
          } in
          let h =
            any-update_where j.project_id reset (λ r. refl) db.projects
            ∙ writing_project j.project_id db.projects w in
          rw w (simp h (refl, refl))
      | inr w ↦ rw w (refl, refl)
    ]

pub flag_projects-Succeeds :
    (now : ℕ) (uuid : ℕ → String) (js : List Job) (db : Db)
    → Succeeds (flag_projects now uuid js db) db
unfolding flag_projects
flag_projects-Succeeds now uuid [] db = (refl, refl)
flag_projects-Succeeds now uuid (j ∷ js) db =
    let one = flag_project-Succeeds now (uuid 0) (uuid 1) j db in
    let rest =
      flag_projects-Succeeds now (λ n. uuid (n + 2)) js
        (flag_project now (uuid 0) (uuid 1) j db).1 in
    rw (one.0) (rest.0, rest.1 ∙ one.1)
