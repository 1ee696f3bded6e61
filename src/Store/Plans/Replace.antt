-- ===== src/Store/Plans/Replace.antt =====
-- A replacement of the active plans as a whole.
use seeding_plan_backend.Prelude.{
  ℕ, ◌≡◌, refl, ap, ◌∙◌, inl, inr, true, false, some, List, [], ◌∷◌, ◌++◌, String, ◌==◌, any, All,
  In, first_row, Bool-cases,
}
use seeding_plan_backend.Errors.{ok, bind-do}
use seeding_plan_backend.Store.{Db, LogicalPlan, PlanRevision, transaction-ok, has_project}
use seeding_plan_backend.Store.Plans.{
  Plan, is_active, is_current, is_revision, supersede_found, insert_revision, is_logical,
  insert_logical, logical, revision, replace_rows, replace_one, replace_all,
  replace_active_plan_revisions,
}
use seeding_plan_backend.Store.Plans.Active.{Sound, none_current}
use seeding_plan_backend.Store.Plans.Found.{
  Sound-append, found-Sound, found_ids, any_append, In-append_left, In-append_right, found_keeps,
}

module _ (project_id stage config_sha matrix_sha : String) (version now : ℕ) where
  abbrev new_row : Plan → List PlanRevision → PlanRevision
  new_row plan rows =
      revision project_id stage config_sha matrix_sha version now plan
        (first_row (is_current plan.logical_plan_key stage) rows)

  abbrev left : Plan → List PlanRevision → List PlanRevision
  left plan rows = supersede_found (first_row (is_current plan.logical_plan_key stage) rows) rows

  -- The INSERT never meets the unique index: the UPDATE has made room for it.
  replace_rows-ok :
      (plan : Plan) (rows : List PlanRevision)
      → Sound rows
      → any (is_revision plan.plan_revision_id) rows ≡ false
      → (replace_rows project_id stage config_sha matrix_sha version now plan rows
          ≡ some (left plan rows ++ new_row plan rows ∷ []))
        × Sound (left plan rows ++ new_row plan rows ∷ [])
  unfolding replace_rows insert_revision
  replace_rows-ok plan rows s f =
      let free =
        found_ids plan.plan_revision_id (first_row (is_current plan.logical_plan_key stage) rows)
          rows
        ∙ f in
      let room = none_current plan.logical_plan_key stage rows s in
      (
        rw (free, replace_rows, insert_revision) (rw room refl),
        Sound-append (left plan rows) (new_row plan rows) (found-Sound _ rows s) free room,
      )

  -- the ids of the plans are new, and differ
  abbrev pub FreshPlans : List Plan → List PlanRevision → Type 0
  FreshPlans [] rows = Unit
  FreshPlans (p ∷ ps) rows =
      (any (is_revision p.plan_revision_id) rows ≡ false)
      × All (λ (q : Plan). (p.plan_revision_id == q.plan_revision_id) ≡ false) ps
      × FreshPlans ps rows

  FreshPlans-step :
      (p : Plan) (ps : List Plan) (rows : List PlanRevision)
      → All (λ (q : Plan). (p.plan_revision_id == q.plan_revision_id) ≡ false) ps
      → FreshPlans ps rows
      → FreshPlans ps (left p rows ++ new_row p rows ∷ [])
  FreshPlans-step p [] rows h f = tt
  FreshPlans-step p (q ∷ qs) rows h (a, b, c) = (
    any_append (is_revision q.plan_revision_id) (left p rows) (new_row p rows)
        (found_ids q.plan_revision_id _ rows ∙ a) h.0,
    b,
    FreshPlans-step p qs rows h.1 c,
  )

  -- no plan of the list has the key
  abbrev pub Without : String → List Plan → Type 0
  Without key plans = All (λ (q : Plan). (key == q.logical_plan_key) ≡ false) plans

  abbrev pub DistinctKeys : List Plan → Type 0
  DistinctKeys [] = Unit
  DistinctKeys (p ∷ ps) = Without p.logical_plan_key ps × DistinctKeys ps

  -- The row is in the table, of the plan's id and key, and ACTIVE.
  abbrev pub Activated : List PlanRevision → Plan → Type 0
  Activated rows plan =
      (r : PlanRevision) × In r rows
      × (r.plan_revision_id ≡ plan.plan_revision_id)
      × (r.logical_plan_key ≡ plan.logical_plan_key)
      × (is_active r.revision_status ≡ true)

  insert_logical-ok :
      (p : Plan) (db : Db)
      → has_project project_id db ≡ true
      → (plans : List LogicalPlan) × (insert_logical
            (logical project_id stage config_sha matrix_sha version now p)
            db
          ≡ (ok tt, record db { logical_plans = plans }))
  unfolding insert_logical
  insert_logical-ok p db h =
      elim (Bool-cases (any (is_logical p.logical_plan_key) db.logical_plans)) [
        | inl t ↦ (db.logical_plans, rw (t, insert_logical) refl)
        | inr f ↦ (
          db.logical_plans ++ logical project_id stage config_sha matrix_sha version now p ∷ [],
          rw (f, insert_logical) (rw h refl),
        )
      ]

  record Replaced (plans : List Plan) (db : Db) : Type 0 where
    result : Db
    run : replace_all project_id stage config_sha matrix_sha version now plans db ≡ (ok tt, result)
    sound : Sound result.plan_revisions
    keeps :
        (x : PlanRevision)
        → In x db.plan_revisions
        → Without x.logical_plan_key plans
        → In x result.plan_revisions
    activated : DistinctKeys plans → All (Activated result.plan_revisions) plans

  replace_all-Replaced :
      (plans : List Plan) (db : Db)
      → has_project project_id db ≡ true
      → Sound db.plan_revisions
      → FreshPlans plans db.plan_revisions
      → Replaced plans db
  unfolding replace_all
  replace_all-Replaced [] db h s f = record {
    result = db;
    run = refl;
    sound = s;
    keeps = λ x m w. m;
    activated = λ d. tt;
  }
  replace_all-Replaced (p ∷ ps) db h s (f0, f1, f2) =
      let rows = db.plan_revisions in
      let (plans', e1) = insert_logical-ok p db h in
      let db1 = record db { logical_plans = plans' } in
      let (e2, s2) = replace_rows-ok p rows s f0 in
      let db2 = record db1 { plan_revisions = left p rows ++ new_row p rows ∷ [] } in
      let one : replace_one project_id stage config_sha matrix_sha version now p db1
          ≡ (ok tt, db2) =
        unfold replace_one in rw (e2, replace_one) refl in
      let rest = replace_all-Replaced ps db2 h s2 (FreshPlans-step p ps rows f1 f2) in
      let new = In-append_right (new_row p rows) (left p rows) (new_row p rows ∷ []) (inl refl) in
      record {
        result = rest.result;
        run =
            bind-do (insert_logical (logical project_id stage config_sha matrix_sha version now p))
              _ db db1 tt _ e1
              (bind-do (replace_one project_id stage config_sha matrix_sha version now p) _ db1 db2
                tt _ one rest.run);
        sound = rest.sound;
        keeps = λ x m w.
            rest.keeps x
              (In-append_left x (left p rows) (new_row p rows ∷ [])
                (found_keeps p.logical_plan_key stage x rows s m w.0))
              w.1;
        activated = λ d. (
          (new_row p rows, rest.keeps (new_row p rows) new d.0, refl, refl, refl),
          rest.activated d.1,
        );
      }

  committed :
      (plans : List Plan) (db : Db) (r : Replaced plans db)
      → replace_active_plan_revisions project_id stage config_sha matrix_sha version now plans db
        ≡ (ok tt, r.result)
  unfolding replace_active_plan_revisions
  committed plans db r =
      let body = replace_all project_id stage config_sha matrix_sha version now plans in
      let done = transaction-ok body db tt (ap (λ t. t.0) r.run) in
      λ i. (done.0 i, (done.1 ∙ ap (λ t. t.1) r.run) i)

  -- For a project that exists, a table with distinct revision ids and at most one ACTIVE revision of
  -- each logical plan and stage, and plans with new, distinct ids and distinct keys,
  -- `replace_active_plan_revisions` returns: no INSERT meets the unique index. The table has the two
  -- properties again, and each plan is in it with its id and key as an ACTIVE revision.
  pub replace_activates :
      (plans : List Plan) (db : Db)
      → has_project project_id db ≡ true
      → Sound db.plan_revisions
      → FreshPlans plans db.plan_revisions
      → DistinctKeys plans
      → (db' : Db) × (replace_active_plan_revisions project_id stage config_sha matrix_sha version
            now plans db
          ≡ (ok tt, db'))
        × Sound db'.plan_revisions
        × All (Activated db'.plan_revisions) plans
  replace_activates plans db h s f d =
      let r = replace_all-Replaced plans db h s f in
      (r.result, committed plans db r, r.sound, r.activated d)

  -- For a project that exists, a table with distinct revision ids and at most one ACTIVE revision of
  -- each logical plan and stage, and plans with new, distinct ids: `replace_active_plan_revisions`
  -- returns, and a revision of a logical plan that is not among the plans stands in the table
  -- unchanged. Where it is ACTIVE, it stays ACTIVE.
  pub stale_plan_stays :
      (plans : List Plan) (db : Db) (x : PlanRevision)
      → has_project project_id db ≡ true
      → Sound db.plan_revisions
      → FreshPlans plans db.plan_revisions
      → In x db.plan_revisions
      → Without x.logical_plan_key plans
      → (db' : Db) × (replace_active_plan_revisions project_id stage config_sha matrix_sha version
            now plans db
          ≡ (ok tt, db'))
        × In x db'.plan_revisions
  stale_plan_stays plans db x h s f m w =
      let r = replace_all-Replaced plans db h s f in (r.result, committed plans db r, r.keeps x m w)
