-- ===== src/Execution/Reconcile/Loop.antt =====
-- What the loop of a reconciliation establishes for the plans of a batch.
use seeding_plan_backend.Prelude.{
  ℕ, ◌≡◌, refl, sym, subst, ◌⊎◌, inl, inr, Bool, true, false, List, [], ◌∷◌, String, ◌==◌, ◌||◌, In,
  Bool-cases,
}
use seeding_plan_backend.Errors.{
  Result, Run, ok, err, seeding, payload_sha_mismatch, unexpected, bind-do, bind-err, continue,
  pure,
}
use seeding_plan_backend.Execution.{
  Payload, ExecutionPlanInput, PlanReadbackReceipt, reconciled_not_created,
}
use seeding_plan_backend.Execution.Engine.{Call, World, Step, next}
use seeding_plan_backend.Execution.Steps.{Calls, done, Calls-trans, Confirmed, is_verified}
use seeding_plan_backend.Execution.Reconcile.{
  Reconciled, not_created, reconcile_plan, after_found, reconcile_plans,
}
use seeding_plan_backend.Execution.Reconcile.Found.{
  is_search_call, Absent, Unread, Resolved, absent, broken, present, reconcile_plan-Resolved,
}

module _ (sha256_json : Payload → String) (w : World) (advertiser_id : ℕ) where
  -- A receipt for each plan: the plan was searched for in vain, or it was found and confirmed paused.
  -- The first argument tells whether one was found.
  pub data Facts : Bool → List ExecutionPlanInput → List PlanReadbackReceipt → Type 0 where
    nothing : (found : Bool) → found ≡ false → Facts found [] []
    missing :
        (found : Bool) (p : ExecutionPlanInput) (ps : List ExecutionPlanInput)
        (rs : List PlanReadbackReceipt)
        → Absent sha256_json w advertiser_id p
        → Facts found ps rs
        → Facts found (p ∷ ps) (not_created sha256_json w advertiser_id p ∷ rs)
    there :
        (found : Bool) (p : ExecutionPlanInput) (ps : List ExecutionPlanInput)
        (r : PlanReadbackReceipt) (rs : List PlanReadbackReceipt) (other : Bool)
        → found ≡ true
        → Confirmed r
        → Facts other ps rs
        → Facts found (p ∷ ps) (r ∷ rs)

  pub data Looped (plans : List ExecutionPlanInput) (h : List Call)
      (r : Result Reconciled × List Call) : Type 0 where
    changed :
        (p : ExecutionPlanInput) (g : List Call)
        → In p plans
        → (sha256_json p.payload == p.payload_sha256) ≡ false
        → r ≡ (err (seeding payload_sha_mismatch), g)
        → Calls is_search_call h g
        → Looped plans h r
    escaped :
        (p : ExecutionPlanInput) (g : List Call)
        → In p plans
        → r ≡ (err unexpected, g)
        → Unread sha256_json w advertiser_id p g
        → Calls is_search_call h g
        → Looped plans h r
    looped :
        (loop : Reconciled) (g : List Call)
        → r ≡ (ok loop, g)
        → Calls is_search_call h g
        → (is_verified loop.status ≡ false)
          ⊎ ((loop.status ≡ reconciled_not_created) × Facts loop.found_any plans loop.receipts)
        → Looped plans h r

  pub reconcile_plans-Looped :
      (plans : List ExecutionPlanInput) (h : List Call)
      → Looped plans h (reconcile_plans sha256_json w advertiser_id plans h)
  unfolding reconcile_plans
  reconcile_plans-Looped [] h = looped _ h refl done (inr (refl, nothing _ refl))
  reconcile_plans-Looped (p ∷ ps) h =
      elim (Bool-cases (sha256_json p.payload == p.payload_sha256)) [
        | inr f ↦ changed p h (inl refl) f (rw (f, reconcile_plans) refl) done
        | inl t ↦ subst (Looped (p ∷ ps) h) (sym (rw (t, reconcile_plans) refl)) (
            go p ps h (reconcile_plans-Looped ps) (reconcile_plan sha256_json w advertiser_id p h)
              (reconcile_plan-Resolved sha256_json w advertiser_id p h))
      ]
    where
      add : Bool → PlanReadbackReceipt → Reconciled → Run (List Call) Reconciled
      add b r loop = pure (record {
        receipts = r ∷ loop.receipts;
        status = loop.status;
        found_any = b || loop.found_any;
      })

      on :
          (ps : List ExecutionPlanInput) (h : List Call) (p : ExecutionPlanInput) (b : Bool)
          (x : PlanReadbackReceipt) (g : List Call)
          → Calls is_search_call h g
          → ((loop : Reconciled)
              → Facts loop.found_any ps loop.receipts
              → Facts (b || loop.found_any) (p ∷ ps) (x ∷ loop.receipts))
          → Looped ps g (reconcile_plans sha256_json w advertiser_id ps g)
          → Looped (p ∷ ps) h (
              after_found sha256_json w advertiser_id b
                (next x)
                (reconcile_plans sha256_json w advertiser_id ps)
                g)
      on ps h p b x g a f (changed q k m n e c) =
          changed q k (inr m) n
            (bind-err (reconcile_plans sha256_json w advertiser_id ps) (add b x) g k _ e)
            (Calls-trans is_search_call h g k a c)
      on ps h p b x g a f (escaped q k m e u c) =
          escaped q k (inr m)
            (bind-err (reconcile_plans sha256_json w advertiser_id ps) (add b x) g k _ e) u
            (Calls-trans is_search_call h g k a c)
      on ps h p b x g a f (looped l k e c v) =
          looped _ k
            (bind-do (reconcile_plans sha256_json w advertiser_id ps) (add b x) g k l _ e refl)
            (Calls-trans is_search_call h g k a c)
            (elim v [ inl n ↦ inl n | inr t ↦ inr (t.0, f l t.1) ])

      rest : List ExecutionPlanInput → Bool × Step → Run (List Call) Reconciled
      rest ps t =
          after_found sha256_json w advertiser_id t.0 t.1
            (reconcile_plans sha256_json w advertiser_id ps)

      go :
          (p : ExecutionPlanInput) (ps : List ExecutionPlanInput) (h : List Call)
          → ((g : List Call) → Looped ps g (reconcile_plans sha256_json w advertiser_id ps g))
          → (r : Result (Bool × Step) × List Call) → Resolved sha256_json w advertiser_id p h r
          → Looped (p ∷ ps) h (continue r.0 (rest ps) r.1)
      go p ps h rec r (Resolved.escaped g e u c) =
          subst (λ t. Looped (p ∷ ps) h (continue t.0 (rest ps) t.1)) (sym e)
            (Looped.escaped p g (inl refl) refl u c)
      go p ps h rec (q, g) (absent e a c) =
          subst (λ (t : Result (Bool × Step)). Looped (p ∷ ps) h (continue t (rest ps) g)) (sym e)
            (on ps h p false (not_created sha256_json w advertiser_id p) g c
              (λ loop f. missing loop.found_any p ps loop.receipts a f) (rec g))
      go p ps h rec (q, g) (broken b x s e v c) =
          subst (λ (t : Result (Bool × Step)). Looped (p ∷ ps) h (continue t (rest ps) g)) (sym e)
            (looped _ g refl c (inl v))
      go p ps h rec (q, g) (present x e v c) =
          subst (λ (t : Result (Bool × Step)). Looped (p ∷ ps) h (continue t (rest ps) g)) (sym e)
            (on ps h p true x g c
              (λ loop f. there true p ps x loop.receipts loop.found_any refl v f) (rec g))
