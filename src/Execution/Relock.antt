-- ===== src/Execution/Relock.antt =====
-- What a run of the execution engine establishes, against every behaviour of the platform and the
-- account lock.
use seeding_plan_backend.Prelude.{
  ℕ, suc, ◌≡◌, refl, sym, subst, ap, ◌⊎◌, inl, inr, true, false, Option, none, some, List, [], ◌∷◌,
  ◌++◌, String, ◌==◌, All, length, In, Bool-cases,
}
use seeding_plan_backend.Errors.{
  Result, Run, ok, err, Exc, seeding, value_error, payload_sha_mismatch, Result-cases, bind-do,
  bind-err, continue, pure,
}
use seeding_plan_backend.Execution.{
  Payload, ExecutionPlanInput, PlanReadbackReceipt, relock_failed, BatchExecutionReceipt,
}
use seeding_plan_backend.Execution.Engine.{
  Call, preflight, create_cascade, relock, verify_locked, World, Step, next, stop, run_plan, Loop,
  after_plan, run_plans, relock_account, batch, execute,
}
use seeding_plan_backend.Execution.Steps.{
  Adds, done, Calls-trans, is_plan_call, Confirmed, is_verified, Sound, goes, breaks, run_plan-Ran,
  created,
}

module _ (sha256_json : Payload → String) (w : World) (advertiser_id : ℕ) where
  -- How the loop ends, begun after the calls `h`: it raises on a changed payload of a plan, or it
  -- returns, and a
  -- verified batch has a confirmed receipt for every plan.
  pub data Looped (plans : List ExecutionPlanInput) (h : List Call) (r : Result Loop × List Call)
      : Type 0 where
    changed :
        (p : ExecutionPlanInput) (g : List Call)
        → In p plans
        → (sha256_json p.payload == p.payload_sha256) ≡ false
        → r ≡ (err (seeding payload_sha_mismatch), g)
        → Adds h g
        → Looped plans h r
    looped :
        (loop : Loop) (g : List Call)
        → r ≡ (ok loop, g)
        → Adds h g
        → loop.platform_write_attempted ≡ true
        → (is_verified loop.status ≡ false)
          ⊎ ((length loop.receipts ≡ length plans) × All Confirmed loop.receipts)
        → Looped plans h r

  run_plans-Looped :
      (plans : List ExecutionPlanInput) (h : List Call)
      → Looped plans h (run_plans sha256_json w advertiser_id true plans h)
  unfolding run_plans
  run_plans-Looped [] h = looped _ h refl done refl (inr (refl, tt))
  run_plans-Looped (p ∷ ps) h = elim (Bool-cases (sha256_json p.payload == p.payload_sha256)) [
    | inr f ↦ changed p h (inl refl) f (rw (f, run_plans) refl) done
    | inl t ↦
        let (s, a) = run_plan-Ran sha256_json w advertiser_id p h in
        subst (Looped (p ∷ ps) h) (sym (rw (t, run_plans) refl))
          (go p ps h (run_plans-Looped ps) _ s _ a)
  ]
    where
      add : PlanReadbackReceipt → Loop → Run (List Call) Loop
      add r loop = pure (record {
        receipts = r ∷ loop.receipts;
        status = loop.status;
        platform_write_attempted = loop.platform_write_attempted;
      })

      go :
          (p : ExecutionPlanInput) (ps : List ExecutionPlanInput) (h : List Call)
          → ((g : List Call) → Looped ps g (run_plans sha256_json w advertiser_id true ps g))
          → (s : Step) → Sound s
          → (g : List Call) → Adds h g
          → Looped (p ∷ ps) h (
              after_plan sha256_json w advertiser_id s
                (run_plans sha256_json w advertiser_id true ps)
                g)
      go p ps h rec (stop r s) (breaks _ _ b) g a = looped _ g refl a refl (inl b)
      go p ps h rec (next r) (goes _ c) g a = elim (rec g) [
        | changed q k m f e b ↦
            changed q k (inr m) f
              (bind-err (run_plans sha256_json w advertiser_id true ps) (add r) g k _ e)
              (Calls-trans is_plan_call h g k a b)
        | looped l k e b f v ↦
            looped _ k
              (bind-do (run_plans sha256_json w advertiser_id true ps) (add r) g k l _ e refl)
              (Calls-trans is_plan_call h g k a b) f
              (elim v [ inl n ↦ inl n | inr t ↦ inr (ap suc t.0, (c, t.1)) ])
      ]

  -- The lock was asked for after the calls `g`, and confirmed.
  abbrev pub Locked : List Call → Option String → Type 0
  Locked g o =
      (receipt : String) × (o ≡ some receipt)
      × (w.on_relock (relock ∷ g) ≡ ok receipt)
      × (w.on_verify_locked (verify_locked ∷ relock ∷ g) ≡ ok true)

  -- The lock was asked for after the calls `g` and then, with the calls `later`, not confirmed.
  abbrev pub Open : List Call → List Call → Type 0
  Open g later =
      ((e : Exc) × (w.on_relock (relock ∷ g) ≡ err e) × (later ≡ []))
      ⊎ ((receipt : String) × (w.on_relock (relock ∷ g) ≡ ok receipt)
          × (((e : Exc) × (w.on_verify_locked (verify_locked ∷ relock ∷ g) ≡ err e))
              ⊎ (w.on_verify_locked (verify_locked ∷ relock ∷ g) ≡ ok false))
          × (later ≡ verify_locked ∷ []))

  -- How the relock after the calls `g` ends.
  pub data Relocked (loop : Loop) (g : List Call) (r : Result BatchExecutionReceipt × List Call)
      : Type 0 where
    open_lock :
        (receipt : BatchExecutionReceipt) (later : List Call)
        → r ≡ (ok receipt, later ++ relock ∷ g)
        → Open g later
        → receipt.status ≡ relock_failed
        → receipt.lock_verified ≡ false
        → Relocked loop g r
    confirmed :
        (receipt : String)
        → r ≡ (
          ok (batch sha256_json w advertiser_id loop loop.status (some receipt) true),
          verify_locked ∷ relock ∷ g,
        )
        → Locked g (some receipt)
        → Relocked loop g r

  pub relock_account-Relocked :
      (loop : Loop) (g : List Call)
      → loop.platform_write_attempted ≡ true
      → Relocked loop g (relock_account sha256_json w advertiser_id loop g)
  unfolding relock_account
  relock_account-Relocked loop g f = elim (Result-cases (w.on_relock (relock ∷ g))) [
    | inr (e, p) ↦
        open_lock (batch sha256_json w advertiser_id loop relock_failed none false) []
          (rw (f, relock_account) (rw p refl)) (inl (e, p, refl)) refl refl
    | inl (receipt, p) ↦ elim (Result-cases (w.on_verify_locked (verify_locked ∷ relock ∷ g))) [
      | inr (e, q) ↦
          open_lock (batch sha256_json w advertiser_id loop relock_failed (some receipt) false)
            (verify_locked ∷ []) (rw (f, relock_account) (rw p (rw q refl)))
            (inr (receipt, p, inl (e, q), refl)) refl refl
      | inl (false, q) ↦
          open_lock (batch sha256_json w advertiser_id loop loop.status (some receipt) false)
            (verify_locked ∷ []) (rw (f, relock_account) (rw p (rw q refl)))
            (inr (receipt, p, inr q, refl)) refl refl
      | inl (true, q) ↦
          confirmed receipt (rw (f, relock_account) (rw p (rw q refl))) (receipt, refl, p, q)
    ]
  ]

  -- How `execute` ends, begun after the calls `h` with the given plans.
  pub data Executed (plans : List ExecutionPlanInput) (h : List Call)
      (r : Result BatchExecutionReceipt × List Call) : Type 0 where
    refused :
        (e : Exc) (asked : List Call)
        → r ≡ (err e, asked)
        → ((plans ≡ []) × (e ≡ value_error) × (asked ≡ h))
          ⊎ ((w.on_preflight (preflight ∷ h) ≡ err e) × (asked ≡ preflight ∷ h))
        → Executed plans h r
    raised :
        (p : ExecutionPlanInput) (g : List Call)
        → In p plans
        → (sha256_json p.payload == p.payload_sha256) ≡ false
        → r ≡ (err (seeding payload_sha_mismatch), g)
        → Adds (preflight ∷ h) g
        → Executed plans h r
    unlocked :
        (receipt : BatchExecutionReceipt) (g later : List Call)
        → r ≡ (ok receipt, later ++ relock ∷ g)
        → Open g later
        → Adds (preflight ∷ h) g
        → receipt.status ≡ relock_failed
        → receipt.lock_verified ≡ false
        → Executed plans h r
    locked :
        (receipt : BatchExecutionReceipt) (g : List Call)
        → r ≡ (ok receipt, verify_locked ∷ relock ∷ g)
        → Adds (preflight ∷ h) g
        → Locked g receipt.relock_receipt_id
        → receipt.lock_verified ≡ true
        → (is_verified receipt.status ≡ false)
          ⊎ ((length receipt.plan_receipts ≡ length plans) × All Confirmed receipt.plan_receipts)
        → Executed plans h r

  relock_account-Executed :
      (plans : List ExecutionPlanInput) (h g : List Call) (loop : Loop)
      → Adds (preflight ∷ h) g
      → loop.platform_write_attempted ≡ true
      → (is_verified loop.status ≡ false)
        ⊎ ((length loop.receipts ≡ length plans) × All Confirmed loop.receipts)
      → Executed plans h (relock_account sha256_json w advertiser_id loop g)
  relock_account-Executed plans h g loop a f v = elim (relock_account-Relocked loop g f) [
    | open_lock receipt later e o s l ↦ unlocked receipt g later e o a s l
    | confirmed receipt e l ↦
        locked (batch sha256_json w advertiser_id loop loop.status (some receipt) true) g e a l refl
          v
  ]

  -- Whatever the platform and the account lock answer, `execute` raises a ValueError without a plan, or
  -- what the preflight raises, before the first create; or it raises PAYLOAD_SHA_MISMATCH where the
  -- payload of one of the given plans has another hash than the plan states, with no other calls made
  -- than the preflight and those for plans; or it returns a receipt. Then the account was relocked
  -- after all calls for plans. Where the lock was not confirmed the status is RELOCK_FAILED; and where it
  -- was, a status VERIFIED_PAUSED means one receipt for each plan, each with an empty diff and a
  -- verified pause. The calls made for plans enable nothing: a campaign's status is only set to paused.
  pub execute-Executed :
      (plans : List ExecutionPlanInput) (h : List Call)
      → Executed plans h (execute sha256_json w advertiser_id plans h)
  unfolding execute
  execute-Executed [] h = refused value_error h refl (inl (refl, refl, refl))
  execute-Executed (p ∷ ps) h = elim (Result-cases (w.on_preflight (preflight ∷ h))) [
    | inr (e, q) ↦ refused e (preflight ∷ h) (rw (q, execute) refl) (inr (q, refl))
    | inl (u, q) ↦
        subst (Executed (p ∷ ps) h) (sym (rw (q, execute) refl))
          (go (p ∷ ps) h _ (run_plans-Looped (p ∷ ps) (preflight ∷ h)))
  ]
    where
      go :
          (plans : List ExecutionPlanInput) (h : List Call) (r : Result Loop × List Call)
          → Looped plans (preflight ∷ h) r
          → Executed plans h (continue r.0 (relock_account sha256_json w advertiser_id) r.1)
      go plans h r (changed p g m f e a) =
          raised p g m f (ap (λ t. continue t.0 (relock_account sha256_json w advertiser_id) t.1) e)
            a
      go plans h r (looped loop g e a f v) =
          subst
            (λ t. Executed plans h (continue t.0 (relock_account sha256_json w advertiser_id) t.1))
            (sym e) (relock_account-Executed plans h g loop a f v)

  -- Where the preflight returned, the first plan was created, paused and confirmed and the hash of the second plan's payload
  -- has changed, `execute` raises: the calls after the create of the first plan are plan calls, and
  -- the account is not relocked.
  pub execute_changed_payload :
      (p q : ExecutionPlanInput) (ps : List ExecutionPlanInput) (h g : List Call)
      (r : PlanReadbackReceipt)
      → w.on_preflight (preflight ∷ h) ≡ ok tt
      → (sha256_json p.payload == p.payload_sha256) ≡ true
      → run_plan sha256_json w advertiser_id p (preflight ∷ h) ≡ (next r, g)
      → (sha256_json q.payload == q.payload_sha256) ≡ false
      → (execute sha256_json w advertiser_id (p ∷ q ∷ ps) h
          ≡ (err (seeding payload_sha_mismatch), g))
        × Adds (create_cascade p.payload ∷ preflight ∷ h) g
  unfolding execute run_plans
  execute_changed_payload p q ps h g r f t s n = (
    rw (f, execute) (rw (t, run_plans) (rw s (rw n refl))),
    subst (Adds _) (ap (λ x. x.1) s) (created sha256_json w advertiser_id p _),
  )
