-- ===== src/Execution/Reconcile/Outcome.antt =====
-- What a reconciliation of a batch establishes.
use seeding_plan_backend.Prelude.{
  ℕ, ◌≡◌, refl, sym, subst, ap, ◌⊎◌, inl, inr, Bool, true, false, some, List, [], ◌∷◌, ◌++◌, String,
  ◌&&◌, In, ◌==◌, Bool-cases, if◌then◌else◌,
}
use seeding_plan_backend.Errors.{
  Result, Run, ok, err, Exc, seeding, value_error, unexpected, payload_sha_mismatch, Result-cases,
  continue,
}
use seeding_plan_backend.Execution.{
  Payload, ExecutionPlanInput, BatchStatus, verified_paused, reconcile_required, failed_terminal,
  recovery_required, pause_failed_emergency, readback_mismatch, relock_failed,
  reconciled_not_created, reconciled_verified_paused, BatchExecutionReceipt,
}
use seeding_plan_backend.Execution.Engine.{
  Call, preflight, relock, verify_locked, World, Loop, relock_account, batch,
}
use seeding_plan_backend.Execution.Steps.{Calls, is_verified}
use seeding_plan_backend.Execution.Relock.{
  Locked, Open, open_lock, confirmed, relock_account-Relocked,
}
use seeding_plan_backend.Execution.Reconcile.{Reconciled, is_not_created, conclude, reconcile}
use seeding_plan_backend.Execution.Reconcile.Found.{is_search_call, Unread}
use seeding_plan_backend.Execution.Reconcile.Loop.{
  Facts, Looped, changed, looped, reconcile_plans-Looped,
}

module _ (sha256_json : Payload → String) (w : World) (advertiser_id : ℕ) where
  -- How `reconcile` ends, begun after the calls `h` with the given plans.
  pub data Ended (plans : List ExecutionPlanInput) (h : List Call)
      (r : Result BatchExecutionReceipt × List Call) : Type 0 where
    refused :
        (e : Exc) (asked : List Call)
        → r ≡ (err e, asked)
        → ((plans ≡ []) × (e ≡ value_error) × (asked ≡ h))
          ⊎ ((w.on_preflight (preflight ∷ h) ≡ err e) × (asked ≡ preflight ∷ h))
        → Ended plans h r
    raised :
        (p : ExecutionPlanInput) (g : List Call)
        → In p plans
        → (sha256_json p.payload == p.payload_sha256) ≡ false
        → r ≡ (err (seeding payload_sha_mismatch), g)
        → Calls is_search_call (preflight ∷ h) g
        → Ended plans h r
    escaped :
        (p : ExecutionPlanInput) (g : List Call)
        → In p plans
        → r ≡ (err unexpected, g)
        → Unread sha256_json w advertiser_id p g
        → Calls is_search_call (preflight ∷ h) g
        → Ended plans h r
    unlocked :
        (receipt : BatchExecutionReceipt) (g later : List Call)
        → r ≡ (ok receipt, later ++ relock ∷ g)
        → Open sha256_json w advertiser_id g later
        → Calls is_search_call (preflight ∷ h) g
        → receipt.status ≡ relock_failed
        → receipt.lock_verified ≡ false
        → Ended plans h r
    locked :
        (receipt : BatchExecutionReceipt) (g : List Call)
        → r ≡ (ok receipt, verify_locked ∷ relock ∷ g)
        → Calls is_search_call (preflight ∷ h) g
        → Locked sha256_json w advertiser_id g receipt.relock_receipt_id
        → receipt.lock_verified ≡ true
        → (is_verified receipt.status ≡ false)
          ⊎ ((receipt.status ≡ reconciled_not_created)
              × Facts sha256_json w advertiser_id false plans receipt.plan_receipts)
          ⊎ ((receipt.status ≡ reconciled_verified_paused)
              × Facts sha256_json w advertiser_id true plans receipt.plan_receipts)
        → Ended plans h r

  -- the loop as the relock takes it
  abbrev relocks : Reconciled → Loop
  relocks loop = record {
    receipts = loop.receipts;
    status = conclude sha256_json w advertiser_id loop;
    platform_write_attempted = true;
  }

  not_verified :
      (s : BatchStatus)
      → is_verified s ≡ false
      → is_not_created sha256_json w advertiser_id s ≡ false
  not_verified verified_paused h = refl
  not_verified reconcile_required h = refl
  not_verified failed_terminal h = refl
  not_verified recovery_required h = refl
  not_verified pause_failed_emergency h = refl
  not_verified readback_mismatch h = refl
  not_verified relock_failed h = refl
  not_verified reconciled_verified_paused h = refl
  not_verified reconciled_not_created h = h

  unchanged :
      (b : Bool) (s : BatchStatus)
      → is_verified s ≡ false
      → (if b && is_not_created sha256_json w advertiser_id s
          then reconciled_verified_paused
          else s)
        ≡ s
  unchanged true s h = rw (not_verified s h) refl
  unchanged false s h = refl

  conclude-Facts :
      (plans : List ExecutionPlanInput) (loop : Reconciled)
      → (is_verified loop.status ≡ false)
        ⊎ ((loop.status ≡ reconciled_not_created)
            × Facts sha256_json w advertiser_id loop.found_any plans loop.receipts)
      → (is_verified (conclude sha256_json w advertiser_id loop) ≡ false)
        ⊎ ((conclude sha256_json w advertiser_id loop ≡ reconciled_not_created)
            × Facts sha256_json w advertiser_id false plans loop.receipts)
        ⊎ ((conclude sha256_json w advertiser_id loop ≡ reconciled_verified_paused)
            × Facts sha256_json w advertiser_id true plans loop.receipts)
  conclude-Facts plans loop (inl n) = inl (rw (unchanged loop.found_any loop.status n) n)
  conclude-Facts plans loop (inr (s, f)) = elim (Bool-cases loop.found_any) [
    | inl t ↦ inr (
        inr (
          rw (t, s) refl,
          subst (λ b. Facts sha256_json w advertiser_id b plans loop.receipts) t f,
        ))
    | inr n ↦ inr (
        inl (
          rw (n, s) refl,
          subst (λ b. Facts sha256_json w advertiser_id b plans loop.receipts) n f,
        ))
  ]

  relock-Ended :
      (plans : List ExecutionPlanInput) (h g : List Call) (loop : Reconciled)
      → Calls is_search_call (preflight ∷ h) g
      → (is_verified loop.status ≡ false)
        ⊎ ((loop.status ≡ reconciled_not_created)
            × Facts sha256_json w advertiser_id loop.found_any plans loop.receipts)
      → Ended plans h (relock_account sha256_json w advertiser_id (relocks loop) g)
  relock-Ended plans h g loop a v =
      elim (relock_account-Relocked sha256_json w advertiser_id (relocks loop) g refl) [
        | open_lock receipt later e o s l ↦ unlocked receipt g later e o a s l
        | confirmed receipt e l ↦
            locked
              (batch sha256_json w advertiser_id (relocks loop)
                (conclude sha256_json w advertiser_id loop) (some receipt) true)
              g e a l refl (conclude-Facts plans loop v)
      ]

  -- Whatever the platform and the account lock answer, `reconcile` never creates or enables anything:
  -- the calls made for plans are searches, reads and pauses. It raises a ValueError without a plan, or
  -- what the preflight raises, before the first of them; or PAYLOAD_SHA_MISMATCH where the payload of one
  -- of the given plans has another hash than the plan states; or, without a relock, right after a search
  -- that was answered with a row whose id overflows or whose note id cannot be hashed; or it returns a
  -- receipt after having asked for the relock. Then the lock was not confirmed and the status is
  -- RELOCK_FAILED, or it was confirmed; and with the lock confirmed, RECONCILED_NOT_CREATED means that
  -- for each plan a search answered without a campaign of the plan's name, and
  -- RECONCILED_VERIFIED_PAUSED that each plan was searched for in vain or has a receipt with an empty
  -- diff and a verified pause, at least one of these being of the second kind.
  pub reconcile-Ended :
      (plans : List ExecutionPlanInput) (h : List Call)
      → Ended plans h (reconcile sha256_json w advertiser_id plans h)
  unfolding reconcile
  reconcile-Ended [] h = refused value_error h refl (inl (refl, refl, refl))
  reconcile-Ended (p ∷ ps) h = elim (Result-cases (w.on_preflight (preflight ∷ h))) [
    | inr (e, q) ↦ refused e (preflight ∷ h) (rw (q, reconcile) refl) (inr (q, refl))
    | inl (u, q) ↦ subst (Ended (p ∷ ps) h) (sym (rw (q, reconcile) refl)) (
        go (p ∷ ps) h _
          (reconcile_plans-Looped sha256_json w advertiser_id (p ∷ ps) (preflight ∷ h)))
  ]
    where
      rest : Reconciled → Run (List Call) BatchExecutionReceipt
      rest loop = relock_account sha256_json w advertiser_id (relocks loop)

      go :
          (plans : List ExecutionPlanInput) (h : List Call) (r : Result Reconciled × List Call)
          → Looped sha256_json w advertiser_id plans (preflight ∷ h) r
          → Ended plans h (continue r.0 rest r.1)
      go plans h r (changed p g m n e a) = raised p g m n (ap (λ t. continue t.0 rest t.1) e) a
      go plans h r (Looped.escaped p g m e u a) =
          Ended.escaped p g m (ap (λ t. continue t.0 rest t.1) e) u a
      go plans h r (looped loop g e a v) =
          subst (λ t. Ended plans h (continue t.0 rest t.1)) (sym e)
            (relock-Ended plans h g loop a v)
