-- ===== src/Release/Spend.antt =====
-- The periodic check of the spend against its cap.
use seeding_plan_backend.Prelude.{
  ℕ, ◌≡◌, refl, ◌⊎◌, inl, inr, Bool, Option, none, List, ◌∷◌, ◌++◌, String, arith, leb, ◌≤◌, ◌<◌,
  Bool-cases, if◌then◌else◌,
}
use seeding_plan_backend.Errors.{Result, ok, err, Exc, Result-cases, bind-do, pure}
use seeding_plan_backend.Release.{
  Call, World, current_spend_fen, SpendEvaluationReceipt, within_cap, cap_exceeded_paused,
  cap_exceeded_relock_failed, pause_and_relock, evaluate_spend,
}
use seeding_plan_backend.Release.Safety.{Paused, Relocked, pause_and_relock_lem, pause, relock}

module _ (w : World) (advertiser_id : ℕ) (ids : List ℕ) (spend_cap_fen : ℕ) where
  -- How a call of `evaluate_spend` begun after the calls `h` ends.
  pub data Evaluated (h : List Call) (r : Result SpendEvaluationReceipt × List Call) : Type 0 where
    unread :
        (e : Exc)
        → w.on_spend (current_spend_fen ids ∷ h) ≡ err e
        → r ≡ (err e, current_spend_fen ids ∷ h)
        → Evaluated h r
    within :
        (receipt : SpendEvaluationReceipt)
        → w.on_spend (current_spend_fen ids ∷ h) ≡ ok receipt.observed_spend_fen
        → r ≡ (ok receipt, current_spend_fen ids ∷ h)
        → receipt.status ≡ within_cap
        → receipt.observed_spend_fen ≤ spend_cap_fen
        → Evaluated h r
    stopped :
        (receipt : SpendEvaluationReceipt) (later : List Call)
        → w.on_spend (current_spend_fen ids ∷ h) ≡ ok receipt.observed_spend_fen
        → r ≡ (
          ok receipt,
          later
              ++ relock w advertiser_id ids ∷ pause w advertiser_id ids ∷ current_spend_fen ids ∷ h,
        )
        → spend_cap_fen < receipt.observed_spend_fen
        → (receipt.status ≡ cap_exceeded_relock_failed)
          ⊎ ((receipt.status ≡ cap_exceeded_paused)
              × Paused w advertiser_id ids (current_spend_fen ids ∷ h)
              × Relocked w advertiser_id ids
                  (pause w advertiser_id ids ∷ current_spend_fen ids ∷ h)
                  receipt.emergency_relock_receipt_id)
        → Evaluated h r

  abbrev under : ℕ → SpendEvaluationReceipt
  under observed = record {
    status = within_cap;
    advertiser_id = advertiser_id;
    campaign_ids = ids;
    observed_spend_fen = observed;
    spend_cap_fen = spend_cap_fen;
    emergency_relock_receipt_id = none;
  }

  abbrev over : ℕ → Option String × Bool → SpendEvaluationReceipt
  over observed outcome = record {
    status = if outcome.1 then cap_exceeded_paused else cap_exceeded_relock_failed;
    advertiser_id = advertiser_id;
    campaign_ids = ids;
    observed_spend_fen = observed;
    spend_cap_fen = spend_cap_fen;
    emergency_relock_receipt_id = outcome.0;
  }

  -- `evaluate_spend` raises only where the platform raises on being asked for the spend, then with
  -- the same error and no further call. Otherwise the receipt has the spend that the platform answered.
  -- A spend within the cap is reported as such with no further call. Above the cap it always asks for
  -- the pause of all ids and then for the relock, and it reports CAP_EXCEEDED_PAUSED only where both
  -- were confirmed.
  pub evaluate_spend-Evaluated :
      (h : List Call) → Evaluated h (evaluate_spend w advertiser_id ids spend_cap_fen h)
  unfolding evaluate_spend
  evaluate_spend-Evaluated h = elim (Result-cases (w.on_spend (current_spend_fen ids ∷ h))) [
    | inr (e, s) ↦ unread e s (rw (s, evaluate_spend) refl)
    | inl (observed, s) ↦ elim (Bool-cases (leb observed spend_cap_fen)) [
      | inl t ↦ within (under observed) s (rw (s, evaluate_spend) (rw t refl)) refl (ground arith)
      | inr f ↦
          let (o, locked, later, p, outcome) =
            pause_and_relock_lem w advertiser_id ids (current_spend_fen ids ∷ h) in
          let run =
            bind-do (pause_and_relock w advertiser_id ids) (λ v. pure (over observed v))
              (current_spend_fen ids ∷ h) _ (o, locked) _ p refl in
          stopped (over observed (o, locked)) later s (rw (s, evaluate_spend) (rw f run))
            (ground arith)
            (elim outcome [ inl n ↦ inl (rw n refl) | inr y ↦ inr (rw (y.0) refl, y.1, y.2) ])
    ]
  ]
