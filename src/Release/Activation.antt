-- ===== src/Release/Activation.antt =====
-- How an activation ends, against every behaviour of the platform and the adapter.
use seeding_plan_backend.Prelude.{
  ℕ, ◌≡◌, refl, sym, subst, ap, inl, inr, Bool, true, false, Option, none, some, List, [], ◌∷◌,
  ◌++◌, String, all, Bool-cases, if◌then◌else◌,
}
use seeding_plan_backend.Errors.{
  Result, Run, ok, err, Exc, seeding, value_error, spend_cap_not_armed,
  enable_response_missing_object, release_readback_mismatch, Result-cases, bind-do, pure,
}
use seeding_plan_backend.Release.{
  Call, World, preflight, arm_spend_cap, verify_armed, update_campaign_status, list_campaigns,
  emergency_relock, rescue, same_set, ReleaseReceipt, release_active, release_failed_safe,
  release_emergency, pause_and_relock, emergency_pause, enable, activate_armed, activate, read_ids,
  is_enabled, bad_ids, error_code_of, Campaign,
}
use seeding_plan_backend.Release.Safety
use seeding_plan_backend.Release.Safety.{pause_and_relock_lem}

-- A call of the safety adapter.
abbrev is_safety : Call → Bool
is_safety preflight = true
is_safety (arm_spend_cap _ _) = true
is_safety (verify_armed _) = true
is_safety _ = false

module _ (w : World) (advertiser_id : ℕ) (ids : List ℕ) where
  abbrev pause : Call
  pause = update_campaign_status ids 2

  abbrev relock : Call
  relock = emergency_relock ids

  abbrev Paused : List Call → Type 0
  Paused = Safety.Paused w advertiser_id ids

  abbrev Relocked : List Call → Option String → Type 0
  Relocked = Safety.Relocked w advertiser_id ids

  module _ (spend_cap_fen : ℕ) (period : String) where
    -- the calls of `activate` up to the check of the spend cap
    abbrev arming : String → List Call → List Call
    arming receipt h = verify_armed receipt ∷ arm_spend_cap ids spend_cap_fen ∷ preflight ∷ h

    abbrev pub Armed : String → List Call → Type 0
    Armed receipt h =
        (w.on_arm (arm_spend_cap ids spend_cap_fen ∷ preflight ∷ h) ≡ ok receipt)
        × (w.on_verify_armed (arming receipt h) ≡ ok true)

    -- How the part of `activate` after the check ends, begun after the calls `g`.
    pub data Ended (g : List Call) (safety_receipt : String) (r : Result ReleaseReceipt × List Call)
        : Type 0 where
      active :
          (receipt : ReleaseReceipt) (enabled : List ℕ) (campaigns : List Campaign)
          (actual : List (ℕ × Campaign))
          → r ≡ (ok receipt, list_campaigns ids ∷ update_campaign_status ids 1 ∷ g)
          → receipt.status ≡ release_active
          → receipt.safety_receipt_id ≡ safety_receipt
          → w.on_update (update_campaign_status ids 1 ∷ g) ≡ ok enabled
          → same_set enabled ids ≡ true
          → w.on_list (list_campaigns ids ∷ update_campaign_status ids 1 ∷ g) ≡ ok campaigns
          → read_ids campaigns ≡ ok actual
          → all (is_enabled actual) ids ≡ true
          → Ended g safety_receipt r
      failed_safe :
          (receipt : ReleaseReceipt) (before later : List Call)
          → r ≡ (ok receipt, later ++ relock ∷ pause ∷ before)
          → receipt.status ≡ release_failed_safe
          → Paused before
          → Relocked (pause ∷ before) receipt.emergency_relock_receipt_id
          → Ended g safety_receipt r
      emergency :
          (receipt : ReleaseReceipt) (before later : List Call)
          → r ≡ (ok receipt, later ++ relock ∷ pause ∷ before)
          → receipt.status ≡ release_emergency
          → Ended g safety_receipt r

    emergency_pause-Ended :
        (g before : List Call) (safety_receipt : String) (e : Exc)
        → Ended g safety_receipt
            (emergency_pause w advertiser_id ids spend_cap_fen period safety_receipt e before)
    unfolding emergency_pause
    emergency_pause-Ended g before safety_receipt e =
        let (o, locked, later, p, outcome) = pause_and_relock_lem w advertiser_id ids before in
        let run =
          bind-do (pause_and_relock w advertiser_id ids) (closing safety_receipt e) before
            (later ++ relock ∷ pause ∷ before) (o, locked) _ p refl in
        elim outcome [
          | inl f ↦ emergency (stopped safety_receipt e o locked) before later run (rw f refl)
          | inr s ↦
              failed_safe (stopped safety_receipt e o locked) before later run (rw (s.0) refl) s.1
                s.2
        ]
      where
        stopped : String → Exc → Option String → Bool → ReleaseReceipt
        stopped safety_receipt e o locked = record {
          status = if locked then release_failed_safe else release_emergency;
          advertiser_id = advertiser_id;
          campaign_ids = ids;
          spend_cap_fen = spend_cap_fen;
          spend_cap_period = period;
          safety_receipt_id = safety_receipt;
          platform_enabled_ids = [];
          readback_enabled = false;
          emergency_relock_receipt_id = o;
          error_code = some (error_code_of e);
        }

        closing : String → Exc → Option String × Bool → Run (List Call) ReleaseReceipt
        closing safety_receipt e outcome = pure (stopped safety_receipt e outcome.0 outcome.1)

    abbrev enabling : List Call → List Call
    enabling g = update_campaign_status ids 1 ∷ g

    abbrev listing : List Call → List Call
    listing g = list_campaigns ids ∷ enabling g

    abbrev released : String → List ℕ → ReleaseReceipt
    released safety_receipt enabled = record {
      status = release_active;
      advertiser_id = advertiser_id;
      campaign_ids = ids;
      spend_cap_fen = spend_cap_fen;
      spend_cap_period = period;
      safety_receipt_id = safety_receipt;
      platform_enabled_ids = enabled;
      readback_enabled = true;
      emergency_relock_receipt_id = none;
      error_code = none;
    }

    -- The block under `try` raises, or every step of it succeeded.
    pub data Enabled (g : List Call) (safety_receipt : String)
        (r : Result ReleaseReceipt × List Call) : Type 0 where
      raised : (e : Exc) (before : List Call) → r ≡ (err e, before) → Enabled g safety_receipt r
      returned :
          (enabled : List ℕ) (campaigns : List Campaign) (actual : List (ℕ × Campaign))
          → r ≡ (ok (released safety_receipt enabled), listing g)
          → w.on_update (enabling g) ≡ ok enabled
          → same_set enabled ids ≡ true
          → w.on_list (listing g) ≡ ok campaigns
          → read_ids campaigns ≡ ok actual
          → all (is_enabled actual) ids ≡ true
          → Enabled g safety_receipt r

    enable-Enabled :
        (g : List Call) (safety_receipt : String)
        → Enabled g safety_receipt
            (enable w advertiser_id ids spend_cap_fen period safety_receipt g)
    unfolding enable
    enable-Enabled g safety_receipt = elim (Result-cases (w.on_update (enabling g))) [
      | inr (e, u) ↦ raised e (enabling g) (rw (u, enable) refl)
      | inl (enabled, u) ↦ elim (Bool-cases (same_set enabled ids)) [
        | inr f ↦
            raised (seeding enable_response_missing_object) (enabling g)
              (rw (u, enable) (rw f refl))
        | inl t ↦ elim (Result-cases (w.on_list (listing g))) [
          | inr (e, l) ↦ raised e (listing g) (rw (u, enable) (rw t (rw l refl)))
          | inl (campaigns, l) ↦ elim (Result-cases (read_ids campaigns)) [
            | inr (e, a) ↦ raised e (listing g) (rw (u, enable) (rw t (rw l (rw a refl))))
            | inl (actual, a) ↦ elim (Bool-cases (all (is_enabled actual) ids)) [
              | inr f ↦
                  raised (seeding release_readback_mismatch) (listing g)
                    (rw (u, enable) (rw t (rw l (rw a (rw f refl)))))
              | inl y ↦
                  returned enabled campaigns actual
                    (rw (u, enable) (rw t (rw l (rw a (rw y refl))))) u t l a y
            ]
          ]
        ]
      ]
    ]

    activate_armed-Ended :
        (g : List Call) (safety_receipt : String)
        → Ended g safety_receipt
            (activate_armed w advertiser_id ids spend_cap_fen period safety_receipt g)
    unfolding activate_armed
    activate_armed-Ended g safety_receipt = go _ (enable-Enabled g safety_receipt)
      where
        go :
            (r : Result ReleaseReceipt × List Call)
            → Enabled g safety_receipt r
            → Ended g safety_receipt (
                rescue r.0
                  (emergency_pause w advertiser_id ids spend_cap_fen period safety_receipt)
                  r.1)
        go r (raised e before p) =
            subst
              (λ t. Ended g safety_receipt (
                rescue t.0 (emergency_pause w advertiser_id ids spend_cap_fen period safety_receipt)
                  t.1))
              (sym p) (emergency_pause-Ended g before safety_receipt e)
        go r (returned enabled campaigns actual p u t l a y) =
            active (released safety_receipt enabled) enabled campaigns actual
              (ap
                (λ t.
                  rescue t.0
                    (emergency_pause w advertiser_id ids spend_cap_fen period safety_receipt) t.1)
                p)
              refl refl u t l a y

    -- How a call of `activate` ends: it raises, after calls of the safety adapter alone, or the
    -- cap was armed and confirmed before the part that enables.
    pub data Activated (h : List Call) (r : Result ReleaseReceipt × List Call) : Type 0 where
      refused :
          (e : Exc) (asked : List Call)
          → r ≡ (err e, asked ++ h)
          → all is_safety asked ≡ true
          → Activated h r
      armed :
          (safety_receipt : String)
          → Armed safety_receipt h
          → Ended (arming safety_receipt h) safety_receipt r
          → Activated h r

    -- Whatever the platform and the adapter answer: `activate` raises only before any platform call,
    -- having asked the safety adapter alone; else the spend cap was armed and confirmed first, and it
    -- returns a receipt. RELEASE_ACTIVE means that the platform acknowledged exactly the ids and that
    -- the readback showed every one of them enabled; RELEASE_FAILED_SAFE that the last calls paused
    -- exactly the ids and relocked them with a confirmed receipt; RELEASE_EMERGENCY that this pause
    -- and relock were both asked for.
    pub activate-Activated :
        (h : List Call) → Activated h (activate w advertiser_id ids spend_cap_fen period h)
    unfolding activate
    activate-Activated h = elim (Bool-cases (bad_ids w advertiser_id ids)) [
      | inl b ↦ refused value_error [] (rw (b, activate) refl) refl
      | inr b ↦ elim (Result-cases (w.on_preflight (preflight ∷ h))) [
        | inr (e, p) ↦ refused e (preflight ∷ []) (rw (b, activate) (rw p refl)) refl
        | inl (u, p) ↦
            elim (Result-cases (w.on_arm (arm_spend_cap ids spend_cap_fen ∷ preflight ∷ h))) [
              | inr (e, q) ↦
                  refused e (arm_spend_cap ids spend_cap_fen ∷ preflight ∷ [])
                    (rw (b, activate) (rw p (rw q refl))) refl
              | inl (receipt, q) ↦ elim (Result-cases (w.on_verify_armed (arming receipt h))) [
                | inr (e, v) ↦
                    refused e (arming receipt []) (rw (b, activate) (rw p (rw q (rw v refl)))) refl
                | inl (false, v) ↦
                    refused (seeding spend_cap_not_armed) (arming receipt [])
                      (rw (b, activate) (rw p (rw q (rw v refl)))) refl
                | inl (true, v) ↦
                    armed receipt (q, v)
                      (rw (b, activate)
                        (rw p (rw q (rw v (activate_armed-Ended (arming receipt h) receipt)))))
              ]
            ]
      ]
    ]
