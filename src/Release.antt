-- ===== src/Release.antt =====
-- app/seeding/release.py: `ProductionReleaseEngine`, spend-capped activation with emergency pause
-- and relock. The platform client and the safety adapter are a `World` whose answers, returned or
-- raised, may depend on every call made before. A run is a method over the calls made, the latest
-- first. Amounts and ids are natural numbers: a negative id, which `activate` refuses as it does 0,
-- is not represented.
pub mod Safety
pub mod Activation
pub mod Spend
pub mod Tests
use seeding_plan_backend.Prelude.{
  ℕ, ◌+◌, Bool, true, false, not, ◌&&◌, ◌||◌, Option, none, some, List, [], ◌∷◌, String, leb, eqb,
  any, all, if◌then◌else◌,
}
use seeding_plan_backend.Errors.{
  Result, Run, ok, err, Exc, seeding, value_error, unexpected, spend_cap_not_armed,
  enable_response_missing_object, release_readback_mismatch, pure, raise, continue, ◌>>=◌, ◌>>◌,
}

-- action_type of update_campaign_status: 1 enables, 2 pauses.
pub data Call : Type 0 where
  preflight : Call
  arm_spend_cap : (campaign_ids : List ℕ) (spend_cap_fen : ℕ) → Call
  verify_armed : (receipt_id : String) → Call
  update_campaign_status : (campaign_ids : List ℕ) (action_type : ℕ) → Call
  list_campaigns : (campaign_ids : List ℕ) → Call
  current_spend_fen : (campaign_ids : List ℕ) → Call
  emergency_relock : (campaign_ids : List ℕ) → Call
  verify_locked : (receipt_id : String) → Call

-- The fields of a campaign that the engine reads. `campaign_id` is 0 where the key is missing, and
-- `none` where `int` raises on it.
pub record Campaign : Type 0 where
  pub campaign_id : Option ℕ
  pub campaign_enable : Option ℕ
  pub campaign_filter_state : Option ℕ

pub record World : Type 0 where
  pub on_preflight : List Call → Result (Unit {0})
  pub on_arm : List Call → Result String
  pub on_verify_armed : List Call → Result Bool
  pub on_update : List Call → Result (List ℕ)
  pub on_list : List Call → Result (List Campaign)
  pub on_spend : List Call → Result ℕ
  pub on_relock : List Call → Result String
  pub on_verify_locked : List Call → Result Bool

-- One call: it is recorded, and the answer may depend on it and on all before.
abbrev pub ask : {A : Type 0} → (List Call → Result A) → Call → Run (List Call) A
ask answer c h = (answer (c ∷ h), c ∷ h)

-- try: … except Exception as exc: …
abbrev pub rescue : {A : Type 0} → Result A → (Exc → Run (List Call) A) → Run (List Call) A
rescue (ok a) handler h = (ok a, h)
rescue (err e) handler h = handler e h

abbrev pub attempt :
    {A : Type 0} → Run (List Call) A → (Exc → Run (List Call) A) → Run (List Call) A
attempt m handler h = rescue (m h).0 handler (m h).1

-- set(xs) == set(ys)
abbrev pub elem : ℕ → List ℕ → Bool
elem n xs = any (eqb n) xs

abbrev pub same_set : List ℕ → List ℕ → Bool
same_set xs ys = all (λ n. elem n ys) xs && all (λ n. elem n xs) ys

pub data ReleaseStatus : Type 0 where
  release_active release_failed_safe release_emergency : ReleaseStatus

-- error_code is the exception whose code the source stores; `unexpected` stands for
-- RELEASE_INTERNAL_ERROR.
pub record ReleaseReceipt : Type 0 where
  pub status : ReleaseStatus
  pub advertiser_id : ℕ
  pub campaign_ids : List ℕ
  pub spend_cap_fen : ℕ
  pub spend_cap_period : String
  pub safety_receipt_id : String
  pub platform_enabled_ids : List ℕ
  pub readback_enabled : Bool
  pub emergency_relock_receipt_id : Option String
  pub error_code : Option Exc

pub data SpendStatus : Type 0 where
  within_cap cap_exceeded_paused cap_exceeded_relock_failed : SpendStatus

pub record SpendEvaluationReceipt : Type 0 where
  pub status : SpendStatus
  pub advertiser_id : ℕ
  pub campaign_ids : List ℕ
  pub observed_spend_fen : ℕ
  pub spend_cap_fen : ℕ
  pub emergency_relock_receipt_id : Option String

abbrev pub error_code_of : Exc → Exc
error_code_of (seeding c) = seeding c
error_code_of _ = unexpected

-- {int(item.get("campaign_id", 0)): item for item in campaigns}: the last item of an id stays.
pub read_ids : List Campaign → Result (List (ℕ × Campaign))
read_ids [] = ok []
read_ids (c ∷ cs) = elim c.campaign_id [
  | none ↦ err value_error
  | some n ↦ elim (read_ids cs) [ ok rest ↦ ok ((n, c) ∷ rest) | err e ↦ err e ]
]

pub last_entry : ℕ → List (ℕ × Campaign) → Option Campaign
last_entry n [] = none
last_entry n ((m, c) ∷ rest) = elim (last_entry n rest) [
  | some d ↦ some d
  | none ↦ if eqb m n then some c else none
]

abbrev pub is_value : ℕ → Option ℕ → Bool
is_value n none = false
is_value n (some m) = eqb m n

-- campaign_id in actual and … == 1 and … != 2
pub is_enabled : List (ℕ × Campaign) → ℕ → Bool
unfolding last_entry
is_enabled actual n = elim (last_entry n actual) [
  | none ↦ false
  | some c ↦ is_value 1 c.campaign_enable && not (is_value 2 c.campaign_filter_state)
]

module _ (w : World) (advertiser_id : ℕ) where
  -- the pause, whose failure of any kind counts as not paused
  pub pause_all : List ℕ → Run (List Call) Bool
  pause_all ids =
      attempt
        (do paused ← ask w.on_update (update_campaign_status ids 2); pure (same_set paused ids))
        (λ _. pure false)

  -- `paused_ok and verify_locked(receipt)` asks for the lock only after a full pause.
  pub relock_all : Bool → List ℕ → Run (List Call) (Option String × Bool)
  relock_all paused_ok ids =
      attempt
        (do
          receipt ← ask w.on_relock (emergency_relock ids)
          if paused_ok
              then (do
                locked ← ask w.on_verify_locked (verify_locked receipt)
                pure (some receipt, locked))
              else pure (some receipt, false))
        (λ _. pure (none, false))

  pub pause_and_relock : List ℕ → Run (List Call) (Option String × Bool)
  pause_and_relock ids = do paused_ok ← pause_all ids; relock_all paused_ok ids

  pub emergency_pause : List ℕ → ℕ → String → String → Exc → Run (List Call) ReleaseReceipt
  emergency_pause ids spend_cap_fen period safety_receipt error = do
    outcome ← pause_and_relock ids
    pure (record {
      status = if outcome.1 then release_failed_safe else release_emergency;
      advertiser_id = advertiser_id;
      campaign_ids = ids;
      spend_cap_fen = spend_cap_fen;
      spend_cap_period = period;
      safety_receipt_id = safety_receipt;
      platform_enabled_ids = [];
      readback_enabled = false;
      emergency_relock_receipt_id = outcome.0;
      error_code = some (error_code_of error);
    })

  -- the block under `try`
  pub enable : List ℕ → ℕ → String → String → Run (List Call) ReleaseReceipt
  enable ids spend_cap_fen period safety_receipt = do
    enabled ← ask w.on_update (update_campaign_status ids 1)
    if not (same_set enabled ids) then raise (seeding enable_response_missing_object) else (do
      campaigns ← ask w.on_list (list_campaigns ids)
      actual ← λ h. (read_ids campaigns, h)
      if not (all (is_enabled actual) ids)
          then raise (seeding release_readback_mismatch)
          else pure (record {
            status = release_active;
            advertiser_id = advertiser_id;
            campaign_ids = ids;
            spend_cap_fen = spend_cap_fen;
            spend_cap_period = period;
            safety_receipt_id = safety_receipt;
            platform_enabled_ids = enabled;
            readback_enabled = true;
            emergency_relock_receipt_id = none;
            error_code = none;
          }))

  pub activate_armed : List ℕ → ℕ → String → String → Run (List Call) ReleaseReceipt
  activate_armed ids spend_cap_fen period safety_receipt =
      attempt (enable ids spend_cap_fen period safety_receipt)
        (emergency_pause ids spend_cap_fen period safety_receipt)

  -- not exact_ids or any(value <= 0 for value in exact_ids)
  abbrev pub bad_ids : List ℕ → Bool
  bad_ids [] = true
  bad_ids (n ∷ ns) = elem 0 (n ∷ ns)

  pub activate : List ℕ → ℕ → String → Run (List Call) ReleaseReceipt
  activate ids spend_cap_fen period = if bad_ids ids then raise value_error else (do
    ask w.on_preflight preflight
    receipt ← ask w.on_arm (arm_spend_cap ids spend_cap_fen)
    armed ← ask w.on_verify_armed (verify_armed receipt)
    if not armed
        then raise (seeding spend_cap_not_armed)
        else activate_armed ids spend_cap_fen period receipt)

  pub evaluate_spend : List ℕ → ℕ → Run (List Call) SpendEvaluationReceipt
  evaluate_spend ids spend_cap_fen = do
    observed ← ask w.on_spend (current_spend_fen ids)
    if leb observed spend_cap_fen
        then pure (record {
          status = within_cap;
          advertiser_id = advertiser_id;
          campaign_ids = ids;
          observed_spend_fen = observed;
          spend_cap_fen = spend_cap_fen;
          emergency_relock_receipt_id = none;
        })
        else (do
          pause ← pause_and_relock ids
          pure (record {
            status = if pause.1 then cap_exceeded_paused else cap_exceeded_relock_failed;
            advertiser_id = advertiser_id;
            campaign_ids = ids;
            observed_spend_fen = observed;
            spend_cap_fen = spend_cap_fen;
            emergency_relock_receipt_id = pause.0;
          }))
