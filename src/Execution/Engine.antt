-- ===== src/Execution/Engine.antt =====
-- app/seeding/execution.py: `TestExecutionEngine.execute` and `_extract_object_ids`. The platform
-- client and the account lock are a `World` whose answers, returned or raised, may depend on every
-- call made before. A run is a method over the calls made, the latest first. `sha256_json` is a
-- parameter.
use seeding_plan_backend.Prelude.{
  ℕ, Bool, true, false, not, Option, none, some, List, [], ◌∷◌, String, ◌==◌, ◌||◌, any, eqb,
  if◌then◌else◌,
}
use seeding_plan_backend.Errors.{
  Result, Run, ok, err, Exc, Code, seeding, value_error, payload_sha_mismatch,
  platform_create_response_ambiguous, platform_transport_error, pure, raise, ◌>>=◌, ◌>>◌,
}
use seeding_plan_backend.Execution.{
  Value, Payload, ExecutionPlanInput, ObjectIds, CampaignRow, UnitRow, FoundCampaign, FoundUnit,
  FoundCreative, CreativeRow, CascadeUnit, CascadeRow, Label, PlanReadbackReceipt, BatchStatus,
  verified_paused, reconcile_required, failed_terminal, recovery_required, pause_failed_emergency,
  readback_mismatch, relock_failed, BatchExecutionReceipt,
}
use seeding_plan_backend.Execution.Readback.{error_receipt, readback_rows}

-- action_type of update_campaign_status: 1 enables, 2 pauses.
pub data Call : Type 0 where
  preflight : Call
  create_cascade : (payload : Payload) → Call
  update_campaign_status : (campaign_ids : List ℕ) (action_type : ℕ) → Call
  list_campaigns : (campaign_ids : List ℕ) → Call
  list_units : (unit_ids : List ℕ) → Call
  search_creativities : (creativity_ids : List ℕ) → Call
  find_campaigns : (campaign_name : Value) → Call
  find_units : (campaign_id : ℕ) → Call
  find_creatives : (campaign_id unit_id : ℕ) → Call
  relock : Call
  verify_locked : Call

pub record World : Type 0 where
  pub on_preflight : List Call → Result (Unit {0})
  pub on_create : List Call → Result (List CascadeRow)
  pub on_update : List Call → Result (List ℕ)
  pub on_campaigns : List Call → Result (List CampaignRow)
  pub on_units : List Call → Result (List UnitRow)
  pub on_creatives : List Call → Result (List CreativeRow)
  pub on_find_campaigns : List Call → Result (List FoundCampaign)
  pub on_find_units : List Call → Result (List FoundUnit)
  pub on_find_creatives : List Call → Result (List FoundCreative)
  pub on_relock : List Call → Result String
  pub on_verify_locked : List Call → Result Bool

-- One call: it is recorded, and the answer may depend on it and on all before.
abbrev pub ask : {A : Type 0} → (List Call → Result A) → Call → Run (List Call) A
ask answer c h = (answer (c ∷ h), c ∷ h)

-- tuple(int(value) for value in …)
unfoldable pub read_int_ids : List (Option ℕ) → Result (List ℕ)
read_int_ids [] = ok []
read_int_ids (none ∷ _) = err value_error
read_int_ids (some n ∷ ns) = elim (read_int_ids ns) [ ok rest ↦ ok (n ∷ rest) | err e ↦ err e ]

abbrev ambiguous : Result ObjectIds
ambiguous = err (seeding platform_create_response_ambiguous)

abbrev check_ids : ℕ → ℕ → List ℕ → Result ObjectIds
check_ids campaign unit [] = ambiguous
check_ids campaign unit (n ∷ ns) =
    if eqb unit 0 || any (eqb 0) (n ∷ ns)
    then ambiguous
    else ok (record { campaign_id = campaign; unit_id = unit; creativity_ids = n ∷ ns })

abbrev extract_unit : ℕ → CascadeUnit → Result ObjectIds
extract_unit campaign row = elim row.unit_id [
  | none ↦ err value_error
  | some unit ↦ elim (read_int_ids row.creativity_ids) [
    | err e ↦ err e
    | ok ns ↦ check_ids campaign unit ns
  ]
]

abbrev extract_units : ℕ → List CascadeUnit → Result ObjectIds
extract_units campaign (row ∷ []) = if eqb campaign 0 then ambiguous else extract_unit campaign row
extract_units campaign _ = ambiguous

unfoldable pub extract_object_ids : List CascadeRow → Result ObjectIds
unfolding read_int_ids
extract_object_ids (row ∷ []) = elim row.campaign_id [
  | none ↦ err value_error
  | some campaign ↦ extract_units campaign row.units
]
extract_object_ids _ = ambiguous

-- How the body of the loop ends for a plan: with the next plan, or by `break` with a status.
pub data Step : Type 0 where
  next : PlanReadbackReceipt → Step
  stop : PlanReadbackReceipt → BatchStatus → Step

abbrev pub member : ℕ → List ℕ → Bool
member n xs = any (eqb n) xs

abbrev pub is_transport : Code → Bool
is_transport platform_transport_error = true
is_transport _ = false

abbrev pub create_status : Exc → BatchStatus
create_status (seeding c) = if is_transport c then reconcile_required else failed_terminal
create_status _ = recovery_required

abbrev pub extract_status : Exc → BatchStatus
extract_status (seeding _) = reconcile_required
extract_status _ = recovery_required

-- exc.code of a SeedingError, and the given code for any other exception
abbrev pub code_of : Label → Exc → Label
code_of other (seeding c) = Label.platform_error c
code_of other _ = other

-- what the loop leaves
pub record Loop : Type 0 where
  pub receipts : List PlanReadbackReceipt
  pub status : BatchStatus
  pub platform_write_attempted : Bool

module _ (sha256_json : Payload → String) (w : World) (advertiser_id : ℕ) where
  module _ (plan : ExecutionPlanInput) where
    abbrev receipt_of : Option ObjectIds → Label → PlanReadbackReceipt
    receipt_of = error_receipt sha256_json plan

    unfoldable pub read_objects :
        ObjectIds → Run (List Call) (List CampaignRow × List UnitRow × List CreativeRow)
    read_objects ids = do
      campaigns ← ask w.on_campaigns (list_campaigns (ids.campaign_id ∷ []))
      units ← ask w.on_units (list_units (ids.unit_id ∷ []))
      creatives ← ask w.on_creatives (search_creativities ids.creativity_ids)
      pure (campaigns, units, creatives)

    -- a SeedingError of the reads is a receipt, any other exception leaves `_readback`
    abbrev pub after_reads :
        ObjectIds
        → Result (List CampaignRow × List UnitRow × List CreativeRow)
        → Result PlanReadbackReceipt
    after_reads ids (ok (campaigns, units, creatives)) =
        readback_rows sha256_json plan ids campaigns units creatives
    after_reads ids (err (seeding c)) = ok (receipt_of (some ids) (Label.platform_error c))
    after_reads ids (err e) = err e

    abbrev pub after_readback : ObjectIds → Result PlanReadbackReceipt → Step
    after_readback ids (ok receipt) =
        if receipt.readback_verified then next receipt else stop receipt readback_mismatch
    after_readback ids (err e) =
        stop (receipt_of (some ids) Label.unexpected_readback_error) recovery_required

    unfoldable pub readback : ObjectIds → List Call → Step × List Call
    unfolding read_objects
    readback ids h =
        (after_readback ids (after_reads ids (read_objects ids h).0), (read_objects ids h).1)

    abbrev pub after_pause : ObjectIds → Result (List ℕ) → List Call → Step × List Call
    after_pause ids (err e) h = (
      stop (receipt_of (some ids) (code_of Label.unexpected_pause_error e)) pause_failed_emergency,
      h,
    )
    after_pause ids (ok paused) h = if member ids.campaign_id paused then readback ids h else (
      stop (receipt_of (some ids) Label.pause_response_missing_object) pause_failed_emergency,
      h,
    )

    abbrev pub after_extract : Result ObjectIds → List Call → Step × List Call
    after_extract (err e) h = (
      stop (receipt_of none (code_of Label.unexpected_create_response_error e)) (extract_status e),
      h,
    )
    after_extract (ok ids) h =
        let c = update_campaign_status (ids.campaign_id ∷ []) 2 in
        after_pause ids (w.on_update (c ∷ h)) (c ∷ h)

    abbrev pub after_create : Result (List CascadeRow) → List Call → Step × List Call
    after_create (err e) h =
        (stop (receipt_of none (code_of Label.unexpected_create_error e)) (create_status e), h)
    after_create (ok rows) h = after_extract (extract_object_ids rows) h

    -- the body of the loop after the check of the hash
    unfoldable pub run_plan : List Call → Step × List Call
    unfolding readback extract_object_ids
    run_plan h = let c = create_cascade plan.payload in after_create (w.on_create (c ∷ h)) (c ∷ h)

  abbrev pub after_plan : Step → Run (List Call) Loop → Run (List Call) Loop
  after_plan (stop receipt status) rest =
      pure (record { receipts = receipt ∷ []; status = status; platform_write_attempted = true })
  after_plan (next receipt) rest = do
    loop ← rest
    pure (record {
      receipts = receipt ∷ loop.receipts;
      status = loop.status;
      platform_write_attempted = loop.platform_write_attempted;
    })

  unfoldable pub run_plans : Bool → List ExecutionPlanInput → Run (List Call) Loop
  unfolding run_plan
  run_plans attempted [] h = (
    ok (record { receipts = []; status = verified_paused; platform_write_attempted = attempted }),
    h,
  )
  run_plans attempted (plan ∷ plans) h =
      if not (sha256_json plan.payload == plan.payload_sha256)
      then (err (seeding payload_sha_mismatch), h)
      else after_plan (run_plan plan h).0 (run_plans true plans) (run_plan plan h).1

  abbrev pub batch : Loop → BatchStatus → Option String → Bool → BatchExecutionReceipt
  batch loop status receipt locked = record {
    status = if locked then status else relock_failed;
    advertiser_id = advertiser_id;
    plan_receipts = loop.receipts;
    relock_receipt_id = receipt;
    lock_verified = locked;
  }

  abbrev pub after_verify :
      Loop → String → Result Bool → List Call → Result BatchExecutionReceipt × List Call
  after_verify loop receipt (ok locked) = pure (batch loop loop.status (some receipt) locked)
  after_verify loop receipt (err e) = pure (batch loop relock_failed (some receipt) false)

  abbrev pub after_relock :
      Loop → Result String → List Call → Result BatchExecutionReceipt × List Call
  after_relock loop (err e) h = (ok (batch loop relock_failed none false), h)
  after_relock loop (ok receipt) h =
      after_verify loop receipt (w.on_verify_locked (verify_locked ∷ h)) (verify_locked ∷ h)

  -- the part after the loop
  unfoldable pub relock_account : Loop → Run (List Call) BatchExecutionReceipt
  relock_account loop h =
      if loop.platform_write_attempted
      then after_relock loop (w.on_relock (relock ∷ h)) (relock ∷ h)
      else (
        ok (record {
          status = loop.status;
          advertiser_id = advertiser_id;
          plan_receipts = loop.receipts;
          relock_receipt_id = none;
          lock_verified = false;
        }),
        h,
      )

  unfoldable pub execute : List ExecutionPlanInput → Run (List Call) BatchExecutionReceipt
  unfolding run_plans relock_account
  execute [] = raise value_error
  execute (plan ∷ plans) = do
    ask w.on_preflight preflight
    loop ← run_plans false (plan ∷ plans)
    relock_account loop
