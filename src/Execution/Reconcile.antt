-- ===== src/Execution/Reconcile.antt =====
-- app/seeding/execution.py: `TestExecutionEngine.reconcile`, which looks on the platform for what an
-- execution with a lost answer has created. The part after the loop is that of `execute`. An exception
-- that no `except` of the loop takes leaves `reconcile` before that part. The note ids of the plan's own
-- payload are values that can be hashed.
pub mod Rows
pub mod Found
pub mod Loop
pub mod Outcome
pub mod Tests
use seeding_plan_backend.Prelude.{
  ℕ, Bool, true, false, not, Option, none, some, List, [], ◌∷◌, String, ◌==◌, ◌||◌, ◌&&◌, any, eqb,
  length, map, where_rows, if◌then◌else◌,
}
use seeding_plan_backend.Errors.{
  Result, Run, ok, err, seeding, value_error, unexpected, payload_sha_mismatch, pure, raise,
  continue, ◌>>=◌, ◌>>◌,
}
use seeding_plan_backend.Execution.{
  Value, null, int, text, same, Payload, ExecutionPlanInput, ObjectIds, FoundId, number, unreadable,
  overflow, FoundCampaign, FoundUnit, FoundCreative, Label, PlanReadbackReceipt, BatchStatus,
  recovery_required, reconciled_not_created, reconciled_verified_paused, BatchExecutionReceipt,
}
use seeding_plan_backend.Execution.Readback.{error_receipt, elem}
use seeding_plan_backend.Execution.Engine.{
  Call, preflight, update_campaign_status, find_campaigns, find_units, find_creatives, World, ask,
  Step, next, stop, extract_status, code_of, after_pause, relock_account,
}

-- Python's truth of a value
abbrev pub truthy : Value → Bool
truthy null = false
truthy (int n) = not (eqb n 0)
truthy (text s) = not (s == "")

-- item.get("name") or item.get("unit_name")
abbrev pub shown_name : FoundUnit → Value
shown_name row = if truthy row.name then row.name else row.unit_name

-- int(…): `value_error` is a TypeError or a ValueError, `unexpected` an OverflowError.
abbrev pub read_found_id : FoundId → Result ℕ
read_found_id (number n) = ok n
read_found_id unreadable = err value_error
read_found_id overflow = err unexpected

-- except (TypeError, ValueError): … = default
abbrev pub or_default {ℓ} : {A : Type ℓ} → A → Result A → Result A
or_default default (ok a) = ok a
or_default default (err value_error) = ok default
or_default default (err e) = err e

-- int(…), and 0 on a TypeError or a ValueError
abbrev pub id_or_zero : FoundId → Result ℕ
id_or_zero id = or_default 0 (read_found_id id)

-- tuple(int(…) for …), where the first row on which `int` raises ends it
unfoldable pub read_found_ids : List FoundCreative → Result (List ℕ)
read_found_ids [] = ok []
read_found_ids (row ∷ rows) =
    let rest = read_found_ids rows in
    elim (read_found_id row.creativity_id) [
      | err e ↦ err e
      | ok n ↦ elim rest [ ok ns ↦ ok (n ∷ ns) | err e ↦ err e ]
    ]

-- the rows whose note id is in the set; a note id that cannot be hashed raises a TypeError
unfoldable pub rows_of_notes : List Value → List FoundCreative → Result (List FoundCreative)
rows_of_notes notes [] = ok []
rows_of_notes notes (row ∷ rows) =
    let rest = rows_of_notes notes rows in
    elim row.note_id [
      | none ↦ err unexpected
      | some note ↦ elim rest [
        | ok found ↦ ok (if elem note notes then row ∷ found else found)
        | err e ↦ err e
      ]
    ]

-- the ids of the creatives that show an expected note
unfoldable pub found_ids : List Value → List FoundCreative → Result (List ℕ)
unfolding read_found_ids rows_of_notes
found_ids notes rows = elim (rows_of_notes notes rows) [
  | err e ↦ err e
  | ok found ↦ or_default [] (read_found_ids found)
]

abbrev pub named : Value → FoundCampaign → Bool
named name row = same row.campaign_name name

abbrev pub unit_named : Value → FoundUnit → Bool
unit_named name row = same (shown_name row) name

-- what the loop leaves
pub record Reconciled : Type 0 where
  pub receipts : List PlanReadbackReceipt
  pub status : BatchStatus
  pub found_any : Bool

module _ (sha256_json : Payload → String) (w : World) (advertiser_id : ℕ) where
  module _ (plan : ExecutionPlanInput) where
    -- A plan ends the body of the loop without an object, and by `break`.
    abbrev pub halt : Label → BatchStatus → Run (List Call) (Bool × Step)
    halt label status = pure (false, stop (error_receipt sha256_json plan none label) status)

    abbrev pub not_created : PlanReadbackReceipt
    not_created = record {
      plan_revision_id = plan.plan_revision_id;
      logical_plan_key = plan.logical_plan_key;
      platform_request_sha256 = plan.payload_sha256;
      object_ids = none;
      expected_sha256 = plan.payload_sha256;
      actual_recorded = true;
      pause_verified = true;
      readback_verified = true;
      diff = Label.object_not_created ∷ [];
      platform_error_code = none;
    }

    -- found_any = True, and the pause and the readback as in `execute`
    unfoldable pub pause_found : ObjectIds → Run (List Call) (Bool × Step)
    pause_found ids h =
        let c = update_campaign_status (ids.campaign_id ∷ []) 2 in
        let r = after_pause sha256_json w advertiser_id plan ids (w.on_update (c ∷ h)) (c ∷ h) in
        (ok (true, r.0), r.1)

    abbrev pub expected_notes : List Value
    expected_notes = map (λ c. c.note_id) plan.payload.creativity_list

    abbrev pub check_creatives : ℕ → ℕ → List ℕ → Run (List Call) (Bool × Step)
    check_creatives campaign unit ids h =
        if eqb unit 0
          || not (eqb (length ids) (length plan.payload.creativity_list))
          || any (eqb 0) ids
        then halt Label.creativity_discovery_ambiguous recovery_required h
        else pause_found (record { campaign_id = campaign; unit_id = unit; creativity_ids = ids }) h

    abbrev pub after_creatives : ℕ → ℕ → Result (List FoundCreative) → Run (List Call) (Bool × Step)
    after_creatives campaign unit (err e) h =
        halt (code_of Label.unexpected_creativity_discovery_error e) (extract_status e) h
    after_creatives campaign unit (ok rows) h =
        continue (found_ids expected_notes rows) (check_creatives campaign unit) h

    -- the only unit of the expected name, and its creatives
    abbrev pub search_creatives : ℕ → ℕ → Run (List Call) (Bool × Step)
    search_creatives campaign unit h =
        let c = find_creatives campaign unit in
        after_creatives campaign unit (w.on_find_creatives (c ∷ h)) (c ∷ h)

    abbrev pub after_unit : ℕ → List FoundUnit → Run (List Call) (Bool × Step)
    after_unit campaign (row ∷ []) h =
        continue (id_or_zero row.unit_id) (search_creatives campaign) h
    after_unit campaign _ h = halt Label.unit_discovery_ambiguous recovery_required h

    abbrev pub after_units : ℕ → Result (List FoundUnit) → Run (List Call) (Bool × Step)
    after_units campaign (err e) h =
        halt (code_of Label.unexpected_unit_discovery_error e) (extract_status e) h
    after_units campaign (ok rows) h =
        after_unit campaign (where_rows (unit_named plan.payload.unit_name) rows) h

    abbrev pub search_units : ℕ → Run (List Call) (Bool × Step)
    search_units campaign h =
        let c = find_units campaign in
        if eqb campaign 0
        then halt Label.campaign_discovery_id_missing recovery_required h
        else after_units campaign (w.on_find_units (c ∷ h)) (c ∷ h)

    -- the campaigns of the expected name
    abbrev pub after_campaign : List FoundCampaign → Run (List Call) (Bool × Step)
    after_campaign [] h = (ok (false, next not_created), h)
    after_campaign (row ∷ []) h = continue (id_or_zero row.campaign_id) search_units h
    after_campaign _ h = halt Label.campaign_discovery_ambiguous recovery_required h

    abbrev pub after_campaigns : Result (List FoundCampaign) → Run (List Call) (Bool × Step)
    after_campaigns (err e) h =
        halt (code_of Label.unexpected_campaign_discovery_error e) (extract_status e) h
    after_campaigns (ok rows) h =
        after_campaign (where_rows (named plan.payload.campaign_name) rows) h

    -- the body of the loop after the check of the hash: whether it sets `found_any`, and its end
    unfoldable pub reconcile_plan : Run (List Call) (Bool × Step)
    unfolding pause_found where_rows found_ids
    reconcile_plan h =
        let c = find_campaigns plan.payload.campaign_name in
        after_campaigns (w.on_find_campaigns (c ∷ h)) (c ∷ h)

  abbrev pub after_found : Bool → Step → Run (List Call) Reconciled → Run (List Call) Reconciled
  after_found found (stop receipt status) rest =
      pure (record { receipts = receipt ∷ []; status = status; found_any = found })
  after_found found (next receipt) rest = do
    loop ← rest
    pure (record {
      receipts = receipt ∷ loop.receipts;
      status = loop.status;
      found_any = found || loop.found_any;
    })

  unfoldable pub reconcile_plans : List ExecutionPlanInput → Run (List Call) Reconciled
  unfolding reconcile_plan
  reconcile_plans [] h =
      (ok (record { receipts = []; status = reconciled_not_created; found_any = false }), h)
  reconcile_plans (plan ∷ plans) h =
      let r = reconcile_plan plan h in
      if not (sha256_json plan.payload == plan.payload_sha256)
      then (err (seeding payload_sha_mismatch), h)
      else continue r.0 (λ t. after_found t.0 t.1 (reconcile_plans plans)) r.1

  abbrev pub is_not_created : BatchStatus → Bool
  is_not_created reconciled_not_created = true
  is_not_created _ = false

  abbrev pub conclude : Reconciled → BatchStatus
  conclude loop =
      if loop.found_any && is_not_created loop.status
      then reconciled_verified_paused
      else loop.status

  unfoldable pub reconcile : List ExecutionPlanInput → Run (List Call) BatchExecutionReceipt
  unfolding reconcile_plans relock_account
  reconcile [] = raise value_error
  reconcile (plan ∷ plans) = do
    ask w.on_preflight preflight
    loop ← reconcile_plans (plan ∷ plans)
    relock_account sha256_json w advertiser_id (record {
      receipts = loop.receipts;
      status = conclude loop;
      platform_write_attempted = true;
    })
