-- ===== src/Execution.antt =====
-- app/seeding/execution.py: the plans, the platform rows and the receipts. A JSON value that the
-- compiled payload holds is null (or a missing key), a number or a text. The children model
-- `_readback`, the batch of `execute`, and what is proved of them.
pub mod Readback
pub mod Engine
pub mod Steps
pub mod Relock
pub mod Reconcile
pub mod Tests
use seeding_plan_backend.Prelude.{ℕ, Bool, true, false, Option, List, [], String, ◌==◌, eqb}
use seeding_plan_backend.Errors.{Code}

pub data Value : Type 0 where
  null : Value
  int : ℕ → Value
  text : String → Value

-- Python's == on these values
abbrev pub same : Value → Value → Bool
same null null = true
same (int m) (int n) = eqb m n
same (text s) (text t) = s == t
same _ _ = false

-- target_info of the payload, target_config of the platform
pub record Target : Type 0 where
  pub target_gender : Value
  pub target_area_code : Value
  pub target_age : Value
  pub target_device : Value
  pub crowd_pkg : List Value
  pub keywords : List Value

pub record Keyword : Type 0 where
  pub keyword : Value
  pub bid : Value
  pub phrase_match_type : Value

pub record Creative : Type 0 where
  pub note_id : Value
  pub conversion_type : Value

-- create_cascade_info_list[0] of a payload
pub record Payload : Type 0 where
  pub campaign_name : Value
  pub marketing_target : Value
  pub placement : Value
  pub bidding_strategy : Value
  pub origin_campaign_day_budget : Value
  pub unit_name : Value
  pub target_type : Value
  pub event_bid : Value
  pub target_info : Target
  pub keyword_with_bid : List Keyword
  pub creativity_list : List Creative

pub record ExecutionPlanInput : Type 0 where
  pub plan_revision_id : String
  pub logical_plan_key : String
  pub payload : Payload
  pub payload_sha256 : String

pub record ObjectIds : Type 0 where
  pub campaign_id : ℕ
  pub unit_id : ℕ
  pub creativity_ids : List ℕ

-- Rows of the platform, with the fields that are read.
pub record CampaignRow : Type 0 where
  pub campaign_name : Value
  pub marketing_target : Value
  pub placement : Value
  pub bidding_strategy : Value
  pub campaign_day_budget : Value
  pub campaign_filter_state : Value
  pub campaign_enable : Value

pub record UnitRow : Type 0 where
  pub name : Value
  pub target_type : Value
  pub event_bid : Value
  pub target_config : Target
  pub keyword_with_bids : List Keyword
  pub enable : Value
  pub unit_filter_state : Value

-- An id is 0 where the key is missing, and `none` where `int` raises on it.
pub record CreativeRow : Type 0 where
  pub creativity_id : Option ℕ
  pub note_id : Value
  pub conversion_type : Value
  pub creativity_enable : Value
  pub creativity_filter_state : Value

-- What `int` makes of an id of a row found: a number, 0 where the key is missing or the number is
-- below 0; a TypeError or a ValueError; or, on an infinite float, an OverflowError.
pub data FoundId : Type 0 where
  number : ℕ → FoundId
  unreadable overflow : FoundId

-- Rows of the searches by name that a reconciliation makes.
pub record FoundCampaign : Type 0 where
  pub campaign_name : Value
  pub campaign_id : FoundId

pub record FoundUnit : Type 0 where
  pub name : Value
  pub unit_name : Value
  pub unit_id : FoundId

-- The note id is `none` where it is a list or an object, which cannot be hashed.
pub record FoundCreative : Type 0 where
  pub creativity_id : FoundId
  pub note_id : Option Value

-- A result of cascade/create: the campaign id, and for each unit its id and creativity ids.
pub record CascadeUnit : Type 0 where
  pub unit_id : Option ℕ
  pub creativity_ids : List (Option ℕ)

pub record CascadeRow : Type 0 where
  pub campaign_id : Option ℕ
  pub units : List CascadeUnit

-- The texts of a receipt's diff.
pub data Label : Type 0 where
  campaign_count unit_count creativity_count : Label
  campaign_name marketing_target placement bidding_strategy campaign_budget : Label
  unit_name target_type event_bid : Label
  target_gender target_area_code target_age target_device : Label
  target_crowd_packages target_behavior_keywords keyword_with_bid : Label
  creativity_missing creativity_note creativity_conversion : ℕ → Label
  pause_state_not_verified : Label
  platform_error : Code → Label
  unexpected_create_error unexpected_create_response_error unexpected_pause_error : Label
  pause_response_missing_object unexpected_readback_error : Label
  object_not_created unexpected_campaign_discovery_error campaign_discovery_ambiguous : Label
  campaign_discovery_id_missing unexpected_unit_discovery_error unit_discovery_ambiguous : Label
  unexpected_creativity_discovery_error creativity_discovery_ambiguous : Label

pub record PlanReadbackReceipt : Type 0 where
  pub plan_revision_id : String
  pub logical_plan_key : String
  pub platform_request_sha256 : String
  pub object_ids : Option ObjectIds
  pub expected_sha256 : String
  -- whether the hash of the rows read is stored
  pub actual_recorded : Bool
  pub pause_verified : Bool
  pub readback_verified : Bool
  pub diff : List Label
  pub platform_error_code : Option Label

pub data BatchStatus : Type 0 where
  verified_paused reconcile_required failed_terminal recovery_required : BatchStatus
  pause_failed_emergency readback_mismatch relock_failed : BatchStatus
  reconciled_not_created reconciled_verified_paused : BatchStatus

pub record BatchExecutionReceipt : Type 0 where
  pub status : BatchStatus
  pub advertiser_id : ℕ
  pub plan_receipts : List PlanReadbackReceipt
  pub relock_receipt_id : Option String
  pub lock_verified : Bool
