-- ===== src/Store/Tables.antt =====
-- app/seeding/migrations: rows of the tables that hold members, artifacts, plans and the results of
-- executions. The parent module passes these names on.
use seeding_plan_backend.Prelude.{ℕ, Bool, Option, String}
use seeding_plan_backend.Execution.{BatchStatus}

pub data AccessLevel : Type 0 where
  read write approve execute admin : AccessLevel

pub record Member : Type 0 where
  pub project_id : String
  pub principal_id : String
  pub access_level : AccessLevel
  pub added_by : String
  pub created_at : ℕ

pub record ProjectRevision : Type 0 where
  pub project_id : String
  pub revision : ℕ
  pub config_json : String
  pub config_sha : String
  pub created_by : String
  pub created_at : ℕ

pub record Artifact : Type 0 where
  pub artifact_id : String
  pub project_id : String
  pub kind : String
  pub input_sha : String
  pub content_sha : String
  pub content_json : String
  pub created_at : ℕ

pub record LogicalPlan : Type 0 where
  pub logical_plan_key : String
  pub project_id : String
  pub stage : String
  pub channel : String
  pub note_id : String
  pub objective : String
  pub asset_identity : String
  pub created_at : ℕ

pub data RevisionStatus : Type 0 where
  active superseded : RevisionStatus

pub record PlanRevision : Type 0 where
  pub plan_revision_id : String
  pub logical_plan_key : String
  pub stage : String
  pub config_sha : String
  pub matrix_sha : String
  pub parameter_set_version : ℕ
  pub revision_status : RevisionStatus
  pub supersedes_plan_revision_id : Option String
  pub payload_json : String
  pub created_at : ℕ

pub record ExecutionAttempt : Type 0 where
  pub execution_attempt_id : String
  pub project_id : String
  pub plan_revision_id : String
  pub grant_id : String
  pub request_sha : String
  -- whether the receipt had the hash of what was read
  pub response_recorded : Bool
  pub status : BatchStatus
  pub started_at : ℕ
  pub finished_at : ℕ
  pub readback_receipt_sha : String
  pub relock_receipt_id : Option String

pub data ObjectType : Type 0 where
  campaign unit creativity : ObjectType

-- Project, type and value make up the text of platform_object_id.
pub record PlatformObject : Type 0 where
  pub project_id : String
  pub object_type : ObjectType
  pub value : ℕ
  pub execution_attempt_id : String
  pub expected_sha256 : String
  pub actual_recorded : Bool
  -- VERIFIED_PAUSED or UNVERIFIED, LOCKED or UNVERIFIED
  pub pause_verified : Bool
  pub locked : Bool
  pub receipt_sha : String
  pub updated_at : ℕ
