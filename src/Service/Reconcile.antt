-- ===== src/Service/Reconcile.antt =====
-- app/seeding/service.py: `_process_reconcile` and `_process_production_create`, the two handlers whose
-- result in production is also stored as an artifact. The state is that of Execute.
pub mod Refused
pub mod Tests
use seeding_plan_backend.Prelude.{
  ℕ, Bool, true, false, Option, none, some, List, String, if◌then◌else◌,
}
use seeding_plan_backend.Errors.{
  Result, Run, seeding, platform_adapter_not_configured, production_create_adapter_not_configured,
  pure, raise, ◌>>=◌, ◌>>◌,
}
use seeding_plan_backend.State.{ExecutionState}
use seeding_plan_backend.Execution.{
  Payload, PlanReadbackReceipt, BatchStatus, BatchExecutionReceipt,
}
use seeding_plan_backend.Execution.Engine.{Call, World, execute}
use seeding_plan_backend.Execution.Reconcile.{reconcile}
use seeding_plan_backend.Store.{Db}
use seeding_plan_backend.Store.Projects.{transition_execution}
use seeding_plan_backend.Store.Artifacts.{put_artifact}
use seeding_plan_backend.Store.Results.{record_execution_result}
use seeding_plan_backend.Service.Execute.{ExecutionInput, on_calls, on_db}

-- target_by_status of a reconciliation; for any other status the project stays
abbrev pub reconciled_target : Bool → BatchStatus → Option ExecutionState
reconciled_target production BatchStatus.reconciled_verified_paused = some (
    if production
    then ExecutionState.waiting_release_authorization
    else ExecutionState.readback_verified)
reconciled_target production BatchStatus.reconciled_not_created =
    some ExecutionState.recovery_required
reconciled_target production BatchStatus.pause_failed_emergency =
    some ExecutionState.recovery_required
reconciled_target production BatchStatus.readback_mismatch = some ExecutionState.recovery_required
reconciled_target production BatchStatus.relock_failed = some ExecutionState.relock_failed
reconciled_target production BatchStatus.recovery_required = some ExecutionState.recovery_required
reconciled_target production _ = none

-- target_by_status of a creation, with RECOVERY_REQUIRED for any other status
abbrev pub created_target : BatchStatus → ExecutionState
created_target BatchStatus.verified_paused = ExecutionState.waiting_release_authorization
created_target BatchStatus.reconcile_required = ExecutionState.reconcile_required
created_target BatchStatus.pause_failed_emergency = ExecutionState.pause_failed_emergency
created_target BatchStatus.readback_mismatch = ExecutionState.readback_mismatch
created_target BatchStatus.relock_failed = ExecutionState.relock_failed
created_target _ = ExecutionState.recovery_required

module _ (sha256_json : Payload → String) (sha256 : String → String)
    (sha_receipt : PlanReadbackReceipt → String)
    (event_json : String → BatchExecutionReceipt → String)
    (result_json : BatchExecutionReceipt → String) (reason_of : BatchStatus → String)
    (uuid ids : ℕ → String) (clock : ℕ → ℕ) (input_sha : String) where
  unfoldable pub store_readback : ExecutionInput → BatchExecutionReceipt → Run Db (Unit {0})
  unfolding put_artifact
  store_readback input receipt = do
    put_artifact sha256 input.project_id "production_paused_readback" input_sha (ids 3)
        (result_json receipt) (clock 2)
    pure tt

  unfoldable pub move_to :
      ExecutionInput → BatchExecutionReceipt → Option ExecutionState → Run Db BatchExecutionReceipt
  move_to input receipt none = pure receipt
  move_to input receipt (some target) = do
    transition_execution (ids 1) (ids 2) input.project_id target "durable-worker"
        (reason_of receipt.status) (clock 1)
    pure receipt

  -- the part after the call of the engine
  unfoldable pub settle_reconcile :
      Bool → ExecutionInput → BatchExecutionReceipt → Run Db BatchExecutionReceipt
  unfolding record_execution_result store_readback move_to
  settle_reconcile production input receipt = do
    record_execution_result sha_receipt event_json input.project_id input.grant_id receipt (clock 0)
        uuid (ids 0)
    if production then store_readback input receipt else pure tt
    move_to input receipt (reconciled_target production receipt.status)

  -- the engine of the environment, and the error where it is missing
  unfoldable pub process_reconcile :
      Option World
      → Option World
      → Bool
      → ExecutionInput
      → Run (List Call × Db) BatchExecutionReceipt
  unfolding reconcile settle_reconcile
  process_reconcile test_engine production_engine production input =
      elim (if production then production_engine else test_engine) [
        | none ↦ raise (seeding platform_adapter_not_configured)
        | some w ↦ (do
          receipt ← on_calls (reconcile sha256_json w input.advertiser_id input.plans)
          on_db (settle_reconcile production input receipt))
      ]

  unfoldable pub process_production_create :
      Option World → ExecutionInput → Run (List Call × Db) BatchExecutionReceipt
  unfolding execute record_execution_result store_readback move_to
  process_production_create none input = raise (seeding production_create_adapter_not_configured)
  process_production_create (some w) input = do
    receipt ← on_calls (execute sha256_json w input.advertiser_id input.plans)
    on_db (
        record_execution_result sha_receipt event_json input.project_id input.grant_id receipt
          (clock 0) uuid (ids 0))
    on_db (store_readback input receipt)
    on_db (move_to input receipt (some (created_target receipt.status)))
