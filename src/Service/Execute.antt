-- ===== src/Service/Execute.antt =====
-- app/seeding/service.py: `_process_test_execution`, an execution of the engine whose result is stored
-- and moves the project. The state is the calls made on the platform and the database. The payload
-- of the job is taken as read; the reason code is the text with the status.
pub mod Target
pub mod Tests
use seeding_plan_backend.Prelude.{ℕ, Option, none, some, List, String}
use seeding_plan_backend.Errors.{
  Result, Run, seeding, platform_adapter_not_configured, pure, raise, ◌>>=◌, ◌>>◌,
}
use seeding_plan_backend.State.{ExecutionState}
use seeding_plan_backend.Execution.{
  Payload, ExecutionPlanInput, PlanReadbackReceipt, BatchStatus, BatchExecutionReceipt,
}
use seeding_plan_backend.Execution.Engine.{Call, World, execute}
use seeding_plan_backend.Store.{Db}
use seeding_plan_backend.Store.Projects.{transition_execution}
use seeding_plan_backend.Store.Results.{record_execution_result}

-- the payload of an EXECUTE_TEST job
pub record ExecutionInput : Type 0 where
  pub project_id : String
  pub grant_id : String
  pub advertiser_id : ℕ
  pub plans : List ExecutionPlanInput

-- A method of the engine and one of the store, on the state of both.
abbrev pub on_calls : {A : Type 0} → Run (List Call) A → Run (List Call × Db) A
on_calls m s = ((m s.0).0, ((m s.0).1, s.1))

abbrev pub on_db : {A : Type 0} → Run Db A → Run (List Call × Db) A
on_db m s = ((m s.1).0, (s.0, (m s.1).1))

-- target_by_status, with RECOVERY_REQUIRED for any other status
abbrev pub target_of : BatchStatus → ExecutionState
target_of BatchStatus.verified_paused = ExecutionState.readback_verified
target_of BatchStatus.reconcile_required = ExecutionState.reconcile_required
target_of BatchStatus.pause_failed_emergency = ExecutionState.pause_failed_emergency
target_of BatchStatus.readback_mismatch = ExecutionState.readback_mismatch
target_of BatchStatus.relock_failed = ExecutionState.relock_failed
target_of BatchStatus.failed_terminal = ExecutionState.recovery_required
target_of _ = ExecutionState.recovery_required

module _ (sha256_json : Payload → String) (sha_receipt : PlanReadbackReceipt → String)
    (event_json : String → BatchExecutionReceipt → String) (reason_of : BatchStatus → String)
    (uuid ids : ℕ → String) (clock : ℕ → ℕ) where
  -- the part after the call of the engine
  unfoldable pub settle_execution :
      ExecutionInput → BatchExecutionReceipt → Run Db BatchExecutionReceipt
  unfolding record_execution_result
  settle_execution input receipt = do
    record_execution_result sha_receipt event_json input.project_id input.grant_id receipt (clock 0)
        uuid (ids 0)
    transition_execution (ids 1) (ids 2) input.project_id (target_of receipt.status)
        "durable-worker" (reason_of receipt.status) (clock 1)
    pure receipt

  unfoldable pub process_test_execution :
      Option World → ExecutionInput → Run (List Call × Db) BatchExecutionReceipt
  unfolding execute settle_execution
  process_test_execution none input = raise (seeding platform_adapter_not_configured)
  process_test_execution (some w) input = do
    receipt ← on_calls (execute sha256_json w input.advertiser_id input.plans)
    on_db (settle_execution input receipt)
