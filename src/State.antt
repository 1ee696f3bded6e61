-- ===== src/State.antt =====
-- app/seeding/state.py: the three state surfaces of a project and their transition tables. A
-- table is a Boolean function by clauses, `target in TRANSITIONS[current]`.
pub mod Paths
pub mod Tests
use seeding_plan_backend.Prelude.{Bool, true, false, if◌then◌else◌}
use seeding_plan_backend.Errors.{
  Result, ok, err, seeding, invalid_state_transition, invalid_execution_state_transition,
  invalid_delivery_state_transition,
}

pub data ProjectState : Type 0 where
  draft input_validated three_chain_ready matrix_ready waiting_budget : ProjectState
  waiting_confirmation advisory_ready failed_closed closed : ProjectState

pub data ExecutionState : Type 0 where
  nothing test_write_authorized production_create_authorized write_in_progress : ExecutionState
  partially_created_paused pause_failed_emergency create_paused readback_verified : ExecutionState
  readback_mismatch reconcile_required recovery_required relock_failed : ExecutionState
  waiting_release_authorization : ExecutionState

pub data DeliveryState : Type 0 where
  not_released feed_learning search_eligible stable closing closed : DeliveryState

-- PROJECT_TRANSITIONS
unfoldable pub project_allowed : ProjectState → ProjectState → Bool
project_allowed draft input_validated = true
project_allowed draft failed_closed = true
project_allowed input_validated three_chain_ready = true
project_allowed input_validated failed_closed = true
project_allowed three_chain_ready matrix_ready = true
project_allowed three_chain_ready waiting_budget = true
project_allowed three_chain_ready failed_closed = true
project_allowed matrix_ready waiting_confirmation = true
project_allowed matrix_ready waiting_budget = true
project_allowed matrix_ready failed_closed = true
project_allowed waiting_budget input_validated = true
project_allowed waiting_budget matrix_ready = true
project_allowed waiting_budget ProjectState.closed = true
project_allowed waiting_confirmation advisory_ready = true
project_allowed waiting_confirmation failed_closed = true
project_allowed advisory_ready input_validated = true
project_allowed advisory_ready ProjectState.closed = true
project_allowed advisory_ready failed_closed = true
project_allowed failed_closed input_validated = true
project_allowed failed_closed ProjectState.closed = true
project_allowed _ _ = false

-- EXECUTION_TRANSITIONS
unfoldable pub execution_allowed : ExecutionState → ExecutionState → Bool
execution_allowed nothing test_write_authorized = true
execution_allowed nothing production_create_authorized = true
execution_allowed test_write_authorized write_in_progress = true
execution_allowed test_write_authorized nothing = true
execution_allowed production_create_authorized write_in_progress = true
execution_allowed production_create_authorized nothing = true
execution_allowed write_in_progress partially_created_paused = true
execution_allowed write_in_progress pause_failed_emergency = true
execution_allowed write_in_progress create_paused = true
execution_allowed write_in_progress readback_verified = true
execution_allowed write_in_progress readback_mismatch = true
execution_allowed write_in_progress reconcile_required = true
execution_allowed write_in_progress recovery_required = true
execution_allowed write_in_progress relock_failed = true
execution_allowed write_in_progress waiting_release_authorization = true
execution_allowed partially_created_paused reconcile_required = true
execution_allowed partially_created_paused recovery_required = true
execution_allowed pause_failed_emergency reconcile_required = true
execution_allowed pause_failed_emergency recovery_required = true
execution_allowed create_paused readback_verified = true
execution_allowed create_paused readback_mismatch = true
execution_allowed create_paused reconcile_required = true
execution_allowed create_paused relock_failed = true
execution_allowed readback_verified test_write_authorized = true
execution_allowed readback_verified waiting_release_authorization = true
execution_allowed readback_mismatch reconcile_required = true
execution_allowed readback_mismatch recovery_required = true
execution_allowed reconcile_required readback_verified = true
execution_allowed reconcile_required recovery_required = true
execution_allowed reconcile_required relock_failed = true
execution_allowed recovery_required reconcile_required = true
execution_allowed recovery_required test_write_authorized = true
execution_allowed recovery_required production_create_authorized = true
execution_allowed relock_failed recovery_required = true
execution_allowed relock_failed reconcile_required = true
execution_allowed waiting_release_authorization test_write_authorized = true
execution_allowed _ _ = false

-- DELIVERY_TRANSITIONS
unfoldable pub delivery_allowed : DeliveryState → DeliveryState → Bool
delivery_allowed not_released feed_learning = true
delivery_allowed not_released DeliveryState.closed = true
delivery_allowed feed_learning search_eligible = true
delivery_allowed feed_learning stable = true
delivery_allowed feed_learning closing = true
delivery_allowed search_eligible stable = true
delivery_allowed search_eligible closing = true
delivery_allowed stable closing = true
delivery_allowed closing DeliveryState.closed = true
delivery_allowed _ _ = false

unfoldable pub validate_project_transition : ProjectState → ProjectState → Result (Unit {0})
unfolding project_allowed
validate_project_transition current target =
    if project_allowed current target then ok tt else err (seeding invalid_state_transition)

unfoldable pub validate_execution_transition : ExecutionState → ExecutionState → Result (Unit {0})
unfolding execution_allowed
validate_execution_transition current target =
    if execution_allowed current target
    then ok tt
    else err (seeding invalid_execution_state_transition)

unfoldable pub validate_delivery_transition : DeliveryState → DeliveryState → Result (Unit {0})
unfolding delivery_allowed
validate_delivery_transition current target =
    if delivery_allowed current target
    then ok tt
    else err (seeding invalid_delivery_state_transition)
