-- ===== src/State/Tests.antt =====
-- The theorems on paths, applied to the paths that the service takes.
use seeding_plan_backend.Prelude.{◌≡◌, refl, List, [], ◌∷◌, length, ◌≤◌}
use seeding_plan_backend.State.{
  ProjectState, input_validated, three_chain_ready, matrix_ready, waiting_confirmation,
  advisory_ready, test_write_authorized, write_in_progress, readback_verified,
  validate_project_transition, validate_execution_transition, validate_delivery_transition,
  feed_learning, closing, DeliveryState,
}
use seeding_plan_backend.State.Paths.{
  Accepted, Visits, last_of, advisory_needs_confirmation, project_can_close, execution_needs_write,
  delivery_terminates,
}

advisory_needs_confirmation_example : Visits waiting_confirmation (
    input_validated ∷ three_chain_ready ∷ matrix_ready ∷ waiting_confirmation ∷ advisory_ready ∷ [])
unfolding validate_project_transition
advisory_needs_confirmation_example =
    advisory_needs_confirmation
      (input_validated ∷ three_chain_ready ∷ matrix_ready ∷ waiting_confirmation ∷ advisory_ready
        ∷ [])
      (refl, (refl, (refl, (refl, (refl, tt))))) refl

project_can_close_example :
    (ts : List ProjectState) × Accepted validate_project_transition matrix_ready ts
    × (last_of matrix_ready ts ≡ ProjectState.closed)
project_can_close_example = project_can_close matrix_ready

execution_needs_write_example :
    Visits write_in_progress (test_write_authorized ∷ write_in_progress ∷ readback_verified ∷ [])
unfolding validate_execution_transition
execution_needs_write_example =
    execution_needs_write (test_write_authorized ∷ write_in_progress ∷ readback_verified ∷ [])
      (refl, (refl, (refl, tt))) refl

delivery_terminates_example : length (feed_learning ∷ closing ∷ DeliveryState.closed ∷ []) ≤ 5
unfolding validate_delivery_transition
delivery_terminates_example =
    delivery_terminates (feed_learning ∷ closing ∷ DeliveryState.closed ∷ [])
      (refl, (refl, (refl, tt)))
