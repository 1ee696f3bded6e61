-- ===== src/Store/Projects.antt =====
-- app/seeding/store.py: `get_project`, `transition_project`, `transition_execution` and
-- `transition_delivery`. The last two share `_transition_secondary_state`, which differs from the
-- first only in its column, so the three are one definition here, with the surface as its
-- parameter. What a transition does is in Moves.
pub mod Moves
pub mod Tests
use seeding_plan_backend.Prelude.{ℕ, List, [], ◌∷◌, ◌++◌, String}
use seeding_plan_backend.Errors.{Result, Run, ◌>>=◌, ◌>>◌}
use seeding_plan_backend.State.{
  ProjectState, ExecutionState, DeliveryState, validate_project_transition,
  validate_execution_transition, validate_delivery_transition,
}
use seeding_plan_backend.Store.{
  Db, Project, Event, Change, on_project, on_execution, on_delivery, project_state_changed,
  execution_state_changed, delivery_state_changed, transaction,
}
use seeding_plan_backend.Store.Rows.{append_outbox, append_transition, set_project, select_project}

unfoldable pub get_project : String → Run Db Project
unfolding select_project
get_project project_id = select_project project_id

-- A state column of the table, its transitions, and how they are logged.
pub record Surface (S : Type 0) : Type 0 where
  pub current : Project → S
  pub write : S → Project → Project
  pub validate : S → S → Result (Unit {0})
  pub change : S → S → Change
  pub event : String → S → S → String → Event

module _ {S : Type 0} (surface : Surface S) (transition_id event_id project_id : String)
    (target : S) (actor_id reason_code : String) (now : ℕ) where
  -- state and updated_at
  abbrev pub moved : Project → Project
  moved row = record (surface.write target row) { updated_at = now }

  unfoldable pub transition_body : Run Db (Unit {0})
  unfolding append_outbox append_transition set_project select_project
  transition_body = do
    row ← select_project project_id
    (λ db. (surface.validate (surface.current row) target, db))
    set_project project_id moved
    append_transition (record {
      transition_id = transition_id;
      project_id = project_id;
      change = surface.change (surface.current row) target;
      actor_id = actor_id;
      reason_code = reason_code;
      created_at = now;
    })
    append_outbox event_id project_id
        (surface.event transition_id (surface.current row) target reason_code) now

  unfoldable pub transition : Run Db Project
  transition = do transaction transition_body; get_project project_id

abbrev pub project_surface : Surface ProjectState
project_surface = record {
  current = λ row. row.project_state;
  write = λ s row. record row { project_state = s };
  validate = validate_project_transition;
  change = on_project;
  event = project_state_changed;
}

abbrev pub execution_surface : Surface ExecutionState
execution_surface = record {
  current = λ row. row.execution_state;
  write = λ s row. record row { execution_state = s };
  validate = validate_execution_transition;
  change = on_execution;
  event = execution_state_changed;
}

abbrev pub delivery_surface : Surface DeliveryState
delivery_surface = record {
  current = λ row. row.delivery_state;
  write = λ s row. record row { delivery_state = s };
  validate = validate_delivery_transition;
  change = on_delivery;
  event = delivery_state_changed;
}

abbrev pub transition_project :
    String → String → String → ProjectState → String → String → ℕ → Run Db Project
transition_project = transition project_surface

abbrev pub transition_execution :
    String → String → String → ExecutionState → String → String → ℕ → Run Db Project
transition_execution = transition execution_surface

abbrev pub transition_delivery :
    String → String → String → DeliveryState → String → String → ℕ → Run Db Project
transition_delivery = transition delivery_surface
