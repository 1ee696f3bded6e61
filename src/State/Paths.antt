-- ===== src/State/Paths.antt =====
-- Sequences of validated transitions on each surface: what a project must have passed through.
use seeding_plan_backend.Prelude.{
  ℕ, ◌+◌, ◌≤◌, ◌<◌, ◌≡◌, refl, ◌⊎◌, inl, inr, Bool, true, false, List, [], ◌∷◌, arith, length,
}
use seeding_plan_backend.Errors.{Result, ok}
use seeding_plan_backend.State.{
  ProjectState, ExecutionState, DeliveryState, draft, input_validated, three_chain_ready,
  matrix_ready, waiting_budget, waiting_confirmation, advisory_ready, failed_closed, nothing,
  test_write_authorized, production_create_authorized, write_in_progress, not_released,
  feed_learning, search_eligible, stable, closing, validate_project_transition,
  validate_execution_transition, validate_delivery_transition,
}

-- Every step of the sequence of targets is accepted.
module _ {S : Type 0} (validate : S → S → Result (Unit {0})) where
  abbrev pub Accepted : S → List S → Type 0
  Accepted s [] = Unit
  Accepted s (t ∷ ts) = (validate s t ≡ ok tt) × Accepted t ts

abbrev pub last_of : {S : Type 0} → S → List S → S
last_of s [] = s
last_of s (t ∷ ts) = last_of t ts

-- The state occurs among the targets.
abbrev pub Visits : {S : Type 0} → S → List S → Type 0
Visits s [] = ⊥
Visits s (t ∷ ts) = (t ≡ s) ⊎ Visits s ts

-- Where the states that are not `IsEarly` are entered only through `gate`, a path from an early
-- state to one that is not early passes the gate.
module _ {S : Type 0} (validate : S → S → Result (Unit {0})) (early : S → Bool) (gate : S)
    (step : (s t : S) → early s ≡ true → validate s t ≡ ok tt → (t ≡ gate) ⊎ (early t ≡ true)) where
  gate_visited :
      (s : S) (ts : List S)
      → early s ≡ true
      → Accepted validate s ts
      → early (last_of s ts) ≡ false
      → Visits gate ts
  gate_visited s [] e a l = cc
  gate_visited s (t ∷ ts) e a l = elim (step s t e a.0) [
    | inl g ↦ inl g
    | inr k ↦ inr (gate_visited t ts k a.1 l)
  ]

abbrev unconfirmed : ProjectState → Bool
unconfirmed waiting_confirmation = false
unconfirmed advisory_ready = false
unconfirmed _ = true

unconfirmed_step :
    (s t : ProjectState)
    → unconfirmed s ≡ true
    → validate_project_transition s t ≡ ok tt
    → (t ≡ waiting_confirmation) ⊎ (unconfirmed t ≡ true)
unfolding validate_project_transition
unconfirmed_step s t e a = ground arith

-- A new project whose accepted transitions end in ADVISORY_READY has been in WAITING_CONFIRMATION.
pub advisory_needs_confirmation :
    (ts : List ProjectState)
    → Accepted validate_project_transition draft ts
    → last_of draft ts ≡ advisory_ready
    → Visits waiting_confirmation ts
advisory_needs_confirmation ts a e =
    gate_visited validate_project_transition unconfirmed waiting_confirmation unconfirmed_step draft
      ts refl a (ground arith)

-- Whatever has been accepted so far, further accepted transitions lead the project to CLOSED.
pub project_can_close :
    (s : ProjectState)
    → (ts : List ProjectState) × Accepted validate_project_transition s ts
      × (last_of s ts ≡ ProjectState.closed)
unfolding validate_project_transition
project_can_close draft = (failed_closed ∷ ProjectState.closed ∷ [], (refl, (refl, tt)), refl)
project_can_close input_validated =
    (failed_closed ∷ ProjectState.closed ∷ [], (refl, (refl, tt)), refl)
project_can_close three_chain_ready =
    (failed_closed ∷ ProjectState.closed ∷ [], (refl, (refl, tt)), refl)
project_can_close matrix_ready =
    (failed_closed ∷ ProjectState.closed ∷ [], (refl, (refl, tt)), refl)
project_can_close waiting_confirmation =
    (failed_closed ∷ ProjectState.closed ∷ [], (refl, (refl, tt)), refl)
project_can_close waiting_budget = (ProjectState.closed ∷ [], (refl, tt), refl)
project_can_close advisory_ready = (ProjectState.closed ∷ [], (refl, tt), refl)
project_can_close failed_closed = (ProjectState.closed ∷ [], (refl, tt), refl)
project_can_close ProjectState.closed = ([], tt, refl)

abbrev pub untouched : ExecutionState → Bool
untouched nothing = true
untouched test_write_authorized = true
untouched production_create_authorized = true
untouched _ = false

untouched_step :
    (s t : ExecutionState)
    → untouched s ≡ true
    → validate_execution_transition s t ≡ ok tt
    → (t ≡ write_in_progress) ⊎ (untouched t ≡ true)
unfolding validate_execution_transition
untouched_step s t e a = ground arith

-- Accepted execution transitions from NONE that end in a state which speaks of platform objects
-- (any but NONE and the two authorizations) have gone through WRITE_IN_PROGRESS.
pub execution_needs_write :
    (ts : List ExecutionState)
    → Accepted validate_execution_transition nothing ts
    → untouched (last_of nothing ts) ≡ false
    → Visits write_in_progress ts
execution_needs_write ts a e =
    gate_visited validate_execution_transition untouched write_in_progress untouched_step nothing ts
      refl a e

abbrev delivery_rank : DeliveryState → ℕ
delivery_rank not_released = 0
delivery_rank feed_learning = 1
delivery_rank search_eligible = 2
delivery_rank stable = 3
delivery_rank closing = 4
delivery_rank DeliveryState.closed = 5

delivery_step :
    (s t : DeliveryState)
    → validate_delivery_transition s t ≡ ok tt
    → delivery_rank s < delivery_rank t
unfolding validate_delivery_transition
delivery_step s t a = ground arith

delivery_progress :
    (s : DeliveryState) (ts : List DeliveryState)
    → Accepted validate_delivery_transition s ts
    → delivery_rank s + length ts ≤ 5
delivery_progress s [] a = ground arith
delivery_progress s (t ∷ ts) a = omega (arith, delivery_step s t a.0, delivery_progress t ts a.1)

-- The delivery surface never returns to an earlier state: any accepted sequence of transitions
-- from NOT_RELEASED has at most five steps.
pub delivery_terminates :
    (ts : List DeliveryState)
    → Accepted validate_delivery_transition not_released ts
    → length ts ≤ 5
delivery_terminates ts a = omega (arith, delivery_progress not_released ts a)
