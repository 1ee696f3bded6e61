-- ===== src/Algorithms/Tests.antt =====
-- A budget of 1000 for two notes, of which each pair of note and audience costs 120.
use seeding_plan_backend.Prelude.{◌+◌, ◌*◌, ◌≤◌, ◌≡◌, refl, arith}
use seeding_plan_backend.Errors.{ok}
use seeding_plan_backend.Algorithms.{CapacityResult, uniform_budget_capacity}
use seeding_plan_backend.Algorithms.Capacity.{capacity_conserves, capacity_maximal}

capacity_conserves_example :
    (r : CapacityResult) × (uniform_budget_capacity 40 3 1000 2 10 8 ≡ ok r)
    × (r.selected_audiences_per_note * 2 * r.pair_cost_fen + r.unallocated_fen ≡ 1000)
    × (r.selected_audiences_per_note ≤ 10)
    × (r.selected_audiences_per_note ≤ 8)
capacity_conserves_example = capacity_conserves 40 3 1000 2 10 8 refl

capacity_maximal_example :
    (r : CapacityResult) × (uniform_budget_capacity 40 3 1000 2 10 8 ≡ ok r)
    × (4 ≤ r.selected_audiences_per_note)
capacity_maximal_example =
    capacity_maximal 40 3 1000 2 10 8 refl 4 (omega arith) (omega arith) (omega arith)
