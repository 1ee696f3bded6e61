-- ===== src/Algorithms/Capacity.antt =====
-- The capacity that a budget pays for.
use native.Mathlib.Nat.{le-div_iff_mul-le, mul-pos}
use seeding_plan_backend.Prelude.{ℕ, ◌+◌, ◌*◌, ◌/◌, ◌≤◌, ◌<◌, ◌≡◌, refl, true, [], ◌∷◌, arith}
use seeding_plan_backend.Errors.{ok}
use seeding_plan_backend.Algorithms.{
  CapacityResult, all_positive, chosen, capacity, uniform_budget_capacity,
}

module _ (spend days budget notes eligible cap : ℕ)
    (positive : all_positive (spend ∷ days ∷ budget ∷ notes ∷ eligible ∷ cap ∷ []) ≡ true) where
  abbrev cost : ℕ
  cost = spend * days

  notes_pos : 0 < notes
  notes_pos = ground arith

  cost_pos : 0 < cost
  cost_pos = let a : 0 < spend = ground arith in let b : 0 < days = ground arith in mul-pos a b

  -- n audiences for each note fit the slots of the budget exactly where it pays for them
  paid : (n : ℕ) → n ≤ budget / cost / notes → n * notes * cost ≤ budget
  paid n h = (le-div_iff_mul-le cost_pos).0 ((le-div_iff_mul-le notes_pos).0 h)

  affordable : (n : ℕ) → n * notes * cost ≤ budget → n ≤ budget / cost / notes
  affordable n h = (le-div_iff_mul-le notes_pos).1 ((le-div_iff_mul-le cost_pos).1 h)

  -- Where all inputs are positive, `uniform_budget_capacity` returns a result, in which what the
  -- selected audiences cost and what is unallocated add up to the budget, and no more audiences are
  -- selected for a note than are eligible and than the business cap.
  pub capacity_conserves :
      (r : CapacityResult) × (uniform_budget_capacity spend days budget notes eligible cap ≡ ok r)
      × (r.selected_audiences_per_note * notes * r.pair_cost_fen + r.unallocated_fen ≡ budget)
      × (r.selected_audiences_per_note ≤ eligible)
      × (r.selected_audiences_per_note ≤ cap)
  unfolding uniform_budget_capacity
  capacity_conserves =
      let fits = paid (chosen spend days budget notes eligible cap) (omega arith) in
      (
        capacity spend days budget notes eligible cap,
        rw positive refl,
        omega (arith, fits),
        omega arith,
        omega arith,
      )

  -- Where all inputs are positive, no number of audiences for each note that is eligible, within the
  -- business cap and paid for by the budget is greater than the selected one.
  pub capacity_maximal :
      (n : ℕ)
      → n ≤ eligible
      → n ≤ cap
      → n * notes * (spend * days) ≤ budget
      → (r : CapacityResult) × (uniform_budget_capacity spend days budget notes eligible cap ≡ ok r)
        × (n ≤ r.selected_audiences_per_note)
  unfolding uniform_budget_capacity
  capacity_maximal n e c h =
      let fits = affordable n h in
      (capacity spend days budget notes eligible cap, rw positive refl, omega (arith, fits))
