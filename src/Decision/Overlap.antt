-- ===== src/Decision/Overlap.antt =====
-- app/seeding/decision.py: the part of `evaluate_audiences` that chooses among the ranked audiences by
-- their overlaps, and `overlap_metrics` of app/seeding/algorithms.py. Python's floats are a type with
-- its division of integers and its `>=`, all three parameters.
pub mod Choice
pub mod Tests
use seeding_plan_backend.Prelude.{
  ℕ, ◌+◌, ◌-◌, Bool, true, false, not, Option, none, some, List, [], ◌∷◌, ◌++◌, String, ◌==◌, ◌&&◌,
  ◌||◌, min, leb, eqb, if◌then◌else◌,
}
use seeding_plan_backend.Errors.{
  Result, ok, err, seeding, value_error, unexpected, duplicate_overlap_evidence,
  source_proof_missing,
}
use Prim.Native.Nat.{Ordering}
use Prim.Native.String.{compare}

pub record Audience : Type 0 where
  pub audience_id : String
  pub population : ℕ

pub record OverlapEvidence : Type 0 where
  pub left_audience_id : String
  pub right_audience_id : String
  pub intersection : ℕ

-- the policies under which audiences are rejected
pub data OverlapPolicy : Type 0 where
  directional_containment jaccard : OverlapPolicy

-- tuple(sorted((left, right)))
abbrev pub pair_key : String → String → String × String
pair_key s t = elim (compare s t) [ Ordering.gt ↦ (t, s) | _ ↦ (s, t) ]

abbrev pub same_key : String × String → OverlapEvidence → Bool
same_key key row =
    let k = pair_key row.left_audience_id row.right_audience_id in key.0 == k.0 && key.1 == k.1

-- evidence.get(key), where one row of a key is allowed
unfoldable pub evidence_of : String × String → List OverlapEvidence → Option OverlapEvidence
evidence_of key [] = none
evidence_of key (row ∷ rows) =
    let rest = evidence_of key rows in if same_key key row then some row else rest

abbrev pub is_there : Option OverlapEvidence → Bool
is_there none = false
is_there (some _) = true

-- the loop that fills the dict, over the rows in the order of the request
unfoldable pub index_evidence :
    List OverlapEvidence → List OverlapEvidence → Result (List OverlapEvidence)
unfolding evidence_of
index_evidence seen [] = ok seen
index_evidence seen (row ∷ rows) =
    let rest = index_evidence (seen ++ row ∷ []) rows in
    if is_there (evidence_of (pair_key row.left_audience_id row.right_audience_id) seen)
    then err (seeding duplicate_overlap_evidence)
    else rest

-- by_id[audience_id]: the last audience of the id
unfoldable pub population_of : String → List Audience → Option ℕ
population_of i [] = none
population_of i (a ∷ rest) = elim (population_of i rest) [
  | some n ↦ some n
  | none ↦ if a.audience_id == i then some a.population else none
]

module _ (Float : Type 0) (quotient : ℕ → ℕ → Float) (at_least : Float → Float → Bool) where
  pub record OverlapMetrics : Type 0 where
    pub contain_left_from_right : Float
    pub contain_right_from_left : Float
    pub jaccard : Float

  unfoldable pub overlap_metrics : ℕ → ℕ → ℕ → Result OverlapMetrics
  overlap_metrics left right intersection =
      if eqb left 0 || eqb right 0
      then err value_error
      else if not (leb intersection (min left right))
      then err value_error
      else ok (record {
        contain_left_from_right = quotient intersection right;
        contain_right_from_left = quotient intersection left;
        jaccard = quotient intersection (left + right - intersection);
      })

  module _ (policy : OverlapPolicy) (threshold : Float) (audiences : List Audience)
      (evidence : List OverlapEvidence) where
    abbrev pub too_close : OverlapMetrics → Bool
    too_close m = elim policy [
      | directional_containment ↦
          at_least m.contain_left_from_right threshold
          || at_least m.contain_right_from_left threshold
      | jaccard ↦ at_least m.jaccard threshold
    ]

    abbrev pub judge : Result OverlapMetrics → Result Bool
    judge (ok m) = ok (too_close m)
    judge (err e) = err e

    abbrev pub measure : Option ℕ → Option ℕ → OverlapEvidence → Result Bool
    measure (some left) (some right) row = judge (overlap_metrics left right row.intersection)
    measure _ _ row = err unexpected

    -- whether the candidate is rejected for a chosen one
    unfoldable pub conflicts : String → String → Result Bool
    unfolding overlap_metrics population_of evidence_of
    conflicts candidate chosen = elim (evidence_of (pair_key candidate chosen) evidence) [
      | none ↦ err (seeding source_proof_missing)
      | some row ↦ measure (population_of candidate audiences) (population_of chosen audiences) row
    ]

    -- the loop over the chosen ones, left at the first conflict
    unfoldable pub is_rejected : String → List String → Result Bool
    unfolding conflicts
    is_rejected candidate [] = ok false
    is_rejected candidate (d ∷ ds) = elim (conflicts candidate d) [
      | err e ↦ err e
      | ok true ↦ ok true
      | ok false ↦ is_rejected candidate ds
    ]

    -- the loop over the ranked audiences of a mode: the chosen and the rejected ones
    unfoldable pub choose :
        List String → List String → List String → Result (List String × List String)
    unfolding is_rejected
    choose chosen rejected [] = ok (chosen, rejected)
    choose chosen rejected (c ∷ cs) = elim (is_rejected c chosen) [
      | err e ↦ err e
      | ok true ↦ choose chosen (rejected ++ c ∷ []) cs
      | ok false ↦ choose (chosen ++ c ∷ []) rejected cs
    ]
