-- ===== src/Decision/Overlap/Tests.antt =====
-- Three audiences of which two overlap, and the theorem on the choice applied to them. The quotient of
-- two numbers is kept as the pair, and compared by multiplication.
use seeding_plan_backend.Prelude.{
  ℕ, ◌*◌, ◌≡◌, refl, ◌⊎◌, true, false, Bool, List, [], ◌∷◌, String, In, All, leb,
}
use seeding_plan_backend.Errors.{Result, ok}
use seeding_plan_backend.Decision.Overlap.{
  Audience, OverlapEvidence, jaccard, overlap_metrics, population_of, evidence_of, conflicts,
  choose,
}
use seeding_plan_backend.Decision.Overlap.Choice.{Separated, Beaten, choose-Separated}

abbrev Ratio : Type 0
Ratio = ℕ × ℕ

abbrev quotient : ℕ → ℕ → Ratio
quotient m n = (m, n)

abbrev at_least : Ratio → Ratio → Bool
at_least x y = leb (y.0 * x.1) (x.0 * y.1)

abbrev audiences : List Audience
audiences =
    record { audience_id = "a"; population = 100 }
    ∷ record { audience_id = "b"; population = 100 }
    ∷ record { audience_id = "c"; population = 50 }
    ∷ []

abbrev row : String → String → ℕ → OverlapEvidence
row s t n = record { left_audience_id = s; right_audience_id = t; intersection = n }

abbrev evidence : List OverlapEvidence
evidence = row "a" "b" 90 ∷ row "c" "a" 5 ∷ row "b" "c" 0 ∷ []

abbrev verdict : String → String → Result Bool
verdict = conflicts Ratio quotient at_least jaccard (1, 2) audiences evidence

b_a : verdict "b" "a" ≡ ok true
unfolding conflicts overlap_metrics population_of evidence_of
b_a = refl

c_a : verdict "c" "a" ≡ ok false
unfolding conflicts overlap_metrics population_of evidence_of
c_a = refl

c_b : verdict "c" "b" ≡ ok false
unfolding conflicts overlap_metrics population_of evidence_of
c_b = refl

abbrev ranked : List String
ranked = "a" ∷ "b" ∷ "c" ∷ []

choose-Separated_example :
    (chosen rejected : List String) × (choose Ratio quotient at_least jaccard
        (1, 2)
        audiences
        evidence
        []
        []
        ranked
      ≡ ok (chosen, rejected))
    × Separated Ratio quotient at_least jaccard (1, 2) audiences evidence chosen
    × All (Beaten Ratio quotient at_least jaccard (1, 2) audiences evidence chosen) rejected
    × ((x : String) → In x ranked → In x chosen ⊎ In x rejected)
choose-Separated_example =
    choose-Separated Ratio quotient at_least jaccard (1, 2) audiences evidence ranked
      (((true, b_a), ((false, c_a), tt)), (((false, c_b), tt), (tt, tt)))
