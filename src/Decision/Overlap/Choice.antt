-- ===== src/Decision/Overlap/Choice.antt =====
-- The chosen audiences of a mode do not overlap, and every rejected one overlaps a chosen one.
use seeding_plan_backend.Prelude.{
  ℕ, ◌≡◌, refl, subst, ◌⊎◌, inl, inr, Bool, true, false, List, [], ◌∷◌, ◌++◌, String, In, All,
  All-append, All-map,
}
use seeding_plan_backend.Errors.{Result, ok}
use seeding_plan_backend.Decision.Overlap.{
  Audience, OverlapEvidence, OverlapPolicy, conflicts, is_rejected, choose,
}

In-left : (x : String) (xs ys : List String) → In x xs → In x (xs ++ ys)
In-left x [] ys m = elim m [ ]
In-left x (y ∷ xs) ys (inl e) = inl e
In-left x (y ∷ xs) ys (inr m) = inr (In-left x xs ys m)

In-last : (x : String) (xs : List String) → In x (xs ++ x ∷ [])
In-last x [] = inl refl
In-last x (y ∷ xs) = inr (In-last x xs)

module _ (Float : Type 0) (quotient : ℕ → ℕ → Float) (at_least : Float → Float → Bool)
    (policy : OverlapPolicy) (threshold : Float) (audiences : List Audience)
    (evidence : List OverlapEvidence) where
  abbrev pub Verdict : String → String → Bool → Type 0
  Verdict c d b = conflicts Float quotient at_least policy threshold audiences evidence c d ≡ ok b

  -- Of any two, the later does not conflict with the earlier.
  abbrev pub Separated : List String → Type 0
  Separated [] = Unit
  Separated (d ∷ ds) = All (λ c. Verdict c d false) ds × Separated ds

  -- The candidate conflicts with one of the chosen.
  abbrev pub Beaten : List String → String → Type 0
  Beaten chosen c = (d : String) × In d chosen × Verdict c d true

  -- There is a verdict on the candidate for each of the others.
  abbrev pub Against : List String → String → Type 0
  Against chosen c = All (λ d. (b : Bool) × Verdict c d b) chosen

  -- Of any two, there is a verdict on the later for the earlier.
  abbrev pub Decided : List String → Type 0
  Decided [] = Unit
  Decided (d ∷ cs) = All (λ c. (b : Bool) × Verdict c d b) cs × Decided cs

  Against-snoc :
      (d : String) (chosen cs : List String)
      → All (Against chosen) cs
      → All (λ c. (b : Bool) × Verdict c d b) cs
      → All (Against (chosen ++ d ∷ [])) cs
  Against-snoc d chosen [] a v = tt
  Against-snoc d chosen (c ∷ cs) a v = (
    All-append (λ x. (b : Bool) × Verdict c x b) chosen (d ∷ []) a.0 (v.0, tt),
    Against-snoc d chosen cs a.1 v.1,
  )

  Separated-snoc :
      (c : String) (ds : List String)
      → Separated ds
      → All (λ d. Verdict c d false) ds
      → Separated (ds ++ c ∷ [])
  Separated-snoc c [] s a = (tt, tt)
  Separated-snoc c (d ∷ ds) s a =
      (All-append (λ x. Verdict x d false) ds (c ∷ []) s.0 (a.0, tt), Separated-snoc c ds s.1 a.1)

  -- The inner loop.
  pub data Inspected (c : String) (chosen : List String) (r : Result Bool) : Type 0 where
    beaten : r ≡ ok true → Beaten chosen c → Inspected c chosen r
    apart : r ≡ ok false → All (λ d. Verdict c d false) chosen → Inspected c chosen r

  is_rejected-Inspected :
      (c : String) (chosen : List String)
      → Against chosen c
      → Inspected c chosen
          (is_rejected Float quotient at_least policy threshold audiences evidence c chosen)
  unfolding is_rejected
  is_rejected-Inspected c [] h = apart refl tt
  is_rejected-Inspected c (d ∷ ds) h = go h.0 (is_rejected-Inspected c ds h.1)
    where
      go :
          (b : Bool) × Verdict c d b
          → Inspected c ds
              (is_rejected Float quotient at_least policy threshold audiences evidence c ds)
          → Inspected c
              (d ∷ ds)
              (is_rejected Float quotient at_least policy threshold audiences evidence c (d ∷ ds))
      go (true, v) k = beaten (rw (v, is_rejected) refl) (d, inl refl, v)
      go (false, v) k = elim k [
        | beaten e (x, m, w) ↦ beaten (rw (v, is_rejected) e) (x, inr m, w)
        | apart e a ↦ apart (rw (v, is_rejected) e) (v, a)
      ]

  -- What the outer loop returns, begun with some chosen and some rejected values.
  pub record Chosen (was_chosen was_rejected ranked : List String)
      (r : Result (List String × List String)) : Type 0 where
    pub chosen : List String
    pub rejected : List String
    pub returned : r ≡ ok (chosen, rejected)
    pub separated : Separated chosen
    pub beaten_by : All (Beaten chosen) rejected
    pub grows : (x : String) → In x was_chosen → In x chosen
    pub lists : (x : String) → In x was_rejected → In x rejected
    pub covers : (x : String) → In x ranked → In x chosen ⊎ In x rejected

  Beaten-grows :
      (xs ys zs : List String)
      → ((x : String) → In x xs → In x ys)
      → All (Beaten xs) zs
      → All (Beaten ys) zs
  Beaten-grows xs ys zs g = All-map (Beaten xs) (Beaten ys) (λ c b. (b.0, g b.0 b.1, b.2)) zs

  choose-Chosen :
      (ranked chosen rejected : List String)
      → Decided ranked
      → All (Against chosen) ranked
      → Separated chosen
      → All (Beaten chosen) rejected
      → Chosen chosen rejected ranked (
          choose Float quotient at_least policy threshold audiences evidence chosen rejected ranked)
  unfolding choose
  choose-Chosen [] chosen rejected v a s b = record {
    chosen = chosen;
    rejected = rejected;
    returned = refl;
    separated = s;
    beaten_by = b;
    grows = λ x m. m;
    lists = λ x m. m;
    covers = λ x m. elim m [ ];
  }
  choose-Chosen (c ∷ cs) chosen rejected v a s b = elim (is_rejected-Inspected c chosen a.0) [
    | beaten e w ↦
        let k =
          choose-Chosen cs chosen (rejected ++ c ∷ []) v.1 a.1 s
            (All-append (Beaten chosen) rejected (c ∷ []) b (w, tt)) in
        rw (e, choose)
          (record {
            chosen = k.chosen;
            rejected = k.rejected;
            returned = k.returned;
            separated = k.separated;
            beaten_by = k.beaten_by;
            grows = k.grows;
            lists = λ x m. k.lists x (In-left x rejected (c ∷ []) m);
            covers = λ x m. elim m [
              | inl q ↦ inr (subst (λ t. In t k.rejected) q (k.lists c (In-last c rejected)))
              | inr n ↦ k.covers x n
            ];
          })
    | apart e apart_all ↦
        let k =
          choose-Chosen cs (chosen ++ c ∷ []) rejected v.1 (Against-snoc c chosen cs a.1 v.0)
            (Separated-snoc c chosen s apart_all)
            (Beaten-grows chosen (chosen ++ c ∷ []) rejected (λ x m. In-left x chosen (c ∷ []) m)
              b) in
        rw (e, choose)
          (record {
            chosen = k.chosen;
            rejected = k.rejected;
            returned = k.returned;
            separated = k.separated;
            beaten_by = k.beaten_by;
            grows = λ x m. k.grows x (In-left x chosen (c ∷ []) m);
            lists = k.lists;
            covers = λ x m. elim m [
              | inl q ↦ inl (subst (λ t. In t k.chosen) q (k.grows c (In-last c chosen)))
              | inr n ↦ k.covers x n
            ];
          })
  ]

  All-Against : (xs : List String) → All (Against []) xs
  All-Against [] = tt
  All-Against (x ∷ xs) = (tt, All-Against xs)

  -- Where of any two ranked audiences there is a verdict on the later for the earlier (evidence, and
  -- populations that it fits), the choice returns. No chosen
  -- audience conflicts with one chosen before it, every rejected one conflicts with a chosen one, and
  -- every ranked audience is among the chosen or the rejected ones.
  pub choose-Separated :
      (ranked : List String)
      → Decided ranked
      → (chosen rejected : List String) × (choose Float quotient at_least policy threshold audiences
            evidence [] [] ranked
          ≡ ok (chosen, rejected))
        × Separated chosen
        × All (Beaten chosen) rejected
        × ((x : String) → In x ranked → In x chosen ⊎ In x rejected)
  choose-Separated ranked v =
      let k = choose-Chosen ranked [] [] v (All-Against ranked) tt tt in
      (k.chosen, k.rejected, k.returned, k.separated, k.beaten_by, k.covers)
