-- ===== src/Decision/Union/Roots.antt =====
-- `find` returns the root of a value and leaves every value its root.
use seeding_plan_backend.Prelude.{
  ℕ, zero, suc, ◌≤◌, ◌<◌, ◌≡◌, refl, sym, subst, ◌∙◌, inl, inr, false, some, List, String, ◌==◌,
  length, arith, eq_iff, eq_refl, Bool-cases,
}
use seeding_plan_backend.Errors.{Result, ok, err}
use seeding_plan_backend.Decision.Union.{Node, lookup, set_parent, compressed, find_within, find}
use seeding_plan_backend.Decision.Union.Nodes.{
  lookup-other, lookup-same, inner, inner-le-length, inner-set,
}

-- Along the parents, the value comes to this root in at most so many steps.
pub data Rooted (nodes : List Node) : ℕ → String → String → Type 0 where
  here : (n : ℕ) (v : String) → lookup v nodes ≡ some v → Rooted nodes n v v
  up :
      (n : ℕ) (v p r : String)
      → lookup v nodes ≡ some p
      → (p == v) ≡ false
      → Rooted nodes n p r
      → Rooted nodes (suc n) v r

pub Rooted-root :
    (nodes : List Node) (n : ℕ) (v r : String) → Rooted nodes n v r → lookup r nodes ≡ some r
Rooted-root nodes _ _ _ (here n v e) = e
Rooted-root nodes _ _ _ (up n v p r e d c) = Rooted-root nodes n p r c

pub Rooted-key :
    (nodes : List Node) (n : ℕ) (v r : String)
    → Rooted nodes n v r
    → (p : String) × (lookup v nodes ≡ some p)
Rooted-key nodes _ _ _ (here n v e) = (v, e)
Rooted-key nodes _ _ _ (up n v p r e d c) = (p, e)

pub Rooted-weaken :
    (nodes : List Node) (n m : ℕ) (v r : String) → n ≤ m → Rooted nodes n v r → Rooted nodes m v r
Rooted-weaken nodes _ m _ _ h (here n v e) = here m v e
Rooted-weaken nodes _ zero _ _ h (up n v p r e d c) = absurd (omega (arith, h))
Rooted-weaken nodes _ (suc m) _ _ h (up n v p r e d c) =
    up m v p r e d (Rooted-weaken nodes n m p r (omega (arith, h)) c)

-- A root leads nowhere else.
not_root : (s t : String) (A : Type 0) → (s == t) ≡ false → some s ≡ some t → A
not_root s t A d e = let same : s ≡ t = cc e in absurd (cc (d, (eq_iff s t).1 same))

pub Rooted-unique :
    (nodes : List Node) (n m : ℕ) (v r s : String) → Rooted nodes n v r → Rooted nodes m v s → r ≡ s
Rooted-unique nodes _ _ _ _ _ (here n v e) (here m w f) = refl
Rooted-unique nodes _ _ _ _ _ (here n v e) (up m w p s f d c) = not_root p v (v ≡ s) d (sym f ∙ e)
Rooted-unique nodes _ _ _ _ _ (up n v p r e d c) (here m w f) = not_root p v (r ≡ v) d (sym e ∙ f)
Rooted-unique nodes _ _ _ _ _ (up n v p r e d c) (up m w q s f g k) =
    let same : q ≡ p = cc (e, f) in
    Rooted-unique nodes n m p r s c (subst (λ t. Rooted nodes m t s) same k)

-- The values keep their roots when one of them is linked to its root.
pub compress-Rooted :
    (nodes : List Node) (v r : String) (k : ℕ)
    → Rooted nodes k v r
    → (r == v) ≡ false
    → (n : ℕ) (y s : String) → Rooted nodes n y s
    → Rooted (set_parent v r nodes) n y s
compress-Rooted nodes v r k c d _ _ _ (here n y e) = elim (Bool-cases (y == v)) [
  | inr f ↦ here n y (lookup-other v r y nodes f ∙ e)
  | inl t ↦
      let same : y ≡ v = (eq_iff y v).0 t in
      let root : r ≡ v =
        Rooted-unique nodes k 0 v r v c (here 0 v (subst (λ z. lookup z nodes ≡ some z) same e)) in
      absurd (cc (d, (eq_iff r v).1 root))
]
compress-Rooted nodes v r k c d _ _ _ (up n y p s e g w) = elim (Bool-cases (y == v)) [
  | inr f ↦ up n y p s (lookup-other v r y nodes f ∙ e) g (compress-Rooted nodes v r k c d n p s w)
  | inl t ↦
      let same : y ≡ v = (eq_iff y v).0 t in
      let root : s ≡ r =
        Rooted-unique nodes (suc n) k v s r
          (subst (λ z. Rooted nodes (suc n) z s) same (up n y p s e g w)) c in
      subst (λ z. Rooted (set_parent v r nodes) (suc n) z s) (sym same)
        (subst (Rooted (set_parent v r nodes) (suc n) v) (sym root) (
          up n v r r
            (lookup-same v r (Rooted-key nodes k v r c).0 nodes (Rooted-key nodes k v r c).1) d
            (here n r (lookup-other v r r nodes d ∙ Rooted-root nodes k v r c))))
]

-- Every value keeps its root and the bound on its steps; no entry becomes a root.
pub record Kept (nodes nodes' : List Node) : Type 0 where
  pub roots : (n : ℕ) (y s : String) → Rooted nodes n y s → Rooted nodes' n y s
  pub count : inner nodes ≤ inner nodes'

abbrev pub Finds : List Node → String → Result String × List Node → Type 0
Finds nodes r run = (run.0 ≡ ok r) × Kept nodes run.1

compressed-Finds :
    (nodes : List Node) (n : ℕ) (v p r : String) (run : Result String × List Node)
    → Rooted nodes n v r
    → (r == v) ≡ false
    → Finds nodes r run
    → Finds nodes r (compressed v run)
compressed-Finds nodes n v p r (ok s, nodes') c d (e, k) =
    let same : s ≡ r = cc e in
    rw same (
      refl,
      record {
        roots = λ m y t w. compress-Rooted nodes' v r n (k.roots n v r c) d m y t (k.roots m y t w);
        count = omega (arith, k.count, inner-set v r nodes' d);
      },
    )
compressed-Finds nodes n v p r (err x, nodes') c d (e, k) = absurd (cc e)

find_within-Finds :
    (fuel n : ℕ) (v r : String) (nodes : List Node)
    → Rooted nodes n v r
    → n < fuel
    → Finds nodes r (find_within fuel v nodes)
unfolding find_within
find_within-Finds zero n v r nodes c h = absurd (omega (arith, h))
find_within-Finds (suc fuel) _ _ _ nodes (here n v e) h =
    rw (e, find_within)
      (rw (eq_refl v) (refl, record { roots = λ n y s w. w; count = omega arith }))
find_within-Finds (suc fuel) _ _ _ nodes (up n v p r e d c) h =
    let apart : (r == v) ≡ false = elim (Bool-cases (r == v)) [
      | inr f ↦ f
      | inl t ↦
          let root : lookup v nodes ≡ some v =
            subst (λ z. lookup z nodes ≡ some z) ((eq_iff r v).0 t) (Rooted-root nodes n p r c) in
          not_root p v ((r == v) ≡ false) d (sym e ∙ root)
    ] in
    rw (e, find_within)
      (rw d (
        compressed-Finds nodes (suc n) v p r (find_within fuel p nodes) (up n v p r e d c) apart
          (find_within-Finds fuel n p r nodes c (omega (arith, h)))))

-- A value with a root within as many steps as there are entries that are no roots.
pub find-Finds :
    (nodes : List Node) (v r : String)
    → Rooted nodes (inner nodes) v r
    → Finds nodes r (find v nodes)
unfolding find
find-Finds nodes v r c =
    find_within-Finds (suc (length nodes)) (inner nodes) v r nodes c
      (omega (arith, inner-le-length nodes))
