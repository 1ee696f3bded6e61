-- ===== src/Decision/Union/Nodes.antt =====
-- The dict of the union-find after an assignment, and how many of its entries are no roots.
use seeding_plan_backend.Prelude.{
  ℕ, suc, ◌+◌, ◌≤◌, ◌≡◌, refl, ap, inl, inr, true, false, some, List, [], ◌∷◌, String, ◌==◌, length,
  arith, eq_iff, eq_refl, Bool-cases, if◌then◌else◌,
}
use seeding_plan_backend.Decision.Union.{Node, lookup, set_parent}

pub lookup-cons :
    (v : String) (x : Node) (xs : List Node)
    → lookup v (x ∷ xs) ≡ (if x.value == v then some x.parent else lookup v xs)
unfolding lookup
lookup-cons v x xs = refl

pub set_parent-cons :
    (v p : String) (x : Node) (xs : List Node)
    → set_parent v p (x ∷ xs)
      ≡ (if x.value == v then record x { parent = p } else x) ∷ set_parent v p xs
unfolding set_parent
set_parent-cons v p x xs = refl

pub differ : (s t : String) → (s == t) ≡ false → (t == s) ≡ false
differ s t h = elim (Bool-cases (t == s)) [
  | inr f ↦ f
  | inl e ↦ let same : (s == t) ≡ true = rw ((eq_iff t s).0 e) (eq_refl s) in absurd (cc (h, same))
]

-- the other entries
pub lookup-other :
    (v p y : String) (xs : List Node)
    → (y == v) ≡ false
    → lookup y (set_parent v p xs) ≡ lookup y xs
unfolding lookup set_parent
lookup-other v p y [] h = refl
lookup-other v p y (x ∷ xs) h = elim (Bool-cases (x.value == v)) [
  | inr f ↦ rw (f, lookup-other v p y xs h) refl
  | inl t ↦
      let e : (x.value == y) ≡ false = rw ((eq_iff x.value v).0 t) (differ y v h) in
      rw t (rw e (lookup-other v p y xs h))
]

-- the entry itself, where there is one
pub lookup-same :
    (v p q : String) (xs : List Node) → lookup v xs ≡ some q → lookup v (set_parent v p xs) ≡ some p
unfolding lookup set_parent
lookup-same v p q [] h = absurd (cc h)
lookup-same v p q (x ∷ xs) h = elim (Bool-cases (x.value == v)) [
  | inl t ↦ rw t (rw t refl)
  | inr f ↦ rw f (rw f (lookup-same v p q xs (rw f at h)))
]

abbrev pub outer : Node → ℕ
outer node = if node.parent == node.value then 0 else 1

-- the number of entries that are no roots
unfoldable pub inner : List Node → ℕ
inner [] = 0
inner (x ∷ xs) = outer x + inner xs

pub inner-le-length : (xs : List Node) → inner xs ≤ length xs
unfolding inner
inner-le-length [] = omega arith
inner-le-length (x ∷ xs) = elim (Bool-cases (x.parent == x.value)) [
  | inl t ↦ rw t (omega (arith, inner-le-length xs))
  | inr f ↦ rw f (omega (arith, inner-le-length xs))
]

outer-set :
    (v p : String) (x : Node)
    → (p == v) ≡ false
    → outer x ≤ outer (if x.value == v then record x { parent = p } else x)
outer-set v p x h = elim (Bool-cases (x.value == v)) [
  | inr f ↦ rw f (omega arith)
  | inl t ↦
      let e : (p == x.value) ≡ false = rw ((eq_iff x.value v).0 t) h in
      elim (Bool-cases (x.parent == x.value)) [
        | inl r ↦ rw (t, e, r) (omega arith)
        | inr r ↦ rw (t, e, r) (omega arith)
      ]
]

pub inner-set :
    (v p : String) (xs : List Node) → (p == v) ≡ false → inner xs ≤ inner (set_parent v p xs)
unfolding inner set_parent
inner-set v p [] h = omega arith
inner-set v p (x ∷ xs) h = omega (arith, outer-set v p x h, inner-set v p xs h)

-- a root that is given another parent
pub inner-link :
    (v p : String) (xs : List Node)
    → (p == v) ≡ false
    → lookup v xs ≡ some v
    → suc (inner xs) ≤ inner (set_parent v p xs)
unfolding inner set_parent lookup
inner-link v p [] h r = absurd (cc r)
inner-link v p (x ∷ xs) h r = elim (Bool-cases (x.value == v)) [
  | inr f ↦ let m = inner-link v p xs h (rw f at r) in rw f (omega (arith, m))
  | inl t ↦
      let e : (p == x.value) ≡ false = rw ((eq_iff x.value v).0 t) h in
      let s : some x.parent ≡ some v = rw t at r in
      let same : x.parent ≡ x.value = cc (s, (eq_iff x.value v).0 t) in
      let q : (x.parent == x.value) ≡ true = (eq_iff x.parent x.value).1 same in
      rw (t, e, q) (omega (arith, inner-set v p xs h))
]

pub length-set : (v p : String) (xs : List Node) → length (set_parent v p xs) ≡ length xs
unfolding set_parent
length-set v p [] = refl
length-set v p (x ∷ xs) = ap suc (length-set v p xs)
