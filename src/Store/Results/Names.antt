-- ===== src/Store/Results/Names.antt =====
-- Which objects a receipt names.
use seeding_plan_backend.Prelude.{
  ℕ, ◌≡◌, ◌≢◌, refl, sym, ap, ◌⊎◌, inl, inr, some, List, [], ◌∷◌, ◌++◌, arith, In, map, eqb, subst,
  Bool-cases, Option-cases,
}
use seeding_plan_backend.Execution.{ObjectIds, PlanReadbackReceipt}
use seeding_plan_backend.Store.{ObjectType}
use seeding_plan_backend.Store.Results.{id_if, typed_ids}
use seeding_plan_backend.Store.Results.Lookup.{number_eq}

-- One of the ids has the type and the number; a campaign or a unit with the number 0 is none.
abbrev pub IsIdOf : ObjectIds → ObjectType → ℕ → Type 0
IsIdOf ids ObjectType.campaign n = (ids.campaign_id ≡ n) × (n ≢ 0)
IsIdOf ids ObjectType.unit n = (ids.unit_id ≡ n) × (n ≢ 0)
IsIdOf ids ObjectType.creativity n = In n ids.creativity_ids

-- The receipt names the object.
abbrev pub Names : PlanReadbackReceipt → ObjectType → ℕ → Type 0
Names r t n = (ids : ObjectIds) × (r.object_ids ≡ some ids) × IsIdOf ids t n

abbrev Key : Type 0
Key = ObjectType × ℕ

In-or : (k : Key) (xs ys : List Key) → In k (xs ++ ys) → In k xs ⊎ In k ys
In-or k [] ys m = inr m
In-or k (x ∷ xs) ys (inl e) = inl (inl e)
In-or k (x ∷ xs) ys (inr m) = elim (In-or k xs ys m) [ inl a ↦ inl (inr a) | inr b ↦ inr b ]

In-left : (k : Key) (xs ys : List Key) → In k xs → In k (xs ++ ys)
In-left k [] ys m = elim m [ ]
In-left k (x ∷ xs) ys (inl e) = inl e
In-left k (x ∷ xs) ys (inr m) = inr (In-left k xs ys m)

In-right : (k : Key) (xs ys : List Key) → In k ys → In k (xs ++ ys)
In-right k [] ys m = m
In-right k (x ∷ xs) ys m = inr (In-right k xs ys m)

In-id_if : (s t : ObjectType) (m n : ℕ) → In (t, n) (id_if s m) → (s ≡ t) × (m ≡ n) × (n ≢ 0)
In-id_if s t m n h = elim (Bool-cases (eqb m 0)) [
  | inl z ↦ elim (rw z at h) [ ]
  | inr z ↦ elim (rw z at h) [
    | inl e ↦
        let same : m ≡ n = ap (λ k. k.1) e in (ap (λ k. k.0) e, same, λ q. absurd (ground arith))
    | inr x ↦ elim x [ ]
  ]
]

id_if-In : (t : ObjectType) (n : ℕ) → n ≢ 0 → In (t, n) (id_if t n)
id_if-In t n h = elim (Bool-cases (eqb n 0)) [
  | inl z ↦ absurd (h (number_eq n 0 z))
  | inr z ↦ rw z (inl refl)
]

abbrev creativity : ℕ → Key
creativity n = (ObjectType.creativity, n)

In-creativities :
    (t : ObjectType) (n : ℕ) (ns : List ℕ)
    → In {A = Key} (t, n) (map creativity ns)
    → (ObjectType.creativity ≡ t) × In n ns
In-creativities t n [] m = elim m [ ]
In-creativities t n (m ∷ ms) (inl e) = (ap (λ (k : Key). k.0) e, inl (ap (λ (k : Key). k.1) e))
In-creativities t n (m ∷ ms) (inr h) = let (a, b) = In-creativities t n ms h in (a, inr b)

creativities-In : (n : ℕ) (ns : List ℕ) → In n ns → In (creativity n) (map creativity ns)
creativities-In n [] m = elim m [ ]
creativities-In n (m ∷ ms) (inl e) = inl (ap creativity e)
creativities-In n (m ∷ ms) (inr h) = inr (creativities-In n ms h)

-- The keys that the loop goes through are those of the ids.
typed_ids-IsIdOf :
    (ids : ObjectIds) (t : ObjectType) (n : ℕ) → In (t, n) (typed_ids (some ids)) → IsIdOf ids t n
typed_ids-IsIdOf ids t n h =
    let u = id_if ObjectType.unit ids.unit_id in
    let cs = map creativity ids.creativity_ids in
    elim (In-or (t, n) (id_if ObjectType.campaign ids.campaign_id) (u ++ cs) h) [
      | inl a ↦
          let (e, f, g) = In-id_if ObjectType.campaign t ids.campaign_id n a in
          subst (λ k. IsIdOf ids k n) e (f, g)
      | inr b ↦ elim (In-or (t, n) u cs b) [
        | inl a ↦
            let (e, f, g) = In-id_if ObjectType.unit t ids.unit_id n a in
            subst (λ k. IsIdOf ids k n) e (f, g)
        | inr c ↦
            let (e, m) = In-creativities t n ids.creativity_ids c in subst (λ k. IsIdOf ids k n) e m
      ]
    ]

IsIdOf-typed_ids :
    (ids : ObjectIds) (t : ObjectType) (n : ℕ) → IsIdOf ids t n → In (t, n) (typed_ids (some ids))
IsIdOf-typed_ids ids ObjectType.campaign n (e, h) =
    In-left (ObjectType.campaign, n) (id_if ObjectType.campaign ids.campaign_id) _
      (rw e (id_if-In ObjectType.campaign n h))
IsIdOf-typed_ids ids ObjectType.unit n (e, h) =
    In-right (ObjectType.unit, n) (id_if ObjectType.campaign ids.campaign_id) _
      (In-left (ObjectType.unit, n) (id_if ObjectType.unit ids.unit_id) _
        (rw e (id_if-In ObjectType.unit n h)))
IsIdOf-typed_ids ids ObjectType.creativity n h =
    In-right (ObjectType.creativity, n) (id_if ObjectType.campaign ids.campaign_id) _
      (In-right (ObjectType.creativity, n) (id_if ObjectType.unit ids.unit_id) _
        (creativities-In n ids.creativity_ids h))

pub typed_ids-Names :
    (r : PlanReadbackReceipt) (t : ObjectType) (n : ℕ)
    → In (t, n) (typed_ids r.object_ids)
    → Names r t n
typed_ids-Names r t n h = elim (Option-cases r.object_ids) [
  | inl e ↦ elim (subst (λ o. In (t, n) (typed_ids o)) e h) [ ]
  | inr (ids, e) ↦ (ids, e, typed_ids-IsIdOf ids t n (subst (λ o. In (t, n) (typed_ids o)) e h))
]

pub Names-typed_ids :
    (r : PlanReadbackReceipt) (t : ObjectType) (n : ℕ)
    → Names r t n
    → In (t, n) (typed_ids r.object_ids)
Names-typed_ids r t n (ids, e, h) =
    subst (λ o. In (t, n) (typed_ids o)) (sym e) (IsIdOf-typed_ids ids t n h)
