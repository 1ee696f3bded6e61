-- ===== src/Store/Results/Lookup.antt =====
-- What is found in the store after the result of an execution was recorded.
use seeding_plan_backend.Prelude.{
  ℕ, ◌≡◌, refl, sym, ap, ◌∙◌, Bool, true, false, Option, some, List, [], ◌∷◌, String, ◌==◌, ◌&&◌,
  arith, inl, inr, first_row, eqb, eq_iff, eq_refl, Bool-cases, if◌then◌else◌,
}
use seeding_plan_backend.Store.{ObjectType, PlatformObject}
use seeding_plan_backend.Store.Results.{same_type, is_object, put_object, put_objects}

both : (a b : Bool) → (a && b) ≡ true → (a ≡ true) × (b ≡ true)
both true b h = (refl, h)
both false b h = absurd (cc h)

pub type_refl : (t : ObjectType) → same_type t t ≡ true
type_refl ObjectType.campaign = refl
type_refl ObjectType.unit = refl
type_refl ObjectType.creativity = refl

pub type_eq : (s t : ObjectType) → same_type s t ≡ true → s ≡ t
type_eq ObjectType.campaign ObjectType.campaign h = refl
type_eq ObjectType.campaign ObjectType.unit h = absurd (cc h)
type_eq ObjectType.campaign ObjectType.creativity h = absurd (cc h)
type_eq ObjectType.unit ObjectType.campaign h = absurd (cc h)
type_eq ObjectType.unit ObjectType.unit h = refl
type_eq ObjectType.unit ObjectType.creativity h = absurd (cc h)
type_eq ObjectType.creativity ObjectType.campaign h = absurd (cc h)
type_eq ObjectType.creativity ObjectType.unit h = absurd (cc h)
type_eq ObjectType.creativity ObjectType.creativity h = refl

pub number_eq : (m n : ℕ) → eqb m n ≡ true → m ≡ n
number_eq m n h = ground arith

pub number_refl : (n : ℕ) → eqb n n ≡ true
number_refl n = ground arith

pub key :
    (p : String) (t : ObjectType) (n : ℕ) (x : PlatformObject)
    → is_object p t n x ≡ true
    → (x.project_id ≡ p) × (x.object_type ≡ t) × (x.value ≡ n)
key p t n x h =
    let (r, c) = both (x.project_id == p && same_type x.object_type t) (eqb x.value n) h in
    let (a, b) = both (x.project_id == p) (same_type x.object_type t) r in
    ((eq_iff x.project_id p).0 a, type_eq x.object_type t b, number_eq x.value n c)

is_object_refl : (x : PlatformObject) → is_object x.project_id x.object_type x.value x ≡ true
is_object_refl x = rw (eq_refl x.project_id, type_refl x.object_type, number_refl x.value) refl

module _ (p : String) (t : ObjectType) (n : ℕ) where
  -- Two rows of one key.
  alike :
      (r x : PlatformObject)
      → is_object r.project_id r.object_type r.value x ≡ true
      → is_object p t n x ≡ is_object p t n r
  alike r x h =
      let (a, b, c) = key r.project_id r.object_type r.value x h in
      λ i. a i == p && same_type (b i) t && eqb (c i) n

  of_key :
      (r x : PlatformObject)
      → is_object p t n r ≡ true
      → is_object p t n x ≡ true
      → is_object r.project_id r.object_type r.value x ≡ true
  of_key r x h k =
      let (a, b, c) = key p t n r h in
      let (d, e, f) = key p t n x k in
      (λ i.
        x.project_id == (a ∙ sym d) i
        && same_type x.object_type ((b ∙ sym e) i)
        && eqb x.value ((c ∙ sym f) i))
      ∙ is_object_refl x

  first_row-put :
      (r : PlatformObject) (table : List PlatformObject)
      → first_row (is_object p t n) (put_object r table)
        ≡ (if is_object p t n r then some r else first_row (is_object p t n) table)
  unfolding put_object first_row
  first_row-put r [] = refl
  first_row-put r (x ∷ xs) = elim (Bool-cases (is_object r.project_id r.object_type r.value x)) [
    | inl same ↦ elim (Bool-cases (is_object p t n r)) [
      | inl h ↦ rw (same, h) (first_row-put r xs ∙ rw h refl)
      | inr h ↦ rw (same, h, alike r x same) (rw h (first_row-put r xs ∙ rw h refl))
    ]
    | inr apart ↦ elim (Bool-cases (is_object p t n x)) [
      | inl k ↦ elim (Bool-cases (is_object p t n r)) [
        | inl h ↦ absurd (cc (apart, of_key r x h k))
        | inr h ↦ rw (apart, h) (rw k refl)
      ]
      | inr k ↦ rw apart (rw k (first_row-put r xs))
    ]
  ]

  -- The last row of the key, or what was found before.
  abbrev pub latest : List PlatformObject → Option PlatformObject → Option PlatformObject
  latest [] before = before
  latest (r ∷ rs) before = latest rs (if is_object p t n r then some r else before)

  pub first_row-put_objects :
      (rows table : List PlatformObject)
      → first_row (is_object p t n) (put_objects rows table)
        ≡ latest rows (first_row (is_object p t n) table)
  unfolding put_objects
  first_row-put_objects [] table = refl
  first_row-put_objects (r ∷ rs) table =
      first_row-put_objects rs (put_object r table) ∙ ap (latest rs) (first_row-put r table)
