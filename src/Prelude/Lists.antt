-- ===== src/Prelude/Lists.antt =====
-- Lists with Boolean tests and native lengths, and the two SQL forms over a table: the rows that
-- an UPDATE changes, and the first row that a SELECT finds.
use Prim.Native.Nat.{ℕ, suc, ◌+◌, ◌≤◌}
use mathlib.Core.Path.{◌≡◌, refl, sym, subst}
use mathlib.Core.Logic.{◌⊎◌, inl, inr}
use mathlib.Core.Bool.{Bool, true, false, ◌&&◌, ◌||◌}
use mathlib.Core.Option.{Option, none, some}
use mathlib.Core.List.{List, [], ◌∷◌, ◌++◌}
use native.Mathlib.Omega.{arith}
use seeding_plan_backend.Prelude.Tests.{if◌then◌else◌, Bool-cases}

module _ {ℓ} {A : Type ℓ} where
  abbrev pub length : List A → ℕ
  length [] = 0
  length (x ∷ xs) = suc (length xs)

  abbrev pub any : (A → Bool) → List A → Bool
  any p [] = false
  any p (x ∷ xs) = p x || any p xs

  abbrev pub all : (A → Bool) → List A → Bool
  all p [] = true
  all p (x ∷ xs) = p x && all p xs

  -- SELECT … WHERE p
  unfoldable pub where_rows : (A → Bool) → List A → List A
  where_rows p [] = []
  where_rows p (x ∷ xs) = let rest = where_rows p xs in if p x then x ∷ rest else rest

  -- the row that `fetchone` returns
  unfoldable pub first_row : (A → Bool) → List A → Option A
  first_row p [] = none
  first_row p (x ∷ xs) = let rest = first_row p xs in if p x then some x else rest

  -- UPDATE … SET f WHERE p
  unfoldable pub update_where : (A → Bool) → (A → A) → List A → List A
  update_where p f [] = []
  update_where p f (x ∷ xs) = (if p x then f x else x) ∷ update_where p f xs

  -- cursor.rowcount of such an UPDATE
  unfoldable pub row_count : (A → Bool) → List A → ℕ
  row_count p [] = 0
  row_count p (x ∷ xs) = (if p x then 1 else 0) + row_count p xs

-- A predicate on every element.
abbrev pub All {ℓ κ} : {A : Type ℓ} → (A → Type κ) → List A → Type κ
All P [] = Unit
All P (x ∷ xs) = P x × All P xs

-- The rows of the first table come back, related one by one, at the head of the second.
abbrev pub Grows {ℓ} : {A : Type ℓ} → (A → A → Type 0) → List A → List A → Type 0
Grows R [] ys = Unit
Grows R (x ∷ xs) [] = ⊥
Grows R (x ∷ xs) (y ∷ ys) = R x y × Grows R xs ys

-- The value stands in the list.
abbrev pub In : {A : Type 0} → A → List A → Type 0
In a [] = ⊥
In a (x ∷ xs) = (x ≡ a) ⊎ In a xs

module _ {ℓ} {A : Type ℓ} (R : A → A → Type 0) where
  pub Grows-refl : ((x : A) → R x x) → (xs : List A) → Grows R xs xs
  Grows-refl r [] = tt
  Grows-refl r (x ∷ xs) = (r x, Grows-refl r xs)

  pub Grows-append : ((x : A) → R x x) → (xs ys : List A) → Grows R xs (xs ++ ys)
  Grows-append r [] ys = tt
  Grows-append r (x ∷ xs) ys = (r x, Grows-append r xs ys)

  -- An UPDATE relates the rows, if its assignment does on the rows that it matches.
  pub Grows-update_where :
      (Q : A → Type 0) (p : A → Bool) (f : A → A)
      → ((x : A) → p x ≡ false → R x x)
      → ((x : A) → Q x → p x ≡ true → R x (f x))
      → (xs : List A) → All Q xs
      → Grows R xs (update_where p f xs)
  unfolding update_where
  Grows-update_where Q p f r h [] q = tt
  Grows-update_where Q p f r h (x ∷ xs) q = elim (Bool-cases (p x)) [
    | inl e ↦ rw e (h x q.0 e, Grows-update_where Q p f r h xs q.1)
    | inr e ↦ rw e (r x e, Grows-update_where Q p f r h xs q.1)
  ]

-- Two changes of a table, one after the other.
module _ {ℓ} {A : Type ℓ} (R S T : A → A → Type 0) where
  pub Grows-trans :
      ((x y z : A) → R x y → S y z → T x z)
      → (xs ys zs : List A) → Grows R xs ys
      → Grows S ys zs
      → Grows T xs zs
  Grows-trans t [] ys zs h k = tt
  Grows-trans t (x ∷ xs) [] zs h k = elim h [ ]
  Grows-trans t (x ∷ xs) (y ∷ ys) [] h k = elim k [ ]
  Grows-trans t (x ∷ xs) (y ∷ ys) (z ∷ zs) h k = (t x y z h.0 k.0, Grows-trans t xs ys zs h.1 k.1)

module _ {ℓ} {A : Type ℓ} (R S : A → A → Type 0) where
  pub Grows-map : ((x y : A) → R x y → S x y) → (xs ys : List A) → Grows R xs ys → Grows S xs ys
  Grows-map f [] ys h = tt
  Grows-map f (x ∷ xs) [] h = elim h [ ]
  Grows-map f (x ∷ xs) (y ∷ ys) h = (f x y h.0, Grows-map f xs ys h.1)

module _ {ℓ κ} {A : Type ℓ} where
  pub All-map : (P Q : A → Type κ) → ((x : A) → P x → Q x) → (xs : List A) → All P xs → All Q xs
  All-map P Q f [] h = tt
  All-map P Q f (x ∷ xs) h = (f x h.0, All-map P Q f xs h.1)

module _ {A : Type 0} (R : A → A → Type 0) where
  -- A row of the second table comes from one of the first, where the two are of one length.
  pub In-Grows :
      (xs ys : List A) (y : A)
      → length ys ≡ length xs
      → Grows R xs ys
      → In y ys
      → (x : A) × In x xs × R x y
  In-Grows [] [] y l g m = elim m [ ]
  In-Grows [] (z ∷ ys) y l g m = absurd (omega arith)
  In-Grows (x ∷ xs) [] y l g m = elim m [ ]
  In-Grows (x ∷ xs) (z ∷ ys) y l g (inl e) = (x, inl refl, subst (R x) e g.0)
  In-Grows (x ∷ xs) (z ∷ ys) y l g (inr m) =
      let (w, n, r) = In-Grows xs ys y (omega arith) g.1 m in (w, inr n, r)

module _ {A : Type 0} (R : A → A → Type 0) where
  -- Each row of the first table has a successor in the second.
  pub Grows-In : (xs ys : List A) (x : A) → Grows R xs ys → In x xs → (y : A) × In y ys × R x y
  Grows-In [] ys x g m = elim m [ ]
  Grows-In (z ∷ xs) [] x g m = elim g [ ]
  Grows-In (z ∷ xs) (y ∷ ys) x g (inl e) = (y, inl refl, subst (λ v. R v y) e g.0)
  Grows-In (z ∷ xs) (y ∷ ys) x g (inr m) = let (w, n, r) = Grows-In xs ys x g.1 m in (w, inr n, r)

module _ {A : Type 0} (P : A → Type 0) (R : A → A → Type 0) where
  pub All-Grows :
      ((x y : A) → R x y → P x → P y)
      → (xs ys : List A) → length ys ≡ length xs
      → Grows R xs ys
      → All P xs
      → All P ys
  All-Grows k [] [] l g h = tt
  All-Grows k [] (y ∷ ys) l g h = absurd (omega arith)
  All-Grows k (x ∷ xs) [] l g h = elim g [ ]
  All-Grows k (x ∷ xs) (y ∷ ys) l g h = (k x y g.0 h.0, All-Grows k xs ys (omega arith) g.1 h.1)

module _ {κ} {A : Type 0} where
  pub All-In : (P : A → Type κ) (a : A) (xs : List A) → In a xs → All P xs → P a
  All-In P a [] m h = elim m [ ]
  All-In P a (x ∷ xs) (inl e) h = subst P e h.0
  All-In P a (x ∷ xs) (inr m) h = All-In P a xs m h.1

module _ {ℓ κ} {A : Type ℓ} where
  pub All-update_where :
      (P : A → Type κ) (p : A → Bool) (f : A → A)
      → ((x : A) → p x ≡ true → P x → P (f x))
      → (xs : List A) → All P xs
      → All P (update_where p f xs)
  unfolding update_where
  All-update_where P p f k [] h = tt
  All-update_where P p f k (x ∷ xs) h = elim (Bool-cases (p x)) [
    | inl e ↦ rw e (k x e h.0, All-update_where P p f k xs h.1)
    | inr e ↦ rw e (h.0, All-update_where P p f k xs h.1)
  ]

  pub All-append : (P : A → Type κ) (xs ys : List A) → All P xs → All P ys → All P (xs ++ ys)
  All-append P [] ys hx hy = hy
  All-append P (x ∷ xs) ys hx hy = (hx.0, All-append P xs ys hx.1 hy)

  pub All-first_row :
      (P : A → Type κ) (p : A → Bool) (xs : List A) (x : A)
      → first_row p xs ≡ some x
      → All P xs
      → P x
  unfolding first_row
  All-first_row P p [] x e h = cc
  All-first_row P p (y ∷ ys) x e h = elim (Bool-cases (p y)) [
    | inl t ↦ let q : y ≡ x = cc (rw t at e) in subst P q h.0
    | inr t ↦ All-first_row P p ys x (rw t at e) h.1
  ]

module _ {A : Type 0} where
  pub first_row-In : (p : A → Bool) (xs : List A) (x : A) → first_row p xs ≡ some x → In x xs
  unfolding first_row
  first_row-In p [] x e = absurd (cc)
  first_row-In p (y ∷ ys) x e = elim (Bool-cases (p y)) [
    | inl t ↦ inl (cc (rw t at e))
    | inr t ↦ inr (first_row-In p ys x (rw t at e))
  ]

  pub first_row-eq-none :
      (p : A → Bool) (xs : List A) (x : A) → first_row p xs ≡ none → In x xs → p x ≡ false
  unfolding first_row
  first_row-eq-none p [] x e m = elim m [ ]
  first_row-eq-none p (y ∷ ys) x e m = elim (Bool-cases (p y)) [
    | inl t ↦ absurd (cc (rw t at e))
    | inr t ↦ elim m [
      | inl q ↦ subst (λ v. p v ≡ false) q t
      | inr n ↦ first_row-eq-none p ys x (rw t at e) n
    ]
  ]

  pub where_rows-In :
      (p : A → Bool) (a : A) (xs : List A) → In a xs → p a ≡ true → In a (where_rows p xs)
  unfolding where_rows
  where_rows-In p a [] m t = elim m [ ]
  where_rows-In p a (x ∷ xs) m t = elim (Bool-cases (p x)) [
    | inl h ↦ rw h (elim m [ inl e ↦ inl e | inr n ↦ inr (where_rows-In p a xs n t) ])
    | inr h ↦ rw h (elim m [
      | inl e ↦ absurd (cc (subst (λ v. p v ≡ true) (sym e) t))
      | inr n ↦ where_rows-In p a xs n t
    ])
  ]

  -- The row that an UPDATE makes of a row of the table.
  pub In-update_where :
      (p : A → Bool) (f : A → A) (x : A) (xs : List A)
      → In x xs
      → In (if p x then f x else x) (update_where p f xs)
  unfolding update_where
  In-update_where p f x [] m = elim m [ ]
  In-update_where p f x (y ∷ ys) (inl e) =
      inl (subst (λ v. (if p y then f y else y) ≡ (if p v then f v else v)) e refl)
  In-update_where p f x (y ∷ ys) (inr m) = inr (In-update_where p f x ys m)

  pub In-where_rows :
      (p : A → Bool) (a : A) (xs : List A) → In a (where_rows p xs) → In a xs × (p a ≡ true)
  unfolding where_rows
  In-where_rows p a [] m = elim m [ ]
  In-where_rows p a (x ∷ xs) m = elim (Bool-cases (p x)) [
    | inl t ↦ elim (rw t at m) [
      | inl e ↦ (inl e, subst (λ y. p y ≡ true) e t)
      | inr n ↦ let (k, q) = In-where_rows p a xs n in (inr k, q)
    ]
    | inr t ↦ let (k, q) = In-where_rows p a xs (rw t at m) in (inr k, q)
  ]

  pub first_row_sound : (p : A → Bool) (xs : List A) (x : A) → first_row p xs ≡ some x → p x ≡ true
  unfolding first_row
  first_row_sound p [] x e = cc
  first_row_sound p (y ∷ ys) x e = elim (Bool-cases (p y)) [
    | inl t ↦ cc (t, rw t at e)
    | inr t ↦ first_row_sound p ys x (rw t at e)
  ]

  -- A row that a SELECT found before an UPDATE which keeps the SELECT's columns.
  pub first_row-update :
      (p q : A → Bool) (f : A → A)
      → ((x : A) → p (f x) ≡ p x)
      → (xs : List A) (x : A) → first_row p xs ≡ some x
      → first_row p (update_where q f xs) ≡ some (if q x then f x else x)
  unfolding first_row update_where
  first_row-update p q f k [] x e = absurd (cc)
  first_row-update p q f k (y ∷ ys) x e = elim (Bool-cases (p y)) [
    | inl t ↦
        let same : y ≡ x = cc (rw t at e) in
        subst (λ v. first_row p (update_where q f (y ∷ ys)) ≡ some (if q v then f v else v)) same
          (elim (Bool-cases (q y)) [
            | inl h ↦ rw h (rw (k y) (rw t refl))
            | inr h ↦ rw h (rw t refl)
          ])
    | inr t ↦
        let rest = first_row-update p q f k ys x (rw t at e) in
        elim (Bool-cases (q y)) [ inl h ↦ rw h (rw (k y) (rw t rest)) | inr h ↦ rw h (rw t rest) ]
  ]

  -- After an UPDATE that takes its rows out of its own test, none is left.
  pub row_count-update_where :
      (p : A → Bool) (f : A → A)
      → ((x : A) → p (f x) ≡ false)
      → (xs : List A) → row_count p (update_where p f xs) ≡ 0
  unfolding row_count update_where
  row_count-update_where p f k [] = refl
  row_count-update_where p f k (x ∷ xs) = elim (Bool-cases (p x)) [
    | inl h ↦ rw h (rw (k x) (omega (arith, row_count-update_where p f k xs)))
    | inr h ↦ rw h (rw h (omega (arith, row_count-update_where p f k xs)))
  ]

  pub row_count_mono :
      (p q : A → Bool)
      → ((x : A) → p x ≡ true → q x ≡ true)
      → (xs : List A) → row_count p xs ≤ row_count q xs
  unfolding row_count
  row_count_mono p q k [] = omega arith
  row_count_mono p q k (x ∷ xs) = ground (arith, k x, row_count_mono p q k xs)

  pub row_count_pos :
      (p q : A → Bool) (xs : List A) (x : A)
      → first_row p xs ≡ some x
      → q x ≡ true
      → 1 ≤ row_count q xs
  unfolding first_row row_count
  row_count_pos p q [] x e t = absurd (cc)
  row_count_pos p q (y ∷ ys) x e t = elim (Bool-cases (p y)) [
    | inl h ↦
        let same : y ≡ x = cc (rw h at e) in rw (subst (λ v. q v ≡ true) (sym same) t) (omega arith)
    | inr h ↦ omega (arith, row_count_pos p q ys x (rw h at e) t)
  ]

  pub first_row-append :
      (p : A → Bool) (xs : List A) (x : A)
      → first_row p xs ≡ none
      → p x ≡ true
      → first_row p (xs ++ x ∷ []) ≡ some x
  unfolding first_row
  first_row-append p [] x e t = rw t
  first_row-append p (y ∷ ys) x e t = elim (Bool-cases (p y)) [
    | inl h ↦ absurd (cc (rw h at e))
    | inr h ↦ rw h (first_row-append p ys x (rw h at e) t)
  ]

  pub length-update_where :
      (p : A → Bool) (f : A → A) (xs : List A) → length (update_where p f xs) ≡ length xs
  unfolding update_where
  length-update_where p f [] = refl
  length-update_where p f (x ∷ xs) = omega (arith, length-update_where p f xs)

  -- An UPDATE that matches no row leaves the table.
  pub update_where_none :
      (p : A → Bool) (f : A → A) (xs : List A) → row_count p xs ≡ 0 → update_where p f xs ≡ xs
  unfolding update_where row_count
  update_where_none p f [] h = refl
  update_where_none p f (x ∷ xs) h = ground (arith, update_where_none p f xs)
