-- ===== src/Store/Jobs/Keys.antt =====
-- The primary key of the job table, and what an UPDATE of it does row by row.
use seeding_plan_backend.Prelude.{
  ◌≡◌, refl, sym, subst, ◌⊎◌, inl, inr, Bool, true, false, some, List, [], ◌∷◌, String, ◌==◌,
  eq_iff, eq_refl, arith, All, All-map, All-In, Option-cases, All-update_where, Grows,
  Grows-update_where, In, first_row, row_count, update_where, Bool-cases,
}
use seeding_plan_backend.Store.{Job}
use seeding_plan_backend.Store.Rows.{precedes}
use seeding_plan_backend.Store.Jobs.{earliest, is_job}

abbrev pub OtherId : String → Job → Type 0
OtherId i y = (y.job_id == i) ≡ false

abbrev pub UniqueIds : List Job → Type 0
UniqueIds [] = Unit
UniqueIds (x ∷ xs) = All (OtherId x.job_id) xs × UniqueIds xs

pub update_where-UniqueIds :
    (p : Job → Bool) (f : Job → Job)
    → ((x : Job) → (f x).job_id ≡ x.job_id)
    → (xs : List Job) → UniqueIds xs
    → UniqueIds (update_where p f xs)
unfolding update_where
update_where-UniqueIds p f k [] u = tt
update_where-UniqueIds p f k (x ∷ xs) u =
    let rest = update_where-UniqueIds p f k xs u.1 in
    let others : All (OtherId x.job_id) (update_where p f xs) =
      All-update_where (OtherId x.job_id) p f (λ y e o. rw (k y) o) xs u.0 in
    elim (Bool-cases (p x)) [ inl e ↦ rw e (rw (k x) others, rest) | inr e ↦ rw e (others, rest) ]

-- A row of the table is the only one with its id.
pub In-UniqueIds :
    (a : Job) (xs : List Job)
    → In a xs
    → UniqueIds xs
    → All (λ y. is_job a.job_id y ≡ true → y ≡ a) xs
In-UniqueIds a [] m u = tt
In-UniqueIds a (x ∷ xs) (inl e) u = (
  λ _. e,
  All-map (OtherId x.job_id) (λ y. is_job a.job_id y ≡ true → y ≡ a) (λ y o t. cc (o, t, e)) xs u.0,
)
In-UniqueIds a (x ∷ xs) (inr m) u = (
  λ t.
      absurd (
        cc
          (All-In (OtherId x.job_id) a xs m u.0, (eq_iff x.job_id a.job_id).0 t, eq_refl a.job_id)),
  In-UniqueIds a xs m u.1,
)

-- What `UPDATE … SET f WHERE p` makes of one row; `P` holds of the rows that it matches.
abbrev pub Changed : (Job → Bool) → (Job → Type 0) → (Job → Job) → Job → Job → Type 0
Changed p P f x y = ((p x ≡ false) × (y ≡ x)) ⊎ (P x × (y ≡ f x))

pub Changed-update_where :
    (P Q : Job → Type 0) (p : Job → Bool) (f : Job → Job)
    → ((x : Job) → Q x → p x ≡ true → P x)
    → (xs : List Job) → All Q xs
    → Grows (Changed p P f) xs (update_where p f xs)
Changed-update_where P Q p f k xs q =
    Grows-update_where (Changed p P f) Q p f (λ x t. inl (t, refl)) (λ x h t. inr (k x h t, refl))
      xs q

pub earliest-In : (xs : List Job) (a : Job) → earliest xs ≡ some a → In a xs
unfolding earliest
earliest-In [] a e = absurd (cc)
earliest-In (x ∷ xs) a e = elim (Option-cases (earliest xs)) [
  | inl n ↦ inl (cc (rw n at e))
  | inr (b, s) ↦ elim (Bool-cases (precedes x.created_at x.job_id b.created_at b.job_id)) [
    | inl t ↦ inl (cc (rw t at (rw s at e)))
    | inr t ↦
        let q : b ≡ a = cc (rw t at (rw s at e)) in
        inr (subst (λ c. In c xs) q (earliest-In xs b s))
  ]
]

-- In a table with unique ids, an UPDATE for one id that matches its row matches one row.
row_count_none : (p : Job → Bool) (xs : List Job) → All (λ y. p y ≡ false) xs → row_count p xs ≡ 0
unfolding row_count
row_count_none p [] h = refl
row_count_none p (x ∷ xs) h = rw (h.0) (omega (arith, row_count_none p xs h.1))

pub row_count_one :
    (p : Job → Bool) (x : Job) (xs : List Job)
    → ((y : Job) → p y ≡ true → is_job x.job_id y ≡ true)
    → In x xs
    → UniqueIds xs
    → p x ≡ true
    → row_count p xs ≡ 1
unfolding row_count
row_count_one p x [] k m u t = elim m [ ]
row_count_one p x (y ∷ ys) k (inl e) u t = rw (subst (λ v. p v ≡ true) (sym e) t) (
    omega (
      arith,
      row_count_none p ys
          (All-map (OtherId y.job_id) (λ z. p z ≡ false) (λ z o. unmatched z o) ys u.0),
    ))
  where
    unmatched : (z : Job) → OtherId y.job_id z → p z ≡ false
    unmatched z o = elim (Bool-cases (p z)) [ inl h ↦ absurd (cc (k z h, o, e)) | inr h ↦ h ]
row_count_one p x (y ∷ ys) k (inr m) u t = elim (Bool-cases (p y)) [
  | inl h ↦ absurd (
      cc (
        All-In (OtherId y.job_id) x ys m u.0,
        (eq_iff y.job_id x.job_id).0 (k y h),
        eq_refl x.job_id,
      ))
  | inr h ↦ rw h (omega (arith, row_count_one p x ys k m u.1 t))
]

head_updated :
    (p : Job → Bool) (f : Job → Job) (y : Job) (ys : List Job)
    → ((y : Job) → (f y).job_id ≡ y.job_id)
    → p y ≡ true
    → first_row (is_job y.job_id) (update_where p f (y ∷ ys)) ≡ some (f y)
unfolding first_row update_where
head_updated p f y ys k t = rw t (rw (k y) (rw (eq_refl y.job_id)))

pub other_id_sym : (a b : String) → (a == b) ≡ false → (b == a) ≡ false
other_id_sym a b h = elim (Bool-cases (b == a)) [
  | inl t ↦ absurd (cc (h, (eq_iff b a).0 t, eq_refl a))
  | inr t ↦ t
]

-- The row with an id, in a table where an UPDATE has changed it.
pub first_row-update_where :
    (p : Job → Bool) (f : Job → Job) (x : Job) (xs : List Job)
    → ((y : Job) → (f y).job_id ≡ y.job_id)
    → In x xs
    → UniqueIds xs
    → p x ≡ true
    → first_row (is_job x.job_id) (update_where p f xs) ≡ some (f x)
unfolding first_row update_where
first_row-update_where p f x [] k m u t = elim m [ ]
first_row-update_where p f x (y ∷ ys) k (inl e) u t =
    subst (λ v. first_row (is_job v.job_id) (update_where p f (y ∷ ys)) ≡ some (f v)) e
      (head_updated p f y ys k (subst (λ v. p v ≡ true) (sym e) t))
first_row-update_where p f x (y ∷ ys) k (inr m) u t =
    let o = other_id_sym x.job_id y.job_id (All-In (OtherId y.job_id) x ys m u.0) in
    let rest = first_row-update_where p f x ys k m u.1 t in
    elim (Bool-cases (p y)) [ inl h ↦ rw h (rw (k y) (rw o rest)) | inr h ↦ rw h (rw o rest) ]

pub first_row_unique :
    (x : Job) (xs : List Job) → In x xs → UniqueIds xs → first_row (is_job x.job_id) xs ≡ some x
unfolding first_row
first_row_unique x [] m u = elim m [ ]
first_row_unique x (y ∷ ys) (inl e) u =
    subst (λ v. first_row (is_job v.job_id) (y ∷ ys) ≡ some v) e (rw (eq_refl y.job_id))
first_row_unique x (y ∷ ys) (inr m) u =
    rw (other_id_sym x.job_id y.job_id (All-In (OtherId y.job_id) x ys m u.0))
      (first_row_unique x ys m u.1)
