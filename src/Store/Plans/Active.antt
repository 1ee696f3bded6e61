-- ===== src/Store/Plans/Active.antt =====
-- The table of plan revisions under one replacement: distinct ids, and at most one ACTIVE revision
-- for each logical plan and stage.
use seeding_plan_backend.Prelude.{
  ◌≡◌, refl, inl, inr, Bool, true, false, List, [], ◌∷◌, String, ◌==◌, ◌&&◌, ◌||◌, arith, any, All,
  All-update_where, first_row, update_where, Option-cases, Bool-cases, eq_iff, eq_refl,
  if◌then◌else◌,
}
use seeding_plan_backend.Store.{PlanRevision}
use seeding_plan_backend.Store.Plans.{
  is_active, is_current, is_revision, supersede, supersede_found,
}

-- The first row does not share its id with the second, and not its key and stage where both are ACTIVE.
abbrev pub Apart : PlanRevision → PlanRevision → Type 0
Apart x y =
    (is_revision y.plan_revision_id x ≡ false)
    × ((is_current y.logical_plan_key y.stage x && is_active y.revision_status) ≡ false)

abbrev pub Sound : List PlanRevision → Type 0
Sound [] = Unit
Sound (x ∷ xs) = All (Apart x) xs × Sound xs

pub not_any :
    (p : PlanRevision → Bool) (xs : List PlanRevision)
    → All (λ x. p x ≡ false) xs
    → any p xs ≡ false
not_any p [] h = refl
not_any p (x ∷ xs) h = rw (h.0) (not_any p xs h.1)

pub any_not :
    (p : PlanRevision → Bool) (xs : List PlanRevision)
    → any p xs ≡ false
    → All (λ x. p x ≡ false) xs
any_not p [] h = tt
any_not p (x ∷ xs) h = (ground arith, any_not p xs (ground arith))

pub parts : (a b c : Bool) → (a && b && c) ≡ true → (a ≡ true) × (b ≡ true) × (c ≡ true)
parts a b c h = ground arith

joined :
    (a b c d : Bool) → a ≡ true → b ≡ true → c ≡ true → d ≡ true → ((a && b && c) && d) ≡ false → ⊥
joined a b c d p q r t h = ground arith

pub same_text : (a b k : String) → (a == k) ≡ true → (b == k) ≡ true → (a == b) ≡ true
same_text a b k p q = rw ((eq_iff a k).0 p) (rw ((eq_iff b k).0 q) (eq_refl k))

-- A current row and one apart from it are not both current.
only_current :
    (k s : String) (x y : PlanRevision)
    → is_current k s x ≡ true
    → Apart x y
    → is_current k s y ≡ false
only_current k s x y c a = elim (Bool-cases (is_current k s y)) [
  | inr f ↦ f
  | inl t ↦
      let (xk, xs, xa) =
        parts (x.logical_plan_key == k) (x.stage == s) (is_active x.revision_status) c in
      let (yk, ys, ya) =
        parts (y.logical_plan_key == k) (y.stage == s) (is_active y.revision_status) t in
      let key : (x.logical_plan_key == y.logical_plan_key) ≡ true =
        same_text x.logical_plan_key y.logical_plan_key k xk yk in
      let stage : (x.stage == y.stage) ≡ true = same_text x.stage y.stage s xs ys in
      absurd (
        joined (x.logical_plan_key == y.logical_plan_key) (x.stage == y.stage)
          (is_active x.revision_status) (is_active y.revision_status) key stage xa ya a.1)
]

dead : (a b : Bool) → (a && b && false) ≡ false
dead a b = ground arith

ended : (a b c : Bool) → ((a && b && false) && c) ≡ false
ended a b c = ground arith

unclash : (a : Bool) → (a && false) ≡ false
unclash a = ground arith

pub halves : (a b : Bool) → (a || b) ≡ false → (a ≡ false) × (b ≡ false)
halves a b h = ground arith

-- superseding some rows of a table
module _ (q : PlanRevision → Bool) where
  head_not :
      (k s : String) (x : PlanRevision)
      → is_current k s x ≡ false
      → is_current k s (if q x then supersede x else x) ≡ false
  head_not k s x f = elim (Bool-cases (q x)) [
    | inl t ↦ rw t (dead (x.logical_plan_key == k) (x.stage == s))
    | inr n ↦ rw n f
  ]

  still_not :
      (k s : String) (rows : List PlanRevision)
      → any (is_current k s) rows ≡ false
      → any (is_current k s) (update_where q supersede rows) ≡ false
  unfolding update_where
  still_not k s [] h = refl
  still_not k s (x ∷ xs) h =
      let (f, g) = halves (is_current k s x) (any (is_current k s) xs) h in
      rw (head_not k s x f) (still_not k s xs g)

  pub same_ids :
      (i : String) (rows : List PlanRevision)
      → any (is_revision i) (update_where q supersede rows) ≡ any (is_revision i) rows
  unfolding update_where
  same_ids i [] = refl
  same_ids i (x ∷ xs) = elim (Bool-cases (q x)) [
    | inl t ↦ rw t (rw (same_ids i xs) refl)
    | inr f ↦ rw f (rw (same_ids i xs) refl)
  ]

  Apart-quiet : (x y : PlanRevision) → Apart x y → Apart (if q x then supersede x else x) y
  Apart-quiet x y a = elim (Bool-cases (q x)) [
    | inr f ↦ rw f a
    | inl t ↦ rw t (
      a.0,
      ended (x.logical_plan_key == y.logical_plan_key) (x.stage == y.stage)
          (is_active y.revision_status),
    )
  ]

  Apart-quiets :
      (x : PlanRevision) (xs : List PlanRevision)
      → All (Apart x) xs
      → All (Apart (if q x then supersede x else x)) xs
  Apart-quiets x [] h = tt
  Apart-quiets x (y ∷ ys) h = (Apart-quiet x y h.0, Apart-quiets x ys h.1)

  quiet-Apart : (x y : PlanRevision) → q y ≡ true → Apart x y → Apart x (supersede y)
  quiet-Apart x y t a = (a.0, unclash (is_current y.logical_plan_key y.stage x))

  pub Sound-update_where :
      (rows : List PlanRevision) → Sound rows → Sound (update_where q supersede rows)
  unfolding update_where
  Sound-update_where [] s = tt
  Sound-update_where (x ∷ xs) s = (
    All-update_where (Apart (if q x then supersede x else x)) q supersede
        (λ y t a. quiet-Apart (if q x then supersede x else x) y t a) xs (Apart-quiets x xs s.0),
    Sound-update_where xs s.1,
  )

others_not :
    (k s : String) (x : PlanRevision) (xs : List PlanRevision)
    → is_current k s x ≡ true
    → All (Apart x) xs
    → All (λ y. is_current k s y ≡ false) xs
others_not k s x [] c h = tt
others_not k s x (y ∷ ys) c h = (only_current k s x y c h.0, others_not k s x ys c h.1)

-- After the SELECT and the UPDATE no row of the key and stage is ACTIVE.
pub none_current :
    (k s : String) (rows : List PlanRevision)
    → Sound rows
    → any (is_current k s) (supersede_found (first_row (is_current k s) rows) rows) ≡ false
unfolding supersede_found first_row update_where
none_current k s [] v = refl
none_current k s (x ∷ xs) v = elim (Bool-cases (is_current k s x)) [
  | inl t ↦ rw t (
      rw (eq_refl x.plan_revision_id) (
        rw (dead (x.logical_plan_key == k) (x.stage == s)) (
          still_not (is_revision x.plan_revision_id) k s xs
            (not_any (is_current k s) xs (others_not k s x xs t v.0)))))
  | inr f ↦ elim (Option-cases (first_row (is_current k s) xs)) [
    | inl n ↦
        rw f (rw (n, supersede_found) (rw f (rw (n, supersede_found) at (none_current k s xs v.1))))
    | inr (r, n) ↦ rw f (
        rw (n, supersede_found)
          (rw (head_not (is_revision r.plan_revision_id) k s x f)
            (rw (n, supersede_found) at (none_current k s xs v.1))))
  ]
]
