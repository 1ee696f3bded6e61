-- ===== src/Store/Plans/Found.antt =====
-- What the superseding of the revision that was found leaves in the table, and the INSERT after it.
use seeding_plan_backend.Prelude.{
  ◌≡◌, refl, sym, subst, ap, ◌∙◌, inl, inr, Bool, true, false, Option, none, some, List, [], ◌∷◌,
  ◌++◌, String, ◌==◌, any, All-append, All-In, In, In-update_where, first_row, first_row-In,
  first_row_sound, update_where, Option-cases, Bool-cases, eq_refl, if◌then◌else◌,
}
use seeding_plan_backend.Store.{PlanRevision}
use seeding_plan_backend.Store.Plans.{
  is_active, is_current, is_revision, supersede, supersede_found,
}
use seeding_plan_backend.Store.Plans.Active.{
  halves, Apart, Sound, Sound-update_where, same_ids, parts, same_text,
}

pub Sound-append :
    (rows : List PlanRevision) (n : PlanRevision)
    → Sound rows
    → any (is_revision n.plan_revision_id) rows ≡ false
    → any (is_current n.logical_plan_key n.stage) rows ≡ false
    → Sound (rows ++ n ∷ [])
Sound-append [] n s i c = (tt, tt)
Sound-append (x ∷ xs) n s i c =
    let (i1, i2) =
      halves (is_revision n.plan_revision_id x) (any (is_revision n.plan_revision_id) xs) i in
    let (c1, c2) =
      halves (is_current n.logical_plan_key n.stage x)
        (any (is_current n.logical_plan_key n.stage) xs) c in
    (All-append (Apart x) xs (n ∷ []) s.0 ((i1, rw c1 refl), tt), Sound-append xs n s.1 i2 c2)

-- Rows of a sound table with one id are one row.
same_row :
    (x y : PlanRevision) (rows : List PlanRevision)
    → Sound rows
    → In x rows
    → In y rows
    → is_revision y.plan_revision_id x ≡ true
    → x ≡ y
same_row x y [] s m n e = elim m [ ]
same_row x y (z ∷ zs) s (inl p) (inl q) e = sym p ∙ q
same_row x y (z ∷ zs) s (inl p) (inr n) e =
    let apart = All-In (Apart z) y zs n s.0 in
    absurd (cc (apart.0, e, ap (is_revision y.plan_revision_id) p))
same_row x y (z ∷ zs) s (inr m) (inl q) e =
    let apart = All-In (Apart z) x zs m s.0 in
    let t : (z.plan_revision_id == y.plan_revision_id) ≡ true =
      rw (ap (λ (v : PlanRevision). v.plan_revision_id) q) (eq_refl y.plan_revision_id) in
    absurd (cc (apart.0, same_text z.plan_revision_id x.plan_revision_id y.plan_revision_id t e))
same_row x y (z ∷ zs) s (inr m) (inr n) e = same_row x y zs s.1 m n e

pub found-Sound :
    (o : Option PlanRevision) (rows : List PlanRevision)
    → Sound rows
    → Sound (supersede_found o rows)
unfolding supersede_found
found-Sound none rows s = s
found-Sound (some r) rows s = Sound-update_where (is_revision r.plan_revision_id) rows s

pub found_ids :
    (i : String) (o : Option PlanRevision) (rows : List PlanRevision)
    → any (is_revision i) (supersede_found o rows) ≡ any (is_revision i) rows
unfolding supersede_found
found_ids i none rows = refl
found_ids i (some r) rows = same_ids (is_revision r.plan_revision_id) i rows

pub any_append :
    (p : PlanRevision → Bool) (xs : List PlanRevision) (n : PlanRevision)
    → any p xs ≡ false
    → p n ≡ false
    → any p (xs ++ n ∷ []) ≡ false
any_append p [] n h k = rw k refl
any_append p (x ∷ xs) n h k = let (f, g) = halves (p x) (any p xs) h in rw f (any_append p xs n g k)

pub In-append_left : (x : PlanRevision) (xs ys : List PlanRevision) → In x xs → In x (xs ++ ys)
In-append_left x [] ys m = elim m [ ]
In-append_left x (z ∷ zs) ys (inl e) = inl e
In-append_left x (z ∷ zs) ys (inr m) = inr (In-append_left x zs ys m)

pub In-append_right : (x : PlanRevision) (xs ys : List PlanRevision) → In x ys → In x (xs ++ ys)
In-append_right x [] ys m = m
In-append_right x (z ∷ zs) ys m = inr (In-append_right x zs ys m)

-- A row of another logical plan is not the one that is superseded.
pub found_keeps :
    (k s : String) (x : PlanRevision) (rows : List PlanRevision)
    → Sound rows
    → In x rows
    → (x.logical_plan_key == k) ≡ false
    → In x (supersede_found (first_row (is_current k s) rows) rows)
unfolding supersede_found
found_keeps k s x rows v m f = elim (Option-cases (first_row (is_current k s) rows)) [
  | inl n ↦ rw (n, supersede_found) m
  | inr (r, n) ↦ rw (n, supersede_found) (unmatched r (other r n))
]
  where
    unmatched :
        (r : PlanRevision)
        → is_revision r.plan_revision_id x ≡ false
        → In x (update_where (is_revision r.plan_revision_id) supersede rows)
    unmatched r e =
        subst
          (λ b.
            In (if b then supersede x else x)
              (update_where (is_revision r.plan_revision_id) supersede rows))
          e (In-update_where (is_revision r.plan_revision_id) supersede x rows m)

    other :
        (r : PlanRevision)
        → first_row (is_current k s) rows ≡ some r
        → is_revision r.plan_revision_id x ≡ false
    other r n = elim (Bool-cases (is_revision r.plan_revision_id x)) [
      | inr e ↦ e
      | inl t ↦
          let same = same_row x r rows v m (first_row-In (is_current k s) rows r n) t in
          let (key, _, _) =
            parts (r.logical_plan_key == k) (r.stage == s) (is_active r.revision_status)
              (first_row_sound (is_current k s) rows r n) in
          absurd (cc (f, key, ap (λ (v : PlanRevision). v.logical_plan_key == k) same))
    ]
