-- ===== src/Execution/Reconcile/Rows.antt =====
-- What can raise in the reading of the rows that a reconciliation finds.
use seeding_plan_backend.Prelude.{
  ℕ, ◌≡◌, refl, ◌⊎◌, inl, inr, none, List, [], ◌∷◌, In, Option-cases, Bool-cases,
}
use seeding_plan_backend.Errors.{Result, ok, err, value_error, unexpected}
use seeding_plan_backend.Execution.{Value, FoundId, number, unreadable, overflow, FoundCreative}
use seeding_plan_backend.Execution.Readback.{elem}
use seeding_plan_backend.Execution.Reconcile.{id_or_zero, read_found_ids, rows_of_notes, found_ids}

-- An id is read, or taken for 0, unless it overflows.
pub id_or_zero-cases :
    (id : FoundId)
    → ((n : ℕ) × (id_or_zero id ≡ ok n)) ⊎ ((id_or_zero id ≡ err unexpected) × (id ≡ overflow))
id_or_zero-cases (number n) = inl (n, refl)
id_or_zero-cases unreadable = inl (0, refl)
id_or_zero-cases overflow = inr (refl, refl)

-- Some row has an id that overflows.
abbrev Overflows : List FoundCreative → Type 0
Overflows rows = (row : FoundCreative) × In row rows × (row.creativity_id ≡ overflow)

-- How the reading of the ids ends.
data ReadIds (rows : List FoundCreative) (r : Result (List ℕ)) : Type 0 where
  all_read : (ns : List ℕ) → r ≡ ok ns → ReadIds rows r
  not_read : r ≡ err value_error → ReadIds rows r
  escaped : r ≡ err unexpected → Overflows rows → ReadIds rows r

read_found_ids-ReadIds : (rows : List FoundCreative) → ReadIds rows (read_found_ids rows)
unfolding read_found_ids
read_found_ids-ReadIds [] = all_read [] refl
read_found_ids-ReadIds (row ∷ rows) = go row.creativity_id refl (read_found_ids-ReadIds rows)
  where
    later : Overflows rows → Overflows (row ∷ rows)
    later (x, m, e) = (x, inr m, e)

    go :
        (id : FoundId)
        → row.creativity_id ≡ id
        → ReadIds rows (read_found_ids rows)
        → ReadIds (row ∷ rows) (read_found_ids (row ∷ rows))
    go unreadable e r = not_read (rw (e, read_found_ids) refl)
    go overflow e r = escaped (rw (e, read_found_ids) refl) (row, inl refl, e)
    go (number n) e r = elim r [
      | all_read ns s ↦ all_read (n ∷ ns) (rw (e, read_found_ids) (rw s refl))
      | not_read s ↦ not_read (rw (e, read_found_ids) (rw s refl))
      | escaped s o ↦ escaped (rw (e, read_found_ids) (rw s refl)) (later o)
    ]

-- Some row has a note id that cannot be hashed.
abbrev Unhashable : List FoundCreative → Type 0
Unhashable rows = (row : FoundCreative) × In row rows × (row.note_id ≡ none)

rows_of_notes-cases :
    (notes : List Value) (rows : List FoundCreative)
    → ((found : List FoundCreative) × (rows_of_notes notes rows ≡ ok found)
        × ((row : FoundCreative) → In row found → In row rows))
      ⊎ ((rows_of_notes notes rows ≡ err unexpected) × Unhashable rows)
unfolding rows_of_notes
rows_of_notes-cases notes [] = inl ([], refl, λ row m. m)
rows_of_notes-cases notes (row ∷ rows) = elim (Option-cases row.note_id) [
  | inl n ↦ inr (rw (n, rows_of_notes) refl, (row, inl refl, n))
  | inr (note, s) ↦ elim (rows_of_notes-cases notes rows) [
    | inr (e, (x, m, n)) ↦ inr (rw (s, rows_of_notes) (rw e refl), (x, inr m, n))
    | inl (found, e, f) ↦ elim (Bool-cases (elem note notes)) [
      | inl t ↦ inl (
        row ∷ found,
        simp (s, e, t, rows_of_notes),
        λ x m. elim m [ inl q ↦ inl q | inr k ↦ inr (f x k) ],
      )
      | inr t ↦ inl (found, rw (s, rows_of_notes) (rw (e, t) refl), λ x m. inr (f x m))
    ]
  ]
]

-- The ids of the creatives of the expected notes are read, or none is, unless a row has a note id
-- that cannot be hashed or an id that overflows.
pub found_ids-cases :
    (notes : List Value) (rows : List FoundCreative)
    → ((ns : List ℕ) × (found_ids notes rows ≡ ok ns))
      ⊎ ((found_ids notes rows ≡ err unexpected)
          × (row : FoundCreative) × In row rows
          × ((row.note_id ≡ none) ⊎ (row.creativity_id ≡ overflow)))
unfolding found_ids
found_ids-cases notes rows = elim (rows_of_notes-cases notes rows) [
  | inr (e, (x, m, n)) ↦ inr (rw (e, found_ids) refl, x, m, inl n)
  | inl (found, e, f) ↦ elim (read_found_ids-ReadIds found) [
    | all_read ns s ↦ inl (ns, rw (e, found_ids) (rw s refl))
    | not_read s ↦ inl ([], rw (e, found_ids) (rw s refl))
    | escaped s (x, m, o) ↦ inr (rw (e, found_ids) (rw s refl), x, f x m, inr o)
  ]
]
