-- ===== src/Store/Outbox/Kept.antt =====
-- Which rows of the outbox the operations of the delivery leave as they are.
use seeding_plan_backend.Prelude.{
  ℕ, suc, zero, ◌+◌, ◌≡◌, refl, subst, ap, inl, inr, Bool, true, false, List, [], ◌∷◌, String, ◌==◌,
  In, In-where_rows, In-update_where, Bool-cases, if◌then◌else◌, update_where,
}
use seeding_plan_backend.Store.{Db, OutboxRow, OutboxStatus}
use seeding_plan_backend.Store.Rows.{precedes}
use seeding_plan_backend.Store.Outbox.{
  due_event, insert_row, sort_rows, take, is_event, lease_event, lease_all, selected, claim_outbox,
}

-- Two rows of the table with the same id are the same row.
abbrev pub UniqueEvents : List OutboxRow → Type 0
UniqueEvents table =
    (a b : OutboxRow) → In a table → In b table → (a.event_id == b.event_id) ≡ true → a ≡ b

In-take : (n : ℕ) (x : OutboxRow) (xs : List OutboxRow) → In x (take n xs) → In x xs
unfolding take
In-take zero x xs m = elim m [ ]
In-take (suc n) x [] m = elim m [ ]
In-take (suc n) x (y ∷ ys) (inl e) = inl e
In-take (suc n) x (y ∷ ys) (inr m) = inr (In-take n x ys m)

In-insert_row : (x y : OutboxRow) (ys : List OutboxRow) → In x (insert_row y ys) → In x (y ∷ ys)
unfolding insert_row
In-insert_row x y [] m = m
In-insert_row x y (z ∷ zs) m =
    elim (Bool-cases (precedes y.created_at y.event_id z.created_at z.event_id)) [
      | inl t ↦ rw t at m
      | inr f ↦ elim (rw f at m) [
        | inl e ↦ inr (inl e)
        | inr n ↦ elim (In-insert_row x y zs n) [ inl e ↦ inl e | inr k ↦ inr (inr k) ]
      ]
    ]

In-sort_rows : (x : OutboxRow) (xs : List OutboxRow) → In x (sort_rows xs) → In x xs
unfolding sort_rows
In-sort_rows x [] m = m
In-sort_rows x (y ∷ ys) m = elim (In-insert_row x y (sort_rows ys) m) [
  | inl e ↦ inl e
  | inr n ↦ inr (In-sort_rows x ys n)
]

-- A row that a WHERE does not match stands in the table after the UPDATE.
unmatched :
    (p : OutboxRow → Bool) (f : OutboxRow → OutboxRow) (x : OutboxRow) (table : List OutboxRow)
    → In x table
    → p x ≡ false
    → In x (update_where p f table)
unmatched p f x table m n =
    subst (λ b. In (if b then f x else x) (update_where p f table)) n
      (In-update_where p f x table m)

lease_all_keeps :
    (worker : String) (until : ℕ) (x : OutboxRow) (rows table : List OutboxRow)
    → ((r : OutboxRow) → In r rows → is_event r.event_id x ≡ false)
    → In x table
    → In x (lease_all worker until rows table)
unfolding lease_all
lease_all_keeps worker until x [] table h m = m
lease_all_keeps worker until x (r ∷ rs) table h m =
    lease_all_keeps worker until x rs _ (λ q n. h q (inr n))
      (unmatched (is_event r.event_id) (lease_event worker until) x table m (h r (inl refl)))

other_event :
    (now limit : ℕ) (db : Db) (x : OutboxRow)
    → UniqueEvents db.outbox
    → In x db.outbox
    → due_event now x ≡ false
    → (r : OutboxRow) → In r (selected now limit db)
    → is_event r.event_id x ≡ false
unfolding selected
other_event now limit db x u m d r n = elim (Bool-cases (is_event r.event_id x)) [
  | inr f ↦ f
  | inl t ↦
      let (inside, due) =
        In-where_rows (due_event now) r db.outbox (In-sort_rows r _ (In-take limit r _ n)) in
      absurd (cc (due, d, ap (due_event now) (u x r m inside t)))
]

-- Where event ids are unique, `claim_outbox` leaves every row that is not due as it is: one that is
-- published, that waits for its next attempt, or that another worker's running lease holds.
pub claim_outbox-keeps :
    (worker : String) (now lease limit : ℕ) (db : Db) (x : OutboxRow)
    → UniqueEvents db.outbox
    → In x db.outbox
    → due_event now x ≡ false
    → In x (claim_outbox worker now lease limit db).1.outbox
unfolding claim_outbox
claim_outbox-keeps worker now lease limit db x u m d =
    lease_all_keeps worker (now + lease) x (selected now limit db) db.outbox
      (other_event now limit db x u m d) m

abbrev pub is_published : OutboxStatus → Bool
is_published OutboxStatus.published = true
is_published _ = false
