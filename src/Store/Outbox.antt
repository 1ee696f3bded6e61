-- ===== src/Store/Outbox.antt =====
-- app/seeding/store.py: the delivery of the outbox (`claim_outbox`, `complete_outbox` and
-- `fail_outbox`). The texts of the payloads are the events that `_append_outbox` was given.
pub mod Kept
pub mod Tests
use seeding_plan_backend.Prelude.{
  ℕ, suc, zero, ◌+◌, Bool, true, false, Option, none, some, List, [], ◌∷◌, map, String, ◌==◌, ◌&&◌,
  ◌||◌, leb, eqb, if◌then◌else◌, where_rows, first_row, update_where, row_count,
}
use seeding_plan_backend.Errors.{
  Result, Run, ok, err, unexpected, seeding, Code, outbox_lease_lost, ◌>>=◌,
}
use seeding_plan_backend.Store.{Db, OutboxRow, OutboxStatus, transaction, owned_by}
use seeding_plan_backend.Store.Rows.{precedes}
use seeding_plan_backend.Store.Jobs.{retry_delay}

-- status IN ('PENDING', 'RETRY')
abbrev pub is_queued : OutboxStatus → Bool
is_queued OutboxStatus.pending = true
is_queued OutboxStatus.retry = true
is_queued _ = false

abbrev pub is_processing : OutboxStatus → Bool
is_processing OutboxStatus.processing = true
is_processing _ = false

abbrev pub lease_over : ℕ → OutboxRow → Bool
lease_over now row = elim row.lease_expires_at [ none ↦ false | some t ↦ leb t now ]

abbrev pub due_event : ℕ → OutboxRow → Bool
due_event now row =
    (is_queued row.status && leb row.next_attempt_at now)
    || (is_processing row.status && lease_over now row)

-- ORDER BY created_at, event_id
pub insert_row : OutboxRow → List OutboxRow → List OutboxRow
unfolding precedes
insert_row x [] = x ∷ []
insert_row x (y ∷ ys) =
    let rest = insert_row x ys in
    if precedes x.created_at x.event_id y.created_at y.event_id then x ∷ y ∷ ys else y ∷ rest

pub sort_rows : List OutboxRow → List OutboxRow
unfolding insert_row
sort_rows [] = []
sort_rows (x ∷ xs) = insert_row x (sort_rows xs)

-- LIMIT ?
pub take : ℕ → List OutboxRow → List OutboxRow
take zero xs = []
take (suc n) [] = []
take (suc n) (x ∷ xs) = x ∷ take n xs

abbrev pub is_event : String → OutboxRow → Bool
is_event event_id row = row.event_id == event_id

abbrev pub lease_event : String → ℕ → OutboxRow → OutboxRow
lease_event worker_id until row = record row {
  status = OutboxStatus.processing;
  attempt = row.attempt + 1;
  lease_owner = some worker_id;
  lease_expires_at = some until;
}

-- the loop of UPDATEs over the selected rows
pub lease_all : String → ℕ → List OutboxRow → List OutboxRow → List OutboxRow
lease_all worker_id until [] table = table
lease_all worker_id until (r ∷ rs) table =
    lease_all worker_id until rs
      (update_where (is_event r.event_id) (lease_event worker_id until) table)

pub selected : ℕ → ℕ → Db → List OutboxRow
unfolding sort_rows take
selected now limit db = take limit (sort_rows (where_rows (due_event now) db.outbox))

-- the rows read back; a missing one fails the assert
pub read_all : List (Option OutboxRow) → Result (List OutboxRow)
read_all [] = ok []
read_all (none ∷ rs) = err unexpected
read_all (some r ∷ rs) = elim (read_all rs) [ ok xs ↦ ok (r ∷ xs) | err e ↦ err e ]

abbrev pub claim_events : String → ℕ → ℕ → ℕ → Run Db (List (Option OutboxRow))
claim_events worker_id now lease limit db =
    let table = lease_all worker_id (now + lease) (selected now limit db) db.outbox in
    (
      ok (map (λ (r : OutboxRow). first_row (is_event r.event_id) table) (selected now limit db)),
      record db { outbox = table },
    )

pub claim_outbox : String → ℕ → ℕ → ℕ → Run Db (List OutboxRow)
unfolding selected lease_all read_all transaction
claim_outbox worker_id now lease limit = do
  claimed ← transaction (claim_events worker_id now lease limit)
  (λ db. (read_all claimed, db))

-- WHERE event_id = ? AND status = 'PROCESSING' AND lease_owner = ?
abbrev pub held_event : String → String → OutboxRow → Bool
held_event event_id worker_id row =
    row.event_id == event_id && is_processing row.status && owned_by worker_id row.lease_owner

pub update_event : (OutboxRow → Bool) → (OutboxRow → OutboxRow) → Run Db (Unit {0})
update_event p f db =
    let db' = record db { outbox = update_where p f db.outbox } in
    if eqb (row_count p db.outbox) 1 then (ok tt, db') else (err (seeding outbox_lease_lost), db')

abbrev pub publish : ℕ → OutboxRow → OutboxRow
publish now row = record row {
  status = OutboxStatus.published;
  published_at = some now;
  lease_owner = none;
  lease_expires_at = none;
  last_error = none;
}

pub complete_outbox : String → String → ℕ → Run Db (Unit {0})
unfolding update_event transaction
complete_outbox event_id worker_id now =
    transaction (update_event (held_event event_id worker_id) (publish now))

-- `short` is `error[:1000]`
abbrev pub retry_event : String → ℕ → OutboxRow → OutboxRow
retry_event short now row = record row {
  status = OutboxStatus.retry;
  next_attempt_at = now + retry_delay;
  lease_owner = none;
  lease_expires_at = none;
  last_error = some short;
}

pub fail_outbox : String → String → String → ℕ → Run Db (Unit {0})
unfolding update_event transaction
fail_outbox event_id worker_id short now =
    transaction (update_event (held_event event_id worker_id) (retry_event short now))
