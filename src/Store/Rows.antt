-- ===== src/Store/Rows.antt =====
-- app/seeding/store.py: what several of the store's operations do inside a transaction, the
-- outbox INSERT (`_append_outbox`), the two INSERTs that record a change of state, and the
-- ORDER BY of the claims.
use Prim.Native.Nat.{Ordering}
use Prim.Native.String.{compare}
use seeding_plan_backend.Prelude.{
  ℕ, ◌≡◌, refl, Bool, true, false, none, some, [], ◌∷◌, ◌++◌, String, ◌==◌, ◌&&◌, ◌||◌, ltb, eqb,
  if◌then◌else◌, first_row, update_where,
}
use seeding_plan_backend.Errors.{Run, ok, err, integrity_error, seeding, project_not_found}
use seeding_plan_backend.Store.{
  Db, Project, Event, OutboxRow, OutboxStatus, Transition, has_project, transaction,
}

-- the row that `_append_outbox` inserts
abbrev pub new_event : String → String → Event → ℕ → OutboxRow
new_event event_id project_id event now = record {
  event_id = event_id;
  project_id = project_id;
  event = event;
  status = OutboxStatus.pending;
  created_at = now;
  published_at = none;
  attempt = 0;
  next_attempt_at = now;
  lease_owner = none;
  lease_expires_at = none;
  last_error = none;
}

-- The primary key is a fresh uuid4, so only the foreign key can refuse the row.
unfoldable pub append_outbox : String → String → Event → ℕ → Run Db (Unit {0})
append_outbox event_id project_id event now db =
    if has_project project_id db
    then (ok tt, record db { outbox = db.outbox ++ new_event event_id project_id event now ∷ [] })
    else (err integrity_error, db)

unfoldable pub append_transition : Transition → Run Db (Unit {0})
append_transition row db =
    if has_project row.project_id db
    then (ok tt, record db { state_transitions = db.state_transitions ++ row ∷ [] })
    else (err integrity_error, db)

unfoldable pub set_project : String → (Project → Project) → Run Db (Unit {0})
set_project project_id f db =
    (ok tt, record db { projects = update_where (λ r. r.project_id == project_id) f db.projects })

abbrev pub is_project : String → Project → Bool
is_project project_id row = row.project_id == project_id

-- SELECT … FROM projects WHERE project_id = ?, and the error where there is none
unfoldable pub select_project : String → Run Db Project
select_project project_id db = elim (first_row (is_project project_id) db.projects) [
  | some row ↦ (ok row, db)
  | none ↦ (err (seeding project_not_found), db)
]

-- ORDER BY created_at, id: the first row does not come after the second.
unfoldable pub precedes : ℕ → String → ℕ → String → Bool
precedes a s b t = ltb a b || (eqb a b && elim (compare s t) [ Ordering.gt ↦ false | _ ↦ true ])

-- `emit_event`
unfoldable pub emit_event : String → String → Event → ℕ → Run Db (Unit {0})
unfolding append_outbox
emit_event event_id project_id event now = transaction (append_outbox event_id project_id event now)

pub append_outbox-ok :
    (event_id project_id : String) (event : Event) (now : ℕ) (db : Db)
    → has_project project_id db ≡ true
    → (row : OutboxRow) × (append_outbox event_id project_id event now db
        ≡ (ok tt, record db { outbox = db.outbox ++ row ∷ [] }))
unfolding append_outbox
append_outbox-ok event_id project_id event now db h =
    (new_event event_id project_id event now, rw (h, append_outbox) refl)
