-- ===== src/Store/Outbox/Tests.antt =====
-- An outbox with a published and a queued event, and the theorems on it applied.
use seeding_plan_backend.Prelude.{refl, inl, inr, none, [], ◌∷◌, String, In}
use seeding_plan_backend.Store.{empty_db, Db, OutboxRow, OutboxStatus, other}
use seeding_plan_backend.Store.Outbox.{claim_outbox}
use seeding_plan_backend.Store.Outbox.Kept.{UniqueEvents, claim_outbox-keeps}

abbrev event : String → OutboxStatus → OutboxRow
event i status = record {
  event_id = i;
  project_id = "p";
  event = other "T" "{}";
  status = status;
  created_at = 0;
  published_at = none;
  attempt = 0;
  next_attempt_at = 90;
  lease_owner = none;
  lease_expires_at = none;
  last_error = none;
}

abbrev sent : OutboxRow
sent = event "a" OutboxStatus.published

abbrev later : OutboxRow
later = event "b" OutboxStatus.retry

abbrev db : Db
db = record empty_db { outbox = sent ∷ later ∷ [] }

unique : UniqueEvents db.outbox
unique a b (inl p) (inl q) e = cc (p, q)
unique a b (inl p) (inr (inl q)) e = absurd (cc (p, q, e))
unique a b (inl p) (inr (inr x)) e = elim x [ ]
unique a b (inr (inl p)) (inl q) e = absurd (cc (p, q, e))
unique a b (inr (inl p)) (inr (inl q)) e = cc (p, q)
unique a b (inr (inl p)) (inr (inr x)) e = elim x [ ]
unique a b (inr (inr x)) n e = elim x [ ]

claim_outbox-keeps_example : In later (claim_outbox "w" 50 60 10 db).1.outbox
claim_outbox-keeps_example = claim_outbox-keeps "w" 50 60 10 db later unique (inr (inl refl)) refl
