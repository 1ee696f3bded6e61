-- ===== src/Store.antt =====
-- app/seeding/store.py: the SQLite authority. A table is a list of rows in the order of insertion,
-- a column of fixed texts a data type, a timestamp its number of microseconds (the ISO texts of
-- `iso` are all in UTC and compare as the instants do). The JSON texts are kept as texts. What
-- `utc_now` and `uuid4` return is an argument of each operation.
mod Tables
pub mod Rows
pub mod Projects
pub mod Members
pub mod Plans
pub mod Results
pub mod Artifacts
pub mod Jobs
pub mod Grants
pub mod Outbox
pub use Tables.{
  AccessLevel, Member, ProjectRevision, Artifact, LogicalPlan, RevisionStatus, PlanRevision,
  ExecutionAttempt, ObjectType, PlatformObject,
}
use seeding_plan_backend.Prelude.{
  ℕ, ◌≡◌, refl, ap, ◌∙◌, Bool, true, false, Option, none, some, List, [], String, ◌==◌, any,
}
use seeding_plan_backend.Errors.{Result, ok, err, Exc, Run, bind-ok, ◌>>=◌}
use seeding_plan_backend.State.{ProjectState, ExecutionState, DeliveryState}

-- jobs.kind; the column is free text
pub data JobKind : Type 0 where
  prepare execute_test reconcile production_create : JobKind
  release release_evaluate release_recovery sync_juguang : JobKind
  unknown : String → JobKind

-- the text that the column holds
abbrev pub kind_text : JobKind → String
kind_text prepare = "PREPARE"
kind_text execute_test = "EXECUTE_TEST"
kind_text reconcile = "RECONCILE"
kind_text production_create = "PRODUCTION_CREATE"
kind_text release = "RELEASE"
kind_text release_evaluate = "RELEASE_EVALUATE"
kind_text release_recovery = "RELEASE_RECOVERY"
kind_text sync_juguang = "SYNC_JUGUANG"
kind_text (unknown s) = s

pub data JobStatus : Type 0 where
  pending running retry succeeded failed reconcile_required cancelled : JobStatus

pub record Job : Type 0 where
  pub job_id : String
  pub project_id : String
  pub kind : JobKind
  pub input_sha : String
  pub input_json : String
  pub status : JobStatus
  pub attempt : ℕ
  pub max_attempts : ℕ
  pub lease_owner : Option String
  pub lease_expires_at : Option ℕ
  pub heartbeat_at : Option ℕ
  pub next_run_at : ℕ
  pub last_error : Option String
  pub created_at : ℕ
  pub updated_at : ℕ
  pub result_json : Option String

pub record Project : Type 0 where
  pub project_id : String
  pub owner_principal_id : String
  pub config_json : String
  pub config_sha : String
  pub project_state : ProjectState
  pub execution_state : ExecutionState
  pub delivery_state : DeliveryState
  pub created_at : ℕ
  pub updated_at : ℕ

pub data GrantType : Type 0 where
  execution production_create release : GrantType

pub data GrantStatus : Type 0 where
  issued consumed revoked expired : GrantStatus

pub record Grant : Type 0 where
  pub grant_id : String
  pub project_id : String
  pub grant_type : GrantType
  pub status : GrantStatus
  pub payload_json : String
  pub payload_sha : String
  pub issued_at : ℕ
  pub expires_at : ℕ
  pub consumed_at : Option ℕ
  pub revoked_at : Option ℕ
  pub revoked_reason : Option String
  pub nonce : Option String

-- The event types with the parts of their payloads that the program reads back or compares.
pub data Event : Type 0 where
  project_state_changed :
      (transition_id : String) (from to : ProjectState) (reason_code : String) → Event
  execution_state_changed :
      (transition_id : String) (from to : ExecutionState) (reason_code : String) → Event
  delivery_state_changed :
      (transition_id : String) (from to : DeliveryState) (reason_code : String) → Event
  grant_issued : (grant_type : GrantType) (grant_id payload_sha : String) → Event
  grant_revoked : (grant_id actor_id reason : String) → Event
  grant_consumed : (grant_type : GrantType) (grant_id job_id : String) → Event
  alert : (code : Option String) (job_id : String) → Event
  project_created : (config_sha : String) → Event
  project_member_upserted :
      (principal_id : String) (access_level : AccessLevel) (added_by : String) → Event
  -- any other type, with its payload as JSON
  other : (event_type payload_json : String) → Event

pub data OutboxStatus : Type 0 where
  pending processing retry published : OutboxStatus

pub record OutboxRow : Type 0 where
  pub event_id : String
  pub project_id : String
  pub event : Event
  pub status : OutboxStatus
  pub created_at : ℕ
  pub published_at : Option ℕ
  pub attempt : ℕ
  pub next_attempt_at : ℕ
  pub lease_owner : Option String
  pub lease_expires_at : Option ℕ
  pub last_error : Option String

-- a row of state_transitions, on its surface
pub data Change : Type 0 where
  on_project : (state_from state_to : ProjectState) → Change
  on_execution : (state_from state_to : ExecutionState) → Change
  on_delivery : (state_from state_to : DeliveryState) → Change

pub record Transition : Type 0 where
  pub transition_id : String
  pub project_id : String
  pub change : Change
  pub actor_id : String
  pub reason_code : String
  pub created_at : ℕ

pub record Db : Type 0 where
  pub projects : List Project
  pub jobs : List Job
  pub grants : List Grant
  pub outbox : List OutboxRow
  pub state_transitions : List Transition
  pub project_revisions : List ProjectRevision
  pub project_members : List Member
  pub artifacts : List Artifact
  pub logical_plans : List LogicalPlan
  pub plan_revisions : List PlanRevision
  pub execution_attempts : List ExecutionAttempt
  pub platform_objects : List PlatformObject

abbrev pub empty_db : Db
empty_db = record {
  projects = [];
  jobs = [];
  grants = [];
  outbox = [];
  state_transitions = [];
  project_revisions = [];
  project_members = [];
  artifacts = [];
  logical_plans = [];
  plan_revisions = [];
  execution_attempts = [];
  platform_objects = [];
}

-- `with self.transaction()`: commit on a normal exit, rollback when the body raises.
unfoldable pub transaction {ℓ} : {A : Type ℓ} → (Db → Result A × Db) → Db → Result A × Db
transaction body db = elim (body db).0 [ ok a ↦ (ok a, (body db).1) | err e ↦ (err e, db) ]

module _ {ℓ} {A : Type ℓ} (body : Db → Result A × Db) (db : Db) where
  pub transaction-ok :
      (a : A)
      → (body db).0 ≡ ok a
      → ((transaction body db).0 ≡ ok a) × ((transaction body db).1 ≡ (body db).1)
  unfolding transaction
  transaction-ok a h = rw (h, transaction) (refl, refl)

  pub transaction-err : (e : Exc) → (body db).0 ≡ err e → transaction body db ≡ (err e, db)
  unfolding transaction
  transaction-err e h = rw (h, transaction) refl

-- A transaction of two steps that both return.
pub transaction-do :
    {A B : Type 0} (m : Run Db A) (f : A → Run Db B) (db db' db'' : Db) (a : A) (b : B)
    → m db ≡ (ok a, db')
    → f a db' ≡ (ok b, db'')
    → transaction (m >>= f) db ≡ (ok b, db'')
transaction-do m f db db' db'' a b h k =
    let rest = bind-ok m f db a (ap (λ r. r.0) h) ∙ ap (λ r. f a r.1) h ∙ k in
    let done = transaction-ok (m >>= f) db b (ap (λ r. r.0) rest) in
    λ i. (done.0 i, (done.1 ∙ ap (λ r. r.1) rest) i)

-- the foreign key REFERENCES projects(project_id)
abbrev pub has_project : String → Db → Bool
has_project p db = any (λ (r : Project). r.project_id == p) db.projects

-- lease_owner = ?, lease_expires_at <= ?; NULL compares as no
abbrev pub owned_by : String → Option String → Bool
owned_by worker none = false
owned_by worker (some w) = w == worker
