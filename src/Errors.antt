-- ===== src/Errors.antt =====
-- app/seeding/errors.py: `SeedingError` and its machine-readable code. Messages, HTTP status
-- codes and details are not modelled. A code that an adapter or the platform client chooses is
-- `platform`, and any other Python exception is one of the last two constructors of `Exc`.
use seeding_plan_backend.Prelude.{String, ◌≡◌, ◌∙◌, ap, refl, ◌⊎◌, inl, inr}

pub data Code : Type 0 where
  invalid_state_transition : Code
  invalid_execution_state_transition : Code
  invalid_delivery_state_transition : Code
  project_not_found job_not_found grant_not_found : Code
  job_lease_lost job_not_cancellable job_not_resumable : Code
  grant_already_exists grant_not_revocable grant_type_mismatch grant_not_active : Code
  grant_expired grant_consume_conflict : Code
  outbox_lease_lost : Code
  project_already_exists artifact_not_found config_sha_mismatch project_not_preparable : Code
  unknown_job_kind : Code
  seeding_config_review_required keyword_normalization_mismatch semantic_model_mismatch : Code
  platform_adapter_not_configured production_create_adapter_not_configured : Code
  duplicate_overlap_evidence source_proof_missing scoring_sample_insufficient : Code
  rbac_forbidden project_owner_access_immutable : Code
  payload_sha_mismatch platform_create_response_ambiguous : Code
  platform_transport_error : Code
  spend_cap_not_armed enable_response_missing_object release_readback_mismatch : Code
  platform : String → Code

pub data Exc : Type 0 where
  seeding : Code → Exc
  integrity_error value_error : Exc
  unexpected : Exc

pub data Result {ℓ} (A : Type ℓ) : Type ℓ where
  ok : A → Result A
  err : Exc → Result A

-- A method over a state `S`: what was written before a raise stays written.
abbrev pub Run {ℓ} : Type ℓ → Type ℓ → Type ℓ
Run S A = S → Result A × S

module _ {ℓ} {S A : Type ℓ} where
  abbrev pub pure : A → Run S A
  pure a s = (ok a, s)

  abbrev pub raise : Exc → Run S A
  raise e s = (err e, s)

module _ {ℓ} {S A B : Type ℓ} where
  abbrev pub continue : Result A → (A → Run S B) → Run S B
  continue (ok a) f s = f a s
  continue (err e) f s = (err e, s)

  infixl 5 ◌>>=◌ ◌>>◌
  abbrev pub ◌>>=◌ : Run S A → (A → Run S B) → Run S B
  ◌>>=◌ m f s = continue (m s).0 f (m s).1

  abbrev pub ◌>>◌ : Run S A → Run S B → Run S B
  ◌>>◌ m k = m >>= λ _. k

-- The rest of a block after a step that returned.
pub bind-ok {ℓ} :
    {S A B : Type ℓ} (m : Run S A) (f : A → Run S B) (s : S) (a : A)
    → (m s).0 ≡ ok a
    → (m >>= f) s ≡ f a (m s).1
bind-ok m f s a h = rw (h, continue) refl

pub bind-do {ℓ} :
    {S A B : Type ℓ} (m : Run S A) (f : A → Run S B) (s s' : S) (a : A) (r : Result B × S)
    → m s ≡ (ok a, s')
    → f a s' ≡ r
    → (m >>= f) s ≡ r
bind-do m f s s' a r h k = bind-ok m f s a (ap (λ t. t.0) h) ∙ ap (λ t. f a t.1) h ∙ k

pub bind-err {ℓ} :
    {S A B : Type ℓ} (m : Run S A) (f : A → Run S B) (s s' : S) (e : Exc)
    → m s ≡ (err e, s')
    → (m >>= f) s ≡ (err e, s')
bind-err m f s s' e h = ap (λ t. continue t.0 f t.1) h

pub Result-cases {ℓ} :
    {A : Type ℓ} (r : Result A) → ((a : A) × (r ≡ ok a)) ⊎ ((e : Exc) × (r ≡ err e))
Result-cases (ok a) = inl (a, refl)
Result-cases (err e) = inr (e, refl)
