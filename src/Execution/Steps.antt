-- ===== src/Execution/Steps.antt =====
-- What the body of the loop establishes for one plan, against every behaviour of the platform.
use seeding_plan_backend.Prelude.{
  ℕ, ◌≡◌, refl, ◌⊎◌, inl, inr, Bool, true, false, not, List, [], ◌∷◌, ◌++◌, String, eqb, length,
  Bool-cases, if◌then◌else◌,
}
use seeding_plan_backend.Errors.{
  Result, Run, ok, err, Exc, seeding, value_error, integrity_error, unexpected, Result-cases, ◌>>=◌,
}
use seeding_plan_backend.Execution.{
  Payload, ExecutionPlanInput, ObjectIds, CampaignRow, UnitRow, CreativeRow, CascadeRow, Label,
  PlanReadbackReceipt, BatchStatus, verified_paused, reconciled_not_created,
  reconciled_verified_paused, readback_mismatch,
}
use seeding_plan_backend.Execution.Readback.{
  error_receipt, readback_rows, judge, index_rows, compare_creatives, is_empty, note_if,
  compare_rows, all_paused,
}
use seeding_plan_backend.Execution.Engine.{
  Call, create_cascade, update_campaign_status, list_campaigns, list_units, search_creativities,
  World, ask, create_status, is_transport, Step, next, stop, member, read_objects, after_reads,
  after_readback, readback, after_pause, after_extract, after_create, run_plan,
}

-- The calls made for a plan: creates, pauses and reads, never an enabling or a relock.
abbrev pub is_plan_call : Call → Bool
is_plan_call (create_cascade _) = true
is_plan_call (update_campaign_status _ n) = eqb n 2
is_plan_call (list_campaigns _) = true
is_plan_call (list_units _) = true
is_plan_call (search_creativities _) = true
is_plan_call _ = false

-- The calls `g` are the calls `h` and, after them, calls of one sort.
pub data Calls (sort : Call → Bool) (h : List Call) : List Call → Type 0 where
  done : Calls sort h h
  more : (c : Call) (g : List Call) → sort c ≡ true → Calls sort h g → Calls sort h (c ∷ g)

-- calls made for plans
abbrev pub Adds : List Call → List Call → Type 0
Adds = Calls is_plan_call

module _ (sort : Call → Bool) where
  pub Calls-trans : (h g k : List Call) → Calls sort h g → Calls sort g k → Calls sort h k
  Calls-trans h _ _ a done = a
  Calls-trans h g _ a (more c k p b) = more c k p (Calls-trans h g k a b)

  ask-Calls :
      {A B : Type 0} (answer : List Call → Result A) (c : Call) (f : A → Run (List Call) B)
      (h : List Call)
      → sort c ≡ true
      → ((a : A) → Calls sort (c ∷ h) (f a (c ∷ h)).1)
      → Calls sort h ((ask answer c >>= f) h).1
  ask-Calls answer c f h p k = elim (Result-cases (answer (c ∷ h))) [
    | inl (a, e) ↦ rw e (Calls-trans h (c ∷ h) _ (more c h p done) (k a))
    | inr (x, e) ↦ rw e (more c h p done)
  ]

  -- The calls of a readback are of that sort.
  abbrev pub Reads : Type 0
  Reads =
      ((l : List ℕ) → sort (list_campaigns l) ≡ true)
      × ((l : List ℕ) → sort (list_units l) ≡ true)
      × ((l : List ℕ) → sort (search_creativities l) ≡ true)

plan_calls-Reads : Reads is_plan_call
plan_calls-Reads = ((λ l. refl), (λ l. refl), (λ l. refl))

-- The readback found no difference and every object paused.
abbrev pub Confirmed : PlanReadbackReceipt → Type 0
Confirmed r = (r.readback_verified ≡ true) × (r.pause_verified ≡ true) × (r.diff ≡ [])

-- the statuses that report no problem
abbrev pub is_verified : BatchStatus → Bool
is_verified verified_paused = true
is_verified reconciled_not_created = true
is_verified reconciled_verified_paused = true
is_verified _ = false

pub data Sound : Step → Type 0 where
  goes : (r : PlanReadbackReceipt) → Confirmed r → Sound (next r)
  breaks : (r : PlanReadbackReceipt) (s : BatchStatus) → is_verified s ≡ false → Sound (stop r s)

create_status-broken : (e : Exc) → is_verified (create_status e) ≡ false
create_status-broken (seeding c) = elim (Bool-cases (is_transport c)) [
  | inl t ↦ rw t refl
  | inr f ↦ rw f refl
]
create_status-broken integrity_error = refl
create_status-broken value_error = refl
create_status-broken unexpected = refl

if-Sound :
    (b : Bool) (r : PlanReadbackReceipt)
    → (b ≡ true → Confirmed r)
    → Sound (if b then next r else stop r readback_mismatch)
if-Sound true r f = goes r (f refl)
if-Sound false r f = breaks r readback_mismatch refl

judged :
    (labels : List Label) (paused : Bool) (l : Label)
    → is_empty (labels ++ note_if (not paused) l) ≡ true
    → (paused ≡ true) × (labels ++ note_if (not paused) l ≡ [])
judged [] true l h = (refl, refl)
judged [] false l h = absurd (cc h)
judged (x ∷ labels) paused l h = absurd (cc h)

module _ (sha256_json : Payload → String) (w : World) (advertiser_id : ℕ) where
  module _ (plan : ExecutionPlanInput) where
    -- `_readback` raises, or its receipt is the judgement of some differences and of the pause.
    rows-judged :
        (ids : ObjectIds) (cs : List CampaignRow) (us : List UnitRow) (ks : List CreativeRow)
        → ((e : Exc) × (readback_rows sha256_json plan ids cs us ks ≡ err e))
          ⊎ ((labels : List Label) × (paused : Bool) × (readback_rows sha256_json plan ids cs us ks
                ≡ ok (judge sha256_json plan ids labels paused)))
    unfolding readback_rows
    rows-judged ids cs us ks = elim (Result-cases (index_rows ks)) [
      | inr (e, i) ↦ inl (e, rw (i, readback_rows) refl)
      | inl (actual, i) ↦
          elim (Result-cases
            (compare_creatives ids.creativity_ids plan.payload.creativity_list actual)) [
              | inr (e, c) ↦ inl (e, rw (i, readback_rows) (rw c refl))
              | inl (labels, c) ↦ inr (
                compare_rows sha256_json plan cs us (length ks) ++ labels,
                all_paused cs us ks,
                rw (i, readback_rows) (rw c refl),
              )
            ]
    ]

    judge-Sound :
        (ids : ObjectIds) (labels : List Label) (paused : Bool)
        → Sound (
            after_readback sha256_json w advertiser_id plan ids
              (ok (judge sha256_json plan ids labels paused)))
    unfolding judge
    judge-Sound ids labels paused =
        if-Sound (judge sha256_json plan ids labels paused).readback_verified
          (judge sha256_json plan ids labels paused)
          (λ t. let (p, d) = judged labels paused Label.pause_state_not_verified t in (t, p, d))

    after_reads-Sound :
        (ids : ObjectIds) (x : Result (List CampaignRow × List UnitRow × List CreativeRow))
        → Sound (
            after_readback sha256_json w advertiser_id plan ids
              (after_reads sha256_json w advertiser_id plan ids x))
    unfolding error_receipt
    after_reads-Sound ids (ok (cs, us, ks)) = elim (rows-judged ids cs us ks) [
      | inl (e, p) ↦ rw p (breaks _ _ refl)
      | inr (labels, paused, p) ↦ rw p (judge-Sound ids labels paused)
    ]
    after_reads-Sound ids (err (seeding c)) = breaks _ _ refl
    after_reads-Sound ids (err integrity_error) = breaks _ _ refl
    after_reads-Sound ids (err value_error) = breaks _ _ refl
    after_reads-Sound ids (err unexpected) = breaks _ _ refl

    -- A step that ends soundly, with calls of one sort alone after `h`.
    abbrev pub Ends : (Call → Bool) → List Call → Step × List Call → Type 0
    Ends sort h r = Sound r.0 × Calls sort h r.1

    abbrev pub Ran : List Call → Step × List Call → Type 0
    Ran = Ends is_plan_call

    abbrev one : (c : Call) (h : List Call) → is_plan_call c ≡ true → Adds h (c ∷ h)
    one c h p = more c h p done

    module _ (sort : Call → Bool) (reads : Reads sort) where
      read_objects-Calls :
          (ids : ObjectIds) (h : List Call)
          → Calls sort h (read_objects sha256_json w advertiser_id plan ids h).1
      unfolding read_objects
      read_objects-Calls ids h =
          ask-Calls sort w.on_campaigns (list_campaigns (ids.campaign_id ∷ [])) _ h (reads.0 _)
            (λ _. ask-Calls sort w.on_units (list_units (ids.unit_id ∷ [])) _ _ (reads.1 _) (λ _.
              ask-Calls sort w.on_creatives (search_creativities ids.creativity_ids) _ _ (reads.2 _)
                (λ _. done)))

      readback-Ends :
          (ids : ObjectIds) (h : List Call)
          → Ends sort h (readback sha256_json w advertiser_id plan ids h)
      unfolding readback
      readback-Ends ids h = (after_reads-Sound ids _, read_objects-Calls ids h)

      pub after_pause-Ends :
          (ids : ObjectIds) (x : Result (List ℕ)) (h : List Call)
          → Ends sort h (after_pause sha256_json w advertiser_id plan ids x h)
      after_pause-Ends ids (err e) h = (breaks _ _ refl, done)
      after_pause-Ends ids (ok paused) h = elim (Bool-cases (member ids.campaign_id paused)) [
        | inl t ↦ rw t (readback-Ends ids h)
        | inr f ↦ rw f (breaks _ _ refl, done)
      ]

    after_extract-Ran :
        (x : Result ObjectIds) (h : List Call)
        → Ran h (after_extract sha256_json w advertiser_id plan x h)
    after_extract-Ran (err (seeding c)) h = (breaks _ _ refl, done)
    after_extract-Ran (err integrity_error) h = (breaks _ _ refl, done)
    after_extract-Ran (err value_error) h = (breaks _ _ refl, done)
    after_extract-Ran (err unexpected) h = (breaks _ _ refl, done)
    after_extract-Ran (ok ids) h =
        let c = update_campaign_status (ids.campaign_id ∷ []) 2 in
        let (s, a) =
          after_pause-Ends is_plan_call plan_calls-Reads ids (w.on_update (c ∷ h)) (c ∷ h) in
        (s, Calls-trans is_plan_call h (c ∷ h) _ (one c h refl) a)

    after_create-Ran :
        (x : Result (List CascadeRow)) (h : List Call)
        → Ran h (after_create sha256_json w advertiser_id plan x h)
    after_create-Ran (ok rows) h = after_extract-Ran _ h
    after_create-Ran (err e) h = (breaks _ _ (create_status-broken e), done)

    pub created :
        (h : List Call)
        → Adds (create_cascade plan.payload ∷ h) (run_plan sha256_json w advertiser_id plan h).1
    unfolding run_plan
    created h =
        (after_create-Ran (w.on_create (create_cascade plan.payload ∷ h))
          (create_cascade plan.payload ∷ h)).1

    pub run_plan-Ran : (h : List Call) → Ran h (run_plan sha256_json w advertiser_id plan h)
    unfolding run_plan
    run_plan-Ran h =
        let c = create_cascade plan.payload in
        let (s, a) = after_create-Ran (w.on_create (c ∷ h)) (c ∷ h) in
        (s, Calls-trans is_plan_call h (c ∷ h) _ (one c h refl) a)
