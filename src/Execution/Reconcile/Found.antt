-- ===== src/Execution/Reconcile/Found.antt =====
-- What a reconciliation establishes for one plan, against every behaviour of the platform.
use seeding_plan_backend.Prelude.{
  ℕ, ◌≡◌, refl, ◌⊎◌, inl, inr, Bool, true, false, not, none, List, [], ◌∷◌, String, ◌||◌, any, eqb,
  length, In, where_rows, In-where_rows, Bool-cases,
}
use seeding_plan_backend.Errors.{
  Result, ok, err, Exc, seeding, value_error, integrity_error, unexpected,
}
use seeding_plan_backend.Execution.{
  overflow, Payload, ExecutionPlanInput, ObjectIds, FoundCampaign, FoundUnit, FoundCreative,
  PlanReadbackReceipt, BatchStatus,
}
use seeding_plan_backend.Execution.Engine.{
  Call, update_campaign_status, list_campaigns, list_units, search_creativities, find_campaigns,
  find_units, find_creatives, World, Step, next, stop, extract_status,
}
use seeding_plan_backend.Execution.Steps.{
  Calls, done, more, Calls-trans, Confirmed, is_verified, Sound, goes, breaks, after_pause-Ends,
}
use seeding_plan_backend.Execution.Reconcile.{
  named, unit_named, expected_notes, not_created, pause_found, check_creatives, after_creatives,
  search_creatives, after_unit, after_units, search_units, after_campaign, after_campaigns,
  reconcile_plan,
}
use seeding_plan_backend.Execution.Reconcile.Rows.{id_or_zero-cases, found_ids-cases}

-- The calls made for a plan: searches, reads and pauses, never a create, an enabling or a relock.
abbrev pub is_search_call : Call → Bool
is_search_call (update_campaign_status _ n) = eqb n 2
is_search_call (list_campaigns _) = true
is_search_call (list_units _) = true
is_search_call (search_creativities _) = true
is_search_call (find_campaigns _) = true
is_search_call (find_units _) = true
is_search_call (find_creatives _ _) = true
is_search_call _ = false

extract_status-broken : (e : Exc) → is_verified (extract_status e) ≡ false
extract_status-broken (seeding c) = refl
extract_status-broken integrity_error = refl
extract_status-broken value_error = refl
extract_status-broken unexpected = refl

module _ (sha256_json : Payload → String) (w : World) (advertiser_id : ℕ)
    (plan : ExecutionPlanInput) where
  -- A search of the platform by the plan's campaign name found no campaign of that name.
  abbrev pub Absent : Type 0
  Absent =
      (h : List Call) × (rows : List FoundCampaign) × (w.on_find_campaigns
          (find_campaigns plan.payload.campaign_name ∷ h)
        ≡ ok rows)
      × (where_rows (named plan.payload.campaign_name) rows ≡ [])

  -- The last call was a search, and the platform answered it with a row whose id overflows or whose
  -- note id cannot be hashed.
  pub data Unread (g : List Call) : Type 0 where
    bad_campaign :
        (before : List Call) (rows : List FoundCampaign) (row : FoundCampaign)
        → g ≡ find_campaigns plan.payload.campaign_name ∷ before
        → w.on_find_campaigns g ≡ ok rows
        → In row rows
        → row.campaign_id ≡ overflow
        → Unread g
    bad_unit :
        (id : ℕ) (before : List Call) (rows : List FoundUnit) (row : FoundUnit)
        → g ≡ find_units id ∷ before
        → w.on_find_units g ≡ ok rows
        → In row rows
        → row.unit_id ≡ overflow
        → Unread g
    bad_creative :
        (id other : ℕ) (before : List Call) (rows : List FoundCreative) (row : FoundCreative)
        → g ≡ find_creatives id other ∷ before
        → w.on_find_creatives g ≡ ok rows
        → In row rows
        → (row.note_id ≡ none) ⊎ (row.creativity_id ≡ overflow)
        → Unread g

  -- How the body of the loop ends.
  pub data Resolved (h : List Call) (r : Result (Bool × Step) × List Call) : Type 0 where
    absent :
        r.0 ≡ ok (false, next (not_created sha256_json w advertiser_id plan))
        → Absent
        → Calls is_search_call h r.1
        → Resolved h r
    broken :
        (b : Bool) (x : PlanReadbackReceipt) (s : BatchStatus)
        → r.0 ≡ ok (b, stop x s)
        → is_verified s ≡ false
        → Calls is_search_call h r.1
        → Resolved h r
    present :
        (x : PlanReadbackReceipt)
        → r.0 ≡ ok (true, next x)
        → Confirmed x
        → Calls is_search_call h r.1
        → Resolved h r
    escaped :
        (g : List Call)
        → r ≡ (err unexpected, g)
        → Unread g
        → Calls is_search_call h g
        → Resolved h r

  -- one more call before
  after_call :
      (c : Call) (h : List Call) (r : Result (Bool × Step) × List Call)
      → is_search_call c ≡ true
      → Resolved (c ∷ h) r
      → Resolved h r
  after_call c h r p (absent e a g) =
      absent e a (Calls-trans is_search_call h (c ∷ h) _ (more c h p done) g)
  after_call c h r p (broken b x s e v g) =
      broken b x s e v (Calls-trans is_search_call h (c ∷ h) _ (more c h p done) g)
  after_call c h r p (present x e v g) =
      present x e v (Calls-trans is_search_call h (c ∷ h) _ (more c h p done) g)
  after_call c h r p (escaped k e u g) =
      escaped k e u (Calls-trans is_search_call h (c ∷ h) _ (more c h p done) g)

  pause_found-Resolved :
      (ids : ObjectIds) (h : List Call)
      → Resolved h (pause_found sha256_json w advertiser_id plan ids h)
  unfolding pause_found
  pause_found-Resolved ids h =
      let c = update_campaign_status (ids.campaign_id ∷ []) 2 in
      let (s, g) =
        after_pause-Ends sha256_json w advertiser_id plan is_search_call
          ((λ l. refl), (λ l. refl), (λ l. refl)) ids (w.on_update (c ∷ h)) (c ∷ h) in
      after_call c h _ refl (go _ _ s g)
    where
      go :
          (s : Step) (g : List Call)
          → Sound s
          → Calls is_search_call (update_campaign_status (ids.campaign_id ∷ []) 2 ∷ h) g
          → Resolved (update_campaign_status (ids.campaign_id ∷ []) 2 ∷ h) (ok (true, s), g)
      go (next x) g (goes _ c) a = present x refl c a
      go (stop x s) g (breaks _ _ v) a = broken true x s refl v a

  check_creatives-Resolved :
      (campaign unit : ℕ) (ids : List ℕ) (h : List Call)
      → Resolved h (check_creatives sha256_json w advertiser_id plan campaign unit ids h)
  check_creatives-Resolved campaign unit ids h =
      elim (Bool-cases (
        eqb unit 0
        || not (eqb (length ids) (length plan.payload.creativity_list))
        || any (eqb 0) ids)) [
          | inl t ↦ rw t (broken _ _ _ refl refl done)
          | inr f ↦ rw f (pause_found-Resolved _ h)
        ]

  search_creatives-Resolved :
      (campaign unit : ℕ) (h : List Call)
      → Resolved h (search_creatives sha256_json w advertiser_id plan campaign unit h)
  search_creatives-Resolved campaign unit h =
      after_call (find_creatives campaign unit) h _ refl
        (go (w.on_find_creatives (find_creatives campaign unit ∷ h)) refl)
    where
      go :
          (x : Result (List FoundCreative))
          → w.on_find_creatives (find_creatives campaign unit ∷ h) ≡ x
          → Resolved (find_creatives campaign unit ∷ h) (
              after_creatives sha256_json w advertiser_id plan campaign unit x
                (find_creatives campaign unit ∷ h))
      go (err e) _ = broken _ _ _ refl (extract_status-broken e) done
      go (ok rows) e =
          elim (found_ids-cases (expected_notes sha256_json w advertiser_id plan) rows) [
            | inl (ns, s) ↦ rw s (check_creatives-Resolved campaign unit ns _)
            | inr (s, row, m, o) ↦
                rw s (escaped _ refl (bad_creative campaign unit h rows row refl e m o) done)
          ]

  after_unit-Resolved :
      (campaign : ℕ) (rows : List FoundUnit) (h before : List Call)
      → h ≡ find_units campaign ∷ before
      → w.on_find_units h ≡ ok rows
      → (found : List FoundUnit) → ((row : FoundUnit) → In row found → In row rows)
      → Resolved h (after_unit sha256_json w advertiser_id plan campaign found h)
  after_unit-Resolved campaign rows h before k e [] m = broken _ _ _ refl refl done
  after_unit-Resolved campaign rows h before k e (row ∷ []) m =
      elim (id_or_zero-cases row.unit_id) [
        | inl (n, s) ↦ rw s (search_creatives-Resolved campaign n h)
        | inr (s, o) ↦
            rw s (escaped h refl (bad_unit campaign before rows row k e (m row (inl refl)) o) done)
      ]
  after_unit-Resolved campaign rows h before k e (_ ∷ _ ∷ _) m = broken _ _ _ refl refl done

  search_units-Resolved :
      (campaign : ℕ) (h : List Call)
      → Resolved h (search_units sha256_json w advertiser_id plan campaign h)
  search_units-Resolved campaign h = elim (Bool-cases (eqb campaign 0)) [
    | inl t ↦ rw t (broken _ _ _ refl refl done)
    | inr f ↦ rw f (
        after_call (find_units campaign) h _ refl
          (go (w.on_find_units (find_units campaign ∷ h)) refl))
  ]
    where
      go :
          (x : Result (List FoundUnit))
          → w.on_find_units (find_units campaign ∷ h) ≡ x
          → Resolved
              (find_units campaign ∷ h)
              (after_units sha256_json w advertiser_id plan campaign x (find_units campaign ∷ h))
      go (err e) _ = broken _ _ _ refl (extract_status-broken e) done
      go (ok rows) e =
          let p = unit_named plan.payload.unit_name in
          after_unit-Resolved campaign rows _ h refl e (where_rows p rows)
            (λ row m. (In-where_rows p row rows m).0)

  pub reconcile_plan-Resolved :
      (h : List Call) → Resolved h (reconcile_plan sha256_json w advertiser_id plan h)
  unfolding reconcile_plan
  reconcile_plan-Resolved h =
      let c = find_campaigns plan.payload.campaign_name in
      after_call c h _ refl (go (w.on_find_campaigns (c ∷ h)) refl)
    where
      some_rows :
          (rows found : List FoundCampaign)
          → w.on_find_campaigns (find_campaigns plan.payload.campaign_name ∷ h) ≡ ok rows
          → where_rows (named plan.payload.campaign_name) rows ≡ found
          → ((row : FoundCampaign) → In row found → In row rows)
          → Resolved (find_campaigns plan.payload.campaign_name ∷ h) (
              after_campaign sha256_json w advertiser_id plan found
                (find_campaigns plan.payload.campaign_name ∷ h))
      some_rows rows [] e f m = absent refl (h, rows, e, f) done
      some_rows rows (row ∷ []) e f m = elim (id_or_zero-cases row.campaign_id) [
        | inl (n, s) ↦ rw s (search_units-Resolved n _)
        | inr (s, o) ↦
            rw s (escaped _ refl (bad_campaign h rows row refl e (m row (inl refl)) o) done)
      ]
      some_rows rows (_ ∷ _ ∷ _) e f m = broken _ _ _ refl refl done

      go :
          (x : Result (List FoundCampaign))
          → w.on_find_campaigns (find_campaigns plan.payload.campaign_name ∷ h) ≡ x
          → Resolved (find_campaigns plan.payload.campaign_name ∷ h) (
              after_campaigns sha256_json w advertiser_id plan x
                (find_campaigns plan.payload.campaign_name ∷ h))
      go (err e) _ = broken _ _ _ refl (extract_status-broken e) done
      go (ok rows) e =
          let p = named plan.payload.campaign_name in
          some_rows rows _ e refl (λ row m. (In-where_rows p row rows m).0)
