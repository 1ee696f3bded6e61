-- ===== src/Execution/Readback.antt =====
-- app/seeding/execution.py: `_readback` after the three reads, with `_compare`,
-- `_compare_target_info`, `_compare_keywords`, and `_error_receipt`.
use seeding_plan_backend.Prelude.{
  ℕ, Bool, true, false, not, Option, none, some, List, [], ◌∷◌, ◌++◌, String, ◌&&◌, ◌||◌, any, all,
  length, eqb, if◌then◌else◌,
}
use seeding_plan_backend.Errors.{Result, ok, err, value_error, unexpected}
use seeding_plan_backend.Execution.{
  Value, null, int, same, Target, Keyword, Creative, Payload, ExecutionPlanInput, ObjectIds,
  CampaignRow, UnitRow, CreativeRow, Label, PlanReadbackReceipt,
}

-- diff.append(label) where the two differ
abbrev pub compare : Label → Value → Value → List Label
compare label expected actual = if same expected actual then [] else label ∷ []

abbrev pub note_if : Bool → Label → List Label
note_if wrong label = if wrong then label ∷ [] else []

abbrev pub elem : Value → List Value → Bool
elem v vs = any (same v) vs

-- set equality
abbrev pub same_set : List Value → List Value → Bool
same_set xs ys = all (λ v. elem v ys) xs && all (λ v. elem v xs) ys

-- tuple equality
unfoldable pub same_list : List Value → List Value → Bool
same_list [] [] = true
same_list (x ∷ xs) (y ∷ ys) = same x y && same_list xs ys
same_list _ _ = false

abbrev pub same_keyword : Keyword → Keyword → Bool
same_keyword a b =
    same a.keyword b.keyword && same a.bid b.bid && same a.phrase_match_type b.phrase_match_type

-- the list without the first row equal to the given one
unfoldable pub take_out : Keyword → List Keyword → Option (List Keyword)
take_out k [] = none
take_out k (x ∷ xs) =
    let rest = take_out k xs in
    if same_keyword k x then some xs else elim rest [ none ↦ none | some ys ↦ some (x ∷ ys) ]

-- Two sorted lists are equal where one is a rearrangement of the other.
unfoldable pub same_keywords : List Keyword → List Keyword → Bool
unfolding take_out
same_keywords [] [] = true
same_keywords [] (_ ∷ _) = false
same_keywords (x ∷ xs) ys =
    let rest = λ (zs : List Keyword). same_keywords xs zs in
    elim (take_out x ys) [ none ↦ false | some zs ↦ rest zs ]

unfoldable pub compare_target_info : Target → Target → List Label
unfolding same_list
compare_target_info expected actual =
    compare Label.target_gender expected.target_gender actual.target_gender
    ++ compare Label.target_area_code expected.target_area_code actual.target_area_code
    ++ compare Label.target_age expected.target_age actual.target_age
    ++ compare Label.target_device expected.target_device actual.target_device
    ++ note_if (not (same_set expected.crowd_pkg actual.crowd_pkg)) Label.target_crowd_packages
    ++ note_if (not (same_list expected.keywords actual.keywords)) Label.target_behavior_keywords

-- {} in place of a campaign or unit that is missing
abbrev no_target : Target
no_target = record {
  target_gender = null;
  target_area_code = null;
  target_age = null;
  target_device = null;
  crowd_pkg = [];
  keywords = [];
}

abbrev pub only_campaign : List CampaignRow → CampaignRow
only_campaign (c ∷ []) = c
only_campaign _ = record {
  campaign_name = null;
  marketing_target = null;
  placement = null;
  bidding_strategy = null;
  campaign_day_budget = null;
  campaign_filter_state = null;
  campaign_enable = null;
}

abbrev pub only_unit : List UnitRow → UnitRow
only_unit (u ∷ []) = u
only_unit _ = record {
  name = null;
  target_type = null;
  event_bid = null;
  target_config = no_target;
  keyword_with_bids = [];
  enable = null;
  unit_filter_state = null;
}

-- {int(item.get("creativity_id", 0)): item for item in creatives}
unfoldable pub index_rows : List CreativeRow → Result (List (ℕ × CreativeRow))
index_rows [] = ok []
index_rows (c ∷ cs) = elim c.creativity_id [
  | none ↦ err value_error
  | some n ↦ elim (index_rows cs) [ ok rest ↦ ok ((n, c) ∷ rest) | err e ↦ err e ]
]

-- the last row of an id stays
unfoldable pub last_row : ℕ → List (ℕ × CreativeRow) → Option CreativeRow
last_row n [] = none
last_row n ((m, c) ∷ rest) = elim (last_row n rest) [
  | some d ↦ some d
  | none ↦ if eqb m n then some c else none
]

abbrev pub compare_creative : ℕ → Creative → CreativeRow → List Label
compare_creative n expected actual =
    compare (Label.creativity_note n) expected.note_id actual.note_id
    ++ compare (Label.creativity_conversion n) expected.conversion_type actual.conversion_type

-- The loop over enumerate(creativity_ids). A row with no expected creative is an IndexError.
unfoldable pub compare_creatives :
    List ℕ → List Creative → List (ℕ × CreativeRow) → Result (List Label)
unfolding last_row
compare_creatives [] expected actual = ok []
compare_creatives (n ∷ ns) [] actual = elim (last_row n actual) [
  | some _ ↦ err unexpected
  | none ↦ elim (compare_creatives ns [] actual) [
    | ok rest ↦ ok (Label.creativity_missing n ∷ rest)
    | err e ↦ err e
  ]
]
compare_creatives (n ∷ ns) (x ∷ xs) actual = elim (compare_creatives ns xs actual) [
  | err e ↦ err e
  | ok rest ↦ elim (last_row n actual) [
    | none ↦ ok (Label.creativity_missing n ∷ rest)
    | some c ↦ ok (compare_creative n x c ++ rest)
  ]
]

abbrev pub is_int : ℕ → Value → Bool
is_int n v = same v (int n)

unfoldable pub campaign_paused : CampaignRow → Bool
campaign_paused c = is_int 2 c.campaign_filter_state || is_int 0 c.campaign_enable

unfoldable pub unit_paused : UnitRow → Bool
unit_paused u = is_int 0 u.enable || is_int 4 u.unit_filter_state || is_int 6 u.unit_filter_state

abbrev pub creative_paused : CreativeRow → Bool
creative_paused c =
    is_int 0 c.creativity_enable
    || is_int 3 c.creativity_filter_state
    || is_int 4 c.creativity_filter_state
    || is_int 5 c.creativity_filter_state

abbrev pub all_paused : List CampaignRow → List UnitRow → List CreativeRow → Bool
all_paused campaigns units creatives =
    campaign_paused (only_campaign campaigns)
    && unit_paused (only_unit units)
    && all creative_paused creatives

-- not diff
abbrev pub is_empty : List Label → Bool
is_empty [] = true
is_empty (_ ∷ _) = false

module _ (sha256_json : Payload → String) (plan : ExecutionPlanInput) where
  unfoldable pub error_receipt : Option ObjectIds → Label → PlanReadbackReceipt
  error_receipt object_ids code = record {
    plan_revision_id = plan.plan_revision_id;
    logical_plan_key = plan.logical_plan_key;
    platform_request_sha256 = sha256_json plan.payload;
    object_ids = object_ids;
    expected_sha256 = plan.payload_sha256;
    actual_recorded = false;
    pause_verified = false;
    readback_verified = false;
    diff = code ∷ [];
    platform_error_code = some code;
  }

  -- the comparisons of the campaign and of the unit
  unfoldable pub compare_rows : List CampaignRow → List UnitRow → ℕ → List Label
  unfolding compare_target_info same_keywords
  compare_rows campaigns units creatives =
      let p = plan.payload in
      let c = only_campaign campaigns in
      let u = only_unit units in
      note_if (not (eqb (length campaigns) 1)) Label.campaign_count
      ++ note_if (not (eqb (length units) 1)) Label.unit_count
      ++ note_if (not (eqb creatives (length p.creativity_list))) Label.creativity_count
      ++ compare Label.campaign_name p.campaign_name c.campaign_name
      ++ compare Label.marketing_target p.marketing_target c.marketing_target
      ++ compare Label.placement p.placement c.placement
      ++ compare Label.bidding_strategy p.bidding_strategy c.bidding_strategy
      ++ compare Label.campaign_budget p.origin_campaign_day_budget c.campaign_day_budget
      ++ compare Label.unit_name p.unit_name u.name
      ++ compare Label.target_type p.target_type u.target_type
      ++ compare Label.event_bid p.event_bid u.event_bid
      ++ compare_target_info p.target_info u.target_config
      ++ note_if (not (same_keywords p.keyword_with_bid u.keyword_with_bids)) Label.keyword_with_bid

  unfoldable pub judge : ObjectIds → List Label → Bool → PlanReadbackReceipt
  judge object_ids labels paused = record {
    plan_revision_id = plan.plan_revision_id;
    logical_plan_key = plan.logical_plan_key;
    platform_request_sha256 = sha256_json plan.payload;
    object_ids = some object_ids;
    expected_sha256 = plan.payload_sha256;
    actual_recorded = true;
    pause_verified = paused;
    readback_verified = is_empty (labels ++ note_if (not paused) Label.pause_state_not_verified);
    diff = labels ++ note_if (not paused) Label.pause_state_not_verified;
    platform_error_code = none;
  }

  -- `_readback` once the three lists have been read
  unfoldable pub readback_rows :
      ObjectIds → List CampaignRow → List UnitRow → List CreativeRow → Result PlanReadbackReceipt
  unfolding compare_rows index_rows compare_creatives campaign_paused unit_paused judge
  readback_rows object_ids campaigns units creatives = elim (index_rows creatives) [
    | err e ↦ err e
    | ok actual ↦
        elim (compare_creatives object_ids.creativity_ids plan.payload.creativity_list actual) [
          | err e ↦ err e
          | ok labels ↦ ok (
              judge object_ids (compare_rows campaigns units (length creatives) ++ labels)
                (all_paused campaigns units creatives))
        ]
  ]
