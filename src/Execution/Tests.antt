-- ===== src/Execution/Tests.antt =====
-- A platform that creates what it is asked for and shows it paused, and the theorems on the engine
-- applied to it.
use seeding_plan_backend.Prelude.{◌≡◌, refl, true, some, List, [], ◌∷◌, String}
use seeding_plan_backend.Errors.{ok, err, seeding, payload_sha_mismatch}
use seeding_plan_backend.Execution.{
  int, text, null, number, Target, Payload, Creative, ExecutionPlanInput, ObjectIds,
}
use seeding_plan_backend.Execution.Readback.{
  readback_rows, compare_rows, compare_creatives, index_rows, last_row, judge, campaign_paused,
  unit_paused, compare_target_info, same_list, same_keywords, take_out,
}
use seeding_plan_backend.Execution.Engine.{
  Call, preflight, create_cascade, update_campaign_status, list_campaigns, list_units,
  search_creativities, World, next, run_plan, readback, read_objects, extract_object_ids,
  read_int_ids, execute,
}
use seeding_plan_backend.Execution.Steps.{Adds}
use seeding_plan_backend.Execution.Relock.{Executed, execute-Executed, execute_changed_payload}

abbrev pub target : Target
target = record {
  target_gender = int 0;
  target_area_code = null;
  target_age = null;
  target_device = null;
  crowd_pkg = [];
  keywords = [];
}

abbrev pub creative : Creative
creative = record { note_id = text "n"; conversion_type = int 1 }

abbrev pub payload : Payload
payload = record {
  campaign_name = text "c";
  marketing_target = int 4;
  placement = int 1;
  bidding_strategy = int 2;
  origin_campaign_day_budget = int 500;
  unit_name = text "u";
  target_type = int 1;
  event_bid = int 30;
  target_info = target;
  keyword_with_bid = [];
  creativity_list = creative ∷ [];
}

-- The hash of every payload is "h" here.
abbrev pub sha : Payload → String
sha _ = "h"

abbrev pub plan : String → ExecutionPlanInput
plan h = record {
  plan_revision_id = "r";
  logical_plan_key = "k";
  payload = payload;
  payload_sha256 = h;
}

abbrev pub world : World
world = record {
  on_preflight = λ _. ok tt;
  on_create = λ _. ok (
      record {
        campaign_id = some 7;
        units = record { unit_id = some 8; creativity_ids = some 9 ∷ [] } ∷ [];
      }
      ∷ []);
  on_update = λ _. ok (7 ∷ []);
  on_campaigns = λ _. ok (
      record {
        campaign_name = text "c";
        marketing_target = int 4;
        placement = int 1;
        bidding_strategy = int 2;
        campaign_day_budget = int 500;
        campaign_filter_state = int 2;
        campaign_enable = int 0;
      }
      ∷ []);
  on_units = λ _. ok (
      record {
        name = text "u";
        target_type = int 1;
        event_bid = int 30;
        target_config = target;
        keyword_with_bids = [];
        enable = int 0;
        unit_filter_state = int 4;
      }
      ∷ []);
  on_creatives = λ _. ok (
      record {
        creativity_id = some 9;
        note_id = text "n";
        conversion_type = int 1;
        creativity_enable = int 0;
        creativity_filter_state = int 3;
      }
      ∷ []);
  on_find_campaigns = λ _. ok (record { campaign_name = text "c"; campaign_id = number 7 } ∷ []);
  on_find_units = λ _. ok (record { name = null; unit_name = text "u"; unit_id = number 8 } ∷ []);
  on_find_creatives = λ _. ok (record { creativity_id = number 9; note_id = some (text "n") } ∷ []);
  on_relock = λ _. ok "locked";
  on_verify_locked = λ _. ok true;
}

execute-Executed_example :
    Executed sha world 1 (plan "h" ∷ []) [] (execute sha world 1 (plan "h" ∷ []) [])
execute-Executed_example = execute-Executed sha world 1 (plan "h" ∷ []) []

abbrev pub ids : ObjectIds
ids = record { campaign_id = 7; unit_id = 8; creativity_ids = 9 ∷ [] }

abbrev pub calls : List Call
calls =
    search_creativities (9 ∷ [])
    ∷ list_units (8 ∷ [])
    ∷ list_campaigns (7 ∷ [])
    ∷ update_campaign_status (7 ∷ []) 2
    ∷ create_cascade payload
    ∷ preflight
    ∷ []

created :
    run_plan sha world 1 (plan "h") (preflight ∷ [])
    ≡ (next (judge sha (plan "h") ids [] true), calls)
unfolding run_plan extract_object_ids read_int_ids readback read_objects readback_rows compare_rows
    compare_creatives index_rows last_row judge campaign_paused unit_paused compare_target_info
    same_list same_keywords take_out
created = refl

execute_changed_payload_example :
    (execute sha world 1 (plan "h" ∷ plan "other" ∷ []) []
      ≡ (err (seeding payload_sha_mismatch), calls))
    × Adds (create_cascade payload ∷ preflight ∷ []) calls
execute_changed_payload_example =
    execute_changed_payload sha world 1 (plan "h") (plan "other") [] [] calls
      (judge sha (plan "h") ids [] true) refl refl created refl
