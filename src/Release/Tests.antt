-- ===== src/Release/Tests.antt =====
-- A platform that answers every call as wished, and the theorems on the release engine applied to it.
use seeding_plan_backend.Prelude.{
  ◌≡◌, ◌⊎◌, Bool, true, false, Option, some, List, [], ◌∷◌, ◌++◌, String,
}
use seeding_plan_backend.Errors.{ok}
use seeding_plan_backend.Release.{Call, World, Campaign, activate, evaluate_spend, pause_and_relock}
use seeding_plan_backend.Release.Safety.{Paused, Relocked, pause, relock, pause_and_relock_lem}
use seeding_plan_backend.Release.Activation.{Activated, activate-Activated}
use seeding_plan_backend.Release.Spend.{Evaluated, evaluate_spend-Evaluated}

abbrev campaign : Campaign
campaign = record { campaign_id = some 7; campaign_enable = some 1; campaign_filter_state = some 1 }

-- The spend has passed a cap of 100.
abbrev world : World
world = record {
  on_preflight = λ _. ok tt;
  on_arm = λ _. ok "armed";
  on_verify_armed = λ _. ok true;
  on_update = λ _. ok (7 ∷ []);
  on_list = λ _. ok (campaign ∷ []);
  on_spend = λ _. ok 101;
  on_relock = λ _. ok "locked";
  on_verify_locked = λ _. ok true;
}

activate-Activated_example :
    Activated world 1 (7 ∷ []) 100 "DAY" [] (activate world 1 (7 ∷ []) 100 "DAY" [])
activate-Activated_example = activate-Activated world 1 (7 ∷ []) 100 "DAY" []

evaluate_spend-Evaluated_example :
    Evaluated world 1 (7 ∷ []) 100 [] (evaluate_spend world 1 (7 ∷ []) 100 [])
evaluate_spend-Evaluated_example = evaluate_spend-Evaluated world 1 (7 ∷ []) 100 []

pause_and_relock_lem_example :
    (o : Option String) × (locked : Bool) × (later : List Call) × (pause_and_relock world 1
        (7 ∷ [])
        []
      ≡ (ok (o, locked), later ++ relock world 1 (7 ∷ []) ∷ pause world 1 (7 ∷ []) ∷ []))
    × ((locked ≡ false)
        ⊎ ((locked ≡ true)
            × Paused world 1 (7 ∷ []) []
            × Relocked world 1 (7 ∷ []) (pause world 1 (7 ∷ []) ∷ []) o))
pause_and_relock_lem_example = pause_and_relock_lem world 1 (7 ∷ []) []
