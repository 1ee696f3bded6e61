-- ===== src/Decision/Gate/Tests.antt =====
-- A note that passes a gate on a KPI that must not be too high, and the theorem applied to it. Numbers
-- stand for the floats.
use seeding_plan_backend.Prelude.{ℕ, ◌≡◌, ◌↔◌, true, Option, some, ltb}
use seeding_plan_backend.Decision.Gate.{
  lte, SearchReleaseEvidence, SearchReleaseGate, search_release_allowed,
}
use seeding_plan_backend.Decision.Gate.Passes.{Passes, search_release_allowed_iff}

abbrev evidence : SearchReleaseEvidence ℕ ltb
evidence = record {
  observation_days = 7;
  spend_fen = 5000;
  impressions = 900;
  primary_kpi_value = 3;
  data_quality_ok = true;
  note_available = true;
}

abbrev gate : Option (SearchReleaseGate ℕ ltb)
gate = some (record {
  min_observation_days = 7;
  min_spend_fen = 4000;
  min_impressions = 100;
  min_primary_kpi_value = 4;
  primary_kpi_comparison = lte;
})

search_release_allowed_iff_example :
    ((search_release_allowed ℕ ltb evidence gate).0 ≡ true) ↔ Passes ℕ ltb evidence gate
search_release_allowed_iff_example = search_release_allowed_iff ℕ ltb evidence gate
