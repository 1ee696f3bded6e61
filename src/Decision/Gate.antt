-- ===== src/Decision/Gate.antt =====
-- app/seeding/decision.py: `search_release_allowed`. The value of the primary KPI is a float, of a type
-- that is a parameter with its `<`.
pub mod Passes
pub mod Tests
use seeding_plan_backend.Prelude.{
  ℕ, Bool, true, false, not, Option, none, some, List, [], ◌∷◌, ◌++◌, ◌&&◌, ltb, if◌then◌else◌,
}

-- the reason codes
pub data Reason : Type 0 where
  search_release_gate_not_frozen search_note_unavailable search_data_quality_invalid : Reason
  search_observation_window_insufficient search_spend_insufficient : Reason
  search_impressions_insufficient search_primary_kpi_below_gate : Reason
  search_primary_kpi_above_gate : Reason

pub data Comparison : Type 0 where
  gte lte : Comparison

abbrev pub is_gte : Comparison → Bool
is_gte gte = true
is_gte lte = false

abbrev pub reason_if : Bool → Reason → List Reason
reason_if b r = if b then r ∷ [] else []

abbrev pub none_left : List Reason → Bool
none_left [] = true
none_left (_ ∷ _) = false

module _ (Float : Type 0) (less : Float → Float → Bool) where
  pub record SearchReleaseEvidence : Type 0 where
    pub observation_days : ℕ
    pub spend_fen : ℕ
    pub impressions : ℕ
    pub primary_kpi_value : Float
    pub data_quality_ok : Bool
    pub note_available : Bool

  pub record SearchReleaseGate : Type 0 where
    pub min_observation_days : ℕ
    pub min_spend_fen : ℕ
    pub min_impressions : ℕ
    pub min_primary_kpi_value : Float
    pub primary_kpi_comparison : Comparison

  unfoldable pub reasons : SearchReleaseEvidence → SearchReleaseGate → List Reason
  reasons e gate =
      reason_if (not e.note_available) search_note_unavailable
      ++ (reason_if (not e.data_quality_ok) search_data_quality_invalid
          ++ (reason_if (ltb e.observation_days gate.min_observation_days)
                search_observation_window_insufficient
              ++ (reason_if (ltb e.spend_fen gate.min_spend_fen) search_spend_insufficient
                  ++ (reason_if (ltb e.impressions gate.min_impressions)
                        search_impressions_insufficient
                      ++ (reason_if
                            (is_gte gate.primary_kpi_comparison
                              && less e.primary_kpi_value gate.min_primary_kpi_value)
                            search_primary_kpi_below_gate
                          ++ reason_if
                              (not (is_gte gate.primary_kpi_comparison)
                                && less gate.min_primary_kpi_value e.primary_kpi_value)
                              search_primary_kpi_above_gate)))))

  unfoldable pub search_release_allowed :
      SearchReleaseEvidence → Option SearchReleaseGate → Bool × List Reason
  unfolding reasons
  search_release_allowed e none = (false, search_release_gate_not_frozen ∷ [])
  search_release_allowed e (some gate) = (none_left (reasons e gate), reasons e gate)
