-- ===== src/Decision/Gate/Passes.antt =====
-- When a search plan may be released.
use seeding_plan_backend.Prelude.{
  ℕ, ◌≤◌, ◌≡◌, refl, ◌↔◌, Bool, true, false, not, Option, none, some, List, ◌++◌, arith, ◌&&◌, ltb,
}
use seeding_plan_backend.Decision.Gate.{
  Reason, Comparison, gte, lte, is_gte, reason_if, none_left, SearchReleaseEvidence,
  SearchReleaseGate, reasons, search_release_allowed,
}

-- A list of reasons is empty where its first condition fails and the rest is empty.
split :
    (b : Bool) (r : Reason) (rs : List Reason)
    → none_left (reason_if b r ++ rs) ≡ true
    → (b ≡ false) × (none_left rs ≡ true)
split true r rs h = absurd (cc h)
split false r rs h = (refl, h)

split_last : (b : Bool) (r : Reason) → none_left (reason_if b r) ≡ true → b ≡ false
split_last true r h = absurd (cc h)
split_last false r h = refl

holds : (b : Bool) → not b ≡ false → b ≡ true
holds true h = refl
holds false h = absurd (cc h)

not_less : (m n : ℕ) → ltb m n ≡ false → n ≤ m
not_less m n h = ground arith

at_most : (m n : ℕ) → n ≤ m → ltb m n ≡ false
at_most m n h = ground arith

module _ (Float : Type 0) (less : Float → Float → Bool) where
  -- The KPI is on the right side of the gate.
  abbrev pub Reaches : Float → Float → Comparison → Type 0
  Reaches value bound gte = less value bound ≡ false
  Reaches value bound lte = less bound value ≡ false

  reaches :
      (v b : Float) (c : Comparison)
      → (is_gte c && less v b) ≡ false
      → (not (is_gte c) && less b v) ≡ false
      → Reaches v b c
  reaches v b gte h k = h
  reaches v b lte h k = k

  Reaches-below : (v b : Float) (c : Comparison) → Reaches v b c → (is_gte c && less v b) ≡ false
  Reaches-below v b gte h = h
  Reaches-below v b lte h = refl

  Reaches-above :
      (v b : Float) (c : Comparison) → Reaches v b c → (not (is_gte c) && less b v) ≡ false
  Reaches-above v b gte h = refl
  Reaches-above v b lte h = h

  -- A gate is frozen, and the evidence passes it.
  abbrev pub Passes :
      SearchReleaseEvidence Float less → Option (SearchReleaseGate Float less) → Type 0
  Passes e none = false ≡ true
  Passes e (some gate) =
      (e.note_available ≡ true)
      × (e.data_quality_ok ≡ true)
      × (gate.min_observation_days ≤ e.observation_days)
      × (gate.min_spend_fen ≤ e.spend_fen)
      × (gate.min_impressions ≤ e.impressions)
      × Reaches e.primary_kpi_value gate.min_primary_kpi_value gate.primary_kpi_comparison

  -- `search_release_allowed` allows the release exactly where a gate is frozen, the note is available,
  -- the quality of the data is fine, days, spend and impressions reach the minimum of the gate, and the
  -- KPI is not below the gate's value where the gate compares by GTE, not above it where by LTE.
  pub search_release_allowed_iff :
      (e : SearchReleaseEvidence Float less) (gate : Option (SearchReleaseGate Float less))
      → ((search_release_allowed Float less e gate).0 ≡ true) ↔ Passes e gate
  unfolding search_release_allowed reasons
  search_release_allowed_iff e none = ((λ h. h), (λ h. h))
  search_release_allowed_iff e (some gate) = (
    λ h.
        let (note, h1) = split _ _ _ h in
        let (quality, h2) = split _ _ _ h1 in
        let (days, h3) = split _ _ _ h2 in
        let (spend, h4) = split _ _ _ h3 in
        let (impressions, h5) = split _ _ _ h4 in
        let (below, h6) = split _ _ _ h5 in
        (
          holds e.note_available note,
          holds e.data_quality_ok quality,
          not_less _ _ days,
          not_less _ _ spend,
          not_less _ _ impressions,
          reaches _ _ gate.primary_kpi_comparison below (split_last _ _ h6),
        ),
    λ (note, quality, days, spend, impressions, kpi).
        let d = at_most e.observation_days gate.min_observation_days days in
        let f = at_most e.spend_fen gate.min_spend_fen spend in
        let m = at_most e.impressions gate.min_impressions impressions in
        let b =
          Reaches-below e.primary_kpi_value gate.min_primary_kpi_value gate.primary_kpi_comparison
            kpi in
        let a =
          Reaches-above e.primary_kpi_value gate.min_primary_kpi_value gate.primary_kpi_comparison
            kpi in
        rw (reasons, note, quality, d, f, m, b, a) refl,
  )
