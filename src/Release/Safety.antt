-- ===== src/Release/Safety.antt =====
-- The emergency stop of the release engine, against every behaviour of the platform and the adapter.
use seeding_plan_backend.Prelude.{
  ℕ, ◌≡◌, refl, ap, ◌∙◌, ◌⊎◌, inl, inr, Bool, true, false, Option, none, some, List, [], ◌∷◌, ◌++◌,
  String, Bool-cases,
}
use seeding_plan_backend.Errors.{ok, Result-cases, bind-do}
use seeding_plan_backend.Release.{
  Call, World, update_campaign_status, emergency_relock, verify_locked, same_set, pause_all,
  relock_all, pause_and_relock,
}

module _ (w : World) (advertiser_id : ℕ) (ids : List ℕ) where
  abbrev pub pause : Call
  pause = update_campaign_status ids 2

  abbrev pub relock : Call
  relock = emergency_relock ids

  -- The platform confirmed the pause of exactly these ids, when asked after the calls `h`.
  abbrev pub Paused : List Call → Type 0
  Paused h =
      (paused : List ℕ) × (w.on_update (pause ∷ h) ≡ ok paused) × (same_set paused ids ≡ true)

  -- The adapter relocked the campaigns with the receipt and confirmed it, when asked after `h`.
  abbrev pub Relocked : List Call → Option String → Type 0
  Relocked h o =
      (r : String) × (o ≡ some r)
      × (w.on_relock (relock ∷ h) ≡ ok r)
      × (w.on_verify_locked (verify_locked r ∷ relock ∷ h) ≡ ok true)

  pause_all_lem :
      (h : List Call)
      → (b : Bool) × (pause_all w advertiser_id ids h ≡ (ok b, pause ∷ h))
        × ((b ≡ false) ⊎ ((b ≡ true) × Paused h))
  unfolding pause_all
  pause_all_lem h = elim (Result-cases (w.on_update (pause ∷ h))) [
    | inl (paused, e) ↦ (
      same_set paused ids,
      rw (e, pause_all) refl,
      elim (Bool-cases (same_set paused ids)) [ inl t ↦ inr (t, (paused, e, t)) | inr t ↦ inl t ],
    )
    | inr (x, e) ↦ (false, rw (e, pause_all) refl, inl refl)
  ]

  relock_all_lem :
      (b : Bool) (h : List Call)
      → (o : Option String) × (locked : Bool) × (later : List Call) × (relock_all w advertiser_id b
            ids h
          ≡ (ok (o, locked), later ++ relock ∷ h))
        × ((locked ≡ false) ⊎ ((locked ≡ true) × (b ≡ true) × Relocked h o))
  unfolding relock_all
  relock_all_lem false h = elim (Result-cases (w.on_relock (relock ∷ h))) [
    | inl (r, e) ↦ (some r, false, [], rw (e, relock_all) refl, inl refl)
    | inr (x, e) ↦ (none, false, [], rw (e, relock_all) refl, inl refl)
  ]
  relock_all_lem true h = elim (Result-cases (w.on_relock (relock ∷ h))) [
    | inr (x, e) ↦ (none, false, [], rw (e, relock_all) refl, inl refl)
    | inl (r, e) ↦ elim (Result-cases (w.on_verify_locked (verify_locked r ∷ relock ∷ h))) [
      | inr (x, v) ↦ (none, false, verify_locked r ∷ [], rw (e, relock_all) (rw v refl), inl refl)
      | inl (locked, v) ↦ (
        some r,
        locked,
        verify_locked r ∷ [],
        rw (e, relock_all) (rw v refl),
        elim (Bool-cases locked) [
          | inl t ↦ inr (t, refl, (r, refl, e, v ∙ ap ok t))
          | inr t ↦ inl t
        ],
      )
    ]
  ]

  -- `pause_and_relock` never raises. Whatever the platform and the adapter answer, it asks for the
  -- pause of all ids and then for the relock; and it reports safe only where the platform confirmed
  -- the pause of exactly these ids and the adapter confirmed the lock of the receipt it returns.
  pub pause_and_relock_lem :
      (h : List Call)
      → (o : Option String) × (locked : Bool) × (later : List Call) × (pause_and_relock w
            advertiser_id ids h
          ≡ (ok (o, locked), later ++ relock ∷ pause ∷ h))
        × ((locked ≡ false) ⊎ ((locked ≡ true) × Paused h × Relocked (pause ∷ h) o))
  unfolding pause_and_relock
  pause_and_relock_lem h =
      let (b, p, pausing) = pause_all_lem h in
      let (o, locked, later, q, locking) = relock_all_lem b (pause ∷ h) in
      (
        o,
        locked,
        later,
        bind-do (pause_all w advertiser_id ids) (λ v. relock_all w advertiser_id v ids) h
            (pause ∷ h) b _ p q,
        elim locking [
          | inl f ↦ inl f
          | inr l ↦ elim pausing [ inl n ↦ absurd (cc (n, l.1)) | inr p ↦ inr (l.0, p.1, l.2) ]
        ],
      )
