-- ===== src/Store/Results/Described.antt =====
-- What the attempts and the objects of a batch say of its receipts.
use seeding_plan_backend.Prelude.{
  ℕ, ◌+◌, ◌≡◌, ◌≢◌, refl, sym, ap, ◌∙◌, ◌⊎◌, inl, inr, Bool, true, false, Option, some, List, [],
  ◌∷◌, ◌++◌, String, ◌==◌, ◌&&◌, In, All, map, eqb, eq_refl, eq_iff, subst, Bool-cases,
  if◌then◌else◌,
}
use seeding_plan_backend.Execution.{PlanReadbackReceipt, BatchExecutionReceipt}
use seeding_plan_backend.Store.{ExecutionAttempt, ObjectType, PlatformObject}
use seeding_plan_backend.Store.Results.{
  is_object, same_type, typed_ids, platform_object, objects_of,
}
use seeding_plan_backend.Store.Results.Lookup.{latest, type_eq, type_refl, number_eq, number_refl}
use seeding_plan_backend.Store.Results.Names.{Names, typed_ids-Names, Names-typed_ids}
use seeding_plan_backend.Store.Results.Batch.{attempts, objects}

module _ (sha_receipt : PlanReadbackReceipt → String) (project_id grant_id : String)
    (result : BatchExecutionReceipt) (now : ℕ) where
  -- What the attempt of a receipt says.
  abbrev pub Attempted : PlanReadbackReceipt → ExecutionAttempt → Type 0
  Attempted r a =
      (a.project_id ≡ project_id)
      × (a.plan_revision_id ≡ r.plan_revision_id)
      × (a.grant_id ≡ grant_id)
      × (a.request_sha ≡ r.platform_request_sha256)
      × (a.response_recorded ≡ r.actual_recorded)
      × (a.status ≡ result.status)
      × (a.readback_receipt_sha ≡ sha_receipt r)
      × (a.relock_receipt_id ≡ result.relock_receipt_id)

  -- One attempt for each receipt, in their order.
  abbrev pub AllAttempted : List PlanReadbackReceipt → List ExecutionAttempt → Type 0
  AllAttempted [] [] = Unit {0}
  AllAttempted (r ∷ rs) (a ∷ rest) = Attempted r a × AllAttempted rs rest
  AllAttempted _ _ = ⊥

  -- What the row of an object says, by the receipt that names it.
  abbrev pub Described : PlanReadbackReceipt → PlatformObject → Type 0
  Described r row =
      (row.pause_verified ≡ r.pause_verified)
      × (row.locked ≡ result.lock_verified)
      × (row.expected_sha256 ≡ r.expected_sha256)
      × (row.actual_recorded ≡ r.actual_recorded)
      × (row.receipt_sha ≡ sha_receipt r)
      × (row.updated_at ≡ now)

  -- No receipt names the object.
  abbrev pub Unnamed : List PlanReadbackReceipt → ObjectType → ℕ → Type 0
  Unnamed receipts t n = All (λ s. ¬ (Names s t n)) receipts

  -- The last of the receipts that name the object describes the row found.
  abbrev pub FromLast : List PlanReadbackReceipt → ObjectType → ℕ → Option PlatformObject → Type 0
  FromLast receipts t n found =
      (row : PlatformObject) × (r : PlanReadbackReceipt) × (earlier later : List
        PlanReadbackReceipt)
      × (found ≡ some row)
      × (receipts ≡ earlier ++ r ∷ later)
      × Names r t n
      × Described r row
      × Unnamed later t n

  module _ (event_json : String → BatchExecutionReceipt → String) where
    pub attempts-AllAttempted :
        (uuid : ℕ → String) (rs : List PlanReadbackReceipt)
        → AllAttempted rs (attempts sha_receipt event_json project_id grant_id result now uuid rs)
    attempts-AllAttempted uuid [] = tt
    attempts-AllAttempted uuid (r ∷ rs) = (
      (refl, refl, refl, refl, refl, refl, refl, refl),
      attempts-AllAttempted (λ n. uuid (n + 1)) rs,
    )

    module _ (t : ObjectType) (n : ℕ) where
      abbrev last : List PlatformObject → Option PlatformObject → Option PlatformObject
      last = latest project_id t n

      last-append :
          (xs ys : List PlatformObject) (before : Option PlatformObject)
          → last (xs ++ ys) before ≡ last ys (last xs before)
      last-append [] ys before = refl
      last-append (x ∷ xs) ys before =
          last-append xs ys (if is_object project_id t n x then some x else before)

      abbrev row_of : String → PlanReadbackReceipt → ObjectType × ℕ → PlatformObject
      row_of = platform_object sha_receipt event_json project_id grant_id result now

      -- the row of one key has that key
      is_object-row_of :
          (i : String) (r : PlanReadbackReceipt) (k : ObjectType × ℕ)
          → ((k ≡ (t, n)) × (is_object project_id t n (row_of i r k) ≡ true))
            ⊎ ((k ≢ (t, n)) × (is_object project_id t n (row_of i r k) ≡ false))
      is_object-row_of i r k = elim (Bool-cases (same_type k.0 t)) [
        | inr f ↦ inr (
          (λ e. cc (subst (λ (q : ObjectType × ℕ). same_type q.0 t ≡ false) e f, type_refl t)),
          rw (f, eq_refl project_id) refl,
        )
        | inl s ↦ elim (Bool-cases (eqb k.1 n)) [
          | inr f ↦ inr (
            (λ e. cc (subst (λ (q : ObjectType × ℕ). eqb q.1 n ≡ false) e f, number_refl n)),
            rw (f, s, eq_refl project_id) refl,
          )
          | inl m ↦
              inl (
                (λ i. (type_eq k.0 t s i, number_eq k.1 n m i)),
                rw (s, m, eq_refl project_id) refl,
              )
        ]
      ]

      step :
          (i : String) (r : PlanReadbackReceipt) (k : ObjectType × ℕ) (keys : List (ObjectType × ℕ))
          (before : Option PlatformObject) {b : Bool}
          → is_object project_id t n (row_of i r k) ≡ b
          → last (map (row_of i r) (k ∷ keys)) before
            ≡ last (map (row_of i r) keys) (if b then some (row_of i r k) else before)
      step i r k keys before e =
          ap (λ c. last (map (row_of i r) keys) (if c then some (row_of i r k) else before)) e

      last-rows :
          (i : String) (r : PlanReadbackReceipt) (keys : List (ObjectType × ℕ))
          (before : Option PlatformObject)
          → (In (t, n) keys × (last (map (row_of i r) keys) before ≡ some (row_of i r (t, n))))
            ⊎ ((In (t, n) keys → ⊥) × (last (map (row_of i r) keys) before ≡ before))
      last-rows i r [] before = inr ((λ m. m), refl)
      last-rows i r (k ∷ keys) before = elim (is_object-row_of i r k) [
        | inl (e, b) ↦ elim (last-rows i r keys (some (row_of i r k))) [
          | inl (m, f) ↦ inl (inr m, step i r k keys before b ∙ f)
          | inr (m, f) ↦ inl (inl e, step i r k keys before b ∙ f ∙ ap (λ q. some (row_of i r q)) e)
        ]
        | inr (e, b) ↦ elim (last-rows i r keys before) [
          | inl (m, f) ↦ inl (inr m, step i r k keys before b ∙ f)
          | inr (m, f) ↦
              inr ((λ h. elim h [ inl x ↦ e x | inr x ↦ m x ]), step i r k keys before b ∙ f)
        ]
      ]

      pub last-objects :
          (uuid : ℕ → String) (rs : List PlanReadbackReceipt) (before : Option PlatformObject)
          → FromLast rs t n
              (last (objects sha_receipt event_json project_id grant_id result now uuid rs) before)
            ⊎ (Unnamed rs t n
                × (last
                      (objects sha_receipt event_json project_id grant_id result now uuid rs)
                      before
                    ≡ before))
      last-objects uuid [] before = inr (tt, refl)
      last-objects uuid (r ∷ rs) before =
          let rest = λ (k : ℕ). uuid (k + 1) in
          let ours = objects_of sha_receipt event_json project_id grant_id result now (uuid 0) r in
          let theirs = objects sha_receipt event_json project_id grant_id result now rest rs in
          let split = last-append ours theirs before in
          elim (last-objects rest rs (last ours before)) [
            | inl (row, s, xs, ys, e, p, m, d, u) ↦
                inl (row, s, r ∷ xs, ys, split ∙ e, ap (λ l. r ∷ l) p, m, d, u)
            | inr (u, e) ↦ elim (last-rows (uuid 0) r (typed_ids r.object_ids) before) [
              | inl (m, f) ↦ inl (
                row_of (uuid 0) r (t, n),
                r,
                [],
                rs,
                split ∙ e ∙ f,
                refl,
                typed_ids-Names r t n m,
                (refl, refl, refl, refl, refl, refl),
                u,
              )
              | inr (m, f) ↦ inr (((λ x. m (Names-typed_ids r t n x)), u), split ∙ e ∙ f)
            ]
          ]

    -- The rows of a project are not those of another.
    module _ (p : String) (t : ObjectType) (n : ℕ) (other : p ≢ project_id) where
      apart : (project_id == p) ≡ false
      apart = elim (Bool-cases (project_id == p)) [
        | inl s ↦ absurd (other (sym ((eq_iff project_id p).0 s)))
        | inr f ↦ f
      ]

      latest-other_rows :
          (i : String) (r : PlanReadbackReceipt) (keys : List (ObjectType × ℕ))
          (rows : List PlatformObject) (before : Option PlatformObject)
          → latest p t n
              (map (platform_object sha_receipt event_json project_id grant_id result now i r) keys
                ++ rows)
              before
            ≡ latest p t n rows before
      latest-other_rows i r [] rows before = refl
      latest-other_rows i r (k ∷ keys) rows before =
          ap
            (λ b.
              latest p t n
                (map (platform_object sha_receipt event_json project_id grant_id result now i r)
                    keys
                  ++ rows)
                (if b && same_type k.0 t && eqb k.1 n
                  then some
                      (platform_object sha_receipt event_json project_id grant_id result now i r k)
                  else before))
            apart
          ∙ latest-other_rows i r keys rows before

      pub latest-other :
          (uuid : ℕ → String) (rs : List PlanReadbackReceipt) (before : Option PlatformObject)
          → latest p t n
              (objects sha_receipt event_json project_id grant_id result now uuid rs)
              before
            ≡ before
      latest-other uuid [] before = refl
      latest-other uuid (r ∷ rs) before =
          latest-other_rows (uuid 0) r (typed_ids r.object_ids) _ before
          ∙ latest-other (λ k. uuid (k + 1)) rs before
