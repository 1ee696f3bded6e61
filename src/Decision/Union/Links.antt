-- ===== src/Decision/Union/Links.antt =====
-- What one union makes of the roots of the values.
use seeding_plan_backend.Prelude.{
  ℕ, suc, ◌≡◌, refl, sym, subst, ap, ◌∙◌, ◌⊎◌, inl, inr, false, some, List, [], ◌∷◌, String, ◌==◌,
  In, eq_iff, Bool-cases, if◌then◌else◌,
}
use seeding_plan_backend.Errors.{Result, ok, bind-ok}
use seeding_plan_backend.Decision.Union.{Node, lookup, set_parent, find, text_max, text_min, union}
use seeding_plan_backend.Decision.Union.Nodes.{lookup-other, lookup-same, differ, inner, inner-link}
use seeding_plan_backend.Decision.Union.Roots.{
  Rooted, here, up, Rooted-weaken, Rooted-root, Kept, find-Finds,
}
use Prim.Native.Nat.{Ordering}
use Prim.Native.String.{compare}
use text.Mathlib.TextEquality.{path_by_compare}

-- The reflexive, symmetric and transitive closure of the pairs.
pub data Connected (pairs : List (String × String)) : String → String → Type 0 where
  same : (x : String) → Connected pairs x x
  paired : (x y : String) → In (x, y) pairs → Connected pairs x y
  back : (x y : String) → Connected pairs x y → Connected pairs y x
  through : (x y z : String) → Connected pairs x y → Connected pairs y z → Connected pairs x z

-- The root of each value, as a function.
abbrev pub Roots : List String → (String → String) → List Node → Type 0
Roots values root nodes = (v : String) → In v values → Rooted nodes (inner nodes) v (root v)

-- the two texts, the later one first
larger :
    (s t : String)
    → (s == t) ≡ false
    → ((text_max s t ≡ s) × (text_min s t ≡ t)) ⊎ ((text_max s t ≡ t) × (text_min s t ≡ s))
larger s t h = go (compare t s) refl
  where
    go :
        (o : Ordering)
        → compare t s ≡ o
        → ((text_max s t ≡ s) × (text_min s t ≡ t)) ⊎ ((text_max s t ≡ t) × (text_min s t ≡ s))
    go Ordering.lt e = inl (rw (e, text_max) refl, rw (e, text_min) refl)
    go Ordering.gt e = inr (rw (e, text_max) refl, rw (e, text_min) refl)
    go Ordering.eq e =
        let q : t ≡ s = path_by_compare t s e in absurd (cc (h, (eq_iff s t).1 (sym q)))

-- One root is made a child of the other.
module _ (nodes : List Node) (a b : String) (ra : lookup a nodes ≡ some a)
    (rb : lookup b nodes ≡ some b) (d : (b == a) ≡ false) where
  pub link-Rooted :
      (n : ℕ) (y s : String)
      → Rooted nodes n y s
      → Rooted (set_parent a b nodes) (suc n) y (if s == a then b else s)
  link-Rooted _ _ _ (here n y e) = elim (Bool-cases (y == a)) [
    | inr f ↦ rw f (here (suc n) y (lookup-other a b y nodes f ∙ e))
    | inl t ↦ rw t (
        subst (λ z. Rooted (set_parent a b nodes) (suc n) z b) (sym ((eq_iff y a).0 t))
          (up n a b b (lookup-same a b a nodes ra) d (here n b (lookup-other a b b nodes d ∙ rb))))
  ]
  link-Rooted _ _ _ (up n y p s e g w) = elim (Bool-cases (y == a)) [
    | inr f ↦ up (suc n) y p _ (lookup-other a b y nodes f ∙ e) g (link-Rooted n p s w)
    | inl t ↦
        let q : some p ≡ some a =
          sym e ∙ subst (λ z. lookup z nodes ≡ some a) (sym ((eq_iff y a).0 t)) ra in
        let r : p ≡ y = cc (q, (eq_iff y a).0 t) in absurd (cc (g, (eq_iff p y).1 r))
  ]

  pub link-Roots :
      (values : List String) (root : String → String)
      → Roots values root nodes
      → Roots values (λ v. if root v == a then b else root v) (set_parent a b nodes)
  link-Roots values root h v m =
      Rooted-weaken (set_parent a b nodes) (suc (inner nodes)) (inner (set_parent a b nodes)) v _
        (inner-link a b nodes d ra) (link-Rooted (inner nodes) v (root v) (h v m))

Kept-Roots :
    (values : List String) (root : String → String) (nodes nodes' : List Node)
    → Kept nodes nodes'
    → Roots values root nodes
    → Roots values root nodes'
Kept-Roots values root nodes nodes' k h v m =
    Rooted-weaken nodes' (inner nodes) (inner nodes') v (root v) k.count
      (k.roots (inner nodes) v (root v) (h v m))

module _ (pairs : List (String × String)) (values : List String) where
  -- Every value is connected with its root.
  abbrev pub Sound : (String → String) → Type 0
  Sound root = (v : String) → In v values → Connected pairs v (root v)

  -- What one or more unions make of the roots, for the pairs that were joined.
  pub record Joined (done : List (String × String)) (root : String → String)
      (run : Result (Unit {0}) × List Node) : Type 0 where
    pub root' : String → String
    pub runs : run.0 ≡ ok tt
    pub roots : Roots values root' run.1
    pub sound : Sound root'
    pub keeps : (v w : String) → root v ≡ root w → root' v ≡ root' w
    pub joins : (x y : String) → In (x, y) done → root' x ≡ root' y

  -- The root `a` gives way to `b`: the roots of a pair, in either order.
  merged :
      (root : String → String) (l r a b : String)
      → Sound root
      → In (l, r) pairs
      → In l values
      → In r values
      → ((a ≡ root l) × (b ≡ root r)) ⊎ ((a ≡ root r) × (b ≡ root l))
      → Sound (λ v. if root v == a then b else root v)
  merged root l r a b h m ml mr e v mv = elim (Bool-cases (root v == a)) [
    | inr f ↦ rw f (h v mv)
    | inl t ↦
        let q : root v ≡ a = (eq_iff (root v) a).0 t in
        let between =
          through (root l) l (root r) (back l (root l) (h l ml))
            (through l r (root r) (paired l r m) (h r mr)) in
        rw t (
          through v a b (subst (Connected pairs v) q (h v mv)) (elim e [
            | inl (p, k) ↦ rw (p, k) between
            | inr (p, k) ↦ rw (p, k) (back (root l) (root r) between)
          ]))
  ]

  to_b : (s a b : String) → (s ≡ a) ⊎ (s ≡ b) → (if s == a then b else s) ≡ b
  to_b s a b e = elim (Bool-cases (s == a)) [
    | inl t ↦ rw t refl
    | inr f ↦ elim e [ inl p ↦ absurd (cc (f, (eq_iff s a).1 p)) | inr p ↦ rw f p ]
  ]

  -- The two roots are found, and linked where they differ.
  linked :
      (root : String → String) (l r a b : String) (nodes : List Node)
      → Roots values root nodes
      → Sound root
      → In (l, r) pairs
      → In l values
      → In r values
      → (b == a) ≡ false
      → ((a ≡ root l) × (b ≡ root r)) ⊎ ((a ≡ root r) × (b ≡ root l))
      → Joined ((l, r) ∷ []) root (ok tt, set_parent a b nodes)
  linked root l r a b nodes h s m ml mr d e =
      let rl = Rooted-root nodes (inner nodes) l (root l) (h l ml) in
      let rr = Rooted-root nodes (inner nodes) r (root r) (h r mr) in
      let ra : lookup a nodes ≡ some a = elim e [ inl (p, k) ↦ rw p rl | inr (p, k) ↦ rw p rr ] in
      let rb : lookup b nodes ≡ some b = elim e [ inl (p, k) ↦ rw k rr | inr (p, k) ↦ rw k rl ] in
      let left : (root l ≡ a) ⊎ (root l ≡ b) = elim e [
        | inl (p, k) ↦ inl (sym p)
        | inr (p, k) ↦ inr (sym k)
      ] in
      let right : (root r ≡ a) ⊎ (root r ≡ b) = elim e [
        | inl (p, k) ↦ inr (sym k)
        | inr (p, k) ↦ inl (sym p)
      ] in
      record {
        root' = λ v. if root v == a then b else root v;
        runs = refl;
        roots = link-Roots nodes a b ra rb d values root h;
        sound = merged root l r a b s m ml mr e;
        keeps = λ v w q. ap (λ t. if t == a then b else t) q;
        joins = λ x y i. elim i [
          | inl q ↦
              subst
                (λ (t : String × String).
                  (if root t.0 == a then b else root t.0) ≡ (if root t.1 == a then b else root t.1))
                q (to_b (root l) a b left ∙ sym (to_b (root r) a b right))
          | inr q ↦ elim q [ ]
        ];
      }

  found :
      (root : String → String) (l r : String) (nodes : List Node)
      → Roots values root nodes
      → Sound root
      → In (l, r) pairs
      → In l values
      → In r values
      → Joined ((l, r) ∷ []) root (
        ok tt,
        if root l == root r
            then nodes
            else set_parent (text_max (root l) (root r)) (text_min (root l) (root r)) nodes,
      )
  found root l r nodes h s m ml mr = elim (Bool-cases (root l == root r)) [
    | inl t ↦ rw t (record {
      root' = root;
      runs = refl;
      roots = h;
      sound = s;
      keeps = λ v w q. q;
      joins = λ x y i. elim i [
        | inl q ↦
            subst (λ (t : String × String). root t.0 ≡ root t.1) q ((eq_iff (root l) (root r)).0 t)
        | inr q ↦ elim q [ ]
      ];
    })
    | inr f ↦ rw f (elim (larger (root l) (root r) f) [
      | inl (p, k) ↦
          linked root l r _ _ nodes h s m ml mr (rw (p, k) (differ (root l) (root r) f))
            (inl (p, k))
      | inr (p, k) ↦ linked root l r _ _ nodes h s m ml mr (rw (p, k) f) (inr (p, k))
    ])
  ]

  pub union-Joined :
      (root : String → String) (l r : String) (nodes : List Node)
      → Roots values root nodes
      → Sound root
      → In (l, r) pairs
      → In l values
      → In r values
      → Joined ((l, r) ∷ []) root (union l r nodes)
  unfolding union
  union-Joined root l r nodes h s m ml mr =
      let (e1, k1) = find-Finds nodes l (root l) (h l ml) in
      let h1 = Kept-Roots values root nodes (find l nodes).1 k1 h in
      let (e2, k2) = find-Finds (find l nodes).1 r (root r) (h1 r mr) in
      let h2 = Kept-Roots values root (find l nodes).1 (find r (find l nodes).1).1 k2 h1 in
      let run = bind-ok (find l) _ nodes (root l) e1 in
      let run' = bind-ok (find r) _ (find l nodes).1 (root r) e2 in
      subst (Joined ((l, r) ∷ []) root) (sym (run ∙ run'))
        (found root l r (find r (find l nodes).1).1 h2 s m ml mr)
