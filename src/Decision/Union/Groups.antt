-- ===== src/Decision/Union/Groups.antt =====
-- The unions group the values exactly as the pairs connect them.
use seeding_plan_backend.Prelude.{
  ◌≡◌, refl, sym, subst, ap, ◌∙◌, ◌↔◌, inl, inr, some, List, [], ◌∷◌, String, ◌==◌, In, All, eq_iff,
  Bool-cases,
}
use seeding_plan_backend.Errors.{ok, bind-ok}
use seeding_plan_backend.Decision.Union.{Node, singletons, lookup, find, union, unions}
use seeding_plan_backend.Decision.Union.Nodes.{inner}
use seeding_plan_backend.Decision.Union.Roots.{here, find-Finds}
use seeding_plan_backend.Decision.Union.Links.{
  Connected, same, paired, back, through, Roots, Sound, Joined, union-Joined,
}

module _ (pairs : List (String × String)) (values : List String) where
  -- The texts of every pair are among the values.
  abbrev pub Within : List (String × String) → Type 0
  Within = All (λ (e : String × String). In e.0 values × In e.1 values)

  unions-Joined :
      (todo : List (String × String)) (root : String → String) (nodes : List Node)
      → Within todo
      → ((e : String × String) → In e todo → In e pairs)
      → Roots values root nodes
      → Sound pairs values root
      → Joined pairs values todo root (unions todo nodes)
  unfolding unions
  unions-Joined [] root nodes u i h s = record {
    root' = root;
    runs = refl;
    roots = h;
    sound = s;
    keeps = λ v w q. q;
    joins = λ x y m. elim m [ ];
  }
  unions-Joined ((l, r) ∷ es) root nodes u i h s =
      let j = union-Joined pairs values root l r nodes h s (i (l, r) (inl refl)) u.0.0 u.0.1 in
      let k =
        unions-Joined es j.root' (union l r nodes).1 u.1 (λ e m. i e (inr m)) j.roots j.sound in
      subst (Joined pairs values ((l, r) ∷ es) root)
        (sym (bind-ok (union l r) (λ _. unions es) nodes tt j.runs))
        (record {
          root' = k.root';
          runs = k.runs;
          roots = k.roots;
          sound = k.sound;
          keeps = λ v w q. k.keeps v w (j.keeps v w q);
          joins = λ x y m. elim m [
            | inl q ↦
                subst (λ (t : String × String). k.root' t.0 ≡ k.root' t.1) q
                  (k.keeps l r (j.joins l r (inl refl)))
            | inr n ↦ k.joins x y n
          ];
        })

lookup-singletons :
    (values : List String) (v : String) → In v values → lookup v (singletons values) ≡ some v
unfolding lookup
lookup-singletons [] v m = elim m [ ]
lookup-singletons (x ∷ xs) v m = elim (Bool-cases (x == v)) [
  | inl t ↦ rw (t, lookup) (ap some ((eq_iff x v).0 t))
  | inr f ↦ elim m [
    | inl e ↦ absurd (cc (f, (eq_iff x v).1 e))
    | inr n ↦ rw (f, lookup) (lookup-singletons xs v n)
  ]
]

Connected-root :
    (pairs : List (String × String)) (root : String → String)
    → ((x y : String) → In (x, y) pairs → root x ≡ root y)
    → (v w : String) → Connected pairs v w
    → root v ≡ root w
Connected-root pairs root h _ _ (same x) = refl
Connected-root pairs root h _ _ (paired x y m) = h x y m
Connected-root pairs root h _ _ (back x y c) = sym (Connected-root pairs root h x y c)
Connected-root pairs root h _ _ (through x y z c d) =
    Connected-root pairs root h x y c ∙ Connected-root pairs root h y z d

-- For pairs of the given values, the unions of all pairs return; and then `find` returns for any two
-- of the values, with the same root exactly where the pairs connect the two: the fuel is enough.
pub unions-Connected :
    (pairs : List (String × String)) (values : List String)
    → Within pairs values pairs
    → ((unions pairs (singletons values)).0 ≡ ok tt)
      × ((v w : String)
          → In v values
          → In w values
          → (r s : String) × ((find v (unions pairs (singletons values)).1).0 ≡ ok r)
            × ((find w (unions pairs (singletons values)).1).0 ≡ ok s)
            × ((r ≡ s) ↔ Connected pairs v w))
unions-Connected pairs values u =
    let j =
      unions-Joined pairs values pairs (λ v. v) (singletons values) u (λ e m. m)
        (λ v m. here (inner (singletons values)) v (lookup-singletons values v m))
        (λ v m. same v) in
    let nodes = (unions pairs (singletons values)).1 in
    (
      j.runs,
      λ v w mv mw. (
        j.root' v,
        j.root' w,
        (find-Finds nodes v (j.root' v) (j.roots v mv)).0,
        (find-Finds nodes w (j.root' w) (j.roots w mw)).0,
        (
          λ e.
              through v (j.root' v) w (j.sound v mv)
                (subst (λ t. Connected pairs t w) (sym e) (back w (j.root' w) (j.sound w mw))),
          λ c. Connected-root pairs j.root' j.joins v w c,
        ),
      ),
    )
