-- ===== src/Decision/Union.antt =====
-- app/seeding/decision.py: `_UnionFind` over keyword ids. The dict `parent` is a list of entries. The
-- recursion of `find` takes the number of entries as its fuel; Roots shows that this is enough.
pub mod Nodes
pub mod Roots
pub mod Links
pub mod Groups
pub mod Tests
use seeding_plan_backend.Prelude.{
  ℕ, zero, suc, Bool, true, false, Option, none, some, List, [], ◌∷◌, String, ◌==◌, map, length,
  if◌then◌else◌,
}
use seeding_plan_backend.Errors.{Result, Run, ok, err, unexpected, pure, raise, ◌>>=◌, ◌>>◌}
use Prim.Native.Nat.{Ordering}
use Prim.Native.String.{compare}

-- an entry of the dict
pub record Node : Type 0 where
  pub value : String
  pub parent : String

-- {value: value for value in values}
abbrev pub singletons : List String → List Node
singletons = map (λ v. record { value = v; parent = v })

-- self.parent[value]
unfoldable pub lookup : String → List Node → Option String
lookup v [] = none
lookup v (x ∷ xs) = let rest = lookup v xs in if x.value == v then some x.parent else rest

-- self.parent[value] = parent, for a value in the dict
unfoldable pub set_parent : String → String → List Node → List Node
set_parent v p [] = []
set_parent v p (x ∷ xs) = (if x.value == v then record x { parent = p } else x) ∷ set_parent v p xs

-- self.parent[value] = root, and self.parent[value]
abbrev pub compressed : String → Result String × List Node → Result String × List Node
compressed v (ok root, nodes) = (ok root, set_parent v root nodes)
compressed v (err e, nodes) = (err e, nodes)

unfoldable pub find_within : ℕ → String → Run (List Node) String
unfolding lookup set_parent
find_within zero v nodes = (err unexpected, nodes)
find_within (suc fuel) v nodes = elim (lookup v nodes) [
  | none ↦ (err unexpected, nodes)
  | some p ↦
      let rest = find_within fuel p nodes in if p == v then (ok p, nodes) else compressed v rest
]

unfoldable pub find : String → Run (List Node) String
unfolding find_within
find v nodes = find_within (suc (length nodes)) v nodes

-- Python's max and min of two texts
abbrev pub text_max : String → String → String
text_max s t = elim (compare t s) [ Ordering.gt ↦ t | _ ↦ s ]

abbrev pub text_min : String → String → String
text_min s t = elim (compare t s) [ Ordering.lt ↦ t | _ ↦ s ]

unfoldable pub union : String → String → Run (List Node) (Unit {0})
unfolding find
union left right = do
  left_root ← find left
  right_root ← find right
  λ nodes. (
    ok tt,
    if left_root == right_root
        then nodes
        else set_parent (text_max left_root right_root) (text_min left_root right_root) nodes,
  )

-- the unions that `evaluate_keywords` asks for, one after the other
unfoldable pub unions : List (String × String) → Run (List Node) (Unit {0})
unfolding union
unions [] = pure tt
unions (e ∷ es) = do union e.0 e.1; unions es
