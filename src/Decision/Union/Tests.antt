-- ===== src/Decision/Union/Tests.antt =====
-- Three keywords of which two are joined, and the theorem on the groups applied to them.
use seeding_plan_backend.Prelude.{◌≡◌, refl, ◌↔◌, inl, inr, List, [], ◌∷◌, String, In}
use seeding_plan_backend.Errors.{ok}
use seeding_plan_backend.Decision.Union.{singletons, find, unions}
use seeding_plan_backend.Decision.Union.Links.{Connected}
use seeding_plan_backend.Decision.Union.Groups.{unions-Connected}

abbrev ids : List String
ids = "a" ∷ "b" ∷ "c" ∷ []

abbrev pairs : List (String × String)
pairs = ("c", "a") ∷ []

unions-Connected_example :
    ((unions pairs (singletons ids)).0 ≡ ok tt)
    × ((v w : String)
        → In v ids
        → In w ids
        → (r s : String) × ((find v (unions pairs (singletons ids)).1).0 ≡ ok r)
          × ((find w (unions pairs (singletons ids)).1).0 ≡ ok s)
          × ((r ≡ s) ↔ Connected pairs v w))
unions-Connected_example = unions-Connected pairs ids ((inr (inr (inl refl)), inl refl), tt)
