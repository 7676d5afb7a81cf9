-- ===== src/Crd/Packages/Tests.antt =====
-- Runs of the search for a package in a program of four.
use controller_tools.Prelude.{ℕ, suc, zero, ◌≡◌, ◌≢◌, refl, List, [], ◌∷◌, some, none}
use controller_tools.Text.{codes}
use controller_tools.Crd.Packages.{
  Imports, found, not_found, out_of_fuel, first_match, find_package_recursive,
}
use controller_tools.Crd.Packages.Search.{IsProgram, Reaches, find_package_recursive_lem}

-- Package 0 imports 1, 1 imports 2 and 0 again.
abbrev imports : Imports
imports zero = (codes "a/one", 1) ∷ []
imports (suc zero) = (codes "m/vendor/a/two", 2) ∷ (codes "a/zero", 0) ∷ []
imports _ = []

abbrev program : List ℕ
program = 0 ∷ 1 ∷ 2 ∷ []

program-IsProgram : IsProgram imports (codes "a/two") program
program-IsProgram zero h = (refl, tt)
program-IsProgram (suc zero) h = (refl, (refl, tt))
program-IsProgram (suc (suc n)) h = tt

find_package_recursive_lem_example :
    (find_package_recursive imports program (codes "a/two") 0 ≢ out_of_fuel)
    × ((p : ℕ)
        → find_package_recursive imports program (codes "a/two") 0 ≡ found p
        → (q : ℕ) × Reaches imports 0 q
          × (first_match imports (codes "a/two") (imports q) ≡ some p))
    × (find_package_recursive imports program (codes "a/two") 0 ≡ not_found
        → (q : ℕ) → Reaches imports 0 q
        → first_match imports (codes "a/two") (imports q) ≡ none)
find_package_recursive_lem_example =
    find_package_recursive_lem imports program (codes "a/two") 0 program-IsProgram refl

two_is_found : find_package_recursive imports program (codes "a/two") 0 ≡ found 2
unfolding find_package_recursive
two_is_found = refl

three_is_not : find_package_recursive imports program (codes "a/three") 0 ≡ not_found
unfolding find_package_recursive
three_is_not = refl
