-- ===== src/Crd/Packages.antt =====
-- `findPackageRecursive` of pkg/crd/schema.go: the search for a package among the imports of a package
-- and of those. A package is a number, its address; the imports of each come in the order of the loop
-- over their map. The loop is a recursion on fuel.
pub mod Weights
pub mod Search
mod Tests
use controller_tools.Prelude.{
  ℕ, zero, suc, ◌+◌, Bool, true, false, Option, none, some, List, [], ◌∷◌, ◌++◌, map, any, length,
  ◌==◌, if◌then◌else◌,
}
use controller_tools.Text.{Text, codes, eq_text}
use controller_tools.Text.Split.{after_prefix}

-- `NonVendorPath` of pkg/loader/paths.go: the last part of `strings.Split(rawPath, "/vendor/")`. The
-- bytes of a separator that was found are skipped.
unfoldable pub last_part : (skip : ℕ) → (last rest : Text) → Text
unfolding after_prefix
last_part skip last [] = last
last_part (suc skip) last (b ∷ t) = last_part skip last t
last_part zero last (b ∷ t) =
    let later = last_part zero last t in
    elim (after_prefix (codes "/vendor/") (b ∷ t)) [ none ↦ later | some rest ↦ last_part 7 rest t ]

unfoldable pub non_vendor_path : Text → Text
unfolding last_part
non_vendor_path raw_path = last_part zero raw_path raw_path

-- `Package.Imports`
abbrev pub Imports : Type 0
Imports = ℕ → List (Text × ℕ)

pub data Outcome : Type 0 where
  found : ℕ → Outcome
  not_found out_of_fuel : Outcome

module _ (imports : Imports) (path : Text) where
  unfoldable pub first_match : List (Text × ℕ) → Option ℕ
  unfolding eq_text non_vendor_path
  first_match [] = none
  first_match ((import_path, p) ∷ rest) =
      let later = first_match rest in
      if eq_text (non_vendor_path import_path) (non_vendor_path path) then some p else later

  unfoldable pub search_queue : ℕ → (visited queue : List ℕ) → Outcome
  unfolding first_match
  search_queue fuel visited [] = not_found
  search_queue zero visited (current ∷ queue) = out_of_fuel
  search_queue (suc fuel) visited (current ∷ queue) =
      let skipped = search_queue fuel visited queue in
      let later =
        search_queue fuel (current ∷ visited) (queue ++ map (λ (k, p). p) (imports current)) in
      if any (λ v. v == current) visited
      then skipped
      else (elim (first_match (imports current)) [ some p ↦ found p | none ↦ later ])

-- The number of the imports of the packages of a list.
abbrev pub count_imports : Imports → List ℕ → ℕ
count_imports imports [] = 0
count_imports imports (p ∷ packages) = length (imports p) + count_imports imports packages

-- The search in a program of the given packages; each is left once, and each import is put into the
-- queue once.
unfoldable pub find_package_recursive :
    Imports → (packages : List ℕ) → (path : Text) → (start : ℕ) → Outcome
unfolding search_queue
find_package_recursive imports packages path start =
    search_queue imports path (1 + count_imports imports packages) [] (start ∷ [])
