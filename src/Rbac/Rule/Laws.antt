-- ===== src/Rbac/Rule/Laws.antt =====
-- `removeDupAndSort` and the methods of `Rule` keep the items of each list, whatever the order in
-- which the loop over the map meets its keys.
use mathlib.Core.List.{Perm}
use controller_tools.Prelude.{
  ◌≡◌, refl, ◌∙◌, Bool, ◌||◌, List, [], ◌∷◌, foldl, arith, any, any-append, any-perm, Bool-cases,
  inl, inr,
}
use controller_tools.Prelude.Sort.{any-sort_by}
use controller_tools.Text.{Text, less_text, mem}
use controller_tools.Text.Members.{any_of_mem}
use controller_tools.Rbac.Rule.{add_to_set, remove_dup_and_sort}

-- A loop over a map meets every key once.
abbrev pub IsOrder {ℓ} : {A : Type ℓ} → (List A → List A) → Type ℓ
IsOrder {A} order = (xs : List A) → Perm (order xs) xs

module _ (p : Text → Bool) where
  any-add_to_set : (set : List Text) (x : Text) → any p (add_to_set set x) ≡ (any p set || p x)
  unfolding add_to_set
  any-add_to_set set x = elim (Bool-cases (mem x set)) [
    | inl old ↦ rw old (ground (arith, any_of_mem p x set))
    | inr new ↦ rw new (ground (arith, any-append p set (x ∷ [])))
  ]

  any-foldl_set : (xs set : List Text) → any p (foldl add_to_set set xs) ≡ (any p set || any p xs)
  any-foldl_set [] set = ground arith
  any-foldl_set (x ∷ xs) set =
      ground (arith, any-foldl_set xs (add_to_set set x), any-add_to_set set x)

  module _ {order : List Text → List Text} (ok : IsOrder order) where
    pub any-remove_dup_and_sort : (xs : List Text) → any p (remove_dup_and_sort order xs) ≡ any p xs
    unfolding remove_dup_and_sort
    any-remove_dup_and_sort [] = refl
    any-remove_dup_and_sort (x ∷ xs) =
        any-sort_by less_text p (order (foldl add_to_set [] (x ∷ xs)))
        ∙ any-perm p (ok (foldl add_to_set [] (x ∷ xs)))
        ∙ any-foldl_set (x ∷ xs) []
