-- ===== src/Rbac/Rule/Sorted.antt =====
-- What `removeDupAndSort` returns: the strictly ascending list of the distinct items.
use controller_tools.Prelude.{
  ◌≡◌, refl, ◌∙◌, sym, false, List, [], ◌∷◌, ◌++◌, foldl, arith, any-append, Bool-cases, inl, inr,
}
use mathlib.Core.List.Perm
use controller_tools.Prelude.Ascending.{
  IsAscending, IsDistinct, sort_by-IsAscending, IsDistinct-perm, IsAscending-unique,
}
use controller_tools.Text.{Text, eq_text, eq_text_iff, less_text, mem}
use controller_tools.Text.Order.{text_order}
use controller_tools.Rbac.Rule.{add_to_set, remove_dup_and_sort}
use controller_tools.Text.Members.{any_of_same_items}
use controller_tools.Rbac.Rule.Laws.{IsOrder, any-remove_dup_and_sort}

abbrev Distinct : List Text → Type 0
Distinct = IsDistinct less_text eq_text

Distinct-snoc :
    (xs : List Text) (x : Text) → mem x xs ≡ false → Distinct xs → Distinct (xs ++ x ∷ [])
unfolding mem
Distinct-snoc [] x h d = (refl, tt)
Distinct-snoc (y ∷ xs) x h d = (
  ground (arith, any-append (eq_text y) xs (x ∷ []), eq_text_iff x y, eq_text_iff y x),
  Distinct-snoc xs x (ground arith) d.1,
)

Distinct-add_to_set : (set : List Text) (x : Text) → Distinct set → Distinct (add_to_set set x)
unfolding add_to_set
Distinct-add_to_set set x d = elim (Bool-cases (mem x set)) [
  | inl old ↦ rw old d
  | inr new ↦ rw new (Distinct-snoc set x new d)
]

Distinct-foldl : (xs set : List Text) → Distinct set → Distinct (foldl add_to_set set xs)
Distinct-foldl [] set d = d
Distinct-foldl (x ∷ xs) set d = Distinct-foldl xs (add_to_set set x) (Distinct-add_to_set set x d)

-- Whatever order the loop over the map takes, `removeDupAndSort` returns a strictly ascending list
-- (so without duplicates) that holds a string exactly when its argument does.
remove_dup_and_sort-IsAscending :
    (order : List Text → List Text) (xs : List Text)
    → IsOrder order
    → IsAscending less_text eq_text (remove_dup_and_sort order xs)
      × ((x : Text) → mem x (remove_dup_and_sort order xs) ≡ mem x xs)
unfolding remove_dup_and_sort mem
remove_dup_and_sort-IsAscending order [] ok = (tt, λ x. refl)
remove_dup_and_sort-IsAscending order (x ∷ xs) ok = (
  sort_by-IsAscending text_order (order set)
      (IsDistinct-perm text_order (Perm.symm (ok set)) (Distinct-foldl (x ∷ xs) [] tt)),
  λ y. any-remove_dup_and_sort (eq_text y) ok (x ∷ xs),
)
  where
    set : List Text
    set = foldl add_to_set [] (x ∷ xs)

-- The result of `removeDupAndSort` depends only on the set of its items: not on the order of the
-- loop over the map, nor on the order and the number of the items of the argument.
pub remove_dup_and_sort_unique :
    (order order' : List Text → List Text) (xs ys : List Text)
    → IsOrder order
    → IsOrder order'
    → ((x : Text) → mem x xs ≡ mem x ys)
    → remove_dup_and_sort order xs ≡ remove_dup_and_sort order' ys
remove_dup_and_sort_unique order order' xs ys ok ok' h =
    IsAscending-unique text_order (remove_dup_and_sort order xs) (remove_dup_and_sort order' ys)
      (remove_dup_and_sort-IsAscending order xs ok).0
      (remove_dup_and_sort-IsAscending order' ys ok').0
      λ p.
        any-remove_dup_and_sort p ok xs
        ∙ any_of_same_items p xs ys h
        ∙ sym (any-remove_dup_and_sort p ok' ys)
