-- ===== src/Text/Members.antt =====
-- Tests of the members of a list of texts.
use controller_tools.Prelude.{
  ◌≡◌, sym, ◌∙◌, Bool, true, List, [], ◌∷◌, arith, any, inl, inr, or_cases, or_left, or_right,
  bool_ext,
}
use controller_tools.Text.{Text, eq_text_iff, eq_text_refl, mem}

module _ (p : Text → Bool) where
  pub any_of_mem : (x : Text) (xs : List Text) → mem x xs ≡ true → p x ≡ true → any p xs ≡ true
  unfolding mem
  any_of_mem x [] h e = h
  any_of_mem x (y ∷ xs) h e = ground (arith, eq_text_iff x y, any_of_mem x xs)

  pub any_of_subset :
      (xs ys : List Text)
      → ((x : Text) → mem x xs ≡ true → mem x ys ≡ true)
      → any p xs ≡ true
      → any p ys ≡ true
  unfolding mem
  any_of_subset [] ys h e = cc
  any_of_subset (x ∷ xs) ys h e = elim (or_cases (p x) (any p xs) e) [
    | inl hd ↦ any_of_mem x ys (h x (or_left _ _ (eq_text_refl x))) hd
    | inr tl ↦ any_of_subset xs ys (λ y m. h y (or_right _ _ m)) tl
  ]

  pub any_of_same_items :
      (xs ys : List Text) → ((x : Text) → mem x xs ≡ mem x ys) → any p xs ≡ any p ys
  any_of_same_items xs ys h =
      bool_ext (any_of_subset xs ys (λ x m. sym (h x) ∙ m)) (any_of_subset ys xs (λ x m. h x ∙ m))
