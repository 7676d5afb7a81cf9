-- ===== src/Prelude/Sort.antt =====
-- Sorting by a strict order given as a Boolean test, and strictly ascending lists.
use controller_tools.Prelude.Tests.{if◌then◌else◌, Bool-cases}
use controller_tools.Prelude.Lists.{any, All}
use mathlib.Core.Path.{◌≡◌, refl, ap, ◌∙◌}
use mathlib.Core.Logic.{inl, inr}
use mathlib.Core.Bool.{Bool, ◌||◌}
use mathlib.Core.List.{List, [], ◌∷◌, map}
use native.Mathlib.Omega.{arith}

-- A stable insertion sort (`slices.SortStableFunc`).
module _ {ℓ} {A : Type ℓ} (less : A → A → Bool) where
  -- The last element is put in first, so an equal earlier one must go before it.
  unfoldable pub insert_stable : A → List A → List A
  insert_stable x [] = x ∷ []
  insert_stable x (y ∷ ys) =
      let rest = insert_stable x ys in if less y x then y ∷ rest else x ∷ y ∷ ys

  unfoldable pub sort_by : List A → List A
  unfolding insert_stable
  sort_by [] = []
  sort_by (x ∷ xs) = insert_stable x (sort_by xs)

  any-insert_stable :
      (p : A → Bool) (x : A) (xs : List A) → any p (insert_stable x xs) ≡ (p x || any p xs)
  unfolding insert_stable
  any-insert_stable p x [] = refl
  any-insert_stable p x (y ∷ ys) = ground (arith, any-insert_stable p x ys)

  pub any-sort_by : (p : A → Bool) (xs : List A) → any p (sort_by xs) ≡ any p xs
  unfolding sort_by
  any-sort_by p [] = refl
  any-sort_by p (x ∷ xs) = ground (arith, any-insert_stable p x (sort_by xs), any-sort_by p xs)

  All-insert_stable {κ} :
      (P : A → Type κ) (x : A) (xs : List A) → P x → All P xs → All P (insert_stable x xs)
  unfolding insert_stable
  All-insert_stable P x [] h a = (h, a)
  All-insert_stable P x (y ∷ ys) h a = elim (Bool-cases (less y x)) [
    | inl e ↦ rw e (a.0, All-insert_stable P x ys h a.1)
    | inr e ↦ rw e (h, a)
  ]

  pub All-sort_by {κ} : (P : A → Type κ) (xs : List A) → All P xs → All P (sort_by xs)
  unfolding sort_by
  All-sort_by P [] a = a
  All-sort_by P (x ∷ xs) a = All-insert_stable P x (sort_by xs) a.0 (All-sort_by P xs a.1)

-- Sorting by a key sorts the keys.
module _ {ℓ κ} {A : Type ℓ} {B : Type κ} (f : A → B) (less : B → B → Bool) where
  abbrev less_on : A → A → Bool
  less_on x y = less (f x) (f y)

  map-insert_stable :
      (x : A) (xs : List A)
      → map f (insert_stable less_on x xs) ≡ insert_stable less (f x) (map f xs)
  unfolding insert_stable
  map-insert_stable x [] = refl
  map-insert_stable x (y ∷ ys) = ground (arith, map-insert_stable x ys)

  pub map-sort_by : (xs : List A) → map f (sort_by less_on xs) ≡ sort_by less (map f xs)
  unfolding sort_by
  map-sort_by [] = refl
  map-sort_by (x ∷ xs) =
      map-insert_stable x (sort_by less_on xs) ∙ ap (insert_stable less (f x)) (map-sort_by xs)
