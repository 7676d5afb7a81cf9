-- ===== src/Prelude/Ascending.antt =====
-- Strictly ascending lists under a strict total order: sorting distinct items gives one, and the
-- items determine it.
use mathlib.Core.Path.{◌≡◌, refl, sym, ap₂, subst, subst₂, ◌∙◌}
use mathlib.Core.Logic.{◌↔◌, inl, inr, ∥∥₁_elim}
use mathlib.Core.Bool.{Bool, true, false, not, ◌&&◌}
use mathlib.Core.List.{List, [], ◌∷◌, Perm, Permᴰ}
use native.Mathlib.Omega.{arith}
use controller_tools.Prelude.Tests.{Bool-cases}
use controller_tools.Prelude.Lists.{any, All, any-perm}
use controller_tools.Prelude.Sort.{insert_stable, sort_by, any-sort_by}

pub record IsStrictOrder {ℓ} {A : Type ℓ} (less same : A → A → Bool) : Type ℓ where
  pub same_iff : (x y : A) → (same x y ≡ true) ↔ (x ≡ y)
  pub irrefl : (x : A) → less x x ≡ false
  pub trans : (x y z : A) → less x y ≡ true → less y z ≡ true → less x z ≡ true
  pub total : (x y : A) → same x y ≡ false → less y x ≡ false → less x y ≡ true

module _ {ℓ} {A : Type ℓ} (less same : A → A → Bool) where
  abbrev pub IsAscending : List A → Type 0
  IsAscending [] = Unit
  IsAscending (x ∷ xs) = All (λ y. less x y ≡ true) xs × IsAscending xs

  abbrev pub IsDistinct : List A → Type 0
  IsDistinct [] = Unit
  IsDistinct (x ∷ xs) = (any (same x) xs ≡ false) × IsDistinct xs

module _ {ℓ} {A : Type ℓ} {less same : A → A → Bool} (o : IsStrictOrder less same) where
  All-insert :
      (x y : A) (ys : List A)
      → less y x ≡ true
      → All (λ z. less y z ≡ true) ys
      → All (λ z. less y z ≡ true) (insert_stable less x ys)
  unfolding insert_stable
  All-insert x y [] h a = (h, tt)
  All-insert x y (z ∷ zs) h a = elim (Bool-cases (less z x)) [
    | inl e ↦ rw e (a.0, All-insert x y zs h a.1)
    | inr e ↦ rw e (h, a)
  ]

  All-trans :
      (x y : A) (ys : List A)
      → less x y ≡ true
      → All (λ z. less y z ≡ true) ys
      → All (λ z. less x z ≡ true) ys
  All-trans x y [] h a = tt
  All-trans x y (z ∷ zs) h a = (o.trans x y z h a.0, All-trans x y zs h a.1)

  insert-IsAscending :
      (x : A) (ys : List A)
      → any (same x) ys ≡ false
      → IsAscending less same ys
      → IsAscending less same (insert_stable less x ys)
  unfolding insert_stable
  insert-IsAscending x [] new a = (tt, tt)
  insert-IsAscending x (y ∷ ys) new a = elim (Bool-cases (less y x)) [
    | inl e ↦ rw e (All-insert x y ys e a.0, insert-IsAscending x ys (ground arith) a.1)
    | inr e ↦
        let lt : less x y ≡ true = o.total x y (ground arith) e in
        rw e ((lt, All-trans x y ys lt a.0), a)
  ]

  pub sort_by-IsAscending :
      (xs : List A) → IsDistinct less same xs → IsAscending less same (sort_by less xs)
  unfolding sort_by
  sort_by-IsAscending [] d = tt
  sort_by-IsAscending (x ∷ xs) d =
      insert-IsAscending x (sort_by less xs) (any-sort_by less (same x) xs ∙ d.0)
        (sort_by-IsAscending xs d.1)

  pub same_sym : (x y : A) → same x y ≡ same y x
  same_sym x y = ground (arith, o.same_iff x y, o.same_iff y x)

  IsDistinct-swap :
      (x y : A) (l : List A) → IsDistinct less same (x ∷ y ∷ l) → IsDistinct less same (y ∷ x ∷ l)
  IsDistinct-swap x y l (h, (k, d)) = (ground (arith, same_sym x y), (ground arith, d))

  IsDistinct-permᴰ :
      {xs ys : List A} → Permᴰ xs ys → IsDistinct less same xs → IsDistinct less same ys
  IsDistinct-permᴰ Permᴰ.nil d = d
  IsDistinct-permᴰ (Permᴰ.cons {a = a} {b = b} {l₁ = l₁} {l₂ = l₂} e p) d = (
    sym (any-perm (same b) ∣ p ∣₁) ∙ subst (λ z. any (same z) l₁ ≡ false) e d.0,
    IsDistinct-permᴰ p d.1,
  )
  IsDistinct-permᴰ (Permᴰ.swap {a = a} {b = b} {a' = c} {b' = d} {l = l} e f) h =
      subst₂ (λ x y. IsDistinct less same (y ∷ x ∷ l)) e f (IsDistinct-swap a b l h)
  IsDistinct-permᴰ (Permᴰ.trans p q) d = IsDistinct-permᴰ q (IsDistinct-permᴰ p d)

  IsDistinct-prop : (xs : List A) → IsProp (IsDistinct less same xs)
  IsDistinct-prop [] = hlevel
  IsDistinct-prop (x ∷ xs) = hlevel (IsDistinct-prop xs)

  pub IsDistinct-perm :
      {xs ys : List A} → Perm xs ys → IsDistinct less same xs → IsDistinct less same ys
  IsDistinct-perm {xs} {ys} p d = ∥∥₁_elim p (IsDistinct-prop ys) (λ q. IsDistinct-permᴰ q d)

  not_in_of_above : (x : A) (ys : List A) → All (λ z. less x z ≡ true) ys → any (same x) ys ≡ false
  not_in_of_above x [] a = refl
  not_in_of_above x (z ∷ zs) a =
      ground (arith, o.same_iff x z, o.irrefl x, not_in_of_above x zs a.1)

  any_self : (x : A) (xs : List A) → any (same x) (x ∷ xs) ≡ true
  any_self x xs = ground (arith, o.same_iff x x)

  -- The head of one list that is below the head of another is not in it.
  below_head :
      (x y : A) (xs ys : List A)
      → IsAscending less same (y ∷ ys)
      → any (same x) (x ∷ xs) ≡ any (same x) (y ∷ ys)
      → less x y ≡ false
  below_head x y xs ys a h = elim (Bool-cases (less x y)) [
    | inl e ↦
        absurd
          (ground (arith, any_self x xs, not_in_of_above x (y ∷ ys) (e, All-trans x y ys e a.0)))
    | inr e ↦ e
  ]

  any-without :
      (p : A → Bool) (x : A) (xs : List A)
      → any (same x) xs ≡ false
      → any (λ z. p z && not (same x z)) xs ≡ any p xs
  any-without p x [] h = refl
  any-without p x (z ∷ zs) h = ground (arith, any-without p x zs)

  -- An ascending list is determined by its items.
  pub IsAscending-unique :
      (xs ys : List A)
      → IsAscending less same xs
      → IsAscending less same ys
      → ((p : A → Bool) → any p xs ≡ any p ys)
      → xs ≡ ys
  IsAscending-unique [] [] a b h = refl
  IsAscending-unique [] (y ∷ ys) a b h = absurd (ground (arith, h (λ _. true)))
  IsAscending-unique (x ∷ xs) [] a b h = absurd (ground (arith, h (λ _. true)))
  IsAscending-unique (x ∷ xs) (y ∷ ys) a b h =
      let e : x ≡ y = ground (
        arith,
        o.same_iff x y,
        o.total x y,
        below_head x y xs ys b (h (same x)),
        below_head y x ys xs a (sym (h (same y))),
      ) in
      ap₂ ◌∷◌ e (IsAscending-unique xs ys a.1 b.1 (tails e))
    where
      tails : x ≡ y → (p : A → Bool) → any p xs ≡ any p ys
      tails e p = ground (
        arith,
        h (λ z. p z && not (same x z)),
        any-without p x xs,
        any-without p x ys,
        not_in_of_above x xs a.0,
        not_in_of_above y ys b.0,
        o.same_iff x x,
        o.same_iff x y,
      )
