-- ===== src/Prelude/Assoc.antt =====
-- Go's maps as association lists in the order of first insertion. A loop over a map goes through
-- some rearrangement of the list.
use controller_tools.Prelude.Tests.{if◌then◌else◌, Bool-cases}
use controller_tools.Prelude.Ascending.{IsDistinct}
use controller_tools.Prelude.Lists.{any, All}
use mathlib.Core.Path.{◌≡◌, refl, sym, ap, subst, subst₂}
use mathlib.Core.Logic.{inl, inr, ◌↔◌}
use mathlib.Core.Bool.{Bool, true, ◌||◌}
use mathlib.Core.Option.{Option, none, some, some-injective}
use mathlib.Core.List.{List, [], ◌∷◌, map}
use native.Mathlib.Omega.{arith}

module _ {ℓ κ} {K : Type ℓ} {V : Type κ} (same : K → K → Bool) where
  -- `m[k]`, with whether the key is there
  unfoldable pub lookup : K → List (K × V) → Option V
  lookup k [] = none
  lookup k ((j, v) ∷ m) = if same k j then some v else lookup k m

  -- `m[k] = v`
  unfoldable pub put : K → V → List (K × V) → List (K × V)
  put k v [] = (k, v) ∷ []
  put k v ((j, w) ∷ m) = if same k j then (j, v) ∷ m else (j, w) ∷ put k v m

-- A test of the values, over the whole map.
abbrev pub any_value {ℓ κ} : {K : Type ℓ} {V : Type κ} → (V → Bool) → List (K × V) → Bool
any_value p m = any (λ e. p e.1) m

module _ {ℓ κ} {K : Type ℓ} {V : Type κ} (same : K → K → Bool) (p : V → Bool) (k : K) where
  -- A write adds at most the value that it writes.
  pub any-put :
      (v : V) (m : List (K × V))
      → any_value p (put same k v m) ≡ true
      → (p v || any_value p m) ≡ true
  unfolding put
  any-put v [] h = h
  any-put v ((j, w) ∷ m) h = ground (arith, any-put v m)

  pub any-put_new :
      (v : V) (m : List (K × V))
      → lookup same k m ≡ none
      → any_value p (put same k v m) ≡ (any_value p m || p v)
  unfolding put lookup
  any-put_new v [] h = ground arith
  any-put_new v ((j, w) ∷ m) h = elim (Bool-cases (same k j)) [
    | inl e ↦ absurd (ground arith)
    | inr e ↦ ground (arith, any-put_new v m)
  ]

  pub any-put_old :
      (v w : V) (x : Bool) (m : List (K × V))
      → p v ≡ (p w || x)
      → lookup same k m ≡ some w
      → any_value p (put same k v m) ≡ (any_value p m || x)
  unfolding put lookup
  any-put_old v w x [] e h = cc
  any-put_old v w x ((j, u) ∷ m) e h = ground (arith, ap p {x = u} {y = w}, any-put_old v w x m e)

-- The same for a test of a key with its value.
module _ {ℓ κ} {K : Type ℓ} {V : Type κ} (same : K → K → Bool) (p : K × V → Bool) (k : K) where
  pub any_entry-put_new :
      (v : V) (m : List (K × V))
      → lookup same k m ≡ none
      → any p (put same k v m) ≡ (any p m || p (k, v))
  unfolding put lookup
  any_entry-put_new v [] h = ground arith
  any_entry-put_new v ((j, w) ∷ m) h = elim (Bool-cases (same k j)) [
    | inl e ↦ absurd (ground arith)
    | inr e ↦ ground (arith, any_entry-put_new v m)
  ]

  pub any_entry-put_old :
      (v w : V) (x : Bool) (m : List (K × V))
      → ((j : K) → same k j ≡ true → p (j, v) ≡ (p (j, w) || x))
      → lookup same k m ≡ some w
      → any p (put same k v m) ≡ (any p m || x)
  unfolding put lookup
  any_entry-put_old v w x [] e h = cc
  any_entry-put_old v w x ((j, u) ∷ m) e h = elim (Bool-cases (same k j)) [
    | inl here ↦
        let eq : u ≡ w = some-injective u w (rw here at h) in
        rw here (ground (arith, e j here, ap (λ z. p (j, z)) eq))
    | inr there ↦ rw there (ground (arith, any_entry-put_old v w x m e (rw there at h)))
  ]

module _ {ℓ κ μ} {K : Type ℓ} {V : Type κ} (same : K → K → Bool) (I : K → V → Type μ) where
  pub All-put :
      (k : K) (v : V) (m : List (K × V))
      → ((j : K) → same k j ≡ true → k ≡ j)
      → I k v
      → All (λ e. I e.0 e.1) m
      → All (λ e. I e.0 e.1) (put same k v m)
  unfolding put
  All-put k v [] sound h a = (h, a)
  All-put k v ((j, w) ∷ m) sound h a = elim (Bool-cases (same k j)) [
    | inl e ↦ rw e (subst (λ i. I i v) (sound j e) h, a.1)
    | inr e ↦ rw e (a.0, All-put k v m sound h a.1)
  ]

  pub All-lookup :
      (k : K) (v : V) (m : List (K × V))
      → ((j : K) → same k j ≡ true → k ≡ j)
      → All (λ e. I e.0 e.1) m
      → lookup same k m ≡ some v
      → I k v
  unfolding lookup
  All-lookup k v [] sound a h = cc
  All-lookup k v ((j, w) ∷ m) sound a h = elim (Bool-cases (same k j)) [
    | inl e ↦ subst₂ I (sym (sound j e)) (some-injective w v (rw e at h)) a.0
    | inr e ↦ All-lookup k v m sound a.1 (rw e at h)
  ]

-- The keys of a map.
abbrev pub keys_of {ℓ κ} : {K : Type ℓ} {V : Type κ} → List (K × V) → List K
keys_of = map (λ e. e.0)

module _ {ℓ κ} {K : Type ℓ} {V : Type κ} (same : K → K → Bool) (k : K) (v : V) where
  any-keys_put :
      (p : K → Bool) (m : List (K × V))
      → any p (keys_of (put same k v m)) ≡ true
      → (p k || any p (keys_of m)) ≡ true
  unfolding put
  any-keys_put p [] h = h
  any-keys_put p ((j, w) ∷ m) h = ground (arith, any-keys_put p m)

  pub put-IsDistinct :
      (less : K → K → Bool) (m : List (K × V))
      → ((i j : K) → same i j ≡ same j i)
      → IsDistinct less same (keys_of m)
      → IsDistinct less same (keys_of (put same k v m))
  unfolding put
  put-IsDistinct less [] comm d = (refl, tt)
  put-IsDistinct less ((j, w) ∷ m) comm d = elim (Bool-cases (same k j)) [
    | inl e ↦ rw e d
    | inr e ↦
        rw e (ground (arith, comm k j, any-keys_put (same j) m), put-IsDistinct less m comm d.1)
  ]

module _ {ℓ κ} {K : Type ℓ} {V : Type κ} (same : K → K → Bool) where
  -- What a map holds after a write.
  pub lookup-put :
      (i k : K) (v : V) (m : List (K × V))
      → ((a b : K) → (same a b ≡ true) ↔ (a ≡ b))
      → lookup same i (put same k v m) ≡ (if same i k then some v else lookup same i m)
  unfolding lookup put
  lookup-put i k v [] eq = refl
  lookup-put i k v ((j, w) ∷ m) eq = elim (Bool-cases (same k j)) [
    | inl e ↦ rw (e, (eq k j).0 e) (ground arith)
    | inr e ↦ rw e (
        ground (
          arith,
          lookup-put i k v m eq,
          (eq i k).0,
          (eq i j).0,
          ap (λ z. same z j) {x = i} {y = k},
        ))
  ]

  -- Two maps with the same keys have the same keys after writes at one key.
  pub keys-put {μ} :
      {W : Type μ} (k : K) (v : V) (w : W) (m : List (K × V)) (n : List (K × W))
      → keys_of m ≡ keys_of n
      → keys_of (put same k v m) ≡ keys_of (put same k w n)
  unfolding put
  keys-put k v w [] [] h = refl
  keys-put k v w [] (e ∷ n) h = cc
  keys-put k v w (e ∷ m) [] h = cc
  keys-put k v w ((i, x) ∷ m) ((j, y) ∷ n) h =
      let head : i ≡ j = cc in
      let tail : keys_of m ≡ keys_of n = cc in
      rw head (elim (Bool-cases (same k j)) [
        | inl e ↦ rw e (ap (◌∷◌ j) tail)
        | inr e ↦ rw e (ap (◌∷◌ j) (keys-put k v w m n tail))
      ])
