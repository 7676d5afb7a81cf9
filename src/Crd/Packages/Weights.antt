-- ===== src/Crd/Packages/Weights.antt =====
-- Lists of packages, and the number of the imports of those that a search has not visited.
use controller_tools.Prelude.{
  ℕ, suc, ◌+◌, ◌≤◌, ◌≡◌, refl, sym, ap, subst, inl, inr, Bool, true, false, ◌||◌, List, [], ◌∷◌,
  ◌++◌, map, any, length, ◌==◌, ==_iff, if◌then◌else◌, Bool-cases, arith, All,
}
use controller_tools.Text.{Text}
use controller_tools.Crd.Packages.{Imports, found, not_found, out_of_fuel, count_imports}

-- The test `visited[p]`.
abbrev pub among : ℕ → List ℕ → Bool
among p ps = any (λ v. v == p) ps

pub length-map : (l : List (Text × ℕ)) → length (map (λ (k, p). p) l) ≡ length l
length-map [] = refl
length-map (e ∷ l) = ap suc (length-map l)

module _ (imports : Imports) where
  -- The imports of the packages that are not visited yet.
  abbrev pub weight : List ℕ → List ℕ → ℕ
  weight visited [] = 0
  weight visited (p ∷ packages) =
      (if among p visited then 0 else length (imports p)) + weight visited packages

  weight_more :
      (visited packages : List ℕ) (c : ℕ) → weight (c ∷ visited) packages ≤ weight visited packages
  weight_more visited [] c = omega arith
  weight_more visited (p ∷ packages) c = ground (arith, weight_more visited packages c)

  weight_hit :
      (visited packages : List ℕ) (c : ℕ)
      → among c visited ≡ false
      → weight (c ∷ visited) (c ∷ packages) + length (imports c) ≤ weight visited (c ∷ packages)
  weight_hit visited packages c k = ground (arith, weight_more visited packages c, k)

  pub weight_less :
      (visited packages : List ℕ) (c : ℕ)
      → among c packages ≡ true
      → among c visited ≡ false
      → weight (c ∷ visited) packages + length (imports c) ≤ weight visited packages
  weight_less visited [] c h k = cc
  weight_less visited (p ∷ packages) c h k = elim (Bool-cases (p == c)) [
    | inl e ↦
        subst
          (λ q.
            weight (c ∷ visited) (q ∷ packages) + length (imports c)
            ≤ weight visited (q ∷ packages))
          (sym ((==_iff p c).0 e)) (weight_hit visited packages c k)
    | inr e ↦ ground (arith, weight_less visited packages c (ground arith) k)
  ]

  pub weight_start : (packages : List ℕ) → weight [] packages ≡ count_imports imports packages
  weight_start [] = refl
  weight_start (p ∷ packages) = ap (λ n. length (imports p) + n) (weight_start packages)

pub not_found_ends : not_found ≡ out_of_fuel → ⊥
not_found_ends e = cc

pub found_ends : {p : ℕ} → found p ≡ out_of_fuel → ⊥
found_ends e = cc

pub found_injective : {p q : ℕ} → found p ≡ found q → p ≡ q
found_injective e = cc

pub found_is_found : {p : ℕ} → found p ≡ not_found → ⊥
found_is_found e = cc

pub All-append {ℓ κ} :
    {A : Type ℓ} (P : A → Type κ) (xs ys : List A) → All P xs → All P ys → All P (xs ++ ys)
All-append P [] ys h k = k
All-append P (x ∷ xs) ys h k = (h.0, All-append P xs ys h.1 k)

pub All-weaken : (P Q : ℕ → Type 0) (xs : List ℕ) → ((x : ℕ) → P x → Q x) → All P xs → All Q xs
All-weaken P Q [] f h = tt
All-weaken P Q (x ∷ xs) f h = (f x h.0, All-weaken P Q xs f h.1)

pub members : (xs : List ℕ) → All (λ r. among r xs ≡ true) xs
members [] = tt
members (x ∷ xs) = (
  ground arith,
  All-weaken (λ r. among r xs ≡ true) (λ r. among r (x ∷ xs) ≡ true) xs (λ r h. ground (arith, h))
      (members xs),
)

pub pick {ℓ} : (P : ℕ → Type ℓ) (p : ℕ) (xs : List ℕ) → All P xs → among p xs ≡ true → P p
pick P p [] h k = cc
pick P p (x ∷ xs) h k = elim (Bool-cases (x == p)) [
  | inl e ↦ subst P ((==_iff x p).0 e) h.0
  | inr e ↦ pick P p xs h.1 (ground (arith, k))
]

pub unpad : (b : Bool) → (b || false) ≡ true → b ≡ true
unpad b h = ground arith
