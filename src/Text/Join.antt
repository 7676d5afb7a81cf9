-- ===== src/Text/Join.antt =====
-- `strings.Join` by one byte can be undone where no item holds that byte.
use controller_tools.Prelude.{
  ℕ, ◌≡◌, refl, sym, ap, true, false, List, [], ◌∷◌, ◌++◌, arith, ◌==◌, any, any-append, is_empty,
}
use controller_tools.Text.{Text, join, has_byte}

-- Two texts that agree up to the first separator agree on both sides of it.
pub split_at_byte :
    (c : ℕ) (a b s t : Text)
    → has_byte c a ≡ false
    → has_byte c b ≡ false
    → a ++ c ∷ s ≡ b ++ c ∷ t
    → (a ≡ b) × (s ≡ t)
split_at_byte c [] [] s t ha hb e = (refl, cc)
split_at_byte c [] (y ∷ b) s t ha hb e = absurd (ground arith)
split_at_byte c (x ∷ a) [] s t ha hb e = absurd (ground arith)
split_at_byte c (x ∷ a) (y ∷ b) s t ha hb e =
    let (p, q) = split_at_byte c a b s t (ground arith) (ground arith) (cc) in (cc, q)

byte_after : (c : ℕ) (b t : Text) → has_byte c (b ++ c ∷ t) ≡ true
byte_after c b t = ground (arith, any-append (λ x. x == c) b (c ∷ t))

no_byte_after : (c : ℕ) (a b t : Text) → has_byte c a ≡ false → a ≡ b ++ c ∷ t → ⊥
no_byte_after c a b t h e = ground (arith, byte_after c b t, ap (has_byte c) e)

abbrev pub AllClean : ℕ → List Text → Type 0
AllClean c xs = any (has_byte c) xs ≡ false

pub join-injective :
    (c : ℕ) (xs ys : List Text)
    → AllClean c xs
    → AllClean c ys
    → is_empty xs ≡ is_empty ys
    → join (c ∷ []) xs ≡ join (c ∷ []) ys
    → xs ≡ ys
unfolding join
join-injective c [] [] hx hy n e = refl
join-injective c [] (y ∷ ys) hx hy n e = cc
join-injective c (x ∷ xs) [] hx hy n e = cc
join-injective c (x ∷ []) (y ∷ []) hx hy n e = cc
join-injective c (x ∷ []) (y ∷ y' ∷ ys) hx hy n e =
    absurd (no_byte_after c x y (join (c ∷ []) (y' ∷ ys)) (ground arith) e)
join-injective c (x ∷ x' ∷ xs) (y ∷ []) hx hy n e =
    absurd (no_byte_after c y x (join (c ∷ []) (x' ∷ xs)) (ground arith) (sym e))
join-injective c (x ∷ x' ∷ xs) (y ∷ y' ∷ ys) hx hy n e =
    let (p, q) =
      split_at_byte c x y (join (c ∷ []) (x' ∷ xs)) (join (c ∷ []) (y' ∷ ys)) (ground arith)
        (ground arith) e in
    cc (p, join-injective c (x' ∷ xs) (y' ∷ ys) (ground arith) (ground arith) refl q)
