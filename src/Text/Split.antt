-- ===== src/Text/Split.antt =====
-- `strings.Split` and `strings.SplitN(s, sep, 2)` at a separator of one byte.
use controller_tools.Prelude.{
  ℕ, ◌≡◌, refl, sym, ap, ◌∙◌, false, Option, none, some, List, [], ◌∷◌, ◌++◌, arith, ◌==◌,
  if◌then◌else◌, Bool-cases, inl, inr,
}
use mathlib.Core.List.{append_assoc}
use controller_tools.Text.{Text, join, has_byte}

-- The texts before and after the first separator, if there is one: `strings.SplitN(t, sep, 2)`.
unfoldable pub cut : ℕ → Text → Option (Text × Text)
cut sep [] = none
cut sep (b ∷ t) =
    if b == sep
    then some ([], t)
    else (elim (cut sep t) [ none ↦ none | some (before, after) ↦ some (b ∷ before, after) ])

-- What follows a prefix: `strings.HasPrefix(t, prefix)` and `t[len(prefix):]`.
unfoldable pub after_prefix : Text → Text → Option Text
after_prefix [] t = some t
after_prefix (b ∷ prefix) [] = none
after_prefix (b ∷ prefix) (x ∷ t) =
    let rest = after_prefix prefix t in if b == x then rest else none

-- The first part and the others, so that the result is never empty.
abbrev pub Parts : Type 0
Parts = Text × List Text

-- `strings.Split(t, sep)`
unfoldable pub split : ℕ → Text → Parts
split sep [] = ([], [])
split sep (b ∷ t) =
    let (first, rest) = split sep t in if b == sep then ([], first ∷ rest) else (b ∷ first, rest)

-- Every part but the last one: `parts[:len(parts)-1]`.
unfoldable pub init : Text → List Text → List Text
init first [] = []
init first (next ∷ rest) = first ∷ init next rest

-- `parts[len(parts)-1]`
unfoldable pub last : Text → List Text → Text
last first [] = first
last first (next ∷ rest) = last next rest

pub cut-none : (sep : ℕ) (t : Text) → has_byte sep t ≡ false → cut sep t ≡ none
unfolding cut
cut-none sep [] h = refl
cut-none sep (b ∷ t) h = ground (arith, cut-none sep t)

pub cut_append :
    (sep : ℕ) (s t : Text) → has_byte sep s ≡ false → cut sep (s ++ sep ∷ t) ≡ some (s, t)
unfolding cut
cut_append sep [] t h = ground arith
cut_append sep (b ∷ s) t h = ground (arith, cut_append sep s t)

pub split_none : (sep : ℕ) (t : Text) → has_byte sep t ≡ false → split sep t ≡ (t, [])
unfolding split
split_none sep [] h = refl
split_none sep (b ∷ t) h = ground (arith, split_none sep t)

join-cons :
    (sep : Text) (b : ℕ) (x : Text) (xs : List Text)
    → join sep ((b ∷ x) ∷ xs) ≡ b ∷ join sep (x ∷ xs)
unfolding join
join-cons sep b x [] = refl
join-cons sep b x (y ∷ ys) = refl

-- A split can be undone by a join.
pub join-split : (sep : ℕ) (t : Text) → join (sep ∷ []) ((split sep t).0 ∷ (split sep t).1) ≡ t
unfolding join split
join-split sep [] = refl
join-split sep (b ∷ t) = elim (Bool-cases (b == sep)) [
  | inl e ↦ rw e (ground (arith, join-split sep t))
  | inr e ↦
      rw e (join-cons (sep ∷ []) b (split sep t).0 (split sep t).1 ∙ ap (◌∷◌ b) (join-split sep t))
]

-- The text without its last separator and what follows it.
pub init-last :
    (sep : ℕ) (first next : Text) (rest : List Text)
    → join (sep ∷ []) (first ∷ next ∷ rest)
      ≡ join (sep ∷ []) (init first (next ∷ rest)) ++ sep ∷ last next rest
unfolding join init last
init-last sep first next [] = refl
init-last sep first next (third ∷ rest) =
    ap (λ z. first ++ sep ∷ z) (init-last sep next third rest)
    ∙ sym (append_assoc first (sep ∷ join (sep ∷ []) (next ∷ init third rest)) _)

last-cons :
    (sep b : ℕ) (first : Text) (rest : List Text)
    → (b == sep) ≡ false
    → has_byte sep (last first rest) ≡ false
    → has_byte sep (last (b ∷ first) rest) ≡ false
unfolding last
last-cons sep b first [] e h = ground arith
last-cons sep b first (next ∷ rest) e h = h

pub last_clean : (sep : ℕ) (t : Text) → has_byte sep (last (split sep t).0 (split sep t).1) ≡ false
unfolding split last
last_clean sep [] = refl
last_clean sep (b ∷ t) = elim (Bool-cases (b == sep)) [
  | inl e ↦ rw e (last_clean sep t)
  | inr e ↦ rw e (last-cons sep b (split sep t).0 (split sep t).1 e (last_clean sep t))
]

-- A part without separators behind a separator is the last part.
pub split-append :
    (sep : ℕ) (t part : Text)
    → has_byte sep part ≡ false
    → split sep (t ++ sep ∷ part) ≡ ((split sep t).0, (split sep t).1 ++ part ∷ [])
unfolding split
split-append sep [] part h = rw (split_none sep part h) (ground arith)
split-append sep (b ∷ t) part h = elim (Bool-cases (b == sep)) [
  | inl e ↦ rw (split-append sep t part h, e) refl
  | inr e ↦ rw (split-append sep t part h, e) refl
]

pub init-append :
    (first part : Text) (rest : List Text) → init first (rest ++ part ∷ []) ≡ first ∷ rest
unfolding init
init-append first part [] = refl
init-append first part (next ∷ rest) = ap (◌∷◌ first) (init-append next part rest)

pub split-cons :
    (sep : ℕ) (part t : Text)
    → has_byte sep part ≡ false
    → split sep (part ++ sep ∷ t) ≡ (part, (split sep t).0 ∷ (split sep t).1)
unfolding split
split-cons sep [] t h = ground arith
split-cons sep (b ∷ part) t h = ground (arith, split-cons sep part t)
