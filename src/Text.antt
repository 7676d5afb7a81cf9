-- ===== src/Text.antt =====
-- Go's strings as lists of bytes, with what the program uses of the package `strings`:
-- equality, the order of `strings.Compare`, `strings.Join`, `strings.HasPrefix`.
pub mod Join
pub mod Order
pub mod Split
pub mod Members
use Prim.Native.Char.{code}
use controller_tools.Prelude.{
  ℕ, String, ◌≡◌, refl, ◌↔◌, Bool, true, false, ◌&&◌, ◌||◌, List, [], ◌∷◌, ◌++◌, arith, ltb, ◌==◌,
  if◌then◌else◌, any, sym, bool_ext,
}

abbrev pub Text : Type 0
Text = List ℕ

-- A literal of the source; every literal of the program is ASCII.
abbrev pub codes : String → Text
codes String.[] = []
codes (String.◌∷◌ c s) = code c ∷ codes s

unfoldable pub eq_text : Text → Text → Bool
eq_text [] [] = true
eq_text (x ∷ xs) (y ∷ ys) = x == y && eq_text xs ys
eq_text _ _ = false

eq_text→eq : (s t : Text) → eq_text s t ≡ true → s ≡ t
unfolding eq_text
eq_text→eq [] [] h = refl
eq_text→eq [] (y ∷ t) h = ground arith
eq_text→eq (x ∷ s) [] h = ground arith
eq_text→eq (x ∷ s) (y ∷ t) h = ground (arith, eq_text→eq s t)

pub eq_text_refl : (s : Text) → eq_text s s ≡ true
unfolding eq_text
eq_text_refl [] = refl
eq_text_refl (x ∷ s) = ground (arith, eq_text_refl s)

pub eq_text_iff : (s t : Text) → (eq_text s t ≡ true) ↔ (s ≡ t)
eq_text_iff s t = (eq_text→eq s t, λ e. ground (arith, eq_text_refl s))

pub eq_text_sym : (s t : Text) → eq_text s t ≡ eq_text t s
eq_text_sym s t =
    bool_ext (λ h. (eq_text_iff t s).1 (sym ((eq_text_iff s t).0 h)))
      (λ h. (eq_text_iff s t).1 (sym ((eq_text_iff t s).0 h)))

-- `strings.Compare s t < 0`
unfoldable pub less_text : Text → Text → Bool
less_text [] [] = false
less_text [] (y ∷ t) = true
less_text (x ∷ s) [] = false
less_text (x ∷ s) (y ∷ t) = ltb x y || (x == y && less_text s t)

unfoldable pub join : Text → List Text → Text
join sep [] = []
join sep (x ∷ []) = x
join sep (x ∷ y ∷ rest) = x ++ (sep ++ join sep (y ∷ rest))

-- `slices.Contains`, and membership in a set of strings
unfoldable pub mem : Text → List Text → Bool
unfolding eq_text
mem x = any (eq_text x)

-- Whether a text holds the byte.
abbrev pub has_byte : ℕ → Text → Bool
has_byte c = any (λ b. b == c)
