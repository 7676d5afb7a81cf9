-- ===== src/Crd/Markers/Cel.antt =====
-- Expressions of the Common Expression Language: conditionals, `||`, `<=` and `==`, sums, integers of one
-- digit, parentheses and `has(self.f)`. They are read by the grammar of the language, with its
-- precedences, its names and its reserved words, and have their values there.
use controller_tools.Prelude.{
  ℕ, zero, suc, ◌+◌, ◌-◌, Bool, false, not, ◌&&◌, ◌||◌, Option, none, some, List, [], ◌∷◌,
  if◌then◌else◌, length, leb, ◌==◌,
}
use controller_tools.Text.{Text, codes, mem}
use controller_tools.Text.Split.{after_prefix}

pub data CelValue : Type 0 where
  truth : Bool → CelValue
  int : ℕ → CelValue

-- A value and the text after it, or none for a text that is no expression.
abbrev pub Reading : Type 0
Reading = Option (CelValue × Text)

unfoldable pub skip_spaces : Text → Text
skip_spaces [] = []
skip_spaces (b ∷ t) = if b == b' ' then skip_spaces t else b ∷ t

-- The text after a token.
unfoldable pub token : Text → Text → Option Text
unfolding skip_spaces after_prefix
token word t = after_prefix word (skip_spaces t)

abbrev pub is_digit : ℕ → Bool
is_digit b = leb b'0' b && leb b b'9'

abbrev pub is_letter : ℕ → Bool
is_letter b = (leb b'a' b && leb b b'z') || (leb b'A' b && leb b b'Z') || b == b'_'

-- The longest start of a text that letters and digits make.
unfoldable pub read_name : Text → Text × Text
read_name [] = ([], [])
read_name (b ∷ t) =
    let (name, rest) = read_name t in
    if is_letter b || is_digit b then (b ∷ name, rest) else ([], b ∷ t)

abbrev pub reserved : List Text
reserved =
    codes "false"
    ∷ codes "in"
    ∷ codes "null"
    ∷ codes "true"
    ∷ codes "as"
    ∷ codes "break"
    ∷ codes "const"
    ∷ codes "continue"
    ∷ codes "else"
    ∷ codes "for"
    ∷ codes "function"
    ∷ codes "if"
    ∷ codes "import"
    ∷ codes "let"
    ∷ codes "loop"
    ∷ codes "package"
    ∷ codes "namespace"
    ∷ codes "return"
    ∷ codes "var"
    ∷ codes "void"
    ∷ codes "while"
    ∷ []

abbrev pub starts_name : Text → Bool
starts_name [] = false
starts_name (b ∷ t) = is_letter b

-- Whether a name that is read is an identifier.
unfoldable pub is_identifier : Text → Bool
unfolding mem
is_identifier name = starts_name name && not (mem name reserved)

abbrev pub add_values : CelValue → CelValue → Option CelValue
add_values (int m) (int n) = some (int (m + n))
add_values _ _ = none

abbrev pub or_values : CelValue → CelValue → Option CelValue
or_values (truth a) (truth b) = some (truth (a || b))
or_values _ _ = none

abbrev pub at_most : CelValue → CelValue → Option CelValue
at_most (int m) (int n) = some (truth (leb m n))
at_most _ _ = none

abbrev pub equals : CelValue → CelValue → Option CelValue
equals (int m) (int n) = some (truth (m == n))
equals _ _ = none

abbrev pub choose : CelValue → CelValue → CelValue → Option CelValue
choose (truth b) v w = some (if b then v else w)
choose (int n) v w = none

abbrev pub with_rest : Option CelValue → Text → Reading
with_rest none t = none
with_rest (some v) t = some (v, t)

-- Another operand after an operator, and the operation.
abbrev pub combine : (CelValue → CelValue → Option CelValue) → CelValue → Reading → Reading
combine f v none = none
combine f v (some (w, t)) = with_rest (f v w) t

-- The value of a text that is read to its end.
abbrev pub whole : Reading → Option CelValue
whole (some (v, [])) = some v
whole _ = none

-- After a `(` and an expression.
unfoldable pub close : Reading → Reading
unfolding token
close none = none
close (some (v, t)) = elim (token (codes ")") t) [ none ↦ none | some rest ↦ some (v, rest) ]

-- `A op B op C`, from the left, once `A` is read.
unfoldable pub chain :
    (Text → Reading) → (op : Text) → (CelValue → CelValue → Option CelValue) → ℕ → Reading → Reading
unfolding token
chain next op f fuel none = none
chain next op f zero (some r) = none
chain next op f (suc fuel) (some (v, t)) = (elim (token op t) [
  | none ↦ some (v, t)
  | some u ↦ chain next op f fuel (combine f v (next u))
])

module _ (has : Text → Bool) where
  -- After `has(self.`
  unfoldable pub selected : Text × Text → Reading
  unfolding token is_identifier
  selected (name, t) = (elim (token (codes ")") t) [
    | none ↦ none
    | some rest ↦ if is_identifier name then some (truth (has name), rest) else none
  ])

  abbrev pub digit : Text → Reading
  digit [] = none
  digit (b ∷ t) = if is_digit b then some (int (b - b'0'), t) else none

  unfoldable pub primary : (Text → Reading) → Text → Reading
  unfolding token selected read_name close skip_spaces
  primary inner t = (elim (token (codes "has(self.") t) [
    | some u ↦ selected (read_name u)
    | none ↦ (elim (token (codes "(") t) [
      | some u ↦ close (inner u)
      | none ↦ digit (skip_spaces t)
    ])
  ])

  module _ (inner : Text → Reading) (fuel : ℕ) where
    -- What follows a primary expression in a sum, a sum in a comparison, and so on.
    unfoldable pub sum_after : Reading → Reading
    unfolding chain primary
    sum_after = chain (primary inner) (codes "+") add_values fuel

    unfoldable pub sum : Text → Reading
    unfolding sum_after primary
    sum t = sum_after (primary inner t)

    unfoldable pub relation_after : Reading → Reading
    unfolding token sum
    relation_after none = none
    relation_after (some (v, t)) = (elim (token (codes "<=") t) [
      | some u ↦ combine at_most v (sum u)
      | none ↦ (elim (token (codes "==") t) [
        | some u ↦ combine equals v (sum u)
        | none ↦ some (v, t)
      ])
    ])

    unfoldable pub or_after : Reading → Reading
    unfolding chain relation_after sum
    or_after = chain (λ t. relation_after (sum t)) (codes "||") or_values fuel

    unfoldable pub disjunction : Text → Reading
    unfolding or_after relation_after sum
    disjunction t = or_after (relation_after (sum t))

    abbrev pub last_branch : CelValue → CelValue → Reading → Reading
    last_branch v w none = none
    last_branch v w (some (x, t)) = with_rest (choose v w x) t

    unfoldable pub else_branch : CelValue → Reading → Reading
    unfolding token
    else_branch v none = none
    else_branch v (some (w, t)) = (elim (token (codes ":") t) [
      | none ↦ none
      | some u ↦ last_branch v w (inner u)
    ])

    unfoldable pub conditional_after : Reading → Reading
    unfolding token else_branch disjunction
    conditional_after none = none
    conditional_after (some (v, t)) = (elim (token (codes "?") t) [
      | none ↦ some (v, t)
      | some u ↦ else_branch v (disjunction u)
    ])

    unfoldable pub after_primary : Reading → Reading
    unfolding conditional_after or_after relation_after sum_after
    after_primary r = conditional_after (or_after (relation_after (sum_after r)))

  -- The fuel bounds the nesting, and the operands of a chain.
  unfoldable pub expression : ℕ → Text → Reading
  unfolding after_primary primary
  expression zero t = none
  expression (suc fuel) t = after_primary (expression fuel) fuel (primary (expression fuel) t)

  -- The value of a text that is an expression. The fuel is greater than its length.
  unfoldable pub value_of : Text → Option CelValue
  unfolding expression
  value_of t = whole (expression (suc (suc (suc (suc (length t))))) t)
