-- ===== src/Crd/Markers/OneOf.antt =====
-- `fieldsToOneOfSumExpr` and `fieldsToOneOfOrExpr` of pkg/crd/markers/validation.go, and the rules that are
-- made with them.
use controller_tools.Prelude.{List, [], ◌∷◌, ◌++◌}
use controller_tools.Text.{Text, codes}

abbrev pub sum_term : Text → Text
sum_term field = codes "(has(self." ++ (field ++ codes ")?1:0)")

abbrev pub or_term : Text → Text
or_term field = codes "has(self." ++ (field ++ codes ")")

-- The iterations with `i > 0`.
unfoldable pub more_sum_terms : List Text → Text
more_sum_terms [] = []
more_sum_terms (f ∷ fields) = codes "+" ++ (sum_term f ++ more_sum_terms fields)

unfoldable pub fields_to_one_of_sum_expr : List Text → Text
unfolding more_sum_terms
fields_to_one_of_sum_expr [] = []
fields_to_one_of_sum_expr (f ∷ fields) = sum_term f ++ more_sum_terms fields

unfoldable pub more_or_terms : List Text → Text
more_or_terms [] = []
more_or_terms (f ∷ fields) = codes "||" ++ (or_term f ++ more_or_terms fields)

unfoldable pub fields_to_one_of_or_expr : List Text → Text
unfolding more_or_terms
fields_to_one_of_or_expr [] = []
fields_to_one_of_or_expr (f ∷ fields) = or_term f ++ more_or_terms fields

-- The rules of `AtMostOneOf` and `ExactlyOneOf`.
abbrev pub at_most_rule : List Text → Text
unfolding fields_to_one_of_sum_expr
at_most_rule fields = fields_to_one_of_sum_expr fields ++ codes " <= 1"

abbrev pub exactly_rule : List Text → Text
unfolding fields_to_one_of_sum_expr
exactly_rule fields = fields_to_one_of_sum_expr fields ++ codes " == 1"
