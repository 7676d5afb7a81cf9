-- ===== src/Crd/Markers/Rules.antt =====
-- What the rules of the one-of markers say in CEL.
use controller_tools.Prelude.{
  ℕ, zero, suc, ◌≡◌, ◌≤◌, ◌<◌, refl, ap, ◌∙◌, Bool, true, false, ◌||◌, ◌+◌, Option, none, some,
  List, length-append, [], ◌∷◌, ◌++◌, All, arith, any, if◌then◌else◌, length, leb, ◌==◌,
}
use mathlib.Core.List.{append_assoc}
use controller_tools.Text.{Text, codes}
use controller_tools.Text.Split.{after_prefix}
use controller_tools.Crd.Markers.OneOf.{
  sum_term, or_term, more_sum_terms, fields_to_one_of_sum_expr, more_or_terms,
  fields_to_one_of_or_expr, at_most_rule, exactly_rule,
}
use controller_tools.Crd.Markers.Cel.{
  CelValue, truth, int, Reading, skip_spaces, token, is_digit, is_letter, read_name, is_identifier,
  add_values, or_values, combine, whole, close, chain, selected, primary, sum_after, sum,
  relation_after, or_after, disjunction, else_branch, conditional_after, after_primary, expression,
  value_of,
}

-- An identifier of CEL.
abbrev pub IsIdentifier : Text → Type 0
IsIdentifier f = All (λ b. (is_letter b || is_digit b) ≡ true) f × (is_identifier f ≡ true)

-- The number of the fields that are set.
abbrev pub count : (Text → Bool) → List Text → ℕ
count has [] = 0
count has (f ∷ fields) = (if has f then 1 else 0) + count has fields

read_name-closed :
    (f s rest : Text)
    → All (λ b. (is_letter b || is_digit b) ≡ true) f
    → read_name ((f ++ (codes ")" ++ s)) ++ rest) ≡ (f, codes ")" ++ (s ++ rest))
unfolding read_name
read_name-closed [] s rest h = refl
read_name-closed (b ∷ f) s rest h = rw (h.0, read_name-closed f s rest h.1) refl

module _ (has : Text → Bool) where
  selected_lem :
      (f t : Text)
      → is_identifier f ≡ true
      → selected has (f, codes ")" ++ t) ≡ some (truth (has f), t)
  unfolding selected token skip_spaces after_prefix
  selected_lem f t h = rw h refl

  has_lem :
      (inner : Text → Reading) (f s rest : Text)
      → IsIdentifier f
      → primary has inner (codes "has(self." ++ ((f ++ (codes ")" ++ s)) ++ rest))
        ≡ some (truth (has f), s ++ rest)
  unfolding primary token skip_spaces after_prefix
  has_lem inner f s rest h =
      ap (selected has) (read_name-closed f s rest h.0) ∙ selected_lem f (s ++ rest) h.1

  -- A term after its `has`.
  branches :
      (n : ℕ) (b : Bool) (rest : Text)
      → close (
          after_primary has
            (expression has (suc (suc n)))
            (suc (suc n))
            (some (truth b, codes "?1:0)" ++ rest)))
        ≡ some (int (if b then 1 else 0), rest)
  unfolding close after_primary conditional_after or_after relation_after sum_after chain token
      skip_spaces after_prefix disjunction sum else_branch expression primary
  branches n true rest = refl
  branches n false rest = refl

  term_lem :
      (n : ℕ) (f rest : Text)
      → IsIdentifier f
      → primary has (expression has (suc (suc (suc n)))) (sum_term f ++ rest)
        ≡ some (int (if has f then 1 else 0), rest)
  unfolding primary token skip_spaces after_prefix expression
  term_lem n f rest h =
      ap (λ r. close (after_primary has (expression has (suc (suc n))) (suc (suc n)) r))
        (has_lem (expression has (suc (suc n))) f (codes "?1:0)") rest h)
      ∙ branches n (has f) rest

  -- An operator in a chain, and the end of one.
  chain_step :
      (next : Text → Reading) (op : Text) (g : CelValue → CelValue → Option CelValue) (fuel : ℕ)
      (v : CelValue) (t u : Text)
      → token op t ≡ some u
      → chain next op g (suc fuel) (some (v, t)) ≡ chain next op g fuel (combine g v (next u))
  unfolding chain
  chain_step next op g fuel v t u e = rw (e, chain) refl

  chain_end :
      (next : Text → Reading) (op : Text) (g : CelValue → CelValue → Option CelValue) (fuel : ℕ)
      (v : CelValue) (t : Text)
      → token op t ≡ none
      → chain next op g (suc fuel) (some (v, t)) ≡ some (v, t)
  unfolding chain
  chain_end next op g fuel v t e = rw (e, chain) refl

  -- The terms after the first.
  sum_lem :
      (n fuel k : ℕ) (fields : List Text) (rest : Text)
      → All IsIdentifier fields
      → length fields < fuel
      → token (codes "+") rest ≡ none
      → chain
          (primary has (expression has (suc (suc (suc n)))))
          (codes "+")
          add_values
          fuel
          (some (int k, more_sum_terms fields ++ rest))
        ≡ some (int (k + count has fields), rest)
  unfolding more_sum_terms token skip_spaces after_prefix
  sum_lem n zero k fields rest h le e = absurd (omega arith)
  sum_lem n (suc fuel) k [] rest h le e =
      chain_end _ (codes "+") add_values fuel (int k) rest e
      ∙ ap (λ m. some (int m, rest)) (omega arith)
  sum_lem n (suc fuel) k (f ∷ fields) rest h le e =
      let next = primary has (expression has (suc (suc (suc n)))) in
      let x : ℕ = if has f then 1 else 0 in
      chain_step next (codes "+") add_values fuel (int k) _
        ((sum_term f ++ more_sum_terms fields) ++ rest) refl
      ∙ ap (λ r. chain next (codes "+") add_values fuel (combine add_values (int k) r))
          (ap next (append_assoc (sum_term f) (more_sum_terms fields) rest)
            ∙ term_lem n f (more_sum_terms fields ++ rest) h.0)
      ∙ sum_lem n fuel (k + x) fields rest h.1 (omega arith) e
      ∙ ap (λ m. some (int m, rest)) (omega arith)

  length-more_sum_terms : (fields : List Text) → length fields ≤ length (more_sum_terms fields)
  unfolding more_sum_terms
  length-more_sum_terms [] = omega arith
  length-more_sum_terms (f ∷ fields) =
      omega
        (arith, length-more_sum_terms fields, length-append (sum_term f) (more_sum_terms fields))

  -- The sum in an expression that goes on with `rest`.
  sum_read :
      (n : ℕ) (f : Text) (fields : List Text) (rest : Text)
      → IsIdentifier f
      → All IsIdentifier fields
      → length fields < suc (suc (suc n))
      → token (codes "+") rest ≡ none
      → expression has (suc (suc (suc (suc n)))) ((sum_term f ++ more_sum_terms fields) ++ rest)
        ≡ conditional_after has (expression has (suc (suc (suc n)))) (suc (suc (suc n))) (
            or_after has (expression has (suc (suc (suc n)))) (suc (suc (suc n))) (
              relation_after has
                (expression has (suc (suc (suc n))))
                (suc (suc (suc n)))
                (some (int (count has (f ∷ fields)), rest))))
  unfolding expression after_primary sum_after
  sum_read n f fields rest h hs le e =
      let inner = expression has (suc (suc (suc n))) in
      let fuel : ℕ = suc (suc (suc n)) in
      ap (after_primary has inner fuel) (
        ap (primary has inner) (append_assoc (sum_term f) (more_sum_terms fields) rest)
        ∙ term_lem n f (more_sum_terms fields ++ rest) h)
      ∙ ap
          (λ r.
            conditional_after has inner fuel
              (or_after has inner fuel (relation_after has inner fuel r)))
          (sum_lem n fuel (if has f then 1 else 0) fields rest hs le e)

  enough :
      (f : Text) (fields : List Text) (rest : Text)
      → length fields < suc (suc (suc (length ((sum_term f ++ more_sum_terms fields) ++ rest))))
  enough f fields rest = omega (
    arith,
    length-more_sum_terms fields,
    length-append (sum_term f ++ more_sum_terms fields) rest,
    length-append (sum_term f) (more_sum_terms fields),
  )

  at_most_lem :
      (f : Text) (fields : List Text)
      → All IsIdentifier (f ∷ fields)
      → value_of has (at_most_rule (f ∷ fields)) ≡ some (truth (leb (count has (f ∷ fields)) 1))
  unfolding value_of fields_to_one_of_sum_expr relation_after or_after chain conditional_after token
      skip_spaces after_prefix sum primary sum_after
  at_most_lem f fields h = ap whole (
      sum_read (length (at_most_rule (f ∷ fields))) f fields (codes " <= 1") h.0 h.1
        (enough f fields (codes " <= 1")) refl)

  exactly_lem :
      (f : Text) (fields : List Text)
      → All IsIdentifier (f ∷ fields)
      → value_of has (exactly_rule (f ∷ fields)) ≡ some (truth (count has (f ∷ fields) == 1))
  unfolding value_of fields_to_one_of_sum_expr relation_after or_after chain conditional_after token
      skip_spaces after_prefix sum primary sum_after
  exactly_lem f fields h = ap whole (
      sum_read (length (exactly_rule (f ∷ fields))) f fields (codes " == 1") h.0 h.1
        (enough f fields (codes " == 1")) refl)

  -- A term of a disjunction, before another or the end.
  alone :
      (inner : Text → Reading) (n : ℕ) (b : Bool) (fields : List Text)
      → relation_after has inner
          (suc n)
          (sum_after has inner (suc n) (some (truth b, more_or_terms fields)))
        ≡ some (truth b, more_or_terms fields)
  unfolding relation_after sum_after chain more_or_terms token skip_spaces after_prefix
  alone inner n b [] = refl
  alone inner n b (f ∷ fields) = refl

  or_term_lem :
      (inner : Text → Reading) (n : ℕ) (f : Text) (fields : List Text)
      → IsIdentifier f
      → relation_after has inner (suc n) (sum has inner (suc n) (or_term f ++ more_or_terms fields))
        ≡ some (truth (has f), more_or_terms fields)
  unfolding sum
  or_term_lem inner n f fields h =
      ap (λ r. relation_after has inner (suc n) (sum_after has inner (suc n) r))
        (has_lem inner f [] (more_or_terms fields) h)
      ∙ alone inner n (has f) fields

  or_lem :
      (inner : Text → Reading) (n fuel : ℕ) (a : Bool) (fields : List Text)
      → All IsIdentifier fields
      → length fields < fuel
      → chain
          (λ t. relation_after has inner (suc n) (sum has inner (suc n) t))
          (codes "||")
          or_values
          fuel
          (some (truth a, more_or_terms fields))
        ≡ some (truth (a || any has fields), [])
  unfolding more_or_terms token skip_spaces after_prefix
  or_lem inner n zero a fields h le = absurd (omega arith)
  or_lem inner n (suc fuel) a [] h le =
      chain_end _ (codes "||") or_values fuel (truth a) [] refl
      ∙ ap (λ b. some (truth b, [])) (or_nothing a)
    where
      or_nothing : (b : Bool) → b ≡ (b || false)
      or_nothing b = ground arith
  or_lem inner n (suc fuel) a (f ∷ fields) h le =
      let next : Text → Reading = λ t. relation_after has inner (suc n) (sum has inner (suc n) t) in
      chain_step next (codes "||") or_values fuel (truth a) _ (or_term f ++ more_or_terms fields)
        refl
      ∙ ap (λ r. chain next (codes "||") or_values fuel (combine or_values (truth a) r))
          (or_term_lem inner n f fields h.0)
      ∙ or_lem inner n fuel (a || has f) fields h.1 (omega arith)
      ∙ ap (λ b. some (truth b, [])) (or_assoc a (has f) (any has fields))
    where
      or_assoc : (x y z : Bool) → ((x || y) || z) ≡ (x || (y || z))
      or_assoc x y z = ground arith

  length-more_or_terms : (fields : List Text) → length fields ≤ length (more_or_terms fields)
  unfolding more_or_terms
  length-more_or_terms [] = omega arith
  length-more_or_terms (f ∷ fields) =
      omega (arith, length-more_or_terms fields, length-append (or_term f) (more_or_terms fields))

  at_least_lem :
      (f : Text) (fields : List Text)
      → All IsIdentifier (f ∷ fields)
      → value_of has (fields_to_one_of_or_expr (f ∷ fields)) ≡ some (truth (any has (f ∷ fields)))
  unfolding value_of fields_to_one_of_or_expr expression after_primary conditional_after or_after
      token skip_spaces after_prefix
  at_least_lem f fields h =
      let n = length (or_term f ++ more_or_terms fields) in
      let inner = expression has (suc (suc (suc n))) in
      let fuel : ℕ = suc (suc (suc n)) in
      ap
        (λ r. whole (
          conditional_after has inner fuel
            (or_after has inner fuel (relation_after has inner fuel (sum_after has inner fuel r)))))
        (has_lem inner f [] (more_or_terms fields) h.0)
      ∙ ap (λ r. whole (conditional_after has inner fuel (or_after has inner fuel r)))
          (alone inner (suc (suc n)) (has f) fields)
      ∙ ap (λ r. whole (conditional_after has inner fuel r))
          (or_lem inner (suc (suc n)) fuel (has f) fields h.1 (
            omega (
              arith,
              length-more_or_terms fields,
              length-append (or_term f) (more_or_terms fields),
            )))

  -- For fields whose names are identifiers of CEL, the rule of `AtMostOneOf` is true exactly if at most
  -- one of them is set, that of `ExactlyOneOf` if exactly one is, and that of `AtLeastOneOf` if one is.
  pub value_of-rules :
      (f : Text) (fields : List Text)
      → All IsIdentifier (f ∷ fields)
      → (value_of has (at_most_rule (f ∷ fields)) ≡ some (truth (leb (count has (f ∷ fields)) 1)))
        × (value_of has (exactly_rule (f ∷ fields)) ≡ some (truth (count has (f ∷ fields) == 1)))
        × (value_of has (fields_to_one_of_or_expr (f ∷ fields))
            ≡ some (truth (any has (f ∷ fields))))
  value_of-rules f fields h =
      (at_most_lem f fields h, exactly_lem f fields h, at_least_lem f fields h)
