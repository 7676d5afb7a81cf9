-- ===== src/Crd/Markers/Apply.antt =====
-- The methods `ApplyToSchema` of pkg/crd/markers/validation.go, but for that of `K8sEnum`, and of
-- `ExternalDocs` in crd.go.
use controller_tools.Prelude.{
  ℕ, Bool, true, not, ◌&&◌, Option, none, some, List, [], ◌∷◌, ◌++◌, if◌then◌else◌, is_empty,
}
use controller_tools.Prelude.Result.{Result, ok, err, ◌>>=◌}
use controller_tools.Text.{Text, codes, eq_text, mem, join}
use controller_tools.Crd.Schema.{Field, Scalar, ValidationRule, Schema}
use controller_tools.Crd.Markers.{
  Outside, XValidation, MarkerError, docs_of, special_of, type_of, with_docs, with_field,
  with_special, flag_field, text_field, has_numeric_type, has_textual_type, is_integral,
}
use controller_tools.Crd.Markers.OneOf.{
  fields_to_one_of_sum_expr, fields_to_one_of_or_expr, at_most_rule, exactly_rule,
}

abbrev pub Applied : Type 0
Applied = Result MarkerError Schema

unfoldable pub is_array : Schema → Bool
unfolding eq_text
is_array s = eq_text (type_of s) (codes "array")

unfoldable pub is_object : Schema → Bool
unfolding eq_text
is_object s = eq_text (type_of s) (codes "object")

-- `ExclusiveMaximum` and `ExclusiveMinimum`
unfoldable pub apply_exclusive : Field → Bool → Schema → Applied
unfolding has_numeric_type
apply_exclusive f value s =
    if not (has_numeric_type s)
    then err (MarkerError.not_numeric (type_of s))
    else ok (with_field f (flag_field value) s)

-- `MaxLength` and `MinLength`
unfoldable pub apply_length : Field → ℕ → Schema → Applied
unfolding has_textual_type
apply_length f value s =
    if not (has_textual_type s)
    then err (MarkerError.not_textual (type_of s))
    else ok (with_field f (some (Scalar.number value)) s)

unfoldable pub apply_pattern : Text → Schema → Applied
unfolding has_textual_type
apply_pattern value s =
    if not (has_textual_type s)
    then err (MarkerError.not_textual (type_of s))
    else ok (with_field Field.pattern (text_field value) s)

-- `MaxItems`, `MinItems` and `UniqueItems`
unfoldable pub apply_items : Field → Option Scalar → Schema → Applied
unfolding is_array
apply_items f value s = if is_array s then ok (with_field f value s) else err MarkerError.not_array

unfoldable pub apply_min_properties : ℕ → Schema → Applied
unfolding is_object
apply_min_properties value s =
    if is_object s
    then ok (with_special (record (special_of s) { min_properties = some value }) s)
    else err MarkerError.not_object

unfoldable pub apply_max_properties : ℕ → Schema → Applied
unfolding is_object
apply_max_properties value s =
    if is_object s
    then ok (with_special (record (special_of s) { max_properties = some value }) s)
    else err MarkerError.not_object

module _ {Any : Type 0} (out : Outside Any) where
  -- `Maximum`, `Minimum` and `MultipleOf`, which differ in the field.
  unfoldable pub apply_number : Field → ℕ → Schema → Applied
  unfolding has_numeric_type is_integral eq_text
  apply_number f value s =
      if not (has_numeric_type s)
      then err (MarkerError.not_numeric (type_of s))
      else if eq_text (type_of s) (codes "integer") && not (is_integral out value)
      then err (MarkerError.not_integral value)
      else ok (with_field f (some (Scalar.number value)) s)

  -- The loop of `Enum`.
  unfoldable pub marshal_all : List Any → Result MarkerError (List Text)
  marshal_all [] = ok []
  marshal_all (value ∷ values) = (elim (out.marshal value) [
    | err e ↦ err (MarkerError.not_marshalled e)
    | ok raw ↦ (marshal_all values >>= λ raws. ok (raw ∷ raws))
  ])

  unfoldable pub apply_enum : List Any → Schema → Applied
  unfolding marshal_all
  apply_enum values s = do
    raws ← marshal_all values
    ok (with_special (record (special_of s) { enum = raws }) s)

  unfoldable pub apply_default : Any → Schema → Applied
  unfolding is_array eq_text
  apply_default value s = (elim (out.marshal value) [
    | err e ↦ err (MarkerError.not_marshalled e)
    | ok raw ↦
        let stored = if is_array s && eq_text raw (codes "{}") then codes "[]" else raw in
        ok (with_field Field.default (some (Scalar.text stored)) s)
  ])

  unfoldable pub apply_kubernetes_default : Option Any → Schema → Applied
  apply_kubernetes_default none s = ok s
  apply_kubernetes_default (some value) s = (elim (out.marshal value) [
    | err e ↦ err (MarkerError.not_marshalled e)
    | ok raw ↦ ok (with_field Field.default (some (Scalar.text raw)) s)
  ])

  unfoldable pub apply_title : Option Any → Schema → Applied
  apply_title none s = ok s
  apply_title (some value) s = (elim (out.as_string value) [
    | none ↦ err MarkerError.title_not_string
    | some name ↦ ok (with_docs (record (docs_of s) { title = name }) s)
  ])

  unfoldable pub apply_example : Any → Schema → Applied
  apply_example value s = (elim (out.marshal value) [
    | err e ↦ err (MarkerError.not_marshalled e)
    | ok raw ↦ ok (with_docs (record (docs_of s) { example = some raw }) s)
  ])

  unfoldable pub apply_external_docs : Text → Text → Schema → Applied
  apply_external_docs url about s = (elim (out.parse_request_uri url) [
    | err e ↦ err (MarkerError.invalid_url url)
    | ok parsed ↦ ok (
        with_docs
          (record (docs_of s) { external_docs = some (record { url = url; about = about }) }) s)
  ])

-- `schema.XValidations = append(schema.XValidations, rule)`
abbrev pub append_validation : ValidationRule → Schema → Schema
append_validation r s =
    with_special (record (special_of s) { x_validations = (special_of s).x_validations ++ r ∷ [] })
      s

unfoldable pub apply_immutable : Schema → Applied
apply_immutable s = ok (
    append_validation
      (record {
        rule = codes "self == oldSelf";
        message = codes "field is immutable";
        message_expression = [];
        reason = none;
        field_path = [];
        optional_old_self = none;
      })
      s)

-- The constants of `apiextensionsv1.FieldValueErrorReason` that the code names.
abbrev pub field_value_reasons : List Text
field_value_reasons =
    codes "FieldValueRequired"
    ∷ codes "FieldValueInvalid"
    ∷ codes "FieldValueForbidden"
    ∷ codes "FieldValueDuplicate"
    ∷ []

unfoldable pub apply_x_validation : XValidation → Schema → Applied
unfolding mem
apply_x_validation m s =
    let r : Option Text → ValidationRule = λ why. record {
      rule = m.rule;
      message = m.message;
      message_expression = m.message_expression;
      reason = why;
      field_path = m.field_path;
      optional_old_self = m.optional_old_self;
    } in
    if is_empty m.reason
    then ok (append_validation (r none) s)
    else if mem m.reason field_value_reasons
    then ok (append_validation (r (some m.reason)) s)
    else err (MarkerError.invalid_reason m.reason)

-- `%v` of a slice of strings.
unfoldable pub print_list : List Text → Text
unfolding join
print_list fields = codes "[" ++ (join (codes " ") fields ++ codes "]")

-- The rule and the message of a one-of marker as an `XValidation`, unless it names no fields.
unfoldable pub apply_one_of : Text → Text → List Text → Schema → Applied
unfolding apply_x_validation
apply_one_of expr words fields s =
    if is_empty fields
    then ok s
    else apply_x_validation
        (record {
          rule = expr;
          message = words;
          message_expression = [];
          reason = [];
          field_path = [];
          optional_old_self = none;
        })
        s

unfoldable pub apply_at_most_one_of : List Text → Schema → Applied
unfolding apply_one_of fields_to_one_of_sum_expr print_list
apply_at_most_one_of fields s =
    apply_one_of (at_most_rule fields)
      (codes "at most one of the fields in " ++ (print_list fields ++ codes " may be set")) fields s

unfoldable pub apply_exactly_one_of : List Text → Schema → Applied
unfolding apply_one_of fields_to_one_of_sum_expr print_list
apply_exactly_one_of fields s =
    apply_one_of (exactly_rule fields)
      (codes "exactly one of the fields in " ++ (print_list fields ++ codes " must be set")) fields
      s

unfoldable pub apply_at_least_one_of : List Text → Schema → Applied
unfolding apply_one_of fields_to_one_of_or_expr print_list
apply_at_least_one_of fields s =
    apply_one_of (fields_to_one_of_or_expr fields)
      (codes "at least one of the fields in " ++ (print_list fields ++ codes " must be set")) fields
      s

unfoldable pub apply_type : Text → Schema → Applied
apply_type kind s = ok (with_special (record (special_of s) { type_name = kind }) s)

unfoldable pub apply_x_preserve_unknown_fields : Schema → Applied
apply_x_preserve_unknown_fields s =
    ok (with_special (record (special_of s) { x_preserve_unknown_fields = some true }) s)
