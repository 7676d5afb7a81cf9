-- ===== src/Crd/Markers.antt =====
-- The markers that change a schema: the types of pkg/crd/markers/validation.go and topology.go and of
-- `ExternalDocs` in crd.go, and what their methods share. Floating-point numbers are their bits, so
-- are integers where nothing is computed with them.
pub mod OneOf
pub mod Cel
pub mod Rules
pub mod Apply
pub mod Topology
pub mod Enum
pub mod Priority
pub mod Keeps
pub mod Order
mod Tests
use controller_tools.Prelude.{
  ℕ, Bool, true, false, not, ◌&&◌, ◌||◌, Option, none, some, List, [], ◌∷◌, if◌then◌else◌, is_empty,
}
use controller_tools.Prelude.Result.{Result}
use controller_tools.Text.{Text, codes, eq_text}
use controller_tools.Crd.Schema.{
  Field, eq_field, Scalar, Plain, set_field, Docs, Special, Schema, schema,
}

-- What the methods use of other packages: `math`, `encoding/json`, `strconv`, `net/url` and a type
-- assertion. `Any` is Go's `any`.
pub record Outside (Any : Type 0) : Type 0 where
  pub trunc : ℕ → ℕ
  pub eq_float : ℕ → ℕ → Bool
  pub is_nan : ℕ → Bool
  pub is_inf : ℕ → Bool
  pub marshal : Any → Result Text Text
  pub marshal_text : Text → Result Text Text
  pub unquote : Text → Result Text Text
  pub parse_request_uri : Text → Result Text Text
  pub as_string : Any → Option Text

-- `XValidation`; an absent string is empty.
pub record XValidation : Type 0 where
  pub rule : Text
  pub message : Text
  pub message_expression : Text
  pub reason : Text
  pub field_path : Text
  pub optional_old_self : Option Bool

-- The expressions of a Go file's constants that `K8sEnum` tells apart: a literal of a string as it is
-- written, and any other.
pub data ConstValue : Type 0 where
  string_literal : Text → ConstValue
  other_value : ConstValue

-- `ast.ValueSpec`: for each name whether it has the type, and the values, of which there may be fewer.
pub record ConstSpec : Type 0 where
  pub names : List Bool
  pub values : List ConstValue

-- `SchemaContext`: the type's name, whether it is known and is a string, and the constants of the
-- package in the order of its files.
pub record TypeContext : Type 0 where
  pub name : Text
  pub is_string : Option Bool
  pub constants : List ConstSpec

pub data Marker (Any : Type 0) : Type 0 where
  maximum minimum multiple_of : ℕ → Marker Any
  exclusive_maximum exclusive_minimum unique_items : Bool → Marker Any
  max_length min_length max_items min_items max_properties min_properties : ℕ → Marker Any
  pattern format type_marker : Text → Marker Any
  enum : List Any → Marker Any
  nullable x_preserve_unknown_fields x_embedded_resource x_int_or_string immutable : Marker Any
  default example : Any → Marker Any
  kubernetes_default title : Option Any → Marker Any
  x_validation : XValidation → Marker Any
  at_most_one_of exactly_one_of at_least_one_of : List Text → Marker Any
  list_type list_map_key map_type struct_type : Text → Marker Any
  external_docs : (url about : Text) → Marker Any
  k8s_enum_field k8s_enum : Marker Any

-- The errors, with what they print.
pub data MarkerError : Type 0 where
  not_numeric not_textual : (type : Text) → MarkerError
  not_integral : ℕ → MarkerError
  not_array not_object not_associative : MarkerError
  not_marshalled not_unquoted : Text → MarkerError
  title_not_string : MarkerError
  invalid_reason invalid_url : Text → MarkerError
  invalid_list_type invalid_map_type invalid_struct_type : Text → MarkerError
  enum_on_field enum_without_context : MarkerError
  enum_unknown_type enum_not_string enum_without_values : Text → MarkerError
  not_array_value : (name type : Text) → MarkerError
  index_out_of_range : MarkerError

abbrev pub docs_of : Schema → Docs
docs_of (schema docs p s all_of props items add) = docs

abbrev pub plain_of : Schema → Plain
plain_of (schema docs p s all_of props items add) = p

abbrev pub special_of : Schema → Special
special_of (schema docs p s all_of props items add) = s

abbrev pub type_of : Schema → Text
type_of s = (special_of s).type_name

abbrev pub with_docs : Docs → Schema → Schema
with_docs docs (schema old p s all_of props items add) = schema docs p s all_of props items add

-- `schema.F = x`, for a plain field and for the others.
abbrev pub with_field : Field → Option Scalar → Schema → Schema
with_field f x (schema docs p s all_of props items add) =
    schema docs (set_field f x p) s all_of props items add

abbrev pub with_special : Special → Schema → Schema
with_special s (schema docs p old all_of props items add) = schema docs p s all_of props items add

-- Zero values of Boolean and string fields.
abbrev pub flag_field : Bool → Option Scalar
flag_field b = if b then some Scalar.flag else none

abbrev pub text_field : Text → Option Scalar
text_field t = if is_empty t then none else some (Scalar.text t)

abbrev pub is_set : Option Scalar → Bool
is_set none = false
is_set (some x) = true

unfoldable pub has_numeric_type : Schema → Bool
unfolding eq_text
has_numeric_type s = eq_text (type_of s) (codes "integer") || eq_text (type_of s) (codes "number")

unfoldable pub has_textual_type : Schema → Bool
unfolding eq_text
has_textual_type s =
    eq_text (type_of s) (codes "string") || is_set (plain_of s Field.x_int_or_string)

unfoldable pub is_integral : {Any : Type 0} → Outside Any → ℕ → Bool
is_integral out value =
    out.eq_float value (out.trunc value) && not (out.is_nan value) && not (out.is_inf value)
