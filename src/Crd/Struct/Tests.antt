-- ===== src/Crd/Struct/Tests.antt =====
-- Runs of the schemas of structs on small inputs.
use controller_tools.Prelude.{◌≡◌, refl, true, false, Option, none, some, List, [], ◌∷◌, ◌==◌, inl}
use controller_tools.Prelude.Result.{ok}
use controller_tools.Text.{Text, codes, mem}
use controller_tools.Crd.Markers.{Outside, Marker, special_of}
use controller_tools.Crd.Types.{Basic, GoType}
use controller_tools.Crd.Struct.{
  required_in_one_of, FieldInfo, StructInfo, StructOptions, struct_to_schema,
}
use controller_tools.Crd.Struct.Required.{struct_to_schema-required}

abbrev packages : Outside Text
packages = record {
  trunc = λ n. n;
  eq_float = λ m n. m == n;
  is_nan = λ n. false;
  is_inf = λ n. false;
  marshal = λ t. ok t;
  marshal_text = λ t. ok t;
  unquote = λ t. ok t;
  parse_request_uri = λ t. ok t;
  as_string = λ t. some t;
}

abbrev options : StructOptions
options = record {
  optional_by_default = false;
  ignore_unexported_fields = false;
  allow_dangerous_types = false;
}

-- A marker without arguments that is no schema marker.
abbrev mark : Text → Text × List (Option (Marker Text))
mark name = (name, none ∷ [])

abbrev text_member : Text → Text → List (Text × List (Option (Marker Text))) → FieldInfo Text
text_member name tag markers = record {
  name = name;
  is_exported = true;
  json_tag = some tag;
  markers = markers;
  doc = [];
  go_type = GoType.builtin Basic.string;
}

abbrev protocol : List (FieldInfo Text) → StructInfo Text
protocol fields = record {
  fields = fields;
  exactly_one_of = some (codes "http" ∷ codes "grpc" ∷ []) ∷ [];
  at_most_one_of = [];
  at_least_one_of = [];
}

abbrev omitted : StructInfo Text
omitted = protocol (
    text_member (codes "Name") (codes "name") []
    ∷ text_member (codes "HTTP") (codes "http,omitempty") []
    ∷ text_member (codes "GRPC") (codes "grpc,omitempty") []
    ∷ [])

struct_to_schema-required_example :
    mem (codes "grpc") (special_of (struct_to_schema packages none options omitted).0).required
    ≡ false
unfolding mem
struct_to_schema-required_example =
    struct_to_schema-required packages none options omitted (codes "grpc") (inl (inl refl))

only_the_name :
    (special_of (struct_to_schema packages none options omitted).0).required ≡ (codes "name" ∷ [])
unfolding struct_to_schema
only_the_name = refl

required_member :
    (struct_to_schema packages none options
      (protocol (text_member (codes "HTTP") (codes "http") (mark (codes "required") ∷ []) ∷ []))).1
    ≡ (required_in_one_of (codes "http") ∷ [])
unfolding struct_to_schema
required_member = refl

-- An embedded struct that is marked as required makes a field without a name required.
required_inline :
    (special_of
      (struct_to_schema packages none options (
        protocol
          (text_member [] (codes ",inline") (mark (codes "required") ∷ []) ∷ []))).0).required
    ≡ ([] ∷ [])
unfolding struct_to_schema
required_inline = refl
