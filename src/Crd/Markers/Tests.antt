-- ===== src/Crd/Markers/Tests.antt =====
-- Runs of the schema markers on small inputs.
use controller_tools.Prelude.{
  arith, ◌≡◌, refl, Bool, true, false, Option, none, some, List, [], ◌∷◌, ◌==◌, leb, any,
}
use controller_tools.Prelude.Result.{ok, err}
use controller_tools.Prelude.Sort.{sort_by}
use controller_tools.Text.{Text, codes, eq_text}
use controller_tools.Crd.Schema.{Field, empty_schema}
use controller_tools.Crd.Markers.{
  Outside, string_literal, TypeContext, Marker, MarkerError, type_of, plain_of,
}
use controller_tools.Crd.Markers.OneOf.{
  fields_to_one_of_sum_expr, fields_to_one_of_or_expr, at_most_rule, exactly_rule,
}
use controller_tools.Crd.Markers.Cel.{truth, is_identifier, value_of}
use controller_tools.Crd.Markers.Rules.{count, value_of-rules}
use controller_tools.Crd.Markers.Apply
use controller_tools.Crd.Markers.Topology
use controller_tools.Crd.Markers.Enum.{apply_k8s_enum}
use controller_tools.Crd.Markers.Priority.{
  apply_priority, NamedMarker, goes_first, apply_to_schema, apply_each, apply_markers,
}
use controller_tools.Crd.Markers.Order.{apply_each-sort_by}

abbrev here : Text → Bool
unfolding eq_text
here f = eq_text f (codes "http")

value_of-rules_example :
    (value_of here (at_most_rule (codes "http" ∷ codes "grpc" ∷ []))
      ≡ some (truth (leb (count here (codes "http" ∷ codes "grpc" ∷ [])) 1)))
    × (value_of here (exactly_rule (codes "http" ∷ codes "grpc" ∷ []))
        ≡ some (truth (count here (codes "http" ∷ codes "grpc" ∷ []) == 1)))
    × (value_of here (fields_to_one_of_or_expr (codes "http" ∷ codes "grpc" ∷ []))
        ≡ some (truth (any here (codes "http" ∷ codes "grpc" ∷ []))))
unfolding is_identifier
value_of-rules_example =
    value_of-rules here (codes "http") (codes "grpc" ∷ [])
      (((refl, (refl, (refl, (refl, tt)))), refl), (((refl, (refl, (refl, (refl, tt)))), refl), tt))

-- A name that CEL reserves is not escaped, and makes a rule that is no expression.
reserved_name : value_of here (at_most_rule (codes "package" ∷ [])) ≡ none
unfolding value_of fields_to_one_of_sum_expr
reserved_name = refl

sum_expr :
    fields_to_one_of_sum_expr (codes "http" ∷ codes "grpc" ∷ [])
    ≡ codes "(has(self.http)?1:0)+(has(self.grpc)?1:0)"
unfolding fields_to_one_of_sum_expr
sum_expr = refl

-- Numbers are whole; a string is its own literal and its own JSON.
abbrev packages : Outside Text
packages = record {
  trunc = λ n. n;
  eq_float = λ m n. m == n;
  is_nan = λ n. false;
  is_inf = λ n. false;
  marshal = λ t. ok t;
  marshal_text = λ t. ok t;
  unquote = λ t. ok t;
  parse_request_uri = λ t. ok t;
  as_string = λ t. some t;
}

abbrev named : Marker Text → NamedMarker Text
named m = record { schema_marker = m; name = codes "marker" }

abbrev bound : NamedMarker Text
bound = named (Marker.maximum 5)

abbrev integer_type : NamedMarker Text
integer_type = named (Marker.type_marker (codes "integer"))

apply_each-sort_by_example :
    (type_of
        (apply_each packages none (sort_by goes_first (bound ∷ integer_type ∷ [])) empty_schema).0
      ≡ type_of (apply_each packages none (integer_type ∷ []) empty_schema).0)
    × (plain_of
          (apply_each packages none (sort_by goes_first (bound ∷ integer_type ∷ [])) empty_schema).0
          Field.x_int_or_string
        ≡ plain_of
            (apply_each packages none (integer_type ∷ []) empty_schema).0
            Field.x_int_or_string)
unfolding sort_by goes_first apply_priority
apply_each-sort_by_example =
    apply_each-sort_by packages none (integer_type ∷ []) [] (bound ∷ integer_type ∷ []) bound
      empty_schema refl (omega arith) refl

bound_is_applied :
    (apply_markers packages none
      ((codes "kubebuilder:validation:Maximum", some (Marker.maximum 5) ∷ [])
        ∷ (codes "kubebuilder:validation:Type", some (Marker.type_marker (codes "integer")) ∷ [])
        ∷ [])
      empty_schema).1
    ≡ []
unfolding apply_markers Apply.apply_type Apply.apply_number
bound_is_applied = refl

-- `listType` has the priority of `Type`, so that the order of the map decides whether it fails.
abbrev list_entry : Text × List (Option (Marker Text))
list_entry = (codes "listType", some (Marker.list_type (codes "set")) ∷ [])

abbrev type_entry : Text × List (Option (Marker Text))
type_entry = (codes "kubebuilder:validation:Type", some (Marker.type_marker (codes "array")) ∷ [])

list_type_after_type :
    (apply_markers packages none (type_entry ∷ list_entry ∷ []) empty_schema).1 ≡ []
unfolding apply_markers Apply.apply_type Topology.apply_list_type
list_type_after_type = refl

list_type_before_type :
    (apply_markers packages none (list_entry ∷ type_entry ∷ []) empty_schema).1
    ≡ (MarkerError.not_array ∷ [])
unfolding apply_markers Apply.apply_type Topology.apply_list_type
list_type_before_type = refl

-- A constant without a value of its own, as in `const ( A Kind = "a"; B )`.
abbrev repeated : TypeContext
repeated = record {
  name = codes "Kind";
  is_string = some true;
  constants =
      record { names = true ∷ []; values = string_literal (codes "a") ∷ [] }
      ∷ record { names = true ∷ []; values = [] }
      ∷ [];
}

repeated_constant :
    apply_to_schema packages (some repeated) Marker.k8s_enum empty_schema
    ≡ err MarkerError.index_out_of_range
unfolding apply_to_schema apply_k8s_enum
repeated_constant = refl
