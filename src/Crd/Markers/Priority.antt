-- ===== src/Crd/Markers/Priority.antt =====
-- The interfaces `SchemaMarker` and `ApplyPriorityMarker`, and `applyMarkers` of pkg/crd/schema.go. The
-- entries of the map of markers come in the order of the loop over it; a value that is no schema
-- marker is `none`.
use controller_tools.Prelude.{
  ℕ, Bool, true, Option, none, some, List, [], ◌∷◌, ◌++◌, ◌+◌, ◌-◌, not, if◌then◌else◌, ltb,
}
use controller_tools.Prelude.Result.{ok, err}
use controller_tools.Prelude.Sort.{sort_by}
use controller_tools.Text.{Text, codes, eq_text}
use controller_tools.Text.Split.{after_prefix}
use controller_tools.Crd.Schema.{Field, Scalar, Schema, schema, no_items, items_of}
use controller_tools.Crd.Markers.{
  Outside, TypeContext, Marker, MarkerError, with_field, flag_field, text_field,
}
use controller_tools.Crd.Markers.Marker.{
  maximum, minimum, multiple_of, exclusive_maximum, exclusive_minimum, unique_items, max_length,
  min_length, max_items, min_items, max_properties, min_properties, pattern, format, type_marker,
  enum, nullable, x_preserve_unknown_fields, x_embedded_resource, x_int_or_string, immutable,
  default, example, kubernetes_default, title, x_validation, at_most_one_of, exactly_one_of,
  at_least_one_of, list_type, list_map_key, map_type, struct_type, external_docs, k8s_enum_field,
  k8s_enum,
}
use controller_tools.Crd.Markers.Apply
use controller_tools.Crd.Markers.Apply.{Applied}
use controller_tools.Crd.Markers.Topology
use controller_tools.Crd.Markers.Enum.{apply_k8s_enum}

-- The dynamic call of `ApplyToSchema`. The methods of one line stand here.
module _ {Any : Type 0} (out : Outside Any) (ctx : Option TypeContext) where
  unfoldable pub apply_to_schema : Marker Any → Schema → Applied
  apply_to_schema (maximum n) s = Apply.apply_number out Field.maximum n s
  apply_to_schema (minimum n) s = Apply.apply_number out Field.minimum n s
  apply_to_schema (multiple_of n) s = Apply.apply_number out Field.multiple_of n s
  apply_to_schema (exclusive_maximum b) s = Apply.apply_exclusive Field.exclusive_maximum b s
  apply_to_schema (exclusive_minimum b) s = Apply.apply_exclusive Field.exclusive_minimum b s
  apply_to_schema (unique_items b) s = Apply.apply_items Field.unique_items (flag_field b) s
  apply_to_schema (max_length n) s = Apply.apply_length Field.max_length n s
  apply_to_schema (min_length n) s = Apply.apply_length Field.min_length n s
  apply_to_schema (max_items n) s = Apply.apply_items Field.max_items (some (Scalar.number n)) s
  apply_to_schema (min_items n) s = Apply.apply_items Field.min_items (some (Scalar.number n)) s
  apply_to_schema (max_properties n) s = Apply.apply_max_properties n s
  apply_to_schema (min_properties n) s = Apply.apply_min_properties n s
  apply_to_schema (pattern t) s = Apply.apply_pattern t s
  apply_to_schema (format t) s = ok (with_field Field.format (text_field t) s)
  apply_to_schema (type_marker t) s = Apply.apply_type t s
  apply_to_schema (enum values) s = Apply.apply_enum out values s
  apply_to_schema nullable s = ok (with_field Field.nullable (flag_field true) s)
  apply_to_schema x_preserve_unknown_fields s = Apply.apply_x_preserve_unknown_fields s
  apply_to_schema x_embedded_resource s =
      ok (with_field Field.x_embedded_resource (flag_field true) s)
  apply_to_schema x_int_or_string s = ok (with_field Field.x_int_or_string (flag_field true) s)
  apply_to_schema immutable s = Apply.apply_immutable s
  apply_to_schema (default value) s = Apply.apply_default out value s
  apply_to_schema (example value) s = Apply.apply_example out value s
  apply_to_schema (kubernetes_default value) s = Apply.apply_kubernetes_default out value s
  apply_to_schema (title value) s = Apply.apply_title out value s
  apply_to_schema (x_validation x) s = Apply.apply_x_validation x s
  apply_to_schema (at_most_one_of fields) s = Apply.apply_at_most_one_of fields s
  apply_to_schema (exactly_one_of fields) s = Apply.apply_exactly_one_of fields s
  apply_to_schema (at_least_one_of fields) s = Apply.apply_at_least_one_of fields s
  apply_to_schema (list_type kind) s = Topology.apply_list_type kind s
  apply_to_schema (list_map_key key) s = Topology.apply_list_map_key key s
  apply_to_schema (map_type kind) s = Topology.apply_map_type kind s
  apply_to_schema (struct_type kind) s = Topology.apply_struct_type kind s
  apply_to_schema (external_docs url about) s = Apply.apply_external_docs out url about s
  apply_to_schema k8s_enum_field s = err MarkerError.enum_on_field
  apply_to_schema k8s_enum s = apply_k8s_enum out ctx s

-- `ApplyPriority`, which is `ApplyPriorityDefault` for markers without the method.
abbrev pub apply_priority_default : ℕ
apply_priority_default = 10

unfoldable pub apply_priority : {Any : Type 0} → Marker Any → ℕ
apply_priority (type_marker t) = apply_priority_default - 1
apply_priority x_int_or_string = apply_priority_default - 1
apply_priority (list_type kind) = apply_priority_default - 1
apply_priority (kubernetes_default value) = 9
apply_priority (default value) = 10
apply_priority (at_most_one_of fields) = apply_priority_default + 1
apply_priority (exactly_one_of fields) = apply_priority_default + 1 + 1
apply_priority (at_least_one_of fields) = apply_priority_default + 1 + 1 + 1
apply_priority _ = apply_priority_default

-- `schemaMarkerWithName`
pub record NamedMarker (Any : Type 0) : Type 0 where
  pub schema_marker : Marker Any
  pub name : Text

abbrev pub validation_items_prefix : Text
validation_items_prefix = codes "kubebuilder:validation:items:"

unfoldable pub goes_first : {Any : Type 0} → NamedMarker Any → NamedMarker Any → Bool
unfolding apply_priority
goes_first i j = ltb (apply_priority i.schema_marker) (apply_priority j.schema_marker)

-- The loops that tell the markers of the items from the others: the others, and those of the items.
unfoldable pub named_values :
    {Any : Type 0} → Text → List (Option (Marker Any)) → List (NamedMarker Any)
named_values name [] = []
named_values name (none ∷ values) = named_values name values
named_values name (some m ∷ values) =
    record { schema_marker = m; name = name } ∷ named_values name values

unfoldable pub split_markers :
    {Any : Type 0}
    → List (Text × List (Option (Marker Any)))
    → List (NamedMarker Any) × List (NamedMarker Any)
unfolding named_values after_prefix
split_markers [] = ([], [])
split_markers ((name, values) ∷ entries) =
    let (markers, items_markers) = split_markers entries in
    elim (after_prefix validation_items_prefix name) [
      | none ↦ (named_values name values ++ markers, items_markers)
      | some rest ↦ (markers, named_values name values ++ items_markers)
    ]

module _ {Any : Type 0} (out : Outside Any) (ctx : Option TypeContext) where
  -- A marker that fails leaves the schema, and its error is recorded.
  unfoldable pub apply_each : List (NamedMarker Any) → Schema → Schema × List MarkerError
  unfolding apply_to_schema
  apply_each [] s = (s, [])
  apply_each (m ∷ markers) s = (elim (apply_to_schema out ctx m.schema_marker s) [
    | err e ↦ (let (t, es) = apply_each markers s in (t, e ∷ es))
    | ok t ↦ apply_each markers t
  ])

  unfoldable pub apply_item_marker : NamedMarker Any → Schema → Schema × List MarkerError
  unfolding apply_to_schema eq_text
  apply_item_marker m (schema docs p sp all_of props no_items add) = (
    schema docs p sp all_of props no_items add,
    MarkerError.not_array_value m.name sp.type_name ∷ [],
  )
  apply_item_marker m (schema docs p sp all_of props (items_of item) add) =
      let s = schema docs p sp all_of props (items_of item) add in
      if not (eq_text sp.type_name (codes "array"))
      then (s, MarkerError.not_array_value m.name sp.type_name ∷ [])
      else (elim (apply_to_schema out ctx m.schema_marker item) [
        | err e ↦ (s, e ∷ [])
        | ok t ↦ (schema docs p sp all_of props (items_of t) add, [])
      ])

  unfoldable pub apply_item_markers : List (NamedMarker Any) → Schema → Schema × List MarkerError
  unfolding apply_item_marker
  apply_item_markers [] s = (s, [])
  apply_item_markers (m ∷ markers) s =
      let (t, es) = apply_item_marker m s in
      let (u, fs) = apply_item_markers markers t in (u, es ++ fs)

  unfoldable pub apply_markers :
      List (Text × List (Option (Marker Any))) → Schema → Schema × List MarkerError
  unfolding apply_each apply_item_markers split_markers sort_by goes_first
  apply_markers entries props =
      let (markers, items_markers) = split_markers entries in
      let (s, es) = apply_each (sort_by goes_first markers) props in
      let (t, fs) = apply_item_markers (sort_by goes_first items_markers) s in (t, es ++ fs)
