-- ===== src/Crd/Struct.antt =====
-- `structToSchema` of pkg/crd/schema.go for a named struct, and `oneOfValuesToSet`.
pub mod Required
mod Tests
use controller_tools.Prelude.{
  Bool, true, false, not, ◌&&◌, ◌||◌, Option, none, some, List, [], ◌∷◌, ◌++◌, if◌then◌else◌, any,
  is_empty, map,
}
use controller_tools.Prelude.Result.{Result, ok, err, ◌>>=◌}
use controller_tools.Prelude.Sort.{sort_by}
use controller_tools.Text.{Text, codes, eq_text, less_text, mem, join, has_byte}
use controller_tools.Text.Split.{split}
use controller_tools.Crd.Schema.{
  ValidationRule, Docs, no_docs, no_plain, no_special, Special, Schema, schema, Schemas, no_schemas,
  more, append_schemas, Props, no_props, prop, no_items, no_additional, empty_schema,
}
use controller_tools.Crd.Markers.{Outside, TypeContext, Marker, MarkerError, docs_of, with_docs}
use controller_tools.Crd.Markers.Priority.{apply_markers}
use controller_tools.Crd.Types.{TypeError, GoType, type_to_schema}

pub data StructError : Type 0 where
  not_one_of : StructError
  nested_fields : (joined : Text) → StructError
  no_json_tag required_in_one_of must_be_omitted : (field : Text) → StructError
  of_type : TypeError → StructError
  of_marker : MarkerError → StructError

-- `strings.Contains(field, ".")`
unfoldable pub nested : List Text → List Text
nested [] = []
nested (f ∷ fields) = let rest = nested fields in if has_byte 46 f then f ∷ rest else rest

unfoldable pub validate_one_of_values : List Text → Option StructError
unfolding nested join
validate_one_of_values fields =
    let invalid = nested fields in
    if is_empty invalid then none else some (nested_fields (join (codes ",") invalid))

-- The set as the list of what is inserted. A value that is no one-of marker is `none`.
unfoldable pub one_of_values_to_set : List (Option (List Text)) → Result StructError (List Text)
unfolding validate_one_of_values
one_of_values_to_set [] = ok []
one_of_values_to_set (none ∷ groups) = err not_one_of
one_of_values_to_set (some fields ∷ groups) = (elim (validate_one_of_values fields) [
  | some e ↦ err e
  | none ↦ (one_of_values_to_set groups >>= λ rest. ok (fields ++ rest))
])

-- `exactlyOneOf`, `atMostOneOf` and `atLeastOneOf`
pub record OneOfSets : Type 0 where
  pub exactly : List Text
  pub at_most : List Text
  pub at_least : List Text

unfoldable pub in_a_set : OneOfSets → Text → Bool
unfolding mem
in_a_set sets f = mem f sets.exactly || mem f sets.at_most || mem f sets.at_least

-- A field, with its tag `json` and its markers in the order of the loop over their map.
pub record FieldInfo (Any : Type 0) : Type 0 where
  pub name : Text
  pub is_exported : Bool
  pub json_tag : Option Text
  pub markers : List (Text × List (Option (Marker Any)))
  pub doc : Text
  pub go_type : GoType

-- `field.Markers.Get(name) != nil`
unfoldable pub has_marker : {Any : Type 0} → Text → List (Text × List (Option (Marker Any))) → Bool
unfolding eq_text
has_marker name entries = any (λ (k, values). eq_text k name && not (is_empty values)) entries

pub record StructInfo (Any : Type 0) : Type 0 where
  pub fields : List (FieldInfo Any)
  pub exactly_one_of : List (Option (List Text))
  pub at_most_one_of : List (Option (List Text))
  pub at_least_one_of : List (Option (List Text))

-- What the code is told besides: whether the package is optional by default, and two options.
pub record StructOptions : Type 0 where
  pub optional_by_default : Bool
  pub ignore_unexported_fields : Bool
  pub allow_dangerous_types : Bool

-- `props`, the immutable fields, and the errors.
pub record StructState : Type 0 where
  pub required : List Text
  pub all_of : Schemas
  pub properties : Props
  pub immutable_fields : List Text
  pub errors : List StructError

abbrev pub start : StructState
start = record {
  required = [];
  all_of = no_schemas;
  properties = no_props;
  immutable_fields = [];
  errors = [];
}

-- The parts of the tag: the name, and the options `inline`, and `omitempty` or `omitzero`.
pub record JsonOptions : Type 0 where
  pub field_name : Text
  pub inline : Bool
  pub omit_empty : Bool

-- Nothing if the tag is "-".
unfoldable pub json_options : Text → Option JsonOptions
unfolding split mem eq_text
json_options tag =
    let (first, rest) = split 44 tag in
    if is_empty rest && eq_text first (codes "-")
    then none
    else some (record {
      field_name = first;
      inline = mem (codes "inline") rest || is_empty first;
      omit_empty = mem (codes "omitempty") rest || mem (codes "omitzero") rest;
    })

pub data Requirement : Type 0 where
  is_optional is_required : Requirement
  is_conflict : StructError → Requirement

abbrev pub unless_one_of : Bool → StructError → Requirement
unless_one_of in_one_of e = if in_one_of then is_conflict e else is_required

-- The switch on the markers that make a field optional or required.
unfoldable pub requirement :
    {Any : Type 0} → StructOptions → (in_one_of : Bool) → FieldInfo Any → JsonOptions → Requirement
unfolding has_marker
requirement options in_one_of f json =
    let has : Text → Bool = λ k. has_marker k f.markers in
    if has (codes "kubebuilder:validation:Optional")
    then is_optional
    else if has (codes "kubebuilder:validation:Required")
    then unless_one_of in_one_of (required_in_one_of json.field_name)
    else if has (codes "optional") || has (codes "k8s:optional")
    then is_optional
    else if has (codes "required") || has (codes "k8s:required")
    then unless_one_of in_one_of (required_in_one_of json.field_name)
    else if not options.optional_by_default && not json.inline && not json.omit_empty
    then unless_one_of in_one_of (must_be_omitted json.field_name)
    else is_optional

-- `props.Properties[name] = s`
unfoldable pub put_prop : Text → Schema → Props → Props
unfolding eq_text
put_prop k s no_props = prop k s no_props
put_prop k s (prop j d ps) =
    let rest = put_prop k s ps in if eq_text k j then prop k s ps else prop j d rest

abbrev pub of_types : List TypeError → List StructError
of_types es = map of_type es

abbrev pub of_markers : List MarkerError → List StructError
of_markers es = map of_marker es

module _ {Any : Type 0} (out : Outside Any) (ctx : Option TypeContext)
    (options : StructOptions) where
  -- The schema of a field.
  unfoldable pub field_schema : FieldInfo Any → Schema × List StructError
  unfolding has_marker type_to_schema apply_markers
  field_schema f =
      let (made, es) =
        if has_marker (codes "kubebuilder:validation:Schemaless") f.markers
        then (empty_schema, [])
        else type_to_schema options.allow_dangerous_types f.go_type in
      let (marked, fs) =
        apply_markers out ctx f.markers
          (with_docs (record (docs_of made) { description = f.doc }) made) in
      (marked, of_types es ++ of_markers fs)

  -- The last part of an iteration: the schema goes into `AllOf` or the properties.
  unfoldable pub add_field : FieldInfo Any → JsonOptions → StructState → StructState
  unfolding field_schema put_prop
  add_field f json st =
      let (s, es) = field_schema f in
      if json.inline
      then record st {
        all_of = append_schemas st.all_of (more s no_schemas);
        errors = st.errors ++ es;
      }
      else record st {
        properties = put_prop json.field_name s st.properties;
        immutable_fields =
            if has_marker (codes "k8s:immutable") f.markers
            then st.immutable_fields ++ json.field_name ∷ []
            else st.immutable_fields;
        errors = st.errors ++ es;
      }

  -- A field that has a tag: the state, and whether the loop goes on.
  unfoldable pub add_tagged :
      (in_one_of : Text → Bool) → FieldInfo Any → JsonOptions → StructState → StructState × Bool
  unfolding requirement add_field
  add_tagged in_one_of f json st = (elim (requirement options (in_one_of json.field_name) f json) [
    | is_optional ↦ (add_field f json st, true)
    | is_required ↦
        (add_field f json (record st { required = st.required ++ json.field_name ∷ [] }), true)
    | is_conflict e ↦ (record st { errors = st.errors ++ e ∷ [] }, false)
  ])

  unfoldable pub add_one : (Text → Bool) → FieldInfo Any → StructState → StructState × Bool
  unfolding add_tagged json_options
  add_one in_one_of f st =
      if not (is_empty f.name) && options.ignore_unexported_fields && not f.is_exported
      then (st, true)
      else (elim f.json_tag [
        | none ↦ (record st { errors = st.errors ++ no_json_tag f.name ∷ [] }, true)
        | some tag ↦ (elim (json_options tag) [
          | none ↦ (st, true)
          | some json ↦ add_tagged in_one_of f json st
        ])
      ])

  -- The loop over the fields, until one stops it.
  unfoldable pub add_fields :
      (Text → Bool) → List (FieldInfo Any) → StructState → StructState × Bool
  unfolding add_one
  add_fields in_one_of [] st = (st, true)
  add_fields in_one_of (f ∷ fields) st =
      let (next, goes_on) = add_one in_one_of f st in
      let last = add_fields in_one_of fields next in if goes_on then last else (next, false)

  -- The rule for an immutable field that is not required.
  unfoldable pub clearing_rules : List Text → List Text → List ValidationRule
  unfolding mem
  clearing_rules required [] = []
  clearing_rules required (f ∷ fields) =
      let rest = clearing_rules required fields in
      if mem f required
      then rest
      else record {
        rule = codes "!has(oldSelf." ++ (f ++ (codes ") || has(self." ++ (f ++ codes ")")));
        message = codes "field " ++ (f ++ codes " is immutable once set");
        message_expression = [];
        reason = none;
        field_path = [];
        optional_old_self = none;
      }
        ∷ rest

  abbrev pub struct_schema : List Text → List ValidationRule → StructState → Schema
  struct_schema required rules st =
      schema no_docs no_plain
        (record no_special {
          type_name = codes "object";
          required = required;
          x_validations = rules;
        })
        st.all_of st.properties no_items no_additional

  -- The sets of the one-of markers, or the first error.
  unfoldable pub one_of_sets : StructInfo Any → Result StructError OneOfSets
  unfolding one_of_values_to_set
  one_of_sets info = do
    exactly ← one_of_values_to_set info.exactly_one_of
    at_most ← one_of_values_to_set info.at_most_one_of
    at_least ← one_of_values_to_set info.at_least_one_of
    ok (record { exactly = exactly; at_most = at_most; at_least = at_least })

  unfoldable pub struct_to_schema : StructInfo Any → Schema × List StructError
  unfolding one_of_sets add_fields clearing_rules sort_by less_text in_a_set
  struct_to_schema info = (elim (one_of_sets info) [
    | err e ↦ (struct_schema [] [] start, e ∷ [])
    | ok sets ↦
        (let (st, done) = add_fields (in_a_set sets) info.fields start in
          let sorted = sort_by less_text st.required in
          if done
          then (struct_schema sorted (clearing_rules sorted st.immutable_fields) st, st.errors)
          else (struct_schema st.required [] st, st.errors))
  ])
