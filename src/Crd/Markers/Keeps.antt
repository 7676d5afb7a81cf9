-- ===== src/Crd/Markers/Keeps.antt =====
-- Which markers leave a schema's type and its mark XIntOrString as they are: all but the type markers,
-- XIntOrString and `K8sEnum`.
use controller_tools.Prelude.{
  ℕ, ◌≡◌, refl, ◌∙◌, Bool, true, false, Option-cases, inl, inr, Option, none, some, List, [], ◌∷◌,
  if◌then◌else◌,
}
use controller_tools.Prelude.Result.{Result, ok, err, ◌>>=◌, Result-cases}
use controller_tools.Text.{Text}
use controller_tools.Crd.Schema.{Field, eq_field, Scalar, Docs, Special, Schema, schema}
use controller_tools.Crd.Markers.{
  Outside, TypeContext, XValidation, Marker, MarkerError, docs_of, plain_of, special_of, type_of,
  with_docs, with_field, with_special, flag_field, text_field,
}
use controller_tools.Crd.Markers.Marker.{
  maximum, minimum, multiple_of, exclusive_maximum, exclusive_minimum, unique_items, max_length,
  min_length, max_items, min_items, max_properties, min_properties, pattern, format, type_marker,
  enum, nullable, x_preserve_unknown_fields, x_embedded_resource, x_int_or_string, immutable,
  default, example, kubernetes_default, title, x_validation, at_most_one_of, exactly_one_of,
  at_least_one_of, list_type, list_map_key, map_type, struct_type, external_docs, k8s_enum_field,
  k8s_enum,
}
use controller_tools.Crd.Markers.Apply.{
  Applied, apply_number, apply_exclusive, apply_length, apply_pattern, apply_items,
  apply_min_properties, apply_max_properties, apply_enum, marshal_all, apply_default,
  apply_kubernetes_default, apply_title, apply_example, apply_external_docs, apply_immutable,
  apply_x_validation, apply_one_of, apply_at_most_one_of, apply_exactly_one_of,
  apply_at_least_one_of, apply_x_preserve_unknown_fields,
}
use controller_tools.Crd.Markers.Topology.{
  apply_list_type, apply_list_map_key, apply_map_type, apply_struct_type,
}
use controller_tools.Crd.Markers.Priority.{apply_to_schema}

-- The same type and the same mark.
abbrev pub AgreesOnType : Schema → Schema → Type 0
AgreesOnType t s =
    (type_of t ≡ type_of s) × (plain_of t Field.x_int_or_string ≡ plain_of s Field.x_int_or_string)

pub same_trans : (s t u : Schema) → AgreesOnType u t → AgreesOnType t s → AgreesOnType u s
same_trans s t u h k = (h.0 ∙ k.0, h.1 ∙ k.1)

abbrev pub LeavesType : Schema → Applied → Type 0
LeavesType s (err e) = Unit
LeavesType s (ok t) = AgreesOnType t s

keeps_if :
    (s : Schema) (b : Bool) (x y : Applied)
    → LeavesType s x
    → LeavesType s y
    → LeavesType s (if b then x else y)
keeps_if s true x y h k = h
keeps_if s false x y h k = k

keeps_then :
    {A : Type 0}
    → (s : Schema) (r : Result MarkerError A) (next : A → Applied)
    → ((a : A) → LeavesType s (next a))
    → LeavesType s (r >>= next)
keeps_then s (err e) next h = tt
keeps_then s (ok a) next h = h a

same_field :
    (f : Field) (x : Option Scalar) (s : Schema)
    → eq_field f Field.x_int_or_string ≡ false
    → AgreesOnType (with_field f x s) s
same_field f x (schema docs p sp all_of props items add) h = (refl, rw h refl)

same_special :
    (sp : Special) (s : Schema) → sp.type_name ≡ type_of s → AgreesOnType (with_special sp s) s
same_special sp (schema docs p old all_of props items add) h = (h, refl)

same_docs : (docs : Docs) (s : Schema) → AgreesOnType (with_docs docs s) s
same_docs docs (schema old p sp all_of props items add) = (refl, refl)

module _ {Any : Type 0} (out : Outside Any) where
  keeps_number :
      (f : Field) (n : ℕ) (s : Schema)
      → eq_field f Field.x_int_or_string ≡ false
      → LeavesType s (apply_number out f n s)
  unfolding apply_number
  keeps_number f n s h = search (keeps_if, same_field)

  keeps_enum : (values : List Any) (s : Schema) → LeavesType s (apply_enum out values s)
  unfolding apply_enum
  keeps_enum values s =
      keeps_then s (marshal_all out values)
        (λ raws. ok (with_special (record (special_of s) { enum = raws }) s))
        (λ raws. same_special (record (special_of s) { enum = raws }) s refl)

  keeps_default : (value : Any) (s : Schema) → LeavesType s (apply_default out value s)
  unfolding apply_default eq_field
  keeps_default value s = elim (Result-cases (out.marshal value)) [
    | inl (raw, e) ↦ rw (e, LeavesType, apply_default) (same_field Field.default _ s refl)
    | inr (raw, e) ↦ rw (e, LeavesType, apply_default) tt
  ]

  keeps_kubernetes_default :
      (value : Option Any) (s : Schema) → LeavesType s (apply_kubernetes_default out value s)
  unfolding apply_kubernetes_default eq_field
  keeps_kubernetes_default none s = (refl, refl)
  keeps_kubernetes_default (some value) s = elim (Result-cases (out.marshal value)) [
    | inl (raw, e) ↦
        rw (e, LeavesType, apply_kubernetes_default)
          (same_field Field.default (some (Scalar.text raw)) s refl)
    | inr (raw, e) ↦ rw (e, LeavesType, apply_kubernetes_default) tt
  ]

  keeps_title : (value : Option Any) (s : Schema) → LeavesType s (apply_title out value s)
  unfolding apply_title
  keeps_title none s = (refl, refl)
  keeps_title (some value) s = elim (Option-cases (out.as_string value)) [
    | inl e ↦ rw (e, LeavesType, apply_title) tt
    | inr (name, e) ↦
        rw (e, LeavesType, apply_title) (same_docs (record (docs_of s) { title = name }) s)
  ]

  keeps_example : (value : Any) (s : Schema) → LeavesType s (apply_example out value s)
  unfolding apply_example
  keeps_example value s = elim (Result-cases (out.marshal value)) [
    | inl (raw, e) ↦
        rw (e, LeavesType, apply_example) (same_docs (record (docs_of s) { example = some raw }) s)
    | inr (raw, e) ↦ rw (e, LeavesType, apply_example) tt
  ]

  keeps_external_docs :
      (url about : Text) (s : Schema) → LeavesType s (apply_external_docs out url about s)
  unfolding apply_external_docs
  keeps_external_docs url about s = elim (Result-cases (out.parse_request_uri url)) [
    | inl (parsed, e) ↦
        rw (e, LeavesType, apply_external_docs)
          (same_docs
            (record (docs_of s) { external_docs = some (record { url = url; about = about }) }) s)
    | inr (why, e) ↦ rw (e, LeavesType, apply_external_docs) tt
  ]

keeps_exclusive :
    (f : Field) (b : Bool) (s : Schema)
    → eq_field f Field.x_int_or_string ≡ false
    → LeavesType s (apply_exclusive f b s)
unfolding apply_exclusive
keeps_exclusive f b s h = search (keeps_if, same_field)

keeps_length :
    (f : Field) (n : ℕ) (s : Schema)
    → eq_field f Field.x_int_or_string ≡ false
    → LeavesType s (apply_length f n s)
unfolding apply_length
keeps_length f n s h = search (keeps_if, same_field)

keeps_pattern : (t : Text) (s : Schema) → LeavesType s (apply_pattern t s)
unfolding apply_pattern eq_field
keeps_pattern t s =
    let free : eq_field Field.pattern Field.x_int_or_string ≡ false = refl in
    search (keeps_if, same_field)

keeps_items :
    (f : Field) (x : Option Scalar) (s : Schema)
    → eq_field f Field.x_int_or_string ≡ false
    → LeavesType s (apply_items f x s)
unfolding apply_items
keeps_items f x s h = search (keeps_if, same_field)

keeps_min_properties : (n : ℕ) (s : Schema) → LeavesType s (apply_min_properties n s)
unfolding apply_min_properties
keeps_min_properties n s = search (keeps_if, same_special)

keeps_max_properties : (n : ℕ) (s : Schema) → LeavesType s (apply_max_properties n s)
unfolding apply_max_properties
keeps_max_properties n s = search (keeps_if, same_special)

keeps_immutable : (s : Schema) → LeavesType s (apply_immutable s)
unfolding apply_immutable
keeps_immutable s = search same_special

keeps_x_validation : (x : XValidation) (s : Schema) → LeavesType s (apply_x_validation x s)
unfolding apply_x_validation
keeps_x_validation x s = search (keeps_if, same_special)

keeps_one_of :
    (expr words : Text) (fields : List Text) (s : Schema)
    → LeavesType s (apply_one_of expr words fields s)
unfolding apply_one_of apply_x_validation
keeps_one_of expr words [] s = (refl, refl)
keeps_one_of expr words (f ∷ fields) s = search same_special

keeps_list_type : (kind : Text) (s : Schema) → LeavesType s (apply_list_type kind s)
unfolding apply_list_type eq_field
keeps_list_type kind s =
    let free : eq_field Field.x_list_type Field.x_int_or_string ≡ false = refl in
    search (keeps_if, same_field)

keeps_list_map_key : (key : Text) (s : Schema) → LeavesType s (apply_list_map_key key s)
unfolding apply_list_map_key eq_field
keeps_list_map_key key s =
    let free : eq_field Field.x_list_map_keys Field.x_int_or_string ≡ false = refl in
    search (keeps_if, same_field)

keeps_map_type : (kind : Text) (s : Schema) → LeavesType s (apply_map_type kind s)
unfolding apply_map_type
keeps_map_type kind s = search (keeps_if, same_special)

keeps_struct_type : (kind : Text) (s : Schema) → LeavesType s (apply_struct_type kind s)
unfolding apply_struct_type
keeps_struct_type kind s = search (keeps_if, same_special)

-- The markers that set the type or the mark.
unfoldable pub sets_type : {Any : Type 0} → Marker Any → Bool
sets_type (type_marker t) = true
sets_type x_int_or_string = true
sets_type k8s_enum = true
sets_type _ = false

module _ {Any : Type 0} (out : Outside Any) (ctx : Option TypeContext) where
  pub keeps_marker :
      (m : Marker Any) (s : Schema)
      → sets_type m ≡ false
      → LeavesType s (apply_to_schema out ctx m s)
  unfolding apply_to_schema sets_type eq_field apply_at_most_one_of apply_exactly_one_of
      apply_at_least_one_of apply_x_preserve_unknown_fields
  keeps_marker (maximum n) s h = keeps_number out Field.maximum n s refl
  keeps_marker (minimum n) s h = keeps_number out Field.minimum n s refl
  keeps_marker (multiple_of n) s h = keeps_number out Field.multiple_of n s refl
  keeps_marker (exclusive_maximum b) s h = keeps_exclusive Field.exclusive_maximum b s refl
  keeps_marker (exclusive_minimum b) s h = keeps_exclusive Field.exclusive_minimum b s refl
  keeps_marker (unique_items b) s h = keeps_items Field.unique_items (flag_field b) s refl
  keeps_marker (max_length n) s h = keeps_length Field.max_length n s refl
  keeps_marker (min_length n) s h = keeps_length Field.min_length n s refl
  keeps_marker (max_items n) s h = keeps_items Field.max_items (some (Scalar.number n)) s refl
  keeps_marker (min_items n) s h = keeps_items Field.min_items (some (Scalar.number n)) s refl
  keeps_marker (max_properties n) s h = keeps_max_properties n s
  keeps_marker (min_properties n) s h = keeps_min_properties n s
  keeps_marker (pattern t) s h = keeps_pattern t s
  keeps_marker (format t) s h = same_field Field.format (text_field t) s refl
  keeps_marker (type_marker t) s h = cc
  keeps_marker (enum values) s h = keeps_enum out values s
  keeps_marker nullable s h = same_field Field.nullable (flag_field true) s refl
  keeps_marker x_preserve_unknown_fields s h =
      same_special (record (special_of s) { x_preserve_unknown_fields = some true }) s refl
  keeps_marker x_embedded_resource s h =
      same_field Field.x_embedded_resource (flag_field true) s refl
  keeps_marker x_int_or_string s h = cc
  keeps_marker immutable s h = keeps_immutable s
  keeps_marker (default value) s h = keeps_default out value s
  keeps_marker (example value) s h = keeps_example out value s
  keeps_marker (kubernetes_default value) s h = keeps_kubernetes_default out value s
  keeps_marker (title value) s h = keeps_title out value s
  keeps_marker (x_validation x) s h = keeps_x_validation x s
  keeps_marker (at_most_one_of fields) s h = keeps_one_of _ _ fields s
  keeps_marker (exactly_one_of fields) s h = keeps_one_of _ _ fields s
  keeps_marker (at_least_one_of fields) s h = keeps_one_of _ _ fields s
  keeps_marker (list_type kind) s h = keeps_list_type kind s
  keeps_marker (list_map_key key) s h = keeps_list_map_key key s
  keeps_marker (map_type kind) s h = keeps_map_type kind s
  keeps_marker (struct_type kind) s h = keeps_struct_type kind s
  keeps_marker (external_docs url about) s h = keeps_external_docs out url about s
  keeps_marker k8s_enum_field s h = tt
  keeps_marker k8s_enum s h = cc
