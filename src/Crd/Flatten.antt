-- ===== src/Crd/Flatten.antt =====
-- `flattenAllOfInto`, `allOfVisitor` and `preserveFields` of pkg/crd/flatten.go. Pointers are compared
-- by address there; `FlattenEmbedded` works on a deep copy, in which no two are the same, so that no
-- two fields that hold pointers are equal here. `order` is that of the loop over the set of required
-- names. Errors are the conflicts that are recorded.
pub mod Scalars
pub mod Hoist
pub mod Drops
pub mod Parts
pub mod Exact
pub mod Modifiers
pub mod Accepts
pub mod Fields
pub mod Conflicts
pub mod Refs
mod Tests
use controller_tools.Prelude.{
  ℕ, Bool, true, false, not, ◌&&◌, ◌||◌, Option, none, some, List, [], ◌∷◌, ◌++◌, ◌==◌,
  if◌then◌else◌, any, is_empty,
}
use controller_tools.Text.{Text, eq_text}
use controller_tools.Rbac.Rule.{remove_dup_and_sort}
use controller_tools.Crd.Schema.{
  Field, id, schema_uri, format, pattern, exclusive_maximum, exclusive_minimum, unique_items,
  nullable, x_embedded_resource, x_int_or_string, ref, eq_field, all_fields, Scalar, text, flag,
  Plain, no_plain, set_field, Docs, no_docs, Special, no_special, Schema, schema, Schemas,
  no_schemas, more, append_schemas, Props, no_props, prop, Items, no_items, items_of, Additional,
  no_additional, any_additional, additional_of, empty_schema,
}

-- `fldTyp.Comparable()`, but for pointers: strings and Booleans.
unfoldable pub compares : Field → Bool
compares id = true
compares schema_uri = true
compares format = true
compares pattern = true
compares exclusive_maximum = true
compares exclusive_minimum = true
compares unique_items = true
compares nullable = true
compares x_embedded_resource = true
compares x_int_or_string = true
compares _ = false

unfoldable pub eq_scalar : Scalar → Scalar → Bool
unfolding eq_text
eq_scalar (text s) (text t) = eq_text s t
eq_scalar flag flag = true
eq_scalar _ _ = false

-- The loop of `flattenAllOfInto` at a field without a case: what the destination holds afterwards ...
unfoldable pub merge_scalar : Field → Option Scalar → Option Scalar → Option Scalar
unfolding compares eq_scalar
merge_scalar f dst none = dst
merge_scalar f none (some x) = some x
merge_scalar f (some y) (some x) = if compares f && eq_scalar x y then some y else none

-- ... and whether both values are hoisted into `allOf`.
unfoldable pub hoists_scalar : Field → Option Scalar → Option Scalar → Bool
unfolding compares eq_scalar
hoists_scalar f dst none = false
hoists_scalar f none (some x) = false
hoists_scalar f (some y) (some x) = not (compares f && eq_scalar x y)

-- The same for `MinProperties` and `MaxProperties`, which are compared by value.
unfoldable pub merge_count : Option ℕ → Option ℕ → Option ℕ
merge_count dst none = dst
merge_count none (some x) = some x
merge_count (some y) (some x) = if x == y then some y else none

unfoldable pub hoists_count : Option ℕ → Option ℕ → Bool
hoists_count dst none = false
hoists_count none (some x) = false
hoists_count (some y) (some x) = not (x == y)

-- The same for `Items`, which is a pointer.
unfoldable pub merge_items : Items → Items → Items
merge_items dst no_items = dst
merge_items no_items (items_of s) = items_of s
merge_items (items_of d) (items_of s) = no_items

unfoldable pub hoists_items : Items → Items → Bool
hoists_items dst no_items = false
hoists_items no_items (items_of s) = false
hoists_items (items_of d) (items_of s) = true

-- The error "conflicting types in allOf branches": the two types.
pub record Conflict : Type 0 where
  pub dst_type : Text
  pub src_type : Text

abbrev pub type_conflict : Text → Text → List Conflict
unfolding eq_text
type_conflict dst src =
    if is_empty src || is_empty dst || eq_text src dst
    then []
    else record { dst_type = dst; src_type = src } ∷ []

abbrev pub or_else {ℓ} : {A : Type ℓ} → Option A → Option A → Option A
or_else none other = other
or_else (some a) other = some a

-- The cases on a field's name that look at no schemas.
unfoldable pub merge_special : (List Text → List Text) → Special → Special → Special
unfolding remove_dup_and_sort merge_count
merge_special order d s = record {
  type_name = if is_empty d.type_name then s.type_name else d.type_name;
  enum = if is_empty d.enum then s.enum else d.enum;
  required = remove_dup_and_sort order (d.required ++ s.required);
  min_properties = merge_count d.min_properties s.min_properties;
  max_properties = merge_count d.max_properties s.max_properties;
  x_preserve_unknown_fields = or_else s.x_preserve_unknown_fields d.x_preserve_unknown_fields;
  x_map_type = or_else s.x_map_type d.x_map_type;
  x_validations = s.x_validations ++ d.x_validations;
}

abbrev pub keep_if {ℓ} : {A : Type ℓ} → Bool → Option A → Option A
keep_if b o = if b then o else none

-- One of the two remainders: what is hoisted, of the side that is given first.
unfoldable pub remainder :
    (side dst src : Plain)
    → (side_special dst_special src_special : Special) → (side_items dst_items src_items : Items)
    → Schema
unfolding hoists_scalar hoists_count hoists_items
remainder p dp sp s ds ss i di si =
    schema no_docs (λ f. keep_if (hoists_scalar f (dp f) (sp f)) (p f))
      (record no_special {
        min_properties =
            keep_if (hoists_count ds.min_properties ss.min_properties) s.min_properties;
        max_properties =
            keep_if (hoists_count ds.max_properties ss.max_properties) s.max_properties;
      })
      no_schemas no_props (if hoists_items di si then i else no_items) no_additional

unfoldable pub is_hoisted :
    (dst src : Plain) → (dst_special src_special : Special) → (dst_items src_items : Items) → Bool
unfolding hoists_scalar hoists_count hoists_items
is_hoisted dp sp ds ss di si =
    any (λ f. hoists_scalar f (dp f) (sp f)) all_fields
    || hoists_count ds.min_properties ss.min_properties
    || hoists_count ds.max_properties ss.max_properties
    || hoists_items di si

-- `dst.AllOf = append(dst.AllOf, dstRemainder, srcRemainder)`, if there is something to hoist.
unfoldable pub hoisted :
    (dst src : Plain)
    → (dst_special src_special : Special) → (dst_items src_items : Items) → Schemas
unfolding remainder is_hoisted
hoisted dp sp ds ss di si =
    if is_hoisted dp sp ds ss di si
    then more (remainder dp dp sp ds ds ss di di si)
        (more (remainder sp dp sp ss ds ss si di si) no_schemas)
    else no_schemas

-- All that the loop does to a destination, with its properties and additional properties given.
unfoldable pub merge_into :
    (List Text → List Text) → Schema → Plain → Special → Items → Props → Additional → Schema
unfolding merge_scalar merge_special merge_items hoisted
merge_into order (schema docs dp ds d_all known di d_add) p s items props add =
    schema docs (λ f. merge_scalar f (dp f) (p f)) (merge_special order ds s)
      (append_schemas d_all (hoisted dp p ds s di items)) props (merge_items di items) add

abbrev pub props_of : Schema → Props
props_of (schema docs p s all_of props items add) = props

abbrev pub special_of : Schema → Special
special_of (schema docs p s all_of props items add) = s

abbrev pub additional_in : Schema → Additional
additional_in (schema docs p s all_of props items add) = add

-- `dstMap[k]` is flattened into, or is set to the schema if the key is missing.
unfoldable pub update_prop :
    Text → (Schema → Schema × List Conflict) → Schema → Props → Props × List Conflict
unfolding eq_text
update_prop k flatten fresh no_props = (prop k fresh no_props, [])
update_prop k flatten fresh (prop j d ps) =
    let (rest, es) = update_prop k flatten fresh ps in
    let (merged, fs) = flatten d in
    if eq_text k j then (prop j merged ps, fs) else (prop j d rest, es)

-- The schema of `dstProps`, or a new one.
abbrev pub schema_or_empty : Additional → Schema
schema_or_empty (additional_of d) = d
schema_or_empty _ = empty_schema

module _ (order : List Text → List Text) where
  -- `flattenAllOfInto`, with the errors in the order of the struct's fields.
  unfoldable mutual
    pub flatten_all_of_into : Schema → Schema → Schema × List Conflict
    flatten_all_of_into dst (schema docs p s all_of props items add) =
        let (d, es) = flatten_each_into dst all_of in
        let (ps, fs) = merge_props (props_of d) props in
        let (ad, gs) = merge_additional (additional_in d) add in
        (
          merge_into order d p s items ps ad,
          es ++ (type_conflict (special_of d).type_name s.type_name ++ (fs ++ gs)),
        )

    -- The loop over a list of embedded schemas.
    pub flatten_each_into : Schema → Schemas → Schema × List Conflict
    flatten_each_into dst no_schemas = (dst, [])
    flatten_each_into dst (more s ss) =
        let (d, es) = flatten_all_of_into dst s in
        let (e, fs) = flatten_each_into d ss in (e, es ++ fs)

    -- The case "Properties".
    pub merge_props : Props → Props → Props × List Conflict
    merge_props dst no_props = (dst, [])
    merge_props dst (prop k v ps) =
        let (d, es) = update_prop k (λ old. flatten_all_of_into old v) v dst in
        let (e, fs) = merge_props d ps in (e, es ++ fs)

    -- The case "AdditionalProperties".
    pub merge_additional : Additional → Additional → Additional × List Conflict
    merge_additional dst no_additional = (dst, [])
    merge_additional no_additional any_additional = (any_additional, [])
    merge_additional any_additional any_additional = (any_additional, [])
    merge_additional (additional_of d) any_additional = (additional_of d, [])
    merge_additional no_additional (additional_of s) = (additional_of s, [])
    merge_additional any_additional (additional_of s) =
        let (e, es) = flatten_all_of_into empty_schema s in (additional_of e, es)
    merge_additional (additional_of d) (additional_of s) =
        let (e, es) = flatten_all_of_into d s in (additional_of e, es)

  -- `allOfVisitor.Visit`
  unfoldable pub visit_all_of : Schema → Schema × List Conflict
  unfolding flatten_all_of_into merge_into update_prop
  visit_all_of (schema docs p s all_of props items add) =
      flatten_each_into (schema docs p s no_schemas props items add) all_of

-- `preserveFields`
abbrev pub doc_or : Docs → Docs → Docs
doc_or field type = record {
  title = if is_empty field.title then type.title else field.title;
  description = if is_empty field.description then type.description else field.description;
  example = or_else field.example type.example;
  external_docs = or_else field.external_docs type.external_docs;
}

unfoldable pub preserve_fields : Schema → Schema → Schema
preserve_fields (schema dd dp ds d_all known di d_add) (schema sd sp ss s_all s_props si s_add) =
    schema (doc_or sd dd) no_plain no_special
      (more (schema dd dp ds d_all known di d_add)
        (more (schema no_docs (set_field ref none sp) ss s_all s_props si s_add) no_schemas))
      no_props no_items no_additional
