-- ===== src/Crd/Types.antt =====
-- The schemas of Go types: `typeToSchema` of pkg/crd/schema.go and the functions that it calls, for a
-- type without markers and documentation of its own. What go/types says of an expression is part of
-- `GoType`; the requests for the schemas of other types are left out.
use controller_tools.Prelude.{Bool, Option, none, some, List, [], ◌∷◌, if◌then◌else◌}
use controller_tools.Prelude.Result.{Result, ok, err}
use controller_tools.Text.{Text, codes}
use controller_tools.Crd.Schema.{
  Field, Scalar, Plain, no_docs, no_plain, set_field, no_special, Schema, schema, no_schemas,
  no_props, no_items, items_of, no_additional, additional_of, empty_schema,
}
use controller_tools.Crd.Markers.{text_field}
use controller_tools.Crd.Flatten.Refs.{type_ref_link}

-- `types.Basic`: the classes of its info, and of the integers and floats those kinds that have a format.
pub data Basic : Type 0 where
  boolean string : Basic
  int32 uint32 int64 uint64 other_integer : Basic
  float : Basic
  other_basic : Basic

pub data TypeError : Type 0 where
  found_float unsupported_type unknown_type interface_type_found bad_map_key bad_map_value :
      TypeError
  inline_struct : TypeError

-- The expressions of types. `named` is a name of the package, with the type and format that it has if
-- it stands for a basic type; `selector` is a name of another package, with that package's path. The
-- test on the key of a map says whether it resolves to a string or implements TextMarshaler.
pub data GoType : Type 0 where
  builtin : Basic → GoType
  alias_of : (name : Text) → Basic → GoType
  named : (path name kind format : Text) → GoType
  selector : (path name : Text) → GoType
  byte_slice : GoType
  array : GoType → GoType
  map_of : (key_is_text : Bool) → GoType → GoType
  pointer : GoType → GoType
  struct_type interface_type unknown unsupported : GoType

-- The type and the format.
unfoldable pub builtin_to_type : Basic → Bool → Result TypeError (Text × Text)
builtin_to_type boolean dangerous = ok (codes "boolean", [])
builtin_to_type string dangerous = ok (codes "string", [])
builtin_to_type int32 dangerous = ok (codes "integer", codes "int32")
builtin_to_type uint32 dangerous = ok (codes "integer", codes "int32")
builtin_to_type int64 dangerous = ok (codes "integer", codes "int64")
builtin_to_type uint64 dangerous = ok (codes "integer", codes "int64")
builtin_to_type other_integer dangerous = ok (codes "integer", [])
builtin_to_type float dangerous =
    if dangerous then ok (codes "number", []) else err TypeError.found_float
builtin_to_type other_basic dangerous = err TypeError.unsupported_type

-- `JSONSchemaProps{Type: kind, Format: format, Ref: &link}`
abbrev pub simple_schema : Text → Text → Option Text → Schema
simple_schema kind format link =
    let linked : Plain = elim link [
      | none ↦ no_plain
      | some l ↦ set_field Field.ref (some (Scalar.text l)) no_plain
    ] in
    schema no_docs (set_field Field.format (text_field format) linked)
      (record no_special { type_name = kind }) no_schemas no_props no_items no_additional

abbrev pub Made : Type 0
Made = Schema × List TypeError

abbrev pub failed : TypeError → Made
failed e = (empty_schema, e ∷ [])

-- The case of a basic type; an error leaves the type and the format empty.
unfoldable pub basic_to_schema : Bool → Basic → Option Text → Made
unfolding builtin_to_type
basic_to_schema dangerous b link = elim (builtin_to_type b dangerous) [
  | err e ↦ (simple_schema [] [] link, e ∷ [])
  | ok (kind, format) ↦ (simple_schema kind format link, [])
]

abbrev pub array_schema : Schema → Schema
array_schema s =
    schema no_docs no_plain (record no_special { type_name = codes "array" }) no_schemas no_props
      (items_of s) no_additional

abbrev pub map_schema : Schema → Schema
map_schema s =
    schema no_docs no_plain (record no_special { type_name = codes "object" }) no_schemas no_props
      no_items (additional_of s)

-- What the switch of `mapToSchema` accepts as values.
unfoldable pub is_map_value : GoType → Result TypeError Unit
is_map_value interface_type = err TypeError.interface_type_found
is_map_value struct_type = err TypeError.bad_map_value
is_map_value unsupported = err TypeError.bad_map_value
is_map_value _ = ok tt

module _ (dangerous : Bool) where
  unfoldable pub type_to_schema : GoType → Made
  unfolding basic_to_schema is_map_value type_ref_link
  type_to_schema (builtin b) = basic_to_schema dangerous b none
  type_to_schema (alias_of name b) = basic_to_schema dangerous b (some (type_ref_link [] name))
  type_to_schema (named path name kind format) =
      (simple_schema kind format (some (type_ref_link path name)), [])
  type_to_schema (selector path name) = (simple_schema [] [] (some (type_ref_link path name)), [])
  type_to_schema byte_slice = (simple_schema (codes "string") (codes "byte") none, [])
  type_to_schema (array t) = let (s, es) = type_to_schema t in (array_schema s, es)
  type_to_schema (map_of key_is_text t) =
      let (s, es) = type_to_schema t in
      if key_is_text
      then (elim (is_map_value t) [ err e ↦ failed e | ok u ↦ (map_schema s, es) ])
      else failed TypeError.bad_map_key
  type_to_schema (pointer t) = type_to_schema t
  type_to_schema struct_type =
      (simple_schema (codes "object") [] none, TypeError.inline_struct ∷ [])
  type_to_schema interface_type = failed TypeError.interface_type_found
  type_to_schema unknown = failed TypeError.unknown_type
  type_to_schema unsupported = failed TypeError.unsupported_type
