-- ===== src/Markers/Tests.antt =====
-- Runs of the marker model on small inputs.
use controller_tools.Prelude.{
  ◌≡◌, ◌≢◌, refl, true, false, ◌⊎◌, inl, some, [], ◌∷◌, ◌++◌, ◌==◌, if◌then◌else◌,
}
use controller_tools.Prelude.Result.{ok}
use controller_tools.Text.{codes}
use controller_tools.Markers.Argument.{
  ArgumentType, Argument, argument, ReflectType, GoFields, tag, end, field, struct,
  argument_from_type, make_slice_type, make_map_type,
}
use controller_tools.Markers.Argument.Types.{
  IsNormal, argument_from_type-IsNormal, argument_from_type-make_slice_type,
}
use controller_tools.Markers.Name.{MarkerName, colon, parent_name, split_marker}
use controller_tools.Markers.Name.Laws.{parent_name-part, split_marker_fields}
use controller_tools.Markers.Definition.{
  Unicode, Definition, describes_package, describes_type, make_definition, make_any_type_definition,
}
use controller_tools.Markers.Definition.Laws.{IsLoaded, make_definition-IsLoaded}
use controller_tools.Markers.Registry.{
  Store, Registry, new_registry, register, define_marker, lookup_marker,
}
use controller_tools.Markers.Registry.Stored.{IsStored, register-IsStored, lookup_marker_sound}
use controller_tools.Markers.Registry.Define.{lookup_marker-define_marker}
use controller_tools.Markers.Registry.Find.{lookup_marker-register, lookup_marker-register_other}

-- `[]*string`
abbrev pointers : ReflectType
pointers = ReflectType.slice (ReflectType.pointer_to ReflectType.string)

abbrev pointer_argument : Argument
pointer_argument = argument ArgumentType.string true true

pointers_argument :
    argument_from_type pointers ≡ ok (argument (ArgumentType.slice pointer_argument) false false)
unfolding argument_from_type
pointers_argument = refl

argument_from_type-IsNormal_example :
    IsNormal (argument (ArgumentType.slice pointer_argument) false false)
argument_from_type-IsNormal_example =
    argument_from_type-IsNormal pointers
      (argument (ArgumentType.slice pointer_argument) false false) pointers_argument

pointer_argument-IsNormal : IsNormal pointer_argument
unfolding IsNormal
pointer_argument-IsNormal = (refl, tt)

slice_made : make_slice_type pointer_argument ≡ ok pointers
unfolding make_slice_type
slice_made = refl

make_slice_type_example :
    argument_from_type pointers ≡ ok (argument (ArgumentType.slice pointer_argument) false false)
make_slice_type_example =
    argument_from_type-make_slice_type pointer_argument pointers pointer_argument-IsNormal
      slice_made

-- `map[string]*string`
abbrev pointer_map : ReflectType
pointer_map = ReflectType.map ReflectType.string (ReflectType.pointer_to ReflectType.string)

map_made : make_map_type pointer_argument ≡ ok pointer_map
unfolding make_map_type
map_made = refl

parent_name_example : parent_name (codes "a:b" ++ colon ∷ codes "c") ≡ codes "a:b"
parent_name_example = parent_name-part (codes "a:b") (codes "c") refl

split_marker_example :
    split_marker (b'+' ∷ (codes "a:b" ++ colon ∷ codes "c") ++ b'=' ∷ codes "d=1")
    ≡ some (record {
      name = codes "a:b";
      anonymous_name = codes "a:b" ++ colon ∷ codes "c";
      rest_fields = codes "d=1";
    })
split_marker_example = split_marker_fields b'+' (codes "a:b") (codes "c") (codes "d=1") refl refl

-- Runes are bytes, and `C` is the only upper-case letter.
abbrev ascii : Unicode
ascii = record { decode = λ t. t; encode = λ t. t; to_lower = λ r. if r == b'C' then b'c' else r }

abbrev two_fields : GoFields
two_fields =
    field (codes "Count") true (tag (codes ",optional")) ReflectType.int
      (field (codes "URLs") true (tag (codes "urls")) (ReflectType.slice ReflectType.string) end)

abbrev two_fields_definition : Definition
two_fields_definition = record {
  output = struct two_fields;
  name = codes "demo";
  target = describes_type;
  fields =
      (codes "count", argument ArgumentType.int true false)
      ∷ (
        codes "urls",
        argument (ArgumentType.slice (argument ArgumentType.string false false)) false false,
      )
      ∷ [];
  field_names = (codes "count", codes "Count") ∷ (codes "urls", codes "URLs") ∷ [];
  strict = true;
}

two_fields_made :
    make_definition ascii (codes "demo") describes_type (struct two_fields)
    ≡ ok two_fields_definition
unfolding make_definition
two_fields_made = refl

make_definition-IsLoaded_example :
    IsLoaded ascii two_fields (two_fields_definition.fields, two_fields_definition.field_names)
make_definition-IsLoaded_example =
    make_definition-IsLoaded ascii (codes "demo") describes_type two_fields two_fields_definition
      two_fields_made

-- `struct { Value any }`, for a test with values whose first letter is lower-case already.
abbrev value_field : GoFields
value_field = field (codes "Value") true (tag (codes "value")) ReflectType.interface end

abbrev value_definition : Definition
value_definition = record {
  output = struct value_field;
  name = codes "any";
  target = describes_type;
  fields = ([], argument ArgumentType.any false false) ∷ [];
  field_names = ([], codes "Value") ∷ [];
  strict = true;
}

value_made :
    make_any_type_definition ascii (codes "any") describes_type (struct value_field)
    ≡ ok value_definition
unfolding make_any_type_definition
value_made = refl

-- A store with one definition.
abbrev heap : Store
heap a = two_fields_definition

abbrev one_definition : Registry
one_definition = record {
  for_pkg = [];
  for_type = (codes "demo", 7) ∷ [];
  for_field = [];
  help_for = [];
}

registered : register heap 7 new_registry ≡ ok one_definition
unfolding register
registered = refl

new_registry-IsStored : IsStored heap new_registry
unfolding IsStored
new_registry-IsStored = (tt, tt, tt)

register-IsStored_example : IsStored heap one_definition
register-IsStored_example =
    register-IsStored heap 7 new_registry one_definition registered new_registry-IsStored

found : lookup_marker (codes "+demo:x=1") describes_type one_definition ≡ some (some 7)
unfolding lookup_marker
found = refl

one_definition-IsStored : IsStored heap one_definition
unfolding IsStored
one_definition-IsStored = (tt, ((refl, refl), tt), tt)

abbrev plain_name : MarkerName
plain_name = record { name = codes "demo"; anonymous_name = codes "demo"; rest_fields = [] }

plain_split : split_marker (codes "+demo") ≡ some plain_name
unfolding split_marker
plain_split = refl

lookup_marker-register_example :
    lookup_marker (codes "+demo") ((heap 7).target) one_definition ≡ some (some 7)
lookup_marker-register_example =
    lookup_marker-register heap 7 new_registry one_definition (codes "+demo") plain_name registered
      plain_split refl

package_is_not_type : (heap 7).target ≢ describes_package
package_is_not_type h = cc

lookup_marker-register_other_example :
    lookup_marker (codes "+demo") describes_package one_definition
    ≡ lookup_marker (codes "+demo") describes_package new_registry
lookup_marker-register_other_example =
    lookup_marker-register_other heap 7 new_registry one_definition describes_package
      (codes "+demo") plain_name registered plain_split (inl package_is_not_type)

lookup_marker_sound_example :
    (m : MarkerName) × (split_marker (codes "+demo:x=1") ≡ some m)
    × ((heap 7).target ≡ describes_type)
    × (((heap 7).name ≡ m.anonymous_name) ⊎ ((heap 7).name ≡ m.name))
lookup_marker_sound_example =
    lookup_marker_sound heap one_definition describes_type (codes "+demo:x=1") 7
      one_definition-IsStored found

-- `Define` puts the definition at an address of a store of other definitions.
abbrev other_heap : Store
other_heap a = value_definition

abbrev defined_heap : Store
defined_heap = λ a. if a == 7 then two_fields_definition else other_heap a

defined :
    define_marker ascii (codes "demo") describes_type (struct two_fields) other_heap 7 new_registry
    ≡ ok (defined_heap, one_definition)
unfolding define_marker
defined = refl

lookup_marker-define_marker_example :
    ((defined_heap 7).name ≡ codes "demo")
    × ((defined_heap 7).target ≡ describes_type)
    × (lookup_marker (codes "+demo") describes_type one_definition ≡ some (some 7))
lookup_marker-define_marker_example =
    lookup_marker-define_marker ascii (codes "demo") describes_type (struct two_fields) other_heap 7
      new_registry (defined_heap, one_definition) (codes "+demo") plain_name defined plain_split
      refl
