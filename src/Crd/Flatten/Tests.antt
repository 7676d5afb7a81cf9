-- ===== src/Crd/Flatten/Tests.antt =====
-- Runs of the flattening on small schemas.
use mathlib.Core.List.Perm
use controller_tools.Prelude.{
  ℕ, ◌≡◌, ◌≢◌, refl, Bool, true, false, Option, none, some, List, [], ◌∷◌, ltb, not, ◌&&◌, ◌||◌,
  ◌==◌, ap, arith, Bool-cases, inl, inr,
}
use controller_tools.Prelude.Result.{ok}
use controller_tools.Prelude.Assoc.{lookup}
use controller_tools.Text.{Text, codes, eq_text}
use controller_tools.Rbac.Rule.Laws.{IsOrder}
use controller_tools.Crd.Schema.{
  Field, Plain, id, schema_uri, format, pattern, exclusive_maximum, exclusive_minimum, unique_items,
  nullable, x_embedded_resource, x_int_or_string, maximum, minimum, max_length, min_length,
  max_items, min_items, multiple_of, ref, default, x_list_type, x_list_map_keys, one_of, any_of,
  not_schema, pattern_properties, dependencies, additional_items, definitions, field_index,
  eq_field, Scalar, number, flag, text, no_plain, set_field, no_docs, Special, no_special, Schema,
  schema, no_schemas, more, no_props, prop, no_items, no_additional,
}
use controller_tools.Crd.Schema.Meaning.{Meaning, is_modifier, NoModifiers, accepts, Unmodified}
use controller_tools.Crd.Flatten.{
  type_conflict, update_prop, special_of, flatten_all_of_into, visit_all_of, doc_or,
  preserve_fields,
}
use controller_tools.Crd.Flatten.Drops.{drops_enum}
use controller_tools.Crd.Flatten.Accepts.{
  accepts-flatten_all_of_into, accepts-visit_all_of, accepts-preserve_fields,
}
use controller_tools.Crd.Flatten.Fields.{docs_of, without_ref}
use controller_tools.Crd.Flatten.Conflicts.{type_of, flatten_all_of_into-type_of}
use controller_tools.Crd.Flatten.Refs.{type_ref_link, ref_parts, ref_parts-type_ref_link}

-- Values: numbers, and objects whose properties are numbers.
data Sample : Type 0 where
  quantity : ℕ → Sample
  object : List (Text × ℕ) → Sample

-- A bound, exclusive if its modifier is set.
abbrev bound_ok : Option Scalar → ℕ → ℕ → Bool
bound_ok none low high = not (ltb high low)
bound_ok (some x) low high = ltb low high

abbrev quantity_ok : Plain → Field → Scalar → ℕ → Bool
quantity_ok ms maximum (number bound) n = bound_ok (ms exclusive_maximum) n bound
quantity_ok ms minimum (number bound) n = bound_ok (ms exclusive_minimum) bound n
quantity_ok ms _ _ n = true

abbrev kind_ok : Text → Sample → Bool
kind_ok name (quantity n) = eq_text name (codes "integer")
kind_ok name (object ps) = eq_text name (codes "object")

abbrev property_of : Text → Sample → Option Sample
property_of k (quantity n) = none
property_of k (object ps) = elim (lookup eq_text k ps) [ none ↦ none | some n ↦ some (quantity n) ]

abbrev values : Meaning Sample
values ms = record {
  field_ok = λ f x v. (elim v [ quantity n ↦ quantity_ok ms f x n | object ps ↦ true ]);
  type_ok = kind_ok;
  enum_ok = λ es v. true;
  has_key = λ k v. (elim (property_of k v) [ none ↦ false | some w ↦ true ]);
  min_ok = λ n v. true;
  max_ok = λ n v. true;
  rule_ok = λ r v. true;
  property = property_of;
  list_elements = λ v. [];
  map_elements = λ v. [];
}

abbrev as_found : List Text → List Text
as_found ks = ks

as_found-IsOrder : IsOrder as_found
as_found-IsOrder = Perm.refl

abbrev integer : Special
integer = record no_special { type_name = codes "integer" }

abbrev bounded : Field → ℕ → Special → Schema
bounded f n s =
    schema no_docs (set_field f (some (number n)) no_plain) s no_schemas no_props no_items
      no_additional

-- An object with a property and the name of a required one.
abbrev object_with : Text → Schema → Text → Schema
object_with k s needed =
    schema no_docs no_plain
      (record no_special { type_name = codes "object"; required = needed ∷ [] }) no_schemas
      (prop k s no_props) no_items no_additional

abbrev replicas : Text
replicas = codes "replicas"

abbrev at_most_ten : Schema
at_most_ten = object_with replicas (bounded maximum 10 integer) replicas

abbrev at_most_five : Schema
at_most_five = object_with replicas (bounded maximum 5 integer) (codes "name")

-- The numbers of the modifiers.
abbrev modifier_index : ℕ → Bool
modifier_index n = n == 4 || n == 5 || n == 7 || n == 20 || n == 26 || n == 24

is_modifier_index : (f : Field) → is_modifier f ≡ modifier_index (field_index f)
unfolding field_index
is_modifier_index id = refl
is_modifier_index schema_uri = refl
is_modifier_index format = refl
is_modifier_index pattern = refl
is_modifier_index exclusive_maximum = refl
is_modifier_index exclusive_minimum = refl
is_modifier_index unique_items = refl
is_modifier_index nullable = refl
is_modifier_index x_embedded_resource = refl
is_modifier_index x_int_or_string = refl
is_modifier_index maximum = refl
is_modifier_index minimum = refl
is_modifier_index max_length = refl
is_modifier_index min_length = refl
is_modifier_index max_items = refl
is_modifier_index min_items = refl
is_modifier_index multiple_of = refl
is_modifier_index ref = refl
is_modifier_index default = refl
is_modifier_index x_list_type = refl
is_modifier_index x_list_map_keys = refl
is_modifier_index one_of = refl
is_modifier_index any_of = refl
is_modifier_index not_schema = refl
is_modifier_index pattern_properties = refl
is_modifier_index dependencies = refl
is_modifier_index additional_items = refl
is_modifier_index definitions = refl

free_set :
    (g : Field) (x : Option Scalar) (p : Plain)
    → is_modifier g ≡ false
    → NoModifiers p
    → NoModifiers (set_field g x p)
unfolding eq_field
free_set g x p h k f e = elim (Bool-cases (eq_field g f)) [
  | inl m ↦ absurd (
      ground (
        arith,
        is_modifier_index f,
        is_modifier_index g,
        ap modifier_index {x = field_index g} {y = field_index f},
      ))
  | inr m ↦ rw m (k f e)
]

none_free : NoModifiers no_plain
none_free f e = refl

maximum_free : (n : ℕ) → NoModifiers (set_field maximum (some (number n)) no_plain)
maximum_free n = free_set maximum (some (number n)) no_plain refl none_free

bounded_free : (n : ℕ) → Unmodified (bounded maximum n integer)
unfolding Unmodified
bounded_free n = (maximum_free n, tt, tt, tt, tt)

object_free : (n : ℕ) (k : Text) → Unmodified (object_with replicas (bounded maximum n integer) k)
unfolding Unmodified
object_free n k = (none_free, tt, (bounded_free n, tt), tt, tt)

accepts-flatten_all_of_into_example :
    accepts values
      (flatten_all_of_into as_found at_most_ten at_most_five).0
      (object ((replicas, 7) ∷ []))
    ≡ (accepts values at_most_ten (object ((replicas, 7) ∷ []))
        && accepts values at_most_five (object ((replicas, 7) ∷ [])))
unfolding flatten_all_of_into type_conflict update_prop drops_enum
accepts-flatten_all_of_into_example =
    accepts-flatten_all_of_into values as_found at_most_ten at_most_five
      (object ((replicas, 7) ∷ [])) as_found-IsOrder (object_free 10 replicas)
      (object_free 5 (codes "name")) refl refl

-- Two bounds of one kind are kept as two embedded schemas.
abbrev twice_bounded : Schema
twice_bounded =
    schema no_docs (set_field minimum (some (number 1)) no_plain) integer
      (more (bounded maximum 10 integer) (more (bounded maximum 5 integer) no_schemas)) no_props
      no_items no_additional

twice_bounded_free : Unmodified twice_bounded
unfolding Unmodified
twice_bounded_free = (
  free_set minimum (some (number 1)) no_plain refl none_free,
  (bounded_free 10, (bounded_free 5, tt)),
  tt,
  tt,
  tt,
)

accepts-visit_all_of_example :
    accepts values (visit_all_of as_found twice_bounded).0 (quantity 7)
    ≡ accepts values twice_bounded (quantity 7)
unfolding visit_all_of type_conflict drops_enum
accepts-visit_all_of_example =
    accepts-visit_all_of values as_found twice_bounded (quantity 7) as_found-IsOrder
      twice_bounded_free refl refl

visited_bounds : accepts values (visit_all_of as_found twice_bounded).0 (quantity 7) ≡ false
unfolding visit_all_of accepts eq_field
visited_bounds = refl

-- A field that refers to a type and has a bound of its own.
abbrev size_field : Schema
size_field =
    schema (record no_docs { description = codes "size" })
      (set_field ref (some (text (type_ref_link [] (codes "Size"))))
        (set_field maximum (some (number 5)) no_plain))
      no_special no_schemas no_props no_items no_additional

abbrev size_type : Schema
size_type =
    schema (record no_docs { description = codes "a size"; title = codes "Size" })
      (set_field maximum (some (number 10)) no_plain) integer no_schemas no_props no_items
      no_additional

size_field_free : Unmodified size_field
unfolding Unmodified
size_field_free = (free_set ref _ _ refl (maximum_free 5), tt, tt, tt, tt)

size_type_free : Unmodified size_type
unfolding Unmodified
size_type_free = (maximum_free 10, tt, tt, tt, tt)

accepts-preserve_fields_example :
    (accepts values (visit_all_of as_found (preserve_fields size_type size_field)).0 (quantity 7)
      ≡ (accepts values size_type (quantity 7)
          && accepts values (without_ref size_field) (quantity 7)))
    × (docs_of (visit_all_of as_found (preserve_fields size_type size_field)).0
        ≡ doc_or (docs_of size_field) (docs_of size_type))
unfolding visit_all_of preserve_fields type_conflict drops_enum
accepts-preserve_fields_example =
    accepts-preserve_fields values as_found size_type size_field (quantity 7) as_found-IsOrder
      size_type_free size_field_free refl refl

flatten_all_of_into-type_of_example :
    (type_of (flatten_all_of_into as_found at_most_ten size_type).0 ≡ type_of at_most_ten)
    × (eq_text (type_of size_type) (type_of at_most_ten) ≡ false
        → (flatten_all_of_into as_found at_most_ten size_type).1 ≢ [])
flatten_all_of_into-type_of_example =
    flatten_all_of_into-type_of as_found at_most_ten size_type refl refl

ref_parts-type_ref_link_example :
    ref_parts (type_ref_link (codes "k8s.io/api/core/v1") (codes "Pod"))
    ≡ ok (codes "Pod", codes "k8s.io/api/core/v1")
ref_parts-type_ref_link_example =
    ref_parts-type_ref_link (codes "k8s.io/api/core/v1") (codes "Pod") refl refl

-- A tilde in a package's path ends the path.
tilde_in_path :
    ref_parts (type_ref_link (codes "example.com/~me") (codes "Pod"))
    ≡ ok (codes "me~Pod", codes "example.com/")
unfolding ref_parts type_ref_link
tilde_in_path = refl

-- Of the enums of a type and of a field the type's is kept: `b` is accepted although the field's
-- marker does not list it.
abbrev enum_schema : List Text → Schema
enum_schema es =
    schema no_docs no_plain (record no_special { type_name = codes "string"; enum = es }) no_schemas
      no_props no_items no_additional

two_enums :
    (special_of
      (visit_all_of as_found (
        preserve_fields
          (enum_schema (codes "a" ∷ codes "b" ∷ []))
          (enum_schema (codes "a" ∷ [])))).0).enum
    ≡ (codes "a" ∷ codes "b" ∷ [])
unfolding visit_all_of preserve_fields
two_enums = refl

two_enums_are_no_error :
    (visit_all_of as_found
      (preserve_fields (enum_schema (codes "a" ∷ codes "b" ∷ [])) (enum_schema (codes "a" ∷ [])))).1
    ≡ []
unfolding visit_all_of preserve_fields type_conflict
two_enums_are_no_error = refl

-- An exclusive bound is parted from its maximum: 5 does not fit the field, and fits what is flattened.
abbrev below_five : Schema
below_five =
    schema no_docs
      (set_field exclusive_maximum (some flag) (set_field maximum (some (number 5)) no_plain))
      no_special no_schemas no_props no_items no_additional

parted_bound :
    (accepts values below_five (quantity 5) ≡ false)
    × (accepts values (visit_all_of as_found (preserve_fields size_type below_five)).0 (quantity 5)
        ≡ true)
unfolding accepts visit_all_of preserve_fields eq_field
parted_bound = (refl, refl)
