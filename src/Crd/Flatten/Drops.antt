-- ===== src/Crd/Flatten/Drops.antt =====
-- When `flattenAllOfInto` meets two enums, of which it keeps the destination's: the case "Enum".
use controller_tools.Prelude.{Bool, false, not, ◌||◌, List, if◌then◌else◌, is_empty}
use controller_tools.Text.{Text, eq_text}
use controller_tools.Crd.Schema.{
  Special, Schema, schema, Schemas, no_schemas, more, Props, no_props, prop, Additional,
  no_additional, any_additional, additional_of, empty_schema,
}
use controller_tools.Crd.Flatten.{
  props_of, special_of, additional_in, update_prop, flatten_all_of_into, flatten_each_into,
}

abbrev pub both_enums : Special → Special → Bool
both_enums d s = not (is_empty d.enum || is_empty s.enum)

abbrev pub drops_in : Text → (Schema → Bool) → Props → Bool
unfolding eq_text
drops_in k drops no_props = false
drops_in k drops (prop j d ps) =
    let rest = drops_in k drops ps in if eq_text k j then drops d else rest

module _ (order : List Text → List Text) where
  unfoldable mutual
    pub drops_enum : Schema → Schema → Bool
    drops_enum dst (schema docs p s all_of props items add) =
        let d = (flatten_each_into order dst all_of).0 in
        drops_each dst all_of
        || both_enums (special_of d) s
        || drops_props (props_of d) props
        || drops_additional (additional_in d) add

    pub drops_each : Schema → Schemas → Bool
    drops_each dst no_schemas = false
    drops_each dst (more s ss) =
        drops_enum dst s || drops_each (flatten_all_of_into order dst s).0 ss

    pub drops_props : Props → Props → Bool
    drops_props dst no_props = false
    drops_props dst (prop k v ps) =
        drops_in k (λ old. drops_enum old v) dst
        || drops_props (update_prop k (λ old. flatten_all_of_into order old v) v dst).0 ps

    pub drops_additional : Additional → Additional → Bool
    drops_additional dst no_additional = false
    drops_additional dst any_additional = false
    drops_additional no_additional (additional_of s) = false
    drops_additional any_additional (additional_of s) = drops_enum empty_schema s
    drops_additional (additional_of d) (additional_of s) = drops_enum d s
