-- ===== src/Crd/Schema/Meaning.antt =====
-- Which values a schema accepts: the specification of the flattening. A schema's modifiers, such as
-- `ExclusiveMaximum` and `Nullable`, change what its other constraints say of a value; what they say is
-- the API server's business and a parameter here.
use controller_tools.Prelude.{◌≡◌, Bool, true, false, ◌&&◌, none, if◌then◌else◌}
use controller_tools.Crd.Schema.{
  Field, exclusive_maximum, exclusive_minimum, nullable, x_list_map_keys, additional_items,
  pattern_properties, Plain, Schema, schema, Schemas, no_schemas, more, Props, no_props, prop,
  Items, no_items, items_of, Additional, no_additional, any_additional, additional_of,
}
use controller_tools.Crd.Schema.Constraints.{Constraints, all, unless_none, plain_ok, special_ok}

-- The fields that change what others mean: `Maximum`, `Minimum`, `Type`, `XListType`, `Items` and
-- `AdditionalProperties`.
abbrev pub is_modifier : Field → Bool
is_modifier exclusive_maximum = true
is_modifier exclusive_minimum = true
is_modifier nullable = true
is_modifier x_list_map_keys = true
is_modifier additional_items = true
is_modifier pattern_properties = true
is_modifier _ = false

abbrev pub modifiers : Plain → Plain
modifiers p f = if is_modifier f then p f else none

-- What the constraints say of a value, from the modifiers of their schema.
abbrev pub Meaning : Type 0 → Type 0
Meaning V = Plain → Constraints V

module _ {V : Type 0} (m : Meaning V) where
  unfoldable mutual
    pub accepts : Schema → V → Bool
    accepts (schema docs p s all_of props items additional) v =
        plain_ok (m (modifiers p)) p v
        && special_ok (m (modifiers p)) s v
        && accepts_items (m (modifiers p)) items v
        && accepts_all all_of v
        && accepts_props (m (modifiers p)) props v
        && accepts_additional (m (modifiers p)) additional v

    pub accepts_all : Schemas → V → Bool
    accepts_all no_schemas v = true
    accepts_all (more s ss) v = accepts s v && accepts_all ss v

    pub accepts_props : Constraints V → Props → V → Bool
    accepts_props c no_props v = true
    accepts_props c (prop k s ps) v =
        unless_none (λ w. accepts s w) (c.property k v) && accepts_props c ps v

    pub accepts_items : Constraints V → Items → V → Bool
    accepts_items c no_items v = true
    accepts_items c (items_of s) v = all (λ w. accepts s w) (c.list_elements v)

    pub accepts_additional : Constraints V → Additional → V → Bool
    accepts_additional c no_additional v = true
    accepts_additional c any_additional v = true
    accepts_additional c (additional_of s) v = all (λ w. accepts s w) (c.map_elements v)

-- No schema within has a modifier.
abbrev pub NoModifiers : Plain → Type 0
NoModifiers p = (f : Field) → is_modifier f ≡ true → p f ≡ none

unfoldable mutual
  pub Unmodified : Schema → Type 0
  Unmodified (schema docs p s all_of props items additional) =
      NoModifiers p
      × UnmodifiedAll all_of
      × UnmodifiedProps props
      × UnmodifiedItems items
      × UnmodifiedAdditional additional

  pub UnmodifiedAll : Schemas → Type 0
  UnmodifiedAll no_schemas = Unit
  UnmodifiedAll (more s ss) = Unmodified s × UnmodifiedAll ss

  pub UnmodifiedProps : Props → Type 0
  UnmodifiedProps no_props = Unit
  UnmodifiedProps (prop k s ps) = Unmodified s × UnmodifiedProps ps

  pub UnmodifiedItems : Items → Type 0
  UnmodifiedItems no_items = Unit
  UnmodifiedItems (items_of s) = Unmodified s

  pub UnmodifiedAdditional : Additional → Type 0
  UnmodifiedAdditional no_additional = Unit
  UnmodifiedAdditional any_additional = Unit
  UnmodifiedAdditional (additional_of s) = Unmodified s
