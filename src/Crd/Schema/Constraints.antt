-- ===== src/Crd/Schema/Constraints.antt =====
-- The values that fit a schema if no constraint in it changes the meaning of another. What a single
-- constraint says of a value is the API server's business and a parameter here.
use controller_tools.Prelude.{
  ℕ, Bool, true, not, ◌&&◌, Option, none, some, List, any, is_empty, if◌then◌else◌,
}
use controller_tools.Text.{Text}
use controller_tools.Crd.Schema.{
  Field, all_fields, Scalar, Plain, ValidationRule, Special, Schema, schema, Schemas, no_schemas,
  more, Props, no_props, prop, Items, no_items, items_of, Additional, no_additional, any_additional,
  additional_of,
}

-- Additional properties constrain all the elements of a map: the API server allows them only in a
-- schema without properties.
pub record Constraints (V : Type 0) : Type 0 where
  pub field_ok : Field → Scalar → V → Bool
  pub type_ok : Text → V → Bool
  pub enum_ok : List Text → V → Bool
  pub has_key : Text → V → Bool
  pub min_ok : ℕ → V → Bool
  pub max_ok : ℕ → V → Bool
  pub rule_ok : ValidationRule → V → Bool
  pub property : Text → V → Option V
  pub list_elements : V → List V
  pub map_elements : V → List V

abbrev pub all {ℓ} : {A : Type ℓ} → (A → Bool) → List A → Bool
all p xs = not (any (λ x. not (p x)) xs)

-- A constraint that is not there holds.
abbrev pub unless_none {ℓ} : {A : Type ℓ} → (A → Bool) → Option A → Bool
unless_none p none = true
unless_none p (some a) = p a

module _ {V : Type 0} (m : Constraints V) where
  abbrev pub plain_ok : Plain → V → Bool
  plain_ok p v = all (λ f. unless_none (λ x. m.field_ok f x v) (p f)) all_fields

  abbrev pub special_ok : Special → V → Bool
  special_ok s v =
      (if is_empty s.type_name then true else m.type_ok s.type_name v)
      && (if is_empty s.enum then true else m.enum_ok s.enum v)
      && all (λ k. m.has_key k v) s.required
      && unless_none (λ n. m.min_ok n v) s.min_properties
      && unless_none (λ n. m.max_ok n v) s.max_properties
      && all (λ r. m.rule_ok r v) s.x_validations

  unfoldable mutual
    pub fits : Schema → V → Bool
    fits (schema docs p s all_of props items additional) v =
        plain_ok p v
        && special_ok s v
        && fits_items items v
        && fits_all all_of v
        && fits_props props v
        && fits_additional additional v

    pub fits_all : Schemas → V → Bool
    fits_all no_schemas v = true
    fits_all (more s ss) v = fits s v && fits_all ss v

    pub fits_props : Props → V → Bool
    fits_props no_props v = true
    fits_props (prop k s ps) v = unless_none (λ w. fits s w) (m.property k v) && fits_props ps v

    pub fits_items : Items → V → Bool
    fits_items no_items v = true
    fits_items (items_of s) v = all (λ w. fits s w) (m.list_elements v)

    pub fits_additional : Additional → V → Bool
    fits_additional no_additional v = true
    fits_additional any_additional v = true
    fits_additional (additional_of s) v = all (λ w. fits s w) (m.map_elements v)
