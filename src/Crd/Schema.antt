-- ===== src/Crd/Schema.antt =====
-- `apiextensionsv1.JSONSchemaProps`, the struct that pkg/crd works on, and what a schema accepts. The
-- code goes through most fields of the struct by reflection; these are a function from their names.
pub mod Constraints
pub mod Meaning
use controller_tools.Prelude.{
  ℕ, Bool, true, false, Option, none, some, List, [], ◌∷◌, ◌==◌, if◌then◌else◌,
}
use controller_tools.Text.{Text, eq_text}

-- The fields of the struct that no case of the code is about. `not_schema` and the like hold schemas
-- that the generator never sets.
pub data Field : Type 0 where
  id schema_uri format pattern : Field
  exclusive_maximum exclusive_minimum unique_items nullable : Field
  x_embedded_resource x_int_or_string : Field
  maximum minimum max_length min_length max_items min_items multiple_of : Field
  ref default x_list_type x_list_map_keys : Field
  one_of any_of not_schema pattern_properties dependencies additional_items definitions : Field

unfoldable pub field_index : Field → ℕ
field_index id = 0
field_index schema_uri = 1
field_index format = 2
field_index pattern = 3
field_index exclusive_maximum = 4
field_index exclusive_minimum = 5
field_index unique_items = 6
field_index nullable = 7
field_index x_embedded_resource = 8
field_index x_int_or_string = 9
field_index maximum = 10
field_index minimum = 11
field_index max_length = 12
field_index min_length = 13
field_index max_items = 14
field_index min_items = 15
field_index multiple_of = 16
field_index ref = 17
field_index default = 18
field_index x_list_type = 19
field_index x_list_map_keys = 20
field_index one_of = 21
field_index any_of = 22
field_index not_schema = 23
field_index pattern_properties = 24
field_index dependencies = 25
field_index additional_items = 26
field_index definitions = 27

unfoldable pub eq_field : Field → Field → Bool
unfolding field_index
eq_field f g = field_index f == field_index g

abbrev pub all_fields : List Field
all_fields =
    id ∷ schema_uri ∷ ref ∷ format ∷ default ∷ maximum ∷ exclusive_maximum ∷ minimum
    ∷ exclusive_minimum ∷ max_length ∷ min_length ∷ pattern ∷ max_items ∷ min_items ∷ unique_items
    ∷ multiple_of ∷ one_of ∷ any_of ∷ not_schema ∷ pattern_properties ∷ dependencies
    ∷ additional_items ∷ definitions ∷ nullable ∷ x_embedded_resource ∷ x_int_or_string
    ∷ x_list_map_keys ∷ x_list_type ∷ []

-- What a field holds if it is not zero: a string, a Boolean (which is then true), a number by its
-- bits, strings, or something else.
pub data Scalar : Type 0 where
  text : Text → Scalar
  flag : Scalar
  number : ℕ → Scalar
  texts : List Text → Scalar
  opaque : ℕ → Scalar

abbrev pub Plain : Type 0
Plain = Field → Option Scalar

abbrev pub no_plain : Plain
no_plain f = none

-- `schema.F = x`
abbrev pub set_field : Field → Option Scalar → Plain → Plain
set_field f x p = λ g. if eq_field f g then x else p g

-- `apiextensionsv1.ValidationRule`
pub record ValidationRule : Type 0 where
  pub rule : Text
  pub message : Text
  pub message_expression : Text
  pub reason : Option Text
  pub field_path : Text
  pub optional_old_self : Option Bool

-- `apiextensionsv1.ExternalDocumentation`
pub record ExternalDocumentation : Type 0 where
  pub url : Text
  pub about : Text

pub record Docs : Type 0 where
  pub title : Text
  pub description : Text
  pub example : Option Text
  pub external_docs : Option ExternalDocumentation

abbrev pub no_docs : Docs
no_docs = record { title = []; description = []; example = none; external_docs = none }

-- The fields that the code has cases for and that hold no schemas.
pub record Special : Type 0 where
  pub type_name : Text
  pub enum : List Text
  pub required : List Text
  pub min_properties : Option ℕ
  pub max_properties : Option ℕ
  pub x_preserve_unknown_fields : Option Bool
  pub x_map_type : Option Text
  pub x_validations : List ValidationRule

abbrev pub no_special : Special
no_special = record {
  type_name = [];
  enum = [];
  required = [];
  min_properties = none;
  max_properties = none;
  x_preserve_unknown_fields = none;
  x_map_type = none;
  x_validations = [];
}

-- `JSONSchemaProps`: documentation, plain and special fields, `AllOf`, `Properties`, `Items` and
-- `AdditionalProperties`.
mutual
  pub data Schema : Type 0 where
    schema : Docs → Plain → Special → Schemas → Props → Items → Additional → Schema

  pub data Schemas : Type 0 where
    no_schemas : Schemas
    more : Schema → Schemas → Schemas

  pub data Props : Type 0 where
    no_props : Props
    prop : Text → Schema → Props → Props

  pub data Items : Type 0 where
    no_items : Items
    items_of : Schema → Items

  -- `JSONSchemaPropsOrBool`: nil, without a schema, and with one.
  pub data Additional : Type 0 where
    no_additional any_additional : Additional
    additional_of : Schema → Additional

abbrev pub empty_schema : Schema
empty_schema = schema no_docs no_plain no_special no_schemas no_props no_items no_additional

abbrev pub append_schemas : Schemas → Schemas → Schemas
append_schemas no_schemas ts = ts
append_schemas (more s ss) ts = more s (append_schemas ss ts)
