-- ===== src/Markers/Help.antt =====
-- The help of pkg/markers/help.go.
use controller_tools.Prelude.{Option, none, some, List, [], map}
use controller_tools.Prelude.Assoc.{lookup}
use controller_tools.Text.{Text, eq_text}
use controller_tools.Markers.Definition.{Definition}

pub record DetailedHelp : Type 0 where
  pub summary : Text
  pub details : Text

pub record DefinitionHelp : Type 0 where
  pub detailed_help : DetailedHelp
  pub category : Text
  pub deprecated_in_favor_of : Option Text
  pub field_help : List (Text × DetailedHelp)

-- `d.FieldHelp[k]`, which is the empty help for a missing key.
abbrev help_or_empty : Option DetailedHelp → DetailedHelp
help_or_empty none = record { summary = []; details = [] }
help_or_empty (some h) = h

-- `FieldsHelp`: the keys of `FieldNames` are different, so each write adds an entry.
unfoldable pub fields_help : DefinitionHelp → Definition → List (Text × DetailedHelp)
unfolding lookup eq_text
fields_help h d = map (λ e. (e.0, help_or_empty (lookup eq_text e.1 h.field_help))) d.field_names

-- `SimpleHelp`
unfoldable pub simple_help : Text → Text → DefinitionHelp
simple_help category summary = record {
  detailed_help = record { summary = summary; details = [] };
  category = category;
  deprecated_in_favor_of = none;
  field_help = [];
}

-- `DeprecatedHelp`
unfoldable pub deprecated_help : Text → Text → Text → DefinitionHelp
deprecated_help in_favor_of category summary = record {
  detailed_help = record { summary = summary; details = [] };
  category = category;
  deprecated_in_favor_of = some in_favor_of;
  field_help = [];
}
