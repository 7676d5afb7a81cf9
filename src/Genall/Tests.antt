-- ===== src/Genall/Tests.antt =====
-- A run of the options on a small registry.
use controller_tools.Prelude.{
  ◌==◌, if◌then◌else◌, ◌≡◌, refl, true, Option, none, some, List, [], ◌∷◌, ◌<◌, length, All,
}
use controller_tools.Prelude.Result.{ok}
use controller_tools.Text.{Text, codes}
use controller_tools.Text.Split.{cut}
use controller_tools.Markers.Argument.{ReflectType}
use controller_tools.Markers.Name.{colon}
use controller_tools.Markers.Definition.{Definition, describes_package}
use controller_tools.Markers.Registry.{Store, Registry}
use controller_tools.Genall.Options.{
  Value, generator, output_rule, ProtoRuntime, proto_from_options,
}
use controller_tools.Genall.Options.Laws.{IsNamed, proto_from_options-IsNamed}

abbrev named_definition : Text → Definition
named_definition name = record {
  output = ReflectType.raw_arguments;
  name = name;
  target = describes_package;
  fields = [];
  field_names = [];
  strict = true;
}

-- The generators are `rbac` and `crd`, the rule is `output:rbac:dir`.
abbrev heap : Store
heap a =
    named_definition
      (if a == 0 then codes "rbac" else if a == 1 then codes "output:rbac:dir" else codes "crd")

abbrev registry : Registry
registry = record {
  for_pkg = (codes "rbac", 0) ∷ (codes "output:rbac:dir", 1) ∷ (codes "crd", 2) ∷ [];
  for_type = [];
  for_field = [];
  help_for = [];
}

-- Generators and rules are their raw markers here.
abbrev parse : Definition → Text → Option (Value Text Text)
parse d raw = elim (cut colon d.name) [
  | none ↦ some (generator raw)
  | some parts ↦ some (output_rule raw)
]

abbrev options : List Text
options = codes "crd" ∷ codes "+output:rbac:dir=a" ∷ codes "rbac" ∷ []

abbrev runtime : ProtoRuntime Text Text
runtime = record {
  paths = [];
  gens = codes "+crd" ∷ codes "+rbac" ∷ [];
  default_rule = none;
  by_generator = (1, codes "+output:rbac:dir=a") ∷ [];
  gens_by_name = (codes "crd", 0) ∷ (codes "rbac", 1) ∷ [];
}

options_parsed : proto_from_options heap parse registry (λ rules. rules) options ≡ ok runtime
unfolding proto_from_options
options_parsed = refl

proto_from_options-IsNamed_example :
    IsNamed runtime.gens runtime.gens_by_name
    × All (λ e. e.0 < length runtime.gens) runtime.by_generator
proto_from_options-IsNamed_example =
    proto_from_options-IsNamed heap parse registry (λ rules. rules) options runtime options_parsed
