-- ===== src/Genall/Options.antt =====
-- `protoFromOptions` and `splitOutputRuleOption` of pkg/genall/options.go. The parser of an option's
-- marker is a parameter, and so are the types of generators and of output rules. A generator's
-- address is its place in the list of generators.
pub mod Laws
use controller_tools.Prelude.{
  ℕ, ◌==◌, Option, none, some, List, [], ◌∷◌, ◌++◌, length, if◌then◌else◌, not,
}
use controller_tools.Prelude.Assoc.{lookup, put}
use controller_tools.Prelude.Result.{Result, ok, err, ◌>>=◌}
use controller_tools.Text.{Text, eq_text}
use controller_tools.Text.Split.{cut}
use controller_tools.Markers.Name.{colon}
use controller_tools.Markers.Definition.{Definition, describes_package}
use controller_tools.Markers.Registry.{Store, Registry, Address, lookup_marker}

-- What an option's marker is parsed to, by its dynamic type.
pub data Value (G R : Type 0) : Type 0 where
  generator : G → Value G R
  output_rule : R → Value G R
  input_paths : List Text → Value G R
  other_value : Value G R

-- `panics` is an index out of range: an empty option, or an output rule's name without a colon.
pub data OptionsError : Type 0 where
  unknown_option unparsable_option multiple_instances non_invoked unknown_option_marker :
      Text → OptionsError
  panics : OptionsError

-- `splitOutputRuleOption`: the rule's name and the generator's, which is empty for a default rule.
unfoldable pub split_output_rule_option : Text → Option (Text × Text)
unfolding cut
split_output_rule_option name = elim (cut colon name) [
  | none ↦ none
  | some (output, rest) ↦ elim (cut colon rest) [
    | none ↦ some (rest, [])
    | some (gen, rule) ↦ some (rule, gen)
  ]
]

-- The variables of the first loop.
pub record ProtoState (G R : Type 0) : Type 0 where
  pub gens : List G
  pub default_rule : Option R
  pub output_by_gen : List (Text × R)
  pub gens_by_name : List (Text × ℕ)
  pub paths : List Text

abbrev pub new_proto : {G R : Type 0} → ProtoState G R
new_proto = record {
  gens = [];
  default_rule = none;
  output_by_gen = [];
  gens_by_name = [];
  paths = [];
}

-- `protoRuntime`
pub record ProtoRuntime (G R : Type 0) : Type 0 where
  pub paths : List Text
  pub gens : List G
  pub default_rule : Option R
  pub by_generator : List (ℕ × R)
  pub gens_by_name : List (Text × ℕ)

-- The cases of the `switch` on a value, for a definition's name.
unfoldable pub add_generator :
    {G R : Type 0} → Text → G → ProtoState G R → Result OptionsError (ProtoState G R)
unfolding lookup put eq_text
add_generator name g s = elim (lookup eq_text name s.gens_by_name) [
  | some i ↦ err (multiple_instances name)
  | none ↦ ok (record s {
    gens = s.gens ++ g ∷ [];
    gens_by_name = put eq_text name (length s.gens) s.gens_by_name;
  })
]

unfoldable pub add_rule_at : {G R : Type 0} → Text → R → ProtoState G R → ProtoState G R
unfolding put eq_text
add_rule_at [] r s = record s { default_rule = some r }
add_rule_at (b ∷ gen) r s = record s { output_by_gen = put eq_text (b ∷ gen) r s.output_by_gen }

unfoldable pub add_value :
    {G R : Type 0} → Text → Value G R → ProtoState G R → Result OptionsError (ProtoState G R)
unfolding add_generator add_rule_at split_output_rule_option
add_value name (generator g) s = add_generator name g s
add_value name (output_rule r) s = elim (split_output_rule_option name) [
  | none ↦ err panics
  | some (rule, gen) ↦ ok (add_rule_at gen r s)
]
add_value name (input_paths ps) s = ok (record s { paths = s.paths ++ ps })
add_value name other_value s = err (unknown_option_marker name)

-- The option as a raw marker, with a `+` in front.
unfoldable pub raw_option : Text → Option Text
raw_option [] = none
raw_option (b ∷ t) = some (if not (b == b'+') then b'+' ∷ b ∷ t else b ∷ t)

-- `rawOpt[1:]`
abbrev pub tail_of : Text → Text
tail_of [] = []
tail_of (b ∷ t) = t

module _ {G R : Type 0} (heap : Store) (parse : Definition → Text → Option (Value G R))
    (registry : Registry) where
  -- The definition of a raw option, parsed and added.
  unfoldable pub add_found :
      Text → Option (Option Address) → ProtoState G R → Result OptionsError (ProtoState G R)
  unfolding add_value
  add_found raw none s = err panics
  add_found raw (some none) s = err (unknown_option (tail_of raw))
  add_found raw (some (some a)) s = elim (parse (heap a) raw) [
    | none ↦ err (unparsable_option (tail_of raw))
    | some v ↦ add_value (heap a).name v s
  ]

  -- The body of the first loop.
  unfoldable pub add_option : Text → ProtoState G R → Result OptionsError (ProtoState G R)
  unfolding add_found raw_option lookup_marker
  add_option option s = elim (raw_option option) [
    | none ↦ err panics
    | some raw ↦ add_found raw (lookup_marker raw describes_package registry) s
  ]

  unfoldable pub add_options : List Text → ProtoState G R → Result OptionsError (ProtoState G R)
  unfolding add_option
  add_options [] s = ok s
  add_options (o ∷ os) s = do t ← add_option o s; add_options os t

  -- The loop that gives each generator its rule.
  unfoldable pub associate :
      List (Text × ℕ) → List (Text × R) → List (ℕ × R) → Result OptionsError (List (ℕ × R))
  unfolding lookup put eq_text
  associate names [] by_gen = ok by_gen
  associate names ((gen, r) ∷ rules) by_gen = elim (lookup eq_text gen names) [
    | none ↦ err (non_invoked gen)
    | some i ↦ associate names rules (put ◌==◌ i r by_gen)
  ]

  -- `protoFromOptions`; `order` is that of the loop over `outputByGen`.
  unfoldable pub proto_from_options :
      (List (Text × R) → List (Text × R)) → List Text → Result OptionsError (ProtoRuntime G R)
  unfolding add_options associate
  proto_from_options order options = do
    s ← add_options options new_proto
    by_gen ← associate s.gens_by_name (order s.output_by_gen) []
    ok (record {
      paths = s.paths;
      gens = s.gens;
      default_rule = s.default_rule;
      by_generator = by_gen;
      gens_by_name = s.gens_by_name;
    })
