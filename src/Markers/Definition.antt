-- ===== src/Markers/Definition.antt =====
-- The definitions of pkg/markers/parse.go and how `MakeDefinition` makes one from a Go type. The maps
-- `Fields` and `FieldNames` are association lists. Go's decoding, encoding and lowering of runes are
-- a parameter.
pub mod Laws
use controller_tools.Prelude.{
  ℕ, Bool, true, false, ◌&&◌, ◌||◌, not, Option, none, some, List, [], ◌∷◌, if◌then◌else◌, any,
  length, ◌==◌,
}
use controller_tools.Prelude.Assoc.{lookup, put}
use controller_tools.Prelude.Result.{Result, ok, err, ◌>>=◌}
use controller_tools.Text.{Text, codes, eq_text}
use controller_tools.Text.Split.{split}
use controller_tools.Markers.Argument.{
  Argument, ArgumentType, argument, argument_type, ReflectType, GoFields, MarkerTag, TypeError,
  bad_field, raw_field, no_tag, tag, raw, invalid, end, field, struct, argument_from_type,
  is_string_kind, argument_from,
}

-- The packages unicode and unicode/utf8: a text's runes, the text of some runes, and `ToLower`.
pub record Unicode : Type 0 where
  pub decode : Text → List ℕ
  pub encode : List ℕ → Text
  pub to_lower : ℕ → ℕ

-- `TargetType`: the three constants, and any other number.
pub data TargetType : Type 0 where
  describes_package describes_type describes_field : TargetType
  other_target : ℕ → TargetType

unfoldable pub target_string : TargetType → Text
target_string describes_package = codes "package"
target_string describes_type = codes "type"
target_string describes_field = codes "field"
target_string (other_target n) = codes "(unknown)"

-- The maps of a definition: arguments and field names by argument name.
abbrev pub Fields : Type 0
Fields = List (Text × Argument)

abbrev pub FieldNames : Type 0
FieldNames = List (Text × Text)

pub record Definition : Type 0 where
  pub output : ReflectType
  pub name : Text
  pub target : TargetType
  pub fields : Fields
  pub field_names : FieldNames
  pub strict : Bool

-- `Definition.AnonymousField`
unfoldable pub anonymous_field : Definition → Bool
unfolding eq_text lookup
anonymous_field d =
    if not (length d.fields == 1)
    then false
    else (elim (lookup eq_text [] d.fields) [ none ↦ false | some a ↦ true ])

-- `Definition.Empty`
unfoldable pub empty : Definition → Bool
empty d = length d.fields == 0

-- `lowerCamelCase`
unfoldable pub lower_first : (ℕ → ℕ) → List ℕ → List ℕ
lower_first lower [] = []
lower_first lower (r ∷ rs) = lower r ∷ rs

unfoldable pub lower_camel_case : Unicode → Text → Text
unfolding lower_first
lower_camel_case u t = u.encode (lower_first u.to_lower (u.decode t))

-- The name and the options of `tag.Lookup("marker")`, split at commas.
abbrev pub tag_parts : MarkerTag → Text × List Text
tag_parts no_tag = ([], [])
tag_parts (tag t) = split b',' t

-- `argumentInfo`
unfoldable pub argument_info : Unicode → Text → MarkerTag → Text × Bool
unfolding lower_camel_case split eq_text
argument_info u field_name t =
    let (first, options) = tag_parts t in
    (
      if eq_text first [] then lower_camel_case u field_name else first,
      any (λ o. eq_text o (codes "optional")) options,
    )

abbrev pub is_raw : ArgumentType → Bool
is_raw raw = true
is_raw _ = false

-- `argType.Optional = optionalOpt || argType.Optional`
abbrev pub or_optional : Bool → Argument → Argument
or_optional o (argument t p q) = argument t (o || p) q

abbrev name_error : Text → Result TypeError Argument → Result TypeError Argument
name_error name (ok a) = ok a
name_error name (err e) = err (bad_field name e)

-- The body of the loop of `loadFields`, for an exported field.
unfoldable pub load_field :
    Unicode
    → Text
    → MarkerTag
    → ReflectType
    → Fields × FieldNames
    → Result TypeError (Fields × FieldNames)
unfolding argument_info put eq_text argument_from_type
load_field u name t type (fields, names) = do
  a ← name_error name (argument_from_type type)
  if is_raw (argument_type a)
      then err raw_field
      else (let (arg_name, opt) = argument_info u name t in
          ok (put eq_text arg_name (or_optional opt a) fields, put eq_text arg_name name names))

unfoldable pub load_struct :
    Unicode → GoFields → Fields × FieldNames → Result TypeError (Fields × FieldNames)
unfolding load_field
load_struct u end maps = ok maps
load_struct u (field name exported t type rest) maps = do
  after ← if exported then load_field u name t type maps else ok maps
  load_struct u rest after

-- `loadFields`, of a definition that has no fields yet.
unfoldable pub load_fields : Unicode → ReflectType → Result TypeError (Fields × FieldNames)
unfolding load_struct
load_fields u (struct fs) = load_struct u fs ([], [])
load_fields u type = do a ← argument_from_type type; ok (([], a) ∷ [], ([], []) ∷ [])

-- `MakeDefinition`, of the type of the output object.
unfoldable pub make_definition :
    Unicode → Text → TargetType → ReflectType → Result TypeError Definition
unfolding load_fields
make_definition u name target output = do
  (fields, names) ← load_fields u output
  ok (record {
    output = output;
    name = name;
    target = target;
    fields = fields;
    field_names = names;
    strict = true;
  })

-- `d.Fields[k]`, which is the zero `Argument` for a missing key.
abbrev pub argument_or_zero : Option Argument → Argument
argument_or_zero none = argument invalid false false
argument_or_zero (some a) = a

-- `MakeAnyTypeDefinition`
unfoldable pub make_any_type_definition :
    Unicode → Text → TargetType → ReflectType → Result TypeError Definition
unfolding make_definition lookup eq_text
make_any_type_definition u name target output = do
  d ← make_definition u name target output
  ok (record {
    output = d.output;
    name = d.name;
    target = d.target;
    fields = ([], argument_or_zero (lookup eq_text (codes "value") d.fields)) ∷ [];
    field_names = ([], codes "Value") ∷ [];
    strict = d.strict;
  })
