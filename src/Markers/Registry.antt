-- ===== src/Markers/Registry.antt =====
-- `Registry` of pkg/markers/reg.go. Definitions are shared by pointer, so the registry holds
-- addresses, and the store that the addresses stand for is an argument. The lock and the lazy `init`
-- of the maps have no counterpart: an operation is one step, and a map starts empty.
pub mod Stored
pub mod Find
pub mod Define
use controller_tools.Prelude.{ℕ, Option, none, some, List, [], ◌∷◌, ◌++◌, ◌==◌, map, if◌then◌else◌}
use controller_tools.Prelude.Assoc.{lookup, put}
use controller_tools.Prelude.Result.{Result, ok, err}
use controller_tools.Text.{Text, eq_text}
use controller_tools.Markers.Definition.{
  Definition, Unicode, make_definition, TargetType, describes_package, describes_type,
  describes_field, other_target,
}
use controller_tools.Markers.Argument.{TypeError, ReflectType}
use controller_tools.Markers.Name.{MarkerName, split_marker}
use controller_tools.Markers.Help.{DefinitionHelp}

abbrev pub Address : Type 0
Address = ℕ

abbrev pub Store : Type 0
Store = Address → Definition

abbrev pub Names : Type 0
Names = List (Text × Address)

pub record Registry : Type 0 where
  pub for_pkg : Names
  pub for_type : Names
  pub for_field : Names
  pub help_for : List (Address × DefinitionHelp)

-- The zero value.
abbrev pub new_registry : Registry
new_registry = record { for_pkg = []; for_type = []; for_field = []; help_for = [] }

-- The errors of `Register` and `Define`.
pub data RegisterError : Type 0 where
  unknown_target : ℕ → RegisterError
  bad_type : TypeError → RegisterError

-- The `switch` of `Register`, for a definition of this name and target.
unfoldable pub store_at : TargetType → Text → Address → Registry → Result RegisterError Registry
unfolding put eq_text
store_at describes_package name a r = ok (record {
  for_pkg = put eq_text name a r.for_pkg;
  for_type = r.for_type;
  for_field = r.for_field;
  help_for = r.help_for;
})
store_at describes_type name a r = ok (record {
  for_pkg = r.for_pkg;
  for_type = put eq_text name a r.for_type;
  for_field = r.for_field;
  help_for = r.help_for;
})
store_at describes_field name a r = ok (record {
  for_pkg = r.for_pkg;
  for_type = r.for_type;
  for_field = put eq_text name a r.for_field;
  help_for = r.help_for;
})
store_at (other_target n) name a r = err (unknown_target n)

-- `Register`
unfoldable pub register : Store → Address → Registry → Result RegisterError Registry
unfolding store_at
register heap a r = store_at ((heap a).target) ((heap a).name) a r

-- `RegisterAll` of pkg/markers/regutil.go: the registry that it leaves, and the error at which it stops.
unfoldable pub register_all : Store → List Address → Registry → Registry × Option RegisterError
unfolding register
register_all heap [] r = (r, none)
register_all heap (a ∷ rest) r = (elim (register heap a r) [
  | err e ↦ (r, some e)
  | ok s ↦ register_all heap rest s
])

-- `Define`, with the address that the new definition gets; the store has it from then on.
unfoldable pub define_marker :
    Unicode
    → Text
    → TargetType
    → ReflectType
    → Store
    → Address
    → Registry
    → Result RegisterError (Store × Registry)
unfolding make_definition register
define_marker u name target output heap a r = elim (make_definition u name target output) [
  | err e ↦ err (bad_type e)
  | ok d ↦
      let heap2 : Store = λ b. if b == a then d else heap b in
      elim (register heap2 a r) [ ok s ↦ ok (heap2, s) | err e ↦ err e ]
]

-- `AddHelp`
unfoldable pub add_help : Address → DefinitionHelp → Registry → Registry
unfolding put
add_help a h r = record {
  for_pkg = r.for_pkg;
  for_type = r.for_type;
  for_field = r.for_field;
  help_for = put ◌==◌ a h r.help_for;
}

-- `HelpFor`
unfoldable pub help_for_definition : Address → Registry → Option DefinitionHelp
unfolding lookup
help_for_definition a r = lookup ◌==◌ a r.help_for

abbrev pub first_found : Option Address → Option Address → Option Address
first_found none other = other
first_found (some a) other = some a

-- `tryAnonLookup`, for a raw marker that is split already.
unfoldable pub try_anon_lookup : MarkerName → Names → Option Address
unfolding lookup eq_text
try_anon_lookup m defs =
    first_found (lookup eq_text m.anonymous_name defs) (lookup eq_text m.name defs)

-- The call of `tryAnonLookup`; `none` is the panic of `splitMarker` on the empty text.
unfoldable pub look_in : Text → Names → Option (Option Address)
unfolding try_anon_lookup split_marker
look_in raw names = elim (split_marker raw) [
  | none ↦ none
  | some m ↦ some (try_anon_lookup m names)
]

-- `Lookup`. An unknown target never gets to the name.
unfoldable pub lookup_marker : Text → TargetType → Registry → Option (Option Address)
unfolding look_in
lookup_marker raw describes_package r = look_in raw r.for_pkg
lookup_marker raw describes_type r = look_in raw r.for_type
lookup_marker raw describes_field r = look_in raw r.for_field
lookup_marker raw (other_target n) r = some none

-- `AllDefinitions`, which goes through each map in some order.
unfoldable pub all_definitions : (TargetType → Names → Names) → Registry → List Address
all_definitions order r =
    map (λ e. e.1) (order describes_package r.for_pkg)
    ++ (map (λ e. e.1) (order describes_type r.for_type)
        ++ map (λ e. e.1) (order describes_field r.for_field))
