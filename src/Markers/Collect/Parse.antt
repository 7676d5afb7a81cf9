-- ===== src/Markers/Collect/Parse.antt =====
-- parseMarkersInPackage of pkg/markers/collect.go, and `Get` of its values; PackageMarkers of
-- pkg/markers/zip.go. A definition's `Parse` runs
-- on a scanner that is a parameter, as in the module of `Parse`.
use controller_tools.Prelude.{ℕ, ◌==◌, Option, none, some, List, [], ◌∷◌, ◌++◌}
use controller_tools.Prelude.Assoc.{lookup, put}
use controller_tools.Text.{Text, eq_text}
use controller_tools.Markers.Definition.{TargetType, Fields}
use controller_tools.Markers.Name.{MarkerName}
use controller_tools.Markers.Scanner.{ScannerError, Scanning, Run, starved, panicked, done}
use controller_tools.Markers.Guess.{ArgumentValue}
use controller_tools.Markers.Parse.Marker.{Parsed, parse_marker}
use controller_tools.Markers.Registry.{Address, Store, Registry}
use controller_tools.Markers.Collect.{MarkerComment, NodeMarkers, marker_text}
use controller_tools.Markers.Collect.Associate.{definition_of}

-- The output of a marker.
abbrev pub OutputValue : Type 0
OutputValue = List (Text × ArgumentValue)

abbrev pub MarkerValues : Type 0
MarkerValues = List (Text × List OutputValue)

abbrev pub values_of : Option (List OutputValue) → List OutputValue
values_of none = []
values_of (some vs) = vs

-- `MarkerValues.Get`
unfoldable pub first_value : MarkerValues → Text → Option OutputValue
unfolding lookup eq_text
first_value values name = first (values_of (lookup eq_text name values))
  where
    first : List OutputValue → Option OutputValue
    first [] = none
    first (v ∷ vs) = some v

-- The loop over the values of a file, whose order does not matter for a map.
unfoldable pub append_values : MarkerValues → MarkerValues → MarkerValues
unfolding put lookup eq_text
append_values [] res = res
append_values ((name, vals) ∷ more) res =
    append_values more (put eq_text name (values_of (lookup eq_text name res) ++ vals) res)

-- `markers[node]`, which is nil for a node without values.
abbrev pub no_values : Option MarkerValues → MarkerValues
no_values none = []
no_values (some values) = values

-- `PackageMarkers`, over the files of the package and the values of its nodes.
unfoldable pub package_markers :
    (files : List ℕ) → List (ℕ × MarkerValues) → MarkerValues → MarkerValues
unfolding lookup append_values
package_markers [] markers res = res
package_markers (f ∷ fs) markers res =
    package_markers fs markers (append_values (no_values (lookup ◌==◌ f markers)) res)

-- The values of a node, and the errors of the package so far, each a list of a marker's errors.
pub record Collected : Type 0 where
  pub marker_values : MarkerValues
  pub errors : List (List ScannerError)

-- `markerVals[def.Name] = append(markerVals[def.Name], val)`, or the error.
unfoldable pub add_parsed : Text → Parsed → Collected → Collected
unfolding put lookup eq_text
add_parsed name p c = by_error p.failed
  where
    by_error : Option (List ScannerError) → Collected
    by_error none = record c {
      marker_values =
          put eq_text name (values_of (lookup eq_text name c.marker_values) ++ (p.values ∷ []))
            c.marker_values;
    }
    by_error (some es) = record c { errors = c.errors ++ (es ∷ []) }

module _ (trim_space : Text → Text) (sc : Scanning) (field_order : Fields → Fields)
    (custom : Address → Option (MarkerName → Parsed)) (heap : Store) (registry : Registry) where
  -- What a run leaves; `none` is a panic.
  unfoldable pub after_run : Text → Run sc.Scanner Parsed → Collected → Option Collected
  unfolding add_parsed
  after_run name starved c = none
  after_run name panicked c = none
  after_run name (done p s) c = some (add_parsed name p c)

  unfoldable pub parse_comment : TargetType → MarkerComment → Collected → Option Collected
  unfolding marker_text definition_of after_run parse_marker
  parse_comment target m c = (elim (definition_of (marker_text trim_space m) target registry) [
    | none ↦ some c
    | some a ↦
        after_run (heap a).name
          (parse_marker sc field_order (heap a) (custom a) (marker_text trim_space m)) c
  ])

  unfoldable pub parse_comments : TargetType → List MarkerComment → Collected → Option Collected
  unfolding parse_comment
  parse_comments target [] c = some c
  parse_comments target (m ∷ ms) c = (elim (parse_comment target m c) [
    | none ↦ none
    | some after ↦ parse_comments target ms after
  ])

  -- `parseMarkersInPackage`: the values of each node, and the errors.
  unfoldable pub parse_markers_in_package :
      List NodeMarkers
      → List (List ScannerError)
      → Option (List (ℕ × MarkerValues) × List (List ScannerError))
  unfolding parse_comments
  parse_markers_in_package [] errors = some ([], errors)
  parse_markers_in_package (n ∷ ns) errors =
      elim (parse_comments n.target n.found (record { marker_values = []; errors = errors })) [
        | none ↦ none
        | some c ↦ elim (parse_markers_in_package ns c.errors) [
          | none ↦ none
          | some (rest, all) ↦ some ((n.owner, c.marker_values) ∷ rest, all)
        ]
      ]
