-- ===== src/Crd/Markers/Topology.antt =====
-- The methods `ApplyToSchema` of pkg/crd/markers/topology.go.
use controller_tools.Prelude.{
  Bool, false, not, ◌&&◌, Option, some, List, [], ◌∷◌, ◌++◌, if◌then◌else◌, is_empty,
}
use controller_tools.Prelude.Result.{ok, err}
use controller_tools.Text.{Text, codes, eq_text, mem}
use controller_tools.Crd.Schema.{Field, Scalar, Schema}
use controller_tools.Crd.Markers.{
  MarkerError, plain_of, special_of, type_of, with_field, with_special,
}
use controller_tools.Crd.Markers.Apply.{Applied, is_array, is_object}

unfoldable pub apply_list_type : Text → Schema → Applied
unfolding is_array mem
apply_list_type kind s =
    if not (is_array s)
    then err MarkerError.not_array
    else if not (mem kind (codes "map" ∷ codes "atomic" ∷ codes "set" ∷ []))
    then err (MarkerError.invalid_list_type kind)
    else ok (with_field Field.x_list_type (some (Scalar.text kind)) s)

-- The keys so far: `schema.XListMapKeys`.
abbrev pub keys_in : Option Scalar → List Text
keys_in (some (Scalar.texts keys)) = keys
keys_in _ = []

unfoldable pub is_map_list : Option Scalar → Bool
unfolding eq_text
is_map_list (some (Scalar.text kind)) = eq_text kind (codes "map")
is_map_list _ = false

unfoldable pub apply_list_map_key : Text → Schema → Applied
unfolding is_array is_map_list
apply_list_map_key key s =
    if not (is_array s)
    then err MarkerError.not_array
    else if not (is_map_list (plain_of s Field.x_list_type))
    then err MarkerError.not_associative
    else ok (
        with_field Field.x_list_map_keys
          (some (Scalar.texts (keys_in (plain_of s Field.x_list_map_keys) ++ key ∷ []))) s)

unfoldable pub apply_map_type : Text → Schema → Applied
unfolding is_object mem
apply_map_type kind s =
    if not (is_object s)
    then err MarkerError.not_object
    else if not (mem kind (codes "atomic" ∷ codes "granular" ∷ []))
    then err (MarkerError.invalid_map_type kind)
    else ok (with_special (record (special_of s) { x_map_type = some kind }) s)

unfoldable pub apply_struct_type : Text → Schema → Applied
unfolding is_object mem
apply_struct_type kind s =
    if not (is_object s) && not (is_empty (type_of s))
    then err MarkerError.not_object
    else if not (mem kind (codes "atomic" ∷ codes "granular" ∷ []))
    then err (MarkerError.invalid_struct_type kind)
    else ok (with_special (record (special_of s) { x_map_type = some kind }) s)
