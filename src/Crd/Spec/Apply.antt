-- ===== src/Crd/Spec/Apply.antt =====
-- The methods `ApplyToCRD` of pkg/crd/markers/crd.go.
use controller_tools.Prelude.{
  true, false, Option, none, some, List, [], ◌∷◌, ◌++◌, if◌then◌else◌, is_empty,
}
use controller_tools.Prelude.Result.{Result, ok, err}
use controller_tools.Prelude.Assoc.{put}
use controller_tools.Text.{Text, codes, eq_text}
use controller_tools.Text.Split.{cut}
use controller_tools.Crd.Spec.{
  Scale, Subresources, Column, Version, Crd, Resource, CrdMarker, subresource_status,
  storage_version, skip_version, unserved_version, subresource_scale, print_column, resource,
  deprecated_version, metadata, selectable_field, CrdError, not_in_crd, only_version,
  bad_annotation, no_equals_sign,
}

-- The loop to the first version of the name, which is changed there; nothing if there is none.
unfoldable pub update_version : Text → (Version → Version) → List Version → Option (List Version)
unfolding eq_text
update_version name f [] = none
update_version name f (v ∷ vs) =
    let rest = update_version name f vs in
    if eq_text v.name name
    then some (f v ∷ vs)
    else (elim rest [ none ↦ none | some ws ↦ some (v ∷ ws) ])

-- A change whose version must be there, and one that is left out if it is not.
unfoldable pub change_version : Text → (Version → Version) → Crd → Result CrdError Crd
unfolding update_version
change_version name f crd = (elim (update_version name f crd.versions) [
  | none ↦ err (not_in_crd name)
  | some vs ↦ ok (record crd { versions = vs })
])

unfoldable pub try_version : Text → (Version → Version) → Crd → Crd
unfolding update_version
try_version name f crd = (elim (update_version name f crd.versions) [
  | none ↦ crd
  | some vs ↦ record crd { versions = vs }
])

abbrev pub subresources_or_new : Option Subresources → Subresources
subresources_or_new none = record { status = false; scale = none }
subresources_or_new (some s) = s

unfoldable pub apply_status : Text → Crd → Result CrdError Crd
unfolding change_version
apply_status version = change_version version (λ v. record v {
  subresources = some (record (subresources_or_new v.subresources) { status = true });
})

unfoldable pub apply_scale : Scale → Text → Crd → Result CrdError Crd
unfolding change_version
apply_scale s version = change_version version (λ v. record v {
  subresources = some (record (subresources_or_new v.subresources) { scale = some s });
})

unfoldable pub apply_storage_version : Text → Crd → Result CrdError Crd
unfolding try_version
apply_storage_version version crd =
    if is_empty version
    then ok crd
    else ok (try_version version (λ v. record v { storage = true }) crd)

-- The versions without those of a name.
unfoldable pub drop_versions : Text → List Version → List Version
unfolding eq_text
drop_versions name [] = []
drop_versions name (v ∷ vs) =
    let rest = drop_versions name vs in if eq_text v.name name then rest else v ∷ rest

unfoldable pub apply_skip_version : Text → Crd → Result CrdError Crd
unfolding drop_versions
apply_skip_version version crd =
    if is_empty version
    then err only_version
    else ok (record crd { versions = drop_versions version crd.versions })

unfoldable pub apply_print_column : Column → Text → Crd → Result CrdError Crd
unfolding change_version
apply_print_column c version = change_version version (λ v. record v {
  subresources = some (subresources_or_new v.subresources);
  additional_printer_columns = v.additional_printer_columns ++ c ∷ [];
})

unfoldable pub apply_resource : Resource → Crd → Crd
apply_resource s crd = record crd {
  names = record crd.names {
    plural = if is_empty s.path then crd.names.plural else s.path;
    singular = if is_empty s.resource_singular then crd.names.singular else s.resource_singular;
    short_names = s.short_name;
    categories = s.resource_categories;
  };
  scope = if is_empty s.resource_scope then codes "Namespaced" else s.resource_scope;
}

unfoldable pub apply_unserved_version : Text → Crd → Crd
unfolding try_version
apply_unserved_version version crd = try_version version (λ v. record v { served = false }) crd

unfoldable pub apply_deprecated_version : Option Text → Text → Crd → Crd
unfolding try_version
apply_deprecated_version warning version crd =
    if is_empty version
    then crd
    else try_version version (λ v. record v { deprecated = true; deprecation_warning = warning })
        crd

-- The loops of `Metadata`, with what a text without `=` (the byte 61) is. The pairs before it stay.
unfoldable pub put_pairs :
    (Text → CrdError) → List Text → List (Text × Text) → List (Text × Text) × Option CrdError
unfolding put cut eq_text
put_pairs bad [] m = (m, none)
put_pairs bad (t ∷ ts) m = (elim (cut 61 t) [
  | none ↦ (m, some (bad t))
  | some (k, v) ↦ put_pairs bad ts (put eq_text k v m)
])

-- The CRD afterwards, and the error.
abbrev pub Applied : Type 0
Applied = Crd × Option CrdError

unfoldable pub apply_metadata : List Text → List Text → Crd → Applied
unfolding put_pairs
apply_metadata notes tags crd =
    let (noted, failed) = put_pairs bad_annotation notes crd.annotations in
    let (tagged, crashed) = put_pairs no_equals_sign tags crd.labels in
    elim failed [
      | some e ↦ (record crd { annotations = noted }, some e)
      | none ↦ (record crd { annotations = noted; labels = tagged }, crashed)
    ]

-- The methods that leave the CRD if they fail.
abbrev pub or_same : Crd → Result CrdError Crd → Applied
or_same crd (err e) = (crd, some e)
or_same crd (ok changed) = (changed, none)

-- The dynamic call of `ApplyToCRD`.
unfoldable pub apply_to_crd : CrdMarker → Text → Crd → Applied
unfolding apply_status apply_scale apply_storage_version apply_skip_version apply_print_column
    apply_resource apply_unserved_version apply_deprecated_version apply_metadata change_version
apply_to_crd subresource_status version crd = or_same crd (apply_status version crd)
apply_to_crd (subresource_scale s) version crd = or_same crd (apply_scale s version crd)
apply_to_crd storage_version version crd = or_same crd (apply_storage_version version crd)
apply_to_crd skip_version version crd = or_same crd (apply_skip_version version crd)
apply_to_crd (print_column c) version crd = or_same crd (apply_print_column c version crd)
apply_to_crd (resource r) version crd = (apply_resource r crd, none)
apply_to_crd unserved_version version crd = (apply_unserved_version version crd, none)
apply_to_crd (deprecated_version warning) version crd =
    (apply_deprecated_version warning version crd, none)
apply_to_crd (metadata notes tags) version crd = apply_metadata notes tags crd
apply_to_crd (selectable_field path) version crd = or_same crd (
    change_version version (λ v. record v { selectable_fields = v.selectable_fields ++ path ∷ [] })
      crd)
