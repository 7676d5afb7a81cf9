-- ===== src/Crd/Spec/Tests.antt =====
-- Runs of the generation of CRDs on small inputs.
use controller_tools.Prelude.{
  ◌≡◌, refl, true, false, Option, none, some, List, [], ◌∷◌, ◌++◌, any, is_empty,
}
use controller_tools.Text.{Text, codes}
use controller_tools.Crd.Schema.{empty_schema}
use controller_tools.Crd.Describe.{LastIndex, at_most}
use controller_tools.Crd.Spec.{
  Crd, CrdMarker, subresource_status, storage_version, skip_version, metadata, not_in_crd,
  no_equals_sign,
}
use controller_tools.Crd.Spec.Apply.{apply_to_crd, drop_versions}
use controller_tools.Crd.Spec.Need.{
  Package, GroupKind, Words, marker_error, new_crd, versions_of, apply_values, need_crd_for,
}
use controller_tools.Crd.Spec.Frame.{drop_versions-apply_values, need_crd_for_lem}

abbrev words : Words
words = record { pluralize = λ t. t ++ codes "s"; to_lower = λ t. t }

abbrev ascii : LastIndex
ascii = record { sentence_terminal = λ t. none; white_space = λ t. none }

abbrev job : GroupKind
job = record { group = codes "batch.example.com"; kind = codes "job" }

abbrev version_with : Text → List CrdMarker → Package
version_with v markers = record {
  path = v;
  package_group = codes "batch.example.com";
  version = v;
  type_info = some (record { full_schema = empty_schema; markers = markers });
}

abbrev old_version : Package
old_version = version_with (codes "v1") []

abbrev new_version : Package
new_version = version_with (codes "v2") (subresource_status ∷ storage_version ∷ [])

abbrev two_versions : Crd
two_versions = record (new_crd words job) {
  versions = versions_of ascii (some (at_most 20)) (new_version ∷ old_version ∷ []);
}

drop_versions-apply_values_example :
    drop_versions
      (codes "v2")
      (apply_values new_version (subresource_status ∷ storage_version ∷ []) two_versions).0.versions
    ≡ drop_versions (codes "v2") two_versions.versions
drop_versions-apply_values_example =
    drop_versions-apply_values new_version (subresource_status ∷ storage_version ∷ []) two_versions

abbrev from_option : Option Crd → Crd
from_option none = two_versions
from_option (some crd) = crd

abbrev made : Crd
unfolding need_crd_for
made =
    from_option
      (need_crd_for words ascii (some (at_most 20)) job (new_version ∷ old_version ∷ [])).0

need_crd_for_lem_example :
    (made.metadata_name ≡ (made.names.plural ++ (codes "." ++ job.group)))
    × (is_empty made.versions ≡ false)
    × ((need_crd_for words ascii (some (at_most 20)) job (new_version ∷ old_version ∷ [])).1 ≡ []
        → (any (λ v. v.storage) made.versions ≡ true) × (any (λ v. v.served) made.versions ≡ true))
unfolding made need_crd_for
need_crd_for_lem_example =
    need_crd_for_lem words ascii (some (at_most 20)) job (new_version ∷ old_version ∷ []) made refl

no_errors :
    (need_crd_for words ascii (some (at_most 20)) job (new_version ∷ old_version ∷ [])).1 ≡ []
unfolding need_crd_for
no_errors = refl

-- A marker of a version that is skipped fails or not, by the order of the map.
skipped_last :
    (apply_values new_version (subresource_status ∷ skip_version ∷ []) two_versions).1 ≡ []
unfolding apply_values new_crd versions_of
skipped_last = refl

skipped_first :
    (apply_values new_version (skip_version ∷ subresource_status ∷ []) two_versions).1
    ≡ (marker_error (codes "v2") (not_in_crd (codes "v2")) ∷ [])
unfolding apply_values new_crd versions_of
skipped_first = refl

-- A label without `=` is no error but a panic.
label_without_value :
    (apply_to_crd (metadata [] (codes "app" ∷ [])) (codes "v1") two_versions).1
    ≡ some (no_equals_sign (codes "app"))
unfolding apply_to_crd new_crd
label_without_value = refl
