-- ===== src/Crd/Spec/Need.antt =====
-- `NeedCRDFor` of pkg/crd/spec.go for a group-kind that has no CRD yet. The packages are those of
-- `GroupVersions` in the order of the loop over this map; so are the values of a type's markers.
use controller_tools.Prelude.{
  Bool, true, false, Option, none, some, List, [], ◌∷◌, ◌++◌, if◌then◌else◌, any, is_empty,
}
use controller_tools.Prelude.Sort.{sort_by}
use controller_tools.Text.{Text, codes, eq_text, less_text}
use controller_tools.Crd.Schema.{Schema}
use controller_tools.Crd.Describe.{LastIndex, MaxLen, truncate_description}
use controller_tools.Crd.Spec.{Version, Crd, CrdMarker, CrdError}
use controller_tools.Crd.Spec.Apply.{apply_to_crd}

-- The type of the kind in a package: its flattened schema, and the values of its markers that are `SpecMarker` or `Marker`.
pub record TypeInfo : Type 0 where
  pub full_schema : Schema
  pub markers : List CrdMarker

-- A package of the group, with its entry of `GroupVersions`.
pub record Package : Type 0 where
  pub path : Text
  pub package_group : Text
  pub version : Text
  pub type_info : Option TypeInfo

pub record GroupKind : Type 0 where
  pub group : Text
  pub kind : Text

-- Errors go to a package: of a marker, or about the CRD.
pub data NeedError : Type 0 where
  marker_error : (path : Text) → CrdError → NeedError
  no_storage_version no_served_version : (path : Text) → NeedError

-- `flect.Pluralize` and `strings.ToLower`
pub record Words : Type 0 where
  pub pluralize : Text → Text
  pub to_lower : Text → Text

unfoldable pub new_crd : Words → GroupKind → Crd
new_crd words gk =
    let default_plural = words.to_lower (words.pluralize gk.kind) in
    record {
      metadata_name = default_plural ++ (codes "." ++ gk.group);
      annotations = [];
      labels = [];
      group = gk.group;
      names = record {
        kind = gk.kind;
        list_kind = gk.kind ++ codes "List";
        plural = default_plural;
        singular = words.to_lower gk.kind;
        short_names = [];
        categories = [];
      };
      scope = codes "Namespaced";
      versions = [];
    }

unfoldable pub packages_of : Text → List Package → List Package
unfolding eq_text
packages_of g [] = []
packages_of g (p ∷ packages) =
    let rest = packages_of g packages in if eq_text p.package_group g then p ∷ rest else rest

-- `TruncateDescription`, if a maximum is given.
unfoldable pub described : LastIndex → Option MaxLen → Schema → Schema
unfolding truncate_description
described last none s = s
described last (some max_len) s = truncate_description last s max_len

-- The first loop over the packages.
unfoldable pub versions_of : LastIndex → Option MaxLen → List Package → List Version
unfolding described
versions_of last max_len [] = []
versions_of last max_len (p ∷ packages) =
    let rest = versions_of last max_len packages in
    elim p.type_info [
      | none ↦ rest
      | some info ↦
          record {
            name = p.version;
            served = true;
            storage = false;
            deprecated = false;
            deprecation_warning = none;
            open_api_schema = described last max_len info.full_schema;
            subresources = none;
            additional_printer_columns = [];
            selectable_fields = [];
          }
          ∷ rest
    ]

abbrev pub note_error : Text → Option CrdError → List NeedError
note_error path none = []
note_error path (some e) = marker_error path e ∷ []

-- The second loop, of the markers of one package and of all.
unfoldable pub apply_values : Package → List CrdMarker → Crd → Crd × List NeedError
unfolding apply_to_crd
apply_values p [] crd = (crd, [])
apply_values p (m ∷ markers) crd =
    let (changed, e) = apply_to_crd m p.version crd in
    let (last, es) = apply_values p markers changed in (last, note_error p.path e ++ es)

unfoldable pub apply_packages : List Package → Crd → Crd × List NeedError
unfolding apply_values
apply_packages [] crd = (crd, [])
apply_packages (p ∷ packages) crd =
    let values : List CrdMarker = elim p.type_info [ none ↦ [] | some info ↦ info.markers ] in
    let (changed, es) = apply_values p values crd in
    let (last, fs) = apply_packages packages changed in (last, es ++ fs)

-- `crd.Spec.Versions[0].Storage = true` if there is one version.
unfoldable pub default_storage : List Version → List Version
default_storage (v ∷ []) = record v { storage = true } ∷ []
default_storage vs = vs

abbrev pub by_name : Version → Version → Bool
unfolding less_text
by_name a b = less_text a.name b.name

-- `packages[0]`; a CRD that has versions has packages.
abbrev pub first_path : List Package → Text
first_path [] = []
first_path (p ∷ packages) = p.path

-- The checks that every CRD has a version that is stored and one that is served.
unfoldable pub check_versions : Text → List Version → List NeedError
check_versions path vs =
    (if any (λ v. v.storage) vs then [] else no_storage_version path ∷ [])
    ++ (if any (λ v. v.served) vs then [] else no_served_version path ∷ [])

-- The CRD that is stored, unless it has no versions, and the errors.
unfoldable pub need_crd_for :
    Words → LastIndex → Option MaxLen → GroupKind → List Package → Option Crd × List NeedError
unfolding packages_of new_crd versions_of apply_packages sort_by by_name default_storage
    check_versions
need_crd_for words last max_len gk group_versions =
    let packages = packages_of gk.group group_versions in
    let (crd, es) =
      apply_packages packages
        (record (new_crd words gk) { versions = versions_of last max_len packages }) in
    let vs = default_storage (sort_by by_name crd.versions) in
    if is_empty crd.versions then (none, es) else (
      some (record crd {
        metadata_name = crd.names.plural ++ (codes "." ++ gk.group);
        versions = vs;
      }),
      es ++ check_versions (first_path packages) vs,
    )
