-- ===== src/Crd/Generate/Tests.antt =====
-- Runs of FindKubeKinds and Generate on a struct with both kinds of metadata.
use mathlib.Core.List.Perm
use controller_tools.Prelude.{
  ◌≡◌, ◌↔◌, refl, Bool, true, false, Option, none, some, List, [], ◌∷◌, ◌++◌, if◌then◌else◌, any,
  map,
}
use controller_tools.Text.{Text, codes, eq_text}
use controller_tools.Crd.Schema.{
  no_docs, no_plain, no_special, Schema, schema, no_schemas, prop, no_props, no_items,
  no_additional, empty_schema,
}
use controller_tools.Crd.Flatten.{props_of}
use controller_tools.Crd.Spec.{Version, Crd}
use controller_tools.Crd.Spec.Need.{GroupKind, new_crd}
use controller_tools.Crd.Generate.{
  named, KnownType, Tools, Written, group_kind_of, find_kube_kinds, fix_top_level_metadata,
  plain_object, generate_crds, same_kind,
}
use controller_tools.Crd.Generate.Kinds.{
  Some, IsKubeType, find_kube_kinds_iff, property-fix_top_level_metadata, property, changed,
}

abbrev metav1 : Text
metav1 = codes "k8s.io/apimachinery/pkg/apis/meta/v1"

abbrev imports : Text → Option Text
unfolding eq_text
imports path = if eq_text path metav1 then some (codes "meta") else none

abbrev web : KnownType
web = record {
  imports = imports;
  group = codes "app";
  type_name = codes "Web";
  fields = ([], named metav1 (codes "TypeMeta")) ∷ ([], named metav1 (codes "ObjectMeta")) ∷ [];
}

abbrev spec : KnownType
spec = record web { type_name = codes "Spec"; fields = [] }

abbrev is_web : GroupKind → Bool
is_web = same_kind (group_kind_of web)

find_kube_kinds_example :
    (any is_web (find_kube_kinds (λ ks. ks) (λ p. p) (codes "meta") (spec ∷ web ∷ [])) ≡ true)
    ↔ Some (IsKubeType (λ p. p) (codes "meta") (group_kind_of web)) (spec ∷ web ∷ [])
find_kube_kinds_example =
    find_kube_kinds_iff (λ p. p) (codes "meta") (λ ks. ks) (spec ∷ web ∷ []) (group_kind_of web)
      Perm.refl

abbrev web_schema : Schema
web_schema =
    schema no_docs no_plain no_special no_schemas
      (prop (codes "metadata") empty_schema (prop (codes "spec") empty_schema no_props)) no_items
      no_additional

abbrev v1_version : Version
v1_version = record {
  name = codes "v1";
  served = true;
  storage = true;
  deprecated = false;
  deprecation_warning = none;
  open_api_schema = web_schema;
  subresources = none;
  additional_printer_columns = [];
  selectable_fields = [];
}

abbrev web_crd : Crd
unfolding new_crd
web_crd =
    record (new_crd (record { pluralize = λ t. t ++ codes "s"; to_lower = λ t. t })
      (group_kind_of web)) { versions = v1_version ∷ [] }

property-fix_top_level_metadata_example :
    map
      (λ v. property (codes "metadata") (props_of v.open_api_schema))
      (fix_top_level_metadata web_crd).versions
    ≡ map
        (λ v.
          changed
            (λ s. plain_object)
            (eq_text (codes "metadata") (codes "metadata"))
            (property (codes "metadata") (props_of v.open_api_schema)))
        web_crd.versions
property-fix_top_level_metadata_example = property-fix_top_level_metadata (codes "metadata") web_crd

abbrev tools : Tools
tools = record {
  tool_version = codes "v0";
  read_file = λ f. none;
  replace_all = λ t old new. t;
  as_version = λ crd v. some crd;
  crd_for = λ gk. web_crd;
}

abbrev files_of : Written → List Text
files_of w = map (λ f. f.file_name) w.files

-- One file is written for the one kind.
one_file :
    files_of (
      generate_crds tools
        (λ ks. ks)
        (λ p. p)
        (record { crd_versions = []; header_file = []; year = []; preserve_unknown_fields = none })
        (imports ∷ [])
        (spec ∷ web ∷ []))
    ≡ codes "app_Webs.yaml" ∷ []
unfolding generate_crds web_crd imports
one_file = refl
