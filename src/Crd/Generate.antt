-- ===== src/Crd/Generate.antt =====
-- `Generator.Generate` of pkg/crd/gen.go with FindMetav1, FindKubeKinds, FixTopLevelMetadata,
-- removeDescriptionFromMetadata, addAttribution and the transformations of what is written. The parser
-- is given by its types and group-versions; the conversion to a version of CustomResourceDefinition,
-- the version of the tool, reading a file and `strings.ReplaceAll` are parameters.
pub mod Kinds
mod Tests
use controller_tools.Prelude.{
  Bool, true, false, not, ◌&&◌, ◌||◌, Option, none, some, List, [], ◌∷◌, ◌++◌, if◌then◌else◌, any,
  is_empty, map,
}
use controller_tools.Prelude.Assoc.{lookup, put}
use controller_tools.Prelude.Result.{Result, ok, err, ◌>>=◌}
use controller_tools.Prelude.Sort.{sort_by}
use controller_tools.Text.{Text, codes, eq_text, less_text}
use controller_tools.Crd.Schema.{
  no_docs, no_plain, no_special, Docs, Schema, schema, no_schemas, Props, no_props, prop, no_items,
  no_additional,
}
use controller_tools.Crd.Spec.{Version, Crd}
use controller_tools.Crd.Spec.Need.{GroupKind}

-- The type of an embedded field: one that is not named, a named one of the universe, and another with
-- its package's path and its name.
pub data EmbeddedType : Type 0 where
  unnamed universe : EmbeddedType
  named : (path name : Text) → EmbeddedType

-- A type of the parser: the imports of its package, as identities by path; the group of its package;
-- the name; and its fields, whose name is empty if they are embedded.
pub record KnownType : Type 0 where
  pub imports : Text → Option Text
  pub group : Text
  pub type_name : Text
  pub fields : List (Text × EmbeddedType)

-- `FindMetav1`, over the imports of each root.
unfoldable pub find_metav1 : List (Text → Option Text) → Option Text
find_metav1 [] = none
find_metav1 (imports ∷ roots) =
    let rest = find_metav1 roots in
    elim (imports (codes "k8s.io/apimachinery/pkg/apis/meta/v1")) [
      | none ↦ rest
      | some id ↦ some id
    ]

-- Whether an embedded field is of the type of that name in the package metav1.
unfoldable pub is_meta : (Text → Text) → Text → Text → KnownType → Text × EmbeddedType → Bool
unfolding eq_text
is_meta non_vendor metav1 name t (b ∷ field_name, type) = false
is_meta non_vendor metav1 name t ([], unnamed) = false
is_meta non_vendor metav1 name t ([], universe) = false
is_meta non_vendor metav1 name t ([], named path type_name) = (elim (t.imports (non_vendor path)) [
  | none ↦ false
  | some id ↦ eq_text id metav1 && eq_text type_name name
])

-- Whether a type has both kinds of metadata.
unfoldable pub is_kube_kind : (Text → Text) → Text → KnownType → Bool
unfolding is_meta
is_kube_kind non_vendor metav1 t =
    any (is_meta non_vendor metav1 (codes "ObjectMeta") t) t.fields
    && any (is_meta non_vendor metav1 (codes "TypeMeta") t) t.fields

abbrev pub group_kind_of : KnownType → GroupKind
group_kind_of t = record { group = t.group; kind = t.type_name }

unfoldable pub same_kind : GroupKind → GroupKind → Bool
unfolding eq_text
same_kind a b = eq_text a.group b.group && eq_text a.kind b.kind

-- `GroupKind.String`
unfoldable pub kind_text : GroupKind → Text
kind_text gk = if is_empty gk.group then gk.kind else gk.kind ++ (codes "." ++ gk.group)

abbrev pub less_kind : GroupKind → GroupKind → Bool
unfolding less_text kind_text
less_kind a b = less_text (kind_text a) (kind_text b)

-- `kubeKinds[groupKind] = struct{}{}`
unfoldable pub add_kind : GroupKind → List GroupKind → List GroupKind
unfolding same_kind
add_kind gk [] = gk ∷ []
add_kind gk (k ∷ ks) = if same_kind gk k then k ∷ ks else k ∷ add_kind gk ks

unfoldable pub kube_kinds : (Text → Text) → Text → List KnownType → List GroupKind → List GroupKind
unfolding is_kube_kind add_kind
kube_kinds non_vendor metav1 [] ks = ks
kube_kinds non_vendor metav1 (t ∷ ts) ks =
    kube_kinds non_vendor metav1 ts
      (if is_kube_kind non_vendor metav1 t then add_kind (group_kind_of t) ks else ks)

-- `FindKubeKinds`; the types stand in the order of the loop over their map, and `order` is that of the
-- loop over the set of kinds.
unfoldable pub find_kube_kinds :
    (List GroupKind → List GroupKind)
    → (non_vendor : Text → Text) → (metav1 : Text) → List KnownType
    → List GroupKind
unfolding kube_kinds sort_by less_kind
find_kube_kinds order non_vendor metav1 types =
    sort_by less_kind (order (kube_kinds non_vendor metav1 types []))

-- `apiextensionsv1.JSONSchemaProps{Type: "object"}`
abbrev pub plain_object : Schema
plain_object =
    schema no_docs no_plain (record no_special { type_name = codes "object" }) no_schemas no_props
      no_items no_additional

-- A write at the property `metadata`, if it is there.
unfoldable pub change_metadata : (Schema → Schema) → Props → Props
unfolding eq_text
change_metadata f no_props = no_props
change_metadata f (prop k s ps) =
    let rest = change_metadata f ps in
    if eq_text k (codes "metadata") then prop k (f s) ps else prop k s rest

unfoldable pub in_props : (Props → Props) → Schema → Schema
in_props f (schema docs p s all_of props items add) = schema docs p s all_of (f props) items add

abbrev pub change_schema : (Schema → Schema) → Version → Version
change_schema f v = record v { open_api_schema = f v.open_api_schema }

abbrev pub in_versions : (Schema → Schema) → Crd → Crd
in_versions f crd = record crd { versions = map (change_schema f) crd.versions }

-- `FixTopLevelMetadata`
unfoldable pub fix_top_level_metadata : Crd → Crd
unfolding in_props change_metadata
fix_top_level_metadata = in_versions (in_props (change_metadata (λ s. plain_object)))

unfoldable pub without_description : Schema → Schema
without_description (schema docs p s all_of props items add) =
    schema (record docs { description = [] }) p s all_of props items add

-- `removeDescriptionFromMetadata`, with `removeDescriptionFromMetadataProps`
unfoldable pub remove_description_from_metadata : Crd → Crd
unfolding in_props change_metadata without_description
remove_description_from_metadata = in_versions (in_props (change_metadata without_description))

-- `addAttribution`
unfoldable pub add_attribution : Text → Crd → Crd
unfolding put eq_text
add_attribution version crd = record crd {
  annotations = put eq_text (codes "controller-gen.kubebuilder.io/version") version crd.annotations;
}

-- The flags of `Generator` that `Generate` reads itself.
pub record CrdGenerator : Type 0 where
  pub crd_versions : List Text
  pub header_file : Text
  pub year : Text
  pub preserve_unknown_fields : Option Bool

-- The transformations, in their order.
pub data Transform : Type 0 where
  remove_crd_status remove_creation_timestamp : Transform
  preserve_unknown : Bool → Transform

-- The arguments of `WriteYAML`.
pub record CrdFile : Type 0 where
  pub file_name : Text
  pub header : Text
  pub object : Crd
  pub transforms : List Transform

-- What `Generate` calls: the version of the tool, `ReadFile`, `ReplaceAll`, `AsVersion` with its
-- error, and what the parser's `NeedCRDFor` leaves for a kind, the zero value if it leaves nothing.
-- Another version than v1 is refused here: its object would not pass the type assertion.
pub record Tools : Type 0 where
  pub tool_version : Text
  pub read_file : Text → Option Text
  pub replace_all : Text → Text → Text → Text
  pub as_version : Crd → Text → Option Crd
  pub crd_for : GroupKind → Crd

pub data GenerateError : Type 0 where
  no_file no_version : Text → GenerateError

-- The files that are written, and the error that stops the run. The writing of a file does not fail here.
pub record Written : Type 0 where
  pub files : List CrdFile
  pub failed : Option GenerateError

module _ (tools : Tools) where
  unfoldable pub crd_header_text : CrdGenerator → Result GenerateError Text
  crd_header_text g =
      if is_empty g.header_file
      then ok (tools.replace_all [] (codes " YEAR") (codes " " ++ g.year))
      else (elim (tools.read_file g.header_file) [
        | none ↦ err (no_file g.header_file)
        | some t ↦ ok (tools.replace_all t (codes " YEAR") (codes " " ++ g.year))
      ])

  -- `yamlOpts`
  unfoldable pub yaml_opts : Option Bool → List Transform
  yaml_opts none = remove_crd_status ∷ remove_creation_timestamp ∷ []
  yaml_opts (some b) = remove_crd_status ∷ remove_creation_timestamp ∷ preserve_unknown b ∷ []

  -- The loop that converts a CRD to each version.
  unfoldable pub versioned_crds : Crd → List Text → Result GenerateError (List (Text × Crd))
  versioned_crds crd [] = ok []
  versioned_crds crd (ver ∷ vers) = (elim (tools.as_version crd ver) [
    | none ↦ err (no_version ver)
    | some c ↦ (versioned_crds crd vers >>= λ rest. ok ((ver, c) ∷ rest))
  ])

  -- The name of a file: the first version has no suffix.
  unfoldable pub crd_file_name : Crd → Bool → Text → Text
  crd_file_name crd is_first ver =
      let stem = crd.group ++ (codes "_" ++ crd.names.plural) in
      if is_first then stem ++ codes ".yaml" else stem ++ (codes "." ++ (ver ++ codes ".yaml"))

  unfoldable pub crd_files : CrdGenerator → Text → Crd → Bool → List (Text × Crd) → List CrdFile
  unfolding crd_file_name yaml_opts remove_description_from_metadata
  crd_files g header crd is_first [] = []
  crd_files g header crd is_first ((ver, c) ∷ rest) =
      record {
        file_name = crd_file_name crd is_first ver;
        header = header;
        object = remove_description_from_metadata c;
        transforms = yaml_opts g.preserve_unknown_fields;
      }
      ∷ crd_files g header crd false rest

  -- What is converted for a kind.
  unfoldable pub finished_crd : GroupKind → Crd
  unfolding fix_top_level_metadata add_attribution
  finished_crd gk = fix_top_level_metadata (add_attribution tools.tool_version (tools.crd_for gk))

  unfoldable pub crd_versions_of : CrdGenerator → List Text
  crd_versions_of g = if is_empty g.crd_versions then codes "v1" ∷ [] else g.crd_versions

  -- The files of a kind before those of the rest, or the error of its conversion.
  unfoldable pub with_files :
      CrdGenerator → Text → Crd → Result GenerateError (List (Text × Crd)) → Written → Written
  unfolding crd_files
  with_files g header crd (err e) rest = record { files = []; failed = some e }
  with_files g header crd (ok versioned) rest = record {
    files = crd_files g header crd true versioned ++ rest.files;
    failed = rest.failed;
  }

  -- The loop over the kinds.
  unfoldable pub write_kinds : CrdGenerator → Text → List GroupKind → Written
  unfolding finished_crd versioned_crds with_files crd_versions_of
  write_kinds g header [] = record { files = []; failed = none }
  write_kinds g header (gk ∷ gks) =
      with_files g header (finished_crd gk) (versioned_crds (finished_crd gk) (crd_versions_of g))
        (write_kinds g header gks)

  unfoldable pub write_with : CrdGenerator → List GroupKind → Result GenerateError Text → Written
  unfolding write_kinds
  write_with g gks (err e) = record { files = []; failed = some e }
  write_with g gks (ok header) = write_kinds g header gks

  -- `Generate`: with no kind, nothing is read or written.
  unfoldable pub generate_kinds : CrdGenerator → List GroupKind → Written
  unfolding crd_header_text write_with
  generate_kinds g [] = record { files = []; failed = none }
  generate_kinds g (gk ∷ gks) = write_with g (gk ∷ gks) (crd_header_text g)

  unfoldable pub generate_crds :
      (List GroupKind → List GroupKind)
      → (non_vendor : Text → Text) → CrdGenerator
      → (roots : List (Text → Option Text)) → List KnownType
      → Written
  unfolding find_metav1 find_kube_kinds generate_kinds
  generate_crds order non_vendor g roots types = (elim (find_metav1 roots) [
    | none ↦ record { files = []; failed = none }
    | some metav1 ↦ generate_kinds g (find_kube_kinds order non_vendor metav1 types)
  ])
