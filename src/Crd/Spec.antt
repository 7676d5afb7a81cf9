-- ===== src/Crd/Spec.antt =====
-- The part of `apiextensionsv1.CustomResourceDefinition` that pkg/crd fills, and the markers of
-- pkg/crd/markers/crd.go that change it.
pub mod Apply
pub mod Need
pub mod Frame
mod Tests
use controller_tools.Prelude.{
  ℕ, Bool, true, false, Option, none, some, List, [], ◌∷◌, if◌then◌else◌,
}
use controller_tools.Text.{Text}
use controller_tools.Crd.Schema.{Schema}

-- `CustomResourceSubresourceScale`
pub record Scale : Type 0 where
  pub spec_replicas_path : Text
  pub status_replicas_path : Text
  pub label_selector_path : Option Text

pub record Subresources : Type 0 where
  pub status : Bool
  pub scale : Option Scale

-- `CustomResourceColumnDefinition`; the priority, an int32, is its bits.
pub record Column : Type 0 where
  pub column_name : Text
  pub column_type : Text
  pub json_path : Text
  pub description : Text
  pub format : Text
  pub priority : ℕ

-- `CustomResourceDefinitionVersion`
pub record Version : Type 0 where
  pub name : Text
  pub served : Bool
  pub storage : Bool
  pub deprecated : Bool
  pub deprecation_warning : Option Text
  pub open_api_schema : Schema
  pub subresources : Option Subresources
  pub additional_printer_columns : List Column
  pub selectable_fields : List Text

-- `CustomResourceDefinitionNames`
pub record Names : Type 0 where
  pub kind : Text
  pub list_kind : Text
  pub plural : Text
  pub singular : Text
  pub short_names : List Text
  pub categories : List Text

-- A `CustomResourceDefinition`: the metadata, and the spec.
pub record Crd : Type 0 where
  pub metadata_name : Text
  pub annotations : List (Text × Text)
  pub labels : List (Text × Text)
  pub group : Text
  pub names : Names
  pub scope : Text
  pub versions : List Version

-- The arguments of the marker `Resource`; absent strings are empty.
pub record Resource : Type 0 where
  pub path : Text
  pub short_name : List Text
  pub resource_categories : List Text
  pub resource_singular : Text
  pub resource_scope : Text

pub data CrdMarker : Type 0 where
  subresource_status storage_version skip_version unserved_version : CrdMarker
  subresource_scale : Scale → CrdMarker
  print_column : Column → CrdMarker
  resource : Resource → CrdMarker
  deprecated_version : Option Text → CrdMarker
  metadata : (annotations labels : List Text) → CrdMarker
  selectable_field : Text → CrdMarker

-- The errors, with what they print. `no_equals_sign` is the panic of `kv[1]` on a label without `=`.
pub data CrdError : Type 0 where
  not_in_crd : (version : Text) → CrdError
  only_version : CrdError
  bad_annotation : Text → CrdError
  no_equals_sign : Text → CrdError
