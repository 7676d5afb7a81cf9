-- ===== src/Crd/Flatten/Fields.antt =====
-- A field of a named type: `preserveFields` and then the visit of the schema that it makes.
use controller_tools.Prelude.{◌≡◌, refl, ◌∙◌, Bool, true, false, ◌&&◌, none, List, [], arith}
use controller_tools.Text.{Text}
use controller_tools.Rbac.Rule.Laws.{IsOrder}
use controller_tools.Crd.Schema.{
  Docs, no_docs, Plain, Special, ref, set_field, Schema, schema, Schemas, no_schemas, more, Props,
  Items, Additional,
}
use controller_tools.Crd.Schema.Constraints.{Constraints, fits, fits_all}
use controller_tools.Crd.Flatten.{
  merge_into, flatten_all_of_into, flatten_each_into, merge_props, merge_additional, visit_all_of,
  props_of, additional_in, doc_or, preserve_fields,
}
use controller_tools.Crd.Flatten.Drops.{drops_each}
use controller_tools.Crd.Flatten.Exact.{all_of_in, without_all_of, fits-visit_all_of}

abbrev pub docs_of : Schema → Docs
docs_of (schema docs p s all_of props items add) = docs

-- `src.Ref = nil`
abbrev pub without_ref : Schema → Schema
without_ref (schema docs p s all_of props items add) =
    schema docs (set_field ref none p) s all_of props items add

only_two : (a b : Bool) → ((a && (b && true)) && true && true) ≡ (a && b)
only_two a b = ground arith

preserve_fields_lem :
    {V : Type 0}
    → (m : Constraints V) (type field : Schema) (v : V)
    → fits m (preserve_fields type field) v ≡ (fits m type v && fits m (without_ref field) v)
unfolding preserve_fields fits fits_all
preserve_fields_lem m (schema dd dp ds d_all known di d_add)
      (schema sd sp ss s_all its_props si s_add) v =
    only_two (fits m (schema dd dp ds d_all known di d_add) v)
      (fits m (schema no_docs (set_field ref none sp) ss s_all its_props si s_add) v)

docs_into :
    (order : List Text → List Text) (d : Schema) (p : Plain) (s : Special) (items : Items)
    (props : Props) (add : Additional)
    → docs_of (merge_into order d p s items props add) ≡ docs_of d
unfolding merge_into
docs_into order (schema docs dp ds d_all known di d_add) p s items props add = refl

mutual
  unfolding flatten_all_of_into flatten_each_into merge_into

  one_docs :
      (order : List Text → List Text) (src dst : Schema)
      → docs_of (flatten_all_of_into order dst src).0 ≡ docs_of dst
  one_docs order (schema docs p s all_of props items add) dst =
      docs_into order (flatten_each_into order dst all_of).0 p s items
        (merge_props order (props_of (flatten_each_into order dst all_of).0) props).0
        (merge_additional order (additional_in (flatten_each_into order dst all_of).0) add).0
      ∙ each_docs order all_of dst

  each_docs :
      (order : List Text → List Text) (ss : Schemas) (dst : Schema)
      → docs_of (flatten_each_into order dst ss).0 ≡ docs_of dst
  each_docs order no_schemas dst = refl
  each_docs order (more s ss) dst =
      each_docs order ss (flatten_all_of_into order dst s).0 ∙ one_docs order s dst

visit_docs :
    (order : List Text → List Text) (s : Schema) → docs_of (visit_all_of order s).0 ≡ docs_of s
unfolding visit_all_of
visit_docs order (schema docs p s all_of props items add) =
    each_docs order all_of (schema docs p s no_schemas props items add)

preserved_docs :
    (type field : Schema)
    → docs_of (preserve_fields type field) ≡ doc_or (docs_of field) (docs_of type)
unfolding preserve_fields
preserved_docs (schema dd dp ds d_all known di d_add) (schema sd sp ss s_all its_props si s_add) =
    refl

-- Exactly what fits its type and its own markers fits a flattened field, if its flattening
-- records no conflict and meets no two enums. Its documentation is the field's where that is set, and
-- the type's otherwise.
pub visit-preserve_fields :
    {V : Type 0}
    → (m : Constraints V) (order : List Text → List Text) (type field : Schema) (v : V)
    → IsOrder order
    → (visit_all_of order (preserve_fields type field)).1 ≡ []
    → drops_each order
        (without_all_of (preserve_fields type field))
        (all_of_in (preserve_fields type field))
      ≡ false
    → (fits m (visit_all_of order (preserve_fields type field)).0 v
        ≡ (fits m type v && fits m (without_ref field) v))
      × (docs_of (visit_all_of order (preserve_fields type field)).0
          ≡ doc_or (docs_of field) (docs_of type))
visit-preserve_fields m order type field v o ok kept = (
  fits-visit_all_of m order (preserve_fields type field) v o ok kept
      ∙ preserve_fields_lem m type field v,
  visit_docs order (preserve_fields type field) ∙ preserved_docs type field,
)
