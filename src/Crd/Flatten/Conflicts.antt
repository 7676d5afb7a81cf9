-- ===== src/Crd/Flatten/Conflicts.antt =====
-- The case "Type": what becomes of the types of two schemas that are flattened into one.
use controller_tools.Prelude.{◌≡◌, refl, ap, ◌∙◌, ◌≢◌, false, List, [], ◌∷◌, ◌++◌, is_empty}
use controller_tools.Text.{Text, eq_text}
use controller_tools.Crd.Schema.{
  Plain, Special, Schema, schema, Schemas, no_schemas, more, Props, Items, Additional,
}
use controller_tools.Crd.Flatten.{
  Conflict, type_conflict, merge_special, merge_into, special_of, props_of, additional_in,
  flatten_all_of_into, flatten_each_into, merge_props, merge_additional,
}

abbrev pub type_of : Schema → Text
type_of s = (special_of s).type_name

type_into :
    (order : List Text → List Text) (d : Schema) (p : Plain) (s : Special) (items : Items)
    (props : Props) (add : Additional)
    → is_empty (type_of d) ≡ false
    → type_of (merge_into order d p s items props add) ≡ type_of d
unfolding merge_into merge_special
type_into order (schema docs dp ds d_all known di d_add) p s items props add h = rw h refl

mutual
  unfolding flatten_all_of_into flatten_each_into

  one_type :
      (order : List Text → List Text) (src dst : Schema)
      → is_empty (type_of dst) ≡ false
      → type_of (flatten_all_of_into order dst src).0 ≡ type_of dst
  one_type order (schema docs p s all_of props items add) dst h =
      let d = (flatten_each_into order dst all_of).0 in
      let same = each_type order all_of dst h in
      type_into order d p s items (merge_props order (props_of d) props).0
        (merge_additional order (additional_in d) add).0 (ap is_empty same ∙ h)
      ∙ same

  each_type :
      (order : List Text → List Text) (ss : Schemas) (dst : Schema)
      → is_empty (type_of dst) ≡ false
      → type_of (flatten_each_into order dst ss).0 ≡ type_of dst
  each_type order no_schemas dst h = refl
  each_type order (more s ss) dst h =
      let same = one_type order s dst h in
      each_type order ss (flatten_all_of_into order dst s).0 (ap is_empty same ∙ h) ∙ same

middle_not_nil : (xs ys zs : List Conflict) (c : Conflict) → ys ≡ (c ∷ []) → (xs ++ (ys ++ zs)) ≢ []
middle_not_nil [] [] zs c e h = cc
middle_not_nil [] (y ∷ ys) zs c e h = cc
middle_not_nil (x ∷ xs) ys zs c e h = cc

conflict_lem :
    (d s : Text)
    → is_empty d ≡ false
    → is_empty s ≡ false
    → eq_text s d ≡ false
    → type_conflict d s ≡ (record { dst_type = d; src_type = s } ∷ [])
unfolding type_conflict
conflict_lem d s hd hs he = rw (hd, hs, he) refl

-- Where both schemas have a type, the result has the destination's, and two different types are an
-- error.
pub flatten_all_of_into-type_of :
    (order : List Text → List Text) (dst src : Schema)
    → is_empty (type_of dst) ≡ false
    → is_empty (type_of src) ≡ false
    → (type_of (flatten_all_of_into order dst src).0 ≡ type_of dst)
      × (eq_text (type_of src) (type_of dst) ≡ false → (flatten_all_of_into order dst src).1 ≢ [])
unfolding flatten_all_of_into
flatten_all_of_into-type_of order dst (schema docs p s all_of props items add) hd hs = (
  one_type order (schema docs p s all_of props items add) dst hd,
  λ differ empty.
      let d = (flatten_each_into order dst all_of).0 in
      let same = each_type order all_of dst hd in
      middle_not_nil (flatten_each_into order dst all_of).1 (type_conflict (type_of d) s.type_name)
        ((merge_props order (props_of d) props).1
          ++ (merge_additional order (additional_in d) add).1)
        (record { dst_type = type_of d; src_type = s.type_name })
        (conflict_lem (type_of d) s.type_name (ap is_empty same ∙ hd) hs
          (ap (λ t. eq_text s.type_name t) same ∙ differ))
        empty,
)
