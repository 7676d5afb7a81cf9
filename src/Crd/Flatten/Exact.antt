-- ===== src/Crd/Flatten/Exact.antt =====
-- The flattening keeps what fits a schema: `flattenAllOfInto`, the visit of a schema and the schema
-- that `preserveFields` makes of a field's type and markers.
use controller_tools.Prelude.{
  or_false, ◌≡◌, refl, sym, ap, ◌∙◌, false, ◌&&◌, ◌||◌, List, [], ◌++◌, arith,
}
use controller_tools.Text.{Text}
use controller_tools.Rbac.Rule.Laws.{IsOrder}
use controller_tools.Crd.Schema.{
  Schema, schema, Schemas, no_schemas, more, Props, no_props, prop, Additional, no_additional,
  any_additional, additional_of, empty_schema,
}
use controller_tools.Crd.Schema.Constraints.{
  Constraints, all, fits, fits_all, fits_props, fits_additional,
}
use controller_tools.Crd.Flatten.{
  Conflict, type_conflict, merge_into, props_of, special_of, additional_in, update_prop,
  flatten_all_of_into, flatten_each_into, merge_props, merge_additional, visit_all_of,
}
use controller_tools.Crd.Flatten.Drops.{
  both_enums, drops_in, drops_enum, drops_each, drops_props, drops_additional,
}
use controller_tools.Crd.Flatten.Parts.{
  append_nil, by_parts, by_merge, assemble, and_true, chain, move, rest_ok, holds, update_prop_lem,
  empty_schema_lem,
}
use controller_tools.Crd.Flatten.Scalars.{all-and, all_ext}
use controller_tools.Crd.Flatten.Hoist.{own}

module _ {V : Type 0} (m : Constraints V) (order : List Text → List Text) (o : IsOrder order) where
  mutual
    unfolding flatten_all_of_into flatten_each_into merge_props merge_additional drops_enum
        drops_each drops_props drops_additional fits fits_all fits_props fits_additional

    whole :
        (src dst : Schema) (v : V)
        → (flatten_all_of_into order dst src).1 ≡ []
        → drops_enum order dst src ≡ false
        → fits m (flatten_all_of_into order dst src).0 v ≡ (fits m dst v && fits m src v)
    whole (schema docs p s all_of props items add) dst v ok kept =
        let d = (flatten_each_into order dst all_of).0 in
        let ps = merge_props order (props_of d) props in
        let ad = merge_additional order (additional_in d) add in
        let types = type_conflict (special_of d).type_name s.type_name in
        let (ok_each, ok1) =
          append_nil (flatten_each_into order dst all_of).1 (types ++ (ps.1 ++ ad.1)) ok in
        let (ok_types, ok2) = append_nil types (ps.1 ++ ad.1) ok1 in
        let (ok_props, ok_add) = append_nil ps.1 ad.1 ok2 in
        let in_each = drops_each order dst all_of in
        let here = both_enums (special_of d) s in
        let in_props = drops_props order (props_of d) props in
        let in_add = drops_additional order (additional_in d) add in
        let (kept1, kept_add) = or_false (in_each || here || in_props) in_add kept in
        let (kept2, kept_props) = or_false (in_each || here) in_props kept1 in
        let (kept_each, kept_here) = or_false in_each here kept2 in
        assemble (fits m (merge_into order d p s items ps.0 ad.0) v) (rest_ok m d v)
          (own m v p s items) (fits_props m ps.0 v) (fits_props m (props_of d) v)
          (fits_props m props v) (fits_additional m ad.0 v) (fits_additional m (additional_in d) v)
          (fits_additional m add v) (fits m dst v) (fits_all m all_of v)
          (by_merge m v order d p s ps.0 items ad.0 o ok_types kept_here)
          (sym (by_parts m d v) ∙ each all_of dst v ok_each kept_each)
          (named props (props_of d) v ok_props kept_props)
          (extra add (additional_in d) v ok_add kept_add)

    each :
        (ss : Schemas) (dst : Schema) (v : V)
        → (flatten_each_into order dst ss).1 ≡ []
        → drops_each order dst ss ≡ false
        → fits m (flatten_each_into order dst ss).0 v ≡ (fits m dst v && fits_all m ss v)
    each no_schemas dst v ok kept = sym (and_true (fits m dst v))
    each (more s ss) dst v ok kept =
        let d = flatten_all_of_into order dst s in
        let (ok1, ok2) = append_nil d.1 (flatten_each_into order d.0 ss).1 ok in
        let (kept1, kept2) = or_false (drops_enum order dst s) (drops_each order d.0 ss) kept in
        chain (fits m (flatten_each_into order d.0 ss).0 v) (fits m d.0 v) (fits m dst v)
          (fits m s v) (fits_all m ss v) (each ss d.0 v ok2 kept2) (whole s dst v ok1 kept1)

    named :
        (ps dst : Props) (v : V)
        → (merge_props order dst ps).1 ≡ []
        → drops_props order dst ps ≡ false
        → fits_props m (merge_props order dst ps).0 v ≡ (fits_props m dst v && fits_props m ps v)
    named no_props dst v ok kept = sym (and_true (fits_props m dst v))
    named (prop k s ps) dst v ok kept =
        let into : Schema → Schema × List Conflict = λ old. flatten_all_of_into order old s in
        let d = update_prop k into s dst in
        let (ok1, ok2) = append_nil d.1 (merge_props order d.0 ps).1 ok in
        let (kept1, kept2) =
          or_false (drops_in k (λ old. drops_enum order old s) dst) (drops_props order d.0 ps)
            kept in
        chain (fits_props m (merge_props order d.0 ps).0 v) (fits_props m d.0 v)
          (fits_props m dst v) (holds m k s v) (fits_props m ps v) (named ps d.0 v ok2 kept2)
          (update_prop_lem m k into (λ old. drops_enum order old s) s dst v (λ old w. whole s old w)
            ok1 kept1)

    extra :
        (add dst : Additional) (v : V)
        → (merge_additional order dst add).1 ≡ []
        → drops_additional order dst add ≡ false
        → fits_additional m (merge_additional order dst add).0 v
          ≡ (fits_additional m dst v && fits_additional m add v)
    extra no_additional dst v ok kept = ground arith
    extra any_additional no_additional v ok kept = refl
    extra any_additional any_additional v ok kept = refl
    extra any_additional (additional_of d) v ok kept =
        sym (and_true (all (λ w. fits m d w) (m.map_elements v)))
    extra (additional_of s) no_additional v ok kept = refl
    extra (additional_of s) any_additional v ok kept =
        all_ext (λ w. fits m (flatten_all_of_into order empty_schema s).0 w) (λ w. fits m s w)
          (m.map_elements v)
          (λ w. whole s empty_schema w ok kept ∙ ap (λ b. b && fits m s w) (empty_schema_lem m w))
    extra (additional_of s) (additional_of d) v ok kept =
        all_ext (λ w. fits m (flatten_all_of_into order d s).0 w) (λ w. fits m d w && fits m s w)
          (m.map_elements v) (λ w. whole s d w ok kept)
        ∙ all-and (λ w. fits m d w) (λ w. fits m s w) (m.map_elements v)

-- If the flattening of a schema into another records no conflict and meets no two enums, exactly the
-- values fit the result that fit both schemas.
pub fits-flatten_all_of_into :
    {V : Type 0}
    → (m : Constraints V) (order : List Text → List Text) (dst src : Schema) (v : V) → IsOrder order
    → (flatten_all_of_into order dst src).1 ≡ []
    → drops_enum order dst src ≡ false
    → fits m (flatten_all_of_into order dst src).0 v ≡ (fits m dst v && fits m src v)
fits-flatten_all_of_into m order dst src v o ok kept = whole m order o src dst v ok kept

abbrev pub all_of_in : Schema → Schemas
all_of_in (schema docs p s all_of props items add) = all_of

abbrev pub without_all_of : Schema → Schema
without_all_of (schema docs p s all_of props items add) = schema docs p s no_schemas props items add

split_all_of :
    {V : Type 0}
    → (m : Constraints V) (s : Schema) (v : V)
    → (fits m (without_all_of s) v && fits_all m (all_of_in s) v) ≡ fits m s v
unfolding fits fits_all
split_all_of m (schema docs p s all_of props items add) v =
    move (own m v p s items) (fits_all m all_of v) (fits_props m props v) (fits_additional m add v)

-- The visit of a schema keeps what fits it, if it records no conflict and meets no two enums.
pub fits-visit_all_of :
    {V : Type 0}
    → (m : Constraints V) (order : List Text → List Text) (s : Schema) (v : V) → IsOrder order
    → (visit_all_of order s).1 ≡ []
    → drops_each order (without_all_of s) (all_of_in s) ≡ false
    → fits m (visit_all_of order s).0 v ≡ fits m s v
unfolding visit_all_of
fits-visit_all_of m order (schema docs p s all_of props items add) v o ok kept =
    each m order o all_of (schema docs p s no_schemas props items add) v ok kept
    ∙ split_all_of m (schema docs p s all_of props items add) v
