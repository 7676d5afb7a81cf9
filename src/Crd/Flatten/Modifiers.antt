-- ===== src/Crd/Flatten/Modifiers.antt =====
-- The flattening sets no modifier in schemas that have none, and such schemas accept what fits them.
use controller_tools.Prelude.{
  ◌≡◌, refl, fun_ext, ap, ap₂, Bool, true, false, ◌&&◌, Option, none, List, if◌then◌else◌,
  Bool-cases, inl, inr,
}
use controller_tools.Text.{Text, eq_text}
use controller_tools.Crd.Schema.{
  Field, Scalar, Plain, no_plain, Special, Schema, schema, Schemas, no_schemas, more,
  append_schemas, Props, no_props, prop, Items, no_items, items_of, Additional, no_additional,
  any_additional, additional_of, empty_schema,
}
use controller_tools.Crd.Schema.Constraints.{
  fits, fits_all, fits_props, fits_items, fits_additional, unless_none,
}
use controller_tools.Crd.Schema.Meaning.{
  Meaning, is_modifier, modifiers, accepts, accepts_all, accepts_props, accepts_items,
  accepts_additional, NoModifiers, Unmodified, UnmodifiedAll, UnmodifiedProps, UnmodifiedItems,
  UnmodifiedAdditional,
}
use controller_tools.Crd.Flatten.{
  Conflict, merge_scalar, merge_items, keep_if, remainder, hoisted, is_hoisted, hoists_scalar,
  hoists_items, merge_into, props_of, additional_in, update_prop, flatten_all_of_into,
  flatten_each_into, merge_props, merge_additional,
}
use controller_tools.Crd.Flatten.Scalars.{all_ext}

none_of : (p : Plain) → NoModifiers p → modifiers p ≡ no_plain
none_of p h = fun_ext (λ f. at f)
  where
    at : (f : Field) → modifiers p f ≡ none
    at f = elim (Bool-cases (is_modifier f)) [ inl e ↦ rw e (h f e) | inr e ↦ rw e refl ]

module _ {V : Type 0} (m : Meaning V) where
  mutual
    unfolding accepts fits Unmodified

    pub accepts-fits : (s : Schema) (v : V) → Unmodified s → accepts m s v ≡ fits (m no_plain) s v
    accepts-fits (schema docs p s all_of props items add) v h =
        rw
          (
            none_of p h.0,
            all_fit all_of v h.1,
            props_fit props v h.2,
            items_fit items v h.3,
            additional_fit add v h.4,
          )
          refl

    all_fit :
        (ss : Schemas) (v : V) → UnmodifiedAll ss → accepts_all m ss v ≡ fits_all (m no_plain) ss v
    all_fit no_schemas v h = refl
    all_fit (more s ss) v h = ap₂ (λ a b. a && b) (accepts-fits s v h.0) (all_fit ss v h.1)

    props_fit :
        (ps : Props) (v : V)
        → UnmodifiedProps ps
        → accepts_props m (m no_plain) ps v ≡ fits_props (m no_plain) ps v
    props_fit no_props v h = refl
    props_fit (prop k s ps) v h =
        ap₂ (λ a b. a && b)
          (ap (λ q. unless_none q ((m no_plain).property k v))
            (fun_ext (λ w. accepts-fits s w h.0)))
          (props_fit ps v h.1)

    items_fit :
        (i : Items) (v : V)
        → UnmodifiedItems i
        → accepts_items m (m no_plain) i v ≡ fits_items (m no_plain) i v
    items_fit no_items v h = refl
    items_fit (items_of s) v h =
        all_ext (λ w. accepts m s w) (λ w. fits (m no_plain) s w) ((m no_plain).list_elements v)
          (λ w. accepts-fits s w h)

    additional_fit :
        (a : Additional) (v : V)
        → UnmodifiedAdditional a
        → accepts_additional m (m no_plain) a v ≡ fits_additional (m no_plain) a v
    additional_fit no_additional v h = refl
    additional_fit any_additional v h = refl
    additional_fit (additional_of s) v h =
        all_ext (λ w. accepts m s w) (λ w. fits (m no_plain) s w) ((m no_plain).map_elements v)
          (λ w. accepts-fits s w h)

-- The flattening of schemas without modifiers.
keep_none : (b : Bool) (o : Option Scalar) → o ≡ none → keep_if b o ≡ none
keep_none true o h = h
keep_none false o h = refl

keep_items :
    (b : Bool) (i : Items) → UnmodifiedItems i → UnmodifiedItems (if b then i else no_items)
unfolding Unmodified
keep_items true i h = h
keep_items false i h = tt

remainder-Unmodified :
    (p dp sp : Plain) (s ds ss : Special) (i di si : Items)
    → NoModifiers p
    → UnmodifiedItems i
    → Unmodified (remainder p dp sp s ds ss i di si)
unfolding remainder Unmodified
remainder-Unmodified p dp sp s ds ss i di si h k = (
  (λ f e. keep_none (hoists_scalar f (dp f) (sp f)) (p f) (h f e)),
  tt,
  tt,
  keep_items (hoists_items di si) i k,
  tt,
)

append-Unmodified :
    (ss ts : Schemas) → UnmodifiedAll ss → UnmodifiedAll ts → UnmodifiedAll (append_schemas ss ts)
unfolding Unmodified
append-Unmodified no_schemas ts h k = k
append-Unmodified (more s ss) ts h k = (h.0, append-Unmodified ss ts h.1 k)

hoisted-Unmodified :
    (dp sp : Plain) (ds ss : Special) (di si : Items)
    → NoModifiers dp
    → NoModifiers sp
    → UnmodifiedItems di
    → UnmodifiedItems si
    → UnmodifiedAll (hoisted dp sp ds ss di si)
unfolding hoisted Unmodified
hoisted-Unmodified dp sp ds ss di si h k hi ki = elim (Bool-cases (is_hoisted dp sp ds ss di si)) [
  | inl e ↦ rw e (
    remainder-Unmodified dp dp sp ds ds ss di di si h hi,
    (remainder-Unmodified sp dp sp ss ds ss si di si k ki, tt),
  )
  | inr e ↦ rw e tt
]

merge_items-Unmodified :
    (d s : Items) → UnmodifiedItems d → UnmodifiedItems s → UnmodifiedItems (merge_items d s)
unfolding merge_items Unmodified
merge_items-Unmodified d no_items h k = h
merge_items-Unmodified no_items (items_of s) h k = k
merge_items-Unmodified (items_of d) (items_of s) h k = tt

merge_into-Unmodified :
    (order : List Text → List Text) (d : Schema) (p : Plain) (s : Special) (items : Items)
    (props : Props) (add : Additional)
    → Unmodified d
    → NoModifiers p
    → UnmodifiedItems items
    → UnmodifiedProps props
    → UnmodifiedAdditional add
    → Unmodified (merge_into order d p s items props add)
unfolding merge_into Unmodified merge_scalar
merge_into-Unmodified order (schema docs dp ds d_all known di d_add) p s items props add h k i ps
      a =
    (
      (λ f e. ap₂ (merge_scalar f) (h.0 f e) (k f e)),
      append-Unmodified d_all _ h.1 (hoisted-Unmodified dp p ds s di items h.0 k h.3 i),
      ps,
      merge_items-Unmodified di items h.3 i,
      a,
    )

props_of-Unmodified : (s : Schema) → Unmodified s → UnmodifiedProps (props_of s)
unfolding Unmodified
props_of-Unmodified (schema docs p s all_of props items add) h = h.2

additional_in-Unmodified : (s : Schema) → Unmodified s → UnmodifiedAdditional (additional_in s)
unfolding Unmodified
additional_in-Unmodified (schema docs p s all_of props items add) h = h.4

update_prop-Unmodified :
    (k : Text) (into : Schema → Schema × List Conflict) (fresh : Schema) (ps : Props)
    → ((old : Schema) → Unmodified old → Unmodified (into old).0)
    → Unmodified fresh
    → UnmodifiedProps ps
    → UnmodifiedProps (update_prop k into fresh ps).0
unfolding update_prop Unmodified
update_prop-Unmodified k into fresh no_props f h hs = (h, tt)
update_prop-Unmodified k into fresh (prop j d ps) f h hs = elim (Bool-cases (eq_text k j)) [
  | inl e ↦ rw e (f d hs.0, hs.1)
  | inr e ↦ rw e (hs.0, update_prop-Unmodified k into fresh ps f h hs.1)
]

module _ (order : List Text → List Text) where
  mutual
    unfolding flatten_all_of_into Unmodified

    pub flatten_all_of_into-Unmodified :
        (src dst : Schema)
        → Unmodified dst
        → Unmodified src
        → Unmodified (flatten_all_of_into order dst src).0
    flatten_all_of_into-Unmodified (schema docs p s all_of props items add) dst h k =
        let d = flatten_each_into-Unmodified all_of dst h k.1 in
        merge_into-Unmodified order _ p s items _ _ d k.0 k.3
          (merge_props-Unmodified props _ (props_of-Unmodified _ d) k.2)
          (merge_additional-Unmodified add _ (additional_in-Unmodified _ d) k.4)

    pub flatten_each_into-Unmodified :
        (ss : Schemas) (dst : Schema)
        → Unmodified dst
        → UnmodifiedAll ss
        → Unmodified (flatten_each_into order dst ss).0
    flatten_each_into-Unmodified no_schemas dst h k = h
    flatten_each_into-Unmodified (more s ss) dst h k =
        flatten_each_into-Unmodified ss _ (flatten_all_of_into-Unmodified s dst h k.0) k.1

    merge_props-Unmodified :
        (ps dst : Props)
        → UnmodifiedProps dst
        → UnmodifiedProps ps
        → UnmodifiedProps (merge_props order dst ps).0
    merge_props-Unmodified no_props dst h k = h
    merge_props-Unmodified (prop j s ps) dst h k =
        merge_props-Unmodified ps _
          (update_prop-Unmodified j (λ old. flatten_all_of_into order old s) s dst
            (λ old u. flatten_all_of_into-Unmodified s old u k.0) k.0 h)
          k.1

    merge_additional-Unmodified :
        (add dst : Additional)
        → UnmodifiedAdditional dst
        → UnmodifiedAdditional add
        → UnmodifiedAdditional (merge_additional order dst add).0
    merge_additional-Unmodified no_additional dst h k = h
    merge_additional-Unmodified any_additional no_additional h k = tt
    merge_additional-Unmodified any_additional any_additional h k = tt
    merge_additional-Unmodified any_additional (additional_of d) h k = h
    merge_additional-Unmodified (additional_of s) no_additional h k = k
    merge_additional-Unmodified (additional_of s) any_additional h k =
        flatten_all_of_into-Unmodified s empty_schema (λ f e. refl, tt, tt, tt, tt) k
    merge_additional-Unmodified (additional_of s) (additional_of d) h k =
        flatten_all_of_into-Unmodified s d h k
