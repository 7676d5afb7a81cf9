-- ===== src/Crd/Flatten/Hoist.antt =====
-- What `merge_into` makes of two schemas: the merged fields with the two remainders accept what both
-- accept.
use controller_tools.Prelude.{
  or_false, ◌≡◌, refl, sym, ap, Bool, true, false, ◌&&◌, ◌||◌, List, [], if◌then◌else◌, any,
  is_empty, arith, Bool-cases, inl, inr,
}
use controller_tools.Text.{Text}
use controller_tools.Rbac.Rule.Laws.{IsOrder}
use controller_tools.Crd.Schema.{
  all_fields, Plain, Special, schema, Schemas, no_schemas, more, append_schemas, Props, Items,
  no_items, items_of, Additional, Docs,
}
use controller_tools.Crd.Schema.Constraints.{
  Constraints, plain_ok, special_ok, fits, fits_all, fits_props, fits_items, fits_additional,
}
use controller_tools.Crd.Flatten.{
  merge_scalar, hoists_scalar, hoists_count, merge_items, hoists_items, type_conflict,
  merge_special, keep_if, remainder, is_hoisted, hoisted, merge_into,
}
use controller_tools.Crd.Flatten.Scalars.{all-keep_if, kept_counts, plain_lem, special_lem}

pad : (a b c : Bool) → (a && b && c && true && true && true) ≡ (a && b && c)
pad a b c = ground arith

unpad : (a : Bool) → (a && true) ≡ a
unpad a = ground arith

both_true : (a b : Bool) → a ≡ true → b ≡ true → (a && b) ≡ true
both_true a b h k = ground arith

-- Two schemas' parts side by side.
weave :
    (p s i pd sd id ps ss is a h dall kp ks ki lp ls li : Bool)
    → (p && (kp && lp)) ≡ (pd && ps)
    → (s && (ks && ls)) ≡ (sd && ss)
    → (i && (ki && li)) ≡ (id && is)
    → h ≡ ((kp && ks && ki) && (lp && ls && li))
    → a ≡ (dall && h)
    → (p && s && i && a) ≡ ((pd && sd && id && dall) && (ps && ss && is))
weave p s i pd sd id ps ss is a h dall kp ks ki lp ls li e1 e2 e3 e4 e5 = ground arith

finish :
    (p s i a r b d e : Bool)
    → (p && s && i && a) ≡ (d && e)
    → (p && s && i && a && r && b) ≡ (d && e && r && b)
finish p s i a r b d e h = ground arith

module _ {V : Type 0} (m : Constraints V) (v : V) where
  pub fits_all-append :
      (ss ts : Schemas) → fits_all m (append_schemas ss ts) v ≡ (fits_all m ss v && fits_all m ts v)
  unfolding fits fits_all
  fits_all-append no_schemas ts = refl
  fits_all-append (more s ss) ts = rw (fits_all-append ss ts) (ground arith)

  abbrev kept_items : Items → Items → Items → Items
  kept_items di si i = if hoists_items di si then i else no_items

  items_lem :
      (di si : Items)
      → (fits_items m (merge_items di si) v
          && (fits_items m (kept_items di si di) v && fits_items m (kept_items di si si) v))
        ≡ (fits_items m di v && fits_items m si v)
  unfolding fits_items merge_items hoists_items
  items_lem di no_items = ground arith
  items_lem no_items (items_of s) = ground arith
  items_lem (items_of d) (items_of s) = refl

  -- The parts of a schema that the merge goes through field by field.
  abbrev pub own : Plain → Special → Items → Bool
  own p s i = plain_ok m p v && special_ok m s v && fits_items m i v

  abbrev kept : Plain → Plain → Plain → Plain
  kept dp sp p = λ f. keep_if (hoists_scalar f (dp f) (sp f)) (p f)

  abbrev kept_special : Special → Special → Special → Special
  kept_special ds ss s =
      kept_counts (hoists_count ds.min_properties ss.min_properties)
        (hoists_count ds.max_properties ss.max_properties) s

  remainder_lem :
      (p dp sp : Plain) (s ds ss : Special) (i di si : Items)
      → fits m (remainder p dp sp s ds ss i di si) v
        ≡ own (kept dp sp p) (kept_special ds ss s) (kept_items di si i)
  unfolding remainder fits fits_all fits_props fits_additional
  remainder_lem p dp sp s ds ss i di si =
      pad (plain_ok m (kept dp sp p) v) (special_ok m (kept_special ds ss s) v)
        (fits_items m (kept_items di si i) v)

  -- Without a conflict the remainders say nothing.
  kept_nothing :
      (dp sp p : Plain) (ds ss s : Special) (di si i : Items)
      → is_hoisted dp sp ds ss di si ≡ false
      → own (kept dp sp p) (kept_special ds ss s) (kept_items di si i) ≡ true
  unfolding is_hoisted fits_items
  kept_nothing dp sp p ds ss s di si i h =
      let any_plain = any (λ f. hoists_scalar f (dp f) (sp f)) all_fields in
      let low = hoists_count ds.min_properties ss.min_properties in
      let high = hoists_count ds.max_properties ss.max_properties in
      let (h1, held) = or_false (any_plain || low || high) (hoists_items di si) h in
      let (h2, at_high) = or_false (any_plain || low) high h1 in
      let (plain, at_low) = or_false any_plain low h2 in
      both_true (plain_ok m (kept dp sp p) v && special_ok m (kept_special ds ss s) v)
        (fits_items m (kept_items di si i) v)
        (both_true (plain_ok m (kept dp sp p) v) (special_ok m (kept_special ds ss s) v)
          (all-keep_if (λ f x. m.field_ok f x v) (λ f. hoists_scalar f (dp f) (sp f)) p all_fields
            plain)
          (rw (at_low, at_high) refl))
        (rw held refl)

  -- Both remainders, whether or not there was something to hoist.
  hoisted_lem :
      (dp sp : Plain) (ds ss : Special) (di si : Items)
      → fits_all m (hoisted dp sp ds ss di si) v ≡ (
          own (kept dp sp dp) (kept_special ds ss ds) (kept_items di si di)
          && own (kept dp sp sp) (kept_special ds ss ss) (kept_items di si si))
  unfolding hoisted fits_all
  hoisted_lem dp sp ds ss di si = elim (Bool-cases (is_hoisted dp sp ds ss di si)) [
    | inl e ↦
        rw (e, remainder_lem dp dp sp ds ds ss di di si, remainder_lem sp dp sp ss ds ss si di si)
          (ap (λ z. own (kept dp sp dp) (kept_special ds ss ds) (kept_items di si di) && z)
            (unpad (own (kept dp sp sp) (kept_special ds ss ss) (kept_items di si si))))
    | inr e ↦ rw e (
        sym (
          both_true (own (kept dp sp dp) (kept_special ds ss ds) (kept_items di si di))
            (own (kept dp sp sp) (kept_special ds ss ss) (kept_items di si si))
            (kept_nothing dp sp dp ds ss ds di si di e)
            (kept_nothing dp sp sp ds ss ss di si si e)))
  ]

  -- The merge of a schema and another's fields, but for their properties.
  pub merge_into_lem :
      (order : List Text → List Text) (docs : Docs) (dp p : Plain) (ds s : Special)
      (d_all : Schemas) (known props : Props) (di i : Items) (d_add add : Additional)
      → IsOrder order
      → type_conflict ds.type_name s.type_name ≡ []
      → (is_empty ds.enum || is_empty s.enum) ≡ true
      → fits m (merge_into order (schema docs dp ds d_all known di d_add) p s i props add) v ≡ (
          (own dp ds di && fits_all m d_all v)
          && own p s i
          && fits_props m props v
          && fits_additional m add v)
  unfolding merge_into fits
  merge_into_lem order docs dp p ds s d_all known props di i d_add add o same free =
      finish (plain_ok m (λ f. merge_scalar f (dp f) (p f)) v)
        (special_ok m (merge_special order ds s) v) (fits_items m (merge_items di i) v)
        (fits_all m (append_schemas d_all (hoisted dp p ds s di i)) v) (fits_props m props v)
        (fits_additional m add v) (own dp ds di && fits_all m d_all v) (own p s i)
        (weave (plain_ok m (λ f. merge_scalar f (dp f) (p f)) v)
          (special_ok m (merge_special order ds s) v) (fits_items m (merge_items di i) v)
          (plain_ok m dp v) (special_ok m ds v) (fits_items m di v) (plain_ok m p v)
          (special_ok m s v) (fits_items m i v)
          (fits_all m (append_schemas d_all (hoisted dp p ds s di i)) v)
          (fits_all m (hoisted dp p ds s di i) v) (fits_all m d_all v) (plain_ok m (kept dp p dp) v)
          (special_ok m (kept_special ds s ds) v) (fits_items m (kept_items di i di) v)
          (plain_ok m (kept dp p p) v) (special_ok m (kept_special ds s s) v)
          (fits_items m (kept_items di i i) v) (plain_lem m v dp p)
          (special_lem m v order ds s o same free) (items_lem di i) (hoisted_lem dp p ds s di i)
          (fits_all-append d_all (hoisted dp p ds s di i)))
