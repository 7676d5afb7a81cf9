-- ===== src/Crd/Flatten/Parts.antt =====
-- The parts of schemas that a flattening goes through one by one, and the case "Properties".
use controller_tools.Prelude.{
  ◌≡◌, refl, ap, Bool, true, false, ◌&&◌, Option, none, some, List, [], ◌∷◌, ◌++◌, arith,
  Bool-cases, inl, inr,
}
use controller_tools.Text.{Text, eq_text, eq_text_iff}
use controller_tools.Rbac.Rule.Laws.{IsOrder}
use controller_tools.Crd.Schema.{
  Plain, Special, Schema, schema, Props, no_props, prop, Items, Additional, empty_schema,
}
use controller_tools.Crd.Schema.Constraints.{
  Constraints, unless_none, fits, fits_all, fits_props, fits_additional,
}
use controller_tools.Crd.Flatten.{
  Conflict, type_conflict, merge_into, props_of, special_of, additional_in, update_prop,
}
use controller_tools.Crd.Flatten.Drops.{both_enums, drops_in}
use controller_tools.Crd.Flatten.Hoist.{own, merge_into_lem}

pub append_nil {ℓ} : {A : Type ℓ} (xs ys : List A) → (xs ++ ys) ≡ [] → (xs ≡ []) × (ys ≡ [])
append_nil [] ys h = (refl, h)
append_nil (x ∷ xs) ys h = cc

-- The parts of a schema that `merge_into` replaces, and the others.
abbrev pub rest_ok : {V : Type 0} → Constraints V → Schema → V → Bool
rest_ok m (schema docs p s all_of props items add) v = own m v p s items && fits_all m all_of v

pub by_parts :
    {V : Type 0}
    → (m : Constraints V) (d : Schema) (v : V)
    → fits m d v
      ≡ (rest_ok m d v && fits_props m (props_of d) v && fits_additional m (additional_in d) v)
unfolding fits
by_parts m (schema docs p s all_of props items add) v = refl

pub by_merge :
    {V : Type 0}
    → (m : Constraints V) (v : V) (order : List Text → List Text) (d : Schema) (p : Plain)
      (s : Special) (props : Props) (i : Items) (add : Additional)
    → IsOrder order
    → type_conflict (special_of d).type_name s.type_name ≡ []
    → both_enums (special_of d) s ≡ false
    → fits m (merge_into order d p s i props add) v
      ≡ (rest_ok m d v && own m v p s i && fits_props m props v && fits_additional m add v)
by_merge m v order (schema docs dp ds d_all known di d_add) p s props i add o same kept =
    merge_into_lem m v order docs dp p ds s d_all known props di i d_add add o same (ground arith)

-- The two schemas' parts, each embedded schema counted once.
pub assemble :
    (t r o p p1 p2 a a1 a2 d l : Bool)
    → t ≡ (r && o && p && a)
    → (r && p1 && a1) ≡ (d && l)
    → p ≡ (p1 && p2)
    → a ≡ (a1 && a2)
    → t ≡ (d && (o && l && p2 && a2))
assemble t r o p p1 p2 a a1 a2 d l e1 e2 e3 e4 = ground arith

pub and_true : (a : Bool) → (a && true) ≡ a
and_true a = ground arith

pub chain : (e d a b c : Bool) → e ≡ (d && c) → d ≡ (a && b) → e ≡ (a && (b && c))
chain e d a b c h k = ground arith

pub move : (o l p a : Bool) → ((o && true && p && a) && l) ≡ (o && l && p && a)
move o l p a = ground arith

pub swap : (d d1 d2 e r : Bool) → d ≡ (d1 && d2) → e ≡ d2 → (d && r) ≡ (d1 && r && e)
swap d d1 d2 e r h k = ground arith

pub pass : (r d e q : Bool) → r ≡ (q && e) → (d && r) ≡ (d && q && e)
pass r d e q h = ground arith

module _ {V : Type 0} (m : Constraints V) where
  abbrev pub Flattens : (Schema → Schema × List Conflict) → (Schema → Bool) → Schema → Type 0
  Flattens f drops s =
      (d : Schema) (w : V)
      → (f d).1 ≡ []
      → drops d ≡ false
      → fits m (f d).0 w ≡ (fits m d w && fits m s w)

  abbrev pub holds : Text → Schema → V → Bool
  holds k s v = unless_none (λ w. fits m s w) (m.property k v)

  same_property :
      (j : Text) (a b c : Schema) (v : V)
      → ((w : V) → fits m a w ≡ (fits m b w && fits m c w))
      → holds j a v ≡ (holds j b v && holds j c v)
  same_property j a b c v h = go (m.property j v) h
    where
      go :
          (q : Option V)
          → ((w : V) → fits m a w ≡ (fits m b w && fits m c w))
          → unless_none (λ w. fits m a w) q
            ≡ (unless_none (λ w. fits m b w) q && unless_none (λ w. fits m c w) q)
      go none h = refl
      go (some w) h = h w

  pub update_prop_lem :
      (k : Text) (f : Schema → Schema × List Conflict) (drops : Schema → Bool) (s : Schema)
      (ps : Props) (v : V)
      → Flattens f drops s
      → (update_prop k f s ps).1 ≡ []
      → drops_in k drops ps ≡ false
      → fits_props m (update_prop k f s ps).0 v ≡ (fits_props m ps v && holds k s v)
  unfolding update_prop fits_props
  update_prop_lem k f drops s no_props v h ok kept = ground arith
  update_prop_lem k f drops s (prop j d ps) v h ok kept = elim (Bool-cases (eq_text k j)) [
    | inl e ↦ rw e (
        swap (holds j (f d).0 v) (holds j d v) (holds j s v) (holds k s v) (fits_props m ps v)
          (same_property j (f d).0 d s v (λ w. h d w (rw (e, update_prop) at ok) (rw e at kept)))
          (ap (λ i. holds i s v) ((eq_text_iff k j).0 e)))
    | inr e ↦ rw e (
        pass (fits_props m (update_prop k f s ps).0 v) (holds j d v) (holds k s v)
          (fits_props m ps v)
          (update_prop_lem k f drops s ps v h (rw (e, update_prop) at ok) (rw e at kept)))
  ]

  pub empty_schema_lem : (w : V) → fits m empty_schema w ≡ true
  unfolding fits
  empty_schema_lem w = refl
