-- ===== src/Crd/Generate/Kinds.antt =====
-- Which kinds FindKubeKinds finds, and what FixTopLevelMetadata leaves of a schema.
use controller_tools.Prelude.{
  ℕ, ◌≡◌, ◌↔◌, Option-cases, ◌⊎◌, refl, sym, ap₂, ◌∙◌, ap, Bool, true, false, ◌&&◌, ◌||◌, Option,
  none, some, List, [], ◌∷◌, if◌then◌else◌, any, any-perm, arith, Bool-cases, inl, inr, map,
}
use controller_tools.Prelude.Sort.{any-sort_by}
use controller_tools.Rbac.Rule.Laws.{IsOrder}
use controller_tools.Text.{Text, codes, eq_text, eq_text_iff}
use controller_tools.Crd.Schema.{Schema, schema, Props, no_props, prop}
use controller_tools.Crd.Flatten.{props_of}
use controller_tools.Crd.Spec.{Version, Crd}
use controller_tools.Crd.Spec.Need.{GroupKind}
use controller_tools.Crd.Generate.{
  change_schema, EmbeddedType, named, unnamed, universe, is_meta, KnownType, is_kube_kind,
  group_kind_of, same_kind, add_kind, kube_kinds, find_kube_kinds, less_kind, plain_object,
  change_metadata, fix_top_level_metadata, in_props,
}

same_kind_iff : (a b : GroupKind) → same_kind a b ≡ true → a ≡ b
unfolding same_kind
same_kind_iff a b h = ground (arith, eq_text_iff a.group b.group, eq_text_iff a.kind b.kind)

absorb : (a b c : Bool) → a ≡ b → (b || c) ≡ (a || (b || c))
absorb a b c h = ground arith

swap_or : (a b c : Bool) → (b || (a || c)) ≡ (a || (b || c))
swap_or a b c = ground arith

any-add_kind :
    (p : GroupKind → Bool) (gk : GroupKind) (ks : List GroupKind)
    → any p (add_kind gk ks) ≡ (p gk || any p ks)
unfolding add_kind
any-add_kind p gk [] = refl
any-add_kind p gk (k ∷ ks) = elim (Bool-cases (same_kind gk k)) [
  | inl e ↦ rw e (absorb _ _ _ (ap p (same_kind_iff gk k e)))
  | inr e ↦ rw (e, any-add_kind p gk ks) (swap_or (p gk) (p k) (any p ks))
]

-- Whether some type of a kind that passes the test has both kinds of metadata.
abbrev some_kube_kind : (Text → Text) → Text → (GroupKind → Bool) → List KnownType → Bool
some_kube_kind non_vendor metav1 p types =
    any (λ t. is_kube_kind non_vendor metav1 t && p (group_kind_of t)) types

module _ (non_vendor : Text → Text) (metav1 : Text) (p : GroupKind → Bool) where
  any-kube_kinds :
      (types : List KnownType) (ks : List GroupKind)
      → any p (kube_kinds non_vendor metav1 types ks)
        ≡ (any p ks || some_kube_kind non_vendor metav1 p types)
  unfolding kube_kinds
  any-kube_kinds [] ks = or_none (any p ks)
    where
      or_none : (a : Bool) → a ≡ (a || false)
      or_none a = ground arith
  any-kube_kinds (t ∷ ts) ks = elim (Bool-cases (is_kube_kind non_vendor metav1 t)) [
    | inl e ↦
        rw
          (
            e,
            any-kube_kinds ts (add_kind (group_kind_of t) ks),
            any-add_kind p (group_kind_of t) ks,
          )
          (turn (p (group_kind_of t)) (any p ks) _)
    | inr e ↦ rw (e, any-kube_kinds ts ks) refl
  ]
    where
      turn : (a b c : Bool) → ((a || b) || c) ≡ (b || (a || c))
      turn a b c = ground arith

  any-find :
      (order : List GroupKind → List GroupKind) (types : List KnownType)
      → IsOrder order
      → any p (find_kube_kinds order non_vendor metav1 types)
        ≡ some_kube_kind non_vendor metav1 p types
  unfolding find_kube_kinds
  any-find order types o =
      any-sort_by less_kind p (order (kube_kinds non_vendor metav1 types []))
      ∙ any-perm p (o (kube_kinds non_vendor metav1 types []))
      ∙ any-kube_kinds types []

-- Some member of a list has a property.
abbrev pub Some : {A : Type 0} → (A → Type 0) → List A → Type 0
Some P [] = ⊥
Some P (x ∷ xs) = P x ⊎ Some P xs

any-Some :
    {A : Type 0} (p : A → Bool) (P : A → Type 0)
    → ((x : A) → (p x ≡ true) ↔ P x)
    → (xs : List A) → (any p xs ≡ true) ↔ Some P xs
any-Some p P h [] = ((λ e. absurd (ground (arith, e))), (λ n. elim n [ ]))
any-Some p P h (x ∷ xs) =
    let (to, from) = any-Some p P h xs in
    (
      (λ e. elim (Bool-cases (p x)) [
        | inl k ↦ inl ((h x).0 k)
        | inr k ↦ inr (to (later (p x) (any p xs) k e))
      ]),
      (λ n. elim n [ inl k ↦ ground (arith, (h x).1 k) | inr k ↦ ground (arith, from k) ]),
    )
  where
    later : (a b : Bool) → a ≡ false → (a || b) ≡ true → b ≡ true
    later a b k e = ground arith

false_not_true : false ≡ true → ⊥
false_not_true e = cc

cons_not_nil : {b : ℕ} {t : Text} → ◌≡◌ {A = Text} (b ∷ t) [] → ⊥
cons_not_nil e = cc

unnamed_not_named : {p n : Text} → unnamed ≡ named p n → ⊥
unnamed_not_named e = cc

universe_not_named : {p n : Text} → universe ≡ named p n → ⊥
universe_not_named e = cc

named_injective : {p n q k : Text} → named p n ≡ named q k → (p ≡ q) × (n ≡ k)
named_injective e = (cc, cc)

and_left : (a b : Bool) → (a && b) ≡ true → a ≡ true
and_left a b h = ground arith

and_right : (a b : Bool) → (a && b) ≡ true → b ≡ true
and_right a b h = ground arith

four_of :
    (a b c d : Bool)
    → ((a && b) && (c && d)) ≡ true
    → (a ≡ true) × (b ≡ true) × (c ≡ true) × (d ≡ true)
four_of a b c d e = (ground arith, ground arith, ground arith, ground arith)

all_four :
    (a b c d : Bool) → a ≡ true → b ≡ true → c ≡ true → d ≡ true → ((a && b) && (c && d)) ≡ true
all_four a b c d h i j k = ground arith

-- A field of a type is embedded and has the type of that name in the package metav1.
abbrev pub IsMetaField : (Text → Text) → Text → Text → KnownType → Text × EmbeddedType → Type 0
IsMetaField non_vendor metav1 name t (field_name, type) =
    (path : Text) × (field_name ≡ [])
    × (type ≡ named path name)
    × (t.imports (non_vendor path) ≡ some metav1)

-- A type of a kind that embeds both kinds of metadata.
abbrev pub IsKubeType : (Text → Text) → Text → GroupKind → KnownType → Type 0
IsKubeType non_vendor metav1 gk t =
    (t.group ≡ gk.group)
    × (t.type_name ≡ gk.kind)
    × Some (IsMetaField non_vendor metav1 (codes "ObjectMeta") t) t.fields
    × Some (IsMetaField non_vendor metav1 (codes "TypeMeta") t) t.fields

module _ (non_vendor : Text → Text) (metav1 : Text) where
  imported :
      (name : Text) (t : KnownType) (path type_name id : Text)
      → t.imports (non_vendor path) ≡ some id
      → is_meta non_vendor metav1 name t ([], named path type_name)
        ≡ (eq_text id metav1 && eq_text type_name name)
  unfolding is_meta
  imported name t path type_name id i = rw (i, is_meta) refl

  is_meta_iff :
      (name : Text) (t : KnownType) (field : Text × EmbeddedType)
      → (is_meta non_vendor metav1 name t field ≡ true) ↔ IsMetaField non_vendor metav1 name t field
  unfolding is_meta
  is_meta_iff name t (b ∷ field_name, type) =
      ((λ e. absurd (false_not_true e)), (λ m. absurd (cons_not_nil m.1)))
  is_meta_iff name t ([], unnamed) =
      ((λ e. absurd (false_not_true e)), (λ m. absurd (unnamed_not_named m.2)))
  is_meta_iff name t ([], universe) =
      ((λ e. absurd (false_not_true e)), (λ m. absurd (universe_not_named m.2)))
  is_meta_iff name t ([], named path type_name) = (
    (λ e. elim (Option-cases (t.imports (non_vendor path))) [
      | inl n ↦ absurd (false_not_true (sym (rw (n, is_meta) refl) ∙ e))
      | inr (id, i) ↦
          (let f = sym (imported name t path type_name id i) ∙ e in
            (
              path,
              refl,
              ap (named path) ((eq_text_iff type_name name).0 (and_right _ _ f)),
              i ∙ ap some ((eq_text_iff id metav1).0 (and_left _ _ f)),
            ))
    ]),
    (λ m.
        let (p, nil, same, i) = m in
        let (at, is) = named_injective same in
        imported name t path type_name metav1 (ap (λ q. t.imports (non_vendor q)) at ∙ i)
        ∙ ground (arith, (eq_text_iff metav1 metav1).1 refl, (eq_text_iff type_name name).1 is)),
  )

  is_kube_kind_iff :
      (gk : GroupKind) (t : KnownType)
      → ((is_kube_kind non_vendor metav1 t && same_kind gk (group_kind_of t)) ≡ true)
        ↔ IsKubeType non_vendor metav1 gk t
  unfolding is_kube_kind same_kind
  is_kube_kind_iff gk t =
      let o =
        any-Some (is_meta non_vendor metav1 (codes "ObjectMeta") t)
          (IsMetaField non_vendor metav1 (codes "ObjectMeta") t)
          (is_meta_iff (codes "ObjectMeta") t) t.fields in
      let k =
        any-Some (is_meta non_vendor metav1 (codes "TypeMeta") t)
          (IsMetaField non_vendor metav1 (codes "TypeMeta") t) (is_meta_iff (codes "TypeMeta") t)
          t.fields in
      let g = eq_text_iff gk.group t.group in
      let n = eq_text_iff gk.kind t.type_name in
      (
        (λ e. let (a, b, c, d) = four_of _ _ _ _ e in (sym (g.0 c), sym (n.0 d), o.0 a, k.0 b)),
        (λ h. all_four _ _ _ _ (o.1 h.2) (k.1 h.3) (g.1 (sym h.0)) (n.1 (sym h.1))),
      )

  -- In whatever order the types and the found kinds are gone through, FindKubeKinds returns a kind exactly
  -- if some type of that group and name has an embedded ObjectMeta and an embedded TypeMeta, both of the
  -- package metav1 as the type's package imports it.
  pub find_kube_kinds_iff :
      (order : List GroupKind → List GroupKind) (types : List KnownType) (gk : GroupKind)
      → IsOrder order
      → (any (same_kind gk) (find_kube_kinds order non_vendor metav1 types) ≡ true)
        ↔ Some (IsKubeType non_vendor metav1 gk) types
  find_kube_kinds_iff order types gk o =
      let e = any-find non_vendor metav1 (same_kind gk) order types o in
      let (to, from) =
        any-Some (λ t. is_kube_kind non_vendor metav1 t && same_kind gk (group_kind_of t))
          (IsKubeType non_vendor metav1 gk) (is_kube_kind_iff gk) types in
      ((λ h. to (sym e ∙ h)), (λ h. e ∙ from h))

-- `Properties[name]`
abbrev pub property : Text → Props → Option Schema
property name no_props = none
property name (prop k s ps) = if eq_text k name then some s else property name ps

-- The value of a property after a write at `metadata`.
abbrev pub changed : (Schema → Schema) → Bool → Option Schema → Option Schema
changed f here none = none
changed f here (some s) = if here then some (f s) else some s

unchanged : (f : Schema → Schema) (o : Option Schema) → o ≡ changed f false o
unchanged f none = refl
unchanged f (some s) = refl

others :
    (k name other : Text)
    → eq_text k other ≡ true
    → eq_text k name ≡ false
    → eq_text name other ≡ false
others k name other h e =
    ground (arith, eq_text_iff k other, eq_text_iff k name, eq_text_iff name other)

same_text : (k name other : Text) → eq_text k name ≡ true → eq_text name other ≡ eq_text k other
same_text k name other h = rw (sym ((eq_text_iff k name).0 h)) refl

property-change_metadata :
    (f : Schema → Schema) (name : Text) (ps : Props)
    → property name (change_metadata f ps)
      ≡ changed f (eq_text name (codes "metadata")) (property name ps)
unfolding change_metadata
property-change_metadata f name no_props = refl
property-change_metadata f name (prop k s ps) = elim (Bool-cases (eq_text k name)) [
  | inl e ↦ rw (e, same_text k name (codes "metadata") e) (hit e (eq_text k (codes "metadata")))
  | inr e ↦ elim (Bool-cases (eq_text k (codes "metadata"))) [
    | inl m ↦ rw (m, e, others k name (codes "metadata") m e) (unchanged f (property name ps))
    | inr m ↦ rw (m, e) (property-change_metadata f name ps)
  ]
]
  where
    hit :
        eq_text k name ≡ true
        → (b : Bool)
        → property name (if b then prop k (f s) ps else prop k s (change_metadata f ps))
          ≡ changed f b (some s)
    hit e true = rw e refl
    hit e false = rw e refl

property-in_props :
    (f : Schema → Schema) (name : Text) (s : Schema)
    → property name (props_of (in_props (change_metadata f) s))
      ≡ changed f (eq_text name (codes "metadata")) (property name (props_of s))
unfolding in_props
property-in_props f name (schema docs p s all_of props items add) =
    property-change_metadata f name props

properties :
    (f : Schema → Schema) (name : Text) (vs : List Version)
    → map
        (λ v. property name (props_of v.open_api_schema))
        (map (change_schema (in_props (change_metadata f))) vs)
      ≡ map
          (λ v.
            changed f
              (eq_text name (codes "metadata"))
              (property name (props_of v.open_api_schema)))
          vs
properties f name [] = refl
properties f name (v ∷ vs) =
    ap₂ (λ a b. a ∷ b) (property-in_props f name v.open_api_schema) (properties f name vs)

-- In each version of a CRD, FixTopLevelMetadata makes the property metadata a plain object if it is
-- there, and leaves every other property as it is.
pub property-fix_top_level_metadata :
    (name : Text) (crd : Crd)
    → map (λ v. property name (props_of v.open_api_schema)) (fix_top_level_metadata crd).versions
      ≡ map
          (λ v.
            changed
              (λ s. plain_object)
              (eq_text name (codes "metadata"))
              (property name (props_of v.open_api_schema)))
          crd.versions
unfolding fix_top_level_metadata
property-fix_top_level_metadata name crd = properties (λ s. plain_object) name crd.versions
