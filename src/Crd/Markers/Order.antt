-- ===== src/Crd/Markers/Order.antt =====
-- The order in which `applyMarkers` applies markers: those that set a schema's type come before those
-- that look at it.
use controller_tools.Prelude.{
  ℕ, ◌≤◌, ◌≡◌, refl, sym, ap, subst, ◌∙◌, Bool, true, false, Option, List, [], ◌∷◌, ◌++◌, any, All,
  Bool-cases, inl, inr, arith,
}
use controller_tools.Prelude.Result.{Result-cases}
use controller_tools.Prelude.Sort.{insert_stable, sort_by, any-sort_by}
use controller_tools.Crd.Schema.{Field, Schema}
use controller_tools.Crd.Markers.{Outside, TypeContext, Marker, type_of, plain_of}
use controller_tools.Crd.Markers.Marker.{type_marker, x_int_or_string, k8s_enum}
use controller_tools.Crd.Markers.Priority.{
  apply_priority_default, apply_priority, NamedMarker, goes_first, apply_to_schema, apply_each,
}
use controller_tools.Crd.Markers.Keeps.{
  AgreesOnType, same_trans, LeavesType, sets_type, keeps_marker,
}

abbrev priority_of : {Any : Type 0} → NamedMarker Any → ℕ
unfolding apply_priority
priority_of m = apply_priority m.schema_marker

-- No marker comes before the given one.
abbrev NotBefore : {Any : Type 0} → NamedMarker Any → List (NamedMarker Any) → Type 0
NotBefore m ms = All (λ k. goes_first k m ≡ false) ms

abbrev IsSorted : {Any : Type 0} → List (NamedMarker Any) → Type 0
IsSorted [] = Unit
IsSorted (m ∷ ms) = NotBefore m ms × IsSorted ms

module _ {Any : Type 0} where
  goes_first_trans :
      (a b c : NamedMarker Any)
      → goes_first b a ≡ false
      → goes_first c b ≡ false
      → goes_first c a ≡ false
  unfolding goes_first
  goes_first_trans a b c h k = ground arith

  NotBefore-trans :
      (a b : NamedMarker Any) (ms : List (NamedMarker Any))
      → goes_first b a ≡ false
      → NotBefore b ms
      → NotBefore a ms
  NotBefore-trans a b [] h k = tt
  NotBefore-trans a b (m ∷ ms) h k = (goes_first_trans a b m h k.0, NotBefore-trans a b ms h k.1)

  first_then_not : (a b : NamedMarker Any) → goes_first a b ≡ true → goes_first b a ≡ false
  unfolding goes_first
  first_then_not a b h = ground arith

  NotBefore-insert :
      (a m : NamedMarker Any) (ms : List (NamedMarker Any))
      → goes_first m a ≡ false
      → NotBefore a ms
      → NotBefore a (insert_stable goes_first m ms)
  unfolding insert_stable
  NotBefore-insert a m [] h k = (h, tt)
  NotBefore-insert a m (n ∷ ms) h k = elim (Bool-cases (goes_first n m)) [
    | inl e ↦ rw e (k.0, NotBefore-insert a m ms h k.1)
    | inr e ↦ rw e (h, k)
  ]

  insert-IsSorted :
      (m : NamedMarker Any) (ms : List (NamedMarker Any))
      → IsSorted ms
      → IsSorted (insert_stable goes_first m ms)
  unfolding insert_stable
  insert-IsSorted m [] h = (tt, tt)
  insert-IsSorted m (n ∷ ms) h = elim (Bool-cases (goes_first n m)) [
    | inl e ↦ rw e (NotBefore-insert n m ms (first_then_not n m e) h.0, insert-IsSorted m ms h.1)
    | inr e ↦ rw e ((e, NotBefore-trans m n ms e h.0), h)
  ]

  sort_by-IsSorted : (ms : List (NamedMarker Any)) → IsSorted (sort_by goes_first ms)
  unfolding sort_by
  sort_by-IsSorted [] = tt
  sort_by-IsSorted (m ∷ ms) = insert-IsSorted m (sort_by goes_first ms) (sort_by-IsSorted ms)

  after_lem :
      (before after : List (NamedMarker Any)) (m : NamedMarker Any)
      → IsSorted (before ++ m ∷ after)
      → NotBefore m after
  after_lem [] after m h = h.0
  after_lem (n ∷ before) after m h = after_lem before after m h.1

abbrev pub is_k8s_enum : {Any : Type 0} → Marker Any → Bool
is_k8s_enum k8s_enum = true
is_k8s_enum _ = false

late_lem :
    {Any : Type 0}
    → (m : Marker Any) → apply_priority_default ≤ apply_priority m
    → is_k8s_enum m ≡ false
    → sets_type m ≡ false
unfolding apply_priority sets_type
late_lem (type_marker t) h k = absurd (omega arith)
late_lem x_int_or_string h k = absurd (omega arith)
late_lem k8s_enum h k = cc
late_lem _ h k = refl

module _ {Any : Type 0} (out : Outside Any) (ctx : Option TypeContext) where
  same_each :
      (m : NamedMarker Any) (ms : List (NamedMarker Any)) (s : Schema)
      → apply_priority_default ≤ priority_of m
      → NotBefore m ms
      → any (λ n. is_k8s_enum n.schema_marker) ms ≡ false
      → AgreesOnType (apply_each out ctx ms s).0 s
  unfolding apply_each goes_first
  same_each m [] s h later plain = (refl, refl)
  same_each m (n ∷ ms) s h later plain =
      let keeps =
        keeps_marker out ctx n.schema_marker s
          (late_lem n.schema_marker (ground arith) (ground arith)) in
      elim (Result-cases (apply_to_schema out ctx n.schema_marker s)) [
        | inl (t, e) ↦
            rw (e, apply_each)
              (same_trans s t (apply_each out ctx ms t).0
                (same_each m ms t h later.1 (ground arith)) (subst (LeavesType s) e keeps))
        | inr (why, e) ↦ rw (e, apply_each) (same_each m ms s h later.1 (ground arith))
      ]

  each_append :
      (before after : List (NamedMarker Any)) (s : Schema)
      → (apply_each out ctx (before ++ after) s).0
        ≡ (apply_each out ctx after (apply_each out ctx before s).0).0
  unfolding apply_each
  each_append [] after s = refl
  each_append (m ∷ before) after s =
      elim (Result-cases (apply_to_schema out ctx m.schema_marker s)) [
        | inl (t, e) ↦ rw (e, apply_each) (each_append before after t)
        | inr (why, e) ↦ rw (e, apply_each) (each_append before after s)
      ]

  any_after :
      (p : NamedMarker Any → Bool) (before after : List (NamedMarker Any))
      → any p (before ++ after) ≡ false
      → any p after ≡ false
  any_after p [] after h = h
  any_after p (m ∷ before) after h = any_after p before after (ground arith)

  -- Where no marker is `k8s:enum`, every marker of the default priority or a later one is applied to
  -- a schema that has the type, and the mark XIntOrString, that all the markers leave.
  pub apply_each-sort_by :
      (before after markers : List (NamedMarker Any)) (m : NamedMarker Any) (s : Schema)
      → sort_by goes_first markers ≡ (before ++ m ∷ after)
      → apply_priority_default ≤ apply_priority m.schema_marker
      → any (λ n. is_k8s_enum n.schema_marker) markers ≡ false
      → (type_of (apply_each out ctx (sort_by goes_first markers) s).0
          ≡ type_of (apply_each out ctx before s).0)
        × (plain_of (apply_each out ctx (sort_by goes_first markers) s).0 Field.x_int_or_string
            ≡ plain_of (apply_each out ctx before s).0 Field.x_int_or_string)
  unfolding goes_first
  apply_each-sort_by before after markers m s cut late plain =
      let p : NamedMarker Any → Bool = λ n. is_k8s_enum n.schema_marker in
      let free =
        any_after p before (m ∷ after)
          (sym (ap (any p) cut) ∙ any-sort_by goes_first p markers ∙ plain) in
      let sorted = subst IsSorted cut (sort_by-IsSorted markers) in
      rw (cut, each_append before (m ∷ after) s)
        (same_each m (m ∷ after) (apply_each out ctx before s).0 late
          (ground arith, after_lem before after m sorted) free)
