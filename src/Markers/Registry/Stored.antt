-- ===== src/Markers/Registry/Stored.antt =====
-- Each definition stands under its own name and target, and `Lookup` returns no other.
use controller_tools.Prelude.{
  ◌≡◌, refl, ap, ◌∙◌, Option, none, some, All, Option-cases, inl, inr, subst, ◌⊎◌,
}
use mathlib.Core.Option.{some-injective}
use controller_tools.Prelude.Assoc.{put, All-put, All-lookup, lookup}
use controller_tools.Prelude.Result.{ok, err_not_ok, ok_injective}
use controller_tools.Text.{Text, eq_text, eq_text_iff}
use controller_tools.Markers.Definition.{
  TargetType, describes_package, describes_type, describes_field, other_target,
}
use controller_tools.Markers.Name.{MarkerName, split_marker}
use controller_tools.Markers.Registry.{
  Address, Store, Names, Registry, store_at, register, look_in, try_anon_lookup, lookup_marker,
}

none_not_some : {A : Type 0} {a : A} → ◌≡◌ {A = Option A} none (some a) → ⊥
none_not_some h = cc

-- Every entry is a definition of this target that stands under its own name.
unfoldable pub IsStoredIn : Store → TargetType → Names → Type 0
IsStoredIn heap target names =
    All (λ e. ((heap e.1).name ≡ e.0) × ((heap e.1).target ≡ target)) names

unfoldable pub IsStored : Store → Registry → Type 0
unfolding IsStoredIn
IsStored heap r =
    IsStoredIn heap describes_package r.for_pkg
    × IsStoredIn heap describes_type r.for_type
    × IsStoredIn heap describes_field r.for_field

put-IsStoredIn :
    (heap : Store) (target : TargetType) (name : Text) (a : Address) (names : Names)
    → (heap a).name ≡ name
    → (heap a).target ≡ target
    → IsStoredIn heap target names
    → IsStoredIn heap target (put eq_text name a names)
unfolding IsStoredIn
put-IsStoredIn heap target name a names e f s =
    All-put eq_text (λ k b. ((heap b).name ≡ k) × ((heap b).target ≡ target)) name a names
      (λ j. (eq_text_iff name j).0) (e, f) s

store_at-IsStored :
    (heap : Store) (target : TargetType) (name : Text) (a : Address) (r s : Registry)
    → (heap a).name ≡ name
    → (heap a).target ≡ target
    → store_at target name a r ≡ ok s
    → IsStored heap r
    → IsStored heap s
unfolding store_at IsStored
store_at-IsStored heap describes_package name a r s e f h (p, t, d) =
    subst (IsStored heap) (ok_injective h)
      (put-IsStoredIn heap describes_package name a r.for_pkg e f p, t, d)
store_at-IsStored heap describes_type name a r s e f h (p, t, d) =
    subst (IsStored heap) (ok_injective h)
      (p, put-IsStoredIn heap describes_type name a r.for_type e f t, d)
store_at-IsStored heap describes_field name a r s e f h (p, t, d) =
    subst (IsStored heap) (ok_injective h)
      (p, t, put-IsStoredIn heap describes_field name a r.for_field e f d)
store_at-IsStored heap (other_target n) name a r s e f h stored = absurd (err_not_ok h)

-- If every definition of a registry stands under its own name and target, so does every definition
-- after a `Register` that succeeds.
pub register-IsStored :
    (heap : Store) (a : Address) (r s : Registry)
    → register heap a r ≡ ok s
    → IsStored heap r
    → IsStored heap s
unfolding register
register-IsStored heap a r s h stored =
    store_at-IsStored heap ((heap a).target) ((heap a).name) a r s refl refl h stored

lookup-IsStoredIn :
    (heap : Store) (target : TargetType) (name : Text) (a : Address) (names : Names)
    → IsStoredIn heap target names
    → lookup eq_text name names ≡ some a
    → ((heap a).name ≡ name) × ((heap a).target ≡ target)
unfolding IsStoredIn
lookup-IsStoredIn heap target name a names s h =
    All-lookup eq_text (λ k b. ((heap b).name ≡ k) × ((heap b).target ≡ target)) name a names
      (λ j. (eq_text_iff name j).0) s h

-- What a lookup in one map finds.
try_anon_lookup_lem :
    (heap : Store) (target : TargetType) (m : MarkerName) (a : Address) (names : Names)
    → IsStoredIn heap target names
    → try_anon_lookup m names ≡ some a
    → ((heap a).target ≡ target) × (((heap a).name ≡ m.anonymous_name) ⊎ ((heap a).name ≡ m.name))
unfolding try_anon_lookup
try_anon_lookup_lem heap target m a names s h =
    elim (Option-cases (lookup eq_text m.anonymous_name names)) [
      | inl missing ↦
          let (e, f) = lookup-IsStoredIn heap target m.name a names s (rw missing at h) in
          (f, inr e)
      | inr (b, found) ↦
          let eq : b ≡ a = some-injective b a (rw found at h) in
          let (e, f) =
            lookup-IsStoredIn heap target m.anonymous_name a names s (found ∙ ap some eq) in
          (f, inl e)
    ]

look_in_lem :
    (heap : Store) (target : TargetType) (raw : Text) (a : Address) (names : Names)
    → IsStoredIn heap target names
    → look_in raw names ≡ some (some a)
    → (m : MarkerName) × (split_marker raw ≡ some m)
      × ((heap a).target ≡ target)
      × (((heap a).name ≡ m.anonymous_name) ⊎ ((heap a).name ≡ m.name))
unfolding look_in
look_in_lem heap target raw a names s h = elim (Option-cases (split_marker raw)) [
  | inl e ↦ absurd (none_not_some (rw (e, look_in) at h))
  | inr (m, e) ↦
      let found =
        try_anon_lookup_lem heap target m a names s
          (some-injective (try_anon_lookup m names) (some a) (rw (e, look_in) at h)) in
      (m, e, found.0, found.1)
]

-- If every definition stands under its own name and target, `Lookup` returns only a definition of
-- the target that is asked for, whose name is the marker's anonymous name or its name.
pub lookup_marker_sound :
    (heap : Store) (r : Registry) (target : TargetType) (raw : Text) (a : Address)
    → IsStored heap r
    → lookup_marker raw target r ≡ some (some a)
    → (m : MarkerName) × (split_marker raw ≡ some m)
      × ((heap a).target ≡ target)
      × (((heap a).name ≡ m.anonymous_name) ⊎ ((heap a).name ≡ m.name))
unfolding lookup_marker IsStored
lookup_marker_sound heap r describes_package raw a (p, t, f) h =
    look_in_lem heap describes_package raw a r.for_pkg p h
lookup_marker_sound heap r describes_type raw a (p, t, f) h =
    look_in_lem heap describes_type raw a r.for_type t h
lookup_marker_sound heap r describes_field raw a (p, t, f) h =
    look_in_lem heap describes_field raw a r.for_field f h
lookup_marker_sound heap r (other_target n) raw a s h =
    absurd (none_not_some (some-injective _ _ h))
