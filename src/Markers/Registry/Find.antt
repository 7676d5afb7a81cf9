-- ===== src/Markers/Registry/Find.antt =====
-- What `Lookup` finds after a `Register`.
use controller_tools.Prelude.{◌≡◌, ◌≢◌, refl, false, some, inl, inr, subst, ◌⊎◌}
use controller_tools.Prelude.Assoc.{put, lookup-put}
use controller_tools.Prelude.Result.{ok, err_not_ok, ok_injective}
use controller_tools.Text.{Text, eq_text, eq_text_iff, eq_text_refl}
use controller_tools.Markers.Definition.{
  TargetType, describes_package, describes_type, describes_field, other_target,
}
use controller_tools.Markers.Name.{MarkerName, split_marker}
use controller_tools.Markers.Registry.{
  Address, Store, Names, Registry, store_at, register, look_in, try_anon_lookup, lookup_marker,
}

look_in-put_same :
    (raw : Text) (m : MarkerName) (a : Address) (names : Names)
    → split_marker raw ≡ some m
    → look_in raw (put eq_text m.anonymous_name a names) ≡ some (some a)
unfolding look_in try_anon_lookup
look_in-put_same raw m a names e =
    rw
      (
        e,
        look_in,
        lookup-put eq_text m.anonymous_name m.anonymous_name a names eq_text_iff,
        eq_text_refl m.anonymous_name,
      )
      refl

look_in-put_other :
    (raw : Text) (m : MarkerName) (name : Text) (a : Address) (names : Names)
    → split_marker raw ≡ some m
    → eq_text m.anonymous_name name ≡ false
    → eq_text m.name name ≡ false
    → look_in raw (put eq_text name a names) ≡ look_in raw names
unfolding look_in try_anon_lookup
look_in-put_other raw m name a names e f g =
    rw
      (
        e,
        look_in,
        lookup-put eq_text m.anonymous_name name a names eq_text_iff,
        lookup-put eq_text m.name name a names eq_text_iff,
        f,
        g,
      )
      refl

store_at-finds :
    (target : TargetType) (raw : Text) (m : MarkerName) (a : Address) (r s : Registry)
    → store_at target m.anonymous_name a r ≡ ok s
    → split_marker raw ≡ some m
    → lookup_marker raw target s ≡ some (some a)
unfolding store_at lookup_marker
store_at-finds describes_package raw m a r s h e =
    subst (λ x. lookup_marker raw describes_package x ≡ some (some a)) (ok_injective h)
      (look_in-put_same raw m a r.for_pkg e)
store_at-finds describes_type raw m a r s h e =
    subst (λ x. lookup_marker raw describes_type x ≡ some (some a)) (ok_injective h)
      (look_in-put_same raw m a r.for_type e)
store_at-finds describes_field raw m a r s h e =
    subst (λ x. lookup_marker raw describes_field x ≡ some (some a)) (ok_injective h)
      (look_in-put_same raw m a r.for_field e)
store_at-finds (other_target n) raw m a r s h e = absurd (err_not_ok h)

-- After a `Register` that succeeds, `Lookup` finds the definition for its target and every marker
-- whose anonymous name is the definition's name.
pub lookup_marker-register :
    (heap : Store) (a : Address) (r s : Registry) (raw : Text) (m : MarkerName)
    → register heap a r ≡ ok s
    → split_marker raw ≡ some m
    → (heap a).name ≡ m.anonymous_name
    → lookup_marker raw ((heap a).target) s ≡ some (some a)
unfolding register
lookup_marker-register heap a r s raw m h e eq =
    store_at-finds ((heap a).target) raw m a r s
      (subst (λ z. store_at ((heap a).target) z a r ≡ ok s) eq h) e

store_at-other :
    (target other : TargetType) (raw : Text) (m : MarkerName) (name : Text) (a : Address)
    (r s : Registry)
    → store_at target name a r ≡ ok s
    → split_marker raw ≡ some m
    → (target ≢ other) ⊎ ((eq_text m.anonymous_name name ≡ false) × (eq_text m.name name ≡ false))
    → lookup_marker raw other s ≡ lookup_marker raw other r
unfolding store_at lookup_marker
store_at-other describes_package describes_package raw m name a r s h e (inl ne) = absurd (ne refl)
store_at-other describes_package describes_package raw m name a r s h e (inr (f, g)) =
    subst (λ x. lookup_marker raw describes_package x ≡ look_in raw r.for_pkg) (ok_injective h)
      (look_in-put_other raw m name a r.for_pkg e f g)
store_at-other describes_package describes_type raw m name a r s h e d =
    subst (λ x. lookup_marker raw describes_type x ≡ lookup_marker raw describes_type r)
      (ok_injective h) refl
store_at-other describes_package describes_field raw m name a r s h e d =
    subst (λ x. lookup_marker raw describes_field x ≡ lookup_marker raw describes_field r)
      (ok_injective h) refl
store_at-other describes_package (other_target n) raw m name a r s h e d =
    subst (λ x. lookup_marker raw (other_target n) x ≡ lookup_marker raw (other_target n) r)
      (ok_injective h) refl
store_at-other describes_type describes_package raw m name a r s h e d =
    subst (λ x. lookup_marker raw describes_package x ≡ lookup_marker raw describes_package r)
      (ok_injective h) refl
store_at-other describes_type describes_type raw m name a r s h e (inl ne) = absurd (ne refl)
store_at-other describes_type describes_type raw m name a r s h e (inr (f, g)) =
    subst (λ x. lookup_marker raw describes_type x ≡ look_in raw r.for_type) (ok_injective h)
      (look_in-put_other raw m name a r.for_type e f g)
store_at-other describes_type describes_field raw m name a r s h e d =
    subst (λ x. lookup_marker raw describes_field x ≡ lookup_marker raw describes_field r)
      (ok_injective h) refl
store_at-other describes_type (other_target n) raw m name a r s h e d =
    subst (λ x. lookup_marker raw (other_target n) x ≡ lookup_marker raw (other_target n) r)
      (ok_injective h) refl
store_at-other describes_field describes_package raw m name a r s h e d =
    subst (λ x. lookup_marker raw describes_package x ≡ lookup_marker raw describes_package r)
      (ok_injective h) refl
store_at-other describes_field describes_type raw m name a r s h e d =
    subst (λ x. lookup_marker raw describes_type x ≡ lookup_marker raw describes_type r)
      (ok_injective h) refl
store_at-other describes_field describes_field raw m name a r s h e (inl ne) = absurd (ne refl)
store_at-other describes_field describes_field raw m name a r s h e (inr (f, g)) =
    subst (λ x. lookup_marker raw describes_field x ≡ look_in raw r.for_field) (ok_injective h)
      (look_in-put_other raw m name a r.for_field e f g)
store_at-other describes_field (other_target n) raw m name a r s h e d =
    subst (λ x. lookup_marker raw (other_target n) x ≡ lookup_marker raw (other_target n) r)
      (ok_injective h) refl
store_at-other (other_target n) other raw m name a r s h e d = absurd (err_not_ok h)

-- A `Register` that succeeds changes no lookup for another target, and none for a marker of which
-- neither name is the definition's.
pub lookup_marker-register_other :
    (heap : Store) (a : Address) (r s : Registry) (target : TargetType) (raw : Text)
    (m : MarkerName)
    → register heap a r ≡ ok s
    → split_marker raw ≡ some m
    → ((heap a).target ≢ target)
      ⊎ ((eq_text m.anonymous_name ((heap a).name) ≡ false)
          × (eq_text m.name ((heap a).name) ≡ false))
    → lookup_marker raw target s ≡ lookup_marker raw target r
unfolding register
lookup_marker-register_other heap a r s target raw m h e d =
    store_at-other ((heap a).target) target raw m ((heap a).name) a r s h e d
