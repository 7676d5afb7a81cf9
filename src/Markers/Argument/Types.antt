-- ===== src/Markers/Argument/Types.antt =====
-- Arguments that come from Go types, and the way back by `makeSliceType` and `makeMapType`.
use controller_tools.Prelude.{◌≡◌, refl, Bool, true, false, Bool-cases, inl, inr, subst}
use controller_tools.Prelude.Result.{Result, ok, err, >>=-eq-ok, err_not_ok, ok_injective}
use controller_tools.Markers.Argument.{
  ArgumentType, Argument, argument, ReflectType, TypeError, argument_from, argument_from_type,
  make_slice_type, make_map_type, slice_item_type, map_item_type, is_string_kind, pointer_if, wrap,
  bad_item,
}

-- An argument is optional exactly if it is a pointer, is never of the invalid type, and is no
-- pointer if it takes anything or the raw text; so are its items.
unfoldable mutual
  pub IsNormal : Argument → Type 0
  IsNormal (argument t o p) = (o ≡ p) × IsNormalAt p t

  pub IsNormalAt : Bool → ArgumentType → Type 0
  IsNormalAt p ArgumentType.invalid = ⊥
  IsNormalAt p ArgumentType.any = p ≡ false
  IsNormalAt p ArgumentType.raw = p ≡ false
  IsNormalAt p (ArgumentType.slice item) = IsNormal item
  IsNormalAt p (ArgumentType.map item) = IsNormal item
  IsNormalAt p ArgumentType.int = Unit
  IsNormalAt p ArgumentType.number = Unit
  IsNormalAt p ArgumentType.string = Unit
  IsNormalAt p ArgumentType.bool = Unit

wrap-eq-ok :
    (f : TypeError → TypeError) (m : Result TypeError Argument) {a : Argument}
    → wrap f m ≡ ok a
    → m ≡ ok a
wrap-eq-ok f (ok b) h = h
wrap-eq-ok f (err e) h = cc

argument_from-IsNormal :
    (p : Bool) (t : ReflectType) (a : Argument) → argument_from p t ≡ ok a → IsNormal a
unfolding argument_from IsNormal
argument_from-IsNormal false ReflectType.raw_arguments a h =
    subst IsNormal (ok_injective h) (refl, refl)
argument_from-IsNormal true ReflectType.raw_arguments a h = cc
argument_from-IsNormal false ReflectType.interface a h =
    subst IsNormal (ok_injective h) (refl, refl)
argument_from-IsNormal true ReflectType.interface a h = cc
argument_from-IsNormal false (ReflectType.pointer_to t) a h = argument_from-IsNormal true t a h
argument_from-IsNormal true (ReflectType.pointer_to t) a h = cc
argument_from-IsNormal p ReflectType.string a h = subst IsNormal (ok_injective h) (refl, tt)
argument_from-IsNormal p ReflectType.int a h = subst IsNormal (ok_injective h) (refl, tt)
argument_from-IsNormal p ReflectType.int32 a h = subst IsNormal (ok_injective h) (refl, tt)
argument_from-IsNormal p ReflectType.float64 a h = subst IsNormal (ok_injective h) (refl, tt)
argument_from-IsNormal p ReflectType.bool a h = subst IsNormal (ok_injective h) (refl, tt)
argument_from-IsNormal p (ReflectType.slice t) a h =
    let (item, e, f) = >>=-eq-ok (wrap bad_item (argument_from false t)) _ h in
    subst IsNormal (ok_injective f)
      (refl, argument_from-IsNormal false t item (wrap-eq-ok bad_item _ e))
argument_from-IsNormal p (ReflectType.map k t) a h = elim (Bool-cases (is_string_kind k)) [
  | inl s ↦
      let (item, e, f) = >>=-eq-ok (wrap bad_item (argument_from false t)) _ (rw s at h) in
      subst IsNormal (ok_injective f)
        (refl, argument_from-IsNormal false t item (wrap-eq-ok bad_item _ e))
  | inr s ↦ absurd (err_not_ok (rw s at h))
]
argument_from-IsNormal p (ReflectType.struct fields) a h = cc
argument_from-IsNormal p (ReflectType.other k) a h = cc

behind_pointer :
    (k : ArgumentType) (p : Bool) (t : ReflectType)
    → argument_from p t ≡ ok (argument k p p)
    → argument_from false (pointer_if p t) ≡ ok (argument k p p)
unfolding argument_from
behind_pointer k true t h = h
behind_pointer k false t h = h

mutual
  unfolding make_slice_type argument_from IsNormal is_string_kind

  slice_back :
      (a : Argument) (q : Bool) (t : ReflectType)
      → IsNormal a
      → make_slice_type a ≡ ok t
      → argument_from q t ≡ ok (argument (ArgumentType.slice a) q q)
  slice_back (argument k o p) q t n h =
      let (g, e, f) = >>=-eq-ok (slice_item_type k) _ h in
      rw (← ok_injective f, behind_pointer k p g (slice_item_back k p g n.1 e), n.0)

  map_back :
      (a : Argument) (q : Bool) (t : ReflectType)
      → IsNormal a
      → make_map_type a ≡ ok t
      → argument_from q t ≡ ok (argument (ArgumentType.map a) q q)
  map_back (argument k o p) q t n h =
      let (g, e, f) = >>=-eq-ok (map_item_type k) _ h in
      rw (← ok_injective f, behind_pointer k p g (map_item_back k p g n.1 e), n.0)

  slice_item_back :
      (k : ArgumentType) (p : Bool) (t : ReflectType)
      → IsNormalAt p k
      → slice_item_type k ≡ ok t
      → argument_from p t ≡ ok (argument k p p)
  slice_item_back ArgumentType.int p t n h = rw (← ok_injective h)
  slice_item_back ArgumentType.number p t n h = rw (← ok_injective h)
  slice_item_back ArgumentType.string p t n h = rw (← ok_injective h)
  slice_item_back ArgumentType.bool p t n h = rw (← ok_injective h)
  slice_item_back (ArgumentType.slice item) p t n h = slice_back item p t n h
  slice_item_back (ArgumentType.map item) p t n h = map_back item p t n h
  slice_item_back ArgumentType.any p t n h = cc
  slice_item_back ArgumentType.raw p t n h = cc
  slice_item_back ArgumentType.invalid p t n h = cc

  map_item_back :
      (k : ArgumentType) (p : Bool) (t : ReflectType)
      → IsNormalAt p k
      → map_item_type k ≡ ok t
      → argument_from p t ≡ ok (argument k p p)
  map_item_back ArgumentType.int p t n h = rw (← ok_injective h)
  map_item_back ArgumentType.number p t n h = rw (← ok_injective h)
  map_item_back ArgumentType.string p t n h = rw (← ok_injective h)
  map_item_back ArgumentType.bool p t n h = rw (← ok_injective h)
  map_item_back (ArgumentType.slice item) p t n h = slice_back item p t n h
  map_item_back (ArgumentType.map item) p t n h = map_back item p t n h
  map_item_back ArgumentType.any p t n h = rw (← ok_injective h, n)
  map_item_back ArgumentType.raw p t n h = cc
  map_item_back ArgumentType.invalid p t n h = cc

-- An argument that `ArgumentFromType` makes is optional exactly if it is a pointer, never has the
-- invalid type, and is no pointer if it takes anything or the raw text; so are its items.
pub argument_from_type-IsNormal :
    (t : ReflectType) (a : Argument) → argument_from_type t ≡ ok a → IsNormal a
unfolding argument_from_type
argument_from_type-IsNormal t a h = argument_from-IsNormal false t a h

-- The Go type that `makeSliceType` makes for slices of an argument is read back by
-- `ArgumentFromType` as the slice of that argument, if the argument could come from a Go type.
pub argument_from_type-make_slice_type :
    (a : Argument) (t : ReflectType)
    → IsNormal a
    → make_slice_type a ≡ ok t
    → argument_from_type t ≡ ok (argument (ArgumentType.slice a) false false)
unfolding argument_from_type
argument_from_type-make_slice_type a t n h = slice_back a false t n h

-- The Go type that `makeMapType` makes for maps to an argument is read back by `ArgumentFromType` as
-- the map to that argument, if the argument could come from a Go type.
argument_from_type-make_map_type :
    (a : Argument) (t : ReflectType)
    → IsNormal a
    → make_map_type a ≡ ok t
    → argument_from_type t ≡ ok (argument (ArgumentType.map a) false false)
unfolding argument_from_type
argument_from_type-make_map_type a t n h = map_back a false t n h
