-- ===== src/Markers/Definition/Laws.antt =====
-- What `MakeDefinition` gives: the two maps have the same keys, every entry comes from an exported
-- field, and no field takes the raw text.
use controller_tools.Prelude.{
  some, ◌≡◌, refl, sym, ap, Bool, true, false, ◌&&◌, ◌||◌, [], arith, All, Bool-cases, inl, inr,
  subst,
}
use controller_tools.Prelude.Assoc.{put, keys_of, keys-put, All-put, lookup}
use controller_tools.Prelude.Result.{Result, ok, err, >>=-eq-ok, err_not_ok, ok_injective}
use controller_tools.Text.{Text, eq_text, eq_text_iff, eq_text_refl, codes}
use controller_tools.Markers.Argument.{
  Argument, argument_type, argument, ReflectType, GoFields, MarkerTag, TypeError, end, field,
  struct, argument_from_type,
}
use controller_tools.Markers.Argument.Types.{IsNormal, IsNormalAt, argument_from_type-IsNormal}
use controller_tools.Markers.Definition.{
  Unicode, Definition, Fields, FieldNames, load_field, load_struct, load_fields, make_definition,
  make_any_type_definition, argument_info, TargetType, or_optional, is_raw, name_error,
  anonymous_field,
}

name_error-eq-ok :
    (name : Text) (m : Result TypeError Argument) {a : Argument}
    → name_error name m ≡ ok a
    → m ≡ ok a
name_error-eq-ok name (ok b) h = h
name_error-eq-ok name (err e) h = cc

-- What a successful load of a field does.
load_field_lem :
    (u : Unicode) (name : Text) (t : MarkerTag) (type : ReflectType) (fs : Fields) (ns : FieldNames)
    {out : Fields × FieldNames}
    → load_field u name t type (fs, ns) ≡ ok out
    → (a : Argument) × (argument_from_type type ≡ ok a)
      × (is_raw (argument_type a) ≡ false)
      × ((
        put eq_text (argument_info u name t).0 (or_optional (argument_info u name t).1 a) fs,
        put eq_text (argument_info u name t).0 name ns,
      )
          ≡ out)
unfolding load_field
load_field_lem u name t type fs ns h =
    let (a, e, f) = >>=-eq-ok (name_error name (argument_from_type type)) _ h in
    elim (Bool-cases (is_raw (argument_type a))) [
      | inl r ↦ absurd (err_not_ok (rw r at f))
      | inr r ↦ (a, name_error-eq-ok name _ e, r, ok_injective (rw r at f))
    ]

-- Whether a struct has an exported field with this argument name and this name.
unfoldable pub is_from : Unicode → GoFields → Text → Text → Bool
unfolding argument_info eq_text
is_from u end arg_name name = false
is_from u (field n exported t type rest) arg_name name =
    (exported && (eq_text (argument_info u n t).0 arg_name && eq_text n name))
    || is_from u rest arg_name name

-- A statement of the maps that each field's load keeps holds at the end.
module _ (u : Unicode) (every : GoFields) (R : Fields × FieldNames → Type 0)
    (step : (name : Text) (t : MarkerTag) (type : ReflectType) (maps out : Fields × FieldNames)
      → is_from u every (argument_info u name t).0 name ≡ true
      → load_field u name t type maps ≡ ok out
      → R maps
      → R out) where
  load_struct-preserves :
      (fs : GoFields) (maps out : Fields × FieldNames)
      → ((k n : Text) → is_from u fs k n ≡ true → is_from u every k n ≡ true)
      → load_struct u fs maps ≡ ok out
      → R maps
      → R out
  unfolding load_struct is_from
  load_struct-preserves end maps out sub h r = subst R (ok_injective h) r
  load_struct-preserves (field name true t type rest) maps out sub h r =
      let (mid, e, f) = >>=-eq-ok (load_field u name t type maps) _ h in
      load_struct-preserves rest mid out (λ k n q. sub k n (ground arith)) f
        (step name t type maps mid
          (sub (argument_info u name t).0 name
            (rw (eq_text_refl (argument_info u name t).0, eq_text_refl name) refl))
          e r)
  load_struct-preserves (field name false t type rest) maps out sub h r =
      load_struct-preserves rest maps out sub h r

-- An argument of a struct's field: optional if it is a pointer, of no invalid type, not the raw text.
unfoldable pub IsFieldArgument : Argument → Type 0
unfolding IsNormalAt
IsFieldArgument (argument t o p) = (p ≡ true → o ≡ true) × IsNormalAt p t × (is_raw t ≡ false)

or_optional-IsFieldArgument :
    (o : Bool) (a : Argument)
    → IsNormal a
    → is_raw (argument_type a) ≡ false
    → IsFieldArgument (or_optional o a)
unfolding IsFieldArgument IsNormal
or_optional-IsFieldArgument o (argument t q p) (e, n) r = (λ h. ground arith, n, r)

-- The maps of a struct's definition.
unfoldable pub IsLoaded : Unicode → GoFields → Fields × FieldNames → Type 0
unfolding is_from IsFieldArgument
IsLoaded u fs (fields, names) =
    (keys_of fields ≡ keys_of names)
    × All (λ e. IsFieldArgument e.1) fields
    × All (λ e. is_from u fs e.0 e.1 ≡ true) names

load_field-IsLoaded :
    (u : Unicode) (fs : GoFields) (name : Text) (t : MarkerTag) (type : ReflectType)
    (maps out : Fields × FieldNames)
    → is_from u fs (argument_info u name t).0 name ≡ true
    → load_field u name t type maps ≡ ok out
    → IsLoaded u fs maps
    → IsLoaded u fs out
unfolding IsLoaded
load_field-IsLoaded u fs name t type (fields, names) out from h (keys, args, froms) =
    let (a, e, r, eq) = load_field_lem u name t type fields names h in
    let arg = (argument_info u name t).0 in
    let normal = argument_from_type-IsNormal type a e in
    let opt = (argument_info u name t).1 in
    subst (IsLoaded u fs) eq (
      keys-put eq_text arg (or_optional opt a) name fields names keys,
      All-put eq_text (λ k x. IsFieldArgument x) arg (or_optional opt a) fields
          (λ j. (eq_text_iff arg j).0) (or_optional-IsFieldArgument opt a normal r) args,
      All-put eq_text (λ k n. is_from u fs k n ≡ true) arg name names (λ j. (eq_text_iff arg j).0)
          from froms,
    )

-- If `MakeDefinition` succeeds for a struct, both maps have the same argument names, each entry
-- comes from an exported field, and no argument is of the invalid type or the raw text; an
-- argument that is a pointer is optional.
pub make_definition-IsLoaded :
    (u : Unicode) (name : Text) (target : TargetType) (fs : GoFields) (d : Definition)
    → make_definition u name target (struct fs) ≡ ok d
    → IsLoaded u fs (d.fields, d.field_names)
unfolding make_definition load_fields IsLoaded
make_definition-IsLoaded u name target fs d h =
    let (maps, e, f) = >>=-eq-ok (load_struct u fs ([], [])) _ h in
    subst (λ x. IsLoaded u fs (x.fields, x.field_names)) (ok_injective f)
      (load_struct-preserves u fs (IsLoaded u fs) (load_field-IsLoaded u fs) fs ([], []) maps
        (λ k n q. q) e (refl, tt, tt))

-- If `MakeAnyTypeDefinition` succeeds, the definition has the given name and target and a single
-- anonymous field, whose value goes to `Value`.
pub make_any_type_definition_lem :
    (u : Unicode) (name : Text) (target : TargetType) (output : ReflectType) (d : Definition)
    → make_any_type_definition u name target output ≡ ok d
    → (anonymous_field d ≡ true)
      × (lookup eq_text [] d.field_names ≡ some (codes "Value"))
      × (d.name ≡ name)
      × (d.target ≡ target)
unfolding make_any_type_definition anonymous_field
make_any_type_definition_lem u name target output d h =
    let (e, m, f) = >>=-eq-ok (make_definition u name target output) _ h in
    let (maps, g, k) = >>=-eq-ok (load_fields u output) _ m in
    subst
      (λ x.
        (anonymous_field x ≡ true)
        × (lookup eq_text [] x.field_names ≡ some (codes "Value"))
        × (x.name ≡ name)
        × (x.target ≡ target))
      (ok_injective f)
      (
        refl,
        refl,
        sym (ap (λ x. x.name) (ok_injective k)),
        sym (ap (λ x. x.target) (ok_injective k)),
      )
