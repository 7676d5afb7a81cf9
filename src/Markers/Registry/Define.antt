-- ===== src/Markers/Registry/Define.antt =====
-- `Define` makes a definition that `Lookup` then finds.
use controller_tools.Prelude.{
  ◌==◌, ==_iff, ◌≡◌, refl, sym, ap, ◌∙◌, some, inl, inr, subst, if◌then◌else◌,
}
use controller_tools.Prelude.Result.{ok, err_not_ok, ok_injective, >>=-eq-ok, Result-cases}
use controller_tools.Text.{Text}
use controller_tools.Markers.Argument.{ReflectType}
use controller_tools.Markers.Name.{MarkerName, split_marker}
use controller_tools.Markers.Definition.{
  Unicode, Definition, TargetType, load_fields, make_definition,
}
use controller_tools.Markers.Registry.{
  Store, Address, Registry, register, define_marker, lookup_marker,
}
use controller_tools.Markers.Registry.Find.{lookup_marker-register}

make_definition_named :
    (u : Unicode) (name : Text) (target : TargetType) (output : ReflectType) (d : Definition)
    → make_definition u name target output ≡ ok d
    → (d.name ≡ name) × (d.target ≡ target)
unfolding make_definition
make_definition_named u name target output d h =
    let (maps, e, f) = >>=-eq-ok (load_fields u output) _ h in
    (sym (ap (λ x. x.name) (ok_injective f)), sym (ap (λ x. x.target) (ok_injective f)))

abbrev stored_at : Address → Definition → Store → Store
stored_at a d heap = λ b. if b == a then d else heap b

stored_at_same : (a : Address) (d : Definition) (heap : Store) → stored_at a d heap a ≡ d
stored_at_same a d heap = rw ((==_iff a a).1 refl) refl

-- After a `Define` that succeeds, the store has a definition of the given name and target at the
-- address, and `Lookup` finds it for that target and every marker whose anonymous name is the name.
pub lookup_marker-define_marker :
    (u : Unicode) (name : Text) (target : TargetType) (output : ReflectType) (heap : Store)
    (a : Address) (r : Registry) (after : Store × Registry) (raw : Text) (m : MarkerName)
    → define_marker u name target output heap a r ≡ ok after
    → split_marker raw ≡ some m
    → name ≡ m.anonymous_name
    → ((after.0 a).name ≡ name)
      × ((after.0 a).target ≡ target)
      × (lookup_marker raw target after.1 ≡ some (some a))
unfolding define_marker
lookup_marker-define_marker u name target output heap a r after raw m h split same =
    elim (Result-cases (make_definition u name target output)) [
      | inr (e, f) ↦ absurd (err_not_ok (rw (f, define_marker) at h))
      | inl (d, f) ↦ elim (Result-cases (register (stored_at a d heap) a r)) [
        | inr (e, g) ↦ absurd (err_not_ok (rw (f, define_marker, g) at h))
        | inl (s, g) ↦
            let here = stored_at_same a d heap in
            let (n, t) = make_definition_named u name target output d f in
            let n2 : (stored_at a d heap a).name ≡ name = ap (λ x. x.name) here ∙ n in
            let t2 : (stored_at a d heap a).target ≡ target = ap (λ x. x.target) here ∙ t in
            let found =
              lookup_marker-register (stored_at a d heap) a r s raw m g split (n2 ∙ same) in
            subst
              (λ (x : Store × Registry).
                ((x.0 a).name ≡ name)
                × ((x.0 a).target ≡ target)
                × (lookup_marker raw target x.1 ≡ some (some a)))
              (ok_injective (rw (f, define_marker, g) at h))
              (n2, t2, subst (λ z. lookup_marker raw z s ≡ some (some a)) t2 found)
      ]
    ]
