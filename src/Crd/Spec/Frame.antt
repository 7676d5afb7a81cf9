-- ===== src/Crd/Spec/Frame.antt =====
-- What the markers of a type do to the versions of a CRD that are not theirs, and what is true of the
-- CRD in the end.
use controller_tools.Prelude.{
  ◌≡◌, refl, sym, ap, subst, ◌∙◌, Bool, true, false, Option, Option-cases, none, some, List, [],
  ◌∷◌, ◌++◌, any, is_empty, Bool-cases, inl, inr,
}
use controller_tools.Prelude.Sort.{insert_stable, sort_by}
use controller_tools.Text.{Text, codes, eq_text}
use controller_tools.Crd.Describe.{LastIndex, MaxLen}
use controller_tools.Crd.Spec.{
  Version, Crd, CrdMarker, subresource_status, storage_version, skip_version, unserved_version,
  bad_annotation, subresource_scale, print_column, resource, deprecated_version, metadata,
  selectable_field,
}
use controller_tools.Crd.Spec.Apply.{
  update_version, change_version, try_version, drop_versions, or_same, apply_to_crd,
  apply_storage_version, apply_skip_version, apply_deprecated_version, apply_metadata, put_pairs,
}
use controller_tools.Crd.Spec.Need.{
  NeedError, Package, Words, GroupKind, packages_of, new_crd, versions_of, apply_values,
  apply_packages, by_name, first_path, default_storage, check_versions, need_crd_for,
}

-- A change of a version that leaves its name.
abbrev KeepsName : (Version → Version) → Type 0
KeepsName f = (v : Version) → (f v).name ≡ v.name

module _ (name : Text) where
  -- The other versions are the same after an update.
  abbrev Fits : List Version → Option (List Version) → Type 0
  Fits vs none = Unit
  Fits vs (some ws) = drop_versions name ws ≡ drop_versions name vs

  drop_hit :
      (v : Version) (vs : List Version)
      → eq_text v.name name ≡ true
      → drop_versions name (v ∷ vs) ≡ drop_versions name vs
  unfolding drop_versions
  drop_hit v vs h = rw h refl

  drop_update :
      (f : Version → Version) (vs : List Version) → KeepsName f → Fits vs (update_version name f vs)
  unfolding update_version drop_versions
  drop_update f [] h = tt
  drop_update f (v ∷ vs) h = elim (Bool-cases (eq_text v.name name)) [
    | inl same ↦
        let hit : eq_text (f v).name name ≡ true = ap (λ t. eq_text t name) (h v) ∙ same in
        rw same (drop_hit (f v) vs hit ∙ sym (drop_hit v vs same))
    | inr other ↦ elim (Option-cases (update_version name f vs)) [
      | inl e ↦ rw (other, e) tt
      | inr (ws, e) ↦
          let ih = subst (Fits vs) e (drop_update f vs h) in
          rw (other, e) (rw other (ap (λ us. v ∷ us) ih))
    ]
  ]

  drop_drop :
      (vs : List Version) → drop_versions name (drop_versions name vs) ≡ drop_versions name vs
  unfolding drop_versions
  drop_drop [] = refl
  drop_drop (v ∷ vs) = elim (Bool-cases (eq_text v.name name)) [
    | inl same ↦ rw same (drop_drop vs)
    | inr other ↦ rw other (rw other (ap (λ ws. v ∷ ws) (drop_drop vs)))
  ]

  change_lem :
      (f : Version → Version) (crd : Crd)
      → KeepsName f
      → drop_versions name (or_same crd (change_version name f crd)).0.versions
        ≡ drop_versions name crd.versions
  unfolding change_version
  change_lem f crd h = elim (Option-cases (update_version name f crd.versions)) [
    | inl e ↦ rw (e, change_version) refl
    | inr (ws, e) ↦
        rw (e, change_version) (subst (Fits crd.versions) e (drop_update f crd.versions h))
  ]

  try_lem :
      (f : Version → Version) (crd : Crd)
      → KeepsName f
      → drop_versions name (try_version name f crd).versions ≡ drop_versions name crd.versions
  unfolding try_version
  try_lem f crd h = elim (Option-cases (update_version name f crd.versions)) [
    | inl e ↦ rw (e, try_version) refl
    | inr (ws, e) ↦ rw (e, try_version) (subst (Fits crd.versions) e (drop_update f crd.versions h))
  ]

  marker_lem :
      (m : CrdMarker) (crd : Crd)
      → drop_versions name (apply_to_crd m name crd).0.versions ≡ drop_versions name crd.versions
  unfolding apply_to_crd
  marker_lem subresource_status crd = change_lem _ crd (λ v. refl)
  marker_lem (subresource_scale s) crd = change_lem _ crd (λ v. refl)
  marker_lem (print_column c) crd = change_lem _ crd (λ v. refl)
  marker_lem (selectable_field t) crd = change_lem _ crd (λ v. refl)
  marker_lem storage_version crd = elim (Bool-cases (is_empty name)) [
    | inl e ↦ rw (e, apply_storage_version) refl
    | inr e ↦ rw (e, apply_storage_version) (try_lem _ crd (λ v. refl))
  ]
  marker_lem skip_version crd = elim (Bool-cases (is_empty name)) [
    | inl e ↦ rw (e, apply_skip_version) refl
    | inr e ↦ rw (e, apply_skip_version) (drop_drop crd.versions)
  ]
  marker_lem unserved_version crd = try_lem _ crd (λ v. refl)
  marker_lem (deprecated_version w) crd = elim (Bool-cases (is_empty name)) [
    | inl e ↦ rw (e, apply_deprecated_version) refl
    | inr e ↦ rw (e, apply_deprecated_version) (try_lem _ crd (λ v. refl))
  ]
  marker_lem (resource r) crd = refl
  marker_lem (metadata notes tags) crd =
      elim (Option-cases (put_pairs bad_annotation notes crd.annotations).1) [
        | inl e ↦ rw (e, apply_metadata) refl
        | inr (why, e) ↦ rw (e, apply_metadata) refl
      ]

-- The markers of the type in one package leave the versions with other names, and the order of these.
pub drop_versions-apply_values :
    (p : Package) (markers : List CrdMarker) (crd : Crd)
    → drop_versions p.version (apply_values p markers crd).0.versions
      ≡ drop_versions p.version crd.versions
unfolding apply_values
drop_versions-apply_values p [] crd = refl
drop_versions-apply_values p (m ∷ markers) crd =
    drop_versions-apply_values p markers (apply_to_crd m p.version crd).0
    ∙ marker_lem p.version m crd

cons_not_nil {ℓ} : {A : Type ℓ} {x : A} {xs : List A} → (x ∷ xs) ≡ [] → ⊥
cons_not_nil h = cc

check_lem :
    (path : Text) (vs : List Version)
    → check_versions path vs ≡ []
    → (any (λ v. v.storage) vs ≡ true) × (any (λ v. v.served) vs ≡ true)
unfolding check_versions
check_lem path vs h = elim (Bool-cases (any (λ v. v.storage) vs)) [
  | inl e ↦ elim (Bool-cases (any (λ v. v.served) vs)) [
    | inl f ↦ (e, f)
    | inr f ↦ absurd (cons_not_nil (rw (e, f) at h))
  ]
  | inr e ↦ absurd (cons_not_nil (rw e at h))
]

insert_not_empty :
    (less : Version → Version → Bool) (v : Version) (vs : List Version)
    → is_empty (insert_stable less v vs) ≡ false
unfolding insert_stable
insert_not_empty less v [] = refl
insert_not_empty less v (w ∷ vs) = elim (Bool-cases (less w v)) [
  | inl e ↦ rw e refl
  | inr e ↦ rw e refl
]

storage_not_empty : (vs : List Version) → is_empty (default_storage vs) ≡ is_empty vs
unfolding default_storage
storage_not_empty [] = refl
storage_not_empty (v ∷ []) = refl
storage_not_empty (v ∷ w ∷ vs) = refl

sorted_not_empty :
    (vs : List Version)
    → is_empty vs ≡ false
    → is_empty (default_storage (sort_by by_name vs)) ≡ false
unfolding sort_by
sorted_not_empty [] h = cc
sorted_not_empty (v ∷ vs) h =
    storage_not_empty (sort_by by_name (v ∷ vs)) ∙ insert_not_empty by_name v (sort_by by_name vs)

append_nil_right : (xs ys : List NeedError) → (xs ++ ys) ≡ [] → ys ≡ []
append_nil_right [] ys h = h
append_nil_right (x ∷ xs) ys h = cc

some_injective {ℓ} : {A : Type ℓ} {x y : A} → some x ≡ some y → x ≡ y
some_injective h = cc

none_not_some {ℓ} : {A : Type ℓ} {x : A} → none ≡ some x → ⊥
none_not_some h = cc

-- A CRD that is stored has versions and the name that the API server wants, and if there is no error
-- it has a version that is stored and one that is served.
pub need_crd_for_lem :
    (words : Words) (last : LastIndex) (max_len : Option MaxLen) (gk : GroupKind)
    (group_versions : List Package) (crd : Crd)
    → (need_crd_for words last max_len gk group_versions).0 ≡ some crd
    → (crd.metadata_name ≡ (crd.names.plural ++ (codes "." ++ gk.group)))
      × (is_empty crd.versions ≡ false)
      × ((need_crd_for words last max_len gk group_versions).1 ≡ []
          → (any (λ v. v.storage) crd.versions ≡ true) × (any (λ v. v.served) crd.versions ≡ true))
unfolding need_crd_for
need_crd_for_lem words last max_len gk group_versions crd h =
    let packages = packages_of gk.group group_versions in
    let built =
      apply_packages packages
        (record (new_crd words gk) { versions = versions_of last max_len packages }) in
    let vs = default_storage (sort_by by_name built.0.versions) in
    elim (Bool-cases (is_empty built.0.versions)) [
      | inl e ↦ absurd (none_not_some (rw (e, need_crd_for) at h))
      | inr e ↦
          let same = some_injective (rw (e, need_crd_for) at h) in
          let path = first_path packages in
          subst
            (λ c.
              (c.metadata_name ≡ (c.names.plural ++ (codes "." ++ gk.group)))
              × (is_empty c.versions ≡ false)
              × ((need_crd_for words last max_len gk group_versions).1 ≡ []
                  → (any (λ v. v.storage) c.versions ≡ true)
                    × (any (λ v. v.served) c.versions ≡ true)))
            same
            (
              refl,
              sorted_not_empty built.0.versions e,
              λ no.
                  check_lem path vs (
                    append_nil_right built.1 (check_versions path vs) (rw (e, need_crd_for) at no)),
            )
    ]
