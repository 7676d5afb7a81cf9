-- ===== src/Markers/Collect/Associate/Found.antt =====
-- The markers of a file's nodes are those of its comments, and a type's are its own.
use mathlib.Core.Bool.{Bool-set}
use mathlib.Core.List.Perm
use controller_tools.Prelude.{
  ◌≡◌, refl, ◌⊎◌, Option, none, some, not, ◌||◌, false, arith, inl, inr, Bool, true, List, [], ◌∷◌,
  All, All-prop, All-perm, Bool-cases,
}
use controller_tools.Rbac.Rule.Laws.{IsOrder}
use controller_tools.Text.{Text}
use controller_tools.Markers.Definition.{
  TargetType, describes_package, describes_type, describes_field, other_target,
}
use controller_tools.Markers.Registry.{Address, Registry, lookup_marker}
use controller_tools.Markers.Collect.{
  CommentGroup, MarkerComment, marker_text, Node, NodeMarkers, markers_in,
}
use controller_tools.Markers.Collect.Associate.{
  new_visitor, is_found, definition_of, stays_at_type, sort_out, sort_out_at, reassociate,
  with_last, with_package, associate_file_markers,
}
use controller_tools.Markers.Collect.Associate.Pass.{
  Pass, PassNode, both, split_groups, markers_between-Pass, walk_node-Pass,
}

module _ (trim_space : Text → Text) (registry : Registry) where
  -- The registry has a definition of that target for a marker.
  abbrev pub IsDefined : TargetType → MarkerComment → Type 0
  IsDefined target m =
      (a : Address) × (lookup_marker (marker_text trim_space m) target registry ≡ some (some a))

  -- A marker at a type is from a godoc, or has a type definition, or has no package definition.
  abbrev pub IsOfType : MarkerComment → Type 0
  IsOfType m =
      (m.from_godoc ≡ true) ⊎ (IsDefined describes_type m ⊎ (IsDefined describes_package m → ⊥))

  -- What the markers of a node of a kind are.
  abbrev pub StaysAt : TargetType → List MarkerComment → Type 0
  StaysAt describes_type ms = All IsOfType ms
  StaysAt _ ms = Unit

  defined_lem :
      (o : Option (Option Address))
      → is_found (elim o [ none ↦ none | some a ↦ a ]) ≡ true
      → (a : Address) × (o ≡ some (some a))
  defined_lem none h = absurd (ground (arith, h))
  defined_lem (some none) h = absurd (ground (arith, h))
  defined_lem (some (some a)) h = (a, refl)

  undefined_lem :
      (o : Option (Option Address))
      → not (is_found (elim o [ none ↦ none | some a ↦ a ])) ≡ true
      → (a : Address) × (o ≡ some (some a))
      → ⊥
  undefined_lem none h (a, e) = cc
  undefined_lem (some none) h (a, e) = cc
  undefined_lem (some (some b)) h (a, e) = absurd (ground (arith, h))

  stays_lem : (m : MarkerComment) → stays_at_type trim_space registry m ≡ true → IsOfType m
  unfolding stays_at_type definition_of
  stays_lem m h = elim (Bool-cases m.from_godoc) [
    | inl g ↦ inl g
    | inr g ↦
        elim (Bool-cases
          (is_found (definition_of (marker_text trim_space m) describes_type registry))) [
            | inl t ↦ inr (inl (defined_lem _ t))
            | inr t ↦ inr (inr (undefined_lem _ (last_of _ _ _ g t h)))
          ]
  ]
    where
      last_of : (a b c : Bool) → a ≡ false → b ≡ false → (a || (b || c)) ≡ true → c ≡ true
      last_of a b c h k e = ground arith

  -- The markers of a node pass a test, and stay there if it is a type.
  abbrev pub IsSortedOut : (MarkerComment → Bool) → NodeMarkers → Type 0
  IsSortedOut p n = Pass p n.found × StaysAt n.target n.found

  module _ (p : MarkerComment → Bool) where
    sort_out-Pass :
        (ms : List MarkerComment)
        → Pass p ms
        → Pass p (sort_out trim_space registry ms).kept
          × Pass p (sort_out trim_space registry ms).moved
          × All IsOfType (sort_out trim_space registry ms).kept
    unfolding sort_out
    sort_out-Pass [] h = (tt, tt, tt)
    sort_out-Pass (m ∷ ms) h =
        let (kept, moved, stay) = sort_out-Pass ms h.1 in
        elim (Bool-cases (stays_at_type trim_space registry m)) [
          | inl e ↦ rw e ((h.0, kept), moved, (stays_lem m e, stay))
          | inr e ↦ rw e (kept, (h.0, moved), stay)
        ]

    sort_out_at-Pass :
        (target : TargetType) (ms : List MarkerComment)
        → Pass p ms
        → Pass p (sort_out_at trim_space registry target ms).kept
          × Pass p (sort_out_at trim_space registry target ms).moved
          × StaysAt target (sort_out_at trim_space registry target ms).kept
    unfolding sort_out_at
    sort_out_at-Pass describes_type ms h = sort_out-Pass ms h
    sort_out_at-Pass describes_field ms h = (h, tt, tt)
    sort_out_at-Pass describes_package ms h = (h, tt, tt)
    sort_out_at-Pass (other_target k) ms h = (h, tt, tt)

    reassociate-Pass :
        (ns : List NodeMarkers) (pkg : List MarkerComment)
        → All (PassNode p) ns
        → Pass p pkg
        → All (IsSortedOut p) (reassociate trim_space registry ns pkg).0
          × Pass p (reassociate trim_space registry ns pkg).1
    unfolding reassociate
    reassociate-Pass [] pkg h k = (tt, k)
    reassociate-Pass (n ∷ ns) pkg h k =
        let (kept, moved, stay) = sort_out_at-Pass n.target n.found h.0 in
        let (rest, all) = reassociate-Pass ns _ h.1 (both p pkg _ k moved) in
        (((kept, stay), rest), all)

    pass_prop : (ns : NodeMarkers) → IsProp (PassNode p ns)
    pass_prop n = All-prop _ (λ m. Bool-set (p m) true) n.found

    -- All markers pass the test, and those of a type stay there.
    pub associate_file_markers-IsSortedOut :
        (order : List NodeMarkers → List NodeMarkers) (all_comments : List CommentGroup)
        (file : Node)
        → IsOrder order
        → ((godoc : Bool) → Pass p (markers_in trim_space godoc all_comments))
        → All (IsSortedOut p) (associate_file_markers trim_space registry order all_comments file)
    unfolding associate_file_markers with_last with_package
    associate_file_markers-IsSortedOut order all_comments file o h =
        let passed = split_groups p trim_space all_comments all_comments h in
        let walked =
          walk_node-Pass p trim_space all_comments passed true file new_visitor
            (record { decl_pass = tt; pkg_pass = tt; node_pass = tt }) in
        let (ns, pkg) =
          reassociate-Pass _ _ (All-perm (PassNode p) pass_prop (Perm.symm (o _)) walked.node_pass)
            (both p _ _ walked.pkg_pass
              (markers_between-Pass p trim_space all_comments passed _ _ _)) in
        ((pkg, tt), ns)
