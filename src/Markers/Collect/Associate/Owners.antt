-- ===== src/Markers/Collect/Associate/Owners.antt =====
-- associateFileMarkers marks a comment as from a godoc only for the nodes that the godoc belongs to.
use mathlib.Core.Bool.{Bool-set}
use mathlib.Core.List.Perm
use controller_tools.Prelude.{
  ℕ, Bool, true, List, [], ◌∷◌, All, All-prop, All-perm, Bool-cases, inl, inr,
}
use controller_tools.Rbac.Rule.Laws.{IsOrder}
use controller_tools.Text.{Text}
use controller_tools.Markers.Definition.{
  TargetType, describes_package, describes_type, describes_field, other_target,
}
use controller_tools.Markers.Registry.{Registry}
use controller_tools.Markers.Collect.{CommentGroup, MarkerComment, Node, NodeMarkers, markers_in}
use controller_tools.Markers.Collect.Associate.{
  new_visitor, sort_out, sort_out_at, reassociate, with_last, with_package, associate_file_markers,
  stays_at_type,
}
use controller_tools.Markers.Collect.Associate.Pass.{Pass}
use controller_tools.Markers.Collect.Associate.Found.{
  IsSortedOut, associate_file_markers-IsSortedOut,
}
use controller_tools.Markers.Collect.Associate.Godoc.{Docs, docs_in, docs_of, in_docs, NodeOwns}
use controller_tools.Markers.Collect.Associate.Walk.{walk_node-owns}

-- The docs of the nodes of a file.
abbrev pub docs_of_file : Node → List (ℕ × List ℕ)
docs_of_file f = (docs_in f (record { pending = []; owned = [] })).owned

abbrev pub OfNode : TargetType → Type 0 → Type 0
OfNode describes_package P = Unit
OfNode _ P = P

-- The markers of a type or a field that are marked as from a godoc stand in its docs.
abbrev pub HasItsDocs : List CommentGroup → List (ℕ × List ℕ) → NodeMarkers → Type 0
HasItsDocs cs owned n = OfNode n.target (Pass (in_docs cs (docs_of n.owner owned)) n.found)

module _ (trim_space : Text → Text) (registry : Registry) where
  sort_out-kept :
      (p : MarkerComment → Bool) (ms : List MarkerComment)
      → Pass p ms
      → Pass p (sort_out trim_space registry ms).kept
  unfolding sort_out
  sort_out-kept p [] h = tt
  sort_out-kept p (m ∷ ms) h = elim (Bool-cases (stays_at_type trim_space registry m)) [
    | inl e ↦ rw e (h.0, sort_out-kept p ms h.1)
    | inr e ↦ rw e (sort_out-kept p ms h.1)
  ]

  sort_out_at-kept :
      (p : MarkerComment → Bool) (target : TargetType) (ms : List MarkerComment)
      → Pass p ms
      → OfNode target (Pass p (sort_out_at trim_space registry target ms).kept)
  unfolding sort_out_at
  sort_out_at-kept p describes_type ms h = sort_out-kept p ms h
  sort_out_at-kept p describes_field ms h = h
  sort_out_at-kept p describes_package ms h = tt
  sort_out_at-kept p (other_target k) ms h = h

  module _ (cs : List CommentGroup) (owned : List (ℕ × List ℕ)) where
    reassociate-HasItsDocs :
        (ns : List NodeMarkers) (pkg : List MarkerComment)
        → All (NodeOwns cs owned) ns
        → All (HasItsDocs cs owned) (reassociate trim_space registry ns pkg).0
    unfolding reassociate
    reassociate-HasItsDocs [] pkg h = tt
    reassociate-HasItsDocs (n ∷ ns) pkg h = (
      sort_out_at-kept (in_docs cs (docs_of n.owner owned)) n.target n.found h.0,
      reassociate-HasItsDocs ns _ h.1,
    )

    owns_prop : (n : NodeMarkers) → IsProp (NodeOwns cs owned n)
    owns_prop n = All-prop _ (λ m. Bool-set (in_docs cs (docs_of n.owner owned) m) true) n.found

  -- For a test that the marker comments of a file's comments pass, in a godoc or not: all markers that
  -- associateFileMarkers associates with a node pass it; those of a field that it marks as from a godoc
  -- stand in the field's godoc; those of a type stand in the type's godoc or that of a declaration of a
  -- single type which no other type has followed yet; and a type keeps another marker only if it has a
  -- type definition or no package definition.
  pub associate_file_markers-HasItsDocs :
      (p : MarkerComment → Bool) (order : List NodeMarkers → List NodeMarkers)
      (cs : List CommentGroup) (root : Node)
      → IsOrder order
      → ((godoc : Bool) → Pass p (markers_in trim_space godoc cs))
      → All
          (HasItsDocs cs (docs_of_file root))
          (associate_file_markers trim_space registry order cs root)
        × All
            (IsSortedOut trim_space registry p)
            (associate_file_markers trim_space registry order cs root)
  unfolding associate_file_markers with_last with_package
  associate_file_markers-HasItsDocs p order cs root o h =
      let s : Docs = record { pending = []; owned = [] } in
      let walked =
        walk_node-owns trim_space cs true root s new_visitor
          (record { decl_owns = tt; node_owns = tt }) in
      (
        (
          tt,
          reassociate-HasItsDocs cs (docs_of_file root) _ _ (
              All-perm (NodeOwns cs (docs_of_file root)) (owns_prop cs (docs_of_file root))
                (Perm.symm (o _)) walked.node_owns),
        ),
        associate_file_markers-IsSortedOut trim_space registry p order cs root o h,
      )
