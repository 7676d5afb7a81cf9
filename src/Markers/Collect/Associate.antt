-- ===== src/Markers/Collect/Associate.antt =====
-- associateFileMarkers and associatePkgMarkers of pkg/markers/collect.go. The orders of the loops over
-- maps are parameters.
pub mod Found
mod Pass
pub mod Godoc
mod Walk
pub mod Owners
use controller_tools.Prelude.{
  ℕ, zero, suc, Bool, true, false, not, ◌&&◌, ◌||◌, Option, none, some, List, [], ◌∷◌, ◌++◌,
  if◌then◌else◌, length,
}
use controller_tools.Text.{Text}
use controller_tools.Markers.Definition.{
  TargetType, describes_package, describes_type, describes_field, other_target,
}
use controller_tools.Markers.Registry.{Address, Registry, lookup_marker}
use controller_tools.Markers.Collect.{
  CommentGroup, MarkerComment, NodeInfo, Node, node, Nodes, NodeMarkers, MarkerVisitor,
  append_markers, marker_text, markers_between, walk_node, walk_nodes,
}

-- The visitor before a file.
abbrev pub new_visitor : MarkerVisitor
new_visitor = record {
  comment_ind = 0;
  decl_comments = [];
  last_line = none;
  pkg_markers = [];
  node_markers = [];
}

abbrev pub node_id : Node → ℕ
node_id (node n children) = n.id

-- `Lookup`; the text of a marker comment is not empty, so that the lookup does not panic.
unfoldable pub definition_of : Text → TargetType → Registry → Option Address
unfolding lookup_marker
definition_of text target r = (elim (lookup_marker text target r) [ none ↦ none | some a ↦ a ])

abbrev pub is_found : Option Address → Bool
is_found none = false
is_found (some a) = true

-- A slice of markers cut in two: those that stay with a type, and those of the package.
pub record SortedOut : Type 0 where
  pub kept : List MarkerComment
  pub moved : List MarkerComment

module _ (trim_space : Text → Text) (registry : Registry) where
  -- Whether a marker above a type stays there.
  unfoldable pub stays_at_type : MarkerComment → Bool
  unfolding marker_text definition_of
  stays_at_type m =
      m.from_godoc
      || (is_found (definition_of (marker_text trim_space m) describes_type registry)
          || not (is_found (definition_of (marker_text trim_space m) describes_package registry)))

  unfoldable pub sort_out : List MarkerComment → SortedOut
  unfolding stays_at_type
  sort_out [] = record { kept = []; moved = [] }
  sort_out (m ∷ ms) =
      let rest = sort_out ms in
      if stays_at_type m
      then record { kept = m ∷ rest.kept; moved = rest.moved }
      else record { kept = rest.kept; moved = m ∷ rest.moved }

  -- The markers of a node that is no type all stay.
  unfoldable pub sort_out_at : TargetType → List MarkerComment → SortedOut
  unfolding sort_out
  sort_out_at describes_type ms = sort_out ms
  sort_out_at describes_field ms = record { kept = ms; moved = [] }
  sort_out_at describes_package ms = record { kept = ms; moved = [] }
  sort_out_at (other_target k) ms = record { kept = ms; moved = [] }

  -- The loop over the nodes: the nodes' markers and those of the package.
  unfoldable pub reassociate :
      List NodeMarkers → List MarkerComment → List NodeMarkers × List MarkerComment
  unfolding sort_out_at
  reassociate [] pkg = ([], pkg)
  reassociate (n ∷ ns) pkg =
      let s = sort_out_at n.target n.found in
      let rest = reassociate ns (pkg ++ s.moved) in (record n { found = s.kept } ∷ rest.0, rest.1)

  -- The visitor's markers after a walk, those at the end of the file included.
  unfoldable pub with_last : List CommentGroup → MarkerVisitor → MarkerVisitor
  unfolding markers_between
  with_last all_comments v = record v {
    pkg_markers =
        v.pkg_markers
        ++ markers_between trim_space all_comments false v.comment_ind (length all_comments);
  }

  -- `nodeMarkers[file] = pkgMarkers`; the file had no markers before.
  unfoldable pub with_package : ℕ → List NodeMarkers × List MarkerComment → List NodeMarkers
  with_package file_id (ns, pkg) =
      record { owner = file_id; target = describes_package; found = pkg } ∷ ns

  -- `associateFileMarkers`
  unfoldable pub associate_file_markers :
      (List NodeMarkers → List NodeMarkers) → List CommentGroup → Node → List NodeMarkers
  unfolding with_last reassociate with_package walk_node walk_nodes
  associate_file_markers order all_comments file =
      let v = with_last all_comments (walk_node trim_space all_comments true file new_visitor) in
      with_package (node_id file) (reassociate (order v.node_markers) v.pkg_markers)

  abbrev pub append_all : List NodeMarkers → List NodeMarkers → List NodeMarkers
  unfolding append_markers
  append_all [] ns = ns
  append_all (m ∷ ms) ns = append_all ms (append_markers m ns)

  -- `associatePkgMarkers`, over the files of a package with their comments.
  unfoldable pub associate_pkg_markers :
      (List NodeMarkers → List NodeMarkers)
      → List (List CommentGroup × Node)
      → List NodeMarkers
      → List NodeMarkers
  unfolding associate_file_markers append_markers
  associate_pkg_markers order [] ns = ns
  associate_pkg_markers order ((all_comments, file) ∷ files) ns =
      associate_pkg_markers order files
        (append_all (order (associate_file_markers order all_comments file)) ns)
