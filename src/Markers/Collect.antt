-- ===== src/Markers/Collect.antt =====
-- The visitor of pkg/markers/collect.go, which associates marker comments with the nodes of a file. A
-- file is its tree of nodes and its comment groups in the order of their positions; the group of a doc
-- comment stands among them, before its node. `strings.TrimSpace` is a parameter.
pub mod Associate
pub mod Parse
mod Tests
use controller_tools.Prelude.{
  ℕ, zero, suc, ◌+◌, ◌-◌, Bool, true, false, not, ◌&&◌, ◌||◌, Option, none, some, List, [], ◌∷◌,
  ◌++◌, if◌then◌else◌, length, ltb, ◌==◌, any, map,
}
use controller_tools.Prelude.Assoc.{lookup, put}
use controller_tools.Prelude.Result.{Result, ok, err}
use controller_tools.Text.{Text, codes, eq_text}
use controller_tools.Markers.Definition.{
  TargetType, describes_package, describes_type, describes_field, Definition,
}

-- `ast.CommentGroup`: its position and the texts of its comments.
pub record CommentGroup : Type 0 where
  pub group_pos : ℕ
  pub comments : List Text

-- `markerComment`
pub record MarkerComment : Type 0 where
  pub comment : Text
  pub from_godoc : Bool

-- The kinds of nodes that the code tells apart; a declaration has its parenthesis, and the test
-- whether it declares types.
pub data NodeKind : Type 0 where
  file field func_decl import_spec type_spec value_spec other_node : NodeKind
  gen_decl : (has_paren is_type : Bool) → NodeKind

-- A node has an identity, a position and an end, the positions of its doc comment and of its comment on
-- the last line, and its children.
pub record NodeInfo : Type 0 where
  pub kind : NodeKind
  pub id : ℕ
  pub pos : ℕ
  pub end_pos : ℕ
  pub doc : Option ℕ
  pub line_comment : Option ℕ

mutual
  pub data Node : Type 0 where
    node : NodeInfo → Nodes → Node

  pub data Nodes : Type 0 where
    no_nodes : Nodes
    nodes : Node → Nodes → Nodes

-- The markers of one node in `nodeMarkers`: the node's identity, and the target that its kind stands
-- for.
pub record NodeMarkers : Type 0 where
  pub owner : ℕ
  pub target : TargetType
  pub found : List MarkerComment

-- `markerVisitor` without the comments: what its pointer shares among the visitors of a file.
pub record MarkerVisitor : Type 0 where
  pub comment_ind : ℕ
  pub decl_comments : List MarkerComment
  pub last_line : Option ℕ
  pub pkg_markers : List MarkerComment
  pub node_markers : List NodeMarkers

-- `associatedCommentsFor`
unfoldable pub associated_comments_for : NodeInfo → Option ℕ × Option ℕ
associated_comments_for n = by_kind n.kind n.doc n.line_comment
  where
    by_kind : NodeKind → Option ℕ → Option ℕ → Option ℕ × Option ℕ
    by_kind field d l = (d, l)
    by_kind file d l = (d, none)
    by_kind func_decl d l = (d, none)
    by_kind (gen_decl has_paren is_type) d l = (d, none)
    by_kind import_spec d l = (d, l)
    by_kind type_spec d l = (d, l)
    by_kind value_spec d l = (d, l)
    by_kind other_node d l = (none, none)

-- The number of the groups at the start of a list that stand before a position.
unfoldable pub groups_before : ℕ → List CommentGroup → ℕ
groups_before limit [] = 0
groups_before limit (g ∷ gs) =
    let rest = groups_before limit gs in if ltb g.group_pos limit then suc rest else 0

unfoldable pub drop_groups : ℕ → List CommentGroup → List CommentGroup
drop_groups zero gs = gs
drop_groups (suc n) [] = []
drop_groups (suc n) (g ∷ gs) = drop_groups n gs

unfoldable pub take_groups : ℕ → List CommentGroup → List CommentGroup
take_groups zero gs = []
take_groups (suc n) [] = []
take_groups (suc n) (g ∷ gs) = g ∷ take_groups n gs

-- Whether a group is at an index and has that position.
abbrev pub starts_at : Option ℕ → List CommentGroup → Bool
starts_at (some p) (g ∷ gs) = g.group_pos == p
starts_at _ _ = false

-- `pkgMarkers = append(pkgMarkers, ms...)`
unfoldable pub add_package_markers : List MarkerComment → MarkerVisitor → MarkerVisitor
add_package_markers ms v = record v { pkg_markers = v.pkg_markers ++ ms }

-- `nodeMarkers[node] = append(nodeMarkers[node], ms...)`
unfoldable pub append_markers : NodeMarkers → List NodeMarkers → List NodeMarkers
append_markers m [] = m ∷ []
append_markers m (n ∷ ns) =
    if n.owner == m.owner
    then record n { found = n.found ++ m.found } ∷ ns
    else n ∷ append_markers m ns

unfoldable pub add_node_markers : NodeMarkers → MarkerVisitor → MarkerVisitor
unfolding append_markers
add_node_markers m v = record v { node_markers = append_markers m v.node_markers }

-- The switch of `Visit`, for the markers of the closest block and those of the godoc.
unfoldable pub assign_markers :
    Bool → NodeInfo → NodeKind → (block docs : List MarkerComment) → MarkerVisitor → MarkerVisitor
unfolding add_package_markers add_node_markers
assign_markers collect n (gen_decl has_paren is_type) block docs v =
    if has_paren || not is_type
    then add_package_markers block v
    else record v { decl_comments = v.decl_comments ++ (block ++ docs) }
assign_markers collect n type_spec block docs v =
    add_node_markers
      (record { owner = n.id; target = describes_type; found = v.decl_comments ++ (block ++ docs) })
      (record v { decl_comments = [] })
assign_markers collect n field block docs v =
    add_node_markers (record { owner = n.id; target = describes_field; found = block ++ docs }) v
assign_markers collect n file block docs v = add_package_markers (block ++ docs) v
assign_markers collect n func_decl block docs v = if collect then add_package_markers block v else v
assign_markers collect n import_spec block docs v =
    if collect then add_package_markers block v else v
assign_markers collect n value_spec block docs v =
    if collect then add_package_markers block v else v
assign_markers collect n other_node block docs v =
    if collect then add_package_markers block v else v

-- Whether the children of a node may have markers of the package.
abbrev pub collects : NodeKind → Bool
collects file = true
collects _ = false

module _ (trim_space : Text → Text) where
  -- `isMarkerComment`; a comment has at least two bytes.
  unfoldable pub is_marker_comment : Text → Bool
  is_marker_comment (a ∷ b ∷ rest) =
      a == b'/' && b == b'/' && (elim (trim_space rest) [ [] ↦ false | c ∷ t ↦ c == b'+' ])
  is_marker_comment _ = false

  -- `markerComment.Text`
  unfoldable pub marker_text : MarkerComment → Text
  marker_text m = text_of m.comment
    where
      text_of : Text → Text
      text_of (a ∷ b ∷ rest) = trim_space rest
      text_of _ = []

  unfoldable pub group_markers : Bool → List Text → List MarkerComment
  unfolding is_marker_comment
  group_markers godoc [] = []
  group_markers godoc (c ∷ cs) =
      let rest = group_markers godoc cs in
      if is_marker_comment c then record { comment = c; from_godoc = godoc } ∷ rest else rest

  unfoldable pub markers_in : Bool → List CommentGroup → List MarkerComment
  unfolding group_markers
  markers_in godoc [] = []
  markers_in godoc (g ∷ gs) = group_markers godoc g.comments ++ markers_in godoc gs

  module _ (all_comments : List CommentGroup) where
    -- `markersBetween`
    unfoldable pub markers_between : Bool → ℕ → ℕ → List MarkerComment
    unfolding markers_in drop_groups take_groups
    markers_between godoc start stop =
        markers_in godoc (take_groups (stop - start) (drop_groups start all_comments))

    -- The comments before a node: the free ones, the closest block and the godoc.
    unfoldable pub skip_line : MarkerVisitor → MarkerVisitor
    unfolding drop_groups
    skip_line v =
        if starts_at v.last_line (drop_groups v.comment_ind all_comments)
        then record v { comment_ind = v.comment_ind + 1 }
        else v

    -- The index after the last comment before a node.
    unfoldable pub next_group : MarkerVisitor → ℕ → ℕ
    unfolding groups_before drop_groups
    next_group v limit =
        v.comment_ind + groups_before limit (drop_groups v.comment_ind all_comments)

    -- The index after the last comment before a node that is not its godoc.
    unfoldable pub marker_end : Option ℕ → ℕ → ℕ
    unfolding drop_groups
    marker_end doc zero = 0
    marker_end doc (suc last) =
        if starts_at doc (drop_groups last all_comments) then last else suc last

    -- `Visit` at a node for which there are comments left: `stop` is the index after the last comment
    -- before it, and `free` that after the last one that is not its godoc.
    unfoldable pub split_comments : Bool → NodeInfo → ℕ → ℕ → MarkerVisitor → MarkerVisitor
    unfolding markers_between add_package_markers assign_markers
    split_comments collect n free stop v =
        let docs = markers_between true free stop in
        if ltb v.comment_ind free
        then assign_markers collect n n.kind (markers_between false (free - 1) free) docs (
            if collect
            then add_package_markers (markers_between false v.comment_ind (free - 1)) v
            else v)
        else assign_markers collect n n.kind [] docs v

    unfoldable pub enter_before : Bool → NodeInfo → ℕ → MarkerVisitor → MarkerVisitor
    unfolding split_comments marker_end associated_comments_for
    enter_before collect n stop v =
        let (doc, line) = associated_comments_for n in
        record (split_comments collect n (marker_end doc stop) stop
          (record v { last_line = line })) { comment_ind = stop }

    -- `Visit` at a node, after the comment on the last line of the node before.
    unfoldable pub enter_at : Bool → NodeInfo → MarkerVisitor → MarkerVisitor
    unfolding enter_before next_group assign_markers
    enter_at collect n v =
        if ltb v.comment_ind (length all_comments)
        then enter_before collect n (next_group v n.pos) v
        else record (assign_markers collect n n.kind [] [] v) { comment_ind = v.comment_ind + 1 }

    unfoldable pub enter : Bool → NodeInfo → MarkerVisitor → MarkerVisitor
    unfolding enter_at skip_line
    enter collect n v = enter_at collect n (skip_line v)

    -- `Visit` at nil, by the visitor of the node.
    unfoldable pub leave : NodeInfo → MarkerVisitor → MarkerVisitor
    unfolding next_group
    leave n v =
        if not (collects n.kind) && ltb v.comment_ind (length all_comments)
        then record v { comment_ind = next_group v n.end_pos }
        else v

    -- `ast.Walk`
    unfoldable mutual
      unfolding enter leave

      pub walk_node : Bool → Node → MarkerVisitor → MarkerVisitor
      walk_node collect (node n children) v =
          leave n (walk_nodes (collects n.kind) children (enter collect n v))

      pub walk_nodes : Bool → Nodes → MarkerVisitor → MarkerVisitor
      walk_nodes collect no_nodes v = v
      walk_nodes collect (nodes n ns) v = walk_nodes collect ns (walk_node collect n v)
