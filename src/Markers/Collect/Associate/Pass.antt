-- ===== src/Markers/Collect/Associate/Pass.antt =====
-- A test that all marker comments of a file pass is passed by all markers that the walk associates.
use controller_tools.Prelude.{
  ℕ, zero, suc, ◌+◌, ◌-◌, ◌≡◌, Bool, true, false, not, ◌&&◌, ◌||◌, Option, List, [], ◌∷◌, ◌++◌,
  if◌then◌else◌, length, ltb, ◌==◌, All, All-append, Bool-cases, inl, inr,
}
use controller_tools.Text.{Text}
use controller_tools.Markers.Collect.{
  CommentGroup, MarkerComment, NodeKind, file, field, func_decl, import_spec, type_spec, value_spec,
  other_node, gen_decl, NodeInfo, Node, node, Nodes, no_nodes, nodes, NodeMarkers, MarkerVisitor,
  starts_at, drop_groups, take_groups, add_package_markers, append_markers, add_node_markers,
  assign_markers, collects, group_markers, markers_in, markers_between, skip_line, next_group,
  split_comments, enter_before, enter_at, enter, leave, walk_node, walk_nodes,
}

-- A test that all markers of a list pass.
abbrev pub Pass : (MarkerComment → Bool) → List MarkerComment → Type 0
Pass p = All (λ m. p m ≡ true)

module _ (p : MarkerComment → Bool) where
  abbrev pub PassNode : NodeMarkers → Type 0
  PassNode n = Pass p n.found

  -- All markers that a visitor holds pass the test.
  pub record PassVisitor (v : MarkerVisitor) : Type 0 where
    pub decl_pass : Pass p v.decl_comments
    pub pkg_pass : Pass p v.pkg_markers
    pub node_pass : All PassNode v.node_markers

  pub both : (xs ys : List MarkerComment) → Pass p xs → Pass p ys → Pass p (xs ++ ys)
  both = All-append (λ m. p m ≡ true)

  All-split : (xs ys : List MarkerComment) → Pass p (xs ++ ys) → Pass p xs × Pass p ys
  All-split [] ys h = (tt, h)
  All-split (x ∷ xs) ys h = let (a, b) = All-split xs ys h.1 in ((h.0, a), b)

  append_markers-Pass :
      (m : NodeMarkers) (ns : List NodeMarkers)
      → PassNode m
      → All PassNode ns
      → All PassNode (append_markers m ns)
  unfolding append_markers
  append_markers-Pass m [] h hs = (h, tt)
  append_markers-Pass m (n ∷ ns) h hs = elim (Bool-cases (n.owner == m.owner)) [
    | inl e ↦ rw e (both n.found m.found hs.0 h, hs.1)
    | inr e ↦ rw e (hs.0, append_markers-Pass m ns h hs.1)
  ]

  add_package_markers-Pass :
      (ms : List MarkerComment) (v : MarkerVisitor)
      → Pass p ms
      → PassVisitor v
      → PassVisitor (add_package_markers ms v)
  unfolding add_package_markers
  add_package_markers-Pass ms v h k = record {
    decl_pass = k.decl_pass;
    pkg_pass = both v.pkg_markers ms k.pkg_pass h;
    node_pass = k.node_pass;
  }

  add_node_markers-Pass :
      (m : NodeMarkers) (v : MarkerVisitor)
      → PassNode m
      → PassVisitor v
      → PassVisitor (add_node_markers m v)
  unfolding add_node_markers
  add_node_markers-Pass m v h k = record {
    decl_pass = k.decl_pass;
    pkg_pass = k.pkg_pass;
    node_pass = append_markers-Pass m v.node_markers h k.node_pass;
  }

  if-Pass :
      (b : Bool) (v w : MarkerVisitor)
      → PassVisitor v
      → PassVisitor w
      → PassVisitor (if b then v else w)
  if-Pass true v w h k = h
  if-Pass false v w h k = k

  assign_markers-Pass :
      (collect : Bool) (n : NodeInfo) (kind : NodeKind) (block docs : List MarkerComment)
      (v : MarkerVisitor)
      → Pass p block
      → Pass p docs
      → PassVisitor v
      → PassVisitor (assign_markers collect n kind block docs v)
  unfolding assign_markers
  assign_markers-Pass collect n (gen_decl has_paren is_type) block docs v b d k =
      if-Pass (has_paren || not is_type) _ _ (add_package_markers-Pass block v b k) (record {
        decl_pass = both v.decl_comments (block ++ docs) k.decl_pass (both block docs b d);
        pkg_pass = k.pkg_pass;
        node_pass = k.node_pass;
      })
  assign_markers-Pass collect n type_spec block docs v b d k =
      add_node_markers-Pass _ _
        (both v.decl_comments (block ++ docs) k.decl_pass (both block docs b d))
        (record { decl_pass = tt; pkg_pass = k.pkg_pass; node_pass = k.node_pass })
  assign_markers-Pass collect n field block docs v b d k =
      add_node_markers-Pass _ v (both block docs b d) k
  assign_markers-Pass collect n file block docs v b d k =
      add_package_markers-Pass _ v (both block docs b d) k
  assign_markers-Pass collect n func_decl block docs v b d k =
      if-Pass collect _ _ (add_package_markers-Pass block v b k) k
  assign_markers-Pass collect n import_spec block docs v b d k =
      if-Pass collect _ _ (add_package_markers-Pass block v b k) k
  assign_markers-Pass collect n value_spec block docs v b d k =
      if-Pass collect _ _ (add_package_markers-Pass block v b k) k
  assign_markers-Pass collect n other_node block docs v b d k =
      if-Pass collect _ _ (add_package_markers-Pass block v b k) k

  module _ (trim_space : Text → Text) (all_comments : List CommentGroup) where
    -- All marker comments of these groups pass the test, in a godoc or not.
    abbrev pub PassGroups : List CommentGroup → Type 0
    PassGroups gs =
        (godoc : Bool) → All (λ g. Pass p (group_markers trim_space godoc g.comments)) gs

    pub split_groups :
        (gs : List CommentGroup)
        → ((godoc : Bool) → Pass p (markers_in trim_space godoc gs))
        → PassGroups gs
    unfolding markers_in
    split_groups [] h godoc = tt
    split_groups (g ∷ gs) h godoc = (
      (All-split _ _ (h godoc)).0,
      split_groups gs (λ d. (All-split (group_markers trim_space d g.comments) _ (h d)).1) godoc,
    )

    markers_in-Pass :
        (godoc : Bool) (gs : List CommentGroup)
        → All (λ g. Pass p (group_markers trim_space godoc g.comments)) gs
        → Pass p (markers_in trim_space godoc gs)
    unfolding markers_in
    markers_in-Pass godoc [] h = tt
    markers_in-Pass godoc (g ∷ gs) h = both _ _ h.0 (markers_in-Pass godoc gs h.1)

    drop_groups-All :
        (Q : CommentGroup → Type 0) (n : ℕ) (gs : List CommentGroup)
        → All Q gs
        → All Q (drop_groups n gs)
    unfolding drop_groups
    drop_groups-All Q zero gs h = h
    drop_groups-All Q (suc n) [] h = tt
    drop_groups-All Q (suc n) (g ∷ gs) h = drop_groups-All Q n gs h.1

    take_groups-All :
        (Q : CommentGroup → Type 0) (n : ℕ) (gs : List CommentGroup)
        → All Q gs
        → All Q (take_groups n gs)
    unfolding take_groups
    take_groups-All Q zero gs h = tt
    take_groups-All Q (suc n) [] h = tt
    take_groups-All Q (suc n) (g ∷ gs) h = (h.0, take_groups-All Q n gs h.1)

    module _ (h : PassGroups all_comments) where
      pub markers_between-Pass :
          (godoc : Bool) (start stop : ℕ)
          → Pass p (markers_between trim_space all_comments godoc start stop)
      unfolding markers_between
      markers_between-Pass godoc start stop =
          markers_in-Pass godoc (take_groups (stop - start) (drop_groups start all_comments)) (
            take_groups-All _ (stop - start) (drop_groups start all_comments)
              (drop_groups-All _ start all_comments (h godoc)))

      split_comments-Pass :
          (collect : Bool) (n : NodeInfo) (free stop : ℕ) (v : MarkerVisitor)
          → PassVisitor v
          → PassVisitor (split_comments trim_space all_comments collect n free stop v)
      unfolding split_comments
      split_comments-Pass collect n free stop v k =
          if-Pass (ltb v.comment_ind free) _ _
            (assign_markers-Pass collect n n.kind _ _ _ (markers_between-Pass _ _ _)
              (markers_between-Pass _ _ _)
              (if-Pass collect _ _ (add_package_markers-Pass _ v (markers_between-Pass _ _ _) k) k))
            (assign_markers-Pass collect n n.kind [] _ v tt (markers_between-Pass _ _ _) k)

      -- The index and the last comment do not matter.
      moved_to :
          (v : MarkerVisitor) (ind : ℕ) (line : Option ℕ)
          → PassVisitor v
          → PassVisitor (record v { comment_ind = ind; last_line = line })
      moved_to v ind line k = record {
        decl_pass = k.decl_pass;
        pkg_pass = k.pkg_pass;
        node_pass = k.node_pass;
      }

      enter_before-Pass :
          (collect : Bool) (n : NodeInfo) (stop : ℕ) (v : MarkerVisitor)
          → PassVisitor v
          → PassVisitor (enter_before trim_space all_comments collect n stop v)
      unfolding enter_before
      enter_before-Pass collect n stop v k =
          moved_to _ stop _ (split_comments-Pass collect n _ stop _ (moved_to v v.comment_ind _ k))

      enter-Pass :
          (collect : Bool) (n : NodeInfo) (v : MarkerVisitor)
          → PassVisitor v
          → PassVisitor (enter trim_space all_comments collect n v)
      unfolding enter enter_at skip_line
      enter-Pass collect n v k = enter_at-Pass (skip_line trim_space all_comments v) (
          if-Pass (starts_at v.last_line (drop_groups v.comment_ind all_comments)) _ _
            (moved_to v (v.comment_ind + 1) v.last_line k) k)
        where
          enter_at-Pass :
              (w : MarkerVisitor)
              → PassVisitor w
              → PassVisitor (enter_at trim_space all_comments collect n w)
          enter_at-Pass w l =
              if-Pass (ltb w.comment_ind (length all_comments)) _ _
                (enter_before-Pass collect n _ w l)
                (moved_to _ _ _ (assign_markers-Pass collect n n.kind [] [] w tt tt l))

      leave-Pass :
          (n : NodeInfo) (v : MarkerVisitor)
          → PassVisitor v
          → PassVisitor (leave trim_space all_comments n v)
      unfolding leave
      leave-Pass n v k =
          if-Pass (not (collects n.kind) && ltb v.comment_ind (length all_comments)) _ _
            (moved_to v (next_group trim_space all_comments v n.end_pos) v.last_line k) k

      mutual
        unfolding walk_node walk_nodes

        pub walk_node-Pass :
            (collect : Bool) (n : Node) (v : MarkerVisitor)
            → PassVisitor v
            → PassVisitor (walk_node trim_space all_comments collect n v)
        walk_node-Pass collect (node n children) v k =
            leave-Pass n _ (walk_nodes-Pass (collects n.kind) children _ (enter-Pass collect n v k))

        walk_nodes-Pass :
            (collect : Bool) (ns : Nodes) (v : MarkerVisitor)
            → PassVisitor v
            → PassVisitor (walk_nodes trim_space all_comments collect ns v)
        walk_nodes-Pass collect no_nodes v k = k
        walk_nodes-Pass collect (nodes n ns) v k =
            walk_nodes-Pass collect ns _ (walk_node-Pass collect n v k)
