-- ===== src/Markers/Collect/Associate/Walk.antt =====
-- The walk marks a comment as from a godoc only for the nodes that the godoc belongs to.
use controller_tools.Prelude.{
  ℕ, zero, suc, ◌+◌, ◌-◌, ◌≡◌, refl, sym, ap, ◌∙◌, subst, Bool, true, false, not, ◌&&◌, ◌||◌,
  Option, none, some, List, [], ◌∷◌, length, ltb, ◌==◌, any, All, All-append, Bool-cases, inl, inr,
  arith,
}
use controller_tools.Text.{Text, mem, eq_text_refl}
use controller_tools.Markers.Collect.{
  CommentGroup, MarkerComment, NodeKind, file, field, func_decl, import_spec, type_spec, value_spec,
  other_node, gen_decl, NodeInfo, Node, node, Nodes, no_nodes, nodes, MarkerVisitor,
  associated_comments_for, starts_at, drop_groups, take_groups, collects, is_marker_comment,
  group_markers, markers_in, markers_between, skip_line, next_group, marker_end, split_comments,
  enter_before, enter_at, enter, leave, walk_node, walk_nodes,
}
use controller_tools.Markers.Collect.Associate.Pass.{Pass}
use controller_tools.Markers.Collect.Associate.Godoc.{
  Docs, own_doc, kind_doc, docs_at, docs_in, docs_in_all, in_docs, VisitorOwns, if-owns,
  package_owns, assign_markers-owns,
}

any_drop :
    (q : CommentGroup → Bool) (n : ℕ) (gs : List CommentGroup)
    → any q (drop_groups n gs) ≡ true
    → any q gs ≡ true
unfolding drop_groups
any_drop q zero gs h = h
any_drop q (suc n) [] h = h
any_drop q (suc n) (g ∷ gs) h = ground (arith, any_drop q n gs h)

one_left : (n : ℕ) → suc n - n ≡ 1
one_left n = omega arith

none_left : (n : ℕ) → n - n ≡ 0
none_left n = omega arith

right : (a b : Bool) → b ≡ true → (a || b) ≡ true
right a b h = ground arith

at_head : (a b c : Bool) → a ≡ true → b ≡ true → (((a || false) && b) || c) ≡ true
at_head a b c h k = ground arith

doc_lem :
    (kind : NodeKind) (id pos end_pos : ℕ) (doc line : Option ℕ)
    → (associated_comments_for (record {
      kind = kind;
      id = id;
      pos = pos;
      end_pos = end_pos;
      doc = doc;
      line_comment = line;
    })).0
      ≡ kind_doc kind doc
unfolding associated_comments_for
doc_lem file id pos end_pos doc line = refl
doc_lem field id pos end_pos doc line = refl
doc_lem func_decl id pos end_pos doc line = refl
doc_lem import_spec id pos end_pos doc line = refl
doc_lem type_spec id pos end_pos doc line = refl
doc_lem value_spec id pos end_pos doc line = refl
doc_lem other_node id pos end_pos doc line = refl
doc_lem (gen_decl p t) id pos end_pos doc line = refl

module _ (trim_space : Text → Text) where
  -- The comments of a group's markers are the group's.
  group_markers-mem :
      (godoc : Bool) (all : List Text) (comments : List Text)
      → ((c : Text) → mem c comments ≡ true → mem c all ≡ true)
      → All
          (λ m. (m.from_godoc ≡ godoc) × (mem m.comment all ≡ true))
          (group_markers trim_space godoc comments)
  unfolding group_markers
  group_markers-mem godoc all [] f = tt
  group_markers-mem godoc all (c ∷ cs) f = elim (Bool-cases (is_marker_comment trim_space c)) [
    | inl e ↦
        rw e
          ((refl, f c (first c cs)), group_markers-mem godoc all cs (λ d k. f d (later d c cs k)))
    | inr e ↦ rw e (group_markers-mem godoc all cs (λ d k. f d (later d c cs k)))
  ]
    where
      first : (c : Text) (cs : List Text) → mem c (c ∷ cs) ≡ true
      first c cs = unfold mem in (ground (arith, eq_text_refl c))

      later : (d c : Text) (cs : List Text) → mem d cs ≡ true → mem d (c ∷ cs) ≡ true
      later d c cs k = unfold mem in (ground (arith, k))

  module _ (cs : List CommentGroup) where
    -- Markers that are not marked as from a godoc belong to any docs.
    free_group :
        (ds : List ℕ) (comments : List Text)
        → Pass (in_docs cs ds) (group_markers trim_space false comments)
    unfolding group_markers
    free_group ds [] = tt
    free_group ds (c ∷ comments) = elim (Bool-cases (is_marker_comment trim_space c)) [
      | inl e ↦ rw e (refl, free_group ds comments)
      | inr e ↦ rw e (free_group ds comments)
    ]

    free_groups :
        (ds : List ℕ) (gs : List CommentGroup)
        → Pass (in_docs cs ds) (markers_in trim_space false gs)
    unfolding markers_in
    free_groups ds [] = tt
    free_groups ds (g ∷ gs) = All-append _ _ _ (free_group ds g.comments) (free_groups ds gs)

    free_between :
        (ds : List ℕ) (start stop : ℕ)
        → Pass (in_docs cs ds) (markers_between trim_space cs false start stop)
    unfolding markers_between
    free_between ds start stop = free_groups ds (take_groups (stop - start) (drop_groups start cs))

    -- The group that is the godoc of a node.
    doc_group :
        (doc : Option ℕ) (last : ℕ) (gs : List CommentGroup)
        → drop_groups last cs ≡ gs
        → starts_at doc gs ≡ true
        → Pass (in_docs cs (own_doc doc)) (markers_in trim_space true (take_groups 1 gs))
    unfolding markers_in take_groups
    doc_group none last gs e h = absurd (ground arith)
    doc_group (some p) last [] e h = tt
    doc_group (some p) last (g ∷ gs) e h =
        All-append _ (group_markers trim_space true g.comments) []
          (each _ (group_markers-mem true g.comments g.comments (λ c k. k))) tt
      where
        each :
            (ms : List MarkerComment)
            → All (λ m. (m.from_godoc ≡ true) × (mem m.comment g.comments ≡ true)) ms
            → Pass (in_docs cs (p ∷ [])) ms
        each [] k = tt
        each (m ∷ ms) k = (
          right (not m.from_godoc) _ (
              any_drop (λ x. any (λ d. x.group_pos == d) (p ∷ []) && mem m.comment x.comments) last
                cs
                (sym (
                    ap (any (λ x. any (λ d. x.group_pos == d) (p ∷ []) && mem m.comment x.comments))
                      (sym e))
                  ∙ at_head (g.group_pos == p) (mem m.comment g.comments) _ h k.0.1)),
          each ms k.1,
        )

    docs_between :
        (doc : Option ℕ) (stop : ℕ)
        → Pass
            (in_docs cs (own_doc doc))
            (markers_between trim_space cs true (marker_end trim_space cs doc stop) stop)
    unfolding markers_between marker_end take_groups markers_in
    docs_between doc zero = tt
    docs_between doc (suc last) = elim (Bool-cases (starts_at doc (drop_groups last cs))) [
      | inl e ↦ rw e (
          subst
            (λ k.
              Pass (in_docs cs (own_doc doc))
                (markers_in trim_space true (take_groups k (drop_groups last cs))))
            (sym (one_left last)) (doc_group doc last (drop_groups last cs) refl e))
      | inr e ↦ rw e (
          subst
            (λ k.
              Pass (in_docs cs (own_doc doc))
                (markers_in trim_space true (take_groups k (drop_groups (suc last) cs))))
            (sym (none_left (suc last))) tt)
    ]

    -- The index and the last comment do not matter.
    moved_to :
        (s : Docs) (v : MarkerVisitor) (ind : ℕ) (line : Option ℕ)
        → VisitorOwns cs s v
        → VisitorOwns cs s (record v { comment_ind = ind; last_line = line })
    moved_to s v ind line h = record { decl_owns = h.decl_owns; node_owns = h.node_owns }

    enter_before-owns :
        (collect : Bool) (n : NodeInfo) (stop : ℕ) (s : Docs) (v : MarkerVisitor)
        → VisitorOwns cs s v
        → VisitorOwns cs (docs_at n.kind n s) (enter_before trim_space cs collect n stop v)
    unfolding enter_before split_comments
    enter_before-owns collect n stop s v h =
        let doc = (associated_comments_for n).0 in
        let free = marker_end trim_space cs doc stop in
        let w = record v { last_line = (associated_comments_for n).1 } in
        let d =
          subst (λ o. Pass (in_docs cs (own_doc o)) (markers_between trim_space cs true free stop))
            (doc_lem n.kind n.id n.pos n.end_pos n.doc n.line_comment) (docs_between doc stop) in
        let k = moved_to s v v.comment_ind (associated_comments_for n).1 h in
        moved_to (docs_at n.kind n s) _ stop _ (
          if-owns cs (ltb w.comment_ind free) (docs_at n.kind n s) _ _
            (assign_markers-owns cs collect n n.kind _ _ s _ (λ ds. free_between ds _ _) d
              (if-owns cs collect s _ _ (package_owns cs s _ w k) k))
            (assign_markers-owns cs collect n n.kind [] _ s w (λ ds. tt) d k))

    enter-owns :
        (collect : Bool) (n : NodeInfo) (s : Docs) (v : MarkerVisitor)
        → VisitorOwns cs s v
        → VisitorOwns cs (docs_at n.kind n s) (enter trim_space cs collect n v)
    unfolding enter enter_at skip_line
    enter-owns collect n s v h = enter_at-owns (skip_line trim_space cs v) (
        if-owns cs (starts_at v.last_line (drop_groups v.comment_ind cs)) s _ _
          (moved_to s v (v.comment_ind + 1) v.last_line h) h)
      where
        enter_at-owns :
            (w : MarkerVisitor)
            → VisitorOwns cs s w
            → VisitorOwns cs (docs_at n.kind n s) (enter_at trim_space cs collect n w)
        enter_at-owns w k =
            if-owns cs (ltb w.comment_ind (length cs)) (docs_at n.kind n s) _ _
              (enter_before-owns collect n _ s w k)
              (moved_to (docs_at n.kind n s) _ _ _
                (assign_markers-owns cs collect n n.kind [] [] s w (λ ds. tt) tt k))

    leave-owns :
        (n : NodeInfo) (s : Docs) (v : MarkerVisitor)
        → VisitorOwns cs s v
        → VisitorOwns cs s (leave trim_space cs n v)
    unfolding leave
    leave-owns n s v h =
        if-owns cs (not (collects n.kind) && ltb v.comment_ind (length cs)) s _ _
          (moved_to s v (next_group trim_space cs v n.end_pos) v.last_line h) h

    mutual
      unfolding walk_node walk_nodes docs_in docs_in_all

      pub walk_node-owns :
          (collect : Bool) (n : Node) (s : Docs) (v : MarkerVisitor)
          → VisitorOwns cs s v
          → VisitorOwns cs (docs_in n s) (walk_node trim_space cs collect n v)
      walk_node-owns collect (node n children) s v h =
          leave-owns n _ _
            (walk_nodes-owns (collects n.kind) children _ _ (enter-owns collect n s v h))

      walk_nodes-owns :
          (collect : Bool) (ns : Nodes) (s : Docs) (v : MarkerVisitor)
          → VisitorOwns cs s v
          → VisitorOwns cs (docs_in_all ns s) (walk_nodes trim_space cs collect ns v)
      walk_nodes-owns collect no_nodes s v h = h
      walk_nodes-owns collect (nodes n ns) s v h =
          walk_nodes-owns collect ns _ _ (walk_node-owns collect n s v h)
