-- ===== src/Markers/Collect/Associate/Godoc.antt =====
-- Which markers of a node are marked as from its godoc.
use controller_tools.Prelude.{
  ℕ, ◌≡◌, sym, subst, Bool, true, false, not, ◌&&◌, ◌||◌, Option, none, some, List, [], ◌∷◌, ◌++◌,
  if◌then◌else◌, ◌==◌, any, any-append, All, All-append, Bool-cases, inl, inr, arith,
}
use controller_tools.Text.{mem}
use controller_tools.Markers.Collect.{
  CommentGroup, MarkerComment, NodeKind, file, field, func_decl, import_spec, type_spec, value_spec,
  other_node, gen_decl, NodeInfo, Node, node, Nodes, no_nodes, nodes, NodeMarkers, MarkerVisitor,
  add_package_markers, append_markers, add_node_markers, assign_markers,
}
use controller_tools.Markers.Collect.Associate.Pass.{Pass}

-- The positions of the docs that belong to a node: of a field its own; of a type its own and those of
-- the declarations of a single type since the type before.
pub record Docs : Type 0 where
  pub pending : List ℕ
  pub owned : List (ℕ × List ℕ)

abbrev pub own_doc : Option ℕ → List ℕ
own_doc none = []
own_doc (some d) = d ∷ []

-- Nodes of other kinds have no docs.
abbrev pub kind_doc : NodeKind → Option ℕ → Option ℕ
kind_doc other_node doc = none
kind_doc _ doc = doc

abbrev pub docs_at : NodeKind → NodeInfo → Docs → Docs
docs_at (gen_decl has_paren is_type) n s =
    if has_paren || not is_type then s else record s { pending = s.pending ++ own_doc n.doc }
docs_at type_spec n s = record {
  pending = [];
  owned = (n.id, s.pending ++ own_doc n.doc) ∷ s.owned;
}
docs_at field n s = record s { owned = (n.id, own_doc n.doc) ∷ s.owned }
docs_at _ n s = s

unfoldable mutual
  pub docs_in : Node → Docs → Docs
  docs_in (node n children) s = docs_in_all children (docs_at n.kind n s)

  pub docs_in_all : Nodes → Docs → Docs
  docs_in_all no_nodes s = s
  docs_in_all (nodes n ns) s = docs_in_all ns (docs_in n s)

abbrev pub docs_of : ℕ → List (ℕ × List ℕ) → List ℕ
docs_of id [] = []
docs_of id ((j, ds) ∷ owned) = if j == id then ds ++ docs_of id owned else docs_of id owned

-- A marker that is marked as from a godoc stands in a comment group at one of the positions.
abbrev pub in_docs : List CommentGroup → List ℕ → MarkerComment → Bool
in_docs cs ds m =
    not m.from_godoc || any (λ g. any (λ d. g.group_pos == d) ds && mem m.comment g.comments) cs

module _ (cs : List CommentGroup) where
  more_docs :
      (p q : CommentGroup → Bool) (m : MarkerComment) (gs : List CommentGroup)
      → ((g : CommentGroup) → p g ≡ true → q g ≡ true)
      → any (λ g. p g && mem m.comment g.comments) gs ≡ true
      → any (λ g. q g && mem m.comment g.comments) gs ≡ true
  more_docs p q m [] f h = h
  more_docs p q m (g ∷ gs) f h = ground (arith, f g, more_docs p q m gs f)

  grow :
      (ds es : List ℕ) (ms : List MarkerComment)
      → ((x : ℕ) → any (λ d. x == d) ds ≡ true → any (λ d. x == d) es ≡ true)
      → Pass (in_docs cs ds) ms
      → Pass (in_docs cs es) ms
  grow ds es [] f h = tt
  grow ds es (m ∷ ms) f h = (one (h.0), grow ds es ms f h.1)
    where
      one : in_docs cs ds m ≡ true → in_docs cs es m ≡ true
      one k = ground (
        arith,
        more_docs (λ g. any (λ d. g.group_pos == d) ds) (λ g. any (λ d. g.group_pos == d) es) m cs
            (λ g. f g.group_pos),
      )

  to_left :
      (ds es : List ℕ) (x : ℕ) → any (λ d. x == d) ds ≡ true → any (λ d. x == d) (ds ++ es) ≡ true
  to_left ds es x h = ground (arith, any-append (λ d. x == d) ds es)

  to_right :
      (ds es : List ℕ) (x : ℕ) → any (λ d. x == d) es ≡ true → any (λ d. x == d) (ds ++ es) ≡ true
  to_right ds es x h = ground (arith, any-append (λ d. x == d) ds es)

  abbrev pub NodeOwns : List (ℕ × List ℕ) → NodeMarkers → Type 0
  NodeOwns owned n = Pass (in_docs cs (docs_of n.owner owned)) n.found

  -- What a visitor holds belongs to the docs so far.
  pub record VisitorOwns (s : Docs) (v : MarkerVisitor) : Type 0 where
    pub decl_owns : Pass (in_docs cs s.pending) v.decl_comments
    pub node_owns : All (NodeOwns s.owned) v.node_markers

  -- A node more.
  owns_more :
      (id : ℕ) (ds : List ℕ) (owned : List (ℕ × List ℕ)) (ns : List NodeMarkers)
      → All (NodeOwns owned) ns
      → All (NodeOwns ((id, ds) ∷ owned)) ns
  owns_more id ds owned [] h = tt
  owns_more id ds owned (n ∷ ns) h = (
    elim (Bool-cases (id == n.owner)) [
      | inl e ↦ rw e (
          grow (docs_of n.owner owned) (ds ++ docs_of n.owner owned) n.found
            (to_right ds (docs_of n.owner owned)) h.0)
      | inr e ↦ rw e h.0
    ],
    owns_more id ds owned ns h.1,
  )

  same_owner : (a b : ℕ) → (a == b) ≡ true → a ≡ b
  same_owner a b e = ground arith

  append_markers-owns :
      (owned : List (ℕ × List ℕ)) (m : NodeMarkers) (ns : List NodeMarkers)
      → NodeOwns owned m
      → All (NodeOwns owned) ns
      → All (NodeOwns owned) (append_markers m ns)
  unfolding append_markers
  append_markers-owns owned m [] h hs = (h, tt)
  append_markers-owns owned m (n ∷ ns) h hs = elim (Bool-cases (n.owner == m.owner)) [
    | inl e ↦ rw e (
      All-append _ n.found m.found hs.0 (
          subst (λ o. Pass (in_docs cs (docs_of o owned)) m.found)
            (sym (same_owner n.owner m.owner e)) h),
      hs.1,
    )
    | inr e ↦ rw e (hs.0, append_markers-owns owned m ns h hs.1)
  ]

  owns_new :
      (id : ℕ) (ds : List ℕ) (owned : List (ℕ × List ℕ)) (ms : List MarkerComment)
      → Pass (in_docs cs ds) ms
      → Pass (in_docs cs (docs_of id ((id, ds) ∷ owned))) ms
  owns_new id ds owned ms h = elim (Bool-cases (id == id)) [
    | inl e ↦ rw e (grow ds (ds ++ docs_of id owned) ms (to_left ds (docs_of id owned)) h)
    | inr e ↦ absurd (ground arith)
  ]

  pub if-owns :
      (b : Bool) (s : Docs) (v w : MarkerVisitor)
      → VisitorOwns s v
      → VisitorOwns s w
      → VisitorOwns s (if b then v else w)
  if-owns true s v w h k = h
  if-owns false s v w h k = k

  pub package_owns :
      (s : Docs) (ms : List MarkerComment) (v : MarkerVisitor)
      → VisitorOwns s v
      → VisitorOwns s (add_package_markers ms v)
  unfolding add_package_markers
  package_owns s ms v h = record { decl_owns = h.decl_owns; node_owns = h.node_owns }

  pub assign_markers-owns :
      (collect : Bool) (n : NodeInfo) (kind : NodeKind) (block docs : List MarkerComment) (s : Docs)
      (v : MarkerVisitor)
      → ((ds : List ℕ) → Pass (in_docs cs ds) block)
      → Pass (in_docs cs (own_doc (kind_doc kind n.doc))) docs
      → VisitorOwns s v
      → VisitorOwns (docs_at kind n s) (assign_markers collect n kind block docs v)
  unfolding assign_markers add_node_markers
  assign_markers-owns collect n (gen_decl has_paren is_type) block docs s v b d h =
      elim (Bool-cases (has_paren || not is_type)) [
        | inl e ↦ rw e (package_owns s block v h)
        | inr e ↦ rw e (record {
          decl_owns =
              All-append _ v.decl_comments (block ++ docs)
                (grow _ _ v.decl_comments (to_left s.pending (own_doc n.doc)) h.decl_owns)
                (All-append _ block docs (b _)
                  (grow _ _ docs (to_right s.pending (own_doc n.doc)) d));
          node_owns = h.node_owns;
        })
      ]
  assign_markers-owns collect n type_spec block docs s v b d h = record {
    decl_owns = tt;
    node_owns =
        append_markers-owns ((n.id, s.pending ++ own_doc n.doc) ∷ s.owned) _ v.node_markers
          (owns_new n.id (s.pending ++ own_doc n.doc) s.owned _ (
            All-append _ v.decl_comments (block ++ docs)
              (grow _ _ v.decl_comments (to_left s.pending (own_doc n.doc)) h.decl_owns)
              (All-append _ block docs (b _)
                (grow _ _ docs (to_right s.pending (own_doc n.doc)) d))))
          (owns_more n.id (s.pending ++ own_doc n.doc) s.owned v.node_markers h.node_owns);
  }
  assign_markers-owns collect n field block docs s v b d h = record {
    decl_owns = h.decl_owns;
    node_owns =
        append_markers-owns ((n.id, own_doc n.doc) ∷ s.owned) _ v.node_markers
          (owns_new n.id (own_doc n.doc) s.owned _ (All-append _ block docs (b _) d))
          (owns_more n.id (own_doc n.doc) s.owned v.node_markers h.node_owns);
  }
  assign_markers-owns collect n file block docs s v b d h = package_owns s _ v h
  assign_markers-owns collect n func_decl block docs s v b d h =
      if-owns collect s _ _ (package_owns s block v h) h
  assign_markers-owns collect n import_spec block docs s v b d h =
      if-owns collect s _ _ (package_owns s block v h) h
  assign_markers-owns collect n value_spec block docs s v b d h =
      if-owns collect s _ _ (package_owns s block v h) h
  assign_markers-owns collect n other_node block docs s v b d h =
      if-owns collect s _ _ (package_owns s block v h) h
