-- ===== src/Markers/Collect/Tests.antt =====
-- A file with a comment of the package, a type with a comment above its godoc, and a field.
use mathlib.Core.List.Perm
use controller_tools.Prelude.{
  ◌++◌, ℕ, ◌≡◌, refl, Bool, true, false, Option, none, some, List, [], ◌∷◌, All, ◌==◌,
}
use controller_tools.Prelude.Assoc.{lookup}
use controller_tools.Text.{Text, codes, eq_text, join}
use controller_tools.Text.Split.{split, after_prefix}
use controller_tools.Markers.Docs.Reference.{in_blocks, before_dashes, without_todos, doc_lines_lem}
use controller_tools.Markers.Docs.{
  doc_comments, doc_text, no_marker_comments, has_prefix, chop_last, doc_lines, extract_doc,
}
use controller_tools.Markers.Name.{split_marker}
use controller_tools.Markers.Registry.{Registry, lookup_marker, look_in, try_anon_lookup}
use controller_tools.Markers.Collect.{
  CommentGroup, MarkerComment, NodeKind, file, field, type_spec, gen_decl, NodeInfo, Node, node,
  no_nodes, nodes, NodeMarkers, associated_comments_for, groups_before, drop_groups, take_groups,
  add_package_markers, append_markers, add_node_markers, assign_markers, is_marker_comment,
  marker_text, group_markers, markers_in, markers_between, skip_line, next_group, marker_end,
  split_comments, enter_before, enter_at, enter, leave, walk_node, walk_nodes,
}
use controller_tools.Markers.Collect.Associate.{
  definition_of, stays_at_type, sort_out, sort_out_at, reassociate, with_last, with_package,
  associate_file_markers,
}
use controller_tools.Markers.Collect.Associate.Found.{IsSortedOut}
use controller_tools.Markers.Collect.Associate.Godoc.{docs_in}
use controller_tools.Markers.Collect.Associate.Owners.{
  HasItsDocs, docs_of_file, associate_file_markers-HasItsDocs,
}

-- The registry has a type's marker and a package's.
abbrev registry : Registry
registry = record {
  for_pkg = (codes "group", 0) ∷ [];
  for_type = (codes "kind", 1) ∷ [];
  for_field = [];
  help_for = [];
}

abbrev comment_at : ℕ → Text → CommentGroup
comment_at pos t = record { group_pos = pos; comments = t ∷ [] }

abbrev comments : List CommentGroup
comments =
    comment_at 1 (codes "//+group=a")
    ∷ record {
      group_pos = 3;
      comments = codes "//+kind=b" ∷ codes "//+group=c" ∷ codes "//TODO" ∷ [];
    }
    ∷ comment_at 4 (codes "//+group=d")
    ∷ comment_at 6 (codes "//+size=1")
    ∷ []

abbrev info : NodeKind → ℕ → ℕ → ℕ → Option ℕ → NodeInfo
info kind id pos stop doc = record {
  kind = kind;
  id = id;
  pos = pos;
  end_pos = stop;
  doc = doc;
  line_comment = none;
}

abbrev type_node : Node
type_node =
    node (info type_spec 2 5 9 none) (nodes (node (info field 3 7 8 (some 6)) no_nodes) no_nodes)

abbrev file_node : Node
file_node =
    node (info file 0 2 9 none)
      (nodes (node (info (gen_decl false true) 1 5 9 (some 4)) (nodes type_node no_nodes)) no_nodes)

abbrev texts_of : List MarkerComment → List Text
texts_of [] = []
texts_of (m ∷ ms) = m.comment ∷ texts_of ms

abbrev texts_at : List NodeMarkers → List (ℕ × List Text)
texts_at [] = []
texts_at (n ∷ ns) = (n.owner, texts_of n.found) ∷ texts_at ns

unfoldable collected : List NodeMarkers
unfolding associate_file_markers with_last with_package reassociate sort_out_at sort_out
    stays_at_type definition_of lookup_marker look_in try_anon_lookup split_marker lookup eq_text
    marker_text markers_between markers_in group_markers is_marker_comment take_groups drop_groups
    groups_before add_package_markers append_markers add_node_markers assign_markers
    associated_comments_for skip_line next_group marker_end split_comments enter_before enter_at
    enter leave walk_node walk_nodes
collected = associate_file_markers (λ t. t) registry (λ ns. ns) comments file_node

-- The package has its own marker, the one above the type that only a package can have, and none twice;
-- the type has the other and its godoc's.
collected_texts :
    texts_at collected
    ≡ (0, codes "//+group=a" ∷ codes "//+group=c" ∷ [])
      ∷ (2, codes "//+kind=b" ∷ codes "//+group=d" ∷ [])
      ∷ (3, codes "//+size=1" ∷ [])
      ∷ []
unfolding collected
collected_texts = refl

-- A plus sign after the slashes, and an equals sign.
abbrev has_sign : MarkerComment → Bool
has_sign m = elim m.comment [ a ∷ b ∷ c ∷ rest ↦ c == b'+' | _ ↦ false ]

signed_comments : (godoc : Bool) → All (λ m. has_sign m ≡ true) (markers_in (λ t. t) godoc comments)
unfolding markers_in group_markers is_marker_comment
signed_comments godoc = (refl, (refl, (refl, (refl, (refl, tt)))))

-- The type has the doc of its declaration, and the field its own.
docs_found : docs_of_file file_node ≡ ((3, 6 ∷ []) ∷ (2, 4 ∷ []) ∷ [])
unfolding docs_in
docs_found = refl

associate_file_markers-HasItsDocs_example :
    All
      (HasItsDocs comments (docs_of_file file_node))
      (associate_file_markers (λ t. t) registry (λ ns. ns) comments file_node)
    × All
        (IsSortedOut (λ t. t) registry has_sign)
        (associate_file_markers (λ t. t) registry (λ ns. ns) comments file_node)
associate_file_markers-HasItsDocs_example =
    associate_file_markers-HasItsDocs (λ t. t) registry has_sign (λ ns. ns) comments file_node
      Perm.refl signed_comments

-- The text of comments without their slashes, each with a newline.
abbrev without_slashes : List Text → Text
without_slashes [] = []
without_slashes ((a ∷ b ∷ t) ∷ cs) = t ++ (codes "\n" ++ without_slashes cs)
without_slashes (t ∷ cs) = without_slashes cs

unfoldable doc_of : List Text → Text
unfolding extract_doc doc_comments doc_text no_marker_comments is_marker_comment has_prefix
    after_prefix split chop_last doc_lines join
doc_of cs = extract_doc (λ t. t) without_slashes type_spec none false (some cs)

-- Markers, lines that start with TODO and all after three dashes are left out, and line breaks are kept.
doc_kept :
    doc_of (
      codes "//a"
      ∷ codes "//+x"
      ∷ codes "//"
      ∷ codes "//TODO b"
      ∷ codes "//c"
      ∷ codes "//---"
      ∷ codes "//d"
      ∷ [])
    ≡ codes "a\n\nc"
unfolding doc_of
doc_kept = refl

-- A line TODO within a code block is kept.
doc_lines_lem_example :
    doc_lines
      (λ t. t)
      true
      false
      (codes "a" ∷ codes "TODO" ∷ codes "```" ∷ codes "TODO" ∷ codes "```" ∷ codes "---" ∷ [])
    ≡ without_todos (
        before_dashes (
          in_blocks 0 (
            codes "a"
            ∷ codes "TODO"
            ∷ codes "```"
            ∷ codes "TODO"
            ∷ codes "```"
            ∷ codes "---"
            ∷ [])))
doc_lines_lem_example =
    doc_lines_lem (λ t. t) true
      (codes "a" ∷ codes "TODO" ∷ codes "```" ∷ codes "TODO" ∷ codes "```" ∷ codes "---" ∷ [])
