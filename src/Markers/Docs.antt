-- ===== src/Markers/Docs.antt =====
-- `extractDoc` of pkg/markers/zip.go. The comments of a doc are their texts; what `CommentGroup.Text` of
-- go/ast makes of them and `strings.TrimSpace` are parameters.
pub mod Reference
use controller_tools.Prelude.{
  Bool, true, false, not, ◌||◌, Option, none, some, List, [], ◌∷◌, if◌then◌else◌, is_empty, any,
}
use controller_tools.Text.{Text, codes, join}
use controller_tools.Text.Split.{after_prefix, split}
use controller_tools.Markers.Collect.{
  NodeKind, file, field, func_decl, import_spec, type_spec, value_spec, other_node, gen_decl,
  is_marker_comment,
}

-- The comments of a declaration or another node, none if there is no doc.
abbrev pub Doc : Type 0
Doc = Option (List Text)

-- The doc of a node of a kind: a type without its own doc has that of its declaration, if this has no
-- parenthesis.
unfoldable pub doc_comments : NodeKind → Doc → (has_paren : Bool) → (decl_doc : Doc) → Doc
doc_comments field doc has_paren decl_doc = doc
doc_comments file doc has_paren decl_doc = doc
doc_comments (gen_decl p is_type) doc has_paren decl_doc = doc
doc_comments type_spec (some cs) has_paren decl_doc = some cs
doc_comments type_spec none has_paren decl_doc = if has_paren then none else decl_doc
doc_comments func_decl doc has_paren decl_doc = none
doc_comments import_spec doc has_paren decl_doc = none
doc_comments value_spec doc has_paren decl_doc = none
doc_comments other_node doc has_paren decl_doc = none

unfoldable pub has_prefix : Text → Text → Bool
unfolding after_prefix
has_prefix start t = (elim (after_prefix start t) [ none ↦ false | some rest ↦ true ])

-- Whether a line starts or ends a code block.
abbrev pub is_fence : Text → Bool
unfolding has_prefix
is_fence line = has_prefix (codes "```") line || has_prefix (codes "~~~") line

abbrev pub flip_if : Bool → Bool → Bool
flip_if true b = not b
flip_if false b = b

-- The lines without an empty last one.
unfoldable pub chop_last : Text → List Text → List Text
chop_last line [] = if is_empty line then [] else line ∷ []
chop_last line (l ∷ ls) = line ∷ chop_last l ls

-- A line before the rest, in a code block or not: a line TODO is skipped, and three dashes end the
-- loop.
abbrev pub doc_line : Text → Bool → List Text → List Text
unfolding has_prefix
doc_line line inside rest =
    if inside
    then line ∷ rest
    else if has_prefix (codes "TODO") line
    then rest
    else if has_prefix (codes "---") line
    then []
    else line ∷ rest

module _ (trim_space : Text → Text) where
  -- The comments that are no markers.
  unfoldable pub no_marker_comments : List Text → List Text
  unfolding is_marker_comment
  no_marker_comments [] = []
  no_marker_comments (c ∷ cs) =
      let rest = no_marker_comments cs in if is_marker_comment trim_space c then rest else c ∷ rest

  abbrev pub shown : Bool → Text → Text
  shown is_asterisk line = if is_asterisk then trim_space line else line

  -- The loop over the lines.
  unfoldable pub doc_lines : Bool → Bool → List Text → List Text
  unfolding has_prefix
  doc_lines is_asterisk inside [] = []
  doc_lines is_asterisk inside (l ∷ ls) =
      let line = shown is_asterisk l in
      let inside_now = flip_if (is_fence line) inside in
      let rest = doc_lines is_asterisk inside_now ls in
      if inside_now
      then line ∷ rest
      else if has_prefix (codes "TODO") line
      then rest
      else if has_prefix (codes "---") line
      then []
      else line ∷ rest

  unfoldable pub doc_text : (List Text → Text) → List Text → Text
  unfolding no_marker_comments has_prefix split chop_last doc_lines join
  doc_text group_text cs =
      let shown_comments = no_marker_comments cs in
      let parts = split 10 (group_text shown_comments) in
      join (codes "\n")
        (doc_lines (any (has_prefix (codes "/*")) shown_comments) false (chop_last parts.0 parts.1))

  -- `extractDoc`, for a node with the doc and the parenthesis of its declaration.
  unfoldable pub extract_doc :
      (List Text → Text) → NodeKind → Doc → (has_paren : Bool) → (decl_doc : Doc) → Text
  unfolding doc_comments doc_text
  extract_doc group_text kind doc has_paren decl_doc =
      elim (doc_comments kind doc has_paren decl_doc) [
        | none ↦ []
        | some cs ↦ doc_text group_text cs
      ]
