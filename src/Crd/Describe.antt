-- ===== src/Crd/Describe.antt =====
-- `TruncateDescription`, `descVisitor` and `truncateString` of pkg/crd/desc_visitor.go, with the walk
-- of `schemaWalker` for this visitor. `strings.LastIndexFunc` with the two classes of runes is a
-- parameter: it says where the last such rune of a text starts.
pub mod Bounds
mod Tests
use controller_tools.Prelude.{
  ℕ, zero, ◌≡◌, refl, sym, ap, ◌∙◌, ◌≤◌, ◌<◌, ◌+◌, suc, Bool, true, false, Option, Option-cases,
  none, some, List, [], ◌∷◌, ◌++◌, if◌then◌else◌, ltb, leb, length, length-append, arith,
  Bool-cases, inl, inr,
}
use controller_tools.Text.{Text, codes}
use controller_tools.Crd.Schema.{
  Docs, Schema, schema, Schemas, no_schemas, more, Props, no_props, prop, Items, no_items, items_of,
  Additional, no_additional, any_additional, additional_of,
}

pub record LastIndex : Type 0 where
  pub sentence_terminal : Text → Option ℕ
  pub white_space : Text → Option ℕ

-- What the documentation of `strings.LastIndexFunc` says: an index into the text.
abbrev pub IsIndex : (Text → Option ℕ) → Type 0
IsIndex last = (t : Text) (n : ℕ) → last t ≡ some n → n < length t

-- `desc[0:n]` for an `n` within the text.
unfoldable pub take : ℕ → Text → Text
take zero t = []
take (suc n) [] = []
take (suc n) (b ∷ t) = b ∷ take n t

-- The case `n > 0` of an index.
abbrev pub positive : Option ℕ → Option ℕ
positive none = none
positive (some n) = if ltb 0 n then some n else none

unfoldable pub truncate_string : LastIndex → Text → ℕ → Text
unfolding take
truncate_string last desc max_len =
    let cut = take max_len desc in
    if leb (length desc) max_len then desc else (elim (positive (last.sentence_terminal cut)) [
      | some n ↦ take (n + 1) cut
      | none ↦ (elim (positive (last.white_space cut)) [
        | some n ↦ take n cut ++ codes "..."
        | none ↦ take max_len cut ++ codes "..."
      ])
    ])

-- `maxLen` may be negative: then nothing is done.
pub data MaxLen : Type 0 where
  negative : MaxLen
  at_most : ℕ → MaxLen

unfoldable pub shorten : LastIndex → ℕ → Docs → Docs
unfolding truncate_string
shorten last zero docs = record docs { description = [] }
shorten last (suc n) docs =
    if ltb (suc n) (length docs.description)
    then record docs { description = truncate_string last docs.description (suc n) }
    else docs

module _ (last : LastIndex) (max_len : ℕ) where
  unfoldable mutual
    unfolding shorten

    pub walk : Schema → Schema
    walk (schema docs p s all_of props items add) =
        schema (shorten last max_len docs) p s (walk_slice all_of) (walk_map props)
          (walk_items items) (walk_additional add)

    pub walk_slice : Schemas → Schemas
    walk_slice no_schemas = no_schemas
    walk_slice (more s ss) = more (walk s) (walk_slice ss)

    pub walk_map : Props → Props
    walk_map no_props = no_props
    walk_map (prop k s ps) = prop k (walk s) (walk_map ps)

    pub walk_items : Items → Items
    walk_items no_items = no_items
    walk_items (items_of s) = items_of (walk s)

    pub walk_additional : Additional → Additional
    walk_additional no_additional = no_additional
    walk_additional any_additional = any_additional
    walk_additional (additional_of s) = additional_of (walk s)

unfoldable pub truncate_description : LastIndex → Schema → MaxLen → Schema
unfolding walk
truncate_description last s negative = s
truncate_description last s (at_most n) = walk last n s
