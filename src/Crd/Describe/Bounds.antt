-- ===== src/Crd/Describe/Bounds.antt =====
-- The lengths of descriptions after pkg/crd/desc_visitor.go.
use controller_tools.Prelude.{
  ℕ, zero, true, false, ◌≡◌, ◌≤◌, ◌<◌, ◌+◌, suc, Option, Option-cases, none, some, [], ◌∷◌, ◌++◌,
  ltb, leb, length, length-append, arith, Bool-cases, inl, inr,
}
use controller_tools.Text.{Text, codes}
use controller_tools.Crd.Schema.{
  Docs, Schema, schema, Schemas, no_schemas, more, Props, no_props, prop, Items, no_items, items_of,
  Additional, no_additional, any_additional, additional_of,
}
use controller_tools.Crd.Describe.{
  LastIndex, IsIndex, take, positive, truncate_string, at_most, shorten, walk, walk_slice, walk_map,
  walk_items, walk_additional, truncate_description,
}

-- Every description of a schema and of those in it has a property.
unfoldable mutual
  pub EveryDescription : (Text → Type 0) → Schema → Type 0
  EveryDescription P (schema docs p s all_of props items add) =
      P docs.description
      × EveryInSlice P all_of
      × EveryInMap P props
      × EveryInItems P items
      × EveryInAdditional P add

  pub EveryInSlice : (Text → Type 0) → Schemas → Type 0
  EveryInSlice P no_schemas = Unit
  EveryInSlice P (more s ss) = EveryDescription P s × EveryInSlice P ss

  pub EveryInMap : (Text → Type 0) → Props → Type 0
  EveryInMap P no_props = Unit
  EveryInMap P (prop k s ps) = EveryDescription P s × EveryInMap P ps

  pub EveryInItems : (Text → Type 0) → Items → Type 0
  EveryInItems P no_items = Unit
  EveryInItems P (items_of s) = EveryDescription P s

  pub EveryInAdditional : (Text → Type 0) → Additional → Type 0
  EveryInAdditional P no_additional = Unit
  EveryInAdditional P any_additional = Unit
  EveryInAdditional P (additional_of s) = EveryDescription P s

length-take : (n : ℕ) (t : Text) → length (take n t) ≤ n
unfolding take
length-take zero t = omega arith
length-take (suc n) [] = omega arith
length-take (suc n) (b ∷ t) = omega (arith, length-take n t)

positive_lem : (o : Option ℕ) (n : ℕ) → positive o ≡ some n → o ≡ some n
positive_lem none n h = cc
positive_lem (some k) n h = ground arith

dots_lem : (t : Text) (n : ℕ) → length t ≤ n → length (t ++ codes "...") ≤ n + 3
dots_lem t n h = omega (arith, length-append t (codes "..."))

short_lem : (a n : ℕ) → leb a n ≡ true → a ≤ n + 3
short_lem a n h = ground arith

not_long_lem : (a n : ℕ) → ltb n a ≡ false → a ≤ n + 3
not_long_lem a n h = ground arith

sentence_lem :
    (n k : ℕ) (desc : Text) → k < length (take n desc) → length (take (k + 1) (take n desc)) ≤ n + 3
sentence_lem n k desc h = omega (arith, length-take (k + 1) (take n desc), length-take n desc)

word_lem : (n k : ℕ) (desc : Text) → k < length (take n desc) → length (take k (take n desc)) ≤ n
word_lem n k desc h = omega (arith, length-take k (take n desc), length-take n desc)

-- The text that is returned has at most three bytes more than was allowed, the dots.
truncate_string_lem :
    (last : LastIndex) (desc : Text) (n : ℕ)
    → IsIndex last.sentence_terminal
    → IsIndex last.white_space
    → length (truncate_string last desc n) ≤ n + 3
unfolding truncate_string
truncate_string_lem last desc n hs hw = elim (Bool-cases (leb (length desc) n)) [
  | inl e ↦ rw e (short_lem (length desc) n e)
  | inr e ↦
      let cut = take n desc in
      elim (Option-cases (positive (last.sentence_terminal cut))) [
        | inr (k, at) ↦ rw (e, at) (sentence_lem n k desc (hs cut k (positive_lem _ k at)))
        | inl at ↦ elim (Option-cases (positive (last.white_space cut))) [
          | inr (k, ws) ↦
              rw (e, at, ws)
                (dots_lem (take k cut) n (word_lem n k desc (hw cut k (positive_lem _ k ws))))
          | inl ws ↦ rw (e, at, ws) (dots_lem (take n cut) n (length-take n cut))
        ]
      ]
]

module _ (last : LastIndex) (hs : IsIndex last.sentence_terminal)
    (hw : IsIndex last.white_space) where
  shorten_lem : (n : ℕ) (docs : Docs) → length (shorten last n docs).description ≤ n + 3
  unfolding shorten
  shorten_lem zero docs = omega arith
  shorten_lem (suc n) docs = elim (Bool-cases (ltb (suc n) (length docs.description))) [
    | inl e ↦ rw e (truncate_string_lem last docs.description (suc n) hs hw)
    | inr e ↦ rw e (not_long_lem (length docs.description) (suc n) e)
  ]

  mutual
    unfolding walk EveryDescription

    in_schema : (n : ℕ) (s : Schema) → EveryDescription (λ t. length t ≤ n + 3) (walk last n s)
    in_schema n (schema docs p s all_of props items add) = (
      shorten_lem n docs,
      in_slice n all_of,
      in_map n props,
      in_items n items,
      in_additional n add,
    )

    in_slice : (n : ℕ) (ss : Schemas) → EveryInSlice (λ t. length t ≤ n + 3) (walk_slice last n ss)
    in_slice n no_schemas = tt
    in_slice n (more s ss) = (in_schema n s, in_slice n ss)

    in_map : (n : ℕ) (ps : Props) → EveryInMap (λ t. length t ≤ n + 3) (walk_map last n ps)
    in_map n no_props = tt
    in_map n (prop k s ps) = (in_schema n s, in_map n ps)

    in_items : (n : ℕ) (i : Items) → EveryInItems (λ t. length t ≤ n + 3) (walk_items last n i)
    in_items n no_items = tt
    in_items n (items_of s) = in_schema n s

    in_additional :
        (n : ℕ) (a : Additional)
        → EveryInAdditional (λ t. length t ≤ n + 3) (walk_additional last n a)
    in_additional n no_additional = tt
    in_additional n any_additional = tt
    in_additional n (additional_of s) = in_schema n s

-- No description is left that is longer than the maximum and the three dots.
pub truncate_description-EveryDescription :
    (last : LastIndex) (s : Schema) (n : ℕ)
    → IsIndex last.sentence_terminal
    → IsIndex last.white_space
    → EveryDescription (λ t. length t ≤ n + 3) (truncate_description last s (at_most n))
unfolding truncate_description
truncate_description-EveryDescription last s n hs hw = in_schema last hs hw n s
