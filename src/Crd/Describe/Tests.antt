-- ===== src/Crd/Describe/Tests.antt =====
-- Runs of the shortening of descriptions.
use controller_tools.Prelude.{
  ℕ, ◌≡◌, refl, ◌≤◌, ◌+◌, suc, Option-cases, inl, inr, Option, none, some, [], ◌∷◌, ◌==◌,
  if◌then◌else◌, arith, zero, length,
}
use controller_tools.Text.{Text, codes}
use controller_tools.Crd.Schema.{
  no_docs, no_plain, no_special, Schema, schema, no_schemas, no_props, no_items, no_additional,
}
use controller_tools.Crd.Describe.{
  LastIndex, IsIndex, truncate_string, at_most, truncate_description,
}
use controller_tools.Crd.Describe.Bounds.{EveryDescription, truncate_description-EveryDescription}

-- The last of one byte.
abbrev last_byte : ℕ → Text → Option ℕ
last_byte c [] = none
last_byte c (b ∷ t) = elim (last_byte c t) [
  | some n ↦ some (suc n)
  | none ↦ if b == c then some zero else none
]

last_byte-IsIndex : (c : ℕ) → IsIndex (last_byte c)
last_byte-IsIndex c [] n h = cc
last_byte-IsIndex c (b ∷ t) n h = elim (Option-cases (last_byte c t)) [
  | inr (k, e) ↦ ground (arith, last_byte-IsIndex c t k e)
  | inl e ↦ ground arith
]

abbrev ascii : LastIndex
ascii = record { sentence_terminal = last_byte 46; white_space = last_byte 32 }

abbrev described_schema : Schema
described_schema =
    schema (record no_docs { description = codes "One. Two words" }) no_plain no_special no_schemas
      no_props no_items no_additional

truncate_description-EveryDescription_example :
    EveryDescription
      (λ t. length t ≤ 8 + 3)
      (truncate_description ascii described_schema (at_most 8))
truncate_description-EveryDescription_example =
    truncate_description-EveryDescription ascii described_schema 8 (last_byte-IsIndex 46)
      (last_byte-IsIndex 32)

at_the_sentence : truncate_string ascii (codes "One. Two words") 8 ≡ codes "One."
unfolding truncate_string
at_the_sentence = refl

-- Longer than the maximum.
with_dots : truncate_string ascii (codes "Onetwothree") 8 ≡ codes "Onetwoth..."
unfolding truncate_string
with_dots = refl
