-- ===== src/Markers/Name/Laws.antt =====
-- What `splitMarker` returns, for every raw marker.
use controller_tools.Prelude.{
  ℕ, ◌≡◌, refl, sym, ap, ◌∙◌, false, ◌⊎◌, inl, inr, some, List, [], ◌∷◌, ◌++◌,
}
use controller_tools.Text.{Text, join, has_byte}
use controller_tools.Text.Split.{
  split, last, cut_append, join-split, init-last, last_clean, split-append, init-append,
}
use controller_tools.Markers.Name.{colon, equals, without_last, parent_name, split_marker}

without_last_cases :
    (first : Text) (rest : List Text)
    → ((without_last first rest ≡ join (colon ∷ []) (first ∷ rest))
        × (last first rest ≡ join (colon ∷ []) (first ∷ rest)))
      ⊎ (join (colon ∷ []) (first ∷ rest) ≡ without_last first rest ++ colon ∷ last first rest)
unfolding join last
without_last_cases first [] = inl (refl, refl)
without_last_cases first (next ∷ rest) = inr (init-last colon first next rest)

-- A name without a colon is its own parent's name; any other is its parent's name, a colon and a
-- part without a colon.
pub parent_name_cases :
    (t : Text)
    → ((has_byte colon t ≡ false) × (parent_name t ≡ t))
      ⊎ ((part : Text) × (t ≡ parent_name t ++ colon ∷ part) × (has_byte colon part ≡ false))
unfolding parent_name
parent_name_cases t = elim (without_last_cases (split colon t).0 (split colon t).1) [
  | inl (e, f) ↦ inl (
    sym (ap (has_byte colon) (f ∙ join-split colon t)) ∙ last_clean colon t,
    e ∙ join-split colon t,
  )
  | inr e ↦
      inr
        (last (split colon t).0 (split colon t).1, sym (join-split colon t) ∙ e, last_clean colon t)
]

without_last-append :
    (first part : Text) (rest : List Text)
    → without_last first (rest ++ part ∷ []) ≡ join (colon ∷ []) (first ∷ rest)
without_last-append first part [] = ap (join (colon ∷ [])) (init-append first part [])
without_last-append first part (next ∷ rest) =
    ap (join (colon ∷ [])) (init-append first part (next ∷ rest))

-- A name followed by a colon and a part with no colon has the first name as its parent.
pub parent_name-part :
    (t part : Text) → has_byte colon part ≡ false → parent_name (t ++ colon ∷ part) ≡ t
unfolding parent_name
parent_name-part t part h =
    rw (split-append colon t part h)
      (without_last-append (split colon t).0 part (split colon t).1 ∙ join-split colon t)

-- A marker `+name:part=fields`, where neither name nor part has an equals sign and the part has no
-- colon, is split into its name, the name with the part, and its fields.
pub split_marker_fields :
    (plus : ℕ) (name part fields : Text)
    → has_byte equals (name ++ colon ∷ part) ≡ false
    → has_byte colon part ≡ false
    → split_marker (plus ∷ (name ++ colon ∷ part) ++ equals ∷ fields)
      ≡ some (record { name = name; anonymous_name = name ++ colon ∷ part; rest_fields = fields })
unfolding split_marker
split_marker_fields plus name part fields he hc =
    rw (cut_append equals (name ++ colon ∷ part) fields he, parent_name-part name part hc) refl
