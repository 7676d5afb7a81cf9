-- ===== src/Markers/Name.antt =====
-- `splitMarker` of pkg/markers/parse.go: a raw marker `+a:b:c=arg` has the name `a:b`, the anonymous
-- name `a:b:c` and the fields `arg`.
pub mod Laws
use controller_tools.Prelude.{ℕ, Option, none, some, List, [], ◌∷◌}
use controller_tools.Text.{Text, join}
use controller_tools.Text.Split.{cut, split, init}

pub record MarkerName : Type 0 where
  pub name : Text
  pub anonymous_name : Text
  pub rest_fields : Text

abbrev pub colon : ℕ
colon = b':'

abbrev pub equals : ℕ
equals = b'='

-- The join of all parts but the last, if there are several.
abbrev pub without_last : Text → List Text → Text
without_last first [] = first
without_last first (next ∷ rest) = join (colon ∷ []) (init first (next ∷ rest))

-- The name without its last part.
unfoldable pub parent_name : Text → Text
parent_name anonymous = let (first, rest) = split colon anonymous in without_last first rest

abbrev pub marker_of : Text → Option (Text × Text) → MarkerName
marker_of all none = record { name = all; anonymous_name = all; rest_fields = [] }
marker_of all (some (anonymous, rest)) = record {
  name = parent_name anonymous;
  anonymous_name = anonymous;
  rest_fields = rest;
}

-- `none` is the panic of `raw[1:]` on the empty text.
unfoldable pub split_marker : Text → Option MarkerName
unfolding parent_name cut split init join
split_marker [] = none
split_marker (plus ∷ raw) = some (marker_of raw (cut equals raw))
