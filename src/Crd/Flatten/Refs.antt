-- ===== src/Crd/Flatten/Refs.antt =====
-- `qualifiedName` and `TypeRefLink` of pkg/crd/schema.go and `RefParts` of pkg/crd/flatten.go: the
-- links from one schema to another.
use controller_tools.Prelude.{
  ℕ, ◌≡◌, refl, sym, ap, ap₂, ◌∙◌, false, ◌&&◌, none, some, [], ◌∷◌, ◌++◌, ◌==◌, ==_iff,
  if◌then◌else◌, is_empty, arith, Bool-cases, inl, inr,
}
use controller_tools.Prelude.Result.{Result, ok, err}
use controller_tools.Text.{Text, codes, has_byte}
use controller_tools.Text.Split.{after_prefix, cut, cut-none, cut_append}

-- `strings.ReplaceAll(t, old, new)` for an `old` of one byte and of two.
unfoldable pub replace_byte : ℕ → Text → Text → Text
replace_byte old new [] = []
replace_byte old new (b ∷ t) =
    let rest = replace_byte old new t in if b == old then new ++ rest else b ∷ rest

unfoldable pub replace_pair : ℕ → ℕ → Text → Text → Text
replace_pair a b new [] = []
replace_pair a b new (x ∷ []) = x ∷ []
replace_pair a b new (x ∷ y ∷ t) =
    let after = replace_pair a b new t in
    let rest = replace_pair a b new (y ∷ t) in if x == a && y == b then new ++ after else x ∷ rest

abbrev pub tilde : ℕ
tilde = 126

abbrev pub slash : ℕ
slash = 47

abbrev pub def_prefix : Text
def_prefix = codes "#/definitions/"

unfoldable pub qualified_name : Text → Text → Text
unfolding replace_byte
qualified_name pkg_name type_name =
    if is_empty pkg_name
    then type_name
    else replace_byte slash (codes "~1") pkg_name ++ (codes "~0" ++ type_name)

unfoldable pub type_ref_link : Text → Text → Text
unfolding qualified_name
type_ref_link pkg_name type_name = def_prefix ++ qualified_name pkg_name type_name

-- The type's name and the package's, from the decoded link.
unfoldable pub name_parts : Text → Text × Text
unfolding cut
name_parts ref = elim (cut tilde ref) [
  | none ↦ (ref, [])
  | some (pkg_name, type_name) ↦ (type_name, pkg_name)
]

-- `RefParts`; the error is "non-standard reference link".
unfoldable pub ref_parts : Text → Result Text (Text × Text)
unfolding after_prefix name_parts replace_pair
ref_parts ref = elim (after_prefix def_prefix ref) [
  | none ↦ err ref
  | some link ↦
      ok (name_parts (replace_pair tilde 48 (codes "~") (replace_pair tilde 49 (codes "/") link)))
]

replace_pair-pass :
    (a b x : ℕ) (new t : Text)
    → (x == a) ≡ false
    → replace_pair a b new (x ∷ t) ≡ x ∷ replace_pair a b new t
unfolding replace_pair
replace_pair-pass a b x new [] h = refl
replace_pair-pass a b x new (y ∷ t) h = rw h refl

replace_pair-none : (a b : ℕ) (new t : Text) → has_byte a t ≡ false → replace_pair a b new t ≡ t
unfolding replace_pair
replace_pair-none a b new [] h = refl
replace_pair-none a b new (x ∷ t) h =
    replace_pair-pass a b x new t (ground arith)
    ∙ ap (λ u. x ∷ u) (replace_pair-none a b new t (ground arith))

-- A text without the byte is passed over.
replace_pair-append :
    (a b : ℕ) (new s t : Text)
    → has_byte a s ≡ false
    → replace_pair a b new (s ++ t) ≡ (s ++ replace_pair a b new t)
replace_pair-append a b new [] t h = refl
replace_pair-append a b new (x ∷ s) t h =
    replace_pair-pass a b x new (s ++ t) (ground arith)
    ∙ ap (λ u. x ∷ u) (replace_pair-append a b new s t (ground arith))

-- The package's path is decoded to what it was.
replace_pair-replace_byte :
    (s t : Text)
    → has_byte tilde s ≡ false
    → replace_pair tilde 49 (codes "/") (replace_byte slash (codes "~1") s ++ t)
      ≡ (s ++ replace_pair tilde 49 (codes "/") t)
unfolding replace_byte replace_pair
replace_pair-replace_byte [] t h = refl
replace_pair-replace_byte (x ∷ s) t h = elim (Bool-cases (x == slash)) [
  | inl e ↦ rw e (
      ap₂ (λ c u. c ∷ u) (sym ((==_iff x slash).0 e))
        (replace_pair-replace_byte s t (ground arith)))
  | inr e ↦ rw e (
      replace_pair-pass tilde 49 x (codes "/") (replace_byte slash (codes "~1") s ++ t)
        (ground arith)
      ∙ ap (λ u. x ∷ u) (replace_pair-replace_byte s t (ground arith)))
]

decoded :
    (pkg_name type_name : Text)
    → has_byte tilde pkg_name ≡ false
    → has_byte tilde type_name ≡ false
    → replace_pair tilde 48 (codes "~") (
        replace_pair tilde 49
          (codes "/")
          (replace_byte slash (codes "~1") pkg_name ++ (codes "~0" ++ type_name)))
      ≡ (pkg_name ++ tilde ∷ type_name)
unfolding replace_pair
decoded pkg_name type_name hp ht =
    ap (λ u. replace_pair tilde 48 (codes "~") u)
      (replace_pair-replace_byte pkg_name (codes "~0" ++ type_name) hp
        ∙ ap (λ u. pkg_name ++ tilde ∷ u)
            (replace_pair-pass tilde 49 48 (codes "/") type_name refl
              ∙ ap (λ u. 48 ∷ u) (replace_pair-none tilde 49 (codes "/") type_name ht)))
    ∙ replace_pair-append tilde 48 (codes "~") pkg_name (tilde ∷ 48 ∷ type_name) hp
    ∙ ap (λ u. pkg_name ++ tilde ∷ u) (replace_pair-none tilde 48 (codes "~") type_name ht)

name_parts_lem :
    (pkg_name type_name : Text)
    → has_byte tilde pkg_name ≡ false
    → name_parts (pkg_name ++ tilde ∷ type_name) ≡ (type_name, pkg_name)
unfolding name_parts
name_parts_lem pkg_name type_name h = rw (cut_append tilde pkg_name type_name h, name_parts) refl

local_parts : (t : Text) → has_byte tilde t ≡ false → name_parts t ≡ (t, [])
unfolding name_parts
local_parts t h = rw (cut-none tilde t h, name_parts) refl

-- A link to a type gives back the type's name and its package's path, if neither has a tilde.
pub ref_parts-type_ref_link :
    (pkg_name type_name : Text)
    → has_byte tilde pkg_name ≡ false
    → has_byte tilde type_name ≡ false
    → ref_parts (type_ref_link pkg_name type_name) ≡ ok (type_name, pkg_name)
unfolding ref_parts type_ref_link qualified_name
ref_parts-type_ref_link [] type_name hp ht =
    ap (λ u. ok (name_parts u))
      (ap (λ u. replace_pair tilde 48 (codes "~") u)
          (replace_pair-none tilde 49 (codes "/") type_name ht)
        ∙ replace_pair-none tilde 48 (codes "~") type_name ht)
    ∙ ap ok (local_parts type_name ht)
ref_parts-type_ref_link (b ∷ p) type_name hp ht =
    ap (λ u. ok (name_parts u)) (decoded (b ∷ p) type_name hp ht)
    ∙ ap ok (name_parts_lem (b ∷ p) type_name hp)
