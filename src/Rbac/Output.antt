-- ===== src/Rbac/Output.antt =====
-- `Generator.Generate` of pkg/rbac/parser.go. Reading a file and `strings.ReplaceAll` are parameters,
-- and the call of `WriteYAML`, if there is one, is the result.
use controller_tools.Prelude.{
  ◌≡◌, refl, false, Option, none, some, List, [], ◌++◌, ◌⊎◌, inl, inr, if◌then◌else◌, is_empty,
  is_empty-eq, Bool-cases, sym, then_branch, else_branch,
}
use controller_tools.Prelude.Result.{Result, ok, err, ◌>>=◌, >>=-eq-ok, ok_injective}
use controller_tools.Text.{Text, codes}
use controller_tools.Rbac.Rule.{Rule}
use controller_tools.Rbac.Roles.{Object, GenerateOrder, generate_roles}

pub record Generator : Type 0 where
  pub role_name : Text
  pub file_name : Text
  pub header_file : Text
  pub year : Text

-- The arguments of `WriteYAML`.
pub record Manifest : Type 0 where
  pub file : Text
  pub header : Text
  pub objects : List Object

-- `none` of the first parameter is an error of `ReadFile`, which is returned with the file's name.
module _ (read_file : Text → Option Text) (replace_all : Text → Text → Text → Text) where
  unfoldable pub header_text : Generator → Result Text Text
  header_text g =
      if is_empty g.header_file
      then ok (replace_all [] (codes " YEAR") (codes " " ++ g.year))
      else (elim (read_file g.header_file) [
        | none ↦ err g.header_file
        | some t ↦ ok (replace_all t (codes " YEAR") (codes " " ++ g.year))
      ])

  abbrev pub file_of : Generator → Text
  file_of g = if is_empty g.file_name then codes "role.yaml" else g.file_name

  unfoldable pub generate_manifest :
      GenerateOrder → Generator → List (Option (List Rule)) → Result Text (Option Manifest)
  unfolding header_text generate_roles
  generate_manifest order g roots =
      if is_empty (generate_roles order g.role_name roots) then ok none else do
        header ← header_text g
        ok (
            some (record {
              file = file_of g;
              header = header;
              objects = generate_roles order g.role_name roots;
            }))

  file_of_full : (g : Generator) → is_empty (file_of g) ≡ false
  file_of_full g = elim (Bool-cases (is_empty g.file_name)) [
    | inl e ↦ rw e refl
    | inr e ↦ rw (e, e) refl
  ]

  -- A run of the generator that succeeds either has no objects and writes nothing, or writes all the
  -- objects of `GenerateRoles` to one file, whose name is not empty.
  generate_manifest_lem :
      (order : GenerateOrder) (g : Generator) (roots : List (Option (List Rule)))
      (written : Option Manifest)
      → generate_manifest order g roots ≡ ok written
      → ((generate_roles order g.role_name roots ≡ []) × (written ≡ none))
        ⊎ ((m : Manifest) × (written ≡ some m)
            × (m.objects ≡ generate_roles order g.role_name roots)
            × (is_empty m.objects ≡ false)
            × (is_empty m.file ≡ false))
  unfolding generate_manifest
  generate_manifest_lem order g roots written h =
      elim (Bool-cases (is_empty (generate_roles order g.role_name roots))) [
        | inl e ↦ inl (is_empty-eq _ e, sym (ok_injective (then_branch _ e h)))
        | inr e ↦
            let (header, f, i) = >>=-eq-ok (header_text g) _ (else_branch _ e h) in
            inr (
              record {
                file = file_of g;
                header = header;
                objects = generate_roles order g.role_name roots;
              },
              sym (ok_injective i),
              refl,
              e,
              file_of_full g,
            )
      ]
