-- ===== src/Crd/Markers/Enum.antt =====
-- `K8sEnum.ApplyToSchema` of pkg/crd/markers/validation.go. A declaration that is not one of constants,
-- or a specification that is not one of values, adds nothing and is left out of the context.
use controller_tools.Prelude.{
  Bool, true, false, Option, none, some, List, [], ◌∷◌, ◌++◌, if◌then◌else◌, is_empty,
}
use controller_tools.Prelude.Result.{Result, ok, err, ◌>>=◌}
use controller_tools.Prelude.Sort.{sort_by}
use controller_tools.Text.{Text, codes, less_text}
use controller_tools.Crd.Schema.{Schema}
use controller_tools.Crd.Markers.{
  Outside, ConstValue, string_literal, other_value, ConstSpec, TypeContext, MarkerError, special_of,
  with_special,
}
use controller_tools.Crd.Markers.Apply.{Applied}

module _ {Any : Type 0} (out : Outside Any) where
  unfoldable pub literal_value : Text → Result MarkerError Text
  literal_value t = (elim (out.unquote t) [
    | err e ↦ err (MarkerError.not_unquoted t)
    | ok unquoted ↦ (elim (out.marshal_text unquoted) [
      | err e ↦ err (MarkerError.not_marshalled e)
      | ok raw ↦ ok raw
    ])
  ])

  -- The names of a specification; `valueSpec.Values[i]` of a name of the type must exist.
  unfoldable pub spec_values : List Bool → List ConstValue → Result MarkerError (List Text)
  unfolding literal_value
  spec_values [] values = ok []
  spec_values (false ∷ names) [] = spec_values names []
  spec_values (false ∷ names) (v ∷ values) = spec_values names values
  spec_values (true ∷ names) [] = err MarkerError.index_out_of_range
  spec_values (true ∷ names) (other_value ∷ values) = spec_values names values
  spec_values (true ∷ names) (string_literal t ∷ values) = do
    raw ← literal_value t
    raws ← spec_values names values
    ok (raw ∷ raws)

  unfoldable pub enum_values : List ConstSpec → Result MarkerError (List Text)
  unfolding spec_values
  enum_values [] = ok []
  enum_values (c ∷ constants) = do
    raws ← spec_values c.names c.values
    more_raws ← enum_values constants
    ok (raws ++ more_raws)

  -- The last steps: sorting, and the schema.
  unfoldable pub set_enum : Text → List Text → Schema → Applied
  unfolding sort_by less_text
  set_enum name raws s =
      let sorted = sort_by less_text raws in
      if is_empty sorted
      then err (MarkerError.enum_without_values name)
      else ok (with_special (record (special_of s) { type_name = codes "string"; enum = sorted }) s)

  unfoldable pub apply_k8s_enum : Option TypeContext → Schema → Applied
  unfolding enum_values set_enum
  apply_k8s_enum none s = err MarkerError.enum_without_context
  apply_k8s_enum (some c) s = (elim c.is_string [
    | none ↦ err (MarkerError.enum_unknown_type c.name)
    | some false ↦ err (MarkerError.enum_not_string c.name)
    | some true ↦ (enum_values c.constants >>= λ raws. set_enum c.name raws s)
  ])
