-- ===== src/Crd/Struct/Required.antt =====
-- Required fields of structs and the one-of markers.
use controller_tools.Prelude.{
  ◌≡◌, refl, sym, ap, subst, ◌∙◌, ◌⊎◌, none, some, Bool, true, false, not, ◌&&◌, ◌||◌, Option,
  Option-cases, List, [], ◌∷◌, ◌++◌, if◌then◌else◌, is_empty, any, any-append, arith, Bool-cases,
  inl, inr,
}
use controller_tools.Prelude.Result.{
  Result, ok, err, ◌>>=◌, err_not_ok, ok_injective, >>=-eq-ok, Result-cases,
}
use controller_tools.Prelude.Sort.{any-sort_by}
use controller_tools.Text.{Text, less_text, mem}
use controller_tools.Text.Members.{any_of_mem}
use controller_tools.Crd.Markers.{Outside, TypeContext, special_of}
use controller_tools.Crd.Struct.{
  validate_one_of_values, one_of_values_to_set, StructError, FieldInfo, StructInfo, StructOptions,
  StructState, start, JsonOptions, json_options, Requirement, is_optional, is_required, is_conflict,
  unless_one_of, requirement, add_field, add_tagged, add_one, add_fields, OneOfSets, in_a_set,
  one_of_sets, struct_to_schema,
}

or_both : (a b : Bool) → a ≡ false → b ≡ false → (a || (b || false)) ≡ false
or_both a b h k = ground arith

-- What a decision may be for a field that is in a one-of marker.
abbrev Allowed : Bool → Requirement → Type 0
Allowed in_one_of is_optional = Unit
Allowed in_one_of is_required = in_one_of ≡ false
Allowed in_one_of (is_conflict e) = Unit

may_if :
    (b in_one_of : Bool) (r q : Requirement)
    → Allowed in_one_of r
    → Allowed in_one_of q
    → Allowed in_one_of (if b then r else q)
may_if true in_one_of r q h k = h
may_if false in_one_of r q h k = k

may_unless : (in_one_of : Bool) (e : StructError) → Allowed in_one_of (unless_one_of in_one_of e)
may_unless true e = tt
may_unless false e = refl

requirement-Allowed :
    {Any : Type 0}
    → (options : StructOptions) (in_one_of : Bool) (f : FieldInfo Any) (json : JsonOptions)
    → Allowed in_one_of (requirement options in_one_of f json)
unfolding requirement
requirement-Allowed options in_one_of f json = search (may_if, may_unless) depth 12

module _ {Any : Type 0} (out : Outside Any) (ctx : Option TypeContext) (options : StructOptions)
    (p : Text → Bool) where
  abbrev IsFree : StructState → Type 0
  IsFree st = any p st.required ≡ false

  add_field-required :
      (f : FieldInfo Any) (json : JsonOptions) (st : StructState)
      → (add_field out ctx options f json st).required ≡ st.required
  unfolding add_field
  add_field-required f json st = elim (Bool-cases json.inline) [
    | inl e ↦ rw e refl
    | inr e ↦ rw e refl
  ]

  tagged_lem :
      (r : Requirement) (f : FieldInfo Any) (json : JsonOptions) (st : StructState)
      → requirement options (p json.field_name) f json ≡ r
      → IsFree st
      → IsFree (add_tagged out ctx options p f json st).0
  unfolding add_tagged
  tagged_lem is_optional f json st e h =
      rw (e, add_tagged) (ap (any p) (add_field-required f json st) ∙ h)
  tagged_lem is_required f json st e h =
      let free =
        subst (Allowed (p json.field_name)) e
          (requirement-Allowed options (p json.field_name) f json) in
      rw (e, add_tagged)
        (ap (any p) (
            add_field-required f json
              (record st { required = st.required ++ json.field_name ∷ [] }))
          ∙ (any-append p st.required (json.field_name ∷ [])
              ∙ or_both (any p st.required) (p json.field_name) h free))
  tagged_lem (is_conflict why) f json st e h = rw (e, add_tagged) h

  one_lem :
      (f : FieldInfo Any) (st : StructState) → IsFree st → IsFree (add_one out ctx options p f st).0
  unfolding add_one
  one_lem f st h =
      elim (Bool-cases
        (not (is_empty f.name) && options.ignore_unexported_fields && not f.is_exported)) [
          | inl e ↦ rw (e, add_one) h
          | inr e ↦ elim (Option-cases f.json_tag) [
            | inl t ↦ rw (e, t, add_one) h
            | inr (tag, t) ↦ elim (Option-cases (json_options tag)) [
              | inl j ↦ rw (e, t, j, add_one) h
              | inr (json, j) ↦
                  rw (e, t, j, add_one)
                    (tagged_lem (requirement options (p json.field_name) f json) f json st refl h)
            ]
          ]
        ]

  fields_lem :
      (fields : List (FieldInfo Any)) (st : StructState)
      → IsFree st
      → IsFree (add_fields out ctx options p fields st).0
  unfolding add_fields
  fields_lem [] st h = h
  fields_lem (f ∷ fields) st h = elim (Bool-cases (add_one out ctx options p f st).1) [
    | inl e ↦
        rw (e, add_fields) (fields_lem fields (add_one out ctx options p f st).0 (one_lem f st h))
    | inr e ↦ rw (e, add_fields) (one_lem f st h)
  ]

-- Whether one of the values of a one-of marker names a field.
abbrev pub Names : Text → List (Option (List Text)) → Type 0
Names f [] = ⊥
Names f (none ∷ groups) = Names f groups
Names f (some fields ∷ groups) = (mem f fields ≡ true) ⊎ Names f groups

left_true : (a b : Bool) → a ≡ true → (a || b) ≡ true
left_true a b h = ground arith

right_true : (a b : Bool) → b ≡ true → (a || b) ≡ true
right_true a b h = ground arith

in_either : (f : Text) (xs ys : List Text) → mem f (xs ++ ys) ≡ (mem f xs || mem f ys)
unfolding mem
in_either f [] ys = refl
in_either f (x ∷ xs) ys = ground (arith, in_either f xs ys)

-- A success, as a result of the code.
abbrev ok_of : List Text → Result StructError (List Text)
ok_of = ok

-- The two steps at the values of a marker.
bad_values :
    (fields : List Text) (groups : List (Option (List Text))) (e : StructError)
    → validate_one_of_values fields ≡ some e
    → one_of_values_to_set (some fields ∷ groups) ≡ err e
unfolding one_of_values_to_set
bad_values fields groups e h = rw (h, one_of_values_to_set) refl

good_values :
    (fields : List Text) (groups : List (Option (List Text)))
    → validate_one_of_values fields ≡ none
    → one_of_values_to_set (some fields ∷ groups)
      ≡ (one_of_values_to_set groups >>= λ rest. ok_of (fields ++ rest))
unfolding one_of_values_to_set
good_values fields groups h = rw (h, one_of_values_to_set) refl

one_of_values_to_set-names :
    (f : Text) (groups : List (Option (List Text))) (set : List Text)
    → one_of_values_to_set groups ≡ ok set
    → Names f groups
    → mem f set ≡ true
unfolding one_of_values_to_set
one_of_values_to_set-names f [] set h n = elim n [ ]
one_of_values_to_set-names f (none ∷ groups) set h n = absurd (err_not_ok h)
one_of_values_to_set-names f (some fields ∷ groups) set h n =
    elim (Option-cases (validate_one_of_values fields)) [
      | inr (e, k) ↦ absurd (err_not_ok (sym (bad_values fields groups e k) ∙ h))
      | inl k ↦
          (let (rest, e, q) =
              >>=-eq-ok (one_of_values_to_set groups) (λ rest. ok_of (fields ++ rest))
                (sym (good_values fields groups k) ∙ h) in
            sym (ap (mem f) (ok_injective q))
            ∙ (in_either f fields rest ∙ elim n [
              | inl here ↦ left_true (mem f fields) (mem f rest) here
              | inr later ↦
                  right_true (mem f fields) (mem f rest)
                    (one_of_values_to_set-names f groups rest e later)
            ]))
    ]

-- Whether a one-of marker of a struct names a field.
abbrev pub IsNamed : {Any : Type 0} → Text → StructInfo Any → Type 0
IsNamed f info =
    Names f info.exactly_one_of ⊎ (Names f info.at_most_one_of ⊎ Names f info.at_least_one_of)

three : (a b c : Bool) → (a ≡ true) ⊎ ((b ≡ true) ⊎ (c ≡ true)) → (a || b || c) ≡ true
three a b c h = ground arith

some_set :
    (a b c : List Text) (f : Text)
    → (mem f a ≡ true) ⊎ ((mem f b ≡ true) ⊎ (mem f c ≡ true))
    → in_a_set (record { exactly = a; at_most = b; at_least = c }) f ≡ true
unfolding in_a_set
some_set a b c f h = three (mem f a) (mem f b) (mem f c) h

in_a_set-named :
    {Any : Type 0}
    → (out : Outside Any) (ctx : Option TypeContext) (options : StructOptions)
      (info : StructInfo Any) (sets : OneOfSets) (f : Text)
    → one_of_sets out ctx options info ≡ ok sets
    → IsNamed f info
    → in_a_set sets f ≡ true
unfolding one_of_sets
in_a_set-named out ctx options info sets f h n =
    let (exactly, e, h1) = >>=-eq-ok (one_of_values_to_set info.exactly_one_of) _ h in
    let (at_most, m, h2) = >>=-eq-ok (one_of_values_to_set info.at_most_one_of) _ h1 in
    let (at_least, l, h3) = >>=-eq-ok (one_of_values_to_set info.at_least_one_of) _ h2 in
    sym (ap (λ s. in_a_set s f) (ok_injective h3))
    ∙ some_set exactly at_most at_least f (elim n [
      | inl a ↦ inl (one_of_values_to_set-names f info.exactly_one_of exactly e a)
      | inr (inl b) ↦ inr (inl (one_of_values_to_set-names f info.at_most_one_of at_most m b))
      | inr (inr c) ↦ inr (inr (one_of_values_to_set-names f info.at_least_one_of at_least l c))
    ])

not_in :
    (p : Text → Bool) (f : Text) (xs : List Text) → p f ≡ true → any p xs ≡ false → mem f xs ≡ false
not_in p f xs h k = ground (arith, any_of_mem p f xs)

-- No field that a one-of marker of the struct names is required by the struct's schema.
pub struct_to_schema-required :
    {Any : Type 0}
    → (out : Outside Any) (ctx : Option TypeContext) (options : StructOptions)
      (info : StructInfo Any) (f : Text)
    → IsNamed f info
    → mem f (special_of (struct_to_schema out ctx options info).0).required ≡ false
unfolding struct_to_schema
struct_to_schema-required out ctx options info f n =
    elim (Result-cases (one_of_sets out ctx options info)) [
      | inr (e, h) ↦ rw (h, struct_to_schema) refl
      | inl (sets, h) ↦
          (let p : Text → Bool = in_a_set sets in
            let end = add_fields out ctx options p info.fields start in
            let free = fields_lem out ctx options p info.fields start refl in
            let named = in_a_set-named out ctx options info sets f h n in
            elim (Bool-cases end.1) [
              | inl e ↦
                  rw (h, e, struct_to_schema)
                    (not_in p f _ named (any-sort_by less_text p end.0.required ∙ free))
              | inr e ↦ rw (h, e, struct_to_schema) (not_in p f _ named free)
            ])
    ]
