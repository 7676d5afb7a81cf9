-- ===== src/Genall/Options/Laws.antt =====
-- What `protoFromOptions` returns: every name and every output rule is that of a listed generator.
use controller_tools.Prelude.{
  ℕ, suc, ◌==◌, ==_iff, ◌+◌, ◌<◌, ◌≡◌, refl, ap, ◌∙◌, false, Option, none, some, List, [], ◌∷◌,
  ◌++◌, length, length-append, All, arith, Bool-cases, Option-cases, inl, inr, subst,
}
use controller_tools.Prelude.Assoc.{lookup, put, All-put, All-lookup}
use controller_tools.Prelude.Result.{ok, err_not_ok, ok_injective, >>=-eq-ok}
use controller_tools.Text.{Text, eq_text, eq_text_iff, has_byte}
use controller_tools.Text.Split.{cut-none, cut_append}
use controller_tools.Markers.Name.{colon}
use controller_tools.Markers.Definition.{Definition, describes_package}
use controller_tools.Markers.Registry.{Store, Registry, Address, lookup_marker}
use controller_tools.Genall.Options.{
  Value, generator, output_rule, input_paths, other_value, split_output_rule_option, ProtoState,
  new_proto, ProtoRuntime, add_generator, add_rule_at, add_value, raw_option, add_found, add_option,
  add_options, associate, proto_from_options,
}

-- A name `output:<generator>:<rule>`, of which neither the first part nor the generator has a colon,
-- gives the rule and the generator; `output:<rule>` gives a rule without a colon, and no generator.
pub split_output_rule_option_lem :
    (output gen rule : Text)
    → has_byte colon output ≡ false
    → has_byte colon gen ≡ false
    → (split_output_rule_option (output ++ colon ∷ (gen ++ colon ∷ rule)) ≡ some (rule, gen))
      × (split_output_rule_option (output ++ colon ∷ gen) ≡ some (gen, []))
unfolding split_output_rule_option
split_output_rule_option_lem output gen rule ho hg = (
  rw
      (
        cut_append colon output (gen ++ colon ∷ rule) ho,
        split_output_rule_option,
        cut_append colon gen rule hg,
      )
      refl,
  rw (cut_append colon output gen ho, split_output_rule_option, cut-none colon gen hg) refl,
)

-- Names of generators stand for places in the list, and there is one for each generator.
unfoldable pub IsNamed : {G : Type 0} → List G → List (Text × ℕ) → Type 0
IsNamed gens names = All (λ e. e.1 < length gens) names × (length names ≡ length gens)

some_not_none : {v : ℕ} → ◌≡◌ {A = Option ℕ} (some v) none → ⊥
some_not_none h = cc

length-put :
    (k : Text) (v : ℕ) (m : List (Text × ℕ))
    → lookup eq_text k m ≡ none
    → length (put eq_text k v m) ≡ suc (length m)
unfolding put lookup
length-put k v [] h = refl
length-put k v ((j, w) ∷ m) h = elim (Bool-cases (eq_text k j)) [
  | inl e ↦ absurd (some_not_none (rw e at h))
  | inr e ↦ rw e (ap suc (length-put k v m (rw e at h)))
]

grow :
    (m n : ℕ) (names : List (Text × ℕ))
    → m < n
    → All (λ e. e.1 < m) names
    → All (λ e. e.1 < n) names
grow m n [] h a = tt
grow m n (e ∷ names) h a = (omega (arith, h, a.0), grow m n names h a.1)

module _ {G R : Type 0} where
  abbrev NamedState : ProtoState G R → Type 0
  NamedState s = IsNamed s.gens s.gens_by_name

  add_generator-IsNamed :
      (name : Text) (g : G) (s t : ProtoState G R)
      → add_generator name g s ≡ ok t
      → NamedState s
      → NamedState t
  unfolding add_generator IsNamed
  add_generator-IsNamed name g s t h (bounded, same) =
      elim (Option-cases (lookup eq_text name s.gens_by_name)) [
        | inr (i, e) ↦ absurd (err_not_ok (rw (e, add_generator) at h))
        | inl e ↦
            let longer : length (s.gens ++ g ∷ []) ≡ length s.gens + 1 =
              length-append s.gens (g ∷ []) in
            subst NamedState (ok_injective (rw (e, add_generator) at h)) (
              All-put eq_text (λ k i. i < length (s.gens ++ g ∷ [])) name (length s.gens)
                  s.gens_by_name (λ j. (eq_text_iff name j).0) (omega (arith, longer))
                  (grow (length s.gens) (length (s.gens ++ g ∷ [])) s.gens_by_name
                    (omega (arith, longer)) bounded),
              length-put name (length s.gens) s.gens_by_name e ∙ omega (arith, longer, same),
            )
      ]

  add_rule_at-IsNamed :
      (gen : Text) (r : R) (s : ProtoState G R) → NamedState s → NamedState (add_rule_at gen r s)
  unfolding add_rule_at
  add_rule_at-IsNamed [] r s h = h
  add_rule_at-IsNamed (b ∷ gen) r s h = h

  add_value-IsNamed :
      (name : Text) (v : Value G R) (s t : ProtoState G R)
      → add_value name v s ≡ ok t
      → NamedState s
      → NamedState t
  unfolding add_value
  add_value-IsNamed name (generator g) s t h named = add_generator-IsNamed name g s t h named
  add_value-IsNamed name (output_rule r) s t h named =
      elim (Option-cases (split_output_rule_option name)) [
        | inl e ↦ absurd (err_not_ok (rw (e, add_value) at h))
        | inr (parts, e) ↦
            subst NamedState (ok_injective (rw (e, add_value) at h))
              (add_rule_at-IsNamed parts.1 r s named)
      ]
  add_value-IsNamed name (input_paths ps) s t h named = subst NamedState (ok_injective h) named
  add_value-IsNamed name other_value s t h named = absurd (err_not_ok h)

  module _ (heap : Store) (parse : Definition → Text → Option (Value G R))
      (registry : Registry) where
    add_found-IsNamed :
        (raw : Text) (found : Option (Option Address)) (s t : ProtoState G R)
        → add_found heap parse registry raw found s ≡ ok t
        → NamedState s
        → NamedState t
    unfolding add_found
    add_found-IsNamed raw none s t h named = absurd (err_not_ok h)
    add_found-IsNamed raw (some none) s t h named = absurd (err_not_ok h)
    add_found-IsNamed raw (some (some a)) s t h named = elim (Option-cases (parse (heap a) raw)) [
      | inl e ↦ absurd (err_not_ok (rw (e, add_found) at h))
      | inr (v, e) ↦ add_value-IsNamed (heap a).name v s t (rw (e, add_found) at h) named
    ]

    add_option-IsNamed :
        (option : Text) (s t : ProtoState G R)
        → add_option heap parse registry option s ≡ ok t
        → NamedState s
        → NamedState t
    unfolding add_option
    add_option-IsNamed option s t h named = elim (Option-cases (raw_option option)) [
      | inl e ↦ absurd (err_not_ok (rw (e, add_option) at h))
      | inr (raw, e) ↦
          add_found-IsNamed raw (lookup_marker raw describes_package registry) s t
            (rw (e, add_option) at h) named
    ]

    add_options-IsNamed :
        (options : List Text) (s t : ProtoState G R)
        → add_options heap parse registry options s ≡ ok t
        → NamedState s
        → NamedState t
    unfolding add_options
    add_options-IsNamed [] s t h named = subst NamedState (ok_injective h) named
    add_options-IsNamed (o ∷ os) s t h named =
        let (u, e, f) = >>=-eq-ok (add_option heap parse registry o s) _ h in
        add_options-IsNamed os u t f (add_option-IsNamed o s u e named)

    associate-bounded :
        (n : ℕ) (names : List (Text × ℕ)) (rules : List (Text × R)) (before after : List (ℕ × R))
        → All (λ e. e.1 < n) names
        → associate heap parse registry names rules before ≡ ok after
        → All (λ e. e.0 < n) before
        → All (λ e. e.0 < n) after
    unfolding associate
    associate-bounded n names [] before after bounded h b =
        subst (All (λ e. e.0 < n)) (ok_injective h) b
    associate-bounded n names ((gen, r) ∷ rules) before after bounded h b =
        elim (Option-cases (lookup eq_text gen names)) [
          | inl e ↦ absurd (err_not_ok (rw (e, associate) at h))
          | inr (i, e) ↦
              associate-bounded n names rules (put ◌==◌ i r before) after bounded
                (rw (e, associate) at h)
                (All-put ◌==◌ (λ j x. j < n) i r before (λ j. (==_iff i j).0)
                  (All-lookup eq_text (λ k j. j < n) gen i names (λ j. (eq_text_iff gen j).0)
                    bounded e)
                  b)
        ]

    -- If `protoFromOptions` succeeds, every name of a generator and every output rule of a generator is
    -- that of a generator in the list, and there are as many names as generators: no name is given
    -- twice.
    pub proto_from_options-IsNamed :
        (order : List (Text × R) → List (Text × R)) (options : List Text) (rt : ProtoRuntime G R)
        → proto_from_options heap parse registry order options ≡ ok rt
        → IsNamed rt.gens rt.gens_by_name × All (λ e. e.0 < length rt.gens) rt.by_generator
    unfolding proto_from_options IsNamed
    proto_from_options-IsNamed order options rt h =
        let (s, e, f) = >>=-eq-ok (add_options heap parse registry options new_proto) _ h in
        let (by_gen, g, i) =
          >>=-eq-ok (associate heap parse registry s.gens_by_name (order s.output_by_gen) []) _ f in
        let named : NamedState s = add_options-IsNamed options new_proto s e (tt, refl) in
        subst
          (λ (x : ProtoRuntime G R).
            IsNamed x.gens x.gens_by_name × All (λ e. e.0 < length x.gens) x.by_generator)
          (ok_injective i)
          (
            named,
            associate-bounded (length s.gens) s.gens_by_name (order s.output_by_gen) [] by_gen
                named.0 g tt,
          )
