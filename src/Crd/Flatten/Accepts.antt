-- ===== src/Crd/Flatten/Accepts.antt =====
-- The flattening keeps what schemas accept, if no schema within has a modifier.
use controller_tools.Prelude.{
  ◌≡◌, refl, sym, ap₂, ◌∙◌, none, Bool-cases, inl, inr, false, ◌&&◌, List, [],
}
use controller_tools.Text.{Text}
use controller_tools.Rbac.Rule.Laws.{IsOrder}
use controller_tools.Crd.Schema.{no_plain, ref, set_field, eq_field, Schema, schema, no_schemas}
use controller_tools.Crd.Schema.Meaning.{Meaning, NoModifiers, accepts, Unmodified}
use controller_tools.Crd.Flatten.{flatten_all_of_into, visit_all_of, doc_or, preserve_fields}
use controller_tools.Crd.Flatten.Drops.{drops_enum, drops_each}
use controller_tools.Crd.Flatten.Exact.{
  all_of_in, without_all_of, fits-flatten_all_of_into, fits-visit_all_of,
}
use controller_tools.Crd.Flatten.Fields.{docs_of, without_ref, visit-preserve_fields}
use controller_tools.Crd.Flatten.Modifiers.{
  accepts-fits, flatten_all_of_into-Unmodified, flatten_each_into-Unmodified,
}

module _ {V : Type 0} (m : Meaning V) (order : List Text → List Text) where
  -- If the flattening of a schema into another records no conflict and meets no two enums, and no
  -- schema within the two has a modifier (an exclusive bound, Nullable, list map keys, additional items
  -- or pattern properties), the result accepts exactly the values that both accept.
  pub accepts-flatten_all_of_into :
      (dst src : Schema) (v : V)
      → IsOrder order
      → Unmodified dst
      → Unmodified src
      → (flatten_all_of_into order dst src).1 ≡ []
      → drops_enum order dst src ≡ false
      → accepts m (flatten_all_of_into order dst src).0 v ≡ (accepts m dst v && accepts m src v)
  accepts-flatten_all_of_into dst src v o d s ok kept =
      accepts-fits m _ v (flatten_all_of_into-Unmodified order src dst d s)
      ∙ fits-flatten_all_of_into (m no_plain) order dst src v o ok kept
      ∙ sym (ap₂ (λ a b. a && b) (accepts-fits m dst v d) (accepts-fits m src v s))

  visit-Unmodified : (s : Schema) → Unmodified s → Unmodified (visit_all_of order s).0
  unfolding visit_all_of Unmodified
  visit-Unmodified (schema docs p s all_of props items add) h =
      flatten_each_into-Unmodified order all_of (schema docs p s no_schemas props items add)
        (h.0, tt, h.2, h.3, h.4) h.1

  -- The visit of a schema keeps what it accepts, if it records no conflict and meets no two enums and no
  -- schema within has a modifier.
  pub accepts-visit_all_of :
      (s : Schema) (v : V)
      → IsOrder order
      → Unmodified s
      → (visit_all_of order s).1 ≡ []
      → drops_each order (without_all_of s) (all_of_in s) ≡ false
      → accepts m (visit_all_of order s).0 v ≡ accepts m s v
  accepts-visit_all_of s v o u ok kept =
      accepts-fits m _ v (visit-Unmodified s u)
      ∙ fits-visit_all_of (m no_plain) order s v o ok kept
      ∙ sym (accepts-fits m s v u)

  without_ref-Unmodified : (s : Schema) → Unmodified s → Unmodified (without_ref s)
  unfolding Unmodified eq_field
  without_ref-Unmodified (schema docs p s all_of props items add) h = (no_ref, h.1, h.2, h.3, h.4)
    where
      no_ref : NoModifiers (set_field ref none p)
      no_ref f e = elim (Bool-cases (eq_field ref f)) [ inl k ↦ rw k refl | inr k ↦ rw k (h.0 f e) ]

  preserve_fields-Unmodified :
      (type field : Schema)
      → Unmodified type
      → Unmodified field
      → Unmodified (preserve_fields type field)
  unfolding preserve_fields Unmodified
  preserve_fields-Unmodified (schema dd dp ds d_all known di d_add)
        (schema sd sp ss s_all its_props si s_add) h k =
      (
        (λ f e. refl),
        (h, (without_ref-Unmodified (schema sd sp ss s_all its_props si s_add) k, tt)),
        tt,
        tt,
        tt,
      )

  -- A flattened field accepts exactly what its type and its own markers accept, if its flattening
  -- records no conflict and meets no two enums and neither has a modifier within. Its documentation is
  -- the field's where that is set, and the type's otherwise.
  pub accepts-preserve_fields :
      (type field : Schema) (v : V)
      → IsOrder order
      → Unmodified type
      → Unmodified field
      → (visit_all_of order (preserve_fields type field)).1 ≡ []
      → drops_each order
          (without_all_of (preserve_fields type field))
          (all_of_in (preserve_fields type field))
        ≡ false
      → (accepts m (visit_all_of order (preserve_fields type field)).0 v
          ≡ (accepts m type v && accepts m (without_ref field) v))
        × (docs_of (visit_all_of order (preserve_fields type field)).0
            ≡ doc_or (docs_of field) (docs_of type))
  accepts-preserve_fields type field v o t f ok kept =
      let (keeps, docs) = visit-preserve_fields (m no_plain) order type field v o ok kept in
      (
        accepts-fits m _ v (visit-Unmodified _ (preserve_fields-Unmodified type field t f))
            ∙ keeps
            ∙ sym (
                ap₂ (λ a b. a && b) (accepts-fits m type v t)
                  (accepts-fits m (without_ref field) v (without_ref-Unmodified field f))),
        docs,
      )
