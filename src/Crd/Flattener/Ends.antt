-- ===== src/Crd/Flattener/Ends.antt =====
-- The flattening of types ends: each type that is loaded is one more in the cache.
use native.Mathlib.Nat.{le_trans}
use controller_tools.Prelude.{
  ℕ, zero, suc, ◌+◌, ◌≡◌, ◌≢◌, ◌≤◌, ◌<◌, refl, Bool, true, false, Option, none, some, List, [], ◌∷◌,
  if◌then◌else◌, any, length, arith, Bool-cases, inl, inr, sym,
}
use controller_tools.Prelude.Assoc.{lookup, put}
use controller_tools.Prelude.Result.{Result, ok, err}
use controller_tools.Text.{eq_text_refl, Text, eq_text_iff, mem}
use controller_tools.Crd.Schema.{
  Docs, Plain, Special, Schema, schema, Schemas, no_schemas, more, Props, no_props, prop, Items,
  no_items, items_of, Additional, no_additional, any_additional, additional_of, empty_schema,
}
use controller_tools.Crd.Flattener.{
  TypeIdent, same_ident, Flattener, FlattenError, Loaded, Run, starved, panicked, done, Step, ◌>>=◌,
  return, panic, cache_type, add_error, cached, Expand, rebuild, visit_node, walk, walk_slice,
  walk_map, walk_items, walk_additional, walk_children, walk_chain, end_node, expand_type,
  expand_ident, expand_known, expand_link, expand_ref, flatten_schema, flatten_loaded,
  flatten_known, flatten_type, ref_of,
}

abbrev Cache : Type 0
Cache = List (TypeIdent × Schema)

pub same_ident_iff : (a b : TypeIdent) → same_ident a b ≡ true → a ≡ b
unfolding same_ident
same_ident_iff a b h = ground (arith, eq_text_iff a.pkg b.pkg, eq_text_iff a.name b.name)

pub same_ident_refl : (a : TypeIdent) → same_ident a a ≡ true
unfolding same_ident
same_ident_refl a = ground (arith, eq_text_refl a.pkg, eq_text_refl a.name)

abbrev is_cached : TypeIdent → Cache → Bool
is_cached k m = elim (lookup same_ident k m) [ none ↦ false | some s ↦ true ]

is_cached-put :
    (k typ : TypeIdent) (s : Schema) (m : Cache)
    → is_cached k m ≡ true
    → is_cached k (put same_ident typ s m) ≡ true
unfolding lookup put
is_cached-put k typ s [] h = cc h
is_cached-put k typ s ((j, w) ∷ m) h = ground (arith, is_cached-put k typ s m)

pub lookup-put_self :
    (typ : TypeIdent) (s : Schema) (m : Cache)
    → lookup same_ident typ (put same_ident typ s m) ≡ some s
unfolding lookup put
lookup-put_self typ s [] = rw (same_ident_refl typ) refl
lookup-put_self typ s ((j, w) ∷ m) = ground (arith, lookup-put_self typ s m)

-- The types among the known ones that are not cached.
abbrev missing : List TypeIdent → Cache → ℕ
missing [] m = 0
missing (k ∷ ks) m = (if is_cached k m then 0 else 1) + missing ks m

missing-le : (ks : List TypeIdent) (m : Cache) → missing ks m ≤ length ks
missing-le [] m = omega arith
missing-le (k ∷ ks) m = ground (arith, missing-le ks m)

missing-put :
    (ks : List TypeIdent) (typ : TypeIdent) (s : Schema) (m : Cache)
    → missing ks (put same_ident typ s m) ≤ missing ks m
missing-put [] typ s m = omega arith
missing-put (k ∷ ks) typ s m = ground (arith, missing-put ks typ s m, is_cached-put k typ s m)

cached_self :
    (k typ : TypeIdent) (s : Schema) (m : Cache)
    → same_ident typ k ≡ true
    → is_cached k (put same_ident typ s m) ≡ true
cached_self k typ s m h =
    rw (sym (same_ident_iff typ k h)) (rw (lookup-put_self typ s m, is_cached) refl)

not_cached :
    (k typ : TypeIdent) (m : Cache)
    → same_ident typ k ≡ true
    → lookup same_ident typ m ≡ none
    → is_cached k m ≡ false
not_cached k typ m h e = rw (sym (same_ident_iff typ k h)) (rw (e, is_cached) refl)

-- A known type that is cached is one less.
missing-put_less :
    (ks : List TypeIdent) (typ : TypeIdent) (s : Schema) (m : Cache)
    → any (same_ident typ) ks ≡ true
    → lookup same_ident typ m ≡ none
    → missing ks (put same_ident typ s m) < missing ks m
missing-put_less [] typ s m h e = cc h
missing-put_less (k ∷ ks) typ s m h e = elim (Bool-cases (same_ident typ k)) [
  | inl here ↦
      ground (arith, cached_self k typ s m here, not_cached k typ m here e, missing-put ks typ s m)
  | inr there ↦
      ground (arith, missing-put_less ks typ s m (ground arith) e, is_cached-put k typ s m)
]

-- The run is not starved, and what it returns is as said.
abbrev Ensures : {A : Type 0} → (A → Flattener → Type 0) → Run A → Type 0
Ensures Q starved = ⊥
Ensures Q panicked = Unit
Ensures Q (done a t) = Q a t

record Ends {A : Type 0} (Q : A → Flattener → Type 0) (m : Step A) (f : Flattener) : Type 0 where
  run : Ensures Q (m f)

module _ {A B : Type 0} where
  after :
      (m : A → Step B) (Q : A → Flattener → Type 0) (R : B → Flattener → Type 0) (r : Run A)
      → Ensures Q r
      → ((a : A) (t : Flattener) → Q a t → Ensures R (m a t))
      → Ensures R (elim r [ starved ↦ starved | panicked ↦ panicked | done a t ↦ m a t ])
  after m Q R starved h k = h
  after m Q R panicked h k = tt
  after m Q R (done a t) h k = k a t h

  Ends-bind :
      (Q : A → Flattener → Type 0) (R : B → Flattener → Type 0) (m : Step A) (g : A → Step B)
      (f : Flattener)
      → Ends Q m f
      → ((a : A) (t : Flattener) → Q a t → Ends R (g a) t)
      → Ends R (m >>= g) f
  unfolding ◌>>=◌
  Ends-bind Q R m g f h k = record { run = after g Q R (m f) h.run (λ a t q. (k a t q).run) }

weaken :
    {B : Type 0} (Q R : B → Flattener → Type 0) (r : Run B)
    → Ensures Q r
    → ((b : B) (t : Flattener) → Q b t → R b t)
    → Ensures R r
weaken Q R starved h k = h
weaken Q R panicked h k = tt
weaken Q R (done b t) h k = k b t h

module _ (ks : List TypeIdent) where
  abbrev left : Flattener → ℕ
  left f = missing ks f.flattened_types

  -- A step that ends and takes nothing out of the cache.
  abbrev Goes : {A : Type 0} → Step A → Flattener → Type 0
  Goes m f = Ends (λ _ t. left t ≤ left f) m f

  Goes-bind :
      {A B : Type 0} {m : Step A} {g : A → Step B} {f : Flattener}
      → Goes m f
      → ((a : A) (t : Flattener) → left t ≤ left f → Goes (g a) t)
      → Goes (m >>= g) f
  Goes-bind {A} {B} {m} {g} {f} h k =
      Ends-bind _ _ m g f h
        (λ a t l. record { run = weaken _ _ (g a t) (k a t l).run (λ b u o. omega arith) })

  return-Goes : {A : Type 0} (a : A) (f : Flattener) → Goes (return a) f
  unfolding return
  return-Goes a f = record { run = omega arith }

  abbrev Under : ℕ → Expand → Type 0
  Under n e =
      (pkg : Text) (seen : List Text) (link : Text) (field : Schema) (f : Flattener)
      → left f < n
      → Goes (e pkg seen link field) f

  cache_type-Goes :
      {A : Type 0} (typ : TypeIdent) (s : Schema) (a : A) (f : Flattener)
      → Goes (cache_type typ s a) f
  unfolding cache_type
  cache_type-Goes typ s a f = record { run = missing-put ks typ s f.flattened_types }

  add_error-Goes :
      {A : Type 0} (pkg : Text) (e : FlattenError) (a : A) (f : Flattener)
      → Goes (add_error pkg e a) f
  unfolding add_error
  add_error-Goes pkg e a f = record { run = omega arith }

  cached-Goes :
      (typ : TypeIdent) (f : Flattener)
      → Ends (λ known t. (t ≡ f) × (known ≡ lookup same_ident typ f.flattened_types)) (cached typ) f
  unfolding cached
  cached-Goes typ f = record { run = (refl, refl) }

  rebuild-Goes :
      (docs : Docs) (p : Plain) (s : Special) {items : Step Items} {all_of : Step Schemas}
      {props : Step Props} {add : Step Additional} (n : ℕ) (f : Flattener)
      → left f < n
      → ((t : Flattener) → left t < n → Goes items t)
      → ((t : Flattener) → left t < n → Goes all_of t)
      → ((t : Flattener) → left t < n → Goes props t)
      → ((t : Flattener) → left t < n → Goes add t)
      → Goes (rebuild docs p s items all_of props add) f
  unfolding rebuild
  rebuild-Goes docs p s n f h i a m d = Goes-bind (i f h) λ its_items t1 l1.
      Goes-bind (a t1 (omega arith)) λ its_all t2 l2.
        Goes-bind (m t2 (omega arith))
          λ its_props t3 l3. Goes-bind (d t3 (omega arith)) λ its_add t4 l4. return-Goes _ t4

  visit_node-Goes :
      (e : Expand) (n : ℕ) (pkg : Text) (link : Option Text) (s : Schema) {children : Step Schema}
      (f : Flattener)
      → Under n e
      → left f < n
      → Goes children f
      → Goes (visit_node e pkg link s children) f
  unfolding visit_node
  visit_node-Goes e n pkg none s f u h g = g
  visit_node-Goes e n pkg (some link) s f u h g = u pkg (link ∷ []) link s f h

  panic-Goes : {A : Type 0} (f : Flattener) → Goes {A = A} panic f
  unfolding panic
  panic-Goes f = record { run = tt }

  Goes-from :
      {A : Type 0} {m : Step A} (f : Flattener) {t : Flattener}
      → left t ≤ left f
      → Goes m t
      → Ends (λ _ u. left u ≤ left f) m t
  Goes-from {A} {m} f {t} l h = record { run = weaken _ _ (m t) h.run (λ _ u o. le_trans o l) }

  end_node-Goes :
      (typ : TypeIdent) (field s : Schema) (f : Flattener) → Goes (end_node typ field s) f
  unfolding end_node
  end_node-Goes typ field s f = cache_type-Goes typ s _ f

  cached_less :
      (typ : TypeIdent) (s : Schema) (f : Flattener)
      → any (same_ident typ) ks ≡ true
      → lookup same_ident typ f.flattened_types ≡ none
      → Ends (λ _ t. left t < left f) (cache_type typ empty_schema s) f
  unfolding cache_type
  cached_less typ s f k c = record {
    run = missing-put_less ks typ empty_schema f.flattened_types k c;
  }

  module _ (e : Expand) (n : ℕ) (u : Under n e) (pkg : Text) where
    mutual
      unfolding walk walk_slice walk_map walk_items walk_additional

      walk-Goes : (s : Schema) (f : Flattener) → left f < n → Goes (walk e pkg s) f
      walk-Goes (schema docs p s all_of props items add) f h = visit_node-Goes e n pkg _ _ f u h (
          rebuild-Goes docs p s n f h (walk_items-Goes items) (walk_slice-Goes all_of)
            (walk_map-Goes props) (walk_additional-Goes add))

      walk_slice-Goes : (ss : Schemas) (f : Flattener) → left f < n → Goes (walk_slice e pkg ss) f
      walk_slice-Goes no_schemas f h = return-Goes _ f
      walk_slice-Goes (more s ss) f h =
          Goes-bind (walk-Goes s f h)
            λ t g l. Goes-bind (walk_slice-Goes ss g (omega arith)) λ ts k m. return-Goes _ k

      walk_map-Goes : (ps : Props) (f : Flattener) → left f < n → Goes (walk_map e pkg ps) f
      walk_map-Goes no_props f h = return-Goes _ f
      walk_map-Goes (prop k s ps) f h =
          Goes-bind (walk-Goes s f h)
            λ t g l. Goes-bind (walk_map-Goes ps g (omega arith)) λ ts j m. return-Goes _ j

      walk_items-Goes : (i : Items) (f : Flattener) → left f < n → Goes (walk_items e pkg i) f
      walk_items-Goes no_items f h = return-Goes _ f
      walk_items-Goes (items_of s) f h = Goes-bind (walk-Goes s f h) λ t g l. return-Goes _ g

      walk_additional-Goes :
          (a : Additional) (f : Flattener) → left f < n → Goes (walk_additional e pkg a) f
      walk_additional-Goes no_additional f h = return-Goes _ f
      walk_additional-Goes any_additional f h = return-Goes _ f
      walk_additional-Goes (additional_of s) f h =
          Goes-bind (walk-Goes s f h) λ t g l. return-Goes _ g

    walk_children-Goes : (s : Schema) (f : Flattener) → left f < n → Goes (walk_children e pkg s) f
    unfolding walk_children
    walk_children-Goes (schema docs p s all_of props items add) f h =
        rebuild-Goes docs p s n f h (walk_items-Goes items) (walk_slice-Goes all_of)
          (walk_map-Goes props) (walk_additional-Goes add)

    walk_chain-Goes :
        (seen : List Text) (link : Option Text) (s : Schema) (f : Flattener)
        → left f < n
        → Goes (walk_chain e pkg seen link s) f
    unfolding walk_chain
    walk_chain-Goes seen none s f h = walk_children-Goes s f h
    walk_chain-Goes seen (some link) s f h = either (mem link seen)
      where
        either :
            (b : Bool) → Goes (if b then walk_children e pkg s else e pkg (link ∷ seen) link s) f
        either true = walk_children-Goes s f h
        either false = u pkg (link ∷ seen) link s f h

-- What the parser knows are schemas of known types.
abbrev pub Knows : Loaded → List TypeIdent → Type 0
Knows l ks =
    (typ : TypeIdent) (s : Schema) → l.schemata typ ≡ some s → any (same_ident typ) ks ≡ true

module _ (l : Loaded) (ks : List TypeIdent) (all : Knows l ks) where
  expand_type-Goes :
      (e : Expand) (n : ℕ) (pkg : Text) (seen : List Text) (typ : TypeIdent) (base : Option Schema)
      (field : Schema) (f : Flattener)
      → Under ks n e
      → left ks f < suc n
      → l.schemata typ ≡ base
      → lookup same_ident typ f.flattened_types ≡ none
      → Goes ks (expand_type e pkg seen typ base field) f
  unfolding expand_type
  expand_type-Goes e n pkg seen typ none field f u h b c = add_error-Goes ks pkg _ field f
  expand_type-Goes e n pkg seen typ (some s) field f u h b c =
      Ends-bind (λ base t. left ks t < left ks f) _ (cache_type typ empty_schema s) _ f
        (cached_less ks typ s f (all typ s b) c)
        λ base t less. Goes-from ks f (omega arith) (
          Goes-bind ks (walk_chain-Goes ks e n u typ.pkg seen (ref_of base) base t (omega arith))
            λ t2 g l2. end_node-Goes ks typ field t2 g)

  expand_link-Goes :
      (e : Expand) (n : ℕ) (pkg : Text) (seen : List Text) (r : Result Text (Option TypeIdent))
      (field : Schema) (f : Flattener)
      → Under ks n e
      → left ks f < suc n
      → Goes ks (expand_link l e pkg seen r field) f
  unfolding expand_link expand_ident expand_known
  expand_link-Goes e n pkg seen (err m) field f u h = add_error-Goes ks pkg _ field f
  expand_link-Goes e n pkg seen (ok none) field f u h = panic-Goes ks f
  expand_link-Goes e n pkg seen (ok (some typ)) field f u h =
      Ends-bind _ _ (cached typ) _ f (cached-Goes ks typ f) λ known t q. look known t q.0 q.1
    where
      look :
          (known : Option Schema) (t : Flattener)
          → t ≡ f
          → known ≡ lookup same_ident typ f.flattened_types
          → Ends (λ _ u. left ks u ≤ left ks f) (expand_known l e pkg seen typ field known) t
      look (some s) t p q = rw p (return-Goes ks _ f)
      look none t p q = rw p (expand_type-Goes e n pkg seen typ _ field f u h refl (sym q))

  expand_ref-Under : (n : ℕ) → Under ks n (expand_ref l n)
  unfolding expand_ref
  expand_ref-Under zero pkg seen link field f h = absurd (omega arith)
  expand_ref-Under (suc n) pkg seen link field f h =
      expand_link-Goes (expand_ref l n) n pkg seen _ field f (expand_ref-Under n) h

  flatten_loaded-Goes :
      (n : ℕ) (typ : TypeIdent) (base : Option Schema) (f : Flattener)
      → left ks f < n
      → Goes ks (flatten_loaded l n typ base) f
  unfolding flatten_loaded flatten_schema
  flatten_loaded-Goes n typ none f h = add_error-Goes ks _ _ none f
  flatten_loaded-Goes n typ (some s) f h =
      Goes-bind ks (walk-Goes ks (expand_ref l n) n (expand_ref-Under n) typ.pkg s f h)
        λ t g _. cache_type-Goes ks typ t (some t) g

  flatten_type-Goes :
      (n : ℕ) (typ : TypeIdent) (f : Flattener) → left ks f < n → Goes ks (flatten_type l n typ) f
  unfolding flatten_type flatten_known
  flatten_type-Goes n typ f h =
      Ends-bind _ _ (cached typ) _ f (cached-Goes ks typ f) λ known t q. look known t q.0
    where
      look :
          (known : Option Schema) (t : Flattener)
          → t ≡ f
          → Ends (λ _ u. left ks u ≤ left ks f) (flatten_known l n typ known) t
      look (some s) t p = rw p (return-Goes ks _ f)
      look none t p = rw p (flatten_loaded-Goes n typ _ f h)

  -- If the parser's schemas are those of a list of types, then `FlattenType` ends from every cache, with
  -- a fuel greater than the number of these types; types may refer to one another in cycles.
  pub flatten_type-ends :
      (n : ℕ) (typ : TypeIdent) (f : Flattener) → length ks < n → flatten_type l n typ f ≢ starved
  flatten_type-ends n typ f h =
      not_starved _ (flatten_type-Goes n typ f (omega (arith, missing-le ks f.flattened_types))).run
    where
      not_starved :
          {A : Type 0} (r : Run A) → Ensures (λ _ u. left ks u ≤ left ks f) r → r ≢ starved
      not_starved starved h = absurd h
      not_starved panicked h = λ e. cc e
      not_starved (done a t) h = λ e. cc e
