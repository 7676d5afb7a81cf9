-- ===== src/Crd/Flattener/Cache.antt =====
-- What the cache of a `Flattener` gives back.
use controller_tools.Prelude.{ℕ, ◌≡◌, refl, sym, subst, Option, none, some}
use controller_tools.Prelude.Assoc.{lookup}
use controller_tools.Crd.Schema.{Schema}
use controller_tools.Crd.Flattener.{
  TypeIdent, same_ident, Flattener, Loaded, Run, starved, panicked, done, ◌>>=◌, return, cache_type,
  add_error, cached, flatten_schema, flatten_loaded, flatten_known, flatten_type,
}
use controller_tools.Crd.Flattener.Ends.{lookup-put_self}

-- The schema that a run returns is the cached one.
abbrev Stored : TypeIdent → Run (Option Schema) → Type 0
Stored typ (done (some s) f) = lookup same_ident typ f.flattened_types ≡ some s
Stored typ _ = Unit

stored :
    (typ : TypeIdent) (r : Run Schema)
    → Stored typ (elim r [
      | starved ↦ starved
      | panicked ↦ panicked
      | done t f ↦ cache_type typ t (some t) f
    ])
unfolding cache_type
stored typ starved = tt
stored typ panicked = tt
stored typ (done t f) = lookup-put_self typ t f.flattened_types

flatten_loaded-Stored :
    (l : Loaded) (n : ℕ) (typ : TypeIdent) (base : Option Schema) (f : Flattener)
    → Stored typ (flatten_loaded l n typ base f)
unfolding flatten_loaded add_error ◌>>=◌
flatten_loaded-Stored l n typ none f = tt
flatten_loaded-Stored l n typ (some s) f = stored typ (flatten_schema l n s typ.pkg f)

flatten_known-Stored :
    (l : Loaded) (n : ℕ) (typ : TypeIdent) (known : Option Schema) (f : Flattener)
    → known ≡ lookup same_ident typ f.flattened_types
    → Stored typ (flatten_known l n typ known f)
unfolding flatten_known return
flatten_known-Stored l n typ none f e = flatten_loaded-Stored l n typ (l.schemata typ) f
flatten_known-Stored l n typ (some s) f e = sym e

flatten_type-Stored :
    (l : Loaded) (n : ℕ) (typ : TypeIdent) (f : Flattener) → Stored typ (flatten_type l n typ f)
unfolding flatten_type cached ◌>>=◌
flatten_type-Stored l n typ f = flatten_known-Stored l n typ _ f refl

-- A schema that FlattenType has returned is returned by every later call from the same state, with any
-- fuel and whatever the parser knows by then, and that call changes nothing and adds no error.
pub flatten_type_again :
    (l again : Loaded) (n m : ℕ) (typ : TypeIdent) (f : Flattener) {s : Schema} {g : Flattener}
    → flatten_type l n typ f ≡ done (some s) g
    → flatten_type again m typ g ≡ done (some s) g
flatten_type_again l again n m typ f {s} {g} e =
    again_by (subst (Stored typ) e (flatten_type-Stored l n typ f))
  where
    again_by :
        lookup same_ident typ g.flattened_types ≡ some s
        → flatten_type again m typ g ≡ done (some s) g
    again_by kept = unfold flatten_type flatten_known cached ◌>>=◌ return in (rw kept refl)
