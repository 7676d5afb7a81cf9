-- ===== src/Crd/Flattener.antt =====
-- `Flattener`, `flattenVisitor` and `identFromRef` of pkg/crd/flatten.go with the walk of
-- pkg/crd/schema_visitor.go for this visitor, and the cache of NeedFlattenedSchemaFor of
-- pkg/crd/parser.go. What the parser knows as the schema of a type is a parameter, as are the imports of
-- a package. A package is given by its identity.
pub mod Ends
pub mod Cache
mod Tests
use controller_tools.Prelude.{
  ℕ, zero, suc, Bool, true, false, ◌&&◌, Option, none, some, List, [], ◌∷◌, ◌++◌, if◌then◌else◌,
}
use controller_tools.Prelude.Assoc.{lookup, put}
use controller_tools.Prelude.Result.{Result, ok, err}
use controller_tools.Text.{Text, eq_text, mem}
use controller_tools.Crd.Schema.{
  Docs, Plain, Special, ref, Scalar, text, Schema, schema, Schemas, no_schemas, more, Props,
  no_props, prop, Items, no_items, items_of, Additional, no_additional, any_additional,
  additional_of, empty_schema,
}
use controller_tools.Crd.Flatten.{preserve_fields}
use controller_tools.Crd.Flatten.Refs.{ref_parts}

-- `TypeIdent`
pub record TypeIdent : Type 0 where
  pub pkg : Text
  pub name : Text

unfoldable pub same_ident : TypeIdent → TypeIdent → Bool
unfolding eq_text
same_ident a b = eq_text a.pkg b.pkg && eq_text a.name b.name

-- "non-standard reference link", and "unable to locate schema for type".
pub data FlattenError : Type 0 where
  bad_link : Text → FlattenError
  no_schema : TypeIdent → FlattenError

-- `flattenedTypes`, and the errors with the packages that they are added to.
pub record Flattener : Type 0 where
  pub flattened_types : List (TypeIdent × Schema)
  pub errors : List (Text × FlattenError)

-- What the schemas and imports are: `Parser.Schemata` after `NeedSchemaFor`, and `Package.Imports`,
-- where a missing package is nil.
pub record Loaded : Type 0 where
  pub schemata : TypeIdent → Option Schema
  pub imports : Text → Text → Option Text

-- `starved` is a run whose fuel is too little; a panic is the use of a nil package.
pub data Run (A : Type 0) : Type 0 where
  starved panicked : Run A
  done : A → Flattener → Run A

abbrev pub Step : Type 0 → Type 0
Step A = Flattener → Run A

infixl 5 ◌>>=◌
unfoldable pub ◌>>=◌ : {A B : Type 0} → Step A → (A → Step B) → Step B
◌>>=◌ m f s = elim (m s) [ starved ↦ starved | panicked ↦ panicked | done a t ↦ f a t ]

unfoldable pub return : {A : Type 0} → A → Step A
return a s = done a s

unfoldable pub starve : {A : Type 0} → Step A
starve s = starved

unfoldable pub panic : {A : Type 0} → Step A
panic s = panicked

-- `cacheType`, and then a value.
unfoldable pub cache_type : {A : Type 0} → TypeIdent → Schema → A → Step A
unfolding put same_ident
cache_type typ s a f =
    done a (record f { flattened_types = put same_ident typ s f.flattened_types })

-- `AddError`
unfoldable pub add_error : {A : Type 0} → Text → FlattenError → A → Step A
add_error pkg e a f = done a (record f { errors = f.errors ++ (pkg, e) ∷ [] })

unfoldable pub cached : TypeIdent → Step (Option Schema)
unfolding lookup same_ident
cached typ f = done (lookup same_ident typ f.flattened_types) f

-- `schema.Ref`, if it is neither nil nor empty.
unfoldable pub ref_text : Option Scalar → Option Text
ref_text (some (text [])) = none
ref_text (some (text (b ∷ t))) = some (b ∷ t)
ref_text _ = none

unfoldable pub ref_of : Schema → Option Text
unfolding ref_text
ref_of (schema docs p s all_of props items add) = ref_text (p ref)

-- `identFromRef`; `none` for the package is nil.
unfoldable pub ident_from_parts : Loaded → Text → Text → Text → Option TypeIdent
ident_from_parts l pkg name [] = some (record { pkg = pkg; name = name })
ident_from_parts l pkg name (b ∷ t) = (elim (l.imports pkg (b ∷ t)) [
  | none ↦ none
  | some other ↦ some (record { pkg = other; name = name })
])

unfoldable pub ident_from_ref : Loaded → Text → Text → Result Text (Option TypeIdent)
unfolding ref_parts ident_from_parts
ident_from_ref l link pkg = (elim (ref_parts link) [
  | err e ↦ err e
  | ok (name, pkg_name) ↦ ok (ident_from_parts l pkg name pkg_name)
])

-- The parser of a reference: the package, the references seen at the node, the reference, and the
-- node that it stands in.
abbrev pub Expand : Type 0
Expand = Text → List Text → Text → Schema → Step Schema

-- A node, with the walks of its parts in their order; a loop over a map goes through the properties in
-- the order of the list.
unfoldable pub rebuild :
    Docs → Plain → Special → Step Items → Step Schemas → Step Props → Step Additional → Step Schema
rebuild docs p s items all_of props add = do
  its_items ← items
  its_all_of ← all_of
  its_props ← props
  its_add ← add
  return (schema docs p s its_all_of its_props its_items its_add)

-- `Visit` at a node that is not nil: without a reference, the children are next.
unfoldable pub visit_node : Expand → Text → Option Text → Schema → Step Schema → Step Schema
visit_node expand pkg none s children = children
visit_node expand pkg (some link) s children = expand pkg (link ∷ []) link s

module _ (expand : Expand) (pkg : Text) where
  -- `walkSchema`, `walkSlice`, `walkMap` and `walkPtr`.
  unfoldable mutual
    pub walk : Schema → Step Schema
    walk (schema docs p s all_of props items add) =
        visit_node expand pkg (ref_text (p ref)) (schema docs p s all_of props items add) (
          rebuild docs p s (walk_items items) (walk_slice all_of) (walk_map props)
            (walk_additional add))

    pub walk_slice : Schemas → Step Schemas
    walk_slice no_schemas = return no_schemas
    walk_slice (more s ss) = do t ← walk s; ts ← walk_slice ss; return (more t ts)

    pub walk_map : Props → Step Props
    walk_map no_props = return no_props
    walk_map (prop k s ps) = do t ← walk s; ts ← walk_map ps; return (prop k t ts)

    pub walk_items : Items → Step Items
    walk_items no_items = return no_items
    walk_items (items_of s) = do t ← walk s; return (items_of t)

    pub walk_additional : Additional → Step Additional
    walk_additional no_additional = return no_additional
    walk_additional any_additional = return any_additional
    walk_additional (additional_of s) = do t ← walk s; return (additional_of t)

  unfoldable pub walk_children : Schema → Step Schema
  walk_children (schema docs p s all_of props items add) =
      rebuild docs p s (walk_items items) (walk_slice all_of) (walk_map props) (walk_additional add)

-- The loop of `walkSchema` at a node that has been replaced by the schema of a type: it ends where the
-- schema is no reference, or one that was seen at the node.
unfoldable pub walk_chain : Expand → Text → List Text → Option Text → Schema → Step Schema
unfolding mem
walk_chain expand pkg seen none s = walk_children expand pkg s
walk_chain expand pkg seen (some link) s =
    if mem link seen then walk_children expand pkg s else expand pkg (link ∷ seen) link s

-- After the children: the type is cached, and the fields of the node that referred to it are kept.
unfoldable pub end_node : TypeIdent → Schema → Schema → Step Schema
unfolding preserve_fields
end_node typ field s = cache_type typ s (preserve_fields s field)

-- A reference whose type is not cached: "avoid loops".
unfoldable pub expand_type :
    Expand → Text → List Text → TypeIdent → Option Schema → Schema → Step Schema
unfolding end_node
expand_type expand pkg seen typ none field = add_error pkg (no_schema typ) field
expand_type expand pkg seen typ (some s) field = do
  base ← cache_type typ empty_schema s
  t ← walk_chain expand typ.pkg seen (ref_of base) base
  end_node typ field t

unfoldable pub expand_known :
    Loaded → Expand → Text → List Text → TypeIdent → Schema → Option Schema → Step Schema
unfolding preserve_fields
expand_known l expand pkg seen typ field (some s) = return (preserve_fields s field)
expand_known l expand pkg seen typ field none =
    expand_type expand pkg seen typ (l.schemata typ) field

unfoldable pub expand_ident : Loaded → Expand → Text → List Text → TypeIdent → Schema → Step Schema
expand_ident l expand pkg seen typ field = do
  known ← cached typ
  expand_known l expand pkg seen typ field known

unfoldable pub expand_link :
    Loaded → Expand → Text → List Text → Result Text (Option TypeIdent) → Schema → Step Schema
expand_link l expand pkg seen (err e) field = add_error pkg (bad_link e) field
expand_link l expand pkg seen (ok none) field = panic
expand_link l expand pkg seen (ok (some typ)) field = expand_ident l expand pkg seen typ field

-- `Visit` at a node with a reference. The fuel is used by types within types.
unfoldable pub expand_ref : Loaded → ℕ → Expand
expand_ref l zero pkg seen link field = starve
expand_ref l (suc n) pkg seen link field =
    expand_link l (expand_ref l n) pkg seen (ident_from_ref l link pkg) field

-- `FlattenSchema`
unfoldable pub flatten_schema : Loaded → ℕ → Schema → Text → Step Schema
flatten_schema l n s pkg = walk (expand_ref l n) pkg s

-- `FlattenType`; `none` is a nil schema, after an error.
unfoldable pub flatten_loaded : Loaded → ℕ → TypeIdent → Option Schema → Step (Option Schema)
flatten_loaded l n typ none = add_error typ.pkg (no_schema typ) none
flatten_loaded l n typ (some s) = do t ← flatten_schema l n s typ.pkg; cache_type typ t (some t)

unfoldable pub flatten_known : Loaded → ℕ → TypeIdent → Option Schema → Step (Option Schema)
flatten_known l n typ (some s) = return (some s)
flatten_known l n typ none = flatten_loaded l n typ (l.schemata typ)

unfoldable pub flatten_type : Loaded → ℕ → TypeIdent → Step (Option Schema)
flatten_type l n typ = do known ← cached typ; flatten_known l n typ known
