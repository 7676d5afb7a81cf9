-- ===== src/Crd/Flattener/Tests.antt =====
-- Runs of `FlattenSchema` and `FlattenType`, one of them on types that refer to each other by links of
-- the same text.
use controller_tools.Prelude.{
  arith, ◌≡◌, ◌≢◌, refl, Option, none, some, List, [], ◌∷◌, ◌++◌, if◌then◌else◌,
}
use controller_tools.Text.{Text, codes, eq_text, mem}
use controller_tools.Prelude.Assoc.{lookup, put}
use controller_tools.Text.Split.{after_prefix, cut}
use controller_tools.Crd.Schema.{
  eq_field, ref, text, no_plain, no_docs, no_special, set_field, Schema, schema, Schemas,
  no_schemas, more, no_props, no_items, no_additional,
}
use controller_tools.Crd.Flatten.{preserve_fields}
use controller_tools.Crd.Flatten.Refs.{ref_parts, name_parts, replace_pair}
use controller_tools.Crd.Flattener.{
  TypeIdent, same_ident, Flattener, Loaded, Run, starved, done, ◌>>=◌, return, cache_type,
  add_error, cached, flatten_schema, flatten_loaded, flatten_type, walk, walk_children, walk_slice,
  walk_map, walk_items, walk_additional, rebuild, visit_node, walk_chain, end_node, expand_type,
  expand_ident, expand_known, flatten_known, expand_link, expand_ref, ref_text, ref_of,
  ident_from_ref,
}
use controller_tools.Crd.Flattener.Ends.{Knows, flatten_type-ends}
use controller_tools.Crd.Flattener.Cache.{flatten_type_again}

abbrev link_to : Text → Schema
link_to t =
    schema no_docs (set_field ref (some (text t)) no_plain) no_special no_schemas no_props no_items
      no_additional

abbrev object : Schema
object =
    schema no_docs no_plain (record no_special { type_name = codes "object" }) no_schemas no_props
      no_items no_additional

abbrev ident : Text → Text → TypeIdent
ident p n = record { pkg = p; name = n }

-- In package p, A is q.B; in package q, B is A, which is a struct.
abbrev aliases : Loaded
unfolding same_ident eq_text
aliases = record {
  schemata = λ t.
      if same_ident t (ident (codes "p") (codes "A"))
      then some (link_to (codes "#/definitions/q~0B"))
      else if same_ident t (ident (codes "q") (codes "B"))
      then some (link_to (codes "#/definitions/A"))
      else if same_ident t (ident (codes "q") (codes "A"))
      then some object
      else none;
  imports = λ pkg name. some name;
}

abbrev no_types : Flattener
no_types = record { flattened_types = []; errors = [] }

link_in : Option Text → List Text → List Text
link_in none rest = rest
link_in (some t) rest = t ∷ rest

-- The links that are left in a schema and what it is all of.
mutual
  links : Schema → List Text
  links (schema docs p s all_of props items add) = link_in (ref_text (p ref)) (links_each all_of)

  links_each : Schemas → List Text
  links_each no_schemas = []
  links_each (more s ss) = links s ++ links_each ss

links_of : Run Schema → List Text
unfolding links links_each link_in
links_of (done s f) = links s
links_of _ = []

-- The struct q.A is reached through p.A and q.B, and its link is left, since it was seen as that of p.A.
link_left :
    links_of (flatten_schema aliases 4 (link_to (codes "#/definitions/A")) (codes "p") no_types)
    ≡ codes "#/definitions/A" ∷ []
unfolding links_of flatten_type ◌>>=◌ cached flatten_loaded flatten_schema walk walk_children
    walk_slice walk_map walk_items walk_additional rebuild visit_node walk_chain end_node
    expand_type expand_ident expand_link expand_ref ref_text ref_of ident_from_ref ref_parts
    name_parts replace_pair after_prefix cut preserve_fields cache_type add_error return lookup put
    same_ident eq_text mem aliases eq_field flatten_known expand_known
link_left = refl

-- The struct itself is flattened.
flat_object :
    flatten_type aliases 4 (ident (codes "q") (codes "A")) no_types
    ≡ done
        (some object)
        (record { flattened_types = (ident (codes "q") (codes "A"), object) ∷ []; errors = [] })
unfolding flatten_type ◌>>=◌ cached flatten_loaded flatten_schema walk walk_children walk_slice
    walk_map walk_items walk_additional rebuild visit_node walk_chain end_node expand_type
    expand_ident expand_link expand_ref ref_text ref_of ident_from_ref ref_parts name_parts
    replace_pair after_prefix cut preserve_fields cache_type add_error return lookup put same_ident
    eq_text mem aliases eq_field flatten_known expand_known
flat_object = refl

abbrev idents : List TypeIdent
idents =
    ident (codes "p") (codes "A")
    ∷ ident (codes "q") (codes "B")
    ∷ ident (codes "q") (codes "A")
    ∷ []

aliases-Knows : Knows aliases idents
unfolding aliases
aliases-Knows t s e = ground arith

flatten_type-ends_example :
    flatten_type aliases 4 (ident (codes "p") (codes "A")) no_types ≢ starved
flatten_type-ends_example =
    flatten_type-ends aliases idents aliases-Knows 4 (ident (codes "p") (codes "A")) no_types
      (omega arith)

flatten_type_again_example :
    flatten_type aliases 1
      (ident (codes "q") (codes "A"))
      (record { flattened_types = (ident (codes "q") (codes "A"), object) ∷ []; errors = [] })
    ≡ done
        (some object)
        (record { flattened_types = (ident (codes "q") (codes "A"), object) ∷ []; errors = [] })
flatten_type_again_example =
    flatten_type_again aliases aliases 4 1 (ident (codes "q") (codes "A")) no_types flat_object
