-- ===== src/Rbac/Scope.antt =====
-- What the objects of `GenerateRoles` grant comes from markers with their namespace and role name.
use mathlib.Core.List.{List}
use controller_tools.Prelude.{
  ◌≡◌, sym, ap, ◌∙◌, Bool, true, ◌&&◌, ◌||◌, Option, none, some, inl, inr, [], ◌∷◌, ◌++◌, foldl,
  arith, any, any-append, any-perm, All-perm, Option-cases, Bool-cases, is_empty, is_empty-eq,
  if◌then◌else◌,
}
use mathlib.Core.List.Perm
use controller_tools.Prelude.Sort.{any-sort_by, All-sort_by}
use controller_tools.Prelude.Assoc.{lookup, any_entry-put_new, any_entry-put_old}
use controller_tools.Text.{Text}
use controller_tools.Rbac.Rule.{Rule, PolicyRule}
use controller_tools.Rbac.Rule.Laws.{IsOrder}
use controller_tools.Rbac.Normalize.{fix_core, normalize_rules}
use controller_tools.Rbac.Permissions.{Authorizer, Request, allows, grants}
use controller_tools.Rbac.Stage.{IsRangeOrder}
use controller_tools.Rbac.Sound.{AllFixed, normalize_rules_sound}
use controller_tools.Rbac.Split.{
  markers_of, eq_ns_role_key_iff, split_rule_lem, AllEntries, RootsFixed, roots-AllEntries,
  AllFixed-prop,
}
use controller_tools.Rbac.Roles.{
  NsRoleKey, effective_role_name, eq_ns_role_key, RulesByNsRole, ns_role_key, split_rule, add_at,
  add_marker, add_root, rules_by_ns_role, Object, cluster_role, role, make_object, add_object,
  GenerateOrder, sorted_keys, add_objects, generate_roles,
}

pub record IsGenerateOrder (order : GenerateOrder) : Type 0 where
  pub keys : IsOrder order.keys
  pub normalize : (k : NsRoleKey) → IsRangeOrder (order.normalize k)

-- The namespace and the name of an object; a ClusterRole has no namespace.
abbrev pub object_key : Object → NsRoleKey
object_key (cluster_role name rules) = record { namespace = []; role_name = name }
object_key (role name namespace rules) = record { namespace = namespace; role_name = name }

abbrev pub object_rules : Object → List PolicyRule
object_rules (cluster_role name rules) = rules
object_rules (role name namespace rules) = rules

pub object_key-make_object :
    (j : NsRoleKey) (ps : List PolicyRule) → object_key (make_object j ps) ≡ j
unfolding make_object
object_key-make_object j ps = elim (Bool-cases (is_empty j.namespace)) [
  | inl e ↦ rw e (ground (arith, is_empty-eq j.namespace e))
  | inr e ↦ rw e
]

object_rules-make_object :
    (j : NsRoleKey) (ps : List PolicyRule) → object_rules (make_object j ps) ≡ ps
unfolding make_object
object_rules-make_object j ps = ground arith

module _ (a : Authorizer) (q : Request) (k : NsRoleKey) where
  -- Some object of that namespace and name grants the request.
  abbrev pub objects_grant : List Object → Bool
  objects_grant = any (λ o. eq_ns_role_key k (object_key o) && any (allows a q) (object_rules o))

  -- A marker is about its namespace, and the role that it names or else the generator's.
  abbrev pub role_of : Text → Rule → NsRoleKey
  role_of role_name r = record {
    namespace = r.namespace;
    role_name = if is_empty r.role_name then role_name else r.role_name;
  }

  -- Some marker of that namespace and role name grants it.
  abbrev pub markers_grant : Text → List Rule → Bool
  markers_grant role_name =
      any (λ r. eq_ns_role_key k (role_of role_name r) && grants a q (fix_core r))

  abbrev rules_grant : List Rule → Bool
  rules_grant = any (λ r. grants a q (fix_core r))

  abbrev entry_grants : NsRoleKey × List Rule → Bool
  entry_grants (j, rs) = eq_ns_role_key k j && rules_grant rs

  any-add_at :
      (j : NsRoleKey) (m : RulesByNsRole) (r : Rule)
      → any entry_grants (add_at j m r)
        ≡ (any entry_grants m || (eq_ns_role_key k j && grants a q (fix_core r)))
  unfolding add_at
  any-add_at j m r = elim (Option-cases (lookup eq_ns_role_key j m)) [
    | inl e ↦ rw e (any_entry-put_new eq_ns_role_key entry_grants j (r ∷ []) m e ∙ ground arith)
    | inr (rs, e) ↦ rw e (
        any_entry-put_old eq_ns_role_key entry_grants j (rs ++ r ∷ []) rs
          (eq_ns_role_key k j && grants a q (fix_core r)) m
          (λ i h. ground (
            arith,
            any-append (λ s. grants a q (fix_core s)) rs (r ∷ []),
            ap (eq_ns_role_key k) ((eq_ns_role_key_iff j i).0 h),
          ))
          e)
  ]

  any-add_all :
      (j : NsRoleKey) (rs : List Rule) (m : RulesByNsRole)
      → any entry_grants (foldl (add_at j) m rs)
        ≡ (any entry_grants m || (eq_ns_role_key k j && rules_grant rs))
  any-add_all j [] m = ground arith
  any-add_all j (r ∷ rs) m = ground (arith, any-add_all j rs (add_at j m r), any-add_at j m r)

  any-add_markers :
      (role_name : Text) (rs : List Rule) (m : RulesByNsRole)
      → any entry_grants (foldl (add_marker role_name) m rs)
        ≡ (any entry_grants m || markers_grant role_name rs)
  unfolding add_marker ns_role_key effective_role_name
  any-add_markers role_name [] m = ground arith
  any-add_markers role_name (r ∷ rs) m = ground (
    arith,
    any-add_markers role_name rs (add_marker role_name m r),
    any-add_all (role_of role_name r) (split_rule role_name r) m,
    split_rule_lem a q role_name r,
  )

  any-add_roots :
      (role_name : Text) (roots : List (Option (List Rule))) (m : RulesByNsRole)
      → any entry_grants (foldl (add_root role_name) m roots)
        ≡ (any entry_grants m || any (λ root. markers_grant role_name (markers_of root)) roots)
  unfolding add_root
  any-add_roots role_name [] m = ground arith
  any-add_roots role_name (none ∷ roots) m = any-add_roots role_name roots m
  any-add_roots role_name (some rs ∷ roots) m = ground (
    arith,
    any-add_roots role_name roots (foldl (add_marker role_name) m rs),
    any-add_markers role_name rs m,
  )

  any-add_object :
      (objs : List Object) (j : NsRoleKey) (ps : List PolicyRule)
      → objects_grant (add_object objs j ps)
        ≡ (objects_grant objs || (eq_ns_role_key k j && any (allows a q) ps))
  unfolding add_object
  any-add_object objs j [] = ground arith
  any-add_object objs j (p ∷ ps) =
      any-append _ objs (make_object j (p ∷ ps) ∷ [])
      ∙ ground (
        arith,
        ap (eq_ns_role_key k) (object_key-make_object j (p ∷ ps)),
        ap (any (allows a q)) (object_rules-make_object j (p ∷ ps)),
      )

  module _ (order : GenerateOrder) (ok : IsGenerateOrder order) where
    add_object_sound :
        (objs : List Object) (j : NsRoleKey) (rs : List Rule)
        → AllFixed rs
        → objects_grant (add_object objs j (normalize_rules (order.normalize j) rs)) ≡ true
        → (objects_grant objs || entry_grants (j, rs)) ≡ true
    add_object_sound objs j rs w h = ground (
      arith,
      any-add_object objs j (normalize_rules (order.normalize j) rs),
      normalize_rules_sound a q (order.normalize j) (ok.normalize j) rs w,
    )

    add_objects_sound :
        (m : RulesByNsRole) (objs : List Object)
        → AllEntries m
        → objects_grant (add_objects order objs m) ≡ true
        → (objects_grant objs || any entry_grants m) ≡ true
    unfolding add_objects
    add_objects_sound [] objs b h = ground arith
    add_objects_sound ((j, rs) ∷ m) objs b h = ground (
      arith,
      add_objects_sound m (add_object objs j (normalize_rules (order.normalize j) rs)) b.1 h,
      add_object_sound objs j rs b.0,
    )

    -- For well-formed markers, whatever the orders of the loops over maps: a request that an object of
    -- `GenerateRoles` with some namespace and name allows is one that some marker with that namespace,
    -- and that role name (the generator's, if the marker has none), grants.
    pub generate_roles_sound :
        (role_name : Text) (roots : List (Option (List Rule)))
        → RootsFixed roots
        → objects_grant (generate_roles order role_name roots) ≡ true
        → any (λ root. markers_grant role_name (markers_of root)) roots ≡ true
    unfolding generate_roles
    generate_roles_sound role_name roots w h =
        let m = rules_by_ns_role role_name roots in
        let b : AllEntries m = roots-AllEntries role_name roots [] w tt in
        sym (any-add_roots role_name roots [])
        ∙ sym (any-perm entry_grants (ok.keys m))
        ∙ sym (any-sort_by _ entry_grants (order.keys m))
        ∙ add_objects_sound (sorted_keys order m) []
            (All-sort_by _ (λ e. AllFixed e.1) (order.keys m)
              (All-perm (λ e. AllFixed e.1) (λ e. AllFixed-prop e.1) (Perm.symm (ok.keys m)) b))
            h
