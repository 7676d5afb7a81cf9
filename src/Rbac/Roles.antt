-- ===== src/Rbac/Roles.antt =====
-- `GenerateRoles` of pkg/rbac/parser.go: the markers of all roots become sorted Roles and
-- ClusterRoles.
use mathlib.Core.List.{List}
use controller_tools.Prelude.{
  Bool, ◌&&◌, Option, none, some, [], ◌∷◌, ◌++◌, map, foldl, if◌then◌else◌, is_empty,
}
use controller_tools.Prelude.Sort.{sort_by}
use controller_tools.Prelude.Assoc.{lookup, put}
use controller_tools.Text.{Text, eq_text, less_text}
use controller_tools.Rbac.Rule.{Rule, PolicyRule}
use controller_tools.Rbac.Normalize.{RangeOrder, normalize_rules}

-- `nsRoleKey`
pub record NsRoleKey : Type 0 where
  pub namespace : Text
  pub role_name : Text

unfoldable pub eq_ns_role_key : NsRoleKey → NsRoleKey → Bool
eq_ns_role_key a b = eq_text a.namespace b.namespace && eq_text a.role_name b.role_name

-- The comparison of `slices.SortFunc`, as a test for "before".
unfoldable pub less_ns_role_key : NsRoleKey → NsRoleKey → Bool
less_ns_role_key a b =
    if eq_text a.namespace b.namespace
    then less_text a.role_name b.role_name
    else less_text a.namespace b.namespace

abbrev pub RulesByNsRole : Type 0
RulesByNsRole = List (NsRoleKey × List Rule)

-- The role name of a marker, or the generator's.
unfoldable pub effective_role_name : Text → Rule → Text
effective_role_name role_name rule = if is_empty rule.role_name then role_name else rule.role_name

unfoldable pub ns_role_key : Text → Rule → NsRoleKey
ns_role_key role_name rule = record {
  namespace = rule.namespace;
  role_name = effective_role_name role_name rule;
}

-- One rule for each resource, or one with none.
unfoldable pub split_rule : Text → Rule → List Rule
split_rule role_name rule =
    let one = λ (resources : List Text). record rule {
      resources = resources;
      role_name = effective_role_name role_name rule;
    } in
    if is_empty rule.resources
    then one [] ∷ []
    else map (λ resource. one (resource ∷ [])) rule.resources

-- `append(rules, r)`, where a missing key has no rules.
abbrev pub append_to : Option (List Rule) → Rule → List Rule
append_to none r = r ∷ []
append_to (some rs) r = rs ++ r ∷ []

-- `rulesByNSRole[key] = append(rulesByNSRole[key], &r)`
unfoldable pub add_at : NsRoleKey → RulesByNsRole → Rule → RulesByNsRole
add_at key m r = put eq_ns_role_key key (append_to (lookup eq_ns_role_key key m) r) m

module _ (role_name : Text) where
  unfoldable pub add_marker : RulesByNsRole → Rule → RulesByNsRole
  add_marker m rule = foldl (add_at (ns_role_key role_name rule)) m (split_rule role_name rule)

  -- A root gives the RBAC markers of its package, or `none` where `PackageMarkers` fails: that
  -- error is added to the root, and the loop goes on with no markers.
  unfoldable pub add_root : RulesByNsRole → Option (List Rule) → RulesByNsRole
  add_root m none = m
  add_root m (some rules) = foldl add_marker m rules

  unfoldable pub rules_by_ns_role : List (Option (List Rule)) → RulesByNsRole
  rules_by_ns_role = foldl add_root []

-- The objects, without their constant kinds and versions.
pub data Object : Type 0 where
  cluster_role : Text → List PolicyRule → Object
  role : Text → Text → List PolicyRule → Object

unfoldable pub make_object : NsRoleKey → List PolicyRule → Object
make_object key rules =
    if is_empty key.namespace
    then cluster_role key.role_name rules
    else role key.role_name key.namespace rules

-- The body of the last loop: no object without rules.
unfoldable pub add_object : List Object → NsRoleKey → List PolicyRule → List Object
add_object objs key policy_rules =
    if is_empty policy_rules then objs else objs ++ make_object key policy_rules ∷ []

-- The orders of the loops over maps: over `rulesByNSRole`, and those of each `NormalizeRules`.
pub record GenerateOrder : Type 0 where
  pub keys : RulesByNsRole → RulesByNsRole
  pub normalize : NsRoleKey → RangeOrder

module _ (order : GenerateOrder) where
  -- The keys with their rules, sorted.
  unfoldable pub sorted_keys : RulesByNsRole → RulesByNsRole
  sorted_keys m = sort_by (λ (j, _) (k, _). less_ns_role_key j k) (order.keys m)

  unfoldable pub add_objects : List Object → RulesByNsRole → List Object
  add_objects objs [] = objs
  add_objects objs ((key, rules) ∷ rest) =
      add_objects (add_object objs key (normalize_rules (order.normalize key) rules)) rest

  unfoldable pub generate_roles : Text → List (Option (List Rule)) → List Object
  unfolding rules_by_ns_role add_root add_marker add_at lookup put eq_ns_role_key eq_text
      ns_role_key effective_role_name split_rule sorted_keys sort_by less_ns_role_key less_text
      add_objects add_object make_object normalize_rules
  generate_roles role_name roots = add_objects [] (sorted_keys (rules_by_ns_role role_name roots))
