-- ===== src/Rbac/Normalize.antt =====
-- The closure `NormalizeRules` of `GenerateRoles` in pkg/rbac/parser.go. Its loops over maps meet
-- the entries in some order, which `RangeOrder` gives.
use mathlib.Core.List.{List}
use controller_tools.Prelude.{ℕ, Option, none, some, [], ◌∷◌, ◌++◌, map, foldl, if◌then◌else◌}
use controller_tools.Prelude.Sort.{sort_by}
use controller_tools.Prelude.Assoc.{lookup, put}
use controller_tools.Text.{Text, codes, eq_text, less_text, mem}
use controller_tools.Rbac.Rule.{
  Rule, RuleKey, eq_rule_key, key, key_string, remove_dup_and_sort, normalize, add_verbs,
  PolicyRule, to_rule, key_with_group_resource_names_urls_verbs,
  key_with_resources_resource_names_urls_verbs, key_with_group_resources_resource_names_verbs,
}

-- `ruleMap`
abbrev pub RuleMap : Type 0
RuleMap = List (RuleKey × Rule)

-- A value of `ruleMapWithoutResources` and its two siblings: `rules[0]` and `rules[1:]`. A list in
-- these maps is made by an `append`, so it is never empty.
abbrev pub Bucket : Type 0
Bucket = Rule × List Rule

abbrev pub BucketMap : Type 0
BucketMap = List (Text × Bucket)

-- `append(rules, rule)`
abbrev pub append_rule : Option Bucket → Rule → Bucket
append_rule none r = (r, [])
append_rule (some (first, rest)) r = (first, rest ++ r ∷ [])

abbrev pub values {ℓ κ} : {K : Type ℓ} {V : Type κ} → List (K × V) → List V
values = map (λ e. e.1)

-- The orders of the loops over maps: over `set`, and in each of the three merges over `ruleMap` and
-- over the map without one field, and over the last `ruleMap`.
pub record RangeOrder : Type 0 where
  pub names : List Text → List Text
  pub rules : ℕ → List Rule → List Rule
  pub buckets : ℕ → List Bucket → List Bucket
  pub entries : RuleMap → RuleMap

-- "core" is a nicer name for the empty group.
unfoldable pub fix_core : Rule → Rule
fix_core r = record r {
  groups = map (λ name. if eq_text name (codes "core") then [] else name) r.groups;
}

module _ (order : RangeOrder) where
  -- The body of the first loop.
  unfoldable pub add_rule : RuleMap → Rule → RuleMap
  add_rule m rule =
      let r = normalize order.names (fix_core rule) in
      elim (lookup eq_rule_key (key r) m) [
        | none ↦ put eq_rule_key (key r) r m
        | some first ↦ put eq_rule_key (key r) (add_verbs order.names first r.verbs) m
      ]

  -- `m[key] = append(m[key], rule)`, where the key method has normalized the rule.
  unfoldable pub add_to_bucket : (Rule → Text) → BucketMap → Rule → BucketMap
  add_to_bucket key_of m rule =
      let r = normalize order.names rule in
      put eq_text (key_of r) (append_rule (lookup eq_text (key_of r) m) r) m

  -- `key := rule.key(); ruleMap[key] = rule`
  unfoldable pub put_rule : RuleMap → Rule → RuleMap
  put_rule m rule = let r = normalize order.names rule in put eq_rule_key (key r) r m

  -- The shape that the three merges share: the rules that agree on `key_of` become one rule ...
  unfoldable pub merged_rules : ℕ → (Rule → Text) → (Rule → Rule → Rule) → RuleMap → List Rule
  merged_rules stage key_of merge m =
      let by_key = foldl (add_to_bucket key_of) [] (order.rules stage (values m)) in
      map (λ (first, rest). foldl merge first rest) (order.buckets stage (values by_key))

  -- ... and these make the new map.
  unfoldable pub merge_by : ℕ → (Rule → Text) → (Rule → Rule → Rule) → RuleMap → RuleMap
  merge_by stage key_of merge m = foldl put_rule [] (merged_rules stage key_of merge m)

unfoldable pub append_resources : Rule → Rule → Rule
append_resources rule merge_rule = record rule {
  resources = rule.resources ++ merge_rule.resources;
}

unfoldable pub append_groups : Rule → Rule → Rule
append_groups rule merge_rule = record rule { groups = rule.groups ++ merge_rule.groups }

unfoldable pub append_urls : Rule → Rule → Rule
append_urls rule merge_rule = record rule { urls = rule.urls ++ merge_rule.urls }

abbrev pub asterisk : Text
asterisk = codes "*"

unfoldable pub star_verbs : Rule → Rule
star_verbs r = if mem asterisk r.verbs then record r { verbs = asterisk ∷ [] } else r

module _ (order : RangeOrder) where
  unfoldable pub dedup_rules : List Rule → RuleMap
  dedup_rules = foldl (add_rule order) []

  unfoldable pub merge_resources : RuleMap → RuleMap
  merge_resources = merge_by order 0 key_with_group_resource_names_urls_verbs append_resources

  unfoldable pub merge_groups : RuleMap → RuleMap
  merge_groups = merge_by order 1 key_with_resources_resource_names_urls_verbs append_groups

  unfoldable pub merge_urls : RuleMap → RuleMap
  merge_urls = merge_by order 2 key_with_group_resources_resource_names_verbs append_urls

  -- The keys in the order of their strings, and the rule of each in its Kubernetes form.
  unfoldable pub policy_rules : RuleMap → List PolicyRule
  policy_rules m =
      map (λ (_, r). to_rule (star_verbs r))
        (sort_by (λ (j, _) (k, _). less_text (key_string j) (key_string k)) (order.entries m))

  unfoldable pub normalize_rules : List Rule → List PolicyRule
  unfolding dedup_rules merge_resources merge_groups merge_urls policy_rules add_rule fix_core mem
      eq_text remove_dup_and_sort normalize add_verbs key lookup put eq_rule_key merge_by
      merged_rules add_to_bucket put_rule append_resources append_groups append_urls star_verbs
      to_rule sort_by less_text key_string key_with_group_resource_names_urls_verbs
      key_with_resources_resource_names_urls_verbs key_with_group_resources_resource_names_verbs
  normalize_rules rules =
      policy_rules (merge_urls (merge_groups (merge_resources (dedup_rules rules))))
