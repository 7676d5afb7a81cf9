-- ===== src/Rbac/Rule.antt =====
-- The type `Rule` of pkg/rbac/parser.go with its keys and methods.
pub mod Laws
pub mod Sorted
use controller_tools.Prelude.{Bool, ◌&&◌, List, [], ◌∷◌, ◌++◌, foldl, if◌then◌else◌}
use controller_tools.Prelude.Sort.{sort_by}
use controller_tools.Text.{Text, codes, eq_text, less_text, join, mem}

pub record Rule : Type 0 where
  pub groups : List Text
  pub resources : List Text
  pub resource_names : List Text
  pub verbs : List Text
  pub urls : List Text
  pub namespace : Text
  pub role_name : Text

-- `ruleKey`
pub record RuleKey : Type 0 where
  pub groups : Text
  pub resources : Text
  pub resource_names : Text
  pub urls : Text

-- The comparison of two keys of a Go map.
unfoldable pub eq_rule_key : RuleKey → RuleKey → Bool
unfolding eq_text
eq_rule_key a b =
    eq_text a.groups b.groups
    && eq_text a.resources b.resources
    && eq_text a.resource_names b.resource_names
    && eq_text a.urls b.urls

abbrev pub plus : Text
plus = codes " + "

-- `fmt.Sprintf("%s + %s + %s + %s", …)`
unfoldable pub sprintf4 : Text → Text → Text → Text → Text
sprintf4 a b c d = a ++ (plus ++ (b ++ (plus ++ (c ++ (plus ++ d)))))

-- `ruleKey.String`
unfoldable pub key_string : RuleKey → Text
unfolding sprintf4
key_string key = sprintf4 key.groups key.resources key.resource_names key.urls

-- The loop that collects the keys of the map `set`.
unfoldable pub add_to_set : List Text → Text → List Text
unfolding mem
add_to_set set str = if mem str set then set else set ++ str ∷ []

-- `order` is the order in which the loop over the map `set` meets its keys.
unfoldable pub remove_dup_and_sort : (List Text → List Text) → List Text → List Text
unfolding add_to_set sort_by less_text
remove_dup_and_sort order [] = []
remove_dup_and_sort order strs = sort_by less_text (order (foldl add_to_set [] strs))

module _ (order : List Text → List Text) where
  unfoldable pub normalize : Rule → Rule
  normalize r = record r {
    groups = remove_dup_and_sort order r.groups;
    resources = remove_dup_and_sort order r.resources;
    resource_names = remove_dup_and_sort order r.resource_names;
    verbs = remove_dup_and_sort order r.verbs;
    urls = remove_dup_and_sort order r.urls;
  }

  unfoldable pub add_verbs : Rule → List Text → Rule
  add_verbs r verbs = record r { verbs = remove_dup_and_sort order (r.verbs ++ verbs) }

abbrev pub amp : Text
amp = codes "&"

-- What the four key methods build after `r.normalize()`, which their callers keep.
unfoldable pub key : Rule → RuleKey
unfolding join
key r = record {
  groups = join amp r.groups;
  resources = join amp r.resources;
  resource_names = join amp r.resource_names;
  urls = join amp r.urls;
}

unfoldable pub key_with_group_resource_names_urls_verbs : Rule → Text
unfolding key sprintf4
key_with_group_resource_names_urls_verbs r =
    sprintf4 (key r).groups (key r).resource_names (key r).urls (join amp r.verbs)

unfoldable pub key_with_resources_resource_names_urls_verbs : Rule → Text
unfolding key sprintf4
key_with_resources_resource_names_urls_verbs r =
    sprintf4 (key r).resources (key r).resource_names (key r).urls (join amp r.verbs)

unfoldable pub key_with_group_resources_resource_names_verbs : Rule → Text
unfolding key sprintf4
key_with_group_resources_resource_names_verbs r =
    sprintf4 (key r).groups (key r).resources (key r).resource_names (join amp r.verbs)

-- `rbacv1.PolicyRule`, as far as `ToRule` fills it.
pub record PolicyRule : Type 0 where
  pub api_groups : List Text
  pub verbs : List Text
  pub resources : List Text
  pub resource_names : List Text
  pub non_resource_urls : List Text

unfoldable pub to_rule : Rule → PolicyRule
to_rule r = record {
  api_groups = r.groups;
  verbs = r.verbs;
  resources = r.resources;
  resource_names = r.resource_names;
  non_resource_urls = r.urls;
}
