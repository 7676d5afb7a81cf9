-- ===== src/Rbac/Tests.antt =====
-- Runs of the RBAC model on small inputs.
use mathlib.Core.List.Perm
use controller_tools.Prelude.{String, ◌≡◌, refl, Bool, true, ◌||◌, List, [], ◌∷◌, map, any, arith}
use controller_tools.Text.{Text, codes, eq_text, mem}
use controller_tools.Rbac.Rule.{Rule, PolicyRule, remove_dup_and_sort}
use controller_tools.Rbac.Rule.Sorted.{remove_dup_and_sort_unique}
use controller_tools.Rbac.Normalize.{RangeOrder, normalize_rules, asterisk, fix_core}
use controller_tools.Rbac.Permissions.{Authorizer, Request, on_resource, allows, grants}
use controller_tools.Rbac.Stage.{IsRangeOrder}
use controller_tools.Rbac.Sound.{AllFixed, IsLossless, normalize_rules_sound, normalize_rules_exact}

abbrev pub in_order : RangeOrder
in_order = record { names = λ xs. xs; rules = λ i xs. xs; buckets = λ i xs. xs; entries = λ xs. xs }

abbrev pub texts : List String → List Text
texts = map codes

abbrev resource_rule : List String → List String → List String → Rule
resource_rule groups resources verbs = record {
  groups = texts groups;
  resources = texts resources;
  resource_names = [];
  verbs = texts verbs;
  urls = [];
  namespace = [];
  role_name = [];
}

abbrev policy : List String → List String → List String → PolicyRule
policy groups resources verbs = record {
  api_groups = texts groups;
  resources = texts resources;
  resource_names = [];
  verbs = texts verbs;
  non_resource_urls = [];
}

-- Verbs of one resource, then resources, then groups are merged.
merges :
    normalize_rules in_order (
      resource_rule ("core" ∷ []) ("pods" ∷ []) ("list" ∷ [])
      ∷ resource_rule ("" ∷ []) ("pods" ∷ []) ("get" ∷ [])
      ∷ resource_rule ("apps" ∷ []) ("pods" ∷ []) ("get" ∷ "list" ∷ [])
      ∷ resource_rule ("core" ∷ []) ("nodes" ∷ []) ("list" ∷ "get" ∷ "get" ∷ [])
      ∷ [])
    ≡ policy ("" ∷ []) ("nodes" ∷ "pods" ∷ []) ("get" ∷ "list" ∷ [])
      ∷ policy ("apps" ∷ []) ("pods" ∷ []) ("get" ∷ "list" ∷ [])
      ∷ []
unfolding normalize_rules
merges = refl

-- Two merges of groups that end at one key: the second takes the place of the first, and nobody
-- may `get` any more.
overwrites :
    normalize_rules in_order (
      resource_rule ("a" ∷ "b" ∷ []) ("x" ∷ []) ("get" ∷ [])
      ∷ resource_rule ("a" ∷ []) ("x" ∷ []) ("list" ∷ [])
      ∷ resource_rule ("b" ∷ []) ("x" ∷ []) ("list" ∷ [])
      ∷ [])
    ≡ policy ("a" ∷ "b" ∷ []) ("x" ∷ []) ("list" ∷ []) ∷ []
unfolding normalize_rules
overwrites = refl

pub in_order-IsRangeOrder : IsRangeOrder in_order
in_order-IsRangeOrder = record {
  names = Perm.refl;
  rules = λ i. Perm.refl;
  buckets = λ i. Perm.refl;
  entries = Perm.refl;
}

-- Entries match their own name, and "*" matches all.
abbrev entry_matches : Text → Text → Bool
entry_matches entry name = eq_text entry asterisk || eq_text entry name

unfoldable pub by_user_name : Authorizer
unfolding eq_text
by_user_name = record {
  group_matches = eq_text;
  resource_matches = entry_matches;
  name_matches = eq_text;
  url_matches = eq_text;
  verb_matches = entry_matches;
  all_verbs = λ verb. refl;
}

abbrev pub get_pods : Request
get_pods = on_resource [] (codes "pods") (codes "web") (codes "get")

abbrev three_rules : List Rule
three_rules =
    resource_rule ("core" ∷ []) ("pods" ∷ []) ("list" ∷ [])
    ∷ resource_rule ("" ∷ []) ("pods" ∷ []) ("get" ∷ [])
    ∷ resource_rule ("core" ∷ []) ("nodes" ∷ []) ("list" ∷ "get" ∷ "get" ∷ [])
    ∷ []

three_rules-AllFixed : AllFixed three_rules
unfolding fix_core eq_text
three_rules-AllFixed = (
  record {
    groups_clean = refl;
    resources_clean = refl;
    names_clean = refl;
    verbs_clean = refl;
    urls_clean = refl;
    groups_of_resources = refl;
    groups_or_urls = refl;
  },
  (
    record {
      groups_clean = refl;
      resources_clean = refl;
      names_clean = refl;
      verbs_clean = refl;
      urls_clean = refl;
      groups_of_resources = refl;
      groups_or_urls = refl;
    },
    (
      record {
        groups_clean = refl;
        resources_clean = refl;
        names_clean = refl;
        verbs_clean = refl;
        urls_clean = refl;
        groups_of_resources = refl;
        groups_or_urls = refl;
      },
      tt,
    ),
  ),
)

three_rules-IsLossless : IsLossless in_order three_rules
unfolding normalize_rules
three_rules-IsLossless = record { resources = (refl, tt); groups = (refl, tt); urls = (refl, tt) }

normalize_rules_exact_example :
    any (allows by_user_name get_pods) (normalize_rules in_order three_rules)
    ≡ any (λ r. grants by_user_name get_pods (fix_core r)) three_rules
normalize_rules_exact_example =
    normalize_rules_exact by_user_name get_pods in_order in_order-IsRangeOrder three_rules
      three_rules-AllFixed three_rules-IsLossless

get_pods_allowed : any (allows by_user_name get_pods) (normalize_rules in_order three_rules) ≡ true
unfolding normalize_rules by_user_name
get_pods_allowed = refl

normalize_rules_sound_example :
    any (λ r. grants by_user_name get_pods (fix_core r)) three_rules ≡ true
normalize_rules_sound_example =
    normalize_rules_sound by_user_name get_pods in_order in_order-IsRangeOrder three_rules
      three_rules-AllFixed get_pods_allowed

same_items : (x : Text) → mem x (texts ("b" ∷ "a" ∷ "b" ∷ [])) ≡ mem x (texts ("a" ∷ "b" ∷ []))
unfolding mem
same_items x = ground arith

remove_dup_and_sort_unique_example :
    remove_dup_and_sort (λ xs. xs) (texts ("b" ∷ "a" ∷ "b" ∷ []))
    ≡ remove_dup_and_sort (λ xs. xs) (texts ("a" ∷ "b" ∷ []))
remove_dup_and_sort_unique_example =
    remove_dup_and_sort_unique (λ xs. xs) (λ xs. xs) (texts ("b" ∷ "a" ∷ "b" ∷ []))
      (texts ("a" ∷ "b" ∷ [])) Perm.refl Perm.refl same_items
