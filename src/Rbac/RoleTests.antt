-- ===== src/Rbac/RoleTests.antt =====
-- Runs of the role generation on small inputs.
use mathlib.Core.List.Perm
use controller_tools.Prelude.{String, ◌≡◌, refl, true, Option, none, some, List, [], ◌∷◌, map, any}
use controller_tools.Prelude.Ascending.{IsAscending}
use controller_tools.Prelude.Result.{ok}
use controller_tools.Text.{Text, codes, eq_text}
use controller_tools.Rbac.Rule.{Rule}
use controller_tools.Rbac.Normalize.{fix_core}
use controller_tools.Rbac.Permissions.{grants}
use controller_tools.Rbac.Roles.{
  NsRoleKey, GenerateOrder, generate_roles, split_rule, eq_ns_role_key, less_ns_role_key,
}
use controller_tools.Rbac.Split.{split_rule_lem, markers_of, RootsFixed}
use controller_tools.Rbac.Scope.{
  IsGenerateOrder, object_key, objects_grant, markers_grant, generate_roles_sound,
}
use controller_tools.Rbac.Output.{Generator, Manifest, generate_manifest}
use controller_tools.Rbac.Distinct.{generate_roles-IsAscending}
use controller_tools.Rbac.Tests.{in_order, texts, by_user_name, get_pods, in_order-IsRangeOrder}

abbrev role_rule : String → List String → Rule
role_rule namespace resources = record {
  groups = texts ("core" ∷ []);
  resources = texts resources;
  resource_names = [];
  verbs = texts ("get" ∷ []);
  urls = [];
  namespace = codes namespace;
  role_name = [];
}

-- Two packages, one of which cannot be read.
abbrev two_roots : List (Option (List Rule))
two_roots =
    some (role_rule "web" ("pods" ∷ "nodes" ∷ []) ∷ role_rule "" ("pods" ∷ []) ∷ []) ∷ none ∷ []

two_roots-RootsFixed : RootsFixed two_roots
unfolding fix_core eq_text
two_roots-RootsFixed = (
  (
    record {
      groups_clean = refl;
      resources_clean = refl;
      names_clean = refl;
      verbs_clean = refl;
      urls_clean = refl;
      groups_of_resources = refl;
      groups_or_urls = refl;
    },
    (
      record {
        groups_clean = refl;
        resources_clean = refl;
        names_clean = refl;
        verbs_clean = refl;
        urls_clean = refl;
        groups_of_resources = refl;
        groups_or_urls = refl;
      },
      tt,
    ),
  ),
  (tt, tt),
)

abbrev generate_order : GenerateOrder
generate_order = record { keys = λ m. m; normalize = λ k. in_order }

generate_order-IsGenerateOrder : IsGenerateOrder generate_order
generate_order-IsGenerateOrder = record { keys = Perm.refl; normalize = λ k. in_order-IsRangeOrder }

abbrev web_manager : NsRoleKey
web_manager = record { namespace = codes "web"; role_name = codes "manager" }

web_manager_allowed :
    objects_grant by_user_name get_pods web_manager
      (generate_roles generate_order (codes "manager") two_roots)
    ≡ true
unfolding generate_roles by_user_name
web_manager_allowed = refl

generate_roles_sound_example :
    any
      (λ root. markers_grant by_user_name get_pods web_manager (codes "manager") (markers_of root))
      two_roots
    ≡ true
generate_roles_sound_example =
    generate_roles_sound by_user_name get_pods web_manager generate_order
      generate_order-IsGenerateOrder (codes "manager") two_roots two_roots-RootsFixed
      web_manager_allowed

generate_roles-IsAscending_example :
    IsAscending less_ns_role_key eq_ns_role_key
      (map object_key (generate_roles generate_order (codes "manager") two_roots))
generate_roles-IsAscending_example =
    generate_roles-IsAscending generate_order (codes "manager") two_roots
      generate_order-IsGenerateOrder

split_rule_example :
    any
      (λ r. grants by_user_name get_pods (fix_core r))
      (split_rule (codes "manager") (role_rule "web" ("pods" ∷ "nodes" ∷ [])))
    ≡ grants by_user_name get_pods (fix_core (role_rule "web" ("pods" ∷ "nodes" ∷ [])))
split_rule_example =
    split_rule_lem by_user_name get_pods (codes "manager") (role_rule "web" ("pods" ∷ "nodes" ∷ []))

abbrev manager : Generator
manager = record { role_name = codes "manager"; file_name = []; header_file = []; year = [] }

abbrev read_nothing : Text → Option Text
read_nothing file = none

abbrev keep_text : Text → Text → Text → Text
keep_text t from to = t

abbrev manager_manifest : Manifest
unfolding generate_roles
manager_manifest = record {
  file = codes "role.yaml";
  header = [];
  objects = generate_roles generate_order (codes "manager") two_roots;
}

manifest_written :
    generate_manifest read_nothing keep_text generate_order manager two_roots
    ≡ ok (some manager_manifest)
unfolding generate_manifest
manifest_written = refl
