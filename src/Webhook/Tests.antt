-- ===== src/Webhook/Tests.antt =====
-- Runs of the webhook model on small inputs.
use mathlib.Core.List.Perm
use controller_tools.Prelude.{
  ℕ, ◌≡◌, refl, Bool, true, false, ◌&&◌, ◌⊎◌, none, some, List, [], ◌∷◌, map, any, All, leb,
  if◌then◌else◌, ◌+◌, ◌≤◌, ◌↔◌,
}
use controller_tools.Prelude.Result.{ok}
use controller_tools.Text.{Text, codes, eq_text}
use controller_tools.Webhook.Config.{
  Admission, Config, rules, check_timeout_seconds, timeout_seconds_of, to_int32,
}
use controller_tools.Webhook.Config.Laws.{check_timeout_seconds_iff}
use controller_tools.Webhook.Convert.{
  MutatingWebhook, ValidatingWebhook, Patching, Calls, to_mutating_webhook,
}
use controller_tools.Webhook.Generate.{
  Root, SortFuncs, Object, mutating_configuration, validating_configuration, generate,
}
use controller_tools.Webhook.Generate.Checks.{IsChecked, generate-IsChecked}
use controller_tools.Webhook.Generate.Complete.{
  IsUnsortedList, IsSorting, in_object, passes, generate_complete,
}

abbrev lower : Text → Text
lower = map (λ b. if leb 65 b && leb b 90 then b + 32 else b)

abbrev constants : Admission
constants = record {
  to_lower = lower;
  create = codes "CREATE";
  update = codes "UPDATE";
  delete = codes "DELETE";
  connect = codes "CONNECT";
  operation_all = codes "*";
  ignore = codes "Ignore";
  fail = codes "Fail";
  exact = codes "Exact";
  equivalent = codes "Equivalent";
  side_effect_unknown = codes "Unknown";
  side_effect_none = codes "None";
  side_effect_some = codes "Some";
  side_effect_none_on_dry_run = codes "NoneOnDryRun";
  never = codes "Never";
  if_needed = codes "IfNeeded";
}

abbrev unpatched : {W : Type 0} → Patching W
unpatched = record { marshal = λ w. some []; merge = λ a b. some a; unmarshal = λ t w. some w }

abbrev calls : Calls
calls = record {
  admission = constants;
  trim_space = λ t. t;
  unsorted_list = λ vs. vs;
  patch_mutating = unpatched;
  patch_validating = unpatched;
}

abbrev as_given : SortFuncs
as_given = record { sort_mutating = λ ws. ws; sort_validating = λ ws. ws }

as_given-IsSorting : IsSorting as_given
as_given-IsSorting = (Perm.refl, Perm.refl)

set-IsUnsortedList : IsUnsortedList calls.unsorted_list
set-IsUnsortedList vs v = refl

-- A webhook for deployments; the timeout is written with 64 bits.
abbrev demo : Bool → ℕ → Config
demo mutating timeout = record {
  mutating = mutating;
  failure_policy = codes "fail";
  match_policy = [];
  side_effects = codes "none";
  timeout_seconds = timeout;
  groups = codes "core" ∷ codes "apps" ∷ [];
  resources = codes "deployments" ∷ [];
  verbs = codes "create" ∷ codes "UPDATE" ∷ [];
  versions = codes "v1" ∷ [];
  name = codes "demo";
  service_name = [];
  service_namespace = [];
  path = codes "/mutate";
  service_port = none;
  webhook_versions = [];
  admission_review_versions = codes "v1" ∷ [];
  reinvocation_policy = [];
  url = [];
  patch = [];
}

abbrev demo_root : Root
demo_root = record {
  webhook_configs = record { mutating = true; name = codes "named" } ∷ [];
  configs = demo true 10 ∷ demo false 0 ∷ [];
}

abbrev mutating_demo : MutatingWebhook
mutating_demo = record {
  name = codes "demo";
  rules =
      record {
        api_groups = [] ∷ codes "apps" ∷ [];
        api_versions = codes "v1" ∷ [];
        resources = codes "deployments" ∷ [];
        operations = codes "CREATE" ∷ codes "UPDATE" ∷ [];
      }
      ∷ [];
  failure_policy = some (codes "Fail");
  match_policy = none;
  client_config = record {
    service = some (record {
      name = codes "webhook-service";
      namespace = codes "system";
      path = some (codes "/mutate");
      port = none;
    });
    url = none;
  };
  side_effects = some (codes "None");
  timeout_seconds = some 10;
  admission_review_versions = codes "v1" ∷ [];
  reinvocation_policy = none;
  other_fields = [];
}

abbrev validating_demo : ValidatingWebhook
validating_demo = record {
  name = codes "demo";
  rules = mutating_demo.rules;
  failure_policy = some (codes "Fail");
  match_policy = none;
  client_config = mutating_demo.client_config;
  side_effects = some (codes "None");
  timeout_seconds = none;
  admission_review_versions = codes "v1" ∷ [];
  other_fields = [];
}

abbrev demo_objects : List (Text × List Object)
demo_objects =
    (
      codes "v1",
      mutating_configuration (codes "named") (codes "v1") (mutating_demo ∷ [])
          ∷ validating_configuration (codes "validating-webhook-configuration") (codes "v1")
              (validating_demo ∷ [])
          ∷ [],
    )
    ∷ []

demo_generated : generate calls as_given (demo_root ∷ []) ≡ ok demo_objects
unfolding generate
demo_generated = refl

-- A timeout of 2 ^ 32 + 10 seconds is taken for one of 10.
long_timeout : check_timeout_seconds (timeout_seconds_of (demo true 4294967306)) ≡ ok tt
unfolding check_timeout_seconds timeout_seconds_of
long_timeout = refl

generate-IsChecked_example : All (λ e. All (IsChecked constants) e.1) demo_objects
generate-IsChecked_example =
    generate-IsChecked calls as_given (demo_root ∷ []) demo_objects demo_generated

abbrev is_demo : MutatingWebhook → Bool
unfolding eq_text
is_demo w = eq_text w.name (codes "demo")

generate_complete_example :
    any (λ e. any (in_object is_demo) e.1) demo_objects
    ≡ any
        (λ r. any (λ c. c.mutating && passes is_demo (to_mutating_webhook calls c)) r.configs)
        (demo_root ∷ [])
generate_complete_example =
    generate_complete calls as_given (demo_root ∷ []) demo_objects is_demo set-IsUnsortedList
      as_given-IsSorting demo_generated

check_timeout_seconds_example :
    (check_timeout_seconds (timeout_seconds_of (demo true 10)) ≡ ok tt) ↔ (
      ((demo true 10).timeout_seconds ≡ 0)
      ⊎ ((1 ≤ to_int32 ((demo true 10).timeout_seconds))
          × (to_int32 ((demo true 10).timeout_seconds) ≤ 30)))
check_timeout_seconds_example = check_timeout_seconds_iff (demo true 10)
