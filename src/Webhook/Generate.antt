-- ===== src/Webhook/Generate.antt =====
-- `Generator.Generate` of pkg/webhook/parser.go, from the markers of the roots to the objects of each
-- version. Reading the header and writing the files are left out.
pub mod Checks
pub mod Complete
use controller_tools.Prelude.{
  ℕ, Bool, true, false, not, Option, none, some, List, [], ◌∷◌, ◌++◌, if◌then◌else◌, is_empty,
}
use controller_tools.Prelude.Assoc.{lookup, put}
use controller_tools.Prelude.Result.{Result, ok, err, ◌>>=◌}
use controller_tools.Prelude.Sort.{sort_by}
use controller_tools.Text.{Text, codes, eq_text, less_text}
use controller_tools.Webhook.Config.{
  Admission, Config, WebhookConfig, WebhookError, duplicate_mutating, duplicate_validating,
  no_review_versions, webhook_versions_of, check_side_effects_for_v1, check_timeout_seconds,
  supported_webhook_versions,
}
use controller_tools.Webhook.Convert.{
  MutatingWebhook, ValidatingWebhook, Calls, to_mutating_webhook, to_validating_webhook,
  to_mutating_webhook_configuration, to_validating_webhook_configuration,
}

-- The markers of a root package, after `PackageMarkers`.
pub record Root : Type 0 where
  pub webhook_configs : List WebhookConfig
  pub configs : List Config

-- Webhooks by version: `map[string][]W`
abbrev pub Versioned : Type 0 → Type 0
Versioned W = List (Text × List W)

-- The variables of `Generate` that the first loop writes. Of the two configurations only the name is
-- ever set.
pub record GenState : Type 0 where
  pub mutating_cfgs : Versioned MutatingWebhook
  pub validating_cfgs : Versioned ValidatingWebhook
  pub mutating_name : Text
  pub validating_name : Text

abbrev pub new_state : GenState
new_state = record {
  mutating_cfgs = [];
  validating_cfgs = [];
  mutating_name = [];
  validating_name = [];
}

-- The loop over the webhook configurations of a root, with the two flags.
unfoldable pub webhook_config_loop :
    Bool → Bool → List WebhookConfig → GenState → Result WebhookError GenState
unfolding to_mutating_webhook_configuration to_validating_webhook_configuration
webhook_config_loop has_validating has_mutating [] s = ok s
webhook_config_loop has_validating has_mutating (c ∷ cs) s =
    let named_mutating : Text → GenState = λ n. record {
      mutating_cfgs = s.mutating_cfgs;
      validating_cfgs = s.validating_cfgs;
      mutating_name = n;
      validating_name = s.validating_name;
    } in
    let named_validating : Text → GenState = λ n. record {
      mutating_cfgs = s.mutating_cfgs;
      validating_cfgs = s.validating_cfgs;
      mutating_name = s.mutating_name;
      validating_name = n;
    } in
    if c.mutating
    then (if has_mutating then err (duplicate_mutating c.name) else do
      n ← to_mutating_webhook_configuration c
      webhook_config_loop has_validating true cs (named_mutating n))
    else (if has_validating then err (duplicate_validating c.name) else do
      n ← to_validating_webhook_configuration c
      webhook_config_loop true has_mutating cs (named_validating n))

-- `m[v] = append(m[v], w)`
abbrev pub list_or_empty : {A : Type 0} → Option (List A) → List A
list_or_empty none = []
list_or_empty (some l) = l

unfoldable pub append_version : {W : Type 0} → W → Text → Versioned W → Versioned W
unfolding lookup put eq_text
append_version w v m = put eq_text v (list_or_empty (lookup eq_text v m) ++ w ∷ []) m

unfoldable pub append_versions : {W : Type 0} → W → List Text → Versioned W → Versioned W
unfolding append_version
append_versions w [] m = m
append_versions w (v ∷ vs) m = append_versions w vs (append_version w v m)

-- The two branches and the body of the loop over the webhooks of a root.
unfoldable pub add_mutating : Calls → Config → List Text → GenState → Result WebhookError GenState
unfolding append_versions to_mutating_webhook
add_mutating k c versions s = do
  w ← to_mutating_webhook k c
  ok (record {
    mutating_cfgs = append_versions w versions s.mutating_cfgs;
    validating_cfgs = s.validating_cfgs;
    mutating_name = s.mutating_name;
    validating_name = s.validating_name;
  })

unfoldable pub add_validating : Calls → Config → List Text → GenState → Result WebhookError GenState
unfolding append_versions to_validating_webhook
add_validating k c versions s = do
  w ← to_validating_webhook k c
  ok (record {
    mutating_cfgs = s.mutating_cfgs;
    validating_cfgs = append_versions w versions s.validating_cfgs;
    mutating_name = s.mutating_name;
    validating_name = s.validating_name;
  })

unfoldable pub add_config : Calls → Config → GenState → Result WebhookError GenState
unfolding add_mutating add_validating webhook_versions_of
add_config k c s = do
  versions ← webhook_versions_of k.unsorted_list c
  if c.mutating then add_mutating k c versions s else add_validating k c versions s

unfoldable pub add_configs : Calls → List Config → GenState → Result WebhookError GenState
unfolding add_config
add_configs k [] s = ok s
add_configs k (c ∷ cs) s = do t ← add_config k c s; add_configs k cs t

abbrev pub less_name : Config → Config → Bool
less_name a b = less_text a.name b.name

-- The loop over the roots.
unfoldable pub add_roots : Calls → List Root → GenState → Result WebhookError GenState
unfolding webhook_config_loop add_configs sort_by less_text
add_roots k [] s = ok s
add_roots k (r ∷ rs) s = do
  t ← webhook_config_loop false false r.webhook_configs s
  u ← add_configs k (sort_by less_name r.configs) t
  add_roots k rs u

-- A `MutatingWebhookConfiguration` or `ValidatingWebhookConfiguration`: name, version and webhooks.
pub data Object : Type 0 where
  mutating_configuration : Text → Text → List MutatingWebhook → Object
  validating_configuration : Text → Text → List ValidatingWebhook → Object

-- `slices.SortFunc` by name, for the two types of webhooks.
pub record SortFuncs : Type 0 where
  pub sort_mutating : List MutatingWebhook → List MutatingWebhook
  pub sort_validating : List ValidatingWebhook → List ValidatingWebhook

-- The body of the loop that checks the webhooks of an object.
unfoldable pub check_webhook :
    Admission → Option Text → Option ℕ → List Text → Result WebhookError Unit
unfolding check_side_effects_for_v1 check_timeout_seconds
check_webhook k side_effects timeout versions = do
  u ← check_side_effects_for_v1 k side_effects
  v ← check_timeout_seconds timeout
  if is_empty versions then err no_review_versions else ok tt

unfoldable pub check_mutating : Admission → List MutatingWebhook → Result WebhookError Unit
unfolding check_webhook
check_mutating k [] = ok tt
check_mutating k (w ∷ ws) = do
  u ← check_webhook k w.side_effects w.timeout_seconds w.admission_review_versions
  check_mutating k ws

unfoldable pub check_validating : Admission → List ValidatingWebhook → Result WebhookError Unit
unfolding check_webhook
check_validating k [] = ok tt
check_validating k (w ∷ ws) = do
  u ← check_webhook k w.side_effects w.timeout_seconds w.admission_review_versions
  check_validating k ws

abbrev pub name_or : Text → Text → Text
name_or default name = if is_empty name then default else name

-- The mutating object of a version, if the version has webhooks.
unfoldable pub mutating_objects :
    Admission → SortFuncs → GenState → Text → Result WebhookError (List Object)
unfolding check_mutating lookup eq_text
mutating_objects k f s version = elim (lookup eq_text version s.mutating_cfgs) [
  | none ↦ ok []
  | some ws ↦ do
    u ← check_mutating k (f.sort_mutating ws)
    ok (
        mutating_configuration (name_or (codes "mutating-webhook-configuration") s.mutating_name)
          version (f.sort_mutating ws)
        ∷ [])
]

unfoldable pub validating_objects :
    Admission → SortFuncs → GenState → Text → Result WebhookError (List Object)
unfolding check_validating lookup eq_text
validating_objects k f s version = elim (lookup eq_text version s.validating_cfgs) [
  | none ↦ ok []
  | some ws ↦ do
    u ← check_validating k (f.sort_validating ws)
    ok (
        validating_configuration
          (name_or (codes "validating-webhook-configuration") s.validating_name) version
          (f.sort_validating ws)
        ∷ [])
]

-- The loop over the supported versions: `versionedWebhooks`, without the versions that have no key.
unfoldable pub version_objects :
    Admission → SortFuncs → GenState → List Text → Result WebhookError (List (Text × List Object))
unfolding mutating_objects validating_objects
version_objects k f s [] = ok []
version_objects k f s (v ∷ vs) = do
  ms ← mutating_objects k f s v
  os ← validating_objects k f s v
  rest ← version_objects k f s vs
  ok (if is_empty (ms ++ os) then rest else (v, ms ++ os) ∷ rest)

-- `Generate`, up to the files.
unfoldable pub generate :
    Calls → SortFuncs → List Root → Result WebhookError (List (Text × List Object))
unfolding add_roots version_objects
generate k f roots = do
  s ← add_roots k roots new_state
  version_objects k.admission f s supported_webhook_versions
