-- ===== src/Webhook/Convert.antt =====
-- `applyPatch` and the conversions of a `Config` of pkg/webhook/parser.go to its API form. JSON and
-- the strategic merge patch are a parameter.
use controller_tools.Prelude.{ℕ, not, Option, none, some, List, [], if◌then◌else◌, is_empty}
use controller_tools.Prelude.Result.{Result, ok, err, ◌>>=◌}
use controller_tools.Text.{Text}
use controller_tools.Webhook.Config.{
  Admission, Config, WebhookConfig, RuleWithOperations, ClientConfig, WebhookError, not_mutating,
  not_validating, rules, failure_policy_of, match_policy_of, client_config, side_effects_of,
  timeout_seconds_of, reinvocation_policy_of,
}

-- `admissionregv1.MutatingWebhook`. `other_fields` stands for the fields that only a patch sets.
pub record MutatingWebhook : Type 0 where
  pub name : Text
  pub rules : List RuleWithOperations
  pub failure_policy : Option Text
  pub match_policy : Option Text
  pub client_config : ClientConfig
  pub side_effects : Option Text
  pub timeout_seconds : Option ℕ
  pub admission_review_versions : List Text
  pub reinvocation_policy : Option Text
  pub other_fields : Text

-- `admissionregv1.ValidatingWebhook`
pub record ValidatingWebhook : Type 0 where
  pub name : Text
  pub rules : List RuleWithOperations
  pub failure_policy : Option Text
  pub match_policy : Option Text
  pub client_config : ClientConfig
  pub side_effects : Option Text
  pub timeout_seconds : Option ℕ
  pub admission_review_versions : List Text
  pub other_fields : Text

-- What `applyPatch` calls, for one type of webhooks: `json.Marshal`, `StrategicMergePatch` and
-- `json.Unmarshal` into the webhook. `none` is an error.
pub record Patching (W : Type 0) : Type 0 where
  pub marshal : W → Option Text
  pub merge : Text → Text → Option Text
  pub unmarshal : Text → W → Option W

abbrev pub or_error : {A : Type 0} → WebhookError → Option A → Result WebhookError A
or_error e none = err e
or_error e (some a) = ok a

-- `applyPatch`; the first argument is `strings.TrimSpace`.
unfoldable pub apply_patch :
    {W : Type 0} → (Text → Text) → Patching W → W → Text → Result WebhookError W
apply_patch trim_space p w patch = if is_empty (trim_space patch) then ok w else do
  json ← or_error WebhookError.marshal_failed (p.marshal w)
  patched ← or_error WebhookError.merge_failed (p.merge json (trim_space patch))
  or_error WebhookError.unmarshal_failed (p.unmarshal patched w)

-- Everything that the package calls.
pub record Calls : Type 0 where
  pub admission : Admission
  pub trim_space : Text → Text
  pub unsorted_list : List Text → List Text
  pub patch_mutating : Patching MutatingWebhook
  pub patch_validating : Patching ValidatingWebhook

-- `WebhookConfig.ToMutatingWebhookConfiguration`, which sets the name only.
unfoldable pub to_mutating_webhook_configuration : WebhookConfig → Result WebhookError Text
to_mutating_webhook_configuration c = if c.mutating then ok c.name else err (not_mutating c.name)

-- `WebhookConfig.ToValidatingWebhookConfiguration`
unfoldable pub to_validating_webhook_configuration : WebhookConfig → Result WebhookError Text
to_validating_webhook_configuration c =
    if c.mutating then err (not_validating c.name) else ok c.name

-- `Config.ToMutatingWebhook`
unfoldable pub to_mutating_webhook : Calls → Config → Result WebhookError MutatingWebhook
unfolding apply_patch match_policy_of client_config failure_policy_of side_effects_of
    timeout_seconds_of reinvocation_policy_of rules
to_mutating_webhook k c = if not c.mutating then err (not_mutating c.name) else do
  match_policy ← match_policy_of k.admission c
  client ← client_config c
  apply_patch k.trim_space k.patch_mutating
      (record {
        name = c.name;
        rules = rules k.admission c;
        failure_policy = failure_policy_of k.admission c;
        match_policy = match_policy;
        client_config = client;
        side_effects = side_effects_of k.admission c;
        timeout_seconds = timeout_seconds_of c;
        admission_review_versions = c.admission_review_versions;
        reinvocation_policy = reinvocation_policy_of k.admission c;
        other_fields = [];
      })
      c.patch

-- `Config.ToValidatingWebhook`
unfoldable pub to_validating_webhook : Calls → Config → Result WebhookError ValidatingWebhook
unfolding apply_patch match_policy_of client_config failure_policy_of side_effects_of
    timeout_seconds_of rules
to_validating_webhook k c = if c.mutating then err (not_validating c.name) else do
  match_policy ← match_policy_of k.admission c
  client ← client_config c
  apply_patch k.trim_space k.patch_validating
      (record {
        name = c.name;
        rules = rules k.admission c;
        failure_policy = failure_policy_of k.admission c;
        match_policy = match_policy;
        client_config = client;
        side_effects = side_effects_of k.admission c;
        timeout_seconds = timeout_seconds_of c;
        admission_review_versions = c.admission_review_versions;
        other_fields = [];
      })
      c.patch
