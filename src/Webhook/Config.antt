-- ===== src/Webhook/Config.antt =====
-- `Config` of pkg/webhook/parser.go and the methods that read one part of it. The constants of
-- k8s.io/api/admissionregistration/v1 and `strings.ToLower` are a parameter.
pub mod Laws
use controller_tools.Prelude.{
  ℕ, Bool, true, false, ◌&&◌, ◌||◌, not, Option, none, some, List, [], ◌∷◌, if◌then◌else◌, map, any,
  is_empty, ◌==◌, ltb, ◌+◌, ◌%◌,
}
use controller_tools.Prelude.Result.{Result, ok, err}
use controller_tools.Text.{Text, codes, eq_text, mem}

-- The constants of the package admissionregistration/v1, and `strings.ToLower`.
pub record Admission : Type 0 where
  pub to_lower : Text → Text
  pub create : Text
  pub update : Text
  pub delete : Text
  pub connect : Text
  pub operation_all : Text
  pub ignore : Text
  pub fail : Text
  pub exact : Text
  pub equivalent : Text
  pub side_effect_unknown : Text
  pub side_effect_none : Text
  pub side_effect_some : Text
  pub side_effect_none_on_dry_run : Text
  pub never : Text
  pub if_needed : Text

-- `Config`. `TimeoutSeconds` is an `int` and stands here as its 64 bits.
pub record Config : Type 0 where
  pub mutating : Bool
  pub failure_policy : Text
  pub match_policy : Text
  pub side_effects : Text
  pub timeout_seconds : ℕ
  pub groups : List Text
  pub resources : List Text
  pub verbs : List Text
  pub versions : List Text
  pub name : Text
  pub service_name : Text
  pub service_namespace : Text
  pub path : Text
  pub service_port : Option ℕ
  pub webhook_versions : List Text
  pub admission_review_versions : List Text
  pub reinvocation_policy : Text
  pub url : Text
  pub patch : Text

-- `WebhookConfig`
pub record WebhookConfig : Type 0 where
  pub mutating : Bool
  pub name : Text

-- `admissionregv1.RuleWithOperations`, as far as the code sets it.
pub record RuleWithOperations : Type 0 where
  pub api_groups : List Text
  pub api_versions : List Text
  pub resources : List Text
  pub operations : List Text

-- `admissionregv1.ServiceReference`
pub record ServiceReference : Type 0 where
  pub name : Text
  pub namespace : Text
  pub path : Option Text
  pub port : Option ℕ

-- `admissionregv1.WebhookClientConfig`, without the bundle that the code never sets.
pub record ClientConfig : Type 0 where
  pub service : Option ServiceReference
  pub url : Option Text

-- The errors of the package.
pub data WebhookError : Type 0 where
  not_mutating not_validating unknown_match_policy unsupported_version : Text → WebhookError
  path_or_url no_side_effects bad_side_effects bad_timeout no_review_versions : WebhookError
  duplicate_mutating duplicate_validating : Text → WebhookError
  marshal_failed merge_failed unmarshal_failed : WebhookError

abbrev pub v1 : Text
v1 = codes "v1"

abbrev pub default_webhook_version : Text
default_webhook_version = v1

abbrev pub default_service_name : Text
default_service_name = codes "webhook-service"

abbrev pub default_service_namespace : Text
default_service_namespace = codes "system"

abbrev pub supported_webhook_versions : List Text
supported_webhook_versions = default_webhook_version ∷ []

-- `switch strings.ToLower(raw)` with a case `strings.ToLower(c)` for each `c` of a list: the first
-- `c` whose case is taken.
unfoldable pub switch_lower : (Text → Text) → Text → List Text → Option Text
unfolding eq_text
switch_lower lower raw [] = none
switch_lower lower raw (c ∷ cs) =
    if eq_text (lower raw) (lower c) then some c else switch_lower lower raw cs

abbrev pub some_or : {A : Type 0} → A → Option A → A
some_or default none = default
some_or default (some a) = a

-- `verbToAPIVariant`
unfoldable pub verb_to_api_variant : Admission → Text → Text
unfolding switch_lower
verb_to_api_variant k verb = some_or verb (
    switch_lower k.to_lower verb
      (k.create ∷ k.update ∷ k.delete ∷ k.connect ∷ k.operation_all ∷ []))

-- `"core"` is the group `""`.
unfoldable pub fix_group : Text → Text
unfolding eq_text
fix_group g = if eq_text g (codes "core") then [] else g

-- `Config.rules`. The groups are fixed in place, so the config has the fixed ones from then on.
unfoldable pub rules : Admission → Config → List RuleWithOperations
unfolding verb_to_api_variant fix_group
rules k c =
    record {
      api_groups = map fix_group c.groups;
      api_versions = c.versions;
      resources = c.resources;
      operations = map (verb_to_api_variant k) c.verbs;
    }
    ∷ []

-- `Config.failurePolicy`
unfoldable pub failure_policy_of : Admission → Config → Option Text
unfolding switch_lower
failure_policy_of k c =
    some
      (some_or c.failure_policy (switch_lower k.to_lower c.failure_policy (k.ignore ∷ k.fail ∷ [])))

-- `Config.matchPolicy`: the error has the unknown value.
unfoldable pub match_policy_of : Admission → Config → Result WebhookError (Option Text)
unfolding switch_lower eq_text
match_policy_of k c = elim (switch_lower k.to_lower c.match_policy (k.exact ∷ k.equivalent ∷ [])) [
  | some p ↦ ok (some p)
  | none ↦
      if eq_text (k.to_lower c.match_policy) []
      then ok none
      else err (unknown_match_policy c.match_policy)
]

-- `if s != "" { s } else { default }`
abbrev pub text_or : Text → Text → Text
text_or default s = if is_empty s then default else s

-- The service that `Config.clientConfig` makes.
abbrev pub service_of : Config → ServiceReference
service_of c = record {
  name = text_or default_service_name c.service_name;
  namespace = text_or default_service_namespace c.service_namespace;
  path = some c.path;
  port = c.service_port;
}

-- `Config.clientConfig`
unfoldable pub client_config : Config → Result WebhookError ClientConfig
client_config c =
    if (not (is_empty c.path) && not (is_empty c.url)) || (is_empty c.path && is_empty c.url)
    then err path_or_url
    else if not (is_empty c.path)
    then ok (record { service = some (service_of c); url = none })
    else ok (record { service = none; url = some c.url })

-- `Config.sideEffects`
unfoldable pub side_effects_of : Admission → Config → Option Text
unfolding switch_lower
side_effects_of k c =
    switch_lower k.to_lower c.side_effects
      (k.side_effect_none ∷ k.side_effect_none_on_dry_run ∷ k.side_effect_some ∷ [])

-- `int32(x)` keeps the low 32 bits.
abbrev pub to_int32 : ℕ → ℕ
to_int32 x = x % 4294967296

-- `Config.timeoutSeconds`
unfoldable pub timeout_seconds_of : Config → Option ℕ
timeout_seconds_of c =
    if not (c.timeout_seconds == 0) then some (to_int32 c.timeout_seconds) else none

-- `Config.reinvocationPolicy`
unfoldable pub reinvocation_policy_of : Admission → Config → Option Text
unfolding switch_lower
reinvocation_policy_of k c =
    switch_lower k.to_lower c.reinvocation_policy (k.never ∷ k.if_needed ∷ [])

-- The loop of `Config.webhookVersions`
unfoldable pub check_review_versions : List Text → Result WebhookError Unit
unfolding mem
check_review_versions [] = ok tt
check_review_versions (v ∷ vs) =
    let rest = check_review_versions vs in
    if not (mem v supported_webhook_versions) then err (unsupported_version v) else rest

-- `Config.webhookVersions`. The set's `UnsortedList` is a parameter.
unfoldable pub webhook_versions_of :
    (List Text → List Text) → Config → Result WebhookError (List Text)
unfolding check_review_versions
webhook_versions_of unsorted_list c =
    if is_empty c.webhook_versions
    then ok (default_webhook_version ∷ [])
    else (elim (check_review_versions c.webhook_versions) [
      | ok u ↦ ok (unsorted_list c.webhook_versions)
      | err e ↦ err e
    ])

-- `x < y` on `int32`, given by their bits.
unfoldable pub less_int32 : ℕ → ℕ → Bool
less_int32 x y = ltb ((x + 2147483648) % 4294967296) ((y + 2147483648) % 4294967296)

-- `checkSideEffectsForV1`
unfoldable pub check_side_effects_for_v1 : Admission → Option Text → Result WebhookError Unit
unfolding eq_text
check_side_effects_for_v1 k none = err no_side_effects
check_side_effects_for_v1 k (some s) =
    if eq_text s k.side_effect_unknown || eq_text s k.side_effect_some
    then err bad_side_effects
    else ok tt

-- `checkTimeoutSeconds`
unfoldable pub check_timeout_seconds : Option ℕ → Result WebhookError Unit
unfolding less_int32
check_timeout_seconds none = ok tt
check_timeout_seconds (some t) =
    if less_int32 t 1 || less_int32 30 t then err bad_timeout else ok tt
