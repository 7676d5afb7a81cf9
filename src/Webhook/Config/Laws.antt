-- ===== src/Webhook/Config/Laws.antt =====
-- The switches of a webhook's `Config`, its groups, its client, and the check of a timeout.
use controller_tools.Prelude.{
  ℕ, ◌≡◌, refl, sym, ap, ◌∙◌, true, false, none, some, List, [], ◌∷◌, is_empty, arith, Bool-cases,
  Option-cases, inl, inr, ◌⊎◌, ◌↔◌, ◌≤◌, ◌<◌, ◌≤◌, ◌+◌, ◌%◌, ◌||◌, ltb, ◌==◌,
}
use mathlib.Core.Option.{some-injective}
use controller_tools.Prelude.Result.{ok, err, err_not_ok}
use controller_tools.Text.{Text, eq_text, eq_text_iff}
use controller_tools.Webhook.Config.{
  Admission, Config, ClientConfig, switch_lower, some_or, verb_to_api_variant, text_or, service_of,
  default_service_name, default_service_namespace, path_or_url, ServiceReference, client_config,
  check_timeout_seconds, to_int32, timeout_seconds_of, less_int32,
}

-- Texts that are lowered to the same text take the same case.
switch_lower_lem :
    (lower : Text → Text) (v w : Text) (cs : List Text)
    → lower v ≡ lower w
    → switch_lower lower v cs ≡ switch_lower lower w cs
unfolding switch_lower
switch_lower_lem lower v w [] h = refl
switch_lower_lem lower v w (c ∷ cs) h = rw (h, switch_lower_lem lower v w cs h) refl

switch_lower-some :
    (lower : Text → Text) (v c : Text) (cs : List Text)
    → switch_lower lower v cs ≡ some c
    → lower v ≡ lower c
unfolding switch_lower
switch_lower-some lower v c [] h = cc
switch_lower-some lower v c (d ∷ cs) h = elim (Bool-cases (eq_text (lower v) (lower d))) [
  | inl e ↦ (eq_text_iff (lower v) (lower d)).0 e ∙ ap lower (some-injective d c (rw e at h))
  | inr e ↦ switch_lower-some lower v c cs (rw e at h)
]

-- A switch with a default gives a value that it keeps.
switch_lower_again :
    (lower : Text → Text) (v : Text) (cs : List Text)
    → some_or
        (some_or v (switch_lower lower v cs))
        (switch_lower lower (some_or v (switch_lower lower v cs)) cs)
      ≡ some_or v (switch_lower lower v cs)
switch_lower_again lower v cs = elim (Option-cases (switch_lower lower v cs)) [
  | inl e ↦ rw (e, e) refl
  | inr (c, e) ↦
      rw (e, sym (switch_lower_lem lower v c cs (switch_lower-some lower v c cs e)), e) refl
]

-- A verb that has been converted stays as it is.
pub verb_to_api_variant_again :
    (k : Admission) (v : Text)
    → verb_to_api_variant k (verb_to_api_variant k v) ≡ verb_to_api_variant k v
unfolding verb_to_api_variant
verb_to_api_variant_again k v =
    switch_lower_again k.to_lower v
      (k.create ∷ k.update ∷ k.delete ∷ k.connect ∷ k.operation_all ∷ [])

-- Two spellings of a verb that differ in case only become one value, unless it is no verb at all and
-- both are passed on.
pub verb_to_api_variant_case :
    (k : Admission) (v w : Text)
    → k.to_lower v ≡ k.to_lower w
    → (verb_to_api_variant k v ≡ verb_to_api_variant k w)
      ⊎ ((verb_to_api_variant k v ≡ v) × (verb_to_api_variant k w ≡ w))
unfolding verb_to_api_variant
verb_to_api_variant_case k v w h =
    let cs = k.create ∷ k.update ∷ k.delete ∷ k.connect ∷ k.operation_all ∷ [] in
    let same = switch_lower_lem k.to_lower v w cs h in
    elim (Option-cases (switch_lower k.to_lower w cs)) [
      | inl e ↦ inr (rw (same, e) refl, rw e refl)
      | inr (c, e) ↦ inl (rw (same, e) refl)
    ]

shift_low : (t : ℕ) → t < 2147483648 → ((t + 2147483648) % 4294967296) ≡ t + 2147483648
shift_low t h = omega arith

shift_high :
    (t : ℕ) → 2147483648 ≤ t → t < 4294967296 → ((t + 2147483648) % 4294967296) < 2147483648
shift_high t h k = omega arith

pub timeout_iff :
    (t : ℕ) → t < 4294967296 → ((less_int32 t 1 || less_int32 30 t) ≡ false) ↔ ((1 ≤ t) × (t ≤ 30))
unfolding less_int32
timeout_iff t h = elim (Bool-cases (ltb t 2147483648)) [
  | inl low ↦ ground (arith, shift_low t)
  | inr high ↦ ground (arith, shift_high t)
]

accepted_not_bad :
    (x : ℕ)
    → (x == 0) ≡ false
    → (less_int32 (to_int32 x) 1 || less_int32 30 (to_int32 x)) ≡ true
    → (x ≡ 0) ⊎ ((1 ≤ to_int32 x) × (to_int32 x ≤ 30))
    → ⊥
accepted_not_bad x n bad (inl z) = ground arith
accepted_not_bad x n bad (inr h) = let good = (timeout_iff (to_int32 x) (omega arith)).1 h in cc

-- `checkTimeoutSeconds` accepts the timeout of a config exactly if the config's seconds are 0,
-- which stands for none, or their low 32 bits, which the conversion to `int32` keeps, are from 1
-- to 30.
pub check_timeout_seconds_iff :
    (c : Config)
    → (check_timeout_seconds (timeout_seconds_of c) ≡ ok tt) ↔ (
        (c.timeout_seconds ≡ 0)
        ⊎ ((1 ≤ to_int32 c.timeout_seconds) × (to_int32 c.timeout_seconds ≤ 30)))
unfolding check_timeout_seconds timeout_seconds_of less_int32
check_timeout_seconds_iff c =
    let t = to_int32 c.timeout_seconds in
    let small : t < 4294967296 = omega arith in
    elim (Bool-cases (c.timeout_seconds == 0)) [
      | inl z ↦ (λ h. inl (ground arith), λ h. rw z refl)
      | inr n ↦ elim (Bool-cases (less_int32 t 1 || less_int32 30 t)) [
        | inl bad ↦ (
          λ h. absurd (err_not_ok (rw (n, bad) at h)),
          λ h. absurd (accepted_not_bad c.timeout_seconds n bad h),
        )
        | inr good ↦ (λ h. inr ((timeout_iff t small).0 good), λ h. rw (n, good) refl)
      ]
    ]

abbrev pub with_groups : Config → List Text → Config
with_groups c gs = record {
  mutating = c.mutating;
  failure_policy = c.failure_policy;
  match_policy = c.match_policy;
  side_effects = c.side_effects;
  timeout_seconds = c.timeout_seconds;
  groups = gs;
  resources = c.resources;
  verbs = c.verbs;
  versions = c.versions;
  name = c.name;
  service_name = c.service_name;
  service_namespace = c.service_namespace;
  path = c.path;
  service_port = c.service_port;
  webhook_versions = c.webhook_versions;
  admission_review_versions = c.admission_review_versions;
  reinvocation_policy = c.reinvocation_policy;
  url = c.url;
  patch = c.patch;
}

text_or_full : (default t : Text) → is_empty default ≡ false → is_empty (text_or default t) ≡ false
text_or_full default [] h = h
text_or_full default (b ∷ t) h = refl

-- A client config has either a service, with a name, a namespace and the marker's path, or the
-- marker's URL, and there is one exactly if the marker has a path or a URL but not both.
client_config_lem :
    (c : Config)
    → ((is_empty c.path ≡ is_empty c.url) × (client_config c ≡ err path_or_url))
      ⊎ ((r : ClientConfig) × (client_config c ≡ ok r)
          × (((is_empty c.path ≡ true) × (r.service ≡ none) × (r.url ≡ some c.url))
              ⊎ ((is_empty c.url ≡ true)
                  × (r.url ≡ none)
                  × ((s : ServiceReference) × (r.service ≡ some s)
                      × (s.path ≡ some c.path)
                      × (is_empty s.name ≡ false)
                      × (is_empty s.namespace ≡ false)))))
unfolding client_config
client_config_lem c = elim (Bool-cases (is_empty c.path)) [
  | inl p ↦ elim (Bool-cases (is_empty c.url)) [
    | inl u ↦ inl (p ∙ sym u, rw (p, u) refl)
    | inr u ↦ inr (_, rw (p, u) refl, inl (p, refl, refl))
  ]
  | inr p ↦ elim (Bool-cases (is_empty c.url)) [
    | inl u ↦ inr (
      record { service = some (service_of c); url = none },
      rw (p, u) refl,
      inr (
        u,
        refl,
        (
          service_of c,
          refl,
          refl,
          text_or_full default_service_name c.service_name refl,
          text_or_full default_service_namespace c.service_namespace refl,
        ),
      ),
    )
    | inr u ↦ inl (p ∙ sym u, rw (p, u) refl)
  ]
]
