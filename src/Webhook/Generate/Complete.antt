-- ===== src/Webhook/Generate/Complete.antt =====
-- The objects that `Generate` puts out have the converted webhooks of all roots, and no others.
use mathlib.Core.List.{Perm}
use controller_tools.Prelude.{
  ◌≡◌, refl, sym, ap, ◌∙◌, Bool, true, false, not, ◌&&◌, ◌||◌, List, [], ◌∷◌, ◌++◌, is_empty,
  is_empty-eq, any, any-append, any-perm, arith, Bool-cases, then_branch, else_branch, Option-cases,
  inl, inr, subst,
}
use controller_tools.Prelude.Assoc.{lookup, lookup-put}
use controller_tools.Prelude.Sort.{sort_by, any-sort_by}
use controller_tools.Prelude.Result.{
  Result, ok, err, err_not_ok, Result-cases, ok_injective, >>=-eq-ok,
}
use controller_tools.Text.{Text, eq_text, eq_text_iff, mem}
use controller_tools.Text.Members.{any_of_same_items}
use controller_tools.Webhook.Config.{
  Config, WebhookConfig, WebhookError, check_review_versions, webhook_versions_of, v1,
}
use controller_tools.Webhook.Convert.{
  MutatingWebhook, ValidatingWebhook, Calls, to_mutating_webhook, to_validating_webhook,
  to_mutating_webhook_configuration, to_validating_webhook_configuration,
}
use controller_tools.Webhook.Generate.{
  GenState, Root, Object, mutating_configuration, validating_configuration, SortFuncs, Versioned,
  list_or_empty, append_version, append_versions, webhook_config_loop, add_mutating, add_validating,
  add_config, add_configs, add_roots, less_name, check_mutating, check_validating, mutating_objects,
  validating_objects, version_objects, generate, new_state,
}

-- Whether the list of a version has a webhook that passes the test.
abbrev contents : {W : Type 0} → (W → Bool) → Versioned W → Bool
contents p m = any p (list_or_empty (lookup eq_text v1 m))

contents-append_version :
    {W : Type 0} (p : W → Bool) (w : W) (m : Versioned W)
    → contents p (append_version w v1 m) ≡ (contents p m || p w)
unfolding append_version
contents-append_version p w m =
    rw (lookup-put eq_text v1 v1 (list_or_empty (lookup eq_text v1 m) ++ w ∷ []) m eq_text_iff)
      (ground (arith, any-append p (list_or_empty (lookup eq_text v1 m)) (w ∷ [])))

abbrev only_v1 : List Text → Bool
only_v1 vs = not (any (λ v. not (eq_text v v1)) vs)

contents-append_versions :
    {W : Type 0} (p : W → Bool) (w : W) (vs : List Text) (m : Versioned W)
    → only_v1 vs ≡ true
    → contents p (append_versions w vs m) ≡ (contents p m || (not (is_empty vs) && p w))
unfolding append_versions
contents-append_versions p w [] m h = ground arith
contents-append_versions p w (v ∷ vs) m h =
    let eq : v ≡ v1 = (eq_text_iff v v1).0 (ground arith) in
    let here = contents-append_version p w m in
    let there = contents-append_versions p w vs (append_version w v1 m) (ground arith) in
    rw eq (there ∙ rw here (ground arith))

check_review_versions-only_v1 :
    (vs : List Text) → check_review_versions vs ≡ ok tt → only_v1 vs ≡ true
unfolding check_review_versions mem
check_review_versions-only_v1 [] h = refl
check_review_versions-only_v1 (v ∷ vs) h = elim (Bool-cases (eq_text v v1)) [
  | inl e ↦ rw e (check_review_versions-only_v1 vs (rw e at h))
  | inr e ↦ absurd (err_not_ok (rw e at h))
]

-- A set's list has the set's members.
abbrev pub IsUnsortedList : (List Text → List Text) → Type 0
IsUnsortedList f = (vs : List Text) (v : Text) → mem v (f vs) ≡ mem v vs

abbrev pub IsSorting : SortFuncs → Type 0
IsSorting f =
    ((ws : List MutatingWebhook) → Perm (f.sort_mutating ws) ws)
    × ((ws : List ValidatingWebhook) → Perm (f.sort_validating ws) ws)

full-any : (vs : List Text) → any (λ v. true) vs ≡ not (is_empty vs)
full-any [] = refl
full-any (v ∷ vs) = refl

webhook_versions_of_lem :
    (f : List Text → List Text) (c : Config) (vs : List Text)
    → IsUnsortedList f
    → webhook_versions_of f c ≡ ok vs
    → (only_v1 vs ≡ true) × (is_empty vs ≡ false)
unfolding webhook_versions_of
webhook_versions_of_lem f c vs members h = elim (Bool-cases (is_empty c.webhook_versions)) [
  | inl e ↦
      subst (λ x. (only_v1 x ≡ true) × (is_empty x ≡ false)) (ok_injective (rw e at h)) (refl, refl)
  | inr e ↦ elim (Result-cases (check_review_versions c.webhook_versions)) [
    | inl (u, g) ↦
        let eq : f c.webhook_versions ≡ vs = ok_injective (rw (e, g) at h) in
        let same : (p : Text → Bool) → any p (f c.webhook_versions) ≡ any p c.webhook_versions =
          λ p.
            any_of_same_items p (f c.webhook_versions) c.webhook_versions
              (members c.webhook_versions) in
        subst (λ x. (only_v1 x ≡ true) × (is_empty x ≡ false)) eq
          (
            ap not (same (λ v. not (eq_text v v1)))
                ∙ check_review_versions-only_v1 c.webhook_versions g,
            ground (
              arith,
              same (λ v. true),
              full-any (f c.webhook_versions),
              full-any c.webhook_versions,
            ),
          )
    | inr (x, g) ↦ absurd (err_not_ok (rw (e, g) at h))
  ]
]

webhook_config_loop-cfgs :
    (v m : Bool) (cs : List WebhookConfig) (s t : GenState)
    → webhook_config_loop v m cs s ≡ ok t
    → t.mutating_cfgs ≡ s.mutating_cfgs
unfolding webhook_config_loop
webhook_config_loop-cfgs v m [] s t h = ap (λ x. x.mutating_cfgs) (sym (ok_injective h))
webhook_config_loop-cfgs v m (c ∷ cs) s t h = elim (Bool-cases c.mutating) [
  | inl e ↦ elim (Bool-cases m) [
    | inl b ↦ absurd (err_not_ok (rw (e, b) at h))
    | inr b ↦
        let (n, g, i) =
          >>=-eq-ok (to_mutating_webhook_configuration c) _ (else_branch _ b (then_branch _ e h)) in
        webhook_config_loop-cfgs v true cs _ t i
  ]
  | inr e ↦ elim (Bool-cases v) [
    | inl b ↦ absurd (err_not_ok (rw (e, b) at h))
    | inr b ↦
        let (n, g, i) =
          >>=-eq-ok (to_validating_webhook_configuration c) _
            (else_branch _ b (else_branch _ e h)) in
        webhook_config_loop-cfgs true m cs _ t i
  ]
]

-- The test of what a config is converted to.
abbrev pub passes : {W : Type 0} → (W → Bool) → Result WebhookError W → Bool
passes p (ok w) = p w
passes p (err e) = false

abbrev pub converted : Calls → (MutatingWebhook → Bool) → Config → Bool
converted k p c = c.mutating && passes p (to_mutating_webhook k c)

abbrev pub in_object : (MutatingWebhook → Bool) → Object → Bool
in_object p (mutating_configuration name version ws) = any p ws
in_object p (validating_configuration name version ws) = false

module _ (k : Calls) (members : IsUnsortedList k.unsorted_list) (p : MutatingWebhook → Bool) where
  add_config-contents :
      (c : Config) (s t : GenState)
      → add_config k c s ≡ ok t
      → contents p t.mutating_cfgs ≡ (contents p s.mutating_cfgs || converted k p c)
  unfolding add_config add_mutating add_validating
  add_config-contents c s t h =
      let (vs, e, f) = >>=-eq-ok (webhook_versions_of k.unsorted_list c) _ h in
      let (only, full) = webhook_versions_of_lem k.unsorted_list c vs members e in
      elim (Bool-cases c.mutating) [
        | inl m ↦
            let (w, g, i) = >>=-eq-ok (to_mutating_webhook k c) _ (then_branch _ m f) in
            rw (g, m)
              (subst (λ x. contents p x.mutating_cfgs ≡ (contents p s.mutating_cfgs || p w))
                (ok_injective i)
                (contents-append_versions p w vs s.mutating_cfgs only ∙ rw full refl))
        | inr m ↦
            let (w, g, i) = >>=-eq-ok (to_validating_webhook k c) _ (else_branch _ m f) in
            rw m (
              subst (λ x. contents p x.mutating_cfgs ≡ (contents p s.mutating_cfgs || false))
                (ok_injective i) (ground arith))
      ]

  add_configs-contents :
      (cs : List Config) (s t : GenState)
      → add_configs k cs s ≡ ok t
      → contents p t.mutating_cfgs ≡ (contents p s.mutating_cfgs || any (converted k p) cs)
  unfolding add_configs
  add_configs-contents [] s t h =
      subst (λ x. contents p x.mutating_cfgs ≡ (contents p s.mutating_cfgs || false))
        (ok_injective h) (ground arith)
  add_configs-contents (c ∷ cs) s t h =
      let (u, e, f) = >>=-eq-ok (add_config k c s) _ h in
      add_configs-contents cs u t f ∙ rw (add_config-contents c s u e) (ground arith)

  add_roots-contents :
      (rs : List Root) (s t : GenState)
      → add_roots k rs s ≡ ok t
      → contents p t.mutating_cfgs
        ≡ (contents p s.mutating_cfgs || any (λ r. any (converted k p) r.configs) rs)
  unfolding add_roots
  add_roots-contents [] s t h =
      subst (λ x. contents p x.mutating_cfgs ≡ (contents p s.mutating_cfgs || false))
        (ok_injective h) (ground arith)
  add_roots-contents (r ∷ rs) s t h =
      let (u, e, f) = >>=-eq-ok (webhook_config_loop false false r.webhook_configs s) _ h in
      let (v, g, i) = >>=-eq-ok (add_configs k (sort_by less_name r.configs) u) _ f in
      add_roots-contents rs v t i
      ∙ rw
          (
            add_configs-contents (sort_by less_name r.configs) u v g,
            any-sort_by less_name (converted k p) r.configs,
            webhook_config_loop-cfgs false false r.webhook_configs s u e,
          )
          (ground arith)

mutating_objects-contents :
    (k : Calls) (f : SortFuncs) (s : GenState) (os : List Object) (p : MutatingWebhook → Bool)
    → IsSorting f
    → mutating_objects k.admission f s v1 ≡ ok os
    → any (in_object p) os ≡ contents p s.mutating_cfgs
unfolding mutating_objects
mutating_objects-contents k f s os p sorting h =
    elim (Option-cases (lookup eq_text v1 s.mutating_cfgs)) [
      | inl e ↦ rw e (
          subst (λ x. any (in_object p) x ≡ false) (ok_injective (rw (e, mutating_objects) at h))
            refl)
      | inr (ws, e) ↦
          let (u, g, i) =
            >>=-eq-ok (check_mutating k.admission (f.sort_mutating ws)) _
              (rw (e, mutating_objects) at h) in
          rw e (
            subst (λ x. any (in_object p) x ≡ any p ws) (ok_injective i)
              (ground (arith, any-perm p (sorting.0 ws))))
    ]

validating_objects-contents :
    (k : Calls) (f : SortFuncs) (s : GenState) (os : List Object) (p : MutatingWebhook → Bool)
    → validating_objects k.admission f s v1 ≡ ok os
    → any (in_object p) os ≡ false
unfolding validating_objects
validating_objects-contents k f s os p h =
    elim (Option-cases (lookup eq_text v1 s.validating_cfgs)) [
      | inl e ↦
          subst (λ x. any (in_object p) x ≡ false) (ok_injective (rw (e, validating_objects) at h))
            refl
      | inr (ws, e) ↦
          let (u, g, i) =
            >>=-eq-ok (check_validating k.admission (f.sort_validating ws)) _
              (rw (e, validating_objects) at h) in
          subst (λ x. any (in_object p) x ≡ false) (ok_injective i) refl
    ]

-- If `Generate` succeeds, a webhook is in a mutating object exactly if it is what a config of a
-- root that is marked as mutating is converted to: for every test, some webhook of the first
-- passes it exactly if some of the second does. A set's list is assumed to have the set's members,
-- and a sort to return a permutation.
pub generate_complete :
    (k : Calls) (f : SortFuncs) (roots : List Root) (out : List (Text × List Object))
    (p : MutatingWebhook → Bool)
    → IsUnsortedList k.unsorted_list
    → IsSorting f
    → generate k f roots ≡ ok out
    → any (λ e. any (in_object p) e.1) out
      ≡ any (λ r. any (λ c. c.mutating && passes p (to_mutating_webhook k c)) r.configs) roots
unfolding generate version_objects
generate_complete k f roots out p members sorting h =
    let (s, e, g) = >>=-eq-ok (add_roots k roots new_state) _ h in
    let (ms, i, h1) = >>=-eq-ok (mutating_objects k.admission f s v1) _ g in
    let (os, j, h2) = >>=-eq-ok (validating_objects k.admission f s v1) _ h1 in
    let all : any (in_object p) (ms ++ os) ≡ any (λ r. any (converted k p) r.configs) roots =
      any-append (in_object p) ms os
      ∙ rw
          (
            mutating_objects-contents k f s ms p sorting i,
            validating_objects-contents k f s os p j,
            add_roots-contents k members p roots new_state s e,
          )
          (ground arith) in
    subst (λ x. any (λ e. any (in_object p) e.1) x ≡ any (λ r. any (converted k p) r.configs) roots)
      (ok_injective h2)
      (elim (Bool-cases (is_empty (ms ++ os))) [
        | inl b ↦ rw b (sym (ap (any (in_object p)) (is_empty-eq (ms ++ os) b)) ∙ all)
        | inr b ↦ rw b (ground (arith, all))
      ])
