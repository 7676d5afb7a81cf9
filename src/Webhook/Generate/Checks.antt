-- ===== src/Webhook/Generate/Checks.antt =====
-- Every webhook that `Generate` puts out has passed the three checks.
use controller_tools.Prelude.{
  ℕ, ◌≡◌, refl, false, ◌||◌, Option, none, some, List, [], ◌∷◌, ◌++◌, ◌<◌, ◌≤◌, is_empty, All,
  Bool-cases, Option-cases, inl, inr, subst, All-append,
}
use controller_tools.Prelude.Assoc.{lookup}
use controller_tools.Prelude.Result.{ok, err_not_ok, ok_injective, >>=-eq-ok}
use controller_tools.Text.{Text, eq_text}
use controller_tools.Webhook.Config.{
  Admission, check_side_effects_for_v1, check_timeout_seconds, less_int32,
  supported_webhook_versions,
}
use controller_tools.Webhook.Config.Laws.{timeout_iff}
use controller_tools.Webhook.Convert.{MutatingWebhook, ValidatingWebhook, Calls}
use controller_tools.Webhook.Generate.{
  GenState, Root, Object, mutating_configuration, validating_configuration, SortFuncs,
  check_webhook, check_mutating, check_validating, mutating_objects, validating_objects,
  version_objects, generate, add_roots, new_state,
}

-- No timeout, or one from 1 to 30 seconds; a timeout is an `int32`.
unfoldable pub IsTimeout : Option ℕ → Type 0
IsTimeout none = Unit
IsTimeout (some t) = t < 4294967296 → (1 ≤ t) × (t ≤ 30)

-- The side effects are given and are neither unknown nor some, and there are review versions.
unfoldable pub IsAcceptable : Admission → Option Text → Option ℕ → List Text → Type 0
unfolding IsTimeout
IsAcceptable k side_effects timeout versions =
    ((s : Text) × (side_effects ≡ some s)
      × ((eq_text s k.side_effect_unknown || eq_text s k.side_effect_some) ≡ false))
    × IsTimeout timeout
    × (is_empty versions ≡ false)

unfoldable pub IsChecked : Admission → Object → Type 0
unfolding IsAcceptable
IsChecked k (mutating_configuration name version ws) =
    All (λ w. IsAcceptable k w.side_effects w.timeout_seconds w.admission_review_versions) ws
IsChecked k (validating_configuration name version ws) =
    All (λ w. IsAcceptable k w.side_effects w.timeout_seconds w.admission_review_versions) ws

checked_side_effects :
    (k : Admission) (o : Option Text)
    → check_side_effects_for_v1 k o ≡ ok tt
    → (s : Text) × (o ≡ some s)
      × ((eq_text s k.side_effect_unknown || eq_text s k.side_effect_some) ≡ false)
unfolding check_side_effects_for_v1
checked_side_effects k none h = absurd (err_not_ok h)
checked_side_effects k (some s) h =
    elim (Bool-cases (eq_text s k.side_effect_unknown || eq_text s k.side_effect_some)) [
      | inl e ↦ absurd (err_not_ok (rw e at h))
      | inr e ↦ (s, refl, e)
    ]

checked-IsTimeout : (o : Option ℕ) → check_timeout_seconds o ≡ ok tt → IsTimeout o
unfolding check_timeout_seconds IsTimeout
checked-IsTimeout none h = tt
checked-IsTimeout (some t) h = elim (Bool-cases (less_int32 t 1 || less_int32 30 t)) [
  | inl e ↦ absurd (err_not_ok (rw e at h))
  | inr e ↦ λ small. (timeout_iff t small).0 e
]

check_webhook_lem :
    (k : Admission) (o : Option Text) (t : Option ℕ) (versions : List Text)
    → check_webhook k o t versions ≡ ok tt
    → IsAcceptable k o t versions
unfolding check_webhook IsAcceptable
check_webhook_lem k o t versions h =
    let (u, e, f) = >>=-eq-ok (check_side_effects_for_v1 k o) _ h in
    let (v, g, i) = >>=-eq-ok (check_timeout_seconds t) _ f in
    elim (Bool-cases (is_empty versions)) [
      | inl b ↦ absurd (err_not_ok (rw b at i))
      | inr b ↦ (checked_side_effects k o e, checked-IsTimeout t g, b)
    ]

check_mutating_lem :
    (k : Admission) (name version : Text) (ws : List MutatingWebhook)
    → check_mutating k ws ≡ ok tt
    → IsChecked k (mutating_configuration name version ws)
unfolding check_mutating IsChecked
check_mutating_lem k name version [] h = tt
check_mutating_lem k name version (w ∷ ws) h =
    let (u, e, f) =
      >>=-eq-ok (check_webhook k w.side_effects w.timeout_seconds w.admission_review_versions) _
        h in
    (
      check_webhook_lem k w.side_effects w.timeout_seconds w.admission_review_versions e,
      check_mutating_lem k name version ws f,
    )

check_validating_lem :
    (k : Admission) (name version : Text) (ws : List ValidatingWebhook)
    → check_validating k ws ≡ ok tt
    → IsChecked k (validating_configuration name version ws)
unfolding check_validating IsChecked
check_validating_lem k name version [] h = tt
check_validating_lem k name version (w ∷ ws) h =
    let (u, e, f) =
      >>=-eq-ok (check_webhook k w.side_effects w.timeout_seconds w.admission_review_versions) _
        h in
    (
      check_webhook_lem k w.side_effects w.timeout_seconds w.admission_review_versions e,
      check_validating_lem k name version ws f,
    )

mutating_objects-IsChecked :
    (k : Admission) (f : SortFuncs) (s : GenState) (v : Text) (os : List Object)
    → mutating_objects k f s v ≡ ok os
    → All (IsChecked k) os
unfolding mutating_objects
mutating_objects-IsChecked k f s v os h = elim (Option-cases (lookup eq_text v s.mutating_cfgs)) [
  | inl e ↦ subst (All (IsChecked k)) (ok_injective (rw (e, mutating_objects) at h)) tt
  | inr (ws, e) ↦
      let (u, g, i) =
        >>=-eq-ok (check_mutating k (f.sort_mutating ws)) _ (rw (e, mutating_objects) at h) in
      subst (All (IsChecked k)) (ok_injective i)
        (check_mutating_lem k _ v (f.sort_mutating ws) g, tt)
]

validating_objects-IsChecked :
    (k : Admission) (f : SortFuncs) (s : GenState) (v : Text) (os : List Object)
    → validating_objects k f s v ≡ ok os
    → All (IsChecked k) os
unfolding validating_objects
validating_objects-IsChecked k f s v os h =
    elim (Option-cases (lookup eq_text v s.validating_cfgs)) [
      | inl e ↦ subst (All (IsChecked k)) (ok_injective (rw (e, validating_objects) at h)) tt
      | inr (ws, e) ↦
          let (u, g, i) =
            >>=-eq-ok (check_validating k (f.sort_validating ws)) _
              (rw (e, validating_objects) at h) in
          subst (All (IsChecked k)) (ok_injective i)
            (check_validating_lem k _ v (f.sort_validating ws) g, tt)
    ]

version_objects-IsChecked :
    (k : Admission) (f : SortFuncs) (s : GenState) (vs : List Text)
    (out : List (Text × List Object))
    → version_objects k f s vs ≡ ok out
    → All (λ e. All (IsChecked k) e.1) out
unfolding version_objects
version_objects-IsChecked k f s [] out h =
    subst (All (λ e. All (IsChecked k) e.1)) (ok_injective h) tt
version_objects-IsChecked k f s (v ∷ vs) out h =
    let (ms, e, h1) = >>=-eq-ok (mutating_objects k f s v) _ h in
    let (os, g, h2) = >>=-eq-ok (validating_objects k f s v) _ h1 in
    let (rest, i, h3) = >>=-eq-ok (version_objects k f s vs) _ h2 in
    let here =
      All-append (IsChecked k) ms os (mutating_objects-IsChecked k f s v ms e)
        (validating_objects-IsChecked k f s v os g) in
    let there = version_objects-IsChecked k f s vs rest i in
    subst (All (λ e. All (IsChecked k) e.1)) (ok_injective h3)
      (elim (Bool-cases (is_empty (ms ++ os))) [ inl b ↦ rw b there | inr b ↦ rw b (here, there) ])

-- If `Generate` succeeds, every webhook of every object has side effects that are neither unknown
-- nor some, at least one review version, and no timeout or one from 1 to 30 seconds (a timeout
-- being an `int32`).
pub generate-IsChecked :
    (k : Calls) (f : SortFuncs) (roots : List Root) (out : List (Text × List Object))
    → generate k f roots ≡ ok out
    → All (λ e. All (IsChecked k.admission) e.1) out
unfolding generate
generate-IsChecked k f roots out h =
    let (s, e, g) = >>=-eq-ok (add_roots k roots new_state) _ h in
    version_objects-IsChecked k.admission f s supported_webhook_versions out g
