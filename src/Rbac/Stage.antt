-- ===== src/Rbac/Stage.antt =====
-- The second half of one merge of `NormalizeRules`: the merged rules are written to a new map.
use mathlib.Core.Bool.{Bool-set}
use controller_tools.Prelude.{
  ℕ, ◌≡◌, refl, Bool, true, ◌||◌, none, List, [], ◌∷◌, foldl, arith, any, All,
}
use controller_tools.Prelude.Assoc.{lookup, any_value, any-put, any-put_new, All-put}
use controller_tools.Text.{eq_text_iff}
use controller_tools.Rbac.Rule.{Rule, RuleKey, key, eq_rule_key, normalize}
use controller_tools.Rbac.Rule.Laws.{IsOrder}
use controller_tools.Rbac.Normalize.{RuleMap, values, RangeOrder, put_rule}
use controller_tools.Rbac.Permissions.{Authorizer, Request, grants, IsWellFormed}
use controller_tools.Rbac.Merge.{grants-normalize, normalize-IsWellFormed}

-- Every loop over a map meets each entry once.
pub record IsRangeOrder (order : RangeOrder) : Type 0 where
  pub names : IsOrder order.names
  pub rules : (i : ℕ) → IsOrder (order.rules i)
  pub buckets : (i : ℕ) → IsOrder (order.buckets i)
  pub entries : IsOrder order.entries

pub IsWellFormed-prop : (r : Rule) → IsProp (IsWellFormed r)
IsWellFormed-prop r = hlevel Bool-set

pub eq_rule_key-eq : (j k : RuleKey) → eq_rule_key j k ≡ true → j ≡ k
unfolding eq_rule_key
eq_rule_key-eq j k h = ground (
  arith,
  eq_text_iff j.groups k.groups,
  eq_text_iff j.resources k.resources,
  eq_text_iff j.resource_names k.resource_names,
  eq_text_iff j.urls k.urls,
)

-- Every rule of the map is well formed and stands under its key.
abbrev pub IsKeyed : RuleMap → Type 0
IsKeyed = All (λ e. IsWellFormed e.1 × (key e.1 ≡ e.0))

abbrev pub AllWellFormed : List Rule → Type 0
AllWellFormed = All IsWellFormed

pub values-AllWellFormed : (m : RuleMap) → IsKeyed m → AllWellFormed (values m)
values-AllWellFormed [] k = tt
values-AllWellFormed (e ∷ m) k = (k.0.0, values-AllWellFormed m k.1)

module _ (a : Authorizer) (q : Request) (order : RangeOrder) (ok : IsRangeOrder order) where
  abbrev pub granted : Rule → Bool
  granted = grants a q

  put_rule_sound :
      (m : RuleMap) (r : Rule)
      → any_value granted (put_rule order m r) ≡ true
      → (granted r || any_value granted m) ≡ true
  unfolding put_rule
  put_rule_sound m r h = ground (
    arith,
    grants-normalize ok.names a q r,
    any-put eq_rule_key granted (key (normalize order.names r)) (normalize order.names r) m h,
  )

  put_rule-IsKeyed :
      (m : RuleMap) (r : Rule) → IsWellFormed r → IsKeyed m → IsKeyed (put_rule order m r)
  unfolding put_rule
  put_rule-IsKeyed m r w k =
      All-put eq_rule_key (λ j s. IsWellFormed s × (key s ≡ j)) (key (normalize order.names r))
        (normalize order.names r) m (λ j e. eq_rule_key-eq _ _ e)
        (normalize-IsWellFormed ok.names w, refl) k

  pub put_rules_sound :
      (rs : List Rule) (m : RuleMap)
      → any_value granted (foldl (put_rule order) m rs) ≡ true
      → (any_value granted m || any granted rs) ≡ true
  put_rules_sound [] m h = ground arith
  put_rules_sound (r ∷ rs) m h =
      ground (arith, put_rules_sound rs (put_rule order m r) h, put_rule_sound m r)

  pub put_rules-IsKeyed :
      (rs : List Rule) (m : RuleMap)
      → AllWellFormed rs
      → IsKeyed m
      → IsKeyed (foldl (put_rule order) m rs)
  put_rules-IsKeyed [] m w k = k
  put_rules-IsKeyed (r ∷ rs) m w k =
      put_rules-IsKeyed rs (put_rule order m r) w.1 (put_rule-IsKeyed m r w.0 k)

-- No rule is written over another.
abbrev pub NoOverwrite : RangeOrder → RuleMap → List Rule → Type 0
NoOverwrite order m [] = Unit
NoOverwrite order m (r ∷ rs) =
    (lookup eq_rule_key (key (normalize order.names r)) m ≡ none)
    × NoOverwrite order (put_rule order m r) rs

module _ (a : Authorizer) (q : Request) (order : RangeOrder) (ok : IsRangeOrder order) where
  put_rule_exact :
      (m : RuleMap) (r : Rule)
      → lookup eq_rule_key (key (normalize order.names r)) m ≡ none
      → any_value (grants a q) (put_rule order m r) ≡ (any_value (grants a q) m || grants a q r)
  unfolding put_rule
  put_rule_exact m r f = ground (
    arith,
    any-put_new eq_rule_key (grants a q) (key (normalize order.names r)) (normalize order.names r) m
        f,
    grants-normalize ok.names a q r,
  )

  pub put_rules_exact :
      (rs : List Rule) (m : RuleMap)
      → NoOverwrite order m rs
      → any_value (grants a q) (foldl (put_rule order) m rs)
        ≡ (any_value (grants a q) m || any (grants a q) rs)
  put_rules_exact [] m f = ground arith
  put_rules_exact (r ∷ rs) m f =
      ground (arith, put_rules_exact rs (put_rule order m r) f.1, put_rule_exact m r f.0)
