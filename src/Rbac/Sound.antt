-- ===== src/Rbac/Sound.antt =====
-- `NormalizeRules` as a whole: what its policy rules grant against what the markers' rules grant.
use mathlib.Core.List.{List}
use controller_tools.Prelude.{
  ℕ, ◌≡◌, refl, sym, ap, fun_ext, ◌∙◌, Bool, true, ◌||◌, inl, inr, [], ◌∷◌, foldl, arith, any,
  any-perm, any-map, All, Option-cases,
}
use controller_tools.Prelude.Sort.{any-sort_by}
use controller_tools.Prelude.Assoc.{
  lookup, any_value, any-put_new, any-put_old, All-put, All-lookup,
}
use controller_tools.Text.{Text, mem}
use controller_tools.Rbac.Rule.{
  Rule, RuleKey, key, eq_rule_key, normalize, add_verbs, to_rule,
  key_with_group_resource_names_urls_verbs, key_with_resources_resource_names_urls_verbs,
  key_with_group_resources_resource_names_verbs,
}
use controller_tools.Text.Members.{any_of_mem}
use controller_tools.Rbac.Normalize.{
  RuleMap, RangeOrder, fix_core, add_rule, merged_rules, merge_by, append_resources, append_groups,
  append_urls, asterisk, star_verbs, dedup_rules, merge_resources, merge_groups, policy_rules,
  normalize_rules,
}
use controller_tools.Rbac.Permissions.{
  Authorizer, Request, on_resource, on_url, allows, grants, IsWellFormed,
}
use controller_tools.Rbac.Merge.{
  IsMerge, grants-normalize, normalize-IsWellFormed, add_verbs-IsMerge, append_resources-IsMerge,
  append_groups-IsMerge, append_urls-IsMerge,
}
use controller_tools.Rbac.Stage.{
  IsRangeOrder, IsKeyed, eq_rule_key-eq, put_rules_sound, put_rules-IsKeyed, put_rules_exact,
  NoOverwrite,
}
use controller_tools.Rbac.Bucket.{merged_rules-AllWellFormed, any-merged_rules}

-- The rules of the markers, with "core" read as the empty group, are well formed.
abbrev pub AllFixed : List Rule → Type 0
AllFixed = All (λ r. IsWellFormed (fix_core r))

star_matches :
    (a : Authorizer) (verbs : List Text) (verb : Text)
    → mem asterisk verbs ≡ true
    → any (λ e. a.verb_matches e verb) verbs ≡ true
star_matches a verbs verb h =
    any_of_mem (λ e. a.verb_matches e verb) asterisk verbs h (a.all_verbs verb)

-- A rule with the verb "*" needs no other.
allows-star_verbs :
    (a : Authorizer) (q : Request) (r : Rule) → allows a q (to_rule (star_verbs r)) ≡ grants a q r
unfolding star_verbs to_rule
allows-star_verbs a (on_resource group resource name verb) r =
    ground (arith, star_matches a r.verbs verb, a.all_verbs verb)
allows-star_verbs a (on_url url verb) r =
    ground (arith, star_matches a r.verbs verb, a.all_verbs verb)

-- The maps between the loops of `NormalizeRules`.
module _ (order : RangeOrder) (rules : List Rule) where
  abbrev deduped : RuleMap
  deduped = dedup_rules order rules

  abbrev by_resources : RuleMap
  by_resources = merge_resources order deduped

  abbrev by_groups : RuleMap
  by_groups = merge_groups order by_resources

  -- In none of the three merges do two merged rules end at one key.
  pub record IsLossless : Type 0 where
    pub resources :
        NoOverwrite order []
          (merged_rules order 0 key_with_group_resource_names_urls_verbs append_resources deduped)
    pub groups : NoOverwrite order [] (
        merged_rules order 1 key_with_resources_resource_names_urls_verbs append_groups
          by_resources)
    pub urls :
        NoOverwrite order []
          (merged_rules order 2 key_with_group_resources_resource_names_verbs append_urls by_groups)

module _ (a : Authorizer) (q : Request) (order : RangeOrder) (ok : IsRangeOrder order) where
  add_rule_lem :
      (m : RuleMap) (r : Rule)
      → IsWellFormed (fix_core r)
      → IsKeyed m
      → (any_value (grants a q) (add_rule order m r)
          ≡ (any_value (grants a q) m || grants a q (fix_core r)))
        × IsKeyed (add_rule order m r)
  unfolding add_rule
  add_rule_lem m r w k =
      let n = normalize order.names (fix_core r) in
      let wn : IsWellFormed n = normalize-IsWellFormed ok.names w in
      let same = grants-normalize ok.names a q (fix_core r) in
      let sound = λ (j : RuleKey) (e : eq_rule_key (key n) j ≡ true). eq_rule_key-eq (key n) j e in
      let I = λ (j : RuleKey) (s : Rule). IsWellFormed s × (key s ≡ j) in
      elim (Option-cases (lookup eq_rule_key (key n) m)) [
        | inl e ↦
            rw (e, add_rule)
              (
                any-put_new eq_rule_key (grants a q) (key n) n m e ∙ ground (arith, same),
                All-put eq_rule_key I (key n) n m sound (wn, refl) k,
              )
        | inr (first, e) ↦
            let (wf, kf) = All-lookup eq_rule_key I (key n) first m sound k e in
            let law = add_verbs-IsMerge ok.names in
            let both = add_verbs order.names first n.verbs in
            rw (e, add_rule)
              (
                any-put_old eq_rule_key (grants a q) (key n) both first (grants a q (fix_core r)) m
                    (ground (arith, law.granted a q first n wf wn kf, same)) e,
                All-put eq_rule_key I (key n) both m sound
                    (law.kept first n wf wn kf, law.keyed first n ∙ kf) k,
              )
      ]

  dedup_loop :
      (rs : List Rule) (m : RuleMap)
      → AllFixed rs
      → IsKeyed m
      → (any_value (grants a q) (foldl (add_rule order) m rs)
          ≡ (any_value (grants a q) m || any (λ r. grants a q (fix_core r)) rs))
        × IsKeyed (foldl (add_rule order) m rs)
  dedup_loop [] m w k = (ground arith, k)
  dedup_loop (r ∷ rs) m w k =
      let (e, k') = add_rule_lem m r w.0 k in
      let (f, k'') = dedup_loop rs (add_rule order m r) w.1 k' in (ground (arith, e, f), k'')

  module _ {key_of : Rule → Text} {merge : Rule → Rule → Rule} (law : IsMerge key_of merge) where
    merge_by_sound :
        (i : ℕ) (m : RuleMap)
        → IsKeyed m
        → any_value (grants a q) (merge_by order i key_of merge m) ≡ true
        → any_value (grants a q) m ≡ true
    unfolding merge_by
    merge_by_sound i m k h =
        sym (any-merged_rules a q order ok law i m k)
        ∙ put_rules_sound a q order ok (merged_rules order i key_of merge m) [] h

    merge_by-IsKeyed : (i : ℕ) (m : RuleMap) → IsKeyed m → IsKeyed (merge_by order i key_of merge m)
    unfolding merge_by
    merge_by-IsKeyed i m k =
        put_rules-IsKeyed a q order ok (merged_rules order i key_of merge m) []
          (merged_rules-AllWellFormed a q order ok law i m k) tt

    merge_by_exact :
        (i : ℕ) (m : RuleMap)
        → IsKeyed m
        → NoOverwrite order [] (merged_rules order i key_of merge m)
        → any_value (grants a q) (merge_by order i key_of merge m) ≡ any_value (grants a q) m
    unfolding merge_by
    merge_by_exact i m k f =
        put_rules_exact a q order ok (merged_rules order i key_of merge m) [] f
        ∙ any-merged_rules a q order ok law i m k

  any-policy_rules :
      (m : RuleMap) → any (allows a q) (policy_rules order m) ≡ any_value (grants a q) m
  unfolding policy_rules
  any-policy_rules m =
      any-map (allows a q) (λ e. to_rule (star_verbs e.1)) _
      ∙ any-sort_by _ (λ e. allows a q (to_rule (star_verbs e.1))) (order.entries m)
      ∙ any-perm (λ e. allows a q (to_rule (star_verbs e.1))) (ok.entries m)
      ∙ ap (λ (p : Rule → Bool). any_value p m) (fun_ext (allows-star_verbs a q))

  module _ (rules : List Rule) (w : AllFixed rules) where
    deduped_lem :
        (any_value (grants a q) (deduped order rules) ≡ any (λ r. grants a q (fix_core r)) rules)
        × IsKeyed (deduped order rules)
    unfolding dedup_rules
    deduped_lem = dedup_loop rules [] w tt

    by_resources-IsKeyed : IsKeyed (by_resources order rules)
    unfolding merge_resources
    by_resources-IsKeyed = merge_by-IsKeyed append_resources-IsMerge 0 _ deduped_lem.1

    by_groups-IsKeyed : IsKeyed (by_groups order rules)
    unfolding merge_groups
    by_groups-IsKeyed = merge_by-IsKeyed append_groups-IsMerge 1 _ by_resources-IsKeyed

    -- For well-formed rules, whatever the orders of the loops over maps: a request that some policy rule
    -- of `NormalizeRules` allows is one that some rule grants.
    pub normalize_rules_sound :
        any (allows a q) (normalize_rules order rules) ≡ true
        → any (λ r. grants a q (fix_core r)) rules ≡ true
    unfolding normalize_rules
    normalize_rules_sound h =
        sym deduped_lem.0
        ∙ merge_by_sound append_resources-IsMerge 0 _ deduped_lem.1 (
            merge_by_sound append_groups-IsMerge 1 _ by_resources-IsKeyed (
              merge_by_sound append_urls-IsMerge 2 _ by_groups-IsKeyed
                (sym (any-policy_rules _) ∙ h)))

    -- For well-formed rules, if no merge stores two rules at one key, the policy rules of
    -- `NormalizeRules` allow exactly the requests that the rules grant.
    pub normalize_rules_exact :
        IsLossless order rules
        → any (allows a q) (normalize_rules order rules) ≡ any (λ r. grants a q (fix_core r)) rules
    unfolding normalize_rules
    normalize_rules_exact l =
        any-policy_rules _
        ∙ merge_by_exact append_urls-IsMerge 2 _ by_groups-IsKeyed l.urls
        ∙ merge_by_exact append_groups-IsMerge 1 _ by_resources-IsKeyed l.groups
        ∙ merge_by_exact append_resources-IsMerge 0 _ deduped_lem.1 l.resources
        ∙ deduped_lem.0
