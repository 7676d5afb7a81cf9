-- ===== src/Rbac/Merge.antt =====
-- One step of each merge: two rules that agree on the other lists become one that grants what the
-- two grant, and stays well formed.
use controller_tools.Prelude.{
  ◌≡◌, refl, sym, ap, ◌∙◌, Bool, true, not, ◌&&◌, ◌||◌, List, [], ◌∷◌, ◌++◌, arith, any, any-append,
  is_empty,
}
use controller_tools.Text.{Text}
use controller_tools.Rbac.Rule.{
  Rule, to_rule, key, remove_dup_and_sort, normalize, add_verbs,
  key_with_group_resource_names_urls_verbs, key_with_resources_resource_names_urls_verbs,
  key_with_group_resources_resource_names_verbs,
}
use controller_tools.Rbac.Rule.Laws.{IsOrder, any-remove_dup_and_sort}
use controller_tools.Rbac.Normalize.{append_resources, append_groups, append_urls}
use controller_tools.Rbac.Permissions.{
  Authorizer, Request, on_resource, on_url, grants, unclean, bad_name, IsWellFormed,
}
use controller_tools.Rbac.Keys.{
  key-injective, group_key-injective, resources_key-injective, group_resources_key-injective,
}

is_empty-any : (xs : List Text) → is_empty xs ≡ not (any (λ _. true) xs)
is_empty-any [] = refl
is_empty-any (x ∷ xs) = refl

is_empty-append : (xs ys : List Text) → is_empty (xs ++ ys) ≡ (is_empty xs && is_empty ys)
is_empty-append [] ys = refl
is_empty-append (x ∷ xs) ys = refl

module _ {order : List Text → List Text} (ok : IsOrder order) where
  is_empty-dedup : (xs : List Text) → is_empty (remove_dup_and_sort order xs) ≡ is_empty xs
  is_empty-dedup xs = ground (
    arith,
    is_empty-any xs,
    is_empty-any (remove_dup_and_sort order xs),
    any-remove_dup_and_sort (λ _. true) ok xs,
  )

  -- Normalizing a rule changes nothing of what it grants.
  pub grants-normalize :
      (a : Authorizer) (q : Request) (r : Rule) → grants a q (normalize order r) ≡ grants a q r
  unfolding normalize to_rule
  grants-normalize a (on_resource group resource name verb) r = ground (
    arith,
    any-remove_dup_and_sort (λ e. a.group_matches e group) ok r.groups,
    any-remove_dup_and_sort (λ e. a.resource_matches e resource) ok r.resources,
    any-remove_dup_and_sort (λ e. a.name_matches e name) ok r.resource_names,
    any-remove_dup_and_sort (λ e. a.verb_matches e verb) ok r.verbs,
    is_empty-dedup r.resource_names,
  )
  grants-normalize a (on_url url verb) r = ground (
    arith,
    any-remove_dup_and_sort (λ e. a.url_matches e url) ok r.urls,
    any-remove_dup_and_sort (λ e. a.verb_matches e verb) ok r.verbs,
  )

  pub normalize-IsWellFormed : {r : Rule} → IsWellFormed r → IsWellFormed (normalize order r)
  unfolding normalize
  normalize-IsWellFormed {r} w = record {
    groups_clean = any-remove_dup_and_sort unclean ok r.groups ∙ w.groups_clean;
    resources_clean = any-remove_dup_and_sort bad_name ok r.resources ∙ w.resources_clean;
    names_clean = any-remove_dup_and_sort bad_name ok r.resource_names ∙ w.names_clean;
    verbs_clean = any-remove_dup_and_sort bad_name ok r.verbs ∙ w.verbs_clean;
    urls_clean = any-remove_dup_and_sort bad_name ok r.urls ∙ w.urls_clean;
    groups_of_resources =
        is_empty-dedup r.groups ∙ w.groups_of_resources ∙ sym (is_empty-dedup r.resources);
    groups_or_urls =
        is_empty-dedup r.urls ∙ w.groups_or_urls ∙ sym (ap not (is_empty-dedup r.groups));
  }

-- A merge of two rules with one key.
pub record IsMerge {ℓ} {K : Type ℓ} (key_of : Rule → K) (merge : Rule → Rule → Rule) : Type ℓ where
  pub granted :
      (a : Authorizer) (q : Request) (r s : Rule)
      → IsWellFormed r
      → IsWellFormed s
      → key_of r ≡ key_of s
      → grants a q (merge r s) ≡ (grants a q r || grants a q s)
  pub kept :
      (r s : Rule)
      → IsWellFormed r
      → IsWellFormed s
      → key_of r ≡ key_of s
      → IsWellFormed (merge r s)
  pub keyed : (r s : Rule) → key_of (merge r s) ≡ key_of r

-- Verbs of one key.
module _ {order : List Text → List Text} (ok : IsOrder order) where
  any-add_verbs :
      (p : Text → Bool) (r s : Rule)
      → any p (add_verbs order r s.verbs).verbs ≡ (any p r.verbs || any p s.verbs)
  unfolding add_verbs
  any-add_verbs p r s =
      any-remove_dup_and_sort p ok (r.verbs ++ s.verbs) ∙ any-append p r.verbs s.verbs

  add_verbs_granted :
      (a : Authorizer) (q : Request) (r s : Rule)
      → IsWellFormed r
      → IsWellFormed s
      → key r ≡ key s
      → grants a q (add_verbs order r s.verbs) ≡ (grants a q r || grants a q s)
  unfolding to_rule add_verbs
  add_verbs_granted a (on_resource group resource name verb) r s wr ws e =
      let (g, m, n, u) = key-injective wr ws e in
      ground
        (arith, g, m, n, ap (is_empty {A = Text}) n, any-add_verbs (λ e. a.verb_matches e verb) r s)
  add_verbs_granted a (on_url url verb) r s wr ws e =
      let (g, m, n, u) = key-injective wr ws e in
      ground (arith, u, any-add_verbs (λ e. a.verb_matches e verb) r s)

  pub add_verbs-IsMerge : IsMerge key (λ r s. add_verbs order r s.verbs)
  unfolding add_verbs key
  add_verbs-IsMerge = record {
    granted = add_verbs_granted;
    kept = λ r s wr ws e. record {
      groups_clean = wr.groups_clean;
      resources_clean = wr.resources_clean;
      names_clean = wr.names_clean;
      verbs_clean = any-add_verbs bad_name r s ∙ ground arith;
      urls_clean = wr.urls_clean;
      groups_of_resources = wr.groups_of_resources;
      groups_or_urls = wr.groups_or_urls;
    };
    keyed = λ r s. refl;
  }

append_resources_granted :
    (a : Authorizer) (q : Request) (r s : Rule)
    → IsWellFormed r
    → IsWellFormed s
    → key_with_group_resource_names_urls_verbs r ≡ key_with_group_resource_names_urls_verbs s
    → grants a q (append_resources r s) ≡ (grants a q r || grants a q s)
unfolding to_rule append_resources
append_resources_granted a (on_resource group resource name verb) r s wr ws e =
    let (g, n, u, v) = group_key-injective wr ws e in
    ground (
      arith,
      g,
      n,
      ap (is_empty {A = Text}) n,
      v,
      any-append (λ e. a.resource_matches e resource) r.resources s.resources,
    )
append_resources_granted a (on_url url verb) r s wr ws e =
    let (g, n, u, v) = group_key-injective wr ws e in ground (arith, u, v)

pub append_resources-IsMerge : IsMerge key_with_group_resource_names_urls_verbs append_resources
unfolding append_resources key_with_group_resource_names_urls_verbs
append_resources-IsMerge = record {
  granted = append_resources_granted;
  kept = λ r s wr ws e.
      let (g, n, u, v) = group_key-injective wr ws e in
      record {
        groups_clean = wr.groups_clean;
        resources_clean = any-append bad_name r.resources s.resources ∙ ground arith;
        names_clean = wr.names_clean;
        verbs_clean = wr.verbs_clean;
        urls_clean = wr.urls_clean;
        groups_of_resources =
            ground (arith, is_empty-append r.resources s.resources, ap (is_empty {A = Text}) g);
        groups_or_urls = wr.groups_or_urls;
      };
  keyed = λ r s. refl;
}

append_groups_granted :
    (a : Authorizer) (q : Request) (r s : Rule)
    → IsWellFormed r
    → IsWellFormed s
    → key_with_resources_resource_names_urls_verbs r
      ≡ key_with_resources_resource_names_urls_verbs s
    → grants a q (append_groups r s) ≡ (grants a q r || grants a q s)
unfolding to_rule append_groups
append_groups_granted a (on_resource group resource name verb) r s wr ws e =
    let (m, n, u, v) = resources_key-injective wr ws e in
    ground (
      arith,
      m,
      n,
      ap (is_empty {A = Text}) n,
      v,
      any-append (λ e. a.group_matches e group) r.groups s.groups,
    )
append_groups_granted a (on_url url verb) r s wr ws e =
    let (m, n, u, v) = resources_key-injective wr ws e in ground (arith, u, v)

pub append_groups-IsMerge : IsMerge key_with_resources_resource_names_urls_verbs append_groups
unfolding append_groups key_with_resources_resource_names_urls_verbs
append_groups-IsMerge = record {
  granted = append_groups_granted;
  kept = λ r s wr ws e.
      let (m, n, u, v) = resources_key-injective wr ws e in
      record {
        groups_clean = any-append unclean r.groups s.groups ∙ ground arith;
        resources_clean = wr.resources_clean;
        names_clean = wr.names_clean;
        verbs_clean = wr.verbs_clean;
        urls_clean = wr.urls_clean;
        groups_of_resources =
            ground (arith, is_empty-append r.groups s.groups, ap (is_empty {A = Text}) m);
        groups_or_urls =
            ground (arith, is_empty-append r.groups s.groups, ap (is_empty {A = Text}) u);
      };
  keyed = λ r s. refl;
}

append_urls_granted :
    (a : Authorizer) (q : Request) (r s : Rule)
    → IsWellFormed r
    → IsWellFormed s
    → key_with_group_resources_resource_names_verbs r
      ≡ key_with_group_resources_resource_names_verbs s
    → grants a q (append_urls r s) ≡ (grants a q r || grants a q s)
unfolding to_rule append_urls
append_urls_granted a (on_resource group resource name verb) r s wr ws e =
    let (g, m, n, v) = group_resources_key-injective wr ws e in
    ground (arith, g, m, n, ap (is_empty {A = Text}) n, v)
append_urls_granted a (on_url url verb) r s wr ws e =
    let (g, m, n, v) = group_resources_key-injective wr ws e in
    ground (arith, v, any-append (λ e. a.url_matches e url) r.urls s.urls)

pub append_urls-IsMerge : IsMerge key_with_group_resources_resource_names_verbs append_urls
unfolding append_urls key_with_group_resources_resource_names_verbs
append_urls-IsMerge = record {
  granted = append_urls_granted;
  kept = λ r s wr ws e.
      let (g, m, n, v) = group_resources_key-injective wr ws e in
      record {
        groups_clean = wr.groups_clean;
        resources_clean = wr.resources_clean;
        names_clean = wr.names_clean;
        verbs_clean = wr.verbs_clean;
        urls_clean = any-append bad_name r.urls s.urls ∙ ground arith;
        groups_of_resources = wr.groups_of_resources;
        groups_or_urls = ground (arith, is_empty-append r.urls s.urls, ap (is_empty {A = Text}) g);
      };
  keyed = λ r s. refl;
}
