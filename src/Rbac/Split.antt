-- ===== src/Rbac/Split.antt =====
-- The split of a marker's rule by resource, and the lists of rules that `GenerateRoles` collects.
use mathlib.Core.List.{List}
use controller_tools.Prelude.{
  ◌≡◌, refl, ap, ◌∙◌, true, false, not, ◌&&◌, ◌↔◌, Option, none, some, inl, inr, [], ◌∷◌, ◌++◌, map,
  foldl, arith, any, All, All-append, Option-cases, Bool-cases, is_empty, is_empty-eq,
}
use controller_tools.Prelude.Assoc.{lookup, All-put, All-lookup}
use controller_tools.Text.{Text, eq_text_iff}
use controller_tools.Rbac.Rule.{Rule, to_rule}
use controller_tools.Rbac.Normalize.{fix_core}
use controller_tools.Rbac.Permissions.{
  Authorizer, Request, on_resource, on_url, grants, one_of, bad_name, IsWellFormed,
}
use controller_tools.Rbac.Stage.{IsWellFormed-prop}
use controller_tools.Rbac.Sound.{AllFixed}
use controller_tools.Rbac.Roles.{
  NsRoleKey, eq_ns_role_key, RulesByNsRole, ns_role_key, effective_role_name, split_rule, add_at,
  add_marker, add_root,
}

abbrev pub markers_of : Option (List Rule) → List Rule
markers_of none = []
markers_of (some rules) = rules

pub eq_ns_role_key_iff : (j k : NsRoleKey) → (eq_ns_role_key j k ≡ true) ↔ (j ≡ k)
unfolding eq_ns_role_key
eq_ns_role_key_iff j k = (
  λ h. ground (arith, eq_text_iff j.namespace k.namespace, eq_text_iff j.role_name k.role_name),
  λ e. ground (arith, eq_text_iff j.namespace k.namespace, eq_text_iff j.role_name k.role_name),
)

-- The rules that a marker is split into grant what it grants.
split_on_resource :
    (a : Authorizer) (g x n v : Text) (rule : Rule) (name : Text) (xs : List Text)
    → any
        (λ r. grants a (on_resource g x n v) (fix_core r))
        (map (λ resource. record rule { resources = resource ∷ []; role_name = name }) xs)
      ≡ grants a (on_resource g x n v) (fix_core (record rule { resources = xs }))
unfolding fix_core to_rule
split_on_resource a g x n v rule name [] = ground arith
split_on_resource a g x n v rule name (y ∷ ys) =
    ground (arith, split_on_resource a g x n v rule name ys)

split_on_url :
    (a : Authorizer) (u v : Text) (rule : Rule) (name : Text) (xs : List Text)
    → any
        (λ r. grants a (on_url u v) (fix_core r))
        (map (λ resource. record rule { resources = resource ∷ []; role_name = name }) xs)
      ≡ (not (is_empty xs) && grants a (on_url u v) (fix_core rule))
unfolding fix_core to_rule
split_on_url a u v rule name [] = refl
split_on_url a u v rule name (y ∷ []) = ground arith
split_on_url a u v rule name (y ∷ z ∷ ys) = ground (arith, split_on_url a u v rule name (z ∷ ys))

-- The rules that a marker is split into, one for each resource or one with none, grant together
-- exactly what the marker grants.
pub split_rule_lem :
    (a : Authorizer) (q : Request) (role_name : Text) (rule : Rule)
    → any (λ r. grants a q (fix_core r)) (split_rule role_name rule) ≡ grants a q (fix_core rule)
unfolding split_rule
split_rule_lem a (on_resource g x n v) role_name rule =
    elim (Bool-cases (is_empty rule.resources)) [
      | inl e ↦ rw e (
          unfold fix_core to_rule in
          ground (arith, ap (λ xs. one_of a.resource_matches xs x) (is_empty-eq rule.resources e)))
      | inr e ↦
          rw e
            (split_on_resource a g x n v rule (effective_role_name role_name rule) rule.resources)
    ]
split_rule_lem a (on_url u v) role_name rule = elim (Bool-cases (is_empty rule.resources)) [
  | inl e ↦ rw e (unfold fix_core to_rule in ground arith)
  | inr e ↦
      rw e (split_on_url a u v rule (effective_role_name role_name rule) rule.resources ∙ rw e refl)
]

-- They are well formed where it is.
split-AllFixed :
    (rule : Rule) (name : Text) (xs : List Text)
    → IsWellFormed (fix_core rule)
    → is_empty (fix_core rule).groups ≡ false
    → any bad_name xs ≡ false
    → AllFixed (map (λ resource. record rule { resources = resource ∷ []; role_name = name }) xs)
unfolding fix_core
split-AllFixed rule name [] w g b = tt
split-AllFixed rule name (x ∷ xs) w g b = (
  record {
    groups_clean = w.groups_clean;
    resources_clean = ground arith;
    names_clean = w.names_clean;
    verbs_clean = w.verbs_clean;
    urls_clean = w.urls_clean;
    groups_of_resources = g;
    groups_or_urls = w.groups_or_urls;
  },
  split-AllFixed rule name xs w g (ground arith),
)

split_rule-AllFixed :
    (role_name : Text) (rule : Rule)
    → IsWellFormed (fix_core rule)
    → AllFixed (split_rule role_name rule)
unfolding split_rule
split_rule-AllFixed role_name rule w = elim (Bool-cases (is_empty rule.resources)) [
  | inl e ↦ rw e (
      unfold fix_core in
      (
        record {
          groups_clean = w.groups_clean;
          resources_clean = refl;
          names_clean = w.names_clean;
          verbs_clean = w.verbs_clean;
          urls_clean = w.urls_clean;
          groups_of_resources = w.groups_of_resources ∙ e;
          groups_or_urls = w.groups_or_urls;
        },
        tt,
      ))
  | inr e ↦ rw e (
      split-AllFixed rule (effective_role_name role_name rule) rule.resources w
        (w.groups_of_resources ∙ unfold fix_core in e) (unfold fix_core in w.resources_clean))
]

-- Every entry's rules are well formed.
abbrev pub AllEntries : RulesByNsRole → Type 0
AllEntries = All (λ e. AllFixed e.1)

add_at-AllEntries :
    (j : NsRoleKey) (m : RulesByNsRole) (r : Rule)
    → IsWellFormed (fix_core r)
    → AllEntries m
    → AllEntries (add_at j m r)
unfolding add_at
add_at-AllEntries j m r w b =
    let sound = λ (i : NsRoleKey) (h : eq_ns_role_key j i ≡ true). (eq_ns_role_key_iff j i).0 h in
    let I = λ (i : NsRoleKey) (rs : List Rule). AllFixed rs in
    elim (Option-cases (lookup eq_ns_role_key j m)) [
      | inl e ↦ rw e (All-put eq_ns_role_key I j (r ∷ []) m sound (w, tt) b)
      | inr (rs, e) ↦ rw e (
          All-put eq_ns_role_key I j (rs ++ r ∷ []) m sound
            (All-append (λ s. IsWellFormed (fix_core s)) rs (r ∷ [])
              (All-lookup eq_ns_role_key I j rs m sound b e) (w, tt))
            b)
    ]

add_all-AllEntries :
    (j : NsRoleKey) (rs : List Rule) (m : RulesByNsRole)
    → AllFixed rs
    → AllEntries m
    → AllEntries (foldl (add_at j) m rs)
add_all-AllEntries j [] m w b = b
add_all-AllEntries j (r ∷ rs) m w b =
    add_all-AllEntries j rs (add_at j m r) w.1 (add_at-AllEntries j m r w.0 b)

markers-AllEntries :
    (role_name : Text) (rs : List Rule) (m : RulesByNsRole)
    → AllFixed rs
    → AllEntries m
    → AllEntries (foldl (add_marker role_name) m rs)
unfolding add_marker
markers-AllEntries role_name [] m w b = b
markers-AllEntries role_name (r ∷ rs) m w b =
    markers-AllEntries role_name rs (add_marker role_name m r) w.1 (
      add_all-AllEntries (ns_role_key role_name r) (split_rule role_name r) m
        (split_rule-AllFixed role_name r w.0) b)

abbrev pub RootsFixed : List (Option (List Rule)) → Type 0
RootsFixed = All (λ root. AllFixed (markers_of root))

pub roots-AllEntries :
    (role_name : Text) (roots : List (Option (List Rule))) (m : RulesByNsRole)
    → RootsFixed roots
    → AllEntries m
    → AllEntries (foldl (add_root role_name) m roots)
unfolding add_root
roots-AllEntries role_name [] m w b = b
roots-AllEntries role_name (none ∷ roots) m w b = roots-AllEntries role_name roots m w.1 b
roots-AllEntries role_name (some rs ∷ roots) m w b =
    roots-AllEntries role_name roots (foldl (add_marker role_name) m rs) w.1
      (markers-AllEntries role_name rs m w.0 b)

pub AllFixed-prop : (rs : List Rule) → IsProp (AllFixed rs)
AllFixed-prop [] = hlevel
AllFixed-prop (r ∷ rs) = hlevel (IsWellFormed-prop, AllFixed-prop rs)
