-- ===== src/Rbac/Distinct.antt =====
-- The objects of `GenerateRoles` come in strictly ascending order of namespace and name.
use mathlib.Core.List.{List, append_assoc, append-nil, map-append}
use mathlib.Core.List.Perm
use controller_tools.Prelude.{
  ◌≡◌, sym, true, false, Option, none, some, [], ◌∷◌, ◌++◌, map, foldl, arith, All, subst,
}
use controller_tools.Prelude.Ascending.{
  IsStrictOrder, IsAscending, IsDistinct, sort_by-IsAscending, IsDistinct-perm, same_sym,
}
use controller_tools.Prelude.Sort.{map-sort_by}
use controller_tools.Prelude.Assoc.{keys_of, put-IsDistinct}
use controller_tools.Text.{Text, eq_text_iff, eq_text_refl}
use controller_tools.Text.Order.{less_text_irrefl, less_text_trans, less_text_total}
use controller_tools.Rbac.Rule.{Rule, PolicyRule}
use controller_tools.Rbac.Normalize.{normalize_rules}
use controller_tools.Rbac.Split.{eq_ns_role_key_iff}
use controller_tools.Rbac.Scope.{IsGenerateOrder, object_key, object_key-make_object}
use controller_tools.Rbac.Roles.{
  NsRoleKey, eq_ns_role_key, less_ns_role_key, RulesByNsRole, ns_role_key, split_rule, add_at,
  add_marker, add_root, rules_by_ns_role, Object, add_object, GenerateOrder, sorted_keys,
  add_objects, generate_roles,
}

less_trans :
    (i j k : NsRoleKey)
    → less_ns_role_key i j ≡ true
    → less_ns_role_key j k ≡ true
    → less_ns_role_key i k ≡ true
unfolding less_ns_role_key
less_trans i j k h g = ground (
  arith,
  less_text_trans i.namespace j.namespace k.namespace,
  less_text_trans i.role_name j.role_name k.role_name,
  eq_text_iff i.namespace j.namespace,
  eq_text_iff j.namespace k.namespace,
  eq_text_iff i.namespace k.namespace,
  less_text_trans i.namespace j.namespace i.namespace,
  less_text_irrefl i.namespace,
)

less_total :
    (i j : NsRoleKey)
    → eq_ns_role_key i j ≡ false
    → less_ns_role_key j i ≡ false
    → less_ns_role_key i j ≡ true
unfolding less_ns_role_key eq_ns_role_key
less_total i j h g = ground (
  arith,
  less_text_total i.namespace j.namespace,
  less_text_total i.role_name j.role_name,
  eq_text_iff i.namespace j.namespace,
  eq_text_iff j.namespace i.namespace,
)

less_irrefl : (i : NsRoleKey) → less_ns_role_key i i ≡ false
unfolding less_ns_role_key
less_irrefl i = ground (arith, eq_text_refl i.namespace, less_text_irrefl i.role_name)

pub ns_role_key_order : IsStrictOrder less_ns_role_key eq_ns_role_key
ns_role_key_order = record {
  same_iff = eq_ns_role_key_iff;
  irrefl = less_irrefl;
  trans = less_trans;
  total = less_total;
}

abbrev DistinctKeys : RulesByNsRole → Type 0
DistinctKeys m = IsDistinct less_ns_role_key eq_ns_role_key (keys_of m)

add_all-DistinctKeys :
    (j : NsRoleKey) (rs : List Rule) (m : RulesByNsRole)
    → DistinctKeys m
    → DistinctKeys (foldl (add_at j) m rs)
unfolding add_at
add_all-DistinctKeys j [] m d = d
add_all-DistinctKeys j (r ∷ rs) m d =
    add_all-DistinctKeys j rs (add_at j m r)
      (put-IsDistinct eq_ns_role_key j _ less_ns_role_key m (same_sym ns_role_key_order) d)

markers-DistinctKeys :
    (role_name : Text) (rs : List Rule) (m : RulesByNsRole)
    → DistinctKeys m
    → DistinctKeys (foldl (add_marker role_name) m rs)
unfolding add_marker
markers-DistinctKeys role_name [] m d = d
markers-DistinctKeys role_name (r ∷ rs) m d =
    markers-DistinctKeys role_name rs (add_marker role_name m r)
      (add_all-DistinctKeys (ns_role_key role_name r) (split_rule role_name r) m d)

roots-DistinctKeys :
    (role_name : Text) (roots : List (Option (List Rule))) (m : RulesByNsRole)
    → DistinctKeys m
    → DistinctKeys (foldl (add_root role_name) m roots)
unfolding add_root
roots-DistinctKeys role_name [] m d = d
roots-DistinctKeys role_name (none ∷ roots) m d = roots-DistinctKeys role_name roots m d
roots-DistinctKeys role_name (some rs ∷ roots) m d =
    roots-DistinctKeys role_name roots (foldl (add_marker role_name) m rs)
      (markers-DistinctKeys role_name rs m d)

abbrev Ascending : List NsRoleKey → Type 0
Ascending = IsAscending less_ns_role_key eq_ns_role_key

All-drop {ℓ κ} :
    {A : Type ℓ} (P : A → Type κ) (xs : List A) (y : A) (ys : List A)
    → All P (xs ++ y ∷ ys)
    → All P (xs ++ ys)
All-drop P [] y ys a = a.1
All-drop P (x ∷ xs) y ys a = (a.0, All-drop P xs y ys a.1)

Ascending-drop :
    (ks : List NsRoleKey) (j : NsRoleKey) (js : List NsRoleKey)
    → Ascending (ks ++ j ∷ js)
    → Ascending (ks ++ js)
Ascending-drop [] j js a = a.1
Ascending-drop (k ∷ ks) j js a = (All-drop _ ks j js a.0, Ascending-drop ks j js a.1)

add_object-Ascending :
    (objs : List Object) (j : NsRoleKey) (ps : List PolicyRule) (js : List NsRoleKey)
    → Ascending (map object_key objs ++ j ∷ js)
    → Ascending (map object_key (add_object objs j ps) ++ js)
unfolding add_object
add_object-Ascending objs j [] js a = Ascending-drop (map object_key objs) j js a
add_object-Ascending objs j (p ∷ ps) js a =
    rw (map-append, append_assoc, object_key-make_object j (p ∷ ps)) a

add_objects-Ascending :
    (order : GenerateOrder) (m : RulesByNsRole) (objs : List Object)
    → Ascending (map object_key objs ++ keys_of m)
    → Ascending (map object_key (add_objects order objs m))
unfolding add_objects
add_objects-Ascending order [] objs a = rw append-nil at a
add_objects-Ascending order ((j, rs) ∷ m) objs a =
    add_objects-Ascending order m (add_object objs j (normalize_rules (order.normalize j) rs))
      (add_object-Ascending objs j (normalize_rules (order.normalize j) rs) (keys_of m) a)

-- Whatever the orders of the loops over maps, the objects of `GenerateRoles` stand in strictly
-- ascending order of namespace and name, so no two have the same namespace and name.
pub generate_roles-IsAscending :
    (order : GenerateOrder) (role_name : Text) (roots : List (Option (List Rule)))
    → IsGenerateOrder order
    → IsAscending less_ns_role_key eq_ns_role_key
        (map object_key (generate_roles order role_name roots))
unfolding generate_roles
generate_roles-IsAscending order role_name roots ok =
    let m = rules_by_ns_role role_name roots in
    let d =
      IsDistinct-perm ns_role_key_order (Perm.map (λ e. e.0) (Perm.symm (ok.keys m)))
        (roots-DistinctKeys role_name roots [] tt) in
    let a = sort_by-IsAscending ns_role_key_order (keys_of (order.keys m)) d in
    add_objects-Ascending order (sorted_keys order m) []
      (subst Ascending (sym (map-sort_by (λ e. e.0) less_ns_role_key (order.keys m))) a)
