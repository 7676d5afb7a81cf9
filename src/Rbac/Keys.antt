-- ===== src/Rbac/Keys.antt =====
-- The keys of well-formed rules determine the lists that they are made of.
use controller_tools.Prelude.{
  ℕ, ◌≡◌, refl, sym, ap, ◌∙◌, Bool, true, false, List, [], ◌∷◌, ◌++◌, arith, ◌==◌, any, any-append,
  is_empty,
}
use controller_tools.Text.{Text, join, has_byte}
use controller_tools.Text.Join.{AllClean, join-injective, split_at_byte}
use controller_tools.Rbac.Rule.{
  Rule, RuleKey, key, sprintf4, amp, key_with_group_resource_names_urls_verbs,
  key_with_resources_resource_names_urls_verbs, key_with_group_resources_resource_names_verbs,
}
use controller_tools.Rbac.Permissions.{unclean, bad_name, IsWellFormed}

abbrev amp_byte : ℕ
amp_byte = b'&'

abbrev space : ℕ
space = b' '

any_weaken {ℓ} :
    {A : Type ℓ} (p q : A → Bool) (xs : List A)
    → ((x : A) → p x ≡ true → q x ≡ true)
    → any q xs ≡ false
    → any p xs ≡ false
any_weaken p q [] h e = refl
any_weaken p q (x ∷ xs) h e = ground (arith, h x, any_weaken p q xs h)

has_byte-join : (xs : List Text) → AllClean space xs → has_byte space (join amp xs) ≡ false
unfolding join
has_byte-join [] h = refl
has_byte-join (x ∷ []) h = ground arith
has_byte-join (x ∷ y ∷ xs) h =
    ground
      (arith, any-append (λ b. b == space) x (amp ++ join amp (y ∷ xs)), has_byte-join (y ∷ xs))

is_empty-join : (xs : List Text) → any bad_name xs ≡ false → is_empty (join amp xs) ≡ is_empty xs
unfolding join
is_empty-join [] h = refl
is_empty-join (x ∷ []) h = ground arith
is_empty-join ([] ∷ y ∷ xs) h = cc
is_empty-join ((b ∷ x) ∷ y ∷ xs) h = refl

-- Two lists with one key, if both are empty or neither is.
join_groups :
    (xs ys : List Text)
    → any unclean xs ≡ false
    → any unclean ys ≡ false
    → is_empty xs ≡ is_empty ys
    → join amp xs ≡ join amp ys
    → xs ≡ ys
join_groups xs ys hx hy n e =
    join-injective amp_byte xs ys
      (any_weaken (has_byte amp_byte) unclean xs (λ t h. ground arith) hx)
      (any_weaken (has_byte amp_byte) unclean ys (λ t h. ground arith) hy) n e

clean_of_good : (xs : List Text) → any bad_name xs ≡ false → any unclean xs ≡ false
clean_of_good xs = any_weaken unclean bad_name xs (λ t h. ground arith)

join_names :
    (xs ys : List Text)
    → any bad_name xs ≡ false
    → any bad_name ys ≡ false
    → join amp xs ≡ join amp ys
    → xs ≡ ys
join_names xs ys hx hy e =
    join_groups xs ys (clean_of_good xs hx) (clean_of_good ys hy)
      (sym (is_empty-join xs hx) ∙ ap is_empty e ∙ is_empty-join ys hy) e

no_space : (xs : List Text) → any unclean xs ≡ false → has_byte space (join amp xs) ≡ false
no_space xs h = has_byte-join xs (any_weaken (has_byte space) unclean xs (λ t h. ground arith) h)

drop_plus : (s t : Text) → b'+' ∷ b' ' ∷ s ≡ b'+' ∷ b' ' ∷ t → s ≡ t
drop_plus s t e = cc

sprintf4-injective :
    (a b c d a' b' c' d' : Text)
    → has_byte space a ≡ false
    → has_byte space a' ≡ false
    → has_byte space b ≡ false
    → has_byte space b' ≡ false
    → has_byte space c ≡ false
    → has_byte space c' ≡ false
    → sprintf4 a b c d ≡ sprintf4 a' b' c' d'
    → (a ≡ a') × (b ≡ b') × (c ≡ c') × (d ≡ d')
unfolding sprintf4
sprintf4-injective a b c d a' b' c' d' ha ha' hb hb' hc hc' e =
    let (p, e₁) = split_at_byte space a a' _ _ ha ha' e in
    let (q, e₂) = split_at_byte space b b' _ _ hb hb' (drop_plus _ _ e₁) in
    let (r, e₃) = split_at_byte space c c' _ _ hc hc' (drop_plus _ _ e₂) in
    (p, q, r, drop_plus _ _ e₃)

-- The four lists behind a key string are determined by it.
sprintf4-join :
    (a b c d a' b' c' d' : List Text)
    → any unclean a ≡ false
    → any unclean a' ≡ false
    → any bad_name b ≡ false
    → any bad_name b' ≡ false
    → any bad_name c ≡ false
    → any bad_name c' ≡ false
    → sprintf4 (join amp a) (join amp b) (join amp c) (join amp d)
      ≡ sprintf4 (join amp a') (join amp b') (join amp c') (join amp d')
    → (join amp a ≡ join amp a')
      × (join amp b ≡ join amp b')
      × (join amp c ≡ join amp c')
      × (join amp d ≡ join amp d')
sprintf4-join a b c d a' b' c' d' ha ha' hb hb' hc hc' =
    sprintf4-injective _ _ _ _ _ _ _ _ (no_space a ha) (no_space a' ha')
      (no_space b (clean_of_good b hb)) (no_space b' (clean_of_good b' hb'))
      (no_space c (clean_of_good c hc)) (no_space c' (clean_of_good c' hc'))

module _ {r s : Rule} (wr : IsWellFormed r) (ws : IsWellFormed s) where
  abbrev pub SameNames : Type 0
  SameNames = r.resource_names ≡ s.resource_names

  resources_of : join amp r.resources ≡ join amp s.resources → r.resources ≡ s.resources
  resources_of = join_names _ _ wr.resources_clean ws.resources_clean

  names_of : join amp r.resource_names ≡ join amp s.resource_names → SameNames
  names_of = join_names _ _ wr.names_clean ws.names_clean

  verbs_of : join amp r.verbs ≡ join amp s.verbs → r.verbs ≡ s.verbs
  verbs_of = join_names _ _ wr.verbs_clean ws.verbs_clean

  urls_of : join amp r.urls ≡ join amp s.urls → r.urls ≡ s.urls
  urls_of = join_names _ _ wr.urls_clean ws.urls_clean

  groups_of :
      is_empty r.groups ≡ is_empty s.groups
      → join amp r.groups ≡ join amp s.groups
      → r.groups ≡ s.groups
  groups_of = join_groups _ _ wr.groups_clean ws.groups_clean

  empty_of_resources : r.resources ≡ s.resources → is_empty r.groups ≡ is_empty s.groups
  empty_of_resources e = wr.groups_of_resources ∙ ap is_empty e ∙ sym ws.groups_of_resources

  empty_of_urls : r.urls ≡ s.urls → is_empty r.groups ≡ is_empty s.groups
  empty_of_urls e = ground (arith, ap (is_empty {A = Text}) e, wr.groups_or_urls, ws.groups_or_urls)

  pub key-injective :
      key r ≡ key s
      → (r.groups ≡ s.groups) × (r.resources ≡ s.resources) × SameNames × (r.urls ≡ s.urls)
  unfolding key
  key-injective e =
      let res = resources_of (ap (λ (k : RuleKey). k.resources) e) in
      (
        groups_of (empty_of_resources res) (ap (λ (k : RuleKey). k.groups) e),
        res,
        names_of (ap (λ (k : RuleKey). k.resource_names) e),
        urls_of (ap (λ (k : RuleKey). k.urls) e),
      )

  pub group_key-injective :
      key_with_group_resource_names_urls_verbs r ≡ key_with_group_resource_names_urls_verbs s
      → (r.groups ≡ s.groups) × SameNames × (r.urls ≡ s.urls) × (r.verbs ≡ s.verbs)
  unfolding key_with_group_resource_names_urls_verbs
  group_key-injective e =
      let (g, n, u, v) =
        sprintf4-join r.groups r.resource_names r.urls r.verbs s.groups s.resource_names s.urls
          s.verbs wr.groups_clean ws.groups_clean wr.names_clean ws.names_clean wr.urls_clean
          ws.urls_clean e in
      let urls = urls_of u in (groups_of (empty_of_urls urls) g, names_of n, urls, verbs_of v)

  pub resources_key-injective :
      key_with_resources_resource_names_urls_verbs r
        ≡ key_with_resources_resource_names_urls_verbs s
      → (r.resources ≡ s.resources) × SameNames × (r.urls ≡ s.urls) × (r.verbs ≡ s.verbs)
  unfolding key_with_resources_resource_names_urls_verbs
  resources_key-injective e =
      let (m, n, u, v) =
        sprintf4-join r.resources r.resource_names r.urls r.verbs s.resources s.resource_names
          s.urls s.verbs (clean_of_good r.resources wr.resources_clean)
          (clean_of_good s.resources ws.resources_clean) wr.names_clean ws.names_clean wr.urls_clean
          ws.urls_clean e in
      (resources_of m, names_of n, urls_of u, verbs_of v)

  pub group_resources_key-injective :
      key_with_group_resources_resource_names_verbs r
        ≡ key_with_group_resources_resource_names_verbs s
      → (r.groups ≡ s.groups) × (r.resources ≡ s.resources) × SameNames × (r.verbs ≡ s.verbs)
  unfolding key_with_group_resources_resource_names_verbs
  group_resources_key-injective e =
      let (g, m, n, v) =
        sprintf4-join r.groups r.resources r.resource_names r.verbs s.groups s.resources
          s.resource_names s.verbs wr.groups_clean ws.groups_clean wr.resources_clean
          ws.resources_clean wr.names_clean ws.names_clean e in
      let res = resources_of m in
      (groups_of (empty_of_resources res) g, res, names_of n, verbs_of v)
