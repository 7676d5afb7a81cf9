-- ===== src/Rbac/Bucket.antt =====
-- The first half of one merge of `NormalizeRules`: the rules that agree on a key go into one bucket,
-- and the bucket becomes one rule, which grants what they grant.
use mathlib.Core.Bool.{Bool-set}
use controller_tools.Prelude.{
  ℕ, ◌≡◌, refl, sym, ◌∙◌, Bool, true, ◌||◌, inl, inr, List, [], ◌∷◌, ◌++◌, map, foldl, arith, any,
  any-append, any-perm, any-map, All, All-append, All-perm, Option-cases,
}
use mathlib.Core.List.Perm
use controller_tools.Prelude.Assoc.{
  lookup, any_value, any-put_new, any-put_old, All-put, All-lookup,
}
use controller_tools.Text.{Text, eq_text, eq_text_iff}
use controller_tools.Rbac.Rule.{Rule, normalize}
use controller_tools.Rbac.Normalize.{
  RuleMap, Bucket, BucketMap, values, RangeOrder, add_to_bucket, merged_rules,
}
use controller_tools.Rbac.Permissions.{Authorizer, Request, grants, IsWellFormed}
use controller_tools.Rbac.Merge.{IsMerge, grants-normalize, normalize-IsWellFormed}
use controller_tools.Rbac.Stage.{
  IsRangeOrder, IsWellFormed-prop, IsKeyed, AllWellFormed, values-AllWellFormed,
}

module _ (a : Authorizer) (q : Request) (order : RangeOrder) (ok : IsRangeOrder order) where
  abbrev granted : Rule → Bool
  granted = grants a q

  module _ {key_of : Rule → Text} {merge : Rule → Rule → Rule} (law : IsMerge key_of merge) where
    abbrev in_bucket : Bucket → Bool
    in_bucket (first, rest) = granted first || any granted rest

    abbrev Agrees : Text → Rule → Type 0
    Agrees k r = IsWellFormed r × (key_of r ≡ k)

    abbrev IsBucket : Text → Bucket → Type 0
    IsBucket k (first, rest) = Agrees k first × All (Agrees k) rest

    abbrev AllBuckets : BucketMap → Type 0
    AllBuckets = All (λ e. IsBucket e.0 e.1)

    any-add_to_bucket :
        (m : BucketMap) (r : Rule)
        → any_value in_bucket (add_to_bucket order key_of m r)
          ≡ (any_value in_bucket m || granted r)
    unfolding add_to_bucket
    any-add_to_bucket m r =
        let n = normalize order.names r in
        elim (Option-cases (lookup eq_text (key_of n) m)) [
          | inl e ↦ rw e (
              any-put_new eq_text in_bucket (key_of n) (n, []) m e
              ∙ ground (arith, grants-normalize ok.names a q r))
          | inr ((first, rest), e) ↦ rw e (
              any-put_old eq_text in_bucket (key_of n) (first, rest ++ n ∷ []) (first, rest)
                (granted r) m
                (ground (arith, any-append granted rest (n ∷ []), grants-normalize ok.names a q r))
                e)
        ]

    add_to_bucket-AllBuckets :
        (m : BucketMap) (r : Rule)
        → IsWellFormed r
        → AllBuckets m
        → AllBuckets (add_to_bucket order key_of m r)
    unfolding add_to_bucket
    add_to_bucket-AllBuckets m r w b =
        let n = normalize order.names r in
        let agrees : Agrees (key_of n) n = (normalize-IsWellFormed ok.names w, refl) in
        let sound = λ (j : Text) (e : eq_text (key_of n) j ≡ true). (eq_text_iff _ j).0 e in
        elim (Option-cases (lookup eq_text (key_of n) m)) [
          | inl e ↦ rw e (All-put eq_text IsBucket (key_of n) (n, []) m sound (agrees, tt) b)
          | inr ((first, rest), e) ↦
              let old = All-lookup eq_text IsBucket (key_of n) (first, rest) m sound b e in
              rw e (
                All-put eq_text IsBucket (key_of n) (first, rest ++ n ∷ []) m sound
                  (old.0, All-append (Agrees (key_of n)) rest (n ∷ []) old.1 (agrees, tt)) b)
        ]

    any-buckets :
        (rs : List Rule) (m : BucketMap)
        → any_value in_bucket (foldl (add_to_bucket order key_of) m rs)
          ≡ (any_value in_bucket m || any granted rs)
    any-buckets [] m = ground arith
    any-buckets (r ∷ rs) m =
        ground (arith, any-buckets rs (add_to_bucket order key_of m r), any-add_to_bucket m r)

    AllBuckets-foldl :
        (rs : List Rule) (m : BucketMap)
        → AllWellFormed rs
        → AllBuckets m
        → AllBuckets (foldl (add_to_bucket order key_of) m rs)
    AllBuckets-foldl [] m w b = b
    AllBuckets-foldl (r ∷ rs) m w b =
        AllBuckets-foldl rs (add_to_bucket order key_of m r) w.1
          (add_to_bucket-AllBuckets m r w.0 b)

    merge_bucket :
        (k : Text) (first : Rule) (rest : List Rule)
        → IsBucket k (first, rest)
        → IsWellFormed (foldl merge first rest)
          × (granted (foldl merge first rest) ≡ in_bucket (first, rest))
    merge_bucket k first [] b = (b.0.0, ground arith)
    merge_bucket k first (r ∷ rest) b =
        let (wf, kf) = b.0 in
        let (wr, kr) = b.1.0 in
        let same : key_of first ≡ key_of r = kf ∙ sym kr in
        let (w, e) =
          merge_bucket k (merge first r) rest
            ((law.kept first r wf wr same, law.keyed first r ∙ kf), b.1.1) in
        (w, ground (arith, e, law.granted a q first r wf wr same))

    -- What a bucket becomes.
    abbrev merged : Bucket → Rule
    merged (first, rest) = foldl merge first rest

    abbrev Merges : Bucket → Type 0
    Merges b = IsWellFormed (merged b) × (granted (merged b) ≡ in_bucket b)

    Merges-prop : (b : Bucket) → IsProp (Merges b)
    Merges-prop b = hlevel (IsWellFormed-prop, Bool-set)

    values-Merges : (m : BucketMap) → AllBuckets m → All Merges (values m)
    values-Merges [] b = tt
    values-Merges ((k, (first, rest)) ∷ m) b = (merge_bucket k first rest b.0, values-Merges m b.1)

    any-merged : (bs : List Bucket) → All Merges bs → any granted (map merged bs) ≡ any in_bucket bs
    any-merged [] h = refl
    any-merged (b ∷ bs) h = ground (arith, h.0.1, any-merged bs h.1)

    merged-AllWellFormed : (bs : List Bucket) → All Merges bs → AllWellFormed (map merged bs)
    merged-AllWellFormed [] h = tt
    merged-AllWellFormed (b ∷ bs) h = (h.0.0, merged-AllWellFormed bs h.1)

    module _ (stage : ℕ) (m : RuleMap) (keyed : IsKeyed m) where
      abbrev by_key : BucketMap
      by_key = foldl (add_to_bucket order key_of) [] (order.rules stage (values m))

      rules_well_formed : AllWellFormed (order.rules stage (values m))
      rules_well_formed =
          All-perm IsWellFormed IsWellFormed-prop (Perm.symm (ok.rules stage (values m)))
            (values-AllWellFormed m keyed)

      buckets-Merges : All Merges (order.buckets stage (values by_key))
      buckets-Merges = All-perm Merges Merges-prop (Perm.symm (ok.buckets stage (values by_key))) (
          values-Merges by_key
            (AllBuckets-foldl (order.rules stage (values m)) [] rules_well_formed tt))

      pub merged_rules-AllWellFormed : AllWellFormed (merged_rules order stage key_of merge m)
      unfolding merged_rules
      merged_rules-AllWellFormed = merged-AllWellFormed _ buckets-Merges

      pub any-merged_rules :
          any granted (merged_rules order stage key_of merge m) ≡ any_value granted m
      unfolding merged_rules
      any-merged_rules =
          any-merged (order.buckets stage (values by_key)) buckets-Merges
          ∙ any-perm in_bucket (ok.buckets stage (values by_key))
          ∙ any-map in_bucket (λ e. e.1) by_key
          ∙ any-buckets (order.rules stage (values m)) []
          ∙ any-perm granted (ok.rules stage (values m))
          ∙ any-map granted (λ e. e.1) m
