-- ===== src/Crd/Flatten/Scalars.antt =====
-- What the merge of two plain or special fields, with the remainders of both, says of a value.
use controller_tools.Prelude.{
  ℕ, ◌≡◌, refl, sym, ap, ◌∙◌, Bool, true, false, not, ◌&&◌, ◌||◌, Option, none, some, List, [], ◌∷◌,
  ◌++◌, ◌==◌, ==_iff, if◌then◌else◌, any, any-append, is_empty, arith, fun_ext, Bool-cases, inl,
  inr,
}
use controller_tools.Text.{Text, eq_text, eq_text_iff}
use controller_tools.Rbac.Rule.Laws.{IsOrder, any-remove_dup_and_sort}
use controller_tools.Crd.Schema.{
  Field, all_fields, Scalar, text, flag, number, texts, opaque, Plain, Special, no_special,
}
use controller_tools.Crd.Schema.Constraints.{Constraints, all, unless_none, plain_ok, special_ok}
use controller_tools.Crd.Flatten.{
  compares, eq_scalar, merge_scalar, hoists_scalar, merge_count, hoists_count, type_conflict,
  merge_special, keep_if,
}

eq_scalar→eq : (x y : Scalar) → eq_scalar x y ≡ true → x ≡ y
unfolding eq_scalar
eq_scalar→eq (text s) (text t) h = ap text ((eq_text_iff s t).0 h)
eq_scalar→eq flag flag h = refl
eq_scalar→eq (text s) flag h = cc
eq_scalar→eq (text s) (number n) h = cc
eq_scalar→eq (text s) (texts n) h = cc
eq_scalar→eq (text s) (opaque n) h = cc
eq_scalar→eq flag (text s) h = cc
eq_scalar→eq flag (number n) h = cc
eq_scalar→eq flag (texts n) h = cc
eq_scalar→eq flag (opaque n) h = cc
eq_scalar→eq (number n) y h = cc
eq_scalar→eq (texts n) y h = cc
eq_scalar→eq (opaque n) y h = cc

pub all-and {ℓ} :
    {A : Type ℓ} (p q : A → Bool) (xs : List A) → all (λ x. p x && q x) xs ≡ (all p xs && all q xs)
all-and p q [] = refl
all-and p q (x ∷ xs) = ground (arith, all-and p q xs)

pub all_ext {ℓ} :
    {A : Type ℓ} (p q : A → Bool) (xs : List A) → ((x : A) → p x ≡ q x) → all p xs ≡ all q xs
all_ext p q xs h = ap (λ r. all r xs) (fun_ext h)

pub all-append {ℓ} :
    {A : Type ℓ} (p : A → Bool) (xs ys : List A) → all p (xs ++ ys) ≡ (all p xs && all p ys)
all-append p xs ys = ground (arith, any-append (λ x. not (p x)) xs ys)

-- If nothing is kept, nothing is left to hold.
pub all-keep_if {ℓ κ} :
    {A : Type ℓ} {B : Type κ} (ok : A → B → Bool) (keep : A → Bool) (o : A → Option B) (xs : List A)
    → any keep xs ≡ false
    → all (λ x. unless_none (ok x) (keep_if (keep x) (o x))) xs ≡ true
all-keep_if ok keep o [] h = refl
all-keep_if ok keep o (x ∷ xs) h = ground (arith, all-keep_if ok keep o xs)

merge_scalar_lem :
    (ok : Scalar → Bool) (f : Field) (dst src : Option Scalar)
    → (unless_none ok (merge_scalar f dst src)
        && (unless_none ok (keep_if (hoists_scalar f dst src) dst)
            && unless_none ok (keep_if (hoists_scalar f dst src) src)))
      ≡ (unless_none ok dst && unless_none ok src)
unfolding merge_scalar hoists_scalar
merge_scalar_lem ok f dst none = ground arith
merge_scalar_lem ok f none (some x) = ground arith
merge_scalar_lem ok f (some y) (some x) = elim (Bool-cases (compares f && eq_scalar x y)) [
  | inl e ↦ rw e (ground (arith, ap ok (eq_scalar→eq x y (ground arith))))
  | inr e ↦ rw e refl
]

merge_count_lem :
    (ok : ℕ → Bool) (dst src : Option ℕ)
    → (unless_none ok (merge_count dst src)
        && (unless_none ok (keep_if (hoists_count dst src) dst)
            && unless_none ok (keep_if (hoists_count dst src) src)))
      ≡ (unless_none ok dst && unless_none ok src)
unfolding merge_count hoists_count
merge_count_lem ok dst none = ground arith
merge_count_lem ok none (some x) = ground arith
merge_count_lem ok (some y) (some x) = elim (Bool-cases (x == y)) [
  | inl e ↦ rw e (ground (arith, ap ok ((==_iff x y).0 e)))
  | inr e ↦ rw e refl
]

cons_not_nil {ℓ} : {A : Type ℓ} {x : A} {xs : List A} → x ∷ xs ≡ [] → ⊥
cons_not_nil h = cc

type_conflict-cases :
    (d s : Text) → type_conflict d s ≡ [] → (is_empty s || is_empty d || eq_text s d) ≡ true
unfolding type_conflict
type_conflict-cases d s h = elim (Bool-cases (is_empty s || is_empty d || eq_text s d)) [
  | inl e ↦ e
  | inr e ↦ absurd (cons_not_nil (rw e at h))
]

-- Two texts, of which the first counts if it is not empty.
first_text_lem :
    (ok : Text → Bool) (d s : Text)
    → (is_empty s || is_empty d || eq_text s d) ≡ true
    → (if is_empty (if is_empty d then s else d) then true else ok (if is_empty d then s else d))
      ≡ ((if is_empty d then true else ok d) && (if is_empty s then true else ok s))
first_text_lem ok [] s h = refl
first_text_lem ok (b ∷ d) [] h = ground arith
first_text_lem ok (b ∷ d) (c ∷ s) h = rw ((eq_text_iff (c ∷ s) (b ∷ d)).0 h) (ground arith)

first_enum_lem :
    (ok : List Text → Bool) (d s : List Text)
    → (is_empty d || is_empty s) ≡ true
    → (if is_empty (if is_empty d then s else d) then true else ok (if is_empty d then s else d))
      ≡ ((if is_empty d then true else ok d) && (if is_empty s then true else ok s))
first_enum_lem ok [] s h = refl
first_enum_lem ok (x ∷ d) [] h = ground arith
first_enum_lem ok (x ∷ d) (y ∷ s) h = cc

-- The conjuncts of two special fields side by side.
regroup :
    (t t1 t2 e e1 e2 r r1 r2 l l1 l2 l3 l4 h h1 h2 h3 h4 x x1 x2 : Bool)
    → t ≡ (t1 && t2)
    → e ≡ (e1 && e2)
    → r ≡ (r1 && r2)
    → (l && (l3 && l4)) ≡ (l1 && l2)
    → (h && (h3 && h4)) ≡ (h1 && h2)
    → x ≡ (x2 && x1)
    → ((t && e && r && l && h && x)
        && ((true && true && true && l3 && h3 && true)
            && (true && true && true && l4 && h4 && true)))
      ≡ ((t1 && e1 && r1 && l1 && h1 && x1) && (t2 && e2 && r2 && l2 && h2 && x2))
regroup t t1 t2 e e1 e2 r r1 r2 l l1 l2 l3 l4 h h1 h2 h3 h4 x x1 x2 pt pe pr pl ph px = ground arith

abbrev pub kept_counts : Bool → Bool → Special → Special
kept_counts low high s = record no_special {
  min_properties = keep_if low s.min_properties;
  max_properties = keep_if high s.max_properties;
}

module _ {V : Type 0} (m : Constraints V) (v : V) where
  pub plain_lem :
      (d s : Plain)
      → (plain_ok m (λ f. merge_scalar f (d f) (s f)) v
          && (plain_ok m (λ f. keep_if (hoists_scalar f (d f) (s f)) (d f)) v
              && plain_ok m (λ f. keep_if (hoists_scalar f (d f) (s f)) (s f)) v))
        ≡ (plain_ok m d v && plain_ok m s v)
  plain_lem d s =
      let ok : Field → Option Scalar → Bool = λ f o. unless_none (λ x. m.field_ok f x v) o in
      let a : Field → Bool = λ f. ok f (merge_scalar f (d f) (s f)) in
      let b : Field → Bool = λ f. ok f (keep_if (hoists_scalar f (d f) (s f)) (d f)) in
      let c : Field → Bool = λ f. ok f (keep_if (hoists_scalar f (d f) (s f)) (s f)) in
      ap (λ z. all a all_fields && z) (sym (all-and b c all_fields))
      ∙ sym (all-and a (λ f. b f && c f) all_fields)
      ∙ all_ext (λ f. a f && (b f && c f)) (λ f. ok f (d f) && ok f (s f)) all_fields
          (λ f. merge_scalar_lem (λ x. m.field_ok f x v) f (d f) (s f))
      ∙ all-and (λ f. ok f (d f)) (λ f. ok f (s f)) all_fields

  abbrev type_part : Special → Bool
  type_part s = if is_empty s.type_name then true else m.type_ok s.type_name v

  abbrev enum_part : Special → Bool
  enum_part s = if is_empty s.enum then true else m.enum_ok s.enum v

  abbrev required_part : Special → Bool
  required_part s = all (λ k. m.has_key k v) s.required

  abbrev min_part : Special → Bool
  min_part s = unless_none (λ n. m.min_ok n v) s.min_properties

  abbrev max_part : Special → Bool
  max_part s = unless_none (λ n. m.max_ok n v) s.max_properties

  abbrev rules_part : Special → Bool
  rules_part s = all (λ r. m.rule_ok r v) s.x_validations

  pub special_lem :
      (order : List Text → List Text) (d s : Special)
      → IsOrder order
      → type_conflict d.type_name s.type_name ≡ []
      → (is_empty d.enum || is_empty s.enum) ≡ true
      → (special_ok m (merge_special order d s) v
          && (special_ok m
                (kept_counts
                  (hoists_count d.min_properties s.min_properties)
                  (hoists_count d.max_properties s.max_properties)
                  d)
                v
              && special_ok m
                  (kept_counts
                    (hoists_count d.min_properties s.min_properties)
                    (hoists_count d.max_properties s.max_properties)
                    s)
                  v))
        ≡ (special_ok m d v && special_ok m s v)
  unfolding merge_special
  special_lem order d s o same free =
      let w = merge_special order d s in
      let kd =
        kept_counts (hoists_count d.min_properties s.min_properties)
          (hoists_count d.max_properties s.max_properties) d in
      let ks =
        kept_counts (hoists_count d.min_properties s.min_properties)
          (hoists_count d.max_properties s.max_properties) s in
      regroup (type_part w) (type_part d) (type_part s) (enum_part w) (enum_part d) (enum_part s)
        (required_part w) (required_part d) (required_part s) (min_part w) (min_part d) (min_part s)
        (min_part kd) (min_part ks) (max_part w) (max_part d) (max_part s) (max_part kd)
        (max_part ks) (rules_part w) (rules_part d) (rules_part s)
        (first_text_lem (λ x. m.type_ok x v) d.type_name s.type_name
          (type_conflict-cases d.type_name s.type_name same))
        (first_enum_lem (λ x. m.enum_ok x v) d.enum s.enum free)
        (ap not (any-remove_dup_and_sort (λ k. not (m.has_key k v)) o (d.required ++ s.required))
          ∙ all-append (λ k. m.has_key k v) d.required s.required)
        (merge_count_lem (λ n. m.min_ok n v) d.min_properties s.min_properties)
        (merge_count_lem (λ n. m.max_ok n v) d.max_properties s.max_properties)
        (all-append (λ r. m.rule_ok r v) s.x_validations d.x_validations)
