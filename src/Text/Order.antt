-- ===== src/Text/Order.antt =====
-- The order of `strings.Compare` is a strict total order.
use controller_tools.Prelude.{◌≡◌, refl, true, false, [], ◌∷◌, arith}
use controller_tools.Prelude.Ascending.{IsStrictOrder}
use controller_tools.Text.{Text, eq_text, eq_text_iff, less_text}

pub less_text_irrefl : (s : Text) → less_text s s ≡ false
unfolding less_text
less_text_irrefl [] = refl
less_text_irrefl (x ∷ s) = ground (arith, less_text_irrefl s)

pub less_text_trans :
    (s t u : Text) → less_text s t ≡ true → less_text t u ≡ true → less_text s u ≡ true
unfolding less_text
less_text_trans [] [] u h k = ground arith
less_text_trans [] (y ∷ t) [] h k = k
less_text_trans [] (y ∷ t) (z ∷ u) h k = refl
less_text_trans (x ∷ s) [] u h k = ground arith
less_text_trans (x ∷ s) (y ∷ t) [] h k = k
less_text_trans (x ∷ s) (y ∷ t) (z ∷ u) h k = ground (arith, less_text_trans s t u)

pub less_text_total :
    (s t : Text) → eq_text s t ≡ false → less_text t s ≡ false → less_text s t ≡ true
unfolding less_text eq_text
less_text_total [] [] h k = ground arith
less_text_total [] (y ∷ t) h k = refl
less_text_total (x ∷ s) [] h k = ground arith
less_text_total (x ∷ s) (y ∷ t) h k = ground (arith, less_text_total s t)

pub text_order : IsStrictOrder less_text eq_text
text_order = record {
  same_iff = eq_text_iff;
  irrefl = less_text_irrefl;
  trans = less_text_trans;
  total = less_text_total;
}
