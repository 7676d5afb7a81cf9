-- ===== src/Markers/Parse/Ends.antt =====
-- The parsing of an argument ends: every loop reads something in each round, and the fuel for arguments
-- of any type is enough, since such an argument stands within another only in a map.
use controller_tools.Prelude.{
  ℕ, zero, suc, ◌<◌, refl, Bool, true, false, ◌||◌, Option, none, some, arith,
}
use controller_tools.Text.{Text}
use controller_tools.Markers.Scanner.{
  Message, ◌>>◌, is_eof, is_rune, is_int, Scanning, IsScanning, State, Parser, remaining, scan_op,
  peek_op,
}
use controller_tools.Markers.Scanner.Laws.{
  expect-Goes, scan-Advances, Goes-then_reading, expect-Progress, Goes, Ends-if, Goes-bind,
  Goes-with, Goes-then, return-Goes, report-Goes, token_text-Goes, operate-Goes, scan-Reading,
  peek_no_space-Peeks,
}
use controller_tools.Markers.Guess.Ends.{parse_string-Goes, pos_offset-Goes}
use controller_tools.Markers.Guess.{ArgumentValue, Values, Entries}
use controller_tools.Markers.Parse.{
  parse_invalid, return, codes, eq_text, is_float, is_ident, report, parse_raw, parse_int,
  parse_bool, parse_sign, consume, convert, parse_number, parse_map, map_entries, end_map,
  ItemParser, braced_items, end_braced, legacy_items, loop, parse_slice,
}

module _ {sc : Scanning} (law : IsScanning sc) where
  -- The parser goes on wherever fewer bytes than the bound are left.
  abbrev pub Below : ℕ → ItemParser sc.Scanner → Type 0
  Below b item =
      (v : ArgumentValue) (in_slice : Bool) (s : State sc.Scanner)
      → remaining sc s < b
      → Goes sc (item v in_slice) s

  loop-Goes :
      {A : Type 0} {body : ℕ → Parser sc.Scanner A} (s : State sc.Scanner)
      → ((n : ℕ) → remaining sc s < n → Goes sc (body n) s)
      → Goes sc (loop sc body) s
  unfolding loop
  loop-Goes s h = record { run = (h (suc (remaining sc s)) (omega arith)).run }

  braced_items-Goes :
      (b : ℕ) (item : ItemParser sc.Scanner)
      → Below b item
      → (n : ℕ) (elem : ArgumentValue) (res : Values) (s : State sc.Scanner) → remaining sc s < n
      → remaining sc s < b
      → Goes sc (braced_items sc item n elem res) s
  unfolding braced_items
  braced_items-Goes b item g zero elem res s h k = absurd (omega arith)
  braced_items-Goes b item g (suc n) elem res s h k =
      Goes-with law _ (peek_no_space-Peeks law s) λ hint t l more.
        Ends-if sc (is_rune b'}' hint || is_eof hint) (λ _. return-Goes sc _ t)
          (λ _. Goes-bind sc (g elem true t (omega (arith, l.less))) λ v u m.
            Goes-with law _ (peek_no_space-Peeks law u) λ tok w o _.
              Ends-if sc (is_rune b'}' tok) (λ _. return-Goes sc _ w)
                (λ _. Goes-with law _ (expect-Progress law (is_rune b',') _ w refl) λ more x p q.
                  Ends-if sc more
                    (λ e.
                      braced_items-Goes b item g n v _ x
                        (omega (arith, l.less, m.less, o.less, q e))
                        (omega (arith, l.less, m.less, o.less, p.less)))
                    (λ _. return-Goes sc _ x)))

  legacy_items-Goes :
      (b : ℕ) (item : ItemParser sc.Scanner)
      → Below b item
      → (n : ℕ) (elem : ArgumentValue) (res : Values) (s : State sc.Scanner) → remaining sc s < n
      → remaining sc s < b
      → Goes sc (legacy_items sc item n elem res) s
  unfolding legacy_items
  legacy_items-Goes b item g zero elem res s h k = absurd (omega arith)
  legacy_items-Goes b item g (suc n) elem res s h k =
      Goes-with law _ (peek_no_space-Peeks law s) λ hint t l _.
        Ends-if sc (is_rune b',' hint || is_rune b'}' hint || is_eof hint) (λ _. return-Goes sc _ t)
          (λ _. Goes-bind sc (g elem true t (omega (arith, l.less))) λ v u m.
            Goes-with law _ (peek_no_space-Peeks law u) λ tok w o more.
              Ends-if sc (is_rune b',' tok || is_rune b'}' tok || is_eof tok)
                (λ _. return-Goes sc _ w)
                (λ e. Goes-then_reading sc (scan-Advances law true w (more (ground arith))) λ x r.
                  Ends-if sc (is_rune b';' tok)
                    (λ _.
                      legacy_items-Goes b item g n v _ x
                        (omega (arith, l.less, m.less, o.less, r.fewer))
                        (omega (arith, l.less, m.less, o.less, r.fewer)))
                    (λ _. Goes-then sc (report-Goes sc _ x) λ y _. return-Goes sc _ y)))

  end_braced-Goes :
      (out : ArgumentValue) (res : Option Values) (s : State sc.Scanner)
      → Goes sc (end_braced sc out res) s
  unfolding end_braced
  end_braced-Goes out none s = return-Goes sc out s
  end_braced-Goes out (some vs) s =
      Goes-bind sc (expect-Goes law _ _ s refl) λ closed t _. return-Goes sc _ t

  pub parse_slice-Below :
      (b : ℕ) (item : ItemParser sc.Scanner)
      → Below b item
      → (out : ArgumentValue) (s : State sc.Scanner) → remaining sc s < b
      → Goes sc (parse_slice sc item out) s
  unfolding parse_slice
  parse_slice-Below b item g out s k = Goes-with law _ (peek_no_space-Peeks law s) λ hint t l _.
      Ends-if sc (is_rune b'{' hint)
        (λ _. Goes-then sc (operate-Goes law (scan_op true) t) λ u m.
          Goes-bind sc
            (loop-Goes u
              (λ n h. braced_items-Goes b item g n _ _ u h (omega (arith, l.less, m.less))))
            λ items v _. end_braced-Goes out items v)
        (λ _.
          Goes-bind sc
            (loop-Goes t (λ n h. legacy_items-Goes b item g n _ _ t h (omega (arith, l.less))))
            λ items u _. return-Goes sc _ u)

  -- Within the braces of a map fewer bytes are left.
  map_entries-Goes :
      (source : Text) (b : ℕ) (item : ItemParser sc.Scanner)
      → Below b item
      → (n : ℕ) (key elem : ArgumentValue) (res : Entries) (s : State sc.Scanner)
      → remaining sc s < n
      → remaining sc s < b
      → Goes sc (map_entries sc source item n key elem res) s
  unfolding map_entries
  map_entries-Goes source b item g zero key elem res s h k = absurd (omega arith)
  map_entries-Goes source b item g (suc n) key elem res s h k =
      Goes-with law _ (peek_no_space-Peeks law s) λ hint t l _.
        Ends-if sc (is_rune b'}' hint || is_eof hint) (λ _. return-Goes sc _ t)
          (λ _. Goes-bind sc (parse_string-Goes law source true key t) λ k' u m.
            Goes-bind sc (expect-Goes law _ _ u refl) λ colon v o.
              Ends-if sc colon
                (λ _.
                  Goes-bind sc (g elem false v (omega (arith, l.less, m.less, o.less))) λ val w p.
                    Goes-with law _ (peek_no_space-Peeks law w) λ tok x q _.
                      Ends-if sc (is_rune b'}' tok) (λ _. return-Goes sc _ x)
                        (λ _.
                          Goes-with law _ (expect-Progress law (is_rune b',') _ x refl)
                            λ more y r f.
                              Ends-if sc more
                                (λ e.
                                  map_entries-Goes source b item g n k' val _ y
                                    (omega (arith, l.less, m.less, o.less, p.less, q.less, f e))
                                    (omega (arith, l.less, m.less, o.less, p.less, q.less, r.less)))
                                (λ _. return-Goes sc _ y)))
                (λ _. return-Goes sc _ v))

  end_map-Goes :
      (out : ArgumentValue) (res : Option Entries) (s : State sc.Scanner)
      → Goes sc (end_map sc out res) s
  unfolding end_map
  end_map-Goes out none s = return-Goes sc out s
  end_map-Goes out (some es) s =
      Goes-bind sc (expect-Goes law _ _ s refl) λ closed t _. return-Goes sc _ t

  -- A map's items are parsed where the brace has been read.
  pub parse_map-Below :
      (source : Text) (b : ℕ) (item : ItemParser sc.Scanner)
      → Below b item
      → (out : ArgumentValue) (s : State sc.Scanner) → remaining sc s < suc b
      → Goes sc (parse_map sc source item out) s
  unfolding parse_map
  parse_map-Below source b item g out s k =
      Goes-with law _ (expect-Progress law (is_rune b'{') _ s refl) λ opened t l p.
        Ends-if sc opened
          (λ e.
            Goes-bind sc
              (loop-Goes t
                (λ n h. map_entries-Goes source b item g n _ _ _ t h (omega (arith, p e))))
              λ entries u _. end_map-Goes out entries u)
          (λ _. return-Goes sc out t)

  consume-Goes : (n : ℕ) (s : State sc.Scanner) → remaining sc s < n → Goes sc (consume sc n) s
  unfolding consume
  consume-Goes zero s h = absurd (omega arith)
  consume-Goes (suc n) s h = Goes-with law _ (scan-Reading law true s) λ tok t l reads.
      Ends-if sc (is_eof tok) (λ _. return-Goes sc tt t)
        (λ e. consume-Goes n t (omega (arith, reads e)))

  pub parse_raw-Goes : (source : Text) (s : State sc.Scanner) → Goes sc (parse_raw sc source) s
  unfolding parse_raw
  parse_raw-Goes source s =
      Goes-bind sc (pos_offset-Goes law s)
        λ pos t _. Goes-then sc (loop-Goes t (λ n h. consume-Goes n t h)) λ u _. return-Goes sc _ u

  parse_sign-Goes : (s : State sc.Scanner) → Goes sc (parse_sign sc) s
  unfolding parse_sign
  parse_sign-Goes s = Goes-bind sc (operate-Goes law peek_op s) λ next_char t _.
      Ends-if sc (is_rune b'-' next_char)
        (λ _. Goes-then sc (operate-Goes law (scan_op true) t) λ u _. return-Goes sc _ u)
        (λ _. return-Goes sc _ t)

  -- An error, and the target is left as it was.
  pub fails-Goes :
      {A : Type 0} (m : Text → Message) (out : A) (s : State sc.Scanner)
      → Goes sc (report sc m >> return out) s
  fails-Goes m out s = Goes-then sc (report-Goes sc m s) λ t _. return-Goes sc out t

  pub parse_invalid-Goes :
      (out : ArgumentValue) (s : State sc.Scanner) → Goes sc (parse_invalid sc out) s
  unfolding parse_invalid
  parse_invalid-Goes out s = fails-Goes _ out s

  convert-Goes :
      (n : Option ℕ) (f : ℕ → ArgumentValue) (out : ArgumentValue) (m : Text → Message)
      (s : State sc.Scanner)
      → Goes sc (convert sc n f out (report sc m)) s
  unfolding convert
  convert-Goes none f out m s = fails-Goes m out s
  convert-Goes (some n) f out m s = return-Goes sc (f n) s

  pub parse_number-Goes :
      (out : ArgumentValue) (s : State sc.Scanner) → Goes sc (parse_number sc out) s
  unfolding parse_number
  parse_number-Goes out s = Goes-bind sc (parse_sign-Goes s) λ sign t _.
      Goes-bind sc (operate-Goes law (scan_op true) t) λ tok u _.
        Goes-bind sc (token_text-Goes sc u) λ text v _.
          Ends-if sc (is_float tok || is_int tok) (λ _. convert-Goes _ _ out _ v)
            (λ _. fails-Goes _ out v)

  pub parse_int-Goes : (out : ArgumentValue) (s : State sc.Scanner) → Goes sc (parse_int sc out) s
  unfolding parse_int
  parse_int-Goes out s = Goes-bind sc (parse_sign-Goes s) λ sign t _.
      Goes-bind sc (expect-Goes law is_int _ t refl) λ found u _.
        Ends-if sc found
          (λ _. Goes-bind sc (token_text-Goes sc u) λ text v _. convert-Goes _ _ out _ v)
          (λ _. return-Goes sc out u)

  pub parse_bool-Goes : (out : ArgumentValue) (s : State sc.Scanner) → Goes sc (parse_bool sc out) s
  unfolding parse_bool
  parse_bool-Goes out s = Goes-bind sc (expect-Goes law is_ident _ s refl) λ found t _.
      Goes-bind sc (token_text-Goes sc t) λ text u _.
        Ends-if sc found
          (λ _.
            Ends-if sc (eq_text text (codes "true")) (λ _. return-Goes sc _ u)
              (λ _.
                Ends-if sc (eq_text text (codes "false")) (λ _. return-Goes sc _ u)
                  (λ _. fails-Goes _ out u)))
          (λ _. return-Goes sc out u)
