-- ===== src/Markers/Guess/Ends.antt =====
-- The parsing of strings and the guesses of types end, and keep the errors.
use controller_tools.Prelude.{
  inr, inl, Bool-cases, ℕ, zero, suc, ◌-◌, ◌≡◌, ◌<◌, refl, Bool, true, false, Option, none, some,
  [], ◌∷◌, arith, ◌||◌, length, is_empty,
}
use controller_tools.Text.{Text}
use controller_tools.Markers.Argument.{Argument}
use controller_tools.Markers.Scanner.{
  Token, is_eof, is_rune, Scanning, IsScanning, State, Run, starved, panicked, done, Parser,
  remaining, scan_op,
}
use controller_tools.Markers.Scanner.Laws.{
  panic-Ends, Ends-weaken, Reads-Later, Ensures, Later-Reads, Reads, scan-Advances,
  Goes-then_reading, Later, Later-refl, Goes, Ends, Ends-if, Goes-bind, Goes-with, Goes-then,
  return-Goes, report-Goes, token_text-Goes, token_start-Goes, operate-Goes, scan-Reading,
  peek_no_space-Peeks,
}
use controller_tools.Markers.Guess.{
  with_legacy, guess_type, is_string, is_quote, fresh, is_float, ended, guessed, guess_braces,
  guess_item, look, is_ident, is_int, is_quoted, after_sign, find_end, pos_offset, had_scan_error,
  item_end, guess_number, guess_bool, ArgumentValue, is_delim, skip_bare, skip_to_delim, unquoted,
  parse_string, drop,
}

pub length-drop : (n : ℕ) (t : Text) → length (drop n t) ≡ length t - n
unfolding drop
length-drop zero t = omega arith
length-drop (suc n) [] = omega arith
length-drop (suc n) (b ∷ t) = omega (arith, length-drop n t)

module _ {sc : Scanning} (law : IsScanning sc) where
  delim_eof : (in_map : Bool) (hint : Token) → is_delim sc in_map hint ≡ false → is_eof hint ≡ false
  delim_eof in_map hint h = ground arith

  skip_bare-Goes :
      (in_map : Bool) (n : ℕ) (s : State sc.Scanner)
      → remaining sc s < n
      → Goes sc (skip_bare sc in_map n) s
  unfolding skip_bare
  skip_bare-Goes in_map zero s h = absurd (omega arith)
  skip_bare-Goes in_map (suc n) s h = Goes-with law _ (peek_no_space-Peeks law s) λ hint t l more.
      Ends-if sc (is_delim sc in_map hint) (λ _. return-Goes sc tt t)
        (λ e.
          Goes-then_reading sc (scan-Advances law false t (more (delim_eof in_map hint e)))
            (λ u r. skip_bare-Goes in_map n u (omega (arith, l.less, r.fewer))))

  skip_to_delim-Goes : (in_map : Bool) (s : State sc.Scanner) → Goes sc (skip_to_delim sc in_map) s
  unfolding skip_to_delim
  skip_to_delim-Goes in_map s = record {
    run = (skip_bare-Goes in_map (suc (remaining sc s)) s (omega arith)).run;
  }

  unquoted-Goes :
      (val : Option Text) (out : ArgumentValue) (t : Text) (s : State sc.Scanner)
      → Goes sc (unquoted sc val out t) s
  unfolding unquoted
  unquoted-Goes none out t s = Goes-then sc (report-Goes sc _ s) (λ u _. return-Goes sc out u)
  unquoted-Goes (some val) out t s = return-Goes sc (ArgumentValue.text val) s

  pub parse_string-Goes :
      (raw : Text) (in_map : Bool) (out : ArgumentValue) (s : State sc.Scanner)
      → Goes sc (parse_string sc raw in_map out) s
  unfolding parse_string
  parse_string-Goes raw in_map out s = Goes-bind sc (operate-Goes law (scan_op false) s) λ tok t _.
      Ends-if sc (is_quoted tok)
        (λ _.
          Goes-bind sc (token_text-Goes sc t)
            λ text u _. unquoted-Goes (sc.unquote text) out text u)
        (λ _. Goes-bind sc (token_start-Goes sc t) λ start u _.
          Goes-then sc (skip_to_delim-Goes in_map u) λ v _.
            Goes-bind sc (token_start-Goes sc v)
              λ last w _. Goes-bind sc (token_text-Goes sc w) λ text x _. return-Goes sc _ x)

  find_end-Goes : (n : ℕ) (s : State sc.Scanner) → remaining sc s < n → Goes sc (find_end sc n) s
  unfolding find_end
  find_end-Goes zero s h = absurd (omega arith)
  find_end-Goes (suc n) s h = Goes-with law _ (scan-Reading law true s) λ tok t l reads.
      Ends-if sc (is_rune b',' tok || is_eof tok || is_rune b';' tok) (λ _. return-Goes sc tok t)
        (λ e. find_end-Goes n t (omega (arith, reads (ground arith))))

  pub item_end-Goes : (s : State sc.Scanner) → Goes sc (item_end sc) s
  unfolding item_end
  item_end-Goes s = record { run = (find_end-Goes (suc (remaining sc s)) s (omega arith)).run }

  had_scan_error-Goes : (s : State sc.Scanner) → Goes sc (had_scan_error sc) s
  unfolding had_scan_error
  had_scan_error-Goes s = elim (Bool-cases (is_empty s.errors)) [
    | inl e ↦ record { run = rw e (Later-refl sc s) }
    | inr e ↦ record { run = rw e (Later-refl sc s) }
  ]

  pub pos_offset-Goes : (s : State sc.Scanner) → Goes sc (pos_offset sc) s
  unfolding pos_offset
  pos_offset-Goes s = record { run = Later-refl sc s }

  pos_offset-eq :
      (s : State sc.Scanner)
      → Ends sc (λ pos t. Later sc s t × (pos ≡ sc.offset s.scanner)) (pos_offset sc) s
  unfolding pos_offset
  pos_offset-eq s = record { run = (Later-refl sc s, refl) }

  guess_bool-Goes : (s : State sc.Scanner) → Goes sc (guess_bool sc) s
  unfolding guess_bool
  guess_bool-Goes s = Goes-bind sc (operate-Goes law (scan_op true) s) λ tok t _.
      Ends-if sc (is_ident tok)
        (λ _. Goes-bind sc (token_text-Goes sc t) λ text u _. return-Goes sc _ u)
        (λ _. return-Goes sc none t)

  after_sign-Goes : (tok : Token) (s : State sc.Scanner) → Goes sc (after_sign sc tok) s
  unfolding after_sign
  after_sign-Goes tok s =
      Ends-if sc (is_rune b'-' tok) (λ _. operate-Goes law (scan_op true) s)
        (λ _. return-Goes sc tok s)

  guess_number-Goes : (s : State sc.Scanner) → Goes sc (guess_number sc) s
  unfolding guess_number
  guess_number-Goes s = Goes-bind sc (operate-Goes law (scan_op true) s) λ first t _.
      Goes-bind sc (after_sign-Goes first t) λ tok u _.
        Goes-bind sc (had_scan_error-Goes u) λ failed v _.
          Ends-if sc failed (λ _. return-Goes sc _ v)
            (λ _.
              Ends-if sc (is_int tok || is_float tok)
                (λ _.
                  Goes-with law _ (peek_no_space-Peeks law v) (λ follow w _ _. return-Goes sc _ w))
                (λ _. return-Goes sc _ v))

  -- What a guess within braces needs: that something of the text has been read.
  abbrev Inner : Parser sc.Scanner Argument → State sc.Scanner → Type 0
  Inner first s = (t : State sc.Scanner) → Reads sc s t → Goes sc first t

  guess_braces-Goes :
      (raw : Text) (first : Parser sc.Scanner Argument) (s t : State sc.Scanner)
      → Inner first s
      → Later sc s t
      → 0 < remaining sc t
      → Goes sc (guess_braces sc raw first) t
  unfolding guess_braces
  guess_braces-Goes raw first s t inner l m =
      Goes-then_reading sc (scan-Advances law true t m) λ u r.
        Goes-with law _ (peek_no_space-Peeks law u) λ hint v k _.
          Goes-bind sc (inner v (Later-Reads sc l (Reads-Later sc r k))) λ item w _.
            Ends-if sc (is_string item)
              (λ _. Goes-then sc (parse_string-Goes raw true ArgumentValue.unset w) λ x _.
                Goes-bind sc (operate-Goes law (scan_op true) x) λ token y _. return-Goes sc _ y)
              (λ _. return-Goes sc _ w)

  brace_not_eof : (hint : Token) → is_rune b'{' hint ≡ true → is_eof hint ≡ false
  brace_not_eof hint h = ground arith

  guessed-Goes :
      (m : Parser sc.Scanner Argument) (s : State sc.Scanner)
      → Goes sc m s
      → Goes sc (guessed sc m) s
  guessed-Goes m s h = Goes-bind sc h λ a t _. return-Goes sc (some a) t

  look-Goes :
      (raw : Text) (first : Parser sc.Scanner Argument) (s : State sc.Scanner)
      → Inner first s
      → Goes sc (look sc raw first) s
  unfolding look
  look-Goes raw first s inner = Goes-with law _ (peek_no_space-Peeks law s) λ hint t l more.
      Ends-if sc (is_quote sc hint) (λ _. return-Goes sc _ t)
        (λ _.
          Ends-if sc (is_rune b'{' hint)
            (λ e.
              guessed-Goes _ t
                (guess_braces-Goes raw first s t inner l (more (brace_not_eof hint e))))
            (λ _.
              Ends-if sc (is_rune b't' hint || is_rune b'f' hint) (λ _. guess_bool-Goes t)
                (λ _. guessed-Goes _ t (guess_number-Goes t))))

  -- A guess goes on where the look on its own scanner ends.
  ended-Goes :
      (r : Run sc.Scanner (Option Argument)) (s : State sc.Scanner)
      → Ensures (λ _ _. Unit) r
      → Goes sc (ended sc r) s
  unfolding ended
  ended-Goes starved s h = absurd h
  ended-Goes panicked s h = record { run = tt }
  ended-Goes (done (some a) t) s h = record { run = Later-refl sc s }
  ended-Goes (done none t) s h = record {
    run = (Goes-then sc (report-Goes sc _ s) (λ u _. return-Goes sc _ u)).run;
  }

  -- Within braces, less of the text is left.
  shorter :
      (n : ℕ) (raw : Text) (t : State sc.Scanner)
      → length raw < suc n
      → Reads sc (fresh sc raw) t
      → length (drop (sc.offset t.scanner) raw) < n
  shorter n raw t h r =
      omega (arith, length-drop (sc.offset t.scanner) raw, law.start_size raw, r.fewer, r.same)

  guess_item-Goes :
      (n : ℕ) (raw : Text) (s : State sc.Scanner)
      → length (drop (sc.offset s.scanner) raw) < n
      → Goes sc (guess_item sc n raw) s
  unfolding guess_item
  guess_item-Goes zero raw s h = absurd (omega arith)
  guess_item-Goes (suc n) raw s h = Goes-with law _ (pos_offset-eq s) λ pos t l e.
      let rest : Text = drop pos raw in
      ended-Goes _ t
        (Ends-weaken sc _ _ _ _
          (look-Goes raw (guess_item sc n rest) (fresh sc rest)
            (λ u r. guess_item-Goes n rest u (shorter n rest u (rw e h) r)))
          (λ _ _ _. tt)).run

  with_legacy-Goes :
      (item : Argument) (r : Run sc.Scanner Token) (s : State sc.Scanner)
      → Ensures (λ _ _. Unit) r
      → Goes sc (with_legacy sc item r) s
  unfolding with_legacy
  with_legacy-Goes item starved s h = absurd h
  with_legacy-Goes item panicked s h = panic-Ends sc _ s
  with_legacy-Goes item (done tok t) s h = return-Goes sc _ s

  pub guess_type-Goes :
      (raw : Text) (allow_slice : Bool) (s : State sc.Scanner)
      → Goes sc (guess_type sc raw allow_slice) s
  unfolding guess_type
  guess_type-Goes raw allow_slice s =
      Goes-bind sc
        (guess_item-Goes (suc (length raw)) raw s
          (omega (arith, length-drop (sc.offset s.scanner) raw)))
        λ item t _. Goes-bind sc (pos_offset-Goes t) λ pos u _.
          Ends-if sc allow_slice
            (λ _.
              with_legacy-Goes item _ u
                (Ends-weaken sc _ _ _ _ (item_end-Goes (fresh sc (drop pos raw)))
                  (λ _ _ _. tt)).run)
            (λ _. return-Goes sc item u)
