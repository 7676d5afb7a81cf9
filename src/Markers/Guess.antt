-- ===== src/Markers/Guess.antt =====
-- `parseString` and `guessType` of pkg/markers/parse.go.
pub mod Kinds
pub mod Ends
use controller_tools.Prelude.{
  ℕ, zero, suc, ◌+◌, ◌-◌, Bool, true, false, ◌&&◌, ◌||◌, Option, none, some, List, [], ◌∷◌, ◌++◌,
  if◌then◌else◌, is_empty, length,
}
use controller_tools.Text.{Text, codes, eq_text}
use controller_tools.Crd.Describe.{take}
use controller_tools.Markers.Argument.{
  Argument, ArgumentType, argument, argument_type, invalid, int, number, string, bool, any, slice,
  map,
}
use controller_tools.Markers.Scanner.{
  Token, is_rune, is_eof, is_ident, is_int, is_float, is_quoted, Message, bad_string, not_ident,
  Operation, scan_op, Scanning, State, Run, starved, panicked, done, Parser, ◌>>=◌, ◌>>◌, return,
  starve, panic, remaining, operate, report, token_text, token_start, scan, peek_no_space,
}

-- The values that arguments are set to: an integer and a number by their bits, a map by its entries
-- in the order of first insertion, and `unset` for the zero value of any type.
mutual
  pub data ArgumentValue : Type 0 where
    unset : ArgumentValue
    text : Text → ArgumentValue
    integer float : ℕ → ArgumentValue
    boolean : Bool → ArgumentValue
    raw_arguments : Text → ArgumentValue
    pointer_to : ArgumentValue → ArgumentValue
    slice_of : Values → ArgumentValue
    map_of : Entries → ArgumentValue

  pub data Values : Type 0 where
    nil : Values
    cons : ArgumentValue → Values → Values

  pub data Entries : Type 0 where
    no_entries : Entries
    entry : Text → ArgumentValue → Entries → Entries

-- `raw[n:]`
unfoldable pub drop : ℕ → Text → Text
drop zero t = t
drop (suc n) [] = []
drop (suc n) (b ∷ t) = drop n t

abbrev pub plain : ArgumentType → Argument
plain t = argument t false false

abbrev pub is_string : Argument → Bool
is_string (argument string _ _) = true
is_string _ = false

module _ (sc : Scanning) where
  -- `isDelim`
  abbrev pub is_delim : Bool → Token → Bool
  is_delim in_map hint =
      is_rune b',' hint
      || is_rune b';' hint
      || is_rune b'}' hint
      || is_eof hint
      || (in_map && is_rune b':' hint)

  -- The loop over the tokens of a bare string. `scan_op false` is a scan without numbers.
  unfoldable pub skip_bare : Bool → ℕ → Parser sc.Scanner Unit
  skip_bare in_map zero = starve
  skip_bare in_map (suc n) = do
    hint ← peek_no_space sc
    if is_delim in_map hint then return tt else (do operate sc (scan_op false); skip_bare in_map n)

  unfoldable pub skip_to_delim : Bool → Parser sc.Scanner Unit
  unfolding skip_bare
  skip_to_delim in_map s = skip_bare in_map (suc (remaining sc s)) s

  unfoldable pub unquoted : Option Text → ArgumentValue → Text → Parser sc.Scanner ArgumentValue
  unquoted none out t = do report sc bad_string; return out
  unquoted (some val) out t = return (text val)

  -- `parseString`; `out` is what the target holds before, and the result what it holds after.
  unfoldable pub parse_string : Text → Bool → ArgumentValue → Parser sc.Scanner ArgumentValue
  parse_string raw in_map out = do
    tok ← operate sc (scan_op false)
    if is_quoted tok then (do t ← token_text sc; unquoted (sc.unquote t) out t) else (do
      start ← token_start sc
      skip_to_delim in_map
      last ← token_start sc
      t ← token_text sc
      return (text (take (last + length t - start) (drop start raw))))

  -- The loop that looks for the end of an item.
  unfoldable pub find_end : ℕ → Parser sc.Scanner Token
  find_end zero = starve
  find_end (suc n) = do
    tok ← scan sc
    if is_rune b',' tok || is_eof tok || is_rune b';' tok then return tok else find_end n

  unfoldable pub item_end : Parser sc.Scanner Token
  unfolding find_end
  item_end s = find_end (suc (remaining sc s)) s

  -- `scanner.Pos().Offset`, `hadScanError`
  unfoldable pub pos_offset : Parser sc.Scanner ℕ
  pos_offset s = done (sc.offset s.scanner) s

  unfoldable pub had_scan_error : Parser sc.Scanner Bool
  had_scan_error s = if is_empty s.errors then done false s else done true s

  abbrev pub is_quote : Token → Bool
  is_quote hint = is_rune b'"' hint || is_rune b'\'' hint || is_rune b'`' hint

  -- After an open brace, with a guess for what comes next.
  unfoldable pub guess_braces : Text → Parser sc.Scanner Argument → Parser sc.Scanner Argument
  guess_braces raw first_item = do
    scan sc
    hint ← peek_no_space sc
    first ← first_item
    if is_string first
        then (do
          parse_string raw true unset
          token ← scan sc
          return (
              plain
                (if is_rune b':' token || is_rune b'}' hint then map (plain any) else slice first)))
        else return (plain (slice first))

  -- `none` is "a token that looked like an ident, but was not".
  unfoldable pub guess_bool : Parser sc.Scanner (Option Argument)
  guess_bool = do
    tok ← scan sc
    if is_ident tok
        then (do
          t ← token_text sc
          return (
              some (
                plain (
                  if eq_text t (codes "true") || eq_text t (codes "false") then bool else string))))
        else return none

  unfoldable pub after_sign : Token → Parser sc.Scanner Token
  after_sign tok = if is_rune b'-' tok then scan sc else return tok

  unfoldable pub guess_number : Parser sc.Scanner Argument
  guess_number = do
    first ← scan sc
    tok ← after_sign first
    failed ← had_scan_error
    if failed
        then return (plain string)
        else if is_int tok || is_float tok
        then (do
          follow ← peek_no_space sc
          return (
              plain (
                if is_rune b',' follow
                  || is_rune b';' follow
                  || is_eof follow
                  || is_rune b'}' follow
                then (if is_int tok then int else number)
                else string)))
        else return (plain string)

  abbrev pub guessed : Parser sc.Scanner Argument → Parser sc.Scanner (Option Argument)
  guessed m = do a ← m; return (some a)

  -- What the second scanner sees; the recursive guess is given.
  unfoldable pub look : Text → Parser sc.Scanner Argument → Parser sc.Scanner (Option Argument)
  look raw first_item = do
    hint ← peek_no_space sc
    if is_quote hint
        then return (some (plain string))
        else if is_rune b'{' hint
        then guessed (guess_braces raw first_item)
        else if is_rune b't' hint || is_rune b'f' hint
        then guess_bool
        else guessed guess_number

  unfoldable pub ended : Run sc.Scanner (Option Argument) → Parser sc.Scanner Argument
  ended starved s = starved
  ended panicked s = panicked
  ended (done (some a) t) s = done a s
  ended (done none t) s = (do report sc not_ident; return (plain invalid)) s

  abbrev pub fresh : Text → State sc.Scanner
  fresh t = record { scanner = sc.start t; errors = [] }

  -- `guessType` without slices, which leaves the scanner where it is. The fuel is used by a guess
  -- within braces.
  unfoldable pub guess_item : ℕ → Text → Parser sc.Scanner Argument
  guess_item zero raw = starve
  guess_item (suc n) raw = do
    pos ← pos_offset
    ended (look raw (guess_item n (drop pos raw)) (fresh (drop pos raw)))

  unfoldable pub with_legacy : Argument → Run sc.Scanner Token → Parser sc.Scanner Argument
  with_legacy item starved = starve
  with_legacy item panicked = panic
  with_legacy item (done tok t) = return (if is_rune b';' tok then plain (slice item) else item)

  -- `guessType`
  unfoldable pub guess_type : Text → Bool → Parser sc.Scanner Argument
  guess_type raw allow_slice = do
    item ← guess_item (suc (length raw)) raw
    pos ← pos_offset
    if allow_slice then with_legacy item (item_end (fresh (drop pos raw))) else return item
