-- ===== src/Markers/Scanner.antt =====
-- What pkg/markers/parse.go does with a `scanner.Scanner` of text/scanner: the scanner is a parameter,
-- by its operations, and a parser is a function of the scanner and of the errors reported so far.

pub mod Laws
use controller_tools.Prelude.{
  ℕ, zero, suc, ◌-◌, ◌≡◌, ◌≤◌, ◌<◌, Bool, true, false, ◌||◌, Option, List, [], ◌∷◌, ◌++◌, ◌==◌,
  if◌then◌else◌, length,
}
use controller_tools.Text.{Text}
use controller_tools.Markers.Argument.{TypeError}

-- `rune`, with the constants of text/scanner.
pub data Token : Type 0 where
  eof ident int_token float_token char_token string_token raw_string_token comment : Token
  rune : ℕ → Token

-- `tok == 'c'`
abbrev pub is_rune : ℕ → Token → Bool
is_rune c (rune d) = d == c
is_rune c _ = false

abbrev pub is_eof : Token → Bool
is_eof eof = true
is_eof _ = false

abbrev pub is_ident : Token → Bool
is_ident ident = true
is_ident _ = false

abbrev pub is_int : Token → Bool
is_int int_token = true
is_int _ = false

abbrev pub is_float : Token → Bool
is_float float_token = true
is_float _ = false

abbrev pub is_quoted : Token → Bool
is_quoted string_token = true
is_quoted raw_string_token = true
is_quoted _ = false

-- The messages of pkg/markers/parse.go, and those of the scanner.
pub data Message : Type 0 where
  lexical expected not_ident bad_string bad_float bad_integer not_number not_bool : Text → Message
  not_comma cannot_set unknown_argument extra_arguments missing_argument : Text → Message
  invalid_type : Message
  bad_type : TypeError → Message

-- `ScannerError`, with the offset of the position.
pub record ScannerError : Type 0 where
  pub message : Message
  pub position : ℕ

-- What an operation returns: the rune, the scanner afterwards, and the errors that it reports.
pub record Reply (S : Type 0) : Type 0 where
  pub token : Token
  pub after : S
  pub reports : List ScannerError

-- `Peek`, `Next`, and `Scan` with or without the modes `ScanInts` and `ScanFloats`.
pub data Operation : Type 0 where
  peek_op next_op : Operation
  scan_op : Bool → Operation

-- The package text/scanner. `size` is the length of the source, `offset` is that of `Pos()`, and
-- `token_start` that of `Position`. With it, the conversions of strconv, whose numbers are bits.
pub record Scanning : Type 1 where
  pub Scanner : Type 0
  pub start : Text → Scanner
  pub run : Operation → Scanner → Reply Scanner
  pub size : Scanner → ℕ
  pub offset : Scanner → ℕ
  pub token_start : Scanner → ℕ
  pub token_text : Scanner → Text
  pub unquote : Text → Option Text
  pub atoi : Text → Option ℕ
  pub parse_float : Text → Option ℕ

-- What its documentation says: an operation goes on in one source, `Peek` finds a rune only before
-- the end, and before the end `Next` and `Scan` read something;
-- at the end `Scan` returns `EOF`.
pub record IsScanning (sc : Scanning) : Type 0 where
  pub start_size : (t : Text) → sc.size (sc.start t) ≡ length t
  pub same_size : (o : Operation) (s : sc.Scanner) → sc.size (sc.run o s).after ≡ sc.size s
  pub forward : (o : Operation) (s : sc.Scanner) → sc.offset s ≤ sc.offset (sc.run o s).after
  pub peek_before_end :
      (s : sc.Scanner)
      → is_eof (sc.run peek_op s).token ≡ false
      → sc.offset (sc.run peek_op s).after < sc.size s
  pub next_reads :
      (s : sc.Scanner) → sc.offset s < sc.size s → sc.offset s < sc.offset (sc.run next_op s).after
  pub scan_reads :
      (numbers : Bool) (s : sc.Scanner)
      → sc.offset s < sc.size s
      → sc.offset s < sc.offset (sc.run (scan_op numbers) s).after
  pub scan_at_end :
      (numbers : Bool) (s : sc.Scanner)
      → sc.size s ≤ sc.offset s
      → is_eof (sc.run (scan_op numbers) s).token ≡ true

-- The scanner with the errors that its callback has collected.
pub record State (S : Type 0) : Type 0 where
  pub scanner : S
  pub errors : List ScannerError

-- A run ends with a value, or by a panic; `starved` is one whose fuel is too little.
pub data Run (S A : Type 0) : Type 0 where
  starved panicked : Run S A
  done : A → State S → Run S A

abbrev pub Parser : Type 0 → Type 0 → Type 0
Parser S A = State S → Run S A

infixl 5 ◌>>=◌ ◌>>◌
unfoldable pub ◌>>=◌ : {S A B : Type 0} → Parser S A → (A → Parser S B) → Parser S B
◌>>=◌ m f s = elim (m s) [ starved ↦ starved | panicked ↦ panicked | done a t ↦ f a t ]

unfoldable pub ◌>>◌ : {S A B : Type 0} → Parser S A → Parser S B → Parser S B
(m >> k) s = elim (m s) [ starved ↦ starved | panicked ↦ panicked | done a t ↦ k t ]

-- The fuel is used up.
unfoldable pub starve : {S A : Type 0} → Parser S A
starve s = starved

unfoldable pub panic : {S A : Type 0} → Parser S A
panic s = panicked

unfoldable pub return : {S A : Type 0} → A → Parser S A
return a s = done a s

module _ (sc : Scanning) where
  -- The bytes that are not read.
  abbrev pub remaining : State sc.Scanner → ℕ
  remaining s = sc.size s.scanner - sc.offset s.scanner

  abbrev pub reply : Reply sc.Scanner → State sc.Scanner → Run sc.Scanner Token
  reply r s = done r.token (record { scanner = r.after; errors = s.errors ++ r.reports })

  unfoldable pub operate : Operation → Parser sc.Scanner Token
  operate o s = reply (sc.run o s.scanner) s

  -- `scanner.Error(scanner, msg)`
  unfoldable pub report : (Text → Message) → Parser sc.Scanner Unit
  report m s = done tt (record s {
    errors =
        s.errors
        ++ record { message = m (sc.token_text s.scanner); position = sc.token_start s.scanner }
          ∷ [];
  })

  unfoldable pub token_text : Parser sc.Scanner Text
  token_text s = done (sc.token_text s.scanner) s

  unfoldable pub token_start : Parser sc.Scanner ℕ
  token_start s = done (sc.token_start s.scanner) s

  abbrev pub scan : Parser sc.Scanner Token
  scan = operate (scan_op true)

  abbrev pub peek : Parser sc.Scanner Token
  peek = operate peek_op

  -- `expect`, by the test of the token and its description.
  unfoldable pub expect : (Token → Bool) → Text → Parser sc.Scanner Bool
  expect test err_desc = do
    tok ← scan
    if test tok then return true else (do report (λ got. expected (err_desc ++ got)); return false)

  -- Membership in `scanner.Whitespace`: tab, line feed, carriage return and space.
  abbrev pub is_space : Token → Bool
  is_space (rune c) = c == 9 || c == 10 || c == 13 || c == 32
  is_space _ = false

  -- The loop of `peekNoSpace`.
  unfoldable pub skip_space : ℕ → Parser sc.Scanner Token
  skip_space zero = starve
  skip_space (suc n) = do
    hint ← peek
    if is_space hint then (do operate next_op; skip_space n) else return hint

  unfoldable pub peek_no_space : Parser sc.Scanner Token
  unfolding skip_space
  peek_no_space s = skip_space (suc (remaining s)) s
