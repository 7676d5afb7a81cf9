-- ===== src/Markers/Parse/Tests.antt =====
-- A scanner of words and single bytes, and runs of `Definition.Parse` with it.
use mathlib.Core.List.Perm
use controller_tools.Markers.Parse.Complete.{SetsAll, parse_marker-ends, parse_marker_complete}
use controller_tools.Crd.Describe.{take}
use controller_tools.Prelude.Assoc.{lookup, put}
use controller_tools.Markers.Parse.{loop, parse_with, parse_kind, point_to}
use controller_tools.Prelude.{
  ℕ, ◌+◌, ◌≡◌, ◌≢◌, ◌≤◌, ◌<◌, refl, Bool, true, false, ◌&&◌, Option, none, some, [], ◌∷◌, arith,
  if◌then◌else◌, length, leb,
}
use controller_tools.Text.{mem, Text, codes, eq_text}
use controller_tools.Markers.Scanner.{
  ◌>>=◌, ◌>>◌, operate, expect, return, token_text, token_start, skip_space, peek_no_space, report,
  starve, missing_argument, State, done, Run, Token, eof, ident, rune, Operation, peek_op, next_op,
  scan_op, Reply, Scanning, IsScanning, is_eof, starved,
}
use controller_tools.Markers.Argument.{
  ArgumentType, argument, ReflectType, no_tag, field, end, pointer_to,
}
use controller_tools.Markers.Definition.{anonymous_field, empty, Definition, Fields, describes_type}
use controller_tools.Markers.Name.{split_marker}
use controller_tools.Markers.Guess.{
  ArgumentValue, drop, parse_string, skip_to_delim, skip_bare, text,
}
use controller_tools.Markers.Parse.Marker.{
  named_fields, field_text, parse_named, argument_name, named_argument, set_named, set_output_field,
  parse_argument, next_argument, had_error, finish, check_end, check_missing, collect,
  maybe_err_list, can_set, has_field, Parsed, parse_marker, parse_split, parse_from, parse_fields,
}

record Reader : Type 0 where
  read : ℕ
  rest : Text
  from : ℕ
  word : Text

abbrev is_letter : ℕ → Bool
is_letter b = leb b'a' b && leb b b'z'

-- The letters at the start of a text, and what follows them.
letters : Text → Text × Text
letters [] = ([], [])
letters (b ∷ t) = let (w, r) = letters t in if is_letter b then (b ∷ w, r) else ([], b ∷ t)

letters-length : (t : Text) → length (letters t).0 + length (letters t).1 ≡ length t
unfolding letters
letters-length [] = omega arith
letters-length (b ∷ t) = ground (arith, letters-length t)

abbrev reply : Token → Reader → Reply Reader
reply t r = record { token = t; after = r; reports = [] }

read_from : Reader → Text → Operation → Reply Reader
unfolding letters
read_from r [] o = reply eof (record r { from = r.read; word = [] })
read_from r (b ∷ t) peek_op = reply (rune b) r
read_from r (b ∷ t) next_op = reply (rune b) (record r { read = r.read + 1; rest = t })
read_from r (b ∷ t) (scan_op numbers) =
    let (w, rest) = letters t in
    if is_letter b
    then reply ident
        (record { read = r.read + (1 + length w); rest = rest; from = r.read; word = b ∷ w })
    else reply (rune b) (record { read = r.read + 1; rest = t; from = r.read; word = b ∷ [] })

abbrev words : Scanning
words = record {
  Scanner = Reader;
  start = λ t. record { read = 0; rest = t; from = 0; word = [] };
  run = λ o r. read_from r r.rest o;
  size = λ r. r.read + length r.rest;
  offset = λ r. r.read;
  token_start = λ r. r.from;
  token_text = λ r. r.word;
  unquote = λ t. none;
  atoi = λ t. none;
  parse_float = λ t. none;
}

same_size :
    (r : Reader) (t : Text) (o : Operation)
    → r.rest ≡ t
    → (read_from r t o).after.read + length (read_from r t o).after.rest ≡ r.read + length r.rest
unfolding read_from
same_size r [] o e = refl
same_size r (b ∷ t) peek_op e = refl
same_size r (b ∷ t) next_op e = rw e (omega arith)
same_size r (b ∷ t) (scan_op numbers) e = rw e (ground (arith, letters-length t))

forward : (r : Reader) (t : Text) (o : Operation) → r.read ≤ (read_from r t o).after.read
unfolding read_from
forward r [] o = omega arith
forward r (b ∷ t) peek_op = omega arith
forward r (b ∷ t) next_op = omega arith
forward r (b ∷ t) (scan_op numbers) = ground arith

peek_before :
    (r : Reader) (t : Text)
    → r.rest ≡ t
    → is_eof (read_from r t peek_op).token ≡ false
    → (read_from r t peek_op).after.read < r.read + length r.rest
unfolding read_from
peek_before r [] e h = cc h
peek_before r (b ∷ t) e h = rw e (omega arith)

next_reads :
    (r : Reader) (t : Text)
    → r.rest ≡ t
    → r.read < r.read + length r.rest
    → r.read < (read_from r t next_op).after.read
unfolding read_from
next_reads r [] e h = absurd (omega (arith, rw e at h))
next_reads r (b ∷ t) e h = omega arith

scan_reads :
    (r : Reader) (t : Text) (numbers : Bool)
    → r.rest ≡ t
    → r.read < r.read + length r.rest
    → r.read < (read_from r t (scan_op numbers)).after.read
unfolding read_from
scan_reads r [] numbers e h = absurd (omega (arith, rw e at h))
scan_reads r (b ∷ t) numbers e h = ground arith

at_end :
    (r : Reader) (t : Text) (numbers : Bool)
    → r.rest ≡ t
    → r.read + length r.rest ≤ r.read
    → is_eof (read_from r t (scan_op numbers)).token ≡ true
unfolding read_from
at_end r [] numbers e h = refl
at_end r (b ∷ t) numbers e h = absurd (omega (arith, rw e at h))

words-IsScanning : IsScanning words
words-IsScanning = record {
  start_size = λ t. omega arith;
  same_size = λ o r. same_size r r.rest o refl;
  forward = λ o r. forward r r.rest o;
  peek_before_end = λ r. peek_before r r.rest refl;
  next_reads = λ r. next_reads r r.rest refl;
  scan_reads = λ numbers r. scan_reads r r.rest numbers refl;
  scan_at_end = λ numbers r. at_end r r.rest numbers refl;
}

-- A struct with a field Kind, which a marker sets as kind, and an optional field Nick.
abbrev two_fields : Definition
two_fields = record {
  output = ReflectType.struct (
      field (codes "Kind") true no_tag ReflectType.string
        (field (codes "Nick") true no_tag (pointer_to ReflectType.string) end));
  name = codes "a";
  target = describes_type;
  fields =
      (codes "kind", argument ArgumentType.string false false)
      ∷ (codes "nick", argument ArgumentType.string true true)
      ∷ [];
  field_names = (codes "kind", codes "Kind") ∷ (codes "nick", codes "Nick") ∷ [];
  strict = true;
}

abbrev in_order : Fields → Fields
in_order fs = fs

abbrev parsed_of : Run Reader Parsed → Option Parsed
parsed_of (done p t) = some p
parsed_of _ = none

parse_words : Text → Run Reader Parsed
unfolding parse_marker parse_split split_marker parse_from parse_fields ◌>>=◌ ◌>>◌ anonymous_field
    named_fields empty operate read_from field_text drop loop parse_named argument_name expect
    return token_text named_argument set_named set_output_field parse_argument parse_with parse_kind
    point_to parse_string skip_to_delim skip_bare peek_no_space skip_space token_start next_argument
    had_error finish check_end check_missing collect maybe_err_list report can_set has_field eq_text
    lookup put letters take starve mem
parse_words = parse_marker words in_order two_fields none

-- `+a:kind=x` sets the field; `+a:nick=x` has the error that the other argument is missing.
kind_set :
    parsed_of (parse_words (codes "+a:kind=x"))
    ≡ some (record { values = (codes "Kind", text (codes "x")) ∷ []; failed = none })
unfolding parse_words
kind_set = refl

kind_missing :
    parsed_of (parse_words (codes "+a:nick=x"))
    ≡ some (record {
      values = (codes "Nick", ArgumentValue.pointer_to (text (codes "x"))) ∷ [];
      failed = some (record { message = missing_argument (codes "kind"); position = 6 } ∷ []);
    })
unfolding parse_words
kind_missing = refl

parse_marker-ends_example :
    parse_marker words in_order two_fields none (codes "+a:kind=x") ≢ starved
parse_marker-ends_example =
    parse_marker-ends words-IsScanning in_order two_fields none (codes "+a:kind=x")

abbrev last_state : Run Reader Parsed → State Reader
last_state (done p t) = t
last_state _ = record { scanner = words.start []; errors = [] }

kind_done :
    parse_marker words in_order two_fields none (codes "+a:kind=x")
    ≡ done
        (record { values = (codes "Kind", text (codes "x")) ∷ []; failed = none })
        (last_state (parse_marker words in_order two_fields none (codes "+a:kind=x")))
unfolding parse_words
kind_done = refl

parse_marker_complete_example :
    SetsAll two_fields ((codes "Kind", text (codes "x")) ∷ []) two_fields.fields
parse_marker_complete_example =
    parse_marker_complete words-IsScanning in_order two_fields (codes "+a:kind=x")
      {p = record { values = (codes "Kind", text (codes "x")) ∷ []; failed = none }}
      {t = last_state (parse_marker words in_order two_fields none (codes "+a:kind=x"))} Perm.refl
      refl kind_done refl
