-- ===== src/Markers/Parse/Marker.antt =====
-- The case `AnyType` of `parse`, and `Definition.Parse` of pkg/markers/parse.go, with `MaybeErrList` of
-- pkg/loader/errors.go. An output type's own `ParseMarker` is a parameter, as is the order of the loop
-- over the fields of a definition.
use controller_tools.Prelude.{
  ℕ, zero, suc, ◌+◌, Bool, true, false, not, ◌&&◌, ◌||◌, Option, none, some, List, [], ◌∷◌, ◌++◌,
  if◌then◌else◌, is_empty, length, leb,
}
use controller_tools.Prelude.Assoc.{lookup, put}
use controller_tools.Prelude.Result.{Result, ok, err}
use controller_tools.Text.{Text, codes, eq_text, mem}
use controller_tools.Markers.Argument.{
  Argument, argument, optional, slice, map, TypeError, ReflectType, GoFields, end, field, struct,
  make_slice_type, make_map_type,
}
use controller_tools.Markers.Definition.{
  Definition, Fields, anonymous_field, empty, argument_or_zero,
}
use controller_tools.Markers.Name.{MarkerName, split_marker}
use controller_tools.Markers.Scanner.{
  is_rune, is_eof, is_ident, bad_type, cannot_set, unknown_argument, extra_arguments,
  missing_argument, ScannerError, Scanning, Run, panicked, done, Parser, ◌>>=◌, ◌>>◌, return,
  starve, panic, remaining, report, token_text, token_start, scan, peek, expect,
}
use controller_tools.Markers.Guess.{ArgumentValue, unset, drop, guess_type}
use controller_tools.Markers.Parse.{ItemParser, parse_with, loop}

-- Whether a value of another type is made for a guessed argument, and the error if there is none.
unfoldable pub made : Result TypeError ReflectType → Result TypeError Bool
made (ok t) = ok true
made (err e) = err e

unfoldable pub needs_type : Argument → Result TypeError Bool
unfolding made make_slice_type make_map_type
needs_type (argument (slice item) o p) = made (make_slice_type item)
needs_type (argument (map item) o p) = made (make_map_type item)
needs_type _ = ok false

-- `out.FieldByName(name)` with `CanSet`: whether there is an exported field of the name. It panics if
-- the type is no struct.
unfoldable pub has_field : Text → GoFields → Bool
unfolding eq_text
has_field name end = false
has_field name (field n exported marker_tag type rest) =
    exported && eq_text n name || has_field name rest

unfoldable pub can_set : Text → ReflectType → Option Bool
unfolding has_field
can_set name (struct fields) = some (has_field name fields)
can_set name _ = none

-- The fields of the output that are set, and the arguments that were seen.
pub record Output : Type 0 where
  pub values : List (Text × ArgumentValue)
  pub seen : List Text

-- What `Parse` returns: the output's fields, or under the empty name a value that is no struct, and
-- the errors, none for a nil error.
pub record Parsed : Type 0 where
  pub values : List (Text × ArgumentValue)
  pub failed : Option (List ScannerError)

-- `MaybeErrList`
unfoldable pub maybe_err_list : List ScannerError → Option (List ScannerError)
maybe_err_list [] = none
maybe_err_list (e ∷ es) = some (e ∷ es)

abbrev pub value_or_unset : Option ArgumentValue → ArgumentValue
value_or_unset none = unset
value_or_unset (some v) = v

abbrev pub no_output : Output
no_output = record { values = []; seen = [] }

abbrev pub text_or_empty : Option Text → Text
text_or_empty none = []
text_or_empty (some t) = t

-- Whether the strict check finds nothing to say of a field.
abbrev pub is_given : List Text → Text × Argument → Bool
is_given seen (name, a) = mem name seen || optional a

-- The text of the fields: the last part of the name is the name of a field, if there are fields.
unfoldable pub field_text : Definition → MarkerName → Text
field_text d m =
    if not (anonymous_field d) && not (empty d) && leb (length m.name + 1) (length m.anonymous_name)
    then drop (length m.name + 1) m.anonymous_name ++ (codes "=" ++ m.rest_fields)
    else m.rest_fields

module _ (sc : Scanning) where
  unfoldable pub typed :
      (Argument → ItemParser sc.Scanner)
      → Argument
      → Result TypeError Bool
      → ArgumentValue
      → Parser sc.Scanner ArgumentValue
  typed parse a (err e) out = do report sc (λ got. bad_type e); return out
  typed parse a (ok made) out = parse a (if made then unset else out) false

  -- The fuel is used by an argument of any type within another such argument.
  unfoldable pub parse_any : ℕ → Text → ItemParser sc.Scanner
  parse_any zero source out in_slice = starve
  parse_any (suc n) source out in_slice = do
    guess ← guess_type sc source (not in_slice)
    typed (parse_with sc (parse_any n source) source) guess (needs_type guess) out

  -- `Argument.Parse`
  unfoldable pub parse_argument : Argument → Text → ArgumentValue → Parser sc.Scanner ArgumentValue
  parse_argument a source out s =
      parse_with sc (parse_any (suc (remaining sc s)) source) source a out false s

  unfoldable pub had_error : Parser sc.Scanner Bool
  had_error s = if is_empty s.errors then done false s else done true s

  -- Sets the field of a struct, if it can be set; the test says whether it was.
  unfoldable pub set_output_field :
      Option Bool
      → Text
      → Parser sc.Scanner ArgumentValue
      → Output
      → Parser sc.Scanner (Output × Bool)
  set_output_field none name m out = panic
  set_output_field (some false) name m out = do
    report sc (λ got. cannot_set name)
    return (out, false)
  set_output_field (some true) name m out = do
    v ← m
    return (record out { values = put eq_text name v out.values }, true)

  -- The branch of an anonymous argument; the test says that `Parse` goes on.
  unfoldable pub parse_anonymous : Definition → Text → Parser sc.Scanner (Output × Bool)
  parse_anonymous d source =
      let name = text_or_empty (lookup eq_text [] d.field_names) in
      let target = if is_empty name then some true else can_set name d.output in
      set_output_field target name
        (parse_argument (argument_or_zero (lookup eq_text [] d.fields)) source unset)
        (record { values = []; seen = [] ∷ [] })

  -- An argument after its equals sign, by what the maps hold at its name.
  unfoldable pub set_named :
      Definition
      → Text
      → Text
      → Output
      → Option Text
      → Option Argument
      → Parser sc.Scanner (Output × Bool)
  set_named d source arg_name out (some field_name) (some a) =
      set_output_field (can_set field_name d.output) field_name
        (parse_argument a source (value_or_unset (lookup eq_text field_name out.values)))
        (record out { seen = arg_name ∷ out.seen })
  set_named d source arg_name out _ _ = do
    report sc (λ got. unknown_argument arg_name)
    return (out, false)

  -- The name of an argument and its equals sign; `none` is a break.
  unfoldable pub argument_name : Parser sc.Scanner (Option Text)
  argument_name = do
    found ← expect sc is_ident (codes "argument name")
    if found
        then (do
          name ← token_text sc
          equals ← expect sc (is_rune b'=') (codes "equals")
          return (if equals then some name else none))
        else return none

  unfoldable pub named_argument :
      Definition → Text → Output → Option Text → Parser sc.Scanner (Output × Bool)
  named_argument d source out none = return (out, false)
  named_argument d source out (some name) =
      set_named d source name out (lookup eq_text name d.field_names) (lookup eq_text name d.fields)

  -- Whether the loop goes on after an argument.
  unfoldable pub next_argument : Bool → Parser sc.Scanner Bool
  next_argument false = return false
  next_argument true = do
    failed ← had_error
    if failed then return false else (do
      tok ← peek sc
      if is_eof tok then return false else expect sc (is_rune b',') (codes "comma"))

  -- The loop over the named arguments.
  unfoldable pub parse_named : Definition → Text → ℕ → Output → Parser sc.Scanner Output
  parse_named d source zero out = starve
  parse_named d source (suc n) out = do
    name ← argument_name
    step ← named_argument d source out name
    more ← next_argument step.1
    if more then parse_named d source n step.0 else return step.0

  -- The branch of a definition with named fields.
  unfoldable pub named_fields : Definition → Text → Parser sc.Scanner (Output × Bool)
  named_fields d source = if empty d then return (no_output, true) else (do
    tok ← peek sc
    if is_eof tok
        then return (no_output, true)
        else (do out ← loop sc (λ n. parse_named d source n no_output); return (out, true)))

  unfoldable pub parse_fields : Definition → Text → Parser sc.Scanner (Output × Bool)
  parse_fields d source =
      if anonymous_field d
      then (do
        tok ← peek sc
        if is_eof tok then named_fields d source else parse_anonymous d source)
      else named_fields d source

  unfoldable pub check_end : Text → Parser sc.Scanner Unit
  check_end source = do
    tok ← scan sc
    pos ← token_start sc
    if is_eof tok then return tt else report sc (λ got. extra_arguments (drop pos source))

  unfoldable pub check_missing : List Text → Fields → Parser sc.Scanner Unit
  check_missing seen [] = return tt
  check_missing seen (f ∷ fs) = do
    if is_given seen f then return tt else report sc (λ got. missing_argument f.0)
    check_missing seen fs

  unfoldable pub collect : Output → Parser sc.Scanner Parsed
  collect out s = done (record { values = out.values; failed = maybe_err_list s.errors }) s

  unfoldable pub finish :
      (Fields → Fields) → Definition → Text → Output × Bool → Parser sc.Scanner Parsed
  finish order d source (out, false) = collect out
  finish order d source (out, true) = do
    check_end source
    if d.strict then check_missing out.seen (order d.fields) else return tt
    collect out

  unfoldable pub parse_from : (Fields → Fields) → Definition → Text → Parser sc.Scanner Parsed
  parse_from order d source = do out ← parse_fields d source; finish order d source out

  unfoldable pub parse_split :
      (Fields → Fields)
      → Definition
      → Option (MarkerName → Parsed)
      → Option MarkerName
      → Run sc.Scanner Parsed
  parse_split order d custom none = panicked
  parse_split order d (some parser) (some m) =
      done (parser m) (record { scanner = sc.start []; errors = [] })
  parse_split order d none (some m) =
      parse_from order d (field_text d m)
        (record { scanner = sc.start (field_text d m); errors = [] })

  -- `Definition.Parse`
  unfoldable pub parse_marker :
      (Fields → Fields) → Definition → Option (MarkerName → Parsed) → Text → Run sc.Scanner Parsed
  parse_marker order d custom raw = parse_split order d custom (split_marker raw)
