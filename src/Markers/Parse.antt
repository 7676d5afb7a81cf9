-- ===== src/Markers/Parse.antt =====
-- `Argument.Parse` of pkg/markers/parse.go, with `parseSlice` and `parseMap`. A parser of a value takes
-- what the target holds and returns what it holds afterwards, as `castAndSet` is given it: the
-- conversion to the target's type is not modelled.
pub mod Marker
pub mod Ends
pub mod Total
pub mod Fields
pub mod Complete
mod Tests
use controller_tools.Prelude.{
  ℕ, zero, suc, Bool, true, false, not, ◌||◌, Option, none, some, List, [], ◌++◌, if◌then◌else◌,
}
use controller_tools.Prelude.Result.{Result, ok, err}
use controller_tools.Text.{Text, codes, eq_text}
use controller_tools.Markers.Argument.{
  Argument, ArgumentType, argument, invalid, int, number, string, bool, any, raw, slice, map,
  TypeError, ReflectType, make_slice_type, make_map_type,
}
use controller_tools.Markers.Scanner.{
  Token, is_rune, is_eof, is_ident, is_int, is_float, invalid_type, not_number, bad_float,
  bad_integer, not_bool, not_comma, bad_type, Scanning, State, Parser, ◌>>=◌, ◌>>◌, return, starve,
  remaining, report, token_text, scan, peek, expect, peek_no_space,
}
use controller_tools.Markers.Guess.{
  ArgumentValue, unset, text, integer, float, boolean, raw_arguments, pointer_to, slice_of, map_of,
  Values, nil, cons, Entries, no_entries, entry, drop, parse_string, pos_offset, guess_type,
}

-- `reflect.Append(resSlice, elem)`
unfoldable pub append_value : Values → ArgumentValue → Values
append_value nil v = cons v nil
append_value (cons w vs) v = cons w (append_value vs v)

-- `resMap.SetMapIndex(key, elem)`
unfoldable pub set_entry : Text → ArgumentValue → Entries → Entries
unfolding eq_text
set_entry k v no_entries = entry k v no_entries
set_entry k v (entry j w m) = if eq_text k j then entry j v m else entry j w (set_entry k v m)

-- The string that a key is, which is empty at first.
abbrev pub key_text : ArgumentValue → Text
key_text (text t) = t
key_text _ = []

-- The parser of a slice's or a map's items, with the item that was parsed before, and whether the item
-- stands in a slice.
abbrev pub ItemParser : Type 0 → Type 0
ItemParser S = ArgumentValue → Bool → Parser S ArgumentValue

-- What a loop over items ends with: `none` is an early return.
abbrev pub set_if : (Values → ArgumentValue) → ArgumentValue → Option Values → ArgumentValue
set_if f out none = out
set_if f out (some vs) = f vs

module _ (sc : Scanning) where
  -- The loop within braces.
  unfoldable pub braced_items :
      ItemParser sc.Scanner → ℕ → ArgumentValue → Values → Parser sc.Scanner (Option Values)
  braced_items item zero elem res = starve
  braced_items item (suc n) elem res = do
    hint ← peek_no_space sc
    if is_rune b'}' hint || is_eof hint then return (some res) else (do
      v ← item elem true
      tok ← peek_no_space sc
      if is_rune b'}' tok then return (some (append_value res v)) else (do
        more ← expect sc (is_rune b',') (codes "comma")
        if more then braced_items item n v (append_value res v) else return none))

  unfoldable pub end_braced : ArgumentValue → Option Values → Parser sc.Scanner ArgumentValue
  end_braced out none = return out
  end_braced out (some vs) = do
    closed ← expect sc (is_rune b'}') (codes "close curly brace")
    return (if closed then slice_of vs else out)

  -- The loop of the legacy form.
  unfoldable pub legacy_items :
      ItemParser sc.Scanner → ℕ → ArgumentValue → Values → Parser sc.Scanner (Option Values)
  legacy_items item zero elem res = starve
  legacy_items item (suc n) elem res = do
    hint ← peek_no_space sc
    if is_rune b',' hint || is_rune b'}' hint || is_eof hint then return (some res) else (do
      v ← item elem true
      tok ← peek_no_space sc
      if is_rune b',' tok || is_rune b'}' tok || is_eof tok
          then return (some (append_value res v))
          else (do
            scan sc
            if is_rune b';' tok
                then legacy_items item n v (append_value res v)
                else (do report sc not_comma; return none)))

  -- The fuel of a loop is enough for a round with each byte that is left.
  unfoldable pub loop : {A : Type 0} → (ℕ → Parser sc.Scanner A) → Parser sc.Scanner A
  loop body s = body (suc (remaining sc s)) s

  -- `parseSlice`
  unfoldable pub parse_slice :
      ItemParser sc.Scanner → ArgumentValue → Parser sc.Scanner ArgumentValue
  parse_slice item out = do
    hint ← peek_no_space sc
    if is_rune b'{' hint
        then (do scan sc; items ← loop (λ n. braced_items item n unset nil); end_braced out items)
        else (do
          items ← loop (λ n. legacy_items item n unset nil)
          return (set_if slice_of out items))

  -- The loop of `parseMap`, with the key and the item that were parsed before.
  unfoldable pub map_entries :
      Text
      → ItemParser sc.Scanner
      → ℕ
      → ArgumentValue
      → ArgumentValue
      → Entries
      → Parser sc.Scanner (Option Entries)
  map_entries source item zero key elem res = starve
  map_entries source item (suc n) key elem res = do
    hint ← peek_no_space sc
    if is_rune b'}' hint || is_eof hint then return (some res) else (do
      k ← parse_string sc source true key
      colon ← expect sc (is_rune b':') (codes "colon")
      if colon
          then (do
            v ← item elem false
            tok ← peek_no_space sc
            if is_rune b'}' tok then return (some (set_entry (key_text k) v res)) else (do
              more ← expect sc (is_rune b',') (codes "comma")
              if more
                  then map_entries source item n k v (set_entry (key_text k) v res)
                  else return none))
          else return none)

  unfoldable pub end_map : ArgumentValue → Option Entries → Parser sc.Scanner ArgumentValue
  end_map out none = return out
  end_map out (some es) = do
    closed ← expect sc (is_rune b'}') (codes "close curly brace")
    return (if closed then map_of es else out)

  -- `parseMap`
  unfoldable pub parse_map :
      Text → ItemParser sc.Scanner → ArgumentValue → Parser sc.Scanner ArgumentValue
  parse_map source item out = do
    opened ← expect sc (is_rune b'{') (codes "open curly brace")
    if opened
        then (do
          entries ← loop (λ n. map_entries source item n unset unset no_entries)
          end_map out entries)
        else return out

  -- The loop that consumes everything.
  unfoldable pub consume : ℕ → Parser sc.Scanner Unit
  consume zero = starve
  consume (suc n) = do tok ← scan sc; if is_eof tok then return tt else consume n

  unfoldable pub parse_raw : Text → Parser sc.Scanner ArgumentValue
  parse_raw source = do pos ← pos_offset sc; loop consume; return (raw_arguments (drop pos source))

  -- Eats a minus sign.
  unfoldable pub parse_sign : Parser sc.Scanner Text
  parse_sign = do
    next_char ← peek sc
    if is_rune b'-' next_char then (do scan sc; return (codes "-")) else return []

  unfoldable pub convert :
      Option ℕ
      → (ℕ → ArgumentValue)
      → ArgumentValue
      → Parser sc.Scanner Unit
      → Parser sc.Scanner ArgumentValue
  convert none set out failure = do failure; return out
  convert (some n) set out failure = return (set n)

  unfoldable pub parse_number : ArgumentValue → Parser sc.Scanner ArgumentValue
  parse_number out = do
    sign ← parse_sign
    tok ← scan sc
    t ← token_text sc
    if is_float tok || is_int tok
        then convert (sc.parse_float (sign ++ t)) float out (report sc bad_float)
        else (do report sc not_number; return out)

  unfoldable pub parse_int : ArgumentValue → Parser sc.Scanner ArgumentValue
  parse_int out = do
    sign ← parse_sign
    found ← expect sc is_int (codes "integer")
    if found
        then (do
          t ← token_text sc
          convert (sc.atoi (sign ++ t)) integer out (report sc bad_integer))
        else return out

  unfoldable pub parse_bool : ArgumentValue → Parser sc.Scanner ArgumentValue
  parse_bool out = do
    found ← expect sc is_ident (codes "true or false")
    t ← token_text sc
    if found
        then if eq_text t (codes "true")
          then return (boolean true)
          else if eq_text t (codes "false")
          then return (boolean false)
          else (do report sc not_bool; return out)
        else return out

  unfoldable pub parse_invalid : ArgumentValue → Parser sc.Scanner ArgumentValue
  parse_invalid out = do report sc (λ got. invalid_type); return out

  unfoldable pub point_to : Parser sc.Scanner ArgumentValue → Parser sc.Scanner ArgumentValue
  point_to m = do v ← m; return (pointer_to v)

  -- `parse`, with the parser of arguments of any type. A pointer is set to a new zero value first.
  module _ (any_type : ItemParser sc.Scanner) (source : Text) where
    unfoldable mutual
      pub parse_with : Argument → ItemParser sc.Scanner
      parse_with (argument invalid o p) out in_slice = parse_invalid out
      parse_with (argument t o p) out in_slice =
          if p then point_to (parse_kind t unset in_slice) else parse_kind t out in_slice

      pub parse_kind : ArgumentType → ItemParser sc.Scanner
      parse_kind invalid out in_slice = parse_invalid out
      parse_kind int out in_slice = parse_int out
      parse_kind number out in_slice = parse_number out
      parse_kind string out in_slice = parse_string sc source false out
      parse_kind bool out in_slice = parse_bool out
      parse_kind any out in_slice = any_type out in_slice
      parse_kind raw out in_slice = parse_raw source
      parse_kind (slice item) out in_slice = parse_slice (parse_with item) out
      parse_kind (map item) out in_slice = parse_map source (parse_with item) out
