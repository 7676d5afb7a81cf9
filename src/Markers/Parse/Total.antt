-- ===== src/Markers/Parse/Total.antt =====
-- `Argument.Parse` and `Definition.Parse` end for every input.
use controller_tools.Prelude.{ℕ, zero, suc, Bool, false, not, arith, if◌then◌else◌}
use controller_tools.Text.{Text}
use controller_tools.Prelude.Result.{Result, ok, err}
use controller_tools.Markers.Argument.{
  Argument, ArgumentType, argument, invalid, int, number, string, bool, any, raw, slice, map,
  TypeError,
}
use controller_tools.Markers.Scanner.{Scanning, IsScanning, State, Parser, remaining}
use controller_tools.Markers.Scanner.Laws.{Goes, Ends-if, Goes-bind, Goes-with, return-Goes}
use controller_tools.Markers.Guess.{ArgumentValue}
use controller_tools.Markers.Guess.Ends.{parse_string-Goes, guess_type-Goes}
use controller_tools.Markers.Guess.Kinds.{IsGuess, IsGuessedType, guess_type-IsGuess}
use controller_tools.Markers.Parse.{ItemParser, parse_with, parse_kind, point_to}
use controller_tools.Markers.Parse.Ends.{
  Below, parse_slice-Below, parse_map-Below, parse_raw-Goes, parse_number-Goes, parse_int-Goes,
  parse_bool-Goes, fails-Goes, parse_invalid-Goes,
}
use controller_tools.Markers.Parse.Marker.{parse_any, typed, parse_argument}

module _ {sc : Scanning} (law : IsScanning sc) where
  point_to-Goes :
      (p : Bool) (pointed plain : Parser sc.Scanner ArgumentValue) (s : State sc.Scanner)
      → Goes sc pointed s
      → Goes sc plain s
      → Goes sc (if p then point_to sc pointed else plain) s
  unfolding point_to
  point_to-Goes p pointed plain s h k =
      Ends-if sc p (λ _. Goes-bind sc h (λ v t _. return-Goes sc _ t)) (λ _. k)

  module _ (any_type : ItemParser sc.Scanner) (source : Text) (b : ℕ)
      (g : Below law b any_type) where
    mutual
      unfolding parse_with parse_kind

      with-Below : (a : Argument) → Below law b (parse_with sc any_type source a)
      with-Below (argument invalid o p) out in_slice s h = parse_invalid-Goes law out s
      with-Below (argument t o p) out in_slice s h =
          point_to-Goes p _ _ s (kind-Below t ArgumentValue.unset in_slice s h)
            (kind-Below t out in_slice s h)

      kind-Below : (t : ArgumentType) → Below law b (parse_kind sc any_type source t)
      kind-Below invalid out in_slice s h = parse_invalid-Goes law out s
      kind-Below int out in_slice s h = parse_int-Goes law out s
      kind-Below number out in_slice s h = parse_number-Goes law out s
      kind-Below string out in_slice s h = parse_string-Goes law source false out s
      kind-Below bool out in_slice s h = parse_bool-Goes law out s
      kind-Below any out in_slice s h = g out in_slice s h
      kind-Below raw out in_slice s h = parse_raw-Goes law source s
      kind-Below (slice item) out in_slice s h = parse_slice-Below law b _ (with-Below item) out s h
      kind-Below (map item) out in_slice s h =
          parse_map-Below law source b _ (with-Below item) out s (omega arith)

    -- A guessed type is parsed with one byte more, since its items of any type stand in maps.
    mutual
      unfolding parse_with parse_kind IsGuess IsGuessedType

      guess-Below : (a : Argument) → IsGuess a → Below law (suc b) (parse_with sc any_type source a)
      guess-Below (argument invalid o p) i out in_slice s h = parse_invalid-Goes law out s
      guess-Below (argument t o p) i out in_slice s h =
          point_to-Goes p _ _ s (guess_kind-Below t i ArgumentValue.unset in_slice s h)
            (guess_kind-Below t i out in_slice s h)

      guess_kind-Below :
          (t : ArgumentType) → IsGuessedType t → Below law (suc b) (parse_kind sc any_type source t)
      guess_kind-Below invalid i out in_slice s h = parse_invalid-Goes law out s
      guess_kind-Below int i out in_slice s h = parse_int-Goes law out s
      guess_kind-Below number i out in_slice s h = parse_number-Goes law out s
      guess_kind-Below string i out in_slice s h = parse_string-Goes law source false out s
      guess_kind-Below bool i out in_slice s h = parse_bool-Goes law out s
      guess_kind-Below any i out in_slice s h = absurd i
      guess_kind-Below raw i out in_slice s h = parse_raw-Goes law source s
      guess_kind-Below (slice item) i out in_slice s h =
          parse_slice-Below law (suc b) _ (guess-Below item i) out s h
      guess_kind-Below (map item) i out in_slice s h =
          parse_map-Below law source b _ (with-Below item) out s h

  typed-Goes :
      (parse : Argument → ItemParser sc.Scanner) (a : Argument) (r : Result TypeError Bool)
      (out : ArgumentValue) (s : State sc.Scanner)
      → ((v : ArgumentValue) → Goes sc (parse a v false) s)
      → Goes sc (typed sc parse a r out) s
  unfolding typed
  typed-Goes parse a (err e) out s h = fails-Goes law _ out s
  typed-Goes parse a (ok made) out s h = h _

  parse_any-Below : (n : ℕ) (source : Text) → Below law n (parse_any sc n source)
  unfolding parse_any
  parse_any-Below zero source out in_slice s h = absurd (omega arith)
  parse_any-Below (suc n) source out in_slice s h =
      Goes-with law _
        (guess_type-IsGuess sc source (not in_slice) s (guess_type-Goes law source _ s))
        λ guess t l i. typed-Goes _ guess _ out t (λ v.
          guess-Below (parse_any sc n source) source n (parse_any-Below n source) guess i v false t
            (omega (arith, l.less)))

  pub parse_argument-Goes :
      (a : Argument) (source : Text) (out : ArgumentValue) (s : State sc.Scanner)
      → Goes sc (parse_argument sc a source out) s
  unfolding parse_argument
  parse_argument-Goes a source out s =
      let n : ℕ = suc (remaining sc s) in
      record {
        run =
            (with-Below (parse_any sc n source) source n (parse_any-Below n source) a out false s
              (omega arith)).run;
      }
