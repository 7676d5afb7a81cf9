-- ===== src/Markers/Parse/Complete.antt =====
-- `Definition.Parse` ends, and what a strict definition's `Parse` has set if it returns no error.
use mathlib.Core.Bool.{Bool-set}
use controller_tools.Prelude.{
  All-perm, subst, ◌≡◌, ◌≢◌, refl, Bool, true, false, ◌||◌, Option, none, some, List, [], ◌∷◌,
  arith, if◌then◌else◌, is_empty, All, Bool-cases, inl, inr,
}
use controller_tools.Rbac.Rule.Laws.{IsOrder}
use controller_tools.Text.{eq_text_iff, Text, eq_text, mem}
use controller_tools.Markers.Argument.{Argument, optional}
use controller_tools.Markers.Definition.{Definition, Fields}
use controller_tools.Markers.Scanner.{
  missing_argument, ScannerError, is_eof, Scanning, IsScanning, State, Run, starved, panicked, done,
  return, scan_op, report,
}
use controller_tools.Markers.Scanner.Laws.{
  token_start-Goes, operate-Goes, then-bind, Later, Later-trans, Later-refl, Goes, Ends, Ends-if,
  Ends-bind, Ends-weaken, Ends-return, Goes-bind, return-Goes, report-Goes, Ensures,
}
use controller_tools.Markers.Guess.{ArgumentValue}
use controller_tools.Markers.Parse.Fields.{
  sets, Assigned, IfClean, clean_before, report-fails, parse_fields-Ends,
}
use controller_tools.Markers.Parse.Marker.{
  parse_from, parse_split, parse_marker, parse_fields, field_text, parse_marker, maybe_err_list,
  finish, collect, check_missing, is_given, parse_fields, check_end, Output, Parsed,
}
use controller_tools.Markers.Name.{MarkerName, split_marker}

-- The output has the fields of all arguments that are not optional.
abbrev pub SetsAll : Definition → List (Text × ArgumentValue) → Fields → Type 0
SetsAll d values fs = All (λ f. (sets d values f.0 || optional f.1) ≡ true) fs

module _ {sc : Scanning} (law : IsScanning sc) where
  check_end-Goes : (source : Text) (s : State sc.Scanner) → Goes sc (check_end sc source) s
  unfolding check_end
  check_end-Goes source s = Goes-bind sc (operate-Goes law (scan_op true) s) λ tok t _.
      Goes-bind sc (token_start-Goes sc t)
        λ pos u _. Ends-if sc (is_eof tok) (λ _. return-Goes sc tt u) (λ _. report-Goes sc _ u)

  -- The strict check is silent only if every field is given.
  abbrev Given : List Text → Fields → Type 0
  Given seen fs = All (λ f. is_given seen f ≡ true) fs

  check_one-Ends :
      (seen : List Text) (f : Text × Argument) (s : State sc.Scanner)
      → Ends sc
          (λ _ t. Later sc s t × IfClean law t (is_given seen f ≡ true))
          (if is_given seen f then return tt else report sc (λ got. missing_argument f.0))
          s
  check_one-Ends seen f s =
      Ends-if sc (is_given seen f) (λ e. Ends-return sc tt s (Later-refl sc s, λ _. e))
        (λ _. Ends-weaken sc _ _ _ s (report-fails law _ s) (λ _ t q. (q.0, λ c. cc q.1)))

  sets_seen :
      (d : Definition) (values : List (Text × ArgumentValue)) (name : Text) (seen : List Text)
      → All (λ n. sets d values n ≡ true) seen
      → mem name seen ≡ true
      → sets d values name ≡ true
  unfolding mem
  sets_seen d values name [] a h = cc h
  sets_seen d values name (n ∷ seen) a h = elim (Bool-cases (eq_text name n)) [
    | inl e ↦ rw ((eq_text_iff name n).0 e) a.0
    | inr e ↦ sets_seen d values name seen a.1 (rw e at h)
  ]

  check_missing-Ends :
      (seen : List Text) (fs : Fields) (s : State sc.Scanner)
      → Ends sc (λ _ t. Later sc s t × IfClean law t (Given seen fs)) (check_missing sc seen fs) s
  unfolding check_missing
  check_missing-Ends seen [] s = Ends-return sc tt s (Later-refl sc s, λ _. tt)
  check_missing-Ends seen (f ∷ fs) s = rw (then-bind sc _ (check_missing sc seen fs)) (
      Ends-bind sc _ _ _ _ s (check_one-Ends seen f s) (λ _ t q.
        Ends-weaken sc _ _ _ t (check_missing-Ends seen fs t)
          (λ _ u r. (Later-trans sc q.0 r.0, λ c. (q.1 (clean_before law r.0 c), r.1 c)))))

  all-Given :
      (d : Definition) (out : Output) (fs : Fields)
      → Assigned d out
      → Given out.seen fs
      → SetsAll d out.values fs
  all-Given d out [] a g = tt
  all-Given d out ((name, arg) ∷ fs) a g =
      (either _ _ _ g.0 (λ m. sets_seen d out.values name out.seen a m), all-Given d out fs a g.1)
    where
      either : (m o z : Bool) → (m || o) ≡ true → (m ≡ true → z ≡ true) → (z || o) ≡ true
      either m o z h k = ground arith

  collect-Ends :
      (P : List (Text × ArgumentValue) → Type 0) (out : Output) (s : State sc.Scanner)
      → IfClean law s (P out.values)
      → Ends sc (λ p t. p.failed ≡ none → P p.values) (collect sc out) s
  unfolding collect maybe_err_list
  collect-Ends P out s i = record { run = no_errors s.errors i }
    where
      no_errors :
          (es : List ScannerError)
          → (is_empty es ≡ true → P out.values)
          → maybe_err_list es ≡ none
          → P out.values
      no_errors [] i h = i refl
      no_errors (e ∷ es) i h = cc h

  collect-Stops : (out : Output) (s : State sc.Scanner) → Ends sc (λ _ _. Unit) (collect sc out) s
  unfolding collect
  collect-Stops out s = record { run = tt }

  finish-Ends :
      (order : Fields → Fields) (d : Definition) (source : Text) (r : Output × Bool)
      (s : State sc.Scanner)
      → d.strict ≡ true
      → IfClean law s ((r.1 ≡ true) × Assigned d r.0)
      → Ends sc
          (λ p t. p.failed ≡ none → SetsAll d p.values (order d.fields))
          (finish sc order d source r)
          s
  unfolding finish
  finish-Ends order d source (out, false) s strict i =
      collect-Ends (λ values. SetsAll d values (order d.fields)) out s (λ c. cc (i c).0)
  finish-Ends order d source (out, true) s strict i = rw (then-bind sc (check_end sc source) _) (
      Ends-bind sc _ _ (check_end sc source) _ s (check_end-Goes source s) λ _ t l.
        rw
          (then-bind sc (if d.strict then check_missing sc out.seen (order d.fields) else return tt)
            (collect sc out))
          (Ends-bind sc _ _ _ _ t
            (Ends-if sc d.strict (λ _. check_missing-Ends out.seen (order d.fields) t)
              (λ e. absurd (not_both d.strict strict e)))
            (λ _ u q.
              collect-Ends (λ values. SetsAll d values (order d.fields)) out u
                (λ c.
                  all-Given d out (order d.fields)
                    (i (clean_before law l (clean_before law q.0 c))).1 (q.1 c)))))
    where
      not_both : (b : Bool) → b ≡ true → b ≡ false → ⊥
      not_both b h k = cc

  -- Strict or not, the end is reached.
  finish-Stops :
      (order : Fields → Fields) (d : Definition) (source : Text) (r : Output × Bool)
      (s : State sc.Scanner)
      → Ends sc (λ _ _. Unit) (finish sc order d source r) s
  unfolding finish
  finish-Stops order d source (out, false) s = collect-Stops out s
  finish-Stops order d source (out, true) s = rw (then-bind sc (check_end sc source) _) (
      Ends-bind sc _ _ (check_end sc source) _ s (check_end-Goes source s) λ _ t l.
        rw
          (then-bind sc (if d.strict then check_missing sc out.seen (order d.fields) else return tt)
            (collect sc out))
          (Ends-bind sc (λ _ _. Unit) _ _ _ t
            (Ends-if sc d.strict
              (λ _.
                Ends-weaken sc _ _ _ t (check_missing-Ends out.seen (order d.fields) t)
                  (λ _ _ _. tt))
              (λ e. Ends-return sc tt t tt))
            (λ _ u q. collect-Stops out u)))

  not_starved : (r : Run sc.Scanner Parsed) → Ensures (λ _ _. Unit) r → r ≢ starved
  not_starved starved h = absurd h
  not_starved panicked h = λ e. cc e
  not_starved (done p t) h = λ e. cc e

  parse_from-Stops :
      (order : Fields → Fields) (d : Definition) (source : Text) (s : State sc.Scanner)
      → Ends sc (λ _ _. Unit) (parse_from sc order d source) s
  unfolding parse_from
  parse_from-Stops order d source s =
      Ends-bind sc _ _ (parse_fields sc d source) _ s (parse_fields-Ends law d source s)
        (λ r t _. finish-Stops order d source r t)

  split_ends :
      (order : Fields → Fields) (d : Definition) (custom : Option (MarkerName → Parsed))
      (m : Option MarkerName)
      → parse_split sc order d custom m ≢ starved
  unfolding parse_split
  split_ends order d custom none = λ e. cc e
  split_ends order d (some parser) (some m) = λ e. cc e
  split_ends order d none (some m) = not_starved _ (parse_from-Stops order d (field_text d m) _).run

  -- For every scanner that behaves as documented, `Definition.Parse` ends on every text: no loop and no
  -- nesting of arguments needs more fuel than it is given.
  pub parse_marker-ends :
      (order : Fields → Fields) (d : Definition) (custom : Option (MarkerName → Parsed))
      (marker : Text)
      → parse_marker sc order d custom marker ≢ starved
  unfolding parse_marker
  parse_marker-ends order d custom marker = split_ends order d custom (split_marker marker)

  parse_from-Ends :
      (order : Fields → Fields) (d : Definition) (source : Text) (s : State sc.Scanner)
      → d.strict ≡ true
      → Ends sc
          (λ p t. p.failed ≡ none → SetsAll d p.values (order d.fields))
          (parse_from sc order d source)
          s
  unfolding parse_from
  parse_from-Ends order d source s strict =
      Ends-bind sc _ _ (parse_fields sc d source) _ s (parse_fields-Ends law d source s)
        (λ r t q. finish-Ends order d source r t strict q.1)

  split_complete :
      (order : Fields → Fields) (d : Definition) (m : Option MarkerName) {p : Parsed}
      {t : State sc.Scanner}
      → d.strict ≡ true
      → parse_split sc order d none m ≡ done p t
      → p.failed ≡ none
      → SetsAll d p.values (order d.fields)
  unfolding parse_split
  split_complete order d none strict e f = cc e
  split_complete order d (some m) strict e f =
      subst (Ensures (λ p t. p.failed ≡ none → SetsAll d p.values (order d.fields))) e
        (parse_from-Ends order d (field_text d m) _ strict).run f

  -- For a definition that is strict and whose output has no `ParseMarker` of its own, if `Parse` returns
  -- no error, then the output's field is set for each argument of the definition that is not optional,
  -- in whatever order the check goes through them.
  pub parse_marker_complete :
      (order : Fields → Fields) (d : Definition) (marker : Text) {p : Parsed} {t : State sc.Scanner}
      → IsOrder order
      → d.strict ≡ true
      → parse_marker sc order d none marker ≡ done p t
      → p.failed ≡ none
      → SetsAll d p.values d.fields
  unfolding parse_marker
  parse_marker_complete order d marker o strict e f =
      All-perm _ (λ x. Bool-set _ _) (o d.fields)
        (split_complete order d (split_marker marker) strict e f)
