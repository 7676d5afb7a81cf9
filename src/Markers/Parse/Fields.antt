-- ===== src/Markers/Parse/Fields.antt =====
-- The arguments that the loops of `Definition.Parse` have seen have their fields set, unless there is an
-- error.
use controller_tools.Prelude.{
  subst, ℕ, zero, suc, ◌≡◌, ◌<◌, refl, sym, Bool, true, false, Option, none, some, List, [], ◌∷◌,
  ◌++◌, arith, is_empty, All, Bool-cases, inl, inr,
}
use controller_tools.Prelude.Assoc.{lookup, put}
use controller_tools.Text.{eq_text_refl, eq_text_iff, Text, eq_text}
use controller_tools.Markers.Argument.{Argument}
use controller_tools.Markers.Definition.{Definition, anonymous_field, empty}
use controller_tools.Markers.Scanner.{
  is_ident, peek, ScannerError, Message, is_eof, is_rune, Scanning, IsScanning, State, Parser, ◌>>◌,
  return, remaining, peek_op, report,
}
use controller_tools.Markers.Scanner.Laws.{
  token_text-Goes, expect-Progress, operate-Goes, expect-Goes, Progress, then-bind, panic-Ends,
  Later, Later-trans, Later-refl, Goes, Ends, Ends-if, Ends-bind, Ends-weaken, Ends-return,
  Goes-bind, return-Goes, report-Goes,
}
use controller_tools.Markers.Guess.{ArgumentValue}
use controller_tools.Markers.Parse.{loop}
use controller_tools.Markers.Parse.Total.{parse_argument-Goes}
use controller_tools.Markers.Parse.Marker.{
  no_output, parse_fields, parse_named, had_error, argument_name, next_argument, named_fields,
  Output, text_or_empty, set_output_field, parse_anonymous, set_named, named_argument,
}

abbrev pub is_some {ℓ} : {A : Type ℓ} → Option A → Bool
is_some none = false
is_some (some a) = true

-- Whether the field of the output is set that an argument stands for.
abbrev pub sets : Definition → List (Text × ArgumentValue) → Text → Bool
sets d values name =
    is_some (lookup eq_text (text_or_empty (lookup eq_text name d.field_names)) values)

-- The arguments that were seen have their fields set.
abbrev pub Assigned : Definition → Output → Type 0
Assigned d out = All (λ name. sets d out.values name ≡ true) out.seen

lookup-put_keeps :
    (k j : Text) (v : ArgumentValue) (m : List (Text × ArgumentValue))
    → is_some (lookup eq_text k m) ≡ true
    → is_some (lookup eq_text k (put eq_text j v m)) ≡ true
unfolding lookup put
lookup-put_keeps k j v [] h = cc
lookup-put_keeps k j v ((i, w) ∷ m) h =
    ground (arith, lookup-put_keeps k j v m, eq_text_iff k i, eq_text_iff j i)

lookup-put_self :
    (k : Text) (v : ArgumentValue) (m : List (Text × ArgumentValue))
    → is_some (lookup eq_text k (put eq_text k v m)) ≡ true
unfolding lookup put
lookup-put_self k v [] = rw (eq_text_refl k) refl
lookup-put_self k v ((i, w) ∷ m) = ground (arith, lookup-put_self k v m)

put-Assigned :
    (d : Definition) (values : List (Text × ArgumentValue)) (j : Text) (v : ArgumentValue)
    (seen : List Text)
    → All (λ name. sets d values name ≡ true) seen
    → All (λ name. sets d (put eq_text j v values) name ≡ true) seen
put-Assigned d values j v [] h = tt
put-Assigned d values j v (n ∷ seen) h =
    (lookup-put_keeps _ j v values h.0, put-Assigned d values j v seen h.1)

empty_before :
    (xs ys : List ScannerError)
    → (is_empty xs ≡ false → is_empty ys ≡ false)
    → is_empty ys ≡ true
    → is_empty xs ≡ true
empty_before [] ys k h = refl
empty_before (x ∷ xs) ys k h = cc (k refl)

module _ {sc : Scanning} (law : IsScanning sc) where
  -- No error yet, so that all is well with the output.
  abbrev pub IfClean : State sc.Scanner → Type 0 → Type 0
  IfClean s P = is_empty s.errors ≡ true → P

  pub clean_before :
      {s t : State sc.Scanner} → Later sc s t → is_empty t.errors ≡ true → is_empty s.errors ≡ true
  clean_before {s} {t} l h = empty_before s.errors t.errors l.kept h

  some_error : (xs : List ScannerError) (e : ScannerError) → is_empty (xs ++ e ∷ []) ≡ false
  some_error [] e = refl
  some_error (x ∷ xs) e = refl

  pub report-fails :
      (m : Text → Message) (s : State sc.Scanner)
      → Ends sc (λ _ t. Later sc s t × (is_empty t.errors ≡ false)) (report sc m) s
  unfolding report
  report-fails m s = record { run = ((report-Goes sc m s).run, some_error s.errors _) }

  -- A reported error, after which anything may be claimed of a clean state.
  fails-Ends :
      {A : Type 0} (P : A → Type 0) (m : Text → Message) (a : A) (s : State sc.Scanner)
      → Ends sc (λ b t. Later sc s t × IfClean t (P b)) (report sc m >> return a) s
  fails-Ends P m a s = rw (then-bind sc (report sc m) (return a)) (
      Ends-bind sc _ _ (report sc m) _ s (report-fails m s)
        (λ _ t q. Ends-return sc a t (q.0, λ h. cc q.1)))

  -- What `set_output_field` returns without an error.
  abbrev IsPut : Text → Output → Output × Bool → Type 0
  IsPut name out (o, b) =
      (b ≡ true)
      × ((v : ArgumentValue) × (o
            ≡ record { values = put eq_text name v out.values; seen = out.seen }))

  set_output_field-Ends :
      (target : Option Bool) (name : Text) (m : Parser sc.Scanner ArgumentValue) (out : Output)
      (s : State sc.Scanner)
      → Goes sc m s
      → Ends sc
          (λ r t. Later sc s t × IfClean t (IsPut name out r))
          (set_output_field sc target name m out)
          s
  unfolding set_output_field
  set_output_field-Ends none name m out s h = panic-Ends sc _ s
  set_output_field-Ends (some false) name m out s h = fails-Ends (IsPut name out) _ _ s
  set_output_field-Ends (some true) name m out s h =
      Ends-bind sc _ _ m _ s h (λ v t l. Ends-return sc _ t (l, λ _. (refl, (v, refl))))

  -- The output, with the arguments seen and set, unless there is an error.
  abbrev pub Fine : Definition → State sc.Scanner → Output → State sc.Scanner → Type 0
  Fine d s o t = Later sc s t × IfClean t (Assigned d o)

  -- One more argument is seen, whose field has been put.
  seen-Assigned :
      (d : Definition) (out : Output) (arg_name name : Text) (r : Output × Bool)
      → Assigned d out
      → text_or_empty (lookup eq_text arg_name d.field_names) ≡ name
      → IsPut name (record out { seen = arg_name ∷ out.seen }) r
      → Assigned d r.0
  seen-Assigned d out arg_name name (o, b) h e (_, (v, p)) =
      subst (Assigned d) (sym p)
        (rw e (lookup-put_self name v out.values), put-Assigned d out.values name v out.seen h)

  set_named-Ends :
      (d : Definition) (source arg_name : Text) (out : Output) (f : Option Text)
      (a : Option Argument) (s : State sc.Scanner)
      → lookup eq_text arg_name d.field_names ≡ f
      → IfClean s (Assigned d out)
      → Ends sc (λ r t. Fine d s r.0 t) (set_named sc d source arg_name out f a) s
  unfolding set_named
  set_named-Ends d source arg_name out (some name) (some a) s e i =
      Ends-weaken sc _ _ _ s
        (set_output_field-Ends _ name _ (record out { seen = arg_name ∷ out.seen }) s
          (parse_argument-Goes law a source _ s))
        (λ r t q. (
          q.0,
          λ h. seen-Assigned d out arg_name name r (i (clean_before q.0 h)) (rw e refl) (q.1 h),
        ))
  set_named-Ends d source arg_name out none a s e i = fails-Ends (λ r. Assigned d r.0) _ _ s
  set_named-Ends d source arg_name out (some name) none s e i =
      fails-Ends (λ r. Assigned d r.0) _ _ s

  named_argument-Ends :
      (d : Definition) (source : Text) (out : Output) (name : Option Text) (s : State sc.Scanner)
      → IfClean s (Assigned d out)
      → Ends sc (λ r t. Fine d s r.0 t) (named_argument sc d source out name) s
  unfolding named_argument
  named_argument-Ends d source out none s i = Ends-return sc _ s (Later-refl sc s, i)
  named_argument-Ends d source out (some name) s i = set_named-Ends d source name out _ _ s refl i

  argument_name-Goes : (s : State sc.Scanner) → Goes sc (argument_name sc) s
  unfolding argument_name
  argument_name-Goes s = Goes-bind sc (expect-Goes law is_ident _ s refl) λ found t _.
      Ends-if sc found
        (λ _. Goes-bind sc (token_text-Goes sc t) λ name u _.
          Goes-bind sc (expect-Goes law (is_rune b'=') _ u refl) λ equals v _. return-Goes sc _ v)
        (λ _. return-Goes sc none t)

  had_error-Goes : (s : State sc.Scanner) → Goes sc (had_error sc) s
  unfolding had_error
  had_error-Goes s = elim (Bool-cases (is_empty s.errors)) [
    | inl e ↦ record { run = rw e (Later-refl sc s) }
    | inr e ↦ record { run = rw e (Later-refl sc s) }
  ]

  Progress-after :
      {m : Parser sc.Scanner Bool} {s t : State sc.Scanner}
      → Later sc s t
      → Ends sc (Progress law t) m t
      → Ends sc (Progress law s) m t
  Progress-after {m} {s} {t} l h =
      Ends-weaken sc _ _ m t h (λ b u q. (Later-trans sc l q.0, λ e. omega (arith, l.less, q.1 e)))

  stops : (s t : State sc.Scanner) → Later sc s t → Ends sc (Progress law s) (return false) t
  stops s t l = Ends-return sc false t (l, λ e. cc e)

  next_argument-Progress :
      (b : Bool) (s : State sc.Scanner) → Ends sc (Progress law s) (next_argument sc b) s
  unfolding next_argument
  next_argument-Progress false s = stops s s (Later-refl sc s)
  next_argument-Progress true s =
      Ends-bind sc _ _ (had_error sc) _ s (had_error-Goes s) λ failed t l.
        Ends-if sc failed (λ _. stops s t l)
          (λ _. Ends-bind sc _ _ (peek sc) _ t (operate-Goes law peek_op t) λ tok u k.
            let m : Later sc s u = Later-trans sc l k in
            Ends-if sc (is_eof tok) (λ _. stops s u m)
              (λ _. Progress-after m (expect-Progress law (is_rune b',') _ u refl)))

  Fine-after :
      (d : Definition) {m : Parser sc.Scanner Output} {s t : State sc.Scanner}
      → Later sc s t
      → Ends sc (Fine d t) m t
      → Ends sc (Fine d s) m t
  Fine-after d {m} {s} {t} l h = Ends-weaken sc _ _ m t h (λ o u q. (Later-trans sc l q.0, q.1))

  parse_named-Ends :
      (d : Definition) (source : Text) (n : ℕ) (out : Output) (s : State sc.Scanner)
      → remaining sc s < n
      → IfClean s (Assigned d out)
      → Ends sc (Fine d s) (parse_named sc d source n out) s
  unfolding parse_named
  parse_named-Ends d source zero out s h i = absurd (omega arith)
  parse_named-Ends d source (suc n) out s h i =
      Ends-bind sc _ _ (argument_name sc) _ s (argument_name-Goes s) λ name t l.
        Ends-bind sc _ _ (named_argument sc d source out name) _ t
          (named_argument-Ends d source out name t (λ c. i (clean_before l c)))
          λ step u q.
            Ends-bind sc _ _ (next_argument sc step.1) _ u (next_argument-Progress step.1 u)
              λ more v r.
                let m : Later sc s v = Later-trans sc l (Later-trans sc q.0 r.0) in
                let kept : IfClean v (Assigned d step.0) = λ c. q.1 (clean_before r.0 c) in
                Ends-if sc more
                  (λ e. Fine-after d m (
                    parse_named-Ends d source n step.0 v (omega (arith, h, l.less, q.0.less, r.1 e))
                      kept))
                  (λ _. Ends-return sc step.0 v (m, kept))

  -- The output when the fields have been read; without an error, `Parse` goes on.
  abbrev pub Read : Definition → State sc.Scanner → Output × Bool → State sc.Scanner → Type 0
  Read d s r t = Later sc s t × IfClean t ((r.1 ≡ true) × Assigned d r.0)

  named_fields-Ends :
      (d : Definition) (source : Text) (s : State sc.Scanner)
      → Ends sc (Read d s) (named_fields sc d source) s
  unfolding named_fields loop
  named_fields-Ends d source s =
      Ends-if sc (empty d) (λ _. Ends-return sc _ s (Later-refl sc s, λ _. (refl, tt)))
        (λ _. Ends-bind sc _ _ (peek sc) _ s (operate-Goes law peek_op s) λ tok t l.
          Ends-if sc (is_eof tok) (λ _. Ends-return sc _ t (l, λ _. (refl, tt)))
            (λ _.
              Ends-bind sc _ _ (loop sc (λ n. parse_named sc d source n no_output)) _ t
                (record {
                  run =
                      (parse_named-Ends d source (suc (remaining sc t)) no_output t (omega arith)
                        (λ _. tt)).run;
                })
                (λ out u q. Ends-return sc _ u (Later-trans sc l q.0, λ c. (refl, q.1 c)))))

  Read-after :
      (d : Definition) {m : Parser sc.Scanner (Output × Bool)} {s t : State sc.Scanner}
      → Later sc s t
      → Ends sc (Read d t) m t
      → Ends sc (Read d s) m t
  Read-after d {m} {s} {t} l h = Ends-weaken sc _ _ m t h (λ o u q. (Later-trans sc l q.0, q.1))

  parse_anonymous-Ends :
      (d : Definition) (source : Text) (s : State sc.Scanner)
      → Ends sc (Read d s) (parse_anonymous sc d source) s
  unfolding parse_anonymous
  parse_anonymous-Ends d source s =
      Ends-weaken sc _ _ _ s
        (set_output_field-Ends _ _ _ (record { values = []; seen = [] ∷ [] }) s
          (parse_argument-Goes law _ source _ s))
        (λ r t q. (q.0, λ c. ((q.1 c).0, seen-Assigned d no_output [] _ r tt refl (q.1 c))))

  pub parse_fields-Ends :
      (d : Definition) (source : Text) (s : State sc.Scanner)
      → Ends sc (Read d s) (parse_fields sc d source) s
  unfolding parse_fields
  parse_fields-Ends d source s =
      Ends-if sc (anonymous_field d)
        (λ _. Ends-bind sc _ _ (peek sc) _ s (operate-Goes law peek_op s) λ tok t l.
          Ends-if sc (is_eof tok) (λ _. Read-after d l (named_fields-Ends d source t))
            (λ _. Read-after d l (parse_anonymous-Ends d source t)))
        (λ _. named_fields-Ends d source s)
