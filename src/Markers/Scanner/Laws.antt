-- ===== src/Markers/Scanner/Laws.antt =====
-- What the parsers of markers keep: they go forward in their source and never drop an error. With it,
-- the loop of `peekNoSpace` ends.
use controller_tools.Prelude.{
  ℕ, zero, suc, ◌≡◌, ◌≤◌, ◌<◌, refl, ◌∙◌, Bool, true, false, List, [], ◌∷◌, ◌++◌, arith,
  if◌then◌else◌, is_empty,
}
use native.Mathlib.Decide.{dec_lt}
use controller_tools.Text.{Text}
use controller_tools.Markers.Scanner.{
  Token, eof, rune, is_eof, ScannerError, Message, Operation, peek_op, next_op, scan_op, Scanning,
  IsScanning, State, Run, starved, panicked, panic, done, Parser, ◌>>=◌, ◌>>◌, return, remaining,
  operate, expected, report, token_text, token_start, expect, is_space, skip_space, peek_no_space,
  scan, peek,
}

-- A run is not starved, and if it ends with a value, then as said.
abbrev pub Ensures : {S A : Type 0} → (A → State S → Type 0) → Run S A → Type 0
Ensures Q starved = ⊥
Ensures Q panicked = Unit
Ensures Q (done a t) = Q a t

pub has_more : (xs ys : List ScannerError) → is_empty xs ≡ false → is_empty (xs ++ ys) ≡ false
has_more [] ys h = cc
has_more (x ∷ xs) ys h = refl

module _ (sc : Scanning) where
  -- `t` is later than `s`, at the same source.
  pub record Later (s t : State sc.Scanner) : Type 0 where
    pub less : remaining sc t ≤ remaining sc s
    pub same : sc.size t.scanner ≡ sc.size s.scanner
    pub kept : is_empty s.errors ≡ false → is_empty t.errors ≡ false

  -- Later, and something has been read.
  pub record Reads (s t : State sc.Scanner) : Type 0 where
    pub fewer : remaining sc t < remaining sc s
    pub same : sc.size t.scanner ≡ sc.size s.scanner
    pub kept : is_empty s.errors ≡ false → is_empty t.errors ≡ false

  pub Later-refl : (s : State sc.Scanner) → Later s s
  Later-refl s = record { less = omega arith; same = refl; kept = λ h. h }

  pub Later-trans : {s t u : State sc.Scanner} → Later s t → Later t u → Later s u
  Later-trans a b = record {
    less = omega arith;
    same = b.same ∙ a.same;
    kept = λ h. b.kept (a.kept h);
  }

  pub Reads-Later : {s t u : State sc.Scanner} → Reads s t → Later t u → Reads s u
  Reads-Later a b = record {
    fewer = omega arith;
    same = b.same ∙ a.same;
    kept = λ h. b.kept (a.kept h);
  }

  pub Later-Reads : {s t u : State sc.Scanner} → Later s t → Reads t u → Reads s u
  Later-Reads a b = record {
    fewer = omega arith;
    same = b.same ∙ a.same;
    kept = λ h. b.kept (a.kept h);
  }

  pub Reads-weaken : {s t : State sc.Scanner} → Reads s t → Later s t
  Reads-weaken a = record { less = omega arith; same = a.same; kept = a.kept }

module _ (sc : Scanning) where
  -- The parser is not starved at `s`, and what it returns is as said.
  pub record Ends {A : Type 0} (Q : A → State sc.Scanner → Type 0) (m : Parser sc.Scanner A)
      (s : State sc.Scanner) : Type 0 where
    pub run : Ensures Q (m s)

  abbrev pub Goes : {A : Type 0} → Parser sc.Scanner A → State sc.Scanner → Type 0
  Goes m s = Ends (λ _ t. Later sc s t) m s

  abbrev pub Advances : {A : Type 0} → Parser sc.Scanner A → State sc.Scanner → Type 0
  Advances m s = Ends (λ _ t. Reads sc s t) m s

  pub report-Goes : (m : Text → Message) (s : State sc.Scanner) → Goes (report sc m) s
  unfolding report
  report-Goes m s = record {
    run = record { less = omega arith; same = refl; kept = has_more s.errors _ };
  }

  pub Ends-return :
      {A : Type 0} {Q : A → State sc.Scanner → Type 0} (a : A) (s : State sc.Scanner)
      → Q a s
      → Ends Q (return a) s
  unfolding return
  Ends-return a s q = record { run = q }

  pub panic-Ends :
      {A : Type 0} (Q : A → State sc.Scanner → Type 0) (s : State sc.Scanner) → Ends Q panic s
  unfolding panic
  panic-Ends Q s = record { run = tt }

  pub return-Goes : {A : Type 0} (a : A) (s : State sc.Scanner) → Goes (return a) s
  unfolding return
  return-Goes a s = record { run = Later-refl sc s }

  pub token_text-Goes : (s : State sc.Scanner) → Goes (token_text sc) s
  unfolding token_text
  token_text-Goes s = record { run = Later-refl sc s }

  pub token_start-Goes : (s : State sc.Scanner) → Goes (token_start sc) s
  unfolding token_start
  token_start-Goes s = record { run = Later-refl sc s }

  pub Ends-if :
      {A : Type 0} {Q : A → State sc.Scanner → Type 0} (b : Bool) {x y : Parser sc.Scanner A}
      {s : State sc.Scanner}
      → (b ≡ true → Ends Q x s)
      → (b ≡ false → Ends Q y s)
      → Ends Q (if b then x else y) s
  Ends-if true h k = h refl
  Ends-if false h k = k refl

module _ (sc : Scanning) {B : Type 0} where
  weaken :
      (Q R : B → State sc.Scanner → Type 0) (r : Run sc.Scanner B)
      → Ensures Q r
      → ((b : B) (u : State sc.Scanner) → Q b u → R b u)
      → Ensures R r
  weaken Q R starved h k = h
  weaken Q R panicked h k = tt
  weaken Q R (done b u) h k = k b u h

  pub Ends-weaken :
      (Q R : B → State sc.Scanner → Type 0) (m : Parser sc.Scanner B) (s : State sc.Scanner)
      → Ends sc Q m s
      → ((b : B) (u : State sc.Scanner) → Q b u → R b u)
      → Ends sc R m s
  Ends-weaken Q R m s h k = record { run = weaken Q R (m s) h.run k }

module _ (sc : Scanning) {A B : Type 0} where
  abbrev next_run : (A → Parser sc.Scanner B) → Run sc.Scanner A → Run sc.Scanner B
  next_run f r = elim r [ starved ↦ starved | panicked ↦ panicked | done a t ↦ f a t ]

  after :
      (f : A → Parser sc.Scanner B) (Q : A → State sc.Scanner → Type 0)
      (R : B → State sc.Scanner → Type 0) (r : Run sc.Scanner A)
      → Ensures Q r
      → ((a : A) (t : State sc.Scanner) → Q a t → Ensures R (f a t))
      → Ensures R (next_run f r)
  after f Q R starved h k = h
  after f Q R panicked h k = tt
  after f Q R (done a t) h k = k a t h

  -- A step with a postcondition, and the rest.
  pub Ends-bind :
      (Q : A → State sc.Scanner → Type 0) (R : B → State sc.Scanner → Type 0)
      (m : Parser sc.Scanner A) (f : A → Parser sc.Scanner B) (s : State sc.Scanner)
      → Ends sc Q m s
      → ((a : A) (t : State sc.Scanner) → Q a t → Ends sc R (f a) t)
      → Ends sc R (m >>= f) s
  unfolding ◌>>=◌
  Ends-bind Q R m f s h k = record { run = after f Q R (m s) h.run (λ a t q. (k a t q).run) }

  pub Goes-bind :
      {m : Parser sc.Scanner A} {f : A → Parser sc.Scanner B} {s : State sc.Scanner}
      → Goes sc m s
      → ((a : A) (t : State sc.Scanner) → Later sc s t → Goes sc (f a) t)
      → Goes sc (m >>= f) s
  Goes-bind {m} {f} {s} h k =
      Ends-bind (λ a t. Later sc s t) (λ b u. Later sc s u) m f s h
        (λ a t l.
          Ends-weaken sc (λ b u. Later sc t u) (λ b u. Later sc s u) (f a) t (k a t l)
            (λ b u l2. Later-trans sc l l2))

  -- The same where the step is one that reads.
  pub Goes-reading :
      {m : Parser sc.Scanner A} {f : A → Parser sc.Scanner B} {s : State sc.Scanner}
      → Advances sc m s
      → ((a : A) (t : State sc.Scanner) → Reads sc s t → Goes sc (f a) t)
      → Goes sc (m >>= f) s
  Goes-reading {m} {f} {s} h k =
      Ends-bind (λ a t. Reads sc s t) (λ b u. Later sc s u) m f s h
        (λ a t l.
          Ends-weaken sc (λ b u. Later sc t u) (λ b u. Later sc s u) (f a) t (k a t l)
            (λ b u l2. Later-trans sc (Reads-weaken sc l) l2))

  pub Advances-bind :
      {m : Parser sc.Scanner A} {f : A → Parser sc.Scanner B} {s : State sc.Scanner}
      → Advances sc m s
      → ((a : A) (t : State sc.Scanner) → Reads sc s t → Goes sc (f a) t)
      → Advances sc (m >>= f) s
  Advances-bind {m} {f} {s} h k =
      Ends-bind (λ a t. Reads sc s t) (λ b u. Reads sc s u) m f s h
        (λ a t l.
          Ends-weaken sc (λ b u. Later sc t u) (λ b u. Reads sc s u) (f a) t (k a t l)
            (λ b u l2. Reads-Later sc l l2))

-- A step whose value is not used.
module _ (sc : Scanning) {A B : Type 0} where
  pub then-bind : (m : Parser sc.Scanner A) (k : Parser sc.Scanner B) → (m >> k) ≡ (m >>= λ _. k)
  unfolding ◌>>◌ ◌>>=◌
  then-bind m k = refl

  pub Goes-then :
      {m : Parser sc.Scanner A} {k : Parser sc.Scanner B} {s : State sc.Scanner}
      → Goes sc m s
      → ((t : State sc.Scanner) → Later sc s t → Goes sc k t)
      → Goes sc (m >> k) s
  Goes-then {m} {k} h g = rw (then-bind m k) (Goes-bind sc h (λ _ t l. g t l))

  pub Goes-then_reading :
      {m : Parser sc.Scanner A} {k : Parser sc.Scanner B} {s : State sc.Scanner}
      → Advances sc m s
      → ((t : State sc.Scanner) → Reads sc s t → Goes sc k t)
      → Goes sc (m >> k) s
  Goes-then_reading {m} {k} h g = rw (then-bind m k) (Goes-reading sc h (λ _ t l. g t l))

module _ {sc : Scanning} (law : IsScanning sc) where
  pub operate-Goes : (o : Operation) (s : State sc.Scanner) → Goes sc (operate sc o) s
  unfolding operate
  operate-Goes o s = record {
    run = record {
      less = omega (arith, law.same_size o s.scanner, law.forward o s.scanner);
      same = law.same_size o s.scanner;
      kept = has_more s.errors _;
    };
  }

  -- What a peek ensures: a rune that it shows is still to be read.
  abbrev pub Peeks : Parser sc.Scanner Token → State sc.Scanner → Type 0
  Peeks m s = Ends sc (λ hint t. Later sc s t × (is_eof hint ≡ false → 0 < remaining sc t)) m s

  pub peek-Peeks : (s : State sc.Scanner) → Peeks (peek sc) s
  unfolding operate
  peek-Peeks s = record {
    run = (
      (operate-Goes peek_op s).run,
      λ h. omega (arith, law.same_size peek_op s.scanner, law.peek_before_end s.scanner h),
    );
  }

  pub scan-Advances :
      (numbers : Bool) (s : State sc.Scanner)
      → 0 < remaining sc s
      → Advances sc (operate sc (scan_op numbers)) s
  unfolding operate
  scan-Advances numbers s h = record {
    run = record {
      fewer = omega (
        arith,
        law.same_size (scan_op numbers) s.scanner,
        law.scan_reads numbers s.scanner (omega arith),
      );
      same = law.same_size (scan_op numbers) s.scanner;
      kept = has_more s.errors _;
    };
  }

  pub next-Advances :
      (s : State sc.Scanner) → 0 < remaining sc s → Advances sc (operate sc next_op) s
  unfolding operate
  next-Advances s h = record {
    run = record {
      fewer =
          omega (arith, law.same_size next_op s.scanner, law.next_reads s.scanner (omega arith));
      same = law.same_size next_op s.scanner;
      kept = has_more s.errors _;
    };
  }

  space_not_eof : (tok : Token) → is_space sc tok ≡ true → is_eof tok ≡ false
  space_not_eof eof h = cc
  space_not_eof (rune c) h = refl
  space_not_eof _ h = cc

  -- Whether a peek or a read comes first: the end of a parser that peeks last.
  -- A peek that comes after other steps.
  Peeks-Later :
      {m : Parser sc.Scanner Token} {s t : State sc.Scanner}
      → Later sc s t
      → Peeks m t
      → Ends sc (λ hint u. Later sc s u × (is_eof hint ≡ false → 0 < remaining sc u)) m t
  Peeks-Later {m} {s} {t} l h = Ends-weaken sc _ _ m t h (λ hint u q. (Later-trans sc l q.0, q.1))

  skip_space-Peeks : (n : ℕ) (s : State sc.Scanner) → remaining sc s < n → Peeks (skip_space sc n) s
  unfolding skip_space
  skip_space-Peeks zero s h = absurd (omega arith)
  skip_space-Peeks (suc n) s h = Ends-bind sc _ _ (peek sc) _ s (peek-Peeks s) λ hint t q.
      Ends-if sc (is_space sc hint)
        (λ e. rw (then-bind sc (operate sc next_op) (skip_space sc n)) (
          Ends-bind sc _ _ (operate sc next_op) _ t (next-Advances t (q.1 (space_not_eof hint e)))
            (λ _ u r.
              Peeks-Later (Later-trans sc q.0 (Reads-weaken sc r))
                (skip_space-Peeks n u (omega (arith, r.fewer, q.0.less))))))
        (λ e. Ends-return sc hint t q)

  pub peek_no_space-Peeks : (s : State sc.Scanner) → Peeks (peek_no_space sc) s
  unfolding peek_no_space
  peek_no_space-Peeks s = record {
    run = (skip_space-Peeks (suc (remaining sc s)) s (omega arith)).run;
  }

  -- A token that is not the end has been read.
  abbrev pub Reading : State sc.Scanner → Token → State sc.Scanner → Type 0
  Reading s tok t = Later sc s t × (is_eof tok ≡ false → remaining sc t < remaining sc s)

  pub scan-Reading :
      (numbers : Bool) (s : State sc.Scanner) → Ends sc (Reading s) (operate sc (scan_op numbers)) s
  unfolding operate
  scan-Reading numbers s = record {
    run = (
      (operate-Goes (scan_op numbers) s).run,
      λ e. elim (dec_lt (sc.offset s.scanner) (sc.size s.scanner)) [
        | yes more ↦ (scan-Advances numbers s (omega arith)).run.fewer
        | no stop ↦ cc (law.scan_at_end numbers s.scanner (omega arith))
      ],
    );
  }

  -- A test that holds only of a token has read it.
  abbrev pub Progress : State sc.Scanner → Bool → State sc.Scanner → Type 0
  Progress s b t = Later sc s t × (b ≡ true → remaining sc t < remaining sc s)

  eof_fails :
      (test : Token → Bool) (tok : Token) → test eof ≡ false → test tok ≡ true → is_eof tok ≡ false
  eof_fails test eof h k = cc
  eof_fails test _ h k = refl

  pub expect-Progress :
      (test : Token → Bool) (desc : Text) (s : State sc.Scanner)
      → test eof ≡ false
      → Ends sc (Progress s) (expect sc test desc) s
  unfolding expect
  expect-Progress test desc s no_eof =
      Ends-bind sc _ _ (scan sc) _ s (scan-Reading true s) λ tok t q.
        Ends-if sc (test tok)
          (λ e. Ends-return sc true t (q.0, λ _. q.1 (eof_fails test tok no_eof e)))
          (λ e. rw (then-bind sc (report sc (λ got. expected (desc ++ got))) (return false)) (
            Ends-bind sc _ _ (report sc _) _ t (report-Goes sc _ t)
              (λ _ u l. Ends-return sc false u (Later-trans sc q.0 l, λ h. cc h))))

  pub expect-Goes :
      (test : Token → Bool) (desc : Text) (s : State sc.Scanner)
      → test eof ≡ false
      → Goes sc (expect sc test desc) s
  expect-Goes test desc s no_eof =
      Ends-weaken sc _ _ _ s (expect-Progress test desc s no_eof) (λ b t q. q.0)

  -- A step of which more is known than that it goes on.
  pub Goes-with :
      {A B : Type 0} (P : A → State sc.Scanner → Type 0) {m : Parser sc.Scanner A}
      {f : A → Parser sc.Scanner B} {s : State sc.Scanner}
      → Ends sc (λ a t. Later sc s t × P a t) m s
      → ((a : A) (t : State sc.Scanner) → Later sc s t → P a t → Goes sc (f a) t)
      → Goes sc (m >>= f) s
  Goes-with {A} {B} P {m} {f} {s} h k =
      Ends-bind sc _ _ m f s h
        (λ a t q. Ends-weaken sc _ _ (f a) t (k a t q.0 q.1) (λ b u l. Later-trans sc q.0 l))
