-- ===== src/Markers/Guess/Kinds.antt =====
-- What types `guessType` guesses: an item of any type stands only in a map.
use controller_tools.Prelude.{
  ℕ, zero, suc, Bool, true, false, ◌||◌, Option, none, some, if◌then◌else◌, length,
}
use controller_tools.Text.{Text}
use controller_tools.Markers.Argument.{
  Argument, ArgumentType, argument, invalid, int, number, string, bool, any, slice, map,
}
use controller_tools.Markers.Scanner.{
  Token, is_rune, is_ident, is_int, is_float, Scanning, State, Run, starved, panicked, done, Parser,
  ◌>>=◌, ◌>>◌, return, starve, panic,
}
use controller_tools.Markers.Scanner.Laws.{Ensures, Later, Ends, Goes}
use controller_tools.Markers.Guess.{
  not_ident, report, plain, is_string, is_quote, guess_braces, guess_bool, guess_number, look,
  guessed, ended, guess_item, with_legacy, guess_type, fresh, drop,
}

unfoldable mutual
  pub IsGuess : Argument → Type 0
  IsGuess (argument t o p) = IsGuessedType t

  pub IsGuessedType : ArgumentType → Type 0
  IsGuessedType any = ⊥
  IsGuessedType (slice item) = IsGuess item
  IsGuessedType _ = Unit

-- If the run returns something, then a value as said.
abbrev Gives : {S A : Type 0} → (A → Type 0) → Run S A → Type 0
Gives P starved = Unit
Gives P panicked = Unit
Gives P (done a t) = P a

module _ {S : Type 0} where
  record Yields {A : Type 0} (P : A → Type 0) (m : Parser S A) : Type 0 where
    gives : (s : State S) → Gives P (m s)

  whatever : {A : Type 0} (r : Run S A) → Gives (λ _. Unit) r
  whatever starved = tt
  whatever panicked = tt
  whatever (done a t) = tt

  Yields-any : {A : Type 0} {m : Parser S A} → Yields (λ _. Unit) m
  Yields-any {A} {m} = record { gives = λ s. whatever (m s) }

  Yields-return : {A : Type 0} {P : A → Type 0} (a : A) → P a → Yields P (return a)
  unfolding return
  Yields-return a h = record { gives = λ s. h }

  Yields-if :
      {A : Type 0} {P : A → Type 0} (b : Bool) {x y : Parser S A}
      → Yields P x
      → Yields P y
      → Yields P (if b then x else y)
  Yields-if true h k = h
  Yields-if false h k = k

  module _ {A B : Type 0} where
    after :
        (P : A → Type 0) (R : B → Type 0) (f : A → Parser S B) (r : Run S A)
        → Gives P r
        → ((a : A) → P a → Yields R (f a))
        → Gives R (elim r [ starved ↦ starved | panicked ↦ panicked | done a t ↦ f a t ])
    after P R f starved h k = tt
    after P R f panicked h k = tt
    after P R f (done a t) h k = (k a h).gives t

    Yields-bind :
        (P : A → Type 0) {R : B → Type 0} {m : Parser S A} {f : A → Parser S B}
        → Yields P m
        → ((a : A) → P a → Yields R (f a))
        → Yields R (m >>= f)
    unfolding ◌>>=◌
    Yields-bind P {R} {m} {f} h k = record { gives = λ s. after P R f (m s) (h.gives s) k }

    -- After a step whose value does not matter.
    Yields-next :
        {R : B → Type 0} (m : Parser S A) {f : A → Parser S B}
        → ((a : A) → Yields R (f a))
        → Yields R (m >>= f)
    Yields-next m k = Yields-bind (λ _. Unit) Yields-any (λ a _. k a)

    Yields-then :
        {R : B → Type 0} (m : Parser S A) {k : Parser S B} → Yields R k → Yields R (m >> k)
    unfolding ◌>>◌ ◌>>=◌
    Yields-then {R} m {k} h = record {
      gives = λ s. after (λ _. Unit) R (λ _. k) (m s) (whatever (m s)) (λ _ _. h);
    }

module _ (sc : Scanning) where
  guess_braces-Yields :
      (source : Text) {first : Parser sc.Scanner Argument}
      → Yields IsGuess first
      → Yields IsGuess (guess_braces sc source first)
  unfolding guess_braces IsGuess
  guess_braces-Yields source h = Yields-then _ (
      Yields-next _ λ hint. Yields-bind IsGuess h λ item g.
        Yields-if (is_string item)
          (Yields-then _ (
            Yields-next _
              λ token. Yields-return _ (kinds (is_rune b':' token || is_rune b'}' hint) item g)))
          (Yields-return _ g))
    where
      kinds :
          (b : Bool) (item : Argument)
          → IsGuess item
          → IsGuess (plain (if b then map (plain any) else slice item))
      kinds true item g = tt
      kinds false item g = g

  guess_number-Yields : Yields IsGuess (guess_number sc)
  unfolding guess_number IsGuess
  guess_number-Yields = Yields-next _ λ first. Yields-next _ λ tok. Yields-next _ λ failed.
      Yields-if failed (Yields-return _ tt) (
        Yields-if (is_int tok || is_float tok)
          (Yields-next _ λ follow. Yields-return _ (leaf _ (is_int tok))) (Yields-return _ tt))
    where
      leaf : (a b : Bool) → IsGuess (plain (if a then (if b then int else number) else string))
      leaf true true = tt
      leaf true false = tt
      leaf false b = tt

  -- What a look gives, if it gives a type.
  abbrev IsLook : Option Argument → Type 0
  IsLook none = Unit
  IsLook (some a) = IsGuess a

  guess_bool-Yields : Yields IsLook (guess_bool sc)
  unfolding guess_bool IsGuess
  guess_bool-Yields = Yields-next _ λ tok.
      Yields-if (is_ident tok) (Yields-next _ λ t. Yields-return _ (leaf _)) (Yields-return none tt)
    where
      leaf : (b : Bool) → IsGuess (plain (if b then bool else string))
      leaf true = tt
      leaf false = tt

  guessed-Yields :
      {m : Parser sc.Scanner Argument} → Yields IsGuess m → Yields IsLook (guessed sc m)
  guessed-Yields h = Yields-bind IsGuess h (λ a g. Yields-return (some a) g)

  look-Yields :
      (source : Text) {first : Parser sc.Scanner Argument}
      → Yields IsGuess first
      → Yields IsLook (look sc source first)
  unfolding look IsGuess
  look-Yields source h = Yields-next _ λ hint. Yields-if (is_quote sc hint) (Yields-return _ tt) (
      Yields-if _ (guessed-Yields (guess_braces-Yields source h))
        (Yields-if _ guess_bool-Yields (guessed-Yields guess_number-Yields)))

  ended-Yields :
      (r : Run sc.Scanner (Option Argument)) → Gives IsLook r → Yields IsGuess (ended sc r)
  unfolding ended IsGuess
  ended-Yields starved h = record { gives = λ s. tt }
  ended-Yields panicked h = record { gives = λ s. tt }
  ended-Yields (done (some a) t) h = record { gives = λ s. h }
  ended-Yields (done none t) h = record {
    gives = λ s.
        (Yields-then (report sc not_ident) (Yields-return {P = IsGuess} (plain invalid) tt)).gives
          s;
  }

  guess_item-Yields : (n : ℕ) (source : Text) → Yields IsGuess (guess_item sc n source)
  unfolding guess_item starve
  guess_item-Yields zero source = record { gives = λ s. tt }
  guess_item-Yields (suc n) source = Yields-next _ λ pos. ended-Yields _ (
      (look-Yields source (guess_item-Yields n (drop pos source))).gives
        (fresh sc (drop pos source)))

  with_legacy-Yields :
      (item : Argument) (r : Run sc.Scanner Token)
      → IsGuess item
      → Yields IsGuess (with_legacy sc item r)
  unfolding with_legacy IsGuess starve panic
  with_legacy-Yields item starved g = record { gives = λ s. tt }
  with_legacy-Yields item panicked g = record { gives = λ s. tt }
  with_legacy-Yields item (done tok t) g = Yields-return _ (either (is_rune b';' tok) item g)
    where
      either :
          (b : Bool) (item : Argument)
          → IsGuess item
          → IsGuess (if b then plain (slice item) else item)
      either true item g = g
      either false item g = g

  guess_type-Yields :
      (source : Text) (allow_slice : Bool) → Yields IsGuess (guess_type sc source allow_slice)
  unfolding guess_type
  guess_type-Yields source allow_slice =
      Yields-bind IsGuess (guess_item-Yields (suc (length source)) source) λ item g.
        Yields-next _
          λ pos. Yields-if allow_slice (with_legacy-Yields item _ g) (Yields-return item g)

  -- A run that ends as said and gives such a value does both.
  both :
      {A : Type 0} (Q : A → State sc.Scanner → Type 0) (P : A → Type 0) (r : Run sc.Scanner A)
      → Ensures Q r
      → Gives P r
      → Ensures (λ a t. Q a t × P a) r
  both Q P starved h g = h
  both Q P panicked h g = tt
  both Q P (done a t) h g = (h, g)

  pub guess_type-IsGuess :
      (source : Text) (allow_slice : Bool) (s : State sc.Scanner)
      → Goes sc (guess_type sc source allow_slice) s
      → Ends sc (λ a t. Later sc s t × IsGuess a) (guess_type sc source allow_slice) s
  guess_type-IsGuess source allow_slice s h = record {
    run = both _ _ _ h.run ((guess_type-Yields source allow_slice).gives s);
  }
