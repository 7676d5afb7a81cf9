-- ===== src/Markers/Docs/Reference.antt =====
-- The lines of a doc as three passes that know no state: the number of the fences so far tells whether a
-- line is in a code block.
use controller_tools.Prelude.{
  ℕ, zero, suc, ◌≡◌, refl, ap, ◌∙◌, Bool, true, false, not, ◌&&◌, ◌||◌, Option, none, some, List,
  [], ◌∷◌, arith, ◌==◌, if◌then◌else◌, map,
}
use controller_tools.Text.{Text, codes}
use controller_tools.Text.Split.{after_prefix}
use controller_tools.Markers.Docs.{has_prefix, is_fence, flip_if, shown, doc_line, doc_lines}

abbrev pub starts_with : Text → Text → Bool
starts_with [] t = true
starts_with (b ∷ start) [] = false
starts_with (b ∷ start) (x ∷ t) = b == x && starts_with start t

abbrev pub is_odd : ℕ → Bool
is_odd zero = false
is_odd (suc n) = not (is_odd n)

-- The number of the fences up to a line, from that before it.
abbrev pub fences_to : ℕ → Text → ℕ
fences_to n line =
    if starts_with (codes "```") line || starts_with (codes "~~~") line then suc n else n

-- Each line with whether it is in a code block, a block's first fence included.
abbrev pub in_blocks : ℕ → List Text → List (Bool × Text)
in_blocks n [] = []
in_blocks n (l ∷ ls) = (is_odd (fences_to n l), l) ∷ in_blocks (fences_to n l) ls

-- What stands before the first line outside the blocks that starts with three dashes.
abbrev pub before_dashes : List (Bool × Text) → List (Bool × Text)
before_dashes [] = []
before_dashes ((inside, l) ∷ ls) =
    if not inside && starts_with (codes "---") l then [] else (inside, l) ∷ before_dashes ls

-- All lines but those outside the blocks that start with TODO.
abbrev pub without_todos : List (Bool × Text) → List Text
without_todos [] = []
without_todos ((inside, l) ∷ ls) =
    if not inside && starts_with (codes "TODO") l then without_todos ls else l ∷ without_todos ls

has_prefix-starts : (start t : Text) → has_prefix start t ≡ starts_with start t
unfolding has_prefix
has_prefix-starts [] t = unfold has_prefix after_prefix in refl
has_prefix-starts (b ∷ start) [] = unfold has_prefix after_prefix in refl
has_prefix-starts (b ∷ start) (x ∷ t) =
    unfold has_prefix after_prefix in
    (step (b == x) (after_prefix start t) ∙ ap (λ q. b == x && q) (has_prefix-starts start t))
  where
    step :
        (c : Bool) (o : Option Text)
        → elim (if c then o else none) [ none ↦ false | some rest ↦ true ]
          ≡ (c && elim o [ none ↦ false | some rest ↦ true ])
    step true o = refl
    step false o = refl

todo_no_dashes :
    (l : Text) → starts_with (codes "TODO") l ≡ true → starts_with (codes "---") l ≡ false
todo_no_dashes [] h = absurd (ground arith)
todo_no_dashes (b ∷ t) h = ground arith

inside_lem : (n : ℕ) (l : Text) → flip_if (is_fence l) (is_odd n) ≡ is_odd (fences_to n l)
unfolding is_fence
inside_lem n l =
    rw (has_prefix-starts (codes "```") l, has_prefix-starts (codes "~~~") l)
      (counted (starts_with (codes "```") l || starts_with (codes "~~~") l))
  where
    counted : (c : Bool) → flip_if c (is_odd n) ≡ is_odd (if c then suc n else n)
    counted true = refl
    counted false = refl

-- The two tests of a line outside the blocks exclude each other, so that their order does not matter.
cascade :
    (l : Text) (ls : List (Bool × Text)) (todo dashes : Bool)
    → starts_with (codes "TODO") l ≡ todo
    → (todo ≡ true → dashes ≡ false)
    → (if todo
        then without_todos (before_dashes ls)
        else if dashes
        then []
        else l ∷ without_todos (before_dashes ls))
      ≡ without_todos (if dashes then [] else (false, l) ∷ before_dashes ls)
cascade l ls true true e h = absurd (ground (arith, h refl))
cascade l ls true false e h = rw e refl
cascade l ls false true e h = refl
cascade l ls false false e h = rw e refl

line_lem :
    (inside : Bool) (l : Text) (ls : List (Bool × Text))
    → doc_line l inside (without_todos (before_dashes ls))
      ≡ without_todos (before_dashes ((inside, l) ∷ ls))
unfolding doc_line
line_lem true l ls = refl
line_lem false l ls =
    rw (has_prefix-starts (codes "TODO") l, has_prefix-starts (codes "---") l)
      (cascade l ls (starts_with (codes "TODO") l) (starts_with (codes "---") l) refl
        (todo_no_dashes l))

module _ (trim_space : Text → Text) where
  lines_from :
      (is_asterisk : Bool) (n : ℕ) (ls : List Text)
      → doc_lines trim_space is_asterisk (is_odd n) ls
        ≡ without_todos (before_dashes (in_blocks n (map (shown trim_space is_asterisk) ls)))
  unfolding doc_lines
  lines_from is_asterisk n [] = refl
  lines_from is_asterisk n (l ∷ ls) =
      let line = shown trim_space is_asterisk l in
      let k = fences_to n line in
      ap (λ b. doc_line line b (doc_lines trim_space is_asterisk b ls)) (inside_lem n line)
      ∙ ap (doc_line line (is_odd k)) (lines_from is_asterisk k ls)
      ∙ line_lem (is_odd k) line (in_blocks k (map (shown trim_space is_asterisk) ls))

  -- The loop of extractDoc keeps, of the lines before the first that starts with three dashes outside a
  -- code block, those that are in a code block or do not start with TODO. A line is in a code block if
  -- the number of the fences up to it is odd.
  pub doc_lines_lem :
      (is_asterisk : Bool) (ls : List Text)
      → doc_lines trim_space is_asterisk false ls
        ≡ without_todos (before_dashes (in_blocks 0 (map (shown trim_space is_asterisk) ls)))
  doc_lines_lem is_asterisk ls = lines_from is_asterisk 0 ls
