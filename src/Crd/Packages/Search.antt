-- ===== src/Crd/Packages/Search.antt =====
-- The search ends, and finds a package that is imported under the path if there is one.
use controller_tools.Prelude.{
  ℕ, zero, suc, ◌+◌, ◌≤◌, ◌≡◌, ◌≢◌, sym, ap, subst, ◌∙◌, inl, inr, true, ◌||◌, Option, Option-cases,
  none, some, List, [], ◌∷◌, ◌++◌, map, any-append, length, length-append, ◌==◌, ==_iff, Bool-cases,
  or_left, arith, All,
}
use controller_tools.Text.{Text}
use controller_tools.Crd.Packages.{
  Imports, Outcome, found, not_found, out_of_fuel, first_match, search_queue, count_imports,
  find_package_recursive,
}
use controller_tools.Crd.Packages.Weights.{
  among, weight, weight_less, weight_start, length-map, not_found_ends, found_ends, found_injective,
  found_is_found, All-append, All-weaken, members, pick, unpad,
}

module _ (imports : Imports) (path : Text) where
  abbrev targets : ℕ → List ℕ
  targets p = map (λ (k, q). q) (imports p)

  abbrev outcome : ℕ → List ℕ → List ℕ → Outcome
  outcome fuel visited queue = search_queue imports path fuel visited queue

  abbrev match_in : ℕ → Option ℕ
  match_in p = first_match imports path (imports p)

  -- A list with the imports of its members.
  abbrev pub IsProgram : List ℕ → Type 0
  IsProgram packages =
      (p : ℕ) → among p packages ≡ true → All (λ q. among q packages ≡ true) (targets p)

  ends :
      (packages : List ℕ) (fuel : ℕ) (visited queue : List ℕ)
      → IsProgram packages
      → All (λ q. among q packages ≡ true) queue
      → length queue + weight imports visited packages ≤ fuel
      → outcome fuel visited queue ≢ out_of_fuel
  unfolding search_queue
  ends packages fuel visited [] u h le e = not_found_ends e
  ends packages zero visited (c ∷ queue) u h le e = absurd (omega arith)
  ends packages (suc fuel) visited (c ∷ queue) u h le e = elim (Bool-cases (among c visited)) [
    | inl old ↦ ends packages fuel visited queue u h.1 (omega arith) (rw (old, search_queue) at e)
    | inr new ↦ elim (Option-cases (match_in c)) [
      | inr (p, m) ↦ found_ends (rw (new, m, search_queue) at e)
      | inl m ↦
          ends packages fuel (c ∷ visited) (queue ++ targets c) u
            (All-append (λ q. among q packages ≡ true) queue (targets c) h.1 (u c h.0))
            (omega (
              arith,
              length-append queue (targets c),
              length-map (imports c),
              weight_less imports visited packages c h.0 new,
            ))
            (rw (new, m, search_queue) at e)
    ]
  ]

  -- Every visited package imports nothing under the path, and its imports are visited or queued.
  abbrev IsClosed : List ℕ → List ℕ → Type 0
  IsClosed visited queue =
      (v : ℕ)
      → among v visited ≡ true
      → (match_in v ≡ none) × All (λ r. (among r visited || among r queue) ≡ true) (targets v)

  queued :
      (visited queue more : List ℕ)
      → All (λ r. (among r visited || among r (queue ++ more)) ≡ true) more
  queued visited queue more =
      All-weaken (λ r. among r more ≡ true)
        (λ r. (among r visited || among r (queue ++ more)) ≡ true) more
        (λ r h. ground (arith, any-append (λ v. v == r) queue more, h)) (members more)

  skip_lem :
      (c r : ℕ) (visited queue : List ℕ)
      → among c visited ≡ true
      → (among r visited || among r (c ∷ queue)) ≡ true
      → (among r visited || among r queue) ≡ true
  skip_lem c r visited queue old h = elim (Bool-cases (c == r)) [
    | inl e ↦
        or_left (among r visited) (among r queue)
          (subst (λ x. among x visited ≡ true) ((==_iff c r).0 e) old)
    | inr e ↦ ground (arith, h)
  ]

  move_lem :
      (c r : ℕ) (visited queue more : List ℕ)
      → (among r visited || among r (c ∷ queue)) ≡ true
      → (among r (c ∷ visited) || among r (queue ++ more)) ≡ true
  move_lem c r visited queue more h = ground (arith, any-append (λ v. v == r) queue more, h)

  visit_step :
      (c : ℕ) (visited queue : List ℕ)
      → match_in c ≡ none
      → IsClosed visited (c ∷ queue)
      → IsClosed (c ∷ visited) (queue ++ targets c)
  visit_step c visited queue m k v h = elim (Bool-cases (c == v)) [
    | inl e ↦
        subst
          (λ x.
            (match_in x ≡ none)
            × All (λ r. (among r (c ∷ visited) || among r (queue ++ targets c)) ≡ true) (targets x))
          ((==_iff c v).0 e) (m, queued (c ∷ visited) queue (targets c))
    | inr e ↦
        let (none_in, all_in) = k v (ground (arith, h)) in
        (
          none_in,
          All-weaken (λ r. (among r visited || among r (c ∷ queue)) ≡ true)
              (λ r. (among r (c ∷ visited) || among r (queue ++ targets c)) ≡ true) (targets v)
              (λ r. move_lem c r visited queue (targets c)) all_in,
        )
  ]

  -- A search without a result has visited a closed list with all that it began with.
  searched :
      (fuel : ℕ) (visited queue : List ℕ)
      → outcome fuel visited queue ≡ not_found
      → IsClosed visited queue
      → (done : List ℕ) × ((r : ℕ)
          → (among r visited || among r queue) ≡ true
          → among r done ≡ true)
        × IsClosed done []
  unfolding search_queue
  searched fuel visited [] e k = (visited, λ r h. ground arith, k)
  searched zero visited (c ∷ queue) e k = absurd (not_found_ends (sym e))
  searched (suc fuel) visited (c ∷ queue) e k = elim (Bool-cases (among c visited)) [
    | inl old ↦
        let (done, within, closed) =
          searched fuel visited queue (rw (old, search_queue) at e) (λ v h. (
            (k v h).0,
            All-weaken (λ r. (among r visited || among r (c ∷ queue)) ≡ true)
                (λ r. (among r visited || among r queue) ≡ true) (targets v)
                (λ r. skip_lem c r visited queue old) (k v h).1,
          )) in
        (done, λ r h. within r (skip_lem c r visited queue old h), closed)
    | inr new ↦ elim (Option-cases (match_in c)) [
      | inr (p, m) ↦ absurd (found_is_found (rw (new, m, search_queue) at e))
      | inl m ↦
          let (done, within, closed) =
            searched fuel (c ∷ visited) (queue ++ targets c) (rw (new, m, search_queue) at e)
              (visit_step c visited queue m k) in
          (done, λ r h. within r (move_lem c r visited queue (targets c) h), closed)
    ]
  ]

-- The packages that are imported by a package or by those that it imports, and that package.
pub data Reaches (imports : Imports) (start : ℕ) : ℕ → Type 0 where
  here : Reaches imports start start
  there :
      {p q : ℕ}
      → Reaches imports start p
      → among q (map (λ (k, r). r) (imports p)) ≡ true
      → Reaches imports start q

module _ (imports : Imports) (path : Text) (start : ℕ) where
  abbrev match_at : ℕ → Option ℕ
  match_at p = first_match imports path (imports p)

  sound :
      (fuel : ℕ) (visited queue : List ℕ) (p : ℕ)
      → All (Reaches imports start) queue
      → search_queue imports path fuel visited queue ≡ found p
      → (q : ℕ) × Reaches imports start q × (match_at q ≡ some p)
  unfolding search_queue
  sound fuel visited [] p h e = absurd (found_is_found (sym e))
  sound zero visited (c ∷ queue) p h e = absurd (found_ends (sym e))
  sound (suc fuel) visited (c ∷ queue) p h e = elim (Bool-cases (among c visited)) [
    | inl old ↦ sound fuel visited queue p h.1 (rw (old, search_queue) at e)
    | inr new ↦ elim (Option-cases (match_at c)) [
      | inr (r, m) ↦ (c, h.0, m ∙ ap some (found_injective (rw (new, m, search_queue) at e)))
      | inl m ↦
          let next = map (λ (k, r). r) (imports c) in
          sound fuel (c ∷ visited) (queue ++ next) p
            (All-append (Reaches imports start) queue next h.1 (
              All-weaken (λ r. among r next ≡ true) (Reaches imports start) next
                (λ r k. there h.0 k) (members next)))
            (rw (new, m, search_queue) at e)
    ]
  ]

  complete :
      (done : List ℕ)
      → IsClosed imports path done []
      → among start done ≡ true
      → (p : ℕ) → Reaches imports start p
      → among p done ≡ true
  complete done k h p here = h
  complete done k h p (there {p = q} reach at) = unpad (among p done) (
      pick (λ r. (among r done || among r []) ≡ true) p (map (λ (k, r). r) (imports q))
        (k q (complete done k h q reach)).1 at)

-- In a program that has all the imports of its packages, the search ends. A package that is found is
-- the first match among the imports of a package that the start reaches; if none is found, no such
-- package has a match.
pub find_package_recursive_lem :
    (imports : Imports) (packages : List ℕ) (path : Text) (start : ℕ)
    → IsProgram imports path packages
    → among start packages ≡ true
    → (find_package_recursive imports packages path start ≢ out_of_fuel)
      × ((p : ℕ)
          → find_package_recursive imports packages path start ≡ found p
          → (q : ℕ) × Reaches imports start q × (first_match imports path (imports q) ≡ some p))
      × (find_package_recursive imports packages path start ≡ not_found
          → (q : ℕ) → Reaches imports start q
          → first_match imports path (imports q) ≡ none)
unfolding find_package_recursive
find_package_recursive_lem imports packages path start u h =
    let fuel = 1 + count_imports imports packages in
    (
      ends imports path packages fuel [] (start ∷ []) u (h, tt)
          (omega (arith, weight_start imports packages)),
      λ p e. sound imports path start fuel [] (start ∷ []) p (here, tt) e,
      λ e q reach.
          let (done, within, closed) = searched imports path fuel [] (start ∷ []) e (λ v no. cc) in
          (closed q
            (complete imports path start done closed (within start (ground arith)) q reach)).0,
    )
