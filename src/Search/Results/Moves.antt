-- ===== src/Search/Results/Moves.antt =====
-- `NavNext` and `NavPrev`: the nearest result that is shown.
use parse_embedded_sdks.Base.{
  ℕ, zero, suc, ◌+◌, ◌≤◌, ◌<◌, ◌≡◌, refl, sym, ap, ◌∙◌, Bool, true, false, Bool-cases, inl, inr,
  Option, none, some, List, [], ◌∷◌, get_elem?, drop, length, ◌==◌, Option-cases, arith,
}
use parse_embedded_sdks.Search.Results.{Result, next_from, nav_next, nav_prev}

-- No result at an index from `a` on and below `b` is shown.
abbrev pub NoneShown : List Result → ℕ → ℕ → Type 0
NoneShown results a b =
    (i : ℕ) (r : Result) → a ≤ i → i < b → get_elem? results i ≡ some r → r.shown ≡ false

-- What is found at the indices from `a` on.
pub data IsNext (results : List Result) (a : ℕ) : Option ℕ → Type 0 where
  at :
      (j : ℕ) (r : Result)
      → a ≤ j
      → get_elem? results j ≡ some r
      → r.shown ≡ true
      → NoneShown results a j
      → IsNext results a (some j)
  nowhere :
      ((i : ℕ) (r : Result) → a ≤ i → get_elem? results i ≡ some r → r.shown ≡ false)
      → IsNext results a none

drop-get :
    (results : List Result) (n : ℕ) (r : Result) (rest : List Result)
    → drop n results ≡ r ∷ rest
    → get_elem? results n ≡ some r
drop-get results zero r rest h = ap (λ l. get_elem? l 0) h
drop-get [] (suc n) r rest h = ap (λ l. get_elem? l 0) h
drop-get (x ∷ results) (suc n) r rest h = drop-get results n r rest h

drop_nil : (n : ℕ) → drop {A = Result} n [] ≡ []
drop_nil zero = refl
drop_nil (suc n) = refl

drop-suc :
    (results : List Result) (n : ℕ) (r : Result) (rest : List Result)
    → drop n results ≡ r ∷ rest
    → drop (suc n) results ≡ rest
drop-suc results zero r rest h = ap (drop 1) h
drop-suc [] (suc n) r rest h = drop_nil (suc (suc n)) ∙ ap (drop 1) h
drop-suc (x ∷ results) (suc n) r rest h = drop-suc results n r rest h

get_behind :
    (results : List Result) (n i : ℕ) → drop n results ≡ [] → n ≤ i → get_elem? results i ≡ none
get_behind results zero i h k = ap (λ l. get_elem? l i) h
get_behind [] (suc n) i h k = refl
get_behind (x ∷ results) (suc n) zero h k = absurd (omega arith)
get_behind (x ∷ results) (suc n) (suc i) h k = get_behind results n i h (omega arith)

is_shown : Option Result → Bool
is_shown none = false
is_shown (some r) = r.shown

-- The result at an index that is not shown, by the index.
not_shown :
    (results : List Result) (n i : ℕ) (r q : Result)
    → get_elem? results n ≡ some r
    → r.shown ≡ false
    → i ≡ n
    → get_elem? results i ≡ some q
    → q.shown ≡ false
unfolding is_shown
not_shown results n i r q e s h k = ap is_shown (sym k ∙ ap (get_elem? results) h ∙ e) ∙ s

skip-IsNext :
    (results : List Result) (n : ℕ) (r : Result) {o : Option ℕ}
    → get_elem? results n ≡ some r
    → r.shown ≡ false
    → IsNext results (n + 1) o
    → IsNext results n o
skip-IsNext results n r e s (at j q a b c d) = at j q (omega arith) b c (λ i r' k m f.
    elim (Bool-cases (i == n)) [
      | inl h ↦ not_shown results n i r r' e s (ground arith) f
      | inr h ↦ d i r' (ground arith) m f
    ])
skip-IsNext results n r e s (nowhere h) = nowhere (λ i r' k f. elim (Bool-cases (i == n)) [
  | inl g ↦ not_shown results n i r r' e s (ground arith) f
  | inr g ↦ h i r' (ground arith) f
])

next_from-IsNext :
    (results rest : List Result) (n : ℕ)
    → drop n results ≡ rest
    → IsNext results n (next_from rest n)
next_from-IsNext results [] n h = nowhere (λ i r a e. ground (arith, get_behind results n i h a, e))
next_from-IsNext results (r ∷ rest) n h = elim (Bool-cases r.shown) [
  | inl s ↦
      rw s
        (at n r (omega arith) (drop-get results n r rest h) s (λ i q a b e. absurd (omega arith)))
  | inr s ↦ rw s (
      skip-IsNext results n r (drop-get results n r rest h) s (
        next_from-IsNext results rest (n + 1) (
          let e : n + 1 ≡ suc n = omega arith in
          ap (λ m. drop m results) e ∙ drop-suc results n r rest h)))
]

-- `NavNext` finds the first result that is shown, from the index on, or null where none is.
pub nav_next-IsNext :
    (results : List Result) (index : ℕ) → IsNext results index (nav_next results index)
nav_next-IsNext results index = next_from-IsNext results (drop index results) index refl

-- What is found at the indices below `b`.
pub data IsPrevious (results : List Result) (b : ℕ) : Option ℕ → Type 0 where
  at :
      (j : ℕ) (r : Result)
      → j < b
      → get_elem? results j ≡ some r
      → r.shown ≡ true
      → NoneShown results (j + 1) b
      → IsPrevious results b (some j)
  nowhere : NoneShown results 0 b → IsPrevious results b none

skip-IsPrevious :
    (results : List Result) (n : ℕ) (r : Result) {o : Option ℕ}
    → get_elem? results n ≡ some r
    → r.shown ≡ false
    → IsPrevious results n o
    → IsPrevious results (suc n) o
skip-IsPrevious results n r e s (at j q a b c d) = at j q (omega arith) b c (λ i r' k m f.
    elim (Bool-cases (i == n)) [
      | inl h ↦ not_shown results n i r r' e s (ground arith) f
      | inr h ↦ d i r' k (ground arith) f
    ])
skip-IsPrevious results n r e s (nowhere h) = nowhere (λ i r' k m f. elim (Bool-cases (i == n)) [
  | inl g ↦ not_shown results n i r r' e s (ground arith) f
  | inr g ↦ h i r' k (ground arith) f
])

get-none : (results : List Result) (n : ℕ) → get_elem? results n ≡ none → length results ≤ n
get-none [] n h = omega arith
get-none (x ∷ results) zero h = ground arith
get-none (x ∷ results) (suc n) h = omega (arith, get-none results n h)

-- `NavPrev` finds the last result that is shown, from the index on backwards, or null where none is,
-- for an index of a result or -1: `b` is the index and one.
pub nav_prev-IsPrevious :
    (results : List Result) (b : ℕ) → b ≤ length results → IsPrevious results b (nav_prev results b)
nav_prev-IsPrevious results zero h = nowhere (λ i r a b e. absurd (omega arith))
nav_prev-IsPrevious results (suc n) h = elim (Option-cases (get_elem? results n)) [
  | inl e ↦ absurd (omega (arith, get-none results n e))
  | inr (r, e) ↦ elim (Bool-cases r.shown) [
    | inl s ↦ rw (e, s) (at n r (omega arith) e s (λ i q a b f. absurd (omega arith)))
    | inr s ↦
        rw (e, s) (skip-IsPrevious results n r e s (nav_prev-IsPrevious results n (omega arith)))
  ]
]

-- `NavNext` finds the first result that is shown, from the index on, and `NavPrev` the last one that is
-- shown in front of the index; each finds null where there is none.
pub nav_next-nav_prev :
    (results : List Result) (index : ℕ)
    → index ≤ length results
    → IsNext results index (nav_next results index)
      × IsPrevious results index (nav_prev results index)
nav_next-nav_prev results index h =
    (nav_next-IsNext results index, nav_prev-IsPrevious results index h)
