-- ===== src/Json/Processor/Fuel.antt =====
-- Each round of the first loop of `simpleJsonProcessor` reads on, so its fuel is enough and its
-- amount does not matter.
use parse_embedded_sdks.Base.{
  ℕ, zero, suc, ◌≤◌, ◌<◌, ◌≡◌, ◌≢◌, refl, Bool, true, false, Option, none, some, [], ◌∷◌, Bytes,
  length, drop, length-drop, arith,
}
use parse_embedded_sdks.CString.{same_prefix, skip_blanks, length-skip_blanks}
use parse_embedded_sdks.Json.Processor.{
  Round, next, out_of_fuel, overrun, missing, value_at, scan_byte, value_kind, after_quote,
  after_key, matched, round, go_on, search,
}

-- The next round, if there is one, starts below `n` bytes; and the round itself has no fuel.
abbrev pub ReadsOn : ℕ → Round → Type 0
ReadsOn n (next _ _ p) = length p < n
ReadsOn n out_of_fuel = ⊥
ReadsOn n _ = Unit

value_kind-ReadsOn : (n : ℕ) (p : Bytes) → ReadsOn n (value_kind p)
unfolding value_kind
value_kind-ReadsOn n [] = tt
value_kind-ReadsOn n (c ∷ rest) = ground arith

after_quote-ReadsOn :
    (n : ℕ) (i : Bool) (l : ℕ) (p : Bytes) → length p ≤ n → ReadsOn n (after_quote i l p)
unfolding after_quote
after_quote-ReadsOn n i l [] h = tt
after_quote-ReadsOn n i l (c ∷ rest) h = ground (arith, value_kind-ReadsOn n (skip_blanks rest))

after_key-ReadsOn :
    (n : ℕ) (i : Bool) (l : ℕ) (p : Bytes) → length p ≤ n → ReadsOn n (after_key i l p)
unfolding after_key
after_key-ReadsOn n i l [] h = tt
after_key-ReadsOn n i l (c ∷ rest) h =
    ground (arith, after_quote-ReadsOn n i l (skip_blanks rest), length-skip_blanks rest)

scan_byte-ReadsOn :
    (i : Bool) (l c : ℕ) (rest : Bytes) → ReadsOn (suc (length rest)) (scan_byte i l c rest)
unfolding scan_byte
scan_byte-ReadsOn i zero c [] = ground arith
scan_byte-ReadsOn i (suc l) c [] = ground arith
scan_byte-ReadsOn i zero c (d ∷ rest) = ground arith
scan_byte-ReadsOn i (suc l) c (d ∷ rest) = ground arith

matched-ReadsOn :
    (m : Option Bool) (key : Bytes) (i : Bool) (l c : ℕ) (rest : Bytes)
    → ReadsOn (suc (length rest)) (matched m key i l c rest)
unfolding matched
matched-ReadsOn none key i l c rest = tt
matched-ReadsOn (some false) key i l c rest = scan_byte-ReadsOn i l c rest
matched-ReadsOn (some true) key i l c rest = ground (
  arith,
  after_key-ReadsOn (suc (length rest)) i l (drop (length key) (c ∷ rest)),
  length-drop (length key) (c ∷ rest),
)

pub round-ReadsOn :
    (key : Bytes) (i : Bool) (l : ℕ) (p : Bytes) → ReadsOn (length p) (round key i l p)
unfolding round
round-ReadsOn key i l [] = tt
round-ReadsOn key i l (c ∷ rest) =
    ground (arith, matched-ReadsOn (same_prefix key (c ∷ rest)) key i l c rest)

go_on-ne-out_of_fuel :
    (n : ℕ) (f : Bool → ℕ → Bytes → Round) (r : Round)
    → ReadsOn n r
    → ((i : Bool) (l : ℕ) (p : Bytes) → length p < n → f i l p ≢ out_of_fuel)
    → go_on f r ≢ out_of_fuel
go_on-ne-out_of_fuel n f (next i l p) on h = h i l p on
go_on-ne-out_of_fuel n f out_of_fuel on h = absurd on
go_on-ne-out_of_fuel n f overrun on h = ground arith
go_on-ne-out_of_fuel n f missing on h = ground arith
go_on-ne-out_of_fuel n f (value_at _ _ _) on h = ground arith

-- The first loop ends by a decision of its body, from any state, when the fuel exceeds the number
-- of bytes from the pointer to the end of the allocation.
pub search-ne-out_of_fuel :
    (fuel : ℕ) (key : Bytes) (in_string : Bool) (level : ℕ) (p : Bytes)
    → length p < fuel
    → search fuel key in_string level p ≢ out_of_fuel
unfolding search
search-ne-out_of_fuel zero key i l p h = absurd (omega arith)
search-ne-out_of_fuel (suc fuel) key i l p h =
    go_on-ne-out_of_fuel (length p) (search fuel key) (round key i l p) (round-ReadsOn key i l p)
      (λ i' l' p' m. search-ne-out_of_fuel fuel key i' l' p' (omega arith))

go_on-fuel :
    (n : ℕ) (f g : Bool → ℕ → Bytes → Round) (r : Round)
    → ReadsOn n r
    → ((i : Bool) (l : ℕ) (p : Bytes) → length p < n → f i l p ≡ g i l p)
    → go_on f r ≡ go_on g r
go_on-fuel n f g (next i l p) on h = h i l p on
go_on-fuel n f g out_of_fuel on h = refl
go_on-fuel n f g _ on h = refl

-- More fuel than enough makes no difference.
pub search-fuel :
    (fuel fuel' : ℕ) (key : Bytes) (i : Bool) (l : ℕ) (p : Bytes)
    → length p < fuel
    → length p < fuel'
    → search fuel key i l p ≡ search fuel' key i l p
unfolding search
search-fuel zero fuel' key i l p h h' = absurd (omega arith)
search-fuel (suc fuel) zero key i l p h h' = absurd (omega arith)
search-fuel (suc fuel) (suc fuel') key i l p h h' =
    go_on-fuel (length p) (search fuel key) (search fuel' key) (round key i l p)
      (round-ReadsOn key i l p)
      (λ i' l' p' m. search-fuel fuel fuel' key i' l' p' (omega arith) (omega arith))

-- A round that goes on takes the search to the next pointer.
pub search-next :
    (fuel fuel' : ℕ) (key : Bytes) (i i' : Bool) (l l' : ℕ) (p p' : Bytes)
    → round key i l p ≡ next i' l' p'
    → length p < fuel
    → length p' < fuel'
    → search fuel key i l p ≡ search fuel' key i' l' p'
unfolding search
search-next zero fuel' key i i' l l' p p' e h h' = absurd (omega arith)
search-next (suc fuel) fuel' key i i' l l' p p' e h h' = rw e (
    search-fuel fuel fuel' key i' l' p' (let on = rw e at (round-ReadsOn key i l p) in omega arith)
      h')
