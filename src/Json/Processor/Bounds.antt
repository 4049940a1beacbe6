-- ===== src/Json/Processor/Bounds.antt =====
-- The writes of `simpleJsonProcessor` stay inside the value buffer.
use parse_embedded_sdks.Base.{
  ℕ, ◌-◌, ◌≤◌, Bool, true, false, not, ◌||◌, ◌==◌, leb, Option, none, some, [], ◌∷◌, Bytes, length,
  if◌then◌else◌, arith,
}
use parse_embedded_sdks.Json.Processor.{
  Round, next, out_of_fuel, overrun, missing, value_at, search, Extraction, present, copied, Copier,
  CopyRound, return_value, continue, copy_round, also_copied, copy, copy_value, extract,
  simple_json_processor,
}

-- At most `n` value bytes are written in front of the final NUL.
abbrev pub Writes : ℕ → Extraction → Type 0
Writes n (copied out complete) = length out ≤ n
Writes n _ = Unit

abbrev ReturnsShort : CopyRound → Type 0
ReturnsShort (return_value out) = length out ≤ 1
ReturnsShort (continue _) = Unit

copy_round-short : (json q : Bool) (s : Copier) (c : ℕ) → ReturnsShort (copy_round json q s c)
unfolding copy_round
copy_round-short json q s c = ground arith

also_copied-Writes :
    (n c : ℕ) (e : Extraction) → 1 ≤ n → Writes (n - 1) e → Writes n (also_copied c e)
also_copied-Writes n c (copied out _) h w = omega arith
also_copied-Writes n c Extraction.overrun h w = tt
also_copied-Writes n c Extraction.missing h w = tt
also_copied-Writes n c present h w = tt

copy-Writes :
    (json q : Bool) (s : Copier) (size : ℕ) (p : Bytes) → Writes (size - 1) (copy json q s size p)
unfolding copy
copy-Writes json q s size [] = tt
copy-Writes json q s size (c ∷ rest) =
    step (copy_round json q s c) (copy_round-short json q s c)
      (λ s'. copy-Writes json q s' (size - 1) rest)
  where
    step :
        (r : CopyRound)
        → ReturnsShort r
        → ((s' : Copier) → Writes (size - 1 - 1) (copy json q s' (size - 1) rest))
        → Writes (size - 1) (
            if leb size 1 || c == 0 then copied [] (not (c == 0)) else elim r [
              | return_value out ↦ copied out true
              | continue s' ↦ also_copied c (copy json q s' (size - 1) rest)
            ])
    step (return_value out) short later = ground arith
    step (continue s') short later =
        ground (arith, also_copied-Writes (size - 1) c (copy json q s' (size - 1) rest), later s')

extract-Writes : (want : Bool) (size : ℕ) (r : Round) → Writes (size - 1) (extract want size r)
unfolding extract copy_value
extract-Writes want size overrun = tt
extract-Writes want size missing = tt
extract-Writes false size (value_at json q p) = tt
extract-Writes true size (value_at json q p) = copy-Writes json q _ size _
extract-Writes want size (next _ _ _) = tt
extract-Writes want size out_of_fuel = tt

-- Whatever the data, the key and the length of the value buffer, the value bytes that the function
-- writes are at most `size - 1`, so a buffer of `size` bytes, one or more, holds them and the NUL.
pub simple_json_processor-Writes :
    (json_data key : Option Bytes) (want : Bool) (size : ℕ)
    → Writes (size - 1) (simple_json_processor json_data key want size)
unfolding simple_json_processor
simple_json_processor-Writes json_data none want size = tt
simple_json_processor-Writes none (some key) want size = tt
simple_json_processor-Writes (some p) (some []) want size = tt
simple_json_processor-Writes (some p) (some (k ∷ key)) want size =
    extract-Writes want size (search _ (k ∷ key) false 0 p)
