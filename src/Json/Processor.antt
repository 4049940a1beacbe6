-- ===== src/Json/Processor.antt =====
-- `simpleJsonProcessor` of common/simplejson.c: the value of a key of a JSON object, found by a
-- scan. The two loops are `search` and `copy`; each is driven by a function for one round.
pub mod Fuel
pub mod Bounds
pub mod Safety
pub mod Values
use parse_embedded_sdks.Base.{
  ℕ, zero, suc, ◌+◌, ◌-◌, Bool, true, false, not, ◌&&◌, ◌||◌, Option, none, some, [], ◌∷◌, ltb, leb,
  ◌==◌, if◌then◌else◌, Bytes, length, drop,
}
use parse_embedded_sdks.CString.{same_prefix, skip_blanks}

-- What one round of the first loop decides.
pub data Round : Type 0 where
  -- a read past the allocation
  overrun : Round
  -- the function returns 0, and no value byte has been written
  missing : Round
  -- the loop breaks at the value: `json`, `endWithQuote` and the pointer `found`
  value_at : Bool → Bool → Bytes → Round
  -- the next round: `inString`, `jsonLevel` and the pointer after `++found`
  next : Bool → ℕ → Bytes → Round
  -- the fuel of `search` has run out
  out_of_fuel : Round

-- `if (*(found + 1)) ++found;`, then the `++found` of the loop.
skip_escaped : Bool → ℕ → Bytes → Round
skip_escaped in_string level [] = overrun
skip_escaped in_string level (d ∷ rest) =
    if d == 0 then next in_string level (d ∷ rest) else next in_string level rest

-- `--jsonLevel; if (jsonLevel < 0) return 0;`
close_level : Bool → ℕ → Bytes → Round
close_level in_string zero rest = missing
close_level in_string (suc n) rest = next in_string n rest

-- The `switch` on a byte at which the key does not match, with the bytes behind it.
unfoldable pub scan_byte : Bool → ℕ → ℕ → Bytes → Round
unfolding skip_escaped close_level
scan_byte in_string level c rest =
    if c == b'"'
    then next (not in_string) level rest
    else if c == b'\\'
    then (if in_string then skip_escaped in_string level rest else next in_string level rest)
    else if c == b'{' || c == b'['
    then next in_string (if in_string then level else level + 1) rest
    else if c == b'}' || c == b']'
    then (if in_string then next in_string level rest else close_level in_string level rest)
    else next in_string level rest

-- Behind the colon and its blanks: the kind of value that the first byte shows.
value_kind : Bytes → Round
value_kind [] = overrun
value_kind (c ∷ rest) =
    if c == 0
    then missing
    else if c == b'{' || c == b'['
    then value_at true false (c ∷ rest)
    else value_at false (c == b'"') (c ∷ rest)

-- Behind the quote and its blanks: a colon, or the next round.
after_quote : Bool → ℕ → Bytes → Round
unfolding value_kind
after_quote in_string level [] = overrun
after_quote in_string level (c ∷ rest) =
    if c == b':' then value_kind (skip_blanks rest) else next in_string level rest

-- `found += keyLen; if (*found != '\"') { …; continue; }`. The `++found` of the loop is made also
-- where `*found` is the NUL that ends the string.
unfoldable pub after_key : Bool → ℕ → Bytes → Round
unfolding after_quote
after_key in_string level [] = overrun
after_key in_string level (c ∷ rest) =
    if c == b'"' then after_quote in_string level (skip_blanks rest) else next in_string level rest

-- A round at a byte that is not NUL, by the outcome of `strncmp`.
matched : Option Bool → Bytes → Bool → ℕ → ℕ → Bytes → Round
unfolding scan_byte after_key
matched none key in_string level c rest = overrun
matched (some false) key in_string level c rest = scan_byte in_string level c rest
matched (some true) key in_string level c rest =
    if ltb 1 level
    then next in_string level rest
    else after_key in_string level (drop (length key) (c ∷ rest))

-- One round of the first loop.
unfoldable pub round : Bytes → Bool → ℕ → Bytes → Round
unfolding matched
round key in_string level [] = overrun
round key in_string level (c ∷ rest) =
    if c == 0 then missing else matched (same_prefix key (c ∷ rest)) key in_string level c rest

-- `continue`, or the end of the loop.
abbrev pub go_on : (Bool → ℕ → Bytes → Round) → Round → Round
go_on continue (next in_string level p) = continue in_string level p
go_on continue r = r

-- The first loop.
unfoldable pub search : ℕ → Bytes → Bool → ℕ → Bytes → Round
search zero key in_string level p = out_of_fuel
search (suc fuel) key in_string level p = go_on (search fuel key) (round key in_string level p)

-- What the function has done: the value bytes written (less the final NUL), and the result.
pub data Extraction : Type 0 where
  overrun missing present : Extraction
  copied : Bytes → Bool → Extraction

-- The variables of the second loop, less the pointers.
pub record Copier : Type 0 where
  pub backslash : Bool
  pub in_string : Bool
  pub level : ℕ

-- One round of the second loop: `goto RETURN_VALUE` with the bytes that this round still writes, or
-- the next round after `*value = *found`.
pub data CopyRound : Type 0 where
  return_value : Bytes → CopyRound
  continue : Copier → CopyRound

-- `case '\"'` and `case ','`, which the closing brackets fall through to.
copy_end : Bool → Bool → Copier → ℕ → CopyRound
copy_end json end_with_quote s c =
    if end_with_quote && not (c == b'"')
    then continue s
    else if json
    then continue (record s { in_string = if c == b'"' then not s.in_string else s.in_string })
    else return_value []

-- `case '}'` and `case ']'`.
copy_close : Bool → Bool → Copier → ℕ → CopyRound
unfolding copy_end
copy_close json end_with_quote s c =
    if not end_with_quote && not s.in_string
    then (if leb s.level 1
        then return_value (if json then c ∷ [] else [])
        else continue (record s { level = s.level - 1 }))
    else copy_end json end_with_quote s c

unfoldable pub copy_round : Bool → Bool → Copier → ℕ → CopyRound
unfolding copy_end copy_close
copy_round json end_with_quote s c =
    if s.backslash
    then continue (record s { backslash = false })
    else if c == b'{' || c == b'['
    then continue (record s { level = if s.in_string then s.level else s.level + 1 })
    else if c == b'}' || c == b']'
    then copy_close json end_with_quote s c
    else if c == b'"' || c == b','
    then copy_end json end_with_quote s c
    else continue (record s { backslash = c == b'\\' })

-- A byte in front of what the later rounds write.
abbrev pub also_copied : ℕ → Extraction → Extraction
also_copied c (copied out complete) = copied (c ∷ out) complete
also_copied c e = e

-- The second loop, and what follows it.
unfoldable pub copy : Bool → Bool → Copier → ℕ → Bytes → Extraction
copy json end_with_quote s size [] = overrun
copy json end_with_quote s size (c ∷ rest) =
    if leb size 1 || c == 0
    then copied [] (not (c == 0))
    else elim (copy_round json end_with_quote s c) [
      | return_value out ↦ copied out true
      | continue s' ↦ also_copied c (copy json end_with_quote s' (size - 1) rest)
    ]

-- `if (endWithQuote) ++found;` and the second loop with its first values.
copy_value : Bool → Bool → ℕ → Bytes → Extraction
unfolding copy
copy_value json end_with_quote size p =
    copy json end_with_quote (record { backslash = false; in_string = not json; level = 0 }) size
      (if end_with_quote then drop 1 p else p)

-- Between the loops.
extract : Bool → ℕ → Round → Extraction
unfolding copy_value
extract want size overrun = overrun
extract want size missing = missing
extract want size (value_at json end_with_quote p) =
    if want then copy_value json end_with_quote size p else present
extract want size (next _ _ _) = overrun
extract want size out_of_fuel = overrun

-- The whole function. `data` and `key` are `none` for NULL, and `want` tells whether `value` is not
-- NULL. `strlen(key)` comes before the test of `key`. Each round of the first loop reads on by a
-- byte at least, so the fuel is one more than the bytes of the allocation.
unfoldable pub simple_json_processor : Option Bytes → Option Bytes → Bool → ℕ → Extraction
unfolding search extract round
simple_json_processor json_data none want size = overrun
simple_json_processor none (some key) want size = missing
simple_json_processor (some p) (some []) want size = missing
simple_json_processor (some p) (some (k ∷ key)) want size =
    extract want size (search (length p + 1) (k ∷ key) false 0 p)
