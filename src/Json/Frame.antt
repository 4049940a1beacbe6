-- ===== src/Json/Frame.antt =====
-- The scans for whole JSON objects of common/simplejson.c.
pub mod Steps
pub mod Laws
use parse_embedded_sdks.Base.{
  ℕ, ◌+◌, ◌-◌, Bool, true, false, not, ◌&&◌, ◌||◌, Option, none, some, [], ◌∷◌, leb, ◌==◌,
  if◌then◌else◌, Bytes, ℤ, pos, inc, dec, is_zero,
}
use parse_embedded_sdks.CString.{strlen}

-- One round of a scan: a read past the allocation, the end of the loop, the `return` in the loop, a
-- round that passes two bytes behind a backslash, or one that passes a byte, with the variables
-- `inString` and `level` behind it.
pub data Round : Type 0 where
  overrun stop here skip : Round
  advance : Bool → ℤ → Round

-- What a scan finds: `pos` and the pointer, at its `return`.
pub data Found : Type 0 where
  overrun not_found : Found
  found : ℕ → Bytes → Found

-- `case '\\'`. The byte behind it is read only in a string; it is `none` past the allocation.
backslash_round : Bool → ℤ → Option ℕ → Round
backslash_round false level d = advance false level
backslash_round true level none = overrun
backslash_round true level (some d) = if d == 0 then advance true level else skip

-- The loop of `findJsonBeginningParams`, at the byte `c`.
unfoldable pub beginning_round : ℕ → ℕ → Bool → ℕ → Option ℕ → Round
unfolding backslash_round
beginning_round size n in_string c d =
    if c == 0 || leb size n
    then stop
    else if c == b'{' && not in_string
    then here
    else if c == b'"'
    then advance (not in_string) (pos 0)
    else if c == b'\\'
    then backslash_round in_string (pos 0) d
    else advance in_string (pos 0)

-- The loop of `findJsonEndParams`, at the byte `c`.
unfoldable pub end_round : ℕ → ℕ → Bool → ℤ → ℕ → Option ℕ → Round
unfolding backslash_round
end_round size n in_string level c d =
    if c == 0 || leb size n
    then stop
    else if c == b'{'
    then advance in_string (if in_string then level else inc level)
    else if c == b'}'
    then (let level' = if in_string then level else dec level in
        if is_zero level' then here else advance in_string level')
    else if c == b'"'
    then advance (not in_string) level
    else if c == b'\\'
    then backslash_round in_string level d
    else advance in_string level

-- `findJsonBeginningParams`, with `size`, `*pos`, `*inString` and the pointer.
unfoldable pub find_beginning : ℕ → ℕ → Bool → Bytes → Found
find_beginning size n i [] = overrun
find_beginning size n i (c ∷ []) = elim (beginning_round size n i c none) [
  | stop ↦ not_found
  | here ↦ found n (c ∷ [])
  | _ ↦ overrun
]
find_beginning size n i (c ∷ d ∷ p) = elim (beginning_round size n i c (some d)) [
  | overrun ↦ overrun
  | stop ↦ not_found
  | here ↦ found n (c ∷ d ∷ p)
  | skip ↦ find_beginning size (n + 2) i p
  | advance i' _ ↦ find_beginning size (n + 1) i' (d ∷ p)
]

-- `findJsonEndParams`, with `size`, `*pos`, `*inString`, `*level` and the pointer. It returns the
-- pointer behind the closing brace, and leaves `*pos` at it.
unfoldable pub find_end : ℕ → ℕ → Bool → ℤ → Bytes → Found
find_end size n i level [] = overrun
find_end size n i level (c ∷ []) = elim (end_round size n i level c none) [
  | stop ↦ not_found
  | here ↦ found n []
  | _ ↦ overrun
]
find_end size n i level (c ∷ d ∷ p) = elim (end_round size n i level c (some d)) [
  | overrun ↦ overrun
  | stop ↦ not_found
  | here ↦ found n (d ∷ p)
  | skip ↦ find_end size (n + 2) i level p
  | advance i' level' ↦ find_end size (n + 1) i' level' (d ∷ p)
]

-- `findJsonBeginning` and `findJsonEnd`: the scans up to the NUL.
with_strlen : Option ℕ → (ℕ → Found) → Found
with_strlen none f = overrun
with_strlen (some n) f = f n

unfoldable pub find_json_beginning : Bytes → Found
unfolding with_strlen
find_json_beginning p = with_strlen (strlen p) (λ size. find_beginning size 0 false p)

unfoldable pub find_json_end : Bytes → Found
unfolding with_strlen
find_json_end p = with_strlen (strlen p) (λ size. find_end size 0 false (pos 0) p)

-- `if (!data) return NULL;` between two scans.
abbrev pub and_then : Found → (Bytes → Found) → Found
and_then overrun f = overrun
and_then not_found f = not_found
and_then (found n p) f = f p

unfoldable pub find_second_json : Bytes → Found
unfolding find_json_beginning find_json_end
find_second_json p = and_then (and_then (find_json_beginning p) find_json_end) find_json_beginning

-- `none` is a read past the allocation.
abbrev is_found : Found → Option Bool
is_found overrun = none
is_found not_found = some false
is_found (found _ _) = some true

unfoldable pub is_complete_json : Bytes → Option Bool
unfolding find_json_beginning find_json_end
is_complete_json p = is_found (and_then (find_json_beginning p) find_json_end)

-- What `getPushJson` gives: `*start` and `*length`, the latter `none` for -1, with the pointer; and
-- `nothing` for NULL.
pub data PushJson : Type 0 where
  overrun nothing : PushJson
  message : ℕ → Option ℕ → PushJson

push_length : ℕ → Found → PushJson
push_length start overrun = overrun
push_length start not_found = message start none
push_length start (found end_pos _) = message start (some (end_pos + 1))

push_start : ℕ → Found → PushJson
unfolding push_length
push_start size overrun = overrun
push_start size not_found = nothing
push_start size (found start p) = push_length start (find_end (size - start) 0 false (pos 0) p)

unfoldable pub get_push_json : Bytes → ℕ → PushJson
unfolding push_start
get_push_json p size = push_start size (find_beginning size 0 false p)
