-- ===== src/Json/Processor/Safety.antt =====
-- Where `simpleJsonProcessor` reads: inside the allocation, for a text that ends with a closing
-- brace, and past it, for a text that ends with the key.
use parse_embedded_sdks.Base.{
  ℕ, zero, suc, ◌+◌, ◌-◌, ◌≡◌, ◌≢◌, refl, Bool, true, false, ◌==◌, inl, inr, Bool-cases, Option,
  none, some, [], ◌∷◌, ◌++◌, Bytes, All, length, drop, drop-append, ne→==, ==_refl, if◌then◌else◌,
  arith,
}
use parse_embedded_sdks.CString.{IsText, same_prefix, same_prefix-append, skip_blanks}
use parse_embedded_sdks.Json.Processor.Fuel.{search-next, search-ne-out_of_fuel}
use parse_embedded_sdks.Json.Processor.Values.{IsPlain, NoMatch, toggled, search_plain, round_open}
use parse_embedded_sdks.Json.Processor.{
  Round, next, out_of_fuel, overrun, missing, value_at, scan_byte, value_kind, after_quote,
  after_key, matched, round, go_on, search, Extraction, present, copied, Copier, CopyRound,
  return_value, continue, copy_round, also_copied, copy, copy_value, extract, simple_json_processor,
}

-- A pointer into a text that ends with a closing brace and a NUL, with `behind` behind the NUL.
pub data Braced (behind : Bytes) : Bytes → Type 0 where
  brace : Braced behind (b'}' ∷ 0 ∷ behind)
  byte : {c : ℕ} {p : Bytes} → c ≢ 0 → Braced behind p → Braced behind (c ∷ p)

-- The same, or a pointer to the NUL.
data Inside (behind : Bytes) : Bytes → Type 0 where
  text : {p : Bytes} → Braced behind p → Inside behind p
  nul : Inside behind (0 ∷ behind)

go_on-ne-next :
    (f : Bool → ℕ → Bytes → Round) (r : Round) (i' : Bool) (l' : ℕ) (p' : Bytes)
    → ((i : Bool) (l : ℕ) (p : Bytes) → f i l p ≢ next i' l' p')
    → go_on f r ≢ next i' l' p'
go_on-ne-next f (next i l p) i' l' p' h = h i l p
go_on-ne-next f overrun i' l' p' h = ground arith
go_on-ne-next f missing i' l' p' h = ground arith
go_on-ne-next f (value_at _ _ _) i' l' p' h = ground arith
go_on-ne-next f out_of_fuel i' l' p' h = ground arith

search-ne-next :
    (fuel : ℕ) (key : Bytes) (i : Bool) (l : ℕ) (p : Bytes) (i' : Bool) (l' : ℕ) (p' : Bytes)
    → search fuel key i l p ≢ next i' l' p'
unfolding search
search-ne-next zero key i l p i' l' p' = ground arith
search-ne-next (suc fuel) key i l p i' l' p' =
    go_on-ne-next (search fuel key) (round key i l p) i' l' p'
      (λ i'' l'' p''. search-ne-next fuel key i'' l'' p'' i' l' p')

-- At the key with the NUL behind it, the round goes on behind the NUL.
round_cut :
    (k : ℕ) (key : Bytes) (i : Bool)
    → k ≢ 0
    → round (k ∷ key) i 1 ((k ∷ key) ++ 0 ∷ []) ≡ next i 1 []
unfolding round after_key
round_cut k key i k0 = rw (ne→== k 0 k0, ==_refl k, same_prefix-append key, drop-append key) refl

search_nil :
    (key : Bytes) (i want : Bool) (size : ℕ)
    → extract want size (search 1 key i 1 []) ≡ Extraction.overrun
unfolding extract search round
search_nil key i want size = refl

-- The result of a call that has read no byte past the allocation.
abbrev pub InBounds : Extraction → Type 0
InBounds e = e ≢ Extraction.overrun

also_copied-InBounds : (c : ℕ) (e : Extraction) → InBounds e → InBounds (also_copied c e)
also_copied-InBounds c (copied _ _) h = ground arith
also_copied-InBounds c Extraction.overrun h = h
also_copied-InBounds c Extraction.missing h = h
also_copied-InBounds c present h = h

-- The loop goes on only behind a byte that is not NUL.
copied-InBounds :
    (stop complete : Bool) (r : CopyRound) (c : ℕ) (later : Copier → Extraction)
    → ((s : Copier) → InBounds (later s))
    → InBounds (
        if stop
        then copied [] complete
        else elim r [ return_value out ↦ copied out true | continue s ↦ also_copied c (later s) ])
copied-InBounds true complete r c later h = ground arith
copied-InBounds false complete (return_value out) c later h = ground arith
copied-InBounds false complete (continue s) c later h = also_copied-InBounds c (later s) (h s)

-- A call on a text with `behind` behind its NUL.
module _ (behind : Bytes) where
  tail-Inside : {c : ℕ} {p : Bytes} → Braced behind (c ∷ p) → Inside behind p
  tail-Inside brace = nul
  tail-Inside (byte h b) = text b

  skip_blanks-Braced : {p : Bytes} → Braced behind p → Braced behind (skip_blanks p)
  skip_blanks-Braced brace = brace
  skip_blanks-Braced (byte {c} {p} h b) =
      ground (arith, skip_blanks-Braced b, byte {c = c} {p = p} h b)

  MatchIn : Option Bool → Bytes → Type 0
  MatchIn none p = ⊥
  MatchIn (some true) p = Braced behind p
  MatchIn (some false) p = Unit

  -- A key with no closing brace is compared inside the text, and leads to a pointer into it.
  same_prefix-MatchIn :
      (key : Bytes) {p : Bytes}
      → All (λ k. k ≢ b'}') key
      → Braced behind p
      → MatchIn (same_prefix key p) (drop (length key) p)
  unfolding MatchIn
  same_prefix-MatchIn [] h b = b
  same_prefix-MatchIn (k ∷ key) h brace = rw (ne→== k b'}' h.0) tt
  same_prefix-MatchIn (k ∷ key) h (byte {c} {p} n b) = elim (Bool-cases (k == c)) [
    | inl same ↦ rw same (same_prefix-MatchIn key h.1 b)
    | inr other ↦ rw other tt
  ]

  -- A round that reads inside the text, and leads to a pointer into it or to its NUL.
  ReadsIn : Round → Type 0
  ReadsIn overrun = ⊥
  ReadsIn (value_at json q p) = Braced behind p
  ReadsIn (next i l p) = Inside behind p
  ReadsIn missing = Unit
  ReadsIn out_of_fuel = Unit

  value_kind-ReadsIn : {p : Bytes} → Braced behind p → ReadsIn (value_kind p)
  unfolding value_kind ReadsIn
  value_kind-ReadsIn brace = brace
  value_kind-ReadsIn (byte {c} {p} n b) = ground (arith, byte {c = c} {p = p} n b)

  after_quote-ReadsIn :
      (i : Bool) (l : ℕ) {p : Bytes} → Braced behind p → ReadsIn (after_quote i l p)
  unfolding after_quote ReadsIn
  after_quote-ReadsIn i l brace = nul
  after_quote-ReadsIn i l (byte {c} {p} n b) =
      ground (arith, value_kind-ReadsIn (skip_blanks-Braced b), text b)

  after_key-ReadsIn : (i : Bool) (l : ℕ) {p : Bytes} → Braced behind p → ReadsIn (after_key i l p)
  unfolding after_key ReadsIn
  after_key-ReadsIn i l brace = nul
  after_key-ReadsIn i l (byte {c} {p} n b) =
      ground (arith, after_quote-ReadsIn i l (skip_blanks-Braced b), text b)

  scan_byte-ReadsIn :
      (i : Bool) (l c : ℕ) {p : Bytes} → Inside behind p → ReadsIn (scan_byte i l c p)
  unfolding scan_byte ReadsIn
  scan_byte-ReadsIn i zero c nul = let at_nul : Inside behind (0 ∷ behind) = nul in ground arith
  scan_byte-ReadsIn i (suc l) c nul = let at_nul : Inside behind (0 ∷ behind) = nul in ground arith
  scan_byte-ReadsIn i zero c (text brace) =
      let at_nul : Inside behind (0 ∷ behind) = nul in
      let at_brace : Inside behind (b'}' ∷ 0 ∷ behind) = text brace in ground arith
  scan_byte-ReadsIn i (suc l) c (text brace) =
      let at_nul : Inside behind (0 ∷ behind) = nul in
      let at_brace : Inside behind (b'}' ∷ 0 ∷ behind) = text brace in ground arith
  scan_byte-ReadsIn i zero c (text (byte n b)) = ground (arith, text b, text (byte n b))
  scan_byte-ReadsIn i (suc l) c (text (byte n b)) = ground (arith, text b, text (byte n b))

  matched-ReadsIn :
      (m : Option Bool) (key : Bytes) (i : Bool) (l c : ℕ) {p : Bytes}
      → Inside behind p
      → MatchIn m (drop (length key) (c ∷ p))
      → ReadsIn (matched m key i l c p)
  unfolding matched ReadsIn MatchIn
  matched-ReadsIn none key i l c b m = absurd m
  matched-ReadsIn (some false) key i l c b m = scan_byte-ReadsIn i l c b
  matched-ReadsIn (some true) key i l c b m = ground (arith, after_key-ReadsIn i l m, b)

  round-ReadsIn :
      (key : Bytes) (i : Bool) (l : ℕ) {p : Bytes}
      → All (λ k. k ≢ b'}') key
      → Inside behind p
      → ReadsIn (round key i l p)
  unfolding round ReadsIn
  round-ReadsIn key i l h nul = tt
  round-ReadsIn key i l h (text brace) =
      matched-ReadsIn (same_prefix key (b'}' ∷ 0 ∷ behind)) key i l b'}' nul
        (same_prefix-MatchIn key h brace)
  round-ReadsIn key i l h (text (byte {c} {p} n b)) = rw (ne→== c 0 n) (
      matched-ReadsIn (same_prefix key (c ∷ p)) key i l c (text b)
        (same_prefix-MatchIn key h (byte n b)))

  go_on-ReadsIn :
      (f : Bool → ℕ → Bytes → Round) (r : Round)
      → ReadsIn r
      → ((i : Bool) (l : ℕ) (p : Bytes) → Inside behind p → ReadsIn (f i l p))
      → ReadsIn (go_on f r)
  unfolding ReadsIn
  go_on-ReadsIn f (next i l p) h k = k i l p h
  go_on-ReadsIn f overrun h k = h
  go_on-ReadsIn f missing h k = h
  go_on-ReadsIn f (value_at _ _ _) h k = h
  go_on-ReadsIn f out_of_fuel h k = h

  search-ReadsIn :
      (fuel : ℕ) (key : Bytes) (i : Bool) (l : ℕ) (p : Bytes)
      → All (λ k. k ≢ b'}') key
      → Inside behind p
      → ReadsIn (search fuel key i l p)
  unfolding search
  search-ReadsIn zero key i l p h b = unfold ReadsIn in tt
  search-ReadsIn (suc fuel) key i l p h b =
      go_on-ReadsIn (search fuel key) (round key i l p) (round-ReadsIn key i l h b)
        (λ i' l' p' b'. search-ReadsIn fuel key i' l' p' h b')

  copy_nul-InBounds :
      (json q : Bool) (s : Copier) (size : ℕ) → InBounds (copy json q s size (0 ∷ behind))
  unfolding copy
  copy_nul-InBounds json q s size = ground arith

  copy-InBounds :
      (json q : Bool) (s : Copier) (size : ℕ) {p : Bytes}
      → Braced behind p
      → InBounds (copy json q s size p)
  unfolding copy
  copy-InBounds json q s size brace =
      copied-InBounds _ _ (copy_round json q s b'}') b'}'
        (λ s'. copy json q s' (size - 1) (0 ∷ behind))
        (λ s'. copy_nul-InBounds json q s' (size - 1))
  copy-InBounds json q s size (byte {c} {p} n b) =
      copied-InBounds _ _ (copy_round json q s c) c (λ s'. copy json q s' (size - 1) p)
        (λ s'. copy-InBounds json q s' (size - 1) b)

  copy_value-InBounds :
      (json q : Bool) (size : ℕ) {p : Bytes} → Braced behind p → InBounds (copy_value json q size p)
  unfolding copy_value
  copy_value-InBounds json false size b = copy-InBounds json false _ size b
  copy_value-InBounds json true size brace = copy_nul-InBounds json true _ size
  copy_value-InBounds json true size (byte n b) = copy-InBounds json true _ size b

  extract-InBounds :
      (want : Bool) (size : ℕ) (r : Round)
      → ReadsIn r
      → ((i : Bool) (l : ℕ) (p : Bytes) → r ≢ next i l p)
      → r ≢ out_of_fuel
      → InBounds (extract want size r)
  unfolding extract ReadsIn
  extract-InBounds want size overrun h k f = absurd h
  extract-InBounds want size missing h k f = ground arith
  extract-InBounds false size (value_at json q p) h k f = ground arith
  extract-InBounds true size (value_at json q p) h k f = copy_value-InBounds json q size h
  extract-InBounds want size (next i l p) h k f = absurd (k i l p refl)
  extract-InBounds want size out_of_fuel h k f = absurd (f refl)

  append-Braced : (t : Bytes) → IsText t → Braced behind (t ++ b'}' ∷ 0 ∷ behind)
  append-Braced [] h = brace
  append-Braced (c ∷ t) h = byte h.0 (append-Braced t h.1)

-- On a text that ends with a closing brace and a NUL, the function reads no byte past the
-- allocation, wherever behind the NUL that ends, for every key that is not NULL and has no closing
-- brace, and for every value buffer or none.
pub simple_json_processor-InBounds :
    (t key : Bytes) (want : Bool) (size : ℕ) (behind : Bytes)
    → IsText t
    → All (λ k. k ≢ b'}') key
    → InBounds (simple_json_processor (some (t ++ b'}' ∷ 0 ∷ behind)) (some key) want size)
unfolding simple_json_processor
simple_json_processor-InBounds t [] want size behind ht hk = ground arith
simple_json_processor-InBounds t (k ∷ key) want size behind ht hk =
    let p = t ++ b'}' ∷ 0 ∷ behind in
    extract-InBounds behind want size (search (length p + 1) (k ∷ key) false 0 p)
      (search-ReadsIn behind (length p + 1) (k ∷ key) false 0 p hk
        (text (append-Braced behind t ht)))
      (search-ne-next (length p + 1) (k ∷ key) false 0 p)
      (search-ne-out_of_fuel (length p + 1) (k ∷ key) false 0 p (omega arith))

-- On an object that is cut behind the name of the key, in an allocation that ends with the NUL
-- behind it, the function reads past the allocation: let the key match nowhere in front of that,
-- where no bracket, backslash or NUL stands but the open brace.
pub simple_json_processor_overrun :
    (k : ℕ) (key before : Bytes) (want : Bool) (size : ℕ)
    → k ≢ 0
    → All IsPlain before
    → NoMatch (k ∷ key) (b'{' ∷ before) ((k ∷ key) ++ 0 ∷ [])
    → simple_json_processor
        (some (b'{' ∷ (before ++ ((k ∷ key) ++ 0 ∷ []))))
        (some (k ∷ key))
        want
        size
      ≡ Extraction.overrun
unfolding simple_json_processor
simple_json_processor_overrun k key before want size k0 hp hm =
    let f = (k ∷ key) ++ 0 ∷ [] in
    let p = before ++ f in
    rw
      (
        search-next (length (b'{' ∷ p) + 1) (length p + 1) (k ∷ key) false false 0 1 (b'{' ∷ p) p
            (round_open (k ∷ key) p hm.0) (omega arith) (omega arith),
        search_plain (length p + 1) (k ∷ key) false 1 before f hp hm.1 (omega arith),
        search-next (suc (length f)) 1 (k ∷ key) (toggled false before) (toggled false before) 1 1 f
            [] (round_cut k key (toggled false before) k0) (omega arith) (omega arith),
      )
      (search_nil (k ∷ key) (toggled false before) want size)
