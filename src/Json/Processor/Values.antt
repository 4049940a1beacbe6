-- ===== src/Json/Processor/Values.antt =====
-- What `simpleJsonProcessor` extracts from an object that has the key at its top level.
use parse_embedded_sdks.Base.{
  ℕ, zero, suc, ◌+◌, ◌-◌, ◌≤◌, ◌<◌, ◌≡◌, ◌≢◌, ◌⊎◌, refl, ◌∙◌, Bool, true, false, not, ◌==◌, some,
  inl, [], ◌∷◌, ◌++◌, Bytes, All, length, take, drop-append, ne→==, ==_refl, le→ltb, if◌then◌else◌,
  arith,
}
use parse_embedded_sdks.CString.{IsBlank, same_prefix, same_prefix-append, skip_blanks-append}
use parse_embedded_sdks.Json.Processor.{
  next, value_at, scan_byte, after_key, round, search, copied, Copier, return_value, continue,
  copy_round, copy, copy_value, simple_json_processor,
}
use parse_embedded_sdks.Json.Processor.Fuel.{search-next, search-fuel}

-- A byte that the first loop passes at level 1 with no change but, at a quote, of `inString`.
abbrev pub IsPlain : ℕ → Type 0
IsPlain c = (c ≢ 0) × (c ≢ b'\\') × (c ≢ b'{') × (c ≢ b'[') × (c ≢ b'}') × (c ≢ b']')

-- The key matches at no byte of `before`, which stands in front of `p`.
abbrev pub NoMatch : Bytes → Bytes → Bytes → Type 0
NoMatch key [] p = Unit
NoMatch key (c ∷ before) p =
    (same_prefix key (c ∷ (before ++ p)) ≡ some false) × NoMatch key before p

-- `inString` after a stretch of plain bytes.
abbrev pub toggled : Bool → Bytes → Bool
toggled i [] = i
toggled i (c ∷ cs) = toggled (if c == b'"' then not i else i) cs

round_plain :
    (key : Bytes) (i : Bool) (l c : ℕ) (p : Bytes)
    → IsPlain c
    → same_prefix key (c ∷ p) ≡ some false
    → round key i l (c ∷ p) ≡ next (if c == b'"' then not i else i) l p
unfolding round scan_byte
round_plain key i l c p h m = ground arith

-- The search passes plain bytes at which the key does not match.
pub search_plain :
    (fuel : ℕ) (key : Bytes) (i : Bool) (l : ℕ) (before p : Bytes)
    → All IsPlain before
    → NoMatch key before p
    → length (before ++ p) < fuel
    → search fuel key i l (before ++ p) ≡ search (suc (length p)) key (toggled i before) l p
search_plain fuel key i l [] p h m f = search-fuel fuel (suc (length p)) key i l p f (omega arith)
search_plain fuel key i l (c ∷ before) p h m f =
    search-next fuel (suc (length (before ++ p))) key i _ l l _ _
      (round_plain key i l c (before ++ p) h.0 m.0) f (omega arith)
    ∙ search_plain (suc (length (before ++ p))) key _ l before p h.1 m.1 (omega arith)

pub round_open :
    (key p : Bytes)
    → same_prefix key (b'{' ∷ p) ≡ some false
    → round key false 0 (b'{' ∷ p) ≡ next false 1 p
unfolding round scan_byte
round_open key p m = ground arith

-- At the key, its quote, a colon with any blanks, and a value: the loop breaks at the value.
round_key :
    (k : ℕ) (key : Bytes) (i : Bool) (l : ℕ) (blanks blanks' : Bytes) (c : ℕ) (rest : Bytes)
    → k ≢ 0
    → l ≤ 1
    → All IsBlank blanks
    → All IsBlank blanks'
    → (c ≢ 0) × (c ≢ b' ') × (c ≢ b'\t') × (c ≢ b'{') × (c ≢ b'[')
    → round (k ∷ key) i l ((k ∷ key) ++ (b'"' ∷ (blanks ++ (b':' ∷ (blanks' ++ c ∷ rest)))))
      ≡ value_at false (c == b'"') (c ∷ rest)
unfolding round after_key
round_key k key i l blanks blanks' c rest k0 hl hb hb' hc =
    rw (ne→== k 0 k0, ==_refl k, same_prefix-append key, le→ltb 1 l hl, drop-append key)
      (rw (skip_blanks-append blanks b':' (blanks' ++ c ∷ rest) hb (omega arith) (omega arith))
        (rw (skip_blanks-append blanks' c rest hb' hc.1 hc.2) (ground arith)))

-- The bytes that the second loop copies, and those that it stops at: in a quoted value, and in an
-- unquoted one that is no object or array.
abbrev pub IsCopied : Bool → ℕ → Type 0
IsCopied q c =
    (c ≢ 0) × (c ≢ b'\\') × (c ≢ b'"') × ((q ≡ true) ⊎ ((c ≢ b',') × (c ≢ b'}') × (c ≢ b']')))

abbrev pub IsEnd : Bool → ℕ → Type 0
IsEnd q c = (c ≡ b'"') ⊎ ((q ≡ false) × ((c ≡ b',') ⊎ (c ≡ b'}') ⊎ (c ≡ b']')))

abbrev start : Copier
start = record { backslash = false; in_string = true; level = 0 }

copy_round-IsCopied :
    (q : Bool) (c : ℕ) → IsCopied q c → copy_round false q start c ≡ continue start
unfolding copy_round
copy_round-IsCopied q c h = ground arith

copy_round-IsEnd : (q : Bool) (c : ℕ) → IsEnd q c → copy_round false q start c ≡ return_value []
unfolding copy_round
copy_round-IsEnd q c h = ground arith

pred_suc : (n : ℕ) → suc n - 1 ≡ n
pred_suc n = omega arith

copy_lem :
    (q : Bool) (size : ℕ) (value : Bytes) (c : ℕ) (rest : Bytes)
    → All (IsCopied q) value
    → IsEnd q c
    → copy false q start size (value ++ c ∷ rest) ≡ copied (take (size - 1) value) true
unfolding copy
copy_lem q zero [] c rest h e = ground arith
copy_lem q (suc zero) [] c rest h e = ground arith
copy_lem q (suc (suc n)) [] c rest h e = ground (arith, copy_round-IsEnd q c e)
copy_lem q zero (v ∷ value) c rest h e = ground arith
copy_lem q (suc zero) (v ∷ value) c rest h e = ground arith
copy_lem q (suc (suc n)) (v ∷ value) c rest h e = rw pred_suc (
    ground
      (arith, copy_round-IsCopied q v h.0, rw pred_suc at (copy_lem q (suc n) value c rest h.1 e)))

-- A field of an object from the first byte of its name, `p` being its value and what follows.
abbrev pub field : (key blanks blanks' p : Bytes) → Bytes
field key blanks blanks' p = key ++ (b'"' ∷ (blanks ++ (b':' ∷ (blanks' ++ p))))

-- A byte with which a value starts that is no object or array.
abbrev pub IsScalar : ℕ → Type 0
IsScalar c = (c ≢ 0) × (c ≢ b' ') × (c ≢ b'\t') × (c ≢ b'{') × (c ≢ b'[')

search_key :
    (k : ℕ) (key : Bytes) (i : Bool) (l : ℕ) (blanks blanks' : Bytes) (c : ℕ) (rest : Bytes) (n : ℕ)
    → k ≢ 0
    → l ≤ 1
    → All IsBlank blanks
    → All IsBlank blanks'
    → IsScalar c
    → search (suc n) (k ∷ key) i l (field (k ∷ key) blanks blanks' (c ∷ rest))
      ≡ value_at false (c == b'"') (c ∷ rest)
unfolding search
search_key k key i l blanks blanks' c rest n k0 hl hb hb' hc =
    rw (round_key k key i l blanks blanks' c rest k0 hl hb hb' (hc.0, hc.1, hc.2, hc.3, hc.4))

-- The open brace of the object, the text in front of the field, and the field.
search_object :
    (k : ℕ) (key before blanks blanks' : Bytes) (c : ℕ) (rest : Bytes)
    → k ≢ 0
    → All IsPlain before
    → All IsBlank blanks
    → All IsBlank blanks'
    → NoMatch (k ∷ key) (b'{' ∷ before) (field (k ∷ key) blanks blanks' (c ∷ rest))
    → IsScalar c
    → let p = b'{' ∷ (before ++ field (k ∷ key) blanks blanks' (c ∷ rest)) in
      search (length p + 1) (k ∷ key) false 0 p ≡ value_at false (c == b'"') (c ∷ rest)
search_object k key before blanks blanks' c rest k0 hp hb hb' hm hc =
    let f = field (k ∷ key) blanks blanks' (c ∷ rest) in
    let p = before ++ f in
    search-next (length (b'{' ∷ p) + 1) (length p + 1) (k ∷ key) false false 0 1 (b'{' ∷ p) p
      (round_open (k ∷ key) p hm.0) (omega arith) (omega arith)
    ∙ search_plain (length p + 1) (k ∷ key) false 1 before f hp hm.1 (omega arith)
    ∙ search_key k key (toggled false before) 1 blanks blanks' c rest (length f) k0 (omega arith) hb
        hb' hc

-- A quoted value: let the object have, at its top level, the key with its quote, blanks, a colon,
-- blanks and a quoted text of no quote, backslash or NUL, and let the key match nowhere in front of
-- that, where no bracket, backslash or NUL stands but the open brace. Then the value buffer gets
-- the first `size - 1` bytes of the text, and the function returns 1, also where it has cut the
-- text.
pub simple_json_processor-quoted :
    (k : ℕ) (key before blanks blanks' value rest : Bytes) (size : ℕ)
    → k ≢ 0
    → All IsPlain before
    → All IsBlank blanks
    → All IsBlank blanks'
    → All (IsCopied true) value
    → let f = field (k ∷ key) blanks blanks' (b'"' ∷ (value ++ b'"' ∷ rest)) in
      NoMatch (k ∷ key) (b'{' ∷ before) f
      → simple_json_processor (some (b'{' ∷ (before ++ f))) (some (k ∷ key)) true size
        ≡ copied (take (size - 1) value) true
unfolding simple_json_processor copy_value
simple_json_processor-quoted k key before blanks blanks' value rest size k0 hp hb hb' hv hm =
    rw
      (search_object k key before blanks blanks' b'"' (value ++ b'"' ∷ rest) k0 hp hb hb' hm
        (omega arith))
      (copy_lem true size value b'"' rest hv (inl refl))

-- A value that is no text, object or array, such as a number: let the object have, at its top level,
-- the key with its quote, blanks, a colon, blanks and the value, which has no quote, comma, closing
-- bracket, backslash or NUL, and which a comma, a closing bracket or a quote follows; and let the key
-- match nowhere in front of that, where no bracket, backslash or NUL stands but the open brace. Then
-- the value buffer gets the first `size - 1` bytes of the value, and the function returns 1.
pub simple_json_processor-unquoted :
    (k : ℕ) (key before blanks blanks' : Bytes) (v : ℕ) (value : Bytes) (e : ℕ) (rest : Bytes)
    (size : ℕ)
    → k ≢ 0
    → All IsPlain before
    → All IsBlank blanks
    → All IsBlank blanks'
    → IsScalar v
    → All (IsCopied false) (v ∷ value)
    → IsEnd false e
    → let f = field (k ∷ key) blanks blanks' (v ∷ (value ++ e ∷ rest)) in
      NoMatch (k ∷ key) (b'{' ∷ before) f
      → simple_json_processor (some (b'{' ∷ (before ++ f))) (some (k ∷ key)) true size
        ≡ copied (take (size - 1) (v ∷ value)) true
unfolding simple_json_processor copy_value
simple_json_processor-unquoted k key before blanks blanks' v value e rest size k0 hp hb hb' hs hv he
      hm =
    rw
      (
        search_object k key before blanks blanks' v (value ++ e ∷ rest) k0 hp hb hb' hm hs,
        ne→== v b'"' hv.0.2,
      )
      (copy_lem false size (v ∷ value) e rest hv he)
