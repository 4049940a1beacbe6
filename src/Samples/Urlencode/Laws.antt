-- ===== src/Samples/Urlencode/Laws.antt =====
-- `urlDecode` undoes `urlEncode`.
use parse_embedded_sdks.Base.{
  ℕ, zero, suc, ◌*◌, ◌/◌, ◌%◌, ◌≤◌, ◌<◌, ◌≡◌, ◌≢◌, refl, ap, ◌∙◌, sym, Bool, true, not, ◌&&◌,
  Bool-cases, and_split, some, [], ◌∷◌, ◌++◌, append_assoc, Bytes, All, All-append, length,
  length-append, ◌==◌, ne→==, ==_iff, if◌then◌else◌, inl, inr, arith,
}
use native.Mathlib.Decide.{dec_lt}
use parse_embedded_sdks.CString.{IsText}
use parse_embedded_sdks.Samples.Urlencode.{
  is_url_safe, nibble_digit, encode_byte, also_written, url_encode, decode_byte, url_decode,
}

-- A test that all numbers below a bound meet.
abbrev all_below : (ℕ → Bool) → ℕ → Bool
all_below p zero = true
all_below p (suc n) = p n && all_below p n

all_below_lem : (p : ℕ → Bool) (n k : ℕ) → all_below p n ≡ true → k < n → p k ≡ true
all_below_lem p zero k h l = absurd (omega arith)
all_below_lem p (suc n) k h l = elim (dec_lt k n) [
  | yes below ↦ all_below_lem p n k (and_split (p n) (all_below p n) h).1 below
  | no above ↦ ap p (omega arith) ∙ (and_split (p n) (all_below p n) h).0
]

-- The bytes of an escape are not NUL, and are decoded to the byte.
abbrev escapes : ℕ → Bool
escapes c =
    let h = nibble_digit (c / 16) in
    let l = nibble_digit (c % 16) in not (h == 0) && (not (l == 0) && (decode_byte h l == c))

escapes_all : all_below escapes 256 ≡ true
escapes_all = refl

decode_plain :
    (c : ℕ) (p : Bytes)
    → c ≢ 0
    → c ≢ b'%'
    → url_decode (c ∷ p) ≡ also_written ((if c == b'+' then b' ' else c) ∷ []) (url_decode p)
unfolding url_decode
decode_plain c [] n m = rw (ne→== c 0 n)
decode_plain c (h ∷ []) n m =
    rw (ne→== c 0 n, ne→== c b'%' m)
      (elim (Bool-cases (h == 0)) [ inl e ↦ rw e refl | inr e ↦ rw e refl ])
decode_plain c (h ∷ l ∷ p) n m = rw (ne→== c 0 n, ne→== c b'%' m) refl

decode_escape :
    (c h l : ℕ) (p : Bytes)
    → h ≢ 0
    → l ≢ 0
    → decode_byte h l ≡ c
    → url_decode (b'%' ∷ h ∷ l ∷ p) ≡ also_written (c ∷ []) (url_decode p)
unfolding url_decode
decode_escape c h l p n m e =
    rw (ne→== h 0 n, ne→== l 0 m) (ap (λ b. also_written (b ∷ []) (url_decode p)) e)

not_zero : (c : ℕ) → not (c == 0) ≡ true → c ≢ 0
not_zero c h = ground arith

escape_lem :
    (c : ℕ)
    → c < 256
    → (nibble_digit (c / 16) ≢ 0)
      × (nibble_digit (c % 16) ≢ 0)
      × (decode_byte (nibble_digit (c / 16)) (nibble_digit (c % 16)) ≡ c)
escape_lem c l =
    let h = nibble_digit (c / 16) in
    let k = nibble_digit (c % 16) in
    let same = decode_byte h k == c in
    let all =
      and_split (not (h == 0)) (not (k == 0) && same) (all_below_lem escapes 256 c escapes_all l) in
    let rest = and_split (not (k == 0)) same all.1 in
    (not_zero h all.0, not_zero k rest.0, (==_iff (decode_byte h k) c).0 rest.1)

unreserved-percent : (c : ℕ) → is_url_safe c ≡ true → c ≢ b'%'
unreserved-percent c h = ground arith

unreserved-plus : (c : ℕ) → is_url_safe c ≡ true → c ≢ b'+'
unreserved-plus c h = ground arith

-- The text of one byte is decoded to it.
decode-encode_byte :
    (c : ℕ) (p : Bytes)
    → c ≢ 0
    → c < 256
    → url_decode (encode_byte c ++ p) ≡ also_written (c ∷ []) (url_decode p)
decode-encode_byte c p n l = elim (Bool-cases (is_url_safe c)) [
  | inl e ↦ rw e (
      decode_plain c p n (unreserved-percent c e)
      ∙ ap (λ t. also_written ((if t then b' ' else c) ∷ []) (url_decode p))
          (ne→== c b'+' (unreserved-plus c e)))
  | inr e ↦ rw e (elim (Bool-cases (c == b' ')) [
    | inl s ↦ rw s (
        decode_plain b'+' p (ground arith) (ground arith)
        ∙ ap (λ b. also_written (b ∷ []) (url_decode p)) (sym ((==_iff c b' ').0 s)))
    | inr s ↦ rw s (
        let escape = escape_lem c l in
        decode_escape c (nibble_digit (c / 16)) (nibble_digit (c % 16)) p escape.0 escape.1
          escape.2)
  ])
]

nibble-IsText : (code : ℕ) → nibble_digit code ≢ 0
nibble-IsText code = ground arith

unreserved-IsText : (c : ℕ) → is_url_safe c ≡ true → c ≢ 0
unreserved-IsText c h = ground arith

encode_byte-IsText : (c : ℕ) → IsText (encode_byte c) × (length (encode_byte c) ≤ 3)
encode_byte-IsText c = elim (Bool-cases (is_url_safe c)) [
  | inl e ↦ rw e ((unreserved-IsText c e, tt), omega arith)
  | inr e ↦ rw e (elim (Bool-cases (c == b' ')) [
    | inl s ↦ rw s ((ground arith, tt), omega arith)
    | inr s ↦
        rw s ((ground arith, (nibble-IsText (c / 16), (nibble-IsText (c % 16), tt))), omega arith)
  ])
]

abbrev pub IsByte : ℕ → Type 0
IsByte c = c < 256

url_decode_end : (behind : Bytes) → url_decode (0 ∷ behind) ≡ some []
unfolding url_decode
url_decode_end [] = refl
url_decode_end (h ∷ []) = refl
url_decode_end (h ∷ l ∷ p) = refl

-- Every text of bytes without NUL is encoded, in at most three times its length and without NUL,
-- and the encoding is decoded to the text, whatever stands behind either in its array.
pub url_encode-url_decode :
    (s behind behind' : Bytes)
    → IsText s
    → All IsByte s
    → (e : Bytes) × (url_encode (s ++ 0 ∷ behind) ≡ some e)
      × IsText e
      × (length e ≤ 3 * length s)
      × (url_decode (e ++ 0 ∷ behind') ≡ some s)
unfolding url_encode url_decode
url_encode-url_decode [] behind behind' t h = ([], refl, tt, omega arith, url_decode_end behind')
url_encode-url_decode (c ∷ s) behind behind' t h =
    let (e, encoded, text, size, decoded) = url_encode-url_decode s behind behind' t.1 h.1 in
    let byte = encode_byte-IsText c in
    (
      encode_byte c ++ e,
      rw (ne→== c 0 t.0, encoded),
      All-append (λ b. b ≢ 0) (encode_byte c) e byte.0 text,
      omega (arith, byte.1, length-append (encode_byte c) e),
      ap url_decode (append_assoc (encode_byte c) e (0 ∷ behind'))
          ∙ decode-encode_byte c (e ++ 0 ∷ behind') t.0 h.0
          ∙ ap (also_written (c ∷ [])) decoded,
    )
