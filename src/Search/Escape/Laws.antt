-- ===== src/Search/Escape/Laws.antt =====
-- `unescape` takes out what `escape` has put in.
use parse_embedded_sdks.Base.{
  ℕ, zero, suc, ◌+◌, ◌*◌, ◌/◌, ◌%◌, ◌<◌, ◌≡◌, ◌≢◌, refl, ap, ◌∙◌, true, false, Bool-cases, inl, inr,
  ltb→lt, none, some, [], ◌∷◌, ◌++◌, Bytes, All, All-append, ltb, ◌==◌, if◌then◌else◌, ne→==, arith,
}
use parse_embedded_sdks.Search.Escape.{
  upper_digit, digit_value, is_unreserved, escape_unit, escape, read_digits, sized, read_code,
  unescape_from, unescape,
}

digit_value-upper_digit : (n : ℕ) → n < 16 → digit_value (upper_digit n) ≡ some n
unfolding upper_digit digit_value
digit_value-upper_digit n h = ground arith

upper_digit-ne-u : (n : ℕ) → n < 16 → (upper_digit n == b'u') ≡ false
unfolding upper_digit
upper_digit-ne-u n h = ground arith

read_digits-upper_digit :
    (k n d : ℕ) (s : Bytes)
    → d < 16
    → read_digits (suc k) n (upper_digit d ∷ s) ≡ read_digits k (n * 16 + d) s
unfolding read_digits
read_digits-upper_digit k n d s h =
    ap (λ o. elim o [ none ↦ none | some d' ↦ read_digits k (n * 16 + d') s ])
      (digit_value-upper_digit d h)

read_two :
    (a b : ℕ) (s : Bytes)
    → a < 16
    → b < 16
    → read_digits 2 0 (upper_digit a ∷ upper_digit b ∷ s) ≡ some (a * 16 + b)
unfolding read_digits
read_two a b s ha hb =
    let e : (0 * 16 + a) * 16 + b ≡ a * 16 + b = omega arith in
    read_digits-upper_digit 1 0 a (upper_digit b ∷ s) ha
    ∙ read_digits-upper_digit 0 (0 * 16 + a) b s hb
    ∙ ap some e

read_four :
    (a b c d : ℕ) (s : Bytes)
    → a < 16
    → b < 16
    → c < 16
    → d < 16
    → read_digits 4 0 (upper_digit a ∷ upper_digit b ∷ upper_digit c ∷ upper_digit d ∷ s)
      ≡ some (a * 4096 + b * 256 + c * 16 + d)
unfolding read_digits
read_four a b c d s ha hb hc hd =
    let n : ℕ = 0 * 16 + a in
    let e : ((n * 16 + b) * 16 + c) * 16 + d ≡ a * 4096 + b * 256 + c * 16 + d = omega arith in
    read_digits-upper_digit 3 0 a (upper_digit b ∷ upper_digit c ∷ upper_digit d ∷ s) ha
    ∙ read_digits-upper_digit 2 n b (upper_digit c ∷ upper_digit d ∷ s) hb
    ∙ read_digits-upper_digit 1 (n * 16 + b) c (upper_digit d ∷ s) hc
    ∙ read_digits-upper_digit 0 ((n * 16 + b) * 16 + c) d s hd
    ∙ ap some e

-- An escaped byte, and an escaped code unit.
read_code-two :
    (a b : ℕ) (s : Bytes)
    → a < 16
    → b < 16
    → read_code (upper_digit a ∷ upper_digit b ∷ s) ≡ some (a * 16 + b, 2)
unfolding read_code
read_code-two a b s ha hb =
    ap
      (λ q. elim (if q then sized 5 (read_digits 4 0 (upper_digit b ∷ s)) else none) [
        | some r ↦ some r
        | none ↦ sized 2 (read_digits 2 0 (upper_digit a ∷ upper_digit b ∷ s))
      ])
      (upper_digit-ne-u a ha)
    ∙ ap (sized 2) (read_two a b s ha hb)

read_code-four :
    (a b c d : ℕ) (s : Bytes)
    → a < 16
    → b < 16
    → c < 16
    → d < 16
    → read_code (b'u' ∷ upper_digit a ∷ upper_digit b ∷ upper_digit c ∷ upper_digit d ∷ s)
      ≡ some (a * 4096 + b * 256 + c * 16 + d, 5)
unfolding read_code
read_code-four a b c d s ha hb hc hd =
    let t = upper_digit a ∷ upper_digit b ∷ upper_digit c ∷ upper_digit d ∷ s in
    ap (λ o. elim (sized 5 o) [ some r ↦ some r | none ↦ sized 2 (read_digits 2 0 (b'u' ∷ t)) ])
      (read_four a b c d s ha hb hc hd)

-- At a percent sign and a code.
unescape_code :
    (t : Bytes) (n k : ℕ)
    → read_code t ≡ some (n, k)
    → unescape_from zero (b'%' ∷ t) ≡ n ∷ unescape_from k t
unfolding unescape_from
unescape_code t n k h =
    ap
      (λ o. elim o [ none ↦ b'%' ∷ unescape_from zero t | some (n', k') ↦ n' ∷ unescape_from k' t ])
      h

unescape_other :
    (c : ℕ) (s : Bytes) → c ≢ b'%' → unescape_from zero (c ∷ s) ≡ c ∷ unescape_from zero s
unfolding unescape_from
unescape_other c s h =
    ap
      (λ q. elim (if q then read_code s else none) [
        | none ↦ c ∷ unescape_from zero s
        | some (n, k) ↦ n ∷ unescape_from k s
      ])
      (ne→== c b'%' h)

is_unreserved-ne : (c : ℕ) → is_unreserved c ≡ true → c ≢ b'%'
is_unreserved-ne c h = ground arith

unit_two :
    (c : ℕ)
    → is_unreserved c ≡ false
    → ltb c 256 ≡ true
    → escape_unit c ≡ b'%' ∷ upper_digit (c / 16) ∷ upper_digit (c % 16) ∷ []
unfolding escape_unit
unit_two c h k = rw (h, k) refl

unit_four :
    (c : ℕ)
    → is_unreserved c ≡ false
    → ltb c 256 ≡ false
    → escape_unit c
      ≡ b'%'
        ∷ b'u'
        ∷ upper_digit (c / 4096)
        ∷ upper_digit (c / 256 % 16)
        ∷ upper_digit (c / 16 % 16)
        ∷ upper_digit (c % 16)
        ∷ []
unfolding escape_unit
unit_four c h k = rw (h, k) refl

unit_one : (c : ℕ) → is_unreserved c ≡ true → escape_unit c ≡ c ∷ []
unfolding escape_unit
unit_one c h = rw h refl

-- What `escape` writes for a code unit is read as that unit.
escape_unit-skip :
    (c : ℕ) (s : Bytes)
    → c < 65536
    → unescape_from zero (escape_unit c ++ s) ≡ c ∷ unescape_from zero s
unfolding unescape_from
escape_unit-skip c s h = elim (Bool-cases (is_unreserved c)) [
  | inl e ↦
      ap (λ u. unescape_from zero (u ++ s)) (unit_one c e)
      ∙ unescape_other c s (is_unreserved-ne c e)
  | inr e ↦ elim (Bool-cases (ltb c 256)) [
    | inl l ↦
        let n : c / 16 * 16 + c % 16 ≡ c = omega arith in
        let lt = ltb→lt c 256 l in
        ap (λ u. unescape_from zero (u ++ s)) (unit_two c e l)
        ∙ unescape_code (upper_digit (c / 16) ∷ upper_digit (c % 16) ∷ s) (c / 16 * 16 + c % 16) 2
            (read_code-two (c / 16) (c % 16) s (omega arith) (omega arith))
        ∙ ap (λ d. d ∷ unescape_from zero s) n
    | inr l ↦
        let n : c / 4096 * 4096 + c / 256 % 16 * 256 + c / 16 % 16 * 16 + c % 16 ≡ c =
          omega arith in
        ap (λ u. unescape_from zero (u ++ s)) (unit_four c e l)
        ∙ unescape_code
            (b'u'
              ∷ upper_digit (c / 4096)
              ∷ upper_digit (c / 256 % 16)
              ∷ upper_digit (c / 16 % 16)
              ∷ upper_digit (c % 16)
              ∷ s)
            (c / 4096 * 4096 + c / 256 % 16 * 256 + c / 16 % 16 * 16 + c % 16) 5
            (read_code-four (c / 4096) (c / 256 % 16) (c / 16 % 16) (c % 16) s (omega arith)
              (omega arith) (omega arith) (omega arith))
        ∙ ap (λ d. d ∷ unescape_from zero s) n
  ]
]

unescape_from-escape : (s : Bytes) → All (λ c. c < 65536) s → unescape_from zero (escape s) ≡ s
unfolding escape unescape_from
unescape_from-escape [] h = refl
unescape_from-escape (c ∷ s) h =
    escape_unit-skip c (escape s) h.0 ∙ ap (λ t. c ∷ t) (unescape_from-escape s h.1)

-- `unescape` undoes `escape`, on texts of UTF-16 code units.
pub unescape-escape : (s : Bytes) → All (λ c. c < 65536) s → unescape (escape s) ≡ s
unfolding unescape
unescape-escape s h = unescape_from-escape s h

upper_digit-ne-hash : (n : ℕ) → n < 16 → upper_digit n ≢ b'#'
unfolding upper_digit
upper_digit-ne-hash n h = ground arith

escape_unit-ne-hash : (c : ℕ) → c < 65536 → All (λ d. d ≢ b'#') (escape_unit c)
escape_unit-ne-hash c h = elim (Bool-cases (is_unreserved c)) [
  | inl e ↦ rw (unit_one c e) (ground arith)
  | inr e ↦ elim (Bool-cases (ltb c 256)) [
    | inl l ↦
        rw (unit_two c e l) (
          omega (arith, ltb→lt c 256 l, upper_digit-ne-hash (c / 16), upper_digit-ne-hash (c % 16)))
    | inr l ↦ rw (unit_four c e l) (
        omega (
          arith,
          upper_digit-ne-hash (c / 4096),
          upper_digit-ne-hash (c / 256 % 16),
          upper_digit-ne-hash (c / 16 % 16),
          upper_digit-ne-hash (c % 16),
        ))
  ]
]

-- An escaped text begins no fragment.
pub escape-ne-hash : (s : Bytes) → All (λ c. c < 65536) s → All (λ d. d ≢ b'#') (escape s)
unfolding escape
escape-ne-hash [] h = tt
escape-ne-hash (c ∷ s) h =
    All-append _ (escape_unit c) (escape s) (escape_unit-ne-hash c h.0) (escape-ne-hash s h.1)
