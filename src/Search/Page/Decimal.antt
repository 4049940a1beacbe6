-- ===== src/Search/Page/Decimal.antt =====
-- Decimal numbers: their digits, and the number that they stand for.
use parse_embedded_sdks.Base.{
  ℕ, zero, suc, ◌+◌, ◌*◌, ◌-◌, ◌/◌, ◌%◌, ◌<◌, ◌≤◌, ◌≡◌, ◌≢◌, refl, sym, ap, ◌∙◌, Bool-cases, inl,
  inr, [], ◌∷◌, ◌++◌, Bytes, ltb, All, All-append, ltb→lt, if◌then◌else◌, arith,
}
use parse_embedded_sdks.Search.Page.{decimal_digits, decimal}

abbrev pub IsDigit : ℕ → Type 0
IsDigit c = (b'0' ≤ c) × (c ≤ b'9')

decimal_digits-IsDigit : (fuel n : ℕ) → All IsDigit (decimal_digits fuel n)
unfolding decimal_digits
decimal_digits-IsDigit zero n = tt
decimal_digits-IsDigit (suc fuel) n =
    let last : All IsDigit ((b'0' + n % 10) ∷ []) = omega arith in
    elim (Bool-cases (ltb n 10)) [
      | inl e ↦ rw e last
      | inr e ↦ rw e (
          All-append IsDigit (decimal_digits fuel (n / 10)) _ (decimal_digits-IsDigit fuel (n / 10))
            last)
    ]

-- The number that digits stand for, behind a number.
abbrev value : ℕ → Bytes → ℕ
value n [] = n
value n (c ∷ s) = value (10 * n + (c - b'0')) s

value-append : (n c : ℕ) (s : Bytes) → value n (s ++ c ∷ []) ≡ 10 * value n s + (c - b'0')
value-append n c [] = refl
value-append n c (d ∷ s) = value-append (10 * n + (d - b'0')) c s

value-decimal_digits : (fuel n : ℕ) → n < fuel → value 0 (decimal_digits fuel n) ≡ n
unfolding decimal_digits
value-decimal_digits zero n h = omega arith
value-decimal_digits (suc fuel) n h = elim (Bool-cases (ltb n 10)) [
  | inl e ↦ let small = ltb→lt n 10 e in rw e (omega arith)
  | inr e ↦
      let big : 10 ≤ n = ground arith in
      let ih = value-decimal_digits fuel (n / 10) (omega arith) in
      rw (e, value-append 0 (b'0' + n % 10) (decimal_digits fuel (n / 10)), ih) (omega arith)
]

pub decimal-IsDigit : (n : ℕ) → All IsDigit (decimal n)
unfolding decimal
decimal-IsDigit n = decimal_digits-IsDigit (n + 1) n

-- Numbers with the same digits are the same.
pub decimal-inj : (m n : ℕ) → decimal m ≡ decimal n → m ≡ n
unfolding decimal
decimal-inj m n h =
    sym (value-decimal_digits (m + 1) m (omega arith))
    ∙ ap (value 0) h
    ∙ value-decimal_digits (n + 1) n (omega arith)

pub append-ne-nil : (s : Bytes) (c : ℕ) (t : Bytes) → s ++ c ∷ t ≢ []
append-ne-nil [] c t h = ground arith
append-ne-nil (d ∷ s) c t h = ground arith

pub decimal-ne-nil : (n : ℕ) → decimal n ≢ []
unfolding decimal decimal_digits
decimal-ne-nil n h =
    let one_on : suc n ≡ n + 1 = omega arith in
    append-ne-nil (if ltb n 10 then [] else decimal_digits n (n / 10)) (b'0' + n % 10) []
      (ap (λ fuel. decimal_digits fuel n) one_on ∙ h)
