-- ===== src/CString.antt =====
-- C strings as the code reads them. A pointer is the list of the bytes from where it points to the
-- end of the allocation, so `[]` is a read out of bounds, and the byte 0 ends a string.
use mathlib.Core.Option
use parse_embedded_sdks.Base.{
  ℕ, ◌≤◌, ◌≡◌, ◌≢◌, Bool, true, false, Option, none, some, [], ◌∷◌, ◌++◌, ◌==◌, ◌||◌, ◌⊎◌, suc,
  ne→==, if◌then◌else◌, Bytes, All, length, arith, refl,
}

-- No byte of the text is NUL, as in what `strlen` measures.
abbrev pub IsText : Bytes → Type 0
IsText = All (λ c. c ≢ 0)

abbrev pub IsBlank : ℕ → Type 0
IsBlank c = (c ≡ b' ') ⊎ (c ≡ b'\t')

-- `strncmp(p, key, strlen(key)) == 0`, read byte by byte up to the first difference. `none` is a
-- read past the allocation of `p`.
abbrev pub same_prefix : (key p : Bytes) → Option Bool
same_prefix [] p = some true
same_prefix (k ∷ key) [] = none
same_prefix (k ∷ key) (c ∷ p) = if k == c then same_prefix key p else some false

-- `for (; *p == ' ' || *p == '\t'; ++p);`
abbrev pub skip_blanks : Bytes → Bytes
skip_blanks [] = []
skip_blanks (c ∷ p) = if c == b' ' || c == b'\t' then skip_blanks p else c ∷ p

-- A text is a prefix of itself.
pub same_prefix-append : (key p : Bytes) → same_prefix key (key ++ p) ≡ some true
same_prefix-append [] p = refl
same_prefix-append (k ∷ key) p = ground (arith, same_prefix-append key p)

pub length-skip_blanks : (p : Bytes) → length (skip_blanks p) ≤ length p
length-skip_blanks [] = omega arith
length-skip_blanks (c ∷ p) = ground (arith, length-skip_blanks p)

pub skip_blanks-append :
    (blanks : Bytes) (c : ℕ) (p : Bytes)
    → All IsBlank blanks
    → c ≢ b' '
    → c ≢ b'\t'
    → skip_blanks (blanks ++ c ∷ p) ≡ c ∷ p
skip_blanks-append [] c p h n m = ground arith
skip_blanks-append (b ∷ blanks) c p h n m = ground (arith, skip_blanks-append blanks c p h.1 n m)

-- `strlen(p)`.
unfoldable pub strlen : Bytes → Option ℕ
strlen [] = none
strlen (c ∷ p) = let rest = strlen p in if c == 0 then some 0 else Option.map suc rest

pub strlen-IsText : (t p : Bytes) → IsText t → strlen (t ++ 0 ∷ p) ≡ some (length t)
unfolding strlen
strlen-IsText [] p h = refl
strlen-IsText (c ∷ t) p h = rw (ne→== c 0 h.0, strlen-IsText t p h.1)
