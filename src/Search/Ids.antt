-- ===== src/Search/Ids.antt =====
-- `convertToId` of docs/html/search/search.js, and the test with which the results page compares two
-- such ids. A text is the list of its UTF-16 code units.
use parse_embedded_sdks.Base.{
  and_split, ℕ, zero, suc, ◌+◌, ◌-◌, ◌/◌, ◌%◌, ◌≤◌, ◌<◌, ◌≡◌, ◌≢◌, inl, inr, refl, sym, ap, ap₂,
  subst, ◌∙◌, Bool, true, false, ◌&&◌, ◌||◌, [], ◌∷◌, ◌++◌, Bytes, codes, All, All-append, length,
  take, ltb, leb, ◌==◌, if◌then◌else◌, lt→ltb, le→ltb, Bool-cases, ltb→lt, ne→==, arith, ==_refl,
}

digit : ℕ → ℕ
digit n = if ltb n 10 then b'0' + n else b'a' + n - 10

-- `n.toString(16)`. The digits of a number are fewer than it and one.
hex_digits : ℕ → ℕ → Bytes
unfolding digit
hex_digits zero n = []
hex_digits (suc fuel) n =
    let rest = hex_digits fuel (n / 16) in (if ltb n 16 then [] else rest) ++ digit (n % 16) ∷ []

unfoldable pub to_hex : ℕ → Bytes
unfolding hex_digits
to_hex n = hex_digits (n + 1) n

-- `c.match(/[a-z0-9\u0080-\uFFFF]/)`.
abbrev is_kept : ℕ → Bool
is_kept c = (leb b'a' c && leb c b'z') || (leb b'0' c && leb c b'9') || (leb 128 c && leb c 65535)

-- What the loop appends for a code unit.
unfoldable pub unit_id : ℕ → Bytes
unfolding to_hex
unit_id c =
    if is_kept c then c ∷ [] else if ltb c 16 then codes "_0" ++ to_hex c else codes "_" ++ to_hex c

abbrev pub convert_to_id : Bytes → Bytes
convert_to_id [] = []
convert_to_id (c ∷ search) = unit_id c ++ convert_to_id search

-- `==` on texts.
abbrev pub same_text : Bytes → Bytes → Bool
same_text [] [] = true
same_text [] (d ∷ t) = false
same_text (c ∷ s) [] = false
same_text (c ∷ s) (d ∷ t) = (c == d) && same_text s t

-- `search.length<=name.length && name.substr(0, search.length)==search`.
abbrev pub starts_with : (search name : Bytes) → Bool
starts_with search name =
    leb (length search) (length name) && same_text (take (length search) name) search

digit-ne : (a b : ℕ) → a < 16 → b < 16 → a ≢ b → digit a ≢ digit b
unfolding digit
digit-ne a b ha hb h = ground arith

hex_digits_small : (fuel n : ℕ) → n < 16 → hex_digits (suc fuel) n ≡ digit n ∷ []
unfolding hex_digits
hex_digits_small fuel n h =
    ap (λ b. (if b then [] else hex_digits fuel (n / 16)) ++ digit (n % 16) ∷ []) (lt→ltb n 16 h)
    ∙ ap (λ m. digit m ∷ []) (omega arith)

hex_digits_step :
    (fuel n : ℕ)
    → 16 ≤ n
    → hex_digits (suc fuel) n ≡ hex_digits fuel (n / 16) ++ digit (n % 16) ∷ []
unfolding hex_digits
hex_digits_step fuel n h =
    ap (λ b. (if b then [] else hex_digits fuel (n / 16)) ++ digit (n % 16) ∷ []) (le→ltb n 16 h)

to_hex_small : (n : ℕ) → n < 16 → to_hex n ≡ digit n ∷ []
unfolding to_hex
to_hex_small n h =
    let e : n + 1 ≡ suc n = omega arith in ap (λ f. hex_digits f n) e ∙ hex_digits_small n n h

to_hex_byte : (n : ℕ) → 16 ≤ n → n < 256 → to_hex n ≡ digit (n / 16) ∷ digit (n % 16) ∷ []
unfolding to_hex
to_hex_byte n h k =
    let e : n + 1 ≡ suc (suc (n - 1)) = omega arith in
    ap (λ f. hex_digits f n) e
    ∙ hex_digits_step (suc (n - 1)) n h
    ∙ ap (λ ds. ds ++ digit (n % 16) ∷ []) (hex_digits_small (n - 1) (n / 16) (omega arith))

-- A code unit stands for itself, or for three units that begin with an underscore.
data UnitId (c : ℕ) : Bytes → Type 0 where
  kept : is_kept c ≡ true → c ≢ b'_' → UnitId c (c ∷ [])
  hex : is_kept c ≡ false → UnitId c (b'_' ∷ digit (c / 16) ∷ digit (c % 16) ∷ [])

is_kept-ne : (c : ℕ) → is_kept c ≡ true → c ≢ b'_'
is_kept-ne c h = ground arith

is_kept-lt : (c : ℕ) → c < 65536 → is_kept c ≡ false → c < 128
is_kept-lt c k h = ground arith

ltb-le : (a b : ℕ) → ltb a b ≡ false → b ≤ a
ltb-le a b h = ground arith

digit_zero : digit 0 ≡ b'0'
unfolding digit
digit_zero = refl

small_hex :
    (c : ℕ) → c < 16 → b'_' ∷ digit (c / 16) ∷ digit (c % 16) ∷ [] ≡ codes "_0" ++ digit c ∷ []
small_hex c h =
    let q : c / 16 ≡ 0 = omega arith in
    let r : c % 16 ≡ c = omega arith in
    ap₂ (λ x y. b'_' ∷ x ∷ digit y ∷ []) (ap digit q ∙ digit_zero) r

unit_id_lem : (c : ℕ) → c < 65536 → UnitId c (unit_id c)
unfolding unit_id
unit_id_lem c h = elim (Bool-cases (is_kept c)) [
  | inl k ↦ rw k (kept k (is_kept-ne c k))
  | inr k ↦ elim (Bool-cases (ltb c 16)) [
    | inl s ↦
        rw (k, s, to_hex_small c (ltb→lt c 16 s))
          (subst (UnitId c) (small_hex c (ltb→lt c 16 s)) (hex k))
    | inr s ↦
        let lt = is_kept-lt c h k in rw (k, s, to_hex_byte c (ltb-le c 16 s) (omega arith)) (hex k)
  ]
]

is_prefix : Bytes → Bytes → Bool
is_prefix [] name = true
is_prefix (c ∷ search) [] = false
is_prefix (c ∷ search) (d ∷ name) = (c == d) && is_prefix search name

starts_with-is_prefix : (search name : Bytes) → starts_with search name ≡ is_prefix search name
unfolding is_prefix
starts_with-is_prefix [] name = ground arith
starts_with-is_prefix (c ∷ search) [] = ground arith
starts_with-is_prefix (c ∷ search) (d ∷ name) = ground (arith, starts_with-is_prefix search name)

same_digits : (c d : ℕ) → c / 16 ≡ d / 16 → c % 16 ≡ d % 16 → c ≡ d
same_digits c d h k = omega arith

digit-== : (a b : ℕ) → a < 16 → b < 16 → (digit a == digit b) ≡ (a == b)
unfolding digit
digit-== a b ha hb = ground arith

-- Two digits are the same as two others just where the numbers are the same.
digits-== :
    (c d : ℕ) (r : Bool)
    → c < 256
    → d < 256
    → ((digit (c / 16) == digit (d / 16)) && ((digit (c % 16) == digit (d % 16)) && r))
      ≡ ((c == d) && r)
digits-== c d r hc hd =
    rw
      (
        digit-== (c / 16) (d / 16) (omega arith) (omega arith),
        digit-== (c % 16) (d % 16) (omega arith) (omega arith),
      )
      (ground (arith, same_digits c d))

unit-is_prefix :
    {c d : ℕ} {u v : Bytes} (search name : Bytes)
    → c < 65536
    → d < 65536
    → UnitId c u
    → UnitId d v
    → is_prefix (u ++ search) (v ++ name) ≡ ((c == d) && is_prefix search name)
unfolding is_prefix
unit-is_prefix search name hc hd (kept k n) (kept k' n') = refl
unit-is_prefix {c} {d} search name hc hd (kept k n) (hex k') =
    rw (ne→== c b'_' n, ne→== c d (ground arith)) refl
unit-is_prefix {c} {d} search name hc hd (hex k) (kept k' n') =
    rw (ne→== b'_' d (omega arith), ne→== c d (ground arith)) refl
unit-is_prefix {c} {d} search name hc hd (hex k) (hex k') =
    digits-== c d (is_prefix search name) (omega (arith, is_kept-lt c hc k))
      (omega (arith, is_kept-lt d hd k'))

convert_to_id-is_prefix :
    (search name : Bytes)
    → All (λ c. c < 65536) search
    → All (λ c. c < 65536) name
    → is_prefix (convert_to_id search) (convert_to_id name) ≡ is_prefix search name
unfolding is_prefix
convert_to_id-is_prefix [] name h k = refl
convert_to_id-is_prefix (c ∷ search) [] h k = nonempty (unit_id_lem c h.0)
  where
    nonempty : {u : Bytes} → UnitId c u → is_prefix (u ++ convert_to_id search) [] ≡ false
    nonempty (kept _ _) = refl
    nonempty (hex _) = refl
convert_to_id-is_prefix (c ∷ search) (d ∷ name) h k =
    unit-is_prefix (convert_to_id search) (convert_to_id name) h.0 k.0 (unit_id_lem c h.0)
      (unit_id_lem d k.0)
    ∙ ap (λ r. (c == d) && r) (convert_to_id-is_prefix search name h.1 k.1)

-- The id of a text begins with the id of another just where the text begins with the other, for texts
-- of UTF-16 code units.
pub starts_with-convert_to_id :
    (search name : Bytes)
    → All (λ c. c < 65536) search
    → All (λ c. c < 65536) name
    → starts_with (convert_to_id search) (convert_to_id name) ≡ starts_with search name
starts_with-convert_to_id search name h k =
    starts_with-is_prefix (convert_to_id search) (convert_to_id name)
    ∙ convert_to_id-is_prefix search name h k
    ∙ sym (starts_with-is_prefix search name)

prefix_split :
    (search name : Bytes) → is_prefix search name ≡ true → (rest : Bytes) × (name ≡ search ++ rest)
unfolding is_prefix
prefix_split [] name h = (name, refl)
prefix_split (c ∷ search) [] h = ground arith
prefix_split (c ∷ search) (d ∷ name) h =
    let (rest, e) = prefix_split search name (ground arith) in
    let same : d ≡ c = ground arith in (rest, ap₂ ◌∷◌ same e)

-- An id that begins with the code of one unit does not begin with the id of a text that begins with
-- another unit.
pub starts_with-ne :
    (c d : ℕ) (text id : Bytes)
    → c < 65536
    → d < 65536
    → c ≢ d
    → starts_with (unit_id d) id ≡ true
    → starts_with (convert_to_id (c ∷ text)) id ≡ false
starts_with-ne c d text id hc hd ne h =
    let (rest, e) = prefix_split (unit_id d) id (sym (starts_with-is_prefix (unit_id d) id) ∙ h) in
    starts_with-is_prefix (convert_to_id (c ∷ text)) id
    ∙ ap (is_prefix (convert_to_id (c ∷ text))) e
    ∙ unit-is_prefix (convert_to_id text) rest hc hd (unit_id_lem c hc) (unit_id_lem d hd)
    ∙ ap (λ b. b && is_prefix (convert_to_id text) rest) (ne→== c d ne)

digit-ne_marks : (n : ℕ) → n < 16 → (digit n ≢ b'?') × (digit n ≢ b'#')
unfolding digit
digit-ne_marks n h = ground arith

hex_digits-ne_marks : (fuel n : ℕ) → All (λ c. (c ≢ b'?') × (c ≢ b'#')) (hex_digits fuel n)
unfolding hex_digits
hex_digits-ne_marks zero n = tt
hex_digits-ne_marks (suc fuel) n = elim (Bool-cases (ltb n 16)) [
  | inl e ↦ rw e (digit-ne_marks (n % 16) (omega arith), tt)
  | inr e ↦ rw e (
      All-append _ (hex_digits fuel (n / 16)) (digit (n % 16) ∷ [])
        (hex_digits-ne_marks fuel (n / 16)) (digit-ne_marks (n % 16) (omega arith), tt))
]

-- A hexadecimal number begins no query and no fragment.
pub to_hex-ne_marks : (n : ℕ) → All (λ c. (c ≢ b'?') × (c ≢ b'#')) (to_hex n)
unfolding to_hex
to_hex-ne_marks n = hex_digits-ne_marks (n + 1) n

-- Texts that are equal by `==`.
pub same_text_refl : (s : Bytes) → same_text s s ≡ true
same_text_refl [] = refl
same_text_refl (c ∷ s) = rw (==_refl c) (same_text_refl s)

pub same_text_eq : (s t : Bytes) → same_text s t ≡ true → s ≡ t
same_text_eq [] [] h = refl
same_text_eq [] (d ∷ t) h = ground arith
same_text_eq (c ∷ s) [] h = ground arith
same_text_eq (c ∷ s) (d ∷ t) h =
    let (p, q) = and_split (c == d) (same_text s t) h in
    let e : c ≡ d = ground arith in ap₂ ◌∷◌ e (same_text_eq s t q)
