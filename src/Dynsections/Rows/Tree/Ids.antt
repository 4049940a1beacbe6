-- ===== src/Dynsections/Rows/Tree/Ids.antt =====
-- The ids of a tree's rows say which rows are the children of a row, and which are below it.
use parse_embedded_sdks.Base.{
  lower, lower_unit, ℕ, ◌≡◌, ◌≢◌, refl, sym, ap, ap₂, ◌∙◌, true, false, ◌&&◌, Bool-cases, inl, inr,
  none, some, [], ◌∷◌, ◌++◌, Bytes, All, leb, ◌==◌, ne→==, if◌then◌else◌, arith,
}
use parse_embedded_sdks.Search.Ids.{same_text, same_text_eq, same_text_refl}
use parse_embedded_sdks.Search.Site.{drop_prefix}
use parse_embedded_sdks.Search.Page.{decimal}
use parse_embedded_sdks.Search.Page.Decimal.{
  IsDigit, decimal-IsDigit, decimal-inj, decimal-ne-nil, append-ne-nil,
}
use parse_embedded_sdks.Dynsections.Rows.{is_some, is_one_level, digits_end}
use parse_embedded_sdks.Dynsections.Rows.Tree.{
  TreePath, path_id, same_path, is_child_path, is_below_path,
}

not_mark : (c : ℕ) → IsDigit c → c ≢ b'_'
not_mark c h = omega arith

-- A number of one id against one of another.
drop_number :
    (xs ys a b : Bytes)
    → All IsDigit xs
    → All IsDigit ys
    → drop_prefix (xs ++ b'_' ∷ a) (ys ++ b'_' ∷ b)
      ≡ (if same_text xs ys then drop_prefix a b else none)
drop_number [] [] a b hx hy = refl
drop_number [] (y ∷ ys) a b hx hy = rw (ne→== b'_' y (omega arith)) refl
drop_number (x ∷ xs) [] a b hx hy = rw (ne→== x b'_' (omega arith)) refl
drop_number (x ∷ xs) (y ∷ ys) a b hx hy = elim (Bool-cases (x == y)) [
  | inl e ↦ rw e (drop_number xs ys a b hx.1 hy.1)
  | inr e ↦ rw e refl
]

same_number :
    (xs ys a b : Bytes)
    → All IsDigit xs
    → All IsDigit ys
    → same_text (xs ++ b'_' ∷ a) (ys ++ b'_' ∷ b) ≡ same_text xs ys && same_text a b
same_number [] [] a b hx hy = refl
same_number [] (y ∷ ys) a b hx hy = rw (ne→== b'_' y (omega arith)) refl
same_number (x ∷ xs) [] a b hx hy = rw (ne→== x b'_' (omega arith)) refl
same_number (x ∷ xs) (y ∷ ys) a b hx hy = elim (Bool-cases (x == y)) [
  | inl e ↦ rw e (same_number xs ys a b hx.1 hy.1)
  | inr e ↦ rw e refl
]

same_decimal : (m n : ℕ) → same_text (decimal m) (decimal n) ≡ (m == n)
same_decimal m n = elim (Bool-cases (same_text (decimal m) (decimal n))) [
  | inl e ↦
      let same = decimal-inj m n (same_text_eq (decimal m) (decimal n) e) in
      let equal : (m == n) ≡ true = ground arith in e ∙ sym equal
  | inr e ↦
      let ne : m ≢ n = λ h.
        let itself : true ≡ false =
          sym (same_text_refl (decimal m)) ∙ ap (λ k. same_text (decimal m) (decimal k)) h ∙ e in
        ground arith in
      e ∙ sym (ne→== m n ne)
]

drop_path :
    (m n : ℕ) (p q : TreePath)
    → drop_prefix (path_id (m ∷ p)) (path_id (n ∷ q))
      ≡ (if m == n then drop_prefix (path_id p) (path_id q) else none)
drop_path m n p q =
    drop_number (decimal m) (decimal n) (path_id p) (path_id q) (decimal-IsDigit m)
      (decimal-IsDigit n)
    ∙ ap (λ b. if b then drop_prefix (path_id p) (path_id q) else none) (same_decimal m n)

-- The id of a path is not empty, but for the empty path.
drop_some : (xs s : Bytes) → drop_prefix (xs ++ b'_' ∷ s) [] ≡ none
drop_some [] s = refl
drop_some (x ∷ xs) s = refl

pub is_below-path_id :
    (p q : TreePath) → is_some (drop_prefix (path_id p) (path_id q)) ≡ is_below_path p q
is_below-path_id [] q = refl
is_below-path_id (m ∷ p) [] = ap is_some (drop_some (decimal m) (path_id p))
is_below-path_id (m ∷ p) (n ∷ q) = elim (Bool-cases (m == n)) [
  | inl e ↦ rw (drop_path m n p q, e) (is_below-path_id p q)
  | inr e ↦ rw (drop_path m n p q, e) refl
]

is_digit : (c : ℕ) → IsDigit c → (leb b'0' c && leb c b'9') ≡ true
is_digit c h = ground arith

digits_end_one : (s : Bytes) → All IsDigit s → digits_end (s ++ b'_' ∷ []) ≡ true
digits_end_one [] h = refl
digits_end_one (c ∷ []) h = rw (is_digit c h.0) refl
digits_end_one (c ∷ d ∷ s) h = rw (is_digit c h.0) (digits_end_one (d ∷ s) h.1)

digits_end_more :
    (s : Bytes) (d : ℕ) (t : Bytes) → All IsDigit s → digits_end (s ++ b'_' ∷ d ∷ t) ≡ false
digits_end_more [] d t h = refl
digits_end_more (c ∷ []) d t h = rw (is_digit c h.0) refl
digits_end_more (c ∷ k ∷ s) d t h = rw (is_digit c h.0) (digits_end_more (k ∷ s) d t h.1)

-- One number is a level, and a number with more behind it is not.
one_number : (s : Bytes) → s ≢ [] → All IsDigit s → is_one_level (some (s ++ b'_' ∷ [])) ≡ true
one_number [] ne h = absurd (ne refl)
one_number (c ∷ s) ne h = rw (is_digit c h.0) (digits_end_one s h.1)

more_numbers :
    (s t : Bytes) → s ≢ [] → t ≢ [] → All IsDigit s → is_one_level (some (s ++ b'_' ∷ t)) ≡ false
more_numbers [] t ne nt h = absurd (ne refl)
more_numbers (c ∷ s) [] ne nt h = absurd (nt refl)
more_numbers (c ∷ s) (d ∷ t) ne nt h = rw (is_digit c h.0) (digits_end_more s d t h.1)

path_id-ne-nil : (n : ℕ) (q : TreePath) → path_id (n ∷ q) ≢ []
path_id-ne-nil n q = append-ne-nil (decimal n) b'_' (path_id q)

child_root : (q : TreePath) → is_one_level (some (path_id q)) ≡ is_child_path [] q
child_root [] = refl
child_root (n ∷ []) = one_number (decimal n) (decimal-ne-nil n) (decimal-IsDigit n)
child_root (n ∷ k ∷ q) =
    more_numbers (decimal n) (path_id (k ∷ q)) (decimal-ne-nil n) (path_id-ne-nil k q)
      (decimal-IsDigit n)

pub is_child-path_id :
    (p q : TreePath) → is_one_level (drop_prefix (path_id p) (path_id q)) ≡ is_child_path p q
is_child-path_id [] q = child_root q
is_child-path_id (m ∷ p) [] = ap is_one_level (drop_some (decimal m) (path_id p))
is_child-path_id (m ∷ p) (n ∷ q) = elim (Bool-cases (m == n)) [
  | inl e ↦ rw (drop_path m n p q, e) (is_child-path_id p q)
  | inr e ↦ rw (drop_path m n p q, e) refl
]

no_text : (s t : Bytes) → same_text [] (s ++ b'_' ∷ t) ≡ false
no_text [] t = refl
no_text (c ∷ s) t = refl

text_no : (s t : Bytes) → same_text (s ++ b'_' ∷ t) [] ≡ false
text_no [] t = refl
text_no (c ∷ s) t = refl

pub same_text-path_id : (p q : TreePath) → same_text (path_id p) (path_id q) ≡ same_path p q
same_text-path_id [] [] = refl
same_text-path_id [] (n ∷ q) = no_text (decimal n) (path_id q)
same_text-path_id (m ∷ p) [] = text_no (decimal m) (path_id p)
same_text-path_id (m ∷ p) (n ∷ q) =
    same_number (decimal m) (decimal n) (path_id p) (path_id q) (decimal-IsDigit m)
      (decimal-IsDigit n)
    ∙ ap₂ ◌&&◌ (same_decimal m n) (same_text-path_id p q)

-- The ids are in lower case.
lower_digit : (c : ℕ) → IsDigit c → lower_unit c ≡ c
lower_digit c h = ground arith

lower_digits : (s t : Bytes) → All IsDigit s → lower (s ++ t) ≡ s ++ lower t
lower_digits [] t h = refl
lower_digits (c ∷ s) t h = ap₂ ◌∷◌ (lower_digit c h.0) (lower_digits s t h.1)

pub lower-path_id : (p : TreePath) → lower (path_id p) ≡ path_id p
lower-path_id [] = refl
lower-path_id (n ∷ p) =
    lower_digits (decimal n) (b'_' ∷ path_id p) (decimal-IsDigit n)
    ∙ ap (λ s. decimal n ++ b'_' ∷ s) (lower-path_id p)
