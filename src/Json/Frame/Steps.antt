-- ===== src/Json/Frame/Steps.antt =====
-- How `findJsonEndParams` and `findJsonBeginningParams` pass the parts of a message.
use native.Mathlib.Decide.{dec_le}
use parse_embedded_sdks.Base.{
  ℕ, zero, suc, ◌+◌, ◌≤◌, ◌<◌, ◌≡◌, ◌≢◌, refl, ap, ◌∙◌, Bool, true, false, not, Option, none, some,
  List, [], ◌∷◌, ◌++◌, append_assoc, Bytes, All, length, length-append, ℤ, pos, inc, arith,
}
use parse_embedded_sdks.Json.Frame.{
  advance, not_found, found, beginning_round, end_round, find_beginning, find_end,
}
use parse_embedded_sdks.Json.Messages.{
  Item, char, escape, Body, empty, plain, quoted, nested, render_items, render_body, render,
  AreItems, IsPlain, IsBody, IsGap,
}

find_end-advance :
    (size n : ℕ) (i i' : Bool) (l l' : ℤ) (c : ℕ) (p : Bytes)
    → ((d : Option ℕ) → end_round size n i l c d ≡ advance i' l')
    → find_end size n i l (c ∷ p) ≡ find_end size (n + 1) i' l' p
unfolding find_end
find_end-advance size n i i' l l' c [] h = rw (h none, find_end)
find_end-advance size n i i' l l' c (d ∷ p) h = rw (h (some d), find_end)

find_end-stop :
    (size n : ℕ) (i : Bool) (l : ℤ) (c : ℕ) (p : Bytes)
    → c ≢ 0
    → size ≤ n
    → find_end size n i l (c ∷ p) ≡ not_found
unfolding find_end end_round
find_end-stop size n i l c [] c0 h = ground arith
find_end-stop size n i l c (d ∷ p) c0 h = ground arith

find_end-here :
    (size n : ℕ) (p : Bytes) → n < size → find_end size n false (pos 1) (b'}' ∷ p) ≡ found n p
unfolding find_end end_round
find_end-here size n [] h = ground arith
find_end-here size n (d ∷ p) h = ground arith

find_end-escape :
    (size n : ℕ) (l : ℤ) (c : ℕ) (p : Bytes)
    → c ≢ 0
    → n < size
    → find_end size n true l (b'\\' ∷ c ∷ p) ≡ find_end size (n + 2) true l p
unfolding find_end end_round
find_end-escape size n l c p c0 h = ground arith

module _ (size n : ℕ) (h : n < size) (d : Option ℕ) where
  end_round_char :
      (l : ℤ) (c : ℕ)
      → c ≢ 0
      → c ≢ b'"'
      → c ≢ b'\\'
      → (k : ℕ) → l ≡ pos (suc k)
      → end_round size n true l c d ≡ advance true l
  unfolding end_round
  end_round_char l c c0 cq cb k e = ground arith

  end_round_plain : (l : ℤ) (c : ℕ) → IsPlain c → end_round size n false l c d ≡ advance false l
  unfolding end_round
  end_round_plain l c p = ground arith

  end_round_quote : (i : Bool) (l : ℤ) → end_round size n i l b'"' d ≡ advance (not i) l
  unfolding end_round
  end_round_quote i l = ground arith

  end_round_open : (l : ℤ) → end_round size n false l b'{' d ≡ advance false (inc l)
  unfolding end_round
  end_round_open l = ground arith

  end_round_close :
      (k : ℕ) → end_round size n false (pos (suc (suc k))) b'}' d ≡ advance false (pos (suc k))
  unfolding end_round
  end_round_close k = ground arith

-- The text of a string is passed where the size allows.
find_end_items :
    (size n k : ℕ) (items : List Item) (p : Bytes)
    → AreItems items
    → n + length (render_items items) ≤ size
    → find_end size n true (pos (suc k)) (render_items items ++ p)
      ≡ find_end size (n + length (render_items items)) true (pos (suc k)) p
find_end_items size n k [] p h f = ap (λ m. find_end size m true (pos (suc k)) p) (omega arith)
find_end_items size n k (char c ∷ items) p h f =
    find_end-advance size n true true _ _ c _
      (λ d. end_round_char size n (omega arith) d (pos (suc k)) c h.0 h.1 h.2 k refl)
    ∙ find_end_items size (n + 1) k items p h.3 (omega arith)
    ∙ ap (λ m. find_end size m true (pos (suc k)) p) (omega arith)
find_end_items size n k (escape c ∷ items) p h f =
    find_end-escape size n (pos (suc k)) c (render_items items ++ p) h.0 (omega arith)
    ∙ find_end_items size (n + 2) k items p h.1 (omega arith)
    ∙ ap (λ m. find_end size m true (pos (suc k)) p) (omega arith)

-- So is a body, at the level inside its braces.
pub find_end_body :
    (size n k : ℕ) (b : Body) (p : Bytes)
    → IsBody b
    → n + length (render_body b) ≤ size
    → find_end size n false (pos (suc k)) (render_body b ++ p)
      ≡ find_end size (n + length (render_body b)) false (pos (suc k)) p
find_end_body size n k empty p h f = ap (λ m. find_end size m false (pos (suc k)) p) (omega arith)
find_end_body size n k (plain c b) p h f =
    find_end-advance size n false false _ _ c _
      (λ d. end_round_plain size n (omega arith) d (pos (suc k)) c h.0)
    ∙ find_end_body size (n + 1) k b p h.1 (omega arith)
    ∙ ap (λ m. find_end size m false (pos (suc k)) p) (omega arith)
find_end_body size n k (quoted items b) p h f =
    let len = length-append (render_items items) (b'"' ∷ render_body b) in
    let m = n + 1 + length (render_items items) in
    rw append_assoc (
      find_end-advance size n false true _ _ b'"' _
        (λ d. end_round_quote size n (omega arith) d false (pos (suc k)))
      ∙ find_end_items size (n + 1) k items _ h.0 (omega arith)
      ∙ find_end-advance size m true false _ _ b'"' _
          (λ d. end_round_quote size m (omega arith) d true (pos (suc k)))
      ∙ find_end_body size (m + 1) k b p h.1 (omega arith)
      ∙ ap (λ j. find_end size j false (pos (suc k)) p) (omega arith))
find_end_body size n k (nested inner b) p h f =
    let len = length-append (render_body inner) (b'}' ∷ render_body b) in
    let m = n + 1 + length (render_body inner) in
    rw append_assoc (
      find_end-advance size n false false _ _ b'{' _
        (λ d. end_round_open size n (omega arith) d (pos (suc k)))
      ∙ find_end_body size (n + 1) (suc k) inner _ h.0 (omega arith)
      ∙ find_end-advance size m false false _ _ b'}' _
          (λ d. end_round_close size m (omega arith) d k)
      ∙ find_end_body size (m + 1) k b p h.1 (omega arith)
      ∙ ap (λ j. find_end size j false (pos (suc k)) p) (omega arith))

-- Where the size is reached inside the text of a string, or right behind it, nothing is found.
find_end_items_cut :
    (size n k : ℕ) (items : List Item) (c : ℕ) (p : Bytes)
    → AreItems items
    → c ≢ 0
    → size ≤ n + length (render_items items)
    → find_end size n true (pos (suc k)) (render_items items ++ c ∷ p) ≡ not_found
find_end_items_cut size n k [] c p h c0 f = find_end-stop size n true _ c p c0 (omega arith)
find_end_items_cut size n k (char d ∷ items) c p h c0 f = elim (dec_le size n) [
  | yes cut ↦ find_end-stop size n true _ d _ h.0 cut
  | no more ↦
      find_end-advance size n true true _ _ d _
        (λ e. end_round_char size n (omega arith) e (pos (suc k)) d h.0 h.1 h.2 k refl)
      ∙ find_end_items_cut size (n + 1) k items c p h.3 c0 (omega arith)
]
find_end_items_cut size n k (escape d ∷ items) c p h c0 f = elim (dec_le size n) [
  | yes cut ↦ find_end-stop size n true _ b'\\' _ (omega arith) cut
  | no more ↦
      find_end-escape size n (pos (suc k)) d (render_items items ++ c ∷ p) h.0 (omega arith)
      ∙ find_end_items_cut size (n + 2) k items c p h.1 c0 (omega arith)
]

pub find_end_body_cut :
    (size n k : ℕ) (b : Body) (c : ℕ) (p : Bytes)
    → IsBody b
    → c ≢ 0
    → size ≤ n + length (render_body b)
    → find_end size n false (pos (suc k)) (render_body b ++ c ∷ p) ≡ not_found
find_end_body_cut size n k empty c p h c0 f = find_end-stop size n false _ c p c0 (omega arith)
find_end_body_cut size n k (plain d b) c p h c0 f = elim (dec_le size n) [
  | yes cut ↦ find_end-stop size n false _ d _ h.0.0 cut
  | no more ↦
      find_end-advance size n false false _ _ d _
        (λ e. end_round_plain size n (omega arith) e (pos (suc k)) d h.0)
      ∙ find_end_body_cut size (n + 1) k b c p h.1 c0 (omega arith)
]
find_end_body_cut size n k (quoted items b) c p h c0 f = elim (dec_le size n) [
  | yes cut ↦ find_end-stop size n false _ b'"' _ (omega arith) cut
  | no more ↦
      let len = length-append (render_items items) (b'"' ∷ render_body b) in
      let m = n + 1 + length (render_items items) in
      rw append_assoc (
        find_end-advance size n false true _ _ b'"' _
          (λ d. end_round_quote size n (omega arith) d false (pos (suc k)))
        ∙ elim (dec_le size m) [
          | yes cut ↦ find_end_items_cut size (n + 1) k items b'"' _ h.0 (omega arith) (omega arith)
          | no rest ↦
              find_end_items size (n + 1) k items _ h.0 (omega arith)
              ∙ find_end-advance size m true false _ _ b'"' _
                  (λ d. end_round_quote size m (omega arith) d true (pos (suc k)))
              ∙ find_end_body_cut size (m + 1) k b c p h.1 c0 (omega arith)
        ])
]
find_end_body_cut size n k (nested inner b) c p h c0 f = elim (dec_le size n) [
  | yes cut ↦ find_end-stop size n false _ b'{' _ (omega arith) cut
  | no more ↦
      let len = length-append (render_body inner) (b'}' ∷ render_body b) in
      let m = n + 1 + length (render_body inner) in
      rw append_assoc (
        find_end-advance size n false false _ _ b'{' _
          (λ d. end_round_open size n (omega arith) d (pos (suc k)))
        ∙ elim (dec_le size m) [
          | yes cut ↦
              find_end_body_cut size (n + 1) (suc k) inner b'}' _ h.0 (omega arith) (omega arith)
          | no rest ↦
              find_end_body size (n + 1) (suc k) inner _ h.0 (omega arith)
              ∙ find_end-advance size m false false _ _ b'}' _
                  (λ d. end_round_close size m (omega arith) d k)
              ∙ find_end_body_cut size (m + 1) k b c p h.1 c0 (omega arith)
        ])
]

-- A whole message is found from its open brace, with `*pos` at its closing brace.
pub find_end_message :
    (size : ℕ) (b : Body) (p : Bytes)
    → IsBody b
    → length (render b) ≤ size
    → find_end size 0 false (pos 0) (render b ++ p) ≡ found (1 + length (render_body b)) p
find_end_message size b p h f =
    let len = length-append (render_body b) (b'}' ∷ []) in
    rw append_assoc (
      find_end-advance size 0 false false _ _ b'{' _
        (λ d. end_round_open size 0 (omega arith) d (pos 0))
      ∙ find_end_body size 1 0 b (b'}' ∷ p) h (omega arith)
      ∙ find_end-here size (1 + length (render_body b)) p (omega arith))

-- No end is found in a size below that of the message.
pub find_end_message_cut :
    (size : ℕ) (b : Body) (p : Bytes)
    → IsBody b
    → size < length (render b)
    → find_end size 0 false (pos 0) (render b ++ p) ≡ not_found
find_end_message_cut zero b p h f = find_end-stop 0 0 false _ b'{' _ (omega arith) (omega arith)
find_end_message_cut (suc s) b p h f =
    let len = length-append (render_body b) (b'}' ∷ []) in
    rw append_assoc (
      find_end-advance (suc s) 0 false false _ _ b'{' _
        (λ d. end_round_open (suc s) 0 (omega arith) d (pos 0))
      ∙ find_end_body_cut (suc s) 1 0 b b'}' p h (omega arith) (omega arith))

find_beginning-advance :
    (size n c : ℕ) (p : Bytes)
    → IsGap c
    → n < size
    → find_beginning size n false (c ∷ p) ≡ find_beginning size (n + 1) false p
unfolding find_beginning beginning_round
find_beginning-advance size n c [] g h = ground arith
find_beginning-advance size n c (d ∷ p) g h = ground arith

-- The bytes between messages are passed up to an open brace.
pub find_beginning_gap :
    (size n : ℕ) (gap p : Bytes)
    → All IsGap gap
    → n + length gap ≤ size
    → find_beginning size n false (gap ++ p) ≡ find_beginning size (n + length gap) false p
find_beginning_gap size n [] p h f = ap (λ m. find_beginning size m false p) (omega arith)
find_beginning_gap size n (c ∷ gap) p h f =
    find_beginning-advance size n c (gap ++ p) h.0 (omega arith)
    ∙ find_beginning_gap size (n + 1) gap p h.1 (omega arith)
    ∙ ap (λ m. find_beginning size m false p) (omega arith)

pub find_beginning-here :
    (size n : ℕ) (p : Bytes)
    → n < size
    → find_beginning size n false (b'{' ∷ p) ≡ found n (b'{' ∷ p)
unfolding find_beginning beginning_round
find_beginning-here size n [] h = ground arith
find_beginning-here size n (d ∷ p) h = ground arith
