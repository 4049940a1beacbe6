-- ===== src/Json/Frame/Laws.antt =====
-- What `getPushJson`, `isCompleteJson` and `findSecondJson` say of a text that holds messages.
use parse_embedded_sdks.Base.{
  ℕ, ◌+◌, ◌-◌, ◌≤◌, ◌<◌, ◌≡◌, refl, sym, ap, ◌∙◌, true, false, none, some, List, [], ◌∷◌, ◌++◌,
  append_assoc, append-nil, Bytes, All, All-append, length, length-append, arith,
}
use parse_embedded_sdks.CString.{IsText, strlen, strlen-IsText}
use parse_embedded_sdks.Json.Frame.{
  overrun, found, find_beginning, find_json_beginning, find_json_end, find_second_json,
  is_complete_json, message, get_push_json,
}
use parse_embedded_sdks.Json.Frame.Steps.{
  find_end_message, find_end_message_cut, find_beginning_gap, find_beginning-here,
}
use parse_embedded_sdks.Json.Messages.{
  Item, char, escape, Body, empty, plain, quoted, nested, render_items, render_body, render,
  AreItems, IsBody, IsGap,
}

-- The open brace of the first message.
find_beginning_message :
    (size : ℕ) (gap : Bytes) (b : Body) (p : Bytes)
    → All IsGap gap
    → length gap < size
    → find_beginning size 0 false (gap ++ (render b ++ p)) ≡ found (length gap) (render b ++ p)
find_beginning_message size gap b p h f =
    find_beginning_gap size 0 gap (render b ++ p) h (omega arith)
    ∙ ap (λ m. find_beginning size m false (render b ++ p)) (omega arith)
    ∙ find_beginning-here size (length gap) _ f

-- A message that lies whole inside the size is announced with its place and its length, whatever
-- stands behind it.
pub get_push_json_whole :
    (size : ℕ) (gap : Bytes) (b : Body) (p : Bytes)
    → All IsGap gap
    → IsBody b
    → length gap + length (render b) ≤ size
    → get_push_json (gap ++ (render b ++ p)) size ≡ message (length gap) (some (length (render b)))
unfolding get_push_json
get_push_json_whole size gap b p hg hb f =
    let len = length-append (render_body b) (b'}' ∷ []) in
    rw
      (
        find_beginning_message size gap b p hg (omega arith),
        find_end_message (size - length gap) b p hb (omega arith),
      )
      (ap (λ n. message (length gap) (some n)) (omega arith))

-- A message that has begun inside the size and has not ended there is announced as partial, with
-- its place, although its other bytes may stand behind.
pub get_push_json_partial :
    (size : ℕ) (gap : Bytes) (b : Body) (p : Bytes)
    → All IsGap gap
    → IsBody b
    → length gap < size
    → size < length gap + length (render b)
    → get_push_json (gap ++ (render b ++ p)) size ≡ message (length gap) none
unfolding get_push_json
get_push_json_partial size gap b p hg hb f e =
    rw
      (
        find_beginning_message size gap b p hg f,
        find_end_message_cut (size - length gap) b p hb (omega arith),
      )
      refl

-- Where the data is a gap that fills the whole allocation, the function reads the byte behind it:
-- it tests `*data` before it tests the size.
pub get_push_json_overrun : (gap : Bytes) → All IsGap gap → get_push_json gap (length gap) ≡ overrun
unfolding get_push_json find_beginning
get_push_json_overrun gap h =
    rw (← append-nil gap)
      (rw (find_beginning_gap (length (gap ++ [])) 0 gap [] h (rw append-nil (omega arith))) refl)

items-IsText : (items : List Item) → AreItems items → IsText (render_items items)
items-IsText [] h = tt
items-IsText (char c ∷ items) h = (h.0, items-IsText items h.3)
items-IsText (escape c ∷ items) h = (omega arith, (h.0, items-IsText items h.1))

pub body-IsText : (b : Body) → IsBody b → IsText (render_body b)
body-IsText empty h = tt
body-IsText (plain c b) h = (h.0.0, body-IsText b h.1)
body-IsText (quoted items b) h = (
  omega arith,
  All-append _ (render_items items) _ (items-IsText items h.0) (omega arith, body-IsText b h.1),
)
body-IsText (nested inner b) h = (
  omega arith,
  All-append _ (render_body inner) _ (body-IsText inner h.0) (omega arith, body-IsText b h.1),
)

pub render-IsText : (b : Body) → IsBody b → IsText (render b)
render-IsText b h =
    (omega arith, All-append _ (render_body b) _ (body-IsText b h) (omega arith, tt))

gap-IsText : (gap : Bytes) → All IsGap gap → IsText gap
gap-IsText [] h = tt
gap-IsText (c ∷ gap) h = (h.0.0, gap-IsText gap h.1)

regroup : (a b c d : Bytes) → a ++ (b ++ (c ++ d)) ≡ (a ++ (b ++ c)) ++ d
regroup a b c d = rw (append_assoc, append_assoc)

-- The scans up to the NUL, on a text that goes on with `t`.
module _ (b : Body) (t p : Bytes) (hb : IsBody b) (ht : IsText t) where
  find_json_beginning_message :
      (gap : Bytes)
      → All IsGap gap
      → find_json_beginning (gap ++ (render b ++ (t ++ 0 ∷ p)))
        ≡ found (length gap) (render b ++ (t ++ 0 ∷ p))
  unfolding find_json_beginning
  find_json_beginning_message gap hg =
      let text = gap ++ (render b ++ t) in
      let is_text =
        All-append _ gap _ (gap-IsText gap hg)
          (All-append _ (render b) t (render-IsText b hb) ht) in
      rw (ap strlen (regroup gap (render b) t (0 ∷ p)) ∙ strlen-IsText text p is_text) (
        find_beginning_message (length text) gap b (t ++ 0 ∷ p) hg
          (omega (arith, length-append gap (render b ++ t))))

  find_json_end_message :
      find_json_end (render b ++ (t ++ 0 ∷ p)) ≡ found (1 + length (render_body b)) (t ++ 0 ∷ p)
  unfolding find_json_end
  find_json_end_message =
      let text = render b ++ t in
      let is_text = All-append _ (render b) t (render-IsText b hb) ht in
      rw (ap strlen (sym (append_assoc (render b) t (0 ∷ p))) ∙ strlen-IsText text p is_text) (
        find_end_message (length text) b (t ++ 0 ∷ p) hb
          (omega (arith, length-append (render b) t)))

-- A text whose first brace begins a whole message is complete, whatever follows in the text.
pub is_complete_json_message :
    (gap : Bytes) (b : Body) (t p : Bytes)
    → All IsGap gap
    → IsBody b
    → IsText t
    → is_complete_json (gap ++ (render b ++ (t ++ 0 ∷ p))) ≡ some true
unfolding is_complete_json
is_complete_json_message gap b t p hg hb ht =
    rw (find_json_beginning_message b t p hb ht gap hg, find_json_end_message b t p hb ht) refl

-- Behind a first message and a gap, the pointer to the second is found.
pub find_second_json_message :
    (gap : Bytes) (b : Body) (gap' : Bytes) (b' : Body) (t p : Bytes)
    → All IsGap gap
    → IsBody b
    → All IsGap gap'
    → IsBody b'
    → IsText t
    → find_second_json (gap ++ (render b ++ (gap' ++ (render b' ++ (t ++ 0 ∷ p)))))
      ≡ found (length gap') (render b' ++ (t ++ 0 ∷ p))
unfolding find_second_json
find_second_json_message gap b gap' b' t p hg hb hg' hb' ht =
    let t' = gap' ++ (render b' ++ t) in
    let ht' : IsText t' =
      All-append _ gap' _ (gap-IsText gap' hg')
        (All-append _ (render b') t (render-IsText b' hb') ht) in
    let e = regroup gap' (render b') t (0 ∷ p) in
    rw e (
      rw (find_json_beginning_message b t' p hb ht' gap hg, find_json_end_message b t' p hb ht')
        (rw (← e) (find_json_beginning_message b' t p hb' ht gap' hg')))
