-- ===== src/Search/Box/Timers.antt =====
-- The timers that the handlers of the panel set and clear.
use parse_embedded_sdks.Base.{
  ℕ, ◌≡◌, ◌≢◌, refl, sym, ap, ◌∙◌, Bool, true, false, not, ◌||◌, Bool-cases, inl, inr, ◌⊎◌, Option,
  none, some, List, [], ◌∷◌, ◌++◌, ◌==◌, ==_refl, ne→==, if◌then◌else◌, arith,
}
use parse_embedded_sdks.Search.Ids.{same_text}
use parse_embedded_sdks.Search.Box.{
  SearchBox, Config, Effect, clear_timeout, set_search_timeout, focus_first_result, first_item,
  focus_select, activate, on_search_select_show, remove_blanks, text_changed, field_key,
  on_search_field_change, preceded,
}

-- `clearTimeout` on the timers that are running.
abbrev pub without : ℕ → List ℕ → List ℕ
without t [] = []
without t (u ∷ live) = if u == t then without t live else u ∷ without t live

-- The search timers that are running behind the effects of a handler, `timer` being the identifier
-- that `setTimeout` returns.
abbrev pub running : ℕ → List Effect → List ℕ → List ℕ
running timer [] live = live
running timer (clear_timeout t ∷ effects) live = running timer effects (without t live)
running timer (set_search_timeout _ ∷ effects) live = running timer effects (timer ∷ live)
running timer (_ ∷ effects) live = running timer effects live

-- The timers that `keyTimeout` tells of.
abbrev pub known : SearchBox → List ℕ
known box = if box.key_timeout == 0 then [] else box.key_timeout ∷ []

text_changed-running :
    (timer : ℕ) (box : SearchBox)
    → timer ≢ 0
    → box.key_timeout ≡ 0
    → running timer (text_changed timer box).1 [] ≡ known (text_changed timer box).0
unfolding text_changed
text_changed-running timer box ht h = ground arith

-- The effects of a handler, from no running timer, leave just the timer that the panel knows.
abbrev IsKnown : ℕ → SearchBox × List Effect → Type 0
IsKnown timer r = running timer r.1 [] ≡ known r.0

if-IsKnown :
    (timer : ℕ) (b : Bool) (x y : SearchBox × List Effect)
    → IsKnown timer x
    → IsKnown timer y
    → IsKnown timer (if b then x else y)
if-IsKnown timer true x y h k = h
if-IsKnown timer false x y h k = k

-- The effects of a handler that sets and clears no search timer.
without_timer :
    (timer : ℕ) (box box' : SearchBox) (o : Option ℕ) (t : ℕ)
    → box.key_timeout ≡ 0
    → box'.key_timeout ≡ box.key_timeout
    → IsKnown timer (box', focus_select o) × IsKnown timer (box', clear_timeout t ∷ focus_select o)
without_timer timer box box' none t h k = rw (k, h) (refl, refl)
without_timer timer box box' (some i) t h k = rw (k, h) (refl, refl)

show-IsKnown :
    (timer : ℕ) (box : SearchBox) (o : SearchBox → Option ℕ)
    → box.key_timeout ≡ 0
    → IsKnown timer (
      (on_search_select_show box).0,
      (on_search_select_show box).1 ++ focus_select (o (on_search_select_show box).0),
    )
unfolding on_search_select_show
show-IsKnown timer box o h = elim (Bool-cases (box.hide_timeout == 0)) [
  | inl e ↦ rw e (
      let box' = record box { select_shown = true } in
      (without_timer timer box box' (o box') 0 h refl).0)
  | inr e ↦ rw e (
      let box' = record box { select_shown = true; hide_timeout = 0 } in
      (without_timer timer box box' (o box') box.hide_timeout h refl).1)
]

focused_first :
    (timer : ℕ) (has_results : Bool) (r : SearchBox × List Effect)
    → IsKnown timer r
    → IsKnown timer (preceded (if has_results then focus_first_result ∷ [] else []) r)
focused_first timer true r h = h
focused_first timer false r h = h

pub activate-key_timeout :
    (cfg : Config) (is_active : Bool) (box : SearchBox)
    → (activate cfg is_active box).key_timeout ≡ box.key_timeout
unfolding activate
activate-key_timeout cfg is_active box = elim (Bool-cases (is_active || box.results_block)) [
  | inl e ↦ rw e refl
  | inr e ↦ rw e refl
]

field_key-IsKnown :
    (cfg : Config) (key : ℕ) (shift has_results : Bool) (timer : ℕ) (box : SearchBox)
    → timer ≢ 0
    → box.key_timeout ≡ 0
    → IsKnown timer (field_key cfg key shift has_results timer box)
unfolding field_key
field_key-IsKnown cfg key shift has_results timer box ht h =
    let changed = text_changed-running timer box ht h in
    if-IsKnown timer (key == 40 || key == 13) _ _
      (if-IsKnown timer shift _ _ (show-IsKnown timer box (λ b. first_item 0 b.select_items) h)
        (focused_first timer has_results (text_changed timer box) changed))
      (if-IsKnown timer (key == 27) _ _
        (rw
          (
            activate-key_timeout cfg false
                (record box { results_block = false; close_shown = false; last_search_value = [] }),
            h,
          )
          refl)
        changed)

preceded_clear :
    (timer t : ℕ) (r : SearchBox × List Effect)
    → IsKnown timer r
    → running timer (preceded (clear_timeout t ∷ []) r).1 (t ∷ [])
      ≡ known (preceded (clear_timeout t ∷ []) r).0
preceded_clear timer t (box, effects) h =
    ap (λ b. running timer effects (if b then [] else t ∷ [])) (==_refl t) ∙ h

pub on_search_field_change-known :
    (cfg : Config) (key : ℕ) (shift has_results : Bool) (timer : ℕ) (box : SearchBox)
    → timer ≢ 0
    → running timer (on_search_field_change cfg key shift has_results timer box).1 (known box)
      ≡ known (on_search_field_change cfg key shift has_results timer box).0
unfolding on_search_field_change
on_search_field_change-known cfg key shift has_results timer box ht =
    elim (Bool-cases (box.key_timeout == 0)) [
      | inl e ↦ rw e (field_key-IsKnown cfg key shift has_results timer box ht (ground arith))
      | inr e ↦ rw e (
          preceded_clear timer box.key_timeout
            (field_key cfg key shift has_results timer (record box { key_timeout = 0 }))
            (field_key-IsKnown cfg key shift has_results timer (record box { key_timeout = 0 }) ht
              refl))
    ]

-- Two identifiers that the panel has are apart, unless there is no second one.
abbrev pub IsApart : SearchBox → Type 0
IsApart box = (box.hide_timeout ≡ 0) ⊎ (box.hide_timeout ≢ box.key_timeout)

-- A panel that knows of no search timer.
pub no_search-IsApart : (box : SearchBox) → box.key_timeout ≡ 0 → IsApart box
no_search-IsApart box h = elim (Bool-cases (box.hide_timeout == 0)) [
  | inl e ↦ inl (ground arith)
  | inr e ↦ inr (λ k. ground (arith, h, k))
]

if-either :
    (P : SearchBox → Type 0) (b : Bool) (x y : SearchBox × List Effect)
    → P x.0
    → P y.0
    → P (if b then x else y).0
if-either P true x y h k = h
if-either P false x y h k = k

-- A handler that gets a new identifier leaves it or 0 in `keyTimeout`, and the old one or 0 in
-- `hideTimeout`.
abbrev IsWithin : (timer hide : ℕ) → SearchBox → Type 0
IsWithin timer hide box =
    ((box.key_timeout ≡ 0) ⊎ (box.key_timeout ≡ timer))
    × ((box.hide_timeout ≡ 0) ⊎ (box.hide_timeout ≡ hide))

IsWithin-IsApart :
    (timer hide : ℕ) (box : SearchBox) → timer ≢ hide → IsWithin timer hide box → IsApart box
IsWithin-IsApart timer hide box ne (inl k, h) = no_search-IsApart box k
IsWithin-IsApart timer hide box ne (inr k, inl h) = inl h
IsWithin-IsApart timer hide box ne (inr k, inr h) = inr (λ e. ne (sym k ∙ sym e ∙ h))

text_changed-IsWithin :
    (timer : ℕ) (box : SearchBox)
    → box.key_timeout ≡ 0
    → IsWithin timer box.hide_timeout (text_changed timer box).0
unfolding text_changed
text_changed-IsWithin timer box h =
    let P = IsWithin timer box.hide_timeout in
    if-either P (same_text (remove_blanks box.field) box.last_search_value) _ _ (inl h, inr refl)
      (if-either P (not (same_text (remove_blanks box.field) [])) _ _ (inr refl, inr refl)
        (inl h, inr refl))

show-IsWithin :
    (timer : ℕ) (box : SearchBox)
    → box.key_timeout ≡ 0
    → IsWithin timer box.hide_timeout (on_search_select_show box).0
unfolding on_search_select_show
show-IsWithin timer box h =
    if-either (IsWithin timer box.hide_timeout) (box.hide_timeout == 0) _ _ (inl h, inr refl)
      (inl h, inl refl)

pub activate-hide_timeout :
    (cfg : Config) (is_active : Bool) (box : SearchBox)
    → (activate cfg is_active box).hide_timeout ≡ box.hide_timeout
unfolding activate
activate-hide_timeout cfg is_active box = elim (Bool-cases (is_active || box.results_block)) [
  | inl e ↦ rw e refl
  | inr e ↦ rw e refl
]

field_key-IsWithin :
    (cfg : Config) (key : ℕ) (shift has_results : Bool) (timer : ℕ) (box : SearchBox)
    → box.key_timeout ≡ 0
    → IsWithin timer box.hide_timeout (field_key cfg key shift has_results timer box).0
unfolding field_key
field_key-IsWithin cfg key shift has_results timer box h =
    let P = IsWithin timer box.hide_timeout in
    let changed = text_changed-IsWithin timer box h in
    let hidden = record box {
      results_block = false;
      close_shown = false;
      last_search_value = [];
    } in
    if-either P (key == 40 || key == 13) _ _
      (if-either P shift _ _ (show-IsWithin timer box h) changed)
      (if-either P (key == 27) _ _
        (
          inl (activate-key_timeout cfg false hidden ∙ h),
          inr (activate-hide_timeout cfg false hidden),
        )
        changed)

-- What the field's handler leaves, from any panel, with a new identifier.
pub on_search_field_change-IsApart :
    (cfg : Config) (key : ℕ) (shift has_results : Bool) (timer : ℕ) (box : SearchBox)
    → timer ≢ box.hide_timeout
    → IsApart (on_search_field_change cfg key shift has_results timer box).0
unfolding on_search_field_change
on_search_field_change-IsApart cfg key shift has_results timer box ne =
    elim (Bool-cases (box.key_timeout == 0)) [
      | inl e ↦ rw e (
          IsWithin-IsApart timer box.hide_timeout (field_key cfg key shift has_results timer box).0
            ne (field_key-IsWithin cfg key shift has_results timer box (ground arith)))
      | inr e ↦ rw e (
          let box' = record box { key_timeout = 0 } in
          IsWithin-IsApart timer box.hide_timeout (field_key cfg key shift has_results timer box').0
            ne (field_key-IsWithin cfg key shift has_results timer box' refl))
    ]

kept :
    (t k : ℕ)
    → (t ≡ 0) ⊎ (t ≢ k)
    → without t (if k == 0 then [] else k ∷ []) ≡ (if k == 0 then [] else k ∷ [])
kept t k h = elim (Bool-cases (k == 0)) [
  | inl e ↦ rw e refl
  | inr e ↦ rw (e, ne→== k t (apart e h)) refl
]
  where
    apart : k == 0 ≡ false → (t ≡ 0) ⊎ (t ≢ k) → k ≢ t
    apart e (inl z) = λ q. ground (arith, e, z, q)
    apart e (inr ne) = λ q. ne (sym q)

-- Showing the filters clears the identifier that the panel has of their timer, and no search timer.
pub on_search_select_show-known :
    (box : SearchBox)
    → IsApart box
    → (running 0 (on_search_select_show box).1 (known box) ≡ known (on_search_select_show box).0)
      × IsApart (on_search_select_show box).0
unfolding on_search_select_show
on_search_select_show-known box apart = elim (Bool-cases (box.hide_timeout == 0)) [
  | inl e ↦ rw e (refl, apart)
  | inr e ↦ rw e (kept box.hide_timeout box.key_timeout apart, inl refl)
]
