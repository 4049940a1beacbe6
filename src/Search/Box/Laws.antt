-- ===== src/Search/Box/Laws.antt =====
-- A page in use: what happens to the panel, and the search timers that are running.
use parse_embedded_sdks.Base.{
  ℕ, ◌+◌, ◌-◌, ltb, ◌≡◌, ◌≢◌, refl, sym, ap, ap₂, ◌∙◌, Bool, true, false, not, ◌||◌, Bool-cases,
  inl, inr, get_elem?, subst, ◌&&◌, Option-cases, Option, none, some, List, [], ◌∷◌, Bytes, ◌==◌,
  ne→==, if◌then◌else◌, arith,
}
use parse_embedded_sdks.Search.Ids.{same_text}
use parse_embedded_sdks.Search.Box.{
  on_search_select_hide, close_selection_window, SearchBox, Config, Language, Effect, activate,
  close_results_window, on_search_select_show, select_item_set, select_item_count, remove_blanks,
  text_changed, field_key, on_search_field_change,
}
use parse_embedded_sdks.Search.Query.{
  search, on_select_item, then_close, without_effects, on_search_select_key,
}
use parse_embedded_sdks.Search.Box.Timers.{
  without, running, known, IsApart, no_search-IsApart, activate-key_timeout, activate-hide_timeout,
  on_search_field_change-known, on_search_field_change-IsApart, on_search_select_show-known,
}

-- A page in use: the panel, and the search timers that are running.
pub record World : Type 0 where
  pub box : SearchBox
  pub live : List ℕ

-- A page behind a handler, with the identifier that `setTimeout` returns to it.
abbrev pub handled : ℕ → SearchBox × List Effect → World → World
handled timer (box, effects) w = record { box = box; live = running timer effects w.live }

-- `setTimeout` returns no 0, and no identifier that the panel has of an earlier call.
abbrev pub IsFresh : ℕ → SearchBox → Type 0
IsFresh timer box = (timer ≢ 0) × (timer ≢ box.key_timeout) × (timer ≢ box.hide_timeout)

-- Whether a timer is among those that are running.
abbrev pub is_running : ℕ → List ℕ → Bool
is_running t [] = false
is_running t (u ∷ live) = u == t || is_running t live

-- What can happen to the page. The field's text is changed, and a key goes to the field; a running
-- search timer fires; a filter is clicked, or a key goes to the filters, while no search timer is
-- running; the filters are shown, are left, or are closed by their timer; the panel is entered or
-- left; its results are closed. A handler that faults is no step.
pub data Step (cfg : Config) (lang : Language) : World → World → Type 0 where
  typed :
      (text : Bytes) (key : ℕ) (shift has_results : Bool) (timer : ℕ) (w : World)
      → IsFresh timer w.box
      → Step cfg lang w (
          handled timer
            (on_search_field_change cfg key shift has_results timer (record w.box { field = text }))
            w)
  fired :
      (t : ℕ) (w : World) (box : SearchBox)
      → is_running t w.live ≡ true
      → search lang cfg w.box ≡ some box
      → Step cfg lang w (record { box = box; live = without t w.live })
  selected :
      (id : ℕ) (w : World) (box : SearchBox)
      → w.live ≡ []
      → on_select_item lang cfg id w.box ≡ some box
      → Step cfg lang w (record { box = box; live = w.live })
  select_key :
      (key : ℕ) (w : World) (box : SearchBox) (effects : List Effect)
      → w.live ≡ []
      → on_search_select_key lang cfg key w.box ≡ some (box, effects)
      → Step cfg lang w (handled 0 (box, effects) w)
  select_shown : (w : World) → Step cfg lang w (handled 0 (on_search_select_show w.box) w)
  select_left :
      (timer : ℕ) (w : World)
      → IsFresh timer w.box
      → Step cfg lang w (handled timer (on_search_select_hide timer w.box) w)
  select_closed :
      (w : World) → Step cfg lang w (record { box = close_selection_window w.box; live = w.live })
  focused :
      (is_active : Bool) (w : World)
      → Step cfg lang w (record { box = activate cfg is_active w.box; live = w.live })
  closed :
      (w : World) → Step cfg lang w (record { box = close_results_window cfg w.box; live = w.live })

pub data Reach (cfg : Config) (lang : Language) (w : World) : World → Type 0 where
  start : Reach cfg lang w w
  then_step : {v v' : World} → Reach cfg lang w v → Step cfg lang v v' → Reach cfg lang w v'

-- `keyTimeout` of a panel; 0 behind a fault.
key_timeout_of : Option SearchBox → ℕ
key_timeout_of none = 0
key_timeout_of (some box) = box.key_timeout

key_timeout_of-search :
    (lang : Language) (cfg : Config) (box : SearchBox) → key_timeout_of (search lang cfg box) ≡ 0
unfolding search key_timeout_of
key_timeout_of-search lang cfg box =
    elim (Option-cases (get_elem? cfg.section_contents box.search_index)) [
      | inl e ↦ rw e refl
      | inr (contents, e) ↦ rw e refl
    ]

key_timeout_of-on_select_item :
    (lang : Language) (cfg : Config) (id : ℕ) (box : SearchBox)
    → box.key_timeout ≡ 0
    → key_timeout_of (on_select_item lang cfg id box) ≡ 0
unfolding on_select_item key_timeout_of
key_timeout_of-on_select_item lang cfg id box h =
    let box' = record box {
      search_index = id;
      select_items = select_item_set id 0 box.select_items;
    } in
    elim (Bool-cases (not (same_text (remove_blanks box.field) []) && box.search_active)) [
      | inl e ↦ rw e (key_timeout_of-search lang cfg box')
      | inr e ↦ rw e h
    ]

-- The identifiers that the panel has tell of the search timer that is running.
record IsKept (w : World) : Type 0 where
  tells : w.live ≡ known w.box
  apart : IsApart w.box

no_live : (box : SearchBox) (live : List ℕ) → live ≡ [] → live ≡ known box → box.key_timeout ≡ 0
no_live box live h k = elim (Bool-cases (box.key_timeout == 0)) [
  | inl e ↦ ground (arith, e)
  | inr e ↦ absurd (ne-[] (sym (rw e refl) ∙ sym k ∙ h))
]
  where
    ne-[] : box.key_timeout ∷ [] ≢ []
    ne-[] h = ground (arith, h)

-- Where the panel knows of all timers that are running, none is left behind one that fires.
fired_none :
    (t k : ℕ)
    → is_running t (if k == 0 then [] else k ∷ []) ≡ true
    → without t (if k == 0 then [] else k ∷ []) ≡ []
fired_none t k h = ends (k == 0) h
  where
    ends :
        (b : Bool)
        → is_running t (if b then [] else k ∷ []) ≡ true
        → without t (if b then [] else k ∷ []) ≡ []
    ends true h = refl
    ends false h = ground (arith, h)

-- A handler that touches neither identifier and no search timer.
same_timers :
    (box box' : SearchBox) (live : List ℕ)
    → box'.key_timeout ≡ box.key_timeout
    → box'.hide_timeout ≡ box.hide_timeout
    → IsKept (record { box = box; live = live })
    → IsKept (record { box = box'; live = live })
same_timers box box' live k h kept = record {
  tells = kept.tells ∙ ap (λ t. if t == 0 then [] else t ∷ []) (sym k);
  apart = elim kept.apart [ inl z ↦ inl (h ∙ z) | inr ne ↦ inr (λ e. ne (sym h ∙ e ∙ k)) ];
}

-- No search timer behind the handler.
none_running : (box : SearchBox) → box.key_timeout ≡ 0 → IsKept (record { box = box; live = [] })
none_running box h = record {
  tells = sym (ap (λ t. if t == 0 then [] else t ∷ []) h);
  apart = no_search-IsApart box h;
}

-- A key on the filters that sets no timer, from a panel that knows of none.
abbrev SetsNone : Option (SearchBox × List Effect) → Type 0
SetsNone none = Unit
SetsNone (some (box, effects)) = (box.key_timeout ≡ 0) × (running 0 effects [] ≡ [])

without_effects-SetsNone :
    (o : Option SearchBox) → key_timeout_of o ≡ 0 → SetsNone (without_effects o)
unfolding key_timeout_of
without_effects-SetsNone none h = tt
without_effects-SetsNone (some box) h = (h, refl)

then_close-SetsNone : (o : Option SearchBox) → key_timeout_of o ≡ 0 → SetsNone (then_close o)
unfolding key_timeout_of
then_close-SetsNone none h = tt
then_close-SetsNone (some box) h = (h, refl)

if-SetsNone :
    (b : Bool) (x y : Option (SearchBox × List Effect))
    → SetsNone x
    → SetsNone y
    → SetsNone (if b then x else y)
if-SetsNone true x y h k = h
if-SetsNone false x y h k = k

on_search_select_key-SetsNone :
    (cfg : Config) (lang : Language) (key : ℕ) (box : SearchBox)
    → box.key_timeout ≡ 0
    → SetsNone (on_search_select_key lang cfg key box)
unfolding on_search_select_key
on_search_select_key-SetsNone cfg lang key box h =
    let chosen : (id : ℕ) → key_timeout_of (on_select_item lang cfg id box) ≡ 0 =
      λ id. key_timeout_of-on_select_item lang cfg id box h in
    if-SetsNone (key == 40 && ltb box.search_index (select_item_count box.select_items)) _ _
      (without_effects-SetsNone (on_select_item lang cfg (box.search_index + 1) box)
        (chosen (box.search_index + 1)))
      (if-SetsNone (key == 38 && ltb 0 box.search_index) _ _
        (without_effects-SetsNone (on_select_item lang cfg (box.search_index - 1) box)
          (chosen (box.search_index - 1)))
        (if-SetsNone (key == 13 || key == 27) _ _
          (then_close-SetsNone (on_select_item lang cfg box.search_index box)
            (chosen box.search_index))
          (h, refl)))

Step-IsKept :
    (cfg : Config) (lang : Language) (w w' : World) → IsKept w → Step cfg lang w w' → IsKept w'
unfolding key_timeout_of close_results_window on_search_select_hide
Step-IsKept cfg lang w w' h (typed text key shift has_results timer _ (ht, _, ne)) =
    let box = record w.box { field = text } in
    record {
      tells =
          ap (running timer (on_search_field_change cfg key shift has_results timer box).1) h.tells
          ∙ on_search_field_change-known cfg key shift has_results timer box ht;
      apart = on_search_field_change-IsApart cfg key shift has_results timer box ne;
    }
Step-IsKept cfg lang w w' h (fired t _ box hl hs) =
    let zero_behind = ap key_timeout_of (sym hs) ∙ key_timeout_of-search lang cfg w.box in
    let ended = fired_none t w.box.key_timeout (sym (ap (is_running t) h.tells) ∙ hl) in
    subst (λ l. IsKept (record { box = box; live = l })) (sym (ap (without t) h.tells ∙ ended))
      (none_running box zero_behind)
Step-IsKept cfg lang w w' h (selected id _ box hl hs) =
    let zero_before = no_live w.box w.live hl h.tells in
    let zero_behind =
      ap key_timeout_of (sym hs) ∙ key_timeout_of-on_select_item lang cfg id w.box zero_before in
    subst (λ l. IsKept (record { box = box; live = l })) (sym hl) (none_running box zero_behind)
Step-IsKept cfg lang w w' h (select_key key _ box effects hl hs) =
    let zero_before = no_live w.box w.live hl h.tells in
    let (zero_behind, sets_none) =
      subst SetsNone hs (on_search_select_key-SetsNone cfg lang key w.box zero_before) in
    subst (λ l. IsKept (record { box = box; live = l }))
      (sym (ap (running 0 effects) hl ∙ sets_none)) (none_running box zero_behind)
Step-IsKept cfg lang w w' h (select_shown _) =
    let (cleared, apart) = on_search_select_show-known w.box h.apart in
    record {
      tells = ap (running 0 (on_search_select_show w.box).1) h.tells ∙ cleared;
      apart = apart;
    }
Step-IsKept cfg lang w w' h (select_left timer _ (ht, ne, _)) = record {
  tells = h.tells;
  apart = inr ne;
}
Step-IsKept cfg lang w w' h (select_closed _) =
    same_timers w.box (close_selection_window w.box) w.live refl refl h
Step-IsKept cfg lang w w' h (focused is_active _) =
    same_timers w.box (activate cfg is_active w.box) w.live
      (activate-key_timeout cfg is_active w.box) (activate-hide_timeout cfg is_active w.box) h
Step-IsKept cfg lang w w' h (closed _) =
    let box = record w.box { results_block = false; close_shown = false } in
    same_timers w.box (close_results_window cfg w.box) w.live (activate-key_timeout cfg false box)
      (activate-hide_timeout cfg false box) h

Reach-IsKept :
    (cfg : Config) (lang : Language) (w w' : World) → IsKept w → Reach cfg lang w w' → IsKept w'
Reach-IsKept cfg lang w w' h start = h
Reach-IsKept cfg lang w w' h (then_step {v} r s) =
    Step-IsKept cfg lang v w' (Reach-IsKept cfg lang w v h r) s

-- From a page where no search timer is running and the panel knows of none: whatever text is typed
-- and whatever key is struck in the field, whenever a search timer fires, the filters are shown, left
-- or closed by their timer, the panel is entered or left, and its results are closed, one search
-- timer at most is running, and it is the one that `keyTimeout` holds. A filter is selected, by a
-- click or a key, only while no search timer is running; and `setTimeout` gives no 0 and no
-- identifier that `keyTimeout` or `hideTimeout` holds. No handler faults on the way.
pub Reach-known :
    (cfg : Config) (lang : Language) (w w' : World)
    → w.live ≡ []
    → w.box.key_timeout ≡ 0
    → Reach cfg lang w w'
    → w'.live ≡ known w'.box
Reach-known cfg lang w w' h k r =
    let kept =
      subst (λ l. IsKept (record { box = w.box; live = l })) (sym h) (none_running w.box k) in
    (Reach-IsKept cfg lang w w' kept r).tells

typed_text :
    (cfg : Config) (key timer : ℕ) (text : Bytes) (box : SearchBox) (live : List ℕ)
    → box.key_timeout ≡ 0
    → key ≢ 40
    → key ≢ 13
    → key ≢ 27
    → same_text (remove_blanks text) box.last_search_value ≡ false
    → same_text (remove_blanks text) [] ≡ false
    → running timer
        (on_search_field_change cfg key false false timer (record box { field = text })).1
        live
      ≡ timer ∷ live
unfolding on_search_field_change field_key text_changed
typed_text cfg key timer text box live h a b c d e =
    rw (h, ne→== key 40 a, ne→== key 13 b, ne→== key 27 c, d, e) refl

select_search :
    (cfg : Config) (lang : Language) (id : ℕ) (box : SearchBox)
    → same_text (remove_blanks box.field) [] ≡ false
    → box.search_active ≡ true
    → key_timeout_of (on_select_item lang cfg id box) ≡ 0
unfolding on_select_item
select_search cfg lang id box hf ha =
    let box' = record box {
      search_index = id;
      select_items = select_item_set id 0 box.select_items;
    } in
    ap₂ (λ p q. key_timeout_of (if not p && q then search lang cfg box' else some box')) hf ha
    ∙ key_timeout_of-search lang cfg box'

-- Let the timer that the panel knows be running, and let the panel be active, with text in its field. Where
-- selecting a filter succeeds, the panel forgets the timer, which goes on running: any other text in
-- the field behind that starts a second one beside it.
pub on_select_item_forgets :
    (cfg : Config) (lang : Language) (id key timer : ℕ) (text : Bytes) (box box' : SearchBox)
    → same_text (remove_blanks box.field) [] ≡ false
    → box.search_active ≡ true
    → on_select_item lang cfg id box ≡ some box'
    → key ≢ 40
    → key ≢ 13
    → key ≢ 27
    → same_text (remove_blanks text) box'.last_search_value ≡ false
    → same_text (remove_blanks text) [] ≡ false
    → running timer
        (on_search_field_change cfg key false false timer (record box' { field = text })).1
        (box.key_timeout ∷ [])
      ≡ timer ∷ box.key_timeout ∷ []
unfolding key_timeout_of
on_select_item_forgets cfg lang id key timer text box box' hf ha hs a b c d e =
    typed_text cfg key timer text box' (box.key_timeout ∷ [])
      (ap key_timeout_of (sym hs) ∙ select_search cfg lang id box hf ha) a b c d e
