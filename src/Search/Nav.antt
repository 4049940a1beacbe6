-- ===== src/Search/Nav.antt =====
-- The keys on the results page: `Toggle`, `Nav` and `NavChild` of docs/html/search/search.js. An
-- outcome is `fault` where the source reads a property of an element that is not there.
pub mod Laws
use parse_embedded_sdks.Base.{
  ℕ, zero, suc, ◌+◌, ◌-◌, Bool, true, false, Option, none, some, List, [], ◌∷◌, get_elem?, set, ltb,
  ◌==◌, if◌then◌else◌,
}
use parse_embedded_sdks.Search.Results.{
  Children, Result, Keys, KeyEvent, key_code, process_keys, nav_next, nav_prev,
}

-- A link that gets the focus, or the search field of the page around.
pub data Target : Type 0 where
  item : ℕ → Target
  child : ℕ → ℕ → Target
  search_field : Target

pub data Effect : Type 0 where
  focus : Target → Effect
  close_results_window : Effect

-- The results, the keys, what is done outside, and the value returned.
pub data Outcome : Type 0 where
  fault : Outcome
  done : List Result → Keys → List Effect → Bool → Outcome

-- `elem && elem.style.display == 'block'`.
abbrev pub has_open_children : Option Children → Bool
has_open_children none = false
has_open_children (some c) = c.is_open

-- `FindChildElement` of the result that holds a link.
abbrev pub result_children : Option Result → Option Children
result_children none = none
result_children (some r) = r.children

abbrev pub count_of : Option Children → ℕ
count_of none = 0
count_of (some c) = c.count

-- The number of links `Item`index`_c`n that there are, from n = 0 on.
abbrev pub child_count : List Result → ℕ → ℕ
child_count results index = count_of (result_children (get_elem? results index))

-- The loop that searches for the last child, from the link that has been found so far.
abbrev pub last_child : ℕ → ℕ → Target → Target
last_child index zero found = found
last_child index (suc n) found = child index n

-- `Up`, at the item that `NavPrev` has found: `index` is the item's own less one.
abbrev pub up_target : List Result → ℕ → Option ℕ → Target
up_target results index none = search_field
up_target results index (some k) =
    if has_open_children (result_children (get_elem? results k))
    then last_child index (child_count results index) (item k)
    else item k

abbrev pub focus_item : Option ℕ → List Effect
focus_item none = []
focus_item (some k) = focus (item k) ∷ []

-- `Item`index`_c0`, where it is there.
abbrev first_child : ℕ → ℕ → List Effect → List Effect
first_child index zero next = next
first_child index (suc n) next = focus (child index 0) ∷ []

-- `Down`, at the result of the item itself.
abbrev pub down_effects : List Result → ℕ → Result → List Effect
down_effects results index r =
    let next = focus_item (nav_next results (index + 1)) in
    if has_open_children r.children
    then first_child index (child_count results index) next
    else next

abbrev pub open_children : Bool → Option Children → Option Children
open_children is_open none = none
open_children is_open (some c) = some (record c { is_open = is_open })

-- `elem.style.display = ...` for the children of the result at an index.
abbrev pub set_open : Bool → List Result → ℕ → Result → List Result
set_open is_open results index r =
    set results index (record r { children = open_children is_open r.children })

-- The keys on an item, by the key code.
unfoldable pub nav_key : List Result → Keys → ℕ → Option Result → ℕ → Outcome
nav_key results keys index own key =
    if key == 38
    then done results keys (focus (up_target results (index - 1) (nav_prev results index)) ∷ [])
        false
    else if key == 40
    then elim own [ none ↦ fault | some r ↦ done results keys (down_effects results index r) false ]
    else if key == 39
    then elim own [ none ↦ fault | some r ↦ done (set_open true results index r) keys [] false ]
    else if key == 37
    then elim own [ none ↦ fault | some r ↦ done (set_open false results index r) keys [] false ]
    else if key == 27
    then done results keys (close_results_window ∷ focus search_field ∷ []) false
    else done results keys [] (key == 13)

-- `Nav`.
unfoldable pub nav : KeyEvent → ℕ → List Result → Keys → Outcome
unfolding nav_key
nav e index results keys =
    let (keys', acts) = process_keys e keys in
    let act = nav_key results keys' index (get_elem? results index) keys'.last_key in
    if key_code e == 13
    then done results keys [] true
    else if acts
    then act
    else done results keys' [] false

-- `NavChild` by the key code. A child that is not there has no `focus`.
unfoldable pub nav_child_key : List Result → Keys → ℕ → ℕ → ℕ → Outcome
nav_child_key results keys index c key =
    if key == 38
    then done results keys (focus (elim c [ zero ↦ item index | suc n ↦ child index n ]) ∷ []) false
    else if key == 40
    then done results keys
        (if ltb (c + 1) (child_count results index)
          then focus (child index (c + 1)) ∷ []
          else focus_item (nav_next results (index + 1)))
        false
    else if key == 27
    then done results keys (close_results_window ∷ focus search_field ∷ []) false
    else done results keys [] (key == 13)

-- `NavChild`.
unfoldable pub nav_child : KeyEvent → ℕ → ℕ → List Result → Keys → Outcome
unfolding nav_child_key
nav_child e index c results keys =
    let (keys', acts) = process_keys e keys in
    let act = nav_child_key results keys' index c keys'.last_key in
    if key_code e == 13
    then done results keys [] true
    else if acts
    then act
    else done results keys' [] false

-- `Toggle`, on the result that has the id.
unfoldable pub toggle : List Result → ℕ → Result → List Result
toggle results index r = set_open (not_open r.children) results index r
  where
    not_open : Option Children → Bool
    not_open none = false
    not_open (some c) = if c.is_open then false else true
