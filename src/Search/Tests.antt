-- ===== src/Search/Tests.antt =====
-- The search page on concrete texts and results.
use parse_embedded_sdks.Base.{
  ◌+◌, ◌≡◌, refl, sym, ap, zero, suc, Bool, Option, true, false, ◌&&◌, none, some, List, [], ◌∷◌,
  Bytes, codes, leb, if◌then◌else◌, All, arith,
}
use parse_embedded_sdks.Search.Ids.{unit_id, convert_to_id, starts_with, starts_with-convert_to_id}
use parse_embedded_sdks.Search.Results.{Result, Keys, keydown, search}
use parse_embedded_sdks.Search.Results.Rows.{
  Entry, IsNamed, entry, filler, divs_of, search-show_only,
}
use parse_embedded_sdks.Search.Results.Moves.{NoneShown}
use parse_embedded_sdks.Search.Nav.{item, focus, done, nav}
use parse_embedded_sdks.Search.Nav.Laws.{nav_down_up}
use parse_embedded_sdks.Search.Box.{
  SelectChild, SearchBox, Config, Language, search_box, on_search_field_change,
  on_search_select_hide, on_search_select_show,
}
use parse_embedded_sdks.Search.Box.Timers.{known}
use parse_embedded_sdks.Search.Box.Laws.{World, Step, Reach, handled, Reach-known}
use parse_embedded_sdks.Search.Query.{on_search_select_key}
use parse_embedded_sdks.Search.Query.Laws.{on_search_select_key_past}

-- `toLowerCase` on the letters of ASCII.
abbrev lower : Bytes → Bytes
lower [] = []
lower (c ∷ s) = (if leb b'A' c && leb c b'Z' then c + 32 else c) ∷ lower s

abbrev same : Bytes → Bytes
same s = s

starts_with-convert_to_id_example :
    starts_with (convert_to_id (codes "a_")) (convert_to_id (codes "a_b"))
    ≡ starts_with (codes "a_") (codes "a_b")
starts_with-convert_to_id_example =
    starts_with-convert_to_id (codes "a_") (codes "a_b") (ground arith) (ground arith)

abbrev found : List Entry
found = entry (codes "ab") false none ∷ filler ∷ entry (codes "b") true none ∷ []

found-IsNamed : All (IsNamed lower) found
unfolding unit_id
found-IsNamed = ((omega arith, refl), (tt, ((omega arith, refl), tt)))

search-show_only_example :
    search lower same
      (codes "?A ")
      []
      (record { divs = divs_of found; searching_shown = true; no_matches_shown = true })
    ≡ (
      record {
        divs = divs_of (entry (codes "ab") true none ∷ filler ∷ entry (codes "b") false none ∷ []);
        searching_shown = false;
        no_matches_shown = false;
      },
      1,
    )
search-show_only_example =
    search-show_only lower same (codes "?A ") [] found
      (record { divs = divs_of found; searching_shown = true; no_matches_shown = true }) refl
      found-IsNamed (ground arith)

-- Two results that are shown, one with closed children, and a hidden one with children between.
abbrev first : Result
first = record {
  id = codes "SR_a";
  shown = true;
  children = some (record { count = 2; is_open = false });
}

abbrev hidden : Result
hidden = record {
  id = codes "SR_b";
  shown = false;
  children = some (record { count = 1; is_open = false });
}

abbrev last : Result
last = record { id = codes "SR_c"; shown = true; children = none }

abbrev results : List Result
results = first ∷ hidden ∷ last ∷ []

abbrev no_keys : Keys
no_keys = record { last_key = 0; repeat_on = false }

-- Whether a result is shown; false where there is none.
abbrev shown_of : Option Result → Bool
shown_of none = false
shown_of (some r) = r.shown

one_hidden : NoneShown results 1 2
one_hidden zero r a b h = absurd (omega arith)
one_hidden (suc zero) r a b h = ap (λ o. shown_of o) (sym h)
one_hidden (suc (suc i)) r a b h = absurd (omega arith)

nav_down_up_example :
    (nav (keydown 40) 0 results no_keys
      ≡ done results (record { last_key = 40; repeat_on = false }) (focus (item 2) ∷ []) false)
    × (nav (keydown 38) 2 results no_keys
        ≡ done results (record { last_key = 38; repeat_on = false }) (focus (item 0) ∷ []) false)
nav_down_up_example =
    nav_down_up results 0 2 first last no_keys no_keys refl refl refl (omega arith) refl refl
      one_hidden

abbrev config : Config
config = record {
  results_path = codes "search";
  search_label = codes "Search";
  section_contents = codes "ab" ∷ codes "b" ∷ [];
  section_names = codes "all" ∷ codes "files" ∷ [];
}

abbrev language : Language
language = record { to_lower_case = lower; escape = same; above_one = λ s. false }

abbrev filters : List SelectChild
filters =
    record { is_item = true; is_marked = true } ∷ record { is_item = true; is_marked = false } ∷ []

abbrev panel : SearchBox
panel = search_box config filters []

abbrev page : World
page = record { box = panel; live = [] }

-- The filters are left, a text is typed, and the filters are shown before their timer fires.
abbrev left : World
left = handled 7 (on_search_select_hide 7 panel) page

abbrev typed_in : World
typed_in =
    handled 8
      (on_search_field_change config 65 false false 8 (record left.box { field = codes "a" })) left

abbrev shown_again : World
shown_again = handled 0 (on_search_select_show typed_in.box) typed_in

shown_again-Reach : Reach config language page shown_again
unfolding on_search_select_hide
shown_again-Reach =
    Reach.then_step
      (Reach.then_step
        (Reach.then_step Reach.start
          (Step.select_left 7 page (omega arith, omega arith, omega arith)))
        (Step.typed (codes "a") 65 false false 8 left (omega arith, omega arith, omega arith)))
      (Step.select_shown typed_in)

Reach-known_example : shown_again.live ≡ known shown_again.box
Reach-known_example = Reach-known config language page shown_again refl refl shown_again-Reach

abbrev active : SearchBox
active = record panel { key_timeout = 7; search_active = true; field = codes "b"; search_index = 1 }

on_search_select_key_past_example : on_search_select_key language config 40 active ≡ none
on_search_select_key_past_example =
    on_search_select_key_past language config active refl refl refl refl
