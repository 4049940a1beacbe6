-- ===== src/Dynsections/Rows.antt =====
-- The table of a directory: updateStripes, toggleLevel and toggleFolder of docs/html/dynsections.js, on the
-- rows that `$('table.directory tr')` selects, in their order. The spans with the ids `img...` and
-- `arr...` of a row stand in it.
pub mod Stripes
pub mod Level
pub mod Folder
pub mod Twice
pub mod Tree
use mathlib.Core.List.{map}
use parse_embedded_sdks.Base.{
  lower, ℕ, zero, suc, ◌+◌, Bool, true, false, not, ◌&&◌, Option, none, some, List, [], ◌∷◌, ◌++◌,
  Bytes, codes, drop, ltb, leb, ◌==◌, if◌then◌else◌,
}
use parse_embedded_sdks.Search.Ids.{same_text}
use parse_embedded_sdks.Search.Site.{drop_prefix}
use parse_embedded_sdks.Dynsections.Jquery.{Jquery}

pub record Span : Type 0 where
  pub id : Bytes
  pub classes : List Bytes
  pub html : Bytes

pub record Row : Type 0 where
  pub id : Bytes
  pub display : Bytes
  pub classes : List Bytes
  pub spans : List Span

-- `this.id.split('_').length-1`: the underscores of an id.
abbrev pub level_of : Bytes → ℕ
level_of [] = 0
level_of (c ∷ s) = (if c == b'_' then 1 else 0) + level_of s

abbrev pub down_arrow : Bytes
down_arrow = codes "&#9660;"

abbrev pub right_arrow : Bytes
right_arrow = codes "&#9658;"

-- `\d+_$` on what is left of an id, behind the first digit.
abbrev pub digits_end : Bytes → Bool
digits_end [] = false
digits_end (c ∷ []) = c == b'_'
digits_end (c ∷ s) = (leb b'0' c && leb c b'9') && digits_end s

abbrev pub is_one_level : Option Bytes → Bool
is_one_level none = false
is_one_level (some []) = false
is_one_level (some (c ∷ s)) = (leb b'0' c && leb c b'9') && digits_end s

-- `this.id.match(re)`, with `'^row_'+id+'\\d+_$'` and no regard to case. The id is one of digits and
-- underscores.
abbrev pub is_child : Bytes → Bytes → Bool
is_child id row_id = is_one_level (drop_prefix (lower (codes "row_" ++ id)) (lower row_id))

-- `[id^=row_...]`.
abbrev pub is_some : Option Bytes → Bool
is_some none = false
is_some (some s) = true

abbrev pub is_below : Bytes → Bytes → Bool
is_below id row_id = is_some (drop_prefix (codes "row_" ++ id) row_id)

module _ (jq : Jquery) where
  abbrev pub shows : Row → Bool
  shows r = jq.is_visible r.display

  -- `filter(':visible:even').addClass('even')`, with whether the next visible row is an even one.
  abbrev pub stripe : Bool → List Row → List Row
  stripe even [] = []
  stripe even (r ∷ rows) =
      let striped = stripe (not even) rows in
      let others = stripe even rows in
      if shows r
      then (if even then record r { classes = jq.add_class (codes "even") r.classes } else r)
        ∷ striped
      else r ∷ others

  abbrev pub without_even : Row → Row
  without_even r = record r { classes = jq.remove_class (codes "even") r.classes }

  -- `updateStripes`.
  unfoldable pub update_stripes : List Row → List Row
  update_stripes rows = stripe true (map without_even rows)

  -- `$('#img...').removeClass('iconfopen iconfclosed').addClass(...)` and `$('#arr...').html(...)`.
  abbrev pub set_icon : Bytes → Bytes → Bytes → Span → Span
  set_icon suffix icon arrow s =
      let named = same_text s.id (codes "img" ++ suffix) in
      let arrowed = same_text s.id (codes "arr" ++ suffix) in
      record s {
        classes =
            if named
            then jq.add_class icon (
                jq.remove_class (codes "iconfclosed")
                  (jq.remove_class (codes "iconfopen") s.classes))
            else s.classes;
        html = if arrowed then arrow else s.html;
      }

  abbrev pub show_row : Row → Row
  show_row r = record r { display = jq.show r.display }

  abbrev pub hide_row : Row → Row
  hide_row r = record r { display = jq.hide r.display }

  abbrev pub set_icons : Bytes → Bytes → Row → Row
  set_icons icon arrow r = record r { spans = map (set_icon (drop 3 r.id) icon arrow) r.spans }

  -- The function that `toggleLevel` calls on each row.
  abbrev pub level_row : ℕ → Row → Row
  level_row level r =
      let l = level_of r.id in
      if ltb l (level + 1)
      then show_row (set_icons (codes "iconfopen") down_arrow r)
      else if l == level + 1
      then show_row (set_icons (codes "iconfclosed") right_arrow r)
      else hide_row r

  -- `toggleLevel`.
  unfoldable pub toggle_level : ℕ → List Row → List Row
  toggle_level level rows = update_stripes (map (level_row level) rows)

  -- `filter('.old').removeClass('old').addClass('new')`, and `filter('.arrow').html(arrow)`.
  abbrev pub turn_span : (old new arrow : Bytes) → Span → Span
  turn_span old new arrow s =
      let turned =
        if jq.has_class old s.classes
        then jq.add_class new (jq.remove_class old s.classes)
        else s.classes in
      record s {
        classes = turned;
        html = if jq.has_class (codes "arrow") turned then arrow else s.html;
      }

  abbrev pub turn : (old new arrow : Bytes) → Row → Row
  turn old new arrow r = record r { spans = map (turn_span old new arrow) r.spans }

  -- `childRows.filter(':first').is(':visible')`, of the rows behind the clicked one.
  abbrev pub first_shows : Bytes → List Row → Bool
  first_shows id [] = false
  first_shows id (r ∷ rows) = if is_child id r.id then shows r else first_shows id rows

  abbrev pub close_row : Bytes → Row → Row
  close_row id r = if is_below id r.id then hide_row r else r

  abbrev pub open_row : Bytes → Row → Row
  open_row id r =
      if is_child id r.id
      then show_row (turn (codes "iconfopen") (codes "iconfclosed") right_arrow r)
      else r

  -- The clicked row and the rows behind it.
  abbrev pub fold_rows : Bytes → Row → List Row → List Row
  fold_rows id r rows =
      if first_shows id rows
      then turn (codes "iconfopen") (codes "iconfclosed") right_arrow r ∷ map (close_row id) rows
      else turn (codes "iconfclosed") (codes "iconfopen") down_arrow r ∷ map (open_row id) rows

  -- The clicked row is the first with its id.
  abbrev pub fold_at : Bytes → List Row → List Row
  fold_at id [] = []
  fold_at id (r ∷ rows) =
      let rest = fold_at id rows in
      if same_text r.id (codes "row_" ++ id) then fold_rows id r rows else r ∷ rest

  -- `toggleFolder`.
  unfoldable pub toggle_folder : Bytes → List Row → List Row
  toggle_folder id rows = update_stripes (fold_at id rows)
