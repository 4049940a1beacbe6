-- ===== src/Dynsections/Sections.antt =====
-- The parts of a page that fold: toggleVisibility and toggleInherit of docs/html/dynsections.js.
pub mod Laws
use mathlib.Core.List.{map}
use parse_embedded_sdks.Base.{
  ℕ, ◌+◌, ◌-◌, Bool, true, false, Option, none, some, List, [], ◌∷◌, ◌++◌, Bytes, codes, length,
  take, if◌then◌else◌,
}
use parse_embedded_sdks.Dynsections.Jquery.{Jquery}

-- A part with its link, its summary, its content and its trigger, an image where there is one.
pub record Section : Type 0 where
  pub classes : List Bytes
  pub summary : Bytes
  pub content : Bytes
  pub trigger : Option Bytes

-- A function returns, or ends with an exception after what it has changed.
pub data Outcome (A : Type 0) : Type 0 where
  returned thrown : A → Outcome A

-- `src.substring(0,src.length-n)+name`; below 0, `substring` takes 0.
abbrev pub renamed : ℕ → Bytes → Bytes → Bytes
renamed n name src = take (length src - n) src ++ name

-- The displays of the rows with inherited members, and the images of their headers.
pub record Inherited : Type 0 where
  pub rows : List Bytes
  pub images : List Bytes

module _ (jq : Jquery) where
  -- The last statement of a branch of `toggleVisibility`: `src` is undefined without an image.
  abbrev set_trigger : ℕ → Bytes → Section → Outcome Section
  set_trigger n name s = elim s.trigger [
    | none ↦ thrown s
    | some src ↦ returned (record s { trigger = some (renamed n name src) })
  ]

  abbrev pub close_section : Section → Section
  close_section s = record s {
    content = jq.hide s.content;
    summary = jq.show s.summary;
    classes = jq.remove_class (codes "opened") (jq.add_class (codes "closed") s.classes);
  }

  abbrev pub open_section : Section → Section
  open_section s = record s {
    content = jq.show s.content;
    summary = jq.hide s.summary;
    classes = jq.add_class (codes "opened") (jq.remove_class (codes "closed") s.classes);
  }

  -- `toggleVisibility`.
  unfoldable pub toggle_visibility : Section → Outcome Section
  toggle_visibility s =
      if jq.is_visible s.content
      then set_trigger 8 (codes "closed.png") (close_section s)
      else set_trigger 10 (codes "open.png") (open_section s)

  abbrev set_images : ℕ → Bytes → Inherited → Outcome Inherited
  set_images n name s = elim s.images [
    | [] ↦ thrown s
    | src ∷ others ↦ returned (record s { images = map (λ i. renamed n name src) (src ∷ others) })
  ]

  -- `rows.filter(':first').is(':visible')`.
  abbrev first_is_visible : List Bytes → Bool
  first_is_visible [] = false
  first_is_visible (d ∷ rows) = jq.is_visible d

  -- `toggleInherit`.
  unfoldable pub toggle_inherit : Inherited → Outcome Inherited
  toggle_inherit s =
      if first_is_visible s.rows
      then set_images 8 (codes "closed.png") (record s { rows = map (λ d. codes "none") s.rows })
      else set_images 10 (codes "open.png")
          (record s { rows = map (λ d. codes "table-row") s.rows })
