-- ===== src/Dynsections/Rows/Twice.antt =====
-- toggleFolder, called twice on a folder that is closed, or open with its own rows alone.
use mathlib.Core.List.{map}
use parse_embedded_sdks.Base.{
  lower, and_split, ◌≡◌, refl, sym, ap, ap₂, ◌∙◌, Bool, true, false, not, ◌&&◌, ◌||◌, Bool-cases,
  inl, inr, Option, none, some, List, [], ◌∷◌, ◌++◌, Bytes, codes, if◌then◌else◌, arith,
}
use parse_embedded_sdks.Search.Ids.{same_text, same_text_eq}
use parse_embedded_sdks.Search.Site.{drop_prefix}
use parse_embedded_sdks.Dynsections.Jquery.{Jquery, IsJquery}
use parse_embedded_sdks.Dynsections.Rows.{
  Row, is_child, is_below, is_some, is_one_level, toggle_folder,
}
use parse_embedded_sdks.Dynsections.Rows.Folder.{
  View, view, first_view, close_view, open_view, fold_view, toggle_folder-fold_view,
}

abbrev same_bool : Bool → Bool → Bool
same_bool a b = if a then b else not b

-- Of the rows below a folder, those are visible that are children of an open one.
abbrev view_settled : Bytes → Bool → View → Bool
view_settled id first v =
    same_text (lower v.0) v.0 && same_bool (is_below id v.0 && v.1) (first && is_child id v.0)

abbrev all_settled : Bytes → Bool → List View → Bool
all_settled id first [] = true
all_settled id first (v ∷ views) = view_settled id first v && all_settled id first views

-- A folder that is closed, or open with its own rows alone, in a table of ids in lower case.
abbrev pub is_settled : Bytes → List View → Bool
is_settled id [] = true
is_settled id (v ∷ views) =
    let rest = is_settled id views in
    if same_text v.0 (codes "row_" ++ id) then all_settled id (first_view id views) views else rest

same_bool_eq : (a b : Bool) → same_bool a b ≡ true → a ≡ b
same_bool_eq a b h = ground arith

is_one_level-some : (o : Option Bytes) → is_one_level o ≡ true → is_some o ≡ true
is_one_level-some none h = h
is_one_level-some (some s) h = refl

child-below :
    (id row_id : Bytes)
    → lower id ≡ id
    → lower row_id ≡ row_id
    → is_child id row_id ≡ true
    → is_below id row_id ≡ true
child-below id row_id p q h =
    let same : is_child id row_id ≡ is_one_level (drop_prefix (codes "row_" ++ id) row_id) =
      ap₂ (λ a b. is_one_level (drop_prefix (codes "row_" ++ a) b)) p q in
    is_one_level-some (drop_prefix (codes "row_" ++ id) row_id) (sym same ∙ h)

close_open_lem :
    (x below child : Bool)
    → (child ≡ true → below ≡ true)
    → (below && x) ≡ child
    → (x && not below) || child ≡ x
close_open_lem x below true h e = ground (arith, h refl)
close_open_lem x below false h e = ground arith

open_close_lem :
    (x below child : Bool)
    → (child ≡ true → below ≡ true)
    → (below && x) ≡ false
    → (x || child) && not below ≡ x
open_close_lem x below true h e = ground (arith, h refl)
open_close_lem x below false h e = ground arith

module _ (id : Bytes) (low : lower id ≡ id) where
  close-open : (v : View) → view_settled id true v ≡ true → open_view id (close_view id v) ≡ v
  close-open v h =
      let (p, q) = and_split (same_text (lower v.0) v.0) _ h in
      ap (λ b. (v.0, b))
        (close_open_lem v.1 (is_below id v.0) (is_child id v.0)
          (child-below id v.0 low (same_text_eq (lower v.0) v.0 p)) (same_bool_eq _ _ q))

  open-close : (v : View) → view_settled id false v ≡ true → close_view id (open_view id v) ≡ v
  open-close v h =
      let (p, q) = and_split (same_text (lower v.0) v.0) _ h in
      ap (λ b. (v.0, b))
        (open_close_lem v.1 (is_below id v.0) (is_child id v.0)
          (child-below id v.0 low (same_text_eq (lower v.0) v.0 p)) (same_bool_eq _ _ q))

  close-open_all :
      (vs : List View)
      → all_settled id true vs ≡ true
      → map (open_view id) (map (close_view id) vs) ≡ vs
  close-open_all [] h = refl
  close-open_all (v ∷ vs) h =
      let (p, q) = and_split (view_settled id true v) _ h in
      ap₂ ◌∷◌ (close-open v p) (close-open_all vs q)

  open-close_all :
      (vs : List View)
      → all_settled id false vs ≡ true
      → map (close_view id) (map (open_view id) vs) ≡ vs
  open-close_all [] h = refl
  open-close_all (v ∷ vs) h =
      let (p, q) = and_split (view_settled id false v) _ h in
      ap₂ ◌∷◌ (open-close v p) (open-close_all vs q)

  -- Of a folder that has been closed, no child is visible.
  first_view-close_view :
      (vs : List View)
      → all_settled id true vs ≡ true
      → first_view id (map (close_view id) vs) ≡ false
  first_view-close_view [] h = refl
  first_view-close_view (v ∷ vs) h =
      let (p, q) = and_split (view_settled id true v) _ h in
      let lowered = same_text_eq (lower v.0) v.0 (and_split _ _ p).0 in
      elim (Bool-cases (is_child id v.0)) [
        | inl e ↦ rw (e, child-below id v.0 low lowered e) (ground arith)
        | inr e ↦ rw e (first_view-close_view vs q)
      ]

  -- Of a folder that has been opened, the first child is visible, where it has one.
  abbrev has_child : List View → Bool
  has_child [] = false
  has_child (v ∷ vs) = is_child id v.0 || has_child vs

  first_view-open_view : (vs : List View) → first_view id (map (open_view id) vs) ≡ has_child vs
  first_view-open_view [] = refl
  first_view-open_view (v ∷ vs) = elim (Bool-cases (is_child id v.0)) [
    | inl e ↦ rw e (ground arith)
    | inr e ↦ rw e (first_view-open_view vs)
  ]

  open_childless : (vs : List View) → has_child vs ≡ false → map (open_view id) vs ≡ vs
  open_childless [] h = refl
  open_childless (v ∷ vs) h =
      let here : is_child id v.0 ≡ false = ground arith in
      let rest : has_child vs ≡ false = ground arith in
      let same : v.1 || is_child id v.0 ≡ v.1 = ground arith in
      ap₂ ◌∷◌ (ap (λ b. (v.0, b)) same) (open_childless vs rest)

  abbrev fold_children : List View → List View
  fold_children vs = if first_view id vs then map (close_view id) vs else map (open_view id) vs

  fold_children_twice :
      (vs : List View)
      → all_settled id (first_view id vs) vs ≡ true
      → fold_children (fold_children vs) ≡ vs
  fold_children_twice vs h = elim (Bool-cases (first_view id vs)) [
    | inl e ↦
        let settled = rw e at h in
        rw (e, first_view-close_view vs settled) (close-open_all vs settled)
    | inr e ↦
        let settled = rw e at h in
        elim (Bool-cases (has_child vs)) [
          | inl k ↦ rw (e, first_view-open_view vs, k) (open-close_all vs settled)
          | inr k ↦ rw (e, open_childless vs k, e) (open_childless vs k)
        ]
  ]

  fold_view_twice : (vs : List View) → is_settled id vs ≡ true → fold_view id (fold_view id vs) ≡ vs
  fold_view_twice [] h = refl
  fold_view_twice (v ∷ vs) h = elim (Bool-cases (same_text v.0 (codes "row_" ++ id))) [
    | inl e ↦ rw (e, e) (ap (λ l. v ∷ l) (fold_children_twice vs (rw e at h)))
    | inr e ↦ rw (e, e) (ap (λ l. v ∷ l) (fold_view_twice vs (rw e at h)))
  ]

-- Toggling a folder twice leaves every row as visible as it was, where of the rows below the folder
-- none is visible, or just its children are. The ids of the rows and of the folder are in lower case.
pub toggle_folder_twice :
    (jq : Jquery) (id : Bytes) (rows : List Row)
    → IsJquery jq
    → lower id ≡ id
    → is_settled id (map (view jq) rows) ≡ true
    → map (view jq) (toggle_folder jq id (toggle_folder jq id rows)) ≡ map (view jq) rows
toggle_folder_twice jq id rows laws low h =
    (toggle_folder-fold_view jq laws id (toggle_folder jq id rows)).0
    ∙ ap (fold_view id) (toggle_folder-fold_view jq laws id rows).0
    ∙ fold_view_twice id low (map (view jq) rows) h
