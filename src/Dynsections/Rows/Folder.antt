-- ===== src/Dynsections/Rows/Folder.antt =====
-- toggleFolder, by what it does to the ids and the visibility of the rows.
use mathlib.Core.List.{map}
use parse_embedded_sdks.Base.{
  ◌≡◌, refl, sym, ap, ap₂, ◌∙◌, Bool, true, false, not, ◌&&◌, ◌||◌, Bool-cases, inl, inr, List, [],
  ◌∷◌, ◌++◌, Bytes, codes, if◌then◌else◌, arith,
}
use parse_embedded_sdks.Search.Ids.{same_text}
use parse_embedded_sdks.Dynsections.Jquery.{Jquery, IsJquery}
use parse_embedded_sdks.Dynsections.Rows.{
  Row, shows, is_child, is_below, first_shows, close_row, open_row, fold_rows, fold_at,
  toggle_folder,
}
use parse_embedded_sdks.Dynsections.Rows.Stripes.{
  is_striped, update_stripes-is_striped, update_stripes-map,
}

-- The id of a row and whether it is visible.
abbrev pub View : Type 0
View = Bytes × Bool

abbrev pub first_view : Bytes → List View → Bool
first_view id [] = false
first_view id (v ∷ views) = if is_child id v.0 then v.1 else first_view id views

abbrev pub close_view : Bytes → View → View
close_view id v = (v.0, v.1 && not (is_below id v.0))

abbrev pub open_view : Bytes → View → View
open_view id v = (v.0, v.1 || is_child id v.0)

-- A folder is closed with all that is below it, and opened by its own rows alone.
abbrev pub fold_view : Bytes → List View → List View
fold_view id [] = []
fold_view id (v ∷ views) =
    let rest = fold_view id views in
    if same_text v.0 (codes "row_" ++ id)
    then v ∷ (if first_view id views then map (close_view id) views else map (open_view id) views)
    else v ∷ rest

and_true : (b : Bool) → b ≡ b && true
and_true b = ground arith

and_false : (b : Bool) → false ≡ b && false
and_false b = ground arith

or_true : (b : Bool) → true ≡ b || true
or_true b = ground arith

or_false : (b : Bool) → b ≡ b || false
or_false b = ground arith

-- A function on the rows and one on their views that agree on each row agree on all.
map-map_eq :
    {A B : Type 0} (f : A → B) (g : A → A) (h : B → B)
    → ((a : A) → f (g a) ≡ h (f a))
    → (xs : List A) → map f (map g xs) ≡ map h (map f xs)
map-map_eq f g h e [] = refl
map-map_eq f g h e (x ∷ xs) = ap₂ ◌∷◌ (e x) (map-map_eq f g h e xs)

module _ (jq : Jquery) where
  abbrev pub view : Row → View
  view r = (r.id, shows jq r)

  first_shows-view :
      (id : Bytes) (rows : List Row) → first_shows jq id rows ≡ first_view id (map view rows)
  first_shows-view id [] = refl
  first_shows-view id (r ∷ rows) =
      ap (λ b. if is_child id r.id then shows jq r else b) (first_shows-view id rows)

  module _ (laws : IsJquery jq) where
    view-close_row : (id : Bytes) (r : Row) → view (close_row jq id r) ≡ close_view id (view r)
    view-close_row id r = elim (Bool-cases (is_below id r.id)) [
      | inl e ↦ rw (e, laws.hide_lem r.display) (ap (λ b. (r.id, b)) (and_false (shows jq r)))
      | inr e ↦ rw e (ap (λ b. (r.id, b)) (and_true (shows jq r)))
    ]

    view-open_row : (id : Bytes) (r : Row) → view (open_row jq id r) ≡ open_view id (view r)
    view-open_row id r = elim (Bool-cases (is_child id r.id)) [
      | inl e ↦ rw (e, laws.show_lem r.display) (ap (λ b. (r.id, b)) (or_true (shows jq r)))
      | inr e ↦ rw e (ap (λ b. (r.id, b)) (or_false (shows jq r)))
    ]

    view-fold_rows :
        (id : Bytes) (r : Row) (rows : List Row)
        → map view (fold_rows jq id r rows)
          ≡ view r
            ∷ (if first_view id (map view rows)
                then map (close_view id) (map view rows)
                else map (open_view id) (map view rows))
    view-fold_rows id r rows = elim (Bool-cases (first_shows jq id rows)) [
      | inl e ↦
          rw (e, sym (first_shows-view id rows), e)
            (ap (λ vs. view r ∷ vs)
              (map-map_eq view (close_row jq id) (close_view id) (view-close_row id) rows))
      | inr e ↦
          rw (e, sym (first_shows-view id rows), e)
            (ap (λ vs. view r ∷ vs)
              (map-map_eq view (open_row jq id) (open_view id) (view-open_row id) rows))
    ]

    view-fold_at :
        (id : Bytes) (rows : List Row)
        → map view (fold_at jq id rows) ≡ fold_view id (map view rows)
    view-fold_at id [] = refl
    view-fold_at id (r ∷ rows) = elim (Bool-cases (same_text r.id (codes "row_" ++ id))) [
      | inl e ↦ rw e (view-fold_rows id r rows)
      | inr e ↦ rw e (ap (λ vs. view r ∷ vs) (view-fold_at id rows))
    ]

    -- toggleFolder, by the ids and the visibility of the rows: where the first child of the folder is
    -- visible, all rows below the folder are hidden, and else its children are shown; no other row
    -- changes its visibility. The visible rows are striped afterwards.
    pub toggle_folder-fold_view :
        (id : Bytes) (rows : List Row)
        → (map view (toggle_folder jq id rows) ≡ fold_view id (map view rows))
          × (is_striped jq true (toggle_folder jq id rows) ≡ true)
    unfolding toggle_folder
    toggle_folder-fold_view id rows = (
      update_stripes-map jq view (λ r cs. refl) (fold_at jq id rows) ∙ view-fold_at id rows,
      update_stripes-is_striped jq laws (fold_at jq id rows),
    )
