-- ===== src/Dynsections/Tests.antt =====
-- The folding of a page on concrete rows and parts.
use mathlib.Core.List.{map}
use parse_embedded_sdks.Base.{
  ◌≡◌, refl, sym, ap, ◌∙◌, Bool, true, false, not, ◌&&◌, ◌||◌, Bool-cases, inl, inr, some, List, [],
  ◌∷◌, ◌++◌, Bytes, codes, if◌then◌else◌, arith,
}
use parse_embedded_sdks.Search.Ids.{same_text, same_text_eq}
use parse_embedded_sdks.Search.Page.{decimal}
use parse_embedded_sdks.Dynsections.Jquery.{Jquery, IsJquery}
use parse_embedded_sdks.Dynsections.Rows.{Row, shows, toggle_level, toggle_folder}
use parse_embedded_sdks.Dynsections.Rows.Stripes.{is_striped}
use parse_embedded_sdks.Dynsections.Rows.Level.{icons_agree, toggle_level_lem}
use parse_embedded_sdks.Dynsections.Rows.Folder.{view}
use parse_embedded_sdks.Dynsections.Rows.Tree.{TreeView, row_view, path_id}
use parse_embedded_sdks.Dynsections.Rows.Tree.Laws.{toggle_folder-fold_tree}
use parse_embedded_sdks.Dynsections.Rows.Twice.{toggle_folder_twice}
use parse_embedded_sdks.Dynsections.Sections.{Section, returned, toggle_visibility}
use parse_embedded_sdks.Dynsections.Sections.Laws.{IsInStep, toggle_visibility-IsInStep}

-- Classes as a list, and a display of `none` for what is hidden.
abbrev has_class : Bytes → List Bytes → Bool
has_class c [] = false
has_class c (d ∷ cs) = same_text c d || has_class c cs

abbrev remove_class : Bytes → List Bytes → List Bytes
remove_class d [] = []
remove_class d (e ∷ cs) = if same_text d e then remove_class d cs else e ∷ remove_class d cs

abbrev jquery : Jquery
jquery = record {
  is_visible = λ d. not (same_text d (codes "none"));
  show = λ d. [];
  hide = λ d. codes "none";
  has_class = has_class;
  add_class = λ d cs. d ∷ cs;
  remove_class = remove_class;
}

has_class-remove_class :
    (c d : Bytes) (cs : List Bytes)
    → has_class c (remove_class d cs) ≡ not (same_text c d) && has_class c cs
has_class-remove_class c d [] = ground arith
has_class-remove_class c d (e ∷ cs) = elim (Bool-cases (same_text d e)) [
  | inl h ↦
      let same : same_text c e ≡ same_text c d = ap (same_text c) (sym (same_text_eq d e h)) in
      rw (h, same, has_class-remove_class c d cs) (ground arith)
  | inr h ↦ elim (Bool-cases (same_text c d)) [
    | inl k ↦
        let same : same_text c e ≡ false = ap (λ x. same_text x e) (same_text_eq c d k) ∙ h in
        rw (h, same, has_class-remove_class c d cs, k) refl
    | inr k ↦ rw (h, has_class-remove_class c d cs, k) refl
  ]
]

jquery-IsJquery : IsJquery jquery
jquery-IsJquery = record {
  show_lem = λ d. refl;
  hide_lem = λ d. refl;
  none_lem = refl;
  table_row_lem = refl;
  add_class_lem = λ c d cs. refl;
  remove_class_lem = has_class-remove_class;
}

-- A table of a folder, 0, with a file, a folder, and a file in that, and of another file, 1.
abbrev row : Bytes → Bytes → Row
row suffix display = record {
  id = codes "row" ++ suffix;
  display = display;
  classes = codes "even" ∷ [];
  spans =
      record { id = codes "arr" ++ suffix; classes = codes "arrow" ∷ []; html = codes "&#9658;" }
      ∷ record { id = codes "img" ++ suffix; classes = codes "iconfclosed" ∷ []; html = [] }
      ∷ [];
}

abbrev rows : List Row
rows =
    row (codes "_0_") []
    ∷ row (codes "_0_0_") (codes "none")
    ∷ row (codes "_0_1_") (codes "none")
    ∷ row (codes "_0_1_0_") (codes "none")
    ∷ row (codes "_1_") []
    ∷ []

abbrev tree : List TreeView
tree =
    (0 ∷ [], true)
    ∷ (0 ∷ 0 ∷ [], false)
    ∷ (0 ∷ 1 ∷ [], false)
    ∷ (0 ∷ 1 ∷ 0 ∷ [], false)
    ∷ (1 ∷ [], true)
    ∷ []

toggle_level_lem_example :
    (map (shows jquery) (toggle_level jquery 2 rows) ≡ true ∷ true ∷ true ∷ false ∷ true ∷ [])
    × (map (icons_agree jquery 2) (toggle_level jquery 2 rows) ≡ map (λ r. true) rows)
    × (is_striped jquery true (toggle_level jquery 2 rows) ≡ true)
toggle_level_lem_example = toggle_level_lem jquery jquery-IsJquery 2 rows

rows_tree : map (view jquery) rows ≡ map row_view tree
unfolding decimal
rows_tree = refl

toggle_folder-fold_tree_example :
    (map (view jquery) (toggle_folder jquery (path_id (0 ∷ [])) rows)
      ≡ map row_view (
          (0 ∷ [], true)
          ∷ (0 ∷ 0 ∷ [], true)
          ∷ (0 ∷ 1 ∷ [], true)
          ∷ (0 ∷ 1 ∷ 0 ∷ [], false)
          ∷ (1 ∷ [], true)
          ∷ []))
    × (is_striped jquery true (toggle_folder jquery (path_id (0 ∷ [])) rows) ≡ true)
toggle_folder-fold_tree_example =
    toggle_folder-fold_tree jquery (0 ∷ []) rows tree jquery-IsJquery rows_tree

toggle_folder_twice_example :
    map (view jquery) (toggle_folder jquery (codes "0_") (toggle_folder jquery (codes "0_") rows))
    ≡ map (view jquery) rows
toggle_folder_twice_example = toggle_folder_twice jquery (codes "0_") rows jquery-IsJquery refl refl

abbrev closed_part : Section
closed_part = record {
  classes = codes "closed" ∷ [];
  summary = [];
  content = codes "none";
  trigger = some (codes "closed.png");
}

toggle_visibility-IsInStep_example :
    (s' : Section) × (toggle_visibility jquery closed_part ≡ returned s')
    × IsInStep jquery [] true s'
toggle_visibility-IsInStep_example =
    toggle_visibility-IsInStep jquery [] false closed_part jquery-IsJquery (record {
      content_lem = refl;
      summary_lem = refl;
      opened_lem = refl;
      closed_lem = refl;
      trigger_lem = refl;
    })
