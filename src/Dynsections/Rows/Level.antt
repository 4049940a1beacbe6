-- ===== src/Dynsections/Rows/Level.antt =====
-- toggleLevel: which rows it shows, and with which icons.
use mathlib.Core.List.{map}
use parse_embedded_sdks.Base.{
  ℕ, ◌+◌, ◌≡◌, refl, ap, ap₂, ◌∙◌, Bool, true, false, not, ◌&&◌, ◌||◌, Bool-cases, inl, inr, List,
  [], ◌∷◌, ◌++◌, Bytes, codes, drop, ltb, leb, ◌==◌, if◌then◌else◌, arith,
}
use parse_embedded_sdks.Search.Ids.{same_text}
use parse_embedded_sdks.Dynsections.Jquery.{Jquery, IsJquery}
use parse_embedded_sdks.Dynsections.Rows.{
  Row, Span, shows, level_of, down_arrow, right_arrow, set_icon, level_row, toggle_level,
}
use parse_embedded_sdks.Dynsections.Rows.Stripes.{
  is_striped, update_stripes-is_striped, update_stripes-map,
}

or_true : (b : Bool) → b || true ≡ true
or_true true = refl
or_true false = refl

module _ (jq : Jquery) where
  -- A row with a level up to `level` has an open icon, and one on the next level a closed one.
  abbrev span_agrees : ℕ → Bytes → Span → Bool
  span_agrees level id s =
      let opened = jq.has_class (codes "iconfopen") s.classes in
      let closed = jq.has_class (codes "iconfclosed") s.classes in
      if same_text s.id (codes "img" ++ drop 3 id)
      then (if ltb (level_of id) (level + 1) then opened && not closed else closed && not opened)
      else true

  abbrev spans_agree : ℕ → Bytes → List Span → Bool
  spans_agree level id [] = true
  spans_agree level id (s ∷ spans) = span_agrees level id s && spans_agree level id spans

  abbrev pub icons_agree : ℕ → Row → Bool
  icons_agree level r = ltb (level + 1) (level_of r.id) || spans_agree level r.id r.spans

  module _ (laws : IsJquery jq) where
    shows-level_row :
        (level : ℕ) (r : Row) → shows jq (level_row jq level r) ≡ leb (level_of r.id) (level + 1)
    shows-level_row level r = ground (arith, laws.show_lem r.display, laws.hide_lem r.display)

    opens :
        (cs : List Bytes)
        → (let cs' =
              jq.add_class
                (codes "iconfopen")
                (jq.remove_class (codes "iconfclosed") (jq.remove_class (codes "iconfopen") cs)) in
            jq.has_class (codes "iconfopen") cs' && not (jq.has_class (codes "iconfclosed") cs'))
          ≡ true
    opens cs = simp (laws.add_class_lem, laws.remove_class_lem)

    closes :
        (cs : List Bytes)
        → (let cs' =
              jq.add_class
                (codes "iconfclosed")
                (jq.remove_class (codes "iconfclosed") (jq.remove_class (codes "iconfopen") cs)) in
            jq.has_class (codes "iconfclosed") cs' && not (jq.has_class (codes "iconfopen") cs'))
          ≡ true
    closes cs = simp (laws.add_class_lem, laws.remove_class_lem)

    open_spans :
        (level : ℕ) (id : Bytes) (spans : List Span)
        → ltb (level_of id) (level + 1) ≡ true
        → spans_agree level id (map (set_icon jq (drop 3 id) (codes "iconfopen") down_arrow) spans)
          ≡ true
    open_spans level id [] h = refl
    open_spans level id (s ∷ spans) h =
        elim (Bool-cases (same_text s.id (codes "img" ++ drop 3 id))) [
          | inl e ↦ rw (e, h, opens s.classes) (open_spans level id spans h)
          | inr e ↦ rw e (open_spans level id spans h)
        ]

    closed_spans :
        (level : ℕ) (id : Bytes) (spans : List Span)
        → ltb (level_of id) (level + 1) ≡ false
        → spans_agree level id
            (map (set_icon jq (drop 3 id) (codes "iconfclosed") right_arrow) spans)
          ≡ true
    closed_spans level id [] h = refl
    closed_spans level id (s ∷ spans) h =
        elim (Bool-cases (same_text s.id (codes "img" ++ drop 3 id))) [
          | inl e ↦ rw (e, h, closes s.classes) (closed_spans level id spans h)
          | inr e ↦ rw e (closed_spans level id spans h)
        ]

    icons_agree-level_row : (level : ℕ) (r : Row) → icons_agree level (level_row jq level r) ≡ true
    icons_agree-level_row level r = elim (Bool-cases (ltb (level_of r.id) (level + 1))) [
      | inl e ↦ rw e (
          ap (λ b. ltb (level + 1) (level_of r.id) || b) (open_spans level r.id r.spans e)
          ∙ or_true _)
      | inr e ↦ elim (Bool-cases (level_of r.id == level + 1)) [
        | inl k ↦
            rw (e, k)
              (ap (λ b. ltb (level + 1) (level_of r.id) || b) (closed_spans level r.id r.spans e)
                ∙ or_true _)
        | inr k ↦ rw (e, k) (ground arith)
      ]
    ]

    shows_rows :
        (level : ℕ) (rows : List Row)
        → map (shows jq) (map (level_row jq level) rows)
          ≡ map (λ r. leb (level_of r.id) (level + 1)) rows
    shows_rows level [] = refl
    shows_rows level (r ∷ rows) = ap₂ ◌∷◌ (shows-level_row level r) (shows_rows level rows)

    agree_rows :
        (level : ℕ) (rows : List Row)
        → map (icons_agree level) (map (level_row jq level) rows) ≡ map (λ r. true) rows
    agree_rows level [] = refl
    agree_rows level (r ∷ rows) = ap₂ ◌∷◌ (icons_agree-level_row level r) (agree_rows level rows)

    -- toggleLevel shows the rows with a level up to the one behind the given one, and no others. The
    -- icons of a shown row are open where its level is up to the given one, and else closed, and the
    -- shown rows are striped.
    pub toggle_level_lem :
        (level : ℕ) (rows : List Row)
        → (map (shows jq) (toggle_level jq level rows)
            ≡ map (λ r. leb (level_of r.id) (level + 1)) rows)
          × (map (icons_agree level) (toggle_level jq level rows) ≡ map (λ r. true) rows)
          × (is_striped jq true (toggle_level jq level rows) ≡ true)
    unfolding toggle_level
    toggle_level_lem level rows = (
      update_stripes-map jq (shows jq) (λ r cs. refl) (map (level_row jq level) rows)
          ∙ shows_rows level rows,
      update_stripes-map jq (icons_agree level) (λ r cs. refl) (map (level_row jq level) rows)
          ∙ agree_rows level rows,
      update_stripes-is_striped jq laws (map (level_row jq level) rows),
    )
