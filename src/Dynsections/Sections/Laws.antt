-- ===== src/Dynsections/Sections/Laws.antt =====
-- What toggleVisibility and toggleInherit keep in step.
use mathlib.Core.List.{map}
use parse_embedded_sdks.Base.{
  ◌+◌, ◌-◌, ◌≡◌, ◌≢◌, refl, ap, ◌∙◌, Bool, true, false, not, some, List, [], ◌∷◌, ◌++◌, Bytes,
  codes, length, take, length-append, take-append, All, arith,
}
use parse_embedded_sdks.Dynsections.Jquery.{Jquery, IsJquery}
use parse_embedded_sdks.Dynsections.Sections.{
  Section, Inherited, returned, renamed, toggle_visibility, toggle_inherit, set_images,
  close_section, open_section, first_is_visible,
}

-- The image of a part that is open, or closed.
abbrev pub image : Bytes → Bool → Bytes
image base true = base ++ codes "open.png"
image base false = base ++ codes "closed.png"

renamed_lem : (base old name : Bytes) → renamed (length old) name (base ++ old) ≡ base ++ name
renamed_lem base old name =
    let n : length base + length old - length old ≡ length base = omega arith in
    ap (λ k. take (k - length old) (base ++ old) ++ name) (length-append base old)
    ∙ ap (λ k. take k (base ++ old) ++ name) n
    ∙ ap (λ s. s ++ name) (take-append base old)

map-ne-nil : (v : Bytes) (xs : List Bytes) → xs ≢ [] → map (λ x. v) xs ≢ []
map-ne-nil v [] h = h
map-ne-nil v (x ∷ xs) h = ground arith

All-map :
    {A : Type 0} (P : Bytes → Type 0) (v : Bytes) (xs : List A) → P v → All P (map (λ x. v) xs)
All-map P v [] h = tt
All-map P v (x ∷ xs) h = (h, All-map P v xs h)

module _ (jq : Jquery) where
  -- A part shows its content, or its summary, and its link and its image say which.
  pub record IsInStep (base : Bytes) (opened : Bool) (s : Section) : Type 0 where
    pub content_lem : jq.is_visible s.content ≡ opened
    pub summary_lem : jq.is_visible s.summary ≡ not opened
    pub opened_lem : jq.has_class (codes "opened") s.classes ≡ opened
    pub closed_lem : jq.has_class (codes "closed") s.classes ≡ not opened
    pub trigger_lem : s.trigger ≡ some (image base opened)

  -- A part whose display, link and image agree is open after a click where it was closed, and closed
  -- where it was open, and they agree again.
  pub toggle_visibility-IsInStep :
      (base : Bytes) (opened : Bool) (s : Section)
      → IsJquery jq
      → IsInStep base opened s
      → (s' : Section) × (toggle_visibility jq s ≡ returned s') × IsInStep base (not opened) s'
  unfolding toggle_visibility
  toggle_visibility-IsInStep base true s laws h =
      let image_lem = ap some (renamed_lem base (codes "open.png") (codes "closed.png")) in
      (
        record (close_section jq s) { trigger = some (image base false) },
        rw (h.content_lem, h.trigger_lem)
            (ap (λ t. returned (record (close_section jq s) { trigger = t })) image_lem),
        record {
          content_lem = laws.hide_lem s.content;
          summary_lem = laws.show_lem s.summary;
          opened_lem = laws.remove_class_lem (codes "opened") (codes "opened") _;
          closed_lem =
              laws.remove_class_lem (codes "closed") (codes "opened") _
              ∙ laws.add_class_lem (codes "closed") (codes "closed") s.classes;
          trigger_lem = refl;
        },
      )
  toggle_visibility-IsInStep base false s laws h =
      let image_lem = ap some (renamed_lem base (codes "closed.png") (codes "open.png")) in
      (
        record (open_section jq s) { trigger = some (image base true) },
        rw (h.content_lem, h.trigger_lem)
            (ap (λ t. returned (record (open_section jq s) { trigger = t })) image_lem),
        record {
          content_lem = laws.show_lem s.content;
          summary_lem = laws.hide_lem s.summary;
          opened_lem = laws.add_class_lem (codes "opened") (codes "opened") _;
          closed_lem =
              laws.add_class_lem (codes "closed") (codes "opened") _
              ∙ laws.remove_class_lem (codes "closed") (codes "closed") s.classes;
          trigger_lem = refl;
        },
      )

  -- The rows are visible or not, all of them, and the images say which. There is a row and an image.
  abbrev pub AreInStep : Bytes → Bool → Inherited → Type 0
  AreInStep base opened s =
      (s.rows ≢ [])
      × (s.images ≢ [])
      × All (λ d. jq.is_visible d ≡ opened) s.rows
      × All (λ i. i ≡ image base opened) s.images

  first_is_visible_lem :
      (rows : List Bytes) (b : Bool)
      → rows ≢ []
      → All (λ d. jq.is_visible d ≡ b) rows
      → first_is_visible jq rows ≡ b
  first_is_visible_lem [] b ne h = absurd (ne refl)
  first_is_visible_lem (d ∷ rows) b ne h = h.0

  set_images_lem :
      (base old name : Bytes) (rows images : List Bytes)
      → images ≢ []
      → All (λ i. i ≡ base ++ old) images
      → set_images jq (length old) name (record { rows = rows; images = images })
        ≡ returned (record { rows = rows; images = map (λ i. base ++ name) images })
  set_images_lem base old name rows [] ne h = absurd (ne refl)
  set_images_lem base old name rows (src ∷ others) ne h =
      ap (λ v. returned (record { rows = rows; images = map (λ i. v) (src ∷ others) }))
        (ap (renamed (length old) name) h.0 ∙ renamed_lem base old name)

  -- A click on the header of inherited members shows all of them where all were hidden, and hides all
  -- where all were visible, and the images say so.
  pub toggle_inherit-AreInStep :
      (base : Bytes) (opened : Bool) (s : Inherited)
      → IsJquery jq
      → AreInStep base opened s
      → (s' : Inherited) × (toggle_inherit jq s ≡ returned s') × AreInStep base (not opened) s'
  unfolding toggle_inherit
  toggle_inherit-AreInStep base true s laws (nr, ni, hr, hi) = (
    record { rows = map (λ d. codes "none") s.rows; images = map (λ i. image base false) s.images },
    rw (first_is_visible_lem s.rows true nr hr) (
        set_images_lem base (codes "open.png") (codes "closed.png") (map (λ d. codes "none") s.rows)
          s.images ni hi),
    (
      map-ne-nil _ s.rows nr,
      map-ne-nil _ s.images ni,
      All-map (λ d. jq.is_visible d ≡ false) (codes "none") s.rows laws.none_lem,
      All-map (λ i. i ≡ image base false) (image base false) s.images refl,
    ),
  )
  toggle_inherit-AreInStep base false s laws (nr, ni, hr, hi) = (
    record {
      rows = map (λ d. codes "table-row") s.rows;
      images = map (λ i. image base true) s.images;
    },
    rw (first_is_visible_lem s.rows false nr hr) (
        set_images_lem base (codes "closed.png") (codes "open.png")
          (map (λ d. codes "table-row") s.rows) s.images ni hi),
    (
      map-ne-nil _ s.rows nr,
      map-ne-nil _ s.images ni,
      All-map (λ d. jq.is_visible d ≡ true) (codes "table-row") s.rows laws.table_row_lem,
      All-map (λ i. i ≡ image base true) (image base true) s.images refl,
    ),
  )
