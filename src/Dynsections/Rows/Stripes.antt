-- ===== src/Dynsections/Rows/Stripes.antt =====
-- updateStripes: the visible rows are striped, and nothing else changes.
use mathlib.Core.List.{map}
use parse_embedded_sdks.Base.{
  ◌≡◌, refl, ap₂, ◌∙◌, Bool, true, false, not, ◌&&◌, Bool-cases, inl, inr, List, [], ◌∷◌, Bytes,
  codes, if◌then◌else◌,
}
use parse_embedded_sdks.Dynsections.Jquery.{Jquery, IsJquery}
use parse_embedded_sdks.Dynsections.Rows.{Row, shows, stripe, without_even, update_stripes}

module _ (jq : Jquery) where
  abbrev pub is_even : Row → Bool
  is_even r = jq.has_class (codes "even") r.classes

  -- Of the visible rows, every second one is even, from the first on or from the second on, and of the
  -- hidden rows none is.
  abbrev pub is_striped : Bool → List Row → Bool
  is_striped even [] = true
  is_striped even (r ∷ rows) =
      let next = is_striped (not even) rows in
      let same = is_striped even rows in
      if shows jq r
      then (if even then is_even r else not (is_even r)) && next
      else not (is_even r) && same

  module _ (laws : IsJquery jq) where
    without_even-is_even : (r : Row) → is_even (without_even jq r) ≡ false
    without_even-is_even r = laws.remove_class_lem (codes "even") (codes "even") r.classes

    with_even-is_even :
        (r : Row) → jq.has_class (codes "even") (jq.add_class (codes "even") r.classes) ≡ true
    with_even-is_even r = laws.add_class_lem (codes "even") (codes "even") r.classes

    stripe-is_striped :
        (even : Bool) (rows : List Row)
        → is_striped even (stripe jq even (map (without_even jq) rows)) ≡ true
    stripe-is_striped even [] = refl
    stripe-is_striped true (r ∷ rows) = elim (Bool-cases (shows jq r)) [
      | inl e ↦ rw (e, e, with_even-is_even (without_even jq r)) (stripe-is_striped false rows)
      | inr e ↦ rw (e, e, without_even-is_even r) (stripe-is_striped true rows)
    ]
    stripe-is_striped false (r ∷ rows) = elim (Bool-cases (shows jq r)) [
      | inl e ↦ rw (e, e, without_even-is_even r) (stripe-is_striped true rows)
      | inr e ↦ rw (e, e, without_even-is_even r) (stripe-is_striped false rows)
    ]

    pub update_stripes-is_striped :
        (rows : List Row) → is_striped true (update_stripes jq rows) ≡ true
    unfolding update_stripes
    update_stripes-is_striped rows = stripe-is_striped true rows

  -- What does not depend on the classes of the rows stays.
  module _ {X : Type 0} (f : Row → X)
      (ignores : (r : Row) (cs : List Bytes) → f (record r { classes = cs }) ≡ f r) where
    stripe-map : (even : Bool) (rows : List Row) → map f (stripe jq even rows) ≡ map f rows
    stripe-map true [] = refl
    stripe-map false [] = refl
    stripe-map true (r ∷ rows) = elim (Bool-cases (shows jq r)) [
      | inl e ↦
          rw e (ap₂ ◌∷◌ (ignores r (jq.add_class (codes "even") r.classes)) (stripe-map false rows))
      | inr e ↦ rw e (ap₂ ◌∷◌ refl (stripe-map true rows))
    ]
    stripe-map false (r ∷ rows) = elim (Bool-cases (shows jq r)) [
      | inl e ↦ rw e (ap₂ ◌∷◌ refl (stripe-map true rows))
      | inr e ↦ rw e (ap₂ ◌∷◌ refl (stripe-map false rows))
    ]

    without_even-map : (rows : List Row) → map f (map (without_even jq) rows) ≡ map f rows
    without_even-map [] = refl
    without_even-map (r ∷ rows) =
        ap₂ ◌∷◌ (ignores r (jq.remove_class (codes "even") r.classes)) (without_even-map rows)

    pub update_stripes-map : (rows : List Row) → map f (update_stripes jq rows) ≡ map f rows
    unfolding update_stripes
    update_stripes-map rows = stripe-map true (map (without_even jq) rows) ∙ without_even-map rows
