-- ===== src/Search/Nav/Laws.antt =====
-- What the keys do on the results page.
use parse_embedded_sdks.Base.{
  ℕ, zero, suc, ◌+◌, ◌-◌, ◌≤◌, ◌<◌, ◌≡◌, ◌≢◌, refl, ap, subst, ◌∙◌, Bool, true, false, inl, inr,
  Option, some, List, [], ◌∷◌, get_elem?, set, length, replicate, ltb, ◌==◌, ne→==, Bool-cases,
  arith,
}
use parse_embedded_sdks.Search.Results.{
  Result, Keys, KeyEvent, keydown, keypress, process_keys, nav_next, nav_prev,
}
use parse_embedded_sdks.Search.Results.Moves.{
  NoneShown, IsNext, nav_next-IsNext, IsPrevious, nav_prev-IsPrevious,
}
use parse_embedded_sdks.Search.Nav.{
  item, child, focus, done, has_open_children, up_target, set_open, open_children, nav_key, nav,
}

-- Which of a sequence of events are acted on, by what `ProcessKeys` returns.
abbrev pub acted_on : List KeyEvent → Keys → List Bool
acted_on [] keys = []
acted_on (e ∷ events) keys = let (keys', acts) = process_keys e keys in acts ∷ acted_on events keys'

repeated :
    (k n : ℕ)
    → k ≢ 0
    → acted_on (replicate n (keypress k)) (record { last_key = k; repeat_on = true })
      ≡ replicate n true
repeated k zero h = refl
repeated k (suc n) h = rw (ne→== k 0 h) (ap (λ l. true ∷ l) (repeated k n h))

-- Of a key that goes down and repeats, the press is acted on, the first repeat is not, and all later
-- repeats are, whatever keys came before.
pub process_keys-repeat :
    (k n : ℕ) (keys : Keys)
    → k ≢ 0
    → acted_on (keydown k ∷ keypress k ∷ replicate n (keypress k)) keys
      ≡ true ∷ false ∷ replicate n true
process_keys-repeat k n keys h = rw (ne→== k 0 h) (ap (λ l. true ∷ false ∷ l) (repeated k n h))

get-lt :
    (results : List Result) (i : ℕ) (r : Result) → get_elem? results i ≡ some r → i < length results
get-lt [] i r h = ground arith
get-lt (x ∷ results) zero r h = omega arith
get-lt (x ∷ results) (suc i) r h = omega (arith, get-lt results i r h)

-- From the result that is shown next, the result is the one shown before.
unique :
    (results : List Result) (i j : ℕ) (r : Result) {o : Option ℕ}
    → get_elem? results i ≡ some r
    → r.shown ≡ true
    → IsNext results (i + 1) (some j)
    → IsPrevious results j o
    → o ≡ some i
unique results i j r hi hs (IsNext.at _ q a e s none_to_j)
      (IsPrevious.at m q' b e' s' none_from_m) =
    elim (Bool-cases (m == i)) [
      | inl h ↦ let m_i : m ≡ i = ground arith in ap some m_i
      | inr h ↦ elim (Bool-cases (ltb m i)) [
        | inl l ↦ ground (arith, none_from_m i r (ground arith) (omega arith) hi)
        | inr l ↦ ground (arith, none_to_j m q' (ground arith) b e')
      ]
    ]
unique results i j r hi hs (IsNext.at _ q a e s none_to_j) (IsPrevious.nowhere h) =
    ground (arith, h i r (omega arith) (omega arith) hi)

next-lt : (results : List Result) (a j : ℕ) → IsNext results a (some j) → j < length results
next-lt results a j (IsNext.at _ q b e s n) = get-lt results j q e

nav_prev-nav_next :
    (results : List Result) (i j : ℕ) (r : Result)
    → get_elem? results i ≡ some r
    → r.shown ≡ true
    → nav_next results (i + 1) ≡ some j
    → nav_prev results j ≡ some i
nav_prev-nav_next results i j r hi hs h =
    let next = subst (IsNext results (i + 1)) h (nav_next-IsNext results (i + 1)) in
    unique results i j r hi hs next
      (nav_prev-IsPrevious results j (omega (arith, next-lt results (i + 1) j next)))

suc_pred : (j : ℕ) → suc j - 1 ≡ j
suc_pred j = omega arith

key_up :
    (results : List Result) (i : ℕ) (keys : Keys) {o : Option ℕ}
    → nav_prev results i ≡ o
    → nav (keydown 38) i results keys
      ≡ done results
          (record { last_key = 38; repeat_on = false })
          (focus (up_target results (i - 1) o) ∷ [])
          false
unfolding nav nav_key
key_up results i keys h =
    ap
      (λ o.
        done results (record { last_key = 38; repeat_on = false })
          (focus (up_target results (i - 1) o) ∷ []) false)
      h

get-set :
    (results : List Result) (i : ℕ) (r v : Result)
    → get_elem? results i ≡ some r
    → get_elem? (set results i v) i ≡ some v
get-set [] i r v h = ground arith
get-set (x ∷ results) zero r v h = refl
get-set (x ∷ results) (suc i) r v h = get-set results i r v h

-- The result at `j` is shown, and none between.
nav_next-shown :
    (results : List Result) (a j : ℕ) (q : Result)
    → a ≤ j
    → get_elem? results j ≡ some q
    → q.shown ≡ true
    → NoneShown results a j
    → nav_next results a ≡ some j
nav_next-shown results a j q ha hj hq none_to_j = found (nav_next-IsNext results a) refl
  where
    found :
        {o : Option ℕ} → IsNext results a o → nav_next results a ≡ o → nav_next results a ≡ some j
    found (IsNext.at m r b e s none_to_m) h = elim (Bool-cases (m == j)) [
      | inl k ↦ h ∙ ap some (ground arith)
      | inr k ↦ elim (Bool-cases (ltb m j)) [
        | inl l ↦ ground (arith, none_to_j m r b (ground arith) e)
        | inr l ↦ ground (arith, none_to_m j q ha (ground arith) hj)
      ]
    ]
    found (IsNext.nowhere k) h = ground (arith, k j q ha hj)

-- Let two results be shown and none between them, and the children of the first be not shown. Then
-- the key `Down` on the first gives the focus to the second, and the key `Up` on the second gives the
-- focus back to the first. Both return false, and the results stay as they are.
pub nav_down_up :
    (results : List Result) (i j : ℕ) (r q : Result) (keys keys' : Keys)
    → get_elem? results i ≡ some r
    → r.shown ≡ true
    → has_open_children r.children ≡ false
    → i < j
    → get_elem? results j ≡ some q
    → q.shown ≡ true
    → NoneShown results (i + 1) j
    → (nav (keydown 40) i results keys
        ≡ done results (record { last_key = 40; repeat_on = false }) (focus (item j) ∷ []) false)
      × (nav (keydown 38) j results keys'
          ≡ done results (record { last_key = 38; repeat_on = false }) (focus (item i) ∷ []) false)
unfolding nav nav_key
nav_down_up results i j r q keys keys' hi hs hc lt hj hq between =
    let h = nav_next-shown results (i + 1) j q (omega arith) hj hq between in
    (
      rw (hi, hc, h) refl,
      key_up results j keys' (nav_prev-nav_next results i j r hi hs h) ∙ rw (hi, hc) refl,
    )

-- The key `Right` on a result with one child or more opens its children, and `Down` behind it gives
-- the focus to the first of them, whatever is shown.
pub nav_right_down :
    (results : List Result) (i n : ℕ) (r : Result) (is_open : Bool) (keys keys' : Keys)
    → get_elem? results i ≡ some r
    → r.children ≡ some (record { count = suc n; is_open = is_open })
    → let results' = set_open true results i r in
      (nav (keydown 39) i results keys
        ≡ done results' (record { last_key = 39; repeat_on = false }) [] false)
      × (nav (keydown 40) i results' keys'
          ≡ done results'
              (record { last_key = 40; repeat_on = false })
              (focus (child i 0) ∷ [])
              false)
unfolding nav nav_key
nav_right_down results i n r is_open keys keys' hi hc = (
  rw hi refl,
  rw
      (
        get-set results i r (record r { children = open_children true r.children }) hi,
        hc,
        get-set results i r
            (record r { children = some (record { count = suc n; is_open = true }) }) hi,
      )
      refl,
)

-- Let the key `Up` be struck where the result shown before is not the one directly before, and where
-- its children are shown. If the result directly before has a child, then the focus goes to that one's
-- last child, although the result is hidden.
pub nav_up_hidden :
    (results : List Result) (k : ℕ) (r h : Result) (j c : ℕ) (is_open : Bool) (keys : Keys)
    → nav_prev results (suc j) ≡ some k
    → k ≢ j
    → get_elem? results k ≡ some r
    → has_open_children r.children ≡ true
    → get_elem? results j ≡ some h
    → h.children ≡ some (record { count = suc c; is_open = is_open })
    → (h.shown ≡ false)
      × (nav (keydown 38) (suc j) results keys
          ≡ done results
              (record { last_key = 38; repeat_on = false })
              (focus (child j c) ∷ [])
              false)
unfolding nav nav_key
nav_up_hidden results k r h j c is_open keys e ne hk ho hj hc = (
  hidden (
      subst (IsPrevious results (suc j)) e
        (nav_prev-IsPrevious results (suc j) (omega (arith, get-lt results j h hj)))),
  key_up results (suc j) keys e ∙ rw (hk, ho, suc_pred j, hj, hc) refl,
)
  where
    hidden : IsPrevious results (suc j) (some k) → h.shown ≡ false
    hidden (IsPrevious.at _ q b e' s none_from_k) = none_from_k j h (omega arith) (omega arith) hj
