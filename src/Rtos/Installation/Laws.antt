-- ===== src/Rtos/Installation/Laws.antt =====
-- Requests that fail leave the session and the count of saves, and a new id does not reach the server
-- while the object id of the former one is there.
use parse_embedded_sdks.Base.{
  ℕ, ◌+◌, ◌≡◌, ◌≢◌, refl, ◌∙◌, ap, ap₂, sym, subst, if◌then◌else◌, List, append_assoc, Bool, true,
  none, ◌⊎◌, arith, false, not, ◌&&◌, Bool-cases, inl, inr, Option, some, [], ◌∷◌, ◌++◌, Bytes,
  take, lower,
}
use parse_embedded_sdks.Search.Ids.{same_text}
use parse_embedded_sdks.Rtos.Send.{Answer}
use parse_embedded_sdks.Rtos.Installation.{
  Device, World, Request, ask, is_success, with_installation_id, with_object_id,
  installation_id_max_len, same_folded, ensure_id, fetch_installation, create_installation_callback,
  get_installation_callback, get_installation_by_id_callback, create_installation, get_installation,
  parse_set_installation_id, by_object_id, by_installation_id, save_client_state, then_create,
}
use parse_embedded_sdks.Rtos.Installation.Requests.{
  IsAnswered, Follows, by_id_callback-Follows, ask-Follows, then_create-Follows,
}

not_empty : (s : Bytes) → s ≢ [] → same_text s [] ≡ false
not_empty [] h = absurd (h refl)
not_empty (c ∷ s) h = refl

-- No request is answered with a status from 200 to 299.
abbrev pub IsOffline : World → Type 0
IsOffline w = (r : Request) → is_success (w.answer r) ≡ false

-- The function returns, with the session and the count of saves as they were.
abbrev pub KeepsSession : Device → Option Device → Type 0
KeepsSession d o =
    (d' : Device) × (o ≡ some d')
    × (d'.client.session_token ≡ d.client.session_token)
    × (d'.saves ≡ d.saves)

ensure_id-session :
    (w : World) (d : Device)
    → ((ensure_id w d).client.session_token ≡ d.client.session_token)
      × ((ensure_id w d).saves ≡ d.saves)
ensure_id-session w d = elim (Bool-cases (same_text d.client.installation_id [])) [
  | inl e ↦ rw e (refl, refl)
  | inr e ↦ rw e (refl, refl)
]

KeepsSession-trans :
    (d d' : Device) (o : Option Device)
    → d'.client.session_token ≡ d.client.session_token
    → d'.saves ≡ d.saves
    → KeepsSession d' o
    → KeepsSession d o
KeepsSession-trans d d' o p q (d'', e, p', q') = (d'', e, p' ∙ p, q' ∙ q)

-- A callback that clears the object id where the request has failed.
abbrev ClearsId : (Answer → Device → Option Device) → Type 0
ClearsId callback =
    (a : Answer) (d : Device) → is_success a ≡ false → callback a d ≡ some (with_object_id [] d)

ask-KeepsSession :
    (w : World) (r : Request) (callback : Answer → Device → Option Device) (d : Device)
    → IsOffline w
    → ClearsId callback
    → KeepsSession d (ask w r callback d)
ask-KeepsSession w r callback d off clears =
    let d' = record d { requests = d.requests ++ r ∷ [] } in
    (with_object_id [] d', clears (w.answer r) d' (off r), refl, refl)

create_installation_callback-ClearsId : ClearsId create_installation_callback
unfolding create_installation_callback
create_installation_callback-ClearsId a d h = rw h refl

get_installation_callback-ClearsId : ClearsId get_installation_callback
unfolding get_installation_callback
get_installation_callback-ClearsId a d h = rw h refl

get_installation_by_id_callback-ClearsId : ClearsId get_installation_by_id_callback
unfolding get_installation_by_id_callback
get_installation_by_id_callback-ClearsId a d h = rw h refl

create_installation-KeepsSession :
    (w : World) (d : Device) → IsOffline w → KeepsSession d (create_installation w d)
unfolding create_installation
create_installation-KeepsSession w d off =
    let (token, saves) = ensure_id-session w d in
    elim (Bool-cases (same_text d.installation_object_id [])) [
      | inl e ↦ rw e (
          KeepsSession-trans d (ensure_id w d) _ token saves (
            ask-KeepsSession w _ create_installation_callback (ensure_id w d) off
              create_installation_callback-ClearsId))
      | inr e ↦ (d, rw e refl, refl, refl)
    ]

fetch_installation-KeepsSession :
    (w : World) (d : Device) → IsOffline w → KeepsSession d (fetch_installation w d)
fetch_installation-KeepsSession w d off =
    elim (Bool-cases (same_text d.installation_object_id [])) [
      | inl e ↦ elim (Bool-cases (same_text d.client.installation_id [])) [
        | inl k ↦ (d, rw (e, k) refl, refl, refl)
        | inr k ↦
            rw (e, k)
              (ask-KeepsSession w _ get_installation_by_id_callback d off
                get_installation_by_id_callback-ClearsId)
      ]
      | inr e ↦
          rw e (
            ask-KeepsSession w _ get_installation_callback d off get_installation_callback-ClearsId)
    ]

pub get_installation-KeepsSession :
    (w : World) (d : Device) → IsOffline w → KeepsSession d (get_installation w d)
unfolding get_installation
get_installation-KeepsSession w d off =
    let (d', e, token, saves) = fetch_installation-KeepsSession w d off in
    elim (Bool-cases (
      not (same_text d.installation_object_id []) && not (same_text d.client.installation_id []))) [
        | inl h ↦ (d, rw h refl, refl, refl)
        | inr h ↦
            rw (h, e)
              (KeepsSession-trans d d' _ token saves (create_installation-KeepsSession w d' off))
      ]

-- A call that has sent a request before any other, and has saved the client once; or one that faults,
-- since a callback reads past the body of an answer, which takes an answer with a status from 200 to
-- 299.
abbrev pub AsksFirst : World → Device → Request → Option Device → Type 0
AsksFirst w d r none = IsAnswered w
AsksFirst w d r (some d') =
    (more : List Request) × (d'.requests ≡ d.requests ++ r ∷ more) × (d'.saves ≡ d.saves + 1)

-- What becomes of a client that gets a new installation id.
abbrev pub SetsId : World → Device → (new : Bytes) → (same : Bool) → Option Device → Type 0
SetsId w d new same o =
    ((same ≡ true) × (o ≡ some d))
    ⊎ (((same ≡ false)
          × (d.installation_object_id ≢ [])
          × (o ≡ some (record (with_installation_id new d) { saves = d.saves + 1 })))
        ⊎ ((same ≡ false)
            × (d.installation_object_id ≡ [])
            × AsksFirst w d (by_installation_id (with_installation_id new d)) o))

text-cases : (s : Bytes) → (s ≡ []) ⊎ (s ≢ [])
text-cases [] = inl refl
text-cases (c ∷ s) = inr (λ h. ground (arith, h))

save-AsksFirst :
    (w : World) (d x : Device) (r : Request) (o : Option Device)
    → x.requests ≡ d.requests ++ r ∷ []
    → x.saves ≡ d.saves
    → Follows (IsAnswered w) x o
    → AsksFirst w d r (save_client_state o)
save-AsksFirst w d x r none h k f = f
save-AsksFirst w d x r (some y) h k (more, requests, saves) = (
  more,
  requests ∙ ap (λ l. l ++ more) h ∙ append_assoc d.requests (r ∷ []) more,
  ap (λ n. n + 1) (saves ∙ k),
)

get_installation-AsksFirst :
    (w : World) (d x : Device)
    → same_text x.installation_object_id [] ≡ true
    → same_text x.client.installation_id [] ≡ false
    → x.requests ≡ d.requests
    → x.saves ≡ d.saves
    → AsksFirst w d (by_installation_id x) (save_client_state (get_installation w x))
unfolding get_installation
get_installation-AsksFirst w d x ho hi hr hs =
    let r = by_installation_id x in
    let y = record x { requests = x.requests ++ r ∷ [] } in
    let by_object = ask w (by_object_id x) get_installation_callback x in
    let by_id = ask w r get_installation_by_id_callback x in
    let asked : get_installation w x ≡ then_create w by_id =
      ap₂
        (λ p q.
          if not p && not q
          then some x
          else then_create w (if not p then by_object else if not q then by_id else some x))
        ho hi in
    subst (λ o. AsksFirst w d r (save_client_state o)) (sym asked)
      (save-AsksFirst w d y r (then_create w by_id) (ap (λ l. l ++ r ∷ []) hr) hs (
        then_create-Follows w y by_id
          (ask-Follows w r get_installation_by_id_callback x by_id_callback-Follows)))

-- Let a client get an installation id that has bytes; `new` is the id cut to 36 bytes, in lower case.
-- Where the first 36 bytes of the client's id and of the new one differ in case alone or not at all,
-- the client stays as it is. Otherwise, where the client has an object id, `new` is stored and saved,
-- and all else stays: no request is sent, and the object id of the former installation is kept.
-- Otherwise the first request that is sent is the query for the installation of the id `new`, and the
-- client is saved once; or a callback faults, which takes a request that is answered with a status
-- from 200 to 299.
pub parse_set_installation_id-installation_object_id :
    (w : World) (c : ℕ) (id : Bytes) (d : Device)
    → SetsId w d
        (lower (take installation_id_max_len (c ∷ id)))
        (same_folded installation_id_max_len d.client.installation_id (c ∷ id))
        (parse_set_installation_id w (c ∷ id) d)
unfolding parse_set_installation_id get_installation
parse_set_installation_id-installation_object_id w c id d =
    let new = lower (take installation_id_max_len (c ∷ id)) in
    let d' = with_installation_id new d in
    elim (Bool-cases (same_folded installation_id_max_len d.client.installation_id (c ∷ id))) [
      | inl k ↦ rw k (inl (refl, refl))
      | inr k ↦ elim (text-cases d.installation_object_id) [
        | inl h ↦ rw k (
            inr (
              inr (
                refl,
                h,
                get_installation-AsksFirst w d d' (ap (λ s. same_text s []) h) refl refl refl,
              )))
        | inr h ↦ rw k (inr (inl (refl, h, rw (not_empty d.installation_object_id h) refl)))
      ]
    ]
