-- ===== src/Rtos/Session/Laws.antt =====
-- A session token that is set while the server cannot be reached.
use parse_embedded_sdks.Base.{
  ℕ, ◌+◌, ◌≡◌, refl, ap, Bool-cases, inl, inr, some, [], ◌∷◌, ◌++◌, Bytes, codes, take,
  if◌then◌else◌,
}
use parse_embedded_sdks.Rtos.Installation.{Device, World, session_token_max_len, same_folded}
use parse_embedded_sdks.Rtos.Installation.Laws.{
  IsOffline, KeepsSession, get_installation-KeepsSession,
}
use parse_embedded_sdks.Rtos.Session.{
  session_request, get_session_callback, get_session, with_session_token, parse_set_session_token,
}

get_session-KeepsSession : (w : World) (d : Device) → IsOffline w → KeepsSession d (get_session w d)
unfolding get_session get_session_callback
get_session-KeepsSession w d off =
    let (d', e, token, saves) = get_installation-KeepsSession w d off in
    let r = session_request (codes "GET") [] d' in
    (record d' { requests = d'.requests ++ r ∷ [] }, rw (e, off r) refl, token, saves)

-- While no request succeeds, a session token that is no text without bytes is taken nevertheless: it is
-- the token of the client, cut to 40 bytes, and the state is saved once more, unless the first 40 bytes
-- differ from those of the former token in nothing but case; then the former token stays.
pub parse_set_session_token-same_folded :
    (w : World) (c : ℕ) (token : Bytes) (d : Device)
    → IsOffline w
    → let same = same_folded session_token_max_len d.client.session_token (c ∷ token) in
      (d' : Device) × (parse_set_session_token w (c ∷ token) d ≡ some d')
      × (d'.client.session_token
          ≡ (if same then d.client.session_token else take session_token_max_len (c ∷ token)))
      × (d'.saves ≡ (if same then d.saves else d.saves + 1))
unfolding parse_set_session_token
parse_set_session_token-same_folded w c token d off =
    let new = with_session_token (take session_token_max_len (c ∷ token)) d in
    let (d', e, kept, saves) = get_session-KeepsSession w new off in
    elim (Bool-cases (same_folded session_token_max_len d.client.session_token (c ∷ token))) [
      | inl h ↦ rw h (d, refl, refl, refl)
      | inr h ↦ rw (h, e) (record d' { saves = d'.saves + 1 }, refl, kept, ap (λ n. n + 1) saves)
    ]
