-- ===== src/Rtos/Session.antt =====
-- The session of an RTOS client: rtos/session.c, but for what is only printed.
pub mod Laws
use parse_embedded_sdks.Base.{
  ℕ, ◌+◌, Bool, true, false, not, ◌&&◌, Option, none, some, List, [], ◌∷◌, ◌++◌, Bytes, codes, take,
  if◌then◌else◌,
}
use parse_embedded_sdks.Search.Ids.{same_text}
use parse_embedded_sdks.Json.Processor.{
  Extraction, overrun, missing, present, copied, simple_json_processor,
}
use parse_embedded_sdks.Rtos.Send.{Answer}
use parse_embedded_sdks.Rtos.Installation.{
  Device, World, Request, ask, is_success, installation_id_max_len, session_token_max_len,
  same_folded, save_client_state, get_installation,
}

abbrev pub session_request : (verb body : Bytes) → Device → Request
session_request verb body d = record {
  client = d.client;
  add_installation = true;
  verb = verb;
  path = codes "/1/sessions/me";
  body = body;
}

-- `associateSessionWithInstallation`: its request has no callback.
unfoldable pub associate_session_with_installation : World → Device → Option Device
associate_session_with_installation w d =
    if not (same_text d.installation_object_id [])
    then ask w (session_request (codes "PUT") (codes "{}\r\n") d) (λ a d'. some d') d
    else some d

-- Whether the session names an installation; `none` is a read past the body.
abbrev has_installation : Extraction → Option Bool
has_installation overrun = none
has_installation (copied id complete) = some complete
has_installation missing = some false
has_installation present = some true

abbrev unless_installed : World → Option Bool → Device → Option Device
unless_installed w none d = none
unless_installed w (some true) d = some d
unless_installed w (some false) d = associate_session_with_installation w d

-- `getSessionCallback`.
unfoldable pub get_session_callback : World → Answer → Device → Option Device
unfolding associate_session_with_installation
get_session_callback w a d =
    if is_success a
    then unless_installed w
        (has_installation (
          simple_json_processor a.body (some (codes "installationId")) true
            (installation_id_max_len + 1)))
        d
    else some d

abbrev pub then_session : World → Option Device → Option Device
then_session w none = none
then_session w (some d) = ask w (session_request (codes "GET") [] d) (get_session_callback w) d

-- `getSession`.
unfoldable pub get_session : World → Device → Option Device
unfolding get_session_callback
get_session w d = then_session w (get_installation w d)

abbrev pub with_session_token : Bytes → Device → Device
with_session_token token d = record d { client = record d.client { session_token = token } }

-- `parseSetSessionToken`; a NULL is a text without bytes.
unfoldable pub parse_set_session_token : World → Bytes → Device → Option Device
unfolding get_session
parse_set_session_token w [] d =
    if same_text d.client.session_token []
    then some d
    else save_client_state (some (with_session_token [] d))
parse_set_session_token w (c ∷ token) d =
    if same_folded session_token_max_len d.client.session_token (c ∷ token)
    then some d
    else save_client_state
        (get_session w (with_session_token (take session_token_max_len (c ∷ token)) d))

-- `parseClearSessionToken`.
abbrev pub parse_clear_session_token : World → Device → Option Device
unfolding parse_set_session_token
parse_clear_session_token w d = parse_set_session_token w [] d

-- `parseGetSessionToken`.
abbrev pub parse_get_session_token : Device → Option Bytes
parse_get_session_token d =
    if same_text d.client.session_token [] then none else some d.client.session_token
