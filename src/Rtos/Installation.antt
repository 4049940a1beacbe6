-- ===== src/Rtos/Installation.antt =====
-- The installation of an RTOS client: rtos/installation.c. How a request is answered is a parameter, as is
-- the id that the platform makes (createNewInstallationId). The texts of the client are C strings, as
-- bytes; what is saved is the port's matter, and counted.
pub mod Requests
pub mod Laws
use parse_embedded_sdks.Base.{
  ℕ, ◌+◌, ◌-◌, Bool, true, false, not, ◌&&◌, Option, none, some, List, [], ◌∷◌, ◌++◌, Bytes, codes,
  length, take, drop, replicate, leb, ltb, ◌==◌, if◌then◌else◌, ℤ, pos, negsuc, is_zero, lower,
}
use parse_embedded_sdks.Search.Ids.{same_text}
use parse_embedded_sdks.Json.Processor.{
  Extraction, overrun, missing, present, copied, simple_json_processor,
}
use parse_embedded_sdks.Rtos.Request.{Client}
use parse_embedded_sdks.Rtos.Send.{Answer}

-- OBJECT_ID_MAX_LEN, INSTALLATION_ID_MAX_LEN, SESSION_TOKEN_MAX_LEN.
abbrev pub object_id_max_len : ℕ
object_id_max_len = 16

abbrev pub installation_id_max_len : ℕ
installation_id_max_len = 36

abbrev pub session_token_max_len : ℕ
session_token_max_len = 40

-- A request: the client that sends it, with the installation's headers or without them.
pub record Request : Type 0 where
  pub client : Client
  pub add_installation : Bool
  pub verb : Bytes
  pub path : Bytes
  pub body : Bytes

-- The client with its object id, the requests that it has sent, and how often its state has been saved.
pub record Device : Type 0 where
  pub client : Client
  pub installation_object_id : Bytes
  pub requests : List Request
  pub saves : ℕ

-- What the world does: it answers requests, and it makes an id.
pub record World : Type 0 where
  pub answer : Request → Answer
  pub new_installation_id : Bytes

-- `parseSendRequestInternal` with a callback.
abbrev pub ask : World → Request → (Answer → Device → Option Device) → Device → Option Device
ask w r callback d = callback (w.answer r) (record d { requests = d.requests ++ r ∷ [] })

abbrev pub with_installation_id : Bytes → Device → Device
with_installation_id id d = record d { client = record d.client { installation_id = id } }

abbrev pub with_object_id : Bytes → Device → Device
with_object_id id d = record d { installation_object_id = id }

-- `(error == 0) && (httpStatus >= 200 && httpStatus < 300)`.
abbrev is_success_status : ℤ → Bool
is_success_status (pos n) = leb 200 n && ltb n 300
is_success_status (negsuc n) = false

abbrev pub is_success : Answer → Bool
is_success a = is_zero a.error && is_success_status a.http_status

-- A field behind `simpleJsonProcessor`; `none` is a read past the body.
abbrev pub field_of : Bytes → Extraction → Option Bytes
field_of old overrun = none
field_of old (copied value complete) = some value
field_of old e = some old

abbrev pub set_object_id : Device → Option Bytes → Option Device
set_object_id d none = none
set_object_id d (some id) = some (with_object_id id d)

abbrev pub set_installation : Option Bytes → Option Device → Option Device
set_installation id none = none
set_installation none (some d) = none
set_installation (some id) (some d) = some (with_installation_id id d)

-- `createInstallationCallback`.
unfoldable pub create_installation_callback : Answer → Device → Option Device
create_installation_callback a d =
    if is_success a
    then set_object_id d (
        field_of d.installation_object_id
          (simple_json_processor a.body (some (codes "objectId")) true (object_id_max_len + 1)))
    else some (with_object_id [] d)

-- Both ids out of a text.
abbrev pub both_ids : Option Bytes → Device → Option Device
both_ids json d =
    set_installation
      (field_of d.client.installation_id (
        simple_json_processor json (some (codes "installationId")) true
          (installation_id_max_len + 1)))
      (set_object_id d (
        field_of d.installation_object_id
          (simple_json_processor json (some (codes "objectId")) true (object_id_max_len + 1))))

-- `getInstallationCallback`.
unfoldable pub get_installation_callback : Answer → Device → Option Device
get_installation_callback a d =
    if is_success a then both_ids a.body d else some (with_object_id [] d)

abbrev pub starts_object : Bytes → Bool
starts_object [] = false
starts_object (c ∷ s) = c == b'{'

-- The results of the query in their array of 400 bytes, from the second byte on, by what stands in it.
abbrev pub first_result : Extraction → Device → Option Device
first_result overrun d = none
first_result (copied results true) d =
    let p = drop 1 (results ++ replicate (400 - length results) 0) in
    if starts_object p then both_ids (some p) d else some d
first_result e d = some d

-- `getInstallationByIdCallback`.
unfoldable pub get_installation_by_id_callback : Answer → Device → Option Device
get_installation_by_id_callback a d =
    if is_success a
    then first_result (simple_json_processor a.body (some (codes "results")) true 400) d
    else some (with_object_id [] d)

-- `createNewInstallationId` where there is no id.
abbrev pub ensure_id : World → Device → Device
ensure_id w d =
    if same_text d.client.installation_id []
    then with_installation_id w.new_installation_id d
    else d

-- The body of the request, in an array of 120 bytes whose last one `snprintf` does not use.
abbrev create_content : Bytes → Bytes
create_content id = take 118 (
    codes "{\"installationId\": \""
    ++ (id ++ codes "\", \"deviceType\": \"embedded\", \"parseVersion\": \"1.0.0\"}"))

-- `createInstallation`.
unfoldable pub create_installation : World → Device → Option Device
unfolding create_installation_callback
create_installation w d =
    let d' = ensure_id w d in
    if same_text d.installation_object_id []
    then ask w
        (record {
          client = d'.client;
          add_installation = false;
          verb = codes "POST";
          path = codes "/1/installations";
          body = create_content d'.client.installation_id;
        })
        create_installation_callback d'
    else some d

abbrev pub then_create : World → Option Device → Option Device
then_create w none = none
then_create w (some d) = create_installation w d

-- The requests for an installation that is known by one of its ids.
abbrev by_object_id : Device → Request
by_object_id d = record {
  client = d.client;
  add_installation = false;
  verb = codes "GET";
  path = take 148 (codes "/1/installations/" ++ d.installation_object_id);
  body = [];
}

abbrev by_installation_id : Device → Request
by_installation_id d = record {
  client = d.client;
  add_installation = false;
  verb = codes "GET";
  path = codes "/1/installations";
  body = take 148 (
      codes "where=%7b%22installationId%22%3a+%22" ++ (d.client.installation_id ++ codes "%22%7d"));
}

abbrev pub fetch_installation : World → Device → Option Device
fetch_installation w d =
    if not (same_text d.installation_object_id [])
    then ask w (by_object_id d) get_installation_callback d
    else if not (same_text d.client.installation_id [])
    then ask w (by_installation_id d) get_installation_by_id_callback d
    else some d

-- `getInstallation`.
unfoldable pub get_installation : World → Device → Option Device
unfolding create_installation get_installation_callback get_installation_by_id_callback
get_installation w d =
    if not (same_text d.installation_object_id []) && not (same_text d.client.installation_id [])
    then some d
    else then_create w (fetch_installation w d)

-- `strncasecmp(a, b, n) == 0`, of C strings.
abbrev pub same_folded : ℕ → Bytes → Bytes → Bool
same_folded n a b = same_text (lower (take n a)) (lower (take n b))

-- `saveClientState`, at the end of the setters.
abbrev pub save_client_state : Option Device → Option Device
save_client_state none = none
save_client_state (some d) = some (record d { saves = d.saves + 1 })

-- `parseSetInstallationId`; a NULL is a text without bytes.
unfoldable pub parse_set_installation_id : World → Bytes → Device → Option Device
unfolding get_installation
parse_set_installation_id w [] d =
    if same_text d.client.installation_id []
    then some d
    else save_client_state (some (with_installation_id [] d))
parse_set_installation_id w (c ∷ id) d =
    if same_folded installation_id_max_len d.client.installation_id (c ∷ id)
    then some d
    else save_client_state (
        get_installation w (with_installation_id (lower (take installation_id_max_len (c ∷ id))) d))

-- `parseGetInstallationId`.
abbrev pub parse_get_installation_id : Device → Option Bytes
parse_get_installation_id d =
    if same_text d.client.installation_id [] then none else some d.client.installation_id

abbrev then_ask :
    World
    → (verb path body : Bytes) → (Answer → Device → Option Device)
    → Option Device
    → Option Device
then_ask w verb path body callback none = none
then_ask w verb path body callback (some d) =
    ask w
      (record { client = d.client; add_installation = true; verb = verb; path = path; body = body })
      callback d

-- `parseSendRequest`, with the callback of the application.
unfoldable pub parse_send_request :
    World → (verb path body : Bytes) → (Answer → Device → Option Device) → Device → Option Device
unfolding get_installation
parse_send_request w verb path body callback d =
    then_ask w verb path body callback (get_installation w d)
