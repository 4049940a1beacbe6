-- ===== src/Rtos/Client.antt =====
-- A new client of the RTOS SDK: parseInitialize of rtos/parse_impl.c, over the state file and the
-- version of the CC3200 port.
use parse_embedded_sdks.Base.{
  ℕ, ◌≡◌, refl, ap, Bool, true, false, Option, none, some, [], ◌∷◌, Bytes, codes, take, take_all,
  ◌≤◌, replicate, length, ◌==◌, if◌then◌else◌, ℤ, pos, negsuc,
}
use parse_embedded_sdks.Push.Buffer.{Buffer}
use parse_embedded_sdks.Cc3200.ClientState.{
  FileSystem, IsLawful, ClientFields, save_client_state, load_client_state,
}
use parse_embedded_sdks.Cc3200.ClientState.Load.{HasSizes, save_client_state-load_client_state}
use parse_embedded_sdks.Cc3200.Device.{fetch_device_os_version}
use parse_embedded_sdks.Rtos.Push.{PushClient}

-- The C string in an array: the bytes in front of the first NUL.
abbrev pub string_in : Bytes → Bytes
string_in [] = []
string_in (c ∷ s) = let rest = string_in s in if c == 0 then [] else c ∷ rest

-- The fields that are loaded, before they are.
abbrev pub blank_fields : (application_id : Bytes) → ClientFields
blank_fields application_id = record {
  application_id = take 40 application_id;
  installation_id = replicate 37 0;
  session_token = replicate 41 0;
  last_push_time = replicate 41 0;
}

-- The client with the fields that have been loaded.
abbrev pub new_client : (key version : Bytes) → Buffer → ClientFields → PushClient
new_client key version buffer fields = record {
  device = record {
    client = record {
      os_version = version;
      device_client_version = take 26 (codes "c-ti-cc3200-rtos-1.0.0");
      application_id = fields.application_id;
      client_key = take 40 key;
      installation_id = string_in fields.installation_id;
      session_token = string_in fields.session_token;
    };
    installation_object_id = [];
    requests = [];
    saves = 0;
  };
  last_push_time = string_in fields.last_push_time;
  socket_handle = negsuc 0;
  failed_pings = 0;
  has_callback = false;
  buffer = buffer;
}

module _ (F : FileSystem) where
  -- `parseInitialize`, by whether there is memory for the client, with the status and the numbers
  -- of the device's version, what the handle's variable of loadClientState holds, and the static
  -- buffer.
  unfoldable pub parse_initialize :
      (allocated : Bool)
      → ℤ
      → (a b c d : ℕ) → ℤ
      → Buffer
      → (application_id key : Bytes) → F.State
      → F.State × Option PushClient
  parse_initialize false status a b c d v buffer application_id key s = (s, none)
  parse_initialize true status a b c d v buffer application_id key s =
      let (s', loaded, fields) = load_client_state F v (blank_fields application_id) s in
      (s', some (new_client key (fetch_device_os_version status a b c d []) buffer fields))

-- Let a file system meet the laws, let a save of a client succeed, and let the load in
-- parseInitialize for the same application id, of at most 40 bytes, succeed, the saved arrays
-- having their sizes. Then the new client has the installation's id, the session's token and the
-- time of the last push that were saved, and its socket is closed.
pub save_client_state-parse_initialize :
    (F : FileSystem) (L : IsLawful F) (c fields : ClientFields) (status v : ℤ) (i j k l n m : ℕ)
    (buffer : Buffer) (key : Bytes) (s s' s'' : F.State)
    → HasSizes c
    → length c.application_id ≤ 40
    → save_client_state F c s ≡ (s', pos n)
    → load_client_state F v (blank_fields c.application_id) s' ≡ (s'', pos m, fields)
    → (p : PushClient) × (parse_initialize F true status i j k l v buffer c.application_id key s'
        ≡ (s'', some p))
      × (p.device.client.installation_id ≡ string_in c.installation_id)
      × (p.device.client.session_token ≡ string_in c.session_token)
      × (p.last_push_time ≡ string_in c.last_push_time)
      × (p.socket_handle ≡ negsuc 0)
unfolding parse_initialize
save_client_state-parse_initialize F L c fields status v i j k l n m buffer key s s' s'' sizes app
      saved loaded =
    let old : HasSizes (blank_fields c.application_id) = record {
      id_size = refl;
      token_size = refl;
      time_size = refl;
    } in
    let (size, loaded_size, same) =
      save_client_state-load_client_state F L c (blank_fields c.application_id) fields v n m s s'
        s'' sizes old (take_all 40 c.application_id app) saved loaded in
    let version = fetch_device_os_version status i j k l [] in
    (
      new_client key version buffer fields,
      ap (λ r. (r.0, some (new_client key version buffer r.2))) loaded,
      ap string_in same.same_id,
      ap string_in same.same_token,
      ap string_in same.same_time,
      refl,
    )
