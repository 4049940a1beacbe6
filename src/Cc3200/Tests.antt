-- ===== src/Cc3200/Tests.antt =====
-- The port to the CC3200 board on concrete inputs.
use parse_embedded_sdks.Base.{
  ℕ, ◌+◌, ◌<◌, ◌≡◌, ◌⊎◌, refl, true, Option, some, List, [], ◌∷◌, ◌++◌, codes, length, take, drop,
  lower, replicate, pos, negsuc, is_negative, ℤ, Bytes, arith,
}
use parse_embedded_sdks.CString.{IsText}
use parse_embedded_sdks.Cc3200.Device.{
  fetch_device_os_version, create_new_installation_id, create_new_installation_id_lem,
}
use parse_embedded_sdks.Cc3200.Socket.{
  got, Poll, ready, fill, store, socket_read, Connecting, socket_ssl_connect,
}
use parse_embedded_sdks.Cc3200.Socket.Connect.{OpenOrClosed, socket_ssl_connect-OpenOrClosed}
use parse_embedded_sdks.Cc3200.Socket.Laws.{socket_read-IsRead}
use parse_embedded_sdks.Cc3200.ClientState.{ClientFields, save_client_state, load_client_state}
use parse_embedded_sdks.Cc3200.ClientState.Load.{HasSizes}
use parse_embedded_sdks.Push.Buffer.{Buffer}
use parse_embedded_sdks.Rtos.Client.{
  string_in, parse_initialize, save_client_state-parse_initialize,
}
use parse_embedded_sdks.Rtos.Push.{PushClient}
use parse_embedded_sdks.Cc3200.ClientState.Memory.{
  Disk, memory_file_system, memory_file_system-IsLawful,
}

abbrev fresh : ClientFields
fresh = record {
  application_id = codes "app";
  installation_id = replicate 37 0;
  session_token = replicate 41 0;
  last_push_time = replicate 41 0;
}

abbrev saved : ClientFields
saved = record {
  application_id = codes "app";
  installation_id = codes "0123" ++ replicate 33 0;
  session_token = codes "r:token" ++ replicate 34 0;
  last_push_time = codes "2015" ++ replicate 37 0;
}

-- A disk whose file holds something else.
abbrev disk : Disk
disk = record { files = λ name. codes "old"; handle = Option.none }

saved-HasSizes : HasSizes saved
saved-HasSizes = record { id_size = refl; token_size = refl; time_size = refl }

abbrev after_save : Disk × ℤ
unfolding save_client_state
after_save = save_client_state memory_file_system saved disk

abbrev after_load : Disk × ℤ × ClientFields
unfolding load_client_state
after_load = load_client_state memory_file_system (negsuc 5) fresh after_save.0

after_save_lem : save_client_state memory_file_system saved disk ≡ (after_save.0, pos 41)
unfolding save_client_state
after_save_lem = refl

after_load_lem :
    load_client_state memory_file_system (negsuc 5) fresh after_save.0
    ≡ (after_load.0, pos 41, after_load.2)
unfolding load_client_state save_client_state
after_load_lem = refl

abbrev buffer : Buffer
buffer = record { bytes = replicate 1024 0; used = pos 0 }

save_client_state-parse_initialize_example :
    (p : PushClient) × (parse_initialize memory_file_system true
        (pos 0)
        1
        2
        3
        4
        (negsuc 5)
        buffer
        (codes "app")
        (codes "key")
        after_save.0
      ≡ (after_load.0, some p))
    × (p.device.client.installation_id ≡ string_in saved.installation_id)
    × (p.device.client.session_token ≡ string_in saved.session_token)
    × (p.last_push_time ≡ string_in saved.last_push_time)
    × (p.socket_handle ≡ negsuc 0)
save_client_state-parse_initialize_example =
    save_client_state-parse_initialize memory_file_system memory_file_system-IsLawful saved
      after_load.2 (pos 0) (negsuc 5) 1 2 3 4 41 41 buffer (codes "key") disk after_save.0
      after_load.0 saved-HasSizes (omega arith) after_save_lem after_load_lem

-- Two chunks, the second of which does not fit.
abbrev polls : List Poll
polls = ready 0 (got (codes "ab")) ∷ ready 0 (got (codes "cde")) ∷ []

socket_read_test :
    socket_read (pos 3) polls (replicate 6 9) 1 4 ≡ (pos 3, 9 ∷ codes "abc" ++ 0 ∷ 9 ∷ [])
unfolding socket_read fill store
socket_read_test = refl

socket_read-IsRead_example :
    let (status, memory) = socket_read (pos 3) polls (replicate 6 9) 1 4 in
    (acc : Bytes) × (length acc < 4)
    × ((status ≡ pos (length acc)) ⊎ (is_negative status ≡ true))
    × (take 1 memory ≡ take 1 (replicate 6 9))
    × (take (length acc + 1) (drop 1 memory) ≡ acc ++ 0 ∷ [])
    × (drop (1 + (length acc + 1)) memory ≡ drop (1 + (length acc + 1)) (replicate 6 9))
socket_read-IsRead_example =
    socket_read-IsRead 3 polls (replicate 6 9) 1 4 (omega arith) (omega arith) (omega arith)

abbrev counting : ℕ → ℕ
counting n = n

abbrev id : Bytes
unfolding create_new_installation_id
id = create_new_installation_id counting

id_test : id ≡ codes "01234567-89ab-cdef-0123-456789abcdef"
unfolding create_new_installation_id
id_test = refl

create_new_installation_id_lem_example :
    (length (create_new_installation_id counting) ≡ 36)
    × IsText (create_new_installation_id counting)
    × (lower (create_new_installation_id counting) ≡ create_new_installation_id counting)
create_new_installation_id_lem_example = create_new_installation_id_lem counting

version_test : fetch_device_os_version (pos 0) 2 10 0 3 [] ≡ codes "2.10.0.3"
unfolding fetch_device_os_version
version_test = refl

-- The connection is refused.
abbrev refusing : Connecting
refusing = record {
  lookup = pos 0;
  socket = pos 2;
  method = pos 0;
  certificate = pos 0;
  connected = negsuc 110;
  waited = pos 1;
  nonblocking = pos 0;
  keep_alive = pos 0;
}

socket_ssl_connect-OpenOrClosed_example : OpenOrClosed refusing (socket_ssl_connect refusing)
socket_ssl_connect-OpenOrClosed_example = socket_ssl_connect-OpenOrClosed refusing
