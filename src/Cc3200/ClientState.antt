-- ===== src/Cc3200/ClientState.antt =====
-- The saved state of a client: cc3200/src/client_state.c. The board's file system is a parameter:
-- its calls are those of simplelink, over a state that is not known. A `char` array is the list of
-- its bytes, all of them; the application's id is a C string.
pub mod Save
pub mod Load
pub mod Memory
use parse_embedded_sdks.Base.{
  ℕ, ◌+◌, ◌-◌, ◌≡◌, ◌≤◌, [], ◌++◌, Bytes, codes, length, take, drop, ℤ, pos, negsuc,
}
use parse_embedded_sdks.Push.Buffer.{write_at}
use parse_embedded_sdks.Rtos.Installation.{installation_id_max_len, session_token_max_len}

-- FS_MODE_OPEN_READ, FS_MODE_OPEN_WRITE, FS_MODE_OPEN_CREATE.
pub data Mode : Type 0 where
  open_read open_write open_create : Mode

-- sl_FsOpen, sl_FsRead, sl_FsWrite, sl_FsClose and sl_FsDel. A call gives a status, which is
-- negative where it fails. An open is given what the handle's variable holds and gives what it
-- holds behind it; a read gives the bytes that it has put into the array.
pub record FileSystem : Type 1 where
  pub State : Type 0
  pub fs_open : Mode → Bytes → ℤ → State → State × ℤ × ℤ
  pub fs_read : ℤ → ℕ → ℕ → State → State × ℤ × Bytes
  pub fs_write : ℤ → ℕ → Bytes → State → State × ℤ
  pub fs_close : ℤ → State → State
  pub fs_del : Bytes → State → State

-- What the code relies on: a file has contents, a handle that has been opened reads or writes them
-- at an offset, and the status of a read or a write that succeeds is the number of its bytes.
pub record IsLawful (F : FileSystem) : Type 1 where
  pub file : F.State → Bytes → Bytes
  pub IsOpen : F.State → ℤ → Mode → Bytes → Type 0
  pub fs_open_lem :
      (m : Mode) (name : Bytes) (v h : ℤ) (n : ℕ) (s s' : F.State)
      → F.fs_open m name v s ≡ (s', pos n, h)
      → IsOpen s' h m name
  pub file-fs_open :
      (name : Bytes) (v h : ℤ) (n : ℕ) (s s' : F.State)
      → F.fs_open open_read name v s ≡ (s', pos n, h)
      → file s' name ≡ file s name
  pub fs_write_lem :
      (h : ℤ) (name : Bytes) (offset n : ℕ) (d : Bytes) (s s' : F.State)
      → IsOpen s h open_write name
      → offset ≤ length (file s name)
      → F.fs_write h offset d s ≡ (s', pos n)
      → (n ≡ length d)
        × (file s' name ≡ write_at (file s name) offset d)
        × IsOpen s' h open_write name
  pub fs_read_lem :
      (h : ℤ) (name : Bytes) (offset size n : ℕ) (d : Bytes) (s s' : F.State)
      → IsOpen s h open_read name
      → F.fs_read h offset size s ≡ (s', pos n, d)
      → (d ≡ take size (drop offset (file s name)))
        × (n ≡ length d)
        × (file s' name ≡ file s name)
        × IsOpen s' h open_read name
  pub file-fs_close :
      (h : ℤ) (name : Bytes) (s : F.State) → file (F.fs_close h s) name ≡ file s name

-- The fields of the client that are saved, and the id that names the file.
pub record ClientFields : Type 0 where
  pub application_id : Bytes
  pub installation_id : Bytes
  pub session_token : Bytes
  pub last_push_time : Bytes

-- PUSH_TIME_MAX_LEN.
abbrev pub push_time_max_len : ℕ
push_time_max_len = 40

-- CLIENT_STATE_FILENAME_LEN.
abbrev pub client_state_filename_len : ℕ
client_state_filename_len = 40 + 10

-- `snprintf(clientStateFileName, CLIENT_STATE_FILENAME_LEN, "/parse/%s", applicationId)`.
abbrev pub client_state_file_name : ClientFields → Bytes
client_state_file_name c =
    take (client_state_filename_len - 1) (codes "/parse/" ++ c.application_id)

-- The arrays that are read into.
abbrev pub put_installation_id : ClientFields → Bytes → ClientFields
put_installation_id c d = record c { installation_id = write_at c.installation_id 0 d }

abbrev pub put_session_token : ClientFields → Bytes → ClientFields
put_session_token c d = record c { session_token = write_at c.session_token 0 d }

abbrev pub put_last_push_time : ClientFields → Bytes → ClientFields
put_last_push_time c d = record c { last_push_time = write_at c.last_push_time 0 d }

module _ (F : FileSystem) where
  -- Behind a write: a failure closes the file and is the result.
  abbrev pub after_fs_write : ℤ → F.State × ℤ → (ℕ → F.State → F.State × ℤ) → F.State × ℤ
  after_fs_write h (s, negsuc n) k = (F.fs_close h s, negsuc n)
  after_fs_write h (s, pos n) k = k n s

  -- The three writes.
  abbrev pub write_fields : ClientFields → ℤ → F.State → F.State × ℤ
  write_fields c h s = after_fs_write h (F.fs_write h 0 c.installation_id s) (λ i s1.
      after_fs_write h (F.fs_write h i c.session_token s1) (λ j s2.
        after_fs_write h (F.fs_write h (i + j) c.last_push_time s2)
          (λ k s3. (F.fs_close h s3, pos k))))

  abbrev pub after_open_write : ClientFields → F.State × ℤ × ℤ → F.State × ℤ
  after_open_write c (s, negsuc n, h) = (F.fs_close h s, negsuc n)
  after_open_write c (s, pos n, h) = write_fields c h s

  abbrev pub after_create : ClientFields → Bytes → F.State × ℤ × ℤ → F.State × ℤ
  after_create c name (s, negsuc n, h) = (s, negsuc n)
  after_create c name (s, pos n, h) =
      after_open_write c (F.fs_open open_write name (negsuc 0) (F.fs_close h s))

  -- `saveClientState`.
  unfoldable pub save_client_state : ClientFields → F.State → F.State × ℤ
  save_client_state c s =
      let name = client_state_file_name c in
      after_create c name (F.fs_open open_create name (negsuc 0) (F.fs_del name s))

  -- Behind a read, which has put its bytes into an array of the client.
  abbrev pub after_fs_read :
      ℤ
      → (Bytes → ClientFields)
      → F.State × ℤ × Bytes
      → (ℕ → ClientFields → F.State → F.State × ℤ × ClientFields)
      → F.State × ℤ × ClientFields
  after_fs_read h put (s, negsuc n, d) k = (F.fs_close h s, negsuc n, put d)
  after_fs_read h put (s, pos n, d) k = k n (put d) s

  -- The three reads.
  abbrev pub read_fields : ClientFields → ℤ → F.State → F.State × ℤ × ClientFields
  read_fields c h s =
      after_fs_read h (put_installation_id c) (F.fs_read h 0 (installation_id_max_len + 1) s)
        (λ i c1 s1.
          after_fs_read h (put_session_token c1) (F.fs_read h i (session_token_max_len + 1) s1)
            (λ j c2 s2.
              after_fs_read h (put_last_push_time c2)
                (F.fs_read h (i + j) (push_time_max_len + 1) s2)
                (λ k c3 s3. (F.fs_close h s3, pos k, c3))))

  abbrev pub after_open_read : ClientFields → F.State × ℤ × ℤ → F.State × ℤ × ClientFields
  after_open_read c (s, negsuc n, h) = (F.fs_close h s, negsuc n, c)
  after_open_read c (s, pos n, h) = read_fields c h s

  -- `loadClientState`, with what its handle's variable, which has no initial value, holds.
  unfoldable pub load_client_state : ℤ → ClientFields → F.State → F.State × ℤ × ClientFields
  load_client_state v c s = after_open_read c (F.fs_open open_read (client_state_file_name c) v s)
