-- ===== src/Cc3200/ClientState/Load.antt =====
-- A state that has been saved is the state that is loaded.
use parse_embedded_sdks.Base.{
  ℕ, ◌+◌, ◌≡◌, refl, sym, ap, subst, ◌∙◌, Bytes, codes, ◌++◌, append_assoc, append-nil, [], ◌∷◌,
  length, length-append, take, take-append, drop, drop-append, ℤ, pos, negsuc, is_negative, arith,
}
use parse_embedded_sdks.Push.Buffer.{write_at, used_size}
use parse_embedded_sdks.Cc3200.ClientState.{
  open_read, FileSystem, IsLawful, ClientFields, client_state_file_name, save_client_state,
  after_fs_read, put_installation_id, put_session_token, put_last_push_time, read_fields,
  after_open_read, load_client_state,
}
use parse_embedded_sdks.Cc3200.ClientState.Save.{Holds, save_client_state-Holds}

-- The sizes of the arrays.
pub record HasSizes (c : ClientFields) : Type 0 where
  pub id_size : length c.installation_id ≡ 37
  pub token_size : length c.session_token ≡ 41
  pub time_size : length c.last_push_time ≡ 41

-- Two clients with the same saved fields.
pub record IsSaved (c c' : ClientFields) : Type 0 where
  pub same_id : c'.installation_id ≡ c.installation_id
  pub same_token : c'.session_token ≡ c.session_token
  pub same_time : c'.last_push_time ≡ c.last_push_time

drop-length : (xs : Bytes) → drop (length xs) xs ≡ []
drop-length [] = refl
drop-length (x ∷ xs) = drop-length xs

-- An array that is read whole.
write_at-whole : (old d : Bytes) → length old ≡ length d → write_at old 0 d ≡ d
write_at-whole old d e =
    let size : 0 + length d ≡ length old = omega arith in
    ap (λ k. d ++ drop k old) size ∙ ap (λ k. d ++ k) (drop-length old) ∙ append-nil d

take-drop-append :
    (xs ys zs : Bytes) (i n : ℕ)
    → i ≡ length xs
    → n ≡ length ys
    → take n (drop i (xs ++ (ys ++ zs))) ≡ ys
take-drop-append xs ys zs i n e f =
    rw (e, f) (ap (take (length ys)) (drop-append xs (ys ++ zs)) ∙ take-append ys zs)

module _ (F : FileSystem) where
  after_fs_read-pos :
      (h : ℤ) (put : Bytes → ClientFields) (r : F.State × ℤ × Bytes)
      (k : ℕ → ClientFields → F.State → F.State × ℤ × ClientFields) (s'' : F.State) (m : ℕ)
      (c : ClientFields)
      → after_fs_read F h put r k ≡ (s'', pos m, c)
      → (n : ℕ) × (d : Bytes) × (s' : F.State) × (r ≡ (s', pos n, d))
        × (k n (put d) s' ≡ (s'', pos m, c))
  after_fs_read-pos h put (s, negsuc n, d) k s'' m c e =
      absurd (ground (arith, ap (λ p. is_negative p.1) e))
  after_fs_read-pos h put (s, pos n, d) k s'' m c e = (n, d, s, refl, e)

module _ (F : FileSystem) (L : IsLawful F) where
  -- A read of the bytes `ys` of a file, with what is left to do.
  record Got (h : ℤ) (name file ys : Bytes) (put : Bytes → ClientFields)
      (k : ℕ → ClientFields → F.State → F.State × ℤ × ClientFields) (r : F.State × ℤ × ClientFields)
      : Type 1 where
    count : ℕ
    bytes : Bytes
    state : F.State
    is_open : L.IsOpen state h open_read name
    same_file : L.file state name ≡ file
    got : bytes ≡ ys
    all : count ≡ length ys
    more : k count (put bytes) state ≡ r

  got :
      (h : ℤ) (name xs ys zs : Bytes) (offset size : ℕ) (s : F.State) (put : Bytes → ClientFields)
      (k : ℕ → ClientFields → F.State → F.State × ℤ × ClientFields) (r : F.State) (m : ℕ)
      (c : ClientFields)
      → L.IsOpen s h open_read name
      → L.file s name ≡ xs ++ (ys ++ zs)
      → offset ≡ length xs
      → size ≡ length ys
      → after_fs_read F h put (F.fs_read h offset size s) k ≡ (r, pos m, c)
      → Got h name (xs ++ (ys ++ zs)) ys put k (r, pos m, c)
  got h name xs ys zs offset size s put k r m c o f e g t =
      let (n, d, s1, w, more) = after_fs_read-pos F h put (F.fs_read h offset size s) k r m c t in
      let (bytes, all, same, is_open) = L.fs_read_lem h name offset size n d s s1 o w in
      let got_bytes =
        bytes ∙ ap (λ x. take size (drop offset x)) f ∙ take-drop-append xs ys zs offset size e g in
      record {
        count = n;
        bytes = d;
        state = s1;
        is_open = is_open;
        same_file = same ∙ f;
        got = got_bytes;
        all = all ∙ ap length got_bytes;
        more = more;
      }

  third_read-IsSaved :
      (c c2 c' : ClientFields) (h : ℤ) (name rest : Bytes) (offset m : ℕ) (s s' : F.State)
      → L.IsOpen s h open_read name
      → L.file s name ≡ (c.installation_id ++ c.session_token) ++ (c.last_push_time ++ rest)
      → offset ≡ length (c.installation_id ++ c.session_token)
      → HasSizes c
      → length c2.last_push_time ≡ 41
      → c2.installation_id ≡ c.installation_id
      → c2.session_token ≡ c.session_token
      → after_fs_read F h
          (put_last_push_time c2)
          (F.fs_read h offset 41 s)
          (λ k c3 s3. (F.fs_close h s3, pos k, c3))
        ≡ (s', pos m, c')
      → (m ≡ 41) × IsSaved c c'
  third_read-IsSaved c c2 c' h name rest offset m s s' o f e sizes size id token r =
      let g =
        got h name (c.installation_id ++ c.session_token) c.last_push_time rest offset 41 s
          (put_last_push_time c2) _ s' m c' o f e (sym sizes.time_size) r in
      let same : put_last_push_time c2 g.bytes ≡ c' = ap (λ p. p.2) g.more in
      (
        sym (ap (λ p. used_size p.1) g.more) ∙ g.all ∙ sizes.time_size,
        record {
          same_id = sym (ap (λ (x : ClientFields). x.installation_id) same) ∙ id;
          same_token = sym (ap (λ (x : ClientFields). x.session_token) same) ∙ token;
          same_time =
              sym (ap (λ (x : ClientFields). x.last_push_time) same)
              ∙ write_at-whole c2.last_push_time g.bytes
                  (omega (arith, size, sizes.time_size, ap length g.got))
              ∙ g.got;
        },
      )

  second_read-IsSaved :
      (c c1 c' : ClientFields) (h : ℤ) (name rest : Bytes) (i m : ℕ) (s s' : F.State)
      → L.IsOpen s h open_read name
      → L.file s name ≡ c.installation_id ++ (c.session_token ++ (c.last_push_time ++ rest))
      → i ≡ length c.installation_id
      → HasSizes c
      → length c1.session_token ≡ 41
      → length c1.last_push_time ≡ 41
      → c1.installation_id ≡ c.installation_id
      → after_fs_read F h (put_session_token c1) (F.fs_read h i 41 s) (λ j c2 s2.
        after_fs_read F h
          (put_last_push_time c2)
          (F.fs_read h (i + j) 41 s2)
          (λ k c3 s3. (F.fs_close h s3, pos k, c3)))
        ≡ (s', pos m, c')
      → (m ≡ 41) × IsSaved c c'
  second_read-IsSaved c c1 c' h name rest i m s s' o f e sizes size time id r =
      let g =
        got h name c.installation_id c.session_token (c.last_push_time ++ rest) i 41 s
          (put_session_token c1) _ s' m c' o f e (sym sizes.token_size) r in
      third_read-IsSaved c (put_session_token c1 g.bytes) c' h name rest (i + g.count) m g.state s'
        g.is_open (g.same_file ∙ sym (append_assoc c.installation_id c.session_token _))
        (omega (arith, g.all, length-append c.installation_id c.session_token)) sizes time id
        (write_at-whole c1.session_token g.bytes
            (omega (arith, size, sizes.token_size, ap length g.got))
          ∙ g.got)
        g.more

  read_fields-IsSaved :
      (c c0 c' : ClientFields) (h : ℤ) (name : Bytes) (m : ℕ) (s s' : F.State)
      → L.IsOpen s h open_read name
      → Holds c (L.file s name)
      → HasSizes c
      → HasSizes c0
      → read_fields F c0 h s ≡ (s', pos m, c')
      → (m ≡ 41) × IsSaved c c'
  read_fields-IsSaved c c0 c' h name m s s' o (rest, f) sizes old r =
      let g =
        got h name [] c.installation_id (c.session_token ++ (c.last_push_time ++ rest)) 0 37 s
          (put_installation_id c0) _ s' m c' o f refl (sym sizes.id_size) r in
      second_read-IsSaved c (put_installation_id c0 g.bytes) c' h name rest g.count m g.state s'
        g.is_open g.same_file g.all sizes old.token_size old.time_size
        (write_at-whole c0.installation_id g.bytes
            (omega (arith, old.id_size, sizes.id_size, ap length g.got))
          ∙ g.got)
        g.more

  after_open_read-IsSaved :
      (c c0 c' : ClientFields) (name : Bytes) (v : ℤ) (m : ℕ) (before s' : F.State)
      (r : F.State × ℤ × ℤ)
      → F.fs_open open_read name v before ≡ r
      → Holds c (L.file before name)
      → HasSizes c
      → HasSizes c0
      → after_open_read F c0 r ≡ (s', pos m, c')
      → (m ≡ 41) × IsSaved c c'
  after_open_read-IsSaved c c0 c' name v m before s' (s, negsuc n, h) o f sizes old r =
      absurd (ground (arith, ap (λ p. is_negative p.1) r))
  after_open_read-IsSaved c c0 c' name v m before s' (s, pos n, h) o f sizes old r =
      read_fields-IsSaved c c0 c' h name m s s' (L.fs_open_lem open_read name v h n before s o)
        (subst (Holds c) (sym (L.file-fs_open name v h n before s o)) f) sizes old r

  -- Let a file system meet the laws, let a save of a client succeed, and let the load that follows,
  -- into a client of the same application, succeed, the arrays of both having their sizes. Then
  -- both give the size of the last array, and the installation's id, the session's token and the
  -- time of the last push are those that were saved.
  pub save_client_state-load_client_state :
      (c c0 c' : ClientFields) (v : ℤ) (n m : ℕ) (s s' s'' : F.State)
      → HasSizes c
      → HasSizes c0
      → c0.application_id ≡ c.application_id
      → save_client_state F c s ≡ (s', pos n)
      → load_client_state F v c0 s' ≡ (s'', pos m, c')
      → (n ≡ 41) × (m ≡ 41) × IsSaved c c'
  unfolding load_client_state
  save_client_state-load_client_state c c0 c' v n m s s' s'' sizes old app saved loaded =
      let (size, holds) = save_client_state-Holds F L c n s s' saved in
      let name = ap (λ a. take 49 (codes "/parse/" ++ a)) app in
      let rest =
        after_open_read-IsSaved c c0 c' (client_state_file_name c0) v m s' s'' _ refl
          (subst (λ x. Holds c (L.file s' x)) (sym name) holds) sizes old loaded in
      (size ∙ sizes.time_size, rest.0, rest.1)
