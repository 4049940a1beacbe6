-- ===== src/Cc3200/ClientState/Save.antt =====
-- What `saveClientState` leaves in the file.
use parse_embedded_sdks.Base.{
  ℕ, ◌+◌, ◌≤◌, ◌≡◌, refl, sym, ap, ap₂, ◌∙◌, Bytes, ◌++◌, append_assoc, length, length-append,
  take-append, drop, suc, [], ◌∷◌, ℤ, pos, negsuc, is_negative, arith,
}
use parse_embedded_sdks.Push.Buffer.{write_at, used_size}
use parse_embedded_sdks.Cc3200.ClientState.{
  open_write, open_create, FileSystem, IsLawful, ClientFields, client_state_file_name,
  after_fs_write, write_fields, after_open_write, after_create, save_client_state,
}

module _ (F : FileSystem) where
  after_fs_write-pos :
      (h : ℤ) (r : F.State × ℤ) (k : ℕ → F.State → F.State × ℤ) (s'' : F.State) (m : ℕ)
      → after_fs_write F h r k ≡ (s'', pos m)
      → (n : ℕ) × (s' : F.State) × (r ≡ (s', pos n)) × (k n s' ≡ (s'', pos m))
  after_fs_write-pos h (s, negsuc n) k s'' m e =
      absurd (ground (arith, ap (λ p. is_negative p.1) e))
  after_fs_write-pos h (s, pos n) k s'' m e = (n, s, refl, e)

drop-append_more : (xs ys : Bytes) (n : ℕ) → drop (length xs + n) (xs ++ ys) ≡ drop n ys
drop-append_more [] ys n = ap (λ k. drop k ys) (omega arith)
drop-append_more (x ∷ xs) ys n =
    let e : length (x ∷ xs) + n ≡ suc (length xs + n) = omega arith in
    ap (λ k. drop k (x ∷ (xs ++ ys))) e ∙ drop-append_more xs ys n

-- A write behind the first bytes.
write_at-append :
    (xs ys d : Bytes) (i : ℕ)
    → i ≡ length xs
    → write_at (xs ++ ys) i d ≡ xs ++ (d ++ drop (length d) ys)
write_at-append xs ys d i e =
    rw e (ap₂ (λ a b. a ++ (d ++ b)) (take-append xs ys) (drop-append_more xs ys (length d)))

-- What a file holds behind a save.
abbrev pub Holds : ClientFields → Bytes → Type 0
Holds c file =
    (rest : Bytes) × (file ≡ c.installation_id ++ (c.session_token ++ (c.last_push_time ++ rest)))

module _ (F : FileSystem) (L : IsLawful F) where
  -- A write behind the bytes `xs` of the file, with what is left to do.
  record Written (h : ℤ) (name xs ys d : Bytes) (k : ℕ → F.State → F.State × ℤ) (r : F.State × ℤ)
      : Type 1 where
    count : ℕ
    state : F.State
    is_open : L.IsOpen state h open_write name
    file : L.file state name ≡ xs ++ (d ++ drop (length d) ys)
    all : count ≡ length d
    more : k count state ≡ r

  written :
      (h : ℤ) (name xs ys d : Bytes) (offset : ℕ) (s : F.State) (k : ℕ → F.State → F.State × ℤ)
      (s' : F.State) (m : ℕ)
      → L.IsOpen s h open_write name
      → L.file s name ≡ xs ++ ys
      → offset ≡ length xs
      → after_fs_write F h (F.fs_write h offset d s) k ≡ (s', pos m)
      → Written h name xs ys d k (s', pos m)
  written h name xs ys d offset s k s' m o f e r =
      let (n, s1, w, more) = after_fs_write-pos F h (F.fs_write h offset d s) k s' m r in
      let fits : offset ≤ length (L.file s name) =
        omega (arith, ap length f, length-append xs ys) in
      let (all, file, is_open) = L.fs_write_lem h name offset n d s s1 o fits w in
      record {
        count = n;
        state = s1;
        is_open = is_open;
        file = file ∙ ap (λ x. write_at x offset d) f ∙ write_at-append xs ys d offset e;
        all = all;
        more = more;
      }

  third-Holds :
      (c : ClientFields) (h : ℤ) (name ys : Bytes) (offset m : ℕ) (s s' : F.State)
      → L.IsOpen s h open_write name
      → L.file s name ≡ (c.installation_id ++ c.session_token) ++ ys
      → offset ≡ length (c.installation_id ++ c.session_token)
      → after_fs_write F h
          (F.fs_write h offset c.last_push_time s)
          (λ k s3. (F.fs_close h s3, pos k))
        ≡ (s', pos m)
      → (m ≡ length c.last_push_time) × Holds c (L.file s' name)
  third-Holds c h name ys offset m s s' o f e r =
      let w =
        written h name (c.installation_id ++ c.session_token) ys c.last_push_time offset s
          (λ k s3. (F.fs_close h s3, pos k)) s' m o f e r in
      (
        sym (ap (λ p. used_size p.1) w.more) ∙ w.all,
        (
          drop (length c.last_push_time) ys,
          sym (ap (λ p. L.file p.0 name) w.more)
              ∙ L.file-fs_close h name w.state
              ∙ w.file
              ∙ append_assoc c.installation_id c.session_token
                  (c.last_push_time ++ drop (length c.last_push_time) ys),
        ),
      )

  second-Holds :
      (c : ClientFields) (h : ℤ) (name ys : Bytes) (i m : ℕ) (s s' : F.State)
      → L.IsOpen s h open_write name
      → L.file s name ≡ c.installation_id ++ ys
      → i ≡ length c.installation_id
      → after_fs_write F h (F.fs_write h i c.session_token s) (λ j s2.
        after_fs_write F h
          (F.fs_write h (i + j) c.last_push_time s2)
          (λ k s3. (F.fs_close h s3, pos k)))
        ≡ (s', pos m)
      → (m ≡ length c.last_push_time) × Holds c (L.file s' name)
  second-Holds c h name ys i m s s' o f e r =
      let w = written h name c.installation_id ys c.session_token i s _ s' m o f e r in
      third-Holds c h name (drop (length c.session_token) ys) (i + w.count) m w.state s' w.is_open
        (w.file ∙ sym (append_assoc c.installation_id c.session_token _))
        (omega (arith, w.all, length-append c.installation_id c.session_token)) w.more

  first-Holds :
      (c : ClientFields) (h : ℤ) (name : Bytes) (m : ℕ) (s s' : F.State)
      → L.IsOpen s h open_write name
      → write_fields F c h s ≡ (s', pos m)
      → (m ≡ length c.last_push_time) × Holds c (L.file s' name)
  first-Holds c h name m s s' o r =
      let w = written h name [] (L.file s name) c.installation_id 0 s _ s' m o refl refl r in
      second-Holds c h name (drop (length c.installation_id) (L.file s name)) w.count m w.state s'
        w.is_open w.file w.all w.more

  after_open_write-Holds :
      (c : ClientFields) (name : Bytes) (m : ℕ) (s' : F.State) (before : F.State)
      (r : F.State × ℤ × ℤ)
      → F.fs_open open_write name (negsuc 0) before ≡ r
      → after_open_write F c r ≡ (s', pos m)
      → (m ≡ length c.last_push_time) × Holds c (L.file s' name)
  after_open_write-Holds c name m s' before (s, negsuc n, h) o r =
      absurd (ground (arith, ap (λ p. is_negative p.1) r))
  after_open_write-Holds c name m s' before (s, pos n, h) o r =
      first-Holds c h name m s s' (L.fs_open_lem open_write name (negsuc 0) h n before s o) r

  after_create-Holds :
      (c : ClientFields) (name : Bytes) (m : ℕ) (s' : F.State) (r : F.State × ℤ × ℤ)
      → after_create F c name r ≡ (s', pos m)
      → (m ≡ length c.last_push_time) × Holds c (L.file s' name)
  after_create-Holds c name m s' (s, negsuc n, h) r =
      absurd (ground (arith, ap (λ p. is_negative p.1) r))
  after_create-Holds c name m s' (s, pos n, h) r =
      after_open_write-Holds c name m s' (F.fs_close h s)
        (F.fs_open open_write name (negsuc 0) (F.fs_close h s)) refl r

  -- A save that succeeds gives the size of the last array, and the file holds the three.
  pub save_client_state-Holds :
      (c : ClientFields) (m : ℕ) (s s' : F.State)
      → save_client_state F c s ≡ (s', pos m)
      → (m ≡ length c.last_push_time) × Holds c (L.file s' (client_state_file_name c))
  unfolding save_client_state
  save_client_state-Holds c m s s' r =
      after_create-Holds c (client_state_file_name c) m s'
        (F.fs_open open_create (client_state_file_name c) (negsuc 0)
          (F.fs_del (client_state_file_name c) s))
        r
