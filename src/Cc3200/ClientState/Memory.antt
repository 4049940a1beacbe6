-- ===== src/Cc3200/ClientState/Memory.antt =====
-- A file system in memory, with one handle, which meets the laws.
use parse_embedded_sdks.Base.{
  ℕ, ◌≡◌, refl, sym, ap, ◌∙◌, Option, none, some, [], Bytes, length, take, drop, if◌then◌else◌, ℤ,
  pos, negsuc,
}
use parse_embedded_sdks.Push.Buffer.{write_at, used_size}
use parse_embedded_sdks.Search.Ids.{same_text, same_text_refl}
use parse_embedded_sdks.Cc3200.ClientState.{Mode, open_read, open_write, FileSystem, IsLawful}

pub record Disk : Type 0 where
  pub files : Bytes → Bytes
  pub handle : Option (Mode × Bytes)

abbrev put_file : Bytes → Bytes → Disk → Disk
put_file name d s = record s { files = λ k. if same_text k name then d else s.files k }

abbrev memory_write : Option (Mode × Bytes) → ℕ → Bytes → Disk → Disk × ℤ
memory_write (some (open_write, name)) offset d s =
    (put_file name (write_at (s.files name) offset d) s, pos (length d))
memory_write h offset d s = (s, negsuc 0)

abbrev memory_read : Option (Mode × Bytes) → ℕ → ℕ → Disk → Disk × ℤ × Bytes
memory_read (some (open_read, name)) offset size s =
    let d = take size (drop offset (s.files name)) in (s, pos (length d), d)
memory_read h offset size s = (s, negsuc 0, [])

abbrev pub memory_file_system : FileSystem
memory_file_system = record {
  State = Disk;
  fs_open = λ m name v s. (record s { handle = some (m, name) }, pos 0, pos 7);
  fs_read = λ h offset size s. memory_read s.handle offset size s;
  fs_write = λ h offset d s. memory_write s.handle offset d s;
  fs_close = λ h s. record s { handle = none };
  fs_del = λ name s. put_file name [] s;
}

memory_write_lem :
    (name : Bytes) (offset n : ℕ) (d : Bytes) (s s' : Disk)
    → s.handle ≡ some (open_write, name)
    → memory_write s.handle offset d s ≡ (s', pos n)
    → (n ≡ length d)
      × (s'.files name ≡ write_at (s.files name) offset d)
      × (s'.handle ≡ some (open_write, name))
memory_write_lem name offset n d s s' o e =
    let w = ap (λ h. memory_write h offset d s) (sym o) ∙ e in
    (
      sym (ap (λ p. used_size p.1) w),
      sym (ap (λ (p : Disk × ℤ). p.0.files name) w)
          ∙ ap (λ t. if t then write_at (s.files name) offset d else s.files name)
              (same_text_refl name),
      sym (ap (λ (p : Disk × ℤ). p.0.handle) w) ∙ o,
    )

memory_read_lem :
    (name : Bytes) (offset size n : ℕ) (d : Bytes) (s s' : Disk)
    → s.handle ≡ some (open_read, name)
    → memory_read s.handle offset size s ≡ (s', pos n, d)
    → (d ≡ take size (drop offset (s.files name)))
      × (n ≡ length d)
      × (s'.files name ≡ s.files name)
      × (s'.handle ≡ some (open_read, name))
memory_read_lem name offset size n d s s' o e =
    let w = ap (λ h. memory_read h offset size s) (sym o) ∙ e in
    let got = sym (ap (λ (p : Disk × ℤ × Bytes). p.2) w) in
    (
      got,
      sym (ap (λ (p : Disk × ℤ × Bytes). used_size p.1) w) ∙ ap length (sym got),
      sym (ap (λ (p : Disk × ℤ × Bytes). p.0.files name) w),
      sym (ap (λ (p : Disk × ℤ × Bytes). p.0.handle) w) ∙ o,
    )

pub memory_file_system-IsLawful : IsLawful memory_file_system
memory_file_system-IsLawful = record {
  file = λ s name. s.files name;
  IsOpen = λ s h m name. s.handle ≡ some (m, name);
  fs_open_lem = λ m name v h n s s' e. sym (ap (λ (p : Disk × ℤ × ℤ). p.0.handle) e);
  file-fs_open = λ name v h n s s' e. sym (ap (λ (p : Disk × ℤ × ℤ). p.0.files name) e);
  fs_write_lem = λ h name offset n d s s' o fits e. memory_write_lem name offset n d s s' o e;
  fs_read_lem = λ h name offset size n d s s' o e. memory_read_lem name offset size n d s s' o e;
  file-fs_close = λ h name s. refl;
}
