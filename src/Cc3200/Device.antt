-- ===== src/Cc3200/Device.antt =====
-- What the CC3200 board tells of itself: fetchDeviceOSVersion and createNewInstallationId of
-- cc3200/src/utils.c. What the device and the generator of random numbers answer is an argument.
use parse_embedded_sdks.Base.{
  ℕ, zero, suc, ◌+◌, ◌-◌, ◌≡◌, ◌≢◌, refl, ap₂, [], ◌∷◌, ◌++◌, Bytes, length, take, lower,
  lower_unit, All, All-append, leb, if◌then◌else◌, ◌%◌, ℤ, pos, negsuc, arith,
}
use parse_embedded_sdks.CString.{IsText}
use parse_embedded_sdks.Rtos.Request.{decimal}

-- OS_VERSION_MAX_LEN, the size that `parseInitialize` gives.
abbrev pub os_version_max_len : ℕ
os_version_max_len = 19

-- `fetchDeviceOSVersion`, by the status of sl_DevGet and the four numbers of the version.
unfoldable pub fetch_device_os_version : ℤ → (a b c d : ℕ) → Bytes → Bytes
unfolding decimal
fetch_device_os_version (negsuc n) a b c d old = old
fetch_device_os_version (pos n) a b c d old =
    take (os_version_max_len - 1)
      (decimal a ++ (b'.' ∷ (decimal b ++ (b'.' ∷ (decimal c ++ (b'.' ∷ decimal d))))))

-- `%x` of a number below 16.
abbrev hex_digit : ℕ → ℕ
hex_digit n = if leb n 9 then b'0' + n else b'a' + (n - 10)

-- `%x` of as many answers of `rand` as the count tells, from a place on.
abbrev hex_group : (ℕ → ℕ) → (place count : ℕ) → Bytes
hex_group rand place zero = []
hex_group rand place (suc count) = hex_digit (rand place % 16) ∷ hex_group rand (suc place) count

-- `createNewInstallationId`, by the answers of `rand`: what is written into the array of 37 bytes.
unfoldable pub create_new_installation_id : (ℕ → ℕ) → Bytes
create_new_installation_id rand = take 36 (
    hex_group rand 0 8
    ++ (b'-'
        ∷ (hex_group rand 8 4
            ++ (b'-'
                ∷ (hex_group rand 12 4
                    ++ (b'-' ∷ (hex_group rand 16 4 ++ (b'-' ∷ hex_group rand 20 12))))))))

-- A byte of an id: neither NUL nor a letter in upper case.
abbrev IsLowered : ℕ → Type 0
IsLowered c = (c ≢ 0) × (lower_unit c ≡ c)

hex_digit-IsLowered : (n : ℕ) → IsLowered (hex_digit (n % 16))
hex_digit-IsLowered n = (ground arith, ground arith)

hex_group-IsLowered : (rand : ℕ → ℕ) (place count : ℕ) → All IsLowered (hex_group rand place count)
hex_group-IsLowered rand place zero = tt
hex_group-IsLowered rand place (suc count) =
    (hex_digit-IsLowered (rand place), hex_group-IsLowered rand (suc place) count)

dash : (xs ys : Bytes) → All IsLowered xs → All IsLowered ys → All IsLowered (xs ++ b'-' ∷ ys)
dash xs ys h k = All-append IsLowered xs (b'-' ∷ ys) h ((ground arith, refl), k)

IsText-lowered : (s : Bytes) → All IsLowered s → IsText s × (lower s ≡ s)
IsText-lowered [] h = (tt, refl)
IsText-lowered (c ∷ s) h =
    let (text, lowered) = IsText-lowered s h.1 in ((h.0.0, text), ap₂ ◌∷◌ h.0.1 lowered)

-- A new id has 36 bytes, none of them NUL, and no letter of it is in upper case, whatever `rand`
-- answers.
pub create_new_installation_id_lem :
    (rand : ℕ → ℕ)
    → let id = create_new_installation_id rand in (length id ≡ 36) × IsText id × (lower id ≡ id)
unfolding create_new_installation_id
create_new_installation_id_lem rand =
    let group = hex_group-IsLowered rand in
    let last = hex_group rand 20 12 in
    let fourth = hex_group rand 16 4 ++ b'-' ∷ last in
    let third = hex_group rand 12 4 ++ b'-' ∷ fourth in
    let second = hex_group rand 8 4 ++ b'-' ∷ third in
    let all = dash (hex_group rand 0 8) second (group 0 8) (
      dash (hex_group rand 8 4) third (group 8 4) (
        dash (hex_group rand 12 4) fourth (group 12 4)
          (dash (hex_group rand 16 4) last (group 16 4) (group 20 12)))) in
    let (text, lowered) = IsText-lowered (create_new_installation_id rand) all in
    (refl, text, lowered)
