-- ===== src/P25/Tsbk/Sync.antt =====
-- `BuildSyncBcast` of src/p25/TSBK.cpp: the date and time of day, and the offset of local time. The
-- clock, `gmtime_r` and `localtime_r` are the system's: the function takes the fields that it reads
-- of the two `tm` structures.
pub mod Decode
pub mod Size
mod Tests
use site_sim.Base.{
  ℕ, ◌+◌, ◌-◌, ◌*◌, ◌/◌, ◌%◌, ◌^◌, bit_and, bit_or, List, [], ◌∷◌, Bool, true, ltb, ◌==◌,
  if◌then◌else◌, u8, u16, shl64, ◌<<◌, ◌>>◌,
}
use site_sim.Base.Int.{ℤ, pos, negsuc}
use site_sim.P25.Tsbk.Block.{build_tsbk}
use site_sim.P25.Tsbk.Messages.{tsbk_sync_bcast}

-- `utcTm`, of a year from 1900 on.
pub record Tm : Type 0 where
  pub year : ℕ
  pub mon : ℕ
  pub mday : ℕ
  pub hour : ℕ
  pub min : ℕ
  pub sec : ℕ

abbrev pub minus : ℕ → ℤ
minus n = if n == 0 then pos 0 else negsuc (n - 1)

-- `tm_gmtoff / 1800`, rounded towards zero, where the platform has the field.
pub half_hours : Bool → ℤ → ℤ
half_hours has_gmtoff (pos n) = if has_gmtoff then pos (n / 1800) else pos 0
half_hours has_gmtoff (negsuc n) = if has_gmtoff then minus ((n + 1) / 1800) else pos 0

pub clamp_offset : ℤ → ℤ
clamp_offset (pos n) = if ltb 31 n then pos 31 else pos n
clamp_offset (negsuc n) = if ltb 31 (n + 1) then negsuc 30 else negsuc n

-- `ltoff`
pub ltoff_field : ℤ → ℕ
ltoff_field (pos n) = u8 (bit_and n 0x1F)
ltoff_field (negsuc n) = u8 (bit_or 0x20 (bit_and (n + 1) 0x1F))

-- The array `b`. The constants are `us`, `ist`, `mm`, `mc` and `vl`.
pub sync_bytes : Tm → ℤ → List ℕ
sync_bytes utc offset =
    let us : ℕ = 0 in
    let ist : ℕ = 1 in
    let mm : ℕ = 0 in
    let mc : ℕ = 0 in
    let vl : ℕ = 1 in
    let year = u8 ((utc.year + 1900) % 100) in
    let month = u8 (utc.mon + 1) in
    let day = u8 utc.mday in
    let hour = u8 utc.hour in
    let min = u8 utc.min in
    let slots = u16 (utc.sec * 135) in
    0x00
    ∷ u8 (bit_or (bit_or (bit_or (us << 3) (ist << 2)) (mm << 1)) (bit_and (mc >> 1) 0x01))
    ∷ u8 (bit_or (bit_or (bit_and mc 0x01 << 7) (vl << 6)) (ltoff_field offset))
    ∷ u8 (bit_or (year << 1) (bit_and (month >> 3) 0x01))
    ∷ u8 (bit_or (bit_and month 0x07 << 5) (bit_and day 0x1F))
    ∷ u8 (bit_or (bit_and hour 0x1F << 3) (bit_and (min >> 3) 0x07))
    ∷ u8 (bit_or (bit_and min 0x07 << 5) (bit_and (slots >> 8) 0x1F))
    ∷ u8 (bit_and slots 0xFF)
    ∷ []

-- `args = (args << 8) | b[i]`, over the bytes that are left.
pub pack_bytes : ℕ → List ℕ → ℕ
pack_bytes args [] = args
pack_bytes args (b ∷ bs) = pack_bytes (bit_or (shl64 args 8) b) bs

-- `BuildSyncBcast`
pub build_sync_bcast : Tm → Bool → ℤ → List ℕ
build_sync_bcast utc has_gmtoff gmtoff =
    build_tsbk true tsbk_sync_bcast 0x00
      (pack_bytes 0 (sync_bytes utc (clamp_offset (half_hours has_gmtoff gmtoff))))
