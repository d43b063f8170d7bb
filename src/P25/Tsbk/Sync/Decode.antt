-- ===== src/P25/Tsbk/Sync/Decode.antt =====
-- The synchronization broadcast read back.
use site_sim.Base.{
  ℕ, ◌+◌, ◌*◌, ◌/◌, ◌%◌, ◌^◌, ◌<◌, List, [], ◌∷◌, Option, none, some, ◌==◌, if◌then◌else◌,
}
use site_sim.Base.Int.{ℤ, pos, pos_part, neg_part}
use site_sim.P25.Tsbk.Block.Parse.{parse_tsbk}
use site_sim.P25.Tsbk.Messages.{tsbk_sync_bcast}
use site_sim.P25.Tsbk.Messages.Decode.{field}
use site_sim.P25.Tsbk.Sync.{Tm, minus}

-- What a subscriber reads: the year of the century, the month from 1 on, the second in
-- slots of 1/135 s, and the offset of local time in half hours.
pub record SyncTime : Type 0 where
  pub year : ℕ
  pub month : ℕ
  pub day : ℕ
  pub hour : ℕ
  pub min : ℕ
  pub slots : ℕ
  pub offset : ℤ

-- Bit 5 is the sign, 1 for an offset west of Greenwich.
abbrev pub signed_ltoff : ℕ → ℤ
signed_ltoff x = if x / 2 ^ 5 == 1 then minus (x % 2 ^ 5) else pos (x % 2 ^ 5)

abbrev pub time_of : ℕ → SyncTime
time_of x = record {
  year = field x 33 7;
  month = field x 29 4;
  day = field x 24 5;
  hour = field x 19 5;
  min = field x 13 6;
  slots = field x 0 13;
  offset = signed_ltoff (field x 40 6);
}

pub decode_sync : List ℕ → Option SyncTime
decode_sync bytes = elim (parse_tsbk bytes) [
  | none ↦ none
  | some b ↦ if b.opcode == tsbk_sync_bcast then some (time_of b.args) else none
]

-- The times that `gmtime_r` gives, a leap second included.
pub record IsTime (utc : Tm) : Type 0 where
  pub mon : utc.mon < 12
  pub mday : utc.mday < 32
  pub hour : utc.hour < 24
  pub min : utc.min < 60
  pub sec : utc.sec < 61

abbrev IsOffset : ℤ → Type 0
IsOffset o = (pos_part o < 32) × (neg_part o < 32)

-- The bytes, as sums.
abbrev byte_sums : Tm → ℕ → List ℕ
byte_sums utc ltoff =
    0
    ∷ 4
    ∷ (64 + ltoff)
    ∷ ((utc.year + 1900) % 100 * 2 + (utc.mon + 1) / 8)
    ∷ ((utc.mon + 1) % 8 * 32 + utc.mday)
    ∷ (utc.hour * 8 + utc.min / 8)
    ∷ (utc.min % 8 * 32 + utc.sec * 135 / 256)
    ∷ (utc.sec * 135 % 256)
    ∷ []

abbrev Fits : ℕ → List ℕ → Type 0
Fits acc [] = Unit {0}
Fits acc (b ∷ bs) = (acc < 2 ^ 56) × (b < 256) × Fits (acc * 256 + b) bs

abbrev pub sent_time : Tm → ℤ → SyncTime
sent_time utc o = record {
  year = (utc.year + 1900) % 100;
  month = utc.mon + 1;
  day = utc.mday;
  hour = utc.hour;
  min = utc.min;
  slots = utc.sec * 135;
  offset = o;
}
