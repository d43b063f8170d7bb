-- ===== src/P25/Frame.antt =====
-- src/p25/Frame.cpp and Frame.hpp: from a block of twelve bytes to the dibits that are modulated.
pub mod Dibits
pub mod Status
pub mod Receive
mod Tests
use site_sim.Base.{
  ℕ, zero, suc, ◌+◌, ◌-◌, ◌*◌, ◌/◌, ◌%◌, bit_and, List, [], ◌∷◌, ◌++◌, Option, none, some, length,
  drop, replicate, ltb, ◌==◌, ◌&&◌, if◌then◌else◌, word_bytes, ◌>>◌,
}
use site_sim.P25.Nid.{duid_tdu, duid_tsbk, encode_bch, nid_word}
use site_sim.P25.Tsbk.Trellis.{trellis_encode}
use site_sim.P25.Tsbk.Interleave.{data_interleave}

-- `kFrameSync` and `kTSCCStatusSymbol`
abbrev pub frame_sync : ℕ
frame_sync = 0x5575F5FF77FF

abbrev pub tscc_status_symbol : ℕ
tscc_status_symbol = 0x02

-- `bytesToDibits`, over the first bytes of `data`; what it appends to `out`.
pub bytes_to_dibits : List ℕ → List ℕ
bytes_to_dibits [] = []
bytes_to_dibits (b ∷ bs) =
    bit_and (b >> 6) 0x03
    ∷ bit_and (b >> 4) 0x03
    ∷ bit_and (b >> 2) 0x03
    ∷ bit_and (b >> 0) 0x03
    ∷ bytes_to_dibits bs

-- `uint64ToDibits`: the last `n` of the 32 dibits, for `n` of at most 32.
pub uint64_to_dibits : ℕ → ℕ → List ℕ
uint64_to_dibits v n = drop (32 - n) (bytes_to_dibits (word_bytes 8 v))

-- The second loop of `insertStatusSymbols`, in at most so many rounds; `none` if they run out.
pub pad_status : ℕ → ℕ → ℕ → ℕ → Option (List ℕ)
pad_status zero ss i remaining = if remaining == 0 then some [] else none
pad_status (suc rounds) ss i remaining =
    let hit = i % 35 == 0 in
    let rest = pad_status rounds ss (i + 1) (if hit then remaining - 1 else remaining) in
    if ltb 0 remaining
    then elim rest [ none ↦ none | some out ↦ some (0 ∷ (if hit then ss ∷ out else out)) ]
    else some []

-- The first loop of `insertStatusSymbols`, and then the second.
pub data_status : ℕ → List ℕ → ℕ → ℕ → ℕ → Option (List ℕ)
data_status rounds [] ss i remaining = pad_status rounds ss i remaining
data_status rounds (d ∷ ds) ss i remaining =
    let hit = (i % 35 == 0) && ltb 0 remaining in
    let rest = data_status rounds ds ss (i + 1) (if hit then remaining - 1 else remaining) in
    elim rest [ none ↦ none | some out ↦ some (d ∷ (if hit then ss ∷ out else out)) ]

-- `insertStatusSymbols`. The padding takes fewer than 35 rounds.
pub insert_status_symbols : List ℕ → ℕ → Option (List ℕ)
insert_status_symbols dibits ss = data_status 35 dibits ss 1 ((length dibits + 34) / 35)

-- `BuildFrame`. A dibit outside the trellis table would be `none`.
pub build_frame : ℕ → List ℕ → Option (List ℕ)
build_frame nac tsbk = elim (trellis_encode (bytes_to_dibits tsbk)) [
  | none ↦ none
  | some encoded ↦
      insert_status_symbols
        (uint64_to_dibits frame_sync 24
          ++ (uint64_to_dibits (encode_bch (nid_word nac duid_tsbk)) 32 ++ data_interleave encoded))
        tscc_status_symbol
]

-- `BuildTDUFrame`
pub build_tdu_frame : ℕ → Option (List ℕ)
build_tdu_frame nac =
    insert_status_symbols
      (uint64_to_dibits frame_sync 24
        ++ (uint64_to_dibits (encode_bch (nid_word nac duid_tdu)) 32 ++ replicate 98 0))
      tscc_status_symbol
