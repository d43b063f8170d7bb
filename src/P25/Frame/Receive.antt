-- ===== src/P25/Frame/Receive.antt =====
-- A reference receiver, and what it gets from the frames that are sent.
use mathlib.Core.List.{append_assoc}
use site_sim.Base.{
  ℕ, ◌-◌, ◌*◌, ◌^◌, ◌<◌, ◌≡◌, refl, sym, ap, ◌∙◌, List, ◌++◌, Option, none, some, length,
  length-append, take, take-append, drop, drop-append, replicate, All, arith, IsByte, word_bytes,
  ◌==◌, if◌then◌else◌,
}
use site_sim.P25.Nid.{duid_tdu, duid_tsbk, encode_bch, nid_word}
use site_sim.P25.Nid.Linear.{encode_bch-lt}
use site_sim.P25.Tsbk.Trellis.Decode.{trellis_decode, trellis_decode-encode}
use site_sim.P25.Tsbk.Interleave.{data_interleave}
use site_sim.P25.Tsbk.Interleave.Inverse.{
  data_deinterleave, deinterleave-interleave, length-data_interleave,
}
use site_sim.P25.Frame.{
  frame_sync, tscc_status_symbol, bytes_to_dibits, uint64_to_dibits, insert_status_symbols,
  build_frame, build_tdu_frame,
}
use site_sim.P25.Frame.Dibits.{
  to_bytes, to_bytes-dibits, bytes_to_dibits-IsDibit, length-bytes_to_dibits, spell, spell-uint64,
  length-uint64_to_dibits,
}
use site_sim.P25.Frame.Status.{strip_status, statuses, status_count, insert_status_symbols_lem}

-- What a receiver learns of a frame: the network identifier, and the 98 dibits behind it.
pub split_body : List ℕ → Option (ℕ × List ℕ)
split_body body =
    if spell 0 (take 24 body) == frame_sync
    then some (spell 0 (take 32 (drop 24 body)), take 98 (drop 56 body))
    else none

pub split_frame : List ℕ → Option (ℕ × List ℕ)
split_frame dibits = split_body (strip_status 35 dibits)

-- The bytes of a block.
pub read_block : List ℕ → Option (List ℕ)
read_block payload = elim (trellis_decode (data_deinterleave payload)) [
  | none ↦ none
  | some dibits ↦ some (to_bytes dibits)
]

abbrev sync_dibits : List ℕ
sync_dibits = uint64_to_dibits frame_sync 24

sync_spelled : spell 0 sync_dibits ≡ frame_sync
unfolding uint64_to_dibits word_bytes bytes_to_dibits spell
sync_spelled = refl

split_body-parts :
    (nid : ℕ) (payload rest : List ℕ)
    → nid < 2 ^ 64
    → length payload ≡ 98
    → split_body (sync_dibits ++ (uint64_to_dibits nid 32 ++ (payload ++ rest)))
      ≡ some (nid, payload)
unfolding split_body
split_body-parts nid payload rest small len =
    rw (first, last, sync_spelled, middle, spell-uint64 nid small, take-append 98 payload rest len)
  where
    sync_length : length sync_dibits ≡ 24
    sync_length = length-uint64_to_dibits frame_sync 24 (omega arith)

    nid_length : length (uint64_to_dibits nid 32) ≡ 32
    nid_length = length-uint64_to_dibits nid 32 (omega arith)

    behind : List ℕ
    behind = uint64_to_dibits nid 32 ++ (payload ++ rest)

    first : take 24 (sync_dibits ++ behind) ≡ sync_dibits
    first = take-append 24 sync_dibits behind sync_length

    middle : take 32 (drop 24 (sync_dibits ++ behind)) ≡ uint64_to_dibits nid 32
    middle =
        ap (take 32) (drop-append 24 sync_dibits behind sync_length)
        ∙ take-append 32 (uint64_to_dibits nid 32) (payload ++ rest) nid_length

    last : drop 56 (sync_dibits ++ behind) ≡ payload ++ rest
    last =
        ap (drop 56) (sym (append_assoc sync_dibits (uint64_to_dibits nid 32) (payload ++ rest)))
        ∙ drop-append 56 (sync_dibits ++ uint64_to_dibits nid 32) (payload ++ rest) (
            omega
              (arith, length-append sync_dibits (uint64_to_dibits nid 32), sync_length, nid_length))

-- A frame of a payload of 98 dibits, whatever the identifier, is 180 dibits long and is split into
-- the identifier and the payload.
framed :
    (nid : ℕ) (payload : List ℕ)
    → nid < 2 ^ 64
    → length payload ≡ 98
    → (out : List ℕ) × (insert_status_symbols
          (sync_dibits ++ (uint64_to_dibits nid 32 ++ payload))
          tscc_status_symbol
        ≡ some out)
      × (split_frame out ≡ some (nid, payload))
      × (statuses 35 out ≡ replicate 5 tscc_status_symbol)
      × (length out ≡ 180)
framed nid payload small len =
    let (out, inserted, stripped, marks, size) = insert_status_symbols_lem ds tscc_status_symbol in
    (
      out,
      inserted,
      unfold split_frame in
          ap split_body (stripped ∙ body) ∙ split_body-parts nid payload zeros small len,
      marks ∙ ap (λ k. replicate k tscc_status_symbol) five,
      size ∙ ap (λ k. 36 * k) five,
    )
  where
    ds : List ℕ
    ds = sync_dibits ++ (uint64_to_dibits nid 32 ++ payload)

    zeros : List ℕ
    zeros = replicate (35 * status_count ds - length ds) 0

    five : status_count ds ≡ 5
    five = omega (
      arith,
      length-append sync_dibits (uint64_to_dibits nid 32 ++ payload),
      length-append (uint64_to_dibits nid 32) payload,
      length-uint64_to_dibits frame_sync 24 (omega arith),
      length-uint64_to_dibits nid 32 (omega arith),
    )

    body : ds ++ zeros ≡ sync_dibits ++ (uint64_to_dibits nid 32 ++ (payload ++ zeros))
    body =
        append_assoc sync_dibits (uint64_to_dibits nid 32 ++ payload) zeros
        ∙ ap (λ t. sync_dibits ++ t) (append_assoc (uint64_to_dibits nid 32) payload zeros)

read_block_lem :
    (payload dibits : List ℕ)
    → trellis_decode (data_deinterleave payload) ≡ some dibits
    → read_block payload ≡ some (to_bytes dibits)
unfolding read_block
read_block_lem payload dibits e = ground arith

-- A block of twelve bytes is always framed, in 180 dibits with the five status symbols in their
-- places, and the receiver gets from the frame the identifier of the NAC and the block itself.
pub build_frame-receive :
    (nac : ℕ) (tsbk : List ℕ)
    → length tsbk ≡ 12
    → All IsByte tsbk
    → (out : List ℕ) × (payload : List ℕ) × (build_frame nac tsbk ≡ some out)
      × (split_frame out ≡ some (encode_bch (nid_word nac duid_tsbk), payload))
      × (read_block payload ≡ some tsbk)
      × (statuses 35 out ≡ replicate 5 tscc_status_symbol)
      × (length out ≡ 180)
unfolding build_frame
build_frame-receive nac tsbk len bytes =
    let dibits = bytes_to_dibits tsbk in
    let (encoded, coded, decoded, size, _) =
      trellis_decode-encode dibits (bytes_to_dibits-IsDibit tsbk) in
    let size98 : length encoded ≡ 98 = omega (arith, length-bytes_to_dibits tsbk) in
    let (out, inserted, found, marks, total) =
      framed (encode_bch (nid_word nac duid_tsbk)) (data_interleave encoded)
        (encode_bch-lt (nid_word nac duid_tsbk)) (length-data_interleave encoded) in
    (
      out,
      data_interleave encoded,
      rw (coded, build_frame) inserted,
      found,
      read_block_lem (data_interleave encoded) dibits
            (ap trellis_decode (deinterleave-interleave encoded size98) ∙ decoded)
          ∙ ap some (to_bytes-dibits tsbk bytes),
      marks,
      total,
    )

-- The terminator is always framed, in 180 dibits with the five status symbols in their places, and
-- the receiver gets from the frame the identifier of the NAC and 98 zeros.
pub build_tdu_frame-receive :
    (nac : ℕ)
    → (out : List ℕ) × (build_tdu_frame nac ≡ some out)
      × (split_frame out ≡ some (encode_bch (nid_word nac duid_tdu), replicate 98 0))
      × (statuses 35 out ≡ replicate 5 tscc_status_symbol)
      × (length out ≡ 180)
unfolding build_tdu_frame
build_tdu_frame-receive nac =
    framed (encode_bch (nid_word nac duid_tdu)) (replicate 98 0)
      (encode_bch-lt (nid_word nac duid_tdu)) refl
