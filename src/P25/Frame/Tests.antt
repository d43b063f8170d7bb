-- ===== src/P25/Frame/Tests.antt =====
-- Instances for src/p25/Frame.cpp.
use site_sim.Base.{ℕ, ◌≡◌, refl, List, [], ◌∷◌, some, length, replicate, All, IsByte, arith}
use site_sim.P25.Nid.{duid_tsbk, encode_bch, nid_word}
use site_sim.P25.Frame.{build_frame, tscc_status_symbol}
use site_sim.P25.Frame.Status.{statuses}
use site_sim.P25.Frame.Receive.{build_frame-receive, split_frame, read_block}

abbrev block : List ℕ
block = 0xBB ∷ 0 ∷ 0xBE ∷ 0xEF ∷ 0 ∷ 0 ∷ 1 ∷ 0 ∷ 0 ∷ 0 ∷ 0x12 ∷ 0x34 ∷ []

block-IsBytes : All IsByte block
block-IsBytes = omega arith

build_frame-receive_example :
    (out : List ℕ) × (payload : List ℕ) × (build_frame 0x293 block ≡ some out)
    × (split_frame out ≡ some (encode_bch (nid_word 0x293 duid_tsbk), payload))
    × (read_block payload ≡ some block)
    × (statuses 35 out ≡ replicate 5 tscc_status_symbol)
    × (length out ≡ 180)
build_frame-receive_example = build_frame-receive 0x293 block refl block-IsBytes
