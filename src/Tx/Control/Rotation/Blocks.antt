-- ===== src/Tx/Control/Rotation/Blocks.antt =====
-- The blocks of the system messages that `producerThread` of src/tx/ControlChannel.cpp sends.
use site_sim.Base.{
  ℕ, zero, suc, ◌+◌, ◌*◌, ◌%◌, ◌^◌, ◌≤◌, ◌<◌, ◌≡◌, inl, inr, refl, ap, ◌∙◌, List, [], ◌∷◌,
  Bool-cases, List-cases, length, get_or, ltb, if◌then◌else◌, ◌==◌, arith,
}
use site_sim.P25.Tsbk.Sync.{build_sync_bcast}
use site_sim.Tx.Control.{
  Clock, Channel, LogEntry, SysName, iden_up, net_sts, rfss_sts, adj_sts, sync, sys, act, sys_names,
  burst_len, next_block, sys_slot, finish_round, queue_tsbk,
}
use site_sim.Tx.Control.Round.{producer_round_cases}
use site_sim.Tx.Control.Rotation.{rotation, queue_tsbk-same, broadcasts-rotation}
use site_sim.Tx.Control.Run.{
  Event, Sent, round, request, producer_round, run, rounds, broadcasts, broadcasts-sys,
  broadcasts-act,
}

-- The block of each system message; the last is made for the time.
abbrev pub block_of : List (List ℕ) → Clock → SysName → List ℕ
block_of static_tsbks clock iden_up = get_or static_tsbks 0 []
block_of static_tsbks clock net_sts = get_or static_tsbks 1 []
block_of static_tsbks clock rfss_sts = get_or static_tsbks 2 []
block_of static_tsbks clock adj_sts = get_or static_tsbks 3 []
block_of static_tsbks clock sync = build_sync_bcast clock.utc clock.has_gmtoff clock.gmtoff

-- The block is that of the name in the log line.
abbrev pub IsNamed : List (List ℕ) → Clock → LogEntry → List ℕ → Type 0
IsNamed static_tsbks clock (sys name) tsbk = tsbk ≡ block_of static_tsbks clock name
IsNamed static_tsbks clock act tsbk = Unit

-- Each round sent something, and each system message is the block of its name, at the time of its round.
abbrev pub AreNamed : List (List ℕ) → List Event → List Sent → Type 0
AreNamed static_tsbks [] sent = sent ≡ []
AreNamed static_tsbks (request tsbk ∷ events) sent = AreNamed static_tsbks events sent
AreNamed static_tsbks (round clock ∷ events) [] = rounds (round clock ∷ events) ≡ 0
AreNamed static_tsbks (round clock ∷ events) ((msg, tsbk) ∷ sent) =
    IsNamed static_tsbks clock msg tsbk × AreNamed static_tsbks events sent

slot-IsNamed :
    (static_tsbks : List (List ℕ)) (clock : Clock) (k : ℕ)
    → k < 5
    → IsNamed static_tsbks clock (sys (get_or sys_names k sync)) (
        if ltb k 4
        then get_or static_tsbks k []
        else build_sync_bcast clock.utc clock.has_gmtoff clock.gmtoff)
slot-IsNamed static_tsbks clock zero h = refl
slot-IsNamed static_tsbks clock (suc zero) h = refl
slot-IsNamed static_tsbks clock (suc (suc zero)) h = refl
slot-IsNamed static_tsbks clock (suc (suc (suc zero))) h = refl
slot-IsNamed static_tsbks clock (suc (suc (suc (suc zero)))) h = refl
slot-IsNamed static_tsbks clock (suc (suc (suc (suc (suc k))))) h = absurd (omega arith)

round-IsNamed :
    (static_tsbks : List (List ℕ)) (clock : Clock) (c : Channel)
    → let sent = (producer_round static_tsbks clock c).0 in IsNamed static_tsbks clock sent.0 sent.1
unfolding next_block sys_slot finish_round
round-IsNamed static_tsbks clock c =
    let slot = slot-IsNamed static_tsbks clock (c.sys_idx % 5) (omega arith) in
    elim (Bool-cases (c.frame_n % burst_len == 0)) [
      | inl e ↦ rw e slot
      | inr e ↦ rw e (elim (List-cases c.tsbk_queue) [
        | inl empty ↦ rw empty slot
        | inr (tsbk, rest, full) ↦ rw full tt
      ])
    ]

run-AreNamed :
    (static_tsbks : List (List ℕ)) (events : List Event) (c : Channel)
    → AreNamed static_tsbks events (run static_tsbks events c).0
run-AreNamed static_tsbks [] c = refl
run-AreNamed static_tsbks (request tsbk ∷ events) c =
    run-AreNamed static_tsbks events (queue_tsbk c tsbk)
run-AreNamed static_tsbks (round clock ∷ events) c = (
  round-IsNamed static_tsbks clock c,
  run-AreNamed static_tsbks events (producer_round static_tsbks clock c).1,
)

length-rotation : (n k : ℕ) → length (rotation k n) ≡ n
length-rotation zero k = refl
length-rotation (suc n) k = omega (arith, length-rotation n (k + 1))

-- The index counts the system messages.
run-counts :
    (static_tsbks : List (List ℕ)) (events : List Event) (c : Channel)
    → let (sent, c') = run static_tsbks events c in
      (c'.sys_idx ≡ c.sys_idx + length (broadcasts sent))
      × (length (broadcasts sent) ≤ rounds events)
run-counts static_tsbks [] c = (omega arith, omega arith)
run-counts static_tsbks (request tsbk ∷ events) c =
    let (same, _) = queue_tsbk-same c tsbk in
    let (count, few) = run-counts static_tsbks events (queue_tsbk c tsbk) in
    (omega (arith, count, same), few)
run-counts static_tsbks (round clock ∷ events) c =
    let (sent, c') = producer_round static_tsbks clock c in
    let (more, c'') = run static_tsbks events c' in
    let (count, few) = run-counts static_tsbks events c' in
    elim (producer_round_cases static_tsbks clock c).0 [
      | inl (line, _, next, _) ↦
          let one = ap length (broadcasts-sys sent.0 _ sent.1 more line) in
          (omega (arith, count, next, one), omega (arith, few, one))
      | inr (line, _, same, _) ↦
          let none_sent = ap length (broadcasts-act sent.0 sent.1 more line) in
          (omega (arith, count, same, none_sent), omega (arith, few, none_sent))
    ]

-- Over rounds and requests in any order, in which neither the 64 bits of the number of the frame nor the
-- 31 of the index of the rotation run out, the names of the system messages follow the rotation, from
-- where it stands. Each is sent with its own block: the static block of that name, or the broadcast of the
-- time of its round. All rounds but four at most are covered by five for each message, and the index is
-- moved on by one for each and stays in its range.
pub run-rotation :
    (static_tsbks : List (List ℕ)) (events : List Event) (c : Channel)
    → c.frame_n + rounds events < 2 ^ 64
    → c.sys_idx + rounds events < 2 ^ 31
    → let (sent, c') = run static_tsbks events c in
      (n : ℕ) × (broadcasts sent ≡ rotation c.sys_idx n)
      × AreNamed static_tsbks events sent
      × (rounds events ≤ 5 * n + 4)
      × (c'.sys_idx ≡ c.sys_idx + n)
      × (c'.sys_idx < 2 ^ 31)
run-rotation static_tsbks events c h room =
    let (n, order, often) = broadcasts-rotation static_tsbks events c h in
    let (count, few) = run-counts static_tsbks events c in
    let size = ap length order ∙ length-rotation n c.sys_idx in
    (
      n,
      order,
      run-AreNamed static_tsbks events c,
      often,
      omega (arith, count, size),
      omega (arith, count, few, room),
    )
