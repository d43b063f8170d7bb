-- ===== src/Tx/Control/Round.antt =====
-- What one round of `producerThread` of src/tx/ControlChannel.cpp does, by cases.
use site_sim.Base.{
  ℕ, ◌+◌, ◌%◌, ◌^◌, ◌≡◌, ◌≢◌, ◌⊎◌, inl, inr, refl, List, [], ◌∷◌, Bool-cases, get_or, ◌==◌,
  ==-true→eq, ==-false→ne, List-cases,
}
use site_sim.Tx.Control.{
  Clock, Channel, sync, sys, act, sys_names, next_block, sys_slot, finish_round, add_log, burst_len,
}
use site_sim.Tx.Control.Run.{Sent, producer_round}

-- The next system message is sent, and the queue is left as it is.
abbrev pub Broadcasts : Channel → Sent × Channel → Type 0
Broadcasts c ((msg, tsbk), c') =
    (msg ≡ sys (get_or sys_names (c.sys_idx % 5) sync))
    × (c'.tsbk_queue ≡ c.tsbk_queue)
    × (c'.sys_idx ≡ c.sys_idx + 1)
    × ((c.frame_n % 5 ≡ 0) ⊎ (c.tsbk_queue ≡ []))

-- The front of the queue is sent.
abbrev pub Responds : Channel → Sent × Channel → Type 0
Responds c ((msg, tsbk), c') =
    (msg ≡ act)
    × (c.tsbk_queue ≡ tsbk ∷ c'.tsbk_queue)
    × (c'.sys_idx ≡ c.sys_idx)
    × (c.frame_n % 5 ≢ 0)

-- The line goes to the log, and the frame is counted.
abbrev pub Finishes : Channel → Sent × Channel → Type 0
Finishes c ((msg, tsbk), c') =
    (c'.log ≡ add_log c.log msg) × (c'.frame_n ≡ (c.frame_n + 1) % 2 ^ 64)

pub producer_round_cases :
    (static_tsbks : List (List ℕ)) (clock : Clock) (c : Channel)
    → let after = producer_round static_tsbks clock c in
      (Broadcasts c after ⊎ Responds c after) × Finishes c after
unfolding next_block sys_slot finish_round
producer_round_cases static_tsbks clock c = elim (Bool-cases (c.frame_n % burst_len == 0)) [
  | inl e ↦ rw e (inl (refl, refl, refl, inl (==-true→eq (c.frame_n % 5) 0 e)), (refl, refl))
  | inr e ↦ rw e (elim (List-cases c.tsbk_queue) [
    | inl empty ↦ rw empty (inl (refl, empty, refl, inr refl), (refl, refl))
    | inr (tsbk, rest, full) ↦
        rw full (inr (refl, refl, refl, ==-false→ne (c.frame_n % 5) 0 e), (refl, refl))
  ])
]
