-- ===== src/Tx/Control/Run.antt =====
-- Rounds of `producerThread` of src/tx/ControlChannel.cpp and calls of `queueTSBK`, in the order in
-- which their locked regions run.
use site_sim.Base.{ℕ, suc, ◌≡◌, refl, List, [], ◌∷◌, length, ltb, if◌then◌else◌}
use site_sim.Tx.Control.{
  Clock, Channel, LogEntry, SysName, sys, act, queue_tsbk, next_block, finish_round,
}

pub data Event : Type 0 where
  round : Clock → Event
  request : List ℕ → Event

-- What a round sends: its log line and its block.
abbrev pub Sent : Type 0
Sent = LogEntry × List ℕ

-- One round of the producer: what it sends, and the channel after it.
abbrev pub producer_round : List (List ℕ) → Clock → Channel → Sent × Channel
producer_round static_tsbks clock c =
    let (tsbk, msg, c') = next_block static_tsbks clock c in ((msg, tsbk), finish_round msg c')

abbrev pub run : List (List ℕ) → List Event → Channel → List Sent × Channel
run static_tsbks [] c = ([], c)
run static_tsbks (round clock ∷ events) c =
    let (sent, c') = producer_round static_tsbks clock c in
    let (more, c'') = run static_tsbks events c' in (sent ∷ more, c'')
run static_tsbks (request tsbk ∷ events) c = run static_tsbks events (queue_tsbk c tsbk)

-- The requests of a run that find room in the queue.
abbrev pub accepted : List (List ℕ) → List Event → Channel → List (List ℕ)
accepted static_tsbks [] c = []
accepted static_tsbks (round clock ∷ events) c =
    accepted static_tsbks events (producer_round static_tsbks clock c).1
accepted static_tsbks (request tsbk ∷ events) c =
    let rest = accepted static_tsbks events (queue_tsbk c tsbk) in
    if ltb (length c.tsbk_queue) 128 then tsbk ∷ rest else rest

abbrev pub rounds : List Event → ℕ
rounds [] = 0
rounds (round clock ∷ events) = suc (rounds events)
rounds (request tsbk ∷ events) = rounds events

-- The blocks that were sent from the queue.
abbrev pub responses : List Sent → List (List ℕ)
responses [] = []
responses ((act, tsbk) ∷ sent) = tsbk ∷ responses sent
responses ((sys name, tsbk) ∷ sent) = responses sent

-- The system messages that were sent, by name.
abbrev pub broadcasts : List Sent → List SysName
broadcasts [] = []
broadcasts ((act, tsbk) ∷ sent) = broadcasts sent
broadcasts ((sys name, tsbk) ∷ sent) = name ∷ broadcasts sent

module _ (msg : LogEntry) (name : SysName) (tsbk : List ℕ) (sent : List Sent) where
  pub responses-sys : msg ≡ sys name → responses ((msg, tsbk) ∷ sent) ≡ responses sent
  responses-sys h = rw h refl

  pub broadcasts-sys : msg ≡ sys name → broadcasts ((msg, tsbk) ∷ sent) ≡ name ∷ broadcasts sent
  broadcasts-sys h = rw h refl

module _ (msg : LogEntry) (tsbk : List ℕ) (sent : List Sent) where
  pub responses-act : msg ≡ act → responses ((msg, tsbk) ∷ sent) ≡ tsbk ∷ responses sent
  responses-act h = rw h refl

  pub broadcasts-act : msg ≡ act → broadcasts ((msg, tsbk) ∷ sent) ≡ broadcasts sent
  broadcasts-act h = rw h refl
