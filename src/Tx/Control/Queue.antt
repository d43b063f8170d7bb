-- ===== src/Tx/Control/Queue.antt =====
-- The queue and the log of src/tx/ControlChannel.cpp over rounds and requests in any order.
use site_sim.Base.{
  ℕ, ◌-◌, ◌≤◌, ◌<◌, ◌≡◌, inl, inr, refl, sym, ap, ◌∙◌, List, [], ◌∷◌, ◌++◌, Bool-cases, length,
  length-append, length-drop, take, take-drop, min, ltb→lt, lt→ltb, le→ltb-false, ltb, ltb→lt,
  lt→ltb, le→ltb-false, ltb-false→le, if◌then◌else◌, arith,
}
use mathlib.Core.List.{append-nil, append_assoc}
use site_sim.Tx.Control.{Clock, Channel, LogEntry, queue_tsbk, get_log, add_log}
use site_sim.Tx.Control.Round.{producer_round_cases}
use site_sim.Tx.Control.Run.{
  Event, round, request, producer_round, run, accepted, responses, responses-sys, responses-act,
}

-- The two bounds of the code.
abbrev pub ChannelIsValid : Channel → Type 0
ChannelIsValid c = (length c.tsbk_queue ≤ 128) × (length c.log ≤ 500)

length-add_log :
    (log : List LogEntry) (msg : LogEntry) → length log ≤ 500 → length (add_log log msg) ≤ 500
unfolding add_log
length-add_log log msg h = elim (Bool-cases (ltb 500 (length (log ++ msg ∷ [])))) [
  | inl e ↦ rw e (omega (arith, length-drop 1 (log ++ msg ∷ []), length-append log (msg ∷ [])))
  | inr e ↦ rw e (ltb-false→le 500 (length (log ++ msg ∷ [])) e)
]

round-ChannelIsValid :
    (static_tsbks : List (List ℕ)) (clock : Clock) (c : Channel)
    → ChannelIsValid c
    → ChannelIsValid (producer_round static_tsbks clock c).1
round-ChannelIsValid static_tsbks clock c v =
    let (sent, c') = producer_round static_tsbks clock c in
    let (sort, (logged, _)) = producer_round_cases static_tsbks clock c in
    let log_bound : length c'.log ≤ 500 =
      omega (arith, ap length logged, length-add_log c.log sent.0 v.1) in
    elim sort [
      | inl (_, same, _, _) ↦ (omega (arith, ap length same, v.0), log_bound)
      | inr (_, front, _, _) ↦ (omega (arith, ap length front, v.0), log_bound)
    ]

request-ChannelIsValid :
    (c : Channel) (tsbk : List ℕ) → ChannelIsValid c → ChannelIsValid (queue_tsbk c tsbk)
unfolding queue_tsbk
request-ChannelIsValid c tsbk v = elim (Bool-cases (ltb (length c.tsbk_queue) 128)) [
  | inl e ↦ rw e (
    omega (arith, ltb→lt (length c.tsbk_queue) 128 e, length-append c.tsbk_queue (tsbk ∷ [])),
    v.1,
  )
  | inr e ↦ rw e v
]

-- Rounds and requests in any order leave at most 128 blocks in the queue and at most 500 entries in
-- the log, if it was so before.
pub run-ChannelIsValid :
    (static_tsbks : List (List ℕ)) (events : List Event) (c : Channel)
    → ChannelIsValid c
    → ChannelIsValid (run static_tsbks events c).1
run-ChannelIsValid static_tsbks [] c v = v
run-ChannelIsValid static_tsbks (round clock ∷ events) c v =
    run-ChannelIsValid static_tsbks events (producer_round static_tsbks clock c).1
      (round-ChannelIsValid static_tsbks clock c v)
run-ChannelIsValid static_tsbks (request tsbk ∷ events) c v =
    run-ChannelIsValid static_tsbks events (queue_tsbk c tsbk) (request-ChannelIsValid c tsbk v)

pub queue_tsbk-room :
    (c : Channel) (tsbk : List ℕ)
    → length c.tsbk_queue < 128
    → ((queue_tsbk c tsbk).tsbk_queue ≡ c.tsbk_queue ++ tsbk ∷ [])
      × ((queue_tsbk c tsbk).frame_n ≡ c.frame_n)
unfolding queue_tsbk
queue_tsbk-room c tsbk h = rw (lt→ltb (length c.tsbk_queue) 128 h) (refl, refl)

pub queue_tsbk-full :
    (c : Channel) (tsbk : List ℕ) → 128 ≤ length c.tsbk_queue → queue_tsbk c tsbk ≡ c
unfolding queue_tsbk
queue_tsbk-full c tsbk h = rw (le→ltb-false (length c.tsbk_queue) 128 h) refl

queue_tsbk-append :
    (c : Channel) (tsbk : List ℕ) (rest : List (List ℕ))
    → (queue_tsbk c tsbk).tsbk_queue ++ rest
      ≡ c.tsbk_queue ++ (if ltb (length c.tsbk_queue) 128 then tsbk ∷ rest else rest)
unfolding queue_tsbk
queue_tsbk-append c tsbk rest = elim (Bool-cases (ltb (length c.tsbk_queue) 128)) [
  | inl e ↦ rw e (append_assoc c.tsbk_queue (tsbk ∷ []) rest)
  | inr e ↦ rw e refl
]

-- Whatever the order of rounds and requests: the responses that are sent and then those that still
-- wait are the ones that waited at the start and then the accepted requests, in the same order.
pub responses-accepted :
    (static_tsbks : List (List ℕ)) (events : List Event) (c : Channel)
    → responses (run static_tsbks events c).0 ++ (run static_tsbks events c).1.tsbk_queue
      ≡ c.tsbk_queue ++ accepted static_tsbks events c
responses-accepted static_tsbks [] c = sym (append-nil c.tsbk_queue)
responses-accepted static_tsbks (round clock ∷ events) c =
    let (sent, c') = producer_round static_tsbks clock c in
    let (more, c'') = run static_tsbks events c' in
    let rest = accepted static_tsbks events c' in
    let later = responses-accepted static_tsbks events c' in
    elim (producer_round_cases static_tsbks clock c).0 [
      | inl (line, same, _, _) ↦
          ap (λ xs. xs ++ c''.tsbk_queue) (responses-sys sent.0 _ sent.1 more line)
          ∙ later
          ∙ ap (λ q. q ++ rest) same
      | inr (line, front, _, _) ↦
          ap (λ xs. xs ++ c''.tsbk_queue) (responses-act sent.0 sent.1 more line)
          ∙ ap (◌∷◌ sent.1) later
          ∙ ap (λ q. q ++ rest) (sym front)
    ]
responses-accepted static_tsbks (request tsbk ∷ events) c =
    responses-accepted static_tsbks events (queue_tsbk c tsbk)
    ∙ queue_tsbk-append c tsbk (accepted static_tsbks events (queue_tsbk c tsbk))

-- `getLog` gives the end of the log, of as many entries as are asked for, or the whole of it if there
-- are fewer.
pub get_log_lem :
    (c : Channel) (max_entries : ℕ)
    → (take (length c.log - max_entries) c.log ++ get_log c max_entries ≡ c.log)
      × (length (get_log c max_entries) ≡ min max_entries (length c.log))
unfolding get_log
get_log_lem c max_entries =
    let n = if ltb max_entries (length c.log) then length c.log - max_entries else 0 in
    let start : n ≡ length c.log - max_entries = ground arith in
    (
      rw start (take-drop (length c.log - max_entries) c.log),
      omega (arith, start, length-drop n c.log),
    )
