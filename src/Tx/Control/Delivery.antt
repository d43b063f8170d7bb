-- ===== src/Tx/Control/Delivery.antt =====
-- How soon `producerThread` of src/tx/ControlChannel.cpp sends what is in the queue.
use site_sim.Base.{
  ℕ, ◌+◌, ◌-◌, ◌*◌, ◌%◌, ◌^◌, ◌≤◌, ◌<◌, ◌≡◌, inl, inr, refl, sym, ap, ◌∙◌, min, List, [], ◌∷◌,
  Bool-cases, length, length-append, take, take-prefix, ltb, arith,
}
use site_sim.Tx.Control.{Channel, queue_tsbk}
use site_sim.Tx.Control.Round.{producer_round_cases}
use site_sim.Tx.Control.Queue.{responses-accepted}
use site_sim.Tx.Control.Run.{
  Event, round, request, producer_round, run, accepted, rounds, responses, responses-sys,
  responses-act,
}

queue_tsbk-grows :
    (c : Channel) (tsbk : List ℕ)
    → (length c.tsbk_queue ≤ length (queue_tsbk c tsbk).tsbk_queue)
      × ((queue_tsbk c tsbk).frame_n ≡ c.frame_n)
unfolding queue_tsbk
queue_tsbk-grows c tsbk = elim (Bool-cases (ltb (length c.tsbk_queue) 128)) [
  | inl e ↦ rw e (omega (arith, length-append c.tsbk_queue (tsbk ∷ [])), refl)
  | inr e ↦ rw e (omega arith, refl)
]

-- A round in the middle of a burst is one more chance.
enough_responses :
    (static_tsbks : List (List ℕ)) (events : List Event) (c : Channel) (n : ℕ)
    → n ≤ length c.tsbk_queue
    → c.frame_n + rounds events < 2 ^ 64
    → 2 * n ≤ rounds events + min (c.frame_n % 5) 1
    → n ≤ length (responses (run static_tsbks events c).0)
enough_responses static_tsbks [] c n h k m = omega arith
enough_responses static_tsbks (request tsbk ∷ events) c n h k m =
    let (grows, same) = queue_tsbk-grows c tsbk in
    enough_responses static_tsbks events (queue_tsbk c tsbk) n (omega arith) (omega (arith, same))
      (omega (arith, same))
enough_responses static_tsbks (round clock ∷ events) c n h k m =
    let (sent, c') = producer_round static_tsbks clock c in
    let (more, c'') = run static_tsbks events c' in
    let (sort, (_, counted)) = producer_round_cases static_tsbks clock c in
    elim sort [
      | inl (line, same, _, inl start) ↦
          let later =
            enough_responses static_tsbks events c' n (omega (arith, ap length same, h))
              (omega (arith, counted, k)) (omega (arith, counted, m, start)) in
          omega (arith, later, ap length (responses-sys sent.0 _ sent.1 more line))
      | inl (line, same, _, inr empty) ↦ omega (arith, ap length empty, h)
      | inr (line, front, _, middle) ↦
          let later =
            enough_responses static_tsbks events c' (n - 1) (omega (arith, ap length front, h))
              (omega (arith, counted, k)) (omega (arith, counted, m)) in
          omega (arith, later, ap length (responses-act sent.0 sent.1 more line))
    ]

-- The first n blocks of the queue are the first n responses that are sent, if there are at least 2 * n
-- rounds, with requests anywhere between them, and the number of the frame does not wrap around.
pub responses-take :
    (static_tsbks : List (List ℕ)) (events : List Event) (c : Channel) (n : ℕ)
    → n ≤ length c.tsbk_queue
    → c.frame_n + rounds events < 2 ^ 64
    → 2 * n ≤ rounds events
    → take n (responses (run static_tsbks events c).0) ≡ take n c.tsbk_queue
responses-take static_tsbks events c n h k m =
    let sent = responses (run static_tsbks events c).0 in
    sym (
      take-prefix n sent (run static_tsbks events c).1.tsbk_queue
        (enough_responses static_tsbks events c n h k (omega arith)))
    ∙ ap (take n) (responses-accepted static_tsbks events c)
    ∙ take-prefix n c.tsbk_queue (accepted static_tsbks events c) h
