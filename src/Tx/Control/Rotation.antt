-- ===== src/Tx/Control/Rotation.antt =====
-- The system messages that `producerThread` of src/tx/ControlChannel.cpp sends.
pub mod Blocks
use site_sim.Base.{
  ℕ, zero, suc, ◌+◌, ◌-◌, ◌*◌, ◌%◌, ◌^◌, ◌≤◌, ◌<◌, ◌≡◌, inl, inr, refl, sym, ap, ap₂, ◌∙◌, List, [],
  ◌∷◌, Bool-cases, length, get_or, ltb, arith,
}
use site_sim.Tx.Control.{Channel, SysName, sync, sys_names, queue_tsbk}
use site_sim.Tx.Control.Round.{producer_round_cases}
use site_sim.Tx.Control.Run.{
  Event, round, request, producer_round, run, rounds, broadcasts, broadcasts-sys, broadcasts-act,
}

-- The names of the rotation, from a place on.
abbrev pub rotation : ℕ → ℕ → List SysName
rotation k zero = []
rotation k (suc n) = get_or sys_names (k % 5) sync ∷ rotation (k + 1) n

pub queue_tsbk-same :
    (c : Channel) (tsbk : List ℕ)
    → ((queue_tsbk c tsbk).sys_idx ≡ c.sys_idx) × ((queue_tsbk c tsbk).frame_n ≡ c.frame_n)
unfolding queue_tsbk
queue_tsbk-same c tsbk = elim (Bool-cases (ltb (length c.tsbk_queue) 128)) [
  | inl e ↦ rw e (refl, refl)
  | inr e ↦ rw e (refl, refl)
]

broadcasts-order :
    (static_tsbks : List (List ℕ)) (events : List Event) (c : Channel)
    → broadcasts (run static_tsbks events c).0
      ≡ rotation c.sys_idx (length (broadcasts (run static_tsbks events c).0))
broadcasts-order static_tsbks [] c = refl
broadcasts-order static_tsbks (request tsbk ∷ events) c =
    broadcasts-order static_tsbks events (queue_tsbk c tsbk)
    ∙ ap (λ k. rotation k (length (broadcasts (run static_tsbks events (queue_tsbk c tsbk)).0)))
        (queue_tsbk-same c tsbk).0
broadcasts-order static_tsbks (round clock ∷ events) c =
    let (sent, c') = producer_round static_tsbks clock c in
    let (more, c'') = run static_tsbks events c' in
    let later = broadcasts-order static_tsbks events c' in
    elim (producer_round_cases static_tsbks clock c).0 [
      | inl (line, _, next, _) ↦
          let one =
            broadcasts-sys sent.0 (get_or sys_names (c.sys_idx % 5) sync) sent.1 more line in
          one
          ∙ ap (◌∷◌ (get_or sys_names (c.sys_idx % 5) sync))
              (later ∙ ap (λ k. rotation k (length (broadcasts more))) next)
          ∙ ap (λ xs. rotation c.sys_idx (length xs)) (sym one)
      | inr (line, _, same, _) ↦
          let none_sent = broadcasts-act sent.0 sent.1 more line in
          none_sent ∙ later ∙ ap₂ (λ k xs. rotation k (length xs)) same (sym none_sent)
    ]

broadcasts-often :
    (static_tsbks : List (List ℕ)) (events : List Event) (c : Channel)
    → c.frame_n + rounds events < 2 ^ 64
    → rounds events
      ≤ 5 * length (broadcasts (run static_tsbks events c).0) + (5 - c.frame_n % 5) % 5
broadcasts-often static_tsbks [] c h = omega arith
broadcasts-often static_tsbks (request tsbk ∷ events) c h =
    let (_, same) = queue_tsbk-same c tsbk in
    let later = broadcasts-often static_tsbks events (queue_tsbk c tsbk) (omega (arith, same, h)) in
    omega (arith, later, same)
broadcasts-often static_tsbks (round clock ∷ events) c h =
    let (sent, c') = producer_round static_tsbks clock c in
    let (more, c'') = run static_tsbks events c' in
    let (sort, (_, counted)) = producer_round_cases static_tsbks clock c in
    let later = broadcasts-often static_tsbks events c' (omega (arith, counted, h)) in
    elim sort [
      | inl (line, _, _, _) ↦
          omega (arith, later, counted, h, ap length (broadcasts-sys sent.0 _ sent.1 more line))
      | inr (line, _, _, middle) ↦
          omega
            (arith, later, counted, h, middle, ap length (broadcasts-act sent.0 sent.1 more line))
    ]

-- Over rounds and requests in any order in which the number of the frame does not wrap around, the
-- system messages are sent in the order of the rotation, from where it stands, and all rounds but
-- four at most are covered by five for each message sent.
pub broadcasts-rotation :
    (static_tsbks : List (List ℕ)) (events : List Event) (c : Channel)
    → c.frame_n + rounds events < 2 ^ 64
    → (n : ℕ) × (broadcasts (run static_tsbks events c).0 ≡ rotation c.sys_idx n)
      × (rounds events ≤ 5 * n + 4)
broadcasts-rotation static_tsbks events c h = (
  length (broadcasts (run static_tsbks events c).0),
  broadcasts-order static_tsbks events c,
  omega (arith, broadcasts-often static_tsbks events c h),
)
