-- ===== src/Tx/Control/Air/Site.antt =====
-- What a subscriber learns of the site from the rotation of src/tx/ControlChannel.cpp.
use site_sim.Base.{
  ℕ, zero, suc, ◌+◌, ◌-◌, ◌%◌, ◌^◌, ◌≤◌, ◌<◌, ◌≡◌, ◌⊎◌, inl, inr, refl, sym, ap, ◌∙◌, List, [], ◌∷◌,
  ◌++◌, some, Bool-cases, List-cases, All, get_or, map, lt→ltb, ◌==◌, arith,
}
use site_sim.P25.Tsbk.Block.Parse.{IsBlock}
use site_sim.Tx.Control.{
  Doubles, SiteConfig, Clock, Channel, SysName, iden_up, net_sts, rfss_sts, adj_sts, sync, sys, act,
  sys_names, sys_tsbks, burst_len, static_sys_count, next_block, sys_slot, finish_round, queue_tsbk,
}
use site_sim.Tx.Control.Round.{producer_round_cases}
use site_sim.Tx.Control.Rotation.{rotation, broadcasts-rotation}
use site_sim.Tx.Control.Run.{
  Event, round, request, producer_round, run, rounds, broadcasts, broadcasts-sys, broadcasts-act,
}
use site_sim.Tx.Control.Air.{
  Heard, block, receive_frame, run_frames, on_the_air, RequestsAreBlocks, receive-run,
}
use site_sim.Tx.Control.Air.Among.{sent_blocks, IsAmong, behind, in_front}

-- The rotation has each name within five.
rotation-split :
    (j n k i : ℕ)
    → j < n
    → (k + j) % 5 ≡ i
    → (front : List SysName) × (rest : List SysName) × (rotation k n
        ≡ front ++ get_or sys_names i sync ∷ rest)
rotation-split zero zero k i h e = absurd (omega arith)
rotation-split zero (suc n) k i h e =
    let same : k % 5 ≡ i = omega (arith, e) in
    ([], rotation (k + 1) n, ap (λ x. get_or sys_names x sync ∷ rotation (k + 1) n) same)
rotation-split (suc j) zero k i h e = absurd (omega arith)
rotation-split (suc j) (suc n) k i h e =
    let (front, rest, later) = rotation-split j n (k + 1) i (omega arith) (omega (arith, e)) in
    (get_or sys_names (k % 5) sync ∷ front, rest, ap (λ t. get_or sys_names (k % 5) sync ∷ t) later)

index_of : SysName → ℕ
index_of iden_up = 0
index_of net_sts = 1
index_of rfss_sts = 2
index_of adj_sts = 3
index_of sync = 4

index_of-get_or : (i : ℕ) → i < 5 → index_of (get_or sys_names i sync) ≡ i
unfolding index_of
index_of-get_or zero h = refl
index_of-get_or (suc zero) h = refl
index_of-get_or (suc (suc zero)) h = refl
index_of-get_or (suc (suc (suc zero))) h = refl
index_of-get_or (suc (suc (suc (suc zero)))) h = refl
index_of-get_or (suc (suc (suc (suc (suc i))))) h = absurd (omega arith)

-- The block of a slot of a static message.
slot-get_or :
    (static_tsbks : List (List ℕ)) (clock : Clock) (c : Channel) (k : ℕ)
    → k < static_sys_count
    → c.sys_idx % burst_len ≡ k
    → (sys_slot static_tsbks clock c).0 ≡ get_or static_tsbks k []
unfolding sys_slot
slot-get_or static_tsbks clock c k h e = rw (e, lt→ltb k static_sys_count h) refl

-- A round sends the block of its slot, or a response.
round_block :
    (static_tsbks : List (List ℕ)) (clock : Clock) (c : Channel)
    → let sent = (producer_round static_tsbks clock c).0 in
      (sent.1 ≡ (sys_slot static_tsbks clock c).0) ⊎ (sent.0 ≡ act)
unfolding next_block sys_slot finish_round
round_block static_tsbks clock c = elim (Bool-cases (c.frame_n % burst_len == 0)) [
  | inl e ↦ rw e (inl refl)
  | inr e ↦ rw e (elim (List-cases c.tsbk_queue) [
    | inl empty ↦ rw empty (inl refl)
    | inr (tsbk, rest, full) ↦ rw full (inr refl)
  ])
]

names-injective :
    (i k : ℕ) → i < 5 → k < 5 → get_or sys_names i sync ≡ get_or sys_names k sync → i ≡ k
names-injective i k h l e = sym (index_of-get_or i h) ∙ ap index_of e ∙ index_of-get_or k l

module _ (static_tsbks : List (List ℕ)) (k : ℕ) (few : k < static_sys_count) where
  -- A round with a system message, with what is heard behind it.
  slot :
      (events : List Event) (c : Channel) (n : ℕ) (clock : Clock) (front rest : List SysName)
      → (producer_round static_tsbks clock c).0.0 ≡ sys (get_or sys_names (c.sys_idx % 5) sync)
      → get_or sys_names (c.sys_idx % 5) sync
          ∷ broadcasts (run static_tsbks events (producer_round static_tsbks clock c).1).0
        ≡ front ++ get_or sys_names k sync ∷ rest
      → ((front rest : List SysName)
          → broadcasts (run static_tsbks events (producer_round static_tsbks clock c).1).0
            ≡ front ++ get_or sys_names k sync ∷ rest
          → IsAmong (get_or static_tsbks k []) (
              on_the_air
                (n + 1)
                (sent_blocks (run static_tsbks events (producer_round static_tsbks clock c).1).0)))
      → IsAmong
          (get_or static_tsbks k [])
          (on_the_air n (sent_blocks (run static_tsbks (round clock ∷ events) c).0))
  slot events c n clock [] rest line h later =
      let (sent, c') = producer_round static_tsbks clock c in
      let (more, c'') = run static_tsbks events c' in
      let index : c.sys_idx % 5 ≡ k =
        names-injective (c.sys_idx % 5) k (omega arith) (omega (arith, few)) (cc h) in
      in_front (get_or static_tsbks k []) sent.1 n (sent_blocks more)
        (elim (round_block static_tsbks clock c) [
          | inl same ↦ same ∙ slot-get_or static_tsbks clock c k few index
          | inr response ↦ cc (line, response)
        ])
  slot events c n clock (x ∷ front) rest line h later =
      let (sent, c') = producer_round static_tsbks clock c in
      let (more, c'') = run static_tsbks events c' in
      behind (get_or static_tsbks k []) sent.1 n (sent_blocks more) (later front rest (cc h))

  -- A static message whose name is sent is heard.
  broadcasts-IsAmong :
      (events : List Event) (c : Channel) (n : ℕ) (front rest : List SysName)
      → broadcasts (run static_tsbks events c).0 ≡ front ++ get_or sys_names k sync ∷ rest
      → IsAmong
          (get_or static_tsbks k [])
          (on_the_air n (sent_blocks (run static_tsbks events c).0))
  broadcasts-IsAmong [] c n [] rest h = cc h
  broadcasts-IsAmong [] c n (x ∷ front) rest h = cc h
  broadcasts-IsAmong (request tsbk ∷ events) c n front rest h =
      broadcasts-IsAmong events (queue_tsbk c tsbk) n front rest h
  broadcasts-IsAmong (round clock ∷ events) c n front rest h =
      let (sent, c') = producer_round static_tsbks clock c in
      let (more, c'') = run static_tsbks events c' in
      elim (producer_round_cases static_tsbks clock c).0 [
        | inl (line, _, _, _) ↦
            slot events c n clock front rest line
              (sym (broadcasts-sys sent.0 (get_or sys_names (c.sys_idx % 5) sync) sent.1 more line)
                ∙ h)
              (λ f r e. broadcasts-IsAmong events c' (n + 1) f r e)
        | inr (line, _, _, _) ↦ behind (get_or static_tsbks k []) sent.1 n (sent_blocks more) (
            broadcasts-IsAmong events c' (n + 1) front rest
              (sym (broadcasts-act sent.0 sent.1 more line) ∙ h))
      ]

-- Over rounds and requests in any order, at least 25 of them rounds, every request a block of twelve bytes,
-- as those that wait, and without a wrap-around of the number of the frame: a receiver of the NAC hears every
-- frame, and among them each of the four static blocks of the site's configuration.
pub site_heard :
    {Double : Type 0} (doubles : Doubles Double) (cfg : SiteConfig Double) (events : List Event)
    (c : Channel) (k : ℕ)
    → k < static_sys_count
    → All IsBlock c.tsbk_queue
    → RequestsAreBlocks events
    → c.frame_n + rounds events < 2 ^ 64
    → 25 ≤ rounds events
    → (before : List Heard) × (after : List Heard) × (map
          (receive_frame cfg.nac)
          (run_frames cfg.nac (sys_tsbks doubles cfg) events c)
        ≡ map some (before ++ block (get_or (sys_tsbks doubles cfg) k []) ∷ after))
site_heard doubles cfg events c k few queued requests small long =
    let static_tsbks = sys_tsbks doubles cfg in
    let (n, order, often) = broadcasts-rotation static_tsbks events c small in
    let (front, rest, found) =
      rotation-split ((k + 5 - c.sys_idx % 5) % 5) n c.sys_idx k (omega (arith, often, long))
        (omega (arith, few)) in
    let among =
      broadcasts-IsAmong static_tsbks k few events c c.frame_n front rest (order ∙ found) in
    (
      among.before,
      among.after,
      receive-run doubles cfg events c queued requests small ∙ ap (map some) among.split,
    )
