-- ===== src/Tx/Control/Air/Blocks.antt =====
-- The producer of src/tx/ControlChannel.cpp sends blocks.
use site_sim.Base.{
  ℕ, zero, suc, ◌%◌, ◌<◌, ◌≡◌, refl, List, [], ◌∷◌, inl, inr, Bool-cases, List-cases, All,
  All-append, length, get_or, ltb, ltb→lt, arith, ◌==◌, subst,
}
use site_sim.P25.Tsbk.Block.Parse.{IsBlock}
use site_sim.P25.Tsbk.Messages.Size.{
  build_net_status_bcast-IsBlock, build_rfss_status_bcast-IsBlock, build_adj_sts_bcast-IsBlock,
  build_iden_up-IsBlock,
}
use site_sim.P25.Tsbk.Sync.Size.{build_sync_bcast-IsBlock}
use site_sim.Tx.Control.{
  Doubles, SiteConfig, Clock, Channel, sys_tsbks, burst_len, static_sys_count, next_block, sys_slot,
  queue_tsbk, finish_round,
}
use site_sim.Tx.Control.Run.{producer_round}

get_or-All {ℓ κ} :
    {A : Type ℓ} (P : A → Type κ) (xs : List A) (n : ℕ) (d : A)
    → All P xs
    → n < length xs
    → P (get_or xs n d)
get_or-All P [] n d h k = absurd (omega arith)
get_or-All P (x ∷ xs) zero d h k = h.0
get_or-All P (x ∷ xs) (suc n) d h k = get_or-All P xs n d h.1 (omega arith)

-- The four blocks of the site.
pub sys_tsbks-AreBlocks :
    {Double : Type 0} (doubles : Doubles Double) (cfg : SiteConfig Double)
    → (length (sys_tsbks doubles cfg) ≡ static_sys_count) × All IsBlock (sys_tsbks doubles cfg)
unfolding sys_tsbks
sys_tsbks-AreBlocks doubles cfg = (
  refl,
  (
    build_iden_up-IsBlock _ _ _ _ _,
    (
      build_net_status_bcast-IsBlock _ _ _ _ _,
      (
        build_rfss_status_bcast-IsBlock _ _ _ _ _ _ _,
        (build_adj_sts_bcast-IsBlock _ _ _ _ _ _, tt),
      ),
    ),
  ),
)

module _ (static_tsbks : List (List ℕ)) (four : length static_tsbks ≡ static_sys_count)
    (good : All IsBlock static_tsbks) where
  sys_slot-IsBlock : (clock : Clock) (c : Channel) → IsBlock (sys_slot static_tsbks clock c).0
  unfolding sys_slot
  sys_slot-IsBlock clock c = elim (Bool-cases (ltb (c.sys_idx % burst_len) static_sys_count)) [
    | inl e ↦ rw e (
        get_or-All IsBlock static_tsbks (c.sys_idx % burst_len) [] good
          (omega (arith, four, ltb→lt (c.sys_idx % burst_len) static_sys_count e)))
    | inr e ↦ rw e (build_sync_bcast-IsBlock clock.utc clock.has_gmtoff clock.gmtoff)
  ]

  -- A round sends a block, and leaves blocks in the queue.
  pub producer_round-IsBlock :
      (clock : Clock) (c : Channel)
      → All IsBlock c.tsbk_queue
      → IsBlock (producer_round static_tsbks clock c).0.1
        × All IsBlock (producer_round static_tsbks clock c).1.tsbk_queue
  unfolding next_block finish_round sys_slot
  producer_round-IsBlock clock c queued = elim (Bool-cases (c.frame_n % burst_len == 0)) [
    | inl e ↦ rw e (sys_slot-IsBlock clock c, queued)
    | inr e ↦ rw e (elim (List-cases c.tsbk_queue) [
      | inl empty ↦ rw empty (sys_slot-IsBlock clock c, queued)
      | inr (tsbk, rest, full) ↦ rw full (subst (All IsBlock) full queued)
    ])
  ]

pub queue_tsbk-AreBlocks :
    (c : Channel) (tsbk : List ℕ)
    → All IsBlock c.tsbk_queue
    → IsBlock tsbk
    → All IsBlock (queue_tsbk c tsbk).tsbk_queue
unfolding queue_tsbk
queue_tsbk-AreBlocks c tsbk queued good = elim (Bool-cases (ltb (length c.tsbk_queue) 128)) [
  | inl e ↦ rw e (All-append IsBlock c.tsbk_queue (tsbk ∷ []) queued (good, tt))
  | inr e ↦ rw e queued
]
