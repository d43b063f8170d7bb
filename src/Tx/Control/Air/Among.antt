-- ===== src/Tx/Control/Air/Among.antt =====
-- A block among what is heard of src/tx/ControlChannel.cpp.
use site_sim.Base.{
  ℕ, ◌+◌, ◌%◌, ◌≡◌, ap, List, [], ◌∷◌, ◌++◌, Bool-cases, inl, inr, map, ◌==◌, if◌then◌else◌,
}
use site_sim.Tx.Control.{burst_len}
use site_sim.Tx.Control.Run.{Sent}
use site_sim.Tx.Control.Air.{Heard, block, terminator, on_the_air}

abbrev pub sent_blocks : List Sent → List (List ℕ)
sent_blocks sent = map (λ s. s.1) sent

-- Somewhere among what is heard.
pub record IsAmong (tsbk : List ℕ) (heard : List Heard) : Type 0 where
  pub before : List Heard
  pub after : List Heard
  pub split : heard ≡ before ++ block tsbk ∷ after

-- It is among what is heard from the next number on.
pub behind :
    (tsbk first : List ℕ) (n : ℕ) (tsbks : List (List ℕ))
    → IsAmong tsbk (on_the_air (n + 1) tsbks)
    → IsAmong tsbk (on_the_air n (first ∷ tsbks))
behind tsbk first n tsbks among = elim (Bool-cases ((n + 1) % burst_len == 0)) [
  | inl e ↦ rw e (record {
    before = block first ∷ terminator ∷ among.before;
    after = among.after;
    split = ap (λ t. block first ∷ terminator ∷ t) among.split;
  })
  | inr e ↦ rw e (record {
    before = block first ∷ among.before;
    after = among.after;
    split = ap (λ t. block first ∷ t) among.split;
  })
]

-- It is heard first.
pub in_front :
    (tsbk first : List ℕ) (n : ℕ) (tsbks : List (List ℕ))
    → first ≡ tsbk
    → IsAmong tsbk (on_the_air n (first ∷ tsbks))
in_front tsbk first n tsbks e =
    let later =
      if (n + 1) % burst_len == 0
      then terminator ∷ on_the_air (n + 1) tsbks
      else on_the_air (n + 1) tsbks in
    record { before = []; after = later; split = ap (λ t. block t ∷ later) e }
