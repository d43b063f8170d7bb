-- ===== src/Tx/Device/Thread/Stage.antt =====
-- Where the thread of src/tx/SoapyTx.cpp may be, and its turns.
use site_sim.Base.{
  ◌≡◌, refl, sym, ap, ◌∙◌, subst, List, Bool, true, false, not, ◌||◌, Bool-cases, inl, inr,
  if◌then◌else◌, arith,
}
use site_sim.Tx.Ring.{tx_drain}
use site_sim.Tx.Device.{Radio, try_open}
use site_sim.Tx.Device.Balance.{Call, run_calls}
use site_sim.Tx.Device.Thread.{
  Thread, absent, spawned, draining, streaming, finished, misuses, deactivated, streamed,
  Transmitter, done, closes, opens, Owner, free, joins, begin_thread, drain_turn, stream_turn,
  turn_of, thread_turn, released,
}

-- What the owner has still to do to the radio.
abbrev pub rest_of : Owner → Radio → Radio
rest_of free r = r
rest_of (joins done) r = r
rest_of (joins closes) r = released r
rest_of (joins (opens outcome)) r = (try_open outcome (released r)).1

-- Where the thread may be, by whether the owner waits for it: `m_running`, whether the stream is
-- activated, and whether there are a device and a stream.
abbrev pub Stage : Owner → Thread → Bool → Bool → Bool → Bool → Type 0
Stage free absent running active device stream = (running ≡ false) × (active ≡ false)
Stage free spawned running active device stream = (running ≡ true) × (active ≡ false)
Stage free draining running active device stream = (running ≡ true) × (active ≡ false)
Stage free streaming running active device stream =
    (running ≡ true) × (active ≡ true) × (device ≡ true) × (stream ≡ true)
Stage free finished running active device stream = ⊥
Stage (joins after) absent running active device stream = ⊥
Stage (joins after) spawned running active device stream = (running ≡ false) × (active ≡ false)
Stage (joins after) draining running active device stream = (running ≡ false) × (active ≡ false)
Stage (joins after) streaming running active device stream =
    (running ≡ false) × (active ≡ true) × (device ≡ true) × (stream ≡ true)
Stage (joins after) finished running active device stream = (running ≡ false) × (active ≡ false)

abbrev pub StageOf : Owner → Transmitter → Type 0
StageOf o u = Stage o u.thread u.radio.running u.active u.radio.device u.radio.stream

-- The transmitter is sound: the calls so far have done to the radio what they do without a thread.
pub record IsSound (r : Radio) (calls : List Call) (o : Owner) (u : Transmitter) : Type 0 where
  pub intact : u.broken ≡ false
  pub same : rest_of o u.radio ≡ run_calls calls r
  pub stage : StageOf o u

-- A turn leaves the radio alone.
pub turn_of_radio : (th : Thread) (u : Transmitter) → (turn_of th u).radio ≡ u.radio
turn_of_radio absent u = refl
turn_of_radio spawned u = elim (Bool-cases (not u.radio.stream || not u.radio.device)) [
  | inl e ↦ rw e refl
  | inr e ↦ rw e refl
]
turn_of_radio draining u = elim (Bool-cases u.radio.running) [
  | inl e ↦ rw e refl
  | inr e ↦ rw e refl
]
turn_of_radio streaming u = elim (Bool-cases u.radio.running) [
  | inl e ↦ rw e refl
  | inr e ↦ rw e refl
]
turn_of_radio finished u = refl

-- A turn is sound where the thread is.
record IsStaged (o : Owner) (u : Transmitter) : Type 0 where
  whole : u.broken ≡ false
  at : StageOf o u

stays :
    (o : Owner) (th : Thread) (u : Transmitter)
    → u.thread ≡ th
    → u.broken ≡ false
    → Stage o th u.radio.running u.active u.radio.device u.radio.stream
    → IsStaged o u
stays o th u e intact stage = record {
  whole = intact;
  at = subst (λ x. Stage o x u.radio.running u.active u.radio.device u.radio.stream) (sym e) stage;
}

both : (a b : Bool) → (not a || not b) ≡ false → (a ≡ true) × (b ≡ true)
both a b h = ground arith

begin-IsStaged :
    (o : Owner) (u : Transmitter)
    → u.broken ≡ false
    → Stage o spawned u.radio.running u.active u.radio.device u.radio.stream
    → IsStaged o (begin_thread u)
begin-IsStaged free u intact (on, off) =
    elim (Bool-cases (not u.radio.stream || not u.radio.device)) [
      | inl e ↦ rw e (record { whole = intact; at = (on, off) })
      | inr e ↦
          let there = both u.radio.stream u.radio.device e in
          rw e (record { whole = intact; at = (on, refl, there.1, there.0) })
    ]
begin-IsStaged (joins after) u intact (on, off) =
    elim (Bool-cases (not u.radio.stream || not u.radio.device)) [
      | inl e ↦ rw e (record { whole = intact; at = (on, off) })
      | inr e ↦
          let there = both u.radio.stream u.radio.device e in
          rw e (record { whole = intact; at = (on, refl, there.1, there.0) })
    ]

drain-IsStaged :
    (o : Owner) (u : Transmitter)
    → u.thread ≡ draining
    → u.broken ≡ false
    → Stage o draining u.radio.running u.active u.radio.device u.radio.stream
    → IsStaged o (drain_turn u)
drain-IsStaged free u e intact (on, off) =
    subst
      (λ b.
        IsStaged free
          (if b then record u { ring = tx_drain u.ring } else record u { thread = finished }))
      (sym on) (stays free draining (record u { ring = tx_drain u.ring }) e intact (on, off))
drain-IsStaged (joins after) u e intact (off, inactive) =
    subst
      (λ b.
        IsStaged (joins after)
          (if b then record u { ring = tx_drain u.ring } else record u { thread = finished }))
      (sym off) (record { whole = intact; at = (off, inactive) })

proper :
    (u : Transmitter)
    → u.broken ≡ false
    → u.radio.device ≡ true
    → u.radio.stream ≡ true
    → misuses u ≡ false
proper u intact device stream = ground arith

stream-IsStaged :
    (o : Owner) (u : Transmitter)
    → u.thread ≡ streaming
    → u.broken ≡ false
    → Stage o streaming u.radio.running u.active u.radio.device u.radio.stream
    → IsStaged o (stream_turn u)
stream-IsStaged free u e intact (on, active, device, stream) =
    subst (λ b. IsStaged free (if b then streamed u else deactivated u)) (sym on)
      (stays free streaming (streamed u) e (proper u intact device stream)
        (on, active, device, stream))
stream-IsStaged (joins after) u e intact (off, active, device, stream) =
    subst (λ b. IsStaged (joins after) (if b then streamed u else deactivated u)) (sym off)
      (record { whole = proper u intact device stream; at = (off, refl) })

turn-IsStaged :
    (o : Owner) (th : Thread) (u : Transmitter)
    → u.thread ≡ th
    → u.broken ≡ false
    → Stage o th u.radio.running u.active u.radio.device u.radio.stream
    → IsStaged o (turn_of th u)
turn-IsStaged o absent u e intact stage = stays o absent u e intact stage
turn-IsStaged o spawned u e intact stage = begin-IsStaged o u intact stage
turn-IsStaged o draining u e intact stage = drain-IsStaged o u e intact stage
turn-IsStaged o streaming u e intact stage = stream-IsStaged o u e intact stage
turn-IsStaged o finished u e intact stage = stays o finished u e intact stage

pub thread_turn-IsSound :
    {r : Radio} {calls : List Call} (o : Owner) (u : Transmitter)
    → IsSound r calls o u
    → IsSound r calls o (thread_turn u)
unfolding thread_turn
thread_turn-IsSound o u sound =
    let staged = turn-IsStaged o u.thread u refl sound.intact sound.stage in
    record {
      intact = staged.whole;
      same = ap (rest_of o) (turn_of_radio u.thread u) ∙ sound.same;
      stage = staged.at;
    }
