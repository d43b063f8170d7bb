-- ===== src/Tx/Device/Thread/Life.antt =====
-- The thread of src/tx/SoapyTx.cpp and the calls of its owner in any order.
use site_sim.Base.{
  ◌≡◌, refl, sym, ap, ◌∙◌, subst, List, [], ◌∷◌, ◌++◌, Bool, true, false, not, ◌||◌, Bool-cases,
  inl, inr,
}
use site_sim.Tx.Device.{Radio}
use site_sim.Tx.Device.Balance.{Call, run_calls}
use site_sim.Tx.Device.Thread.{
  Thread, absent, spawned, draining, streaming, finished, Transmitter, is_absent, After, done,
  closes, opens, Owner, free, joins, turn_of, thread_turn, finish, begin_call,
}
use site_sim.Tx.Device.Thread.Stage.{Stage, IsSound, turn_of_radio, thread_turn-IsSound}
use site_sim.Tx.Device.Thread.Calls.{begin_call-IsSound, joined-IsSound}

-- The calls that were begun, in order, where the owner is, and the transmitter.
pub data Reach (t : Transmitter) : List Call → Owner → Transmitter → Type 0 where
  here : Reach t [] free t
  turns :
      {calls : List Call} {o : Owner} {u : Transmitter}
      → Reach t calls o u
      → Reach t calls o (thread_turn u)
  begins :
      {calls : List Call} {u : Transmitter} (call : Call)
      → Reach t calls free u
      → Reach t (calls ++ call ∷ []) (begin_call call u).1 (begin_call call u).0
  joined :
      {calls : List Call} {after : After} {u : Transmitter}
      → Reach t calls (joins after) u
      → u.thread ≡ finished
      → Reach t calls free (finish after (record u { thread = absent }))

Reach-IsSound :
    {t : Transmitter} {calls : List Call} {o : Owner} {u : Transmitter}
    → IsSound t.radio [] free t
    → Reach t calls o u
    → IsSound t.radio calls o u
Reach-IsSound start here = start
Reach-IsSound start (turns reach) = thread_turn-IsSound _ _ (Reach-IsSound start reach)
Reach-IsSound start (begins call reach) = begin_call-IsSound _ (Reach-IsSound start reach) call
Reach-IsSound start (joined reach ended) = joined-IsSound _ _ (Reach-IsSound start reach) ended

-- Nothing runs and nothing is broken.
pub record IsOff (t : Transmitter) : Type 0 where
  pub unbroken : t.broken ≡ false
  pub not_running : t.radio.running ≡ false
  pub no_thread : t.thread ≡ absent
  pub not_active : t.active ≡ false

off-IsSound : (t : Transmitter) → IsOff t → IsSound t.radio [] free t
off-IsSound t off = record {
  intact = off.unbroken;
  same = refl;
  stage =
      subst (λ x. Stage free x t.radio.running t.active t.radio.device t.radio.stream)
        (sym off.no_thread) (off.not_running, off.not_active);
}

abbrev pub is_streaming : Thread → Bool
is_streaming streaming = true
is_streaming _ = false

between_calls :
    (th : Thread) (running active device stream : Bool)
    → Stage free th running active device stream
    → (running ≡ not (is_absent th)) × (active ≡ is_streaming th)
between_calls absent running active device stream (off, inactive) = (off, inactive)
between_calls spawned running active device stream (on, inactive) = (on, inactive)
between_calls draining running active device stream (on, inactive) = (on, inactive)
between_calls streaming running active device stream (on, a, _, _) = (on, a)
between_calls finished running active device stream stage = elim stage [ ]

-- From a transmitter that is off, and however the turns of the thread come between the calls and in them: when
-- the owner is between two calls, the
-- calls have done to the radio what they do without a thread, there is a thread exactly while the flag is
-- set, and the stream is activated exactly while the thread is in the loop with a device. No thread was
-- put in the place of another, the thread used no device or stream that is not there, and no stream was
-- closed while activated.
pub Reach-run_calls :
    (t : Transmitter) (calls : List Call) (u : Transmitter)
    → IsOff t
    → Reach t calls free u
    → (u.radio ≡ run_calls calls t.radio)
      × (u.radio.running ≡ not (is_absent u.thread))
      × (u.active ≡ is_streaming u.thread)
      × (u.broken ≡ false)
Reach-run_calls t calls u off reach =
    let sound = Reach-IsSound (off-IsSound t off) reach in
    let (there, activated) =
      between_calls u.thread u.radio.running u.active u.radio.device u.radio.stream sound.stage in
    (sound.same, there, activated, sound.intact)

-- The thread is past its first test.
abbrev entered : Thread → Bool
entered absent = false
entered spawned = false
entered _ = true

last_turn :
    (th : Thread) (u : Transmitter)
    → u.thread ≡ th
    → u.radio.running ≡ false
    → entered th ≡ true
    → (turn_of th u).thread ≡ finished
last_turn absent u e off h = cc h
last_turn spawned u e off h = cc h
last_turn draining u e off h = rw off refl
last_turn streaming u e off h = rw off refl
last_turn finished u e off h = e

first_turn :
    (th : Thread) (u : Transmitter)
    → u.thread ≡ th
    → u.radio.running ≡ false
    → is_absent th ≡ false
    → entered (turn_of th u).thread ≡ true
first_turn absent u e off h = cc h
first_turn spawned u e off h = elim (Bool-cases (not u.radio.stream || not u.radio.device)) [
  | inl b ↦ rw b refl
  | inr b ↦ rw b refl
]
first_turn draining u e off h = rw off refl
first_turn streaming u e off h = rw off refl
first_turn finished u e off h = ap entered e

-- A thread whose flag is clear is at its end after two turns.
two_turns :
    (u : Transmitter)
    → u.radio.running ≡ false
    → is_absent u.thread ≡ false
    → (thread_turn (thread_turn u)).thread ≡ finished
unfolding thread_turn
two_turns u off there =
    let v = turn_of u.thread u in
    last_turn v.thread v refl (ap (λ (x : Radio). x.running) (turn_of_radio u.thread u) ∙ off)
      (first_turn u.thread u refl off there)

while_waiting :
    (after : After) (th : Thread) (running active device stream : Bool)
    → Stage (joins after) th running active device stream
    → (running ≡ false) × (is_absent th ≡ false)
while_waiting after absent running active device stream stage = elim stage [ ]
while_waiting after spawned running active device stream (off, _) = (off, refl)
while_waiting after draining running active device stream (off, _) = (off, refl)
while_waiting after streaming running active device stream (off, _, _, _) = (off, refl)
while_waiting after finished running active device stream (off, _) = (off, refl)

finish_thread : (after : After) (u : Transmitter) → (finish after u).thread ≡ u.thread
unfolding finish
finish_thread done u = refl
finish_thread closes u = refl
finish_thread (opens outcome) u = refl

-- From a transmitter that is off: while the owner waits for the thread, two turns of it are enough: the thread is at its end, and the call
-- goes on and returns, with the radio as it is without a thread, no thread, and the stream not activated.
pub Reach-joins :
    (t : Transmitter) (calls : List Call) (after : After) (u : Transmitter)
    → IsOff t
    → Reach t calls (joins after) u
    → ((thread_turn (thread_turn u)).thread ≡ finished)
      × (e : Transmitter) × Reach t calls free e
      × (e.radio ≡ run_calls calls t.radio)
      × IsOff e
Reach-joins t calls after u off reach =
    let sound = Reach-IsSound (off-IsSound t off) reach in
    let (cleared, there) =
      while_waiting after u.thread u.radio.running u.active u.radio.device u.radio.stream
        sound.stage in
    let ended = two_turns u cleared there in
    let w : Transmitter = thread_turn (thread_turn u) in
    let e : Transmitter = finish after (record w { thread = absent }) in
    let reached : Reach t calls free e = joined (turns (turns reach)) ended in
    let (same, running, activated, unbroken) = Reach-run_calls t calls e off reached in
    let gone : e.thread ≡ absent = finish_thread after (record w { thread = absent }) in
    (
      ended,
      e,
      reached,
      same,
      record {
        unbroken = unbroken;
        not_running = running ∙ ap (λ th. not (is_absent th)) gone;
        no_thread = gone;
        not_active = activated ∙ ap is_streaming gone;
      },
    )
