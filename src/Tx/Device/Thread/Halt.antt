-- ===== src/Tx/Device/Thread/Halt.antt =====
-- The part of a call behind the flag of the thread of src/tx/SoapyTx.cpp.
use site_sim.Base.{
  ◌≡◌, refl, sym, ◌∙◌, subst, List, Bool, true, false, Bool-cases, inl, inr, if◌then◌else◌, arith,
}
use site_sim.Tx.Device.{
  Radio, Outcome, make_throws, make_null, later_throws, stream_null, opened, stop_tx, try_open,
}
use site_sim.Tx.Device.Balance.{Call, run_calls}
use site_sim.Tx.Device.Thread.{
  Thread, absent, spawned, draining, streaming, finished, Transmitter, After, done, closes, opens,
  Owner, free, joins, released, finish, halt,
}
use site_sim.Tx.Device.Thread.Stage.{rest_of, Stage, StageOf, IsSound}

pub try_open_running : (outcome : Outcome) (r : Radio) → (try_open outcome r).1.running ≡ r.running
unfolding try_open
try_open_running make_throws r = refl
try_open_running make_null r = refl
try_open_running later_throws r = refl
try_open_running stream_null r = refl
try_open_running opened r = refl

released_running : (r : Radio) → (released r).running ≡ r.running
released_running r = ground arith

-- An idle transmitter: the thread is not there.
pub idle :
    (th : Thread) (running active device stream : Bool)
    → running ≡ false
    → Stage free th running active device stream
    → (th ≡ absent) × (active ≡ false)
idle absent running active device stream off (_, inactive) = (refl, inactive)
idle spawned running active device stream off (on, _) = cc (on, off)
idle draining running active device stream off (on, _) = cc (on, off)
idle streaming running active device stream off (on, _, _, _) = cc (on, off)
idle finished running active device stream off stage = elim stage [ ]

-- A call that goes on without the thread.
pub record IsFinished (after : After) (u v : Transmitter) : Type 0 where
  pub whole : v.broken ≡ false
  pub effect : v.radio ≡ rest_of (joins after) u.radio
  pub off : v.radio.running ≡ false
  pub inactive : v.active ≡ false
  pub gone : v.thread ≡ absent

pub finish-IsFinished :
    (after : After) (u : Transmitter)
    → u.broken ≡ false
    → u.radio.running ≡ false
    → u.active ≡ false
    → u.thread ≡ absent
    → IsFinished after u (finish after u)
unfolding finish
finish-IsFinished done u intact off inactive gone = record {
  whole = intact;
  effect = refl;
  off = off;
  inactive = inactive;
  gone = gone;
}
finish-IsFinished closes u intact off inactive gone = record {
  whole = ground arith;
  effect = refl;
  off = released_running u.radio ∙ off;
  inactive = inactive;
  gone = gone;
}
finish-IsFinished (opens outcome) u intact off inactive gone = record {
  whole = ground arith;
  effect = refl;
  off = try_open_running outcome (released u.radio) ∙ released_running u.radio ∙ off;
  inactive = inactive;
  gone = gone;
}

pub finished-IsSound :
    {r : Radio} {calls : List Call} (after : After) (u v : Transmitter)
    → IsFinished after u v
    → rest_of (joins after) u.radio ≡ run_calls calls r
    → IsSound r calls free v
finished-IsSound after u v f same = record {
  intact = f.whole;
  same = f.effect ∙ same;
  stage =
      subst (λ x. Stage free x v.radio.running v.active v.radio.device v.radio.stream) (sym f.gone)
        (f.off, f.inactive);
}

-- The flag is cleared while the thread is there.
halted :
    (after : After) (th : Thread) (active device stream : Bool)
    → Stage free th true active device stream
    → Stage (joins after) th false active device stream
halted after absent active device stream (h, _) = cc h
halted after spawned active device stream (_, inactive) = (refl, inactive)
halted after draining active device stream (_, inactive) = (refl, inactive)
halted after streaming active device stream (_, a, d, s) = (refl, a, d, s)
halted after finished active device stream stage = elim stage [ ]

pub halt-IsSound :
    {r : Radio} {calls : List Call} (after : After) (u : Transmitter)
    → u.broken ≡ false
    → StageOf free u
    → rest_of (joins after) (stop_tx u.radio) ≡ run_calls calls r
    → IsSound r calls (halt after u).1 (halt after u).0
unfolding halt stop_tx
halt-IsSound {r = r} {calls = calls} after u intact stage same =
    let stopped : Transmitter = record u { radio = stop_tx u.radio } in
    let pick : Bool → Transmitter × Owner =
      λ b. if b then (stopped, joins after) else (finish after stopped, free) in
    elim (Bool-cases u.radio.running) [
      | inl on ↦
          let waiting : IsSound r calls (joins after) stopped = record {
            intact = intact;
            same = same;
            stage = halted after u.thread u.active u.radio.device u.radio.stream (
                subst (λ b. Stage free u.thread b u.active u.radio.device u.radio.stream) on stage);
          } in
          subst (λ b. IsSound r calls (pick b).1 (pick b).0) (sym on) waiting
      | inr off ↦
          let (gone, inactive) =
            idle u.thread u.radio.running u.active u.radio.device u.radio.stream off stage in
          subst (λ b. IsSound r calls (pick b).1 (pick b).0) (sym off)
            (finished-IsSound after stopped (finish after stopped)
              (finish-IsFinished after stopped intact refl inactive gone) same)
    ]
