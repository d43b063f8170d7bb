-- ===== src/Tx/Device/Thread/Calls.antt =====
-- The calls of the owner of the thread of src/tx/SoapyTx.cpp.
use site_sim.Base.{
  ◌≡◌, refl, sym, ap, ◌∙◌, subst, List, [], ◌∷◌, ◌++◌, Bool, true, false, not, ◌||◌, Bool-cases,
  inl, inr, if◌then◌else◌,
}
use site_sim.Tx.Device.{Radio, Outcome, start_tx, stop_tx, close, try_open, open_device}
use site_sim.Tx.Device.Balance.{Call, calls_open, calls_close, calls_start, calls_stop, run_calls}
use site_sim.Tx.Device.Thread.{
  Thread, absent, spawned, draining, streaming, finished, Transmitter, is_absent, After, done,
  closes, opens, free, joins, start_thread, released, finish, halt, begin_call,
}
use site_sim.Tx.Device.Thread.Stage.{Stage, IsSound}
use site_sim.Tx.Device.Thread.Halt.{
  try_open_running, idle, finish-IsFinished, finished-IsSound, halt-IsSound,
}

run_calls-snoc :
    (calls : List Call) (call : Call) (r : Radio)
    → run_calls (calls ++ call ∷ []) r ≡ run_calls (call ∷ []) (run_calls calls r)
run_calls-snoc [] call r = refl
run_calls-snoc (calls_open outcome ∷ calls) call r =
    run_calls-snoc calls call (open_device outcome r).1
run_calls-snoc (calls_close ∷ calls) call r = run_calls-snoc calls call (close r)
run_calls-snoc (calls_start ∷ calls) call r = run_calls-snoc calls call (start_tx r)
run_calls-snoc (calls_stop ∷ calls) call r = run_calls-snoc calls call (stop_tx r)

started_radio : (b : Bool) (x : Radio) → x.running ≡ b → b ≡ true → x ≡ start_tx x
unfolding start_tx
started_radio b x h on = cc

start-IsSound :
    {r : Radio} {calls : List Call} (u : Transmitter)
    → IsSound r calls free u
    → IsSound r (calls ++ calls_start ∷ []) free (start_thread u)
unfolding start_thread start_tx
start-IsSound {r = r} {calls = calls} u sound =
    let more = calls ++ calls_start ∷ [] in
    let whole : start_tx u.radio ≡ run_calls more r =
      ap start_tx sound.same ∙ sym (run_calls-snoc calls calls_start r) in
    let begun : Transmitter = record u {
      radio = record u.radio { running = true };
      thread = spawned;
      broken = u.broken || not (is_absent u.thread);
    } in
    elim (Bool-cases u.radio.running) [
      | inl on ↦
          let kept : IsSound r more free u = record {
            intact = sound.intact;
            same = started_radio u.radio.running u.radio refl on ∙ whole;
            stage = sound.stage;
          } in
          subst (λ b. IsSound r more free (if b then u else begun)) (sym on) kept
      | inr off ↦
          let (gone, inactive) =
            idle u.thread u.radio.running u.active u.radio.device u.radio.stream off sound.stage in
          let new : IsSound r more free begun = record {
            intact =
                ap (λ th. u.broken || not (is_absent th)) gone ∙ ap (λ b. b || false) sound.intact;
            same = whole;
            stage = (refl, inactive);
          } in
          subst (λ b. IsSound r more free (if b then u else begun)) (sym off) new
    ]

-- With no device the thread does not stream, so that a device may come.
unstreamed :
    (th : Thread) (running active device stream device' stream' : Bool)
    → device ≡ false
    → Stage free th running active device stream
    → Stage free th running active device' stream'
unstreamed absent running active device stream device' stream' e stage = stage
unstreamed spawned running active device stream device' stream' e stage = stage
unstreamed draining running active device stream device' stream' e stage = stage
unstreamed streaming running active device stream device' stream' e (_, _, there, _) = cc (there, e)
unstreamed finished running active device stream device' stream' e stage = stage

open_device-device :
    (outcome : Outcome) (r : Radio) (b : Bool)
    → r.device ≡ b
    → (open_device outcome r).1 ≡ (try_open outcome (if b then released (stop_tx r) else r)).1
unfolding open_device close stop_tx
open_device-device outcome r b e =
    ap (λ x. (try_open outcome (if x then released (stop_tx r) else r)).1) e

module _ {r : Radio} {calls : List Call} (u : Transmitter) (sound : IsSound r calls free u) where
  -- What the last call does to the radio.
  last_call : (call : Call) → run_calls (call ∷ []) u.radio ≡ run_calls (calls ++ call ∷ []) r
  last_call call = ap (run_calls (call ∷ [])) sound.same ∙ sym (run_calls-snoc calls call r)

  open-IsSound :
      (outcome : Outcome) (b : Bool)
      → u.radio.device ≡ b
      → let next =
          if b
          then halt (opens outcome) u
          else (record u { radio = (try_open outcome u.radio).1 }, free) in
        IsSound r (calls ++ calls_open outcome ∷ []) next.1 next.0
  open-IsSound outcome true e =
      halt-IsSound (opens outcome) u sound.intact sound.stage
        (sym (open_device-device outcome u.radio true e) ∙ last_call (calls_open outcome))
  open-IsSound outcome false e =
      let next = (try_open outcome u.radio).1 in
      record {
        intact = sound.intact;
        same = sym (open_device-device outcome u.radio false e) ∙ last_call (calls_open outcome);
        stage =
            subst (λ x. Stage free u.thread x u.active next.device next.stream)
              (sym (try_open_running outcome u.radio))
              (unstreamed u.thread u.radio.running u.active u.radio.device u.radio.stream
                next.device next.stream e sound.stage);
      }

  pub begin_call-IsSound :
      (call : Call) → IsSound r (calls ++ call ∷ []) (begin_call call u).1 (begin_call call u).0
  unfolding begin_call close stop_tx
  begin_call-IsSound calls_start = start-IsSound u sound
  begin_call-IsSound calls_stop =
      halt-IsSound done u sound.intact sound.stage (last_call calls_stop)
  begin_call-IsSound calls_close =
      halt-IsSound closes u sound.intact sound.stage (last_call calls_close)
  begin_call-IsSound (calls_open outcome) = open-IsSound outcome u.radio.device refl

-- The thread's end.
pub joined-IsSound :
    {r : Radio} {calls : List Call} (after : After) (u : Transmitter)
    → IsSound r calls (joins after) u
    → u.thread ≡ finished
    → IsSound r calls free (finish after (record u { thread = absent }))
joined-IsSound after u sound ended =
    let (off, inactive) =
      subst (λ th. Stage (joins after) th u.radio.running u.active u.radio.device u.radio.stream)
        ended sound.stage in
    let v : Transmitter = record u { thread = absent } in
    finished-IsSound after v (finish after v)
      (finish-IsFinished after v sound.intact off inactive refl) sound.same
