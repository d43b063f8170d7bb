-- ===== src/Tx/Device/Balance.antt =====
-- Which devices and streams src/tx/SoapyTx.cpp holds and which it loses.
use site_sim.Base.{
  ℕ, suc, ◌+◌, ◌≡◌, refl, sym, subst, ap, ◌∙◌, inl, inr, List, [], ◌∷◌, Bool, true, false,
  Bool-cases, if◌then◌else◌, arith,
}
use site_sim.Tx.Device.{
  Radio, Outcome, make_throws, make_null, later_throws, stream_null, opened, start_tx, stop_tx,
  close, try_open, open_device,
}

-- The calls of the owner.
pub data Call : Type 0 where
  calls_open : Outcome → Call
  calls_close : Call
  calls_start : Call
  calls_stop : Call

abbrev pub run_calls : List Call → Radio → Radio
run_calls [] r = r
run_calls (calls_open outcome ∷ calls) r = run_calls calls (open_device outcome r).1
run_calls (calls_close ∷ calls) r = run_calls calls (close r)
run_calls (calls_start ∷ calls) r = run_calls calls (start_tx r)
run_calls (calls_stop ∷ calls) r = run_calls calls (stop_tx r)

-- The calls of `open` in which an exception comes after the device was made.
abbrev pub thrown : List Call → ℕ
thrown [] = 0
thrown (calls_open later_throws ∷ calls) = suc (thrown calls)
thrown (_ ∷ calls) = thrown calls

abbrev pub held : Bool → ℕ
held b = if b then 1 else 0

-- So many devices are lost: made, not unmade and not held. No stream is lost, and there is a stream
-- exactly if there is a device.
abbrev pub Balanced : ℕ → Radio → Type 0
Balanced lost r =
    (r.made ≡ r.unmade + held r.device + lost)
    × (r.set_up ≡ r.closed + held r.stream)
    × (r.stream ≡ r.device)

pub close_lem :
    (lost : ℕ) (r : Radio) → Balanced lost r → Balanced lost (close r) × ((close r).device ≡ false)
unfolding close stop_tx
close_lem lost r (made, set_up, same) = elim (Bool-cases r.device) [
  | inl e ↦
      let streams = same ∙ e in
      rw (e, streams)
        ((omega (arith, made, ap held e), omega (arith, set_up, ap held streams), refl), refl)
  | inr e ↦ rw e ((omega (arith, made, ap held e), set_up, same ∙ e), refl)
]

try_open-Balanced :
    (outcome : Outcome) (lost : ℕ) (r : Radio)
    → Balanced lost r
    → r.device ≡ false
    → Balanced (lost + thrown (calls_open outcome ∷ [])) (try_open outcome r).1
unfolding try_open
try_open-Balanced make_throws lost r (made, set_up, same) e =
    (omega (arith, made, ap held e), set_up, same ∙ e)
try_open-Balanced make_null lost r (made, set_up, same) e =
    (omega (arith, made, ap held e), set_up, same ∙ e)
try_open-Balanced later_throws lost r (made, set_up, same) e =
    (omega (arith, made, ap held e), set_up, same ∙ e)
try_open-Balanced stream_null lost r (made, set_up, same) e =
    (omega (arith, made, ap held e), omega (arith, set_up, ap held (same ∙ e)), refl)
try_open-Balanced opened lost r (made, set_up, same) e =
    (omega (arith, made, ap held e), omega (arith, set_up, ap held (same ∙ e)), refl)

thrown-cons :
    (outcome : Outcome) (lost : ℕ) (calls : List Call)
    → lost + thrown (calls_open outcome ∷ []) + thrown calls
      ≡ lost + thrown (calls_open outcome ∷ calls)
thrown-cons make_throws lost calls = omega arith
thrown-cons make_null lost calls = omega arith
thrown-cons later_throws lost calls = omega arith
thrown-cons stream_null lost calls = omega arith
thrown-cons opened lost calls = omega arith

closed_first :
    (lost : ℕ) (r : Radio) (b : Bool)
    → Balanced lost r
    → r.device ≡ b
    → Balanced lost (if b then close r else r) × ((if b then close r else r).device ≡ false)
closed_first lost r true h e = close_lem lost r h
closed_first lost r false h e = (h, e)

pub open-Balanced :
    (outcome : Outcome) (lost : ℕ) (r : Radio)
    → Balanced lost r
    → Balanced (lost + thrown (calls_open outcome ∷ [])) (open_device outcome r).1
unfolding open_device
open-Balanced outcome lost r h =
    let (closed, free) = closed_first lost r r.device h refl in
    try_open-Balanced outcome lost (if r.device then close r else r) closed free

-- After any calls, every device that was made is unmade, is held, or is one of those for which an
-- exception came after it was made; no stream is lost, and there is one exactly if there is a device.
pub run_calls-Balanced :
    (calls : List Call) (lost : ℕ) (r : Radio)
    → Balanced lost r
    → Balanced (lost + thrown calls) (run_calls calls r)
unfolding start_tx stop_tx
run_calls-Balanced [] lost r h =
    let e : lost + 0 ≡ lost = omega arith in subst (λ n. Balanced n r) (sym e) h
run_calls-Balanced (calls_open outcome ∷ calls) lost r h =
    let e : lost + thrown (calls_open outcome ∷ []) + thrown calls
        ≡ lost + thrown (calls_open outcome ∷ calls) =
      thrown-cons outcome lost calls in
    subst (λ n. Balanced n (run_calls calls (open_device outcome r).1)) e
      (run_calls-Balanced calls (lost + thrown (calls_open outcome ∷ [])) (open_device outcome r).1
        (open-Balanced outcome lost r h))
run_calls-Balanced (calls_close ∷ calls) lost r h =
    run_calls-Balanced calls lost (close r) (close_lem lost r h).0
run_calls-Balanced (calls_start ∷ calls) lost r h = run_calls-Balanced calls lost (start_tx r) h
run_calls-Balanced (calls_stop ∷ calls) lost r h = run_calls-Balanced calls lost (stop_tx r) h
