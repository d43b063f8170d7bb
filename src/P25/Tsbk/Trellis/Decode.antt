-- ===== src/P25/Tsbk/Trellis/Decode.antt =====
-- The encoder always returns on dibits, and its output leads back to its input.
use site_sim.Base.{
  ℕ, zero, suc, ◌+◌, ◌*◌, ◌≡◌, refl, ap, List, [], ◌∷◌, ◌++◌, Option, none, some, length, All,
  All-append, ◌==◌, ◌&&◌, if◌then◌else◌, arith, length-append, Bool, false, IsDibit,
}
use site_sim.P25.Tsbk.Trellis.{trellis_pair, trellis_loop, trellis_encode}

-- Whether the table goes from a state, by a dibit, to a pair.
leads_to : ℕ → ℕ → ℕ → ℕ → Bool
leads_to state d a b = elim (trellis_pair state d) [ none ↦ false | some (x, y) ↦ a == x && b == y ]

-- The dibit that the table turns into a pair, if one does.
pub decode_pair : ℕ → ℕ → ℕ → Option ℕ
decode_pair state a b =
    if leads_to state 0 a b
    then some 0
    else if leads_to state 1 a b
    then some 1
    else if leads_to state 2 a b
    then some 2
    else if leads_to state 3 a b
    then some 3
    else none

pub trellis_decode_from : ℕ → List ℕ → Option (List ℕ)
trellis_decode_from state [] = some []
trellis_decode_from state (a ∷ []) = none
trellis_decode_from state (a ∷ b ∷ out) = elim (decode_pair state a b) [
  | none ↦ none
  | some d ↦ elim (trellis_decode_from d out) [ none ↦ none | some ds ↦ some (d ∷ ds) ]
]

-- What stands before the flush dibit.
pub but_last : List ℕ → List ℕ
but_last [] = []
but_last (d ∷ []) = []
but_last (d ∷ e ∷ ds) = d ∷ but_last (e ∷ ds)

pub trellis_decode : List ℕ → Option (List ℕ)
trellis_decode out = elim (trellis_decode_from 0 out) [ none ↦ none | some ds ↦ some (but_last ds) ]

-- All sixteen entries of the table.
table_entry :
    (state d : ℕ)
    → IsDibit state
    → IsDibit d
    → (a : ℕ) × (b : ℕ) × (trellis_pair state d ≡ some (a, b))
      × (decode_pair state a b ≡ some d)
      × IsDibit a
      × IsDibit b
unfolding trellis_pair decode_pair leads_to
table_entry zero zero hs hd = (0, 2, refl, refl, omega arith, omega arith)
table_entry zero (suc zero) hs hd = (3, 0, refl, refl, omega arith, omega arith)
table_entry zero (suc (suc zero)) hs hd = (0, 1, refl, refl, omega arith, omega arith)
table_entry zero (suc (suc (suc zero))) hs hd = (3, 3, refl, refl, omega arith, omega arith)
table_entry zero (suc (suc (suc (suc d)))) hs hd = absurd (omega arith)
table_entry (suc zero) zero hs hd = (3, 2, refl, refl, omega arith, omega arith)
table_entry (suc zero) (suc zero) hs hd = (0, 0, refl, refl, omega arith, omega arith)
table_entry (suc zero) (suc (suc zero)) hs hd = (3, 1, refl, refl, omega arith, omega arith)
table_entry (suc zero) (suc (suc (suc zero))) hs hd = (0, 3, refl, refl, omega arith, omega arith)
table_entry (suc zero) (suc (suc (suc (suc d)))) hs hd = absurd (omega arith)
table_entry (suc (suc zero)) zero hs hd = (2, 1, refl, refl, omega arith, omega arith)
table_entry (suc (suc zero)) (suc zero) hs hd = (1, 3, refl, refl, omega arith, omega arith)
table_entry (suc (suc zero)) (suc (suc zero)) hs hd = (2, 2, refl, refl, omega arith, omega arith)
table_entry (suc (suc zero)) (suc (suc (suc zero))) hs hd =
    (1, 0, refl, refl, omega arith, omega arith)
table_entry (suc (suc zero)) (suc (suc (suc (suc d)))) hs hd = absurd (omega arith)
table_entry (suc (suc (suc zero))) zero hs hd = (1, 1, refl, refl, omega arith, omega arith)
table_entry (suc (suc (suc zero))) (suc zero) hs hd = (2, 3, refl, refl, omega arith, omega arith)
table_entry (suc (suc (suc zero))) (suc (suc zero)) hs hd =
    (1, 2, refl, refl, omega arith, omega arith)
table_entry (suc (suc (suc zero))) (suc (suc (suc zero))) hs hd =
    (2, 0, refl, refl, omega arith, omega arith)
table_entry (suc (suc (suc zero))) (suc (suc (suc (suc d)))) hs hd = absurd (omega arith)
table_entry (suc (suc (suc (suc s)))) d hs hd = absurd (omega arith)

trellis_loop-cons :
    (state d a b : ℕ) (ds out : List ℕ)
    → trellis_pair state d ≡ some (a, b)
    → trellis_loop d ds ≡ some out
    → trellis_loop state (d ∷ ds) ≡ some (a ∷ b ∷ out)
unfolding trellis_loop
trellis_loop-cons state d a b ds out e f = ground arith

trellis_decode_from-cons :
    (state d a b : ℕ) (ds out : List ℕ)
    → decode_pair state a b ≡ some d
    → trellis_decode_from d out ≡ some ds
    → trellis_decode_from state (a ∷ b ∷ out) ≡ some (d ∷ ds)
unfolding trellis_decode_from
trellis_decode_from-cons state d a b ds out e f = ground arith

-- Both directions of the loop, over dibits.
pub trellis_loop-decode :
    (state : ℕ) (ds : List ℕ)
    → IsDibit state
    → All IsDibit ds
    → (out : List ℕ) × (trellis_loop state ds ≡ some out)
      × (trellis_decode_from state out ≡ some ds)
      × (length out ≡ 2 * length ds)
      × All IsDibit out
unfolding trellis_loop trellis_decode_from
trellis_loop-decode state [] hs hd = ([], refl, refl, refl, tt)
trellis_loop-decode state (d ∷ ds) hs hd =
    let (a, b, e, back, ha, hb) = table_entry state d hs hd.0 in
    let (out, coded, decoded, len, dibits) = trellis_loop-decode d ds hd.0 hd.1 in
    (
      a ∷ b ∷ out,
      trellis_loop-cons state d a b ds out e coded,
      trellis_decode_from-cons state d a b ds out back decoded,
      omega arith,
      (ha, (hb, dibits)),
    )

but_last-append : (ds : List ℕ) (d : ℕ) → but_last (ds ++ d ∷ []) ≡ ds
unfolding but_last
but_last-append [] d = refl
but_last-append (x ∷ []) d = refl
but_last-append (x ∷ y ∷ ds) d = ap (λ t. x ∷ t) (but_last-append (y ∷ ds) d)

trellis_decode-last :
    (out ds : List ℕ)
    → trellis_decode_from 0 out ≡ some (ds ++ 0 ∷ [])
    → trellis_decode out ≡ some ds
unfolding trellis_decode
trellis_decode-last out ds e = ground (arith, but_last-append ds 0)

-- On dibits the encoder returns twice as many dibits and two for the flush, and the decoder gets
-- the input back from them.
pub trellis_decode-encode :
    (ds : List ℕ)
    → All IsDibit ds
    → (out : List ℕ) × (trellis_encode ds ≡ some out)
      × (trellis_decode out ≡ some ds)
      × (length out ≡ 2 * length ds + 2)
      × All IsDibit out
unfolding trellis_encode
trellis_decode-encode ds h =
    let (out, coded, decoded, len, dibits) =
      trellis_loop-decode 0 (ds ++ 0 ∷ []) (omega arith)
        (All-append IsDibit ds (0 ∷ []) h (omega arith, tt)) in
    (
      out,
      coded,
      trellis_decode-last out ds decoded,
      omega (arith, len, length-append ds (0 ∷ [])),
      dibits,
    )
