-- ===== src/Rx/Singleton.antt =====
-- `g_rx_pipeline` of src/rx/RxPipeline.cpp, the pipeline that dsd-neo's event log reaches, and the two hooks of
-- dsd-neo. A pipeline is known by a number.
mod Tests
use site_sim.Base.{
  ℕ, ◌≡◌, refl, sym, ap, ◌∙◌, List, [], ◌∷◌, Option, none, some, Bool, true, false, Bool-cases, inl,
  inr, ◌==◌, ◌||◌, ==-true→eq, ==-false→ne, ==_iff, if◌then◌else◌, map, All, arith,
}
use site_sim.Tx.Control.{Channel}
use site_sim.Rx.Handler.{RxLine, handle_isp_tsbk}
use site_sim.Rx.Lines.{on_write_event}

-- The pointer, and the pipelines between their constructor and their destructor.
pub record Pipelines : Type 0 where
  pub pointer : Option ℕ
  pub alive : List ℕ

pub data Life : Type 0 where
  constructed : ℕ → Life
  destroyed : ℕ → Life

abbrev pub is_pointer : Option ℕ → ℕ → Bool
is_pointer none p = false
is_pointer (some q) p = q == p

pub without : ℕ → List ℕ → List ℕ
without p [] = []
without p (q ∷ qs) = let rest = without p qs in if q == p then rest else q ∷ rest

-- The constructor and the destructor.
pub live : Life → Pipelines → Pipelines
live (constructed p) s = record { pointer = some p; alive = p ∷ s.alive }
live (destroyed p) s = record {
  pointer = if is_pointer s.pointer p then none else s.pointer;
  alive = without p s.alive;
}

abbrev pub live_all : List Life → Pipelines → Pipelines
live_all [] s = s
live_all (life ∷ lives) s = live_all lives (live life s)

-- `onWriteEvent`: the pipeline whose log gets the line, and the line.
pub write_event : Option ℕ → ℕ → Option (List ℕ) → List (ℕ × List ℕ)
write_event none swrite event_string = []
write_event (some p) swrite none = []
write_event (some p) swrite (some text) = map (λ line. (p, line)) (on_write_event swrite text)

-- `onIspTsbk`, with the pipeline that the engine was given, by its system identifier.
pub on_isp_tsbk : Option ℕ → ℕ → List ℕ → Channel → Channel × List RxLine
on_isp_tsbk none opcode raw cc = (cc, [])
on_isp_tsbk (some sysid) opcode raw cc = handle_isp_tsbk sysid opcode raw cc

abbrev pub elem : ℕ → List ℕ → Bool
elem p [] = false
elem p (q ∷ qs) = (q == p) || elem p qs

elem-without :
    (p q : ℕ) (qs : List ℕ) → (q == p) ≡ false → elem q qs ≡ true → elem q (without p qs) ≡ true
unfolding without
elem-without p q [] e h = h
elem-without p q (x ∷ xs) e h =
    let later = elem-without p q xs e in
    elim (Bool-cases (x == p)) [
      | inl here ↦
          let other : (x == q) ≡ false = not_both x p q (==-true→eq x p here) e in
          rw here (later (ap (λ b. b || elem q xs) (sym other) ∙ h))
      | inr there ↦ rw there (elim (Bool-cases (x == q)) [
        | inl same ↦ ap (λ b. b || elem q (without p xs)) same
        | inr other ↦
            ap (λ b. b || elem q (without p xs)) other
            ∙ later (ap (λ b. b || elem q xs) (sym other) ∙ h)
      ])
    ]
  where
    not_both : (x p q : ℕ) → x ≡ p → (q == p) ≡ false → (x == q) ≡ false
    not_both x p q same apart = elim (Bool-cases (x == q)) [
      | inl h ↦ absurd (==-false→ne q p apart (sym (==-true→eq x q h) ∙ same))
      | inr h ↦ h
    ]

-- The pointer is null or a living pipeline.
abbrev pub points : Option ℕ → List ℕ → Bool
points none alive = true
points (some p) alive = elem p alive

destroyed-points :
    (pointer : Option ℕ) (p : ℕ) (alive : List ℕ)
    → points pointer alive ≡ true
    → points (if is_pointer pointer p then none else pointer) (without p alive) ≡ true
destroyed-points none p alive h = refl
destroyed-points (some q) p alive h = elim (Bool-cases (q == p)) [
  | inl e ↦ rw e refl
  | inr e ↦ rw e (elem-without p q alive e h)
]

live_all-points :
    (lives : List Life) (s : Pipelines)
    → points s.pointer s.alive ≡ true
    → points (live_all lives s).pointer (live_all lives s).alive ≡ true
unfolding live
live_all-points [] s h = h
live_all-points (constructed p ∷ lives) s h =
    live_all-points lives (live (constructed p) s)
      (ap (λ b. b || elem p s.alive) ((==_iff p p).1 refl))
live_all-points (destroyed p ∷ lives) s h =
    live_all-points lives (live (destroyed p) s) (destroyed-points s.pointer p s.alive h)

reached :
    (p : ℕ) (alive : List ℕ) (lines : List (List ℕ))
    → elem p alive ≡ true
    → All (λ (l : ℕ × List ℕ). elem l.0 alive ≡ true) (map (λ line. (p, line)) lines)
reached p alive [] h = tt
reached p alive (line ∷ lines) h = (h, reached p alive lines h)

-- After any constructions and destructions of pipelines, from a pointer that is null or a living pipeline:
-- each line that the event log's hook logs goes to a pipeline that is alive.
pub write_event-alive :
    (lives : List Life) (s : Pipelines) (swrite : ℕ) (event_string : Option (List ℕ))
    → points s.pointer s.alive ≡ true
    → All
        (λ (l : ℕ × List ℕ). elem l.0 (live_all lives s).alive ≡ true)
        (write_event (live_all lives s).pointer swrite event_string)
unfolding write_event
write_event-alive lives s swrite event_string h =
    logged (live_all lives s).pointer (live_all lives s).alive event_string
      (live_all-points lives s h)
  where
    logged :
        (pointer : Option ℕ) (alive : List ℕ) (text : Option (List ℕ))
        → points pointer alive ≡ true
        → All (λ (l : ℕ × List ℕ). elem l.0 alive ≡ true) (write_event pointer swrite text)
    logged none alive text h = tt
    logged (some p) alive none h = tt
    logged (some p) alive (some text) h = reached p alive (on_write_event swrite text) h
