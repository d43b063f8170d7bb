-- ===== src/Rx/Singleton/Tests.antt =====
-- Instances for the hooks of src/rx/RxPipeline.cpp.
use site_sim.Base.{ℕ, ◌≡◌, refl, List, [], ◌∷◌, Option, none, some, true, All}
use site_sim.Rx.Singleton.{
  Pipelines, Life, constructed, destroyed, live_all, write_event, elem, write_event-alive,
}

-- A second pipeline is made before the first is destroyed.
abbrev lives : List Life
lives = constructed 1 ∷ constructed 2 ∷ destroyed 1 ∷ []

abbrev new : Pipelines
new = record { pointer = none; alive = [] }

abbrev message : Option (List ℕ)
message = some (83 ∷ 89 ∷ 78 ∷ 67 ∷ 10 ∷ [])

write_event-alive_example :
    All
      (λ (l : ℕ × List ℕ). elem l.0 (live_all lives new).alive ≡ true)
      (write_event (live_all lives new).pointer 1 message)
write_event-alive_example = write_event-alive lives new 1 message refl
