-- ===== src/Examples/Servers.antt =====
-- Probes of internal/server/server.go.
use ninjascale.Prelude.{refl, Option, none, some, [], ◌∷◌, String, pos, ◌-ℤ◌, arith}
use ninjascale.Time.{seconds, sub, saturate}
use ninjascale.Adapter.{Adapter}
use ninjascale.Adapter.Memory.{Counts, memory_adapter}
use ninjascale.Server.Health.{test_cache, store_check}
use ninjascale.Server.Health.Interleaved.{
  Serving, Reach, start, later, hit, miss, checked, IsServing, Reach-IsServing,
}

trouble : Counts → Option String
trouble [] = some "empty"
trouble (c ∷ cs) = none

-- The adapter is healthy only while it runs something.
abbrev moody : Adapter Counts
moody = record memory_adapter { health_check = trouble }

-- Two probes ask the adapter at the same time, and a third meets what the second stored.
two_asking : (s : Serving) × Reach moody (seconds 20) s
unfolding test_cache store_check sub saturate ◌-ℤ◌ trouble
two_asking = (
  _,
  later
      (later
        (later
          (later (later start (miss 0 (seconds 21) (omega arith) refl))
            (miss 1 (seconds 22) (omega arith) refl))
          (checked 0 (seconds 24) [] (1 ∷ []) [] (omega arith) refl))
        (checked 1 (seconds 26) (("web-svc", pos 2) ∷ []) [] [] (omega arith) refl))
      (hit 2 (seconds 30) none (omega arith) refl),
)

Reach-IsServing_example : IsServing moody two_asking.0
unfolding ◌-ℤ◌
Reach-IsServing_example = Reach-IsServing moody (seconds 20) two_asking.0 (omega arith) two_asking.1
