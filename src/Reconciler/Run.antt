-- ===== src/Reconciler/Run.antt =====
-- internal/reconciler/reconciler.go, `Run`: a tick at the start, then one at each tick of the timer
-- until the context ends. What happens in between is a sequence of events: the receiver of
-- internal/metrics/otlp.go runs beside the loop, and the platform changes on its own. The ticker, which
-- panics for an interval that is not positive, is in Command/Exit.
pub mod Kept
use ninjascale.Prelude.{ℕ, List, [], ◌∷◌}
use ninjascale.Time.{Time}
use ninjascale.Metrics.{Float}
use ninjascale.Metrics.Otlp.{Formats, Metric, Bindings, process_request}
use ninjascale.Policy.Target.{ExprLang}
use ninjascale.Schedule.{TimeZones}
use ninjascale.Reconciler.{World}
use ninjascale.Reconciler.Tick.{Reconciler, TickReadings, tick}

pub data Event (V A : Type 0) : Type 0 where
  ticked : TickReadings → Event V A
  -- A request, with the instant of its receipt and the clock at each call of `Add`.
  requested : Time → (ℕ → Time) → List (List (List (Metric V))) → Event V A
  platform_changed : A → Event V A
  context_done : Event V A

-- The loop with what it has reached, before and after it has returned.
pub data Loop (V P A : Type 0) : Type 0 where
  looping returned : Reconciler V P A → World V A → Loop V P A

abbrev pub world_of : {V P A : Type 0} → Loop V P A → World V A
world_of (looping r w) = w
world_of (returned r w) = w

-- The end of the context.
abbrev pub ended : {V P A : Type 0} → Loop V P A → Loop V P A
ended (looping r w) = returned r w
ended (returned r w) = returned r w

abbrev pub receive :
    {V A : Type 0}
    → ⦃float : Float V⦄ → Formats V
    → Bindings
    → Time
    → (ℕ → Time)
    → List (List (List (Metric V)))
    → World V A
    → World V A
receive formats bindings received clocks resources w = record w {
  store =
      (process_request formats clocks bindings received resources
        (record { store = w.store; adds = 0 })).store;
}

module _ {V P A : Type 0} ⦃float : Float V⦄ ⦃expr : ExprLang V P⦄ (zones : TimeZones)
    (formats : Formats V) (bindings : Bindings) where
  abbrev pub after_tick : Reconciler V P A × World V A → Loop V P A
  after_tick (r, w) = looping r w

  abbrev pub on_event : Event V A → Reconciler V P A → World V A → Loop V P A
  on_event (ticked at) r w = after_tick (tick zones r at w)
  on_event (requested received clocks resources) r w =
      looping r (receive formats bindings received clocks resources w)
  on_event (platform_changed platform) r w = looping r (record w { platform = platform })
  on_event context_done r w = returned r w

  unfoldable pub run_loop : List (Event V A) → Loop V P A → Loop V P A
  run_loop [] l = l
  run_loop (e ∷ es) (returned r w) = returned r w
  run_loop (e ∷ es) (looping r w) = run_loop es (on_event e r w)

  unfoldable pub run : Reconciler V P A → TickReadings → List (Event V A) → World V A → Loop V P A
  run r at events w = run_loop events (after_tick (tick zones r at w))
