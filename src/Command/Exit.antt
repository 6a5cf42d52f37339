-- ===== src/Command/Exit.antt =====
-- The end of the process (cmd/ninjascale/main.go): the signals that `run` waits for, the error with
-- which its loop returns, and the exit code. The calls that stop the parts are left out.
use ninjascale.Prelude.{
  ℕ, Bool, true, false, not, Option, none, some, List, [], ◌∷◌, String, if◌then◌else◌, leb_ℤ, pos,
}
use ninjascale.Prelude.Result.{Result, ok, err, reject_if, within, ◌>>=◌, ◌>>◌}
use ninjascale.Metrics.{Float}
use ninjascale.Metrics.Otlp.{Formats, Bindings}
use ninjascale.Policy.Target.{ExprLang}
use ninjascale.Schedule.{TimeZones}
use ninjascale.Adapter.Memory.{Counts}
use ninjascale.Config.Load.{Host}
use ninjascale.Reconciler.{World}
use ninjascale.Reconciler.Tick.{Reconciler, TickReadings, tick}
use ninjascale.Reconciler.Run.{
  Event, ticked, requested, platform_changed, context_done, Loop, looping, returned, on_event,
  after_tick,
}
use ninjascale.Command.{Environment, Running, MainError, first_world, main}

pub data Signal : Type 0 where
  sigint sigterm : Signal

-- What happens to the process: an event of the loop, or a signal.
pub data ProcessEvent (V A : Type 0) : Type 0 where
  during : Event V A → ProcessEvent V A
  signalled : Signal → ProcessEvent V A

-- The loop, and whether its context is cancelled.
pub record Process (V P A : Type 0) : Type 0 where
  pub loop : Loop V P A
  pub cancelled : Bool

-- `ctx.Err()`: the first where the context was cancelled.
pub data ContextError : Type 0 where
  canceled deadline_exceeded : ContextError

-- `time.NewTicker` panics unless its duration is positive.
abbrev pub is_bad_interval : {V P A : Type 0} → Reconciler V P A → Bool
is_bad_interval r = leb_ℤ r.interval (pos 0)

-- What `Run` returns with. Its context has no deadline.
abbrev pub loop_error : {V P A : Type 0} → Loop V P A → Option ContextError
loop_error (looping r w) = none
loop_error (returned r w) = some canceled

-- `errors.Is(err, context.Canceled)`.
abbrev is_canceled : ContextError → Bool
is_canceled canceled = true
is_canceled deadline_exceeded = false

-- The exit code that `main` has with an error of the loop.
abbrev code_of : Option ContextError → Option ℕ
code_of none = none
code_of (some e) = if not (is_canceled e) then some 1 else some 0

-- Why there is no loop: `main` failed, or the ticker of `Run` panicked.
pub data NoLoop : Type 0 where
  main_failed : MainError → NoLoop
  ticker_panicked : NoLoop

-- The exit code, once the process has ended; that of a panic is 2.
unfoldable pub exit_code : {V P A : Type 0} → Result NoLoop (Process V P A) → Option ℕ
exit_code (err (main_failed e)) = some 1
exit_code (err ticker_panicked) = some 2
exit_code (ok p) = code_of (loop_error p.loop)

abbrev pub or_no_bindings : Option Bindings → Bindings
or_no_bindings none = []
or_no_bindings (some bindings) = bindings

module _ {V P A : Type 0} ⦃float : Float V⦄ ⦃expr : ExprLang V P⦄ (zones : TimeZones)
    (formats : Formats V) where
  -- The loop sees the end of its context only once that is cancelled, and may run on until then.
  abbrev pub on_loop : Bindings → Bool → Event V A → Loop V P A → Loop V P A
  on_loop bindings cancelled e (returned r w) = returned r w
  on_loop bindings cancelled context_done (looping r w) =
      if cancelled then returned r w else looping r w
  on_loop bindings cancelled (ticked at) (looping r w) =
      on_event zones formats bindings (ticked at) r w
  on_loop bindings cancelled (requested received clocks resources) (looping r w) =
      on_event zones formats bindings (requested received clocks resources) r w
  on_loop bindings cancelled (platform_changed platform) (looping r w) =
      on_event zones formats bindings (platform_changed platform) r w

  -- The goroutine that waits for a signal cancels the context.
  abbrev pub on_process : Bindings → ProcessEvent V A → Process V P A → Process V P A
  on_process bindings (during e) p = record p { loop = on_loop bindings p.cancelled e p.loop }
  on_process bindings (signalled s) p = record p { cancelled = true }

  unfoldable pub run_process : Bindings → List (ProcessEvent V A) → Process V P A → Process V P A
  run_process bindings [] p = p
  run_process bindings (e ∷ es) p = run_process bindings es (on_process bindings e p)

  abbrev pub first_process : Bindings → Reconciler V P A → TickReadings → World V A → Process V P A
  first_process bindings r at w = record {
    loop = after_tick zones formats bindings (tick zones r at w);
    cancelled = false;
  }

-- The process: `main`, the first tick, and then what happens.
module _ {V A : Type 0} (P : Type 0) ⦃float : Float V⦄ ⦃expr : ExprLang V P⦄ (env : Environment V A)
    (zones : TimeZones) (formats : Formats V) where
  abbrev pub begun : Running V P A → TickReadings → A × Counts → Process V P (A × Counts)
  begun r at platform =
      first_process zones formats (or_no_bindings r.receiver) r.reconciler at
        (first_world r platform)

  unfoldable pub started :
      Running V P A
      → TickReadings
      → A × Counts
      → List (ProcessEvent V (A × Counts))
      → Process V P (A × Counts)
  started r at platform es =
      run_process zones formats (or_no_bindings r.receiver) es (begun r at platform)

  unfoldable pub process :
      Host V
      → String
      → Bool
      → TickReadings
      → A × Counts
      → List (ProcessEvent V (A × Counts))
      → Result NoLoop (Process V P (A × Counts))
  process host path dry_run at platform es = do
    r ← within main_failed (main P env zones host path dry_run)
    reject_if (is_bad_interval r.reconciler) ticker_panicked
    ok (started r at platform es)
