-- ===== src/Command/Ended.antt =====
-- When the process ends, and with which exit code (cmd/ninjascale/main.go).
use ninjascale.Prelude.{
  ℕ, ◌≡◌, refl, ◌⊎◌, inl, inr, ap, ◌∙◌, Bool, false, Option, none, some, List, ◌∷◌, ◌++◌, String,
  Bool-cases, arith, pos, ◌≤ℤ◌, ◌<ℤ◌,
}
use ninjascale.Prelude.Result.{Result, ok, err, within, reject_if, ◌>>=◌, ◌>>◌}
use ninjascale.Metrics.{Float}
use ninjascale.Metrics.Otlp.{Formats}
use ninjascale.Policy.Target.{ExprLang}
use ninjascale.Schedule.{TimeZones}
use ninjascale.Adapter.Memory.{Counts}
use ninjascale.Config.Load.{Host}
use ninjascale.Reconciler.Tick.{TickReadings}
use ninjascale.Reconciler.Run.{context_done, world_of}
use ninjascale.Command.{Environment, Running, MainError, main}
use ninjascale.Command.Exit.{
  Signal, ProcessEvent, during, signalled, main_failed, ticker_panicked, is_bad_interval,
  or_no_bindings, exit_code, begun, started, process,
}
use ninjascale.Command.Steps.{
  HasSignal, run_process-open, run_process-shutdown, ended_code, world_of-ended, code_cases,
}

-- The exit code that belongs to what `main` starts and to what happens.
abbrev pub IsExit :
    {V P A B : Type 0}
    → Result MainError (Running V P A)
    → List (ProcessEvent V B)
    → Option ℕ
    → Type 0
IsExit (err e) es code = code ≡ some 1
IsExit (ok r) es code =
    ((r.reconciler.interval ≤ℤ pos 0) × (code ≡ some 2))
    ⊎ ((pos 0 <ℤ r.reconciler.interval) × ((code ≡ none) ⊎ ((code ≡ some 0) × HasSignal es)))

module _ {V A : Type 0} (P : Type 0) ⦃float : Float V⦄ ⦃expr : ExprLang V P⦄ (env : Environment V A)
    (zones : TimeZones) (formats : Formats V) where
  started-IsExit :
      (r : Running V P A) (at : TickReadings) (platform : A × Counts)
      (es : List (ProcessEvent V (A × Counts)))
      → (exit_code (ok (started P env zones formats r at platform es)) ≡ none)
        ⊎ ((exit_code (ok (started P env zones formats r at platform es)) ≡ some 0) × HasSignal es)
  unfolding started
  started-IsExit r at platform es =
      code_cases (started P env zones formats r at platform es) (HasSignal es)
        (elim (run_process-open zones formats (or_no_bindings r.receiver) es _ _ false) [
          | inl e ↦ inl e
          | inr (inl e) ↦ absurd (cc e)
          | inr (inr h) ↦ inr h
        ])

  -- The process ends with 1 where the configuration cannot be loaded or the program not be started,
  -- and panics where the interval of the reconciler is not positive, whatever happens. Else it runs
  -- on, or has ended with 0 after a signal.
  pub process-IsExit :
      (host : Host V) (path : String) (dry_run : Bool) (at : TickReadings) (platform : A × Counts)
      (es : List (ProcessEvent V (A × Counts)))
      → IsExit
          (main P env zones host path dry_run)
          es
          (exit_code (process P env zones formats host path dry_run at platform es))
  unfolding process exit_code
  process-IsExit host path dry_run at platform es = go (main P env zones host path dry_run)
    where
      go :
          (m : Result MainError (Running V P A))
          → IsExit m es (
              exit_code (
                within main_failed m >>= (λ r.
                  reject_if (is_bad_interval r.reconciler) ticker_panicked
                  >> ok (started P env zones formats r at platform es))))
      go (err e) = refl
      go (ok r) = elim (Bool-cases (is_bad_interval r.reconciler)) [
        | inl bad ↦ inl (ground arith, rw bad refl)
        | inr good ↦ inr (ground arith, rw good (started-IsExit r at platform es))
      ]

  -- A started process with a positive interval that gets a signal ends with 0 when its loop sees it, in the state that the
  -- loop has reached, whatever comes before, in between and after.
  pub process-shutdown :
      (host : Host V) (path : String) (dry_run : Bool) (r : Running V P A) (at : TickReadings)
      (platform : A × Counts) (before middle after : List (ProcessEvent V (A × Counts)))
      (s : Signal)
      → main P env zones host path dry_run ≡ ok r
      → pos 0 <ℤ r.reconciler.interval
      → let es = before ++ (signalled s ∷ middle) in
        let all = es ++ (during context_done ∷ after) in
        (exit_code (process P env zones formats host path dry_run at platform all) ≡ some 0)
        × (world_of (started P env zones formats r at platform all).loop
            ≡ world_of (started P env zones formats r at platform es).loop)
  unfolding process started
  process-shutdown host path dry_run r at platform before middle after s h positive =
      let e =
        run_process-shutdown zones formats (or_no_bindings r.receiver) before middle after s
          (begun P env zones formats r at platform) in
      let whole : List (ProcessEvent V (A × Counts)) =
        (before ++ (signalled s ∷ middle)) ++ (during context_done ∷ after) in
      let good : is_bad_interval r.reconciler ≡ false = ground arith in
      (
        rw (h, good)
            (ended_code (started P env zones formats r at platform whole)
              (started P env zones formats r at platform (before ++ (signalled s ∷ middle))) e),
        ap world_of e
            ∙ world_of-ended
                (started P env zones formats r at platform (before ++ (signalled s ∷ middle))).loop,
      )
