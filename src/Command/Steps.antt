-- ===== src/Command/Steps.antt =====
-- The steps of the process (cmd/ninjascale/main.go): when its loop is still open, and what a signal
-- does to it.
use ninjascale.Prelude.{
  ◌≡◌, refl, ◌⊎◌, inl, inr, ap, ◌∙◌, Bool, true, false, Among, none, some, List, [], ◌∷◌, ◌++◌,
}
use ninjascale.Prelude.Result.{ok}
use ninjascale.Metrics.{Float}
use ninjascale.Metrics.Otlp.{Formats, Bindings}
use ninjascale.Policy.Target.{ExprLang}
use ninjascale.Schedule.{TimeZones}
use ninjascale.Reconciler.{World}
use ninjascale.Reconciler.Tick.{Reconciler}
use ninjascale.Reconciler.Run.{
  Event, Loop, ticked, requested, platform_changed, context_done, looping, returned, world_of,
  ended,
}
use ninjascale.Command.Exit.{
  Signal, ProcessEvent, during, signalled, Process, loop_error, exit_code, run_process, on_process,
}

-- A signal is among the events.
abbrev pub HasSignal : {V A : Type 0} → List (ProcessEvent V A) → Type 0
HasSignal es = (s : Signal) × Among (signalled s) es

behind :
    {V A : Type 0} {X Y : Type 0} (e : Event V A) (es : List (ProcessEvent V A))
    → X ⊎ (Y ⊎ HasSignal es)
    → X ⊎ (Y ⊎ HasSignal (during e ∷ es))
behind e es (inl x) = inl x
behind e es (inr (inl y)) = inr (inl y)
behind e es (inr (inr (s, i))) = inr (inr (s, inr i))

module _ {V P A : Type 0} ⦃float : Float V⦄ ⦃expr : ExprLang V P⦄ (zones : TimeZones)
    (formats : Formats V) (bindings : Bindings) where
  -- A loop that has not returned either has not at the end, or its context was cancelled.
  pub run_process-open :
      (es : List (ProcessEvent V A)) (r : Reconciler V P A) (w : World V A) (c : Bool)
      → (loop_error
            (run_process zones formats bindings es
              (record { loop = looping r w; cancelled = c })).loop
          ≡ none)
        ⊎ ((c ≡ true) ⊎ HasSignal es)
  unfolding run_process
  run_process-open [] r w c = inl refl
  run_process-open (signalled s ∷ es) r w c = inr (inr (s, inl refl))
  run_process-open (during context_done ∷ es) r w true = inr (inl refl)
  run_process-open (during context_done ∷ es) r w false =
      behind context_done es (run_process-open es r w false)
  run_process-open (during (ticked at) ∷ es) r w c =
      behind (ticked at) es (run_process-open es _ _ c)
  run_process-open (during (requested received clocks resources) ∷ es) r w c =
      behind (requested received clocks resources) es (run_process-open es _ _ c)
  run_process-open (during (platform_changed platform) ∷ es) r w c =
      behind (platform_changed platform) es (run_process-open es _ _ c)

  run_process-append :
      (xs ys : List (ProcessEvent V A)) (p : Process V P A)
      → run_process zones formats bindings (xs ++ ys) p
        ≡ run_process zones formats bindings ys (run_process zones formats bindings xs p)
  unfolding run_process
  run_process-append [] ys p = refl
  run_process-append (x ∷ xs) ys p =
      run_process-append xs ys (on_process zones formats bindings x p)

  -- A context that is cancelled stays so.
  run_process-cancelled :
      (es : List (ProcessEvent V A)) (p : Process V P A)
      → p.cancelled ≡ true
      → (run_process zones formats bindings es p).cancelled ≡ true
  unfolding run_process
  run_process-cancelled [] p h = h
  run_process-cancelled (during e ∷ es) p h = run_process-cancelled es _ h
  run_process-cancelled (signalled s ∷ es) p h = run_process-cancelled es _ refl

  run_process-signalled :
      (es : List (ProcessEvent V A)) (s : Signal) (p : Process V P A)
      → (run_process zones formats bindings (signalled s ∷ es) p).cancelled ≡ true
  unfolding run_process
  run_process-signalled es s p = run_process-cancelled es _ refl

  run_process-returned :
      (es : List (ProcessEvent V A)) (r : Reconciler V P A) (w : World V A) (c : Bool)
      → (run_process zones formats bindings es (record { loop = returned r w; cancelled = c })).loop
        ≡ returned r w
  unfolding run_process
  run_process-returned [] r w c = refl
  run_process-returned (during e ∷ es) r w c = run_process-returned es r w c
  run_process-returned (signalled s ∷ es) r w c = run_process-returned es r w true

  run_process-done :
      (es : List (ProcessEvent V A)) (p : Process V P A)
      → p.cancelled ≡ true
      → (run_process zones formats bindings (during context_done ∷ es) p).loop ≡ ended p.loop
  unfolding run_process
  run_process-done es p h = go p.loop refl
    where
      go :
          (l : _)
          → p.loop ≡ l
          → (run_process zones formats bindings (during context_done ∷ es) p).loop ≡ ended l
      go (looping r w) e = rw (e, h) (run_process-returned es r w true)
      go (returned r w) e = rw e (run_process-returned es r w p.cancelled)

  -- A signal and then the end of the context return from the loop, which keeps what it has reached.
  pub run_process-shutdown :
      (before middle after : List (ProcessEvent V A)) (s : Signal) (p : Process V P A)
      → (run_process zones formats bindings
          ((before ++ (signalled s ∷ middle)) ++ (during context_done ∷ after))
          p).loop
        ≡ ended (run_process zones formats bindings (before ++ (signalled s ∷ middle)) p).loop
  run_process-shutdown before middle after s p =
      let es : List (ProcessEvent V A) = before ++ (signalled s ∷ middle) in
      let q : Process V P A = run_process zones formats bindings es p in
      let stopped : q.cancelled ≡ true =
        ap (λ x. x.cancelled) (run_process-append before (signalled s ∷ middle) p)
        ∙ run_process-signalled middle s (run_process zones formats bindings before p) in
      ap (λ x. x.loop) (run_process-append es (during context_done ∷ after) p)
      ∙ run_process-done after q stopped

pub ended_code :
    {V P A : Type 0} (p q : Process V P A) → p.loop ≡ ended q.loop → exit_code (ok p) ≡ some 0
unfolding exit_code
ended_code p q e = go q.loop e
  where
    go : (l : _) → p.loop ≡ ended l → exit_code (ok p) ≡ some 0
    go (looping r w) e = rw e refl
    go (returned r w) e = rw e refl

pub world_of-ended : {V P A : Type 0} (l : Loop V P A) → world_of (ended l) ≡ world_of l
world_of-ended (looping r w) = refl
world_of-ended (returned r w) = refl

pub code_cases :
    {V P A : Type 0} (p : Process V P A) (X : Type 0)
    → (loop_error p.loop ≡ none) ⊎ X
    → (exit_code (ok p) ≡ none) ⊎ ((exit_code (ok p) ≡ some 0) × X)
unfolding exit_code
code_cases p X (inl e) = inl (rw e refl)
code_cases p X (inr x) = go p.loop refl
  where
    go : (l : _) → p.loop ≡ l → (exit_code (ok p) ≡ none) ⊎ ((exit_code (ok p) ≡ some 0) × X)
    go (looping r w) e = inl (rw e refl)
    go (returned r w) e = inr (rw e refl, x)
