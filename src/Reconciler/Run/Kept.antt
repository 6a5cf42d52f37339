-- ===== src/Reconciler/Run/Kept.antt =====
-- What the loop of internal/reconciler/reconciler.go keeps while it runs beside the receiver, and
-- how it ends.
use ninjascale.Prelude.{true, ◌≡◌, refl, ap, ◌∙◌, List, [], ◌∷◌, ◌++◌}
use ninjascale.Metrics.{Float}
use ninjascale.Metrics.Otlp.{Formats, Bindings}
use ninjascale.Metrics.Otlp.Kept.{process_request-IsWellFormed}
use ninjascale.Metrics.Store.Invariant.{IsWellFormed}
use ninjascale.Policy.Target.{ExprLang}
use ninjascale.Schedule.{TimeZones}
use ninjascale.Reconciler.{World}
use ninjascale.Reconciler.Tick.{Reconciler, TickReadings, tick}
use ninjascale.Reconciler.Ticks.{tick-IsWellFormed, tick-dry_run}
use ninjascale.Reconciler.Run.{
  Event, ticked, requested, platform_changed, context_done, Loop, looping, returned, world_of,
  ended, on_event, run_loop, run,
}

-- The platform that only what happens outside the loop leaves, up to the end of the context.
abbrev pub outside : {V A : Type 0} → List (Event V A) → A → A
outside [] platform = platform
outside (ticked at ∷ es) platform = outside es platform
outside (requested received clocks resources ∷ es) platform = outside es platform
outside (platform_changed platform' ∷ es) platform = outside es platform'
outside (context_done ∷ es) platform = platform

module _ {V P A : Type 0} ⦃float : Float V⦄ ⦃expr : ExprLang V P⦄ (zones : TimeZones)
    (formats : Formats V) (bindings : Bindings) where
  on_event-IsWellFormed :
      (e : Event V A) (r : Reconciler V P A) (w : World V A)
      → IsWellFormed w.store
      → IsWellFormed (world_of (on_event zones formats bindings e r w)).store
  on_event-IsWellFormed (ticked at) r w h = tick-IsWellFormed zones r at w h
  on_event-IsWellFormed (requested received clocks resources) r w h =
      process_request-IsWellFormed formats clocks bindings received resources
        (record { store = w.store; adds = 0 }) h
  on_event-IsWellFormed (platform_changed platform) r w h = h
  on_event-IsWellFormed context_done r w h = h

  run_loop-IsWellFormed :
      (es : List (Event V A)) (l : Loop V P A)
      → IsWellFormed (world_of l).store
      → IsWellFormed (world_of (run_loop zones formats bindings es l)).store
  unfolding run_loop
  run_loop-IsWellFormed [] l h = h
  run_loop-IsWellFormed (e ∷ es) (returned r w) h = h
  run_loop-IsWellFormed (e ∷ es) (looping r w) h =
      run_loop-IsWellFormed es _ (on_event-IsWellFormed e r w h)

  -- A well-formed store is well-formed at every point of a run, however ticks, requests of the
  -- receiver and changes of the platform follow each other, and after the run has returned.
  pub run-IsWellFormed :
      (r : Reconciler V P A) (at : TickReadings) (es : List (Event V A)) (w : World V A)
      → IsWellFormed w.store
      → IsWellFormed (world_of (run zones formats bindings r at es w)).store
  unfolding run
  run-IsWellFormed r at es w h = run_loop-IsWellFormed es _ (tick-IsWellFormed zones r at w h)

  tick-settings :
      (r : Reconciler V P A) (at : TickReadings) (w : World V A)
      → (tick zones r at w).0.dry_run ≡ r.dry_run
  unfolding tick
  tick-settings r at w = refl

  run_loop-dry :
      (es : List (Event V A)) (r : Reconciler V P A) (w : World V A)
      → r.dry_run ≡ true
      → (world_of (run_loop zones formats bindings es (looping r w))).platform
        ≡ outside es w.platform
  unfolding run_loop
  run_loop-dry [] r w dry = refl
  run_loop-dry (ticked at ∷ es) r w dry =
      run_loop-dry es _ _ (tick-settings r at w ∙ dry)
      ∙ ap (outside es) (tick-dry_run zones r at w dry)
  run_loop-dry (requested received clocks resources ∷ es) r w dry = run_loop-dry es r _ dry
  run_loop-dry (platform_changed platform ∷ es) r w dry = run_loop-dry es r _ dry
  run_loop-dry (context_done ∷ []) r w dry = refl
  run_loop-dry (context_done ∷ (e ∷ es)) r w dry = refl

  -- In a dry run the platform is at every point what the changes from outside alone leave of it.
  pub run-dry_run :
      (r : Reconciler V P A) (at : TickReadings) (es : List (Event V A)) (w : World V A)
      → r.dry_run ≡ true
      → (world_of (run zones formats bindings r at es w)).platform ≡ outside es w.platform
  unfolding run
  run-dry_run r at es w dry =
      run_loop-dry es _ _ (tick-settings r at w ∙ dry)
      ∙ ap (outside es) (tick-dry_run zones r at w dry)

  run_loop-returned :
      (es : List (Event V A)) (r : Reconciler V P A) (w : World V A)
      → run_loop zones formats bindings es (returned r w) ≡ returned r w
  unfolding run_loop
  run_loop-returned [] r w = refl
  run_loop-returned (e ∷ es) r w = refl

  run_loop-ended :
      (before after : List (Event V A)) (l : Loop V P A)
      → run_loop zones formats bindings (before ++ (context_done ∷ after)) l
        ≡ ended (run_loop zones formats bindings before l)
  unfolding run_loop
  run_loop-ended [] after (returned r w) = refl
  run_loop-ended [] after (looping r w) = run_loop-returned after r w
  run_loop-ended (e ∷ before) after (returned r w) = refl
  run_loop-ended (e ∷ before) after (looping r w) = run_loop-ended before after _

  -- A run whose context ends returns at that point: it leaves what the events before it leave, and
  -- nothing that comes after it has an effect.
  pub run-ended :
      (r : Reconciler V P A) (at : TickReadings) (before after : List (Event V A)) (w : World V A)
      → run zones formats bindings r at (before ++ (context_done ∷ after)) w
        ≡ ended (run zones formats bindings r at before w)
  unfolding run
  run-ended r at before after w = run_loop-ended before after _
