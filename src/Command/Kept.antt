-- ===== src/Command/Kept.antt =====
-- What the whole program keeps while it runs, from `main` (cmd/ninjascale/main.go) over the loop of
-- internal/reconciler/reconciler.go.
use ninjascale.Prelude.{Bool, true, not, ◌&&◌, ◌≡◌, refl, ◌∙◌, List, [], String}
use mathlib.Core.Path.{subst}
use ninjascale.Prelude.Result.{ok, reject_if, within, >>=-ok, >>-ok, within-ok, ok-eq}
use ninjascale.Metrics.{Float}
use ninjascale.Metrics.Otlp.{Formats, Bindings}
use ninjascale.Metrics.Store.Invariant.{IsWellFormed}
use ninjascale.Policy.Target.{ExprLang}
use ninjascale.Schedule.{TimeZones}
use ninjascale.Adapter.Memory.{Counts}
use ninjascale.Adapter.Selection.{new_adapter}
use ninjascale.Config.{Config}
use ninjascale.Config.Build.{build_services}
use ninjascale.Config.Load.{Host, load_from_env_or_file}
use ninjascale.Reconciler.Tick
use ninjascale.Reconciler.Tick.{TickReadings}
use ninjascale.Reconciler.Run.{Event, world_of, run}
use ninjascale.Reconciler.Run.Kept.{outside, run-IsWellFormed, run-dry_run}
use ninjascale.Command.{
  Environment, Running, source_failed, adapter_failed, build_failed, receiver_failed, not_loaded,
  open_sources, start_up, with_dry_run, first_world, main,
}
use ninjascale.Command.Started.{new_store}

module _ {V A : Type 0} (P : Type 0) ⦃float : Float V⦄ ⦃expr : ExprLang V P⦄
    (env : Environment V A) where
  -- Whatever it is started from, the store is in order and the flag is that of the configuration.
  start_up-kept :
      (cfg : Config V) (r : Running V P A)
      → start_up P env cfg ≡ ok r
      → IsWellFormed r.store × (r.reconciler.dry_run ≡ cfg.dry_run)
  unfolding start_up Tick.new
  start_up-kept cfg r h =
      let (sources, a, h1) =
        >>=-ok (within source_failed (open_sources env.prometheus cfg.metrics.prometheus [])) _ h in
      let (adapter, b, h2) =
        >>=-ok (within adapter_failed (new_adapter env.aws cfg.adapter)) _ h1 in
      let (services, c, h3) = >>=-ok (within build_failed (build_services P cfg.services)) _ h2 in
      let stopped : Bool =
        cfg.metrics.otlp.enabled && not (env.listens cfg.metrics.otlp.grpc_port) in
      let (d, e) = >>-ok (reject_if stopped receiver_failed) _ h3 in
      subst (λ (x : Running V P A). IsWellFormed x.store × (x.reconciler.dry_run ≡ cfg.dry_run))
        (ok-eq _ refl e) ((new_store cfg).0, refl)

  -- A program that is started keeps the store in order and within its limits at every point of its
  -- run, whatever its flag and configuration.
  pub start_up-run :
      (zones : TimeZones) (cfg : Config V) (r : Running V P A)
      → start_up P env cfg ≡ ok r
      → (formats : Formats V) (bindings : Bindings) (platform : A × Counts) (at : TickReadings)
        (es : List (Event V (A × Counts)))
      → IsWellFormed
          (world_of (run zones formats bindings r.reconciler at es (first_world r platform))).store
  start_up-run zones cfg r h formats bindings platform at es =
      run-IsWellFormed zones formats bindings r.reconciler at es (first_world r platform)
        (start_up-kept cfg r h).0

  with_dry_run-set : (cfg : Config V) → (with_dry_run true cfg).dry_run ≡ true
  unfolding with_dry_run
  with_dry_run-set cfg = refl

  -- With the flag for a dry run the program never touches the platform, whatever the configuration
  -- says and whatever happens while it runs: the platform is what the changes from outside leave.
  pub main-dry_run :
      (zones : TimeZones) (host : Host V) (path : String) (r : Running V P A)
      → main P env zones host path true ≡ ok r
      → (formats : Formats V) (bindings : Bindings) (platform : A × Counts) (at : TickReadings)
        (es : List (Event V (A × Counts)))
      → (world_of (run zones formats bindings r.reconciler at es (first_world r platform))).platform
        ≡ outside es platform
  unfolding main
  main-dry_run zones host path r h formats bindings platform at es =
      let (cfg, a, b) = >>=-ok (within not_loaded (load_from_env_or_file P zones host path)) _ h in
      let (kept, dry) = start_up-kept (with_dry_run true cfg) r (within-ok _ _ b) in
      run-dry_run zones formats bindings r.reconciler at es (first_world r platform)
        (dry ∙ with_dry_run-set cfg)
