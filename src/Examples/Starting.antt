-- ===== src/Examples/Starting.antt =====
-- The configuration of Examples/Loading, started and run (cmd/ninjascale/main.go).
use ninjascale.Prelude.{
  inl, inr, ◌≡◌, refl, true, none, some, List, [], ◌∷◌, ◌++◌, All, String, ℤ, pos, ◌<ℤ◌, arith,
}
use ninjascale.Prelude.Result.{ok}
use ninjascale.Metrics.Prometheus.{new_prometheus_source}
use ninjascale.Config.{apply_defaults, default_service}
use ninjascale.Config.Validate.{validate}
use ninjascale.Config.Validate.Complete.{validate_lem}
use ninjascale.Config.Load.Parsed.{IsLoaded, load_from_env_or_file-IsLoaded}
use ninjascale.Command.{Environment, Running, start_up, with_dry_run, first_world, main}
use ninjascale.Metrics.Store.Invariant.{IsWellFormed}
use ninjascale.Metrics.Otlp.{Formats, Bindings}
use ninjascale.Command.Registered.{Leads}
use ninjascale.Command.Routed.{start_up-Leads}
use ninjascale.Command.Kept.{main-dry_run, start_up-run}
use ninjascale.Reconciler.Tick.{TickReadings}
use ninjascale.Reconciler.Run.{Event, ticked, platform_changed, context_done, world_of, run}
use ninjascale.Command.Exit.{ProcessEvent, during, signalled, sigterm, exit_code, started, process}
use ninjascale.Command.Ended.{IsExit, process-IsExit, process-shutdown}
use ninjascale.Adapter.Memory.{Counts}
use ninjascale.Command.Started.{Opens, IsStarted, start_up-IsStarted}
use ninjascale.Examples.{whole_float, variables, no_zones, readings}
use ninjascale.Examples.Loading.{
  load_binding, web_service, host, filled, file_accepted, file_loaded, file_fits,
}

-- Every client can be created, and answers nothing.
abbrev surroundings : Environment ℤ (List (String × ℤ))
surroundings = record {
  prometheus = record {
    read_token = λ path. none;
    new_api = λ address token. some (λ text at. none);
  };
  aws = λ region. some (record {
    describe_services = λ cluster names table. none;
    update_service = λ cluster service desired table. (table, true);
    describe_clusters = λ names table. none;
  });
  listens = λ grpc_port. true;
}

sources_open : All (Opens surroundings.prometheus) filled.metrics.prometheus
unfolding new_prometheus_source apply_defaults
sources_open = ((_, refl), tt)

start_up-IsStarted_example :
    (r : Running ℤ String (List (String × ℤ))) × (start_up String surroundings filled ≡ ok r)
    × IsStarted filled r
start_up-IsStarted_example =
    start_up-IsStarted String surroundings no_zones filled
      (load_from_env_or_file-IsLoaded String no_zones host "path" filled file_loaded) file_fits
      sources_open (λ region. (_, refl)) refl

flagged_accepted : validate String no_zones (with_dry_run true filled) ≡ ok tt
unfolding validate with_dry_run
flagged_accepted = rw file_accepted refl

flagged-IsLoaded : IsLoaded String no_zones (with_dry_run true filled)
unfolding with_dry_run
flagged-IsLoaded = (
  (validate_lem String no_zones (with_dry_run true filled)).0 flagged_accepted,
  (load_from_env_or_file-IsLoaded String no_zones host "path" filled file_loaded).1,
)

flagged_started :
    (r : Running ℤ String (List (String × ℤ))) × (start_up String surroundings
        (with_dry_run true filled)
      ≡ ok r)
    × IsStarted (with_dry_run true filled) r
unfolding with_dry_run
flagged_started =
    start_up-IsStarted String surroundings no_zones (with_dry_run true filled) flagged-IsLoaded
      file_fits sources_open (λ region. (_, refl)) refl

flagged_main : main String surroundings no_zones host "path" true ≡ ok flagged_started.0
unfolding main
flagged_main = rw (file_loaded, flagged_started.1) refl

abbrev morning : List (Event ℤ (List (String × ℤ) × Counts))
morning =
    platform_changed (("web-svc", pos 3) ∷ [], [])
    ∷ ticked (record { at_poll = pos 124; at_add = λ key. pos 124; of_service = λ name. readings })
    ∷ []

main-dry_run_example :
    (world_of (
      run no_zones
        (record { format_int = λ n. "n"; format_float = λ v. "v" })
        []
        flagged_started.0.reconciler
        (record { at_poll = pos 120; at_add = λ key. pos 120; of_service = λ name. readings })
        morning
        (first_world flagged_started.0 ([], [])))).platform
    ≡ (("web-svc", pos 3) ∷ [], [])
main-dry_run_example =
    main-dry_run String surroundings no_zones host "path" flagged_started.0 flagged_main
      (record { format_int = λ n. "n"; format_float = λ v. "v" }) [] ([], [])
      (record { at_poll = pos 120; at_add = λ key. pos 120; of_service = λ name. readings }) morning

start_up-run_example :
    IsWellFormed
      (world_of (
        run no_zones
          (record { format_int = λ n. "n"; format_float = λ v. "v" })
          []
          flagged_started.0.reconciler
          (record { at_poll = pos 120; at_add = λ key. pos 120; of_service = λ name. readings })
          morning
          (first_world flagged_started.0 ([], [])))).store
start_up-run_example =
    start_up-run String surroundings no_zones (with_dry_run true filled) flagged_started.0
      flagged_started.1 (record { format_int = λ n. "n"; format_float = λ v. "v" }) [] ([], [])
      (record { at_poll = pos 120; at_add = λ key. pos 120; of_service = λ name. readings }) morning

start_up-Leads_example :
    (bindings : Bindings) × (flagged_started.0.receiver ≡ some bindings)
    × Leads (record { service = "web"; name = "load" }) (("host", "a") ∷ []) "system.load" bindings
unfolding with_dry_run apply_defaults default_service
start_up-Leads_example =
    start_up-Leads String surroundings no_zones (with_dry_run true filled) flagged_started.0
      (default_service filled.defaults web_service) load_binding flagged-IsLoaded flagged_started.1
      refl (inl refl) (inr (inl refl)) refl

abbrev texts : Formats ℤ
texts = record { format_int = λ n. "n"; format_float = λ v. "v" }

abbrev at_begin : TickReadings
at_begin = record { at_poll = pos 120; at_add = λ key. pos 120; of_service = λ name. readings }

-- A tick after the signal, and one after the end.
abbrev before_stop : List (ProcessEvent ℤ (List (String × ℤ) × Counts))
before_stop = during (platform_changed (("web-svc", pos 3) ∷ [], [])) ∷ []

abbrev stopping : List (ProcessEvent ℤ (List (String × ℤ) × Counts))
stopping = before_stop ++ (signalled sigterm ∷ during (ticked at_begin) ∷ [])

abbrev past_stop : List (ProcessEvent ℤ (List (String × ℤ) × Counts))
past_stop = stopping ++ (during context_done ∷ during (ticked at_begin) ∷ [])

process-IsExit_example : IsExit (main String surroundings no_zones host "path" true) past_stop (
    exit_code
      (process String surroundings no_zones texts host "path" true at_begin ([], []) past_stop))
process-IsExit_example =
    process-IsExit String surroundings no_zones texts host "path" true at_begin ([], []) past_stop

flagged_interval : pos 0 <ℤ flagged_started.0.reconciler.interval
unfolding with_dry_run apply_defaults
flagged_interval = rw flagged_started.2.paced (omega arith)

process-shutdown_example :
    (exit_code
        (process String surroundings no_zones texts host "path" true at_begin ([], []) past_stop)
      ≡ some 0)
    × (world_of
          (started String surroundings no_zones texts flagged_started.0 at_begin
            ([], [])
            past_stop).loop
        ≡ world_of
            (started String surroundings no_zones texts flagged_started.0 at_begin
              ([], [])
              stopping).loop)
process-shutdown_example =
    process-shutdown String surroundings no_zones texts host "path" true flagged_started.0 at_begin
      ([], []) before_stop (during (ticked at_begin) ∷ []) (during (ticked at_begin) ∷ []) sigterm
      flagged_main flagged_interval
