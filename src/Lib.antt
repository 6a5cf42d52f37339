-- ===== src/Lib.antt =====
-- ninjascale: an autoscaler that reads metrics, evaluates policies and sets the number of running
-- tasks of each service.
--
-- The parts of the program and the files that model them:
--   * internal/metrics/store.go (MetricStore: Add, Snapshot, pruning, sample limits):
--     Metrics and Metrics/Store, with the sorted series in Metrics/Store/Sorted, the limits in
--     Metrics/Store/Limits and Metrics/Store/Eviction and the invariant in
--     Metrics/Store/Invariant. Metrics/Store/Histories, over Metrics/Store/Suffix, has the store as
--     what it means, a map from keys to histories; Metrics/Store/Unscoped has Set, Get and AsMap,
--     Metrics/Store/Retained what a snapshot leaves alone.
--   * internal/metrics/store.go (CompleteBuckets, StatusReason): Metrics/Buckets, with one bucket
--     in Metrics/Buckets/Window, the empty slots in Metrics/Buckets/Gaps and the whole window in
--     Metrics/Buckets/Status.
--   * internal/metrics/prometheus.go (NewPrometheusSource, Query, RoundTrip): Metrics/Prometheus.
--   * internal/metrics/otlp.go (RegisterBinding, processRequest): Metrics/Otlp, with the invariant
--     in Metrics/Otlp/Kept and what a request delivers in Metrics/Otlp/Routed and
--     Metrics/Otlp/Delivered, over Metrics/Otlp/Matched; handleHTTPMetrics and
--     Export in Metrics/Otlp/Endpoint, with which requests count in
--     Metrics/Otlp/Endpoint/Answered; NewOTLPReceiver, Start and Stop in Metrics/Otlp/Lifecycle.
--   * internal/testutil (FakeClock, Keys): Testing.
--   * internal/policy: Policy (the interface), Policy/Decision (its answers), Policy/Window
--     (thresholds over completed buckets; Policy/Window/Breach, Policy/Window/Wanted and
--     Policy/Window/Sustained say when they decide) and Policy/Target (expressions over the
--     latest values; Policy/Target/Outcome
--     says what they see).
--   * internal/schedule/schedule.go: Schedule, with the texts and entries in Schedule/Clock and
--     the choice of an entry in Schedule/Active.
--   * internal/config/config.go: Service (the runtime types), Config (the types of the file,
--     applyDefaults and MetricRetention), Config/Defaults and Config/Retention; validate in
--     Config/Validate, over Config/Bindings, Config/Calendar and Config/Thresholds, each with the
--     children Accepted on what it lets through and Complete on that it lets all of it through
--     (the single fields in Config/Validate/Fields);
--     BuildServices in Config/Build, with its totality in Config/Build/Total and what it makes of a
--     service in Config/Described; LoadFile,
--     LoadFromEnvOrFile and Parse in Config/Load.
--   * internal/adapter: Adapter (the interface), Adapter/Memory, Adapter/Ecs (with the batched
--     lookup in Adapter/Ecs/Batches) and Adapter/Selection (New and the constructors).
--   * internal/server/server.go: Server/Health (the readiness probe and its cache, with the age
--     of its answers in Server/Health/Fresh, and requests at the same time in
--     Server/Health/Interleaved) and Server/Exported (the Record functions).
--   * cmd/ninjascale/main.go: Command (main and run, up to the loop), with Command/Started on
--     which configurations start, Command/Registered, Command/Routed and Command/Only on what the
--     receiver then routes, Command/Kept on the whole program's run, Command/Exit with the signals
--     and the exit code, and Command/Steps and Command/Ended on when the process ends.
--   * internal/reconciler/reconciler.go: Reconciler (computeDesired, clamp, canScale,
--     recordScaleEvent), Reconciler/Pass (reconcileService) and Reconciler/Tick (New, Tick,
--     polling); Reconciler/Desired, Reconciler/Carried, Reconciler/Effects, Reconciler/Outcome,
--     over Reconciler/Conditions, Reconciler/Cooldown and Reconciler/Spacing say what a pass and
--     a sequence of passes do, Reconciler/Ticks what a tick keeps. Reconciler/Progress says when
--     a pass does scale, Reconciler/Demand that it scales for a policy that asks for more,
--     Reconciler/Called and Reconciler/Cause for what reason it scales at all, and
--     Reconciler/Unordered that the order of the store's map plays no role. Reconciler/Run is
--     the loop of Run, with what it keeps in Reconciler/Run/Kept.
--   * Prelude has the shared lists, integers, machine words, maps and the binary search of
--     sort.Search; Time has Go's instants and durations; Examples has a small installation, tests
--     and witnesses.
--
-- How they interact: main loads a configuration, and run makes the store, the sources, the
-- adapter, the services and the receiver's bindings from it and starts the loop. Tick polls the
-- metric sources into the store, asks the adapter for all counts and runs reconcileService for
-- each service. A pass takes a snapshot of the store, hands it to every policy of the service,
-- combines the decisions, clamps them to the active bounds, asks the cooldown state, calls the
-- adapter and records the event, which resets the window policies.
--
-- How the model stands to the code:
--   * State is passed explicitly: World holds the store, the cooldown state, the platform and the
--     calls of the Record functions; a service holds its policies, whose reset cutoffs change. A
--     method that holds a lock is one step. The platform can be any type, with any adapter.
--   * A map is an association list; the order of the list stands for the order of a range loop,
--     which Go leaves open. A slice is a list.
--   * An instant is the number of nanoseconds since Go's zero time, without a bound; durations
--     and counts that are computed wrap at 64 bits (int32 for the ECS request), and the
--     difference of two instants saturates as time.Sub does. Each reading of a clock is an
--     argument.
--   * float64 is the interface Float, the expression language (expr-lang) the interface ExprLang,
--     the time zone database TimeZones, the AWS client EcsClient, client_golang's metrics Registry,
--     the Prometheus API a field of PrometheusSource; none of them has a definition here.
--   * Fuel: the binary search runs on the length of the slice, describe_batches on the number of
--     requested services (each round takes at least one), and the eviction loop on the excess
--     (each round takes one sample away).
--   * What the process asks of its surroundings (files, variables, base64, YAML, the creation of
--     clients, whether a port can be listened on, the body of an HTTP request) are the fields of
--     Host, PrometheusClients, AwsClients, Environment and Transport. An error of the code is a
--     constructor of an error type, with what its text names; following a nil pointer is an error
--     too.
--   * The loop of Run is a list: what the select and the receiver do in turn is any sequence of
--     events, and the end of the context is one of them. In Command/Exit the loop sees that end
--     only after a signal. The two locked sections of concurrent probes are the steps of a
--     relation.
--
-- Not modelled: log lines and the text of formatted reasons (a reason keeps the format's
-- arguments); the exposition of the metrics (internal/server/server.go), the calls that stop the
-- listeners when run returns (cmd/ninjascale/main.go), and the servers of net/http and gRPC, of
-- which only whether an address can be listened on plays a role. Memory has no limit: the
-- allocations of the code (make in CompleteBuckets, internal/metrics/store.go, panics for a capacity
-- that memory cannot hold) never fail.
pub mod Prelude
pub mod Time
pub mod Testing
pub mod Metrics
pub mod Policy
pub mod Schedule
pub mod Service
pub mod Config
pub mod Adapter
pub mod Reconciler
pub mod Server
pub mod Command
mod Examples
