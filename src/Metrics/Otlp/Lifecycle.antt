-- ===== src/Metrics/Otlp/Lifecycle.antt =====
-- internal/metrics/otlp.go, `NewOTLPReceiver`, `Start` and `Stop`: the receiver with its two servers.
-- Whether an address can be listened on is the parameter `listens`.
use Prim.Native.String.{◌++◌}
use ninjascale.Prelude.{
  ◌≡◌, refl, ◌⊎◌, inl, inr, Bool, true, false, Option, none, some, [], String, ℤ, if◌then◌else◌,
  Bool-cases,
}
use ninjascale.Metrics.Otlp.{Bindings}

-- A server that was made, of gRPC or of net/http. A server that cannot listen is `idle` too: that is
-- only logged.
pub data ServerState : Type 0 where
  idle serving stopped : ServerState

pub record OtlpReceiver (C : Type 0) : Type 0 where
  pub clock : C
  pub grpc_addr : String
  pub http_addr : String
  pub grpc_server : Option ServerState
  pub http_server : Option ServerState
  pub bindings : Bindings

-- `clocks[0]` if it is there and not nil.
abbrev first_clock : {C : Type 0} → C → Option (Option C) → C
first_clock real none = real
first_clock real (some none) = real
first_clock real (some (some clock)) = clock

-- The constructor; `real` is the clock of the system, and `format` writes a number.
unfoldable pub new_otlp_receiver :
    {C : Type 0} → (ℤ → String) → C → Option (Option C) → ℤ → ℤ → OtlpReceiver C
new_otlp_receiver format real clock grpc_port http_port = record {
  clock = first_clock real clock;
  grpc_addr = ":" ++ format grpc_port;
  http_addr = ":" ++ format http_port;
  grpc_server = none;
  http_server = none;
  bindings = [];
}

abbrev pub serve_if : Bool → ServerState
serve_if listens = if listens then serving else idle

abbrev stop_server : Option ServerState → Option ServerState
stop_server none = none
stop_server (some s) = some stopped

stop_server_quiet : (s : Option ServerState) → ¬ (stop_server s ≡ some serving)
stop_server_quiet none e = absurd (cc e)
stop_server_quiet (some s) e = absurd (cc e)

module _ {C : Type 0} where
  -- Whether the receiver starts: false is the error of the gRPC listener.
  unfoldable pub start : (String → Bool) → OtlpReceiver C → OtlpReceiver C × Bool
  start listens o =
      if listens o.grpc_addr
      then (
        record o {
          grpc_server = some serving;
          http_server = some (serve_if (listens o.http_addr));
        },
        true,
      )
      else (record o { grpc_server = some idle }, false)

  unfoldable pub stop : OtlpReceiver C → OtlpReceiver C
  stop o = record o {
    grpc_server = stop_server o.grpc_server;
    http_server = stop_server o.http_server;
  }

  -- No server of the receiver serves.
  abbrev pub IsQuiet : OtlpReceiver C → Type 0
  IsQuiet o = ¬ (o.grpc_server ≡ some serving) × ¬ (o.http_server ≡ some serving)

  -- A start that fails leaves nothing that serves. After one that does not, gRPC is served, and HTTP
  -- as far as its address can be listened on. Stopping ends both, whether the start failed or not.
  pub start-stop :
      (listens : String → Bool) (o : OtlpReceiver C)
      → IsQuiet o
      → ((((start listens o).1 ≡ false) × IsQuiet (start listens o).0)
          ⊎ (((start listens o).1 ≡ true)
              × ((start listens o).0.grpc_server ≡ some serving)
              × ((start listens o).0.http_server ≡ some (serve_if (listens o.http_addr)))))
        × IsQuiet (stop (start listens o).0)
  unfolding start stop
  start-stop listens o quiet = (
    elim (Bool-cases (listens o.grpc_addr)) [
      | inl e ↦ inr (rw e (refl, refl, refl))
      | inr e ↦ inl (rw e (refl, ((λ q. absurd (cc q)), quiet.1)))
    ],
    (stop_server_quiet _, stop_server_quiet _),
  )
