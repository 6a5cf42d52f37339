-- ===== src/Examples/Receivers.antt =====
-- Registration of OTLP bindings (cmd/ninjascale/main.go).
use ninjascale.Prelude.{Among, refl, inl, [], ◌∷◌, lookup, insert, String, ℤ}
use ninjascale.Metrics.Otlp.{Binding, register_binding}
use ninjascale.Service.{MetricBinding, Service}
use ninjascale.Command.{register_metrics, register_services}
use ninjascale.Command.Only.{IsKnown, IsFrom, register_services-IsFrom}
use ninjascale.Examples.{web}

abbrev load_binding : MetricBinding
load_binding = record {
  name = "load";
  source = "otlp";
  query = "";
  metric = "system.load";
  attributes = ("host", "a") ∷ [];
}

abbrev loaded : Service ℤ String
loaded = record web { metrics = load_binding ∷ [] }

abbrev load_known : Binding
load_known = record {
  key = record { service = "web"; name = "load" };
  attributes = ("host", "a") ∷ [];
}

load_known-IsKnown : IsKnown "system.load" load_known (register_services (loaded ∷ []) [])
unfolding register_services register_metrics register_binding lookup insert
load_known-IsKnown = inl refl

register_services-IsFrom_example :
    (svc : Service ℤ String) × (m : MetricBinding) × Among svc (loaded ∷ [])
    × Among m svc.metrics
    × IsFrom "system.load" svc.name load_known m
register_services-IsFrom_example =
    register_services-IsFrom "system.load" load_known (loaded ∷ []) load_known-IsKnown
