-- ===== src/Examples/Ticks.antt =====
-- A request of the OTLP receiver (internal/metrics/otlp.go).
use ninjascale.Prelude.{
  refl, ◌⊎◌, some, none, str_eq, if◌then◌else◌, strip_prefix, string_key, List, ◌≡◌, [], ◌∷◌,
  String, ℤ, pos, arith,
}
use ninjascale.Metrics.Store.{total}
use ninjascale.Metrics.Otlp.{
  Formats, DataPoint, Bindings, gauge, as_int, string_value, process_request, Metric,
}
use ninjascale.Metrics.Otlp.Routed.{add_all}
use ninjascale.Metrics.Otlp.Delivered.{IsRequestOf, process_request-IsRequestOf}
use ninjascale.Metrics.{MetricKey, Sample}
use ninjascale.Metrics.Otlp.Endpoint.{
  Resources, Transport, HttpRequest, decode_request, handle_http_metrics,
}
use ninjascale.Metrics.Otlp.Endpoint.Answered.{Carries, IsError, handle_http_metrics_lem}
use ninjascale.Metrics.Store.Invariant.{IsWellFormed}
use ninjascale.Examples.{whole_float, variables, world, cpu}

world-IsWellFormed : IsWellFormed world.store
unfolding total
world-IsWellFormed = record {
  limit_pos = omega arith;
  ordered = (((omega arith, (omega arith, tt)), ((omega arith, tt), (tt, tt))), tt);
  inhabited = (omega arith, tt);
  capped = (omega arith, tt);
  bounded = omega arith;
}

abbrev formats : Formats ℤ
formats = record { format_int = λ n. "n"; format_float = λ v. "v" }

abbrev bindings : Bindings
bindings = ("load", record { key = cpu; attributes = ("host", "a") ∷ [] } ∷ []) ∷ []

abbrev point : DataPoint ℤ
point = record {
  attributes = ("host", string_value "a") ∷ [];
  time_unix_nano = 0;
  value = as_int (pos 9);
}

abbrev request : List (List (List (Metric ℤ)))
request = ((record { name = "load"; contents = gauge (point ∷ []) } ∷ []) ∷ []) ∷ []

process_request-IsRequestOf_example :
    (ds : List (MetricKey × Sample ℤ)) × IsRequestOf formats bindings (pos 120) request ds
    × (process_request formats
          (λ n. pos 121)
          bindings
          (pos 120)
          request
          (record { store = world.store; adds = 0 })
        ≡ add_all formats (λ n. pos 121) ds (record { store = world.store; adds = 0 }))
process_request-IsRequestOf_example =
    process_request-IsRequestOf formats (λ n. pos 121) bindings (pos 120) request
      (record { store = world.store; adds = 0 })

-- A body is a text; a zipped one begins with a z, and holds the request if it is "point".
abbrev transport : Transport ℤ String
transport = record {
  new_gzip_reader = λ body. strip_prefix "z" body;
  read_all = λ body. some body;
  unmarshal = λ payload. if str_eq payload "point" then some request else none;
}

abbrev upload : HttpRequest String
upload = record { method = "POST"; content_encoding = "gzip"; body = "zpoint" }

handle_http_metrics_lem_example :
    let (r', answer) =
      handle_http_metrics formats
        (λ n. pos 121)
        transport
        bindings
        (pos 120)
        upload
        (record { store = world.store; adds = 0 }) in
    ((resources : Resources ℤ) × Carries transport upload resources
      × (answer.status ≡ 200)
      × (r'
          ≡ process_request formats
              (λ n. pos 121)
              bindings
              (pos 120)
              resources
              (record { store = world.store; adds = 0 })))
    ⊎ (((resources : Resources ℤ) → ¬ Carries transport upload resources)
        × IsError transport answer
        × (r' ≡ record { store = world.store; adds = 0 }))
handle_http_metrics_lem_example =
    handle_http_metrics_lem formats (λ n. pos 121) transport bindings (pos 120) upload
      (record { store = world.store; adds = 0 })

upload_answered :
    (handle_http_metrics formats
      (λ n. pos 121)
      transport
      bindings
      (pos 120)
      upload
      (record { store = world.store; adds = 0 })).1.status
    ≡ 200
unfolding handle_http_metrics decode_request strip_prefix
upload_answered = refl
