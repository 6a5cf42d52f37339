-- ===== src/Server/Exported.antt =====
-- internal/server/server.go, the metrics and the functions `Record…`, over client_golang and the
-- conversions to float64 as parameters.
use ninjascale.Prelude.{Bool, List, [], ◌∷◌, String, if◌then◌else◌, ℤ, pos}
use ninjascale.Time.{Duration}
use ninjascale.Metrics.{BucketStatus, complete, missing, stale, gap, incomplete, pre_reset}
use ninjascale.Policy.Decision.{
  Direction, upscale, downscale, WindowResult, status, not_breaching, breach,
}
use ninjascale.Reconciler.{
  ScaleDirection, scale_none, scale_up, scale_down, Recorded, current_scale, metric_age,
  window_evaluation, desired_scale, cooldown_active, scale_event, reconcile_latency,
}

-- What the code uses of client_golang, on a state of its own: the methods of a metric, by its name and
-- the values of its labels.
pub record Registry (F E : Type 0) : Type 0 where
  pub inc : String → List String → E → E
  pub set : String → List String → F → E → E
  pub observe : String → List String → F → E → E

-- `float64(n)`, `d.Seconds()` and the test `x < 0`.
pub record Conversion (F : Type 0) : Type 0 where
  pub float : ℤ → F
  pub in_seconds : Duration → F
  pub is_negative : F → Bool

-- `d.String()`.
abbrev pub direction_text : ScaleDirection → String
direction_text scale_up = "up"
direction_text scale_down = "down"
direction_text scale_none = "none"

abbrev pub window_direction_text : Direction → String
window_direction_text upscale = "upscale"
window_direction_text downscale = "downscale"

-- The constants `BucketStatus…`.
abbrev pub status_label : BucketStatus → String
status_label complete = "complete"
status_label missing = "missing"
status_label stale = "stale"
status_label gap = "gap"
status_label incomplete = "incomplete"
status_label pre_reset = "pre_reset"

abbrev pub result_text : WindowResult → String
result_text (status s) = status_label s
result_text not_breaching = "not_breaching"
result_text breach = "breach"

module _ {F E : Type 0} (c : Conversion F) (r : Registry F E) where
  -- `RecordMetricAge` from its second line on.
  abbrev not_below_zero : F → F
  not_below_zero x = if c.is_negative x then c.float (pos 0) else x

  -- The functions `Record…`, by their calls.
  unfoldable pub export : Recorded → E → E
  export (scale_event service direction) =
      r.inc "ninjascale_scale_events_total" (service ∷ direction_text direction ∷ [])
  export (current_scale service count) =
      r.set "ninjascale_current_scale" (service ∷ []) (c.float count)
  export (desired_scale service count) =
      r.set "ninjascale_desired_scale" (service ∷ []) (c.float count)
  export (reconcile_latency service duration) =
      r.observe "ninjascale_reconcile_duration_seconds" (service ∷ []) (c.in_seconds duration)
  export (metric_age service metric age) =
      r.set "ninjascale_metric_age_seconds" (service ∷ metric ∷ [])
        (not_below_zero (c.in_seconds age))
  export (window_evaluation service direction result) =
      r.inc "ninjascale_window_evaluations_total"
        (service ∷ window_direction_text direction ∷ result_text result ∷ [])
  export (cooldown_active service direction active) =
      r.set "ninjascale_cooldown_active" (service ∷ direction_text direction ∷ [])
        (c.float (if active then pos 1 else pos 0))
