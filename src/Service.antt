-- ===== src/Service.antt =====
-- internal/config/config.go, `Service` and `MetricBinding`: a service as the reconciler runs it.
use ninjascale.Prelude.{Option, List, String, ℤ}
use ninjascale.Time.{Duration}
use ninjascale.Schedule.{Schedule}
use ninjascale.Policy.{Policy}

pub record CooldownConfig : Type 0 where
  pub upscale : Duration
  pub downscale : Duration

pub record MetricBinding : Type 0 where
  pub name : String
  pub source : String
  pub query : String
  pub metric : String
  pub attributes : List (String × String)

pub record Service (V P : Type 0) : Type 0 where
  pub name : String
  pub identifier : String
  pub min_count : ℤ
  pub max_count : ℤ
  pub cooldown : CooldownConfig
  pub schedule : Option Schedule
  pub metrics : List MetricBinding
  pub policies : List (Policy V P)
