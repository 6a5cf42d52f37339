-- ===== src/Metrics.antt =====
-- internal/metrics: the data that the metric sources, the store and the policies share.
pub mod Store
pub mod Buckets
pub mod Prometheus
pub mod Otlp
use ninjascale.Prelude.{
  ℕ, ◌≡◌, ◌↔◌, Bool, true, ◌&&◌, arith, String, str_eq, eq_iff, Key, ℤ, if◌then◌else◌, ◌++◌,
}
use ninjascale.Time.{Time}

-- float64, which the checker does not have: the tests and conversions that the program applies to
-- values, as an interface over the type `V` of values. `a > b` is `lt b a`.
pub record Float (V : Type 0) : Type 0 where
  pub lt : V → V → Bool
  pub is_nan : V → Bool
  pub is_inf : V → Bool
  pub zero_value : V
  -- float64(i)
  pub of_int : ℤ → V
  -- int(math.Ceil(v))
  pub ceil : V → ℤ

pub record MetricKey : Type 0 where
  pub service : String
  pub name : String

pub record Sample (V : Type 0) : Type 0 where
  pub value : V
  pub observed_at : Time

pub record Bucket (V : Type 0) : Type 0 where
  pub start : Time
  pub end : Time
  pub sample : Sample V

pub data BucketStatus : Type 0 where
  complete missing stale gap incomplete pre_reset : BucketStatus

-- `==` on the struct.
abbrev pub key_beq : MetricKey → MetricKey → Bool
key_beq a b = str_eq a.service b.service && str_eq a.name b.name

pub key_beq_iff : (a b : MetricKey) → (key_beq a b ≡ true) ↔ (a ≡ b)
key_beq_iff a b = (
  λ h. ground (arith, eq_iff a.service b.service, eq_iff a.name b.name),
  λ h. ground (arith, eq_iff a.service b.service, eq_iff a.name b.name),
)

instance abbrev pub metric_key : Key MetricKey
metric_key = record { beq = key_beq; beq_iff = key_beq_iff }
