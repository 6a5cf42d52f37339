-- ===== src/Policy/Decision.antt =====
-- internal/policy/policy.go: what a policy answers.
use ninjascale.Prelude.{ℕ, List, Option, String, ℤ}
use ninjascale.Time.{Duration}
use ninjascale.Metrics.{BucketStatus}
use ninjascale.Metrics.Buckets.{StatusText}

pub data Direction : Type 0 where
  upscale downscale : Direction

-- A reason is a format with its arguments; the log shows its text.
pub data Reason (V : Type 0) : Type 0 where
  status_text : StatusText → Reason V
  not_breached : (metric : String) → Direction → Reason V
  breached :
      (metric : String)
      → Direction
      → (threshold : V) → (required : ℤ) → (width : Duration) → Reason V
  expression : (text : String) → (desired : ℤ) → Reason V

pub record ScaleDecision (V : Type 0) : Type 0 where
  pub desired_count : ℤ
  pub reason : Reason V

pub data WindowResult : Type 0 where
  status : BucketStatus → WindowResult
  not_breaching : WindowResult
  breach : WindowResult

pub record WindowEvaluation : Type 0 where
  pub service : String
  pub metric : String
  pub direction : Direction
  pub result : WindowResult
  pub complete_buckets : ℕ

pub record Evaluation (V : Type 0) : Type 0 where
  pub decision : Option (ScaleDecision V)
  pub windows : List WindowEvaluation

pub data EvaluateError : Type 0 where
  metric_missing : String → EvaluateError
  expression_failed : EvaluateError

-- `(Evaluation, error)`.
pub data Evaluated (V : Type 0) : Type 0 where
  ok : Evaluation V → Evaluated V
  err : EvaluateError → Evaluated V
