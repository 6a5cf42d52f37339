-- ===== src/Policy/Window.antt =====
-- internal/policy/window.go: thresholds over consecutive completed buckets.
pub mod Breach
pub mod Wanted
pub mod Sustained
use ninjascale.Prelude.{
  ℕ, Bool, true, false, not, Option, none, some, List, [], ◌∷◌, ◌++◌, String, if◌then◌else◌, ℤ, pos,
  ◌+ℤ◌, ◌-ℤ◌, int64, quot, length, all,
}
use ninjascale.Time.{Time, Duration, zero_time}
use ninjascale.Metrics.{Float, MetricKey, Bucket, BucketStatus, complete}
use ninjascale.Metrics.Store.{Series}
use ninjascale.Metrics.Buckets.{complete_buckets, status_reason}
use ninjascale.Policy.Decision.{
  Direction, upscale, downscale, Reason, status_text, not_breached, breached, ScaleDecision, status,
  WindowResult, not_breaching, breach, WindowEvaluation, Evaluation,
}

pub record WindowThreshold (V : Type 0) : Type 0 where
  pub threshold : V
  pub sustained_for : Duration
  pub step : ℤ

-- `reset_cutoff` is read and written under a lock, a step each.
pub record WindowPolicy (V : Type 0) : Type 0 where
  pub service : String
  pub metric : String
  pub bucket_duration : Duration
  pub upscale_when : Option (WindowThreshold V)
  pub downscale_when : Option (WindowThreshold V)
  pub reset_cutoff : Time

-- The three results of `evaluateDirection`.
pub record Verdict (V : Type 0) : Type 0 where
  pub decision : Option (ScaleDecision V)
  pub breached : Bool
  pub observation : WindowEvaluation

abbrev pub stepped : Direction → ℤ → ℤ → ℤ
stepped upscale current step = int64 (current +ℤ step)
stepped downscale current step = int64 (current -ℤ step)

abbrev pub is_complete : BucketStatus → Bool
is_complete complete = true
is_complete _ = false

module _ {V : Type 0} where
  -- What a direction decides when it does not breach: downscale holds, upscale has no opinion.
  abbrev pub hold : Direction → ℤ → Reason V → Option (ScaleDecision V)
  hold upscale current reason = none
  hold downscale current reason = some (record { desired_count = current; reason = reason })

  -- `int(threshold.SustainedFor / w.BucketDuration)`. (A width of 0 would panic.)
  unfoldable pub required_buckets : WindowThreshold V → WindowPolicy V → ℤ
  required_buckets t w = quot t.sustained_for w.bucket_duration

  unfoldable pub reset : Time → WindowPolicy V → WindowPolicy V
  reset at w = record w { reset_cutoff = at }

  module _ ⦃float : Float V⦄ where
    -- The two comparisons that `Evaluate` hands over, strict both.
    abbrev pub compare_values : Direction → V → V → Bool
    compare_values upscale value threshold = float.lt threshold value
    compare_values downscale value threshold = float.lt value threshold

    -- The loop over the buckets stops at the first that does not breach.
    abbrev pub every_breaches : Direction → WindowThreshold V → List (Bucket V) → Bool
    every_breaches direction t = all (λ b. compare_values direction b.sample.value t.threshold)

    -- `evaluateDirection` once the snapshot has answered.
    unfoldable pub judge :
        WindowPolicy V
        → WindowThreshold V
        → Direction
        → ℤ
        → List (Bucket V) × BucketStatus
        → Verdict V
    judge w t direction current (buckets, answer) =
        let required = required_buckets t w in
        let observe : WindowResult → WindowEvaluation = λ r. record {
          service = w.service;
          metric = w.metric;
          direction = direction;
          result = r;
          complete_buckets = length buckets;
        } in
        if not (is_complete answer)
        then record {
          decision =
              hold direction current (status_text (status_reason answer required (length buckets)));
          breached = false;
          observation = observe (status answer);
        }
        else if every_breaches direction t buckets
        then record {
          decision = some (record {
            desired_count = stepped direction current t.step;
            reason = breached w.metric direction t.threshold required w.bucket_duration;
          });
          breached = true;
          observation = observe breach;
        }
        else record {
          decision = hold direction current (not_breached w.metric direction);
          breached = false;
          observation = observe not_breaching;
        }

    unfoldable pub evaluate_direction :
        WindowPolicy V → WindowThreshold V → Direction → ℤ → Series V → Time → Verdict V
    evaluate_direction w t direction current series now = judge w t direction current (
        complete_buckets series (record { service = w.service; name = w.metric }) now
          w.bucket_duration (required_buckets t w) w.reset_cutoff)

    -- The second half of `Evaluate`, behind the observations of the first.
    abbrev pub evaluate_down :
        WindowPolicy V
        → Option (WindowThreshold V)
        → List WindowEvaluation
        → ℤ
        → Series V
        → Time
        → Evaluation V
    evaluate_down w none seen current series now = record { decision = none; windows = seen }
    evaluate_down w (some t) seen current series now =
        let v = evaluate_direction w t downscale current series now in
        record { decision = v.decision; windows = seen ++ (v.observation ∷ []) }

    abbrev pub evaluate_up :
        WindowPolicy V → Option (WindowThreshold V) → ℤ → Series V → Time → Evaluation V
    evaluate_up w none current series now = evaluate_down w w.downscale_when [] current series now
    evaluate_up w (some t) current series now =
        let v = evaluate_direction w t upscale current series now in
        if v.breached
        then record { decision = v.decision; windows = v.observation ∷ [] }
        else evaluate_down w w.downscale_when (v.observation ∷ []) current series now

    unfoldable pub evaluate : WindowPolicy V → ℤ → Series V → Time → Evaluation V
    evaluate w current series now = evaluate_up w w.upscale_when current series now
