-- ===== src/Config/Defaults.antt =====
-- What `applyDefaults` (internal/config/config.go) leaves for `BuildServices` to rely on.
use ninjascale.Prelude.{
  ◌≡◌, refl, true, not, ◌||◌, inl, inr, Option, none, some, List, [], ◌∷◌, map, str_eq, All,
  Bool-cases,
}
use ninjascale.Metrics.Buckets.Gaps.{is_some}
use ninjascale.Config.{
  DefaultsConfig, PolicyConfig, ServiceConfig, Config, or_else, default_bucket, default_service,
  apply_defaults,
}

or_else-some : {A : Type 0} (o : Option A) (d : A) → is_some (or_else o d) ≡ true
or_else-some none d = refl
or_else-some (some a) d = refl

module _ {V : Type 0} where
  -- A window policy has a bucket width.
  abbrev pub HasWidth : PolicyConfig V → Type 0
  HasWidth p = (not (str_eq p.kind "window") || is_some p.bucket_duration) ≡ true

  -- The pointers that `BuildServices` follows are set.
  abbrev pub IsFilled : ServiceConfig V → Type 0
  IsFilled svc =
      (is_some svc.min_count ≡ true)
      × (is_some svc.max_count ≡ true)
      × (is_some svc.cooldown ≡ true)
      × All HasWidth svc.policies

  default_bucket-HasWidth : (p : PolicyConfig V) → HasWidth (default_bucket p)
  default_bucket-HasWidth p = elim (Bool-cases (str_eq p.kind "window")) [
    | inl e ↦ rw e (rw e (or_else-some p.bucket_duration _))
    | inr e ↦ rw e (rw e refl)
  ]

  default_policies-HasWidth : (ps : List (PolicyConfig V)) → All HasWidth (map default_bucket ps)
  default_policies-HasWidth [] = tt
  default_policies-HasWidth (p ∷ ps) = (default_bucket-HasWidth p, default_policies-HasWidth ps)

  default_service-IsFilled :
      (d : DefaultsConfig) (svcs : List (ServiceConfig V))
      → All IsFilled (map (default_service d) svcs)
  unfolding default_service
  default_service-IsFilled d [] = tt
  default_service-IsFilled d (svc ∷ svcs) = (
    (
      or_else-some svc.min_count d.min_count,
      or_else-some svc.max_count d.max_count,
      or_else-some svc.cooldown d.cooldown,
      default_policies-HasWidth svc.policies,
    ),
    default_service-IsFilled d svcs,
  )

  -- After the defaults every service has its counts and its cooldown, and every window policy a
  -- bucket width.
  pub apply_defaults-IsFilled : (cfg : Config V) → All IsFilled (apply_defaults cfg).services
  unfolding apply_defaults
  apply_defaults-IsFilled cfg = default_service-IsFilled _ cfg.services
