-- ===== src/Server/Health/Fresh.antt =====
-- How old an answer of the cache may be (internal/server/server.go, `getCachedHealth`).
use ninjascale.Prelude.{
  ◌≡◌, inl, inr, true, false, Option, none, List, [], ◌∷◌, String, arith, ◌≤ℤ◌, ◌<ℤ◌, ◌-ℤ◌, ltb_ℤ,
  leb_ℤ, Bool-cases, some,
}
use ninjascale.Time.{Time, zero_time, sub, sub-ge}
use ninjascale.Server.Health.{Health, Probe, health_cache_ttl, test_cache}

-- The cache is the newest answer, or as it was made.
abbrev pub IsCached : Health → List (Time × Option String) → Type 0
IsCached h [] = (h.cache_time ≡ zero_time) × (h.cache_err ≡ none)
IsCached h (c ∷ cs) = (h.cache_time ≡ c.0) × (h.cache_err ≡ c.1)

-- The clock does not go back within a request.
abbrev pub IsForward : {A : Type 0} → Probe A → Type 0
IsForward p = p.at_test ≤ℤ p.at_refresh

-- The test of the cache in exact numbers.
is_young : (t u : Time) → ltb_ℤ (sub t u) health_cache_ttl ≡ true → t -ℤ u <ℤ health_cache_ttl
is_young t u h =
    let e : leb_ℤ health_cache_ttl (sub t u) ≡ false = ground arith in
    let q = sub-ge t u health_cache_ttl (omega arith, omega arith) in ground (arith, q, e)

-- What the test of the cache says of its age.
pub hit_young :
    (now : Time) (h : Health) (e : Option String)
    → test_cache now h ≡ some e
    → (now -ℤ h.cache_time <ℤ health_cache_ttl) × (h.cache_err ≡ e)
unfolding test_cache
hit_young now h e t = elim (Bool-cases (ltb_ℤ (sub now h.cache_time) health_cache_ttl)) [
  | inl y ↦ (is_young now h.cache_time y, cc (rw y at t))
  | inr y ↦ absurd (cc (rw y at t))
]
