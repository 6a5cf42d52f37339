-- ===== src/Server/Health.antt =====
-- internal/server/server.go, `getCachedHealth`, `handleReadyz` and `handleHealthz`. The readings of the
-- clock at the test of the cache and at its refresh are arguments. The functions
-- here answer one request that meets no other; Health/Interleaved lets the two locked sections of
-- many requests alternate.
pub mod Fresh
pub mod Interleaved
use ninjascale.Prelude.{
  ℕ, Bool, Option, none, some, List, [], ◌∷◌, String, str_eq, if◌then◌else◌, ltb_ℤ,
}
use ninjascale.Time.{Time, Duration, zero_time, seconds, sub}
use ninjascale.Adapter.{Adapter}

abbrev pub health_cache_ttl : Duration
health_cache_ttl = seconds 10

-- The cache; `checks` are the answers that the adapter gave, newest first, and when they were stored.
-- The code does not keep them: nothing reads them here.
pub record Health : Type 0 where
  pub cache_time : Time
  pub cache_err : Option String
  pub checks : List (Time × Option String)

abbrev pub new_health : Health
new_health = record { cache_time = zero_time; cache_err = none; checks = [] }

-- A request: its path, its two readings of the clock, and the platform that a check meets.
pub record Probe (A : Type 0) : Type 0 where
  pub path : String
  pub at_test : Time
  pub at_refresh : Time
  pub platform : A

pub record Response : Type 0 where
  pub status : ℕ
  pub error : Option String

abbrev pub healthz : Response
healthz = record { status = 200; error = none }

abbrev pub readyz : Option String → Response
readyz none = record { status = 200; error = none }
readyz (some e) = record { status = 503; error = some e }

-- The section under the read lock: the answer of the cache while it is fresh.
unfoldable pub test_cache : Time → Health → Option (Option String)
test_cache now h = if ltb_ℤ (sub now h.cache_time) health_cache_ttl then some h.cache_err else none

-- The section under the lock, with the adapter's answer.
unfoldable pub store_check : Time → Option String → Health → Health
store_check now answer h = record {
  cache_time = now;
  cache_err = answer;
  checks = (now, answer) ∷ h.checks;
}

-- What the multiplexer of net/http answers on any other path.
abbrev not_found : Response
not_found = record { status = 404; error = some "404 page not found" }

module _ {A : Type 0} (adapter : Adapter A) where
  -- After the test: a fresh answer, or a check that is stored.
  abbrev after_test : Probe A → Health → Option (Option String) → Health × Option String
  after_test p h (some e) = (h, e)
  after_test p h none =
      let answer = adapter.health_check p.platform in (store_check p.at_refresh answer h, answer)

  unfoldable pub get_cached_health : Probe A → Health → Health × Option String
  get_cached_health p h = after_test p h (test_cache p.at_test h)

  unfoldable pub handle_readyz : Probe A → Health → Health × Response
  handle_readyz p h = let (h', answer) = get_cached_health p h in (h', readyz answer)

  -- The routes of `New`; `page` is what the handler of the exported metrics answers.
  unfoldable pub handle : Response → Probe A → Health → Health × Response
  handle page p h =
      if str_eq p.path "/healthz"
      then (h, healthz)
      else if str_eq p.path "/readyz"
      then handle_readyz p h
      else if str_eq p.path "/metrics"
      then (h, page)
      else (h, not_found)
