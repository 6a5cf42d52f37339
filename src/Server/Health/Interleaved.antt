-- ===== src/Server/Health/Interleaved.antt =====
-- Readiness probes that run at the same time (internal/server/server.go, `getCachedHealth`): the two
-- sections that hold a lock are one step each, and those of many requests alternate in any order.
use ninjascale.Prelude.{
  ℕ, ◌≡◌, refl, inl, inr, ◌∙◌, sym, Among, Option, none, some, List, [], ◌∷◌, ◌++◌, String, arith,
  ◌≤ℤ◌, ◌<ℤ◌, ◌-ℤ◌, Option-cases, All, All-map, int_laws, -ℤ_parts,
}
use mathlib.Core.Path.{subst}
use ninjascale.Time.{Time, zero_time}
use ninjascale.Adapter.{Adapter}
use ninjascale.Server.Health.{
  Health, Probe, new_health, get_cached_health, health_cache_ttl, test_cache, store_check,
}
use ninjascale.Server.Health.Fresh.{IsCached, IsForward, hit_young}

-- What a request has learned, and when.
pub record Learned : Type 0 where
  pub request : ℕ
  pub at : Time
  pub error : Option String

-- The cache, the requests that wait for the adapter's answer, what was answered, newest first, and
-- the clock.
pub record Serving : Type 0 where
  pub health : Health
  pub checking : List ℕ
  pub answered : List Learned
  pub clock : Time

abbrev pub new_serving : Time → Serving
new_serving now = record { health = new_health; checking = []; answered = []; clock = now }

module _ {A : Type 0} (adapter : Adapter A) where
  -- A request meets a fresh cache, or goes on to ask the adapter; and the adapter's answer to a
  -- request, on whatever platform it met, is stored.
  pub data Step (s : Serving) : Serving → Type 0 where
    hit :
        (request : ℕ) (now : Time) (e : Option String)
        → s.clock ≤ℤ now
        → test_cache now s.health ≡ some e
        → Step s (record s {
          answered = record { request = request; at = now; error = e } ∷ s.answered;
          clock = now;
        })
    miss :
        (request : ℕ) (now : Time)
        → s.clock ≤ℤ now
        → test_cache now s.health ≡ none
        → Step s (record s { checking = request ∷ s.checking; clock = now })
    checked :
        (request : ℕ) (now : Time) (platform : A) (before after : List ℕ)
        → s.clock ≤ℤ now
        → s.checking ≡ before ++ (request ∷ after)
        → Step s (record {
          health = store_check now (adapter.health_check platform) s.health;
          checking = before ++ after;
          answered =
              record { request = request; at = now; error = adapter.health_check platform }
              ∷ s.answered;
          clock = now;
        })

  pub data Reach (begin : Time) : Serving → Type 0 where
    start : Reach begin (new_serving begin)
    later : {s t : Serving} → Reach begin s → Step s t → Reach begin t

  -- An answer is that of a check which was stored before it, less than ten seconds ago.
  abbrev pub IsFresh : List (Time × Option String) → Learned → Type 0
  IsFresh checks a =
      (c : Time × Option String) × Among c checks
      × (c.1 ≡ a.error)
      × (c.0 ≤ℤ a.at)
      × (a.at -ℤ c.0 <ℤ health_cache_ttl)

  -- What the adapter says of some platform.
  abbrev pub IsGenuine : Time × Option String → Type 0
  IsGenuine c = (platform : A) × (adapter.health_check platform ≡ c.1)

  pub record IsServing (s : Serving) : Type 0 where
    pub begun : health_cache_ttl ≤ℤ s.clock -ℤ zero_time
    pub stored : s.health.cache_time ≤ℤ s.clock
    pub cached : IsCached s.health s.health.checks
    pub genuine : All IsGenuine s.health.checks
    pub fresh : All (IsFresh s.health.checks) s.answered

  IsFresh-behind :
      (c : Time × Option String) (cs : List (Time × Option String)) (a : Learned)
      → IsFresh cs a
      → IsFresh (c ∷ cs) a
  IsFresh-behind c cs a (d, i, e, before, young) = (d, inr i, e, before, young)

  -- A hit answers with the newest check: there is one, since the cache is not as it was made.
  hit-IsFresh :
      (h : Health) (cs : List (Time × Option String)) (now : Time) (request : ℕ) (e : Option String)
      → health_cache_ttl ≤ℤ now -ℤ zero_time
      → h.cache_time ≤ℤ now
      → IsCached h cs
      → test_cache now h ≡ some e
      → IsFresh cs (record { request = request; at = now; error = e })
  hit-IsFresh h [] now request e begun stored cached t =
      let young = (hit_young now h e t).0 in
      let y : now -ℤ zero_time <ℤ health_cache_ttl =
        subst (λ u. now -ℤ u <ℤ health_cache_ttl) cached.0 young in
      absurd (omega (arith, y, begun))
  hit-IsFresh h (c ∷ cs) now request e begun stored cached t =
      let (young, same) = hit_young now h e t in
      (
        c,
        inl refl,
        sym cached.1 ∙ same,
        subst (λ u. u ≤ℤ now) cached.0 stored,
        subst (λ u. now -ℤ u <ℤ health_cache_ttl) cached.0 young,
      )

  begun_later :
      (t u : Time)
      → t ≤ℤ u
      → health_cache_ttl ≤ℤ t -ℤ zero_time
      → health_cache_ttl ≤ℤ u -ℤ zero_time
  begun_later t u le h = omega (int_laws, le, h, -ℤ_parts t zero_time, -ℤ_parts u zero_time)

  Step-IsServing : {s t : Serving} → Step s t → IsServing s → IsServing t
  unfolding store_check
  Step-IsServing {s} (hit request now e le t) k = record {
    begun = begun_later s.clock now le k.begun;
    stored = omega (arith, int_laws, le, k.stored);
    cached = k.cached;
    genuine = k.genuine;
    fresh = (
      hit-IsFresh s.health s.health.checks now request e (begun_later s.clock now le k.begun)
          (omega (arith, int_laws, le, k.stored)) k.cached t,
      k.fresh,
    );
  }
  Step-IsServing {s} (miss request now le t) k = record {
    begun = begun_later s.clock now le k.begun;
    stored = omega (arith, int_laws, le, k.stored);
    cached = k.cached;
    genuine = k.genuine;
    fresh = k.fresh;
  }
  Step-IsServing {s} (checked request now platform before after le e) k =
      let answer : Option String = adapter.health_check platform in
      let newest : Time × Option String = (now, answer) in
      record {
        begun = begun_later s.clock now le k.begun;
        stored = omega arith;
        cached = (refl, refl);
        genuine = ((platform, refl), k.genuine);
        fresh = (
          (newest, inl refl, refl, omega arith, omega (int_laws, -ℤ_parts now now)),
          All-map (IsFresh s.health.checks) (IsFresh (newest ∷ s.health.checks)) s.answered
              (λ a h. IsFresh-behind newest s.health.checks a h) k.fresh,
        );
      }

  -- However the requests are interleaved, the cache is the newest stored answer of the adapter, and
  -- every probe was answered with an answer of the adapter that was stored before, less than ten
  -- seconds ago by the clock; the clock does not go back, and begins ten seconds after year 1.
  pub Reach-IsServing :
      (begin : Time) (s : Serving)
      → health_cache_ttl ≤ℤ begin -ℤ zero_time
      → Reach begin s
      → IsServing s
  Reach-IsServing begin s h start = record {
    begun = h;
    stored = omega (int_laws, h, -ℤ_parts begin zero_time);
    cached = (refl, refl);
    genuine = tt;
    fresh = tt;
  }
  Reach-IsServing begin s h (later r step) = Step-IsServing step (Reach-IsServing begin _ h r)

  -- The state after a request that ran alone.
  abbrev pub served : Probe A → ℕ → Time → Serving → Serving
  served p request now s =
      let (h, e) = get_cached_health adapter p s.health in
      record s {
        health = h;
        answered = record { request = request; at = now; error = e } ∷ s.answered;
        clock = now;
      }

  -- A request that no other interrupts is one of these interleavings: `getCachedHealth` from its
  -- test to its answer is reached by the steps, from any reachable state.
  pub get_cached_health-Reach :
      (begin : Time) (s : Serving) (p : Probe A) (request : ℕ)
      → s.clock ≤ℤ p.at_test
      → IsForward p
      → Reach begin s
      → (now : Time) × Reach begin (served p request now s)
  unfolding get_cached_health
  get_cached_health-Reach begin s p request le forward r =
      elim (Option-cases (test_cache p.at_test s.health)) [
        | inl e ↦ (
          p.at_refresh,
          rw e (
              later (later r (miss request p.at_test le e))
                (checked request p.at_refresh p.platform [] s.checking forward refl)),
        )
        | inr (x, e) ↦ (p.at_test, rw e (later r (hit request p.at_test x le e)))
      ]
