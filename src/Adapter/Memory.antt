-- ===== src/Adapter/Memory.antt =====
-- internal/adapter/memory.go: counts in a map.
use ninjascale.Prelude.{
  ◌≡◌, refl, true, Option, none, some, List, [], ◌∷◌, String, str_eq, eq_iff, ℤ, pos, arith, lookup,
  insert, lookup-insert, string_key, if◌then◌else◌, All, Bool-cases, inl, inr,
}
use ninjascale.Adapter.{Adapter}

abbrev pub Counts : Type 0
Counts = List (String × ℤ)

-- A missing key reads as 0.
abbrev pub or_zero : Option ℤ → ℤ
or_zero none = pos 0
or_zero (some n) = n

unfoldable pub get_current_count : String → Counts → ℤ
get_current_count service services = or_zero (lookup service services)

unfoldable pub collect_counts : List String → Counts → Counts → Counts
collect_counts [] services result = result
collect_counts (svc ∷ svcs) services result =
    collect_counts svcs services (insert svc (get_current_count svc services) result)

unfoldable pub scale : String → ℤ → Counts → Counts
scale service desired services = insert service desired services

-- `SetCount`, the test helper.
unfoldable pub set_count : String → ℤ → Counts → Counts
set_count service count services = insert service count services

-- No method of the memory adapter fails.
unfoldable pub memory_adapter : Adapter Counts
memory_adapter = record {
  get_current_count = λ service services. some (get_current_count service services);
  get_current_counts = λ names services. some (collect_counts names services []);
  scale = λ service desired services. (scale service desired services, true);
  health_check = λ services. none;
}

-- After a scale of one service its count is the one that was asked for, and the count of every
-- other service is what it was.
pub get_current_count-scale :
    (service other : String) (desired : ℤ) (services : Counts)
    → get_current_count other (scale service desired services)
      ≡ (if str_eq service other then desired else get_current_count other services)
unfolding get_current_count scale
get_current_count-scale service other desired services =
    rw (lookup-insert service other desired services)
      (elim (Bool-cases (str_eq service other)) [ inl e ↦ rw e refl | inr e ↦ rw e refl ])

abbrev Shows : Counts → Counts → String → Type 0
Shows services result svc = lookup svc result ≡ some (get_current_count svc services)

insert-Shows :
    (services result : Counts) (svc name : String)
    → Shows services result name
    → Shows services (insert svc (get_current_count svc services) result) name
insert-Shows services result svc name h =
    ground (arith, lookup-insert svc name (get_current_count svc services) result, eq_iff svc name)

collect_counts-keeps :
    (svcs : List String) (services result : Counts) (name : String)
    → Shows services result name
    → Shows services (collect_counts svcs services result) name
unfolding collect_counts
collect_counts-keeps [] services result name h = h
collect_counts-keeps (svc ∷ svcs) services result name h =
    collect_counts-keeps svcs services _ name (insert-Shows services result svc name h)

-- The batch shows each requested service with the count that a single request would give.
pub collect_counts_lem :
    (svcs : List String) (services result : Counts)
    → All
        (λ svc.
          lookup svc (collect_counts svcs services result) ≡ some (get_current_count svc services))
        svcs
unfolding collect_counts
collect_counts_lem [] services result = tt
collect_counts_lem (svc ∷ svcs) services result = (
  collect_counts-keeps svcs services (insert svc (get_current_count svc services) result) svc (
      ground
        (arith, lookup-insert svc svc (get_current_count svc services) result, eq_iff svc svc)),
  collect_counts_lem svcs services (insert svc (get_current_count svc services) result),
)
