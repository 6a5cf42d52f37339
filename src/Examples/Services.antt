-- ===== src/Examples/Services.antt =====
-- Runs of internal/adapter and of the decisions of internal/reconciler.
use ninjascale.Prelude.{
  ◌≡◌, refl, true, ◌⊎◌, none, some, List, [], ◌∷◌, String, ℤ, pos, ◌≤ℤ◌, ◌<ℤ◌, if◌then◌else◌, All,
  insert, string_key,
}
use ninjascale.Policy.Decision.{ScaleDecision, expression}
use ninjascale.Adapter.Memory.{Counts}
use ninjascale.Adapter.Ecs.{EcsClient, EcsAdapter, get_current_counts}
use ninjascale.Adapter.Ecs.Batches.{Table, answers, all_known, SameAt, get_current_counts_lem}
use ninjascale.Reconciler.{compute_desired}
use ninjascale.Reconciler.Desired.{
  AtMost, AskedFor, compute_desired-up, compute_desired-hold, AreBelow, compute_desired_lem,
}

abbrev ask : ℤ → ScaleDecision ℤ
ask n = record { desired_count = n; reason = expression "cpu" n }

abbrev three_asks : List (ScaleDecision ℤ)
three_asks = ask (pos 1) ∷ ask (pos 4) ∷ ask (pos 3) ∷ []

compute_desired-up_example :
    (pos 3 <ℤ compute_desired (pos 3) three_asks)
    × AtMost (compute_desired (pos 3) three_asks) three_asks
    × AskedFor (compute_desired (pos 3) three_asks) three_asks
compute_desired-up_example = compute_desired-up (pos 3) three_asks refl

compute_desired-hold_example : compute_desired (pos 4) three_asks ≡ pos 4
compute_desired-hold_example = compute_desired-hold (pos 4) three_asks refl refl

compute_desired_lem_example :
    ((pos 6 <ℤ compute_desired (pos 6) three_asks)
      × AskedFor (compute_desired (pos 6) three_asks) three_asks
      × AtMost (compute_desired (pos 6) three_asks) three_asks)
    ⊎ (((compute_desired (pos 6) three_asks ≡ pos 6)
          × AskedFor (pos 6) three_asks
          × AtMost (pos 6) three_asks)
        ⊎ (AreBelow (pos 6) three_asks
            × (pos 0 ≤ℤ compute_desired (pos 6) three_asks)
            × AtMost (compute_desired (pos 6) three_asks) three_asks
            × ((compute_desired (pos 6) three_asks ≡ pos 0)
                ⊎ AskedFor (compute_desired (pos 6) three_asks) three_asks)))
compute_desired_lem_example = compute_desired_lem (pos 6) three_asks

abbrev counts : Counts
counts = ("web-svc", pos 2) ∷ ("api-svc", pos 7) ∷ []

-- A client over a table of services, which is the state of the cloud.
abbrev table_client : EcsClient Table
table_client = record {
  describe_services = λ cluster names table. some (answers table names);
  update_service = λ cluster service desired table. (insert service desired table, true);
  describe_clusters = λ names table. some [];
}

abbrev table_adapter : EcsAdapter Table
table_adapter = record { client = table_client; cluster = "main" }

abbrev requested : List String
requested = "web-svc" ∷ "api-svc" ∷ []

get_current_counts_lem_example :
    (m : Table) × All (SameAt counts m) requested
    × (get_current_counts table_adapter requested counts
        ≡ (if all_known counts requested then some m else none))
get_current_counts_lem_example =
    get_current_counts_lem table_adapter counts counts (λ names fits. refl) requested
