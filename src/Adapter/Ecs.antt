-- ===== src/Adapter/Ecs.antt =====
-- internal/adapter/ecs.go: services on AWS ECS. The client of the AWS SDK is a parameter.
pub mod Batches
use ninjascale.Prelude.{
  ℕ, zero, suc, Bool, true, false, not, Option, none, some, List, [], ◌∷◌, String, str_eq,
  if◌then◌else◌, ℤ, int32, length, take, drop, lookup, insert, string_key,
}
use ninjascale.Adapter.{Adapter}

-- The fields of `types.Service` and `types.Cluster` that are read.
pub record EcsService : Type 0 where
  pub service_name : Option String
  pub desired_count : ℤ

pub record EcsCluster : Type 0 where
  pub status : Option String

-- `ECSClient`, over the state `A` of the cloud. None is an error, and so is `false`.
pub record EcsClient (A : Type 0) : Type 0 where
  pub describe_services : (cluster : String) → List String → A → Option (List EcsService)
  pub update_service : (cluster : String) → (service : String) → (desired : ℤ) → A → A × Bool
  pub describe_clusters : List String → A → Option (List EcsCluster)

pub record EcsAdapter (A : Type 0) : Type 0 where
  pub client : EcsClient A
  pub cluster : String

abbrev pub max_services_per_batch : ℕ
max_services_per_batch = 10

-- `currentCount`; the SDK's field is an int32, and an int holds it.
abbrev pub current_count : EcsService → ℤ
current_count svc = svc.desired_count

abbrev first_count : Option (List EcsService) → Option ℤ
first_count none = none
first_count (some []) = none
first_count (some (svc ∷ svcs)) = some (current_count svc)

abbrev pub add_service : EcsService → Option String → List (String × ℤ) → List (String × ℤ)
add_service svc none result = result
add_service svc (some name) result = insert name (current_count svc) result

-- The loop over a batch's answer: a service without a name is passed over.
unfoldable pub add_services : List EcsService → List (String × ℤ) → List (String × ℤ)
add_services [] result = result
add_services (svc ∷ svcs) result = add_services svcs (add_service svc svc.service_name result)

-- The loop over what was requested.
unfoldable pub check_found : List String → List (String × ℤ) → Option (List (String × ℤ))
check_found [] result = some result
check_found (svc ∷ svcs) result = elim (lookup svc result) [
  | none ↦ none
  | some count ↦ check_found svcs result
]

abbrev when_active : Option String → Option String
when_active none = none
when_active (some status) = if str_eq status "ACTIVE" then none else some "cluster not active"

abbrev cluster_health : Option (List EcsCluster) → Option String
cluster_health none = some "describe cluster"
cluster_health (some []) = some "cluster not found"
cluster_health (some (c ∷ cs)) = when_active c.status

module _ {A : Type 0} (a : EcsAdapter A) where
  unfoldable pub get_current_count : String → A → Option ℤ
  get_current_count service cloud =
      first_count (a.client.describe_services a.cluster (service ∷ []) cloud)

  -- The loop over batches: `services` is `services[i:]`, and each round goes on behind a batch. The
  -- fuel is the number of services; a round takes at least one of them.
  unfoldable pub describe_batches :
      ℕ → List String → A → List (String × ℤ) → Option (List (String × ℤ))
  describe_batches fuel [] cloud result = some result
  describe_batches zero (svc ∷ svcs) cloud result = none
  describe_batches (suc fuel) (svc ∷ svcs) cloud result =
      elim (a.client.describe_services a.cluster (take max_services_per_batch (svc ∷ svcs)) cloud) [
        | none ↦ none
        | some out ↦
            describe_batches fuel (drop max_services_per_batch (svc ∷ svcs)) cloud
              (add_services out result)
      ]

  unfoldable pub get_current_counts : List String → A → Option (List (String × ℤ))
  get_current_counts [] cloud = some []
  get_current_counts (svc ∷ svcs) cloud =
      elim (describe_batches (suc (length svcs)) (svc ∷ svcs) cloud []) [
        | none ↦ none
        | some result ↦ check_found (svc ∷ svcs) result
      ]

  -- `aws.Int32(int32(desired))` keeps 32 bits of the count.
  unfoldable pub scale : String → ℤ → A → A × Bool
  scale service desired cloud = a.client.update_service a.cluster service (int32 desired) cloud

  unfoldable pub health_check : A → Option String
  health_check cloud = cluster_health (a.client.describe_clusters (a.cluster ∷ []) cloud)

  unfoldable pub ecs_adapter : Adapter A
  ecs_adapter = record {
    get_current_count = get_current_count;
    get_current_counts = get_current_counts;
    scale = scale;
    health_check = health_check;
  }
