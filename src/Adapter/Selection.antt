-- ===== src/Adapter/Selection.antt =====
-- internal/adapter/adapter.go, `New`, with the constructors of internal/adapter/ecs.go and memory.go:
-- the adapter of a configuration. The platform is the state of the cloud beside the counts in memory.
use ninjascale.Prelude.{Option, String, str_eq, if◌then◌else◌}
use ninjascale.Prelude.Result.{Result, ok, err, or_err, ◌>>=◌}
use ninjascale.Config.{EcsConfig, AdapterConfig}
use ninjascale.Adapter.{Adapter}
use ninjascale.Adapter.Memory.{Counts, memory_adapter}
use ninjascale.Adapter.Ecs.{EcsClient, EcsAdapter, ecs_adapter}

pub data AdapterError : Type 0 where
  aws_not_configured : AdapterError
  unknown_type : String → AdapterError

-- `awsconfig.LoadDefaultConfig` for a region, with `ecs.NewFromConfig`; none is an error.
abbrev pub AwsClients : Type 0 → Type 0
AwsClients A = (region : String) → Option (EcsClient A)

module _ {A : Type 0} where
  abbrev pub new_ecs_adapter_with_client : EcsClient A → String → EcsAdapter A
  new_ecs_adapter_with_client client cluster = record { client = client; cluster = cluster }

  unfoldable pub new_ecs_adapter : AwsClients A → EcsConfig → Result AdapterError (EcsAdapter A)
  new_ecs_adapter clients cfg = do
    client ← or_err (clients cfg.region) aws_not_configured
    ok (new_ecs_adapter_with_client client cfg.cluster)

  -- An adapter over one part of the platform.
  abbrev pub on_cloud : Adapter A → Adapter (A × Counts)
  on_cloud a = record {
    get_current_count = λ service p. a.get_current_count service p.0;
    get_current_counts = λ names p. a.get_current_counts names p.0;
    scale = λ service n p. let (cloud, done) = a.scale service n p.0 in ((cloud, p.1), done);
    health_check = λ p. a.health_check p.0;
  }

  abbrev pub in_memory : Adapter (A × Counts)
  in_memory = record {
    get_current_count = λ service p. memory_adapter.get_current_count service p.1;
    get_current_counts = λ names p. memory_adapter.get_current_counts names p.1;
    scale = λ service n p.
        let (counts, done) = memory_adapter.scale service n p.1 in ((p.0, counts), done);
    health_check = λ p. memory_adapter.health_check p.1;
  }

  unfoldable pub new_adapter :
      AwsClients A → AdapterConfig → Result AdapterError (Adapter (A × Counts))
  new_adapter clients cfg =
      if str_eq cfg.kind "ecs"
      then (new_ecs_adapter clients cfg.ecs >>= λ a. ok (on_cloud (ecs_adapter a)))
      else if str_eq cfg.kind "memory"
      then ok in_memory
      else err (unknown_type cfg.kind)
