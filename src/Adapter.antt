-- ===== src/Adapter.antt =====
-- internal/adapter/adapter.go: the platform that runs the services, as an interface over its state
-- `A`, and the adapters that implement it.
pub mod Memory
pub mod Ecs
pub mod Selection
use ninjascale.Prelude.{Bool, Option, List, String, ℤ}

-- Each method returns an error or a result; `scale` also the platform that it leaves behind, and
-- `false` for an error.
pub record Adapter (A : Type 0) : Type 0 where
  pub get_current_count : String → A → Option ℤ
  pub get_current_counts : List String → A → Option (List (String × ℤ))
  pub scale : String → ℤ → A → A × Bool
  pub health_check : A → Option String
