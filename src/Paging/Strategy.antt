-- ===== src/Paging/Strategy.antt =====
-- The trait `PageEvictionStrategy` of vm/src/handlers/lib/evict.rs. `none` is a panic.
use vanadium.Prelude.{ℕ, Option}

pub record PageEvictionStrategy : Type 1 where
  pub Strategy : Type 0
  pub on_access : ℕ → ℕ → Strategy → Option Strategy
  pub on_load : ℕ → ℕ → Strategy → Option Strategy
  pub choose_victim : Strategy → Option ℕ
  pub on_invalidate : ℕ → ℕ → Strategy → Option Strategy
