-- ===== src/Paging/Evict/Lru.antt =====
-- The victim of `LruEvictionStrategy` of vm/src/handlers/lib/evict.rs.
pub mod Calls
pub mod Recency
use vanadium.Prelude.{
  ℕ, zero, suc, ◌<◌, ◌≡◌, ap, arith, inl, inr, List, [], ◌∷◌, length, get_elem?, none, some,
}
use vanadium.Paging.Evict.{LruEvictionStrategy, lru_choose_victim, or_zero, u32_max}
use vanadium.Paging.Evict.Oldest.{IsOldest, time_at, oldest_lem}

-- A time of a slot is its counter.
pub counter-time_at : (xs : List ℕ) (j t : ℕ) → time_at some xs j ≡ some t → get_elem? xs j ≡ some t
counter-time_at [] j t e = e
counter-time_at (x ∷ xs) zero t e = e
counter-time_at (x ∷ xs) (suc j) t e = counter-time_at xs j t e

-- While no counter has come to 2^32 - 1, the victim of a cache with slots is a slot with the least
-- counter, that is, the one whose last use is the oldest.
pub lru_choose_victim-IsOldest :
    (s : LruEvictionStrategy)
    → 0 < length s.usage_counters
    → ((j t : ℕ) → get_elem? s.usage_counters j ≡ some t → t < u32_max)
    → (v : ℕ) × (lru_choose_victim s ≡ some v) × IsOldest some s.usage_counters v
unfolding lru_choose_victim
lru_choose_victim-IsOldest s positive small =
    elim (oldest_lem some s.usage_counters u32_max
      (λ j t e. small j t (counter-time_at s.usage_counters j t e))) [
        | inl found ↦ (found.0, ap (λ o. some (or_zero o)) found.1, found.2)
        | inr none_left ↦ absurd (nonempty s.usage_counters positive none_left.1)
      ]
  where
    nonempty : (xs : List ℕ) → 0 < length xs → ¬ ((j : ℕ) → time_at some xs j ≡ none)
    nonempty [] h f = omega arith
    nonempty (x ∷ xs) h f = let t = f 0 in cc
