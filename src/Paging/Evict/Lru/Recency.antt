-- ===== src/Paging/Evict/Lru/Recency.antt =====
-- The victim of `LruEvictionStrategy` of vm/src/handlers/lib/evict.rs, by the order of the uses.
use vanadium.Prelude.{
  ℕ, ◌<◌, ◌≤◌, ◌≡◌, sym, ap, ◌∙◌, arith, List, length, get_elem?, get_elem?-lt, some,
}
use mathlib.Core.Option.{some-injective}
use vanadium.Paging.Evict.{LruEvictionStrategy, u32_max, lru_choose_victim}
use vanadium.Paging.Evict.Oldest.{IsOldest, time_at, time_of}
use vanadium.Paging.Evict.Lru.{lru_choose_victim-IsOldest, counter-time_at}
use vanadium.Paging.Evict.Lru.Calls.{
  Call, after, last_use, InRange, Tracks, after-Tracks, uses-length, last_use-uses,
}

-- The victim of a strategy that tracks a history is the slot whose latest use is the oldest.
Tracks-victim :
    (slots : ℕ) (h : List Call) (s : LruEvictionStrategy)
    → 0 < slots
    → length h < u32_max
    → Tracks slots h s
    → (v : ℕ) × (lru_choose_victim s ≡ some v)
      × (v < slots)
      × ((j : ℕ) → j < slots → last_use h v ≤ last_use h j)
Tracks-victim slots h s positive small tr =
    let (v, chosen, oldest) = lru_choose_victim-IsOldest s (omega (arith, tr.size)) counter_small in
    let k = in_range v oldest.age oldest.at in (v, chosen, k, λ j i. older v j oldest k i)
  where
    in_range : (j t : ℕ) → time_at some s.usage_counters j ≡ some t → j < slots
    in_range j t e =
        omega (
          arith,
          get_elem?-lt s.usage_counters j t (counter-time_at s.usage_counters j t e),
          tr.size,
        )

    counter_small : (j t : ℕ) → get_elem? s.usage_counters j ≡ some t → t < u32_max
    counter_small j t e =
        let k = get_elem?-lt s.usage_counters j t e in
        let same = some-injective _ _ (sym e ∙ tr.counters j (omega (arith, tr.size))) in
        omega (arith, uses-length h, last_use-uses h j)

    older :
        (v j : ℕ) (o : IsOldest some s.usage_counters v)
        → v < slots
        → j < slots
        → last_use h v ≤ last_use h j
    older v j o k i =
        let first = o.first j (last_use h j) (ap (time_of some) (tr.counters j i)) in
        let same =
          some-injective _ _
            (sym (counter-time_at s.usage_counters v o.age o.at) ∙ tr.counters v k) in
        omega arith

-- Any history of less than 2^32 - 1 calls, each about one of the slots, of which there is at least
-- one, runs on a new strategy without a panic, and the victim that is chosen after it is the least
-- recently used slot: a slot whose latest use came no later than the latest use of any other slot,
-- where a slot that was never used, or not since it was invalidated, comes before all that were.
pub lru_choose_victim-after :
    (slots : ℕ) (h : List Call)
    → 0 < slots
    → InRange slots h
    → length h < u32_max
    → (s : LruEvictionStrategy) × (after slots h ≡ some s)
      × (v : ℕ) × (lru_choose_victim s ≡ some v)
      × (v < slots)
      × ((j : ℕ) → j < slots → last_use h v ≤ last_use h j)
lru_choose_victim-after slots h positive r small =
    let (s, e, tr) = after-Tracks slots h r small in
    let (v, chosen, inside, least) = Tracks-victim slots h s positive small tr in
    (s, e, v, chosen, inside, least)
