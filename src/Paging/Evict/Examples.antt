-- ===== src/Paging/Evict/Examples.antt =====
-- The eviction strategies of vm/src/handlers/lib/evict.rs on small inputs.
use vanadium.Prelude.{
  ℕ, zero, suc, ◌≡◌, ◌<◌, ◌≤◌, ◌⊎◌, List, refl, arith, leb, if◌then◌else◌, [], ◌∷◌, none, some,
}
use vanadium.Paging.Evict.{
  LruEvictionStrategy, TwoQEvictionStrategy, free, a1, a1_time, am_time, u32_max, lru_choose_victim,
  two_q_choose_victim, two_q_new, two_q_on_load, without,
}
use vanadium.Paging.Evict.Oldest.{IsOldest, time_at}
use vanadium.Paging.Evict.Lru.Calls.{Call, on_access, on_load, after, uses, last_use}
use vanadium.Paging.Evict.Lru.Recency.{lru_choose_victim-after}
use vanadium.Paging.Evict.TwoQ.{here, next, load, Reach-IsValid_new}
use vanadium.Paging.Evict.TwoQ.Queues.{IsValid}
use mathlib.Core.Option.{some-injective}
use vanadium.Paging.Evict.TwoQ.Victim.{two_q_choose_victim-IsOldest}

-- Three slots: all are used, then the first is used again, the latest call first.
abbrev history : List Call
history = on_access 0 7 ∷ on_load 2 9 ∷ on_load 1 8 ∷ on_load 0 7 ∷ []

lru_choose_victim-after_example :
    (s : LruEvictionStrategy) × (after 3 history ≡ some s)
    × (v : ℕ) × (lru_choose_victim s ≡ some v)
    × (v < 3)
    × ((j : ℕ) → j < 3 → last_use history v ≤ last_use history j)
lru_choose_victim-after_example =
    lru_choose_victim-after 3 history (omega arith)
      (omega arith, (omega arith, (omega arith, (omega arith, tt)))) (omega arith)

-- The slots were used last by the uses 4, 2 and 3.
history_uses : (last_use history 0 ≡ 4) × (last_use history 1 ≡ 2) × (last_use history 2 ≡ 3)
unfolding last_use uses
history_uses = (refl, refl, refl)

-- A cache of three slots of which the first is taken by page 5.
abbrev started : TwoQEvictionStrategy
started = record {
  states = free ∷ free ∷ free ∷ [];
  global_counter = 0;
  a1_max_size = 2;
  a1_size = 0;
  a1out = [];
  a1out_max_size = 2;
}

abbrev loaded : TwoQEvictionStrategy
loaded = record {
  states = a1 1 ∷ free ∷ free ∷ [];
  global_counter = 1;
  a1_max_size = 2;
  a1_size = 1;
  a1out = [];
  a1out_max_size = 2;
}

started_lem : two_q_new 3 2 2 ≡ some started
unfolding two_q_new
started_lem = refl

loaded_lem : two_q_on_load 0 5 started ≡ some loaded
unfolding two_q_on_load without
loaded_lem = refl

Reach-IsValid_new_example : IsValid loaded
Reach-IsValid_new_example =
    Reach-IsValid_new 3 2 2 started loaded (omega arith) (omega arith) started_lem
      (next here (load 0 5 started loaded refl loaded_lem))

loaded_a1_small : (j t : ℕ) → time_at a1_time loaded.states j ≡ some t → t < u32_max
loaded_a1_small zero t e = let same = some-injective _ _ e in omega arith
loaded_a1_small (suc zero) t e = cc
loaded_a1_small (suc (suc zero)) t e = cc
loaded_a1_small (suc (suc (suc j))) t e = cc

loaded_am_small : (j t : ℕ) → time_at am_time loaded.states j ≡ some t → t < u32_max
loaded_am_small zero t e = cc
loaded_am_small (suc zero) t e = cc
loaded_am_small (suc (suc zero)) t e = cc
loaded_am_small (suc (suc (suc j))) t e = cc

two_q_choose_victim-IsOldest_example :
    (v : ℕ) × (two_q_choose_victim loaded ≡ some v)
    × (if leb loaded.a1_max_size loaded.a1_size
        then IsOldest a1_time loaded.states v
        else IsOldest am_time loaded.states v
        ⊎ (((j : ℕ) → time_at am_time loaded.states j ≡ none) × IsOldest a1_time loaded.states v))
two_q_choose_victim-IsOldest_example =
    two_q_choose_victim-IsOldest loaded 0 (a1 1)
      (Reach-IsValid_new 3 2 2 started loaded (omega arith) (omega arith) started_lem
        (next here (load 0 5 started loaded refl loaded_lem)))
      (omega arith) loaded_a1_small loaded_am_small refl (λ no. absurd (cc))
