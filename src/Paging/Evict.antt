-- ===== src/Paging/Evict.antt =====
-- The eviction strategies of vm/src/handlers/lib/evict.rs. `none` is a panic, also that of an index
-- that is out of range.
pub mod Oldest
pub mod Lru
pub mod TwoQ
mod Examples
use vanadium.Prelude.{
  ℕ, zero, suc, ◌+◌, ◌-◌, ◌^◌, ◌==◌, ltb, leb, Bool, true, false, if◌then◌else◌, List, [], ◌∷◌,
  ◌++◌, length, get_elem?, set, replicate, Option, none, some,
}
use vanadium.Word.{wrapping_add, wrapping_sub}
use vanadium.Paging.Strategy.{PageEvictionStrategy}

abbrev pub u32_max : ℕ
u32_max = 2 ^ 32 - 1

-- `xs[i] = a`
abbrev pub set_checked {ℓ} : {A : Type ℓ} → List A → ℕ → A → Option (List A)
set_checked xs i a = if ltb i (length xs) then some (set xs i a) else none

-- The loop that looks for the slot with the smallest time below `best`: the first one of these.
module _ {ℓ} {A : Type ℓ} (time : A → Option ℕ) where
  abbrev pub better : Option ℕ → ℕ → ℕ → Option ℕ → ℕ × Option ℕ
  better none i best found = (best, found)
  better (some t) i best found = if ltb t best then (t, some i) else (best, found)

  pub oldest : List A → ℕ → ℕ → Option ℕ → Option ℕ
  oldest [] i best found = found
  oldest (x ∷ xs) i best found =
      let (best', found') = better (time x) i best found in oldest xs (suc i) best' found'

-- `let mut victim_index = 0`
abbrev pub or_zero : Option ℕ → ℕ
or_zero none = 0
or_zero (some i) = i

pub record LruEvictionStrategy : Type 0 where
  pub usage_counters : List ℕ
  pub global_counter : ℕ

unfoldable pub lru_new : ℕ → LruEvictionStrategy
lru_new num_slots = record { usage_counters = replicate num_slots 0; global_counter = 0 }

abbrev with_counters : ℕ → Option (List ℕ) → Option LruEvictionStrategy
with_counters global none = none
with_counters global (some counters) =
    some (record { usage_counters = counters; global_counter = global })

unfoldable pub lru_on_access : ℕ → ℕ → LruEvictionStrategy → Option LruEvictionStrategy
lru_on_access slot_index page_index s =
    let global = wrapping_add s.global_counter 1 in
    with_counters global (set_checked s.usage_counters slot_index global)

unfoldable pub lru_on_load : ℕ → ℕ → LruEvictionStrategy → Option LruEvictionStrategy
lru_on_load slot_index page_index s =
    let global = wrapping_add s.global_counter 1 in
    with_counters global (set_checked s.usage_counters slot_index global)

pub lru_choose_victim : LruEvictionStrategy → Option ℕ
lru_choose_victim s = some (or_zero (oldest some s.usage_counters 0 u32_max none))

pub lru_on_invalidate : ℕ → ℕ → LruEvictionStrategy → Option LruEvictionStrategy
lru_on_invalidate slot_index page_index s =
    with_counters s.global_counter (set_checked s.usage_counters slot_index 0)

abbrev pub lru_strategy : PageEvictionStrategy
lru_strategy = record {
  Strategy = LruEvictionStrategy;
  on_access = lru_on_access;
  on_load = lru_on_load;
  choose_victim = lru_choose_victim;
  on_invalidate = lru_on_invalidate;
}

pub data PageState : Type 0 where
  free : PageState
  a1 : ℕ → PageState
  am : ℕ → PageState

pub record TwoQEvictionStrategy : Type 0 where
  pub states : List PageState
  pub global_counter : ℕ
  pub a1_max_size : ℕ
  pub a1_size : ℕ
  pub a1out : List ℕ
  pub a1out_max_size : ℕ

pub two_q_new : ℕ → ℕ → ℕ → Option TwoQEvictionStrategy
two_q_new num_slots a1_max_size a1out_max_size =
    if leb num_slots a1_max_size
    then none
    else some (record {
      states = replicate num_slots free;
      global_counter = 0;
      a1_max_size = a1_max_size;
      a1_size = 0;
      a1out = [];
      a1out_max_size = a1out_max_size;
    })

pub two_q_on_access : ℕ → ℕ → TwoQEvictionStrategy → Option TwoQEvictionStrategy
two_q_on_access slot_index page_index s =
    let global = wrapping_add s.global_counter 1 in
    elim (get_elem? s.states slot_index) [
      | none ↦ none
      | some (a1 t) ↦ some (record s { global_counter = global })
      | some (am t) ↦
          some (record s { global_counter = global; states = set s.states slot_index (am global) })
      | some free ↦ some (record s { global_counter = global })
    ]

-- `position` and `remove`: the queue without the first occurrence, if there is one.
pub without : ℕ → List ℕ → Option (List ℕ)
without page_index [] = none
without page_index (x ∷ xs) =
    if x == page_index
    then some xs
    else elim (without page_index xs) [ none ↦ none | some rest ↦ some (x ∷ rest) ]

pub two_q_on_load : ℕ → ℕ → TwoQEvictionStrategy → Option TwoQEvictionStrategy
two_q_on_load slot_index page_index s =
    let global = wrapping_add s.global_counter 1 in
    if ltb slot_index (length s.states)
    then elim (without page_index s.a1out) [
      | some rest ↦ some (record s {
        global_counter = global;
        a1out = rest;
        states = set s.states slot_index (am global);
      })
      | none ↦ some (record s {
        global_counter = global;
        states = set s.states slot_index (a1 global);
        a1_size = wrapping_add s.a1_size 1;
      })
    ]
    else none

abbrev pub a1_time : PageState → Option ℕ
a1_time free = none
a1_time (a1 t) = some t
a1_time (am t) = none

abbrev pub am_time : PageState → Option ℕ
am_time free = none
am_time (a1 t) = none
am_time (am t) = some t

-- `unreachable!` is the panic if there is none.
pub choose_victim_from_a1_fallback : TwoQEvictionStrategy → Option ℕ
choose_victim_from_a1_fallback s = oldest a1_time s.states 0 u32_max none

pub two_q_choose_victim : TwoQEvictionStrategy → Option ℕ
two_q_choose_victim s =
    if leb s.a1_max_size s.a1_size
    then some (or_zero (oldest a1_time s.states 0 u32_max none))
    else elim (oldest am_time s.states 0 u32_max none) [
      | some victim_index ↦ some victim_index
      | none ↦ choose_victim_from_a1_fallback s
    ]

abbrev pop_front : List ℕ → List ℕ
pop_front [] = []
pop_front (x ∷ xs) = xs

abbrev pub push_a1out : ℕ → List ℕ → ℕ → List ℕ
push_a1out max_size a1out page_index =
    (if length a1out == max_size then pop_front a1out else a1out) ++ page_index ∷ []

pub two_q_on_invalidate : ℕ → ℕ → TwoQEvictionStrategy → Option TwoQEvictionStrategy
two_q_on_invalidate slot_index page_index s = elim (get_elem? s.states slot_index) [
  | none ↦ none
  | some (a1 t) ↦ some (record s {
    states = set s.states slot_index free;
    a1_size = wrapping_sub s.a1_size 1;
    a1out = push_a1out s.a1out_max_size s.a1out page_index;
  })
  | some (am t) ↦ some (record s { states = set s.states slot_index free })
  | some free ↦ some (record s { states = set s.states slot_index free })
]

abbrev pub two_q_strategy : PageEvictionStrategy
two_q_strategy = record {
  Strategy = TwoQEvictionStrategy;
  on_access = two_q_on_access;
  on_load = two_q_on_load;
  choose_victim = two_q_choose_victim;
  on_invalidate = two_q_on_invalidate;
}
