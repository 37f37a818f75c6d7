-- ===== src/Paging/Evict/TwoQ/Victim.antt =====
-- The victim of `TwoQEvictionStrategy` of vm/src/handlers/lib/evict.rs.
use vanadium.Prelude.{
  ℕ, ◌<◌, ◌≡◌, ◌≢◌, ◌⊎◌, refl, sym, ap, ◌∙◌, arith, leb, Bool, true, false, inl, inr, if◌then◌else◌,
  get_elem?, Option, none, some,
}
use vanadium.Paging.Evict.{
  PageState, free, a1, am, TwoQEvictionStrategy, a1_time, am_time, oldest, or_zero, u32_max,
  two_q_choose_victim, choose_victim_from_a1_fallback,
}
use vanadium.Paging.Evict.Oldest.{IsOldest, time_of, time_at, oldest_lem}
use vanadium.Paging.Evict.TwoQ.Queues.{count_a1, IsValid, a1_there}

-- In a valid 2Q strategy with a slot that is not free and a positive size of the first queue, while
-- all times are below 2^32 - 1: the victim is the oldest slot of the first queue if that is full,
-- and otherwise the one of the second queue that was not used for longest, or the oldest of the
-- first if the second is empty.
pub two_q_choose_victim-IsOldest :
    (s : TwoQEvictionStrategy) (slot : ℕ) (state : PageState)
    → IsValid s
    → 0 < s.a1_max_size
    → ((j t : ℕ) → time_at a1_time s.states j ≡ some t → t < u32_max)
    → ((j t : ℕ) → time_at am_time s.states j ≡ some t → t < u32_max)
    → get_elem? s.states slot ≡ some state
    → state ≢ free
    → (v : ℕ) × (two_q_choose_victim s ≡ some v)
      × (if leb s.a1_max_size s.a1_size
          then IsOldest a1_time s.states v
          else IsOldest am_time s.states v
          ⊎ (((j : ℕ) → time_at am_time s.states j ≡ none) × IsOldest a1_time s.states v))
unfolding two_q_choose_victim choose_victim_from_a1_fallback
two_q_choose_victim-IsOldest s slot state v positive a1_small am_small there full =
    by_size (leb s.a1_max_size s.a1_size) refl
  where
    second : Option ℕ → Option ℕ
    second o = elim o as (λ x. Option ℕ) [
      | some victim_index ↦ some victim_index
      | none ↦ oldest a1_time s.states 0 u32_max none
    ]

    chosen : Bool → Option ℕ
    chosen b =
        if b
        then some (or_zero (oldest a1_time s.states 0 u32_max none))
        else second (oldest am_time s.states 0 u32_max none)

    Chosen : Bool → ℕ → Type 0
    Chosen b v =
        if b
        then IsOldest a1_time s.states v
        else IsOldest am_time s.states v
        ⊎ (((j : ℕ) → time_at am_time s.states j ≡ none) × IsOldest a1_time s.states v)

    empty :
        (x : PageState)
        → get_elem? s.states slot ≡ some x
        → x ≢ free
        → time_at a1_time s.states slot ≡ none
        → time_at am_time s.states slot ≡ none
        → ⊥
    empty free e ne no1 no2 = ne refl
    empty (a1 t) e ne no1 no2 = let no = sym (ap (time_of a1_time) e) ∙ no1 in cc
    empty (am t) e ne no1 no2 = let no = sym (ap (time_of am_time) e) ∙ no2 in cc

    by_size :
        (b : Bool) → leb s.a1_max_size s.a1_size ≡ b → (v : ℕ) × (chosen b ≡ some v) × Chosen b v
    by_size true e = elim (oldest_lem a1_time s.states u32_max a1_small) [
      | inl found ↦ (found.0, ap (λ o. some (or_zero o)) found.1, found.2)
      | inr none_left ↦ absurd (a1_there s.states (counted_pos e) none_left.1)
    ]
      where
        counted_pos : leb s.a1_max_size s.a1_size ≡ true → 0 < count_a1 s.states
        counted_pos e = let c = v.counted in ground arith
    by_size false e = elim (oldest_lem am_time s.states u32_max am_small) [
      | inl found ↦ (found.0, ap second found.1, inl found.2)
      | inr no_am ↦ elim (oldest_lem a1_time s.states u32_max a1_small) [
        | inl found ↦ (found.0, ap second no_am.0 ∙ found.1, inr (no_am.1, found.2))
        | inr no_a1 ↦ absurd (empty state there full (no_a1.1 slot) (no_am.1 slot))
      ]
    ]
