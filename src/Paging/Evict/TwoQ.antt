-- ===== src/Paging/Evict/TwoQ.antt =====
-- `TwoQEvictionStrategy` of vm/src/handlers/lib/evict.rs, over the calls of a memory.
pub mod Queues
mod Calls
pub mod Victim
use vanadium.Prelude.{
  ℕ, zero, suc, ◌+◌, ◌-◌, ◌^◌, ◌<◌, ◌≤◌, ◌≡◌, ◌≢◌, ◌==◌, ◌⊎◌, refl, sym, ap, ◌∙◌, subst, arith, leb,
  ltb, Bool, Bool-cases, true, false, inl, inr, if◌then◌else◌, List, [], ◌∷◌, ◌++◌, length,
  length-append, length-set, length-replicate, get_elem?, set, replicate, Option, none, some,
}
use mathlib.Core.Option.{some-injective}
use vanadium.Word.{wrapping_add, wrapping_sub}
use vanadium.Paging.Evict.{
  PageState, free, a1, am, TwoQEvictionStrategy, a1_time, am_time, oldest, or_zero, u32_max,
  without, push_a1out, two_q_new, two_q_on_access, two_q_on_load, two_q_on_invalidate,
  two_q_choose_victim, choose_victim_from_a1_fallback,
}
use vanadium.Paging.Evict.Oldest.{IsOldest, time_of, time_at, oldest_lem}
use vanadium.Paging.Evict.TwoQ.Queues.{
  is_a1, count_a1, IsValid, count_a1-le, count_a1-set, count_a1-replicate, length-without,
  length-push_a1out,
}
use vanadium.Paging.Evict.TwoQ.Calls.{access-IsValid, load-IsValid, invalidate-IsValid}

-- The calls that the memory makes: a page is loaded into a slot that is free.
pub data Step : TwoQEvictionStrategy → TwoQEvictionStrategy → Type 0 where
  access :
      (slot page : ℕ) (s t : TwoQEvictionStrategy) → two_q_on_access slot page s ≡ some t → Step s t
  load :
      (slot page : ℕ) (s t : TwoQEvictionStrategy)
      → get_elem? s.states slot ≡ some free
      → two_q_on_load slot page s ≡ some t
      → Step s t
  invalidate :
      (slot page : ℕ) (s t : TwoQEvictionStrategy)
      → two_q_on_invalidate slot page s ≡ some t
      → Step s t

pub data Reach (s : TwoQEvictionStrategy) : TwoQEvictionStrategy → Type 0 where
  here : Reach s s
  next : {t u : TwoQEvictionStrategy} → Reach s t → Step t u → Reach s u

Step-IsValid : {s t : TwoQEvictionStrategy} → Step s t → IsValid s → IsValid t
Step-IsValid (access slot page s t e) v = access-IsValid slot page s t e v
Step-IsValid (load slot page s t f e) v = load-IsValid slot page s t f e v
Step-IsValid (invalidate slot page s t e) v = invalidate-IsValid slot page s t e v

Reach-IsValid : {s t : TwoQEvictionStrategy} → Reach s t → IsValid s → IsValid t
Reach-IsValid here v = v
Reach-IsValid (next r st) v = Step-IsValid st (Reach-IsValid r v)

new-IsValid :
    (num_slots a1_max_size a1out_max_size : ℕ) (s : TwoQEvictionStrategy)
    → num_slots < 2 ^ 32
    → 0 < a1out_max_size
    → two_q_new num_slots a1_max_size a1out_max_size ≡ some s
    → IsValid s
unfolding two_q_new
new-IsValid num_slots a1_max_size a1out_max_size s few room e =
    elim (Bool-cases (leb num_slots a1_max_size)) [
      | inl refused ↦ let no = subst (λ b. made b ≡ some s) refused e in cc
      | inr fine ↦
          let e1 = subst (λ b. made b ≡ some s) fine e in
          subst IsValid (some-injective _ _ e1) (record {
            few = omega (arith, length-replicate num_slots free);
            counted = sym (count_a1-replicate num_slots);
            room = room;
            bounded = omega arith;
          })
    ]
  where
    made : Bool → Option TwoQEvictionStrategy
    made b =
        if b
        then none
        else some (record {
          states = replicate num_slots free;
          global_counter = 0;
          a1_max_size = a1_max_size;
          a1_size = 0;
          a1out = [];
          a1out_max_size = a1out_max_size;
        })

-- Whatever calls the memory makes of a new 2Q strategy of less than 2^32 slots and a positive bound
-- on its queue of evicted pages, loading pages only into free slots: a1_size is the number of slots
-- in the first queue, and the queue of evicted pages stays within its bound.
pub Reach-IsValid_new :
    (num_slots a1_max_size a1out_max_size : ℕ) (s t : TwoQEvictionStrategy)
    → num_slots < 2 ^ 32
    → 0 < a1out_max_size
    → two_q_new num_slots a1_max_size a1out_max_size ≡ some s
    → Reach s t
    → IsValid t
Reach-IsValid_new num_slots a1_max_size a1out_max_size s t few room e r =
    Reach-IsValid r (new-IsValid num_slots a1_max_size a1out_max_size s few room e)
