-- ===== src/Paging/Evict/TwoQ/Calls.antt =====
-- The calls of `TwoQEvictionStrategy` of vm/src/handlers/lib/evict.rs keep its queues.
use vanadium.Prelude.{
  ℕ, ◌≤◌, ◌≡◌, refl, subst, arith, ltb, Bool, true, false, if◌then◌else◌, List, length, length-set,
  get_elem?, set, Option, none, some,
}
use mathlib.Core.Option.{some-injective}
use vanadium.Word.{wrapping_add, wrapping_sub}
use vanadium.Paging.Evict.{
  PageState, free, a1, am, TwoQEvictionStrategy, without, push_a1out, two_q_on_access,
  two_q_on_load, two_q_on_invalidate,
}
use vanadium.Paging.Evict.TwoQ.Queues.{
  is_a1, IsValid, count_a1-le, count_a1-set, length-without, length-push_a1out,
}

-- A slot whose state changes keeps the count, if neither state is that of the first queue.
set-IsValid :
    (s : TwoQEvictionStrategy) (slot global : ℕ) (old new : PageState) (out : List ℕ)
    → IsValid s
    → get_elem? s.states slot ≡ some old
    → is_a1 old ≡ is_a1 new
    → length out ≤ s.a1out_max_size
    → IsValid (record s { global_counter = global; states = set s.states slot new; a1out = out })
set-IsValid s slot global old new out v e same fits = record {
  few = omega (arith, v.few, length-set s.states slot new);
  counted = omega (arith, v.counted, count_a1-set s.states slot old new e);
  room = v.room;
  bounded = fits;
}

pub access-IsValid :
    (slot page : ℕ) (s t : TwoQEvictionStrategy)
    → two_q_on_access slot page s ≡ some t
    → IsValid s
    → IsValid t
unfolding two_q_on_access
access-IsValid slot page s t e v = by_state (get_elem? s.states slot) refl e
  where
    global : ℕ
    global = wrapping_add s.global_counter 1

    kept : IsValid (record s { global_counter = global })
    kept = record { few = v.few; counted = v.counted; room = v.room; bounded = v.bounded }

    by_state :
        (o : Option PageState)
        → get_elem? s.states slot ≡ o
        → (elim o as (λ x. Option TwoQEvictionStrategy) [
          | none ↦ none
          | some (a1 t) ↦ some (record s { global_counter = global })
          | some (am t) ↦
              some (record s { global_counter = global; states = set s.states slot (am global) })
          | some free ↦ some (record s { global_counter = global })
        ])
          ≡ some t
        → IsValid t
    by_state none q e = cc
    by_state (some free) q e = subst IsValid (some-injective _ _ e) kept
    by_state (some (a1 u)) q e = subst IsValid (some-injective _ _ e) kept
    by_state (some (am u)) q e =
        subst IsValid (some-injective _ _ e)
          (set-IsValid s slot global (am u) (am global) s.a1out v q refl v.bounded)

abbrev into_am : ℕ → TwoQEvictionStrategy → List ℕ → TwoQEvictionStrategy
into_am slot s rest =
    let global = wrapping_add s.global_counter 1 in
    record s { global_counter = global; a1out = rest; states = set s.states slot (am global) }

abbrev into_a1 : ℕ → TwoQEvictionStrategy → TwoQEvictionStrategy
into_a1 slot s =
    let global = wrapping_add s.global_counter 1 in
    record s {
      global_counter = global;
      states = set s.states slot (a1 global);
      a1_size = wrapping_add s.a1_size 1;
    }

pub load-IsValid :
    (slot page : ℕ) (s t : TwoQEvictionStrategy)
    → get_elem? s.states slot ≡ some free
    → two_q_on_load slot page s ≡ some t
    → IsValid s
    → IsValid t
unfolding two_q_on_load
load-IsValid slot page s t f e v = by_range (ltb slot (length s.states)) e
  where
    global : ℕ
    global = wrapping_add s.global_counter 1

    into_a1-IsValid : IsValid (into_a1 slot s)
    into_a1-IsValid =
        let size = length-set s.states slot (a1 global) in
        let more = count_a1-set s.states slot free (a1 global) f in
        record {
          few = omega (arith, v.few, size);
          counted =
              omega
                (arith, v.counted, v.few, more, size, count_a1-le (set s.states slot (a1 global)));
          room = v.room;
          bounded = v.bounded;
        }

    by_queue :
        (o : Option (List ℕ))
        → without page s.a1out ≡ o
        → (elim o as (λ x. Option TwoQEvictionStrategy) [
          | some rest ↦ some (into_am slot s rest)
          | none ↦ some (into_a1 slot s)
        ])
          ≡ some t
        → IsValid t
    by_queue none q e = subst IsValid (some-injective _ _ e) into_a1-IsValid
    by_queue (some rest) q e = subst IsValid (some-injective _ _ e) (
        set-IsValid s slot global free (am global) rest v f refl
          (omega (arith, v.bounded, length-without page s.a1out rest q)))

    by_range :
        (b : Bool)
        → (if b
            then (elim (without page s.a1out) as (λ x. Option TwoQEvictionStrategy) [
              | some rest ↦ some (into_am slot s rest)
              | none ↦ some (into_a1 slot s)
            ])
            else none)
          ≡ some t
        → IsValid t
    by_range true e = by_queue (without page s.a1out) refl e
    by_range false e = cc

pub invalidate-IsValid :
    (slot page : ℕ) (s t : TwoQEvictionStrategy)
    → two_q_on_invalidate slot page s ≡ some t
    → IsValid s
    → IsValid t
unfolding two_q_on_invalidate
invalidate-IsValid slot page s t e v = by_state (get_elem? s.states slot) refl e
  where
    queued : List ℕ
    queued = push_a1out s.a1out_max_size s.a1out page

    by_state :
        (o : Option PageState)
        → get_elem? s.states slot ≡ o
        → (elim o as (λ x. Option TwoQEvictionStrategy) [
          | none ↦ none
          | some (a1 t) ↦ some (record s {
            states = set s.states slot free;
            a1_size = wrapping_sub s.a1_size 1;
            a1out = queued;
          })
          | some (am t) ↦ some (record s { states = set s.states slot free })
          | some free ↦ some (record s { states = set s.states slot free })
        ])
          ≡ some t
        → IsValid t
    by_state none q e = cc
    by_state (some free) q e =
        subst IsValid (some-injective _ _ e)
          (set-IsValid s slot s.global_counter free free s.a1out v q refl v.bounded)
    by_state (some (am u)) q e =
        subst IsValid (some-injective _ _ e)
          (set-IsValid s slot s.global_counter (am u) free s.a1out v q refl v.bounded)
    by_state (some (a1 u)) q e =
        let size = length-set s.states slot free in
        let fewer = count_a1-set s.states slot (a1 u) free q in
        subst IsValid (some-injective _ _ e) (record {
          few = omega (arith, v.few, size);
          counted = omega (arith, v.counted, v.few, fewer, count_a1-le s.states);
          room = v.room;
          bounded = length-push_a1out s.a1out_max_size page s.a1out v.room v.bounded;
        })
