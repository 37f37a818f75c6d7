-- ===== src/Paging/Evict/TwoQ/Queues.antt =====
-- The sizes of the queues of `TwoQEvictionStrategy` of vm/src/handlers/lib/evict.rs.
use vanadium.Prelude.{
  ℕ, zero, suc, ◌+◌, ◌^◌, ◌<◌, ◌≤◌, ◌≡◌, ◌==◌, refl, ap, arith, Bool, Bool-cases, true, false, inl,
  inr, if◌then◌else◌, List, [], ◌∷◌, length, length-append, get_elem?, set, replicate, Option, none,
  some,
}
use mathlib.Core.Option.{some-injective}
use vanadium.Paging.Evict.{
  PageState, free, a1, am, TwoQEvictionStrategy, a1_time, without, push_a1out,
}
use vanadium.Paging.Evict.Oldest.{time_at}

abbrev pub is_a1 : PageState → ℕ
is_a1 free = 0
is_a1 (a1 t) = 1
is_a1 (am t) = 0

pub count_a1 : List PageState → ℕ
count_a1 [] = 0
count_a1 (x ∷ xs) = is_a1 x + count_a1 xs

pub record IsValid (s : TwoQEvictionStrategy) : Type 0 where
  pub few : length s.states < 2 ^ 32
  pub counted : s.a1_size ≡ count_a1 s.states
  pub room : 0 < s.a1out_max_size
  pub bounded : length s.a1out ≤ s.a1out_max_size

pub count_a1-le : (xs : List PageState) → count_a1 xs ≤ length xs
unfolding count_a1
count_a1-le [] = omega arith
count_a1-le (free ∷ xs) = omega (arith, count_a1-le xs)
count_a1-le (a1 t ∷ xs) = omega (arith, count_a1-le xs)
count_a1-le (am t ∷ xs) = omega (arith, count_a1-le xs)

pub count_a1-set :
    (xs : List PageState) (i : ℕ) (old new : PageState)
    → get_elem? xs i ≡ some old
    → count_a1 (set xs i new) + is_a1 old ≡ count_a1 xs + is_a1 new
unfolding count_a1
count_a1-set [] i old new e = cc
count_a1-set (x ∷ xs) zero old new e = let same = ap is_a1 (some-injective _ _ e) in omega arith
count_a1-set (x ∷ xs) (suc i) old new e = omega (arith, count_a1-set xs i old new e)

pub count_a1-replicate : (n : ℕ) → count_a1 (replicate n free) ≡ 0
unfolding count_a1
count_a1-replicate zero = refl
count_a1-replicate (suc n) = omega (arith, count_a1-replicate n)

pub length-without : (i : ℕ) (xs rest : List ℕ) → without i xs ≡ some rest → length rest ≤ length xs
unfolding without
length-without i [] rest e = cc
length-without i (x ∷ xs) rest e =
    first_or_later (x == i) (without i xs) (λ r q. length-without i xs r q) e
  where
    first_or_later :
        (b : Bool) (o : Option (List ℕ))
        → ((r : List ℕ) → o ≡ some r → length r ≤ length xs)
        → (if b then some xs else elim o [ none ↦ none | some r ↦ some (x ∷ r) ]) ≡ some rest
        → length rest ≤ suc (length xs)
    first_or_later true o h q = let n = ap length (some-injective _ _ q) in omega arith
    first_or_later false none h q = cc
    first_or_later false (some r) h q =
        let n = ap length (some-injective _ _ q) in omega (arith, h r refl)

pub length-push_a1out :
    (max_size i : ℕ) (xs : List ℕ)
    → 0 < max_size
    → length xs ≤ max_size
    → length (push_a1out max_size xs i) ≤ max_size
length-push_a1out max_size i [] p l = elim (Bool-cases (0 == max_size)) [
  | inl e ↦ absurd (ground arith)
  | inr e ↦ rw e (omega arith)
]
length-push_a1out max_size i (x ∷ xs) p l = elim (Bool-cases (suc (length xs) == max_size)) [
  | inl e ↦ rw e (omega (arith, length-append xs (i ∷ [])))
  | inr e ↦
      let short : suc (length xs) < max_size = ground arith in
      rw e (omega (arith, length-append xs (i ∷ [])))
]

-- Some slot is in the first queue if any is counted.
pub a1_there : (xs : List PageState) → 0 < count_a1 xs → ¬ ((j : ℕ) → time_at a1_time xs j ≡ none)
unfolding count_a1
a1_there [] h f = omega arith
a1_there (free ∷ xs) h f = a1_there xs (omega arith) (λ j. f (suc j))
a1_there (a1 t ∷ xs) h f = let no = f 0 in cc
a1_there (am t ∷ xs) h f = a1_there xs (omega arith) (λ j. f (suc j))
