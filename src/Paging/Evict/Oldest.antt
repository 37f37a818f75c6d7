-- ===== src/Paging/Evict/Oldest.antt =====
-- The scan for the oldest slot of vm/src/handlers/lib/evict.rs.
use vanadium.Prelude.{
  ℕ, zero, suc, ◌+◌, ◌<◌, ◌≤◌, ◌≡◌, ◌⊎◌, refl, sym, ap, ◌∙◌, subst, arith, ltb, Bool, Bool-cases,
  inl, inr, false, List, [], ◌∷◌, get_elem?, Option, none, some, ltb→lt, if◌then◌else◌,
}
use mathlib.Core.Option.{some-injective}
use vanadium.Paging.Evict.{better, oldest}

module _ {ℓ} {A : Type ℓ} (time : A → Option ℕ) where
  -- The time of the slot `j`, if it has one.
  abbrev pub time_of : Option A → Option ℕ
  time_of none = none
  time_of (some x) = time x

  abbrev pub time_at : List A → ℕ → Option ℕ
  time_at xs j = time_of (get_elem? xs j)

  -- No slot has a smaller time.
  pub record IsOldest (xs : List A) (v : ℕ) : Type 0 where
    pub age : ℕ
    pub at : time_at xs v ≡ some age
    pub first : (j t : ℕ) → time_at xs j ≡ some t → age ≤ t

  -- What a scan from the index `i` has found: nothing below `best`, or the oldest slot.
  data Scan (xs : List A) (i best : ℕ) (found result : Option ℕ) : Type 0 where
    nothing :
        result ≡ found
        → ((j t : ℕ) → time_at xs j ≡ some t → best ≤ t)
        → Scan xs i best found result
    at_slot :
        (k : ℕ) (o : IsOldest xs k)
        → o.age < best
        → result ≡ some (i + k)
        → Scan xs i best found result

  absent_time : {t : ℕ} → ¬ (◌≡◌ {A = Option ℕ} none (some t))
  absent_time h = cc

  shifted :
      (x : A) (xs : List A) (k : ℕ) (o : IsOldest xs k)
      → ((t : ℕ) → time x ≡ some t → o.age ≤ t)
      → IsOldest (x ∷ xs) (suc k)
  shifted x xs k o h = record { age = o.age; at = o.at; first = later }
    where
      later : (j t : ℕ) → time_at (x ∷ xs) j ≡ some t → o.age ≤ t
      later zero t e = h t e
      later (suc j) t e = o.first j t e

  -- A slot that is not below `best` is passed over.
  passed :
      (x : A) (xs : List A) (i best : ℕ) (found result : Option ℕ)
      → ((t : ℕ) → time x ≡ some t → best ≤ t)
      → Scan xs (suc i) best found result
      → Scan (x ∷ xs) i best found result
  unfolding shifted
  passed x xs i best found result h (nothing r f) = nothing r later
    where
      later : (j t : ℕ) → time_at (x ∷ xs) j ≡ some t → best ≤ t
      later zero t e = h t e
      later (suc j) t e = f j t e
  passed x xs i best found result h (at_slot k o l r) =
      at_slot (suc k) (shifted x xs k o (λ t e. below t e)) l (r ∙ ap some (index i k))
    where
      below : (t : ℕ) → time x ≡ some t → o.age ≤ t
      below t e = omega (arith, h t e)

      index : (i k : ℕ) → suc i + k ≡ i + suc k
      index i k = omega arith

  taken :
      (x : A) (xs : List A) (i best t : ℕ) (found result : Option ℕ)
      → time x ≡ some t
      → t < best
      → Scan xs (suc i) t (some i) result
      → Scan (x ∷ xs) i best found result
  unfolding shifted
  taken x xs i best t found result e l (nothing r f) =
      at_slot 0 (record { age = t; at = e; first = later }) l (r ∙ ap some (index i))
    where
      later : (j u : ℕ) → time_at (x ∷ xs) j ≡ some u → t ≤ u
      later zero u q = let same = some-injective _ _ (sym e ∙ q) in omega arith
      later (suc j) u q = f j u q

      index : (i : ℕ) → i ≡ i + 0
      index i = omega arith
  taken x xs i best t found result e l (at_slot k o m r) =
      at_slot (suc k) (shifted x xs k o below) (omega arith) (r ∙ ap some (index i k))
    where
      below : (u : ℕ) → time x ≡ some u → o.age ≤ u
      below u q = let same = some-injective _ _ (sym e ∙ q) in omega arith

      index : (i k : ℕ) → suc i + k ≡ i + suc k
      index i k = omega arith

  passed_or_taken :
      (x : A) (xs : List A) (i best : ℕ) (found result : Option ℕ) (o : Option ℕ)
      → time x ≡ o
      → Scan xs (suc i) (better time o i best found).0 (better time o i best found).1 result
      → Scan (x ∷ xs) i best found result
  passed_or_taken x xs i best found result none e s =
      passed x xs i best found result (λ t q. absurd (absent_time (sym e ∙ q))) s
  passed_or_taken x xs i best found result (some t) e s = elim (Bool-cases (ltb t best)) [
    | inl l ↦ taken x xs i best t found result e (ltb→lt t best l) (subst (λ b. chosen b) l s)
    | inr g ↦
        passed x xs i best found result (λ u q. not_below t u g (some-injective _ _ (sym e ∙ q)))
          (subst (λ b. chosen b) g s)
  ]
    where
      chosen : Bool → Type 0
      chosen b =
          let p : ℕ × Option ℕ = if b then (t, some i) else (best, found) in
          Scan xs (suc i) p.0 p.1 result

      not_below : (t u : ℕ) → ltb t best ≡ false → t ≡ u → best ≤ u
      not_below t u g same = ground arith

  scan :
      (xs : List A) (i best : ℕ) (found : Option ℕ)
      → Scan xs i best found (oldest time xs i best found)
  unfolding oldest
  scan [] i best found = nothing refl (λ j t h. absurd (absent_time h))
  scan (x ∷ xs) i best found =
      passed_or_taken x xs i best found _ (time x) refl (scan xs (suc i) _ _)

  -- Where the times are below `best`, a scan finds the oldest slot, or there is none with a time.
  pub oldest_lem :
      (xs : List A) (best : ℕ)
      → ((j t : ℕ) → time_at xs j ≡ some t → t < best)
      → ((v : ℕ) × (oldest time xs 0 best none ≡ some v) × IsOldest xs v)
        ⊎ ((oldest time xs 0 best none ≡ none) × ((j : ℕ) → time_at xs j ≡ none))
  oldest_lem xs best h = elim (scan xs 0 best none) [
    | nothing r f ↦ inr (r, λ j. no_time j (time_at xs j) refl (f j))
    | at_slot k o l r ↦ inl (k, r ∙ ap some (zero_add k), o)
  ]
    where
      no_time :
          (j : ℕ) (o : Option ℕ)
          → time_at xs j ≡ o
          → ((t : ℕ) → time_at xs j ≡ some t → best ≤ t)
          → time_at xs j ≡ none
      no_time j none e f = e
      no_time j (some t) e f = absurd (clash (f t e) (h j t e))
        where
          clash : {t : ℕ} → best ≤ t → t < best → ⊥
          clash a b = omega arith

      zero_add : (k : ℕ) → 0 + k ≡ k
      zero_add k = omega arith
