-- ===== src/Paging/Evict/Lru/Calls.antt =====
-- `LruEvictionStrategy` of vm/src/handlers/lib/evict.rs, over the calls of a memory.
use vanadium.Prelude.{
  ℕ, zero, suc, ◌<◌, ◌≤◌, ◌==◌, ◌≡◌, refl, sym, ap, ◌∙◌, arith, ltb, ltb→lt, All, Bool, true, false,
  if◌then◌else◌, List, [], ◌∷◌, length, length-set, length-replicate, get_elem?, get_elem?-set, set,
  replicate, Option, none, some,
}
use mathlib.Core.Option.{some-injective}
use vanadium.Paging.Evict.{
  LruEvictionStrategy, set_checked, with_counters, u32_max, lru_new, lru_on_access, lru_on_load,
  lru_on_invalidate,
}
use vanadium.Word.{wrapping_add}

-- The calls of a memory that change the strategy, each with a slot and a page.
pub data Call : Type 0 where
  on_access on_load on_invalidate : ℕ → ℕ → Call

pub call : Call → LruEvictionStrategy → Option LruEvictionStrategy
call (on_access slot page) s = lru_on_access slot page s
call (on_load slot page) s = lru_on_load slot page s
call (on_invalidate slot page) s = lru_on_invalidate slot page s

-- A new strategy after the calls of a history, in which the latest call stands first.
unfoldable pub after : ℕ → List Call → Option LruEvictionStrategy
after slots [] = some (lru_new slots)
after slots (c ∷ earlier) = elim (after slots earlier) [ none ↦ none | some s ↦ call c s ]

-- The number of uses in a history: a slot is used by an access and by a load.
unfoldable pub uses : List Call → ℕ
uses [] = 0
uses (on_access slot page ∷ earlier) = suc (uses earlier)
uses (on_load slot page ∷ earlier) = suc (uses earlier)
uses (on_invalidate slot page ∷ earlier) = uses earlier

-- Which use of a history, counted from 1, was the latest one of the slot `j`; 0 for a slot that was
-- never used, or not since it was invalidated.
unfoldable pub last_use : List Call → ℕ → ℕ
last_use [] j = 0
last_use (on_access slot page ∷ earlier) j =
    if slot == j then suc (uses earlier) else last_use earlier j
last_use (on_load slot page ∷ earlier) j =
    if slot == j then suc (uses earlier) else last_use earlier j
last_use (on_invalidate slot page ∷ earlier) j = if slot == j then 0 else last_use earlier j

pub uses-length : (h : List Call) → uses h ≤ length h
unfolding uses
uses-length [] = omega arith
uses-length (on_access slot page ∷ h) = omega (arith, uses-length h)
uses-length (on_load slot page ∷ h) = omega (arith, uses-length h)
uses-length (on_invalidate slot page ∷ h) = omega (arith, uses-length h)

pub last_use-uses : (h : List Call) (j : ℕ) → last_use h j ≤ uses h
unfolding uses last_use
last_use-uses [] j = omega arith
last_use-uses (on_access slot page ∷ h) j = ground (arith, last_use-uses h j)
last_use-uses (on_load slot page ∷ h) j = ground (arith, last_use-uses h j)
last_use-uses (on_invalidate slot page ∷ h) j = ground (arith, last_use-uses h j)

-- The counter of each slot is the number of its latest use.
pub record Tracks (slots : ℕ) (h : List Call) (s : LruEvictionStrategy) : Type 0 where
  pub size : length s.usage_counters ≡ slots
  pub global : s.global_counter ≡ uses h
  pub counters : (j : ℕ) → j < slots → get_elem? s.usage_counters j ≡ some (last_use h j)

-- A slot that the counters have gets a value.
set-Tracks :
    (slots slot value global : ℕ) (h h' : List Call) (s t : LruEvictionStrategy)
    → Tracks slots h s
    → global ≡ uses h'
    → ((j : ℕ) → last_use h' j ≡ (if slot == j then value else last_use h j))
    → with_counters global (set_checked s.usage_counters slot value) ≡ some t
    → Tracks slots h' t
set-Tracks slots slot value global h h' s t tr g last e =
    by_range (ltb slot (length s.usage_counters)) refl e
  where
    picked :
        (b : Bool) (j : ℕ)
        → j < slots
        → (if b then some value else get_elem? s.usage_counters j)
          ≡ some (if b then value else last_use h j)
    picked true j k = refl
    picked false j k = tr.counters j k

    by_range :
        (r : Bool)
        → ltb slot (length s.usage_counters) ≡ r
        → with_counters global (if r then some (set s.usage_counters slot value) else none) ≡ some t
        → Tracks slots h' t
    by_range false q e = cc
    by_range true q e = rw (← some-injective _ _ e) (record {
      size = length-set s.usage_counters slot value ∙ tr.size;
      global = g;
      counters = λ j k.
          get_elem?-set s.usage_counters slot j value (ltb→lt _ _ q)
          ∙ picked (slot == j) j k
          ∙ ap some (sym (last j));
    })

new-Tracks : (slots : ℕ) → Tracks slots [] (lru_new slots)
unfolding lru_new uses last_use
new-Tracks slots = record { size = length-replicate slots 0; global = refl; counters = zeros slots }
  where
    zeros : (n j : ℕ) → j < n → get_elem? {A = ℕ} (replicate n 0) j ≡ some 0
    zeros zero j k = absurd (omega arith)
    zeros (suc n) zero k = refl
    zeros (suc n) (suc j) k = zeros n j (omega arith)

abbrev pub slot_of : Call → ℕ
slot_of (on_access slot page) = slot
slot_of (on_load slot page) = slot
slot_of (on_invalidate slot page) = slot

-- Every call of a history is about a slot that there is.
abbrev pub InRange : ℕ → List Call → Type 0
InRange slots h = All (λ c. slot_of c < slots) h

call-eq-some :
    (slots slot value global : ℕ) (s : LruEvictionStrategy)
    → length s.usage_counters ≡ slots
    → slot < slots
    → (t : LruEvictionStrategy) × (with_counters global (set_checked s.usage_counters slot value)
        ≡ some t)
call-eq-some slots slot value global s size k =
    let inside : ltb slot (length s.usage_counters) ≡ true = ground arith in
    rw inside
      (record { usage_counters = set s.usage_counters slot value; global_counter = global }, refl)

-- A counter of uses does not wrap around while it is below 2^32 - 1.
next_use :
    (slots : ℕ) (h : List Call) (s : LruEvictionStrategy)
    → length h < u32_max
    → Tracks slots h s
    → wrapping_add s.global_counter 1 ≡ suc (uses h)
next_use slots h s small tr = let bound = uses-length h in rw tr.global (omega arith)

call-Tracks :
    (slots : ℕ) (c : Call) (h : List Call) (s : LruEvictionStrategy)
    → slot_of c < slots
    → length h < u32_max
    → Tracks slots h s
    → (t : LruEvictionStrategy) × (call c s ≡ some t) × Tracks slots (c ∷ h) t
unfolding call lru_on_access lru_on_load lru_on_invalidate uses last_use
call-Tracks slots (on_access slot page) h s k small tr =
    let g = next_use slots h s small tr in
    let (t, e) = call-eq-some slots slot _ _ s tr.size k in
    (t, e, set-Tracks slots slot _ _ h _ s t tr g (λ j. rw g refl) e)
call-Tracks slots (on_load slot page) h s k small tr =
    let g = next_use slots h s small tr in
    let (t, e) = call-eq-some slots slot _ _ s tr.size k in
    (t, e, set-Tracks slots slot _ _ h _ s t tr g (λ j. rw g refl) e)
call-Tracks slots (on_invalidate slot page) h s k small tr =
    let (t, e) = call-eq-some slots slot _ _ s tr.size k in
    (t, e, set-Tracks slots slot _ _ h _ s t tr tr.global (λ j. refl) e)

-- A history that is in range runs without a panic.
pub after-Tracks :
    (slots : ℕ) (h : List Call)
    → InRange slots h
    → length h < u32_max
    → (s : LruEvictionStrategy) × (after slots h ≡ some s) × Tracks slots h s
unfolding after
after-Tracks slots [] r small = (lru_new slots, refl, new-Tracks slots)
after-Tracks slots (c ∷ h) r small =
    let (s, e, tr) = after-Tracks slots h r.1 (omega arith) in
    let (t, e', tr') = call-Tracks slots c h s r.0 (omega arith) tr in (t, rw e e', tr')
