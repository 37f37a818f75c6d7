-- ===== src/Paging/Outsourced/Search.antt =====
-- The searches of the cache of vm/src/handlers/lib/outsourced_mem.rs.
use vanadium.Prelude.{
  ℕ, zero, suc, ◌≡◌, ◌==◌, ◌⊎◌, refl, sym, ◌∙◌, ==→eq, ==_refl, ap, subst, not, ◌&&◌, Bool, true,
  false, inl, inr, if◌then◌else◌, List, [], ◌∷◌, get_elem?, Option, none, some,
}
use mathlib.Core.Option.{some-injective}
use vanadium.Paging.Outsourced.{CachedPage, counted_up, find_page, find_free}
use vanadium.Paging.Outsourced.Slots.{Slots, IsHeld}

abbrev pub slots_of : List CachedPage → Slots
slots_of cs j = get_elem? cs j

first_hit :
    (b : Bool) (o : Option ℕ) (slot : ℕ)
    → (if b then some 0 else counted_up o) ≡ some slot
    → ((b ≡ true) × (0 ≡ slot)) ⊎ ((k : ℕ) × (o ≡ some k) × (suc k ≡ slot))
first_hit true o slot e = inl (refl, some-injective _ _ e)
first_hit false none slot e = cc
first_hit false (some k) slot e = inr (k, refl, some-injective _ _ e)

no_hit :
    (b : Bool) (o : Option ℕ)
    → (if b then some 0 else counted_up o) ≡ none
    → (b ≡ false) × (o ≡ none)
no_hit true o e = cc
no_hit false none e = (refl, refl)
no_hit false (some k) e = cc

and_true : (a b : Bool) → (a && b) ≡ true → (a ≡ true) × (b ≡ true)
and_true true b e = (refl, e)
and_true false b e = cc

pub find_page-IsHeld :
    (i : ℕ) (cs : List CachedPage) (slot : ℕ)
    → find_page i cs ≡ some slot
    → (c : CachedPage) × IsHeld (slots_of cs) slot i c
unfolding find_page
find_page-IsHeld i [] slot e = cc
find_page-IsHeld i (c ∷ cs) slot e =
    elim (first_hit (c.valid && c.idx == i) (find_page i cs) slot e) [
      | inl hit ↦
          let (valid, index) = and_true c.valid (c.idx == i) hit.0 in
          (
            c,
            subst (λ t. IsHeld (slots_of (c ∷ cs)) t i c) hit.1
                (record { there = refl; valid = valid; index = ==→eq c.idx i index }),
          )
      | inr later ↦
          let (d, h) = find_page-IsHeld i cs later.0 later.1 in
          (
            d,
            subst (λ t. IsHeld (slots_of (c ∷ cs)) t i d) later.2
                (record { there = h.there; valid = h.valid; index = h.index }),
          )
    ]

pub find_page-none :
    (i : ℕ) (cs : List CachedPage)
    → find_page i cs ≡ none
    → (slot : ℕ) (c : CachedPage) → ¬ IsHeld (slots_of cs) slot i c
unfolding find_page
find_page-none i [] e slot c h = let t = h.there in cc
find_page-none i (c ∷ cs) e zero d h =
    let (miss, rest) = no_hit (c.valid && c.idx == i) (find_page i cs) e in
    let same = some-injective _ _ h.there in
    let hit : (c.valid && c.idx == i) ≡ true =
      subst (λ (x : CachedPage). (x.valid && x.idx == i) ≡ true) (sym same)
        (rw h.valid (rw h.index (==_refl i))) in
    cc
find_page-none i (c ∷ cs) e (suc slot) d h =
    let (miss, rest) = no_hit (c.valid && c.idx == i) (find_page i cs) e in
    find_page-none i cs rest slot d (record { there = h.there; valid = h.valid; index = h.index })

pub find_free-some :
    (cs : List CachedPage) (slot : ℕ)
    → find_free cs ≡ some slot
    → (c : CachedPage) × (get_elem? cs slot ≡ some c) × (c.valid ≡ false)
unfolding find_free
find_free-some [] slot e = cc
find_free-some (c ∷ cs) slot e = elim (first_hit (not c.valid) (find_free cs) slot e) [
  | inl hit ↦ (c, subst (λ t. get_elem? (c ∷ cs) t ≡ some c) hit.1 refl, not_true c.valid hit.0)
  | inr later ↦
      let (d, there, free) = find_free-some cs later.0 later.1 in
      (d, subst (λ t. get_elem? (c ∷ cs) t ≡ some d) later.2 there, free)
]
  where
    not_true : (b : Bool) → not b ≡ true → b ≡ false
    not_true true e = cc
    not_true false e = refl

pub find_free-none :
    (cs : List CachedPage)
    → find_free cs ≡ none
    → (slot : ℕ) (c : CachedPage) → get_elem? cs slot ≡ some c
    → c.valid ≡ true
unfolding find_free
find_free-none [] e slot c h = cc
find_free-none (c ∷ cs) e zero d h =
    let (taken, rest) = no_hit (not c.valid) (find_free cs) e in
    ap (λ (x : CachedPage). x.valid) (sym (some-injective _ _ h)) ∙ not_false c.valid taken
  where
    not_false : (b : Bool) → not b ≡ false → b ≡ true
    not_false true e = refl
    not_false false e = cc
find_free-none (c ∷ cs) e (suc slot) d h =
    find_free-none cs (no_hit (not c.valid) (find_free cs) e).1 slot d h
