-- ===== src/Paging/Outsourced/Access/Refines.antt =====
-- `get_page` of vm/src/handlers/lib/outsourced_mem.rs against the pages that the memory stands for.
use vanadium.Prelude.{
  ℕ, ◌<◌, ◌≡◌, ◌==◌, ◌⊎◌, sym, ap, ◌∙◌, subst, Bool, Bool-cases, true, inl, inr, if◌then◌else◌,
  ==→eq, ==_refl, List, length, get_elem?, set, Option, Option-cases, none, some, ok,
}
use mathlib.Core.Option.{some-injective}
use vanadium.Accumulator.{element}
use vanadium.Accumulator.Sound.Inputs.{Collision}
use vanadium.Vm.Memory.{Page}
use vanadium.Paging.Strategy.{PageEvictionStrategy}
use vanadium.Paging.Device.{Device}
use vanadium.Paging.Outsourced.{CachedPage, OutsourcedMemory, find_page}
use vanadium.Paging.Outsourced.Slots.{IsHeld, CacheHolds, write_slot-CacheHolds}
use vanadium.Paging.Outsourced.Search.{slots_of, find_page-IsHeld, find_page-none}
use vanadium.Paging.Outsourced.Access.{
  Result, ◌>>=◌, with_strategy, get_cached_page_ref, free_slot, load_into, find_or_load, get_page,
  put_page,
}
use vanadium.Paging.Outsourced.Access.Evicted.{
  >>=-eq-ok, with_strategy-eq-ok, set-IsWritten, free_slot_sound,
}
use vanadium.Paging.Outsourced.Access.Loaded.{Represents, Serves, ref_sound, load_into_sound}

module _ (D : Device) (S : PageEvictionStrategy) (n : ℕ) where
  module _ (v : ℕ → Option Page) where
    abbrev searched : OutsourcedMemory S → ℕ → Option ℕ → Result D S Page
    searched m i o = elim o [
      | some slot ↦
          ◌>>=◌ D S (with_strategy D S m (S.on_access slot i m.eviction_strategy))
            (λ _ m'. get_cached_page_ref D S m' i slot)
      | none ↦ ◌>>=◌ D S (free_slot D S m) (λ slot m'. load_into D S m' i slot)
    ]

    find_or_load_sound :
        (digest_size : (x : List ℕ) → length (D.digest x) ≡ 32) (m m' : OutsourcedMemory S) (i : ℕ)
        (page : Page)
        → i < n
        → Represents D S n m v
        → find_or_load D S m i ≡ (ok page, m')
        → Serves D S n m' v i page ⊎ Collision D.digest
    unfolding find_or_load
    find_or_load_sound digest_size m m' i page l r e =
        elim (Option-cases (find_page i m.cached_pages)) [
          | inl absent ↦
              let e1 = subst (λ o. searched m i o ≡ (ok page, m')) absent e in
              let (slot, m₁, freed, e2) = >>=-eq-ok D S (free_slot D S m) _ e1 in
              elim (free_slot_sound D S v n i digest_size r.accumulator r.same_size m r.backed
                r.holds (find_page-none i m.cached_pages absent) m₁ slot freed) [
                  | inl f ↦ load_into_sound D S n v digest_size m₁ m' i slot page l f e2
                  | inr collision ↦ inr collision
                ]
          | inr present ↦
              let (slot, at) = present in
              let e1 = subst (λ o. searched m i o ≡ (ok page, m')) at e in
              let on_access = S.on_access slot i m.eviction_strategy in
              let (u, m₁, called, e2) =
                >>=-eq-ok D S (with_strategy D S m on_access)
                  (λ _ t. get_cached_page_ref D S t i slot) e1 in
              let (strategy, after) = with_strategy-eq-ok D S m on_access called in
              let (c, held) = find_page-IsHeld i m.cached_pages slot at in
              inl (
                ref_sound D S n v _ m' r.accumulator i slot c page r.backed r.same_size r.holds held
                  (subst (λ t. get_cached_page_ref D S t i slot ≡ (ok page, m')) after e2))
        ]

    abbrev again : OutsourcedMemory S → ℕ → ℕ → Bool → Result D S Page
    again m i slot b = if b then get_cached_page_ref D S m i slot else find_or_load D S m i

    abbrev referred_to : OutsourcedMemory S → ℕ → Option (ℕ × ℕ) → Result D S Page
    referred_to m i o = elim o [
      | none ↦ find_or_load D S m i
      | some (j, slot) ↦ again m i slot (i == j)
    ]

    pub get_page_sound :
        (digest_size : (x : List ℕ) → length (D.digest x) ≡ 32) (m m' : OutsourcedMemory S) (i : ℕ)
        (page : Page)
        → i < n
        → Represents D S n m v
        → get_page D S m i ≡ (ok page, m')
        → Serves D S n m' v i page ⊎ Collision D.digest
    unfolding get_page
    get_page_sound digest_size m m' i page l r e = elim (Option-cases m.last_accessed_page) [
      | inl none_yet ↦
          find_or_load_sound digest_size m m' i page l r
            (subst (λ o. referred_to m i o ≡ (ok page, m')) none_yet e)
      | inr before ↦
          let ((j, slot), at) = before in
          let e1 = subst (λ o. referred_to m i o ≡ (ok page, m')) at e in
          elim (Bool-cases (i == j)) [
            | inl same ↦
                let (c, held) = r.last j slot at in
                inl (
                  ref_sound D S n v m m' r.accumulator i slot c page r.backed r.same_size r.holds
                    (subst (λ k. IsHeld (slots_of m.cached_pages) slot k c) (sym (==→eq i j same))
                      held)
                    (subst (λ b. again m i slot b ≡ (ok page, m')) same e1))
            | inr other ↦
                find_or_load_sound digest_size m m' i page l r
                  (subst (λ b. again m i slot b ≡ (ok page, m')) other e1)
          ]
    ]

    abbrev written_slot : OutsourcedMemory S → Page → ℕ → Option CachedPage → OutsourcedMemory S
    written_slot m page slot o = elim o [
      | none ↦ m
      | some c ↦ record m {
        cached_pages = set m.cached_pages slot (record c { page = page; modified = true });
      }
    ]

    abbrev written_at : OutsourcedMemory S → Page → Option (ℕ × ℕ) → OutsourcedMemory S
    written_at m page o = elim o [
      | none ↦ m
      | some (j, slot) ↦ written_slot m page slot (get_elem? m.cached_pages slot)
    ]

    pub put_page_sound :
        (m : OutsourcedMemory S) (i : ℕ) (old page : Page)
        → Serves D S n m v i old
        → Represents D S n (put_page D S m i page) (λ j. if i == j then some page else v j)
    unfolding put_page
    put_page_sound m i old page s =
        let r = s.represents in
        let (c, held) = r.last i s.slot s.referred in
        let c' : CachedPage = record c { page = page; modified = true } in
        let w = set-IsWritten m.cached_pages s.slot c c' held.there in
        let indexed =
          subst (λ k. IsHeld (slots_of m.cached_pages) s.slot k c) (sym held.index) held in
        let put : OutsourcedMemory S = record m { cached_pages = set m.cached_pages s.slot c' } in
        let placed : put_page D S m i page ≡ put =
          ap (written_at m page) s.referred ∙ ap (written_slot m page s.slot) held.there in
        let there =
          w s.slot
          ∙ ap (λ b. if b then some c' else get_elem? m.cached_pages s.slot) (==_refl s.slot) in
        subst (λ t. Represents D S n t (λ j. if i == j then some page else v j)) (sym placed)
          (record {
            accumulator = r.accumulator;
            backed = r.backed;
            same_size = r.same_size;
            holds =
                subst
                  (λ k.
                    CacheHolds D n (element r.accumulator.elements)
                      (slots_of (set m.cached_pages s.slot c'))
                      (λ j. if k == j then some page else v j))
                  held.index
                  (write_slot-CacheHolds D n (element r.accumulator.elements)
                    (slots_of m.cached_pages) (slots_of (set m.cached_pages s.slot c')) v s.slot
                    r.holds c indexed page w);
            last = λ j t q. (
              c',
              subst (λ p. IsHeld (slots_of (set m.cached_pages s.slot c')) p.1 p.0 c')
                  (some-injective _ _ (sym s.referred ∙ q))
                  (record { there = there; valid = held.valid; index = held.index }),
            );
          })
