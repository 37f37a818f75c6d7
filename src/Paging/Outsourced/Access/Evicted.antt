-- ===== src/Paging/Outsourced/Access/Evicted.antt =====
-- The slot that `get_page` of vm/src/handlers/lib/outsourced_mem.rs finds or makes free.
use vanadium.Prelude.{
  ℕ, ◌<◌, ◌≡◌, ◌≢◌, ◌⊎◌, refl, sym, ap, ◌∙◌, subst, not, ◌&&◌, Bool, Bool-cases, true, false, inl,
  inr, if◌then◌else◌, ==_refl, List, length, get_elem?, get_elem?-set, get_elem?-lt, set, Option,
  Option-cases, none, some, Outcome, ok, err, panic,
}
use vanadium.Accumulator.{MerkleAccumulator, element}
use vanadium.Accumulator.Sound.Inputs.{Collision}
use vanadium.Vm.Error.{MemoryError}
use vanadium.Vm.Memory.{Page}
use vanadium.Paging.Strategy.{PageEvictionStrategy}
use vanadium.Paging.Device.{Device}
use vanadium.Paging.Outsourced.{CachedPage, OutsourcedMemory, find_free}
use vanadium.Paging.Outsourced.Load.{opened}
use vanadium.Paging.Outsourced.Slots.{
  IsHeld, IsWritten, CacheHolds, free_slot-CacheHolds, after-IsHeld,
}
use vanadium.Paging.Outsourced.Search.{slots_of, find_free-some, find_free-none}
use vanadium.Paging.Outsourced.Access.{
  Result, ◌>>=◌, with_strategy, commit_page_at, invalidate, evict_slot, evict, free_slot,
}
use vanadium.Paging.Outsourced.Access.Committed.{IsBacked, IsCommitted, commit_page_at_sound}

-- The write of a slot that is there.
pub set-IsWritten :
    (cs : List CachedPage) (slot : ℕ) (c d : CachedPage)
    → get_elem? cs slot ≡ some c
    → IsWritten (slots_of cs) slot d (slots_of (set cs slot d))
set-IsWritten cs slot c d there t = get_elem?-set cs slot t d (get_elem?-lt cs slot c there)

module _ (D : Device) (S : PageEvictionStrategy) where
  pub >>=-eq-ok :
      {A B : Type 0} (r : Result D S A) (f : A → OutsourcedMemory S → Result D S B) {b : B}
      {m' : OutsourcedMemory S}
      → ◌>>=◌ D S r f ≡ (ok b, m')
      → (a : A) × (m₁ : OutsourcedMemory S) × (r ≡ (ok a, m₁)) × (f a m₁ ≡ (ok b, m'))
  >>=-eq-ok (ok a, m₁) f e = (a, m₁, refl, e)
  >>=-eq-ok (err x, m₁) f e = cc
  >>=-eq-ok (panic, m₁) f e = cc

  pub with_strategy-eq-ok :
      (m : OutsourcedMemory S) (o : Option S.Strategy) {u : Unit {0}} {m' : OutsourcedMemory S}
      → with_strategy D S m o ≡ (ok u, m')
      → (strategy : S.Strategy) × (m' ≡ record m { eviction_strategy = strategy })
  with_strategy-eq-ok m none e = cc
  with_strategy-eq-ok m (some strategy) e = (strategy, sym (ap (λ p. p.1) e))

  ok-injective : {a b : ℕ} → ◌≡◌ {A = Outcome MemoryError ℕ} (ok a) (ok b) → a ≡ b
  ok-injective e = cc

  invalidate-eq-ok :
      (m m' : OutsourcedMemory S) (slot slot' : ℕ) (c : CachedPage)
      → invalidate D S m slot c ≡ (ok slot', m')
      → (strategy : S.Strategy) × (slot ≡ slot')
        × (m' ≡ record m {
          cached_pages = set m.cached_pages slot (record c { valid = false });
          eviction_strategy = strategy;
        })
  unfolding invalidate
  invalidate-eq-ok m m' slot slot' c e =
      called (record m { cached_pages = set m.cached_pages slot (record c { valid = false }) })
        (S.on_invalidate slot c.idx m.eviction_strategy) e
    where
      called :
          (m₁ : OutsourcedMemory S) (o : Option S.Strategy)
          → ◌>>=◌ D S (with_strategy D S m₁ o) (λ _ m₂. (ok slot, m₂)) ≡ (ok slot', m')
          → (strategy : S.Strategy) × (slot ≡ slot')
            × (m' ≡ record m₁ { eviction_strategy = strategy })
      called m₁ none e = cc
      called m₁ (some strategy) e =
          (strategy, ok-injective (ap (λ p. p.0) e), sym (ap (λ p. p.1) e))

  module _ (v : ℕ → Option Page) (n i : ℕ) where
    abbrev Absent : OutsourcedMemory S → Type 0
    Absent m = (slot : ℕ) (c : CachedPage) → ¬ IsHeld (slots_of m.cached_pages) slot i c

    -- A memory that stands for the pages, and has a free slot and no slot with the page `i`.
    pub record HasFree (m : OutsourcedMemory S) (slot : ℕ) : Type 0 where
      pub accumulator : MerkleAccumulator
      pub backed : IsBacked D S m accumulator
      pub same_size : length accumulator.elements ≡ n
      pub holds : CacheHolds D n (element accumulator.elements) (slots_of m.cached_pages) v
      pub slot_page : CachedPage
      pub there : get_elem? m.cached_pages slot ≡ some slot_page
      pub is_free : slot_page.valid ≡ false
      pub absent : Absent m

    module _ (digest_size : (x : List ℕ) → length (D.digest x) ≡ 32) (ma : MerkleAccumulator)
        (sized : length ma.elements ≡ n) where
      -- The slot of a page is invalidated once the page is up to date in the accumulator.
      freed :
          (m m' : OutsourcedMemory S) (slot slot' : ℕ) (c : CachedPage) (acc : MerkleAccumulator)
          → IsBacked D S m acc
          → length acc.elements ≡ n
          → ((j : ℕ) → j ≢ c.idx → element acc.elements j ≡ element ma.elements j)
          → opened D (element acc.elements c.idx) ≡ some c.page
          → CacheHolds D n (element ma.elements) (slots_of m.cached_pages) v
          → Absent m
          → get_elem? m.cached_pages slot ≡ some c
          → c.valid ≡ true
          → invalidate D S m slot c ≡ (ok slot', m')
          → HasFree m' slot'
      freed m m' slot slot' c acc b size others fresh holds absent there valid e =
          let (strategy, same, after) = invalidate-eq-ok m m' slot slot' c e in
          let out : CachedPage = record c { valid = false } in
          let w = set-IsWritten m.cached_pages slot c out there in
          let held : IsHeld (slots_of m.cached_pages) slot c.idx c = record {
            there = there;
            valid = valid;
            index = refl;
          } in
          subst (λ s. HasFree m' s) same
            (subst (λ t. HasFree t slot) (sym after)
              (record {
                accumulator = acc;
                backed = record {
                  tree = b.tree;
                  rooted = b.rooted;
                  counted = b.counted;
                  small = b.small;
                  not_code = b.not_code;
                  writable = b.writable;
                  nonce_size = b.nonce_size;
                };
                same_size = size;
                holds =
                    free_slot-CacheHolds D n (element ma.elements) (slots_of m.cached_pages) _ v
                      slot holds c held (element acc.elements) others fresh w;
                slot_page = out;
                there =
                    w slot
                    ∙ ap (λ b. if b then some out else get_elem? m.cached_pages slot)
                        (==_refl slot);
                is_free = refl;
                absent = λ t d h.
                    elim (after-IsHeld D (slots_of m.cached_pages) _ slot t i out d w h) [
                      | inl new ↦ false_ne_true (ap (λ (x : CachedPage). x.valid) new.1 ∙ h.valid)
                      | inr old ↦ absent t d old.1
                    ];
              }))
        where
          false_ne_true : false ≢ true
          false_ne_true e = cc

      module _ (m : OutsourcedMemory S) (b : IsBacked D S m ma)
          (holds : CacheHolds D n (element ma.elements) (slots_of m.cached_pages) v)
          (absent : Absent m) where
        abbrev branch : ℕ → CachedPage → Bool → Result D S ℕ
        branch slot c dirty =
            if dirty
            then ◌>>=◌ D S (commit_page_at D S m slot) (λ _ m'. invalidate D S m' slot c)
            else invalidate D S m slot c

        after_commit :
            (m' m₁ : OutsourcedMemory S) (slot slot' : ℕ) (c : CachedPage)
            → get_elem? m.cached_pages slot ≡ some c
            → c.valid ≡ true
            → IsCommitted D S m.cached_pages m₁ ma c ⊎ Collision D.digest
            → invalidate D S m₁ slot c ≡ (ok slot', m')
            → HasFree m' slot' ⊎ Collision D.digest
        after_commit m' m₁ slot slot' c there valid (inr collision) e = inr collision
        after_commit m' m₁ slot slot' c there valid (inl k) e = inl (
            freed m₁ m' slot slot' c k.accumulator k.backed (k.same_size ∙ sized) k.others k.fresh
              (subst (λ p. CacheHolds D n (element ma.elements) (slots_of p) v) (sym k.kept) holds)
              (subst (λ p. (t : ℕ) (d : CachedPage) → ¬ IsHeld (slots_of p) t i d) (sym k.kept)
                absent)
              (subst (λ p. get_elem? p slot ≡ some c) (sym k.kept) there) valid e)

        evict_slot_sound :
            (m' : OutsourcedMemory S) (slot slot' : ℕ) (c : CachedPage)
            → get_elem? m.cached_pages slot ≡ some c
            → c.valid ≡ true
            → evict_slot D S m slot c ≡ (ok slot', m')
            → HasFree m' slot' ⊎ Collision D.digest
        unfolding evict_slot
        evict_slot_sound m' slot slot' c there valid e =
            let held : IsHeld (slots_of m.cached_pages) slot c.idx c = record {
              there = there;
              valid = valid;
              index = refl;
            } in
            let k = holds.cached slot c.idx c held in
            let e1 =
              subst (λ r. branch slot c (not r && c.modified) ≡ (ok slot', m')) b.writable e in
            elim (Bool-cases c.modified) [
              | inr clean ↦
                  let e2 = subst (λ r. branch slot c r ≡ (ok slot', m')) clean e1 in
                  inl (
                    freed m m' slot slot' c ma b sized (λ j ne. refl) (k.clean clean) holds absent
                      there valid e2)
              | inl dirty ↦
                  let e2 = subst (λ r. branch slot c r ≡ (ok slot', m')) dirty e1 in
                  let (u, m₁, done, e3) = >>=-eq-ok (commit_page_at D S m slot) _ e2 in
                  after_commit m' m₁ slot slot' c there valid
                    (commit_page_at_sound D S digest_size ma c
                      (subst (λ t. c.idx < t) (sym sized) k.within) k.known m m₁ slot b there valid
                      done)
                    e3
            ]

        abbrev evicted : ℕ → Option CachedPage → Result D S ℕ
        evicted slot o = elim o [ none ↦ (panic, m) | some c ↦ evict_slot D S m slot c ]

        abbrev victim : Option ℕ → Result D S ℕ
        victim o = elim o [
          | none ↦ (panic, m)
          | some slot ↦ evicted slot (get_elem? m.cached_pages slot)
        ]

        panics :
            {m' : OutsourcedMemory S} {slot' : ℕ}
            → ◌≡◌ {A = Result D S ℕ} (panic, m) (ok slot', m')
            → HasFree m' slot' ⊎ Collision D.digest
        panics e = cc

        evict_sound :
            (m' : OutsourcedMemory S) (slot' : ℕ)
            → find_free m.cached_pages ≡ none
            → evict D S m ≡ (ok slot', m')
            → HasFree m' slot' ⊎ Collision D.digest
        unfolding evict
        evict_sound m' slot' full e = elim (Option-cases (S.choose_victim m.eviction_strategy)) [
          | inl nothing ↦ let no = subst (λ o. victim o ≡ (ok slot', m')) nothing e in panics no
          | inr chosen ↦
              let (slot, is_slot) = chosen in
              let e1 = subst (λ o. victim o ≡ (ok slot', m')) is_slot e in
              elim (Option-cases (get_elem? m.cached_pages slot)) [
                | inl outside ↦
                    let no = subst (λ o. evicted slot o ≡ (ok slot', m')) outside e1 in panics no
                | inr inside ↦
                    let (c, there) = inside in
                    evict_slot_sound m' slot slot' c there
                      (find_free-none m.cached_pages full slot c there)
                      (subst (λ o. evicted slot o ≡ (ok slot', m')) there e1)
              ]
        ]

        abbrev found : Option ℕ → Result D S ℕ
        found o = elim o [ some slot ↦ (ok slot, m) | none ↦ evict D S m ]

        pub free_slot_sound :
            (m' : OutsourcedMemory S) (slot' : ℕ)
            → free_slot D S m ≡ (ok slot', m')
            → HasFree m' slot' ⊎ Collision D.digest
        unfolding free_slot
        free_slot_sound m' slot' e = elim (Option-cases (find_free m.cached_pages)) [
          | inl full ↦ evict_sound m' slot' full (subst (λ o. found o ≡ (ok slot', m')) full e)
          | inr first ↦
              let (slot, is_first) = first in
              let (c, there, is_free) = find_free-some m.cached_pages slot is_first in
              let e1 = subst (λ o. found o ≡ (ok slot', m')) is_first e in
              let same : slot ≡ slot' = ok-injective (ap (λ p. p.0) e1) in
              let kept : m ≡ m' = ap (λ p. p.1) e1 in
              inl (
                subst (λ s. HasFree m' s) same
                  (subst (λ t. HasFree t slot) kept
                    (record {
                      accumulator = ma;
                      backed = b;
                      same_size = sized;
                      holds = holds;
                      slot_page = c;
                      there = there;
                      is_free = is_free;
                      absent = absent;
                    })))
        ]
