-- ===== src/Paging/Outsourced/Access/Loaded.antt =====
-- The pages that a memory of vm/src/handlers/lib/outsourced_mem.rs stands for, and the loading of a
-- page into a slot.
use vanadium.Prelude.{
  ℕ, ◌<◌, ◌≡◌, ◌⊎◌, refl, sym, ap, ◌∙◌, subst, true, false, inl, inr, if◌then◌else◌, ==_refl, List,
  length, get_elem?, set, Option, none, some, Outcome, ok, err, panic,
}
use mathlib.Core.Option.{some-injective}
use vanadium.Accumulator.{HashOutput, MerkleAccumulator, element, hash_element}
use vanadium.Accumulator.Sound.Inputs.{Collision}
use vanadium.Vm.Error.{MemoryError}
use vanadium.Vm.Memory.{Page}
use vanadium.Paging.Session.{Session}
use vanadium.Paging.Strategy.{PageEvictionStrategy}
use vanadium.Paging.Device.{Device}
use vanadium.Paging.Outsourced.{CachedPage, OutsourcedMemory, load_page}
use vanadium.Paging.Outsourced.Load.{opened, load_page_sound}
use vanadium.Paging.Outsourced.Slots.{IsHeld, IsCached, CacheHolds, fill_slot-CacheHolds}
use vanadium.Paging.Outsourced.Search.{slots_of}
use vanadium.Paging.Outsourced.Access.{
  Result, ◌>>=◌, with_session, with_strategy, get_cached_page_ref, load_into,
}
use vanadium.Paging.Outsourced.Access.Committed.{IsBacked}
use vanadium.Paging.Outsourced.Access.Evicted.{
  >>=-eq-ok, with_strategy-eq-ok, set-IsWritten, HasFree,
}

module _ (D : Device) (S : PageEvictionStrategy) (n : ℕ) where
  -- The memory stands for the pages `v`: those in its slots, and behind them those that the client
  -- has committed to. The last reference is to a slot with its page.
  pub record Represents (m : OutsourcedMemory S) (v : ℕ → Option Page) : Type 0 where
    pub accumulator : MerkleAccumulator
    pub backed : IsBacked D S m accumulator
    pub same_size : length accumulator.elements ≡ n
    pub holds : CacheHolds D n (element accumulator.elements) (slots_of m.cached_pages) v
    pub last :
        (i slot : ℕ)
        → m.last_accessed_page ≡ some (i, slot)
        → (c : CachedPage) × IsHeld (slots_of m.cached_pages) slot i c

  -- The memory after a reference to the page `i` was returned.
  pub record Serves (m : OutsourcedMemory S) (v : ℕ → Option Page) (i : ℕ) (page : Page)
      : Type 0 where
    pub represents : Represents m v
    pub shown : v i ≡ some page
    pub slot : ℕ
    pub referred : m.last_accessed_page ≡ some (i, slot)

  module _ (v : ℕ → Option Page) where
    pub ref_sound :
        (m m' : OutsourcedMemory S) (acc : MerkleAccumulator) (i slot : ℕ) (c : CachedPage)
        (page : Page)
        → IsBacked D S m acc
        → length acc.elements ≡ n
        → CacheHolds D n (element acc.elements) (slots_of m.cached_pages) v
        → IsHeld (slots_of m.cached_pages) slot i c
        → get_cached_page_ref D S m i slot ≡ (ok page, m')
        → Serves m' v i page
    unfolding get_cached_page_ref
    ref_sound m m' acc i slot c page b size holds held e =
        let e1 =
          subst
            (λ (o : Option CachedPage).
              (elim o as (λ x. Result D S Page) [
                | none ↦ (panic, m)
                | some d ↦ (ok d.page, record m { last_accessed_page = some (i, slot) })
              ])
              ≡ (ok page, m'))
            held.there e in
        let same : c.page ≡ page = ok-injective (ap (λ p. p.0) e1) in
        subst (λ t. Serves t v i page) (ap (λ p. p.1) e1)
          (record {
            represents = record {
              accumulator = acc;
              backed = b;
              same_size = size;
              holds = holds;
              last = λ j t q. (c, moved j t (some-injective _ _ q));
            };
            shown = ap v (sym held.index) ∙ (holds.cached slot i c held).shown ∙ ap some same;
            slot = slot;
            referred = refl;
          })
      where
        ok-injective : {p q : Page} → ◌≡◌ {A = Outcome MemoryError Page} (ok p) (ok q) → p ≡ q
        ok-injective e = cc

        moved :
            (j t : ℕ) → ◌≡◌ {A = ℕ × ℕ} (i, slot) (j, t) → IsHeld (slots_of m.cached_pages) t j c
        moved j t q = subst (λ p. IsHeld (slots_of m.cached_pages) p.1 p.0 c) q held

    with_session-eq-ok :
        (m m₁ : OutsourcedMemory S) (r : Outcome MemoryError (Page × HashOutput) × Session)
        (loaded : Page × HashOutput)
        → with_session D S m r ≡ (ok loaded, m₁)
        → (r ≡ (ok loaded, r.1)) × (m₁ ≡ record m { comm = r.1 })
    with_session-eq-ok m m₁ (ok a, s) loaded e = (ap (λ p. (p.0, s)) e, sym (ap (λ p. p.1) e))
    with_session-eq-ok m m₁ (err x, s) loaded e = cc
    with_session-eq-ok m m₁ (panic, s) loaded e = cc

    abbrev loaded_page : ℕ → Page → HashOutput → CachedPage
    loaded_page i page hash = record {
      idx = i;
      page = page;
      page_hash = hash;
      valid = true;
      modified = false;
    }

    -- A page that is genuine is put into the free slot, and referred to.
    filled_sound :
        (m m' : OutsourcedMemory S) (i slot : ℕ) (page loaded : Page) (hash : HashOutput)
        (comm : Session) (strategy : S.Strategy)
        → i < n
        → (f : HasFree D S v n i m slot)
        → (hash ≡ hash_element D.digest (element f.accumulator.elements i))
          × (opened D (element f.accumulator.elements i) ≡ some loaded)
        → get_cached_page_ref D S
            (record m {
              comm = comm;
              cached_pages = set m.cached_pages slot (loaded_page i loaded hash);
              eviction_strategy = strategy;
            })
            i
            slot
          ≡ (ok page, m')
        → Serves m' v i page
    filled_sound m m' i slot page loaded hash comm strategy l f genuine e =
        let c = loaded_page i loaded hash in
        let slots = slots_of m.cached_pages in
        let w = set-IsWritten m.cached_pages slot f.slot_page c f.there in
        let leaf = element f.accumulator.elements in
        let is_cached : IsCached D n leaf v c = record {
          within = l;
          known = genuine.0;
          shown = sym (f.holds.stored i l f.absent) ∙ genuine.1;
          clean = λ q. genuine.1;
        } in
        let free : (j : ℕ) (d : CachedPage) → ¬ IsHeld slots slot j d = λ j d h.
          not_valid f.slot_page d (some-injective _ _ (sym f.there ∙ h.there)) f.is_free h.valid in
        ref_sound _ m' f.accumulator i slot c page f.backed f.same_size
          (fill_slot-CacheHolds D n leaf slots _ v slot f.holds c refl is_cached free f.absent w)
          (record {
            there =
                w slot
                ∙ ap (λ b. if b then some c else get_elem? m.cached_pages slot) (==_refl slot);
            valid = refl;
            index = refl;
          })
          e
      where
        not_valid : (c d : CachedPage) → c ≡ d → c.valid ≡ false → ¬ (d.valid ≡ true)
        not_valid c d e p q = let t = ap (λ (x : CachedPage). x.valid) e in cc

    -- A page that is loaded into a free slot.
    pub load_into_sound :
        (digest_size : (x : List ℕ) → length (D.digest x) ≡ 32) (m m' : OutsourcedMemory S)
        (i slot : ℕ) (page : Page)
        → i < n
        → HasFree D S v n i m slot
        → load_into D S m i slot ≡ (ok page, m')
        → Serves m' v i page ⊎ Collision D.digest
    unfolding load_into
    load_into_sound digest_size m m' i slot page l f e =
        let (loaded, m₁, done, e1) =
          >>=-eq-ok D S (with_session D S m (load_page D S m i m.comm)) _ e in
        let (talked, after) = with_session-eq-ok m m₁ (load_page D S m i m.comm) loaded done in
        let comm = (load_page D S m i m.comm).1 in
        let e2 =
          subst
            (λ t.
              ◌>>=◌ D S
                (with_strategy D S
                  (record t {
                    cached_pages = set t.cached_pages slot (loaded_page i loaded.0 loaded.1);
                  })
                  (S.on_load slot i t.eviction_strategy))
                (λ _ t'. get_cached_page_ref D S t' i slot)
              ≡ (ok page, m'))
            after e1 in
        let filled : OutsourcedMemory S = record m {
          comm = comm;
          cached_pages = set m.cached_pages slot (loaded_page i loaded.0 loaded.1);
        } in
        let on_load = S.on_load slot i m.eviction_strategy in
        let (u, m₂, called, e3) =
          >>=-eq-ok D S (with_strategy D S filled on_load) (λ _ t. get_cached_page_ref D S t i slot)
            e2 in
        let (strategy, after') = with_strategy-eq-ok D S filled on_load called in
        let e4 = subst (λ t. get_cached_page_ref D S t i slot ≡ (ok page, m')) after' e3 in
        let b = f.backed in
        elim (load_page_sound D S m digest_size f.accumulator i loaded.0 loaded.1 m.comm comm b.tree
          b.rooted b.counted b.small (subst (λ k. i < k) (sym f.same_size) l) b.not_code talked) [
            | inl genuine ↦
                inl (filled_sound m m' i slot page loaded.0 loaded.1 comm strategy l f genuine e4)
            | inr collision ↦ inr collision
          ]
