-- ===== src/Paging/Outsourced/Slots.antt =====
-- The slots of the cache of vm/src/handlers/lib/outsourced_mem.rs, against the pages that the memory
-- stands for and the leaves that the client has committed to.
use vanadium.Prelude.{
  ℕ, ◌<◌, ◌≡◌, ◌≢◌, ◌==◌, ◌⊎◌, sym, ap, ◌∙◌, subst, arith, Bool-cases, true, false, inl, inr,
  if◌then◌else◌, ==→eq, ==_of_ne, ==_refl, List, Option, some,
}
use mathlib.Core.Option.{some-injective}
use vanadium.Accumulator.{hash_element}
use vanadium.Vm.Memory.{Page}
use vanadium.Paging.Device.{Device}
use vanadium.Paging.Outsourced.{CachedPage}
use vanadium.Paging.Outsourced.Load.{opened}

abbrev pub Slots : Type 0
Slots = ℕ → Option CachedPage

-- A slot holds a page.
pub record IsHeld (slots : Slots) (slot j : ℕ) (c : CachedPage) : Type 0 where
  pub there : slots slot ≡ some c
  pub valid : c.valid ≡ true
  pub index : c.idx ≡ j

-- The slots after a write of one of them.
abbrev pub IsWritten : Slots → ℕ → CachedPage → Slots → Type 0
IsWritten slots s c slots' = (t : ℕ) → slots' t ≡ (if s == t then some c else slots t)

module _ (D : Device) where
  -- A cached page is the one that the memory has, and if it is not modified also the one in the leaf.
  pub record IsCached (n : ℕ) (leaf : ℕ → List ℕ) (v : ℕ → Option Page) (c : CachedPage)
      : Type 0 where
    pub within : c.idx < n
    pub known : c.page_hash ≡ hash_element D.digest (leaf c.idx)
    pub shown : v c.idx ≡ some c.page
    pub clean : c.modified ≡ false → opened D (leaf c.idx) ≡ some c.page

  -- A page that no slot holds is in its leaf, and no two slots hold one page.
  pub record CacheHolds (n : ℕ) (leaf : ℕ → List ℕ) (slots : Slots) (v : ℕ → Option Page)
      : Type 0 where
    pub cached : (slot j : ℕ) (c : CachedPage) → IsHeld slots slot j c → IsCached n leaf v c
    pub stored :
        (j : ℕ)
        → j < n
        → ((slot : ℕ) (c : CachedPage) → ¬ IsHeld slots slot j c)
        → opened D (leaf j) ≡ v j
    pub single : (s t j : ℕ) (c d : CachedPage) → IsHeld slots s j c → IsHeld slots t j d → s ≡ t

  written_self :
      (slots slots' : Slots) (s : ℕ) (c : CachedPage)
      → IsWritten slots s c slots'
      → slots' s ≡ some c
  written_self slots slots' s c w = w s ∙ ap (λ b. if b then some c else slots s) (==_refl s)

  -- A slot that holds a page after a write is the one that was written, or held it before.
  pub after-IsHeld :
      (slots slots' : Slots) (s t j : ℕ) (c d : CachedPage)
      → IsWritten slots s c slots'
      → IsHeld slots' t j d
      → ((s ≡ t) × (c ≡ d)) ⊎ ((s ≢ t) × IsHeld slots t j d)
  after-IsHeld slots slots' s t j c d w h = elim (Bool-cases (s == t)) [
    | inl e ↦ inl (
      ==→eq s t e,
      some-injective _ _ (sym (w t ∙ ap (λ b. if b then some c else slots t) e) ∙ h.there),
    )
    | inr e ↦ inr (
      ground arith,
      record {
        there = sym (w t ∙ ap (λ b. if b then some c else slots t) e) ∙ h.there;
        valid = h.valid;
        index = h.index;
      },
    )
  ]

  before-IsHeld :
      (slots slots' : Slots) (s t j : ℕ) (c d : CachedPage)
      → IsWritten slots s c slots'
      → s ≢ t
      → IsHeld slots t j d
      → IsHeld slots' t j d
  before-IsHeld slots slots' s t j c d w ne h = record {
    there = w t ∙ ap (λ b. if b then some c else slots t) (==_of_ne s t ne) ∙ h.there;
    valid = h.valid;
    index = h.index;
  }

  same_page :
      (slots : Slots) (s : ℕ) (c d : CachedPage) → slots s ≡ some c → slots s ≡ some d → c ≡ d
  same_page slots s c d h k = some-injective _ _ (sym h ∙ k)

  module _ (n : ℕ) (leaf : ℕ → List ℕ) (slots slots' : Slots) (v : ℕ → Option Page) (s : ℕ)
      (holds : CacheHolds n leaf slots v) where
    -- If a slot does not hold a page, and none does after the write, none did before.
    none_before :
        (c : CachedPage) (j : ℕ)
        → IsWritten slots s c slots'
        → ((d : CachedPage) → ¬ IsHeld slots s j d)
        → ((slot : ℕ) (d : CachedPage) → ¬ IsHeld slots' slot j d)
        → (slot : ℕ) (d : CachedPage) → ¬ IsHeld slots slot j d
    none_before c j w here nowhere slot d h = elim (Bool-cases (s == slot)) [
      | inl e ↦ here d (subst (λ t. IsHeld slots t j d) (sym (==→eq s slot e)) h)
      | inr e ↦ nowhere slot d (before-IsHeld slots slots' s slot j c d w (ground arith) h)
    ]

    module _ (c : CachedPage) (held : IsHeld slots s c.idx c) where
      other_page : (t j : ℕ) (d : CachedPage) → s ≢ t → IsHeld slots t j d → d.idx ≢ c.idx
      other_page t j d ne h e =
          ne (
            holds.single s t c.idx c d held
              (record { there = h.there; valid = h.valid; index = e }))

      other_index : (j : ℕ) → c.idx ≢ j → (d : CachedPage) → ¬ IsHeld slots s j d
      other_index j ne d h =
          ne (ap (λ (x : CachedPage). x.idx) (same_page slots s c d held.there h.there) ∙ h.index)

      -- The slot of a page is freed once the leaf of the page is up to date; the other leaves are
      -- kept.
      module _ (leaf' : ℕ → List ℕ) (others : (j : ℕ) → j ≢ c.idx → leaf' j ≡ leaf j)
          (fresh : opened D (leaf' c.idx) ≡ some c.page)
          (w : IsWritten slots s (record c { valid = false }) slots') where
        still-IsHeld :
            (t j : ℕ) (d : CachedPage) → IsHeld slots' t j d → (s ≢ t) × IsHeld slots t j d
        still-IsHeld t j d h = elim (after-IsHeld slots slots' s t j _ d w h) [
          | inl same ↦ let freed = ap (λ (x : CachedPage). x.valid) same.1 ∙ h.valid in absurd (cc)
          | inr kept ↦ kept
        ]

        kept-IsCached :
            (d : CachedPage) → d.idx ≢ c.idx → IsCached n leaf v d → IsCached n leaf' v d
        kept-IsCached d ne k = record {
          within = k.within;
          known = k.known ∙ ap (hash_element D.digest) (sym (others d.idx ne));
          shown = k.shown;
          clean = λ m. ap (opened D) (others d.idx ne) ∙ k.clean m;
        }

        stored_kept :
            (j : ℕ)
            → j < n
            → ((slot : ℕ) (d : CachedPage) → ¬ IsHeld slots' slot j d)
            → opened D (leaf' j) ≡ v j
        stored_kept j l nowhere = elim (Bool-cases (j == c.idx)) [
          | inl e ↦
              let same = ==→eq j c.idx e in
              ap (λ k. opened D (leaf' k)) same
              ∙ fresh
              ∙ sym (holds.cached s c.idx c held).shown
              ∙ ap v (sym same)
          | inr e ↦
              let ne : j ≢ c.idx = ground arith in
              ap (opened D) (others j ne)
              ∙ holds.stored j l (none_before _ j w (other_index j (λ q. ne (sym q))) nowhere)
        ]

        pub free_slot-CacheHolds : CacheHolds n leaf' slots' v
        free_slot-CacheHolds = record {
          cached = λ t j d h.
              let (ne, h') = still-IsHeld t j d h in
              kept-IsCached d (other_page t j d ne h') (holds.cached t j d h');
          stored = stored_kept;
          single = λ t u j d e h k.
              holds.single t u j d e (still-IsHeld t j d h).1 (still-IsHeld u j e k).1;
        }

      -- A page is written into its slot, which is marked as modified.
      module _ (page : Page)
          (w : IsWritten slots s (record c { page = page; modified = true }) slots') where
        abbrev pub written_view : ℕ → Option Page
        written_view j = if c.idx == j then some page else v j

        was-IsHeld :
            (t j : ℕ) (d : CachedPage) → IsHeld slots' t j d → (e : CachedPage) × IsHeld slots t j e
        was-IsHeld t j d h = elim (after-IsHeld slots slots' s t j _ d w h) [
          | inl same ↦ (
            c,
            record {
              there = ap slots (sym same.0) ∙ held.there;
              valid = held.valid;
              index = ap (λ (x : CachedPage). x.idx) same.1 ∙ h.index;
            },
          )
          | inr kept ↦ (d, kept.1)
        ]

        written-IsCached :
            (t j : ℕ) (d : CachedPage) → IsHeld slots' t j d → IsCached n leaf written_view d
        written-IsCached t j d h = elim (after-IsHeld slots slots' s t j _ d w h) [
          | inl same ↦
              let k = holds.cached s c.idx c held in
              subst (IsCached n leaf written_view) same.1 (record {
                within = k.within;
                known = k.known;
                shown = ap (λ b. if b then some page else v c.idx) (==_refl c.idx);
                clean = λ m. absurd (true_ne_false m);
              })
          | inr kept ↦
              let k = holds.cached t j d kept.1 in
              let ne = other_page t j d kept.0 kept.1 in
              record {
                within = k.within;
                known = k.known;
                shown =
                    ap (λ b. if b then some page else v d.idx)
                      (==_of_ne c.idx d.idx (λ q. ne (sym q)))
                    ∙ k.shown;
                clean = k.clean;
              }
        ]
          where
            true_ne_false : true ≢ false
            true_ne_false e = cc

        stored_written :
            (j : ℕ)
            → j < n
            → ((slot : ℕ) (d : CachedPage) → ¬ IsHeld slots' slot j d)
            → opened D (leaf j) ≡ written_view j
        stored_written j l nowhere =
            let ne : c.idx ≢ j = λ e.
              nowhere s _ (record {
                there = written_self slots slots' s _ w;
                valid = held.valid;
                index = e;
              }) in
            holds.stored j l (none_before _ j w (other_index j ne) nowhere)
            ∙ sym (ap (λ b. if b then some page else v j) (==_of_ne c.idx j ne))

        pub write_slot-CacheHolds : CacheHolds n leaf slots' written_view
        write_slot-CacheHolds = record {
          cached = written-IsCached;
          stored = stored_written;
          single =
              λ t u j d e h k. holds.single t u j _ _ (was-IsHeld t j d h).1 (was-IsHeld u j e k).1;
        }

    -- A page that no slot holds is loaded into a free slot.
    module _ (c : CachedPage) (valid : c.valid ≡ true) (is_cached : IsCached n leaf v c)
        (free : (j : ℕ) (d : CachedPage) → ¬ IsHeld slots s j d)
        (absent : (slot : ℕ) (d : CachedPage) → ¬ IsHeld slots slot c.idx d)
        (w : IsWritten slots s c slots') where
      new_or_old :
          (t j : ℕ) (d : CachedPage)
          → IsHeld slots' t j d
          → ((s ≡ t) × (c ≡ d)) ⊎ ((s ≢ t) × IsHeld slots t j d)
      new_or_old t j d h = after-IsHeld slots slots' s t j c d w h

      single_filled :
          (t u j : ℕ) (d e : CachedPage) → IsHeld slots' t j d → IsHeld slots' u j e → t ≡ u
      single_filled t u j d e h k = elim (new_or_old t j d h) [
        | inl new ↦ elim (new_or_old u j e k) [
          | inl newer ↦ sym new.0 ∙ newer.0
          | inr old ↦
              let same = ap (λ (x : CachedPage). x.idx) new.1 ∙ h.index in
              absurd (absent u e (subst (λ i. IsHeld slots u i e) (sym same) old.1))
        ]
        | inr old ↦ elim (new_or_old u j e k) [
          | inl new ↦
              let same = ap (λ (x : CachedPage). x.idx) new.1 ∙ k.index in
              absurd (absent t d (subst (λ i. IsHeld slots t i d) (sym same) old.1))
          | inr older ↦ holds.single t u j d e old.1 older.1
        ]
      ]

      pub fill_slot-CacheHolds : CacheHolds n leaf slots' v
      fill_slot-CacheHolds = record {
        cached = λ t j d h. elim (new_or_old t j d h) [
          | inl new ↦ subst (IsCached n leaf v) new.1 is_cached
          | inr old ↦ holds.cached t j d old.1
        ];
        stored = λ j l nowhere. holds.stored j l (none_before c j w (free j) nowhere);
        single = single_filled;
      }
