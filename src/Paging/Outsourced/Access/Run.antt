-- ===== src/Paging/Outsourced/Access/Run.antt =====
-- Programs of reads and writes on `OutsourcedMemory` of vm/src/handlers/lib/outsourced_mem.rs,
-- against the same program on the pages that the client has committed to.
use vanadium.Prelude.{
  ℕ, zero, suc, ◌^◌, ◌<◌, ◌≡◌, ◌==◌, ◌⊎◌, refl, ap, ap₂, ◌∙◌, false, inl, inr, if◌then◌else◌, List,
  [], ◌∷◌, length, replicate, All, Option, none, some, Outcome, ok,
}
use mathlib.Core.Option.{some-injective}
use vanadium.Accumulator.{MerkleAccumulator, element, root}
use vanadium.Accumulator.Tree.{IsTree}
use vanadium.Accumulator.Sound.Inputs.{Collision}
use vanadium.Message.{SectionKind}
use vanadium.Vm.Error.{MemoryError}
use vanadium.Vm.Memory.{Page}
use vanadium.Paging.Session.{Session}
use vanadium.Paging.Strategy.{PageEvictionStrategy}
use vanadium.Paging.Device.{Device}
use vanadium.Paging.Outsourced.{
  CachedPage, OutsourcedMemory, default_cached_page, n_pages_adjusted, is_code,
}
use vanadium.Paging.Outsourced.Load.{opened}
use vanadium.Paging.Outsourced.Slots.{IsHeld}
use vanadium.Paging.Outsourced.Search.{slots_of}
use vanadium.Paging.Outsourced.Access.{Result, ◌>>=◌, get_page, put_page, new}
use vanadium.Paging.Outsourced.Access.Evicted.{>>=-eq-ok}
use vanadium.Paging.Outsourced.Access.Loaded.{Represents}
use vanadium.Paging.Outsourced.Access.Refines.{get_page_sound, put_page_sound}

-- A page is read, or replaced.
pub data Operation : Type 0 where
  read : ℕ → Operation
  write : ℕ → Page → Operation

abbrev pub IsWithin : ℕ → Operation → Type 0
IsWithin n (read i) = i < n
IsWithin n (write i page) = i < n

-- What the reads return on pages that are a function.
abbrev prepend : Option Page → Option (List Page) → Option (List Page)
prepend (some page) (some pages) = some (page ∷ pages)
prepend (some page) none = none
prepend none pages = none

pub reads : List Operation → (ℕ → Option Page) → Option (List Page)
reads [] v = some []
reads (read i ∷ ops) v = prepend (v i) (reads ops v)
reads (write i page ∷ ops) v = reads ops (λ j. if i == j then some page else v j)

module _ (D : Device) (S : PageEvictionStrategy) where
  unfoldable pub run : List Operation → OutsourcedMemory S → Result D S (List Page)
  run [] m = (ok [], m)
  run (read i ∷ ops) m =
      ◌>>=◌ D S (get_page D S m i)
        λ page m'. ◌>>=◌ D S (run ops m') λ pages m''. (ok (page ∷ pages), m'')
  run (write i page ∷ ops) m = ◌>>=◌ D S (get_page D S m i) λ _ m'. run ops (put_page D S m' i page)

  ok-injective : {p q : List Page} → ◌≡◌ {A = Outcome MemoryError (List Page)} (ok p) (ok q) → p ≡ q
  ok-injective e = cc

  run_sound :
      (n : ℕ) (digest_size : (x : List ℕ) → length (D.digest x) ≡ 32) (ops : List Operation)
      (v : ℕ → Option Page) (m m' : OutsourcedMemory S) (pages : List Page)
      → All (IsWithin n) ops
      → Represents D S n m v
      → run ops m ≡ (ok pages, m')
      → (reads ops v ≡ some pages) ⊎ Collision D.digest
  unfolding run reads
  run_sound n digest_size [] v m m' pages w r e = inl (ap some (ok-injective (ap (λ p. p.0) e)))
  run_sound n digest_size (read i ∷ ops) v m m' pages w r e =
      let (page, m₁, got, e1) = >>=-eq-ok D S (get_page D S m i) _ e in
      let (rest, m₂, ran, e2) = >>=-eq-ok D S (run ops m₁) _ e1 in
      let joined : page ∷ rest ≡ pages = ok-injective (ap (λ p. p.0) e2) in
      elim (get_page_sound D S n v digest_size m m₁ i page w.0 r got) [
        | inr collision ↦ inr collision
        | inl s ↦ elim (run_sound n digest_size ops v m₁ m₂ rest w.1 s.represents ran) [
          | inl later ↦ inl (ap₂ prepend s.shown later ∙ ap some joined)
          | inr collision ↦ inr collision
        ]
      ]
  run_sound n digest_size (write i new ∷ ops) v m m' pages w r e =
      let (page, m₁, got, e1) = >>=-eq-ok D S (get_page D S m i) _ e in
      elim (get_page_sound D S n v digest_size m m₁ i page w.0 r got) [
        | inr collision ↦ inr collision
        | inl s ↦
            run_sound n digest_size ops (λ j. if i == j then some new else v j)
              (put_page D S m₁ i new) m' pages w.1 (put_page_sound D S n v m₁ i page new s) e1
      ]

  no_slot :
      (k slot i : ℕ) (c : CachedPage)
      → ¬ IsHeld (slots_of (replicate k default_cached_page)) slot i c
  no_slot zero slot i c h = let t = h.there in cc
  no_slot (suc k) zero i c h =
      let t = ap (λ (x : CachedPage). x.valid) (some-injective _ _ h.there) ∙ h.valid in cc
  no_slot (suc k) (suc slot) i c h =
      no_slot k slot i c (record { there = h.there; valid = h.valid; index = h.index })

  -- Whatever the client answers and whatever page is evicted when: for a memory of the data or the
  -- stack with the root of an accumulator of as many leaves as it has pages, rounded up, and less
  -- than 2^31, and a hasher with outputs of 32 bytes: if a program of reads and writes of pages
  -- within it succeeds, its reads return what they return on the pages that the leaves stand for,
  -- each replaced by what was last written, or two inputs of the hasher with one hash are known.
  pub run-reads :
      (digest_size : (x : List ℕ) → length (D.digest x) ≡ 32) (ma : MerkleAccumulator)
      (ops : List Operation) (comm : Session) (max_pages n_pages : ℕ) (section_kind : SectionKind)
      (aes_nonce : List ℕ) (strategy : S.Strategy) (vapp_hash : List ℕ) (pages : List Page)
      (m' : OutsourcedMemory S)
      → IsTree D.digest ma
      → length ma.elements < 2 ^ 31
      → n_pages_adjusted n_pages ≡ some (length ma.elements)
      → is_code section_kind ≡ false
      → length aes_nonce ≡ 12
      → All (IsWithin (length ma.elements)) ops
      → run ops
          (new S comm max_pages false section_kind n_pages (root ma) aes_nonce strategy vapp_hash)
        ≡ (ok pages, m')
      → (reads ops (λ i. opened D (element ma.elements i)) ≡ some pages) ⊎ Collision D.digest
  unfolding new
  run-reads digest_size ma ops comm max_pages n_pages section_kind aes_nonce strategy vapp_hash
        pages m' tree small counted not_code nonce_size within e =
      run_sound (length ma.elements) digest_size ops (λ i. opened D (element ma.elements i)) _ m'
        pages within
        (record {
          accumulator = ma;
          backed = record {
            tree = tree;
            rooted = refl;
            counted = counted;
            small = small;
            not_code = not_code;
            writable = refl;
            nonce_size = nonce_size;
          };
          same_size = refl;
          holds = record {
            cached = λ slot j c h. absurd (no_slot max_pages slot j c h);
            stored = λ j l nowhere. refl;
            single = λ s t j c d h k. absurd (no_slot max_pages s j c h);
          };
          last = λ i slot q. absurd (never i slot q);
        })
        e
    where
      never : (i slot : ℕ) → ¬ (◌≡◌ {A = Option (ℕ × ℕ)} none (some (i, slot)))
      never i slot q = cc
