-- ===== src/Paging/Outsourced/Access.antt =====
-- `get_page` of vm/src/handlers/lib/outsourced_mem.rs, with the commitment and the eviction of a
-- page, and what is written through the reference that it returns.
pub mod Committed
pub mod Evicted
pub mod Loaded
pub mod Refines
pub mod Run
use vanadium.Prelude.{
  ℕ, ◌==◌, not, ◌&&◌, Bool, true, false, if◌then◌else◌, List, get_elem?, set, replicate, Option,
  none, some, Outcome, ok, err, panic,
}
use vanadium.Accumulator.{HashOutput}
use vanadium.Message.{SectionKind}
use vanadium.Vm.Error.{MemoryError, generic_error}
use vanadium.Vm.Memory.{Page, PagedMemory}
use vanadium.Paging.Aes.{AesError, encrypt}
use vanadium.Paging.Session.{Session}
use vanadium.Paging.Strategy.{PageEvictionStrategy}
use vanadium.Paging.Device.{Device}
use vanadium.Paging.Outsourced.{
  CachedPage, OutsourcedMemory, default_cached_page, find_page, find_free, load_page,
  commit_encrypted,
}

unfoldable pub new :
    (S : PageEvictionStrategy)
    → Session
    → ℕ
    → Bool
    → SectionKind
    → ℕ
    → HashOutput
    → List ℕ
    → S.Strategy
    → List ℕ
    → OutsourcedMemory S
new S comm max_pages_in_cache is_readonly section_kind n_pages merkle_root aes_nonce strategy
      vapp_hash =
    record {
      comm = comm;
      cached_pages = replicate max_pages_in_cache default_cached_page;
      n_pages = n_pages;
      merkle_root = merkle_root;
      aes_nonce = aes_nonce;
      is_readonly = is_readonly;
      section_kind = section_kind;
      eviction_strategy = strategy;
      last_accessed_page = none;
      vapp_hash = vapp_hash;
    }

module _ (D : Device) (S : PageEvictionStrategy) where
  -- A method: what it returns, and the memory after it.
  abbrev pub Result : Type 0 → Type 0
  Result A = Outcome MemoryError A × OutsourcedMemory S

  infixl 5 ◌>>=◌
  abbrev pub ◌>>=◌ : {A B : Type 0} → Result A → (A → OutsourcedMemory S → Result B) → Result B
  (ok a, m) >>= f = f a m
  (err e, m) >>= f = (err e, m)
  (panic, m) >>= f = (panic, m)

  -- What a conversation gives, in the memory that it leaves.
  abbrev pub with_session :
      {A : Type 0} → OutsourcedMemory S → Outcome MemoryError A × Session → Result A
  with_session m (r, s) = (r, record m { comm = s })

  abbrev pub with_root :
      OutsourcedMemory S → Outcome MemoryError HashOutput × Session → Result (Unit {0})
  with_root m (ok new_root, s) = (ok tt, record m { comm = s; merkle_root = new_root })
  with_root m (err e, s) = (err e, record m { comm = s })
  with_root m (panic, s) = (panic, record m { comm = s })

  -- The page of a slot is encrypted under a nonce, and committed to.
  abbrev pub commit_with :
      OutsourcedMemory S → CachedPage → Outcome AesError (List ℕ × List ℕ) → Result (Unit {0})
  commit_with m c (ok (nonce, payload)) =
      with_root m (commit_encrypted D S m c nonce payload m.comm)
  commit_with m c (err e) = (err (generic_error "AES encryption failed"), m)
  commit_with m c panic = (panic, m)

  abbrev commit_page : OutsourcedMemory S → CachedPage → Result (Unit {0})
  commit_page m c =
      let (encrypted, nonce) = encrypt D.block_cipher c.page m.aes_nonce in
      if not c.valid then (panic, m) else commit_with (record m { aes_nonce = nonce }) c encrypted

  pub commit_page_at : OutsourcedMemory S → ℕ → Result (Unit {0})
  commit_page_at m index = elim (get_elem? m.cached_pages index) [
    | none ↦ (panic, m)
    | some c ↦ commit_page m c
  ]

  -- A call of the eviction strategy, which may panic.
  abbrev pub with_strategy : OutsourcedMemory S → Option S.Strategy → Result (Unit {0})
  with_strategy m none = (panic, m)
  with_strategy m (some strategy) = (ok tt, record m { eviction_strategy = strategy })

  -- The reference to the page in a slot.
  unfoldable pub get_cached_page_ref : OutsourcedMemory S → ℕ → ℕ → Result Page
  get_cached_page_ref m page_index slot = elim (get_elem? m.cached_pages slot) [
    | none ↦ (panic, m)
    | some c ↦ (ok c.page, record m { last_accessed_page = some (page_index, slot) })
  ]

  -- The page in a slot is no longer valid, and its slot is free.
  pub invalidate : OutsourcedMemory S → ℕ → CachedPage → Result ℕ
  invalidate m slot c =
      with_strategy
        (record m { cached_pages = set m.cached_pages slot (record c { valid = false }) })
        (S.on_invalidate slot c.idx m.eviction_strategy)
      >>= λ _ m'. (ok slot, m')

  -- The victim that the strategy chooses is committed if it was modified, and invalidated.
  pub evict_slot : OutsourcedMemory S → ℕ → CachedPage → Result ℕ
  evict_slot m slot c =
      if not m.is_readonly && c.modified
      then (commit_page_at m slot >>= λ _ m'. invalidate m' slot c)
      else invalidate m slot c

  pub evict : OutsourcedMemory S → Result ℕ
  evict m = elim (S.choose_victim m.eviction_strategy) [
    | none ↦ (panic, m)
    | some slot ↦ elim (get_elem? m.cached_pages slot) [
      | none ↦ (panic, m)
      | some c ↦ evict_slot m slot c
    ]
  ]

  unfoldable pub free_slot : OutsourcedMemory S → Result ℕ
  free_slot m = elim (find_free m.cached_pages) [ some slot ↦ (ok slot, m) | none ↦ evict m ]

  unfoldable pub load_into : OutsourcedMemory S → ℕ → ℕ → Result Page
  load_into m page_index slot = with_session m (load_page D S m page_index m.comm) >>= λ loaded m'.
      let cached : CachedPage = record {
        idx = page_index;
        page = loaded.0;
        page_hash = loaded.1;
        valid = true;
        modified = false;
      } in
      with_strategy (record m' { cached_pages = set m'.cached_pages slot cached })
        (S.on_load slot page_index m'.eviction_strategy)
      >>= λ _ m''. get_cached_page_ref m'' page_index slot

  -- The search of the cache, and the loading of a page that is not found.
  unfoldable pub find_or_load : OutsourcedMemory S → ℕ → Result Page
  find_or_load m page_index = elim (find_page page_index m.cached_pages) [
    | some slot ↦ with_strategy m (S.on_access slot page_index m.eviction_strategy) >>= λ _ m'.
        get_cached_page_ref m' page_index slot
    | none ↦ free_slot m >>= λ slot m'. load_into m' page_index slot
  ]

  unfoldable pub get_page : OutsourcedMemory S → ℕ → Result Page
  get_page m page_index = elim m.last_accessed_page [
    | none ↦ find_or_load m page_index
    | some (last_page_index, last_slot) ↦
        if page_index == last_page_index
        then get_cached_page_ref m page_index last_slot
        else find_or_load m page_index
  ]

  -- A page that is written through the last reference, which marks the slot as modified.
  unfoldable pub put_page : OutsourcedMemory S → ℕ → Page → OutsourcedMemory S
  put_page m page_index page = elim m.last_accessed_page [
    | none ↦ m
    | some (last_page_index, slot) ↦ elim (get_elem? m.cached_pages slot) [
      | none ↦ m
      | some c ↦ record m {
        cached_pages = set m.cached_pages slot (record c { page = page; modified = true });
      }
    ]
  ]

  pub outsourced_memory : PagedMemory
  outsourced_memory = record {
    Memory = OutsourcedMemory S;
    get_page = get_page;
    put_page = put_page;
  }
