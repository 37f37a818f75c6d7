-- ===== src/Paging/Outsourced.antt =====
-- `OutsourcedMemory` of vm/src/handlers/lib/outsourced_mem.rs: a paged memory that holds some of its
-- pages, and asks the client for the others. The counters of the feature `metrics` are left out.
pub mod Access
pub mod Load
pub mod Commit
pub mod Slots
pub mod Search
use vanadium.Prelude.{
  ℕ, zero, suc, ◌+◌, ◌==◌, leb, not, ◌&&◌, Bool, true, false, if◌then◌else◌, List, [], ◌∷◌, ◌++◌,
}
use vanadium.Prelude.{
  length, get_elem?, set, replicate, Option, none, some, Outcome, ok, err, panic, map_err,
}
use vanadium.Accumulator.{
  HashOutput, feed_all, feed_all_update, begin_inclusion_proof, begin_update_proof, update_verified,
  is_same,
}
use vanadium.Message.{SectionKind, PageProofKind, ClientCommandCode, at}
use vanadium.Message.Page.{
  GetPageResponse, new_get_page, serialize_get_page, deserialize_get_page_response,
  serialize_get_page_proof_continued,
}
use vanadium.Message.Commit.{
  new_commit_page, serialize_commit_page, deserialize_commit_page_proof,
  serialize_commit_page_proof_continued,
}
use vanadium.Vm.Error.{MemoryError, generic_error}
use vanadium.Vm.Memory.{Page, PagedMemory}
use vanadium.Paging.Aes.{encrypt, decrypt}
use vanadium.Paging.Session.{Session}
use vanadium.Paging.Strategy.{PageEvictionStrategy}
use vanadium.Paging.Device.{Device, get_vapp_auth_key, compute_code_page_hmac}
use vanadium.Paging.Talk.{
  Talk, ◌>>=◌, ◌>>◌, lift, pure, check, assert, expect, decoded, ask, feed_all_rest,
}

pub record CachedPage : Type 0 where
  pub idx : ℕ
  pub page : Page
  pub page_hash : HashOutput
  pub valid : Bool
  pub modified : Bool

abbrev pub default_cached_page : CachedPage
default_cached_page = record {
  idx = 0;
  page = replicate 256 0;
  page_hash = replicate 32 0;
  valid = false;
  modified = false;
}

-- The session and the nonce are shared with the other memories of the VM, in turns.
pub record OutsourcedMemory (S : PageEvictionStrategy) : Type 0 where
  pub comm : Session
  pub cached_pages : List CachedPage
  pub n_pages : ℕ
  pub merkle_root : HashOutput
  pub aes_nonce : List ℕ
  pub is_readonly : Bool
  pub section_kind : SectionKind
  pub eviction_strategy : S.Strategy
  pub last_accessed_page : Option (ℕ × ℕ)
  pub vapp_hash : List ℕ

-- The content of a leaf: whether the page is encrypted, its nonce or zeros, and its bytes.
abbrev pub serialized_page : List ℕ → Option (List ℕ) → List ℕ
serialized_page bytes none = replicate 13 0 ++ bytes
serialized_page bytes (some nonce) = 1 ∷ (nonce ++ bytes)

unfoldable pub get_page_hash : (List ℕ → HashOutput) → List ℕ → Option (List ℕ) → HashOutput
get_page_hash digest bytes nonce = digest (0 ∷ serialized_page bytes nonce)

abbrev pub is_code : SectionKind → Bool
is_code SectionKind.code = true
is_code SectionKind.data_section = false
is_code SectionKind.stack = false

-- The smallest power of two from `p` on that is not below `n`, if there is one among `turns`.
unfoldable pub next_power : ℕ → ℕ → ℕ → Option ℕ
next_power zero p n = none
next_power (suc turns) p n =
    let rest = next_power turns (p + p) n in if leb n p then some p else rest

-- A `usize` has 32 bits, as on the devices.
unfoldable pub n_pages_adjusted : ℕ → Option ℕ
n_pages_adjusted n_pages = next_power 32 1 n_pages

abbrev counted_up : Option ℕ → Option ℕ
counted_up none = none
counted_up (some i) = some (suc i)

-- The first slot that holds the page, and the first one that is free.
unfoldable pub find_page : ℕ → List CachedPage → Option ℕ
find_page page_index [] = none
find_page page_index (c ∷ cs) =
    if c.valid && c.idx == page_index then some 0 else counted_up (find_page page_index cs)

unfoldable pub find_free : List CachedPage → Option ℕ
find_free [] = none
find_free (c ∷ cs) = if not c.valid then some 0 else counted_up (find_free cs)

module _ (D : Device) (S : PageEvictionStrategy) where
  module _ (m : OutsourcedMemory S) where
    abbrev decrypted_page : GetPageResponse → HashOutput → Talk (Page × HashOutput)
    decrypted_page r page_hash = do
      decrypted_data ← decoded "AES decryption failed" (decrypt D.block_cipher r.nonce r.page_data)
      check (length decrypted_data == 256) "Decrypted page size mismatch"
      pure (decrypted_data, page_hash)

    unfoldable pub page_of : GetPageResponse → HashOutput → Talk (Page × HashOutput)
    page_of r page_hash =
        if r.is_encrypted then decrypted_page r page_hash else pure (r.page_data, page_hash)

    -- The response holds slices of the client's answer, and `page_hash` is the hash of its page.
    unfoldable pub load_with_merkle : ℕ → GetPageResponse → HashOutput → Talk (Page × HashOutput)
    load_with_merkle page_index r page_hash = do
      check (r.t == length r.proof)
          "Proof fragment size does not match the expected number of elements"
      size ← expect (n_pages_adjusted m.n_pages)
      let verifier = begin_inclusion_proof m.merkle_root page_hash page_index size
      verifier' ←
          feed_all_rest (feed_all D.digest)
            (serialize_get_page_proof_continued ClientCommandCode.get_page_proof_continued) r.n r.t
            (feed_all D.digest r.proof verifier)
      check verifier'.verified "Merkle inclusion verification failed"
      page_of r page_hash

    abbrev or_hmac_error : Option (List ℕ) → Outcome MemoryError (List ℕ)
    or_hmac_error none = err (generic_error "HMAC computation failed")
    or_hmac_error (some mac) = ok mac

    abbrev first : List (List ℕ) → List ℕ
    first [] = []
    first (el ∷ proof) = el

    pub load_with_hmac : ℕ → GetPageResponse → HashOutput → Talk (Page × HashOutput)
    load_with_hmac page_index r page_hash = do
      check (not r.is_encrypted) "HMAC proof not allowed for encrypted pages"
      check (r.n == 1 && r.t == 1) "HMAC proof must contain exactly one element"
      check (length r.proof == 1) "HMAC proof must contain exactly one element"
      check (is_code m.section_kind) "HMAC proof not allowed for non-code section"
      expected_hmac ← lift (
          or_hmac_error (
            compute_code_page_hmac D (get_vapp_auth_key D m.vapp_hash) m.vapp_hash page_index
              page_hash))
      check (is_same (first r.proof) expected_hmac) "HMAC verification failed"
      pure (r.page_data, page_hash)

    unfoldable pub load_page : ℕ → Talk (Page × HashOutput)
    load_page page_index = do
      payload ← ask (serialize_get_page (new_get_page m.section_kind page_index))
      r ← decoded "Invalid page data" (deserialize_get_page_response payload)
      let page_hash =
          get_page_hash D.digest r.page_data (if r.is_encrypted then some r.nonce else none)
      elim r.proof_kind [
        | PageProofKind.merkle ↦ load_with_merkle page_index r page_hash
        | PageProofKind.hmac ↦ load_with_hmac page_index r page_hash
      ]

    -- The new root, from the page in a slot, its encryption and the nonce of that.
    unfoldable pub commit_encrypted : CachedPage → List ℕ → List ℕ → Talk HashOutput
    commit_encrypted c nonce payload = do
      let new_page_hash = get_page_hash D.digest payload (some nonce)
      assert (length payload == 256)
      answer ← ask (serialize_commit_page (new_commit_page m.section_kind c.idx true nonce payload))
      r ← decoded "Invalid proof data" (deserialize_commit_page_proof answer)
      check (not (r.n == 0)) "Proof must contain at least one element"
      check (r.t == length r.proof)
          "Proof fragment size does not match the expected number of elements"
      size ← expect (n_pages_adjusted m.n_pages)
      let verifier =
          begin_update_proof m.merkle_root r.new_root c.page_hash new_page_hash c.idx size
      verifier' ←
          feed_all_rest (feed_all_update D.digest)
            (serialize_commit_page_proof_continued ClientCommandCode.commit_page_proof_continued)
            r.n r.t (feed_all_update D.digest r.proof verifier)
      check (update_verified verifier') "Merkle update verification failed"
      pure r.new_root
