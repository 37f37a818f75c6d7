-- ===== src/Paging/Outsourced/Access/Committed.antt =====
-- A memory of vm/src/handlers/lib/outsourced_mem.rs that is backed by an accumulator of the client,
-- and the commitment of a page.
use vanadium.Prelude.{
  ℕ, ◌^◌, ◌<◌, ◌≡◌, ◌≢◌, ◌⊎◌, refl, sym, ap, ◌∙◌, subst, arith, not, Bool, true, false, inl, inr,
  if◌then◌else◌, List, [], length, length-set, get_elem?, get_or-set_self, get_or-set_ne, Option,
  none, some, Outcome, ok, err, panic,
}
use vanadium.Accumulator.{HashOutput, MerkleAccumulator, element, hash_element, root, updated}
use vanadium.Accumulator.Tree.{IsTree}
use vanadium.Accumulator.Update.{updated-IsTree}
use vanadium.Accumulator.Sound.Inputs.{Collision}
use vanadium.Message.{SectionKind}
use vanadium.Vm.Error.{MemoryError}
use vanadium.Paging.Aes.{AesError, encrypt}
use vanadium.Paging.Aes.RoundTrip.{decrypt-encrypt, encrypt-nonce}
use vanadium.Paging.Aes.Counter.{length-increment_be_slice}
use vanadium.Paging.Session.{Session}
use vanadium.Paging.Strategy.{PageEvictionStrategy}
use vanadium.Paging.Device.{Device}
use vanadium.Paging.Outsourced.{
  CachedPage, OutsourcedMemory, serialized_page, n_pages_adjusted, is_code, commit_encrypted,
}
use vanadium.Paging.Outsourced.Load.{opened, opened-encrypted}
use vanadium.Paging.Outsourced.Commit.{commit_encrypted_sound}
use vanadium.Paging.Outsourced.Access.{Result, with_root, commit_with, commit_page, commit_page_at}

module _ (D : Device) where
  -- The root of a memory that is not that of the code is the root of an accumulator.
  pub record BackedBy (merkle_root : HashOutput) (n_pages : ℕ) (section_kind : SectionKind)
      (is_readonly : Bool) (aes_nonce : List ℕ) (ma : MerkleAccumulator) : Type 0 where
    pub tree : IsTree D.digest ma
    pub rooted : merkle_root ≡ root ma
    pub counted : n_pages_adjusted n_pages ≡ some (length ma.elements)
    pub small : length ma.elements < 2 ^ 31
    pub not_code : is_code section_kind ≡ false
    pub writable : is_readonly ≡ false
    pub nonce_size : length aes_nonce ≡ 12

  module _ (S : PageEvictionStrategy) where
    abbrev pub IsBacked : OutsourcedMemory S → MerkleAccumulator → Type 0
    IsBacked m ma = BackedBy m.merkle_root m.n_pages m.section_kind m.is_readonly m.aes_nonce ma

    -- A memory after a page was committed: its accumulator has the page, and all others.
    pub record IsCommitted (pages : List CachedPage) (m' : OutsourcedMemory S)
        (ma : MerkleAccumulator) (c : CachedPage) : Type 0 where
      pub accumulator : MerkleAccumulator
      pub backed : IsBacked m' accumulator
      pub same_size : length accumulator.elements ≡ length ma.elements
      pub others : (j : ℕ) → j ≢ c.idx → element accumulator.elements j ≡ element ma.elements j
      pub fresh : opened D (element accumulator.elements c.idx) ≡ some c.page
      pub kept : m'.cached_pages ≡ pages

    with_root-eq-ok :
        (m m' : OutsourcedMemory S) (r : Outcome MemoryError HashOutput × Session)
        → with_root D S m r ≡ (ok tt, m')
        → (new_root : HashOutput) × (s : Session) × (r ≡ (ok new_root, s))
          × (m' ≡ record m { comm = s; merkle_root = new_root })
    with_root-eq-ok m m' (ok new_root, s) e = (new_root, s, refl, sym (ap (λ p. p.1) e))
    with_root-eq-ok m m' (err x, s) e = cc
    with_root-eq-ok m m' (panic, s) e = cc

    module _ (digest_size : (x : List ℕ) → length (D.digest x) ≡ 32) (ma : MerkleAccumulator)
        (c : CachedPage) (within : c.idx < length ma.elements)
        (known : c.page_hash ≡ hash_element D.digest (element ma.elements c.idx)) where
      committed :
          (m : OutsourcedMemory S) (nonce payload : List ℕ) (new_root : HashOutput) (s s' : Session)
          → IsBacked m ma
          → length nonce ≡ 12
          → opened D (serialized_page payload (some nonce)) ≡ some c.page
          → commit_encrypted D S m c nonce payload s ≡ (ok new_root, s')
          → IsCommitted m.cached_pages (record m { comm = s'; merkle_root = new_root }) ma c
            ⊎ Collision D.digest
      committed m nonce payload new_root s s' b sized shown e =
          let leaf = serialized_page payload (some nonce) in
          let new = updated D.digest ma c.idx leaf in
          let same = length-set ma.elements c.idx leaf in
          elim (commit_encrypted_sound D S m digest_size ma c nonce payload new_root s s' b.tree
            b.rooted b.counted b.small within known e) [
              | inr collision ↦ inr collision
              | inl rooted ↦ inl (record {
                accumulator = new;
                backed = record {
                  tree = updated-IsTree D.digest ma b.tree c.idx leaf within;
                  rooted = rooted;
                  counted = b.counted ∙ ap some (sym same);
                  small = omega (arith, b.small, same);
                  not_code = b.not_code;
                  writable = b.writable;
                  nonce_size = b.nonce_size;
                };
                same_size = same;
                others = λ j ne. get_or-set_ne ma.elements c.idx j leaf [] (λ q. ne (sym q));
                fresh = ap (opened D) (get_or-set_self ma.elements c.idx leaf [] within) ∙ shown;
                kept = refl;
              })
            ]

      commit_with_sound :
          (m m' : OutsourcedMemory S) (encrypted : Outcome AesError (List ℕ × List ℕ))
          → IsBacked m ma
          → ((nonce payload : List ℕ)
              → encrypted ≡ ok (nonce, payload)
              → (length nonce ≡ 12)
                × (opened D (serialized_page payload (some nonce)) ≡ some c.page))
          → commit_with D S m c encrypted ≡ (ok tt, m')
          → IsCommitted m.cached_pages m' ma c ⊎ Collision D.digest
      commit_with_sound m m' (ok (nonce, payload)) b shown e =
          let (new_root, s', done, after) =
            with_root-eq-ok m m' (commit_encrypted D S m c nonce payload m.comm) e in
          let (sized, opens) = shown nonce payload refl in
          subst (λ t. IsCommitted m.cached_pages t ma c ⊎ Collision D.digest) (sym after)
            (committed m nonce payload new_root m.comm s' b sized opens done)
      commit_with_sound m m' (err x) b shown e = cc
      commit_with_sound m m' panic b shown e = cc

      -- What the encryption of the page gives opens to the page.
      encrypted_opens :
          (nonce nonce' payload : List ℕ)
          → length nonce ≡ 12
          → (encrypt D.block_cipher c.page nonce).0 ≡ ok (nonce', payload)
          → (length nonce' ≡ 12) × (opened D (serialized_page payload (some nonce')) ≡ some c.page)
      encrypted_opens nonce nonce' payload sized e =
          let (same, size, back) = decrypt-encrypt D.block_cipher c.page nonce nonce' payload e in
          let sized' = ap length same ∙ sized in
          (sized', opened-encrypted D payload nonce' c.page sized' back)

      pub commit_page_at_sound :
          (m m' : OutsourcedMemory S) (slot : ℕ)
          → IsBacked m ma
          → get_elem? m.cached_pages slot ≡ some c
          → c.valid ≡ true
          → commit_page_at D S m slot ≡ (ok tt, m')
          → IsCommitted m.cached_pages m' ma c ⊎ Collision D.digest
      unfolding commit_page_at
      commit_page_at_sound m m' slot b there valid e =
          let after = encrypt D.block_cipher c.page m.aes_nonce in
          let e1 =
            subst
              (λ (o : Option CachedPage).
                (elim o as (λ x. Result D S (Unit {0})) [
                  | none ↦ (panic, m)
                  | some d ↦ commit_page D S m d
                ])
                ≡ (ok tt, m'))
              there e in
          let e2 =
            subst
              (λ v.
                (if not v
                  then (panic, m)
                  else commit_with D S (record m { aes_nonce = after.1 }) c after.0)
                ≡ (ok tt, m'))
              valid e1 in
          commit_with_sound (record m { aes_nonce = after.1 }) m' after.0
            (record {
              tree = b.tree;
              rooted = b.rooted;
              counted = b.counted;
              small = b.small;
              not_code = b.not_code;
              writable = b.writable;
              nonce_size =
                  ap length (encrypt-nonce D.block_cipher c.page m.aes_nonce)
                  ∙ length-increment_be_slice m.aes_nonce
                  ∙ b.nonce_size;
            })
            (λ nonce payload. encrypted_opens m.aes_nonce nonce payload b.nonce_size) e2
