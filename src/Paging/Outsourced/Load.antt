-- ===== src/Paging/Outsourced/Load.antt =====
-- What `load_page` of vm/src/handlers/lib/outsourced_mem.rs accepts from the client.
use vanadium.Prelude.{
  ℕ, ◌^◌, ◌<◌, ◌≡◌, ◌≢◌, ◌==◌, ◌⊎◌, refl, sym, ap, ap₂, ◌∙◌, subst, not, ◌&&◌, Bool, true, false,
  inl, inr, if◌then◌else◌, List, ◌∷◌, ◌++◌, length, get_or, take, drop, Option, none, some, Outcome,
  ok, err, panic,
}
use vanadium.Accumulator.{
  HashOutput, MerkleAccumulator, element, feed_all, begin_inclusion_proof, verify_inclusion_proof,
  hash_element, root,
}
use vanadium.Accumulator.Tree.{IsTree}
use vanadium.Accumulator.Sound.{verify_inclusion_proof_sound}
use vanadium.Accumulator.Sound.Inputs.{Collision, same_input}
use vanadium.Accumulator.Feeding.{
  feed_all-nil, feed_all-append, verify_inclusion_proof-eq_fed, hash_element-eq,
}
use vanadium.Message.{PageProofKind, ClientCommandCode}
use vanadium.Message.Bytes.{IsProof, take-append, drop-append}
use vanadium.Message.Page.{
  GetPageResponse, deserialize_get_page_response, serialize_get_page_proof_continued,
}
use vanadium.Message.Page.Hashes.{HasSizes, deserialize_get_page_response-HasSizes}
use vanadium.Vm.Memory.{Page}
use vanadium.Paging.Aes.{decrypt, AesError}
use vanadium.Paging.Session.{Session}
use vanadium.Paging.Strategy.{PageEvictionStrategy}
use vanadium.Paging.Device.{Device}
use vanadium.Paging.Talk.{Talk, pure, ask, feed_all_rest}
use vanadium.Paging.Talk.Rest.{
  >>=-eq-ok, check-eq-ok, expect-eq-ok, decoded-eq-ok, Feeds, feed_all_rest_lem, IsProof-append,
}
use vanadium.Paging.Outsourced.{
  OutsourcedMemory, serialized_page, get_page_hash, n_pages_adjusted, is_code, page_of,
  decrypted_page, load_with_merkle, load_with_hmac, load_page,
}

abbrev decrypted : Outcome AesError (List ℕ) → Option Page
decrypted (ok page) = some page
decrypted (err e) = none
decrypted panic = none

-- The page that a leaf of the accumulator stands for: its first byte says whether it is encrypted.
pub opened : Device → List ℕ → Option Page
opened D leaf =
    if get_or leaf 0 0 == 1
    then decrypted (decrypt D.block_cipher (take 12 (drop 1 leaf)) (drop 13 leaf))
    else some (drop 13 leaf)

pub opened-plain :
    (D : Device) (bytes : List ℕ) → opened D (serialized_page bytes none) ≡ some bytes
unfolding opened
opened-plain D bytes = refl

pub opened-encrypted :
    (D : Device) (bytes nonce : List ℕ) (page : Page)
    → length nonce ≡ 12
    → decrypt D.block_cipher nonce bytes ≡ ok page
    → opened D (serialized_page bytes (some nonce)) ≡ some page
unfolding opened
opened-encrypted D bytes nonce page h e =
    ap₂ (λ n b. decrypted (decrypt D.block_cipher n b)) (take-append nonce bytes 12 h)
      (drop-append nonce bytes 12 h)
    ∙ ap decrypted e

-- The content of a leaf is known from its hash.
module _ (D : Device) where
  pub inclusion-Feeds : Feeds (feed_all D.digest)
  inclusion-Feeds = record { nothing = feed_all-nil D.digest; joined = feed_all-append D.digest }

  pub get_page_hash-eq :
      (bytes : List ℕ) (nonce : Option (List ℕ))
      → get_page_hash D.digest bytes nonce ≡ hash_element D.digest (serialized_page bytes nonce)
  unfolding get_page_hash
  get_page_hash-eq bytes nonce = sym (hash_element-eq D.digest (serialized_page bytes nonce))

  same_leaf :
      (a b : List ℕ)
      → hash_element D.digest a ≡ hash_element D.digest b
      → (a ≡ b) ⊎ Collision D.digest
  same_leaf a b e =
      elim (same_input D.digest (0 ∷ a) (0 ∷ b)
        (sym (hash_element-eq D.digest a) ∙ e ∙ hash_element-eq D.digest b)) [
          | inl s ↦ inl (ap (drop 1) s)
          | inr c ↦ inr c
        ]

  abbrev leaf_of : GetPageResponse → List ℕ
  leaf_of r = serialized_page r.page_data (if r.is_encrypted then some r.nonce else none)

  abbrev leaf_hash_of : GetPageResponse → HashOutput
  leaf_hash_of r = hash_element D.digest (leaf_of r)

module _ (D : Device) (S : PageEvictionStrategy) (m : OutsourcedMemory S) where
  -- The page that is handed out is the one that the response stands for.
  page_of_case :
      (encrypted : Bool) (r : GetPageResponse) (page_hash hash : HashOutput) (page : Page)
      (s s' : Session)
      → length r.nonce ≡ 12
      → (if encrypted then decrypted_page D S m r page_hash else pure (r.page_data, page_hash)) s
        ≡ (ok (page, hash), s')
      → (hash ≡ page_hash)
        × (opened D (serialized_page r.page_data (if encrypted then some r.nonce else none))
            ≡ some page)
  page_of_case true r page_hash hash page s s' h e =
      let (payload, done, e1) =
        decoded-eq-ok "AES decryption failed" (decrypt D.block_cipher r.nonce r.page_data) _ s e in
      let (sized, e2) = check-eq-ok (length payload == 256) _ _ s e1 in
      let same : payload ≡ page = cc in
      (
        cc,
        opened-encrypted D r.page_data r.nonce page h
            (subst (λ p. decrypt D.block_cipher r.nonce r.page_data ≡ ok p) same done),
      )
  page_of_case false r page_hash hash page s s' h e =
      let same : r.page_data ≡ page = cc in (cc, opened-plain D r.page_data ∙ ap some same)

  page_of-opened :
      (r : GetPageResponse) (page_hash hash : HashOutput) (page : Page) (s s' : Session)
      → length r.nonce ≡ 12
      → page_of D S m r page_hash s ≡ (ok (page, hash), s')
      → (hash ≡ page_hash) × (opened D (leaf_of D r) ≡ some page)
  unfolding page_of
  page_of-opened r page_hash hash page s s' h e =
      page_of_case r.is_encrypted r page_hash hash page s s' h e

  abbrev requested : List ℕ
  requested = serialize_get_page_proof_continued ClientCommandCode.get_page_proof_continued

  module _ (digest_size : (x : List ℕ) → length (D.digest x) ≡ 32) (ma : MerkleAccumulator)
      (tree : IsTree D.digest ma) (rooted : m.merkle_root ≡ root ma)
      (counted : n_pages_adjusted m.n_pages ≡ some (length ma.elements))
      (small : length ma.elements < 2 ^ 31) (page_index : ℕ)
      (within : page_index < length ma.elements) where
    -- The page that is loaded is the one that the accumulator has at the index.
    abbrev IsGenuine : Page → HashOutput → Type 0
    IsGenuine page hash =
        (hash ≡ hash_element D.digest (element ma.elements page_index))
        × (opened D (element ma.elements page_index) ≡ some page)

    genuine :
        (r : GetPageResponse) (proof : List HashOutput) (page hash : List ℕ)
        → IsProof proof
        → verify_inclusion_proof D.digest
            (root ma)
            proof
            (leaf_hash_of D r)
            page_index
            (length ma.elements)
          ≡ true
        → hash ≡ leaf_hash_of D r
        → opened D (leaf_of D r) ≡ some page
        → IsGenuine page hash ⊎ Collision D.digest
    genuine r proof page hash sizes v same_hash shown =
        elim (verify_inclusion_proof_sound D.digest 32 digest_size ma proof (leaf_hash_of D r)
          page_index tree small within (ap length (hash_element-eq D.digest _) ∙ digest_size _)
          sizes v) [
            | inl known ↦ elim (same_leaf D (leaf_of D r) (element ma.elements page_index) known) [
              | inl same ↦ inl (same_hash ∙ known, sym (ap (opened D) same) ∙ shown)
              | inr c ↦ inr c
            ]
            | inr c ↦ inr c
          ]

    load_with_merkle_sound :
        (r : GetPageResponse) (page hash : List ℕ) (s s' : Session)
        → HasSizes r
        → load_with_merkle D S m page_index r (leaf_hash_of D r) s ≡ (ok (page, hash), s')
        → IsGenuine page hash ⊎ Collision D.digest
    unfolding load_with_merkle
    load_with_merkle_sound r page hash s s' sizes e =
        let (fragment, e1) = check-eq-ok (r.t == length r.proof) _ _ s e in
        let (size, adjusted, e2) = expect-eq-ok (n_pages_adjusted m.n_pages) _ s e1 in
        let begun = begin_inclusion_proof m.merkle_root (leaf_hash_of D r) page_index size in
        let (v, s₁, fed, e3) =
          >>=-eq-ok
            (feed_all_rest (feed_all D.digest) requested r.n r.t (feed_all D.digest r.proof begun))
            _ s e2 in
        let (rest, rest_sizes, all_fed) =
          feed_all_rest_lem (feed_all D.digest) requested (inclusion-Feeds D) r.n r.t _ v s s₁
            fed in
        let (verified, e4) = check-eq-ok v.verified _ _ s₁ e3 in
        let (same_hash, shown) =
          page_of-opened r (leaf_hash_of D r) hash page s₁ s' sizes.nonce_size e4 in
        let proof = r.proof ++ rest in
        let same_size : size ≡ length ma.elements = cc in
        let accepted : verify_inclusion_proof D.digest (root ma) proof (leaf_hash_of D r) page_index
              (length ma.elements)
            ≡ true =
          ap₂ (λ t n. verify_inclusion_proof D.digest t proof (leaf_hash_of D r) page_index n)
            (sym rooted) (sym same_size)
          ∙ verify_inclusion_proof-eq_fed D.digest m.merkle_root proof (leaf_hash_of D r) page_index
              size
          ∙ ap (λ u. u.verified) (feed_all-append D.digest r.proof rest begun ∙ sym all_fed)
          ∙ verified in
        genuine r proof page hash (IsProof-append r.proof rest sizes.proof_IsProof rest_sizes)
          accepted same_hash shown

  refused :
      (r : GetPageResponse) (page_index : ℕ) (page_hash : HashOutput) (loaded : Page × HashOutput)
      (s s' : Session)
      → is_code m.section_kind ≡ false
      → load_with_hmac D S m page_index r page_hash s ≢ (ok loaded, s')
  unfolding load_with_hmac
  refused r page_index page_hash loaded s s' not_code e =
      let (plain, e1) = check-eq-ok (not r.is_encrypted) _ _ s e in
      let (one, e2) = check-eq-ok (r.n == 1 && r.t == 1) _ _ s e1 in
      let (single, e3) = check-eq-ok (length r.proof == 1) _ _ s e2 in
      let (code, e4) = check-eq-ok (is_code m.section_kind) _ _ s e3 in cc

  -- Whatever the client answers, in a memory of the data or the stack with the root of a
  -- well-formed accumulator of as many leaves as it has pages, rounded up, and less than 2^31: a
  -- page that is loaded is the one that the leaf at its index stands for, and its hash is that of
  -- the leaf, or two inputs of the hasher, with outputs of 32 bytes, with one hash are known.
  pub load_page_sound :
      (digest_size : (x : List ℕ) → length (D.digest x) ≡ 32) (ma : MerkleAccumulator)
      (page_index : ℕ) (page hash : List ℕ) (s s' : Session)
      → IsTree D.digest ma
      → m.merkle_root ≡ root ma
      → n_pages_adjusted m.n_pages ≡ some (length ma.elements)
      → length ma.elements < 2 ^ 31
      → page_index < length ma.elements
      → is_code m.section_kind ≡ false
      → load_page D S m page_index s ≡ (ok (page, hash), s')
      → ((hash ≡ hash_element D.digest (element ma.elements page_index))
          × (opened D (element ma.elements page_index) ≡ some page))
        ⊎ Collision D.digest
  unfolding load_page
  load_page_sound digest_size ma page_index page hash s s' tree rooted counted small within not_code
        e =
      let (payload, s₁, asked, e1) = >>=-eq-ok (ask _) _ s e in
      let (r, read, e2) =
        decoded-eq-ok "Invalid page data" (deserialize_get_page_response payload) _ s₁ e1 in
      let sizes = deserialize_get_page_response-HasSizes payload r read in
      by_kind r sizes _ (get_page_hash-eq D r.page_data _) r.proof_kind s₁ e2
    where
      by_kind :
          (r : GetPageResponse)
          → HasSizes r
          → (page_hash : HashOutput) → page_hash ≡ leaf_hash_of D r
          → (kind : PageProofKind) (s₁ : Session)
          → (elim kind as (λ k. Talk (Page × HashOutput)) [
            | PageProofKind.merkle ↦ load_with_merkle D S m page_index r page_hash
            | PageProofKind.hmac ↦ load_with_hmac D S m page_index r page_hash
          ])
              s₁
            ≡ (ok (page, hash), s')
          → ((hash ≡ hash_element D.digest (element ma.elements page_index))
              × (opened D (element ma.elements page_index) ≡ some page))
            ⊎ Collision D.digest
      by_kind r sizes page_hash same PageProofKind.merkle s₁ e =
          load_with_merkle_sound digest_size ma tree rooted counted small page_index within r page
            hash s₁ s' sizes
            (subst (λ h. load_with_merkle D S m page_index r h s₁ ≡ (ok (page, hash), s')) same e)
      by_kind r sizes page_hash same PageProofKind.hmac s₁ e =
          absurd (refused r page_index page_hash (page, hash) s₁ s' not_code e)
