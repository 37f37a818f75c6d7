-- ===== src/Client/Conversation/Loaded.antt =====
-- The VM's half of the loading of a page: what `load_page` of vm/src/handlers/lib/outsourced_mem.rs
-- makes of the messages of the client.
use vanadium.Prelude.{
  ℕ, suc, ◌+◌, ◌<◌, ◌≡◌, ◌==◌, ==_refl, refl, sym, ap, ◌∙◌, subst, arith, Bool, true, false,
  if◌then◌else◌,
}
use vanadium.Prelude.{
  List, [], ◌∷◌, ◌++◌, append_assoc, length, length-append, length-map, length-take, length-drop,
  take-append-drop, take, drop, replicate, none, some, ok,
}
use vanadium.Word.{u8}
use vanadium.Accumulator.{
  HashOutput, hash_element, verify_inclusion_proof, feed_all, begin_inclusion_proof,
}
use vanadium.Accumulator.Feeding.{feed_all-append, verify_inclusion_proof-eq_fed}
use vanadium.Message.{PageProofKind}
use vanadium.Message.Bytes.{IsProof, IsNonce}
use vanadium.Message.Page.{
  new_get_page, serialize_get_page, new_get_page_response, serialize_get_page_proof_continued,
}
use vanadium.Message.Page.RoundTrip.{deserialize_get_page_response-serialize_get_page_response}
use vanadium.Paging.Aes.{decrypt}
use vanadium.Paging.Session.{Session, Answer, continue, interrupt}
use vanadium.Paging.Strategy.{PageEvictionStrategy}
use vanadium.Paging.Device.{Device}
use vanadium.Paging.Talk.{ask, feed_all_rest}
use vanadium.Paging.Outsourced.{
  OutsourcedMemory, get_page_hash, n_pages_adjusted, load_page, load_with_merkle, page_of,
}
use vanadium.Paging.Outsourced.Load.{get_page_hash-eq, inclusion-Feeds}
use vanadium.Client.Conversation.{parts, answered, feed_rest-parts, take-IsProof, drop-IsProof}
use vanadium.Client.Conversation.Served.{
  more_proof, leaf_of, first_size, page_message, rest_messages,
}

-- The page that the bytes of a leaf stand for.
abbrev pub IsOpened : Device → Bool → List ℕ → List ℕ → List ℕ → Type 0
IsOpened D true nonce bytes page =
    (decrypt D.block_cipher nonce bytes ≡ ok page) × (length page ≡ 256)
IsOpened D false nonce bytes page = bytes ≡ page

module _ (D : Device) (S : PageEvictionStrategy) (m : OutsourcedMemory S) where
  leaf_hash :
      (is_encrypted : Bool) (nonce bytes : List ℕ)
      → IsNonce is_encrypted nonce
      → get_page_hash D.digest bytes (if is_encrypted then some nonce else none)
        ≡ hash_element D.digest (leaf_of is_encrypted nonce bytes)
  leaf_hash true nonce bytes h = get_page_hash-eq D bytes (some nonce)
  leaf_hash false nonce bytes h =
      get_page_hash-eq D bytes none ∙ ap (λ n. hash_element D.digest (0 ∷ (n ++ bytes))) (sym h)

  page_of-opened :
      (is_encrypted : Bool) (nonce bytes page : List ℕ) (n t : ℕ) (proof : List HashOutput)
      (hash : HashOutput) (s : Session)
      → IsOpened D is_encrypted nonce bytes page
      → page_of D S m
          (new_get_page_response bytes is_encrypted nonce n t PageProofKind.merkle proof)
          hash
          s
        ≡ (ok (page, hash), s)
  unfolding page_of
  page_of-opened true nonce bytes page n t proof hash s (e, size) = rw (e, size) refl
  page_of-opened false nonce bytes page n t proof hash s e = ap (λ b. (ok (b, hash), s)) e

  pub load_page-messages :
      (page_index size : ℕ) (is_encrypted : Bool) (nonce bytes page : List ℕ)
      (proof : List HashOutput) (more : List Answer) (sent : List (List ℕ))
      → length bytes ≡ 256
      → IsNonce is_encrypted nonce
      → IsProof proof
      → length proof < 256
      → n_pages_adjusted m.n_pages ≡ some size
      → verify_inclusion_proof D.digest m.merkle_root proof
          (hash_element D.digest (leaf_of is_encrypted nonce bytes))
          page_index
          size
        ≡ true
      → IsOpened D is_encrypted nonce bytes page
      → load_page D S m page_index (record {
        answers =
            answered (page_message is_encrypted nonce bytes proof ∷ rest_messages proof) ++ more;
        sent = sent;
      })
        ≡ (
          ok (page, hash_element D.digest (leaf_of is_encrypted nonce bytes)),
          record {
            answers = more;
            sent =
                sent
                ++ serialize_get_page (new_get_page m.section_kind page_index)
                  ∷ replicate (length (rest_messages proof)) more_proof;
          },
        )
  unfolding load_page ask interrupt load_with_merkle feed_all_rest
      serialize_get_page_proof_continued
  load_page-messages page_index size is_encrypted nonce bytes page proof more sent full nonce_ok
        sizes short counted accepted opens =
      let t = first_size proof in
      let hash = hash_element D.digest (leaf_of is_encrypted nonce bytes) in
      let counted_t : t ≡ length (take t proof) = omega (arith, length-take t proof) in
      let same_t : (t == length (take t proof)) ≡ true =
        subst (λ k. (t == k) ≡ true) counted_t (==_refl t) in
      let read =
        deserialize_get_page_response-serialize_get_page_response bytes is_encrypted nonce
          (u8 (length proof)) t PageProofKind.merkle (take t proof) full nonce_ok
          (take-IsProof t proof sizes) counted_t in
      let begun = begin_inclusion_proof m.merkle_root hash page_index size in
      let left = length-drop t proof in
      let request = serialize_get_page (new_get_page m.section_kind page_index) in
      let messages = parts (length proof) (drop t proof) in
      let all_answers : length (answered messages ++ more) ≡ length messages + length more =
        length-append (answered messages) more
        ∙ ap (λ k. k + length more) (length-map (continue 0 0) messages) in
      let fed =
        feed_rest-parts (feed_all D.digest) more_proof (inclusion-Feeds D) (length proof)
          (suc (length (answered messages ++ more))) (u8 (length proof)) t (drop t proof)
          (feed_all D.digest (take t proof) begun) more (sent ++ request ∷ []) (omega arith)
          (omega (arith, all_answers)) (omega arith) (drop-IsProof t proof sizes) in
      let whole : feed_all D.digest (drop t proof) (feed_all D.digest (take t proof) begun)
          ≡ feed_all D.digest proof begun =
        sym (feed_all-append D.digest (take t proof) (drop t proof) begun)
        ∙ ap (λ p. feed_all D.digest p begun) (take-append-drop t proof) in
      let verified : (feed_all D.digest proof begun).verified ≡ true =
        sym (verify_inclusion_proof-eq_fed D.digest m.merkle_root proof hash page_index size)
        ∙ accepted in
      let after : Session = record {
        answers = more;
        sent = (sent ++ request ∷ []) ++ replicate (length messages) more_proof;
      } in
      rw (read, leaf_hash is_encrypted nonce bytes nonce_ok, same_t, counted, fed, whole, verified)
        (page_of-opened is_encrypted nonce bytes page (u8 (length proof)) t (take t proof) hash
            after opens
          ∙ ap (λ l. (ok (page, hash), record { answers = more; sent = l }))
              (append_assoc sent (request ∷ []) (replicate (length messages) more_proof)))
