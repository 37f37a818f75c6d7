-- ===== src/Client/Conversation/Accepted.antt =====
-- The VM's half of a commitment: what `commit_page_at` of vm/src/handlers/lib/outsourced_mem.rs makes
-- of the messages of the client.
use vanadium.Prelude.{
  ℕ, suc, ◌+◌, ◌<◌, ◌≡◌, ◌==◌, ==_refl, ==_of_ne, refl, sym, ap, ◌∙◌, subst, arith, true, false,
}
use vanadium.Prelude.{
  List, [], ◌∷◌, ◌++◌, append_assoc, length, length-append, length-map, length-take, length-drop,
  take-append-drop, take, drop, replicate, some, ok,
}
use vanadium.Word.{u8}
use vanadium.Accumulator.{
  HashOutput, hash_element, verify_update_proof, feed_all_update, begin_update_proof,
  update_verified,
}
use vanadium.Accumulator.Feeding.{feed_all_update-append, verify_update_proof-eq_fed}
use vanadium.Message.Bytes.{IsProof}
use vanadium.Message.Commit.{
  new_commit_page, serialize_commit_page, serialize_commit_page_proof_continued,
}
use vanadium.Message.Commit.RoundTrip.{deserialize_commit_page_proof-serialize_commit_page_proof}
use vanadium.Paging.Session.{Answer, continue, interrupt}
use vanadium.Paging.Strategy.{PageEvictionStrategy}
use vanadium.Paging.Device.{Device}
use vanadium.Paging.Talk.{ask, feed_all_rest}
use vanadium.Paging.Outsourced.{
  CachedPage, OutsourcedMemory, serialized_page, n_pages_adjusted, commit_encrypted,
}
use vanadium.Paging.Outsourced.Load.{get_page_hash-eq}
use vanadium.Paging.Outsourced.Commit.{update-Feeds}
use vanadium.Client.Conversation.{parts, answered, feed_rest-parts, take-IsProof, drop-IsProof}
use vanadium.Client.Conversation.Stored.{
  more_update, fragment_size, update_fragment, update_message, rest_of_update,
}

module _ (D : Device) (S : PageEvictionStrategy) (m : OutsourcedMemory S) where
  pub commit_encrypted-messages :
      (c : CachedPage) (size : ℕ) (nonce payload : List ℕ) (proof : List HashOutput)
      (new_root : HashOutput) (more : List Answer) (sent : List (List ℕ))
      → length payload ≡ 256
      → IsProof proof
      → length new_root ≡ 32
      → 0 < length proof
      → length proof < 256
      → n_pages_adjusted m.n_pages ≡ some size
      → verify_update_proof D.digest m.merkle_root new_root proof c.page_hash
          (hash_element D.digest (serialized_page payload (some nonce)))
          c.idx
          size
        ≡ true
      → commit_encrypted D S m c nonce payload (record {
        answers = answered (update_message proof new_root ∷ rest_of_update proof) ++ more;
        sent = sent;
      })
        ≡ (
          ok new_root,
          record {
            answers = more;
            sent =
                sent
                ++ serialize_commit_page (new_commit_page m.section_kind c.idx true nonce payload)
                  ∷ replicate (length (rest_of_update proof)) more_update;
          },
        )
  unfolding commit_encrypted ask interrupt feed_all_rest serialize_commit_page_proof_continued
  commit_encrypted-messages c size nonce payload proof new_root more sent full sizes root_size
        some_proof short counted accepted =
      let t = fragment_size proof in
      let hash = hash_element D.digest (serialized_page payload (some nonce)) in
      let counted_t : t ≡ length (take t proof) = omega (arith, length-take t proof) in
      let same_t : (t == length (take t proof)) ≡ true =
        subst (λ k. (t == k) ≡ true) counted_t (==_refl t) in
      let read =
        deserialize_commit_page_proof-serialize_commit_page_proof (update_fragment proof new_root)
          root_size (take-IsProof t proof sizes) in
      let not_none : (u8 (length proof) == 0) ≡ false = ==_of_ne _ _ (omega arith) in
      let begun = begin_update_proof m.merkle_root new_root c.page_hash hash c.idx size in
      let left = length-drop t proof in
      let request =
        serialize_commit_page (new_commit_page m.section_kind c.idx true nonce payload) in
      let messages = parts (length proof) (drop t proof) in
      let all_answers : length (answered messages ++ more) ≡ length messages + length more =
        length-append (answered messages) more
        ∙ ap (λ k. k + length more) (length-map (continue 0 0) messages) in
      let fed =
        feed_rest-parts (feed_all_update D.digest) more_update (update-Feeds D) (length proof)
          (suc (length (answered messages ++ more))) (u8 (length proof)) t (drop t proof)
          (feed_all_update D.digest (take t proof) begun) more (sent ++ request ∷ []) (omega arith)
          (omega (arith, all_answers)) (omega arith) (drop-IsProof t proof sizes) in
      let whole : feed_all_update D.digest (drop t proof)
            (feed_all_update D.digest (take t proof) begun)
          ≡ feed_all_update D.digest proof begun =
        sym (feed_all_update-append D.digest (take t proof) (drop t proof) begun)
        ∙ ap (λ p. feed_all_update D.digest p begun) (take-append-drop t proof) in
      let verified : update_verified (feed_all_update D.digest proof begun) ≡ true =
        sym (
          verify_update_proof-eq_fed D.digest m.merkle_root new_root proof c.page_hash hash c.idx
            size)
        ∙ accepted in
      let full_payload : (length payload == 256) ≡ true =
        subst (λ k. (k == 256) ≡ true) (sym full) refl in
      rw
        (
          full_payload,
          read,
          not_none,
          same_t,
          counted,
          get_page_hash-eq D payload (some nonce),
          fed,
          whole,
          verified,
        )
        (ap (λ l. (ok new_root, record { answers = more; sent = l }))
          (append_assoc sent (request ∷ []) (replicate (length messages) more_update)))
