-- ===== src/Client/Conversation/Stored.antt =====
-- The client's half of a commitment: what `process_commit_page` of client-sdk/src/vanadium_client.rs
-- stores and sends.
use vanadium.Prelude.{ℕ, suc, ◌+◌, ◌-◌, ◌^◌, ◌<◌, ◌≡◌, refl, ap, arith, leb, min, true, false}
use vanadium.Prelude.{
  List, [], ◌∷◌, ◌++◌, length, length-append, length-drop, take, drop, Outcome, ok,
}
use vanadium.Word.{u8}
use vanadium.Accumulator.{HashOutput, MerkleAccumulator, root, siblings, updated}
use vanadium.Accumulator.Tree.{IsTree}
use vanadium.Accumulator.Complete.UpdateProof.{update-eq}
use vanadium.Message.{check_code, deserialize_code, ClientCommandCode, SectionKind}
use vanadium.Message.Commit.{
  new_commit_page, serialize_commit_page, CommitPageProof, serialize_commit_page_proof,
}
use vanadium.Message.Commit.RoundTrip.{deserialize_commit_page-serialize_commit_page}
use vanadium.Client.Memory.{MemorySegment, store_page}
use vanadium.Client.Engine.{StatusWord, Reply, VAppEngine, exchange}
use vanadium.Client.Serve.{is_code, store_in, send_commit_proof, process_commit_page, segment_of}
use vanadium.Client.Conversation.{parts}
use vanadium.Client.Conversation.Sender.{asks_then, linked, send_rest-parts}

-- The VM's request for the rest of the proof of an update.
abbrev pub more_update : List ℕ
more_update = 3 ∷ []

more_update_lem :
    deserialize_code ClientCommandCode.commit_page_proof_continued more_update
    ≡ ok ClientCommandCode.commit_page_proof_continued
unfolding deserialize_code check_code
more_update_lem = refl

abbrev pub fragment_size : List HashOutput → ℕ
fragment_size proof = u8 (min (length proof) 17)

abbrev pub update_fragment : List HashOutput → HashOutput → CommitPageProof
update_fragment proof new_root = record {
  n = u8 (length proof);
  t = fragment_size proof;
  new_root = new_root;
  proof = take (fragment_size proof) proof;
}

abbrev pub update_message : List HashOutput → HashOutput → List ℕ
update_message proof new_root = serialize_commit_page_proof (update_fragment proof new_root)

abbrev pub rest_of_update : List HashOutput → List (List ℕ)
rest_of_update proof = parts (length proof) (drop (fragment_size proof) proof)

-- The engine with another content of a segment.
abbrev pub with_content :
    {E : Type 0} → VAppEngine E → SectionKind → MerkleAccumulator → VAppEngine E
with_content e SectionKind.code ma = e
with_content e SectionKind.data_section ma = record e { data_seg = record { content = ma } }
with_content e SectionKind.stack ma = record e { stack_seg = record { content = ma } }

store_page-eq :
    (digest : List ℕ → HashOutput) (s : MemorySegment) (index : ℕ) (content : List ℕ)
    → IsTree digest s.content
    → length s.content.elements < 2 ^ 31
    → index < length s.content.elements
    → length content ≡ 269
    → let pos = length s.content.elements - 1 + index in
      let ma = updated digest s.content index content in
      store_page digest index content s
      ≡ (ok (siblings pos s.content.tree pos, root ma), record { content = ma })
unfolding store_page
store_page-eq digest s index content tree small within full =
    rw (full, update-eq digest s.content index content tree small within) refl

module _ {E : Type 0} where
  send_commit_proof-messages :
      (proof : List HashOutput) (new_root : HashOutput) (final : Reply) (e : VAppEngine E)
      (more : List (Outcome E Reply))
      → length proof < 256
      → send_commit_proof proof new_root
          (linked e (asks_then more_update (length (rest_of_update proof)) final more) [])
        ≡ (ok final, linked e more (update_message proof new_root ∷ rest_of_update proof))
  unfolding send_commit_proof exchange parts
  send_commit_proof-messages [] new_root final e more small = refl
  send_commit_proof-messages (p ∷ proof) new_root final e more small =
      by_rest (drop (fragment_size (p ∷ proof)) (p ∷ proof)) refl
    where
      by_rest :
          (rest : List HashOutput)
          → drop (fragment_size (p ∷ proof)) (p ∷ proof) ≡ rest
          → send_commit_proof (p ∷ proof) new_root (
              linked e
                (asks_then more_update (length (parts (suc (length proof)) rest)) final more)
                [])
            ≡ (
              ok final,
              linked e more (update_message (p ∷ proof) new_root ∷ parts (suc (length proof)) rest),
            )
      by_rest [] q =
          let gone = ap length q in
          let size = length-drop (fragment_size (p ∷ proof)) (p ∷ proof) in
          let done : leb (u8 (suc (length proof))) (fragment_size (p ∷ proof)) ≡ true =
            ground arith in
          rw done refl
      by_rest (r ∷ rest) q =
          let left = ap length q in
          let size = length-drop (fragment_size (p ∷ proof)) (p ∷ proof) in
          let not_done : leb (u8 (suc (length proof))) (fragment_size (p ∷ proof)) ≡ false =
            ground arith in
          rw (not_done, q, more_update_lem)
            (send_rest-parts E ClientCommandCode.commit_page_proof_continued
              ClientCommandCode.commit_page_proof_continued more_update more_update_lem
              (length proof) r rest (omega arith) (StatusWord.interrupted_execution, more_update)
              final e more (update_message (p ∷ proof) new_root ∷ []))

  pub process_commit_page-messages :
      (digest : List ℕ → HashOutput) (e : VAppEngine E) (section_kind : SectionKind)
      (page_index : ℕ) (nonce payload : List ℕ) (final : Reply) (more : List (Outcome E Reply))
      → let ma = (segment_of e section_kind).content in
        let pos = length ma.elements - 1 + page_index in
        let proof = siblings pos ma.tree pos in
        let new = updated digest ma page_index (1 ∷ (nonce ++ payload)) in
        is_code section_kind ≡ false
        → IsTree digest ma
        → length ma.elements < 2 ^ 31
        → page_index < length ma.elements
        → length nonce ≡ 12
        → length payload ≡ 256
        → length proof < 256
        → process_commit_page digest
            (serialize_commit_page (new_commit_page section_kind page_index true nonce payload))
            (linked e (asks_then more_update (length (rest_of_update proof)) final more) [])
          ≡ (
            ok final,
            linked
                (with_content e section_kind new)
                more
                (update_message proof (root new) ∷ rest_of_update proof),
          )
  unfolding process_commit_page store_in
  process_commit_page-messages digest e SectionKind.code page_index nonce payload final more
        not_code tree small within sized full short =
      absurd (cc)
  process_commit_page-messages digest e SectionKind.data_section page_index nonce payload final more
        not_code tree small within sized full short =
      let new = updated digest e.data_seg.content page_index (1 ∷ (nonce ++ payload)) in
      let read =
        deserialize_commit_page-serialize_commit_page SectionKind.data_section page_index true nonce
          payload (omega arith) sized full in
      let whole : length (1 ∷ (nonce ++ payload)) ≡ 269 =
        omega (arith, length-append nonce payload) in
      let stored =
        store_page-eq digest e.data_seg page_index (1 ∷ (nonce ++ payload)) tree small within
          whole in
      rw (read, stored)
        (send_commit_proof-messages _ _ final (with_content e SectionKind.data_section new) more
          short)
  process_commit_page-messages digest e SectionKind.stack page_index nonce payload final more
        not_code tree small within sized full short =
      let new = updated digest e.stack_seg.content page_index (1 ∷ (nonce ++ payload)) in
      let read =
        deserialize_commit_page-serialize_commit_page SectionKind.stack page_index true nonce
          payload (omega arith) sized full in
      let whole : length (1 ∷ (nonce ++ payload)) ≡ 269 =
        omega (arith, length-append nonce payload) in
      let stored =
        store_page-eq digest e.stack_seg page_index (1 ∷ (nonce ++ payload)) tree small within
          whole in
      rw (read, stored)
        (send_commit_proof-messages _ _ final (with_content e SectionKind.stack new) more short)
