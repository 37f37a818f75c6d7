-- ===== src/Client/Conversation/Served.antt =====
-- The client's half of the loading of a page: what `process_get_page` of
-- client-sdk/src/vanadium_client.rs sends.
use vanadium.Prelude.{
  ℕ, suc, ◌<◌, ◌≡◌, ◌==◌, refl, ap, arith, leb, min, Bool, true, false, if◌then◌else◌,
}
use vanadium.Prelude.{
  List, [], ◌∷◌, ◌++◌, length, length-append, length-drop, take, drop, Option, none, Outcome, ok,
}
use vanadium.Word.{u8, IsU32}
use vanadium.Accumulator.{HashOutput}
use vanadium.Message.{check_code, deserialize_code, ClientCommandCode, SectionKind, PageProofKind}
use vanadium.Message.Bytes.{take-append, drop-append}
use vanadium.Message.Page.{
  new_get_page, serialize_get_page, new_get_page_response, serialize_get_page_response,
}
use vanadium.Message.Page.RoundTrip.{deserialize_get_page-serialize_get_page}
use vanadium.Client.Memory.{MemorySegment, get_page}
use vanadium.Client.Engine.{kept, assert, ◌>>=◌, ◌>>◌, StatusWord, Reply, VAppEngine, exchange}
use vanadium.Client.Serve.{send_page, send_as, serve_page, process_get_page, segment_of, hmacs_for}
use vanadium.Client.Conversation.{parts}
use vanadium.Client.Conversation.Sender.{asks_then, linked, send_rest-parts}

-- The VM's request for the rest of a proof.
abbrev pub more_proof : List ℕ
more_proof = 1 ∷ []

more_proof_lem :
    deserialize_code ClientCommandCode.get_page_proof_continued more_proof
    ≡ ok ClientCommandCode.get_page_proof_continued
unfolding deserialize_code check_code
more_proof_lem = refl

-- A leaf that says whether its page is encrypted, with the nonce of that, or zeros.
abbrev pub leaf_of : Bool → List ℕ → List ℕ → List ℕ
leaf_of is_encrypted nonce bytes = (if is_encrypted then 1 else 0) ∷ (nonce ++ bytes)

abbrev pub first_size : List HashOutput → ℕ
first_size proof = u8 (min (length proof) 9)

abbrev pub page_message : Bool → List ℕ → List ℕ → List HashOutput → List ℕ
page_message is_encrypted nonce bytes proof = serialize_get_page_response (
    new_get_page_response bytes is_encrypted nonce (u8 (length proof)) (first_size proof)
      PageProofKind.merkle (take (first_size proof) proof))

abbrev pub rest_messages : List HashOutput → List (List ℕ)
rest_messages proof = parts (length proof) (drop (first_size proof) proof)

module _ {E : Type 0} where
  send_page-messages :
      (is_encrypted : Bool) (nonce bytes : List ℕ) (proof : List HashOutput) (final : Reply)
      (e : VAppEngine E) (more : List (Outcome E Reply))
      → length proof < 256
      → send_page is_encrypted nonce bytes proof
          (linked e (asks_then more_proof (length (rest_messages proof)) final more) [])
        ≡ (
          ok final,
          linked e more (page_message is_encrypted nonce bytes proof ∷ rest_messages proof),
        )
  unfolding send_page exchange parts
  send_page-messages is_encrypted nonce bytes [] final e more small = refl
  send_page-messages is_encrypted nonce bytes (p ∷ proof) final e more small =
      by_rest (drop (first_size (p ∷ proof)) (p ∷ proof)) refl
    where
      by_rest :
          (rest : List HashOutput)
          → drop (first_size (p ∷ proof)) (p ∷ proof) ≡ rest
          → send_page is_encrypted nonce bytes (p ∷ proof) (
              linked e
                (asks_then more_proof (length (parts (suc (length proof)) rest)) final more)
                [])
            ≡ (
              ok final,
              linked e more (
                  page_message is_encrypted nonce bytes (p ∷ proof)
                  ∷ parts (suc (length proof)) rest),
            )
      by_rest [] q =
          let gone = ap length q in
          let size = length-drop (first_size (p ∷ proof)) (p ∷ proof) in
          let done : leb (u8 (suc (length proof))) (first_size (p ∷ proof)) ≡ true = ground arith in
          rw done refl
      by_rest (r ∷ rest) q =
          let left = ap length q in
          let size = length-drop (first_size (p ∷ proof)) (p ∷ proof) in
          let not_done : leb (u8 (suc (length proof))) (first_size (p ∷ proof)) ≡ false =
            ground arith in
          rw (not_done, q, more_proof_lem)
            (send_rest-parts E ClientCommandCode.get_page_proof_continued
              ClientCommandCode.get_page_proof_continued more_proof more_proof_lem (length proof) r
              rest (omega arith) (StatusWord.interrupted_execution, more_proof) final e more
              (page_message is_encrypted nonce bytes (p ∷ proof) ∷ []))

  -- A page with a Merkle proof, also one of the code if there are no HMACs.
  pub send_as-messages :
      (is_encrypted : Bool) (nonce bytes : List ℕ) (page_index : ℕ) (proof : List HashOutput)
      (final : Reply) (e : VAppEngine E) (more : List (Outcome E Reply))
      → length nonce ≡ 12
      → length proof < 256
      → send_as none page_index
          (leaf_of is_encrypted nonce bytes)
          proof
          (linked e (asks_then more_proof (length (rest_messages proof)) final more) [])
        ≡ (
          ok final,
          linked e more (page_message is_encrypted nonce bytes proof ∷ rest_messages proof),
        )
  unfolding send_as
  send_as-messages is_encrypted nonce bytes page_index proof final e more sized small =
      by_flag is_encrypted
    where
      by_flag :
          (b : Bool)
          → send_as none page_index
              (leaf_of b nonce bytes)
              proof
              (linked e (asks_then more_proof (length (rest_messages proof)) final more) [])
            ≡ (ok final, linked e more (page_message b nonce bytes proof ∷ rest_messages proof))
      by_flag true =
          rw (take-append nonce bytes 12 sized, drop-append nonce bytes 12 sized)
            (send_page-messages true nonce bytes proof final e more small)
      by_flag false =
          rw (take-append nonce bytes 12 sized, drop-append nonce bytes 12 sized)
            (send_page-messages false nonce bytes proof final e more small)

  -- The client sends the page and its proof, while the VM asks for more after each message but the
  -- last.
  pub process_get_page-messages :
      (e : VAppEngine E) (section_kind : SectionKind) (page_index : ℕ) (is_encrypted : Bool)
      (nonce bytes : List ℕ) (proof : List HashOutput) (final : Reply)
      (more : List (Outcome E Reply))
      → IsU32 page_index
      → hmacs_for e section_kind ≡ none
      → get_page (segment_of e section_kind) page_index
        ≡ ok (leaf_of is_encrypted nonce bytes, proof)
      → length nonce ≡ 12
      → length bytes ≡ 256
      → length proof < 256
      → process_get_page
          (serialize_get_page (new_get_page section_kind page_index))
          (linked e (asks_then more_proof (length (rest_messages proof)) final more) [])
        ≡ (
          ok final,
          linked e more (page_message is_encrypted nonce bytes proof ∷ rest_messages proof),
        )
  unfolding process_get_page serve_page
  process_get_page-messages e section_kind page_index is_encrypted nonce bytes proof final more
        small no_hmacs stored sized full short =
      let read = deserialize_get_page-serialize_get_page section_kind page_index small in
      rw read (by_kind section_kind no_hmacs stored)
    where
      linked_e : VAppEngine E
      linked_e = linked e (asks_then more_proof (length (rest_messages proof)) final more) []

      served :
          (segment : MemorySegment) (hmacs : Option (List (List ℕ)))
          → hmacs ≡ none
          → get_page segment page_index ≡ ok (leaf_of is_encrypted nonce bytes, proof)
          → (kept (get_page segment page_index) >>= λ page.
                assert (length page.0 == 269) >> send_as hmacs page_index page.0 page.1)
              linked_e
            ≡ (
              ok final,
              linked e more (page_message is_encrypted nonce bytes proof ∷ rest_messages proof),
            )
      served segment hmacs h q =
          rw (q, h, length-append nonce bytes, sized, full)
            (send_as-messages is_encrypted nonce bytes page_index proof final e more sized short)

      by_kind :
          (k : SectionKind)
          → hmacs_for e k ≡ none
          → get_page (segment_of e k) page_index ≡ ok (leaf_of is_encrypted nonce bytes, proof)
          → serve_page linked_e (new_get_page k page_index) linked_e ≡ (
            ok final,
            linked e more (page_message is_encrypted nonce bytes proof ∷ rest_messages proof),
          )
      by_kind SectionKind.code h q = served e.code_seg e.code_hmacs h q
      by_kind SectionKind.data_section h q = served e.data_seg none h q
      by_kind SectionKind.stack h q = served e.stack_seg none h q
