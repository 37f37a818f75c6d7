-- ===== src/Client/Serve.antt =====
-- `process_get_page` and `process_commit_page` of client-sdk/src/vanadium_client.rs: how the client
-- serves the pages that the VM asks for, and stores those that it commits.
use vanadium.Prelude.{
  ℕ, zero, suc, ◌==◌, leb, min, not, ◌&&◌, ◌||◌, if◌then◌else◌, Bool, true, false,
}
use vanadium.Prelude.{
  List, [], ◌∷◌, ◌++◌, length, get_elem?, take, drop, replicate, Option, none, some, Outcome, err,
  panic, map_err,
}
use vanadium.Word.{u8}
use vanadium.Accumulator.{HashOutput, is_same}
use vanadium.Message.{ClientCommandCode, SectionKind, PageProofKind, at, slice, deserialize_code}
use vanadium.Message.Page.{
  GetPage, deserialize_get_page, new_get_page_response, serialize_get_page_response,
  serialize_proof_continued,
}
use vanadium.Message.Commit.{deserialize_commit_page, serialize_commit_page_proof}
use vanadium.Client.Memory.{MemorySegment, MemorySegmentError, get_page, store_page}
use vanadium.Client.Engine.{
  is_interrupted, memory_segment, VAppEngine, access_violation, interrupted_execution_expected,
  response_error, generic_error, Reply, Result, Run, ◌>>=◌, ◌>>◌, pure, fail, assert, check,
  received, kept, exchange, has_bytes,
}

abbrev pub is_code : SectionKind → Bool
is_code SectionKind.code = true
is_code SectionKind.data_section = false
is_code SectionKind.stack = false

module _ {E : Type 0} where
  -- The VM asks for more of the proof.
  abbrev pub asked_for_more : ClientCommandCode → Bool → List ℕ → Run E (Unit {0})
  asked_for_more expected interrupted result = do
    check interrupted interrupted_execution_expected
    code ← received (deserialize_code expected result)
    pure tt

  abbrev pub unless_done : Bool → Reply → Run E Reply → Run E Reply
  unless_done done reply more = if done then pure reply else more

  -- The loop over the rest of a proof, of which a message takes 18 hashes at most. It sends at least
  -- one hash in a turn, so that as many turns are enough as there are hashes.
  unfoldable pub send_rest : ClientCommandCode → ℕ → List HashOutput → Reply → Run E Reply
  send_rest expected turns [] reply = pure reply
  send_rest expected zero (p ∷ proof) reply = λ e. (panic, e)
  send_rest expected (suc turns) (p ∷ proof) reply = do
    let t = min (length (p ∷ proof)) 18
    new ← exchange (serialize_proof_continued (record { t = u8 t; proof = take t (p ∷ proof) }))
    unless_done (leb (length (p ∷ proof)) t) new (
        asked_for_more expected (is_interrupted new.0) new.1
        >> send_rest expected turns (drop t (p ∷ proof)) new)

  -- The answer with a page and the proof of it, of which the first message takes 9 hashes at most.
  unfoldable pub send_page : Bool → List ℕ → List ℕ → List HashOutput → Run E Reply
  send_page is_encrypted nonce page_data proof = do
    let t = u8 (min (length proof) 9)
    first ← exchange (
        serialize_get_page_response (
          new_get_page_response page_data is_encrypted nonce (u8 (length proof)) t
            PageProofKind.merkle (take t proof)))
    unless_done (leb (u8 (length proof)) t) first (
        asked_for_more ClientCommandCode.get_page_proof_continued
          (is_interrupted first.0 && has_bytes first.1) first.1
        >> send_rest ClientCommandCode.get_page_proof_continued (length proof) (drop t proof) first)

  -- The answer with a page of the code and its HMAC.
  pub send_code_page : Bool → List ℕ → List ℕ → Option (List ℕ) → Run E Reply
  send_code_page is_encrypted nonce page_data hmac = do
    check (not is_encrypted) (response_error "Code pages should not be encrypted")
    check (is_same nonce (replicate 12 0)) (response_error "Code pages should have a null nonce")
    mac ← or_missing hmac
    exchange (
        serialize_get_page_response
          (new_get_page_response page_data is_encrypted nonce 1 1 PageProofKind.hmac (mac ∷ [])))
    where
      or_missing : Option (List ℕ) → Run E (List ℕ)
      or_missing none = fail (response_error "Missing code-page HMAC")
      or_missing (some mac) = pure mac

  abbrev pub segment_of : VAppEngine E → SectionKind → MemorySegment
  segment_of e SectionKind.code = e.code_seg
  segment_of e SectionKind.data_section = e.data_seg
  segment_of e SectionKind.stack = e.stack_seg

  abbrev pub hmacs_for : VAppEngine E → SectionKind → Option (List (List ℕ))
  hmacs_for e SectionKind.code = e.code_hmacs
  hmacs_for e SectionKind.data_section = none
  hmacs_for e SectionKind.stack = none

  unfoldable pub send_as : Option (List (List ℕ)) → ℕ → List ℕ → List HashOutput → Run E Reply
  send_as hmacs page_index serialized_page proof =
      let is_encrypted = not (at serialized_page 0 == 0) in
      let nonce = slice serialized_page 1 12 in
      let page_data = drop 13 serialized_page in
      elim hmacs [
        | some code_hmacs ↦
            send_code_page is_encrypted nonce page_data (get_elem? code_hmacs page_index)
        | none ↦ send_page is_encrypted nonce page_data proof
      ]

  unfoldable pub serve_page : VAppEngine E → GetPage → Run E Reply
  serve_page e m = do
    stored ← kept (get_page (segment_of e m.section_kind) m.page_index)
    assert (length stored.0 == 269)
    send_as (hmacs_for e m.section_kind) m.page_index stored.0 stored.1

  unfoldable pub process_get_page : List ℕ → Run E Reply
  process_get_page command e = (received (deserialize_get_page command) >>= serve_page e) e

  -- What has been stored: the proof and the new root, in the engine with the changed segment.
  abbrev pub store_result :
      (MemorySegment → VAppEngine E)
      → Outcome MemorySegmentError (List HashOutput × HashOutput) × MemorySegment
      → Result E (List HashOutput × HashOutput)
  store_result with_segment (r, s) =
      (map_err (λ x. generic_error (memory_segment x)) r, with_segment s)

  unfoldable pub store_in :
      (List ℕ → HashOutput) → SectionKind → ℕ → List ℕ → Run E (List HashOutput × HashOutput)
  store_in digest SectionKind.code page_index content e = (err access_violation, e)
  store_in digest SectionKind.data_section page_index content e =
      store_result (λ s. record e { data_seg = s })
        (store_page digest page_index content e.data_seg)
  store_in digest SectionKind.stack page_index content e =
      store_result (λ s. record e { stack_seg = s })
        (store_page digest page_index content e.stack_seg)

  -- The answer to a commitment, of which the first message takes 17 hashes at most.
  unfoldable pub send_commit_proof : List HashOutput → HashOutput → Run E Reply
  send_commit_proof proof new_root = do
    let t = u8 (min (length proof) 17)
    first ← exchange (
        serialize_commit_page_proof
          (record { n = u8 (length proof); t = t; new_root = new_root; proof = take t proof }))
    unless_done
        (leb (u8 (length proof)) t || not (is_interrupted first.0) || not (has_bytes first.1)) first
        (asked_for_more ClientCommandCode.commit_page_proof_continued true first.1
          >> send_rest ClientCommandCode.commit_page_proof_continued (length proof) (drop t proof)
              first)

  -- A commitment of a page of the code is refused before the page is looked at.
  unfoldable pub process_commit_page : (List ℕ → HashOutput) → List ℕ → Run E Reply
  process_commit_page digest command = do
    m ← received (deserialize_commit_page command)
    check (not (is_code m.section_kind)) access_violation
    assert m.is_encrypted
    stored ← store_in digest m.section_kind m.page_index (1 ∷ (m.nonce ++ m.page_data))
    send_commit_proof stored.0 stored.1
