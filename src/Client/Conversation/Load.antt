-- ===== src/Client/Conversation/Load.antt =====
-- The loading of a page, between `load_page` of vm/src/handlers/lib/outsourced_mem.rs and
-- `process_get_page` of client-sdk/src/vanadium_client.rs.
use vanadium.Prelude.{
  ℕ, zero, suc, ◌+◌, ◌-◌, ◌^◌, ◌<◌, ◌≡◌, refl, sym, ap, ap₂, ◌∙◌, arith, leb, Bool, false,
}
use vanadium.Prelude.{
  List, [], ◌∷◌, ◌++◌, length, get_elem?, replicate, Option, none, some, Outcome, ok, err, map_err,
  and_then,
}
use vanadium.Accumulator.{
  HashOutput, MerkleAccumulator, get, prove, siblings, root, element, hash_element,
  verify_inclusion_proof,
}
use vanadium.Accumulator.Tree.{IsTree}
use vanadium.Accumulator.Complete.{siblings_accepted}
use vanadium.Accumulator.Complete.Proof.{length-siblings, siblings-sizes}
use vanadium.Message.Bytes.{IsProof, IsNonce}
use vanadium.Message.Page.{new_get_page, serialize_get_page}
use vanadium.Paging.Session.{Answer}
use vanadium.Paging.Strategy.{PageEvictionStrategy}
use vanadium.Paging.Device.{Device}
use vanadium.Paging.Outsourced.{OutsourcedMemory, n_pages_adjusted, load_page}
use vanadium.Client.Memory.{MemorySegment, MemorySegmentError, get_page, accumulator_error}
use vanadium.Client.Engine.{Reply, VAppEngine}
use vanadium.Client.Serve.{process_get_page, segment_of, hmacs_for}
use vanadium.Client.Conversation.{answered}
use vanadium.Client.Conversation.Sender.{asks_then, linked}
use vanadium.Client.Conversation.Served.{
  more_proof, leaf_of, page_message, rest_messages, process_get_page-messages,
}
use vanadium.Client.Conversation.Loaded.{IsOpened, load_page-messages}

get_elem?-eq : (xs : List (List ℕ)) (i : ℕ) → i < length xs → get_elem? xs i ≡ some (element xs i)
get_elem?-eq [] i h = absurd (omega arith)
get_elem?-eq (x ∷ xs) zero h = refl
get_elem?-eq (x ∷ xs) (suc i) h = get_elem?-eq xs i (omega arith)

leb_of_gt : (a b : ℕ) → a < b → leb b a ≡ false
leb_of_gt a b h = ground arith

prove-eq :
    (ma : MerkleAccumulator) (i : ℕ)
    → i < length ma.elements
    → let pos = length ma.elements - 1 + i in prove ma i ≡ ok (siblings pos ma.tree pos)
unfolding prove
prove-eq ma i h = rw (leb_of_gt i (length ma.elements) h) refl

get_page-eq :
    (s : MemorySegment) (i : ℕ)
    → i < length s.content.elements
    → let pos = length s.content.elements - 1 + i in
      get_page s i ≡ ok (element s.content.elements i, siblings pos s.content.tree pos)
unfolding get_page get
get_page-eq s i h =
    ap found (get_elem?-eq s.content.elements i h)
    ∙ ap (λ r. and_then (map_err accumulator_error r) (with_content (element s.content.elements i)))
        (prove-eq s.content i h)
  where
    with_content : List ℕ → List HashOutput → Outcome MemorySegmentError (List ℕ × List HashOutput)
    with_content content proof = ok (content, proof)

    found : Option (List ℕ) → Outcome MemorySegmentError (List ℕ × List HashOutput)
    found o = elim o [
      | none ↦ err MemorySegmentError.page_not_found
      | some content ↦
          and_then (map_err accumulator_error (prove s.content i)) (with_content content)
    ]

-- When the client serves pages from a well-formed accumulator of less than 2^31 leaves, with the
-- root of the memory and as many leaves as the memory has pages, rounded up, and has no HMACs for
-- the section: for a page within it whose leaf is a flag, a nonce, or zeros if the page is not
-- encrypted, and 256 bytes, which are the page or decrypt to it, there are messages such that
-- load_page, answered by them, returns the page and the hash of its leaf, having asked once for the
-- page and then for more of the proof, and process_get_page, asked by these requests, sends these
-- messages and returns the reply after the last, whatever that is.
pub load_page-process_get_page :
    (D : Device) (S : PageEvictionStrategy) (m : OutsourcedMemory S) {E : Type 0}
    (digest_size : (x : List ℕ) → length (D.digest x) ≡ 32) (e : VAppEngine E) (page_index : ℕ)
    (is_encrypted : Bool) (nonce bytes page : List ℕ) (later : List Answer)
    → let ma = (segment_of e m.section_kind).content in
      IsTree D.digest ma
      → length ma.elements < 2 ^ 31
      → page_index < length ma.elements
      → n_pages_adjusted m.n_pages ≡ some (length ma.elements)
      → m.merkle_root ≡ root ma
      → hmacs_for e m.section_kind ≡ none
      → element ma.elements page_index ≡ leaf_of is_encrypted nonce bytes
      → length nonce ≡ 12
      → length bytes ≡ 256
      → IsNonce is_encrypted nonce
      → IsOpened D is_encrypted nonce bytes page
      → (n : ℕ) × (messages : List (List ℕ)) × (load_page D S m page_index
            (record { answers = answered messages ++ later; sent = [] })
          ≡ (
            ok (page, hash_element D.digest (element ma.elements page_index)),
            record {
              answers = later;
              sent =
                  serialize_get_page (new_get_page m.section_kind page_index)
                  ∷ replicate n more_proof;
            },
          ))
        × ((final : Reply) (more : List (Outcome E Reply))
            → process_get_page
                (serialize_get_page (new_get_page m.section_kind page_index))
                (linked e (asks_then more_proof n final more) [])
              ≡ (ok final, linked e more messages))
load_page-process_get_page D S m {E} digest_size e page_index is_encrypted nonce bytes page later
      tree small within counted rooted no_hmacs leaf sized full nonce_ok opens =
    let segment = segment_of e m.section_kind in
    let ma = segment.content in
    let pos = length ma.elements - 1 + page_index in
    let proof = siblings pos ma.tree pos in
    let short = length-siblings 32 pos pos ma.tree (omega arith) in
    let sizes : IsProof proof =
      siblings-sizes D.digest 32 digest_size ma tree pos pos (omega arith) in
    let stored = get_page-eq segment page_index within in
    let accepted = siblings_accepted D.digest ma tree small page_index within in
    let known =
      ap₂
        (λ r l.
          verify_inclusion_proof D.digest r proof (hash_element D.digest l) page_index
            (length ma.elements))
        rooted (sym leaf)
      ∙ accepted in
    let first_request = serialize_get_page (new_get_page m.section_kind page_index) in
    let loaded =
      load_page-messages D S m page_index (length ma.elements) is_encrypted nonce bytes page proof
        later [] full nonce_ok sizes (omega arith) counted known opens in
    (
      length (rest_messages proof),
      page_message is_encrypted nonce bytes proof ∷ rest_messages proof,
      loaded
          ∙ ap
              (λ l. (
                ok (page, hash_element D.digest l),
                record {
                  answers = later;
                  sent = first_request ∷ replicate (length (rest_messages proof)) more_proof;
                },
              ))
              (sym leaf),
      λ final more.
          process_get_page-messages e m.section_kind page_index is_encrypted nonce bytes proof final
            more (omega arith) no_hmacs (stored ∙ ap (λ l. ok (l, proof)) leaf) sized full
            (omega arith),
    )
