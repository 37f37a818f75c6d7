-- ===== src/Client/Conversation/Commit.antt =====
-- The commitment of a page, between `commit_page_at` of vm/src/handlers/lib/outsourced_mem.rs and
-- `process_commit_page` of client-sdk/src/vanadium_client.rs.
use vanadium.Prelude.{ℕ, ◌+◌, ◌-◌, ◌^◌, ◌<◌, ◌≡◌, ap₂, ◌∙◌, arith, true, false}
use vanadium.Prelude.{List, [], ◌∷◌, ◌++◌, length, replicate, some, Outcome, ok}
use vanadium.Accumulator.{siblings, root, element, hash_element, verify_update_proof, updated}
use vanadium.Accumulator.Tree.{IsTree}
use vanadium.Accumulator.Update.{updated-IsTree}
use vanadium.Accumulator.Complete.UpdateProof.{both_accepted}
use vanadium.Accumulator.Complete.Proof.{
  length-siblings, siblings-sizes, siblings-nonempty, root-size,
}
use vanadium.Message.Bytes.{IsProof}
use vanadium.Message.Commit.{new_commit_page, serialize_commit_page}
use vanadium.Paging.Session.{Answer}
use vanadium.Paging.Strategy.{PageEvictionStrategy}
use vanadium.Paging.Device.{Device}
use vanadium.Paging.Outsourced.{
  CachedPage, OutsourcedMemory, serialized_page, n_pages_adjusted, commit_encrypted,
}
use vanadium.Client.Engine.{Reply, VAppEngine}
use vanadium.Client.Serve.{is_code, process_commit_page, segment_of}
use vanadium.Client.Conversation.{answered}
use vanadium.Client.Conversation.Sender.{asks_then, linked}
use vanadium.Client.Conversation.Stored.{
  more_update, update_message, rest_of_update, with_content, process_commit_page-messages,
}
use vanadium.Client.Conversation.Accepted.{commit_encrypted-messages}

-- When the client keeps the pages of the data or the stack in a well-formed accumulator of at least
-- 2 and less than 2^31 leaves, with the root of the memory and as many leaves as the memory has
-- pages, rounded up: for a page within it that was loaded with the hash of its leaf, and an
-- encryption of 256 bytes with a nonce of 12, there are messages such that the part of
-- commit_page_at that talks to the client, answered by them, returns the root of the accumulator
-- with the new leaf, having sent the commitment and then asked for more of the proof, and
-- process_commit_page, asked by these requests, stores the new leaf, sends these messages and
-- returns the reply after the last, whatever that is.
pub commit_encrypted-process_commit_page :
    (D : Device) (S : PageEvictionStrategy) (m : OutsourcedMemory S) {E : Type 0}
    (digest_size : (x : List ℕ) → length (D.digest x) ≡ 32) (e : VAppEngine E) (c : CachedPage)
    (nonce payload : List ℕ) (later : List Answer)
    → let ma = (segment_of e m.section_kind).content in
      let new = updated D.digest ma c.idx (serialized_page payload (some nonce)) in
      is_code m.section_kind ≡ false
      → IsTree D.digest ma
      → length ma.elements < 2 ^ 31
      → 1 < length ma.elements
      → c.idx < length ma.elements
      → n_pages_adjusted m.n_pages ≡ some (length ma.elements)
      → m.merkle_root ≡ root ma
      → c.page_hash ≡ hash_element D.digest (element ma.elements c.idx)
      → length nonce ≡ 12
      → length payload ≡ 256
      → (n : ℕ) × (messages : List (List ℕ)) × (commit_encrypted D S m c nonce payload
            (record { answers = answered messages ++ later; sent = [] })
          ≡ (
            ok (root new),
            record {
              answers = later;
              sent =
                  serialize_commit_page (new_commit_page m.section_kind c.idx true nonce payload)
                  ∷ replicate n more_update;
            },
          ))
        × ((final : Reply) (more : List (Outcome E Reply))
            → process_commit_page D.digest
                (serialize_commit_page (new_commit_page m.section_kind c.idx true nonce payload))
                (linked e (asks_then more_update n final more) [])
              ≡ (ok final, linked (with_content e m.section_kind new) more messages))
commit_encrypted-process_commit_page D S m {E} digest_size e c nonce payload later not_code tree
      small several within counted rooted known sized full =
    let ma = (segment_of e m.section_kind).content in
    let leaf = serialized_page payload (some nonce) in
    let new = updated D.digest ma c.idx leaf in
    let pos = length ma.elements - 1 + c.idx in
    let proof = siblings pos ma.tree pos in
    let short = length-siblings 32 pos pos ma.tree (omega arith) in
    let some_proof = siblings-nonempty pos pos ma.tree (omega arith) (omega arith) in
    let sizes : IsProof proof =
      siblings-sizes D.digest 32 digest_size ma tree pos pos (omega arith) in
    let new_size =
      root-size D.digest 32 digest_size new (updated-IsTree D.digest ma tree c.idx leaf within) in
    let accepted =
      ap₂
        (λ r h.
          verify_update_proof D.digest r (root new) proof h (hash_element D.digest leaf) c.idx
            (length ma.elements))
        rooted known
      ∙ both_accepted D.digest ma c.idx leaf tree small within in
    (
      length (rest_of_update proof),
      update_message proof (root new) ∷ rest_of_update proof,
      commit_encrypted-messages D S m c (length ma.elements) nonce payload proof (root new) later []
          full sizes new_size some_proof (omega arith) counted accepted,
      λ final more.
          process_commit_page-messages D.digest e m.section_kind c.idx nonce payload final more
            not_code tree small within sized full (omega arith),
    )
