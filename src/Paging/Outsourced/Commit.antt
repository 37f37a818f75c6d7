-- ===== src/Paging/Outsourced/Commit.antt =====
-- What `commit_page_at` of vm/src/handlers/lib/outsourced_mem.rs accepts from the client.
use vanadium.Prelude.{
  ℕ, ◌^◌, ◌<◌, ◌≡◌, ◌==◌, ◌⊎◌, sym, ap, ◌∙◌, not, true, List, ◌++◌, length, some, ok,
}
use mathlib.Core.Option.{some-injective}
use vanadium.Accumulator.{
  HashOutput, MerkleAccumulator, UpdateVerifier, element, feed_all_update, begin_update_proof,
  update_verified, verify_update_proof, hash_element, root, updated,
}
use vanadium.Accumulator.Tree.{IsTree}
use vanadium.Accumulator.Sound.UpdateProof.{verify_update_proof_sound}
use vanadium.Accumulator.Sound.Inputs.{Collision}
use vanadium.Accumulator.Feeding.{
  feed_all_update-nil, feed_all_update-append, verify_update_proof-eq_fed,
}
use vanadium.Message.{ClientCommandCode}
use vanadium.Message.Commit.{
  new_commit_page, serialize_commit_page, deserialize_commit_page_proof,
  serialize_commit_page_proof_continued,
}
use vanadium.Message.Commit.Hashes.{deserialize_commit_page_proof-IsProof}
use vanadium.Paging.Session.{Session}
use vanadium.Paging.Strategy.{PageEvictionStrategy}
use vanadium.Paging.Device.{Device}
use vanadium.Paging.Talk.{ask, feed_all_rest}
use vanadium.Paging.Talk.Rest.{
  >>=-eq-ok, check-eq-ok, assert-eq-ok, expect-eq-ok, decoded-eq-ok, Feeds, feed_all_rest_lem,
  IsProof-append, pure-eq-ok,
}
use vanadium.Paging.Outsourced.{
  CachedPage, OutsourcedMemory, serialized_page, get_page_hash, n_pages_adjusted, commit_encrypted,
}
use vanadium.Paging.Outsourced.Load.{get_page_hash-eq}

pub update-Feeds : (D : Device) → Feeds (feed_all_update D.digest)
update-Feeds D = record {
  nothing = feed_all_update-nil D.digest;
  joined = feed_all_update-append D.digest;
}

abbrev requested : List ℕ
requested = serialize_commit_page_proof_continued ClientCommandCode.commit_page_proof_continued

-- A verifier that accepts after two fragments of a proof accepts the proof.
accepted_fragments :
    (D : Device) (old_root new_root old new : HashOutput) (index size : ℕ)
    (proof rest : List HashOutput) (v : UpdateVerifier)
    → v
      ≡ feed_all_update D.digest rest
          (feed_all_update D.digest proof (begin_update_proof old_root new_root old new index size))
    → update_verified v ≡ true
    → verify_update_proof D.digest old_root new_root (proof ++ rest) old new index size ≡ true
accepted_fragments D old_root new_root old new index size proof rest v fed verified =
    let begun = begin_update_proof old_root new_root old new index size in
    verify_update_proof-eq_fed D.digest old_root new_root (proof ++ rest) old new index size
    ∙ ap update_verified (feed_all_update-append D.digest proof rest begun ∙ sym fed)
    ∙ verified

accepted_elsewhere :
    (D : Device) (proof : List HashOutput) (index : ℕ)
    {old_root old_root' new_root new_root' old old' new new' : HashOutput} {size size' : ℕ}
    → old_root ≡ old_root'
    → new_root ≡ new_root'
    → old ≡ old'
    → new ≡ new'
    → size ≡ size'
    → verify_update_proof D.digest old_root new_root proof old new index size ≡ true
    → verify_update_proof D.digest old_root' new_root' proof old' new' index size' ≡ true
accepted_elsewhere D proof index a b c d e h = cc

-- Whatever the client answers: the root that a commitment accepts is that of the accumulator in
-- which the encrypted page has replaced the old one, or a collision is known.
pub commit_encrypted_sound :
    (D : Device) (S : PageEvictionStrategy) (m : OutsourcedMemory S)
    (digest_size : (x : List ℕ) → length (D.digest x) ≡ 32) (ma : MerkleAccumulator)
    (c : CachedPage) (nonce payload : List ℕ) (new_root : HashOutput) (s s' : Session)
    → IsTree D.digest ma
    → m.merkle_root ≡ root ma
    → n_pages_adjusted m.n_pages ≡ some (length ma.elements)
    → length ma.elements < 2 ^ 31
    → c.idx < length ma.elements
    → c.page_hash ≡ hash_element D.digest (element ma.elements c.idx)
    → commit_encrypted D S m c nonce payload s ≡ (ok new_root, s')
    → (new_root ≡ root (updated D.digest ma c.idx (serialized_page payload (some nonce))))
      ⊎ Collision D.digest
unfolding commit_encrypted
commit_encrypted_sound D S m digest_size ma c nonce payload new_root s s' tree rooted counted small
      within known e =
    let leaf = serialized_page payload (some nonce) in
    let hash = get_page_hash D.digest payload (some nonce) in
    let (sized, e1) = assert-eq-ok (length payload == 256) _ s e in
    let (answer, s₁, asked, e2) =
      >>=-eq-ok
        (ask (serialize_commit_page (new_commit_page m.section_kind c.idx true nonce payload))) _ s
        e1 in
    let (r, read, e3) =
      decoded-eq-ok "Invalid proof data" (deserialize_commit_page_proof answer) _ s₁ e2 in
    let (some_proof, e4) = check-eq-ok (not (r.n == 0)) _ _ s₁ e3 in
    let (fragment, e5) = check-eq-ok (r.t == length r.proof) _ _ s₁ e4 in
    let (size, adjusted, e6) = expect-eq-ok (n_pages_adjusted m.n_pages) _ s₁ e5 in
    let begun = begin_update_proof m.merkle_root r.new_root c.page_hash hash c.idx size in
    let (v, s₂, fed, e7) =
      >>=-eq-ok
        (feed_all_rest (feed_all_update D.digest) requested r.n r.t
          (feed_all_update D.digest r.proof begun))
        _ s₁ e6 in
    let (rest, rest_sizes, all_fed) =
      feed_all_rest_lem (feed_all_update D.digest) requested (update-Feeds D) r.n r.t _ v s₁ s₂
        fed in
    let (verified, e8) = check-eq-ok (update_verified v) _ _ s₂ e7 in
    let same_size : size ≡ length ma.elements = some-injective _ _ (sym adjusted ∙ counted) in
    let same_root : r.new_root ≡ new_root = pure-eq-ok r.new_root s₂ e8 in
    let accepted =
      accepted_fragments D m.merkle_root r.new_root c.page_hash hash c.idx size r.proof rest v
        all_fed verified in
    verify_update_proof_sound D.digest 32 digest_size ma new_root (r.proof ++ rest) c.idx leaf tree
      small within
      (IsProof-append r.proof rest (deserialize_commit_page_proof-IsProof answer r read) rest_sizes)
      (accepted_elsewhere D (r.proof ++ rest) c.idx rooted same_root known
        (get_page_hash-eq D payload (some nonce)) same_size accepted)
