-- ===== src/Accumulator/Complete/UpdateProof.antt =====
-- Completeness of the verifier of an update of common/src/accumulator.rs.
use vanadium.Prelude.{ℕ, ◌+◌, ◌-◌, ◌^◌, ◌<◌, ◌≡◌, refl, ap, ap₂, ◌∙◌, subst, arith}
use vanadium.Prelude.{true, List, [], ◌∷◌, length, length-set, get_or-set_self, set, ◌&&◌}
use vanadium.Prelude.{ok}
use vanadium.Accumulator.{HashOutput, MerkleAccumulator, UpdateVerifier, element, siblings}
use vanadium.Accumulator.{hash_element, feed_all, verify_inclusion_proof}
use vanadium.Accumulator.{
  prove, root, feed_update, feed_all_update, update_verified, begin_update_proof,
  verify_update_proof, update, updated,
}
use vanadium.Accumulator.Tree.{IsTree}
use vanadium.Accumulator.Update.{updated-IsTree}
use vanadium.Accumulator.Update.Siblings.{siblings-updated}
use vanadium.Accumulator.Complete.{leb_of_gt, siblings_accepted}

module _ (digest : List ℕ → HashOutput) where
  -- The verifier of an update is two verifiers of the same proof.
  feed_all_update_lem :
      (proof : List HashOutput) (v : UpdateVerifier)
      → feed_all_update digest proof v ≡ record {
        old_verifier = feed_all digest proof v.old_verifier;
        new_verifier = feed_all digest proof v.new_verifier;
      }
  unfolding feed_all_update feed_all feed_update
  feed_all_update_lem [] v = refl
  feed_all_update_lem (el ∷ proof) v = feed_all_update_lem proof (feed_update digest el v)

  -- The verifier of an update accepts exactly if the verifier of an inclusion accepts the same
  -- proof for the new root and the new hash, and for the old ones.
  pub verify_update_proof-eq :
      (old_root new_root : HashOutput) (proof : List HashOutput) (old_leaf new_leaf : HashOutput)
      (index size : ℕ)
      → verify_update_proof digest old_root new_root proof old_leaf new_leaf index size ≡ (
          verify_inclusion_proof digest new_root proof new_leaf index size
          && verify_inclusion_proof digest old_root proof old_leaf index size)
  unfolding verify_update_proof verify_inclusion_proof update_verified begin_update_proof
  verify_update_proof-eq old_root new_root proof old_leaf new_leaf index size = ap update_verified (
      feed_all_update_lem proof (begin_update_proof old_root new_root old_leaf new_leaf index size))

  module _ (ma : MerkleAccumulator) (index : ℕ) (value : List ℕ) (tree : IsTree digest ma)
      (small : length ma.elements < 2 ^ 31) (l : index < length ma.elements) where
    abbrev pub new_accumulator : MerkleAccumulator
    new_accumulator = updated digest ma index value

    abbrev pub place : ℕ
    place = length ma.elements - 1 + index

    same : length new_accumulator.elements ≡ length ma.elements
    same = length-set ma.elements index value

    pub new_accepted :
        verify_inclusion_proof digest
          (root new_accumulator)
          (siblings place ma.tree place)
          (hash_element digest value)
          index
          (length ma.elements)
        ≡ true
    new_accepted =
        let there =
          siblings_accepted digest new_accumulator (updated-IsTree digest ma tree index value l)
            (omega (arith, same)) index (omega (arith, same)) in
        let sized =
          subst
            (λ m.
              verify_inclusion_proof digest (root new_accumulator)
                (siblings (m - 1 + index) new_accumulator.tree (m - 1 + index))
                (hash_element digest (element new_accumulator.elements index)) index m
              ≡ true)
            same there in
        let proved =
          subst
            (λ p.
              verify_inclusion_proof digest (root new_accumulator) p
                (hash_element digest (element new_accumulator.elements index)) index
                (length ma.elements)
              ≡ true)
            (siblings-updated digest ma tree index value l) sized in
        subst
          (λ x.
            verify_inclusion_proof digest (root new_accumulator) (siblings place ma.tree place)
              (hash_element digest x) index (length ma.elements)
            ≡ true)
          (get_or-set_self ma.elements index value [] l) proved

    pub update-eq :
        update digest index value ma
        ≡ (ok (siblings place ma.tree place, root new_accumulator), new_accumulator)
    unfolding update prove
    update-eq = rw (leb_of_gt index (length ma.elements) l) refl

    pub both_accepted :
        verify_update_proof digest
          (root ma)
          (root new_accumulator)
          (siblings place ma.tree place)
          (hash_element digest (element ma.elements index))
          (hash_element digest value)
          index
          (length ma.elements)
        ≡ true
    both_accepted =
        verify_update_proof-eq (root ma) (root new_accumulator) _ _ _ index (length ma.elements)
        ∙ ap₂ ◌&&◌ new_accepted (siblings_accepted digest ma tree small index l)

  -- For an index within a well-formed accumulator of less than 2^31 elements, update returns a
  -- proof and the new root, replaces the element, and the update verifier accepts the proof for the
  -- old and the new root and the hashes of the old and the new element.
  pub update-accepted :
      (ma : MerkleAccumulator) (index : ℕ) (value : List ℕ)
      → IsTree digest ma
      → length ma.elements < 2 ^ 31
      → index < length ma.elements
      → (proof : List HashOutput) × (new_root : HashOutput) × ((update digest index value ma).0
          ≡ ok (proof, new_root))
        × (root (update digest index value ma).1 ≡ new_root)
        × ((update digest index value ma).1.elements ≡ set ma.elements index value)
        × (verify_update_proof digest
              (root ma)
              new_root
              proof
              (hash_element digest (element ma.elements index))
              (hash_element digest value)
              index
              (length ma.elements)
            ≡ true)
  update-accepted ma index value tree small l =
      let e = update-eq ma index value tree small l in
      (
        siblings (place ma index value tree small l) ma.tree (place ma index value tree small l),
        root (updated digest ma index value),
        ap (λ r. r.0) e,
        ap (λ r. root r.1) e,
        ap (λ r. r.1.elements) e,
        both_accepted ma index value tree small l,
      )
