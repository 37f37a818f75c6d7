-- ===== src/Accumulator/Sound.antt =====
-- Soundness of the verifiers of common/src/accumulator.rs.
pub mod Inputs
mod Step
pub mod Path
pub mod UpdateProof
use vanadium.Prelude.{suc, zero}
use vanadium.Prelude.{
  ℕ, ◌+◌, ◌-◌, ◌*◌, ◌/◌, ◌%◌, ◌^◌, ◌<◌, ◌≤◌, ◌≡◌, ◌≢◌, ◌==◌, ◌⊎◌, refl, sym, ap, ap₂, ◌∙◌, subst,
  arith,
}
use vanadium.Prelude.{
  ltb, Bool, Bool-cases, true, false, inl, inr, ==→eq, ==_of_ne, if◌then◌else◌, List, [], ◌∷◌, ◌++◌,
  length, ◌&&◌, All,
}
use vanadium.Accumulator.{HashOutput, MerkleAccumulator, InclusionVerifier, node, element, is_same}
use vanadium.Accumulator.{
  hash_leaf, hash_internal_node, hash_element, parent_hash, feed, feed_all, begin_inclusion_proof,
  verify_inclusion_proof, root, sibling, siblings,
}
use vanadium.Accumulator.Tree.{IsTree}
use vanadium.Accumulator.Complete.{is_same_refl, leaf_position}
use vanadium.Accumulator.Sound.Inputs.{Collision, is_same→eq, same_children}
use vanadium.Accumulator.Sound.Step.{at}
use vanadium.Accumulator.Sound.Path.{root_lem, feed_all_sound, IsReady}

module _ (digest : List ℕ → HashOutput) (w : ℕ)
    (digest_size : (x : List ℕ) → length (digest x) ≡ w) where
  le_refl : {k : ℕ} → k ≤ k
  le_refl = omega arith

  -- A proof that the verifier accepts is for the element at the index, and it is the proof that the
  -- accumulator gives.
  pub verify_inclusion_proof_accepts :
      (ma : MerkleAccumulator) (proof : List HashOutput) (value_hash : HashOutput) (index : ℕ)
      → IsTree digest ma
      → length ma.elements < 2 ^ 31
      → index < length ma.elements
      → length value_hash ≡ w
      → All (λ el. length el ≡ w) proof
      → verify_inclusion_proof digest (root ma) proof value_hash index (length ma.elements) ≡ true
      → ((value_hash ≡ hash_element digest (element ma.elements index))
          × (let pos = length ma.elements - 1 + index in proof ≡ siblings pos ma.tree pos))
        ⊎ Collision digest
  unfolding verify_inclusion_proof begin_inclusion_proof hash_element
  verify_inclusion_proof_accepts ma proof value_hash index tree small l size sizes v =
      let place = leaf_position (length ma.elements) index tree.not_empty l small in
      let begin = λ (p : ℕ).
        at (root ma) value_hash p (length ma.elements == 1 && is_same value_hash (root ma)) in
      let started = subst (λ p. (feed_all digest proof (begin p)).verified ≡ true) place v in
      let r : IsReady digest w digest_size ma tree value_hash (length ma.elements - 1 + index)
          (length ma.elements == 1 && is_same value_hash (root ma)) =
        record {
          fits = omega arith;
          size = size;
          below = λ up. rw (==_of_ne (length ma.elements) 1 (omega arith)) refl;
          on_top = λ z b.
              is_same→eq value_hash (root ma) (ground arith)
              ∙ root_lem digest w digest_size ma tree;
        } in
      elim (feed_all_sound digest w digest_size ma tree proof value_hash
        (length ma.elements - 1 + index) _ r sizes started) [
          | inl s ↦ inl (s.0 ∙ tree.leaves index l, s.1 (length ma.elements - 1 + index) le_refl)
          | inr c ↦ inr c
        ]

  -- For a hasher with outputs of one length: a proof of hashes of that length that the verifier
  -- accepts, against the root of a well-formed accumulator of less than 2^31 elements and an index
  -- within it, is for the hash of the element at the index, or two inputs of the hasher with one
  -- hash are known.
  pub verify_inclusion_proof_sound :
      (ma : MerkleAccumulator) (proof : List HashOutput) (value_hash : HashOutput) (index : ℕ)
      → IsTree digest ma
      → length ma.elements < 2 ^ 31
      → index < length ma.elements
      → length value_hash ≡ w
      → All (λ el. length el ≡ w) proof
      → verify_inclusion_proof digest (root ma) proof value_hash index (length ma.elements) ≡ true
      → (value_hash ≡ hash_element digest (element ma.elements index)) ⊎ Collision digest
  verify_inclusion_proof_sound ma proof value_hash index tree small l size sizes v =
      elim (verify_inclusion_proof_accepts ma proof value_hash index tree small l size sizes v) [
        | inl s ↦ inl s.0
        | inr c ↦ inr c
      ]
