-- ===== src/Accumulator/Sound/UpdateProof.antt =====
-- Soundness of the verifier of an update of common/src/accumulator.rs.
use vanadium.Prelude.{ℕ, ◌+◌, ◌-◌, ◌/◌, ◌^◌, ◌<◌, ◌≡◌, ◌==◌, ◌⊎◌, refl, sym, ◌∙◌, subst, arith}
use vanadium.Prelude.{
  Bool, Bool-cases, true, false, inl, inr, ==→eq, ==_of_ne, List, [], ◌∷◌, length, ◌&&◌, All,
}
use vanadium.Word.{wrapping_add, wrapping_sub}
use vanadium.Accumulator.{
  HashOutput, MerkleAccumulator, InclusionVerifier, is_same, element, hash_element, parent_hash,
  feed_all, begin_inclusion_proof, verify_inclusion_proof, verify_update_proof, root, hash_leaf,
  updated,
}
use vanadium.Accumulator.Tree.{IsTree}
use vanadium.Accumulator.Sound.{verify_inclusion_proof_accepts}
use vanadium.Accumulator.Sound.Inputs.{Collision, is_same→eq}
use vanadium.Accumulator.Complete.UpdateProof.{new_accepted, verify_update_proof-eq}
use vanadium.Accumulator.Sound.Step.{at, next, at_root_refuses, feed_at_root, feed_below}

module _ (digest : List ℕ → HashOutput) where
  and_true : (a b : Bool) → (a && b) ≡ true → (a ≡ true) × (b ≡ true)
  and_true true true e = (refl, refl)
  and_true true false e = cc
  and_true false b e = cc

  -- A verifier is not done below the root, and at the root only for its own root.
  record IsHonest (r current : HashOutput) (pos : ℕ) (b : Bool) : Type 0 where
    below : 0 < pos → b ≡ false
    on_top : pos ≡ 0 → b ≡ true → current ≡ r

  next-IsHonest :
      (r hash : HashOutput) (p : ℕ) (b : Bool) → b ≡ false → IsHonest r hash p (next r p hash b)
  next-IsHonest r hash p b below = record {
    below = λ up. rw (==_of_ne p 0 (omega arith)) below;
    on_top = λ z v. is_same→eq hash r (subst (λ k. next r k hash b ≡ true) z v);
  }

  same_root :
      (proof : List HashOutput) (r r' current : HashOutput) (pos : ℕ) (b b' : Bool)
      → IsHonest r current pos b
      → IsHonest r' current pos b'
      → (feed_all digest proof (at r current pos b)).verified ≡ true
      → (feed_all digest proof (at r' current pos b')).verified ≡ true
      → r ≡ r'
  unfolding feed_all
  same_root [] r r' current pos b b' h h' v v' = elim (Bool-cases (pos == 0)) [
    | inl e ↦ let z = ==→eq pos 0 e in sym (h.on_top z v) ∙ h'.on_top z v'
    | inr e ↦ let no = h.below (ground arith) in absurd (cc)
  ]
  same_root (el ∷ proof) r r' current pos b b' h h' v v' = elim (Bool-cases (pos == 0)) [
    | inl e ↦
        let refused = subst accepts (feed_at_root digest r el current pos b (==→eq pos 0 e)) v in
        let no = at_root_refuses digest r proof current in absurd (cc)
    | inr e ↦
        let positive : 0 < pos = ground arith in
        let hash = parent_hash digest pos current el in
        let p = (pos - 1) / 2 in
        same_root proof r r' hash p (next r p hash b) (next r' p hash b')
          (next-IsHonest r hash p b (h.below positive))
          (next-IsHonest r' hash p b' (h'.below positive))
          (subst accepts (feed_below digest r el current pos b positive) v)
          (subst accepts (feed_below digest r' el current pos b' positive) v')
  ]
    where
      accepts : InclusionVerifier → Type 0
      accepts u = (feed_all digest proof u).verified ≡ true

  -- A proof is accepted for one root at most.
  pub verify_inclusion_proof-same_root :
      (r r' : HashOutput) (proof : List HashOutput) (value_hash : HashOutput) (index n : ℕ)
      → 0 < n
      → n < 2 ^ 31
      → index < n
      → verify_inclusion_proof digest r proof value_hash index n ≡ true
      → verify_inclusion_proof digest r' proof value_hash index n ≡ true
      → r ≡ r'
  unfolding verify_inclusion_proof begin_inclusion_proof
  verify_inclusion_proof-same_root r r' proof value_hash index n positive small l v v' =
      same_root proof r r' value_hash _ _ _ (started r) (started r') v v'
    where
      pos : ℕ
      pos = wrapping_add (wrapping_sub n 1) index

      started : (r : HashOutput) → IsHonest r value_hash pos (n == 1 && is_same value_hash r)
      started r = record {
        below = λ up. rw (==_of_ne n 1 (omega arith)) refl;
        on_top = λ z b. is_same→eq value_hash r (ground arith);
      }

  -- For a hasher with outputs of one length: if the update verifier accepts a proof of hashes of
  -- that length, for the root of a well-formed accumulator of less than 2^31 elements, a new root,
  -- an index within it, the hash of the element there and the hash of a value, then the new root is
  -- that of the accumulator with the value at the index, or two inputs of the hasher with one hash
  -- are known.
  pub verify_update_proof_sound :
      (w : ℕ) (digest_size : (x : List ℕ) → length (digest x) ≡ w) (ma : MerkleAccumulator)
      (new_root : HashOutput) (proof : List HashOutput) (index : ℕ) (value : List ℕ)
      → IsTree digest ma
      → length ma.elements < 2 ^ 31
      → index < length ma.elements
      → All (λ el. length el ≡ w) proof
      → verify_update_proof digest
          (root ma)
          new_root
          proof
          (hash_element digest (element ma.elements index))
          (hash_element digest value)
          index
          (length ma.elements)
        ≡ true
      → (new_root ≡ root (updated digest ma index value)) ⊎ Collision digest
  verify_update_proof_sound w digest_size ma new_root proof index value tree small l sizes v =
      let split = sym (verify_update_proof-eq digest (root ma) new_root proof _ _ index _) ∙ v in
      let (new_accepts, old_accepts) = and_true _ _ split in
      let old = element ma.elements index in
      let pos = length ma.elements - 1 + index in
      elim (verify_inclusion_proof_accepts digest w digest_size ma proof (hash_element digest old)
        index tree small l (hash_element-size old) sizes old_accepts) [
          | inl known ↦ inl (
              verify_inclusion_proof-same_root new_root (root (updated digest ma index value)) proof
                (hash_element digest value) index (length ma.elements) tree.not_empty small l
                new_accepts
                (subst
                  (λ p.
                    verify_inclusion_proof digest (root (updated digest ma index value)) p
                      (hash_element digest value) index (length ma.elements)
                    ≡ true)
                  (sym known.1) (new_accepted digest ma index value tree small l)))
          | inr c ↦ inr c
        ]
    where
      hash_element-size : (x : List ℕ) → length (hash_element digest x) ≡ w
      hash_element-size x = unfold hash_element hash_leaf in digest_size _
