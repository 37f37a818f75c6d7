-- ===== src/Accumulator/Complete.antt =====
-- Completeness of the verifier of an inclusion of common/src/accumulator.rs.
pub mod UpdateProof
pub mod Proof
use vanadium.Prelude.{
  ℕ, zero, suc, ◌+◌, ◌-◌, ◌*◌, ◌/◌, ◌%◌, ◌^◌, ◌<◌, ◌≤◌, ◌≡◌, ◌==◌, refl, sym, ap, ap₂, ◌∙◌, subst,
  arith,
}
use vanadium.Prelude.{
  Bool, Bool-cases, true, false, inl, inr, ==→eq, ==_refl, ==_of_ne, if◌then◌else◌, List, [], ◌∷◌,
  ◌++◌, length, length-set, get_or-set_self, set, ◌&&◌, leb,
}
use vanadium.Prelude.{ok}
use vanadium.Word.{wrapping_add, wrapping_sub}
use vanadium.Accumulator.{
  HashOutput, MerkleAccumulator, InclusionVerifier, UpdateVerifier, node, element, is_same, sibling,
  siblings,
}
use vanadium.Accumulator.{
  hash_internal_node, hash_element, parent_hash, feed, feed_all, begin_inclusion_proof,
  verify_inclusion_proof,
}
use vanadium.Accumulator.{
  prove, root, feed_update, feed_all_update, update_verified, begin_update_proof,
  verify_update_proof, update, updated,
}
use vanadium.Accumulator.Tree.{IsHashed, IsTree}

pub is_same_refl : (h : HashOutput) → is_same h h ≡ true
is_same_refl [] = refl
is_same_refl (x ∷ xs) = rw (==_refl x, is_same_refl xs) refl

leb_of_gt : (a b : ℕ) → a < b → leb b a ≡ false
leb_of_gt a b h = ground arith

-- The verifiers begin at the leaf of the index.
pub leaf_position :
    (n index : ℕ)
    → 0 < n
    → index < n
    → n < 2 ^ 31
    → wrapping_add (wrapping_sub n 1) index ≡ n - 1 + index
leaf_position n index positive l fits = omega arith

module _ (digest : List ℕ → HashOutput) where
  -- The tree below the `n`-th level of which every node is the hash of its children.
  module _ (n : ℕ) (tree : List HashOutput)
      (inner : (i : ℕ) → i < n - 1 → IsHashed digest tree i) where
    parent_hash-node :
        (pos : ℕ)
        → 0 < pos
        → pos < 2 * n - 1
        → parent_hash digest pos (node tree pos) (sibling tree pos) ≡ node tree ((pos - 1) / 2)
    unfolding hash_internal_node
    parent_hash-node pos positive fits =
        let p = (pos - 1) / 2 in
        let hashed = sym (inner p (omega arith)) in
        let join : HashOutput → HashOutput → HashOutput = λ l r. digest (0x01 ∷ l ++ r) in
        elim (Bool-cases (pos % 2 == 0)) [
          | inl e ↦
              let last : pos ≡ 2 * p + 2 = ground arith in
              let left : pos - 1 ≡ 2 * p + 1 = ground arith in
              rw e (ap₂ join (ap (node tree) left) (ap (node tree) last) ∙ hashed)
          | inr e ↦
              let first : pos ≡ 2 * p + 1 = ground arith in
              let right : pos + 1 ≡ 2 * p + 2 = ground arith in
              rw e (ap₂ join (ap (node tree) first) (ap (node tree) right) ∙ hashed)
        ]

    abbrev pub at_node : ℕ → Bool → InclusionVerifier
    at_node pos verified = record {
      current_hash = node tree pos;
      pos = pos;
      root = node tree 0;
      verified = verified;
    }

    abbrev next_verified : ℕ → Bool → Bool
    next_verified p b = if p == 0 then is_same (node tree p) (node tree 0) else b

    next_verified_root : (p : ℕ) (b : Bool) → p ≡ 0 → next_verified p b ≡ true
    next_verified_root p b z =
        subst (λ k. next_verified k b ≡ true) (sym z) (is_same_refl (node tree 0))

    feed-sibling :
        (pos : ℕ) (b : Bool)
        → 0 < pos
        → pos < 2 * n - 1
        → feed digest (sibling tree pos) (at_node pos b)
          ≡ at_node ((pos - 1) / 2) (next_verified ((pos - 1) / 2) b)
    unfolding feed
    feed-sibling pos b positive fits =
        rw (==_of_ne pos 0 (omega arith), parent_hash-node pos positive fits) refl

    pub feed_all-siblings :
        (turns pos : ℕ) (b : Bool)
        → pos ≤ turns
        → pos < 2 * n - 1
        → (pos ≡ 0 → b ≡ true)
        → (feed_all digest (siblings turns tree pos) (at_node pos b)).verified ≡ true
    unfolding feed_all siblings
    feed_all-siblings zero pos b le fits ready = ready (omega arith)
    feed_all-siblings (suc turns) pos b le fits ready = elim (Bool-cases (pos == 0)) [
      | inl e ↦ rw e (ready (==→eq pos 0 e))
      | inr e ↦
          let p = (pos - 1) / 2 in
          rw e (
            subst (λ v. (feed_all digest (siblings turns tree p) v).verified ≡ true)
              (sym (feed-sibling pos b (ground arith) fits))
              (feed_all-siblings turns p (next_verified p b) (omega arith) (omega arith)
                (next_verified_root p b)))
    ]

  -- The proof for a place of an accumulator is accepted for what stands there.
  module _ (ma : MerkleAccumulator) (tree : IsTree digest ma) (small : length ma.elements < 2 ^ 31)
      (index : ℕ) (l : index < length ma.elements) where
    abbrev pos : ℕ
    pos = length ma.elements - 1 + index

    abbrev started : Bool
    started = length ma.elements == 1 && is_same (node ma.tree pos) (node ma.tree 0)

    started_lem : pos ≡ 0 → started ≡ true
    started_lem z =
        let one : length ma.elements ≡ 1 = omega (arith, tree.not_empty) in
        subst (λ k. (k == 1 && is_same (node ma.tree pos) (node ma.tree 0)) ≡ true) (sym one)
          (subst (λ k. is_same (node ma.tree k) (node ma.tree 0) ≡ true) (sym z)
            (is_same_refl (node ma.tree 0)))

    begun :
        begin_inclusion_proof
          (root ma)
          (hash_element digest (element ma.elements index))
          index
          (length ma.elements)
        ≡ at_node (length ma.elements) ma.tree tree.inner pos started
    unfolding begin_inclusion_proof root hash_element
    begun =
        let make : ℕ → HashOutput → InclusionVerifier = λ p h. record {
          current_hash = h;
          pos = p;
          root = node ma.tree 0;
          verified = length ma.elements == 1 && is_same h (node ma.tree 0);
        } in
        ap₂ make (leaf_position (length ma.elements) index tree.not_empty l small)
          (sym (tree.leaves index l))

    pub siblings_accepted :
        verify_inclusion_proof digest
          (root ma)
          (siblings pos ma.tree pos)
          (hash_element digest (element ma.elements index))
          index
          (length ma.elements)
        ≡ true
    unfolding verify_inclusion_proof
    siblings_accepted =
        subst (λ v. (feed_all digest (siblings pos ma.tree pos) v).verified ≡ true) (sym begun)
          (feed_all-siblings (length ma.elements) ma.tree tree.inner pos pos started (omega arith)
            (omega arith) started_lem)

  -- For an index within a well-formed accumulator of less than 2^31 elements, prove returns a
  -- proof, which the verifier accepts for the root and the hash of the element at the index.
  pub prove-accepted :
      (ma : MerkleAccumulator) (index : ℕ)
      → IsTree digest ma
      → length ma.elements < 2 ^ 31
      → index < length ma.elements
      → (proof : List HashOutput) × (prove ma index ≡ ok proof)
        × (verify_inclusion_proof digest
              (root ma)
              proof
              (hash_element digest (element ma.elements index))
              index
              (length ma.elements)
            ≡ true)
  unfolding prove
  prove-accepted ma index tree small l =
      let pos = length ma.elements - 1 + index in
      (
        siblings pos ma.tree pos,
        rw (leb_of_gt index (length ma.elements) l) refl,
        siblings_accepted ma tree small index l,
      )
