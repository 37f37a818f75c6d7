-- ===== src/Accumulator/Examples.antt =====
-- An accumulator of four elements, with the sum of the bytes for a hasher.
use vanadium.Prelude.{ℕ, ◌+◌, ◌%◌, ◌≡◌, ◌⊎◌, ◌&&◌, refl, true, List, [], ◌∷◌, set, ok, arith}
use vanadium.Accumulator.{
  HashOutput, MerkleAccumulator, has_valid_leaf_count, new, prove, update, root, hash_element,
  element,
}
use vanadium.Accumulator.{
  verify_inclusion_proof, verify_update_proof, begin_inclusion_proof, feed, feed_all, build_tree,
  hash_nodes, hash_leaf, hash_internal_node,
}
use vanadium.Accumulator.Tree.{IsTree, new-IsTree, build_tree-IsTree}
use vanadium.Accumulator.Update.{update-IsTree}
use vanadium.Accumulator.Complete.{prove-accepted}
use vanadium.Accumulator.Complete.UpdateProof.{update-accepted, verify_update_proof-eq}
use vanadium.Accumulator.Sound.{verify_inclusion_proof_sound}
use vanadium.Accumulator.{
  begin_update_proof, feed_update, feed_all_update, update_verified, updated,
}
use vanadium.Accumulator.Sound.UpdateProof.{verify_update_proof_sound}
use vanadium.Accumulator.Sound.Inputs.{Collision}

abbrev sum : List ℕ → ℕ
sum [] = 0
sum (x ∷ xs) = x + sum xs

abbrev digest : List ℕ → HashOutput
digest bytes = sum bytes % 256 ∷ []

abbrev four : List (List ℕ)
four = (1 ∷ []) ∷ (2 ∷ []) ∷ (3 ∷ []) ∷ (4 ∷ []) ∷ []

abbrev accumulator : MerkleAccumulator
accumulator = record { elements = four; tree = build_tree digest 1 four }

accumulator-IsTree : IsTree digest accumulator
accumulator-IsTree = build_tree-IsTree digest 1 four (omega arith)

valid : has_valid_leaf_count 4 ≡ true
unfolding has_valid_leaf_count
valid = refl

new-IsTree_example :
    (ma : MerkleAccumulator) × (new digest 1 four ≡ ok ma) × IsTree digest ma × (ma.elements ≡ four)
new-IsTree_example = new-IsTree digest 1 four valid

update-IsTree_example : IsTree digest (update digest 2 (9 ∷ []) accumulator).1
update-IsTree_example = update-IsTree digest accumulator 2 (9 ∷ []) accumulator-IsTree

prove-accepted_example :
    (proof : List HashOutput) × (prove accumulator 1 ≡ ok proof)
    × (verify_inclusion_proof digest
          (root accumulator)
          proof
          (hash_element digest (element four 1))
          1
          4
        ≡ true)
prove-accepted_example =
    prove-accepted digest accumulator 1 accumulator-IsTree (omega arith) (omega arith)

update-accepted_example :
    (proof : List HashOutput) × (new_root : HashOutput) × ((update digest 3 (7 ∷ []) accumulator).0
      ≡ ok (proof, new_root))
    × (root (update digest 3 (7 ∷ []) accumulator).1 ≡ new_root)
    × ((update digest 3 (7 ∷ []) accumulator).1.elements ≡ set four 3 (7 ∷ []))
    × (verify_update_proof digest
          (root accumulator)
          new_root
          proof
          (hash_element digest (element four 3))
          (hash_element digest (7 ∷ []))
          3
          4
        ≡ true)
update-accepted_example =
    update-accepted digest accumulator 3 (7 ∷ []) accumulator-IsTree (omega arith) (omega arith)

verify_update_proof-eq_example :
    verify_update_proof digest (1 ∷ []) (2 ∷ []) [] (1 ∷ []) (2 ∷ []) 0 1 ≡ (
      verify_inclusion_proof digest (2 ∷ []) [] (2 ∷ []) 0 1
      && verify_inclusion_proof digest (1 ∷ []) [] (1 ∷ []) 0 1)
verify_update_proof-eq_example =
    verify_update_proof-eq digest (1 ∷ []) (2 ∷ []) [] (1 ∷ []) (2 ∷ []) 0 1

-- The proof of the second element: its sibling, and the hash of the other two.
accepted :
    verify_inclusion_proof digest (root accumulator) ((1 ∷ []) ∷ (8 ∷ []) ∷ []) (2 ∷ []) 1 4 ≡ true
unfolding verify_inclusion_proof root build_tree hash_nodes hash_leaf hash_internal_node
    begin_inclusion_proof feed feed_all
accepted = refl

verify_inclusion_proof_sound_example :
    ((2 ∷ []) ≡ hash_element digest (element four 1)) ⊎ Collision digest
verify_inclusion_proof_sound_example =
    verify_inclusion_proof_sound digest 1 (λ x. refl) accumulator ((1 ∷ []) ∷ (8 ∷ []) ∷ [])
      (2 ∷ []) 1 accumulator-IsTree (omega arith) (omega arith) refl (refl, (refl, tt)) accepted

-- The same proof is one that the second element becomes 6: the root becomes 17.
accepted_update :
    verify_update_proof digest
      (root accumulator)
      (17 ∷ [])
      ((1 ∷ []) ∷ (8 ∷ []) ∷ [])
      (hash_element digest (element four 1))
      (hash_element digest (6 ∷ []))
      1
      4
    ≡ true
unfolding verify_update_proof root build_tree hash_nodes hash_leaf hash_internal_node hash_element
    feed begin_inclusion_proof begin_update_proof feed_update feed_all_update update_verified
accepted_update = refl

verify_update_proof_sound_example :
    ((17 ∷ []) ≡ root (updated digest accumulator 1 (6 ∷ []))) ⊎ Collision digest
verify_update_proof_sound_example =
    verify_update_proof_sound digest 1 (λ x. refl) accumulator (17 ∷ []) ((1 ∷ []) ∷ (8 ∷ []) ∷ [])
      1 (6 ∷ []) accumulator-IsTree (omega arith) (omega arith) (refl, (refl, tt)) accepted_update
