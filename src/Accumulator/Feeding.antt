-- ===== src/Accumulator/Feeding.antt =====
-- Feeding a proof in parts to the verifiers of common/src/accumulator.rs.
use vanadium.Prelude.{ℕ, ◌≡◌, refl, List, [], ◌∷◌, ◌++◌}
use vanadium.Accumulator.{
  HashOutput, InclusionVerifier, UpdateVerifier, feed, feed_all, feed_update, feed_all_update,
  begin_inclusion_proof, begin_update_proof, verify_inclusion_proof, verify_update_proof,
  update_verified, hash_element, hash_leaf,
}

module _ (digest : List ℕ → HashOutput) where
  pub feed_all-nil : (v : InclusionVerifier) → feed_all digest [] v ≡ v
  unfolding feed_all
  feed_all-nil v = refl

  pub feed_all-append :
      (xs ys : List HashOutput) (v : InclusionVerifier)
      → feed_all digest (xs ++ ys) v ≡ feed_all digest ys (feed_all digest xs v)
  unfolding feed_all
  feed_all-append [] ys v = refl
  feed_all-append (x ∷ xs) ys v = feed_all-append xs ys (feed digest x v)

  pub feed_all_update-nil : (v : UpdateVerifier) → feed_all_update digest [] v ≡ v
  unfolding feed_all_update
  feed_all_update-nil v = refl

  pub feed_all_update-append :
      (xs ys : List HashOutput) (v : UpdateVerifier)
      → feed_all_update digest (xs ++ ys) v
        ≡ feed_all_update digest ys (feed_all_update digest xs v)
  unfolding feed_all_update
  feed_all_update-append [] ys v = refl
  feed_all_update-append (x ∷ xs) ys v = feed_all_update-append xs ys (feed_update digest x v)

  pub verify_inclusion_proof-eq_fed :
      (root : HashOutput) (proof : List HashOutput) (value_hash : HashOutput) (index size : ℕ)
      → verify_inclusion_proof digest root proof value_hash index size
        ≡ (feed_all digest proof (begin_inclusion_proof root value_hash index size)).verified
  unfolding verify_inclusion_proof
  verify_inclusion_proof-eq_fed root proof value_hash index size = refl

  pub verify_update_proof-eq_fed :
      (old_root new_root : HashOutput) (proof : List HashOutput) (old_leaf new_leaf : HashOutput)
      (index size : ℕ)
      → verify_update_proof digest old_root new_root proof old_leaf new_leaf index size
        ≡ update_verified (
            feed_all_update digest proof
              (begin_update_proof old_root new_root old_leaf new_leaf index size))
  unfolding verify_update_proof
  verify_update_proof-eq_fed old_root new_root proof old_leaf new_leaf index size = refl

  pub hash_element-eq : (bytes : List ℕ) → hash_element digest bytes ≡ digest (0 ∷ bytes)
  unfolding hash_element hash_leaf
  hash_element-eq bytes = refl
