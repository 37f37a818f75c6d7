-- ===== src/Paging/Aes/Total.antt =====
-- A cipher that does not fail, in vm/src/aes.rs.
use vanadium.Prelude.{
  ℕ, zero, suc, ◌≡◌, refl, ap, ◌∙◌, arith, List, [], ◌∷◌, ◌++◌, length, length-append, replicate,
  take, drop, Option, some, ok, and_then,
}
use vanadium.Paging.Aes.{
  increment_be_slice, xor_chunk, encrypt_block, process_chunks, process_with_counter,
  create_counter_block, encrypt, decrypt,
}
use vanadium.Paging.Aes.Counter.{length-increment_be_slice}
use vanadium.Paging.Aes.RoundTrip.{decrypt-encrypt}

module _ (block_cipher : List ℕ → Option (List ℕ))
    (works : (block : List ℕ)
      → length block ≡ 16
      → (k : List ℕ) × (block_cipher block ≡ some k)) where
  encrypt_block-works :
      (counter : List ℕ)
      → length counter ≡ 16
      → (k : List ℕ) × (encrypt_block block_cipher counter ≡ ok k)
  unfolding encrypt_block
  encrypt_block-works counter h = let (k, e) = works counter h in (k, rw h (rw e refl))

  process_chunks-works :
      (turns : ℕ) (input counter : List ℕ)
      → length counter ≡ 16
      → (output : List ℕ) × (process_chunks block_cipher turns input counter ≡ ok output)
  unfolding process_chunks
  process_chunks-works zero input counter h = ([], refl)
  process_chunks-works (suc turns) [] counter h = ([], refl)
  process_chunks-works (suc turns) (x ∷ input) counter h =
      let (k, block) = encrypt_block-works counter h in
      let (rest, later) =
        process_chunks-works turns (drop 15 input) (increment_be_slice counter)
          (length-increment_be_slice counter ∙ h) in
      (xor_chunk (x ∷ take 15 input) k ++ rest, rw block (rw later refl))

  length-create_counter_block :
      (nonce : List ℕ) → length nonce ≡ 12 → length (create_counter_block nonce) ≡ 16
  unfolding create_counter_block
  length-create_counter_block nonce h = omega (arith, length-append nonce (replicate 4 0))

  -- With a block cipher that does not fail and a nonce of 12 bytes, encrypt returns the nonce and a
  -- ciphertext as long as the plaintext, and decrypt gives the plaintext back.
  pub encrypt-IsDecrypted :
      (plaintext nonce : List ℕ)
      → length nonce ≡ 12
      → (ciphertext : List ℕ) × ((encrypt block_cipher plaintext nonce).0 ≡ ok (nonce, ciphertext))
        × (length ciphertext ≡ length plaintext)
        × (decrypt block_cipher nonce ciphertext ≡ ok plaintext)
  unfolding encrypt process_with_counter
  encrypt-IsDecrypted plaintext nonce h =
      let (ciphertext, done) =
        process_chunks-works (length plaintext) plaintext (create_counter_block nonce)
          (length-create_counter_block nonce h) in
      let encrypted = ap (λ m. and_then m (λ c. ok (nonce, c))) done in
      let (same, size, back) =
        decrypt-encrypt block_cipher plaintext nonce nonce ciphertext encrypted in
      (ciphertext, encrypted, size, back)
