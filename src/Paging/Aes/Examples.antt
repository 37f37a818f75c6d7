-- ===== src/Paging/Aes/Examples.antt =====
-- The AES-CTR code of vm/src/aes.rs on small inputs.
use vanadium.Prelude.{
  ℕ, ◌+◌, ◌%◌, ◌^◌, ◌≡◌, refl, arith, List, [], ◌∷◌, length, replicate, Option, some, ok,
}
use vanadium.Paging.Aes.{
  increment, increment_be_slice, xor_chunk, create_counter_block, encrypt_block, process_chunks,
  process_with_counter, encrypt, decrypt,
}
use vanadium.Paging.Aes.Total.{encrypt-IsDecrypted}
use vanadium.Paging.Aes.Counter.{counter_value, increment_be_slice-value}

-- A cipher that adds 1 to each byte.
abbrev successors : List ℕ → List ℕ
successors [] = []
successors (x ∷ xs) = (x + 1) % 256 ∷ successors xs

abbrev toy_cipher : List ℕ → Option (List ℕ)
toy_cipher block = some (successors block)

abbrev nonce : List ℕ
nonce = replicate 12 4

abbrev plaintext : List ℕ
plaintext = 10 ∷ 20 ∷ 30 ∷ []

abbrev ciphertext : List ℕ
ciphertext = 15 ∷ 17 ∷ 27 ∷ []

encrypted : (encrypt toy_cipher plaintext nonce).0 ≡ ok (nonce, ciphertext)
unfolding encrypt process_with_counter process_chunks encrypt_block xor_chunk create_counter_block
    increment_be_slice increment
encrypted = refl

increment_be_slice-value_example :
    counter_value (increment_be_slice (7 ∷ 255 ∷ 255 ∷ []))
    ≡ (counter_value (7 ∷ 255 ∷ 255 ∷ []) + 1) % 256 ^ 3
increment_be_slice-value_example = increment_be_slice-value (7 ∷ 255 ∷ 255 ∷ []) (omega arith)

toy_cipher-works : (block : List ℕ) → length block ≡ 16 → (k : List ℕ) × (toy_cipher block ≡ some k)
toy_cipher-works block h = (successors block, refl)

encrypt-IsDecrypted_example :
    (ciphertext : List ℕ) × ((encrypt toy_cipher plaintext nonce).0 ≡ ok (nonce, ciphertext))
    × (length ciphertext ≡ length plaintext)
    × (decrypt toy_cipher nonce ciphertext ≡ ok plaintext)
encrypt-IsDecrypted_example = encrypt-IsDecrypted toy_cipher toy_cipher-works plaintext nonce refl
