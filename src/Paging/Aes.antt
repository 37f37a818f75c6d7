-- ===== src/Paging/Aes.antt =====
-- `AesCtr` of vm/src/aes.rs. The block cipher under the key of the session is a parameter: from 16
-- bytes it gives 16 bytes, or fails.
pub mod RoundTrip
pub mod Counter
pub mod Total
mod Examples
use vanadium.Prelude.{
  ℕ, zero, suc, ◌+◌, ◌%◌, ◌^◌, ◌==◌, not, if◌then◌else◌, bit_xor, Bool, true, false, List, [], ◌∷◌,
}
use vanadium.Prelude.{◌++◌, length, take, drop, replicate, Option, none, some, Outcome, ok, err}
use vanadium.Prelude.{and_then}

pub data AesError : Type 0 where
  key_init_failed : AesError
  invalid_input_length : AesError
  encryption_failed : AesError

-- The counter block after an increment, and whether its first byte became zero, so that the loop of
-- `increment_be_slice` goes on to the byte before.
pub increment : List ℕ → List ℕ × Bool
increment [] = ([], true)
increment (b ∷ counter) =
    let (rest, carry) = increment counter in
    if carry then ((b + 1) % 256 ∷ rest, (b + 1) % 256 == 0) else (b ∷ rest, false)

pub increment_be_slice : List ℕ → List ℕ
increment_be_slice counter = (increment counter).0

-- A keystream has 16 bytes, as many as the longest chunk.
pub xor_chunk : List ℕ → List ℕ → List ℕ
xor_chunk [] keystream = []
xor_chunk (x ∷ chunk) [] = x ∷ chunk
xor_chunk (x ∷ chunk) (k ∷ keystream) = bit_xor x k ∷ xor_chunk chunk keystream

-- `nonce` and four bytes of the initial counter, which is 0.
pub create_counter_block : List ℕ → List ℕ
create_counter_block nonce = nonce ++ replicate 4 0

module _ (block_cipher : List ℕ → Option (List ℕ)) where
  pub encrypt_block : List ℕ → Outcome AesError (List ℕ)
  encrypt_block input =
      if not (length input == 16)
      then err invalid_input_length
      else elim (block_cipher input) [ none ↦ err encryption_failed | some output ↦ ok output ]

  -- The loop over the chunks of 16 bytes. A turn takes at least a byte of what is left, so that as
  -- many turns are enough as there are bytes.
  pub process_chunks : ℕ → List ℕ → List ℕ → Outcome AesError (List ℕ)
  process_chunks zero input counter = ok []
  process_chunks (suc turns) [] counter = ok []
  process_chunks (suc turns) (x ∷ input) counter = and_then (encrypt_block counter) λ keystream.
      and_then (process_chunks turns (drop 16 (x ∷ input)) (increment_be_slice counter))
        λ output. ok (xor_chunk (take 16 (x ∷ input)) keystream ++ output)

  pub process_with_counter : List ℕ → List ℕ → Outcome AesError (List ℕ)
  process_with_counter input counter = process_chunks (length input) input counter

  -- The nonce is the state of an `AesCtr`: it is returned with the ciphertext, and incremented for
  -- the next message whether or not the cipher fails.
  pub encrypt : List ℕ → List ℕ → Outcome AesError (List ℕ × List ℕ) × List ℕ
  encrypt plaintext nonce = (
    and_then (process_with_counter plaintext (create_counter_block nonce))
        (λ ciphertext. ok (nonce, ciphertext)),
    increment_be_slice nonce,
  )

  pub decrypt : List ℕ → List ℕ → Outcome AesError (List ℕ)
  decrypt nonce ciphertext = process_with_counter ciphertext (create_counter_block nonce)
