-- ===== src/Paging/Aes/RoundTrip.antt =====
-- Decryption against encryption, of vm/src/aes.rs.
use vanadium.Prelude.{
  ℕ, zero, suc, ◌+◌, ◌*◌, ◌/◌, ◌%◌, ◌<◌, ◌≤◌, ◌≡◌, ◌++◌, refl, ap, ap₂, ◌∙◌, arith, bit_xor,
}
use vanadium.Prelude.{
  List, [], ◌∷◌, length, take, drop, length-take, length-drop, length-append, take-append-drop,
  Option, ok, Outcome, and_then-eq-ok, and_then, subst,
}
use Prim.Native.Nat.{differ}
use vanadium.Word.Bits.{bit_xor_digit}
use vanadium.Paging.Aes.{
  AesError, increment_be_slice, xor_chunk, encrypt_block, process_chunks, process_with_counter,
  create_counter_block, encrypt, decrypt,
}

digit_laws : (a b : ℕ) → a < 2 → b < 2 → (differ a b < 2) × (differ (differ a b) b ≡ a)
digit_laws zero zero h l = (omega arith, refl)
digit_laws zero (suc zero) h l = (omega arith, refl)
digit_laws zero (suc (suc b)) h l = absurd (omega arith)
digit_laws (suc zero) zero h l = (omega arith, refl)
digit_laws (suc zero) (suc zero) h l = (omega arith, refl)
digit_laws (suc zero) (suc (suc b)) h l = absurd (omega arith)
digit_laws (suc (suc a)) b h l = absurd (omega arith)

-- Digit by digit, with as many turns as there are digits.
xor_twice : (n x k : ℕ) → x ≤ n → k ≤ n → bit_xor (bit_xor x k) k ≡ x
xor_twice zero x k h l =
    let x_zero : x ≡ 0 = omega arith in
    let k_zero : k ≡ 0 = omega arith in rw x_zero (rw k_zero refl)
xor_twice (suc n) x k h l =
    let y = bit_xor x k in
    let once : y ≡ bit_xor (x / 2) (k / 2) * 2 + differ (x % 2) (k % 2) = bit_xor_digit x k in
    let (small, twice) = digit_laws (x % 2) (k % 2) (omega arith) (omega arith) in
    let high : y / 2 ≡ bit_xor (x / 2) (k / 2) = omega arith in
    let low : y % 2 ≡ differ (x % 2) (k % 2) = omega arith in
    bit_xor_digit y k
    ∙ ap₂ (λ a b. bit_xor a (k / 2) * 2 + differ b (k % 2)) high low
    ∙ ap₂ (λ a b. a * 2 + b) (xor_twice n (x / 2) (k / 2) (omega arith) (omega arith)) twice
    ∙ omega arith

xor_chunk_twice : (xs ks : List ℕ) → xor_chunk (xor_chunk xs ks) ks ≡ xs
unfolding xor_chunk
xor_chunk_twice [] ks = refl
xor_chunk_twice (x ∷ xs) [] = refl
xor_chunk_twice (x ∷ xs) (k ∷ ks) =
    ap₂ ◌∷◌ (xor_twice (x + k) x k (omega arith) (omega arith)) (xor_chunk_twice xs ks)

length-xor_chunk : (xs ks : List ℕ) → length (xor_chunk xs ks) ≡ length xs
unfolding xor_chunk
length-xor_chunk [] ks = refl
length-xor_chunk (x ∷ xs) [] = refl
length-xor_chunk (x ∷ xs) (k ∷ ks) = ap suc (length-xor_chunk xs ks)

-- A chunk is full, or it is the last.
split_chunk :
    (n : ℕ) (xs ys : List ℕ)
    → length xs ≤ n
    → (length xs < n → length ys ≡ 0)
    → (take n (xs ++ ys) ≡ xs) × (drop n (xs ++ ys) ≡ ys)
split_chunk zero [] ys h l = (refl, refl)
split_chunk zero (x ∷ xs) ys h l = absurd (omega arith)
split_chunk (suc n) [] [] h l = (refl, refl)
split_chunk (suc n) [] (y ∷ ys) h l = absurd (omega (arith, l (omega arith)))
split_chunk (suc n) (x ∷ xs) ys h l =
    let (t, d) = split_chunk n xs ys (omega arith) (λ m. l (omega arith)) in
    (ap (λ zs. x ∷ zs) t, d)

module _ (block_cipher : List ℕ → Option (List ℕ)) where
  abbrev after_block : ℕ → List ℕ → List ℕ → List ℕ → Outcome AesError (List ℕ)
  after_block turns input counter keystream =
      and_then (process_chunks block_cipher turns (drop 16 input) (increment_be_slice counter))
        λ output. ok (xor_chunk (take 16 input) keystream ++ output)

  process_step :
      (turns : ℕ) (input counter : List ℕ)
      → 0 < length input
      → process_chunks block_cipher (suc turns) input counter
        ≡ and_then (encrypt_block block_cipher counter) (after_block turns input counter)
  unfolding process_chunks
  process_step turns [] counter h = absurd (omega arith)
  process_step turns (x ∷ input) counter h = refl

  -- What is processed has its length, and is given back by processing once more.
  pub process_twice :
      (turns : ℕ) (input counter output : List ℕ)
      → length input ≤ turns
      → process_chunks block_cipher turns input counter ≡ ok output
      → (length output ≡ length input)
        × (process_chunks block_cipher turns output counter ≡ ok input)
  unfolding process_chunks
  process_twice zero [] counter output h e =
      let none_left : output ≡ [] = cc in (ap length none_left, refl)
  process_twice zero (x ∷ input) counter output h e = absurd (omega arith)
  process_twice (suc turns) [] counter output h e =
      let none_left : output ≡ [] = cc in (ap length none_left, rw none_left refl)
  process_twice (suc turns) (x ∷ input) counter output h e =
      let (keystream, block, e') = and_then-eq-ok (encrypt_block block_cipher counter) _ e in
      let next = increment_be_slice counter in
      let (rest, later, e'') =
        and_then-eq-ok (process_chunks block_cipher turns (drop 15 input) next) _ e' in
      let (size, back) =
        process_twice turns (drop 15 input) next rest (omega (arith, length-drop 15 input)) later in
      let chunk = x ∷ take 15 input in
      let done : xor_chunk chunk keystream ++ rest ≡ output = cc in
      let xored = xor_chunk chunk keystream in
      let xored_size : length xored ≡ length chunk = length-xor_chunk chunk keystream in
      let taken = length-take 15 input in
      let dropped = length-drop 15 input in
      let (front, tail) = split_chunk 16 xored rest (omega arith) (λ l. omega arith) in
      let total : length (xored ++ rest) ≡ suc (length input) =
        omega (arith, length-append xored rest) in
      subst
        (λ o.
          (length o ≡ suc (length input))
          × (process_chunks block_cipher (suc turns) o counter ≡ ok (x ∷ input)))
        done
        (
          total,
          process_step turns (xored ++ rest) counter (omega arith)
              ∙ ap (λ m. and_then m (after_block turns (xored ++ rest) counter)) block
              ∙ ap
                  (λ d.
                    and_then (process_chunks block_cipher turns d next)
                      (λ o. ok (xor_chunk (take 16 (xored ++ rest)) keystream ++ o)))
                  tail
              ∙ ap (λ m. and_then m (λ o. ok (xor_chunk (take 16 (xored ++ rest)) keystream ++ o)))
                  back
              ∙ ap (λ c. ok (xor_chunk c keystream ++ drop 15 input)) front
              ∙ ap (λ c. ok (c ++ drop 15 input)) (xor_chunk_twice chunk keystream)
              ∙ ap (λ t. ok (x ∷ t)) (take-append-drop 15 input),
        )

  -- What is encrypted is as long as the plaintext, under the nonce from before, and is decrypted to
  -- the plaintext.
  pub decrypt-encrypt :
      (plaintext nonce nonce' ciphertext : List ℕ)
      → (encrypt block_cipher plaintext nonce).0 ≡ ok (nonce', ciphertext)
      → (nonce' ≡ nonce)
        × (length ciphertext ≡ length plaintext)
        × (decrypt block_cipher nonce' ciphertext ≡ ok plaintext)
  unfolding encrypt decrypt process_with_counter
  decrypt-encrypt plaintext nonce nonce' ciphertext e =
      let counter = create_counter_block nonce in
      let (output, done, e') =
        and_then-eq-ok (process_chunks block_cipher (length plaintext) plaintext counter) _ e in
      let same : nonce' ≡ nonce = cc in
      let all : output ≡ ciphertext = cc in
      let (size, back) =
        process_twice (length plaintext) plaintext counter ciphertext (omega arith) (
          subst (λ o. process_chunks block_cipher (length plaintext) plaintext counter ≡ ok o) all
            done) in
      (
        same,
        size,
        ap₂ (λ m n. process_chunks block_cipher m ciphertext (create_counter_block n)) size same
            ∙ back,
      )

  pub encrypt-nonce :
      (plaintext nonce : List ℕ)
      → (encrypt block_cipher plaintext nonce).1 ≡ increment_be_slice nonce
  unfolding encrypt
  encrypt-nonce plaintext nonce = refl
