-- ===== src/Message/Bytes.antt =====
-- Slices of joined bytes, and the elements of a proof read back.
use vanadium.Prelude.{
  ℕ, zero, suc, ◌+◌, ◌-◌, ◌*◌, ◌/◌, ◌%◌, ◌^◌, ◌≤◌, ◌≡◌, refl, sym, ap, ap₂, ◌∙◌, arith,
}
use vanadium.Prelude.{
  Bool, true, false, replicate, List, [], ◌∷◌, ◌++◌, length, length-append, get_or, get_or-append,
  length-take, length-drop, take, drop, All,
}
use vanadium.Word.{IsU32, u8}
use vanadium.Message.{flatten, chunks, slice, from_be_bytes}

module _ {ℓ} {A : Type ℓ} where
  pub take-append : (xs ys : List A) (n : ℕ) → length xs ≡ n → take n (xs ++ ys) ≡ xs
  take-append [] ys zero e = refl
  take-append [] ys (suc n) e = absurd (omega arith)
  take-append (x ∷ xs) ys zero e = absurd (omega arith)
  take-append (x ∷ xs) ys (suc n) e = ap (λ zs. x ∷ zs) (take-append xs ys n (omega arith))

  pub drop-append : (xs ys : List A) (n : ℕ) → length xs ≡ n → drop n (xs ++ ys) ≡ ys
  drop-append [] ys zero e = refl
  drop-append [] ys (suc n) e = absurd (omega arith)
  drop-append (x ∷ xs) ys zero e = absurd (omega arith)
  drop-append (x ∷ xs) ys (suc n) e = drop-append xs ys n (omega arith)

  pub get_or-beyond :
      (xs ys : List A) (n i k : ℕ) (d : A)
      → length xs ≡ n
      → k ≡ n + i
      → get_or (xs ++ ys) k d ≡ get_or ys i d
  get_or-beyond xs ys n i k d e f =
      ap (λ j. get_or (xs ++ ys) j d) (f ∙ ap (λ m. m + i) (sym e)) ∙ get_or-append xs ys i d

  pub drop-beyond :
      (xs ys : List A) (n i k : ℕ) → length xs ≡ n → k ≡ n + i → drop k (xs ++ ys) ≡ drop i ys
  drop-beyond [] ys n i k e f = ap (λ j. drop j ys) (omega arith)
  drop-beyond (x ∷ xs) ys n i zero e f = absurd (omega arith)
  drop-beyond (x ∷ xs) ys n i (suc k) e f =
      drop-beyond xs ys (n - 1) i k (omega arith) (omega arith)

  pub take_all : (xs : List A) (n : ℕ) → length xs ≡ n → take n xs ≡ xs
  take_all [] zero e = refl
  take_all [] (suc n) e = refl
  take_all (x ∷ xs) zero e = absurd (omega arith)
  take_all (x ∷ xs) (suc n) e = ap (λ zs. x ∷ zs) (take_all xs n (omega arith))

-- Every element of a proof is a hash of 32 bytes.
abbrev pub IsProof : List (List ℕ) → Type 0
IsProof proof = All (λ p. length p ≡ 32) proof

-- Whatever bytes a proof is read from, its elements are hashes.
pub chunks-IsProof :
    (count : ℕ) (bytes : List ℕ) → 32 * count ≤ length bytes → IsProof (chunks count bytes)
unfolding chunks
chunks-IsProof zero bytes h = tt
chunks-IsProof (suc count) bytes h = (
  omega (arith, length-take 32 bytes),
  chunks-IsProof count (drop 32 bytes) (omega (arith, length-drop 32 bytes)),
)

pub read-IsProof :
    (bytes : List ℕ) (from : ℕ)
    → from ≤ length bytes
    → IsProof (chunks ((length bytes - from) / 32) (slice bytes from (length bytes - from)))
read-IsProof bytes from h =
    chunks-IsProof ((length bytes - from) / 32) (slice bytes from (length bytes - from))
      (omega (arith, length-take (length bytes - from) (drop from bytes), length-drop from bytes))

pub length-flatten :
    (proof : List (List ℕ)) → IsProof proof → length (flatten proof) ≡ 32 * length proof
unfolding flatten
length-flatten [] h = omega arith
length-flatten (p ∷ proof) h =
    omega (arith, length-append p (flatten proof), length-flatten proof h.1, h.0)

pub chunks-flatten :
    (proof : List (List ℕ)) → IsProof proof → chunks (length proof) (flatten proof) ≡ proof
unfolding chunks flatten
chunks-flatten [] h = refl
chunks-flatten (p ∷ proof) h =
    ap₂ ◌∷◌ (take-append p (flatten proof) 32 h.0)
      (ap (chunks (length proof)) (drop-append p (flatten proof) 32 h.0) ∙ chunks-flatten proof h.1)

-- A proof that ends a message is read back from the number of bytes that are left.
pub read_proof :
    (proof : List (List ℕ)) (len : ℕ)
    → IsProof proof
    → len ≡ length (flatten proof)
    → (len % 32 ≡ 0) × (chunks (len / 32) (take len (flatten proof)) ≡ proof)
read_proof proof len h e =
    let size = length-flatten proof h in
    let count : len / 32 ≡ length proof = omega (arith, size) in
    (
      omega (arith, size),
      ap₂ chunks count (take_all (flatten proof) len (sym e)) ∙ chunks-flatten proof h,
    )

pub be_bytes :
    (v : ℕ)
    → IsU32 v
    → from_be_bytes (u8 (v / 2 ^ 24)) (u8 (v / 2 ^ 16)) (u8 (v / 2 ^ 8)) (u8 v) ≡ v
be_bytes v h = omega arith

-- The nonce of a page that is not encrypted is zero.
abbrev pub IsNonce : Bool → List ℕ → Type 0
IsNonce true nonce = length nonce ≡ 12
IsNonce false nonce = nonce ≡ replicate 12 0
