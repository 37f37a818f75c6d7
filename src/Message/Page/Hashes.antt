-- ===== src/Message/Page/Hashes.antt =====
-- The sizes of what is read from an answer with a page, of common/src/client_commands.rs.
use vanadium.Prelude.{
  ℕ, ◌-◌, ◌/◌, ◌%◌, ◌==◌, ◌≡◌, ◌≤◌, refl, ltb, not, if◌then◌else◌, Bool, true, false, List, length,
  length-take, length-drop, Outcome, ok, err, and_then-eq-ok, arith, subst, replicate, drop,
}
use vanadium.Message.{proof_kind_of, or_error, at, slice, chunks, DeserializationError}
use vanadium.Message.Bytes.{IsProof, read-IsProof}
use vanadium.Message.Page.{
  GetPageResponse, ProofContinued, deserialize_get_page_response, deserialize_proof_continued,
}

pub ok_if_not {ℓ} :
    {A : Type ℓ} (b : Bool) (e : DeserializationError) (m : Outcome DeserializationError A) {a : A}
    → (if b then err e else m) ≡ ok a
    → (b ≡ false) × (m ≡ ok a)
ok_if_not true e m h = cc
ok_if_not false e m h = (refl, h)

pub deserialize_proof_continued-IsProof :
    (bytes : List ℕ) (r : ProofContinued)
    → deserialize_proof_continued bytes ≡ ok r
    → IsProof r.proof
unfolding deserialize_proof_continued
deserialize_proof_continued-IsProof bytes r e =
    let (size, e1) = ok_if_not (ltb (length bytes) 1) _ _ e in
    let (whole, e2) = ok_if_not (not ((length bytes - 1) % 32 == 0)) _ _ e1 in
    let read : chunks ((length bytes - 1) / 32) (slice bytes 1 (length bytes - 1)) ≡ r.proof = cc in
    subst IsProof read (read-IsProof bytes 1 (ground arith))

pub record HasSizes (r : GetPageResponse) : Type 0 where
  pub proof_IsProof : IsProof r.proof
  pub nonce_size : length r.nonce ≡ 12

nonce_size :
    (bytes : List ℕ) (b : Bool)
    → 272 ≤ length bytes
    → length (if b then slice bytes 259 12 else replicate 12 0) ≡ 12
nonce_size bytes true h = omega (arith, length-take 12 (drop 259 bytes), length-drop 259 bytes)
nonce_size bytes false h = refl

pub deserialize_get_page_response-HasSizes :
    (bytes : List ℕ) (r : GetPageResponse) → deserialize_get_page_response bytes ≡ ok r → HasSizes r
unfolding deserialize_get_page_response
deserialize_get_page_response-HasSizes bytes r e =
    let (size, e1) = ok_if_not (ltb (length bytes) 272) _ _ e in
    let (kind, k, e2) = and_then-eq-ok (or_error _ (proof_kind_of (at bytes 271))) _ e1 in
    let (whole, e3) = ok_if_not (not ((length bytes - 272) % 32 == 0)) _ _ e2 in
    let (counted, e4) = ok_if_not (not (at bytes 257 == (length bytes - 272) / 32)) _ _ e3 in
    let enough : 272 ≤ length bytes = ground arith in
    let read : chunks ((length bytes - 272) / 32) (slice bytes 272 (length bytes - 272)) ≡ r.proof =
      cc in
    let nonce_read : (if at bytes 258 == 1 then slice bytes 259 12 else replicate 12 0) ≡ r.nonce =
      cc in
    record {
      proof_IsProof = subst IsProof read (read-IsProof bytes 272 enough);
      nonce_size =
          subst (λ n. length n ≡ 12) nonce_read (nonce_size bytes (at bytes 258 == 1) enough);
    }
