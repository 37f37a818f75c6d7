-- ===== src/Message/Page/RoundTrip.antt =====
-- Serialization and deserialization of the messages about a page.
use vanadium.Prelude.{
  ℕ, suc, ◌+◌, ◌-◌, ◌/◌, ◌==◌, ◌≤◌, some, ◌≡◌, refl, ap, ◌∙◌, arith, Bool, true, false, ltb,
}
use vanadium.Prelude.{List, ◌∷◌, ◌++◌, length, length-append, take, drop, ok}
use vanadium.Word.{IsU32}
use vanadium.Message.{
  SectionKind, PageProofKind, proof_kind_byte, proof_kind_of, check_code, flatten, at,
}
use vanadium.Message.Bytes.{
  IsProof, IsNonce, length-flatten, get_or-beyond, drop-beyond, be_bytes, read_proof, take-append,
}
use vanadium.Message.Page.{
  new_get_page, serialize_get_page, deserialize_get_page, new_get_page_response,
  serialize_get_page_response, deserialize_get_page_response, ProofContinued,
  serialize_proof_continued, deserialize_proof_continued,
}

-- The request for a page that new makes is read back as it was sent, if its index has 32 bits.
pub deserialize_get_page-serialize_get_page :
    (section_kind : SectionKind) (page_index : ℕ)
    → IsU32 page_index
    → deserialize_get_page (serialize_get_page (new_get_page section_kind page_index))
      ≡ ok (new_get_page section_kind page_index)
unfolding deserialize_get_page serialize_get_page check_code
deserialize_get_page-serialize_get_page SectionKind.code i h =
    ap (λ v. ok (new_get_page SectionKind.code v)) (be_bytes i h)
deserialize_get_page-serialize_get_page SectionKind.data_section i h =
    ap (λ v. ok (new_get_page SectionKind.data_section v)) (be_bytes i h)
deserialize_get_page-serialize_get_page SectionKind.stack i h =
    ap (λ v. ok (new_get_page SectionKind.stack v)) (be_bytes i h)

-- The rest of a proof is read back as it was sent, if its hashes have 32 bytes each.
pub deserialize_proof_continued-serialize_proof_continued :
    (m : ProofContinued)
    → IsProof m.proof
    → deserialize_proof_continued (serialize_proof_continued m) ≡ ok m
unfolding deserialize_proof_continued serialize_proof_continued
deserialize_proof_continued-serialize_proof_continued m h =
    let len = length (flatten m.proof) in
    let left : suc len - 1 ≡ len = omega arith in
    let (whole, read) = read_proof m.proof (suc len - 1) h left in
    let some_bytes : ltb (suc len) 1 ≡ false = ground arith in rw (some_bytes, whole, read) refl

ltb_of_ge : (a b : ℕ) → b ≤ a → ltb a b ≡ false
ltb_of_ge a b h = ground arith

proof_kind_of-byte : (k : PageProofKind) → proof_kind_of (proof_kind_byte k) ≡ some k
proof_kind_of-byte PageProofKind.merkle = refl
proof_kind_of-byte PageProofKind.hmac = refl

-- Where the fields of a response stand.
module _ (page_data nonce : List ℕ) (n t flag kind : ℕ) (proof : List (List ℕ))
    (hd : length page_data ≡ 256) (hn : length nonce ≡ 12) where
  abbrev tail : List ℕ
  tail = nonce ++ (kind ∷ flatten proof)

  abbrev bytes : List ℕ
  bytes = page_data ++ (n ∷ t ∷ flag ∷ tail)

  byte_at : (i k : ℕ) → k ≡ 256 + i → at bytes k ≡ at (n ∷ t ∷ flag ∷ tail) i
  byte_at i k e = get_or-beyond page_data (n ∷ t ∷ flag ∷ tail) 256 i k 0 hd e

  kind_at : at bytes 271 ≡ kind
  kind_at =
      byte_at 15 271 (omega arith)
      ∙ get_or-beyond nonce (kind ∷ flatten proof) 12 0 12 0 hn (omega arith)

  nonce_at : take 12 (drop 259 bytes) ≡ nonce
  nonce_at =
      ap (take 12) (drop-beyond page_data (n ∷ t ∷ flag ∷ tail) 256 3 259 hd (omega arith))
      ∙ take-append nonce (kind ∷ flatten proof) 12 hn

  proof_at : drop 272 bytes ≡ flatten proof
  proof_at =
      drop-beyond page_data (n ∷ t ∷ flag ∷ tail) 256 16 272 hd (omega arith)
      ∙ drop-beyond nonce (kind ∷ flatten proof) 12 1 13 hn (omega arith)

  length-bytes : length bytes ≡ 272 + length (flatten proof)
  length-bytes = omega (
    arith,
    length-append page_data (n ∷ t ∷ flag ∷ tail),
    length-append nonce (kind ∷ flatten proof),
    hd,
    hn,
  )

-- The answer with a page is read back as it was sent, if its page has 256 bytes, its nonce 12, all
-- zero for a page that is not encrypted, the hashes of its proof 32 each, and t is the number of
-- these hashes.
pub deserialize_get_page_response-serialize_get_page_response :
    (page_data : List ℕ) (is_encrypted : Bool) (nonce : List ℕ) (n t : ℕ)
    (proof_kind : PageProofKind) (proof : List (List ℕ))
    → length page_data ≡ 256
    → IsNonce is_encrypted nonce
    → IsProof proof
    → t ≡ length proof
    → let m = new_get_page_response page_data is_encrypted nonce n t proof_kind proof in
      deserialize_get_page_response (serialize_get_page_response m) ≡ ok m
unfolding deserialize_get_page_response serialize_get_page_response
deserialize_get_page_response-serialize_get_page_response page_data true nonce n t proof_kind proof
      hd hn h ht =
    let k = proof_kind_byte proof_kind in
    let size = length-bytes page_data nonce n t 1 k proof hd hn in
    let len = length (bytes page_data nonce n t 1 k proof hd hn) - 272 in
    let enough =
      ltb_of_ge (length (bytes page_data nonce n t 1 k proof hd hn)) 272 (omega (arith, size)) in
    let (whole, read) = read_proof proof len h (omega (arith, size)) in
    let count : len / 32 ≡ length proof = omega (arith, size, length-flatten proof h) in
    let same : (t == len / 32) ≡ true = ground (arith, ht, count) in
    rw
      (
        enough,
        kind_at page_data nonce n t 1 k proof hd hn,
        proof_kind_of-byte proof_kind,
        whole,
        byte_at page_data nonce n t 1 k proof hd hn 1 257 refl,
        same,
        byte_at page_data nonce n t 1 k proof hd hn 0 256 refl,
        byte_at page_data nonce n t 1 k proof hd hn 2 258 refl,
        take-append page_data (n ∷ t ∷ 1 ∷ tail page_data nonce n t 1 k proof hd hn) 256 hd,
        nonce_at page_data nonce n t 1 k proof hd hn,
        proof_at page_data nonce n t 1 k proof hd hn,
        read,
      )
      refl
deserialize_get_page_response-serialize_get_page_response page_data false nonce n t proof_kind proof
      hd hn h ht =
    let k = proof_kind_byte proof_kind in
    let size_n : length nonce ≡ 12 = ap length hn in
    let size = length-bytes page_data nonce n t 0 k proof hd size_n in
    let len = length (bytes page_data nonce n t 0 k proof hd size_n) - 272 in
    let enough =
      ltb_of_ge (length (bytes page_data nonce n t 0 k proof hd size_n)) 272
        (omega (arith, size)) in
    let (whole, read) = read_proof proof len h (omega (arith, size)) in
    let count : len / 32 ≡ length proof = omega (arith, size, length-flatten proof h) in
    let same : (t == len / 32) ≡ true = ground (arith, ht, count) in
    rw
      (
        enough,
        kind_at page_data nonce n t 0 k proof hd size_n,
        proof_kind_of-byte proof_kind,
        whole,
        byte_at page_data nonce n t 0 k proof hd size_n 1 257 refl,
        same,
        byte_at page_data nonce n t 0 k proof hd size_n 0 256 refl,
        byte_at page_data nonce n t 0 k proof hd size_n 2 258 refl,
        take-append page_data (n ∷ t ∷ 0 ∷ tail page_data nonce n t 0 k proof hd size_n) 256 hd,
        proof_at page_data nonce n t 0 k proof hd size_n,
        read,
        hn,
      )
      refl
