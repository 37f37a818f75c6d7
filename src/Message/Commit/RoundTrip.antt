-- ===== src/Message/Commit/RoundTrip.antt =====
-- Serialization and deserialization of the messages about a commitment.
use vanadium.Prelude.{ℕ, suc, ◌-◌, ◌==◌, ◌≡◌, refl, arith, Bool, true, false, ltb}
use vanadium.Prelude.{some, List, ◌++◌, length, length-append, replicate, ok}
use vanadium.Word.{IsU32}
use vanadium.Message.{SectionKind, check_code, section_of, section_byte, flatten}
use vanadium.Message.Bytes.{
  IsProof, IsNonce, be_bytes, read_proof, take-append, drop-append, take_all,
}
use vanadium.Message.Commit.{
  new_commit_page, serialize_commit_page, deserialize_commit_page, CommitPageProof,
  serialize_commit_page_proof, deserialize_commit_page_proof,
}

section_of-byte : (k : SectionKind) → section_of (section_byte k) ≡ some k
section_of-byte SectionKind.code = refl
section_of-byte SectionKind.data_section = refl
section_of-byte SectionKind.stack = refl

-- The answer to a commitment is read back as it was sent, if its root and the hashes of its proof
-- have 32 bytes each.
pub deserialize_commit_page_proof-serialize_commit_page_proof :
    (m : CommitPageProof)
    → length m.new_root ≡ 32
    → IsProof m.proof
    → deserialize_commit_page_proof (serialize_commit_page_proof m) ≡ ok m
unfolding deserialize_commit_page_proof serialize_commit_page_proof
deserialize_commit_page_proof-serialize_commit_page_proof m root h =
    let bytes = m.new_root ++ flatten m.proof in
    let size = length-append m.new_root (flatten m.proof) in
    let len = suc (suc (length bytes)) - 34 in
    let left : len ≡ length (flatten m.proof) = omega (arith, size, root) in
    let (whole, read) = read_proof m.proof len h left in
    let enough : ltb (suc (suc (length bytes))) 34 ≡ false = ground (arith, size, root) in
    rw
      (
        enough,
        whole,
        take-append m.new_root (flatten m.proof) 32 root,
        drop-append m.new_root (flatten m.proof) 32 root,
        read,
      )
      refl

-- The commitment of a page is read back as it was sent, if its index has 32 bits, its page 256
-- bytes and its nonce 12, all zero for a page that is not encrypted.
pub deserialize_commit_page-serialize_commit_page :
    (section_kind : SectionKind) (page_index : ℕ) (is_encrypted : Bool) (nonce page_data : List ℕ)
    → IsU32 page_index
    → IsNonce is_encrypted nonce
    → length page_data ≡ 256
    → let m = new_commit_page section_kind page_index is_encrypted nonce page_data in
      deserialize_commit_page (serialize_commit_page m) ≡ ok m
unfolding deserialize_commit_page serialize_commit_page check_code
deserialize_commit_page-serialize_commit_page section_kind i true nonce page_data h hn hd =
    let whole : (suc (suc (suc (suc (suc (suc (suc (length (nonce ++ page_data)))))))) == 275)
        ≡ true =
      ground (arith, length-append nonce page_data, hn, hd) in
    rw
      (
        whole,
        section_of-byte section_kind,
        be_bytes i h,
        take-append nonce page_data 12 hn,
        drop-append nonce page_data 12 hn,
        take_all page_data 256 hd,
      )
      refl
deserialize_commit_page-serialize_commit_page section_kind i false nonce page_data h hn hd =
    let whole : (length (replicate {A = ℕ} 19 0 ++ page_data) == 275) ≡ true = ground (arith, hd) in
    rw (whole, section_of-byte section_kind, be_bytes i h, take_all page_data 256 hd, hn) refl
