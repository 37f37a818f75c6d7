-- ===== src/Message/Examples.antt =====
-- Messages at concrete values.
use vanadium.Prelude.{ℕ, ◌≡◌, refl, arith, true, false, List, [], ◌∷◌, replicate, ok}
use vanadium.Message.{SectionKind, PageProofKind}
use vanadium.Message.Page.{
  new_get_page, serialize_get_page, deserialize_get_page, ProofContinued, serialize_proof_continued,
  deserialize_proof_continued,
}
use vanadium.Message.Page.{
  new_get_page_response, serialize_get_page_response, deserialize_get_page_response,
}
use vanadium.Message.Page.RoundTrip.{
  deserialize_get_page-serialize_get_page, deserialize_proof_continued-serialize_proof_continued,
  deserialize_get_page_response-serialize_get_page_response,
}
use vanadium.Message.Commit.{
  new_commit_page, serialize_commit_page, deserialize_commit_page, CommitPageProof,
  serialize_commit_page_proof, deserialize_commit_page_proof,
}
use vanadium.Message.Commit.RoundTrip.{
  deserialize_commit_page-serialize_commit_page,
  deserialize_commit_page_proof-serialize_commit_page_proof,
}

abbrev hash : List ℕ
hash = replicate 32 7

abbrev page : List ℕ
page = replicate 256 5

deserialize_get_page-serialize_get_page_example :
    deserialize_get_page (serialize_get_page (new_get_page SectionKind.stack 0x01020304))
    ≡ ok (new_get_page SectionKind.stack 0x01020304)
deserialize_get_page-serialize_get_page_example =
    deserialize_get_page-serialize_get_page SectionKind.stack 0x01020304 (omega arith)

abbrev continued : ProofContinued
continued = record { t = 2; proof = hash ∷ hash ∷ [] }

deserialize_proof_continued-serialize_proof_continued_example :
    deserialize_proof_continued (serialize_proof_continued continued) ≡ ok continued
deserialize_proof_continued-serialize_proof_continued_example =
    deserialize_proof_continued-serialize_proof_continued continued (refl, (refl, tt))

deserialize_get_page_response-serialize_get_page_response_example :
    deserialize_get_page_response (
      serialize_get_page_response
        (new_get_page_response page true (replicate 12 9) 3 1 PageProofKind.merkle (hash ∷ [])))
    ≡ ok (new_get_page_response page true (replicate 12 9) 3 1 PageProofKind.merkle (hash ∷ []))
deserialize_get_page_response-serialize_get_page_response_example =
    deserialize_get_page_response-serialize_get_page_response page true (replicate 12 9) 3 1
      PageProofKind.merkle (hash ∷ []) refl refl (refl, tt) refl

deserialize_commit_page-serialize_commit_page_example :
    deserialize_commit_page (
      serialize_commit_page
        (new_commit_page SectionKind.data_section 6 false (replicate 12 0) page))
    ≡ ok (new_commit_page SectionKind.data_section 6 false (replicate 12 0) page)
deserialize_commit_page-serialize_commit_page_example =
    deserialize_commit_page-serialize_commit_page SectionKind.data_section 6 false (replicate 12 0)
      page (omega arith) refl refl

abbrev update_proof : CommitPageProof
update_proof = record { n = 4; t = 1; new_root = hash; proof = hash ∷ [] }

deserialize_commit_page_proof-serialize_commit_page_proof_example :
    deserialize_commit_page_proof (serialize_commit_page_proof update_proof) ≡ ok update_proof
deserialize_commit_page_proof-serialize_commit_page_proof_example =
    deserialize_commit_page_proof-serialize_commit_page_proof update_proof refl (refl, tt)
