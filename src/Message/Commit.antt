-- ===== src/Message/Commit.antt =====
-- The messages by which the VM commits a page, and the answers of the client.
pub mod RoundTrip
pub mod Hashes
use vanadium.Prelude.{ℕ, ◌+◌, ◌-◌, ◌*◌, ◌/◌, ◌%◌, ◌==◌, ltb, not, if◌then◌else◌, Bool, true, false}
use vanadium.Prelude.{List, [], ◌∷◌, ◌++◌, length, replicate, Outcome, ok, err, and_then}
use vanadium.Message.{
  DeserializationError, ClientCommandCode, SectionKind, code_byte, section_byte, section_of,
  or_error, at, slice, to_be_bytes, from_be_bytes, flatten, chunks, check_code, deserialize_code,
}

pub record CommitPage : Type 0 where
  pub command_code : ClientCommandCode
  pub section_kind : SectionKind
  pub page_index : ℕ
  pub is_encrypted : Bool
  pub nonce : List ℕ
  pub page_data : List ℕ

abbrev pub new_commit_page : SectionKind → ℕ → Bool → List ℕ → List ℕ → CommitPage
new_commit_page section_kind page_index is_encrypted nonce page_data = record {
  command_code = ClientCommandCode.commit_page;
  section_kind = section_kind;
  page_index = page_index;
  is_encrypted = is_encrypted;
  nonce = nonce;
  page_data = page_data;
}

pub serialize_commit_page : CommitPage → List ℕ
serialize_commit_page m =
    code_byte m.command_code
    ∷ section_byte m.section_kind
    ∷ (to_be_bytes m.page_index
        ++ ((if m.is_encrypted then 1 ∷ m.nonce else replicate 13 0) ++ m.page_data))

pub deserialize_commit_page : List ℕ → Outcome DeserializationError CommitPage
deserialize_commit_page bytes =
    if not (length bytes == 275)
    then err DeserializationError.invalid_data_length
    else and_then (check_code ClientCommandCode.commit_page (at bytes 0)) λ command_code.
      and_then (or_error DeserializationError.invalid_section_kind (section_of (at bytes 1)))
        λ section_kind. ok (record {
          command_code = command_code;
          section_kind = section_kind;
          page_index = from_be_bytes (at bytes 2) (at bytes 3) (at bytes 4) (at bytes 5);
          is_encrypted = at bytes 6 == 1;
          nonce = if at bytes 6 == 1 then slice bytes 7 12 else replicate 12 0;
          page_data = slice bytes 19 256;
        })

pub record CommitPageProof : Type 0 where
  pub n : ℕ
  pub t : ℕ
  pub new_root : List ℕ
  pub proof : List (List ℕ)

pub serialize_commit_page_proof : CommitPageProof → List ℕ
serialize_commit_page_proof m = m.n ∷ m.t ∷ (m.new_root ++ flatten m.proof)

pub deserialize_commit_page_proof : List ℕ → Outcome DeserializationError CommitPageProof
deserialize_commit_page_proof bytes =
    if ltb (length bytes) 34
    then err DeserializationError.invalid_data_length
    else (let proof_len = length bytes - 34 in
        if not (proof_len % 32 == 0)
        then err DeserializationError.invalid_data_length
        else ok (record {
          n = at bytes 0;
          t = at bytes 1;
          new_root = slice bytes 2 32;
          proof = chunks (proof_len / 32) (slice bytes 34 proof_len);
        }))

unfoldable pub serialize_commit_page_proof_continued : ClientCommandCode → List ℕ
serialize_commit_page_proof_continued command_code = code_byte command_code ∷ []

pub deserialize_commit_page_proof_continued :
    List ℕ → Outcome DeserializationError ClientCommandCode
deserialize_commit_page_proof_continued =
    deserialize_code ClientCommandCode.commit_page_proof_continued
