-- ===== src/Message/Page.antt =====
-- The messages by which the VM asks for a page, and the answers of the client.
pub mod RoundTrip
pub mod Hashes
use vanadium.Prelude.{ℕ, ◌+◌, ◌-◌, ◌*◌, ◌/◌, ◌%◌, ◌==◌, ltb, not, if◌then◌else◌, Bool, true, false}
use vanadium.Prelude.{List, [], ◌∷◌, ◌++◌, length, replicate, Outcome, ok, err, and_then}
use vanadium.Message.{
  DeserializationError, ClientCommandCode, SectionKind, PageProofKind, code_byte, section_byte,
  section_of, proof_kind_byte, proof_kind_of, or_error, at, slice, to_be_bytes, from_be_bytes,
  flatten, chunks, check_code, deserialize_code,
}

-- The command code of a message that `new` makes is that of its type.
pub record GetPage : Type 0 where
  pub command_code : ClientCommandCode
  pub section_kind : SectionKind
  pub page_index : ℕ

abbrev pub new_get_page : SectionKind → ℕ → GetPage
new_get_page section_kind page_index = record {
  command_code = ClientCommandCode.get_page;
  section_kind = section_kind;
  page_index = page_index;
}

pub serialize_get_page : GetPage → List ℕ
serialize_get_page m =
    code_byte m.command_code ∷ section_byte m.section_kind ∷ to_be_bytes m.page_index

pub deserialize_get_page : List ℕ → Outcome DeserializationError GetPage
deserialize_get_page bytes =
    if not (length bytes == 6)
    then err DeserializationError.invalid_data_length
    else and_then (check_code ClientCommandCode.get_page (at bytes 0)) λ command_code.
      and_then (or_error DeserializationError.invalid_section_kind (section_of (at bytes 1)))
        λ section_kind. ok (record {
          command_code = command_code;
          section_kind = section_kind;
          page_index = from_be_bytes (at bytes 2) (at bytes 3) (at bytes 4) (at bytes 5);
        })

pub record GetPageResponse : Type 0 where
  pub page_data : List ℕ
  pub is_encrypted : Bool
  pub nonce : List ℕ
  pub n : ℕ
  pub t : ℕ
  pub proof_kind : PageProofKind
  pub proof : List (List ℕ)

abbrev pub new_get_page_response :
    List ℕ → Bool → List ℕ → ℕ → ℕ → PageProofKind → List (List ℕ) → GetPageResponse
new_get_page_response page_data is_encrypted nonce n t proof_kind proof = record {
  page_data = page_data;
  is_encrypted = is_encrypted;
  nonce = nonce;
  n = n;
  t = t;
  proof_kind = proof_kind;
  proof = proof;
}

unfoldable pub serialize_get_page_response : GetPageResponse → List ℕ
serialize_get_page_response m =
    m.page_data
    ++ (m.n
        ∷ m.t
        ∷ (if m.is_encrypted then 1 else 0)
        ∷ (m.nonce ++ (proof_kind_byte m.proof_kind ∷ flatten m.proof)))

unfoldable pub deserialize_get_page_response : List ℕ → Outcome DeserializationError GetPageResponse
deserialize_get_page_response bytes =
    if ltb (length bytes) 272
    then err DeserializationError.invalid_data_length
    else (let is_encrypted = at bytes 258 == 1 in
        let proof_len = length bytes - 272 in
        and_then
          (or_error DeserializationError.invalid_page_proof_kind (proof_kind_of (at bytes 271)))
          λ proof_kind.
            if not (proof_len % 32 == 0)
            then err DeserializationError.invalid_data_length
            else if not (at bytes 257 == proof_len / 32)
            then err DeserializationError.invalid_data_length
            else ok (record {
              page_data = slice bytes 0 256;
              is_encrypted = is_encrypted;
              nonce = if is_encrypted then slice bytes 259 12 else replicate 12 0;
              n = at bytes 256;
              t = at bytes 257;
              proof_kind = proof_kind;
              proof = chunks (proof_len / 32) (slice bytes 272 proof_len);
            }))

unfoldable pub serialize_get_page_proof_continued : ClientCommandCode → List ℕ
serialize_get_page_proof_continued command_code = code_byte command_code ∷ []

pub deserialize_get_page_proof_continued : List ℕ → Outcome DeserializationError ClientCommandCode
deserialize_get_page_proof_continued = deserialize_code ClientCommandCode.get_page_proof_continued

-- The rest of a proof, in answer to a request for a page or to a commitment.
pub record ProofContinued : Type 0 where
  pub t : ℕ
  pub proof : List (List ℕ)

pub serialize_proof_continued : ProofContinued → List ℕ
serialize_proof_continued m = m.t ∷ flatten m.proof

unfoldable pub deserialize_proof_continued : List ℕ → Outcome DeserializationError ProofContinued
deserialize_proof_continued bytes =
    if ltb (length bytes) 1
    then err DeserializationError.invalid_data_length
    else (let proof_len = length bytes - 1 in
        if not (proof_len % 32 == 0)
        then err DeserializationError.invalid_data_length
        else ok
            (record { t = at bytes 0; proof = chunks (proof_len / 32) (slice bytes 1 proof_len) }))
