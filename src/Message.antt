-- ===== src/Message.antt =====
-- The messages between the VM and its client: common/src/client_commands.rs. A message is the list
-- of its bytes.
pub mod Page
pub mod Commit
pub mod Bytes
mod Examples
use vanadium.Prelude.{
  ℕ, zero, suc, ◌+◌, ◌-◌, ◌*◌, ◌/◌, ◌%◌, ◌^◌, ◌==◌, not, if◌then◌else◌, Bool, true, false,
}
use vanadium.Prelude.{
  List, [], ◌∷◌, ◌++◌, length, get_or, take, drop, Option, none, some, Outcome, ok, err, panic,
  and_then,
}
use vanadium.Word.{u8}

pub data DeserializationError : Type 0 where
  invalid_client_command_code : DeserializationError
  mismatching_client_command_code : DeserializationError
  invalid_section_kind : DeserializationError
  invalid_page_proof_kind : DeserializationError
  invalid_data_length : DeserializationError
  unexpected_command_code : DeserializationError
  invalid_buffer_type : DeserializationError

pub data ClientCommandCode : Type 0 where
  get_page : ClientCommandCode
  get_page_proof_continued : ClientCommandCode
  commit_page : ClientCommandCode
  commit_page_proof_continued : ClientCommandCode
  send_buffer : ClientCommandCode
  send_buffer_continued : ClientCommandCode
  receive_buffer : ClientCommandCode
  get_code_page_hashes : ClientCommandCode

-- `code as u8`
abbrev pub code_byte : ClientCommandCode → ℕ
code_byte ClientCommandCode.get_page = 0
code_byte ClientCommandCode.get_page_proof_continued = 1
code_byte ClientCommandCode.commit_page = 2
code_byte ClientCommandCode.commit_page_proof_continued = 3
code_byte ClientCommandCode.send_buffer = 4
code_byte ClientCommandCode.send_buffer_continued = 5
code_byte ClientCommandCode.receive_buffer = 6
code_byte ClientCommandCode.get_code_page_hashes = 7

abbrev pub code_of : ℕ → Option ClientCommandCode
code_of value =
    if value == 0
    then some ClientCommandCode.get_page
    else if value == 1
    then some ClientCommandCode.get_page_proof_continued
    else if value == 2
    then some ClientCommandCode.commit_page
    else if value == 3
    then some ClientCommandCode.commit_page_proof_continued
    else if value == 4
    then some ClientCommandCode.send_buffer
    else if value == 5
    then some ClientCommandCode.send_buffer_continued
    else if value == 6
    then some ClientCommandCode.receive_buffer
    else if value == 7
    then some ClientCommandCode.get_code_page_hashes
    else none

pub data SectionKind : Type 0 where
  code : SectionKind
  data_section : SectionKind
  stack : SectionKind

abbrev pub section_byte : SectionKind → ℕ
section_byte SectionKind.code = 0
section_byte SectionKind.data_section = 1
section_byte SectionKind.stack = 2

abbrev pub section_of : ℕ → Option SectionKind
section_of value =
    if value == 0
    then some SectionKind.code
    else if value == 1
    then some SectionKind.data_section
    else if value == 2
    then some SectionKind.stack
    else none

pub data PageProofKind : Type 0 where
  merkle : PageProofKind
  hmac : PageProofKind

abbrev pub proof_kind_byte : PageProofKind → ℕ
proof_kind_byte PageProofKind.merkle = 0
proof_kind_byte PageProofKind.hmac = 1

abbrev pub proof_kind_of : ℕ → Option PageProofKind
proof_kind_of value =
    if value == 0
    then some PageProofKind.merkle
    else if value == 1
    then some PageProofKind.hmac
    else none

-- `.map_err(|_| e)?` on a conversion.
abbrev pub or_error {ℓ} :
    {A : Type ℓ} → DeserializationError → Option A → Outcome DeserializationError A
or_error e none = err e
or_error e (some a) = ok a

-- `data[i]`, where the length has been checked.
abbrev pub at : List ℕ → ℕ → ℕ
at bytes i = get_or bytes i 0

-- `data[from..from + len]`
abbrev pub slice : List ℕ → ℕ → ℕ → List ℕ
slice bytes from len = take len (drop from bytes)

abbrev pub to_be_bytes : ℕ → List ℕ
to_be_bytes v = u8 (v / 2 ^ 24) ∷ u8 (v / 2 ^ 16) ∷ u8 (v / 2 ^ 8) ∷ u8 v ∷ []

abbrev pub from_be_bytes : ℕ → ℕ → ℕ → ℕ → ℕ
from_be_bytes a b c d = a * 2 ^ 24 + b * 2 ^ 16 + c * 2 ^ 8 + d

-- The elements of a proof, one after the other, and `from_raw_parts` back.
unfoldable pub flatten : List (List ℕ) → List ℕ
flatten [] = []
flatten (p ∷ proof) = p ++ flatten proof

unfoldable pub chunks : ℕ → List ℕ → List (List ℕ)
chunks zero bytes = []
chunks (suc count) bytes = take 32 bytes ∷ chunks count (drop 32 bytes)

-- The check of the first byte: a command code, and the one that the message has.
unfoldable pub check_code : ClientCommandCode → ℕ → Outcome DeserializationError ClientCommandCode
check_code expected value =
    and_then (or_error DeserializationError.invalid_client_command_code (code_of value))
      λ command_code.
        if code_byte command_code == code_byte expected
        then ok command_code
        else err DeserializationError.mismatching_client_command_code

-- A message that is its code only.
unfoldable pub deserialize_code :
    ClientCommandCode → List ℕ → Outcome DeserializationError ClientCommandCode
deserialize_code expected bytes =
    if not (length bytes == 1)
    then err DeserializationError.invalid_data_length
    else check_code expected (at bytes 0)
