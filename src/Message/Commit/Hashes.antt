-- ===== src/Message/Commit/Hashes.antt =====
-- The sizes of what is read from an answer to a commitment, of common/src/client_commands.rs.
use vanadium.Prelude.{ℕ, ◌-◌, ◌/◌, ◌%◌, ◌==◌, ◌≡◌, ltb, not, List, length, ok, arith, subst}
use vanadium.Message.{slice, chunks}
use vanadium.Message.Bytes.{IsProof, read-IsProof}
use vanadium.Message.Page.Hashes.{ok_if_not}
use vanadium.Message.Commit.{CommitPageProof, deserialize_commit_page_proof}

pub deserialize_commit_page_proof-IsProof :
    (bytes : List ℕ) (r : CommitPageProof)
    → deserialize_commit_page_proof bytes ≡ ok r
    → IsProof r.proof
unfolding deserialize_commit_page_proof
deserialize_commit_page_proof-IsProof bytes r e =
    let (size, e1) = ok_if_not (ltb (length bytes) 34) _ _ e in
    let (whole, e2) = ok_if_not (not ((length bytes - 34) % 32 == 0)) _ _ e1 in
    let read : chunks ((length bytes - 34) / 32) (slice bytes 34 (length bytes - 34)) ≡ r.proof =
      cc in
    subst IsProof read (read-IsProof bytes 34 (ground arith))
