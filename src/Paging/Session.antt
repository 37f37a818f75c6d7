-- ===== src/Paging/Session.antt =====
-- The VM's side of a conversation with its client: `interrupt` of vm/src/io.rs. The client is not
-- trusted, so that what it answers is arbitrary data.
use vanadium.Prelude.{
  ℕ, ◌==◌, ◌&&◌, if◌then◌else◌, String, List, [], ◌∷◌, ◌++◌, Outcome, ok, err, panic,
}

-- What the next APDU decodes to: `Continue(p1, p2)` with its data, another instruction, or nothing.
pub data Answer : Type 0 where
  continue : ℕ → ℕ → List ℕ → Answer
  other_instruction : Answer
  undecodable : Answer

pub data InterruptError : Type 0 where
  invalid_response : InterruptError
  unsupported_instruction : InterruptError
  wrong_parameters : InterruptError

pub as_str : InterruptError → String
as_str invalid_response = "Invalid response"
as_str unsupported_instruction = "INS not supported"
as_str wrong_parameters = "Wrong P1/P2"

-- The answers that the client will give, and what has been sent to it.
pub record Session : Type 0 where
  pub answers : List Answer
  pub sent : List (List ℕ)

abbrev pub received : Answer → Outcome InterruptError (List ℕ)
received (continue p1 p2 payload) = if p1 == 0 && p2 == 0 then ok payload else err wrong_parameters
received other_instruction = err unsupported_instruction
received undecodable = err invalid_response

abbrev pub awaited : List Answer → List (List ℕ) → Outcome InterruptError (List ℕ) × Session
awaited [] sent = (panic, record { answers = []; sent = sent })
awaited (answer ∷ answers) sent = (received answer, record { answers = answers; sent = sent })

-- After the last answer the call waits for ever: it does not return, as if it had panicked.
unfoldable pub interrupt : List ℕ → Session → Outcome InterruptError (List ℕ) × Session
interrupt response s = awaited s.answers (s.sent ++ response ∷ [])
