-- ===== src/Paging/Talk.antt =====
-- Computations that talk to the client: the error handling of vm/src/handlers/lib/outsourced_mem.rs
-- around `interrupt`.
pub mod Rest
pub mod Turns
use vanadium.Prelude.{
  ℕ, zero, suc, ◌+◌, ◌==◌, ltb, Bool, true, false, if◌then◌else◌, String, List, length, Option,
  none, some, Outcome, ok, err, panic, map_err,
}
use vanadium.Accumulator.{HashOutput}
use vanadium.Message.{DeserializationError}
use vanadium.Message.Page.{ProofContinued, deserialize_proof_continued}
use vanadium.Vm.Error.{MemoryError, generic_error}
use vanadium.Paging.Session.{Session, interrupt, as_str}

abbrev pub Talk {ℓ} : Type ℓ → Type ℓ
Talk A = Session → Outcome MemoryError A × Session

abbrev pub continue_with {ℓ κ} :
    {A : Type ℓ} {B : Type κ}
    → Outcome MemoryError A × Session
    → (A → Talk B)
    → Outcome MemoryError B × Session
continue_with (ok a, s) f = f a s
continue_with (err e, s) f = (err e, s)
continue_with (panic, s) f = (panic, s)

infixl 5 ◌>>=◌ ◌>>◌
abbrev pub ◌>>=◌ {ℓ κ} : {A : Type ℓ} {B : Type κ} → Talk A → (A → Talk B) → Talk B
◌>>=◌ m f s = continue_with (m s) f

abbrev pub ◌>>◌ {ℓ} : {B : Type ℓ} → Talk (Unit {0}) → Talk B → Talk B
m >> k = m >>= λ _. k

abbrev pub lift {ℓ} : {A : Type ℓ} → Outcome MemoryError A → Talk A
lift r s = (r, s)

abbrev pub pure {ℓ} : {A : Type ℓ} → A → Talk A
pure a s = (ok a, s)

-- `if !b { return Err(GenericError(text)) }`
abbrev pub check : Bool → String → Talk (Unit {0})
check b text s = if b then (ok tt, s) else (err (generic_error text), s)

-- `assert!` and `expect`
abbrev pub assert : Bool → Talk (Unit {0})
assert b s = if b then (ok tt, s) else (panic, s)

abbrev pub expect {ℓ} : {A : Type ℓ} → Option A → Talk A
expect none s = (panic, s)
expect (some a) s = (ok a, s)

-- A conversion whose error is replaced by a text.
abbrev pub decoded {ℓ κ} : {E : Type κ} {A : Type ℓ} → String → Outcome E A → Talk A
decoded text r s = (map_err (λ _. generic_error text) r, s)

unfoldable pub ask : List ℕ → Talk (List ℕ)
ask request s = let (r, s') = interrupt request s in (map_err (λ e. generic_error (as_str e)) r, s')

-- The loop that asks for the rest of a proof and feeds it to a verifier. Each turn takes an answer
-- of the client, so that one turn more than it has answers is enough.
module _ {ℓ} {V : Type ℓ} (feed_each : List HashOutput → V → V) (request : List ℕ) where
  unfoldable pub feed_rest : ℕ → ℕ → ℕ → V → Talk V
  feed_rest zero n processed verifier s = (panic, s)
  feed_rest (suc turns) n processed verifier s =
      let more = (do
        payload ← ask request
        r ← decoded "Invalid continued proof data" (deserialize_proof_continued payload)
        check (r.t == length r.proof)
            "Continued proof size does not match the expected number of elements"
        feed_rest turns n (processed + r.t) (feed_each r.proof verifier)) in
      if ltb processed n then more s else (ok verifier, s)

  unfoldable pub feed_all_rest : ℕ → ℕ → V → Talk V
  feed_all_rest n processed verifier s = feed_rest (suc (length s.answers)) n processed verifier s
