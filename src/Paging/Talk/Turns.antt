-- ===== src/Paging/Talk/Turns.antt =====
-- The turns of the loop of vm/src/handlers/lib/outsourced_mem.rs that asks for the rest of a proof.
use vanadium.Prelude.{
  ℕ, zero, suc, ◌+◌, ◌-◌, ◌==◌, ◌&&◌, ◌<◌, ◌≤◌, ◌≡◌, refl, sym, ap, arith, ltb, ltb→lt, Bool,
  Bool-cases, true, false, if◌then◌else◌, ◌≢◌, ◌⊎◌, inl, inr, String, List, [], ◌∷◌, ◌++◌, All,
  length, length-append, Outcome, ok, err, panic, map_err,
}
use vanadium.Accumulator.{HashOutput}
use vanadium.Message.{DeserializationError}
use vanadium.Message.Page.{ProofContinued, deserialize_proof_continued}
use vanadium.Vm.Error.{MemoryError, generic_error}
use vanadium.Paging.Session.{
  Answer, Session, InterruptError, continue, other_instruction, undecodable, received, awaited,
  interrupt, as_str,
}
use vanadium.Paging.Talk.{
  Talk, continue_with, ◌>>=◌, ◌>>◌, check, decoded, ask, feed_rest, feed_all_rest,
}

-- A continued proof that has a hash; what cannot be read as one ends the loop.
abbrev pub HasHash {ℓ} : {E : Type ℓ} → Outcome E ProofContinued → Type 0
HasHash (ok r) = 0 < r.t
HasHash (err e) = Unit
HasHash panic = Unit

abbrev pub BringsHash : Answer → Type 0
BringsHash (continue p1 p2 payload) = HasHash (deserialize_proof_continued payload)
BringsHash other_instruction = Unit
BringsHash undecodable = Unit

-- At most `limit` requests have been sent, and what does not return waits for an answer that the
-- client does not give.
pub record IsShort {ℓ} {A : Type ℓ} (limit : ℕ) (r : Outcome MemoryError A × Session) : Type ℓ where
  pub few : length r.1.sent ≤ limit
  pub waits : (r.0 ≢ panic) ⊎ (r.1.answers ≡ [])

-- A question that is answered takes an answer of the client, and is one more request.
record Asked (s : Session) (payload : List ℕ) (s' : Session) : Type 0 where
  sent : length s'.sent ≡ suc (length s.sent)
  answers : suc (length s'.answers) ≡ length s.answers
  bring : All BringsHash s'.answers
  hash : HasHash (deserialize_proof_continued payload)

parameters_checked :
    (b : Bool) (content payload : List ℕ)
    → HasHash (deserialize_proof_continued content)
    → (if b then ok content else err InterruptError.wrong_parameters) ≡ ok payload
    → HasHash (deserialize_proof_continued payload)
parameters_checked true content payload h e = let same : content ≡ payload = cc in rw (← same) h
parameters_checked false content payload h e = cc

received-HasHash :
    (answer : Answer) (payload : List ℕ)
    → BringsHash answer
    → received answer ≡ ok payload
    → HasHash (deserialize_proof_continued payload)
received-HasHash (continue p1 p2 content) payload h e =
    parameters_checked (p1 == 0 && p2 == 0) content payload h e
received-HasHash other_instruction payload h e = cc
received-HasHash undecodable payload h e = cc

parameters_return :
    (b : Bool) (content : List ℕ)
    → (if b then ok content else err InterruptError.wrong_parameters) ≢ panic
parameters_return true content e = cc
parameters_return false content e = cc

received_returns : (answer : Answer) → received answer ≢ panic
received_returns (continue p1 p2 content) e = parameters_return (p1 == 0 && p2 == 0) content e
received_returns other_instruction e = cc
received_returns undecodable e = cc

length-snoc :
    (sent : List (List ℕ)) (request : List ℕ) → length (sent ++ request ∷ []) ≡ suc (length sent)
length-snoc sent request = omega (arith, length-append sent (request ∷ []))

module _ (request : List ℕ) (s : Session) where
  abbrev text : InterruptError → MemoryError
  text e = generic_error (as_str e)

  abbrev asked : List Answer → Outcome MemoryError (List ℕ) × Session
  asked answers = let (r, s₁) = awaited answers (s.sent ++ request ∷ []) in (map_err text r, s₁)

  map_err_returns : (r : Outcome InterruptError (List ℕ)) → r ≢ panic → map_err text r ≢ panic
  map_err_returns (ok p) h e = cc
  map_err_returns (err x) h e = cc
  map_err_returns panic h e = h refl

  map_err-eq-ok :
      (r : Outcome InterruptError (List ℕ)) (p : List ℕ) → map_err text r ≡ ok p → r ≡ ok p
  map_err-eq-ok (ok q) p e = cc
  map_err-eq-ok (err x) p e = cc
  map_err-eq-ok panic p e = cc

  asked-IsShort : (answers : List Answer) → IsShort (suc (length s.sent)) (asked answers)
  asked-IsShort [] = record { few = omega (arith, length-snoc s.sent request); waits = inr refl }
  asked-IsShort (answer ∷ answers) = record {
    few = omega (arith, length-snoc s.sent request);
    waits = inl (map_err_returns (received answer) (received_returns answer));
  }

  asked-Asked :
      (answers : List Answer) (payload : List ℕ) (s' : Session)
      → All BringsHash answers
      → answers ≡ s.answers
      → asked answers ≡ (ok payload, s')
      → Asked s payload s'
  asked-Asked [] payload s' h same e = cc
  asked-Asked (answer ∷ answers) payload s' h same e =
      let e' = sym (ap (λ p. p.1) e) in
      rw (e') (record {
        sent = length-snoc s.sent request;
        answers = ap length same;
        bring = h.1;
        hash =
            received-HasHash answer payload h.0
              (map_err-eq-ok (received answer) payload (ap (λ p. p.0) e));
      })

  ask-IsShort : IsShort (suc (length s.sent)) (ask request s)
  unfolding ask interrupt
  ask-IsShort = asked-IsShort s.answers

  ask-Asked :
      (payload : List ℕ) (s' : Session)
      → All BringsHash s.answers
      → ask request s ≡ (ok payload, s')
      → Asked s payload s'
  unfolding ask interrupt
  ask-Asked payload s' h e = asked-Asked s.answers payload s' h refl e

continue_with-IsShort {ℓ κ} :
    {A : Type ℓ} {B : Type κ} (few limit : ℕ) (r : Outcome MemoryError A × Session) (f : A → Talk B)
    → few ≤ limit
    → IsShort few r
    → ((a : A) (s : Session) → r ≡ (ok a, s) → IsShort limit (f a s))
    → IsShort limit (continue_with r f)
continue_with-IsShort few limit (ok a, s) f le h g = g a s refl
continue_with-IsShort few limit (err e, s) f le h g = record {
  few = omega (arith, h.few);
  waits = inl (λ e. cc);
}
continue_with-IsShort few limit (panic, s) f le h g = record {
  few = omega (arith, h.few);
  waits = elim h.waits [ inl returns ↦ absurd (returns refl) | inr none_left ↦ inr none_left ];
}

deserialize_returns : (payload : List ℕ) → deserialize_proof_continued payload ≢ panic
unfolding deserialize_proof_continued
deserialize_returns payload e = ground arith

abbrev bad_data : String
bad_data = "Invalid continued proof data"

abbrev bad_size : String
bad_size = "Continued proof size does not match the expected number of elements"

module _ {ℓ} {V : Type ℓ} (feed_each : List HashOutput → V → V) (request : List ℕ) where
  -- What follows an answer: it is read, its size is checked, and the loop goes on.
  abbrev goes_on : ℕ → ℕ → ℕ → V → Outcome DeserializationError ProofContinued → Talk V
  goes_on turns n processed v d = do
    r ← decoded bad_data d
    check (r.t == length r.proof) bad_size
    feed_rest feed_each request turns n (processed + r.t) (feed_each r.proof v)

  goes_on-IsShort :
      (turns n processed limit : ℕ) (v : V) (s : Session)
      (d : Outcome DeserializationError ProofContinued)
      → d ≢ panic
      → HasHash d
      → length s.sent ≤ limit
      → ((t : ℕ) (w : V)
          → 0 < t
          → IsShort limit (feed_rest feed_each request turns n (processed + t) w s))
      → IsShort limit (goes_on turns n processed v d s)
  goes_on-IsShort turns n processed limit v s (ok r) returns h few next =
      by_size (r.t == length r.proof)
    where
      by_size :
          (b : Bool)
          → IsShort limit (
              continue_with
                (check b bad_size s)
                (λ u. feed_rest feed_each request turns n (processed + r.t) (feed_each r.proof v)))
      by_size true = next r.t (feed_each r.proof v) h
      by_size false = record { few = few; waits = inl (λ e. cc) }
  goes_on-IsShort turns n processed limit v s (err x) returns h few next = record {
    few = few;
    waits = inl (λ e. cc);
  }
  goes_on-IsShort turns n processed limit v s panic returns h few next = absurd (returns refl)

  feed_rest-IsShort :
      (turns n processed : ℕ) (v : V) (s : Session)
      → length s.answers < turns
      → All BringsHash s.answers
      → IsShort
          (length s.sent + (n - processed))
          (feed_rest feed_each request turns n processed v s)
  unfolding feed_rest
  feed_rest-IsShort zero n processed v s h bring = absurd (omega arith)
  feed_rest-IsShort (suc turns) n processed v s h bring = elim (Bool-cases (ltb processed n)) [
    | inr e ↦ rw e (record { few = omega arith; waits = inl (λ e. cc) })
    | inl e ↦
        let more = ltb→lt processed n e in
        rw e (
          continue_with-IsShort (suc (length s.sent)) _ (ask request s) _ (omega arith)
            (ask-IsShort request s)
            λ payload s₁ asked.
              let a = ask-Asked request s payload s₁ bring asked in
              goes_on-IsShort turns n processed _ v s₁ (deserialize_proof_continued payload)
                (deserialize_returns payload) a.hash (omega (arith, a.sent))
                λ t w positive.
                  let rest =
                    feed_rest-IsShort turns n (processed + t) w s₁ (omega (arith, a.answers))
                      a.bring in
                  record { few = omega (arith, rest.few, a.sent); waits = rest.waits })
  ]

  -- If every continued proof among the answers of the client brings a hash, the loop that asks for
  -- the rest of a proof sends at most as many requests as hashes are to come, which are the
  -- announced ones less those already fed, and where it does not return, the client has no answer
  -- left.
  pub feed_all_rest-IsShort :
      (n processed : ℕ) (v : V) (s : Session)
      → All BringsHash s.answers
      → IsShort (length s.sent + (n - processed)) (feed_all_rest feed_each request n processed v s)
  unfolding feed_all_rest
  feed_all_rest-IsShort n processed v s bring =
      feed_rest-IsShort (suc (length s.answers)) n processed v s (omega arith) bring
