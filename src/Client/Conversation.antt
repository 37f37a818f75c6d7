-- ===== src/Client/Conversation.antt =====
-- A proof in parts, from `send_rest` of client-sdk/src/vanadium_client.rs to `feed_rest` of
-- vm/src/handlers/lib/outsourced_mem.rs.
pub mod Sender
pub mod Served
pub mod Loaded
pub mod Load
pub mod Stored
pub mod Accepted
pub mod Commit
use vanadium.Prelude.{
  ℕ, zero, suc, ◌+◌, ◌-◌, ◌<◌, ◌≤◌, ◌≡◌, ◌==◌, refl, sym, ap, ap₂, ◌∙◌, subst, ==_refl, arith, leb,
  ltb, min, Bool, true, false, Bool-cases, inl, inr,
}
use vanadium.Prelude.{
  List, [], ◌∷◌, ◌++◌, map, append_assoc, append-nil, length, length-take, length-drop,
  take-append-drop, take, drop, replicate, Outcome, ok,
}
use vanadium.Word.{u8}
use vanadium.Accumulator.{HashOutput}
use vanadium.Message.{ClientCommandCode}
use vanadium.Message.Bytes.{IsProof}
use vanadium.Message.Page.{ProofContinued, serialize_proof_continued, deserialize_proof_continued}
use vanadium.Message.Page.RoundTrip.{deserialize_proof_continued-serialize_proof_continued}
use vanadium.Vm.Error.{MemoryError}
use vanadium.Paging.Session.{Session, Answer, continue, interrupt}
use vanadium.Paging.Talk.{Talk, ask, feed_rest, feed_all_rest}
use vanadium.Paging.Talk.Rest.{Feeds}

-- How many hashes the next message takes.
abbrev pub part_size : List HashOutput → ℕ
part_size rest = min (length rest) 18

abbrev pub part : List HashOutput → ProofContinued
part rest = record { t = u8 (part_size rest); proof = take (part_size rest) rest }

-- The messages that bring the rest of a proof.
pub parts : ℕ → List HashOutput → List (List ℕ)
parts turns [] = []
parts zero (p ∷ proof) = []
parts (suc turns) (p ∷ proof) =
    serialize_proof_continued (part (p ∷ proof))
    ∷ parts turns (drop (part_size (p ∷ proof)) (p ∷ proof))

pub take-IsProof : (n : ℕ) (proof : List HashOutput) → IsProof proof → IsProof (take n proof)
take-IsProof zero proof h = tt
take-IsProof (suc n) [] h = tt
take-IsProof (suc n) (p ∷ proof) h = (h.0, take-IsProof n proof h.1)

pub drop-IsProof : (n : ℕ) (proof : List HashOutput) → IsProof proof → IsProof (drop n proof)
drop-IsProof zero proof h = h
drop-IsProof (suc n) [] h = tt
drop-IsProof (suc n) (p ∷ proof) h = drop-IsProof n proof h.1

pub part_counted :
    (rest : List HashOutput) → u8 (part_size rest) ≡ length (take (part_size rest) rest)
part_counted rest = omega (arith, length-take (part_size rest) rest)

abbrev pub answered : List (List ℕ) → List Answer
answered messages = map (continue 0 0) messages

module _ {ℓ} {V : Type ℓ} (feed_each : List HashOutput → V → V) (request : List ℕ)
    (feeds : Feeds feed_each) where
  -- What the loop of the VM makes of the messages: it feeds the rest of the proof, takes the answers,
  -- and has asked for each.
  pub feed_rest-parts :
      (turns fuel n processed : ℕ) (rest : List HashOutput) (v : V) (more : List Answer)
      (sent : List (List ℕ))
      → length rest ≤ turns
      → length (parts turns rest) < fuel
      → processed + length rest ≡ n
      → IsProof rest
      → feed_rest feed_each request fuel n processed v
          (record { answers = answered (parts turns rest) ++ more; sent = sent })
        ≡ (
          ok (feed_each rest v),
          record { answers = more; sent = sent ++ replicate (length (parts turns rest)) request },
        )
  unfolding feed_rest parts ask interrupt
  feed_rest-parts turns zero n processed rest v more sent h l e sizes = absurd (omega arith)
  feed_rest-parts turns (suc fuel) n processed [] v more sent h l e sizes =
      let none_left : ltb processed n ≡ false = ground arith in
      rw (none_left, feeds.nothing v, append-nil sent) refl
  feed_rest-parts zero (suc fuel) n processed (p ∷ proof) v more sent h l e sizes =
      absurd (omega arith)
  feed_rest-parts (suc turns) (suc fuel) n processed (p ∷ proof) v more sent h l e sizes =
      let rest = p ∷ proof in
      let k = part_size rest in
      let some_left : ltb processed n ≡ true = ground arith in
      let read =
        deserialize_proof_continued-serialize_proof_continued (part rest)
          (take-IsProof k rest sizes) in
      let counted : (u8 k == length (take k rest)) ≡ true =
        subst (λ j. (u8 k == j) ≡ true) (part_counted rest) (==_refl (u8 k)) in
      let size = length-drop k rest in
      let taken = length-take k rest in
      let whole =
        sym (feeds.joined (take k rest) (drop k rest) v)
        ∙ ap (λ r. feed_each r v) (take-append-drop k rest) in
      let asked =
        append_assoc sent (request ∷ []) (replicate (length (parts turns (drop k rest))) request) in
      rw (some_left, read, counted)
        (feed_rest-parts turns fuel n (processed + u8 k) (drop k rest) (feed_each (take k rest) v)
            more (sent ++ request ∷ []) (omega arith) (omega arith)
            (omega (arith, part_counted rest)) (drop-IsProof k rest sizes)
          ∙ ap₂ (λ w r. (ok w, record { answers = more; sent = r })) whole asked)
