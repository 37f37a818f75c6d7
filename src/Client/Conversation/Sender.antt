-- ===== src/Client/Conversation/Sender.antt =====
-- A proof in parts, as `send_rest` of client-sdk/src/vanadium_client.rs sends it while it is asked for
-- more.
use vanadium.Prelude.{ℕ, zero, suc, ◌≤◌, ◌≡◌, refl, sym, ap, ◌∙◌, subst, arith, leb, true, false}
use vanadium.Prelude.{
  List, [], ◌∷◌, ◌++◌, map, append_assoc, length, length-drop, drop, replicate, Outcome, ok,
}
use vanadium.Accumulator.{HashOutput}
use vanadium.Message.{ClientCommandCode, deserialize_code}
use vanadium.Message.Page.{serialize_proof_continued}
use vanadium.Client.Engine.{StatusWord, Reply, VAppEngine, exchange}
use vanadium.Client.Serve.{send_rest}
use vanadium.Client.Conversation.{part_size, part, parts}

no_elements : (xs : List HashOutput) → length xs ≡ 0 → xs ≡ []
no_elements [] h = refl
no_elements (x ∷ xs) h = absurd (omega arith)

module _ {E : Type 0} where
  abbrev pub asking : List ℕ → Outcome E Reply
  asking request = ok (StatusWord.interrupted_execution, request)

  -- The VM asks for more `n` times, and then goes on.
  abbrev pub asks_then : List ℕ → ℕ → Reply → List (Outcome E Reply) → List (Outcome E Reply)
  asks_then request n final more = map asking (replicate n request) ++ ok final ∷ more

  abbrev pub linked : VAppEngine E → List (Outcome E Reply) → List (List ℕ) → VAppEngine E
  linked e replies sent = record e { transport = record { replies = replies; sent = sent } }

module _ (E : Type 0) (expected code : ClientCommandCode) (request : List ℕ)
    (known : deserialize_code expected request ≡ ok code) where
  -- What `send_rest` sends for a proof of which `rest` is left after the first part.
  abbrev IsSentWith : ℕ → HashOutput → List HashOutput → List HashOutput → Type 0
  IsSentWith turns p proof rest =
      (reply final : Reply) (e : VAppEngine E) (more : List (Outcome E Reply))
      (sent : List (List ℕ))
      → send_rest expected (suc turns) (p ∷ proof) reply
          (linked e (asks_then request (length (parts turns rest)) final more) sent)
        ≡ (
          ok final,
          linked e more (sent ++ serialize_proof_continued (part (p ∷ proof)) ∷ parts turns rest),
        )

  abbrev pub IsSent : ℕ → Type 0
  IsSent turns =
      (p : HashOutput) (proof : List HashOutput)
      → length (p ∷ proof) ≤ suc turns
      → IsSentWith turns p proof (drop (part_size (p ∷ proof)) (p ∷ proof))

  last_part :
      (turns : ℕ) (p : HashOutput) (proof : List HashOutput)
      → drop (part_size (p ∷ proof)) (p ∷ proof) ≡ []
      → IsSentWith turns p proof []
  unfolding send_rest parts exchange
  last_part turns p proof q reply final e more sent =
      let gone = ap length q in
      let size = length-drop (part_size (p ∷ proof)) (p ∷ proof) in
      let done : leb (suc (length proof)) (part_size (p ∷ proof)) ≡ true = ground arith in
      rw done refl

  next_part :
      (turns : ℕ) (p : HashOutput) (proof : List HashOutput) (r : HashOutput)
      (rest : List HashOutput)
      → IsSent turns
      → length (p ∷ proof) ≤ suc (suc turns)
      → drop (part_size (p ∷ proof)) (p ∷ proof) ≡ r ∷ rest
      → IsSentWith (suc turns) p proof (r ∷ rest)
  unfolding send_rest parts exchange
  next_part turns p proof r rest again h q reply final e more sent =
      let left = ap length q in
      let size = length-drop (part_size (p ∷ proof)) (p ∷ proof) in
      let not_done : leb (suc (length proof)) (part_size (p ∷ proof)) ≡ false = ground arith in
      let message = serialize_proof_continued (part (p ∷ proof)) in
      rw (not_done, q, known)
        (again r rest (omega arith) (StatusWord.interrupted_execution, request) final e more
            (sent ++ message ∷ [])
          ∙ ap (λ l. (ok final, linked e more l)) (append_assoc sent (message ∷ []) _))

  -- The messages that `send_rest` sends are the parts, while the VM asks for more after each but the
  -- last.
  pub send_rest-parts : (turns : ℕ) → IsSent turns
  send_rest-parts zero p proof h =
      subst (IsSentWith zero p proof) (sym (gone h)) (last_part zero p proof (gone h))
    where
      gone :
          length (p ∷ proof) ≤ 1
          → ◌≡◌ {A = List HashOutput} (drop (part_size (p ∷ proof)) (p ∷ proof)) []
      gone h =
          no_elements (drop (part_size (p ∷ proof)) (p ∷ proof))
            (omega (arith, length-drop (part_size (p ∷ proof)) (p ∷ proof)))
  send_rest-parts (suc turns) p proof h =
      by_rest (send_rest-parts turns) (drop (part_size (p ∷ proof)) (p ∷ proof)) refl
    where
      by_rest :
          IsSent turns
          → (rest : List HashOutput) → drop (part_size (p ∷ proof)) (p ∷ proof) ≡ rest
          → IsSentWith (suc turns) p proof rest
      by_rest again [] q = last_part (suc turns) p proof q
      by_rest again (r ∷ rest) q = next_part turns p proof r rest again h q
