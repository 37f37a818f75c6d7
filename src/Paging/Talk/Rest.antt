-- ===== src/Paging/Talk/Rest.antt =====
-- What a talk with the client that succeeds has done, and the hashes that the loop of
-- vm/src/handlers/lib/outsourced_mem.rs has fed.
use vanadium.Prelude.{
  ℕ, zero, suc, ◌+◌, ◌==◌, ◌≡◌, refl, sym, ◌∙◌, subst, ltb, Bool, Bool-cases, inl, inr, true, false,
  if◌then◌else◌, String, List, [], ◌∷◌, ◌++◌, length, Option, none, some, Outcome, ok, err, panic,
}
use vanadium.Accumulator.{HashOutput}
use vanadium.Message.Page.{deserialize_proof_continued}
use vanadium.Message.Bytes.{IsProof}
use vanadium.Message.Page.Hashes.{deserialize_proof_continued-IsProof}
use vanadium.Vm.Error.{MemoryError}
use vanadium.Paging.Session.{Session}
use vanadium.Paging.Talk.{
  Talk, continue_with, ◌>>=◌, ◌>>◌, pure, check, assert, expect, decoded, ask, feed_rest,
  feed_all_rest,
}

module _ {ℓ κ} {A : Type ℓ} {B : Type κ} where
  continue_with-eq-ok :
      (r : Outcome MemoryError A × Session) (f : A → Talk B) {b : B} {s' : Session}
      → continue_with r f ≡ (ok b, s')
      → (a : A) × (s₁ : Session) × (r ≡ (ok a, s₁)) × (f a s₁ ≡ (ok b, s'))
  continue_with-eq-ok (ok a, s₁) f e = (a, s₁, refl, e)
  continue_with-eq-ok (err x, s₁) f e = cc
  continue_with-eq-ok (panic, s₁) f e = cc

  pub >>=-eq-ok :
      (m : Talk A) (f : A → Talk B) (s : Session) {b : B} {s' : Session}
      → (m >>= f) s ≡ (ok b, s')
      → (a : A) × (s₁ : Session) × (m s ≡ (ok a, s₁)) × (f a s₁ ≡ (ok b, s'))
  >>=-eq-ok m f s e = continue_with-eq-ok (m s) f e

pub pure-eq-ok {ℓ} :
    {A : Type ℓ} (a : A) {b : A} (s : Session) {s' : Session} → pure a s ≡ (ok b, s') → a ≡ b
pure-eq-ok a s e = cc

pub check-eq-ok {κ} :
    {B : Type κ} (c : Bool) (text : String) (k : Talk B) (s : Session) {b : B} {s' : Session}
    → (check c text >> k) s ≡ (ok b, s')
    → (c ≡ true) × (k s ≡ (ok b, s'))
check-eq-ok true text k s e = (refl, e)
check-eq-ok false text k s e = cc

pub assert-eq-ok {κ} :
    {B : Type κ} (c : Bool) (k : Talk B) (s : Session) {b : B} {s' : Session}
    → (assert c >> k) s ≡ (ok b, s')
    → (c ≡ true) × (k s ≡ (ok b, s'))
assert-eq-ok true k s e = (refl, e)
assert-eq-ok false k s e = cc

pub expect-eq-ok {ℓ κ} :
    {A : Type ℓ} {B : Type κ} (o : Option A) (k : A → Talk B) (s : Session) {b : B} {s' : Session}
    → (expect o >>= k) s ≡ (ok b, s')
    → (a : A) × (o ≡ some a) × (k a s ≡ (ok b, s'))
expect-eq-ok none k s e = cc
expect-eq-ok (some a) k s e = (a, refl, e)

pub decoded-eq-ok {ℓ κ μ} :
    {E : Type μ} {A : Type ℓ} {B : Type κ} (text : String) (r : Outcome E A) (k : A → Talk B)
    (s : Session) {b : B} {s' : Session}
    → (decoded text r >>= k) s ≡ (ok b, s')
    → (a : A) × (r ≡ ok a) × (k a s ≡ (ok b, s'))
decoded-eq-ok text (ok a) k s e = (a, refl, e)
decoded-eq-ok text (err x) k s e = cc
decoded-eq-ok text panic k s e = cc

-- Feeding a list is feeding its hashes one by one.
pub record Feeds {ℓ} {V : Type ℓ} (feed_each : List HashOutput → V → V) : Type ℓ where
  pub nothing : (v : V) → feed_each [] v ≡ v
  pub joined :
      (xs ys : List HashOutput) (v : V) → feed_each (xs ++ ys) v ≡ feed_each ys (feed_each xs v)

pub IsProof-append : (xs ys : List HashOutput) → IsProof xs → IsProof ys → IsProof (xs ++ ys)
IsProof-append [] ys h k = k
IsProof-append (x ∷ xs) ys h k = (h.0, IsProof-append xs ys h.1 k)

module _ {ℓ} {V : Type ℓ} (feed_each : List HashOutput → V → V) (request : List ℕ)
    (feeds : Feeds feed_each) where
  abbrev more_of : ℕ → ℕ → ℕ → V → Talk V
  more_of turns n processed v = do
    payload ← ask request
    r ← decoded "Invalid continued proof data" (deserialize_proof_continued payload)
    check (r.t == length r.proof)
        "Continued proof size does not match the expected number of elements"
    feed_rest feed_each request turns n (processed + r.t) (feed_each r.proof v)

  returned :
      (v v' : V) (s s' : Session)
      → ◌≡◌ {A = Outcome MemoryError V × Session} (ok v, s) (ok v', s')
      → v' ≡ v
  returned v v' s s' e = cc

  -- What the loop returns is the verifier that has been fed the rest of the proof.
  pub feed_rest_lem :
      (turns n processed : ℕ) (v v' : V) (s s' : Session)
      → feed_rest feed_each request turns n processed v s ≡ (ok v', s')
      → (rest : List HashOutput) × IsProof rest × (v' ≡ feed_each rest v)
  unfolding feed_rest
  feed_rest_lem zero n processed v v' s s' e = cc
  feed_rest_lem (suc turns) n processed v v' s s' e = elim (Bool-cases (ltb processed n)) [
    | inl more ↦
        let e0 = subst (λ b. run b ≡ (ok v', s')) more e in
        let (payload, s₁, asked, e1) = >>=-eq-ok (ask request) _ s e0 in
        let (r, read, e2) =
          decoded-eq-ok "Invalid continued proof data" (deserialize_proof_continued payload) _ s₁
            e1 in
        let (counted, e3) = check-eq-ok (r.t == length r.proof) _ _ s₁ e2 in
        let (rest, sizes, fed) =
          feed_rest_lem turns n (processed + r.t) (feed_each r.proof v) v' s₁ s' e3 in
        (
          r.proof ++ rest,
          IsProof-append r.proof rest (deserialize_proof_continued-IsProof payload r read) sizes,
          fed ∙ sym (feeds.joined r.proof rest v),
        )
    | inr done ↦
        let e0 = subst (λ b. run b ≡ (ok v', s')) done e in
        ([], tt, returned v v' s s' e0 ∙ sym (feeds.nothing v))
  ]
    where
      run : Bool → Outcome MemoryError V × Session
      run b = if b then more_of turns n processed v s else (ok v, s)

  pub feed_all_rest_lem :
      (n processed : ℕ) (v v' : V) (s s' : Session)
      → feed_all_rest feed_each request n processed v s ≡ (ok v', s')
      → (rest : List HashOutput) × IsProof rest × (v' ≡ feed_each rest v)
  unfolding feed_all_rest
  feed_all_rest_lem n processed v v' s s' e =
      feed_rest_lem (suc (length s.answers)) n processed v v' s s' e
