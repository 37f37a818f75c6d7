-- ===== src/Accumulator/Sound/Step.antt =====
-- One hash fed to a verifier of common/src/accumulator.rs, on its way to a root `r`.

use vanadium.Prelude.{ℕ, ◌-◌, ◌/◌, ◌<◌, ◌≡◌, ◌==◌, refl, arith}
use vanadium.Prelude.{Bool, false, ==_of_ne, if◌then◌else◌, List, [], ◌∷◌}
use vanadium.Accumulator.{HashOutput, InclusionVerifier, is_same}
use vanadium.Accumulator.{parent_hash, feed, feed_all}

module _ (r : HashOutput) where
  abbrev pub at : HashOutput → ℕ → Bool → InclusionVerifier
  at current pos b = record { current_hash = current; pos = pos; root = r; verified = b }

  abbrev pub next : ℕ → HashOutput → Bool → Bool
  next p hash b = if p == 0 then is_same hash r else b

module _ (digest : List ℕ → HashOutput) (r : HashOutput) where
  -- A verifier that has reached the root refuses every further hash.
  pub at_root_refuses :
      (proof : List HashOutput) (current : HashOutput)
      → (feed_all digest proof (at r current 0 false)).verified ≡ false
  unfolding feed_all feed
  at_root_refuses [] current = refl
  at_root_refuses (el ∷ proof) current = at_root_refuses proof current

  pub feed_at_root :
      (el current : HashOutput) (pos : ℕ) (b : Bool)
      → pos ≡ 0
      → feed digest el (at r current pos b) ≡ at r current 0 false
  unfolding feed
  feed_at_root el current pos b z = rw z refl

  pub feed_below :
      (el current : HashOutput) (pos : ℕ) (b : Bool)
      → 0 < pos
      → let hash = parent_hash digest pos current el in
        feed digest el (at r current pos b)
        ≡ at r hash ((pos - 1) / 2) (next r ((pos - 1) / 2) hash b)
  unfolding feed
  feed_below el current pos b positive = rw (==_of_ne pos 0 (omega arith)) refl
