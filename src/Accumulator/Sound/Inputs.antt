-- ===== src/Accumulator/Sound/Inputs.antt =====
-- Collisions of the hasher of common/src/accumulator.rs.
use vanadium.Prelude.{ℕ, ◌≡◌, ◌≢◌, ◌⊎◌, refl, sym, ap₂, subst, arith}
use vanadium.Prelude.{Bool-cases, true, false, inl, inr, ==→eq, List, [], ◌∷◌, ◌++◌, length}
use vanadium.Accumulator.{HashOutput, is_same}
use vanadium.Accumulator.Complete.{is_same_refl}

pub is_same→eq : (a b : HashOutput) → is_same a b ≡ true → a ≡ b
is_same→eq [] [] h = refl
is_same→eq [] (y ∷ ys) h = cc
is_same→eq (x ∷ xs) [] h = cc
is_same→eq (x ∷ xs) (y ∷ ys) h =
    ap₂ ◌∷◌ (==→eq x y (ground arith)) (is_same→eq xs ys (ground arith))

is_same→ne : (a b : HashOutput) → is_same a b ≡ false → a ≢ b
is_same→ne a b h e =
    let same = subst (λ c. is_same a c ≡ false) (sym e) h in let yes = is_same_refl a in cc

append_cancel :
    (xs xs' ys ys' : List ℕ)
    → length xs ≡ length xs'
    → xs ++ ys ≡ xs' ++ ys'
    → (xs ≡ xs') × (ys ≡ ys')
append_cancel [] [] ys ys' l e = (refl, e)
append_cancel [] (x' ∷ xs') ys ys' l e = absurd (omega arith)
append_cancel (x ∷ xs) [] ys ys' l e = absurd (omega arith)
append_cancel (x ∷ xs) (x' ∷ xs') ys ys' l e =
    let (tails, rest) = append_cancel xs xs' ys ys' (omega arith) (cc) in (ap₂ ◌∷◌ (cc) tails, rest)

-- Two inputs with one hash.
pub Collision : (List ℕ → HashOutput) → Type 0
Collision digest = (x : List ℕ) × (y : List ℕ) × (x ≢ y) × (digest x ≡ digest y)

-- Inputs with one hash are equal, or a collision.
pub same_input :
    (digest : List ℕ → HashOutput) (x y : List ℕ) → digest x ≡ digest y → (x ≡ y) ⊎ Collision digest
unfolding Collision
same_input digest x y e = elim (Bool-cases (is_same x y)) [
  | inl s ↦ inl (is_same→eq x y s)
  | inr s ↦ inr (x, y, is_same→ne x y s, e)
]

pub same_children :
    (digest : List ℕ → HashOutput) (l r l' r' : HashOutput)
    → length l ≡ length l'
    → digest (0x01 ∷ l ++ r) ≡ digest (0x01 ∷ l' ++ r')
    → ((l ≡ l') × (r ≡ r')) ⊎ Collision digest
same_children digest l r l' r' size e =
    elim (same_input digest (0x01 ∷ l ++ r) (0x01 ∷ l' ++ r') e) [
      | inl s ↦ inl (append_cancel l l' r r' size (cc))
      | inr c ↦ inr c
    ]
