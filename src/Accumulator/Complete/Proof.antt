-- ===== src/Accumulator/Complete/Proof.antt =====
-- The proofs of common/src/accumulator.rs: how many hashes they have, and of what size.
use vanadium.Prelude.{
  ℕ, zero, suc, ◌+◌, ◌-◌, ◌*◌, ◌/◌, ◌%◌, ◌^◌, ◌<◌, ◌≤◌, ◌≡◌, ◌==◌, arith, Bool-cases, inl, inr,
}
use vanadium.Prelude.{List, length, All}
use vanadium.Accumulator.{HashOutput, MerkleAccumulator, sibling, siblings}
use vanadium.Prelude.{==_of_ne}
use vanadium.Accumulator.{root}
use vanadium.Accumulator.Tree.{IsTree}
use vanadium.Accumulator.Sound.Path.{node_size}

pub length-siblings :
    (k turns pos : ℕ) (tree : List HashOutput) → pos < 2 ^ k → length (siblings turns tree pos) ≤ k
unfolding siblings
length-siblings k zero pos tree h = omega arith
length-siblings zero (suc turns) pos tree h = let z : pos ≡ 0 = omega arith in rw z (omega arith)
length-siblings (suc k) (suc turns) pos tree h = elim (Bool-cases (pos == 0)) [
  | inl e ↦ rw e (omega arith)
  | inr e ↦
      let less = length-siblings k turns ((pos - 1) / 2) tree (omega arith) in rw e (omega arith)
]

pub siblings-nonempty :
    (turns pos : ℕ) (tree : List HashOutput)
    → 0 < pos
    → pos ≤ turns
    → 0 < length (siblings turns tree pos)
unfolding siblings
siblings-nonempty zero pos tree positive h = absurd (omega arith)
siblings-nonempty (suc turns) pos tree positive h = rw (==_of_ne pos 0 (omega arith)) (omega arith)

module _ (digest : List ℕ → HashOutput) (w : ℕ) (digest_size : (x : List ℕ) → length (digest x) ≡ w)
    (ma : MerkleAccumulator) (tree : IsTree digest ma) where
  sibling-size :
      (pos : ℕ) → 0 < pos → pos < 2 * length ma.elements - 1 → length (sibling ma.tree pos) ≡ w
  sibling-size pos positive h = elim (Bool-cases (pos % 2 == 0)) [
    | inl e ↦ rw e (node_size digest w digest_size ma tree (pos - 1) (omega arith))
    | inr e ↦ rw e (node_size digest w digest_size ma tree (pos + 1) (ground arith))
  ]

  pub siblings-sizes :
      (turns pos : ℕ)
      → pos < 2 * length ma.elements - 1
      → All (λ el. length el ≡ w) (siblings turns ma.tree pos)
  unfolding siblings
  siblings-sizes zero pos h = tt
  siblings-sizes (suc turns) pos h = elim (Bool-cases (pos == 0)) [
    | inl e ↦ rw e tt
    | inr e ↦
        let positive : 0 < pos = ground arith in
        rw e (sibling-size pos positive h, siblings-sizes turns ((pos - 1) / 2) (omega arith))
  ]

  pub root-size : length (root ma) ≡ w
  unfolding root
  root-size = node_size digest w digest_size ma tree 0 (omega (arith, tree.not_empty))
