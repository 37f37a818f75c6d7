-- ===== src/Accumulator/RootComputer.antt =====
-- The root of a Merkle tree from a stream of leaf hashes: `MerkleAccumulatorRootComputer` of
-- common/src/accumulator.rs.
use vanadium.Prelude.{
  ℕ, zero, suc, ◌+◌, ◌/◌, ◌%◌, ◌==◌, leb, not, if◌then◌else◌, List, [], ◌∷◌, Outcome, ok, panic,
  and_then,
}
use vanadium.Accumulator.{HashOutput, hash_internal_node, has_valid_leaf_count}

-- The stack of hashes has its top first.
pub record RootComputer : Type 0 where
  pub n : ℕ
  pub cur_size : ℕ
  pub hashes : List HashOutput

-- The trailing zeros among the low `bits` of a number.
pub trailing_zeros : ℕ → ℕ → ℕ
trailing_zeros zero x = 0
trailing_zeros (suc bits) x =
    let rest = trailing_zeros bits (x / 2) in if x % 2 == 0 then suc rest else 0

pub new : ℕ → Outcome (Unit {0}) RootComputer
new n = if has_valid_leaf_count n then ok (record { n = n; cur_size = 0; hashes = [] }) else panic

-- `self.hashes[0]`
abbrev pub bottom : List HashOutput → Outcome (Unit {0}) HashOutput
bottom [] = panic
bottom (h ∷ []) = ok h
bottom (h ∷ k ∷ hs) = bottom (k ∷ hs)

pub root : RootComputer → Outcome (Unit {0}) HashOutput
root c = if not (c.cur_size == c.n) then panic else bottom c.hashes

module _ (digest : List ℕ → HashOutput) where
  -- `for _ in 0..d`: the two hashes on top give way to the hash of their parent.
  pub combine : ℕ → List HashOutput → Outcome (Unit {0}) (List HashOutput)
  combine zero hashes = ok hashes
  combine (suc d) [] = panic
  combine (suc d) (right ∷ []) = panic
  combine (suc d) (right ∷ left ∷ hashes) =
      combine d (hash_internal_node digest left right ∷ hashes)

  pub feed : HashOutput → RootComputer → Outcome (Unit {0}) RootComputer
  feed leaf_hash c =
      if leb c.n c.cur_size
      then panic
      else (let cur_size = c.cur_size + 1 in
          and_then (combine (trailing_zeros 32 cur_size) (leaf_hash ∷ c.hashes))
            λ hashes. ok (record { n = c.n; cur_size = cur_size; hashes = hashes }))
