-- ===== src/Accumulator.antt =====
-- The Merkle accumulator of common/src/accumulator.rs. The hasher is a parameter: what it makes of
-- the bytes that it has been fed. A `usize` of the verifier has 32 bits, as on the devices.
pub mod Tree
pub mod Update
pub mod Complete
pub mod Sound
mod Examples
pub mod RootComputer
pub mod Feeding
use vanadium.Prelude.{
  ℕ, zero, suc, ◌+◌, ◌-◌, ◌*◌, ◌/◌, ◌%◌, ◌==◌, leb, ltb, ◌&&◌, Bool, true, false,
}
use vanadium.Prelude.{
  if◌then◌else◌, bit_and, List, [], ◌∷◌, ◌++◌, map, length, get_elem?, get_or, set, take,
}
use vanadium.Prelude.{replicate, Option, Outcome, ok, err, panic}
use vanadium.Word.{wrapping_add, wrapping_sub}

pub data AccumulatorError : Type 0 where
  index_out_of_bounds : AccumulatorError

-- `HashOutput`: the bytes of a hash.
abbrev pub HashOutput : Type 0
HashOutput = List ℕ

abbrev pub is_same : HashOutput → HashOutput → Bool
is_same [] [] = true
is_same [] (y ∷ ys) = false
is_same (x ∷ xs) [] = false
is_same (x ∷ xs) (y ∷ ys) = x == y && is_same xs ys

-- `MerkleInclusionProofVerifier`
pub record InclusionVerifier : Type 0 where
  pub current_hash : HashOutput
  pub pos : ℕ
  pub root : HashOutput
  pub verified : Bool

-- `MerkleUpdateProofVerifier`
pub record UpdateVerifier : Type 0 where
  pub old_verifier : InclusionVerifier
  pub new_verifier : InclusionVerifier

pub update_verified : UpdateVerifier → Bool
update_verified v = v.new_verifier.verified && v.old_verifier.verified

unfoldable pub begin_inclusion_proof : HashOutput → HashOutput → ℕ → ℕ → InclusionVerifier
begin_inclusion_proof root value_hash index size = record {
  current_hash = value_hash;
  pos = wrapping_add (wrapping_sub size 1) index;
  root = root;
  verified = size == 1 && is_same value_hash root;
}

pub begin_update_proof : HashOutput → HashOutput → HashOutput → HashOutput → ℕ → ℕ → UpdateVerifier
begin_update_proof old_root new_root old_value_hash new_value_hash index size = record {
  old_verifier = begin_inclusion_proof old_root old_value_hash index size;
  new_verifier = begin_inclusion_proof new_root new_value_hash index size;
}

-- `size > 0 && size.is_power_of_two()`
pub has_valid_leaf_count : ℕ → Bool
has_valid_leaf_count size = ltb 0 size && bit_and size (size - 1) == 0

-- `MerkleAccumulator`; an element is the bytes that it stands for.
pub record MerkleAccumulator : Type 0 where
  pub elements : List (List ℕ)
  pub tree : List HashOutput

-- `tree[i]`: the index is within the tree wherever the code indexes it.
abbrev pub node : List HashOutput → ℕ → HashOutput
node tree i = get_or tree i []

abbrev pub element : List (List ℕ) → ℕ → List ℕ
element xs i = get_or xs i []

unfoldable pub get : MerkleAccumulator → ℕ → Option (List ℕ)
get ma index = get_elem? ma.elements index

pub size : MerkleAccumulator → ℕ
size ma = length ma.elements

unfoldable pub root : MerkleAccumulator → HashOutput
root ma = node ma.tree 0

abbrev pub sibling : List HashOutput → ℕ → HashOutput
sibling tree pos = if pos % 2 == 0 then node tree (pos - 1) else node tree (pos + 1)

-- The loop of `prove`. Each turn at least halves the position, so that as many turns are enough as
-- the position counts.
pub siblings : ℕ → List HashOutput → ℕ → List HashOutput
siblings zero tree pos = []
siblings (suc turns) tree pos =
    let rest = siblings turns tree ((pos - 1) / 2) in
    if pos == 0 then [] else sibling tree pos ∷ rest

unfoldable pub prove : MerkleAccumulator → ℕ → Outcome AccumulatorError (List HashOutput)
prove ma index =
    if leb (length ma.elements) index
    then err index_out_of_bounds
    else (let pos = length ma.elements - 1 + index in ok (siblings pos ma.tree pos))

-- `digest` is what the hasher gives for the bytes it was fed since it was made or reset.
module _ (digest : List ℕ → HashOutput) where
  unfoldable pub hash_leaf : List ℕ → HashOutput
  hash_leaf bytes = digest (0x00 ∷ bytes)

  unfoldable pub hash_internal_node : HashOutput → HashOutput → HashOutput
  hash_internal_node left right = digest (0x01 ∷ left ++ right)

  unfoldable pub hash_element : List ℕ → HashOutput
  hash_element = hash_leaf

  -- The hash of the parent of a node, from the hash of its sibling.
  abbrev pub parent_hash : ℕ → HashOutput → HashOutput → HashOutput
  parent_hash pos current_hash sibling_hash =
      if pos % 2 == 0
      then digest (0x01 ∷ sibling_hash ++ current_hash)
      else digest (0x01 ∷ current_hash ++ sibling_hash)

  unfoldable pub feed : HashOutput → InclusionVerifier → InclusionVerifier
  feed sibling_hash v =
      if v.pos == 0
      then record v { verified = false }
      else (let current = parent_hash v.pos v.current_hash sibling_hash in
          let pos = (v.pos - 1) / 2 in
          record v {
            current_hash = current;
            pos = pos;
            verified = if pos == 0 then is_same current v.root else v.verified;
          })

  unfoldable pub feed_all : List HashOutput → InclusionVerifier → InclusionVerifier
  feed_all [] v = v
  feed_all (el ∷ proof) v = feed_all proof (feed el v)

  pub verify_inclusion_proof : HashOutput → List HashOutput → HashOutput → ℕ → ℕ → Bool
  verify_inclusion_proof root proof value_hash index size =
      (feed_all proof (begin_inclusion_proof root value_hash index size)).verified

  pub feed_update : HashOutput → UpdateVerifier → UpdateVerifier
  feed_update sibling_hash v = record {
    old_verifier = feed sibling_hash v.old_verifier;
    new_verifier = feed sibling_hash v.new_verifier;
  }

  pub feed_all_update : List HashOutput → UpdateVerifier → UpdateVerifier
  feed_all_update [] v = v
  feed_all_update (el ∷ proof) v = feed_all_update proof (feed_update el v)

  pub verify_update_proof :
      HashOutput → HashOutput → List HashOutput → HashOutput → HashOutput → ℕ → ℕ → Bool
  verify_update_proof old_root new_root update_proof old_value_hash new_value_hash index size =
      update_verified (
        feed_all_update update_proof
          (begin_update_proof old_root new_root old_value_hash new_value_hash index size))

  -- `for i in (0..k).rev()`: the inner nodes from the last to the first.
  unfoldable pub hash_nodes : ℕ → List HashOutput → List HashOutput
  hash_nodes zero tree = tree
  hash_nodes (suc i) tree =
      hash_nodes i (set tree i (hash_internal_node (node tree (2 * i + 1)) (node tree (2 * i + 2))))

  -- The tree of `2 n - 1` hashes: zeros, with the leaves copied to the end.
  unfoldable pub build_tree : ℕ → List (List ℕ) → List HashOutput
  build_tree output_size elements =
      let n = length elements in
      let zeros = replicate (2 * n - 1) (replicate output_size 0) in
      hash_nodes (n - 1) (take (n - 1) zeros ++ map hash_leaf elements)

  pub new : ℕ → List (List ℕ) → Outcome AccumulatorError MerkleAccumulator
  new output_size elements =
      if has_valid_leaf_count (length elements)
      then ok (record { elements = elements; tree = build_tree output_size elements })
      else panic

  -- The loop of `update`, from a position up to the root.
  pub rehash : ℕ → List HashOutput → ℕ → List HashOutput
  rehash zero tree pos = tree
  rehash (suc turns) tree pos =
      let parent = (pos - 1) / 2 in
      let rest =
        rehash turns
          (set tree parent
            (hash_internal_node (node tree (2 * parent + 1)) (node tree (2 * parent + 2))))
          parent in
      if pos == 0 then tree else rest

  abbrev pub updated : MerkleAccumulator → ℕ → List ℕ → MerkleAccumulator
  updated ma index value =
      let pos = length ma.elements - 1 + index in
      record {
        elements = set ma.elements index value;
        tree = rehash pos (set ma.tree pos (hash_leaf value)) pos;
      }

  -- The proof from before the update, and the root after it.
  pub update :
      ℕ
      → List ℕ
      → MerkleAccumulator
      → Outcome AccumulatorError (List HashOutput × HashOutput) × MerkleAccumulator
  update index value ma =
      if leb (length ma.elements) index
      then (err index_out_of_bounds, ma)
      else elim (prove ma index) [
        | ok merkle_proof ↦
            (ok (merkle_proof, root (updated ma index value)), updated ma index value)
        | err e ↦ (err e, ma)
        | panic ↦ (panic, ma)
      ]
