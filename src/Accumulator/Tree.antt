-- ===== src/Accumulator/Tree.antt =====
-- The tree of hashes of an accumulator of common/src/accumulator.rs, and `new`.
use vanadium.Prelude.{
  ℕ, zero, suc, ◌+◌, ◌-◌, ◌*◌, ◌<◌, ◌≤◌, ◌≡◌, ◌==◌, refl, ◌∙◌, ap, arith, List, [], ◌++◌, map,
}
use vanadium.Prelude.{
  length, set, take, replicate, length-set, get_or-set_self, get_or-set_ne, length-replicate,
}
use vanadium.Prelude.{
  ok, Bool-cases, inl, inr, length-append, length-map, length-take, get_or-append, get_or-map,
}
use vanadium.Prelude.{==→eq, true, subst, sym, ap₂}
use vanadium.Accumulator.{
  HashOutput, MerkleAccumulator, node, element, hash_leaf, hash_internal_node,
}
use vanadium.Accumulator.{hash_nodes, build_tree, new, has_valid_leaf_count}

module _ (digest : List ℕ → HashOutput) where
  -- The inner node `i` is the hash of its children.
  abbrev pub IsHashed : List HashOutput → ℕ → Type 0
  IsHashed tree i =
      node tree i ≡ hash_internal_node digest (node tree (2 * i + 1)) (node tree (2 * i + 2))

  pub record IsTree (ma : MerkleAccumulator) : Type 0 where
    pub not_empty : 0 < length ma.elements
    pub tree_size : length ma.tree ≡ 2 * length ma.elements - 1
    pub leaves :
        (j : ℕ)
        → j < length ma.elements
        → node ma.tree (length ma.elements - 1 + j) ≡ hash_leaf digest (element ma.elements j)
    pub inner : (i : ℕ) → i < length ma.elements - 1 → IsHashed ma.tree i

  -- What the loop of `build_tree` does: it hashes the first `k` nodes and leaves the others.
  pub record HashesNodes (k : ℕ) (tree t : List HashOutput) : Type 0 where
    pub same_size : length t ≡ length tree
    pub rest : (j : ℕ) → k ≤ j → node t j ≡ node tree j
    pub hashed : (i : ℕ) → i < k → IsHashed t i

  hash_nodes_lem :
      (k : ℕ) (tree : List HashOutput)
      → k ≤ length tree
      → HashesNodes k tree (hash_nodes digest k tree)
  unfolding hash_nodes
  hash_nodes_lem zero tree h = record {
    same_size = refl;
    rest = λ j l. refl;
    hashed = λ i l. absurd (omega arith);
  }
  hash_nodes_lem (suc k) tree h =
      let v = hash_internal_node digest (node tree (2 * k + 1)) (node tree (2 * k + 2)) in
      let r = hash_nodes_lem k (set tree k v) (omega (arith, length-set tree k v)) in
      let kept : (j : ℕ) → suc k ≤ j → node (hash_nodes digest k (set tree k v)) j ≡ node tree j =
        λ j l. r.rest j (omega arith) ∙ get_or-set_ne tree k j v [] (omega arith) in
      let last : IsHashed (hash_nodes digest k (set tree k v)) k =
        r.rest k (omega arith)
        ∙ get_or-set_self tree k v [] (omega arith)
        ∙ ap₂ (hash_internal_node digest) (sym (kept (2 * k + 1) (omega arith)))
            (sym (kept (2 * k + 2) (omega arith))) in
      record {
        same_size = r.same_size ∙ length-set tree k v;
        rest = kept;
        hashed = λ i l. elim (Bool-cases (i == k)) [
          | inl e ↦ subst (IsHashed (hash_nodes digest k (set tree k v))) (sym (==→eq i k e)) last
          | inr e ↦ r.hashed i (ground arith)
        ];
      }

  -- The tree before its inner nodes are hashed.
  module _ (output_size : ℕ) (elements : List (List ℕ)) (h : 0 < length elements) where
    abbrev zeros : List HashOutput
    zeros =
        take (length elements - 1) (replicate (2 * length elements - 1) (replicate output_size 0))

    abbrev unhashed : List HashOutput
    unhashed = zeros ++ map (hash_leaf digest) elements

    length-zeros : length zeros ≡ length elements - 1
    length-zeros = omega (
      arith,
      length-take (length elements - 1)
          (replicate {A = HashOutput} (2 * length elements - 1) (replicate {A = ℕ} output_size 0)),
      length-replicate {A = HashOutput} (2 * length elements - 1) (replicate {A = ℕ} output_size 0),
    )

    length-unhashed : length unhashed ≡ 2 * length elements - 1
    length-unhashed = omega (
      arith,
      length-zeros,
      length-append zeros (map (hash_leaf digest) elements),
      length-map (hash_leaf digest) elements,
    )

    unhashed_leaf :
        (j : ℕ)
        → j < length elements
        → node unhashed (length elements - 1 + j) ≡ hash_leaf digest (element elements j)
    unhashed_leaf j l =
        ap (λ n. node unhashed (n + j)) (sym length-zeros)
        ∙ get_or-append zeros (map (hash_leaf digest) elements) j []
        ∙ get_or-map (hash_leaf digest) elements j [] [] l

    pub build_tree-IsTree :
        IsTree (record { elements = elements; tree = build_tree digest output_size elements })
    unfolding build_tree
    build_tree-IsTree =
        let r = hash_nodes_lem (length elements - 1) unhashed (omega (arith, length-unhashed)) in
        record {
          not_empty = h;
          tree_size = r.same_size ∙ length-unhashed;
          leaves = λ j l. r.rest (length elements - 1 + j) (omega arith) ∙ unhashed_leaf j l;
          inner = r.hashed;
        }

  positive_count : (n : ℕ) → has_valid_leaf_count n ≡ true → 0 < n
  unfolding has_valid_leaf_count
  positive_count n e = ground arith

  -- For a number of elements that is a power of two, new returns a well-formed accumulator of these
  -- elements.
  pub new-IsTree :
      (output_size : ℕ) (elements : List (List ℕ))
      → has_valid_leaf_count (length elements) ≡ true
      → (ma : MerkleAccumulator) × (new digest output_size elements ≡ ok ma)
        × IsTree ma
        × (ma.elements ≡ elements)
  unfolding new
  new-IsTree output_size elements e =
      let positive = positive_count (length elements) e in
      let ma : MerkleAccumulator = record {
        elements = elements;
        tree = build_tree digest output_size elements;
      } in
      (ma, rw e refl, build_tree-IsTree output_size elements positive, refl)
