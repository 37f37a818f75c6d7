-- ===== src/Accumulator/Update.antt =====
-- `update` of common/src/accumulator.rs and the tree.
pub mod Siblings
use vanadium.Prelude.{
  ℕ, zero, suc, ◌+◌, ◌-◌, ◌*◌, ◌/◌, ◌%◌, ◌<◌, ◌≤◌, ◌≡◌, ◌≢◌, ◌==◌, refl, sym, ap, ap₂, ◌∙◌, subst,
  arith,
}
use vanadium.Prelude.{Bool-cases, inl, inr, ==→eq, List, [], ◌∷◌, length, set, leb}
use vanadium.Prelude.{length-set, get_or-set_self, get_or-set_ne, ◌⊎◌}
use vanadium.Accumulator.{HashOutput, MerkleAccumulator, node, element}
use vanadium.Accumulator.{
  hash_leaf, hash_internal_node, sibling, siblings, rehash, prove, update, updated,
}
use vanadium.Accumulator.Tree.{IsHashed, IsTree}

module _ (digest : List ℕ → HashOutput) where
  -- Below a node that is being hashed again every node is the hash of its children, but for its parent.
  pub record IsHashedBut (n pos : ℕ) (tree : List HashOutput) : Type 0 where
    pub tree_size : length tree ≡ 2 * n - 1
    pub in_tree : pos < 2 * n - 1
    pub others : (i : ℕ) → i < n - 1 → (pos ≡ 0) ⊎ (i ≢ (pos - 1) / 2) → IsHashed digest tree i

  pub record Rehashes (n pos : ℕ) (tree t : List HashOutput) : Type 0 where
    pub same_size : length t ≡ length tree
    pub kept : (j : ℕ) → pos ≤ 2 * j → node t j ≡ node tree j
    pub hashed : (i : ℕ) → i < n - 1 → IsHashed digest t i

  module _ (n pos : ℕ) (tree : List HashOutput) (h : IsHashedBut n pos tree)
      (not_root : 0 < pos) where
    abbrev parent : ℕ
    parent = (pos - 1) / 2

    abbrev parent_tree : List HashOutput
    parent_tree =
        set tree parent
          (hash_internal_node digest (node tree (2 * parent + 1)) (node tree (2 * parent + 2)))

    kept_node : (j : ℕ) → j ≢ parent → node parent_tree j ≡ node tree j
    kept_node j ne = get_or-set_ne tree parent j _ [] (λ e. ne (sym e))

    IsHashed-kept :
        (i : ℕ)
        → IsHashed digest tree i
        → i ≢ parent
        → 2 * i + 1 ≢ parent
        → 2 * i + 2 ≢ parent
        → IsHashed digest parent_tree i
    IsHashed-kept i hashed here left right =
        kept_node i here
        ∙ hashed
        ∙ ap₂ (hash_internal_node digest) (sym (kept_node (2 * i + 1) left))
            (sym (kept_node (2 * i + 2) right))

    IsHashed-parent : IsHashed digest parent_tree parent
    IsHashed-parent =
        get_or-set_self tree parent _ [] (omega (arith, h.tree_size, h.in_tree))
        ∙ ap₂ (hash_internal_node digest) (sym (kept_node (2 * parent + 1) (omega arith)))
            (sym (kept_node (2 * parent + 2) (omega arith)))

    not_above :
        (i : ℕ)
        → (parent ≡ 0) ⊎ (i ≢ (parent - 1) / 2)
        → (2 * i + 1 ≢ parent) × (2 * i + 2 ≢ parent)
    not_above i c = (omega arith, omega arith)

    parent_tree-IsHashedBut : IsHashedBut n parent parent_tree
    parent_tree-IsHashedBut = record {
      tree_size = length-set tree parent _ ∙ h.tree_size;
      in_tree = omega (arith, h.in_tree);
      others = λ i l c. elim (Bool-cases (i == parent)) [
        | inl e ↦ subst (IsHashed digest parent_tree) (sym (==→eq i parent e)) IsHashed-parent
        | inr e ↦
            let other : i ≢ parent = ground arith in
            let (left, right) = not_above i c in
            IsHashed-kept i (h.others i l (inr other)) other left right
      ];
    }

  rehash_lem :
      (turns n pos : ℕ) (tree : List HashOutput)
      → pos ≤ turns
      → IsHashedBut n pos tree
      → Rehashes n pos tree (rehash digest turns tree pos)
  unfolding rehash
  rehash_lem zero n pos tree le h = record {
    same_size = refl;
    kept = λ j l. refl;
    hashed = λ i l. h.others i l (inl (omega arith));
  }
  rehash_lem (suc turns) n pos tree le h = elim (Bool-cases (pos == 0)) [
    | inl e ↦ rw e (record {
      same_size = refl;
      kept = λ j l. refl;
      hashed = λ i l. h.others i l (inl (==→eq pos 0 e));
    })
    | inr e ↦
        let positive : 0 < pos = ground arith in
        let r =
          rehash_lem turns n (parent n pos tree h positive) (parent_tree n pos tree h positive)
            (omega arith) (parent_tree-IsHashedBut n pos tree h positive) in
        rw e (record {
          same_size = r.same_size ∙ length-set tree _ _;
          kept = λ j l. r.kept j (omega arith) ∙ kept_node n pos tree h positive j (omega arith);
          hashed = r.hashed;
        })
  ]

  module _ (ma : MerkleAccumulator) (tree : IsTree digest ma) (index : ℕ) (value : List ℕ)
      (fits : index < length ma.elements) where
    abbrev leaf_pos : ℕ
    leaf_pos = length ma.elements - 1 + index

    abbrev leaf_tree : List HashOutput
    leaf_tree = set ma.tree leaf_pos (hash_leaf digest value)

    leaf_kept : (j : ℕ) → j ≢ leaf_pos → node leaf_tree j ≡ node ma.tree j
    leaf_kept j ne = get_or-set_ne ma.tree leaf_pos j _ [] (λ e. ne (sym e))

    leaf_tree-IsHashedBut : IsHashedBut (length ma.elements) leaf_pos leaf_tree
    leaf_tree-IsHashedBut = record {
      tree_size = length-set ma.tree leaf_pos _ ∙ tree.tree_size;
      in_tree = omega arith;
      others = λ i l c.
          leaf_kept i (omega arith)
          ∙ tree.inner i l
          ∙ ap₂ (hash_internal_node digest) (sym (leaf_kept (2 * i + 1) (omega arith)))
              (sym (leaf_kept (2 * i + 2) (omega arith)));
    }

    pub leaf-Rehashes :
        Rehashes (length ma.elements) leaf_pos leaf_tree (updated digest ma index value).tree
    leaf-Rehashes =
        rehash_lem leaf_pos (length ma.elements) leaf_pos leaf_tree (omega arith)
          leaf_tree-IsHashedBut

    pub new_leaf : node (updated digest ma index value).tree leaf_pos ≡ hash_leaf digest value
    new_leaf =
        leaf-Rehashes.kept leaf_pos (omega arith)
        ∙ get_or-set_self ma.tree leaf_pos _ [] (omega (arith, tree.tree_size))

    leaf_of :
        (j : ℕ)
        → j < length ma.elements
        → node (updated digest ma index value).tree (length ma.elements - 1 + j)
          ≡ hash_leaf digest (element (set ma.elements index value) j)
    leaf_of j l = elim (Bool-cases (j == index)) [
      | inl e ↦
          subst
            (λ k.
              node (updated digest ma index value).tree (length ma.elements - 1 + k)
              ≡ hash_leaf digest (element (set ma.elements index value) k))
            (sym (==→eq j index e))
            (new_leaf
              ∙ ap (hash_leaf digest) (sym (get_or-set_self ma.elements index value [] fits)))
      | inr e ↦
          let other : index ≢ j = ground arith in
          leaf-Rehashes.kept (length ma.elements - 1 + j) (omega arith)
          ∙ leaf_kept (length ma.elements - 1 + j) (omega arith)
          ∙ tree.leaves j l
          ∙ ap (hash_leaf digest) (sym (get_or-set_ne ma.elements index j value [] other))
    ]

    pub updated-IsTree : IsTree digest (updated digest ma index value)
    updated-IsTree =
        let same = length-set ma.elements index value in
        record {
          not_empty = omega (arith, same, tree.not_empty);
          tree_size =
              leaf-Rehashes.same_size
              ∙ length-set ma.tree leaf_pos _
              ∙ tree.tree_size
              ∙ ap (λ n. 2 * n - 1) (sym same);
          leaves = λ j l.
              ap (λ n. node (updated digest ma index value).tree (n - 1 + j)) same
              ∙ leaf_of j (subst (λ n. j < n) same l);
          inner = λ i l. leaf-Rehashes.hashed i (subst (λ n. i < n - 1) same l);
        }

  -- An update keeps an accumulator well-formed, at an index within it and at one beyond: the tree
  -- has a hash for each node, a leaf is the hash of its element, and an inner node the hash of its
  -- children.
  pub update-IsTree :
      (ma : MerkleAccumulator) (index : ℕ) (value : List ℕ)
      → IsTree digest ma
      → IsTree digest (update digest index value ma).1
  unfolding update prove
  update-IsTree ma index value tree = elim (Bool-cases (leb (length ma.elements) index)) [
    | inl e ↦ rw e tree
    | inr e ↦ rw e (updated-IsTree ma tree index value (ground arith))
  ]
