-- ===== src/Accumulator/Update/Siblings.antt =====
-- `prove` and `update` of common/src/accumulator.rs: the proof of a place and an update of the place.
use vanadium.Prelude.{
  ℕ, zero, suc, ◌+◌, ◌-◌, ◌*◌, ◌/◌, ◌%◌, ◌<◌, ◌≤◌, ◌≡◌, ◌==◌, refl, ap₂, ◌∙◌, arith,
}
use vanadium.Prelude.{Bool-cases, inl, inr, List, [], ◌∷◌, length, set}
use vanadium.Prelude.{get_or-set_ne, ◌⊎◌}
use vanadium.Accumulator.{HashOutput, MerkleAccumulator, node}
use vanadium.Accumulator.{sibling, siblings, rehash, updated}
use vanadium.Accumulator.Tree.{IsTree}
use vanadium.Accumulator.Update.{
  IsHashedBut, parent, parent_tree, kept_node, parent_tree-IsHashedBut, rehash_lem,
  leaf_tree-IsHashedBut,
}

module _ (digest : List ℕ → HashOutput) where
  -- A node that is not beside the path from a position is not in the proof of the position.
  siblings-set :
      (turns pos q : ℕ) (tree : List HashOutput) (v : HashOutput)
      → (q ≡ pos) ⊎ (2 * pos + 1 ≤ q)
      → siblings turns (set tree q v) pos ≡ siblings turns tree pos
  unfolding siblings
  siblings-set zero pos q tree v c = refl
  siblings-set (suc turns) pos q tree v c = elim (Bool-cases (pos == 0)) [
    | inl e ↦ rw e refl
    | inr e ↦
        let positive : 0 < pos = ground arith in
        rw e (
          ap₂ ◌∷◌ (beside positive)
            (siblings-set turns ((pos - 1) / 2) q tree v (inr (omega arith))))
  ]
    where
      beside : 0 < pos → sibling (set tree q v) pos ≡ sibling tree pos
      beside positive =
          rw
            (
              get_or-set_ne tree q (pos - 1) v [] (omega arith),
              get_or-set_ne tree q (pos + 1) v [] (omega arith),
            )
            refl

  -- Hashing the path of a position again changes nothing in the proof of the position.
  siblings-rehash :
      (turns n pos : ℕ) (tree : List HashOutput)
      → pos ≤ turns
      → IsHashedBut digest n pos tree
      → siblings turns (rehash digest turns tree pos) pos ≡ siblings turns tree pos
  unfolding siblings rehash
  siblings-rehash zero n pos tree le h = refl
  siblings-rehash (suc turns) n pos tree le h = elim (Bool-cases (pos == 0)) [
    | inl e ↦ rw e refl
    | inr e ↦
        let positive : 0 < pos = ground arith in
        let up = parent digest n pos tree h positive in
        let above = parent_tree digest n pos tree h positive in
        let r =
          rehash_lem digest turns n up above (omega arith)
            (parent_tree-IsHashedBut digest n pos tree h positive) in
        let left : 1 ≤ pos - 1
            → node (rehash digest turns above up) (pos - 1) ≡ node tree (pos - 1) =
          λ l.
            r.kept (pos - 1) (omega arith)
            ∙ kept_node digest n pos tree h positive (pos - 1) (omega arith) in
        let right : node (rehash digest turns above up) (pos + 1) ≡ node tree (pos + 1) =
          r.kept (pos + 1) (omega arith)
          ∙ kept_node digest n pos tree h positive (pos + 1) (omega arith) in
        let deeper =
          siblings-rehash turns n up above (omega arith)
            (parent_tree-IsHashedBut digest n pos tree h positive)
          ∙ siblings-set turns up up tree _ (inl refl) in
        rw e (ap₂ ◌∷◌ (beside (rehash digest turns above up) positive left right) deeper)
  ]
    where
      beside :
          (t : List HashOutput)
          → 0 < pos
          → (1 ≤ pos - 1 → node t (pos - 1) ≡ node tree (pos - 1))
          → node t (pos + 1) ≡ node tree (pos + 1)
          → sibling t pos ≡ sibling tree pos
      beside t positive left right = elim (Bool-cases (pos % 2 == 0)) [
        | inl e ↦ rw e (left (ground arith))
        | inr e ↦ rw e right
      ]

  -- The proof of a place is the same before and after an update of the place.
  pub siblings-updated :
      (ma : MerkleAccumulator) (tree : IsTree digest ma) (index : ℕ) (value : List ℕ)
      (fits : index < length ma.elements)
      → let pos = length ma.elements - 1 + index in
        siblings pos (updated digest ma index value).tree pos ≡ siblings pos ma.tree pos
  siblings-updated ma tree index value fits =
      let pos = length ma.elements - 1 + index in
      siblings-rehash pos (length ma.elements) pos _ (omega arith)
        (leaf_tree-IsHashedBut digest ma tree index value fits)
      ∙ siblings-set pos pos pos ma.tree _ (inl refl)
