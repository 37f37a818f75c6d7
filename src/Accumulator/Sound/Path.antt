-- ===== src/Accumulator/Sound/Path.antt =====
-- The way of a verifier of common/src/accumulator.rs from a leaf to the root.
use vanadium.Prelude.{suc, zero}
use vanadium.Prelude.{
  ℕ, ◌+◌, ◌-◌, ◌*◌, ◌/◌, ◌%◌, ◌<◌, ◌≤◌, ◌≡◌, ◌==◌, ◌⊎◌, refl, sym, ap, ap₂, ◌∙◌, subst, arith,
}
use vanadium.Prelude.{
  ltb, Bool, Bool-cases, true, false, inl, inr, ==→eq, ==_of_ne, if◌then◌else◌, List, [], ◌∷◌, ◌++◌,
  length, All,
}
use vanadium.Accumulator.{HashOutput, MerkleAccumulator, InclusionVerifier, node}
use vanadium.Accumulator.{
  hash_leaf, hash_internal_node, parent_hash, feed_all, root, sibling, siblings,
}
use vanadium.Accumulator.Tree.{IsTree}
use vanadium.Accumulator.Sound.Inputs.{Collision, is_same→eq, same_children}
use vanadium.Accumulator.Sound.Step.{at, next, at_root_refuses, feed_at_root, feed_below}

module _ (digest : List ℕ → HashOutput) (w : ℕ)
    (digest_size : (x : List ℕ) → length (digest x) ≡ w) where
  module _ (ma : MerkleAccumulator) (tree : IsTree digest ma) where
    abbrev n : ℕ
    n = length ma.elements

    pub node_size : (i : ℕ) → i < 2 * n - 1 → length (node ma.tree i) ≡ w
    unfolding hash_leaf hash_internal_node
    node_size i l = elim (Bool-cases (ltb i (n - 1))) [
      | inl e ↦ ap length (tree.inner i (ground arith)) ∙ digest_size _
      | inr e ↦
          let j = i - (n - 1) in
          let place : i ≡ n - 1 + j = ground arith in
          ap (λ k. length (node ma.tree k)) place
          ∙ ap length (tree.leaves j (omega arith))
          ∙ digest_size _
    ]

    -- A node with the hash of its parent is the node of the tree, and so is its sibling.
    parent_sound :
        (pos : ℕ) (current el : HashOutput)
        → 0 < pos
        → pos < 2 * n - 1
        → length current ≡ w
        → length el ≡ w
        → parent_hash digest pos current el ≡ node ma.tree ((pos - 1) / 2)
        → ((current ≡ node ma.tree pos) × (el ≡ sibling ma.tree pos)) ⊎ Collision digest
    unfolding hash_internal_node
    parent_sound pos current el positive fits c_size el_size e = go (pos % 2 == 0) refl e
      where
        p : ℕ
        p = (pos - 1) / 2

        go :
            (b : Bool)
            → (pos % 2 == 0) ≡ b
            → (if b then digest (0x01 ∷ el ++ current) else digest (0x01 ∷ current ++ el))
              ≡ node ma.tree p
            → ((current ≡ node ma.tree pos)
                × (el ≡ (if b then node ma.tree (pos - 1) else node ma.tree (pos + 1))))
              ⊎ Collision digest
        go true q e =
            let last : 2 * p + 2 ≡ pos = ground arith in
            let sized = el_size ∙ sym (node_size (2 * p + 1) (omega arith)) in
            elim (same_children digest el current _ _ sized (e ∙ tree.inner p (omega arith))) [
              | inl s ↦ inl (s.1 ∙ ap (node ma.tree) last, s.0 ∙ ap (node ma.tree) (omega arith))
              | inr c ↦ inr c
            ]
        go false q e =
            let first : 2 * p + 1 ≡ pos = ground arith in
            let sized = c_size ∙ sym (node_size (2 * p + 1) (omega arith)) in
            elim (same_children digest current el _ _ sized (e ∙ tree.inner p (omega arith))) [
              | inl s ↦ inl (s.0 ∙ ap (node ma.tree) first, s.1 ∙ ap (node ma.tree) (omega arith))
              | inr c ↦ inr c
            ]

    -- What a verifier knows when it is about to accept.
    pub record IsReady (current : HashOutput) (pos : ℕ) (b : Bool) : Type 0 where
      pub fits : pos < 2 * n - 1
      pub size : length current ≡ w
      pub below : 0 < pos → b ≡ false
      pub on_top : pos ≡ 0 → b ≡ true → current ≡ node ma.tree 0

    parent_hash_size :
        (pos : ℕ) (current el : HashOutput) → length (parent_hash digest pos current el) ≡ w
    parent_hash_size pos current el = elim (Bool-cases (pos % 2 == 0)) [
      | inl e ↦ rw e (digest_size _)
      | inr e ↦ rw e (digest_size _)
    ]

    pub root_lem : root ma ≡ node ma.tree 0
    unfolding root
    root_lem = refl

    next-IsReady :
        (el current : HashOutput) (pos : ℕ) (b : Bool)
        → IsReady current pos b
        → 0 < pos
        → let hash = parent_hash digest pos current el in
          IsReady hash ((pos - 1) / 2) (next (root ma) ((pos - 1) / 2) hash b)
    next-IsReady el current pos b r positive =
        let p = (pos - 1) / 2 in
        let hash = parent_hash digest pos current el in
        record {
          fits = omega (arith, r.fits);
          size = parent_hash_size pos current el;
          below = λ up. rw (==_of_ne p 0 (omega arith)) (r.below positive);
          on_top = λ z v.
              is_same→eq hash (root ma) (subst (λ k. next (root ma) k hash b ≡ true) z v)
              ∙ root_lem;
        }

    pred_suc : (turns : ℕ) → suc turns - 1 ≡ turns
    pred_suc turns = omega arith

    siblings_top : (turns pos : ℕ) → pos ≡ 0 → [] ≡ siblings turns ma.tree pos
    unfolding siblings
    siblings_top zero pos z = refl
    siblings_top (suc turns) pos z = rw z refl

    siblings_below :
        (turns pos : ℕ)
        → 0 < pos
        → pos ≤ turns
        → (el : HashOutput) (proof : List HashOutput) → el ≡ sibling ma.tree pos
        → proof ≡ siblings (turns - 1) ma.tree ((pos - 1) / 2)
        → el ∷ proof ≡ siblings turns ma.tree pos
    unfolding siblings
    siblings_below zero pos up le el proof e s = absurd (omega arith)
    siblings_below (suc turns) pos up le el proof e s =
        rw (==_of_ne pos 0 (omega arith))
          (ap₂ ◌∷◌ e (s ∙ ap (λ t. siblings t ma.tree ((pos - 1) / 2)) (pred_suc turns)))

    pub feed_all_sound :
        (proof : List HashOutput) (current : HashOutput) (pos : ℕ) (b : Bool)
        → IsReady current pos b
        → All (λ el. length el ≡ w) proof
        → (feed_all digest proof (at (root ma) current pos b)).verified ≡ true
        → ((current ≡ node ma.tree pos)
            × ((turns : ℕ) → pos ≤ turns → proof ≡ siblings turns ma.tree pos))
          ⊎ Collision digest
    unfolding feed_all
    feed_all_sound [] current pos b r sizes v = elim (Bool-cases (pos == 0)) [
      | inl e ↦
          let z = ==→eq pos 0 e in
          inl (r.on_top z v ∙ ap (node ma.tree) (sym z), λ turns up. siblings_top turns pos z)
      | inr e ↦ let no = r.below (ground arith) in absurd (cc)
    ]
    feed_all_sound (el ∷ proof) current pos b r sizes v = elim (Bool-cases (pos == 0)) [
      | inl e ↦
          let refused =
            subst accepts (feed_at_root digest (root ma) el current pos b (==→eq pos 0 e)) v in
          let no = at_root_refuses digest (root ma) proof current in absurd (cc)
      | inr e ↦
          let positive : 0 < pos = ground arith in
          let hash = parent_hash digest pos current el in
          let p = (pos - 1) / 2 in
          let ready = next-IsReady el current pos b r positive in
          let accepted = subst accepts (feed_below digest (root ma) el current pos b positive) v in
          elim (feed_all_sound proof hash p (next (root ma) p hash b) ready sizes.1 accepted) [
            | inl s ↦ elim (parent_sound pos current el positive r.fits r.size sizes.0 s.0) [
              | inl found ↦ inl (
                found.0,
                λ turns up.
                    siblings_below turns pos positive up el proof found.1
                      (s.1 (turns - 1) (omega arith)),
              )
              | inr c ↦ inr c
            ]
            | inr c ↦ inr c
          ]
    ]
      where
        accepts : InclusionVerifier → Type 0
        accepts u = (feed_all digest proof u).verified ≡ true
