-- ===== src/Utxopia/CommitmentTree/Roots.antt =====
-- When an insertion succeeds, and which roots are valid after it.
use utxopia_solana_programs.Prelude.{
  ℕ, zero, suc, ◌%◌, ◌/◌, ◌≡◌, ◌≢◌, ◌≤◌, ◌<◌, ◌⊎◌, inl, inr, refl, sym, ap, ◌∙◌, true, false, List,
  [], ◌∷◌, length, set, arith, ◌==◌, leb, Bool-cases, bytes_eq_iff, bytes_eq_refl,
}
use utxopia_solana_programs.Prelude.Results.{Result, ok, err, >>=-eq-ok, tree_full}
use utxopia_solana_programs.Utxopia.CommitmentTree.{
  Hash, CommitmentTree, zero_hash, zero_hashes, max_leaves, root_history_size, in_history,
  is_valid_root, update_root, walk, append_leaf, insert_leaf,
}

in_history-set :
    (roots : List Hash) (i : ℕ) (root : Hash)
    → i < length roots
    → in_history (set roots i root) root ≡ true
unfolding in_history
in_history-set [] i root h = absurd (omega arith)
in_history-set (r ∷ roots) zero root h = ground (arith, bytes_eq_refl root)
in_history-set (r ∷ roots) (suc i) root h =
    ground (arith, in_history-set roots i root (omega arith))

module _ (poseidon2_hash : Hash → Hash → Result Hash) where
  append_leaf_roots :
      (tree t : CommitmentTree) (c root : Hash) (i : ℕ)
      → append_leaf poseidon2_hash tree c ≡ ok (t, root, i)
      → (t.current_root ≡ tree.current_root)
        × (t.root_history ≡ tree.root_history)
        × (t.root_history_index ≡ tree.root_history_index)
  unfolding append_leaf
  append_leaf_roots tree t c root i h = ground arith

  update_root_roots :
      (tree mid t : CommitmentTree) (root : Hash)
      → length tree.root_history ≡ root_history_size
      → tree.current_root ≢ zero_hash
      → t.current_root ≢ zero_hash
      → mid.current_root ≡ tree.current_root
      → mid.root_history ≡ tree.root_history
      → update_root mid root ≡ t
      → (is_valid_root t tree.current_root ≡ true)
        × (is_valid_root t t.current_root ≡ true)
        × (is_valid_root t zero_hash ≡ false)
  unfolding update_root is_valid_root
  update_root_roots tree mid t root size old new same history e =
      let slot = mid.root_history_index % root_history_size in
      let kept = in_history-set tree.root_history slot tree.current_root (omega (arith, size)) in
      let written : t.root_history ≡ set tree.root_history slot tree.current_root =
        ap (λ x. x.root_history) (sym e)
        ∙ (ap (λ r. set r slot mid.current_root) history
            ∙ ap (λ r. set tree.root_history slot r) same) in
      let valid : in_history t.root_history tree.current_root ≡ true =
        ap (λ r. in_history r tree.current_root) written ∙ kept in
      ground (
        arith,
        valid,
        bytes_eq_iff tree.current_root zero_hash,
        bytes_eq_iff t.current_root zero_hash,
        bytes_eq_refl t.current_root,
        bytes_eq_refl zero_hash,
      )

  -- After an insertion that succeeds, on a tree with a root history of the full size: the root before
  -- and the new root are valid where they are not zero, and the zero hash is not.
  pub insert_leaf_roots :
      (tree t : CommitmentTree) (c : Hash) (i : ℕ)
      → length tree.root_history ≡ root_history_size
      → tree.current_root ≢ zero_hash
      → t.current_root ≢ zero_hash
      → insert_leaf poseidon2_hash tree c ≡ ok (t, i)
      → (is_valid_root t tree.current_root ≡ true)
        × (is_valid_root t t.current_root ≡ true)
        × (is_valid_root t zero_hash ≡ false)
  unfolding insert_leaf
  insert_leaf_roots tree t c i size old new h =
      let (step, a, fin) = >>=-eq-ok (append_leaf poseidon2_hash tree c) _ h in
      let (same, history, index) = append_leaf_roots tree step.0 c step.1 step.2 a in
      let e : update_root step.0 step.1 ≡ t = cc in
      update_root_roots tree step.0 t step.1 size old new same history e

  walk_total :
      ((left right : Hash) → (h : Hash) × (poseidon2_hash left right ≡ ok h))
      → (frontier zeros : List Hash) (current : Hash) (i : ℕ)
      → (r : List Hash × Hash) × (walk poseidon2_hash frontier zeros current i ≡ ok r)
  unfolding walk
  walk_total total [] zeros current i = (_, refl)
  walk_total total (f ∷ frontier) [] current i = (_, refl)
  walk_total total (f ∷ frontier) (z ∷ zeros) current i = elim (Bool-cases (i % 2 == 0)) [
    | inl even ↦
        let (parent, e) = total current z in
        let (r, w) = walk_total total frontier zeros parent (i / 2) in rw (even, e, w) (_, refl)
    | inr odd ↦
        let (parent, e) = total f current in
        let (r, w) = walk_total total frontier zeros parent (i / 2) in rw (odd, e, w) (_, refl)
  ]

  -- If the hash function never fails, an insertion succeeds as long as there is room for a leaf, and
  -- returns the error `tree_full` when there is none.
  pub insert_leaf_defined :
      ((left right : Hash) → (h : Hash) × (poseidon2_hash left right ≡ ok h))
      → (tree : CommitmentTree) (c : Hash)
      → ((tree.next_index < max_leaves)
          × ((r : CommitmentTree × ℕ) × (insert_leaf poseidon2_hash tree c ≡ ok r)))
        ⊎ ((max_leaves ≤ tree.next_index) × (insert_leaf poseidon2_hash tree c ≡ err tree_full))
  unfolding insert_leaf append_leaf
  insert_leaf_defined total tree c = elim (Bool-cases (leb max_leaves tree.next_index)) [
    | inl full ↦ inr (ground arith, rw full refl)
    | inr room ↦
        let (r, w) = walk_total total tree.frontier zero_hashes c tree.next_index in
        inl (ground arith, rw (room, w) (_, refl))
  ]
