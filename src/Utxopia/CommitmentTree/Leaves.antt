-- ===== src/Utxopia/CommitmentTree/Leaves.antt =====
-- The commitment tree as the list of its leaves.
use utxopia_solana_programs.Prelude.{
  ℕ, zero, suc, ◌+◌, ◌≡◌, ◌≢◌, ◌<◌, inr, refl, sym, ◌∙◌, List, [], ◌∷◌, ◌++◌, length, length-append,
  get_or, arith, replicate, drop,
}
use mathlib.Core.List.{append-nil, append_assoc}
use utxopia_solana_programs.Prelude.Results.{Result, ok, >>=-eq-ok}
use utxopia_solana_programs.Utxopia.CommitmentTree.{
  Hash, CommitmentTree, zero_hash, zero_hashes, tree_depth, max_leaves, init, walk, append_leaf,
  append_leaves, update_root, insert_leaf, insert_leaves_batch,
}
use utxopia_solana_programs.Utxopia.CommitmentTree.Sparse.{
  half, IsNode, ZeroHashes, leaf-last, leaf-none, IsNode-none, leaf-zero,
}
use utxopia_solana_programs.Utxopia.CommitmentTree.Insertion.{IsFrontier, Climbs, walk-IsNode}

module _ (poseidon2_hash : Hash → Hash → Result Hash) where
  -- The table of zero hashes is what the hash function gives.
  abbrev pub TableHolds : Type 0
  TableHolds = ZeroHashes poseidon2_hash zero_hash (drop 1 zero_hashes)

  -- The count and the frontier stand for the leaves.
  pub record Holds (tree : CommitmentTree) (leaves : List Hash) : Type 0 where
    pub count : tree.next_index ≡ length leaves
    pub depth : length tree.frontier ≡ tree_depth
    pub frontier : IsFrontier poseidon2_hash leaves 0 (length leaves) tree.frontier

  -- So does the root.
  pub record Represents (tree : CommitmentTree) (leaves : List Hash) : Type 0 where
    pub holds : Holds tree leaves
    pub root : IsNode poseidon2_hash leaves tree_depth 0 tree.current_root

  append_leaf-walk :
      (tree t : CommitmentTree) (c root : Hash) (i : ℕ)
      → append_leaf poseidon2_hash tree c ≡ ok (t, root, i)
      → (tree.next_index < max_leaves)
        × (t.next_index ≡ tree.next_index + 1)
        × (i ≡ tree.next_index)
        × (walk poseidon2_hash tree.frontier zero_hashes c tree.next_index ≡ ok (t.frontier, root))
  unfolding append_leaf
  append_leaf-walk tree t c root i h = ground arith

  top_index : (n : ℕ) → n < max_leaves → half tree_depth n ≡ 0
  top_index n h = omega arith

  empty-IsFrontier : (level n : ℕ) → IsFrontier poseidon2_hash [] level 0 (replicate n zero_hash)
  empty-IsFrontier level zero = tt
  empty-IsFrontier level (suc n) = ((λ odd. absurd (omega arith)), empty-IsFrontier (suc level) n)

  empty_root :
      (zeros : List Hash) (below : Hash) (level top : ℕ)
      → level + length zeros ≡ top
      → ((p : ℕ) → IsNode poseidon2_hash [] level p below)
      → ZeroHashes poseidon2_hash below zeros
      → (p : ℕ) → IsNode poseidon2_hash [] top p (get_or (below ∷ zeros) (length zeros) zero_hash)
  empty_root [] below level top at empty laws p =
      let e : level ≡ top = omega arith in rw (← e) (empty p)
  empty_root (z ∷ zeros) below level top at empty laws p =
      empty_root zeros z (suc level) top (omega arith) (IsNode-none poseidon2_hash empty laws.0)
        laws.1 p

  module _ (laws : TableHolds) where
    append_leaf-Holds :
        (tree t : CommitmentTree) (leaves : List Hash) (c root : Hash) (i : ℕ)
        → Holds tree leaves
        → append_leaf poseidon2_hash tree c ≡ ok (t, root, i)
        → Holds t (leaves ++ c ∷ [])
          × IsNode poseidon2_hash (leaves ++ c ∷ []) tree_depth 0 root
          × (i ≡ length leaves)
    unfolding zero_hashes
    append_leaf-Holds tree t leaves c root i w h =
        let (room, next, at, walked) = append_leaf-walk tree t c root i h in
        let walked' = rw w.count at walked in
        let all = leaves ++ c ∷ [] in
        let longer : suc (length leaves) ≡ length all =
          omega (arith, length-append leaves (c ∷ [])) in
        let start : Climbs poseidon2_hash leaves c c zero_hash 0 (suc (length leaves)) = record {
          here = leaf-last poseidon2_hash leaves c;
          empty = λ p past. leaf-zero poseidon2_hash leaves c p past;
          carry = inr refl;
        } in
        let (size, top, rest) =
          walk-IsNode poseidon2_hash leaves c tree.frontier (drop 1 zero_hashes) t.frontier c root
            zero_hash 0 (suc (length leaves)) tree_depth (omega (arith, w.depth))
            (omega (arith, w.depth)) laws w.frontier start walked' in
        (
          record {
            count = omega (arith, next, w.count, longer);
            depth = size ∙ w.depth;
            frontier = rw (← longer) rest;
          },
          rw (← top_index (length leaves) (omega (arith, room, w.count))) top,
          at ∙ w.count,
        )

    -- A new tree represents the empty list: its root is that of the full sparse Merkle tree without
    -- leaves.
    pub init-Represents : Represents init []
    unfolding init zero_hashes
    init-Represents = record {
      holds = record { count = refl; depth = refl; frontier = empty-IsFrontier 0 tree_depth };
      root =
          empty_root (drop 1 zero_hashes) zero_hash 0 tree_depth (omega arith)
            (leaf-none poseidon2_hash) laws 0;
    }

    update_root-Represents :
        (tree : CommitmentTree) (root : Hash) (leaves : List Hash)
        → Holds tree leaves
        → IsNode poseidon2_hash leaves tree_depth 0 root
        → Represents (update_root tree root) leaves
    unfolding update_root
    update_root-Represents tree root leaves w r = record {
      holds = record { count = w.count; depth = w.depth; frontier = w.frontier };
      root = r;
    }

    -- Inserting a leaf into a tree that represents a list of leaves: if it succeeds, the tree
    -- represents the list with the leaf at its end, so its root is that of the full sparse Merkle
    -- tree, and the index returned is the leaf's.
    pub insert_leaf-Represents :
        (tree t : CommitmentTree) (leaves : List Hash) (c : Hash) (i : ℕ)
        → Represents tree leaves
        → insert_leaf poseidon2_hash tree c ≡ ok (t, i)
        → Represents t (leaves ++ c ∷ []) × (i ≡ length leaves)
    unfolding insert_leaf
    insert_leaf-Represents tree t leaves c i r h =
        let (step, a, fin) = >>=-eq-ok (append_leaf poseidon2_hash tree c) _ h in
        let (w, top, at) = append_leaf-Holds tree step.0 leaves c step.1 step.2 r.holds a in
        let e : update_root step.0 step.1 ≡ t = cc in
        let e' : step.2 ≡ i = cc in
        (rw (← e) (update_root-Represents step.0 step.1 (leaves ++ c ∷ []) w top), sym e' ∙ at)

    append_leaves-Holds :
        (tree t : CommitmentTree) (leaves cs : List Hash) (start root : Hash)
        → Holds tree leaves
        → IsNode poseidon2_hash leaves tree_depth 0 start
        → append_leaves poseidon2_hash tree cs start ≡ ok (t, root)
        → Holds t (leaves ++ cs) × IsNode poseidon2_hash (leaves ++ cs) tree_depth 0 root
    unfolding append_leaves
    append_leaves-Holds tree t leaves [] start root w r h =
        let e : tree ≡ t = cc in
        let e' : start ≡ root = cc in rw (append-nil leaves, ← e, ← e') (w, r)
    append_leaves-Holds tree t leaves (c ∷ cs) start root w r h =
        let (step, a, rest) = >>=-eq-ok (append_leaf poseidon2_hash tree c) _ h in
        let (w', top, at) = append_leaf-Holds tree step.0 leaves c step.1 step.2 w a in
        rw (← append_assoc leaves (c ∷ []) cs)
          (append_leaves-Holds step.0 t (leaves ++ c ∷ []) cs step.1 root w' top rest)

    -- Inserting a batch into a tree that represents a list of leaves: if it succeeds, the batch is
    -- not empty, the tree represents the list with the batch at its end, and the index returned is
    -- that of the first leaf of the batch.
    pub insert_leaves_batch-Represents :
        (tree t : CommitmentTree) (leaves cs : List Hash) (i : ℕ)
        → Represents tree leaves
        → insert_leaves_batch poseidon2_hash tree cs ≡ ok (t, i)
        → (cs ≢ []) × Represents t (leaves ++ cs) × (i ≡ length leaves)
    unfolding insert_leaves_batch
    insert_leaves_batch-Represents tree t leaves [] i r h = absurd cc
    insert_leaves_batch-Represents tree t leaves (c ∷ cs) i r h =
        let (step, a, fin) =
          >>=-eq-ok (append_leaves poseidon2_hash tree (c ∷ cs) tree.current_root) _ h in
        let (w, top) =
          append_leaves-Holds tree step.0 leaves (c ∷ cs) tree.current_root step.1 r.holds r.root
            a in
        let e : update_root step.0 step.1 ≡ t = cc in
        let e' : tree.next_index ≡ i = cc in
        (
          (λ nil. cc),
          rw (← e) (update_root-Represents step.0 step.1 (leaves ++ c ∷ cs) w top),
          sym e' ∙ r.holds.count,
        )
