-- ===== src/Utxopia/CommitmentTree/Batch.antt =====
-- A batch insertion against the insertions of its leaves one by one.
use mathlib.Core.List.{append-nil, append_assoc}
use utxopia_solana_programs.Prelude.{ℕ, ◌≡◌, List, [], ◌∷◌, ◌++◌, ◌∙◌, sym}
use utxopia_solana_programs.Prelude.Results.{Result, ok, ◌>>=◌, >>=-eq-ok}
use utxopia_solana_programs.Utxopia.CommitmentTree.{
  Hash, CommitmentTree, insert_leaf, insert_leaves_batch,
}
use utxopia_solana_programs.Utxopia.CommitmentTree.Sparse.{IsNode-unique}
use utxopia_solana_programs.Utxopia.CommitmentTree.Leaves.{
  TableHolds, Represents, insert_leaf-Represents, insert_leaves_batch-Represents,
}

module _ (poseidon2_hash : Hash → Hash → Result Hash) where
  unfoldable pub insert_each : CommitmentTree → List Hash → Result CommitmentTree
  insert_each tree [] = ok tree
  insert_each tree (commitment ∷ commitments) = do
    (inserted, _) ← insert_leaf poseidon2_hash tree commitment
    insert_each inserted commitments

  module _ (laws : TableHolds poseidon2_hash) where
    insert_each-Represents :
        (tree t : CommitmentTree) (leaves cs : List Hash)
        → Represents poseidon2_hash tree leaves
        → insert_each tree cs ≡ ok t
        → Represents poseidon2_hash t (leaves ++ cs)
    unfolding insert_each
    insert_each-Represents tree t leaves [] r h =
        let e : tree ≡ t = cc in rw (append-nil leaves, ← e) r
    insert_each-Represents tree t leaves (c ∷ cs) r h =
        let (step, a, rest) = >>=-eq-ok (insert_leaf poseidon2_hash tree c) _ h in
        let (r', _) = insert_leaf-Represents poseidon2_hash laws tree step.0 leaves c step.1 r a in
        rw (← append_assoc leaves (c ∷ []) cs)
          (insert_each-Represents step.0 t (leaves ++ c ∷ []) cs r' rest)

    -- On a tree that represents a list of leaves, a batch insertion and the insertions of its leaves
    -- one by one, where both succeed, lead to the same root and the same count of leaves.
    pub insert_leaves_batch-insert_each :
        (tree t u : CommitmentTree) (leaves cs : List Hash) (i : ℕ)
        → Represents poseidon2_hash tree leaves
        → insert_leaves_batch poseidon2_hash tree cs ≡ ok (t, i)
        → insert_each tree cs ≡ ok u
        → (t.current_root ≡ u.current_root) × (t.next_index ≡ u.next_index)
    insert_leaves_batch-insert_each tree t u leaves cs i r batch each =
        let (_, a, _) =
          insert_leaves_batch-Represents poseidon2_hash laws tree t leaves cs i r batch in
        let b = insert_each-Represents tree u leaves cs r each in
        (IsNode-unique poseidon2_hash a.root b.root, a.holds.count ∙ sym b.holds.count)
