-- ===== src/Utxopia/CommitmentTree/Examples.antt =====
-- The commitment tree's theorems at concrete inputs, over a toy hash that continues the table of
-- zero hashes and keeps the left argument otherwise.
use utxopia_solana_programs.Prelude.{
  ℕ, ◌≡◌, ◌≢◌, ◌<◌, ◌≤◌, ◌⊎◌, refl, ap, true, false, get_or, arith, List, [], ◌∷◌, replicate,
  bytes_eq, if◌then◌else◌, length,
}
use utxopia_solana_programs.Prelude.Results.{Result, ok, err, tree_full}
use utxopia_solana_programs.LightClient.Utils.U256.{to_le_bytes}
use utxopia_solana_programs.Utxopia.CommitmentTree.{
  Hash, CommitmentTree, zero_hashes, big_endian, init, walk, append_leaf, append_leaves,
  update_root, insert_leaf, insert_leaves_batch, is_valid_root, zero_hash, max_leaves,
}
use utxopia_solana_programs.Utxopia.CommitmentTree.Leaves.{
  TableHolds, Represents, init-Represents, insert_leaf-Represents, insert_leaves_batch-Represents,
}
use utxopia_solana_programs.Utxopia.CommitmentTree.Roots.{insert_leaf_defined, insert_leaf_roots}
use utxopia_solana_programs.Utxopia.CommitmentTree.Batch.{
  insert_each, insert_leaves_batch-insert_each,
}

abbrev next_zero : List Hash → Hash → Hash
next_zero [] h = h
next_zero (z ∷ []) h = h
next_zero (z ∷ z' ∷ zs) h = if bytes_eq z h then z' else next_zero (z' ∷ zs) h

unfoldable toy_hash : Hash → Hash → Result Hash
unfolding zero_hashes big_endian to_le_bytes bytes_eq
toy_hash left right = ok (if bytes_eq left right then next_zero zero_hashes left else left)

toy_table : TableHolds toy_hash
unfolding toy_hash zero_hashes big_endian to_le_bytes bytes_eq
toy_table = (
  refl,
  (
    refl,
    (
      refl,
      (
        refl,
        (
          refl,
          (
            refl,
            (refl, (refl, (refl, (refl, (refl, (refl, (refl, (refl, (refl, (refl, tt)))))))))),
          ),
        ),
      ),
    ),
  ),
)

init-Represents_example : Represents toy_hash init []
init-Represents_example = init-Represents toy_hash toy_table

abbrev leaf_one : Hash
leaf_one = 1 ∷ replicate 31 0

abbrev leaf_two : Hash
leaf_two = 2 ∷ replicate 31 0

abbrev after : Result (CommitmentTree × ℕ) → CommitmentTree
after (ok (t, _)) = t
after (err _) = init

inserted_ok :
    insert_leaf toy_hash init leaf_one ≡ ok (after (insert_leaf toy_hash init leaf_one), 0)
unfolding insert_leaf append_leaf walk update_root init toy_hash zero_hashes big_endian to_le_bytes
    bytes_eq
inserted_ok = refl

insert_leaf-Represents_example :
    Represents toy_hash (after (insert_leaf toy_hash init leaf_one)) (leaf_one ∷ [])
    × (0 ≡ length {A = Hash} [])
insert_leaf-Represents_example =
    insert_leaf-Represents toy_hash toy_table init (after (insert_leaf toy_hash init leaf_one)) []
      leaf_one 0 (init-Represents toy_hash toy_table) inserted_ok

batch_ok :
    insert_leaves_batch toy_hash init (leaf_one ∷ leaf_two ∷ [])
    ≡ ok (after (insert_leaves_batch toy_hash init (leaf_one ∷ leaf_two ∷ [])), 0)
unfolding insert_leaves_batch append_leaves append_leaf walk update_root init toy_hash zero_hashes
    big_endian to_le_bytes bytes_eq
batch_ok = refl

insert_leaves_batch-Represents_example :
    (leaf_one ∷ leaf_two ∷ [] ≢ [])
    × Represents toy_hash
        (after (insert_leaves_batch toy_hash init (leaf_one ∷ leaf_two ∷ [])))
        (leaf_one ∷ leaf_two ∷ [])
    × (0 ≡ length {A = Hash} [])
insert_leaves_batch-Represents_example =
    insert_leaves_batch-Represents toy_hash toy_table init
      (after (insert_leaves_batch toy_hash init (leaf_one ∷ leaf_two ∷ []))) []
      (leaf_one ∷ leaf_two ∷ []) 0 (init-Represents toy_hash toy_table) batch_ok

abbrev toy_total : (left right : Hash) → (h : Hash) × (toy_hash left right ≡ ok h)
unfolding toy_hash zero_hashes big_endian to_le_bytes bytes_eq
toy_total left right = (if bytes_eq left right then next_zero zero_hashes left else left, refl)

insert_leaf_defined_example :
    ((init.next_index < max_leaves)
      × ((r : CommitmentTree × ℕ) × (insert_leaf toy_hash init leaf_one ≡ ok r)))
    ⊎ ((max_leaves ≤ init.next_index) × (insert_leaf toy_hash init leaf_one ≡ err tree_full))
insert_leaf_defined_example = insert_leaf_defined toy_hash toy_total init leaf_one

insert_leaf_roots_example :
    (is_valid_root (after (insert_leaf toy_hash init leaf_one)) init.current_root ≡ true)
    × (is_valid_root
          (after (insert_leaf toy_hash init leaf_one))
          (after (insert_leaf toy_hash init leaf_one)).current_root
        ≡ true)
    × (is_valid_root (after (insert_leaf toy_hash init leaf_one)) zero_hash ≡ false)
insert_leaf_roots_example =
    insert_leaf_roots toy_hash init (after (insert_leaf toy_hash init leaf_one)) leaf_one 0
      (unfold init in refl)
      (unfold bytes_eq init zero_hashes big_endian to_le_bytes in
        λ e. absurd (omega (arith, ap (λ h. get_or h 0 0) e)))
      (unfold insert_leaf append_leaf walk update_root init toy_hash zero_hashes big_endian
          to_le_bytes bytes_eq in
        λ e. absurd (omega (arith, ap (λ h. get_or h 0 0) e)))
      inserted_ok

abbrev tree_or_init : Result CommitmentTree → CommitmentTree
tree_or_init (ok t) = t
tree_or_init (err _) = init

each_ok :
    insert_each toy_hash init (leaf_one ∷ leaf_two ∷ [])
    ≡ ok (tree_or_init (insert_each toy_hash init (leaf_one ∷ leaf_two ∷ [])))
unfolding insert_each insert_leaf append_leaf walk update_root init toy_hash zero_hashes big_endian
    to_le_bytes bytes_eq
each_ok = refl

insert_leaves_batch-insert_each_example :
    ((after (insert_leaves_batch toy_hash init (leaf_one ∷ leaf_two ∷ []))).current_root
      ≡ (tree_or_init (insert_each toy_hash init (leaf_one ∷ leaf_two ∷ []))).current_root)
    × ((after (insert_leaves_batch toy_hash init (leaf_one ∷ leaf_two ∷ []))).next_index
        ≡ (tree_or_init (insert_each toy_hash init (leaf_one ∷ leaf_two ∷ []))).next_index)
insert_leaves_batch-insert_each_example =
    insert_leaves_batch-insert_each toy_hash toy_table init
      (after (insert_leaves_batch toy_hash init (leaf_one ∷ leaf_two ∷ [])))
      (tree_or_init (insert_each toy_hash init (leaf_one ∷ leaf_two ∷ []))) []
      (leaf_one ∷ leaf_two ∷ []) 0 (init-Represents toy_hash toy_table) batch_ok each_ok
