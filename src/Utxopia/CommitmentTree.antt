-- ===== src/Utxopia/CommitmentTree.antt =====
-- programs/utxopia/src/state/commitment_tree.rs: the incremental Merkle tree of note commitments.
-- `poseidon2_hash` is an argument, since it is a syscall. The loop over the levels is a recursion on
-- the frontier and the zero hashes, which it walks together.
use utxopia_solana_programs.Prelude.{
  ℕ, suc, ◌+◌, ◌/◌, ◌%◌, List, [], ◌∷◌, Bool, true, false, ltb, leb, ◌==◌, ◌||◌, if◌then◌else◌,
  bytes_eq, get_or, set, replicate, reverse,
}
use utxopia_solana_programs.Prelude.Numbers.{u32_mod}
use utxopia_solana_programs.Prelude.Results.{
  Result, ok, err, ◌>>=◌, ◌>>◌, reject, tree_full, empty_commitment_batch,
}
use utxopia_solana_programs.LightClient.Utils.U256.{to_le_bytes}
pub mod Sparse
pub mod Insertion
pub mod Leaves
pub mod Roots
pub mod Batch
mod Examples

-- A 32-byte hash.
abbrev pub Hash : Type 0
Hash = List ℕ

unfoldable pub big_endian : ℕ → Hash
unfolding to_le_bytes
big_endian v = reverse (to_le_bytes 32 v)

abbrev pub tree_depth : ℕ
tree_depth = 16

abbrev pub root_history_size : ℕ
root_history_size = 256

-- `MAX_LEAVES`, 2 ^ tree_depth.
abbrev pub max_leaves : ℕ
max_leaves = 65_536

abbrev pub zero_hash : Hash
zero_hash = replicate 32 0

unfoldable pub zero_hashes : List Hash
zero_hashes =
    zero_hash
    ∷ big_endian 0x2098f5fb9e239eab3ceac3f27b81e481dc3124d55ffed523a839ee8446b64864
    ∷ big_endian 0x1069673dcdb12263df301a6ff584a7ec261a44cb9dc68df067a4774460b1f1e1
    ∷ big_endian 0x18f43331537ee2af2e3d758d50f72106467c6eea50371dd528d57eb2b856d238
    ∷ big_endian 0x07f9d837cb17b0d36320ffe93ba52345f1b728571a568265caac97559dbc952a
    ∷ big_endian 0x2b94cf5e8746b3f5c9631f4c5df32907a699c58c94b2ad4d7b5cec1639183f55
    ∷ big_endian 0x2dee93c5a666459646ea7d22cca9e1bcfed71e6951b953611d11dda32ea09d78
    ∷ big_endian 0x078295e5a22b84e982cf601eb639597b8b0515a88cb5ac7fa8a4aabe3c87349d
    ∷ big_endian 0x2fa5e5f18f6027a6501bec864564472a616b2e274a41211a444cbe3a99f3cc61
    ∷ big_endian 0x0e884376d0d8fd21ecb780389e941f66e45e7acce3e228ab3e2156a614fcd747
    ∷ big_endian 0x1b7201da72494f1e28717ad1a52eb469f95892f957713533de6175e5da190af2
    ∷ big_endian 0x1f8d8822725e36385200c0b201249819a6e6e1e4650808b5bebc6bface7d7636
    ∷ big_endian 0x2c5d82f66c914bafb9701589ba8cfcfb6162b0a12acf88a8d0879a0471b5f85a
    ∷ big_endian 0x14c54148a0940bb820957f5adf3fa1134ef5c4aaa113f4646458f270e0bfbfd0
    ∷ big_endian 0x190d33b12f986f961e10c0ee44d8b9af11be25588cad89d416118e4bf4ebe80c
    ∷ big_endian 0x22f98aa9ce704152ac17354914ad73ed1167ae6596af510aa5b3649325e06c92
    ∷ big_endian 0x2a7c7c9b6ce5880b9f6f228d72bf6a575a526f29c66ecceef8b753d38bba7323
    ∷ []

pub record CommitmentTree : Type 0 where
  pub bump : ℕ
  pub current_root : Hash
  pub next_index : ℕ
  pub frontier : List Hash
  pub root_history : List Hash
  pub root_history_index : ℕ
  pub tree_index : ℕ

-- The fields that `init` leaves zero, and the root of the empty tree.
unfoldable pub init : CommitmentTree
unfolding zero_hashes
init = record {
  bump = 0;
  current_root = get_or zero_hashes tree_depth zero_hash;
  next_index = 0;
  frontier = replicate tree_depth zero_hash;
  root_history = replicate root_history_size zero_hash;
  root_history_index = 0;
  tree_index = 0;
}

-- `for historical_root in &self.root_history`.
unfoldable pub in_history : List Hash → Hash → Bool
in_history [] root = false
in_history (r ∷ rs) root = bytes_eq r root || in_history rs root

unfoldable pub is_valid_root : CommitmentTree → Hash → Bool
is_valid_root tree root =
    if bytes_eq root zero_hash
    then false
    else if bytes_eq tree.current_root root
    then true
    else in_history tree.root_history root

unfoldable pub update_root : CommitmentTree → Hash → CommitmentTree
update_root tree new_root = record tree {
  root_history =
      set tree.root_history (tree.root_history_index % root_history_size) tree.current_root;
  root_history_index = (tree.root_history_index + 1) % u32_mod;
  current_root = new_root;
}

unfoldable pub set_tree_index : CommitmentTree → ℕ → CommitmentTree
set_tree_index tree value = record tree { tree_index = value }

unfoldable pub has_capacity : CommitmentTree → Bool
has_capacity tree = ltb tree.next_index max_leaves

module _ (poseidon2_hash : Hash → Hash → Result Hash) where
  -- From a level up: the frontier and the zero hashes from that level on, the node at the level, and
  -- its index. The result is the new frontier and the root.
  unfoldable pub walk : List Hash → List Hash → Hash → ℕ → Result (List Hash × Hash)
  walk [] zeros current_hash current_index = ok ([], current_hash)
  walk (f ∷ frontier) [] current_hash current_index = ok (f ∷ frontier, current_hash)
  walk (f ∷ frontier) (zero ∷ zeros) current_hash current_index =
      if current_index % 2 == 0
      then (do
        parent ← poseidon2_hash current_hash zero
        (above, root) ← walk frontier zeros parent (current_index / 2)
        ok (current_hash ∷ above, root))
      else (do
        parent ← poseidon2_hash f current_hash
        (above, root) ← walk frontier zeros parent (current_index / 2)
        ok (f ∷ above, root))

  unfoldable pub append_leaf : CommitmentTree → Hash → Result (CommitmentTree × Hash × ℕ)
  append_leaf tree commitment = do
    reject (leb max_leaves tree.next_index) tree_full
    (frontier, root) ← walk tree.frontier zero_hashes commitment tree.next_index
    ok (
      record tree { frontier = frontier; next_index = tree.next_index + 1 },
      root,
      tree.next_index,
    )

  unfoldable pub insert_leaf : CommitmentTree → Hash → Result (CommitmentTree × ℕ)
  insert_leaf tree commitment = do
    (appended, root, leaf_index) ← append_leaf tree commitment
    ok (update_root appended root, leaf_index)

  unfoldable pub insert_leaf_and_get_root :
      CommitmentTree → Hash → Result (CommitmentTree × Hash × ℕ)
  insert_leaf_and_get_root tree commitment = do
    (inserted, index) ← insert_leaf tree commitment
    ok (inserted, inserted.current_root, index)

  -- `for commitment in commitments`, with the root so far.
  unfoldable pub append_leaves : CommitmentTree → List Hash → Hash → Result (CommitmentTree × Hash)
  append_leaves tree [] root = ok (tree, root)
  append_leaves tree (commitment ∷ commitments) root = do
    (appended, new_root, _) ← append_leaf tree commitment
    append_leaves appended commitments new_root

  unfoldable pub insert_leaves_batch : CommitmentTree → List Hash → Result (CommitmentTree × ℕ)
  insert_leaves_batch tree [] = err empty_commitment_batch
  insert_leaves_batch tree (commitment ∷ commitments) = do
    (appended, root) ← append_leaves tree (commitment ∷ commitments) tree.current_root
    ok (update_root appended root, tree.next_index)
