-- ===== src/LightClient/Prune/Orphans.antt =====
-- What a successful `process_prune_obsolete_blocks` removes.
use utxopia_solana_programs.Prelude.{
  ◌+◌, ◌≡◌, ◌≢◌, ◌≤◌, true, false, List, arith, bytes_eq, bytes_eq→eq, bytes_eq_refl, bytes_eq_iff,
  ltb, replicate, get_elem?, some,
}
use utxopia_solana_programs.Prelude.Results.{ok}
use utxopia_solana_programs.LightClient.State.{
  Bytes, Store, AccountInfo, BitcoinLightClient, BlockHeader, HeightIndex, raw, light_client,
  block_header, height_index, block_header_len, zero_key,
}
use utxopia_solana_programs.LightClient.Runtime.{Runtime}
use utxopia_solana_programs.LightClient.Access.{slice, block_pda, index_pda}
use utxopia_solana_programs.LightClient.Prune.{
  check_orphan, close_header, process_prune_obsolete_blocks,
}

-- A header that the client has replaced for good: the index names another block at its height, and
-- the height is finalized.
pub record Replaced (rt : Runtime) (s : Store) (hash : Bytes) : Type 0 where
  pub client_key : Bytes
  pub client : BitcoinLightClient
  pub header : BlockHeader
  pub index : HeightIndex
  pub own_client : (s client_key).owner ≡ rt.program_id
  pub stored_client : (s client_key).content ≡ light_client client
  pub own_header : (s (block_pda rt hash).0).owner ≡ rt.program_id
  pub stored_header : (s (block_pda rt hash).0).content ≡ block_header header
  pub own_index : (s (index_pda rt header.height).0).owner ≡ rt.program_id
  pub stored_index : (s (index_pda rt header.height).0).content ≡ height_index index
  pub hash_matches : header.block_hash ≡ hash
  pub replaced : index.block_hash ≢ hash
  pub finalized : header.height ≤ client.finalized_height

-- An account of a store is emptied into another, and all else is as before.
pub record Closed (s t : Store) (key receiver : Bytes) : Type 0 where
  pub distinct : receiver ≢ key
  pub no_lamports : (t key).lamports ≡ 0
  pub no_owner : (t key).owner ≡ zero_key
  pub no_content : (t key).content ≡ raw (replicate block_header_len 0)
  pub paid : (t receiver).lamports ≡ (s receiver).lamports + (s key).lamports
  pub receiver_content : (t receiver).content ≡ (s receiver).content
  pub others : (k : Bytes) → k ≢ key → k ≢ receiver → t k ≡ s k

close_header-Closed :
    (rt : Runtime) (key receiver : Bytes) (s t : Store)
    → bytes_eq receiver key ≡ false
    → close_header rt key receiver s ≡ ok t
    → Closed s t key receiver
unfolding close_header
close_header-Closed rt key receiver s t ne h =
    let emptied : (receiver ≢ key)
        × ((t key).lamports ≡ 0)
        × ((t key).owner ≡ zero_key)
        × ((t key).content ≡ raw (replicate block_header_len 0))
        × ((t receiver).lamports ≡ (s receiver).lamports + (s key).lamports)
        × ((t receiver).content ≡ (s receiver).content) =
      ground (
        arith,
        bytes_eq_iff receiver key,
        bytes_eq_iff key receiver,
        bytes_eq_refl key,
        bytes_eq_refl receiver,
      ) in
    record {
      distinct = emptied.0;
      no_lamports = emptied.1;
      no_owner = emptied.2;
      no_content = emptied.3;
      paid = emptied.4;
      receiver_content = emptied.5;
      others =
          λ k not_key not_receiver. ground (arith, bytes_eq_iff key k, bytes_eq_iff receiver k, h);
    }

prune_inversion :
    (rt : Runtime) (P : Type 0) (accounts : List AccountInfo) (bytes : Bytes) (s t : Store)
    → ((client_key header_key index_key : Bytes) (receiver : AccountInfo)
          (client : BitcoinLightClient) (header : BlockHeader)
        → get_elem? accounts 3 ≡ some receiver
        → bytes_eq (s client_key).owner rt.program_id ≡ true
        → (s client_key).content ≡ light_client client
        → bytes_eq (s header_key).owner rt.program_id ≡ true
        → bytes_eq (s index_key).owner rt.program_id ≡ true
        → (s header_key).content ≡ block_header header
        → bytes_eq header_key (block_pda rt (slice 0 32 bytes)).0 ≡ true
        → bytes_eq header.block_hash (slice 0 32 bytes) ≡ true
        → check_orphan rt s index_key (slice 0 32 bytes) header ≡ ok tt
        → ltb client.finalized_height header.height ≡ false
        → bytes_eq receiver.key header_key ≡ false
        → close_header rt header_key receiver.key s ≡ ok t
        → P)
    → process_prune_obsolete_blocks rt accounts bytes s ≡ ok t
    → P
unfolding process_prune_obsolete_blocks
prune_inversion rt P accounts bytes s t k h = grind arith

check_orphan_lem :
    (rt : Runtime) (s : Store) (key hash : Bytes) (header : BlockHeader)
    → check_orphan rt s key hash header ≡ ok tt
    → (index : HeightIndex) × ((s key).content ≡ height_index index)
      × (key ≡ (index_pda rt header.height).0)
      × (bytes_eq index.block_hash hash ≡ false)
unfolding check_orphan
check_orphan_lem rt s key hash header h =
    ground (arith, bytes_eq→eq key (index_pda rt header.height).0)

-- Pruning closes only headers that are replaced for good: if the call succeeds, the index account of
-- the header's height names another block, and a client holds that height as finalized; the accounts
-- of the client, the header and the index belong to the program. The header's account ends
-- empty, with the system program as its owner, its lamports go to another account, the fourth of
-- the instruction, which gains exactly those and keeps its content, and no third account changes.
pub prune_obsolete_sound :
    (rt : Runtime) (accounts : List AccountInfo) (bytes : Bytes) (s t : Store)
    → process_prune_obsolete_blocks rt accounts bytes s ≡ ok t
    → Replaced rt s (slice 0 32 bytes)
      × ((receiver : AccountInfo) × (get_elem? accounts 3 ≡ some receiver)
          × Closed s t (block_pda rt (slice 0 32 bytes)).0 receiver.key)
prune_obsolete_sound rt accounts bytes s t h =
    prune_inversion rt _ accounts bytes s t
      (λ client_key header_key index_key receiver client header fourth own held own_h own_i found hk
          hash orphan fin ne closed.
        let header_at = bytes_eq→eq _ _ hk in
        let (index, at_index, index_pda_eq, other) =
          check_orphan_lem rt s index_key (slice 0 32 bytes) header orphan in
        let o : Replaced rt s (slice 0 32 bytes) = record {
          client_key = client_key;
          client = client;
          own_client = bytes_eq→eq _ _ own;
          stored_client = held;
          own_header = rw (← header_at) (bytes_eq→eq _ _ own_h);
          own_index = rw (← index_pda_eq) (bytes_eq→eq _ _ own_i);
          header = header;
          index = index;
          stored_header = rw (← header_at) found;
          stored_index = rw (← index_pda_eq) at_index;
          hash_matches = bytes_eq→eq _ _ hash;
          replaced = ground (arith, bytes_eq_iff index.block_hash (slice 0 32 bytes));
          finalized = ground arith;
        } in
        (
          o,
          (
            receiver,
            fourth,
            rw (← header_at) (close_header-Closed rt header_key receiver.key s t ne closed),
          ),
        ))
      h
