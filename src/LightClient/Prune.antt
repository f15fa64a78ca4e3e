-- ===== src/LightClient/Prune.antt =====
-- programs/btc-light-client/src/instructions/prune_obsolete_blocks.rs.
use utxopia_solana_programs.Prelude.{
  ℕ, ◌+◌, ◌≡◌, Bool, List, [], ◌∷◌, ltb, if◌then◌else◌, bytes_eq, length, replicate,
}
use utxopia_solana_programs.Prelude.Numbers.{checked_add}
use utxopia_solana_programs.Prelude.Results.{
  Error, Result, ok, err, ◌>>=◌, ◌>>◌, require, reject, ok_or, invalid_argument,
  invalid_instruction_data, not_enough_account_keys, arithmetic_overflow,
}
use utxopia_solana_programs.LightClient.State.{
  Bytes, Store, AccountInfo, BlockHeader, raw, read_light_client, read_block_header,
  read_height_index, block_header_len, put, zero_key,
}
use utxopia_solana_programs.LightClient.Runtime.{Runtime}
use utxopia_solana_programs.LightClient.Access.{
  account_at, slice, block_pda, index_pda, require_owned, require_key,
}
pub mod Orphans

module _ (rt : Runtime) where
  -- The index at the block's height must name another block.
  unfoldable pub check_orphan : Store → Bytes → Bytes → BlockHeader → Result (Unit {0})
  check_orphan s key block_hash header = do
    require_key rt key (index_pda rt header.height).0
    hi ← read_height_index (s key).content
    reject (bytes_eq hi.block_hash block_hash) invalid_argument

  -- The header's account with its data zeroed, its lamports gone and its owner the system program,
  -- and the receiver with the lamports.
  unfoldable pub close_header : Bytes → Bytes → Store → Result Store
  close_header key receiver s = do
    let emptied = put s key (record {
      owner = (s key).owner;
      lamports = 0;
      content = raw (replicate block_header_len 0);
    })
    total ← ok_or (checked_add (emptied receiver).lamports (s key).lamports) arithmetic_overflow
    let paid = put emptied receiver (record (emptied receiver) { lamports = total })
    ok (put paid key (record (paid key) { owner = zero_key }))

  unfoldable pub process_prune_obsolete_blocks : List AccountInfo → Bytes → Store → Result Store
  process_prune_obsolete_blocks accounts bytes s = do
    reject (ltb (length bytes) 32) invalid_instruction_data
    reject (ltb (length accounts) 4) not_enough_account_keys
    light_client_info ← account_at accounts 0
    block_header_info ← account_at accounts 1
    height_index_info ← account_at accounts 2
    rent_receiver ← account_at accounts 3
    require_owned rt s light_client_info.key
    require_owned rt s block_header_info.key
    require_owned rt s height_index_info.key
    let block_hash = slice 0 32 bytes
    require_key rt block_header_info.key (block_pda rt block_hash).0
    header ← read_block_header (s block_header_info.key).content
    require (bytes_eq header.block_hash block_hash) invalid_argument
    check_orphan s height_index_info.key block_hash header
    lc ← read_light_client (s light_client_info.key).content
    reject (ltb lc.finalized_height header.height) invalid_argument
    reject (bytes_eq rent_receiver.key block_header_info.key) invalid_argument
    close_header block_header_info.key rent_receiver.key s
