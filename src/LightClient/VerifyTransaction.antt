-- ===== src/LightClient/VerifyTransaction.antt =====
-- programs/btc-light-client/src/instructions/verify_transaction.rs.
use utxopia_solana_programs.Prelude.{
  ℕ, zero, suc, ◌+◌, ◌-◌, ◌*◌, ◌/◌, ◌%◌, ◌^◌, ◌≡◌, Bool, true, false, List, [], ◌∷◌, Option, some,
  none, ltb, leb, ◌==◌, not, ◌&&◌, ◌||◌, if◌then◌else◌, bytes_eq, length, get_or, drop,
}
use utxopia_solana_programs.Prelude.Numbers.{u32_mod}
use utxopia_solana_programs.Prelude.Results.{
  Error, Result, ok, err, ◌>>=◌, ◌>>◌, require, reject, invalid_argument, invalid_instruction_data,
  invalid_account_data, not_enough_account_keys, missing_required_signature, illegal_owner,
  panicked,
}
use utxopia_solana_programs.LightClient.State.{
  Bytes, Store, AccountInfo, Content, BitcoinLightClient, BlockHeader, VerifiedTransaction,
  verified_transaction, raw, read_light_client, read_block_header, read_height_index, data_len, tag,
  verified_transaction_len, put_content,
}
use utxopia_solana_programs.LightClient.Runtime.{
  Runtime, double_sha256, double_sha256_pair, create_or_claim_pda,
}
use utxopia_solana_programs.LightClient.Access.{
  account_at, slice, u32_at, block_pda, index_pda, verified_tx_seed, require_owned, require_key,
}
pub mod Inclusion

-- The instruction's fields; the proof begins at byte 68.
pub record Claim : Type 0 where
  pub txid : Bytes
  pub block_hash : Bytes
  pub tx_size : ℕ
  pub proof_txid : Bytes
  pub path_bits : ℕ
  pub path_len : ℕ
  pub tx_index : ℕ
  pub siblings : Bytes

unfoldable pub claim_of : Bytes → Claim
claim_of bytes =
    let proof = drop 68 bytes in
    record {
      txid = slice 0 32 bytes;
      block_hash = slice 32 32 bytes;
      tx_size = u32_at 64 bytes;
      proof_txid = slice 0 32 proof;
      path_bits = u32_at 32 proof;
      path_len = get_or proof 36 0;
      tx_index = u32_at 37 proof;
      siblings = drop 41 proof;
    }

-- The length checks on the proof.
unfoldable pub check_proof : Bytes → Claim → Result (Unit {0})
check_proof bytes claim = do
  reject (ltb (length (drop 68 bytes)) 41) invalid_instruction_data
  reject (ltb 20 claim.path_len) invalid_instruction_data
  reject (ltb (length (drop 68 bytes)) (41 + claim.path_len * 32)) invalid_instruction_data

-- `existing_data[0] == VERIFIED_TX_DISCRIMINATOR`.
unfoldable pub is_verified : Content → Bool
unfolding tag
is_verified c = elim (tag c) [ none ↦ false | some t ↦ t == 0x08 ]

module _ (rt : Runtime) where
  -- The bytes of the account that is given as the buffer.
  unfoldable pub bytes_of : Content → Bytes
  bytes_of (raw bytes) = bytes
  bytes_of c = rt.struct_bytes c

  abbrev pub verified_pda : Bytes → Bytes → Bytes × ℕ
  verified_pda block_hash txid = rt.find_program_address (verified_tx_seed ∷ block_hash ∷ txid ∷ [])

  unfoldable pub read_block : Store → Bytes → Claim → Result BlockHeader
  read_block s key claim = do
    header ← read_block_header (s key).content
    require (bytes_eq header.block_hash claim.block_hash) invalid_argument
    ok header

  -- The index must name the block as the canonical one at its height.
  unfoldable pub check_canonical : Store → Bytes → Claim → BlockHeader → Result (Unit {0})
  check_canonical s key claim header = do
    require_key rt key (index_pda rt header.height).0
    hi ← read_height_index (s key).content
    require ((hi.height == header.height) && bytes_eq hi.block_hash claim.block_hash)
        invalid_argument

  -- The raw transaction stands in the buffer behind a 32-byte key.
  unfoldable pub check_transaction : Bytes → Claim → Result (Unit {0})
  check_transaction buffer claim = do
    reject (ltb (length buffer) (32 + claim.tx_size)) invalid_account_data
    reject (claim.tx_size == 64) invalid_argument
    require (bytes_eq (double_sha256 rt (slice 32 claim.tx_size buffer)) claim.txid)
        invalid_argument

  -- `for i in 0..path_len`, with the rounds left; bit `i` of `path_bits` says on which side.
  unfoldable pub merkle_loop : Claim → ℕ → ℕ → Bytes → Bytes
  merkle_loop claim zero i current = current
  merkle_loop claim (suc rounds) i current =
      let sibling = slice (i * 32) 32 claim.siblings in
      merkle_loop claim rounds (suc i) (
        if claim.path_bits / 2 ^ i % 2 == 1
        then double_sha256_pair rt sibling current
        else double_sha256_pair rt current sibling)

  unfoldable pub check_inclusion : Claim → BlockHeader → Result (Unit {0})
  check_inclusion claim header = do
    require (bytes_eq claim.proof_txid claim.txid) invalid_argument
    require (bytes_eq (merkle_loop claim claim.path_len 0 claim.txid) header.merkle_root)
        invalid_argument

  unfoldable pub write_verified : Bytes → VerifiedTransaction → Store → Result Store
  write_verified key vt s = do
    require (leb verified_transaction_len (data_len (s key).content)) panicked
    ok (put_content s key (verified_transaction vt))

  unfoldable pub new_verified : Claim → BlockHeader → BitcoinLightClient → VerifiedTransaction
  new_verified claim header lc = record {
    bump = (verified_pda claim.block_hash claim.txid).1;
    block_height = header.height % u32_mod;
    block_hash = claim.block_hash;
    txid = claim.txid;
    verified_at = rt.unix_timestamp;
    tx_index = claim.tx_index;
    reinit_epoch = lc.reinit_epoch;
  }

  -- Create the receipt, unless it exists.
  unfoldable pub record_verified : Bytes → Bytes → VerifiedTransaction → Store → Result Store
  record_verified payer key vt s =
      let created =
        create_or_claim_pda rt payer key (rt.minimum_balance verified_transaction_len)
          verified_transaction_len s
        >>= write_verified key vt in
      if data_len (s key).content == 0
      then created
      else if not (bytes_eq (s key).owner rt.program_id)
      then err illegal_owner
      else if is_verified (s key).content
      then ok s
      else created

  unfoldable pub process_verify_transaction : List AccountInfo → Bytes → Store → Result Store
  process_verify_transaction accounts bytes s = do
    reject (ltb (length bytes) 68) invalid_instruction_data
    reject (ltb (length accounts) 7) not_enough_account_keys
    verified_tx_info ← account_at accounts 0
    light_client_info ← account_at accounts 1
    block_header_info ← account_at accounts 2
    height_index_info ← account_at accounts 3
    tx_buffer_info ← account_at accounts 4
    payer ← account_at accounts 5
    require payer.is_signer missing_required_signature
    require_owned rt s light_client_info.key
    require_owned rt s block_header_info.key
    require_owned rt s height_index_info.key
    let claim = claim_of bytes
    require_key rt block_header_info.key (block_pda rt claim.block_hash).0
    check_proof bytes claim
    header ← read_block s block_header_info.key claim
    check_canonical s height_index_info.key claim header
    lc ← read_light_client (s light_client_info.key).content
    reject (ltb lc.finalized_height header.height) invalid_argument
    check_transaction (bytes_of (s tx_buffer_info.key).content) claim
    check_inclusion claim header
    require_key rt verified_tx_info.key (verified_pda claim.block_hash claim.txid).0
    record_verified payer.key verified_tx_info.key (new_verified claim header lc) s
