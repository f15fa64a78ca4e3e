-- ===== src/LightClient/Extend.antt =====
-- programs/btc-light-client/src/instructions/extend_blockchain.rs: `process_extend_blockchain`
-- around the loop over the headers.
use utxopia_solana_programs.Prelude.{
  ℕ, zero, suc, ◌+◌, ◌*◌, ◌≡◌, Bool, true, false, List, [], ◌∷◌, ◌++◌, ltb, leb, ◌==◌, not, ◌&&◌,
  ◌||◌, if◌then◌else◌, bytes_eq, length, get_or,
}
use utxopia_solana_programs.Prelude.Numbers.{checked_add, saturating_sub}
use utxopia_solana_programs.Prelude.Results.{
  Error, Result, ok, err, ◌>>=◌, ◌>>◌, require, reject, ok_or, invalid_argument,
  arithmetic_overflow, invalid_instruction_data, invalid_account_data, not_enough_account_keys,
  missing_required_signature,
}
use utxopia_solana_programs.LightClient.Constants.{
  max_batch_size, network_regtest, required_confirmations,
}
use utxopia_solana_programs.LightClient.Utils.U256.{u256_from_le_bytes, u256_gt_limbs}
use utxopia_solana_programs.LightClient.State.{
  Bytes, Store, AccountInfo, BitcoinLightClient, BlockHeader, HeightIndex, light_client,
  read_light_client, read_block_header, read_height_index, height_index_len, put_content,
}
use utxopia_solana_programs.LightClient.Runtime.{Runtime, double_sha256, create_or_claim_pda}
use utxopia_solana_programs.LightClient.Access.{
  account_at, slice, is_production, is_height_index, block_pda, index_pda, require_owned,
  require_key, reject_foreign, write_index,
}
use utxopia_solana_programs.LightClient.Headers.{Batch, Chain, header_prev_hash, process_headers}
pub mod Index
pub mod Effects
pub mod Safety

-- The counts that the instruction data gives, once its length and the account list are checked.
pub record Request : Type 0 where
  pub headers : ℕ
  pub ancestors : ℕ

unfoldable pub parse_request : List AccountInfo → Bytes → Result Request
parse_request accounts [] = err invalid_instruction_data
parse_request accounts (n ∷ rest) = do
  let bytes = n ∷ rest
  reject ((n == 0) || ltb max_batch_size n) invalid_instruction_data
  reject (ltb (length bytes) (1 + n * 80)) invalid_instruction_data
  let num_ancestors = if ltb (1 + n * 80) (length bytes) then get_or bytes (1 + n * 80) 0 else 0
  reject (ltb 10 num_ancestors) invalid_instruction_data
  reject (ltb (length accounts) (4 + 2 * n + num_ancestors + 1)) not_enough_account_keys
  ok (record { headers = n; ancestors = num_ancestors })

-- The parent must be of the current chain instance.
unfoldable pub check_instance : BitcoinLightClient → BlockHeader → Result (Unit {0})
check_instance lc parent =
    let legacy = (lc.network == network_regtest) && (parent.reinit_epoch == 0) in
    reject (not (parent.reinit_epoch == lc.reinit_epoch) && not legacy) invalid_account_data

module _ (rt : Runtime) where
  unfoldable pub read_owned_header : Store → Bytes → Result BlockHeader
  read_owned_header s key = do require_owned rt s key; read_block_header (s key).content

  -- The parent must be the canonical block at its height.
  unfoldable pub check_parent_index : Store → Bytes → BlockHeader → Result (Unit {0})
  check_parent_index s key parent = do
    require_owned rt s key
    require_key rt key (index_pda rt parent.height).0
    hi ← read_height_index (s key).content
    require (bytes_eq hi.block_hash parent.block_hash) invalid_account_data

  -- The ancestors, most recent first; their timestamps come out oldest first, with the last hash.
  unfoldable pub ancestor_loop :
      List AccountInfo → Store → ℕ → ℕ → Bytes → Bytes → List ℕ → Result (List ℕ × Bytes)
  ancestor_loop accounts s zero at expect_hash last_hash older = ok (older, last_hash)
  ancestor_loop accounts s (suc rounds) at expect_hash last_hash older = do
    info ← account_at accounts at
    hdr ← read_owned_header s info.key
    require (bytes_eq hdr.block_hash expect_hash) invalid_argument
    require_key rt info.key (block_pda rt hdr.block_hash).0
    ancestor_loop accounts s rounds (suc at) hdr.prev_block_hash hdr.block_hash
        (hdr.timestamp ∷ older)

  -- The timestamps before the batch, for the median time past.
  unfoldable pub mtp_window :
      List AccountInfo → Store → Request → BitcoinLightClient → BlockHeader → Result (List ℕ)
  mtp_window accounts s request lc parent =
      if is_production lc.network
      then (do
        (older, last_hash) ←
            ancestor_loop accounts s request.ancestors (4 + 2 * request.headers)
              parent.prev_block_hash parent.block_hash []
        reject (ltb request.ancestors 10 && not (bytes_eq last_hash lc.genesis_hash))
            invalid_argument
        ok (older ++ parent.timestamp ∷ []))
      else ok []

  -- Check the index account's address and owner, and create it where it does not exist.
  unfoldable pub claim_index : Batch → ℕ → Bytes → Store → Result Store
  claim_index batch block_height key s = do
    require_key rt key (index_pda rt block_height).0
    reject_foreign rt s key
    if is_height_index (s key).content
        then ok s
        else create_or_claim_pda rt batch.submitter key (rt.minimum_balance height_index_len)
            height_index_len s

  unfoldable pub store_index : Batch → ℕ → Bytes → Bytes → Store → Result Store
  store_index batch block_height block_hash key s =
      claim_index batch block_height key s
      >>= write_index rt key (record {
        bump = (index_pda rt block_height).1;
        block_hash = block_hash;
        height = block_height;
      })

  -- The canonical index of the block `i` of the batch.
  unfoldable pub index_block : Batch → Bytes → ℕ → ℕ → ℕ → Store → Result Store
  index_block batch bytes n parent_height i s = do
    first ← ok_or (checked_add parent_height 1) arithmetic_overflow
    block_height ← ok_or (checked_add first i) arithmetic_overflow
    info ← account_at batch.accounts (4 + n + i)
    store_index batch block_height (double_sha256 rt (slice (1 + i * 80) 80 bytes)) info.key s

  unfoldable pub index_blocks : Batch → Bytes → ℕ → ℕ → ℕ → ℕ → Store → Result Store
  index_blocks batch bytes n parent_height zero i s = ok s
  index_blocks batch bytes n parent_height (suc rounds) i s = do
    t ← index_block batch bytes n parent_height i s
    index_blocks batch bytes n parent_height rounds (suc i) t

  -- The light client after a batch that became canonical, and after one that did not.
  unfoldable pub promoted : BitcoinLightClient → Chain → ℕ → BitcoinLightClient
  promoted lc chain header_count =
      let candidate = saturating_sub chain.height (saturating_sub required_confirmations 1) in
      let production = is_production lc.network in
      record lc {
        tip_hash = chain.prev_hash;
        tip_height = chain.height;
        header_count = header_count;
        total_chainwork = chain.chainwork;
        finalized_height =
            if ltb lc.finalized_height candidate then candidate else lc.finalized_height;
        expected_bits = if production then chain.expected_bits else lc.expected_bits;
        epoch_start_time = if production then chain.epoch_start else lc.epoch_start_time;
        last_update = rt.unix_timestamp;
      }

  unfoldable pub advance_tip : Bytes → ℕ → Chain → Store → Result Store
  advance_tip lc_key n chain s = do
    lc ← read_light_client (s lc_key).content
    header_count ← ok_or (checked_add lc.header_count n) arithmetic_overflow
    ok (put_content s lc_key (light_client (promoted lc chain header_count)))

  unfoldable pub promote : Batch → Bytes → Bytes → ℕ → BlockHeader → Chain → Result Store
  promote batch bytes lc_key n parent chain = do
    lc ← read_light_client (chain.store lc_key).content
    reject (ltb parent.height lc.finalized_height) invalid_argument
    index_blocks batch bytes n parent.height n 0 chain.store >>= advance_tip lc_key n chain

  unfoldable pub keep_fork : Bytes → ℕ → Chain → Result Store
  keep_fork lc_key n chain = do
    lc ← read_light_client (chain.store lc_key).content
    header_count ← ok_or (checked_add lc.header_count n) arithmetic_overflow
    ok (
        put_content chain.store lc_key (
          light_client
            (record lc { header_count = header_count; last_update = rt.unix_timestamp })))

  -- More chainwork than the tip's makes the batch canonical.
  unfoldable pub finish :
      Batch → Bytes → Bytes → ℕ → BitcoinLightClient → BlockHeader → Chain → Result Store
  finish batch bytes lc_key n lc parent chain =
      if u256_gt_limbs (u256_from_le_bytes chain.chainwork) (u256_from_le_bytes lc.total_chainwork)
      then promote batch bytes lc_key n parent chain
      else keep_fork lc_key n chain

  -- The chain state that the loop starts from.
  unfoldable pub chain_from : Store → BitcoinLightClient → BlockHeader → List ℕ → Chain
  chain_from s lc parent window = record {
    prev_hash = parent.block_hash;
    chainwork = parent.chainwork;
    height = parent.height;
    expected_bits = if parent.epoch_bits == 0 then lc.expected_bits else parent.epoch_bits;
    epoch_start =
        if parent.epoch_start_time == 0 then lc.epoch_start_time else parent.epoch_start_time;
    parent_timestamp = parent.timestamp;
    window = window;
    store = s;
  }

  -- The loop over the headers and what follows it.
  unfoldable pub run_batch :
      Batch → Bytes → Bytes → ℕ → BitcoinLightClient → BlockHeader → Chain → Result Store
  run_batch batch bytes lc_key n lc parent chain =
      process_headers rt batch bytes n 0 chain >>= finish batch bytes lc_key n lc parent

  unfoldable pub process_extend_blockchain : List AccountInfo → Bytes → Store → Result Store
  process_extend_blockchain accounts bytes s = do
    request ← parse_request accounts bytes
    lc_info ← account_at accounts 0
    submitter ← account_at accounts 1
    parent_info ← account_at accounts 3
    require submitter.is_signer missing_required_signature
    require_owned rt s lc_info.key
    parent ← read_owned_header s parent_info.key
    lc ← read_light_client (s lc_info.key).content
    check_instance lc parent
    hi_info ← account_at accounts (4 + 2 * request.headers + request.ancestors)
    check_parent_index s hi_info.key parent
    require_key rt parent_info.key (block_pda rt parent.block_hash).0
    require (bytes_eq (slice (1 + 4) 32 bytes) parent.block_hash) invalid_argument
    window ← mtp_window accounts s request lc parent
    run_batch
        (record {
          network = lc.network;
          reinit_epoch = lc.reinit_epoch;
          accounts = accounts;
          submitter = submitter.key;
        })
        bytes lc_info.key request.headers lc parent (chain_from s lc parent window)
