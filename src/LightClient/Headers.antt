-- ===== src/LightClient/Headers.antt =====
-- The loop over the headers of a batch in
-- programs/btc-light-client/src/instructions/extend_blockchain.rs.
use utxopia_solana_programs.Prelude.{
  ℕ, zero, suc, ◌+◌, ◌*◌, ◌%◌, ◌≡◌, Bool, true, false, List, [], ◌∷◌, ◌++◌, ltb, leb, ◌==◌, not,
  ◌&&◌, if◌then◌else◌, bytes_eq, take, drop, length,
}
use utxopia_solana_programs.Prelude.Numbers.{checked_add}
use utxopia_solana_programs.Prelude.Results.{
  Error, Result, ok, err, ◌>>=◌, ◌>>◌, require, reject, ok_or, invalid_argument,
  arithmetic_overflow,
}
use utxopia_solana_programs.LightClient.Constants.{network_testnet4, blocks_per_epoch}
use utxopia_solana_programs.LightClient.Utils.Pow.{
  hash_meets_target, target_from_bits, calculate_chainwork, add_chainwork,
}
use utxopia_solana_programs.LightClient.Utils.Difficulty.{required_bits_for_next_block}
use utxopia_solana_programs.LightClient.State.{
  Bytes, Store, AccountInfo, BlockHeader, block_header_len,
}
use utxopia_solana_programs.LightClient.Runtime.{Runtime, double_sha256, create_or_claim_pda}
use utxopia_solana_programs.LightClient.Access.{
  account_at, slice, u32_at, is_production, is_block_header, block_pda, require_key, reject_foreign,
  write_header,
}
use utxopia_solana_programs.LightClient.Median.{median_timestamp}
pub mod Step
pub mod Links
pub mod Capped
pub mod Frame

-- What the batch holds fixed: the client's network and chain instance, the accounts, and the payer.
pub record Batch : Type 0 where
  pub network : ℕ
  pub reinit_epoch : ℕ
  pub accounts : List AccountInfo
  pub submitter : Bytes

-- The `running_*` variables, the timestamp window (oldest first) and the accounts.
pub record Chain : Type 0 where
  pub prev_hash : Bytes
  pub chainwork : Bytes
  pub height : ℕ
  pub expected_bits : ℕ
  pub epoch_start : ℕ
  pub parent_timestamp : ℕ
  pub window : List ℕ
  pub store : Store

-- The fields of an 80-byte header.
abbrev pub header_prev_hash : Bytes → Bytes
header_prev_hash raw = slice 4 32 raw

abbrev pub header_timestamp : Bytes → ℕ
header_timestamp raw = u32_at 68 raw

abbrev pub header_bits : Bytes → ℕ
header_bits raw = u32_at 72 raw

abbrev pub max_future_drift_secs : ℕ
max_future_drift_secs = 2 * 60 * 60

-- The window of eleven timestamps moves on by one.
abbrev pub slide : List ℕ → ℕ → List ℕ
slide window timestamp =
    if ltb (length window) 11 then window ++ timestamp ∷ [] else drop 1 window ++ timestamp ∷ []

unfoldable pub check_median : Bool → ℕ → List ℕ → Result (List ℕ)
check_median enforce_mtp timestamp window =
    if enforce_mtp
    then (if leb timestamp (median_timestamp window)
        then err invalid_argument
        else ok (slide window timestamp))
    else ok window

-- The consensus difficulty, on the production networks.
unfoldable pub check_bits : ℕ → ℕ → ℕ → ℕ → Chain → Result (Unit {0})
check_bits network block_height timestamp bits chain =
    if is_production network
    then (do
      reject (chain.expected_bits == 0) invalid_argument
      required_bits ←
          required_bits_for_next_block (network == network_testnet4) block_height timestamp
            chain.parent_timestamp chain.expected_bits chain.epoch_start
      require (bits == required_bits) invalid_argument)
    else ok tt

module _ (rt : Runtime) where
  -- Check the header account's address and owner, and create it where it does not exist.
  unfoldable pub claim_header : Batch → Bytes → Bytes → Store → Result Store
  claim_header batch block_hash key s = do
    require_key rt key (block_pda rt block_hash).0
    reject_foreign rt s key
    if is_block_header (s key).content
        then ok s
        else create_or_claim_pda rt batch.submitter key (rt.minimum_balance block_header_len)
            block_header_len s

  -- The struct that is written for a header; an epoch's first block sets its epoch's parameters.
  unfoldable pub new_header : Batch → Bytes → Bytes → ℕ → Chain → BlockHeader
  new_header batch raw block_hash block_height chain =
      let boundary = is_production batch.network && (block_height % blocks_per_epoch == 0) in
      record {
        version = slice 0 4 raw;
        prev_block_hash = slice 4 32 raw;
        merkle_root = slice 36 32 raw;
        timestamp = header_timestamp raw;
        bits = header_bits raw;
        nonce = slice 76 4 raw;
        block_hash = block_hash;
        chainwork = add_chainwork chain.chainwork (calculate_chainwork (header_bits raw));
        height = block_height;
        submitted_at = rt.unix_timestamp;
        epoch_bits = if boundary then header_bits raw else chain.expected_bits;
        epoch_start_time = if boundary then header_timestamp raw else chain.epoch_start;
        reinit_epoch = batch.reinit_epoch;
      }

  unfoldable pub store_header : Batch → Bytes → Bytes → BlockHeader → Store → Result Store
  store_header batch block_hash key header s =
      claim_header batch block_hash key s >>= write_header rt key header

  -- The `running_*` variables after a header.
  unfoldable pub next_chain : BlockHeader → List ℕ → Store → Chain
  next_chain header window s = record {
    prev_hash = header.block_hash;
    chainwork = header.chainwork;
    height = header.height;
    expected_bits = header.epoch_bits;
    epoch_start = header.epoch_start_time;
    parent_timestamp = header.timestamp;
    window = window;
    store = s;
  }

  unfoldable pub append_header : Batch → ℕ → BlockHeader → List ℕ → Chain → Result Chain
  append_header batch i header window chain = do
    info ← account_at batch.accounts (4 + i)
    written ← store_header batch header.block_hash info.key header chain.store
    ok (next_chain header window written)

  -- One round of the loop: the checks in the order of the code, then the header is stored.
  unfoldable pub process_header : Batch → ℕ → Bytes → Chain → Result Chain
  process_header batch i raw chain = do
    let timestamp = header_timestamp raw
    let bits = header_bits raw
    reject (ltb (rt.unix_timestamp + max_future_drift_secs) timestamp) invalid_argument
    require (bytes_eq (header_prev_hash raw) chain.prev_hash) invalid_argument
    window ← check_median (is_production batch.network) timestamp chain.window
    let block_hash = double_sha256 rt raw
    block_height ← ok_or (checked_add chain.height 1) arithmetic_overflow
    require (hash_meets_target block_hash (target_from_bits bits)) invalid_argument
    check_bits batch.network block_height timestamp bits chain
    append_header batch i (new_header batch raw block_hash block_height chain) window chain

  -- `for i in 0..n`, with the count of rounds left, over `data`.
  unfoldable pub process_headers : Batch → Bytes → ℕ → ℕ → Chain → Result Chain
  process_headers batch bytes zero i chain = ok chain
  process_headers batch bytes (suc rounds) i chain = do
    next ← process_header batch i (slice (1 + i * 80) 80 bytes) chain
    process_headers batch bytes rounds (suc i) next
