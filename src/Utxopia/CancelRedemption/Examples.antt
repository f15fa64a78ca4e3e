-- ===== src/Utxopia/CancelRedemption/Examples.antt =====
-- A redemption in Processing, with one UTXO reserved for it, is cancelled after its timeout.
use utxopia_solana_programs.Prelude.{
  ◌≡◌, refl, List, [], ◌∷◌, ◌++◌, true, false, arith, bytes_eq, if◌then◌else◌, take, replicate, inl,
}
use utxopia_solana_programs.Prelude.Digits.{value}
use utxopia_solana_programs.Prelude.Results.{Result, ok, err}
use utxopia_solana_programs.LightClient.Utils.U256.{to_le_bytes}
use utxopia_solana_programs.Utxopia.Bytes.{Bytes, range}
use utxopia_solana_programs.Utxopia.CommitmentTree.{
  Hash, init, insert_leaf, append_leaf, walk, update_root, zero_hash, zero_hashes, big_endian,
}
use utxopia_solana_programs.Utxopia.State.{
  Store, AccountInfo, PoolState, RedemptionRequest, processing, UtxoRecord, reserved, TokenConfig,
  raw, pool_state, redemption_request, utxo_record, token_config, commitment_tree, put_content,
  put_lamports,
}
use utxopia_solana_programs.Utxopia.Pool.{utxo_count, set_utxo_count, add_utxos}
use utxopia_solana_programs.Utxopia.Validation.{
  Runtime, tree_seed, token_config_seed, validate_pool_state_pda, validate_redemption_pda,
  validate_active_tree_pda, redemption_reservation_key, close_account_securely,
}
use utxopia_solana_programs.Utxopia.MarkProcessing.Conservation.{InCustody}
use utxopia_solana_programs.Utxopia.CancelRedemption.{
  cancel_redemption_data, add_token_shielded, credited, release_utxo, release_utxos, check_cancel,
  check_token_config, restore, compute_commitment, mint_again, cancel_for,
  process_cancel_redemption,
}
use utxopia_solana_programs.Utxopia.CancelRedemption.Release.{IsBacked}
use utxopia_solana_programs.Utxopia.CancelRedemption.Cancelled.{Cancelled}
use utxopia_solana_programs.Utxopia.CancelRedemption.Safety.{process_cancel_redemption-Cancelled}
use utxopia_solana_programs.Utxopia.Coins.{coin, coins, Distinct}
use utxopia_solana_programs.Utxopia.Examples.{
  program, toy_runtime, pool_key, sample_pool, sample_redemption, sample_utxo, redemption_key,
  utxo_key, info,
}

abbrev late_runtime : Runtime
late_runtime = record toy_runtime { slot = 216_009 }

abbrev toy_hash2 : Hash → Hash → Result Hash
toy_hash2 a b = ok zero_hash

abbrev toy_hash3 : Hash → Hash → Hash → Result Hash
toy_hash3 a b c = ok c

abbrev emptied_pool : PoolState
emptied_pool = record sample_pool { total_btc_held = 0; utxo_count_lo = 0 }

abbrev in_processing : RedemptionRequest
in_processing = record sample_redemption {
  status = processing;
  processing_slot = 9;
  total_input_sats = 80_000;
  reserved_count = 1;
}

abbrev reserved_utxo : UtxoRecord
reserved_utxo = record (sample_utxo 0 80_000) {
  status = reserved;
  reserved_for_request_id = value 256 (take 8 redemption_key);
}

abbrev sample_config : TokenConfig
sample_config = record {
  bump = 255;
  mint = 2 ∷ [];
  token_id = [];
  vault = [];
  decimals = 8;
  enabled = 1;
  service_fee = 0;
  min_deposit = 0;
  max_deposit = 0;
  deposit_cap = 0;
  total_shielded = 7;
  accumulated_fees = 0;
}

abbrev tree_key : Bytes
tree_key = tree_seed ++ (pool_key ++ (0 ∷ 0 ∷ 0 ∷ 0 ∷ []))

abbrev config_key : Bytes
config_key = token_config_seed ++ (pool_key ++ (2 ∷ []))

abbrev processing_store : Store
processing_store key = record {
  owner = program;
  lamports = 1;
  content =
      if bytes_eq key (utxo_key 0)
      then utxo_record reserved_utxo
      else if bytes_eq key pool_key
      then pool_state emptied_pool
      else if bytes_eq key redemption_key
      then redemption_request in_processing
      else if bytes_eq key tree_key
      then commitment_tree init
      else if bytes_eq key config_key
      then token_config sample_config
      else raw [];
}

abbrev cancel_keys : List Bytes
cancel_keys = utxo_key 0 ∷ []

cancel-Distinct : Distinct cancel_keys
cancel-Distinct = (tt, tt)

cancel_custody : InCustody late_runtime processing_store pool_key cancel_keys
unfolding coins coin utxo_count bytes_eq to_le_bytes
cancel_custody = record {
  pool = emptied_pool;
  held = refl;
  custody = (omega arith, omega arith, omega arith);
  amount = refl;
  count = refl;
}

only_utxo :
    (k : Bytes) (utxo : UtxoRecord)
    → (processing_store k).content ≡ utxo_record utxo
    → (bytes_eq k (utxo_key 0) ≡ true) × (utxo ≡ reserved_utxo)
only_utxo k utxo h = grind arith

cancel-IsBacked :
    IsBacked late_runtime pool_key
      (redemption_reservation_key late_runtime redemption_key)
      processing_store
unfolding to_le_bytes
cancel-IsBacked k utxo held bound mine =
    let (here, same) = only_utxo k utxo held in rw same (here, omega arith)

abbrev cancel_data : Bytes
cancel_data = replicate 32 1 ++ (1 ∷ [])

abbrev cancel_accounts : List AccountInfo
cancel_accounts =
    info (8 ∷ [])
    ∷ info pool_key
    ∷ info redemption_key
    ∷ info tree_key
    ∷ info []
    ∷ info config_key
    ∷ info (utxo_key 0)
    ∷ []

abbrev stored : Result Store → Store
stored (ok t) = t
stored (err _) = processing_store

abbrev cancelled_store : Store
cancelled_store = stored (
    process_cancel_redemption late_runtime toy_hash2 toy_hash3 cancel_accounts cancel_data
      processing_store)

cancelled_ok :
    process_cancel_redemption late_runtime toy_hash2 toy_hash3 cancel_accounts cancel_data
      processing_store
    ≡ ok cancelled_store
unfolding process_cancel_redemption cancel_redemption_data validate_redemption_pda
    validate_pool_state_pda validate_active_tree_pda cancel_for check_cancel check_token_config
    restore redemption_reservation_key release_utxos release_utxo mint_again compute_commitment
    insert_leaf append_leaf walk update_root init zero_hashes big_endian add_token_shielded credited
    add_utxos utxo_count set_utxo_count close_account_securely put_content put_lamports bytes_eq
    to_le_bytes
cancelled_ok = refl

process_cancel_redemption-Cancelled_example :
    (true ≡ true)
    × ((pool : PoolState) × ((processing_store pool_key).content ≡ pool_state pool)
        × (pool.paused ≡ false))
    × InCustody late_runtime cancelled_store pool_key cancel_keys
    × Cancelled late_runtime toy_hash2 toy_hash3 processing_store cancelled_store
        (8 ∷ [])
        pool_key
        redemption_key
        tree_key
        config_key
        (range 0 32 cancel_data)
        cancel_keys
process_cancel_redemption-Cancelled_example =
    process_cancel_redemption-Cancelled late_runtime toy_hash2 toy_hash3 (info (8 ∷ []))
      (info pool_key) (info redemption_key) (info tree_key) (info []) (info config_key)
      (info (utxo_key 0) ∷ []) cancel_data cancel_keys processing_store cancelled_store
      cancel-Distinct (inl refl, tt) cancel_custody cancel-IsBacked cancelled_ok
