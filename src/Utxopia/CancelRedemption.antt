-- ===== src/Utxopia/CancelRedemption.antt =====
-- programs/utxopia/src/instructions/cancel_redemption.rs: the requester takes a redemption back. Its
-- UTXOs return to the pool and its amount is minted again as a note. Events are left out.
-- `poseidon2_hash` and `poseidon3_hash` are arguments, which may fail.
use utxopia_solana_programs.Prelude.{
  ℕ, ◌+◌, ◌-◌, ◌%◌, List, [], ◌∷◌, Bool, true, false, not, ltb, ◌==◌, ◌&&◌, ◌||◌, if◌then◌else◌,
  bytes_eq, length, get_or, take, drop,
}
use utxopia_solana_programs.Prelude.Numbers.{u32_mod, checked_add, saturating_sub}
use utxopia_solana_programs.Prelude.Results.{
  Result, ok, err, ◌>>=◌, ◌>>◌, require, reject, ok_or, not_enough_account_keys,
  invalid_instruction_data, missing_required_signature, arithmetic_overflow, pool_paused,
  unauthorized, invalid_seeds, invalid_utxo, redemption_cancel_not_allowed,
}
use utxopia_solana_programs.Utxopia.Bytes.{Bytes, range}
use utxopia_solana_programs.Utxopia.CommitmentTree.{Hash, big_endian, insert_leaf}
use utxopia_solana_programs.Utxopia.State.{
  Store, AccountInfo, PoolState, pending, processing, failed, RedemptionRequest, unspent,
  TokenConfig, pool_state, utxo_record, token_config, commitment_tree, read_pool, read_redemption,
  read_utxo, read_token_config, read_tree, put_content,
}
use utxopia_solana_programs.Utxopia.Pool.{add_utxos}
use utxopia_solana_programs.Utxopia.Validation.{
  Runtime, account_at, validate_account_writable, validate_program_owner, validate_redemption_pda,
  validate_active_tree_pda, redemption_reservation_key, close_account_securely, token_config_seed,
}
use utxopia_solana_programs.Utxopia.MarkProcessing.{is_unspent}
pub mod Release
pub mod Ledger
pub mod Stages
pub mod Closing
pub mod Cancelled
pub mod Safety
mod Examples

-- `MAX_UTXOS_PER_CANCEL`, and `REDEMPTION_TIMEOUT_SLOTS` of constants.rs.
abbrev pub max_utxos_per_cancel : ℕ
max_utxos_per_cancel = 20

abbrev pub redemption_timeout_slots : ℕ
redemption_timeout_slots = 216_000

pub record CancelRedemptionData : Type 0 where
  pub npk : Hash
  pub utxo_count : ℕ

-- `CancelRedemptionData::from_bytes`.
unfoldable pub cancel_redemption_data : Bytes → Result CancelRedemptionData
cancel_redemption_data bytes = do
  reject (ltb (length bytes) 32) invalid_instruction_data
  let utxo_count = if ltb 32 (length bytes) then get_or bytes 32 0 else 0
  reject (ltb max_utxos_per_cancel utxo_count) invalid_instruction_data
  ok (record { npk = range 0 32 bytes; utxo_count = utxo_count })

-- `(clock.slot as u32).wrapping_sub(processing_slot)`.
abbrev pub slots_elapsed : ℕ → ℕ → ℕ
slots_elapsed slot processing_slot = (slot % u32_mod + u32_mod - processing_slot) % u32_mod

-- `TokenConfig::add_shielded`.
unfoldable pub add_token_shielded : TokenConfig → ℕ → Result TokenConfig
add_token_shielded config amount = do
  total ← ok_or (checked_add config.total_shielded amount) arithmetic_overflow
  ok (record config { total_shielded = total })

-- The pool as the cancellation leaves it.
unfoldable pub credited : PoolState → ℕ → ℕ → ℕ → ℕ → Result PoolState
unfolding add_utxos
credited pool total_shielded restored_total utxo_count now = do
  let shielded = record pool { total_shielded = total_shielded }
  restored ←
      (if ltb 0 restored_total then add_utxos shielded restored_total utxo_count else ok shielded)
  ok (record restored {
    pending_redemptions = saturating_sub restored.pending_redemptions 1;
    last_update = now;
  })

-- The release of one UTXO, on the total of the rounds before.
module _ (rt : Runtime) (reservation_key : ℕ) where
  unfoldable pub release_utxo : AccountInfo → ℕ → Store → Result (Store × ℕ)
  unfolding put_content
  release_utxo utxo_info total s = do
    validate_program_owner rt s utxo_info
    validate_account_writable utxo_info
    utxo ← read_utxo (s utxo_info.key).content
    reject (is_unspent utxo.status || not (utxo.reserved_for_request_id == reservation_key))
        invalid_utxo
    sum ← ok_or (checked_add total utxo.amount_sats) arithmetic_overflow
    ok (
      put_content s utxo_info.key
          (utxo_record (record utxo { status = unspent; reserved_for_request_id = 0 })),
      sum,
    )

  unfoldable pub release_utxos : List AccountInfo → ℕ → Store → Result (Store × ℕ)
  unfolding release_utxo
  release_utxos [] total s = ok (s, total)
  release_utxos (utxo_info ∷ infos) total s = do
    (s1, sum) ← release_utxo utxo_info total s
    release_utxos infos sum s1

module _ (rt : Runtime) where
  -- Whether the redemption is in Processing, where it can be cancelled by `user`.
  unfoldable pub check_cancel : Bytes → RedemptionRequest → Result Bool
  check_cancel user redemption = do
    require (bytes_eq user redemption.requester) unauthorized
    reject redemption.signing_approved redemption_cancel_not_allowed
    elim redemption.status [
      | pending ↦ ok false
      | processing ↦
          reject (ltb (slots_elapsed rt.slot redemption.processing_slot) redemption_timeout_slots)
            redemption_cancel_not_allowed
          >> ok true
      | failed ↦ err redemption_cancel_not_allowed
    ]

  unfoldable pub check_token_config : Store → AccountInfo → AccountInfo → Bytes → Result (Unit {0})
  check_token_config s token_config_info pool_state_info token_id = do
    validate_program_owner rt s token_config_info
    validate_account_writable token_config_info
    config ← read_token_config (s token_config_info.key).content
    let (expected, _) =
        rt.find_program_address (token_config_seed ∷ pool_state_info.key ∷ config.mint ∷ [])
    require (bytes_eq token_config_info.key expected) invalid_seeds
    require (bytes_eq config.token_id token_id) unauthorized

  -- The UTXOs that were reserved return, exactly as many as were.
  unfoldable pub restore :
      Bool → RedemptionRequest → Bytes → List AccountInfo → ℕ → Store → Result (Store × ℕ)
  restore was_processing redemption redemption_key utxo_infos utxo_count s = do
    reject (was_processing && not (utxo_count == redemption.reserved_count)) invalid_utxo
    (if was_processing
        then release_utxos rt (redemption_reservation_key rt redemption_key) utxo_infos 0 s
        else (do require (utxo_count == 0) invalid_instruction_data; ok (s, 0)))

  module _ (poseidon2_hash : Hash → Hash → Result Hash)
      (poseidon3_hash : Hash → Hash → Hash → Result Hash) where
    -- The amount as a 32-byte field element.
    unfoldable pub compute_commitment : Hash → Bytes → ℕ → Result Hash
    unfolding big_endian
    compute_commitment npk token_id amount_sats =
        poseidon3_hash npk token_id (big_endian amount_sats)

    -- The note goes into the tree, and the ledgers are credited.
    unfoldable pub mint_again :
        Bytes → Bytes → Bytes → RedemptionRequest → CancelRedemptionData → ℕ → Store → Result Store
    mint_again tree_key config_key pool_key redemption ix restored_total s = do
      commitment ← compute_commitment ix.npk redemption.token_id redemption.amount_sats
      tree ← read_tree (s tree_key).content
      (grown, _) ← insert_leaf poseidon2_hash tree commitment
      let s1 = put_content s tree_key (commitment_tree grown)
      config ← read_token_config (s1 config_key).content
      shielded ← add_token_shielded config redemption.amount_sats
      let s2 = put_content s1 config_key (token_config shielded)
      pool ← read_pool (s2 pool_key).content
      after ← credited pool shielded.total_shielded restored_total ix.utxo_count rt.unix_timestamp
      ok (put_content s2 pool_key (pool_state after))

    -- Behind the checks of signer, owners and addresses.
    unfoldable pub cancel_for :
        AccountInfo
        → AccountInfo
        → AccountInfo
        → AccountInfo
        → AccountInfo
        → List AccountInfo
        → CancelRedemptionData
        → Store
        → Result Store
    cancel_for user pool_info redemption_info tree_info config_info utxo_infos ix s = do
      redemption ← read_redemption (s redemption_info.key).content
      was_processing ← check_cancel user.key redemption
      check_token_config s config_info pool_info redemption.token_id
      reject (ltb (length utxo_infos) ix.utxo_count) not_enough_account_keys
      (s1, restored_total) ←
          restore was_processing redemption redemption_info.key (take ix.utxo_count utxo_infos)
            ix.utxo_count s
      s2 ← mint_again tree_info.key config_info.key pool_info.key redemption ix restored_total s1
      close_account_securely s2 redemption_info user

    unfoldable pub process_cancel_redemption : List AccountInfo → Bytes → Store → Result Store
    process_cancel_redemption accounts bytes s = do
      reject (ltb (length accounts) 6) not_enough_account_keys
      user ← account_at accounts 0
      pool_state_info ← account_at accounts 1
      redemption_info ← account_at accounts 2
      commitment_tree_info ← account_at accounts 3
      token_config_info ← account_at accounts 5
      ix ← cancel_redemption_data bytes
      require user.is_signer missing_required_signature
      validate_program_owner rt s pool_state_info
      validate_program_owner rt s redemption_info
      validate_redemption_pda rt s redemption_info pool_state_info
      validate_program_owner rt s commitment_tree_info
      validate_account_writable pool_state_info
      validate_account_writable redemption_info
      validate_account_writable commitment_tree_info
      pool ← read_pool (s pool_state_info.key).content
      reject pool.paused pool_paused
      validate_active_tree_pda rt s commitment_tree_info pool_state_info pool.active_tree_index
      cancel_for user pool_state_info redemption_info commitment_tree_info token_config_info
          (drop 6 accounts) ix s
