-- ===== src/Utxopia/AdminUpdatePool.antt =====
-- programs/utxopia/src/instructions/admin_update_pool.rs: the timelocked parameters of the pool, and
-- the shield fee.
use utxopia_solana_programs.Prelude.{ℕ, List, Bool, not, ltb, ◌==◌, bytes_eq, length, if◌then◌else◌}
use utxopia_solana_programs.Prelude.Numbers.{checked_add_i64}
use utxopia_solana_programs.Prelude.Digits.{value}
use utxopia_solana_programs.Prelude.Results.{
  Result, ok, ◌>>=◌, ◌>>◌, require, reject, ok_or, not_enough_account_keys,
  invalid_instruction_data, missing_required_signature, arithmetic_overflow, unauthorized,
  no_pending_proposal, timelock_not_elapsed,
}
use utxopia_solana_programs.Utxopia.Bytes.{Bytes, range}
use utxopia_solana_programs.Utxopia.State.{
  Store, AccountInfo, PoolState, pool_state, read_pool, put_content,
}
use utxopia_solana_programs.Utxopia.Pool.{has_pending_proposal, clear_pending_proposal}
use utxopia_solana_programs.Utxopia.Validation.{
  Runtime, account_at, validate_account_writable, validate_program_owner,
}
pub mod Timelock

abbrev pub timelock_delay_secs : ℕ
timelock_delay_secs = 172_800

-- 21 million bitcoin in satoshis.
abbrev pub max_supply_sats : ℕ
max_supply_sats = 2_100_000_000_000_000

abbrev pub u64_at : ℕ → Bytes → ℕ
u64_at at bytes = value 256 (range at 8 bytes)

-- The pool as a proposal leaves it.
abbrev pub proposed : PoolState → Bytes → ℕ → PoolState
proposed pool bytes execute_after = record pool {
  pending_min_deposit = u64_at 0 bytes;
  pending_max_deposit = u64_at 8 bytes;
  pending_service_fee = u64_at 16 bytes;
  pending_execute_after = execute_after;
}

-- The pending values in force.
abbrev pub applied : PoolState → ℕ → PoolState
applied pool now = record pool {
  min_deposit = pool.pending_min_deposit;
  max_deposit = pool.pending_max_deposit;
  service_fee_base = pool.pending_service_fee;
  last_update = now;
}

module _ (rt : Runtime) where
  unfoldable pub process_propose_pool_update : List AccountInfo → Bytes → Store → Result Store
  unfolding put_content
  process_propose_pool_update accounts bytes s = do
    reject (ltb (length accounts) 2) not_enough_account_keys
    require (length bytes == 24) invalid_instruction_data
    pool_state_info ← account_at accounts 0
    authority ← account_at accounts 1
    validate_program_owner rt s pool_state_info
    validate_account_writable pool_state_info
    require authority.is_signer missing_required_signature
    reject (ltb (u64_at 8 bytes) (u64_at 0 bytes)) invalid_instruction_data
    reject (ltb max_supply_sats (u64_at 8 bytes)) invalid_instruction_data
    execute_after ←
        ok_or (checked_add_i64 rt.unix_timestamp timelock_delay_secs) arithmetic_overflow
    pool ← read_pool (s pool_state_info.key).content
    require (bytes_eq authority.key pool.authority) unauthorized
    ok (put_content s pool_state_info.key (pool_state (proposed pool bytes execute_after)))

  unfoldable pub process_execute_pool_update : List AccountInfo → Bytes → Store → Result Store
  unfolding has_pending_proposal clear_pending_proposal put_content
  process_execute_pool_update accounts bytes s = do
    reject (ltb (length accounts) 2) not_enough_account_keys
    pool_state_info ← account_at accounts 0
    authority ← account_at accounts 1
    require authority.is_signer missing_required_signature
    validate_program_owner rt s pool_state_info
    validate_account_writable pool_state_info
    pool ← read_pool (s pool_state_info.key).content
    require (bytes_eq authority.key pool.authority) unauthorized
    require (has_pending_proposal pool) no_pending_proposal
    reject (ltb rt.unix_timestamp pool.pending_execute_after) timelock_not_elapsed
    ok (
        put_content s pool_state_info.key
          (pool_state (clear_pending_proposal (applied pool rt.unix_timestamp))))

  unfoldable pub process_cancel_pool_update : List AccountInfo → Bytes → Store → Result Store
  unfolding has_pending_proposal clear_pending_proposal put_content
  process_cancel_pool_update accounts bytes s = do
    reject (ltb (length accounts) 2) not_enough_account_keys
    pool_state_info ← account_at accounts 0
    authority ← account_at accounts 1
    validate_program_owner rt s pool_state_info
    validate_account_writable pool_state_info
    require authority.is_signer missing_required_signature
    pool ← read_pool (s pool_state_info.key).content
    require (bytes_eq authority.key pool.authority) unauthorized
    require (has_pending_proposal pool) no_pending_proposal
    ok (put_content s pool_state_info.key (pool_state (clear_pending_proposal pool)))

  unfoldable pub process_set_deposit_fee_bps : List AccountInfo → Bytes → Store → Result Store
  unfolding put_content
  process_set_deposit_fee_bps accounts bytes s = do
    reject (ltb (length accounts) 2) not_enough_account_keys
    require (length bytes == 2) invalid_instruction_data
    pool_state_info ← account_at accounts 0
    authority ← account_at accounts 1
    require authority.is_signer missing_required_signature
    validate_program_owner rt s pool_state_info
    validate_account_writable pool_state_info
    pool ← read_pool (s pool_state_info.key).content
    require (bytes_eq authority.key pool.authority) unauthorized
    let new_bps = value 256 (range 0 2 bytes)
    reject (ltb pool.deposit_fee_bps new_bps) invalid_instruction_data
    ok (put_content s pool_state_info.key (pool_state (record pool { deposit_fee_bps = new_bps })))
