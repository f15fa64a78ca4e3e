-- ===== src/Utxopia/Pool.antt =====
-- programs/utxopia/src/state/pool.rs: the operations of `PoolState` beyond the reads and writes of a
-- single field.
use utxopia_solana_programs.Prelude.{
  ℕ, ◌+◌, ◌-◌, ◌*◌, ◌/◌, ◌%◌, Bool, not, ◌==◌, ltb, if◌then◌else◌, min, Option, none, some,
}
use utxopia_solana_programs.Prelude.Numbers.{
  u16_mod, u32_mod, u64_mod, checked_add, checked_sub, checked_add_u32, saturating_add,
}
use utxopia_solana_programs.Prelude.Results.{Result, ok, ◌>>=◌, ok_or, arithmetic_overflow}
use utxopia_solana_programs.Utxopia.State.{PoolState}
pub mod Custody

-- `(amount as u128 * bps / 10_000).min(u64::MAX)`.
abbrev pub bps_fee : ℕ → ℕ → ℕ
bps_fee amount bps = min (amount * bps / 10_000) (u64_mod - 1)

unfoldable pub compute_deposit_fee : PoolState → ℕ → ℕ
compute_deposit_fee pool amount = bps_fee amount pool.deposit_fee_bps

unfoldable pub compute_withdrawal_fee : PoolState → ℕ → ℕ
compute_withdrawal_fee pool amount = bps_fee amount pool.withdrawal_fee_bps

unfoldable pub compute_service_fee : PoolState → ℕ → ℕ
unfolding compute_withdrawal_fee
compute_service_fee pool amount =
    saturating_add (compute_withdrawal_fee pool amount) pool.service_fee_base

unfoldable pub has_pending_proposal : PoolState → Bool
has_pending_proposal pool = not (pool.pending_execute_after == 0)

-- The halves are 16 bits wide, so the `|` of the source is a sum.
unfoldable pub utxo_count : PoolState → ℕ
utxo_count pool = pool.utxo_count_lo + pool.utxo_count_hi * u16_mod

unfoldable pub set_utxo_count : PoolState → ℕ → PoolState
set_utxo_count pool value = record pool {
  utxo_count_lo = value % u16_mod;
  utxo_count_hi = value / u16_mod % u16_mod;
}

unfoldable pub add_nullifiers : PoolState → ℕ → PoolState
add_nullifiers pool n = record pool {
  nullifier_count = min (pool.nullifier_count + n) (u32_mod - 1);
}

unfoldable pub clear_pending_proposal : PoolState → PoolState
clear_pending_proposal pool = record pool {
  pending_min_deposit = 0;
  pending_max_deposit = 0;
  pending_service_fee = 0;
  pending_execute_after = 0;
}

unfoldable pub increment_deposit_count : PoolState → Result PoolState
increment_deposit_count pool = do
  count ← ok_or (checked_add pool.deposit_count 1) arithmetic_overflow
  ok (record pool { deposit_count = count })

unfoldable pub add_minted : PoolState → ℕ → Result PoolState
add_minted pool amount = do
  total ← ok_or (checked_add pool.total_minted amount) arithmetic_overflow
  ok (record pool { total_minted = total })

unfoldable pub add_burned : PoolState → ℕ → Result PoolState
add_burned pool amount = do
  total ← ok_or (checked_add pool.total_burned amount) arithmetic_overflow
  ok (record pool { total_burned = total })

unfoldable pub add_shielded : PoolState → ℕ → Result PoolState
add_shielded pool amount = do
  total ← ok_or (checked_add pool.total_shielded amount) arithmetic_overflow
  ok (record pool { total_shielded = total })

unfoldable pub sub_shielded : PoolState → ℕ → Result PoolState
sub_shielded pool amount = do
  total ← ok_or (checked_sub pool.total_shielded amount) arithmetic_overflow
  ok (record pool { total_shielded = total })

unfoldable pub add_fee_pool : PoolState → ℕ → Result PoolState
add_fee_pool pool amount = do
  total ← ok_or (checked_add pool.fee_pool amount) arithmetic_overflow
  ok (record pool { fee_pool = total })

unfoldable pub add_utxos : PoolState → ℕ → ℕ → Result PoolState
unfolding utxo_count set_utxo_count
add_utxos pool amount count = do
  held ← ok_or (checked_add pool.total_btc_held amount) arithmetic_overflow
  total ← ok_or (checked_add_u32 (utxo_count pool) count) arithmetic_overflow
  ok (set_utxo_count (record pool { total_btc_held = held }) total)

unfoldable pub add_utxo : PoolState → ℕ → Result PoolState
unfolding utxo_count set_utxo_count
add_utxo pool amount = do
  held ← ok_or (checked_add pool.total_btc_held amount) arithmetic_overflow
  total ← ok_or (checked_add_u32 (utxo_count pool) 1) arithmetic_overflow
  ok (set_utxo_count (record pool { total_btc_held = held }) total)

unfoldable pub remove_utxo : PoolState → ℕ → Result PoolState
unfolding utxo_count set_utxo_count
remove_utxo pool amount = do
  held ← ok_or (checked_sub pool.total_btc_held amount) arithmetic_overflow
  total ← ok_or (checked_sub (utxo_count pool) 1) arithmetic_overflow
  ok (set_utxo_count (record pool { total_btc_held = held }) total)
