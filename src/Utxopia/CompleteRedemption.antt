-- ===== src/Utxopia/CompleteRedemption.antt =====
-- programs/utxopia/src/instructions/complete_redemption.rs: the instruction data, and how a redemption
-- is settled against the Bitcoin transaction that paid it. The accounts that the instruction reads,
-- creates and closes are not modelled.
use utxopia_solana_programs.Prelude.{
  ℕ, ◌+◌, ◌-◌, ◌/◌, List, [], ◌∷◌, ◌++◌, Bool, true, false, not, ltb, leb, ◌==◌, ◌&&◌, ◌||◌,
  if◌then◌else◌, bytes_eq, length, get_or, take, replicate, max, Option, none, some,
}
use utxopia_solana_programs.Prelude.Numbers.{checked_add, checked_sub, saturating_sub}
use utxopia_solana_programs.Prelude.Digits.{value}
use utxopia_solana_programs.Prelude.Results.{
  Result, ok, err, ◌>>=◌, ◌>>◌, require, reject, ok_or, invalid_instruction_data,
  arithmetic_overflow, pool_paused, redemption_output_mismatch, amount_too_small,
  redemption_amount_exceeds_limit, redemption_fee_exceeds_limit,
}
use utxopia_solana_programs.Utxopia.Bytes.{Bytes, range}
use utxopia_solana_programs.Utxopia.Iterators.{any}
use utxopia_solana_programs.Utxopia.State.{PoolState}
use utxopia_solana_programs.Utxopia.Bitcoin.{ParsedTransaction}
use utxopia_solana_programs.Utxopia.Bitcoin.Outputs.{
  TxOutput, outputs, has_script, is_op_return, sum_outputs,
}
use utxopia_solana_programs.Utxopia.MarkProcessing.{max_miner_fee_sats}
pub mod Payout
pub mod Conservation
mod Examples

pub record CompleteRedemptionData : Type 0 where
  pub btc_txid : Bytes
  pub tx_size : ℕ
  pub pool_script_len : ℕ
  pub pool_script : Bytes
  pub consumed_utxo_count : ℕ

-- The byte behind the script ends the data.
unfoldable pub with_script : Bytes → ℕ → Bytes → Result CompleteRedemptionData
with_script bytes offset pool_script = do
  reject (leb (length bytes) offset) invalid_instruction_data
  require (offset + 1 == length bytes) invalid_instruction_data
  ok (record {
    btc_txid = range 0 32 bytes;
    tx_size = value 256 (range 32 4 bytes);
    pool_script_len = get_or bytes 36 0;
    pool_script = pool_script;
    consumed_utxo_count = get_or bytes offset 0;
  })

-- `CompleteRedemptionData::from_bytes`.
unfoldable pub complete_redemption_data : Bytes → Result CompleteRedemptionData
unfolding with_script
complete_redemption_data bytes = do
  reject (ltb (length bytes) 38) invalid_instruction_data
  let len = get_or bytes 36 0
  reject (ltb 0 len && (ltb (length bytes) (37 + len) || ltb 34 len)) invalid_instruction_data
  with_script bytes (37 + len) (range 37 len bytes ++ replicate (34 - len) 0)

-- The loop of `redemption_outputs_within_policy`, on the change outputs so far.
unfoldable pub policy_loop : Bytes → Bytes → ℕ → List TxOutput → Bool
policy_loop recipient_script pool_script change_outputs [] = true
policy_loop recipient_script pool_script change_outputs (output ∷ rest) =
    if is_op_return output
    then (if output.value == 0
        then policy_loop recipient_script pool_script change_outputs rest
        else false)
    else if has_script recipient_script output
    then policy_loop recipient_script pool_script change_outputs rest
    else if ltb 0 (length pool_script) && has_script pool_script output
    then (if ltb 1 (change_outputs + 1)
        then false
        else policy_loop recipient_script pool_script (change_outputs + 1) rest)
    else false

unfoldable pub redemption_outputs_within_policy : ParsedTransaction → Bytes → Bytes → Bool
redemption_outputs_within_policy parsed_tx recipient_script pool_script =
    policy_loop recipient_script pool_script 0 (outputs parsed_tx)

-- The burned amount and the protocol's revenue.
unfoldable pub redemption_accounting : ℕ → ℕ → ℕ → Result (ℕ × ℕ)
redemption_accounting amount_sats actual_received miner_fee = do
  burn_amount ← ok_or (checked_add actual_received miner_fee) arithmetic_overflow
  protocol_revenue ← ok_or (checked_sub amount_sats burn_amount) redemption_output_mismatch
  ok (burn_amount, protocol_revenue)

-- The loop that sums every output with the recipient's script.
unfoldable pub received_loop : Bytes → ℕ → List TxOutput → Result ℕ
received_loop script total [] = ok total
received_loop script total (output ∷ rest) = do
  sum ←
      (if has_script script output
        then ok_or (checked_add total output.value) arithmetic_overflow
        else ok total)
  received_loop script sum rest

-- `MAX_FEE_SATS`, and `MAX_REDEMPTION_AMOUNT_SATS` of utils/policy.rs.
abbrev pub max_fee_sats : ℕ
max_fee_sats = 50_000

abbrev pub max_redemption_amount_sats : ℕ
max_redemption_amount_sats = 100_000_000

unfoldable pub check_redemption_signing : PoolState → ℕ → ℕ → Result (Unit {0})
check_redemption_signing pool amount_sats miner_fee_sats = do
  reject pool.paused pool_paused
  reject (ltb max_redemption_amount_sats amount_sats) redemption_amount_exceeds_limit
  reject (ltb max_miner_fee_sats miner_fee_sats) redemption_fee_exceeds_limit
  ok tt

-- The least that the recipient must get.
abbrev pub min_amount : ℕ → ℕ
min_amount expected_send =
    max (saturating_sub expected_send max_fee_sats)
      (saturating_sub expected_send (expected_send / 100))

pub record Settlement : Type 0 where
  pub actual_received : ℕ
  pub miner_fee : ℕ
  pub burn_amount : ℕ
  pub protocol_revenue : ℕ

-- The recipient is paid enough and no more than due, and nobody else is. The result is what it got.
unfoldable pub check_payout : ParsedTransaction → Bytes → Bytes → ℕ → ℕ → Result ℕ
check_payout parsed_tx recipient_script pool_script amount_sats service_fee = do
  expected_send ← ok_or (checked_sub amount_sats service_fee) arithmetic_overflow
  actual_received ← received_loop recipient_script 0 (outputs parsed_tx)
  reject
      (not (any (has_script recipient_script) (outputs parsed_tx))
        || (ltb actual_received (min_amount expected_send) || ltb expected_send actual_received))
      redemption_output_mismatch
  reject (ltb 0 (length pool_script) && bytes_eq recipient_script pool_script)
      redemption_output_mismatch
  require (redemption_outputs_within_policy parsed_tx recipient_script pool_script)
      redemption_output_mismatch
  ok actual_received

-- The miner fee is what the inputs leave over, and the rest of the amount is kept.
unfoldable pub account_for : PoolState → ParsedTransaction → ℕ → ℕ → ℕ → Result Settlement
account_for pool parsed_tx amount_sats total_input_sats actual_received = do
  reject (total_input_sats == 0) amount_too_small
  miner_fee ←
      ok_or (checked_sub total_input_sats (sum_outputs parsed_tx)) redemption_output_mismatch
  reject (ltb max_fee_sats miner_fee) redemption_output_mismatch
  check_redemption_signing pool amount_sats miner_fee
  (burn_amount, protocol_revenue) ← redemption_accounting amount_sats actual_received miner_fee
  ok (record {
    actual_received = actual_received;
    miner_fee = miner_fee;
    burn_amount = burn_amount;
    protocol_revenue = protocol_revenue;
  })

-- From the output verification to the amounts that are burned and kept.
unfoldable pub settle :
    PoolState → ParsedTransaction → Bytes → Bytes → ℕ → ℕ → ℕ → Result Settlement
settle pool parsed_tx recipient_script pool_script amount_sats service_fee total_input_sats = do
  actual_received ← check_payout parsed_tx recipient_script pool_script amount_sats service_fee
  account_for pool parsed_tx amount_sats total_input_sats actual_received
