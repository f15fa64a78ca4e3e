-- ===== src/Utxopia/CompleteRedemption/Examples.antt =====
-- The settlement's theorem at a concrete transaction: a recipient, and change to the pool.
use utxopia_solana_programs.Prelude.{◌≡◌, refl, [], ◌∷◌, false, arith, bytes_eq}
use utxopia_solana_programs.Prelude.Results.{ok}
use utxopia_solana_programs.Utxopia.Bytes.{Bytes}
use utxopia_solana_programs.Utxopia.State.{PoolState}
use utxopia_solana_programs.Utxopia.Bitcoin.{ParsedTransaction, read_varint}
use utxopia_solana_programs.Utxopia.Bitcoin.Outputs.{
  next_output, outputs, is_op_return, sum_values, sum_outputs,
}
use utxopia_solana_programs.Utxopia.CompleteRedemption.{
  policy_loop, redemption_outputs_within_policy, redemption_accounting, received_loop,
  check_redemption_signing, Settlement, check_payout, account_for, settle,
}
use utxopia_solana_programs.Utxopia.CompleteRedemption.Payout.{IsPayable}
use utxopia_solana_programs.Utxopia.CompleteRedemption.Conservation.{Settled, settle-Settled}

abbrev running : PoolState
running = record {
  bump = 255;
  paused = false;
  permissioned = false;
  auditor_frozen = false;
  vk_registries_frozen = false;
  authority = [];
  zkbtc_mint = [];
  pool_vault = [];
  deposit_vault = [];
  deposit_count = 0;
  total_minted = 0;
  total_burned = 0;
  pending_redemptions = 1;
  last_update = 0;
  min_deposit = 0;
  max_deposit = 0;
  total_shielded = 0;
  service_fee_base = 0;
  fee_pool = 0;
  pending_min_deposit = 0;
  pending_max_deposit = 0;
  pending_service_fee = 0;
  pending_execute_after = 0;
  deposit_fee_bps = 0;
  withdrawal_fee_bps = 0;
  total_btc_held = 0;
  utxo_count_lo = 0;
  active_tree_index = 0;
  utxo_count_hi = 0;
  auditor = [];
  auditor_viewing_pubkey = [];
  nullifier_count = 0;
}

abbrev recipient : Bytes
recipient = 81 ∷ []

abbrev pool_script : Bytes
pool_script = 82 ∷ []

-- 59_000 to the recipient and 20_500 back.
abbrev payout : ParsedTransaction
payout = record {
  inputs_data = [];
  input_count = 1;
  outputs_data =
      120 ∷ 230 ∷ 0 ∷ 0 ∷ 0 ∷ 0 ∷ 0 ∷ 0 ∷ 1 ∷ 81 ∷ 20 ∷ 80 ∷ 0 ∷ 0 ∷ 0 ∷ 0 ∷ 0 ∷ 0 ∷ 1 ∷ 82 ∷ [];
  output_count = 2;
}

abbrev settlement : Settlement
settlement = record {
  actual_received = 59_000;
  miner_fee = 500;
  burn_amount = 59_500;
  protocol_revenue = 500;
}

payable : IsPayable pool_script
payable e = omega arith

settled_ok : settle running payout recipient pool_script 60_000 1_000 80_000 ≡ ok settlement
unfolding settle check_payout account_for check_redemption_signing redemption_accounting
    received_loop redemption_outputs_within_policy policy_loop outputs next_output read_varint
    is_op_return sum_outputs sum_values bytes_eq
settled_ok = refl

settle-Settled_example : Settled running payout recipient pool_script 60_000 1_000 80_000 settlement
settle-Settled_example =
    settle-Settled running payout recipient pool_script 60_000 1_000 80_000 settlement payable
      (omega arith) settled_ok
