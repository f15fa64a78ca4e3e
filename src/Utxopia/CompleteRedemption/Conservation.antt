-- ===== src/Utxopia/CompleteRedemption/Conservation.antt =====
-- What a settlement burns is what left the pool: the inputs are the burned amount and the change.
use utxopia_solana_programs.Prelude.{
  ℕ, ◌+◌, ◌-◌, ◌/◌, max, ◌≤◌, ◌<◌, ◌≡◌, ◌≢◌, inl, inr, true, false, ltb, ◌&&◌, bytes_eq,
  eq→bytes_eq, ltb→lt, length, Bool-cases, arith,
}
use utxopia_solana_programs.Prelude.Numbers.{u64_mod}
use utxopia_solana_programs.Prelude.Results.{ok, >>=-eq-ok}
use utxopia_solana_programs.Utxopia.Bytes.{Bytes}
use utxopia_solana_programs.Utxopia.State.{PoolState}
use utxopia_solana_programs.Utxopia.Bitcoin.{ParsedTransaction}
use utxopia_solana_programs.Utxopia.Bitcoin.Outputs.{outputs, sum_outputs}
use utxopia_solana_programs.Utxopia.CompleteRedemption.{
  redemption_outputs_within_policy, received_loop, redemption_accounting, Settlement, settle,
  check_payout, account_for, check_redemption_signing, min_amount, max_fee_sats,
}
use utxopia_solana_programs.Utxopia.CompleteRedemption.Payout.{
  all_values, values_with, sum_values_capped, received_loop_lem, IsPayable, tracked_change,
  policy_closed, policy_tracked,
}

-- What a settlement establishes.
pub record Settled (pool : PoolState) (parsed_tx : ParsedTransaction)
    (recipient_script pool_script : Bytes) (amount_sats service_fee total_input_sats : ℕ)
    (result : Settlement) : Type 0 where
  pub running : pool.paused ≡ false
  pub received : result.actual_received ≡ values_with recipient_script (outputs parsed_tx)
  pub at_least :
      max
        (amount_sats - service_fee - 50_000)
        (amount_sats - service_fee - (amount_sats - service_fee) / 100)
      ≤ result.actual_received
  pub at_most : result.actual_received + service_fee ≤ amount_sats
  pub fee_capped : result.miner_fee ≤ max_fee_sats
  pub split : amount_sats ≡ result.burn_amount + result.protocol_revenue
  pub conserved :
      total_input_sats ≡ result.burn_amount + tracked_change pool_script (outputs parsed_tx)

check_payout_inversion :
    (P : Type 0) (tx : ParsedTransaction) (r p : Bytes) (amount fee received : ℕ)
    → (fee ≤ amount
        → received_loop r 0 (outputs tx) ≡ ok received
        → min_amount (amount - fee) ≤ received
        → received ≤ amount - fee
        → (ltb 0 (length p) && bytes_eq r p) ≡ false
        → redemption_outputs_within_policy tx r p ≡ true
        → P)
    → check_payout tx r p amount fee ≡ ok received
    → P
unfolding check_payout
check_payout_inversion P tx r p amount fee received k h = grind arith

account_for_inversion :
    (P : Type 0) (pool : PoolState) (tx : ParsedTransaction) (amount total received : ℕ)
    (result : Settlement)
    → (sum_outputs tx ≤ total
        → total - sum_outputs tx ≤ max_fee_sats
        → check_redemption_signing pool amount (total - sum_outputs tx) ≡ ok tt
        → result.actual_received ≡ received
        → result.miner_fee ≡ total - sum_outputs tx
        → redemption_accounting amount received (total - sum_outputs tx)
          ≡ ok (result.burn_amount, result.protocol_revenue)
        → P)
    → account_for pool tx amount total received ≡ ok result
    → P
unfolding account_for
account_for_inversion P pool tx amount total received result k h = grind arith

running_pool :
    (pool : PoolState) (amount fee : ℕ)
    → check_redemption_signing pool amount fee ≡ ok tt
    → pool.paused ≡ false
unfolding check_redemption_signing
running_pool pool amount fee h = grind arith

redemption_accounting_lem :
    (amount received fee burn revenue : ℕ)
    → redemption_accounting amount received fee ≡ ok (burn, revenue)
    → (burn ≡ received + fee) × (amount ≡ burn + revenue)
unfolding redemption_accounting
redemption_accounting_lem amount received fee burn revenue h = grind arith

sum_outputs_lem :
    (tx : ParsedTransaction) (total : ℕ)
    → total < u64_mod - 1
    → sum_outputs tx ≤ total
    → sum_outputs tx ≡ all_values (outputs tx)
unfolding sum_outputs
sum_outputs_lem tx total small h = omega (arith, sum_values_capped 0 (outputs tx) (omega arith))

scripts_differ :
    (r p : Bytes) → ltb 0 (length p) ≡ true → (ltb 0 (length p) && bytes_eq r p) ≡ false → r ≢ p
scripts_differ r p some_script apart same = grind (arith, eq→bytes_eq r p same)

policy_change :
    (tx : ParsedTransaction) (r p : Bytes)
    → IsPayable p
    → (ltb 0 (length p) && bytes_eq r p) ≡ false
    → redemption_outputs_within_policy tx r p ≡ true
    → all_values (outputs tx) ≡ values_with r (outputs tx) + tracked_change p (outputs tx)
unfolding redemption_outputs_within_policy
policy_change tx r p payable apart h = elim (Bool-cases (ltb 0 (length p))) [
  | inl e ↦
      let ne : r ≢ p = λ same. scripts_differ r p e apart same in
      rw e (policy_tracked r p 0 (outputs tx) payable ne (ltb→lt 0 (length p) e) h)
  | inr e ↦ rw e (omega (arith, policy_closed r p 0 (outputs tx) (inl (ground arith)) h))
]

-- When a settlement of less than 2 ^ 64 - 1 satoshis of inputs succeeds, with a pool script that is
-- not an OP_RETURN, the pool is not paused; the received amount is all that the outputs with the
-- recipient's script pay, within the tolerance below what is due and not above it; the miner fee is
-- capped; the redeemed amount splits into the burned amount and the revenue; and the inputs are the
-- burned amount and the change output that the pool tracks.
pub settle-Settled :
    (pool : PoolState) (tx : ParsedTransaction) (r p : Bytes) (amount fee total : ℕ)
    (result : Settlement)
    → IsPayable p
    → total < u64_mod - 1
    → settle pool tx r p amount fee total ≡ ok result
    → Settled pool tx r p amount fee total result
unfolding settle
settle-Settled pool tx r p amount fee total result payable small h =
    let (received, paid, rest) = >>=-eq-ok (check_payout tx r p amount fee) _ h in
    check_payout_inversion _ tx r p amount fee received
      (λ le loop least most apart policy.
        account_for_inversion _ pool tx amount total received result
          (λ in_total capped signing got miner accounts.
            let (burn, split) = redemption_accounting_lem amount received _ _ _ accounts in
            record {
              running = running_pool pool amount _ signing;
              received = omega (arith, got, received_loop_lem r 0 received (outputs tx) loop);
              at_least = omega (arith, least, got);
              at_most = omega (arith, most, got, le);
              fee_capped = omega (arith, miner, capped);
              split = split;
              conserved = omega (
                arith,
                burn,
                in_total,
                sum_outputs_lem tx total small in_total,
                policy_change tx r p payable apart policy,
                received_loop_lem r 0 received (outputs tx) loop,
              );
            })
          rest)
      paid
