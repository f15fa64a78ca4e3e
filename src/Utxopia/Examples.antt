-- ===== src/Utxopia/Examples.antt =====
-- The theorems on the pool's instructions at concrete inputs: a pool of two coins, a redemption, and
-- a proposal that is executed when its time has come.
use utxopia_solana_programs.Prelude.{
  ℕ, ◌≡◌, refl, ap, List, [], ◌∷◌, ◌++◌, true, false, none, arith, bytes_eq, if◌then◌else◌, get_or,
  inl,
}
use utxopia_solana_programs.Prelude.Results.{Result, ok, err}
use utxopia_solana_programs.LightClient.Utils.U256.{to_le_bytes}
use utxopia_solana_programs.Utxopia.Bytes.{Bytes}
use utxopia_solana_programs.Utxopia.State.{
  Store, AccountInfo, PoolState, RedemptionRequest, UtxoRecord, pending, unspent, raw, pool_state,
  redemption_request, utxo_record, put_content,
}
use utxopia_solana_programs.Utxopia.Pool.{
  has_pending_proposal, clear_pending_proposal, utxo_count, set_utxo_count, remove_utxo,
}
use utxopia_solana_programs.Utxopia.Validation.{
  Runtime, pool_seed, redemption_seed, utxo_seed, validate_pool_state_pda, validate_redemption_pda,
  redemption_driver_is_allowed, redemption_reservation_key,
}
use utxopia_solana_programs.Utxopia.Sighash.{
  canonical_sort, insert_input, comes_before, bytes_before, input_bytes, inputs_commitment,
}
use utxopia_solana_programs.Utxopia.AdminUpdatePool.{
  process_propose_pool_update, process_execute_pool_update,
}
use utxopia_solana_programs.Utxopia.AdminUpdatePool.Timelock.{
  Call, propose, execute, handler, Rewritten, Outcome, handler-Outcome,
}
use utxopia_solana_programs.Utxopia.AdminUpdatePool.Timelock.History.{
  state_after, Executed, execute_waits,
}
use utxopia_solana_programs.Utxopia.MarkProcessing.{
  minimum, check_reserved_inputs, remove_utxos, reserve_utxo, reserve_utxos, marked, reserve_for,
  process_mark_processing,
}
use utxopia_solana_programs.Utxopia.MarkProcessing.Conservation.{InCustody}
use utxopia_solana_programs.Utxopia.MarkProcessing.Custody.{Marked}
use utxopia_solana_programs.Utxopia.MarkProcessing.Safety.{Allowed, process_mark_processing-Marked}
use utxopia_solana_programs.Utxopia.Coins.{coin, coins, Distinct}

abbrev pub program : Bytes
program = 7 ∷ []

abbrev pub joined : List Bytes → Bytes
joined [] = []
joined (part ∷ parts) = part ++ joined parts

-- An address is its seeds put together.
abbrev pub toy_runtime : Runtime
toy_runtime = record {
  program_id = program;
  find_program_address = λ seeds. (joined seeds, 255);
  unix_timestamp = 0;
  slot = 9;
  sha256 = λ bytes. bytes;
}

abbrev pub operator : Bytes
operator = 1 ∷ []

abbrev pub pool_key : Bytes
pool_key = pool_seed ++ (2 ∷ [])

abbrev pub sample_pool : PoolState
sample_pool = record {
  bump = 255;
  paused = false;
  permissioned = false;
  auditor_frozen = false;
  vk_registries_frozen = false;
  authority = operator;
  zkbtc_mint = 2 ∷ [];
  pool_vault = 3 ∷ [];
  deposit_vault = 4 ∷ [];
  deposit_count = 2;
  total_minted = 120_000;
  total_burned = 0;
  pending_redemptions = 1;
  last_update = 0;
  min_deposit = 0;
  max_deposit = 0;
  total_shielded = 0;
  service_fee_base = 0;
  fee_pool = 0;
  pending_min_deposit = 0;
  pending_max_deposit = 0;
  pending_service_fee = 0;
  pending_execute_after = 0;
  deposit_fee_bps = 0;
  withdrawal_fee_bps = 0;
  total_btc_held = 120_000;
  utxo_count_lo = 2;
  active_tree_index = 0;
  utxo_count_hi = 0;
  auditor = [];
  auditor_viewing_pubkey = [];
  nullifier_count = 0;
}

abbrev pub sample_redemption : RedemptionRequest
sample_redemption = record {
  status = pending;
  signing_approved = false;
  processing_slot = 0;
  request_id = 5;
  requester = 8 ∷ [];
  amount_sats = 60_000;
  service_fee = 1_000;
  total_input_sats = 0;
  btc_script = 81 ∷ [];
  token_id = [];
  reserved_count = 0;
  approved_inputs = 0;
  approval_miner_fee = 0;
  inputs_commitment = [];
}

abbrev pub sample_utxo : ℕ → ℕ → UtxoRecord
sample_utxo vout amount = record {
  status = unspent;
  vout = vout;
  txid = 6 ∷ [];
  amount_sats = amount;
  reserved_for_request_id = 0;
  leaf_commitment = none;
}

abbrev pub redemption_key : Bytes
redemption_key = redemption_seed ++ (pool_key ++ (8 ∷ 5 ∷ 0 ∷ 0 ∷ 0 ∷ 0 ∷ 0 ∷ 0 ∷ 0 ∷ []))

abbrev pub utxo_key : ℕ → Bytes
utxo_key vout = utxo_seed ++ (pool_key ++ (6 ∷ vout ∷ 0 ∷ 0 ∷ 0 ∷ []))

abbrev sample_store : Store
sample_store key = record {
  owner = program;
  lamports = 1;
  content =
      if bytes_eq key pool_key
      then pool_state sample_pool
      else if bytes_eq key redemption_key
      then redemption_request sample_redemption
      else if bytes_eq key (utxo_key 0)
      then utxo_record (sample_utxo 0 80_000)
      else if bytes_eq key (utxo_key 1)
      then utxo_record (sample_utxo 1 40_000)
      else raw [];
}

abbrev pub info : Bytes → AccountInfo
info key = record { key = key; is_signer = true; is_writable = true }

abbrev after : Result Store → Store
after (ok t) = t
after (err _) = sample_store

-- 10, 1_000 and 3, little-endian.
abbrev proposal : Bytes
proposal =
    10 ∷ 0 ∷ 0 ∷ 0 ∷ 0 ∷ 0 ∷ 0 ∷ 0 ∷ 232 ∷ 3 ∷ 0 ∷ 0 ∷ 0 ∷ 0 ∷ 0 ∷ 0 ∷ 3 ∷ 0 ∷ 0 ∷ 0 ∷ 0 ∷ 0 ∷ 0 ∷ 0
    ∷ []

abbrev admins : List AccountInfo
admins = info pool_key ∷ info operator ∷ []

abbrev proposing : Call
proposing = propose 100 admins proposal

proposed_ok :
    handler toy_runtime proposing sample_store
    ≡ ok (after (handler toy_runtime proposing sample_store))
unfolding process_propose_pool_update put_content bytes_eq
proposed_ok = refl

handler-Outcome_example :
    (before : PoolState) × (pool : PoolState) × Rewritten toy_runtime admins sample_store
      (after (handler toy_runtime proposing sample_store))
      before
      pool
    × Outcome proposing before pool
handler-Outcome_example =
    handler-Outcome toy_runtime proposing sample_store
      (after (handler toy_runtime proposing sample_store)) proposed_ok

abbrev executing : Call
executing = execute 172_900 admins []

executed_ok :
    handler toy_runtime executing (state_after toy_runtime (proposing ∷ []) sample_store)
    ≡ ok (
        after
          (handler toy_runtime executing (state_after toy_runtime (proposing ∷ []) sample_store)))
unfolding process_propose_pool_update process_execute_pool_update put_content has_pending_proposal
    clear_pending_proposal bytes_eq
executed_ok = refl

sample_idle :
    (key : Bytes) (pool : PoolState)
    → (sample_store key).content ≡ pool_state pool
    → has_pending_proposal pool ≡ false
unfolding has_pending_proposal
sample_idle key pool h = grind arith

execute_waits_example :
    Executed toy_runtime (proposing ∷ []) sample_store 172_900 (
      after (handler toy_runtime executing (state_after toy_runtime (proposing ∷ []) sample_store)))
execute_waits_example =
    execute_waits toy_runtime (proposing ∷ []) sample_store 172_900 admins [] _ sample_idle
      executed_ok

abbrev coin_keys : List Bytes
coin_keys = utxo_key 0 ∷ utxo_key 1 ∷ []

sample-Distinct : Distinct coin_keys
sample-Distinct = (((λ e. absurd (omega (arith, ap (λ k. get_or k 16 0) e))), tt), (tt, tt))

sample_custody : InCustody toy_runtime sample_store pool_key coin_keys
unfolding coins coin utxo_count bytes_eq to_le_bytes
sample_custody = record {
  pool = sample_pool;
  held = refl;
  custody = (omega arith, omega arith, omega arith);
  amount = refl;
  count = refl;
}

abbrev marked_store : Store
marked_store = after (
    process_mark_processing toy_runtime
      (info pool_key ∷ info redemption_key ∷ info operator ∷ info (utxo_key 0) ∷ []) (1 ∷ [])
      sample_store)

marked_ok :
    process_mark_processing toy_runtime
      (info pool_key ∷ info redemption_key ∷ info operator ∷ info (utxo_key 0) ∷ [])
      (1 ∷ [])
      sample_store
    ≡ ok marked_store
unfolding process_mark_processing validate_redemption_pda validate_pool_state_pda
    redemption_driver_is_allowed reserve_for redemption_reservation_key reserve_utxos reserve_utxo
    check_reserved_inputs minimum remove_utxos remove_utxo utxo_count set_utxo_count marked
    canonical_sort insert_input comes_before bytes_before inputs_commitment input_bytes put_content
    bytes_eq to_le_bytes
marked_ok = refl

process_mark_processing-Marked_example :
    Allowed sample_store pool_key redemption_key (info operator)
    × InCustody toy_runtime marked_store pool_key coin_keys
    × Marked toy_runtime sample_store marked_store pool_key redemption_key coin_keys
process_mark_processing-Marked_example =
    process_mark_processing-Marked toy_runtime (info pool_key) (info redemption_key) (info operator)
      (info (utxo_key 0) ∷ []) (1 ∷ []) sample_store marked_store coin_keys sample-Distinct
      (inl refl, tt) sample_custody marked_ok
