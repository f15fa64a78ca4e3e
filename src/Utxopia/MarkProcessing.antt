-- ===== src/Utxopia/MarkProcessing.antt =====
-- programs/utxopia/src/instructions/mark_processing.rs: a redemption goes from Pending to Processing,
-- and the UTXOs that are to pay for it are reserved. Events and logs are left out.
use utxopia_solana_programs.Prelude.{
  ℕ, ◌+◌, ◌-◌, ◌%◌, List, [], ◌∷◌, Bool, true, false, ltb, leb, ◌==◌, ◌||◌, if◌then◌else◌, bytes_eq,
  length, take, drop, map, min, Option, none, some,
}
use utxopia_solana_programs.Prelude.Numbers.{u32_mod, checked_add, checked_sub, saturating_sub}
use utxopia_solana_programs.Prelude.Results.{
  Result, ok, err, ◌>>=◌, ◌>>◌, require, reject, ok_or, not_enough_account_keys,
  invalid_instruction_data, invalid_argument, missing_required_signature, arithmetic_overflow,
  pool_paused, invalid_redemption_state, invalid_utxo, utxo_not_unspent,
  insufficient_reserved_inputs, excessive_reserved_inputs,
}
use utxopia_solana_programs.LightClient.Utils.U256.{to_le_bytes}
use utxopia_solana_programs.Utxopia.Bytes.{Bytes}
use utxopia_solana_programs.Utxopia.State.{
  Store, AccountInfo, PoolState, RedemptionStatus, pending, processing, RedemptionRequest,
  UtxoStatus, unspent, reserved, UtxoRecord, pool_state, redemption_request, utxo_record, read_pool,
  read_redemption, read_utxo, put_content,
}
use utxopia_solana_programs.Utxopia.Pool.{remove_utxo}
use utxopia_solana_programs.Utxopia.Sighash.{ReservedInput, canonical_sort, inputs_commitment}
use utxopia_solana_programs.Utxopia.Validation.{
  Runtime, account_at, validate_account_writable, validate_program_owner, validate_redemption_pda,
  redemption_driver_is_allowed, redemption_reservation_key, utxo_seed,
}
pub mod Reservation
pub mod Conservation
pub mod Custody
pub mod Safety

-- `MAX_UTXOS_PER_MARK` and, of utils/policy.rs, `MAX_MINER_FEE_SATS`.
abbrev pub max_utxos_per_mark : ℕ
max_utxos_per_mark = 20

abbrev pub max_miner_fee_sats : ℕ
max_miner_fee_sats = 50_000

abbrev pub is_unspent : UtxoStatus → Bool
is_unspent unspent = true
is_unspent reserved = false

abbrev pub is_pending : RedemptionStatus → Bool
is_pending pending = true
is_pending _ = false

abbrev pub reserved_input : UtxoRecord → ReservedInput
reserved_input utxo = record { txid = utxo.txid; vout = utxo.vout; amount_sats = utxo.amount_sats }

abbrev pub amounts : List ReservedInput → List ℕ
amounts inputs = map (λ input. input.amount_sats) inputs

-- `data[0]`, where `data` is not empty.
abbrev pub first_byte : Bytes → Option ℕ
first_byte [] = none
first_byte (b ∷ _) = some b

-- `iter().min()`.
abbrev pub least : ℕ → Option ℕ → ℕ
least x none = x
least x (some m) = min x m

unfoldable pub minimum : List ℕ → Option ℕ
minimum [] = none
minimum (x ∷ xs) = some (least x (minimum xs))

-- The inputs fund the payout, and would not without the smallest of them.
unfoldable pub check_reserved_inputs : ℕ → ℕ → ℕ → List ℕ → Result (Unit {0})
unfolding minimum
check_reserved_inputs amount_sats service_fee total_input_sats utxo_amounts = do
  send_amount ← ok_or (checked_sub amount_sats service_fee) invalid_argument
  required ←
      ok_or (checked_add send_amount (min max_miner_fee_sats service_fee)) arithmetic_overflow
  reject (ltb total_input_sats required) insufficient_reserved_inputs
  smallest ← ok_or (minimum utxo_amounts) invalid_instruction_data
  reject (leb required (saturating_sub total_input_sats smallest)) excessive_reserved_inputs

unfoldable pub remove_utxos : PoolState → List ℕ → Result PoolState
unfolding remove_utxo
remove_utxos pool [] = ok pool
remove_utxos pool (amount ∷ rest) = do removed ← remove_utxo pool amount; remove_utxos removed rest

module _ (rt : Runtime) where
  abbrev pub utxo_pda : Bytes → UtxoRecord → Bytes
  utxo_pda pool_key utxo =
      (rt.find_program_address (utxo_seed ∷ pool_key ∷ utxo.txid ∷ to_le_bytes 4 utxo.vout ∷ [])).0

  -- One round of phase 1, on the total of the rounds before.
  unfoldable pub reserve_utxo :
      Bytes → ℕ → AccountInfo → ℕ → Store → Result (Store × ℕ × ReservedInput)
  unfolding to_le_bytes put_content
  reserve_utxo pool_key reservation_key utxo_info total s = do
    validate_program_owner rt s utxo_info
    validate_account_writable utxo_info
    utxo ← read_utxo (s utxo_info.key).content
    require (is_unspent utxo.status) utxo_not_unspent
    require (bytes_eq utxo_info.key (utxo_pda pool_key utxo)) invalid_utxo
    sum ← ok_or (checked_add total utxo.amount_sats) arithmetic_overflow
    ok (
      put_content s utxo_info.key (
          utxo_record
            (record utxo { status = reserved; reserved_for_request_id = reservation_key })),
      sum,
      reserved_input utxo,
    )

  unfoldable pub reserve_utxos :
      Bytes → ℕ → List AccountInfo → ℕ → Store → Result (Store × ℕ × List ReservedInput)
  unfolding reserve_utxo
  reserve_utxos pool_key reservation_key [] total s = ok (s, total, [])
  reserve_utxos pool_key reservation_key (utxo_info ∷ infos) total s = do
    (s1, sum, input) ← reserve_utxo pool_key reservation_key utxo_info total s
    (s2, sum', inputs) ← reserve_utxos pool_key reservation_key infos sum s1
    ok (s2, sum', input ∷ inputs)

  -- The redemption in Processing, with the commitment to the inputs.
  unfoldable pub marked :
      List AccountInfo → RedemptionRequest → ℕ → List ReservedInput → RedemptionRequest
  unfolding canonical_sort inputs_commitment
  marked utxo_infos redemption total_input_sats inputs = record redemption {
    status = processing;
    processing_slot = rt.slot % u32_mod;
    total_input_sats = total_input_sats;
    reserved_count = length utxo_infos % 256;
    inputs_commitment = inputs_commitment rt (canonical_sort inputs);
  }

  -- Phases 1 and 2, behind the checks of the accounts and of the data.
  unfoldable pub reserve_for : Bytes → Bytes → List AccountInfo → Store → Result Store
  reserve_for pool_key redemption_key utxo_infos s = do
    redemption ← read_redemption (s redemption_key).content
    require (is_pending redemption.status) invalid_redemption_state
    (s1, total_input_sats, inputs) ←
        reserve_utxos pool_key (redemption_reservation_key rt redemption_key) utxo_infos 0 s
    check_reserved_inputs redemption.amount_sats redemption.service_fee total_input_sats
        (amounts inputs)
    pool ← read_pool (s1 pool_key).content
    removed ← remove_utxos pool (amounts inputs)
    let s2 = put_content s1 pool_key (pool_state removed)
    again ← read_redemption (s2 redemption_key).content
    require (is_pending again.status) invalid_redemption_state
    ok (
        put_content s2 redemption_key
          (redemption_request (marked utxo_infos again total_input_sats inputs)))

  unfoldable pub process_mark_processing : List AccountInfo → Bytes → Store → Result Store
  process_mark_processing accounts bytes s = do
    reject (ltb (length accounts) 3) not_enough_account_keys
    pool_state_info ← account_at accounts 0
    redemption_info ← account_at accounts 1
    authority ← account_at accounts 2
    require authority.is_signer missing_required_signature
    validate_program_owner rt s pool_state_info
    validate_program_owner rt s redemption_info
    validate_redemption_pda rt s redemption_info pool_state_info
    validate_account_writable pool_state_info
    validate_account_writable redemption_info
    pool ← read_pool (s pool_state_info.key).content
    reject pool.paused pool_paused
    redemption ← read_redemption (s redemption_info.key).content
    redemption_driver_is_allowed authority.key pool.authority redemption.requester
    utxo_count ← ok_or (first_byte bytes) invalid_instruction_data
    reject (utxo_count == 0) invalid_instruction_data
    reject (ltb (length accounts) (3 + utxo_count)) not_enough_account_keys
    reject (ltb max_utxos_per_mark utxo_count) invalid_instruction_data
    reserve_for pool_state_info.key redemption_info.key (take utxo_count (drop 3 accounts)) s
