-- ===== src/Utxopia/Bitcoin/Examples.antt =====
-- The theorems on Bitcoin transactions at concrete inputs: a transaction with one input and two
-- outputs, one of which is a deposit OP_RETURN.
use utxopia_solana_programs.Prelude.{
  ℕ, ◌≡◌, ◌≢◌, ◌<◌, ◌≤◌, ◌↔◌, refl, [], ◌∷◌, ◌++◌, true, arith, length, get_elem?, map, replicate,
  some, bytes_eq,
}
use utxopia_solana_programs.Prelude.Results.{ok, invalid_instruction_data, FailsOnlyWith, is_ok}
use utxopia_solana_programs.LightClient.Utils.U256.{to_le_bytes}
use utxopia_solana_programs.Utxopia.Bytes.{Bytes}
use utxopia_solana_programs.Utxopia.Bitcoin.{
  ParsedTransaction, parse, has_segwit_marker, segwit_body_end,
}
use utxopia_solana_programs.Utxopia.Bitcoin.Varint.{encode_varint}
use utxopia_solana_programs.Utxopia.Bitcoin.Serialize.{
  Transaction, Format, legacy, segwit, serialize, IsTransaction,
}
use utxopia_solana_programs.Utxopia.Bitcoin.Outputs.{
  TxOutput, DepositOpReturn, outputs, find_output_by_script, get_deposit_op_return,
}
use utxopia_solana_programs.Utxopia.Bitcoin.Inputs.{inputs, find_input_with_prev_outpoint}
use utxopia_solana_programs.Utxopia.Bitcoin.TxHash.{compute_tx_hash}
use utxopia_solana_programs.Utxopia.Bitcoin.Iterate.{outpoint}
use utxopia_solana_programs.Utxopia.Bitcoin.Agreement.{is_some, segwit_body_end-parse}
use utxopia_solana_programs.Utxopia.Bitcoin.Errors.{parse-FailsOnlyWith}
use utxopia_solana_programs.Utxopia.Bitcoin.RoundTrip.{parse-serialize, compute_tx_hash-serialize}
use utxopia_solana_programs.Utxopia.Bitcoin.Lookup.{
  find_output_by_script-First, find_input_with_prev_outpoint_iff,
}
use utxopia_solana_programs.Utxopia.Bitcoin.OpReturn.{
  pushdata1, deposit_script, IsDeposit, get_deposit_op_return-deposit_script,
}

abbrev prev_txid : Bytes
prev_txid = replicate 32 17

abbrev pool_script : Bytes
pool_script = 81 ∷ 32 ∷ 170 ∷ []

abbrev deposit : DepositOpReturn
deposit = record {
  pool_tag = replicate 8 1;
  ephemeral_pubkey = replicate 32 2;
  note_public_key = replicate 32 3;
}

abbrev sample : Transaction
sample = record {
  version = 2 ∷ 0 ∷ 0 ∷ 0 ∷ [];
  vin =
      record { prev_txid = prev_txid; prev_vout = 5; script_sig = []; sequence = replicate 4 255 }
      ∷ [];
  vout =
      record { value = 0; script_pubkey = deposit_script pushdata1 80 deposit }
      ∷ record { value = 50_000; script_pubkey = pool_script }
      ∷ [];
  locktime = replicate 4 0;
}

abbrev witness : Format
witness = segwit (1 ∷ 4 ∷ 222 ∷ 173 ∷ 190 ∷ 239 ∷ [])

sample-IsTransaction : IsTransaction witness sample
unfolding serialize encode_varint to_le_bytes
sample-IsTransaction = record {
  version = refl;
  locktime = refl;
  inputs = ((refl, omega arith, refl), tt);
  outputs = (omega arith, (omega arith, tt));
  some_input = omega arith;
  fits = omega arith;
}

parse-serialize_example :
    (p : ParsedTransaction) × (parse (serialize witness sample) ≡ ok p)
    × (inputs p ≡ map outpoint sample.vin)
    × (outputs p ≡ sample.vout)
parse-serialize_example = parse-serialize witness sample sample-IsTransaction

-- In place of the hash.
abbrev toy_sha256 : Bytes → Bytes
toy_sha256 bytes = 7 ∷ bytes

compute_tx_hash-serialize_example :
    compute_tx_hash toy_sha256 (serialize witness sample) ≡ 7 ∷ 7 ∷ serialize legacy sample
compute_tx_hash-serialize_example =
    compute_tx_hash-serialize toy_sha256 witness sample sample-IsTransaction

-- A script length of 2 ^ 64 - 1.
abbrev overflowing : Bytes
overflowing = 1 ∷ 0 ∷ 0 ∷ 0 ∷ 1 ∷ (replicate 36 0 ++ replicate 9 255)

parse-FailsOnlyWith_example : FailsOnlyWith invalid_instruction_data (parse overflowing)
parse-FailsOnlyWith_example = parse-FailsOnlyWith overflowing

sample_marked : has_segwit_marker (serialize witness sample) ≡ true
unfolding has_segwit_marker serialize encode_varint to_le_bytes
sample_marked = refl

segwit_body_end-parse_example :
    is_some (segwit_body_end (serialize witness sample)) ≡ is_ok (parse (serialize witness sample))
segwit_body_end-parse_example = segwit_body_end-parse (serialize witness sample) sample_marked

abbrev parsed_sample : ParsedTransaction
parsed_sample = parse-serialize_example.0

few_outputs : length (outputs parsed_sample) ≤ 4_294_967_296
few_outputs = rw parse-serialize_example.3 (omega arith)

pool_output :
    find_output_by_script parsed_sample pool_script
    ≡ some (record { value = 50_000; script_pubkey = pool_script }, 1)
unfolding find_output_by_script
pool_output = rw parse-serialize_example.3 (unfold bytes_eq in refl)

find_output_by_script-First_example :
    (get_elem? (outputs parsed_sample) 1
      ≡ some (record { value = 50_000; script_pubkey = pool_script }))
    × (pool_script ≡ pool_script)
    × ((m : ℕ) (other : TxOutput)
        → m < 1
        → get_elem? (outputs parsed_sample) m ≡ some other
        → other.script_pubkey ≢ pool_script)
find_output_by_script-First_example =
    find_output_by_script-First parsed_sample pool_script
      (record { value = 50_000; script_pubkey = pool_script }) 1 few_outputs pool_output

find_input_with_prev_outpoint_example :
    (find_input_with_prev_outpoint parsed_sample prev_txid 5 ≡ true) ↔ (
      (k : ℕ) × (get_elem? (inputs parsed_sample) k
        ≡ some (record { prev_txid = prev_txid; prev_vout = 5 })))
find_input_with_prev_outpoint_example = find_input_with_prev_outpoint_iff parsed_sample prev_txid 5

deposit-IsDeposit : IsDeposit deposit
deposit-IsDeposit = record { pool_tag = refl; ephemeral_pubkey = refl; note_public_key = refl }

get_deposit_op_return_example :
    get_deposit_op_return
      (record { value = 0; script_pubkey = deposit_script pushdata1 80 deposit })
    ≡ some deposit
get_deposit_op_return_example =
    get_deposit_op_return-deposit_script pushdata1 80 deposit 0 refl deposit-IsDeposit
