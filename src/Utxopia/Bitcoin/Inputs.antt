-- ===== src/Utxopia/Bitcoin/Inputs.antt =====
-- The inputs of a parsed transaction: `TxInput`, `InputIterator` and the search for a spent output.
use utxopia_solana_programs.Prelude.{
  ℕ, ◌+◌, ◌-◌, List, Bool, ltb, ◌==◌, ◌&&◌, ◌||◌, if◌then◌else◌, bytes_eq, length, drop, Option,
  none, some,
}
use utxopia_solana_programs.Prelude.Digits.{value}
use utxopia_solana_programs.Utxopia.Bytes.{Bytes, range, ◌and_then◌, to_option}
use utxopia_solana_programs.Utxopia.Iterators.{items, any}
use utxopia_solana_programs.Utxopia.Bitcoin.{ParsedTransaction, read_varint, input_end}

pub record TxInput : Type 0 where
  pub prev_txid : Bytes
  pub prev_vout : ℕ

-- `data` is the field `bytes`. Behind the first guard the slice `data[offset + 36..]` is in bounds.
pub record InputIterator : Type 0 where
  pub bytes : Bytes
  pub offset : ℕ
  pub remaining : ℕ

unfoldable pub next_input : InputIterator → Option (TxInput × InputIterator)
unfolding read_varint
next_input it =
    if (it.remaining == 0) || ltb (length it.bytes) (it.offset + 36)
    then none
    else (to_option (read_varint (drop (it.offset + 36) it.bytes)) and_then λ (script_len, size).
        input_end (it.offset + 36) size script_len and_then λ end.
        if ltb (length it.bytes) end
        then none
        else some (
          record {
            prev_txid = range it.offset 32 it.bytes;
            prev_vout = value 256 (range (it.offset + 32) 4 it.bytes);
          },
          record { bytes = it.bytes; offset = end; remaining = it.remaining - 1 },
        ))

unfoldable pub inputs : ParsedTransaction → List TxInput
unfolding next_input
inputs tx =
    items next_input tx.input_count
      (record { bytes = tx.inputs_data; offset = 0; remaining = tx.input_count })

abbrev pub is_outpoint : Bytes → ℕ → TxInput → Bool
is_outpoint target_txid target_vout input =
    bytes_eq input.prev_txid target_txid && (input.prev_vout == target_vout)

unfoldable pub find_input_with_prev_outpoint : ParsedTransaction → Bytes → ℕ → Bool
unfolding inputs
find_input_with_prev_outpoint tx target_txid target_vout =
    any (is_outpoint target_txid target_vout) (inputs tx)
