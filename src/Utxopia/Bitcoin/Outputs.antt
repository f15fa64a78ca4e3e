-- ===== src/Utxopia/Bitcoin/Outputs.antt =====
-- The outputs of a parsed transaction: `TxOutput`, `OutputIterator` and what looks for an output.
use utxopia_solana_programs.Prelude.{
  ℕ, ◌+◌, ◌-◌, ◌%◌, List, [], ◌∷◌, Bool, not, ltb, ◌==◌, ◌&&◌, ◌||◌, if◌then◌else◌, bytes_eq,
  length, get_or, drop, Option, none, some,
}
use utxopia_solana_programs.Prelude.Numbers.{saturating_add, u32_mod}
use utxopia_solana_programs.Prelude.Digits.{value}
use utxopia_solana_programs.Utxopia.Bytes.{Bytes, range, ◌and_then◌, to_option}
use utxopia_solana_programs.Utxopia.Iterators.{items, find, find_from, count, find_map}
use utxopia_solana_programs.Utxopia.Bitcoin.{ParsedTransaction, read_varint, script_end}
use utxopia_solana_programs.Utxopia.Bytes.{between}

pub record TxOutput : Type 0 where
  pub value : ℕ
  pub script_pubkey : Bytes

pub record DepositOpReturn : Type 0 where
  pub pool_tag : Bytes
  pub ephemeral_pubkey : Bytes
  pub note_public_key : Bytes

-- `OP_RETURN`, `DEPOSIT_OP_RETURN_SIZE` and the three headers.
abbrev pub op_return : ℕ
op_return = 106

abbrev pub deposit_op_return_size : ℕ
deposit_op_return_size = 73

abbrev pub is_deposit_header : ℕ → Bool
is_deposit_header b = (b == 80) || ((b == 82) || (b == 83))

unfoldable pub is_op_return : TxOutput → Bool
is_op_return output =
    ltb 0 (length output.script_pubkey) && (get_or output.script_pubkey 0 0 == op_return)

-- The 73 bytes behind a direct push or a PUSHDATA1.
unfoldable pub deposit_slice : Bytes → Option Bytes
deposit_slice script =
    if (length script == 2 + deposit_op_return_size)
      && (get_or script 1 0 == deposit_op_return_size)
    then some (range 2 deposit_op_return_size script)
    else if (length script == 3 + deposit_op_return_size)
        && ((get_or script 1 0 == 76) && (get_or script 2 0 == deposit_op_return_size))
    then some (range 3 deposit_op_return_size script)
    else none

unfoldable pub get_deposit_op_return : TxOutput → Option DepositOpReturn
unfolding is_op_return deposit_slice
get_deposit_op_return output =
    if not (is_op_return output) || ltb (length output.script_pubkey) 2
    then none
    else (deposit_slice output.script_pubkey and_then λ slice.
        if is_deposit_header (get_or slice 0 0)
        then some (record {
          pool_tag = range 1 8 slice;
          ephemeral_pubkey = range 9 32 slice;
          note_public_key = range 41 32 slice;
        })
        else none)

-- `data` is the field `bytes`. Behind the first guard the slice `data[offset + 8..]` is in bounds.
pub record OutputIterator : Type 0 where
  pub bytes : Bytes
  pub offset : ℕ
  pub remaining : ℕ

unfoldable pub next_output : OutputIterator → Option (TxOutput × OutputIterator)
unfolding read_varint
next_output it =
    if (it.remaining == 0) || ltb (length it.bytes) (it.offset + 8)
    then none
    else (to_option (read_varint (drop (it.offset + 8) it.bytes)) and_then λ (script_len, size).
        script_end (it.offset + 8) size script_len and_then λ end.
        if ltb (length it.bytes) end
        then none
        else some (
          record {
            value = value 256 (range it.offset 8 it.bytes);
            script_pubkey = between (it.offset + 8 + size) end it.bytes;
          },
          record { bytes = it.bytes; offset = end; remaining = it.remaining - 1 },
        ))

unfoldable pub outputs : ParsedTransaction → List TxOutput
unfolding next_output
outputs tx =
    items next_output tx.output_count
      (record { bytes = tx.outputs_data; offset = 0; remaining = tx.output_count })

unfoldable pub sum_values : ℕ → List TxOutput → ℕ
sum_values total [] = total
sum_values total (output ∷ rest) = sum_values (saturating_add total output.value) rest

unfoldable pub sum_outputs : ParsedTransaction → ℕ
unfolding outputs sum_values
sum_outputs tx = sum_values 0 (outputs tx)

unfoldable pub is_deposit_output : TxOutput → Bool
unfolding is_op_return
is_deposit_output output = not (is_op_return output) && ltb 0 output.value

unfoldable pub find_deposit_output : ParsedTransaction → Option TxOutput
unfolding outputs is_deposit_output
find_deposit_output tx = find is_deposit_output (outputs tx)

-- `.map(|(i, output)| (output, i as u32))`.
abbrev pub with_vout : Option (TxOutput × ℕ) → Option (TxOutput × ℕ)
with_vout found = found and_then λ (output, i). some (output, i % u32_mod)

unfoldable pub find_deposit_output_with_vout : ParsedTransaction → Option (TxOutput × ℕ)
unfolding outputs is_deposit_output
find_deposit_output_with_vout tx = with_vout (find_from is_deposit_output 0 (outputs tx))

abbrev pub has_script : Bytes → TxOutput → Bool
has_script script output = bytes_eq output.script_pubkey script

unfoldable pub find_output_by_script : ParsedTransaction → Bytes → Option (TxOutput × ℕ)
unfolding outputs
find_output_by_script tx script = with_vout (find_from (has_script script) 0 (outputs tx))

unfoldable pub positive_output_count_by_script : ParsedTransaction → Bytes → ℕ
unfolding outputs
positive_output_count_by_script tx script =
    count (λ output. ltb 0 output.value && has_script script output) (outputs tx)

unfoldable pub find_deposit_op_return : ParsedTransaction → Option DepositOpReturn
unfolding outputs get_deposit_op_return
find_deposit_op_return tx = find_map get_deposit_op_return (outputs tx)
