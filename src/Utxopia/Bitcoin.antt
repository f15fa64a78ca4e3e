-- ===== src/Utxopia/Bitcoin.antt =====
-- programs/utxopia/src/utils/bitcoin.rs: Bitcoin transactions from their raw bytes. `usize` has 64
-- bits, and a slice has fewer than 2 ^ 63 bytes, so the additions that the code leaves unchecked
-- (of 4, 8, 36 or the size of a varint, to an offset inside the slice) stay below 2 ^ 64.
-- An iterator is a state with the step `next`; its consumers see the items up to the first `None`.
use utxopia_solana_programs.Prelude.{
  ℕ, zero, suc, ◌+◌, List, [], ◌∷◌, ◌++◌, Bool, true, false, not, ltb, leb, ◌==◌, ◌&&◌, ◌||◌,
  if◌then◌else◌, bytes_eq, length, get_or, take, drop, Option, none, some,
}
use utxopia_solana_programs.Prelude.Numbers.{checked_add, saturating_add, u32_mod}
use utxopia_solana_programs.Prelude.Digits.{value}
use utxopia_solana_programs.Prelude.Results.{
  Result, ok, err, ◌>>=◌, ◌>>◌, reject, ok_or, invalid_instruction_data,
}
use utxopia_solana_programs.Utxopia.Bytes.{
  Bytes, range, tail, get_tail, slice_between, ◌and_then◌, to_option,
}
pub mod Varint
pub mod Serialize
pub mod Position
pub mod Skip
pub mod Outputs
pub mod Inputs
pub mod TxHash
pub mod Iterate
pub mod Body
pub mod Agreement
pub mod Bounds
pub mod Errors
pub mod Forms
pub mod RoundTrip
pub mod Lookup
pub mod OpReturn
mod Examples

unfoldable pub read_varint : Bytes → Result (ℕ × ℕ)
read_varint [] = err invalid_instruction_data
read_varint (b ∷ rest) =
    if leb b 252
    then ok (b, 1)
    else if b == 253
    then (if ltb (length rest) 2
        then err invalid_instruction_data
        else ok (value 256 (take 2 rest), 3))
    else if b == 254
    then (if ltb (length rest) 4
        then err invalid_instruction_data
        else ok (value 256 (take 4 rest), 5))
    else (if ltb (length rest) 8
        then err invalid_instruction_data
        else ok (value 256 (take 8 rest), 9))

-- The script's end, and that of the four bytes behind an input's script.
abbrev pub script_end : ℕ → ℕ → ℕ → Option ℕ
script_end offset size script_len = checked_add offset size and_then λ o. checked_add o script_len

abbrev pub input_end : ℕ → ℕ → ℕ → Option ℕ
input_end offset size script_len = script_end offset size script_len and_then λ o. checked_add o 4

-- The loops of `ParsedTransaction::parse`, on the count that is left and the offset.
unfoldable pub skip_inputs : ℕ → Bytes → ℕ → Result ℕ
unfolding read_varint
skip_inputs zero raw_tx offset = ok offset
skip_inputs (suc count) raw_tx offset = do
  reject (ltb (length raw_tx) (offset + 36)) invalid_instruction_data
  rest ← tail (offset + 36) raw_tx
  (script_len, size) ← read_varint rest
  end ← ok_or (input_end (offset + 36) size script_len) invalid_instruction_data
  reject (ltb (length raw_tx) end) invalid_instruction_data
  skip_inputs count raw_tx end

unfoldable pub skip_outputs : ℕ → Bytes → ℕ → Result ℕ
unfolding read_varint
skip_outputs zero raw_tx offset = ok offset
skip_outputs (suc count) raw_tx offset = do
  reject (ltb (length raw_tx) (offset + 8)) invalid_instruction_data
  rest ← tail (offset + 8) raw_tx
  (script_len, size) ← read_varint rest
  end ← ok_or (script_end (offset + 8) size script_len) invalid_instruction_data
  reject (ltb (length raw_tx) end) invalid_instruction_data
  skip_outputs count raw_tx end

pub record ParsedTransaction : Type 0 where
  pub inputs_data : Bytes
  pub input_count : ℕ
  pub outputs_data : Bytes
  pub output_count : ℕ

-- `raw_tx[4] == 0x00 && raw_tx[5] == 0x01`.
unfoldable pub has_segwit_marker : Bytes → Bool
has_segwit_marker raw_tx = (get_or raw_tx 4 0 == 0) && (get_or raw_tx 5 0 == 1)

-- The inputs and outputs from `offset` on.
unfoldable pub parse_from : ℕ → Bytes → Result ParsedTransaction
unfolding read_varint skip_inputs skip_outputs
parse_from offset raw_tx = do
  rest ← tail offset raw_tx
  (input_count, size) ← read_varint rest
  reject (input_count == 0) invalid_instruction_data
  inputs_end ← skip_inputs input_count raw_tx (offset + size)
  rest' ← tail inputs_end raw_tx
  (output_count, size') ← read_varint rest'
  outputs_end ← skip_outputs output_count raw_tx (inputs_end + size')
  inputs_data ← slice_between (offset + size) inputs_end raw_tx
  outputs_data ← slice_between (inputs_end + size') outputs_end raw_tx
  ok (record {
    inputs_data = inputs_data;
    input_count = input_count;
    outputs_data = outputs_data;
    output_count = output_count;
  })

unfoldable pub parse : Bytes → Result ParsedTransaction
unfolding parse_from has_segwit_marker
parse raw_tx = do
  reject (ltb (length raw_tx) 10) invalid_instruction_data
  parse_from (if has_segwit_marker raw_tx then 6 else 4) raw_tx

-- The loops of `segwit_body_end`.
unfoldable pub skip_inputs? : ℕ → Bytes → ℕ → Option ℕ
unfolding read_varint
skip_inputs? zero raw_tx offset = some offset
skip_inputs? (suc count) raw_tx offset = get_tail (offset + 36) raw_tx and_then λ rest.
    to_option (read_varint rest) and_then λ (script_len, size).
    input_end (offset + 36) size script_len and_then λ end.
    if ltb (length raw_tx) end then none else skip_inputs? count raw_tx end

unfoldable pub skip_outputs? : ℕ → Bytes → ℕ → Option ℕ
unfolding read_varint
skip_outputs? zero raw_tx offset = some offset
skip_outputs? (suc count) raw_tx offset = get_tail (offset + 8) raw_tx and_then λ rest.
    to_option (read_varint rest) and_then λ (script_len, size).
    script_end (offset + 8) size script_len and_then λ end.
    if ltb (length raw_tx) end then none else skip_outputs? count raw_tx end

unfoldable pub body_end_from : ℕ → Bytes → Option ℕ
unfolding read_varint skip_inputs? skip_outputs?
body_end_from offset raw_tx = get_tail offset raw_tx and_then λ rest.
    to_option (read_varint rest) and_then λ (input_count, size).
    if input_count == 0
    then none
    else (skip_inputs? input_count raw_tx (offset + size) and_then λ inputs_end.
        get_tail inputs_end raw_tx and_then λ rest'.
        to_option (read_varint rest') and_then λ (output_count, size').
        skip_outputs? output_count raw_tx (inputs_end + size'))

unfoldable pub segwit_body_end : Bytes → Option ℕ
unfolding body_end_from has_segwit_marker
segwit_body_end raw_tx =
    if ltb (length raw_tx) 10
    then none
    else if not (has_segwit_marker raw_tx)
    then none
    else body_end_from 6 raw_tx
