-- ===== src/Utxopia/Bitcoin/Iterate.antt =====
-- The iterators on serialized inputs and outputs.
use mathlib.Core.List.{append_assoc}
use utxopia_solana_programs.Prelude.{
  ℕ, suc, ◌+◌, ◌≤◌, ◌<◌, ◌≡◌, refl, ap, ◌∙◌, ◌++◌, List, [], ◌∷◌, map, arith, length, All, drop,
  take, some, le→ltb, drop-take,
}
use utxopia_solana_programs.Prelude.Numbers.{u64_mod}
use utxopia_solana_programs.Prelude.Digits.{value}
use utxopia_solana_programs.Prelude.Results.{ok}
use utxopia_solana_programs.LightClient.Utils.U256.{to_le_bytes}
use utxopia_solana_programs.LightClient.Utils.U256.Encoding.{length-to_le_bytes, value-to_le_bytes}
use utxopia_solana_programs.Utxopia.Bytes.{Bytes}
use utxopia_solana_programs.Utxopia.Iterators.{items, items-some, suc_left}
use utxopia_solana_programs.Utxopia.Bitcoin.{read_varint}
use utxopia_solana_programs.Utxopia.Bitcoin.Varint.{span-4, span-8}
use utxopia_solana_programs.Utxopia.Bitcoin.Serialize.{
  InputData, IsInput, IsOutput, outpoint_bytes, inputs_bytes, outputs_bytes, script_bytes,
}
use utxopia_solana_programs.Utxopia.Bitcoin.Outputs.{TxOutput, next_output}
use utxopia_solana_programs.Utxopia.Bitcoin.Inputs.{TxInput, next_input}
use utxopia_solana_programs.Utxopia.Bitcoin.Position.{At, At_past, At_take, scripted}
use utxopia_solana_programs.Utxopia.Bitcoin.Skip.{
  script_end-some, input_end-some, length-outpoint_bytes,
}

-- The part of an input that `TxInput` keeps.
abbrev pub outpoint : InputData → TxInput
outpoint input = record { prev_txid = input.prev_txid; prev_vout = input.prev_vout }

next_output_step :
    (bytes : Bytes) (left offset size len : ℕ)
    → length bytes < u64_mod
    → offset + 8 ≤ length bytes
    → read_varint (drop (offset + 8) bytes) ≡ ok (len, size)
    → offset + 8 + size + len ≤ length bytes
    → next_output (record { bytes = bytes; offset = offset; remaining = suc left })
      ≡ some (
        record {
          value = value 256 (take 8 (drop offset bytes));
          script_pubkey = take len (drop (offset + 8 + size) bytes);
        },
        record { bytes = bytes; offset = offset + 8 + size + len; remaining = left },
      )
unfolding next_output
next_output_step bytes left offset size len small w r h =
    rw
      (
        (suc_left left).0,
        (suc_left left).1,
        le→ltb (length bytes) (offset + 8) w,
        r,
        script_end-some (offset + 8) size len (omega arith),
        le→ltb (length bytes) (offset + 8 + size + len) h,
        drop-take (offset + 8 + size) len bytes,
      )
      refl

next_input_step :
    (bytes : Bytes) (left offset size len : ℕ)
    → length bytes < u64_mod
    → offset + 36 ≤ length bytes
    → read_varint (drop (offset + 36) bytes) ≡ ok (len, size)
    → offset + 36 + size + len + 4 ≤ length bytes
    → next_input (record { bytes = bytes; offset = offset; remaining = suc left })
      ≡ some (
        record {
          prev_txid = take 32 (drop offset bytes);
          prev_vout = value 256 (take 4 (drop (offset + 32) bytes));
        },
        record { bytes = bytes; offset = offset + 36 + size + len + 4; remaining = left },
      )
unfolding next_input
next_input_step bytes left offset size len small w r h =
    rw
      (
        (suc_left left).0,
        (suc_left left).1,
        le→ltb (length bytes) (offset + 36) w,
        r,
        input_end-some (offset + 36) size len (omega arith),
        le→ltb (length bytes) (offset + 36 + size + len + 4) h,
      )
      refl

-- The iterator over serialized outputs gives the outputs.
pub items-outputs_bytes :
    (bytes : Bytes) (vout : List TxOutput) (rest : Bytes) (offset : ℕ)
    → length bytes < u64_mod
    → All IsOutput vout
    → At bytes offset (outputs_bytes vout rest)
    → items next_output
        (length vout)
        (record { bytes = bytes; offset = offset; remaining = length vout })
      ≡ vout
items-outputs_bytes bytes [] rest offset small all at = refl
items-outputs_bytes bytes (output ∷ vout) rest offset small (hv, all) at =
    let amount = to_le_bytes 8 output.value in
    let s =
      scripted bytes offset 8 amount output.script_pubkey (outputs_bytes vout rest) at
        (length-to_le_bytes 8 output.value) small in
    let amount_read : value 256 (take 8 (drop offset bytes)) ≡ output.value =
      ap (value 256) s.front_bytes
      ∙ value-to_le_bytes 8 output.value (omega (arith, hv, span-8 output.value)) in
    items-some next_output (length vout) _ _ _ (
      next_output_step bytes (length vout) offset s.size (length output.script_pubkey) small
        s.width_fits s.read s.fits)
    ∙ rw (amount_read, s.script_range, items-outputs_bytes bytes vout rest _ small all s.after) refl

-- The iterator over serialized inputs gives the outputs that they spend.
pub items-inputs_bytes :
    (bytes : Bytes) (vin : List InputData) (rest : Bytes) (offset : ℕ)
    → length bytes < u64_mod
    → All IsInput vin
    → At bytes offset (inputs_bytes vin rest)
    → items next_input
        (length vin)
        (record { bytes = bytes; offset = offset; remaining = length vin })
      ≡ map outpoint vin
items-inputs_bytes bytes [] rest offset small all at = refl
items-inputs_bytes bytes (input ∷ vin) rest offset small ((ht, hv, hs), all) at =
    let script_on = script_bytes input.script_sig (input.sequence ++ inputs_bytes vin rest) in
    let vout_bytes = to_le_bytes 4 input.prev_vout in
    let s =
      scripted bytes offset 36 (outpoint_bytes input) input.script_sig
        (input.sequence ++ inputs_bytes vin rest) at (length-outpoint_bytes input ht) small in
    let split : At bytes offset (input.prev_txid ++ (vout_bytes ++ script_on)) =
      rw append_assoc at at in
    let txid_read = At_take bytes offset 32 input.prev_txid (vout_bytes ++ script_on) split ht in
    let behind = At_past bytes offset 32 input.prev_txid (vout_bytes ++ script_on) split ht in
    let vout_read : value 256 (take 4 (drop (offset + 32) bytes)) ≡ input.prev_vout =
      ap (value 256) (
        At_take bytes (offset + 32) 4 vout_bytes script_on behind
          (length-to_le_bytes 4 input.prev_vout))
      ∙ value-to_le_bytes 4 input.prev_vout (omega (arith, hv, span-4 input.prev_vout)) in
    let next =
      At_past bytes (offset + 36 + s.size + length input.script_sig) 4 input.sequence
        (inputs_bytes vin rest) s.after hs in
    items-some next_input (length vin) _ _ _ (
      next_input_step bytes (length vin) offset s.size (length input.script_sig) small s.width_fits
        s.read next.inside)
    ∙ rw (txid_read, vout_read, items-inputs_bytes bytes vin rest _ small all next) refl
