-- ===== src/Utxopia/Bitcoin/Skip.antt =====
-- The loops of `ParsedTransaction::parse` on serialized inputs and outputs.
use utxopia_solana_programs.Prelude.{
  ℕ, suc, ◌+◌, ◌≤◌, ◌<◌, ◌≡◌, refl, ◌∙◌, ◌++◌, List, [], ◌∷◌, arith, length, All, length-append,
  drop, some, le→ltb,
}
use utxopia_solana_programs.Prelude.Numbers.{u64_mod}
use utxopia_solana_programs.Prelude.Results.{ok}
use utxopia_solana_programs.LightClient.Utils.U256.{to_le_bytes}
use utxopia_solana_programs.LightClient.Utils.U256.Encoding.{length-to_le_bytes}
use utxopia_solana_programs.Utxopia.Bytes.{Bytes}
use utxopia_solana_programs.Utxopia.Bitcoin.{
  read_varint, script_end, input_end, skip_inputs, skip_outputs,
}
use utxopia_solana_programs.Utxopia.Bitcoin.Serialize.{
  InputData, IsInput, outpoint_bytes, inputs_bytes, outputs_bytes,
}
use utxopia_solana_programs.Utxopia.Bitcoin.Outputs.{TxOutput}
use utxopia_solana_programs.Utxopia.Bitcoin.Position.{At, At_past, scripted}

pub script_end-some :
    (offset size len : ℕ)
    → offset + size + len < u64_mod
    → script_end offset size len ≡ some (offset + size + len)
script_end-some offset size len h = ground arith

pub input_end-some :
    (offset size len : ℕ)
    → offset + size + len + 4 < u64_mod
    → input_end offset size len ≡ some (offset + size + len + 4)
input_end-some offset size len h = rw (script_end-some offset size len (omega arith)) (ground arith)

pub length-outpoint_bytes :
    (input : InputData) → length input.prev_txid ≡ 32 → length (outpoint_bytes input) ≡ 36
length-outpoint_bytes input h = omega (
  arith,
  length-append input.prev_txid (to_le_bytes 4 input.prev_vout),
  length-to_le_bytes 4 input.prev_vout,
  h,
)

skip_inputs_step :
    (raw : Bytes) (count offset size len : ℕ)
    → length raw < u64_mod
    → offset + 36 ≤ length raw
    → read_varint (drop (offset + 36) raw) ≡ ok (len, size)
    → offset + 36 + size + len + 4 ≤ length raw
    → skip_inputs (suc count) raw offset ≡ skip_inputs count raw (offset + 36 + size + len + 4)
unfolding skip_inputs
skip_inputs_step raw count offset size len small w r h =
    rw
      (
        le→ltb (length raw) (offset + 36) w,
        r,
        input_end-some (offset + 36) size len (omega arith),
        le→ltb (length raw) (offset + 36 + size + len + 4) h,
      )
      refl

skip_outputs_step :
    (raw : Bytes) (count offset size len : ℕ)
    → length raw < u64_mod
    → offset + 8 ≤ length raw
    → read_varint (drop (offset + 8) raw) ≡ ok (len, size)
    → offset + 8 + size + len ≤ length raw
    → skip_outputs (suc count) raw offset ≡ skip_outputs count raw (offset + 8 + size + len)
unfolding skip_outputs
skip_outputs_step raw count offset size len small w r h =
    rw
      (
        le→ltb (length raw) (offset + 8) w,
        r,
        script_end-some (offset + 8) size len (omega arith),
        le→ltb (length raw) (offset + 8 + size + len) h,
      )
      refl

-- The loop over the inputs ends behind them.
pub skip_inputs-inputs_bytes :
    (raw : Bytes) (vin : List InputData) (rest : Bytes) (offset : ℕ)
    → length raw < u64_mod
    → All IsInput vin
    → At raw offset (inputs_bytes vin rest)
    → (end : ℕ) × (skip_inputs (length vin) raw offset ≡ ok end) × At raw end rest × (offset ≤ end)
unfolding skip_inputs
skip_inputs-inputs_bytes raw [] rest offset small all at = (offset, refl, at, omega arith)
skip_inputs-inputs_bytes raw (input ∷ vin) rest offset small ((ht, _, hs), all) at =
    let s =
      scripted raw offset 36 (outpoint_bytes input) input.script_sig
        (input.sequence ++ inputs_bytes vin rest) at (length-outpoint_bytes input ht) small in
    let next =
      At_past raw (offset + 36 + s.size + length input.script_sig) 4 input.sequence
        (inputs_bytes vin rest) s.after hs in
    let (end, e, here, le) = skip_inputs-inputs_bytes raw vin rest _ small all next in
    (
      end,
      skip_inputs_step raw (length vin) offset s.size (length input.script_sig) small s.width_fits
            s.read next.inside
          ∙ e,
      here,
      omega arith,
    )

-- The loop over the outputs ends behind them.
pub skip_outputs-outputs_bytes :
    (raw : Bytes) (vout : List TxOutput) (rest : Bytes) (offset : ℕ)
    → length raw < u64_mod
    → At raw offset (outputs_bytes vout rest)
    → (end : ℕ) × (skip_outputs (length vout) raw offset ≡ ok end)
      × At raw end rest
      × (offset ≤ end)
unfolding skip_outputs
skip_outputs-outputs_bytes raw [] rest offset small at = (offset, refl, at, omega arith)
skip_outputs-outputs_bytes raw (output ∷ vout) rest offset small at =
    let s =
      scripted raw offset 8 (to_le_bytes 8 output.value) output.script_pubkey
        (outputs_bytes vout rest) at (length-to_le_bytes 8 output.value) small in
    let (end, e, here, le) = skip_outputs-outputs_bytes raw vout rest _ small s.after in
    (
      end,
      skip_outputs_step raw (length vout) offset s.size (length output.script_pubkey) small
            s.width_fits s.read s.fits
          ∙ e,
      here,
      omega arith,
    )
