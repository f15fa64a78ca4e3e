-- ===== src/Utxopia/Bitcoin/Body.antt =====
-- The body of a serialized transaction, the counts with what they count, as the loops read it.
use mathlib.Core.List.{append_assoc}
use utxopia_solana_programs.Prelude.{
  ℕ, ◌+◌, ◌≤◌, ◌<◌, ◌≡◌, refl, ap, ◌∙◌, ◌++◌, List, [], ◌∷◌, arith, length, length-append, All,
  drop,
}
use utxopia_solana_programs.Prelude.Numbers.{u64_mod}
use utxopia_solana_programs.Prelude.Results.{ok}
use utxopia_solana_programs.LightClient.Utils.U256.{to_le_bytes}
use utxopia_solana_programs.LightClient.Utils.U256.Encoding.{length-to_le_bytes}
use utxopia_solana_programs.Utxopia.Bytes.{Bytes}
use utxopia_solana_programs.Utxopia.Bitcoin.{read_varint, skip_inputs, skip_outputs}
use utxopia_solana_programs.Utxopia.Bytes.{between}
use utxopia_solana_programs.Utxopia.Bitcoin.Varint.{
  encode_varint, length-encode_varint, read_varint-encode_varint,
}
use utxopia_solana_programs.Utxopia.Bitcoin.Serialize.{
  Transaction, InputData, IsInput, outpoint_bytes, script_bytes, inputs_bytes, outputs_bytes,
  body_bytes,
}
use utxopia_solana_programs.Utxopia.Bitcoin.Outputs.{TxOutput}
use utxopia_solana_programs.Utxopia.Bitcoin.Position.{At, At_past, At_as, At_between, At_length}
use utxopia_solana_programs.Utxopia.Bitcoin.Skip.{
  length-outpoint_bytes, skip_inputs-inputs_bytes, skip_outputs-outputs_bytes,
}

pub inputs_bytes-append :
    (vin : List InputData) (rest : Bytes) → inputs_bytes vin rest ≡ inputs_bytes vin [] ++ rest
inputs_bytes-append [] rest = refl
inputs_bytes-append (input ∷ vin) rest = rw (inputs_bytes-append vin rest) (simp append_assoc refl)

pub outputs_bytes-append :
    (vout : List TxOutput) (rest : Bytes) → outputs_bytes vout rest ≡ outputs_bytes vout [] ++ rest
outputs_bytes-append [] rest = refl
outputs_bytes-append (output ∷ vout) rest =
    rw (outputs_bytes-append vout rest) (simp append_assoc refl)

-- Every item has a byte of its own.
length-vin :
    (vin : List InputData) (rest : Bytes)
    → All IsInput vin
    → length vin ≤ length (inputs_bytes vin rest)
length-vin [] rest all = omega arith
length-vin (input ∷ vin) rest (h, all) =
    let behind = inputs_bytes vin rest in
    omega (
      arith,
      length-vin vin rest all,
      length-outpoint_bytes input h.0,
      length-append (outpoint_bytes input)
          (script_bytes input.script_sig (input.sequence ++ behind)),
      length-append (encode_varint (length input.script_sig))
          (input.script_sig ++ (input.sequence ++ behind)),
      length-append input.script_sig (input.sequence ++ behind),
      length-append input.sequence behind,
    )

length-vout : (vout : List TxOutput) (rest : Bytes) → length vout ≤ length (outputs_bytes vout rest)
length-vout [] rest = omega arith
length-vout (output ∷ vout) rest =
    let behind = outputs_bytes vout rest in
    omega (
      arith,
      length-vout vout rest,
      length-to_le_bytes 8 output.value,
      length-append (to_le_bytes 8 output.value) (script_bytes output.script_pubkey behind),
      length-append (encode_varint (length output.script_pubkey)) (output.script_pubkey ++ behind),
      length-append output.script_pubkey behind,
    )

-- The offsets of the counts and of what they count, in a slice with a transaction's body.
pub record Body (raw : Bytes) (offset : ℕ) (tx : Transaction) (rest : Bytes) : Type 0 where
  pub inputs_end : ℕ
  pub outputs_end : ℕ
  pub input_size : ℕ
  pub output_size : ℕ
  pub offset_inside : offset ≤ length raw
  pub count_read : read_varint (drop offset raw) ≡ ok (length tx.vin, input_size)
  pub inputs_skipped : skip_inputs (length tx.vin) raw (offset + input_size) ≡ ok inputs_end
  pub inputs_end_inside : inputs_end ≤ length raw
  pub output_count_read : read_varint (drop inputs_end raw) ≡ ok (length tx.vout, output_size)
  pub outputs_skipped :
      skip_outputs (length tx.vout) raw (inputs_end + output_size) ≡ ok outputs_end
  pub inputs_forward : offset + input_size ≤ inputs_end
  pub outputs_forward : inputs_end + output_size ≤ outputs_end
  pub ends : At raw outputs_end rest
  pub wide : offset + 2 ≤ outputs_end
  pub inputs_small : length (inputs_bytes tx.vin []) ≤ length raw
  pub outputs_small : length (outputs_bytes tx.vout []) ≤ length raw
  pub inputs_between : between (offset + input_size) inputs_end raw ≡ inputs_bytes tx.vin []
  pub outputs_between :
      between (inputs_end + output_size) outputs_end raw ≡ outputs_bytes tx.vout []

pub body :
    (raw : Bytes) (offset : ℕ) (tx : Transaction) (rest : Bytes)
    → length raw < u64_mod
    → All IsInput tx.vin
    → At raw offset (body_bytes tx rest)
    → Body raw offset tx rest
body raw offset tx rest small all at =
    let in_count = encode_varint (length tx.vin) in
    let out_count = encode_varint (length tx.vout) in
    let outs = outputs_bytes tx.vout rest in
    let ins = inputs_bytes tx.vin (out_count ++ outs) in
    let ins_at = At_past raw offset (length in_count) in_count ins at refl in
    let (inputs_end, skipped, end_at, le) =
      skip_inputs-inputs_bytes raw tx.vin (out_count ++ outs) _ small all ins_at in
    let outs_at = At_past raw inputs_end (length out_count) out_count outs end_at refl in
    let (outputs_end, skipped', rest_at, le') =
      skip_outputs-outputs_bytes raw tx.vout rest _ small outs_at in
    record {
      inputs_end = inputs_end;
      outputs_end = outputs_end;
      input_size = length in_count;
      output_size = length out_count;
      offset_inside = at.inside;
      count_read =
          ap read_varint at.from_here
          ∙ read_varint-encode_varint (length tx.vin) ins (
              omega (
                arith,
                length-vin tx.vin (out_count ++ outs) all,
                At_length raw (offset + length in_count) ins ins_at,
              ));
      inputs_skipped = skipped;
      inputs_end_inside = end_at.inside;
      output_count_read =
          ap read_varint end_at.from_here
          ∙ read_varint-encode_varint (length tx.vout) outs (
              omega (
                arith,
                length-vout tx.vout rest,
                At_length raw (inputs_end + length out_count) outs outs_at,
              ));
      outputs_skipped = skipped';
      inputs_forward = le;
      outputs_forward = le';
      ends = rest_at;
      wide =
          omega
            (arith, length-encode_varint (length tx.vin), length-encode_varint (length tx.vout));
      inputs_small = omega (
        arith,
        ap length (inputs_bytes-append tx.vin (out_count ++ outs)),
        length-append (inputs_bytes tx.vin []) (out_count ++ outs),
        At_length raw (offset + length in_count) ins ins_at,
      );
      outputs_small = omega (
        arith,
        ap length (outputs_bytes-append tx.vout rest),
        length-append (outputs_bytes tx.vout []) rest,
        At_length raw (inputs_end + length out_count) outs outs_at,
      );
      inputs_between =
          At_between raw (offset + length in_count) inputs_end (inputs_bytes tx.vin [])
            (out_count ++ outs)
            (At_as raw _ (inputs_bytes-append tx.vin (out_count ++ outs)) ins_at) end_at;
      outputs_between =
          At_between raw (inputs_end + length out_count) outputs_end (outputs_bytes tx.vout []) rest
            (At_as raw _ (outputs_bytes-append tx.vout rest) outs_at) rest_at;
    }

pub body_bytes-append :
    (tx : Transaction) (rest : Bytes) → body_bytes tx rest ≡ body_bytes tx [] ++ rest
body_bytes-append tx rest =
    rw
      (
        outputs_bytes-append tx.vout rest,
        inputs_bytes-append tx.vin
            (encode_varint (length tx.vout) ++ (outputs_bytes tx.vout [] ++ rest)),
        inputs_bytes-append tx.vin (encode_varint (length tx.vout) ++ outputs_bytes tx.vout []),
      )
      (simp append_assoc refl)
