-- ===== src/Utxopia/Bitcoin/Serialize.antt =====
-- Bitcoin's serialization of a transaction, written as a specification of what
-- programs/utxopia/src/utils/bitcoin.rs parses: the legacy form, and the segwit form with the marker,
-- the flag and witness bytes of any content.
use utxopia_solana_programs.Prelude.{ℕ, ◌<◌, ◌≡◌, List, [], ◌∷◌, ◌++◌, length, All}
use utxopia_solana_programs.Prelude.Numbers.{u64_mod, u32_mod}
use utxopia_solana_programs.LightClient.Utils.U256.{to_le_bytes}
use utxopia_solana_programs.Utxopia.Bytes.{Bytes}
use utxopia_solana_programs.Utxopia.Bitcoin.Varint.{encode_varint}
use utxopia_solana_programs.Utxopia.Bitcoin.Outputs.{TxOutput}

pub record InputData : Type 0 where
  pub prev_txid : Bytes
  pub prev_vout : ℕ
  pub script_sig : Bytes
  pub sequence : Bytes

pub record Transaction : Type 0 where
  pub version : Bytes
  pub vin : List InputData
  pub vout : List TxOutput
  pub locktime : Bytes

-- A script behind its length.
abbrev pub script_bytes : Bytes → Bytes → Bytes
script_bytes script rest = encode_varint (length script) ++ (script ++ rest)

-- The bytes of the inputs and of the outputs, in front of `rest`.
abbrev pub outpoint_bytes : InputData → Bytes
outpoint_bytes input = input.prev_txid ++ to_le_bytes 4 input.prev_vout

abbrev pub inputs_bytes : List InputData → Bytes → Bytes
inputs_bytes [] rest = rest
inputs_bytes (input ∷ vin) rest =
    outpoint_bytes input ++ script_bytes input.script_sig (input.sequence ++ inputs_bytes vin rest)

abbrev pub outputs_bytes : List TxOutput → Bytes → Bytes
outputs_bytes [] rest = rest
outputs_bytes (output ∷ vout) rest =
    to_le_bytes 8 output.value ++ script_bytes output.script_pubkey (outputs_bytes vout rest)

-- The counts, the inputs and the outputs, in front of `rest`.
abbrev pub body_bytes : Transaction → Bytes → Bytes
body_bytes tx rest =
    encode_varint (length tx.vin)
    ++ inputs_bytes tx.vin (encode_varint (length tx.vout) ++ outputs_bytes tx.vout rest)

-- The legacy form, and the segwit form with its witness bytes.
pub data Format : Type 0 where
  legacy : Format
  segwit : Bytes → Format

unfoldable pub serialize : Format → Transaction → Bytes
serialize legacy tx = tx.version ++ body_bytes tx tx.locktime
serialize (segwit witness) tx = tx.version ++ (0 ∷ 1 ∷ body_bytes tx (witness ++ tx.locktime))

-- The widths of the fields, at least one input, and a serialization that a slice can hold.
abbrev pub IsInput : InputData → Type 0
IsInput input =
    (length input.prev_txid ≡ 32) × (input.prev_vout < u32_mod) × (length input.sequence ≡ 4)

abbrev pub IsOutput : TxOutput → Type 0
IsOutput output = output.value < u64_mod

pub record IsTransaction (format : Format) (tx : Transaction) : Type 0 where
  pub version : length tx.version ≡ 4
  pub locktime : length tx.locktime ≡ 4
  pub inputs : All IsInput tx.vin
  pub outputs : All IsOutput tx.vout
  pub some_input : 0 < length tx.vin
  pub fits : length (serialize format tx) < u64_mod
