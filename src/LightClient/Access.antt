-- ===== src/LightClient/Access.antt =====
-- What the handlers of programs/btc-light-client/src/instructions share: the account list, the PDA
-- seeds, and the writes of whole structs.
use utxopia_solana_programs.Prelude.{
  ℕ, Bool, true, false, List, [], ◌∷◌, leb, ◌==◌, not, ◌&&◌, bytes_eq, take, drop, get_elem?, ◌||◌,
}
use utxopia_solana_programs.Prelude.Digits.{value}
use utxopia_solana_programs.Prelude.Results.{
  Result, ok, ◌>>◌, require, reject, ok_or, illegal_owner, invalid_seeds, panicked,
}
use utxopia_solana_programs.LightClient.Constants.{network_mainnet, network_testnet4}
use utxopia_solana_programs.LightClient.Utils.U256.{to_le_bytes}
use utxopia_solana_programs.LightClient.State.{
  Bytes, Store, AccountInfo, Content, BlockHeader, HeightIndex, block_header, height_index,
  data_len, block_header_len, height_index_len, put_content,
}
use utxopia_solana_programs.LightClient.Runtime.{Runtime}

-- `&accounts[i]`, and a slice of the instruction's data.
abbrev pub account_at : List AccountInfo → ℕ → Result AccountInfo
account_at accounts i = ok_or (get_elem? accounts i) panicked

unfoldable pub slice : ℕ → ℕ → Bytes → Bytes
slice at size bytes = take size (drop at bytes)

unfoldable pub u32_at : ℕ → Bytes → ℕ
unfolding slice
u32_at at bytes = value 256 (slice at 4 bytes)

-- b"btc_light_client", b"block", b"height_index", b"verified_tx".
abbrev pub light_client_seed : Bytes
light_client_seed =
    b'b' ∷ b't' ∷ b'c' ∷ b'_' ∷ b'l' ∷ b'i' ∷ b'g' ∷ b'h' ∷ b't' ∷ b'_' ∷ b'c' ∷ b'l' ∷ b'i' ∷ b'e'
    ∷ b'n' ∷ b't' ∷ []

abbrev pub block_header_seed : Bytes
block_header_seed = b'b' ∷ b'l' ∷ b'o' ∷ b'c' ∷ b'k' ∷ []

abbrev pub height_index_seed : Bytes
height_index_seed =
    b'h' ∷ b'e' ∷ b'i' ∷ b'g' ∷ b'h' ∷ b't' ∷ b'_' ∷ b'i' ∷ b'n' ∷ b'd' ∷ b'e' ∷ b'x' ∷ []

abbrev pub verified_tx_seed : Bytes
verified_tx_seed = b'v' ∷ b'e' ∷ b'r' ∷ b'i' ∷ b'f' ∷ b'i' ∷ b'e' ∷ b'd' ∷ b'_' ∷ b't' ∷ b'x' ∷ []

-- The networks that enforce difficulty and the median time past.
unfoldable pub is_production : ℕ → Bool
is_production network = (network == network_mainnet) || (network == network_testnet4)

abbrev pub is_block_header : Content → Bool
is_block_header (block_header _) = true
is_block_header _ = false

abbrev pub is_height_index : Content → Bool
is_height_index (height_index _) = true
is_height_index _ = false

module _ (rt : Runtime) where
  abbrev pub block_pda : Bytes → Bytes × ℕ
  block_pda hash = rt.find_program_address (block_header_seed ∷ hash ∷ [])

  abbrev pub index_pda : ℕ → Bytes × ℕ
  index_pda height = rt.find_program_address (height_index_seed ∷ to_le_bytes 8 height ∷ [])

  abbrev pub require_owned : Store → Bytes → Result (Unit {0})
  require_owned s key = require (bytes_eq (s key).owner rt.program_id) illegal_owner

  abbrev pub require_key : Bytes → Bytes → Result (Unit {0})
  require_key key pda = require (bytes_eq key pda) invalid_seeds

  -- An account that holds data must be the program's.
  abbrev pub reject_foreign : Store → Bytes → Result (Unit {0})
  reject_foreign s key =
      reject (not (data_len (s key).content == 0) && not (bytes_eq (s key).owner rt.program_id))
        illegal_owner

  -- The bytes from `[..LEN]` are written; a shorter account panics.
  unfoldable pub write_header : Bytes → BlockHeader → Store → Result Store
  unfolding data_len
  write_header key header s = do
    require (leb block_header_len (data_len (s key).content)) panicked
    ok (put_content s key (block_header header))

  -- A write through the cast to a whole struct; into a shorter account it is taken to panic.
  unfoldable pub write_index : Bytes → HeightIndex → Store → Result Store
  unfolding data_len
  write_index key index s = do
    require (leb height_index_len (data_len (s key).content)) panicked
    ok (put_content s key (height_index index))
