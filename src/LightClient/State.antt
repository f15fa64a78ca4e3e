-- ===== src/LightClient/State.antt =====
-- programs/btc-light-client/src/state: the accounts of the program. The structs are read and
-- written in place over account bytes; here an account's content is the struct itself, with its
-- little-endian integers as numbers and its byte arrays as lists. `raw` is any content that fails
-- the length and discriminator checks of all four structs.
use utxopia_solana_programs.Prelude.{
  ℕ, Bool, List, [], ◌∷◌, Option, none, some, bytes_eq, if◌then◌else◌, length, replicate,
}
use utxopia_solana_programs.Prelude.Results.{Result, ok, err, invalid_account_data}

-- A public key, a hash or any other byte array.
abbrev pub Bytes : Type 0
Bytes = List ℕ

pub record BitcoinLightClient : Type 0 where
  pub bump : ℕ
  pub paused : ℕ
  pub network : ℕ
  pub authority : Bytes
  pub genesis_hash : Bytes
  pub tip_hash : Bytes
  pub total_chainwork : Bytes
  pub tip_height : ℕ
  pub finalized_height : ℕ
  pub header_count : ℕ
  pub last_update : ℕ
  pub expected_bits : ℕ
  pub epoch_start_time : ℕ
  pub reinit_epoch : ℕ

pub record BlockHeader : Type 0 where
  pub version : Bytes
  pub prev_block_hash : Bytes
  pub merkle_root : Bytes
  pub timestamp : ℕ
  pub bits : ℕ
  pub nonce : Bytes
  pub block_hash : Bytes
  pub chainwork : Bytes
  pub height : ℕ
  pub submitted_at : ℕ
  pub epoch_bits : ℕ
  pub epoch_start_time : ℕ
  pub reinit_epoch : ℕ

pub record HeightIndex : Type 0 where
  pub bump : ℕ
  pub block_hash : Bytes
  pub height : ℕ

pub record VerifiedTransaction : Type 0 where
  pub bump : ℕ
  pub block_height : ℕ
  pub block_hash : Bytes
  pub txid : Bytes
  pub verified_at : ℕ
  pub tx_index : ℕ
  pub reinit_epoch : ℕ

pub data Content : Type 0 where
  raw : Bytes → Content
  light_client : BitcoinLightClient → Content
  block_header : BlockHeader → Content
  height_index : HeightIndex → Content
  verified_transaction : VerifiedTransaction → Content

-- `size_of` the four structs.
abbrev pub light_client_len : ℕ
light_client_len = 232

abbrev pub block_header_len : ℕ
block_header_len = 196

abbrev pub height_index_len : ℕ
height_index_len = 48

abbrev pub verified_transaction_len : ℕ
verified_transaction_len = 120

unfoldable pub data_len : Content → ℕ
data_len (raw bytes) = length bytes
data_len (light_client _) = light_client_len
data_len (block_header _) = block_header_len
data_len (height_index _) = height_index_len
data_len (verified_transaction _) = verified_transaction_len

-- The first byte, the discriminator of a struct.
unfoldable pub tag : Content → Option ℕ
tag (raw []) = none
tag (raw (b ∷ _)) = some b
tag (light_client _) = some 0x06
tag (block_header _) = some 0x07
tag (verified_transaction _) = some 0x08
tag (height_index _) = some 0x09

-- The length and discriminator checks in front of each cast.
abbrev pub read_light_client : Content → Result BitcoinLightClient
read_light_client (light_client lc) = ok lc
read_light_client _ = err invalid_account_data

abbrev pub read_block_header : Content → Result BlockHeader
read_block_header (block_header h) = ok h
read_block_header _ = err invalid_account_data

abbrev pub read_height_index : Content → Result HeightIndex
read_height_index (height_index hi) = ok hi
read_height_index _ = err invalid_account_data

pub record Account : Type 0 where
  pub owner : Bytes
  pub lamports : ℕ
  pub content : Content

-- The accounts by their keys, so that two entries of an instruction's account list with one key
-- are one account.
abbrev pub Store : Type 0
Store = Bytes → Account

abbrev pub put : Store → Bytes → Account → Store
put s key a k = if bytes_eq key k then a else s k

abbrev pub put_content : Store → Bytes → Content → Store
put_content s key c = put s key (record (s key) { content = c })

-- An entry of the account list of an instruction.
pub record AccountInfo : Type 0 where
  pub key : Bytes
  pub is_signer : Bool

abbrev pub zero_key : Bytes
zero_key = replicate 32 0
