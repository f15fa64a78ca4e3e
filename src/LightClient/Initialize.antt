-- ===== src/LightClient/Initialize.antt =====
-- programs/btc-light-client/src/instructions/initialize.rs and reinitialize.rs.
use utxopia_solana_programs.Prelude.{
  ℕ, ◌+◌, ◌%◌, Bool, false, List, [], ◌∷◌, some, none, ltb, leb, ◌==◌, ◌&&◌, ◌||◌, if◌then◌else◌,
  bytes_eq, length, get_or, replicate,
}
use utxopia_solana_programs.Prelude.Numbers.{u32_mod, saturating_sub}
use utxopia_solana_programs.Prelude.Digits.{value}
use utxopia_solana_programs.Prelude.Results.{
  Result, ok, ◌>>=◌, ◌>>◌, require, reject, invalid_argument, invalid_instruction_data,
  not_enough_account_keys, missing_required_signature, account_already_initialized, panicked,
}
use utxopia_solana_programs.LightClient.Constants.{network_allowed_in_build, required_confirmations}
use utxopia_solana_programs.LightClient.State.{
  Bytes, Store, AccountInfo, Content, BitcoinLightClient, BlockHeader, light_client,
  read_light_client, data_len, tag, light_client_len, block_header_len, height_index_len,
  put_content, zero_key,
}
use utxopia_solana_programs.LightClient.Runtime.{Runtime, create_or_claim_pda}
use utxopia_solana_programs.LightClient.Access.{
  account_at, slice, u32_at, is_production, light_client_seed, block_pda, index_pda, require_owned,
  require_key, write_header, write_index,
}
pub mod Genesis
pub mod Checkpoint
pub mod Anchor

-- The fields of the instruction data; those that it leaves out are zero.
pub record Start : Type 0 where
  pub height : ℕ
  pub block_hash : Bytes
  pub network : ℕ
  pub initial_bits : ℕ
  pub epoch_start : ℕ
  pub timestamp : ℕ
  pub bits : ℕ
  pub prev_block_hash : Bytes

abbrev optional_u32 : Bytes → ℕ → ℕ → ℕ
optional_u32 bytes size at = if leb size (length bytes) then u32_at at bytes else 0

-- `initialize` does not read the last field.
unfoldable pub start_of : Bytes → Start
start_of bytes =
    let initial_bits = optional_u32 bytes 49 41 in
    let start_bits = optional_u32 bytes 57 53 in
    record {
      height = value 256 (slice 0 8 bytes);
      block_hash = slice 8 32 bytes;
      network = get_or bytes 40 0;
      initial_bits = initial_bits;
      epoch_start = optional_u32 bytes 49 45;
      timestamp = optional_u32 bytes 53 49;
      bits = if start_bits == 0 then initial_bits else start_bits;
      prev_block_hash = if leb 89 (length bytes) then slice 57 32 bytes else replicate 32 0;
    }

abbrev is_light_client_tag : Content → Bool
is_light_client_tag c = elim (tag c) [ none ↦ false | some t ↦ t == 0x06 ]

abbrev start_finalized : ℕ → ℕ
start_finalized height = saturating_sub height (saturating_sub required_confirmations 1)

module _ (rt : Runtime) where
  -- The state that `initialize` writes, with `bump` from the address and the payer as authority.
  unfoldable pub initial_client : Start → ℕ → Bytes → BitcoinLightClient
  initial_client start bump authority = record {
    bump = bump;
    paused = 0;
    network = start.network;
    authority = authority;
    genesis_hash = start.block_hash;
    tip_hash = start.block_hash;
    total_chainwork = replicate 32 0;
    tip_height = start.height;
    finalized_height = start_finalized start.height;
    header_count = 0;
    last_update = rt.unix_timestamp;
    expected_bits = start.initial_bits;
    epoch_start_time = start.epoch_start;
    reinit_epoch = 0;
  }

  -- The state that `reinitialize` leaves: the bump and the authority stay, the epoch moves on.
  unfoldable pub restarted_client : Start → BitcoinLightClient → BitcoinLightClient
  restarted_client start lc = record lc {
    reinit_epoch = (lc.reinit_epoch + 1) % u32_mod;
    network = start.network;
    paused = 0;
    genesis_hash = start.block_hash;
    tip_hash = start.block_hash;
    total_chainwork = replicate 32 0;
    tip_height = start.height;
    finalized_height = start_finalized start.height;
    header_count = 0;
    expected_bits = start.initial_bits;
    epoch_start_time = start.epoch_start;
    last_update = rt.unix_timestamp;
  }

  unfoldable pub genesis_header : Start → Bytes → ℕ → BlockHeader
  genesis_header start prev_block_hash reinit_epoch = record {
    version = replicate 4 0;
    prev_block_hash = prev_block_hash;
    merkle_root = zero_key;
    timestamp = start.timestamp;
    bits = start.bits;
    nonce = replicate 4 0;
    block_hash = start.block_hash;
    chainwork = replicate 32 0;
    height = start.height;
    submitted_at = rt.unix_timestamp;
    epoch_bits = start.initial_bits;
    epoch_start_time = start.epoch_start;
    reinit_epoch = reinit_epoch;
  }

  unfoldable pub store_genesis_header : Bytes → Bytes → BlockHeader → Store → Result Store
  store_genesis_header payer key header s = do
    require_key rt key (block_pda rt header.block_hash).0
    create_or_claim_pda rt payer key (rt.minimum_balance block_header_len) block_header_len s
        >>= write_header rt key header

  unfoldable pub store_genesis_index : Bytes → Bytes → Start → Store → Result Store
  store_genesis_index payer key start s = do
    require_key rt key (index_pda rt start.height).0
    create_or_claim_pda rt payer key (rt.minimum_balance height_index_len) height_index_len s
        >>= write_index rt key (record {
          bump = (index_pda rt start.height).1;
          block_hash = start.block_hash;
          height = start.height;
        })

  unfoldable pub write_client : Bytes → BitcoinLightClient → Store → Result Store
  write_client key lc s = do
    require (leb light_client_len (data_len (s key).content)) panicked
    ok (put_content s key (light_client lc))

  abbrev pub client_pda : Bytes × ℕ
  client_pda = rt.find_program_address (light_client_seed ∷ [])

  -- The accounts of a new chain: the client, the first header and its index entry. The creation of
  -- the client's account is the code of `create_or_claim_pda`, written out in the source.
  unfoldable pub create_client : Bytes → Bytes → BitcoinLightClient → Store → Result Store
  create_client payer key lc s =
      create_or_claim_pda rt payer key (rt.minimum_balance light_client_len) light_client_len s
      >>= write_client key lc

  unfoldable pub create_chain : Bytes → Bytes → Bytes → BlockHeader → Start → Store → Result Store
  create_chain payer header_key index_key header start s =
      store_genesis_header payer header_key header s >>= store_genesis_index payer index_key start

  -- `mainnet` is the build feature.
  unfoldable pub process_initialize : Bool → List AccountInfo → Bytes → Store → Result Store
  process_initialize mainnet accounts bytes s = do
    reject (ltb (length bytes) 41) invalid_instruction_data
    reject (ltb (length accounts) 5) not_enough_account_keys
    light_client_info ← account_at accounts 0
    payer ← account_at accounts 1
    height_index_info ← account_at accounts 3
    block_header_info ← account_at accounts 4
    require payer.is_signer missing_required_signature
    let start = start_of bytes
    require (network_allowed_in_build mainnet start.network) invalid_instruction_data
    require_key rt light_client_info.key client_pda.0
    reject (is_light_client_tag (s light_client_info.key).content) account_already_initialized
    created ←
        create_client payer.key light_client_info.key (initial_client start client_pda.1 payer.key)
          s
    reject (is_production start.network && ((start.initial_bits == 0) || (start.epoch_start == 0)))
        invalid_instruction_data
    create_chain payer.key block_header_info.key height_index_info.key
        (genesis_header start zero_key 0) start created

  unfoldable pub process_reinitialize : Bool → List AccountInfo → Bytes → Store → Result Store
  process_reinitialize mainnet accounts bytes s = do
    reject (ltb (length bytes) 41) invalid_instruction_data
    reject (ltb (length accounts) 5) not_enough_account_keys
    light_client_info ← account_at accounts 0
    authority_info ← account_at accounts 1
    height_index_info ← account_at accounts 3
    block_header_info ← account_at accounts 4
    require authority_info.is_signer missing_required_signature
    require_owned rt s light_client_info.key
    lc ← read_light_client (s light_client_info.key).content
    require (bytes_eq lc.authority authority_info.key) invalid_argument
    let start = start_of bytes
    require (network_allowed_in_build mainnet start.network) invalid_instruction_data
    let restarted = restarted_client start lc
    let reset = put_content s light_client_info.key (light_client restarted)
    create_chain authority_info.key block_header_info.key height_index_info.key
        (genesis_header start start.prev_block_hash restarted.reinit_epoch) start reset
