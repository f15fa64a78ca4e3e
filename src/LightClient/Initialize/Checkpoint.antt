-- ===== src/LightClient/Initialize/Checkpoint.antt =====
-- The checkpoint that the data of `initialize` and `reinitialize` names, and the structs at its start.
use utxopia_solana_programs.Prelude.{
  ◌≡◌, refl, ◌==◌, ℕ, ◌+◌, ◌-◌, ◌%◌, ◌^◌, leb, length, get_or, replicate, if◌then◌else◌,
}
use utxopia_solana_programs.Prelude.Digits.{value}
use utxopia_solana_programs.LightClient.State.{Bytes, BitcoinLightClient, BlockHeader}
use utxopia_solana_programs.LightClient.Runtime.{Runtime}
use utxopia_solana_programs.LightClient.Access.{slice, u32_at}
use utxopia_solana_programs.LightClient.Initialize.{
  start_of, initial_client, restarted_client, genesis_header,
}

-- What the instruction's data says, by its layout: the height (8 bytes), the block's hash (32), the
-- network, and, each only if the data reaches its end, the difficulty bits and the start time of the
-- epoch (4 bytes each), the block's time, its bits (4 each), and its parent's hash (32).
abbrev pub optional_field : Bytes → ℕ → ℕ → ℕ
optional_field bytes size at = if leb size (length bytes) then value 256 (slice at 4 bytes) else 0

abbrev pub start_hash : Bytes → Bytes
start_hash bytes = slice 8 32 bytes

abbrev pub start_height : Bytes → ℕ
start_height bytes = value 256 (slice 0 8 bytes)

abbrev pub start_network : Bytes → ℕ
start_network bytes = get_or bytes 40 0

abbrev pub start_epoch_bits : Bytes → ℕ
start_epoch_bits bytes = optional_field bytes 49 41

abbrev pub start_epoch_time : Bytes → ℕ
start_epoch_time bytes = optional_field bytes 49 45

abbrev pub start_bits : Bytes → ℕ
start_bits bytes =
    if optional_field bytes 57 53 == 0 then start_epoch_bits bytes else optional_field bytes 57 53

-- A client at a checkpoint: tip and genesis are the block of the data, five blocks above what is
-- finalized, without work.
pub record IsFresh (rt : Runtime) (bytes : Bytes) (lc : BitcoinLightClient) : Type 0 where
  pub running : lc.paused ≡ 0
  pub network : lc.network ≡ start_network bytes
  pub genesis : lc.genesis_hash ≡ start_hash bytes
  pub tip : lc.tip_hash ≡ start_hash bytes
  pub tip_height : lc.tip_height ≡ start_height bytes
  pub finalized : lc.finalized_height ≡ start_height bytes - 5
  pub no_work : lc.total_chainwork ≡ replicate 32 0
  pub no_headers : lc.header_count ≡ 0
  pub epoch_bits : lc.expected_bits ≡ start_epoch_bits bytes
  pub epoch_time : lc.epoch_start_time ≡ start_epoch_time bytes
  pub updated : lc.last_update ≡ rt.unix_timestamp

-- The header of the checkpoint, with a given parent and chain instance.
pub record IsFirst (rt : Runtime) (bytes prev_block_hash : Bytes) (reinit_epoch : ℕ)
    (first : BlockHeader) : Type 0 where
  pub hash : first.block_hash ≡ start_hash bytes
  pub parent : first.prev_block_hash ≡ prev_block_hash
  pub height : first.height ≡ start_height bytes
  pub time : first.timestamp ≡ optional_field bytes 53 49
  pub bits : first.bits ≡ start_bits bytes
  pub no_work : first.chainwork ≡ replicate 32 0
  pub epoch_bits : first.epoch_bits ≡ start_epoch_bits bytes
  pub epoch_time : first.epoch_start_time ≡ start_epoch_time bytes
  pub instance : first.reinit_epoch ≡ reinit_epoch
  pub submitted : first.submitted_at ≡ rt.unix_timestamp
  pub no_version : first.version ≡ replicate 4 0
  pub no_merkle_root : first.merkle_root ≡ replicate 32 0
  pub no_nonce : first.nonce ≡ replicate 4 0

pub initial_client-IsFresh :
    (rt : Runtime) (bytes : Bytes) (bump : ℕ) (authority : Bytes)
    → IsFresh rt bytes (initial_client rt (start_of bytes) bump authority)
      × ((initial_client rt (start_of bytes) bump authority).authority ≡ authority)
      × ((initial_client rt (start_of bytes) bump authority).bump ≡ bump)
      × ((initial_client rt (start_of bytes) bump authority).reinit_epoch ≡ 0)
unfolding initial_client start_of u32_at
initial_client-IsFresh rt bytes bump authority = (
  record {
    running = refl;
    network = refl;
    genesis = refl;
    tip = refl;
    tip_height = refl;
    finalized = refl;
    no_work = refl;
    no_headers = refl;
    epoch_bits = refl;
    epoch_time = refl;
    updated = refl;
  },
  refl,
  refl,
  refl,
)

pub restarted_client-IsFresh :
    (rt : Runtime) (bytes : Bytes) (lc : BitcoinLightClient)
    → IsFresh rt bytes (restarted_client rt (start_of bytes) lc)
      × ((restarted_client rt (start_of bytes) lc).authority ≡ lc.authority)
      × ((restarted_client rt (start_of bytes) lc).bump ≡ lc.bump)
      × ((restarted_client rt (start_of bytes) lc).reinit_epoch ≡ (lc.reinit_epoch + 1) % 2 ^ 32)
unfolding restarted_client start_of u32_at
restarted_client-IsFresh rt bytes lc = (
  record {
    running = refl;
    network = refl;
    genesis = refl;
    tip = refl;
    tip_height = refl;
    finalized = refl;
    no_work = refl;
    no_headers = refl;
    epoch_bits = refl;
    epoch_time = refl;
    updated = refl;
  },
  refl,
  refl,
  refl,
)

pub genesis_header-IsFirst :
    (rt : Runtime) (bytes prev_block_hash : Bytes) (epoch : ℕ)
    → IsFirst rt bytes prev_block_hash epoch
        (genesis_header rt (start_of bytes) prev_block_hash epoch)
unfolding genesis_header start_of u32_at
genesis_header-IsFirst rt bytes prev_block_hash epoch = record {
  hash = refl;
  parent = refl;
  height = refl;
  time = refl;
  bits = refl;
  no_work = refl;
  epoch_bits = refl;
  epoch_time = refl;
  instance = refl;
  submitted = refl;
  no_version = refl;
  no_merkle_root = refl;
  no_nonce = refl;
}
