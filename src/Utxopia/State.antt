-- ===== src/Utxopia/State.antt =====
-- programs/utxopia/src/state/pool.rs, redemption.rs, utxo.rs and token_config.rs: the accounts. The structs are read
-- and written in place over account bytes; here an account's content is the struct itself, with its
-- little-endian integers as numbers, the bits of `flags` as Booleans and the two halves of the
-- UTXO count as the fields they are. Timestamps are taken not to be negative. `raw` is any content
-- that fails the length or discriminator checks of the structs here.
use utxopia_solana_programs.Prelude.{
  ℕ, Bool, ◌∷◌, Option, ◌==◌, bytes_eq, bytes_eq→eq, bytes_eq_refl, Bool-cases, false, inl, inr,
  refl, sym, ◌≡◌, ◌≢◌, if◌then◌else◌,
}
use utxopia_solana_programs.Prelude.Results.{Result, ok, err, invalid_account_data, invalid_utxo}
use utxopia_solana_programs.Utxopia.Bytes.{Bytes}
use utxopia_solana_programs.Utxopia.CommitmentTree.{CommitmentTree}

pub record PoolState : Type 0 where
  pub bump : ℕ
  pub paused : Bool
  pub permissioned : Bool
  pub auditor_frozen : Bool
  pub vk_registries_frozen : Bool
  pub authority : Bytes
  pub zkbtc_mint : Bytes
  pub pool_vault : Bytes
  pub deposit_vault : Bytes
  pub deposit_count : ℕ
  pub total_minted : ℕ
  pub total_burned : ℕ
  pub pending_redemptions : ℕ
  pub last_update : ℕ
  pub min_deposit : ℕ
  pub max_deposit : ℕ
  pub total_shielded : ℕ
  pub service_fee_base : ℕ
  pub fee_pool : ℕ
  pub pending_min_deposit : ℕ
  pub pending_max_deposit : ℕ
  pub pending_service_fee : ℕ
  pub pending_execute_after : ℕ
  pub deposit_fee_bps : ℕ
  pub withdrawal_fee_bps : ℕ
  pub total_btc_held : ℕ
  pub utxo_count_lo : ℕ
  pub active_tree_index : ℕ
  pub utxo_count_hi : ℕ
  pub auditor : Bytes
  pub auditor_viewing_pubkey : Bytes
  pub nullifier_count : ℕ

pub data RedemptionStatus : Type 0 where
  pending processing failed : RedemptionStatus

pub record RedemptionRequest : Type 0 where
  pub status : RedemptionStatus
  pub signing_approved : Bool
  pub processing_slot : ℕ
  pub request_id : ℕ
  pub requester : Bytes
  pub amount_sats : ℕ
  pub service_fee : ℕ
  pub total_input_sats : ℕ
  pub btc_script : Bytes
  pub token_id : Bytes
  pub reserved_count : ℕ
  pub approved_inputs : ℕ
  pub approval_miner_fee : ℕ
  pub inputs_commitment : Bytes

pub data UtxoStatus : Type 0 where
  unspent reserved : UtxoStatus

-- The last field is the tail behind the struct.
pub record UtxoRecord : Type 0 where
  pub status : UtxoStatus
  pub vout : ℕ
  pub txid : Bytes
  pub amount_sats : ℕ
  pub reserved_for_request_id : ℕ
  pub leaf_commitment : Option Bytes

pub record TokenConfig : Type 0 where
  pub bump : ℕ
  pub mint : Bytes
  pub token_id : Bytes
  pub vault : Bytes
  pub decimals : ℕ
  pub enabled : ℕ
  pub service_fee : ℕ
  pub min_deposit : ℕ
  pub max_deposit : ℕ
  pub deposit_cap : ℕ
  pub total_shielded : ℕ
  pub accumulated_fees : ℕ

pub data Content : Type 0 where
  raw : Bytes → Content
  pool_state : PoolState → Content
  redemption_request : RedemptionRequest → Content
  utxo_record : UtxoRecord → Content
  token_config : TokenConfig → Content
  commitment_tree : CommitmentTree → Content

-- `PoolState::from_bytes` and `RedemptionRequest::from_bytes`.
abbrev pub read_pool : Content → Result PoolState
read_pool (pool_state pool) = ok pool
read_pool _ = err invalid_account_data

abbrev pub read_redemption : Content → Result RedemptionRequest
read_redemption (redemption_request redemption) = ok redemption
read_redemption _ = err invalid_account_data

-- `TokenConfig::from_bytes` and `CommitmentTree::from_bytes`.
abbrev pub read_token_config : Content → Result TokenConfig
read_token_config (token_config config) = ok config
read_token_config _ = err invalid_account_data

abbrev pub read_tree : Content → Result CommitmentTree
read_tree (commitment_tree tree) = ok tree
read_tree _ = err invalid_account_data

-- `UTXO_RECORD_DISCRIMINATOR` is tested in front of `UtxoRecord::from_bytes_mut`.
abbrev pub read_utxo : Content → Result UtxoRecord
read_utxo (utxo_record utxo) = ok utxo
read_utxo (raw (b ∷ _)) = if b == 9 then err invalid_account_data else err invalid_utxo
read_utxo _ = err invalid_utxo

pub record Account : Type 0 where
  pub owner : Bytes
  pub lamports : ℕ
  pub content : Content

-- The accounts by their keys, so that two entries of an account list with one key are one account.
abbrev pub Store : Type 0
Store = Bytes → Account

unfoldable pub put_content : Store → Bytes → Content → Store
put_content s key c k = if bytes_eq key k then record (s key) { content = c } else s k

unfoldable pub put_lamports : Store → Bytes → ℕ → Store
put_lamports s key lamports k =
    if bytes_eq key k then record (s key) { lamports = lamports } else s k

-- An entry of the account list of an instruction.
pub record AccountInfo : Type 0 where
  pub key : Bytes
  pub is_signer : Bool
  pub is_writable : Bool

-- A write and the reads after it.
pub put_content_here :
    (s : Store) (key : Bytes) (c : Content) → (put_content s key c key).content ≡ c
unfolding put_content
put_content_here s key c = rw (bytes_eq_refl key) refl

pub put_content_other :
    (s : Store) (key k : Bytes) (c : Content)
    → bytes_eq key k ≡ false
    → (put_content s key c k).content ≡ (s k).content
unfolding put_content
put_content_other s key k c e = rw e refl

pub put_content_ne :
    (s : Store) (key k : Bytes) (c : Content)
    → k ≢ key
    → (put_content s key c k).content ≡ (s k).content
put_content_ne s key k c ne = elim (Bool-cases (bytes_eq key k)) [
  | inl e ↦ absurd (ne (sym (bytes_eq→eq key k e)))
  | inr e ↦ put_content_other s key k c e
]
