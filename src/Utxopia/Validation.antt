-- ===== src/Utxopia/Validation.antt =====
-- What the handlers of programs/utxopia share: programs/utxopia/src/utils/validation.rs and policy.rs,
-- and the sysvars and addresses of Solana as a parameter.
use utxopia_solana_programs.Prelude.{
  zero, suc, length, replicate, Option, none, some, ℕ, List, [], ◌∷◌, ◌||◌, ◌&&◌, ◌==◌, bytes_eq,
  get_elem?, take, if◌then◌else◌,
}
use utxopia_solana_programs.Prelude.Numbers.{checked_add}
use utxopia_solana_programs.Prelude.Digits.{value}
use utxopia_solana_programs.Prelude.Results.{
  Result, ok, arithmetic_overflow, ◌>>=◌, ◌>>◌, require, ok_or, panicked, invalid_account_owner,
  account_not_writable, invalid_seeds, unauthorized,
}
use utxopia_solana_programs.LightClient.Utils.U256.{to_le_bytes}
use utxopia_solana_programs.Utxopia.Bytes.{Bytes}
use utxopia_solana_programs.Utxopia.State.{
  Store, AccountInfo, Content, raw, pool_state, redemption_request, utxo_record, token_config,
  commitment_tree, read_pool, read_redemption, put_content, put_lamports,
}

-- `program_id` is the key that the program runs under. `unix_timestamp`, taken not to be negative,
-- and `slot` are the clock sysvar's; `sha256` is the syscall.
pub record Runtime : Type 0 where
  pub program_id : Bytes
  pub find_program_address : List Bytes → Bytes × ℕ
  pub unix_timestamp : ℕ
  pub slot : ℕ
  pub sha256 : Bytes → Bytes

-- `&accounts[i]`.
abbrev pub account_at : List AccountInfo → ℕ → Result AccountInfo
account_at accounts i = ok_or (get_elem? accounts i) panicked

abbrev pub validate_account_writable : AccountInfo → Result (Unit {0})
validate_account_writable account = require account.is_writable account_not_writable

-- b"pool_state", b"redemption", b"utxo".
abbrev pub pool_seed : Bytes
pool_seed = b'p' ∷ b'o' ∷ b'o' ∷ b'l' ∷ b'_' ∷ b's' ∷ b't' ∷ b'a' ∷ b't' ∷ b'e' ∷ []

abbrev pub redemption_seed : Bytes
redemption_seed = b'r' ∷ b'e' ∷ b'd' ∷ b'e' ∷ b'm' ∷ b'p' ∷ b't' ∷ b'i' ∷ b'o' ∷ b'n' ∷ []

abbrev pub utxo_seed : Bytes
utxo_seed = b'u' ∷ b't' ∷ b'x' ∷ b'o' ∷ []

unfoldable pub redemption_driver_is_allowed : Bytes → Bytes → Bytes → Result (Unit {0})
redemption_driver_is_allowed signer pool_authority requester =
    require (bytes_eq signer pool_authority || bytes_eq signer requester) unauthorized

-- b"commitment_tree" and b"token_config".
abbrev pub tree_seed : Bytes
tree_seed =
    b'c' ∷ b'o' ∷ b'm' ∷ b'm' ∷ b'i' ∷ b't' ∷ b'm' ∷ b'e' ∷ b'n' ∷ b't' ∷ b'_' ∷ b't' ∷ b'r' ∷ b'e'
    ∷ b'e' ∷ []

abbrev pub token_config_seed : Bytes
token_config_seed =
    b't' ∷ b'o' ∷ b'k' ∷ b'e' ∷ b'n' ∷ b'_' ∷ b'c' ∷ b'o' ∷ b'n' ∷ b'f' ∷ b'i' ∷ b'g' ∷ []

abbrev pub leaf_len : Option Bytes → ℕ
leaf_len none = 48
leaf_len (some _) = 80

abbrev pub marked_bytes : ℕ → Bytes
marked_bytes zero = []
marked_bytes (suc n) = 255 ∷ replicate n 0

-- `LEN` of the structs; a UTXO record with a leaf has 32 bytes more.
abbrev pub struct_len : Content → ℕ
struct_len (raw bytes) = length bytes
struct_len (pool_state _) = 332
struct_len (redemption_request _) = 178
struct_len (utxo_record utxo) = leaf_len utxo.leaf_commitment
struct_len (token_config _) = 164
struct_len (commitment_tree _) = 8_816

-- The marker 0xFF, and zeros behind it.
abbrev pub closed : Content → Content
closed c = raw (marked_bytes (struct_len c))

unfoldable pub close_account_securely : Store → AccountInfo → AccountInfo → Result Store
close_account_securely s account destination = do
  let s1 = put_content s account.key (closed (s account.key).content)
  let lamports = (s1 account.key).lamports
  let s2 = put_lamports s1 account.key 0
  (if lamports == 0 then ok s1 else (do
    total ← ok_or (checked_add (s2 destination.key).lamports lamports) arithmetic_overflow
    ok (put_lamports s2 destination.key total)))

module _ (rt : Runtime) where
  abbrev pub validate_program_owner : Store → AccountInfo → Result (Unit {0})
  validate_program_owner s account =
      require (bytes_eq (s account.key).owner rt.program_id) invalid_account_owner

  unfoldable pub validate_pool_state_pda : Store → AccountInfo → Result (Unit {0})
  validate_pool_state_pda s account = do
    validate_program_owner s account
    pool ← read_pool (s account.key).content
    let (namespaced, bump) = rt.find_program_address (pool_seed ∷ pool.zkbtc_mint ∷ [])
    require (bytes_eq account.key namespaced && (pool.bump == bump)) invalid_seeds

  unfoldable pub validate_redemption_pda : Store → AccountInfo → AccountInfo → Result (Unit {0})
  unfolding validate_pool_state_pda to_le_bytes
  validate_redemption_pda s account pool_account = do
    validate_program_owner s account
    validate_pool_state_pda s pool_account
    redemption ← read_redemption (s account.key).content
    let nonce = to_le_bytes 8 redemption.request_id
    let (expected, _) =
        rt.find_program_address
          (redemption_seed ∷ pool_account.key ∷ redemption.requester ∷ nonce ∷ [])
    require (bytes_eq account.key expected) invalid_seeds

  unfoldable pub validate_active_tree_pda :
      Store → AccountInfo → AccountInfo → ℕ → Result (Unit {0})
  unfolding validate_pool_state_pda to_le_bytes
  validate_active_tree_pda s tree_account pool_account active_index = do
    validate_pool_state_pda s pool_account
    let (expected, _) =
        rt.find_program_address (tree_seed ∷ pool_account.key ∷ to_le_bytes 4 active_index ∷ [])
    require (bytes_eq tree_account.key expected) invalid_seeds

  unfoldable pub redemption_reservation_key : Bytes → ℕ
  redemption_reservation_key redemption_pda = value 256 (take 8 (rt.sha256 redemption_pda))
