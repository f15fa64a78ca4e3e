-- ===== src/LightClient/Runtime.antt =====
-- What the light client takes from Solana, as a parameter, and
-- programs/btc-light-client/src/utils/pda.rs, which is written over it.
use utxopia_solana_programs.Prelude.{
  ℕ, ◌-◌, ◌≡◌, ◌≢◌, List, Bool, ltb, ◌==◌, if◌then◌else◌, bytes_eq, ◌++◌, replicate, not,
}
use utxopia_solana_programs.Prelude.Results.{Result, ok, err, ◌>>=◌}
use utxopia_solana_programs.LightClient.State.{Bytes, Store, Content, raw, data_len}
pub mod Claim

-- `program_id` is the key that the program runs under. The system program's instructions change
-- the accounts of a payer and a target; `minimum_balance` is the rent sysvar and `unix_timestamp`
-- the clock sysvar, whose seconds are taken not to be negative; `sha256` is the syscall.
pub record Runtime : Type 0 where
  pub program_id : Bytes
  pub find_program_address : List Bytes → Bytes × ℕ
  pub minimum_balance : ℕ → ℕ
  pub unix_timestamp : ℕ
  pub sha256 : Bytes → Bytes
  -- the bytes of one of the structs in memory
  pub struct_bytes : Content → Bytes
  -- from, to, lamports, space; the owner is `program_id`
  pub create_account : Bytes → Bytes → ℕ → ℕ → Store → Result Store
  -- from, to, lamports
  pub transfer : Bytes → Bytes → ℕ → Store → Result Store
  -- account, space
  pub allocate : Bytes → ℕ → Store → Result Store
  -- account; the owner is `program_id`
  pub assign : Bytes → Store → Result Store

-- What the system program documents of its instructions.
pub record SystemLaws (rt : Runtime) : Type 0 where
  pub create_account_target :
      (payer pda : Bytes) (lamports space : ℕ) (s t : Store)
      → rt.create_account payer pda lamports space s ≡ ok t
      → ((t pda).owner ≡ rt.program_id) × ((t pda).content ≡ raw (replicate space 0))
  pub create_account_others :
      (payer pda : Bytes) (lamports space : ℕ) (s t : Store) (k : Bytes)
      → rt.create_account payer pda lamports space s ≡ ok t
      → k ≢ pda
      → ((t k).owner ≡ (s k).owner) × ((t k).content ≡ (s k).content)
  pub transfer_keeps :
      (payer pda : Bytes) (lamports : ℕ) (s t : Store) (k : Bytes)
      → rt.transfer payer pda lamports s ≡ ok t
      → ((t k).owner ≡ (s k).owner) × ((t k).content ≡ (s k).content)
  pub allocate_target :
      (pda : Bytes) (space : ℕ) (s t : Store)
      → rt.allocate pda space s ≡ ok t
      → ((t pda).owner ≡ (s pda).owner) × ((t pda).content ≡ raw (replicate space 0))
  pub allocate_others :
      (pda : Bytes) (space : ℕ) (s t : Store) (k : Bytes)
      → rt.allocate pda space s ≡ ok t
      → k ≢ pda
      → ((t k).owner ≡ (s k).owner) × ((t k).content ≡ (s k).content)
  pub assign_target :
      (pda : Bytes) (s t : Store)
      → rt.assign pda s ≡ ok t
      → ((t pda).owner ≡ rt.program_id) × ((t pda).content ≡ (s pda).content)
  pub assign_others :
      (pda : Bytes) (s t : Store) (k : Bytes)
      → rt.assign pda s ≡ ok t
      → k ≢ pda
      → ((t k).owner ≡ (s k).owner) × ((t k).content ≡ (s k).content)

module _ (rt : Runtime) where
  -- `double_sha256` and `double_sha256_pair` of utils/sha256.rs.
  unfoldable pub double_sha256 : Bytes → Bytes
  double_sha256 bytes = rt.sha256 (rt.sha256 bytes)

  unfoldable pub double_sha256_pair : Bytes → Bytes → Bytes
  unfolding double_sha256
  double_sha256_pair left right = double_sha256 (left ++ right)

  unfoldable pub top_up : Bytes → Bytes → ℕ → Store → Result Store
  top_up payer pda lamports s =
      if ltb (s pda).lamports lamports
      then rt.transfer payer pda (lamports - (s pda).lamports) s
      else ok s

  unfoldable pub grow : Bytes → ℕ → Store → Result Store
  grow pda space s = if ltb (data_len (s pda).content) space then rt.allocate pda space s else ok s

  unfoldable pub take_over : Bytes → Store → Result Store
  take_over pda s = if bytes_eq (s pda).owner rt.program_id then ok s else rt.assign pda s

  unfoldable pub create_or_claim_pda : Bytes → Bytes → ℕ → ℕ → Store → Result Store
  create_or_claim_pda payer pda lamports space s =
      if (s pda).lamports == 0
      then rt.create_account payer pda lamports space s
      else (top_up payer pda lamports s >>= grow pda space >>= take_over pda)
