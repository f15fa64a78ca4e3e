-- ===== src/LightClient/Tests.antt =====
-- Concrete runs of the light client, over a toy runtime: addresses are the seeds themselves, and
-- the hash keeps the first 32 bytes.
use utxopia_solana_programs.Prelude.{
  ℕ, ◌+◌, ◌-◌, ◌≡◌, ◌≢◌, refl, ap, Bool, true, false, List, [], ◌∷◌, ◌++◌, take, drop, get_or,
  replicate, arith, bytes_eq, bytes_eq_iff, bytes_eq_refl, if◌then◌else◌, inl, inr, some,
}
use utxopia_solana_programs.Prelude.Digits.{value}
use utxopia_solana_programs.Prelude.Results.{Result, ok, err}
use utxopia_solana_programs.LightClient.Utils.U256.{to_le_bytes}
use utxopia_solana_programs.LightClient.State.{
  Bytes, Store, Account, AccountInfo, Content, BitcoinLightClient, BlockHeader, HeightIndex, raw,
  light_client, block_header, height_index, put,
}
use utxopia_solana_programs.LightClient.Runtime.{Runtime, SystemLaws}
use utxopia_solana_programs.LightClient.Access.{
  light_client_seed, block_header_seed, height_index_seed,
}
use utxopia_solana_programs.LightClient.Extend.Effects.{Addresses}
pub mod Samples
mod Starts
mod Witnesses
mod Epoch

abbrev pub join : List Bytes → Bytes
join [] = []
join (seed ∷ seeds) = seed ++ join seeds

abbrev pub program : Bytes
program = 7 ∷ []

-- A new account takes the place of what was there; lamports move from the payer.
abbrev pub toy_runtime : Runtime
toy_runtime = record {
  program_id = program;
  find_program_address = λ seeds. (join seeds, 255);
  minimum_balance = λ space. space;
  unix_timestamp = 1_000_000;
  sha256 = λ bytes. take 32 (bytes ++ replicate 32 0);
  struct_bytes = λ c. [];
  create_account = λ payer pda lamports space s. ok (
      put s pda
        (record { owner = program; lamports = lamports; content = raw (replicate space 0) }));
  transfer = λ payer pda lamports s.
      let paid = put s payer (record (s payer) { lamports = (s payer).lamports - lamports }) in
      ok (put paid pda (record (paid pda) { lamports = (paid pda).lamports + lamports }));
  allocate = λ pda space s. ok (put s pda (record (s pda) { content = raw (replicate space 0) }));
  assign = λ pda s. ok (put s pda (record (s pda) { owner = program }));
}

pub toy_laws : SystemLaws toy_runtime
toy_laws = record {
  create_account_target = λ payer pda lamports space s t h. ground (arith, bytes_eq_refl pda);
  create_account_others = λ payer pda lamports space s t k h ne. ground (arith, bytes_eq_iff pda k);
  transfer_keeps = λ payer pda lamports s t k h.
      ground (arith, bytes_eq_iff pda k, bytes_eq_iff payer k, bytes_eq_iff payer pda);
  allocate_target = λ pda space s t h. ground (arith, bytes_eq_refl pda);
  allocate_others = λ pda space s t k h ne. ground (arith, bytes_eq_iff pda k);
  assign_target = λ pda s t h. ground (arith, bytes_eq_refl pda);
  assign_others = λ pda s t k h ne. ground (arith, bytes_eq_iff pda k);
}

abbrev pub client_key : Bytes
client_key = join (light_client_seed ∷ [])

pub toy-Addresses : Addresses toy_runtime client_key
unfolding to_le_bytes
toy-Addresses = record {
  header_not_client = λ hash e. absurd (omega (arith, ap (λ (b : Bytes). get_or b 1 0) e));
  index_not_client = λ height e. absurd (omega (arith, ap (λ (b : Bytes). get_or b 0 0) e));
  index_not_header = λ height hash e. absurd (omega (arith, ap (λ (b : Bytes). get_or b 0 0) e));
  index_injective =
      λ h k hh hk e. omega (arith, ap (λ (b : Bytes). value 256 (take 8 (drop 12 b))) e);
}
