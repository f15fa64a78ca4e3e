-- ===== src/LightClient/Tests/Epoch.antt =====
-- Two headers of testnet4 at heights 2015 and 2016, across a retarget: the epoch took less than a
-- quarter of two weeks, so that the second header needs a quarter of the target.
use utxopia_solana_programs.Prelude.{◌≡◌, refl, [], ◌∷◌, ◌++◌, replicate, bytes_eq, All, arith}
use utxopia_solana_programs.Prelude.Results.{Result, ok, err}
use utxopia_solana_programs.LightClient.Utils.U256.{
  u256_add, u256_div, u256_div_u32, u256_mul_u32, u256_shl, u256_sub, u256_clz, u256_gt_limbs,
  u256_gte, u256_gt_bytes, u256_from_le_bytes, u256_to_le_bytes, to_le_bytes,
}
use utxopia_solana_programs.LightClient.Utils.Pow.{
  hash_meets_target, target_from_bits, calculate_chainwork, add_chainwork,
}
use utxopia_solana_programs.LightClient.Utils.Difficulty.{
  required_bits_for_next_block, calculate_new_bits, bits_from_target,
}
use utxopia_solana_programs.LightClient.State.{Bytes, Store, data_len, tag, raw, zero_key}
use utxopia_solana_programs.LightClient.Runtime.{double_sha256, create_or_claim_pda}
use utxopia_solana_programs.LightClient.Access.{
  slice, u32_at, is_production, write_header, block_header_seed,
}
use utxopia_solana_programs.LightClient.Median.{median_timestamp}
use utxopia_solana_programs.LightClient.Headers.{
  Batch, Chain, process_headers, process_header, append_header, next_chain, store_header,
  claim_header, new_header, check_bits, check_median,
}
use utxopia_solana_programs.LightClient.Headers.Links.{Blocks, raw_headers, process_headers-Blocks}
use utxopia_solana_programs.LightClient.Headers.Capped.{IsCapped, process_headers-IsCapped}
use utxopia_solana_programs.LightClient.Tests.{toy_runtime}
use utxopia_solana_programs.LightClient.Tests.Samples.{info, zeros}

abbrev first_hash : Bytes
first_hash = 1 ∷ replicate 31 0

-- The first 32 bytes of the second header: its version and its parent's hash.
abbrev second_hash : Bytes
second_hash = 2 ∷ 0 ∷ 0 ∷ 0 ∷ 1 ∷ replicate 27 0

-- Version 1, time 2000, bits 0x1d00ffff.
abbrev first_header : Bytes
first_header =
    (1 ∷ 0 ∷ 0 ∷ 0 ∷ [])
    ++ (zeros
        ++ (zeros ++ ((208 ∷ 7 ∷ 0 ∷ 0 ∷ []) ++ ((255 ∷ 255 ∷ 0 ∷ 29 ∷ []) ++ replicate 4 0))))

-- Version 2, on the first one, time 3000, bits 0x1c3fffc0.
abbrev second_header : Bytes
second_header =
    (2 ∷ 0 ∷ 0 ∷ 0 ∷ [])
    ++ (first_hash
        ++ (zeros ++ ((184 ∷ 11 ∷ 0 ∷ 0 ∷ []) ++ ((192 ∷ 255 ∷ 63 ∷ 28 ∷ []) ++ replicate 4 0))))

abbrev two_headers : Bytes
two_headers = 2 ∷ (first_header ++ second_header)

abbrev epoch_batch : Batch
epoch_batch = record {
  network = 2;
  reinit_epoch = 0;
  accounts =
      info zero_key
      ∷ info zero_key
      ∷ info zero_key
      ∷ info zero_key
      ∷ info (block_header_seed ++ first_hash)
      ∷ info (block_header_seed ++ second_hash)
      ∷ [];
  submitter = 9 ∷ [];
}

abbrev no_accounts : Store
no_accounts k = record { owner = zero_key; lamports = 0; content = raw [] }

abbrev epoch_end : Chain
epoch_end = record {
  prev_hash = zeros;
  chainwork = zeros;
  height = 2014;
  expected_bits = 0x1d00ffff;
  epoch_start = 1000;
  parent_timestamp = 1000;
  window = 1000 ∷ [];
  store = no_accounts;
}

abbrev chain_after : Result Chain → Chain
chain_after (ok c) = c
chain_after (err _) = epoch_end

abbrev retargeted : Chain
retargeted = chain_after (process_headers toy_runtime epoch_batch two_headers 2 0 epoch_end)

headers_ok : process_headers toy_runtime epoch_batch two_headers 2 0 epoch_end ≡ ok retargeted
unfolding process_headers process_header append_header next_chain store_header claim_header
    new_header check_bits check_median median_timestamp double_sha256 create_or_claim_pda data_len
    tag slice u32_at is_production write_header required_bits_for_next_block calculate_new_bits
    bits_from_target u256_add u256_div u256_div_u32 u256_mul_u32 u256_shl u256_sub u256_clz
    u256_gt_limbs u256_gte u256_gt_bytes u256_from_le_bytes u256_to_le_bytes to_le_bytes
    hash_meets_target target_from_bits calculate_chainwork add_chainwork bytes_eq
headers_ok = refl

process_headers-Blocks_example :
    Blocks toy_runtime epoch_batch epoch_end (raw_headers two_headers 2 0) retargeted
process_headers-Blocks_example =
    process_headers-Blocks toy_runtime epoch_batch two_headers 2 0 epoch_end retargeted headers_ok

epoch_end-IsCapped : IsCapped 0x1d00ffff
unfolding target_from_bits to_le_bytes
epoch_end-IsCapped = omega arith

process_headers-IsCapped_example :
    All (λ (raw : Bytes). IsCapped (u32_at 72 raw)) (raw_headers two_headers 2 0)
    × IsCapped retargeted.expected_bits
process_headers-IsCapped_example =
    process_headers-IsCapped toy_runtime epoch_batch two_headers 2 0 epoch_end retargeted
      (unfold is_production in refl) epoch_end-IsCapped headers_ok
