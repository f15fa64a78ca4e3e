-- ===== src/LightClient/Utils/Examples.antt =====
-- The arithmetic theorems at concrete inputs.
use utxopia_solana_programs.Prelude.{
  ℕ, ◌+◌, ◌-◌, ◌*◌, ◌/◌, ◌%◌, ◌^◌, ◌≡◌, ◌≤◌, ◌<◌, ◌↔◌, refl, true, List, [], ◌∷◌, replicate, arith,
}
use utxopia_solana_programs.Prelude.Numbers.{u64_mod}
use utxopia_solana_programs.Prelude.Digits.{value}
use utxopia_solana_programs.Prelude.Results.{ok}
use utxopia_solana_programs.LightClient.Constants.{target_timespan}
use utxopia_solana_programs.LightClient.Utils.U256.{
  IsU256, IsBytes32, u256_add, u256_sub, u256_mul_u32, u256_div_u32, u256_gt_limbs, u256_gte,
  u256_gt_bytes, u256_from_le_bytes, u256_to_le_bytes,
}
use utxopia_solana_programs.LightClient.Utils.U256.Addition.{value-u256_add, value-u256_sub}
use utxopia_solana_programs.LightClient.Utils.U256.Order.{comparisons_decide}
use utxopia_solana_programs.LightClient.Utils.U256.Scaling.{value-u256_mul_u32, value-u256_div_u32}
use utxopia_solana_programs.LightClient.Utils.U256.Encoding.{
  value-u256_from_le_bytes, value-u256_to_le_bytes,
}
use utxopia_solana_programs.LightClient.Utils.Pow.{
  hash_meets_target, target_from_bits, add_chainwork,
}
use utxopia_solana_programs.LightClient.Utils.Pow.Chainwork.{
  value-add_chainwork, hash_meets_target_iff,
}
use utxopia_solana_programs.LightClient.Utils.Pow.Target.{value-target_from_bits, compact_value}
use utxopia_solana_programs.LightClient.Utils.Difficulty.{
  bits_from_target, calculate_new_bits, required_bits_for_next_block, max_target_bits,
}
use utxopia_solana_programs.LightClient.Utils.Difficulty.Compact.{bits_from_target-le}
use utxopia_solana_programs.LightClient.Utils.Difficulty.Retarget.{
  target_value, clamped, calculate_new_bits_bounds, required_bits_capped, required_bits_backwards,
}

-- 2 ^ 64 - 1 in the lowest limb, and 2 ^ 256 - 1.
abbrev carrying : List ℕ
carrying = (u64_mod - 1) ∷ 3 ∷ 0 ∷ 0 ∷ []

abbrev largest : List ℕ
largest = (u64_mod - 1) ∷ (u64_mod - 1) ∷ (u64_mod - 1) ∷ (u64_mod - 1) ∷ []

abbrev low_bytes : List ℕ
low_bytes = 200 ∷ 100 ∷ replicate 30 0

abbrev high_bytes : List ℕ
high_bytes = 1 ∷ 2 ∷ 3 ∷ replicate 29 255

value-u256_add_example :
    IsU256 (u256_add largest carrying)
    × (value u64_mod (u256_add largest carrying)
        ≡ (value u64_mod largest + value u64_mod carrying) % 2 ^ 256)
value-u256_add_example = value-u256_add largest carrying (omega arith) (omega arith)

value-u256_sub_example :
    IsU256 (u256_sub carrying largest)
    × (value u64_mod (u256_sub carrying largest)
        ≡ (value u64_mod carrying + 2 ^ 256 - value u64_mod largest) % 2 ^ 256)
value-u256_sub_example = value-u256_sub carrying largest (omega arith) (omega arith)

comparisons_decide_example :
    ((u256_gt_limbs largest carrying ≡ true) ↔ (value u64_mod carrying < value u64_mod largest))
    × ((u256_gte largest carrying ≡ true) ↔ (value u64_mod carrying ≤ value u64_mod largest))
    × ((u256_gt_bytes low_bytes high_bytes ≡ true) ↔ (value 256 high_bytes < value 256 low_bytes))
comparisons_decide_example =
    comparisons_decide largest carrying low_bytes high_bytes (omega arith) (omega arith)
      (omega arith) (omega arith)

value-u256_mul_u32_example :
    IsU256 (u256_mul_u32 largest 4_838_400)
    × (value u64_mod (u256_mul_u32 largest 4_838_400) ≡ value u64_mod largest * 4_838_400 % 2 ^ 256)
value-u256_mul_u32_example = value-u256_mul_u32 largest 4_838_400 (omega arith) (omega arith)

value-u256_div_u32_example :
    (q : List ℕ) × (u256_div_u32 largest target_timespan ≡ ok q)
    × IsU256 q
    × (value u64_mod q ≡ value u64_mod largest / target_timespan)
value-u256_div_u32_example = value-u256_div_u32 largest target_timespan (omega arith) (omega arith)

value-u256_from_le_bytes_example :
    IsU256 (u256_from_le_bytes high_bytes)
    × (value u64_mod (u256_from_le_bytes high_bytes) ≡ value 256 high_bytes)
value-u256_from_le_bytes_example = value-u256_from_le_bytes high_bytes (omega arith)

value-u256_to_le_bytes_example :
    IsBytes32 (u256_to_le_bytes carrying)
    × (value 256 (u256_to_le_bytes carrying) ≡ value u64_mod carrying)
value-u256_to_le_bytes_example = value-u256_to_le_bytes carrying (omega arith)

value-add_chainwork_example :
    IsBytes32 (add_chainwork high_bytes low_bytes)
    × (value 256 (add_chainwork high_bytes low_bytes)
        ≡ (value 256 high_bytes + value 256 low_bytes) % 2 ^ 256)
value-add_chainwork_example = value-add_chainwork high_bytes low_bytes (omega arith) (omega arith)

hash_meets_target_iff_example :
    (hash_meets_target low_bytes high_bytes ≡ true) ↔ (value 256 low_bytes ≤ value 256 high_bytes)
hash_meets_target_iff_example =
    hash_meets_target_iff low_bytes high_bytes (omega arith) (omega arith)

value-target_from_bits_example :
    IsBytes32 (target_from_bits 0x1b0404cb)
    × (value 256 (target_from_bits 0x1b0404cb) ≡ compact_value 0x1b 0x0404cb)
value-target_from_bits_example = value-target_from_bits 0x1b0404cb

bits_from_target-le_example :
    value 256 (target_from_bits (bits_from_target high_bytes)) ≤ value 256 high_bytes
bits_from_target-le_example = bits_from_target-le high_bytes (omega arith)

easy : (bits : ℕ) → bits ≡ 0x1b0404cb → target_value bits ≤ target_value max_target_bits
easy bits e =
    rw e (omega (arith, value-target_from_bits 0x1b0404cb, value-target_from_bits max_target_bits))

calculate_new_bits_bounds_example :
    (bits : ℕ) × (calculate_new_bits 0x1b0404cb 1_000_000 ≡ ok bits)
    × (target_value bits ≤ target_value max_target_bits)
    × (target_value bits ≤ target_value 0x1b0404cb * clamped 1_000_000 / target_timespan)
calculate_new_bits_bounds_example =
    calculate_new_bits_bounds 0x1b0404cb 1_000_000 (easy 0x1b0404cb refl)

required_bits_capped_example :
    (bits : ℕ) × (required_bits_for_next_block true 2016 2000 1000 0x1b0404cb 500 ≡ ok bits)
    × (target_value bits ≤ target_value max_target_bits)
required_bits_capped_example =
    required_bits_capped true 2016 2000 1000 0x1b0404cb 500 (omega arith) (easy 0x1b0404cb refl)

required_bits_backwards_example :
    (bits : ℕ) × (required_bits_for_next_block true 2016 100 1000 0x1b0404cb 5000 ≡ ok bits)
    × (target_value bits ≤ target_value 0x1b0404cb)
required_bits_backwards_example =
    required_bits_backwards true 2016 100 1000 0x1b0404cb 5000 (omega arith) (easy 0x1b0404cb refl)
      (omega arith) (omega arith)
