-- ===== src/LightClient/Utils/Difficulty.antt =====
-- programs/btc-light-client/src/utils/difficulty.rs: retargeting, and the compact encoding.
use utxopia_solana_programs.Prelude.{
  ℕ, zero, suc, ◌+◌, ◌-◌, ◌*◌, ◌/◌, ◌%◌, ◌^◌, ◌≤◌, ◌≡◌, Bool, List, [], ◌∷◌, ltb, leb, ◌==◌, ◌&&◌,
  if◌then◌else◌, get_or, min, max,
}
use utxopia_solana_programs.Prelude.Numbers.{u32_mod, saturating_sub}
use utxopia_solana_programs.Prelude.Results.{Result, ok, err, ◌>>=◌}
use utxopia_solana_programs.LightClient.Constants.{target_timespan, blocks_per_epoch}
use utxopia_solana_programs.LightClient.Utils.U256.{
  u256_from_le_bytes, u256_to_le_bytes, u256_mul_u32, u256_div_u32, u256_gt_bytes,
}
use utxopia_solana_programs.LightClient.Utils.Pow.{target_from_bits}
pub mod Compact
pub mod Retarget

abbrev pub max_target_bits : ℕ
max_target_bits = 0x1d00ffff

-- `while size > 0 && target[size - 1] == 0 { size -= 1 }`.
pub significant_size : ℕ → List ℕ → ℕ
significant_size zero target = 0
significant_size (suc n) target =
    if get_or target n 0 == 0 then significant_size n target else suc n

-- `mantissa = (mantissa << 8) | target[i]` for `i` from `size - 1` down to 0, on a u32; at most
-- three rounds, so nothing is shifted out and the low byte is free.
pub mantissa_loop : ℕ → List ℕ → ℕ → ℕ
mantissa_loop zero target mantissa = mantissa
mantissa_loop (suc i) target mantissa =
    mantissa_loop i target (mantissa * 2 ^ 8 % u32_mod + get_or target i 0)

-- The mantissa before the sign bit is looked at.
pub raw_mantissa : ℕ → List ℕ → ℕ
unfolding mantissa_loop
raw_mantissa size target =
    if leb size 3
    then mantissa_loop size target 0 * 2 ^ (8 * (3 - size)) % u32_mod
    else get_or target (size - 1) 0 * 2 ^ 16
      + get_or target (size - 2) 0 * 2 ^ 8
      + get_or target (size - 3) 0

-- `mantissa & 0x00800000` tests bit 23, and `& 0x007fffff` keeps the bits below it.
pub compact : ℕ → ℕ → ℕ
compact size mantissa =
    if mantissa / 2 ^ 23 % 2 == 1
    then suc size * 2 ^ 24 % u32_mod + mantissa / 2 ^ 8 % 2 ^ 23
    else size * 2 ^ 24 % u32_mod + mantissa % 2 ^ 23

unfoldable pub bits_from_target : List ℕ → ℕ
unfolding significant_size raw_mantissa compact
bits_from_target target =
    let size = significant_size 32 target in
    if size == 0 then 0 else compact size (raw_mantissa size target)

-- `u32::clamp`.
abbrev pub clamp : ℕ → ℕ → ℕ → ℕ
clamp x lo hi = if ltb x lo then lo else if ltb hi x then hi else x

unfoldable pub calculate_new_bits : ℕ → ℕ → Result ℕ
calculate_new_bits old_bits actual_timespan = do
  let clamped = clamp actual_timespan (target_timespan / 4) (target_timespan * 4)
  let multiplied = u256_mul_u32 (u256_from_le_bytes (target_from_bits old_bits)) clamped
  new_target_limbs ← u256_div_u32 multiplied target_timespan
  let new_target = u256_to_le_bytes new_target_limbs
  let max_target = target_from_bits max_target_bits
  ok (bits_from_target (if u256_gt_bytes new_target max_target then max_target else new_target))

-- The bits that the next block must use.
unfoldable pub required_bits_for_next_block : Bool → ℕ → ℕ → ℕ → ℕ → ℕ → Result ℕ
required_bits_for_next_block testnet4 block_height timestamp parent_timestamp epoch_bits
      epoch_start_time =
    if epoch_bits == 0
    then ok 0
    else if block_height % blocks_per_epoch == 0
    then calculate_new_bits epoch_bits (saturating_sub parent_timestamp epoch_start_time)
    else if testnet4
        && (ltb parent_timestamp timestamp && ltb (20 * 60) (timestamp - parent_timestamp))
    then ok max_target_bits
    else ok epoch_bits
