-- ===== src/LightClient/Utils/Pow.antt =====
-- programs/btc-light-client/src/utils/pow.rs: the proof-of-work target and the chainwork.
use utxopia_solana_programs.Prelude.{
  ℕ, ◌+◌, ◌-◌, ◌*◌, ◌/◌, ◌%◌, ◌^◌, Bool, true, false, List, [], ◌∷◌, ◌++◌, map, reverse, ltb, leb,
  if◌then◌else◌, ◌&&◌, ◌==◌, take, drop, replicate, length,
}
use utxopia_solana_programs.LightClient.Utils.U256.{
  to_le_bytes, u256_add, u256_div, u256_from_le_bytes, u256_to_le_bytes, is_zero,
}
pub mod Chainwork
pub mod Target

-- From the last byte down; the hash meets the target if it is not larger.
meets_loop : List ℕ → List ℕ → Bool
meets_loop (h ∷ hs) (t ∷ ts) = if ltb t h then false else if ltb h t then true else meets_loop hs ts
meets_loop _ _ = true

unfoldable pub hash_meets_target : List ℕ → List ℕ → Bool
unfolding meets_loop
hash_meets_target hash target = meets_loop (reverse hash) (reverse target)

-- `target[at..at + bytes.len()].copy_from_slice(bytes)`, within the array.
abbrev pub overwrite : ℕ → List ℕ → List ℕ → List ℕ
overwrite at bytes array = take at array ++ (bytes ++ drop (at + length bytes) array)

-- The mask `& 0x007fffff` keeps the low 23 bits, and `& 0xff` the low 8.
unfoldable pub target_from_bits : ℕ → List ℕ
target_from_bits bits =
    let exponent = bits / 2 ^ 24 % 256 in
    let mantissa = bits % 2 ^ 23 in
    let target = replicate 32 0 in
    if leb exponent 3
    then overwrite 0 (to_le_bytes 4 (mantissa / 2 ^ (8 * (3 - exponent)))) target
    else if leb (exponent - 3 + 3) 32
    then overwrite (exponent - 3) (take 3 (to_le_bytes 4 mantissa)) target
    else target

-- `sum = target[i] as u16 + carry`, one byte after the other.
increment_loop : List ℕ → ℕ → List ℕ
increment_loop [] carry = []
increment_loop (x ∷ xs) carry = (x + carry) % 256 ∷ increment_loop xs ((x + carry) / 256)

unfoldable pub calculate_chainwork : ℕ → List ℕ
unfolding target_from_bits increment_loop u256_from_le_bytes u256_to_le_bytes u256_div u256_add
calculate_chainwork bits =
    let target = target_from_bits bits in
    let target_plus_one = increment_loop target 1 in
    let not_target = map (λ x. 255 - x) target in
    let dividend = u256_from_le_bytes not_target in
    let divisor = u256_from_le_bytes target_plus_one in
    let result = u256_add (u256_div dividend divisor) (1 ∷ 0 ∷ 0 ∷ 0 ∷ []) in
    if is_zero target_plus_one then replicate 32 0 else u256_to_le_bytes result

-- `sum = a[i] as u16 + b[i] as u16 + carry`.
chainwork_loop : List ℕ → List ℕ → ℕ → List ℕ
chainwork_loop (x ∷ xs) (y ∷ ys) carry =
    let sum = x + y + carry in sum % 256 ∷ chainwork_loop xs ys (sum / 256)
chainwork_loop _ _ carry = []

unfoldable pub add_chainwork : List ℕ → List ℕ → List ℕ
unfolding chainwork_loop
add_chainwork a b = chainwork_loop a b 0
