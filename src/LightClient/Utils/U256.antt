-- ===== src/LightClient/Utils/U256.antt =====
-- programs/btc-light-client/src/utils/u256.rs: 256-bit arithmetic on four 64-bit limbs, least
-- significant first. A limb array is a list, a loop over its indices a recursion on the list, and
-- a loop over `(0..n).rev()` one on the reversed list. `<<` and `>>` are products and quotients by
-- powers of two, cut to 64 bits.
use Prim.Native.Nat.{bit_or}
use utxopia_solana_programs.Prelude.{
  ℕ, zero, suc, ◌+◌, ◌-◌, ◌*◌, ◌/◌, ◌%◌, ◌^◌, ◌<◌, ◌≡◌, Bool, true, false, List, [], ◌∷◌, ◌++◌,
  reverse, ltb, leb, ◌==◌, if◌then◌else◌, ◌&&◌, length, get_or, set, take, drop,
}
use utxopia_solana_programs.Prelude.Numbers.{u64_mod}
use utxopia_solana_programs.Prelude.Digits.{value, AllDigits}
use utxopia_solana_programs.Prelude.Results.{Result, ok, err, panicked}
pub mod Addition
pub mod Scaling
pub mod Order
pub mod Encoding

-- A well-formed `[u64; 4]` and `[u8; 32]`.
abbrev pub IsU256 : List ℕ → Type 0
IsU256 a = (length a ≡ 4) × AllDigits u64_mod a

abbrev pub IsBytes32 : List ℕ → Type 0
IsBytes32 a = (length a ≡ 32) × AllDigits 256 a

-- `uN::to_le_bytes` with N = 8 * width; `uN::from_le_bytes` is `value 256`.
unfoldable pub to_le_bytes : ℕ → ℕ → List ℕ
to_le_bytes zero v = []
to_le_bytes (suc width) v = v % 256 ∷ to_le_bytes width (v / 256)

unfoldable pub u256_from_le_bytes : List ℕ → List ℕ
u256_from_le_bytes bytes =
    value 256 (take 8 bytes)
    ∷ value 256 (take 8 (drop 8 bytes))
    ∷ value 256 (take 8 (drop 16 bytes))
    ∷ value 256 (take 8 (drop 24 bytes))
    ∷ []

unfoldable pub u256_to_le_bytes : List ℕ → List ℕ
u256_to_le_bytes v =
    to_le_bytes 8 (get_or v 0 0)
    ++ (to_le_bytes 8 (get_or v 1 0)
        ++ (to_le_bytes 8 (get_or v 2 0) ++ to_le_bytes 8 (get_or v 3 0)))

-- `u64::overflowing_add` and `u64::overflowing_sub`, with the flag cast by `as u64`.
abbrev pub overflowing_add : ℕ → ℕ → ℕ × ℕ
overflowing_add a b = ((a + b) % u64_mod, if leb u64_mod (a + b) then 1 else 0)

abbrev pub overflowing_sub : ℕ → ℕ → ℕ × ℕ
overflowing_sub a b = ((a + u64_mod - b) % u64_mod, if ltb a b then 1 else 0)

pub add_loop : List ℕ → List ℕ → ℕ → List ℕ
add_loop (x ∷ xs) (y ∷ ys) carry =
    let (s1, c1) = overflowing_add x y in
    let (s2, c2) = overflowing_add s1 carry in s2 ∷ add_loop xs ys (c1 + c2)
add_loop _ _ carry = []

unfoldable pub u256_add : List ℕ → List ℕ → List ℕ
unfolding add_loop
u256_add a b = add_loop a b 0

pub sub_loop : List ℕ → List ℕ → ℕ → List ℕ
sub_loop (x ∷ xs) (y ∷ ys) borrow =
    let (s1, c1) = overflowing_sub x y in
    let (s2, c2) = overflowing_sub s1 borrow in s2 ∷ sub_loop xs ys (c1 + c2)
sub_loop _ _ borrow = []

unfoldable pub u256_sub : List ℕ → List ℕ → List ℕ
unfolding sub_loop
u256_sub a b = sub_loop a b 0

-- The loop of the comparisons, from the most significant digit down; `equal` is what they return
-- when every digit agrees.
unfoldable pub gt_loop : Bool → List ℕ → List ℕ → Bool
gt_loop equal (x ∷ xs) (y ∷ ys) =
    if ltb y x then true else if ltb x y then false else gt_loop equal xs ys
gt_loop equal _ _ = equal

unfoldable pub u256_gt_limbs : List ℕ → List ℕ → Bool
unfolding gt_loop
u256_gt_limbs a b = gt_loop false (reverse a) (reverse b)

unfoldable pub u256_gte : List ℕ → List ℕ → Bool
unfolding gt_loop
u256_gte a b = gt_loop true (reverse a) (reverse b)

unfoldable pub u256_gt_bytes : List ℕ → List ℕ → Bool
unfolding gt_loop
u256_gt_bytes a b = gt_loop false (reverse a) (reverse b)

-- `result[i]` for the limb that stands `i - limb_shift` places up in `v`.
shl_limb : List ℕ → ℕ → ℕ → ℕ → ℕ
shl_limb v limb_shift bit_shift i =
    let low = get_or v (i - limb_shift) 0 * 2 ^ bit_shift % u64_mod in
    if ltb i limb_shift
    then 0
    else if ltb 0 bit_shift && ltb limb_shift i
    then bit_or low (get_or v (i - limb_shift - 1) 0 / 2 ^ (64 - bit_shift))
    else low

unfoldable pub u256_shl : List ℕ → ℕ → List ℕ
unfolding shl_limb
u256_shl v shift =
    let limb = shl_limb v (shift / 64) (shift % 64) in
    if leb 256 shift then 0 ∷ 0 ∷ 0 ∷ 0 ∷ [] else limb 0 ∷ limb 1 ∷ limb 2 ∷ limb 3 ∷ []

-- `u64::leading_zeros`: the bits of a word of `width` bits above its highest set bit.
leading_zeros : ℕ → ℕ → ℕ
leading_zeros zero v = 0
leading_zeros (suc width) v = if ltb v (2 ^ width) then suc (leading_zeros width v) else 0

-- The limbs from the top; the first that is not zero ends the loop.
clz_loop : List ℕ → ℕ → ℕ
unfolding leading_zeros
clz_loop [] above = 256
clz_loop (x ∷ xs) above = if x == 0 then clz_loop xs (above + 64) else above + leading_zeros 64 x

unfoldable pub u256_clz : List ℕ → ℕ
unfolding clz_loop
u256_clz v = clz_loop (reverse v) 0

-- One round of the long division, at shift `s`, on the remainder and the quotient.
div_round : List ℕ → ℕ → List ℕ × List ℕ → List ℕ × List ℕ
unfolding u256_shl u256_gte u256_sub
div_round b s (remainder, quotient) =
    let shifted = u256_shl b s in
    if u256_gte remainder shifted
    then (
      u256_sub remainder shifted,
      set quotient (s / 64) (bit_or (get_or quotient (s / 64) 0) (2 ^ (s % 64))),
    )
    else (remainder, quotient)

-- The rounds `s` = count - 1, ..., 0.
div_loop : List ℕ → ℕ → List ℕ × List ℕ → List ℕ
unfolding div_round
div_loop b zero (remainder, quotient) = quotient
div_loop b (suc s) state = div_loop b s (div_round b s state)

abbrev pub is_zero : List ℕ → Bool
is_zero [] = true
is_zero (x ∷ xs) = (x == 0) && is_zero xs

abbrev zero_limbs : List ℕ
zero_limbs = 0 ∷ 0 ∷ 0 ∷ 0 ∷ []

unfoldable pub u256_div : List ℕ → List ℕ → List ℕ
unfolding div_loop u256_clz u256_gte
u256_div a b =
    let quotient = div_loop b (suc (u256_clz b - u256_clz a)) (a, zero_limbs) in
    if is_zero b
    then zero_limbs
    else if u256_gte a b
    then (if ltb (u256_clz b) (u256_clz a) then zero_limbs else quotient)
    else zero_limbs

pub mul_loop : List ℕ → ℕ → ℕ → List ℕ
mul_loop [] b carry = []
mul_loop (x ∷ xs) b carry =
    let product = x * b + carry in product % u64_mod ∷ mul_loop xs b (product / u64_mod % u64_mod)

unfoldable pub u256_mul_u32 : List ℕ → ℕ → List ℕ
unfolding mul_loop
u256_mul_u32 a b = mul_loop a b 0

-- From the most significant limb down; `remainder << 64` leaves the low 64 bits free for the limb.
pub div_u32_loop : List ℕ → ℕ → ℕ → List ℕ
div_u32_loop [] b remainder = []
div_u32_loop (x ∷ xs) b remainder =
    let dividend = remainder * u64_mod + x in
    dividend / b % u64_mod ∷ div_u32_loop xs b (dividend % b)

-- A division by zero panics.
unfoldable pub u256_div_u32 : List ℕ → ℕ → Result (List ℕ)
unfolding div_u32_loop
u256_div_u32 a b = if b == 0 then err panicked else ok (reverse (div_u32_loop (reverse a) b 0))
