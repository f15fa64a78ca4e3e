-- ===== src/LightClient/Utils/U256/Scaling.antt =====
-- `u256_mul_u32` and `u256_div_u32`, against multiplication modulo 2 ^ 256 and integer division.
use utxopia_solana_programs.Prelude.{
  ℕ, suc, ◌+◌, ◌*◌, ◌/◌, ◌%◌, ◌^◌, ◌≤◌, ◌<◌, ◌≡◌, refl, ap, List, [], ◌∷◌, reverse, arith, length,
}
use utxopia_solana_programs.Prelude.Numbers.{u32_mod, u64_mod}
use utxopia_solana_programs.Prelude.Digits.{
  value, span, AllDigits, value-lt-span, big_value, big_value-reverse, length-reverse,
  AllDigits-reverse, span-length, value-reverse,
}
use utxopia_solana_programs.Prelude.Results.{ok}
use utxopia_solana_programs.LightClient.Utils.U256.{
  IsU256, mul_loop, div_u32_loop, u256_mul_u32, u256_div_u32,
}
use utxopia_solana_programs.LightClient.Utils.U256.Addition.{span_IsU256}

-- The number that the digits and the last carry of a multiplication make.
record Multiplies (shape result : List ℕ) (total : ℕ) : Type 0 where
  carry : ℕ
  digits : AllDigits u64_mod result
  same_length : length result ≡ length shape
  balance : value u64_mod result + span u64_mod result * carry ≡ total

mul_digit :
    (x b c : ℕ)
    → x < u64_mod
    → b < u32_mod
    → c < u64_mod
    → ((x * b + c) % u64_mod + u64_mod * ((x * b + c) / u64_mod % u64_mod) ≡ x * b + c)
      × ((x * b + c) % u64_mod < u64_mod)
      × ((x * b + c) / u64_mod % u64_mod < u64_mod)
mul_digit x b c hx hb hc = let p : x * b ≤ x * u32_mod = grind arith in omega arith

mul_loop-Multiplies :
    (xs : List ℕ) (b c : ℕ)
    → AllDigits u64_mod xs
    → b < u32_mod
    → c < u64_mod
    → Multiplies xs (mul_loop xs b c) (value u64_mod xs * b + c)
unfolding mul_loop
mul_loop-Multiplies [] b c hx hb hc = record {
  carry = c;
  digits = tt;
  same_length = refl;
  balance = omega arith;
}
mul_loop-Multiplies (x ∷ xs) b c hx hb hc =
    let step = mul_digit x b c hx.0 hb hc in
    let rest = mul_loop-Multiplies xs b ((x * b + c) / u64_mod % u64_mod) hx.1 hb step.2 in
    record {
      carry = rest.carry;
      digits = (step.1, rest.digits);
      same_length = ap suc rest.same_length;
      balance = omega (arith, step.0, rest.balance);
    }

wrap_of_carry : (s v t k : ℕ) → s ≡ 2 ^ 256 → v < s → v + s * k ≡ t → v ≡ t % 2 ^ 256
wrap_of_carry s v t k e h b = let b' : v + 2 ^ 256 * k ≡ t = rw (← e) b in omega (arith, e)

-- `u256_mul_u32` of a well-formed number by a u32 is well formed, and its value is the product
-- modulo 2 ^ 256.
pub value-u256_mul_u32 :
    (a : List ℕ) (b : ℕ)
    → IsU256 a
    → b < u32_mod
    → IsU256 (u256_mul_u32 a b) × (value u64_mod (u256_mul_u32 a b) ≡ value u64_mod a * b % 2 ^ 256)
unfolding u256_mul_u32
value-u256_mul_u32 a b (la, da) hb =
    let r = mul_loop-Multiplies a b 0 da hb (omega arith) in
    let whole = span_IsU256 (mul_loop a b 0) (omega (arith, r.same_length)) in
    (
      (omega (arith, r.same_length), r.digits),
      wrap_of_carry _ _ _ r.carry whole (value-lt-span u64_mod _ r.digits)
          (omega (arith, r.balance)),
    )

-- Long division by one digit: what the digits of the quotient and the last remainder make.
record Divides (shape result : List ℕ) (b total : ℕ) : Type 0 where
  rest : ℕ
  below : rest < b
  digits : AllDigits u64_mod result
  same_length : length result ≡ length shape
  balance : big_value u64_mod result * b + rest ≡ total

div_digit :
    (x b r : ℕ)
    → x < u64_mod
    → r < b
    → let dividend = r * u64_mod + x in
      (dividend / b % u64_mod * b + dividend % b ≡ dividend)
      × (dividend / b % u64_mod < u64_mod)
      × (dividend % b < b)
div_digit x b r hx hr = let q : (r * u64_mod + x) / b < u64_mod = grind arith in grind arith

div_u32_loop-Divides :
    (xs : List ℕ) (b r : ℕ)
    → AllDigits u64_mod xs
    → r < b
    → Divides xs (div_u32_loop xs b r) b (r * span u64_mod xs + big_value u64_mod xs)
unfolding div_u32_loop
div_u32_loop-Divides [] b r hx hr = record {
  rest = r;
  below = hr;
  digits = tt;
  same_length = refl;
  balance = omega arith;
}
div_u32_loop-Divides (x ∷ xs) b r hx hr =
    let d = r * u64_mod + x in
    let q = d / b % u64_mod in
    let step = div_digit x b r hx.0 hr in
    let tail = div_u32_loop-Divides xs b (d % b) hx.1 step.2 in
    let s = span u64_mod xs in
    record {
      rest = tail.rest;
      below = tail.below;
      digits = (step.1, tail.digits);
      same_length = ap suc tail.same_length;
      balance = omega (
        arith,
        tail.balance,
        ap (λ (t : ℕ). t * s) step.0,
        ap (λ (t : ℕ). q * t * b)
            (span-length u64_mod (div_u32_loop xs b (d % b)) xs tail.same_length),
      );
    }

-- `u256_div_u32` of a well-formed number by a positive divisor returns a well-formed number whose
-- value is the quotient.
pub value-u256_div_u32 :
    (a : List ℕ) (b : ℕ)
    → IsU256 a
    → 0 < b
    → (q : List ℕ) × (u256_div_u32 a b ≡ ok q) × IsU256 q × (value u64_mod q ≡ value u64_mod a / b)
unfolding u256_div_u32
value-u256_div_u32 a b (la, da) hb =
    let digits = div_u32_loop (reverse a) b 0 in
    let r = div_u32_loop-Divides (reverse a) b 0 (AllDigits-reverse u64_mod a da) hb in
    let size : length (reverse digits) ≡ 4 =
      omega (arith, length-reverse digits, r.same_length, length-reverse a) in
    (
      reverse digits,
      ground arith,
      (size, AllDigits-reverse u64_mod digits r.digits),
      quotient (value u64_mod (reverse digits)) r.rest (value u64_mod a) r.below (
          omega (
            arith,
            r.balance,
            big_value-reverse u64_mod a,
            ap (λ (t : ℕ). t * b) (value-reverse u64_mod digits),
          )),
    )
  where
    quotient : (q r t : ℕ) → r < b → q * b + r ≡ t → q ≡ t / b
    quotient q r t hr e = grind arith
