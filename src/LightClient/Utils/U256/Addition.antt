-- ===== src/LightClient/Utils/U256/Addition.antt =====
-- The carry and borrow chains of `u256_add` and `u256_sub`, against addition and subtraction
-- modulo 2 ^ 256.
use utxopia_solana_programs.Prelude.{
  ℕ, ◌+◌, ◌-◌, ◌*◌, ◌%◌, ◌^◌, ◌≤◌, ◌<◌, ◌≡◌, refl, List, [], ◌∷◌, ap, arith, length, suc,
}
use utxopia_solana_programs.Prelude.Numbers.{u64_mod}
use utxopia_solana_programs.Prelude.Digits.{value, span, span-length, AllDigits, value-lt-span}
use utxopia_solana_programs.LightClient.Utils.U256.{
  IsU256, add_loop, sub_loop, u256_add, u256_sub, overflowing_add, overflowing_sub,
}

-- What a loop over the digits leaves: digits of the same number, and a final carry of at most 1.
pub record Carries (shape result : List ℕ) (total : ℕ) : Type 0 where
  pub carry : ℕ
  pub small : carry ≤ 1
  pub digits : AllDigits u64_mod result
  pub same_length : length result ≡ length shape
  pub balance : value u64_mod result + span u64_mod result * carry ≡ total

add_digit :
    (x y c : ℕ)
    → x < u64_mod
    → y < u64_mod
    → c ≤ 1
    → let (s1, c1) = overflowing_add x y in
      let (s2, c2) = overflowing_add s1 c in
      (s2 + u64_mod * (c1 + c2) ≡ x + y + c) × (s2 < u64_mod) × (c1 + c2 ≤ 1)
add_digit x y c hx hy hc = ground arith

add_loop-Carries :
    (xs ys : List ℕ) (c : ℕ)
    → length xs ≡ length ys
    → AllDigits u64_mod xs
    → AllDigits u64_mod ys
    → c ≤ 1
    → Carries xs (add_loop xs ys c) (value u64_mod xs + value u64_mod ys + c)
unfolding add_loop
add_loop-Carries [] [] c e hx hy hc = record {
  carry = c;
  small = hc;
  digits = tt;
  same_length = refl;
  balance = omega arith;
}
add_loop-Carries [] (y ∷ ys) c e hx hy hc = absurd (omega arith)
add_loop-Carries (x ∷ xs) [] c e hx hy hc = absurd (omega arith)
add_loop-Carries (x ∷ xs) (y ∷ ys) c e hx hy hc =
    let (s1, c1) = overflowing_add x y in
    let (s2, c2) = overflowing_add s1 c in
    let step = add_digit x y c hx.0 hy.0 hc in
    let rest = add_loop-Carries xs ys (c1 + c2) (omega arith) hx.1 hy.1 step.2 in
    record {
      carry = rest.carry;
      small = rest.small;
      digits = (step.1, rest.digits);
      same_length = ap suc rest.same_length;
      balance = omega (arith, step.0, rest.balance);
    }

sub_digit :
    (x y c : ℕ)
    → x < u64_mod
    → y < u64_mod
    → c ≤ 1
    → let (s1, c1) = overflowing_sub x y in
      let (s2, c2) = overflowing_sub s1 c in
      (s2 + y + c ≡ x + u64_mod * (c1 + c2)) × (s2 < u64_mod) × (c1 + c2 ≤ 1)
sub_digit x y c hx hy hc = ground arith

-- The same for a subtraction, where the number that leaves is a borrow.
pub record Borrows (shape result : List ℕ) (taken given : ℕ) : Type 0 where
  pub borrow : ℕ
  pub small : borrow ≤ 1
  pub digits : AllDigits u64_mod result
  pub same_length : length result ≡ length shape
  pub balance : value u64_mod result + taken ≡ given + span u64_mod result * borrow

sub_loop-Borrows :
    (xs ys : List ℕ) (c : ℕ)
    → length xs ≡ length ys
    → AllDigits u64_mod xs
    → AllDigits u64_mod ys
    → c ≤ 1
    → Borrows xs (sub_loop xs ys c) (value u64_mod ys + c) (value u64_mod xs)
unfolding sub_loop
sub_loop-Borrows [] [] c e hx hy hc = record {
  borrow = c;
  small = hc;
  digits = tt;
  same_length = refl;
  balance = omega arith;
}
sub_loop-Borrows [] (y ∷ ys) c e hx hy hc = absurd (omega arith)
sub_loop-Borrows (x ∷ xs) [] c e hx hy hc = absurd (omega arith)
sub_loop-Borrows (x ∷ xs) (y ∷ ys) c e hx hy hc =
    let (s1, c1) = overflowing_sub x y in
    let (s2, c2) = overflowing_sub s1 c in
    let step = sub_digit x y c hx.0 hy.0 hc in
    let rest = sub_loop-Borrows xs ys (c1 + c2) (omega arith) hx.1 hy.1 step.2 in
    record {
      borrow = rest.borrow;
      small = rest.small;
      digits = (step.1, rest.digits);
      same_length = ap suc rest.same_length;
      balance = omega (arith, step.0, rest.balance);
    }

-- Four limbs span 2 ^ 256.
pub span_IsU256 : (a : List ℕ) → length a ≡ 4 → span u64_mod a ≡ 2 ^ 256
span_IsU256 a h = span-length u64_mod a (0 ∷ 0 ∷ 0 ∷ 0 ∷ []) h

wrap_of_carry : (s v t k : ℕ) → s ≡ 2 ^ 256 → v < s → k ≤ 1 → v + s * k ≡ t → v ≡ t % 2 ^ 256
wrap_of_carry s v t k e h hk b = ground (arith, ap (λ (n : ℕ). n * k) e)

-- `u256_add` of two well-formed numbers is well formed, and its value is the sum of their values
-- modulo 2 ^ 256.
pub value-u256_add :
    (a b : List ℕ)
    → IsU256 a
    → IsU256 b
    → IsU256 (u256_add a b)
      × (value u64_mod (u256_add a b) ≡ (value u64_mod a + value u64_mod b) % 2 ^ 256)
unfolding u256_add
value-u256_add a b (la, da) (lb, db) =
    let r = add_loop-Carries a b 0 (omega arith) da db (omega arith) in
    let whole = span_IsU256 (add_loop a b 0) (omega (arith, r.same_length)) in
    (
      (omega (arith, r.same_length), r.digits),
      wrap_of_carry _ _ _ r.carry whole (value-lt-span u64_mod _ r.digits) r.small
          (omega (arith, r.balance)),
    )

-- `u256_sub` of two well-formed numbers is well formed, and its value is the difference of their
-- values modulo 2 ^ 256.
pub value-u256_sub :
    (a b : List ℕ)
    → IsU256 a
    → IsU256 b
    → IsU256 (u256_sub a b)
      × (value u64_mod (u256_sub a b) ≡ (value u64_mod a + 2 ^ 256 - value u64_mod b) % 2 ^ 256)
unfolding u256_sub
value-u256_sub a b (la, da) (lb, db) =
    let r = sub_loop-Borrows a b 0 (omega arith) da db (omega arith) in
    let whole = span_IsU256 (sub_loop a b 0) (omega (arith, r.same_length)) in
    (
      (omega (arith, r.same_length), r.digits),
      wrap_of_borrow _ _ (value u64_mod a) (value u64_mod b) r.borrow whole
          (value-lt-span u64_mod _ r.digits) (value-lt_IsU256 a la da) (value-lt_IsU256 b lb db)
          r.small (omega (arith, r.balance)),
    )
  where
    value-lt_IsU256 : (c : List ℕ) → length c ≡ 4 → AllDigits u64_mod c → value u64_mod c < 2 ^ 256
    value-lt_IsU256 c l d = omega (arith, span_IsU256 c l, value-lt-span u64_mod c d)

    wrap_of_borrow :
        (s v x y k : ℕ)
        → s ≡ 2 ^ 256
        → v < s
        → x < 2 ^ 256
        → y < 2 ^ 256
        → k ≤ 1
        → v + y ≡ x + s * k
        → v ≡ (x + 2 ^ 256 - y) % 2 ^ 256
    wrap_of_borrow s v x y k e h hx hy hk b = ground (arith, ap (λ (n : ℕ). n * k) e)
