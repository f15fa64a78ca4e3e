-- ===== src/LightClient/Utils/U256/Order.antt =====
-- The scans from the most significant digit decide the order of the values.
use utxopia_solana_programs.Prelude.{
  ℕ, ◌≤◌, ◌<◌, ◌≡◌, ◌∙◌, sym, ◌↔◌, Bool, true, false, List, [], ◌∷◌, reverse, ltb, if◌then◌else◌,
  arith, length,
}
use utxopia_solana_programs.Prelude.Numbers.{u64_mod}
use utxopia_solana_programs.Prelude.Digits.{
  value, AllDigits, big_value, big_value-lt, big_value_tail, big_value-reverse, length-reverse,
  AllDigits-reverse,
}
use utxopia_solana_programs.LightClient.Utils.U256.{
  IsU256, IsBytes32, gt_loop, u256_gt_limbs, u256_gte, u256_gt_bytes,
}

-- The verdict on two numbers that a scan with this default gives.
abbrev pub verdict : Bool → ℕ → ℕ → Bool
verdict equal a b = if ltb b a then true else if ltb a b then false else equal

module _ (base : ℕ) where
  pub gt_loop-big_value :
      (equal : Bool) (xs ys : List ℕ)
      → length xs ≡ length ys
      → AllDigits base xs
      → AllDigits base ys
      → gt_loop equal xs ys ≡ verdict equal (big_value base xs) (big_value base ys)
  unfolding gt_loop
  gt_loop-big_value equal [] [] e hx hy = ground arith
  gt_loop-big_value equal [] (y ∷ ys) e hx hy = absurd (omega arith)
  gt_loop-big_value equal (x ∷ xs) [] e hx hy = absurd (omega arith)
  gt_loop-big_value equal (x ∷ xs) (y ∷ ys) e hx hy = ground (
    arith,
    gt_loop-big_value equal xs ys (omega arith) hx.1 hy.1,
    big_value-lt base x y xs ys (omega arith) hx.1,
    big_value-lt base y x ys xs (omega arith) hy.1,
    big_value_tail base x xs ys (omega arith),
  )

  pub gt_loop-value :
      (equal : Bool) (xs ys : List ℕ)
      → length xs ≡ length ys
      → AllDigits base xs
      → AllDigits base ys
      → gt_loop equal (reverse xs) (reverse ys) ≡ verdict equal (value base xs) (value base ys)
  gt_loop-value equal xs ys e hx hy =
      rw (← big_value-reverse base xs, ← big_value-reverse base ys)
        (gt_loop-big_value equal (reverse xs) (reverse ys)
          (length-reverse xs ∙ (e ∙ sym (length-reverse ys))) (AllDigits-reverse base xs hx)
          (AllDigits-reverse base ys hy))

-- On well-formed numbers the three comparisons decide the strict and the weak order of the values:
-- `u256_gt_limbs` and `u256_gte` on limbs, `u256_gt_bytes` on 32 bytes.
pub comparisons_decide :
    (a b c d : List ℕ)
    → IsU256 a
    → IsU256 b
    → IsBytes32 c
    → IsBytes32 d
    → ((u256_gt_limbs a b ≡ true) ↔ (value u64_mod b < value u64_mod a))
      × ((u256_gte a b ≡ true) ↔ (value u64_mod b ≤ value u64_mod a))
      × ((u256_gt_bytes c d ≡ true) ↔ (value 256 d < value 256 c))
unfolding u256_gt_limbs u256_gte u256_gt_bytes
comparisons_decide a b c d (la, da) (lb, db) (lc, dc) (ld, dd) = (
  rw (gt_loop-value u64_mod false a b (la ∙ sym lb) da db) (ground arith),
  rw (gt_loop-value u64_mod true a b (la ∙ sym lb) da db) (ground arith),
  rw (gt_loop-value 256 false c d (lc ∙ sym ld) dc dd) (ground arith),
)

pub gt_bytes_iff :
    (c d : List ℕ)
    → IsBytes32 c
    → IsBytes32 d
    → (u256_gt_bytes c d ≡ true) ↔ (value 256 d < value 256 c)
unfolding u256_gt_bytes
gt_bytes_iff c d (lc, dc) (ld, dd) =
    rw (gt_loop-value 256 false c d (lc ∙ sym ld) dc dd) (ground arith)
