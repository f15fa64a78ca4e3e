-- ===== src/LightClient/Utils/Pow/Chainwork.antt =====
-- `add_chainwork` against addition modulo 2 ^ 256, and the comparison of a hash with a target.
use utxopia_solana_programs.Prelude.{
  ℕ, suc, ◌+◌, ◌*◌, ◌/◌, ◌%◌, ◌^◌, ◌≤◌, ◌<◌, ◌≡◌, refl, ap, sym, ◌∙◌, ◌↔◌, true, false, not, List,
  [], ◌∷◌, reverse, arith, length, replicate,
}
use utxopia_solana_programs.Prelude.Digits.{value, span, span-length, AllDigits, value-lt-span}
use utxopia_solana_programs.LightClient.Utils.U256.{IsBytes32, gt_loop}
use utxopia_solana_programs.LightClient.Utils.U256.Order.{gt_loop-value}
use utxopia_solana_programs.LightClient.Utils.Pow.{
  meets_loop, hash_meets_target, chainwork_loop, add_chainwork,
}

record Sums (shape result : List ℕ) (total : ℕ) : Type 0 where
  carry : ℕ
  small : carry ≤ 1
  digits : AllDigits 256 result
  same_length : length result ≡ length shape
  balance : value 256 result + span 256 result * carry ≡ total

chainwork_loop-Sums :
    (xs ys : List ℕ) (c : ℕ)
    → length xs ≡ length ys
    → AllDigits 256 xs
    → AllDigits 256 ys
    → c ≤ 1
    → Sums xs (chainwork_loop xs ys c) (value 256 xs + value 256 ys + c)
unfolding chainwork_loop
chainwork_loop-Sums [] [] c e hx hy hc = record {
  carry = c;
  small = hc;
  digits = tt;
  same_length = refl;
  balance = omega arith;
}
chainwork_loop-Sums [] (y ∷ ys) c e hx hy hc = absurd (omega arith)
chainwork_loop-Sums (x ∷ xs) [] c e hx hy hc = absurd (omega arith)
chainwork_loop-Sums (x ∷ xs) (y ∷ ys) c e hx hy hc =
    let rest =
      chainwork_loop-Sums xs ys ((x + y + c) / 256) (omega arith) hx.1 hy.1
        (omega (arith, hx.0, hy.0)) in
    record {
      carry = rest.carry;
      small = rest.small;
      digits = (omega arith, rest.digits);
      same_length = ap suc rest.same_length;
      balance = omega (arith, rest.balance);
    }

span_IsBytes32 : (a : List ℕ) → length a ≡ 32 → span 256 a ≡ 2 ^ 256
span_IsBytes32 a h = span-length 256 a (replicate 32 0) h

-- Adding two 32-byte chainworks gives 32 bytes, and the sum of the works modulo 2 ^ 256.
pub value-add_chainwork :
    (a b : List ℕ)
    → IsBytes32 a
    → IsBytes32 b
    → IsBytes32 (add_chainwork a b)
      × (value 256 (add_chainwork a b) ≡ (value 256 a + value 256 b) % 2 ^ 256)
unfolding add_chainwork
value-add_chainwork a b (la, da) (lb, db) =
    let r = chainwork_loop-Sums a b 0 (omega arith) da db (omega arith) in
    let whole = span_IsBytes32 (chainwork_loop a b 0) (omega (arith, r.same_length)) in
    (
      (omega (arith, r.same_length), r.digits),
      wrap _ _ _ r.carry whole (value-lt-span 256 _ r.digits) r.small (omega (arith, r.balance)),
    )
  where
    wrap : (s v t k : ℕ) → s ≡ 2 ^ 256 → v < s → k ≤ 1 → v + s * k ≡ t → v ≡ t % 2 ^ 256
    wrap s v t k e h hk b = ground (arith, ap (λ (n : ℕ). n * k) e)

meets_loop-gt_loop : (hs ts : List ℕ) → meets_loop hs ts ≡ not (gt_loop false hs ts)
unfolding meets_loop gt_loop
meets_loop-gt_loop [] ts = refl
meets_loop-gt_loop (h ∷ hs) [] = refl
meets_loop-gt_loop (h ∷ hs) (t ∷ ts) = ground (arith, meets_loop-gt_loop hs ts)

-- A 32-byte hash meets a 32-byte target exactly if, read as a little-endian number, it is at most
-- the target.
pub hash_meets_target_iff :
    (hash target : List ℕ)
    → IsBytes32 hash
    → IsBytes32 target
    → (hash_meets_target hash target ≡ true) ↔ (value 256 hash ≤ value 256 target)
unfolding hash_meets_target
hash_meets_target_iff hash target (lh, dh) (lt, dt) =
    rw (meets_loop-gt_loop (reverse hash) (reverse target))
      (rw (gt_loop-value 256 false hash target (lh ∙ sym lt) dh dt) (ground arith))
