-- ===== src/LightClient/Utils/Pow/Target.antt =====
-- The target that a compact `bits` field stands for.
use native.Mathlib.Nat.{pow-suc}
use utxopia_solana_programs.Prelude.{
  ℕ, zero, suc, ◌+◌, ◌-◌, ◌*◌, ◌/◌, ◌%◌, ◌^◌, ◌≤◌, ◌<◌, ◌≡◌, refl, ap, List, ◌∷◌, ◌++◌, arith,
  length, take, drop, replicate, length-append, length-replicate, length-drop, leb, if◌then◌else◌,
  true, false, Bool-cases, inl, inr,
}
use utxopia_solana_programs.Prelude.Digits.{value, span, AllDigits}
use utxopia_solana_programs.LightClient.Utils.U256.{IsBytes32, to_le_bytes}
use utxopia_solana_programs.LightClient.Utils.U256.Encoding.{
  value-append, AllDigits-append, AllDigits-drop, length-to_le_bytes, AllDigits-to_le_bytes,
}
use utxopia_solana_programs.LightClient.Utils.Pow.{overwrite, target_from_bits}

abbrev pub zeros : ℕ → List ℕ
zeros n = replicate n 0

pub span-zeros : (n : ℕ) → span 256 (zeros n) ≡ 256 ^ n
span-zeros zero = refl
span-zeros (suc n) = omega (arith, span-zeros n, pow-suc 256 n)

pub length-zeros : (n : ℕ) → length (zeros n) ≡ n
length-zeros n = length-replicate n 0

value-zeros : (n : ℕ) → value 256 (zeros n) ≡ 0
value-zeros zero = refl
value-zeros (suc n) = omega (arith, value-zeros n)

AllDigits-zeros : (n : ℕ) → AllDigits 256 (zeros n)
AllDigits-zeros zero = tt
AllDigits-zeros (suc n) = (omega arith, AllDigits-zeros n)

take-zeros : (k n : ℕ) → k ≤ n → take k (zeros n) ≡ zeros k
take-zeros zero n h = refl
take-zeros (suc k) zero h = absurd (omega arith)
take-zeros (suc k) (suc n) h = ap (λ (t : List ℕ). 0 ∷ t) (take-zeros k n (omega arith))

value-drop-zeros : (k n : ℕ) → value 256 (drop k (zeros n)) ≡ 0
value-drop-zeros zero n = value-zeros n
value-drop-zeros (suc k) zero = refl
value-drop-zeros (suc k) (suc n) = value-drop-zeros k n

-- Bytes written into an array of zeros stand for their value, moved up to their place.
pub value-overwrite :
    (at n : ℕ) (bytes : List ℕ)
    → at + length bytes ≤ n
    → AllDigits 256 bytes
    → (length (overwrite at bytes (zeros n)) ≡ n)
      × AllDigits 256 (overwrite at bytes (zeros n))
      × (value 256 (overwrite at bytes (zeros n)) ≡ 256 ^ at * value 256 bytes)
value-overwrite at n bytes h d =
    let rest = drop (at + length bytes) (zeros n) in
    let front = take-zeros at n (omega arith) in
    (
      rw front (
          omega (
            arith,
            length-append (zeros at) (bytes ++ rest),
            length-append bytes rest,
            length-zeros at,
            length-zeros n,
            length-drop (at + length bytes) (zeros n) (omega (arith, length-zeros n)),
          )),
      rw front (
          AllDigits-append (zeros at) (bytes ++ rest) (AllDigits-zeros at) (
            AllDigits-append bytes rest d
              (AllDigits-drop (at + length bytes) (zeros n) (AllDigits-zeros n)))),
      rw front (
          omega (
            arith,
            value-append 256 (zeros at) (bytes ++ rest),
            value-zeros at,
            ap (λ (t : ℕ). t * value 256 (bytes ++ rest)) (span-zeros at),
            ap (λ (t : ℕ). 256 ^ at * t) (value-append 256 bytes rest),
            ap (λ (t : ℕ). 256 ^ at * (span 256 bytes * t))
                (value-drop-zeros (at + length bytes) n),
          )),
    )

-- The number that a compact field stands for: 23 bits of mantissa, 256 ^ (exponent - 3) times;
-- zero where that leaves the 32 bytes.
abbrev pub compact_value : ℕ → ℕ → ℕ
compact_value exponent mantissa =
    if leb exponent 3
    then mantissa / 2 ^ (8 * (3 - exponent))
    else if leb exponent 32
    then 256 ^ (exponent - 3) * mantissa
    else 0

three_bytes :
    (m : ℕ)
    → m < 2 ^ 23
    → (length (take 3 (to_le_bytes 4 m)) ≡ 3)
      × AllDigits 256 (take 3 (to_le_bytes 4 m))
      × (value 256 (take 3 (to_le_bytes 4 m)) ≡ m)
unfolding to_le_bytes
three_bytes m h = (refl, (omega arith, (omega arith, (omega arith, tt))), omega arith)

four_bytes : (m : ℕ) → m < 2 ^ 23 → value 256 (to_le_bytes 4 m) ≡ m
unfolding to_le_bytes
four_bytes m h = omega arith

-- `target_from_bits` always gives 32 bytes; as a little-endian number they are the value of the
-- compact encoding.
pub value-target_from_bits :
    (bits : ℕ)
    → IsBytes32 (target_from_bits bits)
      × (value 256 (target_from_bits bits) ≡ compact_value (bits / 2 ^ 24 % 256) (bits % 2 ^ 23))
unfolding target_from_bits
value-target_from_bits bits =
    let e = bits / 2 ^ 24 % 256 in
    let m = bits % 2 ^ 23 in
    elim (Bool-cases (leb e 3)) [
      | inl small ↦
          let v = m / 2 ^ (8 * (3 - e)) in
          let fits : v < 2 ^ 23 = omega arith in
          let w =
            value-overwrite 0 32 (to_le_bytes 4 v) (omega (arith, length-to_le_bytes 4 v))
              (AllDigits-to_le_bytes 4 v) in
          rw small ((w.0, w.1), omega (arith, w.2, four_bytes v fits))
      | inr large ↦ elim (Bool-cases (leb e 32)) [
        | inl inside ↦
            let b = three_bytes m (omega arith) in
            let w =
              value-overwrite (e - 3) 32 (take 3 (to_le_bytes 4 m)) (ground (arith, b.0)) b.1 in
            let same : leb (e - 3 + 3) 32 ≡ true = ground arith in
            rw (large, inside, same)
              ((w.0, w.1), omega (arith, w.2, ap (λ (t : ℕ). 256 ^ (e - 3) * t) b.2))
        | inr outside ↦
            let same : leb (e - 3 + 3) 32 ≡ false = ground arith in
            rw (large, outside, same) ((length-zeros 32, AllDigits-zeros 32), value-zeros 32)
      ]
    ]
