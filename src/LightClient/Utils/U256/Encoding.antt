-- ===== src/LightClient/Utils/U256/Encoding.antt =====
-- Byte arrays and limb arrays stand for the same number.
use utxopia_solana_programs.Prelude.{
  ℕ, zero, suc, ◌+◌, ◌*◌, ◌/◌, ◌%◌, ◌≤◌, ◌<◌, ◌≡◌, refl, ap, List, [], ◌∷◌, ◌++◌, arith, length,
  length-append, take, drop, take-append-drop, length-take, length-drop, drop_word-drop, sym, ◌∙◌,
}
use utxopia_solana_programs.Prelude.Numbers.{u64_mod}
use utxopia_solana_programs.Prelude.Digits.{value, span, span-length, AllDigits, value-lt-span}
use utxopia_solana_programs.LightClient.Utils.U256.{
  IsU256, IsBytes32, to_le_bytes, u256_from_le_bytes, u256_to_le_bytes,
}

pub length-to_le_bytes : (n v : ℕ) → length (to_le_bytes n v) ≡ n
unfolding to_le_bytes
length-to_le_bytes zero v = refl
length-to_le_bytes (suc n) v = ap suc (length-to_le_bytes n (v / 256))

pub AllDigits-to_le_bytes : (n v : ℕ) → AllDigits 256 (to_le_bytes n v)
unfolding to_le_bytes
AllDigits-to_le_bytes zero v = tt
AllDigits-to_le_bytes (suc n) v = (omega arith, AllDigits-to_le_bytes n (v / 256))

-- Writing a number that fits and reading it back gives the number.
pub value-to_le_bytes : (n v : ℕ) → v < span 256 (to_le_bytes n v) → value 256 (to_le_bytes n v) ≡ v
unfolding to_le_bytes
value-to_le_bytes zero v h = omega arith
value-to_le_bytes (suc n) v h = omega (arith, value-to_le_bytes n (v / 256) (omega arith))

-- Reading and writing back gives the bytes.
pub to_le_bytes-value :
    (xs : List ℕ) → AllDigits 256 xs → to_le_bytes (length xs) (value 256 xs) ≡ xs
unfolding to_le_bytes
to_le_bytes-value [] h = refl
to_le_bytes-value (x ∷ xs) h =
    let low : value 256 (x ∷ xs) % 256 ≡ x = omega (arith, h.0) in
    let high : value 256 (x ∷ xs) / 256 ≡ value 256 xs = omega (arith, h.0) in
    rw (low, high) (ap (λ (t : List ℕ). x ∷ t) (to_le_bytes-value xs h.1))

pub value-append :
    (base : ℕ) (xs ys : List ℕ)
    → value base (xs ++ ys) ≡ value base xs + span base xs * value base ys
value-append base [] ys = omega arith
value-append base (x ∷ xs) ys = omega (arith, ap (λ (t : ℕ). base * t) (value-append base xs ys))

pub AllDigits-take : (n : ℕ) (xs : List ℕ) → AllDigits 256 xs → AllDigits 256 (take n xs)
AllDigits-take zero xs h = tt
AllDigits-take (suc n) [] h = tt
AllDigits-take (suc n) (x ∷ xs) h = (h.0, AllDigits-take n xs h.1)

pub AllDigits-drop : (n : ℕ) (xs : List ℕ) → AllDigits 256 xs → AllDigits 256 (drop n xs)
AllDigits-drop zero xs h = h
AllDigits-drop (suc n) [] h = tt
AllDigits-drop (suc n) (x ∷ xs) h = AllDigits-drop n xs h.1

-- The first eight bytes of a longer array, and the rest.
pub record Splits (xs : List ℕ) : Type 0 where
  pub low_fits : value 256 (take 8 xs) < u64_mod
  pub joined : value 256 xs ≡ value 256 (take 8 xs) + u64_mod * value 256 (drop 8 xs)
  pub left : length (drop 8 xs) + 8 ≡ length xs
  pub digits : AllDigits 256 (drop 8 xs)

split_word : (xs : List ℕ) → 8 ≤ length xs → AllDigits 256 xs → Splits xs
split_word xs h d =
    let width : span 256 (take 8 xs) ≡ u64_mod =
      span-length 256 (take 8 xs) (0 ∷ 0 ∷ 0 ∷ 0 ∷ 0 ∷ 0 ∷ 0 ∷ 0 ∷ []) (length-take 8 xs h) in
    record {
      low_fits = omega (arith, value-lt-span 256 (take 8 xs) (AllDigits-take 8 xs d), width);
      joined =
          ap (value 256) (sym (take-append-drop 8 xs))
          ∙ (value-append 256 (take 8 xs) (drop 8 xs)
              ∙ ap (λ (t : ℕ). value 256 (take 8 xs) + t * value 256 (drop 8 xs)) width);
      left = length-drop 8 xs h;
      digits = AllDigits-drop 8 xs d;
    }

no_bytes : (xs : List ℕ) → length xs ≡ 0 → value 256 xs ≡ 0
no_bytes [] h = refl
no_bytes (x ∷ xs) h = absurd (omega arith)

-- The array without its first `n + 8` elements, from the array without its first `n`.
next_word :
    (n : ℕ) (xs : List ℕ)
    → Splits (drop n xs)
    → let rest = drop (suc (suc (suc (suc (suc (suc (suc (suc n)))))))) xs in
      (value 256 (drop n xs) ≡ value 256 (take 8 (drop n xs)) + u64_mod * value 256 rest)
      × (length rest + 8 ≡ length (drop n xs))
      × AllDigits 256 rest
next_word n xs s = rw (← drop_word-drop n xs) (s.joined, s.left, s.digits)

-- Reading 32 bytes as limbs keeps the number, and gives well-formed limbs.
pub value-u256_from_le_bytes :
    (bytes : List ℕ)
    → IsBytes32 bytes
    → IsU256 (u256_from_le_bytes bytes)
      × (value u64_mod (u256_from_le_bytes bytes) ≡ value 256 bytes)
unfolding u256_from_le_bytes
value-u256_from_le_bytes bytes (l, d) =
    let s0 = split_word bytes (omega arith) d in
    let s1 = split_word (drop 8 bytes) (omega (arith, s0.left)) s0.digits in
    let n1 = next_word 8 bytes s1 in
    let s2 = split_word (drop 16 bytes) (omega (arith, s0.left, n1.1)) n1.2 in
    let n2 = next_word 16 bytes s2 in
    let s3 = split_word (drop 24 bytes) (omega (arith, s0.left, n1.1, n2.1)) n2.2 in
    let n3 = next_word 24 bytes s3 in
    let end : value 256 (drop 32 bytes) ≡ 0 =
      no_bytes (drop 32 bytes) (omega (arith, s0.left, n1.1, n2.1, n3.1)) in
    (
      (refl, (s0.low_fits, (s1.low_fits, (s2.low_fits, (s3.low_fits, tt))))),
      omega (arith, s0.joined, n1.0, n2.0, n3.0, end),
    )

pub AllDigits-append :
    (xs ys : List ℕ) → AllDigits 256 xs → AllDigits 256 ys → AllDigits 256 (xs ++ ys)
AllDigits-append [] ys hx hy = hy
AllDigits-append (x ∷ xs) ys hx hy = (hx.0, AllDigits-append xs ys hx.1 hy)

word_value : (v : ℕ) → v < u64_mod → value 256 (to_le_bytes 8 v) ≡ v
word_value v h =
    let width : span 256 (to_le_bytes 8 v) ≡ u64_mod =
      span-length 256 (to_le_bytes 8 v) (0 ∷ 0 ∷ 0 ∷ 0 ∷ 0 ∷ 0 ∷ 0 ∷ 0 ∷ [])
        (length-to_le_bytes 8 v) in
    value-to_le_bytes 8 v (omega (arith, width))

-- Eight bytes in front of bytes that stand for `high`.
word_front :
    (v : ℕ) (rest : List ℕ) (size high : ℕ)
    → v < u64_mod
    → (length rest ≡ size) × AllDigits 256 rest × (value 256 rest ≡ high)
    → let all = to_le_bytes 8 v ++ rest in
      (length all ≡ 8 + size) × AllDigits 256 all × (value 256 all ≡ v + u64_mod * high)
word_front v rest size high h (lr, dr, vr) =
    let width : span 256 (to_le_bytes 8 v) ≡ u64_mod =
      span-length 256 (to_le_bytes 8 v) (0 ∷ 0 ∷ 0 ∷ 0 ∷ 0 ∷ 0 ∷ 0 ∷ 0 ∷ [])
        (length-to_le_bytes 8 v) in
    (
      omega (arith, length-append (to_le_bytes 8 v) rest, length-to_le_bytes 8 v, lr),
      AllDigits-append (to_le_bytes 8 v) rest (AllDigits-to_le_bytes 8 v) dr,
      omega (
        arith,
        value-append 256 (to_le_bytes 8 v) rest,
        word_value v h,
        ap (λ (t : ℕ). t * value 256 rest) width,
        vr,
      ),
    )

-- Writing limbs as 32 bytes keeps the number, and gives well-formed bytes.
pub value-u256_to_le_bytes :
    (v : List ℕ)
    → IsU256 v
    → IsBytes32 (u256_to_le_bytes v) × (value 256 (u256_to_le_bytes v) ≡ value u64_mod v)
unfolding u256_to_le_bytes
value-u256_to_le_bytes (a ∷ b ∷ c ∷ d ∷ []) (l, (ha, (hb, (hc, (hd, _))))) =
    let fc =
      word_front c (to_le_bytes 8 d) 8 d hc
        (length-to_le_bytes 8 d, AllDigits-to_le_bytes 8 d, word_value d hd) in
    let fb = word_front b (to_le_bytes 8 c ++ to_le_bytes 8 d) 16 (c + u64_mod * d) hb fc in
    let fa =
      word_front a (to_le_bytes 8 b ++ (to_le_bytes 8 c ++ to_le_bytes 8 d)) 24
        (b + u64_mod * (c + u64_mod * d)) ha fb in
    ((fa.0, fa.1), omega (arith, fa.2))
value-u256_to_le_bytes _ (l, h) = absurd (omega arith)
