-- ===== src/Prelude/Digits.antt =====
-- Numbers as arrays of digits, least significant first: bytes (base 256) and limbs (base 2 ^ 64).
use Prim.Native.Nat.{ℕ, suc, ◌+◌, ◌*◌, ◌≤◌, ◌<◌}
use mathlib.Core.Path.{◌≡◌, refl, ◌∙◌, ap, sym}
use mathlib.Core.List.{List, [], ◌∷◌, ◌++◌, reverse, reverse-append, reverse-reverse}
use native.Mathlib.Omega.{arith}
use utxopia_solana_programs.Prelude.Lists.{length, All, length-append}

mul_mono : (c a b : ℕ) → a ≤ b → c * a ≤ c * b
mul_mono c a b p = grind arith

pub length-reverse : (xs : List ℕ) → length (reverse xs) ≡ length xs
length-reverse [] = refl
length-reverse (x ∷ xs) =
    ap length (reverse-append (x ∷ []) xs)
    ∙ omega (arith, length-append (reverse xs) (x ∷ []), length-reverse xs)

module _ (base : ℕ) where
  -- The number that the digits stand for, and the number one past the largest of that length.
  abbrev pub value : List ℕ → ℕ
  value [] = 0
  value (x ∷ xs) = x + base * value xs

  abbrev pub span : List ℕ → ℕ
  span [] = 1
  span (x ∷ xs) = base * span xs

  abbrev pub AllDigits : List ℕ → Type 0
  AllDigits xs = All (λ x. x < base) xs

  pub value-lt-span : (xs : List ℕ) → AllDigits xs → value xs < span xs
  value-lt-span [] h = omega arith
  value-lt-span (x ∷ xs) h =
      omega (arith, mul_mono base (suc (value xs)) (span xs) (value-lt-span xs h.1), h.0)

  pub span-length : (xs ys : List ℕ) → length xs ≡ length ys → span xs ≡ span ys
  span-length [] [] h = refl
  span-length [] (y ∷ ys) h = absurd (omega arith)
  span-length (x ∷ xs) [] h = absurd (omega arith)
  span-length (x ∷ xs) (y ∷ ys) h = ap (λ (t : ℕ). base * t) (span-length xs ys (omega arith))

  -- The value of digits given most significant first.
  abbrev pub big_value : List ℕ → ℕ
  big_value [] = 0
  big_value (x ∷ xs) = x * span xs + big_value xs

  span-append : (xs : List ℕ) (x : ℕ) → span (xs ++ x ∷ []) ≡ base * span xs
  span-append [] x = omega arith
  span-append (y ∷ xs) x = ap (λ (t : ℕ). base * t) (span-append xs x)

  big_value-append : (xs : List ℕ) (x : ℕ) → big_value (xs ++ x ∷ []) ≡ x + base * big_value xs
  big_value-append [] x = omega arith
  big_value-append (y ∷ xs) x =
      omega (arith, big_value-append xs x, ap (λ (t : ℕ). y * t) (span-append xs x))

  pub big_value-reverse : (xs : List ℕ) → big_value (reverse xs) ≡ value xs
  big_value-reverse [] = refl
  big_value-reverse (x ∷ xs) =
      ap big_value (reverse-append (x ∷ []) xs)
      ∙ omega
          (arith, big_value-append (reverse xs) x, ap (λ (t : ℕ). base * t) (big_value-reverse xs))

  AllDigits-append : (xs : List ℕ) (x : ℕ) → AllDigits xs → x < base → AllDigits (xs ++ x ∷ [])
  AllDigits-append [] x h p = (p, tt)
  AllDigits-append (y ∷ xs) x h p = (h.0, AllDigits-append xs x h.1 p)

  pub AllDigits-reverse : (xs : List ℕ) → AllDigits xs → AllDigits (reverse xs)
  AllDigits-reverse [] h = tt
  AllDigits-reverse (x ∷ xs) h =
      rw (reverse-append (x ∷ []) xs)
        (AllDigits-append (reverse xs) x (AllDigits-reverse xs h.1) h.0)

  pub big_value-lt-span : (xs : List ℕ) → AllDigits xs → big_value xs < span xs
  big_value-lt-span [] h = omega arith
  big_value-lt-span (x ∷ xs) h =
      omega (arith, mul_mono (span xs) (suc x) base h.0, big_value-lt-span xs h.1)

  -- The order of the leading digits decides the order of the values.
  pub big_value-lt :
      (x y : ℕ) (xs ys : List ℕ)
      → length xs ≡ length ys
      → AllDigits xs
      → x < y
      → big_value (x ∷ xs) < big_value (y ∷ ys)
  big_value-lt x y xs ys e h p = omega (
    arith,
    span-length xs ys e,
    big_value-lt-span xs h,
    mul_mono (span xs) (suc x) y p,
    ap (λ (t : ℕ). y * t) (span-length xs ys e),
  )

  pub big_value_tail :
      (x : ℕ) (xs ys : List ℕ)
      → length xs ≡ length ys
      → big_value (x ∷ xs) + big_value ys ≡ big_value (x ∷ ys) + big_value xs
  big_value_tail x xs ys e = omega (arith, ap (λ (t : ℕ). x * t) (span-length xs ys e))

  pub value-reverse : (xs : List ℕ) → value (reverse xs) ≡ big_value xs
  value-reverse xs = sym (big_value-reverse (reverse xs)) ∙ ap big_value (reverse-reverse xs)
