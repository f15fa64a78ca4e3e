-- ===== src/LightClient/Utils/Difficulty/Compact.antt =====
-- The compact encoding of a target rounds down.
use native.Mathlib.Decide.{dec_le}
use native.Mathlib.Nat.{pow-suc}
use utxopia_solana_programs.Prelude.{
  ℕ, zero, suc, ◌+◌, ◌-◌, ◌*◌, ◌/◌, ◌%◌, ◌^◌, ◌≤◌, ◌<◌, ◌≡◌, ap, sym, ◌∙◌, List, [], ◌∷◌, ◌≢◌, ◌⊎◌,
  inl, inr, false, Bool-cases, arith, length, take, drop, get_or, leb, ◌==◌, length-take,
  take-append-drop,
}
use utxopia_solana_programs.Prelude.Digits.{value, span, span-length, AllDigits}
use utxopia_solana_programs.LightClient.Utils.U256.{IsBytes32}
use utxopia_solana_programs.LightClient.Utils.U256.Encoding.{value-append}
use utxopia_solana_programs.LightClient.Utils.Pow.{target_from_bits}
use utxopia_solana_programs.LightClient.Utils.Pow.Target.{
  zeros, span-zeros, length-zeros, compact_value, value-target_from_bits,
}
use utxopia_solana_programs.LightClient.Utils.Difficulty.{
  significant_size, raw_mantissa, compact, bits_from_target,
}

significant_size-le : (n : ℕ) (t : List ℕ) → significant_size n t ≤ n
unfolding significant_size
significant_size-le zero t = omega arith
significant_size-le (suc n) t = ground (arith, significant_size-le n t)

get_or-lt : (i : ℕ) (t : List ℕ) → AllDigits 256 t → get_or t i 0 < 256
get_or-lt i [] h = omega arith
get_or-lt zero (x ∷ t) h = h.0
get_or-lt (suc i) (x ∷ t) h = get_or-lt i t h.1

-- Three digits that stand next to one another.
abbrev window : ℕ → List ℕ → ℕ
window k t = get_or t (suc (suc k)) 0 * 2 ^ 16 + get_or t (suc k) 0 * 2 ^ 8 + get_or t k 0

window-le-drop : (k : ℕ) (t : List ℕ) → window k t ≤ value 256 (drop k t)
window-le-drop zero [] = omega arith
window-le-drop zero (a ∷ []) = omega arith
window-le-drop zero (a ∷ b ∷ []) = omega arith
window-le-drop zero (a ∷ b ∷ c ∷ t) = omega arith
window-le-drop (suc k) [] = omega arith
window-le-drop (suc k) (a ∷ t) = window-le-drop k t

window-le-value : (k : ℕ) (t : List ℕ) → k ≤ length t → 256 ^ k * window k t ≤ value 256 t
window-le-value k t h =
    let width : span 256 (take k t) ≡ 256 ^ k =
      span-length 256 (take k t) (zeros k) (length-take k t h ∙ sym (length-zeros k))
      ∙ span-zeros k in
    let whole : value 256 t ≡ value 256 (take k t) + 256 ^ k * value 256 (drop k t) =
      ap (value 256) (sym (take-append-drop k t))
      ∙ (value-append 256 (take k t) (drop k t)
          ∙ ap (λ (n : ℕ). value 256 (take k t) + n * value 256 (drop k t)) width) in
    omega (arith, whole, scale (256 ^ k) (window k t) (value 256 (drop k t)) (window-le-drop k t))
  where
    scale : (c a b : ℕ) → a ≤ b → c * a ≤ c * b
    scale c a b p = grind arith

-- The part of `V` that a mantissa at this size accounts for.
abbrev Fits : ℕ → ℕ → ℕ → Type 0
Fits size m V = (size ≤ 3 → m / 2 ^ (8 * (3 - size)) ≤ V) × (3 < size → 256 ^ (size - 3) * m ≤ V)

compact_fields :
    (size m : ℕ)
    → size ≤ 32
    → m < 2 ^ 24
    → let bits = compact size m in
      ((bits / 2 ^ 24 % 256 ≡ size) × (bits % 2 ^ 23 ≡ m))
      ⊎ ((bits / 2 ^ 24 % 256 ≡ suc size) × (bits % 2 ^ 23 ≡ m / 256))
unfolding compact
compact_fields size m hs hm = elim (Bool-cases (m / 2 ^ 23 % 2 == 1)) [
  | inl signed ↦ rw signed (inr (omega arith, omega arith))
  | inr plain ↦
      rw plain (inl (omega arith, let top : m / 2 ^ 23 % 2 ≢ 1 = ground arith in omega arith))
]

compact_value-le-small :
    (size m V : ℕ)
    → 0 < size
    → size ≤ 3
    → m < 2 ^ 24
    → Fits size m V
    → (compact_value size m ≤ V) × (compact_value (suc size) (m / 256) ≤ V)
compact_value-le-small zero m V p h hm f = absurd (omega arith)
compact_value-le-small (suc zero) m V p h hm f = (omega (arith, f.0 h), omega (arith, f.0 h))
compact_value-le-small (suc (suc zero)) m V p h hm f = (omega (arith, f.0 h), omega (arith, f.0 h))
compact_value-le-small (suc (suc (suc zero))) m V p h hm f =
    (omega (arith, f.0 h), omega (arith, f.0 h))
compact_value-le-small (suc (suc (suc (suc size)))) m V p h hm f = absurd (omega arith)

compact_value-le-large :
    (size m V : ℕ)
    → 3 < size
    → Fits size m V
    → (compact_value size m ≤ V) × (compact_value (suc size) (m / 256) ≤ V)
compact_value-le-large size m V h f =
    let up : 256 ^ (suc size - 3) ≡ 256 ^ (size - 3) * 256 =
      ap (λ (n : ℕ). 256 ^ n) (omega arith) ∙ pow-suc 256 (size - 3) in
    let scaled : 256 ^ (size - 3) * (256 * (m / 256)) ≤ 256 ^ (size - 3) * m =
      scale (256 ^ (size - 3)) (256 * (m / 256)) m (omega arith) in
    let bound : 256 ^ (suc size - 3) * (m / 256) ≤ V = rw up (omega (arith, scaled, f.1 h)) in
    (ground (arith, f.1 h), ground (arith, bound))
  where
    scale : (c a b : ℕ) → a ≤ b → c * a ≤ c * b
    scale c a b p = grind arith

raw_mantissa-small :
    (size : ℕ) (t : List ℕ)
    → 0 < size
    → size ≤ 3
    → 3 ≤ length t
    → AllDigits 256 t
    → (raw_mantissa size t < 2 ^ 24) × Fits size (raw_mantissa size t) (value 256 t)
unfolding raw_mantissa
raw_mantissa-small zero t p h l d = absurd (omega arith)
raw_mantissa-small (suc zero) (a ∷ b ∷ c ∷ t) p h l (da, (db, (dc, _))) = omega arith
raw_mantissa-small (suc (suc zero)) (a ∷ b ∷ c ∷ t) p h l (da, (db, (dc, _))) = omega arith
raw_mantissa-small (suc (suc (suc zero))) (a ∷ b ∷ c ∷ t) p h l (da, (db, (dc, _))) = omega arith
raw_mantissa-small (suc (suc (suc (suc size)))) t p h l d = absurd (omega arith)
raw_mantissa-small size _ p h l d = absurd (omega arith)

raw_mantissa-large :
    (size : ℕ) (t : List ℕ)
    → 3 < size
    → size ≤ length t
    → AllDigits 256 t
    → (raw_mantissa size t < 2 ^ 24) × Fits size (raw_mantissa size t) (value 256 t)
unfolding raw_mantissa
raw_mantissa-large size t h l d =
    let large : leb size 3 ≡ false = ground arith in
    let top : size - 1 ≡ suc (suc (size - 3)) = omega arith in
    let next : size - 2 ≡ suc (size - 3) = omega arith in
    rw (large, top, next)
      (
        omega (
          arith,
          get_or-lt (suc (suc (size - 3))) t d,
          get_or-lt (suc (size - 3)) t d,
          get_or-lt (size - 3) t d,
        ),
        ((λ small. absurd (omega arith)), (λ _. window-le-value (size - 3) t (omega arith))),
      )

raw_mantissa-Fits :
    (size : ℕ) (t : List ℕ)
    → 0 < size
    → size ≤ 32
    → IsBytes32 t
    → (raw_mantissa size t < 2 ^ 24) × Fits size (raw_mantissa size t) (value 256 t)
raw_mantissa-Fits size t p h (l, d) = elim (dec_le size 3) [
  | yes small ↦ raw_mantissa-small size t p small (omega arith) d
  | no large ↦ raw_mantissa-large size t (omega arith) (omega arith) d
]

compact_value-le :
    (size m V : ℕ)
    → 0 < size
    → m < 2 ^ 24
    → Fits size m V
    → (compact_value size m ≤ V) × (compact_value (suc size) (m / 256) ≤ V)
compact_value-le size m V p hm f = elim (dec_le size 3) [
  | yes small ↦ compact_value-le-small size m V p small hm f
  | no large ↦ compact_value-le-large size m V (omega arith) f
]

compact-le :
    (size m V : ℕ)
    → 0 < size
    → size ≤ 32
    → m < 2 ^ 24
    → Fits size m V
    → value 256 (target_from_bits (compact size m)) ≤ V
compact-le size m V p hs hm f =
    let (plain, signed) = compact_value-le size m V p hm f in
    rw ((value-target_from_bits (compact size m)).1) (elim (compact_fields size m hs hm) [
      | inl (e, r) ↦ rw (e, r) plain
      | inr (e, r) ↦ rw (e, r) signed
    ])

-- The compact encoding of a 32-byte target stands for a target that is no larger.
pub bits_from_target-le :
    (target : List ℕ)
    → IsBytes32 target
    → value 256 (target_from_bits (bits_from_target target)) ≤ value 256 target
unfolding bits_from_target
bits_from_target-le target w =
    let size = significant_size 32 target in
    elim (Bool-cases (size == 0)) [
      | inl none_set ↦ rw none_set (rw ((value-target_from_bits 0).1) (omega arith))
      | inr some_set ↦
          let pos : 0 < size = ground arith in
          let small = significant_size-le 32 target in
          let f = raw_mantissa-Fits size target pos small w in
          rw some_set
            (compact-le size (raw_mantissa size target) (value 256 target) pos small f.0 f.1)
    ]
