-- ===== src/Utxopia/Bitcoin/Varint.antt =====
-- Bitcoin's variable-length integers, as its serialization writes them, against `read_varint`.
use utxopia_solana_programs.Prelude.{
  ℕ, ◌≤◌, ◌<◌, ◌≡◌, refl, ap, sym, ◌∙◌, ◌⊎◌, inl, inr, [], ◌∷◌, ◌++◌, ltb, leb, if◌then◌else◌,
  arith, length, length-append, take, take-length-append,
}
use utxopia_solana_programs.Prelude.Numbers.{u64_mod, u32_mod, u16_mod}
use utxopia_solana_programs.Prelude.Digits.{value, span, span-length}
use utxopia_solana_programs.Prelude.Results.{ok}
use utxopia_solana_programs.LightClient.Utils.U256.{to_le_bytes}
use utxopia_solana_programs.LightClient.Utils.U256.Encoding.{length-to_le_bytes, value-to_le_bytes}
use utxopia_solana_programs.Utxopia.Bytes.{Bytes}
use utxopia_solana_programs.Utxopia.Bitcoin.{read_varint}

-- The shortest form of a number: one byte, or a prefix and 2, 4 or 8 bytes.
unfoldable pub encode_varint : ℕ → Bytes
unfolding to_le_bytes
encode_varint v =
    if leb v 252
    then v ∷ []
    else if ltb v u16_mod
    then 253 ∷ to_le_bytes 2 v
    else if ltb v u32_mod
    then 254 ∷ to_le_bytes 4 v
    else 255 ∷ to_le_bytes 8 v

value-take_le_bytes :
    (width v : ℕ) (rest : Bytes)
    → v < span 256 (to_le_bytes width v)
    → value 256 (take width (to_le_bytes width v ++ rest)) ≡ v
value-take_le_bytes width v rest h =
    let bytes = to_le_bytes width v in
    let cut : take width (bytes ++ rest) ≡ bytes =
      ap (λ (n : ℕ). take n (bytes ++ rest)) (sym (length-to_le_bytes width v))
      ∙ take-length-append bytes rest in
    ap (value 256) cut ∙ value-to_le_bytes width v h

length-le_bytes_append : (width v : ℕ) (rest : Bytes) → width ≤ length (to_le_bytes width v ++ rest)
length-le_bytes_append width v rest =
    omega (arith, length-append (to_le_bytes width v) rest, length-to_le_bytes width v)

-- The spans of 2, 4 and 8 bytes.
span-2 : (v : ℕ) → span 256 (to_le_bytes 2 v) ≡ u16_mod
span-2 v = span-length 256 (to_le_bytes 2 v) (0 ∷ 0 ∷ []) (length-to_le_bytes 2 v)

pub span-4 : (v : ℕ) → span 256 (to_le_bytes 4 v) ≡ u32_mod
span-4 v = span-length 256 (to_le_bytes 4 v) (0 ∷ 0 ∷ 0 ∷ 0 ∷ []) (length-to_le_bytes 4 v)

pub span-8 : (v : ℕ) → span 256 (to_le_bytes 8 v) ≡ u64_mod
span-8 v =
    span-length 256 (to_le_bytes 8 v) (0 ∷ 0 ∷ 0 ∷ 0 ∷ 0 ∷ 0 ∷ 0 ∷ 0 ∷ []) (length-to_le_bytes 8 v)

-- `read_varint` on a prefix with enough bytes behind it.
read_two :
    (bytes : Bytes)
    → 2 ≤ length bytes
    → read_varint (253 ∷ bytes) ≡ ok (value 256 (take 2 bytes), 3)
unfolding read_varint
read_two bytes h = ground arith

read_four :
    (bytes : Bytes)
    → 4 ≤ length bytes
    → read_varint (254 ∷ bytes) ≡ ok (value 256 (take 4 bytes), 5)
unfolding read_varint
read_four bytes h = ground arith

read_eight :
    (bytes : Bytes)
    → 8 ≤ length bytes
    → read_varint (255 ∷ bytes) ≡ ok (value 256 (take 8 bytes), 9)
unfolding read_varint
read_eight bytes h = ground arith

pub varint_forms :
    (v : ℕ)
    → ((v < 253) × (encode_varint v ≡ v ∷ []))
      ⊎ (((v < u16_mod) × (encode_varint v ≡ 253 ∷ to_le_bytes 2 v))
          ⊎ (((v < u32_mod) × (encode_varint v ≡ 254 ∷ to_le_bytes 4 v))
              ⊎ (encode_varint v ≡ 255 ∷ to_le_bytes 8 v)))
unfolding encode_varint
varint_forms v = ground arith

read_byte : (v : ℕ) (rest : Bytes) → v < 253 → read_varint (v ∷ rest) ≡ ok (v, 1)
unfolding read_varint
read_byte v rest h = ground arith

-- What `read_varint` reads from the shortest form of a 64-bit number, with anything behind it, is the
-- number and the length of that form.
pub read_varint-encode_varint :
    (v : ℕ) (rest : Bytes)
    → v < u64_mod
    → read_varint (encode_varint v ++ rest) ≡ ok (v, length (encode_varint v))
read_varint-encode_varint v rest h = elim (varint_forms v) [
  | inl (a, e) ↦ rw e (read_byte v rest a)
  | inr (inl (a, e)) ↦
      rw (e, length-to_le_bytes 2 v)
        (read_two (to_le_bytes 2 v ++ rest) (length-le_bytes_append 2 v rest)
          ∙ ap (λ (n : ℕ). ok (n, 3)) (value-take_le_bytes 2 v rest (omega (arith, span-2 v))))
  | inr (inr (inl (a, e))) ↦
      rw (e, length-to_le_bytes 4 v)
        (read_four (to_le_bytes 4 v ++ rest) (length-le_bytes_append 4 v rest)
          ∙ ap (λ (n : ℕ). ok (n, 5)) (value-take_le_bytes 4 v rest (omega (arith, span-4 v))))
  | inr (inr (inr e)) ↦
      rw (e, length-to_le_bytes 8 v)
        (read_eight (to_le_bytes 8 v ++ rest) (length-le_bytes_append 8 v rest)
          ∙ ap (λ (n : ℕ). ok (n, 9)) (value-take_le_bytes 8 v rest (omega (arith, span-8 v))))
]

-- What is read from the front of `bytes` is no longer than they are.
pub read_varint_size :
    (bytes : Bytes) (v size : ℕ)
    → read_varint bytes ≡ ok (v, size)
    → (1 ≤ size) × (size ≤ length bytes)
unfolding read_varint
read_varint_size [] v size h = cc
read_varint_size (b ∷ rest) v size h = ground arith

-- A 64-bit number's first byte is 0 only if the number is.
pub encode_varint_front :
    (v : ℕ) (rest : Bytes)
    → 0 < v
    → (b : ℕ) × (t : Bytes) × (encode_varint v ++ rest ≡ b ∷ t) × (0 < b)
encode_varint_front v rest h = elim (varint_forms v) [
  | inl (a, e) ↦ (v, rest, rw e refl, h)
  | inr (inl (a, e)) ↦ (253, to_le_bytes 2 v ++ rest, rw e refl, omega arith)
  | inr (inr (inl (a, e))) ↦ (254, to_le_bytes 4 v ++ rest, rw e refl, omega arith)
  | inr (inr (inr e)) ↦ (255, to_le_bytes 8 v ++ rest, rw e refl, omega arith)
]

pub length-encode_varint : (v : ℕ) → 1 ≤ length (encode_varint v)
length-encode_varint v = elim (varint_forms v) [
  | inl (a, e) ↦ rw e (omega arith)
  | inr (inl (a, e)) ↦ rw e (omega arith)
  | inr (inr (inl (a, e))) ↦ rw e (omega arith)
  | inr (inr (inr e)) ↦ rw e (omega arith)
]
