-- ===== src/Utxopia/Bitcoin/Position.antt =====
-- A position in a byte slice by the bytes from there on, and a script behind its length there.
use utxopia_solana_programs.Prelude.{
  ℕ, ◌+◌, ◌≤◌, ◌<◌, ◌≡◌, refl, ap, sym, ◌∙◌, ◌++◌, arith, length, length-append, take, drop,
  take-length-append, drop-length-append, drop-drop, drop-take, length-drop,
}
use utxopia_solana_programs.Prelude.Numbers.{u64_mod}
use utxopia_solana_programs.Prelude.Results.{ok}
use utxopia_solana_programs.Utxopia.Bytes.{Bytes}
use utxopia_solana_programs.Utxopia.Bitcoin.{read_varint}
use utxopia_solana_programs.Utxopia.Bytes.{between}
use utxopia_solana_programs.Utxopia.Bitcoin.Varint.{encode_varint, read_varint-encode_varint}
use utxopia_solana_programs.Utxopia.Bitcoin.Serialize.{script_bytes}

pub record At (raw : Bytes) (offset : ℕ) (bytes : Bytes) : Type 0 where
  pub inside : offset ≤ length raw
  pub from_here : drop offset raw ≡ bytes

pub At_start : (raw : Bytes) → At raw 0 raw
At_start raw = record { inside = omega arith; from_here = refl }

pub At_as :
    (raw : Bytes) (offset : ℕ) {xs ys : Bytes} → xs ≡ ys → At raw offset xs → At raw offset ys
At_as raw offset e at = record { inside = at.inside; from_here = at.from_here ∙ e }

pub At_length :
    (raw : Bytes) (offset : ℕ) (bytes : Bytes)
    → At raw offset bytes
    → length bytes + offset ≡ length raw
At_length raw offset bytes at =
    omega (arith, ap length at.from_here, length-drop offset raw at.inside)

-- Past `xs`.
pub At_past :
    (raw : Bytes) (offset n : ℕ) (xs ys : Bytes)
    → At raw offset (xs ++ ys)
    → length xs ≡ n
    → At raw (offset + n) ys
At_past raw offset n xs ys at e = record {
  inside =
      omega
        (arith, length-append xs ys, length-drop offset raw at.inside, ap length at.from_here, e);
  from_here =
      sym (drop-drop offset n raw)
      ∙ (ap (drop n) at.from_here
          ∙ (ap (λ (k : ℕ). drop k (xs ++ ys)) (sym e) ∙ drop-length-append xs ys));
}

pub At_take :
    (raw : Bytes) (offset n : ℕ) (xs ys : Bytes)
    → At raw offset (xs ++ ys)
    → length xs ≡ n
    → take n (drop offset raw) ≡ xs
At_take raw offset n xs ys at e =
    ap (take n) at.from_here
    ∙ (ap (λ (k : ℕ). take k (xs ++ ys)) (sym e) ∙ take-length-append xs ys)

-- `width` bytes, then a script behind its length, then `rest`.
pub record Scripted (raw : Bytes) (offset width : ℕ) (front script rest : Bytes) : Type 0 where
  pub size : ℕ
  pub width_fits : offset + width ≤ length raw
  pub size_fits : offset + width + size ≤ length raw
  pub fits : offset + width + size + length script ≤ length raw
  pub read : read_varint (drop (offset + width) raw) ≡ ok (length script, size)
  pub front_bytes : take width (drop offset raw) ≡ front
  pub script_range : take (length script) (drop (offset + width + size) raw) ≡ script
  pub after : At raw (offset + width + size + length script) rest

pub scripted :
    (raw : Bytes) (offset width : ℕ) (front script rest : Bytes)
    → At raw offset (front ++ script_bytes script rest)
    → length front ≡ width
    → length raw < u64_mod
    → Scripted raw offset width front script rest
scripted raw offset width front script rest at e small =
    let at1 = At_past raw offset width front (script_bytes script rest) at e in
    let prefix = encode_varint (length script) in
    let at2 = At_past raw (offset + width) (length prefix) prefix (script ++ rest) at1 refl in
    let at3 = At_past raw (offset + width + length prefix) (length script) script rest at2 refl in
    record {
      size = length prefix;
      width_fits = at1.inside;
      size_fits = at2.inside;
      fits = at3.inside;
      read =
          ap read_varint at1.from_here
          ∙ read_varint-encode_varint (length script) (script ++ rest)
              (omega (arith, at3.inside, small));
      front_bytes = At_take raw offset width front (script_bytes script rest) at e;
      script_range =
          At_take raw (offset + width + length prefix) (length script) script rest at2 refl;
      after = at3;
    }

-- The bytes between two positions.
pub At_between :
    (raw : Bytes) (start end : ℕ) (xs ys : Bytes)
    → At raw start (xs ++ ys)
    → At raw end ys
    → between start end raw ≡ xs
At_between raw start end xs ys s e =
    let width : end ≡ start + length xs = omega (
      arith,
      length-append xs ys,
      length-drop start raw s.inside,
      length-drop end raw e.inside,
      ap length s.from_here,
      ap length e.from_here,
    ) in
    ap (λ (k : ℕ). between start k raw) width
    ∙ (drop-take start (length xs) raw ∙ At_take raw start (length xs) xs ys s refl)
