-- ===== src/Utxopia/Bitcoin/Bounds.antt =====
-- The offsets that the loops of `ParsedTransaction::parse` reach.
use utxopia_solana_programs.Prelude.{
  ℕ, zero, suc, ◌+◌, ◌≤◌, ◌≡◌, refl, ap, ltb, length, drop, length-drop, le→ltb, arith,
}
use utxopia_solana_programs.Prelude.Results.{ok, reject, ok_or, invalid_instruction_data, >>=-eq-ok}
use utxopia_solana_programs.Utxopia.Bytes.{Bytes, tail, between, slice_between}
use utxopia_solana_programs.Utxopia.Bitcoin.{
  read_varint, script_end, input_end, skip_inputs, skip_outputs,
}
use utxopia_solana_programs.Utxopia.Bitcoin.Varint.{read_varint_size}

pub reject_passed :
    (a b : ℕ) (u : Unit {0}) → reject (ltb a b) invalid_instruction_data ≡ ok u → b ≤ a
reject_passed a b u h = ground arith

tail_ok :
    (offset : ℕ) (raw rest : Bytes)
    → tail offset raw ≡ ok rest
    → (offset ≤ length raw) × (drop offset raw ≡ rest)
tail_ok offset raw rest h = grind arith

pub past_count :
    (offset size count : ℕ) (raw rest : Bytes)
    → tail offset raw ≡ ok rest
    → read_varint rest ≡ ok (count, size)
    → offset + size ≤ length raw
past_count offset size count raw rest t r =
    let (inside, e) = tail_ok offset raw rest t in
    omega (
      arith,
      inside,
      read_varint_size rest count size r,
      length-drop offset raw inside,
      ap length e,
    )

pub slice_between_ok :
    (from to : ℕ) (raw : Bytes)
    → from ≤ to
    → to ≤ length raw
    → slice_between from to raw ≡ ok (between from to raw)
slice_between_ok from to raw h k = rw (le→ltb to from h, le→ltb (length raw) to k) refl

script_end_past :
    (offset size len end : ℕ)
    → ok_or (script_end offset size len) invalid_instruction_data ≡ ok end
    → offset ≤ end
script_end_past offset size len end h = grind arith

input_end_past :
    (offset size len end : ℕ)
    → ok_or (input_end offset size len) invalid_instruction_data ≡ ok end
    → offset ≤ end
input_end_past offset size len end h = grind arith

-- The loop over the inputs ends at its start or behind it, inside the slice.
pub skip_inputs_inside :
    (count : ℕ) (raw : Bytes) (offset end : ℕ)
    → offset ≤ length raw
    → skip_inputs count raw offset ≡ ok end
    → (offset ≤ end) × (end ≤ length raw)
unfolding skip_inputs
skip_inputs_inside zero raw offset end inside h = grind arith
skip_inputs_inside (suc count) raw offset end inside h =
    let (_, _, h1) =
      >>=-eq-ok (reject (ltb (length raw) (offset + 36)) invalid_instruction_data) _ h in
    let (rest, _, h2) = >>=-eq-ok (tail (offset + 36) raw) _ h1 in
    let ((len, size), _, h3) = >>=-eq-ok (read_varint rest) _ h2 in
    let (next, end_eq, h4) =
      >>=-eq-ok (ok_or (input_end (offset + 36) size len) invalid_instruction_data) _ h3 in
    let (u, passed, h5) =
      >>=-eq-ok (reject (ltb (length raw) next) invalid_instruction_data) _ h4 in
    let (le, fits) =
      skip_inputs_inside count raw next end (reject_passed (length raw) next u passed) h5 in
    (omega (arith, input_end_past (offset + 36) size len next end_eq, le), fits)

-- The loop over the outputs ends at its start or behind it, inside the slice.
pub skip_outputs_inside :
    (count : ℕ) (raw : Bytes) (offset end : ℕ)
    → offset ≤ length raw
    → skip_outputs count raw offset ≡ ok end
    → (offset ≤ end) × (end ≤ length raw)
unfolding skip_outputs
skip_outputs_inside zero raw offset end inside h = grind arith
skip_outputs_inside (suc count) raw offset end inside h =
    let (_, _, h1) =
      >>=-eq-ok (reject (ltb (length raw) (offset + 8)) invalid_instruction_data) _ h in
    let (rest, _, h2) = >>=-eq-ok (tail (offset + 8) raw) _ h1 in
    let ((len, size), _, h3) = >>=-eq-ok (read_varint rest) _ h2 in
    let (next, end_eq, h4) =
      >>=-eq-ok (ok_or (script_end (offset + 8) size len) invalid_instruction_data) _ h3 in
    let (u, passed, h5) =
      >>=-eq-ok (reject (ltb (length raw) next) invalid_instruction_data) _ h4 in
    let (le, fits) =
      skip_outputs_inside count raw next end (reject_passed (length raw) next u passed) h5 in
    (omega (arith, script_end_past (offset + 8) size len next end_eq, le), fits)
