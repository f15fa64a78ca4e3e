-- ===== src/Utxopia/Bitcoin/Errors.antt =====
-- The only error of `ParsedTransaction::parse`: no slice in it is out of bounds.
use utxopia_solana_programs.Prelude.{
  ℕ, zero, suc, ◌+◌, ◌≤◌, [], ◌∷◌, Bool, true, false, ltb, ◌==◌, length, arith, Option, none, some,
  if◌then◌else◌,
}
use utxopia_solana_programs.Prelude.Results.{
  Result, ok, err, reject, ok_or, invalid_instruction_data, FailsOnlyWith, >>=-FailsOnlyWith,
}
use utxopia_solana_programs.Utxopia.Bytes.{Bytes, tail, slice_between}
use utxopia_solana_programs.Utxopia.Bitcoin.{
  read_varint, script_end, input_end, skip_inputs, skip_outputs, parse_from, parse,
  has_segwit_marker,
}
use utxopia_solana_programs.Utxopia.Bitcoin.Bounds.{
  reject_passed, past_count, skip_inputs_inside, skip_outputs_inside, slice_between_ok,
}

abbrev Rejects {ℓ} : {T : Type ℓ} → Result T → Type ℓ
Rejects r = FailsOnlyWith invalid_instruction_data r

ok-Rejects {ℓ} : {T : Type ℓ} (t : T) → Rejects (ok t)
ok-Rejects t = record { only = λ e h. cc }

err-Rejects {ℓ} : {T : Type ℓ} → Rejects {T = T} (err invalid_instruction_data)
err-Rejects = record { only = λ e h. cc }

reject-Rejects : (test : Bool) → Rejects (reject test invalid_instruction_data)
reject-Rejects true = err-Rejects
reject-Rejects false = ok-Rejects tt

ok_or-Rejects {ℓ} : {A : Type ℓ} (o : Option A) → Rejects (ok_or o invalid_instruction_data)
ok_or-Rejects none = err-Rejects
ok_or-Rejects (some a) = ok-Rejects a

tail-Rejects : (offset : ℕ) (raw : Bytes) → offset ≤ length raw → Rejects (tail offset raw)
tail-Rejects offset raw h = record { only = λ e p. ground arith }

read_varint-Rejects : (bytes : Bytes) → Rejects (read_varint bytes)
unfolding read_varint
read_varint-Rejects [] = err-Rejects
read_varint-Rejects (b ∷ rest) = record { only = λ e p. grind arith }

skip_inputs-Rejects :
    (count : ℕ) (raw : Bytes) (offset : ℕ) → Rejects (skip_inputs count raw offset)
unfolding skip_inputs
skip_inputs-Rejects zero raw offset = ok-Rejects offset
skip_inputs-Rejects (suc count) raw offset =
    let short = ltb (length raw) (offset + 36) in
    >>=-FailsOnlyWith (reject short invalid_instruction_data) (reject-Rejects short) (λ u h.
      >>=-FailsOnlyWith (tail (offset + 36) raw)
        (tail-Rejects (offset + 36) raw (reject_passed (length raw) (offset + 36) u h))
        (λ rest _. >>=-FailsOnlyWith (read_varint rest) (read_varint-Rejects rest) (λ (len, size) _.
          let end? = input_end (offset + 36) size len in
          >>=-FailsOnlyWith (ok_or end? invalid_instruction_data) (ok_or-Rejects end?) (λ end _.
            >>=-FailsOnlyWith (reject (ltb (length raw) end) invalid_instruction_data)
              (reject-Rejects (ltb (length raw) end)) (λ _ _. skip_inputs-Rejects count raw end)))))

skip_outputs-Rejects :
    (count : ℕ) (raw : Bytes) (offset : ℕ) → Rejects (skip_outputs count raw offset)
unfolding skip_outputs
skip_outputs-Rejects zero raw offset = ok-Rejects offset
skip_outputs-Rejects (suc count) raw offset =
    let short = ltb (length raw) (offset + 8) in
    >>=-FailsOnlyWith (reject short invalid_instruction_data) (reject-Rejects short) (λ u h.
      >>=-FailsOnlyWith (tail (offset + 8) raw)
        (tail-Rejects (offset + 8) raw (reject_passed (length raw) (offset + 8) u h))
        (λ rest _. >>=-FailsOnlyWith (read_varint rest) (read_varint-Rejects rest) (λ (len, size) _.
          let end? = script_end (offset + 8) size len in
          >>=-FailsOnlyWith (ok_or end? invalid_instruction_data) (ok_or-Rejects end?) (λ end _.
            >>=-FailsOnlyWith (reject (ltb (length raw) end) invalid_instruction_data)
              (reject-Rejects (ltb (length raw) end))
              (λ _ _. skip_outputs-Rejects count raw end)))))

slice_between-Rejects :
    (from to : ℕ) (raw : Bytes) → from ≤ to → to ≤ length raw → Rejects (slice_between from to raw)
slice_between-Rejects from to raw h k = rw (slice_between_ok from to raw h k) (ok-Rejects _)

parse_from-Rejects :
    (offset : ℕ) (raw : Bytes) → offset ≤ length raw → Rejects (parse_from offset raw)
unfolding parse_from
parse_from-Rejects offset raw inside =
    >>=-FailsOnlyWith (tail offset raw) (tail-Rejects offset raw inside) (λ rest t.
      >>=-FailsOnlyWith (read_varint rest) (read_varint-Rejects rest) (λ (count, size) r.
        >>=-FailsOnlyWith (reject (count == 0) invalid_instruction_data)
          (reject-Rejects (count == 0))
          (λ _ _.
            let start = past_count offset size count raw rest t r in
            >>=-FailsOnlyWith (skip_inputs count raw (offset + size))
              (skip_inputs-Rejects count raw (offset + size))
              (λ end i.
                let (le, in_end) = skip_inputs_inside count raw (offset + size) end start i in
                >>=-FailsOnlyWith (tail end raw) (tail-Rejects end raw in_end) (λ rest' t'.
                  >>=-FailsOnlyWith (read_varint rest') (read_varint-Rejects rest')
                    (λ (count', size') r'.
                      let start' = past_count end size' count' raw rest' t' r' in
                      >>=-FailsOnlyWith (skip_outputs count' raw (end + size'))
                        (skip_outputs-Rejects count' raw (end + size'))
                        (λ last o.
                          let (le', in_last) =
                            skip_outputs_inside count' raw (end + size') last start' o in
                          >>=-FailsOnlyWith (slice_between (offset + size) end raw)
                            (slice_between-Rejects (offset + size) end raw le in_end)
                            (λ _ _.
                              >>=-FailsOnlyWith (slice_between (end + size') last raw)
                                (slice_between-Rejects (end + size') last raw le' in_last)
                                (λ _ _. ok-Rejects _)))))))))

-- `ParsedTransaction::parse` does not panic: on any bytes it gives a transaction or
-- InvalidInstructionData.
pub parse-FailsOnlyWith : (raw : Bytes) → FailsOnlyWith invalid_instruction_data (parse raw)
unfolding parse
parse-FailsOnlyWith raw =
    let short = ltb (length raw) 10 in
    >>=-FailsOnlyWith (reject short invalid_instruction_data) (reject-Rejects short) (λ u h.
      let offset = if has_segwit_marker raw then 6 else 4 in
      parse_from-Rejects offset raw (ground (arith, reject_passed (length raw) 10 u h)))
