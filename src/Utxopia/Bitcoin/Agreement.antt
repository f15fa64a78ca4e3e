-- ===== src/Utxopia/Bitcoin/Agreement.antt =====
-- `segwit_body_end` and `ParsedTransaction::parse` accept the same segwit transactions.
use utxopia_solana_programs.Prelude.{
  ℕ, zero, suc, ◌+◌, ◌≡◌, refl, inl, inr, Bool, true, false, ltb, le→ltb, ◌==◌, length, drop,
  Option, none, some, Bool-cases, Option-cases,
}
use utxopia_solana_programs.Prelude.Results.{Result, ok, is_ok, Result-cases, ◌>>=◌}
use utxopia_solana_programs.Utxopia.Bytes.{Bytes, to_option, tail}
use utxopia_solana_programs.Utxopia.Bitcoin.{
  read_varint, script_end, input_end, skip_inputs, skip_inputs?, skip_outputs, skip_outputs?,
  parse_from, parse, body_end_from, segwit_body_end, has_segwit_marker,
}
use utxopia_solana_programs.Utxopia.Bitcoin.Bounds.{
  past_count, skip_inputs_inside, skip_outputs_inside, slice_between_ok,
}

abbrev pub is_some {ℓ} : {A : Type ℓ} → Option A → Bool
is_some none = false
is_some (some a) = true

pub skip_inputs?-skip_inputs :
    (count : ℕ) (raw : Bytes) (offset : ℕ)
    → skip_inputs? count raw offset ≡ to_option (skip_inputs count raw offset)
unfolding skip_inputs? skip_inputs
skip_inputs?-skip_inputs zero raw offset = refl
skip_inputs?-skip_inputs (suc count) raw offset =
    elim (Bool-cases (ltb (length raw) (offset + 36))) [
      | inl e ↦ rw e refl
      | inr e ↦ elim (Result-cases (read_varint (drop (offset + 36) raw))) [
        | inl (_, r) ↦ rw (e, r) refl
        | inr ((len, size), r) ↦ elim (Option-cases (input_end (offset + 36) size len)) [
          | inl n ↦ rw (e, r, n) refl
          | inr (end, n) ↦ elim (Bool-cases (ltb (length raw) end)) [
            | inl b ↦ rw (e, r, n, b) refl
            | inr b ↦ rw (e, r, n, b) (skip_inputs?-skip_inputs count raw end)
          ]
        ]
      ]
    ]

pub skip_outputs?-skip_outputs :
    (count : ℕ) (raw : Bytes) (offset : ℕ)
    → skip_outputs? count raw offset ≡ to_option (skip_outputs count raw offset)
unfolding skip_outputs? skip_outputs
skip_outputs?-skip_outputs zero raw offset = refl
skip_outputs?-skip_outputs (suc count) raw offset =
    elim (Bool-cases (ltb (length raw) (offset + 8))) [
      | inl e ↦ rw e refl
      | inr e ↦ elim (Result-cases (read_varint (drop (offset + 8) raw))) [
        | inl (_, r) ↦ rw (e, r) refl
        | inr ((len, size), r) ↦ elim (Option-cases (script_end (offset + 8) size len)) [
          | inl n ↦ rw (e, r, n) refl
          | inr (end, n) ↦ elim (Bool-cases (ltb (length raw) end)) [
            | inl b ↦ rw (e, r, n, b) refl
            | inr b ↦ rw (e, r, n, b) (skip_outputs?-skip_outputs count raw end)
          ]
        ]
      ]
    ]

-- Behind the two counts, when what follows the loop over the outputs succeeds.
skipped_outputs :
    {T : Type 0} (next : ℕ → Result T) (count : ℕ) (raw : Bytes) (offset : ℕ)
    → ((last : ℕ) → skip_outputs count raw offset ≡ ok last → is_ok (next last) ≡ true)
    → is_some (skip_outputs? count raw offset) ≡ is_ok (skip_outputs count raw offset >>= next)
skipped_outputs next count raw offset succeeds =
    elim (Result-cases (skip_outputs count raw offset)) [
      | inl (_, e) ↦ rw (skip_outputs?-skip_outputs count raw offset, e) refl
      | inr (last, e) ↦ rw (skip_outputs?-skip_outputs count raw offset, e, succeeds last e) refl
    ]

tail_eq :
    (offset : ℕ) (raw : Bytes)
    → ltb (length raw) offset ≡ false
    → tail offset raw ≡ ok (drop offset raw)
tail_eq offset raw e = rw e refl

body_end_from-parse_from :
    (offset : ℕ) (raw : Bytes) → is_some (body_end_from offset raw) ≡ is_ok (parse_from offset raw)
unfolding body_end_from parse_from
body_end_from-parse_from offset raw = elim (Bool-cases (ltb (length raw) offset)) [
  | inl e ↦ rw e refl
  | inr e ↦ elim (Result-cases (read_varint (drop offset raw))) [
    | inl (_, r) ↦ rw (e, r) refl
    | inr ((count, size), r) ↦ elim (Bool-cases (count == 0)) [
      | inl z ↦ rw (e, r, z) refl
      | inr z ↦ elim (Result-cases (skip_inputs count raw (offset + size))) [
        | inl (_, i) ↦ rw (e, r, z, skip_inputs?-skip_inputs count raw (offset + size), i) refl
        | inr (end, i) ↦ elim (Bool-cases (ltb (length raw) end)) [
          | inl o ↦ rw (e, r, z, skip_inputs?-skip_inputs count raw (offset + size), i, o) refl
          | inr o ↦ elim (Result-cases (read_varint (drop end raw))) [
            | inl (_, r') ↦
                rw (e, r, z, skip_inputs?-skip_inputs count raw (offset + size), i, o, r') refl
            | inr ((count', size'), r') ↦
                rw (e, r, z, skip_inputs?-skip_inputs count raw (offset + size), i, o, r')
                  (skipped_outputs _ count' raw (end + size') (λ last k.
                    let (le, _) =
                      skip_inputs_inside count raw (offset + size) end
                        (past_count offset size count raw _ (tail_eq offset raw e) r) i in
                    let (le', fits') =
                      skip_outputs_inside count' raw (end + size') last
                        (past_count end size' count' raw _ (tail_eq end raw o) r') k in
                    rw
                      (
                        le→ltb end (offset + size) le,
                        slice_between_ok (end + size') last raw le' fits',
                      )
                      refl))
          ]
        ]
      ]
    ]
  ]
]

-- On bytes with the segwit marker, `segwit_body_end` finds the end of the outputs exactly when
-- `ParsedTransaction::parse` accepts the bytes.
pub segwit_body_end-parse :
    (raw : Bytes) → has_segwit_marker raw ≡ true → is_some (segwit_body_end raw) ≡ is_ok (parse raw)
unfolding segwit_body_end parse
segwit_body_end-parse raw marked = elim (Bool-cases (ltb (length raw) 10)) [
  | inl e ↦ rw (marked, e) refl
  | inr e ↦ rw (marked, e) (body_end_from-parse_from 6 raw)
]
