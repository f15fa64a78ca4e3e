-- ===== src/Utxopia/Bitcoin/RoundTrip.antt =====
-- `ParsedTransaction::parse` and `compute_tx_hash` on Bitcoin's serializations of a transaction.
use mathlib.Core.List.{append-nil}
use utxopia_solana_programs.Prelude.{
  ℕ, ◌+◌, ◌-◌, ◌≤◌, ◌<◌, ◌≡◌, refl, ap, ◌∙◌, ◌++◌, [], ◌∷◌, map, arith, length, drop, take, le→ltb,
  le→leb, ◌==◌, Bool, if◌then◌else◌, true, false, some, none,
}
use utxopia_solana_programs.Prelude.Results.{ok}
use utxopia_solana_programs.Utxopia.Bytes.{Bytes, between}
use utxopia_solana_programs.Utxopia.Bitcoin.{
  ParsedTransaction, parse_from, parse, body_end_from, has_segwit_marker, segwit_body_end,
}
use utxopia_solana_programs.Utxopia.Bitcoin.Serialize.{
  Transaction, Format, legacy, segwit, serialize, IsTransaction, inputs_bytes, outputs_bytes,
  body_bytes,
}
use utxopia_solana_programs.Utxopia.Bitcoin.Outputs.{outputs}
use utxopia_solana_programs.Utxopia.Bitcoin.Inputs.{inputs}
use utxopia_solana_programs.Utxopia.Bitcoin.TxHash.{
  compute_tx_hash, concatenate, sha256_parts, tx_hash_at, tx_double_sha256,
}
use utxopia_solana_programs.Utxopia.Bitcoin.Position.{
  At_start, At_past, At_take, At_as, At_between, At_length,
}
use utxopia_solana_programs.Utxopia.Bitcoin.Iterate.{
  outpoint, items-inputs_bytes, items-outputs_bytes,
}
use utxopia_solana_programs.Utxopia.Bitcoin.Agreement.{
  skip_inputs?-skip_inputs, skip_outputs?-skip_outputs,
}
use utxopia_solana_programs.Utxopia.Bitcoin.Body.{Body, body_bytes-append}
use utxopia_solana_programs.Utxopia.Bitcoin.Forms.{
  body_start, behind, is_segwit, At_body, body_of, has_segwit_marker-serialize, long_enough,
}

not_zero : (n : ℕ) → 0 < n → (n == 0) ≡ false
not_zero n h = ground arith

abbrev parsed : Transaction → ParsedTransaction
parsed tx = record {
  inputs_data = inputs_bytes tx.vin [];
  input_count = length tx.vin;
  outputs_data = outputs_bytes tx.vout [];
  output_count = length tx.vout;
}

parse_from-Body :
    (raw : Bytes) (offset : ℕ) (tx : Transaction) (rest : Bytes)
    → Body raw offset tx rest
    → 0 < length tx.vin
    → parse_from offset raw ≡ ok (parsed tx)
unfolding parse_from
parse_from-Body raw offset tx rest b some_input =
    rw
      (
        le→ltb (length raw) offset b.offset_inside,
        b.count_read,
        not_zero (length tx.vin) some_input,
        b.inputs_skipped,
        le→ltb (length raw) b.inputs_end b.inputs_end_inside,
        b.output_count_read,
        b.outputs_skipped,
        le→ltb b.inputs_end (offset + b.input_size) b.inputs_forward,
        le→ltb b.outputs_end (b.inputs_end + b.output_size) b.outputs_forward,
        le→ltb (length raw) b.outputs_end b.ends.inside,
        b.inputs_between,
        b.outputs_between,
      )
      refl

body_end_from-Body :
    (raw : Bytes) (offset : ℕ) (tx : Transaction) (rest : Bytes) (b : Body raw offset tx rest)
    → 0 < length tx.vin
    → body_end_from offset raw ≡ some b.outputs_end
unfolding body_end_from
body_end_from-Body raw offset tx rest b some_input =
    rw
      (
        le→ltb (length raw) offset b.offset_inside,
        b.count_read,
        not_zero (length tx.vin) some_input,
        skip_inputs?-skip_inputs (length tx.vin) raw (offset + b.input_size),
        b.inputs_skipped,
        le→ltb (length raw) b.inputs_end b.inputs_end_inside,
        b.output_count_read,
        skip_outputs?-skip_outputs (length tx.vout) raw (b.inputs_end + b.output_size),
        b.outputs_skipped,
      )
      refl

parse_lem :
    (raw : Bytes)
    → 10 ≤ length raw
    → parse raw ≡ parse_from (if has_segwit_marker raw then 6 else 4) raw
unfolding parse
parse_lem raw h = rw (le→ltb (length raw) 10 h) refl

body_start_marked :
    (format : Format) (marked : Bool)
    → marked ≡ is_segwit format
    → (if marked then 6 else 4) ≡ body_start format
body_start_marked legacy marked e = rw e refl
body_start_marked (segwit witness) marked e = rw e refl

segwit_body_end-none :
    (raw : Bytes) → 10 ≤ length raw → has_segwit_marker raw ≡ false → segwit_body_end raw ≡ none
unfolding segwit_body_end
segwit_body_end-none raw h unmarked = rw (le→ltb (length raw) 10 h, unmarked) refl

segwit_body_end-some :
    (raw : Bytes)
    → 10 ≤ length raw
    → has_segwit_marker raw ≡ true
    → segwit_body_end raw ≡ body_end_from 6 raw
unfolding segwit_body_end
segwit_body_end-some raw h marked = rw (le→ltb (length raw) 10 h, marked) refl

-- `ParsedTransaction::parse` accepts a transaction in the legacy and in the segwit serialization, and
-- iterating what it returns gives back the outpoints that the inputs spend and the outputs.
pub parse-serialize :
    (format : Format) (tx : Transaction)
    → IsTransaction format tx
    → (p : ParsedTransaction) × (parse (serialize format tx) ≡ ok p)
      × (inputs p ≡ map outpoint tx.vin)
      × (outputs p ≡ tx.vout)
unfolding parse inputs outputs
parse-serialize format tx h =
    let raw = serialize format tx in
    let b = body_of format tx h in
    (
      parsed tx,
      parse_lem raw (long_enough format tx h)
          ∙ (ap (λ (k : ℕ). parse_from k raw)
                (body_start_marked format (has_segwit_marker raw)
                  (has_segwit_marker-serialize format tx h))
              ∙ parse_from-Body raw (body_start format) tx (behind format tx) b h.some_input),
      items-inputs_bytes (inputs_bytes tx.vin []) tx.vin [] 0
          (omega (arith, b.inputs_small, h.fits)) h.inputs (At_start (inputs_bytes tx.vin [])),
      items-outputs_bytes (outputs_bytes tx.vout []) tx.vout [] 0
          (omega (arith, b.outputs_small, h.fits)) h.outputs (At_start (outputs_bytes tx.vout [])),
    )

-- The three parts that are hashed make up the legacy serialization.
stripped :
    (witness : Bytes) (tx : Transaction) (h : IsTransaction (segwit witness) tx)
    → let raw = serialize (segwit witness) tx in
      let end = (body_of (segwit witness) tx h).outputs_end in
      (end + 4 ≤ length raw)
      × (concatenate (take 4 raw ∷ between 6 end raw ∷ drop (length raw - 4) raw ∷ [])
          ≡ serialize legacy tx)
unfolding serialize
stripped witness tx h =
    let raw = serialize (segwit witness) tx in
    let b = body_of (segwit witness) tx h in
    let rest = witness ++ tx.locktime in
    let split = At_body (segwit witness) tx h in
    let front = At_take raw 0 4 tx.version (0 ∷ 1 ∷ body_bytes tx rest) (At_start raw) h.version in
    let middle =
      At_between raw 6 b.outputs_end (body_bytes tx []) rest
        (At_as raw 6 (body_bytes-append tx rest) split) b.ends in
    let last = At_past raw b.outputs_end (length witness) witness tx.locktime b.ends refl in
    let width = At_length raw (b.outputs_end + length witness) tx.locktime last in
    let place : length raw - 4 ≡ b.outputs_end + length witness =
      omega (arith, width, h.locktime) in
    let back : drop (length raw - 4) raw ≡ tx.locktime =
      ap (λ (k : ℕ). drop k raw) place ∙ last.from_here in
    (
      omega (arith, width, h.locktime),
      rw (front, middle, back, append-nil tx.locktime, body_bytes-append tx tx.locktime) refl,
    )

module _ (sha256 : Bytes → Bytes) where
  none_lem : (raw : Bytes) → tx_hash_at sha256 none raw ≡ sha256 (sha256 raw)
  unfolding tx_hash_at tx_double_sha256
  none_lem raw = refl

  some_lem :
      (raw : Bytes) (end : ℕ)
      → end + 4 ≤ length raw
      → tx_hash_at sha256 (some end) raw
        ≡ sha256
            (sha256 (concatenate (take 4 raw ∷ between 6 end raw ∷ drop (length raw - 4) raw ∷ [])))
  unfolding tx_hash_at sha256_parts
  some_lem raw end h = rw (le→leb (end + 4) (length raw) h) refl

  compute_tx_hash-none :
      (raw : Bytes) → segwit_body_end raw ≡ none → compute_tx_hash sha256 raw ≡ sha256 (sha256 raw)
  unfolding compute_tx_hash
  compute_tx_hash-none raw e = ap (λ end. tx_hash_at sha256 end raw) e ∙ none_lem raw

  compute_tx_hash-some :
      (raw : Bytes) (end : ℕ)
      → segwit_body_end raw ≡ some end
      → end + 4 ≤ length raw
      → compute_tx_hash sha256 raw
        ≡ sha256
            (sha256 (concatenate (take 4 raw ∷ between 6 end raw ∷ drop (length raw - 4) raw ∷ [])))
  unfolding compute_tx_hash
  compute_tx_hash-some raw end e h = ap (λ end. tx_hash_at sha256 end raw) e ∙ some_lem raw end h

  -- The txid of a transaction is the double SHA-256 of its legacy serialization, whether
  -- `compute_tx_hash` is given the legacy serialization or the segwit one with any witness bytes.
  pub compute_tx_hash-serialize :
      (format : Format) (tx : Transaction)
      → IsTransaction format tx
      → compute_tx_hash sha256 (serialize format tx) ≡ sha256 (sha256 (serialize legacy tx))
  compute_tx_hash-serialize legacy tx h = compute_tx_hash-none (serialize legacy tx) (
      segwit_body_end-none (serialize legacy tx) (long_enough legacy tx h)
        (has_segwit_marker-serialize legacy tx h))
  compute_tx_hash-serialize (segwit witness) tx h =
      let raw = serialize (segwit witness) tx in
      let b = body_of (segwit witness) tx h in
      let (fits, same) = stripped witness tx h in
      compute_tx_hash-some raw b.outputs_end
        (segwit_body_end-some raw (long_enough (segwit witness) tx h)
            (has_segwit_marker-serialize (segwit witness) tx h)
          ∙ body_end_from-Body raw 6 tx (witness ++ tx.locktime) b h.some_input)
        fits
      ∙ ap (λ bytes. sha256 (sha256 bytes)) same
