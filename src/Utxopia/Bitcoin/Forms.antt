-- ===== src/Utxopia/Bitcoin/Forms.antt =====
-- The two serializations of a transaction: where the body stands, and the marker that tells them
-- apart.
use utxopia_solana_programs.Prelude.{
  ℕ, ◌≤◌, ◌≡◌, refl, ap, sym, ◌∙◌, ◌++◌, [], ◌∷◌, Bool, arith, length, length-append, true, false,
  get_or, get_or-drop,
}
use utxopia_solana_programs.Utxopia.Bytes.{Bytes}
use utxopia_solana_programs.Utxopia.Bitcoin.{has_segwit_marker}
use utxopia_solana_programs.Utxopia.Bitcoin.Varint.{encode_varint, encode_varint_front}
use utxopia_solana_programs.Utxopia.Bitcoin.Serialize.{
  Transaction, Format, legacy, segwit, serialize, IsTransaction, inputs_bytes, outputs_bytes,
  body_bytes,
}
use utxopia_solana_programs.Utxopia.Bitcoin.Position.{At, At_start, At_past, At_length}
use utxopia_solana_programs.Utxopia.Bitcoin.Body.{Body, body}

-- The offset of the input count, and the bytes behind the outputs.
abbrev pub body_start : Format → ℕ
body_start legacy = 4
body_start (segwit _) = 6

abbrev pub behind : Format → Transaction → Bytes
behind legacy tx = tx.locktime
behind (segwit witness) tx = witness ++ tx.locktime

pub At_body :
    (format : Format) (tx : Transaction)
    → IsTransaction format tx
    → At (serialize format tx) (body_start format) (body_bytes tx (behind format tx))
unfolding serialize
At_body legacy tx h =
    At_past (serialize legacy tx) 0 4 tx.version (body_bytes tx tx.locktime)
      (At_start (serialize legacy tx)) h.version
At_body (segwit witness) tx h =
    let raw = serialize (segwit witness) tx in
    let inner = body_bytes tx (witness ++ tx.locktime) in
    At_past raw 4 2 (0 ∷ 1 ∷ []) inner
      (At_past raw 0 4 tx.version (0 ∷ 1 ∷ inner) (At_start raw) h.version) refl

pub body_of :
    (format : Format) (tx : Transaction)
    → IsTransaction format tx
    → Body (serialize format tx) (body_start format) tx (behind format tx)
body_of format tx h =
    body (serialize format tx) (body_start format) tx (behind format tx) h.fits h.inputs
      (At_body format tx h)

abbrev pub is_segwit : Format → Bool
is_segwit legacy = false
is_segwit (segwit _) = true

pub has_segwit_marker-serialize :
    (format : Format) (tx : Transaction)
    → IsTransaction format tx
    → has_segwit_marker (serialize format tx) ≡ is_segwit format
unfolding has_segwit_marker serialize
has_segwit_marker-serialize legacy tx h =
    let raw = serialize legacy tx in
    let (b, t, e, positive) =
      encode_varint_front (length tx.vin)
        (inputs_bytes tx.vin (encode_varint (length tx.vout) ++ outputs_bytes tx.vout tx.locktime))
        h.some_input in
    let at = At_body legacy tx h in
    let first : get_or raw 4 0 ≡ b =
      sym (get_or-drop 4 0 raw 0) ∙ ap (λ bytes. get_or bytes 0 0) (at.from_here ∙ e) in
    rw first (ground arith)
has_segwit_marker-serialize (segwit witness) tx h =
    let raw = serialize (segwit witness) tx in
    let at =
      At_past raw 0 4 tx.version (0 ∷ 1 ∷ body_bytes tx (witness ++ tx.locktime)) (At_start raw)
        h.version in
    let zero_byte : get_or raw 4 0 ≡ 0 =
      sym (get_or-drop 4 0 raw 0) ∙ ap (λ bytes. get_or bytes 0 0) at.from_here in
    let one_byte : get_or raw 5 0 ≡ 1 =
      sym (get_or-drop 4 1 raw 0) ∙ ap (λ bytes. get_or bytes 1 0) at.from_here in
    rw (zero_byte, one_byte) refl

pub long_enough :
    (format : Format) (tx : Transaction)
    → IsTransaction format tx
    → 10 ≤ length (serialize format tx)
long_enough legacy tx h =
    let b = body_of legacy tx h in
    omega
      (arith, b.wide, h.locktime, At_length (serialize legacy tx) b.outputs_end tx.locktime b.ends)
long_enough (segwit witness) tx h =
    let b = body_of (segwit witness) tx h in
    omega (
      arith,
      b.wide,
      h.locktime,
      length-append witness tx.locktime,
      At_length (serialize (segwit witness) tx) b.outputs_end (witness ++ tx.locktime) b.ends,
    )
