-- ===== src/Utxopia/Bitcoin/TxHash.antt =====
-- `compute_tx_hash`: the canonical txid. `sha256` is an argument, since it is a syscall.
use utxopia_solana_programs.Prelude.{
  ℕ, ◌+◌, ◌-◌, ◌++◌, List, [], ◌∷◌, leb, if◌then◌else◌, length, take, drop, Option, none, some,
}
use utxopia_solana_programs.Utxopia.Bytes.{Bytes}
use utxopia_solana_programs.Utxopia.Bitcoin.{segwit_body_end}
use utxopia_solana_programs.Utxopia.Bytes.{between}

-- `alloc_concat`.
abbrev pub concatenate : List Bytes → Bytes
concatenate [] = []
concatenate (part ∷ parts) = part ++ concatenate parts

module _ (sha256 : Bytes → Bytes) where
  unfoldable pub tx_double_sha256 : Bytes → Bytes
  tx_double_sha256 bytes = sha256 (sha256 bytes)

  -- The host build's `sha256_parts`, which puts the parts together.
  unfoldable pub sha256_parts : List Bytes → Bytes
  sha256_parts parts = sha256 (concatenate parts)

  -- The two arms of the match on `segwit_body_end`.
  unfoldable pub tx_hash_at : Option ℕ → Bytes → Bytes
  unfolding tx_double_sha256 sha256_parts
  tx_hash_at none raw_tx = tx_double_sha256 raw_tx
  tx_hash_at (some body_end) raw_tx =
      if leb (body_end + 4) (length raw_tx)
      then sha256 (
          sha256_parts
            (take 4 raw_tx ∷ between 6 body_end raw_tx ∷ drop (length raw_tx - 4) raw_tx ∷ []))
      else tx_double_sha256 raw_tx

  unfoldable pub compute_tx_hash : Bytes → Bytes
  unfolding tx_hash_at segwit_body_end
  compute_tx_hash raw_tx = tx_hash_at (segwit_body_end raw_tx) raw_tx
