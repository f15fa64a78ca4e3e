-- ===== src/LightClient/Extend/Safety.antt =====
-- What a successful `process_extend_blockchain` guarantees.
use utxopia_solana_programs.Prelude.{ℕ, ◌≡◌, ◌≤◌, ◌<◌, refl, List, [], ◌∷◌, arith, some, get_elem?}
use utxopia_solana_programs.Prelude.Results.{ok}
use utxopia_solana_programs.LightClient.State.{
  Bytes, Store, AccountInfo, BitcoinLightClient, BlockHeader, light_client,
}
use utxopia_solana_programs.LightClient.Runtime.{Runtime, SystemLaws}
use utxopia_solana_programs.Prelude.Numbers.{u64_mod}
use utxopia_solana_programs.LightClient.Access.{index_pda}
use utxopia_solana_programs.LightClient.Headers.{Batch}
use utxopia_solana_programs.LightClient.Extend.{
  Request, parse_request, run_batch, chain_from, process_extend_blockchain,
}
use utxopia_solana_programs.LightClient.Extend.Effects.{
  Addresses, Advanced, Outcome, run_batch-Outcome,
}

parse_request-pos :
    (accounts : List AccountInfo) (bytes : Bytes) (request : Request)
    → parse_request accounts bytes ≡ ok request
    → 0 < request.headers
unfolding parse_request
parse_request-pos accounts [] request h = ground arith
parse_request-pos accounts (n ∷ rest) request h = ground arith

-- A call that succeeds has passed its checks and run a batch.
extend_inversion :
    (rt : Runtime) (P : Type 0) (accounts : List AccountInfo) (bytes : Bytes) (s t : Store)
    (info : AccountInfo) (lc : BitcoinLightClient)
    → get_elem? accounts 0 ≡ some info
    → (s info.key).content ≡ light_client lc
    → ((batch : Batch) (n : ℕ) (parent : BlockHeader) (window : List ℕ)
        → 0 < n
        → run_batch rt batch bytes info.key n lc parent (chain_from rt s lc parent window) ≡ ok t
        → P)
    → process_extend_blockchain rt accounts bytes s ≡ ok t
    → P
unfolding process_extend_blockchain
extend_inversion rt P accounts bytes s t info lc found e k h =
    grind (arith, parse_request-pos accounts bytes)

module _ (rt : Runtime) (laws : SystemLaws rt) (lc_key : Bytes)
    (addresses : Addresses rt lc_key) where
  from_chain :
      (batch : Batch) (bytes : Bytes) (n : ℕ) (s t : Store) (lc : BitcoinLightClient)
      (parent : BlockHeader) (window : List ℕ)
      → (s lc_key).content ≡ light_client lc
      → 0 < n
      → run_batch rt batch bytes lc_key n lc parent (chain_from rt s lc parent window) ≡ ok t
      → Outcome rt laws lc_key addresses lc s t
  unfolding chain_from
  from_chain batch bytes n s t lc parent window e pos h =
      run_batch-Outcome rt laws lc_key addresses batch bytes n lc parent
        (chain_from rt s lc parent window) t e pos refl h

  -- An extension that succeeds.
  pub extend_blockchain_safe :
      (accounts : List AccountInfo) (bytes : Bytes) (s t : Store) (info : AccountInfo)
      (lc : BitcoinLightClient)
      → get_elem? accounts 0 ≡ some info
      → info.key ≡ lc_key
      → (s lc_key).content ≡ light_client lc
      → process_extend_blockchain rt accounts bytes s ≡ ok t
      → Outcome rt laws lc_key addresses lc s t
  extend_blockchain_safe accounts bytes s t info lc found key e h =
      extend_inversion rt (Outcome rt laws lc_key addresses lc s t) accounts bytes s t info lc found
        (rw key e)
        (λ batch n parent window pos ran.
          from_chain batch bytes n s t lc parent window e pos (rw key at ran))
        h

  -- A batch that is accepted never changes the canonical index entry of a finalized height: the
  -- block that the index names at a height up to the finalized height stays the same.
  pub extend_keeps_finalized :
      (accounts : List AccountInfo) (bytes : Bytes) (s t : Store) (info : AccountInfo)
      (lc : BitcoinLightClient) (height : ℕ)
      → get_elem? accounts 0 ≡ some info
      → info.key ≡ lc_key
      → (s lc_key).content ≡ light_client lc
      → process_extend_blockchain rt accounts bytes s ≡ ok t
      → height ≤ lc.finalized_height
      → height < u64_mod
      → (t (index_pda rt height).0).content ≡ (s (index_pda rt height).0).content
  extend_keeps_finalized accounts bytes s t info lc height found key e h final fits =
      (extend_blockchain_safe accounts bytes s t info lc found key e h).kept height final fits

  -- A batch that is accepted leaves a light client that follows the same chain instance. Its tip,
  -- chainwork and finalized height are as before, or the chainwork is strictly larger, the new tip is
  -- above the old finalized height, and the finalized height is the larger of the old one and the new
  -- tip less five.
  pub extend_advances :
      (accounts : List AccountInfo) (bytes : Bytes) (s t : Store) (info : AccountInfo)
      (lc : BitcoinLightClient)
      → get_elem? accounts 0 ≡ some info
      → info.key ≡ lc_key
      → (s lc_key).content ≡ light_client lc
      → process_extend_blockchain rt accounts bytes s ≡ ok t
      → Advanced lc t lc_key
  extend_advances accounts bytes s t info lc found key e h =
      (extend_blockchain_safe accounts bytes s t info lc found key e h).advanced
