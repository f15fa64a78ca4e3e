-- ===== src/LightClient/Extend/Index.antt =====
-- Which accounts the canonical index of a batch changes.
use utxopia_solana_programs.Prelude.{
  ℕ, zero, suc, ◌+◌, ◌*◌, ◌≡◌, ◌≢◌, ◌<◌, inl, inr, refl, ◌∙◌, Option-cases, get_elem?, bytes_eq→eq,
  arith,
}
use utxopia_solana_programs.Prelude.Numbers.{u64_mod}
use utxopia_solana_programs.Prelude.Results.{ok, >>=-eq-ok}
use utxopia_solana_programs.LightClient.State.{
  Bytes, Store, HeightIndex, height_index, height_index_len,
}
use utxopia_solana_programs.LightClient.Runtime.{Runtime, SystemLaws, double_sha256}
use utxopia_solana_programs.LightClient.Runtime.Claim.{
  Keeps, Keeps-trans, create_or_claim_pda-Keeps,
}
use utxopia_solana_programs.LightClient.Access.{slice, index_pda, write_index}
use utxopia_solana_programs.LightClient.Headers.{Batch}
use utxopia_solana_programs.LightClient.Headers.Frame.{put_content-Keeps}
use utxopia_solana_programs.LightClient.Extend.{claim_index, store_index, index_block, index_blocks}

module _ (rt : Runtime) (laws : SystemLaws rt) where
  write_index-Keeps :
      (key k : Bytes) (index : HeightIndex) (s t : Store)
      → write_index rt key index s ≡ ok t
      → k ≢ key
      → Keeps s t k
  unfolding write_index
  write_index-Keeps key k index s t h ne =
      ground (arith, put_content-Keeps s key k (height_index index) ne)

  claim_index-Keeps :
      (batch : Batch) (height : ℕ) (key : Bytes) (s t : Store) (k : Bytes)
      → claim_index rt batch height key s ≡ ok t
      → k ≢ (index_pda rt height).0
      → Keeps s t k × (key ≡ (index_pda rt height).0)
  unfolding claim_index
  claim_index-Keeps batch height key s t k h ne = ground (
    arith,
    bytes_eq→eq key (index_pda rt height).0,
    create_or_claim_pda-Keeps rt laws batch.submitter key (rt.minimum_balance height_index_len)
        height_index_len s t k,
  )

  store_index-Keeps :
      (batch : Batch) (height : ℕ) (hash key : Bytes) (s t : Store) (k : Bytes)
      → store_index rt batch height hash key s ≡ ok t
      → k ≢ (index_pda rt height).0
      → Keeps s t k
  unfolding store_index
  store_index-Keeps batch height hash key s t k h ne =
      let index : HeightIndex = record {
        bump = (index_pda rt height).1;
        block_hash = hash;
        height = height;
      } in
      let (u, c, w) = >>=-eq-ok (claim_index rt batch height key s) (write_index rt key index) h in
      let (kept, at) = claim_index-Keeps batch height key s u k c ne in
      Keeps-trans s u t k kept (write_index-Keeps key k index u t w (λ e. ne (e ∙ at)))

  index_block-Keeps :
      (batch : Batch) (bytes : Bytes) (n parent i : ℕ) (s t : Store) (k : Bytes)
      → index_block rt batch bytes n parent i s ≡ ok t
      → ((height : ℕ) → parent < height → height < u64_mod → k ≢ (index_pda rt height).0)
      → Keeps s t k
  unfolding index_block
  index_block-Keeps batch bytes n parent i s t k h ne =
      let height = parent + 1 + i in
      let other = ne height (omega arith) in
      elim (Option-cases (get_elem? batch.accounts (4 + n + i))) [
        | inl missing ↦ ground arith
        | inr (info, found) ↦ ground (
          arith,
          store_index-Keeps batch height (double_sha256 rt (slice (1 + i * 80) 80 bytes)) info.key s
              t k,
          other,
        )
      ]

  -- The index of a batch on a parent changes only the entries of heights above the parent.
  pub index_blocks-Keeps :
      (batch : Batch) (bytes : Bytes) (n parent rounds i : ℕ) (s t : Store) (k : Bytes)
      → index_blocks rt batch bytes n parent rounds i s ≡ ok t
      → ((height : ℕ) → parent < height → height < u64_mod → k ≢ (index_pda rt height).0)
      → Keeps s t k
  unfolding index_blocks
  index_blocks-Keeps batch bytes n parent zero i s t k h ne =
      let e : s ≡ t = cc in rw (← e) (refl, refl)
  index_blocks-Keeps batch bytes n parent (suc rounds) i s t k h ne =
      let (u, first, rest) =
        >>=-eq-ok (index_block rt batch bytes n parent i s)
          (index_blocks rt batch bytes n parent rounds (suc i)) h in
      Keeps-trans s u t k (index_block-Keeps batch bytes n parent i s u k first ne)
        (index_blocks-Keeps batch bytes n parent rounds (suc i) u t k rest ne)
