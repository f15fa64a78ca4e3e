-- ===== src/LightClient/Initialize/Genesis.antt =====
-- What the parts of `process_initialize` and `process_reinitialize` write.
use utxopia_solana_programs.Prelude.{ℕ, ◌≡◌, ◌≢◌, refl, arith, bytes_eq→eq, bytes_eq_refl}
use utxopia_solana_programs.Prelude.Results.{ok, ◌>>=◌, >>=-eq-ok}
use utxopia_solana_programs.LightClient.State.{
  Bytes, Store, Content, BitcoinLightClient, BlockHeader, HeightIndex, light_client, block_header,
  height_index, light_client_len, block_header_len, height_index_len, put_content,
}
use utxopia_solana_programs.LightClient.Runtime.{Runtime, SystemLaws, create_or_claim_pda}
use utxopia_solana_programs.LightClient.Runtime.Claim.{Keeps, Keeps-trans, create_or_claim_pda_lem}
use utxopia_solana_programs.LightClient.Access.{block_pda, index_pda, write_header, write_index}
use utxopia_solana_programs.LightClient.Headers.Frame.{put_content-Keeps}
use utxopia_solana_programs.LightClient.Initialize.{
  Start, store_genesis_header, store_genesis_index, write_client, create_client,
}

module _ (rt : Runtime) where
  -- An account of the program holds a content, and all other accounts are as before.
  pub record Written (s t : Store) (key : Bytes) (c : Content) : Type 0 where
    pub own : (t key).owner ≡ rt.program_id
    pub held : (t key).content ≡ c
    pub others : (k : Bytes) → k ≢ key → Keeps s t k

  pub Written-at :
      (s t : Store) (c : Content) (key at : Bytes) → key ≡ at → Written s t key c → Written s t at c
  Written-at s t c key at e w = rw (← e) w

  -- The index entry of the first block.
  abbrev pub genesis_index : Start → HeightIndex
  genesis_index start = record {
    bump = (index_pda rt start.height).1;
    block_hash = start.block_hash;
    height = start.height;
  }

module _ (rt : Runtime) (laws : SystemLaws rt) where
  claimed-Written :
      (payer key : Bytes) (lamports space : ℕ) (c : Content) (s u t : Store)
      → create_or_claim_pda rt payer key lamports space s ≡ ok u
      → t ≡ put_content u key c
      → Written rt s t key c
  claimed-Written payer key lamports space c s u t h at =
      let (own, others) = create_or_claim_pda_lem rt laws payer key lamports space s u h in
      record {
        own = rw (at, bytes_eq_refl key) own;
        held = rw (at, bytes_eq_refl key) refl;
        others = λ k ne. rw at (
            Keeps-trans s u (put_content u key c) k (others k ne) (put_content-Keeps u key k c ne));
      }

  write_header_eq :
      (key : Bytes) (header : BlockHeader) (s t : Store)
      → write_header rt key header s ≡ ok t
      → t ≡ put_content s key (block_header header)
  unfolding write_header
  write_header_eq key header s t h = ground arith

  write_index_eq :
      (key : Bytes) (index : HeightIndex) (s t : Store)
      → write_index rt key index s ≡ ok t
      → t ≡ put_content s key (height_index index)
  unfolding write_index
  write_index_eq key index s t h = ground arith

  write_client_eq :
      (key : Bytes) (lc : BitcoinLightClient) (s t : Store)
      → write_client rt key lc s ≡ ok t
      → t ≡ put_content s key (light_client lc)
  unfolding write_client
  write_client_eq key lc s t h = ground arith

  pub create_client-Written :
      (payer key : Bytes) (lc : BitcoinLightClient) (s t : Store)
      → create_client rt payer key lc s ≡ ok t
      → Written rt s t key (light_client lc)
  unfolding create_client
  create_client-Written payer key lc s t h =
      let lamports = rt.minimum_balance light_client_len in
      let (u, c, w) =
        >>=-eq-ok (create_or_claim_pda rt payer key lamports light_client_len s)
          (write_client rt key lc) h in
      claimed-Written payer key lamports light_client_len (light_client lc) s u t c
        (write_client_eq key lc u t w)

  pub store_genesis_header-Written :
      (payer key : Bytes) (header : BlockHeader) (s t : Store)
      → store_genesis_header rt payer key header s ≡ ok t
      → Written rt s t (block_pda rt header.block_hash).0 (block_header header)
  unfolding store_genesis_header
  store_genesis_header-Written payer key header s t h =
      let lamports = rt.minimum_balance block_header_len in
      let at : key ≡ (block_pda rt header.block_hash).0 =
        ground (arith, bytes_eq→eq key (block_pda rt header.block_hash).0) in
      let tail : (create_or_claim_pda rt payer key lamports block_header_len s
            >>= write_header rt key header)
          ≡ ok t =
        ground arith in
      let (u, c, w) =
        >>=-eq-ok (create_or_claim_pda rt payer key lamports block_header_len s)
          (write_header rt key header) tail in
      rw (← at) (
        claimed-Written payer key lamports block_header_len (block_header header) s u t c
          (write_header_eq key header u t w))

  pub store_genesis_index-Written :
      (payer key : Bytes) (start : Start) (s t : Store)
      → store_genesis_index rt payer key start s ≡ ok t
      → Written rt s t (index_pda rt start.height).0 (height_index (genesis_index rt start))
  unfolding store_genesis_index
  store_genesis_index-Written payer key start s t h =
      let lamports = rt.minimum_balance height_index_len in
      let at : key ≡ (index_pda rt start.height).0 =
        ground (arith, bytes_eq→eq key (index_pda rt start.height).0) in
      let tail : (create_or_claim_pda rt payer key lamports height_index_len s
            >>= write_index rt key (genesis_index rt start))
          ≡ ok t =
        ground arith in
      let (u, c, w) =
        >>=-eq-ok (create_or_claim_pda rt payer key lamports height_index_len s)
          (write_index rt key (genesis_index rt start)) tail in
      rw (← at) (
        claimed-Written payer key lamports height_index_len (height_index (genesis_index rt start))
          s u t c (write_index_eq key (genesis_index rt start) u t w))
