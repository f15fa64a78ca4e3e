-- ===== src/LightClient/VerifyTransaction/Inclusion.antt =====
-- What a successful `process_verify_transaction` attests.
use utxopia_solana_programs.Prelude.{
  refl, ℕ, zero, suc, ◌+◌, ◌*◌, ◌/◌, ◌%◌, ◌^◌, ◌≡◌, ◌≢◌, ◌≤◌, ◌∙◌, true, false, Bool-cases, inl,
  inr, List, arith, ◌==◌, ◌⊎◌, bytes_eq, bytes_eq→eq, bytes_eq_refl, ltb, sym, length, drop,
  length-take, length-drop,
}
use utxopia_solana_programs.Prelude.Results.{ok, ◌>>=◌, >>=-eq-ok}
use utxopia_solana_programs.LightClient.State.{
  Bytes, Store, AccountInfo, BitcoinLightClient, BlockHeader, HeightIndex, VerifiedTransaction,
  light_client, block_header, height_index, verified_transaction, verified_transaction_len,
  put_content,
}
use utxopia_solana_programs.LightClient.Runtime.{
  Runtime, SystemLaws, double_sha256, double_sha256_pair, create_or_claim_pda,
}
use utxopia_solana_programs.LightClient.Runtime.Claim.{Keeps, Keeps-trans, create_or_claim_pda_lem}
use utxopia_solana_programs.LightClient.Access.{slice, block_pda, index_pda}
use utxopia_solana_programs.LightClient.Headers.Frame.{put_content-Keeps}
use utxopia_solana_programs.LightClient.VerifyTransaction.{
  Claim, claim_of, read_block, check_canonical, check_transaction, merkle_loop, check_inclusion,
  verified_pda, is_verified, record_verified, write_verified, new_verified,
  process_verify_transaction,
}

length-slice :
    (at size : ℕ) (bytes : Bytes) → at + size ≤ length bytes → length (slice at size bytes) ≡ size
unfolding slice
length-slice at size bytes h =
    length-take size (drop at bytes) (omega (arith, length-drop at bytes (omega arith)))

module _ (rt : Runtime) where
  -- A node that stands some levels under another in a tree of pair hashes.
  pub data Under : Bytes → Bytes → ℕ → Type 0 where
    same : (node : Bytes) → Under node node 0
    left :
        {node parent : Bytes} {levels : ℕ} (sibling : Bytes)
        → Under node parent levels
        → Under node (double_sha256_pair rt parent sibling) (suc levels)
    right :
        {node parent : Bytes} {levels : ℕ} (sibling : Bytes)
        → Under node parent levels
        → Under node (double_sha256_pair rt sibling parent) (suc levels)

  merkle_loop-Under :
      (claim : Claim) (node current : Bytes) (rounds i levels n : ℕ)
      → levels + rounds ≡ n
      → Under node current levels
      → Under node (merkle_loop rt claim rounds i current) n
  unfolding merkle_loop
  merkle_loop-Under claim node current zero i levels n e u =
      let e' : levels ≡ n = omega arith in rw (← e') u
  merkle_loop-Under claim node current (suc rounds) i levels n e u =
      let sibling = slice (i * 32) 32 claim.siblings in
      elim (Bool-cases (claim.path_bits / 2 ^ i % 2 == 1)) [
        | inl is_right ↦ rw is_right (
            merkle_loop-Under claim node (double_sha256_pair rt sibling current) rounds (suc i)
              (suc levels) n (omega arith) (right sibling u))
        | inr is_left ↦ rw is_left (
            merkle_loop-Under claim node (double_sha256_pair rt current sibling) rounds (suc i)
              (suc levels) n (omega arith) (left sibling u))
      ]

  -- The transaction of a claim is in a canonical, finalized block.
  pub record Attested (s : Store) (claim : Claim) : Type 0 where
    pub client_key : Bytes
    pub client : BitcoinLightClient
    pub header : BlockHeader
    pub index : HeightIndex
    pub raw_transaction : Bytes
    pub own_client : (s client_key).owner ≡ rt.program_id
    pub stored_client : (s client_key).content ≡ light_client client
    pub own_header : (s (block_pda rt claim.block_hash).0).owner ≡ rt.program_id
    pub stored_header : (s (block_pda rt claim.block_hash).0).content ≡ block_header header
    pub own_index : (s (index_pda rt header.height).0).owner ≡ rt.program_id
    pub stored_index : (s (index_pda rt header.height).0).content ≡ height_index index
    pub hash_matches : header.block_hash ≡ claim.block_hash
    pub canonical : index.block_hash ≡ claim.block_hash
    pub finalized : header.height ≤ client.finalized_height
    pub hashed : double_sha256 rt raw_transaction ≡ claim.txid
    pub size : length raw_transaction ≡ claim.tx_size
    pub not_inner_node : length raw_transaction ≢ 64
    pub included : Under claim.txid header.merkle_root claim.path_len

  read_block_lem :
      (s : Store) (key : Bytes) (claim : Claim) (header : BlockHeader)
      → read_block rt s key claim ≡ ok header
      → ((s key).content ≡ block_header header) × (header.block_hash ≡ claim.block_hash)
  unfolding read_block
  read_block_lem s key claim header h =
      ground (arith, bytes_eq→eq header.block_hash claim.block_hash)

  check_canonical_lem :
      (s : Store) (key : Bytes) (claim : Claim) (header : BlockHeader)
      → check_canonical rt s key claim header ≡ ok tt
      → (index : HeightIndex) × ((s key).content ≡ height_index index)
        × (key ≡ (index_pda rt header.height).0)
        × (bytes_eq index.block_hash claim.block_hash ≡ true)
  unfolding check_canonical
  check_canonical_lem s key claim header h =
      ground (arith, bytes_eq→eq key (index_pda rt header.height).0)

  check_transaction_lem :
      (buffer : Bytes) (claim : Claim)
      → check_transaction rt buffer claim ≡ ok tt
      → let bytes = slice 32 claim.tx_size buffer in
        (double_sha256 rt bytes ≡ claim.txid)
        × (length bytes ≡ claim.tx_size)
        × (claim.tx_size ≢ 64)
  unfolding check_transaction
  check_transaction_lem buffer claim h = ground (
    arith,
    bytes_eq→eq (double_sha256 rt (slice 32 claim.tx_size buffer)) claim.txid,
    length-slice 32 claim.tx_size buffer,
  )

  check_inclusion_lem :
      (claim : Claim) (header : BlockHeader)
      → check_inclusion rt claim header ≡ ok tt
      → Under claim.txid header.merkle_root claim.path_len
  unfolding check_inclusion
  check_inclusion_lem claim header h =
      let root = merkle_loop rt claim claim.path_len 0 claim.txid in
      let at : root ≡ header.merkle_root = ground (arith, bytes_eq→eq root header.merkle_root) in
      rw (← at) (
        merkle_loop-Under claim claim.txid claim.txid claim.path_len 0 0 claim.path_len
          (omega arith) (same claim.txid))

-- A call that succeeds has passed its checks and recorded the transaction.
verify_inversion :
    (rt : Runtime) (P : Type 0) (accounts : List AccountInfo) (bytes : Bytes) (s t : Store)
    → ((payer receipt client_key header_key index_key buffer : Bytes) (client : BitcoinLightClient)
          (header : BlockHeader)
        → bytes_eq (s client_key).owner rt.program_id ≡ true
        → bytes_eq (s header_key).owner rt.program_id ≡ true
        → bytes_eq (s index_key).owner rt.program_id ≡ true
        → read_block rt s header_key (claim_of bytes) ≡ ok header
        → check_canonical rt s index_key (claim_of bytes) header ≡ ok tt
        → check_transaction rt buffer (claim_of bytes) ≡ ok tt
        → check_inclusion rt (claim_of bytes) header ≡ ok tt
        → bytes_eq header_key (block_pda rt (claim_of bytes).block_hash).0 ≡ true
        → bytes_eq receipt (verified_pda rt (claim_of bytes).block_hash (claim_of bytes).txid).0
          ≡ true
        → ltb client.finalized_height header.height ≡ false
        → (s client_key).content ≡ light_client client
        → record_verified rt payer receipt (new_verified rt (claim_of bytes) header client) s ≡ ok t
        → P)
    → process_verify_transaction rt accounts bytes s ≡ ok t
    → P
unfolding process_verify_transaction
verify_inversion rt P accounts bytes s t k h = grind arith

-- The receipt of a transaction in a block, for an instance of the chain.
abbrev pub receipt_of : Runtime → Claim → BlockHeader → BitcoinLightClient → VerifiedTransaction
receipt_of rt claim header client = record {
  bump = (verified_pda rt claim.block_hash claim.txid).1;
  block_height = header.height % 2 ^ 32;
  block_hash = claim.block_hash;
  txid = claim.txid;
  verified_at = rt.unix_timestamp;
  tx_index = claim.tx_index;
  reinit_epoch = client.reinit_epoch;
}

new_verified_eq :
    (rt : Runtime) (claim : Claim) (header : BlockHeader) (client : BitcoinLightClient)
    → new_verified rt claim header client ≡ receipt_of rt claim header client
unfolding new_verified
new_verified_eq rt claim header client = refl

module _ (rt : Runtime) (laws : SystemLaws rt) where
  -- What recording a receipt leaves: the program's account, which was there or is written.
  abbrev pub Recorded : Store → Store → Bytes → VerifiedTransaction → Type 0
  Recorded s t key vt =
      ((t key).owner ≡ rt.program_id)
      × (((t ≡ s) × (is_verified (s key).content ≡ true))
          ⊎ ((t key).content ≡ verified_transaction vt))

  write_verified_lem :
      (key k : Bytes) (vt : VerifiedTransaction) (s t : Store)
      → write_verified rt key vt s ≡ ok t
      → ((t key).owner ≡ (s key).owner)
        × ((t key).content ≡ verified_transaction vt)
        × (k ≢ key → Keeps s t k)
  unfolding write_verified
  write_verified_lem key k vt s t h =
      let at : t ≡ put_content s key (verified_transaction vt) = ground arith in
      (
        rw (at, bytes_eq_refl key),
        rw (at, bytes_eq_refl key),
        (λ ne. rw at (put_content-Keeps s key k (verified_transaction vt) ne)),
      )

  created_lem :
      (payer key k : Bytes) (vt : VerifiedTransaction) (s t : Store)
      → (create_or_claim_pda rt payer key
            (rt.minimum_balance verified_transaction_len)
            verified_transaction_len
            s
          >>= write_verified rt key vt)
        ≡ ok t
      → k ≢ key
      → ((t key).owner ≡ rt.program_id) × ((t key).content ≡ verified_transaction vt) × Keeps s t k
  created_lem payer key k vt s t h ne =
      let lamports = rt.minimum_balance verified_transaction_len in
      let (u, c, w) =
        >>=-eq-ok (create_or_claim_pda rt payer key lamports verified_transaction_len s)
          (write_verified rt key vt) h in
      let (owner, at, rest) = write_verified_lem key k vt u t w in
      let (own, others) =
        create_or_claim_pda_lem rt laws payer key lamports verified_transaction_len s u c in
      (owner ∙ own, at, Keeps-trans s u t k (others k ne) (rest ne))

  record_verified_lem :
      (payer key k : Bytes) (vt : VerifiedTransaction) (s t : Store)
      → record_verified rt payer key vt s ≡ ok t
      → k ≢ key
      → Recorded s t key vt × Keeps s t k
  unfolding record_verified
  record_verified_lem payer key k vt s t h ne =
      ground (arith, created_lem payer key k vt s t, bytes_eq→eq (s key).owner rt.program_id)

  -- A receipt is only given for a transaction that the chain contains: if the call succeeds, the
  -- program's accounts hold a client, the block of the claimed hash at a height that the client holds
  -- as finalized, and an index entry of that height that names the block; bytes of the claimed size,
  -- which is not 64, hash to the transaction id, and the id stands `path_len` levels under the
  -- block's merkle root. The receipt's account then belongs to the program, and it existed as a
  -- receipt or is the new one for that block, transaction and chain instance; every other account
  -- keeps its owner and content.
  pub verify_transaction_sound :
      (accounts : List AccountInfo) (bytes : Bytes) (s t : Store) (k : Bytes)
      → k ≢ (verified_pda rt (claim_of bytes).block_hash (claim_of bytes).txid).0
      → process_verify_transaction rt accounts bytes s ≡ ok t
      → (a : Attested rt s (claim_of bytes)) × Recorded s t
          (verified_pda rt (claim_of bytes).block_hash (claim_of bytes).txid).0
          (receipt_of rt (claim_of bytes) a.header a.client)
        × Keeps s t k
  verify_transaction_sound accounts bytes s t k ne h =
      verify_inversion rt _ accounts bytes s t
        (λ payer receipt client_key header_key index_key buffer client header oc oh oi rb cc ct ci
            hk rk fin stored rec.
          let claim = claim_of bytes in
          let (found, hash) = read_block_lem rt s header_key claim header rb in
          let (index, at_index, index_pda_eq, canon) =
            check_canonical_lem rt s index_key claim header cc in
          let (hashed, size, other) = check_transaction_lem rt buffer claim ct in
          let header_at = bytes_eq→eq _ _ hk in
          let receipt_at = bytes_eq→eq _ _ rk in
          let out =
            record_verified_lem payer receipt k (new_verified rt claim header client) s t rec
              (λ e. ne (e ∙ receipt_at)) in
          let a : Attested rt s claim = record {
            client_key = client_key;
            client = client;
            own_client = bytes_eq→eq _ _ oc;
            stored_client = stored;
            own_header = rw (← header_at) (bytes_eq→eq _ _ oh);
            own_index = rw (← index_pda_eq) (bytes_eq→eq _ _ oi);
            header = header;
            index = index;
            raw_transaction = slice 32 claim.tx_size buffer;
            stored_header = rw (← header_at) found;
            stored_index = rw (← index_pda_eq) at_index;
            hash_matches = hash;
            canonical = bytes_eq→eq _ _ canon;
            finalized = ground arith;
            hashed = hashed;
            size = size;
            not_inner_node = λ e. other (sym size ∙ e);
            included = check_inclusion_lem rt claim header ci;
          } in
          (a, rw (← receipt_at, ← new_verified_eq rt claim header client) out.0, out.1))
        h
