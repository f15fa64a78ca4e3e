-- ===== src/LightClient/Initialize/Anchor.antt =====
-- What a successful `process_initialize` or `process_reinitialize` leaves.
use utxopia_solana_programs.Prelude.{
  ◌≡◌, ◌≢◌, ◌∙◌, sym, ap, refl, Bool, true, false, List, some, arith, bytes_eq, bytes_eq→eq,
  bytes_eq_refl, get_elem?, ◌==◌, ◌&&◌, ◌||◌, ℕ, ◌+◌, ◌%◌, ◌^◌, leb, length, replicate,
  if◌then◌else◌,
}
use utxopia_solana_programs.Prelude.Results.{ok, >>=-eq-ok}
use utxopia_solana_programs.LightClient.Constants.{network_allowed_in_build}
use utxopia_solana_programs.LightClient.State.{
  Bytes, Store, AccountInfo, BitcoinLightClient, BlockHeader, light_client, block_header,
  height_index, put_content, zero_key,
}
use utxopia_solana_programs.LightClient.Runtime.{Runtime, SystemLaws}
use utxopia_solana_programs.LightClient.Runtime.Claim.{Keeps, Keeps-trans}
use utxopia_solana_programs.LightClient.Access.{block_pda, index_pda, is_production, slice, u32_at}
use utxopia_solana_programs.LightClient.Headers.Frame.{put_content-Keeps}
use utxopia_solana_programs.LightClient.Extend.Effects.{Addresses}
use utxopia_solana_programs.LightClient.Initialize.{
  Start, start_of, is_light_client_tag, initial_client, restarted_client, genesis_header,
  store_genesis_header, store_genesis_index, client_pda, create_client, create_chain,
  process_initialize, process_reinitialize,
}
use utxopia_solana_programs.LightClient.Initialize.Genesis.{
  Written, Written-at, create_client-Written, store_genesis_header-Written,
  store_genesis_index-Written,
}
use utxopia_solana_programs.LightClient.Initialize.Checkpoint.{
  start_hash, start_height, start_network, start_epoch_bits, start_epoch_time, IsFresh, IsFirst,
  initial_client-IsFresh, restarted_client-IsFresh, genesis_header-IsFirst,
}

-- A chain of one block: the client, the block's header and the index entry of its height stand in
-- accounts of the program, and every other account keeps its owner and content.
pub record Anchored (rt : Runtime) (s t : Store) (key : Bytes) (lc : BitcoinLightClient)
    (first : BlockHeader) (hash : Bytes) (height : ℕ) : Type 0 where
  pub own_client : (t key).owner ≡ rt.program_id
  pub client : (t key).content ≡ light_client lc
  pub own_header : (t (block_pda rt hash).0).owner ≡ rt.program_id
  pub header : (t (block_pda rt hash).0).content ≡ block_header first
  pub own_index : (t (index_pda rt height).0).owner ≡ rt.program_id
  pub index :
      (t (index_pda rt height).0).content
      ≡ height_index (record { bump = (index_pda rt height).1; block_hash = hash; height = height })
  pub others :
      (k : Bytes) → k ≢ key → k ≢ (block_pda rt hash).0 → k ≢ (index_pda rt height).0 → Keeps s t k

module _ (rt : Runtime) (laws : SystemLaws rt) where
  create_chain-Anchored :
      (payer key header_key index_key : Bytes) (lc : BitcoinLightClient) (header : BlockHeader)
      (start : Start) (s u t : Store)
      → Addresses rt key
      → header.block_hash ≡ start.block_hash
      → Written rt s u key (light_client lc)
      → create_chain rt payer header_key index_key header start u ≡ ok t
      → Anchored rt s t key lc header start.block_hash start.height
  unfolding create_chain
  create_chain-Anchored payer key header_key index_key lc header start s u t addresses same w h =
      let (v, a, b) =
        >>=-eq-ok (store_genesis_header rt payer header_key header u)
          (store_genesis_index rt payer index_key start) h in
      let wh =
        Written-at rt u v (block_header header) (block_pda rt header.block_hash).0
          (block_pda rt start.block_hash).0 (ap (λ hash. (block_pda rt hash).0) same)
          (store_genesis_header-Written rt laws payer header_key header u v a) in
      let wi = store_genesis_index-Written rt laws payer index_key start v t b in
      let at_client =
        Keeps-trans u v t key (wh.others key (addresses.header_not_client start.block_hash))
          (wi.others key (addresses.index_not_client start.height)) in
      let at_header =
        wi.others (block_pda rt start.block_hash).0
          (λ e. addresses.index_not_header start.height start.block_hash (sym e)) in
      record {
        own_client = at_client.0 ∙ w.own;
        client = at_client.1 ∙ w.held;
        own_header = at_header.0 ∙ wh.own;
        header = at_header.1 ∙ wh.held;
        own_index = wi.own;
        index = wi.held;
        others = λ k client head entry.
            Keeps-trans s u t k (w.others k client)
              (Keeps-trans u v t k (wh.others k head) (wi.others k entry));
      }

seeded_lem :
    (production : Bool) (bits time : ℕ)
    → production ≡ true
    → (production && ((bits == 0) || (time == 0))) ≡ false
    → (bits ≢ 0) × (time ≢ 0)
seeded_lem production bits time on h = (λ e. ground arith, λ e. ground arith)

initialize_inversion :
    (rt : Runtime) (mainnet : Bool) (P : Type 0) (accounts : List AccountInfo) (bytes : Bytes)
    (s t : Store)
    → ((key header_key index_key : Bytes) (payer : AccountInfo) (u : Store)
        → get_elem? accounts 1 ≡ some payer
        → payer.is_signer ≡ true
        → network_allowed_in_build mainnet (start_of bytes).network ≡ true
        → bytes_eq key (client_pda rt).0 ≡ true
        → is_light_client_tag (s key).content ≡ false
        → create_client rt payer.key key
            (initial_client rt (start_of bytes) (client_pda rt).1 payer.key)
            s
          ≡ ok u
        → (is_production (start_of bytes).network
            && (((start_of bytes).initial_bits == 0) || ((start_of bytes).epoch_start == 0)))
          ≡ false
        → create_chain rt payer.key header_key index_key
            (genesis_header rt (start_of bytes) zero_key 0)
            (start_of bytes)
            u
          ≡ ok t
        → P)
    → process_initialize rt mainnet accounts bytes s ≡ ok t
    → P
unfolding process_initialize
initialize_inversion rt mainnet P accounts bytes s t k h = grind arith

reinitialize_inversion :
    (rt : Runtime) (mainnet : Bool) (P : Type 0) (accounts : List AccountInfo) (bytes : Bytes)
    (s t : Store) (info : AccountInfo)
    → get_elem? accounts 0 ≡ some info
    → ((header_key index_key : Bytes) (authority : AccountInfo) (lc : BitcoinLightClient)
        → get_elem? accounts 1 ≡ some authority
        → authority.is_signer ≡ true
        → bytes_eq (s info.key).owner rt.program_id ≡ true
        → (s info.key).content ≡ light_client lc
        → bytes_eq lc.authority authority.key ≡ true
        → network_allowed_in_build mainnet (start_of bytes).network ≡ true
        → create_chain rt authority.key header_key index_key
            (genesis_header rt
              (start_of bytes)
              (start_of bytes).prev_block_hash
              (restarted_client rt (start_of bytes) lc).reinit_epoch)
            (start_of bytes)
            (put_content s info.key (light_client (restarted_client rt (start_of bytes) lc)))
          ≡ ok t
        → P)
    → process_reinitialize rt mainnet accounts bytes s ≡ ok t
    → P
unfolding process_reinitialize
reinitialize_inversion rt mainnet P accounts bytes s t info found k h = grind arith

-- What `initialize` has checked before it anchors a chain, and the chain.
pub record Initialized (rt : Runtime) (mainnet : Bool) (accounts : List AccountInfo) (bytes : Bytes)
    (s t : Store) : Type 0 where
  pub payer : AccountInfo
  pub client : BitcoinLightClient
  pub first : BlockHeader
  pub second : get_elem? accounts 1 ≡ some payer
  pub signed : payer.is_signer ≡ true
  pub allowed : network_allowed_in_build mainnet (start_network bytes) ≡ true
  pub absent : is_light_client_tag (s (client_pda rt).0).content ≡ false
  pub seeded :
      is_production (start_network bytes) ≡ true
      → (start_epoch_bits bytes ≢ 0) × (start_epoch_time bytes ≢ 0)
  pub fresh : IsFresh rt bytes client
  pub authority : client.authority ≡ payer.key
  pub bump : client.bump ≡ (client_pda rt).1
  pub first_instance : client.reinit_epoch ≡ 0
  pub first_header : IsFirst rt bytes (replicate 32 0) 0 first
  pub anchored :
      Anchored rt s t (client_pda rt).0 client first (start_hash bytes) (start_height bytes)

-- What `reinitialize` has checked before it anchors a new chain, the client that it replaces, and
-- the chain.
pub record Reinitialized (rt : Runtime) (mainnet : Bool) (accounts : List AccountInfo) (key : Bytes)
    (bytes : Bytes) (s t : Store) : Type 0 where
  pub before : BitcoinLightClient
  pub client : BitcoinLightClient
  pub first : BlockHeader
  pub authority : AccountInfo
  pub second : get_elem? accounts 1 ≡ some authority
  pub signed : authority.is_signer ≡ true
  pub own : (s key).owner ≡ rt.program_id
  pub stored : (s key).content ≡ light_client before
  pub authorized : authority.key ≡ before.authority
  pub allowed : network_allowed_in_build mainnet (start_network bytes) ≡ true
  pub fresh : IsFresh rt bytes client
  pub same_authority : client.authority ≡ before.authority
  pub same_bump : client.bump ≡ before.bump
  pub next_instance : client.reinit_epoch ≡ (before.reinit_epoch + 1) % 2 ^ 32
  pub first_header :
      IsFirst rt bytes
        (if leb 89 (length bytes) then slice 57 32 bytes else replicate 32 0)
        client.reinit_epoch
        first
  pub anchored : Anchored rt s t key client first (start_hash bytes) (start_height bytes)

module _ (rt : Runtime) (laws : SystemLaws rt) where
  -- Initialization anchors a chain where there is none: if the call succeeds, a signer pays, the
  -- build allows the network, the client's account held no client, and a production network has its
  -- difficulty bits and epoch start. The client then has the signer as its authority, the block of
  -- the instruction's data as its tip and its genesis, no work, and as its finalized height five below
  -- the block's; the block's header carries the data's time and bits; the index names the block at its
  -- height. They stand in accounts of the program, and no other account's owner or content changes.
  pub initialize_anchors :
      (mainnet : Bool) (accounts : List AccountInfo) (bytes : Bytes) (s t : Store)
      → Addresses rt (client_pda rt).0
      → process_initialize rt mainnet accounts bytes s ≡ ok t
      → Initialized rt mainnet accounts bytes s t
  unfolding start_of u32_at
  initialize_anchors mainnet accounts bytes s t addresses h =
      initialize_inversion rt mainnet _ accounts bytes s t
        (λ key header_key index_key payer u second signed allowed at absent made seeded rest.
          let start = start_of bytes in
          let here = bytes_eq→eq key (client_pda rt).0 at in
          let lc = initial_client rt start (client_pda rt).1 payer.key in
          let (fresh, same_authority, same_bump, zero_epoch) =
            initial_client-IsFresh rt bytes (client_pda rt).1 payer.key in
          let same : (genesis_header rt start zero_key 0).block_hash ≡ start.block_hash =
            unfold genesis_header in refl in
          let w = rw here at (create_client-Written rt laws payer.key key lc s u made) in
          record {
            payer = payer;
            client = lc;
            first = genesis_header rt start zero_key 0;
            second = second;
            signed = signed;
            allowed = allowed;
            absent = rw (← here) absent;
            seeded =
                λ production. seeded_lem _ start.initial_bits start.epoch_start production seeded;
            fresh = fresh;
            authority = same_authority;
            bump = same_bump;
            first_instance = zero_epoch;
            first_header = genesis_header-IsFirst rt bytes (replicate 32 0) 0;
            anchored =
                create_chain-Anchored rt laws payer.key (client_pda rt).0 header_key index_key lc
                  (genesis_header rt start zero_key 0) start s u t addresses same w rest;
          })
        h

  -- A restart is the authority's: if the call succeeds, the account list begins with a client of the
  -- program whose authority has signed, and the build allows the network. The client keeps its
  -- authority and counts a new instance; its tip, genesis, work and finalized height are those of a
  -- client that starts at the block of the instruction's data; the block's header carries the new
  -- instance; the index names the block at its height; and no other account's owner or content
  -- changes.
  pub reinitialize_anchors :
      (mainnet : Bool) (accounts : List AccountInfo) (bytes : Bytes) (s t : Store)
      (info : AccountInfo)
      → get_elem? accounts 0 ≡ some info
      → Addresses rt info.key
      → process_reinitialize rt mainnet accounts bytes s ≡ ok t
      → Reinitialized rt mainnet accounts info.key bytes s t
  unfolding start_of u32_at
  reinitialize_anchors mainnet accounts bytes s t info found addresses h =
      reinitialize_inversion rt mainnet _ accounts bytes s t info found
        (λ header_key index_key authority lc second signed own stored authorized allowed rest.
          let start = start_of bytes in
          let after = restarted_client rt start lc in
          let (fresh, same_authority, same_bump, next_epoch) =
            restarted_client-IsFresh rt bytes lc in
          let first = genesis_header rt start start.prev_block_hash after.reinit_epoch in
          let same : first.block_hash ≡ start.block_hash = unfold genesis_header in refl in
          let w : Written rt s (put_content s info.key (light_client after)) info.key
              (light_client after) =
            record {
              own = rw (bytes_eq_refl info.key) (bytes_eq→eq _ _ own);
              held = rw (bytes_eq_refl info.key) refl;
              others = λ k ne. put_content-Keeps s info.key k (light_client after) ne;
            } in
          record {
            before = lc;
            client = after;
            first = first;
            authority = authority;
            second = second;
            signed = signed;
            own = bytes_eq→eq _ _ own;
            stored = stored;
            authorized = sym (bytes_eq→eq _ _ authorized);
            allowed = allowed;
            fresh = fresh;
            same_authority = same_authority;
            same_bump = same_bump;
            next_instance = next_epoch;
            first_header = genesis_header-IsFirst rt bytes start.prev_block_hash after.reinit_epoch;
            anchored =
                create_chain-Anchored rt laws authority.key info.key header_key index_key after
                  first start s (put_content s info.key (light_client after)) t addresses same w
                  rest;
          })
        h
