-- ===== src/LightClient/Extend/Effects.antt =====
-- What `process_extend_blockchain` does to the light client and to the height index.
use utxopia_solana_programs.Prelude.{
  ℕ, zero, suc, ◌-◌, max, ◌+◌, ◌*◌, ◌≡◌, ◌≢◌, ◌≤◌, ◌<◌, ◌⊎◌, inl, inr, refl, ◌∙◌, sym, true,
  Bool-cases, bytes_eq_refl, arith,
}
use utxopia_solana_programs.Prelude.Numbers.{u64_mod}
use utxopia_solana_programs.Prelude.Results.{ok, ◌>>=◌, >>=-eq-ok}
use utxopia_solana_programs.LightClient.Utils.U256.{u256_from_le_bytes, u256_gt_limbs}
use utxopia_solana_programs.LightClient.State.{
  Bytes, Store, Content, BitcoinLightClient, BlockHeader, light_client, put_content,
}
use utxopia_solana_programs.LightClient.Runtime.{Runtime, SystemLaws, double_sha256}
use utxopia_solana_programs.LightClient.Runtime.Claim.{Keeps}
use utxopia_solana_programs.LightClient.Access.{slice, block_pda, index_pda}
use utxopia_solana_programs.LightClient.Headers.{Batch, Chain, process_headers}
use utxopia_solana_programs.LightClient.Headers.Links.{raw_headers, height-process_headers}
use utxopia_solana_programs.LightClient.Headers.Frame.{
  put_content-Keeps, process_headers-Keeps, NotHeader,
}
use utxopia_solana_programs.LightClient.Extend.Index.{index_blocks-Keeps}
use utxopia_solana_programs.LightClient.Extend.{
  index_blocks, promoted, advance_tip, promote, keep_fork, finish, run_batch,
}

-- What the code relies on of program-derived addresses: distinct seeds give distinct addresses, and
-- the light client stands at an address of its own.
pub record Addresses (rt : Runtime) (lc_key : Bytes) : Type 0 where
  pub header_not_client : (hash : Bytes) → lc_key ≢ (block_pda rt hash).0
  pub index_not_client : (height : ℕ) → lc_key ≢ (index_pda rt height).0
  pub index_not_header :
      (height : ℕ) (hash : Bytes) → (index_pda rt height).0 ≢ (block_pda rt hash).0
  pub index_injective :
      (h k : ℕ) → h < u64_mod → k < u64_mod → (index_pda rt h).0 ≡ (index_pda rt k).0 → h ≡ k

-- The tip stays as it was, or moves to a batch with more chainwork that ends above the finalized
-- height.
abbrev pub Moves : BitcoinLightClient → BitcoinLightClient → Type 0
Moves lc after =
    ((after.tip_hash ≡ lc.tip_hash)
      × (after.tip_height ≡ lc.tip_height)
      × (after.total_chainwork ≡ lc.total_chainwork)
      × (after.finalized_height ≡ lc.finalized_height))
    ⊎ ((u256_gt_limbs (u256_from_le_bytes after.total_chainwork)
            (u256_from_le_bytes lc.total_chainwork)
          ≡ true)
        × (lc.finalized_height < after.tip_height)
        × (after.finalized_height ≡ max lc.finalized_height (after.tip_height - 5)))

-- The fields that identify the chain that is followed.
abbrev pub SameChain : BitcoinLightClient → BitcoinLightClient → Type 0
SameChain lc after =
    (after.network ≡ lc.network)
    × (after.authority ≡ lc.authority)
    × (after.genesis_hash ≡ lc.genesis_hash)
    × (after.reinit_epoch ≡ lc.reinit_epoch)

-- The light client after a call.
pub record Advanced (lc : BitcoinLightClient) (t : Store) (lc_key : Bytes) : Type 0 where
  pub after : BitcoinLightClient
  pub stored : (t lc_key).content ≡ light_client after
  pub same_chain : SameChain lc after
  pub moves : Moves lc after

-- The index entries of finalized heights.
abbrev pub FinalizedKept : Runtime → BitcoinLightClient → Store → Store → Type 0
FinalizedKept rt lc s t =
    (height : ℕ)
    → height ≤ lc.finalized_height
    → height < u64_mod
    → (t (index_pda rt height).0).content ≡ (s (index_pda rt height).0).content

module _ (rt : Runtime) (laws : SystemLaws rt) (lc_key : Bytes)
    (addresses : Addresses rt lc_key) where
  content-put_self : (s : Store) (c : Content) → (put_content s lc_key c lc_key).content ≡ c
  content-put_self s c = rw (bytes_eq_refl lc_key)

  NotHeader-client : (bytes : Bytes) (n i : ℕ) → NotHeader rt laws lc_key (raw_headers bytes n i)
  NotHeader-client bytes zero i = tt
  NotHeader-client bytes (suc n) i = (
    addresses.header_not_client (double_sha256 rt (slice (1 + i * 80) 80 bytes)),
    NotHeader-client bytes n (suc i),
  )

  NotHeader-index :
      (height : ℕ) (bytes : Bytes) (n i : ℕ)
      → NotHeader rt laws (index_pda rt height).0 (raw_headers bytes n i)
  NotHeader-index height bytes zero i = tt
  NotHeader-index height bytes (suc n) i = (
    addresses.index_not_header height (double_sha256 rt (slice (1 + i * 80) 80 bytes)),
    NotHeader-index height bytes n (suc i),
  )

  keep_fork_eq :
      (n : ℕ) (lc : BitcoinLightClient) (chain : Chain) (t : Store)
      → (chain.store lc_key).content ≡ light_client lc
      → keep_fork rt lc_key n chain ≡ ok t
      → t
        ≡ put_content chain.store lc_key (
            light_client
              (record lc { header_count = lc.header_count + n; last_update = rt.unix_timestamp }))
  unfolding keep_fork
  keep_fork_eq n lc chain t e h = ground arith

  advance_tip_eq :
      (n : ℕ) (lc : BitcoinLightClient) (chain : Chain) (s t : Store)
      → (s lc_key).content ≡ light_client lc
      → advance_tip rt lc_key n chain s ≡ ok t
      → t ≡ put_content s lc_key (light_client (promoted rt lc chain (lc.header_count + n)))
  unfolding advance_tip
  advance_tip_eq n lc chain s t e h = ground arith

  -- A write to the light client leaves the index alone.
  index_kept :
      (s : Store) (c : Content) (height : ℕ)
      → Keeps s (put_content s lc_key c) (index_pda rt height).0
  index_kept s c height =
      put_content-Keeps s lc_key (index_pda rt height).0 c
        (λ e. addresses.index_not_client height (sym e))

  -- What a store that follows the headers of a batch must keep.
  pub record Outcome (lc : BitcoinLightClient) (s t : Store) : Type 0 where
    pub advanced : Advanced lc t lc_key
    pub kept : FinalizedKept rt lc s t

  keep_fork-Outcome :
      (n : ℕ) (lc : BitcoinLightClient) (chain : Chain) (t : Store)
      → (chain.store lc_key).content ≡ light_client lc
      → keep_fork rt lc_key n chain ≡ ok t
      → Outcome lc chain.store t
  keep_fork-Outcome n lc chain t e h =
      let after = record lc {
        header_count = lc.header_count + n;
        last_update = rt.unix_timestamp;
      } in
      let at = keep_fork_eq n lc chain t e h in
      record {
        advanced = record {
          after = after;
          stored = rw at (content-put_self chain.store (light_client after));
          same_chain = (refl, refl, refl, refl);
          moves = inl (refl, refl, refl, refl);
        };
        kept = λ height le lt. rw at ((index_kept chain.store (light_client after) height).1);
      }

  promoted-Moves :
      (lc : BitcoinLightClient) (chain : Chain) (n : ℕ)
      → u256_gt_limbs (u256_from_le_bytes chain.chainwork) (u256_from_le_bytes lc.total_chainwork)
        ≡ true
      → lc.finalized_height < chain.height
      → Moves lc (promoted rt lc chain n) × SameChain lc (promoted rt lc chain n)
  unfolding promoted
  promoted-Moves lc chain n gt le = (inr (gt, le, ground arith), (refl, refl, refl, refl))

  promote-Outcome :
      (batch : Batch) (bytes : Bytes) (n : ℕ) (lc : BitcoinLightClient) (parent : BlockHeader)
      (chain : Chain) (t : Store)
      → (chain.store lc_key).content ≡ light_client lc
      → u256_gt_limbs (u256_from_le_bytes chain.chainwork) (u256_from_le_bytes lc.total_chainwork)
        ≡ true
      → parent.height < chain.height
      → promote rt batch bytes lc_key n parent chain ≡ ok t
      → Outcome lc chain.store t
  unfolding promote
  promote-Outcome batch bytes n lc parent chain t e gt up h =
      let le : lc.finalized_height ≤ parent.height = ground arith in
      let tail : (index_blocks rt batch bytes n parent.height n 0 chain.store
            >>= advance_tip rt lc_key n chain)
          ≡ ok t =
        ground arith in
      let (indexed, i, a) =
        >>=-eq-ok (index_blocks rt batch bytes n parent.height n 0 chain.store)
          (advance_tip rt lc_key n chain) tail in
      let client =
        index_blocks-Keeps rt laws batch bytes n parent.height n 0 chain.store indexed lc_key i
          (λ height above fits. addresses.index_not_client height) in
      let at = advance_tip_eq n lc chain indexed t (client.1 ∙ e) a in
      let after = promoted rt lc chain (lc.header_count + n) in
      let m = promoted-Moves lc chain (lc.header_count + n) gt (omega arith) in
      record {
        advanced = record {
          after = after;
          stored = rw at (content-put_self indexed (light_client after));
          same_chain = m.1;
          moves = m.0;
        };
        kept = λ height final fits.
            rw at ((index_kept indexed (light_client after) height).1)
            ∙ (index_blocks-Keeps rt laws batch bytes n parent.height n 0 chain.store indexed
                (index_pda rt height).0 i
                (λ other above bound eq.
                  absurd (omega (arith, addresses.index_injective height other fits bound eq)))).1;
      }

  finish-Outcome :
      (batch : Batch) (bytes : Bytes) (n : ℕ) (lc : BitcoinLightClient) (parent : BlockHeader)
      (chain : Chain) (t : Store)
      → (chain.store lc_key).content ≡ light_client lc
      → parent.height < chain.height
      → finish rt batch bytes lc_key n lc parent chain ≡ ok t
      → Outcome lc chain.store t
  unfolding finish
  finish-Outcome batch bytes n lc parent chain t e up h =
      elim (Bool-cases (
        u256_gt_limbs (u256_from_le_bytes chain.chainwork)
          (u256_from_le_bytes lc.total_chainwork))) [
            | inl heavier ↦
                promote-Outcome batch bytes n lc parent chain t e heavier up (rw heavier at h)
            | inr lighter ↦ keep_fork-Outcome n lc chain t e (rw lighter at h)
          ]

  pub run_batch-Outcome :
      (batch : Batch) (bytes : Bytes) (n : ℕ) (lc : BitcoinLightClient) (parent : BlockHeader)
      (chain : Chain) (t : Store)
      → (chain.store lc_key).content ≡ light_client lc
      → 0 < n
      → chain.height ≡ parent.height
      → run_batch rt batch bytes lc_key n lc parent chain ≡ ok t
      → Outcome lc chain.store t
  unfolding run_batch
  run_batch-Outcome batch bytes n lc parent chain t e pos start h =
      let (last, first, rest) =
        >>=-eq-ok (process_headers rt batch bytes n 0 chain)
          (finish rt batch bytes lc_key n lc parent) h in
      let client =
        process_headers-Keeps rt laws batch bytes n 0 chain last lc_key first
          (NotHeader-client bytes n 0) in
      let up = height-process_headers rt batch bytes n 0 chain last first in
      let out =
        finish-Outcome batch bytes n lc parent last t (client.1 ∙ e) (omega (arith, start)) rest in
      record {
        advanced = out.advanced;
        kept = λ height final fits.
            out.kept height final fits
            ∙ (process_headers-Keeps rt laws batch bytes n 0 chain last (index_pda rt height).0
                first (NotHeader-index height bytes n 0)).1;
      }
