-- ===== src/LightClient/Headers/Step.antt =====
-- One round of the loop over the headers: what an accepted header is, and what it leaves.
use utxopia_solana_programs.Prelude.{
  length, refl, ap, sym, ◌∙◌, Option-cases, get_elem?, bytes_eq, bytes_eq_refl, inl, inr, ℕ, suc,
  ◌+◌, ◌*◌, ◌≡◌, ◌≢◌, ◌≤◌, ◌<◌, ◌⊎◌, ◌%◌, ◌++◌, drop, Bool, false, true, List, [], ◌∷◌, bytes_eq→eq,
  ◌==◌, arith,
}
use utxopia_solana_programs.Prelude.Numbers.{u64_mod}
use utxopia_solana_programs.Prelude.Results.{ok, >>=-eq-ok}
use utxopia_solana_programs.LightClient.Constants.{network_testnet4}
use utxopia_solana_programs.LightClient.Utils.Pow.{
  hash_meets_target, target_from_bits, calculate_chainwork, add_chainwork,
}
use utxopia_solana_programs.LightClient.Utils.Difficulty.{required_bits_for_next_block}
use utxopia_solana_programs.LightClient.State.{Bytes, Store, BlockHeader, block_header}
use utxopia_solana_programs.LightClient.Runtime.{Runtime, double_sha256}
use utxopia_solana_programs.LightClient.Access.{
  slice, u32_at, is_production, block_pda, write_header,
}
use utxopia_solana_programs.LightClient.Median.{median_timestamp}
use utxopia_solana_programs.LightClient.Headers.{
  Batch, Chain, header_prev_hash, header_timestamp, header_bits, max_future_drift_secs,
  check_median, check_bits, append_header, new_header, next_chain, process_header, claim_header,
  store_header,
}

module _ (rt : Runtime) where
  -- One block on top of a chain: it names the last block, its hash meets the target that it states,
  -- it is not too far in the future, and on a production network its difficulty is the required one
  -- and its time is past the median.
  pub record Extends (batch : Batch) (chain : Chain) (raw : Bytes) (next : Chain) : Type 0 where
    pub linked : slice 4 32 raw ≡ chain.prev_hash
    pub hashed : next.prev_hash ≡ double_sha256 rt raw
    pub higher : next.height ≡ suc chain.height
    pub in_range : suc chain.height < u64_mod
    pub worked : hash_meets_target (double_sha256 rt raw) (target_from_bits (u32_at 72 raw)) ≡ true
    pub timely : u32_at 68 raw ≤ rt.unix_timestamp + 2 * 60 * 60
    pub past_median :
        is_production batch.network ≡ true → median_timestamp chain.window < u32_at 68 raw
    pub required :
        is_production batch.network ≡ true
        → required_bits_for_next_block
            (batch.network == network_testnet4)
            (suc chain.height)
            (u32_at 68 raw)
            chain.parent_timestamp
            chain.expected_bits
            chain.epoch_start
          ≡ ok (u32_at 72 raw)
    pub summed :
        next.chainwork ≡ add_chainwork chain.chainwork (calculate_chainwork (u32_at 72 raw))
    pub seeded : is_production batch.network ≡ true → chain.expected_bits ≢ 0
    pub parent_time : next.parent_timestamp ≡ u32_at 68 raw
    pub new_epoch :
        is_production batch.network ≡ true
        → suc chain.height % 2016 ≡ 0
        → (next.expected_bits ≡ u32_at 72 raw) × (next.epoch_start ≡ u32_at 68 raw)
    pub same_epoch :
        (is_production batch.network ≡ false) ⊎ (suc chain.height % 2016 ≢ 0)
        → (next.expected_bits ≡ chain.expected_bits) × (next.epoch_start ≡ chain.epoch_start)
    pub window_grows :
        is_production batch.network ≡ true
        → length chain.window < 11
        → next.window ≡ chain.window ++ u32_at 68 raw ∷ []
    pub window_slides :
        is_production batch.network ≡ true
        → 11 ≤ length chain.window
        → next.window ≡ drop 1 chain.window ++ u32_at 68 raw ∷ []
    pub no_window : is_production batch.network ≡ false → next.window ≡ chain.window
    pub recorded :
        (next.store (block_pda rt (double_sha256 rt raw)).0).content
        ≡ block_header (record {
          version = slice 0 4 raw;
          prev_block_hash = slice 4 32 raw;
          merkle_root = slice 36 32 raw;
          timestamp = u32_at 68 raw;
          bits = u32_at 72 raw;
          nonce = slice 76 4 raw;
          block_hash = double_sha256 rt raw;
          chainwork = next.chainwork;
          height = next.height;
          submitted_at = rt.unix_timestamp;
          epoch_bits = next.expected_bits;
          epoch_start_time = next.epoch_start;
          reinit_epoch = batch.reinit_epoch;
        })

  check_bits-ok :
      (network height timestamp bits : ℕ) (chain : Chain)
      → check_bits network height timestamp bits chain ≡ ok tt
      → is_production network ≡ true
      → required_bits_for_next_block
          (network == network_testnet4)
          height
          timestamp
          chain.parent_timestamp
          chain.expected_bits
          chain.epoch_start
        ≡ ok bits
  unfolding check_bits
  check_bits-ok network height timestamp bits chain h p = ground arith

  append_header-ok :
      (batch : Batch) (i : ℕ) (header : BlockHeader) (window : List ℕ) (chain next : Chain)
      → append_header rt batch i header window chain ≡ ok next
      → (next.prev_hash ≡ header.block_hash)
        × (next.height ≡ header.height)
        × (next.chainwork ≡ header.chainwork)
        × (next.expected_bits ≡ header.epoch_bits)
        × (next.epoch_start ≡ header.epoch_start_time)
        × (next.parent_timestamp ≡ header.timestamp)
        × (next.window ≡ window)
  unfolding append_header next_chain
  append_header-ok batch i header window chain next h = ground arith

  check_bits_seeded :
      (network height timestamp bits : ℕ) (chain : Chain)
      → check_bits network height timestamp bits chain ≡ ok tt
      → is_production network ≡ true
      → chain.expected_bits ≢ 0
  unfolding check_bits
  check_bits_seeded network height timestamp bits chain h p e = ground arith

  -- The window behind the median check.
  check_median-ok :
      (enforce : Bool) (timestamp : ℕ) (window slid : List ℕ)
      → check_median enforce timestamp window ≡ ok slid
      → (enforce ≡ true → median_timestamp window < timestamp)
        × (enforce ≡ true → length window < 11 → slid ≡ window ++ timestamp ∷ [])
        × (enforce ≡ true → 11 ≤ length window → slid ≡ drop 1 window ++ timestamp ∷ [])
        × (enforce ≡ false → slid ≡ window)
  unfolding check_median
  check_median-ok enforce timestamp window slid h =
      (λ on. ground arith, λ on short. ground arith, λ on full. ground arith, λ off. ground arith)

  -- The difficulty and the start of the epoch that a block carries on.
  new_header_epoch :
      (batch : Batch) (raw hash : Bytes) (height : ℕ) (chain : Chain)
      → let header = new_header rt batch raw hash height chain in
        (is_production batch.network ≡ true
          → height % 2016 ≡ 0
          → (header.epoch_bits ≡ header_bits raw)
            × (header.epoch_start_time ≡ header_timestamp raw))
        × ((is_production batch.network ≡ false) ⊎ (height % 2016 ≢ 0)
            → (header.epoch_bits ≡ chain.expected_bits)
              × (header.epoch_start_time ≡ chain.epoch_start))
  unfolding new_header
  new_header_epoch batch raw hash height chain = (λ on first. ground arith, λ else. ground arith)

  process_header_inversion :
      (P : Type 0) (batch : Batch) (i : ℕ) (raw : Bytes) (chain next : Chain)
      → ((window : List ℕ)
          → header_timestamp raw ≤ rt.unix_timestamp + max_future_drift_secs
          → bytes_eq (header_prev_hash raw) chain.prev_hash ≡ true
          → check_median (is_production batch.network) (header_timestamp raw) chain.window
            ≡ ok window
          → chain.height + 1 < u64_mod
          → hash_meets_target (double_sha256 rt raw) (target_from_bits (header_bits raw)) ≡ true
          → check_bits batch.network
              (chain.height + 1)
              (header_timestamp raw)
              (header_bits raw)
              chain
            ≡ ok tt
          → append_header rt batch i
              (new_header rt batch raw (double_sha256 rt raw) (chain.height + 1) chain)
              window
              chain
            ≡ ok next
          → P)
      → process_header rt batch i raw chain ≡ ok next
      → P
  unfolding process_header
  process_header_inversion P batch i raw chain next k h = grind arith

  -- The header's account holds the struct that was written.
  claim_header_at :
      (batch : Batch) (hash key : Bytes) (s t : Store)
      → claim_header rt batch hash key s ≡ ok t
      → key ≡ (block_pda rt hash).0
  unfolding claim_header
  claim_header_at batch hash key s t h = ground (arith, bytes_eq→eq key (block_pda rt hash).0)

  write_header_at :
      (key : Bytes) (header : BlockHeader) (s t : Store)
      → write_header rt key header s ≡ ok t
      → (t key).content ≡ block_header header
  unfolding write_header
  write_header_at key header s t h = ground (arith, bytes_eq_refl key)

  store_header_at :
      (batch : Batch) (key : Bytes) (header : BlockHeader) (s t : Store)
      → store_header rt batch header.block_hash key header s ≡ ok t
      → (t (block_pda rt header.block_hash).0).content ≡ block_header header
  unfolding store_header
  store_header_at batch key header s t h =
      let (u, c, w) =
        >>=-eq-ok (claim_header rt batch header.block_hash key s) (write_header rt key header) h in
      rw (← claim_header_at batch header.block_hash key s u c) (write_header_at key header u t w)

  append_header_at :
      (batch : Batch) (i : ℕ) (header : BlockHeader) (window : List ℕ) (chain next : Chain)
      → append_header rt batch i header window chain ≡ ok next
      → (next.store (block_pda rt header.block_hash).0).content ≡ block_header header
  unfolding append_header next_chain
  append_header_at batch i header window chain next h =
      elim (Option-cases (get_elem? batch.accounts (4 + i))) [
        | inl missing ↦ ground arith
        | inr (info, found) ↦
            ground (arith, store_header_at batch info.key header chain.store next.store)
      ]

  -- The struct that is written, with its height, work and epoch as the chain carries them on.
  append_header_recorded :
      (batch : Batch) (i height : ℕ) (raw hash : Bytes) (window : List ℕ) (chain next : Chain)
      → append_header rt batch i (new_header rt batch raw hash height chain) window chain ≡ ok next
      → (next.store (block_pda rt hash).0).content
        ≡ block_header (record {
          version = slice 0 4 raw;
          prev_block_hash = slice 4 32 raw;
          merkle_root = slice 36 32 raw;
          timestamp = u32_at 68 raw;
          bits = u32_at 72 raw;
          nonce = slice 76 4 raw;
          block_hash = hash;
          chainwork = next.chainwork;
          height = next.height;
          submitted_at = rt.unix_timestamp;
          epoch_bits = next.expected_bits;
          epoch_start_time = next.epoch_start;
          reinit_epoch = batch.reinit_epoch;
        })
  unfolding new_header
  append_header_recorded batch i height raw hash window chain next h =
      let header = new_header rt batch raw hash height chain in
      let (named, at, work, bits, start, time, slid) =
        append_header-ok batch i header window chain next h in
      rw (at, work, bits, start) (append_header_at batch i header window chain next h)

  new_header_fields :
      (batch : Batch) (raw hash : Bytes) (height : ℕ) (chain : Chain)
      → let header = new_header rt batch raw hash height chain in
        (header.block_hash ≡ hash)
        × (header.height ≡ height)
        × (header.chainwork ≡ add_chainwork chain.chainwork (calculate_chainwork (header_bits raw)))
        × (header.timestamp ≡ header_timestamp raw)
  unfolding new_header
  new_header_fields batch raw hash height chain = (refl, refl, refl, refl)

  pub process_header-Extends :
      (batch : Batch) (i : ℕ) (raw : Bytes) (chain next : Chain)
      → process_header rt batch i raw chain ≡ ok next
      → Extends batch chain raw next
  process_header-Extends batch i raw chain next h =
      process_header_inversion _ batch i raw chain next
        (λ window timely linked median room meets bits appended.
          let hash = double_sha256 rt raw in
          let up = chain.height + 1 in
          let header = new_header rt batch raw hash up chain in
          let (named, at, work, expected, start, time, slid) =
            append_header-ok batch i header window chain next appended in
          let (hash_eq, height_eq, work_eq, time_eq) = new_header_fields batch raw hash up chain in
          let (first, same) = new_header_epoch batch raw hash up chain in
          let (past, grows, slides, still) =
            check_median-ok (is_production batch.network) (header_timestamp raw) chain.window window
              median in
          let next_up : next.height ≡ up = at ∙ height_eq in
          let one_more : suc chain.height ≡ up = omega arith in
          record {
            linked = bytes_eq→eq (header_prev_hash raw) chain.prev_hash linked;
            hashed = named ∙ hash_eq;
            higher = omega (arith, next_up);
            in_range = omega (arith, room);
            worked = meets;
            timely = timely;
            past_median = past;
            required = λ on. rw one_more (
                check_bits-ok batch.network up (header_timestamp raw) (header_bits raw) chain bits
                  on);
            summed = work ∙ work_eq;
            seeded =
                check_bits_seeded batch.network up (header_timestamp raw) (header_bits raw) chain
                  bits;
            parent_time = time ∙ time_eq;
            new_epoch = λ on boundary.
                let (b, s) = first on (ap (λ n. n % 2016) (sym one_more) ∙ boundary) in
                (expected ∙ b, start ∙ s);
            same_epoch = λ why. let (b, s) = same (rw one_more at why) in (expected ∙ b, start ∙ s);
            window_grows = λ on short. slid ∙ grows on short;
            window_slides = λ on full. slid ∙ slides on full;
            no_window = λ off. slid ∙ still off;
            recorded = append_header_recorded batch i up raw hash window chain next appended;
          })
        h
