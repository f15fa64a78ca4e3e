-- ===== src/LightClient/Headers/Capped.antt =====
-- The difficulty that a batch on a production network keeps.
use utxopia_solana_programs.Prelude.{
  ℕ, suc, ◌%◌, ◌*◌, ◌^◌, ◌≤◌, ◌≡◌, ◌≢◌, Bool, true, Bool-cases, inl, inr, List, ◌==◌, All, arith,
}
use utxopia_solana_programs.Prelude.Results.{ok}
use utxopia_solana_programs.LightClient.State.{Bytes}
use utxopia_solana_programs.LightClient.Runtime.{Runtime}
use utxopia_solana_programs.LightClient.Access.{u32_at, is_production}
use utxopia_solana_programs.LightClient.Utils.Difficulty.{required_bits_for_next_block}
use utxopia_solana_programs.LightClient.Utils.Difficulty.Retarget.{
  target_value, max_target_small, required_bits_capped,
}
use utxopia_solana_programs.LightClient.Headers.{Batch, Chain, process_headers}
use utxopia_solana_programs.LightClient.Headers.Step.{Extends}
use utxopia_solana_programs.LightClient.Headers.Links.{
  Blocks, done, block, raw_headers, process_headers-Blocks,
}

-- Bitcoin's proof-of-work limit.
abbrev pub IsCapped : ℕ → Type 0
IsCapped bits = target_value bits ≤ 0xffff * 2 ^ 208

required-IsCapped :
    (testnet4 : Bool) (height timestamp parent_timestamp epoch_bits epoch_start bits : ℕ)
    → epoch_bits ≢ 0
    → IsCapped epoch_bits
    → required_bits_for_next_block testnet4 height timestamp parent_timestamp epoch_bits epoch_start
      ≡ ok bits
    → IsCapped bits
required-IsCapped testnet4 height timestamp parent epoch start bits seeded capped h =
    let (found, e, le) =
      required_bits_capped testnet4 height timestamp parent epoch start seeded
        (omega (arith, capped, max_target_small)) in
    let same : found ≡ bits = cc (e, h) in
    let small : IsCapped found = omega (arith, le, max_target_small) in rw same at small

module _ (rt : Runtime) (batch : Batch) where
  Extends-IsCapped :
      (raw : Bytes) (chain next : Chain)
      → is_production batch.network ≡ true
      → IsCapped chain.expected_bits
      → Extends rt batch chain raw next
      → IsCapped (u32_at 72 raw) × IsCapped next.expected_bits
  Extends-IsCapped raw chain next on capped e =
      let header : IsCapped (u32_at 72 raw) =
        required-IsCapped _ (suc chain.height) (u32_at 68 raw) chain.parent_timestamp
          chain.expected_bits chain.epoch_start (u32_at 72 raw) (e.seeded on) capped
          (e.required on) in
      elim (Bool-cases (suc chain.height % 2016 == 0)) [
        | inl first ↦ let (bits, start) = e.new_epoch on (ground arith) in (header, rw bits header)
        | inr later ↦
            let (bits, start) = e.same_epoch (inr (λ zero_rest. ground arith)) in
            (header, rw bits capped)
      ]

  Blocks-IsCapped :
      {chain last : Chain} {raws : List Bytes}
      → is_production batch.network ≡ true
      → IsCapped chain.expected_bits
      → Blocks rt batch chain raws last
      → All (λ raw. IsCapped (u32_at 72 raw)) raws × IsCapped last.expected_bits
  Blocks-IsCapped on capped done = (tt, capped)
  Blocks-IsCapped on capped (block {chain = chain} {next = next} {raw = raw} e b) =
      let (header, kept) = Extends-IsCapped raw chain next on capped e in
      let (headers, last) = Blocks-IsCapped on kept b in ((header, headers), last)

  -- On a production network, a batch that starts from an epoch whose target is at most Bitcoin's
  -- limit accepts only headers whose target is at most that limit, across retargets and testnet4's
  -- exceptions, and ends in an epoch whose target is.
  pub process_headers-IsCapped :
      (bytes : Bytes) (n i : ℕ) (chain last : Chain)
      → is_production batch.network ≡ true
      → IsCapped chain.expected_bits
      → process_headers rt batch bytes n i chain ≡ ok last
      → All (λ raw. IsCapped (u32_at 72 raw)) (raw_headers bytes n i) × IsCapped last.expected_bits
  process_headers-IsCapped bytes n i chain last on capped h =
      Blocks-IsCapped on capped (process_headers-Blocks rt batch bytes n i chain last h)
