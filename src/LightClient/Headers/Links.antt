-- ===== src/LightClient/Headers/Links.antt =====
-- What a batch of headers that is accepted looks like.
use utxopia_solana_programs.Prelude.{
  length, refl, ap, ℕ, zero, suc, ◌+◌, ◌*◌, ◌≡◌, List, [], ◌∷◌, arith,
}
use utxopia_solana_programs.Prelude.Results.{ok, >>=-eq-ok}
use utxopia_solana_programs.LightClient.State.{Bytes}
use utxopia_solana_programs.LightClient.Runtime.{Runtime}
use utxopia_solana_programs.LightClient.Access.{slice}
use utxopia_solana_programs.LightClient.Headers.{Batch, Chain, process_header, process_headers}
use utxopia_solana_programs.LightClient.Headers.Step.{Extends, process_header-Extends}

module _ (rt : Runtime) where
  -- A batch of blocks, each on top of the one before.
  pub data Blocks (batch : Batch) : Chain → List Bytes → Chain → Type 0 where
    done : {chain : Chain} → Blocks batch chain [] chain
    block :
        {chain next last : Chain} {raw : Bytes} {raws : List Bytes}
        → Extends rt batch chain raw next
        → Blocks batch next raws last
        → Blocks batch chain (raw ∷ raws) last

-- The headers `i`, ..., `i + n - 1` of a batch.
abbrev pub raw_headers : Bytes → ℕ → ℕ → List Bytes
raw_headers bytes zero i = []
raw_headers bytes (suc n) i = slice (1 + i * 80) 80 bytes ∷ raw_headers bytes n (suc i)

module _ (rt : Runtime) where
  -- A batch whose headers are processed without error is a chain of blocks on the state that it
  -- starts from: each names the one before, meets the target that it states, counts one more height,
  -- is at most two hours ahead of the clock, adds its work, and on a production network has the required
  -- difficulty and a time past the median; it is recorded under its hash, and the window of times, the
  -- epoch and the time of the parent that the next one is checked against are those after it.
  pub process_headers-Blocks :
      (batch : Batch) (bytes : Bytes) (n i : ℕ) (chain last : Chain)
      → process_headers rt batch bytes n i chain ≡ ok last
      → Blocks rt batch chain (raw_headers bytes n i) last
  unfolding process_headers
  process_headers-Blocks batch bytes zero i chain last h =
      let e : chain ≡ last = cc in rw (← e) done
  process_headers-Blocks batch bytes (suc n) i chain last h =
      let (next, first, rest) =
        >>=-eq-ok (process_header rt batch i (slice (1 + i * 80) 80 bytes) chain)
          (process_headers rt batch bytes n (suc i)) h in
      block (process_header-Extends rt batch i (slice (1 + i * 80) 80 bytes) chain next first)
        (process_headers-Blocks batch bytes n (suc i) next last rest)

  Blocks-height :
      {batch : Batch} {chain last : Chain} {raws : List Bytes}
      → Blocks rt batch chain raws last
      → last.height ≡ chain.height + length raws
  Blocks-height done = omega arith
  Blocks-height (block e b) = omega (arith, e.higher, Blocks-height b)

  length-raw_headers : (bytes : Bytes) (n i : ℕ) → length (raw_headers bytes n i) ≡ n
  length-raw_headers bytes zero i = refl
  length-raw_headers bytes (suc n) i = ap suc (length-raw_headers bytes n (suc i))

  pub height-process_headers :
      (batch : Batch) (bytes : Bytes) (n i : ℕ) (chain last : Chain)
      → process_headers rt batch bytes n i chain ≡ ok last
      → last.height ≡ chain.height + n
  height-process_headers batch bytes n i chain last h = omega (
    arith,
    Blocks-height (process_headers-Blocks batch bytes n i chain last h),
    length-raw_headers bytes n i,
  )
