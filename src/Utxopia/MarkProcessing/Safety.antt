-- ===== src/Utxopia/MarkProcessing/Safety.antt =====
-- `process_mark_processing` as a whole: who may mark a redemption, and what it leaves.
use utxopia_solana_programs.Prelude.{
  ℕ, zero, suc, ◌≡◌, ◌⊎◌, List, [], ◌∷◌, true, false, bytes_eq→eq, take, All, arith,
}
use utxopia_solana_programs.Prelude.Results.{ok}
use utxopia_solana_programs.Utxopia.Bytes.{Bytes}
use utxopia_solana_programs.Utxopia.State.{
  Store, AccountInfo, PoolState, RedemptionRequest, pool_state, redemption_request,
}
use utxopia_solana_programs.Utxopia.Validation.{Runtime, redemption_driver_is_allowed}
use utxopia_solana_programs.Utxopia.MarkProcessing.{reserve_for, process_mark_processing}
use utxopia_solana_programs.Utxopia.MarkProcessing.Conservation.{InCustody}
use utxopia_solana_programs.Utxopia.MarkProcessing.Custody.{Marked, reserve_for-Marked}
use utxopia_solana_programs.Utxopia.Coins.{Member, Distinct}

-- Who may mark: a signer that is the pool's authority or the requester, while the pool is not paused.
pub record Allowed (s : Store) (pool_key redemption_key : Bytes) (signer : AccountInfo)
    : Type 0 where
  pub pool : PoolState
  pub redemption : RedemptionRequest
  pub pool_held : (s pool_key).content ≡ pool_state pool
  pub redemption_held : (s redemption_key).content ≡ redemption_request redemption
  pub signed : signer.is_signer ≡ true
  pub not_paused : pool.paused ≡ false
  pub driver : (signer.key ≡ pool.authority) ⊎ (signer.key ≡ redemption.requester)

driver_lem :
    (signer authority requester : Bytes)
    → redemption_driver_is_allowed signer authority requester ≡ ok tt
    → (signer ≡ authority) ⊎ (signer ≡ requester)
unfolding redemption_driver_is_allowed
driver_lem signer authority requester h =
    grind (arith, bytes_eq→eq signer authority, bytes_eq→eq signer requester)

pub All-take :
    (P : AccountInfo → Type 0) (n : ℕ) (xs : List AccountInfo) → All P xs → All P (take n xs)
All-take P zero xs all = tt
All-take P (suc n) [] all = tt
All-take P (suc n) (x ∷ xs) (p, all) = (p, All-take P n xs all)

module _ (rt : Runtime) (pool_info redemption_info authority : AccountInfo)
    (utxo_infos : List AccountInfo) (bytes : Bytes) (s t : Store) where
  mark_inversion :
      (P : Type 0)
      → ((pool : PoolState) (redemption : RedemptionRequest) (n : ℕ)
          → (s pool_info.key).content ≡ pool_state pool
          → (s redemption_info.key).content ≡ redemption_request redemption
          → authority.is_signer ≡ true
          → pool.paused ≡ false
          → redemption_driver_is_allowed authority.key pool.authority redemption.requester ≡ ok tt
          → reserve_for rt pool_info.key redemption_info.key (take n utxo_infos) s ≡ ok t
          → P)
      → process_mark_processing rt (pool_info ∷ redemption_info ∷ authority ∷ utxo_infos) bytes s
        ≡ ok t
      → P
  unfolding process_mark_processing
  mark_inversion P k h = grind arith

  -- When `process_mark_processing` succeeds on a pool whose counters are the coins among distinct
  -- accounts, the passed UTXO accounts among them, then a signer who may do so marks; the counters
  -- are the coins again; the redemption goes from Pending to Processing with its amounts; what it
  -- reserved is what left the coins, covers the payout with the largest miner fee admitted, and
  -- would not without any one of the UTXOs.
  pub process_mark_processing-Marked :
      (keys : List Bytes)
      → Distinct keys
      → All (λ (info : AccountInfo). Member info.key keys) utxo_infos
      → InCustody rt s pool_info.key keys
      → process_mark_processing rt (pool_info ∷ redemption_info ∷ authority ∷ utxo_infos) bytes s
        ≡ ok t
      → Allowed s pool_info.key redemption_info.key authority
        × InCustody rt t pool_info.key keys
        × Marked rt s t pool_info.key redemption_info.key keys
  process_mark_processing-Marked keys distinct members custody h =
      mark_inversion _
        (λ pool redemption n held red signed running driver reserved.
          let (after, marked_by) =
            reserve_for-Marked rt pool_info.key redemption_info.key keys (take n utxo_infos) s t
              distinct (All-take _ n utxo_infos members) custody reserved in
          (
            record {
              pool = pool;
              redemption = redemption;
              pool_held = held;
              redemption_held = red;
              signed = signed;
              not_paused = running;
              driver = driver_lem authority.key pool.authority redemption.requester driver;
            },
            after,
            marked_by,
          ))
        h
