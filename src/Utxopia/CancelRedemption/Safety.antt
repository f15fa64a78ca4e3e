-- ===== src/Utxopia/CancelRedemption/Safety.antt =====
-- `process_cancel_redemption` as a whole: who may cancel, what returns to the pool and what is minted.
use utxopia_solana_programs.Prelude.{◌≡◌, List, ◌∷◌, true, false, All, arith}
use utxopia_solana_programs.Prelude.Results.{Result, ok}
use utxopia_solana_programs.Utxopia.Bytes.{Bytes, range}
use utxopia_solana_programs.Utxopia.CommitmentTree.{Hash}
use utxopia_solana_programs.Utxopia.State.{Store, AccountInfo, PoolState, pool_state}
use utxopia_solana_programs.Utxopia.Validation.{Runtime, redemption_reservation_key}
use utxopia_solana_programs.Utxopia.MarkProcessing.Conservation.{InCustody}
use utxopia_solana_programs.Utxopia.CancelRedemption.{
  CancelRedemptionData, cancel_redemption_data, cancel_for, process_cancel_redemption,
}
use utxopia_solana_programs.Utxopia.CancelRedemption.Release.{IsBacked}
use utxopia_solana_programs.Utxopia.Coins.{Member, Distinct}
use utxopia_solana_programs.Utxopia.CancelRedemption.Cancelled.{Cancelled, cancel_for-Cancelled}

npk-cancel_redemption_data :
    (bytes : Bytes) (ix : CancelRedemptionData)
    → cancel_redemption_data bytes ≡ ok ix
    → ix.npk ≡ range 0 32 bytes
unfolding cancel_redemption_data
npk-cancel_redemption_data bytes ix h = grind arith

module _ (rt : Runtime) (poseidon2_hash : Hash → Hash → Result Hash)
    (poseidon3_hash : Hash → Hash → Hash → Result Hash) where
  cancel_inversion :
      (P : Type 0) (user pool_info redemption_info tree_info system config_info : AccountInfo)
      (infos : List AccountInfo) (bytes : Bytes) (s t : Store)
      → ((pool : PoolState) (ix : CancelRedemptionData)
          → (s pool_info.key).content ≡ pool_state pool
          → cancel_redemption_data bytes ≡ ok ix
          → user.is_signer ≡ true
          → pool.paused ≡ false
          → cancel_for rt poseidon2_hash poseidon3_hash user pool_info redemption_info tree_info
              config_info infos ix s
            ≡ ok t
          → P)
      → process_cancel_redemption rt poseidon2_hash poseidon3_hash
          (user ∷ pool_info ∷ redemption_info ∷ tree_info ∷ system ∷ config_info ∷ infos)
          bytes
          s
        ≡ ok t
      → P
  unfolding process_cancel_redemption
  cancel_inversion P user pool_info redemption_info tree_info system config_info infos bytes s t k
        h =
      grind arith

  -- When `process_cancel_redemption` succeeds on a pool whose counters are the coins among distinct
  -- accounts, the passed UTXO accounts among them, and where each UTXO that is reserved for the
  -- redemption is a coin of the pool of a positive amount, then the pool is not paused; the signer is
  -- the requester; no signing was approved; the redemption was Pending and nothing was released, or
  -- it was in Processing past its timeout and as many UTXOs as were reserved return to the coins;
  -- the counters are the coins again; the tree has a note of the redemption's amount as its new leaf
  -- and the token's ledger is credited with it; and the redemption is closed.
  pub process_cancel_redemption-Cancelled :
      (user pool_info redemption_info tree_info system config_info : AccountInfo)
      (infos : List AccountInfo) (bytes : Bytes) (keys : List Bytes) (s t : Store)
      → Distinct keys
      → All (λ (info : AccountInfo). Member info.key keys) infos
      → InCustody rt s pool_info.key keys
      → IsBacked rt pool_info.key (redemption_reservation_key rt redemption_info.key) s
      → process_cancel_redemption rt poseidon2_hash poseidon3_hash
          (user ∷ pool_info ∷ redemption_info ∷ tree_info ∷ system ∷ config_info ∷ infos)
          bytes
          s
        ≡ ok t
      → (user.is_signer ≡ true)
        × ((pool : PoolState) × ((s pool_info.key).content ≡ pool_state pool)
            × (pool.paused ≡ false))
        × InCustody rt t pool_info.key keys
        × Cancelled rt poseidon2_hash poseidon3_hash s t user.key pool_info.key redemption_info.key
            tree_info.key config_info.key
            (range 0 32 bytes)
            keys
  process_cancel_redemption-Cancelled user pool_info redemption_info tree_info system config_info
        infos bytes keys s t distinct members custody backed h =
      cancel_inversion _ user pool_info redemption_info tree_info system config_info infos bytes s t
        (λ pool ix held data_eq signed running done.
          let (after, cancelled) =
            cancel_for-Cancelled rt poseidon2_hash poseidon3_hash user pool_info redemption_info
              tree_info config_info infos ix keys s t distinct members custody backed done in
          (
            signed,
            (pool, held, running),
            after,
            rw (← npk-cancel_redemption_data bytes ix data_eq) cancelled,
          ))
        h
