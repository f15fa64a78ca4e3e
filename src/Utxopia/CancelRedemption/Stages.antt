-- ===== src/Utxopia/CancelRedemption/Stages.antt =====
-- At which stage a redemption can be cancelled, and what its UTXOs are then.
use utxopia_solana_programs.Prelude.{
  ℕ, ◌≤◌, ◌≡◌, ◌⊎◌, inl, inr, List, Bool, true, false, bytes_eq→eq, length, All, arith,
}
use utxopia_solana_programs.Prelude.Results.{ok}
use utxopia_solana_programs.Utxopia.Bytes.{Bytes}
use utxopia_solana_programs.Utxopia.State.{
  Store, AccountInfo, RedemptionRequest, pending, processing,
}
use utxopia_solana_programs.Utxopia.Validation.{Runtime, redemption_reservation_key}
use utxopia_solana_programs.Utxopia.CancelRedemption.{
  redemption_timeout_slots, slots_elapsed, release_utxos, check_cancel, restore,
}
use utxopia_solana_programs.Utxopia.CancelRedemption.Release.{
  IsBacked, Released, Released-empty, release_utxos-Released,
}
use utxopia_solana_programs.Utxopia.Coins.{Member, Distinct}

-- A redemption that nothing was reserved for, or one whose time for processing is over, where
-- everything that was reserved returns.
pub data Stage (rt : Runtime) (redemption : RedemptionRequest) (number : ℕ) : Type 0 where
  was_pending : redemption.status ≡ pending → number ≡ 0 → Stage rt redemption number
  timed_out :
      redemption.status ≡ processing
      → redemption_timeout_slots ≤ slots_elapsed rt.slot redemption.processing_slot
      → number ≡ redemption.reserved_count
      → Stage rt redemption number

pub check_cancel_lem :
    (rt : Runtime) (P : Type 0) (user : Bytes) (r : RedemptionRequest) (was : Bool)
    → (user ≡ r.requester
        → r.signing_approved ≡ false
        → (was ≡ false) × (r.status ≡ pending)
          ⊎ (was ≡ true)
            × (r.status ≡ processing)
            × (redemption_timeout_slots ≤ slots_elapsed rt.slot r.processing_slot)
        → P)
    → check_cancel rt user r ≡ ok was
    → P
unfolding check_cancel
check_cancel_lem rt P user r was k h = grind (arith, bytes_eq→eq user r.requester)

restore_lem :
    (rt : Runtime) (was : Bool) (r : RedemptionRequest) (key : Bytes) (infos : List AccountInfo)
    (count total : ℕ) (s t : Store)
    → restore rt was r key infos count s ≡ ok (t, total)
    → ((was ≡ true)
        × (count ≡ r.reserved_count)
        × (release_utxos rt (redemption_reservation_key rt key) infos 0 s ≡ ok (t, total)))
      ⊎ ((was ≡ false) × (count ≡ 0) × (t ≡ s) × (total ≡ 0))
unfolding restore
restore_lem rt was r key infos count total s t h = grind arith

pub restore-Released :
    (rt : Runtime) (pool_key : Bytes) (keys : List Bytes) (was : Bool) (r : RedemptionRequest)
    (key : Bytes) (infos : List AccountInfo) (count total : ℕ) (s t : Store)
    → Distinct keys
    → All (λ (info : AccountInfo). Member info.key keys) infos
    → IsBacked rt pool_key (redemption_reservation_key rt key) s
    → length infos ≡ count
    → restore rt was r key infos count s ≡ ok (t, total)
    → Released rt pool_key keys s t total count
      × ((was ≡ true) × (count ≡ r.reserved_count) ⊎ (was ≡ false) × (count ≡ 0))
restore-Released rt pool_key keys was r key infos count total s t distinct members backed size h =
    elim (restore_lem rt was r key infos count total s t h) [
      | inl (is_true, all, released) ↦
          let (gain, e, back) =
            release_utxos-Released rt pool_key (redemption_reservation_key rt key) keys infos 0
              total s t distinct members backed released in
          let gain_eq : total ≡ gain = omega (arith, e) in
          (rw (gain_eq, ← size) back, inl (is_true, all))
      | inr (is_false, none_passed, same, zero_total) ↦ (
        rw (same, zero_total, none_passed)
            (Released-empty rt pool_key (redemption_reservation_key rt key) keys s),
        inr (is_false, none_passed),
      )
    ]

pub Stage-of :
    (rt : Runtime) (r : RedemptionRequest) (was : Bool) (count : ℕ)
    → (was ≡ false) × (r.status ≡ pending)
      ⊎ (was ≡ true)
        × (r.status ≡ processing)
        × (redemption_timeout_slots ≤ slots_elapsed rt.slot r.processing_slot)
    → (was ≡ true) × (count ≡ r.reserved_count) ⊎ (was ≡ false) × (count ≡ 0)
    → Stage rt r count
Stage-of rt r was count (inl (is_false, status)) (inl (is_true, all)) = absurd cc
Stage-of rt r was count (inl (is_false, status)) (inr (still, none_passed)) =
    was_pending status none_passed
Stage-of rt r was count (inr (is_true, status, late)) (inl (still, all)) = timed_out status late all
Stage-of rt r was count (inr (is_true, status, late)) (inr (is_false, none_passed)) = absurd cc
