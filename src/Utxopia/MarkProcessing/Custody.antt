-- ===== src/Utxopia/MarkProcessing/Custody.antt =====
-- Phases 1 and 2 keep the pool's custody counters equal to the coins that are not reserved, and
-- reserve enough for the payout and no more than it needs.
use utxopia_solana_programs.Prelude.{
  ℕ, ◌+◌, ◌-◌, ◌≤◌, ◌<◌, ◌≡◌, ◌≢◌, refl, ap, sym, ◌∙◌, List, true, false, All, arith,
}
use utxopia_solana_programs.Prelude.Results.{ok}
use utxopia_solana_programs.Utxopia.Bytes.{Bytes}
use utxopia_solana_programs.Utxopia.State.{
  Store, AccountInfo, PoolState, Content, RedemptionRequest, RedemptionStatus, pending, processing,
  failed, pool_state, redemption_request, put_content, put_content_here, put_content_ne,
}
use utxopia_solana_programs.Utxopia.Validation.{Runtime, redemption_reservation_key}
use utxopia_solana_programs.Utxopia.Sighash.{ReservedInput}
use utxopia_solana_programs.Utxopia.MarkProcessing.{
  is_pending, amounts, check_reserved_inputs, remove_utxos, reserve_utxos, reserve_for, marked,
}
use utxopia_solana_programs.Utxopia.MarkProcessing.Reservation.{reserve_utxos-coins}
use utxopia_solana_programs.Utxopia.MarkProcessing.Conservation.{
  required_sats, check_reserved_inputs_lem, remove_utxos_lem, InCustody, coins-put_content,
}
use utxopia_solana_programs.Utxopia.Coins.{Member, Distinct, coins, weigh, is_utxo}

-- The redemption before and after, and the amounts of the UTXOs that were reserved for it.
pub record Marked (rt : Runtime) (s t : Store) (pool_key redemption_key : Bytes) (keys : List Bytes)
    : Type 0 where
  pub before : RedemptionRequest
  pub after : RedemptionRequest
  pub spent : List ℕ
  pub held : (s redemption_key).content ≡ redemption_request before
  pub stored : (t redemption_key).content ≡ redemption_request after
  pub was_pending : before.status ≡ pending
  pub now_processing : after.status ≡ processing
  pub amount_kept : after.amount_sats ≡ before.amount_sats
  pub fee_kept : after.service_fee ≡ before.service_fee
  pub added_up : after.total_input_sats ≡ weigh (λ a. a) spent
  pub taken :
      (weight : ℕ → ℕ)
      → coins rt pool_key weight t keys + weigh weight spent ≡ coins rt pool_key weight s keys
  pub funded : required_sats before.amount_sats before.service_fee ≤ after.total_input_sats
  pub lean :
      All
        (λ a. after.total_input_sats - a < required_sats before.amount_sats before.service_fee)
        spent

is_pending_eq : (status : RedemptionStatus) → is_pending status ≡ true → status ≡ pending
is_pending_eq pending h = refl
is_pending_eq processing h = absurd cc
is_pending_eq failed h = absurd cc

pool_not_redemption :
    (s : Store) (a b : Bytes) (p : PoolState) (r : RedemptionRequest)
    → (s a).content ≡ pool_state p
    → (s b).content ≡ redemption_request r
    → a ≢ b
pool_not_redemption s a b p r pa rb e = cc (ap (λ (k : Bytes). (s k).content) e)

module _ (rt : Runtime) (pool_key redemption_key : Bytes) (infos : List AccountInfo)
    (s t : Store) where
  reserve_for_inversion :
      (P : Type 0)
      → ((r again : RedemptionRequest) (s1 : Store) (total : ℕ) (inputs : List ReservedInput)
            (p removed : PoolState)
          → (s redemption_key).content ≡ redemption_request r
          → is_pending r.status ≡ true
          → reserve_utxos rt pool_key (redemption_reservation_key rt redemption_key) infos 0 s
            ≡ ok (s1, total, inputs)
          → check_reserved_inputs r.amount_sats r.service_fee total (amounts inputs) ≡ ok tt
          → (s1 pool_key).content ≡ pool_state p
          → remove_utxos p (amounts inputs) ≡ ok removed
          → (put_content s1 pool_key (pool_state removed) redemption_key).content
            ≡ redemption_request again
          → t
            ≡ put_content
                (put_content s1 pool_key (pool_state removed))
                redemption_key
                (redemption_request (marked rt infos again total inputs))
          → P)
      → reserve_for rt pool_key redemption_key infos s ≡ ok t
      → P
  unfolding reserve_for
  reserve_for_inversion P k h = grind arith

redemption_injective :
    (a b : RedemptionRequest) → redemption_request a ≡ redemption_request b → a ≡ b
redemption_injective a b e = cc

pool_injective : (a b : PoolState) → pool_state a ≡ pool_state b → a ≡ b
pool_injective a b e = cc

is_utxo_pool : (c : Content) (p : PoolState) → c ≡ pool_state p → is_utxo c ≡ false
is_utxo_pool c p e = ap is_utxo e

is_utxo_redemption :
    (c : Content) (r : RedemptionRequest) → c ≡ redemption_request r → is_utxo c ≡ false
is_utxo_redemption c r e = ap is_utxo e

marked_lem :
    (rt : Runtime) (infos : List AccountInfo) (r : RedemptionRequest) (total : ℕ)
    (inputs : List ReservedInput)
    → ((marked rt infos r total inputs).status ≡ processing)
      × ((marked rt infos r total inputs).amount_sats ≡ r.amount_sats)
      × ((marked rt infos r total inputs).service_fee ≡ r.service_fee)
      × ((marked rt infos r total inputs).total_input_sats ≡ total)
unfolding marked
marked_lem rt infos r total inputs = (refl, refl, refl, refl)

pub reserve_for-Marked :
    (rt : Runtime) (pool_key redemption_key : Bytes) (keys : List Bytes) (infos : List AccountInfo)
    (s t : Store)
    → Distinct keys
    → All (λ (info : AccountInfo). Member info.key keys) infos
    → InCustody rt s pool_key keys
    → reserve_for rt pool_key redemption_key infos s ≡ ok t
    → InCustody rt t pool_key keys × Marked rt s t pool_key redemption_key keys
reserve_for-Marked rt pool_key redemption_key keys infos s t distinct members c h =
    reserve_for_inversion rt pool_key redemption_key infos s t _
      (λ r again s1 total inputs p removed held was_pending reserved fits at_pool gone at_again e.
        let spent = amounts inputs in
        let phase1 = λ (weight : ℕ → ℕ).
          reserve_utxos-coins rt pool_key (redemption_reservation_key rt redemption_key) weight keys
            infos 0 total s s1 inputs distinct members reserved in
        let pool_kept = (phase1 (λ a. a)).2 pool_key (is_utxo_pool _ c.pool c.held) in
        let red_kept = (phase1 (λ a. a)).2 redemption_key (is_utxo_redemption _ r held) in
        let p_eq = pool_injective p c.pool (sym at_pool ∙ (pool_kept ∙ c.held)) in
        let (custody, less, fewer) =
          remove_utxos_lem c.pool removed spent c.custody (rw p_eq at gone) in
        let apart = pool_not_redemption s pool_key redemption_key c.pool r c.held held in
        let s2 = put_content s1 pool_key (pool_state removed) in
        let final = marked rt infos again total inputs in
        let again_eq : again ≡ r = redemption_injective again r (
          sym at_again
          ∙ (put_content_ne s1 pool_key redemption_key _ (λ x. apart (sym x))
              ∙ (red_kept ∙ held))) in
        let t_red : (t redemption_key).content ≡ redemption_request final =
          ap (λ (u : Store). (u redemption_key).content) e
          ∙ put_content_here s2 redemption_key (redemption_request final) in
        let t_pool : (t pool_key).content ≡ pool_state removed =
          ap (λ (u : Store). (u pool_key).content) e
          ∙ (put_content_ne s2 redemption_key pool_key _ apart
              ∙ put_content_here s1 pool_key (pool_state removed)) in
        let same_coins : (weight : ℕ → ℕ)
            → coins rt pool_key weight t keys ≡ coins rt pool_key weight s1 keys =
          λ weight.
            ap (λ (u : Store). coins rt pool_key weight u keys) e
            ∙ (coins-put_content rt pool_key weight s2 redemption_key _ keys
                  (is_utxo_redemption _ again at_again) refl
                ∙ coins-put_content rt pool_key weight s1 pool_key _ keys (is_utxo_pool _ p at_pool)
                    refl) in
        let (st, am, fe, to) = marked_lem rt infos again total inputs in
        let (enough, lean) =
          check_reserved_inputs_lem r.amount_sats r.service_fee total spent fits in
        (
          record {
            pool = removed;
            held = t_pool;
            custody = custody;
            amount = omega (arith, less, c.amount, (phase1 (λ a. a)).0, same_coins (λ a. a));
            count = omega (arith, fewer, c.count, (phase1 (λ a. 1)).0, same_coins (λ a. 1));
          },
          record {
            before = r;
            after = final;
            spent = spent;
            held = held;
            stored = t_red;
            was_pending = is_pending_eq r.status was_pending;
            now_processing = st;
            amount_kept = am ∙ ap (λ (x : RedemptionRequest). x.amount_sats) again_eq;
            fee_kept = fe ∙ ap (λ (x : RedemptionRequest). x.service_fee) again_eq;
            added_up = omega (arith, to, (phase1 (λ a. a)).1);
            taken = λ weight. omega (arith, (phase1 weight).0, same_coins weight);
            funded = rw to enough;
            lean = rw to lean;
          },
        ))
      h
