-- ===== src/Utxopia/MarkProcessing/Conservation.antt =====
-- The parts of `process_mark_processing` behind phase 1: the test of the reserved inputs and the
-- custody counters.
use utxopia_solana_programs.Prelude.{
  ℕ, ◌+◌, ◌-◌, ◌≤◌, ◌<◌, ◌≡◌, refl, ap, sym, ◌∙◌, List, [], ◌∷◌, false, bytes_eq, bytes_eq→eq, min,
  some, All, arith, inl, inr, Bool-cases,
}
use utxopia_solana_programs.Prelude.Results.{ok, >>=-eq-ok}
use utxopia_solana_programs.Utxopia.Bytes.{Bytes}
use utxopia_solana_programs.Utxopia.State.{
  Store, PoolState, Content, raw, utxo_record, pool_state, redemption_request, token_config,
  commitment_tree, put_content, put_content_here, put_content_other,
}
use utxopia_solana_programs.Utxopia.Pool.{utxo_count, remove_utxo}
use utxopia_solana_programs.Utxopia.Pool.Custody.{IsCustody, remove_utxo_lem}
use utxopia_solana_programs.Utxopia.Validation.{Runtime}
use utxopia_solana_programs.Utxopia.MarkProcessing.{
  least, minimum, check_reserved_inputs, remove_utxos, max_miner_fee_sats,
}
use utxopia_solana_programs.Utxopia.Coins.{coin, coins, weigh, is_utxo, sum_over_all_same}

at_most : (m n : ℕ) (xs : List ℕ) → m ≤ n → All (λ x. n ≤ x) xs → All (λ x. m ≤ x) xs
at_most m n [] h all = tt
at_most m n (x ∷ xs) h (le, all) = (omega arith, at_most m n xs h all)

-- The smallest is no larger than any.
minimum_least : (xs : List ℕ) (m : ℕ) → minimum xs ≡ some m → All (λ x. m ≤ x) xs
unfolding minimum
minimum_least [] m h = tt
minimum_least (x ∷ []) m h = let e : x ≡ m = cc in (omega arith, tt)
minimum_least (x ∷ y ∷ xs) m h =
    let below = least y (minimum xs) in
    let e : min x below ≡ m = cc in
    (omega arith, at_most m below (y ∷ xs) (omega arith) (minimum_least (y ∷ xs) below refl))

-- What the inputs fund at most: the payout, and the largest miner fee that is admitted.
abbrev pub required_sats : ℕ → ℕ → ℕ
required_sats amount_sats service_fee =
    amount_sats - service_fee + min max_miner_fee_sats service_fee

check_reserved_inputs_inversion :
    (P : Type 0) (amount_sats service_fee total : ℕ) (spent : List ℕ)
    → ((smallest : ℕ)
        → minimum spent ≡ some smallest
        → required_sats amount_sats service_fee ≤ total
        → total - smallest < required_sats amount_sats service_fee
        → P)
    → check_reserved_inputs amount_sats service_fee total spent ≡ ok tt
    → P
unfolding check_reserved_inputs
check_reserved_inputs_inversion P amount_sats service_fee total spent k h = grind arith

lean_inputs :
    (total smallest required : ℕ) (spent : List ℕ)
    → total - smallest < required
    → All (λ a. smallest ≤ a) spent
    → All (λ a. total - a < required) spent
lean_inputs total smallest required [] h all = tt
lean_inputs total smallest required (a ∷ spent) h (le, all) =
    (omega arith, lean_inputs total smallest required spent h all)

pub check_reserved_inputs_lem :
    (amount_sats service_fee total : ℕ) (spent : List ℕ)
    → check_reserved_inputs amount_sats service_fee total spent ≡ ok tt
    → (required_sats amount_sats service_fee ≤ total)
      × All (λ a. total - a < required_sats amount_sats service_fee) spent
check_reserved_inputs_lem amount_sats service_fee total spent h =
    check_reserved_inputs_inversion _ amount_sats service_fee total spent
      (λ smallest least_eq enough lean.
        (enough, lean_inputs total smallest _ spent lean (minimum_least spent smallest least_eq)))
      h

pub remove_utxos_lem :
    (pool removed : PoolState) (spent : List ℕ)
    → IsCustody pool
    → remove_utxos pool spent ≡ ok removed
    → IsCustody removed
      × (removed.total_btc_held + weigh (λ a. a) spent ≡ pool.total_btc_held)
      × (utxo_count removed + weigh (λ a. 1) spent ≡ utxo_count pool)
unfolding remove_utxos
remove_utxos_lem pool removed [] custody h =
    let e : pool ≡ removed = cc in rw (← e) (custody, omega arith, omega arith)
remove_utxos_lem pool removed (a ∷ spent) custody h =
    let (first, one, rest) = >>=-eq-ok (remove_utxo pool a) _ h in
    let (custody1, held1, count1) = remove_utxo_lem pool first a custody one in
    let (custody2, held2, count2) = remove_utxos_lem first removed spent custody1 rest in
    (custody2, omega (arith, held1, held2), omega (arith, count1, count2))

-- The pool's counters are the coins among the accounts at `keys`.
pub record InCustody (rt : Runtime) (s : Store) (pool_key : Bytes) (keys : List Bytes)
    : Type 0 where
  pub pool : PoolState
  pub held : (s pool_key).content ≡ pool_state pool
  pub custody : IsCustody pool
  pub amount : pool.total_btc_held ≡ coins rt pool_key (λ a. a) s keys
  pub count : utxo_count pool ≡ coins rt pool_key (λ a. 1) s keys

coin_none :
    (rt : Runtime) (pool_key : Bytes) (weight : ℕ → ℕ) (key : Bytes) (c : Content)
    → is_utxo c ≡ false
    → coin rt pool_key weight key c ≡ 0
unfolding coin
coin_none rt pool_key weight key (utxo_record utxo) h = absurd cc
coin_none rt pool_key weight key (raw bytes) h = refl
coin_none rt pool_key weight key (pool_state pool) h = refl
coin_none rt pool_key weight key (redemption_request r) h = refl
coin_none rt pool_key weight key (token_config config) h = refl
coin_none rt pool_key weight key (commitment_tree tree) h = refl

-- An account that held no UTXO record and gets none is no coin before or after.
pub coins-put_content :
    (rt : Runtime) (pool_key : Bytes) (weight : ℕ → ℕ) (s : Store) (key : Bytes) (c : Content)
    (keys : List Bytes)
    → is_utxo (s key).content ≡ false
    → is_utxo c ≡ false
    → coins rt pool_key weight (put_content s key c) keys ≡ coins rt pool_key weight s keys
unfolding coins
coins-put_content rt pool_key weight s key c keys old new =
    sum_over_all_same (λ k. coin rt pool_key weight k (put_content s key c k).content)
      (λ k. coin rt pool_key weight k (s k).content) keys
      (λ k. elim (Bool-cases (bytes_eq key k)) [
        | inl e ↦
            let same = bytes_eq→eq key k e in
            ap (coin rt pool_key weight k) (
              ap (λ (x : Bytes). (put_content s key c x).content) (sym same)
              ∙ put_content_here s key c)
            ∙ (coin_none rt pool_key weight k c new
                ∙ sym (
                    coin_none rt pool_key weight k (s k).content
                      (ap (λ (x : Bytes). is_utxo (s x).content) (sym same) ∙ old)))
        | inr e ↦ ap (coin rt pool_key weight k) (put_content_other s key k c e)
      ])
