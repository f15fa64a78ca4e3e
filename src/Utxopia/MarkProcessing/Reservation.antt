-- ===== src/Utxopia/MarkProcessing/Reservation.antt =====
-- Reserving UTXOs takes exactly their coins out of the pool.
use utxopia_solana_programs.Prelude.{
  ℕ, ◌+◌, ◌≡◌, refl, ap, ◌∙◌, List, [], ◌∷◌, true, false, bytes_eq, arith, All,
}
use utxopia_solana_programs.Prelude.Results.{ok, >>=-eq-ok}
use utxopia_solana_programs.Utxopia.Bytes.{Bytes}
use utxopia_solana_programs.Utxopia.State.{
  Store, AccountInfo, Content, UtxoRecord, reserved, utxo_record, put_content, put_content_here,
  put_content_ne,
}
use utxopia_solana_programs.Utxopia.Sighash.{ReservedInput}
use utxopia_solana_programs.Utxopia.Validation.{Runtime}
use utxopia_solana_programs.Utxopia.MarkProcessing.{
  is_unspent, utxo_pda, reserved_input, amounts, reserve_utxo, reserve_utxos,
}
use utxopia_solana_programs.Utxopia.Coins.{
  Member, Distinct, sum_over_drop, coin, coins, weigh, is_utxo,
}

utxo_not_other : (c : Content) (utxo : UtxoRecord) → c ≡ utxo_record utxo → is_utxo c ≡ false → ⊥
utxo_not_other c utxo e other = cc (ap is_utxo e, other)

module _ (rt : Runtime) (pool_key : Bytes) (reservation_key : ℕ) where
  reserve_utxo_inversion :
      (P : Type 0) (info : AccountInfo) (total sum : ℕ) (s t : Store) (input : ReservedInput)
      → ((utxo : UtxoRecord)
          → (s info.key).content ≡ utxo_record utxo
          → is_unspent utxo.status ≡ true
          → bytes_eq info.key (utxo_pda rt pool_key utxo) ≡ true
          → t
            ≡ put_content s info.key (
                utxo_record
                  (record utxo { status = reserved; reserved_for_request_id = reservation_key }))
          → sum ≡ total + utxo.amount_sats
          → input ≡ reserved_input utxo
          → P)
      → reserve_utxo rt pool_key reservation_key info total s ≡ ok (t, sum, input)
      → P
  unfolding reserve_utxo
  reserve_utxo_inversion P info total sum s t input k h = grind arith

  coin_spent :
      (weight : ℕ → ℕ) (key : Bytes) (utxo : UtxoRecord)
      → is_unspent utxo.status ≡ true
      → bytes_eq key (utxo_pda rt pool_key utxo) ≡ true
      → coin rt pool_key weight key (
            utxo_record
              (record utxo { status = reserved; reserved_for_request_id = reservation_key }))
          + weight utxo.amount_sats
        ≡ coin rt pool_key weight key (utxo_record utxo)
  unfolding coin
  coin_spent weight key utxo free pda = rw (free, pda) (omega arith)

  reserve_utxo-coins :
      (weight : ℕ → ℕ) (keys : List Bytes) (info : AccountInfo) (total sum : ℕ) (s t : Store)
      (input : ReservedInput)
      → Distinct keys
      → Member info.key keys
      → reserve_utxo rt pool_key reservation_key info total s ≡ ok (t, sum, input)
      → (coins rt pool_key weight t keys + weight input.amount_sats
          ≡ coins rt pool_key weight s keys)
        × (sum ≡ total + input.amount_sats)
  unfolding coins
  reserve_utxo-coins weight keys info total sum s t input distinct member h =
      reserve_utxo_inversion _ info total sum s t input
        (λ utxo held free pda e sum_eq input_eq.
          let amount_eq : input.amount_sats ≡ utxo.amount_sats = ap (λ i. i.amount_sats) input_eq in
          let here : (t info.key).content
              ≡ utxo_record
                  (record utxo { status = reserved; reserved_for_request_id = reservation_key }) =
            ap (λ (u : Store). (u info.key).content) e ∙ put_content_here s info.key _ in
          (
            sum_over_drop (λ k. coin rt pool_key weight k (t k).content)
                (λ k. coin rt pool_key weight k (s k).content) info.key (weight input.amount_sats)
                keys distinct member
                (rw (here, held, amount_eq) (coin_spent weight info.key utxo free pda))
                (λ j ne.
                  ap (λ (u : Store). coin rt pool_key weight j (u j).content) e
                  ∙ ap (coin rt pool_key weight j) (put_content_ne s info.key j _ ne)),
            omega (arith, sum_eq, amount_eq),
          ))
        h

  reserve_utxo_keeps :
      (info : AccountInfo) (total sum : ℕ) (s t : Store) (input : ReservedInput) (k : Bytes)
      → is_utxo (s k).content ≡ false
      → reserve_utxo rt pool_key reservation_key info total s ≡ ok (t, sum, input)
      → (t k).content ≡ (s k).content
  reserve_utxo_keeps info total sum s t input k other h =
      reserve_utxo_inversion _ info total sum s t input
        (λ utxo held free pda e sum_eq input_eq.
          ap (λ (u : Store). (u k).content) e
          ∙ put_content_ne s info.key k _ (λ (same : k ≡ info.key).
            utxo_not_other (s k).content utxo (ap (λ (x : Bytes). (s x).content) same ∙ held)
              other))
        h

  -- Phase 1 as a whole: the reserved amounts are added up, their coins leave the pool's, and no
  -- account but UTXO records changes.
  pub reserve_utxos-coins :
      (weight : ℕ → ℕ) (keys : List Bytes) (infos : List AccountInfo) (total sum : ℕ) (s t : Store)
      (inputs : List ReservedInput)
      → Distinct keys
      → All (λ (info : AccountInfo). Member info.key keys) infos
      → reserve_utxos rt pool_key reservation_key infos total s ≡ ok (t, sum, inputs)
      → (coins rt pool_key weight t keys + weigh weight (amounts inputs)
          ≡ coins rt pool_key weight s keys)
        × (sum ≡ total + weigh (λ a. a) (amounts inputs))
        × ((k : Bytes) → is_utxo (s k).content ≡ false → (t k).content ≡ (s k).content)
  unfolding reserve_utxos
  reserve_utxos-coins weight keys [] total sum s t inputs distinct members h =
      let s_eq : s ≡ t = cc in
      let sum_eq : total ≡ sum = cc in
      let none_left : [] ≡ inputs = cc in
      rw (← s_eq, ← sum_eq, ← none_left) (omega arith, omega arith, λ k other. refl)
  reserve_utxos-coins weight keys (info ∷ infos) total sum s t inputs distinct (m, members) h =
      let ((s1, sum1, input), first, rest) =
        >>=-eq-ok (reserve_utxo rt pool_key reservation_key info total s) _ h in
      let ((s2, sum2, rest_inputs), others, last) =
        >>=-eq-ok (reserve_utxos rt pool_key reservation_key infos sum1 s1) _ rest in
      let (coins1, total1) =
        reserve_utxo-coins weight keys info total sum1 s s1 input distinct m first in
      let (coins2, total2, kept) =
        reserve_utxos-coins weight keys infos sum1 sum2 s1 s2 rest_inputs distinct members others in
      let s_eq : s2 ≡ t = cc in
      let sum_eq : sum2 ≡ sum = cc in
      let inputs_eq : input ∷ rest_inputs ≡ inputs = cc in
      rw (← s_eq, ← sum_eq, ← inputs_eq)
        (
          omega (arith, coins1, coins2),
          omega (arith, total1, total2),
          λ k other.
              let step = reserve_utxo_keeps info total sum1 s s1 input k other first in
              kept k (ap is_utxo step ∙ other) ∙ step,
        )
