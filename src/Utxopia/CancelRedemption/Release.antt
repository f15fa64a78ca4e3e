-- ===== src/Utxopia/CancelRedemption/Release.antt =====
-- Releasing the UTXOs of a redemption gives exactly their coins back to the pool.
use utxopia_solana_programs.Prelude.{
  ℕ, ◌+◌, ◌≤◌, ◌<◌, ◌≡◌, refl, ap, sym, ◌∙◌, List, [], ◌∷◌, ◌++◌, true, false, bytes_eq,
  bytes_eq→eq, Bool-cases, inl, inr, length, arith, All,
}
use utxopia_solana_programs.Prelude.Results.{ok, >>=-eq-ok}
use utxopia_solana_programs.Utxopia.Bytes.{Bytes}
use utxopia_solana_programs.Utxopia.State.{
  Store, AccountInfo, Content, UtxoRecord, unspent, utxo_record, put_content, put_content_here,
  put_content_ne, put_content_other,
}
use utxopia_solana_programs.Utxopia.Validation.{Runtime}
use utxopia_solana_programs.Utxopia.MarkProcessing.{is_unspent, utxo_pda}
use utxopia_solana_programs.Utxopia.CancelRedemption.{release_utxo, release_utxos}
use utxopia_solana_programs.Utxopia.Coins.{
  Member, Distinct, sum_over_drop, coin, coins, weigh, is_utxo,
}

utxo_injective : (a b : UtxoRecord) → utxo_record a ≡ utxo_record b → a ≡ b
utxo_injective a b e = cc

utxo_is_utxo : (c : Content) (utxo : UtxoRecord) → c ≡ utxo_record utxo → is_utxo c ≡ false → ⊥
utxo_is_utxo c utxo e other = cc (ap is_utxo e, other)

-- What is reserved under the key is a coin of the pool, of a positive amount: `reserve_utxo` checks
-- the address, and `check_reserved_inputs` rejects an input of no value.
abbrev pub IsBacked : Runtime → Bytes → ℕ → Store → Type 0
IsBacked rt pool_key reservation_key s =
    (k : Bytes) (utxo : UtxoRecord)
    → (s k).content ≡ utxo_record utxo
    → is_unspent utxo.status ≡ false
    → utxo.reserved_for_request_id ≡ reservation_key
    → (bytes_eq k (utxo_pda rt pool_key utxo) ≡ true) × (0 < utxo.amount_sats)

abbrev freed : UtxoRecord → UtxoRecord
freed utxo = record utxo { status = unspent; reserved_for_request_id = 0 }

-- The amounts that were released, and what they do to the coins.
pub record Released (rt : Runtime) (pool_key : Bytes) (keys : List Bytes) (s t : Store)
    (gain number : ℕ) : Type 0 where
  pub amounts : List ℕ
  pub returned :
      (weight : ℕ → ℕ)
      → coins rt pool_key weight s keys + weigh weight amounts ≡ coins rt pool_key weight t keys
  pub gained : gain ≡ weigh (λ a. a) amounts
  pub counted : weigh (λ a. 1) amounts ≡ number
  pub valued : weigh (λ a. 1) amounts ≤ weigh (λ a. a) amounts
  pub kept : (k : Bytes) → is_utxo (s k).content ≡ false → (t k).content ≡ (s k).content
  pub same_kind : (k : Bytes) → is_utxo (t k).content ≡ is_utxo (s k).content

module _ (rt : Runtime) (pool_key : Bytes) (reservation_key : ℕ) where
  release_utxo_inversion :
      (P : Type 0) (info : AccountInfo) (total sum : ℕ) (s t : Store)
      → ((utxo : UtxoRecord)
          → (s info.key).content ≡ utxo_record utxo
          → is_unspent utxo.status ≡ false
          → utxo.reserved_for_request_id ≡ reservation_key
          → t ≡ put_content s info.key (utxo_record (freed utxo))
          → sum ≡ total + utxo.amount_sats
          → P)
      → release_utxo rt reservation_key info total s ≡ ok (t, sum)
      → P
  unfolding release_utxo
  release_utxo_inversion P info total sum s t k h = grind arith

  coin_back :
      (weight : ℕ → ℕ) (key : Bytes) (utxo : UtxoRecord)
      → is_unspent utxo.status ≡ false
      → bytes_eq key (utxo_pda rt pool_key utxo) ≡ true
      → coin rt pool_key weight key (utxo_record utxo) + weight utxo.amount_sats
        ≡ coin rt pool_key weight key (utxo_record (freed utxo))
  unfolding coin
  coin_back weight key utxo bound pda = rw (bound, pda) (omega arith)

  -- The account of a released UTXO is no longer reserved, and the others are as they were.
  IsBacked-after :
      (s : Store) (key : Bytes) (utxo : UtxoRecord)
      → IsBacked rt pool_key reservation_key s
      → IsBacked rt pool_key reservation_key (put_content s key (utxo_record (freed utxo)))
  IsBacked-after s key utxo backed k other held bound mine = elim (Bool-cases (bytes_eq key k)) [
    | inl e ↦
        let same = utxo_injective (freed utxo) other (
          sym (put_content_here s key (utxo_record (freed utxo)))
          ∙ (ap (λ (x : Bytes). (put_content s key (utxo_record (freed utxo)) x).content)
                (bytes_eq→eq key k e)
              ∙ held)) in
        absurd (cc (ap (λ (u : UtxoRecord). is_unspent u.status) same, bound))
    | inr e ↦ backed k other (sym (put_content_other s key k _ e) ∙ held) bound mine
  ]

  release_utxo-Released :
      (keys : List Bytes) (info : AccountInfo) (total sum : ℕ) (s t : Store)
      → Distinct keys
      → Member info.key keys
      → IsBacked rt pool_key reservation_key s
      → release_utxo rt reservation_key info total s ≡ ok (t, sum)
      → (gain : ℕ) × (sum ≡ total + gain)
        × Released rt pool_key keys s t gain 1
        × IsBacked rt pool_key reservation_key t
  unfolding coins
  release_utxo-Released keys info total sum s t distinct member backed h =
      release_utxo_inversion _ info total sum s t
        (λ utxo held bound mine e sum_eq.
          let (pda, positive) = backed info.key utxo held bound mine in
          let here : (t info.key).content ≡ utxo_record (freed utxo) =
            ap (λ (u : Store). (u info.key).content) e ∙ put_content_here s info.key _ in
          (
            utxo.amount_sats,
            sum_eq,
            record {
              amounts = utxo.amount_sats ∷ [];
              returned = λ weight. omega (
                arith,
                sum_over_drop (λ k. coin rt pool_key weight k (s k).content)
                    (λ k. coin rt pool_key weight k (t k).content) info.key
                    (weight utxo.amount_sats) keys distinct member
                    (rw (here, held) (coin_back weight info.key utxo bound pda))
                    (λ j ne. sym (
                      ap (λ (u : Store). coin rt pool_key weight j (u j).content) e
                      ∙ ap (coin rt pool_key weight j) (put_content_ne s info.key j _ ne))),
              );
              gained = omega arith;
              counted = refl;
              valued = omega (arith, positive);
              kept = λ k other.
                  ap (λ (u : Store). (u k).content) e
                  ∙ put_content_ne s info.key k _ (λ (same : k ≡ info.key).
                    utxo_is_utxo (s k).content utxo (ap (λ (x : Bytes). (s x).content) same ∙ held)
                      other);
              same_kind = λ k. elim (Bool-cases (bytes_eq info.key k)) [
                | inl same ↦
                    let at_k = λ (u : Store).
                      ap (λ (x : Bytes). is_utxo (u x).content) (bytes_eq→eq info.key k same) in
                    sym (at_k t) ∙ (ap is_utxo here ∙ (sym (ap is_utxo held) ∙ at_k s))
                | inr other ↦
                    ap (λ (u : Store). is_utxo (u k).content) e
                    ∙ ap is_utxo (put_content_other s info.key k _ other)
              ];
            },
            rw e (IsBacked-after s info.key utxo backed),
          ))
        h

  pub Released-empty : (keys : List Bytes) (s : Store) → Released rt pool_key keys s s 0 0
  Released-empty keys s = record {
    amounts = [];
    returned = λ weight. omega arith;
    gained = refl;
    counted = refl;
    valued = omega arith;
    kept = λ k other. refl;
    same_kind = λ k. refl;
  }

  weigh-append :
      (weight : ℕ → ℕ) (xs ys : List ℕ)
      → weigh weight (xs ++ ys) ≡ weigh weight xs + weigh weight ys
  weigh-append weight [] ys = omega arith
  weigh-append weight (x ∷ xs) ys = omega (arith, weigh-append weight xs ys)

  Released-append :
      (keys : List Bytes) (s m t : Store) (gain1 gain2 n1 n2 n : ℕ)
      → n1 + n2 ≡ n
      → Released rt pool_key keys s m gain1 n1
      → Released rt pool_key keys m t gain2 n2
      → Released rt pool_key keys s t (gain1 + gain2) n
  Released-append keys s m t gain1 gain2 n1 n2 n e a b = record {
    amounts = a.amounts ++ b.amounts;
    returned = λ weight.
        omega
          (arith, weigh-append weight a.amounts b.amounts, a.returned weight, b.returned weight);
    gained = omega (arith, weigh-append (λ x. x) a.amounts b.amounts, a.gained, b.gained);
    counted = omega (arith, weigh-append (λ x. 1) a.amounts b.amounts, a.counted, b.counted, e);
    valued = omega (
      arith,
      weigh-append (λ x. 1) a.amounts b.amounts,
      weigh-append (λ x. x) a.amounts b.amounts,
      a.valued,
      b.valued,
    );
    kept = λ k other. b.kept k (ap is_utxo (a.kept k other) ∙ other) ∙ a.kept k other;
    same_kind = λ k. b.same_kind k ∙ a.same_kind k;
  }

  pub release_utxos-Released :
      (keys : List Bytes) (infos : List AccountInfo) (total sum : ℕ) (s t : Store)
      → Distinct keys
      → All (λ (info : AccountInfo). Member info.key keys) infos
      → IsBacked rt pool_key reservation_key s
      → release_utxos rt reservation_key infos total s ≡ ok (t, sum)
      → (gain : ℕ) × (sum ≡ total + gain) × Released rt pool_key keys s t gain (length infos)
  unfolding release_utxos
  release_utxos-Released keys [] total sum s t distinct members backed h =
      let s_eq : s ≡ t = cc in
      let sum_eq : total ≡ sum = cc in rw (← s_eq, ← sum_eq) (0, omega arith, Released-empty keys s)
  release_utxos-Released keys (info ∷ infos) total sum s t distinct (m, members) backed h =
      let ((s1, sum1), first, rest) =
        >>=-eq-ok (release_utxo rt reservation_key info total s) _ h in
      let (gain1, eq1, one, backed1) =
        release_utxo-Released keys info total sum1 s s1 distinct m backed first in
      let (gain2, eq2, others) =
        release_utxos-Released keys infos sum1 sum s1 t distinct members backed1 rest in
      (
        gain1 + gain2,
        omega (arith, eq1, eq2),
        Released-append keys s s1 t gain1 gain2 1 (length infos) (length (info ∷ infos))
            (omega arith) one others,
      )
