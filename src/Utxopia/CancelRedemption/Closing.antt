-- ===== src/Utxopia/CancelRedemption/Closing.antt =====
-- Closing the redemption's account.
use utxopia_solana_programs.Prelude.{
  replicate, ℕ, ◌≡◌, ◌≢◌, refl, ap, ◌∙◌, bytes_eq, bytes_eq→eq, Bool-cases, inl, inr, List, arith,
  ◌∷◌,
}
use utxopia_solana_programs.Prelude.Results.{ok}
use utxopia_solana_programs.Utxopia.Bytes.{Bytes}
use utxopia_solana_programs.Utxopia.State.{
  Store, AccountInfo, RedemptionRequest, put_content, put_lamports, put_content_here,
  put_content_ne, raw, redemption_request,
}
use utxopia_solana_programs.Utxopia.Validation.{Runtime, closed, close_account_securely}
use utxopia_solana_programs.Utxopia.MarkProcessing.Conservation.{coins-put_content}
use utxopia_solana_programs.Utxopia.Coins.{coins, is_utxo, coin, sum_over_all_same}

lamports_content :
    (s : Store) (key k : Bytes) (n : ℕ) → (put_lamports s key n k).content ≡ (s k).content
unfolding put_lamports
lamports_content s key k n = elim (Bool-cases (bytes_eq key k)) [
  | inl e ↦ rw e (ap (λ (x : Bytes). (s x).content) (bytes_eq→eq key k e))
  | inr e ↦ rw e refl
]

close_inversion :
    (P : Type 0) (s t : Store) (account destination : AccountInfo)
    → (t ≡ put_content s account.key (closed (s account.key).content) → P)
    → ((total : ℕ)
        → t
          ≡ put_lamports
              (put_lamports
                (put_content s account.key (closed (s account.key).content))
                account.key
                0)
              destination.key
              total
        → P)
    → close_account_securely s account destination ≡ ok t
    → P
unfolding close_account_securely
close_inversion P s t account destination same moved h = grind arith

-- Closing an account writes its content, and else only lamports.
pub close_account_securely_lem :
    (s t : Store) (account destination : AccountInfo)
    → close_account_securely s account destination ≡ ok t
    → (k : Bytes)
    → (t k).content ≡ (put_content s account.key (closed (s account.key).content) k).content
close_account_securely_lem s t account destination h k =
    let s1 = put_content s account.key (closed (s account.key).content) in
    close_inversion _ s t account destination (λ e. ap (λ (u : Store). (u k).content) e)
      (λ total e.
        ap (λ (u : Store). (u k).content) e
        ∙ (lamports_content (put_lamports s1 account.key 0) destination.key k total
            ∙ lamports_content s1 account.key k 0))
      h

-- Stores of the same contents have the same coins.
coins_same :
    (rt : Runtime) (pool_key : Bytes) (weight : ℕ → ℕ) (s t : Store) (keys : List Bytes)
    → ((k : Bytes) → (s k).content ≡ (t k).content)
    → coins rt pool_key weight s keys ≡ coins rt pool_key weight t keys
unfolding coins
coins_same rt pool_key weight s t keys same =
    sum_over_all_same _ _ keys (λ k. ap (coin rt pool_key weight k) (same k))

module _ (rt : Runtime) where
  -- Closing the redemption leaves the other accounts and the coins.
  pub closing_lem :
      (s t : Store) (account destination : AccountInfo) (r : RedemptionRequest) (pool_key : Bytes)
      (keys : List Bytes)
      → (s account.key).content ≡ redemption_request r
      → close_account_securely s account destination ≡ ok t
      → ((k : Bytes) → k ≢ account.key → (t k).content ≡ (s k).content)
        × ((t account.key).content ≡ raw (255 ∷ replicate 177 0))
        × ((weight : ℕ → ℕ) → coins rt pool_key weight t keys ≡ coins rt pool_key weight s keys)
  closing_lem s t account destination r pool_key keys held h =
      let final = close_account_securely_lem s t account destination h in
      (
        λ k ne. final k ∙ put_content_ne s account.key k _ ne,
        final account.key ∙ (put_content_here s account.key _ ∙ ap closed held),
        λ weight.
            coins_same rt pool_key weight t _ keys final
            ∙ coins-put_content rt pool_key weight s account.key _ keys (ap is_utxo held)
                (ap (λ x. is_utxo (closed x)) held),
      )
