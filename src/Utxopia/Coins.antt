-- ===== src/Utxopia/Coins.antt =====
-- The coins of a pool: its UTXO records that are not reserved, summed over a list of account keys
-- under a weight, which is the amount for the custody total and 1 for the count.
use utxopia_solana_programs.Prelude.{
  ℕ, ◌+◌, ◌≡◌, ◌≢◌, ◌⊎◌, inl, inr, refl, sym, ◌∙◌, List, [], ◌∷◌, Bool, true, false, ◌&&◌,
  if◌then◌else◌, bytes_eq, arith, All,
}
use utxopia_solana_programs.Utxopia.Bytes.{Bytes}
use utxopia_solana_programs.Utxopia.State.{Store, Content, utxo_record}
use utxopia_solana_programs.Utxopia.Validation.{Runtime}
use utxopia_solana_programs.Utxopia.MarkProcessing.{utxo_pda, is_unspent}

abbrev pub sum_over : (Bytes → ℕ) → List Bytes → ℕ
sum_over f [] = 0
sum_over f (k ∷ keys) = f k + sum_over f keys

abbrev pub Member : Bytes → List Bytes → Type 0
Member k [] = ⊥
Member k (x ∷ keys) = (k ≡ x) ⊎ Member k keys

abbrev pub Distinct : List Bytes → Type 0
Distinct [] = Unit
Distinct (k ∷ keys) = All (λ j. j ≢ k) keys × Distinct keys

sum_over_same :
    (f g : Bytes → ℕ) (k : Bytes) (keys : List Bytes)
    → All (λ j. j ≢ k) keys
    → ((j : Bytes) → j ≢ k → f j ≡ g j)
    → sum_over f keys ≡ sum_over g keys
sum_over_same f g k [] apart same = refl
sum_over_same f g k (x ∷ keys) (ne, apart) same =
    omega (arith, same x ne, sum_over_same f g k keys apart same)

Member-apart : (k x : Bytes) (keys : List Bytes) → All (λ j. j ≢ x) keys → Member k keys → k ≢ x
Member-apart k x [] apart m same = elim m [ ]
Member-apart k x (y ∷ keys) (ne, apart) (inl e) same = ne (sym e ∙ same)
Member-apart k x (y ∷ keys) (ne, apart) (inr m) same = Member-apart k x keys apart m same

-- One key of the list gives up `a`.
pub sum_over_drop :
    (f g : Bytes → ℕ) (k : Bytes) (a : ℕ) (keys : List Bytes)
    → Distinct keys
    → Member k keys
    → f k + a ≡ g k
    → ((j : Bytes) → j ≢ k → f j ≡ g j)
    → sum_over f keys + a ≡ sum_over g keys
sum_over_drop f g k a [] distinct m here same = elim m [ ]
sum_over_drop f g k a (x ∷ keys) (apart, distinct) (inl e) here same =
    omega (arith, rw e at here, sum_over_same f g x keys apart (λ j ne. same j (λ p. ne (p ∙ e))))
sum_over_drop f g k a (x ∷ keys) (apart, distinct) (inr m) here same = omega (
  arith,
  same x (λ p. Member-apart k x keys apart m (sym p)),
  sum_over_drop f g k a keys distinct m here same,
)

abbrev pub weigh : (ℕ → ℕ) → List ℕ → ℕ
weigh weight [] = 0
weigh weight (a ∷ amounts) = weight a + weigh weight amounts

abbrev pub is_utxo : Content → Bool
is_utxo (utxo_record _) = true
is_utxo _ = false

pub sum_over_all_same :
    (f g : Bytes → ℕ) (keys : List Bytes)
    → ((j : Bytes) → f j ≡ g j)
    → sum_over f keys ≡ sum_over g keys
sum_over_all_same f g [] same = refl
sum_over_all_same f g (x ∷ keys) same = omega (arith, same x, sum_over_all_same f g keys same)

module _ (rt : Runtime) (pool_key : Bytes) (weight : ℕ → ℕ) where
  -- The weight of the coin in an account, if it holds one of the pool's.
  unfoldable pub coin : Bytes → Content → ℕ
  coin key (utxo_record utxo) =
      if is_unspent utxo.status && bytes_eq key (utxo_pda rt pool_key utxo)
      then weight utxo.amount_sats
      else 0
  coin key _ = 0

  unfoldable pub coins : Store → List Bytes → ℕ
  unfolding coin
  coins s keys = sum_over (λ k. coin k (s k).content) keys
