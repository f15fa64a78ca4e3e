-- ===== src/LightClient/Runtime/Claim.antt =====
-- What `create_or_claim_pda` leaves, in both of its ways.
use utxopia_solana_programs.Prelude.{
  ℕ, ◌-◌, ◌≡◌, ◌≢◌, inl, inr, ◌∙◌, Bool-cases, arith, ◌==◌, bytes_eq→eq,
}
use utxopia_solana_programs.Prelude.Results.{ok, ◌>>=◌, >>=-eq-ok}
use utxopia_solana_programs.LightClient.State.{Bytes, Store}
use utxopia_solana_programs.LightClient.Runtime.{
  Runtime, SystemLaws, top_up, grow, take_over, create_or_claim_pda,
}

-- The owner and the content of one account are as before.
abbrev pub Keeps : Store → Store → Bytes → Type 0
Keeps s t k = ((t k).owner ≡ (s k).owner) × ((t k).content ≡ (s k).content)

pub Keeps-trans : (s t u : Store) (k : Bytes) → Keeps s t k → Keeps t u k → Keeps s u k
Keeps-trans s t u k a b = (b.0 ∙ a.0, b.1 ∙ a.1)

module _ (rt : Runtime) (laws : SystemLaws rt) where
  top_up-Keeps :
      (payer pda : Bytes) (lamports : ℕ) (s t : Store) (k : Bytes)
      → top_up rt payer pda lamports s ≡ ok t
      → Keeps s t k
  unfolding top_up
  top_up-Keeps payer pda lamports s t k h =
      ground (arith, laws.transfer_keeps payer pda (lamports - (s pda).lamports) s t k)

  grow-Keeps :
      (pda : Bytes) (space : ℕ) (s t : Store) (k : Bytes)
      → grow rt pda space s ≡ ok t
      → k ≢ pda
      → Keeps s t k
  unfolding grow
  grow-Keeps pda space s t k h ne = ground (arith, laws.allocate_others pda space s t k)

  take_over-Keeps :
      (pda : Bytes) (s t : Store) (k : Bytes) → take_over rt pda s ≡ ok t → k ≢ pda → Keeps s t k
  unfolding take_over
  take_over-Keeps pda s t k h ne = ground (arith, laws.assign_others pda s t k)

  take_over_owner :
      (pda : Bytes) (s t : Store) → take_over rt pda s ≡ ok t → (t pda).owner ≡ rt.program_id
  unfolding take_over
  take_over_owner pda s t h =
      ground (arith, laws.assign_target pda s t, bytes_eq→eq (s pda).owner rt.program_id)

  -- A claim that succeeds: the account belongs to the program, and no other account's owner or
  -- content is changed.
  pub create_or_claim_pda_lem :
      (payer pda : Bytes) (lamports space : ℕ) (s t : Store)
      → create_or_claim_pda rt payer pda lamports space s ≡ ok t
      → ((t pda).owner ≡ rt.program_id) × ((k : Bytes) → k ≢ pda → Keeps s t k)
  unfolding create_or_claim_pda
  create_or_claim_pda_lem payer pda lamports space s t h =
      elim (Bool-cases ((s pda).lamports == 0)) [
        | inl new ↦
            let made = rw new at h in
            (
              (laws.create_account_target payer pda lamports space s t made).0,
              (λ k ne. laws.create_account_others payer pda lamports space s t k made ne),
            )
        | inr funded ↦
            let claimed = rw funded at h in
            let (u, grown, taken) =
              >>=-eq-ok (top_up rt payer pda lamports s >>= grow rt pda space) (take_over rt pda)
                claimed in
            let (v, paid, sized) =
              >>=-eq-ok (top_up rt payer pda lamports s) (grow rt pda space) grown in
            (
              take_over_owner pda u t taken,
              (λ k ne.
                  Keeps-trans s u t k
                    (Keeps-trans s v u k (top_up-Keeps payer pda lamports s v k paid)
                      (grow-Keeps pda space v u k sized ne))
                    (take_over-Keeps pda u t k taken ne)),
            )
      ]

  pub create_or_claim_pda-Keeps :
      (payer pda : Bytes) (lamports space : ℕ) (s t : Store) (k : Bytes)
      → create_or_claim_pda rt payer pda lamports space s ≡ ok t
      → k ≢ pda
      → Keeps s t k
  create_or_claim_pda-Keeps payer pda lamports space s t k h ne =
      (create_or_claim_pda_lem payer pda lamports space s t h).1 k ne
