-- ===== src/Prelude/Results.antt =====
-- `Result<T, ProgramError>`: the errors that the programs return, and the `?` operator as `do`.
use mathlib.Core.Path.{◌≡◌, refl}
use mathlib.Core.Logic.{◌⊎◌, inl, inr}
use mathlib.Core.Bool.{Bool, true, false}
use mathlib.Core.Option.{Option, none, some}

-- The variants of pinocchio's `ProgramError` that the code names, the program's own errors that
-- it converts into it, and the abort of a panicking instruction (an index out of range).
pub data Error : Type 0 where
  invalid_instruction_data invalid_account_data invalid_argument invalid_seeds : Error
  not_enough_account_keys missing_required_signature illegal_owner : Error
  arithmetic_overflow account_already_initialized insufficient_funds : Error
  pool_paused unauthorized invalid_account_owner account_not_writable : Error
  no_pending_proposal timelock_not_elapsed invalid_redemption_state : Error
  redemption_cancel_not_allowed : Error
  invalid_utxo utxo_not_unspent insufficient_reserved_inputs excessive_reserved_inputs : Error
  redemption_output_mismatch amount_too_small : Error
  redemption_amount_exceeds_limit redemption_fee_exceeds_limit : Error
  tree_full empty_commitment_batch hash_failed system_error panicked : Error

pub data Result {ℓ} (T : Type ℓ) : Type ℓ where
  ok : T → Result T
  err : Error → Result T

-- The `?` operator: an error returns at once.
infixl 5 ◌>>=◌
abbrev pub ◌>>=◌ {ℓ κ} : {T : Type ℓ} {U : Type κ} → Result T → (T → Result U) → Result U
err error >>= next = err error
ok value >>= next = next value

-- `if !test { return Err(e) }` and `if test { return Err(e) }`.
abbrev pub require : Bool → Error → Result (Unit {0})
require true e = ok tt
require false e = err e

abbrev pub reject : Bool → Error → Result (Unit {0})
reject true e = err e
reject false e = ok tt

abbrev pub ok_or {ℓ} : {A : Type ℓ} → Option A → Error → Result A
ok_or none e = err e
ok_or (some a) e = ok a

infixl 5 ◌>>◌
abbrev pub ◌>>◌ {ℓ} : {T : Type ℓ} → Result (Unit {0}) → Result T → Result T
check >> rest = check >>= λ _. rest

-- A bind that succeeds has a first part that succeeds.
pub >>=-eq-ok {ℓ κ} :
    {T : Type ℓ} {U : Type κ} (first : Result T) (next : T → Result U) {u : U}
    → (first >>= next) ≡ ok u
    → (t : T) × (first ≡ ok t) × (next t ≡ ok u)
>>=-eq-ok (err error) next h = cc
>>=-eq-ok (ok value) next h = (value, refl, h)

abbrev pub is_ok {ℓ} : {T : Type ℓ} → Result T → Bool
is_ok (ok t) = true
is_ok (err e) = false

-- The only error that `r` can be is `error`.
pub record FailsOnlyWith {ℓ} {T : Type ℓ} (error : Error) (r : Result T) : Type ℓ where
  pub only : (e : Error) → r ≡ err e → e ≡ error

pub >>=-FailsOnlyWith {ℓ κ} :
    {T : Type ℓ} {U : Type κ} {error : Error} (first : Result T) {next : T → Result U}
    → FailsOnlyWith error first
    → ((t : T) → first ≡ ok t → FailsOnlyWith error (next t))
    → FailsOnlyWith error (first >>= next)
>>=-FailsOnlyWith (err e) h k = record { only = λ e' p. h.only e' (cc p) }
>>=-FailsOnlyWith (ok t) h k = k t refl

pub Result-cases {ℓ} :
    {T : Type ℓ} (r : Result T) → ((e : Error) × (r ≡ err e)) ⊎ ((t : T) × (r ≡ ok t))
Result-cases (err e) = inl (e, refl)
Result-cases (ok t) = inr (t, refl)
