-- ===== src/Utxopia/CompleteRedemption/Payout.antt =====
-- Where the value of a transaction's outputs goes when they are within the redemption policy.
use utxopia_solana_programs.Prelude.{
  ℕ, suc, ◌+◌, ◌-◌, ◌≤◌, ◌<◌, ◌≡◌, ◌≢◌, ◌⊎◌, inl, inr, refl, ap, sym, ◌∙◌, List, [], ◌∷◌, true,
  false, ltb, if◌then◌else◌, bytes_eq→eq, length, min, Option, none, some, Bool-cases, arith,
  get_or,
}
use utxopia_solana_programs.Prelude.Numbers.{u64_mod, saturating_add, checked_add}
use utxopia_solana_programs.Prelude.Results.{ok, >>=-eq-ok, ok_or, arithmetic_overflow}
use utxopia_solana_programs.Utxopia.Bytes.{Bytes}
use utxopia_solana_programs.Utxopia.Iterators.{find_from}
use utxopia_solana_programs.Utxopia.Bitcoin.Outputs.{
  TxOutput, has_script, is_op_return, op_return, sum_values,
}
use utxopia_solana_programs.Utxopia.CompleteRedemption.{policy_loop, received_loop}

-- The values of all outputs, and of those with a script.
abbrev pub all_values : List TxOutput → ℕ
all_values [] = 0
all_values (output ∷ rest) = output.value + all_values rest

abbrev pub values_with : Bytes → List TxOutput → ℕ
values_with script [] = 0
values_with script (output ∷ rest) =
    (if has_script script output then output.value else 0) + values_with script rest

pub sum_values_capped :
    (total : ℕ) (os : List TxOutput)
    → total < u64_mod
    → sum_values total os ≡ min (total + all_values os) (u64_mod - 1)
unfolding sum_values
sum_values_capped total [] h = omega arith
sum_values_capped total (o ∷ os) h =
    omega (arith, sum_values_capped (saturating_add total o.value) os (omega arith))

pub received_loop_lem :
    (script : Bytes) (total received : ℕ) (os : List TxOutput)
    → received_loop script total os ≡ ok received
    → received ≡ total + values_with script os
unfolding received_loop
received_loop_lem script total received [] h = let e : total ≡ received = cc in omega arith
received_loop_lem script total received (o ∷ os) h = elim (Bool-cases (has_script script o)) [
  | inl e ↦
      let (sum, added, rest) =
        >>=-eq-ok (ok_or (checked_add total o.value) arithmetic_overflow) _ (rw e at h) in
      let sum_eq : sum ≡ total + o.value = grind arith in
      rw e (omega (arith, sum_eq, received_loop_lem script sum received os rest))
  | inr e ↦ rw e (omega (arith, received_loop_lem script total received os (rw e at h)))
]

-- A script that is not an OP_RETURN.
abbrev pub IsPayable : Bytes → Type 0
IsPayable script = get_or script 0 0 ≢ op_return

op_return_apart :
    (script : Bytes) (o : TxOutput)
    → IsPayable script
    → is_op_return o ≡ true
    → has_script script o ≡ false
unfolding is_op_return
op_return_apart script o payable h = elim (Bool-cases (has_script script o)) [
  | inl e ↦
      let same = bytes_eq→eq o.script_pubkey script e in
      let first : get_or o.script_pubkey 0 0 ≡ 106 = grind arith in
      absurd (payable (ap (λ (s : Bytes). get_or s 0 0) (sym same) ∙ first))
  | inr e ↦ e
]

-- The value of the output that is tracked as change: none without a pool script.
abbrev pub change_value : Option (TxOutput × ℕ) → ℕ
change_value none = 0
change_value (some (output, vout)) = output.value

abbrev pub tracked_change : Bytes → List TxOutput → ℕ
tracked_change pool_script os =
    if ltb 0 (length pool_script) then change_value (find_from (has_script pool_script) 0 os) else 0

-- After the change output, or without a pool script, only the recipient is paid.
pub policy_closed :
    (r p : Bytes) (changes : ℕ) (os : List TxOutput)
    → (length p ≡ 0) ⊎ (1 ≤ changes)
    → policy_loop r p changes os ≡ true
    → all_values os ≡ values_with r os
unfolding policy_loop
policy_closed r p changes [] closed h = refl
policy_closed r p changes (o ∷ os) closed h = grind (arith, policy_closed r p changes os closed)

scripts_apart :
    (r p : Bytes) (o : TxOutput) → r ≢ p → has_script r o ≡ true → has_script p o ≡ false
scripts_apart r p o ne h = elim (Bool-cases (has_script p o)) [
  | inl e ↦ absurd (ne (sym (bytes_eq→eq o.script_pubkey r h) ∙ bytes_eq→eq o.script_pubkey p e))
  | inr e ↦ e
]

-- Up to the change output, the recipient is paid, and the first output with the pool's script is the
-- change.
pub policy_tracked :
    (r p : Bytes) (i : ℕ) (os : List TxOutput)
    → IsPayable p
    → r ≢ p
    → 0 < length p
    → policy_loop r p 0 os ≡ true
    → all_values os ≡ values_with r os + change_value (find_from (has_script p) i os)
unfolding policy_loop
policy_tracked r p i [] payable ne some_script h = refl
policy_tracked r p i (o ∷ os) payable ne some_script h = grind (
  arith,
  op_return_apart p o payable,
  scripts_apart r p o ne,
  policy_closed r p 1 os (inr (omega arith)),
  policy_tracked r p (suc i) os payable ne some_script,
)
