-- ===== src/Utxopia/Bitcoin/Lookup.antt =====
-- The searches through the outputs and inputs of a parsed transaction, and the deposit OP_RETURN.
use utxopia_solana_programs.Prelude.{
  ℕ, zero, suc, ◌+◌, ◌%◌, ◌≤◌, ◌<◌, ◌≡◌, ◌≢◌, ◌↔◌, inl, inr, refl, ap, sym, ◌∙◌, List, [], ◌∷◌,
  Bool, true, false, bytes_eq, bytes_eq→eq, bytes_eq_refl, eq→bytes_eq, Bool-cases, arith, length,
  get_elem?, Option, none, some,
}
use utxopia_solana_programs.Prelude.Numbers.{u32_mod}
use utxopia_solana_programs.Utxopia.Bytes.{Bytes}
use utxopia_solana_programs.Utxopia.Iterators.{find_from, any}
use utxopia_solana_programs.Utxopia.Bitcoin.{ParsedTransaction}
use utxopia_solana_programs.Utxopia.Bitcoin.Outputs.{
  TxOutput, outputs, find_output_by_script, has_script, with_vout,
}
use utxopia_solana_programs.Utxopia.Bitcoin.Inputs.{
  TxInput, inputs, is_outpoint, find_input_with_prev_outpoint,
}

module _ {ℓ} {A : Type ℓ} (test : A → Bool) where
  -- The element at `k` of `xs` is `x`, and it is the first that passes the test.
  pub record First (xs : List A) (x : A) (k : ℕ) : Type ℓ where
    pub at : get_elem? xs k ≡ some x
    pub inside : k < length xs
    pub passes : test x ≡ true
    pub earlier : (m : ℕ) (y : A) → m < k → get_elem? xs m ≡ some y → test y ≡ false

  First-later :
      (x y : A) (xs : List A) (k : ℕ) → test y ≡ false → First xs x k → First (y ∷ xs) x (suc k)
  First-later x y xs k fails f = record {
    at = f.at;
    inside = omega (arith, f.inside);
    passes = f.passes;
    earlier = λ m z. earlier_cases m z;
  }
    where
      earlier_cases : (m : ℕ) (z : A) → m < suc k → get_elem? (y ∷ xs) m ≡ some z → test z ≡ false
      earlier_cases zero z h e = cc
      earlier_cases (suc m) z h e = f.earlier m z (omega arith) e

  pub find_from-First :
      (i j : ℕ) (xs : List A) (x : A)
      → find_from test i xs ≡ some (x, j)
      → (k : ℕ) × (j ≡ i + k) × First xs x k
  find_from-First i j [] x h = absurd cc
  find_from-First i j (y ∷ xs) x h = elim (Bool-cases (test y)) [
    | inl e ↦
        let found : some (y, i) ≡ some (x, j) = rw e at h in
        let same : y ≡ x = cc in
        let place : i ≡ j = cc in
        (
          0,
          omega (arith, place),
          record {
            at = ap some same;
            inside = omega arith;
            passes = cc;
            earlier = λ m z lt. absurd (omega (arith, lt));
          },
        )
    | inr e ↦
        let (k, place, f) = find_from-First (suc i) j xs x (rw e at h) in
        (suc k, omega (arith, place), First-later x y xs k e f)
  ]

with_vout-some :
    (found : Option (TxOutput × ℕ)) (output : TxOutput) (vout : ℕ)
    → with_vout found ≡ some (output, vout)
    → (i : ℕ) × (found ≡ some (output, i)) × (vout ≡ i % u32_mod)
with_vout-some none output vout h = absurd cc
with_vout-some (some (o, i)) output vout h =
    let same : o ≡ output = cc in
    let place : i % u32_mod ≡ vout = cc in (i, ap (λ t. some (t, i)) same, sym place)

has_script_not :
    (output : TxOutput) (script : Bytes)
    → has_script script output ≡ false
    → output.script_pubkey ≢ script
has_script_not output script h e = grind (arith, eq→bytes_eq output.script_pubkey script e)

-- When `find_output_by_script` returns an output and its vout, of a transaction with at most 2 ^ 32
-- outputs, the output stands at that place, has the script, and no output before it has the script.
pub find_output_by_script-First :
    (tx : ParsedTransaction) (script : Bytes) (output : TxOutput) (vout : ℕ)
    → length (outputs tx) ≤ u32_mod
    → find_output_by_script tx script ≡ some (output, vout)
    → (get_elem? (outputs tx) vout ≡ some output)
      × (output.script_pubkey ≡ script)
      × ((m : ℕ) (other : TxOutput)
          → m < vout
          → get_elem? (outputs tx) m ≡ some other
          → other.script_pubkey ≢ script)
unfolding find_output_by_script
find_output_by_script-First tx script output vout few h =
    let (i, found, wrapped) =
      with_vout-some (find_from (has_script script) 0 (outputs tx)) output vout h in
    let (k, place, f) = find_from-First (has_script script) 0 i (outputs tx) output found in
    let vout_eq : vout ≡ k = omega (arith, wrapped, place, f.inside, few) in
    rw vout_eq (
      f.at,
      bytes_eq→eq output.script_pubkey script f.passes,
      λ m other lt at same. has_script_not other script (f.earlier m other lt at) same,
    )

module _ {ℓ} {A : Type ℓ} (test : A → Bool) where
  any-some :
      (xs : List A)
      → any test xs ≡ true
      → (k : ℕ) × (x : A) × (get_elem? xs k ≡ some x) × (test x ≡ true)
  any-some [] h = absurd cc
  any-some (x ∷ xs) h = elim (Bool-cases (test x)) [
    | inl e ↦ (0, x, refl, e)
    | inr e ↦ let (k, y, at, passes) = any-some xs (rw e at h) in (suc k, y, at, passes)
  ]

  any_at :
      (xs : List A) (k : ℕ) (x : A) → get_elem? xs k ≡ some x → test x ≡ true → any test xs ≡ true
  any_at [] k x at e = absurd cc
  any_at (y ∷ xs) zero x at e = let same : y ≡ x = cc in rw (same, e) refl
  any_at (y ∷ xs) (suc k) x at e = elim (Bool-cases (test y)) [
    | inl passes ↦ rw passes refl
    | inr fails ↦ rw fails (any_at xs k x at e)
  ]

is_outpoint_eq :
    (txid : Bytes) (vout : ℕ) (input : TxInput)
    → is_outpoint txid vout input ≡ true
    → input ≡ record { prev_txid = txid; prev_vout = vout }
is_outpoint_eq txid vout input h =
    let hash : bytes_eq input.prev_txid txid ≡ true = grind arith in
    let index : input.prev_vout ≡ vout = grind arith in
    ap (λ (t : Bytes). record { prev_txid = t; prev_vout = input.prev_vout })
      (bytes_eq→eq input.prev_txid txid hash)
    ∙ ap (λ (v : ℕ). record { prev_txid = txid; prev_vout = v }) index

is_outpoint_refl :
    (txid : Bytes) (vout : ℕ)
    → is_outpoint txid vout (record { prev_txid = txid; prev_vout = vout }) ≡ true
is_outpoint_refl txid vout = rw (bytes_eq_refl txid) (ground arith)

-- `find_input_with_prev_outpoint` tells whether some input spends exactly the given outpoint.
pub find_input_with_prev_outpoint_iff :
    (tx : ParsedTransaction) (txid : Bytes) (vout : ℕ)
    → (find_input_with_prev_outpoint tx txid vout ≡ true)
      ↔ ((k : ℕ) × (get_elem? (inputs tx) k ≡ some (record { prev_txid = txid; prev_vout = vout })))
unfolding find_input_with_prev_outpoint
find_input_with_prev_outpoint_iff tx txid vout = (
  λ h.
      let (k, input, at, e) = any-some (is_outpoint txid vout) (inputs tx) h in
      (k, at ∙ ap some (is_outpoint_eq txid vout input e)),
  λ (k, at). any_at (is_outpoint txid vout) (inputs tx) k _ at (is_outpoint_refl txid vout),
)
