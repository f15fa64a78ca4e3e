-- ===== src/Utxopia/Iterators.antt =====
-- The iterators of programs/utxopia: a state with the step `next`, and the consumers of the standard
-- library as functions on the list of the items that `next` gives before its first `None`.
use utxopia_solana_programs.Prelude.{
  ℕ, zero, suc, List, [], ◌∷◌, Bool, true, false, if◌then◌else◌, Option, none, some, ◌≡◌, refl,
  ◌==◌, ◌-◌, arith,
}

module _ {ℓ κ} {A : Type ℓ} {S : Type κ} where
  -- At most `count` items: each item of the iterators here lowers their count of items left.
  abbrev pub items : (S → Option (A × S)) → ℕ → S → List A
  items next zero s = []
  items next (suc count) s = elim (next s) [ none ↦ [] | some (a, t) ↦ a ∷ items next count t ]

  pub items-some :
      (next : S → Option (A × S)) (n : ℕ) (s t : S) (a : A)
      → next s ≡ some (a, t)
      → items next (suc n) s ≡ a ∷ items next n t
  items-some next n s t a e = rw (items, e) refl

  pub items-none : (next : S → Option (A × S)) (n : ℕ) (s : S) → next s ≡ none → items next n s ≡ []
  items-none next zero s e = refl
  items-none next (suc n) s e = rw (items, e) refl

-- One item is left of `n + 1`.
pub suc_left : (n : ℕ) → ((suc n == 0) ≡ false) × (suc n - 1 ≡ n)
suc_left n = (ground arith, omega arith)

module _ {ℓ} {A : Type ℓ} where
  abbrev pub find : (A → Bool) → List A → Option A
  find test [] = none
  find test (x ∷ xs) = if test x then some x else find test xs

  -- `enumerate().find(..)`, counted from `i`.
  abbrev pub find_from : (A → Bool) → ℕ → List A → Option (A × ℕ)
  find_from test i [] = none
  find_from test i (x ∷ xs) = if test x then some (x, i) else find_from test (suc i) xs

  -- `filter(..).count()`.
  abbrev pub count : (A → Bool) → List A → ℕ
  count test [] = 0
  count test (x ∷ xs) = if test x then suc (count test xs) else count test xs

  abbrev pub any : (A → Bool) → List A → Bool
  any test [] = false
  any test (x ∷ xs) = if test x then true else any test xs

  abbrev pub find_map {κ} : {B : Type κ} → (A → Option B) → List A → Option B
  find_map f [] = none
  find_map f (x ∷ xs) = elim (f x) [ none ↦ find_map f xs | some b ↦ some b ]
