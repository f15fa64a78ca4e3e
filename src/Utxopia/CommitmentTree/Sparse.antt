-- ===== src/Utxopia/CommitmentTree/Sparse.antt =====
-- The full sparse Merkle tree over a list of leaves, which the frontier stands for.
use utxopia_solana_programs.Prelude.{
  ℕ, zero, suc, ◌+◌, ◌*◌, ◌/◌, ◌≡◌, ◌≤◌, ◌<◌, refl, List, [], ◌∷◌, ◌++◌, length, length-append,
  get_or, arith,
}
use utxopia_solana_programs.Prelude.Results.{Result, ok}
use utxopia_solana_programs.Utxopia.CommitmentTree.{Hash, zero_hash}

-- A number halved some times: the index of a leaf's node at a level.
abbrev pub half : ℕ → ℕ → ℕ
half zero n = n
half (suc level) n = half level n / 2

module _ (poseidon2_hash : Hash → Hash → Result Hash) where
  -- The node at a level and an index; leaves that are not there are zero.
  pub data IsNode (leaves : List Hash) : ℕ → ℕ → Hash → Type 0 where
    leaf : (i : ℕ) → IsNode leaves 0 i (get_or leaves i zero_hash)
    node :
        {level i : ℕ} {left right parent : Hash}
        → IsNode leaves level (i * 2) left
        → IsNode leaves level (i * 2 + 1) right
        → poseidon2_hash left right ≡ ok parent
        → IsNode leaves (suc level) i parent

  -- The hashes of empty subtrees, from a level up.
  abbrev pub ZeroHashes : Hash → List Hash → Type 0
  ZeroHashes below [] = Unit
  ZeroHashes below (z ∷ zeros) = (poseidon2_hash below below ≡ ok z) × ZeroHashes z zeros

  get_or-append :
      (xs : List Hash) (c : Hash) (i : ℕ)
      → i < length xs
      → get_or (xs ++ c ∷ []) i zero_hash ≡ get_or xs i zero_hash
  get_or-append [] c i h = absurd (omega arith)
  get_or-append (x ∷ xs) c zero h = refl
  get_or-append (x ∷ xs) c (suc i) h = get_or-append xs c i (omega arith)

  get_or-last : (xs : List Hash) (c : Hash) → get_or (xs ++ c ∷ []) (length xs) zero_hash ≡ c
  get_or-last [] c = refl
  get_or-last (x ∷ xs) c = get_or-last xs c

  get_or-past : (xs : List Hash) (i : ℕ) → length xs ≤ i → get_or xs i zero_hash ≡ zero_hash
  get_or-past [] i h = refl
  get_or-past (x ∷ xs) zero h = absurd (omega arith)
  get_or-past (x ∷ xs) (suc i) h = get_or-past xs i (omega arith)

  pub IsNode-at :
      {leaves : List Hash} {level i : ℕ} (j : ℕ) {h : Hash}
      → i ≡ j
      → IsNode leaves level i h
      → IsNode leaves level j h
  IsNode-at j e n = rw (← e) n

  -- A node whose subtree is filled does not change when a leaf is added.
  pub IsNode-append :
      {leaves : List Hash} (c : Hash) {level i : ℕ} {h : Hash}
      → IsNode leaves level i h
      → i < half level (length leaves)
      → IsNode (leaves ++ c ∷ []) level i h
  IsNode-append {leaves} c (leaf i) filled = rw (← get_or-append leaves c i filled) (leaf i)
  IsNode-append c (node l r e) filled =
      node (IsNode-append c l (omega arith)) (IsNode-append c r (omega arith)) e

  -- A node is determined by its place.
  pub IsNode-unique :
      {leaves : List Hash} {level i : ℕ} {a b : Hash}
      → IsNode leaves level i a
      → IsNode leaves level i b
      → a ≡ b
  IsNode-unique (leaf i) (leaf _) = refl
  IsNode-unique (node l r e) (node l' r' e') =
      let same_left = IsNode-unique l l' in let same_right = IsNode-unique r r' in cc

  -- Past the leaves a node is that of an empty subtree.
  pub IsNode-zero :
      {leaves : List Hash} (n : ℕ) {level i : ℕ} {below above : Hash}
      → ((p : ℕ) → half level n < p → IsNode leaves level p below)
      → poseidon2_hash below below ≡ ok above
      → half (suc level) n < i
      → IsNode leaves (suc level) i above
  IsNode-zero n {i = i} empty e past =
      node (empty (i * 2) (omega arith)) (empty (i * 2 + 1) (omega arith)) e

  pub leaf-zero :
      (leaves : List Hash) (c : Hash) (p : ℕ)
      → length leaves < p
      → IsNode (leaves ++ c ∷ []) 0 p zero_hash
  leaf-zero leaves c p past =
      let all = leaves ++ c ∷ [] in
      rw (← get_or-past all p (omega (arith, length-append leaves (c ∷ [])))) (leaf p)

  pub leaf-last : (leaves : List Hash) (c : Hash) → IsNode (leaves ++ c ∷ []) 0 (length leaves) c
  leaf-last leaves c =
      let last : IsNode (leaves ++ c ∷ []) 0 (length leaves)
          (get_or (leaves ++ c ∷ []) (length leaves) zero_hash) =
        leaf (length leaves) in
      rw (get_or-last leaves c) at last

  -- A tree without leaves.
  pub leaf-none : (p : ℕ) → IsNode [] 0 p zero_hash
  leaf-none p = leaf p

  pub IsNode-none :
      {level : ℕ} {below above : Hash}
      → ((p : ℕ) → IsNode [] level p below)
      → poseidon2_hash below below ≡ ok above
      → (p : ℕ) → IsNode [] (suc level) p above
  IsNode-none empty e p = node (empty (p * 2)) (empty (p * 2 + 1)) e
