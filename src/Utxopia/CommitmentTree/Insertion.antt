-- ===== src/Utxopia/CommitmentTree/Insertion.antt =====
-- Inserting a leaf gives the root of the full sparse tree with that leaf.
use utxopia_solana_programs.Prelude.{
  ℕ, suc, ◌+◌, ◌-◌, ◌*◌, ◌/◌, ◌%◌, ◌≡◌, ◌≤◌, ◌<◌, ◌⊎◌, inl, inr, sym, ap, ◌∙◌, List, [], ◌∷◌, ◌++◌,
  length, arith, Bool-cases, ◌==◌,
}
use utxopia_solana_programs.Prelude.Results.{Result, ok, >>=-eq-ok}
use utxopia_solana_programs.Utxopia.CommitmentTree.{Hash, walk}
use utxopia_solana_programs.Utxopia.CommitmentTree.Sparse.{
  half, IsNode, node, IsNode-at, ZeroHashes, IsNode-append, IsNode-zero,
}

module _ (poseidon2_hash : Hash → Hash → Result Hash) where
  -- Where the next leaf's node is a right child, the frontier holds its left sibling.
  abbrev pub IsFrontier : List Hash → ℕ → ℕ → List Hash → Type 0
  IsFrontier leaves level i [] = Unit
  IsFrontier leaves level i (f ∷ frontier) =
      (i % 2 ≡ 1 → IsNode poseidon2_hash leaves level (i - 1) f)
      × IsFrontier leaves (suc level) (i / 2) frontier

  -- The new leaf's node at a level, `current`; the nodes past it are `below`. The index of the leaf
  -- after it is `next`, the same at this level or one more.
  pub record Climbs (leaves : List Hash) (c current below : Hash) (level next : ℕ) : Type 0 where
    pub here : IsNode poseidon2_hash (leaves ++ c ∷ []) level (half level (length leaves)) current
    pub empty :
        (p : ℕ)
        → half level (length leaves) < p
        → IsNode poseidon2_hash (leaves ++ c ∷ []) level p below
    pub carry : (next ≡ half level (length leaves)) ⊎ (next ≡ suc (half level (length leaves)))

  climb_left :
      (leaves : List Hash) (c current below parent z : Hash) (level next : ℕ)
      → half level (length leaves) % 2 ≡ 0
      → poseidon2_hash current below ≡ ok parent
      → poseidon2_hash below below ≡ ok z
      → Climbs leaves c current below level next
      → Climbs leaves c parent z (suc level) (next / 2)
        × (next % 2 ≡ 1 → IsNode poseidon2_hash (leaves ++ c ∷ []) level (next - 1) current)
  climb_left leaves c current below parent z level next even e law r =
      let i = half level (length leaves) in
      (
        record {
          here =
              node (IsNode-at poseidon2_hash (i / 2 * 2) (omega arith) r.here)
                (r.empty (i / 2 * 2 + 1) (omega arith)) e;
          empty = λ p past. IsNode-zero poseidon2_hash (length leaves) r.empty law past;
          carry = elim r.carry [ inl same ↦ inl (omega arith) | inr up ↦ inl (omega arith) ];
        },
        (λ odd.
            IsNode-at poseidon2_hash (next - 1)
              (elim r.carry [ inl same ↦ absurd (omega arith) | inr up ↦ omega arith ]) r.here),
      )

  climb_right :
      (leaves : List Hash) (c current below parent z f : Hash) (level next : ℕ)
      → half level (length leaves) % 2 ≡ 1
      → IsNode poseidon2_hash leaves level (half level (length leaves) - 1) f
      → poseidon2_hash f current ≡ ok parent
      → poseidon2_hash below below ≡ ok z
      → Climbs leaves c current below level next
      → Climbs leaves c parent z (suc level) (next / 2)
        × (next % 2 ≡ 1 → IsNode poseidon2_hash (leaves ++ c ∷ []) level (next - 1) f)
  climb_right leaves c current below parent z f level next odd left e law r =
      let i = half level (length leaves) in
      let left' = IsNode-append poseidon2_hash c left (omega arith) in
      (
        record {
          here =
              node (IsNode-at poseidon2_hash (i / 2 * 2) (omega arith) left')
                (IsNode-at poseidon2_hash (i / 2 * 2 + 1) (omega arith) r.here) e;
          empty = λ p past. IsNode-zero poseidon2_hash (length leaves) r.empty law past;
          carry = elim r.carry [ inl same ↦ inl (omega arith) | inr up ↦ inr (omega arith) ];
        },
        (λ odd_next.
            IsNode-at poseidon2_hash (next - 1)
              (elim r.carry [ inl same ↦ omega arith | inr up ↦ absurd (omega arith) ]) left'),
      )

  -- The walk up from a level, to the level `top`.
  pub walk-IsNode :
      (leaves : List Hash) (c : Hash) (frontier zeros new : List Hash) (current root below : Hash)
      (level next top : ℕ)
      → level + length frontier ≡ top
      → length frontier ≤ length zeros
      → ZeroHashes poseidon2_hash below zeros
      → IsFrontier leaves level (half level (length leaves)) frontier
      → Climbs leaves c current below level next
      → walk poseidon2_hash frontier (below ∷ zeros) current (half level (length leaves))
        ≡ ok (new, root)
      → (length new ≡ length frontier)
        × IsNode poseidon2_hash (leaves ++ c ∷ []) top (half top (length leaves)) root
        × IsFrontier (leaves ++ c ∷ []) level next new
  unfolding walk
  walk-IsNode leaves c [] zeros new current root below level next top at fits laws fr r h =
      let e : [] ≡ new = cc in
      let e' : current ≡ root = cc in
      let l : level ≡ top = omega arith in (ap length (sym e), rw (← l, ← e') r.here, rw (← e) tt)
  walk-IsNode leaves c (f ∷ frontier) [] new current root below level next top at fits laws fr r h =
      absurd (omega arith)
  walk-IsNode leaves c (f ∷ frontier) (z ∷ zeros) new current root below level next top at fits laws
        fr r h =
      let i = half level (length leaves) in
      elim (Bool-cases (i % 2 == 0)) [
        | inl even ↦
            let (parent, e, h2) = >>=-eq-ok (poseidon2_hash current below) _ (rw even at h) in
            let (step, w, fin) =
              >>=-eq-ok (walk poseidon2_hash frontier (z ∷ zeros) parent (i / 2)) _ h2 in
            let (up, kept) =
              climb_left leaves c current below parent z level next (ground arith) e laws.0 r in
            let (size, top_node, rest) =
              walk-IsNode leaves c frontier zeros step.0 parent step.1 z (suc level) (next / 2) top
                (omega arith) (omega arith) laws.1 fr.1 up w in
            let e1 : current ∷ step.0 ≡ new = cc in
            let e2 : step.1 ≡ root = cc in
            (ap length (sym e1) ∙ ap suc size, rw (← e2) top_node, rw (← e1) (kept, rest))
        | inr odd ↦
            let (parent, e, h2) = >>=-eq-ok (poseidon2_hash f current) _ (rw odd at h) in
            let (step, w, fin) =
              >>=-eq-ok (walk poseidon2_hash frontier (z ∷ zeros) parent (i / 2)) _ h2 in
            let (up, kept) =
              climb_right leaves c current below parent z f level next (ground arith)
                (fr.0 (ground arith)) e laws.0 r in
            let (size, top_node, rest) =
              walk-IsNode leaves c frontier zeros step.0 parent step.1 z (suc level) (next / 2) top
                (omega arith) (omega arith) laws.1 fr.1 up w in
            let e1 : f ∷ step.0 ≡ new = cc in
            let e2 : step.1 ≡ root = cc in
            (ap length (sym e1) ∙ ap suc size, rw (← e2) top_node, rw (← e1) (kept, rest))
      ]
