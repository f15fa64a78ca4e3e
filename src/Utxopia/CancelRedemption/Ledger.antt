-- ===== src/Utxopia/CancelRedemption/Ledger.antt =====
-- What a cancellation writes behind the release: the note in the tree, the token's ledger and the pool's
-- counters.
use utxopia_solana_programs.Prelude.{ℕ, ◌+◌, ◌≡◌, ◌≢◌, refl, ap, sym, ◌∙◌, List, arith}
use utxopia_solana_programs.Prelude.Results.{Result, ok}
use utxopia_solana_programs.Utxopia.Bytes.{Bytes}
use utxopia_solana_programs.Utxopia.CommitmentTree.{Hash, CommitmentTree, insert_leaf}
use utxopia_solana_programs.Utxopia.State.{
  Store, PoolState, RedemptionRequest, TokenConfig, Content, pool_state, token_config,
  commitment_tree, put_content, put_content_here, put_content_ne,
}
use utxopia_solana_programs.Utxopia.Pool.{utxo_count, set_utxo_count, add_utxos}
use utxopia_solana_programs.Utxopia.Pool.Custody.{IsCustody}
use utxopia_solana_programs.Utxopia.Validation.{Runtime}
use utxopia_solana_programs.Utxopia.MarkProcessing.Conservation.{coins-put_content}
use utxopia_solana_programs.Utxopia.CancelRedemption.{
  CancelRedemptionData, add_token_shielded, credited, compute_commitment, mint_again,
}
use utxopia_solana_programs.Utxopia.Coins.{coins, is_utxo}

-- A total of zero comes with a count of zero, so the count is restored with the total.
pub credited_lem :
    (pool after : PoolState) (total_shielded total count now : ℕ)
    → IsCustody pool
    → (total ≡ 0 → count ≡ 0)
    → credited pool total_shielded total count now ≡ ok after
    → IsCustody after
      × (after.total_btc_held ≡ pool.total_btc_held + total)
      × (utxo_count after ≡ utxo_count pool + count)
      × (after.total_shielded ≡ total_shielded)
unfolding credited add_utxos utxo_count set_utxo_count
credited_lem pool after total_shielded total count now (wide, lo, hi) together h = grind arith

-- The accounts that the note is minted into, before and after.
pub record Minted (poseidon2_hash : Hash → Hash → Result Hash) (s t : Store)
    (tree_key config_key : Bytes) (commitment : Hash) (amount : ℕ) : Type 0 where
  pub tree : CommitmentTree
  pub grown : CommitmentTree
  pub leaf_index : ℕ
  pub config : TokenConfig
  pub shielded : TokenConfig
  pub tree_held : (s tree_key).content ≡ commitment_tree tree
  pub tree_stored : (t tree_key).content ≡ commitment_tree grown
  pub inserted : insert_leaf poseidon2_hash tree commitment ≡ ok (grown, leaf_index)
  pub config_held : (s config_key).content ≡ token_config config
  pub config_stored : (t config_key).content ≡ token_config shielded
  pub credited_token : shielded.total_shielded ≡ config.total_shielded + amount

-- The same, seen from stores that agree on the two accounts.
pub Minted-framed :
    (poseidon2_hash : Hash → Hash → Result Hash) (s t s1 t1 : Store) (tree_key config_key : Bytes)
    (commitment : Hash) (amount : ℕ)
    → Minted poseidon2_hash s1 t1 tree_key config_key commitment amount
    → (s tree_key).content ≡ (s1 tree_key).content
    → (s config_key).content ≡ (s1 config_key).content
    → (t tree_key).content ≡ (t1 tree_key).content
    → (t config_key).content ≡ (t1 config_key).content
    → Minted poseidon2_hash s t tree_key config_key commitment amount
Minted-framed poseidon2_hash s t s1 t1 tree_key config_key commitment amount m tree config tree'
      config' =
    record {
      tree = m.tree;
      grown = m.grown;
      leaf_index = m.leaf_index;
      config = m.config;
      shielded = m.shielded;
      tree_held = tree ∙ m.tree_held;
      tree_stored = tree' ∙ m.tree_stored;
      inserted = m.inserted;
      config_held = config ∙ m.config_held;
      config_stored = config' ∙ m.config_stored;
      credited_token = m.credited_token;
    }

add_token_shielded_lem :
    (config shielded : TokenConfig) (amount : ℕ)
    → add_token_shielded config amount ≡ ok shielded
    → shielded.total_shielded ≡ config.total_shielded + amount
unfolding add_token_shielded
add_token_shielded_lem config shielded amount h = grind arith

tree_not_pool :
    (c d : Content) (tree : CommitmentTree) (pool : PoolState)
    → c ≡ commitment_tree tree
    → d ≡ pool_state pool
    → c ≡ d
    → ⊥
tree_not_pool c d tree pool a b e = cc

config_not_pool :
    (c d : Content) (config : TokenConfig) (pool : PoolState)
    → c ≡ token_config config
    → d ≡ pool_state pool
    → c ≡ d
    → ⊥
config_not_pool c d config pool a b e = cc

config_not_tree :
    (c d : Content) (config : TokenConfig) (tree : CommitmentTree)
    → c ≡ token_config config
    → d ≡ commitment_tree tree
    → c ≡ d
    → ⊥
config_not_tree c d config tree a b e = cc

pub pool_injective : (a b : PoolState) → pool_state a ≡ pool_state b → a ≡ b
pool_injective a b e = cc

module _ (rt : Runtime) (poseidon2_hash : Hash → Hash → Result Hash)
    (poseidon3_hash : Hash → Hash → Hash → Result Hash) where
  mint_inversion :
      (P : Type 0) (tree_key config_key pool_key : Bytes) (r : RedemptionRequest)
      (ix : CancelRedemptionData) (total : ℕ) (s t : Store)
      → ((commitment : Hash) (tree : CommitmentTree) (found : CommitmentTree × ℕ)
            (config shielded : TokenConfig) (pool after : PoolState)
          → compute_commitment rt poseidon2_hash poseidon3_hash ix.npk r.token_id r.amount_sats
            ≡ ok commitment
          → (s tree_key).content ≡ commitment_tree tree
          → insert_leaf poseidon2_hash tree commitment ≡ ok found
          → (put_content s tree_key (commitment_tree found.0) config_key).content
            ≡ token_config config
          → add_token_shielded config r.amount_sats ≡ ok shielded
          → (put_content
              (put_content s tree_key (commitment_tree found.0))
              config_key
              (token_config shielded)
              pool_key).content
            ≡ pool_state pool
          → credited pool shielded.total_shielded total ix.utxo_count rt.unix_timestamp ≡ ok after
          → t
            ≡ put_content
                (put_content
                  (put_content s tree_key (commitment_tree found.0))
                  config_key
                  (token_config shielded))
                pool_key
                (pool_state after)
          → P)
      → mint_again rt poseidon2_hash poseidon3_hash tree_key config_key pool_key r ix total s ≡ ok t
      → P
  unfolding mint_again
  mint_inversion P tree_key config_key pool_key r ix total s t k h = grind arith

  -- Minting the note leaves the coins, and credits the pool with what was released.
  pub mint_again-Minted :
      (tree_key config_key pool_key : Bytes) (r : RedemptionRequest) (ix : CancelRedemptionData)
      (total : ℕ) (s t : Store) (pool : PoolState) (keys : List Bytes)
      → (s pool_key).content ≡ pool_state pool
      → mint_again rt poseidon2_hash poseidon3_hash tree_key config_key pool_key r ix total s ≡ ok t
      → (commitment : Hash) × (after : PoolState) × (compute_commitment rt poseidon2_hash
            poseidon3_hash ix.npk r.token_id r.amount_sats
          ≡ ok commitment)
        × Minted poseidon2_hash s t tree_key config_key commitment r.amount_sats
        × ((shielded : ℕ) × (credited pool shielded total ix.utxo_count rt.unix_timestamp
              ≡ ok after))
        × ((t pool_key).content ≡ pool_state after)
        × ((weight : ℕ → ℕ) → coins rt pool_key weight t keys ≡ coins rt pool_key weight s keys)
        × ((k : Bytes)
            → k ≢ tree_key
            → k ≢ config_key
            → k ≢ pool_key
            → (t k).content ≡ (s k).content)
  mint_again-Minted tree_key config_key pool_key r ix total s t pool keys held h =
      mint_inversion _ tree_key config_key pool_key r ix total s t
        (λ commitment tree found config shielded p after note at_tree inserted at_config added
            at_pool paid e.
          let s1 = put_content s tree_key (commitment_tree found.0) in
          let s2 = put_content s1 config_key (token_config shielded) in
          let tree_pool : tree_key ≢ pool_key = λ (x : tree_key ≡ pool_key).
            tree_not_pool (s tree_key).content (s pool_key).content tree pool at_tree held
              (ap (λ (k : Bytes). (s k).content) x) in
          let pool1 : (s1 pool_key).content ≡ pool_state pool =
            put_content_ne s tree_key pool_key _ (λ x. tree_pool (sym x)) ∙ held in
          let config_pool : config_key ≢ pool_key = λ (x : config_key ≡ pool_key).
            config_not_pool (s1 config_key).content (s1 pool_key).content config pool at_config
              pool1 (ap (λ (k : Bytes). (s1 k).content) x) in
          let pool2 : (s2 pool_key).content ≡ pool_state pool =
            put_content_ne s1 config_key pool_key _ (λ x. config_pool (sym x)) ∙ pool1 in
          let config_tree : config_key ≢ tree_key = λ (x : config_key ≡ tree_key).
            config_not_tree (s1 config_key).content (s1 tree_key).content config found.0 at_config
              (put_content_here s tree_key _) (ap (λ (k : Bytes). (s1 k).content) x) in
          let p_eq : p ≡ pool = pool_injective p pool (sym at_pool ∙ pool2) in
          let last = λ (k : Bytes). ap (λ (u : Store). (u k).content) e in
          (
            commitment,
            after,
            note,
            record {
              tree = tree;
              grown = found.0;
              leaf_index = found.1;
              config = config;
              shielded = shielded;
              tree_held = at_tree;
              tree_stored =
                  last tree_key
                  ∙ (put_content_ne s2 pool_key tree_key _ tree_pool
                      ∙ (put_content_ne s1 config_key tree_key _ (λ x. config_tree (sym x))
                          ∙ put_content_here s tree_key _));
              inserted = inserted;
              config_held = sym (put_content_ne s tree_key config_key _ config_tree) ∙ at_config;
              config_stored =
                  last config_key
                  ∙ (put_content_ne s2 pool_key config_key _ config_pool
                      ∙ put_content_here s1 config_key _);
              credited_token = add_token_shielded_lem config shielded r.amount_sats added;
            },
            (shielded.total_shielded, rw p_eq at paid),
            last pool_key ∙ put_content_here s2 pool_key _,
            λ weight.
                ap (λ (u : Store). coins rt pool_key weight u keys) e
                ∙ (coins-put_content rt pool_key weight s2 pool_key _ keys (ap is_utxo pool2) refl
                    ∙ (coins-put_content rt pool_key weight s1 config_key _ keys
                          (ap is_utxo at_config) refl
                        ∙ coins-put_content rt pool_key weight s tree_key _ keys
                            (ap is_utxo at_tree) refl)),
            λ k not_tree not_config not_pool.
                last k
                ∙ (put_content_ne s2 pool_key k _ not_pool
                    ∙ (put_content_ne s1 config_key k _ not_config
                        ∙ put_content_ne s tree_key k _ not_tree)),
          ))
        h
