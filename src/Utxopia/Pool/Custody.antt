-- ===== src/Utxopia/Pool/Custody.antt =====
-- The two custody counters of the pool, as the UTXO operations move them.
use utxopia_solana_programs.Prelude.{ℕ, ◌+◌, ◌<◌, ◌≡◌, arith}
use utxopia_solana_programs.Prelude.Numbers.{u16_mod, u32_mod, u64_mod}
use utxopia_solana_programs.Prelude.Results.{ok}
use utxopia_solana_programs.Utxopia.State.{PoolState}
use utxopia_solana_programs.Utxopia.Pool.{utxo_count, set_utxo_count, add_utxos, remove_utxo}

-- The widths of the custody counters.
abbrev pub IsCustody : PoolState → Type 0
IsCustody pool =
    (pool.total_btc_held < u64_mod)
    × (pool.utxo_count_lo < u16_mod)
    × (pool.utxo_count_hi < u16_mod)

pub utxo_count-set_utxo_count :
    (pool : PoolState) (v : ℕ) → v < u32_mod → utxo_count (set_utxo_count pool v) ≡ v
unfolding utxo_count set_utxo_count
utxo_count-set_utxo_count pool v h = omega arith

-- Taking one UTXO out lowers the total by its amount and the count by one.
pub remove_utxo_lem :
    (pool removed : PoolState) (amount : ℕ)
    → IsCustody pool
    → remove_utxo pool amount ≡ ok removed
    → IsCustody removed
      × (removed.total_btc_held + amount ≡ pool.total_btc_held)
      × (utxo_count removed + 1 ≡ utxo_count pool)
unfolding remove_utxo utxo_count set_utxo_count
remove_utxo_lem pool removed amount (wide, lo, hi) h = grind arith

pub add_utxos_lem :
    (pool added : PoolState) (amount count : ℕ)
    → IsCustody pool
    → add_utxos pool amount count ≡ ok added
    → IsCustody added
      × (added.total_btc_held ≡ pool.total_btc_held + amount)
      × (utxo_count added ≡ utxo_count pool + count)
unfolding add_utxos utxo_count set_utxo_count
add_utxos_lem pool added amount count (wide, lo, hi) h = grind arith
