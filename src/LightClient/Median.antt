-- ===== src/LightClient/Median.antt =====
-- `median_timestamp` of programs/btc-light-client/src/instructions/extend_blockchain.rs.
use utxopia_solana_programs.Prelude.{
  ℕ, zero, suc, ◌+◌, ◌-◌, ◌/◌, List, [], ◌∷◌, ltb, ◌==◌, if◌then◌else◌, length, get_or, set,
}
pub mod Selection

-- The inner loop over `j`, with the least element so far and its index `m`.
min_loop : ℕ → ℕ → ℕ → List ℕ → ℕ × ℕ
min_loop least m j [] = (least, m)
min_loop least m j (y ∷ ys) =
    let less = ltb y least in
    min_loop (if less then y else least) (if less then j else m) (suc j) ys

-- The outer loop on the suffix that begins at `i`: `s.swap(i, m)`, and on with the rest.
sort_loop : ℕ → List ℕ → List ℕ
unfolding min_loop
sort_loop zero s = s
sort_loop (suc rounds) [] = []
sort_loop (suc rounds) (x ∷ xs) =
    let (least, m) = min_loop x 0 1 xs in
    least ∷ sort_loop rounds (if m == 0 then xs else set xs (m - 1) x)

unfoldable pub median_timestamp : List ℕ → ℕ
unfolding sort_loop
median_timestamp window = let n = length window in get_or (sort_loop n window) (n / 2) 0
