-- ===== src/LightClient/Constants.antt =====
-- programs/btc-light-client/src/constants.rs. A build with the `mainnet` feature is the argument
-- `mainnet` of what depends on it.
use utxopia_solana_programs.Prelude.{ℕ, Bool, true, false, ◌==◌, ◌||◌, not, if◌then◌else◌}

abbrev pub max_batch_size : ℕ
max_batch_size = 10

abbrev pub target_timespan : ℕ
target_timespan = 1_209_600

abbrev pub blocks_per_epoch : ℕ
blocks_per_epoch = 2016

abbrev pub required_confirmations : ℕ
required_confirmations = 6

abbrev pub network_mainnet : ℕ
network_mainnet = 0

abbrev pub network_testnet3 : ℕ
network_testnet3 = 1

abbrev pub network_testnet4 : ℕ
network_testnet4 = 2

abbrev pub network_regtest : ℕ
network_regtest = 3

unfoldable pub network_allowed_in_build : Bool → ℕ → Bool
network_allowed_in_build mainnet network =
    if (network == network_mainnet) || (network == network_testnet4)
    then true
    else if network == network_regtest
    then not mainnet
    else false
