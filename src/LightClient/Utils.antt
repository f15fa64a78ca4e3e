-- ===== src/LightClient/Utils.antt =====
-- programs/btc-light-client/src/utils: arithmetic, proof of work and difficulty.
pub mod U256
pub mod Pow
pub mod Difficulty
mod Examples
