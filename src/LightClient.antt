-- ===== src/LightClient.antt =====
-- programs/btc-light-client: the Bitcoin light client.
pub mod Constants
pub mod Utils
pub mod State
pub mod Runtime
pub mod Access
pub mod Median
pub mod Headers
pub mod Extend
pub mod VerifyTransaction
pub mod Prune
pub mod Initialize
pub mod Dispatch
pub mod Tests
