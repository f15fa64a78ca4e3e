-- ===== src/Utxopia.antt =====
-- The privacy pool, programs/utxopia.
pub mod Bytes
pub mod Iterators
pub mod Bitcoin
pub mod State
pub mod Pool
pub mod Validation
pub mod AdminUpdatePool
pub mod Sighash
pub mod MarkProcessing
pub mod CompleteRedemption
pub mod CancelRedemption
pub mod Coins
pub mod CommitmentTree
mod Examples
