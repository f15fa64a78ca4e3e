-- ===== src/Lib.antt =====
-- A verification of the UTXOpia Solana programs: programs/btc-light-client, a Bitcoin light client
-- that follows Bitcoin's headers on chain and attests transactions that are in finalized blocks,
-- and of programs/utxopia, the privacy pool that pays out against them, the commitment tree, the
-- reading of Bitcoin transactions, the pool's state and timelock, and the redemption path from the
-- reservation of coins to the settlement of a payout.
--
-- The light client. Its state are accounts: one BitcoinLightClient (the tip, its chainwork, the
-- finalized height, the difficulty of the epoch), a BlockHeader for each header, stored under the
-- block's hash, a HeightIndex for each height of the canonical chain, which names the block, and a
-- VerifiedTransaction for each attested transaction. Instructions change them:
-- `initialize` and `reinitialize` start a chain at a checkpoint, `extend_blockchain` adds a batch
-- of up to ten headers, `verify_transaction` attests a transaction and `prune_obsolete_blocks`
-- closes a header that a fork has left behind.
--
-- Where it is modelled (paths of the light client under programs/btc-light-client/src):
--   Prelude                 Boolean tests, lists over native numbers, digits, machine integers, results
--   LightClient.Constants   constants.rs
--   LightClient.State       state/*.rs: the account structs, and the store of accounts by key
--   LightClient.Runtime     utils/pda.rs and utils/sha256.rs, over a record of the Solana runtime
--   LightClient.Utils.U256  utils/u256.rs
--   LightClient.Utils.Pow   utils/pow.rs
--   LightClient.Utils.Difficulty  utils/difficulty.rs
--   LightClient.Access      address seeds, owner and address checks, writes of whole structs
--   LightClient.Median, LightClient.Headers, LightClient.Extend   instructions/extend_blockchain.rs:
--                           median_timestamp, the loop over the headers, and the handler
--   LightClient.VerifyTransaction, LightClient.Prune, LightClient.Initialize
--                           the other handlers of instructions/
--   LightClient.Dispatch    lib.rs
-- A function keeps its name; a handler `process_x` of the source is `process_x` here, from the
-- account list, the instruction data and the store to a new store or an error. An error leaves the
-- transaction without effect, so it carries no store.
--
-- The commitment tree. The pool keeps its note commitments as the leaves of a Merkle tree of depth
-- 16, of which the account holds the root, the last 256 roots and the frontier: at each level the
-- rightmost node that a later leaf still needs.
--   Utxopia.CommitmentTree         programs/utxopia/src/state/commitment_tree.rs
--   Utxopia.CommitmentTree.Sparse  the full sparse tree over a list of leaves, as a relation
-- `poseidon2_hash` is an argument, which may fail; that it gives the table of zero hashes is the
-- hypothesis `TableHolds`. The walk over the levels is a recursion on the frontier.
--
-- The pool (paths under programs/utxopia/src). Its accounts are a PoolState with the counters of the
-- pool's custody, a RedemptionRequest for each withdrawal and a UtxoRecord for each coin. The
-- authority changes the pool's limits through a proposal that waits 48 hours. `mark_processing` takes
-- a redemption from Pending to Processing and reserves the coins that are to pay for it, and
-- `complete_redemption` settles it against the Bitcoin transaction that did. `cancel_redemption` takes
-- it back: the coins return, and its amount is a note in the commitment tree again.
--   Utxopia.Bitcoin           utils/bitcoin.rs: the parser, `segwit_body_end`; below it Outputs, Inputs
--                             (the iterators and searches) and TxHash (`compute_tx_hash`)
--   Utxopia.Bitcoin.Serialize a specification: Bitcoin's serialization, legacy and segwit
--   Utxopia.State             state/pool.rs, redemption.rs, utxo.rs, token_config.rs: the structs
--                             and the store
--   Utxopia.Pool              state/pool.rs: the operations
--   Utxopia.Validation        utils/validation.rs and policy.rs: the checks of accounts
--   Utxopia.AdminUpdatePool   instructions/admin_update_pool.rs
--   Utxopia.Sighash           utils/sighash.rs: the canonical order and the commitment to inputs
--   Utxopia.MarkProcessing    instructions/mark_processing.rs
--   Utxopia.CompleteRedemption  instructions/complete_redemption.rs: its data and the settlement
--   Utxopia.CancelRedemption  instructions/cancel_redemption.rs, and of utils/crypto.rs
--                             `compute_commitment`
--   Utxopia.Coins             a specification: the coins of a pool, summed over its UTXO records
--
-- Representation. An account's content is one of its program's structs, or `raw` bytes that are none
-- of them; a little-endian integer in a struct is a number. Two entries of an account list with one
-- key are one account. Machine integers are native numbers with their wrap-around written out. A
-- limb array is a list, and a loop over its indices a recursion on the list. Slices out of range,
-- a division by zero and a write into a short account are the error `panicked`.
--
-- Bounds. The loops run on the count that the code gives them: the headers of a batch, the
-- ancestors, the levels of a merkle path, the shifts of a division. No fuel is needed. The shifts of
-- `u256_div` are counted down from the difference of the leading zeros. The loops over inputs and
-- outputs run on the counts that the varints give. A slice of account or instruction data has fewer
-- than 2 ^ 63 bytes, so that the offsets which the parser adds unchecked do not overflow.
--
-- Parameters. The sha256 syscall, `find_program_address`, the rent and the clock, and the system
-- program's instructions are fields of `Runtime`. What the system program documents of them (which
-- account an instruction changes, and to what) is `SystemLaws`; the addresses of different seeds are
-- taken to be different where a theorem says so. Both are hypotheses of the theorems that use them,
-- and the witnesses fill them with concrete functions. The pool's handlers have a `Runtime` of
-- their own in Utxopia.Validation: the program id, address derivation, the clock and sha256, of which
-- no law is needed. `poseidon3_hash` is an argument of the cancellation.
--
-- Not modelled: compute and heap limits, logging and events, borrow errors of the account data, the
-- raw bytes of the structs in an account; of programs/utxopia the account handling of
-- complete_redemption and the other instructions, the rest of the token configuration, verification
-- keys, sighash preimages and the calls to other programs; programs/utxopia-policy, the benchmarks
-- and the scripts.
pub mod Prelude
pub mod LightClient
pub mod Utxopia
