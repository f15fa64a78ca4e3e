-- ===== src/Utxopia/AdminUpdatePool/Timelock.antt =====
-- What the instructions of admin_update_pool.rs do to a pool, as a relation between the pool before
-- and the pool after.
use utxopia_solana_programs.Prelude.{
  ℕ, ◌+◌, ◌*◌, ◌≤◌, ◌<◌, ◌≡◌, ◌≢◌, ◌==◌, refl, Bool, true, false, ltb, List, length, get_elem?,
  some, bytes_eq, bytes_eq→eq, arith,
}
use utxopia_solana_programs.Prelude.Digits.{value}
use utxopia_solana_programs.Prelude.Results.{Result, ok, err}
use utxopia_solana_programs.Utxopia.Bytes.{Bytes, range}
use utxopia_solana_programs.Utxopia.State.{Store, AccountInfo, PoolState, pool_state, put_content}
use utxopia_solana_programs.Utxopia.Pool.{has_pending_proposal, clear_pending_proposal}
use utxopia_solana_programs.Utxopia.Validation.{Runtime}
use utxopia_solana_programs.Utxopia.AdminUpdatePool.{
  timelock_delay_secs, max_supply_sats, u64_at, proposed, applied, process_propose_pool_update,
  process_execute_pool_update, process_cancel_pool_update, process_set_deposit_fee_bps,
}
pub mod History

-- An instruction with its clock, its accounts and its data.
pub data Call : Type 0 where
  propose execute cancel set_fee : ℕ → List AccountInfo → Bytes → Call

abbrev pub at_time : Runtime → ℕ → Runtime
at_time rt now = record rt { unix_timestamp = now }

abbrev pub handler : Runtime → Call → Store → Result Store
handler rt (propose now accounts bytes) s =
    process_propose_pool_update (at_time rt now) accounts bytes s
handler rt (execute now accounts bytes) s =
    process_execute_pool_update (at_time rt now) accounts bytes s
handler rt (cancel now accounts bytes) s =
    process_cancel_pool_update (at_time rt now) accounts bytes s
handler rt (set_fee now accounts bytes) s =
    process_set_deposit_fee_bps (at_time rt now) accounts bytes s

abbrev pub accounts_of : Call → List AccountInfo
accounts_of (propose now accounts bytes) = accounts
accounts_of (execute now accounts bytes) = accounts
accounts_of (cancel now accounts bytes) = accounts
accounts_of (set_fee now accounts bytes) = accounts

-- What each instruction promises, with every field that it changes. A proposal (three u64, little
-- endian) is in order and at most 21 million bitcoin, and waits for 48 hours; an execution needs a
-- proposal whose time has come, and puts it in force; a cancellation drops it; a shield fee (a u16)
-- does not rise.
pub data Outcome : Call → PoolState → PoolState → Type 0 where
  is_proposed :
      (now : ℕ) (accounts : List AccountInfo) (bytes : Bytes) (before : PoolState)
      → length bytes ≡ 24
      → value 256 (range 0 8 bytes) ≤ value 256 (range 8 8 bytes)
      → value 256 (range 8 8 bytes) ≤ 21_000_000 * 100_000_000
      → Outcome (propose now accounts bytes) before (record before {
        pending_min_deposit = value 256 (range 0 8 bytes);
        pending_max_deposit = value 256 (range 8 8 bytes);
        pending_service_fee = value 256 (range 16 8 bytes);
        pending_execute_after = now + 48 * 60 * 60;
      })
  is_executed :
      (now : ℕ) (accounts : List AccountInfo) (bytes : Bytes) (before : PoolState)
      → before.pending_execute_after ≢ 0
      → before.pending_execute_after ≤ now
      → Outcome (execute now accounts bytes) before (record before {
        min_deposit = before.pending_min_deposit;
        max_deposit = before.pending_max_deposit;
        service_fee_base = before.pending_service_fee;
        last_update = now;
        pending_min_deposit = 0;
        pending_max_deposit = 0;
        pending_service_fee = 0;
        pending_execute_after = 0;
      })
  is_cancelled :
      (now : ℕ) (accounts : List AccountInfo) (bytes : Bytes) (before : PoolState)
      → before.pending_execute_after ≢ 0
      → Outcome (cancel now accounts bytes) before (record before {
        pending_min_deposit = 0;
        pending_max_deposit = 0;
        pending_service_fee = 0;
        pending_execute_after = 0;
      })
  is_lowered :
      (now : ℕ) (accounts : List AccountInfo) (bytes : Bytes) (before : PoolState)
      → length bytes ≡ 2
      → value 256 (range 0 2 bytes) ≤ before.deposit_fee_bps
      → Outcome
          (set_fee now accounts bytes)
          before
          (record before { deposit_fee_bps = value 256 (range 0 2 bytes) })

-- The first account is a pool of the program and alone is rewritten; the second one signs, and is the
-- pool's authority.
pub record Rewritten (rt : Runtime) (accounts : List AccountInfo) (s t : Store)
    (before after : PoolState) : Type 0 where
  pub pool_info : AccountInfo
  pub authority : AccountInfo
  pub first : get_elem? accounts 0 ≡ some pool_info
  pub second : get_elem? accounts 1 ≡ some authority
  pub writable : pool_info.is_writable ≡ true
  pub signed : authority.is_signer ≡ true
  pub is_authority : authority.key ≡ before.authority
  pub owned : (s pool_info.key).owner ≡ rt.program_id
  pub held : (s pool_info.key).content ≡ pool_state before
  pub rewritten : t ≡ put_content s pool_info.key (pool_state after)

module _ (rt : Runtime) (P : Type 0) (accounts : List AccountInfo) (bytes : Bytes)
    (s t : Store) where
  propose_inversion :
      ((info authority : AccountInfo) (pool : PoolState)
        → get_elem? accounts 0 ≡ some info
        → get_elem? accounts 1 ≡ some authority
        → info.is_writable ≡ true
        → authority.is_signer ≡ true
        → bytes_eq authority.key pool.authority ≡ true
        → bytes_eq (s info.key).owner rt.program_id ≡ true
        → (s info.key).content ≡ pool_state pool
        → (length bytes == 24) ≡ true
        → ltb (u64_at 8 bytes) (u64_at 0 bytes) ≡ false
        → ltb max_supply_sats (u64_at 8 bytes) ≡ false
        → t
          ≡ put_content s info.key
              (pool_state (proposed pool bytes (rt.unix_timestamp + timelock_delay_secs)))
        → P)
      → process_propose_pool_update rt accounts bytes s ≡ ok t
      → P
  unfolding process_propose_pool_update
  propose_inversion k h = grind arith

  pub execute_inversion :
      ((info authority : AccountInfo) (pool : PoolState)
        → get_elem? accounts 0 ≡ some info
        → get_elem? accounts 1 ≡ some authority
        → info.is_writable ≡ true
        → authority.is_signer ≡ true
        → bytes_eq authority.key pool.authority ≡ true
        → bytes_eq (s info.key).owner rt.program_id ≡ true
        → (s info.key).content ≡ pool_state pool
        → has_pending_proposal pool ≡ true
        → ltb rt.unix_timestamp pool.pending_execute_after ≡ false
        → t
          ≡ put_content s info.key
              (pool_state (clear_pending_proposal (applied pool rt.unix_timestamp)))
        → P)
      → process_execute_pool_update rt accounts bytes s ≡ ok t
      → P
  unfolding process_execute_pool_update
  execute_inversion k h = grind arith

  cancel_inversion :
      ((info authority : AccountInfo) (pool : PoolState)
        → get_elem? accounts 0 ≡ some info
        → get_elem? accounts 1 ≡ some authority
        → info.is_writable ≡ true
        → authority.is_signer ≡ true
        → bytes_eq authority.key pool.authority ≡ true
        → bytes_eq (s info.key).owner rt.program_id ≡ true
        → (s info.key).content ≡ pool_state pool
        → has_pending_proposal pool ≡ true
        → t ≡ put_content s info.key (pool_state (clear_pending_proposal pool))
        → P)
      → process_cancel_pool_update rt accounts bytes s ≡ ok t
      → P
  unfolding process_cancel_pool_update
  cancel_inversion k h = grind arith

  set_fee_inversion :
      ((info authority : AccountInfo) (pool : PoolState)
        → get_elem? accounts 0 ≡ some info
        → get_elem? accounts 1 ≡ some authority
        → info.is_writable ≡ true
        → authority.is_signer ≡ true
        → bytes_eq authority.key pool.authority ≡ true
        → bytes_eq (s info.key).owner rt.program_id ≡ true
        → (s info.key).content ≡ pool_state pool
        → (length bytes == 2) ≡ true
        → ltb pool.deposit_fee_bps (value 256 (range 0 2 bytes)) ≡ false
        → t
          ≡ put_content s info.key
              (pool_state (record pool { deposit_fee_bps = value 256 (range 0 2 bytes) }))
        → P)
      → process_set_deposit_fee_bps rt accounts bytes s ≡ ok t
      → P
  unfolding process_set_deposit_fee_bps
  set_fee_inversion k h = grind arith

Rewritten-by :
    (rt : Runtime) (accounts : List AccountInfo) (s t : Store) (before after : PoolState)
    (info authority : AccountInfo)
    → get_elem? accounts 0 ≡ some info
    → get_elem? accounts 1 ≡ some authority
    → info.is_writable ≡ true
    → authority.is_signer ≡ true
    → bytes_eq authority.key before.authority ≡ true
    → bytes_eq (s info.key).owner rt.program_id ≡ true
    → (s info.key).content ≡ pool_state before
    → t ≡ put_content s info.key (pool_state after)
    → Rewritten rt accounts s t before after
Rewritten-by rt accounts s t before after info authority first second writable signer auth own held
      e =
    record {
      pool_info = info;
      authority = authority;
      first = first;
      second = second;
      writable = writable;
      signed = signer;
      is_authority = bytes_eq→eq authority.key before.authority auth;
      owned = bytes_eq→eq (s info.key).owner rt.program_id own;
      held = held;
      rewritten = e;
    }

pending_time :
    (pool : PoolState) → has_pending_proposal pool ≡ true → pool.pending_execute_after ≢ 0
unfolding has_pending_proposal
pending_time pool h e = ground arith

-- Each of the four instructions, when it succeeds, has a pool of the program as its first account,
-- writable, and as its second the pool's authority, which signs; it rewrites that pool's account
-- alone, and changes the pool in the fields and under the conditions that its outcome names.
pub handler-Outcome :
    (rt : Runtime) (call : Call) (s t : Store)
    → handler rt call s ≡ ok t
    → (before : PoolState) × (after : PoolState) × Rewritten rt (accounts_of call) s t before after
      × Outcome call before after
unfolding clear_pending_proposal
handler-Outcome rt (propose now accounts bytes) s t h =
    propose_inversion (at_time rt now) _ accounts bytes s t
      (λ info authority pool first second writable signer auth own held size low high e. (
        pool,
        proposed pool bytes (now + timelock_delay_secs),
        Rewritten-by rt accounts s t pool _ info authority first second writable signer auth own
            held e,
        is_proposed now accounts bytes pool (ground arith) (ground arith) (ground arith),
      ))
      h
handler-Outcome rt (execute now accounts bytes) s t h =
    execute_inversion (at_time rt now) _ accounts bytes s t
      (λ info authority pool first second writable signer auth own held pending late e. (
        pool,
        clear_pending_proposal (applied pool now),
        Rewritten-by rt accounts s t pool _ info authority first second writable signer auth own
            held e,
        is_executed now accounts bytes pool (pending_time pool pending) (ground arith),
      ))
      h
handler-Outcome rt (cancel now accounts bytes) s t h =
    cancel_inversion (at_time rt now) _ accounts bytes s t
      (λ info authority pool first second writable signer auth own held pending e. (
        pool,
        clear_pending_proposal pool,
        Rewritten-by rt accounts s t pool _ info authority first second writable signer auth own
            held e,
        is_cancelled now accounts bytes pool (pending_time pool pending),
      ))
      h
handler-Outcome rt (set_fee now accounts bytes) s t h =
    set_fee_inversion (at_time rt now) _ accounts bytes s t
      (λ info authority pool first second writable signer auth own held size low e. (
        pool,
        record pool { deposit_fee_bps = value 256 (range 0 2 bytes) },
        Rewritten-by rt accounts s t pool _ info authority first second writable signer auth own
            held e,
        is_lowered now accounts bytes pool (ground arith) (ground arith),
      ))
      h
