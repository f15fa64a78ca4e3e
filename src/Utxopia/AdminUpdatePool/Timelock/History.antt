-- ===== src/Utxopia/AdminUpdatePool/Timelock/History.antt =====
-- Histories of the instructions of admin_update_pool.rs, newest first: where a pool's pending values
-- come from, and what an execution needs.
use utxopia_solana_programs.Prelude.{
  ℕ, ◌+◌, ◌≤◌, ◌≡◌, refl, ap, sym, ◌∙◌, inl, inr, true, false, Bool-cases, List, [], ◌∷◌, ◌++◌,
  bytes_eq, bytes_eq→eq, ltb, arith,
}
use utxopia_solana_programs.Prelude.Results.{Result, ok, err, Result-cases}
use utxopia_solana_programs.Utxopia.Bytes.{Bytes}
use utxopia_solana_programs.Utxopia.State.{
  Store, AccountInfo, PoolState, pool_state, put_content, put_content_here, put_content_other,
}
use utxopia_solana_programs.Utxopia.Pool.{has_pending_proposal, clear_pending_proposal}
use utxopia_solana_programs.Utxopia.Validation.{Runtime}
use utxopia_solana_programs.Utxopia.AdminUpdatePool.{
  timelock_delay_secs, max_supply_sats, u64_at, applied,
}
use utxopia_solana_programs.Utxopia.AdminUpdatePool.Timelock.{
  Call, propose, execute, handler, at_time, execute_inversion, Outcome, is_proposed, is_executed,
  is_cancelled, is_lowered, handler-Outcome,
}

-- An instruction that fails changes nothing.
abbrev pub settled : Result Store → Store → Store
settled (ok t) s = t
settled (err _) s = s

abbrev pub state_after : Runtime → List Call → Store → Store
state_after rt [] start = start
state_after rt (call ∷ older) start =
    let s = state_after rt older start in settled (handler rt call s) s

-- A proposal in the history with the pool's pending values: it succeeded, within bounds, and its
-- time to wait had not begun earlier.
pub record Proposed (rt : Runtime) (history : List Call) (start : Store) (pool : PoolState)
    : Type 0 where
  pub newer : List Call
  pub older : List Call
  pub now : ℕ
  pub accounts : List AccountInfo
  pub bytes : Bytes
  pub place : history ≡ newer ++ (propose now accounts bytes ∷ older)
  pub succeeded :
      (t : Store) × (handler rt (propose now accounts bytes) (state_after rt older start) ≡ ok t)
  pub ordered : u64_at 0 bytes ≤ u64_at 8 bytes
  pub in_supply : u64_at 8 bytes ≤ max_supply_sats
  pub min_deposit : pool.pending_min_deposit ≡ u64_at 0 bytes
  pub max_deposit : pool.pending_max_deposit ≡ u64_at 8 bytes
  pub service_fee : pool.pending_service_fee ≡ u64_at 16 bytes
  pub execute_after : pool.pending_execute_after ≡ now + timelock_delay_secs

Proposed_later :
    (rt : Runtime) (history : List Call) (start : Store) (pool : PoolState) (call : Call)
    → Proposed rt history start pool
    → Proposed rt (call ∷ history) start pool
Proposed_later rt history start pool call p = record {
  newer = call ∷ p.newer;
  older = p.older;
  now = p.now;
  accounts = p.accounts;
  bytes = p.bytes;
  place = ap (λ h. call ∷ h) p.place;
  succeeded = p.succeeded;
  ordered = p.ordered;
  in_supply = p.in_supply;
  min_deposit = p.min_deposit;
  max_deposit = p.max_deposit;
  service_fee = p.service_fee;
  execute_after = p.execute_after;
}

-- The fee is no part of a proposal.
Proposed_fee :
    (rt : Runtime) (history : List Call) (start : Store) (pool : PoolState) (fee : ℕ)
    → Proposed rt history start pool
    → Proposed rt history start (record pool { deposit_fee_bps = fee })
Proposed_fee rt history start pool fee p = record {
  newer = p.newer;
  older = p.older;
  now = p.now;
  accounts = p.accounts;
  bytes = p.bytes;
  place = p.place;
  succeeded = p.succeeded;
  ordered = p.ordered;
  in_supply = p.in_supply;
  min_deposit = p.min_deposit;
  max_deposit = p.max_deposit;
  service_fee = p.service_fee;
  execute_after = p.execute_after;
}

idle_time : (pool : PoolState) → pool.pending_execute_after ≡ 0 → has_pending_proposal pool ≡ false
unfolding has_pending_proposal
idle_time pool h = ground arith

cleared : (pool : PoolState) → has_pending_proposal (clear_pending_proposal pool) ≡ false
unfolding has_pending_proposal clear_pending_proposal
cleared pool = refl

pending_fee :
    (pool : PoolState) (fee : ℕ)
    → has_pending_proposal (record pool { deposit_fee_bps = fee }) ≡ true
    → has_pending_proposal pool ≡ true
unfolding has_pending_proposal
pending_fee pool fee h = h

pool_injective : (a b : PoolState) → pool_state a ≡ pool_state b → a ≡ b
pool_injective a b e = cc

module _ (rt : Runtime) (start : Store) (key : Bytes) where
  abbrev Known : List Call → Type 0
  Known history =
      (pool : PoolState)
      → (state_after rt history start key).content ≡ pool_state pool
      → has_pending_proposal pool ≡ true
      → Proposed rt history start pool

  -- The pool that an instruction leaves in the account that it rewrites.
  outcome_known :
      (call : Call) (older : List Call) (t : Store) (before after : PoolState)
      → Known older
      → (state_after rt older start key).content ≡ pool_state before
      → handler rt call (state_after rt older start) ≡ ok t
      → Outcome call before after
      → has_pending_proposal after ≡ true
      → Proposed rt (call ∷ older) start after
  outcome_known call older t before after known held ran
        (is_proposed now accounts bytes b size low high) pending =
      record {
        newer = [];
        older = older;
        now = now;
        accounts = accounts;
        bytes = bytes;
        place = refl;
        succeeded = (t, ran);
        ordered = low;
        in_supply = high;
        min_deposit = refl;
        max_deposit = refl;
        service_fee = refl;
        execute_after = refl;
      }
  outcome_known call older t before after known held ran (is_executed now accounts bytes b had late)
        pending =
      absurd (cc (idle_time after refl, pending))
  outcome_known call older t before after known held ran (is_cancelled now accounts bytes b had)
        pending =
      absurd (cc (idle_time after refl, pending))
  outcome_known call older t before after known held ran (is_lowered now accounts bytes b size low)
        pending =
      Proposed_fee rt (call ∷ older) start b _
        (Proposed_later rt older start b call (known b held (pending_fee b _ pending)))

  pool_after :
      (call : Call) (older : List Call) (t : Store)
      → handler rt call (state_after rt older start) ≡ ok t
      → Known older
      → (pool : PoolState) → (t key).content ≡ pool_state pool
      → has_pending_proposal pool ≡ true
      → Proposed rt (call ∷ older) start pool
  pool_after call older t ran known pool held pending =
      let s = state_after rt older start in
      let (before, after, r, out) = handler-Outcome rt call s t ran in
      elim (Bool-cases (bytes_eq r.pool_info.key key)) [
        | inl same ↦
            let key_eq = bytes_eq→eq r.pool_info.key key same in
            let content : (t key).content ≡ pool_state after =
              ap (λ (u : Store). (u key).content) r.rewritten
              ∙ (ap (λ (k : Bytes). (put_content s r.pool_info.key (pool_state after) k).content)
                    (sym key_eq)
                  ∙ put_content_here s r.pool_info.key (pool_state after)) in
            let pool_eq : after ≡ pool = pool_injective after pool (sym content ∙ held) in
            let got : Proposed rt (call ∷ older) start after =
              outcome_known call older t before after known (rw key_eq at r.held) ran out
                (ap has_pending_proposal pool_eq ∙ pending) in
            rw pool_eq at got
        | inr other ↦
            let content : (t key).content ≡ (s key).content =
              ap (λ (u : Store). (u key).content) r.rewritten
              ∙ put_content_other s r.pool_info.key key (pool_state after) other in
            Proposed_later rt older start pool call (known pool (sym content ∙ held) pending)
      ]

  pending-Known :
      (history : List Call)
      → ((pool : PoolState)
          → (start key).content ≡ pool_state pool
          → has_pending_proposal pool ≡ false)
      → Known history
  pending-Known [] idle pool held pending = absurd (cc (idle pool held))
  pending-Known (call ∷ older) idle pool held pending =
      elim (Result-cases (handler rt call (state_after rt older start))) [
        | inl (_, failed) ↦
            Proposed_later rt older start pool call
              (pending-Known older idle pool (rw failed at held) pending)
        | inr (t, ran) ↦
            pool_after call older t ran (pending-Known older idle) pool (rw ran at held) pending
      ]

clear_keeps :
    (pool : PoolState)
    → ((clear_pending_proposal pool).min_deposit ≡ pool.min_deposit)
      × ((clear_pending_proposal pool).max_deposit ≡ pool.max_deposit)
      × ((clear_pending_proposal pool).service_fee_base ≡ pool.service_fee_base)
      × ((clear_pending_proposal pool).authority ≡ pool.authority)
unfolding clear_pending_proposal
clear_keeps pool = (refl, refl, refl, refl)

not_late : (after now : ℕ) → ltb now after ≡ false → after ≤ now
not_late after now h = ground arith

-- The parameters that an execution puts in force.
pub record Executed (rt : Runtime) (history : List Call) (start : Store) (now : ℕ) (t : Store)
    : Type 0 where
  pub pool_key : Bytes
  pub before : PoolState
  pub after : PoolState
  pub held : (state_after rt history start pool_key).content ≡ pool_state before
  pub stored : (t pool_key).content ≡ pool_state after
  pub proposal : Proposed rt history start before
  pub waited : proposal.now + timelock_delay_secs ≤ now
  pub min_deposit : after.min_deposit ≡ u64_at 0 proposal.bytes
  pub max_deposit : after.max_deposit ≡ u64_at 8 proposal.bytes
  pub service_fee : after.service_fee_base ≡ u64_at 16 proposal.bytes
  pub authority_kept : after.authority ≡ before.authority
  pub none_pending : has_pending_proposal after ≡ false

-- In a history that starts where no pool has a pending proposal, an execution that succeeds puts in
-- force the bounds and the fee of a proposal of the history that succeeded at least 48 hours before,
-- which are in order and within the supply, and no proposal is pending in that pool afterwards.
pub execute_waits :
    (rt : Runtime) (history : List Call) (start : Store) (now : ℕ) (accounts : List AccountInfo)
    (bytes : Bytes) (t : Store)
    → ((key : Bytes) (pool : PoolState)
        → (start key).content ≡ pool_state pool
        → has_pending_proposal pool ≡ false)
    → handler rt (execute now accounts bytes) (state_after rt history start) ≡ ok t
    → Executed rt history start now t
execute_waits rt history start now accounts bytes t idle h =
    let s = state_after rt history start in
    execute_inversion (at_time rt now) _ accounts bytes s t
      (λ info authority pool first second writable signer auth own held pending late e.
        let key = info.key in
        let p = pending-Known rt start key history (idle key) pool held pending in
        record {
          pool_key = key;
          before = pool;
          after = clear_pending_proposal (applied pool now);
          held = held;
          stored =
              ap (λ (u : Store). (u key).content) e
              ∙ put_content_here s key (pool_state (clear_pending_proposal (applied pool now)));
          proposal = p;
          waited = omega (arith, p.execute_after, not_late pool.pending_execute_after now late);
          min_deposit = (clear_keeps (applied pool now)).0 ∙ p.min_deposit;
          max_deposit = (clear_keeps (applied pool now)).1 ∙ p.max_deposit;
          service_fee = (clear_keeps (applied pool now)).2 ∙ p.service_fee;
          authority_kept = (clear_keeps (applied pool now)).3;
          none_pending = cleared (applied pool now);
        })
      h
