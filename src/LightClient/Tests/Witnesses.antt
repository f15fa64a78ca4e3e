-- ===== src/LightClient/Tests/Witnesses.antt =====
-- The light client's theorems at concrete inputs.
use utxopia_solana_programs.Prelude.{◌≡◌, refl, arith, bytes_eq, ap, get_or, get_elem?, some}
use utxopia_solana_programs.Prelude.Results.{ok}
use utxopia_solana_programs.LightClient.Utils.U256.{
  u256_add, u256_div, u256_gt_limbs, u256_from_le_bytes, u256_to_le_bytes, to_le_bytes,
}
use utxopia_solana_programs.LightClient.Utils.Pow.{
  hash_meets_target, target_from_bits, calculate_chainwork, add_chainwork,
}
use utxopia_solana_programs.LightClient.Extend.{
  parse_request, process_extend_blockchain, check_instance, read_owned_header, check_parent_index,
  mtp_window, run_batch, finish, promote, advance_tip, index_blocks, index_block, store_index,
  claim_index, promoted, chain_from,
}
use utxopia_solana_programs.LightClient.Headers.{
  process_headers, process_header, append_header, next_chain, store_header, claim_header,
  new_header, check_bits, check_median,
}
use utxopia_solana_programs.LightClient.Runtime.{
  double_sha256, double_sha256_pair, create_or_claim_pda,
}
use utxopia_solana_programs.LightClient.State.{Bytes, AccountInfo, data_len, tag}
use utxopia_solana_programs.LightClient.Access.{
  slice, u32_at, is_production, write_header, write_index, index_pda, block_pda,
}
use utxopia_solana_programs.LightClient.Runtime.Claim.{Keeps}
use utxopia_solana_programs.LightClient.VerifyTransaction.{
  claim_of, check_proof, read_block, check_canonical, check_transaction, check_inclusion,
  merkle_loop, record_verified, new_verified, write_verified, bytes_of, verified_pda,
  process_verify_transaction,
}
use utxopia_solana_programs.LightClient.VerifyTransaction.Inclusion.{
  Attested, Recorded, receipt_of, verify_transaction_sound,
}
use utxopia_solana_programs.LightClient.Prune.{
  check_orphan, close_header, process_prune_obsolete_blocks,
}
use utxopia_solana_programs.LightClient.Prune.Orphans.{Replaced, Closed, prune_obsolete_sound}
use utxopia_solana_programs.LightClient.Extend.Effects.{Advanced}
use utxopia_solana_programs.LightClient.Extend.Safety.{extend_advances, extend_keeps_finalized}
use utxopia_solana_programs.LightClient.Tests.{toy_runtime, toy_laws, toy-Addresses, client_key}
use utxopia_solana_programs.LightClient.Tests.Samples.{
  sample_accounts, sample_batch, sample_store, sample_client, info, after, new_hash, final_store,
  verify_accounts, verify_request, prune_accounts,
}

extended_ok :
    process_extend_blockchain toy_runtime sample_accounts sample_batch sample_store
    ≡ ok (after (process_extend_blockchain toy_runtime sample_accounts sample_batch sample_store))
unfolding process_extend_blockchain parse_request check_instance read_owned_header
    check_parent_index mtp_window run_batch finish promote advance_tip index_blocks index_block
    store_index claim_index promoted chain_from process_headers process_header append_header
    next_chain store_header claim_header new_header check_bits check_median double_sha256
    create_or_claim_pda data_len tag slice u32_at is_production write_header write_index u256_add
    u256_div u256_gt_limbs u256_from_le_bytes u256_to_le_bytes to_le_bytes hash_meets_target
    target_from_bits calculate_chainwork add_chainwork bytes_eq
extended_ok = refl

extend_advances_example :
    Advanced sample_client
      (after (process_extend_blockchain toy_runtime sample_accounts sample_batch sample_store))
      client_key
extend_advances_example =
    extend_advances toy_runtime toy_laws client_key toy-Addresses sample_accounts sample_batch
      sample_store
      (after (process_extend_blockchain toy_runtime sample_accounts sample_batch sample_store))
      (info client_key) sample_client refl refl (unfold bytes_eq in refl) extended_ok

extend_keeps_finalized_example :
    (after
      (process_extend_blockchain toy_runtime sample_accounts sample_batch sample_store)
      (index_pda toy_runtime 90).0).content
    ≡ (sample_store (index_pda toy_runtime 90).0).content
extend_keeps_finalized_example =
    extend_keeps_finalized toy_runtime toy_laws client_key toy-Addresses sample_accounts
      sample_batch sample_store
      (after (process_extend_blockchain toy_runtime sample_accounts sample_batch sample_store))
      (info client_key) sample_client 90 refl refl (unfold bytes_eq in refl) extended_ok
      (omega arith) (omega arith)

verified_ok :
    process_verify_transaction toy_runtime verify_accounts verify_request final_store
    ≡ ok (after (process_verify_transaction toy_runtime verify_accounts verify_request final_store))
unfolding process_verify_transaction claim_of check_proof read_block check_canonical
    check_transaction check_inclusion merkle_loop record_verified new_verified write_verified
    bytes_of double_sha256 double_sha256_pair create_or_claim_pda data_len tag slice u32_at
    to_le_bytes bytes_eq
verified_ok = refl

verify_transaction_sound_example :
    (a : Attested toy_runtime final_store (claim_of verify_request)) × Recorded toy_runtime toy_laws
      final_store
      (after (process_verify_transaction toy_runtime verify_accounts verify_request final_store))
      (verified_pda toy_runtime
        (claim_of verify_request).block_hash
        (claim_of verify_request).txid).0
      (receipt_of toy_runtime (claim_of verify_request) a.header a.client)
    × Keeps final_store
        (after (process_verify_transaction toy_runtime verify_accounts verify_request final_store))
        client_key
verify_transaction_sound_example =
    verify_transaction_sound toy_runtime toy_laws verify_accounts verify_request final_store
      (after (process_verify_transaction toy_runtime verify_accounts verify_request final_store))
      client_key (λ e. absurd (omega (arith, ap (λ (b : Bytes). get_or b 0 0) e))) verified_ok

pruned_ok :
    process_prune_obsolete_blocks toy_runtime prune_accounts new_hash final_store
    ≡ ok (after (process_prune_obsolete_blocks toy_runtime prune_accounts new_hash final_store))
unfolding process_prune_obsolete_blocks check_orphan close_header slice to_le_bytes bytes_eq
pruned_ok = refl

prune_obsolete_sound_example :
    Replaced toy_runtime final_store (slice 0 32 new_hash)
    × ((receiver : AccountInfo) × (get_elem? prune_accounts 3 ≡ some receiver)
        × Closed final_store
            (after (process_prune_obsolete_blocks toy_runtime prune_accounts new_hash final_store))
            (block_pda toy_runtime (slice 0 32 new_hash)).0
            receiver.key)
prune_obsolete_sound_example =
    prune_obsolete_sound toy_runtime prune_accounts new_hash final_store
      (after (process_prune_obsolete_blocks toy_runtime prune_accounts new_hash final_store))
      pruned_ok
