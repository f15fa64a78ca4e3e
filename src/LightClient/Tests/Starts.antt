-- ===== src/LightClient/Tests/Starts.antt =====
-- The theorems on new chains and on the median at concrete inputs.
use utxopia_solana_programs.Prelude.{
  ◌≡◌, ◌≤◌, ◌<◌, ◌/◌, refl, ℕ, false, List, [], ◌∷◌, ◌++◌, arith, bytes_eq, ltb, leb, length,
}
use utxopia_solana_programs.Prelude.Results.{ok}
use utxopia_solana_programs.LightClient.Utils.U256.{to_le_bytes}
use utxopia_solana_programs.LightClient.State.{
  Bytes, Store, AccountInfo, data_len, tag, raw, zero_key,
}
use utxopia_solana_programs.LightClient.Runtime.{create_or_claim_pda, top_up, grow, take_over}
use utxopia_solana_programs.LightClient.Constants.{network_allowed_in_build}
use utxopia_solana_programs.LightClient.Access.{
  slice, u32_at, is_production, write_header, write_index,
}
use utxopia_solana_programs.LightClient.Initialize.{
  start_of, initial_client, restarted_client, genesis_header, store_genesis_header,
  store_genesis_index, write_client, create_client, create_chain, process_initialize,
  process_reinitialize,
}
use utxopia_solana_programs.LightClient.Initialize.Anchor.{
  Initialized, Reinitialized, initialize_anchors, reinitialize_anchors,
}
use utxopia_solana_programs.LightClient.Median.{median_timestamp}
use utxopia_solana_programs.LightClient.Median.Selection.{count, median_timestamp-ranked}
use utxopia_solana_programs.LightClient.Tests.{toy_runtime, toy_laws, toy-Addresses, client_key}
use utxopia_solana_programs.LightClient.Tests.Samples.{
  info, after, zeros, parent_key, index_key, sample_store,
}

abbrev start_accounts : List AccountInfo
start_accounts =
    info client_key ∷ info (9 ∷ []) ∷ info zero_key ∷ info (index_key 100) ∷ info parent_key ∷ []

-- Height 100 of testnet4, at the maximum target.
abbrev start_request : Bytes
start_request =
    (100 ∷ 0 ∷ 0 ∷ 0 ∷ 0 ∷ 0 ∷ 0 ∷ 0 ∷ [])
    ++ (zeros ++ (2 ∷ 0xff ∷ 0xff ∷ 0 ∷ 0x1d ∷ 1 ∷ 0 ∷ 0 ∷ 0 ∷ []))

abbrev empty_store : Store
empty_store k = record { owner = zero_key; lamports = 0; content = raw [] }

initialized_ok :
    process_initialize toy_runtime false start_accounts start_request empty_store
    ≡ ok (after (process_initialize toy_runtime false start_accounts start_request empty_store))
unfolding process_initialize start_of initial_client genesis_header store_genesis_header
    store_genesis_index write_client create_client create_chain create_or_claim_pda data_len tag
    slice u32_at is_production network_allowed_in_build write_header write_index to_le_bytes
    bytes_eq
initialized_ok = refl

initialize_anchors_example :
    Initialized toy_runtime false start_accounts start_request empty_store
      (after (process_initialize toy_runtime false start_accounts start_request empty_store))
initialize_anchors_example =
    initialize_anchors toy_runtime toy_laws false start_accounts start_request empty_store
      (after (process_initialize toy_runtime false start_accounts start_request empty_store))
      toy-Addresses initialized_ok

reinitialized_ok :
    process_reinitialize toy_runtime false start_accounts start_request sample_store
    ≡ ok (after (process_reinitialize toy_runtime false start_accounts start_request sample_store))
unfolding process_reinitialize start_of restarted_client genesis_header store_genesis_header
    store_genesis_index create_chain create_or_claim_pda top_up grow take_over data_len tag slice
    u32_at is_production network_allowed_in_build write_header write_index to_le_bytes bytes_eq
reinitialized_ok = refl

reinitialize_anchors_example :
    Reinitialized toy_runtime false start_accounts client_key start_request sample_store
      (after (process_reinitialize toy_runtime false start_accounts start_request sample_store))
reinitialize_anchors_example =
    reinitialize_anchors toy_runtime toy_laws false start_accounts start_request sample_store
      (after (process_reinitialize toy_runtime false start_accounts start_request sample_store))
      (info client_key) refl toy-Addresses reinitialized_ok

-- The window of the test `median_of_eleven_is_middle_element`.
abbrev eleven : List ℕ
eleven = 10 ∷ 1 ∷ 9 ∷ 2 ∷ 8 ∷ 3 ∷ 7 ∷ 4 ∷ 6 ∷ 5 ∷ 11 ∷ []

median_of_eleven : median_timestamp eleven ≡ 6
unfolding median_timestamp
median_of_eleven = refl

median_timestamp-ranked_example :
    (count (λ y. ltb y (median_timestamp eleven)) eleven ≤ length eleven / 2)
    × (length eleven / 2 < count (λ y. leb y (median_timestamp eleven)) eleven)
median_timestamp-ranked_example = median_timestamp-ranked eleven (omega arith)
