-- ===== src/LightClient/Tests/Samples.antt =====
-- A regtest client at height 100, and a batch of one header on top.
use utxopia_solana_programs.Prelude.{
  ℕ, true, List, [], ◌∷◌, ◌++◌, replicate, bytes_eq, if◌then◌else◌,
}
use utxopia_solana_programs.Prelude.Results.{Result, ok, err}
use utxopia_solana_programs.LightClient.State.{
  Bytes, Store, Account, AccountInfo, Content, BitcoinLightClient, BlockHeader, HeightIndex, raw,
  light_client, block_header, height_index, zero_key,
}
use utxopia_solana_programs.LightClient.Access.{
  block_header_seed, height_index_seed, verified_tx_seed,
}
use utxopia_solana_programs.LightClient.Tests.{program, client_key}

abbrev pub zeros : Bytes
zeros = replicate 32 0

abbrev pub sample_client : BitcoinLightClient
sample_client = record {
  bump = 255;
  paused = 0;
  network = 3;
  authority = 9 ∷ [];
  genesis_hash = zeros;
  tip_hash = zeros;
  total_chainwork = zeros;
  tip_height = 100;
  finalized_height = 95;
  header_count = 0;
  last_update = 0;
  expected_bits = 0;
  epoch_start_time = 0;
  reinit_epoch = 0;
}

abbrev pub sample_parent : BlockHeader
sample_parent = record {
  version = replicate 4 0;
  prev_block_hash = zeros;
  merkle_root = zeros;
  timestamp = 1000;
  bits = 0x207fffff;
  nonce = replicate 4 0;
  block_hash = zeros;
  chainwork = zeros;
  height = 100;
  submitted_at = 0;
  epoch_bits = 0;
  epoch_start_time = 0;
  reinit_epoch = 0;
}

abbrev pub sample_index : HeightIndex
sample_index = record { bump = 255; block_hash = zeros; height = 100 }

abbrev pub parent_key : Bytes
parent_key = block_header_seed ++ zeros

abbrev pub index_key : ℕ → Bytes
index_key height = height_index_seed ++ (height ∷ replicate 7 0)

-- The hash of the new header: its first 32 bytes.
abbrev pub new_hash : Bytes
new_hash = 1 ∷ replicate 31 0

abbrev pub header_key : Bytes
header_key = block_header_seed ++ new_hash

abbrev pub held : Content → Account
held c = record { owner = program; lamports = 1000; content = c }

abbrev pub sample_store : Store
sample_store k =
    if bytes_eq client_key k
    then held (light_client sample_client)
    else if bytes_eq parent_key k
    then held (block_header sample_parent)
    else if bytes_eq (index_key 100) k
    then held (height_index sample_index)
    else record { owner = zero_key; lamports = 0; content = raw [] }

abbrev pub info : Bytes → AccountInfo
info key = record { key = key; is_signer = true }

abbrev pub sample_accounts : List AccountInfo
sample_accounts =
    info client_key
    ∷ info (9 ∷ [])
    ∷ info zero_key
    ∷ info parent_key
    ∷ info header_key
    ∷ info (index_key 101)
    ∷ info (index_key 100)
    ∷ []

-- version 1, no merkle root, time 2000, bits 0x207fffff.
abbrev pub sample_header : Bytes
sample_header =
    (1 ∷ 0 ∷ 0 ∷ 0 ∷ [])
    ++ (zeros
        ++ (zeros ++ ((208 ∷ 7 ∷ 0 ∷ 0 ∷ []) ++ ((255 ∷ 255 ∷ 127 ∷ 32 ∷ []) ++ replicate 4 0))))

abbrev pub sample_batch : Bytes
sample_batch = 1 ∷ sample_header

-- The store that a run leaves.
abbrev pub after : Result Store → Store
after (ok t) = t
after (err _) = sample_store

-- A client that has finalized height 100, where the block holds one transaction and its twin.
abbrev pub transaction_id : Bytes
transaction_id = 5 ∷ 6 ∷ 7 ∷ replicate 29 0

abbrev pub buffer_key : Bytes
buffer_key = 77 ∷ []

abbrev pub final_client : BitcoinLightClient
final_client = record sample_client { finalized_height = 100; tip_height = 105 }

abbrev pub final_store : Store
final_store k =
    if bytes_eq client_key k
    then held (light_client final_client)
    else if bytes_eq parent_key k
    then held (block_header (record sample_parent { merkle_root = transaction_id }))
    else if bytes_eq header_key k
    then held (block_header (record sample_parent { block_hash = new_hash }))
    else if bytes_eq (index_key 100) k
    then held (height_index sample_index)
    else if bytes_eq buffer_key k
    then held (raw (zeros ++ (5 ∷ 6 ∷ 7 ∷ [])))
    else record { owner = zero_key; lamports = 0; content = raw [] }

abbrev pub receipt_key : Bytes
receipt_key = verified_tx_seed ++ (zeros ++ transaction_id)

abbrev pub verify_accounts : List AccountInfo
verify_accounts =
    info receipt_key
    ∷ info client_key
    ∷ info parent_key
    ∷ info (index_key 100)
    ∷ info buffer_key
    ∷ info (9 ∷ [])
    ∷ info zero_key
    ∷ []

-- The claim, and a proof of one level.
abbrev pub verify_request : Bytes
verify_request =
    transaction_id
    ++ (zeros
        ++ ((3 ∷ 0 ∷ 0 ∷ 0 ∷ [])
            ++ (transaction_id ++ ((0 ∷ 0 ∷ 0 ∷ 0 ∷ 1 ∷ 0 ∷ 0 ∷ 0 ∷ 0 ∷ []) ++ transaction_id))))

abbrev pub prune_accounts : List AccountInfo
prune_accounts = info client_key ∷ info header_key ∷ info (index_key 100) ∷ info (9 ∷ []) ∷ []
