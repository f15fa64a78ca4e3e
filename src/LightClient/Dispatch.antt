-- ===== src/LightClient/Dispatch.antt =====
-- programs/btc-light-client/src/lib.rs: the entry point.
use utxopia_solana_programs.Prelude.{Bool, List, [], ◌∷◌, ◌==◌, not, ◌&&◌, if◌then◌else◌}
use utxopia_solana_programs.Prelude.Results.{Result, err, invalid_instruction_data}
use utxopia_solana_programs.LightClient.State.{Bytes, Store, AccountInfo}
use utxopia_solana_programs.LightClient.Runtime.{Runtime}
use utxopia_solana_programs.LightClient.Initialize.{process_initialize, process_reinitialize}
use utxopia_solana_programs.LightClient.Extend.{process_extend_blockchain}
use utxopia_solana_programs.LightClient.VerifyTransaction.{process_verify_transaction}
use utxopia_solana_programs.LightClient.Prune.{process_prune_obsolete_blocks}

-- The first byte selects the handler; `reinitialize` is not compiled into mainnet builds.
unfoldable pub process_instruction :
    Runtime → Bool → List AccountInfo → Bytes → Store → Result Store
process_instruction rt mainnet accounts [] s = err invalid_instruction_data
process_instruction rt mainnet accounts (tag ∷ bytes) s =
    if tag == 0
    then process_initialize rt mainnet accounts bytes s
    else if tag == 1
    then process_extend_blockchain rt accounts bytes s
    else if tag == 2
    then process_verify_transaction rt accounts bytes s
    else if tag == 3
    then process_prune_obsolete_blocks rt accounts bytes s
    else if (tag == 4) && not mainnet
    then process_reinitialize rt mainnet accounts bytes s
    else err invalid_instruction_data
