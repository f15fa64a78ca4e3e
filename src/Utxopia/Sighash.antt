-- ===== src/Utxopia/Sighash.antt =====
-- programs/utxopia/src/utils/sighash.rs: the reserved inputs of a redemption, their canonical order
-- and the commitment to them. A stable sort has one result, here that of an insertion sort.
use utxopia_solana_programs.Prelude.{ℕ, List, [], ◌∷◌, ◌++◌, Bool, true, false, ltb, if◌then◌else◌}
use utxopia_solana_programs.LightClient.Utils.U256.{to_le_bytes}
use utxopia_solana_programs.Utxopia.Bytes.{Bytes}
use utxopia_solana_programs.Utxopia.Validation.{Runtime}

-- `leaf_commitment` is left out: it is `None` in every input that is sorted or committed to.
pub record ReservedInput : Type 0 where
  pub txid : Bytes
  pub vout : ℕ
  pub amount_sats : ℕ

-- The order of two byte arrays, with the answer for equal arrays.
unfoldable pub bytes_before : Bool → Bytes → Bytes → Bool
bytes_before equal [] [] = equal
bytes_before equal [] (y ∷ ys) = true
bytes_before equal (x ∷ xs) [] = false
bytes_before equal (x ∷ xs) (y ∷ ys) =
    if ltb x y then true else if ltb y x then false else bytes_before equal xs ys

-- `b` comes strictly before `a`: a larger amount, then a smaller txid, then a smaller vout.
unfoldable pub comes_before : ReservedInput → ReservedInput → Bool
unfolding bytes_before
comes_before b a =
    if ltb a.amount_sats b.amount_sats
    then true
    else if ltb b.amount_sats a.amount_sats
    then false
    else bytes_before (ltb b.vout a.vout) b.txid a.txid

-- Behind the inputs that do not come after it.
unfoldable pub insert_input : ReservedInput → List ReservedInput → List ReservedInput
unfolding comes_before
insert_input a [] = a ∷ []
insert_input a (b ∷ inputs) = if comes_before b a then b ∷ insert_input a inputs else a ∷ b ∷ inputs

unfoldable pub canonical_sort : List ReservedInput → List ReservedInput
unfolding insert_input
canonical_sort [] = []
canonical_sort (a ∷ inputs) = insert_input a (canonical_sort inputs)

unfoldable pub input_bytes : List ReservedInput → Bytes
unfolding to_le_bytes
input_bytes [] = []
input_bytes (a ∷ inputs) =
    a.txid ++ (to_le_bytes 4 a.vout ++ (to_le_bytes 8 a.amount_sats ++ input_bytes inputs))

unfoldable pub inputs_commitment : Runtime → List ReservedInput → Bytes
unfolding input_bytes
inputs_commitment rt ordered = rt.sha256 (input_bytes ordered)
