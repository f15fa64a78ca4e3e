-- ===== src/Utxopia/Bitcoin/OpReturn.antt =====
-- The deposit OP_RETURN: the scripts that `get_deposit_op_return` reads, written as a specification.
use utxopia_solana_programs.Prelude.{
  ℕ, ◌≤◌, ◌≡◌, refl, ap, ◌∙◌, ◌++◌, [], ◌∷◌, true, le→ltb, arith, length, length-append, take, some,
}
use utxopia_solana_programs.Utxopia.Bytes.{Bytes, range}
use utxopia_solana_programs.Utxopia.Bitcoin.Outputs.{
  DepositOpReturn, is_op_return, is_deposit_header, deposit_slice, get_deposit_op_return,
}
use utxopia_solana_programs.Utxopia.Bitcoin.Position.{At_start, At_past, At_take}

-- The two pushes of 73 bytes.
pub data Push : Type 0 where
  direct pushdata1 : Push

abbrev pub push_bytes : Push → Bytes
push_bytes direct = 73 ∷ []
push_bytes pushdata1 = 76 ∷ 73 ∷ []

abbrev pub payload : ℕ → DepositOpReturn → Bytes
payload header deposit =
    header ∷ (deposit.pool_tag ++ (deposit.ephemeral_pubkey ++ deposit.note_public_key))

abbrev pub deposit_script : Push → ℕ → DepositOpReturn → Bytes
deposit_script push header deposit = 106 ∷ (push_bytes push ++ payload header deposit)

pub record IsDeposit (deposit : DepositOpReturn) : Type 0 where
  pub pool_tag : length deposit.pool_tag ≡ 8
  pub ephemeral_pubkey : length deposit.ephemeral_pubkey ≡ 32
  pub note_public_key : length deposit.note_public_key ≡ 32

length-payload :
    (header : ℕ) (deposit : DepositOpReturn)
    → IsDeposit deposit
    → length (payload header deposit) ≡ 73
length-payload header deposit h = omega (
  arith,
  h.pool_tag,
  h.ephemeral_pubkey,
  h.note_public_key,
  length-append deposit.pool_tag (deposit.ephemeral_pubkey ++ deposit.note_public_key),
  length-append deposit.ephemeral_pubkey deposit.note_public_key,
)

take_all : (bytes : Bytes) (n : ℕ) → length bytes ≡ n → take n bytes ≡ bytes
take_all bytes n h = rw (← h) (take_length bytes)
  where
    take_length : (xs : Bytes) → take (length xs) xs ≡ xs
    take_length [] = refl
    take_length (x ∷ xs) = ap (λ t. x ∷ t) (take_length xs)

deposit_slice-push :
    (push : Push) (bytes : Bytes)
    → length bytes ≡ 73
    → deposit_slice (106 ∷ (push_bytes push ++ bytes)) ≡ some bytes
unfolding deposit_slice
deposit_slice-push direct bytes h = rw (h, take_all bytes 73 h) refl
deposit_slice-push pushdata1 bytes h = rw (h, take_all bytes 73 h) refl

ranges :
    (header : ℕ) (deposit : DepositOpReturn)
    → IsDeposit deposit
    → let slice = payload header deposit in
      (range 1 8 slice ≡ deposit.pool_tag)
      × (range 9 32 slice ≡ deposit.ephemeral_pubkey)
      × (range 41 32 slice ≡ deposit.note_public_key)
ranges header deposit h =
    let slice = payload header deposit in
    let tag = deposit.pool_tag in
    let key = deposit.ephemeral_pubkey in
    let note = deposit.note_public_key in
    let at1 = At_past slice 0 1 (header ∷ []) (tag ++ (key ++ note)) (At_start slice) refl in
    let at9 = At_past slice 1 8 tag (key ++ note) at1 h.pool_tag in
    let at41 = At_past slice 9 32 key note at9 h.ephemeral_pubkey in
    (
      At_take slice 1 8 tag (key ++ note) at1 h.pool_tag,
      At_take slice 9 32 key note at9 h.ephemeral_pubkey,
      ap (take 32) at41.from_here ∙ take_all note 32 h.note_public_key,
    )

op_return_script :
    (value : ℕ) (rest : Bytes)
    → is_op_return (record { value = value; script_pubkey = 106 ∷ rest }) ≡ true
unfolding is_op_return
op_return_script value rest = ground arith

length-deposit_script :
    (push : Push) (header : ℕ) (deposit : DepositOpReturn)
    → 2 ≤ length (deposit_script push header deposit)
length-deposit_script direct header deposit = omega arith
length-deposit_script pushdata1 header deposit = omega arith

-- From a script with either push and one of the three headers, `get_deposit_op_return` reads the
-- three fields that the script was built from, whatever the output's value.
pub get_deposit_op_return-deposit_script :
    (push : Push) (header : ℕ) (deposit : DepositOpReturn) (value : ℕ)
    → is_deposit_header header ≡ true
    → IsDeposit deposit
    → get_deposit_op_return
        (record { value = value; script_pubkey = deposit_script push header deposit })
      ≡ some deposit
unfolding get_deposit_op_return
get_deposit_op_return-deposit_script push header deposit value known h =
    let (tag, key, note) = ranges header deposit h in
    rw
      (
        deposit_slice-push push (payload header deposit) (length-payload header deposit h),
        known,
        tag,
        key,
        note,
        op_return_script value (push_bytes push ++ payload header deposit),
        le→ltb (length (deposit_script push header deposit)) 2
            (length-deposit_script push header deposit),
      )
      refl
