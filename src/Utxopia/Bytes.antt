-- ===== src/Utxopia/Bytes.antt =====
-- What programs/utxopia does with byte slices: ranges, and the tails that `&data[offset..]` and
-- `data.get(offset..)` take.
use utxopia_solana_programs.Prelude.{
  ℕ, List, ltb, ◌||◌, if◌then◌else◌, length, take, drop, Option, none, some,
}
use utxopia_solana_programs.Prelude.Results.{Result, ok, err, panicked}

abbrev pub Bytes : Type 0
Bytes = List ℕ

-- `&data[at..at + size]` of a slice that is long enough.
abbrev pub range : ℕ → ℕ → Bytes → Bytes
range at size bytes = take size (drop at bytes)

-- `&data[offset..]`, which panics past the end, and `data.get(offset..)`.
abbrev pub tail : ℕ → Bytes → Result Bytes
tail offset bytes = if ltb (length bytes) offset then err panicked else ok (drop offset bytes)

abbrev pub get_tail : ℕ → Bytes → Option Bytes
get_tail offset bytes = if ltb (length bytes) offset then none else some (drop offset bytes)

-- `&data[from..to]`, and the bytes it gives when it does not panic.
abbrev pub between : ℕ → ℕ → Bytes → Bytes
between from to bytes = drop from (take to bytes)

abbrev pub slice_between : ℕ → ℕ → Bytes → Result Bytes
slice_between from to bytes =
    if ltb to from || ltb (length bytes) to then err panicked else ok (between from to bytes)

-- `Option::and_then`, which is also `?` in a function that returns an `Option`.
infixl 5 ◌and_then◌
abbrev pub ◌and_then◌ {ℓ κ} : {A : Type ℓ} {B : Type κ} → Option A → (A → Option B) → Option B
none and_then next = none
some a and_then next = next a

-- `Result::ok`.
abbrev pub to_option {ℓ} : {A : Type ℓ} → Result A → Option A
to_option (ok a) = some a
to_option (err e) = none
