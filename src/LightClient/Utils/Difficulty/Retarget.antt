-- ===== src/LightClient/Utils/Difficulty/Retarget.antt =====
-- What `calculate_new_bits` and `required_bits_for_next_block` may return.
use utxopia_solana_programs.Prelude.{
  ℕ, ◌-◌, ◌*◌, ◌/◌, ◌%◌, ◌^◌, ◌≤◌, ◌≡◌, ◌≢◌, inl, inr, refl, ap, ◌∙◌, Bool, false, Bool-cases, List,
  ◌==◌, if◌then◌else◌, arith, ltb, ◌&&◌,
}
use utxopia_solana_programs.Prelude.Numbers.{u64_mod}
use utxopia_solana_programs.Prelude.Digits.{value}
use utxopia_solana_programs.Prelude.Results.{ok}
use utxopia_solana_programs.LightClient.Constants.{target_timespan, blocks_per_epoch}
use utxopia_solana_programs.LightClient.Utils.U256.{
  IsU256, u256_from_le_bytes, u256_to_le_bytes, u256_mul_u32, u256_div_u32, u256_gt_bytes,
}
use utxopia_solana_programs.LightClient.Utils.U256.Encoding.{
  value-u256_from_le_bytes, value-u256_to_le_bytes,
}
use utxopia_solana_programs.LightClient.Utils.U256.Scaling.{value-u256_mul_u32, value-u256_div_u32}
use utxopia_solana_programs.LightClient.Utils.U256.Order.{gt_bytes_iff}
use utxopia_solana_programs.LightClient.Utils.Pow.{target_from_bits}
use utxopia_solana_programs.LightClient.Utils.Pow.Target.{value-target_from_bits}
use utxopia_solana_programs.LightClient.Utils.Difficulty.{
  max_target_bits, clamp, calculate_new_bits, required_bits_for_next_block, bits_from_target,
}
use utxopia_solana_programs.LightClient.Utils.Difficulty.Compact.{bits_from_target-le}

-- The number that the target of a compact field stands for.
abbrev pub target_value : ℕ → ℕ
target_value bits = value 256 (target_from_bits bits)

pub max_target_small : target_value max_target_bits ≡ 0xffff * 2 ^ 208
max_target_small = (value-target_from_bits max_target_bits).1

abbrev pub clamped : ℕ → ℕ
clamped timespan = clamp timespan (target_timespan / 4) (target_timespan * 4)

clamped_bounds : (t : ℕ) → clamped t ≤ 4_838_400
clamped_bounds t = ground arith

no_wrap : (v c : ℕ) → v ≤ 0xffff * 2 ^ 208 → c ≤ 4_838_400 → v * c % 2 ^ 256 ≡ v * c
no_wrap v c hv hc = let p : v * c ≤ v * 4_838_400 = grind arith in omega arith

-- The scaled target, before it is capped, as limbs and as a number.
scaled_target :
    (old_bits t : ℕ)
    → target_value old_bits ≤ target_value max_target_bits
    → (q : List ℕ) × (u256_div_u32
          (u256_mul_u32 (u256_from_le_bytes (target_from_bits old_bits)) (clamped t))
          target_timespan
        ≡ ok q)
      × IsU256 q
      × (value u64_mod q ≡ target_value old_bits * clamped t / target_timespan)
scaled_target old_bits t h =
    let old = value-target_from_bits old_bits in
    let limbs = value-u256_from_le_bytes (target_from_bits old_bits) old.0 in
    let c = clamped t in
    let bound = clamped_bounds t in
    let product =
      value-u256_mul_u32 (u256_from_le_bytes (target_from_bits old_bits)) c limbs.0 (omega arith) in
    let quotient = value-u256_div_u32 _ target_timespan product.0 (omega arith) in
    (
      quotient.0,
      quotient.1,
      quotient.2,
      quotient.3
          ∙ ap (λ (n : ℕ). n / target_timespan)
              (product.1
                ∙ (ap (λ (n : ℕ). n * c % 2 ^ 256) limbs.1
                    ∙ no_wrap (target_value old_bits) c (omega (arith, h, max_target_small))
                        bound)),
    )

-- The capped target encodes below the cap and below the scaled target.
capped_target :
    (q : List ℕ)
    → IsU256 q
    → let t = u256_to_le_bytes q in
      let m = target_from_bits max_target_bits in
      let bits = bits_from_target (if u256_gt_bytes t m then m else t) in
      (target_value bits ≤ target_value max_target_bits) × (target_value bits ≤ value u64_mod q)
capped_target q w =
    let t = u256_to_le_bytes q in
    let m = target_from_bits max_target_bits in
    let (wt, vt) = value-u256_to_le_bytes q w in
    let wm = (value-target_from_bits max_target_bits).0 in
    let decides = gt_bytes_iff t m wt wm in
    elim (Bool-cases (u256_gt_bytes t m)) [
      | inl above ↦
          rw above
            (bits_from_target-le m wm, omega (arith, bits_from_target-le m wm, decides.0 above, vt))
      | inr within ↦
          let below : value 256 t ≤ value 256 m = ground (arith, decides) in
          rw within (
            omega (arith, bits_from_target-le t wt, below),
            omega (arith, bits_from_target-le t wt, vt),
          )
    ]

new_bits_eq :
    (old_bits timespan : ℕ) (q : List ℕ)
    → u256_div_u32
        (u256_mul_u32 (u256_from_le_bytes (target_from_bits old_bits)) (clamped timespan))
        target_timespan
      ≡ ok q
    → let t = u256_to_le_bytes q in
      let m = target_from_bits max_target_bits in
      calculate_new_bits old_bits timespan
      ≡ ok (bits_from_target (if u256_gt_bytes t m then m else t))
unfolding calculate_new_bits
new_bits_eq old_bits timespan q e = rw e

-- From bits whose target is at most the maximum target, a retarget succeeds. The new target is at
-- most the maximum target, and at most the old one scaled by the timespan, which is clamped to
-- between a quarter and four times two weeks.
pub calculate_new_bits_bounds :
    (old_bits timespan : ℕ)
    → target_value old_bits ≤ target_value max_target_bits
    → (bits : ℕ) × (calculate_new_bits old_bits timespan ≡ ok bits)
      × (target_value bits ≤ target_value max_target_bits)
      × (target_value bits ≤ target_value old_bits * clamped timespan / target_timespan)
calculate_new_bits_bounds old_bits timespan h =
    let (q, e, w, v) = scaled_target old_bits timespan h in
    let (cap, scaled) = capped_target q w in
    (_, new_bits_eq old_bits timespan q e, cap, rw (← v) scaled)

quarter-le : (v b c : ℕ) → c ≤ 302_400 → b ≤ v * c / target_timespan → b ≤ v
quarter-le v b c h e = let p : v * c ≤ v * 302_400 = grind arith in omega arith

-- From an epoch whose bits are not zero and whose target is at most the maximum target, the bits
-- that are required of the next block exist, and their target is at most the maximum target.
pub required_bits_capped :
    (testnet4 : Bool) (height timestamp parent_timestamp epoch_bits epoch_start : ℕ)
    → epoch_bits ≢ 0
    → target_value epoch_bits ≤ target_value max_target_bits
    → (bits : ℕ) × (required_bits_for_next_block testnet4 height timestamp parent_timestamp
          epoch_bits epoch_start
        ≡ ok bits)
      × (target_value bits ≤ target_value max_target_bits)
unfolding required_bits_for_next_block
required_bits_capped testnet4 height timestamp parent epoch start seeded h =
    let unseeded : (epoch == 0) ≡ false = ground arith in
    let exception = testnet4 && (ltb parent timestamp && ltb (20 * 60) (timestamp - parent)) in
    rw unseeded (elim (Bool-cases (height % blocks_per_epoch == 0)) [
      | inl boundary ↦
          let r = calculate_new_bits_bounds epoch (parent - start) h in rw boundary (r.0, r.1, r.2)
      | inr inside ↦ elim (Bool-cases exception) [
        | inl eased ↦ rw (inside, eased) (max_target_bits, refl, omega arith)
        | inr kept ↦ rw (inside, kept) (epoch, refl, h)
      ]
    ])

-- From an epoch whose bits are not zero and whose target is at most the maximum target, timestamps
-- that run backwards never ease the difficulty: a block that is not later than its parent, with a
-- parent that is not later than the start of the epoch, has required bits, and their target is at
-- most the target of the epoch.
pub required_bits_backwards :
    (testnet4 : Bool) (height timestamp parent_timestamp epoch_bits epoch_start : ℕ)
    → epoch_bits ≢ 0
    → target_value epoch_bits ≤ target_value max_target_bits
    → timestamp ≤ parent_timestamp
    → parent_timestamp ≤ epoch_start
    → (bits : ℕ) × (required_bits_for_next_block testnet4 height timestamp parent_timestamp
          epoch_bits epoch_start
        ≡ ok bits)
      × (target_value bits ≤ target_value epoch_bits)
unfolding required_bits_for_next_block
required_bits_backwards testnet4 height timestamp parent epoch start seeded h back before =
    let unseeded : (epoch == 0) ≡ false = ground arith in
    let exception = testnet4 && (ltb parent timestamp && ltb (20 * 60) (timestamp - parent)) in
    let kept : exception ≡ false = ground arith in
    rw unseeded (elim (Bool-cases (height % blocks_per_epoch == 0)) [
      | inl boundary ↦
          let r = calculate_new_bits_bounds epoch (parent - start) h in
          let c : clamped (parent - start) ≤ 302_400 = ground arith in
          rw boundary (
            r.0,
            r.1,
            quarter-le (target_value epoch) (target_value r.0) (clamped (parent - start)) c r.3,
          )
      | inr inside ↦ rw (inside, kept) (epoch, refl, omega arith)
    ])
