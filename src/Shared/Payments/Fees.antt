-- ===== src/Shared/Payments/Fees.antt =====
-- `calculate_fee` and `calculate_fee_split` (shared/src/payments.rs) on every branch, and how they
-- agree with `apply_bps` of shared/src/math.rs.
use trellis_contracts.Prelude.{
  ◌-ℤ◌, checked_mul as i128_mul, checked_div as i128_div, checked_sub as i128_sub,
}
use trellis_contracts.Shared.Math.Bps.{apply_bps_lem}
use trellis_contracts.Prelude.{
  ℕ, ◌*◌, ◌/◌, ◌^◌, ◌≤◌, ◌<◌, ◌≡◌, none, some, arith, ltb, if◌then◌else◌, ℤ, pos_part, ◌+ℤ◌, ◌*ℤ◌,
  ◌/ℤ◌, ◌≤ℤ◌, leb_ℤ, IsI128, pos, negsuc,
}
use trellis_contracts.Host.{Result, ok, err}
use trellis_contracts.Shared.Errors.{
  Error, payment_invalid_amount, payment_invalid_fee_rate, payment_fee_overflow,
}
use trellis_contracts.Shared.Math.{is_rate, apply_bps}
use trellis_contracts.Shared.Payments.{calculate_fee, calculate_fee_split}

fee_mul-pos :
    (a b : ℕ)
    → i128_mul (pos a) (pos b) ≡ (if ltb (a * b) (2 ^ 127) then some (pos (a * b)) else none)
unfolding i128_mul ◌*ℤ◌
fee_mul-pos a b = ground arith

fee_div-pos : (a : ℕ) → a < 2 ^ 127 → i128_div (pos a) (pos 10_000) ≡ some (pos (a / 10_000))
unfolding i128_div ◌/ℤ◌
fee_div-pos a h = ground arith

-- What `calculate_fee` returns for a valid amount and rate.
abbrev pub exact_fee : ℕ → ℕ → Result Error ℤ
exact_fee a b =
    if ltb (a * b) (2 ^ 127) then ok (pos (a * b / 10_000)) else err payment_fee_overflow

-- calculate_fee on every branch: the refusals in their order, the overflow of the product, and
-- else the share rounded down.
pub calculate_fee_lem :
    (amount rate_bps : ℤ)
    → calculate_fee amount rate_bps ≡ (
        if leb_ℤ amount (pos 0)
        then err payment_invalid_amount
        else if is_rate rate_bps
        then exact_fee (pos_part amount) (pos_part rate_bps)
        else err payment_invalid_fee_rate)
unfolding calculate_fee
calculate_fee_lem (pos a) (pos b) = ground (arith, fee_mul-pos a b, fee_div-pos (a * b))
calculate_fee_lem (pos a) (negsuc b) = ground arith
calculate_fee_lem (negsuc a) b = ground arith

share_le : (a b : ℕ) → b ≤ 10_000 → a * b / 10_000 ≤ a
share_le a b h = let p : a * b ≤ a * 10_000 = grind arith in omega arith

-- A fee that is charged on an i128 amount splits it exactly, and neither part is negative.
pub calculate_fee_split_exact :
    (amount rate_bps fee net : ℤ)
    → IsI128 amount
    → calculate_fee_split amount rate_bps ≡ ok (fee, net)
    → (fee +ℤ net ≡ amount) × (pos 0 ≤ℤ fee) × (pos 0 ≤ℤ net)
unfolding calculate_fee_split i128_sub ◌-ℤ◌ ◌+ℤ◌
calculate_fee_split_exact amount rate_bps fee net h e =
    ground
      (arith, calculate_fee_lem amount rate_bps, share_le (pos_part amount) (pos_part rate_bps))

-- Where calculate_fee returns a fee on an i128 amount, apply_bps returns the same.
pub calculate_fee-apply_bps :
    (amount rate_bps fee : ℤ)
    → IsI128 amount
    → calculate_fee amount rate_bps ≡ ok fee
    → apply_bps amount rate_bps ≡ ok fee
calculate_fee-apply_bps amount rate_bps fee h e =
    ground (arith, calculate_fee_lem amount rate_bps, apply_bps_lem amount rate_bps h)
