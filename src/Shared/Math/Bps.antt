-- ===== src/Shared/Math/Bps.antt =====
-- `apply_bps` is the rounded-down share of an amount, on the whole `i128` range.
use trellis_contracts.Prelude.{
  ◌+◌, ◌*◌, ◌/◌, ◌≡◌, ℕ, ◌≤◌, ◌<◌, ◌^◌, ℤ, pos, negsuc, ◌+ℤ◌, ◌*ℤ◌, ◌/ℤ◌, ◌%ℤ◌,
  checked_add as i128_add, checked_mul as i128_mul, checked_div as i128_div, arith, ◌%◌, leb_ℤ,
  ◌&&◌, if◌then◌else◌, pos_part, IsI128, ap,
}
use trellis_contracts.Host.{ok, err}
use trellis_contracts.Shared.Errors.{invalid_amount}
use trellis_contracts.Shared.Math.{apply_bps, is_rate, checked_add, checked_mul, checked_div}

-- On numbers that are not negative the checked operations are those of ℕ, up to the bound.
pub checked_mul-pos : (a b : ℕ) → a * b < 2 ^ 127 → checked_mul (pos a) (pos b) ≡ ok (pos (a * b))
unfolding checked_mul i128_mul ◌*ℤ◌
checked_mul-pos a b h = ground arith

pub checked_add-pos : (a b : ℕ) → a + b < 2 ^ 127 → checked_add (pos a) (pos b) ≡ ok (pos (a + b))
unfolding checked_add i128_add ◌+ℤ◌
checked_add-pos a b h = ground arith

pub checked_div-pos :
    (a : ℕ) → a < 2 ^ 127 → checked_div (pos a) (pos 10_000) ≡ ok (pos (a / 10_000))
unfolding checked_div i128_div ◌/ℤ◌
checked_div-pos a h = ground arith

pub rem-pos : (a : ℕ) → pos a %ℤ pos 10_000 ≡ pos (a % 10_000)
unfolding ◌%ℤ◌
rem-pos a = ground arith

-- Splitting the amount by the denominator does not change the product.
split_product : (a b : ℕ) → a * b ≡ 10_000 * (a / 10_000 * b) + a % 10_000 * b
split_product a b =
    let e : a ≡ 10_000 * (a / 10_000) + a % 10_000 = omega arith in
    omega (arith, ap (λ (t : ℕ). t * b) e)

quotient_le : (a b : ℕ) → b ≤ 10_000 → a / 10_000 * b ≤ a / 10_000 * 10_000
quotient_le a b h = grind arith

remainder_le : (a b : ℕ) → b ≤ 10_000 → a % 10_000 * b ≤ a % 10_000 * 10_000
remainder_le a b h = grind arith

apply_bps-pos :
    (a b : ℕ)
    → 0 < a
    → a < 2 ^ 127
    → b ≤ 10_000
    → apply_bps (pos a) (pos b) ≡ ok (pos (a * b / 10_000))
unfolding apply_bps
apply_bps-pos a b p h r =
    let q = quotient_le a b r in
    let m = remainder_le a b r in
    let e = split_product a b in
    ground (
      arith,
      checked_div-pos a h,
      checked_mul-pos (a / 10_000) b (omega arith),
      rem-pos a,
      checked_mul-pos (a % 10_000) b (omega arith),
      checked_div-pos (a % 10_000 * b) (omega arith),
      checked_add-pos (a / 10_000 * b) (a % 10_000 * b / 10_000) (omega arith),
    )

-- For every i128 amount, on every branch: a positive amount and a rate of 0 to 10000 basis points
-- give the exact share rounded down with no overflow, and any other input is refused as
-- InvalidAmount.
pub apply_bps_lem :
    (amount bps : ℤ)
    → IsI128 amount
    → apply_bps amount bps ≡ (
        if leb_ℤ (pos 1) amount && is_rate bps
        then ok (pos (pos_part amount * pos_part bps / 10_000))
        else err invalid_amount)
unfolding apply_bps
apply_bps_lem (pos a) (pos b) h = ground (arith, apply_bps-pos a b)
apply_bps_lem (pos a) (negsuc b) h = ground arith
apply_bps_lem (negsuc a) b h = ground arith
