-- ===== src/Shared/Math.antt =====
-- Checked arithmetic and basis points (shared/src/math.rs).
pub mod Bps
use trellis_contracts.Prelude.{
  ℤ, pos, ◌%ℤ◌, leb_ℤ, ltb_ℤ, Bool, true, false, not, ◌&&◌, ◌||◌, Option, none, some, if◌then◌else◌,
  checked_add as i128_add, checked_sub as i128_sub, checked_mul as i128_mul,
  checked_div as i128_div,
}
use trellis_contracts.Host.{Result, ok, err, panic_with_error, trap, ◌>>=◌, ◌>>◌, fail_if, ok_or}
use trellis_contracts.Shared.Errors.{Error, overflow, invalid_amount}

abbrev pub bps_denominator : ℤ
bps_denominator = pos 10_000

unfoldable pub safe_add : ℤ → ℤ → Option ℤ
safe_add a b = i128_add a b

unfoldable pub safe_sub : ℤ → ℤ → Option ℤ
safe_sub a b = i128_sub a b

unfoldable pub checked_add : ℤ → ℤ → Result Error ℤ
checked_add a b = ok_or (i128_add a b) overflow

unfoldable pub checked_sub : ℤ → ℤ → Result Error ℤ
checked_sub a b = ok_or (i128_sub a b) overflow

unfoldable pub checked_mul : ℤ → ℤ → Result Error ℤ
checked_mul a b = ok_or (i128_mul a b) overflow

unfoldable pub checked_div : ℤ → ℤ → Result Error ℤ
checked_div a b =
    if leb_ℤ b (pos 0) && leb_ℤ (pos 0) b then err invalid_amount else ok_or (i128_div a b) overflow

-- `(0..=BPS_DENOMINATOR).contains(&bps)`
abbrev pub is_rate : ℤ → Bool
is_rate bps = leb_ℤ (pos 0) bps && leb_ℤ bps bps_denominator

unfoldable pub apply_bps : ℤ → ℤ → Result Error ℤ
apply_bps amount bps = do
  fail_if (leb_ℤ amount (pos 0) || not (is_rate bps)) invalid_amount
  whole ← checked_mul (← checked_div amount bps_denominator) bps
  remainder ← checked_div (← checked_mul (amount %ℤ bps_denominator) bps) bps_denominator
  checked_add whole remainder

-- `Result::ok`
abbrev ok_option : Result Error ℤ → Option ℤ
ok_option (ok a) = some a
ok_option (err _) = none
ok_option (panic_with_error _) = none
ok_option trap = none

unfoldable pub bps_of : ℤ → ℤ → Option ℤ
unfolding apply_bps
bps_of amount bps = ok_option (apply_bps amount bps)
