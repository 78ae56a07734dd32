-- ===== src/Referral/Accrual.antt =====
-- The accrual of rewards over the chain of referrers.
use native.Mathlib.Nat.{mul-add, mul-le-mul_left}
use trellis_contracts.Prelude.{
  ap, leb_ℤ, ◌∙◌, ◌-◌, ℕ, zero, suc, ◌+◌, ◌*◌, ◌/◌, ◌≤◌, ◌≡◌, refl, inl, inr, true, some, List, [],
  ◌∷◌, arith, Option-cases, unwrap_or, get_elem?, total, itself, ℤ, int_laws, pos_part, ◌+ℤ◌, ◌≤ℤ◌,
  IsI128, pos,
}
use trellis_contracts.Host.{fail_if, Env, ok_or-eq_ok, ok_or, bind_then, ok}
use trellis_contracts.Shared.Errors.{overflow, not_found, invalid_argument}
use trellis_contracts.Shared.Math.{bps_of}
use trellis_contracts.Shared.Math.Bps.{apply_bps_lem}
use trellis_contracts.Referral.{Referral, max_reward_cap, is_tier_bps, read_tiers, require_admin}
use trellis_contracts.Referral.Rewards.{accrue, accrue_loop, credit_positive}
use trellis_contracts.Referral.Caps.{IsBooked, AreKept, credit_positive_effect}
use trellis_contracts.Referral.Tiers.{AreRates, sum_rates, IsConfigured}

-- The rate at a position of the list, as the loop reads it, and of `n` positions from there on.
abbrev rate_at : List ℤ → ℕ → ℕ
rate_at bs i = pos_part (unwrap_or (get_elem? bs i) (pos 0))

sum_from : List ℤ → ℕ → ℕ → ℕ
sum_from bs zero i = 0
sum_from bs (suc n) i = rate_at bs i + sum_from bs n (i + 1)

sum_from-tail : (n i : ℕ) (b : ℤ) (bs : List ℤ) → sum_from (b ∷ bs) n (i + 1) ≡ sum_from bs n i
unfolding sum_from
sum_from-tail zero i b bs = refl
sum_from-tail (suc n) i b bs =
    let q : rate_at (b ∷ bs) (i + 1) ≡ rate_at bs i =
      let one : i + 1 ≡ suc i = omega arith in rw one refl in
    omega (arith, sum_from-tail n (i + 1) b bs)

sum_from_le : (n : ℕ) (bs : List ℤ) → sum_from bs n 0 ≤ sum_rates bs
unfolding sum_from
sum_from_le zero bs = omega arith
sum_from_le (suc n) [] = sum_from_nil (suc n) 0
  where
    sum_from_nil : (n i : ℕ) → sum_from [] n i ≤ 0
    sum_from_nil zero i = omega arith
    sum_from_nil (suc n) i = omega (arith, sum_from_nil n (i + 1))
sum_from_le (suc n) (b ∷ bs) = omega (arith, sum_from_le n bs, sum_from-tail n 0 b bs)

rate_at-is_tier_bps :
    (bs : List ℤ) (i : ℕ) (b : ℤ) → AreRates bs → get_elem? bs i ≡ some b → is_tier_bps b ≡ true
rate_at-is_tier_bps [] i b v e = absurd (cc)
rate_at-is_tier_bps (x ∷ bs) zero b v e = let q : x ≡ b = ground arith in rw (← q) (v.0)
rate_at-is_tier_bps (x ∷ bs) (suc i) b v e = rate_at-is_tier_bps bs i b (v.1) e

-- A commission is the rounded-down share.
commission_lem :
    (base b x : ℤ)
    → IsI128 base
    → pos 1 ≤ℤ base
    → is_tier_bps b ≡ true
    → bps_of base b ≡ some x
    → 10_000 * pos_part x ≤ pos_part base * pos_part b
unfolding bps_of
commission_lem base b x r p v e =
    let q : x ≡ pos (pos_part base * pos_part b / 10_000) =
      ground (arith, apply_bps_lem base b r) in
    rw q (omega arith)

add_nonneg : (y z : ℤ) → pos 0 ≤ℤ y → pos 0 ≤ℤ z → pos_part (y +ℤ z) ≡ pos_part y + pos_part z
unfolding ◌+ℤ◌
add_nonneg y z h k = ground arith

-- The loop credits `added` in total, within the rates that it passes, and keeps the books.
accrue_loop_effect :
    (w : ℕ) (base cap : ℤ) (bs : List ℤ) (n i cur : ℕ) (tot tot' : ℤ) (s s' : Referral)
    → IsI128 base
    → pos 1 ≤ℤ base
    → AreRates bs
    → cap ≤ℤ max_reward_cap
    → IsBooked s
    → accrue_loop w base cap bs n (i + 1) cur (tot, s) ≡ ok (tot', s')
    → (added : ℤ) × (pos 0 ≤ℤ added)
      × (10_000 * pos_part added ≤ pos_part base * sum_from bs n i)
      × (tot' ≡ tot +ℤ added)
      × IsBooked s'
      × (total itself s'.accrued ≡ total itself s.accrued +ℤ added)
      × AreKept s s'
unfolding accrue_loop sum_from
accrue_loop_effect w base cap bs zero i cur tot tot' s s' r p v m k e =
    let q : s' ≡ s = ground arith in
    let t : tot' ≡ tot = ground arith in
    rw (q, t)
      (pos 0, omega arith, omega arith, omega int_laws, k, omega int_laws, (refl, refl, refl, refl))
accrue_loop_effect w base cap bs (suc n) i cur tot tot' s s' r p v m k e =
    elim (Option-cases (s.referrer_key cur)) [
      | inl end ↦
          let q : s' ≡ s = ground arith in
          let t : tot' ≡ tot = ground arith in
          rw (q, t)
            (
              pos 0,
              omega arith,
              omega arith,
              omega int_laws,
              k,
              omega int_laws,
              (refl, refl, refl, refl),
            )
      | inr (ref, up) ↦
          let e₀ = rw up at e in
          bind_then (ok_or (get_elem? bs (i + 1 - 1)) not_found) _ e₀ λ b hb e₁.
            bind_then (ok_or (bps_of base b) overflow) _ e₁ λ x hx e₂.
              bind_then (credit_positive w ref (i + 1) x cap (tot, s)) _ e₂ λ out h e₃.
                let (y, y0, yx, t₁, books, sum₁, kept) =
                  credit_positive_effect w ref (i + 1) x cap tot (out.0) s (out.1) k m h in
                let (z, z0, zx, t₂, books', sum₂, kept') =
                  accrue_loop_effect w base cap bs n (i + 1) ref (out.0) tot' (out.1) s' r p v m
                    books e₃ in
                let pre : i + 1 - 1 ≡ i = omega arith in
                let at' = rw pre at (ok_or-eq_ok (get_elem? bs (i + 1 - 1)) not_found hb) in
                let share =
                  commission_lem base b x r p (rate_at-is_tier_bps bs i b v at')
                    (ok_or-eq_ok (bps_of base b) overflow hx) in
                let rate : rate_at bs i ≡ pos_part b = rw at' refl in
                let split : pos_part base * (rate_at bs i + sum_from bs n (i + 1))
                    ≡ pos_part base * pos_part b + pos_part base * sum_from bs n (i + 1) =
                  rw rate (mul-add _ _ _) in
                (
                  y +ℤ z,
                  grind (int_laws, y0, z0),
                  omega (arith, split, share, yx, zx, add_nonneg y z y0 z0),
                  grind (int_laws, t₁, t₂),
                  books',
                  grind (int_laws, sum₁, sum₂),
                  (kept'.0 ∙ kept.0, kept'.1 ∙ kept.1, kept'.2 ∙ kept.2, kept'.3 ∙ kept.3),
                )
    ]

at_most : (y base : ℤ) → pos 1 ≤ℤ base → pos_part y ≤ pos_part base → y ≤ℤ base
at_most y base h k = ground arith

-- What a successful accrual has found and done.
pub accrue_effect :
    (env : Env) (caller w : ℕ) (base credited : ℤ) (s s' : Referral)
    → IsI128 base
    → IsConfigured s
    → IsBooked s
    → accrue env caller w base s ≡ ok (credited, s')
    → (pos 0 ≤ℤ credited)
      × (credited ≤ℤ base)
      × (total itself s'.accrued ≡ total itself s.accrued +ℤ credited)
      × IsBooked s'
      × AreKept s s'
unfolding accrue
accrue_effect env caller w base credited s s' r v k e =
    bind_then (require_admin env caller s) _ e λ _ _ e₁.
      bind_then (fail_if (leb_ℤ base (pos 0)) invalid_argument) _ e₁ λ _ p e₂.
        bind_then (ok_or s.tiers_key not_found) _ e₂ λ n hn e₃.
          bind_then (ok_or s.cap_key not_found) _ e₃ λ cap hc e₄.
            bind_then (read_tiers n 1 s.bps_key) _ e₄ λ cache h e₅.
              let (bs, read, rates, sum) = v.tiers n (ok_or-eq_ok s.tiers_key not_found hn) in
              let same : cache ≡ bs = cc in
              let limit = v.cap cap (ok_or-eq_ok s.cap_key not_found hc) in
              let (y, y0, yx, t, books, money, kept) =
                accrue_loop_effect w base cap bs n 0 w (pos 0) credited s s' r (ground arith) rates
                  (limit.1) k (rw (← same) e₅) in
              let q : credited ≡ y = grind (int_laws, t) in
              let all = sum_from_le n bs in
              let most : pos_part base * sum_from bs n 0 ≤ pos_part base * 10_000 =
                mul-le-mul_left (pos_part base) (omega arith) in
              (
                grind (int_laws, t, y0),
                at_most credited base (ground arith)
                    (omega (arith, yx, all, sum, most, ap pos_part q)),
                grind (int_laws, t, money),
                books,
                kept,
              )

-- With a valid configuration and booked balances, an accrual on an i128 amount credits at least
-- nothing and no more than the base amount over all tiers together, and the claimable rewards grow
-- by exactly what it returns.
pub accrue_bounded :
    (env : Env) (caller w : ℕ) (base credited : ℤ) (s s' : Referral)
    → IsI128 base
    → IsConfigured s
    → IsBooked s
    → accrue env caller w base s ≡ ok (credited, s')
    → (pos 0 ≤ℤ credited)
      × (credited ≤ℤ base)
      × (total itself s'.accrued ≡ total itself s.accrued +ℤ credited)
accrue_bounded env caller w base credited s s' r v k e =
    let (z, le, money, _, _) = accrue_effect env caller w base credited s s' r v k e in
    (z, le, money)
