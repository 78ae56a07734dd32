-- ===== src/Marketplace/Prices.antt =====
-- The price of a Dutch auction (contracts/nft-marketplace/src/lib.rs).
use trellis_contracts.Marketplace.{overflow}
use native.Mathlib.Nat.{le-div_iff_mul-le, div-mul-le_self, div-le_of_le-mul, mul-le-mul_left}
use trellis_contracts.Marketplace.Auctions.{dutch_auction_price, Auction}
use trellis_contracts.Host.{ok, err, Env}
use trellis_contracts.Prelude.{
  ltb, inr, inl, leb, ◌≤ℤ◌, Bool-cases, ◌⊎◌, ℤ, ℕ, zero, suc, ◌-◌, ◌*◌, ◌/◌, ◌^◌, ◌≤◌, ◌<◌, ◌≡◌,
  none, some, arith, ◌-ℤ◌, ◌*ℤ◌, ◌/ℤ◌, checked_sub, checked_mul, checked_div, pos, negsuc, pos_part,
}
use trellis_contracts.Marketplace.Fees.{at_least_zero}

-- What is left of `p` after `e` of the `d` seconds in which it falls by `r`, and 0 below that.
abbrev pub decayed : ℕ → ℕ → ℕ → ℕ → ℕ
decayed p r e d = p - r * e / d

-- By how much the price falls in all.
abbrev pub range_of : ℕ → ℤ → ℕ
range_of p floor = pos_part (pos p -ℤ floor)

sub_range :
    (p : ℕ) (q : ℤ)
    → q ≤ℤ pos p
    → range_of p q < 2 ^ 127
    → checked_sub (pos p) q ≡ some (pos (range_of p q))
unfolding checked_sub ◌-ℤ◌
sub_range p (pos q) le lt = ground arith
sub_range p (negsuc q) le lt = ground arith

sub_over : (p : ℕ) (q : ℤ) → q ≤ℤ pos p → 2 ^ 127 ≤ range_of p q → checked_sub (pos p) q ≡ none
unfolding checked_sub ◌-ℤ◌
sub_over p (pos q) le lt = ground arith
sub_over p (negsuc q) le lt = ground arith

-- The last subtraction and `max(0)` together.
sub_clamped :
    (p m : ℕ)
    → p < 2 ^ 127
    → m < 2 ^ 127
    → (z : ℤ) × (checked_sub (pos p) (pos m) ≡ some z) × (at_least_zero z ≡ pos (p - m))
unfolding checked_sub ◌-ℤ◌
sub_clamped p m lt lt' = (pos p -ℤ pos m, ground arith, ground arith)

mul_pos : (a b : ℕ) → a * b < 2 ^ 127 → checked_mul (pos a) (pos b) ≡ some (pos (a * b))
unfolding checked_mul ◌*ℤ◌
mul_pos a b lt = ground arith

mul_over : (a b : ℕ) → 2 ^ 127 ≤ a * b → checked_mul (pos a) (pos b) ≡ none
unfolding checked_mul ◌*ℤ◌
mul_over a b le = ground arith

div_pos : (a d : ℕ) → 0 < d → a / d < 2 ^ 127 → checked_div (pos a) (pos d) ≡ some (pos (a / d))
unfolding checked_div ◌/ℤ◌
div_pos a zero h lt = ground arith
div_pos a (suc d) h lt = ground arith

-- The decay stays within the range of the prices.
decay_le : (r e d : ℕ) → e ≤ d → r * e / d ≤ r
decay_le r e d le = div-le_of_le-mul d (omega (arith, mul-le-mul_left r le))

div_mono : (k m n : ℕ) → m ≤ n → m / k ≤ n / k
div_mono zero m n le = omega arith
div_mono (suc k) m n le =
    let back = le-div_iff_mul-le {k = suc k} {x = m / suc k} {y = n} (omega arith) in
    back.1 (omega (arith, div-mul-le_self m (suc k)))

-- A factor that is not zero only makes a number larger.
factor_le : (r e : ℕ) → 0 < e → r ≤ r * e
factor_le r e h = let m = mul-le-mul_left r h in omega (arith, m)

-- A decayed price stays above the floor.
floor_le : (p m : ℕ) (q : ℤ) → q ≤ℤ pos p → m ≤ range_of p q → q ≤ℤ pos (p - m)
unfolding ◌-ℤ◌
floor_le p m (pos q) le h = ground arith
floor_le p m (negsuc q) le h = ground arith

module _ (env : Env) (a : Auction) (p : ℕ) where
  abbrev elapsed : ℕ
  elapsed = env.timestamp - a.start_time

  abbrev duration : ℕ
  duration = a.end_time - a.start_time

  abbrev range : ℕ
  range = range_of p a.floor_price

  between :
      a.start_price ≡ pos p
      → a.floor_price ≤ℤ pos p
      → p < 2 ^ 127
      → a.start_time < env.timestamp
      → env.timestamp < a.end_time
      → range * elapsed < 2 ^ 127
      → dutch_auction_price env a ≡ ok (pos (decayed p range elapsed duration))
  unfolding dutch_auction_price
  between sp le lt after before small =
      let d = decay_le range elapsed duration (omega arith) in
      let more = factor_le range elapsed (omega arith) in
      let h₁ = sub_range p a.floor_price le (omega arith) in
      let h₂ = mul_pos range elapsed small in
      let h₃ = div_pos (range * elapsed) duration (omega arith) (omega arith) in
      let (z, h₄, h₅) = sub_clamped p (range * elapsed / duration) lt (omega arith) in
      rw sp (ground arith)

  over :
      a.start_price ≡ pos p
      → a.floor_price ≤ℤ pos p
      → a.start_time < env.timestamp
      → env.timestamp < a.end_time
      → 2 ^ 127 ≤ range * elapsed
      → dutch_auction_price env a ≡ err overflow
  unfolding dutch_auction_price
  over sp le after before big = elim (Bool-cases (ltb range (2 ^ 127))) [
    | inl small ↦
        let h₁ = sub_range p a.floor_price le (ground arith) in
        let h₂ = mul_over range elapsed big in rw sp (ground arith)
    | inr large ↦ let h₁ = sub_over p a.floor_price le (ground arith) in rw sp (ground arith)
  ]

  -- The price of an auction whose start price p is an i128 that is not negative, and whose floor
  -- price, negative or not, is at most p, on every branch: the floor from the end on, p up to the
  -- start, and between them p less the share of the range that the elapsed time has, or 0 where
  -- that would be negative, which lies between the floor and p, or Overflow where the range times
  -- the elapsed time leaves i128.
  pub dutch_auction_price_lem :
      a.start_price ≡ pos p
      → a.floor_price ≤ℤ pos p
      → p < 2 ^ 127
      → ((a.end_time ≤ env.timestamp) × (dutch_auction_price env a ≡ ok a.floor_price))
        ⊎ ((env.timestamp < a.end_time)
            × (env.timestamp ≤ a.start_time)
            × (dutch_auction_price env a ≡ ok (pos p)))
        ⊎ ((a.start_time < env.timestamp)
            × (env.timestamp < a.end_time)
            × (dutch_auction_price env a ≡ ok (pos (decayed p range elapsed duration)))
            × (a.floor_price ≤ℤ pos (decayed p range elapsed duration))
            × (decayed p range elapsed duration ≤ p))
        ⊎ ((a.start_time < env.timestamp)
            × (env.timestamp < a.end_time)
            × (2 ^ 127 ≤ range * elapsed)
            × (dutch_auction_price env a ≡ err overflow))
  unfolding dutch_auction_price
  dutch_auction_price_lem sp le lt = elim (Bool-cases (leb a.end_time env.timestamp)) [
    | inl done ↦ inl (ground arith, ground arith)
    | inr live ↦ elim (Bool-cases (leb env.timestamp a.start_time)) [
      | inl early ↦ inr (inl (ground arith, ground arith, rw sp (ground arith)))
      | inr late ↦
          let after : a.start_time < env.timestamp = ground arith in
          let before : env.timestamp < a.end_time = ground arith in
          elim (Bool-cases (ltb (range * elapsed) (2 ^ 127))) [
            | inl small ↦
                let d = decay_le range elapsed duration (omega arith) in
                let low = floor_le p (range * elapsed / duration) a.floor_price le d in
                let price = between sp le lt after before (ground arith) in
                inr (inr (inl (after, before, price, low, omega arith)))
            | inr big ↦
                let big' : 2 ^ 127 ≤ range * elapsed = ground arith in
                inr (inr (inr (after, before, big', over sp le after before big')))
          ]
    ]
  ]

-- For an auction whose start price is an i128 that is not negative, and whose floor price,
-- negative or not, is at most that: of two reads of its price that both return, the later is not
-- above the earlier, and both lie between the floor price and the start price.
pub dutch_auction_price_falls :
    (env env' : Env) (a : Auction) (p : ℕ) (x y : ℤ)
    → a.start_price ≡ pos p
    → a.floor_price ≤ℤ pos p
    → p < 2 ^ 127
    → env.timestamp ≤ env'.timestamp
    → dutch_auction_price env a ≡ ok x
    → dutch_auction_price env' a ≡ ok y
    → (y ≤ℤ x) × (a.floor_price ≤ℤ y) × (x ≤ℤ pos p)
dutch_auction_price_falls env env' a p x y sp le lt later h h' =
    let one = dutch_auction_price_lem env a p sp le lt in
    let two = dutch_auction_price_lem env' a p sp le lt in
    let r = range_of p a.floor_price in
    let d =
      div_mono (a.end_time - a.start_time) (r * (env.timestamp - a.start_time))
        (r * (env'.timestamp - a.start_time)) (mul-le-mul_left r (omega arith)) in
    ground arith
