-- ===== src/Base/Division.antt =====
-- Quotients of numbers, rounded down and up (`ceilDiv` of fx/fx-math.ts and refunds/refund-math.ts).
use finstack.Base.{ℕ, ◌+◌, ◌-◌, ◌*◌, ◌/◌, ◌<◌, ◌≤◌, ◌≡◌, arith}
use native.Mathlib.Nat.{le-div_iff_mul-le, div-lt_iff_lt-mul, mul-div_cancel}

unfoldable pub ceil_div : ℕ → ℕ → ℕ
ceil_div a b = (a + b - 1) / b

module _ (d : ℕ) (positive : 0 < d) where
  pub div_below : (n : ℕ) → n / d * d ≤ n
  div_below n = (le-div_iff_mul-le {k = d} {x = n / d} {y = n} positive).0 (omega arith)

  pub div_above : (n : ℕ) → n < (n / d + 1) * d
  div_above n = (div-lt_iff_lt-mul {k = d} {x = n} {y = n / d + 1} positive).0 (omega arith)

  pub le-div : (k n : ℕ) → k * d ≤ n → k ≤ n / d
  le-div k n h = (le-div_iff_mul-le {k = d} {x = k} {y = n} positive).1 h

  pub div_mono : (m n : ℕ) → m ≤ n → m / d ≤ n / d
  div_mono m n h = le-div (m / d) n (omega (arith, div_below m))

  pub div_exact : (k : ℕ) → k * d / d ≡ k
  div_exact k = mul-div_cancel k positive

  -- Rounding up is the least number of `d`s that covers.
  pub ceil_div-le : (a k : ℕ) → a ≤ k * d → ceil_div a d ≤ k
  unfolding ceil_div
  ceil_div-le a k h =
      let less = (div-lt_iff_lt-mul {k = d} {x = a + d - 1} {y = k + 1} positive).1 (grind arith) in
      omega (arith, less)

  pub ceil_div_covers : (a : ℕ) → a ≤ ceil_div a d * d
  unfolding ceil_div
  ceil_div_covers a = let above = div_above (a + d - 1) in grind (arith, above)

  pub ceil_div_least : (a k : ℕ) → k < ceil_div a d → k * d < a
  unfolding ceil_div
  ceil_div_least a k h =
      let below =
        (le-div_iff_mul-le {k = d} {x = k + 1} {y = a + d - 1} positive).0 (omega (arith, h)) in
      grind (arith, below)

  pub ceil_div_mono : (a b : ℕ) → a ≤ b → ceil_div a d ≤ ceil_div b d
  ceil_div_mono a b h = ceil_div-le a (ceil_div b d) (omega (arith, ceil_div_covers b))

  pub ceil_div_exact : (k : ℕ) → ceil_div (k * d) d ≡ k
  unfolding ceil_div
  ceil_div_exact k =
      let up = ceil_div-le (k * d) k (omega arith) in
      let down = le-div k (k * d + d - 1) (omega arith) in omega (arith, up, down)
