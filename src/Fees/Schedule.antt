-- ===== src/Fees/Schedule.antt =====
-- fees/fee-math.ts: `calculateFee`.
use finstack.Base.{
  ℕ, zero, suc, ◌+◌, ◌*◌, ◌/◌, ◌≤◌, ◌≡◌, Option, none, some, ltb, arith, if◌then◌else◌, ap, sym,
  ◌∙◌,
}
use mathlib.Core.Path.{subst}
use native.Mathlib.Nat.{mul-le-mul_right}
use finstack.Base.Int.{ℤ, pos, positive}
use finstack.Base.Division.{ceil_div, div_mono}
use finstack.Base.Result.{Result, ok, Error, ◌>>=◌, or_throw}

-- The columns of a fee rule, none of them negative.
pub record FeeSchedule : Type 0 where
  pub fixed_amount : ℕ
  pub percentage_bps : ℕ
  pub min_amount : ℕ
  pub max_amount : Option ℕ

abbrev pub at_least : ℕ → ℕ → ℕ
at_least min fee = if ltb fee min then min else fee

abbrev pub at_most : Option ℕ → ℕ → ℕ
at_most none fee = fee
at_most (some max) fee = if ltb max fee then max else fee

-- The percentage, rounded up to the minor unit.
abbrev pub percentage : ℕ → FeeSchedule → ℕ
percentage amount schedule = (amount * schedule.percentage_bps + 9999) / 10000

unfoldable pub calculate_fee : ℤ → FeeSchedule → Result ℕ
calculate_fee amount schedule = do
  a ← or_throw (positive amount) Error.range_error
  ok (
      at_most schedule.max_amount
        (at_least schedule.min_amount (schedule.fixed_amount + percentage a schedule)))

-- The fee is within the cap, where the schedule has one.
abbrev pub WithinCap : Option ℕ → ℕ → Type 0
WithinCap none fee = Unit
WithinCap (some max) fee = fee ≤ max

cap_within : (o : Option ℕ) (fee : ℕ) → WithinCap o (at_most o fee)
cap_within none fee = tt
cap_within (some max) fee = ground arith

at_most_mono : (o : Option ℕ) (a b : ℕ) → a ≤ b → at_most o a ≤ at_most o b
at_most_mono none a b h = h
at_most_mono (some max) a b h = ground arith

at_most_le : (o : Option ℕ) (a : ℕ) → at_most o a ≤ a
at_most_le none a = omega arith
at_most_le (some max) a = ground arith

at_least_mono : (m a b : ℕ) → a ≤ b → at_least m a ≤ at_least m b
at_least_mono m a b h = ground arith

percentage_mono : (a b : ℕ) (s : FeeSchedule) → a ≤ b → percentage a s ≤ percentage b s
percentage_mono a b s h =
    let more = mul-le-mul_right {m = a} {n = b} s.percentage_bps h in
    div_mono 10000 (omega arith) (a * s.percentage_bps + 9999) (b * s.percentage_bps + 9999)
      (omega (arith, more))

percentage_lem : (a : ℕ) (s : FeeSchedule) → percentage a s ≡ ceil_div (a * s.percentage_bps) 10000
unfolding ceil_div
percentage_lem a s = ap (λ x. x / 10000) (omega arith)

-- The fee that is charged is never above the cap of its schedule; as far as the cap allows, it is
-- at least the minimum and at least the fixed amount with the percentage rounded up; and it is no
-- more than the larger of these two.
pub calculate_fee_bounds :
    (a : ℕ) (s : FeeSchedule) (fee : ℕ)
    → calculate_fee (pos a) s ≡ ok fee
    → WithinCap s.max_amount fee
      × (at_most s.max_amount s.min_amount ≤ fee)
      × (at_most s.max_amount (s.fixed_amount + ceil_div (a * s.percentage_bps) 10000) ≤ fee)
      × (fee ≤ at_least s.min_amount (s.fixed_amount + ceil_div (a * s.percentage_bps) 10000))
unfolding calculate_fee
calculate_fee_bounds zero s fee h = cc
calculate_fee_bounds (suc n) s fee h =
    let exact : s.fixed_amount + percentage (suc n) s
        ≡ s.fixed_amount + ceil_div (suc n * s.percentage_bps) 10000 =
      ap (λ x. s.fixed_amount + x) (percentage_lem (suc n) s) in
    let is : at_most s.max_amount
          (at_least s.min_amount (s.fixed_amount + ceil_div (suc n * s.percentage_bps) 10000))
        ≡ fee =
      ap (λ x. at_most s.max_amount (at_least s.min_amount x)) (sym exact) ∙ ground arith in
    subst (Bounds s (s.fixed_amount + ceil_div (suc n * s.percentage_bps) 10000)) is
      (bounds s (s.fixed_amount + ceil_div (suc n * s.percentage_bps) 10000))
  where
    Bounds : FeeSchedule → ℕ → ℕ → Type 0
    Bounds s x fee =
        WithinCap s.max_amount fee
        × (at_most s.max_amount s.min_amount ≤ fee)
        × (at_most s.max_amount x ≤ fee)
        × (fee ≤ at_least s.min_amount x)

    bounds : (s : FeeSchedule) (x : ℕ) → Bounds s x (at_most s.max_amount (at_least s.min_amount x))
    bounds s x = (
      cap_within s.max_amount (at_least s.min_amount x),
      at_most_mono s.max_amount s.min_amount (at_least s.min_amount x) (ground arith),
      at_most_mono s.max_amount x (at_least s.min_amount x) (ground arith),
      at_most_le s.max_amount (at_least s.min_amount x),
    )

-- A larger amount never pays a smaller fee under the same schedule.
pub calculate_fee_mono :
    (a b : ℕ) (s : FeeSchedule) (x y : ℕ)
    → a ≤ b
    → calculate_fee (pos a) s ≡ ok x
    → calculate_fee (pos b) s ≡ ok y
    → x ≤ y
unfolding calculate_fee
calculate_fee_mono zero b s x y le h k = cc
calculate_fee_mono (suc n) zero s x y le h k = cc
calculate_fee_mono (suc n) (suc m) s x y le h k =
    let more : at_most s.max_amount (at_least s.min_amount (s.fixed_amount + percentage (suc n) s))
        ≤ at_most s.max_amount (at_least s.min_amount (s.fixed_amount + percentage (suc m) s)) =
      at_most_mono s.max_amount _ _
        (at_least_mono s.min_amount _ _ (omega (arith, percentage_mono (suc n) (suc m) s le))) in
    ground arith
