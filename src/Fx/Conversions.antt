-- ===== src/Fx/Conversions.antt =====
-- fx/fx-math.ts: what the customer is charged and credited by a conversion.
use finstack.Base.{ℕ, ◌+◌, ◌-◌, ◌*◌, ◌/◌, ◌<◌, ◌≤◌, ◌≡◌, refl, arith}
use mathlib.Core.Path.{subst}
use native.Mathlib.Nat.{mul-le-mul_left}
use finstack.Base.Int.{ℤ, pos, ◌+ℤ◌, ◌-ℤ◌, int_laws}
use finstack.Base.Division.{div_below, div_above, le-div}
use finstack.Base.Result.{ok}
use finstack.Money.Currency.{CurrencyCode}
use finstack.Fx.Convert.{PairRate, Conversion, bps, factor, convert_from_source}
use finstack.Fx.Rounding.{conversion, convert_from_source-eq-ok}

-- What is left of x after the spread is less than x.
pub after_spread : (x spread t d : ℕ) → t * (d * bps) ≤ x * (bps - spread) → t * d ≤ x
after_spread x spread t d h =
    let most = mul-le-mul_left {m = bps - spread} {n = bps} x (omega arith) in grind (arith, most)

target-le-gross :
    (n d spread a : ℕ)
    → 0 < d
    → (conversion n d spread a).target_amount ≤ (conversion n d spread a).gross_target_amount
target-le-gross n d spread a h = le-div d h (a * n * (bps - spread) / (d * bps)) (a * n) (
    after_spread (a * n) spread _ d
      (div_below (d * bps) (omega (arith, h)) (a * n * (bps - spread))))

pub same_factor :
    (rate : PairRate) (s t : CurrencyCode) (n d n' d' : ℕ)
    → factor rate s t ≡ ok (n, d)
    → factor rate s t ≡ ok (n', d')
    → (n ≡ n') × (d ≡ d')
same_factor rate s t n d n' d' h k = (cc, cc)

-- A conversion of a fixed source amount by the factor n / d charges that amount, and credits its
-- value less the spread rounded down: not more than it, and by less than one minor unit short of
-- it. The credited amount and the spread amount add up to the gross amount, the value at the mid
-- rate rounded down, and the credited amount is at most the gross amount.
pub convert_from_source-rounds_down :
    (rate : PairRate) (source target : CurrencyCode) (amount : ℤ) (spread n d : ℕ) (c : Conversion)
    → convert_from_source rate source target amount (pos spread) ≡ ok c
    → factor rate source target ≡ ok (n, d)
    → (amount ≡ pos c.source_amount)
      × (c.target_amount * (d * bps) ≤ c.source_amount * n * (bps - spread))
      × (c.source_amount * n * (bps - spread) < (c.target_amount + 1) * (d * bps))
      × (c.gross_target_amount ≡ c.source_amount * n / d)
      × (c.target_amount ≤ c.gross_target_amount)
      × (pos c.target_amount +ℤ c.spread_amount ≡ pos c.gross_target_amount)
convert_from_source-rounds_down rate source target amount spread n d c h f =
    let (sp, a, n', d', in_range, is_spread, above, is_amount, f', nonzero, is) =
      convert_from_source-eq-ok rate source target amount (pos spread) c h in
    let (same_n, same_d) = same_factor rate source target n' d' n d f' f in
    let same_spread : sp ≡ spread = ground arith in
    let nonzero' : 0 < d = subst (λ x. 0 < x) same_d nonzero in
    let whole : conversion n d spread a ≡ c = rw (← same_n, ← same_d, ← same_spread) is in
    rw (is_amount, ← whole) (closed n d spread a nonzero')
  where
    closed :
        (n d spread a : ℕ)
        → 0 < d
        → (pos a ≡ pos a)
          × (a * n * (bps - spread) / (d * bps) * (d * bps) ≤ a * n * (bps - spread))
          × (a * n * (bps - spread) < (a * n * (bps - spread) / (d * bps) + 1) * (d * bps))
          × (a * n / d ≡ a * n / d)
          × (a * n * (bps - spread) / (d * bps) ≤ a * n / d)
          × (pos (a * n * (bps - spread) / (d * bps))
                +ℤ (pos (a * n / d) -ℤ pos (a * n * (bps - spread) / (d * bps)))
              ≡ pos (a * n / d))
    closed n d spread a h = (
      refl,
      div_below (d * bps) (omega (arith, h)) (a * n * (bps - spread)),
      div_above (d * bps) (omega (arith, h)) (a * n * (bps - spread)),
      refl,
      target-le-gross n d spread a h,
      rest (a * n * (bps - spread) / (d * bps)) (a * n / d),
    )
      where
        rest : (t g : ℕ) → pos t +ℤ (pos g -ℤ pos t) ≡ pos g
        rest t g = omega int_laws
