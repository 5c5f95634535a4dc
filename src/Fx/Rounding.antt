-- ===== src/Fx/Rounding.antt =====
-- fx/fx-math.ts: which way the conversions round, and what the platform keeps.
use finstack.Base.{
  ℕ, zero, suc, ◌-◌, ◌*◌, ◌/◌, ◌<◌, ◌≡◌, inl, inr, Option, none, some, ◌==◌, arith, Bool-cases,
}
use finstack.Base.Int.{ℤ, pos, negsuc, ◌-ℤ◌, positive}
use finstack.Base.Result.{ok, Error, >>=-eq-ok, or_throw}
use finstack.Money.Currency.{CurrencyCode}
use finstack.Fx.Convert.{
  PairRate, Conversion, bps, factor, validate_spread, convert_at, convert_from_source,
}

-- The closed form of a conversion by n / d.
abbrev pub conversion : ℕ → ℕ → ℕ → ℕ → Conversion
conversion n d spread amount = record {
  source_amount = amount;
  target_amount = amount * n * (bps - spread) / (d * bps);
  gross_target_amount = amount * n / d;
  spread_amount = pos (amount * n / d) -ℤ pos (amount * n * (bps - spread) / (d * bps));
}

convert_at-eq-ok :
    (n d spread amount : ℕ) (c : Conversion)
    → convert_at (n, d) spread amount ≡ ok c
    → (0 < d) × (conversion n d spread amount ≡ c)
unfolding convert_at
convert_at-eq-ok n d spread amount c h = elim (Bool-cases (d == 0)) [
  | inl none_left ↦ absurd (ground arith)
  | inr nonzero ↦ elim (Bool-cases (d * bps == 0)) [
    | inl none_left ↦ absurd (ground arith)
    | inr other ↦ (ground arith, ground arith)
  ]
]

pub convert_at_ok :
    (n d spread amount : ℕ)
    → 0 < d
    → convert_at (n, d) spread amount ≡ ok (conversion n d spread amount)
unfolding convert_at
convert_at_ok n d spread amount h = ground arith

pub validate_spread-eq-ok : (s : ℤ) (n : ℕ) → validate_spread s ≡ ok n → (n < bps) × (s ≡ pos n)
unfolding validate_spread
validate_spread-eq-ok (negsuc k) n h = cc
validate_spread-eq-ok (pos k) n h = ground arith

pub positive-eq-some : (a : ℤ) (n : ℕ) → positive a ≡ some n → (0 < n) × (a ≡ pos n)
positive-eq-some (pos zero) n h = cc
positive-eq-some (pos (suc k)) n h = ground arith
positive-eq-some (negsuc k) n h = cc

pub or_throw-eq-ok :
    {A : Type 0} (o : Option A) (x : Error) (a : A) → or_throw o x ≡ ok a → o ≡ some a
or_throw-eq-ok none x a h = cc
or_throw-eq-ok (some b) x a h = cc

-- A conversion that returns has met its guards.
pub convert_from_source-eq-ok :
    (rate : PairRate) (source target : CurrencyCode) (amount spread_bps : ℤ) (c : Conversion)
    → convert_from_source rate source target amount spread_bps ≡ ok c
    → (spread : ℕ) × (a : ℕ) × (n : ℕ) × (d : ℕ) × (spread < bps)
      × (spread_bps ≡ pos spread)
      × (0 < a)
      × (amount ≡ pos a)
      × (factor rate source target ≡ ok (n, d))
      × (0 < d)
      × (conversion n d spread a ≡ c)
unfolding convert_from_source
convert_from_source-eq-ok rate source target amount spread_bps c h =
    let (spread, v, h1) = >>=-eq-ok (validate_spread spread_bps) _ h in
    let (a, p, h2) = >>=-eq-ok (or_throw (positive amount) Error.range_error) _ h1 in
    let (nd, f, h3) = >>=-eq-ok (factor rate source target) _ h2 in
    let (in_range, is_spread) = validate_spread-eq-ok spread_bps spread v in
    let (above, is_amount) =
      positive-eq-some amount a (or_throw-eq-ok (positive amount) Error.range_error a p) in
    let (nonzero, is) = convert_at-eq-ok nd.0 nd.1 spread a c h3 in
    (spread, a, nd.0, nd.1, in_range, is_spread, above, is_amount, f, nonzero, is)
