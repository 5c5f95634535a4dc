-- ===== src/Fx/Convert.antt =====
-- fx/fx-math.ts: conversions at a rate. Amounts and rates are `bigint`s in the source; those that
-- the guards have shown to be positive are numbers here.
use finstack.Base.{ℕ, ◌-◌, ◌*◌, ◌/◌, ◌^◌, Bool, ◌&&◌, ltb, ◌==◌, if◌then◌else◌}
use finstack.Base.Int.{ℤ, pos, negsuc, ◌-ℤ◌, positive}
use finstack.Base.Division.{ceil_div}
use finstack.Base.Text.{text_eq}
use finstack.Base.Result.{Result, ok, err, Error, ◌>>=◌, or_throw}
use finstack.Money.Currency.{CurrencyCode, code_text, minor_units}

abbrev pub rate_scale : ℕ
rate_scale = 10000000000

abbrev pub bps : ℕ
bps = 10000

-- `scaled` is the quote units of one base unit, times `rate_scale`. `parseRate` gives no rate below
-- zero.
pub record PairRate : Type 0 where
  pub base : CurrencyCode
  pub quote : CurrencyCode
  pub scaled : ℕ

pub record Conversion : Type 0 where
  pub source_amount : ℕ
  pub target_amount : ℕ
  pub gross_target_amount : ℕ
  pub spread_amount : ℤ

abbrev pub same_code : CurrencyCode → CurrencyCode → Bool
same_code a b = text_eq (code_text a) (code_text b)

-- The numerator and the denominator of the conversion, on minor units.
unfoldable pub factor : PairRate → CurrencyCode → CurrencyCode → Result (ℕ × ℕ)
unfolding text_eq minor_units
factor rate source target =
    let es = 10 ^ minor_units source in
    let et = 10 ^ minor_units target in
    if same_code source rate.base && same_code target rate.quote
    then ok (rate.scaled * et, rate_scale * es)
    else if same_code source rate.quote && same_code target rate.base
    then ok (rate_scale * et, rate.scaled * es)
    else err Error.invalid_rate

-- The integers of the source's `number`.
unfoldable pub validate_spread : ℤ → Result ℕ
validate_spread (negsuc n) = err Error.range_error
validate_spread (pos n) = if ltb n bps then ok n else err Error.range_error

-- A quotient of bigints, which throws for 0.
abbrev pub quotient : ℕ → ℕ → Result ℕ
quotient n d = if d == 0 then err Error.range_error else ok (n / d)

-- The amounts of a conversion, once the checks have passed.
unfoldable pub convert_at : ℕ × ℕ → ℕ → ℕ → Result Conversion
convert_at (n, d) spread amount = do
  gross ← quotient (amount * n) d
  target ← quotient (amount * n * (bps - spread)) (d * bps)
  ok (record {
    source_amount = amount;
    target_amount = target;
    gross_target_amount = gross;
    spread_amount = pos gross -ℤ pos target;
  })

unfoldable pub convert_from_source :
    PairRate → CurrencyCode → CurrencyCode → ℤ → ℤ → Result Conversion
unfolding validate_spread factor convert_at
convert_from_source rate source target source_amount spread_bps = do
  spread ← validate_spread spread_bps
  amount ← or_throw (positive source_amount) Error.range_error
  nd ← factor rate source target
  convert_at nd spread amount

-- `ceilDiv`, which throws for a quotient by 0.
abbrev pub ceil_quotient : ℕ → ℕ → Result ℕ
ceil_quotient a b = if b == 0 then err Error.range_error else ok (ceil_div a b)

unfoldable pub convert_to_target :
    PairRate → CurrencyCode → CurrencyCode → ℤ → ℤ → Result Conversion
unfolding validate_spread factor ceil_div convert_from_source
convert_to_target rate source target target_amount spread_bps = do
  spread ← validate_spread spread_bps
  amount ← or_throw (positive target_amount) Error.range_error
  nd ← factor rate source target
  source_amount ← ceil_quotient (amount * nd.1 * bps) (nd.0 * (bps - spread))
  convert_from_source rate source target (pos source_amount) spread_bps
