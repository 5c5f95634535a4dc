-- ===== src/Fx/Least.antt =====
-- fx/fx-math.ts: `convertToTarget` charges no more than it must, and no pair of conversions makes
-- money.
use finstack.Base.{
  ℕ, ◌+◌, ◌-◌, ◌*◌, ◌<◌, ◌≤◌, ◌≡◌, sym, ap, ◌∙◌, inl, inr, true, false, ◌&&◌, arith, Bool-cases,
}
use mathlib.Core.Path.{subst}
use native.Mathlib.Nat.{mul-le-mul_right, le_of_mul-le-mul_right}
use finstack.Base.Int.{ℤ, pos, positive}
use finstack.Base.Division.{ceil_div, ceil_div_covers, ceil_div_least}
use finstack.Base.Text.{text_eq_iff}
use finstack.Base.Result.{ok, Error, >>=-eq-ok, or_throw}
use finstack.Money.Currency.{CurrencyCode, code_text}
use finstack.Fx.Convert.{
  PairRate, Conversion, bps, same_code, factor, validate_spread, ceil_quotient, convert_from_source,
  convert_to_target,
}
use finstack.Fx.Rounding.{convert_from_source-eq-ok, positive-eq-some, or_throw-eq-ok}
use finstack.Fx.Conversions.{convert_from_source-rounds_down, after_spread}

ceil_quotient-eq-ok : (a b x : ℕ) → ceil_quotient a b ≡ ok x → (0 < b) × (ceil_div a b ≡ x)
ceil_quotient-eq-ok a b x h = ground arith

-- What `convertToTarget` asks of `convertFromSource`.
convert_to_target-eq-ok :
    (rate : PairRate) (source target : CurrencyCode) (amount spread_bps : ℤ) (c : Conversion)
    → convert_to_target rate source target amount spread_bps ≡ ok c
    → (spread : ℕ) × (b : ℕ) × (n : ℕ) × (d : ℕ) × (validate_spread spread_bps ≡ ok spread)
      × (amount ≡ pos b)
      × (factor rate source target ≡ ok (n, d))
      × (0 < n * (bps - spread))
      × (convert_from_source rate source target
            (pos (ceil_div (b * d * bps) (n * (bps - spread))))
            spread_bps
          ≡ ok c)
unfolding convert_to_target
convert_to_target-eq-ok rate source target amount spread_bps c h =
    let (spread, v, h1) = >>=-eq-ok (validate_spread spread_bps) _ h in
    let (b, p, h2) = >>=-eq-ok (or_throw (positive amount) Error.range_error) _ h1 in
    let (nd, f, h3) = >>=-eq-ok (factor rate source target) _ h2 in
    let (x, q, h4) = >>=-eq-ok (ceil_quotient (b * nd.1 * bps) (nd.0 * (bps - spread))) _ h3 in
    let (above, is_amount) =
      positive-eq-some amount b (or_throw-eq-ok (positive amount) Error.range_error b p) in
    let (nonzero, is) = ceil_quotient-eq-ok (b * nd.1 * bps) (nd.0 * (bps - spread)) x q in
    (
      spread,
      b,
      nd.0,
      nd.1,
      v,
      is_amount,
      f,
      nonzero,
      subst (λ k. convert_from_source rate source target (pos k) spread_bps ≡ ok c) (sym is) h4,
    )

validate_spread-value : (s n : ℕ) → validate_spread (pos s) ≡ ok n → s ≡ n
unfolding validate_spread
validate_spread-value s n h = ground arith

-- A target that is below the amount asked for, by the rounding of one conversion.
covers : (x n d k b t : ℕ) → b * d * bps ≤ x * (n * k) → x * n * k < (t + 1) * (d * bps) → b ≤ t
covers x n d k b t paid rounded = grind (arith, mul-le-mul_right {m = t + 1} {n = b} (d * bps))

short : (s n d k b t : ℕ) → s * (n * k) < b * d * bps → t * (d * bps) ≤ s * n * k → t < b
short s n d k b t paid rounded = grind (arith, mul-le-mul_right {m = b} {n = t} (d * bps))

least_source :
    (rate : PairRate) (source target : CurrencyCode) (b spread : ℕ) (c : Conversion)
    → convert_to_target rate source target (pos b) (pos spread) ≡ ok c
    → (b ≤ c.target_amount)
      × ((s : ℕ) (less : Conversion)
          → s < c.source_amount
          → convert_from_source rate source target (pos s) (pos spread) ≡ ok less
          → less.target_amount < b)
least_source rate source target b spread c h =
    let (sp, b', n, d, v, is_b, f, nonzero, run) =
      convert_to_target-eq-ok rate source target (pos b) (pos spread) c h in
    let same_b : b ≡ b' = ground arith in
    let same_spread : spread ≡ sp = validate_spread-value spread sp v in
    least_at n d sp same_spread (subst (λ x. 0 < n * (bps - x)) (sym same_spread) nonzero) f (
      subst
        (λ x.
          convert_from_source rate source target (pos (ceil_div (b * d * bps) (n * (bps - x))))
            (pos spread)
          ≡ ok c)
        (sym same_spread)
        (subst
          (λ x.
            convert_from_source rate source target (pos (ceil_div (x * d * bps) (n * (bps - sp))))
              (pos spread)
            ≡ ok c)
          (sym same_b) run))
  where
    least_at :
        (n d sp : ℕ)
        → spread ≡ sp
        → 0 < n * (bps - spread)
        → factor rate source target ≡ ok (n, d)
        → convert_from_source rate source target
            (pos (ceil_div (b * d * bps) (n * (bps - spread))))
            (pos spread)
          ≡ ok c
        → (b ≤ c.target_amount)
          × ((s : ℕ) (less : Conversion)
              → s < c.source_amount
              → convert_from_source rate source target (pos s) (pos spread) ≡ ok less
              → less.target_amount < b)
    least_at n d sp _ nonzero f run =
        let (charged, _, above, _, _, _) =
          convert_from_source-rounds_down rate source target _ spread n d c run f in
        let source_is : ceil_div (b * d * bps) (n * (bps - spread)) ≡ c.source_amount =
          ground arith in
        let enough : b * d * bps ≤ c.source_amount * (n * (bps - spread)) =
          subst (λ x. b * d * bps ≤ x * (n * (bps - spread))) source_is
            (ceil_div_covers (n * (bps - spread)) nonzero (b * d * bps)) in
        (
          covers c.source_amount n d (bps - spread) b c.target_amount enough above,
          λ s less smaller ran.
              let (paid, below, _, _, _, _) =
                convert_from_source-rounds_down rate source target (pos s) spread n d less ran f in
              let same_s : s ≡ less.source_amount = ground arith in
              let too_little : s * (n * (bps - spread)) < b * d * bps =
                ceil_div_least (n * (bps - spread)) nonzero (b * d * bps) s
                  (subst (λ x. s < x) (sym source_is) smaller) in
              short less.source_amount n d (bps - spread) b less.target_amount
                (subst (λ x. x * (n * (bps - spread)) < b * d * bps) same_s too_little) below,
        )

-- A conversion to a fixed target amount credits at least that amount.
pub convert_to_target-enough :
    (rate : PairRate) (source target : CurrencyCode) (b spread : ℕ) (c : Conversion)
    → convert_to_target rate source target (pos b) (pos spread) ≡ ok c
    → b ≤ c.target_amount
convert_to_target-enough rate source target b spread c h =
    (least_source rate source target b spread c h).0

-- The source amount that a conversion to a fixed target amount charges is the least that will do:
-- a conversion of a smaller source amount at the same rate and spread credits less than the amount
-- asked for.
pub convert_to_target-least :
    (rate : PairRate) (source target : CurrencyCode) (b spread s : ℕ) (c less : Conversion)
    → convert_to_target rate source target (pos b) (pos spread) ≡ ok c
    → s < c.source_amount
    → convert_from_source rate source target (pos s) (pos spread) ≡ ok less
    → less.target_amount < b
convert_to_target-least rate source target b spread s c less h smaller ran =
    (least_source rate source target b spread c h).1 s less smaller ran

not_both :
    (rate : PairRate) (c : CurrencyCode)
    → same_code rate.base rate.quote ≡ false
    → same_code c rate.base ≡ true
    → same_code c rate.quote ≡ true
    → ⊥
not_both rate c apart is_base is_quote =
    let b = (text_eq_iff (code_text c) (code_text rate.base)).0 is_base in
    let q = (text_eq_iff (code_text c) (code_text rate.quote)).0 is_quote in
    ground (arith, (text_eq_iff (code_text rate.base) (code_text rate.quote)).1 (sym b ∙ q))

-- The factor of the way back is the inverse.
factor-back :
    (rate : PairRate) (source target : CurrencyCode) (n d : ℕ) (r : ℕ × ℕ)
    → same_code rate.base rate.quote ≡ false
    → factor rate source target ≡ ok (n, d)
    → factor rate target source ≡ ok r
    → r ≡ (d, n)
unfolding factor
factor-back rate source target n d r apart there back =
    elim (Bool-cases (same_code source rate.base && same_code target rate.quote)) [
      | inl forth ↦
          let other : same_code target rate.base ≡ false =
            ground (arith, not_both rate target apart) in
          ground arith
      | inr not_forth ↦ ground arith
    ]

-- At the rate of two different currencies, converting an amount and then converting what it
-- credited back credits at most that amount, whatever the two spreads are.
pub convert_back-le :
    (rate : PairRate) (source target : CurrencyCode) (amount spread spread' : ℕ)
    (there back : Conversion) (n d : ℕ)
    → same_code rate.base rate.quote ≡ false
    → factor rate source target ≡ ok (n, d)
    → convert_from_source rate source target (pos amount) (pos spread) ≡ ok there
    → convert_from_source rate target source (pos there.target_amount) (pos spread') ≡ ok back
    → back.target_amount ≤ amount
convert_back-le rate source target amount spread spread' there back n d apart f h k =
    let (_, _, n', d', _, _, _, _, f', nonzero, _) =
      convert_from_source-eq-ok rate target source (pos there.target_amount) (pos spread') back k in
    let turned : (n', d') ≡ (d, n) = factor-back rate source target n d (n', d') apart f f' in
    let (paid, given, _, _, _, _) =
      convert_from_source-rounds_down rate source target (pos amount) spread n d there h f in
    let (paid', given', _, _, _, _) =
      convert_from_source-rounds_down rate target source (pos there.target_amount) spread' d n back
        k (f' ∙ ap (λ r. ok r) turned) in
    let first = after_spread (there.source_amount * n) spread there.target_amount d given in
    let second = after_spread (back.source_amount * d) spread' back.target_amount n given' in
    let same : amount ≡ there.source_amount = ground arith in
    let same' : there.target_amount ≡ back.source_amount = ground arith in
    let whole : back.target_amount * n ≤ amount * n = rw same (chained same' first second) in
    le_of_mul-le-mul_right {m = back.target_amount} {n = amount} {k = n} whole
      (subst (λ r. 0 < r.1) turned nonzero)
  where
    chained : {t s' u v : ℕ} → t ≡ s' → t * d ≤ u → v ≤ s' * d → v ≤ u
    chained {t} {s'} {u} {v} e a b = grind (arith, subst (λ x. v ≤ x * d) (sym e) b)
