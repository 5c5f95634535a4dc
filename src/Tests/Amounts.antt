-- ===== src/Tests/Amounts.antt =====
-- The theorems of the money arithmetic (src/fx, src/refunds, src/fees, src/limits) on amounts.
use finstack.Base.{
  ℕ, ◌+◌, ◌-◌, ◌*◌, ◌/◌, ◌<◌, ◌≤◌, ◌≡◌, refl, false, none, some, List, [], ◌∷◌, arith,
}
use finstack.Base.Int.{pos, ◌+ℤ◌, ◌≤ℤ◌}
use finstack.Base.Division.{ceil_div}
use finstack.Base.Text.{codes, text_eq}
use finstack.Base.Result.{ok}
use finstack.Money.Currency.{usd, ngn}
use finstack.Fx.Convert.{
  PairRate, Conversion, bps, factor, same_code, convert_from_source, convert_to_target,
}
use finstack.Fx.Conversions.{convert_from_source-rounds_down}
use finstack.Fx.Rounding.{conversion}
use finstack.Fx.Least.{convert_to_target-enough, convert_to_target-least, convert_back-le}
use finstack.Refunds.Reversal.{
  OriginalConversion, ConversionReversal, reverse_conversion, reversal_between,
}
use finstack.Refunds.AddsUp.{reverse_all, wallet_debits, revenue_reversals, gross_reversals}
use finstack.Refunds.Exact.{reverse_all-exact, reverse_conversion-nonnegative}
use finstack.Fees.Schedule.{
  FeeSchedule, calculate_fee, calculate_fee_bounds, calculate_fee_mono, at_most, at_least,
}
use finstack.Owners.{user}
use finstack.Base.Lists.{length}
use finstack.Limits.Rules.{LimitRule, day_ms, payout_operation}
use finstack.Limits.Accepted.{Operation, accepted, total_since}
use finstack.Limits.Window.{accepted-within_cap}

-- 1 USD = 1550.25 NGN.
abbrev usd_ngn : PairRate
usd_ngn = record { base = usd; quote = ngn; scaled = 15502500000000 }

abbrev usd_to_ngn : ℕ × ℕ
usd_to_ngn = (1550250000000000, 1000000000000)

usd_to_ngn-factor : factor usd_ngn usd ngn ≡ ok usd_to_ngn
unfolding factor
usd_to_ngn-factor = refl

abbrev ten_dollars : Conversion
ten_dollars = conversion usd_to_ngn.0 usd_to_ngn.1 100 1000

ten_dollars-ok : convert_from_source usd_ngn usd ngn (pos 1000) (pos 100) ≡ ok ten_dollars
unfolding convert_from_source
ten_dollars-ok = refl

-- 9.78 USD, the least that yields 15,000.00 NGN at a spread of 1 %.
abbrev for_naira : Conversion
for_naira = conversion usd_to_ngn.0 usd_to_ngn.1 100 978

for_naira-ok : convert_to_target usd_ngn usd ngn (pos 1500000) (pos 100) ≡ ok for_naira
unfolding convert_to_target
for_naira-ok = refl

abbrev less_dollars : Conversion
less_dollars = conversion usd_to_ngn.0 usd_to_ngn.1 100 977

less_dollars-ok : convert_from_source usd_ngn usd ngn (pos 977) (pos 100) ≡ ok less_dollars
unfolding convert_from_source
less_dollars-ok = refl

abbrev back_to_dollars : Conversion
back_to_dollars = conversion usd_to_ngn.1 usd_to_ngn.0 0 1534747

back_to_dollars-ok :
    convert_from_source usd_ngn ngn usd (pos ten_dollars.target_amount) (pos 0) ≡ ok back_to_dollars
unfolding convert_from_source
back_to_dollars-ok = refl

two_currencies : same_code usd_ngn.base usd_ngn.quote ≡ false
unfolding text_eq
two_currencies = refl

convert_from_source-rounds_down_example :
    (pos 1000 ≡ pos ten_dollars.source_amount)
    × (ten_dollars.target_amount * (usd_to_ngn.1 * bps)
        ≤ ten_dollars.source_amount * usd_to_ngn.0 * (bps - 100))
    × (ten_dollars.source_amount * usd_to_ngn.0 * (bps - 100)
        < (ten_dollars.target_amount + 1) * (usd_to_ngn.1 * bps))
    × (ten_dollars.gross_target_amount ≡ ten_dollars.source_amount * usd_to_ngn.0 / usd_to_ngn.1)
    × (ten_dollars.target_amount ≤ ten_dollars.gross_target_amount)
    × (pos ten_dollars.target_amount +ℤ ten_dollars.spread_amount
        ≡ pos ten_dollars.gross_target_amount)
convert_from_source-rounds_down_example =
    convert_from_source-rounds_down usd_ngn usd ngn (pos 1000) 100 usd_to_ngn.0 usd_to_ngn.1
      ten_dollars ten_dollars-ok usd_to_ngn-factor

convert_to_target-enough_example : 1500000 ≤ for_naira.target_amount
convert_to_target-enough_example =
    convert_to_target-enough usd_ngn usd ngn 1500000 100 for_naira for_naira-ok

convert_to_target-least_example : less_dollars.target_amount < 1500000
convert_to_target-least_example =
    convert_to_target-least usd_ngn usd ngn 1500000 100 977 for_naira less_dollars for_naira-ok
      (omega arith) less_dollars-ok

convert_back-le_example : back_to_dollars.target_amount ≤ 1000
convert_back-le_example =
    convert_back-le usd_ngn usd ngn 1000 100 0 ten_dollars back_to_dollars usd_to_ngn.0 usd_to_ngn.1
      two_currencies usd_to_ngn-factor ten_dollars-ok back_to_dollars-ok

-- 15,500.00 NGN charged, 9.90 USD of 10.00 credited.
abbrev charged_naira : OriginalConversion
charged_naira = record { charged = 1550000; credited = 990; gross = 1000 }

abbrev two_refunds : List ConversionReversal
two_refunds =
    reversal_between charged_naira 0 500000 ∷ reversal_between charged_naira 500000 1550000 ∷ []

two_refunds-ok : reverse_all charged_naira 0 (500000 ∷ 1050000 ∷ []) ≡ ok two_refunds
unfolding reverse_all ◌+ℤ◌
two_refunds-ok = refl

first_refund-ok :
    reverse_conversion charged_naira (pos 0) (pos 500000)
    ≡ ok (reversal_between charged_naira 0 500000)
unfolding reverse_conversion ◌+ℤ◌
first_refund-ok = refl

reverse_all-exact_example :
    (wallet_debits two_refunds ≡ pos 990)
    × (revenue_reversals two_refunds ≡ pos 10)
    × (gross_reversals two_refunds ≡ pos 1000)
reverse_all-exact_example =
    reverse_all-exact charged_naira (500000 ∷ 1050000 ∷ []) two_refunds (omega arith) (omega arith)
      two_refunds-ok refl

reverse_conversion-nonnegative_example :
    (pos 0 ≤ℤ (reversal_between charged_naira 0 500000).wallet_debit)
    × (pos 0 ≤ℤ (reversal_between charged_naira 0 500000).revenue_reversal)
reverse_conversion-nonnegative_example =
    reverse_conversion-nonnegative charged_naira 0 500000 (reversal_between charged_naira 0 500000)
      (omega arith) first_refund-ok

-- 1.5 % and 100, at least 200 and at most 2,000.
abbrev card_fee : FeeSchedule
card_fee = record {
  fixed_amount = 100;
  percentage_bps = 150;
  min_amount = 200;
  max_amount = some 2000;
}

card_fee-ok : calculate_fee (pos 10001) card_fee ≡ ok 251
unfolding calculate_fee
card_fee-ok = refl

large_fee-ok : calculate_fee (pos 1000000) card_fee ≡ ok 2000
unfolding calculate_fee
large_fee-ok = refl

calculate_fee_bounds_example :
    (251 ≤ 2000)
    × (at_most card_fee.max_amount card_fee.min_amount ≤ 251)
    × (at_most card_fee.max_amount (card_fee.fixed_amount + ceil_div (10001 * 150) 10000) ≤ 251)
    × (251 ≤ at_least card_fee.min_amount (card_fee.fixed_amount + ceil_div (10001 * 150) 10000))
calculate_fee_bounds_example = calculate_fee_bounds 10001 card_fee 251 card_fee-ok

calculate_fee_mono_example : 251 ≤ 2000
calculate_fee_mono_example =
    calculate_fee_mono 10001 1000000 card_fee 251 2000 (omega arith) card_fee-ok large_fee-ok

-- Payouts of 1,000 a day at most.
abbrev payout_limit : LimitRule
payout_limit = record {
  id = 1;
  operation = payout_operation;
  currency = codes "NGN";
  organization_id = none;
  max_per_transaction = some 800;
  max_daily_amount = some 1000;
  max_daily_count = some 5;
  max_monthly_amount = none;
  superseded_at = none;
}

abbrev payouts : List Operation
payouts =
    record { amount = 700; time = 5 }
    ∷ record { amount = 400; time = 9 }
    ∷ record { amount = 300; time = 12 }
    ∷ []

-- The second is refused, the third is not.
accepted-payouts : length (accepted payout_limit (user 1) payouts []) ≡ 2
unfolding accepted
accepted-payouts = refl

accepted-within_cap_example :
    total_since (12 - day_ms) (accepted payout_limit (user 1) payouts []) ≤ 1000
accepted-within_cap_example =
    accepted-within_cap payout_limit (user 1) payouts [] 0 1000 refl
      (omega arith, (omega arith, (omega arith, tt)))
