-- ===== src/Refunds/Reversal.antt =====
-- refunds/refund-math.ts: `reverseConversion`. The three amounts of the payment are positive
-- columns; what the caller passes is checked by the guard.
use finstack.Base.{ℕ, suc, ◌*◌, ◌/◌, ◌||◌, if◌then◌else◌}
use finstack.Base.Int.{ℤ, pos, negsuc, ◌+ℤ◌, ◌-ℤ◌, leb_ℤ, ltb_ℤ, pos_part}
use finstack.Base.Division.{ceil_div}
use finstack.Base.Result.{Result, ok, err, Error}

pub record OriginalConversion : Type 0 where
  pub charged : ℕ
  pub credited : ℕ
  pub gross : ℕ

pub record ConversionReversal : Type 0 where
  pub wallet_debit : ℤ
  pub revenue_reversal : ℤ
  pub gross_reversal : ℤ

-- The product and the quotient of bigints by a number: the quotient is rounded toward 0.
abbrev pub times : ℤ → ℕ → ℤ
times (pos a) n = pos (a * n)
times (negsuc a) n = pos 0 -ℤ pos (suc a * n)

abbrev pub divided : ℤ → ℕ → ℤ
divided (pos a) n = pos (a / n)
divided (negsuc a) n = pos 0 -ℤ pos (suc a / n)

-- The figures of a refund from `before` to `after`, once the guard has passed.
unfoldable pub reversal_between : OriginalConversion → ℕ → ℕ → ConversionReversal
unfolding ceil_div
reversal_between original before after =
    let spread = pos original.gross -ℤ pos original.credited in
    let wallet_debit =
      pos (ceil_div (original.credited * after) original.charged)
      -ℤ pos (ceil_div (original.credited * before) original.charged) in
    let revenue_reversal =
      divided (times spread after) original.charged
      -ℤ divided (times spread before) original.charged in
    record {
      wallet_debit = wallet_debit;
      revenue_reversal = revenue_reversal;
      gross_reversal = wallet_debit +ℤ revenue_reversal;
    }

unfoldable pub reverse_conversion : OriginalConversion → ℤ → ℤ → Result ConversionReversal
unfolding reversal_between
reverse_conversion original refunded_before amount =
    if leb_ℤ amount (pos 0)
      || ltb_ℤ refunded_before (pos 0)
      || ltb_ℤ (pos original.charged) (refunded_before +ℤ amount)
    then err Error.range_error
    else ok (
        reversal_between original (pos_part refunded_before) (pos_part (refunded_before +ℤ amount)))
