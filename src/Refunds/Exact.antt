-- ===== src/Refunds/Exact.antt =====
-- refunds/refund-math.ts: partial refunds do not drift.
use finstack.Base.{ℕ, ◌+◌, ◌-◌, ◌*◌, ◌/◌, ◌<◌, ◌≤◌, ◌≡◌, sym, ap, ◌∙◌, List, arith}
use mathlib.Core.Path.{subst}
use native.Mathlib.Nat.{mul-le-mul_left}
use finstack.Base.Int.{ℤ, -ℤ_parts, pos, ◌+ℤ◌, ◌-ℤ◌, ◌≤ℤ◌, int_laws}
use finstack.Base.Division.{ceil_div, ceil_div_mono, ceil_div_exact, div_mono, div_exact}
use finstack.Base.Result.{ok}
use finstack.Refunds.Reversal.{
  OriginalConversion, ConversionReversal, times, divided, reversal_between, reverse_conversion,
}
use finstack.Refunds.AddsUp.{
  reverse_all, total, wallet_debits, revenue_reversals, gross_reversals, debited, revenue_back,
  spread_is, reverse_conversion-eq-ok, reverse_all-AddsUp,
}

debited_none : (original : OriginalConversion) → 0 < original.charged → debited original 0 ≡ pos 0
debited_none original h =
    ap pos
      (ap (λ x. ceil_div x original.charged) (omega arith) ∙ ceil_div_exact original.charged h 0)

debited_all :
    (original : OriginalConversion)
    → 0 < original.charged
    → debited original original.charged ≡ pos original.credited
debited_all original h = ap pos (ceil_div_exact original.charged h original.credited)

revenue_none :
    (original : OriginalConversion)
    → 0 < original.charged
    → original.credited ≤ original.gross
    → revenue_back original 0 ≡ pos 0
revenue_none original h ordered =
    ap (λ s. divided (times s 0) original.charged) (spread_is original ordered)
    ∙ ap pos (ap (λ x. x / original.charged) (omega arith) ∙ div_exact original.charged h 0)

revenue_all :
    (original : OriginalConversion)
    → 0 < original.charged
    → original.credited ≤ original.gross
    → revenue_back original original.charged ≡ pos (original.gross - original.credited)
revenue_all original h ordered =
    ap (λ s. divided (times s original.charged) original.charged) (spread_is original ordered)
    ∙ ap pos (div_exact original.charged h (original.gross - original.credited))

from_zero : (x s y : ℤ) → x ≡ pos 0 → x +ℤ s ≡ y → s ≡ y
from_zero x s y h k = grind int_laws

sum_of : (c g : ℕ) (d r t : ℤ) → c ≤ g → d ≡ pos c → r ≡ pos (g - c) → t ≡ d +ℤ r → t ≡ pos g
sum_of c g d r t ordered hd hr h = grind int_laws

-- Refunds that follow each other from the first on and add up to the whole amount that was charged,
-- none of them refused, take from the wallet exactly what was credited, give back exactly the
-- revenue of the spread, and together unwind exactly the gross amount.
pub reverse_all-exact :
    (original : OriginalConversion) (amounts : List ℕ) (rs : List ConversionReversal)
    → 0 < original.charged
    → original.credited ≤ original.gross
    → reverse_all original 0 amounts ≡ ok rs
    → total amounts ≡ original.charged
    → (wallet_debits rs ≡ pos original.credited)
      × (revenue_reversals rs ≡ pos (original.gross - original.credited))
      × (gross_reversals rs ≡ pos original.gross)
reverse_all-exact original amounts rs positive ordered h whole =
    let sums = reverse_all-AddsUp original 0 amounts rs h in
    let end : 0 + total amounts ≡ original.charged = omega arith in
    let debits =
      from_zero _ (wallet_debits rs) _ (debited_none original positive)
        (sums.debits ∙ ap (debited original) end ∙ debited_all original positive) in
    let revenues =
      from_zero _ (revenue_reversals rs) _ (revenue_none original positive ordered)
        (sums.revenues ∙ ap (revenue_back original) end ∙ revenue_all original positive ordered) in
    (
      debits,
      revenues,
      sum_of original.credited original.gross (wallet_debits rs) (revenue_reversals rs)
          (gross_reversals rs) ordered debits revenues sums.both,
    )

grows : (a b : ℕ) → a ≤ b → pos 0 ≤ℤ (pos b -ℤ pos a)
grows a b h = omega (arith, -ℤ_parts (pos b) (pos a))

between :
    (original : OriginalConversion) (before after : ℕ)
    → original.credited ≤ original.gross
    → ceil_div (original.credited * before) original.charged
      ≤ ceil_div (original.credited * after) original.charged
    → (original.gross - original.credited) * before / original.charged
      ≤ (original.gross - original.credited) * after / original.charged
    → (pos 0 ≤ℤ (reversal_between original before after).wallet_debit)
      × (pos 0 ≤ℤ (reversal_between original before after).revenue_reversal)
unfolding reversal_between
between original before after ordered debits revenues = (
  grows _ _ debits,
  subst
      (λ s.
        pos 0
        ≤ℤ (divided (times s after) original.charged -ℤ divided (times s before) original.charged))
      (sym (spread_is original ordered)) (grows _ _ revenues),
)

-- Where the original conversion credited no more than its gross amount (a CHECK of fx_quotes): a
-- refund that is not refused takes something from the wallet or nothing, and never gives anything to
-- it; what it gives back of the revenue is not negative either.
pub reverse_conversion-nonnegative :
    (original : OriginalConversion) (before amount : ℕ) (r : ConversionReversal)
    → original.credited ≤ original.gross
    → reverse_conversion original (pos before) (pos amount) ≡ ok r
    → (pos 0 ≤ℤ r.wallet_debit) × (pos 0 ≤ℤ r.revenue_reversal)
reverse_conversion-nonnegative original before amount r ordered h =
    let (some_amount, within, is) = reverse_conversion-eq-ok original before amount r h in
    let positive : 0 < original.charged = omega arith in
    let debits =
      ceil_div_mono original.charged positive (original.credited * before)
        (original.credited * (before + amount)) (mul-le-mul_left original.credited (omega arith)) in
    let revenues =
      div_mono original.charged positive ((original.gross - original.credited) * before)
        ((original.gross - original.credited) * (before + amount))
        (mul-le-mul_left (original.gross - original.credited) (omega arith)) in
    subst (λ (x : ConversionReversal). (pos 0 ≤ℤ x.wallet_debit) × (pos 0 ≤ℤ x.revenue_reversal)) is
      (between original before (before + amount) ordered debits revenues)
