-- ===== src/Refunds/AddsUp.antt =====
-- refunds/refund-math.ts: the sums of partial refunds.
use finstack.Base.{
  ℕ, ◌+◌, ◌-◌, ◌*◌, ◌<◌, ◌≤◌, ◌≡◌, sym, ap, ◌∙◌, inl, inr, false, List, [], ◌∷◌, arith, Bool-cases,
  ◌||◌,
}
use mathlib.Core.Path.{subst}
use finstack.Base.Int.{ℤ, pos, ◌+ℤ◌, ◌-ℤ◌, leb_ℤ, ltb_ℤ, pos_part, int_laws, +ℤ_zero}
use finstack.Base.Division.{ceil_div}
use finstack.Base.Result.{Result, ok, ◌>>=◌, >>=-eq-ok}
use finstack.Refunds.Reversal.{
  OriginalConversion, ConversionReversal, times, divided, reversal_between, reverse_conversion,
}

-- The refunds of one payment, one after another, and what they reverse.
unfoldable pub reverse_all : OriginalConversion → ℕ → List ℕ → Result (List ConversionReversal)
unfolding reverse_conversion
reverse_all original before [] = ok []
reverse_all original before (amount ∷ amounts) = do
  first ← reverse_conversion original (pos before) (pos amount)
  rest ← reverse_all original (before + amount) amounts
  ok (first ∷ rest)

abbrev pub total : List ℕ → ℕ
total [] = 0
total (x ∷ xs) = x + total xs

abbrev pub wallet_debits : List ConversionReversal → ℤ
wallet_debits [] = pos 0
wallet_debits (r ∷ rs) = r.wallet_debit +ℤ wallet_debits rs

abbrev pub revenue_reversals : List ConversionReversal → ℤ
revenue_reversals [] = pos 0
revenue_reversals (r ∷ rs) = r.revenue_reversal +ℤ revenue_reversals rs

abbrev pub gross_reversals : List ConversionReversal → ℤ
gross_reversals [] = pos 0
gross_reversals (r ∷ rs) = r.gross_reversal +ℤ gross_reversals rs

pub spread_is :
    (original : OriginalConversion)
    → original.credited ≤ original.gross
    → pos original.gross -ℤ pos original.credited ≡ pos (original.gross - original.credited)
spread_is original h = omega int_laws

bounded : (b a c : ℕ) → ltb_ℤ (pos c) (pos (b + a)) ≡ false → b + a ≤ c
bounded b a c h = ground arith

-- A refund that is not refused lies within the payment.
pub reverse_conversion-eq-ok :
    (original : OriginalConversion) (before amount : ℕ) (r : ConversionReversal)
    → reverse_conversion original (pos before) (pos amount) ≡ ok r
    → (0 < amount)
      × (before + amount ≤ original.charged)
      × (reversal_between original before (before + amount) ≡ r)
unfolding reverse_conversion
reverse_conversion-eq-ok original before amount r h =
    elim (Bool-cases (
      leb_ℤ (pos amount) (pos 0)
      || ltb_ℤ (pos before) (pos 0)
      || ltb_ℤ (pos original.charged) (pos before +ℤ pos amount))) [
        | inl refused ↦ absurd (ground arith)
        | inr passed ↦
            let sum : pos before +ℤ pos amount ≡ pos (before + amount) = omega int_laws in
            (
              ground arith,
              bounded before amount original.charged
                  (subst (λ x. ltb_ℤ (pos original.charged) x ≡ false) sum (ground arith)),
              subst (λ x. reversal_between original before (pos_part x) ≡ r) sum (ground arith),
            )
      ]

abbrev pub debited : OriginalConversion → ℕ → ℤ
debited original after = pos (ceil_div (original.credited * after) original.charged)

abbrev pub revenue_back : OriginalConversion → ℕ → ℤ
revenue_back original after =
    divided (times (pos original.gross -ℤ pos original.credited) after) original.charged

joined : (x y z s : ℤ) → y +ℤ s ≡ z → x +ℤ (y -ℤ x +ℤ s) ≡ z
joined x y z s h = grind int_laws

paired : (a b g d r : ℤ) → g ≡ d +ℤ r → a +ℤ b +ℤ g ≡ a +ℤ d +ℤ (b +ℤ r)
paired a b g d r h = grind int_laws

-- The reversals of refunds that start at `before` add up to the cumulative figures.
pub record AddsUp (original : OriginalConversion) (before : ℕ) (amounts : List ℕ)
    (rs : List ConversionReversal) : Type 0 where
  pub debits :
      debited original before +ℤ wallet_debits rs ≡ debited original (before + total amounts)
  pub revenues :
      revenue_back original before +ℤ revenue_reversals rs
      ≡ revenue_back original (before + total amounts)
  pub both : gross_reversals rs ≡ wallet_debits rs +ℤ revenue_reversals rs

AddsUp-nil : (original : OriginalConversion) (before : ℕ) → AddsUp original before [] []
AddsUp-nil original before = record {
  debits = +ℤ_zero (debited original before) ∙ ap (debited original) here;
  revenues = +ℤ_zero (revenue_back original before) ∙ ap (revenue_back original) here;
  both = sym (+ℤ_zero (pos 0));
}
  where
    here : before ≡ before + 0
    here = omega arith

AddsUp-cons :
    (original : OriginalConversion) (before amount : ℕ) (amounts : List ℕ)
    (rs : List ConversionReversal)
    → AddsUp original (before + amount) amounts rs
    → AddsUp original before
        (amount ∷ amounts)
        (reversal_between original before (before + amount) ∷ rs)
unfolding reversal_between
AddsUp-cons original before amount amounts rs h = record {
  debits =
      joined (debited original before) (debited original (before + amount)) _ (wallet_debits rs)
        h.debits
      ∙ ap (debited original) place;
  revenues =
      joined (revenue_back original before) (revenue_back original (before + amount)) _
        (revenue_reversals rs) h.revenues
      ∙ ap (revenue_back original) place;
  both = paired _ _ (gross_reversals rs) (wallet_debits rs) (revenue_reversals rs) h.both;
}
  where
    place : before + amount + total amounts ≡ before + (amount + total amounts)
    place = omega arith

pub reverse_all-AddsUp :
    (original : OriginalConversion) (before : ℕ) (amounts : List ℕ) (rs : List ConversionReversal)
    → reverse_all original before amounts ≡ ok rs
    → AddsUp original before amounts rs
unfolding reverse_all
reverse_all-AddsUp original before [] rs h =
    let all : [] ≡ rs = ground arith in
    subst (AddsUp original before []) all (AddsUp-nil original before)
reverse_all-AddsUp original before (amount ∷ amounts) rs h =
    let (first, h1, h2) = >>=-eq-ok (reverse_conversion original (pos before) (pos amount)) _ h in
    let (rest, h3, h4) = >>=-eq-ok (reverse_all original (before + amount) amounts) _ h2 in
    let (_, _, is) = reverse_conversion-eq-ok original before amount first h1 in
    let later = reverse_all-AddsUp original (before + amount) amounts rest h3 in
    let all : reversal_between original before (before + amount) ∷ rest ≡ rs =
      rw is (ground arith) in
    subst (AddsUp original before (amount ∷ amounts)) all
      (AddsUp-cons original before amount amounts rest later)
