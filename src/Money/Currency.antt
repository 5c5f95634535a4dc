-- ===== src/Money/Currency.antt =====
-- common/money/currency.ts: the supported currencies and their minor-unit exponents.
use finstack.Base.{ℕ, Bool, Option, none, some, if◌then◌else◌}
use finstack.Base.Text.{Text, codes, text_eq}
use finstack.Base.Lists.{is_some}

pub data CurrencyCode : Type 0 where
  ngn usd eur gbp ghs kes zar jpy : CurrencyCode

abbrev pub code_text : CurrencyCode → Text
code_text ngn = codes "NGN"
code_text usd = codes "USD"
code_text eur = codes "EUR"
code_text gbp = codes "GBP"
code_text ghs = codes "GHS"
code_text kes = codes "KES"
code_text zar = codes "ZAR"
code_text jpy = codes "JPY"

unfoldable pub minor_units : CurrencyCode → ℕ
minor_units ngn = 2
minor_units usd = 2
minor_units eur = 2
minor_units gbp = 2
minor_units ghs = 2
minor_units kes = 2
minor_units zar = 2
minor_units jpy = 0

-- `toCurrencyCode`, with `none` for its Error.
unfoldable pub to_currency_code : Text → Option CurrencyCode
unfolding text_eq
to_currency_code value =
    if text_eq value (codes "NGN")
    then some ngn
    else if text_eq value (codes "USD")
    then some usd
    else if text_eq value (codes "EUR")
    then some eur
    else if text_eq value (codes "GBP")
    then some gbp
    else if text_eq value (codes "GHS")
    then some ghs
    else if text_eq value (codes "KES")
    then some kes
    else if text_eq value (codes "ZAR")
    then some zar
    else if text_eq value (codes "JPY")
    then some jpy
    else none

unfoldable pub is_supported_currency : Text → Bool
unfolding to_currency_code
is_supported_currency value = is_some (to_currency_code value)
