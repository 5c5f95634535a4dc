-- ===== src/Ledger/Posting.antt =====
-- posting.ts: the double-entry rules that a posting meets before the database is touched, and the
-- fingerprint by which a replayed posting is compared with the first one.
use finstack.Base.{ℕ, ◌≡◌, ◌||◌, not, Option, List, [], ◌∷◌, ◌++◌, map, ltb, if◌then◌else◌}
use finstack.Base.Decimal.{show_ℤ}
use finstack.Base.Sort.{sort_texts}
use finstack.Base.Int.{ℤ, pos, ◌+ℤ◌, leb_ℤ, eqb_ℤ}
use finstack.Base.Lists.{length, is_empty}
use finstack.Base.Text.{Text, codes, trim, join}
use finstack.Base.Result.{
  Result, ok, err, Error, ◌>>=◌, ◌>>◌, throw_if, bad_reference, unsupported_currency,
  too_few_entries, non_positive_amount, one_sided, unbalanced,
}
use finstack.Money.Currency.{is_supported_currency}
use finstack.Ledger.Types.{EntryDirection, debit, credit}

pub record PostingEntry : Type 0 where
  pub account_id : ℕ
  pub direction : EntryDirection
  pub amount : ℤ

pub record PostingInput : Type 0 where
  pub reference : Text
  pub description : Text
  pub currency : Text
  pub entries : List PostingEntry
  pub reversal_of_id : Option ℕ

-- The loop over the entries: the debits and the credits so far.
unfoldable pub sum_sides : List PostingEntry → ℤ → ℤ → Result (ℤ × ℤ)
sum_sides [] debits credits = ok (debits, credits)
sum_sides (entry ∷ entries) debits credits =
    if leb_ℤ entry.amount (pos 0)
    then err (Error.invalid_posting non_positive_amount)
    else elim entry.direction [
      | debit ↦ sum_sides entries (debits +ℤ entry.amount) credits
      | credit ↦ sum_sides entries debits (credits +ℤ entry.amount)
    ]

-- The checks after the loop, on the two sides.
unfoldable pub check_sides : ℤ × ℤ → Result ℤ
check_sides (debits, credits) = do
  throw_if (eqb_ℤ debits (pos 0) || eqb_ℤ credits (pos 0)) (Error.invalid_posting one_sided)
  throw_if (not (eqb_ℤ debits credits)) (Error.invalid_posting unbalanced)
  ok debits

-- The transaction amount: the debits, which equal the credits.
unfoldable pub validate_posting : PostingInput → Result ℤ
unfolding sum_sides check_sides trim is_supported_currency
validate_posting input = do
  throw_if (is_empty (trim input.reference) || ltb 255 (length input.reference))
      (Error.invalid_posting bad_reference)
  throw_if (not (is_supported_currency input.currency)) (Error.invalid_posting unsupported_currency)
  throw_if (ltb (length input.entries) 2) (Error.invalid_posting too_few_entries)
  sides ← sum_sides input.entries (pos 0) (pos 0)
  check_sides sides

-- The canonical text of a uuid, which the database writes. It holds no separator of the
-- fingerprint, and two ids never share one.
pub record Uuids : Type 0 where
  pub id_text : ℕ → Text
  pub id_text_injective : (m n : ℕ) → id_text m ≡ id_text n → m ≡ n

abbrev pub direction_text : EntryDirection → Text
direction_text debit = codes "debit"
direction_text credit = codes "credit"

module _ ⦃u : Uuids⦄ where
  -- `${accountId}:${direction}:${amount}`
  unfoldable pub entry_text : PostingEntry → Text
  entry_text e =
      u.id_text e.account_id
      ++ (codes ":" ++ (direction_text e.direction ++ (codes ":" ++ show_ℤ e.amount)))

  unfoldable pub entries_fingerprint : List PostingEntry → Text
  unfolding entry_text
  entries_fingerprint entries = join (codes "|") (sort_texts (map entry_text entries))
