-- ===== src/Ledger/PostWithin.antt =====
-- ledger.service.ts: `postWithin`, with the replay of a reference that is already posted, the
-- entries of a reversal, and the two integrity queries.
use finstack.Base.{
  ℕ, Bool, true, false, ◌&&◌, not, Option, none, some, List, [], ◌∷◌, map, if◌then◌else◌,
}
use finstack.Base.Int.{ℤ, pos, ◌+ℤ◌, eqb_ℤ}
use finstack.Base.Lists.{filter_by, is_empty}
use finstack.Base.Text.{Text, text_eq}
use finstack.Base.Result.{Result, ok, err, Error, no_entries}
use finstack.Base.Action.{Action, ◌>>=◌, ◌>>◌, pure, gets, lift}
use finstack.Ledger.Types.{
  LedgerAccount, LedgerTransaction, LedgerEntry, EntryDirection, debit, credit, opposite, signed,
  same_direction,
}
use finstack.Ledger.Posting.{
  PostingEntry, PostingInput, Uuids, validate_posting, entries_fingerprint,
}
use finstack.Ledger.Store.{Ledger, has_id, entries_of, insert_transaction}
use finstack.Ledger.Service.{
  PostedTransaction, find_reference, lock_accounts, assert_currency, assert_sufficient_funds,
  assert_not_reversed, transaction_row, save_entries,
}

-- `if (input.reversalOfId) await this.assertNotReversed(…)`
abbrev pub assert_reversible : Option ℕ → Action Ledger (Unit {0})
assert_reversible none = pure tt
assert_reversible (some id) = assert_not_reversed id

abbrev pub posting_entry : LedgerEntry → PostingEntry
posting_entry e = record {
  account_id = e.ledger_account_id;
  direction = e.direction;
  amount = e.amount;
}

abbrev pub save_transaction : ℤ → PostingInput → Action Ledger LedgerTransaction
save_transaction amount input = do
  row ← gets (transaction_row amount input)
  insert_transaction row
  pure row

-- The part of `postWithin` after the reference is known to be new.
unfoldable pub post_new : ℤ → PostingInput → Action Ledger PostedTransaction
unfolding assert_not_reversed lock_accounts assert_currency assert_sufficient_funds
    insert_transaction save_entries
post_new amount input = do
  assert_reversible input.reversal_of_id
  accounts ← lock_accounts (map (λ e. e.account_id) input.entries)
  lift (assert_currency accounts input.currency)
  lift (assert_sufficient_funds accounts input.entries)
  row ← save_transaction amount input
  rows ← save_entries row.id input.currency input.entries
  pure (record { transaction = row; entries = rows; replayed = false })

module _ ⦃u : Uuids⦄ where
  abbrev pub same_posting : LedgerTransaction → List LedgerEntry → PostingInput → Bool
  same_posting t entries input =
      text_eq t.currency input.currency
      && text_eq t.description input.description
      && text_eq (entries_fingerprint (map posting_entry entries))
          (entries_fingerprint input.entries)

  -- `replay` on the transaction that has the reference.
  unfoldable pub replay_of : LedgerTransaction → PostingInput → Ledger → Result PostedTransaction
  unfolding text_eq entries_fingerprint
  replay_of t input l =
      let entries = entries_of t.id l.entries in
      if not (same_posting t entries input)
      then err Error.ledger_reference_conflict
      else if is_empty entries
      then err (Error.invalid_posting no_entries)
      else ok (record { transaction = t; entries = entries; replayed = true })

  unfoldable pub replay : PostingInput → Action Ledger PostedTransaction
  unfolding replay_of
  replay input l = elim (find_reference input.reference l.transactions) [
    | none ↦ (err Error.entity_not_found, l)
    | some t ↦ (replay_of t input l, l)
  ]

  unfoldable pub post_within : PostingInput → Action Ledger PostedTransaction
  unfolding validate_posting replay post_new text_eq
  post_within input = do
    amount ← lift (validate_posting input)
    existing ← gets (λ l. find_reference input.reference l.transactions)
    elim existing [ some t ↦ replay input | none ↦ post_new amount input ]

-- The mirror image that `reverse` posts.
abbrev pub mirrored : LedgerEntry → PostingEntry
mirrored e = record {
  account_id = e.ledger_account_id;
  direction = opposite e.direction;
  amount = e.amount;
}

unfoldable pub reversal_input : Text → Text → LedgerTransaction → Ledger → PostingInput
reversal_input reference description original l = record {
  reference = reference;
  description = description;
  currency = original.currency;
  entries = map mirrored (entries_of original.id l.entries);
  reversal_of_id = some original.id;
}

-- `trialBalance`: the balances of one currency on one normal side.
unfoldable pub side_balance : EntryDirection → Text → List LedgerAccount → ℤ
unfolding text_eq
side_balance side currency [] = pos 0
side_balance side currency (a ∷ accounts) =
    if text_eq a.currency currency && same_direction a.normal_balance side
    then a.balance +ℤ side_balance side currency accounts
    else side_balance side currency accounts

unfoldable pub trial_balance : Text → Ledger → ℤ × ℤ
unfolding side_balance
trial_balance currency l =
    (side_balance debit currency l.accounts, side_balance credit currency l.accounts)

-- SUM(CASE WHEN e.direction = a.normal_balance THEN e.amount ELSE -e.amount END), 0 of no rows.
unfoldable pub computed_balance : LedgerAccount → List LedgerEntry → ℤ
computed_balance a [] = pos 0
computed_balance a (e ∷ es) =
    if has_id e.ledger_account_id a
    then signed a.normal_balance e.direction e.amount +ℤ computed_balance a es
    else computed_balance a es

unfoldable pub find_balance_discrepancies : Ledger → List (ℕ × ℤ × ℤ)
unfolding computed_balance
find_balance_discrepancies l =
    map (λ a. (a.id, a.balance, computed_balance a l.entries))
      (filter_by (λ a. not (eqb_ℤ a.balance (computed_balance a l.entries))) l.accounts)
