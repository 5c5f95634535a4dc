-- ===== src/Ledger/Store.antt =====
-- The ledger tables and what the database does on each statement: the triggers of
-- database/migrations/1790267201855-AddLedgerIntegrityTriggers.ts, the CHECK constraints and the
-- unique indexes of the entities. A table is the list of its rows, oldest first.
--
-- `gen_random_uuid()` gives an id that no row has: the next number. `clock` is `now()`.
use finstack.Base.{
  ℕ, suc, Bool, false, ◌&&◌, ◌||◌, not, Option, none, some, List, [], ◌∷◌, ◌++◌, map, ◌==◌, ltb,
  if◌then◌else◌,
}
use finstack.Base.Int.{ℤ, pos, ◌+ℤ◌, leb_ℤ, eqb_ℤ}
use finstack.Base.Lists.{length, drop, find_by, filter_by, any_by, all_by}
use finstack.Base.Text.{Text, text_eq}
use finstack.Base.Result.{Result, ok, err, Error}
use finstack.Base.Action.{Action}
use finstack.Ledger.Types.{
  LedgerAccount, LedgerTransaction, LedgerEntry, EntryDirection, debit, credit, same_direction,
  signed,
}

pub record Ledger : Type 0 where
  pub accounts : List LedgerAccount
  pub transactions : List LedgerTransaction
  pub entries : List LedgerEntry
  pub next_id : ℕ
  pub clock : ℕ

abbrev pub has_id : ℕ → LedgerAccount → Bool
has_id id a = a.id == id

abbrev pub find_account : ℕ → List LedgerAccount → Option LedgerAccount
find_account id = find_by (has_id id)

abbrev pub find_transaction : ℕ → List LedgerTransaction → Option LedgerTransaction
find_transaction id = find_by (λ t. t.id == id)

-- chk_ledger_accounts_non_negative
abbrev pub non_negative : LedgerAccount → Bool
non_negative a = a.allow_negative_balance || leb_ℤ (pos 0) a.balance

-- `ledger_entries_check_currency`: the entry's currency is its account's and its transaction's. A
-- missing row reads as NULL, which is distinct from every currency.
unfoldable pub account_has_currency : Text → ℕ → List LedgerAccount → Bool
account_has_currency currency id accounts = elim (find_account id accounts) [
  | none ↦ false
  | some a ↦ text_eq currency a.currency
]

unfoldable pub transaction_has_currency : Text → ℕ → List LedgerTransaction → Bool
transaction_has_currency currency id transactions = elim (find_transaction id transactions) [
  | none ↦ false
  | some t ↦ text_eq currency t.currency
]

abbrev pub entry_currency_ok : Ledger → LedgerEntry → Bool
entry_currency_ok l e =
    account_has_currency e.currency e.ledger_account_id l.accounts
    && transaction_has_currency e.currency e.ledger_transaction_id l.transactions

-- `ledger_entries_apply_balance`, on one row of the accounts.
abbrev pub apply_balance : LedgerEntry → LedgerAccount → LedgerAccount
apply_balance e a =
    if has_id e.ledger_account_id a
    then record a { balance = a.balance +ℤ signed a.normal_balance e.direction e.amount }
    else a

-- The update of the trigger leaves no updated row that breaks the CHECK constraint.
abbrev pub applies_within_check : LedgerEntry → LedgerAccount → Bool
applies_within_check e a = not (has_id e.ledger_account_id a) || non_negative (apply_balance e a)

-- INSERT INTO ledger_entries, with its triggers and constraints in the order they fire.
unfoldable pub insert_entry : LedgerEntry → Action Ledger (Unit {0})
unfolding account_has_currency transaction_has_currency
insert_entry e l =
    if not (entry_currency_ok l e)
    then (err Error.entry_currency_check, l)
    else if leb_ℤ e.amount (pos 0)
    then (err Error.amount_positive_check, l)
    else if not (all_by (applies_within_check e) l.accounts)
    then (err Error.non_negative_check, l)
    else (
      ok tt,
      record l {
        accounts = map (apply_balance e) l.accounts;
        entries = l.entries ++ e ∷ [];
        next_id = suc l.next_id;
      },
    )

abbrev pub reverses : ℕ → LedgerTransaction → Bool
reverses id t = elim t.reversal_of_id [ none ↦ false | some original ↦ original == id ]

-- uq_ledger_transactions_reversal_of_id, a partial index: NULLs never clash.
abbrev pub reversal_taken : Option ℕ → List LedgerTransaction → Bool
reversal_taken none ts = false
reversal_taken (some id) ts = any_by (reverses id) ts

-- INSERT INTO ledger_transactions, with its CHECK and unique constraints.
unfoldable pub insert_transaction : LedgerTransaction → Action Ledger (Unit {0})
unfolding text_eq
insert_transaction t l =
    if leb_ℤ t.amount (pos 0)
    then (err Error.amount_positive_check, l)
    else if any_by (λ s. text_eq s.reference t.reference) l.transactions
    then (err Error.unique_reference, l)
    else if reversal_taken t.reversal_of_id l.transactions
    then (err Error.unique_reversal, l)
    else (ok tt, record l { transactions = l.transactions ++ t ∷ []; next_id = suc l.next_id })

-- uq_ledger_accounts_code; NULLs never clash.
abbrev pub has_code : Text → LedgerAccount → Bool
has_code code a = elim a.code [ none ↦ false | some c ↦ text_eq c code ]

abbrev pub code_taken : Option Text → List LedgerAccount → Bool
code_taken none accounts = false
code_taken (some code) accounts = any_by (has_code code) accounts

-- INSERT INTO ledger_accounts: the guard refuses a balance other than zero.
unfoldable pub insert_account : LedgerAccount → Action Ledger (Unit {0})
insert_account a l =
    if not (eqb_ℤ a.balance (pos 0))
    then (err Error.account_guard, l)
    else if not (non_negative a)
    then (err Error.non_negative_check, l)
    else if code_taken a.code l.accounts
    then (err Error.unique_code, l)
    else (ok tt, record l { accounts = l.accounts ++ a ∷ []; next_id = suc l.next_id })

abbrev pub side_total : EntryDirection → List LedgerEntry → ℤ
side_total side [] = pos 0
side_total side (e ∷ es) =
    if same_direction e.direction side then e.amount +ℤ side_total side es else side_total side es

abbrev pub entries_of : ℕ → List LedgerEntry → List LedgerEntry
entries_of id = filter_by (λ e. e.ledger_transaction_id == id)

-- `ledger_check_transaction_balanced`, the deferred trigger, on a transaction's own entries.
unfoldable pub sides_match : LedgerTransaction → List LedgerEntry → Bool
sides_match t own =
    not (ltb (length own) 2)
    && eqb_ℤ (side_total debit own) (side_total credit own)
    && eqb_ℤ (side_total debit own) t.amount

unfoldable pub is_balanced : LedgerTransaction → List LedgerEntry → Bool
unfolding sides_match
is_balanced t entries = sides_match t (entries_of t.id entries)

-- The trigger on an entry looks its transaction up.
abbrev pub balanced_under : Ledger → ℕ → Bool
balanced_under l id = elim (find_transaction id l.transactions) [
  | none ↦ false
  | some t ↦ is_balanced t l.entries
]

abbrev pub entry_balanced : Ledger → LedgerEntry → Bool
entry_balanced l e = balanced_under l e.ledger_transaction_id

-- COMMIT: the deferred trigger runs for each row inserted since `before`, for an entry on the
-- transaction that it names.
unfoldable pub commit_ok : Ledger → Ledger → Bool
unfolding is_balanced
commit_ok before l =
    all_by (λ t. is_balanced t l.entries) (drop (length before.transactions) l.transactions)
    && all_by (entry_balanced l) (drop (length before.entries) l.entries)

-- A failed transaction, or one that the deferred trigger refuses, is rolled back.
unfoldable pub finish : {A : Type 0} → Ledger → Result A × Ledger → Result A × Ledger
unfolding commit_ok
finish before (err e, l) = (err e, before)
finish before (ok a, l) =
    if commit_ok before l then (ok a, l) else (err Error.unbalanced_commit, before)

-- The tables of a new database.
abbrev pub no_rows : Ledger
no_rows = record { accounts = []; transactions = []; entries = []; next_id = 0; clock = 0 }
