-- ===== src/Ledger/Statements.antt =====
-- Statements on the ledger tables, whether this program runs them or a script that goes round it:
-- every INSERT, the UPDATE of an account but for its id and code, and the UPDATE or DELETE of a
-- transaction or an entry, with the triggers that answer them. DELETE and TRUNCATE of accounts are
-- left out
-- (database/migrations/1790267201855-AddLedgerIntegrityTriggers.ts).
use finstack.Base.{ℕ, Bool, ◌&&◌, ◌||◌, not, List, [], ◌∷◌, map, if◌then◌else◌}
use finstack.Base.Int.{ℤ, eqb_ℤ}
use finstack.Base.Lists.{all_by}
use finstack.Base.Text.{Text, text_eq}
use finstack.Base.Result.{ok, err, Error}
use finstack.Base.Action.{Action, ◌>>◌, pure}
use finstack.Ledger.Types.{
  LedgerAccount, LedgerTransaction, LedgerEntry, LedgerAccountType, EntryDirection, same_direction,
}
use finstack.Ledger.Store.{
  Ledger, insert_account, insert_transaction, insert_entry, has_id, non_negative, finish,
}

-- The columns that an UPDATE of an account sets.
pub record AccountChange : Type 0 where
  pub name : Text
  pub type : LedgerAccountType
  pub normal_balance : EntryDirection
  pub currency : Text
  pub balance : ℤ
  pub allow_negative_balance : Bool

-- An INSERT takes the row's generated columns, the id and the time, from the database.
pub data Statement : Type 0 where
  add_account : LedgerAccount → Statement
  add_transaction : LedgerTransaction → Statement
  add_entry : LedgerEntry → Statement
  update_account : ℕ → AccountChange → Statement
  -- UPDATE or DELETE of a row
  change_transaction change_entry : Statement

abbrev pub changed : AccountChange → LedgerAccount → LedgerAccount
changed c a = record a {
  name = c.name;
  type = c.type;
  normal_balance = c.normal_balance;
  currency = c.currency;
  balance = c.balance;
  allow_negative_balance = c.allow_negative_balance;
}

-- `ledger_accounts_guard_balance` on a direct UPDATE (trigger depth 1).
abbrev pub guard_allows : AccountChange → LedgerAccount → Bool
guard_allows c a =
    eqb_ℤ c.balance a.balance
    && text_eq c.currency a.currency
    && same_direction c.normal_balance a.normal_balance

abbrev pub update_allowed : ℕ → AccountChange → LedgerAccount → Bool
update_allowed id c a = not (has_id id a) || (guard_allows c a && non_negative (changed c a))

unfoldable pub run_statement : Statement → Action Ledger (Unit {0})
unfolding insert_account insert_transaction insert_entry text_eq
run_statement (add_account a) l = insert_account (record a { id = l.next_id }) l
run_statement (add_transaction t) l =
    insert_transaction (record t { id = l.next_id; created_at = l.clock }) l
run_statement (add_entry e) l = insert_entry (record e { id = l.next_id; created_at = l.clock }) l
run_statement (update_account id c) l =
    if all_by (update_allowed id c) l.accounts
    then (
      ok tt,
      record l { accounts = map (λ a. if has_id id a then changed c a else a) l.accounts },
    )
    else (err Error.account_guard, l)
-- `ledger_prevent_mutation`
run_statement change_transaction l = (err Error.immutable_row, l)
run_statement change_entry l = (err Error.immutable_row, l)

unfoldable pub run_statements : List Statement → Action Ledger (Unit {0})
unfolding run_statement
run_statements [] = pure tt
run_statements (s ∷ ss) = run_statement s >> run_statements ss

-- BEGIN; the statements; COMMIT.
unfoldable pub run_batch : List Statement → Ledger → Ledger
unfolding run_statements finish
run_batch ss l = (finish l (run_statements ss l)).1

unfoldable pub run_batches : List (List Statement) → Ledger → Ledger
unfolding run_batch
run_batches [] l = l
run_batches (b ∷ bs) l = run_batches bs (run_batch b l)
