-- ===== src/Ledger/Types.antt =====
-- ledger.types.ts, and the rows of the three ledger tables (ledger-account.entity.ts,
-- ledger-transaction.entity.ts, ledger-entry.entity.ts).
--
-- A uuid is the 128-bit number that it writes; ids are only compared and sorted, and the canonical
-- text of a uuid sorts as its number. `metadata` is written and never read, and has no field here.
use finstack.Base.{ℕ, Bool, true, false, Option}
use finstack.Base.Int.{ℤ, ◌-ℤ◌, pos}
use finstack.Base.Text.{Text}

pub data LedgerAccountType : Type 0 where
  asset liability equity revenue expense : LedgerAccountType

pub data EntryDirection : Type 0 where
  debit credit : EntryDirection

-- `a === b` on directions.
abbrev pub same_direction : EntryDirection → EntryDirection → Bool
same_direction debit debit = true
same_direction debit credit = false
same_direction credit debit = false
same_direction credit credit = true

abbrev pub opposite : EntryDirection → EntryDirection
opposite debit = credit
opposite credit = debit

unfoldable pub normal_balance_for : LedgerAccountType → EntryDirection
normal_balance_for asset = debit
normal_balance_for expense = debit
normal_balance_for liability = credit
normal_balance_for equity = credit
normal_balance_for revenue = credit

pub record LedgerAccount : Type 0 where
  pub id : ℕ
  pub code : Option Text
  pub name : Text
  pub type : LedgerAccountType
  pub normal_balance : EntryDirection
  pub currency : Text
  pub balance : ℤ
  pub allow_negative_balance : Bool

pub record LedgerTransaction : Type 0 where
  pub id : ℕ
  pub reference : Text
  pub description : Text
  pub currency : Text
  pub amount : ℤ
  pub reversal_of_id : Option ℕ
  pub created_at : ℕ

pub record LedgerEntry : Type 0 where
  pub id : ℕ
  pub ledger_transaction_id : ℕ
  pub ledger_account_id : ℕ
  pub direction : EntryDirection
  pub amount : ℤ
  pub currency : Text
  pub created_at : ℕ

-- The amount of an entry as it changes an account with this normal balance.
abbrev pub signed : EntryDirection → EntryDirection → ℤ → ℤ
signed debit debit amount = amount
signed debit credit amount = pos 0 -ℤ amount
signed credit debit amount = pos 0 -ℤ amount
signed credit credit amount = amount
