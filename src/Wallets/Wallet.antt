-- ===== src/Wallets/Wallet.antt =====
-- wallet.entity.ts and the types of wallets.service.ts.
use finstack.Base.{if◌then◌else◌, ℕ, Bool, true, false, List}
use finstack.Base.Int.{ℤ}
use finstack.Base.Text.{Text}
use finstack.Base.Result.{Result, ok, err, Error}
use finstack.Base.Action.{Action}
use finstack.Owners.{Owner}
use finstack.Ledger.Store.{Ledger, commit_ok}

pub data WalletStatus : Type 0 where
  active frozen closed : WalletStatus

abbrev pub is_active_status : WalletStatus → Bool
is_active_status active = true
is_active_status frozen = false
is_active_status closed = false

pub record Wallet : Type 0 where
  pub id : ℕ
  pub owner : Owner
  pub currency : Text
  pub status : WalletStatus
  pub is_primary : Bool
  pub available_account_id : ℕ
  pub pending_account_id : ℕ
  pub reserved_account_id : ℕ

pub record WalletBalances : Type 0 where
  pub available : ℤ
  pub pending : ℤ
  pub reserved : ℤ

pub record CreditTarget : Type 0 where
  pub wallet : Wallet
  pub requires_conversion : Bool

pub record MoneyMovement : Type 0 where
  pub amount : ℤ
  pub reference : Text
  pub description : Text

-- The balance that a movement names.
pub data Balance : Type 0 where
  available_balance pending_balance reserved_balance : Balance

-- What a deposit is added to.
pub data DepositBalance : Type 0 where
  to_available to_pending : DepositBalance

abbrev pub balance_of : DepositBalance → Balance
balance_of to_available = available_balance
balance_of to_pending = pending_balance

-- The tables of the ledger and of the wallets. Ids come from the ledger's counter.
pub record Bank : Type 0 where
  pub ledger : Ledger
  pub wallets : List Wallet

-- A method of the ledger service, called by the wallets service.
abbrev pub on_ledger : {A : Type 0} → Action Ledger A → Action Bank A
on_ledger m b = ((m b.ledger).0, record b { ledger = (m b.ledger).1 })

-- A database transaction: a throw takes back what was written in it, and so does the deferred trigger
-- of the ledger at the commit.
abbrev pub rolled_back : {A : Type 0} → Bank → Result A × Bank → Result A × Bank
rolled_back before (ok a, b) =
    if commit_ok before.ledger b.ledger then (ok a, b) else (err Error.unbalanced_commit, before)
rolled_back before (err x, b) = (err x, before)

abbrev pub transaction : {A : Type 0} → Action Bank A → Action Bank A
transaction body b = rolled_back b (body b)
