-- ===== src/Wallets/Access.antt =====
-- wallets.service.ts: the internals that the movements share.
use finstack.Base.{ℕ, Bool, ◌&&◌, not, none, some, List, ◌==◌, if◌then◌else◌}
use finstack.Base.Int.{ℤ, pos}
use finstack.Base.Lists.{find_by, any_by}
use finstack.Base.Text.{Text}
use finstack.Base.Result.{Result, ok, err, Error}
use finstack.Base.Action.{Action, lift}
use finstack.Owners.{Owner, same_owner}
use finstack.Ledger.Types.{LedgerAccount}
use finstack.Ledger.Posting.{PostingEntry, PostingInput, Uuids}
use finstack.Ledger.Store.{Ledger, find_account}
use finstack.Ledger.Service.{PostedTransaction, ensure_system_account}
use finstack.Ledger.SystemAccounts.{SystemAccountDefinition, external_clearing}
use finstack.Ledger.PostWithin.{post_within}
use finstack.Ledger.Post.{post}
use finstack.Wallets.Wallet.{
  Wallet, is_active_status, WalletBalances, MoneyMovement, Balance, available_balance,
  pending_balance, reserved_balance, Bank, on_ledger,
}

abbrev pub has_wallet_id : ℕ → Wallet → Bool
has_wallet_id id w = w.id == id

abbrev pub get_wallet : ℕ → Action Bank Wallet
get_wallet id b = elim (find_by (has_wallet_id id) b.wallets) [
  | none ↦ (err Error.wallet_not_found, b)
  | some w ↦ (ok w, b)
]

-- `findOwned`
abbrev pub find_owned : Owner → ℕ → Action Bank Wallet
find_owned owner id b =
    elim (find_by (λ w. has_wallet_id id w && same_owner w.owner owner) b.wallets) [
      | none ↦ (err Error.wallet_not_found, b)
      | some w ↦ (ok w, b)
    ]

abbrev pub blocks : List ℕ → Wallet → Bool
blocks ids w = any_by (λ id. w.id == id) ids && not (is_active_status w.status)

-- Ids that name no wallet are not noticed.
abbrev pub check_active : List ℕ → List Wallet → Result (Unit {0})
check_active ids wallets =
    if any_by (blocks ids) wallets then err Error.wallet_not_active else ok tt

unfoldable pub lock_active_wallets : List ℕ → Action Bank (Unit {0})
lock_active_wallets ids b = (check_active ids b.wallets, b)

unfoldable pub system_account : SystemAccountDefinition → Action Bank LedgerAccount
unfolding ensure_system_account
system_account d = on_ledger (ensure_system_account d.input d.code)

unfoldable pub clearing_account : Text → Action Bank LedgerAccount
unfolding system_account external_clearing
clearing_account currency = system_account (external_clearing currency)

abbrev pub account_of : Wallet → Balance → ℕ
account_of w available_balance = w.available_account_id
account_of w pending_balance = w.pending_account_id
account_of w reserved_balance = w.reserved_account_id

-- The input of a posting that a movement makes.
abbrev pub movement_posting : Text → MoneyMovement → List PostingEntry → PostingInput
movement_posting currency movement entries = record {
  reference = movement.reference;
  description = movement.description;
  currency = currency;
  entries = entries;
  reversal_of_id = none;
}

-- `balance.get(accountId) ?? 0n`
abbrev pub balance_at : ℕ → Ledger → ℤ
balance_at id l = elim (find_account id l.accounts) [ none ↦ pos 0 | some a ↦ a.balance ]

-- `withBalances`, of one wallet.
unfoldable pub wallet_balances : Wallet → Ledger → WalletBalances
wallet_balances w l = record {
  available = balance_at w.available_account_id l;
  pending = balance_at w.pending_account_id l;
  reserved = balance_at w.reserved_account_id l;
}

module _ ⦃u : Uuids⦄ where
  -- `post`: its own database transaction, in which the wallets are locked first.
  unfoldable pub post_movement :
      List ℕ → Text → MoneyMovement → List PostingEntry → Action Bank PostedTransaction
  unfolding post
  post_movement ids currency movement entries b =
      on_ledger
        (post (lift (check_active ids b.wallets)) (movement_posting currency movement entries)) b

  -- `ledger.postWithin` on the caller's transaction.
  unfoldable pub post_movement_within :
      Text → MoneyMovement → List PostingEntry → Action Bank PostedTransaction
  unfolding post_within
  post_movement_within currency movement entries =
      on_ledger (post_within (movement_posting currency movement entries))
