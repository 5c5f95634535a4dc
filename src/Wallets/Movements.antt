-- ===== src/Wallets/Movements.antt =====
-- wallets.service.ts: the methods that move money. Those that end in `within` run in a database
-- transaction of their caller.
use finstack.Base.{ℕ, not, List, [], ◌∷◌, ◌++◌, if◌then◌else◌}
use finstack.Base.Int.{ℤ, pos, ◌-ℤ◌, ltb_ℤ}
use finstack.Base.Text.{text_eq}
use finstack.Base.Result.{Error}
use finstack.Base.Action.{Action, ◌>>=◌, ◌>>◌, throw_when}
use finstack.Ledger.Types.{EntryDirection, debit, credit, opposite}
use finstack.Ledger.Posting.{PostingEntry, Uuids}
use finstack.Ledger.Service.{PostedTransaction}
use finstack.Ledger.SystemAccounts.{fee_revenue}
use finstack.Wallets.Wallet.{Wallet, MoneyMovement, Balance, DepositBalance, balance_of, Bank}
use finstack.Wallets.Access.{
  get_wallet, lock_active_wallets, clearing_account, system_account, account_of, post_movement,
  post_movement_within,
}

abbrev pub posting_leg : ℕ → EntryDirection → ℤ → PostingEntry
posting_leg account direction amount = record {
  account_id = account;
  direction = direction;
  amount = amount;
}

-- The two entries that take an amount from one account and give it to another.
abbrev pub moved : ℕ → ℕ → ℤ → List PostingEntry
moved from to amount = posting_leg from debit amount ∷ posting_leg to credit amount ∷ []

abbrev pub leg_if_positive : ℕ → EntryDirection → ℤ → List PostingEntry
leg_if_positive account side amount =
    if ltb_ℤ (pos 0) amount then posting_leg account side amount ∷ [] else []

-- `splitEntries`: `side` applies to pending and available.
unfoldable pub split_entries : Wallet → ℤ → ℤ → EntryDirection → List PostingEntry
split_entries w amount from_pending side =
    leg_if_positive w.pending_account_id side from_pending
    ++ (leg_if_positive w.available_account_id side (amount -ℤ from_pending)
        ++ posting_leg w.reserved_account_id (opposite side) amount ∷ [])

module _ ⦃u : Uuids⦄ where
  unfoldable pub deposit : ℕ → MoneyMovement → Action Bank PostedTransaction
  unfolding clearing_account post_movement
  deposit id m = do
    w ← get_wallet id
    clearing ← clearing_account w.currency
    post_movement (id ∷ []) w.currency m (moved clearing.id w.available_account_id m.amount)

  unfoldable pub deposit_within : ℕ → MoneyMovement → DepositBalance → Action Bank PostedTransaction
  unfolding clearing_account lock_active_wallets post_movement_within
  deposit_within id m into = do
    w ← get_wallet id
    clearing ← clearing_account w.currency
    lock_active_wallets (id ∷ [])
    post_movement_within w.currency m (moved clearing.id (account_of w (balance_of into)) m.amount)

  unfoldable pub withdraw : ℕ → MoneyMovement → Action Bank PostedTransaction
  unfolding clearing_account post_movement
  withdraw id m = do
    w ← get_wallet id
    clearing ← clearing_account w.currency
    post_movement (id ∷ []) w.currency m (moved w.available_account_id clearing.id m.amount)

  unfoldable pub transfer : ℕ → ℕ → MoneyMovement → Action Bank PostedTransaction
  unfolding text_eq post_movement
  transfer from_id to_id m = do
    from ← get_wallet from_id
    to ← get_wallet to_id
    throw_when (not (text_eq from.currency to.currency)) Error.currency_mismatch
    post_movement (from_id ∷ to_id ∷ []) from.currency m
        (moved from.available_account_id to.available_account_id m.amount)

  unfoldable pub transfer_within : Wallet → Wallet → MoneyMovement → Action Bank PostedTransaction
  unfolding text_eq lock_active_wallets post_movement_within
  transfer_within from to m = do
    throw_when (not (text_eq from.currency to.currency)) Error.currency_mismatch
    lock_active_wallets (from.id ∷ to.id ∷ [])
    post_movement_within from.currency m
        (moved from.available_account_id to.available_account_id m.amount)

  unfoldable pub reserve : ℕ → MoneyMovement → Action Bank PostedTransaction
  unfolding post_movement
  reserve id m = do
    w ← get_wallet id
    post_movement (id ∷ []) w.currency m
        (moved w.available_account_id w.reserved_account_id m.amount)

  unfoldable pub reserve_within : ℕ → MoneyMovement → Action Bank PostedTransaction
  unfolding lock_active_wallets post_movement_within
  reserve_within id m = do
    lock_active_wallets (id ∷ [])
    w ← get_wallet id
    post_movement_within w.currency m (moved w.available_account_id w.reserved_account_id m.amount)

  unfoldable pub release_within : ℕ → MoneyMovement → Action Bank PostedTransaction
  unfolding post_movement_within
  release_within id m = do
    w ← get_wallet id
    post_movement_within w.currency m (moved w.reserved_account_id w.available_account_id m.amount)

  unfoldable pub make_available_within : ℕ → MoneyMovement → Action Bank PostedTransaction
  unfolding post_movement_within
  make_available_within id m = do
    w ← get_wallet id
    post_movement_within w.currency m (moved w.pending_account_id w.available_account_id m.amount)

  unfoldable pub reserve_split_within : ℕ → MoneyMovement → ℤ → Action Bank PostedTransaction
  unfolding lock_active_wallets post_movement_within split_entries
  reserve_split_within id m from_pending = do
    lock_active_wallets (id ∷ [])
    w ← get_wallet id
    post_movement_within w.currency m (split_entries w m.amount from_pending debit)

  unfoldable pub release_split_within : ℕ → MoneyMovement → ℤ → Action Bank PostedTransaction
  unfolding post_movement_within split_entries
  release_split_within id m from_pending = do
    w ← get_wallet id
    post_movement_within w.currency m (split_entries w m.amount from_pending credit)

  -- `ensureSystemAccount` writes on a connection of its own; here a rollback of the caller's
  -- transaction takes the new account back with it. So too in the next.
  unfoldable pub collect_fee_within : ℕ → Balance → MoneyMovement → Action Bank PostedTransaction
  unfolding system_account fee_revenue post_movement_within
  collect_fee_within id from m = do
    w ← get_wallet id
    revenue ← system_account (fee_revenue w.currency)
    post_movement_within w.currency m (moved (account_of w from) revenue.id m.amount)

  unfoldable pub refund_fee_within : ℕ → MoneyMovement → Action Bank PostedTransaction
  unfolding system_account fee_revenue post_movement_within
  refund_fee_within id m = do
    w ← get_wallet id
    revenue ← system_account (fee_revenue w.currency)
    post_movement_within w.currency m (moved revenue.id w.available_account_id m.amount)

  unfoldable pub release : ℕ → MoneyMovement → Action Bank PostedTransaction
  unfolding post_movement
  release id m = do
    w ← get_wallet id
    post_movement (id ∷ []) w.currency m
        (moved w.reserved_account_id w.available_account_id m.amount)
