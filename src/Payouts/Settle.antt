-- ===== src/Payouts/Settle.antt =====
-- payouts.service.ts, step 3: `complete`, `fail` and `reverse`.
use finstack.Base.{ℕ, Bool, some, ◌++◌, if◌then◌else◌}
use finstack.Base.Int.{ℤ, pos, ◌+ℤ◌, ltb_ℤ}
use finstack.Base.Lists.{take}
use finstack.Base.Text.{Text, codes}
use finstack.Base.Action.{Action, ◌>>=◌, ◌>>◌, pure, gets}
use finstack.Ledger.Types.{LedgerAccount}
use finstack.Ledger.Posting.{Uuids}
use finstack.Ledger.Service.{PostedTransaction}
use finstack.Transactions.Status.{processing, successful, failed, reversed, same_status}
use finstack.Transactions.Table.{Transaction, TransitionPatch, no_patch, lock_within, transition}
use finstack.Wallets.Wallet.{MoneyMovement, reserved_balance, Bank}
use finstack.Wallets.Access.{get_wallet, clearing_account, post_movement_within}
use finstack.Wallets.Movements.{moved, release_within, collect_fee_within, refund_fee_within}
use finstack.Payouts.Desk.{Payout, Desk, on_bank, on_table, in_transaction, add_event}

abbrev pub movement_of : ℤ → Text → Text → MoneyMovement
movement_of amount reference description = record {
  amount = amount;
  reference = reference;
  description = description;
}

abbrev pub is_processing : Transaction → Bool
is_processing t = same_status t.status processing

abbrev pub is_successful : Transaction → Bool
is_successful t = same_status t.status successful

abbrev pub success_patch : Payout → PostedTransaction → ℕ → TransitionPatch
success_patch payout posted now = record no_patch {
  ledger_transaction_id = some (some posted.transaction.id);
  provider_reference = some payout.provider_reference;
  completed_at = some (some now);
}

abbrev pub failure_patch : Text → Text → TransitionPatch
failure_patch code reason = record no_patch {
  failure_code = some (some code);
  failure_reason = some (some (take 500 reason));
}

module _ ⦃u : Uuids⦄ where
  -- `if (transaction.feeAmount > 0n)`
  abbrev pub if_fee : Transaction → Action Bank PostedTransaction → Action Desk (Unit {0})
  if_fee t body = if ltb_ℤ (pos 0) t.fee_amount then (on_bank body >> pure tt) else pure tt

  abbrev pub complete_processing : Payout → LedgerAccount → Transaction → Action Desk (Unit {0})
  complete_processing payout clearing t = do
    wallet ← on_bank (get_wallet payout.wallet_id)
    posted ← on_bank (
        post_movement_within payout.currency
          (movement_of payout.amount (codes "payout:" ++ payout.reference)
            (codes "Payout " ++ payout.reference))
          (moved wallet.reserved_account_id clearing.id payout.amount))
    if_fee t (
        collect_fee_within payout.wallet_id reserved_balance (
          movement_of t.fee_amount (codes "fee:payout:" ++ payout.reference)
            (codes "Fee for payout " ++ payout.reference)))
    now ← gets (λ d. d.clock)
    on_table (transition t.id successful (success_patch payout posted now))
    add_event (codes "payout.successful") t.id

  -- The body of the database transaction of `complete`.
  unfoldable pub complete_within : Payout → LedgerAccount → Action Desk (Unit {0})
  unfolding post_movement_within collect_fee_within transition
  complete_within payout clearing = do
    t ← on_table (lock_within payout.transaction_id)
    if is_processing t then complete_processing payout clearing t else pure tt

  unfoldable pub complete : Payout → Action Desk (Unit {0})
  unfolding clearing_account complete_within
  complete payout = do
    clearing ← on_bank (clearing_account payout.currency)
    in_transaction (complete_within payout clearing)

  abbrev pub fail_processing : Payout → Text → Text → Transaction → Action Desk (Unit {0})
  fail_processing payout code reason t = do
    on_bank (
        release_within payout.wallet_id (
          movement_of (payout.amount +ℤ t.fee_amount) (codes "payout-release:" ++ payout.reference)
            (codes "Release hold for failed payout " ++ payout.reference)))
    on_table (transition t.id failed (failure_patch code reason))
    add_event (codes "payout.failed") t.id

  unfoldable pub fail_within : Payout → Text → Text → Action Desk (Unit {0})
  unfolding release_within transition
  fail_within payout code reason = do
    t ← on_table (lock_within payout.transaction_id)
    if is_processing t then fail_processing payout code reason t else pure tt

  unfoldable pub fail : Payout → Text → Text → Action Desk (Unit {0})
  unfolding fail_within
  fail payout code reason = in_transaction (fail_within payout code reason)

  abbrev pub reverse_successful : Payout → LedgerAccount → Transaction → Action Desk (Unit {0})
  reverse_successful payout clearing t = do
    wallet ← on_bank (get_wallet payout.wallet_id)
    on_bank (
        post_movement_within payout.currency
          (movement_of payout.amount (codes "payout-reversal:" ++ payout.reference)
            (codes "Reversal of payout " ++ payout.reference))
          (moved clearing.id wallet.available_account_id payout.amount))
    if_fee t (
        refund_fee_within payout.wallet_id (
          movement_of t.fee_amount (codes "fee-refund:payout:" ++ payout.reference)
            (codes "Fee refund for reversed payout " ++ payout.reference)))
    on_table (transition t.id reversed no_patch)
    add_event (codes "payout.reversed") t.id

  unfoldable pub reverse_within : Payout → LedgerAccount → Action Desk (Unit {0})
  unfolding post_movement_within refund_fee_within transition
  reverse_within payout clearing = do
    t ← on_table (lock_within payout.transaction_id)
    if is_successful t then reverse_successful payout clearing t else pure tt

  unfoldable pub reverse : Payout → Action Desk (Unit {0})
  unfolding clearing_account reverse_within
  reverse payout = do
    clearing ← on_bank (clearing_account payout.currency)
    in_transaction (reverse_within payout clearing)
