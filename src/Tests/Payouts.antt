-- ===== src/Tests/Payouts.antt =====
-- The theorems of transactions and payouts (src/transactions, src/payouts) on one payout whose amount
-- is held.
use finstack.Base.{ℕ, ◌≡◌, refl, ◌⊎◌, Option, ◌||◌, none, some, List, [], ◌∷◌, ◌++◌, arith}
use finstack.Base.Int.{pos, ◌+ℤ◌, ◌-ℤ◌}
use finstack.Base.Text.{Text, codes}
use finstack.Base.Result.{ok}
use finstack.Owners.{user}
use finstack.Ledger.Types.{normal_balance_for}
use finstack.Limits.Rules.{withdrawal}
use finstack.Transactions.Status.{
  TransactionStatus, processing, successful, failed, same_status, can_transition,
}
use finstack.Transactions.Table.{Transaction, TransitionPatch, no_patch, find_row, trigger_allows}
use finstack.Transactions.History.{
  Became, run_transitions, run_transitions-Became, trigger_allows-can_transition,
}
use finstack.Wallets.Manage.{purpose_account}
use finstack.Ledger.Store.{commit_ok}
use finstack.Payouts.Desk.{Payout, Desk}
use finstack.Payouts.Settle.{complete, fail}
use finstack.Payouts.Submit.{Provider, was_successful, answered, unknown}
use finstack.Payouts.Once.{run_submits, run_submits-once}
use finstack.Payouts.Settled.{HasStatus, complete-fail}
use finstack.Tests.Ledger.{unary_uuids}
use finstack.Tests.Wallets.{held_bank}

abbrev withdrawal_row : Transaction
withdrawal_row = record {
  id = 20;
  reference = codes "trx";
  type = withdrawal;
  status = processing;
  owner = user 1;
  counterparty_user_id = none;
  source_wallet_id = some 3;
  destination_wallet_id = none;
  amount = pos 200;
  currency = codes "NGN";
  fee_amount = pos 0;
  fee_currency = none;
  fee_rule_id = none;
  ledger_transaction_id = none;
  provider_reference = none;
  idempotency_key = some (codes "key");
  description = none;
  failure_code = none;
  failure_reason = none;
  created_at = 0;
  completed_at = none;
}

abbrev payout_row : Payout
payout_row = record {
  id = 30;
  reference = codes "pyt";
  transaction_id = 20;
  owner = user 1;
  wallet_id = 3;
  destination_id = 40;
  provider = codes "bank";
  amount = pos 200;
  currency = codes "NGN";
  narration = none;
  provider_reference = none;
  submitted_at = none;
}

abbrev desk : Desk
desk = record {
  bank = held_bank;
  transactions = withdrawal_row ∷ [];
  payouts = payout_row ∷ [];
  outbox = [];
  sent = [];
  clock = 1000;
}

trigger_allows-can_transition_example :
    trigger_allows processing failed
    ≡ (same_status failed processing || can_transition processing failed)
trigger_allows-can_transition_example = trigger_allows-can_transition processing failed

abbrev calls : List (ℕ × TransactionStatus × TransitionPatch)
calls =
    (20, successful, record no_patch { ledger_transaction_id = some (some 9) })
    ∷ (20, failed, no_patch)
    ∷ []

run_transitions-Became_example :
    Became withdrawal_row (find_row 20 (run_transitions calls (withdrawal_row ∷ [])))
run_transitions-Became_example =
    run_transitions-Became calls (withdrawal_row ∷ []) 20 withdrawal_row refl

-- A provider whose response is lost, and one that knows no payout and accepts every one.
abbrev losing : Provider
losing = record { find = λ r s. unknown; initiate = λ p. unknown }

abbrev accepting : Provider
accepting = record {
  find = λ r s. answered none;
  initiate = λ p.
      answered (record {
        provider_reference = codes "ref";
        status = was_successful;
        failure_reason = none;
      });
}

abbrev two_submits : List (ℕ × (Text → Option Provider))
two_submits = (0, λ n. some losing) ∷ (60000, λ n. some accepting) ∷ []

run_submits-once_example :
    ((run_submits 30 two_submits desk).sent ≡ [])
    ⊎ ((reference : Text) × ((run_submits 30 two_submits desk).sent ≡ [] ++ reference ∷ []))
run_submits-once_example = run_submits-once 30 two_submits desk ((λ e. tt), tt) (omega arith)

complete-runs : (complete payout_row desk).0 ≡ ok tt
unfolding complete ◌+ℤ◌ ◌-ℤ◌ purpose_account normal_balance_for commit_ok
complete-runs = refl

complete-fail_example :
    HasStatus 20 successful (complete payout_row desk).1
    × (fail payout_row (codes "LATE") (codes "late") (complete payout_row desk).1
        ≡ (ok tt, (complete payout_row desk).1))
complete-fail_example =
    complete-fail payout_row (codes "LATE") (codes "late") desk withdrawal_row refl refl
      complete-runs
