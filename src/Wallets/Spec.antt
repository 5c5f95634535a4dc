-- ===== src/Wallets/Spec.antt =====
-- What the movements of wallets.service.ts promise: the change of each of a wallet's balances,
-- without accounts and postings.
use finstack.Base.{ℕ, Bool, true, false, List}
use finstack.Base.Int.{ℤ, pos, ◌+ℤ◌, ◌-ℤ◌, ltb_ℤ}
use finstack.Base.{if◌then◌else◌}
use finstack.Base.Action.{Action}
use finstack.Ledger.Types.{debit, credit}
use finstack.Ledger.Posting.{PostingEntry, Uuids}
use finstack.Ledger.Service.{PostedTransaction}
use finstack.Wallets.Wallet.{
  Wallet, WalletBalances, MoneyMovement, Balance, DepositBalance, balance_of, available_balance,
  pending_balance, reserved_balance, Bank,
}
use finstack.Wallets.Access.{account_of}
use finstack.Wallets.Movements.{
  moved, split_entries, deposit_within, reserve_within, release_within, make_available_within,
  reserve_split_within, release_split_within, collect_fee_within, refund_fee_within,
}

-- The movements of one wallet that run in a database transaction of their caller.
pub data Operation : Type 0 where
  deposits_into : DepositBalance → Operation
  collects_fee_from : Balance → Operation
  reserves releases makes_available refunds_fee : Operation
  reserves_split releases_split : ℤ → Operation

module _ ⦃u : Uuids⦄ where
  unfoldable pub run : Operation → ℕ → MoneyMovement → Action Bank PostedTransaction
  unfolding deposit_within reserve_within release_within make_available_within reserve_split_within
      release_split_within collect_fee_within refund_fee_within
  run (deposits_into balance) id m = deposit_within id m balance
  run (collects_fee_from balance) id m = collect_fee_within id balance m
  run reserves id m = reserve_within id m
  run releases id m = release_within id m
  run makes_available id m = make_available_within id m
  run refunds_fee id m = refund_fee_within id m
  run (reserves_split from_pending) id m = reserve_split_within id m from_pending
  run (releases_split from_pending) id m = release_split_within id m from_pending

abbrev pub same_balance : Balance → Balance → Bool
same_balance available_balance available_balance = true
same_balance pending_balance pending_balance = true
same_balance reserved_balance reserved_balance = true
same_balance i j = false

-- The amount, where the two balances are the same one.
abbrev pub only : Balance → Balance → ℤ → ℤ
only i j amount = if same_balance i j then amount else pos 0

abbrev pub if_positive : ℤ → ℤ
if_positive x = if ltb_ℤ (pos 0) x then x else pos 0

-- How much a movement changes the balance `k`.
abbrev pub change : Operation → Balance → ℤ → ℤ
change (deposits_into balance) k amount = only k (balance_of balance) amount
change (collects_fee_from balance) k amount = pos 0 -ℤ only k balance amount
change refunds_fee k amount = only k available_balance amount
change reserves available_balance amount = pos 0 -ℤ amount
change reserves pending_balance amount = pos 0
change reserves reserved_balance amount = amount
change releases available_balance amount = amount
change releases pending_balance amount = pos 0
change releases reserved_balance amount = pos 0 -ℤ amount
change makes_available available_balance amount = amount
change makes_available pending_balance amount = pos 0 -ℤ amount
change makes_available reserved_balance amount = pos 0
change (reserves_split x) available_balance amount = pos 0 -ℤ if_positive (amount -ℤ x)
change (reserves_split x) pending_balance amount = pos 0 -ℤ if_positive x
change (reserves_split x) reserved_balance amount = amount
change (releases_split x) available_balance amount = if_positive (amount -ℤ x)
change (releases_split x) pending_balance amount = if_positive x
change (releases_split x) reserved_balance amount = pos 0 -ℤ amount

-- The specification of a movement, on the balances alone.
abbrev pub changed : Operation → ℤ → WalletBalances → WalletBalances
changed op amount x = record {
  available = x.available +ℤ change op available_balance amount;
  pending = x.pending +ℤ change op pending_balance amount;
  reserved = x.reserved +ℤ change op reserved_balance amount;
}

-- The entries that a movement posts, given the id of the platform's account in it.
abbrev pub legs : Operation → Wallet → ℕ → ℤ → List PostingEntry
legs (deposits_into balance) w platform amount =
    moved platform (account_of w (balance_of balance)) amount
legs (collects_fee_from balance) w platform amount = moved (account_of w balance) platform amount
legs reserves w platform amount = moved w.available_account_id w.reserved_account_id amount
legs releases w platform amount = moved w.reserved_account_id w.available_account_id amount
legs makes_available w platform amount = moved w.pending_account_id w.available_account_id amount
legs refunds_fee w platform amount = moved platform w.available_account_id amount
legs (reserves_split x) w platform amount = split_entries w amount x debit
legs (releases_split x) w platform amount = split_entries w amount x credit
