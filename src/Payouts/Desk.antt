-- ===== src/Payouts/Desk.antt =====
-- payouts/payout.entity.ts, and the tables that payouts.service.ts reads and writes.
use finstack.Base.{if◌then◌else◌, ℕ, Option, List, [], ◌∷◌, ◌++◌}
use finstack.Base.Int.{ℤ}
use finstack.Base.Text.{Text}
use finstack.Base.Result.{Result, ok, err, Error}
use finstack.Base.Action.{Action}
use finstack.Owners.{Owner}
use finstack.Transactions.Table.{Table}
use finstack.Wallets.Wallet.{Bank}
use finstack.Ledger.Store.{commit_ok}

pub record Payout : Type 0 where
  pub id : ℕ
  pub reference : Text
  pub transaction_id : ℕ
  pub owner : Owner
  pub wallet_id : ℕ
  pub destination_id : ℕ
  pub provider : Text
  pub amount : ℤ
  pub currency : Text
  pub narration : Option Text
  pub provider_reference : Option Text
  pub submitted_at : Option ℕ

-- An event of the outbox; its payload repeats columns of the payout.
pub record OutboxEvent : Type 0 where
  pub type : Text
  pub aggregate_id : ℕ

-- `sent` are the references of the payouts that `initiate` of a provider was called with: what the
-- outside has seen, which no rollback takes back.
pub record Desk : Type 0 where
  pub bank : Bank
  pub transactions : Table
  pub payouts : List Payout
  pub outbox : List OutboxEvent
  pub sent : List Text
  pub clock : ℕ

abbrev pub on_bank : {A : Type 0} → Action Bank A → Action Desk A
on_bank m d = ((m d.bank).0, record d { bank = (m d.bank).1 })

abbrev pub on_table : {A : Type 0} → Action Table A → Action Desk A
on_table m d = ((m d.transactions).0, record d { transactions = (m d.transactions).1 })

-- `dataSource.transaction`, with the deferred trigger of the ledger at its commit; only database work is done in one.
abbrev pub undone : {A : Type 0} → Desk → Result A × Desk → Result A × Desk
undone before (ok a, d) =
    if commit_ok before.bank.ledger d.bank.ledger
    then (ok a, d)
    else (err Error.unbalanced_commit, before)
undone before (err x, d) = (err x, before)

abbrev pub in_transaction : {A : Type 0} → Action Desk A → Action Desk A
in_transaction body d = undone d (body d)

-- `outbox.add`
abbrev pub add_event : Text → ℕ → Action Desk (Unit {0})
add_event type id d =
    (ok tt, record d { outbox = d.outbox ++ record { type = type; aggregate_id = id } ∷ [] })
