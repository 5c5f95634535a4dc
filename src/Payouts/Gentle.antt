-- ===== src/Payouts/Gentle.antt =====
-- What the steps of payouts.service.ts leave as it is: whom a payout was sent to, and when.
use finstack.Base.{
  Bool-cases, inl, inr, ℕ, ◌≡◌, ◌≤◌, refl, ◌∙◌, Bool, true, false, some, List, [], ◌∷◌, ◌++◌, ◌+◌,
  if◌then◌else◌,
}
use finstack.Base.Int.{pos, ltb_ℤ, ◌+ℤ◌}
use finstack.Base.Lists.{All}
use finstack.Base.Text.{Text, codes}
use finstack.Base.Result.{Result, ok, err}
use finstack.Ledger.Store.{commit_ok}
use finstack.Base.Action.{Action, after, ◌>>=◌, ◌>>◌, pure, gets}
use finstack.Ledger.Types.{LedgerAccount}
use finstack.Ledger.Posting.{Uuids}
use finstack.Ledger.Service.{PostedTransaction}
use finstack.Transactions.Table.{Table, Transaction, lock_within, transition, no_patch}
use finstack.Transactions.Status.{successful, failed, reversed}
use finstack.Wallets.Wallet.{Bank, reserved_balance}
use finstack.Wallets.Access.{get_wallet, clearing_account, post_movement_within}
use finstack.Wallets.Movements.{moved, release_within, collect_fee_within, refund_fee_within}
use finstack.Payouts.Desk.{Payout, Desk, on_bank, on_table, in_transaction, undone, add_event}
use finstack.Payouts.Settle.{
  if_fee, is_processing, is_successful, complete_processing, complete_within, complete,
  fail_processing, fail_within, fail, reverse_successful, reverse_within, reverse, movement_of,
  success_patch, failure_patch,
}
use finstack.Payouts.Submit.{has_payout_id, resubmit_after_ms}

-- At most one row has the id.
abbrev pub Only : ℕ → List Payout → Type 0
Only id [] = Unit
Only id (p ∷ ps) =
    (has_payout_id id p ≡ true → All (λ q. has_payout_id id q ≡ false) ps) × Only id ps

-- The row with the id was sent so late that it may not be sent again until `t`.
abbrev pub Recent : ℕ → ℕ → List Payout → Type 0
Recent id t ps =
    All
      (λ p.
        has_payout_id id p ≡ true
        → (s : ℕ) × (p.submitted_at ≡ some s) × (t ≤ s + resubmit_after_ms))
      ps

pub record Leaves (d e : Desk) : Type 0 where
  pub sent : e.sent ≡ d.sent
  pub clock : e.clock ≡ d.clock
  pub only : (id : ℕ) → Only id d.payouts → Only id e.payouts
  pub recent : (id t : ℕ) → Recent id t d.payouts → Recent id t e.payouts

pub record IsGentle {A : Type 0} (m : Action Desk A) : Type 0 where
  pub on : (d : Desk) → Leaves d (m d).1

pub Leaves-refl : (d : Desk) → Leaves d d
Leaves-refl d = record { sent = refl; clock = refl; only = λ id h. h; recent = λ id t h. h }

pub Leaves-trans : (c d e : Desk) → Leaves c d → Leaves d e → Leaves c e
Leaves-trans c d e f g = record {
  sent = g.sent ∙ f.sent;
  clock = g.clock ∙ f.clock;
  only = λ id h. g.only id (f.only id h);
  recent = λ id t h. g.recent id t (f.recent id t h);
}

module _ {A : Type 0} where
  pub pure-IsGentle : (a : A) → IsGentle (pure a)
  pure-IsGentle a = record { on = Leaves-refl }

  on_bank-IsGentle : (m : Action Bank A) → IsGentle (on_bank m)
  on_bank-IsGentle m = record {
    on = λ d. record { sent = refl; clock = refl; only = λ id h. h; recent = λ id t h. h };
  }

  on_table-IsGentle : (m : Action Table A) → IsGentle (on_table m)
  on_table-IsGentle m = record {
    on = λ d. record { sent = refl; clock = refl; only = λ id h. h; recent = λ id t h. h };
  }

  gets-IsGentle : (f : Desk → A) → IsGentle (gets f)
  gets-IsGentle f = record { on = Leaves-refl }

  after-Leaves :
      {B : Type 0} (d : Desk) (r : Result A × Desk) (f : A → Action Desk B)
      → Leaves d r.1
      → ((a : A) → IsGentle (f a))
      → Leaves d (after r f).1
  after-Leaves d (ok a, e) f h g = Leaves-trans d e _ h ((g a).on e)
  after-Leaves d (err x, e) f h g = h

  pub bind-IsGentle :
      {B : Type 0} {m : Action Desk A} {f : A → Action Desk B}
      → IsGentle m
      → ((a : A) → IsGentle (f a))
      → IsGentle (m >>= f)
  bind-IsGentle {m} {f} h g = record { on = λ d. after-Leaves d (m d) f (h.on d) g }

  in_transaction-IsGentle : {m : Action Desk A} → IsGentle m → IsGentle (in_transaction m)
  in_transaction-IsGentle {m} h = record { on = λ d. rolled d (m d) (h.on d) }
    where
      rolled : (d : Desk) (r : Result A × Desk) → Leaves d r.1 → Leaves d (undone d r).1
      rolled d (ok a, e) k = elim (Bool-cases (commit_ok d.bank.ledger e.bank.ledger)) [
        | inl balanced ↦ rw balanced k
        | inr refused ↦ rw refused (Leaves-refl d)
      ]
      rolled d (err x, e) k = Leaves-refl d

  pub if-IsGentle :
      {m k : Action Desk A} (b : Bool) → IsGentle m → IsGentle k → IsGentle (if b then m else k)
  if-IsGentle true h g = h
  if-IsGentle false h g = g

add_event-IsGentle : (type : Text) (id : ℕ) → IsGentle (add_event type id)
add_event-IsGentle type id = record {
  on = λ d. record { sent = refl; clock = refl; only = λ i h. h; recent = λ i t h. h };
}

module _ ⦃u : Uuids⦄ where
  if_fee-IsGentle : (t : Transaction) (m : Action Bank PostedTransaction) → IsGentle (if_fee t m)
  if_fee-IsGentle t m =
      if-IsGentle {m = on_bank m >> pure tt} {k = pure tt} (ltb_ℤ (pos 0) t.fee_amount)
        (bind-IsGentle (on_bank-IsGentle m) (λ _. pure-IsGentle tt)) (pure-IsGentle tt)

  complete_processing-IsGentle :
      (p : Payout) (c : LedgerAccount) (t : Transaction) → IsGentle (complete_processing p c t)
  complete_processing-IsGentle p c t =
      bind-IsGentle (on_bank-IsGentle (get_wallet p.wallet_id)) λ w.
        bind-IsGentle
          (on_bank-IsGentle (
            post_movement_within p.currency
              (movement_of p.amount (codes "payout:" ++ p.reference)
                (codes "Payout " ++ p.reference))
              (moved w.reserved_account_id c.id p.amount)))
          λ posted.
            bind-IsGentle
              (if_fee-IsGentle t (
                collect_fee_within p.wallet_id reserved_balance (
                  movement_of t.fee_amount (codes "fee:payout:" ++ p.reference)
                    (codes "Fee for payout " ++ p.reference))))
              λ _. bind-IsGentle (gets-IsGentle (λ d. d.clock)) λ now.
                bind-IsGentle
                  (on_table-IsGentle (transition t.id successful (success_patch p posted now)))
                  λ _. add_event-IsGentle (codes "payout.successful") t.id

  fail_processing-IsGentle :
      (p : Payout) (code reason : Text) (t : Transaction)
      → IsGentle (fail_processing p code reason t)
  fail_processing-IsGentle p code reason t =
      bind-IsGentle
        (on_bank-IsGentle (
          release_within p.wallet_id (
            movement_of (p.amount +ℤ t.fee_amount) (codes "payout-release:" ++ p.reference)
              (codes "Release hold for failed payout " ++ p.reference))))
        λ _.
          bind-IsGentle (on_table-IsGentle (transition t.id failed (failure_patch code reason)))
            λ _. add_event-IsGentle (codes "payout.failed") t.id

  reverse_successful-IsGentle :
      (p : Payout) (c : LedgerAccount) (t : Transaction) → IsGentle (reverse_successful p c t)
  reverse_successful-IsGentle p c t = bind-IsGentle (on_bank-IsGentle (get_wallet p.wallet_id)) λ w.
      bind-IsGentle
        (on_bank-IsGentle (
          post_movement_within p.currency
            (movement_of p.amount (codes "payout-reversal:" ++ p.reference)
              (codes "Reversal of payout " ++ p.reference))
            (moved c.id w.available_account_id p.amount)))
        λ _.
          bind-IsGentle
            (if_fee-IsGentle t (
              refund_fee_within p.wallet_id (
                movement_of t.fee_amount (codes "fee-refund:payout:" ++ p.reference)
                  (codes "Fee refund for reversed payout " ++ p.reference))))
            λ _.
              bind-IsGentle (on_table-IsGentle (transition t.id reversed no_patch))
                λ _. add_event-IsGentle (codes "payout.reversed") t.id

  -- The body of a database transaction that goes by the status of the locked row.
  locked-IsGentle :
      (id : ℕ) (test : Transaction → Bool) (body : Transaction → Action Desk (Unit {0}))
      → ((t : Transaction) → IsGentle (body t))
      → IsGentle
          (in_transaction (on_table (lock_within id) >>= λ t. if test t then body t else pure tt))
  locked-IsGentle id test body h =
      in_transaction-IsGentle
        {m = on_table (lock_within id) >>= λ t. if test t then body t else pure tt}
        (bind-IsGentle (on_table-IsGentle (lock_within id))
          λ t. if-IsGentle {m = body t} {k = pure tt} (test t) (h t) (pure-IsGentle tt))

  pub complete-IsGentle : (p : Payout) → IsGentle (complete p)
  unfolding complete complete_within
  complete-IsGentle p = bind-IsGentle (on_bank-IsGentle (clearing_account p.currency)) λ c.
      locked-IsGentle p.transaction_id is_processing (complete_processing p c)
        (complete_processing-IsGentle p c)

  pub fail-IsGentle : (p : Payout) (code reason : Text) → IsGentle (fail p code reason)
  unfolding fail fail_within
  fail-IsGentle p code reason =
      locked-IsGentle p.transaction_id is_processing (fail_processing p code reason)
        (fail_processing-IsGentle p code reason)

  pub reverse-IsGentle : (p : Payout) → IsGentle (reverse p)
  unfolding reverse reverse_within
  reverse-IsGentle p = bind-IsGentle (on_bank-IsGentle (clearing_account p.currency)) λ c.
      locked-IsGentle p.transaction_id is_successful (reverse_successful p c)
        (reverse_successful-IsGentle p c)
