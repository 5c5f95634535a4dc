-- ===== src/Payouts/Settled.antt =====
-- A payout is settled once: `complete` and `fail` of payouts.service.ts go by the status of its locked
-- transaction.
use finstack.Base.{
  Bool-cases, arith, inl, inr, ℕ, ◌≡◌, refl, sym, ◌∙◌, ap, true, false, some, ◌++◌, if◌then◌else◌,
  ==_iff,
}
use mathlib.Core.Path.{subst}
use finstack.Base.Lists.{find_by-passes}
use finstack.Base.Text.{Text, codes}
use finstack.Base.Result.{Result, ok, err, Error}
use finstack.Ledger.Unposted.{commit_ok-same}
use finstack.Ledger.Store.{commit_ok}
use finstack.Base.Action.{Action, after, after-eq-ok, after-ok, ◌>>=◌, ◌>>◌, pure, gets}
use finstack.Ledger.Types.{LedgerAccount}
use finstack.Ledger.Posting.{Uuids}
use finstack.Transactions.Status.{TransactionStatus, processing, successful, same_status}
use finstack.Transactions.Table.{
  Transaction, TransitionPatch, find_row, has_transaction_id, lock_within, transition,
}
use finstack.Transactions.Changed.{transition-status}
use finstack.Payouts.Desk.{Payout, Desk, on_bank, on_table, in_transaction, undone, add_event}
use finstack.Wallets.Wallet.{reserved_balance}
use finstack.Wallets.Access.{get_wallet, clearing_account, post_movement_within}
use finstack.Wallets.Movements.{moved, collect_fee_within}
use finstack.Payouts.Settle.{
  if_fee, movement_of, success_patch, is_processing, complete_within, complete, complete_processing,
  fail_within, fail,
}

-- Where the locked row is not processing, `fail` changes nothing.
fail-closed :
    ⦃u : Uuids⦄
    → (p : Payout) (code reason : Text) (d : Desk) (t : Transaction)
    → find_row p.transaction_id d.transactions ≡ some t
    → is_processing t ≡ false
    → fail p code reason d ≡ (ok tt, d)
unfolding fail fail_within
fail-closed p code reason d t found closed =
    rw (found, lock_within) (rw (closed, commit_ok-same d.bank.ledger d.bank.ledger refl refl) refl)

module _ ⦃u : Uuids⦄ where
  -- The row of the transaction has the status.
  abbrev pub HasStatus : ℕ → TransactionStatus → Desk → Type 0
  HasStatus id status d =
      (t : Transaction) × (find_row id d.transactions ≡ some t) × (t.status ≡ status)

  after_transition :
      (id event_id : ℕ) (to : TransactionStatus) (patch : TransitionPatch) (event : Text) (d : Desk)
      → ((on_table (transition id to patch) >> add_event event event_id) d).0 ≡ ok tt
      → HasStatus id to ((on_table (transition id to patch) >> add_event event event_id) d).1
  after_transition id event_id to patch event d done =
      let step = on_table (transition id to patch) in
      let (t, changed, _) = after-eq-ok (step d) (λ _. add_event event event_id) done in
      let (found, is) = transition-status id to patch d.transactions t (ap (λ r. r.0) changed) in
      let end : (step >> add_event event event_id) d ≡ add_event event event_id (step d).1 =
        after-ok (step d) (λ _. add_event event event_id) changed in
      rw end (t, found, is)

  -- A body whose last steps give the row the status.
  record Ends (id : ℕ) (status : TransactionStatus) (m : Action Desk (Unit {0})) : Type 0 where
    pub on : (d : Desk) → (m d).0 ≡ ok tt → HasStatus id status (m d).1

  bind-Ends :
      {A : Type 0} (m : Action Desk A) (f : A → Action Desk (Unit {0})) {id : ℕ}
      {status : TransactionStatus}
      → ((a : A) → Ends id status (f a))
      → Ends id status (m >>= f)
  bind-Ends {A} m f {id} {status} h = record { on = λ d. go (m d) }
    where
      go : (r : Result A × Desk) → (after r f).0 ≡ ok tt → HasStatus id status (after r f).1
      go (ok a, e) done = (h a).on e done
      go (err x, e) done = absurd cc

  transition-Ends :
      (id : ℕ) (to : TransactionStatus) (patch : TransitionPatch) (event : Text)
      → Ends id to (on_table (transition id to patch) >> add_event event id)
  transition-Ends id to patch event = record { on = after_transition id id to patch event }

  complete_processing-Ends :
      (p : Payout) (c : LedgerAccount) (t : Transaction)
      → Ends t.id successful (complete_processing p c t)
  complete_processing-Ends p c t = bind-Ends (on_bank (get_wallet p.wallet_id)) _ λ w.
      bind-Ends
        (on_bank (
          post_movement_within p.currency
            (movement_of p.amount (codes "payout:" ++ p.reference) (codes "Payout " ++ p.reference))
            (moved w.reserved_account_id c.id p.amount)))
        _
        λ posted.
          bind-Ends
            (if_fee t (
              collect_fee_within p.wallet_id reserved_balance (
                movement_of t.fee_amount (codes "fee:payout:" ++ p.reference)
                  (codes "Fee for payout " ++ p.reference))))
            _
            λ _. bind-Ends (gets (λ d. d.clock)) _ λ now.
              transition-Ends t.id successful (success_patch p posted now)
                (codes "payout.successful")

  in_transaction-ok :
      (m : Action Desk (Unit {0})) (d : Desk)
      → (in_transaction m d).0 ≡ ok tt
      → ((m d).0 ≡ ok tt) × (in_transaction m d ≡ m d)
  in_transaction-ok m d = go (m d)
    where
      go :
          (r : Result (Unit {0}) × Desk) → (undone d r).0 ≡ ok tt → (r.0 ≡ ok tt) × (undone d r ≡ r)
      go (ok tt, e) h = elim (Bool-cases (commit_ok d.bank.ledger e.bank.ledger)) [
        | inl balanced ↦ (refl, rw balanced refl)
        | inr refused ↦
            let thrown : (undone d (ok tt, e)).0 ≡ err Error.unbalanced_commit = rw refused refl in
            absurd (ground (arith, thrown, h))
      ]
      go (err x, e) h = absurd cc

  complete_within-processing :
      (p : Payout) (c : LedgerAccount) (d : Desk) (t : Transaction)
      → find_row p.transaction_id d.transactions ≡ some t
      → is_processing t ≡ true
      → complete_within p c d ≡ complete_processing p c t d
  unfolding complete_within
  complete_within-processing p c d t found open_row =
      let rest =
        λ (s : Transaction). if is_processing s then complete_processing p c s else pure tt in
      let read : on_table (lock_within p.transaction_id) d ≡ (ok t, d) = rw found refl in
      after-ok (on_table (lock_within p.transaction_id) d) rest read ∙ rw open_row refl

  complete_within-status :
      (p : Payout) (c : LedgerAccount) (d : Desk) (t : Transaction)
      → find_row p.transaction_id d.transactions ≡ some t
      → is_processing t ≡ true
      → (complete_within p c d).0 ≡ ok tt
      → HasStatus p.transaction_id successful (complete_within p c d).1
  complete_within-status p c d t found open_row done =
      let named : t.id ≡ p.transaction_id =
        (==_iff t.id p.transaction_id).0
          (find_by-passes (has_transaction_id p.transaction_id) d.transactions t found) in
      let same = complete_within-processing p c d t found open_row in
      subst (λ i. HasStatus i successful (complete_within p c d).1) named
        (subst (λ r. HasStatus t.id successful r.1) (sym same)
          ((complete_processing-Ends p c t).on d (subst (λ r. r.0 ≡ ok tt) same done)))

  complete-status :
      (p : Payout) (d : Desk) (t : Transaction)
      → find_row p.transaction_id d.transactions ≡ some t
      → is_processing t ≡ true
      → (complete p d).0 ≡ ok tt
      → HasStatus p.transaction_id successful (complete p d).1
  unfolding complete
  complete-status p d t found open_row done =
      let clear = on_bank (clearing_account p.currency) in
      let rest = λ (c : LedgerAccount). in_transaction (complete_within p c) in
      let (c, cleared, run) = after-eq-ok (clear d) rest done in
      let e = (clear d).1 in
      let (within, same) = in_transaction-ok (complete_within p c) e run in
      let end : after (clear d) rest ≡ complete_within p c e =
        after-ok (clear d) rest cleared ∙ same in
      subst (λ r. HasStatus p.transaction_id successful r.1) (sym end)
        (complete_within-status p c e t found open_row within)

  -- A payout of which the transaction was processing, and which `complete` has returned for: the
  -- transaction is successful, and a later `fail`, whatever it is told, changes nothing, so that
  -- the hold is not released after it was paid out.
  pub complete-fail :
      (p : Payout) (code reason : Text) (d : Desk) (t : Transaction)
      → find_row p.transaction_id d.transactions ≡ some t
      → is_processing t ≡ true
      → (complete p d).0 ≡ ok tt
      → HasStatus p.transaction_id successful (complete p d).1
        × (fail p code reason (complete p d).1 ≡ (ok tt, (complete p d).1))
  complete-fail p code reason d t found open_row done =
      let (s, there, is) = complete-status p d t found open_row done in
      (
        (s, there, is),
        fail-closed p code reason (complete p d).1 s there (ap (λ x. same_status x processing) is),
      )
