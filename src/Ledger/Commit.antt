-- ===== src/Ledger/Commit.antt =====
-- Batches of statements, from BEGIN to COMMIT: what the triggers and the deferred check of
-- database/migrations/1790267201855-AddLedgerIntegrityTriggers.ts guarantee together.
use finstack.Base.{
  ◌≡◌, refl, sym, ap, ◌∙◌, ◌⊎◌, inl, inr, true, false, some, List, [], ◌∷◌, ◌++◌, ◌==◌, arith,
  Bool-cases,
}
use mathlib.Core.Path.{subst}
use mathlib.Core.List.{append-nil}
use finstack.Base.Lists.{
  length, drop, All, All-zip, All-append, all_by-All, all_by, any_by, filter_by, find_by-append,
  drop-append, filter_by-append, filter_by_none, any_by-found,
}
use finstack.Base.Result.{Result, ok, err}
use finstack.Base.Action.{after}
use finstack.Ledger.Types.{LedgerTransaction, LedgerEntry}
use finstack.Ledger.Store.{
  Ledger, find_transaction, is_balanced, sides_match, balanced_under, entry_balanced, commit_ok,
  finish, no_rows,
}
use finstack.Ledger.Accounts.{insert_account-IsSound, update_account-IsSound}
use finstack.Ledger.Extends.{Extends, Extends-refl, Extends-trans, run_statement-Extends}
use finstack.Ledger.Statements.{
  Statement, add_account, add_transaction, add_entry, update_account, change_transaction,
  change_entry, run_statement, run_statements, run_batch, run_batches,
}
use finstack.Ledger.Consistency.{IsSound, insert_entry-IsSound, insert_transaction-IsSound}

-- Between transactions: besides, every ledger transaction has two entries at least, and its debits,
-- its credits and its amount are equal.
pub record IsConsistent (l : Ledger) : Type 0 where
  pub sound : IsSound l
  pub balanced : All (λ t. is_balanced t l.entries ≡ true) l.transactions

-- Entries for other transactions leave a transaction's balance as it was.
is_balanced-append :
    (t : LedgerTransaction) (xs ys : List LedgerEntry)
    → any_by (λ e. e.ledger_transaction_id == t.id) ys ≡ false
    → is_balanced t (xs ++ ys) ≡ is_balanced t xs
unfolding is_balanced
is_balanced-append t xs ys h =
    let names = λ (e : LedgerEntry). e.ledger_transaction_id == t.id in
    ap (sides_match t) (
      filter_by-append names xs ys
      ∙ ap (◌++◌ (filter_by names xs)) (filter_by_none names ys h)
      ∙ append-nil (filter_by names xs))

-- A transaction that a checked entry names is balanced.
entry_balanced-named :
    (t : LedgerTransaction) (e : LedgerEntry) (l : Ledger)
    → find_transaction t.id l.transactions ≡ some t
    → (e.ledger_transaction_id == t.id) ≡ true
    → entry_balanced l e ≡ true
    → is_balanced t l.entries ≡ true
entry_balanced-named t e l found names h =
    let same : e.ledger_transaction_id ≡ t.id = ground arith in
    let reads : balanced_under l t.id ≡ is_balanced t l.entries = rw (found, balanced_under) refl in
    sym reads ∙ sym (ap (balanced_under l) same) ∙ h

-- A ledger that extends a balanced one, and passes the deferred check, is balanced.
commit_balances :
    (before l : Ledger)
    → Extends before l
    → All (λ t. is_balanced t before.entries ≡ true) before.transactions
    → All (λ t. find_transaction t.id before.transactions ≡ some t) before.transactions
    → commit_ok before l ≡ true
    → All (λ t. is_balanced t l.entries ≡ true) l.transactions
unfolding commit_ok
commit_balances before l ext old indexed passed = subst (All _) (sym ext.transactions_eq) (
    All-append _ before.transactions ext.new_transactions
      (All-zip _ _ _ before.transactions older old indexed)
      (all_by-All _ ext.new_transactions newer))
  where
    newer : all_by (λ t. is_balanced t l.entries) ext.new_transactions ≡ true
    newer =
        subst (λ ts. all_by (λ t. is_balanced t l.entries) ts ≡ true)
          (ap (drop (length before.transactions)) ext.transactions_eq
            ∙ drop-append before.transactions ext.new_transactions)
          (ground arith)

    checked : All (λ e. entry_balanced l e ≡ true) ext.new_entries
    checked = all_by-All _ ext.new_entries (
        subst (λ es. all_by (entry_balanced l) es ≡ true)
          (ap (drop (length before.entries)) ext.entries_eq
            ∙ drop-append before.entries ext.new_entries)
          (ground arith))

    older :
        (t : LedgerTransaction)
        → is_balanced t before.entries ≡ true
        → find_transaction t.id before.transactions ≡ some t
        → is_balanced t l.entries ≡ true
    older t bal found =
        elim (Bool-cases (any_by (λ e. e.ledger_transaction_id == t.id) ext.new_entries)) [
          | inl hit ↦
              let (e, good, names) =
                any_by-found _ (λ e. e.ledger_transaction_id == t.id) ext.new_entries checked hit in
              entry_balanced-named t e l
                (rw ext.transactions_eq (
                  find_by-append (λ u. u.id == t.id) before.transactions ext.new_transactions t
                    found))
                names good
          | inr miss ↦
              rw (ext.entries_eq, is_balanced-append t before.entries ext.new_entries miss) bal
        ]

run_statement-IsSound : (st : Statement) (l : Ledger) → IsSound l → IsSound (run_statement st l).1
unfolding run_statement
run_statement-IsSound (add_account a) l s =
    insert_account-IsSound (record a { id = l.next_id }) l refl s
run_statement-IsSound (add_transaction t) l s =
    insert_transaction-IsSound (record t { id = l.next_id; created_at = l.clock }) l refl s
run_statement-IsSound (add_entry e) l s =
    insert_entry-IsSound (record e { id = l.next_id; created_at = l.clock }) l s
run_statement-IsSound (update_account id c) l s = update_account-IsSound id c l s
run_statement-IsSound change_transaction l s = s
run_statement-IsSound change_entry l s = s

-- A statement that fails ends the run.
run_statements_cases :
    (st : Statement) (ss : List Statement) (l : Ledger)
    → ((run_statements (st ∷ ss) l).1 ≡ (run_statement st l).1)
      ⊎ (run_statements (st ∷ ss) l ≡ run_statements ss (run_statement st l).1)
unfolding run_statements
run_statements_cases st ss l = split (run_statement st l)
  where
    split :
        (r : Result (Unit {0}) × Ledger)
        → ((after r (λ _. run_statements ss)).1 ≡ r.1)
          ⊎ (after r (λ _. run_statements ss) ≡ run_statements ss r.1)
    split (ok tt, k) = inr refl
    split (err x, k) = inl refl

run_statements-keeps :
    (ss : List Statement) (l : Ledger)
    → IsSound l
    → IsSound (run_statements ss l).1 × Extends l (run_statements ss l).1
run_statements-keeps [] l s = unfold run_statements in (s, Extends-refl l)
run_statements-keeps (st ∷ ss) l s =
    let next = run_statement-IsSound st l s in
    let (sound, ext) = run_statements-keeps ss (run_statement st l).1 next in
    elim (run_statements_cases st ss l) [
      | inl stopped ↦ rw stopped (next, run_statement-Extends st l)
      | inr went ↦
          rw went (sound, Extends-trans l (run_statement st l).1 _ (run_statement-Extends st l) ext)
    ]

pub finish-IsConsistent :
    {A : Type 0} (before : Ledger) (r : Result A × Ledger)
    → IsConsistent before
    → IsSound r.1
    → Extends before r.1
    → IsConsistent (finish before r).1
unfolding finish
finish-IsConsistent before (err x, l) h s ext = h
finish-IsConsistent before (ok a, l) h s ext = elim (Bool-cases (commit_ok before l)) [
  | inl passed ↦ rw passed (record {
    sound = s;
    balanced = commit_balances before l ext h.balanced h.sound.indexed passed;
  })
  | inr refused ↦ rw refused h
]

run_batch-IsConsistent :
    (ss : List Statement) (l : Ledger) → IsConsistent l → IsConsistent (run_batch ss l)
unfolding run_batch
run_batch-IsConsistent ss l h =
    let (sound, ext) = run_statements-keeps ss l h.sound in
    finish-IsConsistent l (run_statements ss l) h sound ext

-- Whatever batches of statements run on a consistent ledger, each in a database transaction of its
-- own, the ledger that they leave is consistent: each cached balance is the sum of the account's
-- entries, no account is overdrawn that may not be, each entry has the currency of its account and
-- of its transaction, and each ledger transaction is balanced.
pub run_batches-IsConsistent :
    (bs : List (List Statement)) (l : Ledger) → IsConsistent l → IsConsistent (run_batches bs l)
unfolding run_batches
run_batches-IsConsistent [] l h = h
run_batches-IsConsistent (b ∷ bs) l h =
    run_batches-IsConsistent bs (run_batch b l) (run_batch-IsConsistent b l h)

pub no_rows-IsConsistent : IsConsistent no_rows
no_rows-IsConsistent = record {
  sound = record {
    cached = tt;
    covered = tt;
    matched = tt;
    fresh_accounts = tt;
    fresh_transactions = tt;
    known = tt;
    indexed = tt;
  };
  balanced = tt;
}
