-- ===== src/Ledger/Extends.antt =====
-- The transaction and entry tables only grow: what a statement adds comes after the rows that were
-- there (`ledger_prevent_mutation` of 1790267201855-AddLedgerIntegrityTriggers.ts).
use finstack.Base.{◌≡◌, refl, sym, ◌∙◌, inl, inr, List, [], ◌∷◌, ◌++◌, Bool-cases}
use mathlib.Core.List.{append_assoc, append-nil}
use finstack.Base.Lists.{all_by}
use finstack.Ledger.Types.{LedgerAccount, LedgerTransaction, LedgerEntry}
use finstack.Ledger.Store.{Ledger, insert_entry, insert_transaction, insert_account}
use finstack.Ledger.Accounts.{insert_account-cases, with_account}
use finstack.Ledger.Statements.{
  Statement, add_account, add_transaction, add_entry, update_account, change_transaction,
  change_entry, update_allowed, run_statement,
}
use finstack.Ledger.Consistency.{insert_entry-cases, insert_transaction-cases}

-- The rows that statements add, after those of `before`.
pub record Extends (before l : Ledger) : Type 0 where
  pub new_transactions : List LedgerTransaction
  pub new_entries : List LedgerEntry
  pub transactions_eq : l.transactions ≡ before.transactions ++ new_transactions
  pub entries_eq : l.entries ≡ before.entries ++ new_entries

pub Extends-refl : (l : Ledger) → Extends l l
Extends-refl l = record {
  new_transactions = [];
  new_entries = [];
  transactions_eq = sym (append-nil _);
  entries_eq = sym (append-nil _);
}

pub Extends-trans : (a b c : Ledger) → Extends a b → Extends b c → Extends a c
Extends-trans a b c h k = record {
  new_transactions = h.new_transactions ++ k.new_transactions;
  new_entries = h.new_entries ++ k.new_entries;
  transactions_eq =
      rw (k.transactions_eq, h.transactions_eq)
        (append_assoc a.transactions h.new_transactions k.new_transactions);
  entries_eq = rw (k.entries_eq, h.entries_eq) (append_assoc a.entries h.new_entries k.new_entries);
}

pub insert_entry-Extends : (e : LedgerEntry) (l : Ledger) → Extends l (insert_entry e l).1
insert_entry-Extends e l = elim (insert_entry-cases e l) [
  | inl (x, refused) ↦ rw refused (Extends-refl l)
  | inr (done, _, _, _) ↦ rw done (record {
    new_transactions = [];
    new_entries = e ∷ [];
    transactions_eq = sym (append-nil l.transactions);
    entries_eq = refl;
  })
]

pub insert_transaction-Extends :
    (t : LedgerTransaction) (l : Ledger) → Extends l (insert_transaction t l).1
insert_transaction-Extends t l = elim (insert_transaction-cases t l) [
  | inl (x, refused) ↦ rw refused (Extends-refl l)
  | inr done ↦ rw done (record {
    new_transactions = t ∷ [];
    new_entries = [];
    transactions_eq = refl;
    entries_eq = sym (append-nil l.entries);
  })
]

pub insert_account-Extends : (a : LedgerAccount) (l : Ledger) → Extends l (insert_account a l).1
insert_account-Extends a l = elim (insert_account-cases a l) [
  | inl (x, refused) ↦ rw refused (Extends-refl l)
  | inr (done, _, _) ↦ rw done (same_rows (with_account a l) refl refl)
]
  where
    same_rows : (k : Ledger) → k.transactions ≡ l.transactions → k.entries ≡ l.entries → Extends l k
    same_rows k ts es = record {
      new_transactions = [];
      new_entries = [];
      transactions_eq = ts ∙ sym (append-nil l.transactions);
      entries_eq = es ∙ sym (append-nil l.entries);
    }

pub run_statement-Extends : (st : Statement) (l : Ledger) → Extends l (run_statement st l).1
unfolding run_statement
run_statement-Extends (add_account a) l = insert_account-Extends (record a { id = l.next_id }) l
run_statement-Extends (add_transaction t) l =
    insert_transaction-Extends (record t { id = l.next_id; created_at = l.clock }) l
run_statement-Extends (add_entry e) l =
    insert_entry-Extends (record e { id = l.next_id; created_at = l.clock }) l
run_statement-Extends (update_account id c) l =
    elim (Bool-cases (all_by (update_allowed id c) l.accounts)) [
      | inl allowed ↦ rw allowed (record {
        new_transactions = [];
        new_entries = [];
        transactions_eq = sym (append-nil l.transactions);
        entries_eq = sym (append-nil l.entries);
      })
      | inr refused ↦ rw refused (Extends-refl l)
    ]
run_statement-Extends change_transaction l = Extends-refl l
run_statement-Extends change_entry l = Extends-refl l
