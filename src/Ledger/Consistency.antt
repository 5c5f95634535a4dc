-- ===== src/Ledger/Consistency.antt =====
-- What the triggers of the database keep true of the ledger tables, whoever runs the statements.
mod Rows
pub use Rows.{
  share, entry_sum, IsCached, entry_sum-snoc, apply_balance-share, account_has_currency-snoc,
  entry_sum_unnamed, map-account_has_currency,
}
use Rows.{
  map-IsCached, map-covered, map-fresh, account_has_currency-below, transaction_has_currency-snoc,
}
use mathlib.Core.Path.{subst}
use finstack.Base.{
  ℕ, suc, ◌<◌, ◌≡◌, refl, ◌⊎◌, sym, ap, ◌∙◌, Bool, true, false, ◌&&◌, not, Option, none, some, List,
  [], ◌∷◌, ◌++◌, map, ◌==◌, if◌then◌else◌, arith, Bool-cases, inl, inr, ==_iff,
}
use finstack.Base.Int.{ℤ, pos, leb_ℤ, ◌+ℤ◌, int_laws, +ℤ_assoc, +ℤ_zero, eqb_ℤ_iff, eq_of_parts}
use finstack.Base.Lists.{
  length, All, All-map, All-snoc, All-append, all_by-All, all_by, any_by, find_by, find_by-All,
  find_by-append, find_by-append_new, find_by-passes,
}
use finstack.Base.Text.{Text, text_eq, text_eq_iff}
use finstack.Base.Result.{Result, ok, err, Error}
use finstack.Ledger.Types.{LedgerAccount, LedgerTransaction, LedgerEntry, EntryDirection, signed}
use finstack.Ledger.Store.{
  Ledger, has_id, find_account, find_transaction, non_negative, account_has_currency,
  transaction_has_currency, entry_currency_ok, apply_balance, applies_within_check, insert_entry,
  insert_transaction, insert_account, reversal_taken,
}

-- During a database transaction. `balanced` of the commit comes on top of it.
pub record IsSound (l : Ledger) : Type 0 where
  -- the cached balance is the sum of the entries
  pub cached : All (IsCached l.entries) l.accounts
  -- no account is overdrawn that may not be
  pub covered : All (λ a. non_negative a ≡ true) l.accounts
  -- an entry has the currency of its account and of its transaction
  pub matched : All (λ e. entry_currency_ok l e ≡ true) l.entries
  pub fresh_accounts : All (λ a. a.id < l.next_id) l.accounts
  pub fresh_transactions : All (λ t. t.id < l.next_id) l.transactions
  pub known : All (λ e. e.ledger_account_id < l.next_id) l.entries
  -- a transaction's id is its own
  pub indexed : All (λ t. find_transaction t.id l.transactions ≡ some t) l.transactions

-- The ledger after an entry that nothing refused.
abbrev pub with_entry : LedgerEntry → Ledger → Ledger
with_entry e l = record l {
  accounts = map (apply_balance e) l.accounts;
  entries = l.entries ++ e ∷ [];
  next_id = suc l.next_id;
}

-- An insert is refused, and changes nothing, or it was named and within the CHECK constraint.
pub insert_entry-cases :
    (e : LedgerEntry) (l : Ledger)
    → ((x : Error) × (insert_entry e l ≡ (err x, l)))
      ⊎ ((insert_entry e l ≡ (ok tt, with_entry e l))
          × (entry_currency_ok l e ≡ true)
          × (leb_ℤ e.amount (pos 0) ≡ false)
          × (all_by (applies_within_check e) l.accounts ≡ true))
unfolding insert_entry
insert_entry-cases e l = elim (Bool-cases (entry_currency_ok l e)) [
  | inl named ↦ elim (Bool-cases (leb_ℤ e.amount (pos 0))) [
    | inl bad ↦ inl (Error.amount_positive_check, rw (named, bad))
    | inr good ↦ elim (Bool-cases (all_by (applies_within_check e) l.accounts)) [
      | inl within ↦ inr (rw (named, good, within) refl, named, good, within)
      | inr over ↦ inl (Error.non_negative_check, rw (named, good, over))
    ]
  ]
  | inr mismatched ↦ inl (Error.entry_currency_check, rw mismatched)
]

with_entry-IsSound :
    (e : LedgerEntry) (l : Ledger)
    → entry_currency_ok l e ≡ true
    → all_by (applies_within_check e) l.accounts ≡ true
    → IsSound l
    → IsSound (with_entry e l)
with_entry-IsSound e l named within s = record {
  cached = map-IsCached l.entries e l.accounts s.cached;
  covered = map-covered e l.accounts s.covered (all_by-All _ l.accounts within);
  matched =
      All-snoc _ l.entries e (All-map _ _ l.entries (λ x h. ground (arith, kept x)) s.matched)
        (ground (arith, kept e));
  fresh_accounts = map-fresh e l.next_id l.accounts s.fresh_accounts;
  fresh_transactions = All-map _ _ l.transactions (λ t h. omega arith) s.fresh_transactions;
  known =
      All-snoc _ l.entries e (All-map _ _ l.entries (λ x h. omega arith) s.known)
        (omega (arith, below));
  indexed = s.indexed;
}
  where
    kept :
        (x : LedgerEntry)
        → account_has_currency x.currency x.ledger_account_id (map (apply_balance e) l.accounts)
          ≡ account_has_currency x.currency x.ledger_account_id l.accounts
    kept x = map-account_has_currency x.currency x.ledger_account_id e l.accounts

    below : e.ledger_account_id < l.next_id
    below =
        account_has_currency-below e.currency e.ledger_account_id l.next_id l.accounts
          s.fresh_accounts (ground arith)

pub insert_entry-IsSound : (e : LedgerEntry) (l : Ledger) → IsSound l → IsSound (insert_entry e l).1
insert_entry-IsSound e l s = elim (insert_entry-cases e l) [
  | inl (x, refused) ↦ rw refused s
  | inr (done, named, _, within) ↦ rw done (with_entry-IsSound e l named within s)
]

-- A row with a new id is found under it, and the older rows under theirs.
find_transaction-none :
    (n : ℕ) (ts : List LedgerTransaction) → All (λ t. t.id < n) ts → find_transaction n ts ≡ none
find_transaction-none n [] h = refl
find_transaction-none n (t ∷ ts) h = ground (arith, find_transaction-none n ts h.1)

abbrev pub with_transaction : LedgerTransaction → Ledger → Ledger
with_transaction t l = record l { transactions = l.transactions ++ t ∷ []; next_id = suc l.next_id }

pub insert_transaction-cases :
    (t : LedgerTransaction) (l : Ledger)
    → ((x : Error) × (insert_transaction t l ≡ (err x, l)))
      ⊎ (insert_transaction t l ≡ (ok tt, with_transaction t l))
unfolding insert_transaction
insert_transaction-cases t l = elim (Bool-cases (leb_ℤ t.amount (pos 0))) [
  | inl bad ↦ inl (Error.amount_positive_check, rw bad)
  | inr good ↦ elim (Bool-cases (any_by (λ s. text_eq s.reference t.reference) l.transactions)) [
    | inl taken ↦ inl (Error.unique_reference, rw (good, taken))
    | inr free ↦ elim (Bool-cases (reversal_taken t.reversal_of_id l.transactions)) [
      | inl again ↦ inl (Error.unique_reversal, rw (good, free, again))
      | inr first ↦ inr (rw (good, free, first))
    ]
  ]
]

with_transaction-IsSound :
    (t : LedgerTransaction) (l : Ledger)
    → t.id ≡ l.next_id
    → IsSound l
    → IsSound (with_transaction t l)
with_transaction-IsSound t l new s = record {
  cached = s.cached;
  covered = s.covered;
  matched =
      All-map _ _ l.entries
        (λ x h. ground (
          arith,
          transaction_has_currency-snoc x.currency x.ledger_transaction_id l.transactions t,
        ))
        s.matched;
  fresh_accounts = All-map _ _ l.accounts (λ a h. omega arith) s.fresh_accounts;
  fresh_transactions =
      All-snoc _ l.transactions t
        (All-map _ _ l.transactions (λ x h. omega arith) s.fresh_transactions) (omega arith);
  known = All-map _ _ l.entries (λ x h. omega arith) s.known;
  indexed =
      All-snoc _ l.transactions t
        (All-map _ _ l.transactions
          (λ x h. find_by-append (λ y. y.id == x.id) l.transactions (t ∷ []) x h) s.indexed)
        (find_by-append_new (λ y. y.id == t.id) l.transactions (t ∷ [])
            (rw new (find_transaction-none l.next_id l.transactions s.fresh_transactions))
          ∙ ground arith);
}

-- The id is the one that the database generated.
pub insert_transaction-IsSound :
    (t : LedgerTransaction) (l : Ledger)
    → t.id ≡ l.next_id
    → IsSound l
    → IsSound (insert_transaction t l).1
insert_transaction-IsSound t l new s = elim (insert_transaction-cases t l) [
  | inl (x, refused) ↦ rw refused s
  | inr done ↦ rw done (with_transaction-IsSound t l new s)
]
