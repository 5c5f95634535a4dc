-- ===== src/Ledger/Audit.antt =====
-- ledger.service.ts: `findBalanceDiscrepancies` recomputes every balance from the entries.
use finstack.Base.{◌≡◌, refl, sym, ◌∙◌, true, not, List, [], ◌∷◌, arith}
use finstack.Base.Int.{zero_+ℤ, eqb_ℤ, eqb_ℤ_iff}
use finstack.Base.Lists.{All, filter_by}
use finstack.Ledger.Types.{LedgerAccount, LedgerEntry}
use finstack.Ledger.Store.{Ledger}
use finstack.Ledger.Statements.{Statement, run_batches}
use finstack.Ledger.Consistency.{IsCached, entry_sum}
use finstack.Ledger.Commit.{IsConsistent, run_batches-IsConsistent}
use finstack.Ledger.PostWithin.{computed_balance, find_balance_discrepancies}

computed_balance_lem :
    (a : LedgerAccount) (es : List LedgerEntry)
    → computed_balance a es ≡ entry_sum a.id a.normal_balance es
unfolding computed_balance
computed_balance_lem a [] = refl
computed_balance_lem a (e ∷ es) =
    ground (arith, computed_balance_lem a es, zero_+ℤ (entry_sum a.id a.normal_balance es))

no_discrepancy :
    (es : List LedgerEntry) (rows : List LedgerAccount)
    → All (IsCached es) rows
    → filter_by (λ a. not (eqb_ℤ a.balance (computed_balance a es))) rows ≡ []
no_discrepancy es [] h = refl
no_discrepancy es (a ∷ rows) h =
    let here : eqb_ℤ a.balance (computed_balance a es) ≡ true =
      (eqb_ℤ_iff a.balance (computed_balance a es)).1 (h.0 ∙ sym (computed_balance_lem a es)) in
    rw here (no_discrepancy es rows h.1)

-- Whatever batches of statements run on consistent tables, each ending in its commit or rolled
-- back, the audit that recomputes every balance from the entries reports no account.
pub find_balance_discrepancies_none :
    (bs : List (List Statement)) (l : Ledger)
    → IsConsistent l
    → find_balance_discrepancies (run_batches bs l) ≡ []
unfolding find_balance_discrepancies
find_balance_discrepancies_none bs l h =
    let k = run_batches bs l in
    rw (no_discrepancy k.entries k.accounts (run_batches-IsConsistent bs l h).sound.cached) refl
