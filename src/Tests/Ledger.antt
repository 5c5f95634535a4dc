-- ===== src/Tests/Ledger.antt =====
-- The theorems of the ledger (src/ledger) on two accounts and one posting between them.
use finstack.Base.{
  ℕ, zero, suc, ◌≡◌, refl, sym, ap, ◌∙◌, Bool, true, false, none, some, List, [], ◌∷◌, arith,
}
use mathlib.Core.Path.{subst}
use finstack.Base.Int.{pos, ◌+ℤ◌, ◌-ℤ◌}
use finstack.Base.Text.{Text, codes, text_eq}
use finstack.Base.Lists.{length}
use finstack.Base.Result.{ok, err, Error}
use finstack.Base.Action.{pure}
use finstack.Ledger.Types.{LedgerAccount, EntryDirection, debit, credit, liability}
use finstack.Ledger.Posting.{PostingInput, Uuids, validate_posting}
use finstack.Ledger.Store.{Ledger, find_account, no_rows}
use finstack.Ledger.Statements.{Statement, add_account, run_batches}
use finstack.Ledger.Commit.{IsConsistent, run_batches-IsConsistent, no_rows-IsConsistent}
use finstack.Ledger.Service.{PostedTransaction, find_reference}
use finstack.Ledger.PostWithin.{
  post_within, trial_balance, find_balance_discrepancies, reversal_input,
}
use finstack.Ledger.Outcome.{posted, posted_result}
use finstack.Ledger.Keeps.{pure-Keeps}
use finstack.Ledger.Trial.{Distinct}
use finstack.Ledger.Balance.{validate_posting-balanced, debits_less_credits}
use finstack.Ledger.Posted.{post_within-trial_balance, post_within-find_account}
use finstack.Ledger.Replay.{post_within_again}
use finstack.Ledger.Post.{post, reverse}
use finstack.Ledger.Committed.{post-IsConsistent}
use finstack.Ledger.Reversal.{reverse-post_within}
use finstack.Ledger.ReversedOnce.{reverse_again}
use finstack.Ledger.Audit.{find_balance_discrepancies_none}

-- Ids written in unary.
abbrev tally : ℕ → Text
tally zero = []
tally (suc n) = 97 ∷ tally n

length-tally : (n : ℕ) → length (tally n) ≡ n
length-tally zero = refl
length-tally (suc n) = ap (λ k. suc k) (length-tally n)

instance pub unary_uuids : Uuids
unary_uuids = record {
  id_text = tally;
  id_text_injective = λ m n h. sym (length-tally m) ∙ ap length h ∙ length-tally n;
}

abbrev account_row : EntryDirection → Bool → LedgerAccount
account_row normal overdraft = record {
  id = 0;
  code = none;
  name = codes "account";
  type = liability;
  normal_balance = normal;
  currency = codes "NGN";
  balance = pos 0;
  allow_negative_balance = overdraft;
}

abbrev set_up : List (List Statement)
set_up = (add_account (account_row debit true) ∷ add_account (account_row credit false) ∷ []) ∷ []

-- The ledger with account 0, which may be overdrawn, and account 1, which may not.
abbrev books : Ledger
books = record {
  accounts =
      record (account_row debit true) { id = 0 }
      ∷ record (account_row credit false) { id = 1 }
      ∷ [];
  transactions = [];
  entries = [];
  next_id = 2;
  clock = 0;
}

set_up-books : run_batches set_up no_rows ≡ books
unfolding run_batches
set_up-books = refl

books-IsConsistent : IsConsistent books
books-IsConsistent =
    subst IsConsistent set_up-books (run_batches-IsConsistent set_up no_rows no_rows-IsConsistent)

abbrev deposit : PostingInput
deposit = record {
  reference = codes "dep";
  description = codes "deposit";
  currency = codes "NGN";
  entries =
      record { account_id = 0; direction = debit; amount = pos 500 }
      ∷ record { account_id = 1; direction = credit; amount = pos 500 }
      ∷ [];
  reversal_of_id = none;
}

abbrev deposited : PostedTransaction
deposited = posted_result (pos 500) deposit books

deposit-runs : post_within deposit books ≡ (ok deposited, posted (pos 500) deposit books)
unfolding post_within ◌+ℤ◌
deposit-runs = refl

deposit-valid : validate_posting deposit ≡ ok (pos 500)
unfolding validate_posting ◌+ℤ◌
deposit-valid = refl

deposit-ok : (post_within deposit books).0 ≡ ok deposited
deposit-ok = ap (λ r. r.0) deposit-runs

-- Another posting under the same reference.
abbrev conflicting : PostingInput
conflicting = record deposit { description = codes "other" }

conflicting-valid : validate_posting conflicting ≡ ok (pos 500)
unfolding validate_posting ◌+ℤ◌
conflicting-valid = refl

Distinct-books : Distinct books.accounts
Distinct-books = ((ground arith, tt), (tt, tt))

abbrev deposited_books : Ledger
deposited_books = posted (pos 500) deposit books

abbrev undone : PostedTransaction
undone =
    posted_result (pos 500)
      (reversal_input (codes "rev") (codes "undo") deposited.transaction deposited_books)
      deposited_books

undone-ok : (reverse 2 (codes "rev") (codes "undo") deposited_books).0 ≡ ok undone
unfolding reverse ◌+ℤ◌ ◌-ℤ◌
undone-ok = refl

undone_after-ok :
    (reverse deposited.transaction.id (codes "rev") (codes "undo") (post_within deposit books).1).0
    ≡ ok undone
undone_after-ok =
    subst (λ r. (reverse 2 (codes "rev") (codes "undo") r.1).0 ≡ ok undone) (sym deposit-runs)
      undone-ok

unused_reference :
    find_reference
      (codes "again")
      (reverse 2 (codes "rev") (codes "undo") deposited_books).1.transactions
    ≡ none
unfolding reverse ◌+ℤ◌ ◌-ℤ◌
unused_reference = refl

books_after-IsConsistent : IsConsistent (post (pure tt) deposit books).1
books_after-IsConsistent =
    post-IsConsistent (pure tt) deposit books (pure-Keeps tt) books-IsConsistent

run_batches-IsConsistent_example : IsConsistent (run_batches set_up no_rows)
run_batches-IsConsistent_example = run_batches-IsConsistent set_up no_rows no_rows-IsConsistent

post-IsConsistent_example : IsConsistent (post (pure tt) deposit books).1
post-IsConsistent_example =
    post-IsConsistent (pure tt) deposit books (pure-Keeps tt) books-IsConsistent

post_within-trial_balance_example :
    (trial_balance (codes "NGN") (post_within deposit books).1).0
      +ℤ (trial_balance (codes "NGN") books).1
    ≡ (trial_balance (codes "NGN") books).0
      +ℤ (trial_balance (codes "NGN") (post_within deposit books).1).1
post_within-trial_balance_example =
    post_within-trial_balance deposit books deposited (codes "NGN") books-IsConsistent.sound
      Distinct-books deposit-ok

post_within-find_account_example :
    find_account 1 (post_within deposit books).1.accounts
    ≡ some (record (account_row credit false) { id = 1; balance = pos 500 })
unfolding ◌+ℤ◌
post_within-find_account_example =
    post_within-find_account deposit books deposited 1 deposit-ok refl

post_within_again_example :
    post_within conflicting (post_within deposit books).1
    ≡ (err Error.ledger_reference_conflict, (post_within deposit books).1)
unfolding text_eq
post_within_again_example =
    post_within_again deposit conflicting books deposited (pos 500) books-IsConsistent.sound
      deposit-ok refl refl conflicting-valid

reverse-post_within_example :
    find_account 1
      (reverse deposited.transaction.id
        (codes "rev")
        (codes "undo")
        (post_within deposit books).1).1.accounts
    ≡ find_account 1 books.accounts
reverse-post_within_example =
    reverse-post_within deposit books deposited undone (codes "rev") (codes "undo") 1
      books-IsConsistent.sound deposit-ok refl undone_after-ok refl

reverse_again_example :
    (x : Error) × (reverse 2
        (codes "again")
        (codes "undo")
        (reverse 2 (codes "rev") (codes "undo") deposited_books).1
      ≡ (err x, (reverse 2 (codes "rev") (codes "undo") deposited_books).1))
reverse_again_example =
    reverse_again 2 (codes "rev") (codes "undo") (codes "again") (codes "undo") deposited_books
      undone undone-ok refl unused_reference

find_balance_discrepancies_none_example : find_balance_discrepancies (run_batches set_up books) ≡ []
find_balance_discrepancies_none_example =
    find_balance_discrepancies_none set_up books books-IsConsistent

validate_posting-balanced_example : debits_less_credits deposit.entries ≡ pos 0
validate_posting-balanced_example = validate_posting-balanced deposit (pos 500) deposit-valid
