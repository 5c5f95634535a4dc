-- ===== src/Ledger/Outcome.antt =====
-- The outcomes of `postWithin` (ledger.service.ts): it throws, it replays, or it posts, and then the
-- tables are the ones of Ledger/Effect.antt.
use finstack.Base.{
  ℕ, suc, ◌≡◌, refl, ◌⊎◌, inl, inr, false, Option, none, some, List, map, arith, Option-cases,
}
use finstack.Base.Int.{ℤ}
use finstack.Base.Result.{Result, ok, err}
use finstack.Base.Action.{◌>>=◌, after-err, pure, Throws, Outcome, Outcome-reads}
use finstack.Ledger.Types.{LedgerTransaction}
use finstack.Ledger.Posting.{PostingInput, Uuids, validate_posting}
use finstack.Ledger.Store.{Ledger}
use finstack.Ledger.Consistency.{insert_transaction-cases, with_transaction}
use finstack.Ledger.Service.{
  PostedTransaction, find_reference, lock_accounts, assert_not_reversed, assert_currency,
  assert_sufficient_funds, transaction_row, save_entries,
}
use finstack.Ledger.PostWithin.{
  assert_reversible, save_transaction, post_new, replay, replay_of, post_within,
}
use finstack.Ledger.Effect.{with_entries, entry_rows, save_entries-cases}

-- The tables after a posting, and what `postWithin` returns.
abbrev pub posted : ℤ → PostingInput → Ledger → Ledger
posted amount input l =
    with_entries l.next_id input.currency input.entries
      (with_transaction (transaction_row amount input l) l)

abbrev pub posted_result : ℤ → PostingInput → Ledger → PostedTransaction
posted_result amount input l = record {
  transaction = transaction_row amount input l;
  entries = entry_rows l.next_id input.currency input.entries (suc l.next_id) l.clock;
  replayed = false;
}

assert_reversible-reads : (o : Option ℕ) (l : Ledger) → (assert_reversible o l).1 ≡ l
unfolding assert_not_reversed
assert_reversible-reads none l = refl
assert_reversible-reads (some id) l = ground arith

lock_accounts-reads : (ids : List ℕ) (l : Ledger) → (lock_accounts ids l).1 ≡ l
unfolding lock_accounts
lock_accounts-reads ids l = ground arith

save_transaction-cases :
    (amount : ℤ) (input : PostingInput) (l : Ledger)
    → Outcome
        (save_transaction amount input l)
        (ok (transaction_row amount input l), with_transaction (transaction_row amount input l) l)
save_transaction-cases amount input l =
    elim (insert_transaction-cases (transaction_row amount input l) l) [
      | inl (x, refused) ↦ inl (x, rw refused refl)
      | inr done ↦ inr (rw done refl)
    ]

post_rows-cases :
    (amount : ℤ) (input : PostingInput) (l : Ledger)
    → Outcome
        ((do
          row ← save_transaction amount input
          rows ← save_entries row.id input.currency input.entries
          pure (record { transaction = row; entries = rows; replayed = false }))
          l)
        (ok (posted_result amount input l), posted amount input l)
post_rows-cases amount input l = elim (save_transaction-cases amount input l) [
  | inl (x, h) ↦ inl (x, after-err _ _ h)
  | inr done ↦
      elim (save_entries-cases l.next_id input.currency input.entries
        (with_transaction (transaction_row amount input l) l)) [
          | inl (x, h) ↦ inl (x, rw done (after-err _ _ h))
          | inr rows ↦ inr (rw (done, rows) refl)
        ]
]

post_new-cases :
    (amount : ℤ) (input : PostingInput) (l : Ledger)
    → Outcome (post_new amount input l) (ok (posted_result amount input l), posted amount input l)
unfolding post_new
post_new-cases amount input l =
    Outcome-reads (assert_reversible o l) l _ (assert_reversible-reads o l) λ _ _.
      Outcome-reads (lock_accounts ids l) l _ (lock_accounts-reads ids l) λ accounts _.
        Outcome-reads (assert_currency accounts input.currency, l) l _ refl
          λ _ _.
            Outcome-reads (assert_sufficient_funds accounts input.entries, l) l _ refl
              (λ _ _. post_rows-cases amount input l)
  where
    o : Option ℕ
    o = input.reversal_of_id

    ids : List ℕ
    ids = map (λ e. e.account_id) input.entries

module _ ⦃u : Uuids⦄ where
  -- `postWithin` throws; or its reference is posted already, and it replays and writes nothing; or
  -- the posting is valid, its reference is new, and the tables have exactly its rows and updates.
  pub post_within-cases :
      (input : PostingInput) (l : Ledger)
      → Throws (post_within input l)
        ⊎ ((t : LedgerTransaction) × (find_reference input.reference l.transactions ≡ some t)
            × (post_within input l ≡ (replay_of t input l, l)))
        ⊎ ((amount : ℤ) × (validate_posting input ≡ ok amount)
            × (find_reference input.reference l.transactions ≡ none)
            × (post_within input l ≡ (ok (posted_result amount input l), posted amount input l)))
  unfolding post_within replay
  post_within-cases input l = with_amount (validate_posting input) refl
    where
      with_amount :
          (r : Result ℤ)
          → validate_posting input ≡ r
          → Throws (post_within input l)
            ⊎ ((t : LedgerTransaction) × (find_reference input.reference l.transactions ≡ some t)
                × (post_within input l ≡ (replay_of t input l, l)))
            ⊎ ((amount : ℤ) × (validate_posting input ≡ ok amount)
                × (find_reference input.reference l.transactions ≡ none)
                × (post_within input l
                    ≡ (ok (posted_result amount input l), posted amount input l)))
      with_amount (err x) e = inl (x, rw e refl)
      with_amount (ok amount) e =
          elim (Option-cases (find_reference input.reference l.transactions)) [
            | inl new ↦ elim (post_new-cases amount input l) [
              | inl (x, h) ↦ inl (x, rw (e, new) h)
              | inr done ↦ inr (inr (amount, e, new, rw (e, new) done))
            ]
            | inr (t, found) ↦ inr (inl (t, found, rw (e, found) (rw (found, replay) refl)))
          ]
