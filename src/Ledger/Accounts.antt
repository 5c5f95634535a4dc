-- ===== src/Ledger/Accounts.antt =====
-- Account rows under INSERT and a direct UPDATE: the guard trigger `ledger_accounts_guard_balance` of
-- database/migrations/1790267201855-AddLedgerIntegrityTriggers.ts.
use finstack.Base.{
  ℕ, suc, ◌<◌, ◌≡◌, refl, sym, ◌∙◌, ◌⊎◌, inl, inr, true, List, [], ◌∷◌, ◌++◌, map, if◌then◌else◌,
  arith, Bool-cases,
}
use finstack.Base.Int.{pos, eqb_ℤ, eqb_ℤ_iff}
use finstack.Base.Lists.{All, All-map, All-snoc, all_by-All, all_by}
use finstack.Base.Text.{Text, text_eq, text_eq_iff}
use finstack.Base.Result.{ok, err, Error}
use finstack.Ledger.Types.{LedgerAccount, LedgerEntry}
use finstack.Ledger.Store.{
  Ledger, has_id, non_negative, account_has_currency, insert_account, code_taken,
}
use finstack.Ledger.Statements.{
  update_account, AccountChange, changed, update_allowed, run_statement,
}
use finstack.Ledger.Consistency.{IsSound, IsCached, account_has_currency-snoc, entry_sum_unnamed}

abbrev pub with_account : LedgerAccount → Ledger → Ledger
with_account a l = record l { accounts = l.accounts ++ a ∷ []; next_id = suc l.next_id }

pub insert_account-cases :
    (a : LedgerAccount) (l : Ledger)
    → ((x : Error) × (insert_account a l ≡ (err x, l)))
      ⊎ ((insert_account a l ≡ (ok tt, with_account a l))
          × (a.balance ≡ pos 0)
          × (non_negative a ≡ true))
unfolding insert_account
insert_account-cases a l = elim (Bool-cases (eqb_ℤ a.balance (pos 0))) [
  | inl zero_balance ↦ elim (Bool-cases (non_negative a)) [
    | inl within ↦ elim (Bool-cases (code_taken a.code l.accounts)) [
      | inl taken ↦ inl (Error.unique_code, rw (zero_balance, within, taken))
      | inr free ↦ inr (
        rw (zero_balance, within, free) refl,
        (eqb_ℤ_iff a.balance (pos 0)).0 zero_balance,
        within,
      )
    ]
    | inr over ↦ inl (Error.non_negative_check, rw (zero_balance, over))
  ]
  | inr funded ↦ inl (Error.account_guard, rw funded)
]

pub insert_account-IsSound :
    (a : LedgerAccount) (l : Ledger) → a.id ≡ l.next_id → IsSound l → IsSound (insert_account a l).1
insert_account-IsSound a l new s = elim (insert_account-cases a l) [
  | inl (x, refused) ↦ rw refused s
  | inr (done, empty, within) ↦ rw done (record {
    cached =
        All-snoc _ l.accounts a s.cached
          (empty ∙ sym (entry_sum_unnamed a.id a.normal_balance l.entries (rw new s.known)));
    covered = All-snoc _ l.accounts a s.covered within;
    matched =
        All-map _ _ l.entries
          (λ x h.
            ground (arith, account_has_currency-snoc x.currency x.ledger_account_id l.accounts a))
          s.matched;
    fresh_accounts =
        All-snoc _ l.accounts a (All-map _ _ l.accounts (λ x h. omega arith) s.fresh_accounts)
          (omega arith);
    fresh_transactions = All-map _ _ l.transactions (λ t h. omega arith) s.fresh_transactions;
    known = All-map _ _ l.entries (λ x h. omega arith) s.known;
    indexed = s.indexed;
  })
]

-- A direct UPDATE of an account keeps its id, its side, its currency and its balance.
abbrev update_row : ℕ → AccountChange → LedgerAccount → LedgerAccount
update_row id c a = if has_id id a then changed c a else a

update_row-keeps :
    (id : ℕ) (c : AccountChange) (a : LedgerAccount)
    → update_allowed id c a ≡ true
    → ((update_row id c a).balance ≡ a.balance)
      × ((update_row id c a).currency ≡ a.currency)
      × ((update_row id c a).normal_balance ≡ a.normal_balance)
      × ((update_row id c a).id ≡ a.id)
unfolding text_eq
update_row-keeps id c a h =
    ground (arith, text_eq_iff c.currency a.currency, eqb_ℤ_iff c.balance a.balance)

module _ (id : ℕ) (c : AccountChange) where
  update_row-IsCached :
      (es : List LedgerEntry) (a : LedgerAccount)
      → update_allowed id c a ≡ true
      → IsCached es a
      → IsCached es (update_row id c a)
  update_row-IsCached es a h k =
      let (same_balance, _, same_side, same_id) = update_row-keeps id c a h in
      rw (same_balance, same_side, same_id) k

  update_rows-IsCached :
      (es : List LedgerEntry) (rows : List LedgerAccount)
      → All (λ a. update_allowed id c a ≡ true) rows
      → All (IsCached es) rows
      → All (IsCached es) (map (update_row id c) rows)
  update_rows-IsCached es [] h k = tt
  update_rows-IsCached es (a ∷ rows) h k =
      (update_row-IsCached es a h.0 k.0, update_rows-IsCached es rows h.1 k.1)

  update_rows-covered :
      (rows : List LedgerAccount)
      → All (λ a. update_allowed id c a ≡ true) rows
      → All (λ a. non_negative a ≡ true) rows
      → All (λ a. non_negative a ≡ true) (map (update_row id c) rows)
  update_rows-covered [] h k = tt
  update_rows-covered (a ∷ rows) h k = (ground arith, update_rows-covered rows h.1 k.1)

  update_rows-fresh :
      (n : ℕ) (rows : List LedgerAccount)
      → All (λ a. a.id < n) rows
      → All (λ a. a.id < n) (map (update_row id c) rows)
  update_rows-fresh n [] h = tt
  update_rows-fresh n (a ∷ rows) h = (ground arith, update_rows-fresh n rows h.1)

  update_rows-currency :
      (cur : Text) (x : ℕ) (rows : List LedgerAccount)
      → All (λ a. update_allowed id c a ≡ true) rows
      → account_has_currency cur x (map (update_row id c) rows) ≡ account_has_currency cur x rows
  unfolding account_has_currency
  update_rows-currency cur x [] h = refl
  update_rows-currency cur x (a ∷ rows) h =
      let keeps = update_row-keeps id c a h.0 in
      ground (arith, keeps, update_rows-currency cur x rows h.1)

pub update_account-IsSound :
    (id : ℕ) (c : AccountChange) (l : Ledger)
    → IsSound l
    → IsSound (run_statement (update_account id c) l).1
unfolding run_statement
update_account-IsSound id c l s = elim (Bool-cases (all_by (update_allowed id c) l.accounts)) [
  | inl allowed ↦
      let ok_rows = all_by-All (update_allowed id c) l.accounts allowed in
      rw allowed (record {
        cached = update_rows-IsCached id c l.entries l.accounts ok_rows s.cached;
        covered = update_rows-covered id c l.accounts ok_rows s.covered;
        matched =
            All-map _ _ l.entries
              (λ x h. ground (
                arith,
                update_rows-currency id c x.currency x.ledger_account_id l.accounts ok_rows,
              ))
              s.matched;
        fresh_accounts = update_rows-fresh id c l.next_id l.accounts s.fresh_accounts;
        fresh_transactions = s.fresh_transactions;
        known = s.known;
        indexed = s.indexed;
      })
  | inr refused ↦ rw refused s
]
