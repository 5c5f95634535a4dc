-- ===== src/Ledger/Keeps.antt =====
-- ledger.service.ts: every method of the ledger keeps the tables sound, also where it throws, and
-- only ever adds rows.
use finstack.Base.{◌≡◌, refl, Option, none, some, List, [], ◌∷◌, map, ℕ, arith}
use finstack.Base.Int.{ℤ}
use finstack.Base.Text.{Text}
use finstack.Base.Result.{Result, ok, err}
use finstack.Base.Action.{Action, ◌>>=◌, after, pure, lift, gets}
use finstack.Ledger.Types.{LedgerEntry, LedgerTransaction}
use finstack.Ledger.Posting.{PostingEntry, PostingInput, Uuids, validate_posting}
use finstack.Ledger.Store.{Ledger, insert_entry, insert_transaction}
use finstack.Ledger.Consistency.{IsSound, insert_entry-IsSound, insert_transaction-IsSound}
use finstack.Ledger.Extends.{
  Extends, Extends-refl, Extends-trans, insert_entry-Extends, insert_transaction-Extends,
}
use finstack.Ledger.Service.{
  find_reference, lock_accounts, assert_currency, assert_sufficient_funds, assert_not_reversed,
  transaction_row, entry_row, save_entries,
}
use finstack.Ledger.PostWithin.{assert_reversible, save_transaction, post_new, replay, post_within}

-- The same of one run, given by what it returns and leaves.
abbrev pub Kept : {A : Type 0} → Ledger → Result A × Ledger → Type 0
Kept l r = IsSound r.1 × Extends l r.1

pub record Keeps {A : Type 0} (m : Action Ledger A) : Type 0 where
  pub on : (l : Ledger) → IsSound l → Kept l (m l)

module _ {A : Type 0} where
  -- A step that writes nothing.
  pub same-Keeps : (m : Action Ledger A) → ((l : Ledger) → (m l).1 ≡ l) → Keeps m
  same-Keeps m h = record { on = λ l s. rw (h l) (s, Extends-refl l) }

  pub pure-Keeps : (a : A) → Keeps (pure a)
  pure-Keeps a = record { on = λ l s. (s, Extends-refl l) }

  pub gets-Keeps : (f : Ledger → A) → Keeps (gets f)
  gets-Keeps f = record { on = λ l s. (s, Extends-refl l) }

  pub lift-Keeps : (r : Result A) → Keeps (lift r)
  lift-Keeps r = record { on = λ l s. (s, Extends-refl l) }

  pub after-Kept :
      {B : Type 0} (l : Ledger) (r : Result A × Ledger) (f : A → Action Ledger B)
      → Kept l r
      → ((a : A) → Keeps (f a))
      → Kept l (after r f)
  after-Kept l (ok a, k) f (sound, ext) hf =
      let (sound', ext') = (hf a).on k sound in (sound', Extends-trans l k _ ext ext')
  after-Kept l (err x, k) f kept hf = kept

  pub bind-Keeps :
      {B : Type 0} {m : Action Ledger A} {f : A → Action Ledger B}
      → Keeps m
      → ((a : A) → Keeps (f a))
      → Keeps (m >>= f)
  bind-Keeps {m} {f} hm hf = record { on = λ l s. after-Kept l (m l) f (hm.on l s) hf }

insert_entry-Keeps : (e : LedgerEntry) → Keeps (insert_entry e)
insert_entry-Keeps e = record { on = λ l s. (insert_entry-IsSound e l s, insert_entry-Extends e l) }

save_entries-Keeps : (txn : ℕ) (c : Text) (es : List PostingEntry) → Keeps (save_entries txn c es)
unfolding save_entries
save_entries-Keeps txn c [] = pure-Keeps []
save_entries-Keeps txn c (e ∷ es) =
    bind-Keeps (gets-Keeps (λ l. entry_row txn c e l.next_id l.clock)) λ row.
      bind-Keeps (insert_entry-Keeps row)
        λ _. bind-Keeps (save_entries-Keeps txn c es) (λ rows. pure-Keeps (row ∷ rows))

save_transaction-Keeps : (amount : ℤ) (input : PostingInput) → Keeps (save_transaction amount input)
save_transaction-Keeps amount input = record {
  on = λ l s.
      let row = transaction_row amount input l in
      after-Kept l (insert_transaction row l) _
        (insert_transaction-IsSound row l refl s, insert_transaction-Extends row l)
        (λ _. pure-Keeps row);
}

assert_reversible-Keeps : (o : Option ℕ) → Keeps (assert_reversible o)
unfolding assert_not_reversed
assert_reversible-Keeps none = pure-Keeps tt
assert_reversible-Keeps (some id) = same-Keeps (assert_not_reversed id) (λ l. ground arith)

lock_accounts-Keeps : (ids : List ℕ) → Keeps (lock_accounts ids)
unfolding lock_accounts
lock_accounts-Keeps ids = same-Keeps (lock_accounts ids) (λ l. ground arith)

post_new-Keeps : (amount : ℤ) (input : PostingInput) → Keeps (post_new amount input)
unfolding post_new
post_new-Keeps amount input = bind-Keeps (assert_reversible-Keeps input.reversal_of_id) λ _.
    bind-Keeps (lock_accounts-Keeps (map (λ e. e.account_id) input.entries)) λ accounts.
      bind-Keeps (lift-Keeps (assert_currency accounts input.currency)) λ _.
        bind-Keeps (lift-Keeps (assert_sufficient_funds accounts input.entries)) λ _.
          bind-Keeps (save_transaction-Keeps amount input) λ row.
            bind-Keeps (save_entries-Keeps row.id input.currency input.entries)
              (λ rows. pure-Keeps _)

module _ ⦃u : Uuids⦄ where
  replay-Keeps : (input : PostingInput) → Keeps (replay input)
  unfolding replay
  replay-Keeps input = same-Keeps (replay input) (λ l. ground arith)

  pub post_within-Keeps : (input : PostingInput) → Keeps (post_within input)
  unfolding post_within
  post_within-Keeps input = bind-Keeps (lift-Keeps (validate_posting input)) λ amount.
      bind-Keeps (gets-Keeps (λ l. find_reference input.reference l.transactions))
        (λ existing. found existing amount)
    where
      found :
          (o : Option LedgerTransaction) (amount : ℤ)
          → Keeps (elim o [ some t ↦ replay input | none ↦ post_new amount input ])
      found none amount = post_new-Keeps amount input
      found (some t) amount = replay-Keeps input
