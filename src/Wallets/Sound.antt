-- ===== src/Wallets/Sound.antt =====
-- The tables of ledger-account.entity.ts and wallet.entity.ts together: each wallet has three
-- liability accounts of its own, which no movement takes away.
use finstack.Base.{
  inl, inr, true, suc, ◌≤◌, ℕ, ◌≡◌, refl, ◌∙◌, ap, ◌<◌, ◌≢◌, inl, inr, false, none, some, List, [],
  ◌∷◌, ◌++◌, map, ◌==◌, arith, ==_iff,
}
use mathlib.Core.Option.{map as map_option}
use finstack.Base.Int.{◌+ℤ◌}
use finstack.Base.Lists.{All, All-snoc, find_by-append, find_by-passes}
use finstack.Base.Result.{ok}
use finstack.Ledger.Types.{LedgerAccount, credit}
use finstack.Ledger.Posting.{PostingEntry, PostingInput, Uuids}
use finstack.Ledger.Store.{Ledger, find_account, insert_account, has_id}
use finstack.Ledger.Consistency.{IsSound}
use finstack.Ledger.Accounts.{insert_account-IsSound, insert_account-cases, with_account}
use finstack.Ledger.Effect.{ids_after, apply_posting, posting_sum}
use finstack.Ledger.Trial.{Distinct}
use finstack.Ledger.Service.{PostedTransaction}
use finstack.Ledger.PostWithin.{post_within}
use finstack.Ledger.Keeps.{post_within-Keeps}
use finstack.Ledger.Posted.{map-find_account, post_within-posted, post_within-find_account}
use finstack.Ledger.Outcome.{post_within-cases}
use finstack.Wallets.Wallet.{Wallet, Balance, Bank}
use finstack.Wallets.Access.{account_of, balance_at}
use finstack.Wallets.Spec.{same_balance}

-- The id of an account that belongs to a wallet.
pub record IsOwn (l : Ledger) (id : ℕ) : Type 0 where
  pub row : LedgerAccount
  pub found : find_account id l.accounts ≡ some row
  pub uncoded : row.code ≡ none
  pub liability_side : row.normal_balance ≡ credit
  pub never_negative : row.allow_negative_balance ≡ false

pub record IsWallet (l : Ledger) (w : Wallet) : Type 0 where
  pub own : (k : Balance) → IsOwn l (account_of w k)
  pub apart : (i k : Balance) → (account_of w i == account_of w k) ≡ same_balance i k

-- The ledger's accounts have distinct ids, and each wallet its own three.
pub record IsBank (b : Bank) : Type 0 where
  pub sound : IsSound b.ledger
  pub distinct : Distinct b.ledger.accounts
  pub wallets : All (IsWallet b.ledger) b.wallets
  pub fresh : All (λ w. w.id < b.ledger.next_id) b.wallets

-- A later state of the ledger, in which the accounts of wallets are still there.
pub record Later (l m : Ledger) : Type 0 where
  pub sound : IsSound m
  pub distinct : Distinct m.accounts
  pub own : (id : ℕ) → IsOwn l id → IsOwn m id
  pub grows : l.next_id ≤ m.next_id

pub balance_at-found :
    (id : ℕ) (l : Ledger) (a : LedgerAccount)
    → find_account id l.accounts ≡ some a
    → balance_at id l ≡ a.balance
balance_at-found id l a h = rw (h, balance_at) refl

ids_after_le : (es : List PostingEntry) (n : ℕ) → n ≤ ids_after es n
ids_after_le [] n = omega arith
ids_after_le (e ∷ es) n = omega (arith, ids_after_le es (suc n))

map-apply_posting-Distinct :
    (es : List PostingEntry) (rows : List LedgerAccount)
    → Distinct rows
    → Distinct (map (apply_posting es) rows)
map-apply_posting-Distinct es [] d = tt
map-apply_posting-Distinct es (a ∷ rows) (new, d) =
    (others rows new, map-apply_posting-Distinct es rows d)
  where
    others :
        (bs : List LedgerAccount)
        → All (λ b. b.id ≢ a.id) bs
        → All (λ b. b.id ≢ (apply_posting es a).id) (map (apply_posting es) bs)
    others [] h = tt
    others (b ∷ bs) h = (h.0, others bs h.1)

module _ ⦃u : Uuids⦄ where
  apply_posting-IsOwn :
      (es : List PostingEntry) (l m : Ledger) (id : ℕ)
      → m.accounts ≡ map (apply_posting es) l.accounts
      → IsOwn l id
      → IsOwn m id
  apply_posting-IsOwn es l m id e own = record {
    row = apply_posting es own.row;
    found = rw (e, map-find_account id es l.accounts, own.found) refl;
    uncoded = own.uncoded;
    liability_side = own.liability_side;
    never_negative = own.never_negative;
  }

  pub post_within-Later :
      (input : PostingInput) (l : Ledger) (p : PostedTransaction)
      → IsSound l
      → Distinct l.accounts
      → (post_within input l).0 ≡ ok p
      → p.replayed ≡ false
      → Later l (post_within input l).1
  post_within-Later input l p s d done fresh =
      let (amount, _, _, new) = post_within-posted input l p done fresh in
      record {
        sound = ((post_within-Keeps input).on l s).0;
        distinct = rw new (map-apply_posting-Distinct input.entries l.accounts d);
        grows = rw new (omega (arith, ids_after_le input.entries (suc l.next_id)));
        own = λ id own.
            apply_posting-IsOwn input.entries l (post_within input l).1 id (rw new refl) own;
      }

  -- A replay writes nothing.
  pub post_within-replayed :
      (input : PostingInput) (l : Ledger) (p : PostedTransaction)
      → (post_within input l).0 ≡ ok p
      → p.replayed ≡ true
      → (post_within input l).1 ≡ l
  post_within-replayed input l p done again = elim (post_within-cases input l) [
    | inl (x, thrown) ↦ absurd cc
    | inr (inl (t, _, same)) ↦ ap (λ r. r.1) same
    | inr (inr (amount, _, _, new)) ↦ absurd (ground (arith, new))
  ]

  -- The balance of an account of a wallet is changed by what the entries put on it.
  pub post_within-balance_at :
      (input : PostingInput) (l : Ledger) (p : PostedTransaction) (id : ℕ)
      → IsOwn l id
      → (post_within input l).0 ≡ ok p
      → p.replayed ≡ false
      → balance_at id (post_within input l).1
        ≡ balance_at id l +ℤ posting_sum id credit input.entries
  post_within-balance_at input l p id own done fresh =
      let changed = post_within-find_account input l p id done fresh in
      let named : own.row.id ≡ id =
        (==_iff own.row.id id).0 (find_by-passes (has_id id) l.accounts own.row own.found) in
      rw
        (
          balance_at-found id (post_within input l).1 (apply_posting input.entries own.row)
              (changed ∙ ap (map_option (apply_posting input.entries)) own.found),
          balance_at-found id l own.row own.found,
          own.liability_side,
          named,
        )
        refl

pub Later-refl : (l : Ledger) → IsSound l → Distinct l.accounts → Later l l
Later-refl l s d = record { sound = s; distinct = d; own = λ id own. own; grows = omega arith }

Distinct-snoc :
    (rows : List LedgerAccount) (a : LedgerAccount) (next : ℕ)
    → a.id ≡ next
    → All (λ b. b.id < next) rows
    → Distinct rows
    → Distinct (rows ++ a ∷ [])
Distinct-snoc [] a next e h d = (tt, tt)
Distinct-snoc (b ∷ rows) a next e h (new, d) =
    (All-snoc _ rows a new (omega (arith, e, h.0)), Distinct-snoc rows a next e h.1 d)

pub insert_account-Later :
    (a : LedgerAccount) (l : Ledger)
    → a.id ≡ l.next_id
    → IsSound l
    → Distinct l.accounts
    → Later l (insert_account a l).1
insert_account-Later a l e s d = elim (insert_account-cases a l) [
  | inl (x, refused) ↦ rw refused (Later-refl l s d)
  | inr (done, _, _) ↦ record {
    sound = insert_account-IsSound a l e s;
    grows = rw done (omega arith);
    distinct = rw done (Distinct-snoc l.accounts a l.next_id e s.fresh_accounts d);
    own = λ id own. record {
      row = own.row;
      found = rw done (find_by-append (has_id id) l.accounts (a ∷ []) own.row own.found);
      uncoded = own.uncoded;
      liability_side = own.liability_side;
      never_negative = own.never_negative;
    };
  }
]

pub insert_account-balance_at :
    (a : LedgerAccount) (l : Ledger) (id : ℕ)
    → IsOwn l id
    → balance_at id (insert_account a l).1 ≡ balance_at id l
insert_account-balance_at a l id own = elim (insert_account-cases a l) [
  | inl (x, refused) ↦ rw refused refl
  | inr (done, _, _) ↦
      rw
        (
          done,
          balance_at-found id (with_account a l) own.row
              (find_by-append (has_id id) l.accounts (a ∷ []) own.row own.found),
          balance_at-found id l own.row own.found,
        )
        refl
]
