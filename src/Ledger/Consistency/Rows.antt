-- ===== src/Ledger/Consistency/Rows.antt =====
-- The rows of the ledger tables (ledger/*.entity.ts) under the triggers: what one entry puts on an
-- account, sums of entries, and what an update or a new row leaves as it was.
use finstack.Base.{
  ℕ, suc, ◌<◌, ◌≡◌, refl, sym, ap, ◌∙◌, true, List, [], ◌∷◌, ◌++◌, map, ◌==◌, if◌then◌else◌, arith,
}
use finstack.Base.Int.{ℤ, pos, ◌+ℤ◌, int_laws, +ℤ_assoc, +ℤ_zero}
use finstack.Base.Lists.{All}
use finstack.Base.Text.{Text}
use finstack.Ledger.Types.{LedgerAccount, LedgerTransaction, LedgerEntry, EntryDirection, signed}
use finstack.Ledger.Store.{
  non_negative, account_has_currency, transaction_has_currency, apply_balance, applies_within_check,
}

-- What an entry puts on an account.
abbrev pub share : ℕ → EntryDirection → LedgerEntry → ℤ
share id normal e = if id == e.ledger_account_id then signed normal e.direction e.amount else pos 0

-- What the entries say that an account holds.
abbrev pub entry_sum : ℕ → EntryDirection → List LedgerEntry → ℤ
entry_sum id normal [] = pos 0
entry_sum id normal (e ∷ es) = share id normal e +ℤ entry_sum id normal es

abbrev pub IsCached : List LedgerEntry → LedgerAccount → Type 0
IsCached es a = a.balance ≡ entry_sum a.id a.normal_balance es

pub entry_sum-snoc :
    (id : ℕ) (n : EntryDirection) (es : List LedgerEntry) (e : LedgerEntry)
    → entry_sum id n (es ++ e ∷ []) ≡ entry_sum id n es +ℤ share id n e
entry_sum-snoc id n [] e = omega int_laws
entry_sum-snoc id n (x ∷ es) e =
    ap (◌+ℤ◌ (share id n x)) (entry_sum-snoc id n es e)
    ∙ sym (+ℤ_assoc (share id n x) (entry_sum id n es) (share id n e))

-- The trigger adds the entry's share to the cached balance, of every account.
pub apply_balance-share :
    (e : LedgerEntry) (a : LedgerAccount)
    → (apply_balance e a).balance ≡ a.balance +ℤ share a.id a.normal_balance e
apply_balance-share e a = ground (arith, +ℤ_zero a.balance)

pub map-IsCached :
    (es : List LedgerEntry) (e : LedgerEntry) (accounts : List LedgerAccount)
    → All (IsCached es) accounts
    → All (IsCached (es ++ e ∷ [])) (map (apply_balance e) accounts)
map-IsCached es e [] h = tt
map-IsCached es e (a ∷ rest) h = (
  ground (arith, apply_balance-share e a, entry_sum-snoc a.id a.normal_balance es e),
  map-IsCached es e rest h.1,
)

-- An account that no entry names holds nothing.
pub entry_sum_unnamed :
    (id : ℕ) (n : EntryDirection) (es : List LedgerEntry)
    → All (λ e. e.ledger_account_id < id) es
    → entry_sum id n es ≡ pos 0
entry_sum_unnamed id n [] h = refl
entry_sum_unnamed id n (e ∷ es) h = ground (arith, entry_sum_unnamed id n es h.1, +ℤ_zero (pos 0))

pub map-covered :
    (e : LedgerEntry) (accounts : List LedgerAccount)
    → All (λ a. non_negative a ≡ true) accounts
    → All (λ a. applies_within_check e a ≡ true) accounts
    → All (λ a. non_negative a ≡ true) (map (apply_balance e) accounts)
map-covered e [] h k = tt
map-covered e (a ∷ rest) h k = (ground arith, map-covered e rest h.1 k.1)

pub map-fresh :
    (e : LedgerEntry) (n : ℕ) (accounts : List LedgerAccount)
    → All (λ a. a.id < n) accounts
    → All (λ a. a.id < suc n) (map (apply_balance e) accounts)
map-fresh e n [] h = tt
map-fresh e n (a ∷ rest) h = (ground arith, map-fresh e n rest h.1)

-- An update of balances leaves the accounts' currencies.
pub map-account_has_currency :
    (c : Text) (id : ℕ) (e : LedgerEntry) (accounts : List LedgerAccount)
    → account_has_currency c id (map (apply_balance e) accounts)
      ≡ account_has_currency c id accounts
unfolding account_has_currency
map-account_has_currency c id e [] = refl
map-account_has_currency c id e (a ∷ rest) = ground (arith, map-account_has_currency c id e rest)

pub account_has_currency-below :
    (c : Text) (id n : ℕ) (accounts : List LedgerAccount)
    → All (λ a. a.id < n) accounts
    → account_has_currency c id accounts ≡ true
    → id < n
unfolding account_has_currency
account_has_currency-below c id n [] h e = absurd (ground arith)
account_has_currency-below c id n (a ∷ rest) h e =
    ground (arith, account_has_currency-below c id n rest h.1)

pub account_has_currency-snoc :
    (c : Text) (id : ℕ) (accounts : List LedgerAccount) (b : LedgerAccount)
    → account_has_currency c id accounts ≡ true
    → account_has_currency c id (accounts ++ b ∷ []) ≡ true
unfolding account_has_currency
account_has_currency-snoc c id [] b h = cc
account_has_currency-snoc c id (a ∷ rest) b h =
    ground (arith, account_has_currency-snoc c id rest b)

pub transaction_has_currency-snoc :
    (c : Text) (id : ℕ) (ts : List LedgerTransaction) (u : LedgerTransaction)
    → transaction_has_currency c id ts ≡ true
    → transaction_has_currency c id (ts ++ u ∷ []) ≡ true
unfolding transaction_has_currency
transaction_has_currency-snoc c id [] u h = cc
transaction_has_currency-snoc c id (t ∷ ts) u h =
    ground (arith, transaction_has_currency-snoc c id ts u)
