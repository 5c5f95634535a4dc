-- ===== src/Ledger/Service.antt =====
-- ledger.service.ts: `LedgerService`, on a connection of the database. `post_within` runs inside a
-- transaction of its caller; Db has the `post` that opens its own.
use finstack.Base.{
  ℕ, Bool, false, ◌&&◌, not, Option, none, some, List, [], ◌∷◌, ◌==◌, if◌then◌else◌,
}
use finstack.Base.Int.{ℤ, pos, ◌+ℤ◌, ltb_ℤ}
use finstack.Base.Lists.{length, find_by, any_by}
use finstack.Base.Text.{Text, text_eq}
use finstack.Base.Sort.{sorted_ids}
use finstack.Base.Result.{Result, ok, err, Error}
use finstack.Base.Action.{Action, ◌>>=◌, ◌>>◌, pure, gets}
use finstack.Ledger.Types.{
  LedgerAccount, LedgerTransaction, LedgerEntry, LedgerAccountType, signed, normal_balance_for,
}
use finstack.Ledger.Posting.{PostingEntry, PostingInput}
use finstack.Ledger.Store.{Ledger, find_account, has_code, reverses, insert_account, insert_entry}

pub record CreateLedgerAccountInput : Type 0 where
  pub name : Text
  pub type : LedgerAccountType
  pub currency : Text
  pub code : Option Text
  pub allow_negative_balance : Bool

pub record PostedTransaction : Type 0 where
  pub transaction : LedgerTransaction
  pub entries : List LedgerEntry
  pub replayed : Bool

abbrev pub new_account : CreateLedgerAccountInput → ℕ → LedgerAccount
new_account input id = record {
  id = id;
  code = input.code;
  name = input.name;
  type = input.type;
  normal_balance = normal_balance_for input.type;
  currency = input.currency;
  balance = pos 0;
  allow_negative_balance = input.allow_negative_balance;
}

unfoldable pub create_account : CreateLedgerAccountInput → Action Ledger LedgerAccount
unfolding insert_account normal_balance_for
create_account input = do
  id ← gets (λ l. l.next_id)
  insert_account (new_account input id)
  pure (new_account input id)

-- `findOneByOrFail(LedgerAccount, { code })`
abbrev pub account_by_code : Text → Action Ledger LedgerAccount
account_by_code code l = elim (find_by (has_code code) l.accounts) [
  | none ↦ (err Error.entity_not_found, l)
  | some a ↦ (ok a, l)
]

-- The insert says ON CONFLICT DO NOTHING: where the code is taken it changes nothing.
unfoldable pub ensure_system_account : CreateLedgerAccountInput → Text → Action Ledger LedgerAccount
unfolding insert_account normal_balance_for text_eq
ensure_system_account input code l =
    if any_by (has_code code) l.accounts
    then account_by_code code l
    else (insert_account (new_account (record input { code = some code }) l.next_id)
          >> account_by_code code)
        l

abbrev pub find_reference : Text → List LedgerTransaction → Option LedgerTransaction
find_reference reference = find_by (λ t. text_eq t.reference reference)

-- The ids that name a row, with the rows, in the order of the ids.
unfoldable pub rows_of : List ℕ → List LedgerAccount → List LedgerAccount
rows_of [] accounts = []
rows_of (id ∷ ids) accounts = elim (find_account id accounts) [
  | none ↦ rows_of ids accounts
  | some a ↦ a ∷ rows_of ids accounts
]

-- SELECT … FOR UPDATE of every account of the posting, each once and in id order.
unfoldable pub lock_accounts : List ℕ → Action Ledger (List LedgerAccount)
unfolding rows_of sorted_ids
lock_accounts ids l =
    let unique = sorted_ids ids in
    let accounts = rows_of unique l.accounts in
    if length accounts == length unique
    then (ok accounts, l)
    else (err Error.ledger_account_not_found, l)

unfoldable pub assert_currency : List LedgerAccount → Text → Result (Unit {0})
unfolding text_eq
assert_currency accounts currency =
    if any_by (λ a. not (text_eq a.currency currency)) accounts
    then err Error.currency_mismatch
    else ok tt

-- `deltas.get(id) ?? 0n`
abbrev pub delta_of : ℕ → List (ℕ × ℤ) → ℤ
delta_of id [] = pos 0
delta_of id ((i, d) ∷ rest) = if i == id then d else delta_of id rest

-- `deltas.set(id, delta)`
abbrev pub set_delta : ℕ → ℤ → List (ℕ × ℤ) → List (ℕ × ℤ)
set_delta id delta [] = (id, delta) ∷ []
set_delta id delta ((i, d) ∷ rest) =
    if i == id then (id, delta) ∷ rest else (i, d) ∷ set_delta id delta rest

unfoldable pub sum_deltas :
    List LedgerAccount → List PostingEntry → List (ℕ × ℤ) → Result (List (ℕ × ℤ))
sum_deltas accounts [] deltas = ok deltas
sum_deltas accounts (e ∷ es) deltas = elim (find_account e.account_id accounts) [
  | none ↦ err Error.ledger_account_not_found
  | some a ↦
      sum_deltas accounts es (
        set_delta a.id (delta_of a.id deltas +ℤ signed a.normal_balance e.direction e.amount)
          deltas)
]

abbrev pub overdraws : List LedgerAccount → ℕ × ℤ → Bool
overdraws accounts (id, delta) = elim (find_account id accounts) [
  | none ↦ false
  | some a ↦ not a.allow_negative_balance && ltb_ℤ (a.balance +ℤ delta) (pos 0)
]

unfoldable pub assert_sufficient_funds : List LedgerAccount → List PostingEntry → Result (Unit {0})
unfolding sum_deltas
assert_sufficient_funds accounts entries = elim (sum_deltas accounts entries []) [
  | err e ↦ err e
  | ok deltas ↦ if any_by (overdraws accounts) deltas then err Error.insufficient_funds else ok tt
]

unfoldable pub assert_not_reversed : ℕ → Action Ledger (Unit {0})
assert_not_reversed id l =
    if any_by (reverses id) l.transactions
    then (err Error.transaction_already_reversed, l)
    else (ok tt, l)

abbrev pub transaction_row : ℤ → PostingInput → Ledger → LedgerTransaction
transaction_row amount input l = record {
  id = l.next_id;
  reference = input.reference;
  description = input.description;
  currency = input.currency;
  amount = amount;
  reversal_of_id = input.reversal_of_id;
  created_at = l.clock;
}

abbrev pub entry_row : ℕ → Text → PostingEntry → ℕ → ℕ → LedgerEntry
entry_row txn currency e id clock = record {
  id = id;
  ledger_transaction_id = txn;
  ledger_account_id = e.account_id;
  direction = e.direction;
  amount = e.amount;
  currency = currency;
  created_at = clock;
}

-- `manager.save(entries)`: one INSERT after another.
unfoldable pub save_entries : ℕ → Text → List PostingEntry → Action Ledger (List LedgerEntry)
unfolding insert_entry
save_entries txn currency [] = pure []
save_entries txn currency (e ∷ es) = do
  row ← gets (λ l. entry_row txn currency e l.next_id l.clock)
  insert_entry row
  rows ← save_entries txn currency es
  pure (row ∷ rows)
