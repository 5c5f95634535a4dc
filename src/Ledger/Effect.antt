-- ===== src/Ledger/Effect.antt =====
-- What `postWithin` (ledger.service.ts) does to the tables when it posts: the closed form of its
-- inserts and of the trigger's updates.
use finstack.Base.{
  ℕ, suc, ◌≡◌, refl, sym, ap, ◌⊎◌, inl, inr, List, [], ◌∷◌, ◌++◌, map, ◌==◌, if◌then◌else◌,
  Bool-cases,
}
use mathlib.Core.List.{append_assoc, append-nil}
use finstack.Base.Int.{ℤ, pos, ◌+ℤ◌, +ℤ_zero, zero_+ℤ, +ℤ_assoc}
use finstack.Base.Text.{Text}
use finstack.Base.Result.{ok, err, Error}
use finstack.Base.Action.{after-err}
use finstack.Ledger.Types.{LedgerAccount, LedgerEntry, EntryDirection, signed}
use finstack.Ledger.Posting.{PostingEntry}
use finstack.Ledger.Store.{Ledger, apply_balance}
use finstack.Ledger.Consistency.{insert_entry-cases, with_entry}
use finstack.Ledger.Service.{save_entries, entry_row}

-- What the entries of a posting put on an account.
abbrev pub posting_share : ℕ → EntryDirection → PostingEntry → ℤ
posting_share id normal e = if id == e.account_id then signed normal e.direction e.amount else pos 0

abbrev pub posting_sum : ℕ → EntryDirection → List PostingEntry → ℤ
posting_sum id normal [] = pos 0
posting_sum id normal (e ∷ es) = posting_share id normal e +ℤ posting_sum id normal es

abbrev pub apply_posting : List PostingEntry → LedgerAccount → LedgerAccount
apply_posting es a = record a { balance = a.balance +ℤ posting_sum a.id a.normal_balance es }

abbrev pub entry_rows : ℕ → Text → List PostingEntry → ℕ → ℕ → List LedgerEntry
entry_rows txn currency [] id clock = []
entry_rows txn currency (e ∷ es) id clock =
    entry_row txn currency e id clock ∷ entry_rows txn currency es (suc id) clock

abbrev pub ids_after : List PostingEntry → ℕ → ℕ
ids_after [] id = id
ids_after (e ∷ es) id = ids_after es (suc id)

abbrev pub with_entries : ℕ → Text → List PostingEntry → Ledger → Ledger
with_entries txn currency es l = record l {
  accounts = map (apply_posting es) l.accounts;
  entries = l.entries ++ entry_rows txn currency es l.next_id l.clock;
  next_id = ids_after es l.next_id;
}

apply_posting_nil : (a : LedgerAccount) → apply_posting [] a ≡ a
apply_posting_nil a = ap (λ b. record a { balance = b }) (+ℤ_zero a.balance)

pub map-apply_posting_nil : (rows : List LedgerAccount) → map (apply_posting []) rows ≡ rows
map-apply_posting_nil [] = refl
map-apply_posting_nil (a ∷ rest) = cc (apply_posting_nil a, map-apply_posting_nil rest)

apply_posting-apply_balance :
    (txn id clock : ℕ) (c : Text) (e : PostingEntry) (es : List PostingEntry) (a : LedgerAccount)
    → apply_posting es (apply_balance (entry_row txn c e id clock) a) ≡ apply_posting (e ∷ es) a
apply_posting-apply_balance txn id clock c e es a = elim (Bool-cases (a.id == e.account_id)) [
  | inl hit ↦ rw (hit) (
      ap (λ b. record a { balance = b })
        (+ℤ_assoc a.balance (signed a.normal_balance e.direction e.amount)
          (posting_sum a.id a.normal_balance es)))
  | inr miss ↦ rw (miss) (
      ap (λ b. record a { balance = a.balance +ℤ b })
        (sym (zero_+ℤ (posting_sum a.id a.normal_balance es))))
]

pub map-apply_posting :
    (txn id clock : ℕ) (c : Text) (e : PostingEntry) (es : List PostingEntry)
    (rows : List LedgerAccount)
    → map (apply_posting es) (map (apply_balance (entry_row txn c e id clock)) rows)
      ≡ map (apply_posting (e ∷ es)) rows
map-apply_posting txn id clock c e es [] = refl
map-apply_posting txn id clock c e es (a ∷ rows) =
    cc (
      apply_posting-apply_balance txn id clock c e es a,
      map-apply_posting txn id clock c e es rows,
    )

with_entries_nil : (txn : ℕ) (c : Text) (l : Ledger) → with_entries txn c [] l ≡ l
with_entries_nil txn c l = cc (map-apply_posting_nil l.accounts, append-nil l.entries)

with_entries_cons :
    (txn : ℕ) (c : Text) (e : PostingEntry) (es : List PostingEntry) (l : Ledger)
    → with_entries txn c es (with_entry (entry_row txn c e l.next_id l.clock) l)
      ≡ with_entries txn c (e ∷ es) l
with_entries_cons txn c e es l =
    let row = entry_row txn c e l.next_id l.clock in
    cc (
      map-apply_posting txn l.next_id l.clock c e es l.accounts,
      append_assoc l.entries (row ∷ []) (entry_rows txn c es (suc l.next_id) l.clock),
    )

-- The inserts of a posting throw, or give the closed form.
pub save_entries-cases :
    (txn : ℕ) (c : Text) (es : List PostingEntry) (l : Ledger)
    → ((x : Error) × ((save_entries txn c es l).0 ≡ err x))
      ⊎ (save_entries txn c es l
          ≡ (ok (entry_rows txn c es l.next_id l.clock), with_entries txn c es l))
unfolding save_entries
save_entries-cases txn c [] l = inr (ap (λ k. (ok [], k)) (sym (with_entries_nil txn c l)))
save_entries-cases txn c (e ∷ es) l =
    let row = entry_row txn c e l.next_id l.clock in
    let rows = entry_rows txn c (e ∷ es) l.next_id l.clock in
    elim (insert_entry-cases row l) [
      | inl (x, refused) ↦ inl (x, rw refused refl)
      | inr (done, _, _, _) ↦ elim (save_entries-cases txn c es (with_entry row l)) [
        | inl (x, refused) ↦ inl (x, rw done (after-err _ _ refused))
        | inr rest ↦ inr (rw (done, rest) (ap (λ k. (ok rows, k)) (with_entries_cons txn c e es l)))
      ]
    ]
