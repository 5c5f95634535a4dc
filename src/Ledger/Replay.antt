-- ===== src/Ledger/Replay.antt =====
-- ledger.service.ts: `postWithin` is idempotent by reference. A posting that is sent again replays
-- the first one, and a different one under its reference is a conflict.
use finstack.Base.{
  ℕ, suc, ◌<◌, ◌≡◌, refl, sym, ap, ◌∙◌, inl, inr, Bool, true, false, ◌&&◌, none, some, List, [],
  ◌∷◌, map, arith, Bool-cases, if◌then◌else◌,
}
use mathlib.Core.Path.{subst}
use finstack.Base.Int.{ℤ, pos}
use finstack.Base.Lists.{All, All-map, find_by-append_new, is_empty, filter_by-append}
use finstack.Base.Text.{Text, text_eq, text_eq_refl}
use finstack.Base.Result.{ok, err, Error}
use finstack.Ledger.Types.{LedgerEntry, LedgerTransaction}
use finstack.Ledger.Posting.{
  PostingEntry, PostingInput, Uuids, validate_posting, entries_fingerprint, sum_sides, check_sides,
}
use finstack.Ledger.Store.{Ledger, entries_of, transaction_has_currency}
use finstack.Ledger.Consistency.{IsSound}
use finstack.Ledger.Effect.{entry_rows}
use finstack.Ledger.Service.{PostedTransaction, find_reference, transaction_row}
use finstack.Ledger.PostWithin.{post_within, posting_entry, replay_of, replay}
use finstack.Ledger.Outcome.{posted, posted_result}
use finstack.Ledger.Balance.{validate_posting-sides}
use finstack.Ledger.Posted.{post_within-posted}

map-posting_entry :
    (txn : ℕ) (c : Text) (es : List PostingEntry) (id clock : ℕ)
    → map posting_entry (entry_rows txn c es id clock) ≡ es
map-posting_entry txn c [] id clock = refl
map-posting_entry txn c (e ∷ es) id clock = cc (map-posting_entry txn c es (suc id) clock)

filter_by-entry_rows :
    (txn : ℕ) (c : Text) (es : List PostingEntry) (id clock : ℕ)
    → entries_of txn (entry_rows txn c es id clock) ≡ entry_rows txn c es id clock
filter_by-entry_rows txn c [] id clock = refl
filter_by-entry_rows txn c (e ∷ es) id clock =
    ground (arith, filter_by-entry_rows txn c es (suc id) clock)

transaction_has_currency-below :
    (c : Text) (id n : ℕ) (ts : List LedgerTransaction)
    → All (λ t. t.id < n) ts
    → transaction_has_currency c id ts ≡ true
    → id < n
unfolding transaction_has_currency
transaction_has_currency-below c id n [] h e = absurd (ground arith)
transaction_has_currency-below c id n (t ∷ ts) h e =
    ground (arith, transaction_has_currency-below c id n ts h.1)

entries_of_none :
    (n : ℕ) (es : List LedgerEntry)
    → All (λ e. e.ledger_transaction_id < n) es
    → entries_of n es ≡ []
entries_of_none n [] h = refl
entries_of_none n (e ∷ es) h = ground (arith, entries_of_none n es h.1)

-- The rows of a new posting are all that its id finds.
pub entries_of-posted :
    (amount : ℤ) (input : PostingInput) (l : Ledger)
    → IsSound l
    → entries_of l.next_id (posted amount input l).entries ≡ (posted_result amount input l).entries
entries_of-posted amount input l s =
    let older : entries_of l.next_id l.entries ≡ [] = entries_of_none l.next_id l.entries (
      All-map _ _ l.entries
        (λ e h.
          transaction_has_currency-below e.currency e.ledger_transaction_id l.next_id l.transactions
            s.fresh_transactions (ground arith))
        s.matched) in
    filter_by-append _ l.entries (posted_result amount input l).entries
    ∙ rw
        (older, filter_by-entry_rows l.next_id input.currency input.entries (suc l.next_id) l.clock)
        refl

not_empty :
    (es : List PostingEntry) (r : ℤ × ℤ) (amount : ℤ)
    → sum_sides es (pos 0) (pos 0) ≡ ok r
    → check_sides r ≡ ok amount
    → is_empty es ≡ false
unfolding sum_sides check_sides
not_empty [] r amount summed checked =
    let same : (pos 0, pos 0) ≡ r = ground arith in
    absurd (one_sided_zero (subst (λ x. check_sides x ≡ ok amount) (sym same) checked))
  where
    one_sided_zero : check_sides (pos 0, pos 0) ≡ ok amount → ⊥
    one_sided_zero h = cc
not_empty (e ∷ es) r amount summed checked = refl

rows_not_empty :
    (txn id clock : ℕ) (c : Text) (es : List PostingEntry)
    → is_empty es ≡ false
    → is_empty (entry_rows txn c es id clock) ≡ false
rows_not_empty txn id clock c [] h = cc
rows_not_empty txn id clock c (e ∷ es) h = refl

module _ ⦃u : Uuids⦄ where
  -- The posting that is compared under a reference that is taken by `input`.
  abbrev pub is_same_posting : PostingInput → PostingInput → Bool
  is_same_posting input other =
      text_eq input.currency other.currency
      && text_eq input.description other.description
      && text_eq (entries_fingerprint input.entries) (entries_fingerprint other.entries)

  replay_of-posted :
      (input other : PostingInput) (l : Ledger) (amt : ℤ)
      → IsSound l
      → is_empty (posted_result amt input l).entries ≡ false
      → replay_of (transaction_row amt input l) other (posted amt input l) ≡ (
          if is_same_posting input other
          then ok (record (posted_result amt input l) { replayed = true })
          else err Error.ledger_reference_conflict)
  unfolding replay_of
  replay_of-posted input other l amt s nonempty =
      let rows = entries_of-posted amt input l s in
      let back = map-posting_entry l.next_id input.currency input.entries (suc l.next_id) l.clock in
      elim (Bool-cases (is_same_posting input other)) [
        | inl agree ↦ rw (rows, back, agree, nonempty) refl
        | inr differ ↦ rw (rows, back, differ) refl
      ]

  post_within-taken :
      (other : PostingInput) (k : Ledger) (t : LedgerTransaction) (amount : ℤ)
      → validate_posting other ≡ ok amount
      → find_reference other.reference k.transactions ≡ some t
      → post_within other k ≡ (replay_of t other k, k)
  unfolding post_within
  post_within-taken other k t amount valid found = rw (valid, found) (rw (found, replay) refl)

  find_reference-posted :
      (reference : Text) (input : PostingInput) (l : Ledger) (amt : ℤ)
      → reference ≡ input.reference
      → find_reference input.reference l.transactions ≡ none
      → find_reference reference (posted amt input l).transactions
        ≡ some (transaction_row amt input l)
  find_reference-posted reference input l amt same new = rw same (
      find_by-append_new (λ t. text_eq t.reference input.reference) l.transactions
        (transaction_row amt input l ∷ []) new
      ∙ rw (text_eq_refl input.reference) refl)

  -- Once a posting has been recorded on sound tables, every valid posting under the same reference
  -- writes nothing: it returns the recorded transaction with its entries, marked as replayed, where
  -- its currency, its description and the fingerprint of its entries are those recorded, and is
  -- refused as a reference conflict where one of them differs.
  pub post_within_again :
      (input other : PostingInput) (l : Ledger) (p : PostedTransaction) (amount : ℤ)
      → IsSound l
      → (post_within input l).0 ≡ ok p
      → p.replayed ≡ false
      → other.reference ≡ input.reference
      → validate_posting other ≡ ok amount
      → post_within other (post_within input l).1 ≡ (
        (if is_same_posting input other
            then ok (record p { replayed = true })
            else err Error.ledger_reference_conflict),
        (post_within input l).1,
      )
  post_within_again input other l p amount s done fresh same valid =
      let (amt, checked, new, run) = post_within-posted input l p done fresh in
      let is : posted_result amt input l ≡ p = ground (arith, run) in
      rw (run, ← is) (again amt new (filled amt checked))
    where
      filled :
          (amt : ℤ)
          → validate_posting input ≡ ok amt
          → is_empty (posted_result amt input l).entries ≡ false
      filled amt checked =
          let (sides, summed, balanced) = validate_posting-sides input amt checked in
          rows_not_empty l.next_id (suc l.next_id) l.clock input.currency input.entries
            (not_empty input.entries sides amt summed balanced)

      again :
          (amt : ℤ)
          → find_reference input.reference l.transactions ≡ none
          → is_empty (posted_result amt input l).entries ≡ false
          → post_within other (posted amt input l) ≡ (
            (if is_same_posting input other
                then ok (record (posted_result amt input l) { replayed = true })
                else err Error.ledger_reference_conflict),
            posted amt input l,
          )
      again amt new nonempty =
          post_within-taken other (posted amt input l) (transaction_row amt input l) amount valid
            (find_reference-posted other.reference input l amt same new)
          ∙ ap (λ r. (r, posted amt input l)) (replay_of-posted input other l amt s nonempty)
