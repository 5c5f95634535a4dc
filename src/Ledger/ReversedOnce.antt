-- ===== src/Ledger/ReversedOnce.antt =====
-- ledger.service.ts: `reverse` on a transaction that is reversed already.
use finstack.Base.{
  ℕ, ◌≡◌, refl, sym, ap, ◌∙◌, inl, inr, Bool, true, false, none, some, List, [], ◌∷◌, ◌++◌, arith,
  Option-cases, ==_iff,
}
use mathlib.Core.Path.{subst}
use finstack.Base.Int.{ℤ}
use finstack.Base.Lists.{any_by, find_by-append}
use finstack.Base.Text.{Text}
use finstack.Base.Result.{Result, ok, err, Error}
use finstack.Base.Action.{pure}
use finstack.Ledger.Types.{LedgerTransaction}
use finstack.Ledger.Posting.{PostingInput, Uuids, validate_posting}
use finstack.Ledger.Store.{Ledger, find_transaction, finish, reverses}
use finstack.Ledger.Service.{
  PostedTransaction, find_reference, transaction_row, assert_not_reversed,
}
use finstack.Ledger.PostWithin.{post_within, post_new, reversal_input}
use finstack.Ledger.Outcome.{posted}
use finstack.Ledger.Posted.{post_within-posted}
use finstack.Ledger.Post.{post, reverse}
use finstack.Ledger.Reversal.{post-posted, post_valid, post_invalid}

any_by-snoc :
    (t : LedgerTransaction → Bool) (xs : List LedgerTransaction) (y : LedgerTransaction)
    → t y ≡ true
    → any_by t (xs ++ y ∷ []) ≡ true
any_by-snoc t [] y h = ground arith
any_by-snoc t (x ∷ xs) y h = ground (arith, any_by-snoc t xs y h)

module _ ⦃u : Uuids⦄ where
  post_new-reversed :
      (amount : ℤ) (input : PostingInput) (id : ℕ) (l : Ledger)
      → input.reversal_of_id ≡ some id
      → any_by (reverses id) l.transactions ≡ true
      → post_new amount input l ≡ (err Error.transaction_already_reversed, l)
  unfolding post_new assert_not_reversed
  post_new-reversed amount input id l names taken = rw (names, taken) refl

  post_within-reversed :
      (amount : ℤ) (input : PostingInput) (id : ℕ) (l : Ledger)
      → validate_posting input ≡ ok amount
      → find_reference input.reference l.transactions ≡ none
      → input.reversal_of_id ≡ some id
      → any_by (reverses id) l.transactions ≡ true
      → post_within input l ≡ (err Error.transaction_already_reversed, l)
  unfolding post_within
  post_within-reversed amount input id l valid new names taken =
      rw (valid, new) (post_new-reversed amount input id l names taken)

  post-reversed :
      (input : PostingInput) (id : ℕ) (l : Ledger)
      → find_reference input.reference l.transactions ≡ none
      → input.reversal_of_id ≡ some id
      → any_by (reverses id) l.transactions ≡ true
      → (x : Error) × (post (pure tt) input l ≡ (err x, l))
  unfolding finish
  post-reversed input id l new names taken = with_amount (validate_posting input) refl
    where
      with_amount :
          (r : Result ℤ)
          → validate_posting input ≡ r
          → (x : Error) × (post (pure tt) input l ≡ (err x, l))
      with_amount (err x) e = (x, post_invalid input l x e)
      with_amount (ok amount) e = (
        Error.transaction_already_reversed,
        post_valid input l amount e
            ∙ rw (post_within-reversed amount input id l e new names taken) refl,
      )

  reverse-found :
      (id : ℕ) (reference description : Text) (original : LedgerTransaction) (l : Ledger)
      → find_transaction id l.transactions ≡ some original
      → reverse id reference description l
        ≡ post (pure tt) (reversal_input reference description original l) l
  unfolding reverse
  reverse-found id reference description original l found = rw (found, reverse) refl

  reverses_it :
      (reference description : Text) (o : LedgerTransaction) (k : Ledger)
      → (reversal_input reference description o k).reversal_of_id ≡ some o.id
  unfolding reversal_input
  reverses_it reference description o k = refl

  again_posted :
      (id : ℕ) (reference description : Text) (original : LedgerTransaction) (amt : ℤ)
      (back : PostingInput) (l : Ledger)
      → find_transaction id l.transactions ≡ some original
      → back.reversal_of_id ≡ some original.id
      → find_reference reference (posted amt back l).transactions ≡ none
      → (x : Error) × (reverse id reference description (posted amt back l)
          ≡ (err x, posted amt back l))
  unfolding reversal_input
  again_posted id reference description original amt back l found names unused =
      let still : find_transaction id (posted amt back l).transactions ≡ some original =
        find_by-append _ l.transactions (transaction_row amt back l ∷ []) original found in
      let hit : reverses original.id (transaction_row amt back l) ≡ true =
        rw names ((==_iff original.id original.id).1 refl) in
      let (x, thrown) =
        post-reversed (reversal_input reference description original (posted amt back l))
          original.id (posted amt back l) unused refl
          (any_by-snoc (reverses original.id) l.transactions (transaction_row amt back l) hit) in
      (x, reverse-found id reference description original (posted amt back l) still ∙ thrown)

  reverse_missing :
      (id : ℕ) (reference description : Text) (l : Ledger)
      → find_transaction id l.transactions ≡ none
      → reverse id reference description l ≡ (err Error.entity_not_found, l)
  unfolding reverse
  reverse_missing id reference description l missing = rw (missing, reverse) refl

  reverse-posted :
      (id : ℕ) (reference description : Text) (original : LedgerTransaction) (l : Ledger)
      (q : PostedTransaction)
      → find_transaction id l.transactions ≡ some original
      → (reverse id reference description l).0 ≡ ok q
      → q.replayed ≡ false
      → (amt : ℤ) × ((reverse id reference description l).1
          ≡ posted amt (reversal_input reference description original l) l)
  reverse-posted id reference description original l q found done new =
      let is = reverse-found id reference description original l found in
      let back = reversal_input reference description original l in
      let (within, same) = post-posted back l q (sym (ap (λ r. r.0) is) ∙ done) new in
      let (amt, _, _, run) = post_within-posted back l q within new in
      (amt, ap (λ r. r.1) (is ∙ same ∙ run))

  -- After the reversal of a transaction has been recorded, every further reversal of it under a
  -- reference that is not yet in use throws, and changes no table.
  pub reverse_again :
      (id : ℕ) (reference description other_reference other_description : Text) (l : Ledger)
      (q : PostedTransaction)
      → (reverse id reference description l).0 ≡ ok q
      → q.replayed ≡ false
      → find_reference other_reference (reverse id reference description l).1.transactions ≡ none
      → (x : Error) × (reverse id other_reference other_description
            (reverse id reference description l).1
          ≡ (err x, (reverse id reference description l).1))
  reverse_again id reference description other_reference other_description l q done new unused =
      elim (Option-cases (find_transaction id l.transactions)) [
        | inl missing ↦ absurd (ground (arith, reverse_missing id reference description l missing))
        | inr (original, found) ↦
            let (amt, run) = reverse-posted id reference description original l q found done new in
            subst (λ k. (x : Error) × (reverse id other_reference other_description k ≡ (err x, k)))
              (sym run)
              (again_posted id other_reference other_description original amt
                (reversal_input reference description original l) l found
                (reverses_it reference description original l)
                (subst (λ (k : Ledger). find_reference other_reference k.transactions ≡ none) run
                  unused))
      ]
