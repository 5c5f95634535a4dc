-- ===== src/Ledger/Reversal.antt =====
-- ledger.service.ts: `post` and `reverse` on tables between transactions. A reversal puts every
-- balance back, and a transaction is reversed at most once.
use finstack.Base.{
  ℕ, suc, ◌≡◌, refl, sym, ap, ◌∙◌, inl, inr, false, Option, none, some, List, [], ◌∷◌, map, arith,
  Bool-cases, ◌==◌,
}
use mathlib.Core.Path.{subst}
use mathlib.Core.Option.{map as map_option}
use finstack.Base.Int.{ℤ, pos, ◌+ℤ◌, int_laws}
use finstack.Base.Lists.{All-drop}
use finstack.Base.Text.{Text}
use finstack.Base.Result.{Result, ok, err, Error}
use finstack.Base.Action.{pure, after-ok}
use finstack.Ledger.Types.{LedgerAccount, EntryDirection, debit, credit, signed, opposite}
use finstack.Ledger.Posting.{PostingEntry, PostingInput, Uuids, validate_posting}
use finstack.Ledger.Store.{Ledger, find_transaction, find_account, finish, commit_ok}
use finstack.Ledger.Consistency.{IsSound}
use finstack.Ledger.Service.{PostedTransaction, transaction_row}
use finstack.Ledger.PostWithin.{post_within, replay, reversal_input, mirrored, replay_of}
use finstack.Ledger.Effect.{apply_posting, posting_sum, entry_rows}
use finstack.Ledger.Keeps.{post_within-Keeps}
use finstack.Ledger.Outcome.{posted}
use finstack.Ledger.Posted.{post_within-posted, post_within-find_account, map-find_account}
use finstack.Ledger.Replay.{entries_of-posted}
use finstack.Ledger.Post.{post, reverse, on_unique_violation, clashes_on_reference}

signed-opposite :
    (n d : EntryDirection) (x s t : ℤ)
    → s +ℤ t ≡ pos 0
    → (signed n d x +ℤ s) +ℤ (signed n (opposite d) x +ℤ t) ≡ pos 0
signed-opposite debit debit x s t h = grind int_laws
signed-opposite debit credit x s t h = grind int_laws
signed-opposite credit debit x s t h = grind int_laws
signed-opposite credit credit x s t h = grind int_laws

-- The mirror image of a posting takes back what it puts on each account.
posting_sum-mirrored :
    (id : ℕ) (n : EntryDirection) (txn first clock : ℕ) (c : Text) (es : List PostingEntry)
    → posting_sum id n es +ℤ posting_sum id n (map mirrored (entry_rows txn c es first clock))
      ≡ pos 0
posting_sum-mirrored id n txn first clock c [] = omega int_laws
posting_sum-mirrored id n txn first clock c (e ∷ es) =
    let rest = posting_sum-mirrored id n txn (suc first) clock c es in
    elim (Bool-cases (id == e.account_id)) [
      | inl hit ↦ rw hit (signed-opposite n e.direction e.amount _ _ rest)
      | inr miss ↦ rw miss (grind (int_laws, rest))
    ]

restored : (b s t : ℤ) → s +ℤ t ≡ pos 0 → b +ℤ s +ℤ t ≡ b
restored b s t h = grind int_laws

apply_posting-mirrored :
    (txn first clock : ℕ) (c : Text) (es : List PostingEntry) (o : Option LedgerAccount)
    → map_option
        (apply_posting (map mirrored (entry_rows txn c es first clock)))
        (map_option (apply_posting es) o)
      ≡ o
apply_posting-mirrored txn first clock c es none = refl
apply_posting-mirrored txn first clock c es (some a) =
    ap (λ b. some (record a { balance = b }))
      (restored a.balance (posting_sum a.id a.normal_balance es) _
        (posting_sum-mirrored a.id a.normal_balance txn first clock c es))

module _ ⦃u : Uuids⦄ where
  replay-replayed :
      (input : PostingInput) (l : Ledger) (p : PostedTransaction)
      → (replay input l).0 ≡ ok p
      → p.replayed ≡ false
      → ⊥
  unfolding replay replay_of
  replay-replayed input l p h fresh = ground arith

  -- Where the transaction of `post` commits a new posting, it is the one of its body.
  committed :
      (input : PostingInput) (l : Ledger) (p : PostedTransaction)
      (r : Result PostedTransaction × Ledger)
      → (on_unique_violation input (finish l r)).0 ≡ ok p
      → p.replayed ≡ false
      → (r.0 ≡ ok p) × (on_unique_violation input (finish l r) ≡ r)
  unfolding finish
  committed input l p (ok q, k) done fresh = elim (Bool-cases (commit_ok l k)) [
    | inl good ↦ ground arith
    | inr bad ↦ ground arith
  ]
  committed input l p (err x, k) done fresh = elim (Bool-cases (clashes_on_reference x)) [
    | inl clash ↦ absurd (replay-replayed input l p (ground arith) fresh)
    | inr other ↦ absurd (ground arith)
  ]

  pub post_valid :
      (input : PostingInput) (l : Ledger) (amount : ℤ)
      → validate_posting input ≡ ok amount
      → post (pure tt) input l ≡ on_unique_violation input (finish l (post_within input l))
  unfolding post
  post_valid input l amount e =
      after-ok (validate_posting input, l)
        (λ _ k. on_unique_violation input (finish k (post_within input k))) (ap (λ r. (r, l)) e)

  pub post_invalid :
      (input : PostingInput) (l : Ledger) (x : Error)
      → validate_posting input ≡ err x
      → post (pure tt) input l ≡ (err x, l)
  unfolding post
  post_invalid input l x e = rw e refl

  -- Where `post` returns a new posting, `post_within` did.
  pub post-posted :
      (input : PostingInput) (l : Ledger) (p : PostedTransaction)
      → (post (pure tt) input l).0 ≡ ok p
      → p.replayed ≡ false
      → ((post_within input l).0 ≡ ok p) × (post (pure tt) input l ≡ post_within input l)
  post-posted input l p done fresh = with_amount (validate_posting input) refl
    where
      with_amount :
          (r : Result ℤ)
          → validate_posting input ≡ r
          → ((post_within input l).0 ≡ ok p) × (post (pure tt) input l ≡ post_within input l)
      with_amount (err x) e = absurd (ground (arith, post_invalid input l x e))
      with_amount (ok amount) e =
          let is = post_valid input l amount e in
          let (same, run) =
            committed input l p (post_within input l) (sym (ap (λ r. r.0) is) ∙ done) fresh in
          (same, is ∙ run)

  -- What `reverse` posts for the newest transaction.
  reverse_newest :
      (input : PostingInput) (l : Ledger) (amt : ℤ) (reference description : Text)
      → IsSound (posted amt input l)
      → reverse l.next_id reference description (posted amt input l)
        ≡ post
            (pure tt)
            (reversal_input reference description
              (transaction_row amt input l)
              (posted amt input l))
            (posted amt input l)
  unfolding reverse
  reverse_newest input l amt reference description s =
      let found : find_transaction l.next_id (posted amt input l).transactions
          ≡ some (transaction_row amt input l) =
        (All-drop _ l.transactions (transaction_row amt input l ∷ []) s.indexed).0 in
      rw (found, reverse) refl

  reversal_restores :
      (input : PostingInput) (l : Ledger) (amt : ℤ) (reference description : Text) (id : ℕ)
      (q : PostedTransaction)
      → IsSound l
      → (post
          (pure tt)
          (reversal_input reference description (transaction_row amt input l) (posted amt input l))
          (posted amt input l)).0
        ≡ ok q
      → q.replayed ≡ false
      → find_account id
          (post
            (pure tt)
            (reversal_input reference description
              (transaction_row amt input l)
              (posted amt input l))
            (posted amt input l)).1.accounts
        ≡ find_account id l.accounts
  unfolding reversal_input
  reversal_restores input l amt reference description id q s undone new =
      let k = posted amt input l in
      let back = reversal_input reference description (transaction_row amt input l) k in
      let (within, same) = post-posted back k q undone new in
      let rows = entries_of-posted amt input l s in
      ap (λ r. find_account id r.1.accounts) same
      ∙ post_within-find_account back k q id within new
      ∙ ap (map_option (apply_posting back.entries)) (map-find_account id input.entries l.accounts)
      ∙ ap
          (λ es.
            map_option (apply_posting (map mirrored es))
              (map_option (apply_posting input.entries) (find_account id l.accounts)))
          rows
      ∙ apply_posting-mirrored l.next_id (suc l.next_id) l.clock input.currency input.entries
          (find_account id l.accounts)

  -- A posting that postWithin records on sound tables, followed by the reversal of its transaction
  -- where that posts a new transaction, leaves every account as it was before the posting.
  pub reverse-post_within :
      (input : PostingInput) (l : Ledger) (p q : PostedTransaction) (reference description : Text)
      (id : ℕ)
      → IsSound l
      → (post_within input l).0 ≡ ok p
      → p.replayed ≡ false
      → (reverse p.transaction.id reference description (post_within input l).1).0 ≡ ok q
      → q.replayed ≡ false
      → find_account id
          (reverse p.transaction.id reference description (post_within input l).1).1.accounts
        ≡ find_account id l.accounts
  reverse-post_within input l p q reference description id s done fresh undone new =
      let (amt, _, _, run) = post_within-posted input l p done fresh in
      let named : p.transaction.id ≡ l.next_id = ground (arith, run) in
      let sound : IsSound (posted amt input l) =
        subst (λ r. IsSound r.1) run ((post_within-Keeps input).on l s).0 in
      let same : reverse p.transaction.id reference description (post_within input l).1
          ≡ post (pure tt)
              (reversal_input reference description (transaction_row amt input l)
                (posted amt input l))
              (posted amt input l) =
        rw (named, run) (reverse_newest input l amt reference description sound) in
      ap (λ r. find_account id r.1.accounts) same
      ∙ reversal_restores input l amt reference description id q s
          (sym (ap (λ r. r.0) same) ∙ undone) new
