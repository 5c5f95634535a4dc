-- ===== src/Ledger/Posted.antt =====
-- ledger.service.ts: what a posting that `postWithin` accepts leaves in the tables.
use finstack.Base.{ℕ, ◌≡◌, refl, ap, ◌⊎◌, inl, inr, false, none, List, [], ◌∷◌, map, arith}
use mathlib.Core.Option.{map as map_option}
use finstack.Base.Int.{ℤ, pos, ◌+ℤ◌, int_laws}
use finstack.Base.Text.{Text}
use finstack.Base.Result.{ok}
use finstack.Ledger.Types.{LedgerAccount, debit, credit}
use finstack.Ledger.Posting.{PostingEntry, PostingInput, Uuids, validate_posting}
use finstack.Ledger.Store.{Ledger, find_account}
use finstack.Ledger.Consistency.{IsSound}
use finstack.Ledger.Effect.{apply_posting}
use finstack.Ledger.Service.{PostedTransaction, find_reference}
use finstack.Ledger.PostWithin.{post_within, trial_balance, side_balance, replay_of}
use finstack.Ledger.Keeps.{post_within-Keeps}
use finstack.Ledger.Outcome.{posted, posted_result, post_within-cases}
use finstack.Ledger.Trial.{Distinct, net, net-side_balance}
use finstack.Ledger.Balance.{
  net-apply_posting, posted-Named, validate_posting-balanced, debits_less_credits,
}

module _ ⦃u : Uuids⦄ where
  -- A successful run that is no replay has posted.
  pub post_within-posted :
      (input : PostingInput) (l : Ledger) (p : PostedTransaction)
      → (post_within input l).0 ≡ ok p
      → p.replayed ≡ false
      → (amount : ℤ) × (validate_posting input ≡ ok amount)
        × (find_reference input.reference l.transactions ≡ none)
        × (post_within input l ≡ (ok (posted_result amount input l), posted amount input l))
  unfolding replay_of
  post_within-posted input l p done fresh = elim (post_within-cases input l) [
    | inl (x, thrown) ↦ absurd cc
    | inr (inl (t, found, same)) ↦ absurd (ground (arith, same))
    | inr (inr new) ↦ new
  ]

  replayed-state :
      (input : PostingInput) (l : Ledger) (p : PostedTransaction)
      → (post_within input l).0 ≡ ok p
      → ((post_within input l).1 ≡ l)
        ⊎ ((amount : ℤ) × (validate_posting input ≡ ok amount)
            × ((post_within input l).1 ≡ posted amount input l))
  replayed-state input l p done = elim (post_within-cases input l) [
    | inl (x, thrown) ↦ absurd cc
    | inr (inl (t, found, same)) ↦ inl (ap (λ r. r.1) same)
    | inr (inr (amount, valid, _, new)) ↦ inr (amount, valid, ap (λ r. r.1) new)
  ]

  net-posted :
      (c : Text) (amount : ℤ) (input : PostingInput) (l : Ledger)
      → IsSound (posted amount input l)
      → Distinct l.accounts
      → validate_posting input ≡ ok amount
      → net c (posted amount input l).accounts ≡ net c l.accounts
  net-posted c amount input l s d valid =
      let all =
        net-apply_posting c input.currency 0 0 0 input.entries l.accounts d
          (posted-Named amount input l s) in
      let none_left : debits_less_credits input.entries ≡ pos 0 =
        validate_posting-balanced input amount valid in
      rw all (grind (int_laws, none_left))

  sides_of_net : (n m s t s' t' : ℤ) → n +ℤ t ≡ s → m +ℤ t' ≡ s' → m ≡ n → s' +ℤ t ≡ s +ℤ t'
  sides_of_net n m s t s' t' a b e = grind int_laws

  -- A call of postWithin that returns, on sound tables whose accounts have distinct ids, leaves the
  -- difference between the debit side and the credit side of the trial balance of every currency
  -- as it was.
  pub post_within-trial_balance :
      (input : PostingInput) (l : Ledger) (p : PostedTransaction) (c : Text)
      → IsSound l
      → Distinct l.accounts
      → (post_within input l).0 ≡ ok p
      → (trial_balance c (post_within input l).1).0 +ℤ (trial_balance c l).1
        ≡ (trial_balance c l).0 +ℤ (trial_balance c (post_within input l).1).1
  unfolding trial_balance
  post_within-trial_balance input l p c s d done =
      sides_of_net (net c l.accounts) (net c after_it.accounts) (side_balance debit c l.accounts)
        (side_balance credit c l.accounts) (side_balance debit c after_it.accounts)
        (side_balance credit c after_it.accounts) (net-side_balance c l.accounts)
        (net-side_balance c after_it.accounts)
        (elim (replayed-state input l p done) [
          | inl same ↦ rw same refl
          | inr (amount, valid, new) ↦
              let sound : IsSound (posted amount input l) =
                rw (← new) ((post_within-Keeps input).on l s).0 in
              rw new (net-posted c amount input l sound d valid)
        ])
    where
      after_it : Ledger
      after_it = (post_within input l).1

  pub map-find_account :
      (id : ℕ) (es : List PostingEntry) (rows : List LedgerAccount)
      → find_account id (map (apply_posting es) rows)
        ≡ map_option (apply_posting es) (find_account id rows)
  map-find_account id es [] = refl
  map-find_account id es (a ∷ rows) = ground (arith, map-find_account id es rows)

  -- Where postWithin returns a new posting, the account of each id is the one from before with its
  -- balance changed by exactly the signed sum of the posting's entries on it, and with nothing else
  -- changed; an id that named no account still names none.
  pub post_within-find_account :
      (input : PostingInput) (l : Ledger) (p : PostedTransaction) (id : ℕ)
      → (post_within input l).0 ≡ ok p
      → p.replayed ≡ false
      → find_account id (post_within input l).1.accounts
        ≡ map_option (apply_posting input.entries) (find_account id l.accounts)
  post_within-find_account input l p id done fresh =
      let (amount, _, _, new) = post_within-posted input l p done fresh in
      rw new (map-find_account id input.entries l.accounts)
