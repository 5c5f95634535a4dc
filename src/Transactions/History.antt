-- ===== src/Transactions/History.antt =====
-- The statuses of the rows of transaction.entity.ts under `transition` of transactions.service.ts.
use finstack.Base.{
  ℕ, ◌≡◌, refl, sym, ◌∙◌, ap, ◌⊎◌, inl, inr, true, false, ◌||◌, Option, none, some, List, [], ◌∷◌,
  map, if◌then◌else◌, arith, Bool-cases, ==_iff,
}
use mathlib.Core.Path.{subst}
use mathlib.Core.Option.{map as map_option}
use finstack.Base.Lists.{find_by-passes, find_by-map}
use finstack.Base.Result.{Result, ok, err, Error}
use finstack.Base.Action.{Action, after, ◌>>◌, lift}
use finstack.Transactions.Status.{
  TransactionStatus, pending, processing, successful, failed, reversed, cancelled, expired,
  same_status, can_transition, transaction_transitions, assert_transition, Reaches, here, change,
}
use finstack.Transactions.Table.{
  Transaction, TransitionPatch, Table, find_row, has_transaction_id, has_ledger, trigger_allows,
  apply_patch, transition, update_row, or_transaction_not_found, read_back,
}

-- The trigger of the database lets a status change through exactly where the code's table of
-- transitions does, or where the status stays the same.
pub trigger_allows-can_transition :
    (old new : TransactionStatus)
    → trigger_allows old new ≡ (same_status new old || can_transition old new)
unfolding trigger_allows can_transition transaction_transitions
trigger_allows-can_transition pending pending = refl
trigger_allows-can_transition pending processing = refl
trigger_allows-can_transition pending successful = refl
trigger_allows-can_transition pending failed = refl
trigger_allows-can_transition pending reversed = refl
trigger_allows-can_transition pending cancelled = refl
trigger_allows-can_transition pending expired = refl
trigger_allows-can_transition processing pending = refl
trigger_allows-can_transition processing processing = refl
trigger_allows-can_transition processing successful = refl
trigger_allows-can_transition processing failed = refl
trigger_allows-can_transition processing reversed = refl
trigger_allows-can_transition processing cancelled = refl
trigger_allows-can_transition processing expired = refl
trigger_allows-can_transition successful pending = refl
trigger_allows-can_transition successful processing = refl
trigger_allows-can_transition successful successful = refl
trigger_allows-can_transition successful failed = refl
trigger_allows-can_transition successful reversed = refl
trigger_allows-can_transition successful cancelled = refl
trigger_allows-can_transition successful expired = refl
trigger_allows-can_transition failed pending = refl
trigger_allows-can_transition failed processing = refl
trigger_allows-can_transition failed successful = refl
trigger_allows-can_transition failed failed = refl
trigger_allows-can_transition failed reversed = refl
trigger_allows-can_transition failed cancelled = refl
trigger_allows-can_transition failed expired = refl
trigger_allows-can_transition reversed pending = refl
trigger_allows-can_transition reversed processing = refl
trigger_allows-can_transition reversed successful = refl
trigger_allows-can_transition reversed failed = refl
trigger_allows-can_transition reversed reversed = refl
trigger_allows-can_transition reversed cancelled = refl
trigger_allows-can_transition reversed expired = refl
trigger_allows-can_transition cancelled pending = refl
trigger_allows-can_transition cancelled processing = refl
trigger_allows-can_transition cancelled successful = refl
trigger_allows-can_transition cancelled failed = refl
trigger_allows-can_transition cancelled reversed = refl
trigger_allows-can_transition cancelled cancelled = refl
trigger_allows-can_transition cancelled expired = refl
trigger_allows-can_transition expired pending = refl
trigger_allows-can_transition expired processing = refl
trigger_allows-can_transition expired successful = refl
trigger_allows-can_transition expired failed = refl
trigger_allows-can_transition expired reversed = refl
trigger_allows-can_transition expired cancelled = refl
trigger_allows-can_transition expired expired = refl

abbrev pub changed_row : ℕ → TransactionStatus → TransitionPatch → Transaction → Transaction
changed_row id to p t = if has_transaction_id id t then apply_patch to p t else t

lock_reads : (o : Option Transaction) (rows : Table) → (or_transaction_not_found o rows).1 ≡ rows
lock_reads none rows = refl
lock_reads (some t) rows = refl

read_back-reads : (id : ℕ) (rows : Table) → (read_back id rows).1 ≡ rows
read_back-reads id rows = ground arith

pub update_row-cases :
    (id : ℕ) (to : TransactionStatus) (p : TransitionPatch) (current : Transaction) (rows : Table)
    → ((x : Error) × (update_row id to p current rows ≡ (err x, rows)))
      ⊎ ((has_ledger (apply_patch to p current) ≡ true)
          × (update_row id to p current rows ≡ (ok tt, map (changed_row id to p) rows)))
unfolding update_row
update_row-cases id to p current rows = elim (Bool-cases (trigger_allows current.status to)) [
  | inl allowed ↦ elim (Bool-cases (has_ledger (apply_patch to p current))) [
    | inl proved ↦ inr (proved, rw (allowed, proved) refl)
    | inr unproved ↦ inl (Error.ledger_required_check, rw (allowed, unproved) refl)
  ]
  | inr refused ↦ inl (Error.status_transition_check, rw refused refl)
]

-- What follows the lock of the row.
abbrev pub change_locked :
    ℕ → TransactionStatus → TransitionPatch → Transaction → Action Table Transaction
change_locked id to p current = do
  lift (assert_transition current.status to)
  update_row id to p current
  read_back id

change_locked-cases :
    (id : ℕ) (to : TransactionStatus) (p : TransitionPatch) (current : Transaction) (rows : Table)
    → ((change_locked id to p current rows).1 ≡ rows)
      ⊎ ((assert_transition current.status to ≡ ok tt)
          × (has_ledger (apply_patch to p current) ≡ true)
          × ((change_locked id to p current rows).1 ≡ map (changed_row id to p) rows))
change_locked-cases id to p current rows = asserted (assert_transition current.status to) refl
  where
    written : (r : Result (Unit {0}) × Table) → (after r (λ _. read_back id)).1 ≡ r.1
    written (ok tt, k) = read_back-reads id k
    written (err x, k) = refl

    asserted :
        (r : Result (Unit {0}))
        → assert_transition current.status to ≡ r
        → ((after (r, rows) (λ _. update_row id to p current >> read_back id)).1 ≡ rows)
          ⊎ ((r ≡ ok tt)
              × (has_ledger (apply_patch to p current) ≡ true)
              × ((after (r, rows) (λ _. update_row id to p current >> read_back id)).1
                  ≡ map (changed_row id to p) rows))
    asserted (err x) e = inl refl
    asserted (ok tt) e = elim (update_row-cases id to p current rows) [
      | inl (x, refused) ↦ inl (written (update_row id to p current rows) ∙ ap (λ r. r.1) refused)
      | inr (proved, done) ↦
          inr (refl, proved, written (update_row id to p current rows) ∙ ap (λ r. r.1) done)
    ]

-- A transition that changes the table was allowed, and leaves a row that the constraint allows.
transition-cases :
    (id : ℕ) (to : TransactionStatus) (p : TransitionPatch) (rows : Table)
    → ((transition id to p rows).1 ≡ rows)
      ⊎ ((current : Transaction) × (find_row id rows ≡ some current)
          × (assert_transition current.status to ≡ ok tt)
          × (has_ledger (apply_patch to p current) ≡ true)
          × ((transition id to p rows).1 ≡ map (changed_row id to p) rows))
unfolding transition
transition-cases id to p rows = looked_up (find_row id rows) refl
  where
    looked_up :
        (o : Option Transaction)
        → find_row id rows ≡ o
        → ((after (or_transaction_not_found o rows) (change_locked id to p)).1 ≡ rows)
          ⊎ ((current : Transaction) × (find_row id rows ≡ some current)
              × (assert_transition current.status to ≡ ok tt)
              × (has_ledger (apply_patch to p current) ≡ true)
              × ((after (or_transaction_not_found o rows) (change_locked id to p)).1
                  ≡ map (changed_row id to p) rows))
    looked_up none e = inl refl
    looked_up (some current) e = elim (change_locked-cases id to p current rows) [
      | inl same ↦ inl same
      | inr (allowed, proved, done) ↦ inr (current, e, allowed, proved, done)
    ]

Reaches-trans : {a b c : TransactionStatus} → Reaches a b → Reaches b c → Reaches a c
Reaches-trans here k = k
Reaches-trans (change b step rest) k = change b step (Reaches-trans rest k)

some_injective : {x y : Transaction} → some x ≡ some y → x ≡ y
some_injective {x} {y} h = ground arith

-- A row with what has become of it.
abbrev pub Became : Transaction → Option Transaction → Type 0
Became t o =
    (s : Transaction) × (o ≡ some s)
    × Reaches t.status s.status
    × (has_ledger t ≡ true → has_ledger s ≡ true)

transition-Became :
    (id : ℕ) (to : TransactionStatus) (p : TransitionPatch) (rows : Table) (i : ℕ) (t : Transaction)
    → find_row i rows ≡ some t
    → Became t (find_row i (transition id to p rows).1)
transition-Became id to p rows i t found = elim (transition-cases id to p rows) [
  | inl same ↦ (t, ap (find_row i) same ∙ found, here, λ h. h)
  | inr (current, named, allowed, proved, done) ↦
      let moved =
        find_by-map (has_transaction_id i) (changed_row id to p) rows (λ x. ground arith) in
      let read : find_row i (transition id to p rows).1 ≡ some (changed_row id to p t) =
        ap (find_row i) done ∙ moved ∙ ap (map_option (changed_row id to p)) found in
      elim (Bool-cases (has_transaction_id id t)) [
        | inl hit ↦
            let same_id : i ≡ id =
              sym ((==_iff t.id i).0 (find_by-passes (has_transaction_id i) rows t found))
              ∙ (==_iff t.id id).0 hit in
            let same : t ≡ current =
              some_injective (sym found ∙ ap (λ k. find_row k rows) same_id ∙ named) in
            (
              apply_patch to p t,
              read ∙ ap (λ x. some x) (pick_hit t hit),
              change to (subst (λ x. assert_transition x.status to ≡ ok tt) (sym same) allowed)
                  here,
              λ _. subst (λ x. has_ledger (apply_patch to p x) ≡ true) (sym same) proved,
            )
        | inr miss ↦ (t, read ∙ ap (λ x. some x) (pick_miss t miss), here, λ h. h)
      ]
]
  where
    pick_hit :
        (x : Transaction)
        → has_transaction_id id x ≡ true
        → changed_row id to p x ≡ apply_patch to p x
    pick_hit x h = rw h refl

    pick_miss : (x : Transaction) → has_transaction_id id x ≡ false → changed_row id to p x ≡ x
    pick_miss x h = rw h refl

-- Calls of `transition`, one after another, whether they return or throw.
unfoldable pub run_transitions : List (ℕ × TransactionStatus × TransitionPatch) → Table → Table
unfolding transition
run_transitions [] rows = rows
run_transitions ((id, to, p) ∷ calls) rows = run_transitions calls (transition id to p rows).1

-- Whatever transitions are asked for, on whatever rows: a row that is there stays there, each change of
-- its status is one that the code's table of transitions has, and if it was no successful or
-- reversed row without a ledger transaction, it is none afterwards.
pub run_transitions-Became :
    (calls : List (ℕ × TransactionStatus × TransitionPatch)) (rows : Table) (i : ℕ)
    (t : Transaction)
    → find_row i rows ≡ some t
    → Became t (find_row i (run_transitions calls rows))
unfolding run_transitions
run_transitions-Became [] rows i t found = (t, found, here, λ h. h)
run_transitions-Became ((id, to, p) ∷ calls) rows i t found =
    let (s, there, reached, kept) = transition-Became id to p rows i t found in
    let (r, end, on, still) = run_transitions-Became calls (transition id to p rows).1 i s there in
    (r, end, Reaches-trans reached on, λ h. still (kept h))
