-- ===== src/Transactions/Changed.antt =====
-- `transition` of transactions.service.ts where it returns.
use finstack.Base.{ℕ, ◌≡◌, refl, sym, ◌∙◌, ap, inl, inr, Option, none, some, map, arith}
use mathlib.Core.Path.{subst}
use mathlib.Core.Option.{map as map_option}
use finstack.Base.Lists.{find_by-passes, find_by-map}
use finstack.Base.Result.{Result, ok, err}
use finstack.Base.Action.{after, ◌>>◌}
use finstack.Transactions.Status.{TransactionStatus, assert_transition}
use finstack.Transactions.Table.{
  Transaction, TransitionPatch, Table, find_row, has_transaction_id, or_transaction_not_found,
  transition, update_row, apply_patch, read_back,
}
use finstack.Transactions.History.{update_row-cases, changed_row, change_locked}

module _ (id : ℕ) (to : TransactionStatus) (p : TransitionPatch) (rows : Table)
    (t : Transaction) where
  -- What a run that returns `t` has left.
  abbrev Written : Result Transaction × Table → Type 0
  Written r = r.0 ≡ ok t → (find_row id r.1 ≡ some t) × (t.status ≡ to)

  ok_injective : {A : Type 0} {x y : A} → ok x ≡ ok y → x ≡ y
  ok_injective {A} {x} {y} h = cc

  found_changed :
      (current : Transaction)
      → find_row id rows ≡ some current
      → find_row id (map (changed_row id to p) rows) ≡ some (apply_patch to p current)
  found_changed current found =
      let named = find_by-passes (has_transaction_id id) rows current found in
      find_by-map (has_transaction_id id) (changed_row id to p) rows (λ x. ground arith)
      ∙ ap (map_option (changed_row id to p)) found
      ∙ rw named refl

  back-Written :
      (current : Transaction)
      → find_row id rows ≡ some current
      → Written (read_back id (map (changed_row id to p) rows))
  back-Written current found =
      let there = found_changed current found in
      rw (there, read_back)
        (λ h.
          let same : apply_patch to p current ≡ t = ok_injective h in
          (there ∙ ap (λ x. some x) same, sym (ap (λ x. x.status) same)))

  asserted :
      (current : Transaction)
      → find_row id rows ≡ some current
      → (r : Result (Unit {0}))
      → Written (after (r, rows) (λ _. update_row id to p current >> read_back id))
  asserted current found (err x) = λ h. absurd cc
  asserted current found (ok tt) = elim (update_row-cases id to p current rows) [
    | inl (x, refused) ↦
        let end : (update_row id to p current >> read_back id) rows ≡ (err x, rows) =
          rw refused refl in
        subst Written (sym end) (λ h. absurd cc)
    | inr (proved, done) ↦
        let end : (update_row id to p current >> read_back id) rows
            ≡ read_back id (map (changed_row id to p) rows) =
          rw done refl in
        subst Written (sym end) (back-Written current found)
  ]

  -- A transition that returns leaves the row that it returns, with the new status.
  pub transition-status : Written (transition id to p rows)
  unfolding transition
  transition-status = looked_up (find_row id rows) refl
    where
      looked_up :
          (o : Option Transaction)
          → find_row id rows ≡ o
          → Written (after (or_transaction_not_found o rows) (change_locked id to p))
      looked_up none e = λ h. absurd cc
      looked_up (some current) e = asserted current e (assert_transition current.status to)
