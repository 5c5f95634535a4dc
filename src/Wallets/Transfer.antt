-- ===== src/Wallets/Transfer.antt =====
-- `transferWithin` of wallets.service.ts: money between two wallets of one currency.
use finstack.Base.{
  ℕ, ◌≡◌, ◌≢◌, refl, sym, ◌∙◌, ap, true, false, not, List, [], ◌∷◌, arith, Bool-cases, inl, inr,
}
use mathlib.Core.Path.{subst}
use finstack.Base.Int.{ℤ, pos, ◌+ℤ◌, ◌-ℤ◌, int_laws, +ℤ_zero}
use finstack.Base.Text.{text_eq}
use finstack.Base.Result.{Result, ok, err, Error}
use finstack.Base.Action.{after, after-ok, after-err, throw_when, Action, ◌>>◌}
use finstack.Ledger.Types.{credit}
use finstack.Ledger.Posting.{Uuids}
use finstack.Ledger.Effect.{posting_sum}
use finstack.Ledger.Service.{PostedTransaction}
use finstack.Wallets.Wallet.{Wallet, MoneyMovement, Bank}
use finstack.Wallets.Access.{
  balance_at, lock_active_wallets, movement_posting, post_movement_within,
}
use finstack.Wallets.Movements.{moved, transfer_within}
use finstack.Wallets.Sound.{IsOwn, post_within-balance_at}
use finstack.Wallets.Legs.{moved-between}
use finstack.Wallets.Refines.{locked}

module _ ⦃u : Uuids⦄ where
  transfer_within-posts :
      (from to : Wallet) (m : MoneyMovement) (b : Bank) (p : PostedTransaction)
      → (transfer_within from to m b).0 ≡ ok p
      → (text_eq from.currency to.currency ≡ true)
        × (transfer_within from to m b
            ≡ post_movement_within from.currency m
                (moved from.available_account_id to.available_account_id m.amount)
                b)
  unfolding transfer_within
  transfer_within-posts from to m b p done = elim (Bool-cases (text_eq from.currency to.currency)) [
    | inl same ↦
        let read : check ≡ (ok tt, b) = rw same refl in
        let first : after check (λ _. rest) ≡ rest b = after-ok check (λ _. rest) read in
        (same, first ∙ locked ids b within p (subst (λ r. r.0 ≡ ok p) first done))
    | inr other ↦
        let read : check.0 ≡ err Error.currency_mismatch = rw other refl in
        let thrown : (after check (λ _. rest)).0 ≡ err Error.currency_mismatch =
          after-err check (λ _. rest) read in
        absurd (ground (arith, thrown, done))
  ]
    where
      ids : List ℕ
      ids = from.id ∷ to.id ∷ []

      check : Result (Unit {0}) × Bank
      check = throw_when (not (text_eq from.currency to.currency)) Error.currency_mismatch b

      within : Action Bank PostedTransaction
      within =
          post_movement_within from.currency m
            (moved from.available_account_id to.available_account_id m.amount)

      rest : Action Bank PostedTransaction
      rest = lock_active_wallets ids >> within

  balance_at-posts :
      (from to : Wallet) (m : MoneyMovement) (b : Bank) (p : PostedTransaction) (id : ℕ) (x : ℤ)
      → IsOwn b.ledger id
      → transfer_within from to m b
        ≡ post_movement_within from.currency m
            (moved from.available_account_id to.available_account_id m.amount)
            b
      → (transfer_within from to m b).0 ≡ ok p
      → p.replayed ≡ false
      → posting_sum id credit (moved from.available_account_id to.available_account_id m.amount) ≡ x
      → balance_at id (transfer_within from to m b).1.ledger ≡ balance_at id b.ledger +ℤ x
  unfolding post_movement_within
  balance_at-posts from to m b p id x own posts done fresh is =
      let input =
        movement_posting from.currency m
          (moved from.available_account_id to.available_account_id m.amount) in
      rw posts (
        post_within-balance_at input b.ledger p id own (sym (ap (λ r. r.0) posts) ∙ done) fresh
        ∙ ap (λ y. balance_at id b.ledger +ℤ y) is)

  -- A transfer that returns and is no replay is between wallets of one currency, and moves the amount:
  -- the sender's available balance is less by it, the receiver's is more by it, and the balance of any
  -- other account of a wallet is as it was. The accounts are those of wallets, and are not the same.
  pub transfer_within-balance_at :
      (from to : Wallet) (m : MoneyMovement) (b : Bank) (p : PostedTransaction) (other : ℕ)
      → IsOwn b.ledger from.available_account_id
      → IsOwn b.ledger to.available_account_id
      → IsOwn b.ledger other
      → from.available_account_id ≢ to.available_account_id
      → other ≢ from.available_account_id
      → other ≢ to.available_account_id
      → (transfer_within from to m b).0 ≡ ok p
      → p.replayed ≡ false
      → (text_eq from.currency to.currency ≡ true)
        × (balance_at from.available_account_id (transfer_within from to m b).1.ledger
            ≡ balance_at from.available_account_id b.ledger -ℤ m.amount)
        × (balance_at to.available_account_id (transfer_within from to m b).1.ledger
            ≡ balance_at to.available_account_id b.ledger +ℤ m.amount)
        × (balance_at other (transfer_within from to m b).1.ledger ≡ balance_at other b.ledger)
  transfer_within-balance_at from to m b p other own_from own_to own_other apart not_from not_to
        done fresh =
      let (same, posts) = transfer_within-posts from to m b p done in
      let sum = λ (id : ℕ).
        moved-between id from.available_account_id to.available_account_id m.amount apart in
      let at =
        λ (id : ℕ) (own : IsOwn b.ledger id) (x : ℤ)
            (is : posting_sum id credit
                (moved from.available_account_id to.available_account_id m.amount)
              ≡ x).
          balance_at-posts from to m b p id x own posts done fresh is in
      (
        same,
        at from.available_account_id own_from _ ((sum from.available_account_id).0 refl)
            ∙ less _ m.amount,
        at to.available_account_id own_to _ ((sum to.available_account_id).1 refl),
        at other own_other _ ((sum other).2 not_from not_to) ∙ +ℤ_zero _,
      )
    where
      less : (x a : ℤ) → x +ℤ (pos 0 -ℤ a) ≡ x -ℤ a
      less x a = omega int_laws
