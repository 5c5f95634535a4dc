-- ===== src/Wallets/Holds.antt =====
-- What is held on a wallet and then released (wallets.service.ts) leaves its balances as they were.
use finstack.Base.{ℕ, ◌≡◌, ◌∙◌, ap, false, some}
use finstack.Base.Int.{ℤ, pos, ◌+ℤ◌, ◌-ℤ◌, int_laws, +ℤ_assoc, +ℤ_zero}
use finstack.Base.Lists.{find_by}
use finstack.Base.Result.{ok}
use finstack.Ledger.Posting.{Uuids}
use finstack.Ledger.Service.{PostedTransaction}
use finstack.Wallets.Wallet.{
  Wallet, WalletBalances, MoneyMovement, Balance, available_balance, pending_balance,
  reserved_balance, Bank,
}
use finstack.Wallets.Access.{has_wallet_id, wallet_balances}
use finstack.Wallets.Spec.{run, change, changed, if_positive}
use finstack.Wallets.Sound.{IsBank}
use finstack.Wallets.Balances.{run-changed}
use finstack.Wallets.History.{run-IsBank}
use finstack.Wallets.Frozen.{Hold, all_available, from_pending, holds, gives_back}

undone : (x a c : ℤ) → a +ℤ c ≡ pos 0 → x +ℤ a +ℤ c ≡ x
undone x a c h = +ℤ_assoc x a c ∙ ap (λ s. x +ℤ s) h ∙ +ℤ_zero x

change-undone :
    (h : Hold) (k : Balance) (amount : ℤ)
    → change (holds h) k amount +ℤ change (gives_back h) k amount ≡ pos 0
change-undone all_available available_balance amount = omega int_laws
change-undone all_available pending_balance amount = omega int_laws
change-undone all_available reserved_balance amount = omega int_laws
change-undone (from_pending x) available_balance amount = back (if_positive (amount -ℤ x))
  where
    back : (y : ℤ) → pos 0 -ℤ y +ℤ y ≡ pos 0
    back y = omega int_laws
change-undone (from_pending x) pending_balance amount = back (if_positive x)
  where
    back : (y : ℤ) → pos 0 -ℤ y +ℤ y ≡ pos 0
    back y = omega int_laws
change-undone (from_pending x) reserved_balance amount = omega int_laws

changed-undone :
    (h : Hold) (amount : ℤ) (x : WalletBalances)
    → changed (gives_back h) amount (changed (holds h) amount x) ≡ x
changed-undone h amount x = cc (
  undone x.available _ _ (change-undone h available_balance amount),
  undone x.pending _ _ (change-undone h pending_balance amount),
  undone x.reserved _ _ (change-undone h reserved_balance amount),
)

module _ ⦃u : Uuids⦄ where
  -- On tables in which each wallet has its three accounts: a hold on a wallet that posts, followed by
  -- the release of its own kind that posts (of a whole hold releaseWithin, of a split one
  -- releaseSplitWithin with the same part from pending) of the same amount, leaves the wallet's three
  -- balances as they were before. Neither posting is a replay.
  pub gives_back-holds :
      (h : Hold) (id : ℕ) (w : Wallet) (m n : MoneyMovement) (b : Bank) (p q : PostedTransaction)
      → IsBank b
      → find_by (has_wallet_id id) b.wallets ≡ some w
      → (run (holds h) id m b).0 ≡ ok p
      → p.replayed ≡ false
      → (run (gives_back h) id n (run (holds h) id m b).1).0 ≡ ok q
      → q.replayed ≡ false
      → n.amount ≡ m.amount
      → wallet_balances w (run (gives_back h) id n (run (holds h) id m b).1).1.ledger
        ≡ wallet_balances w b.ledger
  gives_back-holds h id w m n b p q bank found held new released fresh same =
      let (later, rows) = run-IsBank (holds h) id m b p bank held in
      let still = ap (find_by (has_wallet_id id)) rows ∙ found in
      run-changed (gives_back h) id w n (run (holds h) id m b).1 q later still released fresh
      ∙ ap (λ a. changed (gives_back h) a (wallet_balances w (run (holds h) id m b).1.ledger)) same
      ∙ ap (changed (gives_back h) m.amount) (run-changed (holds h) id w m b p bank found held new)
      ∙ changed-undone h m.amount (wallet_balances w b.ledger)
