-- ===== src/Wallets/Balances.antt =====
-- The movements of wallets.service.ts against their specification (Wallets/Spec.antt): the balances
-- after a movement, and the invariant of the tables.
use finstack.Base.{ℕ, ◌≡◌, refl, sym, ◌∙◌, ap, ◌==◌, some, false}
use finstack.Base.Int.{◌+ℤ◌, +ℤ_zero}
use finstack.Base.Lists.{find_by, find_by-All}
use finstack.Base.Result.{Result, ok}
use finstack.Ledger.Types.{credit}
use finstack.Ledger.Posting.{Uuids}
use finstack.Ledger.Store.{Ledger}
use finstack.Ledger.Effect.{posting_sum}
use finstack.Ledger.Service.{PostedTransaction}
use finstack.Wallets.Wallet.{
  Wallet, MoneyMovement, Balance, available_balance, pending_balance, reserved_balance, Bank,
}
use finstack.Wallets.Access.{
  account_of, balance_at, has_wallet_id, wallet_balances, movement_posting, post_movement_within,
}
use finstack.Wallets.Spec.{Operation, run, change, changed, legs}
use finstack.Wallets.Sound.{IsBank, IsOwn, IsWallet, Later, post_within-balance_at}
use finstack.Wallets.Legs.{legs-change, legs-other}
use finstack.Wallets.Refines.{Posts, run-Posts}

-- In later tables a wallet still has its accounts.
pub Later-IsWallet : (l k : Ledger) (w : Wallet) → Later l k → IsWallet l w → IsWallet k w
Later-IsWallet l k w later h = record {
  own = λ i. later.own (account_of w i) (h.own i);
  apart = h.apart;
}

module _ ⦃u : Uuids⦄ where
  -- What a movement has done to any account of a wallet.
  Posts-balance_at :
      (op : Operation) (w : Wallet) (m : MoneyMovement) (b : Bank)
      (r : Result PostedTransaction × Bank) (p : PostedTransaction) (id : ℕ)
      → (ps : Posts op w m b r) → r.0 ≡ ok p
      → p.replayed ≡ false
      → IsOwn b.ledger id
      → balance_at id r.1.ledger
        ≡ balance_at id b.ledger +ℤ posting_sum id credit (legs op w ps.platform m.amount)
  unfolding post_movement_within
  Posts-balance_at op w m b r p id ps done fresh own =
      let input = movement_posting w.currency m (legs op w ps.platform m.amount) in
      let end : r ≡ post_movement_within w.currency m (legs op w ps.platform m.amount) ps.start =
        ps.posts in
      let posted =
        post_within-balance_at input ps.start.ledger p id (ps.ready.later.own id own)
          (sym (ap (λ s. s.0) end) ∙ done) fresh in
      rw (end, posted, ps.ready.kept id own) refl

  module _ (op : Operation) (id : ℕ) (w : Wallet) (m : MoneyMovement) (b : Bank)
      (p : PostedTransaction) (bank : IsBank b)
      (found : find_by (has_wallet_id id) b.wallets ≡ some w) (done : (run op id m b).0 ≡ ok p)
      (fresh : p.replayed ≡ false) where
    wallet : IsWallet b.ledger w
    wallet = find_by-All _ (has_wallet_id id) b.wallets w bank.wallets found

    run-balance_at :
        (k : Balance)
        → balance_at (account_of w k) (run op id m b).1.ledger
          ≡ balance_at (account_of w k) b.ledger +ℤ change op k m.amount
    run-balance_at k =
        let ps = run-Posts id w m b p bank found op done in
        let own = wallet.own k in
        Posts-balance_at op w m b (run op id m b) p (account_of w k) ps done fresh own
        ∙ ap (λ x. balance_at (account_of w k) b.ledger +ℤ x)
            (legs-change b.ledger w wallet k op ps.platform m.amount
              (ps.ready.apart (account_of w k) (ps.ready.later.own (account_of w k) own)))

    -- Where a movement returns on tables in which the accounts have distinct ids and each wallet has
    -- its three, and it is no replay, the three balances of the wallet that it names are the ones of
    -- its specification: each is changed by exactly what the specification says.
    pub run-changed :
        wallet_balances w (run op id m b).1.ledger
        ≡ changed op m.amount (wallet_balances w b.ledger)
    unfolding wallet_balances
    run-changed = cc (
      run-balance_at available_balance,
      run-balance_at pending_balance,
      run-balance_at reserved_balance,
    )

    run-others :
        (other : ℕ)
        → IsOwn b.ledger other
        → ((k : Balance) → (other == account_of w k) ≡ false)
        → balance_at other (run op id m b).1.ledger ≡ balance_at other b.ledger
    run-others other own apart =
        let ps = run-Posts id w m b p bank found op done in
        Posts-balance_at op w m b (run op id m b) p other ps done fresh own
        ∙ ap (λ x. balance_at other b.ledger +ℤ x)
            (legs-other op w other ps.platform m.amount
              (ps.ready.apart other (ps.ready.later.own other own)) apart)
        ∙ +ℤ_zero (balance_at other b.ledger)
